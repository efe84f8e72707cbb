-- ===== src/Container/Termination.antt =====
-- A resolution of container.ts ends on every dependency graph, a cyclic one too.
use orijs.Common.{
  ℕ, zero, suc, ◌≤◌, ◌<◌, ◌≡◌, ◌≢◌, refl, subst, ◌⊎◌, inl, inr, false, some, List, [], ◌∷◌, arith,
  Option-cases, length, if◌then◌else◌,
}
use orijs.JsMap.{JsMap, get, contains, add, size}
use orijs.JsMap.Laws.{contains-add}
use orijs.Container.{
  Token, Token-discrete, Built, instance_of, promise_of, threw, ResolveError, Container, Resolved,
  ok, error, out_of_fuel, prepare_resolution, ◌>>=◌, each, store, enter, finally, resolve_internal,
  resolve,
}
use orijs.Container.Resolving.{
  Extends, Extends-refl, Extends-trans, Leaves, IsCached, prepare-inversion,
  resolve_internal-Leaves,
}

-- The registered services that are not being resolved.
pub room : List Token → JsMap Token (List Token) → ℕ
room s [] = 0
room s ((k, deps) ∷ m) = if contains Token-discrete k s then room s m else suc (room s m)

pub room-le : (s : List Token) (m : JsMap Token (List Token)) → room s m ≤ length m
unfolding room
room-le s [] = omega arith
room-le s ((k, deps) ∷ m) = ground (arith, room-le s m)

room-add-le :
    (t : Token) (s : List Token) (m : JsMap Token (List Token))
    → room (add Token-discrete t s) m ≤ room s m
unfolding room
room-add-le t s [] = omega arith
room-add-le t s ((k, deps) ∷ m) =
    ground (arith, room-add-le t s m, contains-add Token-discrete k t s)

pub room-add-lt :
    (t : Token) (s : List Token) (m : JsMap Token (List Token)) (found : List Token)
    → contains Token-discrete t s ≡ false
    → get Token-discrete t m ≡ some found
    → room (add Token-discrete t s) m < room s m
unfolding room get
room-add-lt t s [] found h e = cc
room-add-lt t s ((k, deps) ∷ m) found h e =
    ground (arith, room-add-lt t s m found h, room-add-le t s m, contains-add Token-discrete k t s)

module _ {V X : Type 0} where
  abbrev Ends : {A : Type 0} → Resolved A V X → Type 0
  Ends (ok a c) = Unit
  Ends (error e c) = Unit
  Ends out_of_fuel = ⊥

  each-Ends :
      (f : Token → Container V → Resolved V V X)
      → ((t : Token) (c : Container V) → Leaves (IsCached t) c (f t c))
      → (deps : List Token) (c : Container V)
      → ((t : Token) (d : Container V) → Extends c d → Ends (f t d))
      → Ends (each f deps c)
  unfolding each
  each-Ends f h [] c k = tt
  each-Ends f h (dep ∷ deps) c k =
      by_first (f dep c) (h dep c) (k dep c (Extends-refl c))
        (λ d p. each-Ends f h deps d (λ t e q. k t e (Extends-trans c d e p q)))
    where
      by_rest : (v : V) (r : Resolved (List V) V X) → Ends r → Ends (r >>= λ vs e. ok (v ∷ vs) e)
      by_rest v (ok vs e) q = tt
      by_rest v (error x e) q = tt
      by_rest v out_of_fuel q = elim q [ ]

      by_first :
          (r : Resolved V V X)
          → Leaves (IsCached dep) c r
          → Ends r
          → ((d : Container V) → Extends c d → Ends (each f deps d))
          → Ends (r >>= λ v d. each f deps d >>= λ vs e. ok (v ∷ vs) e)
      by_first (ok v d) p q rest = by_rest v (each f deps d) (rest d p.0)
      by_first (error x d) p q rest = tt
      by_first out_of_fuel p q rest = elim q [ ]

  finally-Ends :
      (construct : Token → List V → Built V X) (token : Token) (r : Resolved (List V) V X)
      → Ends r
      → Ends (finally token (r >>= λ vs d. store token (construct token vs) d))
  finally-Ends construct token (error e d) h = tt
  finally-Ends construct token out_of_fuel h = elim h [ ]
  finally-Ends construct token (ok vs d) h = by_built (construct token vs)
    where
      by_built : (b : Built V X) → Ends (finally token (store token b d))
      by_built (instance_of v) = tt
      by_built (promise_of v) = tt
      by_built (threw x) = tt

  module _ (construct : Token → List V → Built V X) where
    resolve_internal-Ends :
        (fuel : ℕ) (token : Token) (c : Container V)
        → room c.resolving c.registry < fuel
        → Ends (resolve_internal construct fuel token c)
    unfolding resolve_internal
    resolve_internal-Ends zero token c h = elim h [ ]
    resolve_internal-Ends (suc fuel) token c h =
        elim (Option-cases (get Token-discrete token c.instances)) [
          | inr (v, e) ↦ rw (e, resolve_internal) tt
          | inl e ↦
              rw (e, resolve_internal)
                (by_prepared (prepare_resolution token c) refl (resolve_internal-Ends fuel))
        ]
      where
        by_prepared :
            (r : ResolveError X ⊎ (Token × List Token))
            → prepare_resolution token c ≡ r
            → ((t : Token) (d : Container V)
                → room d.resolving d.registry < fuel
                → Ends (resolve_internal construct fuel t d))
            → Ends (elim r [
              | inl e ↦ error e c
              | inr (service, deps) ↦ finally service (
                  each (resolve_internal construct fuel) deps (enter service c) >>= λ vs c'.
                  store service (construct service vs) c')
            ])
        by_prepared (inl e) p ih = tt
        by_prepared (inr (service, deps)) p ih =
            let (same, free, found) = prepare-inversion token c p in
            let less = room-add-lt token c.resolving c.registry deps free found in
            rw same (
              finally-Ends construct token _ (
                each-Ends (resolve_internal construct fuel) (resolve_internal-Leaves construct fuel)
                  deps (enter token c)
                  (λ t d q. ih t d (rw (q.same_resolving, q.same_registry) (omega arith)))))

    -- Whatever is registered, the depth that the model allows is enough: a resolution gives an
    -- instance or an error, and never goes on without end, on a cyclic graph of dependencies too.
    pub resolve_terminates :
        (token : Token) (c : Container V) → resolve construct token c ≢ out_of_fuel
    unfolding resolve
    resolve_terminates token c e = subst Ends e (
        resolve_internal-Ends (suc (suc (size c.registry))) token c
          (omega (arith, room-le c.resolving c.registry)))
