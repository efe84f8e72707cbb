-- ===== src/Container/Resolving.antt =====
-- What a resolution of container.ts leaves behind, on every branch.
use orijs.Common.{
  ℕ, zero, suc, ◌≡◌, refl, ◌∙◌, ◌⊎◌, inl, inr, false, none, some, List, [], ◌∷◌, arith,
  Option-cases,
}
use orijs.JsMap.{get, set, contains}
use orijs.JsMap.Laws.{get-set, get-set_self, remove-add}
use orijs.Container.{
  Token, class, symbol, text, Token-discrete, Built, instance_of, promise_of, threw, ResolveError,
  Container, Resolved, ok, error, out_of_fuel, prepare_resolution, ◌>>=◌, each, store, enter,
  stop_resolving, finally, resolve_internal,
}

module _ {V : Type 0} where
  -- Nothing is registered or forgotten, and a cached instance is never replaced.
  pub record Extends (c d : Container V) : Type 0 where
    pub same_resolving : d.resolving ≡ c.resolving
    pub same_registry : d.registry ≡ c.registry
    pub keeps :
        (t : Token) (v : V)
        → get Token-discrete t c.instances ≡ some v
        → get Token-discrete t d.instances ≡ some v

  pub Extends-refl : (c : Container V) → Extends c c
  Extends-refl c = record { same_resolving = refl; same_registry = refl; keeps = λ t v h. h }

  pub Extends-trans : (c d e : Container V) → Extends c d → Extends d e → Extends c e
  Extends-trans c d e p q = record {
    same_resolving = q.same_resolving ∙ p.same_resolving;
    same_registry = q.same_registry ∙ p.same_registry;
    keeps = λ t v h. q.keeps t v (p.keeps t v h);
  }

module _ {V : Type 0} where
  -- The `finally` block gives back the set of services being resolved.
  left :
      (token : Token) (c d : Container V)
      → contains Token-discrete token c.resolving ≡ false
      → Extends (enter token c) d
      → Extends c (stop_resolving token d)
  left token c d free p = record {
    same_resolving = rw p.same_resolving (remove-add Token-discrete token c.resolving free);
    same_registry = p.same_registry;
    keeps = p.keeps;
  }

  stored :
      (token : Token) (v : V) (c d : Container V)
      → contains Token-discrete token c.resolving ≡ false
      → get Token-discrete token c.instances ≡ none
      → Extends (enter token c) d
      → Extends c
          (stop_resolving token (record d { instances = set Token-discrete token v d.instances }))
  stored token v c d free fresh p = record {
    same_resolving = (left token c d free p).same_resolving;
    same_registry = p.same_registry;
    keeps = λ t w h. ground (arith, get-set Token-discrete t token v d.instances, p.keeps t w h);
  }

abbrev pub Any : {A V : Type 0} → A → Container V → Type 0
Any a c = Unit

abbrev pub IsCached : {V : Type 0} → Token → V → Container V → Type 0
IsCached token v c = get Token-discrete token c.instances ≡ some v

module _ {V X : Type 0} where
  abbrev pub Leaves :
      {A : Type 0} → (A → Container V → Type 0) → Container V → Resolved A V X → Type 0
  Leaves P c (ok a d) = Extends c d × P a d
  Leaves P c (error e d) = Extends c d
  Leaves P c out_of_fuel = Unit

  pub each-Leaves :
      (f : Token → Container V → Resolved V V X)
      → ((t : Token) (c : Container V) → Leaves (IsCached t) c (f t c))
      → (deps : List Token) (c : Container V) → Leaves Any c (each f deps c)
  unfolding each
  each-Leaves f h [] c = (Extends-refl c, tt)
  each-Leaves f h (dep ∷ deps) c = by_first (f dep c) (h dep c) (each-Leaves f h deps)
    where
      by_rest :
          (v : V) (d : Container V) (r : Resolved (List V) V X)
          → Extends c d
          → Leaves Any d r
          → Leaves Any c (r >>= λ vs e. ok (v ∷ vs) e)
      by_rest v d (ok vs e) p q = (Extends-trans c d e p q.0, tt)
      by_rest v d (error x e) p q = Extends-trans c d e p q
      by_rest v d out_of_fuel p q = tt

      by_first :
          (r : Resolved V V X)
          → Leaves (IsCached dep) c r
          → ((d : Container V) → Leaves Any d (each f deps d))
          → Leaves Any c (r >>= λ v d. each f deps d >>= λ vs e. ok (v ∷ vs) e)
      by_first (ok v d) p rest = by_rest v d (each f deps d) p.0 (rest d)
      by_first (error x d) p rest = p
      by_first out_of_fuel p rest = tt

  pub prepare-inversion :
      (token : Token) (c : Container V) {service : Token} {deps : List Token}
      → prepare_resolution {X = X} token c ≡ inr (service, deps)
      → (service ≡ token)
        × (contains Token-discrete token c.resolving ≡ false)
        × (get Token-discrete token c.registry ≡ some deps)
  unfolding prepare_resolution
  prepare-inversion (class n) c e = ground arith
  prepare-inversion (symbol n) c e = cc
  prepare-inversion (text s) c e = cc

  module _ (construct : Token → List V → Built V X) where
    finally-Leaves :
        (token : Token) (c : Container V) (r : Resolved (List V) V X)
        → contains Token-discrete token c.resolving ≡ false
        → get Token-discrete token c.instances ≡ none
        → Leaves Any (enter token c) r
        → Leaves
            (IsCached token)
            c
            (finally token (r >>= λ vs d. store token (construct token vs) d))
    finally-Leaves token c (error e d) free fresh p = left token c d free p
    finally-Leaves token c out_of_fuel free fresh p = tt
    finally-Leaves token c (ok vs d) free fresh (p, _) = by_built (construct token vs)
      where
        by_built : (b : Built V X) → Leaves (IsCached token) c (finally token (store token b d))
        by_built (instance_of v) =
            (stored token v c d free fresh p, get-set_self Token-discrete token v d.instances)
        by_built (promise_of v) = left token c d free p
        by_built (threw x) = left token c d free p

    pub resolve_internal-Leaves :
        (fuel : ℕ) (token : Token) (c : Container V)
        → Leaves (IsCached token) c (resolve_internal construct fuel token c)
    unfolding resolve_internal
    resolve_internal-Leaves zero token c = tt
    resolve_internal-Leaves (suc fuel) token c =
        elim (Option-cases (get Token-discrete token c.instances)) [
          | inr (v, e) ↦ rw (e, resolve_internal) (Extends-refl c, e)
          | inl e ↦
              rw (e, resolve_internal)
                (by_prepared e (prepare_resolution token c) refl (resolve_internal-Leaves fuel))
        ]
      where
        by_prepared :
            get Token-discrete token c.instances ≡ none
            → (r : ResolveError X ⊎ (Token × List Token)) → prepare_resolution token c ≡ r
            → ((t : Token) (d : Container V)
                → Leaves (IsCached t) d (resolve_internal construct fuel t d))
            → Leaves (IsCached token) c (elim r [
              | inl e ↦ error e c
              | inr (service, deps) ↦ finally service (
                  each (resolve_internal construct fuel) deps (enter service c) >>= λ vs c'.
                  store service (construct service vs) c')
            ])
        by_prepared fresh (inl e) p ih = Extends-refl c
        by_prepared fresh (inr (service, deps)) p ih =
            let (same, free, _) = prepare-inversion token c p in
            rw same (
              finally-Leaves token c _ free fresh
                (each-Leaves (resolve_internal construct fuel) ih deps (enter token c)))
