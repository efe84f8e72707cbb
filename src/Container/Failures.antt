-- ===== src/Container/Failures.antt =====
-- What is known of the error with which a resolution of container.ts ends, if it ends with one.
use orijs.Common.{List, [], ◌∷◌, In, first, later, refl}
use orijs.Container.{
  Token, Built, instance_of, promise_of, threw, ResolveError, async_constructor, constructor_threw,
  Container, Resolved, ok, error, out_of_fuel, ◌>>=◌, each, store, finally,
}
use orijs.Container.Resolving.{Extends, Extends-refl, Extends-trans, Leaves, IsCached}

module _ {V X : Type 0} (P : ResolveError X → Type 0) where
  abbrev pub FailsWith : {A : Type 0} → Resolved A V X → Type 0
  FailsWith (ok a d) = Unit
  FailsWith (error e d) = P e
  FailsWith out_of_fuel = Unit

  pub each-FailsWith :
      (f : Token → Container V → Resolved V V X)
      → ((t : Token) (c : Container V) → Leaves (IsCached t) c (f t c))
      → (deps : List Token) (c : Container V)
      → ((t : Token) (d : Container V) → In t deps → Extends c d → FailsWith (f t d))
      → FailsWith (each f deps c)
  unfolding each
  each-FailsWith f h [] c k = tt
  each-FailsWith f h (dep ∷ deps) c k =
      by_first (f dep c) (h dep c) (k dep c (first refl) (Extends-refl c))
        (λ d p. each-FailsWith f h deps d (λ t e m q. k t e (later m) (Extends-trans c d e p q)))
    where
      by_rest :
          (v : V) (r : Resolved (List V) V X)
          → FailsWith r
          → FailsWith (r >>= λ vs e. ok (v ∷ vs) e)
      by_rest v (ok vs e) q = tt
      by_rest v (error x e) q = q
      by_rest v out_of_fuel q = tt

      by_first :
          (r : Resolved V V X)
          → Leaves (IsCached dep) c r
          → FailsWith r
          → ((d : Container V) → Extends c d → FailsWith (each f deps d))
          → FailsWith (r >>= λ v d. each f deps d >>= λ vs e. ok (v ∷ vs) e)
      by_first (ok v d) p q rest = by_rest v (each f deps d) (rest d p.0)
      by_first (error x d) p q rest = q
      by_first out_of_fuel p q rest = tt

  pub finally-FailsWith :
      (construct : Token → List V → Built V X) (token : Token) (r : Resolved (List V) V X)
      → P (async_constructor token)
      → ((x : X) → P (constructor_threw x))
      → FailsWith r
      → FailsWith (finally token (r >>= λ vs d. store token (construct token vs) d))
  finally-FailsWith construct token (error e d) a b h = h
  finally-FailsWith construct token out_of_fuel a b h = tt
  finally-FailsWith construct token (ok vs d) a b h = by_built (construct token vs)
    where
      by_built : (b : Built V X) → FailsWith (finally token (store token b d))
      by_built (instance_of v) = tt
      by_built (promise_of v) = a
      by_built (threw x) = b x
