-- ===== src/Validator/Resolvable.antt =====
-- Resolutions in containers where all that can be asked for is registered.
use orijs.Common.{
  ℕ, zero, suc, ◌≡◌, refl, sym, ap, ◌∙◌, subst, ◌⊎◌, inl, inr, true, Option, none, some, List,
  Option-cases, Bool-cases, In, arith,
}
use orijs.JsMap
use orijs.JsMap.{JsMap, get, contains}
use orijs.Container
use orijs.Container.{
  Token, class, symbol, text, Token-discrete, Built, ResolveError, token_not_registered,
  service_not_registered, async_constructor, constructor_threw, Container, Resolved, ok, error,
  out_of_fuel, prepare_resolution, ◌>>=◌, each, store, enter, finally, resolve_internal, resolve,
}
use orijs.Container.Resolving.{Extends, prepare-inversion, resolve_internal-Leaves}
use orijs.Container.Failures.{FailsWith, each-FailsWith, finally-FailsWith}
use orijs.Validator.{is_constructor}

module _ {V : Type 0} where
  -- There is an instance, or there is a constructor with registered dependencies.
  abbrev pub Resolvable : Container V → Token → Type 0
  Resolvable c t =
      (JsMap.has Token-discrete t c.instances ≡ true)
      ⊎ ((is_constructor t ≡ true) × (JsMap.has Token-discrete t c.registry ≡ true))

  -- All that can be asked for in the course of a resolution is resolvable.
  abbrev pub Closed : Container V → Type 0
  Closed c =
      (t dep : Token) (deps : List Token)
      → get Token-discrete t c.registry ≡ some deps
      → get Token-discrete t c.instances ≡ none
      → In dep deps
      → Resolvable c dep

  grown-Resolvable : (c d : Container V) (t : Token) → Extends c d → Resolvable c t → Resolvable d t
  grown-Resolvable c d t p (inr (a, b)) = inr (a, rw p.same_registry b)
  grown-Resolvable c d t p (inl a) = elim (Option-cases (get Token-discrete t c.instances)) [
    | inl e ↦ absurd (ground (arith, e))
    | inr (v, e) ↦ inl (ground (arith, p.keeps t v e))
  ]

  grown-Closed : (c d : Container V) → Extends c d → Closed c → Closed d
  grown-Closed c d p h t dep deps g e i = grown-Resolvable c d dep p (
      h t dep deps (ap (get Token-discrete t) (sym p.same_registry) ∙ g)
        (was_none (get Token-discrete t c.instances) refl) i)
    where
      was_none :
          (o : Option V)
          → get Token-discrete t c.instances ≡ o
          → get Token-discrete t c.instances ≡ none
      was_none none q = q
      was_none (some v) q = absurd (apart (sym (p.keeps t v q) ∙ e))
        where
          apart : some v ≡ none → ⊥
          apart a = cc

-- Everything asked for was registered.
abbrev pub Registered : {X : Type 0} → ResolveError X → Type 0
Registered (token_not_registered t) = ⊥
Registered (service_not_registered t) = ⊥
Registered (Container.circular_dependency t chain) = Unit
Registered (async_constructor t) = Unit
Registered (constructor_threw x) = Unit

module _ {V X : Type 0} where
  prepare-Registered :
      (token : Token) (c : Container V) (e : ResolveError X)
      → (is_constructor token ≡ true) × (JsMap.has Token-discrete token c.registry ≡ true)
      → prepare_resolution token c ≡ inl e
      → Registered e
  unfolding prepare_resolution
  prepare-Registered (symbol n) c e (h, k) p = absurd cc
  prepare-Registered (text s) c e (h, k) p = absurd cc
  prepare-Registered (class n) c e (h, k) p =
      elim (Bool-cases (contains Token-discrete (class n) c.resolving)) [
        | inl q ↦
            subst Registered
              (same (Container.circular_dependency (class n) c.resolving) (ground arith)) tt
        | inr q ↦ absurd (ground (arith, k))
      ]
    where
      same : (x : ResolveError X) → x ≡ e → x ≡ e
      same x h = h

  module _ (construct : Token → List V → Built V X) where
    pub resolve_internal-Registered :
        (fuel : ℕ) (token : Token) (c : Container V)
        → Closed c
        → Resolvable c token
        → FailsWith Registered (resolve_internal construct fuel token c)
    unfolding resolve_internal
    resolve_internal-Registered zero token c h r = tt
    resolve_internal-Registered (suc fuel) token c h r =
        elim (Option-cases (get Token-discrete token c.instances)) [
          | inr (v, e) ↦ rw (e, resolve_internal) tt
          | inl e ↦
              rw (e, resolve_internal)
                (by_prepared e (prepare_resolution token c) refl (resolve_internal-Registered fuel))
        ]
      where
        not_cached :
            get Token-discrete token c.instances ≡ none
            → Resolvable c token
            → (is_constructor token ≡ true) × (JsMap.has Token-discrete token c.registry ≡ true)
        not_cached e (inr x) = x
        not_cached e (inl x) = absurd (ground (arith, e))

        by_prepared :
            get Token-discrete token c.instances ≡ none
            → (r : ResolveError X ⊎ (Token × List Token)) → prepare_resolution token c ≡ r
            → ((t : Token) (d : Container V)
                → Closed d
                → Resolvable d t
                → FailsWith Registered (resolve_internal construct fuel t d))
            → FailsWith Registered (elim r [
              | inl e ↦ error e c
              | inr (service, deps) ↦ finally service (
                  each (resolve_internal construct fuel) deps (enter service c) >>= λ vs c'.
                  store service (construct service vs) c')
            ])
        by_prepared e (inl x) p ih = prepare-Registered token c x (not_cached e r) p
        by_prepared e (inr (service, deps)) p ih =
            let (same, free, found) = prepare-inversion token c p in
            rw same (
              finally-FailsWith Registered construct token _ tt (λ x. tt)
                (each-FailsWith Registered (resolve_internal construct fuel)
                  (resolve_internal-Leaves construct fuel) deps (enter token c)
                  (λ t d m q.
                    ih t d (grown-Closed (enter token c) d q h)
                      (grown-Resolvable (enter token c) d t q (h token t deps found e m)))))
