-- ===== src/Validator/Startup.antt =====
-- What a container whose registrations were found valid does.
use orijs.Common.{
  ℕ, ◌≡◌, refl, sym, ◌∙◌, ◌⊎◌, inl, inr, Bool, true, false, some, List, [], ◌∷◌, String, Bool-cases,
  In, arith,
}
use orijs.JsMap
use orijs.JsMap.{JsMap, get, contains}
use orijs.Container
use orijs.Container.{
  Token, class, symbol, text, Token-discrete, Built, ResolveError, token_not_registered,
  service_not_registered, async_constructor, constructor_threw, Container, Resolved, ok, error,
  out_of_fuel, prepare_resolution, ◌>>=◌, each, store, enter, finally, resolve_internal, resolve,
}
use orijs.Container.Failures.{FailsWith}
use orijs.Container.Cycles.{DependsOn, direct, further, circular_is_real}
use orijs.Container.Termination.{resolve_terminates}
use orijs.Validator.{is_constructor, check_registered, validate}
use orijs.Validator.Walks.{Uses}
use orijs.Validator.Order.{Reaches, uses, through}
use orijs.Validator.Resolvable.{Resolvable, Closed, Registered, resolve_internal-Registered}
use orijs.Validator.Clean.{check_registered-clean, valid-inversion}

-- The error of a resolution, if there is one, came from a constructor.
abbrev pub FromConstructor : {V X : Type 0} → Resolved V V X → Type 0
FromConstructor (ok v d) = Unit
FromConstructor (error (token_not_registered t) d) = ⊥
FromConstructor (error (service_not_registered t) d) = ⊥
FromConstructor (error (Container.circular_dependency t chain) d) = ⊥
FromConstructor (error (async_constructor t) d) = Unit
FromConstructor (error (constructor_threw x) d) = Unit
FromConstructor out_of_fuel = ⊥

-- Services that are no classes have their instance from the start.
abbrev pub TokensHaveInstances : {V : Type 0} → Container V → Type 0
TokensHaveInstances c =
    (t : Token)
    → is_constructor t ≡ false
    → JsMap.has Token-discrete t c.registry ≡ true
    → (get Token-discrete t c.registry ≡ some []) × (JsMap.has Token-discrete t c.instances ≡ true)

-- Where services that are no classes use nothing, a dependency on oneself is one of classes.
module _ (registry : JsMap Token (List Token)) where
  abbrev Plain : Type 0
  Plain =
      (t dep : Token) (deps : List Token)
      → get Token-discrete t registry ≡ some deps
      → In dep deps
      → is_constructor t ≡ true

  abbrev Declares : Token → Type 0
  Declares t =
      (dep : Token) × (deps : List Token) × (get Token-discrete t registry ≡ some deps)
      × In dep deps

  Declares-Uses :
      (a b : Token) (deps : List Token)
      → Plain
      → get Token-discrete a registry ≡ some deps
      → In b deps
      → Declares b
      → Uses registry a b
  Declares-Uses a b deps plain g i (dep, ds, h, k) = record {
    deps = deps;
    declared = g;
    listed = i;
    constructed = plain b dep ds h k;
    registered = ground (arith, h);
  }

  depends-Reaches :
      (a b : Token) → Plain → DependsOn registry a b → Declares b → Reaches registry a b
  depends-Reaches a b plain (direct deps g i) d = uses (Declares-Uses a b deps plain g i d)
  depends-Reaches a b plain (further {b = c} deps r g i) d =
      through (depends-Reaches a c plain r (b, deps, g, i)) (Declares-Uses c b deps plain g i d)

  depends-Declares : (a b : Token) → DependsOn registry a b → Declares a
  depends-Declares a b (direct deps g i) = (b, deps, g, i)
  depends-Declares a b (further {b = c} deps r g i) = depends-Declares a c r

module _ {V X : Type 0} (construct : Token → List V → Built V X) where
  -- When `validate` has thrown no error on a container's registrations, a registered service is
  -- resolved to an instance or fails with an error of a constructor: nothing is missing or circular,
  -- and the resolution ends; if nothing is being resolved, and services that are no classes have no
  -- dependencies and an instance.
  pub validated_resolves :
      (parameters : Token → ℕ) (resolves : String → Bool) (cache cache' : JsMap String Bool)
      (c : Container V) (service : Token)
      → validate parameters resolves c.registry c.instances c.external_deps cache
        ≡ some ([], cache')
      → c.resolving ≡ []
      → TokensHaveInstances c
      → JsMap.has Token-discrete service c.registry ≡ true
      → FromConstructor (resolve construct service c)
  unfolding resolve
  validated_resolves parameters resolves cache cache' c service e idle tokens here =
      by_result (resolve construct service c) refl registered
    where
      found :
          (check_registered parameters c.instances c.registry c.registry ≡ [])
          × ((t : Token) → ¬ (Reaches c.registry t t))
      found =
          valid-inversion parameters resolves c.registry c.instances c.external_deps cache cache' e

      is_class :
          (t : Token)
          → (is_constructor t ≡ true) ⊎ (is_constructor t ≡ false)
          → JsMap.has Token-discrete t c.registry ≡ true
          → Resolvable c t
      is_class t (inl k) h = inr (k, h)
      is_class t (inr k) h = inl (tokens t k h).1

      plain :
          (t dep : Token) (deps : List Token)
          → get Token-discrete t c.registry ≡ some deps
          → In dep deps
          → (is_constructor t ≡ true) ⊎ (is_constructor t ≡ false)
          → is_constructor t ≡ true
      plain t dep deps g i (inl k) = k
      plain t dep deps g i (inr k) =
          absurd (nothing deps (sym g ∙ (tokens t k (ground (arith, g))).0) i)
        where
          nothing : (ds : List Token) → some ds ≡ some [] → In dep ds → ⊥
          nothing [] h j = elim j [ ]
          nothing (x ∷ xs) h j = cc

      closed : Closed c
      closed t dep deps g n i = is_class dep (Bool-cases (is_constructor dep)) (
          check_registered-clean parameters c.instances c.registry c.registry t dep deps found.0 g
            (plain t dep deps g i (Bool-cases (is_constructor t))) n i)

      registered : FailsWith Registered (resolve construct service c)
      registered =
          resolve_internal-Registered construct _ service c closed
            (is_class service (Bool-cases (is_constructor service)) here)

      by_error :
          (x : ResolveError X) (d : Container V)
          → resolve construct service c ≡ error x d
          → Registered x
          → FromConstructor {V = V} (error x d)
      by_error (token_not_registered t) d p k = k
      by_error (service_not_registered t) d p k = k
      by_error (Container.circular_dependency t chain) d p k =
          let loop = circular_is_real construct service t chain c d idle p in
          found.1 t (
            depends-Reaches c.registry t t
              (λ s dep deps g i. plain s dep deps g i (Bool-cases (is_constructor s))) loop
              (depends-Declares c.registry t t loop))
      by_error (async_constructor t) d p k = tt
      by_error (constructor_threw x) d p k = tt

      by_result :
          (r : Resolved V V X)
          → resolve construct service c ≡ r
          → FailsWith Registered r
          → FromConstructor r
      by_result (ok v d) p k = tt
      by_result (error x d) p k = by_error x d p k
      by_result out_of_fuel p k = resolve_terminates construct service c p
