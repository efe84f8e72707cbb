-- ===== src/Container.antt =====
-- packages/core/src/container.ts: the dependency injection container. A class is a number, its
-- constructor a parameter; names, log messages and the warning about slow resolution are left out.
pub mod Resolving
pub mod Singletons
pub mod Termination
pub mod Failures
pub mod Cycles
pub mod Async
mod Tests
use orijs.Common.{
  ℕ, zero, suc, Bool, true, false, Option, none, some, List, [], ◌∷◌, ◌⊎◌, inl, inr, String,
  String-discrete, ℕ_discrete, ltb, length, if◌then◌else◌,
}
use orijs.JsMap
use orijs.JsMap.{JsMap, get, set, contains, add, remove, size}

-- `InjectionToken`
pub data Token : Type 0 where
  class : ℕ → Token
  symbol : ℕ → Token
  text : String → Token

unfoldable pub Token-discrete : Discrete Token
unfolding ℕ_discrete String-discrete
Token-discrete = hlevel (ℕ_discrete, String-discrete)

-- What `new service(...)` gives: an instance, a promise of one, or an exception.
pub data Built (V X : Type 0) : Type 0 where
  instance_of promise_of : V → Built V X
  threw : X → Built V X

pub data ResolveError (X : Type 0) : Type 0 where
  token_not_registered : Token → ResolveError X
  circular_dependency : Token → List Token → ResolveError X
  service_not_registered : Token → ResolveError X
  async_constructor : Token → ResolveError X
  constructor_threw : X → ResolveError X

pub record Container (V : Type 0) : Type 0 where
  pub instances : JsMap Token V
  pub registry : JsMap Token (List Token)
  pub resolving : List Token
  pub external_deps : JsMap Token (List String)

pub data Resolved (A V X : Type 0) : Type 0 where
  ok : A → Container V → Resolved A V X
  error : ResolveError X → Container V → Resolved A V X
  out_of_fuel : Resolved A V X

module _ {V : Type 0} where
  unfoldable pub register : Token → List Token → Container V → Container V
  register service deps c = record c { registry = set Token-discrete service deps c.registry }

  unfoldable pub register_with_external :
      Token → List Token → List String → Container V → Container V
  register_with_external service deps external c =
      let c' = register service deps c in
      if ltb 0 (length external)
      then record c' { external_deps = set Token-discrete service external c.external_deps }
      else c'

  unfoldable pub register_instance : Token → V → Container V → Container V
  register_instance token v c = record c {
    registry = set Token-discrete token [] c.registry;
    instances = set Token-discrete token v c.instances;
  }

  unfoldable pub has : Token → Container V → Bool
  has token c = JsMap.has Token-discrete token c.registry

  unfoldable pub clear_instances : Container V → Container V
  clear_instances c = record c { instances = [] }

  unfoldable pub clear : Container V → Container V
  clear c = record c { instances = []; registry = []; external_deps = [] }

  unfoldable pub get_registered_count : Container V → ℕ
  get_registered_count c = size c.registry

module _ {V : Type 0} where
  -- `this.resolving.add(service)`
  abbrev pub enter : Token → Container V → Container V
  enter service c = record c { resolving = add Token-discrete service c.resolving }

  abbrev pub stop_resolving : Token → Container V → Container V
  stop_resolving service c = record c { resolving = remove Token-discrete service c.resolving }

module _ {V X : Type 0} where
  abbrev check_circular : Bool → Token → Container V → ResolveError X ⊎ (Token × List Token)
  check_circular true service c = inl (circular_dependency service c.resolving)
  check_circular false service c = elim (get Token-discrete service c.registry) [
    | none ↦ inl (service_not_registered service)
    | some deps ↦ inr (service, deps)
  ]

  unfoldable pub prepare_resolution : Token → Container V → ResolveError X ⊎ (Token × List Token)
  prepare_resolution (symbol n) c = inl (token_not_registered (symbol n))
  prepare_resolution (text s) c = inl (token_not_registered (text s))
  prepare_resolution (class n) c =
      check_circular (contains Token-discrete (class n) c.resolving) (class n) c

  infixl 5 ◌>>=◌
  abbrev pub ◌>>=◌ :
      {A B : Type 0} → Resolved A V X → (A → Container V → Resolved B V X) → Resolved B V X
  ok a c >>= k = k a c
  error e c >>= k = error e c
  out_of_fuel >>= k = out_of_fuel

  -- `deps.map((dep) => this.resolveInternalSync(dep))`
  unfoldable pub each :
      (Token → Container V → Resolved V V X) → List Token → Container V → Resolved (List V) V X
  each f [] c = ok [] c
  each f (dep ∷ deps) c = f dep c >>= λ v c'. each f deps c' >>= λ vs c''. ok (v ∷ vs) c''

  -- What follows the call of the constructor.
  abbrev pub store : Token → Built V X → Container V → Resolved V V X
  store service (instance_of v) c =
      ok v (record c { instances = set Token-discrete service v c.instances })
  store service (promise_of v) c = error (async_constructor service) c
  store service (threw x) c = error (constructor_threw x) c

  -- `finally { this.resolving.delete(service) }`
  abbrev pub finally : Token → Resolved V V X → Resolved V V X
  finally service (ok v c) = ok v (stop_resolving service c)
  finally service (error e c) = error e (stop_resolving service c)
  finally service out_of_fuel = out_of_fuel

  module _ (construct : Token → List V → Built V X) where
    -- `resolveInternalSync`; the fuel bounds the depth of the recursion.
    unfoldable pub resolve_internal : ℕ → Token → Container V → Resolved V V X
    resolve_internal zero token c = out_of_fuel
    resolve_internal (suc fuel) token c = elim (get Token-discrete token c.instances) [
      | some v ↦ ok v c
      | none ↦ elim (prepare_resolution token c) [
        | inl e ↦ error e c
        | inr (service, deps) ↦ finally service (
            each (resolve_internal fuel) deps (enter service c) >>= λ vs c'.
            store service (construct service vs) c')
      ]
    ]

    -- `resolve`: no call nests deeper than there are registered services.
    unfoldable pub resolve : Token → Container V → Resolved V V X
    resolve token c = resolve_internal (suc (suc (size c.registry))) token c
