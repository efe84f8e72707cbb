-- ===== src/Container/Tests.antt =====
-- The theorems on the container at small graphs of services.
use orijs.Common.{ℕ, ◌≡◌, refl, ◌≢◌, true, List, [], ◌∷◌, is_some, first}
use orijs.JsMap.{get, set, contains, add, remove}
use orijs.Container.{
  Token, class, Token-discrete, Built, instance_of, Container, ok, out_of_fuel, prepare_resolution,
  each, resolve_internal, resolve,
}
use orijs.Container.Resolving.{Leaves, IsCached}
use orijs.Container.Singletons.{resolve-Leaves, resolve_again}
use orijs.Container.Termination.{resolve_terminates}
use orijs.Container.Cycles.{DependsOn, circular_is_real}
use orijs.Container.Async.{resolve_async_error}
use orijs.Container.Async.Sharing.{shared_dependency_rejects}

-- An instance is the number of its dependencies.
abbrev count : Token → List ℕ → Built ℕ ℕ
count token [] = instance_of 0
count token (v ∷ vs) = instance_of 1

-- `class 0` depends on `class 1`.
abbrev pair : Container ℕ
pair = record {
  instances = [];
  registry = (class 0, class 1 ∷ []) ∷ (class 1, []) ∷ [];
  resolving = [];
  external_deps = [];
}

abbrev pair_half : Container ℕ
pair_half = record pair { instances = (class 1, 0) ∷ [] }

abbrev pair_full : Container ℕ
pair_full = record pair { instances = (class 1, 0) ∷ (class 0, 1) ∷ [] }

resolve-Leaves_example : Leaves (IsCached (class 0)) pair (resolve count (class 0) pair)
resolve-Leaves_example = resolve-Leaves count (class 0) pair

resolve_again_example :
    (resolve count (class 1) pair_half ≡ ok 0 pair_half)
    × (resolve count (class 1) pair_full ≡ ok 0 pair_full)
unfolding resolve resolve_internal prepare_resolution each get set contains add remove
    Token-discrete
resolve_again_example =
    resolve_again count (class 1) (class 0) pair pair_half pair_full 0 1 refl refl

abbrev cycle : Container ℕ
cycle = record pair { registry = (class 0, class 1 ∷ []) ∷ (class 1, class 0 ∷ []) ∷ [] }

resolve_terminates_example : resolve count (class 0) cycle ≢ out_of_fuel
resolve_terminates_example = resolve_terminates count (class 0) cycle

circular_is_real_example : DependsOn cycle.registry (class 0) (class 0)
unfolding resolve resolve_internal prepare_resolution each get set contains add remove
    Token-discrete
circular_is_real_example =
    circular_is_real count (class 0) (class 0) (class 0 ∷ class 1 ∷ []) cycle cycle refl refl

-- Both dependencies of `class 0` depend on `class 3`.
abbrev diamond : Container ℕ
diamond = record pair {
  registry =
      (class 0, class 1 ∷ class 2 ∷ [])
      ∷ (class 1, class 3 ∷ [])
      ∷ (class 2, class 3 ∷ [])
      ∷ (class 3, [])
      ∷ [];
}

shared_dependency_rejects_example : is_some (resolve_async_error {X = ℕ} (class 0) diamond) ≡ true
unfolding get Token-discrete
shared_dependency_rejects_example =
    shared_dependency_rejects ℕ (class 0) (class 1) (class 2) (class 3) [] (class 2 ∷ [])
      (class 3 ∷ []) (class 3 ∷ []) diamond refl (first refl) refl (first refl) refl (first refl)
      refl refl refl refl
