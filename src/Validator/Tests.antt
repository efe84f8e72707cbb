-- ===== src/Validator/Tests.antt =====
-- The theorems on the validator at a small graph of services.
use orijs.Common.{
  ℕ, zero, suc, ◌≡◌, refl, subst, ◌⊎◌, Bool, true, some, List, [], ◌∷◌, String, All, arith,
}
use orijs.JsMap
use orijs.JsMap.{JsMap, get, set, contains, add, remove}
use orijs.Container.{
  Token, class, symbol, text, Token-discrete, Built, instance_of, Container, resolve,
}
use orijs.Validator.{
  Search, detect_cycles, detect_each, detect_cycle_from, visit_deps, index_of, add_cycle, pop,
  check_deps, check_count, check_registered, is_package_installed, check_packages, check_external,
  validate,
}
use orijs.Validator.Walks.{IsCycle}
use orijs.Validator.Order.{Reaches}
use orijs.Validator.Detection.{detect_cycles_decides}
use orijs.Validator.Startup.{FromConstructor, TokensHaveInstances, validated_resolves}

abbrev loop : JsMap Token (List Token)
loop = (class 0, class 1 ∷ []) ∷ (class 1, class 0 ∷ class 2 ∷ []) ∷ (class 2, []) ∷ []

detect_cycles_decides_example :
    (v : Search) × (detect_cycles loop ≡ some v)
    × All (IsCycle loop) v.cycles
    × (((v.cycles ≡ []) × ((t : Token) → ¬ (Reaches loop t t)))
        ⊎ ((c : List Token) × (cs : List (List Token)) × (v.cycles ≡ c ∷ cs)))
detect_cycles_decides_example = detect_cycles_decides loop

-- An instance is the number of the service.
abbrev build : Token → List ℕ → Built ℕ ℕ
build (class n) vs = instance_of n
build (symbol n) vs = instance_of 0
build (text s) vs = instance_of 0

-- `class 0` depends on `class 1` and on the token `symbol 7`, and needs a package.
abbrev valid : Container ℕ
valid = record {
  instances = (symbol 7, 42) ∷ [];
  registry = (class 0, class 1 ∷ symbol 7 ∷ []) ∷ (class 1, []) ∷ (symbol 7, []) ∷ [];
  resolving = [];
  external_deps = (class 0, "pg" ∷ []) ∷ [];
}

abbrev parameters : Token → ℕ
parameters (class zero) = 2
parameters (class (suc n)) = 0
parameters (symbol n) = 0
parameters (text s) = 0

abbrev installed : JsMap String Bool
installed = ("pg", true) ∷ []

valid-is_valid :
    validate parameters (λ name. true) valid.registry valid.instances valid.external_deps []
    ≡ some ([], installed)
unfolding validate detect_cycles detect_each contains detect_cycle_from visit_deps get
    Token-discrete add check_registered check_external check_deps check_packages check_count
    is_package_installed set
valid-is_valid = refl

valid-tokens : TokensHaveInstances valid
unfolding get Token-discrete
valid-tokens (class n) k h = absurd cc
valid-tokens (symbol n) k h = elim (Token-discrete (symbol 7) (symbol n)) [
  | yes e ↦
      subst
        (λ t.
          (get Token-discrete t valid.registry ≡ some [])
          × (JsMap.has Token-discrete t valid.instances ≡ true))
        e (refl, refl)
  | no e ↦ absurd (ground arith)
]
valid-tokens (text s) k h = absurd (ground arith)

zero-registered : JsMap.has Token-discrete (class 0) valid.registry ≡ true
unfolding get Token-discrete
zero-registered = refl

validated_resolves_example : FromConstructor (resolve build (class 0) valid)
validated_resolves_example =
    validated_resolves build parameters (λ name. true) [] installed valid (class 0) valid-is_valid
      refl valid-tokens zero-registered

-- `class 0` and `class 1` use each other.
loop-is_reported :
    detect_cycles loop
    ≡ some (record {
      cycles = (class 0 ∷ class 1 ∷ class 0 ∷ []) ∷ [];
      visited = class 0 ∷ class 1 ∷ class 2 ∷ [];
      recursion_stack = [];
      path = [];
    })
unfolding detect_cycles detect_each contains detect_cycle_from visit_deps get Token-discrete add
    remove pop index_of add_cycle
loop-is_reported = refl
