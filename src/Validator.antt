-- ===== src/Validator.antt =====
-- packages/core/src/dependency-validator.ts: the validation of the container's registrations at
-- startup. The numbers of parameters of the constructors and the packages that are installed are
-- arguments; the texts of the errors are left out.
pub mod Walks
pub mod Order
pub mod Calls
pub mod Visits
pub mod Detection
pub mod Resolvable
pub mod Clean
pub mod Startup
mod Tests
use orijs.Common.{
  ℕ, zero, suc, ◌+◌, Bool, true, false, not, ◌&&◌, ◌||◌, Option, none, some, List, [], ◌∷◌, ◌++◌,
  map, String, String-discrete, ltb, length, drop, or_else, if◌then◌else◌,
}
use orijs.JsMap
use orijs.JsMap.{JsMap, get, set, keys, contains, add, remove}
use orijs.Container.{Token, class, symbol, text, Token-discrete}

-- `missing_dependencies` has the numbers of parameters and of declared dependencies.
pub data ValidationError : Type 0 where
  token_not_registered provider_not_registered : Token → Token → ValidationError
  missing_dependencies : Token → ℕ → ℕ → ValidationError
  circular_dependency : List Token → ValidationError
  package_not_installed : Token → String → ValidationError

abbrev pub is_constructor : Token → Bool
is_constructor (class n) = true
is_constructor (symbol n) = false
is_constructor (text s) = false

abbrev not_registered : Token → Token → ValidationError
not_registered service dep =
    if is_constructor dep
    then provider_not_registered service dep
    else token_not_registered service dep

-- The variables of `detectCycles`.
pub record Search : Type 0 where
  pub cycles : List (List Token)
  pub visited : List Token
  pub recursion_stack : List Token
  pub path : List Token

-- `path.indexOf(service)`
unfoldable pub index_of : Token → List Token → Option ℕ
index_of t [] = none
index_of t (s ∷ ss) =
    let rest = index_of t ss in
    elim (Token-discrete s t) [
      | yes e ↦ some 0
      | no n ↦ elim rest [ none ↦ none | some i ↦ some (suc i) ]
    ]

-- `path.pop()`
unfoldable pub pop : List Token → List Token
pop [] = []
pop (s ∷ []) = []
pop (s ∷ t ∷ ss) = s ∷ pop (t ∷ ss)

unfoldable pub add_cycle : Token → Search → Search
add_cycle service v = elim (index_of service v.path) [
  | none ↦ v
  | some i ↦ record v { cycles = v.cycles ++ (drop i v.path ++ service ∷ []) ∷ [] }
]

abbrev pub visit : Token → Search → Search
visit service v = record v {
  visited = add Token-discrete service v.visited;
  recursion_stack = add Token-discrete service v.recursion_stack;
  path = v.path ++ service ∷ [];
}

abbrev pub leave : Token → Search → Search
leave service v = record v {
  recursion_stack = remove Token-discrete service v.recursion_stack;
  path = pop v.path;
}

module _ (registry : JsMap Token (List Token)) where
  -- The loop over the dependencies of a service; `none` is the end of the fuel.
  unfoldable pub visit_deps : (Token → Search → Option Search) → List Token → Search → Option Search
  visit_deps f [] v = some v
  visit_deps f (dep ∷ deps) v =
      if is_constructor dep && JsMap.has Token-discrete dep registry
      then elim (f dep v) [ none ↦ none | some w ↦ visit_deps f deps w ]
      else visit_deps f deps v

  abbrev pub left : Token → Option Search → Option Search
  left service none = none
  left service (some v) = some (leave service v)

  -- `detectCycleFrom`; the fuel bounds the depth of the recursion.
  unfoldable pub detect_cycle_from : ℕ → Token → Search → Option Search
  detect_cycle_from zero service v = none
  detect_cycle_from (suc fuel) service v =
      let rest =
        visit_deps (detect_cycle_from fuel) (or_else (get Token-discrete service registry) [])
          (visit service v) in
      if contains Token-discrete service v.recursion_stack
      then some (add_cycle service v)
      else (if contains Token-discrete service v.visited then some v else left service rest)

  unfoldable pub detect_each : ℕ → List Token → Search → Option Search
  detect_each fuel [] v = some v
  detect_each fuel (token ∷ tokens) v =
      if is_constructor token && not (contains Token-discrete token v.visited)
      then elim (detect_cycle_from fuel token v) [
        | none ↦ none
        | some w ↦ detect_each fuel tokens w
      ]
      else detect_each fuel tokens v

abbrev pub fresh_search : Search
fresh_search = record { cycles = []; visited = []; recursion_stack = []; path = [] }

unfoldable pub detect_cycles : JsMap Token (List Token) → Option Search
detect_cycles registry = detect_each registry (length registry + 2) (keys registry) fresh_search

-- The errors of the declared dependencies of one service.
unfoldable pub check_deps : JsMap Token (List Token) → Token → List Token → List ValidationError
check_deps registry service [] = []
check_deps registry service (dep ∷ deps) =
    let rest = check_deps registry service deps in
    if JsMap.has Token-discrete dep registry then rest else not_registered service dep ∷ rest

-- `parameters` is `service.length`.
unfoldable pub check_count : ℕ → Token → List Token → List ValidationError
check_count parameters service deps =
    if ltb (length deps) parameters
    then missing_dependencies service parameters (length deps) ∷ []
    else []

module _ {V : Type 0} (parameters : Token → ℕ) (instances : JsMap Token V) where
  -- The loop over the registrations.
  unfoldable pub check_registered :
      JsMap Token (List Token) → JsMap Token (List Token) → List ValidationError
  check_registered registry [] = []
  check_registered registry ((token, deps) ∷ entries) =
      let rest = check_registered registry entries in
      if not (is_constructor token) || JsMap.has Token-discrete token instances
      then rest
      else (check_deps registry token deps ++ check_count (parameters token) token deps) ++ rest

module _ (resolves : String → Bool) where
  -- `resolves` says whether `Bun.resolveSync` returns.
  unfoldable pub is_package_installed : String → JsMap String Bool → Bool × JsMap String Bool
  is_package_installed name cache = elim (get String-discrete name cache) [
    | some cached ↦ (cached, cache)
    | none ↦ (resolves name, set String-discrete name (resolves name) cache)
  ]

  unfoldable pub check_packages :
      Token → List String → JsMap String Bool → List ValidationError × JsMap String Bool
  check_packages service [] cache = ([], cache)
  check_packages service (name ∷ names) cache =
      let (installed, cache') = is_package_installed name cache in
      let (errors, cache'') = check_packages service names cache' in
      (if installed then errors else package_not_installed service name ∷ errors, cache'')

  unfoldable pub check_external :
      JsMap Token (List String) → JsMap String Bool → List ValidationError × JsMap String Bool
  check_external [] cache = ([], cache)
  check_external ((service, names) ∷ entries) cache =
      let (errors, cache') = check_packages service names cache in
      let (more, cache'') = check_external entries cache' in (errors ++ more, cache'')

module _ {V : Type 0} (parameters : Token → ℕ) (resolves : String → Bool) where
  abbrev pub collected :
      JsMap Token (List Token)
      → JsMap Token V
      → JsMap Token (List String)
      → JsMap String Bool
      → Search
      → List ValidationError × JsMap String Bool
  collected registry instances external_deps cache v =
      let (errors, cache') = check_external resolves external_deps cache in
      (
        (check_registered parameters instances registry registry
              ++ map circular_dependency v.cycles)
            ++ errors,
        cache',
      )

  -- `validate`: the errors, which it throws together if there are any, and the cache of packages.
  unfoldable pub validate :
      JsMap Token (List Token)
      → JsMap Token V
      → JsMap Token (List String)
      → JsMap String Bool
      → Option (List ValidationError × JsMap String Bool)
  validate registry instances external_deps cache = elim (detect_cycles registry) [
    | none ↦ none
    | some v ↦ some (collected registry instances external_deps cache v)
  ]
