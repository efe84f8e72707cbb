-- ===== src/Cache/Keys.antt =====
-- packages/cache/src/key-generator.ts: the keys of cache entries. Parameters are a map from names to
-- values that are not undefined; the hash of the material is an argument.
use Prim.Native.String.{◌++◌ as str_append}
use orijs.Common.{
  ℕ, Bool, Option, none, some, List, [], ◌∷◌, ◌++◌, String, String-discrete, holds, if◌then◌else◌,
}
use orijs.JsMap.{JsMap, get, set}

-- `CacheConfig`; `identity` tells two objects apart.
pub record CacheConfig : Type 0 where
  pub identity : ℕ
  pub entity : String
  pub params : List String
  pub ttl : ℕ
  pub grace : ℕ
  pub depends_on : List (String × List String)
  pub cache_null : Bool

abbrev pub cache_key_prefix : String
cache_key_prefix = "cache:"

abbrev pub if_complete : {A : Type 0} → A → List String → Option A
if_complete a [] = some a
if_complete a (name ∷ names) = none

module _ {W : Type 0} where
  -- The parameters that were extracted, and the names of those that are missing.
  unfoldable pub extract_cache_params : List String → JsMap String W → JsMap String W × List String
  extract_cache_params names params = go names [] []
    where
      go : List String → JsMap String W → List String → JsMap String W × List String
      go [] extracted missing = (extracted, missing)
      go (name ∷ rest) extracted missing = elim (get String-discrete name params) [
        | none ↦ go rest extracted (missing ++ name ∷ [])
        | some value ↦ go rest (set String-discrete name value extracted) missing
      ]

  -- `none` is an error thrown.
  unfoldable pub generate_cache_key :
      (String → JsMap String W → String) → CacheConfig → JsMap String W → Option String
  generate_cache_key hash config params =
      let (extracted, missing) = extract_cache_params config.params params in
      if holds (String-discrete config.entity "")
      then none
      else if_complete (str_append cache_key_prefix (hash config.entity extracted)) missing
