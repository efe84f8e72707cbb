-- ===== src/Cache/Service.antt =====
-- packages/cache/src/cache.ts over the in-memory provider, which has no meta keys. `Date.now()` is an
-- argument, an error thrown is `none`. The body that `getOrSet` gives to the singleflight is in two
-- parts, before and after the factory; the factory, raced with its timeout, is its outcome.
pub mod Lookup
pub mod Invalidation
mod Tests
use orijs.Common.{
  ℕ, ◌+◌, ◌-◌, ◌*◌, Bool, true, false, not, ◌&&◌, ◌||◌, Option, none, some, List, [], ◌∷◌, ◌++◌,
  map, String, String-discrete, ltb, leb, ◌==◌, or_else, if◌then◌else◌,
}
use orijs.JsMap.{JsMap, get, set, add}
use orijs.Cache.Store.{Store, fetch, put, del, del_many}
use orijs.Cache.Keys.{CacheConfig, generate_cache_key}

pub data Value (V : Type 0) : Type 0 where
  undefined null_value : Value V
  value : V → Value V

-- `CacheEntry` of types.ts.
pub record Entry (V : Type 0) : Type 0 where
  pub value : Value V
  pub created_at : ℕ
  pub expires_at : ℕ
  pub grace_expires_at : Option ℕ

pub record CacheService (V : Type 0) : Type 0 where
  pub default_grace_seconds : ℕ
  pub store : Store (Entry V)
  pub configs_by_entity : JsMap String (List CacheConfig)
  pub dependents_by_entity : JsMap String (List String)

-- What the factory does: `skip`, `fail`, the timeout, or an error of its own.
pub data FactoryOutcome (V X : Type 0) : Type 0 where
  returned : Value V → FactoryOutcome V X
  skipped failed timed_out : FactoryOutcome V X
  threw : X → FactoryOutcome V X

pub data CacheError (X : Type 0) : Type 0 where
  fail_error timeout_error : CacheError X
  factory_error : X → CacheError X

pub data Answer (V X : Type 0) : Type 0 where
  resolved : Value V → Answer V X
  rejected : CacheError X → Answer V X

-- A fresh value, or the stale value and its age in milliseconds for the factory.
pub data Found (V : Type 0) : Type 0 where
  fresh : Value V → Found V
  compute : Value V → Option ℕ → Found V

unfoldable pub is_tracked : CacheConfig → List CacheConfig → Bool
is_tracked config [] = false
is_tracked config (c ∷ cs) = c.identity == config.identity || is_tracked config cs

abbrev pub is_nullish : {V : Type 0} → Value V → Bool
is_nullish undefined = true
is_nullish null_value = true
is_nullish (value v) = false

-- `entry.graceExpiresAt && entry.graceExpiresAt > now`
abbrev pub in_grace : ℕ → Option ℕ → Bool
in_grace now none = false
in_grace now (some t) = ltb now t

unfoldable pub add_dependents :
    String → List (String × List String) → JsMap String (List String) → JsMap String (List String)
add_dependents entity [] m = m
add_dependents entity ((dep, names) ∷ deps) m = add_dependents entity deps (
    set String-discrete dep (add String-discrete entity (or_else (get String-discrete dep m) [])) m)

module _ {V : Type 0} where
  unfoldable pub track_config : CacheConfig → CacheService V → CacheService V
  track_config config s =
      let configs = or_else (get String-discrete config.entity s.configs_by_entity) [] in
      if is_tracked config configs then s else record s {
        configs_by_entity =
            set String-discrete config.entity (configs ++ config ∷ []) s.configs_by_entity;
        dependents_by_entity =
            add_dependents config.entity config.depends_on s.dependents_by_entity;
      }

  -- `config.grace || this.defaultGraceSeconds`
  abbrev pub grace_seconds : CacheConfig → CacheService V → ℕ
  grace_seconds config s = if config.grace == 0 then s.default_grace_seconds else config.grace

  abbrev pub new_entry : ℕ → ℕ → ℕ → Value V → Entry V
  new_entry now ttl grace v = record {
    value = v;
    created_at = now;
    expires_at = now + ttl * 1000;
    grace_expires_at = if ltb 0 grace then some (now + (ttl + grace) * 1000) else none;
  }

  unfoldable pub set_entry : ℕ → CacheConfig → String → Value V → CacheService V → CacheService V
  set_entry now config key v s =
      let s' = track_config config s in
      let grace = grace_seconds config s in
      if is_nullish v && not config.cache_null then s' else record s' {
        store = put now key (new_entry now config.ttl grace v) (config.ttl + grace) s'.store;
      }

  abbrev pub stale_value : ℕ → Entry V → Value V
  stale_value now entry = if in_grace now entry.grace_expires_at then entry.value else undefined

  abbrev pub found_of : ℕ → Option (Entry V) → Found V
  found_of now none = compute undefined none
  found_of now (some entry) =
      if ltb now entry.expires_at
      then fresh entry.value
      else compute (stale_value now entry)
          (if in_grace now entry.grace_expires_at then some (now - entry.created_at) else none)

  -- `getOrSet` up to the call of the factory.
  unfoldable pub look_up : ℕ → String → CacheService V → Found V × CacheService V
  look_up now key s =
      let (entry, store') = fetch now key s.store in
      (found_of now entry, record s { store = store' })

  abbrev pub or_stale : {X : Type 0} → CacheError X → Value V → Answer V X
  or_stale e undefined = rejected e
  or_stale e null_value = resolved null_value
  or_stale e (value v) = resolved (value v)

  -- The rest of `getOrSet`.
  unfoldable pub conclude :
      {X : Type 0}
      → ℕ
      → CacheConfig
      → String
      → Value V
      → FactoryOutcome V X
      → CacheService V
      → Answer V X × CacheService V
  conclude now config key stale (returned v) s = (resolved v, set_entry now config key v s)
  conclude now config key stale skipped s = (resolved undefined, s)
  conclude now config key stale failed s = (or_stale fail_error stale, s)
  conclude now config key stale timed_out s = (or_stale timeout_error stale, s)
  conclude now config key stale (threw x) s = (rejected (factory_error x), s)

  abbrev pub after_look_up :
      {X : Type 0}
      → ℕ
      → CacheConfig
      → String
      → (Value V → Option ℕ → FactoryOutcome V X)
      → Found V × CacheService V
      → Answer V X × CacheService V
  after_look_up now config key factory (fresh v, s) = (resolved v, s)
  after_look_up now config key factory (compute stale age, s) =
      conclude now config key stale (factory stale age) s

  abbrev pub value_of : ℕ → Option (Entry V) → Value V
  value_of now none = undefined
  value_of now (some entry) =
      if ltb now entry.expires_at then entry.value else stale_value now entry

module _ {V : Type 0} where
  -- Nothing is deleted for no keys.
  unfoldable pub delete_keys : List String → CacheService V → ℕ × CacheService V
  delete_keys [] s = (0, s)
  delete_keys (key ∷ keys) s =
      let (deleted, store') = del_many (key ∷ keys) s.store in
      (deleted, record s { store = store' })

module _ {W : Type 0} (hash : String → JsMap String W → String) where
  unfoldable pub keys_of : List CacheConfig → JsMap String W → List String
  keys_of [] params = []
  keys_of (config ∷ configs) params =
      let rest = keys_of configs params in
      elim (generate_cache_key hash config params) [ none ↦ rest | some key ↦ key ∷ rest ]

module _ {V W : Type 0} (hash : String → JsMap String W → String) where
  -- `getOrSet` when nothing else happens meanwhile: `now` and `later` are the times before and after
  -- the factory.
  unfoldable pub get_or_set :
      {X : Type 0}
      → ℕ
      → ℕ
      → CacheConfig
      → JsMap String W
      → (Value V → Option ℕ → FactoryOutcome V X)
      → CacheService V
      → Option (Answer V X) × CacheService V
  get_or_set now end config params factory s = elim (generate_cache_key hash config params) [
    | none ↦ (none, s)
    | some key ↦
        let (answer, s') =
          after_look_up end config key factory (look_up now key (track_config config s)) in
        (some answer, s')
  ]

  -- `get`
  unfoldable pub get_value :
      ℕ → CacheConfig → JsMap String W → CacheService V → Option (Value V) × CacheService V
  get_value now config params s = elim (generate_cache_key hash config params) [
    | none ↦ (none, s)
    | some key ↦
        let (entry, store') = fetch now key s.store in
        (some (value_of now entry), record s { store = store' })
  ]

  -- `set`
  unfoldable pub set_value :
      ℕ → CacheConfig → JsMap String W → Value V → CacheService V → Bool × CacheService V
  set_value now config params v s = elim (generate_cache_key hash config params) [
    | none ↦ (false, s)
    | some key ↦ (true, set_entry now config key v s)
  ]

  -- `delete`
  unfoldable pub delete_value :
      CacheConfig → JsMap String W → CacheService V → Option Bool × CacheService V
  delete_value config params s = elim (generate_cache_key hash config params) [
    | none ↦ (none, s)
    | some key ↦
        let (deleted, store') = del key s.store in
        (some (ltb 0 deleted), record s { store = store' })
  ]

  abbrev pub generate_cache_keys_for_entity : String → JsMap String W → CacheService V → List String
  generate_cache_keys_for_entity entity params s =
      keys_of hash (or_else (get String-discrete entity s.configs_by_entity) []) params

  unfoldable pub invalidate : String → JsMap String W → CacheService V → ℕ × CacheService V
  invalidate entity params s = delete_keys (generate_cache_keys_for_entity entity params s) s

  unfoldable pub all_keys : List (String × JsMap String W) → CacheService V → List String
  all_keys [] s = []
  all_keys ((entity, params) ∷ rest) s =
      generate_cache_keys_for_entity entity params s ++ all_keys rest s

  unfoldable pub invalidate_many :
      List (String × JsMap String W) → CacheService V → ℕ × CacheService V
  invalidate_many invalidations s = delete_keys (all_keys invalidations s) s
