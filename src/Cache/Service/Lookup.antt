-- ===== src/Cache/Service/Lookup.antt =====
-- How long the cache service gives a value that was set.
use orijs.Common.{
  ℕ, ◌+◌, ◌*◌, ◌≡◌, refl, ap, ◌∙◌, false, ◌&&◌, Option, none, some, String, String-discrete, ltb,
  if◌then◌else◌, arith, if_pos,
}
use orijs.JsMap.{JsMap}
use orijs.Cache.Store.{fetch, fetch-put}
use orijs.Cache.Keys.{CacheConfig, generate_cache_key}
use orijs.Cache.Service.{
  Value, undefined, value, Entry, CacheService, FactoryOutcome, failed, timed_out, threw,
  CacheError, fail_error, timeout_error, factory_error, resolved, rejected, is_nullish,
  track_config, grace_seconds, new_entry, set_entry, found_of, look_up, conclude, after_look_up,
  value_of, get_or_set, get_value, set_value,
}

-- The time from which a value that is set is stale.
abbrev end_of_freshness : ℕ → CacheConfig → ℕ
end_of_freshness t config = t + config.ttl * 1000

module _ {V : Type 0} where
  pub track_config_store :
      (config : CacheConfig) (s : CacheService V) → (track_config config s).store ≡ s.store
  unfolding track_config
  track_config_store config s = ground arith

  -- The time at which a value that is set is no longer given.
  abbrev pub end_of_life : ℕ → CacheConfig → CacheService V → ℕ
  end_of_life t config s = t + (config.ttl + grace_seconds config s) * 1000

  abbrev lasting : ℕ → ℕ → CacheConfig → Value V → CacheService V → Option (Entry V)
  lasting t now config v s =
      if ltb 0 (config.ttl + grace_seconds config s) && ltb (end_of_life t config s) now
      then none
      else some (new_entry t config.ttl (grace_seconds config s) v)

  fetch-set_entry :
      (t now : ℕ) (config : CacheConfig) (key : String) (v : Value V) (s : CacheService V)
      → is_nullish v ≡ false
      → (fetch now key (set_entry t config key v s).store).0 ≡ lasting t now config v s
  unfolding set_entry
  fetch-set_entry t now config key v s h =
      rw (set_entry, h)
        (fetch-put t now (config.ttl + grace_seconds config s) key key
            (new_entry t config.ttl (grace_seconds config s) v) (track_config config s).store
          ∙ if_pos (String-discrete key key) refl _ _)

  value_of-lasting :
      (t now : ℕ) (config : CacheConfig) (v : Value V) (s : CacheService V)
      → value_of now (lasting t now config v s)
        ≡ (if ltb now (end_of_life t config s) then v else undefined)
  value_of-lasting t now config v s = ground arith

  -- A factory that ends in one way whatever it is given.
  abbrev pub always : {X : Type 0} → FactoryOutcome V X → Value V → Option ℕ → FactoryOutcome V X
  always o stale age = o

  -- The ways in which a factory comes to no value of its own: it calls `fail`, it takes too long, or
  -- an exception of its own escapes from it.
  pub data Fails {X : Type 0} : FactoryOutcome V X → Type 0 where
    by_call : Fails failed
    by_time : Fails timed_out
    by_exception : (e : X) → Fails (threw e)

  -- Until when a value that was set at `t` stands in for a factory that fails so.
  abbrev pub fallback_until :
      {X : Type 0} {o : FactoryOutcome V X} → Fails o → ℕ → CacheConfig → CacheService V → ℕ
  fallback_until by_call t config s = end_of_life t config s
  fallback_until by_time t config s = end_of_life t config s
  fallback_until (by_exception e) t config s = end_of_freshness t config

  abbrev pub error_of : {X : Type 0} {o : FactoryOutcome V X} → Fails o → CacheError X
  error_of by_call = fail_error
  error_of by_time = timeout_error
  error_of (by_exception e) = factory_error e

  after-lasting :
      {X : Type 0} {o : FactoryOutcome V X} (f : Fails o) (t now end : ℕ) (config : CacheConfig)
      (key : String) (x : V) (s s' : CacheService V)
      → (after_look_up end config key
          (always o)
          (found_of now (lasting t now config (value x) s), s')).0
        ≡ (if ltb now (fallback_until f t config s)
            then resolved (value x)
            else rejected (error_of f))
  unfolding conclude
  after-lasting by_call t now end config key x s s' = ground arith
  after-lasting by_time t now end config key x s s' = ground arith
  after-lasting (by_exception e) t now end config key x s s' = ground arith

module _ {V W : Type 0} (hash : String → JsMap String W → String) (config : CacheConfig)
    (params : JsMap String W) (key : String)
    (k : generate_cache_key hash config params ≡ some key) where
  pub set_value_at :
      (t : ℕ) (v : Value V) (s : CacheService V)
      → (set_value hash t config params v s).1 ≡ set_entry t config key v s
  unfolding set_value
  set_value_at t v s = rw (set_value, k) refl

  pub get_value_at :
      (now : ℕ) (s : CacheService V)
      → (get_value hash now config params s).0 ≡ some (value_of now (fetch now key s.store).0)
  unfolding get_value
  get_value_at now s = rw (get_value, k) refl

  get_or_set_at :
      {X : Type 0} (now end : ℕ) (factory : Value V → Option ℕ → FactoryOutcome V X)
      (s : CacheService V)
      → (get_or_set hash now end config params factory s).0
        ≡ some (after_look_up end config key factory (look_up now key (track_config config s))).0
  unfolding get_or_set
  get_or_set_at now end factory s = rw (get_or_set, k) refl

module _ {V W X : Type 0} (hash : String → JsMap String W → String) where
  -- After a value was set, and until its time to live and the grace period after it are over, it is
  -- what `get` gives, and from then on `get` gives undefined. If the factory calls `fail` or times
  -- out, `getOrSet` gives the value just as long, and then rethrows; if an exception of its own
  -- escapes from the factory, `getOrSet` gives the value only until its time to live is over, and
  -- rethrows from then on, in the grace period too. The value is not null or undefined, and the
  -- parameters of the key are there.
  pub value_lives :
      {o : FactoryOutcome V X} (f : Fails o) (t now end : ℕ) (config : CacheConfig)
      (params : JsMap String W) (key : String) (x : V) (s : CacheService V)
      → generate_cache_key hash config params ≡ some key
      → ((get_value hash now config params (set_value hash t config params (value x) s).1).0
          ≡ some (if ltb now (end_of_life t config s) then value x else undefined))
        × ((get_or_set hash now end config params
              (always o)
              (set_value hash t config params (value x) s).1).0
            ≡ some (
                if ltb now (fallback_until f t config s)
                then resolved (value x)
                else rejected (error_of f)))
  unfolding look_up
  value_lives {o} f t now end config params key x s k = (
    get_value_at hash config params key k now _
        ∙ rw
            (
              set_value_at hash config params key k t (value x) s,
              fetch-set_entry t now config key (value x) s refl,
            )
            (ap some (value_of-lasting t now config (value x) s)),
    get_or_set_at hash config params key k now end (always o) _
        ∙ rw
            (
              set_value_at hash config params key k t (value x) s,
              look_up,
              track_config_store config (set_entry t config key (value x) s),
              fetch-set_entry t now config key (value x) s refl,
            )
            (ap some (after-lasting f t now end config key x s _)),
  )
