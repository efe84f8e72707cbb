-- ===== src/Cache/Service/Tests.antt =====
-- The theorems on the cache service at one configuration.
use orijs.Common.{
  ℕ, ◌≡◌, refl, false, some, [], ◌∷◌, String, String-discrete, ltb, first, if◌then◌else◌,
}
use orijs.JsMap.{JsMap, get, set}
use orijs.Cache.Keys.{CacheConfig, generate_cache_key, extract_cache_params}
use orijs.Cache.Service.{
  undefined, value, CacheService, threw, factory_error, resolved, rejected, get_or_set, get_value,
  set_value, invalidate,
}
use orijs.Cache.Service.Lookup.{
  end_of_life, always, by_exception, fallback_until, error_of, value_lives,
}
use orijs.Cache.Service.Invalidation.{Tracks, invalidated_is_gone}

abbrev users : CacheConfig
users = record {
  identity = 0;
  entity = "User";
  params = "id" ∷ [];
  ttl = 60;
  grace = 30;
  depends_on = [];
  cache_null = false;
}

abbrev by_name : String → JsMap String ℕ → String
by_name entity params = entity

abbrev user_params : JsMap String ℕ
user_params = ("id", 5) ∷ []

abbrev seen : CacheService ℕ
seen = record {
  default_grace_seconds = 0;
  store = [];
  configs_by_entity = ("User", users ∷ []) ∷ [];
  dependents_by_entity = [];
}

user-key : generate_cache_key by_name users user_params ≡ some "cache:User"
unfolding generate_cache_key extract_cache_params get set String-discrete
user-key = refl

users-tracked : Tracks users seen
unfolding get String-discrete
users-tracked = first refl

value_lives_example :
    ((get_value by_name 70000 users user_params
        (set_value by_name 0 users user_params (value 9) seen).1).0
      ≡ some (if ltb 70000 (end_of_life 0 users seen) then value 9 else undefined))
    × ((get_or_set by_name {X = ℕ} 70000 70001 users user_params
          (always (threw 4))
          (set_value by_name 0 users user_params (value 9) seen).1).0
        ≡ some (
            if ltb 70000 (fallback_until {X = ℕ} (by_exception 4) 0 users seen)
            then resolved (value 9)
            else rejected (error_of {V = ℕ} {X = ℕ} (by_exception 4))))
value_lives_example =
    value_lives by_name (by_exception 4) 0 70000 70001 users user_params "cache:User" 9 seen
      user-key

-- In the grace period an exception of the factory is rethrown, and no stale value given.
exception_in_grace :
    (get_or_set by_name {X = ℕ} 70000 70001 users user_params
      (always (threw 4))
      (set_value by_name 0 users user_params (value 9) seen).1).0
    ≡ some (rejected (factory_error 4))
exception_in_grace =
    (value_lives by_name (by_exception 4) 0 70000 70001 users user_params "cache:User" 9 seen
      user-key).1

invalidated_is_gone_example :
    (get_value by_name 1 users user_params (invalidate by_name "User" user_params seen).1).0
    ≡ some undefined
invalidated_is_gone_example =
    invalidated_is_gone by_name 1 users user_params "cache:User" seen users-tracked user-key
