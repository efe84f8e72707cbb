-- ===== src/Cache/Service/Invalidation.antt =====
-- What is invalidated is no longer given.
use orijs.Common.{
  ℕ, ◌≡◌, refl, sym, ap, ◌∙◌, subst, Option, none, some, List, [], ◌∷◌, String, String-discrete,
  or_else, arith, In, first, later,
}
use orijs.JsMap.{JsMap, get, delete}
use orijs.JsMap.Laws.{get-delete, get-delete_self}
use orijs.Cache.Store.{Store, fetch, del, del_many}
use orijs.Cache.Keys.{CacheConfig, generate_cache_key}
use orijs.Cache.Service.{
  undefined, CacheService, value_of, get_value, keys_of, generate_cache_keys_for_entity,
  delete_keys, invalidate,
}
use orijs.Cache.Service.Lookup.{get_value_at}

module _ {T : Type 0} where
  del_many-gone :
      (keys : List String) (key : String) (store : Store T)
      → get String-discrete key store ≡ none
      → get String-discrete key (del_many keys store).1 ≡ none
  unfolding del_many del
  del_many-gone [] key store h = h
  del_many-gone (k ∷ ks) key store h =
      del_many-gone ks key (delete String-discrete k store)
        (ground (arith, h, get-delete String-discrete key k store))

  -- No key that is deleted is left.
  del_many-In :
      (keys : List String) (key : String) (store : Store T)
      → In key keys
      → get String-discrete key (del_many keys store).1 ≡ none
  unfolding del_many del
  del_many-In [] key store i = elim i [ ]
  del_many-In (k ∷ ks) key store (first e) = del_many-gone ks key (delete String-discrete k store) (
      subst (λ x. get String-discrete key (delete String-discrete x store) ≡ none) e
        (get-delete_self String-discrete key store))
  del_many-In (k ∷ ks) key store (later i) = del_many-In ks key (delete String-discrete k store) i

  fetch-absent :
      (now : ℕ) (key : String) (store : Store T)
      → get String-discrete key store ≡ none
      → (fetch now key store).0 ≡ none
  unfolding fetch
  fetch-absent now key store h = rw (fetch, h) refl

keys_of-In :
    {W : Type 0} (hash : String → JsMap String W → String) (configs : List CacheConfig)
    (config : CacheConfig) (params : JsMap String W) (key : String)
    → In config configs
    → generate_cache_key hash config params ≡ some key
    → In key (keys_of hash configs params)
unfolding keys_of
keys_of-In hash [] config params key i k = elim i [ ]
keys_of-In hash (c ∷ cs) config params key (first e) k =
    rw (keys_of, sym (ap (λ x. generate_cache_key hash x params) e) ∙ k) (first refl)
keys_of-In hash (c ∷ cs) config params key (later i) k =
    by_head (generate_cache_key hash c params) (keys_of-In hash cs config params key i k)
  where
    by_head :
        (o : Option String)
        → In key (keys_of hash cs params)
        → In key (elim o [ none ↦ keys_of hash cs params | some j ↦ j ∷ keys_of hash cs params ])
    by_head none h = h
    by_head (some j) h = later h

-- The service has seen the configuration.
abbrev pub Tracks : {V : Type 0} → CacheConfig → CacheService V → Type 0
Tracks config s = In config (or_else (get String-discrete config.entity s.configs_by_entity) [])

module _ {V W : Type 0} (hash : String → JsMap String W → String) where
  delete_keys-In :
      (keys : List String) (key : String) (s : CacheService V)
      → In key keys
      → get String-discrete key (delete_keys keys s).1.store ≡ none
  unfolding delete_keys
  delete_keys-In [] key s i = elim i [ ]
  delete_keys-In (k ∷ ks) key s i = del_many-In (k ∷ ks) key s.store i

  -- After an entity was invalidated with the parameters of a key, `get` gives undefined for that key,
  -- whatever was stored, until it is set again; if the service has seen the configuration.
  pub invalidated_is_gone :
      (now : ℕ) (config : CacheConfig) (params : JsMap String W) (key : String) (s : CacheService V)
      → Tracks config s
      → generate_cache_key hash config params ≡ some key
      → (get_value hash now config params (invalidate hash config.entity params s).1).0
        ≡ some undefined
  unfolding invalidate
  invalidated_is_gone now config params key s i k =
      get_value_at hash config params key k now _
      ∙ ap (λ o. some (value_of now o))
          (fetch-absent now key _ (
            delete_keys-In (generate_cache_keys_for_entity hash config.entity params s) key s
              (keys_of-In hash _ config params key i k)))
