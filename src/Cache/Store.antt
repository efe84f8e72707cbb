-- ===== src/Cache/Store.antt =====
-- packages/cache/src/in-memory-cache-provider.ts. `Date.now()` is an argument; an answer of -1 or
-- -2 from `ttl` is a constructor.
use orijs.Common.{
  ℕ, ◌+◌, ◌-◌, ◌*◌, ◌/◌, ◌≡◌, refl, inl, inr, ite, Bool, true, false, ◌&&◌, Option, none, some,
  List, [], ◌∷◌, String, String-discrete, arith, if◌then◌else◌, ltb, is_some, Bool-cases,
  Option-cases,
}
use orijs.JsMap
use orijs.JsMap.{JsMap, size, get, set, delete, size}
use orijs.JsMap.Laws.{get-set}

pub record CacheEntry (T : Type 0) : Type 0 where
  pub value : T
  pub expires_at : Option ℕ

abbrev pub Store : Type 0 → Type 0
Store T = JsMap String (CacheEntry T)

pub data Remaining : Type 0 where
  seconds : ℕ → Remaining
  no_expiry no_key : Remaining

abbrev remaining : ℕ → Option ℕ → Remaining
remaining now none = no_expiry
remaining now (some t) = seconds ((t - now + 999) / 1000)

module _ {T : Type 0} where
  -- `entry.expiresAt !== null && Date.now() > entry.expiresAt`
  unfoldable pub is_expired : ℕ → CacheEntry T → Bool
  is_expired now entry = elim entry.expires_at [ none ↦ false | some t ↦ ltb t now ]

  unfoldable pub fetch : ℕ → String → Store T → Option T × Store T
  fetch now key store = elim (get String-discrete key store) [
    | none ↦ (none, store)
    | some entry ↦
        if is_expired now entry
        then (none, delete String-discrete key store)
        else (some entry.value, store)
  ]

  unfoldable pub put : ℕ → String → T → ℕ → Store T → Store T
  put now key value ttl_seconds store =
      set String-discrete key
        (record {
          value = value;
          expires_at = if ltb 0 ttl_seconds then some (now + ttl_seconds * 1000) else none;
        })
        store

  unfoldable pub del : String → Store T → ℕ × Store T
  del key store =
      (if JsMap.has String-discrete key store then 1 else 0, delete String-discrete key store)

  unfoldable pub del_many : List String → Store T → ℕ × Store T
  del_many [] store = (0, store)
  del_many (key ∷ ks) store =
      let one = del key store in let rest = del_many ks one.1 in (one.0 + rest.0, rest.1)

  unfoldable pub exists : ℕ → String → Store T → Bool × Store T
  exists now key store = elim (get String-discrete key store) [
    | none ↦ (false, store)
    | some entry ↦
        if is_expired now entry then (false, delete String-discrete key store) else (true, store)
  ]

  unfoldable pub ttl : ℕ → String → Store T → Remaining × Store T
  ttl now key store = elim (get String-discrete key store) [
    | none ↦ (no_key, store)
    | some entry ↦
        if is_expired now entry
        then (no_key, delete String-discrete key store)
        else (remaining now entry.expires_at, store)
  ]

module _ {T : Type 0} where
  unfoldable pub clear : Store T → Store T
  clear store = []

  unfoldable pub entry_count : Store T → ℕ
  entry_count store = size store

module _ {T : Type 0} where
  -- What a key's entry still counts for.
  abbrev alive : ℕ → Option (CacheEntry T) → Option T
  alive now none = none
  alive now (some entry) = if is_expired now entry then none else some entry.value

  fetch-alive :
      (now : ℕ) (key : String) (store : Store T)
      → (fetch now key store).0 ≡ alive now (get String-discrete key store)
  unfolding fetch
  fetch-alive now key store = elim (Option-cases (get String-discrete key store)) [
    | inl e ↦ rw (fetch, e)
    | inr (entry, e) ↦ elim (Bool-cases (is_expired now entry)) [
      | inl f ↦ rw (fetch, e, f)
      | inr f ↦ rw (fetch, e, f)
    ]
  ]

  -- A value that was put is what the store gives for its key until its time to live is over, and for
  -- good if that is 0; after that the store gives nothing. What it gives for another key is what it
  -- gave before.
  pub fetch-put :
      (t now ttl_seconds : ℕ) (key other : String) (value : T) (store : Store T)
      → (fetch now other (put t key value ttl_seconds store)).0
        ≡ ite
            (String-discrete key other)
            (if ltb 0 ttl_seconds && ltb (t + ttl_seconds * 1000) now then none else some value)
            (fetch now other store).0
  unfolding put is_expired
  fetch-put t now ttl_seconds key other value store =
      rw
        (
          fetch-alive now other (put t key value ttl_seconds store),
          fetch-alive now other store,
          put,
          get-set String-discrete other key
              (record {
                value = value;
                expires_at = if ltb 0 ttl_seconds then some (t + ttl_seconds * 1000) else none;
              })
              store,
        )
        (ground arith)

  -- The three ways to ask for a key agree on whether it is there, and leave the same store.
  exists-fetch :
      (now : ℕ) (key : String) (store : Store T)
      → ((exists now key store).0 ≡ is_some (fetch now key store).0)
        × ((exists now key store).1 ≡ (fetch now key store).1)
        × ((ttl now key store).1 ≡ (fetch now key store).1)
  unfolding exists fetch ttl
  exists-fetch now key store = elim (Option-cases (get String-discrete key store)) [
    | inl e ↦ rw (exists, fetch, ttl, e) (refl, refl, refl)
    | inr (entry, e) ↦ elim (Bool-cases (is_expired now entry)) [
      | inl f ↦ rw (exists, fetch, ttl, e, f) (refl, refl, refl)
      | inr f ↦ rw (exists, fetch, ttl, e, f) (refl, refl, refl)
    ]
  ]
