-- ===== src/Idempotency/Recent.antt =====
-- What keeps the entry of an event among the events that are tracked.
use orijs.Common.{
  ℕ, zero, suc, ◌+◌, ◌-◌, ◌≤◌, ◌<◌, ◌≡◌, refl, sym, ◌≢◌, inl, inr, ite, Bool, true, false, none,
  some, [], ◌∷◌, String, String-discrete, arith, length, if◌then◌else◌, ltb, holds, Bool-cases,
}
use orijs.JsMap.{JsMap, get, set}
use orijs.JsMap.Laws.{length-set-le}
use orijs.Idempotency.{Idempotency, clean_expired, evict, evict_oldest, mark_processed}

module _ (event_id : String) (t : ℕ) where
  -- The first entry of the event has the time `t`, and at most `k` entries come after it.
  pub data Kept (k : ℕ) : JsMap String ℕ → Type 0 where
    here : {m : JsMap String ℕ} → length m ≤ k → Kept k ((event_id, t) ∷ m)
    there :
        {key : String} {u : ℕ} {m : JsMap String ℕ}
        → key ≢ event_id
        → Kept k m
        → Kept k ((key, u) ∷ m)

  pub Kept-get : (k : ℕ) (m : JsMap String ℕ) → Kept k m → get String-discrete event_id m ≡ some t
  unfolding get
  Kept-get k _ (here l) = ground arith
  Kept-get k _ (there {m = m} n h) = ground (arith, Kept-get k m h)

  pub Kept-more : (k : ℕ) (m : JsMap String ℕ) → Kept k m → Kept (suc k) m
  Kept-more k _ (here l) = here (omega (arith, l))
  Kept-more k _ (there {m = m} n h) = there n (Kept-more k m h)

  length-clean_expired-le :
      (now ttl : ℕ) (m : JsMap String ℕ) → length (clean_expired now ttl m) ≤ length m
  unfolding clean_expired
  length-clean_expired-le now ttl [] = omega arith
  length-clean_expired-le now ttl ((key, u) ∷ m) = ground (arith, length-clean_expired-le now ttl m)

  pub Kept-clean_expired :
      (now ttl k : ℕ) (m : JsMap String ℕ)
      → now ≤ t + ttl
      → Kept k m
      → Kept k (clean_expired now ttl m)
  unfolding clean_expired
  Kept-clean_expired now ttl k _ l (here {m = m} h) = by_age (ltb ttl (now - t)) refl
    where
      by_age :
          (b : Bool)
          → ltb ttl (now - t) ≡ b
          → Kept k (if b then clean_expired now ttl m else (event_id, t) ∷ clean_expired now ttl m)
      by_age true e = absurd (ground (arith, e, l))
      by_age false e = here (omega (arith, length-clean_expired-le now ttl m, h))
  Kept-clean_expired now ttl k _ l (there {key = key} {u = u} {m = m} n h) =
      by_age (ltb ttl (now - u)) (Kept-clean_expired now ttl k m l h)
    where
      by_age :
          (b : Bool)
          → Kept k (clean_expired now ttl m)
          → Kept k (if b then clean_expired now ttl m else (key, u) ∷ clean_expired now ttl m)
      by_age true r = r
      by_age false r = there n r

  -- The loop does not come to the entry if it takes few enough rounds.
  Kept-evict : (n k : ℕ) (m : JsMap String ℕ) → n + k < length m → Kept k m → Kept k (evict n m)
  unfolding evict
  Kept-evict zero k _ l (here h) = here h
  Kept-evict (suc n) k _ l (here h) = absurd (omega (arith, l, h))
  Kept-evict zero k _ l (there n h) = there n h
  Kept-evict (suc n) k _ l (there {key = key} {u = u} {m = m} ne h) =
      by_key (String-discrete key "") (Kept-evict n k m (omega (arith, l)) h)
    where
      by_key :
          (d : Dec (key ≡ ""))
          → Kept k (evict n m)
          → Kept k (if holds d then (key, u) ∷ evict n m else evict n m)
      by_key (yes e) r = there ne r
      by_key (no e) r = r

  lt_of_ltb : (a b : ℕ) → ltb a b ≡ true → a < b
  lt_of_ltb a b h = ground arith

  Kept-evict_oldest :
      (limit k : ℕ) (m : JsMap String ℕ) → k < limit → Kept k m → Kept k (evict_oldest limit m)
  unfolding evict_oldest
  Kept-evict_oldest limit k m l h = elim (Bool-cases (ltb limit (length m))) [
    | inl e ↦
        rw (evict_oldest, e)
          (Kept-evict (length m - limit) k m (omega (arith, l, lt_of_ltb limit (length m) e)) h)
    | inr e ↦ rw (evict_oldest, e) h
  ]

  Kept-set :
      (key : String) (v k : ℕ) (m : JsMap String ℕ)
      → key ≢ event_id
      → Kept k m
      → Kept (suc k) (set String-discrete key v m)
  unfolding set
  Kept-set key v k _ n (here {m = m} h) = by_key (String-discrete event_id key)
    where
      by_key :
          (d : Dec (event_id ≡ key))
          → Kept (suc k) (ite d ((key, v) ∷ m) ((event_id, t) ∷ set String-discrete key v m))
      by_key (yes e) = absurd (n (sym e))
      by_key (no e) = here (omega (arith, length-set-le String-discrete key v m, h))
  Kept-set key v k _ n (there {key = other} {u = u} {m = m} ne h) =
      by_key (String-discrete other key) (Kept-set key v k m n h)
    where
      by_key :
          (d : Dec (other ≡ key))
          → Kept (suc k) (set String-discrete key v m)
          → Kept (suc k) (ite d ((key, v) ∷ m) ((other, u) ∷ set String-discrete key v m))
      by_key (yes e) r = there n (Kept-more k m h)
      by_key (no e) r = there ne r

  Kept-set_absent :
      (m : JsMap String ℕ)
      → get String-discrete event_id m ≡ none
      → Kept 0 (set String-discrete event_id t m)
  unfolding get set
  Kept-set_absent [] h = here (omega arith)
  Kept-set_absent ((key, u) ∷ m) h = by_key (String-discrete key event_id) h (Kept-set_absent m)
    where
      by_key :
          (d : Dec (key ≡ event_id))
          → ite d (some u) (get String-discrete event_id m) ≡ none
          → (get String-discrete event_id m ≡ none → Kept 0 (set String-discrete event_id t m))
          → Kept 0 (ite d ((event_id, t) ∷ m) ((key, u) ∷ set String-discrete event_id t m))
      by_key (yes e) g next = absurd cc
      by_key (no e) g next = there e (next g)

  -- Marking the event adds its entry, and marking another one keeps it.
  pub Kept-mark_processed :
      (s : Idempotency)
      → 1 ≤ s.max_size
      → get String-discrete event_id s.processed ≡ none
      → Kept 0 (mark_processed t event_id s).processed
  unfolding mark_processed
  Kept-mark_processed s p h = Kept-evict_oldest s.max_size 0 _ p (Kept-set_absent s.processed h)

  pub Kept-mark_other :
      (now k : ℕ) (key : String) (s : Idempotency)
      → suc k < s.max_size
      → key ≢ event_id
      → Kept k s.processed
      → Kept (suc k) (mark_processed now key s).processed
  unfolding mark_processed
  Kept-mark_other now k key s p n h =
      Kept-evict_oldest s.max_size (suc k) _ p (Kept-set key now k s.processed n h)
