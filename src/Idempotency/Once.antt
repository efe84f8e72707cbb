-- ===== src/Idempotency/Once.antt =====
-- That an event is handled once, and how many events are tracked.
use orijs.Common.{
  ℕ, zero, suc, ◌+◌, ◌-◌, ◌≤◌, ◌<◌, ◌≡◌, refl, sym, ap, subst, ◌∙◌, ◌≢◌, ◌⊎◌, inl, inr, ite, true,
  false, none, some, List, [], ◌∷◌, String, String-discrete, arith, length, All, if◌then◌else◌, ltb,
  holds, Bool-cases, Option-cases,
}
use orijs.JsMap.{JsMap, get, set, size}
use orijs.Idempotency.{
  Idempotency, skipped, outcome, clean_expired, evict, evict_oldest, mark_processed, process_once,
}
use orijs.Idempotency.Recent.{
  Kept, Kept-get, Kept-more, Kept-clean_expired, Kept-mark_processed, Kept-mark_other,
}

add_zero : (k : ℕ) → k + 0 ≡ k
add_zero k = omega arith

add_suc : (k n : ℕ) → k + suc n ≡ suc k + n
add_suc k n = omega arith

abbrev cleaned : ℕ → Idempotency → Idempotency
cleaned now s = record s { processed = clean_expired now s.ttl_ms s.processed }

module _ (event_id : String) (t limit ttl : ℕ) where
  -- The tracker remembers the event, and `k` other events may have come since.
  abbrev Remembers : ℕ → Idempotency → Type 0
  Remembers k s = (s.max_size ≡ limit) × (s.ttl_ms ≡ ttl) × Kept event_id t k s.processed

  cleaned-Remembers :
      (now k : ℕ) (s : Idempotency) → now ≤ t + ttl → Remembers k s → Remembers k (cleaned now s)
  cleaned-Remembers now k s l (m, d, h) =
      (m, d, Kept-clean_expired event_id t now s.ttl_ms k s.processed (rw d l) h)

module _ {R X : Type 0} where
  process_once_known :
      (now : ℕ) (event_id : String) (handler : R ⊎ X) (s : Idempotency) {t : ℕ}
      → get String-discrete event_id (cleaned now s).processed ≡ some t
      → process_once now event_id handler s ≡ (skipped, cleaned now s)
  unfolding process_once
  process_once_known now event_id handler s e = rw (process_once, e) refl

  process_once_new :
      (now : ℕ) (event_id : String) (handler : R ⊎ X) (s : Idempotency)
      → get String-discrete event_id (cleaned now s).processed ≡ none
      → process_once now event_id handler s
        ≡ (outcome handler, mark_processed now event_id (cleaned now s))
  unfolding process_once
  process_once_new now event_id handler s e = rw (process_once, e) refl

  -- Calls of `processOnce`, each with its time and what its handler would come to.
  pub process_all : List (ℕ × String × (R ⊎ X)) → Idempotency → Idempotency
  process_all [] s = s
  process_all ((now, event_id, handler) ∷ calls) s =
      process_all calls (process_once now event_id handler s).1

  module _ (event_id : String) (t limit ttl : ℕ) where
    other_call-Remembers :
        (now k : ℕ) (key : String) (handler : R ⊎ X) (s : Idempotency)
        → now ≤ t + ttl
        → suc k < limit
        → Remembers event_id t limit ttl k s
        → Remembers event_id t limit ttl (suc k) (process_once now key handler s).1
    unfolding mark_processed
    other_call-Remembers now k key handler s l p r =
        elim (Option-cases (get String-discrete key (cleaned now s).processed)) [
          | inr (u, e) ↦
              rw (process_once_known now key handler s e)
                (c.0, c.1, Kept-more event_id t k (cleaned now s).processed c.2)
          | inl e ↦ rw (process_once_new now key handler s e) (
            c.0,
            c.1,
            Kept-mark_other event_id t now k key (cleaned now s) (rw c.0 p) (other e) c.2,
          )
        ]
      where
        c : Remembers event_id t limit ttl k (cleaned now s)
        c = cleaned-Remembers event_id t limit ttl now k s l r

        other : get String-discrete key (cleaned now s).processed ≡ none → key ≢ event_id
        other e same = absurd (clash (Kept-get event_id t k (cleaned now s).processed c.2))
          where
            clash : get String-discrete event_id (cleaned now s).processed ≡ some t → ⊥
            clash g = cc

    process_all-Remembers :
        (calls : List (ℕ × String × (R ⊎ X))) (k : ℕ) (s : Idempotency)
        → All (λ c. c.0 ≤ t + ttl) calls
        → k + length calls < limit
        → Remembers event_id t limit ttl k s
        → Remembers event_id t limit ttl (k + length calls) (process_all calls s)
    unfolding process_all
    process_all-Remembers [] k s a l r = rw (add_zero k) r
    process_all-Remembers ((now, key, handler) ∷ calls) k s (a, rest) l r =
        rw (add_suc k (length calls)) (
          process_all-Remembers calls (suc k) (process_once now key handler s).1 rest
            (omega (arith, l)) (other_call-Remembers now k key handler s a (omega (arith, l)) r))

  not_skipped : (h : R ⊎ X) → skipped ≡ outcome h → ⊥
  not_skipped (inl r) e = cc
  not_skipped (inr x) e = cc

  -- An event that was handed to its handler, whatever came of that, is skipped when it comes again
  -- within the time to live, if fewer calls than the tracker holds events came in between. The times
  -- of those calls are not after the end of the time to live either.
  pub handled_once :
      (now now' : ℕ) (event_id : String) (handler again : R ⊎ X)
      (calls : List (ℕ × String × (R ⊎ X))) (s s' : Idempotency)
      → length calls < s.max_size
      → process_once now event_id handler s ≡ (outcome handler, s')
      → All (λ c. c.0 ≤ now + s.ttl_ms) calls
      → now' ≤ now + s.ttl_ms
      → (process_once now' event_id again (process_all calls s')).0 ≡ skipped
  unfolding mark_processed
  handled_once now now' event_id handler again calls s s' p first_call a l =
      elim (Option-cases (get String-discrete event_id (cleaned now s).processed)) [
        | inr (t, e) ↦ absurd (
            not_skipped handler
              (ap (λ r. r.0) (sym (process_once_known now event_id handler s e) ∙ first_call)))
        | inl e ↦
            by_state (ap (λ r. r.1) (sym (process_once_new now event_id handler s e) ∙ first_call))
              (refl, refl, Kept-mark_processed event_id now (cleaned now s) (omega (arith, p)) e)
      ]
    where
      by_state :
          mark_processed now event_id (cleaned now s) ≡ s'
          → Remembers event_id now s.max_size s.ttl_ms 0
              (mark_processed now event_id (cleaned now s))
          → (process_once now' event_id again (process_all calls s')).0 ≡ skipped
      by_state e r =
          ap (λ q. q.0)
            (process_once_known now' event_id again (process_all calls s') (
              Kept-get event_id now (0 + length calls) _
                (cleaned-Remembers event_id now s.max_size s.ttl_ms now' (0 + length calls)
                  (process_all calls s') l
                  (process_all-Remembers event_id now s.max_size s.ttl_ms calls 0 s' a
                    (omega (arith, p))
                    (subst (Remembers event_id now s.max_size s.ttl_ms 0) e r))).2))

lt_of_ltb : (a b : ℕ) → ltb a b ≡ true → a < b
lt_of_ltb a b h = ground arith

le_of_ltb : (a b : ℕ) → ltb a b ≡ false → b ≤ a
le_of_ltb a b h = ground arith

set-named :
    (event_id : String) (t : ℕ) (m : JsMap String ℕ)
    → event_id ≢ ""
    → All (λ e. e.0 ≢ "") m
    → All (λ e. e.0 ≢ "") (set String-discrete event_id t m)
unfolding set
set-named event_id t [] n h = (n, tt)
set-named event_id t ((k, u) ∷ m) n h =
    pick (String-discrete k event_id) (set-named event_id t m n h.1)
  where
    pick :
        (d : Dec (k ≡ event_id))
        → All (λ e. e.0 ≢ "") (set String-discrete event_id t m)
        → All
            (λ e. e.0 ≢ "")
            (ite d ((event_id, t) ∷ m) ((k, u) ∷ set String-discrete event_id t m))
    pick (yes e) r = (n, h.1)
    pick (no ne) r = (h.0, r)

evict-named :
    (n : ℕ) (m : JsMap String ℕ)
    → All (λ e. e.0 ≢ "") m
    → (length (evict n m) ≡ length m - n) × All (λ e. e.0 ≢ "") (evict n m)
unfolding evict
evict-named zero [] h = (omega arith, tt)
evict-named zero (e ∷ m) h = (omega arith, h)
evict-named (suc n) [] h = (omega arith, tt)
evict-named (suc n) ((k, u) ∷ m) h = pick (String-discrete k "") (evict-named n m h.1)
  where
    pick :
        (d : Dec (k ≡ ""))
        → (length (evict n m) ≡ length m - n) × All (λ e. e.0 ≢ "") (evict n m)
        → (length (if holds d then (k, u) ∷ evict n m else evict n m) ≡ suc (length m) - suc n)
          × All (λ e. e.0 ≢ "") (if holds d then (k, u) ∷ evict n m else evict n m)
    pick (yes e) r = absurd (h.0 e)
    pick (no ne) r = (omega (arith, r.0), r.1)

evict_oldest-bounded :
    (limit : ℕ) (m : JsMap String ℕ)
    → All (λ e. e.0 ≢ "") m
    → (size (evict_oldest limit m) ≤ limit) × All (λ e. e.0 ≢ "") (evict_oldest limit m)
unfolding evict_oldest
evict_oldest-bounded limit m h = elim (Bool-cases (ltb limit (length m))) [
  | inl e ↦
      rw (evict_oldest, e)
        (
          omega (arith, (evict-named (length m - limit) m h).0, lt_of_ltb limit (length m) e),
          (evict-named (length m - limit) m h).1,
        )
  | inr e ↦ rw (evict_oldest, e) (le_of_ltb limit (length m) e, h)
]

-- After an event has been marked, no more than the set number of events is tracked, if none of them
-- is the empty string.
mark-bounded :
    (now : ℕ) (event_id : String) (s : Idempotency)
    → event_id ≢ ""
    → All (λ e. e.0 ≢ "") s.processed
    → (size (mark_processed now event_id s).processed ≤ s.max_size)
      × All (λ e. e.0 ≢ "") (mark_processed now event_id s).processed
unfolding mark_processed
mark-bounded now event_id s n h =
    evict_oldest-bounded s.max_size (set String-discrete event_id now s.processed)
      (set-named event_id now s.processed n h)
