-- ===== src/Idempotency/Tests.antt =====
-- The theorems on the idempotency tracker at concrete events.
use orijs.Common.{ℕ, ◌≡◌, refl, inl, inr, [], ◌∷◌, String-discrete, arith}
use orijs.JsMap.{get, set}
use orijs.Idempotency.{
  Idempotency, skipped, clean_expired, evict, evict_oldest, mark_processed, process_once,
}
use orijs.Idempotency.Once.{process_all, handled_once}

abbrev tracker : Idempotency
tracker = record { processed = ("a", 0) ∷ ("b", 90) ∷ []; max_size = 2; ttl_ms = 150 }

-- At 100 the event c takes the place of the event a, and at 120 the event d that of the event b.
abbrev after : Idempotency
after = record tracker { processed = ("b", 90) ∷ ("c", 100) ∷ [] }

handled_once_example :
    (process_once {R = ℕ} {X = ℕ} 200 "c"
      (inl 1)
      (process_all {R = ℕ} {X = ℕ} ((120, "d", inl 3) ∷ []) after)).0
    ≡ skipped
unfolding process_once clean_expired evict evict_oldest mark_processed get set String-discrete
handled_once_example =
    handled_once {R = ℕ} {X = ℕ} 100 200 "c" (inr 4) (inl 1) ((120, "d", inl 3) ∷ []) tracker after
      (omega arith) refl (omega arith, tt) (omega arith)
