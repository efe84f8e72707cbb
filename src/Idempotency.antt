-- ===== src/Idempotency.antt =====
-- packages/events/src/event-idempotency.ts. `Date.now()` is an argument, and so is what the
-- handler comes to.
pub mod Recent
pub mod Once
mod Tests
use orijs.Common.{
  ℕ, zero, suc, ◌+◌, ◌-◌, ◌≤◌, ◌<◌, ◌≡◌, refl, sym, ap, ◌∙◌, subst, ◌≢◌, ◌⊎◌, inl, inr, ite, Bool,
  true, false, not, ◌&&◌, ◌||◌, Option, none, some, List, [], ◌∷◌, ◌++◌, map, String,
  String-discrete, arith, length, All, In, first, later, if◌then◌else◌, ltb, leb, is_some, holds,
  or_else, Bool-cases, Option-cases,
}
use orijs.JsMap
use orijs.JsMap.{JsMap, get, set, delete, size}

pub record Idempotency : Type 0 where
  pub processed : JsMap String ℕ
  pub max_size : ℕ
  pub ttl_ms : ℕ

-- What a call of `processOnce` comes to: `{ executed: false }`, a result, or the handler's exception.
pub data Processed (R X : Type 0) : Type 0 where
  skipped : Processed R X
  executed : R → Processed R X
  handler_threw : X → Processed R X

unfoldable pub new : Option ℕ → Option ℕ → Idempotency
new max_size ttl_ms = record {
  processed = [];
  max_size = or_else max_size 10000;
  ttl_ms = or_else ttl_ms 3600000;
}

-- `cleanExpired`
unfoldable pub clean_expired : ℕ → ℕ → JsMap String ℕ → JsMap String ℕ
clean_expired now ttl [] = []
clean_expired now ttl ((event_id, timestamp) ∷ m) =
    if ltb ttl (now - timestamp)
    then clean_expired now ttl m
    else (event_id, timestamp) ∷ clean_expired now ttl m

-- The loop of `evictOldest`: the empty string is false, so that its entry stays.
unfoldable pub evict : ℕ → JsMap String ℕ → JsMap String ℕ
evict zero m = m
evict (suc n) [] = []
evict (suc n) ((event_id, timestamp) ∷ m) =
    if holds (String-discrete event_id "") then (event_id, timestamp) ∷ evict n m else evict n m

unfoldable pub evict_oldest : ℕ → JsMap String ℕ → JsMap String ℕ
evict_oldest max_size m = if ltb max_size (size m) then evict (size m - max_size) m else m

unfoldable pub mark_processed : ℕ → String → Idempotency → Idempotency
mark_processed now event_id s = record s {
  processed = evict_oldest s.max_size (set String-discrete event_id now s.processed);
}

abbrev pub outcome : {R X : Type 0} → R ⊎ X → Processed R X
outcome (inl r) = executed r
outcome (inr x) = handler_threw x

unfoldable pub process_once :
    {R X : Type 0} → ℕ → String → R ⊎ X → Idempotency → Processed R X × Idempotency
process_once now event_id handler s =
    let cleaned = record s { processed = clean_expired now s.ttl_ms s.processed } in
    if JsMap.has String-discrete event_id cleaned.processed
    then (skipped, cleaned)
    else (outcome handler, mark_processed now event_id cleaned)

unfoldable pub is_processed : ℕ → String → Idempotency → Bool × Idempotency
is_processed now event_id s = elim (get String-discrete event_id s.processed) [
  | none ↦ (false, s)
  | some timestamp ↦
      if ltb s.ttl_ms (now - timestamp)
      then (false, record s { processed = delete String-discrete event_id s.processed })
      else (true, s)
]

unfoldable pub clear : Idempotency → Idempotency
clear s = record s { processed = [] }
