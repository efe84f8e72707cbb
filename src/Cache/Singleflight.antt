-- ===== src/Cache/Singleflight.antt =====
-- packages/cache/src/singleflight.ts. A flight's promise is the number of the flight; `Date.now()`
-- is an argument, and `settle` is the rest of a flight after `await fn()`.
pub mod Flights
pub mod Anomalies
use orijs.Common.{
  ℕ, suc, ◌+◌, Bool, true, false, Option, none, some, List, [], ◌∷◌, String, String-discrete, ltb,
  if◌then◌else◌, or_else, is_some,
}
use orijs.JsMap
use orijs.JsMap.{JsMap, get, set, delete, size}

pub record CachedError (X : Type 0) : Type 0 where
  pub error : X
  pub until : ℕ

-- `next` is the number the next flight gets.
pub record Singleflight (X : Type 0) : Type 0 where
  pub flights : JsMap String ℕ
  pub errors : JsMap String (CachedError X)
  pub error_ttl_ms : ℕ
  pub next : ℕ

-- What `fn()` does up to its first `await`.
pub data Call (X : Type 0) : Type 0 where
  pending : Call X
  throws : X → Call X

-- How a promise that was pending settles.
pub data Outcome (X : Type 0) : Type 0 where
  resolved : Outcome X
  rejected : X → Outcome X

-- What a caller of `do` gets: the cached error, the promise of a flight that is under way, or
-- that of a flight of its own.
pub data Answer (X : Type 0) : Type 0 where
  cached_error : X → Answer X
  existing flown : ℕ → Answer X

module _ {X : Type 0} where
  unfoldable pub new : Option ℕ → Singleflight X
  new error_ttl_ms = record {
    flights = [];
    errors = [];
    error_ttl_ms = or_else error_ttl_ms 5000;
    next = 0;
  }

  -- `cachedError.until > Date.now()`
  unfoldable pub recent_error : ℕ → Option (CachedError X) → Option X
  recent_error now none = none
  recent_error now (some cached) = if ltb now cached.until then some cached.error else none

  -- The flight's end: its `try`, `catch` and `finally`.
  unfoldable pub settle : ℕ → String → Outcome X → Singleflight X → Singleflight X
  settle now key resolved s = record s {
    errors = delete String-discrete key s.errors;
    flights = delete String-discrete key s.flights;
  }
  settle now key (rejected x) s = record s {
    errors = set String-discrete key (record { error = x; until = now + s.error_ttl_ms }) s.errors;
    flights = delete String-discrete key s.flights;
  }

  -- A function that throws before its first `await` ends the flight before it is stored.
  unfoldable pub take_off : ℕ → String → Call X → Singleflight X → Singleflight X
  take_off now key pending s = s
  take_off now key (throws x) s = settle now key (rejected x) s

  -- `this.flights.set(key, { promise })`
  unfoldable pub store_flight : String → Singleflight X → Singleflight X
  store_flight key s = record s {
    flights = set String-discrete key s.next s.flights;
    next = suc s.next;
  }

  unfoldable pub do_flight : ℕ → String → Call X → Singleflight X → Answer X × Singleflight X
  do_flight now key call s = elim (recent_error now (get String-discrete key s.errors)) [
    | some x ↦ (cached_error x, s)
    | none ↦ elim (get String-discrete key s.flights) [
      | some flight ↦ (existing flight, s)
      | none ↦ (flown s.next, store_flight key (take_off now key call s))
    ]
  ]

  unfoldable pub forget : String → Singleflight X → Singleflight X
  forget key s = record s {
    flights = delete String-discrete key s.flights;
    errors = delete String-discrete key s.errors;
  }

  unfoldable pub forget_error : String → Singleflight X → Singleflight X
  forget_error key s = record s { errors = delete String-discrete key s.errors }

  unfoldable pub is_inflight : String → Singleflight X → Bool
  is_inflight key s = JsMap.has String-discrete key s.flights

  unfoldable pub has_error : ℕ → String → Singleflight X → Bool
  has_error now key s = is_some (recent_error now (get String-discrete key s.errors))

  unfoldable pub get_inflight_count : Singleflight X → ℕ
  get_inflight_count s = size s.flights

  unfoldable pub get_error_count : Singleflight X → ℕ
  get_error_count s = size s.errors

  unfoldable pub clear : Singleflight X → Singleflight X
  clear s = record s { flights = []; errors = [] }
