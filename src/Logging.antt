-- ===== src/Logging.antt =====
-- packages/logging/src/log-buffer.ts: `LogBufferManager`. A text is the list of its characters' codes,
-- and `Json` is `JSON.stringify` and `JSON.parse`.
mod Tests
pub mod Lines
pub mod Kept
pub mod Delivery
pub mod Conservation
use orijs.Common.{
  ℕ, zero, suc, ◌+◌, ◌≡◌, ◌≢◌, Bool, true, false, not, ◌&&◌, Option, none, some, or_else, is_some,
  List, [], ◌∷◌, ◌++◌, map, length, All, ltb, leb, ◌==◌, if◌then◌else◌,
}
use orijs.Websocket.{Text}

-- What the logger writes, or the warning about dropped logs: its time and how many they were.
pub data LogObject (A : Type 0) : Type 0 where
  logged : A → LogObject A
  overflow_warning : ℕ → ℕ → LogObject A

-- `f` on what the logger writes.
abbrev pub on_logged : {A : Type 0} → (A → A) → LogObject A → LogObject A
on_logged f (logged a) = logged (f a)
on_logged f (overflow_warning now n) = overflow_warning now n

-- `serialises` is false where `JSON.stringify` throws, as on cycles; what `stringify` gives then is
-- not used. A text that it gives has no newline, and is parsed to what is left of the object in JSON:
-- `parsed` takes out fields that are undefined, for example. A warning has only texts and numbers.
pub record Json (A : Type 0) : Type 0 where
  pub stringify : LogObject A → Text
  pub parse : Text → Option (LogObject A)
  pub serialises : A → Bool
  pub parsed : A → A
  pub stringify_has_no_newline : (l : LogObject A) → All (λ c. c ≢ 10) (stringify l)
  pub parse-stringify : (l : LogObject A) → parse (stringify l) ≡ some (on_logged parsed l)
  pub parse_nothing : parse [] ≡ none

-- `transport_resolver` is what the resolver gives, if there is one.
pub record LogBuffer (T : Type 0) : Type 0 where
  pub enabled : Bool
  pub buffer : Text
  pub flush_interval_ms : ℕ
  pub buffer_size_threshold : ℕ
  pub max_buffer_size : ℕ
  pub flush_timer : Option ℕ
  pub writing : Bool
  pub dropped_count : ℕ
  pub transport_resolver : Option (Option (List T))

-- The buffer, and what was seen of it: the calls of transports, the lines that could not be parsed,
-- and the objects that were put in the buffer and that were dropped.
pub record World (A T : Type 0) : Type 0 where
  pub manager : LogBuffer T
  pub sent : List (T × LogObject A)
  pub unreadable : List Text
  pub accepted : List A
  pub dropped : List A

pub record LogBufferOptions : Type 0 where
  pub enabled : Option Bool
  pub flush_interval : Option ℕ
  pub buffer_size : Option ℕ
  pub max_buffer_size : Option ℕ

abbrev pub default_flush_interval : ℕ
default_flush_interval = 10

abbrev pub default_buffer_size : ℕ
default_buffer_size = 4096

abbrev pub default_max_buffer_size : ℕ
default_max_buffer_size = 1048576

module _ {T : Type 0} where
  abbrev pub start_timer : LogBuffer T → LogBuffer T
  start_timer m = record m { flush_timer = some m.flush_interval_ms }

  abbrev pub stop_timer : LogBuffer T → LogBuffer T
  stop_timer m = record m { flush_timer = none }

  abbrev timer_adjusted : LogBuffer T → LogBuffer T
  timer_adjusted m =
      if m.enabled && not (is_some m.flush_timer)
      then start_timer m
      else if not m.enabled && is_some m.flush_timer
      then stop_timer m
      else m

  unfoldable pub configure : LogBufferOptions → LogBuffer T → LogBuffer T
  configure options m = timer_adjusted (record m {
    enabled = or_else options.enabled true;
    flush_interval_ms = or_else options.flush_interval default_flush_interval;
    buffer_size_threshold = or_else options.buffer_size default_buffer_size;
    max_buffer_size = or_else options.max_buffer_size default_max_buffer_size;
  })

  abbrev pub set_transport_resolver : Option (List T) → LogBuffer T → LogBuffer T
  set_transport_resolver given m = record m { transport_resolver = some given }

  -- `reset`, and the state at the start.
  abbrev pub reset : LogBuffer T
  reset = record {
    enabled = true;
    buffer = [];
    flush_interval_ms = default_flush_interval;
    buffer_size_threshold = default_buffer_size;
    max_buffer_size = default_max_buffer_size;
    flush_timer = none;
    writing = false;
    dropped_count = 0;
    transport_resolver = none;
  }

  -- `console` is the default transport.
  abbrev pub output_of : T → Option (Option (List T)) → List T
  output_of console (some (some (t ∷ ts))) = t ∷ ts
  output_of console _ = console ∷ []

-- `split("\n")`
abbrev with_first : ℕ → List Text → List Text
with_first c [] = (c ∷ []) ∷ []
with_first c (l ∷ ls) = (c ∷ l) ∷ ls

unfoldable pub split_lines : Text → List Text
split_lines [] = [] ∷ []
split_lines (c ∷ cs) = if c == 10 then [] ∷ split_lines cs else with_first c (split_lines cs)

abbrev with_line : Text → List Text → List Text
with_line [] ls = ls
with_line (c ∷ cs) ls = (c ∷ cs) ∷ ls

-- The `filter` of the lines that are not empty.
abbrev pub filled : List Text → List Text
filled [] = []
filled (l ∷ ls) = with_line l (filled ls)

module _ {A T : Type 0} where
  abbrev pub timer_started : World A T → World A T
  timer_started w =
      if is_some w.manager.flush_timer then w else record w { manager = start_timer w.manager }

  abbrev pub dropping : A → World A T → World A T
  dropping a w = record w {
    manager = record w.manager { dropped_count = suc w.manager.dropped_count };
    dropped = w.dropped ++ (a ∷ []);
  }

  abbrev pub written : World A T → World A T
  written w = record w { manager = record w.manager { writing = false } }

module _ {A : Type 0} (json : Json A) where
  abbrev pub line : LogObject A → Text
  line l = json.stringify l ++ (10 ∷ [])

  abbrev pub warned : ℕ → ℕ → Text → Text
  warned now zero data_ = data_
  warned now (suc n) data_ = line (overflow_warning now (suc n)) ++ data_

module _ {A T : Type 0} (json : Json A) where
  abbrev pub appending : A → World A T → World A T
  appending a w = record w {
    manager = record w.manager { buffer = w.manager.buffer ++ line json (logged a) };
    accepted = w.accepted ++ (a ∷ []);
  }

  abbrev pub overflows : A → World A T → Bool
  overflows a w =
      ltb w.manager.max_buffer_size (length w.manager.buffer + length (line json (logged a)))

  -- `write`, given `flush`; the result is none where it throws.
  abbrev pub write_by : (World A T → World A T) → A → World A T → Option Bool × World A T
  write_by flush a w =
      if not w.manager.enabled
      then (some false, w)
      else (let w1 = timer_started w in
          if not (json.serialises a)
          then (none, w1)
          else if overflows a w1
          then (some true, dropping a w1)
          else (let w2 = appending a w1 in
              (
                some true,
                if leb w2.manager.buffer_size_threshold (length w2.manager.buffer)
                    then flush w2
                    else w2,
              )))

-- `react` is what a transport logs itself while it is given an object, and `console` is the default
-- transport. A transport that throws was called.
module _ {A T : Type 0} (json : Json A) (react : T → LogObject A → List A) where
  -- What a transport logs while `writing` is set, where `flush` returns at once. A call of `write` that
  -- throws ends the transport.
  unfoldable pub reacting : List A → World A T → World A T
  reacting [] w = w
  reacting (a ∷ rest) w =
      let (result, w') = write_by json (λ v. v) a w in
      elim result [ none ↦ w' | some handled ↦ reacting rest w' ]

  unfoldable pub send_each : List T → LogObject A → World A T → World A T
  send_each [] l w = w
  send_each (t ∷ ts) l w =
      send_each ts l (reacting (react t l) (record w { sent = w.sent ++ ((t, l) ∷ []) }))

  -- The loop over the lines.
  unfoldable pub send_lines : List T → List Text → World A T → World A T
  send_lines ts [] w = w
  send_lines ts (text ∷ rest) w = send_lines ts rest (elim (json.parse text) [
    | none ↦ record w { unreadable = w.unreadable ++ (text ∷ []) }
    | some l ↦ send_each ts l w
  ])

module _ {A T : Type 0} (json : Json A) (react : T → LogObject A → List A) (console : T) where
  -- `flush` where nothing is being written; `now` is `Date.now()`.
  abbrev pub flush_free : ℕ → World A T → World A T
  flush_free now w =
      let m = w.manager in
      if (length m.buffer == 0) && (m.dropped_count == 0)
      then record w { manager = record m { dropped_count = 0 } }
      else written (
          send_lines json react (output_of console m.transport_resolver)
            (filled (split_lines (warned json now m.dropped_count m.buffer)))
            (record w { manager = record m { dropped_count = 0; writing = true; buffer = [] } }))

  unfoldable pub flush : ℕ → World A T → World A T
  flush now w = if w.manager.writing then w else flush_free now w

  unfoldable pub write : ℕ → A → World A T → Option Bool × World A T
  write now a w = write_by json (flush now) a w

  unfoldable pub shutdown : ℕ → World A T → World A T
  shutdown now w = flush now (record w { manager = stop_timer w.manager })

-- What happens to the buffer; the timer only flushes where it runs.
pub data Call (A T : Type 0) : Type 0 where
  writes : ℕ → A → Call A T
  flushes ticks shuts_down : ℕ → Call A T
  configures : LogBufferOptions → Call A T
  resolves : Option (List T) → Call A T
  resets : Call A T

module _ {A T : Type 0} (json : Json A) (react : T → LogObject A → List A) (console : T) where
  abbrev pub perform : Call A T → World A T → World A T
  perform (writes now a) w = (write json react console now a w).1
  perform (flushes now) w = flush json react console now w
  perform (ticks now) w =
      if is_some w.manager.flush_timer then flush json react console now w else w
  perform (shuts_down now) w = shutdown json react console now w
  perform (configures options) w = record w { manager = configure options w.manager }
  perform (resolves given) w = record w { manager = set_transport_resolver given w.manager }
  perform resets w = record w { manager = reset }

  unfoldable pub perform_all : List (Call A T) → World A T → World A T
  perform_all [] w = w
  perform_all (c ∷ cs) w = perform_all cs (perform c w)
