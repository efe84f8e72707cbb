-- ===== src/Completion/Tests.antt =====
-- The theorems on the completion tracker at one queue.
use orijs.Common.{ℕ, suc, ◌≡◌, true, false, some, [], ◌∷◌, ◌++◌}
use orijs.Completion.{Tracker, timed_out, failure, register, fire}
use orijs.Completion.Settling.{stale_timer_fails_next}

abbrev tracker : Tracker ℕ ℕ
tracker = record {
  pending = ("q", ("c", record { registration = 0; has_on_error = true; timed = false }) ∷ []) ∷ [];
  job_ids = ("q", ("j", "c" ∷ []) ∷ []) ∷ [];
  timers = [];
  default_timeout = 0;
  stopping = false;
  next = 1;
  told = [];
}

stale_timer_fails_next_example :
    (fire 1 (register "q" "d" true (some 900) (register "q" "d" true (some 30) tracker))).told
    ≡ [] ++ (suc 1, failure timed_out) ∷ []
stale_timer_fails_next_example = stale_timer_fails_next "q" "d" true 29 (some 900) tracker
