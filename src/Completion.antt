-- ===== src/Completion.antt =====
-- packages/bullmq/src/events/completion-tracker.ts: who waits for the end of which job. A callback
-- is the number of its registration, and what the callbacks are told is kept as a list; they are
-- taken not to call the tracker. A timer has the number of the registration that set it. The
-- streams of queue events, and their closing, are left out.
pub mod Settling
mod Tests
use orijs.Common.{
  ℕ, zero, suc, ◌+◌, ◌≤◌, ◌<◌, ◌≡◌, refl, sym, ap, ◌∙◌, subst, ◌≢◌, ◌⊎◌, inl, inr, ite, Bool, true,
  false, not, ◌&&◌, ◌||◌, Option, none, some, List, [], ◌∷◌, ◌++◌, map, String, String-discrete,
  ℕ_discrete, arith, length, All, In, first, later, if◌then◌else◌, ltb, leb, is_some, holds,
  or_else, Bool-cases, Option-cases,
}
use orijs.JsMap
use orijs.JsMap.{JsMap, get, set, delete, contains, add, remove}

-- `PendingCompletion`
pub record Completion : Type 0 where
  pub registration : ℕ
  pub has_on_error : Bool
  pub timed : Bool

pub data Failure (X : Type 0) : Type 0 where
  timed_out shutting_down : Failure X
  job_failed : X → Failure X

pub data Told (R X : Type 0) : Type 0 where
  success : R → Told R X
  failure : Failure X → Told R X

pub record Tracker (R X : Type 0) : Type 0 where
  pub pending : JsMap String (JsMap String Completion)
  pub job_ids : JsMap String (JsMap String (List String))
  pub timers : JsMap ℕ (String × String)
  pub default_timeout : ℕ
  pub stopping : Bool
  pub next : ℕ
  pub told : List (ℕ × Told R X)

-- `cleanupJobIdMapping`: the first job of the queue that has the identifier loses it.
unfoldable pub clean_jobs : String → JsMap String (List String) → JsMap String (List String)
clean_jobs correlation_id [] = []
clean_jobs correlation_id ((job_id, ids) ∷ jobs) =
    let rest = clean_jobs correlation_id jobs in
    if contains String-discrete correlation_id ids
    then (elim (remove String-discrete correlation_id ids) [
      | [] ↦ jobs
      | i ∷ is ↦ (job_id, i ∷ is) ∷ jobs
    ])
    else (job_id, ids) ∷ rest

unfoldable pub cleanup_job_id_mapping :
    String
    → String
    → JsMap String (JsMap String (List String))
    → JsMap String (JsMap String (List String))
cleanup_job_id_mapping queue correlation_id m = elim (get String-discrete queue m) [
  | none ↦ m
  | some jobs ↦ set String-discrete queue (clean_jobs correlation_id jobs) m
]

abbrev head : List String → Option String
head [] = none
head (i ∷ is) = some i

abbrev clear_timers :
    JsMap String Completion → JsMap ℕ (String × String) → JsMap ℕ (String × String)
clear_timers [] timers = timers
clear_timers ((i, c) ∷ cs) timers =
    clear_timers cs (if c.timed then delete ℕ_discrete c.registration timers else timers)

abbrev clear_all :
    JsMap String (JsMap String Completion) → JsMap ℕ (String × String) → JsMap ℕ (String × String)
clear_all [] timers = timers
clear_all ((queue, cs) ∷ qs) timers = clear_all qs (clear_timers cs timers)

module _ {R X : Type 0} where
  unfoldable pub register : String → String → Bool → Option ℕ → Tracker R X → Tracker R X
  register queue correlation_id has_on_error timeout s =
      let timed = ltb 0 (or_else timeout s.default_timeout) in
      record s {
        pending =
            set String-discrete queue
              (set String-discrete correlation_id
                (record { registration = s.next; has_on_error = has_on_error; timed = timed })
                (or_else (get String-discrete queue s.pending) []))
              s.pending;
        timers = if timed then set ℕ_discrete s.next (queue, correlation_id) s.timers else s.timers;
        next = suc s.next;
      }

  unfoldable pub map_job_id : String → String → String → Tracker R X → Tracker R X
  map_job_id queue job_id correlation_id s =
      let jobs = or_else (get String-discrete queue s.job_ids) [] in
      record s {
        job_ids =
            set String-discrete queue
              (set String-discrete job_id
                (add String-discrete correlation_id (or_else (get String-discrete job_id jobs) []))
                jobs)
              s.job_ids;
      }

  -- The identifiers that a job stands for.
  unfoldable pub ids_of : String → String → Tracker R X → List String
  ids_of queue job_id s =
      or_else (get String-discrete job_id (or_else (get String-discrete queue s.job_ids) [])) []

  unfoldable pub get_correlation_id : String → String → Tracker R X → Option String
  get_correlation_id queue job_id s = head (ids_of queue job_id s)

  -- `this.pending.get(queueName)?.get(correlationId)`
  unfoldable pub waiting : String → String → Tracker R X → Option Completion
  waiting queue correlation_id s =
      get String-discrete correlation_id (or_else (get String-discrete queue s.pending) [])

  unfoldable pub has_pending : String → String → Tracker R X → Bool
  has_pending queue correlation_id s = is_some (waiting queue correlation_id s)

  -- What `complete` and `fail` do before the callback.
  unfoldable pub take : String → String → Completion → Tracker R X → Tracker R X
  take queue correlation_id c s = record s {
    pending =
        set String-discrete queue
          (delete String-discrete correlation_id (or_else (get String-discrete queue s.pending) []))
          s.pending;
    timers = if c.timed then delete ℕ_discrete c.registration s.timers else s.timers;
    job_ids = cleanup_job_id_mapping queue correlation_id s.job_ids;
  }

  unfoldable pub complete : String → String → R → Tracker R X → Tracker R X
  complete queue correlation_id result s = elim (waiting queue correlation_id s) [
    | none ↦ s
    | some c ↦ record (take queue correlation_id c s) {
      told = s.told ++ (c.registration, success result) ∷ [];
    }
  ]

  abbrev pub tell_failure : Completion → Failure X → List (ℕ × Told R X)
  tell_failure c e = if c.has_on_error then (c.registration, failure e) ∷ [] else []

  unfoldable pub fail : String → String → Failure X → Tracker R X → Tracker R X
  fail queue correlation_id e s = elim (waiting queue correlation_id s) [
    | none ↦ s
    | some c ↦ record (take queue correlation_id c s) { told = s.told ++ tell_failure c e }
  ]

  unfoldable pub complete_all : String → List String → R → Tracker R X → Tracker R X
  complete_all queue [] result s = s
  complete_all queue (i ∷ is) result s = complete_all queue is result (complete queue i result s)

  unfoldable pub complete_job : String → String → R → Tracker R X → Tracker R X
  complete_job queue job_id result s = complete_all queue (ids_of queue job_id s) result s

  unfoldable pub fail_all : String → List String → Failure X → Tracker R X → Tracker R X
  fail_all queue [] e s = s
  fail_all queue (i ∷ is) e s = fail_all queue is e (fail queue i e s)

  unfoldable pub fail_job : String → String → X → Tracker R X → Tracker R X
  fail_job queue job_id e s = fail_all queue (ids_of queue job_id s) (job_failed e) s

  -- The timer with this number fires, unless it was cleared.
  unfoldable pub fire : ℕ → Tracker R X → Tracker R X
  fire number s = elim (get ℕ_discrete number s.timers) [
    | none ↦ s
    | some target ↦
        fail target.0 target.1 timed_out (record s { timers = delete ℕ_discrete number s.timers })
  ]

  abbrev tell_queue : JsMap String Completion → List (ℕ × Told R X)
  tell_queue [] = []
  tell_queue ((i, c) ∷ cs) = tell_failure c shutting_down ++ tell_queue cs

  abbrev tell_all : JsMap String (JsMap String Completion) → List (ℕ × Told R X)
  tell_all [] = []
  tell_all ((queue, cs) ∷ qs) = tell_queue cs ++ tell_all qs

  unfoldable pub stop : Tracker R X → Tracker R X
  stop s = record s {
    stopping = true;
    timers = clear_all s.pending s.timers;
    told = s.told ++ tell_all s.pending;
    pending = [];
    job_ids = [];
  }
