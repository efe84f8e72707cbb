-- ===== src/Workflow/Tests.antt =====
-- The theorems on workflows at concrete workflows and flows.
use orijs.Common.{ℕ, true, All, ◌≡◌, refl, none, some, List, [], ◌∷◌, ◌++◌, String, String-discrete}
use orijs.JsMap.{JsMap, get, set}
use orijs.Workflow.{
  Outcome, returns, rejects, throws, Context, Handler, raised, rollback_error, StepGroup,
  sequential, parallel, completed, failed, State, done, stopped, escaped, initial, run_rollbacks,
  rollback_each, failures, roll_back_after, first_error, merge_results, track_all, step,
  run_sequential, execute_step, run_parallel, run_group, run_groups,
}
use orijs.Workflow.Saga.{Undone, run_groups-Compensates, throw_skips_rollbacks}
use orijs.Workflow.Rollback.{step_names}
use orijs.Workflow.Results.{HasResult, names_of, with_rollback, run_groups-Did}
use orijs.Workflow.Flow.{Consumer, handler_returned, fresh_flow, begin, time_out, conclude}
use orijs.Workflow.Flow.Settlement.{begun, fired, concluded, IsConsistent, Life-IsConsistent}
use orijs.Workflow.Provider
use orijs.Workflow.Provider.{put}

abbrev undo : Context ℕ ℕ → Outcome (Unit {0}) ℕ
undo ctx = returns tt

abbrev fail_undo : Context ℕ ℕ → Outcome (Unit {0}) ℕ
fail_undo ctx = rejects 5

abbrev handlers : JsMap String (Handler ℕ ℕ ℕ)
handlers =
    ("pay", record { execute = λ ctx. returns ctx.input; rollback = some undo })
    ∷ ("ship", record { execute = λ ctx. returns 2; rollback = some fail_undo })
    ∷ ("mail", record { execute = λ ctx. rejects 7; rollback = none })
    ∷ ("crash", record { execute = λ ctx. throws 9; rollback = none })
    ∷ []

abbrev ctx : Context ℕ ℕ
ctx = record { flow_id = "f"; workflow_name = "w"; step_name = ""; input = 1; results = [] }

abbrev failing : List StepGroup
failing = sequential ("pay" ∷ "ship" ∷ []) ∷ parallel ("mail" ∷ "pay" ∷ []) ∷ []

abbrev failing_end : State ℕ ℕ ℕ
failing_end = record {
  results = ("pay", 1) ∷ ("ship", 2) ∷ [];
  completed_steps = ("pay", undo) ∷ ("ship", fail_undo) ∷ ("pay", undo) ∷ [];
  rolled = completed "pay" ∷ failed "ship" 5 ∷ completed "pay" ∷ [];
}

failing_run :
    run_groups handlers ctx failing initial
    ≡ stopped (rollback_error "mail" (raised 7) (5 ∷ [])) failing_end
unfolding run_groups run_group run_sequential run_parallel step execute_step first_error
    merge_results track_all roll_back_after run_rollbacks rollback_each failures get set
    String-discrete
failing_run = refl

run_groups-Compensates_example :
    Undone handlers ctx failing (rollback_error "mail" (raised 7) (5 ∷ [])) failing_end
unfolding get String-discrete
run_groups-Compensates_example =
    run_groups-Compensates handlers ctx failing ((refl, (refl, tt)), (tt, tt)) failing_run

abbrev passing : List StepGroup
passing = sequential ("pay" ∷ []) ∷ []

abbrev passing_end : State ℕ ℕ ℕ
passing_end = record {
  results = ("pay", 1) ∷ [];
  completed_steps = ("pay", undo) ∷ [];
  rolled = [];
}

passing_run : run_groups handlers ctx passing initial ≡ done passing_end
unfolding run_groups run_group run_sequential step get set String-discrete
passing_run = refl

throw_skips_rollbacks_example :
    (run_groups handlers ctx (passing ++ sequential ("crash" ∷ "ship" ∷ []) ∷ []) initial
      ≡ escaped 9 passing_end)
    × (passing_end.rolled ≡ [])
unfolding get String-discrete
throw_skips_rollbacks_example =
    throw_skips_rollbacks handlers ctx passing [] "crash" ("ship" ∷ []) passing_end
      (record { execute = λ ctx. throws 9; rollback = none }) 9 passing_run refl refl

run_groups-Did_example :
    All (HasResult passing_end.results) (names_of passing)
    × (step_names passing_end.completed_steps ≡ with_rollback handlers (names_of passing))
run_groups-Did_example = run_groups-Did handlers ctx passing passing_end passing_run

Life-IsConsistent_example :
    IsConsistent {R = ℕ} {E = ℕ} true (conclude (handler_returned 3) (time_out (begin fresh_flow)))
Life-IsConsistent_example = Life-IsConsistent (concluded (handler_returned 3) (fired begun))

abbrev consumer : Consumer ℕ ℕ ℕ ℕ
consumer = record {
  handler = λ d results. returns d;
  step_groups = passing;
  step_handlers = handlers;
  on_error = none;
}

abbrev provider : Provider.Provider ℕ ℕ ℕ ℕ
provider = record {
  started = true;
  default_timeout = 0;
  consumers = ("w", consumer) ∷ [];
  flows = [];
  store = λ ref. fresh_flow;
  next = 0;
  cleanups = [];
}

abbrev running_provider : Provider.Provider ℕ ℕ ℕ ℕ
running_provider = record provider {
  flows = ("f", 0) ∷ [];
  store = put provider.store 0 (begin fresh_flow);
  next = 1;
}
