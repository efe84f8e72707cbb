-- ===== src/Workflow/Flow.antt =====
-- The life of a flow in in-process-workflow-provider.ts: its state, the promise behind its handle,
-- the execution timeout and the end of the execution; and the provider that keeps the flows.
pub mod Settlement
use orijs.Common.{Bool, true, false, Option, none, some, List, String, if◌then◌else◌}
use orijs.JsMap.{JsMap}
use orijs.Workflow.{
  Outcome, returns, rejects, throws, Context, Handler, WorkflowError, StepGroup, done, stopped,
  escaped, initial, run_groups,
}

pub data Status : Type 0 where
  pending running completed failed : Status

pub data FlowError (E : Type 0) : Type 0 where
  timeout : FlowError E
  of_workflow : WorkflowError E → FlowError E
  raw : E → FlowError E

pub data Settled (R E : Type 0) : Type 0 where
  resolved : R → Settled R E
  rejected : FlowError E → Settled R E

-- `settled` is the state of `resultPromise`.
pub record FlowState (R E : Type 0) : Type 0 where
  pub status : Status
  pub result : Option R
  pub error : Option (FlowError E)
  pub settled : Option (Settled R E)

-- How the execution of a workflow ends.
pub data Ending (R E : Type 0) : Type 0 where
  step_failed : WorkflowError E → Ending R E
  on_error_failed escaped_step handler_failed : E → Ending R E
  handler_returned : R → Ending R E

-- `DefinitionConsumerConfig`
pub record Consumer (D V R E : Type 0) : Type 0 where
  pub handler : D → JsMap String V → Outcome R E
  pub step_groups : List StepGroup
  pub step_handlers : JsMap String (Handler D V E)
  pub on_error : Option (D → WorkflowError E → JsMap String V → Outcome (Unit {0}) E)

abbrev is_open : Status → Bool
is_open pending = true
is_open running = true
is_open _ = false

abbrev is_failed : Status → Bool
is_failed failed = true
is_failed _ = false

module _ {R E : Type 0} where
  unfoldable pub fresh_flow : FlowState R E
  fresh_flow = record { status = pending; result = none; error = none; settled = none }

  -- A promise is settled once: later calls of `resolve` and `reject` do nothing.
  abbrev pub settle : Settled R E → Option (Settled R E) → Option (Settled R E)
  settle new none = some new
  settle new (some old) = some old

  abbrev pub begin : FlowState R E → FlowState R E
  begin s = record s { status = running }

  abbrev fail_with : FlowError E → FlowState R E → FlowState R E
  fail_with e s = record s {
    status = failed;
    error = some e;
    settled = settle (rejected e) s.settled;
  }

  -- The callback of the execution timer.
  unfoldable pub time_out : FlowState R E → FlowState R E
  time_out s = if is_open s.status then fail_with timeout s else s

  -- The end of `executeDefinitionWorkflowInternal`, with the `catch` around its call.
  unfoldable pub conclude : Ending R E → FlowState R E → FlowState R E
  conclude (step_failed err) s = fail_with (of_workflow err) s
  conclude (on_error_failed e) s = record s { settled = settle (rejected (raw e)) s.settled }
  conclude (escaped_step e) s = record s { settled = settle (rejected (raw e)) s.settled }
  conclude (handler_failed e) s = fail_with (raw e) s
  conclude (handler_returned r) s =
      if is_failed s.status
      then s
      else record s { status = completed; result = some r; settled = settle (resolved r) s.settled }

  abbrev by_status : Status → Option R → Option (Settled R E) → Option (Settled R E)
  by_status completed (some r) p = some (resolved r)
  by_status completed none p = p
  by_status pending _ p = p
  by_status running _ p = p
  by_status failed _ p = p

  -- What `result()` of a second handle to the flow gives, once it is known.
  unfoldable pub joined_result : FlowState R E → Option (Settled R E)
  joined_result s = elim s.error [
    | some e ↦ some (rejected e)
    | none ↦ by_status s.status s.result s.settled
  ]

  abbrev handled : Outcome R E → Ending R E
  handled (returns r) = handler_returned r
  handled (rejects e) = handler_failed e
  handled (throws e) = handler_failed e

  abbrev reported : WorkflowError E → Outcome (Unit {0}) E → Ending R E
  reported err (returns u) = step_failed err
  reported err (rejects e) = on_error_failed e
  reported err (throws e) = on_error_failed e

module _ {D V R E : Type 0} where
  -- `executeDefinitionWorkflowInternal`
  unfoldable pub ending : Consumer D V R E → Context D V → Ending R E
  ending c ctx = elim (run_groups c.step_handlers ctx c.step_groups initial) [
    | done s ↦ handled (c.handler ctx.input s.results)
    | stopped err s ↦ elim c.on_error [
      | none ↦ step_failed err
      | some report ↦ reported err (report ctx.input err s.results)
    ]
    | escaped e s ↦ escaped_step e
  ]
