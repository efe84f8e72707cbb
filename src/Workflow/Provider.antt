-- ===== src/Workflow/Provider.antt =====
-- `InProcessWorkflowProvider` of packages/workflows/src/in-process-workflow-provider.ts: the
-- registered consumers, and the flows by their identifiers. A flow's state is an object that the
-- provider, the timers and the handles share: it stands in a store, under a reference.
pub mod Flows
use orijs.Common.{
  ℕ, suc, Bool, true, false, Option, none, some, List, [], String, String-discrete, ltb, ◌==◌,
  if◌then◌else◌, or_else,
}
use orijs.JsMap.{JsMap, get, set, delete, add, remove}
use orijs.Workflow.Flow.{
  Status, pending, FlowState, Ending, step_failed, on_error_failed, escaped_step, handler_failed,
  handler_returned, Consumer, fresh_flow, begin, time_out, conclude,
}

pub record Provider (D V R E : Type 0) : Type 0 where
  pub started : Bool
  pub default_timeout : ℕ
  pub consumers : JsMap String (Consumer D V R E)
  pub flows : JsMap String ℕ
  pub store : ℕ → FlowState R E
  pub next : ℕ
  pub cleanups : List String

pub data Refusal : Type 0 where
  not_started not_registered : Refusal

-- What `execute` gives: the provider, the reference behind the handle, and for a new flow the delay
-- of its timer.
pub data Execution (D V R E : Type 0) : Type 0 where
  refused : Refusal → Execution D V R E
  joined : Provider D V R E → ℕ → Execution D V R E
  launched : Provider D V R E → ℕ → Option ℕ → Execution D V R E

module _ {R E : Type 0} where
  abbrev pub put : (ℕ → FlowState R E) → ℕ → FlowState R E → ℕ → FlowState R E
  put store ref s other = if ref == other then s else store other

  -- The endings after which `scheduleCleanup` is called.
  abbrev pub cleans_up : Ending R E → Bool
  cleans_up (step_failed err) = true
  cleans_up (on_error_failed e) = false
  cleans_up (escaped_step e) = false
  cleans_up (handler_failed e) = true
  cleans_up (handler_returned r) = true

module _ {D V R E : Type 0} where
  -- `registerDefinitionConsumer`
  unfoldable pub register : String → Consumer D V R E → Provider D V R E → Provider D V R E
  register name c p = record p { consumers = set String-discrete name c p.consumers }

  unfoldable pub start : Provider D V R E → Provider D V R E
  start p = record p { started = true }

  unfoldable pub stop : Provider D V R E → Provider D V R E
  stop p = record p { started = false; flows = []; cleanups = [] }

  abbrev pub effective_timeout : Option ℕ → Provider D V R E → Option ℕ
  effective_timeout timeout p =
      let t = or_else timeout p.default_timeout in if ltb 0 t then some t else none

  -- `executeDefinitionWorkflow`, up to the first wait of the execution that it starts
  unfoldable pub launch : String → Option ℕ → Provider D V R E → Execution D V R E
  launch id timeout p = elim (get String-discrete id p.flows) [
    | some ref ↦ joined p ref
    | none ↦
        launched
          (record p {
            flows = set String-discrete id p.next p.flows;
            store = put p.store p.next (begin fresh_flow);
            next = suc p.next;
          })
          p.next (effective_timeout timeout p)
  ]

  -- `fresh` stands for `generateFlowId()`.
  unfoldable pub execute :
      String → Option String → Option ℕ → String → Provider D V R E → Execution D V R E
  execute name requested timeout fresh p =
      if p.started
      then elim (get String-discrete name p.consumers) [
        | none ↦ refused not_registered
        | some c ↦ launch (or_else requested fresh) timeout p
      ]
      else refused not_started

  unfoldable pub get_status : String → Provider D V R E → Status
  get_status id p = elim (get String-discrete id p.flows) [
    | none ↦ pending
    | some ref ↦ (p.store ref).status
  ]

  -- The timer of a flow fires.
  unfoldable pub fire : ℕ → Provider D V R E → Provider D V R E
  fire ref p = record p { store = put p.store ref (time_out (p.store ref)) }

  -- The execution of a flow ends.
  unfoldable pub finish : String → ℕ → Ending R E → Provider D V R E → Provider D V R E
  finish id ref end p = record p {
    store = put p.store ref (conclude end (p.store ref));
    cleanups = if cleans_up end then add String-discrete id p.cleanups else p.cleanups;
  }

  -- The callback of `scheduleCleanup`.
  unfoldable pub clean_up : String → Provider D V R E → Provider D V R E
  clean_up id p = record p {
    flows = delete String-discrete id p.flows;
    cleanups = remove String-discrete id p.cleanups;
  }
