-- ===== src/Bullmq.antt =====
-- packages/bullmq/src/workflows/bullmq-workflow-provider.ts: what the instance that executes workflows
-- keeps of them. Flows and jobs are known by their identifiers; the job of a flow is that of its
-- idempotency key, if there is one. What Redis says is an argument.
mod Tests
pub mod Races
pub mod FlowBuilder
use orijs.Common.{
  ℕ, zero, suc, ◌≡◌, refl, Bool, true, false, not, Option, none, some, List, [], ◌∷◌, ◌++◌, String,
  String-discrete, length, leb, holds, if◌then◌else◌,
}
use orijs.JsMap.{JsMap, get, set, delete, size, contains, add, remove}

pub data FlowStatus : Type 0 where
  pending running completed failed : FlowStatus

pub record LocalFlowState (E : Type 0) : Type 0 where
  pub status : FlowStatus
  pub error : Option E

pub data Failure (E : Type 0) : Type 0 where
  timed_out : Failure E
  stored : E → Failure E

-- How the promise of a flow was settled.
pub data Settlement (R E : Type 0) : Type 0 where
  resolved : R → Settlement R E
  rejected : E → Settlement R E

-- What Redis says of the job of a flow.
pub data RedisState (R : Type 0) : Type 0 where
  not_found job_failed job_active : RedisState R
  job_completed : R → RedisState R

-- What is kept under the key of a workflow and an idempotency key: the handle of a flow, or one that
-- follows the job that Redis has.
pub data FlowHandle : Type 0 where
  of_flow of_job : String → FlowHandle

-- `pending_results` gives the flow of a job. `loading` are the flows whose failure is being loaded, and
-- `checking` those whose timeout has fired and whose job is being looked up. The sets of handles are
-- those of the timers that are set. `settlements` are the settled promises, by their flows.
pub record FlowTable (R E : Type 0) : Type 0 where
  pub local_flow_states : JsMap String (LocalFlowState (Failure E))
  pub pending_results : JsMap String String
  pub cleanup_handles : List String
  pub timeout_handles : List String
  pub loading : List String
  pub checking : List String
  pub settlements : JsMap String (Settlement R (Failure E))
  pub idempotent_handles : JsMap String FlowHandle
  pub max_flow_states : ℕ
  pub flow_state_cleanup_delay : ℕ

module _ {R E : Type 0} where
  abbrev pub is_settled : String → FlowTable R E → Bool
  is_settled flow_id t = elim (get String-discrete flow_id t.settlements) [
    | none ↦ false
    | some s ↦ true
  ]

  -- A promise is settled once.
  unfoldable pub settle : String → Settlement R (Failure E) → FlowTable R E → FlowTable R E
  settle flow_id s t = elim (get String-discrete flow_id t.settlements) [
    | none ↦ record t { settlements = set String-discrete flow_id s t.settlements }
    | some old ↦ t
  ]

  abbrev pub with_status :
      FlowStatus → Option (LocalFlowState (Failure E)) → String → FlowTable R E → FlowTable R E
  with_status status none flow_id t = t
  with_status status (some state) flow_id t = record t {
    local_flow_states =
        set String-discrete flow_id (record state { status = status }) t.local_flow_states;
  }

  -- `localState.status = status`, if there is a local state.
  unfoldable pub set_status : FlowStatus → String → FlowTable R E → FlowTable R E
  set_status status flow_id t =
      with_status status (get String-discrete flow_id t.local_flow_states) flow_id t

  abbrev pub with_failure :
      Failure E → Option (LocalFlowState (Failure E)) → String → FlowTable R E → FlowTable R E
  with_failure e none flow_id t = t
  with_failure e (some state) flow_id t = record t {
    local_flow_states =
        set String-discrete flow_id (record { status = failed; error = some e })
          t.local_flow_states;
  }

  unfoldable pub set_failure : Failure E → String → FlowTable R E → FlowTable R E
  set_failure e flow_id t =
      with_failure e (get String-discrete flow_id t.local_flow_states) flow_id t

  unfoldable pub schedule_flow_state_cleanup : String → FlowTable R E → FlowTable R E
  schedule_flow_state_cleanup flow_id t =
      if leb t.flow_state_cleanup_delay 0
      then t
      else record t { cleanup_handles = add String-discrete flow_id t.cleanup_handles }

  unfoldable pub clear_flow_timeout : String → FlowTable R E → FlowTable R E
  clear_flow_timeout flow_id t = record t {
    timeout_handles = remove String-discrete flow_id t.timeout_handles;
  }

-- The loop of `evictOldestFlowStatesIfNeeded`, over as many keys as there are; the empty key ends it.
module _ {E : Type 0} where
  unfoldable pub evict :
      ℕ
      → JsMap String (LocalFlowState (Failure E))
      → List String
      → JsMap String (LocalFlowState (Failure E)) × List String
  evict max [] handles = ([], handles)
  evict max ((flow_id, state) ∷ rest) handles =
      let evicted = evict max rest (remove String-discrete flow_id handles) in
      if leb max (length ((flow_id, state) ∷ rest))
      then (if holds (String-discrete flow_id "")
          then ((flow_id, state) ∷ rest, handles)
          else evicted)
      else ((flow_id, state) ∷ rest, handles)

module _ {R E : Type 0} where
  unfoldable pub evict_oldest_flow_states_if_needed : FlowTable R E → FlowTable R E
  evict_oldest_flow_states_if_needed t =
      if leb t.max_flow_states 0
      then t
      else (let (states, handles) = evict t.max_flow_states t.local_flow_states t.cleanup_handles in
          record t { local_flow_states = states; cleanup_handles = handles })

  -- The start of `executeDefinition`: `handle_key` is none without an idempotency key. After it the
  -- job is looked up in Redis, and other executions may go on.
  abbrev pub existing_handle : Option String → FlowTable R E → Option FlowHandle
  existing_handle none t = none
  existing_handle (some key) t = get String-discrete key t.idempotent_handles

  unfoldable pub initialize_flow_state : String → FlowTable R E → FlowTable R E
  initialize_flow_state flow_id t =
      let t1 = evict_oldest_flow_states_if_needed t in
      record t1 {
        local_flow_states =
            set String-discrete flow_id (record { status = pending; error = none })
              t1.local_flow_states;
      }

  abbrev pub keep_handle : Option String → FlowHandle → FlowTable R E → FlowTable R E
  keep_handle none handle t = t
  keep_handle (some key) handle t = record t {
    idempotent_handles = set String-discrete key handle t.idempotent_handles;
  }

  -- `executeDefinition` from the answer of Redis until it awaits the events of the queue, ...
  abbrev pub prepare : Option String → String → FlowTable R E → FlowTable R E
  prepare handle_key flow_id t =
      keep_handle handle_key (of_flow flow_id) (initialize_flow_state flow_id t)

  -- ... and from then on until it adds the job.
  unfoldable pub register_pending_result : String → String → FlowTable R E → FlowTable R E
  register_pending_result job_id flow_id t = record t {
    pending_results = set String-discrete job_id flow_id t.pending_results;
  }

  -- Both, if nothing happens while it waits.
  abbrev pub begin : Option String → String → String → FlowTable R E → FlowTable R E
  begin handle_key job_id flow_id t =
      register_pending_result job_id flow_id (prepare handle_key flow_id t)

  -- The end of `executeDefinition` where the job of the idempotency key is that of another flow.
  unfoldable pub discard : Option String → String → String → FlowTable R E → FlowTable R E
  discard handle_key job_id flow_id t = keep_handle handle_key (of_job job_id) (record t {
    pending_results = delete String-discrete job_id t.pending_results;
    local_flow_states = delete String-discrete flow_id t.local_flow_states;
  })

  -- The end of `executeDefinition` otherwise; `timeout` says whether one is set. A promise that is
  -- settled already clears it at once.
  unfoldable pub mark_running : Bool → String → FlowTable R E → FlowTable R E
  mark_running timeout flow_id t =
      let t1 = set_status running flow_id t in
      if timeout
      then (if is_settled flow_id t1
          then t1
          else record t1 { timeout_handles = add String-discrete flow_id t1.timeout_handles })
      else t1

  -- `completed` of the queue's events
  unfoldable pub on_completed : String → R → FlowTable R E → FlowTable R E
  on_completed job_id result t = elim (get String-discrete job_id t.pending_results) [
    | none ↦ t
    | some flow_id ↦ clear_flow_timeout flow_id (
        settle flow_id (resolved result) (
          schedule_flow_state_cleanup flow_id (
            set_status completed flow_id
              (record t { pending_results = delete String-discrete job_id t.pending_results }))))
  ]

  -- `failed` of the queue's events, until its failure is loaded
  unfoldable pub on_failed : String → FlowTable R E → FlowTable R E
  on_failed job_id t = elim (get String-discrete job_id t.pending_results) [
    | none ↦ t
    | some flow_id ↦ record t {
      pending_results = delete String-discrete job_id t.pending_results;
      loading = flow_id ∷ t.loading;
    }
  ]

  -- ... and from then on
  unfoldable pub on_loaded : String → E → FlowTable R E → FlowTable R E
  on_loaded flow_id e t =
      if contains String-discrete flow_id t.loading
      then clear_flow_timeout flow_id (
          settle flow_id (rejected (stored e)) (
            schedule_flow_state_cleanup flow_id (
              set_failure (stored e) flow_id
                (record t { loading = remove String-discrete flow_id t.loading }))))
      else t

abbrev pub is_active : {E : Type 0} → Option (LocalFlowState (Failure E)) → Bool
is_active none = false
is_active (some state) = elim state.status [
  | pending ↦ true
  | running ↦ true
  | completed ↦ false
  | failed ↦ false
]

-- The first job of a flow that is pending.
unfoldable pub job_of : String → JsMap String String → Option String
job_of flow_id [] = none
job_of flow_id ((job_id, f) ∷ rest) =
    let found = job_of flow_id rest in
    if holds (String-discrete f flow_id) then some job_id else found

module _ {R E : Type 0} where
  abbrev pub rejecting : Failure E → Option String → String → FlowTable R E → FlowTable R E
  rejecting e none flow_id t = t
  rejecting e (some job_id) flow_id t = clear_flow_timeout flow_id (
      settle flow_id (rejected e)
        (record t { pending_results = delete String-discrete job_id t.pending_results }))

  -- `rejectPendingByFlowId`
  unfoldable pub reject_pending_by_flow_id : Failure E → String → FlowTable R E → FlowTable R E
  reject_pending_by_flow_id e flow_id t =
      clear_flow_timeout flow_id (rejecting e (job_of flow_id t.pending_results) flow_id t)

  -- The end of a step that failed on this instance, in `processStep` and `handleParallelFailure`.
  unfoldable pub on_step_failed : String → E → FlowTable R E → FlowTable R E
  on_step_failed flow_id e t =
      reject_pending_by_flow_id (stored e) flow_id (set_failure (stored e) flow_id t)

  -- The timer of a flow fires: `checkRedisAndTimeout` until the job is looked up.
  unfoldable pub on_timeout : String → FlowTable R E → FlowTable R E
  on_timeout flow_id t =
      if contains String-discrete flow_id t.timeout_handles
      then (let t1 = clear_flow_timeout flow_id t in
          if is_active (get String-discrete flow_id t1.local_flow_states)
          then record t1 { checking = flow_id ∷ t1.checking }
          else t1)
      else t

  abbrev timing_out : Option String → String → FlowTable R E → FlowTable R E
  timing_out none flow_id t = t
  timing_out (some job_id) flow_id t =
      rejecting timed_out (some job_id) flow_id (set_failure timed_out flow_id t)

  unfoldable pub execute_timeout : String → FlowTable R E → FlowTable R E
  execute_timeout flow_id t =
      if is_active (get String-discrete flow_id t.local_flow_states)
      then timing_out (job_of flow_id t.pending_results) flow_id t
      else t

  abbrev found_completed : R → Option String → String → FlowTable R E → FlowTable R E
  found_completed result none flow_id t = t
  found_completed result (some job_id) flow_id t = clear_flow_timeout flow_id (
      settle flow_id (resolved result) (
        schedule_flow_state_cleanup flow_id (
          set_status completed flow_id
            (record t { pending_results = delete String-discrete job_id t.pending_results }))))

  abbrev pub checked : RedisState R → String → FlowTable R E → FlowTable R E
  checked not_found flow_id t = execute_timeout flow_id t
  checked job_active flow_id t = execute_timeout flow_id t
  checked job_failed flow_id t = t
  checked (job_completed result) flow_id t =
      found_completed result (job_of flow_id t.pending_results) flow_id t

  -- The rest of `checkRedisAndTimeout`; an error on the way is the same as a job that is not found.
  unfoldable pub on_checked : String → RedisState R → FlowTable R E → FlowTable R E
  on_checked flow_id redis t =
      if contains String-discrete flow_id t.checking
      then checked redis flow_id (record t { checking = remove String-discrete flow_id t.checking })
      else t

  -- The timer of a cleanup fires.
  unfoldable pub on_cleanup : String → FlowTable R E → FlowTable R E
  on_cleanup flow_id t =
      if contains String-discrete flow_id t.cleanup_handles
      then record t {
        local_flow_states = delete String-discrete flow_id t.local_flow_states;
        cleanup_handles = remove String-discrete flow_id t.cleanup_handles;
      }
      else t

  -- What `stop` leaves of the table.
  abbrev pub stop : FlowTable R E → FlowTable R E
  stop t = record t {
    timeout_handles = [];
    cleanup_handles = [];
    pending_results = [];
    local_flow_states = [];
    idempotent_handles = [];
  }
