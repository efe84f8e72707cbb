-- ===== src/Bullmq/Races.antt =====
-- Where two executions, or an execution and the events of its job, get in each other's way, and how
-- many flow states are kept.
use orijs.Common.{
  ℕ, suc, ◌≤◌, ◌<◌, ◌≡◌, ◌≢◌, refl, ap, ◌∙◌, Bool, true, false, Option, none, some, List, [], ◌∷◌,
  String, String-discrete, length, leb, holds, if◌then◌else◌, All, arith,
}
use orijs.JsMap.{JsMap, get, set, delete, remove}
use orijs.JsMap.Laws.{get-set_self, get-delete_self, length-set-le}
use orijs.Bullmq.{
  FlowStatus, pending, running, completed, LocalFlowState, Failure, Settlement, resolved, FlowTable,
  settle, with_status, set_status, schedule_flow_state_cleanup, clear_flow_timeout, evict,
  evict_oldest_flow_states_if_needed, of_flow, existing_handle, initialize_flow_state, prepare,
  register_pending_result, begin, discard, mark_running, on_completed, on_failed,
}

module _ {R E : Type 0} where
  set_status_at :
      (status : FlowStatus) (flow_id : String) (state : LocalFlowState (Failure E))
      (t : FlowTable R E)
      → get String-discrete flow_id t.local_flow_states ≡ some state
      → set_status status flow_id t ≡ with_status status (some state) flow_id t
  unfolding set_status
  set_status_at status flow_id state t e = rw (set_status, e) refl

  schedule-states :
      (flow_id : String) (t : FlowTable R E)
      → ((schedule_flow_state_cleanup flow_id t).local_flow_states ≡ t.local_flow_states)
        × ((schedule_flow_state_cleanup flow_id t).settlements ≡ t.settlements)
  unfolding schedule_flow_state_cleanup
  schedule-states flow_id t = ground arith

  settle_at :
      (flow_id : String) (s : Settlement R (Failure E)) (t : FlowTable R E)
      → get String-discrete flow_id t.settlements ≡ none
      → settle flow_id s t ≡ record t { settlements = set String-discrete flow_id s t.settlements }
  unfolding settle
  settle_at flow_id s t e = rw (settle, e) refl

  on_completed_at :
      (job_id flow_id : String) (result : R) (t : FlowTable R E)
      → get String-discrete job_id t.pending_results ≡ some flow_id
      → on_completed job_id result t
        ≡ clear_flow_timeout flow_id (
            settle flow_id (resolved result) (
              schedule_flow_state_cleanup flow_id (
                set_status completed flow_id (record t {
                  pending_results = delete String-discrete job_id t.pending_results;
                }))))
  unfolding on_completed
  on_completed_at job_id flow_id result t e = rw (on_completed, e) refl

  mark_running-states :
      (timeout : Bool) (flow_id : String) (t : FlowTable R E)
      → ((mark_running timeout flow_id t).local_flow_states
          ≡ (set_status running flow_id t).local_flow_states)
        × ((mark_running timeout flow_id t).settlements
            ≡ (set_status running flow_id t).settlements)
  unfolding mark_running
  mark_running-states timeout flow_id t = ground arith

  set_status-get :
      (status : FlowStatus) (flow_id : String) (state : LocalFlowState (Failure E))
      (t : FlowTable R E)
      → get String-discrete flow_id t.local_flow_states ≡ some state
      → get String-discrete flow_id (set_status status flow_id t).local_flow_states
        ≡ some (record state { status = status })
  set_status-get status flow_id state t e =
      ap (λ (u : FlowTable R E). get String-discrete flow_id u.local_flow_states)
        (set_status_at status flow_id state t e)
      ∙ get-set_self String-discrete flow_id (record state { status = status }) t.local_flow_states

  set_status-settlements :
      (status : FlowStatus) (flow_id : String) (t : FlowTable R E)
      → (set_status status flow_id t).settlements ≡ t.settlements
  unfolding set_status
  set_status-settlements status flow_id t =
      by_found (get String-discrete flow_id t.local_flow_states)
    where
      by_found :
          (o : Option (LocalFlowState (Failure E)))
          → (with_status status o flow_id t).settlements ≡ t.settlements
      by_found none = refl
      by_found (some state) = refl

  settle-states :
      (flow_id : String) (s : Settlement R (Failure E)) (t : FlowTable R E)
      → (settle flow_id s t).local_flow_states ≡ t.local_flow_states
  unfolding settle
  settle-states flow_id s t = by_found (get String-discrete flow_id t.settlements)
    where
      by_found :
          (o : Option (Settlement R (Failure E)))
          → (elim o as (λ x. FlowTable R E) [
            | none ↦ record t { settlements = set String-discrete flow_id s t.settlements }
            | some old ↦ t
          ]).local_flow_states
            ≡ t.local_flow_states
      by_found none = refl
      by_found (some old) = refl

  -- If the job of a flow is completed before `executeDefinition` comes to its end, the status of the
  -- flow is running after that end, though its promise was resolved. The flow is among the flow states,
  -- its job is pending and its promise is not settled.
  pub running_overwrites :
      (timeout : Bool) (job_id flow_id : String) (result : R) (state : LocalFlowState (Failure E))
      (t : FlowTable R E)
      → get String-discrete job_id t.pending_results ≡ some flow_id
      → get String-discrete flow_id t.local_flow_states ≡ some state
      → get String-discrete flow_id t.settlements ≡ none
      → (get String-discrete flow_id
            (mark_running timeout flow_id (on_completed job_id result t)).local_flow_states
          ≡ some (record state { status = running }))
        × (get String-discrete flow_id
              (mark_running timeout flow_id (on_completed job_id result t)).settlements
            ≡ some (resolved result))
  unfolding clear_flow_timeout
  running_overwrites timeout job_id flow_id result state t p l s = (
    ap (get String-discrete flow_id) ((mark_running-states timeout flow_id done).0)
        ∙ set_status-get running flow_id (record state { status = completed }) done completed_state,
    ap (get String-discrete flow_id) (
          (mark_running-states timeout flow_id done).1
          ∙ set_status-settlements running flow_id done)
        ∙ settled,
  )
    where
      taken : FlowTable R E
      taken = record t { pending_results = delete String-discrete job_id t.pending_results }

      marked : FlowTable R E
      marked = set_status completed flow_id taken

      scheduled : FlowTable R E
      scheduled = schedule_flow_state_cleanup flow_id marked

      done : FlowTable R E
      done = on_completed job_id result t

      done_at : done ≡ clear_flow_timeout flow_id (settle flow_id (resolved result) scheduled)
      done_at = on_completed_at job_id flow_id result t p

      completed_state :
          get String-discrete flow_id done.local_flow_states
          ≡ some (record state { status = completed })
      completed_state =
          ap (λ (u : FlowTable R E). get String-discrete flow_id u.local_flow_states) done_at
          ∙ ap (get String-discrete flow_id) (
              settle-states flow_id (resolved result) scheduled
              ∙ (schedule-states flow_id marked).0)
          ∙ set_status-get completed flow_id state taken l

      none_yet : get String-discrete flow_id scheduled.settlements ≡ none
      none_yet =
          ap (get String-discrete flow_id)
            ((schedule-states flow_id marked).1 ∙ set_status-settlements completed flow_id taken)
          ∙ s

      settled : get String-discrete flow_id done.settlements ≡ some (resolved result)
      settled =
          ap (λ (u : FlowTable R E). get String-discrete flow_id u.settlements)
            (done_at
              ∙ ap (clear_flow_timeout flow_id)
                  (settle_at flow_id (resolved result) scheduled none_yet))
          ∙ get-set_self String-discrete flow_id (resolved result) scheduled.settlements

  untouched_by_completion :
      (job_id : String) (result : R) (t : FlowTable R E)
      → get String-discrete job_id t.pending_results ≡ none
      → on_completed job_id result t ≡ t
  unfolding on_completed
  untouched_by_completion job_id result t e = rw (on_completed, e) refl

  untouched_by_failure :
      (job_id : String) (t : FlowTable R E)
      → get String-discrete job_id t.pending_results ≡ none
      → on_failed job_id t ≡ t
  unfolding on_failed
  untouched_by_failure job_id t e = rw (on_failed, e) refl

  prepare-keeps :
      (key flow_id : String) (t : FlowTable R E)
      → ((prepare (some key) flow_id t).settlements ≡ t.settlements)
        × ((prepare (some key) flow_id t).pending_results ≡ t.pending_results)
  unfolding initialize_flow_state evict_oldest_flow_states_if_needed
  prepare-keeps key flow_id t = (ground arith, ground arith)

  -- Two executions with one idempotency key that both come to await the events of the queue, before
  -- the first one registers.
  abbrev pub both_prepared : String → String → String → FlowTable R E → FlowTable R E
  both_prepared key flow_id other_id t = prepare (some key) other_id (prepare (some key) flow_id t)

  -- Of two executions with the same idempotency key, that of the first one's flow being the job in
  -- Redis, the second one looks for a handle before the first one keeps its own. Had it looked then,
  -- it would have found it. The first one registers its flow under the job, the second one puts its
  -- own flow in that place, whose handle is then the one that is kept, and withdraws it again. After
  -- that neither the completion nor the failure of the job changes anything, and the promise of the
  -- first one is not settled, if it was not before.
  pub concurrent_execute_strands :
      (key job_id flow_id other_id : String) (result : R) (t : FlowTable R E)
      (first second last : FlowTable R E)
      → existing_handle (some key) t ≡ none
      → get String-discrete flow_id t.settlements ≡ none
      → first ≡ register_pending_result job_id flow_id (both_prepared key flow_id other_id t)
      → second ≡ register_pending_result job_id other_id first
      → last ≡ discard (some key) job_id other_id second
      → (existing_handle (some key) (prepare (some key) flow_id t) ≡ some (of_flow flow_id))
        × (get String-discrete job_id first.pending_results ≡ some flow_id)
        × (get String-discrete job_id second.pending_results ≡ some other_id)
        × (existing_handle (some key) second ≡ some (of_flow other_id))
        × (on_completed job_id result last ≡ last)
        × (on_failed job_id last ≡ last)
        × (get String-discrete flow_id last.settlements ≡ none)
  unfolding register_pending_result discard
  concurrent_execute_strands key job_id flow_id other_id result t first second last k s e f g = (
    get-set_self String-discrete key (of_flow flow_id) _,
    rw (e, register_pending_result) (get-set_self String-discrete job_id flow_id _),
    rw (f, register_pending_result) (get-set_self String-discrete job_id other_id _),
    rw (f, register_pending_result, e, register_pending_result)
        (get-set_self String-discrete key (of_flow other_id) _),
    untouched_by_completion job_id result last gone,
    untouched_by_failure job_id last gone,
    rw (g, discard, f, register_pending_result, e, register_pending_result)
        (ap (get String-discrete flow_id) (
            (prepare-keeps key other_id (prepare (some key) flow_id t)).0
            ∙ (prepare-keeps key flow_id t).0)
          ∙ s),
  )
    where
      gone : get String-discrete job_id last.pending_results ≡ none
      gone = rw (g, discard) (get-delete_self String-discrete job_id second.pending_results)

-- The keys of the flow states are not empty.
abbrev pub AllNamed : {V : Type 0} → JsMap String V → Type 0
AllNamed m = All (λ e. e.0 ≢ "") m

module _ {E : Type 0} where
  length-evict-lt :
      (max : ℕ) (m : JsMap String (LocalFlowState (Failure E))) (handles : List String)
      → AllNamed m
      → length (evict (suc max) m handles).0 < suc max
  unfolding evict
  length-evict-lt max [] handles a = omega arith
  length-evict-lt max ((flow_id, state) ∷ rest) handles a =
      by_tests (length-evict-lt max rest (remove String-discrete flow_id handles) a.1)
        (leb (suc max) (length ((flow_id, state) ∷ rest))) refl (String-discrete flow_id "")
    where
      kept : Bool → Dec (flow_id ≡ "") → JsMap String (LocalFlowState (Failure E)) × List String
      kept b d =
          if b
          then (if holds d
              then ((flow_id, state) ∷ rest, handles)
              else evict (suc max) rest (remove String-discrete flow_id handles))
          else ((flow_id, state) ∷ rest, handles)

      by_tests :
          length (evict (suc max) rest (remove String-discrete flow_id handles)).0 < suc max
          → (b : Bool) → leb (suc max) (length ((flow_id, state) ∷ rest)) ≡ b
          → (d : Dec (flow_id ≡ "")) → length (kept b d).0 < suc max
      by_tests rec true e (yes p) = absurd (a.0 p)
      by_tests rec true e (no n) = rec
      by_tests rec false e d = ground (arith, e)

module _ {R E : Type 0} where
  length-initialize_flow_state-le :
      (flow_id : String) (max : ℕ) (t : FlowTable R E)
      → t.max_flow_states ≡ suc max
      → AllNamed t.local_flow_states
      → length (initialize_flow_state flow_id t).local_flow_states ≤ suc max
  unfolding initialize_flow_state evict_oldest_flow_states_if_needed
  length-initialize_flow_state-le flow_id max t m a = rw m (
      ground (
        arith,
        length-set-le String-discrete flow_id (record { status = pending; error = none })
            (evict (suc max) t.local_flow_states t.cleanup_handles).0,
        length-evict-lt max t.local_flow_states t.cleanup_handles a,
      ))

  -- After a workflow was begun, no more flow states are kept than the limit says, unless it is 0; the
  -- identifiers of flows are not empty.
  pub length-begin-le :
      (handle_key : Option String) (job_id flow_id : String) (max : ℕ) (t : FlowTable R E)
      → t.max_flow_states ≡ suc max
      → AllNamed t.local_flow_states
      → length (begin handle_key job_id flow_id t).local_flow_states ≤ suc max
  unfolding register_pending_result
  length-begin-le none job_id flow_id max t m a = length-initialize_flow_state-le flow_id max t m a
  length-begin-le (some key) job_id flow_id max t m a =
      length-initialize_flow_state-le flow_id max t m a
