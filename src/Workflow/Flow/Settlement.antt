-- ===== src/Workflow/Flow/Settlement.antt =====
-- The promise of a flow of in-process-workflow-provider.ts against its status.
use orijs.Common.{◌≡◌, refl, Bool, true, false, none, some, ◌⊎◌, inl, inr, arith}
use orijs.Workflow.{WorkflowError}
use orijs.Workflow.Flow.{
  Status, pending, running, completed, failed, FlowError, timeout, of_workflow, raw, resolved,
  rejected, FlowState, Ending, step_failed, on_error_failed, escaped_step, handler_failed,
  handler_returned, begin, fresh_flow, time_out, conclude, joined_result,
}

-- The states of a flow from the start of its execution. The execution ends at most once; the timer
-- may fire before that or after it.
pub data Life {R E : Type 0} : Bool → FlowState R E → Type 0 where
  begun : Life false (begin fresh_flow)
  fired : {ended : Bool} {s : FlowState R E} → Life ended s → Life ended (time_out s)
  concluded : {s : FlowState R E} (end : Ending R E) → Life false s → Life true (conclude end s)

module _ {E : Type 0} where
  -- The recorded error `e` against the error `r` that the promise was rejected with. They are the
  -- same, or the execution has ended and the timer fired too: before the end, which recorded another
  -- error, or after an end by an exception that no status records.
  abbrev pub Matches : Bool → FlowError E → FlowError E → Type 0
  Matches ended e r =
      (e ≡ r) ⊎ ((ended ≡ true) × ((r ≡ timeout) ⊎ ((e ≡ timeout) × (x : E) × (r ≡ raw x))))

module _ {R E : Type 0} where
  -- What a status says of the promise and of the fields.
  abbrev pub Agrees : Bool → Status → FlowState R E → Type 0
  Agrees ended pending s = ⊥
  Agrees false running s = (s.result ≡ none) × (s.error ≡ none) × (s.settled ≡ none)
  Agrees true running s =
      (s.result ≡ none) × (s.error ≡ none) × (x : E) × (s.settled ≡ some (rejected (raw x)))
  Agrees ended completed s =
      (ended ≡ true)
      × (s.error ≡ none)
      × (r : R) × (s.result ≡ some r)
      × (s.settled ≡ some (resolved r))
  Agrees ended failed s =
      (s.result ≡ none)
      × (e : FlowError E) × (r : FlowError E) × (s.error ≡ some e)
      × (s.settled ≡ some (rejected r))
      × Matches ended e r

  abbrev pub IsConsistent : Bool → FlowState R E → Type 0
  IsConsistent ended s = Agrees ended s.status s

  -- While the execution goes on, the flow runs and its promise is open, or the timer has fired.
  abbrev Working : FlowState R E → Type 0
  Working s =
      ((s.status ≡ running) × (s.settled ≡ none) × (s.result ≡ none) × (s.error ≡ none))
      ⊎ ((s.status ≡ failed)
          × (s.settled ≡ some (rejected timeout))
          × (s.error ≡ some timeout)
          × (s.result ≡ none))

  Life-Working : {s : FlowState R E} {ended : Bool} → Life ended s → ended ≡ false → Working s
  unfolding time_out fresh_flow
  Life-Working begun e = inl (refl, refl, refl, refl)
  Life-Working (fired {s = s} l) e = ground (arith, Life-Working l e)
  Life-Working (concluded end l) e = cc

  time_out-IsConsistent :
      (ended : Bool) (s : FlowState R E) → IsConsistent ended s → IsConsistent ended (time_out s)
  unfolding time_out
  time_out-IsConsistent ended s h = cases ended s.status refl h
    where
      cases :
          (ended : Bool) (st : Status)
          → s.status ≡ st
          → Agrees ended st s
          → IsConsistent ended (time_out s)
      cases ended pending e c = absurd c
      cases false running e (a, b, p) =
          rw (e, time_out, p) (a, timeout, timeout, refl, refl, inl refl)
      cases true running e (a, b, x, p) =
          rw (e, time_out, p) (a, timeout, raw x, refl, refl, inr (refl, inr (refl, x, refl)))
      cases ended completed e c = rw (e, time_out) c
      cases ended failed e c = rw (e, time_out) c

  conclude-IsConsistent :
      (end : Ending R E) (s : FlowState R E) → Working s → IsConsistent true (conclude end s)
  unfolding conclude
  conclude-IsConsistent (step_failed err) s (inl (a, p, b, c)) =
      rw (p, b) (refl, _, _, refl, refl, inl refl)
  conclude-IsConsistent (step_failed err) s (inr (a, p, c, d)) =
      rw (p, d) (refl, _, _, refl, refl, inr (refl, inl refl))
  conclude-IsConsistent (on_error_failed x) s (inl (a, p, b, c)) =
      rw (a, p, b, c) (refl, refl, x, refl)
  conclude-IsConsistent (on_error_failed x) s (inr (a, p, c, d)) =
      rw (a, p, c, d) (refl, _, _, refl, refl, inl refl)
  conclude-IsConsistent (escaped_step x) s (inl (a, p, b, c)) =
      rw (a, p, b, c) (refl, refl, x, refl)
  conclude-IsConsistent (escaped_step x) s (inr (a, p, c, d)) =
      rw (a, p, c, d) (refl, _, _, refl, refl, inl refl)
  conclude-IsConsistent (handler_failed x) s (inl (a, p, b, c)) =
      rw (p, b) (refl, _, _, refl, refl, inl refl)
  conclude-IsConsistent (handler_failed x) s (inr (a, p, c, d)) =
      rw (p, d) (refl, _, _, refl, refl, inr (refl, inl refl))
  conclude-IsConsistent (handler_returned r) s (inl (a, p, b, c)) =
      rw (a, conclude, p, c) (refl, refl, r, refl, refl)
  conclude-IsConsistent (handler_returned r) s (inr (a, p, c, d)) =
      rw (a, conclude, p, c, d) (refl, _, _, refl, refl, inl refl)

  -- At every moment of a flow's life, whenever its timer fires and however its execution ends, a
  -- completed flow has the result that its promise resolved with and no error. A failed one has no
  -- result, an error and a rejected promise; the error is the one of the rejection, unless the
  -- execution has ended and either the promise was rejected with the timeout before, or the error is
  -- the timeout, after the promise was rejected with an exception that escaped. One that runs has
  -- neither result nor error, and its promise is open until the execution ends, and after that
  -- rejected with such an exception. After the start no flow is pending, and none is completed
  -- before the execution ends.
  pub Life-IsConsistent : {ended : Bool} {s : FlowState R E} → Life ended s → IsConsistent ended s
  unfolding fresh_flow
  Life-IsConsistent begun = (refl, refl, refl)
  Life-IsConsistent (fired {ended = ended} {s = s} l) =
      time_out-IsConsistent ended s (Life-IsConsistent l)
  Life-IsConsistent (concluded {s = s} end l) = conclude-IsConsistent end s (Life-Working l refl)

  -- If the timer fires before the execution ends, then whatever way it ends the flow stays failed,
  -- and its promise stays rejected with the timeout error.
  timeout_wins :
      {s : FlowState R E} (end : Ending R E)
      → Life false s
      → s.status ≡ failed
      → ((conclude end s).status ≡ failed) × ((conclude end s).settled ≡ some (rejected timeout))
  unfolding conclude
  timeout_wins {s} end l e = cases end (Life-Working l refl)
    where
      cases :
          (end : Ending R E)
          → Working s
          → ((conclude end s).status ≡ failed)
            × ((conclude end s).settled ≡ some (rejected timeout))
      cases end (inl (a, p, b, c)) = cc
      cases (step_failed err) (inr (a, p, c, d)) = (refl, rw p)
      cases (on_error_failed x) (inr (a, p, c, d)) = (a, rw p)
      cases (escaped_step x) (inr (a, p, c, d)) = (a, rw p)
      cases (handler_failed x) (inr (a, p, c, d)) = (refl, rw p)
      cases (handler_returned r) (inr (a, p, c, d)) = (ground arith, ground arith)

  -- After the timer has fired, a step that fails replaces the recorded error: the first handle's
  -- promise stays rejected with the timeout error, and a second handle to the same flow reports the
  -- error of the step.
  late_failure_splits_handles :
      {s : FlowState R E} (err : WorkflowError E)
      → Life false s
      → s.status ≡ failed
      → ((conclude (step_failed err) s).settled ≡ some (rejected timeout))
        × (joined_result (conclude (step_failed err) s) ≡ some (rejected (of_workflow err)))
  unfolding joined_result conclude
  late_failure_splits_handles {s} err l e = ((timeout_wins (step_failed err) l e).1, refl)
