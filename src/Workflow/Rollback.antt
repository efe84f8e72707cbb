-- ===== src/Workflow/Rollback.antt =====
-- When rollback handlers run: lemmas on the loops of in-process-workflow-provider.ts.
use Prim.Native.String
use mathlib.Core.List.{reverse-cons, map-append}
use orijs.Common.{
  ◌≡◌, ◌∙◌, [], ◌∷◌, refl, subst, none, List, map, reverse, String, String-discrete, arith, inl,
  inr, Option-cases, All,
}
use orijs.JsMap.{JsMap, get}
use orijs.Workflow.{
  step_error, rollback_error, Outcome, returns, rejects, throws, Context, RollbackHandler, Handler,
  Fault, raised, no_handler, WorkflowError, StepGroup, sequential, parallel, Rolled, completed,
  failed, State, GroupResult, done, stopped, escaped, step_context, rolled_of, rollback_each,
  failures, error_after, run_rollbacks, roll_back_after, step, run_sequential, execute_step,
  first_error, run_parallel, run_group, run_groups, ◌>>=◌,
}

abbrev pub rolled_step : {E : Type 0} → Rolled E → String
rolled_step (completed name) = name
rolled_step (failed name e) = name

-- The `rollbackErrors` of an error.
abbrev pub rollback_errors : {E : Type 0} → WorkflowError E → List E
rollback_errors (step_error name fault) = []
rollback_errors (rollback_error name fault es) = es

rollback_errors-error_after :
    {E : Type 0} (name : String) (fault : Fault E) (es : List E)
    → rollback_errors (error_after name fault es) ≡ es
rollback_errors-error_after name fault [] = refl
rollback_errors-error_after name fault (e ∷ es) = refl

map-reverse : {A B : Type 0} (f : A → B) (xs : List A) → map f (reverse xs) ≡ reverse (map f xs)
map-reverse f [] = refl
map-reverse f (x ∷ xs) = simp (reverse-cons, map-append, map-reverse f xs)

rolled_step-rolled_of :
    {E : Type 0} (name : String) (o : Outcome (Unit {0}) E) → rolled_step (rolled_of name o) ≡ name
rolled_step-rolled_of name (returns u) = refl
rolled_step-rolled_of name (rejects e) = refl
rolled_step-rolled_of name (throws e) = refl

module _ {D V E : Type 0} where
  abbrev pub step_names : List (String × RollbackHandler D V E) → List String
  step_names = map (λ p. p.0)

  rollback_each-names :
      (ctx : Context D V) (steps : List (String × RollbackHandler D V E))
      → map rolled_step (rollback_each ctx steps) ≡ step_names steps
  unfolding rollback_each
  rollback_each-names ctx [] = refl
  rollback_each-names ctx ((name, r) ∷ steps) =
      rw (rolled_step-rolled_of name, rollback_each-names ctx steps)

  pub run_rollbacks-names :
      (ctx : Context D V) (steps : List (String × RollbackHandler D V E))
      → map rolled_step (run_rollbacks ctx steps) ≡ reverse (step_names steps)
  unfolding run_rollbacks
  run_rollbacks-names ctx steps =
      rollback_each-names ctx (reverse steps) ∙ map-reverse (λ p. p.0) steps

  -- Every completed step that has a rollback was rolled back once, the last one first.
  abbrev pub IsRolledBack : State D V E → Type 0
  IsRolledBack s = map rolled_step s.rolled ≡ reverse (step_names s.completed_steps)

  -- Nothing is rolled back before the workflow stops, and then `Q` holds.
  abbrev pub Rolls : (WorkflowError E → State D V E → Type 0) → GroupResult D V E → Type 0
  Rolls Q (done s) = s.rolled ≡ []
  Rolls Q (stopped err s) = Q err s
  Rolls Q (escaped e s) = s.rolled ≡ []

  bind-Rolls :
      (Q : WorkflowError E → State D V E → Type 0) (r : GroupResult D V E)
      (k : State D V E → GroupResult D V E)
      → Rolls Q r
      → ((s : State D V E) → s.rolled ≡ [] → Rolls Q (k s))
      → Rolls Q (r >>= k)
  bind-Rolls Q (done s) k h next = next s h
  bind-Rolls Q (stopped err s) k h next = h
  bind-Rolls Q (escaped e s) k h next = h

  pub Rolls-escaped :
      (Q : WorkflowError E → State D V E → Type 0) (r : GroupResult D V E) {e : E} {t : State D V E}
      → Rolls Q r
      → r ≡ escaped e t
      → t.rolled ≡ []
  Rolls-escaped Q (escaped x s) h p = ground arith
  Rolls-escaped Q _ h p = cc

  pub Rolls-done :
      (Q : WorkflowError E → State D V E → Type 0) (r : GroupResult D V E) {t : State D V E}
      → Rolls Q r
      → r ≡ done t
      → t.rolled ≡ []
  Rolls-done Q (done s) h p = ground arith
  Rolls-done Q _ h p = cc

  pub bind-of_done :
      (r : GroupResult D V E) (k : State D V E → GroupResult D V E) (t : State D V E)
      → r ≡ done t
      → (r >>= k) ≡ k t
  bind-of_done r k t e = rw e

  pub bind_assoc :
      (r : GroupResult D V E) (k l : State D V E → GroupResult D V E)
      → ((r >>= k) >>= l) ≡ (r >>= λ s. k s >>= l)
  bind_assoc (done s) k l = refl
  bind_assoc (stopped err s) k l = refl
  bind_assoc (escaped e s) k l = refl

  -- The rollback handlers ran, and the error reports each of them that failed.
  abbrev pub Compensates : WorkflowError E → State D V E → Type 0
  Compensates err s = IsRolledBack s × (rollback_errors err ≡ failures s.rolled)

  pub Rolls-stopped :
      (r : GroupResult D V E) {err : WorkflowError E} {t : State D V E}
      → Rolls Compensates r
      → r ≡ stopped err t
      → Compensates err t
  Rolls-stopped (stopped x s) {err} {t} h p =
      (subst IsRolledBack {x = s} {y = t} (cc) h.0, ground (arith, h.1))
  Rolls-stopped _ h p = cc

  pub roll_back_after-Rolls :
      (ctx : Context D V) (name : String) (fault : Fault E) (s : State D V E)
      → s.rolled ≡ []
      → Rolls Compensates (roll_back_after ctx name fault s)
  unfolding roll_back_after
  roll_back_after-Rolls ctx name fault s h = rw h (
    run_rollbacks-names (record ctx { results = s.results }) s.completed_steps,
    rollback_errors-error_after name fault _,
  )

  -- What comes of the rollback handler of a step, which sees the results at the end.
  abbrev pub undo_of : Context D V → JsMap String V → String × RollbackHandler D V E → Rolled E
  undo_of ctx results p =
      rolled_of p.0 (p.1 (step_context ctx results (String.◌++◌ p.0 ":rollback")))

  rollback_each-map :
      (ctx : Context D V) (results : JsMap String V) (steps : List (String × RollbackHandler D V E))
      → rollback_each (record ctx { results = results }) steps ≡ map (undo_of ctx results) steps
  unfolding rollback_each
  rollback_each-map ctx results [] = refl
  rollback_each-map ctx results (p ∷ steps) = rw (rollback_each-map ctx results steps) refl

  -- Each recorded step was undone, the last one first.
  abbrev pub RollsAll : Context D V → WorkflowError E → State D V E → Type 0
  RollsAll ctx err s = s.rolled ≡ map (undo_of ctx s.results) (reverse s.completed_steps)

  pub roll_back_after-RollsAll :
      (ctx : Context D V) (name : String) (fault : Fault E) (s : State D V E)
      → s.rolled ≡ []
      → Rolls (RollsAll ctx) (roll_back_after ctx name fault s)
  unfolding roll_back_after run_rollbacks
  roll_back_after-RollsAll ctx name fault s h =
      rw h (rollback_each-map ctx s.results (reverse s.completed_steps))

  pub RollsAll-stopped :
      (ctx : Context D V) (r : GroupResult D V E) {err : WorkflowError E} {t : State D V E}
      → Rolls (RollsAll ctx) r
      → r ≡ stopped err t
      → RollsAll ctx err t
  RollsAll-stopped ctx (stopped x s) {err} {t} h p = subst (RollsAll ctx err) {x = s} {y = t} (cc) h
  RollsAll-stopped ctx _ h p = cc

  pub roll_back_after-Unit :
      (ctx : Context D V) (name : String) (fault : Fault E) (s : State D V E)
      → Rolls (λ err t. Unit {0}) (roll_back_after ctx name fault s)
  unfolding roll_back_after
  roll_back_after-Unit ctx name fault s = tt

-- `Needed` is what is asked of the steps of sequential groups.
module _ {D V E : Type 0} (handlers : JsMap String (Handler D V E)) (ctx : Context D V)
    (Q : WorkflowError E → State D V E → Type 0)
    (rolls : (name : String) (fault : Fault E) (s : State D V E)
      → s.rolled ≡ []
      → Rolls Q (roll_back_after ctx name fault s))
    (Needed : String → Type 0)
    (unregistered : (name : String) (s : State D V E)
      → Needed name
      → get String-discrete name handlers ≡ none
      → Q (step_error name no_handler) s) where
  abbrev pub GroupNeeds : StepGroup → Type 0
  GroupNeeds (sequential names) = All Needed names
  GroupNeeds (parallel names) = Unit

  step-Rolls :
      (name : String) (h : Handler D V E) (s : State D V E)
      → s.rolled ≡ []
      → Rolls Q (step handlers ctx name h s)
  unfolding step
  step-Rolls name h s e = cases (h.execute (step_context ctx s.results name)) refl
    where
      cases :
          (o : Outcome V E)
          → h.execute (step_context ctx s.results name) ≡ o
          → Rolls Q (step handlers ctx name h s)
      cases (returns v) p = rw (p, step) e
      cases (rejects x) p = rw (p, step) (rolls name (raised x) s e)
      cases (throws x) p = rw (p, step) e

  run_sequential-Rolls :
      (names : List String) (s : State D V E)
      → All Needed names
      → s.rolled ≡ []
      → Rolls Q (run_sequential handlers ctx names s)
  unfolding run_sequential
  run_sequential-Rolls [] s r h = h
  run_sequential-Rolls (name ∷ names) s (r, rs) h =
      elim (Option-cases (get String-discrete name handlers)) [
        | inl e ↦ rw (e, run_sequential) (unregistered name s r e)
        | inr (c, e) ↦
            rw (e, run_sequential)
              (bind-Rolls Q (step handlers ctx name c s) _ (step-Rolls name c s h)
                (λ t. run_sequential-Rolls names t rs))
      ]

  run_parallel-Rolls :
      (names : List String) (s : State D V E)
      → s.rolled ≡ []
      → Rolls Q (run_parallel handlers ctx names s)
  unfolding run_parallel
  run_parallel-Rolls names s h =
      elim (Option-cases (first_error (map (execute_step handlers ctx s.results) names))) [
        | inl e ↦ rw (e, run_parallel) h
        | inr ((name, fault), e) ↦ rw (e, run_parallel) (rolls name fault _ h)
      ]

  run_group-Rolls :
      (g : StepGroup) (s : State D V E)
      → GroupNeeds g
      → s.rolled ≡ []
      → Rolls Q (run_group handlers ctx g s)
  unfolding run_group
  run_group-Rolls (sequential names) s r h = run_sequential-Rolls names s r h
  run_group-Rolls (parallel names) s r h = run_parallel-Rolls names s h

  pub run_groups-Rolls :
      (gs : List StepGroup) (s : State D V E)
      → All GroupNeeds gs
      → s.rolled ≡ []
      → Rolls Q (run_groups handlers ctx gs s)
  unfolding run_groups
  run_groups-Rolls [] s r h = h
  run_groups-Rolls (g ∷ gs) s (r, rs) h =
      bind-Rolls Q (run_group handlers ctx g s) _ (run_group-Rolls g s r h)
        (λ t. run_groups-Rolls gs t rs)
