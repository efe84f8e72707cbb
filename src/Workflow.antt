-- ===== src/Workflow.antt =====
-- packages/workflows/src/in-process-workflow-provider.ts: the execution of one workflow.
-- A step's handler is a function of its context: it returns a value, its promise rejects, or it
-- throws before it returns a promise. Timers, loggers and propagation metadata are left out; the
-- calls of rollback handlers are kept as a list, since the source makes them one after the other.
pub mod Rollback
pub mod Saga
pub mod Results
pub mod Completing
pub mod Owning
pub mod Pool
pub mod Flow
pub mod Provider
mod Tests
use Prim.Native.String
use orijs.Common.{Option, none, some, List, [], ◌∷◌, ◌++◌, map, reverse, String, String-discrete}
use orijs.JsMap.{JsMap, get, set}

pub data Outcome (A E : Type 0) : Type 0 where
  returns : A → Outcome A E
  rejects throws : E → Outcome A E

-- `WorkflowContext`, and `StepExecutionContext` without the loggers.
pub record Context (D V : Type 0) : Type 0 where
  pub flow_id : String
  pub workflow_name : String
  pub step_name : String
  pub input : D
  pub results : JsMap String V

abbrev pub RollbackHandler : Type 0 → Type 0 → Type 0 → Type 0
RollbackHandler D V E = Context D V → Outcome (Unit {0}) E

pub record Handler (D V E : Type 0) : Type 0 where
  pub execute : Context D V → Outcome V E
  pub rollback : Option (RollbackHandler D V E)

-- What a `WorkflowStepError` wraps.
pub data Fault (E : Type 0) : Type 0 where
  no_handler : Fault E
  raised : E → Fault E

pub data WorkflowError (E : Type 0) : Type 0 where
  step_error : String → Fault E → WorkflowError E
  rollback_error : String → Fault E → List E → WorkflowError E

pub data StepGroup : Type 0 where
  sequential parallel : List String → StepGroup

-- A rollback that was run: its step, and whether it failed.
pub data Rolled (E : Type 0) : Type 0 where
  completed : String → Rolled E
  failed : String → E → Rolled E

pub record State (D V E : Type 0) : Type 0 where
  pub results : JsMap String V
  pub completed_steps : List (String × RollbackHandler D V E)
  pub rolled : List (Rolled E)

pub data GroupResult (D V E : Type 0) : Type 0 where
  done : State D V E → GroupResult D V E
  stopped : WorkflowError E → State D V E → GroupResult D V E
  escaped : E → State D V E → GroupResult D V E

pub data StepOutcome (D V E : Type 0) : Type 0 where
  success : String → V → Option (RollbackHandler D V E) → StepOutcome D V E
  failure : String → Fault E → StepOutcome D V E

module _ {D V : Type 0} where
  abbrev pub step_context : Context D V → JsMap String V → String → Context D V
  step_context ctx results name = record ctx { results = results; step_name = name }

module _ {E : Type 0} where
  abbrev pub rolled_of : String → Outcome (Unit {0}) E → Rolled E
  rolled_of name (returns u) = completed name
  rolled_of name (rejects e) = failed name e
  rolled_of name (throws e) = failed name e

  -- `failures`
  unfoldable pub failures : List (Rolled E) → List E
  failures [] = []
  failures (completed name ∷ rs) = failures rs
  failures (failed name e ∷ rs) = e ∷ failures rs

  abbrev pub error_after : String → Fault E → List E → WorkflowError E
  error_after name fault [] = step_error name fault
  error_after name fault (e ∷ es) = rollback_error name fault (e ∷ es)

module _ {D V E : Type 0} where
  abbrev pub initial : State D V E
  initial = record { results = []; completed_steps = []; rolled = [] }

  -- the loop of `runRollbacks`
  unfoldable pub rollback_each :
      Context D V → List (String × RollbackHandler D V E) → List (Rolled E)
  rollback_each ctx [] = []
  rollback_each ctx ((name, rollback) ∷ steps) =
      rolled_of name (rollback (step_context ctx ctx.results (String.◌++◌ name ":rollback")))
      ∷ rollback_each ctx steps

  unfoldable pub run_rollbacks :
      Context D V → List (String × RollbackHandler D V E) → List (Rolled E)
  run_rollbacks ctx steps = rollback_each ctx (reverse steps)

  -- Both kinds of group end a failure this way.
  unfoldable pub roll_back_after : Context D V → String → Fault E → State D V E → GroupResult D V E
  roll_back_after ctx name fault s =
      let rolled = run_rollbacks (record ctx { results = s.results }) s.completed_steps in
      stopped (error_after name fault (failures rolled)) (record s { rolled = s.rolled ++ rolled })

  -- An error or an escaping exception ends the workflow.
  infixl 5 ◌>>=◌
  abbrev pub ◌>>=◌ : GroupResult D V E → (State D V E → GroupResult D V E) → GroupResult D V E
  done s >>= k = k s
  stopped err s >>= k = stopped err s
  escaped e s >>= k = escaped e s

  abbrev pub track :
      String
      → Option (RollbackHandler D V E)
      → List (String × RollbackHandler D V E)
      → List (String × RollbackHandler D V E)
  track name none steps = steps
  track name (some rollback) steps = steps ++ (name, rollback) ∷ []

  unfoldable pub first_error : List (StepOutcome D V E) → Option (String × Fault E)
  first_error [] = none
  first_error (success name v r ∷ os) = first_error os
  first_error (failure name fault ∷ os) = some (name, fault)

  unfoldable pub merge_results : JsMap String V → List (StepOutcome D V E) → JsMap String V
  merge_results results [] = results
  merge_results results (success name v r ∷ os) =
      merge_results (set String-discrete name v results) os
  merge_results results (failure name fault ∷ os) = merge_results results os

  unfoldable pub track_all :
      List (String × RollbackHandler D V E)
      → List (StepOutcome D V E)
      → List (String × RollbackHandler D V E)
  track_all steps [] = steps
  track_all steps (success name v r ∷ os) = track_all (track name r steps) os
  track_all steps (failure name fault ∷ os) = track_all steps os

  module _ (handlers : JsMap String (Handler D V E)) (ctx : Context D V) where
    -- `executeDefinitionStepSafely` and what follows its call in the loop
    unfoldable pub step : String → Handler D V E → State D V E → GroupResult D V E
    step name h s = elim (h.execute (step_context ctx s.results name)) [
      | returns v ↦ done (record s {
        results = set String-discrete name v s.results;
        completed_steps = track name h.rollback s.completed_steps;
      })
      | rejects e ↦ roll_back_after ctx name (raised e) s
      | throws e ↦ escaped e s
    ]

    -- `executeDefinitionSequentialGroup`
    unfoldable pub run_sequential : List String → State D V E → GroupResult D V E
    run_sequential [] s = done s
    run_sequential (name ∷ names) s = elim (get String-discrete name handlers) [
      | none ↦ stopped (step_error name no_handler) s
      | some h ↦ step name h s >>= λ s'. run_sequential names s'
    ]

    -- `executeStep` of the parallel group: every failure is caught.
    unfoldable pub execute_step : JsMap String V → String → StepOutcome D V E
    execute_step results name = elim (get String-discrete name handlers) [
      | none ↦ failure name no_handler
      | some h ↦ elim (h.execute (step_context ctx results name)) [
        | returns v ↦ success name v h.rollback
        | rejects e ↦ failure name (raised e)
        | throws e ↦ failure name (raised e)
      ]
    ]

    -- `executeDefinitionParallelGroup`; the pool that runs the steps is the module `Pool`.
    unfoldable pub run_parallel : List String → State D V E → GroupResult D V E
    run_parallel names s =
        let outcomes = map (execute_step s.results) names in
        let s' : State D V E = record s {
          results = merge_results s.results outcomes;
          completed_steps = track_all s.completed_steps outcomes;
        } in
        elim (first_error outcomes) [
          | none ↦ done s'
          | some (name, fault) ↦ roll_back_after ctx name fault s'
        ]

    unfoldable pub run_group : StepGroup → State D V E → GroupResult D V E
    run_group (sequential names) s = run_sequential names s
    run_group (parallel names) s = run_parallel names s

    -- the loop over `stepGroups`
    unfoldable pub run_groups : List StepGroup → State D V E → GroupResult D V E
    run_groups [] s = done s
    run_groups (g ∷ gs) s = run_group g s >>= λ s'. run_groups gs s'
