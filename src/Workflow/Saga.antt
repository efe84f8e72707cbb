-- ===== src/Workflow/Saga.antt =====
-- What is rolled back when a workflow of in-process-workflow-provider.ts ends.
use mathlib.Core.Path.{fun_ext}
use orijs.Common.{
  ◌≡◌, ◌∙◌, ◌⊎◌, [], ◌∷◌, ◌++◌, refl, sym, ap, map, reverse, true, none, some, List, String,
  String-discrete, inl, inr, is_some, All,
}
use orijs.JsMap.{JsMap, get}
use orijs.Workflow.{
  throws, Context, RollbackHandler, Handler, no_handler, WorkflowError, step_error, StepGroup,
  sequential, parallel, State, done, stopped, escaped, initial, failures, step_context, step,
  run_sequential, run_group, run_groups, ◌>>=◌,
}
use orijs.Workflow.Rollback.{
  Compensates, step_names, undo_of, RollsAll, RollsAll-stopped, roll_back_after-RollsAll,
  rollback_errors, Rolls, Rolls-escaped, Rolls-done, Rolls-stopped, roll_back_after-Rolls,
  roll_back_after-Unit, bind-of_done, bind_assoc, GroupNeeds, run_groups-Rolls,
}
use orijs.Workflow.Results.{names_of, with_rollback, run_groups-Did}
use orijs.Workflow.Owning.{IsOwn, OwnedIn-stopped, run_groups-OwnedIn}
use orijs.Workflow.Completing.{completing, StopsIn, run_groups-StopsIn}

module _ {D V E : Type 0} (handlers : JsMap String (Handler D V E)) (ctx : Context D V) where
  abbrev IsRegistered : String → Type 0
  IsRegistered name = is_some (get String-discrete name handlers) ≡ true

  -- The steps of sequential groups have handlers.
  abbrev pub HasHandlers : StepGroup → Type 0
  HasHandlers (sequential names) = All IsRegistered names
  HasHandlers (parallel names) = Unit

  not-IsRegistered :
      (name : String) → IsRegistered name → get String-discrete name handlers ≡ none → ⊥
  not-IsRegistered name r e = cc

  -- A workflow stops with an error in one of its groups, after which nothing runs. `steps` are the
  -- steps with a rollback handler of the groups before and of this group whose handlers returned, each
  -- with the rollback handler that is registered for it; these handlers were called, the last one
  -- first.
  pub record Undone (gs : List StepGroup) (err : WorkflowError E) (t : State D V E) : Type 0 where
    pub before : List StepGroup
    pub group : StepGroup
    pub after : List StepGroup
    pub mid : State D V E
    pub split : gs ≡ before ++ group ∷ after
    pub ran : run_groups handlers ctx before initial ≡ done mid
    pub stops : run_group handlers ctx group mid ≡ stopped err t
    pub steps : List (String × RollbackHandler D V E)
    pub names :
        step_names steps
        ≡ with_rollback handlers (names_of before)
          ++ with_rollback handlers (completing handlers ctx group mid.results)
    pub own : All (IsOwn handlers) steps
    pub undone : t.rolled ≡ map (undo_of ctx t.results) (reverse steps)
    pub reported : rollback_errors err ≡ failures t.rolled

  -- If every step of a sequential group has a handler, then a workflow that stops with an error stops
  -- in one of its groups, all groups before which succeeded, and has run, once each, in reverse order
  -- and with the results at the end, the registered rollback handlers of the steps of the groups
  -- before and of the steps of this group whose own handlers returned: in a sequential group those up
  -- to the first that did not return, in a parallel group all. The error lists exactly the errors of
  -- the rollback handlers that failed, in the order in which they ran.
  pub run_groups-Compensates :
      (gs : List StepGroup) {err : WorkflowError E} {t : State D V E}
      → All HasHandlers gs
      → run_groups handlers ctx gs initial ≡ stopped err t
      → Undone gs err t
  run_groups-Compensates gs {err} {t} r e = record {
    before = i.before;
    group = i.group;
    after = i.after;
    mid = i.mid;
    split = i.split;
    ran = i.ran;
    stops = i.stops;
    steps = t.completed_steps;
    names =
        i.recorded
        ∙ ap (λ l. l ++ with_rollback handlers (completing handlers ctx i.group i.mid.results))
            (run_groups-Did handlers ctx i.before i.mid i.ran).1;
    own =
        OwnedIn-stopped handlers (run_groups handlers ctx gs initial)
          (run_groups-OwnedIn handlers ctx gs initial tt) e;
    undone =
        RollsAll-stopped ctx (run_groups handlers ctx gs initial)
          (run_groups-Rolls handlers ctx (RollsAll ctx) (roll_back_after-RollsAll ctx) IsRegistered
            (λ name s k m. absurd (not-IsRegistered name k m)) gs initial r refl)
          e;
    reported = rolled.1;
  }
    where
      i : StopsIn handlers ctx gs err initial t
      i = run_groups-StopsIn handlers ctx gs initial e

      rolled : Compensates err t
      rolled =
          Rolls-stopped (run_groups handlers ctx gs initial)
            (run_groups-Rolls handlers ctx Compensates (roll_back_after-Rolls ctx) IsRegistered
              (λ name s k m. absurd (not-IsRegistered name k m)) gs initial r refl)
            e

  run_groups-append :
      (gs hs : List StepGroup) (s : State D V E)
      → run_groups handlers ctx (gs ++ hs) s
        ≡ (run_groups handlers ctx gs s >>= λ t. run_groups handlers ctx hs t)
  unfolding run_groups
  run_groups-append [] hs s = refl
  run_groups-append (g ∷ gs) hs s =
      rw (fun_ext (run_groups-append gs hs))
        (sym (bind_assoc (run_group handlers ctx g s) (run_groups handlers ctx gs) _))

  nothing_asked : (names : List String) → All (λ name. Unit {0}) names
  nothing_asked [] = tt
  nothing_asked (name ∷ names) = (tt, nothing_asked names)

  asks_nothing :
      (gs : List StepGroup)
      → All
          (GroupNeeds handlers ctx
            (λ err s. Unit)
            (λ name fault s h. roll_back_after-Unit ctx name fault s)
            (λ name. Unit)
            (λ name s k m. tt))
          gs
  asks_nothing [] = tt
  asks_nothing (sequential names ∷ gs) = (nothing_asked names, asks_nothing gs)
  asks_nothing (parallel names ∷ gs) = (tt, asks_nothing gs)

  run_groups-Unit :
      (gs : List StepGroup) → Rolls (λ err s. Unit {0}) (run_groups handlers ctx gs initial)
  run_groups-Unit gs =
      run_groups-Rolls handlers ctx (λ err s. Unit)
        (λ name fault s h. roll_back_after-Unit ctx name fault s) (λ name. Unit) (λ name s k m. tt)
        gs initial (asks_nothing gs) refl

  -- No workflow runs a rollback handler unless it stops with an error: not when all steps succeed,
  -- and not when an exception escapes from a step.
  rolled_only_on_error :
      (gs : List StepGroup) (t : State D V E)
      → (run_groups handlers ctx gs initial ≡ done t)
        ⊎ ((e : E) × (run_groups handlers ctx gs initial ≡ escaped e t))
      → t.rolled ≡ []
  rolled_only_on_error gs t (inl p) =
      Rolls-done _ (run_groups handlers ctx gs initial) (run_groups-Unit gs) p
  rolled_only_on_error gs t (inr (e, p)) =
      Rolls-escaped _ (run_groups handlers ctx gs initial) (run_groups-Unit gs) p

  last_throws :
      (more : List StepGroup) (name : String) (rest : List String) (mid : State D V E)
      (h : Handler D V E) (e : E)
      → get String-discrete name handlers ≡ some h
      → h.execute (step_context ctx mid.results name) ≡ throws e
      → run_groups handlers ctx (sequential (name ∷ rest) ∷ more) mid ≡ escaped e mid
  unfolding run_groups run_group run_sequential step
  last_throws more name rest mid h e g x = rw (g, run_sequential) (rw (x, step))

  last_missing :
      (more : List StepGroup) (name : String) (rest : List String) (mid : State D V E)
      → get String-discrete name handlers ≡ none
      → run_groups handlers ctx (sequential (name ∷ rest) ∷ more) mid
        ≡ stopped (step_error name no_handler) mid
  unfolding run_groups run_group run_sequential
  last_missing more name rest mid g = rw (g, run_sequential)

  -- After groups that succeed, a sequential step whose handler throws before it returns a promise
  -- ends the workflow by that exception, and no rollback handler has run: the completed steps of
  -- the groups before keep their effects.
  pub throw_skips_rollbacks :
      (gs more : List StepGroup) (name : String) (rest : List String) (mid : State D V E)
      (h : Handler D V E) (e : E)
      → run_groups handlers ctx gs initial ≡ done mid
      → get String-discrete name handlers ≡ some h
      → h.execute (step_context ctx mid.results name) ≡ throws e
      → (run_groups handlers ctx (gs ++ sequential (name ∷ rest) ∷ more) initial ≡ escaped e mid)
        × (mid.rolled ≡ [])
  throw_skips_rollbacks gs more name rest mid h e p g x = (
    run_groups-append gs _ initial
        ∙ bind-of_done _ _ mid p
        ∙ last_throws more name rest mid h e g x,
    rolled_only_on_error gs mid (inl p),
  )

  -- After groups that succeed, a sequential step with no handler ends the workflow with an error
  -- that names the step, and no rollback handler has run.
  missing_handler_skips_rollbacks :
      (gs more : List StepGroup) (name : String) (rest : List String) (mid : State D V E)
      → run_groups handlers ctx gs initial ≡ done mid
      → get String-discrete name handlers ≡ none
      → (run_groups handlers ctx (gs ++ sequential (name ∷ rest) ∷ more) initial
          ≡ stopped (step_error name no_handler) mid)
        × (mid.rolled ≡ [])
  missing_handler_skips_rollbacks gs more name rest mid p g = (
    run_groups-append gs _ initial ∙ bind-of_done _ _ mid p ∙ last_missing more name rest mid g,
    rolled_only_on_error gs mid (inl p),
  )
