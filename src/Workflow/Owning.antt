-- ===== src/Workflow/Owning.antt =====
-- That a workflow records each completed step with the rollback handler of that step.
use orijs.Common.{
  ◌≡◌, refl, subst, none, some, Option, List, [], ◌∷◌, map, String, String-discrete, inl, inr,
  Option-cases, All, All-append,
}
use orijs.JsMap.{JsMap, get}
use orijs.Workflow.{
  Outcome, returns, rejects, throws, Context, RollbackHandler, Handler, StepGroup, sequential,
  parallel, State, GroupResult, done, stopped, escaped, step_context, roll_back_after, track, step,
  run_sequential, execute_step, first_error, track_all, run_parallel, run_group, run_groups, ◌>>=◌,
  WorkflowError,
}

module _ {D V E : Type 0} (handlers : JsMap String (Handler D V E)) where
  -- A step and the rollback handler that is registered for it.
  abbrev pub IsOwn : String × RollbackHandler D V E → Type 0
  IsOwn p =
      (h : Handler D V E) × (get String-discrete p.0 handlers ≡ some h) × (h.rollback ≡ some p.1)

  abbrev pub Owned : State D V E → Type 0
  Owned s = All IsOwn s.completed_steps

  track-IsOwn :
      (name : String) (h : Handler D V E) (steps : List (String × RollbackHandler D V E))
      → get String-discrete name handlers ≡ some h
      → All IsOwn steps
      → All IsOwn (track name h.rollback steps)
  track-IsOwn name h steps e a = by_rollback h.rollback refl
    where
      by_rollback :
          (r : Option (RollbackHandler D V E)) → h.rollback ≡ r → All IsOwn (track name r steps)
      by_rollback none p = a
      by_rollback (some r) p = All-append IsOwn steps ((name, r) ∷ []) a ((h, e, p), tt)

  abbrev OwnedIn : GroupResult D V E → Type 0
  OwnedIn (done s) = Owned s
  OwnedIn (stopped err s) = Owned s
  OwnedIn (escaped e s) = Unit

  bind-OwnedIn :
      (r : GroupResult D V E) (k : State D V E → GroupResult D V E)
      → OwnedIn r
      → ((s : State D V E) → Owned s → OwnedIn (k s))
      → OwnedIn (r >>= k)
  bind-OwnedIn (done s) k h next = next s h
  bind-OwnedIn (stopped err s) k h next = h
  bind-OwnedIn (escaped e s) k h next = h

  pub OwnedIn-stopped :
      (r : GroupResult D V E) {err : WorkflowError E} {t : State D V E}
      → OwnedIn r
      → r ≡ stopped err t
      → Owned t
  OwnedIn-stopped (stopped x s) {err} {t} h p = subst Owned {x = s} {y = t} (cc) h
  OwnedIn-stopped _ h p = cc

  module _ (ctx : Context D V) where
    step-OwnedIn :
        (name : String) (h : Handler D V E) (s : State D V E)
        → get String-discrete name handlers ≡ some h
        → Owned s
        → OwnedIn (step handlers ctx name h s)
    unfolding step roll_back_after
    step-OwnedIn name h s e a = by_outcome (h.execute (step_context ctx s.results name)) refl
      where
        by_outcome :
            (o : Outcome V E)
            → h.execute (step_context ctx s.results name) ≡ o
            → OwnedIn (step handlers ctx name h s)
        by_outcome (returns v) p = rw (p, step) (track-IsOwn name h s.completed_steps e a)
        by_outcome (rejects x) p = rw (p, step) a
        by_outcome (throws x) p = rw (p, step) tt

    run_sequential-OwnedIn :
        (names : List String) (s : State D V E)
        → Owned s
        → OwnedIn (run_sequential handlers ctx names s)
    unfolding run_sequential
    run_sequential-OwnedIn [] s a = a
    run_sequential-OwnedIn (name ∷ names) s a =
        elim (Option-cases (get String-discrete name handlers)) [
          | inl e ↦ rw (e, run_sequential) a
          | inr (h, e) ↦
              rw (e, run_sequential)
                (bind-OwnedIn (step handlers ctx name h s) _ (step-OwnedIn name h s e a)
                  (run_sequential-OwnedIn names))
        ]

    track_all-IsOwn :
        (results : JsMap String V) (names : List String)
        (steps : List (String × RollbackHandler D V E))
        → All IsOwn steps
        → All IsOwn (track_all steps (map (execute_step handlers ctx results) names))
    unfolding track_all execute_step
    track_all-IsOwn results [] steps a = a
    track_all-IsOwn results (name ∷ names) steps a =
        elim (Option-cases (get String-discrete name handlers)) [
          | inl e ↦ rw (e, execute_step, track_all) (track_all-IsOwn results names steps a)
          | inr (h, e) ↦
              by_outcome h e (h.execute (step_context ctx results name)) refl
                (λ l b. track_all-IsOwn results names l b)
        ]
      where
        by_outcome :
            (h : Handler D V E)
            → get String-discrete name handlers ≡ some h
            → (o : Outcome V E) → h.execute (step_context ctx results name) ≡ o
            → ((l : List (String × RollbackHandler D V E))
                → All IsOwn l
                → All IsOwn (track_all l (map (execute_step handlers ctx results) names)))
            → All IsOwn (track_all steps (map (execute_step handlers ctx results) (name ∷ names)))
        by_outcome h e (returns v) p rest =
            rw (e, execute_step, p, track_all)
              (rest (track name h.rollback steps) (track-IsOwn name h steps e a))
        by_outcome h e (rejects x) p rest = rw (e, execute_step, p, track_all) (rest steps a)
        by_outcome h e (throws x) p rest = rw (e, execute_step, p, track_all) (rest steps a)

    run_group-OwnedIn :
        (g : StepGroup) (s : State D V E) → Owned s → OwnedIn (run_group handlers ctx g s)
    unfolding run_group run_parallel roll_back_after
    run_group-OwnedIn (sequential names) s a = run_sequential-OwnedIn names s a
    run_group-OwnedIn (parallel names) s a =
        elim (Option-cases (first_error (map (execute_step handlers ctx s.results) names))) [
          | inl e ↦ rw (e, run_parallel) (track_all-IsOwn s.results names s.completed_steps a)
          | inr ((name, fault), e) ↦
              rw (e, run_parallel) (track_all-IsOwn s.results names s.completed_steps a)
        ]

    pub run_groups-OwnedIn :
        (gs : List StepGroup) (s : State D V E) → Owned s → OwnedIn (run_groups handlers ctx gs s)
    unfolding run_groups
    run_groups-OwnedIn [] s a = a
    run_groups-OwnedIn (g ∷ gs) s a =
        bind-OwnedIn (run_group handlers ctx g s) _ (run_group-OwnedIn g s a)
          (run_groups-OwnedIn gs)
