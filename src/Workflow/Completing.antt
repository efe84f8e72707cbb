-- ===== src/Workflow/Completing.antt =====
-- Which steps of a group complete, by what their handlers return alone.
use mathlib.Core.List.{append-nil, append_assoc}
use orijs.Common.{
  ◌≡◌, refl, sym, ap, subst, ◌∙◌, none, some, Option, List, [], ◌∷◌, ◌++◌, map, String,
  String-discrete, inl, inr, is_some, Option-cases, if◌then◌else◌,
}
use orijs.JsMap.{JsMap, get, set}
use orijs.Workflow.{
  Outcome, returns, rejects, throws, Context, RollbackHandler, Handler, Fault, raised, StepGroup,
  sequential, parallel, State, GroupResult, done, stopped, escaped, step_context, roll_back_after,
  track, step, run_sequential, execute_step, first_error, track_all, run_parallel, run_group,
  run_groups, ◌>>=◌, WorkflowError,
}
use orijs.Workflow.Rollback.{step_names, bind-of_done}
use orijs.Workflow.Results.{with_rollback, with_rollback-append, step_names-track}

module _ {D V E : Type 0} (handlers : JsMap String (Handler D V E)) (ctx : Context D V) where
  -- What the promise of a step's handler resolves with.
  abbrev value_of : Outcome V E → Option V
  value_of (returns v) = some v
  value_of (rejects e) = none
  value_of (throws e) = none

  abbrev handled : JsMap String V → String → Option (Handler D V E) → Option V
  handled results name none = none
  handled results name (some h) = value_of (h.execute (step_context ctx results name))

  abbrev value_at : JsMap String V → String → Option V
  value_at results name = handled results name (get String-discrete name handlers)

  -- The steps of a sequential group up to the first whose handler does not return; each sees the
  -- results of those before it.
  pub in_sequence : List String → JsMap String V → List String
  in_sequence [] results = []
  in_sequence (name ∷ names) results = elim (value_at results name) [
    | none ↦ []
    | some v ↦ name ∷ in_sequence names (set String-discrete name v results)
  ]

  -- The steps of a parallel group whose handlers return; all see the results of the groups before.
  pub in_parallel : List String → JsMap String V → List String
  in_parallel [] results = []
  in_parallel (name ∷ names) results =
      let rest = in_parallel names results in
      if is_some (value_at results name) then name ∷ rest else rest

  abbrev pub completing : StepGroup → JsMap String V → List String
  completing (sequential names) results = in_sequence names results
  completing (parallel names) results = in_parallel names results

  -- A workflow that stops records the steps `names`.
  abbrev StopsWith : List String → GroupResult D V E → Type 0
  StopsWith names (done s) = Unit
  StopsWith names (stopped err s) = step_names s.completed_steps ≡ names
  StopsWith names (escaped e s) = Unit

  StopsWith-≡ :
      (xs ys : List String) (r : GroupResult D V E) → xs ≡ ys → StopsWith xs r → StopsWith ys r
  StopsWith-≡ xs ys (done s) e h = tt
  StopsWith-≡ xs ys (stopped err s) e h = h ∙ e
  StopsWith-≡ xs ys (escaped x s) e h = tt

  roll_back_after-StopsWith :
      (name : String) (fault : Fault E) (s : State D V E)
      → StopsWith (step_names s.completed_steps) (roll_back_after ctx name fault s)
  unfolding roll_back_after
  roll_back_after-StopsWith name fault s = refl

  -- One more step whose handler returned.
  names-track :
      (name : String) (h : Handler D V E) (steps : List (String × RollbackHandler D V E))
      (names : List String)
      → get String-discrete name handlers ≡ some h
      → step_names (track name h.rollback steps) ++ with_rollback handlers names
        ≡ step_names steps ++ with_rollback handlers (name ∷ names)
  names-track name h steps names e =
      ap (λ l. l ++ with_rollback handlers names) (step_names-track handlers name h steps e)
      ∙ append_assoc (step_names steps) (with_rollback handlers (name ∷ [])) _
      ∙ ap (λ l. step_names steps ++ l) (sym (with_rollback-append handlers (name ∷ []) names))

  in_sequence_stops :
      (name : String) (names : List String) (results : JsMap String V)
      → value_at results name ≡ none
      → in_sequence (name ∷ names) results ≡ []
  unfolding in_sequence
  in_sequence_stops name names results e = rw (e, in_sequence) refl

  in_sequence_goes_on :
      (name : String) (names : List String) (results : JsMap String V) (v : V)
      → value_at results name ≡ some v
      → in_sequence (name ∷ names) results
        ≡ name ∷ in_sequence names (set String-discrete name v results)
  unfolding in_sequence
  in_sequence_goes_on name names results v e = rw (e, in_sequence) refl

  value_at_handler :
      (results : JsMap String V) (name : String) (h : Handler D V E) (o : Outcome V E)
      → get String-discrete name handlers ≡ some h
      → h.execute (step_context ctx results name) ≡ o
      → value_at results name ≡ value_of o
  value_at_handler results name h o e p = rw e (rw p refl)

  value_at_missing :
      (results : JsMap String V) (name : String)
      → get String-discrete name handlers ≡ none
      → value_at results name ≡ none
  value_at_missing results name e = rw e refl

  nothing_more :
      (s : State D V E) (names : List String)
      → names ≡ []
      → step_names s.completed_steps ≡ step_names s.completed_steps ++ with_rollback handlers names
  unfolding with_rollback
  nothing_more s names e = rw (e, with_rollback) (sym (append-nil (step_names s.completed_steps)))

  run_sequential-StopsWith :
      (names : List String) (s : State D V E)
      → StopsWith
          (step_names s.completed_steps ++ with_rollback handlers (in_sequence names s.results))
          (run_sequential handlers ctx names s)
  unfolding run_sequential step roll_back_after
  run_sequential-StopsWith [] s = tt
  run_sequential-StopsWith (name ∷ names) s =
      elim (Option-cases (get String-discrete name handlers)) [
        | inl e ↦
            rw (e, run_sequential)
              (nothing_more s _
                (in_sequence_stops name names s.results (value_at_missing s.results name e)))
        | inr (h, e) ↦
            rw (e, run_sequential)
              (by_outcome h e (h.execute (step_context ctx s.results name)) refl
                (λ t. run_sequential-StopsWith names t))
      ]
    where
      by_outcome :
          (h : Handler D V E)
          → get String-discrete name handlers ≡ some h
          → (o : Outcome V E) → h.execute (step_context ctx s.results name) ≡ o
          → ((t : State D V E)
              → StopsWith
                  (step_names t.completed_steps
                    ++ with_rollback handlers (in_sequence names t.results))
                  (run_sequential handlers ctx names t))
          → StopsWith
              (step_names s.completed_steps
                ++ with_rollback handlers (in_sequence (name ∷ names) s.results))
              (step handlers ctx name h s >>= λ t. run_sequential handlers ctx names t)
      by_outcome h e (returns v) p next =
          rw
            (
              step,
              p,
              in_sequence_goes_on name names s.results v
                  (value_at_handler s.results name h (returns v) e p),
            )
            (StopsWith-≡ _ _ _
              (names-track name h s.completed_steps
                (in_sequence names (set String-discrete name v s.results)) e)
              (next (record s {
                results = set String-discrete name v s.results;
                completed_steps = track name h.rollback s.completed_steps;
              })))
      by_outcome h e (rejects x) p next =
          rw (step, p)
            (StopsWith-≡ _ _ (roll_back_after ctx name (raised x) s)
              (nothing_more s _ (
                in_sequence_stops name names s.results
                  (value_at_handler s.results name h (rejects x) e p)))
              (roll_back_after-StopsWith name (raised x) s))
      by_outcome h e (throws x) p next = rw (step, p) tt

  StopsWith-stopped :
      (names : List String) (r : GroupResult D V E) {err : WorkflowError E} {t : State D V E}
      → StopsWith names r
      → r ≡ stopped err t
      → step_names t.completed_steps ≡ names
  StopsWith-stopped names (stopped x s) {err} {t} h p =
      subst (λ u. step_names u.completed_steps ≡ names) {x = s} {y = t} (cc) h
  StopsWith-stopped names _ h p = cc

  track_all-names :
      (results : JsMap String V) (names : List String)
      (steps : List (String × RollbackHandler D V E))
      → step_names (track_all steps (map (execute_step handlers ctx results) names))
        ≡ step_names steps ++ with_rollback handlers (in_parallel names results)
  unfolding track_all execute_step in_parallel with_rollback
  track_all-names results [] steps = sym (append-nil (step_names steps))
  track_all-names results (name ∷ names) steps =
      elim (Option-cases (get String-discrete name handlers)) [
        | inl e ↦ rw (e, execute_step, track_all) (track_all-names results names steps)
        | inr (h, e) ↦
            by_outcome h e (h.execute (step_context ctx results name)) refl
              (λ l. track_all-names results names l)
      ]
    where
      by_outcome :
          (h : Handler D V E)
          → get String-discrete name handlers ≡ some h
          → (o : Outcome V E) → h.execute (step_context ctx results name) ≡ o
          → ((l : List (String × RollbackHandler D V E))
              → step_names (track_all l (map (execute_step handlers ctx results) names))
                ≡ step_names l ++ with_rollback handlers (in_parallel names results))
          → step_names (track_all steps (map (execute_step handlers ctx results) (name ∷ names)))
            ≡ step_names steps ++ with_rollback handlers (in_parallel (name ∷ names) results)
      by_outcome h e (returns v) p rest =
          rw (e, execute_step, p, track_all)
            (rest (track name h.rollback steps) ∙ names-track name h steps _ e)
      by_outcome h e (rejects x) p rest = rw (e, execute_step, p, track_all) (rest steps)
      by_outcome h e (throws x) p rest = rw (e, execute_step, p, track_all) (rest steps)

  run_group-StopsWith :
      (g : StepGroup) (s : State D V E)
      → StopsWith
          (step_names s.completed_steps ++ with_rollback handlers (completing g s.results))
          (run_group handlers ctx g s)
  unfolding run_group run_parallel roll_back_after
  run_group-StopsWith (sequential names) s = run_sequential-StopsWith names s
  run_group-StopsWith (parallel names) s =
      elim (Option-cases (first_error (map (execute_step handlers ctx s.results) names))) [
        | inl e ↦ rw (e, run_parallel) tt
        | inr ((name, fault), e) ↦
            rw (e, run_parallel) (track_all-names s.results names s.completed_steps)
      ]

  -- The group in which a workflow stops, the state before it, and the steps recorded at the end.
  pub record StopsIn (gs : List StepGroup) (err : WorkflowError E) (s t : State D V E)
      : Type 0 where
    pub before : List StepGroup
    pub group : StepGroup
    pub after : List StepGroup
    pub mid : State D V E
    pub split : gs ≡ before ++ group ∷ after
    pub ran : run_groups handlers ctx before s ≡ done mid
    pub stops : run_group handlers ctx group mid ≡ stopped err t
    pub recorded :
        step_names t.completed_steps
        ≡ step_names mid.completed_steps ++ with_rollback handlers (completing group mid.results)

  pub run_groups-StopsIn :
      (gs : List StepGroup) (s : State D V E) {err : WorkflowError E} {t : State D V E}
      → run_groups handlers ctx gs s ≡ stopped err t
      → StopsIn gs err s t
  unfolding run_groups
  run_groups-StopsIn [] s e = absurd cc
  run_groups-StopsIn (g ∷ gs) s {err} {t} e =
      by_result (run_group handlers ctx g s) refl (λ u. run_groups-StopsIn gs u)
    where
      extend :
          (u : State D V E)
          → run_group handlers ctx g s ≡ done u
          → StopsIn gs err u t
          → StopsIn (g ∷ gs) err s t
      extend u p i = record {
        before = g ∷ i.before;
        group = i.group;
        after = i.after;
        mid = i.mid;
        split = ap (λ l. g ∷ l) i.split;
        ran = bind-of_done _ _ u p ∙ i.ran;
        stops = i.stops;
        recorded = i.recorded;
      }

      stays_stopped :
          (x : WorkflowError E) (u : State D V E)
          → run_group handlers ctx g s ≡ stopped x u
          → run_groups handlers ctx (g ∷ gs) s ≡ stopped x u
      stays_stopped x u p = rw p refl

      apart : {x : E} {u : State D V E} → escaped x u ≡ stopped err t → ⊥
      apart h = cc

      not_escaped : (x : E) (u : State D V E) → run_group handlers ctx g s ≡ escaped x u → ⊥
      not_escaped x u p = apart (rw p at e)

      by_result :
          (r : GroupResult D V E)
          → run_group handlers ctx g s ≡ r
          → ((u : State D V E) → run_groups handlers ctx gs u ≡ stopped err t → StopsIn gs err u t)
          → StopsIn (g ∷ gs) err s t
      by_result (done u) p next = extend u p (next u (sym (bind-of_done _ _ u p) ∙ e))
      by_result (stopped x u) p next = record {
        before = [];
        group = g;
        after = gs;
        mid = s;
        split = refl;
        ran = refl;
        stops = p ∙ sym (stays_stopped x u p) ∙ e;
        recorded =
            StopsWith-stopped _ (run_group handlers ctx g s) (run_group-StopsWith g s)
              (p ∙ sym (stays_stopped x u p) ∙ e);
      }
      by_result (escaped x u) p next = absurd (not_escaped x u p)
