-- ===== src/Workflow/Results.antt =====
-- What a successful workflow leaves: a result for each step, and the steps that could be undone.
use mathlib.Core.List.{append-nil, append_assoc, map-append}
use orijs.Common.{
  ◌≡◌, refl, sym, ap, subst, ◌∙◌, ◌⊎◌, true, none, some, List, [], ◌∷◌, ◌++◌, map, String,
  String-discrete, arith, inl, inr, is_some, Option-cases, All, Option, if◌then◌else◌, All-append,
}
use orijs.JsMap.{JsMap, get, set}
use orijs.JsMap.Laws.{get-set}
use orijs.Workflow.{
  Outcome, returns, rejects, throws, Context, RollbackHandler, Handler, Fault, no_handler, raised,
  StepGroup, sequential, parallel, State, GroupResult, done, stopped, escaped, initial,
  step_context, roll_back_after, ◌>>=◌, track, step, run_sequential, success, failure, execute_step,
  first_error, merge_results, track_all, run_parallel, run_group, run_groups,
}
use orijs.Workflow.Rollback.{step_names}

abbrev pub names_of : List StepGroup → List String
names_of [] = []
names_of (sequential names ∷ gs) = names ++ names_of gs
names_of (parallel names ∷ gs) = names ++ names_of gs

module _ {V : Type 0} where
  abbrev pub HasResult : JsMap String V → String → Type 0
  HasResult results name = is_some (get String-discrete name results) ≡ true

  set-HasResult :
      (results : JsMap String V) (name other : String) (v : V)
      → HasResult results name
      → HasResult (set String-discrete other v results) name
  set-HasResult results name other v h =
      rw (get-set String-discrete name other v results) (ground arith)

  set-HasResult_self :
      (results : JsMap String V) (name : String) (v : V)
      → HasResult (set String-discrete name v results) name
  set-HasResult_self results name v =
      rw (get-set String-discrete name name v results) (ground arith)

  -- No result is lost on the way from one state of the results to another.
  abbrev Grows : JsMap String V → JsMap String V → Type 0
  Grows a b = (name : String) → HasResult a name → HasResult b name

  All-Grows :
      (a b : JsMap String V) (names : List String)
      → Grows a b
      → All (HasResult a) names
      → All (HasResult b) names
  All-Grows a b [] g h = tt
  All-Grows a b (name ∷ names) g (h, hs) = (g name h, All-Grows a b names g hs)

module _ {D V E : Type 0} (handlers : JsMap String (Handler D V E)) where
  -- The steps of a list that have a rollback handler, in order.
  unfoldable pub with_rollback : List String → List String
  with_rollback [] = []
  with_rollback (name ∷ names) = elim (get String-discrete name handlers) [
    | none ↦ with_rollback names
    | some h ↦ if is_some h.rollback then name ∷ with_rollback names else with_rollback names
  ]

  pub with_rollback-append :
      (xs ys : List String) → with_rollback (xs ++ ys) ≡ with_rollback xs ++ with_rollback ys
  unfolding with_rollback
  with_rollback-append [] ys = refl
  with_rollback-append (x ∷ xs) ys = ground (arith, with_rollback-append xs ys)

  -- From `s` to `t` the steps `names` were done.
  pub record Did (names : List String) (s t : State D V E) : Type 0 where
    pub tracked : step_names t.completed_steps ≡ step_names s.completed_steps ++ with_rollback names
    pub kept : (name : String) → HasResult s.results name → HasResult t.results name
    pub all_there : All (HasResult t.results) names

  Did-nil : (s : State D V E) → Did [] s s
  unfolding with_rollback
  Did-nil s = record { tracked = sym (append-nil _); kept = λ name h. h; all_there = tt }

  Did-append :
      (xs ys : List String) (s t u : State D V E) → Did xs s t → Did ys t u → Did (xs ++ ys) s u
  Did-append xs ys s t u p q = record {
    tracked =
        q.tracked
        ∙ ap (λ l. l ++ with_rollback ys) p.tracked
        ∙ append_assoc (step_names s.completed_steps) (with_rollback xs) (with_rollback ys)
        ∙ ap (λ l. step_names s.completed_steps ++ l) (sym (with_rollback-append xs ys));
    kept = λ name h. q.kept name (p.kept name h);
    all_there =
        All-append (HasResult u.results) xs ys (All-Grows t.results u.results xs q.kept p.all_there)
          q.all_there;
  }

  abbrev DidIn : List String → State D V E → GroupResult D V E → Type 0
  DidIn names s (done t) = Did names s t
  DidIn names s (stopped err t) = Unit
  DidIn names s (escaped e t) = Unit

  bind-DidIn :
      (xs ys : List String) (s : State D V E) (r : GroupResult D V E)
      (k : State D V E → GroupResult D V E)
      → DidIn xs s r
      → ((t : State D V E) → DidIn ys t (k t))
      → DidIn (xs ++ ys) s (r >>= k)
  bind-DidIn xs ys s (done t) k d next = after (k t) (next t)
    where
      after : (r : GroupResult D V E) → DidIn ys t r → DidIn (xs ++ ys) s r
      after (done u) q = Did-append xs ys s t u d q
      after (stopped err u) q = tt
      after (escaped e u) q = tt
  bind-DidIn xs ys s (stopped err t) k d next = tt
  bind-DidIn xs ys s (escaped e t) k d next = tt

  roll_back_after-DidIn :
      (ctx : Context D V) (names : List String) (name : String) (fault : Fault E)
      (s t : State D V E)
      → DidIn names t (roll_back_after ctx name fault s)
  unfolding roll_back_after
  roll_back_after-DidIn ctx names name fault s t = tt

  pub step_names-track :
      (name : String) (h : Handler D V E) (steps : List (String × RollbackHandler D V E))
      → get String-discrete name handlers ≡ some h
      → step_names (track name h.rollback steps) ≡ step_names steps ++ with_rollback (name ∷ [])
  unfolding with_rollback
  step_names-track name h steps e = rw (e, with_rollback) (by_rollback h.rollback)
    where
      by_rollback :
          (r : Option (RollbackHandler D V E))
          → step_names (track name r steps)
            ≡ step_names steps ++ (if is_some r then name ∷ [] else [])
      by_rollback none = sym (append-nil _)
      by_rollback (some r) = map-append (λ p. p.0) steps _

  -- One step that succeeds, in a sequence or in a parallel group.
  one-Did :
      (name : String) (h : Handler D V E) (v : V) (s : State D V E)
      → get String-discrete name handlers ≡ some h
      → Did (name ∷ []) s (record s {
        results = set String-discrete name v s.results;
        completed_steps = track name h.rollback s.completed_steps;
      })
  one-Did name h v s e = record {
    tracked = step_names-track name h s.completed_steps e;
    kept = λ other r. set-HasResult s.results other name v r;
    all_there = (set-HasResult_self s.results name v, tt);
  }

  module _ (ctx : Context D V) where
    step-DidIn :
        (name : String) (h : Handler D V E) (s : State D V E)
        → get String-discrete name handlers ≡ some h
        → DidIn (name ∷ []) s (step handlers ctx name h s)
    unfolding step
    step-DidIn name h s e = cases (h.execute (step_context ctx s.results name)) refl
      where
        cases :
            (o : Outcome V E)
            → h.execute (step_context ctx s.results name) ≡ o
            → DidIn (name ∷ []) s (step handlers ctx name h s)
        cases (returns v) p = rw (p, step) (one-Did name h v s e)
        cases (rejects x) p = rw (p, step) (roll_back_after-DidIn ctx _ name (raised x) s s)
        cases (throws x) p = rw (p, step) tt

    run_sequential-DidIn :
        (names : List String) (s : State D V E)
        → DidIn names s (run_sequential handlers ctx names s)
    unfolding run_sequential
    run_sequential-DidIn [] s = Did-nil s
    run_sequential-DidIn (name ∷ names) s =
        elim (Option-cases (get String-discrete name handlers)) [
          | inl e ↦ rw (e, run_sequential) tt
          | inr (h, e) ↦
              rw (e, run_sequential)
                (bind-DidIn (name ∷ []) names s (step handlers ctx name h s) _
                  (step-DidIn name h s e) (run_sequential-DidIn names))
        ]

    execute_step-cases :
        (seen : JsMap String V) (name : String)
        → ((fault : Fault E) × (execute_step handlers ctx seen name ≡ failure name fault))
          ⊎ ((h : Handler D V E) × (v : V) × (get String-discrete name handlers ≡ some h)
              × (execute_step handlers ctx seen name ≡ success name v h.rollback))
    unfolding execute_step
    execute_step-cases seen name = elim (Option-cases (get String-discrete name handlers)) [
      | inl e ↦ inl (no_handler, rw (e, execute_step))
      | inr (h, e) ↦ by_outcome h e (h.execute (step_context ctx seen name)) refl
    ]
      where
        by_outcome :
            (h : Handler D V E)
            → get String-discrete name handlers ≡ some h
            → (o : Outcome V E) → h.execute (step_context ctx seen name) ≡ o
            → ((fault : Fault E) × (execute_step handlers ctx seen name ≡ failure name fault))
              ⊎ ((h : Handler D V E) × (v : V) × (get String-discrete name handlers ≡ some h)
                  × (execute_step handlers ctx seen name ≡ success name v h.rollback))
        by_outcome h g (returns v) p = inr (h, v, g, rw (g, execute_step) (rw p))
        by_outcome h g (rejects x) p = inl (raised x, rw (g, execute_step) (rw p))
        by_outcome h g (throws x) p = inl (raised x, rw (g, execute_step) (rw p))

    abbrev merged : JsMap String V → List String → State D V E → State D V E
    merged seen names s =
        let outcomes = map (execute_step handlers ctx seen) names in
        record s {
          results = merge_results s.results outcomes;
          completed_steps = track_all s.completed_steps outcomes;
        }

    merged-Did :
        (seen : JsMap String V) (names : List String) (s : State D V E)
        → first_error (map (execute_step handlers ctx seen) names) ≡ none
        → Did names s (merged seen names s)
    unfolding first_error merge_results track_all
    merged-Did seen [] s p = Did-nil s
    merged-Did seen (name ∷ names) s p = elim (execute_step-cases seen name) [
      | inl (fault, e) ↦ absurd (failing fault e p)
      | inr (h, v, g, e) ↦
          rw (e, merge_results, track_all)
            (Did-append (name ∷ []) names s (succeeded h v) (merged seen names (succeeded h v))
              (one-Did name h v s g) (merged-Did seen names (succeeded h v) (later h v e p)))
    ]
      where
        succeeded : Handler D V E → V → State D V E
        succeeded h v = record s {
          results = set String-discrete name v s.results;
          completed_steps = track name h.rollback s.completed_steps;
        }

        failing :
            (fault : Fault E)
            → execute_step handlers ctx seen name ≡ failure name fault
            → first_error (map (execute_step handlers ctx seen) (name ∷ names)) ≡ none
            → ⊥
        failing fault e p = cc

        later :
            (h : Handler D V E) (v : V)
            → execute_step handlers ctx seen name ≡ success name v h.rollback
            → first_error (map (execute_step handlers ctx seen) (name ∷ names)) ≡ none
            → first_error (map (execute_step handlers ctx seen) names) ≡ none
        later h v e p = rw (e, first_error) at p

    run_parallel-DidIn :
        (names : List String) (s : State D V E) → DidIn names s (run_parallel handlers ctx names s)
    unfolding run_parallel
    run_parallel-DidIn names s =
        elim (Option-cases (first_error (map (execute_step handlers ctx s.results) names))) [
          | inl e ↦ rw (e, run_parallel) (merged-Did s.results names s e)
          | inr ((name, fault), e) ↦
              rw (e, run_parallel) (roll_back_after-DidIn ctx names name fault _ s)
        ]

    run_groups-DidIn :
        (gs : List StepGroup) (s : State D V E)
        → DidIn (names_of gs) s (run_groups handlers ctx gs s)
    unfolding run_groups run_group
    run_groups-DidIn [] s = Did-nil s
    run_groups-DidIn (sequential names ∷ gs) s =
        bind-DidIn names (names_of gs) s (run_sequential handlers ctx names s) _
          (run_sequential-DidIn names s) (run_groups-DidIn gs)
    run_groups-DidIn (parallel names ∷ gs) s =
        bind-DidIn names (names_of gs) s (run_parallel handlers ctx names s) _
          (run_parallel-DidIn names s) (run_groups-DidIn gs)

    DidIn-done :
        (names : List String) (s t : State D V E) (r : GroupResult D V E)
        → DidIn names s r
        → r ≡ done t
        → Did names s t
    DidIn-done names s t (done u) d e = subst (Did names s) {x = u} {y = t} (cc) d
    DidIn-done names s t _ d e = cc

    -- A workflow whose groups all succeed has a result for each of its steps, and records as
    -- completed, in the order of the definition, exactly the steps that have a rollback handler.
    pub run_groups-Did :
        (gs : List StepGroup) (t : State D V E)
        → run_groups handlers ctx gs initial ≡ done t
        → All (HasResult t.results) (names_of gs)
          × (step_names t.completed_steps ≡ with_rollback (names_of gs))
    run_groups-Did gs t e = (d.all_there, d.tracked)
      where
        d : Did (names_of gs) initial t
        d =
            DidIn-done (names_of gs) initial t (run_groups handlers ctx gs initial)
              (run_groups-DidIn gs initial) e
