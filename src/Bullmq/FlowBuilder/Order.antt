-- ===== src/Bullmq/FlowBuilder/Order.antt =====
-- In which order the steps of a workflow run.
use orijs.Common.{
  ℕ, ◌≡◌, ◌≢◌, refl, sym, ap, ◌∙◌, Option, none, List, [], ◌∷◌, ◌++◌, if◌then◌else◌, All,
  append_assoc, append-nil, arith,
}
use orijs.Websocket.{Text}
use orijs.Bullmq.FlowBuilder.{
  StepGroup, sequential, parallel, FlowJob, job, FlowJobs, no_jobs, and_job, parallel_prefix,
  join_names, split_names, create_step_job, chain_steps, process_group, build_children_chain,
  build_flow, after_prefix, steps_of,
}

-- The children of a job run before it. What runs together is given as a list of steps.
mutual
  pub runs : FlowJob → List (List Text)
  runs (job info children) =
      runs_all children ++ ((if info.is_workflow then [] else steps_of info.name) ∷ [])

  pub runs_all : FlowJobs → List (List Text)
  runs_all no_jobs = []
  runs_all (and_job j js) = runs j ++ runs_all js

-- The steps of the groups, as they are written: one after the other, or together.
abbrev pub one_by_one : List Text → List (List Text)
one_by_one [] = []
one_by_one (name ∷ names) = (name ∷ []) ∷ one_by_one names

abbrev pub of_group : StepGroup → List (List Text)
of_group (sequential names) = one_by_one names
of_group (parallel names) = names ∷ []

abbrev pub of_groups : List StepGroup → List (List Text)
of_groups [] = []
of_groups (group ∷ groups) = of_group group ++ of_groups groups

-- A sequential step is not named like a parallel group, and the names of a parallel group, of which
-- there is one at least, have no commas.
abbrev pub IsPlain : Text → Type 0
IsPlain name = after_prefix parallel_prefix name ≡ none

abbrev pub HasNoComma : Text → Type 0
HasNoComma name = All (λ c. c ≢ 44) name

abbrev pub GroupIsNamed : StepGroup → Type 0
GroupIsNamed (sequential names) = All IsPlain names
GroupIsNamed (parallel names) = (names ≢ []) × All HasNoComma names

split_names-one : (name : Text) → HasNoComma name → split_names name ≡ name ∷ []
unfolding split_names
split_names-one [] h = refl
split_names-one (c ∷ cs) h = rw (split_names-one cs h.1) (ground (arith, h.0))

split_names-comma :
    (name rest : Text)
    → HasNoComma name
    → split_names (name ++ (44 ∷ rest)) ≡ name ∷ split_names rest
unfolding split_names
split_names-comma [] rest h = refl
split_names-comma (c ∷ cs) rest h = rw (split_names-comma cs rest h.1) (ground (arith, h.0))

split-join :
    (names : List Text) → names ≢ [] → All HasNoComma names → split_names (join_names names) ≡ names
unfolding join_names
split-join [] n h = absurd (n refl)
split-join (name ∷ []) n h = split_names-one name h.0
split-join (name ∷ other ∷ names) n h =
    split_names-comma name (join_names (other ∷ names)) h.0
    ∙ ap (λ l. name ∷ l) (split-join (other ∷ names) (λ e. cc) h.1)

steps_of-plain : (name : Text) → IsPlain name → steps_of name ≡ name ∷ []
unfolding steps_of
steps_of-plain name h = rw (steps_of, h) refl

steps_of-parallel :
    (names : List Text)
    → names ≢ []
    → All HasNoComma names
    → steps_of (parallel_prefix ++ join_names names) ≡ names
unfolding steps_of after_prefix
steps_of-parallel names n h = split-join names n h

module _ (workflow_name flow_id : Text) (key : Option Text) (attempts : Option ℕ) where
  chain_steps-runs :
      (names : List Text) (chain : FlowJobs)
      → All IsPlain names
      → runs_all (chain_steps workflow_name flow_id key attempts names chain)
        ≡ runs_all chain ++ one_by_one names
  unfolding chain_steps runs
  chain_steps-runs [] chain h = sym (append-nil (runs_all chain))
  chain_steps-runs (name ∷ names) chain h =
      chain_steps-runs names
        (and_job (create_step_job workflow_name flow_id key attempts name chain) no_jobs) h.1
      ∙ ap (λ l. l ++ one_by_one names)
          (append-nil (runs_all chain ++ (steps_of name ∷ []))
            ∙ ap (λ x. runs_all chain ++ (x ∷ [])) (steps_of-plain name h.0))
      ∙ append_assoc (runs_all chain) ((name ∷ []) ∷ []) (one_by_one names)

  process_group-runs :
      (group : StepGroup) (chain : FlowJobs)
      → GroupIsNamed group
      → runs_all (process_group workflow_name flow_id key attempts group chain)
        ≡ runs_all chain ++ of_group group
  unfolding process_group runs
  process_group-runs (sequential names) chain h = chain_steps-runs names chain h
  process_group-runs (parallel names) chain (n, h) =
      append-nil (runs_all chain ++ (steps_of (parallel_prefix ++ join_names names) ∷ []))
      ∙ ap (λ x. runs_all chain ++ (x ∷ [])) (steps_of-parallel names n h)

  chain-runs :
      (groups : List StepGroup) (chain : FlowJobs)
      → All GroupIsNamed groups
      → runs_all (build_children_chain workflow_name flow_id key attempts groups chain)
        ≡ runs_all chain ++ of_groups groups
  unfolding build_children_chain
  chain-runs [] chain h = sym (append-nil (runs_all chain))
  chain-runs (group ∷ groups) chain h =
      chain-runs groups (process_group workflow_name flow_id key attempts group chain) h.1
      ∙ ap (λ l. l ++ of_groups groups) (process_group-runs group chain h.0)
      ∙ append_assoc (runs_all chain) (of_group group) (of_groups groups)

  -- Where the children of a job run before it, the jobs of a workflow run its steps in the order of its
  -- groups, those of a sequential group one after the other and those of a parallel group together, and
  -- the job of the workflow runs last, with no step. No sequential step is named like a parallel group,
  -- and the names of a parallel group, of which there is one at least, have no commas.
  pub build_flow-runs :
      (groups : List StepGroup)
      → All GroupIsNamed groups
      → runs (build_flow workflow_name flow_id key attempts groups) ≡ of_groups groups ++ ([] ∷ [])
  unfolding build_flow runs
  build_flow-runs groups h = ap (λ l. l ++ ([] ∷ [])) (chain-runs groups no_jobs h)
