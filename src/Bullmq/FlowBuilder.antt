-- ===== src/Bullmq/FlowBuilder.antt =====
-- packages/bullmq/src/workflows/flow-builder.ts: the tree of jobs of a workflow, and which steps the
-- worker of bullmq-workflow-provider.ts runs for a job. A name is the list of its characters' codes.
pub mod Order
use orijs.Common.{
  ℕ, Bool, true, false, Option, none, some, List, [], ◌∷◌, ◌++◌, map, ◌==◌, if◌then◌else◌,
}
use orijs.Websocket.{Text}

pub data StepGroup : Type 0 where
  sequential parallel : List Text → StepGroup

-- What a job is; `job_id` is derived from the idempotency key, or that of the flow.
pub record JobInfo : Type 0 where
  pub is_workflow : Bool
  pub name : Text
  pub job_id : Option Text
  pub attempts : Option ℕ

mutual
  pub data FlowJob : Type 0 where
    job : JobInfo → FlowJobs → FlowJob

  pub data FlowJobs : Type 0 where
    no_jobs : FlowJobs
    and_job : FlowJob → FlowJobs → FlowJobs

-- `__parallel__:`
abbrev pub parallel_prefix : Text
parallel_prefix = 95 ∷ 95 ∷ 112 ∷ 97 ∷ 114 ∷ 97 ∷ 108 ∷ 108 ∷ 101 ∷ 108 ∷ 95 ∷ 95 ∷ 58 ∷ []

-- `-step-`
abbrev step_infix : Text
step_infix = 45 ∷ 115 ∷ 116 ∷ 101 ∷ 112 ∷ 45 ∷ []

-- `join(",")`
unfoldable pub join_names : List Text → Text
join_names [] = []
join_names (name ∷ []) = name
join_names (name ∷ other ∷ names) = name ++ (44 ∷ join_names (other ∷ names))

-- `split(",")`
abbrev with_first : ℕ → List Text → List Text
with_first c [] = (c ∷ []) ∷ []
with_first c (l ∷ ls) = (c ∷ l) ∷ ls

unfoldable pub split_names : Text → List Text
split_names [] = [] ∷ []
split_names (c ∷ cs) = if c == 44 then [] ∷ split_names cs else with_first c (split_names cs)

-- An empty key gives no identifier.
abbrev step_job_id : Option Text → Text → Option Text
step_job_id none step_name = none
step_job_id (some []) step_name = none
step_job_id (some (c ∷ key)) step_name = some ((c ∷ key) ++ step_infix ++ step_name)

module _ (workflow_name flow_id : Text) (idempotency_key : Option Text) (attempts : Option ℕ) where
  -- `createStepJob`, and the job of a parallel group
  abbrev pub create_step_job : Text → FlowJobs → FlowJob
  create_step_job step_name children =
      job
        (record {
          is_workflow = false;
          name = step_name;
          job_id = step_job_id idempotency_key step_name;
          attempts = attempts;
        })
        children

  -- The loop over the steps of a sequential group.
  unfoldable pub chain_steps : List Text → FlowJobs → FlowJobs
  chain_steps [] chain = chain
  chain_steps (name ∷ names) chain =
      chain_steps names (and_job (create_step_job name chain) no_jobs)

  unfoldable pub process_group : StepGroup → FlowJobs → FlowJobs
  process_group (sequential names) inner = chain_steps names inner
  process_group (parallel names) inner =
      and_job (create_step_job (parallel_prefix ++ join_names names) inner) no_jobs

  -- `buildChildrenChain`, from the children that there are so far
  unfoldable pub build_children_chain : List StepGroup → FlowJobs → FlowJobs
  build_children_chain [] children = children
  build_children_chain (group ∷ groups) children =
      build_children_chain groups (process_group group children)

  abbrev parent_job_id : Option Text → Text
  parent_job_id none = flow_id
  parent_job_id (some key) = key

  unfoldable pub build_flow : List StepGroup → FlowJob
  build_flow groups =
      job
        (record {
          is_workflow = true;
          name = workflow_name;
          job_id = some (parent_job_id idempotency_key);
          attempts = none;
        })
        (build_children_chain groups no_jobs)

-- `startsWith` and `replace`: what follows the prefix, if it is one.
abbrev same_first : ℕ → ℕ → Option Text → Option Text
same_first c d rest = if c == d then rest else none

unfoldable pub after_prefix : Text → Text → Option Text
after_prefix [] text = some text
after_prefix (c ∷ cs) [] = none
after_prefix (c ∷ cs) (d ∷ text) = let rest = after_prefix cs text in same_first c d rest

-- The steps that `processStep` runs together for a job of that name.
unfoldable pub steps_of : Text → List Text
steps_of name = elim (after_prefix parallel_prefix name) [
  | none ↦ name ∷ []
  | some names ↦ split_names names
]
