-- ===== src/Bullmq/Tests.antt =====
-- The theorems on the flow states of the BullMQ provider at small tables.
use orijs.Common.{
  ℕ, ◌≤◌, ◌≡◌, ◌≢◌, refl, true, none, some, [], ◌∷◌, ◌++◌, String, String-discrete, length, List,
}
use orijs.JsMap.{get, set}
use orijs.Bullmq.{
  pending, running, resolved, FlowTable, evict, evict_oldest_flow_states_if_needed, of_flow,
  existing_handle, initialize_flow_state, prepare, register_pending_result, begin, discard,
  mark_running, on_completed, on_failed,
}
use orijs.Bullmq.FlowBuilder.{StepGroup, sequential, parallel, build_flow, after_prefix}
use orijs.Bullmq.FlowBuilder.Order.{runs, of_groups, build_flow-runs}
use orijs.Bullmq.Races.{
  both_prepared, running_overwrites, concurrent_execute_strands, length-begin-le,
}

abbrev Table : Type 0
Table = FlowTable ℕ ℕ

abbrev empty : Table
empty = record {
  local_flow_states = [];
  pending_results = [];
  cleanup_handles = [];
  timeout_handles = [];
  loading = [];
  checking = [];
  settlements = [];
  idempotent_handles = [];
  max_flow_states = 2;
  flow_state_cleanup_delay = 5;
}

-- One flow whose job is pending.
abbrev begun : Table
begun = record empty {
  local_flow_states = ("f", record { status = pending; error = none }) ∷ [];
  pending_results = ("j", "f") ∷ [];
}

running_overwrites_example :
    (get String-discrete "f" (mark_running true "f" (on_completed "j" 7 begun)).local_flow_states
      ≡ some (record { status = running; error = none }))
    × (get String-discrete "f" (mark_running true "f" (on_completed "j" 7 begun)).settlements
        ≡ some (resolved 7))
unfolding get String-discrete
running_overwrites_example =
    running_overwrites true "j" "f" 7 (record { status = pending; error = none }) begun refl refl
      refl

abbrev first : Table
first = register_pending_result "j" "f" (both_prepared "k" "f" "g" empty)

abbrev second : Table
second = register_pending_result "j" "g" first

abbrev last : Table
last = discard (some "k") "j" "g" second

concurrent_execute_strands_example :
    (existing_handle (some "k") (prepare (some "k") "f" empty) ≡ some (of_flow "f"))
    × (get String-discrete "j" first.pending_results ≡ some "f")
    × (get String-discrete "j" second.pending_results ≡ some "g")
    × (existing_handle (some "k") second ≡ some (of_flow "g"))
    × (on_completed "j" 7 last ≡ last)
    × (on_failed "j" last ≡ last)
    × (get String-discrete "f" last.settlements ≡ none)
unfolding get
concurrent_execute_strands_example =
    concurrent_execute_strands "k" "j" "f" "g" 7 empty first second last refl refl refl refl refl

abbrev full : Table
full = record empty {
  local_flow_states =
      ("f", record { status = pending; error = none })
      ∷ ("g", record { status = running; error = none })
      ∷ ("h", record { status = running; error = none })
      ∷ [];
}

-- The two oldest of three flows are evicted.
evicts_two : length (begin none "j" "i" full).local_flow_states ≡ 2
unfolding initialize_flow_state register_pending_result evict_oldest_flow_states_if_needed evict set
    String-discrete
evicts_two = refl

abbrev f_id : String
f_id = "f"

abbrev g_id : String
g_id = "g"

abbrev h_id : String
h_id = "h"

abbrev no_id : String
no_id = ""

f_is_named : f_id ≢ no_id
f_is_named e = cc

g_is_named : g_id ≢ no_id
g_is_named e = cc

h_is_named : h_id ≢ no_id
h_is_named e = cc

length-begin-le_example : length (begin none "j" "i" full).local_flow_states ≤ 2
length-begin-le_example =
    length-begin-le none "j" "i" 1 full refl (f_is_named, (g_is_named, (h_is_named, tt)))

-- The steps a and b, one after the other, and then c and d together.
abbrev groups : List StepGroup
groups = sequential ((97 ∷ []) ∷ (98 ∷ []) ∷ []) ∷ parallel ((99 ∷ []) ∷ (100 ∷ []) ∷ []) ∷ []

build_flow-runs_example :
    runs (build_flow (119 ∷ []) (102 ∷ []) (some (107 ∷ [])) (some 3) groups)
    ≡ of_groups groups ++ ([] ∷ [])
unfolding after_prefix
build_flow-runs_example =
    build_flow-runs (119 ∷ []) (102 ∷ []) (some (107 ∷ [])) (some 3) groups
      ((refl, (refl, tt)), (((λ e. cc), (((λ e. cc), tt), (((λ e. cc), tt), tt))), tt))
