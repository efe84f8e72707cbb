-- ===== src/Workflow/Pool/Tests.antt =====
-- The theorems on the pool at a pool of two items, of which the second is completed first.
use orijs.Common.{ℕ, ◌+◌, ◌*◌, ◌≤◌, ◌≡◌, refl, ◌⊎◌, ◌↔◌, List, [], ◌∷◌, length, get_elem?}
use Prim.Native.Nat.{max}
use mathlib.Core.Option
use orijs.Workflow.Pool.{
  Pool, open_pool, start_item, finish_item, Step, start, finish, Reach, here, next, IsDone,
}
use orijs.Workflow.Pool.Bounds.{steps, running-le-limit, pool_terminates}
use orijs.Workflow.Pool.Order.{results-in_order}

abbrev add_one : ℕ → ℕ
add_one n = n + 1

abbrev items : List ℕ
items = 10 ∷ 20 ∷ []

abbrev both_started : Pool ℕ ℕ
both_started = start_item 2 (1, 20) [] (start_item 2 (0, 10) ((1, 20) ∷ []) (open_pool items))

abbrev all_done : Pool ℕ ℕ
all_done = finish_item add_one (0, 10) [] (finish_item add_one (1, 20) ((0, 10) ∷ []) both_started)

starts : Reach add_one 2 (open_pool items) both_started
unfolding open_pool start_item
starts =
    next (next here (start (0, 10) ((1, 20) ∷ []) refl refl refl)) (start (1, 20) [] refl refl refl)

ends : Reach add_one 2 (open_pool items) all_done
unfolding open_pool start_item finish_item
ends =
    next (next starts (finish ((0, 10) ∷ []) (1, 20) [] refl refl)) (finish [] (0, 10) [] refl refl)

all_done-IsDone : IsDone all_done
unfolding open_pool start_item finish_item
all_done-IsDone = (refl, refl)

running-le-limit_example : length both_started.running ≤ max 2 1
running-le-limit_example = running-le-limit add_one 2 items starts

pool_terminates_example :
    (IsDone all_done ⊎ ((q : Pool ℕ ℕ) × Step add_one 2 all_done q))
    × (steps add_one 2 ends ≤ 2 * length items)
    × (IsDone all_done ↔ (steps add_one 2 ends ≡ 2 * length items))
pool_terminates_example = pool_terminates add_one 2 items ends

results-in_order_example : all_done.results 1 ≡ Option.map add_one (get_elem? items 1)
results-in_order_example = results-in_order add_one 2 items ends all_done-IsDone 1
