-- ===== src/Workflow/Pool.antt =====
-- `executeWithConcurrencyLimit` of in-process-workflow-provider.ts: a loop starts the items in
-- order and waits while `limit` of them run; which running item completes next is not determined.
pub mod Bounds
pub mod Order
mod Tests
use orijs.Common.{
  ℕ, suc, ◌≡◌, Bool, true, false, Option, none, some, List, [], ◌∷◌, ◌++◌, length, leb, ◌==◌,
  if◌then◌else◌,
}

-- `waiting` is the part of the loop still to come; `blocked` says that the loop stands at
-- `await Promise.race(executing)`; `results` is the sparse array.
pub record Pool (A R : Type 0) : Type 0 where
  pub waiting : List (ℕ × A)
  pub running : List (ℕ × A)
  pub blocked : Bool
  pub results : ℕ → Option R

-- `items.entries()`
abbrev pub entries : {A : Type 0} → ℕ → List A → List (ℕ × A)
entries i [] = []
entries i (x ∷ xs) = (i, x) ∷ entries (suc i) xs

abbrev pub assign : {R : Type 0} → (ℕ → Option R) → ℕ → R → ℕ → Option R
assign results i r j = if i == j then some r else results j

module _ {A R : Type 0} where
  pub open_pool : List A → Pool A R
  open_pool items = record {
    waiting = entries 0 items;
    running = [];
    blocked = false;
    results = λ i. none;
  }

  -- One round of the loop, with the `executing.size >= limit` that ends it.
  pub start_item : ℕ → ℕ × A → List (ℕ × A) → Pool A R → Pool A R
  start_item limit entry rest p =
      let running = p.running ++ entry ∷ [] in
      record p { waiting = rest; running = running; blocked = leb limit (length running) }

  -- The handlers of a promise that resolves: the result is stored, the promise leaves the set,
  -- and the race is over.
  pub finish_item : (A → R) → ℕ × A → List (ℕ × A) → Pool A R → Pool A R
  finish_item executor (i, x) rest p = record p {
    running = rest;
    blocked = false;
    results = assign p.results i (executor x);
  }

-- A step of the pool. The items are executed in any order that the limit admits.
pub data Step {A R : Type 0} (executor : A → R) (limit : ℕ) (p q : Pool A R) : Type 0 where
  start :
      (entry : ℕ × A) (rest : List (ℕ × A))
      → p.blocked ≡ false
      → p.waiting ≡ entry ∷ rest
      → q ≡ start_item limit entry rest p
      → Step executor limit p q
  finish :
      (before : List (ℕ × A)) (entry : ℕ × A) (after : List (ℕ × A))
      → p.running ≡ before ++ entry ∷ after
      → q ≡ finish_item executor entry (before ++ after) p
      → Step executor limit p q

pub data Reach {A R : Type 0} (executor : A → R) (limit : ℕ) (p : Pool A R)
    : Pool A R → Type 0 where
  here : Reach executor limit p p
  next :
      {q r : Pool A R}
      → Reach executor limit p q
      → Step executor limit q r
      → Reach executor limit p r

-- The loop has ended, and `Promise.all(executing)` has resolved.
abbrev pub IsDone : {A R : Type 0} → Pool A R → Type 0
IsDone p = (p.waiting ≡ []) × (p.running ≡ [])
