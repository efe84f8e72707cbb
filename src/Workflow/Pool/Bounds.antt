-- ===== src/Workflow/Pool/Bounds.antt =====
-- How many steps run at once, and that the pool comes to an end.
use Prim.Native.Nat.{max}
use orijs.Common.{
  ℕ, suc, ◌+◌, ◌*◌, ◌≤◌, ◌<◌, ◌≡◌, refl, ap, ◌↔◌, ◌⊎◌, inl, inr, true, false, List, [], ◌∷◌, ◌++◌,
  length, length-append, arith, Bool-cases,
}
use orijs.Workflow.Pool.{
  Pool, entries, open_pool, start_item, finish_item, Step, start, finish, Reach, here, next, IsDone,
}

-- A limit of 0 acts like 1.
pub record WithinLimit {A R : Type 0} (limit : ℕ) (p : Pool A R) : Type 0 where
  pub bounded : length p.running ≤ max limit 1
  pub room : p.blocked ≡ false → length p.running < max limit 1
  pub wakes : p.blocked ≡ true → 1 ≤ length p.running

length-around :
    {A : Type 0} (xs ys : List A) (a : A) → length (xs ++ a ∷ ys) ≡ suc (length (xs ++ ys))
length-around [] ys a = refl
length-around (x ∷ xs) ys a = omega (arith, length-around xs ys a)

nil_of_length : {A : Type 0} (xs : List A) → length xs ≡ 0 → xs ≡ []
nil_of_length [] h = refl
nil_of_length (x ∷ xs) h = absurd (omega arith)

length-entries : {A : Type 0} (i : ℕ) (xs : List A) → length (entries i xs) ≡ length xs
length-entries i [] = refl
length-entries i (x ∷ xs) = omega (arith, length-entries (suc i) xs)

module _ {A R : Type 0} (executor : A → R) (limit : ℕ) where
  open-WithinLimit : (items : List A) → WithinLimit limit (open_pool {R = R} items)
  unfolding open_pool
  open-WithinLimit items = record {
    bounded = omega arith;
    room = λ h. omega arith;
    wakes = λ h. cc;
  }

  Step-WithinLimit :
      {p q : Pool A R} → Step executor limit p q → WithinLimit limit p → WithinLimit limit q
  unfolding start_item finish_item
  Step-WithinLimit {p} (start entry rest b w e) v = rw e (record {
    bounded = omega (arith, grown, v.room b);
    room = λ h. ground (arith, grown);
    wakes = λ h. omega (arith, grown);
  })
    where
      grown : length (p.running ++ entry ∷ []) ≡ length p.running + 1
      grown = omega (arith, length-append p.running (entry ∷ []))
  Step-WithinLimit {p} (finish before entry after r e) v = rw e (record {
    bounded = omega (arith, shrunk, v.bounded);
    room = λ h. omega (arith, shrunk, v.bounded);
    wakes = λ h. cc;
  })
    where
      shrunk : length p.running ≡ suc (length (before ++ after))
      shrunk = rw r (length-around before after entry)

  Reach-WithinLimit :
      {p q : Pool A R} → Reach executor limit p q → WithinLimit limit p → WithinLimit limit q
  Reach-WithinLimit here v = v
  Reach-WithinLimit (next r s) v = Step-WithinLimit s (Reach-WithinLimit r v)

  -- At every moment at most `limit` items of the pool run, or one if the limit is 0.
  pub running-le-limit :
      (items : List A) {p : Pool A R}
      → Reach executor limit (open_pool items) p
      → length p.running ≤ max limit 1
  running-le-limit items r = (Reach-WithinLimit r (open-WithinLimit items)).bounded

  abbrev pub work : Pool A R → ℕ
  work p = 2 * length p.waiting + length p.running

  abbrev pub steps : {p q : Pool A R} → Reach executor limit p q → ℕ
  steps here = 0
  steps (next r s) = suc (steps r)

  Step-work : {p q : Pool A R} → Step executor limit p q → work p ≡ suc (work q)
  unfolding start_item finish_item
  Step-work {p} (start entry rest b w e) =
      rw (e, w) (omega (arith, length-append p.running (entry ∷ [])))
  Step-work {p} (finish before entry after r e) =
      rw (e, r) (omega (arith, length-around before after entry))

  Reach-work : {p q : Pool A R} (r : Reach executor limit p q) → steps r + work q ≡ work p
  Reach-work here = omega arith
  Reach-work (next r s) = omega (arith, Reach-work r, Step-work s)

  progress :
      (p : Pool A R) → WithinLimit limit p → IsDone p ⊎ ((q : Pool A R) × Step executor limit p q)
  progress p v = by_lists p.running p.waiting refl refl
    where
      by_lists :
          (running waiting : List (ℕ × A))
          → p.running ≡ running
          → p.waiting ≡ waiting
          → IsDone p ⊎ ((q : Pool A R) × Step executor limit p q)
      by_lists [] [] r w = inl (w, r)
      by_lists [] (entry ∷ rest) r w = elim (Bool-cases p.blocked) [
        | inl b ↦ absurd (omega (arith, v.wakes b, ap length r))
        | inr b ↦ inr (start_item limit entry rest p, start entry rest b w refl)
      ]
      by_lists (entry ∷ after) waiting r w =
          inr (finish_item executor entry after p, finish [] entry after r refl)

  -- The pool is never stuck: whatever has happened so far, either everything is done or another
  -- step can be made; and a run over `n` items has made at most `2 * n` steps, and exactly so many
  -- when and only when it is done.
  pub pool_terminates :
      (items : List A) {p : Pool A R} (r : Reach executor limit (open_pool items) p)
      → (IsDone p ⊎ ((q : Pool A R) × Step executor limit p q))
        × (steps r ≤ 2 * length items)
        × (IsDone p ↔ (steps r ≡ 2 * length items))
  unfolding open_pool
  pool_terminates items {p} r = (
    progress p (Reach-WithinLimit r (open-WithinLimit items)),
    omega (arith, Reach-work r, length-entries 0 items),
    (
      λ d. omega (arith, Reach-work r, length-entries 0 items, ap length d.0, ap length d.1),
      λ e. (
        nil_of_length p.waiting (omega (arith, Reach-work r, length-entries 0 items)),
        nil_of_length p.running (omega (arith, Reach-work r, length-entries 0 items)),
      ),
    ),
  )
