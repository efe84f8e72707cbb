-- ===== src/Workflow/Pool/Order.antt =====
-- The results of the pool, in the order of the items.
use mathlib.Core.Option
use orijs.Common.{
  ℕ, zero, suc, ◌+◌, ◌≡◌, refl, subst, ◌⊎◌, inl, inr, Option, none, some, List, [], ◌∷◌, ◌++◌,
  get_elem?, arith, In, first, later, In-append, In-append_left, In-append_right,
}
use orijs.Workflow.Pool.{
  Pool, entries, assign, open_pool, start_item, finish_item, Step, start, finish, Reach, here, next,
  IsDone,
}

not-In-nil : {A : Type 0} {a : A} → In a [] → ⊥
not-In-nil h = elim h [ ]

entries-In :
    {A : Type 0} (items : List A) (k i : ℕ) (x : A)
    → get_elem? items i ≡ some x
    → In (k + i, x) (entries k items)
entries-In [] k i x e = absurd (impossible e)
  where
    impossible : none ≡ some x → ⊥
    impossible h = cc
entries-In (y ∷ items) k zero x e = first (ground arith)
entries-In (y ∷ items) k (suc i) x e =
    later (
      subst (λ j. In (j, x) (entries (suc k) items)) (omega arith) (entries-In items (suc k) i x e))

In-entries :
    {A : Type 0} (items : List A) (k j : ℕ) (x : A)
    → In (j, x) (entries k items)
    → (i : ℕ) × (j ≡ k + i) × (get_elem? items i ≡ some x)
In-entries [] k j x h = elim h [ ]
In-entries (y ∷ items) k j x (first e) = (0, ground arith, ground arith)
In-entries (y ∷ items) k j x (later h) =
    let (i, e, g) = In-entries items (suc k) j x h in (suc i, omega arith, g)

module _ {A R : Type 0} (executor : A → R) (limit : ℕ) (items : List A) where
  record Inv (p : Pool A R) : Type 0 where
    waits : (i : ℕ) (x : A) → In (i, x) p.waiting → get_elem? items i ≡ some x
    runs : (i : ℕ) (x : A) → In (i, x) p.running → get_elem? items i ≡ some x
    covers :
        (i : ℕ) (x : A)
        → get_elem? items i ≡ some x
        → In (i, x) p.waiting ⊎ (In (i, x) p.running ⊎ (p.results i ≡ some (executor x)))
    fits : (i : ℕ) → get_elem? items i ≡ none → p.results i ≡ none

  open-Inv : Inv (open_pool items)
  unfolding open_pool
  open-Inv = record {
    waits = λ i x h.
        let (j, e, g) = In-entries items 0 i x h in
        subst (λ n. get_elem? items n ≡ some x) (omega arith) g;
    runs = λ i x h. elim h [ ];
    covers = λ i x e.
        inl (subst (λ n. In (n, x) (entries 0 items)) (omega arith) (entries-In items 0 i x e));
    fits = λ i e. refl;
  }

  started-covers :
      (i : ℕ) (x : A) (entry : ℕ × A) (rest running : List (ℕ × A)) (result : Option R)
      → In (i, x) (entry ∷ rest) ⊎ (In (i, x) running ⊎ (result ≡ some (executor x)))
      → In (i, x) rest ⊎ (In (i, x) (running ++ entry ∷ []) ⊎ (result ≡ some (executor x)))
  started-covers i x entry rest running result (inl (first e)) =
      inr (inl (In-append_right running _ (first e)))
  started-covers i x entry rest running result (inl (later h)) = inl h
  started-covers i x entry rest running result (inr (inl h)) =
      inr (inl (In-append_left running _ h))
  started-covers i x entry rest running result (inr (inr h)) = inr (inr h)

  start-Inv :
      (p : Pool A R) (entry : ℕ × A) (rest : List (ℕ × A))
      → p.waiting ≡ entry ∷ rest
      → Inv p
      → Inv (start_item limit entry rest p)
  unfolding start_item
  start-Inv p entry rest w v = record {
    waits = λ i x h. v.waits i x (rw w (later h));
    runs = λ i x h. elim (In-append p.running (entry ∷ []) h) [
      | inl old ↦ v.runs i x old
      | inr (first e) ↦ v.waits i x (rw w (first e))
      | inr (later r) ↦ elim r [ ]
    ];
    covers =
        λ i x e. started-covers i x entry rest p.running (p.results i) (rw w at (v.covers i x e));
    fits = v.fits;
  }

  In-around :
      (q : ℕ × A) (before after : List (ℕ × A)) (entry : ℕ × A)
      → In q (before ++ entry ∷ after)
      → (q ≡ entry) ⊎ In q (before ++ after)
  In-around q before after entry h = elim (In-append before (entry ∷ after) h) [
    | inl l ↦ inr (In-append_left before after l)
    | inr (first e) ↦ inl e
    | inr (later r) ↦ inr (In-append_right before after r)
  ]

  finished-covers :
      (i j : ℕ) (x y : A) (waiting rest running : List (ℕ × A)) (results : ℕ → Option R)
      → get_elem? items i ≡ some x
      → get_elem? items j ≡ some y
      → (In (i, x) running → ◌≡◌ {A = ℕ × A} (i, x) (j, y) ⊎ In (i, x) rest)
      → In (i, x) waiting ⊎ (In (i, x) running ⊎ (results i ≡ some (executor x)))
      → In (i, x) waiting ⊎ (In (i, x) rest ⊎ (assign results j (executor y) i ≡ some (executor x)))
  finished-covers i j x y waiting rest running results e g around (inl h) = inl h
  finished-covers i j x y waiting rest running results e g around (inr (inl h)) = elim (around h) [
    | inl same ↦ inr (inr (ground arith))
    | inr r ↦ inr (inl r)
  ]
  finished-covers i j x y waiting rest running results e g around (inr (inr h)) =
      inr (inr (ground arith))

  finish-Inv :
      (p : Pool A R) (before : List (ℕ × A)) (j : ℕ) (y : A) (after : List (ℕ × A))
      → p.running ≡ before ++ (j, y) ∷ after
      → Inv p
      → Inv (finish_item executor (j, y) (before ++ after) p)
  unfolding finish_item
  finish-Inv p before j y after r v = record {
    waits = v.waits;
    runs = λ i x h. v.runs i x (
        rw r (elim (In-append before after h) [
          | inl l ↦ In-append_left before _ l
          | inr k ↦ In-append_right before _ (later k)
        ]));
    covers = λ i x e.
        finished-covers i j x y p.waiting (before ++ after) p.running p.results e ran
          (λ h. In-around (i, x) before after (j, y) (rw r at h)) (v.covers i x e);
    fits = λ i e. ground (arith, v.fits i e, ran);
  }
    where
      ran : get_elem? items j ≡ some y
      ran = v.runs j y (rw r (In-append_right before ((j, y) ∷ after) (first refl)))

  Step-Inv : {p q : Pool A R} → Step executor limit p q → Inv p → Inv q
  Step-Inv {p} (start entry rest b w e) v = rw e (start-Inv p entry rest w v)
  Step-Inv {p} (finish before (j, y) after r e) v = rw e (finish-Inv p before j y after r v)

  Reach-Inv : {p : Pool A R} → Reach executor limit (open_pool items) p → Inv p
  Reach-Inv here = open-Inv
  Reach-Inv (next r s) = Step-Inv s (Reach-Inv r)

  -- When the pool is done, the result at each index is that of the item at the index, and there is
  -- none beyond the items, in whatever order the items were completed.
  pub results-in_order :
      {p : Pool A R}
      → Reach executor limit (open_pool items) p
      → IsDone p
      → (i : ℕ) → p.results i ≡ Option.map executor (get_elem? items i)
  results-in_order {p} r d i = by_item (get_elem? items i) refl
    where
      v : Inv p
      v = Reach-Inv r

      by_item : (o : Option A) → get_elem? items i ≡ o → p.results i ≡ Option.map executor o
      by_item none e = v.fits i e
      by_item (some x) e = elim (v.covers i x e) [
        | inl h ↦ absurd (not-In-nil (rw d.0 at h))
        | inr (inl h) ↦ absurd (not-In-nil (rw d.1 at h))
        | inr (inr h) ↦ h
      ]
