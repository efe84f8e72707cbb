-- ===== src/Container/Async/Sharing.antt =====
-- A dependency that two services share makes an asynchronous resolution of container.ts fail.
use orijs.Common.{
  ℕ, zero, suc, ◌≡◌, refl, sym, true, false, none, some, List, [], ◌∷◌, ◌++◌, ◌⊎◌, inl, inr,
  is_some, arith, In, Option-cases, subst, length,
}
use orijs.JsMap.{JsMap, get, contains, size}
use orijs.JsMap.Laws.{contains-add}
use orijs.Container.{Token, Token-discrete, ResolveError, Container, prepare_resolution, enter}
use orijs.Container.Resolving.{prepare-inversion}
use orijs.Container.Async.{Started, start_each, start_internal, resolve_async_error}
use orijs.Container.Async.Calls.{
  Marks, Rejects, Same, Calls, first_of_left, first_of_right, start_each-same, start_each-grows,
  start_each-Marks, start_each-Rejects,
}

module _ {V : Type 0} where
  contains-enter :
      (s t : Token) (c : Container V)
      → contains Token-discrete s c.resolving ≡ true
      → contains Token-discrete s (enter t c).resolving ≡ true
  contains-enter s t c h = ground (arith, contains-add Token-discrete s t c.resolving)

  contains-enter_self :
      (t : Token) (c : Container V) → contains Token-discrete t (enter t c).resolving ≡ true
  contains-enter_self t c = ground (arith, contains-add Token-discrete t t c.resolving)

module _ {V X : Type 0} where
  -- A call for a service that is not cached is rejected, or marks it and calls for its dependencies.
  start_cases :
      (P : Started V X → Type 0) (fuel : ℕ) (t : Token) (c : Container V)
      → get Token-discrete t c.instances ≡ none
      → ((e : ResolveError X) → P (c, some e))
      → ((deps : List Token)
          → contains Token-discrete t c.resolving ≡ false
          → get Token-discrete t c.registry ≡ some deps
          → P (start_each (start_internal fuel) deps (enter t c)))
      → P (start_internal (suc fuel) t c)
  unfolding start_internal
  start_cases P fuel t c fresh fails enters =
      rw (fresh, start_internal) (by_prepared (prepare_resolution t c) refl)
    where
      by_prepared :
          (r : ResolveError X ⊎ (Token × List Token))
          → prepare_resolution t c ≡ r
          → P (elim r [
            | inl e ↦ (c, some e)
            | inr (service, deps) ↦ start_each (start_internal fuel) deps (enter service c)
          ])
      by_prepared (inl e) p = fails e
      by_prepared (inr (service, deps)) p =
          let (is, free, found) = prepare-inversion t c p in rw is (enters deps free found)

  start_internal-Calls : (fuel : ℕ) → Calls (start_internal {V = V} {X = X} fuel)
  unfolding start_internal
  start_internal-Calls zero = record { same = λ t c. (refl, refl); grows = λ s t c h. h }
  start_internal-Calls (suc fuel) = record {
    same = λ t c. elim (Option-cases (get Token-discrete t c.instances)) [
      | inr (v, e) ↦ rw (e, start_internal) (refl, refl)
      | inl e ↦
          start_cases (Same c) fuel t c e (λ x. (refl, refl))
            (λ deps free found.
              start_each-same (start_internal fuel) (start_internal-Calls fuel) deps (enter t c))
    ];
    grows = λ s t c h. elim (Option-cases (get Token-discrete t c.instances)) [
      | inr (v, e) ↦ rw (e, start_internal) h
      | inl e ↦
          start_cases (λ r. contains Token-discrete s r.0.resolving ≡ true) fuel t c e (λ x. h)
            (λ deps free found.
              start_each-grows (start_internal fuel) (start_internal-Calls fuel) s deps (enter t c)
                (contains-enter s t c h))
    ];
  }

registered-size :
    (a : Token) (m : JsMap Token (List Token)) (deps : List Token)
    → get Token-discrete a m ≡ some deps
    → (n : ℕ) × (size m ≡ suc n)
unfolding get
registered-size a [] deps e = absurd (nothing e)
  where
    nothing : none ≡ some deps → ⊥
    nothing h = cc
registered-size a (x ∷ m) deps e = (length m, refl)

module _ {V : Type 0} (X : Type 0) where
  -- A first call for a service that is not cached marks it; a second one is rejected.
  start-Marks :
      (fuel : ℕ) (t : Token) (c : Container V)
      → get Token-discrete t c.instances ≡ none
      → Marks t (start_internal {X = X} (suc fuel) t c)
  start-Marks fuel t c fresh =
      start_cases (Marks t) fuel t c fresh (λ e. inl refl)
        (λ deps free found. inr (
          start_each-grows (start_internal fuel) (start_internal-Calls fuel) t deps (enter t c)
            (contains-enter_self t c)))

  start-Rejects :
      (fuel : ℕ) (t : Token) (c : Container V)
      → get Token-discrete t c.instances ≡ none
      → contains Token-discrete t c.resolving ≡ true
      → Rejects (start_internal {X = X} (suc fuel) t c)
  start-Rejects fuel t c fresh marked =
      start_cases Rejects fuel t c fresh (λ e. refl) (λ deps free found. absurd (clash free))
    where
      clash : contains Token-discrete t c.resolving ≡ false → ⊥
      clash free = cc

  module _ (b t : Token) (deps : List Token) (shared : In t deps) where
    through-Marks :
        (fuel : ℕ) (c : Container V)
        → get Token-discrete b c.instances ≡ none
        → get Token-discrete t c.instances ≡ none
        → get Token-discrete b c.registry ≡ some deps
        → Marks t (start_internal {X = X} (suc (suc fuel)) b c)
    through-Marks fuel c fresh_b fresh_t registered =
        start_cases (Marks t) (suc fuel) b c fresh_b (λ e. inl refl)
          (λ found free g.
            start_each-Marks (start_internal (suc fuel)) (start_internal-Calls (suc fuel)) t t found
              (enter b c) (subst (In t) (same found g) shared)
              (λ d i r. start-Marks fuel t d (rw i fresh_t)))
      where
        same : (found : List Token) → get Token-discrete b c.registry ≡ some found → deps ≡ found
        same found g = cc

    through-Rejects :
        (fuel : ℕ) (c : Container V)
        → get Token-discrete b c.instances ≡ none
        → get Token-discrete t c.instances ≡ none
        → get Token-discrete b c.registry ≡ some deps
        → contains Token-discrete t c.resolving ≡ true
        → Rejects (start_internal {X = X} (suc (suc fuel)) b c)
    through-Rejects fuel c fresh_b fresh_t registered marked =
        start_cases Rejects (suc fuel) b c fresh_b (λ e. refl)
          (λ found free g.
            start_each-Rejects (start_internal (suc fuel)) (start_internal-Calls (suc fuel)) t t
              found (enter b c) (subst (In t) (same found g) shared) (contains-enter t b c marked)
              (λ d i r m. start-Rejects fuel t d (rw i fresh_t) m))
      where
        same : (found : List Token) → get Token-discrete b c.registry ≡ some found → deps ≡ found
        same found g = cc

  module _ (b c t : Token) (deps_b deps_c : List Token) (in_b : In t deps_b) (in_c : In t deps_c)
      (later_deps : List Token) (second : In c later_deps) where
    -- The calls for `b` and, further on, for `c`.
    pair-Rejects :
        (fuel : ℕ) (s : Container V)
        → get Token-discrete b s.instances ≡ none
        → get Token-discrete c s.instances ≡ none
        → get Token-discrete t s.instances ≡ none
        → get Token-discrete b s.registry ≡ some deps_b
        → get Token-discrete c s.registry ≡ some deps_c
        → Rejects (start_each (start_internal {X = X} (suc (suc fuel))) (b ∷ later_deps) s)
    unfolding start_each
    pair-Rejects fuel s fresh_b fresh_c fresh_t reg_b reg_c =
        by_first (through-Marks b t deps_b in_b fuel s fresh_b fresh_t reg_b)
      where
        f : Token → Container V → Started V X
        f = start_internal (suc (suc fuel))

        k : Calls f
        k = start_internal-Calls (suc (suc fuel))

        by_first :
            Marks t (f b s)
            → Rejects (start_each (start_internal {X = X} (suc (suc fuel))) (b ∷ later_deps) s)
        by_first (inl e) = first_of_left (f b s).1 _ e
        by_first (inr m) = first_of_right (f b s).1 _ (
            start_each-Rejects f k t c later_deps (f b s).0 second m (λ d i r marked.
              through-Rejects c t deps_c in_c fuel d (rw (i, (k.same b s).0) fresh_c)
                (rw (i, (k.same b s).0) fresh_t) (rw (r, (k.same b s).1) reg_c) marked))

    around-Rejects :
        (before : List Token) (fuel : ℕ) (s : Container V)
        → get Token-discrete b s.instances ≡ none
        → get Token-discrete c s.instances ≡ none
        → get Token-discrete t s.instances ≡ none
        → get Token-discrete b s.registry ≡ some deps_b
        → get Token-discrete c s.registry ≡ some deps_c
        → Rejects
            (start_each (start_internal {X = X} (suc (suc fuel))) (before ++ b ∷ later_deps) s)
    unfolding start_each
    around-Rejects [] fuel s fb fc ft rb rc = pair-Rejects fuel s fb fc ft rb rc
    around-Rejects (x ∷ before) fuel s fb fc ft rb rc =
        let (i, r) = (start_internal-Calls {X = X} (suc (suc fuel))).same x s in
        first_of_right (start_internal {X = X} (suc (suc fuel)) x s).1 _ (
          around-Rejects before fuel (start_internal {X = X} (suc (suc fuel)) x s).0 (rw i fb)
            (rw i fc) (rw i ft) (rw r rb) (rw r rc))

  -- If a service has, among its registered dependencies, `b` and further on `c`, and both of these
  -- depend on the same service `t`, and none of the four is cached yet, then `resolveAsync` of the
  -- service rejects: no cycle is needed for that. (The same `resolve` reports no cycle where there
  -- is none.)
  pub shared_dependency_rejects :
      (a b c t : Token) (before later_deps deps_b deps_c : List Token) (s : Container V)
      → get Token-discrete a s.registry ≡ some (before ++ b ∷ later_deps)
      → In c later_deps
      → get Token-discrete b s.registry ≡ some deps_b
      → In t deps_b
      → get Token-discrete c s.registry ≡ some deps_c
      → In t deps_c
      → get Token-discrete a s.instances ≡ none
      → get Token-discrete b s.instances ≡ none
      → get Token-discrete c s.instances ≡ none
      → get Token-discrete t s.instances ≡ none
      → is_some (resolve_async_error {X = X} a s) ≡ true
  unfolding resolve_async_error
  shared_dependency_rejects a b c t before later_deps deps_b deps_c s ra second rb ib rc ic fa fb fc
        ft =
      let (n, e) = registered-size a s.registry _ ra in
      subst (λ m. Rejects (start_internal {X = X} (suc (suc m)) a s)) (sym e)
        (start_cases Rejects (suc (suc n)) a s fa (λ x. refl)
          (λ found free g.
            subst
              (λ deps. Rejects (start_each (start_internal {X = X} (suc (suc n))) deps (enter a s)))
              (same found g)
              (around-Rejects b c t deps_b deps_c ib ic later_deps second before n (enter a s) fb fc
                ft rb rc)))
    where
      same :
          (found : List Token)
          → get Token-discrete a s.registry ≡ some found
          → before ++ b ∷ later_deps ≡ found
      same found g = cc
