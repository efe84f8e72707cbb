-- ===== src/Validator/Calls.antt =====
-- What one call of the depth-first search does: it restores the stack and the path, all cycles that
-- it adds are real, and without one it sorts the services that it has finished.
use orijs.Common.{
  ℕ, ◌≡◌, refl, sym, ap, ◌∙◌, subst, ◌⊎◌, inl, inr, true, false, Option, none, some, List, [], ◌∷◌,
  ◌++◌, drop, All, All-append, In, In-append_right,
}
use mathlib.Core.List.{append_assoc}
use orijs.JsMap.{JsMap, contains}
use orijs.Container.{Token, Token-discrete}
use orijs.Validator.{index_of, Search, add_cycle}
use orijs.Validator.Walks.{Walk, IsCycle, CutAt, index_of-CutAt}
use orijs.Validator.Order.{Sorted}

-- Some cycle has been reported.
pub data Flawed (v : Search) : Type 0 where
  flawed : (c : List Token) (cs : List (List Token)) → v.cycles ≡ c ∷ cs → Flawed v

module _ (registry : JsMap Token (List Token)) where
  -- The finished services in order, without those on the stack.
  pub record Ordered (done : List Token) (v : Search) : Type 0 where
    pub sorted : Sorted registry done
    pub finished :
        (t : Token)
        → contains Token-discrete t v.visited ≡ true
        → (contains Token-discrete t v.recursion_stack ≡ true) ⊎ In t done

  -- After it has been called at the services in `ts`.
  pub record Called (ts : Token → Type 0) (v w : Search) : Type 0 where
    pub same_stack : w.recursion_stack ≡ v.recursion_stack
    pub same_path : w.path ≡ v.path
    pub real : All (IsCycle registry) v.cycles → All (IsCycle registry) w.cycles
    pub stays : Flawed v → Flawed w
    pub orders :
        (done : List Token)
        → Ordered done v
        → Flawed w
          ⊎ ((new : List Token) × Ordered (new ++ done) w
              × ((t : Token) → ts t → In t (new ++ done)))

  abbrev pub Gives : (Token → Type 0) → Search → Option Search → Type 0
  Gives ts v none = ⊥
  Gives ts v (some w) = Called ts v w

  -- A search that may call at `t`.
  pub record Ready (t : Token) (v : Search) : Type 0 where
    pub in_step : v.recursion_stack ≡ v.path
    pub walk : Walk registry v.path t

  -- Something is at the end of the cycles.
  snoc-Flawed :
      (cs : List (List Token)) (c : List Token) (w : Search) → w.cycles ≡ cs ++ c ∷ [] → Flawed w
  snoc-Flawed [] c w e = flawed c [] e
  snoc-Flawed (d ∷ cs) c w e = flawed d (cs ++ c ∷ []) e

  pub add_cycle-Called :
      (t : Token) (v : Search)
      → Ready t v
      → contains Token-discrete t v.recursion_stack ≡ true
      → Called (λ s. s ≡ t) v (add_cycle t v)
  unfolding add_cycle
  add_cycle-Called t v r h =
      rw (add_cycle, at_index)
        (record {
          same_stack = refl;
          same_path = refl;
          real = λ a. All-append _ v.cycles (cycle ∷ []) a (is_cycle, tt);
          stays = λ f. snoc-Flawed v.cycles cycle after refl;
          orders = λ done o. inl (snoc-Flawed v.cycles cycle after refl);
        })
    where
      found : (i : ℕ) × (index_of t v.path ≡ some i) × CutAt registry t v.path i
      found =
          index_of-CutAt registry t v.path
            (subst (λ s. contains Token-discrete t s ≡ true) r.in_step h) r.walk

      cycle : List Token
      cycle = drop found.0 v.path ++ t ∷ []

      is_cycle : IsCycle registry cycle
      is_cycle = (t, found.2.0, ap (λ p. p ++ t ∷ []) found.2.1, found.2.2)

      at_index : index_of t v.path ≡ some found.0
      at_index = found.1

      after : Search
      after = record v { cycles = v.cycles ++ cycle ∷ [] }

  -- A service that was finished before.
  pub visited-Called :
      (t : Token) (v : Search)
      → contains Token-discrete t v.recursion_stack ≡ false
      → contains Token-discrete t v.visited ≡ true
      → Called (λ s. s ≡ t) v v
  visited-Called t v h k = record {
    same_stack = refl;
    same_path = refl;
    real = λ a. a;
    stays = λ f. f;
    orders = λ done o.
        inr ([], o, λ s e. subst (λ s. In s done) (sym e) (is_done done (o.finished t k)));
  }
    where
      is_done :
          (done : List Token)
          → (contains Token-discrete t v.recursion_stack ≡ true) ⊎ In t done
          → In t done
      is_done done (inl e) = absurd cc
      is_done done (inr i) = i

  pub Called-refl : (v : Search) → Called (λ s. ⊥) v v
  Called-refl v = record {
    same_stack = refl;
    same_path = refl;
    real = λ a. a;
    stays = λ f. f;
    orders = λ done o. inr ([], o, λ s e. elim e [ ]);
  }

  pub Called-trans :
      (ts us both : Token → Type 0) (u v w : Search)
      → ((t : Token) → both t → ts t ⊎ us t)
      → Called ts u v
      → Called us v w
      → Called both u w
  Called-trans ts us both u v w h a b = record {
    same_stack = b.same_stack ∙ a.same_stack;
    same_path = b.same_path ∙ a.same_path;
    real = λ x. b.real (a.real x);
    stays = λ f. b.stays (a.stays f);
    orders = λ done o. by_first done (a.orders done o);
  }
    where
      Sorts : (Token → Type 0) → List Token → Search → Type 0
      Sorts rs done x =
          (new : List Token) × Ordered (new ++ done) x × ((t : Token) → rs t → In t (new ++ done))

      join :
          (done new rest : List Token) (t : Token)
          → both t
          → ((t : Token) → ts t → In t (new ++ done))
          → ((t : Token) → us t → In t (rest ++ (new ++ done)))
          → ts t ⊎ us t
          → In t (rest ++ (new ++ done))
      join done new rest t x k l (inl i) = In-append_right rest (new ++ done) (k t i)
      join done new rest t x k l (inr i) = l t i

      by_second :
          (done new : List Token)
          → ((t : Token) → ts t → In t (new ++ done))
          → Flawed w ⊎ Sorts us (new ++ done) w
          → Flawed w ⊎ Sorts both done w
      by_second done new k (inl f) = inl f
      by_second done new k (inr (rest, o, l)) = inr (
        rest ++ new,
        subst (λ d. Ordered d w) (sym (append_assoc rest new done)) o,
        λ t x.
            subst (λ d. In t d) (sym (append_assoc rest new done))
              (join done new rest t x k l (h t x)),
      )

      by_first : (done : List Token) → Flawed v ⊎ Sorts ts done v → Flawed w ⊎ Sorts both done w
      by_first done (inl f) = inl (b.stays f)
      by_first done (inr (new, o, k)) = by_second done new k (b.orders (new ++ done) o)

  pub Called-weaken :
      (ts us : Token → Type 0) (v w : Search)
      → ((t : Token) → us t → ts t)
      → Called ts v w
      → Called us v w
  Called-weaken ts us v w h c =
      Called-trans ts (λ s. ⊥) us v w w (λ t x. inl (h t x)) c (Called-refl w)

  pub Gives-after :
      (ts us both : Token → Type 0) (v w : Search) (r : Option Search)
      → ((t : Token) → both t → ts t ⊎ us t)
      → Called ts v w
      → Gives us w r
      → Gives both v r
  Gives-after ts us both v w none h c g = g
  Gives-after ts us both v w (some x) h c g = Called-trans ts us both v w x h c g

  pub Gives-weaken :
      (ts us : Token → Type 0) (v : Search) (r : Option Search)
      → ((t : Token) → us t → ts t)
      → Gives ts v r
      → Gives us v r
  Gives-weaken ts us v none h g = g
  Gives-weaken ts us v (some w) h g = Called-weaken ts us v w h g
