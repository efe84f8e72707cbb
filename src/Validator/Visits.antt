-- ===== src/Validator/Visits.antt =====
-- One visit of a service: the loop over its dependencies, and the end of it.
use orijs.Common.{
  ◌≡◌, refl, sym, ap, ◌∙◌, subst, ◌⊎◌, inl, inr, true, false, ◌&&◌, Option, none, some, List, [],
  ◌∷◌, ◌++◌, Bool-cases, In, first, later, arith,
}
use orijs.JsMap
use orijs.JsMap.{JsMap, get, contains, add, remove}
use orijs.JsMap.Laws.{contains-add, contains-remove, remove-add}
use orijs.Container.{Token, Token-discrete}
use orijs.Validator.{is_constructor, pop, Search, visit, leave, visit_deps}
use orijs.Validator.Walks.{Uses, pop-snoc}
use orijs.Validator.Calls.{
  Ordered, Flawed, flawed, Called, Gives, Called-refl, Called-weaken, Gives-after, Gives-weaken,
}

module _ (registry : JsMap Token (List Token)) where
  -- The dependencies that are followed.
  abbrev pub Target : List Token → Token → Type 0
  Target deps t =
      In t deps × (is_constructor t ≡ true) × (JsMap.has Token-discrete t registry ≡ true)

  abbrev CallsAt : (Token → Search → Option Search) → List Token → Search → Type 0
  CallsAt f deps u =
      (t : Token) (v : Search)
      → v.recursion_stack ≡ u.recursion_stack
      → v.path ≡ u.path
      → Target deps t
      → Gives registry (λ s. s ≡ t) v (f t v)

  pub visit_deps-Gives :
      (f : Token → Search → Option Search) (deps : List Token) (u v : Search)
      → v.recursion_stack ≡ u.recursion_stack
      → v.path ≡ u.path
      → CallsAt f deps u
      → Gives registry (Target deps) v (visit_deps registry f deps v)
  unfolding visit_deps
  visit_deps-Gives f [] u v e p h =
      Called-weaken registry (λ s. ⊥) (Target []) v v (λ t x. elim x.0 [ ]) (Called-refl registry v)
  visit_deps-Gives f (d ∷ ds) u v e p h =
      by_test (Bool-cases (is_constructor d && JsMap.has Token-discrete d registry)) (λ w e' p'.
        visit_deps-Gives f ds u w e' p' (λ t x q q' k. h t x q q' (later k.0, k.1, k.2)))
    where
      Rest : Type 0
      Rest =
          (w : Search)
          → w.recursion_stack ≡ u.recursion_stack
          → w.path ≡ u.path
          → Gives registry (Target ds) w (visit_deps registry f ds w)

      split : (t : Token) → Target (d ∷ ds) t → (t ≡ d) ⊎ Target ds t
      split t (first i, c, r) = inl i
      split t (later i, c, r) = inr (i, c, r)

      by_call :
          (r : Option Search)
          → Gives registry (λ s. s ≡ d) v r
          → Rest
          → Gives registry
              (Target (d ∷ ds))
              v
              (elim r [ none ↦ none | some w ↦ visit_deps registry f ds w ])
      by_call none g rest = g
      by_call (some w) g rest =
          Gives-after registry (λ s. s ≡ d) (Target ds) (Target (d ∷ ds)) v w _ split g
            (rest w (g.same_stack ∙ e) (g.same_path ∙ p))

      skip :
          is_constructor d && JsMap.has Token-discrete d registry ≡ false
          → (t : Token) → (t ≡ d) ⊎ Target ds t
          → (is_constructor t ≡ true) × (JsMap.has Token-discrete t registry ≡ true)
          → Target ds t
      skip q t (inl i) (c, r) = absurd (
          apart (
            sym (both t c r)
            ∙ ap (λ x. is_constructor x && JsMap.has Token-discrete x registry) i
            ∙ q))
        where
          both :
              (x : Token)
              → is_constructor x ≡ true
              → JsMap.has Token-discrete x registry ≡ true
              → is_constructor x && JsMap.has Token-discrete x registry ≡ true
          both x c r = ground (arith, c, r)

          apart : true ≡ false → ⊥
          apart a = cc
      skip q t (inr k) c = k

      by_test :
          (is_constructor d && JsMap.has Token-discrete d registry ≡ true)
            ⊎ (is_constructor d && JsMap.has Token-discrete d registry ≡ false)
          → Rest
          → Gives registry (Target (d ∷ ds)) v (visit_deps registry f (d ∷ ds) v)
      by_test (inl q) rest =
          rw (visit_deps, q)
            (by_call (f d v) (h d v e p (first refl, ground (arith, q), ground (arith, q))) rest)
      by_test (inr q) rest =
          rw (visit_deps, q)
            (Gives-weaken registry (Target ds) (Target (d ∷ ds)) v _
              (λ t k. skip q t (split t k) (k.1, k.2)) (rest v e p))

  pub leave-Called :
      (t : Token) (deps : List Token) (v w : Search)
      → get Token-discrete t registry ≡ some deps
      → contains Token-discrete t v.recursion_stack ≡ false
      → Called registry (Target deps) (visit t v) w
      → Called registry (λ s. s ≡ t) v (leave t w)
  leave-Called t deps v w g h c = record {
    same_stack =
        ap (remove Token-discrete t) c.same_stack ∙ remove-add Token-discrete t v.recursion_stack h;
    same_path = ap pop c.same_path ∙ pop-snoc v.path t;
    real = c.real;
    stays = λ f. left_flawed (c.stays (entered f));
    orders = λ done o. by_deps done (c.orders done (enter_ordered done o));
  }
    where
      left_flawed : Flawed w → Flawed (leave t w)
      left_flawed (flawed x xs e) = flawed x xs e

      entered : Flawed v → Flawed (visit t v)
      entered (flawed x xs e) = flawed x xs e

      enter_ordered :
          (done : List Token) → Ordered registry done v → Ordered registry done (visit t v)
      enter_ordered done o = record {
        sorted = o.sorted;
        finished = λ x k. ground (
          arith,
          o.finished x,
          contains-add Token-discrete x t v.visited,
          contains-add Token-discrete x t v.recursion_stack,
        );
      }

      now_finished :
          (done : List Token) (x : Token)
          → (contains Token-discrete x w.recursion_stack ≡ true) ⊎ In x done
          → (contains Token-discrete x (leave t w).recursion_stack ≡ true) ⊎ In x (t ∷ done)
      now_finished done x (inr i) = inr (later i)
      now_finished done x (inl k) = elim (Token-discrete t x) [
        | yes e ↦ inr (first (sym e))
        | no n ↦ inl (ground (arith, contains-remove Token-discrete x t w.recursion_stack))
      ]

      by_deps :
          (done : List Token)
          → Flawed w
            ⊎ ((new : List Token) × Ordered registry (new ++ done) w
                × ((s : Token) → Target deps s → In s (new ++ done)))
          → Flawed (leave t w)
            ⊎ ((new : List Token) × Ordered registry (new ++ done) (leave t w)
                × ((s : Token) → s ≡ t → In s (new ++ done)))
      by_deps done (inl f) = inl (left_flawed f)
      by_deps done (inr (new, o, k)) = inr (
        t ∷ new,
        record {
          sorted = (λ b u. k b (target b u), o.sorted);
          finished = λ x q. now_finished (new ++ done) x (o.finished x q);
        },
        λ s e. first e,
      )
        where
          target : (b : Token) → Uses registry t b → Target deps b
          target b u = (
            subst (In b) (same u.deps (sym u.declared ∙ g)) u.listed,
            u.constructed,
            u.registered,
          )
            where
              same : (ds : List Token) → some ds ≡ some deps → ds ≡ deps
              same ds e = cc
