-- ===== src/Validator/Detection.antt =====
-- The depth-first search for circular dependencies.
use orijs.Common.{
  ℕ, zero, suc, ◌+◌, ◌<◌, ◌≡◌, refl, sym, ap, ◌∙◌, subst, ◌⊎◌, inl, inr, true, false, Option, none,
  some, List, [], ◌∷◌, ◌++◌, Option-cases, length, Bool-cases, All, In, first, later, arith,
}
use orijs.JsMap
use orijs.JsMap.{JsMap, get, contains, add, remove, keys}
use orijs.Container.{Token, Token-discrete}
use orijs.Container.Termination.{room, room-le, room-add-lt}
use orijs.Validator.{
  is_constructor, Search, fresh_search, detect_each, detect_cycles, visit, left, detect_cycle_from,
}
use orijs.Validator.Walks.{Walk, IsCycle, Walk-snoc, add_absent}
use orijs.Validator.Order.{Reaches, uses, through, Sorted-acyclic}
use orijs.Validator.Calls.{
  Ordered, Flawed, flawed, Gives, Ready, add_cycle-Called, visited-Called, Called-refl,
  Called-weaken, Gives-after, Gives-weaken,
}
use orijs.Validator.Visits.{Target, visit_deps-Gives, leave-Called}

module _ (registry : JsMap Token (List Token)) where
  left-Gives :
      (t : Token) (deps : List Token) (v : Search) (r : Option Search)
      → get Token-discrete t registry ≡ some deps
      → contains Token-discrete t v.recursion_stack ≡ false
      → Gives registry (Target registry deps) (visit t v) r
      → Gives registry (λ s. s ≡ t) v (left registry t r)
  left-Gives t deps v none g h c = c
  left-Gives t deps v (some w) g h c = leave-Called registry t deps v w g h c

  -- A search on its way through `t`.
  visited-Ready :
      (t s : Token) (deps : List Token) (v w : Search)
      → get Token-discrete t registry ≡ some deps
      → contains Token-discrete t v.recursion_stack ≡ false
      → Ready registry t v
      → w.recursion_stack ≡ (visit t v).recursion_stack
      → w.path ≡ (visit t v).path
      → Target registry deps s
      → Ready registry s w
  visited-Ready t s deps v w g h r e p (i, c, d) = record {
    in_step = e ∙ add_absent t v.recursion_stack h ∙ ap (λ q. q ++ t ∷ []) r.in_step ∙ sym p;
    walk =
        subst (λ q. Walk registry q s) (sym p)
          (Walk-snoc registry v.path t s r.walk
            (record { deps = deps; declared = g; listed = i; constructed = c; registered = d }));
  }

  registered-deps :
      (t : Token)
      → JsMap.has Token-discrete t registry ≡ true
      → (deps : List Token) × (get Token-discrete t registry ≡ some deps)
  registered-deps t h = elim (Option-cases (get Token-discrete t registry)) [
    | inl e ↦ absurd (ground (arith, e))
    | inr found ↦ found
  ]

  detect_cycle_from-Gives :
      (fuel : ℕ) (t : Token) (v : Search) (deps : List Token)
      → room v.recursion_stack registry < fuel
      → get Token-discrete t registry ≡ some deps
      → Ready registry t v
      → Gives registry (λ s. s ≡ t) v (detect_cycle_from registry fuel t v)
  unfolding detect_cycle_from
  detect_cycle_from-Gives zero t v deps l g r = absurd (omega arith)
  detect_cycle_from-Gives (suc fuel) t v deps l g r =
      elim (Bool-cases (contains Token-discrete t v.recursion_stack)) [
        | inl h ↦ rw h (add_cycle-Called registry t v r h)
        | inr h ↦ elim (Bool-cases (contains Token-discrete t v.visited)) [
          | inl k ↦ rw (h, k) (visited-Called registry t v h k)
          | inr k ↦
              rw (h, k)
                (left-Gives t deps v _ g h (
                  rw g (
                    visit_deps-Gives registry (detect_cycle_from registry fuel) deps (visit t v)
                      (visit t v) refl refl
                      (λ s w e p x.
                        detect_cycle_from-Gives fuel s w (registered-deps s x.2).0 (fewer h w e)
                          (registered-deps s x.2).1 (visited-Ready t s deps v w g h r e p x)))))
        ]
      ]
    where
      fewer :
          contains Token-discrete t v.recursion_stack ≡ false
          → (w : Search) → w.recursion_stack ≡ (visit t v).recursion_stack
          → room w.recursion_stack registry < fuel
      fewer h w e =
          subst (λ s. room s registry < fuel) (sym e)
            (ground (arith, room-add-lt t v.recursion_stack registry deps h g))

  -- The services at which the outer loop makes sure that the search has been.
  abbrev Root : List Token → Token → Type 0
  Root tokens t = In t tokens × (is_constructor t ≡ true)

  detect_each-Gives :
      (fuel : ℕ) (tokens : List Token) (v : Search)
      → length registry < fuel
      → v.recursion_stack ≡ []
      → v.path ≡ []
      → ((t : Token) → In t tokens → JsMap.has Token-discrete t registry ≡ true)
      → Gives registry (Root tokens) v (detect_each registry fuel tokens v)
  unfolding detect_each contains
  detect_each-Gives fuel [] v l e p h =
      Called-weaken registry (λ s. ⊥) (Root []) v v (λ t x. elim x.0 [ ]) (Called-refl registry v)
  detect_each-Gives fuel (d ∷ ds) v l e p h =
      by_kind (Bool-cases (is_constructor d)) (Bool-cases (contains Token-discrete d v.visited))
        (λ w e' p'. detect_each-Gives fuel ds w l e' p' (λ t i. h t (later i)))
    where
      Rest : Type 0
      Rest =
          (w : Search)
          → w.recursion_stack ≡ []
          → w.path ≡ []
          → Gives registry (Root ds) w (detect_each registry fuel ds w)

      split : (t : Token) → Root (d ∷ ds) t → (t ≡ d) ⊎ Root ds t
      split t (first i, c) = inl i
      split t (later i, c) = inr (i, c)

      split_token : is_constructor d ≡ false → (t : Token) → Root (d ∷ ds) t → Root ds t
      split_token c t (first i, x) = absurd (apart (sym x ∙ ap is_constructor i ∙ c))
        where
          apart : true ≡ false → ⊥
          apart a = cc
      split_token c t (later i, x) = (i, x)

      called : Gives registry (λ s. s ≡ d) v (detect_cycle_from registry fuel d v)
      called =
          let (deps, g) = registered-deps d (h d (first refl)) in
          detect_cycle_from-Gives fuel d v deps (ground (arith, room-le v.recursion_stack registry))
            g (record { in_step = e ∙ sym p; walk = subst (λ q. Walk registry q d) (sym p) tt })

      by_call :
          (r : Option Search)
          → Gives registry (λ s. s ≡ d) v r
          → Rest
          → Gives registry
              (Root (d ∷ ds))
              v
              (elim r [ none ↦ none | some w ↦ detect_each registry fuel ds w ])
      by_call none g rest = g
      by_call (some w) g rest =
          Gives-after registry (λ s. s ≡ d) (Root ds) (Root (d ∷ ds)) v w _ split g
            (rest w (g.same_stack ∙ e) (g.same_path ∙ p))

      by_kind :
          (is_constructor d ≡ true) ⊎ (is_constructor d ≡ false)
          → (contains Token-discrete d v.visited ≡ true)
            ⊎ (contains Token-discrete d v.visited ≡ false)
          → Rest
          → Gives registry (Root (d ∷ ds)) v (detect_each registry fuel (d ∷ ds) v)
      by_kind (inl c) (inr k) rest = rw (detect_each, c, k) (by_call _ called rest)
      by_kind (inl c) (inl k) rest =
          rw (detect_each, c, k)
            (Gives-after registry (λ s. s ≡ d) (Root ds) (Root (d ∷ ds)) v v _ split
              (visited-Called registry d v (rw e refl) k) (rest v e p))
      by_kind (inr c) k rest =
          rw (detect_each, c)
            (Gives-weaken registry (Root ds) (Root (d ∷ ds)) v _ (split_token c) (rest v e p))

keys-has :
    (t : Token) (registry : JsMap Token (List Token))
    → In t (keys registry)
    → JsMap.has Token-discrete t registry ≡ true
unfolding get
keys-has t [] i = elim i [ ]
keys-has t ((k, v) ∷ m) (first e) = ground (arith, e)
keys-has t ((k, v) ∷ m) (later i) = ground (arith, keys-has t m i)

has-keys :
    (t : Token) (registry : JsMap Token (List Token))
    → JsMap.has Token-discrete t registry ≡ true
    → In t (keys registry)
unfolding get
has-keys t [] h = absurd cc
has-keys t ((k, v) ∷ m) h = elim (Token-discrete k t) [
  | yes e ↦ first (sym e)
  | no n ↦ later (has-keys t m (ground arith))
]

reached-Root :
    (registry : JsMap Token (List Token)) (a b : Token)
    → Reaches registry a b
    → Root registry (keys registry) b
reached-Root registry a b (uses u) = (has-keys b registry u.registered, u.constructed)
reached-Root registry a b (through r u) = (has-keys b registry u.registered, u.constructed)

-- The search ends on every dependency graph. Each cycle that it reports is a closed walk along the
-- registered dependencies, and either it reports none and no service uses itself, directly or not,
-- or it reports at least one.
pub detect_cycles_decides :
    (registry : JsMap Token (List Token))
    → (v : Search) × (detect_cycles registry ≡ some v)
      × All (IsCycle registry) v.cycles
      × (((v.cycles ≡ []) × ((t : Token) → ¬ (Reaches registry t t)))
          ⊎ ((c : List Token) × (cs : List (List Token)) × (v.cycles ≡ c ∷ cs)))
unfolding detect_cycles contains
detect_cycles_decides registry = by_result (detect_cycles registry) refl (
    detect_each-Gives registry (length registry + 2) (keys registry) fresh_search (omega arith) refl
      refl (λ t i. keys-has t registry i))
  where
    Verdict : Search → Type 0
    Verdict v =
        ((v.cycles ≡ []) × ((t : Token) → ¬ (Reaches registry t t)))
        ⊎ ((c : List Token) × (cs : List (List Token)) × (v.cycles ≡ c ∷ cs))

    sorted :
        (v : Search)
        → Flawed v
          ⊎ ((new : List Token) × Ordered registry (new ++ []) v
              × ((t : Token) → Root registry (keys registry) t → In t (new ++ [])))
        → (cs : List (List Token)) → v.cycles ≡ cs
        → Verdict v
    sorted v x (c ∷ cs) e = inr (c, cs, e)
    sorted v (inl (flawed c cs f)) [] e = inr (c, cs, f)
    sorted v (inr (new, o, k)) [] e = inl (
      e,
      λ t r. Sorted-acyclic registry (new ++ []) t o.sorted (k t (reached-Root registry t t r)) r,
    )

    by_result :
        (r : Option Search)
        → detect_cycles registry ≡ r
        → Gives registry (Root registry (keys registry)) fresh_search r
        → (v : Search) × (detect_cycles registry ≡ some v)
          × All (IsCycle registry) v.cycles
          × Verdict v
    by_result none e g = elim g [ ]
    by_result (some v) e g = (
      v,
      e,
      g.real tt,
      sorted v (g.orders [] (record { sorted = tt; finished = λ t h. absurd cc })) v.cycles refl,
    )
