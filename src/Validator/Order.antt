-- ===== src/Validator/Order.antt =====
-- An order of services in which each comes before what it uses shows that nothing uses itself.
use orijs.Common.{subst, List, [], ◌∷◌, In, first, later}
use orijs.JsMap.{JsMap}
use orijs.Container.{Token}
use orijs.Validator.Walks.{Uses}

-- The first service uses the second one, directly or not.
pub data Reaches (registry : JsMap Token (List Token)) (a : Token) : Token → Type 0 where
  uses : {b : Token} → Uses registry a b → Reaches registry a b
  through : {b c : Token} → Reaches registry a b → Uses registry b c → Reaches registry a c

module _ (registry : JsMap Token (List Token)) where
  -- Each service comes before all those that it uses.
  abbrev pub Sorted : List Token → Type 0
  Sorted [] = Unit
  Sorted (a ∷ ts) = ((b : Token) → Uses registry a b → In b ts) × Sorted ts

  Uses-In : (ts : List Token) (a b : Token) → Sorted ts → In a ts → Uses registry a b → In b ts
  Uses-In [] a b s i u = elim i [ ]
  Uses-In (c ∷ ts) a b (h, s) (first e) u = later (h b (subst (λ x. Uses registry x b) e u))
  Uses-In (c ∷ ts) a b (h, s) (later i) u = later (Uses-In ts a b s i u)

  Reaches-In :
      (ts : List Token) (a b : Token) → Sorted ts → In a ts → Reaches registry a b → In b ts
  Reaches-In ts a b s i (uses u) = Uses-In ts a b s i u
  Reaches-In ts a b s i (through {b = c} r u) = Uses-In ts c b s (Reaches-In ts a c s i r) u

  below-In :
      (ts : List Token) (a b : Token)
      → ((c : Token) → Uses registry a c → In c ts)
      → Sorted ts
      → Reaches registry a b
      → In b ts
  below-In ts a b h s (uses u) = h b u
  below-In ts a b h s (through {b = c} r u) = Uses-In ts c b s (below-In ts a c h s r) u

  pub Sorted-acyclic :
      (ts : List Token) (a : Token) → Sorted ts → In a ts → ¬ (Reaches registry a a)
  Sorted-acyclic [] a s i r = elim i [ ]
  Sorted-acyclic (c ∷ ts) a (h, s) (first e) r =
      Sorted-acyclic ts a s (below-In ts a a (λ b u. h b (subst (λ x. Uses registry x b) e u)) s r)
        r
  Sorted-acyclic (c ∷ ts) a (h, s) (later i) r = Sorted-acyclic ts a s i r
