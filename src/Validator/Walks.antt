-- ===== src/Validator/Walks.antt =====
-- Walks along the registered dependencies, and the cycles that the validator reports.
use orijs.Common.{
  ℕ, suc, ◌≡◌, refl, ap, subst, true, false, some, List, [], ◌∷◌, ◌++◌, drop, In, arith,
}
use orijs.JsMap
use orijs.JsMap.{JsMap, get, contains, add}
use orijs.Container.{Token, Token-discrete}
use orijs.Validator.{is_constructor, index_of, pop}

-- A registered service declares the second one, which is registered too and has a constructor.
pub record Uses (registry : JsMap Token (List Token)) (a b : Token) : Type 0 where
  pub deps : List Token
  pub declared : get Token-discrete a registry ≡ some deps
  pub listed : In b deps
  pub constructed : is_constructor b ≡ true
  pub registered : JsMap.has Token-discrete b registry ≡ true

module _ (registry : JsMap Token (List Token)) where
  -- Each service uses the next one, and the last one uses `t`.
  abbrev pub Walk : List Token → Token → Type 0
  Walk [] t = Unit
  Walk (s ∷ []) t = Uses registry s t
  Walk (s ∷ s' ∷ p) t = Uses registry s s' × Walk (s' ∷ p) t

  -- A walk that comes back to its start, which is named at both ends.
  abbrev pub IsCycle : List Token → Type 0
  IsCycle c = (s : Token) × (p : List Token) × (c ≡ (s ∷ p) ++ s ∷ []) × Walk (s ∷ p) s

  pub Walk-snoc :
      (p : List Token) (s t : Token) → Walk p s → Uses registry s t → Walk (p ++ s ∷ []) t
  Walk-snoc [] s t w u = u
  Walk-snoc (a ∷ []) s t w u = (w, u)
  Walk-snoc (a ∷ b ∷ p) s t (w, ws) u = (w, Walk-snoc (b ∷ p) s t ws u)

  -- A walk to a service that it has passed is cut to a cycle.
  abbrev pub CutAt : Token → List Token → ℕ → Type 0
  CutAt t p i = (q : List Token) × (drop i p ≡ t ∷ q) × Walk (t ∷ q) t

  Walk-tail : (a : Token) (p : List Token) (t : Token) → Walk (a ∷ p) t → Walk p t
  Walk-tail a [] t w = tt
  Walk-tail a (b ∷ p) t w = w.1

  pub index_of-CutAt :
      (t : Token) (p : List Token)
      → contains Token-discrete t p ≡ true
      → Walk p t
      → (i : ℕ) × (index_of t p ≡ some i) × CutAt t p i
  unfolding index_of contains
  index_of-CutAt t [] h w = absurd cc
  index_of-CutAt t (a ∷ p) h w = elim (Token-discrete a t) [
    | yes e ↦ (0, ground arith, (p, ap (λ s. s ∷ p) e, subst (λ s. Walk (s ∷ p) t) e w))
    | no n ↦
        let (i, f, cut) = index_of-CutAt t p (ground arith) (Walk-tail a p t w) in
        (suc i, ground arith, cut)
  ]

pub pop-snoc : (p : List Token) (t : Token) → pop (p ++ t ∷ []) ≡ p
unfolding pop
pop-snoc [] t = refl
pop-snoc (a ∷ []) t = refl
pop-snoc (a ∷ b ∷ p) t = ap (λ q. a ∷ q) (pop-snoc (b ∷ p) t)

pub add_absent :
    (t : Token) (s : List Token)
    → contains Token-discrete t s ≡ false
    → add Token-discrete t s ≡ s ++ t ∷ []
unfolding add contains
add_absent t [] h = refl
add_absent t (j ∷ s) h = ground (arith, add_absent t s)
