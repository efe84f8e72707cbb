-- ===== src/Container/Async/Calls.antt =====
-- The calls that an asynchronous resolution of container.ts starts at once.
use orijs.Common.{
  ◌≡◌, ◌∙◌, refl, true, Option, none, some, List, [], ◌∷◌, ◌⊎◌, inl, inr, is_some, In, first, later,
}
use orijs.JsMap.{contains}
use orijs.Container.{Token, Token-discrete, Container}
use orijs.Container.Async.{Started, first_of, start_each}

pub first_of_left :
    {X : Type 0} (e e' : Option X) → is_some e ≡ true → is_some (first_of e e') ≡ true
first_of_left (some e) e' h = refl
first_of_left none e' h = cc

pub first_of_right :
    {X : Type 0} (e e' : Option X) → is_some e' ≡ true → is_some (first_of e e') ≡ true
first_of_right (some e) e' h = refl
first_of_right none e' h = h

module _ {V X : Type 0} where
  -- The call was rejected, or it has marked the service.
  abbrev pub Marks : Token → Started V X → Type 0
  Marks t (c, e) = (is_some e ≡ true) ⊎ (contains Token-discrete t c.resolving ≡ true)

  abbrev pub Rejects : Started V X → Type 0
  Rejects (c, e) = is_some e ≡ true

  abbrev pub Same : Container V → Started V X → Type 0
  Same c r = (r.0.instances ≡ c.instances) × (r.0.registry ≡ c.registry)

  -- What the induction on the fuel gives for the calls below.
  pub record Calls (f : Token → Container V → Started V X) : Type 0 where
    pub same : (t : Token) (c : Container V) → Same c (f t c)
    pub grows :
        (s t : Token) (c : Container V)
        → contains Token-discrete s c.resolving ≡ true
        → contains Token-discrete s (f t c).0.resolving ≡ true

  module _ (f : Token → Container V → Started V X) (k : Calls f) where
    pub start_each-same : (deps : List Token) (c : Container V) → Same c (start_each f deps c)
    unfolding start_each
    start_each-same [] c = (refl, refl)
    start_each-same (dep ∷ deps) c =
        let (i, r) = start_each-same deps (f dep c).0 in
        (i ∙ (k.same dep c).0, r ∙ (k.same dep c).1)

    pub start_each-grows :
        (s : Token) (deps : List Token) (c : Container V)
        → contains Token-discrete s c.resolving ≡ true
        → contains Token-discrete s (start_each f deps c).0.resolving ≡ true
    unfolding start_each
    start_each-grows s [] c h = h
    start_each-grows s (dep ∷ deps) c h = start_each-grows s deps (f dep c).0 (k.grows s dep c h)

    -- A property of the container that the calls keep holds at the call for the dependency `t`.
    pub start_each-Marks :
        (s t : Token) (deps : List Token) (c : Container V)
        → In t deps
        → ((d : Container V)
            → d.instances ≡ c.instances
            → d.registry ≡ c.registry
            → Marks s (f t d))
        → Marks s (start_each f deps c)
    unfolding start_each
    start_each-Marks s t (dep ∷ deps) c (first e) h = by_call (h c refl refl)
      where
        by_call : Marks s (f t c) → Marks s (start_each f (dep ∷ deps) c)
        by_call (inl x) = inl (rw (← e) (first_of_left (f t c).1 _ x))
        by_call (inr x) = inr (rw (← e) (start_each-grows s deps (f t c).0 x))
    start_each-Marks s t (dep ∷ deps) c (later m) h = by_rest (
        start_each-Marks s t deps (f dep c).0 m
          (λ d i r. h d (i ∙ (k.same dep c).0) (r ∙ (k.same dep c).1)))
      where
        by_rest : Marks s (start_each f deps (f dep c).0) → Marks s (start_each f (dep ∷ deps) c)
        by_rest (inl x) = inl (first_of_right (f dep c).1 _ x)
        by_rest (inr x) = inr x
    start_each-Marks s t [] c m h = elim m [ ]

    pub start_each-Rejects :
        (s t : Token) (deps : List Token) (c : Container V)
        → In t deps
        → contains Token-discrete s c.resolving ≡ true
        → ((d : Container V)
            → d.instances ≡ c.instances
            → d.registry ≡ c.registry
            → contains Token-discrete s d.resolving ≡ true
            → Rejects (f t d))
        → Rejects (start_each f deps c)
    unfolding start_each
    start_each-Rejects s t (dep ∷ deps) c (first e) g h =
        rw (← e) (first_of_left (f t c).1 _ (h c refl refl g))
    start_each-Rejects s t (dep ∷ deps) c (later m) g h = first_of_right (f dep c).1 _ (
        start_each-Rejects s t deps (f dep c).0 m (k.grows s dep c g)
          (λ d i r. h d (i ∙ (k.same dep c).0) (r ∙ (k.same dep c).1)))
    start_each-Rejects s t [] c m g h = elim m [ ]
