-- ===== src/Validator/Clean.antt =====
-- What `validate` has found when it throws no error.
use orijs.Common.{
  append-is_nil, ℕ, ◌≡◌, refl, sym, ◌∙◌, subst, ◌⊎◌, inl, inr, Bool, true, false, not, ◌||◌, none,
  some, List, [], ◌∷◌, ◌++◌, map, String, Bool-cases, In, first, later, arith,
}
use orijs.JsMap
use orijs.JsMap.{JsMap, get, contains}
use orijs.Container.{Token, Token-discrete}
use orijs.Validator.{
  ValidationError, is_constructor, Search, detect_cycles, check_deps, check_registered, check_count,
  collected, validate,
}
use orijs.Validator.Order.{Reaches}
use orijs.Validator.Detection.{detect_cycles_decides}

map-is_nil : {A B : Type 0} (f : A → B) (xs : List A) → map f xs ≡ [] → xs ≡ []
map-is_nil f [] e = refl
map-is_nil f (x ∷ xs) e = cc

check_deps-clean :
    (registry : JsMap Token (List Token)) (service dep : Token) (deps : List Token)
    → check_deps registry service deps ≡ []
    → In dep deps
    → JsMap.has Token-discrete dep registry ≡ true
unfolding check_deps
check_deps-clean registry service dep [] e i = elim i [ ]
check_deps-clean registry service dep (d ∷ ds) e (first q) = ground (arith, q)
check_deps-clean registry service dep (d ∷ ds) e (later i) =
    ground (arith, check_deps-clean registry service dep ds)

pub check_registered-clean :
    {V : Type 0} (parameters : Token → ℕ) (instances : JsMap Token V)
    (registry entries : JsMap Token (List Token)) (t dep : Token) (deps : List Token)
    → check_registered parameters instances registry entries ≡ []
    → get Token-discrete t entries ≡ some deps
    → is_constructor t ≡ true
    → get Token-discrete t instances ≡ none
    → In dep deps
    → JsMap.has Token-discrete dep registry ≡ true
unfolding check_registered get
check_registered-clean parameters instances registry [] t dep deps e g c n i = absurd cc
check_registered-clean parameters instances registry ((k, ds) ∷ m) t dep deps e g c n i =
    elim (Token-discrete k t) [
      | yes q ↦
          check_deps-clean registry k dep ds (entry_clean (checked q))
            (subst (In dep) (sym (found q)) i)
      | no q ↦
          check_registered-clean parameters instances registry m t dep deps
            (rest_clean (Bool-cases (skipped k))) (ground (arith, g)) c n i
    ]
  where
    skipped : Token → Bool
    skipped k = not (is_constructor k) || JsMap.has Token-discrete k instances

    found : k ≡ t → ds ≡ deps
    found q = ground (arith, g)

    checked : k ≡ t → skipped k ≡ false
    checked q = subst (λ x. skipped x ≡ false) (sym q) (ground (arith, c, n))

    errors : List ValidationError
    errors = check_deps registry k ds ++ check_count (parameters k) k ds

    rest : List ValidationError
    rest = check_registered parameters instances registry m

    split : skipped k ≡ false → (errors ≡ []) × (rest ≡ [])
    split q = append-is_nil errors rest (sym (rw (check_registered, q) refl) ∙ e)

    entry_clean : skipped k ≡ false → check_deps registry k ds ≡ []
    entry_clean q =
        (append-is_nil (check_deps registry k ds) (check_count (parameters k) k ds) (split q).0).0

    rest_clean : (skipped k ≡ true) ⊎ (skipped k ≡ false) → rest ≡ []
    rest_clean (inl q) = sym (rw (check_registered, q) refl) ∙ e
    rest_clean (inr q) = (split q).1

pub valid-inversion :
    {V : Type 0} (parameters : Token → ℕ) (resolves : String → Bool)
    (registry : JsMap Token (List Token)) (instances : JsMap Token V)
    (external_deps : JsMap Token (List String)) (cache cache' : JsMap String Bool)
    → validate parameters resolves registry instances external_deps cache ≡ some ([], cache')
    → (check_registered parameters instances registry registry ≡ [])
      × ((t : Token) → ¬ (Reaches registry t t))
unfolding validate
valid-inversion parameters resolves registry instances external_deps cache cache' e =
    let (v, found, real, verdict) = detect_cycles_decides registry in by_verdict v found verdict
  where
    clean :
        (v : Search)
        → detect_cycles registry ≡ some v
        → (collected parameters resolves registry instances external_deps cache v).0 ≡ []
    clean v f =
        same (collected parameters resolves registry instances external_deps cache v)
          (sym (rw (validate, f) refl) ∙ e)
      where
        same :
            (x : List ValidationError × JsMap String Bool) → some x ≡ some ([], cache') → x.0 ≡ []
        same x h = cc

    parts :
        (v : Search)
        → detect_cycles registry ≡ some v
        → (check_registered parameters instances registry registry ≡ []) × (v.cycles ≡ [])
    parts v f =
        let (front, _) =
          append-is_nil
            (check_registered parameters instances registry registry
              ++ map ValidationError.circular_dependency v.cycles)
            _ (clean v f) in
        let (errors, cycles) =
          append-is_nil (check_registered parameters instances registry registry) _ front in
        (errors, map-is_nil _ v.cycles cycles)

    by_verdict :
        (v : Search)
        → detect_cycles registry ≡ some v
        → ((v.cycles ≡ []) × ((t : Token) → ¬ (Reaches registry t t)))
          ⊎ ((c : List Token) × (cs : List (List Token)) × (v.cycles ≡ c ∷ cs))
        → (check_registered parameters instances registry registry ≡ [])
          × ((t : Token) → ¬ (Reaches registry t t))
    by_verdict v f (inl (_, acyclic)) = ((parts v f).0, acyclic)
    by_verdict v f (inr (c, cs, h)) = absurd (apart (sym h ∙ (parts v f).1))
      where
        apart : c ∷ cs ≡ [] → ⊥
        apart a = cc
