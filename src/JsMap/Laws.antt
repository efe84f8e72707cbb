-- ===== src/JsMap/Laws.antt =====
-- Laws of the maps and sets, each in the form of a conditional.
use orijs.Common.{
  ◌+◌, ◌≤◌, ◌≡◌, refl, sym, ◌∙◌, ◌≢◌, ◌⊎◌, inl, inr, false, not, ◌&&◌, ◌||◌, none, some, List, [],
  ◌∷◌, ite, arith, length, holds,
}
use orijs.JsMap.{JsMap, get, set, delete, contains, add, remove}

module _ {ℓ} {K V : Type ℓ} (dec : Discrete K) where
  pub get-set :
      (j k : K) (v : V) (m : JsMap K V)
      → get dec j (set dec k v m) ≡ ite (dec k j) (some v) (get dec j m)
  unfolding get set
  get-set j k v [] = refl
  get-set j k v ((i, w) ∷ m) = ground (arith, get-set j k v m)

  pub get-delete :
      (j k : K) (m : JsMap K V) → get dec j (delete dec k m) ≡ ite (dec k j) none (get dec j m)
  unfolding get delete
  get-delete j k [] = ground arith
  get-delete j k ((i, w) ∷ m) = ground (arith, get-delete j k m)

  pub get-set_self : (k : K) (v : V) (m : JsMap K V) → get dec k (set dec k v m) ≡ some v
  get-set_self k v m = ground (arith, get-set k k v m)

  pub get-set_ne :
      (j k : K) (v : V) (m : JsMap K V) → k ≢ j → get dec j (set dec k v m) ≡ get dec j m
  get-set_ne j k v m h = ground (arith, get-set j k v m)

  pub get-delete_self : (k : K) (m : JsMap K V) → get dec k (delete dec k m) ≡ none
  get-delete_self k m = ground (arith, get-delete k k m)

  pub get-delete_ne : (j k : K) (m : JsMap K V) → k ≢ j → get dec j (delete dec k m) ≡ get dec j m
  get-delete_ne j k m h = ground (arith, get-delete j k m)

  -- Where a key of a changed map comes from.
  pub get-set_inversion :
      (j k : K) (v w : V) (m : JsMap K V)
      → get dec j (set dec k v m) ≡ some w
      → ((k ≡ j) × (v ≡ w)) ⊎ ((k ≢ j) × (get dec j m ≡ some w))
  get-set_inversion j k v w m h = by_dec (dec k j) (sym (get-set j k v m) ∙ h)
    where
      by_dec :
          (d : Dec (k ≡ j))
          → ite d (some v) (get dec j m) ≡ some w
          → ((k ≡ j) × (v ≡ w)) ⊎ ((k ≢ j) × (get dec j m ≡ some w))
      by_dec (yes e) h = inl (e, cc)
      by_dec (no n) h = inr (n, h)

  pub get-delete_inversion :
      (j k : K) (w : V) (m : JsMap K V)
      → get dec j (delete dec k m) ≡ some w
      → (k ≢ j) × (get dec j m ≡ some w)
  get-delete_inversion j k w m h = by_dec (dec k j) (sym (get-delete j k m) ∙ h)
    where
      by_dec :
          (d : Dec (k ≡ j)) → ite d none (get dec j m) ≡ some w → (k ≢ j) × (get dec j m ≡ some w)
      by_dec (yes e) h = cc
      by_dec (no n) h = (n, h)

  pub length-delete-le : (k : K) (m : JsMap K V) → length (delete dec k m) ≤ length m
  unfolding delete
  length-delete-le k [] = omega arith
  length-delete-le k ((j, w) ∷ m) = ground (arith, length-delete-le k m)

  pub length-set-le : (k : K) (v : V) (m : JsMap K V) → length (set dec k v m) ≤ length m + 1
  unfolding set
  length-set-le k v [] = omega arith
  length-set-le k v ((j, w) ∷ m) = ground (arith, length-set-le k v m)

module _ {ℓ} {K : Type ℓ} (dec : Discrete K) where
  pub contains-add :
      (j k : K) (s : List K) → contains dec j (add dec k s) ≡ holds (dec k j) || contains dec j s
  unfolding contains add
  contains-add j k [] = refl
  contains-add j k (i ∷ s) = ground (arith, contains-add j k s)

  pub contains-remove :
      (j k : K) (s : List K)
      → contains dec j (remove dec k s) ≡ not (holds (dec k j)) && contains dec j s
  unfolding contains remove
  contains-remove j k [] = ground arith
  contains-remove j k (i ∷ s) = ground (arith, contains-remove j k s)

  -- Taking out an element that was added last restores the set.
  pub remove_absent : (k : K) (s : List K) → contains dec k s ≡ false → remove dec k s ≡ s
  unfolding contains remove
  remove_absent k [] h = refl
  remove_absent k (j ∷ s) h = ground (arith, remove_absent k s)

  pub remove-add : (k : K) (s : List K) → contains dec k s ≡ false → remove dec k (add dec k s) ≡ s
  unfolding contains add remove
  remove-add k [] h = ground arith
  remove-add k (j ∷ s) h = ground (arith, remove-add k s)
