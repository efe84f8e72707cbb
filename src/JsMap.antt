-- ===== src/JsMap.antt =====
-- The JavaScript `Map` and `Set` as the source uses them: entries in insertion order, at most one
-- for each key. `set` on a present key keeps its place; `delete` takes the key's entry out.
pub mod Laws
use orijs.Common.{
  ℕ, Bool, false, ◌||◌, Option, none, some, is_some, List, [], ◌∷◌, map, ite, length, holds,
}

abbrev pub JsMap {ℓ} : Type ℓ → Type ℓ → Type ℓ
JsMap K V = List (K × V)

module _ {ℓ} {K V : Type ℓ} where
  abbrev pub keys : JsMap K V → List K
  keys = map (λ e. e.0)

module _ {ℓ} {K V : Type ℓ} (dec : Discrete K) where
  unfoldable pub get : K → JsMap K V → Option V
  get k [] = none
  get k ((j, v) ∷ m) = ite (dec j k) (some v) (get k m)

  abbrev pub has : K → JsMap K V → Bool
  has k m = is_some (get k m)

  unfoldable pub set : K → V → JsMap K V → JsMap K V
  set k v [] = (k, v) ∷ []
  set k v ((j, w) ∷ m) = ite (dec j k) ((k, v) ∷ m) ((j, w) ∷ set k v m)

  unfoldable pub delete : K → JsMap K V → JsMap K V
  delete k [] = []
  delete k ((j, w) ∷ m) = ite (dec j k) (delete k m) ((j, w) ∷ delete k m)

abbrev pub size {ℓ} : {K V : Type ℓ} → JsMap K V → ℕ
size m = length m

-- A `Set` keeps the elements in insertion order.
module _ {ℓ} {K : Type ℓ} (dec : Discrete K) where
  unfoldable pub contains : K → List K → Bool
  contains k [] = false
  contains k (j ∷ s) = holds (dec j k) || contains k s

  unfoldable pub add : K → List K → List K
  add k [] = k ∷ []
  add k (j ∷ s) = ite (dec j k) (j ∷ s) (j ∷ add k s)

  unfoldable pub remove : K → List K → List K
  remove k [] = []
  remove k (j ∷ s) = ite (dec j k) (remove k s) (j ∷ remove k s)
