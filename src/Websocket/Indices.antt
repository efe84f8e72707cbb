-- ===== src/Websocket/Indices.antt =====
-- How the maps of sets change, read as a relation between a key and an element.
use orijs.Common.{
  ◌≡◌, refl, Bool, not, ◌&&◌, ◌||◌, Option, none, some, List, [], ◌∷◌, arith, if◌then◌else◌, holds,
  or_else,
}
use orijs.JsMap.{JsMap, get, contains, add, remove}
use orijs.JsMap.Laws.{get-set, get-delete, contains-add, contains-remove}
use orijs.Websocket.{Text, Text-discrete, insert, keep_if_any, withdraw, withdraw_all}

abbrev pub row : Text → JsMap Text (List Text) → List Text
row k m = or_else (get Text-discrete k m) []

-- `e` is in the set at `k`.
abbrev pub related : Text → Text → JsMap Text (List Text) → Bool
related k e m = contains Text-discrete e (row k m)

abbrev pub same : Text → Text → Bool
same s t = holds (Text-discrete s t)

module _ (j e' : Text) (k e : Text) (m : JsMap Text (List Text)) where
  pub related-insert : related j e' (insert k e m) ≡ (same k j && same e e') || related j e' m
  unfolding insert
  related-insert = ground (
    arith,
    get-set Text-discrete j k (add Text-discrete e (row k m)) m,
    contains-add Text-discrete e' e (row k m),
  )

  related-keep :
      (es : List Text)
      → related j e' (keep_if_any k es m)
        ≡ (if same k j then contains Text-discrete e' es else related j e' m)
  unfolding contains
  related-keep [] = ground (arith, get-delete Text-discrete j k m)
  related-keep (x ∷ xs) = ground (arith, get-set Text-discrete j k (x ∷ xs) m)

  related-withdraw-row :
      (o : Option (List Text))
      → get Text-discrete k m ≡ o
      → related j e' (withdraw k e m) ≡ not (same k j && same e e') && related j e' m
  unfolding withdraw contains
  related-withdraw-row none h = rw (withdraw, h) (ground arith)
  related-withdraw-row (some es) h =
      rw (withdraw, h)
        (ground
          (arith, related-keep (remove Text-discrete e es), contains-remove Text-discrete e' e es))

  pub related-withdraw :
      related j e' (withdraw k e m) ≡ not (same k j && same e e') && related j e' m
  related-withdraw = related-withdraw-row (get Text-discrete k m) refl

pub related-withdraw_all :
    (j e' : Text) (ks : List Text) (e : Text) (m : JsMap Text (List Text))
    → related j e' (withdraw_all ks e m)
      ≡ not (contains Text-discrete j ks && same e e') && related j e' m
unfolding withdraw_all contains
related-withdraw_all j e' [] e m = ground arith
related-withdraw_all j e' (k ∷ ks) e m =
    ground (arith, related-withdraw_all j e' ks e (withdraw k e m), related-withdraw j e' k e m)
