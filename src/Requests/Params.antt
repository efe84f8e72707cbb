-- ===== src/Requests/Params.antt =====
-- packages/core/src/controllers/request-context.ts: `getValidatedParam` and `getValidatedUUID`. A text
-- is the list of its characters' codes.
pub mod Accepted
use orijs.Common.{
  ℕ, suc, zero, ◌+◌, ◌≤◌, ◌<◌, ◌≡◌, ◌≢◌, refl, ap, subst, Bool, true, false, not, ◌&&◌, ◌||◌, ◌⊎◌,
  inl, inr, ◌↔◌, Option, none, some, List, [], ◌∷◌, ◌++◌, length, All, get_elem?, ltb, leb, ◌==◌,
  if◌then◌else◌, arith, Bool-cases,
}
use orijs.JsMap.{JsMap, get}
use orijs.Websocket.{Text, Text-discrete}

pub data ParamError : Type 0 where
  missing too_long wrong_length missing_dashes : ParamError
  invalid_character : ℕ → ParamError

abbrev pub max_param_length : ℕ
max_param_length = 256

abbrev pub uuid_length : ℕ
uuid_length = 36

abbrev in_range : ℕ → ℕ → ℕ → Bool
in_range low high code = leb low code && leb code high

-- `isValid`
unfoldable pub is_token_char : ℕ → Bool
is_token_char code =
    in_range 97 122 code || in_range 65 90 code || in_range 48 57 code || code == 45 || code == 95

-- `isHex`
unfoldable pub is_hex : ℕ → Bool
is_hex code = in_range 48 57 code || in_range 97 102 code || in_range 65 70 code

-- The loops; `i` is the index of the first of the characters.
unfoldable pub bad_char : ℕ → Text → Option ℕ
bad_char i [] = none
bad_char i (code ∷ rest) =
    let found = bad_char (suc i) rest in if is_token_char code then found else some i

abbrev pub is_dash_index : ℕ → Bool
is_dash_index i = i == 8 || i == 13 || i == 18 || i == 23

unfoldable pub bad_hex : ℕ → Text → Option ℕ
bad_hex i [] = none
bad_hex i (code ∷ rest) =
    let found = bad_hex (suc i) rest in
    if is_dash_index i then found else if is_hex code then found else some i

-- The code at an index; past the end `charCodeAt` gives no number.
abbrev pub is_dash_at : ℕ → Text → Bool
is_dash_at i [] = false
is_dash_at zero (code ∷ rest) = code == 45
is_dash_at (suc i) (code ∷ rest) = is_dash_at i rest

abbrev pub with_char : Text → Option ℕ → ParamError ⊎ Text
with_char value none = inr value
with_char value (some i) = inl (invalid_character i)

abbrev pub checked_param : Option Text → ParamError ⊎ Text
checked_param none = inl missing
checked_param (some []) = inl missing
checked_param (some (code ∷ rest)) =
    if ltb max_param_length (length (code ∷ rest))
    then inl too_long
    else with_char (code ∷ rest) (bad_char 0 (code ∷ rest))

unfoldable pub get_validated_param : Text → JsMap Text Text → ParamError ⊎ Text
get_validated_param key params = checked_param (get Text-discrete key params)

abbrev pub has_dashes : Text → Bool
has_dashes value =
    is_dash_at 8 value && is_dash_at 13 value && is_dash_at 18 value && is_dash_at 23 value

abbrev pub checked_uuid : Option Text → ParamError ⊎ Text
checked_uuid none = inl missing
checked_uuid (some []) = inl missing
checked_uuid (some (code ∷ rest)) =
    if not (length (code ∷ rest) == uuid_length)
    then inl wrong_length
    else (if not (has_dashes (code ∷ rest))
        then inl missing_dashes
        else with_char (code ∷ rest) (bad_hex 0 (code ∷ rest)))

unfoldable pub get_validated_uuid : Text → JsMap Text Text → ParamError ⊎ Text
get_validated_uuid key params = checked_uuid (get Text-discrete key params)
