-- ===== src/Requests/Params/Accepted.antt =====
-- Which parameters `getValidatedParam` and `getValidatedUUID` accept.
use orijs.Common.{
  ℕ, suc, zero, ◌+◌, ◌≤◌, ◌≡◌, ◌≢◌, refl, ap, subst, Bool, true, false, not, ◌⊎◌, inl, inr, ◌↔◌,
  Option, none, some, [], ◌∷◌, length, All, get_elem?, ltb, ◌==◌, if◌then◌else◌, arith,
}
use orijs.JsMap.{JsMap, get}
use orijs.Websocket.{Text, Text-discrete}
use orijs.Requests.Params.{
  too_long, wrong_length, missing_dashes, max_param_length, uuid_length, is_token_char, is_hex,
  bad_char, is_dash_index, bad_hex, is_dash_at, with_char, checked_param, get_validated_param,
  has_dashes, checked_uuid, get_validated_uuid,
}

-- The characters of a parameter, described by themselves.
abbrev pub TokenChar : ℕ → Type 0
TokenChar code =
    ((48 ≤ code) × (code ≤ 57))
    ⊎ ((65 ≤ code) × (code ≤ 90))
    ⊎ ((97 ≤ code) × (code ≤ 122))
    ⊎ (code ≡ 45)
    ⊎ (code ≡ 95)

is_token_char_lem : (code : ℕ) → is_token_char code ≡ true ↔ TokenChar code
unfolding is_token_char
is_token_char_lem code = (λ h. ground arith, λ h. ground arith)

abbrev pub HexChar : ℕ → Type 0
HexChar code =
    ((48 ≤ code) × (code ≤ 57)) ⊎ ((65 ≤ code) × (code ≤ 70)) ⊎ ((97 ≤ code) × (code ≤ 102))

is_hex_lem : (code : ℕ) → is_hex code ≡ true ↔ HexChar code
unfolding is_hex
is_hex_lem code = (λ h. ground arith, λ h. ground arith)

-- The loops find nothing exactly where every character is as it should be.
bad_char-none : (i : ℕ) (value : Text) → bad_char i value ≡ none → All TokenChar value
unfolding bad_char
bad_char-none i [] h = tt
bad_char-none i (code ∷ rest) h = by_test (bad_char-none (suc i) rest) (is_token_char code) refl h
  where
    by_test :
        (bad_char (suc i) rest ≡ none → All TokenChar rest)
        → (b : Bool) → is_token_char code ≡ b
        → (if b then bad_char (suc i) rest else some i) ≡ none
        → All TokenChar (code ∷ rest)
    by_test rec true e h = ((is_token_char_lem code).0 e, rec h)
    by_test rec false e h = cc

bad_char-All : (i : ℕ) (value : Text) → All TokenChar value → bad_char i value ≡ none
unfolding bad_char
bad_char-All i [] h = refl
bad_char-All i (code ∷ rest) h = rw ((is_token_char_lem code).1 h.0) (bad_char-All (suc i) rest h.1)

abbrev pub Token : Text → Type 0
Token value = (1 ≤ length value) × (length value ≤ 256) × All TokenChar value

with_char-inr :
    (xs value : Text) (o : Option ℕ) → with_char xs o ≡ inr value → (xs ≡ value) × (o ≡ none)
with_char-inr xs value none h = (cc, refl)
with_char-inr xs value (some i) h = cc

param_sound :
    (value : Text) (found : Option Text)
    → checked_param found ≡ inr value
    → (found ≡ some value) × Token value
param_sound value none h = cc
param_sound value (some []) h = cc
param_sound value (some (code ∷ rest)) h =
    by_test (ltb max_param_length (length (code ∷ rest))) refl h
  where
    by_test :
        (b : Bool)
        → ltb max_param_length (length (code ∷ rest)) ≡ b
        → (if b then inl too_long else with_char (code ∷ rest) (bad_char 0 (code ∷ rest)))
          ≡ inr value
        → (some (code ∷ rest) ≡ some value) × Token value
    by_test true e h = cc
    by_test false e h =
        let (p, q) = with_char-inr (code ∷ rest) value (bad_char 0 (code ∷ rest)) h in
        (ap some p, subst Token p (omega arith, ground (arith, e), bad_char-none 0 (code ∷ rest) q))

param_complete : (value : Text) → Token value → checked_param (some value) ≡ inr value
param_complete [] h = absurd (omega (arith, h.0))
param_complete (code ∷ rest) h = rw (bad_char-All 0 (code ∷ rest) h.2) (ground (arith, h.1))

-- `getValidatedParam` gives a parameter back exactly where it is there, has between 1 and 256
-- characters, and all of them are ASCII letters, digits, dashes and underscores.
validated_param_lem :
    (key : Text) (params : JsMap Text Text) (value : Text)
    → get_validated_param key params ≡ inr value
      ↔ (get Text-discrete key params ≡ some value) × Token value
unfolding get_validated_param
validated_param_lem key params value =
    (param_sound value (get Text-discrete key params), λ h. rw h.0 (param_complete value h.1))

some-injective : {A : Type 0} (a b : A) → some a ≡ some b → a ≡ b
some-injective a b h = cc

-- `k` is the index of the first of the characters, and `j` that of the `i`-th of them.
abbrev Hexes : ℕ → Text → Type 0
Hexes k value =
    (i j code : ℕ)
    → get_elem? value i ≡ some code
    → j ≡ k + i
    → is_dash_index j ≡ false
    → HexChar code

bad_hex-none : (k : ℕ) (value : Text) → bad_hex k value ≡ none → Hexes k value
unfolding bad_hex
bad_hex-none k [] h = λ i j code e p d. cc
bad_hex-none k (x ∷ rest) h =
    by_test (bad_hex-none (suc k) rest) (is_dash_index k) (is_hex x) refl refl h
  where
    by_test :
        (bad_hex (suc k) rest ≡ none → Hexes (suc k) rest)
        → (b hex : Bool) → is_dash_index k ≡ b
        → is_hex x ≡ hex
        → (if b then bad_hex (suc k) rest else if hex then bad_hex (suc k) rest else some k) ≡ none
        → Hexes k (x ∷ rest)
    by_test rec true hex p q h zero j code e r d = ground (arith, r)
    by_test rec false true p q h zero j code e r d =
        subst HexChar (some-injective x code e) ((is_hex_lem x).0 q)
    by_test rec false false p q h i j code e r d = cc
    by_test rec true hex p q h (suc i) j code e r d = rec h i j code e (omega (arith, r)) d
    by_test rec false true p q h (suc i) j code e r d = rec h i j code e (omega (arith, r)) d

bad_hex-all : (k : ℕ) (value : Text) → Hexes k value → bad_hex k value ≡ none
unfolding bad_hex
bad_hex-all k [] h = refl
bad_hex-all k (x ∷ rest) h =
    by_test (bad_hex-all (suc k) rest (λ i j code e p. h (suc i) j code e (omega (arith, p))))
      (is_dash_index k) refl
  where
    by_test :
        bad_hex (suc k) rest ≡ none
        → (b : Bool) → is_dash_index k ≡ b
        → (if b then bad_hex (suc k) rest else if is_hex x then bad_hex (suc k) rest else some k)
          ≡ none
    by_test rec true p = rec
    by_test rec false p = rw ((is_hex_lem x).1 (h 0 k x refl (omega arith) p)) rec

is_dash_at_lem : (i : ℕ) (value : Text) → is_dash_at i value ≡ true ↔ get_elem? value i ≡ some 45
is_dash_at_lem i [] = (λ h. cc, λ h. cc)
is_dash_at_lem zero (code ∷ rest) =
    (λ h. ap some (ground arith), λ h. ground (arith, some-injective code 45 h))
is_dash_at_lem (suc i) (code ∷ rest) = is_dash_at_lem i rest

-- 36 characters, of which those at 8, 13, 18 and 23 are dashes, and the others hexadecimal digits.
pub record Uuid (value : Text) : Type 0 where
  pub whole : length value ≡ 36
  pub dashes :
      (get_elem? value 8 ≡ some 45)
      × (get_elem? value 13 ≡ some 45)
      × (get_elem? value 18 ≡ some 45)
      × (get_elem? value 23 ≡ some 45)
  pub digits :
      (i code : ℕ) → get_elem? value i ≡ some code → i ≢ 8 → i ≢ 13 → i ≢ 18 → i ≢ 23 → HexChar code

Uuid-sound :
    (value : Text) (found : Option Text)
    → checked_uuid found ≡ inr value
    → (found ≡ some value) × Uuid value
Uuid-sound value none h = cc
Uuid-sound value (some []) h = cc
Uuid-sound value (some (code ∷ rest)) h =
    by_test (length xs == uuid_length) (has_dashes xs) refl refl h
  where
    xs : Text
    xs = code ∷ rest

    by_test :
        (b d : Bool)
        → (length xs == uuid_length) ≡ b
        → has_dashes xs ≡ d
        → (if not b
            then inl wrong_length
            else (if not d then inl missing_dashes else with_char xs (bad_hex 0 xs)))
          ≡ inr value
        → (some xs ≡ some value) × Uuid value
    by_test false d e f h = cc
    by_test true false e f h = cc
    by_test true true e f h =
        let (p, q) = with_char-inr xs value (bad_hex 0 xs) h in
        (
          ap some p,
          subst Uuid p (record {
            whole = ground (arith, e);
            dashes = ground (
              arith,
              f,
              (is_dash_at_lem 8 xs).0,
              (is_dash_at_lem 13 xs).0,
              (is_dash_at_lem 18 xs).0,
              (is_dash_at_lem 23 xs).0,
            );
            digits =
                λ i code g a b c d. bad_hex-none 0 xs q i i code g (omega arith) (ground arith);
          }),
        )

Uuid-complete : (value : Text) → Uuid value → checked_uuid (some value) ≡ inr value
Uuid-complete [] u = absurd (omega (arith, u.whole))
Uuid-complete (code ∷ rest) u =
    rw
      (bad_hex-all 0 (code ∷ rest) (λ i j x e p d.
        u.digits i x e (ground (arith, p)) (ground (arith, p)) (ground (arith, p))
          (ground (arith, p))))
      (ground (
        arith,
        u.whole,
        (is_dash_at_lem 8 (code ∷ rest)).1 u.dashes.0,
        (is_dash_at_lem 13 (code ∷ rest)).1 u.dashes.1,
        (is_dash_at_lem 18 (code ∷ rest)).1 u.dashes.2,
        (is_dash_at_lem 23 (code ∷ rest)).1 u.dashes.3,
      ))

-- `getValidatedUUID` gives a parameter back exactly where it is there and has the form of a UUID: 36
-- characters, dashes at 8, 13, 18 and 23, and hexadecimal digits elsewhere.
validated_uuid_lem :
    (key : Text) (params : JsMap Text Text) (value : Text)
    → get_validated_uuid key params ≡ inr value
      ↔ (get Text-discrete key params ≡ some value) × Uuid value
unfolding get_validated_uuid
validated_uuid_lem key params value =
    (Uuid-sound value (get Text-discrete key params), λ h. rw h.0 (Uuid-complete value h.1))
