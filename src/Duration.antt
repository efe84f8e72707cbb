-- ===== src/Duration.antt =====
-- packages/cache/src/duration.ts: durations as text. A text is the list of its characters' codes;
-- a number is whole, negative or not finite.
pub mod RoundTrip
mod Tests
use orijs.Common.{
  ℕ, zero, suc, ◌+◌, ◌-◌, ◌*◌, ◌/◌, ◌%◌, ◌⊎◌, inl, inr, Bool, true, false, ◌&&◌, Option, none, some,
  List, [], ◌∷◌, ◌++◌, map, ltb, leb, ◌==◌, or_else, if◌then◌else◌,
}

pub data Duration : Type 0 where
  seconds : ℕ → Duration
  below_zero not_finite : Duration
  text : List ℕ → Duration

pub data DurationError : Type 0 where
  must_be_finite must_be_non_negative exceeds_maximum empty_text invalid_format : DurationError

pub data DurationUnit : Type 0 where
  s m h d : DurationUnit

-- `UNITS`
abbrev pub multiplier : DurationUnit → ℕ
multiplier s = 1
multiplier m = 60
multiplier h = 3600
multiplier d = 86400

-- 365 days
abbrev pub max_duration_seconds : ℕ
max_duration_seconds = 31536000

-- The letters s, m, h and d.
abbrev pub unit_char : DurationUnit → ℕ
unit_char s = 115
unit_char m = 109
unit_char h = 104
unit_char d = 100

abbrev pub unit_of : ℕ → Option DurationUnit
unit_of c =
    if c == 115
    then some s
    else (if c == 109
        then some m
        else (if c == 104 then some h else (if c == 100 then some d else none)))

-- `toLowerCase`, at the letters that the pattern can tell apart.
abbrev pub to_lower : ℕ → ℕ
to_lower c = if leb 65 c && leb c 90 then c + 32 else c

abbrev pub is_digit : ℕ → Bool
is_digit c = leb 48 c && leb c 57

abbrev end_match : Option ℕ → Option DurationUnit → List ℕ → Option (ℕ × DurationUnit)
end_match (some value) (some unit) [] = some (value, unit)
end_match _ _ _ = none

-- `/^(\d+)([smhd])$/` with `parseInt` of the digits; `read` is the value of those so far, if any.
unfoldable pub match_duration : Option ℕ → List ℕ → Option (ℕ × DurationUnit)
match_duration read [] = none
match_duration read (c ∷ cs) =
    let rest = match_duration (some (or_else read 0 * 10 + (c - 48))) cs in
    if is_digit c then rest else end_match read (unit_of c) cs

abbrev pub within_maximum : ℕ → DurationError ⊎ ℕ
within_maximum n = if ltb max_duration_seconds n then inl exceeds_maximum else inr n

abbrev pub in_seconds : Option (ℕ × DurationUnit) → DurationError ⊎ ℕ
in_seconds none = inl invalid_format
in_seconds (some (value, unit)) =
    if value == 0 then inr 0 else within_maximum (value * multiplier unit)

abbrev is_zero_text : List ℕ → Bool
is_zero_text (c ∷ []) = c == 48
is_zero_text _ = false

unfoldable pub parse_text : List ℕ → DurationError ⊎ ℕ
parse_text [] = inl empty_text
parse_text (c ∷ cs) =
    if is_zero_text (c ∷ cs)
    then inr 0
    else in_seconds (match_duration none (map to_lower (c ∷ cs)))

unfoldable pub parse_duration : Duration → DurationError ⊎ ℕ
parse_duration not_finite = inl must_be_finite
parse_duration below_zero = inl must_be_non_negative
parse_duration (seconds n) = within_maximum n
parse_duration (text cs) = parse_text cs

-- The decimal digits of a number; the fuel bounds how many there are.
unfoldable pub decimal_with : ℕ → ℕ → List ℕ
decimal_with zero n = []
decimal_with (suc fuel) n =
    let rest = decimal_with fuel (n / 10) in (if ltb n 10 then [] else rest) ++ (48 + n % 10) ∷ []

abbrev pub decimal : ℕ → List ℕ
decimal n = decimal_with (suc n) n

-- At whole numbers; a negative one throws.
unfoldable pub format_duration : ℕ → List ℕ
format_duration n =
    if n == 0
    then 48 ∷ 115 ∷ []
    else (if leb 86400 n && n % 86400 == 0
        then decimal (n / 86400) ++ 100 ∷ []
        else (if leb 3600 n && n % 3600 == 0
            then decimal (n / 3600) ++ 104 ∷ []
            else (if leb 60 n && n % 60 == 0
                then decimal (n / 60) ++ 109 ∷ []
                else decimal n ++ 115 ∷ [])))
