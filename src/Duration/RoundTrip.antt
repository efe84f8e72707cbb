-- ===== src/Duration/RoundTrip.antt =====
-- Formatting and parsing durations.
use orijs.Common.{
  ℕ, zero, suc, ◌+◌, ◌*◌, ◌/◌, ◌%◌, ◌≤◌, ◌<◌, ◌≡◌, refl, ap, ◌∙◌, inl, inr, true, false, Option,
  none, some, List, [], ◌∷◌, ◌++◌, map, arith, ltb, ◌==◌, or_else, if◌then◌else◌, Bool-cases,
}
use mathlib.Core.List.{append_assoc}
use orijs.Duration.{
  DurationUnit, s, m, h, d, multiplier, unit_char, to_lower, max_duration_seconds, match_duration,
  in_seconds, parse_text, parse_duration, text, decimal_with, decimal, format_duration,
}

match-digit :
    (read : Option ℕ) (k : ℕ) (rest : List ℕ)
    → k < 10
    → match_duration read (to_lower (48 + k) ∷ rest)
      ≡ match_duration (some (or_else read 0 * 10 + k)) rest
unfolding match_duration
match-digit read k rest l = ground arith

-- The digits of a number are read as the number.
match-decimal :
    (fuel n : ℕ) (rest : List ℕ)
    → n ≤ fuel
    → match_duration none (map to_lower (decimal_with (suc fuel) n ++ rest))
      ≡ match_duration (some n) (map to_lower rest)
unfolding decimal_with
match-decimal zero n rest l = rw small (
    match-digit none (n % 10) (map to_lower rest) (omega arith)
    ∙ ap (λ k. match_duration (some k) (map to_lower rest)) digit)
  where
    small : ltb n 10 ≡ true
    small = ground arith

    digit : 0 * 10 + n % 10 ≡ n
    digit = omega arith
match-decimal (suc fuel) n rest l = elim (Bool-cases (ltb n 10)) [
  | inl e ↦ rw e (
      match-digit none (n % 10) (map to_lower rest) (omega arith)
      ∙ ap (λ k. match_duration (some k) (map to_lower rest)) (one_digit e))
  | inr e ↦
      rw (e, append_assoc (decimal_with (suc fuel) (n / 10)) ((48 + n % 10) ∷ []) rest)
        (match-decimal fuel (n / 10) ((48 + n % 10) ∷ rest) (fewer e)
          ∙ match-digit (some (n / 10)) (n % 10) (map to_lower rest) (omega arith)
          ∙ ap (λ k. match_duration (some k) (map to_lower rest)) digits)
]
  where
    one_digit : ltb n 10 ≡ true → 0 * 10 + n % 10 ≡ n
    one_digit e = ground arith

    digits : n / 10 * 10 + n % 10 ≡ n
    digits = omega arith

    fewer : ltb n 10 ≡ false → n / 10 ≤ fuel
    fewer e = ground arith

-- A number with its unit.
match-formatted :
    (n : ℕ) (u : DurationUnit)
    → match_duration none (map to_lower (decimal n ++ unit_char u ∷ [])) ≡ some (n, u)
unfolding match_duration
match-formatted n u = match-decimal n n (unit_char u ∷ []) (omega arith) ∙ by_unit u
  where
    by_unit :
        (v : DurationUnit) → match_duration (some n) (map to_lower (unit_char v ∷ [])) ≡ some (n, v)
    by_unit s = refl
    by_unit m = refl
    by_unit h = refl
    by_unit d = refl

-- A text of two characters or more is not the text of zero.
parse-long :
    (cs : List ℕ) (a b : ℕ)
    → parse_text ((cs ++ a ∷ []) ++ b ∷ [])
      ≡ in_seconds (match_duration none (map to_lower ((cs ++ a ∷ []) ++ b ∷ [])))
unfolding parse_text
parse-long [] a b = refl
parse-long (c ∷ []) a b = refl
parse-long (c ∷ c' ∷ cs) a b = refl

parse-unit :
    (n : ℕ) (u : DurationUnit)
    → parse_text (decimal n ++ unit_char u ∷ []) ≡ in_seconds (some (n, u))
unfolding decimal_with
parse-unit n u =
    parse-long (if ltb n 10 then [] else decimal_with n (n / 10)) (48 + n % 10) (unit_char u)
    ∙ ap in_seconds (match-formatted n u)

parse-zero : parse_text (48 ∷ 115 ∷ []) ≡ inr 0
unfolding parse_text match_duration
parse-zero = refl

-- `k` of a unit are `n` seconds.
in_seconds-counted :
    (n k : ℕ) (u : DurationUnit)
    → n ≤ max_duration_seconds
    → n == 0 ≡ false
    → k * multiplier u ≡ n
    → in_seconds (some (k, u)) ≡ inr n
in_seconds-counted n k s l p e = ground arith
in_seconds-counted n k m l p e = ground arith
in_seconds-counted n k h l p e = ground arith
in_seconds-counted n k d l p e = ground arith

-- The text that is made of a number of seconds up to the maximum is parsed as this number.
pub parse-format :
    (n : ℕ) → n ≤ max_duration_seconds → parse_duration (text (format_duration n)) ≡ inr n
unfolding parse_duration format_duration
parse-format n l = ground (
  arith,
  parse-zero,
  by_unit d (n / 86400),
  by_unit h (n / 3600),
  by_unit m (n / 60),
  by_unit s n,
)
  where
    by_unit :
        (u : DurationUnit) (k : ℕ)
        → n == 0 ≡ false
        → k * multiplier u ≡ n
        → parse_text (decimal k ++ unit_char u ∷ []) ≡ inr n
    by_unit u k p e = parse-unit k u ∙ in_seconds-counted n k u l p e
