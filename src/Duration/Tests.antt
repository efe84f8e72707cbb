-- ===== src/Duration/Tests.antt =====
-- A duration of one and a half hours.
use orijs.Common.{◌≡◌, refl, inr, [], ◌∷◌, arith}
use orijs.Duration.{text, parse_duration, format_duration, decimal_with}
use orijs.Duration.RoundTrip.{parse-format}

parse-format_example : parse_duration (text (format_duration 5400)) ≡ inr 5400
parse-format_example = parse-format 5400 (ground arith)

ninety_minutes : format_duration 5400 ≡ 57 ∷ 48 ∷ 109 ∷ []
unfolding format_duration decimal_with
ninety_minutes = refl
