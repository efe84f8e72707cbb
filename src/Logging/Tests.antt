-- ===== src/Logging/Tests.antt =====
-- The theorems on the log buffer at a small run.
use orijs.Common.{
  ℕ, zero, suc, ◌≡◌, ◌≢◌, refl, ap, Option, none, some, List, [], ◌∷◌, ◌++◌, length, All,
  All-append, ◌==◌, not, if◌then◌else◌, arith,
}
use orijs.Websocket.{Text}
use orijs.Logging.{
  LogObject, logged, overflow_warning, Json, LogBuffer, output_of, reset, configure, write, flush,
  send_lines, split_lines, send_each, reacting, set_transport_resolver, shutdown, Call, writes,
  ticks, configures, perform_all, on_logged, LogBufferOptions,
}
use orijs.Logging.Conservation.{fresh, Accounted, accepted_is_delivered, shutdown_delivers}

-- A code of objects that log a number: its unary form after 1, and those of the time and number of a
-- warning after 3.
unfoldable repeat : ℕ → ℕ → Text
repeat c zero = []
repeat c (suc n) = c ∷ repeat c n

unfoldable count : ℕ → Text → ℕ
count c [] = 0
count c (x ∷ xs) = let n = count c xs in if x == c then suc n else n

encode : LogObject ℕ → Text
encode (logged n) = 1 ∷ repeat 2 n
encode (overflow_warning now n) = 3 ∷ (repeat 4 now ++ repeat 5 n)

unfoldable decode : Text → Option (LogObject ℕ)
decode [] = none
decode (c ∷ xs) =
    if c == 1 then some (logged (count 2 xs)) else some (overflow_warning (count 4 xs) (count 5 xs))

repeat-All : (c n : ℕ) → c ≢ 10 → All (λ x. x ≢ 10) (repeat c n)
unfolding repeat
repeat-All c zero h = tt
repeat-All c (suc n) h = (h, repeat-All c n h)

count-repeat : (c n : ℕ) → count c (repeat c n) ≡ n
unfolding repeat count
count-repeat c zero = refl
count-repeat c (suc n) = ground (arith, count-repeat c n)

count_4-append : (now n : ℕ) → count 4 (repeat 4 now ++ repeat 5 n) ≡ now
unfolding repeat count
count_4-append zero zero = refl
count_4-append zero (suc n) = count_4-append zero n
count_4-append (suc now) n = ap suc (count_4-append now n)

count_5-append : (now n : ℕ) → count 5 (repeat 4 now ++ repeat 5 n) ≡ n
unfolding repeat count
count_5-append zero n = count-repeat 5 n
count_5-append (suc now) n = count_5-append now n

encode_has_no_newline : (l : LogObject ℕ) → All (λ x. x ≢ 10) (encode l)
unfolding encode
encode_has_no_newline (logged n) = ((λ e. omega (arith, e)), repeat-All 2 n (λ e. omega (arith, e)))
encode_has_no_newline (overflow_warning now n) = (
  (λ e. omega (arith, e)),
  All-append (λ x. x ≢ 10) (repeat 4 now) (repeat 5 n) (repeat-All 4 now (λ e. omega (arith, e)))
      (repeat-All 5 n (λ e. omega (arith, e))),
)

decode-encode : (l : LogObject ℕ) → decode (encode l) ≡ some (on_logged (λ n. n) l)
unfolding encode decode
decode-encode (logged n) = ap (λ x. some (logged x)) (count-repeat 2 n)
decode-encode (overflow_warning now n) = rw (count_4-append now n, count_5-append now n) refl

unfoldable unary : Json ℕ
unfolding decode
unary = record {
  stringify = encode;
  parse = decode;
  serialises = λ n. not (n == 13);
  parsed = λ n. n;
  stringify_has_no_newline = encode_has_no_newline;
  parse-stringify = decode-encode;
  parse_nothing = refl;
}

-- A transport that logs 7 when it is given 3.
abbrev chatty : ℕ → LogObject ℕ → List ℕ
chatty t (logged n) = if n == 3 then 7 ∷ [] else []
chatty t (overflow_warning now n) = []

abbrev options : LogBufferOptions
options = record {
  enabled = none;
  flush_interval = none;
  buffer_size = some 9;
  max_buffer_size = some 9;
}

abbrev small : LogBuffer ℕ
small = configure options (set_transport_resolver (some (1 ∷ 2 ∷ [])) reset)

-- 13 cannot be serialised.
abbrev calls : List (Call ℕ ℕ)
calls = configures options ∷ writes 5 13 ∷ writes 5 3 ∷ writes 5 4 ∷ ticks 6 ∷ writes 7 1 ∷ []

-- 3 is in the buffer when 4 is dropped. Then a warning and 3 go to both transports, which log 7: the
-- first 7 fills the buffer, and the second 7 and 1 are dropped.
run_small :
    (length (perform_all unary chatty 0 calls (fresh small)).sent ≡ 4)
    × ((perform_all unary chatty 0 calls (fresh small)).dropped ≡ 4 ∷ 7 ∷ 1 ∷ [])
unfolding perform_all write configure unary encode repeat flush send_lines split_lines send_each
    reacting count
run_small = (refl, refl)

accepted_is_delivered_example :
    (gone : List (LogObject ℕ)) × (pending : List ℕ) × Accounted unary
      (output_of 0 small.transport_resolver)
      (perform_all unary chatty 0 calls (fresh small))
      gone
      pending
accepted_is_delivered_example =
    accepted_is_delivered unary chatty 0 small calls (tt, (tt, (tt, (tt, (tt, (tt, tt))))))

abbrev silent : ℕ → LogObject ℕ → List ℕ
silent t l = []

shutdown_delivers_example :
    (gone : List (LogObject ℕ)) × Accounted unary
      (output_of 0 small.transport_resolver)
      (shutdown unary silent 0 9 (perform_all unary silent 0 calls (fresh small)))
      gone
      []
    × ((shutdown unary silent 0 9
          (perform_all unary silent 0 calls (fresh small))).manager.dropped_count
        ≡ 0)
shutdown_delivers_example =
    shutdown_delivers unary silent 0 (λ t l. refl) small calls 9
      (tt, (tt, (tt, (tt, (tt, (tt, tt))))))
