-- ===== src/SocketClient/Backoff.antt =====
-- `Backoff` of client.ts. `Math.floor(Math.random() * ceiling)` is an argument.
use Prim.Native.Nat.{min}
use orijs.Common.{ℕ, zero, suc, ◌+◌, ◌-◌, ◌*◌, ◌%◌, ◌≤◌, ◌<◌, ◌≡◌, ltb, arith, if◌then◌else◌}

pub record Backoff : Type 0 where
  pub ms : ℕ
  pub max : ℕ
  pub attempts : ℕ

-- The integer that `| 0` gives.
pub data Int32 : Type 0 where
  nonneg neg : ℕ → Int32

unfoldable pub to_int32 : ℕ → Int32
to_int32 n = let w = n % 4294967296 in if ltb w 2147483648 then nonneg w else neg (4294967296 - w)

-- `Math.pow(2, step)`
unfoldable pub pow2 : ℕ → ℕ
pow2 zero = 1
pow2 (suc n) = 2 * pow2 n

unfoldable pub ceiling : Backoff → ℕ
ceiling b = min b.max (b.ms * pow2 (min b.attempts 31))

unfoldable pub duration : ℕ → Backoff → Int32 × Backoff
duration interval b =
    (to_int32 (min b.max (b.ms + interval)), record b { attempts = suc b.attempts })

unfoldable pub reset : Backoff → Backoff
reset b = record b { attempts = 0 }

-- Whatever the random number, a delay is at least the minimal one and at most the maximal one, and
-- less than the minimal one plus the ceiling of the attempt; if the minimal delay is not above the
-- maximal one, and that is below 2^31 ms.
duration_bounds :
    (interval delay : ℕ) (b : Backoff)
    → interval < ceiling b
    → b.ms ≤ b.max
    → b.max < 2147483648
    → (duration interval b).0 ≡ nonneg delay
    → (b.ms ≤ delay) × (delay ≤ b.max) × (delay < b.ms + ceiling b)
unfolding duration to_int32 ceiling
duration_bounds interval delay b i m l e = ground arith
