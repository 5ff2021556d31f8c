-- ===== src/Prelude/Words.antt =====
-- 32-bit words as numbers below 2 ^ 32: `unsigned int` arithmetic wraps, and an `int` is the
-- pattern of its two's complement, compared with the sign bit flipped.
use Prim.Native.Nat.{ℕ, ◌+◌, ◌-◌, ◌%◌, ◌^◌, ◌≤◌, ◌<◌}
use mathlib.Core.Path.{◌≡◌}
use mathlib.Core.Bool.{Bool}
use native.Mathlib.Omega.{arith}
use dso_fifo.Prelude.Tests.{ltb, leb}

abbrev pub word : ℕ
word = 2 ^ 32

-- INT_MAX + 1
abbrev pub sign : ℕ
sign = 2 ^ 31

abbrev pub add32 : ℕ → ℕ → ℕ
add32 a b = (a + b) % word

abbrev pub sub32 : ℕ → ℕ → ℕ
sub32 a b = (a + word - b) % word

-- `a < b` and `a <= b` for the `int`s of the patterns `a` and `b`
abbrev pub lt_int : ℕ → ℕ → Bool
lt_int a b = ltb (add32 a sign) (add32 b sign)

abbrev pub le_int : ℕ → ℕ → Bool
le_int a b = leb (add32 a sign) (add32 b sign)

-- Where nothing wraps.
pub add32-add : (a b : ℕ) → a + b < word → add32 a b ≡ a + b
add32-add a b h = omega arith

pub sub32-sub : (a b : ℕ) → b ≤ a → a < word → sub32 a b ≡ a - b
sub32-sub a b le lt = omega arith
