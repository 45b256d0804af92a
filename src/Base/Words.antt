-- ===== src/Base/Words.antt =====
-- 32-bit words: an `int` or `unsigned int` is its bit pattern, a number below 2 ^ 32.
use Prim.Native.Nat.{ℕ, ◌+◌, ◌-◌, ◌*◌, ◌%◌, ◌/◌, ◌^◌}
use mathlib.Core.Bool.{Bool}
use mmemphis.Base.Tests.{ltb, if◌then◌else◌}

abbrev pub word_mod : ℕ
word_mod = 2 ^ 32

-- The pattern of the `int` -1, C's mark of an empty entry here.
abbrev pub minus_one : ℕ
minus_one = 2 ^ 32 - 1

abbrev pub add32 : ℕ → ℕ → ℕ
add32 a b = (a + b) % word_mod

abbrev pub sub32 : ℕ → ℕ → ℕ
sub32 a b = (a + word_mod - b) % word_mod

abbrev pub mul32 : ℕ → ℕ → ℕ
mul32 a b = (a * b) % word_mod

-- `a < b` between two `int`s.
abbrev pub slt : ℕ → ℕ → Bool
slt a b = ltb ((a + 2 ^ 31) % word_mod) ((b + 2 ^ 31) % word_mod)

-- `x >> 8` of an `int`, which keeps the sign.
abbrev pub sar8 : ℕ → ℕ
sar8 x = if ltb x (2 ^ 31) then x / 256 else x / 256 + (2 ^ 32 - 2 ^ 24)

-- `i<n` of an `int` that starts at 0.
abbrev pub loop_bound : ℕ → ℕ
loop_bound n = if ltb n (2 ^ 31) then n else 0
