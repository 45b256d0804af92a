-- ===== src/Base/Bits.antt =====
-- `(hi << 8) | lo`, the form of every address here: the digits of `|`, and its value where the
-- low byte is one.
use Prim.Native.Nat.{
  ℕ, zero, suc, ◌+◌, ◌*◌, ◌/◌, ◌%◌, ◌≤◌, ◌<◌, ◌^◌, max, bit_or, digits, bit_or-bitwise,
}
use mathlib.Core.Path.{◌≡◌, refl, ap}
use native.Mathlib.Omega.{arith}
use native.Mathlib.Nat.{pow-suc}
use mmemphis.Base.Words.{word_mod}

abbrev or_digits : ℕ → ℕ → ℕ → ℕ
or_digits n a b = digits (λ b. b) max n a b

or_digits_fuel : (n m a b : ℕ) → a ≤ n → a ≤ m → or_digits n a b ≡ or_digits m a b
or_digits_fuel zero zero a b p q = refl
or_digits_fuel zero (suc m) zero b p q = refl
or_digits_fuel zero (suc m) (suc a) b p q = absurd (omega arith)
or_digits_fuel (suc n) zero zero b p q = refl
or_digits_fuel (suc n) zero (suc a) b p q = absurd (omega arith)
or_digits_fuel (suc n) (suc m) zero b p q = refl
or_digits_fuel (suc n) (suc m) (suc a) b p q =
    omega (arith, or_digits_fuel n m (suc a / 2) (b / 2) (omega arith) (omega arith))

zero-bit_or : (b : ℕ) → bit_or 0 b ≡ b
zero-bit_or b = bit_or-bitwise 0 b

bit_or_step : (a b : ℕ) → bit_or a b ≡ bit_or (a / 2) (b / 2) * 2 + max (a % 2) (b % 2)
bit_or_step zero b = omega (arith, zero-bit_or b, zero-bit_or (b / 2))
bit_or_step (suc a) b = omega (
  arith,
  bit_or-bitwise (suc a) b,
  bit_or-bitwise (suc a / 2) (b / 2),
  or_digits_fuel a (suc a / 2) (suc a / 2) (b / 2) (omega arith) (omega arith),
)

bit_or_double : (a b : ℕ) → bit_or (a * 2) b ≡ bit_or a (b / 2) * 2 + b % 2
bit_or_double a b =
    let half : a * 2 / 2 ≡ a = omega arith in
    omega (arith, bit_or_step (a * 2) b, ap (λ k. bit_or k (b / 2)) half)

bit_or-zero_fuel : (n a : ℕ) → a ≤ n → bit_or a 0 ≡ a
bit_or-zero_fuel n zero h = refl
bit_or-zero_fuel zero (suc a) h = absurd (omega arith)
bit_or-zero_fuel (suc n) (suc a) h =
    omega (arith, bit_or_step (suc a) 0, bit_or-zero_fuel n (suc a / 2) (omega arith))

-- Shifting past the low number's digits, one digit at a time.
shifted-or : (k a b : ℕ) → b < 2 ^ k → bit_or (a * 2 ^ k) b ≡ a * 2 ^ k + b
shifted-or zero a b h =
    let one : a * 2 ^ 0 ≡ a = omega arith in
    let none : b ≡ 0 = omega arith in
    rw (one, none) (omega (arith, bit_or-zero_fuel a a (omega arith)))
shifted-or (suc k) a b h =
    let double : a * 2 ^ suc k ≡ a * 2 ^ k * 2 = omega (arith, ap (λ t. a * t) (pow-suc 2 k)) in
    let half : b / 2 < 2 ^ k = omega (arith, pow-suc 2 k) in
    rw double (omega (arith, bit_or_double (a * 2 ^ k) b, shifted-or k a (b / 2) half))

-- `(hi << 8) | lo` between 32-bit words.
abbrev pub pack8 : ℕ → ℕ → ℕ
pack8 hi lo = bit_or (hi * 256 % word_mod) lo

pub pack8_lem : (hi lo : ℕ) → hi < 2 ^ 24 → lo < 256 → pack8 hi lo ≡ hi * 256 + lo
pack8_lem hi lo h l =
    let fits : hi * 256 % word_mod ≡ hi * 2 ^ 8 = omega arith in
    rw fits (omega (arith, shifted-or 8 hi lo l))
