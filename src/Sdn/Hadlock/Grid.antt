-- ===== src/Sdn/Hadlock/Grid.antt =====
-- Sums over the rows and columns of a grid.
use mmemphis.Base.{ℕ, zero, suc, ◌+◌, ◌*◌, ◌≤◌, ◌<◌, ◌≡◌, inl, inr, arith, ◌==◌, ==-eq, Bool-cases}

abbrev pub sum_below : ℕ → (ℕ → ℕ) → ℕ
sum_below zero f = 0
sum_below (suc n) f = f n + sum_below n f

pub sum_below-le : (n : ℕ) (f g : ℕ → ℕ) → ((i : ℕ) → f i ≤ g i) → sum_below n f ≤ sum_below n g
sum_below-le zero f g h = omega arith
sum_below-le (suc n) f g h = omega (arith, h n, sum_below-le n f g h)

pub sum_below-lt :
    (n : ℕ) (f g : ℕ → ℕ) {k : ℕ}
    → ((i : ℕ) → f i ≤ g i)
    → k < n
    → f k < g k
    → sum_below n f < sum_below n g
sum_below-lt zero f g h b l = absurd (omega arith)
sum_below-lt (suc n) f g {k} h b l = elim (Bool-cases (k == n)) [
  | inl e ↦
      let same : k ≡ n = ==-eq k n e in
      let last : f n < g n = rw same at l in omega (arith, last, sum_below-le n f g h)
  | inr e ↦ let below : k < n = ground arith in omega (arith, h n, sum_below-lt n f g h below l)
]

pub sum_below-bound : (n k : ℕ) (f : ℕ → ℕ) → ((i : ℕ) → f i ≤ k) → sum_below n f ≤ n * k
sum_below-bound zero k f h = omega arith
sum_below-bound (suc n) k f h = ground (arith, h n, sum_below-bound n k f h)
