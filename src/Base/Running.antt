-- ===== src/Base/Running.antt =====
-- What a call comes to: it returns, or it prints an error and spins in `while(1)`.
use mathlib.Core.Path.{◌≡◌, refl}
use mathlib.Core.Logic.{◌⊎◌, inl, inr}
use mathlib.Core.Option.{Option, none, some}
use mathlib.Core.Bool.{Bool, true, false}
use mmemphis.Base.Tests.{if◌then◌else◌}

pub data Outcome {ℓ} (A : Type ℓ) : Type ℓ where
  done : A → Outcome A
  hangs : Outcome A

infixl 5 ◌>>=◌
abbrev pub ◌>>=◌ {ℓ κ} : {A : Type ℓ} {B : Type κ} → Outcome A → (A → Outcome B) → Outcome B
done a >>= f = f a
hangs >>= f = hangs

-- A search that must hit: the kernel spins where it does not.
abbrev pub or_hang {ℓ} : {A : Type ℓ} → Option A → Outcome A
or_hang none = hangs
or_hang (some a) = done a

pub Running-cases {ℓ} : {A : Type ℓ} (o : Outcome A) → (o ≡ hangs) ⊎ ((a : A) × (o ≡ done a))
Running-cases (done a) = inr (a, refl)
Running-cases hangs = inl refl

-- A call that returns has come through each of its steps.
pub run_through {ℓ κ μ} :
    {A : Type ℓ} {B : Type κ} {C : Type μ} (o : Outcome A) (f : A → Outcome B) {b : B}
    → (o >>= f) ≡ done b
    → ((a : A) → o ≡ done a → f a ≡ done b → C)
    → C
run_through (done a) f h go = go a refl h
run_through hangs f h go = absurd (cc h)

pub run_found {ℓ κ μ} :
    {A : Type ℓ} {B : Type κ} {C : Type μ} (o : Option A) (f : A → Outcome B) {b : B}
    → (or_hang o >>= f) ≡ done b
    → ((a : A) → o ≡ some a → f a ≡ done b → C)
    → C
run_found (some a) f h go = go a refl h
run_found none f h go = absurd (cc h)

-- Which branch a conditional with a known value has taken.
pub run_if {ℓ} :
    {A : Type ℓ} (b : Bool) {x y z : A}
    → (if b then x else y) ≡ z
    → ((b ≡ true) × (x ≡ z)) ⊎ ((b ≡ false) × (y ≡ z))
run_if true h = inl (refl, h)
run_if false h = inr (refl, h)
