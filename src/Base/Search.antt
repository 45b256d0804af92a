-- ===== src/Base/Search.antt =====
-- The loops `for (i = 0; i < N; i++) if (test(a[i])) ...` that leave at the first hit: reading the
-- entry, its index, or replacing it. `none` is the loop that runs off the end.
use Prim.Native.Nat.{ℕ, zero, suc, ◌+◌, ◌<◌, ◌≤◌}
use mathlib.Core.Path.{◌≡◌, refl, ap}
use mathlib.Core.Logic.{inl, inr}
use mathlib.Core.Bool.{Bool, true, false}
use mathlib.Core.List.{List, [], ◌∷◌, map}
use mathlib.Core.Option.{Option, none, some}
use mathlib.Core.Option
use native.Mathlib.Omega.{arith}
use mmemphis.Base.Tests.{if◌then◌else◌, Bool-cases, Option-cases}
use mmemphis.Base.Arrays.{length, get_elem?, modify}

abbrev pub bit : Bool → ℕ
bit true = 1
bit false = 0

module _ {ℓ} {A : Type ℓ} where
  unfoldable pub first? : (A → Bool) → List A → Option A
  first? p [] = none
  first? p (x ∷ xs) = if p x then some x else first? p xs

  unfoldable pub index? : (A → Bool) → List A → Option ℕ
  index? p [] = none
  index? p (x ∷ xs) = if p x then some 0 else Option.map suc (index? p xs)

  unfoldable pub replace? : (A → Bool) → (A → A) → List A → Option (List A)
  replace? p f [] = none
  replace? p f (x ∷ xs) = if p x then some (f x ∷ xs) else Option.map (λ r. x ∷ r) (replace? p f xs)

  -- The number of entries that pass a test.
  unfoldable pub count : (A → Bool) → List A → ℕ
  count p [] = 0
  count p (x ∷ xs) = (if p x then 1 else 0) + count p xs

  -- Every entry fails the test.
  abbrev pub NoneOf : (A → Bool) → List A → Type 0
  NoneOf p [] = Unit {0}
  NoneOf p (x ∷ xs) = (p x ≡ false) × NoneOf p xs

  pub first?-holds : (p : A → Bool) (xs : List A) {a : A} → first? p xs ≡ some a → p a ≡ true
  unfolding first?
  first?-holds p [] h = cc
  first?-holds p (x ∷ xs) {a} h = ground (arith, first?-holds p xs {a = a})

  pub first?-none : (p : A → Bool) (xs : List A) → first? p xs ≡ none → NoneOf p xs
  unfolding first?
  first?-none p [] h = tt
  first?-none p (x ∷ xs) h = ground (arith, first?-none p xs)

  pub NoneOf-first? : (p : A → Bool) (xs : List A) → NoneOf p xs → first? p xs ≡ none
  unfolding first?
  NoneOf-first? p [] h = refl
  NoneOf-first? p (x ∷ xs) h = rw h.0 (NoneOf-first? p xs h.1)

  pub NoneOf-get :
      (p : A → Bool) (xs : List A) (i : ℕ) {a : A}
      → NoneOf p xs
      → get_elem? xs i ≡ some a
      → p a ≡ false
  NoneOf-get p [] i h e = cc
  NoneOf-get p (x ∷ xs) zero h e = ground arith
  NoneOf-get p (x ∷ xs) (suc i) h e = NoneOf-get p xs i h.1 e

  -- The index found is that of the entry found.
  pub index?-first? :
      (p : A → Bool) (xs : List A) (i : ℕ)
      → index? p xs ≡ some i
      → (a : A) × (first? p xs ≡ some a) × (get_elem? xs i ≡ some a)
  unfolding first? index?
  index?-first? p [] i h = absurd (cc)
  index?-first? p (x ∷ xs) zero h = elim (Bool-cases (p x)) [
    | inl e ↦ (x, rw e, refl)
    | inr e ↦ elim (Option-cases (index? p xs)) [
      | inl n ↦ absurd (ground arith)
      | inr (j, s) ↦ absurd (ground arith)
    ]
  ]
  index?-first? p (x ∷ xs) (suc i) h = elim (Bool-cases (p x)) [
    | inl e ↦ absurd (ground arith)
    | inr e ↦ rw e (index?-first? p xs i (ground arith))
  ]

  pub index?-none : (p : A → Bool) (xs : List A) → index? p xs ≡ none → NoneOf p xs
  unfolding index?
  index?-none p [] h = tt
  index?-none p (x ∷ xs) h = ground (arith, index?-none p xs)

  -- No entry before the index found passes the test.
  pub index?-before :
      (p : A → Bool) (xs : List A) (i j : ℕ) {a : A}
      → index? p xs ≡ some i
      → j < i
      → get_elem? xs j ≡ some a
      → p a ≡ false
  unfolding index?
  index?-before p [] i j h lt e = cc
  index?-before p (x ∷ xs) zero j h lt e = absurd (omega arith)
  index?-before p (x ∷ xs) (suc i) zero h lt e = ground arith
  index?-before p (x ∷ xs) (suc i) (suc j) h lt e =
      index?-before p xs i j (ground arith) (omega arith) e

  -- The replacing loop runs off the end exactly where the search does.
  pub replace?-none :
      (p : A → Bool) (f : A → A) (xs : List A) → replace? p f xs ≡ none → NoneOf p xs
  unfolding replace?
  replace?-none p f [] h = tt
  replace?-none p f (x ∷ xs) h = ground (arith, replace?-none p f xs)

  pub replace?-NoneOf :
      (p : A → Bool) (f : A → A) (xs : List A) → NoneOf p xs → replace? p f xs ≡ none
  unfolding replace?
  replace?-NoneOf p f [] h = refl
  replace?-NoneOf p f (x ∷ xs) h = rw (h.0, replace?-NoneOf p f xs h.1)

  pub length-replace? :
      (p : A → Bool) (f : A → A) (xs : List A) {ys : List A}
      → replace? p f xs ≡ some ys
      → length ys ≡ length xs
  unfolding replace?
  length-replace? p f [] h = cc
  length-replace? p f (x ∷ xs) {ys} h = elim (Option-cases (replace? p f xs)) [
    | inl n ↦ ground arith
    | inr (r, s) ↦ ground (arith, length-replace? p f xs s)
  ]

  -- What `q` finds in the new array, where it found nothing in the old one and takes the new entry.
  pub first?-replace?_new :
      (p : A → Bool) (f : A → A) (q : A → Bool) (xs : List A) {ys : List A}
      → ((a : A) → p a ≡ true → q (f a) ≡ true)
      → NoneOf q xs
      → replace? p f xs ≡ some ys
      → (a : A) × (first? p xs ≡ some a) × (first? q ys ≡ some (f a))
  unfolding replace? first?
  first?-replace?_new p f q [] hit miss h = absurd (cc)
  first?-replace?_new p f q (x ∷ xs) {ys} hit miss h = elim (Bool-cases (p x)) [
    | inl e ↦ (x, rw e, ground (arith, hit x e))
    | inr e ↦ elim (Option-cases (replace? p f xs)) [
      | inl n ↦ absurd (ground arith)
      | inr (r, s) ↦ ground (arith, first?-replace?_new p f q xs hit miss.1 s)
    ]
  ]

  -- A test that the replaced entry fails before and after finds what it found.
  pub first?-replace?_other :
      (p : A → Bool) (f : A → A) (q : A → Bool) (xs : List A) {ys : List A}
      → ((a : A) → p a ≡ true → q a ≡ false)
      → ((a : A) → p a ≡ true → q (f a) ≡ false)
      → replace? p f xs ≡ some ys
      → first? q ys ≡ first? q xs
  unfolding replace? first?
  first?-replace?_other p f q [] old new h = cc
  first?-replace?_other p f q (x ∷ xs) {ys} old new h = elim (Bool-cases (p x)) [
    | inl e ↦ ground (arith, old x e, new x e)
    | inr e ↦ elim (Option-cases (replace? p f xs)) [
      | inl n ↦ ground arith
      | inr (r, s) ↦ ground (arith, first?-replace?_other p f q xs old new s)
    ]
  ]

  pub count-replace? :
      (p : A → Bool) (f : A → A) (q : A → Bool) (b b' : Bool) (xs : List A) {ys : List A}
      → ((a : A) → p a ≡ true → q a ≡ b)
      → ((a : A) → p a ≡ true → q (f a) ≡ b')
      → replace? p f xs ≡ some ys
      → count q ys + bit b ≡ count q xs + bit b'
  unfolding replace? count
  count-replace? p f q b b' [] old new h = cc
  count-replace? p f q b b' (x ∷ xs) {ys} old new h = elim (Bool-cases (p x)) [
    | inl e ↦ ground (arith, old x e, new x e)
    | inr e ↦ elim (Option-cases (replace? p f xs)) [
      | inl n ↦ ground arith
      | inr (r, s) ↦ ground (arith, count-replace? p f q b b' xs old new s)
    ]
  ]

  pub NoneOf-count : (p : A → Bool) (xs : List A) → NoneOf p xs → count p xs ≡ 0
  unfolding count
  NoneOf-count p [] h = refl
  NoneOf-count p (x ∷ xs) h = ground (arith, NoneOf-count p xs)

  pub count-NoneOf : (p : A → Bool) (xs : List A) → count p xs ≡ 0 → NoneOf p xs
  unfolding count
  count-NoneOf p [] h = tt
  count-NoneOf p (x ∷ xs) h = ground (arith, count-NoneOf p xs)

  pub count-le-length : (p : A → Bool) (xs : List A) → count p xs ≤ length xs
  unfolding count
  count-le-length p [] = omega arith
  count-le-length p (x ∷ xs) = ground (arith, count-le-length p xs)

  -- Writing through the address found is what the replacing loop does.
  pub replace?-index? :
      (p : A → Bool) (f : A → A) (xs : List A) (i : ℕ)
      → index? p xs ≡ some i
      → replace? p f xs ≡ some (modify xs i f)
  unfolding replace? index?
  replace?-index? p f [] i h = absurd (cc)
  replace?-index? p f (x ∷ xs) zero h = elim (Bool-cases (p x)) [
    | inl e ↦ rw e refl
    | inr e ↦ elim (Option-cases (index? p xs)) [
      | inl n ↦ absurd (ground arith)
      | inr (j, s) ↦ absurd (ground arith)
    ]
  ]
  replace?-index? p f (x ∷ xs) (suc i) h = elim (Bool-cases (p x)) [
    | inl e ↦ absurd (ground arith)
    | inr e ↦ rw (e, replace?-index? p f xs i (ground arith)) refl
  ]

  -- An array that a search leaves through `index?` is rewritten back by undoing the write.
  pub modify-modify :
      (xs : List A) (i : ℕ) (f g : A → A) {a : A}
      → get_elem? xs i ≡ some a
      → g (f a) ≡ a
      → modify (modify xs i f) i g ≡ xs
  modify-modify [] i f g h e = refl
  modify-modify (x ∷ xs) zero f g h e = ground arith
  modify-modify (x ∷ xs) (suc i) f g h e = ap (λ r. x ∷ r) (modify-modify xs i f g h e)

  -- An element-wise change that `q` fails on, and that spares what `q` fails on already.
  pub NoneOf-map :
      (q : A → Bool) (f : A → A) (xs : List A) → ((a : A) → q (f a) ≡ false) → NoneOf q (map f xs)
  NoneOf-map q f [] h = tt
  NoneOf-map q f (x ∷ xs) h = (h x, NoneOf-map q f xs h)

  -- An element-wise change that spares the entries that `q` takes.
  pub first?-map :
      (q : A → Bool) (f : A → A) (xs : List A)
      → ((a : A) → q a ≡ true → f a ≡ a)
      → ((a : A) → q a ≡ false → q (f a) ≡ false)
      → first? q (map f xs) ≡ first? q xs
  unfolding first?
  first?-map q f [] keep miss = refl
  first?-map q f (x ∷ xs) keep miss = elim (Bool-cases (q x)) [
    | inl e ↦ rw (keep x e, e) refl
    | inr e ↦ rw (miss x e, e) (first?-map q f xs keep miss)
  ]

  pub count-map :
      (q r : A → Bool) (f : A → A) (xs : List A)
      → ((a : A) → q (f a) ≡ r a)
      → count q (map f xs) ≡ count r xs
  unfolding count
  count-map q r f [] h = refl
  count-map q r f (x ∷ xs) h = ground (arith, h x, count-map q r f xs h)

  pub count_mono :
      (q r : A → Bool) (xs : List A) → ((a : A) → q a ≡ true → r a ≡ true) → count q xs ≤ count r xs
  unfolding count
  count_mono q r [] h = omega arith
  count_mono q r (x ∷ xs) h = elim (Bool-cases (q x)) [
    | inl e ↦ ground (arith, h x e, count_mono q r xs h)
    | inr e ↦ ground (arith, count_mono q r xs h)
  ]

  pub NoneOf-of-map :
      (q r : A → Bool) (f : A → A) (xs : List A)
      → ((a : A) → q (f a) ≡ false → r a ≡ false)
      → NoneOf q (map f xs)
      → NoneOf r xs
  NoneOf-of-map q r f [] h n = tt
  NoneOf-of-map q r f (x ∷ xs) h n = (h x n.0, NoneOf-of-map q r f xs h n.1)

  -- The count of any test, from the entry that the loop replaces.
  pub count-replace?_at :
      (p : A → Bool) (f : A → A) (q : A → Bool) (xs : List A) {a : A} {ys : List A}
      → first? p xs ≡ some a
      → replace? p f xs ≡ some ys
      → count q ys + bit (q a) ≡ count q xs + bit (q (f a))
  unfolding replace? count first?
  count-replace?_at p f q [] s h = cc
  count-replace?_at p f q (x ∷ xs) {a} {ys} s h = elim (Bool-cases (p x)) [
    | inl e ↦
        let same : x ≡ a = ground arith in
        let out : f x ∷ xs ≡ ys = ground arith in rw (← same, ← out) (ground arith)
    | inr e ↦ elim (Option-cases (replace? p f xs)) [
      | inl n ↦ absurd (ground arith)
      | inr (r, t) ↦
          let out : x ∷ r ≡ ys = ground arith in
          rw (← out) (omega (arith, count-replace?_at p f q xs {a = a} (ground arith) t))
    ]
  ]
