-- ===== src/Utils/Parse.antt =====
-- The texts that are printed read as the numbers.
use mmemphis.Base.{
  ℕ, zero, suc, ◌+◌, ◌-◌, ◌*◌, ◌/◌, ◌%◌, ◌<◌, ◌≡◌, refl, sym, ap, ◌∙◌, inl, inr, List, [], ◌∷◌,
  arith, ltb, leb, Bool, true, false, ◌&&◌, ◌||◌, Option, none, some, ◌==◌, if◌then◌else◌, ==-eq,
  Bool-cases, length, replicate, word_mod,
}
use mmemphis.Utils.{digits_from, reversed_onto, itoa, hex_digit, hex_from, itoh}

-- A decimal digit, or one of the letters from `a` to `f` where the base has it.
abbrev pub is_digit : ℕ → ℕ → Bool
is_digit base c =
    (leb 48 c && leb c 57 && ltb (c - 48) base) || (leb 97 c && leb c 102 && ltb (c - 87) base)

abbrev pub are_digits : ℕ → List ℕ → Bool
are_digits base [] = true
are_digits base (c ∷ cs) = is_digit base c && are_digits base cs

-- The value of a character that is a digit.
abbrev pub digit_value : ℕ → ℕ
digit_value c = if ltb c 58 then c - 48 else c - 87

unfoldable pub parse : ℕ → ℕ → List ℕ → ℕ
parse base n [] = n
parse base n (c ∷ cs) = parse base (n * base + digit_value c) cs

-- The number that a text is, which has a digit at least and nothing but digits.
unfoldable pub read : ℕ → List ℕ → Option ℕ
read base [] = none
read base (c ∷ cs) = if are_digits base (c ∷ cs) then some (parse base 0 (c ∷ cs)) else none

read-parse :
    (base : ℕ) (text : List ℕ)
    → 0 < length text
    → are_digits base text ≡ true
    → read base text ≡ some (parse base 0 text)
unfolding read
read-parse base [] l h = absurd (omega (arith, l))
read-parse base (c ∷ cs) l h = rw h refl

-- What `n` digits hold.
limit : ℕ → ℕ → ℕ
limit base zero = 1
limit base (suc n) = base * limit base n

-- Decimal digits, least first.
value : List ℕ → ℕ
value [] = 0
value (c ∷ cs) = value cs * 10 + digit_value c

parse-reversed_onto :
    (ds text : List ℕ) → parse 10 0 (reversed_onto ds text) ≡ parse 10 (value ds) text
unfolding parse reversed_onto value
parse-reversed_onto [] text = refl
parse-reversed_onto (d ∷ ds) text = parse-reversed_onto ds (d ∷ text)

value-digits_from : (fuel num : ℕ) → num < limit 10 fuel → value (digits_from fuel num) ≡ num
unfolding value digits_from limit
value-digits_from zero num h = omega (arith, h)
value-digits_from (suc fuel) num h =
    let rest = value-digits_from fuel (num / 10) (omega (arith, h)) in ground (arith, rest)

parse-hex_from :
    (n num : ℕ) (text : List ℕ)
    → num < limit 16 n
    → parse 16 0 (hex_from n num text) ≡ parse 16 num text
unfolding parse hex_from limit
parse-hex_from zero num text h = ap (λ (q : ℕ). parse 16 q text) (omega (arith, h))
parse-hex_from (suc n) num text h =
    let digit : digit_value (hex_digit (num % 16)) ≡ num % 16 = ground arith in
    let whole : num / 16 * 16 + digit_value (hex_digit (num % 16)) ≡ num = omega (arith, digit) in
    parse-hex_from n (num / 16) (hex_digit (num % 16) ∷ text) (omega (arith, h))
    ∙ ap (λ (q : ℕ). parse 16 q text) whole

are_digits-hex_from :
    (n num : ℕ) (text : List ℕ)
    → are_digits 16 text ≡ true
    → are_digits 16 (hex_from n num text) ≡ true
unfolding hex_from
are_digits-hex_from zero num text h = h
are_digits-hex_from (suc n) num text h =
    let digit : is_digit 16 (hex_digit (num % 16)) ≡ true = ground arith in
    are_digits-hex_from n (num / 16) (hex_digit (num % 16) ∷ text) (rw (digit, h) refl)

are_digits-digits_from : (fuel num : ℕ) → are_digits 10 (digits_from fuel num) ≡ true
unfolding digits_from
are_digits-digits_from zero num = refl
are_digits-digits_from (suc fuel) num =
    let rest = are_digits-digits_from fuel (num / 10) in
    let digit : is_digit 10 (num % 10 + 48) ≡ true = ground arith in
    elim (Bool-cases (num == 0)) [ inl z ↦ rw z refl | inr z ↦ rw (z, digit, rest) refl ]

are_digits-reversed_onto :
    (base : ℕ) (ds text : List ℕ)
    → are_digits base ds ≡ true
    → are_digits base text ≡ true
    → are_digits base (reversed_onto ds text) ≡ true
unfolding reversed_onto
are_digits-reversed_onto base [] text h g = g
are_digits-reversed_onto base (d ∷ ds) text h g =
    are_digits-reversed_onto base ds (d ∷ text) (ground (arith, h)) (ground (arith, h, g))

length-hex_from : (n num : ℕ) (text : List ℕ) → length (hex_from n num text) ≡ n + length text
unfolding hex_from
length-hex_from zero num text = omega arith
length-hex_from (suc n) num text =
    omega (arith, length-hex_from n (num / 16) (hex_digit (num % 16) ∷ text))

length-digits_from : (fuel num : ℕ) → (num == 0) ≡ false → 0 < length (digits_from (suc fuel) num)
unfolding digits_from
length-digits_from fuel num z = rw z (omega arith)

length-reversed_onto : (ds text : List ℕ) → length (reversed_onto ds text) ≡ length ds + length text
unfolding reversed_onto
length-reversed_onto [] text = omega arith
length-reversed_onto (d ∷ ds) text = omega (arith, length-reversed_onto ds (d ∷ text))

read-itoa : (num : ℕ) → num < word_mod → read 10 (itoa num) ≡ some num
unfolding itoa read parse limit
read-itoa num h = elim (Bool-cases (num == 0)) [
  | inl z ↦ rw z (ap some (sym (==-eq num 0 z)))
  | inr z ↦
      let ds = digits_from 11 num in
      let ok = are_digits-reversed_onto 10 ds [] (are_digits-digits_from 11 num) refl in
      let is = parse-reversed_onto ds [] ∙ value-digits_from 11 num (omega (arith, h)) in
      let some_digit : 0 < length (reversed_onto ds []) =
        rw (length-reversed_onto ds []) (omega (arith, length-digits_from 10 num z)) in
      rw z (read-parse 10 (reversed_onto ds []) some_digit ok ∙ ap some is)
]

read-itoh :
    (num : ℕ)
    → num < word_mod
    → (hex : List ℕ) × (itoh num ≡ 48 ∷ 120 ∷ hex) × (length hex ≡ 8) × (read 16 hex ≡ some num)
unfolding itoh read parse limit
read-itoh num h = elim (Bool-cases (num == 0)) [
  | inl z ↦ (replicate 8 48, rw z refl, refl, ap some (sym (==-eq num 0 z)))
  | inr z ↦
      let hex = hex_from 8 num [] in
      let long = length-hex_from 8 num [] in
      let ok = are_digits-hex_from 8 num [] refl in
      let is = parse-hex_from 8 num [] (omega (arith, h)) in
      (hex, rw z refl, long, read-parse 16 hex (omega (arith, long)) ok ∙ ap some is)
]

-- What is printed for a 32-bit word is read as that word again: in decimal, where each character is
-- a digit from `0` to `9`, and, after `0x`, as eight characters that are digits from `0` to `9` or
-- from `a` to `f`, in hexadecimal.
pub read-printed :
    (num : ℕ)
    → num < word_mod
    → (read 10 (itoa num) ≡ some num)
      × (hex : List ℕ) × (itoh num ≡ 48 ∷ 120 ∷ hex)
      × (length hex ≡ 8)
      × (read 16 hex ≡ some num)
read-printed num h = let (hex, a, b, c) = read-itoh num h in (read-itoa num h, hex, a, b, c)
