-- ===== src/Utils.antt =====
-- The printers of numbers of software/kernel/modules/utils.c, which write into buffers of their own:
-- a text is the list of its characters' codes, without the final 0.
pub mod Parse
use mmemphis.Base.{ℕ, zero, suc, ◌+◌, ◌/◌, ◌%◌, List, [], ◌∷◌, ltb, ◌==◌, if◌then◌else◌, replicate}

-- The digits, least first; the loop ends after eleven.
unfoldable pub digits_from : ℕ → ℕ → List ℕ
digits_from zero num = []
digits_from (suc fuel) num =
    let rest = digits_from fuel (num / 10) in if num == 0 then [] else (num % 10 + 48) ∷ rest

-- `buf2` is filled from its end.
unfoldable pub reversed_onto : List ℕ → List ℕ → List ℕ
reversed_onto [] text = text
reversed_onto (c ∷ cs) text = reversed_onto cs (c ∷ text)

unfoldable pub itoa : ℕ → List ℕ
itoa num = if num == 0 then 48 ∷ [] else reversed_onto (digits_from 11 num) []

abbrev pub hex_digit : ℕ → ℕ
hex_digit d = if ltb d 10 then d + 48 else d + 87

-- `n` digits in front of those that are written.
unfoldable pub hex_from : ℕ → ℕ → List ℕ → List ℕ
hex_from zero num text = text
hex_from (suc n) num text = hex_from n (num / 16) (hex_digit (num % 16) ∷ text)

unfoldable pub itoh : ℕ → List ℕ
itoh num = 48 ∷ 120 ∷ (if num == 0 then replicate 8 48 else hex_from 8 num [])
