-- ===== src/Memory.antt =====
-- The tasks' pages as words: the copies of messages and packets.
use mmemphis.Base.{
  ℕ, zero, suc, ◌+◌, ◌*◌, ◌≤◌, ◌<◌, ◌≡◌, refl, ◌∙◌, ◌⊎◌, inl, List, [], ◌∷◌, arith, ◌==◌,
  if◌then◌else◌, length,
}

-- Word `v` is written at an address.
abbrev pub store : ℕ → ℕ → (ℕ → ℕ) → ℕ → ℕ
store a v m b = if b == a then v else m b

-- The `n` words from an address on.
unfoldable pub read_words : ℕ → ℕ → (ℕ → ℕ) → List ℕ
read_words a zero m = []
read_words a (suc n) m = m a ∷ read_words (a + 4) n m

unfoldable pub write_words : ℕ → List ℕ → (ℕ → ℕ) → ℕ → ℕ
write_words a [] m = m
write_words a (w ∷ ws) m = write_words (a + 4) ws (store a w m)

-- `for (i = 0; i < n; i++) to[i] = from[i];`
unfoldable pub copy_words : ℕ → ℕ → ℕ → (ℕ → ℕ) → ℕ → ℕ
copy_words zero to from m = m
copy_words (suc n) to from m = copy_words n (to + 4) (from + 4) (store to (m from) m)

-- Outside the words written, and after them, memory is as it was.
pub write_words-below : (ws : List ℕ) (a b : ℕ) (m : ℕ → ℕ) → b < a → write_words a ws m b ≡ m b
unfolding write_words
write_words-below [] a b m h = refl
write_words-below (w ∷ ws) a b m h =
    write_words-below ws (a + 4) b (store a w m) (omega arith) ∙ ground arith

pub write_words-above :
    (ws : List ℕ) (a b : ℕ) (m : ℕ → ℕ) → a + 4 * length ws ≤ b → write_words a ws m b ≡ m b
unfolding write_words
write_words-above [] a b m h = refl
write_words-above (w ∷ ws) a b m h =
    write_words-above ws (a + 4) b (store a w m) (omega arith) ∙ ground arith

-- What is written is read back.
pub read-write_words :
    (ws : List ℕ) (a : ℕ) (m : ℕ → ℕ) → read_words a (length ws) (write_words a ws m) ≡ ws
unfolding read_words write_words
read-write_words [] a m = refl
read-write_words (w ∷ ws) a m =
    let first : write_words (a + 4) ws (store a w m) a ≡ w =
      write_words-below ws (a + 4) a (store a w m) (omega arith) ∙ ground arith in
    ground (arith, first, read-write_words ws (a + 4) (store a w m))

pub read_words-eq :
    (n a : ℕ) (m m' : ℕ → ℕ)
    → ((b : ℕ) → a ≤ b → b < a + 4 * n → m b ≡ m' b)
    → read_words a n m ≡ read_words a n m'
unfolding read_words
read_words-eq zero a m m' h = refl
read_words-eq (suc n) a m m' h =
    let first : m a ≡ m' a = h a (omega arith) (omega arith) in
    let rest = read_words-eq n (a + 4) m m' (λ b l u. h b (omega arith) (omega arith)) in
    ground (arith, first, rest)

-- Two blocks of `n` words that do not overlap.
abbrev pub Apart : ℕ → ℕ → ℕ → Type 0
Apart n to from = (to + 4 * n ≤ from) ⊎ (from + 4 * n ≤ to)

pub copy_words-outside :
    (n to from b : ℕ) (m : ℕ → ℕ) → (b < to) ⊎ (to + 4 * n ≤ b) → copy_words n to from m b ≡ m b
unfolding copy_words
copy_words-outside zero to from b m h = refl
copy_words-outside (suc n) to from b m h =
    copy_words-outside n (to + 4) (from + 4) b (store to (m from) m) (ground arith) ∙ ground arith

pub read-copy_words :
    (n to from : ℕ) (m : ℕ → ℕ)
    → Apart n to from
    → read_words to n (copy_words n to from m) ≡ read_words from n m
unfolding read_words copy_words
read-copy_words zero to from m h = refl
read-copy_words (suc n) to from m h =
    let m' = store to (m from) m in
    let first : copy_words n (to + 4) (from + 4) m' to ≡ m from =
      copy_words-outside n (to + 4) (from + 4) to m' (inl (omega arith)) ∙ ground arith in
    let rest = read-copy_words n (to + 4) (from + 4) m' (ground arith) in
    let same : read_words (from + 4) n m' ≡ read_words (from + 4) n m =
      read_words-eq n (from + 4) m' m (λ b l u. ground arith) in
    ground (arith, first, rest, same)
