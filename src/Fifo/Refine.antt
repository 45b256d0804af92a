-- ===== src/Fifo/Refine.antt =====
-- The circular FIFO implements the bounded queue.
use mathlib.Core.Path.{ap₂}
use mmemphis.Base.{
  ℕ, zero, suc, ◌+◌, ◌-◌, ◌≤◌, ◌<◌, ◌≡◌, refl, ap, ◌⊎◌, ◌∙◌, inl, inr, List, [], ◌∷◌, ◌++◌, arith,
  length, get_or, set, length-set, get_or-set_self, get_or-set_ne, ◌==◌, ltb, if◌then◌else◌, done,
  ◌>>=◌, Bool-cases, false,
}
use mathlib.Core.Option
use mmemphis.Fifo.Queue
use mmemphis.Fifo.{Fifo, bump, is_full, is_empty, store, add, next}

pub record IsValid {ℓ} {A : Type ℓ} (q : Fifo A) : Type 0 where
  pub first_in : q.first < length q.slots
  pub last_in : q.last < length q.slots
  pub flag : q.add_fifo ≤ 1

-- The number of entries that wait.
abbrev pub size {ℓ} : {A : Type ℓ} → Fifo A → ℕ
size q =
    if q.first == q.last
    then (if q.add_fifo == 1 then length q.slots else 0)
    else (if ltb q.first q.last then q.last - q.first else q.last + length q.slots - q.first)

-- Every address that the code reads is a default's where the array ends.
module _ {A : Type 0} (d : A) where
  -- The `n` entries from index `h` on, going round at the array's end.
  abbrev pub window : List A → ℕ → ℕ → ℕ → List A
  window slots limit h zero = []
  window slots limit h (suc n) = get_or slots h d ∷ window slots limit (bump limit h) n

  -- What the FIFO holds, oldest first.
  abbrev pub contents : Fifo A → List A
  contents q = window q.slots (length q.slots) q.first (size q)

  length-window : (slots : List A) (limit h n : ℕ) → length (window slots limit h n) ≡ n
  length-window slots limit h zero = refl
  length-window slots limit h (suc n) = ap suc (length-window slots limit (bump limit h) n)

  -- Writing just past a window extends it by that entry.
  window-set :
      (slots : List A) (limit n h l : ℕ) (x : A)
      → limit ≤ length slots
      → h < limit
      → l < limit
      → n < limit
      → (h + n ≡ l) ⊎ (h + n ≡ l + limit)
      → window (set slots l x) limit h (suc n) ≡ window slots limit h n ++ x ∷ []
  window-set slots limit zero h l x hs hh hl hn e =
      let e' : h ≡ l = omega arith in rw (e', get_or-set_self slots l x d (omega arith))
  window-set slots limit (suc n) h l x hs hh hl hn e =
      ap₂ ◌∷◌ (get_or-set_ne slots x d (omega arith)) (
        window-set slots limit n (bump limit h) l x hs (ground arith) hl (omega arith)
          (ground arith))

  window-suc :
      (slots : List A) (limit h n : ℕ)
      → 0 < n
      → window slots limit h n ≡ get_or slots h d ∷ window slots limit (bump limit h) (n - 1)
  window-suc slots limit h zero lt = absurd (omega arith)
  window-suc slots limit h (suc n) lt =
      let e : n ≡ suc n - 1 = omega arith in
      ap (λ k. get_or slots h d ∷ window slots limit (bump limit h) k) e

  pub length-contents : (q : Fifo A) → length (contents q) ≡ size q
  length-contents q = length-window q.slots (length q.slots) q.first (size q)

  pub contents-store :
      (q : Fifo A) (x : A)
      → IsValid q
      → is_full q ≡ false
      → contents (store q x) ≡ contents q ++ x ∷ []
  contents-store q x v e =
      ap₂ (λ c n. window (set q.slots q.last x) c q.first n) (length-set q.slots q.last x) grown
      ∙ (window-set q.slots (length q.slots) (size q) q.first q.last x (omega arith) v.first_in
          v.last_in (ground arith) (ground arith))
    where
      grown : size (store q x) ≡ suc (size q)
      grown = ground (arith, length-set q.slots q.last x)

  pub store-IsValid : (q : Fifo A) (x : A) → IsValid q → IsValid (store q x)
  store-IsValid q x v = ground (arith, length-set q.slots q.last x)

  pub add-IsValid : (q : Fifo A) (x : A) {q' : Fifo A} → IsValid q → add q x ≡ done q' → IsValid q'
  unfolding add
  add-IsValid q x v e = ground (arith, store-IsValid q x v)

  pub next-IsValid : (q : Fifo A) → IsValid q → IsValid (next q).1
  unfolding next
  next-IsValid q v = ground arith

  pub full-size : (q : Fifo A) → IsValid q → is_full q ≡ (size q == length q.slots)
  full-size q v = ground arith

  -- Adding spins exactly where the bounded queue is full, and else leaves the queue with the entry
  -- at its end.
  pub add_refines :
      (q : Fifo A) (x : A)
      → IsValid q
      → (do q' ← add q x; done (contents q')) ≡ Queue.push (length q.slots) (contents q) x
  unfolding add Queue.push
  add_refines q x v = elim (Bool-cases (is_full q)) [
    | inl full ↦ rw (full, length-contents q, ← full-size q v, full) refl
    | inr room ↦
        rw (room, length-contents q, ← full-size q v, room) (ap done (contents-store q x v room))
  ]

  -- Removing yields the address of the oldest entry, or none, and leaves the rest.
  pub next_refines :
      (q : Fifo A)
      → IsValid q
      → let (i, q') = next q in
        (Option.map (λ k. get_or q.slots k d) i, contents q') ≡ Queue.pop (contents q)
  unfolding next Queue.pop
  next_refines q v = elim (Bool-cases (is_empty q)) [
    | inl e ↦ rw e (ground arith)
    | inr e ↦ ground (arith, window-suc q.slots (length q.slots) q.first (size q), shrunk e)
  ]
    where
      shrunk :
          is_empty q ≡ false
          → size (record q { first = bump (length q.slots) q.first; add_fifo = 0 }) ≡ size q - 1
      shrunk e = ground arith
