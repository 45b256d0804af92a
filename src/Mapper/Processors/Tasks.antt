-- ===== src/Mapper/Processors/Tasks.antt =====
-- One processor's task slots: its free pages are its free slots.
use mmemphis.Base.{
  ℕ, zero, suc, ◌+◌, ◌<◌, ◌≡◌, refl, ◌≢◌, ◌⊎◌, inl, inr, Bool, true, false, Option, none, some,
  List, [], ◌∷◌, arith, ◌==◌, if◌then◌else◌, Bool-cases, Option-cases, length, get_elem?, set,
  length-set, replace?, count, bit, replace?-none, length-replace?, count-replace?, NoneOf-count,
  count-le-length, word_mod, minus_one, add32, sub32, done, hangs,
}
use mmemphis.Mapper.Processors.{Processor, scan_slots, place, displace}

abbrev pub is_slot_free : ℕ → Bool
is_slot_free t = t == minus_one

abbrev pub on : ℕ → ℕ → Bool
on task_id t = t == task_id

-- `free_pages` counts the free slots of fewer than 2 ^ 32.
pub record IsValid (p : Processor) : Type 0 where
  pub free : p.free_pages ≡ count is_slot_free p.task
  pub small : length p.task < word_mod

-- What the loop of `add_task` finds: the task, and then it spins, or else a free slot if there is
-- one, and the slot it started with if not.
scan_slots_lem :
    (t i : ℕ) (acc : Option ℕ) (xs : List ℕ)
    → ((scan_slots t i acc xs ≡ hangs) × (0 < count (on t) xs))
      ⊎ ((count (on t) xs ≡ 0) × (count is_slot_free xs ≡ 0) × (scan_slots t i acc xs ≡ done acc))
      ⊎ ((j : ℕ) × (count (on t) xs ≡ 0)
          × (scan_slots t i acc xs ≡ done (some (i + j)))
          × (get_elem? xs j ≡ some minus_one))
unfolding scan_slots count
scan_slots_lem t i acc [] = inr (inl (refl, refl, refl))
scan_slots_lem t i acc (x ∷ xs) = elim (Bool-cases (x == t)) [
  | inl is ↦ inl (ground arith, ground arith)
  | inr isnt ↦ elim (scan_slots_lem t (i + 1) (if x == minus_one then some i else acc) xs) [
    | inl (h, c) ↦ inl (ground arith, ground arith)
    | inr (inl (c, z, h)) ↦ elim (Bool-cases (x == minus_one)) [
      | inl e ↦ inr (inr (0, ground arith, ground arith, ground arith))
      | inr e ↦ inr (inl (ground arith, ground arith, ground arith))
    ]
    | inr (inr (j, c, h, g)) ↦ inr (inr (suc j, ground arith, ground arith, g))
  ]
]

-- Writing over a free slot.
count-set :
    (q : ℕ → Bool) (xs : List ℕ) (i v : ℕ) {a : ℕ}
    → get_elem? xs i ≡ some a
    → count q (set xs i v) + bit (q a) ≡ count q xs + bit (q v)
unfolding count
count-set q [] i v h = cc
count-set q (x ∷ xs) zero v h = ground arith
count-set q (x ∷ xs) (suc i) v h = omega (arith, count-set q xs i v h)

-- On a processor whose free pages count its free slots, placing a task other than -1 spins only
-- where no page is free or the task is there already. Else the task has one slot, one page less is
-- free, and every other task has the slots it had.
pub place_lem :
    (t : ℕ) (p : Processor)
    → IsValid p
    → t ≢ minus_one
    → ((place t p ≡ hangs) × ((p.free_pages ≡ 0) ⊎ (0 < count (on t) p.task)))
      ⊎ ((p' : Processor) × (place t p ≡ done p')
          × IsValid p'
          × (p'.address ≡ p.address)
          × (length p'.task ≡ length p.task)
          × (p'.free_pages + 1 ≡ p.free_pages)
          × (count (on t) p.task ≡ 0)
          × (count (on t) p'.task ≡ 1)
          × ((u : ℕ) → u ≢ t → u ≢ minus_one → count (on u) p'.task ≡ count (on u) p.task))
unfolding place
place_lem t p v m = elim (Bool-cases (p.free_pages == 0)) [
  | inl e ↦ inl (rw e refl, inl (ground arith))
  | inr e ↦ elim (scan_slots_lem t 0 none p.task) [
    | inl (h, c) ↦ inl (rw (e, h) refl, inr c)
    | inr (inl (c, z, h)) ↦ absurd (ground (arith, v.free))
    | inr (inr (j, c, h, g)) ↦
        let j' : 0 + j ≡ j = omega arith in
        inr (
          record p { task = set p.task j t; free_pages = sub32 p.free_pages 1 },
          rw (e, h, j') refl,
          ground (
            arith,
            count-set is_slot_free p.task j t g,
            length-set p.task j t,
            count-le-length is_slot_free p.task,
          ),
          refl,
          length-set p.task j t,
          ground (arith, count-le-length is_slot_free p.task),
          c,
          ground (arith, count-set (on t) p.task j t g),
          λ u d n. ground (arith, count-set (on u) p.task j t g),
        )
  ]
]

-- On a processor whose free pages count its free slots, displacing a task other than -1 spins only
-- where the task is not on the processor. Else one of its slots is free again, one page more is
-- free, and every other task has the slots it had.
pub displace_lem :
    (t : ℕ) (p : Processor)
    → IsValid p
    → t ≢ minus_one
    → ((displace t p ≡ hangs) × (count (on t) p.task ≡ 0))
      ⊎ ((p' : Processor) × (displace t p ≡ done p')
          × IsValid p'
          × (p'.address ≡ p.address)
          × (length p'.task ≡ length p.task)
          × (p'.free_pages ≡ p.free_pages + 1)
          × (count (on t) p'.task + 1 ≡ count (on t) p.task)
          × ((u : ℕ) → u ≢ t → u ≢ minus_one → count (on u) p'.task ≡ count (on u) p.task))
unfolding displace
displace_lem t p v m = elim (Option-cases (replace? (on t) (λ _. minus_one) p.task)) [
  | inl e ↦ inl (
    ground (arith, e),
    NoneOf-count (on t) p.task (replace?-none (on t) (λ _. minus_one) p.task e),
  )
  | inr (xs, e) ↦
      let taken =
        count-replace? (on t) (λ _. minus_one) is_slot_free false true p.task (λ a h. ground arith)
          (λ a h. refl) e in
      let freed =
        count-replace? (on t) (λ _. minus_one) (on t) true false p.task (λ a h. h)
          (λ a h. ground arith) e in
      inr (
        record p { task = xs; free_pages = add32 p.free_pages 1 },
        ground (
          arith,
          e,
          count-le-length is_slot_free xs,
          length-replace? (on t) (λ _. minus_one) p.task e,
        ),
        ground (
          arith,
          count-le-length is_slot_free xs,
          length-replace? (on t) (λ _. minus_one) p.task e,
        ),
        refl,
        length-replace? (on t) (λ _. minus_one) p.task e,
        ground (
          arith,
          count-le-length is_slot_free xs,
          length-replace? (on t) (λ _. minus_one) p.task e,
        ),
        ground arith,
        λ u d n. omega (
          arith,
          count-replace? (on t) (λ _. minus_one) (on u) false false p.task (λ a h. ground arith)
              (λ a h. ground arith) e,
        ),
      )
]
