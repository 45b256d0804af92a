-- ===== src/Mapper/Processors/Pages.antt =====
-- The pages of a whole cluster: the counter of free resources, and where each task is.
use mmemphis.Base.{
  ℕ, ◌+◌, ◌≤◌, ◌<◌, ◌≡◌, ◌≢◌, inl, inr, List, [], ◌∷◌, arith, ◌==◌, Bool-cases, length, count,
  count-le-length, word_mod, minus_one, add32, sub32, done, Running-cases,
}
use mmemphis.Mapper.Processors.{
  Processor, Resources, on_processor, place, displace, add_task, remove_task, page_used,
  page_released,
}
use mmemphis.Mapper.Processors.Tasks.{IsValid, is_slot_free, on, place_lem, displace_lem}

abbrev pub AllValid : List Processor → Type 0
AllValid [] = Unit {0}
AllValid (p ∷ ps) = IsValid p × AllValid ps

-- The free pages, and all pages, of the cluster.
abbrev pub sum_free : List Processor → ℕ
sum_free [] = 0
sum_free (p ∷ ps) = p.free_pages + sum_free ps

abbrev pub pages : List Processor → ℕ
pages [] = 0
pages (p ∷ ps) = length p.task + pages ps

-- The slots of the cluster that hold a task.
abbrev pub homes : ℕ → List Processor → ℕ
homes t [] = 0
homes t (p ∷ ps) = count (on t) p.task + homes t ps

pub record IsConsistent (r : Resources) : Type 0 where
  pub valid : AllValid r.processors
  pub counted : r.free_resources ≡ sum_free r.processors
  pub small : pages r.processors < word_mod

-- What an act on one processor changes in the cluster.
record Changed (a : ℕ) (t : ℕ) (ps ps' : List Processor) : Type 0 where
  valid : AllValid ps'
  pages_kept : pages ps' ≡ pages ps
  others : (u : ℕ) → u ≢ t → u ≢ minus_one → homes u ps' ≡ homes u ps

sum_free-le-pages : (ps : List Processor) → AllValid ps → sum_free ps ≤ pages ps
sum_free-le-pages [] v = omega arith
sum_free-le-pages (p ∷ ps) v =
    ground (arith, sum_free-le-pages ps v.1, count-le-length is_slot_free p.task)

module _ (a t : ℕ) (m : t ≢ minus_one) where
  add_task-Changed :
      (ps : List Processor) {ps' : List Processor}
      → AllValid ps
      → add_task a t ps ≡ done ps'
      → Changed a t ps ps' × (sum_free ps' + 1 ≡ sum_free ps) × (homes t ps' ≡ homes t ps + 1)
  unfolding add_task on_processor
  add_task-Changed [] v h = absurd (cc)
  add_task-Changed (p ∷ ps) {ps'} v h = elim (Bool-cases (p.address == a)) [
    | inl e ↦ elim (place_lem t p v.0 m) [
      | inl (no_room, _) ↦ absurd (ground arith)
      | inr (p', s, w, _, l, f, z, o, k) ↦
          let out : p' ∷ ps ≡ ps' = ground arith in
          rw (← out) (
            record {
              valid = (w, v.1);
              pages_kept = ground arith;
              others = λ u d n. ground (arith, k u d n);
            },
            ground arith,
            ground arith,
          )
    ]
    | inr e ↦ elim (Running-cases (on_processor a (place t) ps)) [
      | inl n ↦ absurd (ground arith)
      | inr (qs, s) ↦
          let (c, f, o) = add_task-Changed ps {ps' = qs} v.1 s in
          let out : p ∷ qs ≡ ps' = ground arith in
          rw (← out) (
            record {
              valid = (v.0, c.valid);
              pages_kept = omega (arith, c.pages_kept);
              others = λ u d n. omega (arith, c.others u d n);
            },
            omega (arith, f),
            omega (arith, o),
          )
    ]
  ]

  remove_task-Changed :
      (ps : List Processor) {ps' : List Processor}
      → AllValid ps
      → remove_task a t ps ≡ done ps'
      → Changed a t ps ps' × (sum_free ps' ≡ sum_free ps + 1) × (homes t ps' + 1 ≡ homes t ps)
  unfolding remove_task on_processor
  remove_task-Changed [] v h = absurd (cc)
  remove_task-Changed (p ∷ ps) {ps'} v h = elim (Bool-cases (p.address == a)) [
    | inl e ↦ elim (displace_lem t p v.0 m) [
      | inl (no_task, _) ↦ absurd (ground arith)
      | inr (p', s, w, _, l, f, o, k) ↦
          let out : p' ∷ ps ≡ ps' = ground arith in
          rw (← out) (
            record {
              valid = (w, v.1);
              pages_kept = ground arith;
              others = λ u d n. ground (arith, k u d n);
            },
            ground arith,
            ground arith,
          )
    ]
    | inr e ↦ elim (Running-cases (on_processor a (displace t) ps)) [
      | inl n ↦ absurd (ground arith)
      | inr (qs, s) ↦
          let (c, f, o) = remove_task-Changed ps {ps' = qs} v.1 s in
          let out : p ∷ qs ≡ ps' = ground arith in
          rw (← out) (
            record {
              valid = (v.0, c.valid);
              pages_kept = omega (arith, c.pages_kept);
              others = λ u d n. omega (arith, c.others u d n);
            },
            omega (arith, f),
            omega (arith, o),
          )
    ]
  ]

  -- In a consistent cluster, taking a page for a task other than -1, where it returns, keeps the
  -- free resources equal to the sum of the processors' free pages, takes one of them, gives the
  -- task one slot more, and moves no other task.
  pub page_used-IsConsistent :
      (r : Resources) {r' : Resources}
      → IsConsistent r
      → page_used a t r ≡ done r'
      → IsConsistent r'
        × (r'.free_resources + 1 ≡ r.free_resources)
        × (homes t r'.processors ≡ homes t r.processors + 1)
        × ((u : ℕ) → u ≢ t → u ≢ minus_one → homes u r'.processors ≡ homes u r.processors)
  unfolding page_used
  page_used-IsConsistent r {r'} v h = elim (Running-cases (add_task a t r.processors)) [
    | inl n ↦ absurd (ground arith)
    | inr (ps, s) ↦
        let (c, f, o) = add_task-Changed r.processors {ps' = ps} v.valid s in
        let small = sum_free-le-pages r.processors v.valid in
        let out : record { processors = ps; free_resources = sub32 r.free_resources 1 } ≡ r' =
          ground arith in
        rw (← out) (
          record {
            valid = c.valid;
            counted = omega (arith, v.counted, v.small);
            small = omega (arith, v.small, c.pages_kept);
          },
          omega (arith, v.counted, v.small),
          o,
          c.others,
        )
  ]

  -- In a consistent cluster, releasing the page of a task other than -1, where it returns, keeps
  -- the free resources equal to the sum of the processors' free pages, gives one back, takes one
  -- slot of the task away, and moves no other task.
  pub page_released-IsConsistent :
      (r : Resources) {r' : Resources}
      → IsConsistent r
      → page_released a t r ≡ done r'
      → IsConsistent r'
        × (r'.free_resources ≡ r.free_resources + 1)
        × (homes t r'.processors + 1 ≡ homes t r.processors)
        × ((u : ℕ) → u ≢ t → u ≢ minus_one → homes u r'.processors ≡ homes u r.processors)
  unfolding page_released
  page_released-IsConsistent r {r'} v h = elim (Running-cases (remove_task a t r.processors)) [
    | inl n ↦ absurd (ground arith)
    | inr (ps, s) ↦
        let (c, f, o) = remove_task-Changed r.processors {ps' = ps} v.valid s in
        let small = sum_free-le-pages ps c.valid in
        let out : record { processors = ps; free_resources = add32 r.free_resources 1 } ≡ r' =
          ground arith in
        rw (← out) (
          record {
            valid = c.valid;
            counted = omega (arith, v.counted, v.small, c.pages_kept);
            small = omega (arith, v.small, c.pages_kept);
          },
          omega (arith, v.counted, v.small, c.pages_kept),
          o,
          c.others,
        )
  ]
