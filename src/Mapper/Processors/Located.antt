-- ===== src/Mapper/Processors/Located.antt =====
-- Where the cluster finds a task.
use mmemphis.Base.{
  ℕ, ◌≡◌, refl, ◌≢◌, inl, inr, List, [], ◌∷◌, arith, ◌==◌, Bool-cases, Option-cases, first?,
  first?-none, NoneOf-first?, NoneOf-count, count-NoneOf, count-le-length, minus_one, done,
  Running-cases,
}
use mmemphis.Mapper.Processors.{Processor, on_processor, place, add_task, get_task_location}
use mmemphis.Mapper.Processors.Tasks.{is_slot_free, on, place_lem}
use mmemphis.Mapper.Processors.Pages.{AllValid, homes}

-- A task that has no slot is found nowhere.
pub get_task_location-homeless :
    (t : ℕ) (ps : List Processor) → homes t ps ≡ 0 → get_task_location t ps ≡ minus_one
unfolding get_task_location
get_task_location-homeless t [] h = refl
get_task_location-homeless t (p ∷ ps) h = ground (
  arith,
  get_task_location-homeless t ps,
  NoneOf-first? (on t) p.task (count-NoneOf (on t) p.task (omega arith)),
)

-- Where adding a task to a processor returns, the task is found there, if it was nowhere before and
-- the free pages of each processor count its free slots; neither the task nor the processor's
-- address is -1.
pub add_task-get_task_location :
    (a t : ℕ) (ps : List Processor) {ps' : List Processor}
    → t ≢ minus_one
    → a ≢ minus_one
    → AllValid ps
    → homes t ps ≡ 0
    → add_task a t ps ≡ done ps'
    → get_task_location t ps' ≡ a
unfolding add_task on_processor get_task_location
add_task-get_task_location a t [] m n v z h = absurd (cc)
add_task-get_task_location a t (p ∷ ps) {ps'} m n v z h = elim (Bool-cases (p.address == a)) [
  | inl e ↦ elim (place_lem t p v.0 m) [
    | inl (no_room, _) ↦ absurd (ground arith)
    | inr (p', s, w, at, l, f, _, o, k) ↦
        let out : p' ∷ ps ≡ ps' = ground arith in
        elim (Option-cases (first? (on t) p'.task)) [
          | inl none_there ↦
              absurd
                (omega (arith, NoneOf-count (on t) p'.task (first?-none (on t) p'.task none_there)))
          | inr (x, there) ↦ rw (← out) (ground (arith, there, count-le-length is_slot_free p.task))
        ]
  ]
  | inr e ↦ elim (Running-cases (on_processor a (place t) ps)) [
    | inl none_there ↦ absurd (ground arith)
    | inr (qs, s) ↦
        let out : p ∷ qs ≡ ps' = ground arith in
        rw (← out) (
          ground (
            arith,
            NoneOf-first? (on t) p.task (count-NoneOf (on t) p.task (omega arith)),
            add_task-get_task_location a t ps {ps' = qs} m n v.1 (omega arith) s,
          ))
  ]
]
