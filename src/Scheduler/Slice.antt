-- ===== src/Scheduler/Slice.antt =====
-- The time slice that the timer is set to; the hardware's timer interrupts at 1, and never at 0.
use mmemphis.Base.{
  ℕ, zero, suc, ◌+◌, ◌≤◌, ◌<◌, ◌≡◌, refl, ap, ◌≢◌, ◌⊎◌, inl, Bool, true, not, ◌&&◌, ◌||◌, some,
  List, [], ◌∷◌, arith, ◌==◌, get_elem?, word_mod, add32,
}
use mmemphis.Tcb.{Tcb, Scheduling, no_deadline, sleeping}
use mmemphis.Scheduler.{closest, closest_step, dynamic_slice_time}

-- A real-time task that runs again at the end of its period: it sleeps, or waits for a message.
abbrev pub is_resting : Scheduling → Bool
is_resting s = not (s.deadline == no_deadline) && (s.status == sleeping || not (s.waiting_msg == 0))

abbrev pub period_end : Tcb → ℕ
period_end t = add32 t.scheduling.ready_time t.scheduling.period

-- The periods of the resting tasks from index `i` on end after `time`.
abbrev pub Ahead : ℕ → ℕ → ℕ → List Tcb → Type 0
Ahead time scheduled i [] = Unit {0}
Ahead time scheduled i (t ∷ tcbs) =
    (is_resting t.scheduling ≡ true → i ≢ scheduled → time < period_end t)
    × Ahead time scheduled (i + 1) tcbs

-- The slice is only shortened.
pub dynamic_slice_time-le :
    (j : ℕ) (own : Scheduling) (time : ℕ) (tcbs : List Tcb) (slice : ℕ)
    → dynamic_slice_time j own time tcbs slice ≤ slice
unfolding dynamic_slice_time
dynamic_slice_time-le j own time tcbs slice = ground arith

-- A step keeps the closer end, or takes a resting task's that is closer.
closest_step_lem :
    (j : ℕ) (own : Scheduling) (i : ℕ) (acc : ℕ × ℕ) (t : Tcb) (time : ℕ)
    → 0 < time
    → (is_resting t.scheduling ≡ true → i ≢ j → time < period_end t)
    → let next = closest_step j own i acc t.scheduling in
      ((acc.0 ≡ 0) ⊎ (time < acc.0) → (next.0 ≡ 0) ⊎ (time < next.0))
      × (0 < acc.0 → (0 < next.0) × (next.0 ≤ acc.0))
      × (is_resting t.scheduling ≡ true → i ≢ j → (0 < next.0) × (next.0 ≤ period_end t))
unfolding closest_step
closest_step_lem j own i acc t time p a =
    (λ h. ground arith, λ h. ground arith, λ r d. ground arith)

closest-keeps :
    (j : ℕ) (own : Scheduling) (i : ℕ) (acc : ℕ × ℕ) (tcbs : List Tcb) (time : ℕ)
    → 0 < time
    → Ahead time j i tcbs
    → (acc.0 ≡ 0) ⊎ (time < acc.0)
    → ((closest j own i acc tcbs).0 ≡ 0) ⊎ (time < (closest j own i acc tcbs).0)
unfolding closest
closest-keeps j own i acc [] time p a h = h
closest-keeps j own i acc (t ∷ tcbs) time p a h =
    closest-keeps j own (i + 1) (closest_step j own i acc t.scheduling) tcbs time p a.1
      ((closest_step_lem j own i acc t time p a.0).0 h)

closest-falls :
    (j : ℕ) (own : Scheduling) (i : ℕ) (acc : ℕ × ℕ) (tcbs : List Tcb) (time : ℕ)
    → 0 < time
    → Ahead time j i tcbs
    → 0 < acc.0
    → (0 < (closest j own i acc tcbs).0) × ((closest j own i acc tcbs).0 ≤ acc.0)
unfolding closest
closest-falls j own i acc [] time p a h = (h, omega arith)
closest-falls j own i acc (t ∷ tcbs) time p a h =
    let (pos, le) = (closest_step_lem j own i acc t time p a.0).1 h in
    omega (
      arith,
      closest-falls j own (i + 1) (closest_step j own i acc t.scheduling) tcbs time p a.1 pos,
    )

closest-reaches :
    (j : ℕ) (own : Scheduling) (i m : ℕ) (acc : ℕ × ℕ) (tcbs : List Tcb) (time : ℕ) {t : Tcb}
    → 0 < time
    → Ahead time j i tcbs
    → get_elem? tcbs m ≡ some t
    → is_resting t.scheduling ≡ true
    → i + m ≢ j
    → (0 < (closest j own i acc tcbs).0) × ((closest j own i acc tcbs).0 ≤ period_end t)
unfolding closest
closest-reaches j own i m acc [] time p a g r d = absurd (cc)
closest-reaches j own i zero acc (x ∷ tcbs) time {t} p a g r d =
    let at : x ≡ t = ground arith in
    let (pos, le) = (closest_step_lem j own i acc x time p a.0).2 (rw at r) (omega arith) in
    omega (
      arith,
      ap period_end at,
      closest-falls j own (i + 1) (closest_step j own i acc x.scheduling) tcbs time p a.1 pos,
    )
closest-reaches j own i (suc m) acc (x ∷ tcbs) time p a g r d =
    closest-reaches j own (i + 1) m (closest_step j own i acc x.scheduling) tcbs time p a.1 g r
      (omega arith)

closest-word :
    (j : ℕ) (own : Scheduling) (i : ℕ) (acc : ℕ × ℕ) (tcbs : List Tcb)
    → acc.0 < word_mod
    → (closest j own i acc tcbs).0 < word_mod
unfolding closest closest_step
closest-word j own i acc [] h = h
closest-word j own i acc (t ∷ tcbs) h =
    closest-word j own (i + 1) (closest_step j own i acc t.scheduling) tcbs (ground arith)

-- The timer is set to run.
dynamic_slice_time-positive :
    (j : ℕ) (own : Scheduling) (time : ℕ) (tcbs : List Tcb) (slice : ℕ)
    → 0 < time
    → time < word_mod
    → Ahead time j 0 tcbs
    → 0 < slice
    → 0 < dynamic_slice_time j own time tcbs slice
unfolding dynamic_slice_time
dynamic_slice_time-positive j own time tcbs slice p w a h = ground (
  arith,
  closest-keeps j own 0 (0, 0) tcbs time p a (inl refl),
  closest-word j own 0 (0, 0) tcbs (omega arith),
)

-- Where the period of every other real-time task that sleeps or waits for a message ends after the
-- time of the call, a positive 32-bit word, and the slice was not 0: the slice is never shortened
-- to 0, at which the timer would not interrupt, and it ends no later than the period of any such
-- task.
pub dynamic_slice_time-period :
    (j : ℕ) (own : Scheduling) (time : ℕ) (tcbs : List Tcb) (slice m : ℕ) {t : Tcb}
    → 0 < time
    → time < word_mod
    → Ahead time j 0 tcbs
    → 0 < slice
    → get_elem? tcbs m ≡ some t
    → is_resting t.scheduling ≡ true
    → m ≢ j
    → (0 < dynamic_slice_time j own time tcbs slice)
      × (time + dynamic_slice_time j own time tcbs slice ≤ period_end t)
unfolding dynamic_slice_time
dynamic_slice_time-period j own time tcbs slice m {t} p w a h g r d =
    let keeps = closest-keeps j own 0 (0, 0) tcbs time p a (inl refl) in
    let reaches = closest-reaches j own 0 m (0, 0) tcbs time p a g r (omega arith) in
    (dynamic_slice_time-positive j own time tcbs slice p w a h, ground (arith, keeps, reaches))
