-- ===== src/Scheduler/RealTime.antt =====
-- The RealTime call, and the account of the CPU utilization.
use mmemphis.Base.{
  ℕ, zero, suc, ◌+◌, ◌*◌, ◌/◌, ◌%◌, ◌≤◌, ◌<◌, ◌≡◌, refl, ap, ◌≢◌, inl, inr, some, List, [], ◌∷◌,
  arith, ltb, ◌==◌, if◌then◌else◌, ==-eq, eq-==, ne-==, Bool-cases, get_elem?, set, word_mod, add32,
  sub32, mul32,
}
use native.Mathlib.Nat.{mod-lt, div-add-mod'}
use mmemphis.Tcb.{Scheduling, ready, no_deadline}
use mmemphis.Scheduler.{clear_scheduling, next_ready, real_time_task}

times-mod : (a b : ℕ) → 0 < b → a * b % b ≡ 0
times-mod a b h = grind arith

-- Two rounds of the loop are enough: the first ready time is the least multiple of the period that
-- is not past.
next_ready_lem :
    (c period : ℕ)
    → 0 < period
    → c + period < word_mod
    → (r : ℕ) × (next_ready 2 period c (mul32 (c / period) period) ≡ some r)
      × (r % period ≡ 0)
      × (c ≤ r)
      × (r < c + period)
unfolding next_ready
next_ready_lem c period p h =
    let part = div-add-mod' c period in
    let below = mod-lt c {m = period} p in
    let base : mul32 (c / period) period ≡ c / period * period = omega (arith, part) in
    rw base (elim (Bool-cases (ltb (c / period * period) c)) [
      | inl late ↦
          let step : add32 (c / period * period) period ≡ (c / period + 1) * period =
            omega (arith, part) in
          (
            (c / period + 1) * period,
            rw (late, step) (ground (arith, part)),
            times-mod (c / period + 1) period p,
            omega (arith, part),
            ground (arith, part),
          )
      | inr on_time ↦ (
        c / period * period,
        rw on_time refl,
        times-mod (c / period) period p,
        ground (arith, part),
        omega (arith, part),
      )
    ])

-- The utilization that a task's call adds.
abbrev pub share : ℕ → ℕ → ℕ
share execution_time period = add32 (mul32 execution_time 100 / period) 1

-- The entry after a call, given its ready time, status and remaining execution time.
abbrev set_parameters : ℕ → ℕ → ℕ → ℕ → ℕ → ℕ → Scheduling → Scheduling
set_parameters period deadline execution_time r status remaining s = record s {
  period = period;
  deadline = deadline;
  execution_time = execution_time;
  ready_time = r;
  status = status;
  remaining_exec_time = remaining;
  utilization = share execution_time period;
  deadline_miss = 0;
}

first_call :
    (c period deadline execution_time cpu r : ℕ) (s : Scheduling)
    → s.ready_time ≡ 0
    → next_ready 2 period c (mul32 (c / period) period) ≡ some r
    → real_time_task c period deadline execution_time cpu s
      ≡ some (
        add32 cpu (share execution_time period),
        set_parameters period deadline execution_time r ready execution_time s,
      )
unfolding real_time_task
first_call c period deadline execution_time cpu r s z e = rw (eq-== s.ready_time 0 z, e) refl

later_call :
    (c period deadline execution_time cpu : ℕ) (s : Scheduling)
    → s.ready_time ≢ 0
    → real_time_task c period deadline execution_time cpu s
      ≡ some (
        add32 (sub32 cpu s.utilization) (share execution_time period),
        set_parameters period deadline execution_time s.ready_time s.status s.remaining_exec_time s,
      )
unfolding real_time_task
later_call c period deadline execution_time cpu s z = rw (ne-== s.ready_time 0 z) refl

-- The first RealTime call of a task always returns, where the period is not 0 and does not
-- overflow. It makes the task ready with its whole execution time, at the least multiple of its
-- period that is not past, with no deadline missed, and adds the task's share to the CPU
-- utilization.
pub real_time_task-returns :
    (c period deadline execution_time cpu : ℕ) (s : Scheduling)
    → 0 < period
    → c + period < word_mod
    → s.ready_time ≡ 0
    → (s' : Scheduling) × (real_time_task c period deadline execution_time cpu s
        ≡ some (add32 cpu (share execution_time period), s'))
      × (s'.status ≡ ready)
      × (s'.remaining_exec_time ≡ execution_time)
      × (s'.ready_time % period ≡ 0)
      × (c ≤ s'.ready_time)
      × (s'.ready_time < c + period)
      × (s'.deadline_miss ≡ 0)
real_time_task-returns c period deadline execution_time cpu s p h z =
    let (r, e, m, lo, hi) = next_ready_lem c period p h in
    (
      set_parameters period deadline execution_time r ready execution_time s,
      first_call c period deadline execution_time cpu r s z e,
      refl,
      refl,
      m,
      lo,
      hi,
      refl,
    )

-- What a task takes of the CPU utilization: a best-effort task takes none.
abbrev pub due : Scheduling → ℕ
due s = if s.deadline == no_deadline then 0 else s.utilization

abbrev pub load : List Scheduling → ℕ
load [] = 0
load (s ∷ xs) = due s + load xs

-- A task that has not called RealTime is best-effort, and the other way round.
pub record IsCalled (s : Scheduling) : Type 0 where
  pub before : s.ready_time ≡ 0 → s.deadline ≡ no_deadline
  pub after : s.ready_time ≢ 0 → s.deadline ≢ no_deadline
  pub word : s.utilization < word_mod

load-set :
    (xs : List Scheduling) (i : ℕ) (v : Scheduling) {s : Scheduling}
    → get_elem? xs i ≡ some s
    → load (set xs i v) + due s ≡ load xs + due v
load-set [] i v h = cc
load-set (x ∷ xs) zero v {s} h = let at : x ≡ s = ground arith in omega (arith, ap due at)
load-set (x ∷ xs) (suc i) v h = omega (arith, load-set xs i v h)

module _ (xs : List Scheduling) (i cpu : ℕ) {s : Scheduling} (at : get_elem? xs i ≡ some s)
    (called : IsCalled s) (accounted : cpu ≡ load xs % word_mod) where
  -- Where a task is best-effort until it calls RealTime, and its utilization is a 32-bit word, a
  -- RealTime call of it, the first or a later one, keeps the CPU utilization equal to the sum of
  -- the real-time tasks' utilizations, modulo 2 ^ 32; it is made at a time that is not 0, with a
  -- period that is not 0 and does not overflow, and with a deadline.
  pub real_time_task-accounted :
      (c period deadline execution_time : ℕ) {cpu' : ℕ} {s' : Scheduling}
      → 0 < c
      → 0 < period
      → c + period < word_mod
      → deadline ≢ no_deadline
      → real_time_task c period deadline execution_time cpu s ≡ some (cpu', s')
      → IsCalled s' × (cpu' ≡ load (set xs i s') % word_mod)
  real_time_task-accounted c period deadline execution_time {cpu'} {s'} pc p h d e =
      elim (Bool-cases (s.ready_time == 0)) [
        | inl z ↦
            let (r, n, _, lo, _) = next_ready_lem c period p h in
            let call = first_call c period deadline execution_time cpu r s (==-eq _ _ z) n in
            ground (arith, call, called.before (==-eq _ _ z), load-set xs i s' at)
        | inr z ↦
            let nz : s.ready_time ≢ 0 = ground arith in
            let call = later_call c period deadline execution_time cpu s nz in
            ground (arith, call, called.after nz, load-set xs i s' at)
      ]

  -- Where a task is best-effort until it calls RealTime, and its utilization is a 32-bit word,
  -- clearing its scheduling entry keeps the CPU utilization equal to the sum of the real-time
  -- tasks' utilizations, modulo 2 ^ 32.
  pub clear_scheduling-accounted :
      let (cpu', s') = clear_scheduling cpu s in
      IsCalled s' × (cpu' ≡ load (set xs i s') % word_mod)
  unfolding clear_scheduling
  clear_scheduling-accounted = elim (Bool-cases (s.deadline == no_deadline)) [
    | inl e ↦ ground (arith, load-set xs i (clear_scheduling cpu s).1 at)
    | inr e ↦ ground (arith, load-set xs i (clear_scheduling cpu s).1 at)
  ]
