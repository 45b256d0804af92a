-- ===== src/Scheduler/Lst.antt =====
-- One call of the scheduler.
use mmemphis.Base.{
  ℕ, zero, suc, ◌≤◌, ◌≡◌, refl, ◌≢◌, ◌⊎◌, inl, inr, some, List, [], ◌∷◌, map, arith, ◌==◌,
  if◌then◌else◌, Bool-cases, Option-cases, get_elem?, modify, get_elem?-modify_ne, add32,
}
use mmemphis.Tcb.{Tcb, running, no_deadline}
use mmemphis.Scheduler.{
  Scheduler, max_time_slice, update_task, update_real_time, select_task, dispatch, idle, lst,
}
use mmemphis.Scheduler.Update.{update_task-running}
use mmemphis.Scheduler.Slice.{dynamic_slice_time-le}

pub get_elem?-map {ℓ} :
    {A : Type ℓ} (f : A → A) (xs : List A) (m : ℕ) {b : A}
    → get_elem? (map f xs) m ≡ some b
    → (a : A) × (get_elem? xs m ≡ some a) × (b ≡ f a)
get_elem?-map f [] m h = absurd (cc)
get_elem?-map f (x ∷ xs) zero h = (x, refl, cc)
get_elem?-map f (x ∷ xs) (suc m) h = get_elem?-map f xs m h

dispatch-other :
    (j time start m : ℕ) (k : Scheduler)
    → m ≢ j
    → get_elem? (dispatch j time start k).tcbs m ≡ get_elem? k.tcbs m
unfolding dispatch
dispatch-other j time start m k d = elim (Option-cases (get_elem? k.tcbs j)) [
  | inl e ↦ rw (e, dispatch) refl
  | inr (t, e) ↦
      let run : Tcb → Tcb =
        λ t. record t { scheduling = record t.scheduling { status = running } } in
      let start_run : Tcb → Tcb =
        λ t. record t { scheduling = record t.scheduling { running_start_time = start } } in
      let ne : j ≢ m = omega arith in
      ground (
        arith,
        e,
        get_elem?-modify_ne k.tcbs {i = j} {j = m} run ne,
        get_elem?-modify_ne (modify k.tcbs j run) {i = j} {j = m} start_run ne,
      )
]

-- What is running in a table that a pass has brought up to date.
updated-running :
    (o time m : ℕ) (tcbs : List Tcb) {t : Tcb}
    → get_elem? (update_real_time o time tcbs) m ≡ some t
    → t.scheduling.status ≡ running
    → (t.scheduling.deadline ≡ no_deadline) × (t.scheduling.waiting_msg ≢ 0)
unfolding update_real_time
updated-running o time m tcbs {t} g r =
    let (x, _, e) = get_elem?-map (update_task o time) tcbs m g in
    let now : (update_task o time x).scheduling.status ≡ running = rw (← e) r in
    let (_, d, w) = update_task-running o time x now in rw e (d, w)

-- After a call of the scheduler, a task that is running is the scheduled one, or a best-effort task
-- that waits for a message: no two tasks that could use the processor run.
pub lst-running :
    (c start end : ℕ) (k : Scheduler) (m : ℕ) {t : Tcb}
    → get_elem? (lst c start end k).1.tcbs m ≡ some t
    → t.scheduling.status ≡ running
    → ((lst c start end k).0 ≡ some m)
      ⊎ ((t.scheduling.deadline ≡ no_deadline) × (t.scheduling.waiting_msg ≢ 0))
unfolding lst idle
lst-running c start end k m {t} g r =
    let time = add32 c k.schedule_overhead in
    let updated = update_real_time k.schedule_overhead time k.tcbs in
    let chosen = select_task k.round_robin updated in
    let k' : Scheduler = record k { tcbs = updated; round_robin = chosen.1 } in
    elim (Option-cases chosen.0) [
      | inl e ↦
          inr (updated-running k.schedule_overhead time m k.tcbs {t = t} (ground (arith, e)) r)
      | inr (j, e) ↦ elim (Bool-cases (j == m)) [
        | inl same ↦ inl (ground (arith, e))
        | inr other ↦
            let ne : m ≢ j = ground arith in
            inr (
              updated-running k.schedule_overhead time m k.tcbs {t = t}
                (ground (arith, e, dispatch-other j time start m k' ne)) r)
      ]
    ]

-- Where a call schedules a task, the timer is never set past the standard slice of a best-effort
-- task, nor past the execution time that a real-time task has left.
pub lst-time_slice :
    (c start end j : ℕ) (k : Scheduler) {t : Tcb}
    → (lst c start end k).0 ≡ some j
    → get_elem? (update_real_time k.schedule_overhead (add32 c k.schedule_overhead) k.tcbs) j
      ≡ some t
    → (lst c start end k).1.time_slice ≤ (
        if t.scheduling.deadline == no_deadline
        then max_time_slice
        else t.scheduling.remaining_exec_time)
unfolding lst dispatch
lst-time_slice c start end j k {t} h g =
    let time = add32 c k.schedule_overhead in
    let updated = update_real_time k.schedule_overhead time k.tcbs in
    let chosen = select_task k.round_robin updated in
    let e : chosen.0 ≡ some j = h in rw (e, g, lst, dispatch) (dynamic_slice_time-le j _ time _ _)
