-- ===== src/Scheduler/Laxity.antt =====
-- The policy of `LST`, over a whole call.
use mmemphis.Base.{
  ℕ, Bool-cases, leb, if◌then◌else◌, ◌^◌, ◌+◌, ◌-◌, ◌≤◌, ◌<◌, ◌≡◌, ◌≢◌, refl, ◌⊎◌, inl, inr, true,
  false, some, none, List, map, [], ◌∷◌, zero, suc, arith, length, get_elem?, add32, Bool, ◌==◌,
  Option, NoneOf-get,
}
use mmemphis.Tcb.{Tcb, Scheduling, running, sleeping, no_deadline}
use mmemphis.Scheduler.{
  Scheduler, is_passed_over, is_real_time, update_slack_time, end_of_run, end_of_period,
  update_task, update_real_time, select_task, lst,
}
use mmemphis.Scheduler.Update.{InRange, update_slack_time-eq}
use mmemphis.Scheduler.Pick.{
  AtLeast, Choice, service, real_time, best_effort, nobody, select_task-Choice,
}
use mmemphis.Scheduler.Lst.{get_elem?-map}
use mmemphis.Scheduler.Period.{Dispatched, lst-Dispatched, call_time, get_elem?-map-some}

-- The time that a task can still wait, and end its execution by its deadline: 0 if it cannot.
abbrev pub laxity : ℕ → Scheduling → ℕ
laxity c s = s.ready_time + s.deadline - (c + s.remaining_exec_time)

-- What a run leaves of a task's times.
end_of_run-range :
    (o c : ℕ) (s : Scheduling)
    → InRange o c s
    → ((end_of_run o c s).remaining_exec_time < 2 ^ 31)
      × ((end_of_run o c s).ready_time ≡ s.ready_time)
      × ((end_of_run o c s).deadline ≡ s.deadline)
      × ((end_of_run o c s).period ≡ s.period)
      × ((end_of_run o c s).execution_time ≡ s.execution_time)
unfolding end_of_run update_slack_time
end_of_run-range o c s r = (ground arith, ground arith, ground arith, ground arith, ground arith)

-- A pass ends with the slack time of a task that is ready.
turned-laxity :
    (c : ℕ) (t : Tcb)
    → c < 2 ^ 31
    → t.scheduling.remaining_exec_time < 2 ^ 31
    → t.scheduling.execution_time < 2 ^ 31
    → t.scheduling.ready_time + t.scheduling.period + t.scheduling.deadline < 2 ^ 31
    → let turned =
        if leb (add32 t.scheduling.ready_time t.scheduling.period) c
        then end_of_period c t
        else t in
      (update_slack_time c turned.scheduling).slack_time ≡ laxity c turned.scheduling
unfolding end_of_period
turned-laxity c t h k l n =
    elim (Bool-cases (leb (add32 t.scheduling.ready_time t.scheduling.period) c)) [
      | inl b ↦ rw b (update_slack_time-eq c _ (ground arith) h l)
      | inr b ↦ rw b (update_slack_time-eq c _ (omega arith) h k)
    ]

-- What a pass makes of a task, by the tests of its last two steps.
abbrev passed : ℕ → Bool → Tcb → Tcb → Tcb
passed c over idle turned =
    let slack =
      if turned.scheduling.status == sleeping
      then turned
      else record turned { scheduling = update_slack_time c turned.scheduling } in
    if over then idle else slack

passed-laxity :
    (c : ℕ) (over : Bool) (idle turned : Tcb)
    → (over ≡ true → is_real_time idle.scheduling ≡ false)
    → (update_slack_time c turned.scheduling).slack_time ≡ laxity c turned.scheduling
    → is_real_time (passed c over idle turned).scheduling ≡ true
    → (passed c over idle turned).scheduling.slack_time
      ≡ laxity c (passed c over idle turned).scheduling
unfolding update_slack_time
passed-laxity c true idle turned none_yet e h = absurd (cc (none_yet refl, h))
passed-laxity c false idle turned none_yet e h = go (turned.scheduling.status == sleeping) refl h
  where
    go :
        (b : Bool)
        → (turned.scheduling.status == sleeping) ≡ b
        → is_real_time
            (if b
              then turned
              else record turned { scheduling = update_slack_time c turned.scheduling }).scheduling
          ≡ true
        → (if b then turned else record turned {
          scheduling = update_slack_time c turned.scheduling;
        }).scheduling.slack_time
          ≡ laxity c
              (if b then turned else record turned {
                scheduling = update_slack_time c turned.scheduling;
              }).scheduling
    go true at h = absurd (ground (arith, at, h))
    go false at h = e

update_task-laxity :
    (o c : ℕ) (t : Tcb)
    → InRange o c t.scheduling
    → t.scheduling.ready_time + t.scheduling.period + t.scheduling.deadline < 2 ^ 31
    → is_real_time (update_task o c t).scheduling ≡ true
    → (update_task o c t).scheduling.slack_time ≡ laxity c (update_task o c t).scheduling
unfolding update_task
update_task-laxity o c t r n h =
    let s = t.scheduling in
    let ran : Tcb = record t { scheduling = if s.status == running then end_of_run o c s else s } in
    let (left, begins, due, turn, cost) = end_of_run-range o c s r in
    let whole =
      elim (Bool-cases (s.status == running))
        as (λ _.
          (ran.scheduling.remaining_exec_time < 2 ^ 31)
          × (ran.scheduling.execution_time < 2 ^ 31)
          × (ran.scheduling.ready_time + ran.scheduling.period + ran.scheduling.deadline
              < 2 ^ 31)) [
                | inl b ↦ rw b (left, rw cost r.cost, rw (begins, turn, due) n)
                | inr b ↦ rw b (r.budget, r.cost, n)
              ] in
    passed-laxity c (is_passed_over s) _ _ (λ e. ground (arith, e))
      (turned-laxity c ran r.time whole.0 whole.1 whole.2) h

update_task-real_time :
    (o c : ℕ) (t : Tcb) → (update_task o c t).scheduling.deadline ≡ t.scheduling.deadline
unfolding update_task end_of_run end_of_period update_slack_time
update_task-real_time o c t = ground arith

update_task-is_service_task :
    (o c : ℕ) (t : Tcb) → (update_task o c t).is_service_task ≡ t.is_service_task
unfolding update_task end_of_period
update_task-is_service_task o c t = ground arith

AtLeast-get :
    (s : ℕ) (tcbs : List Tcb) (m : ℕ) {t : Tcb}
    → AtLeast s tcbs
    → get_elem? tcbs m ≡ some t
    → is_real_time t.scheduling ≡ true
    → s ≤ t.scheduling.slack_time
AtLeast-get s [] m a g r = absurd (cc)
AtLeast-get s (x ∷ tcbs) zero {t} a g r = let same : x ≡ t = cc g in rw (← same) (a.0 (rw same r))
AtLeast-get s (x ∷ tcbs) (suc m) a g r = AtLeast-get s tcbs m a.1 g r

length-map {ℓ} : {A : Type ℓ} (f : A → A) (xs : List A) → length (map f xs) ≡ length xs
length-map f [] = refl
length-map f (x ∷ xs) = omega (arith, length-map f xs)

-- The task's times are in range, and so is the deadline of its next period.
pub record InReach (o c : ℕ) (s : Scheduling) : Type 0 where
  pub range : InRange o c s
  pub next_due : s.ready_time + s.period + s.deadline < 2 ^ 31

-- A choice where a real-time task with this much slack is ready.
abbrev Picked : List Tcb → ℕ → Option ℕ → Type 0
Picked tcbs slack o =
    (j : ℕ) × (x : Tcb) × (o ≡ some j)
    × (get_elem? tcbs j ≡ some x)
    × ((x.is_service_task ≢ 0)
        ⊎ ((is_real_time x.scheduling ≡ true) × (x.scheduling.slack_time ≤ slack)))

Choice-Picked :
    (tcbs : List Tcb) (m : ℕ) (t : Tcb) (o : Option ℕ)
    → get_elem? tcbs m ≡ some t
    → is_real_time t.scheduling ≡ true
    → Choice tcbs o
    → Picked tcbs t.scheduling.slack_time o
Choice-Picked tcbs m t (some j) g r (service (x, at, q)) = (j, x, refl, at, inl (ground (arith, q)))
Choice-Picked tcbs m t (some j) g r (real_time x unserved at q least) =
    (j, x, refl, at, inr (q, AtLeast-get x.scheduling.slack_time tcbs m least g r))
Choice-Picked tcbs m t (some j) g r (best_effort unserved nobody_real at) =
    absurd (cc (NoneOf-get (λ t. is_real_time t.scheduling) tcbs m nobody_real g, r))
Choice-Picked tcbs m t none g r (nobody unready) = absurd (unready m (t, g, ground (arith, r)))

-- Where the times of every real-time task are in range, with those of its next period, and the
-- round-robin index is inside the array: if after a call of the scheduler a real-time task is ready
-- and waits for no message, the call has scheduled a task, and that is a service task, or a
-- real-time task whose time to its deadline, less what it has left to execute, is no more than that
-- task's; such a time that is negative counts as 0.
pub lst-least_laxity :
    (c start end m : ℕ) (k : Scheduler) {t u : Tcb}
    → k.round_robin < length k.tcbs
    → ((i : ℕ) (x : Tcb)
        → get_elem? k.tcbs i ≡ some x
        → x.scheduling.deadline ≢ no_deadline
        → InReach k.schedule_overhead (call_time c k) x.scheduling)
    → get_elem? k.tcbs m ≡ some t
    → get_elem? (lst c start end k).1.tcbs m ≡ some u
    → is_real_time u.scheduling ≡ true
    → (j : ℕ) × (y : Tcb) × (v : Tcb) × ((lst c start end k).0 ≡ some j)
      × (get_elem? k.tcbs j ≡ some y)
      × (get_elem? (lst c start end k).1.tcbs j ≡ some v)
      × ((y.is_service_task ≢ 0)
          ⊎ ((v.scheduling.deadline ≢ no_deadline)
              × (laxity (call_time c k) v.scheduling ≤ laxity (call_time c k) u.scheduling)))
unfolding lst update_real_time
lst-least_laxity c start end m k {t} {u} inside reach g gu ru =
    let o = k.schedule_overhead in
    let time = call_time c k in
    let f = update_task o time in
    let updated = update_real_time o time k.tcbs in
    let (u', atu, du) = lst-Dispatched c start end m k g in
    let same : u' ≡ u = cc (atu, gu) in
    let du' : Dispatched (f t).scheduling u.scheduling = rw (← same) du in
    let rt : is_real_time (f t).scheduling ≡ true =
      ground (arith, du'.task, du'.state, du'.waits, ru) in
    let real_t : t.scheduling.deadline ≢ no_deadline =
      ground (arith, update_task-real_time o time t, rt) in
    let lax_t =
      update_task-laxity o time t (reach m t g real_t).range (reach m t g real_t).next_due rt in
    let here = get_elem?-map-some f k.tcbs m g in
    let choice = (select_task-Choice k.round_robin updated (rw (length-map f k.tcbs) inside)).0 in
    let (j, x, e, gx, why) =
      Choice-Picked updated m (f t) (select_task k.round_robin updated).0 here rt choice in
    let (y, gy, ey) = get_elem?-map f k.tcbs j gx in
    let (v, gv, dv) = lst-Dispatched c start end j k gy in
    (
      j,
      y,
      v,
      e,
      gy,
      gv,
      elim why [
        | inl s ↦ inl (rw (← update_task-is_service_task o time y, ← ey) s)
        | inr (rx, le) ↦
            let ry : is_real_time (f y).scheduling ≡ true = rw (← ey) rx in
            let real_y : y.scheduling.deadline ≢ no_deadline =
              ground (arith, update_task-real_time o time y, ry) in
            let lax_y =
              update_task-laxity o time y (reach j y gy real_y).range (reach j y gy real_y).next_due
                ry in
            let less : (f y).scheduling.slack_time ≤ (f t).scheduling.slack_time = rw (← ey) le in
            inr (
              ground (arith, real_y, update_task-real_time o time y, dv.task),
              omega (
                arith, less, lax_y, lax_t, dv.begins, dv.remains, dv.task.1, du'.begins,
                du'.remains, du'.task.1,
              ),
            )
      ],
    )
