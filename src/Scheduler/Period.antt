-- ===== src/Scheduler/Period.antt =====
-- The periods of a real-time task from one call of the scheduler to the next.
use mmemphis.Base.{
  ℕ, ◌+◌, ◌≤◌, ◌<◌, ◌≡◌, refl, ◌∙◌, ◌⊎◌, inl, inr, some, List, map, [], ◌∷◌, zero, suc, arith,
  Option-cases, Bool-cases, ◌==◌, get_elem?, modify, get_elem?-modify_self, get_elem?-modify_ne,
  add32,
}
use mmemphis.Tcb.{Tcb, Scheduling, ready, running, sleeping, no_deadline}
use mmemphis.Scheduler.{
  Scheduler, update_slack_time, end_of_run, end_of_period, update_task, update_real_time,
  select_task, dispatch, idle, lst,
}
use mmemphis.Scheduler.Update.{IsActive, InRange}

-- The time is within the task's period, and the task has at most its execution time left: nothing
-- where it sleeps, and something where it is ready.
pub record IsCurrent (c : ℕ) (s : Scheduling) : Type 0 where
  pub begun : s.ready_time ≤ c
  pub ahead : c < s.ready_time + s.period
  pub budget : s.remaining_exec_time ≤ s.execution_time
  pub spent : s.status ≡ sleeping → s.remaining_exec_time ≡ 0
  pub left : s.status ≡ ready → 0 < s.remaining_exec_time

-- The same period goes on with no more to run, or the next one starts with all to run.
abbrev pub GoesOn : Scheduling → Scheduling → Type 0
GoesOn s s' =
    ((s'.ready_time ≡ s.ready_time) × (s'.remaining_exec_time ≤ s.remaining_exec_time))
    ⊎ ((s'.ready_time ≡ s.ready_time + s.period) × (s'.remaining_exec_time ≡ s.execution_time))

abbrev pub SameTask : Scheduling → Scheduling → Type 0
SameTask s s' =
    (s'.period ≡ s.period) × (s'.deadline ≡ s.deadline) × (s'.execution_time ≡ s.execution_time)

update_task-begun :
    (o c0 c : ℕ) (t : Tcb)
    → IsActive t.scheduling
    → InRange o c t.scheduling
    → IsCurrent c0 t.scheduling
    → c0 ≤ c
    → c ≤ c0 + t.scheduling.period
    → let s' = (update_task o c t).scheduling in
      (s'.ready_time ≤ c) × (c < s'.ready_time + s'.period)
unfolding update_task end_of_run end_of_period update_slack_time
update_task-begun o c0 c t a r n l h = ground arith

update_task-budget :
    (o c0 c : ℕ) (t : Tcb)
    → IsActive t.scheduling
    → InRange o c t.scheduling
    → IsCurrent c0 t.scheduling
    → 0 < t.scheduling.execution_time
    → let s' = (update_task o c t).scheduling in
      (s'.remaining_exec_time ≤ s'.execution_time)
      × (s'.status ≡ sleeping → s'.remaining_exec_time ≡ 0)
      × (s'.status ≡ ready → 0 < s'.remaining_exec_time)
      × ((s'.status ≡ ready) ⊎ (s'.status ≡ sleeping))
unfolding update_task end_of_run end_of_period update_slack_time
update_task-budget o c0 c t a r n p =
    (ground arith, λ e. ground arith, λ e. ground arith, ground arith)

update_task-GoesOn :
    (o c : ℕ) (t : Tcb)
    → IsActive t.scheduling
    → InRange o c t.scheduling
    → GoesOn t.scheduling (update_task o c t).scheduling
unfolding update_task end_of_run end_of_period update_slack_time
update_task-GoesOn o c t a r = ground arith

update_task-SameTask : (o c : ℕ) (t : Tcb) → SameTask t.scheduling (update_task o c t).scheduling
unfolding update_task end_of_run end_of_period update_slack_time
update_task-SameTask o c t = (ground arith, ground arith, ground arith)

pub get_elem?-map-some {ℓ} :
    {A : Type ℓ} (f : A → A) (xs : List A) (m : ℕ) {a : A}
    → get_elem? xs m ≡ some a
    → get_elem? (map f xs) m ≡ some (f a)
get_elem?-map-some f [] m h = absurd (cc)
get_elem?-map-some f (x ∷ xs) zero h = cc
get_elem?-map-some f (x ∷ xs) (suc m) h = get_elem?-map-some f xs m h

-- A task that a call has dispatched, or passed over.
pub record Dispatched (s s' : Scheduling) : Type 0 where
  pub begins : s'.ready_time ≡ s.ready_time
  pub remains : s'.remaining_exec_time ≡ s.remaining_exec_time
  pub task : SameTask s s'
  pub waits : s'.waiting_msg ≡ s.waiting_msg
  pub state : (s'.status ≡ s.status) ⊎ (s'.status ≡ running)

passed_over : (s : Scheduling) → Dispatched s s
passed_over s = record {
  begins = refl;
  remains = refl;
  task = (refl, refl, refl);
  waits = refl;
  state = inl refl;
}

modify-Dispatched :
    (tcbs : List Tcb) (j m : ℕ) (f : Tcb → Tcb) {t : Tcb}
    → get_elem? tcbs m ≡ some t
    → Dispatched t.scheduling (f t).scheduling
    → (t' : Tcb) × (get_elem? (modify tcbs j f) m ≡ some t') × Dispatched t.scheduling t'.scheduling
modify-Dispatched tcbs j m f {t} g h = elim (Bool-cases (j == m)) [
  | inl e ↦
      let same : j ≡ m = ground arith in
      (f t, ground (arith, same, g, get_elem?-modify_self tcbs m f g), h)
  | inr e ↦ (t, get_elem?-modify_ne tcbs f (ground arith) ∙ g, passed_over t.scheduling)
]

Dispatched-trans : {s s' s'' : Scheduling} → Dispatched s s' → Dispatched s' s'' → Dispatched s s''
Dispatched-trans h g = record {
  begins = g.begins ∙ h.begins;
  remains = g.remains ∙ h.remains;
  task = ground (arith, h.task, g.task);
  waits = g.waits ∙ h.waits;
  state = ground (arith, h.state, g.state);
}

dispatch-Dispatched :
    (j time start m : ℕ) (k : Scheduler) {t : Tcb}
    → get_elem? k.tcbs m ≡ some t
    → (t' : Tcb) × (get_elem? (dispatch j time start k).tcbs m ≡ some t')
      × Dispatched t.scheduling t'.scheduling
unfolding dispatch
dispatch-Dispatched j time start m k {t} g = elim (Option-cases (get_elem? k.tcbs j)) [
  | inl e ↦ rw (e, dispatch) (t, g, passed_over t.scheduling)
  | inr (u, e) ↦
      let run : Tcb → Tcb =
        λ t. record t { scheduling = record t.scheduling { status = running } } in
      let start_run : Tcb → Tcb =
        λ t. record t { scheduling = record t.scheduling { running_start_time = start } } in
      let (t1, g1, d1) = modify-Dispatched k.tcbs j m run g (record {
        begins = refl;
        remains = refl;
        task = (refl, refl, refl);
        waits = refl;
        state = inr refl;
      }) in
      let (t2, g2, d2) = modify-Dispatched (modify k.tcbs j run) j m start_run g1 (record {
        begins = refl;
        remains = refl;
        task = (refl, refl, refl);
        waits = refl;
        state = inl refl;
      }) in
      elim (Bool-cases (u.scheduling.deadline == no_deadline)) [
        | inl b ↦ rw (e, dispatch, b) (t1, g1, d1)
        | inr b ↦ rw (e, dispatch, b) (t2, g2, Dispatched-trans d1 d2)
      ]
]

-- The time of a call, with the estimated overhead of the scheduler.
abbrev pub call_time : ℕ → Scheduler → ℕ
call_time c k = add32 c k.schedule_overhead

-- A call changes an entry as one pass over it does, but that it may dispatch the task.
pub lst-Dispatched :
    (c start end m : ℕ) (k : Scheduler) {t : Tcb}
    → get_elem? k.tcbs m ≡ some t
    → (t' : Tcb) × (get_elem? (lst c start end k).1.tcbs m ≡ some t')
      × Dispatched
          (update_task k.schedule_overhead (add32 c k.schedule_overhead) t).scheduling
          t'.scheduling
unfolding lst idle update_real_time
lst-Dispatched c start end m k {t} g =
    let time = add32 c k.schedule_overhead in
    let updated = update_real_time k.schedule_overhead time k.tcbs in
    let chosen = select_task k.round_robin updated in
    let k' : Scheduler = record k { tcbs = updated; round_robin = chosen.1 } in
    let here = get_elem?-map-some (update_task k.schedule_overhead time) k.tcbs m g in
    elim (Option-cases chosen.0) [
      | inl e ↦ rw (e, lst) (update_task k.schedule_overhead time t, here, passed_over _)
      | inr (j, e) ↦ rw (e, lst) (dispatch-Dispatched j time start m k' here)
    ]

-- From one call of the scheduler to the next, at most a period of the task later, an active
-- real-time task with times in range and an execution time that is not 0 stays current, if it was
-- so at the former: the time of the call is within its period; it has at most its execution time
-- left, nothing if it sleeps, something if it is ready. Its period, deadline and execution time are
-- kept, and either the same period goes on, with no more left to execute, or the next one starts
-- where that ended, with the whole execution time left.
pub lst-IsCurrent :
    (c0 c start end m : ℕ) (k : Scheduler) {t : Tcb}
    → get_elem? k.tcbs m ≡ some t
    → IsActive t.scheduling
    → InRange k.schedule_overhead (call_time c k) t.scheduling
    → IsCurrent c0 t.scheduling
    → 0 < t.scheduling.execution_time
    → c0 ≤ call_time c k
    → call_time c k ≤ c0 + t.scheduling.period
    → (t' : Tcb) × (get_elem? (lst c start end k).1.tcbs m ≡ some t')
      × IsActive t'.scheduling
      × IsCurrent (call_time c k) t'.scheduling
      × SameTask t.scheduling t'.scheduling
      × GoesOn t.scheduling t'.scheduling
lst-IsCurrent c0 c start end m k {t} g a r n p l h =
    let time = add32 c k.schedule_overhead in
    let o = k.schedule_overhead in
    let u = update_task o time t in
    let (t', at, d) = lst-Dispatched c start end m k g in
    let (begun, ahead) = update_task-begun o c0 time t a r n l h in
    let (budget, spent, left, state) = update_task-budget o c0 time t a r n p in
    let same = update_task-SameTask o time t in
    let on = update_task-GoesOn o time t a r in
    (
      t',
      at,
      record { real_time = ground (arith, same, d, a.real_time); state = ground (arith, state, d) },
      record {
        begun = ground (arith, begun, d);
        ahead = ground (arith, ahead, d);
        budget = ground (arith, budget, d);
        spent = λ e. ground (arith, spent, d, e);
        left = λ e. ground (arith, left, d, e);
      },
      ground (arith, same, d),
      ground (arith, on, d),
    )
