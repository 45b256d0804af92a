-- ===== src/Scheduler.antt =====
-- software/kernel/modules/task_scheduler.c: the least-slack-time scheduler. Times and the `int`
-- and `unsigned int` fields are 32-bit words; the ticks that `HAL_get_tick` reads are arguments, in
-- the order of the reads. ENABLE_DEADLINE_MISS is set nowhere, so no report is sent.
pub mod Update
pub mod Period
pub mod Pick
pub mod Slice
pub mod RealTime
pub mod Lst
pub mod Laxity
mod RoundRobin
use mmemphis.Base.{
  ℕ, zero, suc, ◌+◌, ◌-◌, ◌/◌, Bool, true, false, not, ◌&&◌, ◌||◌, Option, none, some, List, [],
  ◌∷◌, map, ltb, leb, ◌==◌, if◌then◌else◌, length, get_elem?, modify, add32, sub32, mul32, slt,
}
use mathlib.Core.Option
use mmemphis.Tcb.{Tcb, Scheduling, free, ready, running, migrating, blocked, sleeping, no_deadline}

abbrev pub max_time_slice : ℕ
max_time_slice = 16318

-- The globals of the module; `round_robin` is the static of the function of that name.
pub record Scheduler : Type 0 where
  pub tcbs : List Tcb
  pub time_slice : ℕ
  pub schedule_overhead : ℕ
  pub instant_overhead : ℕ
  pub cpu_utilization : ℕ
  pub round_robin : ℕ

unfoldable pub clear_scheduling : ℕ → Scheduling → ℕ × Scheduling
clear_scheduling cpu_utilization s = (
  if s.deadline == no_deadline then cpu_utilization else sub32 cpu_utilization s.utilization,
  record s {
    ready_time = 0;
    status = free;
    remaining_exec_time = 0;
    execution_time = 0;
    period = 0;
    deadline = no_deadline;
    slack_time = 0;
    running_start_time = 0;
    utilization = 0;
    waiting_msg = 0;
  },
)

unfoldable pub update_slack_time : ℕ → Scheduling → Scheduling
update_slack_time current_time s =
    let time_until_deadline = sub32 (add32 s.ready_time s.deadline) current_time in
    record s {
      slack_time =
          if slt time_until_deadline s.remaining_exec_time
          then 0
          else sub32 time_until_deadline s.remaining_exec_time;
    }

-- `while(ready_time < current_time) ready_time += period;` on fuel.
unfoldable pub next_ready : ℕ → ℕ → ℕ → ℕ → Option ℕ
next_ready zero period current_time ready_time = none
next_ready (suc fuel) period current_time ready_time =
    let rest = next_ready fuel period current_time (add32 ready_time period) in
    if ltb ready_time current_time then rest else some ready_time

-- Two rounds of that loop are enough, as `real_time_task-returns` shows. A task whose `ready_time`
-- is 0 has not called RealTime yet.
unfoldable pub real_time_task : ℕ → ℕ → ℕ → ℕ → ℕ → Scheduling → Option (ℕ × Scheduling)
real_time_task current_time period deadline execution_time cpu s =
    let first =
      Option.map
        (λ r. record s {
          period = period;
          deadline = deadline;
          execution_time = execution_time;
          ready_time = r;
          status = ready;
          remaining_exec_time = execution_time;
        })
        (next_ready 2 period current_time (mul32 (current_time / period) period)) in
    let again =
      some (record s { period = period; deadline = deadline; execution_time = execution_time }) in
    let cpu' = if s.ready_time == 0 then cpu else sub32 cpu s.utilization in
    Option.map
      (λ s'. (add32 cpu' utilization, record s' { utilization = utilization; deadline_miss = 0 }))
      (if s.ready_time == 0 then first else again)
  where
    utilization : ℕ
    utilization = add32 (mul32 execution_time 100 / period) 1

-- The part of `update_real_time` for a task that was running.
unfoldable pub end_of_run : ℕ → ℕ → Scheduling → Scheduling
end_of_run schedule_overhead current_time s =
    let remaining =
      sub32 s.remaining_exec_time
        (sub32 (sub32 current_time schedule_overhead) s.running_start_time) in
    let stopped =
      if slt 0 remaining
      then record s { remaining_exec_time = remaining; status = ready }
      else update_slack_time current_time
          (record s { remaining_exec_time = 0; status = sleeping }) in
    if stopped.waiting_msg == 0
      && stopped.slack_time == 0
      && ltb (stopped.execution_time / 10) stopped.remaining_exec_time
    then record stopped { deadline_miss = add32 stopped.deadline_miss 1 }
    else stopped

-- The part for a task whose period has ended.
unfoldable pub end_of_period : ℕ → Tcb → Tcb
end_of_period current_time t =
    let s = t.scheduling in
    record t {
      communication_time = current_time;
      scheduling = record s {
        deadline_miss =
            if s.waiting_msg == 0 && ltb (s.execution_time / 10) s.remaining_exec_time
            then 0
            else s.deadline_miss;
        ready_time = add32 s.ready_time s.period;
        remaining_exec_time = s.execution_time;
        status = ready;
      };
    }

-- The tasks that `update_real_time` passes over.
abbrev pub is_passed_over : Scheduling → Bool
is_passed_over s =
    s.deadline == no_deadline || s.status == free || s.status == migrating || s.status == blocked

-- The body of the loop of `update_real_time`.
unfoldable pub update_task : ℕ → ℕ → Tcb → Tcb
update_task schedule_overhead current_time t =
    let s = t.scheduling in
    let idle =
      if s.status == running && s.waiting_msg == 0
      then record t { scheduling = record s { status = ready } }
      else t in
    let ran = record t {
      scheduling = if s.status == running then end_of_run schedule_overhead current_time s else s;
    } in
    let turned =
      if leb (add32 ran.scheduling.ready_time ran.scheduling.period) current_time
      then end_of_period current_time ran
      else ran in
    let slack =
      if turned.scheduling.status == sleeping
      then turned
      else record turned { scheduling = update_slack_time current_time turned.scheduling } in
    if is_passed_over s then idle else slack

unfoldable pub update_real_time : ℕ → ℕ → List Tcb → List Tcb
update_real_time schedule_overhead current_time tcbs =
    map (update_task schedule_overhead current_time) tcbs

-- `round_robin`: the next index.
abbrev pub next_index : ℕ → ℕ → ℕ
next_index max_local_tasks i = if i == max_local_tasks - 1 then 0 else i + 1

abbrev pub test_at : (Scheduling → Tcb → Bool) → List Tcb → ℕ → Bool
test_at p tcbs i = elim (get_elem? tcbs i) [ none ↦ false | some t ↦ p t.scheduling t ]

-- A search by `scheduling[round_robin()]` over `n` rounds, and where it leaves the index.
unfoldable pub search_round : (Scheduling → Tcb → Bool) → ℕ → ℕ → List Tcb → Option ℕ × ℕ
search_round p zero i tcbs = (none, i)
search_round p (suc n) i tcbs =
    let j = next_index (length tcbs) i in
    let rest = search_round p n j tcbs in if test_at p tcbs j then (some j, j) else rest

abbrev pub is_ready : Scheduling → Bool
is_ready s = s.status == ready && s.waiting_msg == 0

abbrev pub is_service : Scheduling → Tcb → Bool
is_service s t = not (t.is_service_task == 0) && is_ready s

abbrev pub is_real_time : Scheduling → Bool
is_real_time s = not (s.deadline == no_deadline) && is_ready s

-- The search for the least slack time: the index and the slack time of the best task so far.
unfoldable pub least_slack : ℕ → Option (ℕ × ℕ) → List Tcb → Option (ℕ × ℕ)
least_slack i best [] = best
least_slack i best (t ∷ tcbs) =
    let take = least_slack (i + 1) (some (i, t.scheduling.slack_time)) tcbs in
    let keep = least_slack (i + 1) best tcbs in
    if is_real_time t.scheduling
      && elim best [ none ↦ true | some b ↦ ltb t.scheduling.slack_time b.1 ]
    then take
    else keep

-- The three searches of `LST`, in their order, and the round-robin index after them.
unfoldable pub select_task : ℕ → List Tcb → Option ℕ × ℕ
select_task i tcbs =
    let (service, i') = search_round is_service (length tcbs) i tcbs in
    let best_effort = search_round (λ s _. is_ready s) (length tcbs) i' tcbs in
    elim service [
      | some j ↦ (some j, i')
      | none ↦ elim (least_slack 0 none tcbs) [ some b ↦ (some b.0, i') | none ↦ best_effort ]
    ]

-- The body of the loop of `dynamic_slice_time`: the closer end of a period, and the second least
-- slack time.
unfoldable pub closest_step : ℕ → Scheduling → ℕ → ℕ × ℕ → Scheduling → ℕ × ℕ
closest_step scheduled own i acc s =
    let end_period = add32 s.ready_time s.period in
    let resting : ℕ × ℕ = if acc.0 == 0 || ltb end_period acc.0 then (end_period, acc.1) else acc in
    let other : ℕ × ℕ =
      if not (own.slack_time == 0) && (acc.1 == 0 || ltb s.slack_time acc.1)
      then (acc.0, s.slack_time)
      else acc in
    if s.deadline == no_deadline || i == scheduled
    then acc
    else (if s.status == sleeping || not (s.waiting_msg == 0) then resting else other)

unfoldable pub closest : ℕ → Scheduling → ℕ → ℕ × ℕ → List Tcb → ℕ × ℕ
closest scheduled own i acc [] = acc
closest scheduled own i acc (t ∷ tcbs) =
    closest scheduled own (i + 1) (closest_step scheduled own i acc t.scheduling) tcbs

unfoldable pub dynamic_slice_time : ℕ → Scheduling → ℕ → List Tcb → ℕ → ℕ
dynamic_slice_time scheduled own time tcbs time_slice =
    let (closer_period, second_lst) = closest scheduled own 0 (0, 0) tcbs in
    let slice =
      if not (second_lst == 0) && ltb second_lst time_slice then second_lst else time_slice in
    if not (closer_period == 0) && ltb (sub32 closer_period time) slice
    then sub32 closer_period time
    else slice

-- The idle branch: the next end of a period of a task that sleeps or waits.
unfoldable pub next_period_end : ℕ → List Tcb → ℕ
next_period_end slice [] = slice
next_period_end slice (t ∷ tcbs) =
    next_period_end
      (let s = t.scheduling in
        if not (s.deadline == no_deadline)
          && (s.status == sleeping || not (s.waiting_msg == 0))
          && (slice == 0 || ltb (add32 s.ready_time s.period) slice)
        then add32 s.ready_time s.period
        else slice)
      tcbs

-- The scheduled task runs: its status, its time slice and the start of a real-time task's run.
unfoldable pub dispatch : ℕ → ℕ → ℕ → Scheduler → Scheduler
dispatch j time start_tick k = elim (get_elem? k.tcbs j) [
  | none ↦ k
  | some t ↦
      let own = record t.scheduling { status = running } in
      let tcbs' =
        modify k.tcbs j (λ t. record t { scheduling = record t.scheduling { status = running } }) in
      let base = if own.deadline == no_deadline then max_time_slice else own.remaining_exec_time in
      record k {
        time_slice = dynamic_slice_time j own time tcbs' base;
        tcbs =
            if own.deadline == no_deadline
            then tcbs'
            else modify tcbs' j (λ t. record t {
              scheduling = record t.scheduling { running_start_time = start_tick };
            });
      }
]

unfoldable pub idle : ℕ → Scheduler → Scheduler
idle time k =
    let slice = next_period_end 0 k.tcbs in
    record k { time_slice = if slice == 0 then max_time_slice else sub32 slice time }

-- `start_tick` is read for a real-time task only, `end_tick` at the end.
unfoldable pub lst : ℕ → ℕ → ℕ → Scheduler → Option ℕ × Scheduler
lst current_time start_tick end_tick k =
    let time = add32 current_time k.schedule_overhead in
    let updated = update_real_time k.schedule_overhead time k.tcbs in
    let (choice, i) = select_task k.round_robin updated in
    let k' = record k { tcbs = updated; round_robin = i } in
    let after : Scheduler = elim choice [
      | some j ↦ dispatch j time start_tick k'
      | none ↦ idle time k'
    ] in
    let spent = sub32 end_tick current_time in
    (
      choice,
      record after {
        instant_overhead = spent;
        schedule_overhead = add32 after.schedule_overhead spent / 2;
      },
    )
