-- ===== src/Tests/Kernel.antt =====
-- The scheduler on small tables of tasks.
use mmemphis.Base.{
  ℕ, zero, suc, get_elem?, ◌≢◌, ◌⊎◌, ◌+◌, ◌%◌, ◌≤◌, ◌<◌, ◌≡◌, refl, inl, inr, none, some, List, [],
  ◌∷◌, arith, length, word_mod, minus_one, add32,
}
use mmemphis.Tcb.{Tcb, Scheduling, ready, running, sleeping, no_deadline}
use mmemphis.Scheduler.{
  Scheduler, select_task, search_round, least_slack, next_ready, dispatch, closest, closest_step,
  lst, update_task, update_real_time, dynamic_slice_time, real_time_task, clear_scheduling,
  update_slack_time,
}
use mmemphis.Scheduler.Pick.{Choice, select_task-Choice}
use mmemphis.Scheduler.Lst.{lst-time_slice}
use mmemphis.Scheduler.Laxity.{InReach, laxity, lst-least_laxity}
use mmemphis.Scheduler.Period.{IsCurrent, SameTask, GoesOn, lst-IsCurrent}
use mmemphis.Scheduler.Slice.{dynamic_slice_time-period}
use mmemphis.Scheduler.Update.{IsActive, InRange, update_task-ran}
use mmemphis.Scheduler.RealTime.{
  IsCalled, share, load, real_time_task-accounted, clear_scheduling-accounted,
  real_time_task-returns,
}

abbrev best_effort : Scheduling
best_effort = record {
  status = ready;
  execution_time = 0;
  period = 0;
  deadline = no_deadline;
  ready_time = 0;
  remaining_exec_time = 0;
  slack_time = 0;
  running_start_time = 0;
  utilization = 0;
  waiting_msg = 0;
  deadline_miss = 0;
}

-- Ready from 100 on, with 40 to run of each period of 100.
abbrev real_time : Scheduling
real_time = record best_effort {
  execution_time = 40;
  period = 100;
  deadline = 100;
  ready_time = 100;
  remaining_exec_time = 40;
  utilization = 40;
}

abbrev started : Scheduling
started = record real_time { status = running; running_start_time = 105 }

abbrev rests : Scheduling
rests = record real_time { status = sleeping }

abbrev task : ℕ → Scheduling → Tcb
task id s = record {
  reg = [];
  pc = 0;
  offset = 0;
  id = id;
  recv_buffer = 0;
  text_lenght = 0;
  data_lenght = 0;
  bss_lenght = 0;
  proc_to_migrate = minus_one;
  master_address = 0;
  remove_ctp = 0;
  add_ctp = 0;
  is_service_task = 0;
  communication_time = 0;
  computation_time = 0;
  total_comp = 0;
  total_comm = 0;
  scheduling = s;
}

abbrev waiting : Scheduling
waiting = record best_effort { status = running; waiting_msg = 1 }

abbrev tasks : List Tcb
tasks = task 1 waiting ∷ task 2 real_time ∷ task 3 best_effort ∷ []

abbrev kernel : Scheduler
kernel = record {
  tcbs = tasks;
  time_slice = 0;
  schedule_overhead = 5;
  instant_overhead = 5;
  cpu_utilization = 40;
  round_robin = 2;
}

select_task-Choice_example : Choice tasks (some 1) × (2 < length tasks)
unfolding select_task search_round least_slack
select_task-Choice_example = select_task-Choice 2 tasks (omega arith)

-- Two real-time tasks, of which the second has its deadline sooner.
abbrev rivals : Scheduler
rivals = record kernel {
  tcbs = task 1 real_time ∷ task 2 (record real_time { deadline = 60 }) ∷ [];
  round_robin = 0;
}

rival-InReach : (d : ℕ) → d < 1000 → InReach 5 125 (record real_time { deadline = d })
rival-InReach d h = record {
  range = record {
    time = omega arith;
    budget = omega arith;
    cost = omega arith;
    due = omega arith;
    turn = omega arith;
    started = omega arith;
  };
  next_due = omega arith;
}

rivals-InReach :
    (i : ℕ) (x : Tcb)
    → get_elem? rivals.tcbs i ≡ some x
    → x.scheduling.deadline ≢ no_deadline
    → InReach 5 125 x.scheduling
rivals-InReach zero x g d =
    let same : task 1 real_time ≡ x = cc g in rw (← same) (rival-InReach 100 (omega arith))
rivals-InReach (suc zero) x g d =
    let same : task 2 (record real_time { deadline = 60 }) ≡ x = cc g in
    rw (← same) (rival-InReach 60 (omega arith))
rivals-InReach (suc (suc i)) x g d = absurd (cc g)

lst-least_laxity_example :
    (j : ℕ) × (y : Tcb) × (v : Tcb) × ((lst 120 121 130 rivals).0 ≡ some j)
    × (get_elem? rivals.tcbs j ≡ some y)
    × (get_elem? (lst 120 121 130 rivals).1.tcbs j ≡ some v)
    × ((y.is_service_task ≢ 0)
        ⊎ ((v.scheduling.deadline ≢ no_deadline)
            × (laxity 125 v.scheduling ≤ laxity 125 (record real_time { slack_time = 35 }))))
unfolding lst update_real_time update_task select_task search_round least_slack dispatch
    dynamic_slice_time closest closest_step update_slack_time
lst-least_laxity_example =
    lst-least_laxity 120 121 130 0 rivals {t = task 1 real_time}
      {u = task 1 (record real_time { slack_time = 35 })} (omega arith) rivals-InReach refl refl
      refl

lst-time_slice_example : (lst 120 121 130 kernel).1.time_slice ≤ 40
unfolding lst update_real_time update_task select_task search_round least_slack dispatch
    dynamic_slice_time closest closest_step update_slack_time
lst-time_slice_example = lst-time_slice 120 121 130 1 kernel refl refl

-- The task at 1 has its next period from 200 on.
dynamic_slice_time-period_example :
    (0 < dynamic_slice_time 0 started 150 (task 1 started ∷ task 2 rests ∷ []) 90)
    × (150 + dynamic_slice_time 0 started 150 (task 1 started ∷ task 2 rests ∷ []) 90 ≤ 200)
dynamic_slice_time-period_example =
    dynamic_slice_time-period 0 started 150 (task 1 started ∷ task 2 rests ∷ []) 90 1 (omega arith)
      (omega arith) (λ r d. absurd (d refl), (λ r d. omega arith, tt)) (omega arith) refl refl
      (omega arith)

started-IsActive : IsActive started
started-IsActive = record { real_time = omega arith; state = inr (inl refl) }

started-InRange : (c : ℕ) → 110 ≤ c → c < 1000 → InRange 5 c started
started-InRange c l h = record {
  time = omega arith;
  budget = omega arith;
  cost = omega arith;
  due = omega arith;
  turn = omega arith;
  started = omega arith;
}

update_task-ran_example :
    ((update_task 5 130 (task 1 started)).scheduling.remaining_exec_time ≡ 20)
    × ((update_task 5 130 (task 1 started)).scheduling.status ≡ ready)
    × ((update_task 5 130 (task 1 started)).scheduling.slack_time ≡ 50)
    × ((update_task 5 130 (task 1 started)).scheduling.ready_time ≡ 100)
update_task-ran_example =
    update_task-ran 5 130 (task 1 started) started-IsActive
      (started-InRange 130 (omega arith) (omega arith)) refl (omega arith)

started-IsCurrent : IsCurrent 110 started
started-IsCurrent = record {
  begun = omega arith;
  ahead = omega arith;
  budget = omega arith;
  spent = λ e. absurd (omega (arith, e));
  left = λ e. omega arith;
}

-- The next call comes after the end of the task's period, at 200.
abbrev behind : Scheduler
behind = record kernel { tcbs = task 1 started ∷ []; round_robin = 0 }

lst-IsCurrent_example :
    (t' : Tcb) × (get_elem? (lst 200 201 210 behind).1.tcbs 0 ≡ some t')
    × IsActive t'.scheduling
    × IsCurrent 205 t'.scheduling
    × SameTask started t'.scheduling
    × GoesOn started t'.scheduling
lst-IsCurrent_example =
    lst-IsCurrent 110 200 201 210 0 behind {t = task 1 started} refl started-IsActive
      (started-InRange 205 (omega arith) (omega arith)) started-IsCurrent (omega arith)
      (omega arith) (omega arith)

best_effort-IsCalled : IsCalled best_effort
best_effort-IsCalled = record {
  before = λ e. refl;
  after = λ e. absurd (e refl);
  word = omega arith;
}

real_time-IsCalled : IsCalled real_time
real_time-IsCalled = record {
  before = λ e. absurd (omega arith);
  after = λ e. omega arith;
  word = omega arith;
}

-- The first task makes its first RealTime call, at time 130.
called : Scheduling
called = (elim (real_time_task 130 50 50 10 40 best_effort) [ none ↦ best_effort | some r ↦ r.1 ])

real_time_task-accounted_example :
    IsCalled called × (61 ≡ load (called ∷ real_time ∷ []) % word_mod)
unfolding called real_time_task next_ready update_slack_time
real_time_task-accounted_example =
    real_time_task-accounted (best_effort ∷ real_time ∷ []) 0 40 refl best_effort-IsCalled refl 130
      50 50 10 (omega arith) (omega arith) (omega arith) (omega arith) refl

clear_scheduling-accounted_example :
    IsCalled (clear_scheduling 40 real_time).1
    × ((clear_scheduling 40 real_time).0
        ≡ load (best_effort ∷ (clear_scheduling 40 real_time).1 ∷ []) % word_mod)
clear_scheduling-accounted_example =
    clear_scheduling-accounted (best_effort ∷ real_time ∷ []) 1 40 refl real_time-IsCalled refl

real_time_task-returns_example :
    (s' : Scheduling) × (real_time_task 130 50 50 10 40 best_effort
      ≡ some (add32 40 (share 10 50), s'))
    × (s'.status ≡ ready)
    × (s'.remaining_exec_time ≡ 10)
    × (s'.ready_time % 50 ≡ 0)
    × (130 ≤ s'.ready_time)
    × (s'.ready_time < 180)
    × (s'.deadline_miss ≡ 0)
real_time_task-returns_example =
    real_time_task-returns 130 50 50 10 40 best_effort (omega arith) (omega arith) refl
