-- ===== src/Scheduler/Update.antt =====
-- What one pass over a task's real-time parameters does.
use mmemphis.Base.{ℕ, ◌+◌, ◌-◌, ◌^◌, ◌≤◌, ◌<◌, ◌≡◌, ◌≢◌, ◌⊎◌, arith, leb, if◌then◌else◌}
use mmemphis.Tcb.{Tcb, Scheduling, free, ready, running, migrating, blocked, sleeping, no_deadline}
use mmemphis.Scheduler.{update_slack_time, end_of_run, end_of_period, update_task}

-- A task that a pass leaves running was running before, and is a best-effort task that waits for a
-- message.
pub update_task-running :
    (o c : ℕ) (t : Tcb)
    → (update_task o c t).scheduling.status ≡ running
    → (t.scheduling.status ≡ running)
      × ((update_task o c t).scheduling.deadline ≡ no_deadline)
      × ((update_task o c t).scheduling.waiting_msg ≢ 0)
unfolding update_task end_of_run end_of_period update_slack_time
update_task-running o c t h = ground arith

-- A pass leaves free, migrating and blocked tasks as they were, the whole block included.
pub update_task-idle :
    (o c : ℕ) (t : Tcb)
    → (t.scheduling.status ≡ free)
      ⊎ (t.scheduling.status ≡ migrating)
      ⊎ (t.scheduling.status ≡ blocked)
    → update_task o c t ≡ t
unfolding update_task
update_task-idle o c t h = ground arith

-- Within the range of the clock, the slack time is the time to the deadline less the execution
-- time that remains, and 0 where that is negative.
pub update_slack_time-eq :
    (c : ℕ) (s : Scheduling)
    → s.ready_time + s.deadline < 2 ^ 31
    → c < 2 ^ 31
    → s.remaining_exec_time < 2 ^ 31
    → (update_slack_time c s).slack_time ≡ s.ready_time + s.deadline - (c + s.remaining_exec_time)
unfolding update_slack_time
update_slack_time-eq c s h k l = ground arith

-- A real-time task that the scheduler may run.
pub record IsActive (s : Scheduling) : Type 0 where
  pub real_time : s.deadline ≢ no_deadline
  pub state : (s.status ≡ ready) ⊎ (s.status ≡ running) ⊎ (s.status ≡ sleeping)

-- The clock, the task's times and the time that it has run are in range.
pub record InRange (o c : ℕ) (s : Scheduling) : Type 0 where
  pub time : c < 2 ^ 31
  pub budget : s.remaining_exec_time < 2 ^ 31
  pub cost : s.execution_time < 2 ^ 31
  pub due : s.ready_time + s.deadline < 2 ^ 31
  pub turn : s.ready_time + s.period < 2 ^ 31
  pub started : s.running_start_time + o ≤ c

-- With times in range and before the end of its period, a running real-time task gives up the time
-- that it has run: it sleeps where that used up its execution time, and else is ready with the
-- rest; its slack time is the time to its deadline less the execution time that is left, 0 where
-- that is negative.
pub update_task-ran :
    (o c : ℕ) (t : Tcb)
    → IsActive t.scheduling
    → InRange o c t.scheduling
    → t.scheduling.status ≡ running
    → c < t.scheduling.ready_time + t.scheduling.period
    → let s = t.scheduling in
      let s' = (update_task o c t).scheduling in
      let elapsed = c - o - s.running_start_time in
      (s'.remaining_exec_time ≡ s.remaining_exec_time - elapsed)
      × (s'.status ≡ (if leb s.remaining_exec_time elapsed then sleeping else ready))
      × (s'.slack_time ≡ s.ready_time + s.deadline - (c + (s.remaining_exec_time - elapsed)))
      × (s'.ready_time ≡ s.ready_time)
unfolding update_task end_of_run update_slack_time
update_task-ran o c t a r h e = ground arith
