-- ===== src/Kernel/Interrupts/Scheduled.antt =====
-- The task that the kernel lets run.
use mmemphis.Base.{
  ℕ, ◌+◌, ◌≡◌, ◌≢◌, ◌⊎◌, inl, inr, none, some, arith, ◌==◌, if◌then◌else◌, Bool-cases, Option-cases,
  get_elem?, get_elem?-modify_ne, Outcome, done, ◌>>=◌, run_through,
}
use mmemphis.Tcb.{Tcb, running, no_deadline}
use mmemphis.Scheduler.{lst}
use mmemphis.Scheduler.Lst.{lst-running}
use mmemphis.Kernel.{Kernel, tcb_at, hal_get_tick, after_read}
use mmemphis.Kernel.Syscalls.{mask_interrupts, allow_interrupts}
use mmemphis.Kernel.Monitor.{reset_last_idle_time}
use mmemphis.Kernel.Interrupts.{call_lst, leave_if_due, os_scheduler}

call_lst-running :
    (time m : ℕ) (k : Kernel) (u : Tcb)
    → get_elem? (call_lst time k).scheduler.tcbs m ≡ some u
    → u.scheduling.status ≡ running
    → ((call_lst time k).current ≡ some m)
      ⊎ ((u.scheduling.deadline ≡ no_deadline) × (u.scheduling.waiting_msg ≢ 0))
unfolding call_lst reset_last_idle_time
call_lst-running time m k u g r =
    let l = lst time (k.tick k.reads) (k.tick (k.reads + 1)) k.scheduler in
    elim (Option-cases l.0) [
      | inl e ↦ ground (
        arith,
        e,
        lst-running time (k.tick k.reads) (k.tick (k.reads + 1)) k.scheduler m {t = u}
            (ground (arith, e, g)) r,
      )
      | inr (j, e) ↦ elim (Bool-cases (j == m)) [
        | inl y ↦ inl (ground (arith, e, y))
        | inr n ↦
            let computing = λ (t : Tcb). record t { computation_time = k.tick (k.reads + 2) } in
            let ne : j ≢ m = ground (arith, n) in
            let kept = get_elem?-modify_ne l.1.tcbs computing ne in
            ground (
              arith,
              e,
              lst-running time (k.tick k.reads) (k.tick (k.reads + 1)) k.scheduler m {t = u}
                  (ground (arith, e, kept, g)) r,
            )
      ]
    ]

-- The mask is all that is left to do.
masked-running :
    (k k' : Kernel)
    → (let masked = λ (t : Tcb). if t.is_service_task == 0 then k else mask_interrupts k in
        elim k.current as (λ _. Outcome Kernel) [
          | none ↦ done k
          | some i ↦ tcb_at i k >>= λ t. done (masked t)
        ])
      ≡ done k'
    → (k'.current ≡ k.current) × (k'.scheduler ≡ k.scheduler)
masked-running k k' h = elim (Option-cases k.current) [
  | inl e ↦ ground (arith, e, h)
  | inr (i, e) ↦ elim (Option-cases (get_elem? k.scheduler.tcbs i)) [
    | inl n ↦ absurd (ground (arith, e, n, h))
    | inr (t, g) ↦ ground (arith, e, g, h)
  ]
]

-- Where a call of the kernel's scheduler returns, a task that is then running is the current one,
-- or a best-effort task that waits for a message.
pub os_scheduler-running :
    (m : ℕ) (k k' : Kernel) (u : Tcb)
    → os_scheduler k ≡ done k'
    → get_elem? k'.scheduler.tcbs m ≡ some u
    → u.scheduling.status ≡ running
    → (k'.current ≡ some m)
      ⊎ ((u.scheduling.deadline ≡ no_deadline) × (u.scheduling.waiting_msg ≢ 0))
unfolding os_scheduler allow_interrupts
os_scheduler-running m k k' u h g r = run_through (leave_if_due (after_read k)) _ h (λ k1 e h1.
    let (c, s) = masked-running _ k' h1 in
    let ran = call_lst-running (hal_get_tick k) m k1 u (rw (← s) g) r in rw c ran)
