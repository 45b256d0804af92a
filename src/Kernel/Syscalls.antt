-- ===== src/Kernel/Syscalls.antt =====
-- `OS_syscall_handler` of software/kernel/kernel.c: the calls of the running task. What the calls
-- print is left out.
use mmemphis.Base.{
  ℕ, ◌/◌, ◌%◌, leb, ◌==◌, if◌then◌else◌, sar8, Outcome, done, hangs, ◌>>=◌, or_hang,
}
use Prim.Native.Nat.{bit_or}
use mmemphis.Tcb.{is_another_task_running}
use mmemphis.Scheduler.{clear_scheduling, real_time_task}
use mmemphis.Locations.{get_task_location, add_task_location, clear_app_tasks_locations}
use mmemphis.Kernel.{
  Kernel, tcb_at, on_tcb, dmni_send_data, hal_get_tick, hal_is_send_active,
  hal_enable_scheduler_after_syscall, after_read,
}
use mmemphis.Kernel.Circuits.{send_config_router}
use mmemphis.Kernel.Services.{send_ma, receive_ma}
use mmemphis.Kernel.Messages.{send_message, receive_message}
use mmemphis.Kernel.Tasks.{send_task_terminated, set_task_release_local}
use mmemphis.Kernel.Monitor.{send_real_time_constraints}

-- A call that needs the DMNI is refused while it sends.
abbrev pub if_free : (Kernel → Outcome (ℕ × Kernel)) → Kernel → Outcome (ℕ × Kernel)
if_free call k =
    let rest = call (after_read k) in
    if hal_is_send_active k.ps_subnet k then done (0, after_read k) else rest

-- The block is free again, and the CPU utilization is without its task.
unfoldable pub clear_task : ℕ → Kernel → Outcome Kernel
clear_task i k = do
  t ← tcb_at i k
  let r = clear_scheduling k.scheduler.cpu_utilization t.scheduling
  let k' = on_tcb i (λ t. record t { scheduling = r.1 }) k
  done (record k' { scheduler = record k'.scheduler { cpu_utilization = r.0 } })

-- The last task of an application takes the locations of its tasks along. `HAL_get_tick` is read
-- for a line that is printed.
unfoldable pub exit_task : ℕ → Kernel → Outcome (ℕ × Kernel)
exit_task i k = do
  t ← tcb_at i k
  k1 ← send_task_terminated t (after_read k)
  k2 ← clear_task i k1
  let app = sar8 t.id
  done (
    1,
    (if is_another_task_running app k2.scheduler.tcbs == 0
        then record k2 { locations = clear_app_tasks_locations app k2.locations }
        else k2),
  )

unfoldable pub real_time_call : ℕ → ℕ → ℕ → ℕ → Kernel → Outcome (ℕ × Kernel)
real_time_call i period deadline execution_time k = do
  t ← tcb_at i k
  r ← or_hang (
      real_time_task (hal_get_tick k) period deadline execution_time k.scheduler.cpu_utilization
        t.scheduling)
  let k1 = on_tcb i (λ t. record t { scheduling = r.1 }) (after_read k)
  k2 ←
      send_real_time_constraints i
        (record k1 { scheduler = record k1.scheduler { cpu_utilization = r.0 } })
  done (1, k2)

-- `HAL_interrupt_mask_clear(0xffffffff)`
abbrev pub mask_interrupts : Kernel → Kernel
mask_interrupts k = record k { irq_mask = 0 }

unfoldable pub allow_interrupts : ℕ → Kernel → Kernel
allow_interrupts mask k = record k { irq_mask = bit_or k.irq_mask mask }

-- The calls of a management task.
unfoldable pub service_syscall : ℕ → ℕ → ℕ → ℕ → ℕ → Kernel → Outcome (ℕ × Kernel)
service_syscall service i arg0 arg1 arg2 k =
    let located = add_task_location arg0 arg1 k.locations >>= λ table.
    done (0, record k { locations = table }) in
    let reads = receive_ma i arg0 k >>= λ k'. done (0, allow_interrupts k'.interrput_mask k') in
    let releases =
      tcb_at i k >>= λ t. set_task_release_local (bit_or t.offset arg0) k >>= λ k'. done (0, k') in
    if service == 9
    then done (1, mask_interrupts (on_tcb i (λ t. record t { is_service_task = 1 }) k))
    else (if service == 10
        then send_ma i arg1 arg2 arg0 k
        else (if service == 11
            then reads
            else (if service == 12
                then done (1, k)
                else (if service == 13
                    then if_free
                        (λ k'. done (1, send_config_router arg0 (arg1 / 256) (arg1 % 256) arg2 k'))
                        k
                    else (if service == 14
                        then if_free (λ k'. done (1, k')) k
                        else (if service == 15
                            then done (if leb 16 (k.irq_status k.reads) then 1 else 0, after_read k)
                            else (if service == 16
                                then done (k.net_address, k)
                                else (if service == 18
                                    then done (get_task_location arg0 k.locations, k)
                                    else (if service == 17
                                        then located
                                        else (if service == 19 then releases else hangs))))))))))

-- The calls of any task, and those above. A call that is none of them spins.
unfoldable pub os_syscall_handler : ℕ → ℕ → ℕ → ℕ → Kernel → Outcome (ℕ × Kernel)
os_syscall_handler service arg0 arg1 arg2 k0 = do
  i ← or_hang k0.current
  t ← tcb_at i k0
  let k = record k0 { schedule_after_syscall = 0 }
  let send_raw = λ (k : Kernel). done (1, dmni_send_data (bit_or t.offset arg0) arg1 k.ps_subnet k)
  if service == 0
      then if_free (exit_task i) (hal_enable_scheduler_after_syscall k)
      else (if service == 1
          then send_message i arg0 arg1 k
          else (if service == 2
              then receive_message i arg0 arg1 k
              else (if service == 3
                  then done (hal_get_tick k, after_read k)
                  else (if service == 4
                      then done (t.id, k)
                      else (if service == 5
                          then done (0, k)
                          else (if service == 6
                              then if_free (real_time_call i arg0 arg1 arg2) k
                              else (if service == 7
                                  then if_free send_raw (hal_enable_scheduler_after_syscall k)
                                  else service_syscall service i arg0 arg1 arg2 k)))))))
