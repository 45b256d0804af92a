-- ===== src/Kernel/Monitor.antt =====
-- software/kernel/modules/monitor.c, and the report of a task's real-time constraints in
-- task_scheduler.c. ENABLE_APL_SLAVE is 0, and `send_slack_time_report` returns at once.
use mmemphis.Base.{
  ℕ, ◌+◌, ◌*◌, ◌/◌, ◌%◌, ◌^◌, [], ◌∷◌, ◌==◌, if◌then◌else◌, add32, sub32, Outcome, done, ◌>>=◌,
}
use Prim.Native.Nat.{bit_or}
use mmemphis.Tcb.{Tcb}
use mmemphis.Kernel.{Kernel, tcb_at, send_packet, hal_get_tick, after_read}
use mmemphis.Kernel.Setup.{report}
use mmemphis.Kernel.Tasks.{master_id, master_addr}

abbrev pub latency_miss_report : ℕ
latency_miss_report = 0x275

abbrev pub rt_constrants : ℕ
rt_constrants = 0x280

abbrev pub rt_constrants_other_cluster : ℕ
rt_constrants_other_cluster = 0x285

unfoldable pub send_latency_miss : Tcb → ℕ → ℕ → Kernel → Outcome Kernel
send_latency_miss t producer_task producer_proc k =
    report (master_id t.master_address) (master_addr t.master_address)
      (latency_miss_report ∷ t.id ∷ k.net_address ∷ producer_task ∷ producer_proc ∷ []) k

-- The division is the one of unsigned words; processor 0 divides by zero.
unfoldable pub init_profiling_window : Kernel → Kernel
init_profiling_window k = record k {
  last_task_profiling_update = 1000000 / (k.net_address / 256 + k.net_address % 256);
}

unfoldable pub reset_last_idle_time : Kernel → Kernel
reset_last_idle_time k = record (after_read k) { last_idle_time = hal_get_tick k }

unfoldable pub compute_idle_time : Kernel → Kernel
compute_idle_time k = record (after_read k) {
  total_idle_time = add32 k.total_idle_time (sub32 (hal_get_tick k) k.last_idle_time);
}

-- `period`, `master_address` and `utilization` are `consumer_task`, `code_size` and
-- `initial_address`.
unfoldable pub send_real_time_constraints : ℕ → Kernel → Outcome Kernel
send_real_time_constraints i k = do
  t ← tcb_at i k
  let s = t.scheduling
  let k' =
      send_packet
        (λ p. record p {
          header = t.master_address;
          service = rt_constrants;
          producer_task = t.id;
          code_size = k.cluster_master_address;
          consumer_task = s.period;
          initial_address = bit_or (s.utilization * 2 ^ 16 % 2 ^ 32) k.scheduler.cpu_utilization;
        })
        [] k
  let other =
      send_packet
        (λ p. record p {
          header = k.cluster_master_address;
          service = rt_constrants_other_cluster;
          producer_task = t.id;
          initial_address = s.utilization;
        })
        [] k'
  done (if t.master_address == k.cluster_master_address then k' else other)
