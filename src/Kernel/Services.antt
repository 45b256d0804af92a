-- ===== src/Kernel/Services.antt =====
-- The messages of the management tasks, in software/kernel/modules/task_communication.c: they are
-- written into a task that waits for them already.
use mmemphis.Base.{
  ℕ, ◌/◌, ◌||◌, List, ◌==◌, if◌then◌else◌, length, get_or, minus_one, Outcome, done, hangs, ◌>>=◌,
  or_hang, pack8,
}
use Prim.Native.Nat.{bit_or}
use mmemphis.Memory.{read_words, write_words, copy_words}
use mmemphis.Tcb.{Tcb, blocked, search_tcb}
use mmemphis.Locations.{get_task_location}
use mmemphis.Packet.{ServiceHeader}
use mmemphis.Kernel.{
  Kernel, tcb_at, on_tcb, send_packet, hal_release_waiting_task, hal_is_send_active,
  hal_enable_scheduler_after_syscall, after_read, dmni_read_data,
}

abbrev pub task_terminated : ℕ
task_terminated = 0x70

-- A task's block that waits with a buffer; the callers spin where it does not.
abbrev pub expects : ℕ → Kernel → Outcome (ℕ × Tcb)
expects task k = do
  i ← or_hang (search_tcb task k.scheduler.tcbs)
  t ← tcb_at i k
  if t.scheduling.waiting_msg == 0 || t.recv_buffer == 0 then hangs else done (i, t)

abbrev pub take_buffer : ℕ → Kernel → Kernel
take_buffer i k = hal_release_waiting_task i (on_tcb i (λ t. record t { recv_buffer = 0 }) k)

unfoldable pub write_local_service_to_ma : ℕ → List ℕ → Kernel → Outcome Kernel
write_local_service_to_ma consumer_id msg_data k = do
  r ← expects consumer_id k
  done (take_buffer r.0 (record k { memory = write_words r.1.recv_buffer msg_data k.memory }))

-- The service is the message's first word; `task_ID` is `producer_task`.
unfoldable pub send_service_to_ma : ℕ → ℕ → List ℕ → Kernel → Kernel
send_service_to_ma consumer_task target_pe src_message k =
    let service = get_or src_message 0 0 in
    send_packet
      (λ p.
        let p' : ServiceHeader = record p { header = target_pe; service = service } in
        record p' {
          producer_task =
              if service == task_terminated then get_or src_message 1 0 else p.producer_task;
          consumer_task = consumer_task;
          msg_lenght = length src_message;
        })
      src_message k

unfoldable pub handle_ma_message : ℕ → ℕ → List ℕ → Kernel → Outcome Kernel
handle_ma_message consumer_task msg_size payload k = do
  r ← expects consumer_task k
  done (take_buffer r.0 (dmni_read_data r.1.recv_buffer msg_size payload k))

-- `(appID << 8) | task` for the application of a running task.
abbrev pub full_id : ℕ → ℕ → ℕ
full_id running_id task = pack8 (running_id / 256) task

-- A block that is not there is not followed.
unfoldable pub send_ma_local : ℕ → ℕ → ℕ → ℕ → Kernel → Outcome (ℕ × Kernel)
send_ma_local i msg_addr msg_size consumer_task k = do
  running ← tcb_at i k
  j ← or_hang (search_tcb consumer_task k.scheduler.tcbs)
  t ← tcb_at j k
  let copied = record k {
    memory = copy_words msg_size t.recv_buffer (bit_or running.offset msg_addr) k.memory;
  }
  done (
      if t.recv_buffer == 0
      then (0, hal_enable_scheduler_after_syscall k)
      else (1, take_buffer j copied))

unfoldable pub send_ma : ℕ → ℕ → ℕ → ℕ → Kernel → Outcome (ℕ × Kernel)
send_ma i msg_addr msg_size consumer k0 = do
  running ← tcb_at i k0
  let k = after_read k0
  let consumer_task = full_id running.id consumer
  let consumer_pe = get_task_location consumer_task k.locations
  let wait = on_tcb i (λ t. record t { scheduling = record t.scheduling { status = blocked } }) k
  let out =
      send_service_to_ma consumer_task consumer_pe
        (read_words (bit_or running.offset msg_addr) msg_size k.memory) k
  if hal_is_send_active k0.ps_subnet k0
      then done (0, k)
      else (if consumer_pe == minus_one
          then done (0, wait)
          else (if consumer_pe == k.net_address
              then send_ma_local i msg_addr msg_size consumer_task k
              else done (1, out)))

unfoldable pub receive_ma : ℕ → ℕ → Kernel → Outcome Kernel
receive_ma i msg_addr k = do
  t ← tcb_at i k
  let k' =
      on_tcb i
        (λ t. record t {
          recv_buffer = bit_or t.offset msg_addr;
          scheduling = record t.scheduling { waiting_msg = 1 };
        })
        k
  if t.recv_buffer == 0 then done (hal_enable_scheduler_after_syscall k') else hangs
