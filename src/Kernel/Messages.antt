-- ===== src/Kernel/Messages.antt =====
-- The messages between tasks, in software/kernel/modules/task_communication.c: a consumer's Receive
-- sends a request to its producer's processor, and the producer's Send answers it.
pub mod Retry
pub mod Request
use mmemphis.Base.{
  ℕ, ◌+◌, ◌^◌, not, ◌&&◌, ◌||◌, Option, none, some, List, [], ◌∷◌, ◌++◌, ◌==◌, if◌then◌else◌,
  get_elem?, get_or, take, minus_one, add32, sub32, loop_bound, Outcome, done, hangs, ◌>>=◌,
  or_hang,
}
use Prim.Native.Nat.{bit_or}
use mathlib.Core.Option
use mmemphis.Memory.{store, read_words, copy_words, write_words}
use mmemphis.Tcb.{Tcb, blocked, search_tcb}
use mmemphis.Requests.{insert_message_request, remove_message_request, restore}
use mmemphis.Locations.{get_task_location}
use mmemphis.Ctp.{get_subnet, dmni_send_op, dmni_receive_op}
use mmemphis.Packet.{ServiceHeader}
use mmemphis.Kernel.{
  Kernel, tcb_at, on_tcb, send_packet, dmni_send_data, hal_release_waiting_task, hal_get_tick,
  hal_is_send_active, hal_enable_scheduler_after_syscall, after_read,
}
use mmemphis.Kernel.Circuits.{check_ctp_reconfiguration}
use mmemphis.Kernel.Migration.{migrate_dynamic_memory}
use mmemphis.Kernel.Services.{full_id}

abbrev pub message_request : ℕ
message_request = 0x10

abbrev pub message_delivery : ℕ
message_delivery = 0x20

-- `total_comm += HAL_get_tick() - communication_time;`
abbrev pub end_communication : ℕ → Kernel → Kernel
end_communication i k =
    on_tcb i
      (λ t. record t {
        total_comm = add32 t.total_comm (sub32 (hal_get_tick k) t.communication_time);
      })
      (after_read k)

-- A message is its length, an `int`, and its words from the next address on.
unfoldable pub write_local_msg_to_task : ℕ → ℕ → Kernel → Outcome Kernel
write_local_msg_to_task j message k = do
  t ← tcb_at j k
  let n = k.memory message
  let written =
      copy_words (loop_bound n) (t.recv_buffer + 4) (message + 4) (store t.recv_buffer n k.memory)
  k' ← check_ctp_reconfiguration j (hal_release_waiting_task j (record k { memory = written }))
  done (end_communication j k')

-- `requesting_processor` is `msg_lenght`.
unfoldable pub send_message_request : ℕ → ℕ → ℕ → ℕ → Kernel → Kernel
send_message_request producer_task consumer_task target_pe requesting_pe k =
    let subnet = get_subnet producer_task consumer_task dmni_receive_op k.ctps in
    if subnet == minus_one
    then send_packet
        (λ p. record p {
          header = target_pe;
          service = message_request;
          msg_lenght = requesting_pe;
          producer_task = producer_task;
          consumer_task = consumer_task;
        })
        [] k
    else record k { cs_requests = k.cs_requests ++ (2 ^ subnet) ∷ [] }

-- By a circuit the message goes with its length.
unfoldable pub send_message_delivery : ℕ → ℕ → ℕ → ℕ → Kernel → Kernel
send_message_delivery producer_task consumer_task consumer_pe message k =
    let subnet = get_subnet producer_task consumer_task dmni_send_op k.ctps in
    let n = k.memory message in
    if subnet == minus_one
    then send_packet
        (λ p. record p {
          header = consumer_pe;
          service = message_delivery;
          producer_task = producer_task;
          consumer_task = consumer_task;
          msg_lenght = n;
        })
        (read_words (message + 4) n k.memory) k
    else dmni_send_data message (n + 1) subnet k

-- A producer that is not here has migrated: the request follows it.
unfoldable pub handle_message_request : ServiceHeader → Kernel → Outcome Kernel
handle_message_request p k =
    let producer_pe = get_task_location p.producer_task k.locations in
    let inserted = record k {
      requests = (insert_message_request p.producer_task p.consumer_task p.msg_lenght k.requests).1;
    } in
    let forwarded =
      send_message_request p.producer_task p.consumer_task producer_pe p.msg_lenght k in
    elim (search_tcb p.producer_task k.scheduler.tcbs) [
      | some _ ↦ done inserted
      | none ↦
          if producer_pe == k.net_address || producer_pe == minus_one then hangs else done forwarded
    ]

-- The memory of a consumer that has been given a message: by packet switching its length stands in
-- the header, by a circuit it is the first word that arrives.
abbrev pub received : ServiceHeader → List ℕ → ℕ → ℕ → Kernel → ℕ → ℕ
received p payload subnet buffer k =
    let n = if subnet == k.ps_subnet then p.msg_lenght else get_or payload 0 0 in
    let words = if subnet == k.ps_subnet then payload else elim payload [ [] ↦ [] | w ∷ ws ↦ ws ] in
    store buffer n (write_words (buffer + 4) (take n words) k.memory)

-- A consumer whose memory holds its message waits no more.
abbrev pub given : ℕ → (ℕ → ℕ) → Kernel → Kernel
given i memory k =
    hal_release_waiting_task i
      (on_tcb i (λ t. record t { recv_buffer = 0 }) (record k { memory = memory }))

-- The changes that were put off while the consumer waited.
unfoldable pub conclude_delivery : ℕ → Tcb → Kernel → Outcome (ℕ × Kernel)
conclude_delivery i t k = do
  k' ← check_ctp_reconfiguration i k
  let concluded = end_communication i k'
  let leaves = migrate_dynamic_memory i concluded >>= λ k''. done (1, k'')
  if t.proc_to_migrate == minus_one then done (0, concluded) else leaves

-- The latency that the code computes for a task with a period is read by nothing.
unfoldable pub handle_message_delivery : ServiceHeader → List ℕ → ℕ → Kernel → Outcome (ℕ × Kernel)
handle_message_delivery p payload subnet k = do
  i ← or_hang (search_tcb p.consumer_task k.scheduler.tcbs)
  t ← tcb_at i k
  let k' = if subnet == k.ps_subnet && not (t.scheduling.period == 0) then after_read k else k
  if t.recv_buffer == 0
      then hangs
      else conclude_delivery i t (given i (received p payload subnet t.recv_buffer k) k')

-- The consumer is a task of this processor.
unfoldable pub send_local : ℕ → ℕ → Kernel → Outcome (ℕ × Kernel)
send_local consumer_task message k = do
  j ← or_hang (search_tcb consumer_task k.scheduler.tcbs)
  t ← tcb_at j k
  k1 ← if t.recv_buffer == 0 then hangs else write_local_msg_to_task j message k
  let k2 = on_tcb j (λ t. record t { recv_buffer = 0 }) k1
  let leaves = migrate_dynamic_memory j k2 >>= λ k3. done (1, hal_enable_scheduler_after_syscall k3)
  if t.proc_to_migrate == minus_one then done (1, k2) else leaves

-- The consumer is elsewhere. While the DMNI is busy, the request is put back.
unfoldable pub send_remote : ℕ → ℕ → ℕ → ℕ → ℕ → Kernel → ℕ × Kernel
send_remote producer_task consumer_task request requester_proc message k =
    let subnet = get_subnet producer_task consumer_task dmni_send_op k.ctps in
    let busy = hal_is_send_active (if subnet == minus_one then k.ps_subnet else subnet) k in
    let k' = after_read k in
    if busy
    then (0, record k' { requests = restore producer_task consumer_task request k'.requests })
    else (1, send_message_delivery producer_task consumer_task requester_proc message k')

-- A request is answered, if there is one.
unfoldable pub answer_request : ℕ → ℕ → ℕ → Kernel → Outcome (ℕ × Kernel)
answer_request producer_task consumer_task message k =
    let (removed, table) = remove_message_request producer_task consumer_task k.requests in
    let k' = record k { requests = table } in
    elim removed [
      | none ↦ done (0, hal_enable_scheduler_after_syscall k)
      | some request ↦ or_hang (get_elem? k.requests request) >>= λ e.
          if e.requester_proc == k.net_address
          then send_local consumer_task message k'
          else done (send_remote producer_task consumer_task request e.requester_proc message k')
    ]

-- The Send of the task at `i`; a task whose Send returns 0 calls it again.
unfoldable pub send_message : ℕ → ℕ → ℕ → Kernel → Outcome (ℕ × Kernel)
send_message i msg_addr consumer k0 = do
  running ← tcb_at i k0
  let k = after_read k0
  let consumer_task = full_id running.id consumer
  let answer = answer_request running.id consumer_task (bit_or running.offset msg_addr) k
  if hal_is_send_active k0.ps_subnet k0
      then done (0, hal_enable_scheduler_after_syscall k)
      else answer

-- The task waits, with its buffer, from now on.
unfoldable pub await_message : ℕ → ℕ → Kernel → Kernel
await_message i msg_addr k =
    let now = hal_get_tick k in
    on_tcb i
      (λ t. record t {
        recv_buffer = bit_or t.offset msg_addr;
        communication_time = now;
        total_comp = add32 t.total_comp (sub32 now t.computation_time);
        scheduling = record t.scheduling { waiting_msg = 1 };
      })
      (hal_enable_scheduler_after_syscall (after_read k))

-- The Receive of the task at `i`. A request that finds the table full is lost.
unfoldable pub receive_message : ℕ → ℕ → ℕ → Kernel → Outcome (ℕ × Kernel)
receive_message i msg_addr producer k0 = do
  running ← tcb_at i k0
  let k = after_read k0
  let consumer_task = running.id
  let producer_task = full_id consumer_task producer
  let producer_pe = get_task_location producer_task k.locations
  let blocks = on_tcb i (λ t. record t { scheduling = record t.scheduling { status = blocked } }) k
  let inserted = record k {
    requests = (insert_message_request producer_task consumer_task k.net_address k.requests).1;
  }
  let by_packet = get_subnet producer_task consumer_task dmni_receive_op k.ctps == minus_one
  let k' = if by_packet then after_read k else k
  let requested = send_message_request producer_task consumer_task producer_pe k.net_address k'
  if hal_is_send_active k0.ps_subnet k0
      then done (0, hal_enable_scheduler_after_syscall k)
      else (if producer_pe == minus_one
          then done (0, blocks)
          else (if not (running.recv_buffer == 0)
              then hangs
              else (if producer_pe == k.net_address
                  then done (0, await_message i msg_addr inserted)
                  else (if by_packet && hal_is_send_active k.ps_subnet k
                      then done (0, k')
                      else done (0, await_message i msg_addr requested)))))
