-- ===== src/Kernel/Interrupts.antt =====
-- The scheduler's call, the interruption handler and the boot of software/kernel/kernel.c. The reports
-- to the debugger are left out, and SLACK_TIME_WINDOW is 100000.
pub mod Deferred
pub mod Scheduled
use mmemphis.Base.{
  ℕ, zero, suc, ◌+◌, ◌^◌, not, ◌&&◌, ◌||◌, Option, none, some, List, [], ◌∷◌, ◌++◌, leb, ◌==◌,
  if◌then◌else◌, get_elem?, minus_one, add32, sub32, Outcome, done, ◌>>=◌, or_hang,
}
use Prim.Native.Nat.{bit_or}
use mathlib.Core.Option
use mmemphis.Tcb.{Tcb, running, init_tcbs, PendingMigrationTask}
use mmemphis.Scheduler.{lst}
use mmemphis.Requests.{init_communication}
use mmemphis.Locations.{get_task_location, init_task_location}
use mmemphis.Ctp.{init_ctp, get_ctp_ptr, dmni_send_op, dmni_receive_op}
use mmemphis.Packet.{ServiceHeader}
use mmemphis.Packet.Slots.{init_packet}
use mmemphis.PendingService.{add_pending_service, get_next_pending_service}
use mmemphis.Kernel.{Kernel, tcb_at, on_tcb, has_bit, hal_get_tick, hal_is_send_active, after_read}
use mmemphis.Kernel.Messages.{message_request, message_delivery}
use mmemphis.Kernel.Migration.{task_migration, migrate_dynamic_memory}
use mmemphis.Kernel.Syscalls.{mask_interrupts, allow_interrupts}
use mmemphis.Kernel.Packets.{handle_packet}
use mmemphis.Kernel.Monitor.{reset_last_idle_time, compute_idle_time}

-- A task whose migration waits leaves when it is running and does not wait for a message. The
-- status of the idle task, which the code reads through a null pointer, is taken not to be running.
unfoldable pub leave_if_due : Kernel → Outcome Kernel
leave_if_due k =
    let due = λ (i : ℕ) (t : Tcb).
      let leaves = migrate_dynamic_memory i k in
      if not (t.proc_to_migrate == minus_one)
        && t.scheduling.status == running
        && t.scheduling.waiting_msg == 0
      then leaves
      else done k in
    elim k.current [ none ↦ done k | some i ↦ tcb_at i k >>= λ t. due i t ]

-- The tick that a choice of a real-time task reads is passed over by any other choice.
unfoldable pub call_lst : ℕ → Kernel → Kernel
call_lst scheduler_call_time k =
    let (choice, s) = lst scheduler_call_time (k.tick k.reads) (k.tick (k.reads + 1)) k.scheduler in
    let k' = record k { reads = k.reads + 2; scheduler = s; current = choice } in
    elim choice [
      | none ↦ reset_last_idle_time k'
      | some j ↦ on_tcb j (λ t. record t { computation_time = hal_get_tick k' }) (after_read k')
    ]

-- The interrupts of a service task stay disabled, those of the idle task do not.
unfoldable pub os_scheduler : Kernel → Outcome Kernel
os_scheduler k = do
  k1 ← leave_if_due (after_read k)
  let k2 = call_lst (hal_get_tick k) k1
  let k3 = allow_interrupts 1 (record k2 { timer = k2.scheduler.time_slice })
  let masked = λ (t : Tcb). if t.is_service_task == 0 then k3 else mask_interrupts k3
  elim k3.current [ none ↦ done k3 | some i ↦ tcb_at i k3 >>= λ t. done (masked t) ]

-- A packet. While the DMNI sends, a request or an order to migrate is put off.
unfoldable pub ps_interrupt : ServiceHeader → List ℕ → Kernel → Outcome (ℕ × Kernel)
ps_interrupt p payload k =
    let later =
      add_pending_service k.pending p >>= λ q. done (0, record (after_read k) { pending = q }) in
    let now = handle_packet p payload k.ps_subnet (after_read k) in
    if hal_is_send_active k.ps_subnet k
      && (p.service == message_request || p.service == task_migration)
    then later
    else now

-- The first circuit, of `n` from `subnet` on, that has data for its consumer; `p` is what the
-- header on the stack holds.
unfoldable pub cs_interrupt : ℕ → ℕ → ℕ → ServiceHeader → List ℕ → Kernel → Outcome (ℕ × Kernel)
cs_interrupt zero subnet status p payload k = done (0, k)
cs_interrupt (suc n) subnet status p payload k =
    let delivered = get_ctp_ptr subnet dmni_receive_op k.ctps >>= λ i.
    or_hang (get_elem? k.ctps i) >>= λ e.
    handle_packet (record p { service = message_delivery; consumer_task = e.consumer_task }) payload
      subnet k in
    let rest = cs_interrupt n (suc subnet) status p payload k in
    if has_bit (4 + subnet) status then delivered else rest

-- Every circuit whose consumer raised the request wire.
unfoldable pub cs_requests_from : ℕ → ℕ → ℕ → ServiceHeader → ℕ → Kernel → Outcome (ℕ × Kernel)
cs_requests_from zero subnet req_status p call_scheduler k = done (call_scheduler, k)
cs_requests_from (suc n) subnet req_status p call_scheduler k =
    let requested = get_ctp_ptr subnet dmni_send_op k.ctps >>= λ i.
    or_hang (get_elem? k.ctps i) >>= λ e.
    handle_packet
      (record p {
        service = message_request;
        producer_task = e.producer_task;
        consumer_task = e.consumer_task;
        msg_lenght = get_task_location e.consumer_task k.locations;
      })
      [] subnet k in
    let one = if has_bit subnet req_status then requested else done (call_scheduler, k) in
    one >>= λ r. cs_requests_from n (suc subnet) req_status p r.0 r.1

unfoldable pub cs_request_interrupt : ServiceHeader → Kernel → Outcome (ℕ × Kernel)
cs_request_interrupt p k = do
  let req_status = k.cs_request k.reads
  r ← cs_requests_from k.ps_subnet 0 req_status p 0 (after_read k)
  done (r.0, record r.1 { handled_cs_requests = r.1.handled_cs_requests ++ req_status ∷ [] })

-- What was put off came without a payload.
unfoldable pub pending_interrupt : Kernel → Outcome (ℕ × Kernel)
pending_interrupt k =
    let (next, q) = get_next_pending_service k.pending in
    let k' = record k { pending = q } in
    elim next [
      | none ↦ done (0, k')
      | some i ↦ or_hang (get_elem? q.fifo.slots i) >>= λ p. handle_packet p [] k.ps_subnet k'
    ]

-- The causes, in the order of the tests. The slack time report is switched off.
unfoldable pub interrupt_cause : ℕ → ServiceHeader → List ℕ → Kernel → Outcome (ℕ × Kernel)
interrupt_cause status p payload k =
    if leb 16 status
    then (if has_bit (4 + k.ps_subnet) status
        then ps_interrupt p payload k
        else cs_interrupt k.ps_subnet 0 status p payload k)
    else (if has_bit 3 status
        then cs_request_interrupt p k
        else (if has_bit 1 status
            then pending_interrupt k
            else (if has_bit 2 status
                then done (0, record k { slack_time_monitor = 100000 })
                else done (0, k))))

-- The time that the interrupted task has computed, or the processor idled.
unfoldable pub account_time : Kernel → Kernel
account_time k =
    let now = hal_get_tick k in
    elim k.current [
      | none ↦ compute_idle_time k
      | some i ↦
          on_tcb i
            (λ t. record t { total_comp = add32 t.total_comp (sub32 now t.computation_time) })
            (after_read k)
    ]

-- Without a call of the scheduler, the interrupted task goes on.
unfoldable pub resume : Kernel → Kernel
resume k =
    let now = hal_get_tick k in
    elim k.current [
      | none ↦ reset_last_idle_time k
      | some i ↦ on_tcb i (λ t. record t { computation_time = now }) (after_read k)
    ]

unfoldable pub os_interruption_handler : ℕ → ServiceHeader → List ℕ → Kernel → Outcome Kernel
os_interruption_handler status p payload k = do
  r ← interrupt_cause status p payload (account_time k)
  let call_scheduler = has_bit 0 status || not (r.0 == 0)
  if call_scheduler then os_scheduler r.1 else done (resume r.1)

-- `1 << (4 + i)` for each of `n` subnets.
unfoldable pub subnets_mask : ℕ → ℕ
subnets_mask zero = 0
subnets_mask (suc n) = bit_or (subnets_mask n) (2 ^ (4 + n))

-- The boot, from what the globals hold; `pending` is the table of pending migrations.
unfoldable pub main : List PendingMigrationTask → Kernel → Kernel × List PendingMigrationTask
main pending k =
    let k1 = reset_last_idle_time k in
    let tables = init_tcbs k.page_size k1.scheduler.tcbs pending in
    let mask = bit_or 15 (subnets_mask (k.ps_subnet + 1)) in
    (
      record k1 {
        current = none;
        slots = init_packet;
        ctps = init_ctp k1.ctps;
        requests = init_communication k1.requests;
        locations = init_task_location k1.locations;
        scheduler = record k1.scheduler { tcbs = tables.0 };
        irq_mask = mask;
        interrput_mask = mask;
        slack_time_monitor = 100000;
      },
      tables.1,
    )
