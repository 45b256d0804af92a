-- ===== src/Kernel/Migration.antt =====
-- software/kernel/modules/enforcer_migration.c: the packets that carry a task to another processor,
-- and their handling there.
pub mod Target
pub mod Carried
use mmemphis.Base.{
  ℕ, zero, suc, ◌+◌, ◌/◌, ◌%◌, Option, List, [], ◌∷◌, ◌==◌, if◌then◌else◌, length, get_or, modify,
  take, minus_one, add32, sub32, mul32, Outcome, done, ◌>>=◌, pack8,
}
use mathlib.Core.Option
use mmemphis.Memory.{read_words}
use mmemphis.Tcb.{Tcb}
use mmemphis.Scheduler.{clear_scheduling}
use mmemphis.Requests.{remove_all_requested_msgs}
use mmemphis.Locations.{TaskLocation, get_task_location, remove_task_location, add_task_location}
use mmemphis.Packet.{ServiceHeader}
use mmemphis.Kernel.{Kernel, tcb_at, on_tcb, send_packet}

abbrev pub task_migration : ℕ
task_migration = 0x210

abbrev pub migration_code : ℕ
migration_code = 0x220

abbrev pub migration_tcb : ℕ
migration_tcb = 0x221

abbrev pub migration_task_location : ℕ
migration_task_location = 0x222

abbrev pub migration_msg_request : ℕ
migration_msg_request = 0x223

abbrev pub migration_stack : ℕ
migration_stack = 0x224

abbrev pub migration_data_bss : ℕ
migration_data_bss = 0x225

abbrev pub task_migrated : ℕ
task_migrated = 0x235

abbrev pub task_terminated_other_cluster : ℕ
task_terminated_other_cluster = 0x180

-- `task_ID` is `producer_task` and `allocated_processor` is `msg_lenght`.
unfoldable pub send_task_migrated : ℕ → ℕ → ℕ → Kernel → Kernel
send_task_migrated migrated_task new_proc master_address k =
    let k' =
      send_packet
        (λ p. record p {
          header = master_address;
          service = task_migrated;
          producer_task = migrated_task;
          msg_lenght = new_proc;
        })
        [] k in
    let other =
      send_packet
        (λ p. record p {
          header = k.cluster_master_address;
          service = task_terminated_other_cluster;
          producer_task = migrated_task;
        })
        [] k' in
    if master_address == k.cluster_master_address then k' else other

-- `while((PAGE_SIZE - _stack_pointer) % 4) _stack_pointer--;`: the number is known after four
-- rounds at most.
unfoldable pub align_stack : ℕ → ℕ → ℕ → ℕ
align_stack zero page_size sp = sp
align_stack (suc fuel) page_size sp =
    let rest = align_stack fuel page_size (sub32 sp 1) in
    if sub32 page_size sp % 4 == 0 then sp else rest

abbrev pub stack_lenght : ℕ → ℕ → ℕ
stack_lenght page_size sp = sub32 page_size (align_stack 4 page_size sp) / 4

-- `period` is `consumer_task`, and `program_counter` is `initial_address`; `deadline` and then
-- `execution_time` are both written to `code_size`.
unfoldable pub tcb_header : ℕ → Tcb → ServiceHeader → ServiceHeader
tcb_header processor t p =
    let p' : ServiceHeader = record p {
      header = processor;
      service = migration_tcb;
      producer_task = t.id;
      consumer_task = t.scheduling.period;
      code_size = t.scheduling.deadline;
    } in
    record p' { code_size = t.scheduling.execution_time; initial_address = sub32 t.pc t.offset }

-- Register 27 holds an address of the page.
unfoldable pub tcb_registers : Tcb → List ℕ
tcb_registers t = take 30 (modify t.reg 27 (λ r. sub32 r t.offset))

-- The locations of tasks `i`, `i + 1`, … of an application.
unfoldable pub location_array : ℕ → ℕ → ℕ → List TaskLocation → List ℕ
location_array app i zero table = []
location_array app i (suc n) table =
    get_task_location (pack8 app i) table ∷ location_array app (i + 1) n table

-- `id & 0xFF00`, as the byte that `| i` is written under.
abbrev pub app_byte : ℕ → ℕ
app_byte id = id / 256 % 256

abbrev pub task_packet : ℕ → ℕ → ℕ → ServiceHeader → ServiceHeader
task_packet processor service id p = record p {
  header = processor;
  service = service;
  producer_task = id;
}

-- The memory of the task: its stack, then its data and bss sections.
unfoldable pub send_pages : ℕ → Tcb → Kernel → Kernel
send_pages processor t k =
    let sp = get_or t.reg 25 0 in
    let size = stack_lenght k.page_size sp in
    let k1 =
      send_packet (λ p. record (task_packet processor migration_stack t.id p) { msg_lenght = size })
        (read_words (add32 t.offset sp) size k.memory) k in
    send_packet
      (λ p. record (task_packet processor migration_data_bss t.id p) {
        pkt_size = t.data_lenght;
        bss_size = t.bss_lenght;
      })
      (read_words (add32 t.offset (mul32 t.text_lenght 4)) (add32 t.data_lenght t.bss_lenght)
        k.memory)
      k1

-- The requests for the task leave with it, if there are any.
unfoldable pub send_requests : ℕ → ℕ → Kernel → Kernel
send_requests processor id k =
    let (words, requests') = remove_all_requested_msgs id k.requests in
    let k' = record k { requests = requests' } in
    let out =
      send_packet
        (λ p. record (task_packet processor migration_msg_request id p) { bss_size = length words })
        words k' in
    if length words == 0 then k' else out

unfoldable pub send_locations : ℕ → ℕ → Kernel → Outcome Kernel
send_locations processor id k = do
  removed ← remove_task_location id k.locations
  table ← add_task_location id processor removed.1
  done (
      send_packet (λ p. task_packet processor migration_task_location id p)
        (location_array (app_byte id) 0 k.max_tasks_app table) (record k { locations = table }))

-- The entry of a task that has left.
abbrev pub vacate : ℕ → Tcb → Tcb
vacate cpu_utilization t = record t {
  scheduling = (clear_scheduling cpu_utilization t.scheduling).1;
  pc = 0;
  id = minus_one;
  proc_to_migrate = minus_one;
}

unfoldable pub migrate_dynamic_memory : ℕ → Kernel → Outcome Kernel
migrate_dynamic_memory i k = do
  t ← tcb_at i k
  let processor = t.proc_to_migrate
  let k1 = on_tcb i (λ t. record t { proc_to_migrate = minus_one }) k
  let k2 = send_packet (tcb_header processor t) (tcb_registers t) k1
  k3 ← send_locations processor t.id k2
  let k4 = send_pages processor t (send_requests processor t.id k3)
  let k5 = send_task_migrated t.id processor t.master_address k4
  let cpu = k5.scheduler.cpu_utilization
  let k6 = on_tcb i (vacate cpu) k5
  done (record k6 {
    scheduler = record k6.scheduler { cpu_utilization = (clear_scheduling cpu t.scheduling).0 };
  })

-- `master_ID` is `consumer_task`.
unfoldable pub migrate_code : ℕ → Kernel → Outcome Kernel
migrate_code i k = do
  t ← tcb_at i k
  done (
      send_packet
        (λ p. record p {
          header = t.proc_to_migrate;
          service = migration_code;
          consumer_task = t.master_address;
          producer_task = t.id;
          code_size = t.text_lenght;
        })
        (read_words t.offset t.text_lenght k.memory) k)
