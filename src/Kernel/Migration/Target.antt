-- ===== src/Kernel/Migration/Target.antt =====
-- The handling of a migrating task's packets, at the processor that the task comes to, and of the
-- order to migrate, at the one that it leaves.
use mmemphis.Base.{
  ℕ, zero, suc, ◌+◌, ◌/◌, true, not, ◌&&◌, Option, List, [], ◌∷◌, ◌==◌, if◌then◌else◌, get_or,
  modify, take, minus_one, add32, mul32, Outcome, done, hangs, ◌>>=◌, or_hang, pack8,
}
use mmemphis.Tcb.{Tcb, ready, migrating, search_tcb, search_free_tcb}
use mmemphis.Scheduler.{real_time_task, max_time_slice}
use mmemphis.Requests.{MessageRequest, insert_message_request}
use mmemphis.Locations.{TaskLocation, get_task_location, add_task_location}
use mmemphis.Packet.{ServiceHeader}
use mmemphis.Kernel.{Kernel, tcb_at, on_tcb, hal_get_tick, after_read, dmni_read_data}
use mmemphis.Kernel.Migration.{
  task_migration, migration_code, migration_tcb, migration_task_location, migration_msg_request,
  migration_stack, migration_data_bss, app_byte, migrate_code, migrate_dynamic_memory,
}

unfoldable pub handle_migration_code : ServiceHeader → List ℕ → ℕ → Kernel → Outcome Kernel
handle_migration_code p payload i k = do
  t ← tcb_at i k
  let k' =
      on_tcb i
        (λ t. record t {
          scheduling = record t.scheduling { status = migrating };
          id = p.producer_task;
          master_address = p.consumer_task;
          text_lenght = p.code_size;
        })
        k
  done (dmni_read_data t.offset p.code_size payload k')

-- `period` is `consumer_task`; `deadline` and `execution_time` are both read from `code_size`.
unfoldable pub set_real_time : ServiceHeader → ℕ → Kernel → Outcome Kernel
set_real_time p i k = do
  t ← tcb_at i k
  r ← or_hang (
      real_time_task (hal_get_tick k) p.consumer_task p.code_size p.code_size
        k.scheduler.cpu_utilization t.scheduling)
  let k' = on_tcb i (λ t. record t { scheduling = r.1 }) (after_read k)
  done (record k' { scheduler = record k'.scheduler { cpu_utilization = r.0 } })

-- The registers arrive, and a real-time task's parameters.
unfoldable pub handle_migration_tcb : ServiceHeader → List ℕ → ℕ → Kernel → Outcome Kernel
handle_migration_tcb p payload i k = do
  t ← tcb_at i k
  let regs = modify (take 30 payload) 27 (λ r. add32 r t.offset)
  let set_registers = λ (u : Tcb). record u { pc = add32 p.initial_address t.offset; reg = regs }
  if p.consumer_task == 0
      then done (on_tcb i set_registers k)
      else set_real_time p i (on_tcb i set_registers k)

-- Unknown locations of tasks `i`, `i + 1`, … are learnt.
unfoldable pub learn_locations : ℕ → ℕ → List ℕ → List TaskLocation → Outcome (List TaskLocation)
learn_locations app i [] table = done table
learn_locations app i (location ∷ rest) table = do
  let task_id = pack8 app i
  table' ←
      if not (location == minus_one) && get_task_location task_id table == minus_one
      then add_task_location task_id location table
      else done table
  learn_locations app (i + 1) rest table'

unfoldable pub handle_migration_task_location : List ℕ → ℕ → Kernel → Outcome Kernel
handle_migration_task_location payload i k = do
  t ← tcb_at i k
  table ← learn_locations (app_byte t.id) 0 (take k.max_tasks_app payload) k.locations
  done (record k { locations = table })

-- The words of the requests, three for each; a request that finds no free entry is dropped.
unfoldable pub insert_requests : ℕ → ℕ → List ℕ → List MessageRequest → List MessageRequest
insert_requests zero id words table = table
insert_requests (suc n) id (requester ∷ requested ∷ requester_proc ∷ words) table =
    insert_requests n id words (
      if requested == id
      then (insert_message_request requested requester requester_proc table).1
      else table)
insert_requests (suc n) id words table = table

-- `request_size` is `bss_size`.
unfoldable pub handle_migration_request_msg : ServiceHeader → List ℕ → ℕ → Kernel → Outcome Kernel
handle_migration_request_msg p payload i k = do
  t ← tcb_at i k
  done (record k { requests = insert_requests (p.bss_size / 3) t.id payload k.requests })

-- `stack_size` is `msg_lenght`.
unfoldable pub handle_migration_stack : ServiceHeader → List ℕ → ℕ → Kernel → Outcome Kernel
handle_migration_stack p payload i k = do
  t ← tcb_at i k
  done (
      if p.msg_lenght == 0
      then k
      else dmni_read_data (add32 t.offset (get_or t.reg 25 0)) p.msg_lenght payload k)

unfoldable pub handle_migration_data_bss : ServiceHeader → List ℕ → ℕ → Kernel → Outcome Kernel
handle_migration_data_bss p payload i k = do
  t ← tcb_at i k
  let size = add32 p.bss_size p.pkt_size
  let k' =
      if size == 0
      then k
      else dmni_read_data (add32 t.offset (mul32 t.text_lenght 4)) size payload k
  done (
      on_tcb i
        (λ t. record t {
          data_lenght = p.pkt_size;
          bss_lenght = p.bss_size;
          proc_to_migrate = minus_one;
          scheduling = record t.scheduling { status = ready; remaining_exec_time = max_time_slice };
        })
        k')

-- The order: the code goes at once, the rest when the task does not wait for a message.
unfoldable pub handle_task_migration : ServiceHeader → Option ℕ → Kernel → Outcome (ℕ × Kernel)
handle_task_migration p tcb_ptr k = do
  i ← or_hang tcb_ptr
  t ← tcb_at i k
  free ← if t.proc_to_migrate == minus_one then done true else hangs
  k' ← migrate_code i (on_tcb i (λ t. record t { proc_to_migrate = p.msg_lenght }) k)
  let leaves = migrate_dynamic_memory i k' >>= λ k''. done (1, k'')
  if t.scheduling.waiting_msg == 0 then leaves else done (0, k')

-- What a handler without a result returns for `need_scheduling`.
abbrev pub returning : ℕ → Outcome Kernel → Outcome (ℕ × Kernel)
returning need_scheduling o = o >>= λ k. done (need_scheduling, k)

-- A service that is none of these only prints an error.
unfoldable pub handle_migration : ServiceHeader → List ℕ → Kernel → Outcome (ℕ × Kernel)
handle_migration p payload k =
    let task = search_tcb p.producer_task k.scheduler.tcbs in
    let at_task = λ (h : ℕ → Kernel → Outcome Kernel). or_hang task >>= λ i. h i k in
    let code = search_free_tcb k.scheduler.tcbs >>= λ i. handle_migration_code p payload i k in
    if p.service == migration_code
    then returning 0 code
    else (if p.service == task_migration
        then handle_task_migration p task k
        else (if p.service == migration_tcb
            then returning 0 (at_task (handle_migration_tcb p payload))
            else (if p.service == migration_task_location
                then returning 0 (at_task (handle_migration_task_location payload))
                else (if p.service == migration_msg_request
                    then returning 0 (at_task (handle_migration_request_msg p payload))
                    else (if p.service == migration_stack
                        then returning 0 (at_task (handle_migration_stack p payload))
                        else (if p.service == migration_data_bss
                            then returning 1 (at_task (handle_migration_data_bss p payload))
                            else done (0, k)))))))
