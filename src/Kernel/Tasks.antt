-- ===== src/Kernel/Tasks.antt =====
-- The start and the end of a task, in software/kernel/modules/enforcer_mapping.c: its code arrives,
-- it is released by its manager, and its end is reported.
pub mod Release
use mmemphis.Base.{
  ℕ, ◌+◌, ◌*◌, ◌/◌, ◌%◌, ◌^◌, Option, List, [], ◌∷◌, ◌==◌, if◌then◌else◌, take, replicate,
  minus_one, add32, sub32, mul32, Outcome, done, ◌>>=◌, or_hang, pack8,
}
use mathlib.Core.Option
use mmemphis.Memory.{write_words, read_words}
use mmemphis.Tcb.{Tcb, ready, blocked, search_tcb, search_free_tcb}
use mmemphis.Scheduler.{max_time_slice}
use mmemphis.Locations.{TaskLocation, add_task_location}
use mmemphis.Packet.{ServiceHeader}
use mmemphis.Kernel.{Kernel, tcb_at, on_tcb, dmni_read_data}
use mmemphis.Kernel.Services.{task_terminated}
use mmemphis.Kernel.Setup.{report}

abbrev pub task_allocated : ℕ
task_allocated = 0x50

-- `master_address` holds the manager's task and its processor.
abbrev pub master_id : ℕ → ℕ
master_id master_address = master_address / 2 ^ 16

abbrev pub master_addr : ℕ → ℕ
master_addr master_address = master_address % 2 ^ 16

unfoldable pub send_task_allocated : Tcb → Kernel → Outcome Kernel
send_task_allocated t k =
    report (master_id t.master_address) (master_addr t.master_address) (task_allocated ∷ t.id ∷ [])
      k

unfoldable pub send_task_terminated : Tcb → Kernel → Outcome Kernel
send_task_terminated t k =
    report (master_id t.master_address) (master_addr t.master_address)
      (task_terminated ∷ t.id ∷ t.master_address ∷ []) k

-- The locations of tasks `i`, `i + 1`, … of an application are added.
unfoldable pub add_locations : ℕ → ℕ → List ℕ → List TaskLocation → Outcome (List TaskLocation)
add_locations app i [] table = done table
add_locations app i (location ∷ rest) table =
    add_task_location (pack8 app i) location table >>= λ table'.
    add_locations app (i + 1) rest table'

-- The code holds data, which is taken off its length.
abbrev pub released : ℕ → ℕ → Tcb → Tcb
released data_size bss_size t = record t {
  data_lenght = data_size;
  bss_lenght = bss_size;
  text_lenght = sub32 t.text_lenght data_size;
  scheduling = record t.scheduling {
    status = if t.scheduling.status == blocked then ready else t.scheduling.status;
  };
}

unfoldable pub release_task : ℕ → ℕ → ℕ → List ℕ → Kernel → Outcome Kernel
release_task task_id data_size bss_size app_tasks_location k = do
  i ← or_hang (search_tcb task_id k.scheduler.tcbs)
  t ← tcb_at i k
  table ← add_locations (task_id / 256) 0 app_tasks_location k.locations
  done (record (on_tcb i (released data_size bss_size) k) { locations = table })

-- `from_noc`: `task_ID`, `data_size` and `app_task_number` are `producer_task`, `pkt_size` and
-- `msg_lenght`. The array `app_tasks_location` is unbounded here; in the source it has MAX_TASKS_APP
-- entries, and a packet with more locations is written past its end.
unfoldable pub set_task_release : ServiceHeader → List ℕ → Kernel → Outcome Kernel
set_task_release p payload k =
    release_task p.producer_task p.pkt_size p.bss_size (take p.msg_lenght payload) k

-- The packet stands in memory, the locations after the thirteen words of its header.
unfoldable pub set_task_release_local : ℕ → Kernel → Outcome Kernel
set_task_release_local source_addr k =
    let word = λ (i : ℕ). k.memory (source_addr + 4 * i) in
    release_task (word 3) (word 9) (word 11) (read_words (source_addr + 4 * 13) (word 8) k.memory) k

-- `task_ID` and `master_ID` are `producer_task` and `consumer_task`.
abbrev pub allocated : ServiceHeader → Tcb → Tcb
allocated p t = record t {
  pc = 0;
  id = p.producer_task;
  text_lenght = p.code_size;
  bss_lenght = p.bss_size;
  master_address = p.consumer_task;
  remove_ctp = 0;
  add_ctp = 0;
  is_service_task = 0;
  proc_to_migrate = minus_one;
  scheduling = record t.scheduling {
    remaining_exec_time = max_time_slice;
    status = if p.producer_task / 256 == 0 then ready else blocked;
  };
}

-- A task of application 0 starts at once; for any other the manager is told. One word more than
-- the bss section is cleared.
unfoldable pub handle_task_allocation : ServiceHeader → List ℕ → Kernel → Outcome Kernel
handle_task_allocation p payload k = do
  i ← search_free_tcb k.scheduler.tcbs
  t ← tcb_at i k
  let k1 = dmni_read_data t.offset p.code_size payload (on_tcb i (allocated p) k)
  k2 ← if p.producer_task / 256 == 0 then done k1 else send_task_allocated (allocated p t) k1
  done (record k2 {
    memory =
        write_words (add32 t.offset (mul32 p.code_size 4)) (replicate (add32 p.bss_size 1) 0)
          k2.memory;
  })
