-- ===== src/Tcb.antt =====
-- The task control blocks of software/kernel/modules/TCB.h and TCB.c, and the table of tasks whose
-- migration is pending. `init_TCBs` ties `tcbs[i]` and `scheduling[i]` of task_scheduler.c to one
-- another for good, so a block holds its scheduling entry. The arrays have MAX_LOCAL_TASKS entries.
pub mod Search
pub mod Pending
use mmemphis.Base.{
  ℕ, ◌+◌, Bool, not, ◌&&◌, Option, none, some, List, [], ◌∷◌, map, ◌==◌, get_elem?, modify, first?,
  index?, replace?, minus_one, mul32, sar8, Outcome, or_hang,
}

-- `Scheduling` of task_scheduler.h; `status` is one of the six values below.
pub record Scheduling : Type 0 where
  pub status : ℕ
  pub execution_time : ℕ
  pub period : ℕ
  pub deadline : ℕ
  pub ready_time : ℕ
  pub remaining_exec_time : ℕ
  pub slack_time : ℕ
  pub running_start_time : ℕ
  pub utilization : ℕ
  pub waiting_msg : ℕ
  pub deadline_miss : ℕ

abbrev pub free : ℕ
free = minus_one

abbrev pub ready : ℕ
ready = 0

abbrev pub running : ℕ
running = 2

abbrev pub migrating : ℕ
migrating = 3

abbrev pub blocked : ℕ
blocked = 4

abbrev pub sleeping : ℕ
sleeping = 5

abbrev pub no_deadline : ℕ
no_deadline = minus_one

pub record Tcb : Type 0 where
  pub reg : List ℕ
  pub pc : ℕ
  pub offset : ℕ
  pub id : ℕ
  pub recv_buffer : ℕ
  pub text_lenght : ℕ
  pub data_lenght : ℕ
  pub bss_lenght : ℕ
  pub proc_to_migrate : ℕ
  pub master_address : ℕ
  pub remove_ctp : ℕ
  pub add_ctp : ℕ
  pub is_service_task : ℕ
  pub communication_time : ℕ
  pub computation_time : ℕ
  pub total_comp : ℕ
  pub total_comm : ℕ
  pub scheduling : Scheduling

pub record PendingMigrationTask : Type 0 where
  pub id : ℕ
  pub master_address : ℕ

-- The block that `init_TCBs` leaves at index `i`; a fresh deadline of -1 keeps `clear_scheduling`
-- from touching the CPU utilization.
unfoldable pub init_tcb : ℕ → ℕ → Tcb → Tcb
init_tcb page_size i t = record t {
  id = minus_one;
  pc = 0;
  offset = mul32 page_size (i + 1);
  proc_to_migrate = minus_one;
  remove_ctp = 0;
  add_ctp = 0;
  is_service_task = 0;
  recv_buffer = 0;
  communication_time = 0;
  computation_time = 0;
  total_comm = 0;
  total_comp = 0;
  scheduling = record t.scheduling {
    ready_time = 0;
    status = free;
    remaining_exec_time = 0;
    execution_time = 0;
    period = 0;
    deadline = no_deadline;
    slack_time = 0;
    running_start_time = 0;
    utilization = 0;
    waiting_msg = 0;
  };
}

unfoldable pub init_tcbs_from : ℕ → ℕ → List Tcb → List Tcb
init_tcbs_from page_size i [] = []
init_tcbs_from page_size i (t ∷ tcbs) =
    init_tcb page_size i t ∷ init_tcbs_from page_size (i + 1) tcbs

unfoldable pub init_tcbs :
    ℕ → List Tcb → List PendingMigrationTask → List Tcb × List PendingMigrationTask
init_tcbs page_size tcbs pending = (
  init_tcbs_from page_size 0 tcbs,
  map (λ _. record { id = minus_one; master_address = minus_one }) pending,
)

abbrev pub is_free : Tcb → Bool
is_free t = t.scheduling.status == free

abbrev pub has_id : ℕ → Tcb → Bool
has_id task t = t.id == task

-- Pointers into the array are indices.
unfoldable pub search_free_tcb : List Tcb → Outcome ℕ
search_free_tcb tcbs = or_hang (index? is_free tcbs)

unfoldable pub search_tcb : ℕ → List Tcb → Option ℕ
search_tcb task_id tcbs = index? (has_id task_id) tcbs

-- The test is on any task in use, `tcbs[i].id >> 8` of an `int`.
unfoldable pub is_another_task_running : ℕ → List Tcb → ℕ
is_another_task_running app_id tcbs =
    elim (first? (λ t. not (is_free t) && sar8 t.id == app_id) tcbs) [ none ↦ 0 | some _ ↦ 1 ]

unfoldable pub get_receiving_service_task : ℕ → List Tcb → Outcome ℕ
get_receiving_service_task task_id tcbs =
    or_hang (
      index? (λ t. not (is_free t) && not (t.scheduling.waiting_msg == 0) && has_id task_id t) tcbs)

abbrev pub pends : ℕ → PendingMigrationTask → Bool
pends task p = p.id == task

unfoldable pub add_pending_migration_task :
    ℕ → ℕ → List PendingMigrationTask → Outcome (List PendingMigrationTask)
add_pending_migration_task task_id master_address pending = or_hang (
    replace? (pends minus_one) (λ _. record { id = task_id; master_address = master_address })
      pending)

-- The master's address, or -1; only the id of the entry is reset.
unfoldable pub remove_pending_migration_task :
    ℕ → List PendingMigrationTask → ℕ × List PendingMigrationTask
remove_pending_migration_task task_id pending = elim (index? (pends task_id) pending) [
  | none ↦ (minus_one, pending)
  | some i ↦ (
    elim (get_elem? pending i) [ none ↦ minus_one | some p ↦ p.master_address ],
    modify pending i (λ p. record p { id = minus_one }),
  )
]
