-- ===== src/Locations.antt =====
-- The table of task locations of software/kernel/modules/enforcer_mapping.c: which processor each
-- task of the local applications runs on. The array is a list of MAX_TASK_LOCATION entries.
pub mod Laws
use mmemphis.Base.{
  ◌>>=◌, ℕ, Bool, not, ◌&&◌, none, some, List, map, ◌==◌, if◌then◌else◌, first?, replace?,
  minus_one, sar8, Outcome, done, or_hang,
}

pub record TaskLocation : Type 0 where
  pub id : ℕ
  pub proc_address : ℕ

abbrev pub holds : ℕ → TaskLocation → Bool
holds task e = e.id == task

abbrev pub empty : TaskLocation
empty = record { id = minus_one; proc_address = minus_one }

unfoldable pub init_task_location : List TaskLocation → List TaskLocation
init_task_location table = map (λ _. empty) table

-- -1 for a task that is not in the table.
unfoldable pub get_task_location : ℕ → List TaskLocation → ℕ
get_task_location task table = elim (first? (holds task) table) [
  | none ↦ minus_one
  | some e ↦ e.proc_address
]

-- The first loop of `add_task_location` drops every older location of the task.
abbrev pub forget : ℕ → TaskLocation → TaskLocation
forget task e = if e.id == task then empty else e

unfoldable pub add_task_location : ℕ → ℕ → List TaskLocation → Outcome (List TaskLocation)
add_task_location task proc table = or_hang (
    replace? (holds minus_one) (λ _. record { id = task; proc_address = proc })
      (map (forget task) table))

-- The location of the removed task, and the table without it.
unfoldable pub remove_task_location : ℕ → List TaskLocation → Outcome (ℕ × List TaskLocation)
remove_task_location task table = do
  e ← or_hang (first? (holds task) table)
  table' ← or_hang (replace? (holds task) (λ _. empty) table)
  done (e.proc_address, table')

abbrev pub of_app : ℕ → ℕ → Bool
of_app app task = not (task == minus_one) && sar8 task == app

unfoldable pub clear_app_tasks_locations : ℕ → List TaskLocation → List TaskLocation
clear_app_tasks_locations app table = map (λ e. if of_app app e.id then empty else e) table
