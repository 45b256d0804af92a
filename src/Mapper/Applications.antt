-- ===== src/Mapper/Applications.antt =====
-- applications/MAN_app/mapping_includes/local_mapper/application.h: the applications of a cluster
-- and the status of their tasks. The array of applications has MAX_CLUSTER_TASKS entries, an
-- application's array of tasks MAX_TASKS_APP, of which `tasks_number` are in use. Pointers into the
-- arrays are indices.
pub mod Status
use mmemphis.Base.{
  take, loop_bound, ℕ, zero, suc, ◌+◌, true, ◌&&◌, Option, none, some, List, [], ◌∷◌, map, ◌==◌,
  if◌then◌else◌, get_elem?, modify, index?, minus_one, add32, slt, sar8, Outcome, done, hangs,
  ◌>>=◌, or_hang,
}

-- The dependences, which nothing here reads or writes, are left out.
pub record Task : Type 0 where
  pub id : ℕ
  pub code_size : ℕ
  pub data_size : ℕ
  pub bss_size : ℕ
  pub allocated_proc : ℕ
  pub computation_load : ℕ
  pub borrowed_master : ℕ
  pub status : ℕ
  pub dependences_number : ℕ

pub record Application : Type 0 where
  pub app_id : ℕ
  pub status : ℕ
  pub tasks_number : ℕ
  pub terminated_tasks : ℕ
  pub tasks : List Task

abbrev pub running : ℕ
running = 1

abbrev pub free : ℕ
free = 2

abbrev pub waiting_reclustering : ℕ
waiting_reclustering = 3

abbrev pub allocated : ℕ
allocated = 1

abbrev pub task_running : ℕ
task_running = 2

abbrev pub terminated_task : ℕ
terminated_task = 3

abbrev pub migrating : ℕ
migrating = 4

unfoldable pub get_application_ptr : ℕ → List Application → Outcome ℕ
get_application_ptr app_id applications = or_hang (index? (λ a. a.app_id == app_id) applications)

unfoldable pub get_task_ptr : Application → ℕ → Outcome ℕ
get_task_ptr app task_id =
    or_hang (index? (λ t. t.id == task_id) (take (loop_bound app.tasks_number) app.tasks))

-- The loop of `get_next_pending_app`: the index and the identifier of the oldest so far.
unfoldable pub older_app : ℕ → Option (ℕ × ℕ) → List Application → Option (ℕ × ℕ)
older_app i best [] = best
older_app i best (a ∷ applications) =
    let newer = older_app (i + 1) (some (i, a.app_id)) applications in
    let keep = older_app (i + 1) best applications in
    if a.status == waiting_reclustering && elim best [ none ↦ true | some b ↦ slt a.app_id b.1 ]
    then newer
    else keep

unfoldable pub get_next_pending_app : List Application → Outcome ℕ
get_next_pending_app applications = elim (older_app 0 none applications) [
  | none ↦ hangs
  | some b ↦ done b.0
]

-- The loop of `set_task_allocated` over the first `n` tasks.
unfoldable pub allocate_from : ℕ → ℕ → List Task → List Task × ℕ
allocate_from n task_id [] = ([], 0)
allocate_from zero task_id (t ∷ tasks) = (t ∷ tasks, 0)
allocate_from (suc n) task_id (t ∷ tasks) =
    let (tasks', task_allocated) = allocate_from n task_id tasks in
    if t.id == task_id
    then (record t { status = allocated } ∷ tasks', task_allocated + 1)
    else (t ∷ tasks', if t.status == allocated then task_allocated + 1 else task_allocated)

unfoldable pub set_task_allocated : Application → ℕ → Application × ℕ
set_task_allocated app task_id =
    let (tasks', task_allocated) = allocate_from (loop_bound app.tasks_number) task_id app.tasks in
    (record app { tasks = tasks' }, task_allocated)

unfoldable pub set_task_terminated : Application → ℕ → Outcome Application
set_task_terminated app task_id = do
  i ← get_task_ptr app task_id
  done (record app {
    terminated_tasks = add32 app.terminated_tasks 1;
    tasks = modify app.tasks i (λ t. record t { status = terminated_task });
  })

-- What the two functions below do with the task that they look up.
unfoldable pub on_task : ℕ → (Task → Task) → List Application → Outcome (List Application)
on_task task_id f applications = do
  a ← get_application_ptr (sar8 task_id) applications
  app ← or_hang (get_elem? applications a)
  i ← get_task_ptr app task_id
  done (modify applications a (λ app. record app { tasks = modify app.tasks i f }))

unfoldable pub set_task_migrating : ℕ → List Application → Outcome (List Application)
set_task_migrating task_id = on_task task_id (λ t. record t { status = migrating })

unfoldable pub set_task_migrated : ℕ → ℕ → List Application → Outcome (List Application)
set_task_migrated task_id new_proc =
    on_task task_id (λ t. record t { status = task_running; allocated_proc = new_proc })

abbrev pub remove_application : Application → Application
remove_application app = record app {
  app_id = minus_one;
  status = free;
  tasks_number = 0;
  terminated_tasks = 0;
}

unfoldable pub initialize_applications : List Application → List Application
initialize_applications applications = map remove_application applications

-- The processors of the first tasks of the running applications; every application has a task.
unfoldable pub get_initial_pe_list : List Application → List ℕ
get_initial_pe_list [] = []
get_initial_pe_list (a ∷ applications) =
    let rest = get_initial_pe_list applications in
    if a.status == running
    then elim (get_elem? a.tasks 0) [ none ↦ rest | some t ↦ t.allocated_proc ∷ rest ]
    else rest
