-- ===== src/Tests/Apps.antt =====
-- The applications of a cluster.
use mmemphis.Base.{
  ℕ, ◌+◌, ◌*◌, ◌≡◌, refl, ◌⊎◌, true, some, List, [], ◌∷◌, get_elem?, index?, NoneOf, minus_one,
  done, hangs,
}
use mmemphis.Mapper.Applications.{
  Application, Task, waiting_reclustering, running, migrating, get_application_ptr, get_task_ptr,
  older_app, get_next_pending_app, allocate_from, set_task_allocated, set_task_migrating, on_task,
  get_initial_pe_list,
}
use mmemphis.Mapper.Applications.Status.{is_waiting, Oldest, rank, get_next_pending_app-Oldest}

abbrev job : ℕ → ℕ → Task
job id status = record {
  id = id;
  code_size = 0;
  data_size = 0;
  bss_size = 0;
  allocated_proc = 5;
  computation_load = 0;
  borrowed_master = minus_one;
  status = status;
  dependences_number = 0;
}

abbrev app : ℕ → ℕ → Application
app id status = record {
  app_id = id;
  status = status;
  tasks_number = 2;
  terminated_tasks = 0;
  tasks = job (id * 256) 1 ∷ job (id * 256 + 1) 0 ∷ [];
}

abbrev cluster_apps : List Application
cluster_apps = app 3 waiting_reclustering ∷ app 2 waiting_reclustering ∷ app 1 running ∷ []

get_next_pending_app-Oldest_example :
    ((get_next_pending_app cluster_apps ≡ hangs) × NoneOf is_waiting cluster_apps)
    ⊎ ((k : ℕ) × (a : Application) × (get_next_pending_app cluster_apps ≡ done k)
        × (get_elem? cluster_apps k ≡ some a)
        × (is_waiting a ≡ true)
        × Oldest (rank a.app_id) cluster_apps)
get_next_pending_app-Oldest_example = get_next_pending_app-Oldest cluster_apps

applications_test :
    (get_next_pending_app cluster_apps ≡ done 1)
    × ((set_task_allocated (app 1 running) 257).1 ≡ 2)
    × (get_initial_pe_list cluster_apps ≡ 5 ∷ [])
    × (set_task_migrating 257 (app 1 running ∷ [])
        ≡ done (record (app 1 running) { tasks = job 256 1 ∷ job 257 migrating ∷ [] } ∷ []))
unfolding get_next_pending_app older_app set_task_allocated allocate_from get_initial_pe_list
    set_task_migrating on_task get_application_ptr get_task_ptr index?
applications_test = (refl, refl, refl, refl)
