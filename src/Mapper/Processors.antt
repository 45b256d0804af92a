-- ===== src/Mapper/Processors.antt =====
-- applications/MAN_app/mapping_includes/local_mapper/processors.h and the counters of
-- resoucer_controller.h: the processors of a cluster, the tasks on each, and the free pages. A
-- processor's `task` array is a list of MAX_LOCAL_TASKS entries, the array of processors one of
-- MAX_PROCESSORS.
pub mod Tasks
pub mod Pages
pub mod Located
use mmemphis.Base.{
  ℕ, ◌+◌, ◌/◌, Bool, ◌||◌, Option, none, some, List, [], ◌∷◌, map, ◌==◌, if◌then◌else◌, length, set,
  first?, replace?, minus_one, add32, sub32, Outcome, done, hangs, ◌>>=◌, or_hang,
}

pub record Processor : Type 0 where
  pub address : ℕ
  pub free_pages : ℕ
  pub slack_time : ℕ
  pub total_slack_samples : ℕ
  pub task : List ℕ

abbrev pub at : ℕ → Processor → Bool
at proc_address p = p.address == proc_address

-- `search_processor` spins where no processor has the address.
unfoldable pub search_processor : ℕ → List Processor → Outcome Processor
search_processor proc_address processors = or_hang (first? (at proc_address) processors)

-- What a caller does through the pointer that `search_processor` returns.
unfoldable pub on_processor :
    ℕ → (Processor → Outcome Processor) → List Processor → Outcome (List Processor)
on_processor proc_address act [] = hangs
on_processor proc_address act (p ∷ processors) =
    if p.address == proc_address
    then (act p >>= λ p'. done (p' ∷ processors))
    else (on_processor proc_address act processors >>= λ rest. done (p ∷ rest))

unfoldable pub update_proc_slack_time : ℕ → ℕ → List Processor → Outcome (List Processor)
update_proc_slack_time proc_address slack_time = on_processor proc_address (λ p. done (record p {
  slack_time = add32 p.slack_time slack_time;
  total_slack_samples = add32 p.total_slack_samples 1;
}))

-- The quotient of an `int` by an `unsigned int` is unsigned.
unfoldable pub get_proc_slack_time : ℕ → List Processor → Outcome ℕ
get_proc_slack_time proc_address processors = do
  p ← search_processor proc_address processors
  done (if p.total_slack_samples == 0 then 100 else p.slack_time / p.total_slack_samples)

unfoldable pub add_procesor : ℕ → List Processor → Outcome (List Processor)
add_procesor proc_address = on_processor minus_one (λ p. done (record {
  address = proc_address;
  free_pages = length p.task;
  slack_time = 0;
  total_slack_samples = 0;
  task = map (λ _. minus_one) p.task;
}))

-- The loop of `add_task`: the last free index in `add_i`, unless the task is met.
unfoldable pub scan_slots : ℕ → ℕ → Option ℕ → List ℕ → Outcome (Option ℕ)
scan_slots task_id i add_i [] = done add_i
scan_slots task_id i add_i (t ∷ task) =
    let rest = scan_slots task_id (i + 1) (if t == minus_one then some i else add_i) task in
    if t == task_id then hangs else rest

unfoldable pub place : ℕ → Processor → Outcome Processor
place task_id p = if p.free_pages == 0 then hangs else (do
  add_i ← scan_slots task_id 0 none p.task
  i ← or_hang add_i
  done (record p { task = set p.task i task_id; free_pages = sub32 p.free_pages 1 }))

unfoldable pub add_task : ℕ → ℕ → List Processor → Outcome (List Processor)
add_task proc_address task_id = on_processor proc_address (place task_id)

unfoldable pub displace : ℕ → Processor → Outcome Processor
displace task_id p = if p.free_pages == length p.task then hangs else (do
  task' ← or_hang (replace? (λ t. t == task_id) (λ _. minus_one) p.task)
  done (record p { task = task'; free_pages = add32 p.free_pages 1 }))

unfoldable pub remove_task : ℕ → ℕ → List Processor → Outcome (List Processor)
remove_task proc_address task_id = on_processor proc_address (displace task_id)

unfoldable pub get_proc_free_pages : ℕ → List Processor → Outcome ℕ
get_proc_free_pages proc_address processors = do
  p ← search_processor proc_address processors
  done p.free_pages

-- -1 where no processor has the task; one with all pages free, or with no address, is passed over.
unfoldable pub get_task_location : ℕ → List Processor → ℕ
get_task_location task_id [] = minus_one
get_task_location task_id (p ∷ processors) =
    if p.free_pages == length p.task || p.address == minus_one
    then get_task_location task_id processors
    else elim (first? (λ t. t == task_id) p.task) [
      | none ↦ get_task_location task_id processors
      | some _ ↦ p.address
    ]

-- `processors`, and `free_resources` of globals.h.
pub record Resources : Type 0 where
  pub processors : List Processor
  pub free_resources : ℕ

unfoldable pub page_used : ℕ → ℕ → Resources → Outcome Resources
page_used proc_address task_id r = do
  ps ← add_task proc_address task_id r.processors
  done (record { processors = ps; free_resources = sub32 r.free_resources 1 })

unfoldable pub page_released : ℕ → ℕ → Resources → Outcome Resources
page_released proc_address task_id r = do
  ps ← remove_task proc_address task_id r.processors
  done (record { processors = ps; free_resources = add32 r.free_resources 1 })
