-- ===== src/Tests/Tables.antt =====
-- The tables of requests, locations, circuits and pending migrations, and the mapping.
use mmemphis.Base.{ℕ, ◌≡◌, refl, ◌≢◌, List, [], ◌∷◌, arith, replace?, count, minus_one}
use mmemphis.Tcb.{PendingMigrationTask}
use mmemphis.Requests.{init_communication, MessageRequest}
use mmemphis.Locations.{
  init_task_location, TaskLocation, add_task_location, get_task_location, clear_app_tasks_locations,
}
use mmemphis.Locations.Laws.{IsMap, add_task_location-get, clear_app_tasks_locations-get}
use mmemphis.Ctp.{init_ctp, Ctp, dmni_send_op}

abbrev request : ℕ → ℕ → ℕ → MessageRequest
request c p proc = record { requester = c; requested = p; requester_proc = proc }

abbrev requests_table : List MessageRequest
requests_table = request 257 258 1 ∷ request minus_one minus_one 7 ∷ request 259 258 2 ∷ []

abbrev location : ℕ → ℕ → TaskLocation
location t proc = record { id = t; proc_address = proc }

abbrev locations : List TaskLocation
locations = location 257 1 ∷ location minus_one 0 ∷ location 513 2 ∷ []

abbrev moved : List TaskLocation
moved = location 257 1 ∷ location 513 9 ∷ location minus_one minus_one ∷ []

add_task_location-get_example :
    (get_task_location 513 moved ≡ 9)
    × ((u : ℕ)
        → u ≢ 513
        → u ≢ minus_one
        → get_task_location u moved ≡ get_task_location u locations)
unfolding add_task_location replace?
add_task_location-get_example = add_task_location-get 513 9 locations (omega arith) refl

clear_app_tasks_locations-get_example :
    get_task_location 257 (clear_app_tasks_locations 1 locations) ≡ minus_one
clear_app_tasks_locations-get_example = clear_app_tasks_locations-get 1 257 locations (omega arith)

abbrev circuit : ℕ → ℕ → ℕ → ℕ → Ctp
circuit p c s e = record {
  producer_task = p;
  consumer_task = c;
  dmni_op = dmni_send_op;
  subnet = s;
  cs_enabled = e;
}

abbrev circuits : List Ctp
circuits = circuit 257 258 1 1 ∷ circuit 3 4 minus_one 0 ∷ []

abbrev migration : ℕ → ℕ → PendingMigrationTask
migration t m = record { id = t; master_address = m }

-- The boot code empties the tables.
boot_test :
    (init_communication (request 257 258 1 ∷ []) ≡ request minus_one minus_one minus_one ∷ [])
    × (init_task_location (location 257 1 ∷ []) ≡ location minus_one minus_one ∷ [])
    × (init_ctp (circuit 257 258 1 1 ∷ [])
        ≡ record (circuit 257 258 minus_one 0) { dmni_op = minus_one } ∷ [])
unfolding init_communication init_task_location init_ctp
boot_test = (refl, refl, refl)

pair_of_locations-IsMap : IsMap locations
unfolding count
pair_of_locations-IsMap t m = ground arith
