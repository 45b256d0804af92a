-- ===== src/Tests/Mapping.antt =====
-- A local mapper that releases the two tasks of an application, and the printing of a number.
use mmemphis.Base.{
  some, ℕ, ◌+◌, ◌*◌, ◌/◌, ◌≡◌, refl, List, [], ◌∷◌, arith, length, replicate, index?, replace?,
  minus_one, Outcome, done, hangs,
}
use mmemphis.Tcb.{Tcb, blocked, search_tcb}
use mmemphis.Locations.{empty, get_task_location, add_task_location}
use mmemphis.Kernel.{Kernel}
use mmemphis.Kernel.Tasks.{set_task_release, release_task, add_locations}
use mmemphis.Mapper.Applications.{Application, Task}
use mmemphis.Mapper.Local.{
  LocalMapper, raw, get_message_slot, send_by_slot, send_task_release, put, release_from,
  release_words,
}
use mmemphis.Mapper.Local.Release.{
  Released, header_of, take_release, send_task_release-set_task_release,
}
use mmemphis.Utils.{itoa, itoh}
use mmemphis.Utils.Parse.{read, read-printed}
use mmemphis.Tests.Processor.{task, processor}

abbrev mapped : ℕ → ℕ → Task
mapped id proc = record {
  id = id;
  code_size = 50;
  data_size = 10;
  bss_size = 3;
  allocated_proc = proc;
  computation_load = 0;
  borrowed_master = minus_one;
  status = 1;
  dependences_number = 0;
}

abbrev application : Application
application = record {
  app_id = 1;
  status = 4;
  tasks_number = 2;
  terminated_tasks = 0;
  tasks = mapped 256 5 ∷ mapped 257 2 ∷ mapped 0 0 ∷ [];
}

abbrev mapper : LocalMapper
mapper = record {
  net_address = 1;
  my_task_id = 1;
  cluster_position = 0;
  s_task_id_offset = 1;
  s_num_x_cluster = 1;
  pending_app_to_map = 0;
  resources = record { processors = []; free_resources = 0 };
  applications = application ∷ [];
  slots = record { status1 = 1; status2 = 1 };
  slot1 = replicate 20 9;
  slot2 = replicate 20 9;
  sent = [];
}

abbrev loaded : Tcb
loaded = record (task 257 0) {
  text_lenght = 50;
  scheduling = record (task 257 0).scheduling { status = blocked };
}

abbrev kernel : Kernel
kernel = record (processor 2 (loaded ∷ []) [] []) { locations = empty ∷ empty ∷ [] }

abbrev message : List ℕ
message = 2 ∷ 13 ∷ 0x250 ∷ 257 ∷ 9 ∷ 9 ∷ 9 ∷ 9 ∷ 2 ∷ 10 ∷ 9 ∷ 3 ∷ 9 ∷ 5 ∷ 2 ∷ []

abbrev state : Kernel → Outcome Kernel → Kernel
state k (done k') = k'
state k hangs = k

send_task_release-set_task_release_example :
    (get_task_location (257 / 256 * 256 + 0) (state kernel (take_release message kernel)).locations
      ≡ 5)
    × Released (mapped 257 2) (state kernel (take_release message kernel))
unfolding send_task_release send_by_slot get_message_slot put release_from release_words
    take_release header_of set_task_release release_task add_locations search_tcb index?
    add_task_location replace?
send_task_release-set_task_release_example =
    send_task_release-set_task_release application mapper 1 0 (mapped 257 2) (mapped 256 5)
      (raw message) kernel (state kernel (take_release message kernel)) refl (omega arith)
      (omega arith) (omega arith) refl refl (omega arith) refl refl

read-printed_example :
    (read 10 (itoa 4660) ≡ some 4660)
    × (hex : List ℕ) × (itoh 4660 ≡ 48 ∷ 120 ∷ hex)
    × (length hex ≡ 8)
    × (read 16 hex ≡ some 4660)
read-printed_example = read-printed 4660 (omega arith)
