-- ===== src/Mapper/Local.antt =====
-- applications/MAN_app/local_mapper.c: the local mapper of a cluster, from the mapping of an
-- application to its end; and the message slots of common_include.h. The mapping itself and
-- reclustering are left out, and so are the waits for the DMNI.
pub mod Message
pub mod Release
use mmemphis.Base.{
  ℕ, zero, suc, ◌+◌, ◌*◌, ◌/◌, ◌%◌, ◌^◌, true, Option, none, some, List, [], ◌∷◌, ◌++◌, map, ◌==◌,
  if◌then◌else◌, length, get_elem?, set, take, first?, minus_one, add32, sub32, mul32, loop_bound,
  Outcome, done, hangs, ◌>>=◌, or_hang,
}
use mathlib.Core.Option
use mmemphis.Mapper.Applications.{
  Application, Task, running, task_running, get_application_ptr, get_task_ptr, set_task_allocated,
  set_task_terminated, remove_application,
}
use mmemphis.Mapper.Processors.{Resources, page_released}
use Prim.Native.Nat.{bit_or}
use mmemphis.Packet.Slots.{Slots, Slot, sh_slot1, sh_slot2}

-- SendService to a task, SendRaw to the network, and SetTaskRelease to the mapper's own kernel.
pub data Sending : Type 0 where
  service : ℕ → List ℕ → Sending
  raw : List ℕ → Sending
  release : List ℕ → Sending

pub record LocalMapper : Type 0 where
  pub net_address : ℕ
  pub my_task_id : ℕ
  pub cluster_position : ℕ
  pub s_task_id_offset : ℕ
  pub s_num_x_cluster : ℕ
  pub pending_app_to_map : ℕ
  pub resources : Resources
  pub applications : List Application
  pub slots : Slots
  pub slot1 : List ℕ
  pub slot2 : List ℕ
  pub sent : List Sending

abbrev pub app_injector : ℕ
app_injector = 0xc0000101

-- The slot that is free, with what an older message left in it.
unfoldable pub get_message_slot : LocalMapper → Slot × List ℕ × Slots
get_message_slot m =
    if m.slots.status1 == 0
    then (sh_slot2, m.slot2, record { status1 = 1; status2 = 0 })
    else (sh_slot1, m.slot1, record { status1 = 0; status2 = 1 })

-- The messages that are built in a slot, one after the other, and the words that stay in it.
unfoldable pub send_by_slot : (List ℕ → List Sending × List ℕ) → LocalMapper → LocalMapper
send_by_slot build m =
    let (slot, old, slots') = get_message_slot m in
    let (out, words) = build old in
    record m {
      slots = slots';
      slot1 = elim slot [ sh_slot1 ↦ words | sh_slot2 ↦ m.slot1 ];
      slot2 = elim slot [ sh_slot1 ↦ m.slot2 | sh_slot2 ↦ words ];
      sent = m.sent ++ out;
    }

-- Words are written into a message from an index on.
unfoldable pub put : ℕ → List ℕ → List ℕ → List ℕ
put i [] message = message
put i (w ∷ ws) message = put (i + 1) ws (set message i w)

-- A message of these words.
abbrev pub just : (List ℕ → Sending) → List ℕ → List ℕ → List Sending × List ℕ
just how words old =
    let message = put 0 words old in (how (take (length words) message) ∷ [], message)

-- `send` of common_include.h: a cluster's position is the identifier of the task in it.
unfoldable pub send : ℕ → List ℕ → LocalMapper → LocalMapper
send destination words m =
    send_by_slot
      (just
        (service (
          add32 (add32 (destination / 256) (mul32 (destination % 256) m.s_num_x_cluster))
            m.s_task_id_offset))
        words)
      m

-- The tasks in use.
abbrev pub tasks_of : Application → List Task
tasks_of app = take (loop_bound app.tasks_number) app.tasks

unfoldable pub allocation_words : ℕ → List Task → List ℕ
allocation_words master_addr [] = []
allocation_words master_addr (t ∷ tasks) =
    app_injector
    ∷ 5
    ∷ 0x240
    ∷ t.id
    ∷ master_addr
    ∷ t.allocated_proc
    ∷ 0
    ∷ allocation_words master_addr tasks

-- `(my_task_ID << 16) | net_address`; the slot is not followed past its end.
unfoldable pub send_app_allocation_request : Application → LocalMapper → LocalMapper
send_app_allocation_request app m =
    let words =
      allocation_words (bit_or (m.my_task_id * 2 ^ 16 % 2 ^ 32) m.net_address) (tasks_of app) in
    send_by_slot (just raw words) m

-- The first `n` tasks get a status.
unfoldable pub set_status : ℕ → ℕ → List Task → List Task
set_status n status [] = []
set_status zero status (t ∷ tasks) = t ∷ tasks
set_status (suc n) status (t ∷ tasks) = record t { status = status } ∷ set_status n status tasks

-- Every task of the application at `a` must have a processor.
unfoldable pub request_application : ℕ → LocalMapper → Outcome LocalMapper
request_application a m = do
  app ← or_hang (get_elem? m.applications a)
  mapped ← elim (first? (λ t. t.allocated_proc == minus_one) (tasks_of app)) [
    | none ↦ done true
    | some _ ↦ hangs
  ]
  let requested = record app { tasks = set_status (loop_bound app.tasks_number) 0 app.tasks }
  done (
      send_app_allocation_request requested (record m {
        pending_app_to_map = sub32 m.pending_app_to_map 1;
        applications = set m.applications a requested;
      }))

-- The words that are written for one task, over what is in the message.
unfoldable pub release_words : ℕ → ℕ → Task → List ℕ → List ℕ
release_words size tasks_number t message =
    let header = put 0 (t.allocated_proc ∷ sub32 size 2 ∷ 0x250 ∷ t.id ∷ []) message in
    set (put 8 (tasks_number ∷ t.data_size ∷ []) header) 11 t.bss_size

-- One message for each task, built over the one before.
unfoldable pub release_from : ℕ → ℕ → ℕ → List Task → List ℕ → List Sending × List ℕ
release_from net_address size tasks_number [] message = ([], message)
release_from net_address size tasks_number (t ∷ tasks) message =
    let words = release_words size tasks_number t message in
    let (out, last) = release_from net_address size tasks_number tasks words in
    (
      (if t.allocated_proc == net_address then release (take size words) else raw (take size words))
          ∷ out,
      last,
    )

abbrev pub locations : Application → List ℕ
locations app = map (λ t. t.allocated_proc) (tasks_of app)

-- The header's thirteen words, then the locations.
unfoldable pub send_task_release : Application → LocalMapper → LocalMapper
send_task_release app m =
    send_by_slot
      (λ old.
        release_from m.net_address (13 + length (tasks_of app)) app.tasks_number (tasks_of app)
          (put 13 (locations app) old))
      m

-- The clusters that lent the processors.
abbrev pub masters : ℕ → List Task → List ℕ
masters cluster_position tasks =
    map (λ t. if t.borrowed_master == minus_one then cluster_position else t.borrowed_master) tasks

-- The global mapper is task 0. The application runs once all of its tasks are allocated.
unfoldable pub handle_task_allocated : ℕ → LocalMapper → Outcome LocalMapper
handle_task_allocated task_id m = do
  a ← get_application_ptr (task_id / 256) m.applications
  app ← or_hang (get_elem? m.applications a)
  let (app', allocated_tasks) = set_task_allocated app task_id
  let m' = record m { applications = set m.applications a app' }
  let words = 0x120 ∷ app'.app_id ∷ app'.tasks_number ∷ masters m.cluster_position (tasks_of app')
  let started = send_task_release app' (send_by_slot (just (service 0) words) m')
  let runs = record app' {
    status = running;
    tasks = set_status (loop_bound app'.tasks_number) task_running app'.tasks;
  }
  done (
      if allocated_tasks == app'.tasks_number
      then record started { applications = set started.applications a runs }
      else m')

-- The page is given back to the cluster or to the one that lent it.
unfoldable pub give_back : ℕ → Task → LocalMapper → Outcome LocalMapper
give_back task_id t m =
    let own = page_released t.allocated_proc task_id m.resources >>= λ r.
    done (record m { resources = r }) in
    let lent = send t.borrowed_master (0x180 ∷ t.allocated_proc ∷ task_id ∷ []) m in
    if t.borrowed_master == minus_one then own else done lent

unfoldable pub handle_task_terminated : ℕ → LocalMapper → Outcome LocalMapper
handle_task_terminated task_id m = do
  a ← get_application_ptr (task_id / 256) m.applications
  app ← or_hang (get_elem? m.applications a)
  app' ← set_task_terminated app task_id
  i ← get_task_ptr app' task_id
  t ← or_hang (get_elem? app'.tasks i)
  m' ← give_back task_id t (record m { applications = set m.applications a app' })
  let words =
      0x140
      ∷ app'.app_id
      ∷ app'.tasks_number
      ∷ m.cluster_position
      ∷ masters m.cluster_position (tasks_of app')
  let ended = send_by_slot (just (service 0) words) m'
  done (
      if app'.terminated_tasks == app'.tasks_number
      then record ended { applications = set ended.applications a (remove_application app') }
      else m')
