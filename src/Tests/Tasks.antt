-- ===== src/Tests/Tasks.antt =====
-- Tasks that start, migrate and are scheduled, and the packets that are put off meanwhile.
use mmemphis.Base.{
  ℕ, ◌+◌, ◌*◌, ◌/◌, ◌≡◌, refl, ◌≢◌, ◌⊎◌, inl, true, some, List, [], ◌∷◌, ◌++◌, arith, ◌==◌,
  if◌then◌else◌, length, get_elem?, get_or, replicate, index?, replace?, count, minus_one, add32,
  sub32, Outcome, done, hangs,
}
use mmemphis.Memory.{read_words}
use mmemphis.Tcb.{Tcb, blocked, no_deadline, search_tcb}
use mmemphis.Scheduler.{
  lst, select_task, search_round, least_slack, dispatch, closest, dynamic_slice_time,
  update_real_time, update_task, real_time_task, next_ready,
}
use mmemphis.Requests.{MessageRequest, remove_all_requested_msgs}
use mmemphis.Requests.Lookup.{requests}
use mmemphis.Locations.{empty, get_task_location, add_task_location}
use mmemphis.Ctp.{Ctp, add_ctp}
use mmemphis.Packet.{ServiceHeader, blank}
use mmemphis.PendingService.{Pending, boot, add_pending_service}
use mmemphis.PendingService.Interrupt.{IsArmed, boot-IsArmed, add_pending_service-IsArmed}
use mmemphis.Fifo
use mmemphis.Fifo.{Fifo}
use mmemphis.Fifo.Refine.{contents}
use mmemphis.Kernel.{Kernel, raw}
use mmemphis.Kernel.Messages.{send_message_delivery, message_request}
use mmemphis.Kernel.Migration.{tcb_header, tcb_registers}
use mmemphis.Kernel.Migration.Target.{handle_migration_tcb, set_real_time, insert_requests}
use mmemphis.Kernel.Migration.Carried.{
  insert_requests-requests, handle_migration_tcb-tcb_header, handle_migration_tcb-deadline,
}
use mmemphis.Kernel.Tasks.{set_task_release, release_task, add_locations}
use mmemphis.Kernel.Tasks.Release.{set_task_release_lem}
use mmemphis.Kernel.Setup.{set_producer}
use mmemphis.Kernel.Setup.Enabled.{set_producer-send_message_delivery}
use mmemphis.Kernel.Circuits.{send_noc_switching_ack}
use mmemphis.Kernel.Syscalls.{allow_interrupts}
use mmemphis.Kernel.Packets.{handle_packet}
use mmemphis.Kernel.Interrupts.{
  ps_interrupt, pending_interrupt, os_scheduler, leave_if_due, call_lst,
}
use mmemphis.Kernel.Interrupts.Deferred.{ps_interrupt-deferred, pending_interrupt-oldest}
use mmemphis.Kernel.Interrupts.Scheduled.{os_scheduler-running}
use mmemphis.Sdn.Token.{System, Sent, token_grant}
use mmemphis.Sdn.Token.Grant.{releases, releases-grant}
use mmemphis.Tests.Processor.{task, processor}

abbrev entry : ℕ → ℕ → MessageRequest
entry requester requested = record {
  requester = requester;
  requested = requested;
  requester_proc = 2;
}

-- Task 256 leaves a table that holds two requests for it.
abbrev leaving : List MessageRequest
leaving = entry 257 256 ∷ entry 258 300 ∷ entry 259 256 ∷ []

abbrev roomy : List MessageRequest
roomy = entry minus_one minus_one ∷ entry 4 5 ∷ entry minus_one minus_one ∷ []

insert_requests-requests_example :
    let (words, _) = remove_all_requested_msgs 256 leaving in
    requests 256 259 (insert_requests (length words / 3) 256 words roomy)
    ≡ requests 256 259 leaving + requests 256 259 roomy
unfolding count
insert_requests-requests_example =
    insert_requests-requests 256 259 leaving roomy (omega arith) (omega arith) (omega arith)

-- A task at offset 4096 comes to a page at offset 8192.
abbrev moving : Tcb
moving = record (task 256 0) {
  offset = 4096;
  pc = 4196;
  reg = replicate 27 7 ++ 4300 ∷ replicate 4 0;
}

abbrev page : Tcb
page = record (task 256 0) { offset = 8192 }

abbrev target : Kernel
target = processor 2 (page ∷ []) [] []

handle_migration_tcb-tcb_header_example :
    (k' : Kernel) × (u : Tcb) × (handle_migration_tcb
        (tcb_header 2 moving blank)
        (tcb_registers moving)
        0
        target
      ≡ done k')
    × (get_elem? k'.scheduler.tcbs 0 ≡ some u)
    × (u.pc ≡ add32 (sub32 moving.pc moving.offset) page.offset)
    × (get_or u.reg 27 0 ≡ (
        let r = get_or moving.reg 27 0 in
        if 27 == 27 then add32 (sub32 r moving.offset) page.offset else r))
handle_migration_tcb-tcb_header_example =
    handle_migration_tcb-tcb_header 2 27 0 blank moving page target refl refl (omega arith)
      (omega arith)

-- A task with a period of 100, a deadline of 80 and an execution time of 30.
abbrev real : Tcb
real = record moving {
  scheduling = record moving.scheduling {
    period = 100;
    deadline = 80;
    execution_time = 30;
    ready_time = 0;
  };
}

abbrev state : Kernel → Outcome Kernel → Kernel
state k (done k') = k'
state k hangs = k

abbrev arrived : Kernel
arrived =
    state target (handle_migration_tcb (tcb_header 2 real blank) (tcb_registers real) 0 target)

abbrev head_or : Tcb → List Tcb → Tcb
head_or t [] = t
head_or t (u ∷ us) = u

abbrev tail_of : List Tcb → List Tcb
tail_of [] = []
tail_of (u ∷ us) = us

abbrev pending_of : Outcome Pending → Pending
pending_of (done p) = p
pending_of hangs = boot

abbrev first_tcb : Kernel → Tcb
first_tcb k = head_or page k.scheduler.tcbs

handle_migration_tcb-deadline_example :
    ((first_tcb arrived).scheduling.period ≡ real.scheduling.period)
    × ((first_tcb arrived).scheduling.deadline ≡ real.scheduling.execution_time)
    × ((first_tcb arrived).scheduling.execution_time ≡ real.scheduling.execution_time)
unfolding handle_migration_tcb set_real_time tcb_header tcb_registers real_time_task next_ready
handle_migration_tcb-deadline_example =
    handle_migration_tcb-deadline 2 0 blank real (first_tcb arrived) target arrived (omega arith)
      refl refl

-- Task 257 is released: the tasks of application 1 run on processors 5 and 6.
abbrev blocked_task : Tcb
blocked_task = record (task 257 0) {
  text_lenght = 50;
  scheduling = record (task 257 0).scheduling { status = blocked };
}

abbrev unreleased : Kernel
unreleased = record (processor 2 (blocked_task ∷ []) [] []) {
  locations = empty ∷ empty ∷ empty ∷ [];
}

abbrev release_packet : ServiceHeader
release_packet = record blank { producer_task = 257; pkt_size = 10; bss_size = 3; msg_lenght = 2 }

set_task_release_lem_example :
    let k' = state unreleased (set_task_release release_packet (5 ∷ 6 ∷ []) unreleased) in
    (get_task_location (257 / 256 * 256 + 1) k'.locations ≡ 6)
    × (i : ℕ) × (t : Tcb) × (search_tcb 257 unreleased.scheduler.tcbs ≡ some i)
    × (get_elem? unreleased.scheduler.tcbs i ≡ some t)
    × (u : Tcb) × (get_elem? k'.scheduler.tcbs i ≡ some u)
    × (u.scheduling.status ≢ blocked)
    × (u.text_lenght ≡ sub32 t.text_lenght 10)
    × (u.data_lenght ≡ 10)
    × (u.bss_lenght ≡ 3)
unfolding set_task_release release_task add_locations search_tcb index? add_task_location replace?
set_task_release_lem_example =
    set_task_release_lem release_packet (5 ∷ 6 ∷ []) 1 6 unreleased
      (state unreleased (set_task_release release_packet (5 ∷ 6 ∷ []) unreleased)) (omega arith)
      (omega arith) refl refl

-- The DMNI sends: a request is put off, and handled later.
abbrev sending : Kernel
sending = record (processor 2 (task 256 0 ∷ []) [] []) { send_active = λ n s. true }

abbrev order : ServiceHeader
order = record blank {
  service = message_request;
  producer_task = 256;
  consumer_task = 257;
  msg_lenght = 2;
}

ps_interrupt-deferred_example :
    (q : Pending) × (ps_interrupt order [] sending
      ≡ done (0, record sending { reads = 1; pending = q }))
    × (contents blank q.fifo ≡ contents blank boot.fifo ++ order ∷ [])
    × IsArmed q
unfolding boot Fifo.init
ps_interrupt-deferred_example =
    ps_interrupt-deferred order [] sending boot-IsArmed (omega arith) refl (inl refl)

abbrev put_off : Pending
put_off = pending_of (add_pending_service boot order)

abbrev later : Kernel
later = record sending { pending = put_off }

pending_interrupt-oldest_example :
    (q : Pending) × (pending_interrupt later
      ≡ handle_packet order [] 1 (record later { pending = q }))
    × (contents blank q.fifo ≡ [])
    × IsArmed q
unfolding add_pending_service Fifo.add boot Fifo.init
pending_interrupt-oldest_example =
    pending_interrupt-oldest order [] later
      (add_pending_service-IsArmed boot order boot-IsArmed refl) refl

-- The pair of tasks 256 and 257 goes over to subnet 0.
abbrev set_up : ServiceHeader
set_up = record blank {
  service = 0x370;
  producer_task = 256;
  consumer_task = 257;
  bss_size = 1;
  code_size = 0;
}

abbrev unset : Ctp
unset = record {
  producer_task = 0;
  consumer_task = 0;
  dmni_op = minus_one;
  subnet = minus_one;
  cs_enabled = 0;
}

abbrev by_packets : Kernel
by_packets = processor 1 (task 256 0 ∷ []) [] (unset ∷ [])

abbrev by_circuit : Kernel
by_circuit = state by_packets (set_producer set_up by_packets)

set_producer-send_message_delivery_example :
    (send_message_delivery 256 257 2 100 by_circuit).sent
    ≡ by_circuit.sent
      ++ raw 0 100 (read_words 100 (by_circuit.memory 100 + 1) by_circuit.memory) ∷ []
unfolding set_producer add_ctp send_noc_switching_ack search_tcb index?
set_producer-send_message_delivery_example =
    set_producer-send_message_delivery set_up by_packets by_circuit 2 100 (omega arith)
      (omega arith) (refl, tt) refl

-- One of two tasks is scheduled.
abbrev pair : Kernel
pair = processor 1 (task 256 0 ∷ task 257 0 ∷ []) [] []

abbrev scheduled : Kernel
scheduled = state pair (os_scheduler pair)

os_scheduler-running_example :
    (scheduled.current ≡ some 1)
    ⊎ (((head_or page (tail_of scheduled.scheduler.tcbs)).scheduling.deadline ≡ no_deadline)
        × ((head_or page (tail_of scheduled.scheduler.tcbs)).scheduling.waiting_msg ≢ 0))
unfolding os_scheduler leave_if_due call_lst lst select_task search_round least_slack dispatch
    dynamic_slice_time closest update_real_time update_task allow_interrupts
os_scheduler-running_example =
    os_scheduler-running 1 pair scheduled (head_or page (tail_of scheduled.scheduler.tcbs)) refl
      refl refl

-- Controllers 2 and 3 wait for the token.
abbrev queue : Fifo ℕ
queue = record { slots = 2 ∷ 3 ∷ 0 ∷ []; first = 0; last = 2; add_fifo = 1 }

abbrev waiting_controllers : System
waiting_controllers = record {
  controllers = [];
  queues = record {
    token_requests = queue;
    token = 1;
    local_requests = record { slots = []; first = 0; last = 0; add_fifo = 0 };
    global_requests = record { slots = []; first = 0; last = 0; add_fifo = 0 };
  };
  flight = [];
}

releases-grant_example :
    (s' : System) × (flight : List Sent) × (releases 2 waiting_controllers ≡ done s')
    × (s'.queues.token ≡ 3)
    × (s'.flight ≡ flight ++ record { destination = 3; message = token_grant } ∷ [])
    × (contents 0 s'.queues.token_requests ≡ [])
releases-grant_example =
    releases-grant (2 ∷ []) 3 [] waiting_controllers (omega arith) refl
      (omega arith, omega arith, tt) (omega arith) (omega arith)
