-- ===== src/Tests/Processor.antt =====
-- The kernels of two processors on a small message, and on the packets about it.
use mmemphis.Base.{
  ℕ, ◌+◌, ◌≡◌, refl, ◌⊎◌, false, some, List, [], ◌∷◌, arith, ◌==◌, if◌then◌else◌, replicate, first?,
  index?, NoneOf, minus_one, Outcome, done, hangs,
}
use mmemphis.Memory.{read_words, write_words, copy_words}
use mmemphis.Tcb.{Tcb, ready, no_deadline, search_tcb}
use mmemphis.Requests.{MessageRequest, remove_message_request, restore, is_free}
use mmemphis.Requests.Lookup.{requests}
use mmemphis.Ctp.{Ctp, get_subnet}
use mmemphis.Packet.{ServiceHeader, blank}
use mmemphis.PendingService.{boot}
use mmemphis.Packet.Slots.{get_service_header_slot}
use mmemphis.Kernel.{Kernel, send_packet, dmni_send_data, hal_release_waiting_task}
use mmemphis.Kernel.Circuits.{check_ctp_reconfiguration}
use mmemphis.Kernel.Messages.{
  send_message, answer_request, send_remote, send_local, write_local_msg_to_task,
  send_message_delivery, handle_message_delivery, conclude_delivery, message_delivery,
  message_request, handle_message_request,
}
use mmemphis.Kernel.Messages.Retry.{Refused, send_message-retry}
use mmemphis.Kernel.Messages.Request.{handle_message_request-requests}
use mmemphis.Kernel.Delivery.{
  message_at, handle_packet-send_message_delivery, handle_packet-send_message_delivery_circuit,
  send_local-memory,
}
use mmemphis.Kernel.Packets.{handle_packet}

abbrev pub task : ℕ → ℕ → Tcb
task id recv_buffer = record {
  reg = replicate 32 0;
  pc = 0;
  offset = 0;
  id = id;
  recv_buffer = recv_buffer;
  text_lenght = 0;
  data_lenght = 0;
  bss_lenght = 0;
  proc_to_migrate = minus_one;
  master_address = 0;
  remove_ctp = 0;
  add_ctp = 0;
  is_service_task = 0;
  communication_time = 0;
  computation_time = 0;
  total_comp = 0;
  total_comm = 0;
  scheduling = record {
    status = ready;
    execution_time = 0;
    period = 0;
    deadline = no_deadline;
    ready_time = 0;
    remaining_exec_time = 0;
    slack_time = 0;
    running_start_time = 0;
    utilization = 0;
    waiting_msg = if recv_buffer == 0 then 0 else 1;
    deadline_miss = 0;
  };
}

-- A message of two words stands at address 100. The DMNI never sends for long.
abbrev pub processor : ℕ → List Tcb → List MessageRequest → List Ctp → Kernel
processor address tcbs requests ctps = record {
  net_address = address;
  ps_subnet = 1;
  page_size = 4096;
  max_tasks_app = 4;
  tick = λ n. n;
  send_active = λ n s. false;
  reads = 0;
  memory = λ a. if a == 100 then 2 else a;
  scheduler = record {
    tcbs = tcbs;
    time_slice = 0;
    schedule_overhead = 0;
    instant_overhead = 0;
    cpu_utilization = 0;
    round_robin = 0;
  };
  current = some 0;
  requests = requests;
  locations = [];
  ctps = ctps;
  slots = record { status1 = 1; status2 = 1 };
  slot1 = blank;
  slot2 = blank;
  sent = [];
  cs_requests = [];
  cs_configs = [];
  schedule_after_syscall = 0;
  pending = boot;
  irq_status = λ n. 0;
  cs_request = λ n. 0;
  irq_mask = 0;
  interrput_mask = 0;
  timer = 0;
  slack_time_monitor = 0;
  handled_cs_requests = [];
  last_idle_time = 0;
  total_idle_time = 0;
  last_task_profiling_update = 0;
  cluster_master_address = 0;
  qos_master_id = 0;
  qos_master_addr = 0;
}

-- What a call leaves.
abbrev pub state_of : Kernel → Outcome (ℕ × Kernel) → Kernel
state_of k (done r) = r.1
state_of k hangs = k

abbrev waiting : Tcb
waiting = task 257 400

abbrev consumer : Kernel
consumer = processor 2 (waiting ∷ []) [] []

abbrev asked : MessageRequest
asked = record { requester = 257; requested = 256; requester_proc = 2 }

abbrev producer : Kernel
producer = processor 1 (task 256 0 ∷ []) (asked ∷ []) []

abbrev delivery : ServiceHeader
delivery = record blank {
  header = 2;
  payload_size = 13;
  service = message_delivery;
  producer_task = 256;
  consumer_task = 257;
  source_pe = 1;
  msg_lenght = 2;
}

handle_packet-send_message_delivery_example :
    message_at 400 (state_of consumer (handle_packet delivery (104 ∷ 108 ∷ []) 1 consumer)).memory
    ≡ message_at 100 producer.memory
unfolding handle_packet handle_message_delivery conclude_delivery check_ctp_reconfiguration
    hal_release_waiting_task search_tcb index? get_subnet first? send_message_delivery send_packet
    get_service_header_slot read_words write_words
handle_packet-send_message_delivery_example =
    handle_packet-send_message_delivery 256 257 2 100 0 0 producer consumer
      (state_of consumer (handle_packet delivery (104 ∷ 108 ∷ []) 1 consumer)) delivery
      (104 ∷ 108 ∷ []) waiting refl refl refl refl refl

-- The circuit of the two tasks on subnet 0.
abbrev circuit : ℕ → Ctp
circuit dmni_op = record {
  producer_task = 256;
  consumer_task = 257;
  dmni_op = dmni_op;
  subnet = 0;
  cs_enabled = 1;
}

abbrev switched : Kernel
switched = processor 1 (task 256 0 ∷ []) [] (circuit 0 ∷ [])

abbrev arrival : ServiceHeader
arrival = record blank { service = message_delivery; consumer_task = 257 }

-- The producer overwrites its second word after the transfer is programmed, before it is taken.
abbrev taken : ℕ → ℕ
taken x = if x == 108 then 7 else switched.memory x

abbrev late : Kernel
late = state_of consumer (handle_packet arrival (read_words 100 3 taken) 0 consumer)

handle_packet-send_message_delivery_circuit_example :
    message_at 400 late.memory ≡ message_at 100 taken
unfolding handle_packet handle_message_delivery conclude_delivery check_ctp_reconfiguration
    hal_release_waiting_task search_tcb index? get_subnet first? send_message_delivery
    dmni_send_data read_words write_words
handle_packet-send_message_delivery_circuit_example =
    handle_packet-send_message_delivery_circuit 256 257 2 100 0 0 0 100 0 switched consumer late
      arrival (2 ∷ 104 ∷ 108 ∷ []) taken waiting (omega arith) refl refl refl refl refl
      (omega arith) refl

-- The consumer then has the word that was written over the message.
overwritten_test : message_at 400 late.memory ≡ (2, 104 ∷ 7 ∷ [])
unfolding handle_packet handle_message_delivery conclude_delivery check_ctp_reconfiguration
    hal_release_waiting_task search_tcb index? read_words write_words
overwritten_test = refl

abbrev both : Kernel
both = processor 1 (task 256 0 ∷ waiting ∷ []) [] []

send_local-memory_example :
    message_at 400 (state_of both (send_local 257 100 both)).memory ≡ message_at 100 both.memory
unfolding send_local write_local_msg_to_task check_ctp_reconfiguration hal_release_waiting_task
    search_tcb index? read_words copy_words
send_local-memory_example =
    send_local-memory 257 100 1 1 both (state_of both (send_local 257 100 both)) waiting refl refl
      (omega arith) (omega arith) refl

-- The DMNI is busy when it is asked the second time.
abbrev busy : Kernel
busy = record producer { send_active = λ n s. n == 1 }

send_message-retry_example : Refused busy (state_of busy (send_message 0 100 1 busy))
unfolding send_message answer_request send_remote remove_message_request restore get_subnet first?
    index?
send_message-retry_example =
    send_message-retry 0 100 1 busy (state_of busy (send_message 0 100 1 busy)) refl

abbrev request : ServiceHeader
request = record blank {
  service = message_request;
  producer_task = 256;
  consumer_task = 257;
  msg_lenght = 2;
}

abbrev quiet : Kernel
quiet =
    processor 1 (task 256 0 ∷ [])
      (record { requester = minus_one; requested = minus_one; requester_proc = 0 } ∷ []) []

handle_message_request-requests_example :
    (table : List MessageRequest) × (handle_message_request request quiet
      ≡ done (record quiet { requests = table }))
    × ((requests 256 257 table ≡ requests 256 257 quiet.requests + 1)
        ⊎ ((table ≡ quiet.requests) × NoneOf is_free quiet.requests))
unfolding search_tcb index?
handle_message_request-requests_example =
    handle_message_request-requests request quiet 0 (omega arith) refl
