-- ===== src/Kernel.antt =====
-- The kernel of one processor: the globals of software/kernel/kernel.c and of its modules in one
-- state, what the registers of the hardware read, and what has been handed to the DMNI. A memory
-- address is a byte's, and the words of the tasks' pages stand at multiples of 4.

pub mod Circuits
pub mod Migration
pub mod Services
pub mod Messages
pub mod Setup
pub mod Tasks
pub mod Monitor
pub mod Syscalls
pub mod Packets
pub mod Interrupts
pub mod Untouched
pub mod Delivery
use mmemphis.Base.{
  ℕ, ◌+◌, ◌/◌, ◌%◌, ◌^◌, Bool, not, Option, List, [], ◌∷◌, ◌++◌, ◌==◌, length, get_elem?, set,
  modify, take, add32, Outcome, or_hang,
}
use mmemphis.Tcb.{Tcb}
use mmemphis.Memory.{read_words, write_words}
use mmemphis.Scheduler.{Scheduler}
use mmemphis.Requests.{MessageRequest}
use mmemphis.Locations.{TaskLocation}
use mmemphis.Ctp.{Ctp}
use mmemphis.Packet.{ServiceHeader}
use mmemphis.PendingService.{Pending}
use mmemphis.Packet.Slots.{Slots, sh_slot1, sh_slot2, get_service_header_slot}

-- What the DMNI is programmed to send: a packet by the packet-switched subnet, a header and its
-- payload; or by any subnet the bare words of `DMNI_send_data`, from an address in memory or from a
-- local array of the kernel. The words of `raw` are those that stood at the address when it was
-- programmed: the kernel goes on, so the DMNI may take others from there.
pub data Transfer : Type 0 where
  packet : ServiceHeader → List ℕ → Transfer
  raw : ℕ → ℕ → List ℕ → Transfer
  array : ℕ → List ℕ → Transfer

-- `ps_subnet`, `page_size` and `max_tasks_app` are build parameters. `cs_requests` and `cs_configs`
-- are the values written to the registers of that name. The `reads`-th read of a register of the hardware yields `tick` or, for a subnet's bit of the send
-- status, `send_active`; `irq_status` and `cs_request` are the other registers that are read. All
-- may be anything. `irq_mask`, `timer` (TIME_SLICE), `slack_time_monitor` and `handled_cs_requests`
-- are what was written to registers. `current` is `none` while the idle task runs.
pub record Kernel : Type 0 where
  pub net_address : ℕ
  pub ps_subnet : ℕ
  pub page_size : ℕ
  pub max_tasks_app : ℕ
  pub tick : ℕ → ℕ
  pub send_active : ℕ → ℕ → Bool
  pub reads : ℕ
  pub memory : ℕ → ℕ
  pub scheduler : Scheduler
  pub current : Option ℕ
  pub requests : List MessageRequest
  pub locations : List TaskLocation
  pub ctps : List Ctp
  pub slots : Slots
  pub slot1 : ServiceHeader
  pub slot2 : ServiceHeader
  pub sent : List Transfer
  pub cs_requests : List ℕ
  pub cs_configs : List ℕ
  pub schedule_after_syscall : ℕ
  pub pending : Pending
  pub irq_status : ℕ → ℕ
  pub cs_request : ℕ → ℕ
  pub irq_mask : ℕ
  pub interrput_mask : ℕ
  pub timer : ℕ
  pub slack_time_monitor : ℕ
  pub handled_cs_requests : List ℕ
  pub last_idle_time : ℕ
  pub total_idle_time : ℕ
  pub last_task_profiling_update : ℕ
  pub cluster_master_address : ℕ
  pub qos_master_id : ℕ
  pub qos_master_addr : ℕ

abbrev pub hal_get_tick : Kernel → ℕ
hal_get_tick k = k.tick k.reads

abbrev pub hal_is_send_active : ℕ → Kernel → Bool
hal_is_send_active subnet k = k.send_active k.reads subnet

-- A register has been read once more.
abbrev pub after_read : Kernel → Kernel
after_read k = record k { reads = k.reads + 1 }

abbrev pub hal_enable_scheduler_after_syscall : Kernel → Kernel
hal_enable_scheduler_after_syscall k = record k { schedule_after_syscall = 1 }

-- The bit of a register's value.
abbrev pub has_bit : ℕ → ℕ → Bool
has_bit b word = not (word / 2 ^ b % 2 == 0)

-- A pointer into `tcbs` is an index.
abbrev pub tcb_at : ℕ → Kernel → Outcome Tcb
tcb_at i k = or_hang (get_elem? k.scheduler.tcbs i)

abbrev pub on_tcb : ℕ → (Tcb → Tcb) → Kernel → Kernel
on_tcb i f k = record k { scheduler = record k.scheduler { tcbs = modify k.scheduler.tcbs i f } }

-- The task may run again, and its system call returns 1.
abbrev pub release_waiting : Tcb → Tcb
release_waiting t = record t {
  reg = set t.reg 0 1;
  scheduling = record t.scheduling { waiting_msg = 0 };
}

unfoldable pub hal_release_waiting_task : ℕ → Kernel → Kernel
hal_release_waiting_task i k = on_tcb i release_waiting k

-- `get_service_header_slot`, the writes `f` of the caller into the slot, which keeps what an older
-- packet left in its other fields, and `send_packet`; that waits until the DMNI sends no more.
unfoldable pub send_packet : (ServiceHeader → ServiceHeader) → List ℕ → Kernel → Kernel
send_packet f payload k =
    let (slot, slots') = get_service_header_slot k.slots in
    let old : ServiceHeader = elim slot [ sh_slot1 ↦ k.slot1 | sh_slot2 ↦ k.slot2 ] in
    let p : ServiceHeader = record (f old) {
      payload_size = add32 11 (length payload);
      source_pe = k.net_address;
      timestamp = hal_get_tick k;
    } in
    record k {
      reads = k.reads + 1;
      slots = slots';
      slot1 = elim slot [ sh_slot1 ↦ p | sh_slot2 ↦ k.slot1 ];
      slot2 = elim slot [ sh_slot1 ↦ k.slot2 | sh_slot2 ↦ p ];
      sent = k.sent ++ packet p payload ∷ [];
    }

unfoldable pub dmni_send_data : ℕ → ℕ → ℕ → Kernel → Kernel
dmni_send_data initial_address dmni_msg_size subnet k = record k {
  sent =
      k.sent ++ raw subnet initial_address (read_words initial_address dmni_msg_size k.memory) ∷ [];
}

-- The same call for a local array, which is not in the model's memory.
unfoldable pub dmni_send_array : List ℕ → ℕ → Kernel → Kernel
dmni_send_array words subnet k = record k { sent = k.sent ++ array subnet words ∷ [] }

-- The first `n` words of an incoming payload are copied to an address.
unfoldable pub dmni_read_data : ℕ → ℕ → List ℕ → Kernel → Kernel
dmni_read_data a n payload k = record k { memory = write_words a (take n payload) k.memory }
