-- ===== src/PendingService.antt =====
-- software/kernel/modules/pending_service.c: the services that the kernel could not handle on
-- arrival, in a FIFO of PENDING_SERVICE_TAM entries, and the interrupt line that tells of them.
pub mod Interrupt
use mmemphis.Base.{ℕ, Option, none, ◌==◌, if◌then◌else◌, Outcome, done, ◌>>=◌, replicate}
use mmemphis.Packet.{ServiceHeader, blank}
use mmemphis.Fifo
use mmemphis.Fifo.{Fifo, is_empty}

abbrev pub pending_service_tam : ℕ
pending_service_tam = 20

-- `HAL_set_pending_service` writes `interrupt`.
pub record Pending : Type 0 where
  pub fifo : Fifo ServiceHeader
  pub interrupt : ℕ

-- C's zeroed globals at boot.
unfoldable pub boot : Pending
unfolding Fifo.init
boot = record { fifo = Fifo.init (replicate pending_service_tam blank); interrupt = 0 }

unfoldable pub add_pending_service : Pending → ServiceHeader → Outcome (Pending)
add_pending_service p s = do f ← Fifo.add p.fifo s; done (record p { fifo = f; interrupt = 1 })

-- The index of the slot whose address is returned; `none` is the null pointer.
unfoldable pub get_next_pending_service : Pending → Option ℕ × Pending
get_next_pending_service p =
    let (i, f) = Fifo.next p.fifo in
    if is_empty p.fifo
    then (none, p)
    else (i, record p { fifo = f; interrupt = if f.first == f.last then 0 else p.interrupt })
