-- ===== src/PendingService/Interrupt.antt =====
-- The pending-service interrupt is raised exactly while a service waits.
use mmemphis.Base.{◌<◌, ◌≡◌, arith, length-set, done}
use mmemphis.Packet.{ServiceHeader}
use mmemphis.Fifo
use mmemphis.Fifo.{Fifo}
use mmemphis.Fifo.Refine.{IsValid, size}
use mmemphis.PendingService.{Pending, boot, add_pending_service, get_next_pending_service}

pub record IsArmed (p : Pending) : Type 0 where
  pub valid : IsValid p.fifo
  pub raised : 0 < size p.fifo → p.interrupt ≡ 1
  pub dropped : size p.fifo ≡ 0 → p.interrupt ≡ 0

pub boot-IsArmed : IsArmed boot
unfolding boot Fifo.init
boot-IsArmed = ground arith

-- Where adding a pending service to a valid buffer returns, the interrupt line is still raised
-- while a service waits and lowered while none does.
pub add_pending_service-IsArmed :
    (p : Pending) (s : ServiceHeader) {p' : Pending}
    → IsArmed p
    → add_pending_service p s ≡ done p'
    → IsArmed p'
unfolding add_pending_service Fifo.add
add_pending_service-IsArmed p s a e = ground (arith, length-set p.fifo.slots p.fifo.last s)

-- Taking a pending service from a valid buffer keeps the interrupt line raised while a service
-- waits and lowered while none does.
pub get_next_pending_service-IsArmed :
    (p : Pending) → IsArmed p → IsArmed (get_next_pending_service p).1
unfolding get_next_pending_service Fifo.next
get_next_pending_service-IsArmed p a = ground arith
