-- ===== src/Packet/Slots.antt =====
-- The two service header slots of software/kernel/modules/packet.c.
use mmemphis.Base.{ℕ, ◌≢◌, arith, ◌==◌, if◌then◌else◌}

-- The `status` fields of `sh_slot1` and `sh_slot2`; the headers themselves are written by callers.
pub record Slots : Type 0 where
  pub status1 : ℕ
  pub status2 : ℕ

pub data Slot : Type 0 where
  sh_slot1 sh_slot2 : Slot

pub init_packet : Slots
init_packet = record { status1 = 1; status2 = 1 }

unfoldable pub get_service_header_slot : Slots → Slot × Slots
get_service_header_slot s =
    if s.status1 == 0
    then (sh_slot2, record { status1 = 1; status2 = 0 })
    else (sh_slot1, record { status1 = 0; status2 = 1 })

-- No two consecutive calls hand out the same slot, whatever the slots' state at the first.
pub get_service_header_slot-alternates :
    (s : Slots)
    → (get_service_header_slot s).0 ≢ (get_service_header_slot (get_service_header_slot s).1).0
unfolding get_service_header_slot
get_service_header_slot-alternates s = ground arith
