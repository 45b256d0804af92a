-- ===== src/Tests/Buffers.antt =====
-- The circular buffers and the header slots.
use mmemphis.Base.{ℕ, ◌≡◌, refl, ◌≢◌, none, some, [], ◌∷◌, arith, get_or, replicate, done}
use mmemphis.Packet.{ServiceHeader, blank}
use mmemphis.Packet.Slots.{get_service_header_slot, get_service_header_slot-alternates}
use mmemphis.PendingService.{Pending, boot, add_pending_service}
use mmemphis.PendingService.Interrupt.{IsArmed, boot-IsArmed, add_pending_service-IsArmed}
use mmemphis.Fifo.{Fifo, init, add, next}
use mmemphis.Fifo.Refine.{IsValid}
use mmemphis.Fifo.Queue
use mmemphis.Fifo.Queue.{put, get}
use mmemphis.Fifo.History
use mmemphis.Fifo.History.{run_refines, next-slot_overwritten}

-- Two of three entries wait, around the end of the array.
abbrev wrapped : Fifo ℕ
wrapped = record { slots = 8 ∷ 0 ∷ 7 ∷ []; first = 2; last = 1; add_fifo = 1 }

wrapped-IsValid : IsValid wrapped
wrapped-IsValid = record { first_in = omega arith; last_in = omega arith; flag = omega arith }

run_refines_example :
    History.run 0 wrapped (put 9 ∷ get ∷ get ∷ get ∷ get ∷ [])
    ≡ done (some 7 ∷ some 8 ∷ some 9 ∷ none ∷ [])
unfolding Queue.run Queue.push Queue.pop
run_refines_example = run_refines 0 (put 9 ∷ get ∷ get ∷ get ∷ get ∷ []) wrapped wrapped-IsValid

abbrev full : Fifo ℕ
full = record { slots = 8 ∷ 9 ∷ 7 ∷ []; first = 2; last = 2; add_fifo = 1 }

full-IsValid : IsValid full
full-IsValid = record { first_in = omega arith; last_in = omega arith; flag = omega arith }

next-slot_overwritten_example :
    ((next full).0 ≡ some 2)
    × ((q' : Fifo ℕ) × (add (next full).1 5 ≡ done q') × (get_or q'.slots 2 0 ≡ 5))
next-slot_overwritten_example = next-slot_overwritten 0 full 5 full-IsValid refl

abbrev service : ServiceHeader
service = record blank { service = 4 }

abbrev one_waits : Pending
one_waits = record boot {
  fifo = record boot.fifo { slots = service ∷ replicate 19 blank; last = 1; add_fifo = 1 };
  interrupt = 1;
}

one_waits-IsArmed : IsArmed one_waits
unfolding boot init add_pending_service add
one_waits-IsArmed = add_pending_service-IsArmed boot service boot-IsArmed refl

get_service_header_slot-alternates_example :
    (get_service_header_slot (record { status1 = 1; status2 = 1 })).0
    ≢ (get_service_header_slot (get_service_header_slot (record { status1 = 1; status2 = 1 })).1).0
get_service_header_slot-alternates_example =
    get_service_header_slot-alternates (record { status1 = 1; status2 = 1 })
