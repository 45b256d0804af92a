-- ===== src/Kernel/Interrupts/Deferred.antt =====
-- The packets that are put off while the DMNI sends are handled later, in the order of their
-- arrival.
use mmemphis.Base.{
  ℕ, zero, suc, ◌+◌, ◌<◌, ◌≡◌, refl, ap, ◌∙◌, ◌⊎◌, true, false, some, List, [], ◌∷◌, ◌++◌, arith,
  ne-==, length, get_elem?, get_or, done,
}
use mmemphis.Packet.{ServiceHeader, blank}
use mmemphis.PendingService.Interrupt.{
  IsArmed, add_pending_service-IsArmed, get_next_pending_service-IsArmed,
}
use mmemphis.PendingService.{Pending, add_pending_service, get_next_pending_service}
use mmemphis.Fifo
use mmemphis.Fifo.{Fifo, is_empty, is_full, store}
use mmemphis.Fifo.Queue
use mathlib.Core.Option
use mmemphis.Fifo.Refine.{size, contents, length-contents, full-size, contents-store, next_refines}
use mmemphis.Kernel.{Kernel, hal_is_send_active}
use mmemphis.Kernel.Messages.{message_request}
use mmemphis.Kernel.Migration.{task_migration}
use mmemphis.Kernel.Packets.{handle_packet}
use mmemphis.Kernel.Interrupts.{ps_interrupt, pending_interrupt}

get_elem?-in :
    (xs : List ServiceHeader) (i : ℕ) → i < length xs → get_elem? xs i ≡ some (get_or xs i blank)
get_elem?-in [] i h = absurd (omega arith)
get_elem?-in (x ∷ xs) zero h = refl
get_elem?-in (x ∷ xs) (suc i) h = get_elem?-in xs i (omega arith)

-- While the DMNI sends, a packet that requests a message or orders a migration is put at the end of
-- the pending services, if there is room in a valid buffer; nothing else changes but the count of
-- reads, the scheduler is not called for it, and the interrupt line is raised while a service waits
-- and lowered while none does.
pub ps_interrupt-deferred :
    (p : ServiceHeader) (payload : List ℕ) (k : Kernel)
    → IsArmed k.pending
    → size k.pending.fifo < length k.pending.fifo.slots
    → hal_is_send_active k.ps_subnet k ≡ true
    → (p.service ≡ message_request) ⊎ (p.service ≡ task_migration)
    → (q : Pending) × (ps_interrupt p payload k
        ≡ done (0, record k { reads = k.reads + 1; pending = q }))
      × (contents blank q.fifo ≡ contents blank k.pending.fifo ++ p ∷ [])
      × IsArmed q
unfolding ps_interrupt add_pending_service Fifo.add
ps_interrupt-deferred p payload k a room busy kind =
    let v = a.valid in
    let f = k.pending.fifo in
    let open_slot : is_full f ≡ false =
      full-size blank f v ∙ ne-== (size f) (length f.slots) (omega (arith, room)) in
    let q : Pending = record { fifo = store f p; interrupt = 1 } in
    (
      q,
      ground (arith, open_slot),
      contents-store blank f p v open_slot,
      add_pending_service-IsArmed k.pending p a (rw open_slot refl),
    )

-- The interrupt of the pending services handles the one that came first, as a packet with no
-- payload, in the state that it left the buffer in; the others still wait, in their order, and the
-- interrupt line is raised exactly while one does.
pub pending_interrupt-oldest :
    (p : ServiceHeader) (rest : List ServiceHeader) (k : Kernel)
    → IsArmed k.pending
    → contents blank k.pending.fifo ≡ p ∷ rest
    → (q : Pending) × (pending_interrupt k
        ≡ handle_packet p [] k.ps_subnet (record k { pending = q }))
      × (contents blank q.fifo ≡ rest)
      × IsArmed q
unfolding pending_interrupt get_next_pending_service Fifo.next Queue.pop
pending_interrupt-oldest p rest k a oldest =
    let v = a.valid in
    let f = k.pending.fifo in
    let long : size f ≡ suc (length rest) =
      omega (arith, length-contents blank f, ap (λ (r : List ServiceHeader). length r) oldest) in
    let waits : is_empty f ≡ false = ground (arith, long) in
    let popped : (
      Option.map (λ i. get_or f.slots i blank) (Fifo.next f).0,
      contents blank (Fifo.next f).1,
    )
        ≡ (some p, rest) =
      next_refines blank f v ∙ rw oldest refl in
    let at = get_elem?-in f.slots f.first v.first_in in
    (
      (get_next_pending_service k.pending).1,
      ground (arith, waits, at, popped),
      ground (arith, waits, popped),
      get_next_pending_service-IsArmed k.pending a,
    )
