-- ===== src/Fifo/History.antt =====
-- Whole histories of a FIFO, and how long the slot of a removed entry stays as it was.
use mmemphis.Base.{
  ℕ, ◌≡◌, refl, ap, ◌∙◌, inl, inr, List, [], ◌∷◌, Option, some, arith, length, get_or, length-set,
  get_or-set_self, get_or-set_ne, Outcome, done, ◌>>=◌, Bool-cases, true, false,
}
use mathlib.Core.Option
use mmemphis.Fifo.Queue
use mmemphis.Fifo.Queue.{Op, put, get}
use mmemphis.Fifo.{Fifo, is_full, store, add, next}
use mmemphis.Fifo.Refine.{
  IsValid, contents, contents-store, length-contents, store-IsValid, next-IsValid, full-size,
  next_refines,
}

module _ {A : Type 0} (d : A) where
  -- A caller's history: what each removal yields, read at once through the returned address.
  pub run : Fifo A → List (Op A) → Outcome (List (Option A))
  run q [] = done []
  run q (put x ∷ ops) = do q' ← add q x; run q' ops
  run q (get ∷ ops) = do
    replies ← run (next q).1 ops
    done (Option.map (λ k. get_or q.slots k d) (next q).0 ∷ replies)

  length-slots-next : (q : Fifo A) → (next q).1.slots ≡ q.slots
  unfolding next
  length-slots-next q = ground arith

  run-eq-run :
      (ops : List (Op A)) (q : Fifo A) (limit : ℕ)
      → IsValid q
      → length q.slots ≡ limit
      → run q ops ≡ Queue.run limit (contents d q) ops
  unfolding run Queue.run add Queue.push
  run-eq-run [] q limit v e = refl
  run-eq-run (put x ∷ ops) q limit v e = elim (Bool-cases (is_full q)) [
    | inl full ↦ rw (full, length-contents d q, ← e, ← full-size d q v, full) refl
    | inr room ↦
        rw (room, length-contents d q, ← e, ← full-size d q v, room)
          (run-eq-run ops (store q x) limit (store-IsValid d q x v)
              (length-set q.slots q.last x ∙ e)
            ∙ ap (λ w. Queue.run limit w ops) (contents-store d q x v room))
  ]
  run-eq-run (get ∷ ops) q limit v e =
      ap (λ o. o >>= λ replies. done (Option.map (λ k. get_or q.slots k d) (next q).0 ∷ replies))
        (run-eq-run ops (next q).1 limit (next-IsValid d q v) (ap length (length-slots-next q) ∙ e))
      ∙ ap (λ (w : Option A × List A). Queue.run limit w.1 ops >>= λ replies. done (w.0 ∷ replies))
          (next_refines d q v)

  -- No history of additions and removals tells a valid circular FIFO from the bounded queue of its
  -- contents: the same removals yield the same entries, and both spin at the same addition.
  pub run_refines :
      (ops : List (Op A)) (q : Fifo A)
      → IsValid q
      → run q ops ≡ Queue.run (length q.slots) (contents d q) ops
  run_refines ops q v = run-eq-run ops q (length q.slots) v refl

  -- In a valid buffer, the slot whose address a removal returns keeps its entry across one more
  -- addition, unless the buffer was full at the removal.
  next-slot_stable :
      (q : Fifo A) (x : A) {i : ℕ} {q' : Fifo A}
      → IsValid q
      → is_full q ≡ false
      → (next q).0 ≡ some i
      → add (next q).1 x ≡ done q'
      → get_or q'.slots i d ≡ get_or q.slots i d
  unfolding next add
  next-slot_stable q x {i} v room e h =
      ground (arith, get_or-set_ne q.slots {i = q.last} {j = q.first} x d)

  -- A removal from a valid, full buffer returns the address of its oldest entry, and the next
  -- addition succeeds and overwrites the entry at that address.
  pub next-slot_overwritten :
      (q : Fifo A) (x : A)
      → IsValid q
      → is_full q ≡ true
      → ((next q).0 ≡ some q.first)
        × ((q' : Fifo A) × (add (next q).1 x ≡ done q') × (get_or q'.slots q.first d ≡ x))
  unfolding next add
  next-slot_overwritten q x v full = (
    ground arith,
    (store (next q).1 x, ground arith, ground (arith, get_or-set_self q.slots q.last x d)),
  )
