-- ===== src/Fifo.antt =====
-- The circular FIFO that the sources write out four times, over an array of any length and any kind
-- of entry: software/kernel/modules/pending_service.c and, under applications/MAN_app/SDN_includes,
-- token_queue.h, local_connection_request_queue.h and global_connection_request_queue.h. Two
-- indices and a flag for the last operation tell a full buffer from an empty one.
pub mod Queue
pub mod Refine
pub mod History
use mmemphis.Base.{
  ℕ, ◌+◌, ◌-◌, Bool, ◌&&◌, List, Option, none, some, length, set, ◌==◌, if◌then◌else◌, Outcome,
  done, hangs,
}

pub record Fifo {ℓ} (A : Type ℓ) : Type ℓ where
  pub slots : List A
  pub first : ℕ
  pub last : ℕ
  -- 1: the last operation was add, 0: the last operation was remove.
  pub add_fifo : ℕ

-- `if (i == SIZE-1) i = 0; else i++;`
abbrev pub bump : ℕ → ℕ → ℕ
bump size i = if i == size - 1 then 0 else i + 1

module _ {ℓ} {A : Type ℓ} where
  unfoldable pub init : List A → Fifo A
  init slots = record { slots = slots; first = 0; last = 0; add_fifo = 0 }

  abbrev pub is_full : Fifo A → Bool
  is_full q = q.first == q.last && q.add_fifo == 1

  abbrev pub is_empty : Fifo A → Bool
  is_empty q = q.first == q.last && q.add_fifo == 0

  -- The body of an addition that finds room.
  abbrev pub store : Fifo A → A → Fifo A
  store q x = record q {
    slots = set q.slots q.last x;
    last = bump (length q.slots) q.last;
    add_fifo = 1;
  }

  -- A full buffer prints an error and spins.
  unfoldable pub add : Fifo A → A → Outcome (Fifo A)
  add q x = if is_full q then hangs else done (store q x)

  -- The result is the index of the slot whose address the code returns: its entry is read later.
  unfoldable pub next : Fifo A → Option ℕ × Fifo A
  next q =
      if is_empty q
      then (none, q)
      else (some q.first, record q { first = bump (length q.slots) q.first; add_fifo = 0 })
