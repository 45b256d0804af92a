-- ===== src/Fifo/Queue.antt =====
-- What a FIFO promises: a queue of at most `limit` entries, oldest first, and its histories.
use mmemphis.Base.{
  ℕ, List, [], ◌∷◌, ◌++◌, Option, none, some, length, ◌==◌, if◌then◌else◌, Outcome, done, hangs,
  ◌>>=◌,
}

pub data Op {ℓ} (A : Type ℓ) : Type ℓ where
  put : A → Op A
  get : Op A

module _ {ℓ} {A : Type ℓ} where
  unfoldable pub push : ℕ → List A → A → Outcome (List A)
  push limit q x = if length q == limit then hangs else done (q ++ x ∷ [])

  unfoldable pub pop : List A → Option A × List A
  pop [] = (none, [])
  pop (x ∷ q) = (some x, q)

  -- The replies to the `get`s of a history, which spins where a `put` meets a full queue.
  unfoldable pub run : ℕ → List A → List (Op A) → Outcome (List (Option A))
  run limit q [] = done []
  run limit q (put x ∷ ops) = do q' ← push limit q x; run limit q' ops
  run limit q (get ∷ ops) = do replies ← run limit (pop q).1 ops; done ((pop q).0 ∷ replies)
