-- ===== src/Tcb/Pending.antt =====
-- The tasks whose migration is pending.
use mmemphis.Base.{
  ℕ, ◌≡◌, refl, ◌∙◌, ◌≢◌, inl, inr, true, false, some, List, arith, Option-cases, modify, first?,
  index?, replace?, NoneOf, NoneOf-first?, index?-first?, index?-none, first?-replace?_new,
  first?-replace?_other, count-replace?, replace?-index?, NoneOf-count, count-NoneOf, minus_one,
  done,
}
use mmemphis.Tcb.{
  PendingMigrationTask, pends, add_pending_migration_task, remove_pending_migration_task,
}

-- A pending migration of a task other than -1, added where it was not pending, yields the master's
-- address that it was added with and is pending no more; the other tasks' migrations stay pending
-- as they were.
remove-add_pending_migration_task :
    (t master : ℕ) (pending : List PendingMigrationTask) {pending' : List PendingMigrationTask}
    → t ≢ minus_one
    → NoneOf (pends t) pending
    → add_pending_migration_task t master pending ≡ done pending'
    → ((remove_pending_migration_task t pending').0 ≡ master)
      × NoneOf (pends t) (remove_pending_migration_task t pending').1
      × ((u : ℕ)
          → u ≢ t
          → u ≢ minus_one
          → first? (pends u) (remove_pending_migration_task t pending').1
            ≡ first? (pends u) pending)
unfolding add_pending_migration_task remove_pending_migration_task
remove-add_pending_migration_task t master pending {pending'} m fresh h =
    elim (Option-cases (replace? (pends minus_one) (λ _. entry) pending)) [
      | inl e ↦ absurd (ground arith)
      | inr (r, e) ↦ let same : r ≡ pending' = ground arith in rw (← same) (after r e)
    ]
  where
    entry : PendingMigrationTask
    entry = record { id = t; master_address = master }

    unpend : PendingMigrationTask → PendingMigrationTask
    unpend p = record p { id = minus_one }

    after :
        (r : List PendingMigrationTask)
        → replace? (pends minus_one) (λ _. entry) pending ≡ some r
        → ((remove_pending_migration_task t r).0 ≡ master)
          × NoneOf (pends t) (remove_pending_migration_task t r).1
          × ((u : ℕ)
              → u ≢ t
              → u ≢ minus_one
              → first? (pends u) (remove_pending_migration_task t r).1 ≡ first? (pends u) pending)
    after r e =
        let (_, _, hit) =
          first?-replace?_new (pends minus_one) (λ _. entry) (pends t) pending (λ a p. ground arith)
            fresh e in
        let one =
          count-replace? (pends minus_one) (λ _. entry) (pends t) false true pending
            (λ a p. ground arith) (λ a p. ground arith) e in
        elim (Option-cases (index? (pends t) r)) [
          | inl n ↦ absurd (cc (hit, NoneOf-first? (pends t) r (index?-none (pends t) r n)))
          | inr (j, s) ↦
              let (a, found, at) = index?-first? (pends t) r j s in
              let is : a ≡ entry = cc (found, hit) in
              let write = replace?-index? (pends t) unpend r j s in
              rw (s, remove_pending_migration_task)
                (
                  rw (at, is) refl,
                  count-NoneOf (pends t) (modify r j unpend) (
                      omega (
                        arith,
                        one,
                        NoneOf-count (pends t) pending fresh,
                        count-replace? (pends t) unpend (pends t) true false r (λ a p. p)
                            (λ a p. ground arith) write,
                      )),
                  λ u d n.
                      first?-replace?_other (pends t) unpend (pends u) r (λ a p. ground arith)
                        (λ a p. ground arith) write
                      ∙ first?-replace?_other (pends minus_one) (λ _. entry) (pends u) pending
                          (λ a p. ground arith) (λ a p. ground arith) e,
                )
        ]
