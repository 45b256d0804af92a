-- ===== src/Scheduler/RoundRobin.antt =====
-- A round of `round_robin` visits every index.
use mmemphis.Base.{
  ℕ, zero, suc, ◌+◌, ◌-◌, ◌≤◌, ◌<◌, ◌≡◌, inl, inr, Bool, true, false, none, some, List, arith, ltb,
  ◌==◌, if◌then◌else◌, Bool-cases, length,
}
use mmemphis.Tcb.{Tcb, Scheduling}
use mmemphis.Scheduler.{next_index, test_at, search_round}

-- The rounds until `round_robin` comes from `i` to `j`.
abbrev pub rounds : ℕ → ℕ → ℕ → ℕ
rounds n i j = if ltb i j then j - i else j + n - i

module _ (p : Scheduling → Tcb → Bool) (tcbs : List Tcb) where
  -- What the search finds passes the test, and it leaves the index there.
  pub search_round-found :
      (n i : ℕ) {j : ℕ}
      → (search_round p n i tcbs).0 ≡ some j
      → (test_at p tcbs j ≡ true) × ((search_round p n i tcbs).1 ≡ j)
  unfolding search_round
  search_round-found zero i h = absurd (cc)
  search_round-found (suc n) i {j} h =
      ground (arith, search_round-found n (next_index (length tcbs) i) {j = j})

  -- Where it finds nothing, every index within its rounds fails the test.
  pub search_round-none :
      (n i j : ℕ)
      → (search_round p n i tcbs).0 ≡ none
      → i < length tcbs
      → j < length tcbs
      → rounds (length tcbs) i j ≤ n
      → test_at p tcbs j ≡ false
  unfolding search_round
  search_round-none zero i j h li lj r = absurd (ground arith)
  search_round-none (suc n) i j h li lj r = elim (Bool-cases (next_index (length tcbs) i == j)) [
    | inl here ↦ let at : next_index (length tcbs) i ≡ j = ground arith in rw (← at) (ground arith)
    | inr later ↦
        search_round-none n (next_index (length tcbs) i) j (ground arith) (ground arith) lj
          (ground arith)
  ]

  pub search_round-index : (n i : ℕ) → i < length tcbs → (search_round p n i tcbs).1 < length tcbs
  unfolding search_round
  search_round-index zero i h = h
  search_round-index (suc n) i h = ground (arith, search_round-index n (next_index (length tcbs) i))
