-- ===== src/Ctp/Laws.antt =====
-- A circuit is used from its enabling until its removal, and not before.
use mmemphis.Base.{
  count-replace?_at, replace?, replace?-none, NoneOf-first?, count-NoneOf, ℕ, zero, suc, ◌≡◌, refl,
  ap, ◌≢◌, inl, inr, true, some, List, [], ◌∷◌, arith, Option-cases, modify, first?, index?, count,
  NoneOf, first?-replace?_new, replace?-index?, minus_one, done,
}
use mmemphis.Ctp.{Ctp, reset, on_subnet, is_pair, is_free, add_ctp, remove_ctp, get_subnet, enable}

module _ (p c op s : ℕ) where
  pair : ℕ → Ctp
  pair b = record { producer_task = p; consumer_task = c; dmni_op = op; subnet = s; cs_enabled = b }

  -- Writing twice through one address leaves the second value.
  modify-twice :
      (table : List Ctp) (i : ℕ)
      → modify (modify table i (λ _. pair 0)) i (λ e. record e { cs_enabled = 1 })
        ≡ modify table i (λ _. pair 1)
  unfolding pair
  modify-twice [] i = refl
  modify-twice (x ∷ xs) zero = refl
  modify-twice (x ∷ xs) (suc i) = ap (λ r. x ∷ r) (modify-twice xs i)

  -- A pair that had no entry and is added keeps to packet switching until the circuit is enabled
  -- through the address that the addition returned, and uses the subnet from then on.
  pub add_ctp-get_subnet :
      (table : List Ctp) {i : ℕ} {table' : List Ctp}
      → NoneOf (is_pair p c op) table
      → add_ctp p c op s table ≡ done (i, table')
      → (get_subnet p c op table' ≡ minus_one) × (get_subnet p c op (enable i table') ≡ s)
  unfolding add_ctp get_subnet enable pair
  add_ctp-get_subnet table {i} {table'} fresh h = elim (Option-cases (index? is_free table)) [
    | inl e ↦ absurd (ground arith)
    | inr (j, e) ↦
        let at : j ≡ i = ground arith in
        let same : modify table j (λ _. pair 0) ≡ table' = ground arith in
        let (_, _, waits) =
          first?-replace?_new is_free (λ _. pair 0) (is_pair p c op) table (λ x y. ground arith)
            fresh (replace?-index? is_free (λ _. pair 0) table j e) in
        let (_, _, runs) =
          first?-replace?_new is_free (λ _. pair 1) (is_pair p c op) table (λ x y. ground arith)
            fresh (replace?-index? is_free (λ _. pair 1) table j e) in
        (
          rw (← same, waits, get_subnet) refl,
          rw (← same, ← at, modify-twice table j, runs, get_subnet) refl,
        )
  ]

-- Removing a subnet's circuit takes the pair that used it back to packet switching, if the first
-- entry of the subnet in that direction is that pair's and the pair has no other entry; the
-- direction is not -1.
remove_ctp-get_subnet :
    (p c op s : ℕ) (table : List Ctp) {e : Ctp}
    → op ≢ minus_one
    → first? (on_subnet s op) table ≡ some e
    → is_pair p c op e ≡ true
    → count (is_pair p c op) table ≡ 1
    → (table' : List Ctp) × (remove_ctp s op table ≡ done table')
      × (get_subnet p c op table' ≡ minus_one)
unfolding remove_ctp get_subnet
remove_ctp-get_subnet p c op s table {e} m at is once =
    elim (Option-cases (replace? (on_subnet s op) reset table)) [
      | inl n ↦ absurd (cc (at, NoneOf-first? (on_subnet s op) table (replace?-none _ _ table n)))
      | inr (r, t) ↦ (
        r,
        rw (t, remove_ctp) refl,
        rw
            (
              NoneOf-first? (is_pair p c op) r (
                  count-NoneOf (is_pair p c op) r (
                    ground (
                      arith,
                      count-replace?_at (on_subnet s op) reset (is_pair p c op) table {a = e} at t,
                    ))),
              get_subnet,
            )
            refl,
      )
    ]
