-- ===== src/Requests/Migrate.antt =====
-- Taking out every request to a task that migrates.
use mmemphis.Base.{
  ℕ, ◌*◌, ◌≡◌, refl, ◌≢◌, inl, inr, Bool, List, [], ◌∷◌, arith, ◌==◌, if◌then◌else◌, Bool-cases,
  length, count, NoneOf, minus_one,
}
use mmemphis.Requests.{MessageRequest, remove_all_requested_msgs}

abbrev pub requested_of : ℕ → MessageRequest → Bool
requested_of t e = e.requested == t

-- The requests in the words that the migration packet carries.
abbrev pub decode : List ℕ → List MessageRequest
decode (c ∷ p ∷ proc ∷ words) =
    record { requester = c; requested = p; requester_proc = proc } ∷ decode words
decode _ = []

abbrev pub select : (MessageRequest → Bool) → List MessageRequest → List MessageRequest
select q [] = []
select q (e ∷ table) = if q e then e ∷ select q table else select q table

-- The words copied out for a migrating task other than -1 are the requests to it, in the table's
-- order and whole; there are three for each; none is left in the table; and the requests to any
-- other task stay.
pub remove_all_requested_msgs_lem :
    (t : ℕ) (table : List MessageRequest)
    → t ≢ minus_one
    → let (words, table') = remove_all_requested_msgs t table in
      (decode words ≡ select (requested_of t) table)
      × (length words ≡ 3 * count (requested_of t) table)
      × NoneOf (requested_of t) table'
      × ((u : ℕ)
          → u ≢ t
          → u ≢ minus_one
          → select (requested_of u) table' ≡ select (requested_of u) table)
unfolding remove_all_requested_msgs count
remove_all_requested_msgs_lem t [] h = (refl, omega arith, tt, λ u d m. refl)
remove_all_requested_msgs_lem t (e ∷ table) h =
    let (a, b, c, k) = remove_all_requested_msgs_lem t table h in
    elim (Bool-cases (e.requested == t)) [
      | inl hit ↦ rw hit (
        ground (arith, a),
        ground (arith, b),
        ground (arith, c),
        λ u d m. ground (arith, k u d m),
      )
      | inr miss ↦
          rw miss (a, ground (arith, b), ground (arith, c), λ u d m. ground (arith, k u d m))
    ]
