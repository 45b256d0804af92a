-- ===== src/Requests/Release.antt =====
-- A removed request can be put back: what `send_message` does when the DMNI is busy.
use mmemphis.Base.{
  modify-modify, ℕ, ◌≡◌, inl, inr, some, List, arith, Option-cases, index?, first?-holds,
  index?-first?,
}
use mmemphis.Requests.{MessageRequest, matches, release, remove_message_request, restore}

-- Writing the two tasks back through the address that the removal returned gives the table as it
-- was before, the requester's processor included.
pub restore-remove_message_request :
    (p c i : ℕ) (table : List MessageRequest)
    → (remove_message_request p c table).0 ≡ some i
    → restore p c i (remove_message_request p c table).1 ≡ table
unfolding remove_message_request restore
restore-remove_message_request p c i table h = elim (Option-cases (index? (matches p c) table)) [
  | inl e ↦ absurd (ground arith)
  | inr (j, e) ↦
      let (a, found, at) = index?-first? (matches p c) table j e in
      let same : j ≡ i = ground arith in
      rw (← same, e, remove_message_request)
        (modify-modify table j release (λ x. record x { requested = p; requester = c }) at
          (ground (arith, first?-holds (matches p c) table found)))
]
