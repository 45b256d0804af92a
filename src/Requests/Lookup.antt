-- ===== src/Requests/Lookup.antt =====
-- Inserting, searching and removing message requests.
use mmemphis.Base.{
  replace?-index?, ℕ, ◌+◌, ◌≡◌, refl, ◌≢◌, ◌⊎◌, inl, inr, true, false, none, some, List, arith,
  ◌==◌, if◌then◌else◌, ne-==, Option-cases, get_elem?, first?, index?, replace?, count, NoneOf,
  first?-holds, first?-none, NoneOf-first?, index?-first?, index?-none, replace?-none,
  count-replace?, NoneOf-count, count-NoneOf, minus_one,
}
use mmemphis.Requests.{
  MessageRequest, is_free, matches, release, insert_message_request, search_message_request,
  remove_message_request,
}

-- The number of requests of a consumer to a producer.
abbrev pub requests : ℕ → ℕ → List MessageRequest → ℕ
requests p c table = count (matches p c) table

free-matches :
    (p c : ℕ) (e : MessageRequest) → c ≢ minus_one → is_free e ≡ true → matches p c e ≡ false
free-matches p c e h f = ground arith

-- For a consumer other than -1, inserting returns 1 and adds one request of that consumer to that
-- producer, or it returns 0, changes nothing, and no entry was free.
pub insert_message_request-requests :
    (p c proc : ℕ) (table : List MessageRequest)
    → c ≢ minus_one
    → let (ret, table') = insert_message_request p c proc table in
      ((ret ≡ 1) × (requests p c table' ≡ requests p c table + 1))
      ⊎ ((ret ≡ 0) × (table' ≡ table) × NoneOf is_free table)
unfolding insert_message_request
insert_message_request-requests p c proc table h =
    elim (Option-cases (replace? is_free (λ _. entry) table)) [
      | inl full ↦
          rw (full, insert_message_request)
            (inr (refl, refl, replace?-none is_free (λ _. entry) table full))
      | inr (table', ok) ↦
          rw (ok, insert_message_request)
            (inl (
              refl,
              omega (
                arith,
                count-replace? is_free (λ _. entry) (matches p c) false true table
                    (λ e f. free-matches p c e h f) (λ e f. ground arith) ok,
              ),
            ))
    ]
  where
    entry : MessageRequest
    entry = record { requester = c; requested = p; requester_proc = proc }

-- Requests between other tasks are left as they were.
pub insert_message_request-others :
    (p c proc p' c' : ℕ) (table : List MessageRequest)
    → c' ≢ minus_one
    → (p ≢ p') ⊎ (c ≢ c')
    → requests p' c' (insert_message_request p c proc table).1 ≡ requests p' c' table
unfolding insert_message_request
insert_message_request-others p c proc p' c' table h d =
    elim (Option-cases (replace? is_free (λ _. entry) table)) [
      | inl full ↦ rw (full, insert_message_request) refl
      | inr (table', ok) ↦
          rw (ok, insert_message_request)
            (omega (
              arith,
              count-replace? is_free (λ _. entry) (matches p' c') false false table
                  (λ e f. free-matches p' c' e h f) (λ e f. ground arith) ok,
            ))
    ]
  where
    entry : MessageRequest
    entry = record { requester = c; requested = p; requester_proc = proc }

-- A search answers 1 exactly where there is a request.
pub search_message_request-requests :
    (p c : ℕ) (table : List MessageRequest)
    → search_message_request p c table ≡ (if requests p c table == 0 then 0 else 1)
unfolding search_message_request
search_message_request-requests p c table = elim (Option-cases (first? (matches p c) table)) [
  | inl e ↦
      rw (e, search_message_request, NoneOf-count (matches p c) table (first?-none _ table e)) refl
  | inr (a, e) ↦
      rw
        (
          e,
          search_message_request,
          ne-== (requests p c table) 0
              (λ z. cc (e, NoneOf-first? (matches p c) table (count-NoneOf _ table z))),
        )
        refl
]

-- For a consumer other than -1, removing takes exactly one request away and returns the address of
-- an entry that was one, or returns null and changes nothing, where there was none.
pub remove_message_request-requests :
    (p c : ℕ) (table : List MessageRequest)
    → c ≢ minus_one
    → let (r, table') = remove_message_request p c table in
      ((i : ℕ) × (e : MessageRequest) × (r ≡ some i)
        × (get_elem? table i ≡ some e)
        × (matches p c e ≡ true)
        × (requests p c table' + 1 ≡ requests p c table))
      ⊎ ((r ≡ none) × (table' ≡ table) × (requests p c table ≡ 0))
unfolding remove_message_request
remove_message_request-requests p c table h = elim (Option-cases (index? (matches p c) table)) [
  | inl e ↦
      rw (e, remove_message_request)
        (inr (refl, refl, NoneOf-count _ table (index?-none _ table e)))
  | inr (i, e) ↦
      let (a, found, at) = index?-first? (matches p c) table i e in
      rw (e, remove_message_request)
        (inl (
          i,
          a,
          refl,
          at,
          first?-holds (matches p c) table found,
          omega (
            arith,
            count-replace? (matches p c) release (matches p c) true false table (λ x y. y)
                (λ x y. ground arith) (replace?-index? (matches p c) release table i e),
          ),
        ))
]
