-- ===== src/Sdn/Token/Handlers.antt =====
-- What the handlers of the token's messages do to the tokens that are about.
use mmemphis.Base.{
  ℕ, zero, suc, ◌+◌, ◌≤◌, ◌<◌, ◌≡◌, refl, ap, ◌≢◌, inl, inr, true, false, some, List, [], ◌∷◌,
  arith, ◌==◌, if◌then◌else◌, ne-==, Bool-cases, length, get_elem?, count, NoneOf, bit, minus_one,
  done, Running-cases,
}
use mmemphis.Sdn.Queues.{Queues, add_token_request, get_next_token_request}
use mmemphis.Sdn.Token.{
  System, TokenMessage, token_request, token_grant, token_release, idle, is_master, send, update,
  handle_token_grant, send_token, handle_token_request, handle_token_release, send_token_request,
  send_token_release, coordinator,
}
use mmemphis.Sdn.Token.Account.{
  is_token, is_stray, tokens, count-append, NoneOf-append, Kept, update_lem,
}

-- A token is about only while the coordinator has lent it.
abbrev pub lent : System → ℕ
lent s = if s.queues.token == minus_one then 0 else 1

pub record IsSafe (s : System) : Type 0 where
  pub held : tokens s ≤ lent s
  pub requests : NoneOf is_stray s.flight
  pub size : length s.controllers ≤ minus_one

pub add_token_request-token :
    (r : ℕ) (q : Queues) {q' : Queues} → add_token_request r q ≡ done q' → q'.token ≡ q.token
unfolding add_token_request
add_token_request-token r q e = ground arith

-- What a handler may do: lend the token if it was not, and nothing else that matters.
pub record Lends (n : ℕ) (s s' : System) : Type 0 where
  pub few : tokens s' ≤ tokens s + n
  pub queues : s'.queues ≡ s.queues
  pub kept : Kept s s'

pub handle_token_grant_lem :
    (a : ℕ) (s : System) {s' : System} → handle_token_grant a s ≡ done s' → Lends 1 s s'
unfolding handle_token_grant
handle_token_grant_lem a s {s'} e =
    let (c, g, y, at, n, k) = update_lem a _ _ s e in
    record { few = ground (arith, n, at); queues = ap (λ s. s.queues) at; kept = k }

pub send-Kept :
    (d : ℕ) (m : TokenMessage) (s : System)
    → is_stray (record { destination = d; message = m }) ≡ false
    → Kept s (send d m s)
send-Kept d m s e = record {
  size = refl;
  requests = λ h. NoneOf-append is_stray s.flight _ h (e, tt);
}

pub send-Lends :
    (d : ℕ) (m : TokenMessage) (s : System) {s' : System}
    → is_stray (record { destination = d; message = m }) ≡ false
    → s' ≡ send d m s
    → Lends (bit (is_token (record { destination = d; message = m }))) s s'
unfolding count
send-Lends d m s e at = rw at (record {
  few =
      ground (arith, count-append is_token s.flight (record { destination = d; message = m } ∷ []));
  queues = refl;
  kept = send-Kept d m s e;
})

pub send_token_lem : (r : ℕ) (s : System) {s' : System} → send_token r s ≡ done s' → Lends 1 s s'
unfolding send_token
send_token_lem r s {s'} e = elim (Bool-cases (r == coordinator)) [
  | inl y ↦ handle_token_grant_lem coordinator s (ground arith)
  | inr n ↦ send-Lends r token_grant s refl (ground arith)
]

-- The coordinator lends the token only while it has it.
pub handle_token_request_lem :
    (r : ℕ) (s : System) {s' : System}
    → r ≢ minus_one
    → tokens s ≤ lent s
    → handle_token_request r s ≡ done s'
    → (tokens s' ≤ lent s') × Kept s s'
unfolding handle_token_request
handle_token_request_lem r s {s'} d h e = elim (Bool-cases (s.queues.token == minus_one)) [
  | inl y ↦ elim (Running-cases (send_token r s)) [
    | inl x ↦ ground arith
    | inr (s1, x) ↦
        let l = send_token_lem r s x in
        let at : s' ≡ record s1 { queues = record s1.queues { token = r } } = ground arith in
        rw at (ground (arith, l.few), record { size = l.kept.size; requests = l.kept.requests })
  ]
  | inr n ↦ elim (Running-cases (add_token_request r s.queues)) [
    | inl x ↦ ground arith
    | inr (q, x) ↦
        let at : s' ≡ record s { queues = q } = ground arith in
        let same : q.token ≡ s.queues.token = add_token_request-token r s.queues x in
        rw at (ground arith, record { size = refl; requests = λ h. h })
  ]
]

-- The token has come back, and none is about.
pub handle_token_release_lem :
    (s : System) {s' : System}
    → tokens s ≡ 0
    → handle_token_release s ≡ done s'
    → (tokens s' ≤ lent s') × Kept s s'
unfolding handle_token_release
handle_token_release_lem s {s'} z e =
    let next = (get_next_token_request s.queues).0 in
    let s1 = record s { queues = record (get_next_token_request s.queues).1 { token = next } } in
    elim (Bool-cases (next == minus_one)) [
      | inl y ↦
          let at : s' ≡ s1 = ground arith in
          rw at (ground arith, record { size = refl; requests = λ h. h })
      | inr n ↦
          let l = send_token_lem next s1 {s' = s'} (ground arith) in
          (
            ground (arith, l.few, l.queues),
            record { size = l.kept.size; requests = l.kept.requests },
          )
    ]

pub index_bound :
    {A : Type 0} (xs : List A) (i : ℕ) {a : A} → get_elem? xs i ≡ some a → i < length xs
index_bound [] i h = cc
index_bound (x ∷ xs) zero h = omega arith
index_bound (x ∷ xs) (suc i) h = omega (arith, index_bound xs i h)

pub send_token_request-IsSafe :
    (a : ℕ) (s : System) {s' : System} → IsSafe s → send_token_request a s ≡ done s' → IsSafe s'
unfolding send_token_request
send_token_request-IsSafe a s {s'} h e =
    elim (Running-cases (update a (λ c. true) (λ c. record c { token_requested = 1 }) s)) [
      | inl x ↦ ground arith
      | inr (s1, x) ↦
          let (c, g, y, at, n, k) = update_lem a _ _ s x in
          let d : a ≢ minus_one = ground (arith, index_bound s.controllers a g, h.size) in
          let few : tokens s1 ≤ lent s1 = ground (arith, n, at, h.held) in
          elim (Bool-cases (a == coordinator)) [
            | inl y ↦
                let (few', k') = handle_token_request_lem a s1 {s' = s'} d few (ground arith) in
                record {
                  held = few';
                  requests = k'.requests (k.requests h.requests);
                  size = ground (arith, k'.size, k.size, h.size);
                }
            | inr n ↦
                let stray : is_stray
                      (record { destination = coordinator; message = token_request a })
                    ≡ false =
                  ne-== _ _ d in
                let l =
                  send-Lends coordinator (token_request a) s1 {s' = s'} stray (ground arith) in
                record {
                  held = ground (arith, l.few, l.queues, few);
                  requests = l.kept.requests (k.requests h.requests);
                  size = ground (arith, l.kept.size, k.size, h.size);
                }
          ]
    ]

pub send_token_release-IsSafe :
    (a : ℕ) (s : System) {s' : System} → IsSafe s → send_token_release a s ≡ done s' → IsSafe s'
unfolding send_token_release
send_token_release-IsSafe a s {s'} h e =
    elim (Running-cases (update a is_master (λ c. record c { controller_status = idle }) s)) [
      | inl x ↦ ground arith
      | inr (s1, x) ↦
          let (c, g, y, at, n, k) = update_lem a _ _ s x in
          let none_about : tokens s1 ≡ 0 = ground (arith, n, at, h.held) in
          let was_lent : lent s1 ≡ 1 = ground (arith, n, at, h.held) in
          elim (Bool-cases (a == coordinator)) [
            | inl y ↦
                let (few', k') = handle_token_release_lem s1 {s' = s'} none_about (ground arith) in
                record {
                  held = few';
                  requests = k'.requests (k.requests h.requests);
                  size = ground (arith, k'.size, k.size, h.size);
                }
            | inr n ↦
                let l = send-Lends coordinator token_release s1 {s' = s'} refl (ground arith) in
                record {
                  held = ground (arith, l.few, l.queues, none_about, was_lent);
                  requests = l.kept.requests (k.requests h.requests);
                  size = ground (arith, l.kept.size, k.size, h.size);
                }
          ]
    ]
