-- ===== src/Sdn/Token/Mutex.antt =====
-- At most one controller has the token.
use mmemphis.Base.{
  ℕ, zero, suc, ◌≤◌, ◌≡◌, refl, inl, inr, Bool, true, false, some, List, [], ◌∷◌, arith, ◌==◌,
  eq-==, Bool-cases, Option-cases, get_elem?, modify, replicate, length-replicate, length-modify,
  count, bit, NoneOf-get, minus_one, Outcome, done, Running-cases,
}
use mmemphis.Sdn.Queues.{Queues, init_token_queue}
use mmemphis.Sdn.Token.{
  Controller, System, TokenMessage, Event, token_request, token_grant, token_release, idle,
  is_master, update, handle_packet, remove_at, can_request, at_controller, step, boot, run,
  request_path, finish_path, deliver, update_border_request, global_mode_release,
}
use mmemphis.Sdn.Token.Account.{
  is_token, is_stray, tokens, NoneOf-remove_at, count-remove_at, count-modify, update_lem,
}
use mmemphis.Sdn.Token.Handlers.{
  handle_token_grant_lem, handle_token_request_lem, handle_token_release_lem,
  send_token_request-IsSafe, send_token_release-IsSafe, lent, IsSafe,
}

-- Handling the `k`-th message under way.
handle_packet-IsSafe :
    (k d : ℕ) (m : TokenMessage) (s : System) {s' : System}
    → IsSafe s
    → get_elem? s.flight k ≡ some (record { destination = d; message = m })
    → handle_packet d m (record s { flight = remove_at s.flight k }) ≡ done s'
    → IsSafe s'
unfolding handle_packet
handle_packet-IsSafe k d (token_request r) s {s'} h g e =
    let s0 : System = record s { flight = remove_at s.flight k } in
    let own = NoneOf-get is_stray s.flight k h.requests g in
    let few : tokens s0 ≤ lent s0 = ground (arith, count-remove_at is_token s.flight k g, h.held) in
    let (few', k') =
      handle_token_request_lem r s0 {s' = s'} (λ x. ground (arith, eq-== _ _ x)) few e in
    record {
      held = few';
      requests = k'.requests (NoneOf-remove_at is_stray s.flight k h.requests);
      size = ground (arith, k'.size, h.size);
    }
handle_packet-IsSafe k d token_grant s {s'} h g e =
    let s0 : System = record s { flight = remove_at s.flight k } in
    let l = handle_token_grant_lem d s0 {s' = s'} e in
    record {
      held = ground (arith, l.few, l.queues, count-remove_at is_token s.flight k g, h.held);
      requests = l.kept.requests (NoneOf-remove_at is_stray s.flight k h.requests);
      size = ground (arith, l.kept.size, h.size);
    }
handle_packet-IsSafe k d token_release s {s'} h g e =
    let s0 : System = record s { flight = remove_at s.flight k } in
    let none_about : tokens s0 ≡ 0 =
      ground (arith, count-remove_at is_token s.flight k g, h.held) in
    let (few', k') = handle_token_release_lem s0 {s' = s'} none_about e in
    record {
      held = few';
      requests = k'.requests (NoneOf-remove_at is_stray s.flight k h.requests);
      size = ground (arith, k'.size, h.size);
    }

-- A controller's own update that does not make it a master.
update-IsSafe :
    (a : ℕ) (p : Controller → Bool) (f : Controller → Controller) (s : System) {s' : System}
    → IsSafe s
    → ((c : Controller) → p c ≡ true → bit (is_master (f c)) ≤ bit (is_master c))
    → update a p f s ≡ done s'
    → IsSafe s'
update-IsSafe a p f s {s'} h u e =
    let (c, g, y, at, n, k) = update_lem a p f s e in
    record {
      held = ground (arith, n, at, u c y, h.held);
      requests = k.requests h.requests;
      size = ground (arith, k.size, h.size);
    }

at_controller-IsSafe :
    (a : ℕ) (act : System → Outcome System) (s : System)
    → IsSafe s
    → ((s' : System) → act s ≡ done s' → IsSafe s')
    → IsSafe (at_controller a act s)
unfolding at_controller
at_controller-IsSafe a act s h k = elim (Option-cases (get_elem? s.controllers a)) [
  | inl n ↦ rw (n, at_controller) h
  | inr (c, g) ↦
      let spins = count-modify is_master s.controllers a (λ c. record c { spins = 1 }) g in
      let spun : IsSafe
          (record s { controllers = modify s.controllers a (λ c. record c { spins = 1 }) }) =
        record {
          held = ground (arith, spins, h.held);
          requests = h.requests;
          size =
              ground (arith, length-modify s.controllers a (λ c. record c { spins = 1 }), h.size);
        } in
      elim (Bool-cases (c.spins == 0)) [
        | inl y ↦ elim (Running-cases (act s)) [
          | inl x ↦ rw (g, y, x, at_controller) spun
          | inr (s', x) ↦ rw (g, y, x, at_controller) (k s' x)
        ]
        | inr n ↦ rw (g, n, at_controller) h
      ]
]

step-IsSafe : (e : Event) (s : System) → IsSafe s → IsSafe (step e s)
unfolding step
step-IsSafe (request_path a) s h = elim (Option-cases (get_elem? s.controllers a)) [
  | inl n ↦ rw (n, step) h
  | inr (c, g) ↦ elim (Bool-cases (can_request c)) [
    | inl y ↦
        rw (g, y, step) (at_controller-IsSafe a _ s h (λ s' e. send_token_request-IsSafe a s h e))
    | inr n ↦ rw (g, n, step) h
  ]
]
step-IsSafe (finish_path a) s h =
    at_controller-IsSafe a _ s h (λ s' e. send_token_release-IsSafe a s h e)
step-IsSafe (deliver k) s h = elim (Option-cases (get_elem? s.flight k)) [
  | inl n ↦ rw (n, step) h
  | inr (m, g) ↦
      rw (g, step)
        (at_controller-IsSafe m.destination _ s h
          (λ s' e. handle_packet-IsSafe k m.destination m.message s h g e))
]
step-IsSafe (update_border_request a) s h =
    at_controller-IsSafe a _ s h (λ s' e. update-IsSafe a _ _ s h (λ c e. ground arith) e)
step-IsSafe (global_mode_release a) s h =
    at_controller-IsSafe a _ s h (λ s' e. update-IsSafe a _ _ s h (λ c e. ground arith) e)

pub run-IsSafe : (es : List Event) (s : System) → IsSafe s → IsSafe (run es s)
unfolding run
run-IsSafe [] s h = h
run-IsSafe (e ∷ es) s h = run-IsSafe es (step e s) (step-IsSafe e s h)

boot_masters : (n : ℕ) (c : Controller) → is_master c ≡ false → count is_master (replicate n c) ≡ 0
unfolding count
boot_masters zero c e = refl
boot_masters (suc n) c e = ground (arith, boot_masters n c e)

boot-IsSafe : (n : ℕ) (queues : Queues) → n ≤ minus_one → IsSafe (boot n queues)
unfolding boot init_token_queue count
boot-IsSafe n queues h =
    let c : Controller = record { controller_status = idle; token_requested = 0; spins = 0 } in
    record {
      held = ground (arith, boot_masters n c refl);
      requests = tt;
      size = ground (arith, length-replicate n c);
    }

-- Whatever happens from boot on, in whatever order the requests, grants and releases of the token
-- are handled, at most one controller is the master, where there are fewer than 2 ^ 32 controllers.
pub run-masters :
    (n : ℕ) (queues : Queues) (es : List Event)
    → n ≤ minus_one
    → count is_master (run es (boot n queues)).controllers ≤ 1
run-masters n queues es h = ground (arith, (run-IsSafe es _ (boot-IsSafe n queues h)).held)
