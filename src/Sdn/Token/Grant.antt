-- ===== src/Sdn/Token/Grant.antt =====
-- The token is handed on in the order of the requests of controllers other than the coordinator,
-- at each release of it.
use mmemphis.Base.{
  ℕ, zero, suc, ◌≡◌, refl, ap, ◌∙◌, ◌≢◌, false, Option, some, List, [], ◌∷◌, ◌++◌, arith, ne-==,
  length, get_or, minus_one, Outcome, done, ◌>>=◌,
}
use mathlib.Core.Option
use mmemphis.Fifo
use mmemphis.Fifo.{Fifo, is_empty}
use mmemphis.Fifo.Queue
use mmemphis.Fifo.Refine.{IsValid, size, contents, next_refines, next-IsValid, length-contents}
use mmemphis.Sdn.Queues.{get_next_token_request}
use mmemphis.Sdn.Token.{System, Sent, token_grant, coordinator, handle_token_release, send_token}

-- The token comes back `n` times.
unfoldable pub releases : ℕ → System → Outcome System
releases zero s = done s
releases (suc n) s = handle_token_release s >>= λ s'. releases n s'

-- Requests of controllers other than the coordinator.
abbrev pub Remote : List ℕ → Type 0
Remote [] = Unit {0}
Remote (r ∷ rs) = (r ≢ coordinator) × (r ≢ minus_one) × Remote rs

pub handle_token_release-oldest :
    (r : ℕ) (rest : List ℕ) (s : System)
    → IsValid s.queues.token_requests
    → contents 0 s.queues.token_requests ≡ r ∷ rest
    → r ≢ coordinator
    → r ≢ minus_one
    → (s' : System) × (handle_token_release s ≡ done s')
      × (s'.queues.token ≡ r)
      × (s'.flight ≡ s.flight ++ record { destination = r; message = token_grant } ∷ [])
      × IsValid s'.queues.token_requests
      × (contents 0 s'.queues.token_requests ≡ rest)
unfolding handle_token_release get_next_token_request send_token Fifo.next Queue.pop
handle_token_release-oldest r rest s v oldest far real =
    let f = s.queues.token_requests in
    let long : size f ≡ suc (length rest) =
      omega (arith, length-contents 0 f, ap (λ (r : List ℕ). length r) oldest) in
    let waits : is_empty f ≡ false = ground (arith, long) in
    let popped : ◌≡◌ {A = Option ℕ × List ℕ}
        (Option.map (λ i. get_or f.slots i 0) (Fifo.next f).0, contents 0 (Fifo.next f).1)
        (some r, rest) =
      next_refines 0 f v ∙ rw oldest refl in
    let oldest_slot : get_or f.slots f.first 0 ≡ r = ground (arith, waits, popped) in
    let s' : System = record s {
      queues = record s.queues { token_requests = (Fifo.next f).1; token = r };
      flight = s.flight ++ record { destination = r; message = token_grant } ∷ [];
    } in
    (
      s',
      ground (arith, waits, oldest_slot, ne-== r coordinator far, ne-== r minus_one real),
      refl,
      refl,
      next-IsValid 0 f v,
      ground (arith, waits, popped),
    )

-- Where the requests that wait in a valid queue are of controllers other than the coordinator and
-- -1, the controller whose request stands behind `n` others is granted the token at the release
-- number `n + 1`: the releases all return, the last message sent is its grant, and the requests
-- behind it are what still waits.
pub releases-grant :
    (before : List ℕ) (r : ℕ) (rest : List ℕ) (s : System)
    → IsValid s.queues.token_requests
    → contents 0 s.queues.token_requests ≡ before ++ r ∷ rest
    → Remote before
    → r ≢ coordinator
    → r ≢ minus_one
    → (s' : System) × (flight : List Sent) × (releases (suc (length before)) s ≡ done s')
      × (s'.queues.token ≡ r)
      × (s'.flight ≡ flight ++ record { destination = r; message = token_grant } ∷ [])
      × (contents 0 s'.queues.token_requests ≡ rest)
unfolding releases
releases-grant [] r rest s v q b far real =
    let (s', e, t, fl, _, c) = handle_token_release-oldest r rest s v q far real in
    (s', s.flight, rw e refl, t, fl, c)
releases-grant (x ∷ before) r rest s v q (x_far, x_real, b) far real =
    let (s1, e1, _, _, v1, c1) =
      handle_token_release-oldest x (before ++ r ∷ rest) s v q x_far x_real in
    let (s', fl, e, t, o, c) = releases-grant before r rest s1 v1 c1 b far real in
    (s', fl, rw e1 e, t, o, c)
