-- ===== src/Sdn/Token.antt =====
-- The token of applications/MAN_app/noc_manager.c, which a controller holds while it routes across
-- clusters: every controller's state, the coordinator's queue, and the messages under way between
-- them. A cluster's address is the index of its controller here, and the coordinator's is 0.
pub mod Account
pub mod Handlers
pub mod Mutex
pub mod Grant
use mmemphis.Base.{
  ℕ, zero, suc, Bool, true, false, not, ◌&&◌, none, some, List, [], ◌∷◌, ◌++◌, ◌==◌, if◌then◌else◌,
  get_elem?, modify, replicate, minus_one, Outcome, done, hangs, ◌>>=◌,
}
use mmemphis.Fifo
use mmemphis.Sdn.Queues.{Queues, init_token_queue, add_token_request, get_next_token_request}

-- `enum ControllerStates`
pub data ControllerState : Type 0 where
  idle global_slave global_master : ControllerState

-- The globals of one controller; `spins` is 1 once it has entered a `while(1)`.
pub record Controller : Type 0 where
  pub controller_status : ControllerState
  pub token_requested : ℕ
  pub spins : ℕ

pub data TokenMessage : Type 0 where
  token_request : ℕ → TokenMessage
  token_grant token_release : TokenMessage

pub record Sent : Type 0 where
  pub destination : ℕ
  pub message : TokenMessage

-- `queues` is the coordinator's; no other controller uses its own for the token.
pub record System : Type 0 where
  pub controllers : List Controller
  pub queues : Queues
  pub flight : List Sent

-- What `main` sets up before its loop, in each of `n` controllers.
unfoldable pub boot : ℕ → Queues → System
boot n queues = record {
  controllers = replicate n (record { controller_status = idle; token_requested = 0; spins = 0 });
  queues = init_token_queue queues;
  flight = [];
}

abbrev pub coordinator : ℕ
coordinator = 0

abbrev pub is_idle : Controller → Bool
is_idle c = elim c.controller_status [ idle ↦ true | _ ↦ false ]

abbrev pub is_slave : Controller → Bool
is_slave c = elim c.controller_status [ global_slave ↦ true | _ ↦ false ]

abbrev pub is_master : Controller → Bool
is_master c = elim c.controller_status [ global_master ↦ true | _ ↦ false ]

abbrev pub send : ℕ → TokenMessage → System → System
send d m s = record s { flight = s.flight ++ record { destination = d; message = m } ∷ [] }

-- A controller's own part of a handler: it checks its globals and sets them, or spins.
unfoldable pub update :
    ℕ → (Controller → Bool) → (Controller → Controller) → System → Outcome System
update a p f s = elim (get_elem? s.controllers a) [
  | none ↦ hangs
  | some c ↦ if p c then done (record s { controllers = modify s.controllers a f }) else hangs
]

-- The routing that the grant starts is not modelled.
unfoldable pub handle_token_grant : ℕ → System → Outcome System
handle_token_grant a s =
    update a (λ c. is_idle c && not (c.token_requested == 0))
      (λ c. record c { controller_status = global_master; token_requested = 0 }) s

-- The coordinator sends it.
unfoldable pub send_token : ℕ → System → Outcome System
send_token requester s =
    let own = handle_token_grant coordinator s in
    if requester == coordinator then own else done (send requester token_grant s)

unfoldable pub handle_token_request : ℕ → System → Outcome System
handle_token_request requester s =
    let grant = send_token requester s >>= λ s'.
    done (record s' { queues = record s'.queues { token = requester } }) in
    let wait = add_token_request requester s.queues >>= λ q. done (record s { queues = q }) in
    if s.queues.token == minus_one then grant else wait

unfoldable pub handle_token_release : System → Outcome System
handle_token_release s =
    let (next, q) = get_next_token_request s.queues in
    let s' = record s { queues = record q { token = next } } in
    let grant = send_token next s' in if next == minus_one then done s' else grant

unfoldable pub send_token_request : ℕ → System → Outcome System
send_token_request a s = update a (λ c. true) (λ c. record c { token_requested = 1 }) s >>= λ s'.
    let own = handle_token_request a s' in
    if a == coordinator then own else done (send coordinator (token_request a) s')

unfoldable pub send_token_release : ℕ → System → Outcome System
send_token_release a s = update a is_master (λ c. record c { controller_status = idle }) s >>= λ s'.
    let own = handle_token_release s' in
    if a == coordinator then own else done (send coordinator token_release s')

-- The part of `handle_packet` for the token's messages.
unfoldable pub handle_packet : ℕ → TokenMessage → System → Outcome System
handle_packet a (token_request requester) s = handle_token_request requester s
handle_packet a token_grant s = handle_token_grant a s
handle_packet a token_release s = handle_token_release s

-- What happens next, of all that may: a controller takes a request off its queue in `main`, ends
-- its routing, handles a message under way, the `k`-th, or the master's two messages that make it a
-- slave and end that.
pub data Event : Type 0 where
  request_path : ℕ → Event
  finish_path : ℕ → Event
  deliver : ℕ → Event
  update_border_request : ℕ → Event
  global_mode_release : ℕ → Event

abbrev pub remove_at {ℓ} : {A : Type ℓ} → List A → ℕ → List A
remove_at [] k = []
remove_at (x ∷ xs) zero = xs
remove_at (x ∷ xs) (suc k) = x ∷ remove_at xs k

abbrev pub can_request : Controller → Bool
can_request c = is_idle c && c.token_requested == 0

-- A controller that spins takes no further step; what the event that it spins in did before that
-- is left out.
unfoldable pub at_controller : ℕ → (System → Outcome System) → System → System
at_controller a h s =
    let spun = record s { controllers = modify s.controllers a (λ c. record c { spins = 1 }) } in
    let after : System = elim (h s) [ done s' ↦ s' | hangs ↦ spun ] in
    elim (get_elem? s.controllers a) [ none ↦ s | some c ↦ if c.spins == 0 then after else s ]

-- `main` starts a global path only where the controller is idle and has not requested the token.
unfoldable pub step : Event → System → System
step (request_path a) s = elim (get_elem? s.controllers a) [
  | none ↦ s
  | some c ↦ if can_request c then at_controller a (send_token_request a) s else s
]
step (finish_path a) s = at_controller a (send_token_release a) s
step (deliver k) s = elim (get_elem? s.flight k) [
  | none ↦ s
  | some m ↦
      at_controller m.destination
        (λ s. handle_packet m.destination m.message (record s { flight = remove_at s.flight k })) s
]
step (update_border_request a) s =
    at_controller a (update a is_idle (λ c. record c { controller_status = global_slave })) s
step (global_mode_release a) s =
    at_controller a (update a is_slave (λ c. record c { controller_status = idle })) s

unfoldable pub run : List Event → System → System
run [] s = s
run (e ∷ es) s = run es (step e s)
