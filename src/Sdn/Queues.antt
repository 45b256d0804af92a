-- ===== src/Sdn/Queues.antt =====
-- The request queues of a controller: token_queue.h, local_connection_request_queue.h and
-- global_connection_request_queue.h of applications/MAN_app/SDN_includes, each of NC_NUMBER entries.
use mmemphis.Base.{ℕ, Option, none, some, get_or, minus_one, Outcome, done, ◌>>=◌}
use mmemphis.Fifo
use mmemphis.Fifo.{Fifo}

pub record ConnectionRequest : Type 0 where
  pub source : ℕ
  pub target : ℕ
  pub requester_address : ℕ
  pub subnet : ℕ

-- `init_...`: the indices and the flag are cleared, the entries stay.
abbrev pub restart {ℓ} : {A : Type ℓ} → Fifo A → Fifo A
restart q = record q { first = 0; last = 0; add_fifo = 0 }

-- The three queues and the coordinator's token.
pub record Queues : Type 0 where
  pub token_requests : Fifo ℕ
  pub token : ℕ
  pub local_requests : Fifo ConnectionRequest
  pub global_requests : Fifo ConnectionRequest

unfoldable pub init_token_queue : Queues → Queues
init_token_queue q = record q { token_requests = restart q.token_requests; token = minus_one }

unfoldable pub add_token_request : ℕ → Queues → Outcome Queues
add_token_request requester_address q =
    Fifo.add q.token_requests requester_address >>= λ f. done (record q { token_requests = f })

-- The requester that is removed, by value, or -1.
unfoldable pub get_next_token_request : Queues → ℕ × Queues
get_next_token_request q =
    let (i, f) = Fifo.next q.token_requests in
    (
      elim i [ none ↦ minus_one | some k ↦ get_or q.token_requests.slots k 0 ],
      record q { token_requests = f },
    )

unfoldable pub init_local_connection_request : Queues → Queues
init_local_connection_request q = record q { local_requests = restart q.local_requests }

unfoldable pub add_local_connection_request : ConnectionRequest → Queues → Outcome Queues
add_local_connection_request r q =
    Fifo.add q.local_requests r >>= λ f. done (record q { local_requests = f })

unfoldable pub get_next_local_connection_request : Queues → Option ℕ × Queues
get_next_local_connection_request q =
    let (i, f) = Fifo.next q.local_requests in (i, record q { local_requests = f })

unfoldable pub init_global_connection_request : Queues → Queues
init_global_connection_request q = record q { global_requests = restart q.global_requests }

unfoldable pub add_global_connection_request : ConnectionRequest → Queues → Outcome Queues
add_global_connection_request r q =
    Fifo.add q.global_requests r >>= λ f. done (record q { global_requests = f })

unfoldable pub get_next_global_connection_request : Queues → Option ℕ × Queues
get_next_global_connection_request q =
    let (i, f) = Fifo.next q.global_requests in (i, record q { global_requests = f })
