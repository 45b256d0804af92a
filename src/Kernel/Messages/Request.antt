-- ===== src/Kernel/Messages/Request.antt =====
-- A request that arrives at the processor of its producer.
use mmemphis.Base.{ℕ, ◌+◌, ◌≡◌, refl, ◌≢◌, ◌⊎◌, inl, inr, some, List, NoneOf, minus_one, done}
use mmemphis.Tcb.{search_tcb}
use mmemphis.Requests.{MessageRequest, is_free, insert_message_request}
use mmemphis.Requests.Lookup.{requests, insert_message_request-requests}
use mmemphis.Packet.{ServiceHeader}
use mmemphis.Kernel.{Kernel}
use mmemphis.Kernel.Messages.{handle_message_request}

-- A request of a consumer other than -1 that arrives at its producer's processor adds one request
-- of that consumer to that producer to the table, or changes nothing, where no entry of the table
-- is free.
pub handle_message_request-requests :
    (p : ServiceHeader) (k : Kernel) (i : ℕ)
    → p.consumer_task ≢ minus_one
    → search_tcb p.producer_task k.scheduler.tcbs ≡ some i
    → (table : List MessageRequest) × (handle_message_request p k
        ≡ done (record k { requests = table }))
      × ((requests p.producer_task p.consumer_task table
            ≡ requests p.producer_task p.consumer_task k.requests + 1)
          ⊎ ((table ≡ k.requests) × NoneOf is_free k.requests))
unfolding handle_message_request
handle_message_request-requests p k i real here =
    let r = insert_message_request p.producer_task p.consumer_task p.msg_lenght k.requests in
    (
      r.1,
      rw (handle_message_request, here) refl,
      elim (insert_message_request-requests p.producer_task p.consumer_task p.msg_lenght k.requests
          real) [ inl (_, more) ↦ inl more | inr (_, same, full) ↦ inr (same, full) ],
    )
