-- ===== src/Requests.antt =====
-- The message request table of software/kernel/modules/task_communication.c, which holds the
-- consumers that wait for a message in a blocking Receive. The array is a list of REQUEST_SIZE
-- entries, of any number here.
pub mod Lookup
pub mod Release
pub mod Migrate
use mmemphis.Base.{
  ℕ, Bool, ◌&&◌, Option, none, some, List, [], ◌∷◌, map, ◌==◌, if◌then◌else◌, modify, first?,
  index?, replace?, minus_one,
}

pub record MessageRequest : Type 0 where
  pub requester : ℕ
  pub requested : ℕ
  pub requester_proc : ℕ

abbrev pub is_free : MessageRequest → Bool
is_free e = e.requester == minus_one

abbrev pub matches : ℕ → ℕ → MessageRequest → Bool
matches producer_task consumer_task e = e.requested == producer_task && e.requester == consumer_task

-- `requester = -1; requested = -1;`: the processor stays in the entry.
abbrev pub release : MessageRequest → MessageRequest
release e = record e { requester = minus_one; requested = minus_one }

unfoldable pub init_communication : List MessageRequest → List MessageRequest
init_communication table =
    map (λ _. record { requester = minus_one; requested = minus_one; requester_proc = minus_one })
      table

-- The result is what the function returns: 0 where the table is full.
unfoldable pub insert_message_request : ℕ → ℕ → ℕ → List MessageRequest → ℕ × List MessageRequest
insert_message_request producer_task consumer_task requester_proc table =
    elim (replace? is_free (λ _. entry) table) [ none ↦ (0, table) | some table' ↦ (1, table') ]
  where
    entry : MessageRequest
    entry = record {
      requester = consumer_task;
      requested = producer_task;
      requester_proc = requester_proc;
    }

unfoldable pub search_message_request : ℕ → ℕ → List MessageRequest → ℕ
search_message_request producer_task consumer_task table =
    elim (first? (matches producer_task consumer_task) table) [ none ↦ 0 | some _ ↦ 1 ]

-- The index of the entry whose address is returned; `none` is the null pointer.
unfoldable pub remove_message_request : ℕ → ℕ → List MessageRequest → Option ℕ × List MessageRequest
remove_message_request producer_task consumer_task table =
    elim (index? (matches producer_task consumer_task) table) [
      | none ↦ (none, table)
      | some i ↦ (some i, modify table i release)
    ]

-- What `send_message` writes back through the returned address when the DMNI is busy.
unfoldable pub restore : ℕ → ℕ → ℕ → List MessageRequest → List MessageRequest
restore producer_task consumer_task i table =
    modify table i (λ e. record e { requested = producer_task; requester = consumer_task })

-- The words copied out, three to a request; the function returns their number.
unfoldable pub remove_all_requested_msgs : ℕ → List MessageRequest → List ℕ × List MessageRequest
remove_all_requested_msgs requested_task [] = ([], [])
remove_all_requested_msgs requested_task (e ∷ table) =
    let (words, table') = remove_all_requested_msgs requested_task table in
    if e.requested == requested_task
    then (e.requester ∷ e.requested ∷ e.requester_proc ∷ words, release e ∷ table')
    else (words, e ∷ table')
