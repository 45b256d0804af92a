-- ===== src/Kernel/Messages/Retry.antt =====
-- A Send that is refused: the task calls it again later.
use mmemphis.Base.{
  ℕ, ◌≡◌, refl, inl, inr, List, arith, ◌==◌, if◌then◌else◌, Option-cases, get_elem?, minus_one,
  done, hangs, ◌>>=◌, or_hang, run_through, run_found, run_if,
}
use Prim.Native.Nat.{bit_or}
use mmemphis.Tcb.{search_tcb}
use mmemphis.Requests.{MessageRequest, remove_message_request, restore}
use mmemphis.Requests.Release.{restore-remove_message_request}
use mmemphis.Kernel.{Kernel, on_tcb, hal_is_send_active, after_read}
use mmemphis.Kernel.Migration.{migrate_dynamic_memory}
use mmemphis.Kernel.Services.{full_id}
use mmemphis.Kernel.Messages.{
  send_message, answer_request, send_local, send_remote, write_local_msg_to_task,
}

-- Two states that only the reads of registers and the flag of the scheduler's call tell apart.
abbrev pub Refused : Kernel → Kernel → Type 0
Refused k k' =
    k' ≡ record k { reads = k'.reads; schedule_after_syscall = k'.schedule_after_syscall }

-- A Send to a task of the same processor is not refused.
pub send_local-done : (c m r : ℕ) (k k' : Kernel) → send_local c m k ≡ done (r, k') → r ≡ 1
unfolding send_local
send_local-done c m r k k' h = run_found (search_tcb c k.scheduler.tcbs) _ h (λ j ej h1.
    run_found (get_elem? k.scheduler.tcbs j) _ h1 (λ t et h2.
      run_through (if t.recv_buffer == 0 then hangs else write_local_msg_to_task j m k) _ h2
        (λ k1 e1 h3. elim (run_if (t.proc_to_migrate == minus_one) h3) [
          | inl (p, h4) ↦ ground (arith, h4)
          | inr (p, h4) ↦
              run_through
                (migrate_dynamic_memory j (on_tcb j (λ t. record t { recv_buffer = 0 }) k1)) _ h4
                (λ k3 e3 h5. ground (arith, h5))
        ])))

send_remote-Refused :
    (p c r b m : ℕ) (table : List MessageRequest) (k k' : Kernel)
    → restore p c r k.requests ≡ table
    → send_remote p c r b m k ≡ (0, k')
    → Refused (record k { requests = table }) k'
unfolding send_remote
send_remote-Refused p c r b m table k k' e h = ground arith

answer_request-Refused :
    (p c m : ℕ) (k k' : Kernel) → answer_request p c m k ≡ done (0, k') → Refused k k'
unfolding answer_request
answer_request-Refused p c m k k' h =
    let k1 = record k { requests = (remove_message_request p c k.requests).1 } in
    elim (Option-cases (remove_message_request p c k.requests).0) [
      | inl e ↦ ground (arith, e, h)
      | inr (r, e) ↦
          let answered : (or_hang (get_elem? k.requests r) >>= λ x.
          if x.requester_proc == k.net_address
          then send_local c m k1
          else done (send_remote p c r x.requester_proc m k1))
              ≡ done (0, k') =
            rw (← h, answer_request, e) refl in
          let back = restore-remove_message_request p c r k.requests e in
          run_found (get_elem? k.requests r) _ answered (λ x _ h1.
            elim (run_if (x.requester_proc == k.net_address) h1) [
              | inl (_, h2) ↦ absurd (omega (arith, send_local-done c m 0 k1 k' h2))
              | inr (_, h2) ↦
                  send_remote-Refused p c r x.requester_proc m k.requests k1 k' back (cc h2)
            ])
    ]

-- A Send that returns 0, to be called again, has changed nothing but the count of reads of
-- registers and the flag that calls the scheduler: a request that it took out is in the table again
-- as it was.
pub send_message-retry :
    (i a c : ℕ) (k k' : Kernel) → send_message i a c k ≡ done (0, k') → Refused k k'
unfolding send_message
send_message-retry i a c k k' h = run_found (get_elem? k.scheduler.tcbs i) _ h (λ t e h1.
    elim (run_if (hal_is_send_active k.ps_subnet k) h1) [
      | inl (b, h2) ↦ ground (arith, h2)
      | inr (b, h2) ↦
          answer_request-Refused t.id (full_id t.id c) (bit_or t.offset a) (after_read k) k' h2
    ])
