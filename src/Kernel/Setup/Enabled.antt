-- ===== src/Kernel/Setup/Enabled.antt =====
-- A circuit that has been set up at the producer's processor is used by the producer's messages.
use mmemphis.Base.{
  ℕ, ◌+◌, ◌≡◌, refl, ◌≢◌, inl, inr, [], ◌∷◌, ◌++◌, arith, ◌==◌, ==-eq, ne-==, NoneOf, minus_one,
  done, run_through, run_found, run_if,
}
use mmemphis.Tcb.{search_tcb}
use mmemphis.Ctp.{add_ctp, is_pair, get_subnet, dmni_send_op}
use mmemphis.Ctp.Laws.{add_ctp-get_subnet}
use mmemphis.Packet.{ServiceHeader}
use mmemphis.Kernel.{Kernel, send_packet, raw, dmni_send_data}
use mmemphis.Memory.{read_words}
use mmemphis.Kernel.Circuits.{send_noc_switching_ack}
use mmemphis.Kernel.Messages.{send_message_delivery}
use mmemphis.Kernel.Setup.{set_producer}

send_noc_switching_ack-ctps :
    (p c s m : ℕ) (k k' : Kernel)
    → send_noc_switching_ack p c s m k ≡ done k'
    → (k'.ctps ≡ k.ctps) × (k'.memory ≡ k.memory)
unfolding send_noc_switching_ack send_packet
send_noc_switching_ack-ctps p c s m k k' h =
    run_found (search_tcb p k.scheduler.tcbs) _ h (λ i e h1. ground (arith, h1))

-- Where the producer's processor has handled the order to set up a circuit on a subnet other than
-- -1 for a pair of tasks that had no entry, a message of the producer to the consumer leaves by
-- that subnet, with its length before its words.
pub set_producer-send_message_delivery :
    (p : ServiceHeader) (k k' : Kernel) (pe message : ℕ)
    → p.bss_size ≢ 0
    → p.code_size ≢ minus_one
    → NoneOf (is_pair p.producer_task p.consumer_task dmni_send_op) k.ctps
    → set_producer p k ≡ done k'
    → (send_message_delivery p.producer_task p.consumer_task pe message k').sent
      ≡ k'.sent
        ++ raw p.code_size message (read_words message (k'.memory message + 1) k'.memory) ∷ []
unfolding set_producer send_message_delivery dmni_send_data
set_producer-send_message_delivery p k k' pe message on known fresh h =
    elim (run_if (p.bss_size == 0) h) [
      | inl (y, _) ↦ absurd (on (==-eq p.bss_size 0 y))
      | inr (_, h1) ↦
          run_through (add_ctp p.producer_task p.consumer_task dmni_send_op p.code_size k.ctps) _ h1
            (λ r e h2.
              let (_, used) =
                add_ctp-get_subnet p.producer_task p.consumer_task dmni_send_op p.code_size k.ctps
                  fresh e in
              let (table, _) =
                send_noc_switching_ack-ctps p.producer_task p.consumer_task p.code_size p.bss_size _
                  k' h2 in
              let subnet : get_subnet p.producer_task p.consumer_task dmni_send_op k'.ctps
                  ≡ p.code_size =
                rw table used in
              rw (send_message_delivery, subnet, ne-== p.code_size minus_one known) refl)
    ]
