-- ===== src/Kernel/Delivery.antt =====
-- The three ways of a message from the page of its producer to the buffer of its consumer: a copy
-- within a processor, a packet, and a circuit.
use mmemphis.Base.{
  ℕ, zero, suc, ◌+◌, ◌^◌, ◌<◌, ◌≡◌, refl, sym, ap, ◌∙◌, ◌≢◌, inl, inr, some, List, [], ◌∷◌, ◌++◌,
  arith, ◌==◌, if◌then◌else◌, eq-==, ne-==, length, get_elem?, take, minus_one, add32, loop_bound,
  done, hangs, run_through, run_found, run_if,
}
use mmemphis.Memory.{
  read_words, write_words, copy_words, store, Apart, read-write_words, read-copy_words,
  read_words-eq, copy_words-outside,
}
use mmemphis.Tcb.{Tcb, search_tcb}
use mmemphis.Ctp.{get_subnet, dmni_send_op}
use mmemphis.Packet.{ServiceHeader}
use mmemphis.Packet.Slots.{sh_slot1, sh_slot2, get_service_header_slot}
use mmemphis.Kernel.{
  Kernel, Transfer, packet, raw, on_tcb, send_packet, dmni_send_data, hal_release_waiting_task,
  hal_get_tick,
}
use mmemphis.Kernel.Circuits.{check_ctp_reconfiguration}
use mmemphis.Kernel.Migration.{migrate_dynamic_memory}
use mmemphis.Kernel.Messages.{
  send_message_delivery, handle_message_delivery, received, send_local, write_local_msg_to_task,
  message_delivery, conclude_delivery, end_communication,
}
use mmemphis.Kernel.Packets.{handle_packet, waking}
use mmemphis.Kernel.Untouched.{check_ctp_reconfiguration-memory, migrate_dynamic_memory-memory}

-- A message as it stands in memory: its length and its words.
abbrev pub message_at : ℕ → (ℕ → ℕ) → ℕ × List ℕ
message_at a m = (m a, read_words (a + 4) (m a) m)

length-read_words : (n a : ℕ) (m : ℕ → ℕ) → length (read_words a n m) ≡ n
unfolding read_words
length-read_words zero a m = refl
length-read_words (suc n) a m = omega (arith, length-read_words n (a + 4) m)

take-all : (n : ℕ) (ws : List ℕ) → length ws ≡ n → take n ws ≡ ws
take-all n [] h = refl
take-all zero (w ∷ ws) h = absurd (omega (arith, h))
take-all (suc n) (w ∷ ws) h = ap (λ r. w ∷ r) (take-all n ws (omega (arith, h)))

store-message_at :
    (b : ℕ) (ws : List ℕ) (m : ℕ → ℕ)
    → message_at b (store b (length ws) (write_words (b + 4) ws m)) ≡ (length ws, ws)
store-message_at b ws m =
    let m1 = write_words (b + 4) ws m in
    let m2 = store b (length ws) m1 in
    let here : m2 b ≡ length ws = ground arith in
    let same : read_words (b + 4) (length ws) m2 ≡ read_words (b + 4) (length ws) m1 =
      read_words-eq (length ws) (b + 4) m2 m1 (λ x l u. ground arith) in
    ground (arith, here, same, read-write_words ws (b + 4) m)

conclude_delivery-memory :
    (i : ℕ) (t : Tcb) (r : ℕ) (k k' : Kernel)
    → conclude_delivery i t k ≡ done (r, k')
    → k'.memory ≡ k.memory
unfolding conclude_delivery
conclude_delivery-memory i t r k k' h = run_through (check_ctp_reconfiguration i k) _ h (λ k1 e1 h1.
    let kept = check_ctp_reconfiguration-memory i k k1 e1 in
    elim (run_if (t.proc_to_migrate == minus_one) h1) [
      | inl (_, h2) ↦ ground (arith, h2, kept)
      | inr (_, h2) ↦
          run_through (migrate_dynamic_memory i (end_communication i k1)) _ h2 (λ k2 e2 h3.
            ground
              (arith, h3, kept, migrate_dynamic_memory-memory i (end_communication i k1) k2 e2))
    ])

-- A consumer that has handled a delivery has the memory that the delivery gives.
handle_message_delivery-memory :
    (p : ServiceHeader) (payload : List ℕ) (subnet i r : ℕ) (k k' : Kernel) (t : Tcb)
    → search_tcb p.consumer_task k.scheduler.tcbs ≡ some i
    → get_elem? k.scheduler.tcbs i ≡ some t
    → handle_message_delivery p payload subnet k ≡ done (r, k')
    → k'.memory ≡ received p payload subnet t.recv_buffer k
unfolding handle_message_delivery hal_release_waiting_task
handle_message_delivery-memory p payload subnet i r k k' t s g h =
    run_found (search_tcb p.consumer_task k.scheduler.tcbs) _ h (λ i' s' h1.
      run_found (get_elem? k.scheduler.tcbs i') _ h1 (λ t' g' h2.
        elim (run_if (t'.recv_buffer == 0) h2) [
          | inl (_, h3) ↦ absurd (ground (arith, h3))
          | inr (_, h3) ↦
              let same_i : i' ≡ i = ground (arith, s, s') in
              let same : t' ≡ t = ground (arith, same_i, g, g') in
              rw (← same) (conclude_delivery-memory i' t' r _ k' h3)
        ]))

append_last : (xs : List Transfer) (x y : Transfer) → xs ++ x ∷ [] ≡ xs ++ y ∷ [] → x ≡ y
append_last [] x y h = cc h
append_last (z ∷ xs) x y h = append_last xs x y (cc h)

-- What a delivery gives to the consumer is in the packet.
handle_packet-memory :
    (p : ServiceHeader) (payload : List ℕ) (subnet i r : ℕ) (k k' : Kernel) (t : Tcb)
    → p.service ≡ message_delivery
    → search_tcb p.consumer_task k.scheduler.tcbs ≡ some i
    → get_elem? k.scheduler.tcbs i ≡ some t
    → handle_packet p payload subnet k ≡ done (r, k')
    → k'.memory ≡ received p payload subnet t.recv_buffer k
unfolding handle_packet
handle_packet-memory p payload subnet i r k k' t e s g h =
    let delivered : waking (handle_message_delivery p payload subnet k) ≡ done (r, k') =
      ground (arith, e, h) in
    run_through (handle_message_delivery p payload subnet k) _ delivered (λ x ex h1.
      let same : x.1 ≡ k' = ground (arith, h1) in
      rw (← same) (handle_message_delivery-memory p payload subnet i x.0 k x.1 t s g ex))

send_packet-sent :
    (f : ServiceHeader → ServiceHeader) (payload : List ℕ) (k : Kernel)
    → (old : ServiceHeader) × ((send_packet f payload k).sent
        ≡ k.sent
          ++ packet
              (record (f old) {
                payload_size = add32 11 (length payload);
                source_pe = k.net_address;
                timestamp = hal_get_tick k;
              })
              payload
            ∷ [])
unfolding send_packet
send_packet-sent f payload k =
    (elim (get_service_header_slot k.slots).0 [ sh_slot1 ↦ k.slot1 | sh_slot2 ↦ k.slot2 ], refl)

packet_arrives :
    (i r m : ℕ) (kp kc kc' : Kernel) (h : ServiceHeader) (ws : List ℕ) (t : Tcb)
    → h.service ≡ message_delivery
    → h.msg_lenght ≡ kp.memory m
    → ws ≡ read_words (m + 4) (kp.memory m) kp.memory
    → search_tcb h.consumer_task kc.scheduler.tcbs ≡ some i
    → get_elem? kc.scheduler.tcbs i ≡ some t
    → handle_packet h ws kc.ps_subnet kc ≡ done (r, kc')
    → message_at t.recv_buffer kc'.memory ≡ message_at m kp.memory
packet_arrives i r m kp kc kc' h ws t service n words s g d =
    let long : length ws ≡ kp.memory m =
      rw words (length-read_words (kp.memory m) (m + 4) kp.memory) in
    let given_words = handle_packet-memory h ws kc.ps_subnet i r kc kc' t service s g d in
    let by_packet = eq-== kc.ps_subnet kc.ps_subnet refl in
    let whole = take-all (kp.memory m) ws long in
    let filled : kc'.memory
        ≡ store t.recv_buffer (length ws) (write_words (t.recv_buffer + 4) ws kc.memory) =
      given_words ∙ ground (arith, by_packet, n, long, whole) in
    let held : message_at t.recv_buffer kc'.memory ≡ (length ws, ws) =
      rw filled (store-message_at t.recv_buffer ws kc.memory) in
    held ∙ ground (arith, long, words)

-- Where a message's producer and consumer communicate by packets, and the delivery that the
-- producer's processor sends is handled at another, the consumer's block being there, the
-- consumer's buffer holds the message, its length and its words, as it stood in the producer's
-- memory; whatever changes of the circuit or migration of the consumer were waiting.
pub handle_packet-send_message_delivery :
    (p c pe m i r : ℕ) (kp kc kc' : Kernel) (h : ServiceHeader) (ws : List ℕ) (t : Tcb)
    → get_subnet p c dmni_send_op kp.ctps ≡ minus_one
    → (send_message_delivery p c pe m kp).sent ≡ kp.sent ++ packet h ws ∷ []
    → search_tcb c kc.scheduler.tcbs ≡ some i
    → get_elem? kc.scheduler.tcbs i ≡ some t
    → handle_packet h ws kc.ps_subnet kc ≡ done (r, kc')
    → message_at t.recv_buffer kc'.memory ≡ message_at m kp.memory
unfolding send_message_delivery
handle_packet-send_message_delivery p c pe m i r kp kc kc' h ws t none_yet out s g d =
    let fill = λ (o : ServiceHeader). record o {
      header = pe;
      service = message_delivery;
      producer_task = p;
      consumer_task = c;
      msg_lenght = kp.memory m;
    } in
    let words = read_words (m + 4) (kp.memory m) kp.memory in
    let (old, e) = send_packet-sent fill words kp in
    let header : ServiceHeader = record (fill old) {
      payload_size = add32 11 (length words);
      source_pe = kp.net_address;
      timestamp = hal_get_tick kp;
    } in
    let sent : kp.sent ++ packet header words ∷ [] ≡ kp.sent ++ packet h ws ∷ [] =
      sym e ∙ ground (arith, none_yet, out) in
    let one = append_last kp.sent (packet header words) (packet h ws) sent in
    let same : header ≡ h = cc one in
    let same_words : words ≡ ws = cc one in
    packet_arrives i r m kp kc kc' h ws t (rw (← same) refl) (rw (← same) refl) (sym same_words)
      (rw (← same) s) g d

words_of : (a n : ℕ) (m : ℕ → ℕ) → read_words a (n + 1) m ≡ m a ∷ read_words (a + 4) n m
unfolding read_words
words_of a n m = ground arith

-- Where a message's producer and consumer communicate by a circuit, and the DMNI takes the words
-- from where the producer's processor has told it to, each at any later time, and the producer has
-- not changed the length by then; and they are handled at the processor of the consumer, by a
-- subnet other than that of packets: the consumer's buffer holds the length and the words that were
-- taken at the message's address. They are the message that was sent only as far as the producer
-- has not written over it.
pub handle_packet-send_message_delivery_circuit :
    (p c pe m i r subnet a subnet' : ℕ) (kp kc kc' : Kernel) (h : ServiceHeader) (ws : List ℕ)
    (taken : ℕ → ℕ) (t : Tcb)
    → get_subnet p c dmni_send_op kp.ctps ≢ minus_one
    → (send_message_delivery p c pe m kp).sent ≡ kp.sent ++ raw subnet a ws ∷ []
    → taken m ≡ kp.memory m
    → h.service ≡ message_delivery
    → search_tcb h.consumer_task kc.scheduler.tcbs ≡ some i
    → get_elem? kc.scheduler.tcbs i ≡ some t
    → subnet' ≢ kc.ps_subnet
    → handle_packet h (read_words a (length ws) taken) subnet' kc ≡ done (r, kc')
    → message_at t.recv_buffer kc'.memory ≡ message_at m taken
unfolding send_message_delivery dmni_send_data
handle_packet-send_message_delivery_circuit p c pe m i r subnet a subnet' kp kc kc' h ws taken t by
      out first service s g other d =
    let own = get_subnet p c dmni_send_op kp.ctps in
    let n = kp.memory m in
    let by_raw : (send_message_delivery p c pe m kp).sent
        ≡ kp.sent ++ raw own m (read_words m (n + 1) kp.memory) ∷ [] =
      rw (send_message_delivery, ne-== own minus_one by) refl in
    let one =
      append_last kp.sent (raw own m (read_words m (n + 1) kp.memory)) (raw subnet a ws)
        (sym by_raw ∙ out) in
    let from : m ≡ a = cc one in
    let programmed : read_words m (n + 1) kp.memory ≡ ws = cc one in
    let count : length ws ≡ n + 1 =
      ap (λ (ws : List ℕ). length ws) (sym programmed) ∙ length-read_words (n + 1) m kp.memory in
    let words = read_words (m + 4) n taken in
    let arrived : read_words a (length ws) taken ≡ n ∷ words =
      rw (← from, count) (words_of m n taken ∙ ap (λ (x : ℕ). x ∷ words) first) in
    let d' : handle_packet h (n ∷ words) subnet' kc ≡ done (r, kc') = rw (← arrived) d in
    let long = length-read_words n (m + 4) taken in
    let whole = take-all n words long in
    let given_words = handle_packet-memory h (n ∷ words) subnet' i r kc kc' t service s g d' in
    let by_circuit = ne-== subnet' kc.ps_subnet other in
    let filled : kc'.memory
        ≡ store t.recv_buffer (length words) (write_words (t.recv_buffer + 4) words kc.memory) =
      given_words ∙ ground (arith, by_circuit, long, whole) in
    let held : message_at t.recv_buffer kc'.memory ≡ (length words, words) =
      rw filled (store-message_at t.recv_buffer words kc.memory) in
    held ∙ ground (arith, long, first)

write_local_msg_to_task-memory :
    (j m : ℕ) (k k' : Kernel) (t : Tcb)
    → get_elem? k.scheduler.tcbs j ≡ some t
    → k.memory m < 2 ^ 31
    → Apart (k.memory m + 1) t.recv_buffer m
    → write_local_msg_to_task j m k ≡ done k'
    → message_at t.recv_buffer k'.memory ≡ message_at m k.memory
unfolding write_local_msg_to_task hal_release_waiting_task
write_local_msg_to_task-memory j m k k' t g small apart h =
    let n = k.memory m in
    run_found (get_elem? k.scheduler.tcbs j) _ h (λ t' g' h1.
      let same : t' ≡ t = cc (g, g') in
      run_through (check_ctp_reconfiguration j _) _ h1 (λ k1 e1 h2.
        let b = t'.recv_buffer in
        let bound : loop_bound n ≡ n = ground arith in
        let m1 = store b n k.memory in
        let kept : k'.memory ≡ copy_words n (b + 4) (m + 4) m1 =
          ground (arith, h2, bound, check_ctp_reconfiguration-memory j _ k1 e1) in
        let first : copy_words n (b + 4) (m + 4) m1 b ≡ n =
          copy_words-outside n (b + 4) (m + 4) b m1 (inl (omega arith)) ∙ ground arith in
        let words : read_words (b + 4) n (copy_words n (b + 4) (m + 4) m1)
            ≡ read_words (m + 4) n m1 =
          read-copy_words n (b + 4) (m + 4) m1 (ground (arith, same)) in
        let source : read_words (m + 4) n m1 ≡ read_words (m + 4) n k.memory =
          read_words-eq n (m + 4) m1 k.memory (λ x l u. ground (arith, same)) in
        rw (← same, kept) (ground (arith, first, words, source))))

-- Where a Send to a task of the same processor returns, the message being shorter than 2 ^ 31 words
-- and apart from the consumer's buffer, the buffer holds the message, its length and its words, as
-- it stood in the producer's memory.
pub send_local-memory :
    (c m i r : ℕ) (k k' : Kernel) (t : Tcb)
    → search_tcb c k.scheduler.tcbs ≡ some i
    → get_elem? k.scheduler.tcbs i ≡ some t
    → k.memory m < 2 ^ 31
    → Apart (k.memory m + 1) t.recv_buffer m
    → send_local c m k ≡ done (r, k')
    → message_at t.recv_buffer k'.memory ≡ message_at m k.memory
unfolding send_local
send_local-memory c m i r k k' t s g small apart h =
    run_found (search_tcb c k.scheduler.tcbs) _ h (λ j s' h1.
      run_found (get_elem? k.scheduler.tcbs j) _ h1 (λ t' g' h2.
        run_through (if t'.recv_buffer == 0 then hangs else write_local_msg_to_task j m k) _ h2
          (λ k1 e h3.
            let same_i : j ≡ i = ground (arith, s, s') in
            let same : t' ≡ t = ground (arith, same_i, g, g') in
            let wrote : write_local_msg_to_task j m k ≡ done k1 = ground (arith, e) in
            let held : message_at t.recv_buffer k1.memory ≡ message_at m k.memory =
              write_local_msg_to_task-memory j m k k1 t (cc (g', same)) small apart wrote in
            let k2 = on_tcb j (λ t. record t { recv_buffer = 0 }) k1 in
            let kept : k'.memory ≡ k1.memory = elim (run_if (t'.proc_to_migrate == minus_one) h3) [
              | inl (_, h4) ↦ ground (arith, h4)
              | inr (_, h4) ↦
                  run_through (migrate_dynamic_memory j k2) _ h4
                    (λ k3 e3 h5. ground (arith, h5, migrate_dynamic_memory-memory j k2 k3 e3))
            ] in
            rw kept held)))
