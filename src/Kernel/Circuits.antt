-- ===== src/Kernel/Circuits.antt =====
-- The rest of software/kernel/modules/enforcer_sdn.c: the protocol by which a consumer and a
-- producer change to a circuit and back, and the configuration of a router.
use mmemphis.Base.{
  ℕ, ◌*◌, ◌/◌, ◌%◌, ◌^◌, not, ◌&&◌, [], ◌∷◌, ◌++◌, ◌==◌, if◌then◌else◌, minus_one, Outcome, done,
  hangs, ◌>>=◌, or_hang,
}
use Prim.Native.Nat.{bit_or}
use mmemphis.Tcb.{search_tcb}
use mmemphis.Locations.{get_task_location}
use mmemphis.Ctp.{add_ctp, remove_ctp, get_subnet, dmni_receive_op}
use mmemphis.Kernel.{Kernel, tcb_at, on_tcb, send_packet, dmni_send_array}

abbrev pub set_noc_switching_consumer : ℕ
set_noc_switching_consumer = 0x360

abbrev pub set_noc_switching_producer : ℕ
set_noc_switching_producer = 0x370

abbrev pub noc_switching_producer_ack : ℕ
noc_switching_producer_ack = 0x380

abbrev pub noc_switching_ctp_concluded : ℕ
noc_switching_ctp_concluded = 0x390

-- The packet to the producer's processor. `cs_net` is `code_size`, and `cs_mode` is `bss_size`.
abbrev pub switch_producer : ℕ → ℕ → ℕ → ℕ → ℕ → Kernel → Kernel
switch_producer address producer_task consumer_task subnet cs_mode k =
    send_packet
      (λ p. record p {
        header = address;
        service = set_noc_switching_producer;
        producer_task = producer_task;
        consumer_task = consumer_task;
        bss_size = cs_mode;
        code_size = subnet;
      })
      [] k

-- A location, and the `while` that spins on -1.
abbrev pub known_location : ℕ → Kernel → Outcome ℕ
known_location task k =
    let address = get_task_location task k.locations in
    if address == minus_one then hangs else done address

unfoldable pub add_ctp_online : ℕ → Kernel → Outcome Kernel
add_ctp_online i k = do
  t ← tcb_at i k
  let producer_task = t.add_ctp % 2 ^ 16
  let subnet = t.add_ctp / 2 ^ 16
  added ← add_ctp producer_task t.id dmni_receive_op subnet k.ctps
  producer_address ← known_location producer_task k
  let k' =
      switch_producer producer_address producer_task t.id subnet 1 (record k { ctps = added.1 })
  done (on_tcb i (λ t. record t { add_ctp = 0 }) k')

unfoldable pub remove_ctp_online : ℕ → Kernel → Outcome Kernel
remove_ctp_online i k = do
  t ← tcb_at i k
  let subnet = get_subnet t.remove_ctp t.id dmni_receive_op k.ctps
  subnet' ← if subnet == minus_one then hangs else done subnet
  producer_address ← known_location t.remove_ctp k
  table ← remove_ctp subnet' dmni_receive_op k.ctps
  let k' = switch_producer producer_address t.remove_ctp t.id subnet' 0 (record k { ctps = table })
  done (on_tcb i (λ t. record t { remove_ctp = 0 }) k')

unfoldable pub check_ctp_reconfiguration : ℕ → Kernel → Outcome Kernel
check_ctp_reconfiguration i k = tcb_at i k >>= λ t.
    if not (t.add_ctp == 0)
    then add_ctp_online i k
    else (if not (t.remove_ctp == 0) then remove_ctp_online i k else done k)

-- Port 5 of the software is port 4 of the router; a local router is configured by a register.
abbrev pub router_word : ℕ → ℕ → ℕ → ℕ
router_word input_port output_port cs_net =
    bit_or (bit_or (input_port * 2 ^ 13) (output_port * 2 ^ 10)) (2 * 2 ^ cs_net)

unfoldable pub send_config_router : ℕ → ℕ → ℕ → ℕ → Kernel → Kernel
send_config_router target_proc input_port output_port cs_net k =
    let input' = if input_port == 5 then 4 else input_port in
    let output' = if not (input_port == 5) && output_port == 5 then 4 else output_port in
    if target_proc == k.net_address
    then record k { cs_configs = k.cs_configs ++ router_word input' output' cs_net ∷ [] }
    else dmni_send_array (bit_or 0x10000 target_proc ∷ 1 ∷ router_word input' output' cs_net ∷ [])
        k.ps_subnet k

unfoldable pub send_noc_switching_ack : ℕ → ℕ → ℕ → ℕ → Kernel → Outcome Kernel
send_noc_switching_ack producer_task consumer_task subnet cs_mode k =
    or_hang (search_tcb producer_task k.scheduler.tcbs) >>= λ _. done (
      send_packet
        (λ p. record p {
          header = get_task_location consumer_task k.locations;
          service = noc_switching_producer_ack;
          producer_task = producer_task;
          consumer_task = consumer_task;
          code_size = subnet;
          bss_size = cs_mode;
        })
        [] k)
