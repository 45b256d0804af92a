-- ===== src/Kernel/Setup.antt =====
-- `handle_dynamic_CS_setup` of software/kernel/modules/enforcer_sdn.c: the packets by which a pair of
-- tasks changes to a circuit and back. `cs_net`, `cs_mode` and `task_number` are `code_size`,
-- `bss_size` and `pkt_size`.
pub mod Enabled
use mmemphis.Base.{
  ℕ, ◌*◌, ◌%◌, ◌^◌, Option, List, [], ◌∷◌, ◌==◌, if◌then◌else◌, Outcome, done, ◌>>=◌, or_hang,
}
use Prim.Native.Nat.{bit_or}
use mathlib.Core.Option
use mmemphis.Tcb.{search_tcb}
use mmemphis.Ctp.{add_ctp, remove_ctp, get_ctp_ptr, enable, dmni_send_op, dmni_receive_op}
use mmemphis.Packet.{ServiceHeader}
use mmemphis.Kernel.{Kernel, tcb_at, on_tcb}
use mmemphis.Kernel.Circuits.{
  set_noc_switching_consumer, set_noc_switching_producer, noc_switching_producer_ack,
  noc_switching_ctp_concluded, check_ctp_reconfiguration, send_noc_switching_ack,
}
use mmemphis.Kernel.Services.{write_local_service_to_ma, send_service_to_ma}

-- A message to a management task, here or at another processor. The code then waits for the DMNI.
unfoldable pub report : ℕ → ℕ → List ℕ → Kernel → Outcome Kernel
report task address message k =
    if address == k.net_address
    then write_local_service_to_ma task message k
    else done (send_service_to_ma task address message k)

-- The consumer is told to change; it does so at once if it does not wait for a message.
unfoldable pub set_consumer : ServiceHeader → Kernel → Outcome Kernel
set_consumer p k = do
  i ← or_hang (search_tcb p.consumer_task k.scheduler.tcbs)
  t ← tcb_at i k
  let k1 = record k { qos_master_id = p.pkt_size; qos_master_addr = p.source_pe }
  let k2 =
      on_tcb i
        (λ t.
          if p.bss_size == 0
          then record t { remove_ctp = p.producer_task }
          else record t { add_ctp = bit_or (p.code_size * 2 ^ 16 % 2 ^ 32) p.producer_task })
        k1
  if t.scheduling.waiting_msg == 0 then check_ctp_reconfiguration i k2 else done k2

-- Released, the subnet in the packet is overwritten before the acknowledgement.
unfoldable pub set_producer : ServiceHeader → Kernel → Outcome Kernel
set_producer p k =
    let on = add_ctp p.producer_task p.consumer_task dmni_send_op p.code_size k.ctps >>= λ r.
    send_noc_switching_ack p.producer_task p.consumer_task p.code_size p.bss_size
      (record k { ctps = enable r.0 r.1 }) in
    let off = remove_ctp p.code_size dmni_send_op k.ctps >>= λ table.
    send_noc_switching_ack p.producer_task p.consumer_task 0xF0DAEB0A p.bss_size
      (record k { ctps = table }) in
    if p.bss_size == 0 then off else on

unfoldable pub producer_ack : ServiceHeader → Kernel → Outcome Kernel
producer_ack p k = do
  let enabled = get_ctp_ptr p.code_size dmni_receive_op k.ctps >>= λ i. done (enable i k.ctps)
  table ← if p.bss_size == 0 then done k.ctps else enabled
  report k.qos_master_id k.qos_master_addr
      (noc_switching_ctp_concluded ∷ p.producer_task ∷ p.consumer_task ∷ p.bss_size ∷ [])
      (record k { ctps = table })

unfoldable pub handle_dynamic_cs_setup : ServiceHeader → Kernel → Outcome Kernel
handle_dynamic_cs_setup p k =
    if p.service == set_noc_switching_consumer
    then set_consumer p k
    else (if p.service == set_noc_switching_producer
        then set_producer p k
        else (if p.service == noc_switching_producer_ack then producer_ack p k else done k))
