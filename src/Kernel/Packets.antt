-- ===== src/Kernel/Packets.antt =====
-- `handle_packet` of software/kernel/kernel.c: one handler for each service, and the need to call
-- the scheduler after it.
use mmemphis.Base.{
  ℕ, ◌/◌, Bool, false, ◌||◌, none, some, List, [], ◌∷◌, ◌==◌, if◌then◌else◌, Outcome, done, ◌>>=◌,
}
use mmemphis.Tcb.{is_another_task_running}
use mmemphis.Locations.{add_task_location}
use mmemphis.Ctp.{remove_ctp}
use mmemphis.Packet.{ServiceHeader}
use mmemphis.Kernel.{Kernel}
use mmemphis.Kernel.Circuits.{
  set_noc_switching_consumer, set_noc_switching_producer, noc_switching_producer_ack,
}
use mmemphis.Kernel.Services.{handle_ma_message}
use mmemphis.Kernel.Messages.{
  message_request, message_delivery, handle_message_request, handle_message_delivery,
}
use mmemphis.Kernel.Migration.{
  task_migration, migration_code, migration_tcb, migration_task_location, migration_msg_request,
  migration_stack, migration_data_bss,
}
use mmemphis.Kernel.Migration.Target.{returning, handle_migration}
use mmemphis.Kernel.Setup.{handle_dynamic_cs_setup}
use mmemphis.Kernel.Tasks.{handle_task_allocation, set_task_release}
use mmemphis.Kernel.Monitor.{init_profiling_window}

-- A service is one of a list.
unfoldable pub one_of : ℕ → List ℕ → Bool
one_of service [] = false
one_of service (s ∷ services) = service == s || one_of service services

abbrev pub migration_services : List ℕ
migration_services =
    task_migration ∷ migration_code ∷ migration_tcb ∷ migration_task_location
    ∷ migration_msg_request ∷ migration_stack ∷ migration_data_bss ∷ []

-- The services that are for a management task, in the order of the cases.
abbrev pub ma_services : List ℕ
ma_services =
    0x70 ∷ 0x50 ∷ 0x140 ∷ 0x180 ∷ 0x120 ∷ 0x290 ∷ 0x150 ∷ 0x450 ∷ 0x460 ∷ 0x190 ∷ 0x200 ∷ 0x90
    ∷ 0x1001 ∷ 0x1002 ∷ 0x1003 ∷ 0x1004 ∷ 0x1005 ∷ 0x1006 ∷ 0x1007 ∷ 0x1009 ∷ 0x1010 ∷ 0x1011
    ∷ 0x1012 ∷ 0x1020 ∷ 0x1021 ∷ 0x1022 ∷ 0x1023 ∷ 0x1024 ∷ 0x390 ∷ 0x275 ∷ 0x480 ∷ []

abbrev pub setup_services : List ℕ
setup_services =
    set_noc_switching_consumer ∷ set_noc_switching_producer ∷ noc_switching_producer_ack ∷ []

-- A handler whose task may be scheduled at once if the processor idles.
abbrev pub wakes : ℕ → Kernel → ℕ
wakes need_scheduling k = elim k.current [ none ↦ 1 | some _ ↦ need_scheduling ]

abbrev pub waking : Outcome (ℕ × Kernel) → Outcome (ℕ × Kernel)
waking o = o >>= λ r. done (wakes r.0 r.1, r.1)

-- The location of a task that has moved is kept while its application has a task here.
unfoldable pub update_task_location : ServiceHeader → Kernel → Outcome Kernel
update_task_location p k =
    let added = add_task_location p.producer_task p.msg_lenght k.locations >>= λ table.
    done (record k { locations = table }) in
    if is_another_task_running (p.producer_task / 256) k.scheduler.tcbs == 0 then done k else added

-- `cs_net` and `dmni_op` are `code_size` and `bss_size`.
unfoldable pub clear_cs_ctp : ServiceHeader → Kernel → Outcome Kernel
clear_cs_ctp p k = do
  table ← remove_ctp p.code_size p.bss_size k.ctps
  done (record k { ctps = table })

-- An unknown service only prints an error.
unfoldable pub handle_packet : ServiceHeader → List ℕ → ℕ → Kernel → Outcome (ℕ × Kernel)
handle_packet p payload subnet k =
    let delivery = waking (handle_message_delivery p payload subnet k) in
    let initialized = init_profiling_window (record k { cluster_master_address = p.source_pe }) in
    if p.service == message_request
    then returning 0 (handle_message_request p k)
    else (if p.service == message_delivery
        then delivery
        else (if p.service == 0x40
            then returning (wakes 0 k) (handle_task_allocation p payload k)
            else (if p.service == 0x250
                then returning (wakes 0 k) (set_task_release p payload k)
                else (if p.service == 0x230
                    then returning 0 (update_task_location p k)
                    else (if p.service == 0x170
                        then done (0, initialized)
                        else (if one_of p.service migration_services
                            then handle_migration p payload k
                            else (if one_of p.service ma_services
                                then returning 1
                                    (handle_ma_message p.consumer_task p.msg_lenght payload k)
                                else (if p.service == 0x320
                                    then returning 0 (clear_cs_ctp p k)
                                    else (if one_of p.service setup_services
                                        then returning 0 (handle_dynamic_cs_setup p k)
                                        else done (0, k))))))))))
