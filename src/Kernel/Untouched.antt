-- ===== src/Kernel/Untouched.antt =====
-- What the protocols of circuits and migration leave alone: the words of the tasks' pages.
use mmemphis.Base.{
  ℕ, ◌/◌, ◌%◌, ◌^◌, ◌≡◌, inl, inr, not, arith, ◌==◌, if◌then◌else◌, get_elem?, minus_one, done,
  hangs, run_through, run_found, run_if,
}
use mmemphis.Locations.{remove_task_location, add_task_location}
use mmemphis.Ctp.{add_ctp, remove_ctp, get_subnet, dmni_receive_op}
use mmemphis.Kernel.{Kernel, send_packet}
use mmemphis.Kernel.Circuits.{
  check_ctp_reconfiguration, add_ctp_online, remove_ctp_online, known_location,
}
use mmemphis.Kernel.Migration.{
  migrate_dynamic_memory, send_locations, send_requests, send_pages, send_task_migrated,
}

add_ctp_online-memory :
    (i : ℕ) (k k' : Kernel) → add_ctp_online i k ≡ done k' → k'.memory ≡ k.memory
unfolding add_ctp_online send_packet
add_ctp_online-memory i k k' h = run_found (get_elem? k.scheduler.tcbs i) _ h (λ t _ h1.
    run_through (add_ctp (t.add_ctp % 2 ^ 16) t.id dmni_receive_op (t.add_ctp / 2 ^ 16) k.ctps) _ h1
      (λ r _ h2.
        run_through (known_location (t.add_ctp % 2 ^ 16) k) _ h2 (λ a _ h3. ground (arith, h3))))

remove_ctp_online-memory :
    (i : ℕ) (k k' : Kernel) → remove_ctp_online i k ≡ done k' → k'.memory ≡ k.memory
unfolding remove_ctp_online send_packet
remove_ctp_online-memory i k k' h = run_found (get_elem? k.scheduler.tcbs i) _ h (λ t _ h1.
    let subnet = get_subnet t.remove_ctp t.id dmni_receive_op k.ctps in
    run_through (if subnet == minus_one then hangs else done subnet) _ h1 (λ s _ h2.
      run_through (known_location t.remove_ctp k) _ h2 (λ a _ h3.
        run_through (remove_ctp s dmni_receive_op k.ctps) _ h3 (λ r _ h4. ground (arith, h4)))))

pub check_ctp_reconfiguration-memory :
    (i : ℕ) (k k' : Kernel) → check_ctp_reconfiguration i k ≡ done k' → k'.memory ≡ k.memory
unfolding check_ctp_reconfiguration
check_ctp_reconfiguration-memory i k k' h = run_found (get_elem? k.scheduler.tcbs i) _ h (λ t _ h1.
    elim (run_if (not (t.add_ctp == 0)) h1) [
      | inl (_, h2) ↦ add_ctp_online-memory i k k' h2
      | inr (_, h2) ↦ elim (run_if (not (t.remove_ctp == 0)) h2) [
        | inl (_, h3) ↦ remove_ctp_online-memory i k k' h3
        | inr (_, h3) ↦ ground (arith, h3)
      ]
    ])

send_locations-memory :
    (p id : ℕ) (k k' : Kernel) → send_locations p id k ≡ done k' → k'.memory ≡ k.memory
unfolding send_locations send_packet
send_locations-memory p id k k' h =
    run_through (remove_task_location id k.locations) _ h
      (λ r _ h1. run_through (add_task_location id p r.1) _ h1 (λ table _ h2. ground (arith, h2)))

send_requests-memory : (p id : ℕ) (k : Kernel) → (send_requests p id k).memory ≡ k.memory
unfolding send_requests send_packet
send_requests-memory p id k = ground arith

pub migrate_dynamic_memory-memory :
    (i : ℕ) (k k' : Kernel) → migrate_dynamic_memory i k ≡ done k' → k'.memory ≡ k.memory
unfolding migrate_dynamic_memory send_packet send_pages send_task_migrated
migrate_dynamic_memory-memory i k k' h = run_found (get_elem? k.scheduler.tcbs i) _ h (λ t _ h1.
    run_through (send_locations t.proc_to_migrate t.id _) _ h1 (λ k3 e h2. ground (
      arith,
      h2,
      send_locations-memory t.proc_to_migrate t.id _ k3 e,
      send_requests-memory t.proc_to_migrate t.id k3,
    )))
