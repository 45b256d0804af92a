-- ===== src/Kernel/Tasks/Release.antt =====
-- A task that its manager releases may run, and knows where the tasks of its application are.
use mmemphis.Base.{
  ℕ, zero, suc, ◌+◌, ◌-◌, ◌*◌, ◌/◌, ◌^◌, ◌≤◌, ◌<◌, ◌≡◌, refl, ◌∙◌, ◌≢◌, some, List, [], ◌∷◌, arith,
  length, get_elem?, take, get_elem?-modify_self, minus_one, sub32, done, run_through, run_found,
  pack8, pack8_lem,
}
use mmemphis.Tcb.{Tcb, blocked, search_tcb}
use mmemphis.Locations.{TaskLocation, get_task_location, add_task_location}
use mmemphis.Locations.Laws.{add_task_location-get}
use mmemphis.Packet.{ServiceHeader}
use mmemphis.Kernel.{Kernel}
use mmemphis.Kernel.Tasks.{add_locations, release_task, released, set_task_release}

-- Locations that are added later leave the one of a task before them.
add_locations-before :
    (app i u : ℕ) (ws : List ℕ) (table table' : List TaskLocation)
    → app < 2 ^ 24 - 1
    → i + length ws ≤ 256
    → u < app * 256 + i
    → add_locations app i ws table ≡ done table'
    → get_task_location u table' ≡ get_task_location u table
unfolding add_locations
add_locations-before app i u [] table table' a l h e = ground (arith, e)
add_locations-before app i u (w ∷ ws) table table' a l h e =
    let at : pack8 app i ≡ app * 256 + i = pack8_lem app i (omega arith) (omega arith) in
    run_through (add_task_location (pack8 app i) w table) _ e (λ table1 e1 h1.
      let kept =
        (add_task_location-get (pack8 app i) w table (omega (arith, at)) e1).1 u (omega (arith, at))
          (omega arith) in
      add_locations-before app (i + 1) u ws table1 table' a (omega (arith, l)) (omega arith) h1
      ∙ kept)

add_locations-get :
    (app i j w : ℕ) (ws : List ℕ) (table table' : List TaskLocation)
    → app < 2 ^ 24 - 1
    → i + length ws ≤ 256
    → get_elem? ws j ≡ some w
    → add_locations app i ws table ≡ done table'
    → get_task_location (app * 256 + i + j) table' ≡ w
unfolding add_locations
add_locations-get app i j w [] table table' a l g e = absurd (cc g)
add_locations-get app i zero w (x ∷ ws) table table' a l g e =
    let at : pack8 app i ≡ app * 256 + i = pack8_lem app i (omega arith) (omega arith) in
    run_through (add_task_location (pack8 app i) x table) _ e (λ table1 e1 h1.
      let new = (add_task_location-get (pack8 app i) x table (omega (arith, at)) e1).0 in
      let kept =
        add_locations-before app (i + 1) (app * 256 + i) ws table1 table' a (omega (arith, l))
          (omega arith) h1 in
      let same : app * 256 + i + 0 ≡ app * 256 + i = omega arith in
      ground (arith, same, kept, at, new, g))
add_locations-get app i (suc j) w (x ∷ ws) table table' a l g e =
    run_through (add_task_location (pack8 app i) x table) _ e (λ table1 e1 h1.
      let same : app * 256 + i + suc j ≡ app * 256 + (i + 1) + j = omega arith in
      rw same (add_locations-get app (i + 1) j w ws table1 table' a (omega (arith, l)) g h1))

take-short : (n : ℕ) (ws : List ℕ) → length (take n ws) ≤ n
take-short n [] = omega arith
take-short zero (w ∷ ws) = omega arith
take-short (suc n) (w ∷ ws) = omega (arith, take-short n ws)

-- Where a task below -1 - 256 is released by a packet that locates at most 256 tasks, and the
-- release returns, the location of each task of its application is the packet's, and the task's
-- block is not blocked, with the packet's sizes of its sections and the length of its text without
-- the data.
pub set_task_release_lem :
    (p : ServiceHeader) (payload : List ℕ) (j w : ℕ) (k k' : Kernel)
    → p.producer_task < minus_one - 256
    → p.msg_lenght ≤ 256
    → get_elem? (take p.msg_lenght payload) j ≡ some w
    → set_task_release p payload k ≡ done k'
    → (get_task_location (p.producer_task / 256 * 256 + j) k'.locations ≡ w)
      × (i : ℕ) × (t : Tcb) × (search_tcb p.producer_task k.scheduler.tcbs ≡ some i)
      × (get_elem? k.scheduler.tcbs i ≡ some t)
      × (u : Tcb) × (get_elem? k'.scheduler.tcbs i ≡ some u)
      × (u.scheduling.status ≢ blocked)
      × (u.text_lenght ≡ sub32 t.text_lenght p.pkt_size)
      × (u.data_lenght ≡ p.pkt_size)
      × (u.bss_lenght ≡ p.bss_size)
unfolding set_task_release release_task
set_task_release_lem p payload j w k k' small few g h =
    let locs = take p.msg_lenght payload in
    run_found (search_tcb p.producer_task k.scheduler.tcbs) _ h (λ i s h1.
      run_found (get_elem? k.scheduler.tcbs i) _ h1 (λ t at h2.
        run_through (add_locations (p.producer_task / 256) 0 locs k.locations) _ h2 (λ table e h3.
          let there =
            get_elem?-modify_self k.scheduler.tcbs i (released p.pkt_size p.bss_size) at in
          let short : length locs ≤ 256 = omega (arith, few, take-short p.msg_lenght payload) in
          let located =
            add_locations-get (p.producer_task / 256) 0 j w locs k.locations table (omega arith)
              (omega (arith, short)) g e in
          let zero_in : p.producer_task / 256 * 256 + 0 + j ≡ p.producer_task / 256 * 256 + j =
            omega arith in
          (
            ground (arith, h3, zero_in, located),
            i,
            t,
            s,
            at,
            released p.pkt_size p.bss_size t,
            ground (arith, h3, there),
            λ e. ground arith,
            refl,
            refl,
            refl,
          ))))
