-- ===== src/Kernel/Migration/Carried.antt =====
-- What arrives with a task that migrates: the requests for it, its registers and its real-time
-- parameters.
use mmemphis.Base.{
  get_or-take, length-take, ℕ, zero, suc, ◌+◌, ◌/◌, ◌≤◌, ◌<◌, ◌≡◌, refl, ◌≢◌, inl, inr, true, false,
  some, List, [], ◌∷◌, arith, ◌==◌, if◌then◌else◌, ==-eq, eq-==, Bool-cases, Option-cases, length,
  get_elem?, get_or, modify, take, length-modify, get_elem?-modify_self, replace?, count, bit,
  replace?-none, count-replace?, NoneOf-count, minus_one, add32, sub32, mul32, done, run_found,
  run_if,
}
use mmemphis.Tcb.{Tcb, Scheduling}
use mmemphis.Scheduler.{real_time_task, next_ready}
use mmemphis.Requests.{
  MessageRequest, is_free, matches, insert_message_request, remove_all_requested_msgs,
}
use mmemphis.Requests.Lookup.{requests}
use mmemphis.Requests.Migrate.{requested_of, remove_all_requested_msgs_lem}
use mmemphis.Packet.{ServiceHeader}
use mmemphis.Kernel.{Kernel, on_tcb, hal_get_tick}
use mmemphis.Kernel.Migration.{tcb_header, tcb_registers}
use mmemphis.Kernel.Migration.Target.{insert_requests, handle_migration_tcb, set_real_time}

-- An insertion takes one free entry at most, and finds one.
insert-room :
    (p c proc n : ℕ) (table : List MessageRequest)
    → n + 1 ≤ count is_free table
    → (n ≤ count is_free (insert_message_request p c proc table).1)
      × ((c' : ℕ)
          → c' ≢ minus_one
          → requests p c' (insert_message_request p c proc table).1
            ≡ requests p c' table + bit (c == c'))
unfolding insert_message_request
insert-room p c proc n table room = elim (Option-cases (replace? is_free (λ _. entry) table)) [
  | inl e ↦
      absurd
        (omega (arith, NoneOf-count is_free table (replace?-none is_free (λ _. entry) table e)))
  | inr (table', e) ↦
      rw (e, insert_message_request)
        (
          elim (Bool-cases (c == minus_one)) [
            | inl y ↦ omega (
              arith,
              count-replace? is_free (λ _. entry) is_free true true table (λ x f. f) (λ x f. y) e,
            )
            | inr y ↦ omega (
              arith,
              count-replace? is_free (λ _. entry) is_free true false table (λ x f. f) (λ x f. y) e,
            )
          ],
          λ c' d. elim (Bool-cases (c == c')) [
            | inl y ↦ rw y (
                omega (
                  arith,
                  count-replace? is_free (λ _. entry) (matches p c') false true table
                      (λ x f. ground arith) (λ x f. ground arith) e,
                ))
            | inr y ↦ rw y (
                omega (
                  arith,
                  count-replace? is_free (λ _. entry) (matches p c') false false table
                      (λ x f. ground arith) (λ x f. ground arith) e,
                ))
          ],
        )
]
  where
    entry : MessageRequest
    entry = record { requester = c; requested = p; requester_proc = proc }

insert_requests-counted :
    (t c : ℕ) (src dst : List MessageRequest)
    → c ≢ minus_one
    → count (requested_of t) src ≤ count is_free dst
    → requests t c
        (insert_requests (count (requested_of t) src) t (remove_all_requested_msgs t src).0 dst)
      ≡ requests t c src + requests t c dst
unfolding insert_requests remove_all_requested_msgs count
insert_requests-counted t c [] dst d room = omega arith
insert_requests-counted t c (e ∷ src) dst d room = elim (Bool-cases (e.requested == t)) [
  | inl y ↦
      let dst' = (insert_message_request e.requested e.requester e.requester_proc dst).1 in
      let (left, more) =
        insert-room e.requested e.requester e.requester_proc (count (requested_of t) src) dst
          (ground (arith, y, room)) in
      let one : 1 + count (requested_of t) src ≡ suc (count (requested_of t) src) = omega arith in
      let rest = insert_requests-counted t c src dst' d left in
      ground (arith, y, one, rest, more c d, ==-eq e.requested t y)
  | inr n ↦ ground (arith, n, insert_requests-counted t c src dst d (ground (arith, n, room)))
]

-- Where the table of the processor that a task other than -1 comes to has a free entry for each
-- request to it in the table that it leaves, the words taken out of the one and put into the other
-- carry every request over: for each consumer other than -1, the number of its requests to the task
-- is the sum of those in both tables.
pub insert_requests-requests :
    (t c : ℕ) (src dst : List MessageRequest)
    → t ≢ minus_one
    → c ≢ minus_one
    → count (requested_of t) src ≤ count is_free dst
    → let (words, _) = remove_all_requested_msgs t src in
      requests t c (insert_requests (length words / 3) t words dst)
      ≡ requests t c src + requests t c dst
insert_requests-requests t c src dst m d room =
    let long = (remove_all_requested_msgs_lem t src m).1 in
    let third : length (remove_all_requested_msgs t src).0 / 3 ≡ count (requested_of t) src =
      omega (arith, long) in
    rw third (insert_requests-counted t c src dst d room)

get_or-modify :
    (xs : List ℕ) (i j d : ℕ) (f : ℕ → ℕ)
    → i < length xs
    → get_or (modify xs j f) i d ≡ (if i == j then f (get_or xs i d) else get_or xs i d)
get_or-modify [] i j d f h = absurd (omega arith)
get_or-modify (x ∷ xs) zero zero d f h = ground arith
get_or-modify (x ∷ xs) zero (suc j) d f h = ground arith
get_or-modify (x ∷ xs) (suc i) zero d f h = ground arith
get_or-modify (x ∷ xs) (suc i) (suc j) d f h =
    let rest = get_or-modify xs i j d f (omega arith) in ground (arith, rest)

-- What arrives in the registers: register 27 is an address of the page.
get_or-registers :
    (i offset : ℕ) (t : Tcb)
    → i < 30
    → i < length t.reg
    → get_or (modify (take 30 (tcb_registers t)) 27 (λ r. add32 r offset)) i 0
      ≡ (let r = get_or t.reg i 0 in if i == 27 then add32 (sub32 r t.offset) offset else r)
unfolding tcb_registers
get_or-registers i offset t l m =
    let moved = modify t.reg 27 (λ r. sub32 r t.offset) in
    let long : i < length moved =
      omega (arith, m, length-modify t.reg 27 (λ r. sub32 r t.offset)) in
    let here =
      get_or-modify (take 30 (take 30 moved)) i 27 0 (λ r. add32 r offset)
        (length-take 30 i (take 30 moved) l (length-take 30 i moved l long)) in
    let once = get_or-take 30 i 0 (take 30 moved) l in
    let twice = get_or-take 30 i 0 moved l in
    let there = get_or-modify t.reg i 27 0 (λ r. sub32 r t.offset) m in
    ground (arith, here, once, twice, there)

-- Of a best-effort task that comes to a processor with a block for it, the program counter and
-- register 27 point to the same place of the new page as they did of the old one, modulo 2 ^ 32,
-- and the other registers below 30 are as they were.
pub handle_migration_tcb-tcb_header :
    (processor i j : ℕ) (old : ServiceHeader) (t target : Tcb) (k : Kernel)
    → t.scheduling.period ≡ 0
    → get_elem? k.scheduler.tcbs j ≡ some target
    → i < 30
    → i < length t.reg
    → (k' : Kernel) × (u : Tcb) × (handle_migration_tcb
          (tcb_header processor t old)
          (tcb_registers t)
          j
          k
        ≡ done k')
      × (get_elem? k'.scheduler.tcbs j ≡ some u)
      × (u.pc ≡ add32 (sub32 t.pc t.offset) target.offset)
      × (get_or u.reg i 0 ≡ (
          let r = get_or t.reg i 0 in
          if i == 27 then add32 (sub32 r t.offset) target.offset else r))
unfolding handle_migration_tcb tcb_header
handle_migration_tcb-tcb_header processor i j old t target k best_effort at l m =
    let regs = modify (take 30 (tcb_registers t)) 27 (λ r. add32 r target.offset) in
    let set_registers =
      λ (u : Tcb). record u { pc = add32 (sub32 t.pc t.offset) target.offset; reg = regs } in
    (
      on_tcb j set_registers k,
      set_registers target,
      rw (at, eq-== t.scheduling.period 0 best_effort) refl,
      get_elem?-modify_self k.scheduler.tcbs j set_registers at,
      refl,
      get_or-registers i target.offset t l m,
    )

real_time_task-parameters :
    (c p d e cpu cpu' : ℕ) (s s' : Scheduling)
    → real_time_task c p d e cpu s ≡ some (cpu', s')
    → (s'.period ≡ p) × (s'.deadline ≡ d) × (s'.execution_time ≡ e)
unfolding real_time_task
real_time_task-parameters c p d e cpu cpu' s s' h =
    elim (Option-cases (next_ready 2 p c (mul32 (c / p) p))) [
      | inl n ↦ ground (arith, n, h)
      | inr (r, n) ↦ ground (arith, n, h)
    ]

set_real_time-parameters :
    (p : ServiceHeader) (j : ℕ) (k k' : Kernel) (u : Tcb)
    → set_real_time p j k ≡ done k'
    → get_elem? k'.scheduler.tcbs j ≡ some u
    → (u.scheduling.period ≡ p.consumer_task)
      × (u.scheduling.deadline ≡ p.code_size)
      × (u.scheduling.execution_time ≡ p.code_size)
unfolding set_real_time
set_real_time-parameters p j k k' u h at = run_found (get_elem? k.scheduler.tcbs j) _ h (λ t g h1.
    run_found
      (real_time_task (hal_get_tick k) p.consumer_task p.code_size p.code_size
        k.scheduler.cpu_utilization t.scheduling)
      _ h1
      (λ r e h2.
        let set_to = λ (t : Tcb). record t { scheduling = r.1 } in
        let there = get_elem?-modify_self k.scheduler.tcbs j set_to g in
        let table : k'.scheduler.tcbs ≡ modify k.scheduler.tcbs j set_to = ground (arith, h2) in
        let same : u ≡ set_to t = cc (table, there, at) in
        rw same (
          real_time_task-parameters (hal_get_tick k) p.consumer_task p.code_size p.code_size
            k.scheduler.cpu_utilization r.0 t.scheduling r.1 e)))

-- A real-time task that has come to another processor has its period and its execution time, but
-- its deadline is its execution time too.
pub handle_migration_tcb-deadline :
    (processor j : ℕ) (old : ServiceHeader) (t u : Tcb) (k k' : Kernel)
    → t.scheduling.period ≢ 0
    → handle_migration_tcb (tcb_header processor t old) (tcb_registers t) j k ≡ done k'
    → get_elem? k'.scheduler.tcbs j ≡ some u
    → (u.scheduling.period ≡ t.scheduling.period)
      × (u.scheduling.deadline ≡ t.scheduling.execution_time)
      × (u.scheduling.execution_time ≡ t.scheduling.execution_time)
unfolding handle_migration_tcb tcb_header
handle_migration_tcb-deadline processor j old t u k k' real h at =
    run_found (get_elem? k.scheduler.tcbs j) _ h (λ target g h1.
      elim (run_if (t.scheduling.period == 0) h1) [
        | inl (y, _) ↦ absurd (real (==-eq t.scheduling.period 0 y))
        | inr (_, h2) ↦ set_real_time-parameters (tcb_header processor t old) j _ k' u h2 at
      ])
