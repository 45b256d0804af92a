-- ===== src/Mapper/Local/Release.antt =====
-- The message by which a local mapper releases a task, as the kernel of the task's processor reads
-- it.
use mmemphis.Base.{
  ℕ, zero, suc, ◌+◌, ◌-◌, ◌*◌, ◌/◌, ◌≤◌, ◌<◌, ◌≡◌, refl, ap, ◌∙◌, ◌≢◌, inl, inr, some, List, [],
  ◌∷◌, ◌++◌, map, arith, ◌==◌, Bool-cases, length, get_elem?, get_or, take, minus_one, Outcome,
  done, get_or-take, length-take,
}
use mmemphis.Tcb.{Tcb, blocked}
use mmemphis.Locations.{get_task_location}
use mmemphis.Packet.{ServiceHeader}
use mmemphis.Kernel.{Kernel}
use mmemphis.Kernel.Tasks.{set_task_release}
use mmemphis.Kernel.Tasks.Release.{set_task_release_lem}
use mmemphis.Mapper.Applications.{Application, Task}
use mmemphis.Mapper.Local.{
  LocalMapper, Sending, put, release_from, tasks_of, locations, get_message_slot, send_by_slot,
  send_task_release,
}
use mmemphis.Mapper.Local.Message.{Says, words_of, length-put, put-inside, release_from-Says}

drop : ℕ → List ℕ → List ℕ
drop zero words = words
drop (suc n) [] = []
drop (suc n) (w ∷ words) = drop n words

get_or-drop : (n j : ℕ) (words : List ℕ) → get_or (drop n words) j 0 ≡ get_or words (n + j) 0
unfolding drop
get_or-drop zero j words = ap (λ (q : ℕ). get_or words q 0) (omega arith)
get_or-drop (suc n) j [] = refl
get_or-drop (suc n) j (w ∷ words) =
    let at : suc n + j ≡ suc (n + j) = omega arith in rw at (get_or-drop n j words)

length-drop : (n j : ℕ) (words : List ℕ) → n + j < length words → j < length (drop n words)
unfolding drop
length-drop zero j words h = omega (arith, h)
length-drop (suc n) j [] h = absurd (omega arith)
length-drop (suc n) j (w ∷ words) h = length-drop n j words (omega arith)

-- The packet of these words, as a kernel takes it.
unfoldable pub header_of : List ℕ → ServiceHeader
header_of words = record {
  header = get_or words 0 0;
  payload_size = get_or words 1 0;
  service = get_or words 2 0;
  producer_task = get_or words 3 0;
  consumer_task = get_or words 4 0;
  source_pe = get_or words 5 0;
  timestamp = get_or words 6 0;
  cpu_slack_time = get_or words 7 0;
  msg_lenght = get_or words 8 0;
  pkt_size = get_or words 9 0;
  code_size = get_or words 10 0;
  bss_size = get_or words 11 0;
  initial_address = get_or words 12 0;
}

unfoldable pub take_release : List ℕ → Kernel → Outcome Kernel
unfolding drop
take_release words k = set_task_release (header_of words) (drop 13 words) k

get_elem?-append :
    {A : Type 0} (xs ys : List A) (i : ℕ) → get_elem? (xs ++ ys) (length xs + i) ≡ get_elem? ys i
get_elem?-append [] ys i = ap (λ (q : ℕ). get_elem? ys q) (omega arith)
get_elem?-append (x ∷ xs) ys i =
    let at : suc (length xs) + i ≡ suc (length xs + i) = omega arith in
    rw at (get_elem?-append xs ys i)

get_elem?-get_or : (xs : List ℕ) (j : ℕ) → j < length xs → get_elem? xs j ≡ some (get_or xs j 0)
get_elem?-get_or [] j h = absurd (omega arith)
get_elem?-get_or (x ∷ xs) zero h = refl
get_elem?-get_or (x ∷ xs) (suc j) h = get_elem?-get_or xs j (omega arith)

length-map : (tasks : List Task) → length (map (λ t. t.allocated_proc) tasks) ≡ length tasks
length-map [] = refl
length-map (t ∷ tasks) = ap suc (length-map tasks)

get_or-locations :
    (tasks : List Task) (j : ℕ) (u : Task)
    → get_elem? tasks j ≡ some u
    → (get_or (map (λ t. t.allocated_proc) tasks) j 0 ≡ u.allocated_proc)
      × (j < length tasks)
      × (length (map (λ (t : Task). t.allocated_proc) tasks) ≡ length tasks)
get_or-locations [] j u g = absurd (cc g)
get_or-locations (t ∷ tasks) zero u g = (ground arith, omega arith, length-map (t ∷ tasks))
get_or-locations (t ∷ tasks) (suc j) u g =
    let (a, b, c) = get_or-locations tasks j u g in (a, omega (arith, b), ap suc c)

-- The task at a kernel is released with the sizes of its sections.
abbrev pub Released : Task → Kernel → Type 0
Released t k =
    (i : ℕ) × (b : Tcb) × (get_elem? k.scheduler.tcbs i ≡ some b)
    × (b.scheduling.status ≢ blocked)
    × (b.data_lenght ≡ t.data_size)
    × (b.bss_lenght ≡ t.bss_size)

-- What a kernel does with a message that says what it should.
take_release-Says :
    (n j : ℕ) (t u : Task) (tasks : List Task) (message words : List ℕ) (k k' : Kernel)
    → n ≡ length tasks
    → n ≤ 256
    → 13 + n ≤ length message
    → get_elem? tasks j ≡ some u
    → t.id < minus_one - 256
    → Says n t (put 13 (map (λ t. t.allocated_proc) tasks) message) words
    → take_release (take (13 + n) words) k ≡ done k'
    → (get_task_location (t.id / 256 * 256 + j) k'.locations ≡ u.allocated_proc) × Released t k'
unfolding take_release header_of
take_release-Says n j t u tasks message words k k' all few room g small says h =
    let locs = map (λ (t : Task). t.allocated_proc) tasks in
    let size = 13 + n in
    let arrived = take size words in
    let (at, inside, long) = get_or-locations tasks j u g in
    let long_words : length words ≡ length message = says.long ∙ length-put 13 locs message in
    let id : get_or arrived 3 0 ≡ t.id = get_or-take size 3 0 words (omega arith) ∙ says.task in
    let number : get_or arrived 8 0 ≡ n = get_or-take size 8 0 words (omega arith) ∙ says.number in
    let payload = drop 13 arrived in
    let enough = length-drop 13 j arrived (
      length-take size (13 + j) words (omega (arith, inside))
        (omega (arith, long_words, inside))) in
    let word : get_or (take n payload) j 0 ≡ u.allocated_proc =
      get_or-take n j 0 payload (omega (arith, inside))
      ∙ get_or-drop 13 j arrived
      ∙ get_or-take size (13 + j) 0 words (omega (arith, inside))
      ∙ says.rest (13 + j) (omega arith)
      ∙ put-inside 13 j locs message (omega (arith, long, inside)) (omega (arith, inside))
      ∙ at in
    let found : get_elem? (take n payload) j ≡ some u.allocated_proc =
      get_elem?-get_or (take n payload) j (length-take n j payload (omega (arith, inside)) enough)
      ∙ ap some word in
    let size_word : get_or arrived 9 0 ≡ t.data_size =
      get_or-take size 9 0 words (omega arith) ∙ says.size in
    let bss_word : get_or arrived 11 0 ≡ t.bss_size =
      get_or-take size 11 0 words (omega arith) ∙ says.bss in
    let (located, i, _, _, _, b, block, free_now, _, data_is, bss_is) =
      set_task_release_lem (header_of arrived) payload j u.allocated_proc k k' (omega (arith, id))
        (omega (arith, number)) (rw number found) h in
    (rw (← id) located, (i, b, block, free_now, data_is ∙ size_word, bss_is ∙ bss_word))

slot_room :
    (n : ℕ) (m : LocalMapper)
    → n ≤ length m.slot1
    → n ≤ length m.slot2
    → n ≤ length (get_message_slot m).1
unfolding get_message_slot
slot_room n m h1 h2 = elim (Bool-cases (m.slots.status1 == 0)) [ inl e ↦ rw e h2 | inr e ↦ rw e h1 ]

-- Where an application's number of tasks is at most 256, and is that of its tasks' entries, and
-- both message slots hold the header and the locations, the message that the local mapper sends for
-- one of its tasks, below -1 - 256, releases that task at the kernel that takes it, where that
-- returns: the task has the sizes of its sections and is not blocked, and the location of each task
-- of the application is the processor that it was mapped to.
pub send_task_release-set_task_release :
    (app : Application) (m : LocalMapper) (i j : ℕ) (t u : Task) (x : Sending) (k k' : Kernel)
    → app.tasks_number ≡ length (tasks_of app)
    → app.tasks_number ≤ 256
    → 13 + app.tasks_number ≤ length m.slot1
    → 13 + app.tasks_number ≤ length m.slot2
    → get_elem? (tasks_of app) i ≡ some t
    → get_elem? (tasks_of app) j ≡ some u
    → t.id < minus_one - 256
    → get_elem? (send_task_release app m).sent (length m.sent + i) ≡ some x
    → take_release (words_of x) k ≡ done k'
    → (get_task_location (t.id / 256 * 256 + j) k'.locations ≡ u.allocated_proc) × Released t k'
unfolding send_task_release send_by_slot
send_task_release-set_task_release app m i j t u x k k' all few room1 room2 gi gj small at h =
    let old = (get_message_slot m).1 in
    let room : 13 + app.tasks_number ≤ length old =
      slot_room (13 + app.tasks_number) m room1 room2 in
    let message = put 13 (locations app) old in
    let size = 13 + length (tasks_of app) in
    let out = (release_from m.net_address size app.tasks_number (tasks_of app) message).0 in
    let (y, words, e, w, says) =
      release_from-Says m.net_address size app.tasks_number i t (tasks_of app) message
        (omega (arith, room, length-put 13 (locations app) old)) gi in
    let same : x ≡ y = cc (at, e, get_elem?-append m.sent out i) in
    let size_is : size ≡ 13 + app.tasks_number = omega (arith, all) in
    let taken : take_release (take (13 + app.tasks_number) words) k ≡ done k' =
      rw (← size_is, ← w, ← same) h in
    take_release-Says app.tasks_number j t u (tasks_of app) old words k k' all few room gj small
      says taken
