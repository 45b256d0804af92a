-- ===== src/Mapper/Applications/Status.antt =====
-- Which application is served next, and which tasks are allocated.
use mmemphis.Base.{
  take, loop_bound, ℕ, zero, suc, ◌+◌, ◌%◌, ◌^◌, ◌≤◌, ◌≡◌, refl, sym, ap, ◌∙◌, ◌≢◌, ◌⊎◌, inl, inr,
  Bool, true, not, ◌&&◌, none, some, List, [], ◌∷◌, arith, ◌==◌, ==-eq, Bool-cases, get_elem?,
  count, NoneOf, word_mod, slt, done, hangs,
}
use mmemphis.Mapper.Applications.{
  Application, Task, waiting_reclustering, allocated, older_app, get_next_pending_app,
  allocate_from, set_task_allocated,
}

abbrev pub is_waiting : Application → Bool
is_waiting a = a.status == waiting_reclustering

-- An identifier's rank among the `int`s.
abbrev pub rank : ℕ → ℕ
rank a = (a + 2 ^ 31) % word_mod

-- No application that waits has a smaller identifier.
abbrev pub Oldest : ℕ → List Application → Type 0
Oldest r [] = Unit {0}
Oldest r (a ∷ applications) = (is_waiting a ≡ true → r ≤ rank a.app_id) × Oldest r applications

older_app-best :
    (i j s : ℕ) (apps : List Application)
    → ((older_app i (some (j, s)) apps ≡ some (j, s)) × Oldest (rank s) apps)
      ⊎ ((k : ℕ) × (a : Application) × (older_app i (some (j, s)) apps ≡ some (i + k, a.app_id))
          × (get_elem? apps k ≡ some a)
          × (is_waiting a ≡ true)
          × (rank a.app_id ≤ rank s)
          × Oldest (rank a.app_id) apps)
unfolding older_app
older_app-best i j s [] = inl (refl, tt)
older_app-best i j s (a ∷ apps) = elim (Bool-cases (is_waiting a && slt a.app_id s)) [
  | inl less ↦ elim (older_app-best (i + 1) i a.app_id apps) [
    | inl (e, o) ↦
        inr (
          0,
          a,
          rw less (e ∙ ground arith),
          refl,
          ground arith,
          ground arith,
          (λ _. omega arith, o),
        )
    | inr (k, u, e, g, r, l, o) ↦
        inr (suc k, u, rw less (e ∙ ground arith), g, r, ground arith, (λ _. l, o))
  ]
  | inr not_less ↦ elim (older_app-best (i + 1) j s apps) [
    | inl (e, o) ↦ inl (rw not_less e, (λ r. ground arith, o))
    | inr (k, u, e, g, r, l, o) ↦
        inr (suc k, u, rw not_less (e ∙ ground arith), g, r, l, (λ q. ground arith, o))
  ]
]

older_app_lem :
    (i : ℕ) (apps : List Application)
    → ((older_app i none apps ≡ none) × NoneOf is_waiting apps)
      ⊎ ((k : ℕ) × (a : Application) × (older_app i none apps ≡ some (i + k, a.app_id))
          × (get_elem? apps k ≡ some a)
          × (is_waiting a ≡ true)
          × Oldest (rank a.app_id) apps)
unfolding older_app
older_app_lem i [] = inl (refl, tt)
older_app_lem i (a ∷ apps) = elim (Bool-cases (is_waiting a)) [
  | inl r ↦ elim (older_app-best (i + 1) i a.app_id apps) [
    | inl (e, o) ↦ inr (0, a, rw (r, older_app) (e ∙ ground arith), refl, r, (λ _. omega arith, o))
    | inr (k, u, e, g, q, l, o) ↦
        inr (suc k, u, rw (r, older_app) (e ∙ ground arith), g, q, (λ _. l, o))
  ]
  | inr r ↦ elim (older_app_lem (i + 1) apps) [
    | inl (e, o) ↦ inl (rw (r, older_app) e, (r, o))
    | inr (k, u, e, g, q, o) ↦
        inr (suc k, u, rw (r, older_app) (e ∙ ground arith), g, q, (λ y. cc (r, y), o))
  ]
]

-- The application that is served next waits for reclustering and has the smallest identifier, as an
-- `int`, of all that wait; the search spins only where none waits.
pub get_next_pending_app-Oldest :
    (apps : List Application)
    → ((get_next_pending_app apps ≡ hangs) × NoneOf is_waiting apps)
      ⊎ ((k : ℕ) × (a : Application) × (get_next_pending_app apps ≡ done k)
          × (get_elem? apps k ≡ some a)
          × (is_waiting a ≡ true)
          × Oldest (rank a.app_id) apps)
unfolding get_next_pending_app
get_next_pending_app-Oldest apps = elim (older_app_lem 0 apps) [
  | inl (e, o) ↦ inl (rw (e, get_next_pending_app) refl, o)
  | inr (k, a, e, g, q, o) ↦
      inr (k, a, rw (e, get_next_pending_app) (ap done (omega arith)), g, q, o)
]

abbrev pub is_allocated : Task → Bool
is_allocated t = t.status == allocated

-- Every other task keeps its entry.
pub Kept : ℕ → List Task → List Task → Type 0
Kept task_id xs ys =
    (i : ℕ) (t : Task) → get_elem? xs i ≡ some t → t.id ≢ task_id → get_elem? ys i ≡ some t

Kept-cons :
    (task_id : ℕ) (x y : Task) (xs ys : List Task)
    → (x ≡ y) ⊎ (x.id ≡ task_id)
    → Kept task_id xs ys
    → Kept task_id (x ∷ xs) (y ∷ ys)
unfolding Kept
Kept-cons task_id x y xs ys (inl e) k zero t g d = ap some (sym e) ∙ g
Kept-cons task_id x y xs ys (inr e) k zero t g d = absurd (d (sym (head_id g) ∙ e))
  where
    head_id : some x ≡ some t → x.id ≡ t.id
    head_id h = ground arith
Kept-cons task_id x y xs ys o k (suc i) t g d = k i t g d

allocate_from_lem :
    (n task_id : ℕ) (tasks : List Task)
    → let (tasks', k) = allocate_from n task_id tasks in
      (k ≡ count is_allocated (take n tasks'))
      × NoneOf (λ t. t.id == task_id && not (is_allocated t)) (take n tasks')
      × Kept task_id tasks tasks'
unfolding allocate_from count Kept
allocate_from_lem n task_id [] = (refl, tt, λ i t e d. e)
allocate_from_lem zero task_id (t ∷ tasks) = (refl, tt, λ i t e d. e)
allocate_from_lem (suc n) task_id (t ∷ tasks) =
    let (k, all, kept) = allocate_from_lem n task_id tasks in
    elim (Bool-cases (t.id == task_id)) [
      | inl e ↦
          rw (e, allocate_from)
            (
              ground (arith, k),
              (ground (arith, e), all),
              Kept-cons task_id t _ tasks _ (inr (==-eq _ _ e)) kept,
            )
      | inr e ↦
          rw (e, allocate_from)
            (
              ground (arith, k),
              (ground (arith, e), all),
              Kept-cons task_id t t tasks _ (inl refl) kept,
            )
    ]

-- Setting a task allocated returns the number of allocated tasks, of those in use, after it; each
-- task in use with that identifier is then allocated; and every other task keeps its entry.
pub set_task_allocated_lem :
    (app : Application) (task_id : ℕ)
    → let (app', n) = set_task_allocated app task_id in
      let used = take (loop_bound app.tasks_number) app'.tasks in
      (n ≡ count is_allocated used)
      × NoneOf (λ t. t.id == task_id && not (is_allocated t)) used
      × Kept task_id app.tasks app'.tasks
unfolding set_task_allocated
set_task_allocated_lem app task_id =
    allocate_from_lem (loop_bound app.tasks_number) task_id app.tasks
