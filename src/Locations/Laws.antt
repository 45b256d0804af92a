-- ===== src/Locations/Laws.antt =====
-- The location table is a map from tasks to processors.
use mmemphis.Base.{
  NoneOf-of-map, ℕ, ◌≤◌, ◌≡◌, refl, ap, ◌≢◌, ◌⊎◌, inl, inr, true, false, ◌||◌, List, map, arith,
  ◌==◌, if◌then◌else◌, Bool-cases, Option-cases, first?, replace?, count, NoneOf, first?-none,
  NoneOf-first?, replace?-none, replace?-NoneOf, first?-replace?_new, first?-replace?_other,
  count-replace?, NoneOf-map, first?-map, count-map, NoneOf-count, count-NoneOf, minus_one, sar8,
  done, hangs,
}
use mmemphis.Locations.{
  TaskLocation, holds, empty, forget, get_task_location, add_task_location, remove_task_location,
  of_app, clear_app_tasks_locations,
}

-- A task has one entry at most.
abbrev pub IsMap : List TaskLocation → Type 0
IsMap table = (t : ℕ) → t ≢ minus_one → count (holds t) table ≤ 1

first?-forget :
    (t u : ℕ) (table : List TaskLocation)
    → u ≢ t
    → u ≢ minus_one
    → first? (holds u) (map (forget t) table) ≡ first? (holds u) table
first?-forget t u table d m =
    first?-map (holds u) (forget t) table (λ a e. ground arith) (λ a e. ground arith)

-- Where adding the location of a task other than -1 returns, looking it up yields it, and every
-- other task's is unchanged.
pub add_task_location-get :
    (t proc : ℕ) (table : List TaskLocation) {table' : List TaskLocation}
    → t ≢ minus_one
    → add_task_location t proc table ≡ done table'
    → (get_task_location t table' ≡ proc)
      × ((u : ℕ) → u ≢ t → u ≢ minus_one → get_task_location u table' ≡ get_task_location u table)
unfolding add_task_location get_task_location
add_task_location-get t proc table {table'} m h =
    elim (Option-cases (replace? (holds minus_one) write (map (forget t) table))) [
      | inl e ↦ absurd (ground arith)
      | inr (r, e) ↦
          let same : r ≡ table' = ground arith in
          let (a, _, hit) =
            first?-replace?_new (holds minus_one) write (holds t) (map (forget t) table)
              (λ x y. ground arith) (NoneOf-map (holds t) (forget t) table (λ x. ground arith)) e in
          (
            rw (← same, hit, get_task_location) refl,
            λ u d n.
                rw
                  (
                    ← same,
                    first?-replace?_other (holds minus_one) write (holds u) (map (forget t) table)
                        (λ x y. ground arith) (λ x y. ground arith) e,
                    first?-forget t u table d n,
                    get_task_location,
                  )
                  refl,
          )
    ]
  where
    write : TaskLocation → TaskLocation
    write _ = record { id = t; proc_address = proc }

-- Adding a location spins only where every entry of the table holds a task, and another one.
add_task_location-hangs :
    (t proc : ℕ) (table : List TaskLocation)
    → add_task_location t proc table ≡ hangs
    → NoneOf (λ e. e.id == minus_one || e.id == t) table
unfolding add_task_location
add_task_location-hangs t proc table h =
    elim (Option-cases (replace? (holds minus_one) write (map (forget t) table))) [
      | inl e ↦
          NoneOf-of-map (holds minus_one) (λ e. e.id == minus_one || e.id == t) (forget t) table
            (λ a n. ground arith) (replace?-none (holds minus_one) write (map (forget t) table) e)
      | inr (r, e) ↦ absurd (ground arith)
    ]
  where
    write : TaskLocation → TaskLocation
    write _ = record { id = t; proc_address = proc }

-- Adding keeps one entry at most for each task.
pub add_task_location-IsMap :
    (t proc : ℕ) (table : List TaskLocation) {table' : List TaskLocation}
    → t ≢ minus_one
    → IsMap table
    → add_task_location t proc table ≡ done table'
    → IsMap table'
unfolding add_task_location
add_task_location-IsMap t proc table {table'} m v h u n =
    elim (Option-cases (replace? (holds minus_one) write (map (forget t) table))) [
      | inl e ↦ absurd (ground arith)
      | inr (r, e) ↦
          let same : r ≡ table' = ground arith in
          elim (Bool-cases (u == t)) [
            | inl is ↦ omega (
              arith,
              ap (count (holds u)) same,
              count-replace? (holds minus_one) write (holds u) false true (map (forget t) table)
                  (λ x y. ground arith) (λ x y. ground arith) e,
              NoneOf-count (holds u) (map (forget t) table)
                  (NoneOf-map (holds u) (forget t) table (λ x. ground arith)),
            )
            | inr isnt ↦ omega (
              arith,
              ap (count (holds u)) same,
              v u n,
              count-replace? (holds minus_one) write (holds u) false false (map (forget t) table)
                  (λ x y. ground arith) (λ x y. ground arith) e,
              count-map (holds u) (holds u) (forget t) table (λ x. ground arith),
            )
          ]
    ]
  where
    write : TaskLocation → TaskLocation
    write _ = record { id = t; proc_address = proc }

-- From a table with one entry at most for each task, removing a task other than -1 returns the
-- location that a lookup gave, after which the task has none and the others theirs; it spins only
-- where the task is not in the table.
remove_task_location_lem :
    (t : ℕ) (table : List TaskLocation)
    → t ≢ minus_one
    → IsMap table
    → ((table' : List TaskLocation) × (remove_task_location t table
          ≡ done (get_task_location t table, table'))
        × (get_task_location t table' ≡ minus_one)
        × ((u : ℕ)
            → u ≢ t
            → u ≢ minus_one
            → get_task_location u table' ≡ get_task_location u table))
      ⊎ ((remove_task_location t table ≡ hangs) × NoneOf (holds t) table)
unfolding remove_task_location get_task_location
remove_task_location_lem t table m v = elim (Option-cases (replace? (holds t) (λ _. empty) table)) [
  | inl e ↦ inr (
    rw (remove_task_location, NoneOf-first? (holds t) table (replace?-none _ _ table e)) refl,
    replace?-none _ _ table e,
  )
  | inr (r, e) ↦ elim (Option-cases (first? (holds t) table)) [
    | inl n ↦ absurd (cc (e, replace?-NoneOf (holds t) (λ _. empty) table (first?-none _ table n)))
    | inr (a, s) ↦ inl (
      r,
      rw (s, e, remove_task_location, get_task_location) refl,
      rw
          (
            NoneOf-first? (holds t) r (
                count-NoneOf (holds t) r (
                  omega (
                    arith,
                    v t m,
                    count-replace? (holds t) (λ _. empty) (holds t) true false table (λ x y. y)
                        (λ x y. ground arith) e,
                  ))),
            get_task_location,
          )
          refl,
      λ u d n.
          rw
            (
              first?-replace?_other (holds t) (λ _. empty) (holds u) table (λ x y. ground arith)
                  (λ x y. ground arith) e,
              get_task_location,
            )
            refl,
    )
  ]
]

-- For tasks other than -1, clearing an application forgets each of its tasks and no other.
pub clear_app_tasks_locations-get :
    (app t : ℕ) (table : List TaskLocation)
    → t ≢ minus_one
    → get_task_location t (clear_app_tasks_locations app table)
      ≡ (if sar8 t == app then minus_one else get_task_location t table)
unfolding clear_app_tasks_locations get_task_location
clear_app_tasks_locations-get app t table m = elim (Bool-cases (sar8 t == app)) [
  | inl e ↦
      rw
        (
          e,
          NoneOf-first? (holds t) (map wipe table)
              (NoneOf-map (holds t) wipe table (λ x. gone e x)),
          get_task_location,
          clear_app_tasks_locations,
        )
        refl
  | inr e ↦
      rw
        (
          e,
          first?-map (holds t) wipe table (λ x y. kept e x y) (λ x y. ground arith),
          get_task_location,
          clear_app_tasks_locations,
        )
        refl
]
  where
    wipe : TaskLocation → TaskLocation
    wipe e = if of_app app e.id then empty else e

    gone : sar8 t == app ≡ true → (x : TaskLocation) → holds t (wipe x) ≡ false
    gone e x = ground arith

    kept : sar8 t == app ≡ false → (x : TaskLocation) → holds t x ≡ true → wipe x ≡ x
    kept e x y = ground arith
