-- ===== src/Scheduler/Pick.antt =====
-- Which task `LST` chooses.
use mmemphis.Base.{
  ℕ, zero, suc, ◌+◌, ◌≤◌, ◌<◌, ◌≡◌, refl, ◌∙◌, ◌⊎◌, inl, inr, Bool, true, ◌&&◌, Option, none, some,
  List, [], ◌∷◌, arith, ltb, Bool-cases, Option-cases, length, get_elem?, NoneOf,
}
use mmemphis.Tcb.{Tcb, Scheduling}
use mmemphis.Scheduler.{
  test_at, is_ready, is_service, is_real_time, search_round, least_slack, select_task,
}
use mmemphis.Scheduler.RoundRobin.{
  rounds, search_round-found, search_round-none, search_round-index,
}

-- The test of the task at an index, in the form of a predicate.
abbrev pub At : (Scheduling → Tcb → Bool) → List Tcb → ℕ → Type 0
At p tcbs j = (t : Tcb) × (get_elem? tcbs j ≡ some t) × (p t.scheduling t ≡ true)

-- No real-time task that is ready has less slack.
abbrev pub AtLeast : ℕ → List Tcb → Type 0
AtLeast s [] = Unit {0}
AtLeast s (t ∷ tcbs) =
    (is_real_time t.scheduling ≡ true → s ≤ t.scheduling.slack_time) × AtLeast s tcbs

AtLeast-mono : (r s : ℕ) (tcbs : List Tcb) → r ≤ s → AtLeast s tcbs → AtLeast r tcbs
AtLeast-mono r s [] h a = tt
AtLeast-mono r s (t ∷ tcbs) h a = (λ e. omega (arith, a.0 e), AtLeast-mono r s tcbs h a.1)

least_slack-best :
    (i j s : ℕ) (tcbs : List Tcb)
    → ((least_slack i (some (j, s)) tcbs ≡ some (j, s)) × AtLeast s tcbs)
      ⊎ ((k : ℕ) × (t : Tcb) × (least_slack i (some (j, s)) tcbs
            ≡ some (i + k, t.scheduling.slack_time))
          × (get_elem? tcbs k ≡ some t)
          × (is_real_time t.scheduling ≡ true)
          × (t.scheduling.slack_time ≤ s)
          × AtLeast t.scheduling.slack_time tcbs)
unfolding least_slack
least_slack-best i j s [] = inl (refl, tt)
least_slack-best i j s (t ∷ tcbs) =
    elim (Bool-cases (is_real_time t.scheduling && ltb t.scheduling.slack_time s)) [
      | inl less ↦ elim (least_slack-best (i + 1) i t.scheduling.slack_time tcbs) [
        | inl (e, a) ↦ inr (
          0,
          t,
          rw less (e ∙ ground arith),
          refl,
          ground arith,
          ground arith,
          (λ _. omega arith, a),
        )
        | inr (k, u, e, g, r, l, a) ↦
            inr (suc k, u, rw less (e ∙ ground arith), g, r, ground arith, (λ _. l, a))
      ]
      | inr not_less ↦ elim (least_slack-best (i + 1) j s tcbs) [
        | inl (e, a) ↦ inl (rw not_less e, (λ r. ground arith, a))
        | inr (k, u, e, g, r, l, a) ↦
            inr (suc k, u, rw not_less (e ∙ ground arith), g, r, l, (λ q. ground arith, a))
      ]
    ]

least_slack_lem :
    (i : ℕ) (tcbs : List Tcb)
    → ((least_slack i none tcbs ≡ none) × NoneOf (λ t. is_real_time t.scheduling) tcbs)
      ⊎ ((k : ℕ) × (t : Tcb) × (least_slack i none tcbs ≡ some (i + k, t.scheduling.slack_time))
          × (get_elem? tcbs k ≡ some t)
          × (is_real_time t.scheduling ≡ true)
          × AtLeast t.scheduling.slack_time tcbs)
unfolding least_slack
least_slack_lem i [] = inl (refl, tt)
least_slack_lem i (t ∷ tcbs) = elim (Bool-cases (is_real_time t.scheduling)) [
  | inl r ↦ elim (least_slack-best (i + 1) i t.scheduling.slack_time tcbs) [
    | inl (e, a) ↦
        inr (0, t, rw (r, least_slack) (e ∙ ground arith), refl, r, (λ _. omega arith, a))
    | inr (k, u, e, g, q, l, a) ↦
        inr (suc k, u, rw (r, least_slack) (e ∙ ground arith), g, q, (λ _. l, a))
  ]
  | inr r ↦ elim (least_slack_lem (i + 1) tcbs) [
    | inl (e, a) ↦ inl (rw (r, least_slack) e, (r, a))
    | inr (k, u, e, g, q, a) ↦
        inr (suc k, u, rw (r, least_slack) (e ∙ ground arith), g, q, (λ y. cc (r, y), a))
  ]
]

-- The task at an index that a search found.
At-test :
    (p : Scheduling → Tcb → Bool) (tcbs : List Tcb) (j : ℕ) → test_at p tcbs j ≡ true → At p tcbs j
At-test p tcbs j h = elim (Option-cases (get_elem? tcbs j)) [
  | inl e ↦ absurd (ground (arith, e))
  | inr (t, e) ↦ (t, e, ground (arith, e))
]

get_elem?-lt {ℓ} :
    {A : Type ℓ} (xs : List A) (j : ℕ) {a : A} → get_elem? xs j ≡ some a → j < length xs
get_elem?-lt [] j h = absurd (cc)
get_elem?-lt (x ∷ xs) zero h = omega arith
get_elem?-lt (x ∷ xs) (suc j) h = omega (arith, get_elem?-lt xs j h)

rounds-le : (n i j : ℕ) → i < n → j < n → rounds n i j ≤ n
rounds-le n i j h l = ground arith

search_round-NoneAt :
    (p : Scheduling → Tcb → Bool) (tcbs : List Tcb) (i j : ℕ)
    → i < length tcbs
    → (search_round p (length tcbs) i tcbs).0 ≡ none
    → ¬ At p tcbs j
search_round-NoneAt p tcbs i j h e (t, g, q) =
    let inside = get_elem?-lt tcbs j g in
    cc (
      g,
      q,
      search_round-none p tcbs (length tcbs) i j e h inside (rounds-le (length tcbs) i j h inside),
    )

-- What the choice of a task promises, by the order of its three searches.
pub data Choice (tcbs : List Tcb) : Option ℕ → Type 0 where
  -- a service task that is ready
  service : {j : ℕ} → At is_service tcbs j → Choice tcbs (some j)
  -- no service task is ready, and no real-time task that is ready has less slack
  real_time :
      {j : ℕ} (t : Tcb)
      → ((m : ℕ) → ¬ At is_service tcbs m)
      → get_elem? tcbs j ≡ some t
      → is_real_time t.scheduling ≡ true
      → AtLeast t.scheduling.slack_time tcbs
      → Choice tcbs (some j)
  -- neither is ready, and this task is
  best_effort :
      {j : ℕ}
      → ((m : ℕ) → ¬ At is_service tcbs m)
      → NoneOf (λ t. is_real_time t.scheduling) tcbs
      → At (λ s _. is_ready s) tcbs j
      → Choice tcbs (some j)
  -- no task at all is ready
  nobody : ((m : ℕ) → ¬ At (λ s _. is_ready s) tcbs m) → Choice tcbs none

-- From a round-robin index inside the array, the three searches choose a ready service task if
-- there is one; else a ready real-time task that no ready real-time task beats in slack time, if
-- there is one; else a ready task, if there is one; else none. The round-robin index stays inside
-- the array.
pub select_task-Choice :
    (i : ℕ) (tcbs : List Tcb)
    → i < length tcbs
    → Choice tcbs (select_task i tcbs).0 × ((select_task i tcbs).1 < length tcbs)
unfolding select_task
select_task-Choice i tcbs h =
    let first = search_round is_service (length tcbs) i tcbs in
    let inside = search_round-index is_service tcbs (length tcbs) i h in
    elim (Option-cases first.0) [
      | inr (j, e) ↦
          rw (e, select_task)
            (
              service (
                  At-test is_service tcbs j
                    (search_round-found is_service tcbs (length tcbs) i e).0),
              inside,
            )
      | inl e ↦
          let no_service : (m : ℕ) → ¬ At is_service tcbs m =
            λ m. search_round-NoneAt is_service tcbs i m h e in
          elim (least_slack_lem 0 tcbs) [
            | inr (k, t, l, g, r, a) ↦
                let at : 0 + k ≡ k = omega arith in
                rw (e, l, select_task) (real_time t no_service (rw at g) r a, inside)
            | inl (l, quiet) ↦
                let second = search_round (λ s _. is_ready s) (length tcbs) first.1 tcbs in
                let inside' =
                  search_round-index (λ s _. is_ready s) tcbs (length tcbs) first.1 inside in
                elim (Option-cases second.0) [
                  | inr (j, f) ↦
                      rw (e, l, select_task)
                        (
                          rw f (
                              best_effort no_service quiet (
                                At-test (λ s _. is_ready s) tcbs j
                                  (search_round-found (λ s _. is_ready s) tcbs (length tcbs) first.1
                                    f).0)),
                          inside',
                        )
                  | inl f ↦
                      rw (e, l, select_task)
                        (
                          rw f (
                              nobody (λ m.
                                search_round-NoneAt (λ s _. is_ready s) tcbs first.1 m inside f)),
                          inside',
                        )
                ]
          ]
    ]
