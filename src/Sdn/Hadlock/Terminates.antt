-- ===== src/Sdn/Hadlock/Terminates.antt =====
-- The search ends within one round for each router of the grid.
use mmemphis.Base.{
  ℕ, zero, suc, ◌+◌, ◌*◌, ◌≤◌, ◌<◌, ◌≡◌, refl, sym, ap, ◌∙◌, ◌≢◌, ◌⊎◌, inl, inr, Bool, true, false,
  not, ◌&&◌, ◌||◌, none, some, List, [], ◌∷◌, ◌++◌, arith, leb, eq-==, Bool-cases, Option-cases,
  length, length-append, NoneOf, bit,
}
use mathlib.Core.Path.{subst}
use mmemphis.Sdn.Noc.{Noc, is_element_reachable, manhattan}
use mmemphis.Sdn.Hadlock.{
  Router, same, Detours, Search, mark, is_visited, less_detour, remove_min_detour_nlist, neighbour,
  edge, next_detour, visit, visit_all, ports, propagate, hadlock, clear_search,
}
use mmemphis.Sdn.Hadlock.Grid.{sum_below, sum_below-le, sum_below-lt, sum_below-bound}

-- The routers of the grid that the search has not visited.
abbrev pub unvisited : Noc → Detours → ℕ
unvisited c d =
    sum_below c.max_grid_x (λ x. sum_below c.max_grid_y (λ y. bit (not (is_visited d (x, y)))))

-- The rounds that remain.
abbrev pub rounds : Noc → Search → ℕ
rounds c s = unvisited c s.detour + length s.nlist

-- Every router of a list has been visited.
abbrev pub Visited : Detours → List Router → Type 0
Visited d = NoneOf (λ w. not (is_visited d w))

not-false : (b : Bool) → not b ≡ false → b ≡ true
not-false true h = refl
not-false false h = cc

pub mark_other :
    (d : Detours) (w u : Router) (k : ℕ)
    → is_visited d u ≡ true
    → is_visited (mark d w (some k)) u ≡ true
mark_other d w u k h = elim (Bool-cases (same u w)) [
  | inl e ↦ rw (e, is_visited) refl
  | inr e ↦ rw (e, is_visited) h
]

Visited-mark :
    (d : Detours) (w : Router) (k : ℕ) (ws : List Router)
    → Visited d ws
    → Visited (mark d w (some k)) ws
Visited-mark d w k [] h = tt
Visited-mark d w k (u ∷ ws) h =
    let old : is_visited d u ≡ true = not-false _ h.0 in
    (rw (mark_other d w u k old) refl, Visited-mark d w k ws h.1)

pub mark_self : (d : Detours) (w : Router) (k : ℕ) → is_visited (mark d w (some k)) w ≡ true
mark_self d w k = ground (arith, eq-== w.0 w.0 refl, eq-== w.1 w.1 refl)

bit-le_one : (b : Bool) → bit b ≤ 1
bit-le_one true = omega arith
bit-le_one false = omega arith

-- Visiting a router of the grid leaves fewer.
unvisited-mark :
    (c : Noc) (d : Detours) (w : Router) (k : ℕ)
    → w.0 < c.max_grid_x
    → w.1 < c.max_grid_y
    → is_visited d w ≡ false
    → unvisited c (mark d w (some k)) < unvisited c d
unvisited-mark c d w k hx hy h =
    sum_below-lt c.max_grid_x _ _ (λ x. sum_below-le c.max_grid_y _ _ (λ y. cell x y)) hx
      (sum_below-lt c.max_grid_y _ _ (λ y. cell w.0 y) hy (rw (mark_self d w k, h) (omega arith)))
  where
    cell :
        (x y : ℕ)
        → bit (not (is_visited (mark d w (some k)) (x, y))) ≤ bit (not (is_visited d (x, y)))
    cell x y = elim (Bool-cases (is_visited d (x, y))) [
      | inl e ↦ rw (mark_other d w (x, y) k e) (omega arith)
      | inr e ↦ rw e (bit-le_one _)
    ]

edge-inside :
    (c : Noc) (mp : ℕ) (v : Router) (n : ℕ) {w : Router}
    → edge c mp v n ≡ some w
    → (w.0 < c.max_grid_x) × (w.1 < c.max_grid_y)
unfolding edge is_element_reachable
edge-inside c mp v n {w} e = elim (Option-cases (neighbour n v)) [
  | inl x ↦ ground arith
  | inr ((u, input), x) ↦ elim (Bool-cases (leb c.max_grid_x u.0 || leb c.max_grid_y u.1)) [
    | inl y ↦ ground arith
    | inr y ↦ ground arith
  ]
]

pub next_detour-some :
    (target v w : Router) (k : ℕ) → (m : ℕ) × (next_detour target v w (some k) ≡ some m)
unfolding next_detour
next_detour-some target v w k =
    elim (Bool-cases
      (leb (manhattan v.0 v.1 target.0 target.1) (manhattan w.0 w.1 target.0 target.1))) [
        | inl e ↦ (k + 1, rw e refl)
        | inr e ↦ (k, rw e refl)
      ]

-- The search stands at a visited router, and its neighbour list holds visited routers.
pub record IsSearch (v : Router) (s : Search) : Type 0 where
  pub here : is_visited s.detour v ≡ true
  pub list : Visited s.detour s.nlist

pub record Advances (c : Noc) (v : Router) (s s' : Search) : Type 0 where
  pub valid : IsSearch v s'
  pub bound : rounds c s' ≤ rounds c s

Visited-append :
    (d : Detours) (xs ys : List Router) → Visited d xs → Visited d ys → Visited d (xs ++ ys)
Visited-append d [] ys h k = k
Visited-append d (x ∷ xs) ys h k = (h.0, Visited-append d xs ys h.1 k)

pub visited-some : (d : Detours) (v : Router) → is_visited d v ≡ true → (k : ℕ) × (d v ≡ some k)
visited-some d v h = elim (Option-cases (d v)) [
  | inl e ↦ absurd (true_not_false (sym h ∙ rw (e, is_visited) refl))
  | inr p ↦ p
]
  where
    true_not_false : true ≢ false
    true_not_false e = cc

visit-Advances :
    (c : Noc) (mp : ℕ) (target v : Router) (n : ℕ) (s : Search)
    → IsSearch v s
    → Advances c v s (visit c mp target v n s).0
unfolding visit
visit-Advances c mp target v n s h = elim (Option-cases (edge c mp v n)) [
  | inl e ↦ rw (e, visit) (record { valid = h; bound = omega arith })
  | inr (w, e) ↦ elim (Bool-cases (is_visited s.detour w)) [
    | inl y ↦ rw (e, y, visit) (record { valid = h; bound = omega arith })
    | inr f ↦
        let (k, at) = visited-some s.detour v h.here in
        let (m, next) = next_detour-some target v w k in
        let (x_in, y_in) = edge-inside c mp v n e in
        let fewer = unvisited-mark c s.detour w m x_in y_in f in
        rw (e, f, at, next, visit)
          (record {
            valid = record {
              here = mark_other s.detour w v m h.here;
              list =
                  Visited-append _ s.nlist (w ∷ []) (Visited-mark s.detour w m s.nlist h.list)
                    (rw (mark_self s.detour w m) refl, tt);
            };
            bound = omega (arith, fewer, length-append s.nlist (w ∷ []));
          })
  ]
]

pub visit_all-Advances :
    (c : Noc) (mp : ℕ) (target v : Router) (ns : List ℕ) (s : Search)
    → IsSearch v s
    → Advances c v s (visit_all c mp target v ns s).0
unfolding visit_all
visit_all-Advances c mp target v [] s h = record { valid = h; bound = omega arith }
visit_all-Advances c mp target v (n ∷ ns) s h =
    let one = visit-Advances c mp target v n s h in
    let s1 = (visit c mp target v n s).0 in
    elim (Bool-cases (visit c mp target v n s).1) [
      | inl e ↦ rw (e, visit_all) one
      | inr e ↦
          let more = visit_all-Advances c mp target v ns s1 one.valid in
          rw (e, visit_all)
            (record { valid = more.valid; bound = omega (arith, more.bound, one.bound) })
    ]

-- The router that is taken off a list of visited routers, and the routers that stay.
pub record Removed (d : Detours) (n : ℕ) (r : Router × List Router) : Type 0 where
  pub taken : is_visited d r.0 ≡ true
  pub rest : Visited d r.1
  pub size : length r.1 ≡ n

pub remove_min_detour_nlist_lem :
    (d : Detours) (v : Router) (ws : List Router)
    → Visited d (v ∷ ws)
    → Removed d (length ws) (remove_min_detour_nlist d v ws)
unfolding remove_min_detour_nlist
remove_min_detour_nlist_lem d v [] h = record { taken = not-false _ h.0; rest = tt; size = refl }
remove_min_detour_nlist_lem d v (w ∷ ws) h =
    let r = remove_min_detour_nlist_lem d w ws h.1 in
    let m = (remove_min_detour_nlist d w ws).0 in
    elim (Bool-cases (less_detour (d v) (d m))) [
      | inl e ↦
          rw (e, remove_min_detour_nlist)
            (record { taken = not-false _ h.0; rest = h.1; size = refl })
      | inr e ↦
          rw (e, remove_min_detour_nlist)
            (record { taken = r.taken; rest = (h.0, r.rest); size = ap suc r.size })
    ]

pub List-cases :
    (ws : List Router) → (ws ≡ []) ⊎ ((w : Router) × (rest : List Router) × (ws ≡ w ∷ rest))
List-cases [] = inl refl
List-cases (w ∷ ws) = inr (w, ws, refl)

propagate-returns :
    (c : Noc) (mp : ℕ) (min_path : Bool) (target : Router) (fuel : ℕ) (v : Router) (s : Search)
    → IsSearch v s
    → rounds c s < fuel
    → (r : Bool × Search) × (propagate c mp min_path target fuel v s ≡ some r)
unfolding propagate
propagate-returns c mp min_path target zero v s h b = absurd (omega arith)
propagate-returns c mp min_path target (suc fuel) v s h b =
    elim (Bool-cases (min_path && less_detour (some 0) (s.detour v))) [
      | inl e ↦ ((false, s), rw (e, propagate) refl)
      | inr e ↦
          let adv = visit_all-Advances c mp target v ports s h in
          let s' = (visit_all c mp target v ports s).0 in
          let found = (visit_all c mp target v ports s).1 in
          elim (List-cases s'.nlist) [
            | inl z ↦ ((found, s'), rw (e, z, propagate) refl)
            | inr (w, rest, z) ↦
                let listed : Visited s'.detour (w ∷ rest) =
                  subst (λ ws. Visited s'.detour ws) z adv.valid.list in
                let r = remove_min_detour_nlist_lem s'.detour w rest listed in
                let m = (remove_min_detour_nlist s'.detour w rest).0 in
                let s'' : Search = record s' {
                  nlist = (remove_min_detour_nlist s'.detour w rest).1;
                  plist = s'.plist ++ m ∷ [];
                } in
                elim (Bool-cases found) [
                  | inl y ↦ ((true, s''), rw (e, z, y, propagate) refl)
                  | inr n ↦
                      let (result, at) =
                        propagate-returns c mp min_path target fuel m s''
                          (record { here = r.taken; list = r.rest })
                          (omega (arith, r.size, ap length z, adv.bound, b)) in
                      (result, rw (e, z, n, propagate) at)
                ]
          ]
    ]

-- Termination
pub hadlock-returns :
    (c : Noc) (mp : ℕ) (min_path : Bool) (source target : Router) (fuel : ℕ)
    → c.max_grid_x * c.max_grid_y < fuel
    → (r : Bool × Search) × (hadlock c mp min_path source target fuel ≡ some r)
unfolding hadlock clear_search
hadlock-returns c mp min_path source target fuel h =
    let s : Search = record clear_search {
      detour = mark (λ _. none) source (some 0);
      plist = source ∷ [];
    } in
    let cells : unvisited c s.detour ≤ c.max_grid_x * c.max_grid_y =
      sum_below-bound c.max_grid_x c.max_grid_y _ (λ x. omega (
        arith,
        sum_below-bound c.max_grid_y 1 _ (λ y. bit-le_one (not (is_visited s.detour (x, y)))),
      )) in
    let (result, at) =
      propagate-returns c mp min_path target fuel source s
        (record { here = mark_self (λ _. none) source 0; list = tt }) (omega (arith, cells, h)) in
    elim (Bool-cases (same source target)) [
      | inl e ↦ ((true, s), rw (e, hadlock) refl)
      | inr e ↦ (result, rw (e, hadlock) at)
    ]
