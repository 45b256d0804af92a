-- ===== src/Sdn/Hadlock/Sound.antt =====
-- The search finds the target exactly where a path leads to it.
use mmemphis.Base.{
  ℕ, zero, suc, ◌*◌, ◌<◌, ◌≡◌, refl, sym, ◌∙◌, ◌≢◌, ◌⊎◌, inl, inr, Bool, true, false, ◌&&◌, none,
  some, List, [], ◌∷◌, ◌++◌, arith, Bool-cases,
}
use mathlib.Core.Path.{subst}
use mmemphis.Sdn.Noc.{Noc}
use mmemphis.Sdn.Hadlock.{
  Router, same, Detours, Search, mark, is_visited, edge, visit_all, ports, remove_min_detour_nlist,
  less_detour, propagate, hadlock, clear_search,
}
use mmemphis.Sdn.Hadlock.Terminates.{
  Visited, visit_all-Advances, remove_min_detour_nlist_lem, mark_self, List-cases, hadlock-returns,
}
use mmemphis.Sdn.Hadlock.Round.{
  Reach, start, along, In, mark_new, unmarked, same-eq, Grown, Done, Ports, visit_all_lem,
  remove_min-In,
}

-- Every edge of a router leads to a visited one.
abbrev pub Closed : Noc → ℕ → Detours → Router → Type 0
Closed c mp d u = (n : ℕ) (w : Router) → n < 4 → edge c mp u n ≡ some w → is_visited d w ≡ true

Done-Closed :
    (c : Noc) (mp : ℕ) (source target v : Router) (d : Detours)
    → Done c mp source target v d ports
    → Closed c mp d v
Done-Closed c mp source target v d h zero w b e = h.0 w e
Done-Closed c mp source target v d h (suc zero) w b e = h.1.0 w e
Done-Closed c mp source target v d h (suc (suc zero)) w b e = h.1.1.0 w e
Done-Closed c mp source target v d h (suc (suc (suc zero))) w b e = h.1.1.1.0 w e
Done-Closed c mp source target v d h (suc (suc (suc (suc n)))) w b e = absurd (omega arith)

module _ (c : Noc) (mp : ℕ) (source target : Router) where
  -- The search at router `v`: what it has visited has a path, and is on the list, or closed, or `v`.
  record Explores (v : Router) (s : Search) : Type 0 where
    here : is_visited s.detour v ≡ true
    begun : is_visited s.detour source ≡ true
    sound : (u : Router) → is_visited s.detour u ≡ true → Reach c mp source u
    closed :
        (u : Router)
        → is_visited s.detour u ≡ true
        → In u s.nlist ⊎ (u ≡ v) ⊎ Closed c mp s.detour u
    missed : is_visited s.detour target ≡ false
    list : Visited s.detour s.nlist

  -- A search that has closed every router has visited all that a path leads to.
  exhausted :
      (s : Search)
      → is_visited s.detour source ≡ true
      → ((u : Router) → is_visited s.detour u ≡ true → Closed c mp s.detour u)
      → (u : Router) → Reach c mp source u
      → is_visited s.detour u ≡ true
  exhausted s b h u start = b
  exhausted s b h u (along {v} n l r e) = h v (exhausted s b h v r) n u l e

  true_ne_false : true ≢ false
  true_ne_false e = cc

  -- What a round leaves: a router is on the list, or closed.
  round-Closed :
      (v : Router) (s s' : Search)
      → Explores v s
      → Grown c mp source target v s s' false
      → Done c mp source target v s'.detour ports
      → (u : Router) → is_visited s'.detour u ≡ true
      → In u s'.nlist ⊎ Closed c mp s'.detour u
  round-Closed v s s' x g d u h = elim (g.fresh u h) [
    | inr i ↦ inl i
    | inl o ↦ elim (x.closed u o) [
      | inl i ↦ inl (g.listed u i)
      | inr (inl e) ↦ inr (rw e (Done-Closed c mp source target v s'.detour d))
      | inr (inr k) ↦ inr (λ n w b e. g.grows w (k n w b e))
    ]
  ]

  -- The search at the router that is taken next.
  next-Explores :
      (v w : Router) (rest : List Router) (s s' : Search) (p : List Router)
      → Explores v s
      → Grown c mp source target v s s' false
      → Done c mp source target v s'.detour ports
      → Visited s'.detour s'.nlist
      → s'.nlist ≡ w ∷ rest
      → Explores
          (remove_min_detour_nlist s'.detour w rest).0
          (record s' { nlist = (remove_min_detour_nlist s'.detour w rest).1; plist = p })
  next-Explores v w rest s s' p x g d l z =
      let r =
        remove_min_detour_nlist_lem s'.detour w rest (subst (λ ws. Visited s'.detour ws) z l) in
      record {
        here = r.taken;
        begun = g.grows source x.begun;
        sound = g.sound x.sound;
        closed = λ u h. elim (round-Closed v s s' x g d u h) [
          | inl i ↦
              elim (remove_min-In c mp source target v s'.detour u w rest
                (subst (λ ws. In u ws) z i)) [ inl e ↦ inr (inl e) | inr o ↦ inl o ]
          | inr k ↦ inr (inr k)
        ];
        missed = g.missed refl x.missed;
        list = r.rest;
      }

  -- What a result of the search says.
  abbrev Says : Bool → Bool → Type 0
  Says min_path b =
      (b ≡ true → Reach c mp source target)
      × (min_path ≡ false → b ≡ false → ¬ Reach c mp source target)

  first_of : {b : Bool} {s : Search} {r : Bool × Search} → some (b, s) ≡ some r → b ≡ r.0
  first_of e = cc

  propagate-Says :
      (min_path : Bool) (fuel : ℕ) (v : Router) (s : Search) {r : Bool × Search}
      → Explores v s
      → propagate c mp min_path target fuel v s ≡ some r
      → Says min_path r.0
  unfolding propagate
  propagate-Says min_path zero v s x q = cc
  propagate-Says min_path (suc fuel) v s {r} x q =
      elim (Bool-cases (min_path && less_detour (some 0) (s.detour v))) [
        | inl e ↦
            let at : propagate c mp min_path target (suc fuel) v s ≡ some (false, s) =
              rw (e, propagate) refl in
            let same_r : false ≡ r.0 = first_of (sym at ∙ q) in
            (
              λ t. absurd (true_ne_false (sym t ∙ sym same_r)),
              λ m _. absurd (true_ne_false (sym e ∙ rw m refl)),
            )
        | inr e ↦
            let s' = (visit_all c mp target v ports s).0 in
            let found = (visit_all c mp target v ports s).1 in
            let (g, d) = visit_all_lem c mp source target v ports s four x.here in
            let adv =
              visit_all-Advances c mp target v ports s (record { here = x.here; list = x.list }) in
            elim (Bool-cases found) [
              | inl y ↦
                  let reached : Reach c mp source target = g.sound x.sound target (g.hit y) in
                  let at : r.0 ≡ true = elim (List-cases s'.nlist) [
                    | inl z ↦
                        let ends : propagate c mp min_path target (suc fuel) v s
                            ≡ some (found, s') =
                          rw (e, z, propagate) refl in
                        sym (first_of (sym ends ∙ q)) ∙ y
                    | inr (w, rest, z) ↦
                        let m = (remove_min_detour_nlist s'.detour w rest).0 in
                        let s'' : Search = record s' {
                          nlist = (remove_min_detour_nlist s'.detour w rest).1;
                          plist = s'.plist ++ m ∷ [];
                        } in
                        let ends : propagate c mp min_path target (suc fuel) v s
                            ≡ some (true, s'') =
                          rw (e, z, y, propagate) refl in
                        sym (first_of (sym ends ∙ q))
                  ] in
                  (λ _. reached, λ _ f. absurd (true_ne_false (sym at ∙ f)))
              | inr n ↦
                  let g' : Grown c mp source target v s s' false =
                    subst (λ f. Grown c mp source target v s s' f) n g in
                  elim (List-cases s'.nlist) [
                    | inl z ↦
                        let ends : propagate c mp min_path target (suc fuel) v s
                            ≡ some (found, s') =
                          rw (e, z, propagate) refl in
                        let fails : r.0 ≡ false = sym (first_of (sym ends ∙ q)) ∙ n in
                        let all = exhausted s' (g.grows source x.begun) (λ u h.
                          elim (round-Closed v s s' x g' (d n) u h) [
                            | inl i ↦ absurd (subst (λ ws. In u ws) z i)
                            | inr k ↦ k
                          ]) in
                        (
                          λ t. absurd (true_ne_false (sym t ∙ fails)),
                          λ _ _ p.
                              absurd (true_ne_false (sym (all target p) ∙ g'.missed refl x.missed)),
                        )
                    | inr (w, rest, z) ↦
                        let m = (remove_min_detour_nlist s'.detour w rest).0 in
                        let s'' : Search = record s' {
                          nlist = (remove_min_detour_nlist s'.detour w rest).1;
                          plist = s'.plist ++ m ∷ [];
                        } in
                        let goes : propagate c mp min_path target (suc fuel) v s
                            ≡ propagate c mp min_path target fuel m s'' =
                          rw (e, z, n, propagate) refl in
                        propagate-Says min_path fuel m s''
                          (next-Explores v w rest s s' _ x g' (d n) adv.valid.list z) (sym goes ∙ q)
                  ]
            ]
      ]
    where
      four : Ports c mp source target v ports
      four = (omega arith, (omega arith, (omega arith, (omega arith, tt))))

  begin : Search
  begin = record { detour = mark (λ _. none) source (some 0); nlist = []; plist = source ∷ [] }

  begin-Explores : same source target ≡ false → Explores source begin
  unfolding begin
  begin-Explores e = record {
    here = mark_self (λ _. none) source 0;
    begun = mark_self (λ _. none) source 0;
    sound = λ u h. rw (only u h) start;
    closed = λ u h. inr (inl (only u h));
    missed = unmarked (λ _. none) source target 0 e refl;
    list = tt;
  }
    where
      only : (u : Router) → is_visited (mark (λ _. none) source (some 0)) u ≡ true → u ≡ source
      only u h = elim (mark_new (λ _. none) source u 0 h) [
        | inl x ↦ absurd (true_ne_false (sym x))
        | inr x ↦ x
      ]

  hadlock-Says :
      (min_path : Bool) (fuel : ℕ) {r : Bool × Search}
      → hadlock c mp min_path source target fuel ≡ some r
      → Says min_path r.0
  unfolding hadlock clear_search begin
  hadlock-Says min_path fuel {r} q = elim (Bool-cases (same source target)) [
    | inl e ↦
        let at : hadlock c mp min_path source target fuel ≡ some (true, begin) =
          rw (e, hadlock) refl in
        let met : true ≡ r.0 = first_of (sym at ∙ q) in
        (
          λ _. subst (λ w. Reach c mp source w) (same-eq source target e) start,
          λ _ f. absurd (true_ne_false (met ∙ f)),
        )
    | inr e ↦
        let at : hadlock c mp min_path source target fuel
            ≡ propagate c mp min_path target fuel source begin =
          rw (e, hadlock) refl in
        propagate-Says min_path fuel source begin (begin-Explores e) (sym at ∙ q)
  ]

  -- With more fuel than the grid has routers, the search for a path always returns. Where it
  -- answers that it found the target, free ports lead there from the source; and unless it was
  -- restricted to minimal paths, it does find every target that free ports lead to.
  pub hadlock-Reach :
      (min_path : Bool) (fuel : ℕ)
      → c.max_grid_x * c.max_grid_y < fuel
      → (r : Bool × Search) × (hadlock c mp min_path source target fuel ≡ some r)
        × (r.0 ≡ true → Reach c mp source target)
        × (min_path ≡ false → Reach c mp source target → r.0 ≡ true)
  hadlock-Reach min_path fuel h =
      let (r, at) = hadlock-returns c mp min_path source target fuel h in
      let says = hadlock-Says min_path fuel at in
      (r, at, says.0, λ m p. elim (Bool-cases r.0) [ inl e ↦ e | inr e ↦ absurd (says.1 m e p) ])
