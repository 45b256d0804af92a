-- ===== src/Sdn/Hadlock/Round.antt =====
-- What one round of the search visits.
use mmemphis.Base.{
  ℕ, ◌<◌, ◌≡◌, refl, sym, ap, ◌∙◌, ◌≢◌, ◌⊎◌, inl, inr, Bool, true, false, some, List, [], ◌∷◌, ◌++◌,
  arith, eq-==, Bool-cases, Option-cases,
}
use mathlib.Core.Path.{subst}
use mmemphis.Sdn.Noc.{Noc}
use mmemphis.Sdn.Hadlock.{
  Router, same, Detours, Search, mark, is_visited, edge, visit, visit_all, remove_min_detour_nlist,
  less_detour,
}
use mmemphis.Sdn.Hadlock.Terminates.{mark_other, mark_self, next_detour-some, visited-some}

-- The routers that free ports lead to.
pub data Reach (c : Noc) (mp : ℕ) (source : Router) : Router → Type 0 where
  start : Reach c mp source source
  along :
      {v w : Router} (n : ℕ)
      → n < 4
      → Reach c mp source v
      → edge c mp v n ≡ some w
      → Reach c mp source w

abbrev pub In : Router → List Router → Type 0
In u [] = ⊥
In u (w ∷ ws) = (u ≡ w) ⊎ In u ws

pub In-left : (u : Router) (xs ys : List Router) → In u xs → In u (xs ++ ys)
In-left u [] ys i = absurd i
In-left u (x ∷ xs) ys (inl e) = inl e
In-left u (x ∷ xs) ys (inr i) = inr (In-left u xs ys i)

pub In-right : (u : Router) (xs ys : List Router) → In u ys → In u (xs ++ ys)
In-right u [] ys i = i
In-right u (x ∷ xs) ys i = inr (In-right u xs ys i)

pub same-eq : (v w : Router) → same v w ≡ true → v ≡ w
same-eq (a, b) (x, y) e = ground arith

pub eq-same : (v w : Router) → v ≡ w → same v w ≡ true
eq-same v w e = ground (arith, eq-== v.0 w.0 (ap (λ r. r.0) e), eq-== v.1 w.1 (ap (λ r. r.1) e))

-- The router that a mark is new for, if any.
pub mark_new :
    (d : Detours) (w u : Router) (k : ℕ)
    → is_visited (mark d w (some k)) u ≡ true
    → (is_visited d u ≡ true) ⊎ (u ≡ w)
mark_new d w u k h = elim (Bool-cases (same u w)) [
  | inl e ↦ inr (same-eq u w e)
  | inr e ↦ inl (sym (rw (e, is_visited) refl) ∙ h)
]

pub unmarked :
    (d : Detours) (w u : Router) (k : ℕ)
    → same w u ≡ false
    → is_visited d u ≡ false
    → is_visited (mark d w (some k)) u ≡ false
unmarked d w u k e h = elim (Bool-cases (same u w)) [
  | inl x ↦ absurd (true_ne_false (sym (eq-same w u (sym (same-eq u w x))) ∙ e))
  | inr x ↦ rw (x, is_visited) h
]
  where
    true_ne_false : true ≢ false
    true_ne_false e = cc

some-injective : {a b : Router} → some a ≡ some b → a ≡ b
some-injective e = cc

-- What a round adds to a search from `v`: only routers that a path leads to, and all on the list.
pub record Grown (c : Noc) (mp : ℕ) (source target v : Router) (s s' : Search) (found : Bool)
    : Type 0 where
  pub grows : (u : Router) → is_visited s.detour u ≡ true → is_visited s'.detour u ≡ true
  pub sound :
      ((u : Router) → is_visited s.detour u ≡ true → Reach c mp source u)
      → (u : Router) → is_visited s'.detour u ≡ true
      → Reach c mp source u
  pub listed : (u : Router) → In u s.nlist → In u s'.nlist
  pub fresh :
      (u : Router) → is_visited s'.detour u ≡ true → (is_visited s.detour u ≡ true) ⊎ In u s'.nlist
  pub missed :
      found ≡ false → is_visited s.detour target ≡ false → is_visited s'.detour target ≡ false
  pub hit : found ≡ true → is_visited s'.detour target ≡ true

module _ (c : Noc) (mp : ℕ) (source target v : Router) where
  stays : (s : Search) → Grown c mp source target v s s false
  stays s = record {
    grows = λ u h. h;
    sound = λ p. p;
    listed = λ u i. i;
    fresh = λ u h. inl h;
    missed = λ _ h. h;
    hit = λ e. absurd cc;
  }

  -- Visiting by one port.
  visit_lem :
      (n : ℕ) (s : Search)
      → n < 4
      → is_visited s.detour v ≡ true
      → Grown c mp source target v s (visit c mp target v n s).0 (visit c mp target v n s).1
        × ((w : Router)
            → edge c mp v n ≡ some w
            → is_visited (visit c mp target v n s).0.detour w ≡ true)
  unfolding visit
  visit_lem n s b h = elim (Option-cases (edge c mp v n)) [
    | inl e ↦ rw (e, visit) (stays s, λ w x. absurd cc)
    | inr (w, e) ↦ elim (Bool-cases (is_visited s.detour w)) [
      | inl y ↦ rw (e, y, visit) (stays s, λ u x. rw (some-injective (sym x ∙ refl)) y)
      | inr f ↦
          let (k, at) = visited-some s.detour v h in
          let (m, next) = next_detour-some target v w k in
          rw (e, f, at, next, visit)
            (
              record {
                grows = λ u g. mark_other s.detour w u m g;
                sound = λ p u g. elim (mark_new s.detour w u m g) [
                  | inl o ↦ p u o
                  | inr o ↦ rw o (along n b (p v h) e)
                ];
                listed = λ u i. In-left u s.nlist (w ∷ []) i;
                fresh = λ u g. elim (mark_new s.detour w u m g) [
                  | inl o ↦ inl o
                  | inr o ↦ inr (In-right u s.nlist (w ∷ []) (inl o))
                ];
                missed = λ d g. unmarked s.detour w target m d g;
                hit = λ d.
                    subst (λ t. is_visited (mark s.detour w (some m)) t ≡ true) (same-eq w target d)
                      (mark_self s.detour w m);
              },
              λ u x. rw (some-injective (sym x ∙ refl)) (mark_self s.detour w m),
            )
    ]
  ]

  -- What the ports of a list lead to has been visited.
  abbrev pub Done : Detours → List ℕ → Type 0
  Done d [] = Unit {0}
  Done d (n ∷ ns) = ((w : Router) → edge c mp v n ≡ some w → is_visited d w ≡ true) × Done d ns

  -- The ports of a router.
  abbrev pub Ports : List ℕ → Type 0
  Ports [] = Unit {0}
  Ports (n ∷ ns) = (n < 4) × Ports ns

  rounds_chain :
      (s s1 s2 : Search) {f1 f2 : Bool}
      → Grown c mp source target v s s1 f1
      → Grown c mp source target v s1 s2 f2
      → f1 ≡ false
      → Grown c mp source target v s s2 f2
  rounds_chain s s1 s2 a b e = record {
    grows = λ u h. b.grows u (a.grows u h);
    sound = λ p. b.sound (a.sound p);
    listed = λ u i. b.listed u (a.listed u i);
    fresh = λ u h. elim (b.fresh u h) [
      | inl o ↦ elim (a.fresh u o) [ inl x ↦ inl x | inr x ↦ inr (b.listed u x) ]
      | inr i ↦ inr i
    ];
    missed = λ x h. b.missed x (a.missed e h);
    hit = b.hit;
  }

  pub visit_all_lem :
      (ns : List ℕ) (s : Search)
      → Ports ns
      → is_visited s.detour v ≡ true
      → Grown c mp source target v s
          (visit_all c mp target v ns s).0
          (visit_all c mp target v ns s).1
        × ((visit_all c mp target v ns s).1 ≡ false
            → Done (visit_all c mp target v ns s).0.detour ns)
  unfolding visit_all
  visit_all_lem [] s b h = (stays s, λ _. tt)
  visit_all_lem (n ∷ ns) s b h =
      let (one, reached) = visit_lem n s b.0 h in
      let s1 = (visit c mp target v n s).0 in
      elim (Bool-cases (visit c mp target v n s).1) [
        | inl e ↦
            rw (e, visit_all) (subst (λ f. Grown c mp source target v s s1 f) e one, λ x. absurd cc)
        | inr e ↦
            let (more, all) = visit_all_lem ns s1 b.1 (one.grows v h) in
            let skipped : visit_all c mp target v (n ∷ ns) s ≡ visit_all c mp target v ns s1 =
              rw (e, visit_all) refl in
            subst
              (λ r. Grown c mp source target v s r.0 r.1 × (r.1 ≡ false → Done r.0.detour (n ∷ ns)))
              (sym skipped)
              (rounds_chain s s1 _ one more e, λ x. (λ w y. more.grows w (reached w y), all x))
      ]

  pub remove_min-In :
      (d : Detours) (u w : Router) (ws : List Router)
      → In u (w ∷ ws)
      → (u ≡ (remove_min_detour_nlist d w ws).0) ⊎ In u (remove_min_detour_nlist d w ws).1
  unfolding remove_min_detour_nlist
  remove_min-In d u w [] i = i
  remove_min-In d u w (x ∷ ws) i =
      let m = (remove_min_detour_nlist d x ws).0 in
      elim (Bool-cases (less_detour (d w) (d m))) [
        | inl e ↦ rw (e, remove_min_detour_nlist) i
        | inr e ↦
            rw (e, remove_min_detour_nlist)
              (elim i [
                | inl o ↦ inr (inl o)
                | inr o ↦ elim (remove_min-In d u x ws o) [ inl y ↦ inl y | inr y ↦ inr (inr y) ]
              ])
      ]
