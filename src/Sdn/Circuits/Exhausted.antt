-- ===== src/Sdn/Circuits/Exhausted.antt =====
-- CS_connection_setup of applications/MAN_app/SDN_includes/noc_manager.h: which subnets it tries.
use mmemphis.Base.{
  ℕ, zero, suc, ◌+◌, ◌-◌, ◌≤◌, ◌<◌, ◌≡◌, refl, sym, ap, ◌∙◌, ◌⊎◌, inl, inr, Bool, true, false,
  Option, none, some, ltb, ◌==◌, if◌then◌else◌, minus_one, arith, run_if,
}
use mmemphis.Sdn.Noc.{Noc}
use mmemphis.Sdn.Hadlock.{Router, Search, hadlock}
use mmemphis.Sdn.Hadlock.Round.{Reach}
use mmemphis.Sdn.Hadlock.Sound.{hadlock-Reach}
use mmemphis.Sdn.Circuits.{
  Circuits, next_subnet, is_open, searched, or_else, try_subnet, try_subnets, try_all,
  cs_connection_setup,
}
use mmemphis.Sdn.Circuits.Connects.{
  Connects, Result, Enough, try_subnet-Result, try_subnets-Result, try_all-Result, try_all-Returns,
}

-- How many rounds from a selector to a subnet.
abbrev pub ahead : ℕ → ℕ → ℕ → ℕ
ahead nets selector mp = if ltb selector mp then mp - selector else mp + nets - selector

abbrev pub after : ℕ → ℕ → ℕ
after nets selector = if selector == nets - 1 then 0 else selector + 1

pub ahead-after :
    (nets selector mp n : ℕ)
    → selector < nets
    → mp < nets
    → ahead nets selector mp ≤ suc n
    → (after nets selector ≡ mp) ⊎ (ahead nets (after nets selector) mp ≤ n)
ahead-after nets selector mp n h g l = ground arith

pub ahead-positive :
    (nets selector mp : ℕ) → selector < nets → mp < nets → zero < ahead nets selector mp
ahead-positive nets selector mp h g = ground arith

pub ahead-le : (nets selector mp : ℕ) → selector < nets → mp < nets → ahead nets selector mp ≤ nets
ahead-le nets selector mp h g = ground arith

pub after-lt : (nets selector : ℕ) → selector < nets → after nets selector < nets
after-lt nets selector h = ground arith

-- No circuit fits on the subnet: an end is taken, or no free ports lead to the target.
abbrev pub Blocked : Router → Router → Noc → ℕ → Type 0
Blocked source target noc mp = is_open source target mp noc ≡ true → ¬ Reach noc mp source target

pub try_subnet-selector :
    (source target : Router) (min_path : Bool) (fuel : ℕ) (c c' : Circuits)
    → try_subnet source target min_path fuel c ≡ some (none, c')
    → c'.subnet_selector ≡ next_subnet c
unfolding try_subnet searched
try_subnet-selector source target min_path fuel c c' h =
    elim (run_if (is_open source target (next_subnet c) c.noc) h) [
      | inl (_, k) ↦ go (hadlock c.noc (next_subnet c) min_path source target fuel) k
      | inr (_, k) ↦
          let same-end : record c { subnet_selector = next_subnet c } ≡ c' = cc k in
          ap (λ (d : Circuits). d.subnet_selector) (sym same-end)
    ]
  where
    go :
        (o : Option (Bool × Search))
        → searched (next_subnet c) o (record c { subnet_selector = next_subnet c })
          ≡ some (none, c')
        → c'.subnet_selector ≡ next_subnet c
    go none k = absurd (cc k)
    go (some (true, s)) k = absurd (cc k)
    go (some (false, s)) k =
        let same-end : record c { subnet_selector = next_subnet c } ≡ c' = cc k in
        ap (λ (d : Circuits). d.subnet_selector) (sym same-end)

pub searched-none :
    (mp : ℕ) (f : Bool × Search) (c c' : Circuits)
    → searched mp (some f) c ≡ some (none, c')
    → f.0 ≡ false
unfolding searched
searched-none mp (true, s) c c' h = absurd (cc h)
searched-none mp (false, s) c c' h = refl

pub try_subnet-Blocked :
    (source target : Router) (fuel : ℕ) (c c' : Circuits)
    → Enough fuel c.noc
    → try_subnet source target false fuel c ≡ some (none, c')
    → Blocked source target c.noc (next_subnet c)
unfolding try_subnet
try_subnet-Blocked source target fuel c c' enough h free path =
    let mp = next_subnet c in
    let c1 : Circuits = record c { subnet_selector = mp } in
    let (f, at, _, all) = hadlock-Reach c.noc mp source target false fuel enough in
    let found : f.0 ≡ true = all refl path in
    let failed : searched mp (some f) c1 ≡ some (none, c') =
      ap (λ o. searched mp o c1) (sym at)
      ∙ ap
          (λ b.
            if b
            then searched mp (hadlock c.noc mp false source target fuel) c1
            else some (none, c1))
          (sym free)
      ∙ h in
    absurd (cc (searched-none mp f c1 c' failed, found))

pub or_else-none :
    (o : Option (Option ℕ × Circuits)) (again : Circuits → Option (Option ℕ × Circuits))
    (c' : Circuits)
    → or_else o again ≡ some (none, c')
    → (c1 : Circuits) × (o ≡ some (none, c1)) × (again c1 ≡ some (none, c'))
unfolding or_else
or_else-none none again c' h = absurd (cc h)
or_else-none (some (some mp, c1)) again c' h = absurd (cc h)
or_else-none (some (none, c1)) again c' h = (c1, refl, h)

-- The last selector of `n` rounds that found nothing is again a subnet.
pub try_subnets-selector :
    (n : ℕ) (source target : Router) (min_path : Bool) (fuel : ℕ) (c c' : Circuits)
    → Enough fuel c.noc
    → c.subnet_selector < c.noc.cs_nets
    → try_subnets n source target min_path fuel c ≡ some (none, c')
    → c'.subnet_selector < c'.noc.cs_nets
unfolding try_subnets Result
try_subnets-selector zero source target min_path fuel c c' enough l h =
    let same-end : c ≡ c' = cc h in rw (← same-end) l
try_subnets-selector (suc n) source target min_path fuel c c' enough l h =
    let (c1, first, rest) =
      or_else-none (try_subnet source target min_path fuel c)
        (try_subnets n source target min_path fuel) c' h in
    let same = try_subnet-Result source target min_path fuel c none c1 enough first in
    let at = try_subnet-selector source target min_path fuel c c1 first in
    try_subnets-selector n source target min_path fuel c1 c' (rw same enough)
      (rw (same, at) (after-lt c.noc.cs_nets c.subnet_selector l)) rest

-- `n` rounds that found nothing have tried every subnet up to `n` rounds away.
pub try_subnets-Blocked :
    (n : ℕ) (source target : Router) (fuel : ℕ) (c c' : Circuits) (mp : ℕ)
    → Enough fuel c.noc
    → c.subnet_selector < c.noc.cs_nets
    → mp < c.noc.cs_nets
    → ahead c.noc.cs_nets c.subnet_selector mp ≤ n
    → try_subnets n source target false fuel c ≡ some (none, c')
    → Blocked source target c.noc mp
unfolding try_subnets Result
try_subnets-Blocked zero source target fuel c c' mp enough l g near h =
    let positive = ahead-positive c.noc.cs_nets c.subnet_selector mp l g in absurd (omega arith)
try_subnets-Blocked (suc n) source target fuel c c' mp enough l g near h =
    let (c1, first, rest) =
      or_else-none (try_subnet source target false fuel c) (try_subnets n source target false fuel)
        c' h in
    let same = try_subnet-Result source target false fuel c none c1 enough first in
    let at = try_subnet-selector source target false fuel c c1 first in
    elim (ahead-after c.noc.cs_nets c.subnet_selector mp n l g near) [
      | inl e ↦ rw (← e) (try_subnet-Blocked source target fuel c c1 enough first)
      | inr nearer ↦ rw (← same) (
          try_subnets-Blocked n source target fuel c1 c' mp (rw same enough)
            (rw (same, at) (after-lt c.noc.cs_nets c.subnet_selector l)) (rw same g)
            (rw (same, at) nearer) rest)
    ]

pub try_all-Blocked :
    (source target : Router) (fuel : ℕ) (c c' : Circuits) (mp : ℕ)
    → Enough fuel c.noc
    → c.subnet_selector < c.noc.cs_nets
    → mp < c.noc.cs_nets
    → try_all source target fuel c ≡ some (none, c')
    → Blocked source target c.noc mp
unfolding try_all Result
try_all-Blocked source target fuel c c' mp enough l g h =
    let nets = c.noc.cs_nets in
    let (c1, first, rest) =
      or_else-none (try_subnets nets source target true fuel c)
        (λ d. try_subnets d.noc.cs_nets source target false fuel d) c' h in
    let same = try_subnets-Result nets source target true fuel c none c1 enough first in
    let within = try_subnets-selector nets source target true fuel c c1 enough l first in
    let inside : mp < c1.noc.cs_nets = rw same g in
    rw (← same) (
      try_subnets-Blocked c1.noc.cs_nets source target fuel c1 c' mp (rw same enough) within inside
        (ahead-le c1.noc.cs_nets c1.subnet_selector mp within inside) rest)

-- A circuit fits on a subnet: both ends are free there, and free ports lead to the target.
abbrev pub Fits : Router → Router → Noc → ℕ → Type 0
Fits source target noc mp =
    (mp < noc.cs_nets) × (is_open source target mp noc ≡ true) × Reach noc mp source target

abbrev pub Answered : Router → Router → Noc → ℕ × Circuits → Type 0
Answered source target noc r =
    ((r.0 ≡ minus_one) × (r.1.noc ≡ noc) × ¬ ((mp : ℕ) × Fits source target noc mp))
    ⊎ Connects source target r.0 noc r.1.noc

-- With more fuel than the grid has routers, and a selector that is one of the subnets, the set-up
-- of a connection always returns. Either it answers -1, the state of the routers then being as it
-- was, and there was no subnet with the source's way in and the target's way out free and free
-- ports that lead from the one to the other; or it answers a subnet on which both ways were free
-- and free ports led there, and no port of another subnet has changed.
pub cs_connection_setup-Answered :
    (source target : Router) (fuel : ℕ) (c : Circuits)
    → Enough fuel c.noc
    → c.subnet_selector < c.noc.cs_nets
    → (r : ℕ × Circuits) × (cs_connection_setup source target fuel c ≡ some r)
      × Answered source target c.noc r
unfolding cs_connection_setup Result
cs_connection_setup-Answered source target fuel c enough l =
    let (r, e) = try_all-Returns source target fuel c enough in
    rw (e, cs_connection_setup)
      (answer r.0 r.1 e (try_all-Result source target fuel c r.0 r.1 enough e))
  where
    answer :
        (found : Option ℕ) (c' : Circuits)
        → try_all source target fuel c ≡ some (found, c')
        → Result source target found c.noc c'.noc
        → (r : ℕ × Circuits) × (some (elim found [ some mp ↦ mp | none ↦ minus_one ], c') ≡ some r)
          × Answered source target c.noc r
    answer none c' e g = (
      _,
      refl,
      inl (
        refl,
        g,
        λ (mp, fits). try_all-Blocked source target fuel c c' mp enough l fits.0 e fits.1 fits.2,
      ),
    )
    answer (some mp) c' e g = (_, refl, inr g)
