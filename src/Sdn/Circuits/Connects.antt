-- ===== src/Sdn/Circuits/Connects.antt =====
-- CS_connection_setup of applications/MAN_app/SDN_includes/noc_manager.h over the subnets.
use mmemphis.Base.{
  ℕ, zero, suc, ◌*◌, ◌<◌, if◌then◌else◌, ◌≡◌, refl, sym, ap, ◌∙◌, inl, inr, Bool, true, false,
  Option, none, some, arith, run_if,
}
use mmemphis.Sdn.Noc.{Noc, local_in, local_out, no_port}
use mmemphis.Sdn.Hadlock.{Router, Search}
use mmemphis.Sdn.Hadlock.Terminates.{hadlock-returns}
use mmemphis.Sdn.Hadlock.Round.{Reach}
use mmemphis.Sdn.Hadlock.Sound.{hadlock-Reach}
use mmemphis.Sdn.Circuits.{
  Circuits, next_subnet, is_open, searched, retrace, try_subnet, try_subnets, try_all, or_else,
}
use mmemphis.Sdn.Circuits.Subnets.{Alone, retrace-Alone}

-- A circuit on subnet `mp`: the ports of its ends were free, and other subnets are as they were.
pub record Connects (source target : Router) (mp : ℕ) (a b : Noc) : Type 0 where
  pub path : Reach a mp source target
  pub from : a.cs_inport source.0 source.1 mp local_in ≡ no_port
  pub to : a.cs_inport target.0 target.1 mp local_out ≡ no_port
  pub others : Alone mp a.cs_inport b.cs_inport

unfoldable pub Result : Router → Router → Option ℕ → Noc → Noc → Type 0
Result source target none a b = b ≡ a
Result source target (some mp) a b = Connects source target mp a b

pub is_open-from :
    (source target : Router) (mp : ℕ) (a b : Noc)
    → Reach a mp source target
    → is_open source target mp a ≡ true
    → Alone mp a.cs_inport b.cs_inport
    → Connects source target mp a b
unfolding is_open
is_open-from source target mp a b path h others = record {
  path = path;
  from = ground arith;
  to = ground arith;
  others = others;
}

pub searched-Result :
    (source target : Router) (mp : ℕ) (c : Circuits) (f : Bool × Search) (r : Option ℕ)
    (c' : Circuits)
    → (f.0 ≡ true → Reach c.noc mp source target)
    → is_open source target mp c.noc ≡ true
    → searched mp (some f) c ≡ some (r, c')
    → Result source target r c.noc c'.noc
unfolding searched Result
searched-Result source target mp c (true, s) r c' path free h =
    let mp-eq : some mp ≡ r = cc h in
    let end-eq : retrace s.plist mp local_in local_out c ≡ c' = cc h in
    rw (← mp-eq, ← end-eq)
      (is_open-from source target mp c.noc _ (path refl) free
        (retrace-Alone s.plist mp local_in local_out c))
searched-Result source target mp c (false, s) r c' path free h =
    let no-path : none ≡ r = cc h in let same-end : c ≡ c' = cc h in rw (← no-path, ← same-end) refl

-- More fuel than the search needs in this state's grid.
abbrev pub Enough : ℕ → Noc → Type 0
Enough fuel noc = noc.max_grid_x * noc.max_grid_y < fuel

pub try_subnet-Result :
    (source target : Router) (min_path : Bool) (fuel : ℕ) (c : Circuits) (r : Option ℕ)
    (c' : Circuits)
    → Enough fuel c.noc
    → try_subnet source target min_path fuel c ≡ some (r, c')
    → Result source target r c.noc c'.noc
unfolding try_subnet Result
try_subnet-Result source target min_path fuel c r c' enough h =
    let (f, at, path, _) = hadlock-Reach c.noc (next_subnet c) source target min_path fuel enough in
    elim (run_if (is_open source target (next_subnet c) c.noc) h) [
      | inl (free, found) ↦
          searched-Result source target (next_subnet c)
            (record c { subnet_selector = next_subnet c }) f r c' path free
            (ap (λ o. searched (next_subnet c) o (record c { subnet_selector = next_subnet c }))
                (sym at)
              ∙ found)
      | inr (_, kept) ↦
          let no-path : none ≡ r = cc kept in
          let same-end : record c { subnet_selector = next_subnet c } ≡ c' = cc kept in
          rw (← no-path, ← same-end) refl
    ]

pub or_else-Result :
    (source target : Router) (o : Option (Option ℕ × Circuits))
    (again : Circuits → Option (Option ℕ × Circuits)) (a : Noc) (r : Option ℕ) (c' : Circuits)
    → ((r1 : Option ℕ) (c1 : Circuits) → o ≡ some (r1, c1) → Result source target r1 a c1.noc)
    → ((c1 : Circuits)
        → c1.noc ≡ a
        → again c1 ≡ some (r, c')
        → Result source target r c1.noc c'.noc)
    → or_else o again ≡ some (r, c')
    → Result source target r a c'.noc
unfolding or_else Result
or_else-Result source target none again a r c' first second h = absurd (cc h)
or_else-Result source target (some (some mp, c1)) again a r c' first second h =
    let this : some mp ≡ r = cc h in
    let same-end : c1 ≡ c' = cc h in rw (← this, ← same-end) (first (some mp) c1 refl)
or_else-Result source target (some (none, c1)) again a r c' first second h =
    rw (← first none c1 refl) (second c1 (first none c1 refl) h)

pub try_subnets-Result :
    (n : ℕ) (source target : Router) (min_path : Bool) (fuel : ℕ) (c : Circuits) (r : Option ℕ)
    (c' : Circuits)
    → Enough fuel c.noc
    → try_subnets n source target min_path fuel c ≡ some (r, c')
    → Result source target r c.noc c'.noc
unfolding try_subnets Result
try_subnets-Result zero source target min_path fuel c r c' enough h =
    let no-path : none ≡ r = cc h in let same-end : c ≡ c' = cc h in rw (← no-path, ← same-end) refl
try_subnets-Result (suc n) source target min_path fuel c r c' enough h =
    or_else-Result source target _ (try_subnets n source target min_path fuel) c.noc r c'
      (λ r1 c1. try_subnet-Result source target min_path fuel c r1 c1 enough)
      (λ c1 same. try_subnets-Result n source target min_path fuel c1 r c' (rw same enough)) h

pub try_all-Result :
    (source target : Router) (fuel : ℕ) (c : Circuits) (r : Option ℕ) (c' : Circuits)
    → Enough fuel c.noc
    → try_all source target fuel c ≡ some (r, c')
    → Result source target r c.noc c'.noc
unfolding try_all
try_all-Result source target fuel c r c' enough =
    or_else-Result source target _ (λ c1. try_subnets c1.noc.cs_nets source target false fuel c1)
      c.noc r c' (λ r1 c1. try_subnets-Result c.noc.cs_nets source target true fuel c r1 c1 enough)
      (λ c1 same.
        try_subnets-Result c1.noc.cs_nets source target false fuel c1 r c' (rw same enough))

abbrev pub Returns : Option (Option ℕ × Circuits) → Type 0
Returns o = (r : Option ℕ × Circuits) × (o ≡ some r)

pub searched-Returns :
    (mp : ℕ) (r : Bool × Search) (c : Circuits) → Returns (searched mp (some r) c)
unfolding searched
searched-Returns mp (true, s) c = (_, refl)
searched-Returns mp (false, s) c = (_, refl)

pub if-Returns :
    (b : Bool) (first second : Option (Option ℕ × Circuits))
    → Returns first
    → Returns second
    → Returns (if b then first else second)
if-Returns true first second h g = h
if-Returns false first second h g = g

pub try_subnet-Returns :
    (source target : Router) (min_path : Bool) (fuel : ℕ) (c : Circuits)
    → Enough fuel c.noc
    → Returns (try_subnet source target min_path fuel c)
unfolding try_subnet
try_subnet-Returns source target min_path fuel c h =
    let mp = next_subnet c in
    let (r, e) = hadlock-returns c.noc mp min_path source target fuel h in
    if-Returns (is_open source target mp c.noc) _ _
      (rw e (searched-Returns mp r (record c { subnet_selector = mp }))) (_, refl)

pub or_else-Returns :
    (o : Option (Option ℕ × Circuits)) (again : Circuits → Option (Option ℕ × Circuits))
    → Returns o
    → ((c : Circuits) → o ≡ some (none, c) → Returns (again c))
    → Returns (or_else o again)
unfolding or_else
or_else-Returns none again (r, e) next = absurd (cc e)
or_else-Returns (some (some mp, c)) again h next = (_, refl)
or_else-Returns (some (none, c)) again h next = next c refl

pub try_subnets-Returns :
    (n : ℕ) (source target : Router) (min_path : Bool) (fuel : ℕ) (c : Circuits)
    → Enough fuel c.noc
    → Returns (try_subnets n source target min_path fuel c)
unfolding try_subnets Result
try_subnets-Returns zero source target min_path fuel c h = (_, refl)
try_subnets-Returns (suc n) source target min_path fuel c h =
    or_else-Returns _ (try_subnets n source target min_path fuel)
      (try_subnet-Returns source target min_path fuel c h)
      (λ c1 e.
        let same = try_subnet-Result source target min_path fuel c none c1 h e in
        try_subnets-Returns n source target min_path fuel c1 (rw same h))

pub try_all-Returns :
    (source target : Router) (fuel : ℕ) (c : Circuits)
    → Enough fuel c.noc
    → Returns (try_all source target fuel c)
unfolding try_all Result
try_all-Returns source target fuel c h =
    or_else-Returns _ (λ c1. try_subnets c1.noc.cs_nets source target false fuel c1)
      (try_subnets-Returns c.noc.cs_nets source target true fuel c h)
      (λ c1 e.
        let same = try_subnets-Result c.noc.cs_nets source target true fuel c none c1 h e in
        try_subnets-Returns c1.noc.cs_nets source target false fuel c1 (rw same h))
