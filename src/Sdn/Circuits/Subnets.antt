-- ===== src/Sdn/Circuits/Subnets.antt =====
-- The subnets that a connection leaves alone, of applications/MAN_app/SDN_includes/noc_manager.h.
use mmemphis.Base.{
  ℕ, zero, suc, ◌≡◌, refl, ◌∙◌, ◌≢◌, Bool, not, length, get_or, ◌-◌, true, false, ◌&&◌, List, ◌==◌,
  if◌then◌else◌, ne-==,
}
use mmemphis.Sdn.Noc.{local_out, Ports}
use mmemphis.Sdn.Hadlock.{Router}
use mmemphis.Sdn.Circuits.{
  Circuits, set_port, pass, counts, start_retrace, end_retrace, retrace_from, retrace,
}

-- No port of another subnet than `mp` differs.
pub record Alone (mp : ℕ) (a b : Ports) : Type 0 where
  pub kept : (s : ℕ) → s ≢ mp → (x y p : ℕ) → b x y s p ≡ a x y s p

pub Alone-refl : (mp : ℕ) (a : Ports) → Alone mp a a
Alone-refl mp a = record { kept = λ _ _ _ _ _. refl }

pub and_false : (a b d : Bool) → (a && b && false && d) ≡ false
and_false false b d = refl
and_false true false d = refl
and_false true true d = refl

pub set_port-Alone :
    (v : Router) (mp port value : ℕ) (c : Circuits)
    → Alone mp c.noc.cs_inport (set_port v mp port value c).noc.cs_inport
set_port-Alone v mp port value c = record {
  kept = λ s n x y p. rw (ne-== s mp n, and_false (x == v.0) (y == v.1) (p == port)) refl;
}

pub if-Alone :
    {mp : ℕ} {a : Ports} (b : Bool) (c1 c2 : Circuits)
    → Alone mp a c1.noc.cs_inport
    → Alone mp a c2.noc.cs_inport
    → Alone mp a (if b then c1 else c2).noc.cs_inport
if-Alone true c1 c2 h g = h
if-Alone false c1 c2 h g = g

pub pass-Alone :
    (v : Router) (inport outport mp : ℕ) (counted : Bool) (c : Circuits)
    → Alone mp c.noc.cs_inport (pass v inport outport mp counted c).noc.cs_inport
unfolding pass
pass-Alone v inport outport mp counted c =
    if-Alone c.noc.is_global_search _ _ (Alone-refl mp _) (set_port-Alone v mp inport outport c)

pub Alone-trans : {mp : ℕ} {a b d : Ports} → Alone mp a b → Alone mp b d → Alone mp a d
Alone-trans h g = record { kept = λ s n x y p. g.kept s n x y p ∙ h.kept s n x y p }

pub retrace_from-Alone :
    (fuel i : ℕ) (plist : List Router) (mp : ℕ) (v : Router) (outport : ℕ) (c : Circuits)
    → Alone mp c.noc.cs_inport (retrace_from fuel i plist mp v outport c).2.noc.cs_inport
unfolding retrace_from
retrace_from-Alone zero i plist mp v outport c = Alone-refl mp _
retrace_from-Alone (suc fuel) zero plist mp v outport c = Alone-refl mp _
retrace_from-Alone (suc fuel) (suc i) plist mp v outport c =
    Alone-trans (pass-Alone v _ outport mp _ c) (retrace_from-Alone fuel _ plist mp _ _ _)

pub start_retrace-Alone :
    (v : Router) (mp end_outport : ℕ) (c : Circuits)
    → Alone mp c.noc.cs_inport (start_retrace v mp end_outport c).noc.cs_inport
unfolding start_retrace
start_retrace-Alone v mp end_outport c =
    if-Alone (not c.noc.is_global_search && end_outport == local_out) _ _
      (set_port-Alone v mp local_out 9 c) (Alone-refl mp _)

pub end_retrace-Alone :
    (v : Router) (mp beg_inport outport : ℕ) (c : Circuits)
    → Alone mp c.noc.cs_inport (end_retrace v mp beg_inport outport c).noc.cs_inport
unfolding end_retrace
end_retrace-Alone v mp beg_inport outport c =
    let passed = pass-Alone v beg_inport outport mp (counts beg_inport outport) c in
    if-Alone c.noc.is_global_search _ _ passed passed

pub retrace-Alone :
    (plist : List Router) (mp beg_inport end_outport : ℕ) (c : Circuits)
    → Alone mp c.noc.cs_inport (retrace plist mp beg_inport end_outport c).noc.cs_inport
unfolding retrace
retrace-Alone plist mp beg_inport end_outport c =
    let v = get_or plist (length plist - 1) (0, 0) in
    let n = length plist in
    let c1 = start_retrace v mp end_outport c in
    let start = start_retrace-Alone v mp end_outport c in
    let walk = Alone-trans start (retrace_from-Alone n n plist mp v end_outport c1) in
    if-Alone (n == 1) _ _
      (if-Alone c1.noc.is_global_search _ _ start
        (Alone-trans start (end_retrace-Alone v mp beg_inport end_outport c1)))
      (Alone-trans walk (end_retrace-Alone _ mp beg_inport _ _))
