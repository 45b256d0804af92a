-- ===== src/Sdn/Circuits/Path.antt =====
-- The ports of a circuit, of applications/MAN_app/SDN_includes/noc_manager.h, as a path.
use mmemphis.Base.{
  ℕ, zero, suc, ◌≤◌, ◌≡◌, refl, sym, ap, ◌∙◌, ◌⊎◌, inl, inr, true, false, ◌&&◌, Option, none, some,
  ltb, ◌==◌, if◌then◌else◌, arith, Bool-cases,
}
use mmemphis.Sdn.Noc.{Ports, local_out, no_port, write}
use mmemphis.Sdn.Hadlock.{Router, same, neighbour}

-- A router and an input port.
abbrev pub Entry : Type 0
Entry = Router × ℕ

abbrev pub port_of : Ports → ℕ → Entry → ℕ
port_of a mp u = a u.0.0 u.0.1 mp u.1

-- The next router of a circuit and its input port; none at its end, or where it leaves the cluster.
abbrev pub hop : ℕ × ℕ → Router → ℕ → Option Entry
hop grid v outport =
    if ltb outport local_out
    then elim (neighbour outport v) [
      | none ↦ none
      | some u ↦ if ltb u.0.0 grid.0 && ltb u.0.1 grid.1 then some u else none
    ]
    else none

-- From this router and input port, `n` hops lead to the target for the first time.
abbrev pub IsCircuit : ℕ × ℕ → Ports → ℕ → Router → ℕ → Entry → Type 0
IsCircuit grid a mp target zero u = same u.0 target ≡ true
IsCircuit grid a mp target (suc n) u =
    (same u.0 target ≡ false)
    × (next : Entry) × (hop grid u.0 (port_of a mp u) ≡ some next)
    × IsCircuit grid a mp target n next

pub some-eq : {a b : Entry} → some a ≡ some b → a ≡ b
some-eq e = cc

pub length_unique :
    (grid : ℕ × ℕ) (a : Ports) (mp : ℕ) (target : Router) (n m : ℕ) (u w : Entry)
    → u ≡ w
    → IsCircuit grid a mp target n u
    → IsCircuit grid a mp target m w
    → n ≡ m
length_unique grid a mp target zero zero u w e h g = refl
length_unique grid a mp target zero (suc m) u w e h g =
    let clash : true ≡ false = sym h ∙ ap (λ (x : Entry). same x.0 target) e ∙ g.0 in
    absurd (cc clash)
length_unique grid a mp target (suc n) zero u w e h g =
    let clash : false ≡ true = sym h.0 ∙ ap (λ (x : Entry). same x.0 target) e ∙ g in
    absurd (cc clash)
length_unique grid a mp target (suc n) (suc m) u w e (_, next, at, h) (_, next', at', g) =
    let both : some next ≡ some next' =
      sym at ∙ ap (λ (x : Entry). hop grid x.0 (port_of a mp x)) e ∙ at' in
    ap suc (length_unique grid a mp target n m next next' (some-eq both) h g)

-- The ports `b` are those of `a` on the rest of a circuit.
abbrev pub Agrees : ℕ × ℕ → Ports → Ports → ℕ → ℕ → Entry → Type 0
Agrees grid a b mp zero u = Unit
Agrees grid a b mp (suc n) u =
    (port_of b mp u ≡ port_of a mp u)
    × ((next : Entry) → hop grid u.0 (port_of a mp u) ≡ some next → Agrees grid a b mp n next)

-- The ports along a circuit are free, and the target's way out.
abbrev pub Freed : ℕ × ℕ → Ports → Ports → ℕ → ℕ → Entry → Type 0
Freed grid a b mp zero u = (port_of b mp u ≡ no_port) × (b u.0.0 u.0.1 mp local_out ≡ no_port)
Freed grid a b mp (suc n) u =
    (port_of b mp u ≡ no_port)
    × (next : Entry) × (hop grid u.0 (port_of a mp u) ≡ some next)
    × Freed grid a b mp n next

pub entry-cases :
    (b : Ports) (mp value : ℕ) (u w : Entry)
    → (w ≡ u) ⊎ (port_of (write b u.0.0 u.0.1 mp u.1 value) mp w ≡ port_of b mp w)
entry-cases b mp value u w = elim (Bool-cases (w.0.0 == u.0.0 && w.0.1 == u.0.1 && w.1 == u.1)) [
  | inl e ↦ inl (ground arith)
  | inr e ↦ inr (ground arith)
]

pub Agrees-write :
    (grid : ℕ × ℕ) (a b : Ports) (mp : ℕ) (target : Router) (value : ℕ) (n m : ℕ) (u w : Entry)
    → n ≤ m
    → IsCircuit grid a mp target (suc m) u
    → IsCircuit grid a mp target n w
    → Agrees grid a b mp n w
    → Agrees grid a (write b u.0.0 u.0.1 mp u.1 value) mp n w
Agrees-write grid a b mp target value zero m u w l whole h g = tt
Agrees-write grid a b mp target value (suc n) m u w l whole h g =
    elim (entry-cases b mp value u w) [
      | inl e ↦
          let short = length_unique grid a mp target (suc n) (suc m) w u e h whole in
          absurd (omega arith)
      | inr e ↦ (
        e ∙ g.0,
        λ next at.
            let (_, next', at', rest) = h in
            let same-next = some-eq (sym at' ∙ at) in
            Agrees-write grid a b mp target value n m u next (omega arith) whole
              (rw (← same-next) rest) (g.1 next at),
      )
    ]
