-- ===== src/Sdn/Circuits/Release.antt =====
-- CS_connection_release of applications/MAN_app/SDN_includes/noc_manager.h along a circuit.
use mmemphis.Base.{
  ℕ, zero, suc, ◌<◌, ◌≡◌, refl, ap, ◌∙◌, ◌⊎◌, inl, inr, Bool, ◌&&◌, Option, none, some, ltb, ◌==◌,
  if◌then◌else◌, eq-==, minus_one, arith, Bool-cases, run_if, add32,
}
use mmemphis.Sdn.Noc.{Noc, Ports, east, west, north, local_out, no_port, write}
use mmemphis.Sdn.Hadlock.{Router, neighbour}
use mmemphis.Sdn.Circuits.{Circuits, counts, released_next, release_circuit, cs_connection_release}
use mmemphis.Sdn.Circuits.Path.{
  Entry, port_of, hop, IsCircuit, some-eq, Agrees, Freed, Agrees-write,
}

-- Each port is as it was, or of subnet `mp` and free.
pub record OnlyFrees (mp : ℕ) (a b : Ports) : Type 0 where
  pub ports : (x y s p : ℕ) → (b x y s p ≡ a x y s p) ⊎ ((s ≡ mp) × (b x y s p ≡ no_port))

pub OnlyFrees-trans :
    {mp : ℕ} {a b d : Ports} → OnlyFrees mp a b → OnlyFrees mp b d → OnlyFrees mp a d
OnlyFrees-trans h g = record {
  ports = λ x y s p. elim (g.ports x y s p) [
    | inr free ↦ inr free
    | inl e ↦ elim (h.ports x y s p) [ inl e' ↦ inl (e ∙ e') | inr (m, f) ↦ inr (m, e ∙ f) ]
  ];
}

pub write-OnlyFrees : (a : Ports) (x y mp p : ℕ) → OnlyFrees mp a (write a x y mp p no_port)
write-OnlyFrees a x y mp p = record {
  ports = λ x' y' s p'. elim (Bool-cases (x' == x && y' == y && s == mp && p' == p)) [
    | inl e ↦ inr (ground arith, rw e refl)
    | inr e ↦ inl (rw e refl)
  ];
}

pub write_self : (a : Ports) (x y s p value : ℕ) → write a x y s p value x y s p ≡ value
write_self a x y s p value =
    rw (eq-== x x refl, eq-== y y refl, eq-== s s refl, eq-== p p refl) refl

pub OnlyFrees-free :
    {mp : ℕ} {a b : Ports}
    → OnlyFrees mp a b
    → (x y s p : ℕ) → a x y s p ≡ no_port
    → b x y s p ≡ no_port
OnlyFrees-free h x y s p e = elim (h.ports x y s p) [ inl k ↦ k ∙ e | inr (_, k) ↦ k ]

abbrev pub inside : ℕ × ℕ → Router → Bool
inside grid w = ltb w.0 grid.0 && ltb w.1 grid.1

abbrev pub entered : ℕ × ℕ → Option Entry → Option Entry
entered grid o = elim o [ none ↦ none | some u ↦ if inside grid u.0 then some u else none ]

abbrev pub released : ℕ × ℕ → ℕ → Option Entry → Option Router × ℕ
released grid outport o = elim o [
  | none ↦ (none, if outport == west then east else north)
  | some u ↦ (if inside grid u.0 then some u.0 else none, u.1)
]

pub entered-released :
    (grid : ℕ × ℕ) (outport : ℕ) (o : Option Entry) (next : Entry)
    → entered grid o ≡ some next
    → released grid outport o ≡ (some next.0, next.1)
entered-released grid outport none next k = absurd (cc k)
entered-released grid outport (some u) next k = elim (run_if (inside grid u.0) k) [
  | inl (e, k') ↦ let same-next = some-eq k' in rw (e, ← same-next) refl
  | inr (e, k') ↦ absurd (cc k')
]

abbrev pub grid_of : Noc → ℕ × ℕ
grid_of noc = (noc.sdn_xcluster, noc.sdn_ycluster)

pub hop-released_next :
    (noc : Noc) (v : Router) (next_inport outport : ℕ) (next : Entry)
    → hop (grid_of noc) v outport ≡ some next
    → released_next noc v next_inport outport ≡ (some next.0, next.1)
unfolding released_next
hop-released_next noc v next_inport outport next h = elim (run_if (ltb outport local_out) h) [
  | inl (e, k) ↦ rw e (entered-released (grid_of noc) outport (neighbour outport v) next k)
  | inr (e, k) ↦ absurd (cc k)
]

-- What a release from an entry of a circuit leaves.
abbrev pub Releases :
    ℕ × ℕ → Ports → ℕ → Router → ℕ → Entry → Ports → Option (ℕ × Circuits) → Type 0
Releases grid a mp target n u before o =
    (c' : Circuits) × (o ≡ some (minus_one, c'))
    × Freed grid a c'.noc.cs_inport mp n u
    × OnlyFrees mp before c'.noc.cs_inport

pub release_circuit-Releases :
    (a : Ports) (mp : ℕ) (target : Router) (n : ℕ) (u : Entry) (fuel next_inport : ℕ) (c : Circuits)
    → n < fuel
    → IsCircuit (grid_of c.noc) a mp target n u
    → Agrees (grid_of c.noc) a c.noc.cs_inport mp n u
    → Releases
        (grid_of c.noc)
        a
        mp
        target
        n
        u
        c.noc.cs_inport
        (release_circuit fuel u.0 target mp u.1 next_inport c)
unfolding release_circuit
release_circuit-Releases a mp target n u zero next_inport c l h g = absurd (omega arith)
release_circuit-Releases a mp target zero u (suc fuel) next_inport c l h g =
    let b = c.noc.cs_inport in
    let b1 = write b u.0.0 u.0.1 mp u.1 no_port in
    let first = write-OnlyFrees b u.0.0 u.0.1 mp u.1 in
    let second = write-OnlyFrees b1 u.0.0 u.0.1 mp local_out in
    rw h (
      _,
      refl,
      (
        OnlyFrees-free second u.0.0 u.0.1 mp u.1 (write_self b u.0.0 u.0.1 mp u.1 no_port),
        write_self b1 u.0.0 u.0.1 mp local_out no_port,
      ),
      OnlyFrees-trans first second,
    )
release_circuit-Releases a mp target (suc n) u (suc fuel) next_inport c l h g =
    let (far, next, at, rest) = h in
    let b = c.noc.cs_inport in
    let b1 = write b u.0.0 u.0.1 mp u.1 no_port in
    let first = write-OnlyFrees b u.0.0 u.0.1 mp u.1 in
    let outport-eq : port_of b mp u ≡ port_of a mp u = g.0 in
    let at' : hop (grid_of c.noc) u.0 (port_of b mp u) ≡ some next = rw outport-eq at in
    let goes = hop-released_next c.noc u.0 next_inport (port_of b mp u) next at' in
    let left =
      Agrees-write (grid_of c.noc) a b mp target no_port n n u next (omega arith) h rest
        (g.1 next at) in
    let (c', e, freed, only) =
      release_circuit-Releases a mp target n next fuel next.1
        (record c {
          noc = record c.noc { cs_inport = b1 };
          hops_count = if counts u.1 (port_of b mp u) then add32 c.hops_count 1 else c.hops_count;
        })
        (omega arith) rest left in
    let goes0 : (released_next c.noc u.0 next_inport (port_of b mp u)).0 ≡ some next.0 =
      ap (λ (x : Option Router × ℕ). x.0) goes in
    let goes1 : (released_next c.noc u.0 next_inport (port_of b mp u)).1 ≡ next.1 =
      ap (λ (x : Option Router × ℕ). x.1) goes in
    rw (far, goes0, goes1)
      (
        c',
        e,
        (
          OnlyFrees-free only u.0.0 u.0.1 mp u.1 (write_self b u.0.0 u.0.1 mp u.1 no_port),
          next,
          at,
          freed,
        ),
        OnlyFrees-trans first only,
      )

pub Agrees-self : (grid : ℕ × ℕ) (a : Ports) (mp n : ℕ) (u : Entry) → Agrees grid a a mp n u
Agrees-self grid a mp zero u = tt
Agrees-self grid a mp (suc n) u = (refl, λ next _. Agrees-self grid a mp n next)

-- Where the ports of a subnet lead in `n` hops from the source and an input port to the target, by
-- routers of the cluster and meeting the target only at the end, and the fuel is more than `n`, the
-- release of that circuit returns -1. Then each input port on the way and the target's way out are
-- free, and every port is as it was, or of that subnet and free.
pub cs_connection_release-Releases :
    (source target : Router) (mp inport n fuel : ℕ) (c : Circuits)
    → n < fuel
    → IsCircuit (grid_of c.noc) c.noc.cs_inport mp target n (source, inport)
    → Releases
        (grid_of c.noc)
        c.noc.cs_inport
        mp
        target
        n
        (source, inport)
        c.noc.cs_inport
        (cs_connection_release source target mp inport fuel c)
unfolding cs_connection_release
cs_connection_release-Releases source target mp inport n fuel c l h =
    release_circuit-Releases c.noc.cs_inport mp target n (source, inport) fuel 0
      (record c { hops_count = 0 }) l h
      (Agrees-self (grid_of c.noc) c.noc.cs_inport mp n (source, inport))
