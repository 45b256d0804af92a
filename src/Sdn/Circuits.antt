-- ===== src/Sdn/Circuits.antt =====
-- The circuits of a cluster, in applications/MAN_app/SDN_includes/noc_manager.h: a path that the
-- search has found is written into the routers, and released again. The debugging prints,
-- print_paths and print_path_size are left out; the calls of ConfigRouter are kept in a list.
pub mod Subnets
pub mod Connects
pub mod Exhausted
pub mod Path
pub mod Release
use mmemphis.Base.{
  ℕ, zero, suc, ◌+◌, ◌-◌, ◌*◌, ◌/◌, ◌%◌, ◌^◌, Bool, true, false, not, ◌&&◌, Option, none, some,
  List, [], ◌∷◌, ◌++◌, ltb, ◌==◌, if◌then◌else◌, length, get_or, take, index?, minus_one, add32,
  Outcome, done, hangs,
}
use mmemphis.Sdn.Noc.{
  Noc, Ports, east, west, north, south, local_out, local_in, port_number, no_port, write,
  is_element_reachable, manhattan,
}
use mmemphis.Sdn.Hadlock.{Router, Search, hadlock, neighbour, same}

-- ConfigRouter: a router's address, its ports, `input << 8 | output`, and the subnet.
pub record Config : Type 0 where
  pub router : ℕ
  pub ports : ℕ
  pub subnet : ℕ

-- `cluster_path` holds `global_path_size` words; the unsigned counts wrap around.
pub record Circuits : Type 0 where
  pub noc : Noc
  pub x_offset : ℕ
  pub y_offset : ℕ
  pub hops_count : ℕ
  pub subnet_utilization : ℕ → ℕ
  pub subnet_selector : ℕ
  pub cluster_path : List ℕ
  pub configs : List Config

abbrev pub set_port : Router → ℕ → ℕ → ℕ → Circuits → Circuits
set_port v mp port value c = record c {
  noc = record c.noc { cs_inport = write c.noc.cs_inport v.0 v.1 mp port value };
}

abbrev pub all_ports : Router → ℕ → ℕ → Ports → Ports
all_ports v nets value a x y s p =
    if x == v.0 && y == v.1 && ltb s nets && ltb p port_number then value else a x y s p

-- The port number 6 stands for the whole router; 9 is a port that is taken by no path. The port is
-- an `int`, as its bit pattern.
unfoldable pub set_fault : ℕ → ℕ → ℕ → Circuits → Outcome Circuits
set_fault router_addr subnet input_port c =
    let v : Router = (router_addr / 256, router_addr % 256) in
    let router = record c {
      noc = record c.noc { cs_inport = all_ports v c.noc.cs_nets 9 c.noc.cs_inport };
    } in
    if ltb input_port port_number
    then done (set_port v subnet input_port 9 c)
    else (if input_port == port_number then done router else hangs)

-- A `unsigned short` of a subnet.
abbrev pub add_utilization : ℕ → ℕ → Circuits → Circuits
add_utilization mp hops c = record c {
  subnet_utilization =
      λ s. let u = c.subnet_utilization s in if s == mp then (u + hops) % 2 ^ 16 else u;
}

abbrev pub sub_utilization : ℕ → ℕ → Circuits → Circuits
sub_utilization mp hops c = record c {
  subnet_utilization = λ s.
      let u = c.subnet_utilization s in
      if s == mp then (u + 2 ^ 16 - hops % 2 ^ 16) % 2 ^ 16 else u;
}

-- The port of a router that leads to another, and the other's that leads back.
unfoldable pub ports_between : Router → Router → ℕ × ℕ
ports_between v n =
    if ltb v.0 n.0
    then (east, west)
    else (if ltb n.0 v.0
        then (west, east)
        else (if ltb v.1 n.1 then (north, south) else (south, north)))

abbrev pub configure : Router → ℕ → ℕ → ℕ → Circuits → Circuits
configure v inport outport mp c = record c {
  configs =
      c.configs
      ++ record {
        router = (v.0 + c.x_offset) * 256 + (v.1 + c.y_offset);
        ports = inport * 256 + outport;
        subnet = mp;
      }
        ∷ [];
}

-- A router of the path: written in a cluster, noted across clusters.
unfoldable pub pass : Router → ℕ → ℕ → ℕ → Bool → Circuits → Circuits
pass v inport outport mp counted c =
    let hops = if counted then add32 c.hops_count 1 else c.hops_count in
    if c.noc.is_global_search
    then record c {
      cluster_path = c.cluster_path ++ (v.0 * 2 ^ 24 + v.1 * 2 ^ 16 + inport * 256 + outport) ∷ [];
    }
    else configure v inport outport mp
        (record (set_port v mp inport outport c) { hops_count = hops })

-- The first router of the list that leads to `v` directly.
abbrev pub leads_to : Noc → ℕ → Router → Router → Bool
leads_to noc mp v n =
    manhattan v.0 v.1 n.0 n.1 == 1
    && is_element_reachable noc n.0 n.1 v.0 v.1 (ports_between v n).0 mp

-- The loop from index `i - 1` of the list down, on fuel: the router and the output port at its end.
unfoldable pub retrace_from :
    ℕ → ℕ → List Router → ℕ → Router → ℕ → Circuits → Router × ℕ × Circuits
retrace_from zero i plist mp v outport c = (v, outport, c)
retrace_from (suc fuel) zero plist mp v outport c = (v, outport, c)
retrace_from (suc fuel) (suc i) plist mp v outport c =
    let k : ℕ = elim (index? (leads_to c.noc mp v) (take i plist)) [ none ↦ i | some k ↦ k ] in
    let n = get_or plist k v in
    let (inport, outport_next) = ports_between v n in
    retrace_from fuel k plist mp n outport_next
      (pass v inport outport mp (not (outport == local_out)) c)

abbrev pub counts : ℕ → ℕ → Bool
counts beg_inport outport = not (beg_inport == local_in) && not (outport == local_out)

-- What comes before the walk: the counts are reset, and the target's way out is taken.
unfoldable pub start_retrace : Router → ℕ → ℕ → Circuits → Circuits
start_retrace v mp end_outport c0 =
    let global = c0.noc.is_global_search in
    let c = record c0 { hops_count = 0; cluster_path = if global then [] else c0.cluster_path } in
    if not global && end_outport == local_out then set_port v mp local_out 9 c else c

-- The last step, at the router where the path begins.
unfoldable pub end_retrace : Router → ℕ → ℕ → ℕ → Circuits → Circuits
end_retrace v mp beg_inport outport c =
    let c1 = pass v beg_inport outport mp (counts beg_inport outport) c in
    if c.noc.is_global_search then c1 else add_utilization mp c1.hops_count c1

-- From the last router of a list that is not empty. A path of one router is not noted across
-- clusters.
unfoldable pub retrace : List Router → ℕ → ℕ → ℕ → Circuits → Circuits
retrace plist mp beg_inport end_outport c0 =
    let n = length plist in
    let v = get_or plist (n - 1) (0, 0) in
    let c = start_retrace v mp end_outport c0 in
    let (w, outport, c') = retrace_from n n plist mp v end_outport c in
    if n == 1
    then (if c.noc.is_global_search then c else end_retrace v mp beg_inport end_outport c)
    else end_retrace w mp beg_inport outport c'

abbrev pub next_subnet : Circuits → ℕ
next_subnet c = if c.subnet_selector == c.noc.cs_nets - 1 then 0 else c.subnet_selector + 1

unfoldable pub is_open : Router → Router → ℕ → Noc → Bool
is_open source target mp noc =
    noc.cs_inport source.0 source.1 mp local_in == no_port
    && noc.cs_inport target.0 target.1 mp local_out == no_port

-- What follows a search: its path is retraced.
unfoldable pub searched : ℕ → Option (Bool × Search) → Circuits → Option (Option ℕ × Circuits)
searched mp none c = none
searched mp (some (true, s)) c = some (some mp, retrace s.plist mp local_in local_out c)
searched mp (some (false, s)) c = some (none, c)

-- One round of the loop of CS_connection_setup on the next subnet: the subnet that has a path.
unfoldable pub try_subnet : Router → Router → Bool → ℕ → Circuits → Option (Option ℕ × Circuits)
try_subnet source target min_path fuel c =
    let mp = next_subnet c in
    let c' = record c { subnet_selector = mp } in
    let round = searched mp (hadlock c.noc mp min_path source target fuel) c' in
    if is_open source target mp c.noc then round else some (none, c')

-- A further attempt where one has found no subnet.
unfoldable pub or_else :
    Option (Option ℕ × Circuits)
    → (Circuits → Option (Option ℕ × Circuits))
    → Option (Option ℕ × Circuits)
or_else none again = none
or_else (some (some mp, c)) again = some (some mp, c)
or_else (some (none, c)) again = again c

-- `n` rounds with one setting of `min_path`.
unfoldable pub try_subnets :
    ℕ → Router → Router → Bool → ℕ → Circuits → Option (Option ℕ × Circuits)
try_subnets zero source target min_path fuel c = some (none, c)
try_subnets (suc n) source target min_path fuel c =
    or_else (try_subnet source target min_path fuel c) (try_subnets n source target min_path fuel)

-- Every subnet is tried for a minimal path, then for any.
unfoldable pub try_all : Router → Router → ℕ → Circuits → Option (Option ℕ × Circuits)
try_all source target fuel c =
    or_else (try_subnets c.noc.cs_nets source target true fuel c)
      (λ c1. try_subnets c1.noc.cs_nets source target false fuel c1)

-- The subnet, or -1 where none has a path. `none`: the search ran out of fuel.
unfoldable pub cs_connection_setup : Router → Router → ℕ → Circuits → Option (ℕ × Circuits)
cs_connection_setup source target fuel c = elim (try_all source target fuel c) [
  | none ↦ none
  | some (found, c') ↦ some (elim found [ some mp ↦ mp | none ↦ minus_one ], c')
]

-- The next router of a release and its input port; another port than the four leaves both. The
-- router is `none` where a coordinate leaves the cluster.
unfoldable pub released_next : Noc → Router → ℕ → ℕ → Option Router × ℕ
released_next noc v next_inport outport =
    let inside : Router → Option Router =
      λ w. if ltb w.0 noc.sdn_xcluster && ltb w.1 noc.sdn_ycluster then some w else none in
    if ltb outport local_out
    then elim (neighbour outport v) [
      | none ↦ (none, if outport == west then east else north)
      | some (w, inport) ↦ (inside w, inport)
    ]
    else (inside v, next_inport)

-- The loop of CS_connection_release, on fuel: at the target the rest, and the return value.
unfoldable pub release_circuit : ℕ → Router → Router → ℕ → ℕ → ℕ → Circuits → Option (ℕ × Circuits)
release_circuit zero v target mp inport next_inport c = none
release_circuit (suc fuel) v target mp inport next_inport c =
    let outport = c.noc.cs_inport v.0 v.1 mp inport in
    let c1 = set_port v mp inport no_port c in
    let hops = if counts inport outport then add32 c.hops_count 1 else c.hops_count in
    let c2 = record c1 { hops_count = hops } in
    let (w, inport') = released_next c.noc v next_inport outport in
    let walked : Option (ℕ × Circuits) = elim w [
      | none ↦ some ((v.0 * 256 + v.1) * 65536 + inport', sub_utilization mp hops c2)
      | some w ↦ release_circuit fuel w target mp inport' inport' c2
    ] in
    if same v target
    then some (minus_one, sub_utilization mp c.hops_count (set_port v mp local_out no_port c1))
    else walked

-- The answer is -1, or the last router and its neighbour's port where the path leaves the cluster.
unfoldable pub cs_connection_release :
    Router → Router → ℕ → ℕ → ℕ → Circuits → Option (ℕ × Circuits)
cs_connection_release source target mp inport fuel c =
    release_circuit fuel source target mp inport 0 (record c { hops_count = 0 })
