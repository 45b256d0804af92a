-- ===== src/Tests/Control.antt =====
-- The controllers: a search for a path on a grid, and the token between three of them.
use mmemphis.Base.{
  ℕ, index?, ◌≤◌, ◌≡◌, refl, Bool, true, false, ◌&&◌, Option, none, some, List, [], ◌∷◌, ◌++◌, map,
  arith, ◌==◌, if◌then◌else◌, count,
}
use mmemphis.Fifo
use mmemphis.Fifo.{Fifo}
use mmemphis.Sdn.Queues.{
  Queues, ConnectionRequest, init_token_queue, add_token_request, get_next_token_request,
}
use mmemphis.Sdn.Noc.{
  Noc, no_port, east, west, north, south, local_out, local_in, is_element_reachable, manhattan,
}
use mmemphis.Sdn.Hadlock.{
  Search, hadlock, clear_search, propagate, visit_all, visit, edge, neighbour, next_detour,
  remove_min_detour_nlist,
}
use mmemphis.Sdn.Hadlock.Round.{Reach}
use mmemphis.Sdn.Hadlock.Sound.{hadlock-Reach}
use mmemphis.Sdn.Circuits.{
  Circuits, is_open, searched, or_else, ports_between, pass, start_retrace, end_retrace,
  retrace_from, retrace, try_subnet, try_subnets, try_all, cs_connection_setup, released_next,
  release_circuit, cs_connection_release,
}
use mmemphis.Sdn.Circuits.Path.{IsCircuit}
use mmemphis.Sdn.Circuits.Release.{Releases, cs_connection_release-Releases}
use mmemphis.Sdn.Circuits.Exhausted.{Answered, cs_connection_setup-Answered}
use mmemphis.Sdn.Token.{
  System, Event, is_master, request_path, finish_path, deliver, boot, run, step, at_controller,
  send_token_request, send_token_release, handle_packet, handle_token_request, handle_token_release,
  handle_token_grant, send_token, update,
}
use mmemphis.Sdn.Token.Mutex.{run-masters}

-- A cluster of two rows and two columns, whose ports are free but those into router (0, 1).
abbrev grid : Noc
grid = record {
  sdn_xcluster = 2;
  sdn_ycluster = 2;
  sdn_x_cluster_num = 1;
  sdn_y_cluster_num = 1;
  cs_nets = 1;
  cs_inport = λ x y s p. if x == 0 && y == 1 then 4 else no_port;
  cluster_border_input = λ x y s p. 0;
  cluster_border_output = λ x y s p. 0;
  available_controllers = λ x y s. 1;
  max_x_border_occuptation = 0;
  max_y_border_occuptation = 0;
  max_grid_x = 2;
  max_grid_y = 2;
  is_global_search = false;
}

hadlock-Reach_example :
    (r : Bool × Search) × (hadlock grid 0 true (0, 0) (1, 1) 5 ≡ some r)
    × (r.0 ≡ true → Reach grid 0 (0, 0) (1, 1))
    × (true ≡ false → Reach grid 0 (0, 0) (1, 1) → r.0 ≡ true)
hadlock-Reach_example = hadlock-Reach grid 0 (0, 0) (1, 1) true 5 (omega arith)

-- The search meets (1, 1) by way of (1, 0), and does not meet (0, 1).
result : Option (Bool × Search) → Bool
result r = elim r [ none ↦ false | some p ↦ p.0 ]

search_test :
    (result (hadlock grid 0 true (0, 0) (1, 1) 5) ≡ true)
    × (result (hadlock grid 0 false (0, 0) (0, 1) 5) ≡ false)
unfolding result hadlock clear_search propagate visit_all visit edge neighbour next_detour
    remove_min_detour_nlist is_element_reachable manhattan
search_test = (refl, refl)

-- The routers of `grid` with no circuit yet, at the chip's column 2.
abbrev circuits : Circuits
circuits = record {
  noc = grid;
  x_offset = 2;
  y_offset = 0;
  hops_count = 0;
  subnet_utilization = λ s. 0;
  subnet_selector = 0;
  cluster_path = [];
  configs = [];
}

cs_connection_setup-Answered_example :
    (r : ℕ × Circuits) × (cs_connection_setup (0, 0) (1, 1) 5 circuits ≡ some r)
    × Answered (0, 0) (1, 1) grid r
cs_connection_setup-Answered_example =
    cs_connection_setup-Answered (0, 0) (1, 1) 5 circuits (omega arith) (omega arith)

abbrev set_up : Option (ℕ × Circuits)
set_up = cs_connection_setup (0, 0) (1, 1) 5 circuits

abbrev ports_of : Option (ℕ × Circuits) → List ℕ
ports_of r = elim r [
  | none ↦ []
  | some (_, c) ↦
      c.noc.cs_inport 0 0 0 local_in
      ∷ c.noc.cs_inport 1 0 0 west
      ∷ c.noc.cs_inport 1 1 0 south
      ∷ c.noc.cs_inport 1 1 0 local_out
      ∷ c.subnet_utilization 0
      ∷ []
]

-- The circuit from (0, 0) by (1, 0) to (1, 1), which its release takes back.
circuit_test :
    (ports_of set_up ≡ east ∷ north ∷ local_out ∷ 9 ∷ 1 ∷ [])
    × (ports_of (elim set_up [
      | none ↦ none
      | some (mp, c) ↦ cs_connection_release (0, 0) (1, 1) mp local_in 3 c
    ])
        ≡ no_port ∷ no_port ∷ no_port ∷ no_port ∷ 0 ∷ [])
unfolding cs_connection_setup try_all try_subnets try_subnet or_else searched is_open retrace
    start_retrace end_retrace retrace_from pass ports_between cs_connection_release released_next
    release_circuit hadlock clear_search propagate visit_all visit edge neighbour next_detour
    remove_min_detour_nlist is_element_reachable manhattan index?
circuit_test = (refl, refl)

-- That circuit, from (0, 0) by (1, 0) to (1, 1).
abbrev laid : Circuits
laid = record circuits {
  noc = record grid {
    cs_inport = λ x y s p.
        if x == 0 && y == 0 && p == local_in
        then east
        else (if x == 1 && y == 0 && p == west
            then north
            else (if x == 1 && y == 1 && p == south
                then local_out
                else (if x == 1 && y == 1 && p == local_out then 9 else no_port)));
  };
}

laid-IsCircuit : IsCircuit (2, 2) laid.noc.cs_inport 0 (1, 1) 2 ((0, 0), local_in)
unfolding neighbour
laid-IsCircuit = (refl, ((1, 0), west), refl, (refl, ((1, 1), south), refl, refl))

cs_connection_release-Releases_example :
    Releases
      (2, 2)
      laid.noc.cs_inport
      0
      (1, 1)
      2
      ((0, 0), local_in)
      laid.noc.cs_inport
      (cs_connection_release (0, 0) (1, 1) 0 local_in 3 laid)
cs_connection_release-Releases_example =
    cs_connection_release-Releases (0, 0) (1, 1) 0 local_in 2 3 laid (omega arith) laid-IsCircuit

abbrev no_requests : Fifo ConnectionRequest
no_requests = record { slots = []; first = 0; last = 0; add_fifo = 0 }

abbrev queues : Queues
queues = record {
  token_requests = record { slots = 0 ∷ 0 ∷ 0 ∷ []; first = 0; last = 0; add_fifo = 0 };
  token = 0;
  local_requests = no_requests;
  global_requests = no_requests;
}

-- Controllers 2 and 1 ask for the token; 2 gets it, and 1 once 2 has released it.
abbrev until_grant : List Event
until_grant = request_path 2 ∷ request_path 1 ∷ deliver 0 ∷ deliver 0 ∷ deliver 0 ∷ []

abbrev until_handover : List Event
until_handover = until_grant ++ finish_path 2 ∷ deliver 0 ∷ deliver 0 ∷ []

masters : System → List Bool
masters s = map is_master s.controllers

token_test :
    (masters (run until_grant (boot 3 queues)) ≡ false ∷ false ∷ true ∷ [])
    × (masters (run until_handover (boot 3 queues)) ≡ false ∷ true ∷ false ∷ [])
unfolding masters run boot step at_controller send_token_request send_token_release handle_packet
    handle_token_request handle_token_release handle_token_grant send_token update init_token_queue
    add_token_request get_next_token_request Fifo.add Fifo.next
token_test = (refl, refl)

run-masters_example : count is_master (run until_handover (boot 3 queues)).controllers ≤ 1
run-masters_example = run-masters 3 queues until_handover (omega arith)
