-- ===== src/Sdn/Noc.antt =====
-- The state of the circuit-switched routers that a controller keeps, of
-- applications/MAN_app/SDN_includes/noc_manager.h. Arrays are functions of their indices, and a
-- `char` or `short` entry is its bit pattern; the dimensions, build parameters, are fields.
use mmemphis.Base.{
  ℕ, ◌+◌, ◌-◌, Bool, true, false, ◌&&◌, ◌||◌, Option, none, some, ltb, leb, ◌==◌, if◌then◌else◌,
}
use Prim.Native.Nat.{bit_or}

abbrev pub east : ℕ
east = 0

abbrev pub west : ℕ
west = 1

abbrev pub north : ℕ
north = 2

abbrev pub south : ℕ
south = 3

abbrev pub local_out : ℕ
local_out = 4

abbrev pub local_in : ℕ
local_in = 5

abbrev pub port_number : ℕ
port_number = 6

-- The `char` -1: the port is free.
abbrev pub no_port : ℕ
no_port = 255

-- An array of x, y, subnet and port.
abbrev pub Ports : Type 0
Ports = ℕ → ℕ → ℕ → ℕ → ℕ

pub record Noc : Type 0 where
  pub sdn_xcluster : ℕ
  pub sdn_ycluster : ℕ
  pub sdn_x_cluster_num : ℕ
  pub sdn_y_cluster_num : ℕ
  pub cs_nets : ℕ
  pub cs_inport : Ports
  pub cluster_border_input : Ports
  pub cluster_border_output : Ports
  pub available_controllers : ℕ → ℕ → ℕ → ℕ
  pub max_x_border_occuptation : ℕ
  pub max_y_border_occuptation : ℕ
  pub max_grid_x : ℕ
  pub max_grid_y : ℕ
  pub is_global_search : Bool

unfoldable pub enable_global_routing : Noc → Noc
enable_global_routing c = record c {
  max_grid_x = c.sdn_x_cluster_num;
  max_grid_y = c.sdn_y_cluster_num;
  is_global_search = true;
}

unfoldable pub enable_local_routing : Noc → Noc
enable_local_routing c = record c {
  max_grid_x = c.sdn_xcluster;
  max_grid_y = c.sdn_ycluster;
  is_global_search = false;
}

abbrev pub write : Ports → ℕ → ℕ → ℕ → ℕ → ℕ → Ports
write a x y s p v x' y' s' p' =
    if x' == x && y' == y && s' == s && p' == p then v else a x' y' s' p'

-- The `switch` of the global search; a port that is no border falls through it.
unfoldable pub border_free : Noc → ℕ → ℕ → ℕ → ℕ → ℕ → ℕ → Option Bool
border_free c sx sy tx ty input mp =
    if input == east
    then some (
        ltb (bit_or (c.cluster_border_output sx sy mp west) (c.cluster_border_input tx ty mp east))
          c.max_y_border_occuptation)
    else (if input == west
        then some (
            ltb
              (bit_or (c.cluster_border_output sx sy mp east)
                (c.cluster_border_input tx ty mp west))
              c.max_y_border_occuptation)
        else (if input == north
            then some (
                ltb
                  (bit_or (c.cluster_border_output sx sy mp south)
                    (c.cluster_border_input tx ty mp north))
                  c.max_x_border_occuptation)
            else (if input == south
                then some (
                    ltb
                      (bit_or (c.cluster_border_output sx sy mp north)
                        (c.cluster_border_input tx ty mp south))
                      c.max_x_border_occuptation)
                else none)))

-- The coordinates are not negative here: `neighbour` of `Hadlock` drops those that are.
unfoldable pub is_element_reachable : Noc → ℕ → ℕ → ℕ → ℕ → ℕ → ℕ → Bool
is_element_reachable c sx sy tx ty input mp =
    let free_port = c.cs_inport tx ty mp input == no_port in
    let global : Bool =
      if c.available_controllers tx ty mp == 0
      then false
      else elim (border_free c sx sy tx ty input mp) [ some b ↦ b | none ↦ free_port ] in
    if leb c.max_grid_x tx || leb c.max_grid_y ty
    then false
    else (if c.is_global_search then global else free_port)

-- `|a - b|` of two coordinates.
abbrev pub distance : ℕ → ℕ → ℕ
distance a b = if ltb a b then b - a else a - b

unfoldable pub manhattan : ℕ → ℕ → ℕ → ℕ → ℕ
manhattan xi yi xj yj = distance xi xj + distance yi yj
