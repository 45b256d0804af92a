-- ===== src/Sdn/Hadlock.antt =====
-- The search for a path of hadlock() in applications/MAN_app/SDN_includes/noc_manager.h. A router
-- is its pair of coordinates, which the lists hold as `x << 8 | y`; a `detour` of -1 is `none`. A
-- detour is unbounded here; the source's is a `char`, so this is its code as long as detours are
-- below 128.
pub mod Grid
pub mod Terminates
pub mod Round
pub mod Sound
use mmemphis.Base.{
  ℕ, zero, suc, ◌+◌, ◌-◌, Bool, true, false, ◌&&◌, Option, none, some, List, [], ◌∷◌, ◌++◌, ltb,
  leb, ◌==◌, if◌then◌else◌,
}
use mmemphis.Sdn.Noc.{Noc, east, west, north, south, is_element_reachable, manhattan}

abbrev pub Router : Type 0
Router = ℕ × ℕ

abbrev pub same : Router → Router → Bool
same v w = v.0 == w.0 && v.1 == w.1

abbrev pub Detours : Type 0
Detours = Router → Option ℕ

pub record Search : Type 0 where
  pub detour : Detours
  pub nlist : List Router
  pub plist : List Router

unfoldable pub clear_search : Search
clear_search = record { detour = λ _. none; nlist = []; plist = [] }

abbrev pub mark : Detours → Router → Option ℕ → Detours
mark d v n w = if same w v then n else d w

-- `detour[a] < detour[b]` of two `char`s.
abbrev pub less_detour : Option ℕ → Option ℕ → Bool
less_detour none none = false
less_detour none (some b) = true
less_detour (some a) none = false
less_detour (some a) (some b) = ltb a b

-- The last of the list's routers with the lowest detour, and the list without it, in order. An
-- empty list is never handed over.
unfoldable pub remove_min_detour_nlist : Detours → Router → List Router → Router × List Router
remove_min_detour_nlist d v [] = (v, [])
remove_min_detour_nlist d v (w ∷ rest) =
    let (m, others) = remove_min_detour_nlist d w rest in
    if less_detour (d v) (d m) then (v, w ∷ rest) else (m, v ∷ others)

-- The neighbour by an output port and its input port; `none` where a coordinate becomes -1.
unfoldable pub neighbour : ℕ → Router → Option (Router × ℕ)
neighbour n v =
    if n == east
    then some ((v.0 + 1, v.1), west)
    else (if n == west
        then (if v.0 == 0 then none else some ((v.0 - 1, v.1), east))
        else (if n == north
            then some ((v.0, v.1 + 1), south)
            else (if v.1 == 0 then none else some ((v.0, v.1 - 1), north))))

abbrev pub is_visited : Detours → Router → Bool
is_visited d v = elim (d v) [ none ↦ false | some _ ↦ true ]

-- The edge that a search may take from a router by a port.
unfoldable pub edge : Noc → ℕ → Router → ℕ → Option Router
edge c mp v n = elim (neighbour n v) [
  | none ↦ none
  | some (w, input) ↦ if is_element_reachable c v.0 v.1 w.0 w.1 input mp then some w else none
]

-- The detour of a router reached from `v`.
unfoldable pub next_detour : Router → Router → Router → Option ℕ → Option ℕ
next_detour target v w from =
    if leb (manhattan v.0 v.1 target.0 target.1) (manhattan w.0 w.1 target.0 target.1)
    then elim from [ none ↦ some 0 | some n ↦ some (n + 1) ]
    else from

-- The body of the loop over the four ports: the search after it, and whether it met the target.
unfoldable pub visit : Noc → ℕ → Router → Router → ℕ → Search → Search × Bool
visit c mp target v n s = elim (edge c mp v n) [
  | none ↦ (s, false)
  | some w ↦ if is_visited s.detour w then (s, false) else (
    record s {
      detour = mark s.detour w (next_detour target v w (s.detour v));
      nlist = s.nlist ++ w ∷ [];
    },
    same w target,
  )
]

unfoldable pub visit_all : Noc → ℕ → Router → Router → List ℕ → Search → Search × Bool
visit_all c mp target v [] s = (s, false)
visit_all c mp target v (n ∷ ports) s =
    let (s', found) = visit c mp target v n s in
    let rest = visit_all c mp target v ports s' in if found then (s', true) else rest

abbrev pub ports : List ℕ
ports = 0 ∷ 1 ∷ 2 ∷ 3 ∷ []

-- The `while` loop from the propagation router `v` on, on fuel: the function's result and the
-- search that it leaves.
unfoldable pub propagate : Noc → ℕ → Bool → Router → ℕ → Router → Search → Option (Bool × Search)
propagate c mp min_path target zero v s = none
propagate c mp min_path target (suc fuel) v s =
    let (s', found) = visit_all c mp target v ports s in
    let next : Option (Bool × Search) = elim s'.nlist [
      | [] ↦ some (found, s')
      | w ∷ rest ↦
          let (m, others) = remove_min_detour_nlist s'.detour w rest in
          let s'' = record s' { nlist = others; plist = s'.plist ++ m ∷ [] } in
          let again = propagate c mp min_path target fuel m s'' in
          if found then some (true, s'') else again
    ] in
    if min_path && less_detour (some 0) (s.detour v) then some (false, s) else next

unfoldable pub hadlock : Noc → ℕ → Bool → Router → Router → ℕ → Option (Bool × Search)
hadlock c mp min_path source target fuel =
    let s = record clear_search {
      detour = mark (λ _. none) source (some 0);
      plist = source ∷ [];
    } in
    let search = propagate c mp min_path target fuel source s in
    if same source target then some (true, s) else search
