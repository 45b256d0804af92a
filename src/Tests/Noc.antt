-- ===== src/Tests/Noc.antt =====
-- The clusters, their processors and their addresses.
use mmemphis.Base.{
  ℕ, ◌+◌, ◌*◌, ◌/◌, ◌<◌, ◌≡◌, refl, ◌≢◌, ◌↔◌, ◌⊎◌, some, List, [], ◌∷◌, arith, get_elem?, replace?,
  count, minus_one,
}
use mmemphis.Mapper.Processors.{
  Processor, add_task, remove_task, on_processor, scan_slots, page_used, page_released,
  get_task_location, place, displace,
}
use mmemphis.Mapper.Processors.Tasks.{IsValid}
use mmemphis.Mapper.Processors.Pages.{
  IsConsistent, homes, page_used-IsConsistent, page_released-IsConsistent,
}
use mmemphis.Mapper.Processors.Located.{add_task-get_task_location}
use mmemphis.Mapper.Clusters.{
  Cluster, search_cluster, get_cluster_index_from_pe, allocate_cluster_resource,
  release_cluster_resources,
}
use mmemphis.Mapper.Clusters.Choice.{
  AtMost, search_cluster_lem, get_cluster_index_from_pe-place, release-allocate,
}
use mmemphis.Sdn.Address.{init_cluster_address_offset, is_local_connection}
use mmemphis.Sdn.Address.Bijection.{IsChip, is_local_connection_lem}

abbrev pe : ℕ → ℕ → List ℕ → Processor
pe a free tasks = record {
  address = a;
  free_pages = free;
  slack_time = 0;
  total_slack_samples = 0;
  task = tasks;
}

-- Processor 1 runs task 257, and processor 2 none.
abbrev first_pe : Processor
first_pe = pe 1 1 (257 ∷ minus_one ∷ [])

abbrev second_pe : Processor
second_pe = pe 2 2 (minus_one ∷ minus_one ∷ [])

abbrev both : List Processor
both = first_pe ∷ second_pe ∷ []

abbrev filled : List Processor
filled = pe 1 0 (257 ∷ 258 ∷ []) ∷ second_pe ∷ []

first_pe-IsValid : IsValid first_pe
unfolding count
first_pe-IsValid = record { free = refl; small = omega arith }

second_pe-IsValid : IsValid second_pe
unfolding count
second_pe-IsValid = record { free = refl; small = omega arith }

filled-IsValid : IsValid (pe 1 0 (257 ∷ 258 ∷ []))
unfolding count
filled-IsValid = record { free = refl; small = omega arith }

both-IsConsistent : IsConsistent (record { processors = both; free_resources = 3 })
both-IsConsistent = record {
  valid = (first_pe-IsValid, (second_pe-IsValid, tt));
  counted = refl;
  small = omega arith;
}

filled-IsConsistent : IsConsistent (record { processors = filled; free_resources = 2 })
filled-IsConsistent = record {
  valid = (filled-IsValid, (second_pe-IsValid, tt));
  counted = refl;
  small = omega arith;
}

page_used-IsConsistent_example :
    IsConsistent (record { processors = filled; free_resources = 2 })
    × (2 + 1 ≡ 3)
    × (homes 258 filled ≡ homes 258 both + 1)
    × ((u : ℕ) → u ≢ 258 → u ≢ minus_one → homes u filled ≡ homes u both)
unfolding page_used add_task place on_processor scan_slots replace?
page_used-IsConsistent_example =
    page_used-IsConsistent 1 258 (omega arith) (record { processors = both; free_resources = 3 })
      both-IsConsistent refl

page_released-IsConsistent_example :
    IsConsistent (record { processors = both; free_resources = 3 })
    × (3 ≡ 2 + 1)
    × (homes 258 both + 1 ≡ homes 258 filled)
    × ((u : ℕ) → u ≢ 258 → u ≢ minus_one → homes u both ≡ homes u filled)
unfolding page_released remove_task on_processor displace replace?
page_released-IsConsistent_example =
    page_released-IsConsistent 1 258 (omega arith)
      (record { processors = filled; free_resources = 2 }) filled-IsConsistent refl

add_task-get_task_location_example : get_task_location 258 filled ≡ 1
unfolding add_task on_processor place scan_slots replace? count
add_task-get_task_location_example =
    add_task-get_task_location 1 258 both (omega arith) (omega arith)
      (first_pe-IsValid, (second_pe-IsValid, tt)) refl refl

abbrev cluster : ℕ → ℕ → ℕ → Cluster
cluster x y n = record { x_pos = x; y_pos = y; free_resources = n }

abbrev clusters : List Cluster
clusters = cluster 0 0 2 ∷ cluster 1 0 5 ∷ []

search_cluster_lem_example :
    ((search_cluster 3 clusters ≡ minus_one) × AtMost 0 clusters)
    ⊎ ((c : Cluster) × (get_elem? clusters (search_cluster 3 clusters) ≡ some c)
        × (0 < c.free_resources)
        × AtMost c.free_resources clusters)
search_cluster_lem_example = search_cluster_lem 3 clusters (omega arith, (omega arith, tt))

-- On a chip of two by two clusters, each of two by two processors, the processor at column 2 and row
-- 1 is of cluster 1.
get_cluster_index_from_pe-place_example :
    (get_cluster_index_from_pe 2 2 (2 * 256 + 1) ≡ 1 / 2 * 2 + 2 / 2)
    ↔ ((1 / 2 ≡ 1 / 2) × (2 / 2 ≡ 1 / 2 / 2))
get_cluster_index_from_pe-place_example =
    get_cluster_index_from_pe-place 2 2 2 2 2 1 (omega arith) (omega arith) (omega arith)

get_cluster_index_from_pe_test : get_cluster_index_from_pe 2 2 (2 * 256 + 1) ≡ 0
unfolding get_cluster_index_from_pe
get_cluster_index_from_pe_test = refl

release-allocate_example :
    release_cluster_resources 1 3 (allocate_cluster_resource 1 3 clusters) ≡ clusters
release-allocate_example = release-allocate 1 3 clusters (omega arith) (omega arith) refl

-- A chip of 6 columns, in clusters of 3 columns and 2 rows.
dimensions-IsChip : IsChip 6 3 2
dimensions-IsChip = record {
  wide = omega arith;
  high = omega arith;
  some_cluster = omega arith;
  x_fits = omega arith;
  y_fits = omega arith;
  row_fits = omega arith;
}

is_local_connection_lem_example :
    (is_local_connection 3 2 (init_cluster_address_offset 6 3 2 3) 3 2 5 3 ≡ 1)
    ↔ ((3 / 3 ≡ 1) × (2 / 2 ≡ 1) × (5 / 3 ≡ 1) × (3 / 2 ≡ 1))
is_local_connection_lem_example =
    is_local_connection_lem 6 3 2 3 dimensions-IsChip (omega arith) 3 2 5 3
