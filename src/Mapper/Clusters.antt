-- ===== src/Mapper/Clusters.antt =====
-- applications/MAN_app/mapping_includes/global_mapper/cluster_controller.h: the free resources of
-- each cluster, and the choice of a cluster for an application. The counts of clusters in x and y,
-- build parameters, are arguments; the array holds MAPPING_CLUSTER_NUMBER clusters.
pub mod Choice
use mmemphis.Base.{
  ℕ, ◌+◌, ◌*◌, ◌/◌, ◌%◌, List, [], ◌∷◌, if◌then◌else◌, modify, minus_one, add32, sub32, slt,
}

pub record Cluster : Type 0 where
  pub x_pos : ℕ
  pub y_pos : ℕ
  pub free_resources : ℕ

-- The loop of `search_cluster` over the clusters from index `i` on; `app_task_number` is not read.
unfoldable pub search_from : ℕ → ℕ → ℕ → List Cluster → ℕ
search_from i selected_cluster freest_cluster [] = selected_cluster
search_from i selected_cluster freest_cluster (c ∷ clusters) =
    let keep = search_from (i + 1) selected_cluster freest_cluster clusters in
    let choose = search_from (i + 1) i c.free_resources clusters in
    if slt freest_cluster c.free_resources then choose else keep

unfoldable pub search_cluster : ℕ → List Cluster → ℕ
search_cluster app_task_number clusters = search_from 0 minus_one 0 clusters

-- The second division is of the `y` that the first one has changed.
unfoldable pub get_cluster_index_from_pe : ℕ → ℕ → ℕ → ℕ
get_cluster_index_from_pe x_cluster_num y_cluster_num pe_addr =
    let y = pe_addr % 256 / y_cluster_num in let x = y / x_cluster_num in y * x_cluster_num + x

unfoldable pub allocate_cluster_resource : ℕ → ℕ → List Cluster → List Cluster
allocate_cluster_resource cluster_index nro_resources clusters =
    modify clusters cluster_index
      (λ c. record c { free_resources = sub32 c.free_resources nro_resources })

unfoldable pub release_cluster_resources : ℕ → ℕ → List Cluster → List Cluster
release_cluster_resources cluster_index nro_resources clusters =
    modify clusters cluster_index
      (λ c. record c { free_resources = add32 c.free_resources nro_resources })
