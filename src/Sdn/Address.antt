-- ===== src/Sdn/Address.antt =====
-- The addresses of clusters, of their controllers and of the tasks that run them: noc_manager.c and
-- common_include.h of applications/MAN_app. The dimensions of the chip and of a cluster, build
-- parameters, are arguments.
pub mod Bijection
use mmemphis.Base.{ℕ, ◌/◌, ◌%◌, ◌||◌, ltb, leb, if◌then◌else◌, add32, sub32, mul32, pack8}

-- `x << 8 | y`
unfoldable pub conv_cluster_addr_to_task_id : ℕ → ℕ → ℕ
conv_cluster_addr_to_task_id cluster_addr x_cluster_num =
    let tx = cluster_addr / 256 in
    let ty = cluster_addr % 256 in add32 (add32 tx (mul32 ty x_cluster_num)) 1

unfoldable pub conv_task_id_to_cluster_addr : ℕ → ℕ → ℕ → ℕ
conv_task_id_to_cluster_addr task_id id_offset x_cluster_num =
    let k = sub32 task_id id_offset in
    let ty = k / x_cluster_num in let tx = sub32 k (mul32 ty x_cluster_num) in pack8 tx ty

-- What `init_cluster_address_offset` sets.
pub record Region : Type 0 where
  pub x_offset : ℕ
  pub y_offset : ℕ
  pub x_cluster_addr : ℕ
  pub y_cluster_addr : ℕ
  pub cluster_addr : ℕ

unfoldable pub init_cluster_address_offset : ℕ → ℕ → ℕ → ℕ → Region
init_cluster_address_offset xdimension sdn_xcluster sdn_ycluster id =
    let cluster_per_layer = xdimension / sdn_xcluster in
    let layers_above = id / cluster_per_layer in
    let y_off = mul32 layers_above sdn_ycluster in
    let x_off = mul32 (sub32 id (mul32 cluster_per_layer layers_above)) sdn_xcluster in
    record {
      x_offset = x_off;
      y_offset = y_off;
      x_cluster_addr = x_off / sdn_xcluster;
      y_cluster_addr = y_off / sdn_ycluster;
      cluster_addr = pack8 (x_off / sdn_xcluster) (y_off / sdn_ycluster);
    }

unfoldable pub is_local_connection : ℕ → ℕ → Region → ℕ → ℕ → ℕ → ℕ → ℕ
is_local_connection sdn_xcluster sdn_ycluster r source_x source_y target_x target_y =
    if ltb source_x r.x_offset
      || leb (add32 r.x_offset sdn_xcluster) source_x
      || ltb source_y r.y_offset
      || leb (add32 r.y_offset sdn_ycluster) source_y
      || ltb target_x r.x_offset
      || leb (add32 r.x_offset sdn_xcluster) target_x
      || ltb target_y r.y_offset
      || leb (add32 r.y_offset sdn_ycluster) target_y
    then 0
    else 1
