-- ===== src/Sdn/Address/Bijection.antt =====
-- Cluster addresses, task identifiers and regions determine one another.
use mmemphis.Base.{
  ℕ, ◌+◌, ◌*◌, ◌/◌, ◌%◌, ◌≤◌, ◌<◌, ◌≡◌, ap, ◌∙◌, ◌↔◌, arith, word_mod, sub32, mul32, pack8_lem,
}
use native.Mathlib.Nat.{mod-lt, div-add-mod}
use mmemphis.Sdn.Address.{
  Region, conv_cluster_addr_to_task_id, conv_task_id_to_cluster_addr, init_cluster_address_offset,
  is_local_connection,
}

product_bound : (a b c d : ℕ) → a ≤ c → b ≤ d → a * b ≤ c * d
product_bound a b c d h k = grind arith

divide : (t y w : ℕ) → t < w → (t + y * w) / w ≡ y
divide t y w h = grind arith

conv_cluster_addr-eq :
    (tx ty w : ℕ)
    → tx < 256
    → w ≤ 256
    → ty < 256
    → conv_cluster_addr_to_task_id (tx * 256 + ty) w ≡ tx + ty * w + 1
unfolding conv_cluster_addr_to_task_id
conv_cluster_addr-eq tx ty w h k l =
    let row : (tx * 256 + ty) % 256 ≡ ty = omega arith in
    let column : (tx * 256 + ty) / 256 ≡ tx = omega arith in
    rw (row, column) (omega (arith, product_bound ty w 255 256 (omega arith) k))

conv_task_id-eq :
    (tx ty w : ℕ)
    → tx < w
    → w ≤ 256
    → ty < 256
    → conv_task_id_to_cluster_addr (tx + ty * w + 1) 1 w ≡ tx * 256 + ty
unfolding conv_task_id_to_cluster_addr
conv_task_id-eq tx ty w h k l =
    let bound = product_bound ty w 255 256 (omega arith) k in
    let index : sub32 (tx + ty * w + 1) 1 ≡ tx + ty * w = omega arith in
    let column : sub32 (tx + ty * w) (mul32 ty w) ≡ tx = omega arith in
    rw (index, divide tx ty w h, column) (pack8_lem tx ty (omega arith) l)

-- The identifier of the task of a cluster's controller gives the cluster's address back, where the
-- tasks of its kind start at 1 and the address is one of a chip of up to 256 clusters in each
-- direction.
conv_task_id-conv_cluster_addr :
    (tx ty w : ℕ)
    → tx < w
    → w ≤ 256
    → ty < 256
    → conv_task_id_to_cluster_addr (conv_cluster_addr_to_task_id (tx * 256 + ty) w) 1 w
      ≡ tx * 256 + ty
conv_task_id-conv_cluster_addr tx ty w h k l =
    ap (λ i. conv_task_id_to_cluster_addr i 1 w) (conv_cluster_addr-eq tx ty w (omega arith) k l)
    ∙ conv_task_id-eq tx ty w h k l

-- A controller's place: row `l` and column `r` of the clusters, `w` to a row.
region_words :
    (w l r xc yc id : ℕ)
    → w * l + r ≡ id
    → r < w
    → w ≤ 256
    → l < 256
    → xc ≤ 256
    → yc ≤ 256
    → (mul32 (sub32 id (mul32 w l)) xc ≡ r * xc) × (mul32 l yc ≡ l * yc)
region_words w l r xc yc id e h k m hx hy =
    let row : mul32 w l ≡ w * l = omega (arith, product_bound w l 256 255 k (omega arith)) in
    let column : sub32 id (w * l) ≡ r = omega (arith, product_bound w l 256 255 k (omega arith)) in
    (
      rw (row, column) (omega (arith, product_bound r xc 255 256 (omega arith) hx)),
      omega (arith, product_bound l yc 255 256 (omega arith) hy),
    )

times-div : (a b : ℕ) → 0 < b → a * b / b ≡ a
times-div a b h = grind arith

-- The block of a coordinate.
div-block : (x c n : ℕ) → 0 < n → c * n ≤ x → x < c * n + n → x / n ≡ c
div-block x c n h lo hi = grind arith

block-div : (x n : ℕ) → 0 < n → (x / n * n ≤ x) × (x < x / n * n + n)
block-div x n h = grind arith

-- Whether a coordinate lies in a block of `n` from `o` on.
abbrev pub Within : ℕ → ℕ → ℕ → Type 0
Within o n x = (o ≤ x) × (x < o + n)

inside :
    (xc yc : ℕ) (r : Region) (sx sy tx ty : ℕ)
    → r.x_offset + xc < word_mod
    → r.y_offset + yc < word_mod
    → (is_local_connection xc yc r sx sy tx ty ≡ 1) ↔ (
        Within r.x_offset xc sx
        × Within r.y_offset yc sy
        × Within r.x_offset xc tx
        × Within r.y_offset yc ty)
unfolding is_local_connection
inside xc yc r sx sy tx ty hx hy = (λ e. ground arith, λ h. ground arith)

-- The dimensions of a chip that its addresses can name: eight bits for each coordinate.
pub record IsChip (xd xc yc : ℕ) : Type 0 where
  pub wide : 0 < xc
  pub high : 0 < yc
  pub some_cluster : 0 < xd / xc
  pub x_fits : xc ≤ 256
  pub y_fits : yc ≤ 256
  pub row_fits : xd / xc ≤ 256

module _ (xd xc yc id : ℕ) (chip : IsChip xd xc yc) (rows : id / (xd / xc) < 256) where
  -- On a chip whose addresses fit eight bits for each coordinate, the cluster of controller `id`
  -- stands in column `id % (xd / xc)` and row `id / (xd / xc)`, and its address converts to the
  -- task identifier `id + 1`.
  init_cluster_address_offset_lem :
      let r = init_cluster_address_offset xd xc yc id in
      (r.x_offset ≡ id % (xd / xc) * xc)
      × (r.y_offset ≡ id / (xd / xc) * yc)
      × (r.cluster_addr ≡ id % (xd / xc) * 256 + id / (xd / xc))
      × (conv_cluster_addr_to_task_id r.cluster_addr (xd / xc) ≡ id + 1)
  unfolding init_cluster_address_offset
  init_cluster_address_offset_lem =
      let part = div-add-mod id (xd / xc) in
      let below = mod-lt id {m = xd / xc} chip.some_cluster in
      let (x, y) =
        region_words (xd / xc) (id / (xd / xc)) (id % (xd / xc)) xc yc id part below chip.row_fits
          rows chip.x_fits chip.y_fits in
      let column = times-div (id % (xd / xc)) xc chip.wide in
      let row = times-div (id / (xd / xc)) yc chip.high in
      let address =
        pack8_lem (id % (xd / xc)) (id / (xd / xc)) (omega (arith, chip.row_fits)) rows in
      (
        x,
        y,
        rw (x, y, column, row) address,
        rw (x, y, column, row, address)
            (conv_cluster_addr-eq (id % (xd / xc)) (id / (xd / xc)) (xd / xc)
                (omega (arith, chip.row_fits)) chip.row_fits rows
              ∙ omega (arith, part)),
      )

  -- On a chip whose addresses fit eight bits for each coordinate, a connection is local to a
  -- controller exactly where source and target both stand in the block of processors whose column
  -- and row are the controller's.
  pub is_local_connection_lem :
      (sx sy tx ty : ℕ)
      → (is_local_connection xc yc (init_cluster_address_offset xd xc yc id) sx sy tx ty ≡ 1) ↔ (
          (sx / xc ≡ id % (xd / xc))
          × (sy / yc ≡ id / (xd / xc))
          × (tx / xc ≡ id % (xd / xc))
          × (ty / yc ≡ id / (xd / xc)))
  is_local_connection_lem sx sy tx ty =
      let (x, y, _, _) = init_cluster_address_offset_lem in
      let below = mod-lt id {m = xd / xc} chip.some_cluster in
      let xs =
        product_bound (id % (xd / xc)) xc 255 256 (omega (arith, chip.row_fits)) chip.x_fits in
      let ys = product_bound (id / (xd / xc)) yc 255 256 (omega arith) chip.y_fits in
      let (to, from) =
        inside xc yc (init_cluster_address_offset xd xc yc id) sx sy tx ty
          (omega (arith, x, xs, chip.x_fits)) (omega (arith, y, ys, chip.y_fits)) in
      (
        λ e.
            let (a, b, c, d) = to e in
            (
              div-block sx (id % (xd / xc)) xc chip.wide (omega (arith, a, x))
                  (omega (arith, a, x)),
              div-block sy (id / (xd / xc)) yc chip.high (omega (arith, b, y))
                  (omega (arith, b, y)),
              div-block tx (id % (xd / xc)) xc chip.wide (omega (arith, c, x))
                  (omega (arith, c, x)),
              div-block ty (id / (xd / xc)) yc chip.high (omega (arith, d, y))
                  (omega (arith, d, y)),
            ),
        λ (a, b, c, d). from (
          rw (x, ← a) (block-div sx xc chip.wide),
          rw (y, ← b) (block-div sy yc chip.high),
          rw (x, ← c) (block-div tx xc chip.wide),
          rw (y, ← d) (block-div ty yc chip.high),
        ),
      )
