-- ===== src/Mapper/Clusters/Choice.antt =====
-- Which cluster an application gets.
use mmemphis.Base.{
  ℕ, suc, ◌+◌, ◌*◌, ◌%◌, ◌^◌, ◌≤◌, ◌<◌, ◌≡◌, refl, sym, ap, ◌∙◌, ◌/◌, ◌↔◌, ◌⊎◌, inl, inr, some,
  List, [], ◌∷◌, arith, Bool-cases, get_elem?, modify-modify, word_mod, minus_one, add32, sub32,
  slt,
}
use mmemphis.Mapper.Clusters.{
  Cluster, search_from, search_cluster, get_cluster_index_from_pe, allocate_cluster_resource,
  release_cluster_resources,
}

-- The `int` of each cluster is small and not negative.
abbrev pub Small : List Cluster → Type 0
Small [] = Unit {0}
Small (c ∷ cs) = (c.free_resources < 2 ^ 31) × Small cs

-- No cluster has more free resources.
abbrev pub AtMost : ℕ → List Cluster → Type 0
AtMost n [] = Unit {0}
AtMost n (c ∷ cs) = (c.free_resources ≤ n) × AtMost n cs

AtMost-mono : (m n : ℕ) (cs : List Cluster) → m ≤ n → AtMost m cs → AtMost n cs
AtMost-mono m n [] h a = tt
AtMost-mono m n (c ∷ cs) h a = (omega arith, AtMost-mono m n cs h a.1)

search_from_lem :
    (i sel best : ℕ) (cs : List Cluster)
    → best < 2 ^ 31
    → Small cs
    → ((search_from i sel best cs ≡ sel) × AtMost best cs)
      ⊎ ((j : ℕ) × (c : Cluster) × (search_from i sel best cs ≡ i + j)
          × (get_elem? cs j ≡ some c)
          × (best < c.free_resources)
          × AtMost c.free_resources cs)
unfolding search_from
search_from_lem i sel best [] b s = inl (refl, tt)
search_from_lem i sel best (c ∷ cs) b s = elim (Bool-cases (slt best c.free_resources)) [
  | inl more ↦ elim (search_from_lem (i + 1) i c.free_resources cs s.0 s.1) [
    | inl (e, a) ↦ inr (0, c, rw (more, e) (omega arith), refl, ground arith, (omega arith, a))
    | inr (j, d, e, g, l, a) ↦
        inr (suc j, d, rw (more, e) (omega arith), g, ground arith, (omega arith, a))
  ]
  | inr less ↦ elim (search_from_lem (i + 1) sel best cs b s.1) [
    | inl (e, a) ↦ inl (rw less e, (ground arith, a))
    | inr (j, d, e, g, l, a) ↦ inr (suc j, d, rw (less, e) (omega arith), g, l, (ground arith, a))
  ]
]

-- An application is given a cluster with the most free resources, at least one, whatever its number
-- of tasks; it is refused only where no cluster has any. Each cluster's resources are an `int` that
-- is not negative.
pub search_cluster_lem :
    (n : ℕ) (cs : List Cluster)
    → Small cs
    → ((search_cluster n cs ≡ minus_one) × AtMost 0 cs)
      ⊎ ((c : Cluster) × (get_elem? cs (search_cluster n cs) ≡ some c)
          × (0 < c.free_resources)
          × AtMost c.free_resources cs)
unfolding search_cluster
search_cluster_lem n cs s = elim (search_from_lem 0 minus_one 0 cs (omega arith) s) [
  | inl r ↦ inl r
  | inr (j, c, e, g, l, a) ↦ let at : 0 + j ≡ j = omega arith in inr (c, rw (e, at) g, l, a)
]

quotient : (n q a : ℕ) → a < n → (q * n + a) / n ≡ q
quotient n q a h = grind arith

place_unique : (n q a q' a' : ℕ) → a < n → a' < n → q * n + a ≡ q' * n + a' → (q ≡ q') × (a ≡ a')
place_unique n q a q' a' h h' e =
    let same : q ≡ q' = sym (quotient n q a h) ∙ ap (λ (r : ℕ). r / n) e ∙ quotient n q' a' h' in
    (same, omega (arith, e, ap (λ (r : ℕ). r * n) same))

-- Let the clusters be `w` columns wide and `h` rows high, `nx` of them in a row; the row of the
-- processor is below 256, and the column of its cluster and the one that the code computes are
-- below `nx`. The index is that of the processor's cluster exactly where that cluster's row is also
-- the processor's row divided by the number `ny` of clusters in a column, and that cluster's column
-- is its row divided by `nx`.
pub get_cluster_index_from_pe-place :
    (nx ny w h x y : ℕ)
    → y < 256
    → x / w < nx
    → y / ny / nx < nx
    → (get_cluster_index_from_pe nx ny (x * 256 + y) ≡ y / h * nx + x / w)
      ↔ ((y / ny ≡ y / h) × (x / w ≡ y / h / nx))
unfolding get_cluster_index_from_pe
get_cluster_index_from_pe-place nx ny w h x y small inside near =
    let row : (x * 256 + y) % 256 ≡ y = omega arith in
    rw row (
      λ e.
          let (q, a) = place_unique nx (y / ny) (y / ny / nx) (y / h) (x / w) near inside e in
          (q, sym a ∙ ap (λ (r : ℕ). r / nx) q),
      λ (q, a). rw (q, a) refl,
    )

-- Releasing what was allocated gives every cluster back as it was.
pub release-allocate :
    (i n : ℕ) (cs : List Cluster) {c : Cluster}
    → n < word_mod
    → c.free_resources < word_mod
    → get_elem? cs i ≡ some c
    → release_cluster_resources i n (allocate_cluster_resource i n cs) ≡ cs
unfolding release_cluster_resources allocate_cluster_resource
release-allocate i n cs {c} h l g =
    modify-modify cs i (λ c. record c { free_resources = sub32 c.free_resources n })
      (λ c. record c { free_resources = add32 c.free_resources n }) {a = c} g (ground arith)
