-- ===== src/Resource/Availability/Within.antt =====
-- On every node what is free is at most what there is.
use giosk.Prelude.{
  ℕ, ◌≤◌, inl, inr, Bool, ◌&&◌, List, [], ◌∷◌, String, All, All-map, ℤ, pos, negsuc, ◌-ℤ◌, ◌≤ℤ◌,
  int_laws, arith, ◌*◌, Bool-cases, ◌==◌,
}
use giosk.Resource.Counter.{Row, sum_where_ℤ, on_node, is_shared, shared_usage}
use giosk.Resource.Availability.{
  clamp_non_neg, Tables, LiveNode, NodeAvail, atoi_safe, whole, node_avail, by_node, is_fractional,
}

-- A session that asks for no negative share.
abbrev pub IsNonNegative : Row → Type 0
IsNonNegative r = (pos 0 ≤ℤ r.vram_mb) × (pos 0 ≤ℤ r.core_percent)

-- Of nothing more is free than there is.
abbrev pub IsWithin : NodeAvail → Type 0
IsWithin n =
    (n.gpu_free ≤ n.gpu_total)
    × (n.vram_free ≤ n.vram_total)
    × (n.cores_free ≤ n.cores_total)
    × (n.slots_free ≤ n.slots_total)

sum_where_ℤ-positive :
    (p : Row → Bool) (f : Row → ℤ) (rows : List Row)
    → All (λ r. pos 0 ≤ℤ f r) rows
    → pos 0 ≤ℤ sum_where_ℤ p f rows
sum_where_ℤ-positive p f [] h = ground arith
sum_where_ℤ-positive p f (r ∷ rs) (h, hs) = elim (Bool-cases (p r)) [
  | inl counted ↦ rw counted (omega (int_laws, h, sum_where_ℤ-positive p f rs hs))
  | inr other ↦ rw other (omega (int_laws, sum_where_ℤ-positive p f rs hs))
]

module _ (db : Tables) (sane : All IsNonNegative db.sharing) where
  shared_usage-positive :
      (name : String)
      → let u = shared_usage db.sharing name in (pos 0 ≤ℤ u.vram_mb) × (pos 0 ≤ℤ u.cores)
  unfolding shared_usage
  shared_usage-positive name = (
    sum_where_ℤ-positive (λ r. on_node name r && is_shared r.mode) (λ r. r.vram_mb) db.sharing
        (All-map db.sharing (λ r h. h.0) sane),
    sum_where_ℤ-positive (λ r. on_node name r && is_shared r.mode) (λ r. r.core_percent) db.sharing
        (All-map db.sharing (λ r h. h.1) sane),
  )

  clamped : (n : ℕ) (u : ℤ) → pos 0 ≤ℤ u → clamp_non_neg (pos n -ℤ u) ≤ n
  unfolding ◌-ℤ◌
  clamped n (pos m) h = ground arith
  clamped n (negsuc m) h = ground arith

  node_avail-IsWithin : (n : LiveNode) (cap : ℕ) → IsWithin (node_avail db n cap)
  unfolding node_avail whole
  node_avail-IsWithin n cap =
      let (vram, cores) = shared_usage-positive n.name in
      elim (Bool-cases (is_fractional db n.name)) [
        | inl shares ↦ rw shares (
          omega arith,
          clamped (n.gpu_mem_mb * cap) (shared_usage db.sharing n.name).vram_mb vram,
          clamped (100 * cap) (shared_usage db.sharing n.name).cores cores,
          omega arith,
        )
        | inr entire ↦ rw entire (omega arith, omega arith, omega arith, omega arith)
      ]

  pub by_node-IsWithin : (ns : List LiveNode) → All IsWithin (by_node db ns)
  unfolding by_node
  by_node-IsWithin [] = tt
  by_node-IsWithin (n ∷ ns) = elim (Bool-cases (atoi_safe n.gpu_capacity == 0)) [
    | inl without ↦ rw without (by_node-IsWithin ns)
    | inr with_gpus ↦
        rw with_gpus (node_avail-IsWithin n (atoi_safe n.gpu_capacity), by_node-IsWithin ns)
  ]
