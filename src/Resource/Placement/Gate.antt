-- ===== src/Resource/Placement/Gate.antt =====
-- What the gate of CanPlace leaves free.
use giosk.Prelude.{
  ℕ, ◌+◌, ◌≤◌, ◌≡◌, refl, inl, inr, Bool, true, false, Option, none, some, List, [], ◌∷◌, String,
  str_eq, pos, ◌-ℤ◌, -ℤ_parts, leb_ℤ, All, arith, Bool-cases, if◌then◌else◌, ◌==◌, first_where,
}
use giosk.Resource.Counter.{
  exclusive, Row, NodeRow, at_least_one, running_by_node, reserved_gpus, hami_node,
}
use giosk.Resource.Availability.{
  Tables, LiveNode, NodeAvail, atoi_safe, used_of, node_avail, by_node, availability, Availability,
  TypeAvail, no_gpus, free_of,
}
use giosk.Resource.Availability.Totals.{node_avail-fields, entry_of, sum_nodes, dedicated}
use giosk.Resource.Placement.{can_place, can_place_anywhere, is_unknown, enough}
use giosk.Resource.Placement.Booking.{request, tables, gives, sum_live, has_gpus}
use giosk.Resource.Counter.Shares.{no_physical, held}

pub is_none : List NodeAvail → Bool
is_none [] = true
is_none (_ ∷ _) = false

pub some_node :
    (db : Tables) (ns : List LiveNode) → has_gpus ns ≡ true → is_none (by_node db ns) ≡ false
unfolding by_node is_none
some_node db [] h = ground (arith, h)
some_node db (n ∷ ns) h = elim (Bool-cases (atoi_safe n.gpu_capacity == 0)) [
  | inl without ↦ rw without (some_node db ns (ground (arith, h, without)))
  | inr with_gpus ↦ rw with_gpus refl
]

pub is_known : (av : Availability) → is_none av.by_node ≡ false → is_unknown av ≡ false
unfolding is_none
is_known av h = known av.by_type av.by_node h
  where
    known :
        (ts : List TypeAvail) (ns : List NodeAvail)
        → is_none ns ≡ false
        → is_unknown (record { by_type = ts; by_node = ns }) ≡ false
    known (t ∷ ts) ns h = refl
    known [] (n ∷ ns) h = refl
    known [] [] h = h

pub room : (k held free : ℕ) → leb_ℤ (pos k) (pos free -ℤ pos held) ≡ true → k + held ≤ free
room k held free h = ground (arith, h, -ℤ_parts (pos free) (pos held))

-- The gate lets an exclusive session in only where its type has the GPUs left, the reserved ones aside.
pub gate-room :
    (db : Tables) (live : List LiveNode) (r : Row)
    → r.mode ≡ exclusive
    → str_eq r.gpu_type "" ≡ false
    → is_unknown (availability db (some live)) ≡ false
    → can_place db (some live) (request r) ≡ true
    → at_least_one r.gpu_count + reserved_gpus db.reserved r.gpu_type
      ≤ free_of (entry_of r.gpu_type (availability db (some live)).by_type)
unfolding can_place can_place_anywhere
gate-room db live r mode named known passed =
    found (first_where (λ t. str_eq t.gpu_type r.gpu_type) (availability db (some live)).by_type)
      (rw (mode, named, known) at passed)
  where
    found :
        (o : Option TypeAvail)
        → (elim o as (λ _. Bool) [
          | none ↦ false
          | some t ↦ enough (free_of t) (reserved_gpus db.reserved r.gpu_type) r.gpu_count
        ])
          ≡ true
        → at_least_one r.gpu_count + reserved_gpus db.reserved r.gpu_type
          ≤ free_of (elim o as (λ _. TypeAvail) [ none ↦ no_gpus r.gpu_type | some e ↦ e ])
    found none h = ground (arith, h)
    found (some t) h =
        room (at_least_one r.gpu_count) (reserved_gpus db.reserved r.gpu_type) (free_of t) h

pub sum_live-same :
    (p : LiveNode → Bool) (f g : LiveNode → ℕ)
    → ((n : LiveNode) → f n ≡ g n)
    → (ns : List LiveNode) → sum_live p f ns ≡ sum_live p g ns
sum_live-same p f g h [] = refl
sum_live-same p f g h (n ∷ ns) = rw (h n, sum_live-same p f g h ns) refl

pub sum_live_mono :
    (p : LiveNode → Bool) (f g : LiveNode → ℕ)
    → ((n : LiveNode) → f n ≤ g n)
    → (ns : List LiveNode) → sum_live p f ns ≤ sum_live p g ns
sum_live_mono p f g h [] = omega arith
sum_live_mono p f g h (n ∷ ns) = ground (arith, h n, sum_live_mono p f g h ns)

pub sum_live-below :
    (p : LiveNode → Bool) (f g : LiveNode → ℕ)
    → ((n : LiveNode) → p n ≡ true → f n ≤ g n)
    → (ns : List LiveNode) → sum_live p f ns ≤ sum_live p g ns
sum_live-below p f g h [] = omega arith
sum_live-below p f g h (n ∷ ns) = ground (arith, h n, sum_live-below p f g h ns)

module _ (nodes : List NodeRow) (rows : List Row)
    (containers : All (λ (r : Row). r.ssh ≡ false) rows) (t : String) where
  -- What is free and what runs on the nodes of a type is what there is.
  pub node_free :
      (n : LiveNode)
      → (hami_node nodes n.name ≡ false → running_by_node rows n.name ≤ atoi_safe n.gpu_capacity)
      → (if atoi_safe n.gpu_capacity == 0
            then 0
            else if dedicated t (node_avail (tables nodes rows) n (atoi_safe n.gpu_capacity))
            then (node_avail (tables nodes rows) n (atoi_safe n.gpu_capacity)).gpu_free
            else 0)
          + (if gives nodes t n then running_by_node rows n.name else 0)
        ≡ (if gives nodes t n then atoi_safe n.gpu_capacity else 0)
  unfolding used_of
  node_free n fits =
      let cap = atoi_safe n.gpu_capacity in
      let (same_type, same_kind, free) = node_avail-fields (tables nodes rows) n cap in
      rw (same_type, same_kind, free, no_physical n.name rows containers) (ground (arith, fits))

  pub nodes_free :
      (ns : List LiveNode)
      → All
          (λ (n : LiveNode).
            hami_node nodes n.name ≡ false → running_by_node rows n.name ≤ atoi_safe n.gpu_capacity)
          ns
      → sum_nodes (dedicated t) (λ n. n.gpu_free) (by_node (tables nodes rows) ns)
          + sum_live (gives nodes t) (λ n. running_by_node rows n.name) ns
        ≡ sum_live (gives nodes t) (λ n. atoi_safe n.gpu_capacity) ns
  unfolding by_node
  nodes_free [] h = omega arith
  nodes_free (n ∷ ns) (h, hs) = elim (Bool-cases (atoi_safe n.gpu_capacity == 0)) [
    | inl without ↦
        let here = rw without at (node_free n h) in
        rw without (omega (arith, nodes_free ns hs, here))
    | inr with_gpus ↦
        let here = rw with_gpus at (node_free n h) in
        rw with_gpus (omega (arith, nodes_free ns hs, here))
  ]
