-- ===== src/Resource/Placement/Invariant.antt =====
-- What holds of the sessions behind the gate, and is kept where nothing more is taken.
use giosk.Prelude.{
  ◌+◌, ◌≤◌, ◌≡◌, refl, sym, ap, subst, ◌∙◌, inl, inr, true, false, ◌&&◌, not, some, List, [], ◌∷◌,
  ◌++◌, String, str_eq, eq_iff, All, All-map, All-snoc, All-change, All-delete, arith, Bool-cases,
}
use giosk.Resource.Counter.{
  GpuMode, exclusive, shared, cpu, timeslice, other, Row, NodeRow, at_least_one, used_gpus, on_node,
  is_held, is_shared, running_by_node, reserved_gpus, hami_node,
}
use giosk.Resource.Availability.{LiveNode, atoi_safe, availability}
use giosk.Resource.Availability.Totals.{availability-totals}
use giosk.Resource.Placement.{can_place}
use giosk.Resource.Placement.Booking.{request, IsNew, tables, gives, needed, capacity, has_gpus}
use giosk.Resource.Counter.Shares.{
  sum_where-append, sum_where-delete, held, nowhere-runs, held-exclusive, held-most, held-shared,
  held-cpu, runs_on, running-change, reserved-change,
}
use giosk.Resource.Placement.Gate.{
  some_node, is_known, gate-room, sum_live-same, sum_live_mono, nodes_free,
}

module _ (nodes : List NodeRow) (live : List LiveNode) where
  -- No leased machine; no node that gives whole GPUs runs more than it has; no type is overbooked.
  pub record Inv (rows : List Row) : Type 0 where
    pub containers : All (λ (r : Row). r.ssh ≡ false) rows
    pub fits :
        All
          (λ (n : LiveNode).
            hami_node nodes n.name ≡ false → running_by_node rows n.name ≤ atoi_safe n.gpu_capacity)
          live
    pub within :
        (t : String) → str_eq t "" ≡ false → needed nodes live t rows ≤ capacity nodes live t

  module _ (rows : List Row) (inv : Inv rows) (r : Row) (new : IsNew r) where
    running_by_node-new :
        (name : String) → running_by_node (rows ++ r ∷ []) name ≡ running_by_node rows name
    unfolding running_by_node
    running_by_node-new name = omega (
      arith,
      sum_where-append (on_node name) used_gpus rows (r ∷ []),
      nowhere-runs name r new.nowhere,
    )

    needed-new :
        (t : String) → needed nodes live t (rows ++ r ∷ []) ≡ needed nodes live t rows + held t r
    unfolding reserved_gpus
    needed-new t = omega (
      arith,
      sum_live-same (gives nodes t) (λ n. running_by_node (rows ++ r ∷ []) n.name)
          (λ n. running_by_node rows n.name) (λ n. running_by_node-new n.name) live,
      sum_where-append (λ r. is_held t r && not (is_shared r.mode)) (λ r. at_least_one r.gpu_count)
          rows (r ∷ []),
    )

    -- The types of which the session takes nothing.
    spared-within :
        (t : String)
        → str_eq t "" ≡ false
        → held t r ≡ 0
        → needed nodes live t (rows ++ r ∷ []) ≤ capacity nodes live t
    spared-within t named none_held = omega (arith, needed-new t, none_held, inv.within t named)

    exclusive-own :
        has_gpus live ≡ true
        → can_place (tables nodes rows) (some live) (request r) ≡ true
        → r.mode ≡ exclusive
        → str_eq r.gpu_type "" ≡ false
        → needed nodes live r.gpu_type (rows ++ r ∷ []) ≤ capacity nodes live r.gpu_type
    unfolding availability
    exclusive-own gpus passed mode named =
        let known =
          is_known (availability (tables nodes rows) (some live))
            (some_node (tables nodes rows) live gpus) in
        omega (
          arith,
          gate-room (tables nodes rows) live r mode named known passed,
          (availability-totals (tables nodes rows) live r.gpu_type).0.1,
          nodes_free nodes rows inv.containers r.gpu_type live inv.fits,
          needed-new r.gpu_type,
          (held-most r.gpu_type r),
        )

    exclusive-within :
        has_gpus live ≡ true
        → can_place (tables nodes rows) (some live) (request r) ≡ true
        → r.mode ≡ exclusive
        → (t : String) → str_eq t "" ≡ false
        → needed nodes live t (rows ++ r ∷ []) ≤ capacity nodes live t
    exclusive-within gpus passed mode t named = elim (Bool-cases (str_eq r.gpu_type t)) [
      | inr other_type ↦ spared-within t named (ground (arith, held-exclusive t r, other_type))
      | inl same ↦
          let e : r.gpu_type ≡ t = (eq_iff r.gpu_type t).0 same in
          subst (λ (z : String). needed nodes live z (rows ++ r ∷ []) ≤ capacity nodes live z) e
            (exclusive-own gpus passed mode (ap (λ z. str_eq z "") e ∙ named))
    ]

    admitted-within :
        has_gpus live ≡ true
        → can_place (tables nodes rows) (some live) (request r) ≡ true
        → (m : GpuMode) → r.mode ≡ m
        → (t : String) → str_eq t "" ≡ false
        → needed nodes live t (rows ++ r ∷ []) ≤ capacity nodes live t
    admitted-within gpus passed exclusive mode t named = exclusive-within gpus passed mode t named
    admitted-within gpus passed shared mode t named = spared-within t named (held-shared t r mode)
    admitted-within gpus passed cpu mode t named = spared-within t named (held-cpu t r mode)
    admitted-within gpus passed timeslice mode t named = ground (arith, new.counted, mode)
    admitted-within gpus passed other mode t named = ground (arith, new.counted, mode)

    pub created-Inv :
        has_gpus live ≡ true
        → can_place (tables nodes rows) (some live) (request r) ≡ true
        → Inv (rows ++ r ∷ [])
    created-Inv gpus passed = record {
      containers = All-snoc (λ (r : Row). r.ssh ≡ false) rows r inv.containers new.container;
      fits =
          All-map live
            (λ n h k.
              subst (λ z. z ≤ atoi_safe n.gpu_capacity) (sym (running_by_node-new n.name)) (h k))
            inv.fits;
      within = admitted-within gpus passed r.mode refl;
    }

  -- Where nothing more runs or is reserved, the invariant stays.
  pub lower-Inv :
      (rows rows' : List Row)
      → Inv rows
      → All (λ (r : Row). r.ssh ≡ false) rows'
      → ((name : String) → running_by_node rows' name ≤ running_by_node rows name)
      → ((t : String) → reserved_gpus rows' t ≤ reserved_gpus rows t)
      → Inv rows'
  lower-Inv rows rows' inv containers runs holds = record {
    containers = containers;
    fits = All-map live (λ n h k. omega (arith, runs n.name, h k)) inv.fits;
    within = λ t named. omega (
      arith,
      sum_live_mono (gives nodes t) (λ n. running_by_node rows' n.name)
          (λ n. running_by_node rows n.name) (λ n. runs n.name) live,
      holds t,
      inv.within t named,
    );
  }

  module _ (xs ys : List Row) (r r' : Row) where
    pub fall-Inv :
        Inv (xs ++ r ∷ ys)
        → r'.ssh ≡ r.ssh
        → ((name : String) → runs_on name r' ≤ runs_on name r)
        → ((t : String) → held t r' ≤ held t r)
        → Inv (xs ++ r' ∷ ys)
    fall-Inv inv same runs holds =
        lower-Inv (xs ++ r ∷ ys) (xs ++ r' ∷ ys) inv
          (All-change (λ (r : Row). r.ssh ≡ false) xs ys r r' (λ h. same ∙ h) inv.containers)
          (λ name. omega (arith, running-change xs ys r r' name, runs name))
          (λ t. omega (arith, reserved-change xs ys r r' t, holds t))

  pub delete-Inv : (xs ys : List Row) (r : Row) → Inv (xs ++ r ∷ ys) → Inv (xs ++ ys)
  unfolding running_by_node reserved_gpus
  delete-Inv xs ys r inv =
      lower-Inv (xs ++ r ∷ ys) (xs ++ ys) inv
        (All-delete (λ (r : Row). r.ssh ≡ false) xs ys r inv.containers)
        (λ name. omega (arith, sum_where-delete (on_node name) used_gpus xs ys r))
        (λ t. omega (
          arith,
          sum_where-delete (λ r. is_held t r && not (is_shared r.mode))
              (λ r. at_least_one r.gpu_count) xs ys r,
        ))
