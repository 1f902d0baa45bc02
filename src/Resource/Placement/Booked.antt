-- ===== src/Resource/Placement/Booked.antt =====
-- Sessions behind the gate never need more GPUs than there are.
use giosk.Prelude.{
  ℕ, ◌+◌, ◌≤◌, ◌≡◌, refl, ap, subst, inl, inr, true, false, List, [], ◌∷◌, ◌++◌, String, str_eq,
  eq_iff, All, All-map, All-map2, All-every, All-change, arith, Bool-cases, if◌then◌else◌,
}
use giosk.Session.Limits.{running}
use giosk.Resource.Counter.{
  GpuMode, exclusive, shared, cpu, timeslice, other, Row, NodeRow, at_least_one, used_gpus, waiting,
  running_by_node, reserved_gpus, hami_node,
}
use giosk.Resource.Availability.{LiveNode, atoi_safe}
use giosk.Resource.Placement.Booking.{
  Goes, Change, scheduled, started, ended, Step, created, change, deleted, Reach, here, next, gives,
  sum_live, needed, capacity, Distinct, has_gpus,
}
use giosk.Resource.Counter.Shares.{
  held, nowhere-runs, runs_on, running-change, reserved-change, start-runs, start-held, end-runs,
  end-held,
}
use giosk.Resource.Placement.Gate.{sum_live-below}
use giosk.Resource.Placement.Invariant.{Inv, fall-Inv, delete-Inv, created-Inv}

module _ (nodes : List NodeRow) (live : List LiveNode) where
  -- A session that waits is put on the node `m`.
  module _ (xs ys : List Row) (r : Row) (m : String) (waits : waiting r ≡ true)
      (nowhere : r.node ≡ "") (there : str_eq m "" ≡ false)
      (inv : Inv nodes live (xs ++ r ∷ ys)) where
    abbrev placed : List Row
    placed = xs ++ record r { node = m } ∷ ys

    held-placed : (t : String) → held t (record r { node = m }) ≡ 0
    held-placed t = ground (arith, there)

    running-placed :
        (name : String)
        → running_by_node placed name
          ≡ running_by_node (xs ++ r ∷ ys) name + (if str_eq m name then used_gpus r else 0)
    running-placed name = omega (
      arith,
      running-change xs ys r (record r { node = m }) name,
      nowhere-runs name r nowhere,
      there_runs,
    )
      where
        there_runs :
            runs_on name (record r { node = m }) ≡ (if str_eq m name then used_gpus r else 0)
        there_runs = ground (arith, waits, there)

    reserved-placed :
        (t : String) → reserved_gpus placed t + held t r ≡ reserved_gpus (xs ++ r ∷ ys) t
    reserved-placed t =
        omega (arith, reserved-change xs ys r (record r { node = m }) t, held-placed t)

    containers-placed : All (λ (r : Row). r.ssh ≡ false) placed
    containers-placed =
        All-change (λ (r : Row). r.ssh ≡ false) xs ys r (record r { node = m }) (λ h. h)
          inv.containers

    -- On the nodes that give whole GPUs nothing more runs: the session takes none, or goes elsewhere.
    aside-Inv :
        ((n : LiveNode)
          → hami_node nodes n.name ≡ false
          → (if str_eq m n.name then used_gpus r else 0) ≡ 0)
        → Inv nodes live placed
    aside-Inv aside = record {
      containers = containers-placed;
      fits = All-map live (λ n h k. omega (arith, running-placed n.name, aside n k, h k)) inv.fits;
      within = λ t named. omega (
        arith,
        sum_live-below (gives nodes t) (λ n. running_by_node placed n.name)
            (λ n. running_by_node (xs ++ r ∷ ys) n.name)
            (λ n g. omega (arith, running-placed n.name, aside n (ground (arith, g)))) live,
        reserved-placed t,
        inv.within t named,
      );
    }

    shared-Inv : hami_node nodes m ≡ true → Inv nodes live placed
    shared-Inv hami = aside-Inv (λ n whole. elim (Bool-cases (str_eq m n.name)) [
      | inl same ↦
          let e : m ≡ n.name = (eq_iff m n.name).0 same in
          ground (arith, hami, whole, ap (hami_node nodes) e)
      | inr elsewhere ↦ ground (arith, elsewhere)
    ])

    module _ (mode : r.mode ≡ exclusive) where
      abbrev k : ℕ
      k = at_least_one r.gpu_count

      used-exclusive : used_gpus r ≡ k
      used-exclusive = rw mode refl

      -- The nodes of another name run what they ran.
      others-sum :
          (t : String) (ns : List LiveNode)
          → All (λ (n : LiveNode). str_eq n.name m ≡ false) ns
          → sum_live (gives nodes t) (λ n. running_by_node placed n.name) ns
            ≡ sum_live (gives nodes t) (λ n. running_by_node (xs ++ r ∷ ys) n.name) ns
      others-sum t [] h = refl
      others-sum t (n ∷ ns) (h, hs) =
          ground
            (arith, running-placed n.name, h, eq_iff m n.name, eq_iff n.name m, others-sum t ns hs)

      placed-sum :
          (t : String) (ns : List LiveNode)
          → Distinct ns
          → All (λ (n : LiveNode). str_eq n.name m ≡ true → str_eq n.gpu_type r.gpu_type ≡ true) ns
          → sum_live (gives nodes t) (λ n. running_by_node placed n.name) ns
            ≤ sum_live (gives nodes t) (λ n. running_by_node (xs ++ r ∷ ys) n.name) ns
              + (if str_eq r.gpu_type t then k else 0)
      placed-sum t [] d h = omega arith
      placed-sum t (n ∷ ns) (apart, d) (h, hs) = elim (Bool-cases (str_eq n.name m)) [
        | inl same ↦
            let e : n.name ≡ m = (eq_iff n.name m).0 same in
            let rest = others-sum t ns (
              subst (λ (z : String). All (λ (x : LiveNode). str_eq x.name z ≡ false) ns) e apart) in
            let typed = h same in
            let grown : running_by_node placed n.name ≤ running_by_node (xs ++ r ∷ ys) n.name + k =
              ground (arith, running-placed n.name, used-exclusive) in
            ground (
              arith,
              grown,
              rest,
              typed,
              eq_iff n.gpu_type r.gpu_type,
              eq_iff n.gpu_type t,
              eq_iff r.gpu_type t,
            )
        | inr other_name ↦ ground (
          arith,
          running-placed n.name,
          other_name,
          eq_iff m n.name,
          eq_iff n.name m,
          placed-sum t ns d hs,
        )
      ]

      held-waiting :
          (t : String) → str_eq t "" ≡ false → held t r ≡ (if str_eq r.gpu_type t then k else 0)
      held-waiting t named = ground (
        arith,
        waits,
        mode,
        named,
        eq_iff r.node "",
        nowhere,
        eq_iff r.gpu_type t,
        eq_iff r.gpu_type "",
        eq_iff t "",
      )

      exclusive-Inv :
          Distinct live
          → Goes nodes live (xs ++ r ∷ ys) (record r { mode = exclusive }) m
          → Inv nodes live placed
      exclusive-Inv distinct goes = record {
        containers = containers-placed;
        fits =
            All-map2 live
              (λ n h g whole. elim (Bool-cases (str_eq n.name m)) [
                | inl same ↦
                    let e : n.name ≡ m = (eq_iff n.name m).0 same in
                    omega (
                      arith,
                      (g same).1,
                      used-exclusive,
                      ap (running_by_node (xs ++ r ∷ ys)) e,
                      ap (running_by_node placed) e,
                      at_m,
                    )
                | inr other_name ↦ ground (
                  arith,
                  running-placed n.name,
                  other_name,
                  eq_iff m n.name,
                  eq_iff n.name m,
                  h whole,
                )
              ])
              inv.fits goes;
        within = λ t named. omega (
          arith,
          placed-sum t live distinct (All-map live (λ n h e. (h e).0) goes),
          held-waiting t named,
          reserved-placed t,
          inv.within t named,
        );
      }
        where
          at_m : running_by_node placed m ≤ running_by_node (xs ++ r ∷ ys) m + used_gpus r
          at_m = ground (arith, running-placed m)

    scheduled-Inv : Distinct live → Goes nodes live (xs ++ r ∷ ys) r m → Inv nodes live placed
    scheduled-Inv distinct goes = by_mode r.mode refl goes
      where
        by_mode :
            (md : GpuMode)
            → r.mode ≡ md
            → Goes nodes live (xs ++ r ∷ ys) (record r { mode = md }) m
            → Inv nodes live placed
        by_mode exclusive mode g = exclusive-Inv mode distinct g
        by_mode shared mode g = shared-Inv g
        by_mode cpu mode g = aside-Inv (λ n whole. ground (arith, mode))
        by_mode timeslice mode g = elim g [ ]
        by_mode other mode g = elim g [ ]

  module _ (distinct : Distinct live) (gpus : has_gpus live ≡ true) where
    Change-Inv :
        (xs ys : List Row) {r r' : Row}
        → Change nodes live (xs ++ r ∷ ys) r r'
        → Inv nodes live (xs ++ r ∷ ys)
        → Inv nodes live (xs ++ r' ∷ ys)
    Change-Inv xs ys {r} (scheduled m waits nowhere there goes) inv =
        scheduled-Inv xs ys r m waits nowhere there inv distinct goes
    Change-Inv xs ys {r} (started waits) inv =
        fall-Inv nodes live xs ys r (record r { phase = running }) inv refl
          (λ name. start-runs name r waits) (λ t. start-held t r)
    Change-Inv xs ys {r} (ended p over) inv =
        fall-Inv nodes live xs ys r (record r { phase = p }) inv refl
          (λ name. end-runs name r p over) (λ t. end-held t r p over)

    Step-Inv :
        {rows rows' : List Row}
        → Step nodes live rows rows'
        → Inv nodes live rows
        → Inv nodes live rows'
    Step-Inv (created rows r new passed) inv = created-Inv nodes live rows inv r new gpus passed
    Step-Inv (change xs ys r r' c) inv = Change-Inv xs ys c inv
    Step-Inv (deleted xs ys r) inv = delete-Inv nodes live xs ys r inv

    idle :
        (t : String) (ns : List LiveNode)
        → sum_live (gives nodes t) (λ n. running_by_node [] n.name) ns ≡ 0
    unfolding running_by_node
    idle t [] = refl
    idle t (n ∷ ns) = ground (arith, idle t ns)

    empty-Inv : Inv nodes live []
    unfolding running_by_node reserved_gpus
    empty-Inv = record {
      containers = tt;
      fits = All-every live (λ n whole. omega arith);
      within = λ t named. omega (arith, idle t live);
    }

    Reach-Inv : {rows : List Row} → Reach nodes live rows → Inv nodes live rows
    Reach-Inv here = empty-Inv
    Reach-Inv (next path step) = Step-Inv step (Reach-Inv path)

    -- From an empty table, whatever the order in which container sessions of the modes
    -- exclusive, shared and cpu are created behind the gate, scheduled, started, ended and
    -- deleted, where no query fails, no named type of GPU is overbooked: what sessions use on
    -- the nodes that give its GPUs out whole, and what waiting sessions have reserved, together
    -- is at most what there is, and no such node runs more than it has; sessions that share by
    -- time slices or have an unknown mode are left out, as the gate admits them by other counts
    -- or by none; the nodes have names of their own, one of them has a GPU, and the scheduler
    -- puts a session only where it fits.
    pub Reach-within :
        {rows : List Row}
        → Reach nodes live rows
        → ((t : String) → str_eq t "" ≡ false → needed nodes live t rows ≤ capacity nodes live t)
          × All
              (λ (n : LiveNode).
                hami_node nodes n.name ≡ false
                → running_by_node rows n.name ≤ atoi_safe n.gpu_capacity)
              live
    Reach-within path = let inv = Reach-Inv path in (inv.within, inv.fits)
