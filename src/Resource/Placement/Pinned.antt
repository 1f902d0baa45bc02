-- ===== src/Resource/Placement/Pinned.antt =====
-- The two answers about a node that a session is bound to.
use giosk.Prelude.{
  ◌+◌, ◌≤◌, ◌≡◌, ap, ◌∙◌, Bool, true, false, Option, none, some, str_eq, pos, -ℤ_parts, first_where,
  arith,
}
use giosk.Resource.Counter.{exclusive, at_least_one}
use giosk.Resource.Availability.{NodeAvail, Availability}
use giosk.Resource.Placement.{PlaceReq, Hold, can_place_here, can_place_on_node, node_supports}

-- A node that is shared out by HAMi and has whole GPUs free is answered with yes to an exclusive session
-- that is bound to it, although NodeSupports says of the same node that it does not give whole GPUs.
pub can_place_on_node-unsupported :
    (av : Availability) (r : PlaceReq) (h : Hold) (n : NodeAvail)
    → first_where (λ n. str_eq n.node r.node) av.by_node ≡ some n
    → str_eq r.node "" ≡ false
    → str_eq n.gpu_type r.gpu_type ≡ true
    → str_eq n.gpu_type "" ≡ false
    → r.mode ≡ exclusive
    → n.fractional ≡ true
    → at_least_one r.gpu_count + h.gpus ≤ n.gpu_free
    → (can_place_on_node av r h ≡ true) × (node_supports av r.node (some r.mode) ≡ (false, true))
unfolding can_place_on_node can_place_here node_supports
can_place_on_node-unsupported av r h n found bound same named mode split free = (
  ap
        (λ (o : Option NodeAvail). elim o as (λ _. Bool) [
          | none ↦ true
          | some n ↦ can_place_here n r h
        ])
        found
      ∙ placed,
  ground (arith, found, bound, named, mode, split),
)
  where
    placed : can_place_here n r h ≡ true
    placed = rw (same, mode) (ground (arith, free, -ℤ_parts (pos n.gpu_free) (pos h.gpus)))
