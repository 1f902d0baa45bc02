-- ===== src/Resource/Placement.antt =====
-- backend/internal/resource/availability.go: whether a session fits now (CanPlace), and whether a node
-- offers a mode at all (NodeSupports).
pub mod Booking
pub mod Gate
pub mod Invariant
pub mod Booked
pub mod Pinned
pub mod Shares
use giosk.Prelude.{
  ℕ, ◌+◌, ◌-◌, Bool, true, false, ◌&&◌, ◌||◌, not, Option, none, some, List, [], ◌∷◌, String,
  str_eq, ℤ, pos, ◌-ℤ◌, leb_ℤ, ltb_ℤ, first_where, any_where, if◌then◌else◌,
}
use giosk.Resource.Counter.{
  GpuMode, exclusive, shared, cpu, timeslice, other, ShareUse, is_cpu, is_shared, at_least_one,
  reserved_gpus, reserved_shared,
}
use giosk.Resource.Availability.{
  Tables, LiveNode, NodeAvail, TypeAvail, Availability, availability, free_of,
}

pub record PlaceReq : Type 0 where
  pub mode : GpuMode
  pub gpu_type : String
  pub gpu_count : ℤ
  pub vram_mb : ℤ
  pub core_percent : ℤ
  pub node : String

-- Reservation, at the type that is asked for.
pub record Hold : Type 0 where
  pub gpus : ℕ
  pub share : ShareUse

pub fits_shared : NodeAvail → PlaceReq → ShareUse → Bool
fits_shared n r hold =
    if ltb_ℤ (pos n.slots_free -ℤ pos hold.count) (pos 1)
    then false
    else if ltb_ℤ (pos 0) r.vram_mb && ltb_ℤ (pos n.vram_free -ℤ hold.vram_mb) r.vram_mb
    then false
    else if ltb_ℤ (pos 0) r.core_percent && ltb_ℤ (pos n.cores_free -ℤ hold.cores) r.core_percent
    then false
    else true

-- `free - held >= need`, with `need` at least 1.
abbrev pub enough : ℕ → ℕ → ℤ → Bool
enough free held count = leb_ℤ (pos (at_least_one count)) (pos free -ℤ pos held)

pub can_place_here : NodeAvail → PlaceReq → Hold → Bool
unfolding fits_shared
can_place_here n r h = if not (str_eq n.gpu_type r.gpu_type) then false else elim r.mode [
  | exclusive ↦ enough n.gpu_free h.gpus r.gpu_count
  | shared ↦ if not n.fractional then false else fits_shared n r h.share
  | cpu ↦ true
  | timeslice ↦ true
  | other ↦ true
]

-- canPlaceOnNode
pub can_place_on_node : Availability → PlaceReq → Hold → Bool
unfolding can_place_here
can_place_on_node av r h = elim (first_where (λ n. str_eq n.node r.node) av.by_node) [
  | none ↦ true
  | some n ↦ can_place_here n r h
]

abbrev type_of : Availability → String → Option TypeAvail
type_of av gpu_type = first_where (λ t. str_eq t.gpu_type gpu_type) av.by_type

-- The switch of CanPlace.
pub can_place_anywhere : Availability → PlaceReq → Hold → Bool
unfolding fits_shared
can_place_anywhere av r h = elim r.mode [
  | exclusive ↦ elim (type_of av r.gpu_type) [
    | none ↦ false
    | some t ↦ enough (free_of t) h.gpus r.gpu_count
  ]
  | shared ↦
      any_where (λ n. n.fractional && str_eq n.gpu_type r.gpu_type && fits_shared n r h.share)
        av.by_node
  | timeslice ↦ elim (type_of av r.gpu_type) [
    | none ↦ false
    | some t ↦ leb_ℤ (pos 1) (pos t.slots_free)
  ]
  | cpu ↦ true
  | other ↦ true
]

abbrev pub is_unknown : Availability → Bool
is_unknown av = elim av.by_type [
  | [] ↦ elim av.by_node [ [] ↦ true | _ ∷ _ ↦ false ]
  | _ ∷ _ ↦ false
]

abbrev pub hold_of : Tables → String → Hold
hold_of db t = record { gpus = reserved_gpus db.reserved t; share = reserved_shared db.reserved t }

-- CanPlace
unfoldable pub can_place : Tables → Option (List LiveNode) → PlaceReq → Bool
unfolding can_place_anywhere can_place_on_node
can_place db live r =
    let av = availability db live in
    if is_cpu r.mode || str_eq r.gpu_type ""
    then true
    else if is_unknown av
    then true
    else if not (str_eq r.node "")
    then can_place_on_node av r (hold_of db r.gpu_type)
    else can_place_anywhere av r (hold_of db r.gpu_type)

-- NodeSupports: whether the node offers the mode, and whether the node is known. `none` is the empty mode.
pub node_supports : Availability → String → Option GpuMode → Bool × Bool
node_supports av node none = (true, not (str_eq node ""))
node_supports av node (some mode) =
    if str_eq node "" || is_cpu mode
    then (true, not (str_eq node ""))
    else elim (first_where (λ n. str_eq n.node node) av.by_node) [
      | none ↦ (true, false)
      | some n ↦
          if str_eq n.gpu_type ""
          then (false, true)
          else if is_shared mode
          then (n.fractional, true)
          else (not n.fractional, true)
    ]
