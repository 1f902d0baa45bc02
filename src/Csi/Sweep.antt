-- ===== src/Csi/Sweep.antt =====
-- backend/internal/csi/gc.go: one pass of the collector. What the image store deletes is `Store`;
-- listing and deleting are of image.go and of the node's disk.
pub mod Twice
pub mod Collects
use giosk.Prelude.{
  ℕ, Bool, true, false, ◌&&◌, ◌||◌, not, Option, none, some, List, [], ◌∷◌, ◌++◌, String, str_eq,
  if◌then◌else◌, any_where,
}

pub data Kind : Type 0 where
  image stage : Kind

abbrev kind_eq : Kind → Kind → Bool
kind_eq image image = true
kind_eq stage stage = true
kind_eq image stage = false
kind_eq stage image = false

-- kind+id, the key of the suspects. No kind is a prefix of the other, so the pair says the same.
abbrev pub Key : Type 0
Key = Kind × String

abbrev key_eq : Key → Key → Bool
key_eq (k, i) (l, j) = kind_eq k l && str_eq i j

unfoldable pub has : Key → List Key → Bool
has key ks = any_where (key_eq key) ks

-- A PersistentVolume with a CSI source: its driver and its volume handle.
pub record Volume : Type 0 where
  pub driver : String
  pub handle : String

-- live[id]
unfoldable pub live : String → List (Option Volume) → Bool
live i [] = false
live i (none ∷ vs) = live i vs
live i (some v ∷ vs) = (str_eq v.driver "csi.giosk.io" && str_eq v.handle i) || live i vs

-- The lists that one pass gets, each or an error, and whether the deletion of a key succeeds.
pub record Env : Type 0 where
  pub volumes : Option (List (Option Volume))
  pub images : Option (List String)
  pub stages : Option (List String)
  pub deletes : Key → Bool

-- What a pass does: the keys that it asks to delete, in order, and the suspects of the next one.
pub record Pass : Type 0 where
  pub asked : List Key
  pub next : List Key

unfoldable pub step : (Key → Bool) → List (Option Volume) → List Key → Kind → String → Pass → Pass
step deletes vs suspects k i p =
    if live i vs
    then p
    else if not (has (k, i) suspects)
    then record p { next = p.next ++ (k, i) ∷ [] }
    else if deletes (k, i)
    then record p { asked = p.asked ++ (k, i) ∷ [] }
    else record { asked = p.asked ++ (k, i) ∷ []; next = p.next ++ (k, i) ∷ [] }

unfoldable pub sweep_ids :
    (Key → Bool) → List (Option Volume) → List Key → Kind → List String → Pass → Pass
unfolding step
sweep_ids deletes vs suspects k [] p = p
sweep_ids deletes vs suspects k (i ∷ is) p =
    sweep_ids deletes vs suspects k is (step deletes vs suspects k i p)

unfoldable pub swept : Env → List (Option Volume) → List Key → List String → List String → Pass
unfolding sweep_ids
swept env vs suspects is ss =
    sweep_ids env.deletes vs suspects Kind.stage ss
      (sweep_ids env.deletes vs suspects Kind.image is (record { asked = []; next = [] }))

-- GC.sweep: the new suspects, what was asked to be deleted, and whether it succeeded.
unfoldable pub sweep : Env → List Key → Bool × Pass
sweep env suspects = elim env.volumes [
  | none ↦ (false, record { asked = []; next = [] })
  | some vs ↦ elim env.images [
    | none ↦ (false, record { asked = []; next = suspects })
    | some is ↦ elim env.stages [
      | none ↦ (false, record { asked = []; next = suspects })
      | some ss ↦ (true, swept env vs suspects is ss)
    ]
  ]
]
