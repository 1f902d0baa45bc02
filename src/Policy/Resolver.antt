-- ===== src/Policy/Resolver.antt =====
-- backend/internal/policy/policy.go: the limits of each level and the Resolver that walks them.
-- The repository and the hierarchy are interfaces of the source; a failed look-up is `none`.
pub mod Nearest
use giosk.Prelude.{ℕ, Option, none, some, List, [], ◌∷◌, ◌++◌, ℤ, pos}

-- A level's limits; `none` is nil, the level leaves the key to the one above.
pub record Limits : Type 0 where
  pub max_gpu : Option ℤ
  pub max_vram_gb : Option ℤ
  pub max_volume_gib : Option ℤ
  pub max_concurrent_sessions : Option ℤ
  pub max_stopped_sessions : Option ℤ
  pub max_ephemeral_gib : Option ℤ

-- Resolved limits; 0 is without limit.
pub record Resolved : Type 0 where
  pub max_gpu : ℤ
  pub max_vram_gb : ℤ
  pub max_volume_gib : ℤ
  pub max_concurrent_sessions : ℤ
  pub max_stopped_sessions : ℤ
  pub max_ephemeral_gib : ℤ

abbrev pub unlimited : Resolved
unlimited = record {
  max_gpu = pos 0;
  max_vram_gb = pos 0;
  max_volume_gib = pos 0;
  max_concurrent_sessions = pos 0;
  max_stopped_sessions = pos 0;
  max_ephemeral_gib = pos 0;
}

pub record Repository : Type 0 where
  pub user_limits : ℕ → Option Limits
  pub group_limits : ℕ → Option Limits
  pub org_limits : ℕ → Option Limits

pub record Hierarchy : Type 0 where
  pub group_of_user : ℕ → Option ℕ
  pub org_of_user : ℕ → Option ℕ
  pub org_of_group : ℕ → Option ℕ

-- `global_fn` is the value that globalFn returns during the call, `none` for a nil function.
pub record Resolver : Type 0 where
  pub repo : Repository
  pub hier : Hierarchy
  pub global_fn : Option Resolved

pub global : Resolver → Resolved
global r = elim r.global_fn [ none ↦ unlimited | some g ↦ g ]

abbrev over : Option ℤ → ℤ → ℤ
over none v = v
over (some w) v = w

unfoldable pub apply_limits : Resolved → Limits → Resolved
apply_limits out l = record {
  max_gpu = over l.max_gpu out.max_gpu;
  max_vram_gb = over l.max_vram_gb out.max_vram_gb;
  max_volume_gib = over l.max_volume_gib out.max_volume_gib;
  max_concurrent_sessions = over l.max_concurrent_sessions out.max_concurrent_sessions;
  max_stopped_sessions = over l.max_stopped_sessions out.max_stopped_sessions;
  max_ephemeral_gib = over l.max_ephemeral_gib out.max_ephemeral_gib;
}

global_as_limits : Resolver → Limits
unfolding global
global_as_limits r = record {
  max_gpu = some (global r).max_gpu;
  max_vram_gb = some (global r).max_vram_gb;
  max_volume_gib = some (global r).max_volume_gib;
  max_concurrent_sessions = some (global r).max_concurrent_sessions;
  max_stopped_sessions = some (global r).max_stopped_sessions;
  max_ephemeral_gib = some (global r).max_ephemeral_gib;
}

-- `if id, ok := …; ok { if l, err := …; err == nil {…} }`: the layer, if both succeed.
abbrev layer : Option ℕ → (ℕ → Option Limits) → Option Limits
layer none f = none
layer (some id) f = f id

abbrev append_layer : List Limits → Option Limits → List Limits
append_layer ls none = ls
append_layer ls (some l) = ls ++ l ∷ []

apply_all : Resolved → List Limits → Resolved
unfolding apply_limits
apply_all out [] = out
apply_all out (l ∷ ls) = apply_all (apply_limits out l) ls

pub resolve : Resolver → ℕ → Resolved
unfolding global global_as_limits apply_all
resolve r user_id =
    let base = global_as_limits r ∷ [] in
    let with_org = append_layer base (layer (r.hier.org_of_user user_id) r.repo.org_limits) in
    let with_group =
      append_layer with_org (layer (r.hier.group_of_user user_id) r.repo.group_limits) in
    let layers = append_layer with_group (r.repo.user_limits user_id) in apply_all (global r) layers

abbrev apply_layer : Resolved → Option Limits → Resolved
apply_layer out none = out
apply_layer out (some l) = apply_limits out l

pub resolve_org : Resolver → ℕ → Resolved
unfolding global apply_limits
resolve_org r org_id = apply_layer (global r) (r.repo.org_limits org_id)

unfoldable pub resolve_group : Resolver → ℕ → ℕ → Resolved
unfolding resolve_org
resolve_group r org_id group_id = apply_layer (resolve_org r org_id) (r.repo.group_limits group_id)

-- The id that a look-up returns beside `ok`, 0 without one.
abbrev pub id_or_zero : Option ℕ → ℕ
id_or_zero none = 0
id_or_zero (some id) = id

pub resolve_group_by_id : Resolver → ℕ → Resolved
unfolding resolve_group
resolve_group_by_id r group_id =
    resolve_group r (id_or_zero (r.hier.org_of_group group_id)) group_id

pub parent_of_user : Resolver → ℕ → Resolved
unfolding global apply_limits
parent_of_user r user_id =
    let with_org = apply_layer (global r) (layer (r.hier.org_of_user user_id) r.repo.org_limits) in
    apply_layer with_org (layer (r.hier.group_of_user user_id) r.repo.group_limits)

-- As (orgID, groupID).
pub hier_of_user : Resolver → ℕ → ℕ × ℕ
hier_of_user r user_id =
    (id_or_zero (r.hier.org_of_user user_id), id_or_zero (r.hier.group_of_user user_id))
