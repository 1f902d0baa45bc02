-- ===== src/Policy/Admin.antt =====
-- backend/internal/policy/handler.go: who may set the limits of whom, and the values accepted.
pub mod Caps
pub mod Access
use giosk.Prelude.{
  ℕ, ◌≡◌, Bool, true, false, ◌&&◌, ◌||◌, Option, none, some, ℤ, pos, ltb_ℤ, leb_ℤ, ◌==◌,
  if◌then◌else◌,
}
use giosk.Authz.Scope.{Scope}
use giosk.Authz.Scope
use giosk.Policy.Resolver.{
  Limits, Resolved, Resolver, global, resolve_org, parent_of_user, hier_of_user, id_or_zero,
}

pub data Level : Type 0 where
  user group org : Level

-- `org_of_group` is `none` where no reader was injected or it does not know the group.
scope_parent_group : Resolver → ℕ → Scope → ℕ → Option Resolved
scope_parent_group r org_id s id = elim s.level [
  | Scope.Level.platform ↦ some (resolve_org r org_id)
  | Scope.Level.org ↦ if org_id == s.org_id then some (resolve_org r org_id) else none
  | Scope.Level.group ↦ if s.group_id == id then some (resolve_org r s.org_id) else none
  | Scope.Level.unset ↦ none
]

scope_parent_user : Resolver → Scope → ℕ → Option Resolved
scope_parent_user r s id = elim s.level [
  | Scope.Level.platform ↦ some (parent_of_user r id)
  | Scope.Level.org ↦ if (hier_of_user r id).0 == s.org_id then some (parent_of_user r id) else none
  | Scope.Level.group ↦
      if (hier_of_user r id).1 == s.group_id then some (parent_of_user r id) else none
  | Scope.Level.unset ↦ none
]

scope_parent_org : Resolver → Scope → ℕ → Option Resolved
scope_parent_org r s id = elim s.level [
  | Scope.Level.platform ↦ some (global r)
  | Scope.Level.org ↦ if s.org_id == id then some (global r) else none
  | _ ↦ none
]

-- The limits that cap the target, if the caller's scope covers it.
pub scope_parent : Resolver → (ℕ → Option ℕ) → Scope → Level → ℕ → Option Resolved
unfolding scope_parent_group scope_parent_user scope_parent_org
scope_parent r org_of_group s org id = scope_parent_org r s id
scope_parent r org_of_group s group id = scope_parent_group r (id_or_zero (org_of_group id)) s id
scope_parent r org_of_group s user id = scope_parent_user r s id

pub data Item : Type 0 where
  gpu vram volume sessions stopped_sessions ephemeral_disk : Item

-- `v != nil && p > 0 && *v > p`
abbrev exceeds : Option ℤ → ℤ → Bool
exceeds none p = false
exceeds (some v) p = ltb_ℤ (pos 0) p && ltb_ℤ p v

-- The first item over the parent's, or `none` for "".
unfoldable pub exceeds_parent : Limits → Resolved → Option Item
exceeds_parent b p =
    if exceeds b.max_gpu p.max_gpu
    then some gpu
    else if exceeds b.max_vram_gb p.max_vram_gb
    then some vram
    else if exceeds b.max_volume_gib p.max_volume_gib
    then some volume
    else if exceeds b.max_concurrent_sessions p.max_concurrent_sessions
    then some sessions
    else if exceeds b.max_stopped_sessions p.max_stopped_sessions
    then some stopped_sessions
    else if exceeds b.max_ephemeral_gib p.max_ephemeral_gib
    then some ephemeral_disk
    else none

pub data Reply : Type 0 where
  out_of_scope not_supported bad_value : Reply
  over_parent : Item → Reply
  saved : Reply

abbrev put : (ℕ → Option Limits) → ℕ → Limits → ℕ → Option Limits
put f id l i = if i == id then some l else f i

-- SetLimits of the repository, on a row that is there.
pub set_limits : Resolver → Level → ℕ → Limits → Resolver
set_limits r user id l = record r {
  repo = record (r.repo) { user_limits = put r.repo.user_limits id l };
}
set_limits r group id l = record r {
  repo = record (r.repo) { group_limits = put r.repo.group_limits id l };
}
set_limits r org id l = record r {
  repo = record (r.repo) { org_limits = put r.repo.org_limits id l };
}

-- SetScoped, up to the call of SetLimits, which `saved` makes.
pub set_scoped : Resolver → (ℕ → Option ℕ) → Scope → Level → ℕ → Limits → Reply
unfolding scope_parent exceeds_parent
set_scoped r org_of_group s level id body = elim (scope_parent r org_of_group s level id) [
  | none ↦ out_of_scope
  | some parent ↦ elim (exceeds_parent body parent) [ none ↦ saved | some i ↦ over_parent i ]
]

abbrev pick : Option ℤ → ℤ → ℤ
pick none cur = cur
pick (some v) cur = v

unfoldable pub next_global : Limits → Resolved → Resolved
next_global b cur = record {
  max_gpu = pick b.max_gpu cur.max_gpu;
  max_vram_gb = pick b.max_vram_gb cur.max_vram_gb;
  max_volume_gib = pick b.max_volume_gib cur.max_volume_gib;
  max_concurrent_sessions = pick b.max_concurrent_sessions cur.max_concurrent_sessions;
  max_stopped_sessions = pick b.max_stopped_sessions cur.max_stopped_sessions;
  max_ephemeral_gib = pick b.max_ephemeral_gib cur.max_ephemeral_gib;
}

-- SetGlobal: the reply, and what the injected setter is given.
unfoldable pub set_global : Bool → Resolved → Limits → Reply × Option Resolved
set_global false cur b = (not_supported, none)
set_global true cur b =
    let n = next_global b cur in
    if leb_ℤ n.max_gpu (pos 0)
      || leb_ℤ n.max_vram_gb (pos 0)
      || leb_ℤ n.max_volume_gib (pos 0)
      || leb_ℤ n.max_concurrent_sessions (pos 0)
    then (bad_value, none)
    else if ltb_ℤ n.max_stopped_sessions (pos 0) || ltb_ℤ n.max_ephemeral_gib (pos 0)
    then (bad_value, none)
    else (saved, some n)
