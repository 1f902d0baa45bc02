-- ===== src/Authz/Role.antt =====
-- The role of a member in a group: groupRoleRank, RequireAdmin, OrgRole and GroupRole.
pub mod Ranks
use giosk.Prelude.{
  ℕ, ◌≤◌, ◌≡◌, ◌↔◌, Bool, true, false, Option, none, some, List, arith, ltb, if◌then◌else◌, ℤ, pos,
  negsuc, String, str_eq,
}
use giosk.Prelude.Text.{parse_int}
use giosk.Authz.Scope.{User, Reply, unauthorized, forbidden, bad_request, next}

-- A role that is not in the map has rank 0.
unfoldable pub group_role_rank : String → ℕ
group_role_rank role =
    if str_eq role "member"
    then 1
    else if str_eq role "project_admin"
    then 2
    else if str_eq role "org_admin"
    then 3
    else 0

pub require_admin : Option User → Reply
require_admin none = forbidden
require_admin (some u) = if u.admin then next else forbidden

abbrev at_id {ℓ} : {A : Type ℓ} → (ℕ → A) → A → ℤ → A
at_id f a (pos id) = f id
at_id f a (negsuc _) = a

-- `is_org_admin` is OrgReader.IsOrgAdmin, which no negative id satisfies.
pub org_role : (ℕ → ℕ → Bool) → Option User → List ℕ → Reply
org_role is_org_admin none param = unauthorized
org_role is_org_admin (some u) param = if u.admin then next else elim (parse_int param) [
  | none ↦ forbidden
  | some id ↦ if at_id (is_org_admin u.id) false id then next else forbidden
]

-- `role_in_group` is MembershipReader.RoleInGroup, `min` the least role that passes.
unfoldable pub group_role : (ℕ → ℕ → Option String) → String → Option User → List ℕ → Reply
group_role role_in_group min none param = unauthorized
group_role role_in_group min (some u) param = if u.admin then next else elim (parse_int param) [
  | none ↦ bad_request
  | some id ↦ elim (at_id (role_in_group u.id) none id) [
    | none ↦ forbidden
    | some role ↦ if ltb (group_role_rank role) (group_role_rank min) then forbidden else next
  ]
]
