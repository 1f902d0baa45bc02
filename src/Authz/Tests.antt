-- ===== src/Authz/Tests.antt =====
-- Runs of the guards on a caller who manages the group 7 of the organisation 3.
use giosk.Prelude.{
  ℕ, ◌≡◌, refl, ◌⊎◌, false, Option, none, some, List, [], ◌∷◌, String, pos, ◌==◌, if◌then◌else◌,
}
use giosk.Prelude.Text.{codes, parse_int}
use giosk.Authz.Scope.{Level, Scope, User, forbidden, next, require_group_in_scope}
use giosk.Authz.Scope.Safety.{InScope, require_group_in_scope-InScope}
use giosk.Authz.Role.{group_role_rank, group_role}

abbrev scope_7 : Scope
scope_7 = record { level = Level.group; org_id = 3; group_id = 7 }

abbrev scopes : ℕ → List Scope
scopes u = if u == 1 then scope_7 ∷ [] else []

abbrev parents : ℕ → Option ℕ
parents g = if g == 7 then some 3 else none

abbrev roles : ℕ → ℕ → Option String
roles u g = if u == 1 then some "project_admin" else none

abbrev manager : User
manager = record { id = 1; admin = false }

parse-7 : parse_int (codes "7") ≡ some (pos 7)
unfolding parse_int
parse-7 = refl

require_group_in_scope-InScope_example :
    ((require_group_in_scope parents scope_7 (codes "7") ≡ next) × InScope parents scope_7 7)
    ⊎ ((require_group_in_scope parents scope_7 (codes "7") ≡ forbidden)
        × ¬ InScope parents scope_7 7)
require_group_in_scope-InScope_example =
    require_group_in_scope-InScope parents scope_7 (codes "7") 7 parse-7

manager-passes : group_role roles "project_admin" (some manager) (codes "7") ≡ next
unfolding group_role group_role_rank parse_int
manager-passes = refl
