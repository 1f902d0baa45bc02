-- ===== src/Authz/Role/Ranks.antt =====
-- Who passes the role guards.
use giosk.Prelude.{
  ℕ, ◌≡◌, ◌⊎◌, true, Option, some, List, arith, pos, negsuc, String, eq_iff, Option-cases,
  Bool-cases, inl, inr,
}
use giosk.Prelude.Text.{parse_int}
use giosk.Authz.Scope.{User, next}
use giosk.Authz.Role.{group_role, group_role_rank}

-- A route for project administrators admits platform administrators and those whose role in the
-- group of the path is project_admin or org_admin: no other role, old or misspelt, passes.
pub group_role-project_admin :
    (role_in_group : ℕ → ℕ → Option String) (u : User) (param : List ℕ)
    → group_role role_in_group "project_admin" (some u) param ≡ next
    → (u.admin ≡ true)
      ⊎ ((id : ℕ) × (role : String) × (parse_int param ≡ some (pos id))
          × (role_in_group u.id id ≡ some role)
          × ((role ≡ "project_admin") ⊎ (role ≡ "org_admin")))
unfolding group_role group_role_rank
group_role-project_admin rg u param h = elim (Bool-cases u.admin) [
  | inl e ↦ inl e
  | inr e ↦ elim (Option-cases (parse_int param)) [
    | inl e' ↦ ground arith
    | inr (negsuc id, e') ↦ ground arith
    | inr (pos id, e') ↦ elim (Option-cases (rg u.id id)) [
      | inl e'' ↦ ground arith
      | inr (role, e'') ↦
          inr (
            id,
            role,
            e',
            e'',
            ground (arith, eq_iff role "project_admin", eq_iff role "org_admin"),
          )
    ]
  ]
]
