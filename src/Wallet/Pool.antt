-- ===== src/Wallet/Pool.antt =====
-- backend/internal/org/service.go and repo.go: the credit pool of an organisation, as the wallet
-- service reaches it through the interface Pool.
pub mod Effects
use giosk.Prelude.{
  ℕ, Bool, true, false, ◌&&◌, Option, none, some, List, [], ◌∷◌, ℤ, pos, ◌+ℤ◌, ◌-ℤ◌, leb_ℤ, ltb,
  ◌==◌, if◌then◌else◌, first_where, update_where,
}
use giosk.Wallet.Db.{Organization, Group, Membership, Db, Action, ◌>>=◌, ◌>>◌, pure, gets, attempt}

abbrev pub org_key : ℕ → Organization → Bool
org_key o r = r.id == o

abbrev group_id_key : ℕ → Group → Bool
group_id_key g r = r.id == g

-- `return id, id > 0`
abbrev positive_id : ℕ → Option ℕ
positive_id id = if ltb 0 id then some id else none

-- OrgOfGroup
pub org_of_group : Db → ℕ → Option ℕ
org_of_group d g = elim (first_where (group_id_key g) d.groups) [
  | none ↦ none
  | some r ↦ positive_id r.org_id
]

-- GroupOfUser: the first active membership.
pub group_of_user : Db → ℕ → Option ℕ
group_of_user d u =
    elim (first_where (λ (m : Membership). m.user_id == u && m.is_active) d.memberships) [
      | none ↦ none
      | some m ↦ positive_id m.group_id
    ]

-- OrgOfUser: the first active membership whose group there is.
unfoldable org_of_memberships : List Group → ℕ → List Membership → Option ℕ
org_of_memberships gs u [] = none
org_of_memberships gs u (m ∷ ms) =
    let rest = org_of_memberships gs u ms in
    if m.user_id == u && m.is_active
    then elim (first_where (group_id_key m.group_id) gs) [
      | none ↦ rest
      | some r ↦ positive_id r.org_id
    ]
    else rest

unfoldable pub org_of_user : Db → ℕ → Option ℕ
unfolding org_of_memberships
org_of_user d u = org_of_memberships d.groups u d.memberships

pub pool_of : ℕ → List Organization → ℤ
pool_of o rs = elim (first_where (org_key o) rs) [ none ↦ pos 0 | some r ↦ r.credit_pool ]

pub add_pool_rows : ℕ → ℤ → List Organization → List Organization
add_pool_rows o a rs =
    update_where (org_key o) (λ r. record r { credit_pool = r.credit_pool +ℤ a }) rs

-- `WHERE id = ? AND credit_pool >= ?`
unfoldable pub covers_pool : ℕ → ℤ → List Organization → Bool
covers_pool o a rs = elim (first_where (org_key o) rs) [
  | none ↦ false
  | some r ↦ leb_ℤ a r.credit_pool
]

draw_rows : ℕ → ℤ → Db → Bool × Db
draw_rows o a d =
    if covers_pool o a d.organizations
    then (true, record d { organizations = add_pool_rows o (pos 0 -ℤ a) d.organizations })
    else (false, d)

-- DrawPool
pub draw_pool : ℕ → ℤ → Action Bool
draw_pool o a = attempt (draw_rows o a)

-- AddPool
pub add_pool : ℕ → ℤ → Action (Unit {0})
add_pool o a = attempt λ d. (tt, record d { organizations = add_pool_rows o a d.organizations })

draw_for : Option ℕ → ℤ → Action Bool
draw_for none a = pure true
draw_for (some o) a = draw_pool o a

add_for : Option ℕ → ℤ → Action (Unit {0})
add_for none a = pure tt
add_for (some o) a = add_pool o a

pub draw_for_group : ℕ → ℤ → Action Bool
unfolding draw_for
draw_for_group g a d = draw_for (org_of_group d g) a d

pub draw_for_user : ℕ → ℤ → Action Bool
unfolding draw_for
draw_for_user u a d = draw_for (org_of_user d u) a d

pub add_for_group : ℕ → ℤ → Action (Unit {0})
unfolding add_for
add_for_group g a d = add_for (org_of_group d g) a d

pub add_for_user : ℕ → ℤ → Action (Unit {0})
unfolding add_for
add_for_user u a d = add_for (org_of_user d u) a d
