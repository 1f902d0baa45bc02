-- ===== src/Volume/Sharing.antt =====
-- backend/internal/volume/service.go and repo.go: Share and AddShare; VolumeAccess of
-- backend/internal/session/repo.go, by which a session mounts a volume.
pub mod Regrant
pub mod Access
pub mod Elsewhere
use giosk.Prelude.{
  ℕ, Bool, true, false, ◌&&◌, ◌||◌, not, Option, none, some, List, [], ◌∷◌, ◌++◌, String, str_eq, ℤ,
  pos, pos_part, neg_part, ◌==◌, if◌then◌else◌, first_where, select_where, any_where,
}
use giosk.Prelude.Text.{codes, parse_int}
use giosk.Wallet.Db.{Db, Membership}
use giosk.Volume.Store.{
  Volume, Share, User, Store, not_found, invalid_group_id, Action, ◌>>=◌, ◌>>◌, pure, raise,
  statement, is_id, is_value,
}

pub data Target : Type 0 where
  user group : Target

-- `target` is group where the text is "group", and else a user.
pub record ShareReq : Type 0 where
  pub target : Target
  pub value : String
  pub permission : String

abbrev pub eq_ℤ : ℤ → ℤ → Bool
eq_ℤ a b = pos_part a == pos_part b && neg_part a == neg_part b

abbrev is_group : ℤ → Option ℤ → Bool
is_group g none = false
is_group g (some h) = eq_ℤ h g

-- The rows of the volume for the same target.
abbrev pub same_target : ℕ → Option ℕ → Option ℤ → Share → Bool
same_target i (some u) g s = s.volume_id == i && is_value u s.shared_with_user_id
same_target i none (some g) s = s.volume_id == i && is_group g s.shared_with_group_id
same_target i none none s = s.volume_id == i

-- AddShare
pub add_share : ℕ → Option ℕ → Option ℤ → String → Action (Unit {0})
add_share i u g perm =
    statement
      (λ s. (tt, record s { shares = select_where (λ x. not (same_target i u g x)) s.shares }))
    >> statement (λ s. (
      tt,
      record s {
        shares =
            s.shares
            ++ record {
              volume_id = i;
              shared_with_user_id = u;
              shared_with_group_id = g;
              permission = perm;
            }
              ∷ [];
      },
    ))

-- ResolveUserID; the id 0 is none.
abbrev pub found_id : Option User → Action ℕ
found_id none = raise not_found
found_id (some x) = if x.id == 0 then raise not_found else pure x.id

pub resolve_user_id : String → Action ℕ
resolve_user_id name =
    statement (λ s. (first_where (λ (x : User). str_eq x.username name) s.users, s)) >>= found_id

abbrev pub share_group : ℕ → Option ℤ → String → Action (Unit {0})
share_group i none perm = raise invalid_group_id
share_group i (some g) perm = add_share i none (some g) perm

pub share : ℕ → ShareReq → Action (Unit {0})
unfolding resolve_user_id add_share
share i req =
    let perm = if str_eq req.permission "" then "ro" else req.permission in
    elim req.target [
      | group ↦ share_group i (parse_int (codes req.value)) perm
      | user ↦ resolve_user_id req.value >>= (λ u. add_share i (some u) none perm)
    ]

-- An active membership of `u` in one of the groups of a share.
abbrev in_group : List Membership → ℕ → Option ℤ → Bool
in_group ms u none = false
in_group ms u (some g) =
    any_where (λ (m : Membership). m.user_id == u && m.is_active && eq_ℤ (pos m.group_id) g) ms

-- A share that gives `u` access to the volume.
abbrev pub applies : List Membership → ℕ → ℕ → Share → Bool
applies ms i u s =
    s.volume_id == i && (is_value u s.shared_with_user_id || in_group ms u s.shared_with_group_id)

pub record VolAccess : Type 0 where
  pub pvc_name : String
  pub pvc_namespace : String
  pub size_gib : ℤ
  pub perm : String

-- The strongest permission of a list of shares.
abbrev pub strongest : List Share → Option String
strongest [] = none
strongest (s ∷ ss) =
    some (if any_where (λ (x : Share). str_eq x.permission "rw") (s ∷ ss) then "rw" else "ro")

abbrev pub perm_of : List Share → List Membership → Volume → ℕ → Option String
perm_of shares ms v u =
    if is_value u v.owner_user_id
    then some "rw"
    else strongest (select_where (applies ms v.id u) shares)

abbrev pub grant : Volume → Option String → Option VolAccess
grant v none = none
grant v (some perm) = some (record {
  pvc_name = v.pvc_name;
  pvc_namespace = v.pvc_namespace;
  size_gib = v.size_gib;
  perm = perm;
})

abbrev pub access_to : List Share → List Membership → ℕ → Option Volume → Option VolAccess
access_to shares ms u none = none
access_to shares ms u (some v) =
    if str_eq v.pvc_name "" then none else grant v (perm_of shares ms v u)

-- VolumeAccess
pub volume_access : Store → ℕ → ℕ → Option VolAccess
volume_access s i u = access_to s.shares s.wallets.memberships u (first_where (is_id i) s.volumes)
