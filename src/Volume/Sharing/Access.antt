-- ===== src/Volume/Sharing/Access.antt =====
-- What a share gives, and to whom.
use giosk.Prelude.{
  ℕ, ◌≡◌, ◌≢◌, refl, sym, ap, subst, ◌∙◌, ◌⊎◌, inl, inr, Bool, true, false, ◌||◌, not, none, some,
  List, [], ◌∷◌, String, str_eq, arith, Option-cases, All, ◌==◌, if◌then◌else◌, first_where,
  select_where,
}
use giosk.Wallet.Db.{Membership, attempt}
use giosk.Volume.Store.{Volume, User, Store, Result, ok, statement, is_id, is_value}
use giosk.Volume.Store.Statements.{at, statement-clear, then_ok}
use giosk.Volume.Sharing.{
  user, ShareReq, same_target, add_share, resolve_user_id, share, applies, strongest, volume_access,
  found_id, grant, access_to,
}
use giosk.Volume.Sharing.Regrant.{
  Single, given, regranted, rw_by_group, regranted-Single, select-regranted, any_rw-removed,
  select-given, strongest-snoc,
}

first_where-holds :
    {A : Type 0} (p : A → Bool) (xs : List A) (a : A) → first_where p xs ≡ some a → p a ≡ true
first_where-holds p [] a h = ground (arith, h)
first_where-holds p (x ∷ xs) a h = ground (arith, h, first_where-holds p xs a)

module _ (s : Store) (i : ℕ) (name perm : String) (x : User) (clear : s.wallets.faults ≡ [])
    (known : first_where (λ (y : User). str_eq y.username name) s.users ≡ some x)
    (real : (x.id == 0) ≡ false) (single : All Single s.shares) where
  abbrev pub request : ShareReq
  request = record { target = user; value = name; permission = perm }

  -- The permission that is written.
  abbrev pub written_perm : String
  written_perm = if str_eq perm "" then "ro" else perm

  abbrev after : Store
  after = record (at s []) { shares = regranted i x.id written_perm s.shares }

  resolve-after : resolve_user_id name s ≡ (ok x.id, at s [])
  unfolding resolve_user_id
  resolve-after =
      then_ok (statement (λ s'. (first_where (λ (y : User). str_eq y.username name) s'.users, s')))
        found_id s
        (statement-clear (λ s'. (first_where (λ (y : User). str_eq y.username name) s'.users, s')) s
          clear)
      ∙ rw (known, real) refl

  add_share-after : add_share i (some x.id) none written_perm (at s []) ≡ (ok tt, after)
  unfolding add_share statement attempt
  add_share-after = refl

  share-after : share i request s ≡ (ok tt, after)
  unfolding share
  share-after =
      then_ok (resolve_user_id name) (λ u. add_share i (some u) none written_perm) s resolve-after
      ∙ add_share-after

  access-elsewhere :
      (j y : ℕ) → (y ≢ x.id) ⊎ (j ≢ i) → volume_access after j y ≡ volume_access s j y
  unfolding volume_access
  access-elsewhere j y apart = elim (Option-cases (first_where (is_id j) s.volumes)) [
    | inl gone ↦ ap (access_to after.shares ms y) gone ∙ ap (access_to s.shares ms y) (sym gone)
    | inr (v, found) ↦
        ap (access_to after.shares ms y) found
        ∙ same v (ground (arith, first_where-holds (is_id j) s.volumes v found))
        ∙ ap (access_to s.shares ms y) (sym found)
  ]
    where
      ms : List Membership
      ms = s.wallets.memberships

      same :
          (v : Volume)
          → v.id ≡ j
          → access_to after.shares s.wallets.memberships y (some v)
            ≡ access_to s.shares s.wallets.memberships y (some v)
      same v same_id =
          let apart' : (y ≢ x.id) ⊎ (v.id ≢ i) = elim apart [
            | inl ne ↦ inl ne
            | inr ne ↦ inr (λ e. ne (sym same_id ∙ e))
          ] in
          rw
            (select-regranted s.wallets.memberships i x.id written_perm v.id y apart' s.shares
              single)
            refl

  access-given :
      (v : Volume)
      → first_where (is_id i) s.volumes ≡ some v
      → str_eq v.pvc_name "" ≡ false
      → is_value x.id v.owner_user_id ≡ false
      → volume_access after i x.id
        ≡ some (record {
          pvc_name = v.pvc_name;
          pvc_namespace = v.pvc_namespace;
          size_gib = v.size_gib;
          perm =
              if rw_by_group s.wallets.memberships i x.id s.shares || str_eq written_perm "rw"
              then "rw"
              else "ro";
        })
  unfolding volume_access
  access-given v found claimed foreign =
      let same_id : v.id ≡ i = ground (arith, first_where-holds (is_id i) s.volumes v found) in
      let ms = s.wallets.memberships in
      let others = select_where (λ z. not (same_target i (some x.id) none z)) s.shares in
      let perms : strongest
            (select_where (applies ms i x.id) (regranted i x.id written_perm s.shares))
          ≡ some
              (if rw_by_group ms i x.id s.shares || str_eq written_perm "rw" then "rw" else "ro") =
        ap strongest (select-given ms i x.id written_perm others)
        ∙ strongest-snoc (select_where (applies ms i x.id) others) (given i x.id written_perm)
        ∙ ap (λ b. some (if b || str_eq written_perm "rw" then "rw" else "ro"))
            (any_rw-removed ms i x.id s.shares single) in
      ap (access_to after.shares ms x.id) found ∙ rw (claimed, foreign, same_id, perms) refl

  -- Sharing is reported as done and keeps one target to a share; no other user's access and no access
  -- to another volume has changed; and the user named, where not the owner, has the access that the
  -- request says or the stronger one that a group has, whatever was shared with the user before.
  abbrev pub Regranted : Result (Unit {0}) × Store → Type 0
  Regranted r =
      (r.0 ≡ ok tt)
      × All Single r.1.shares
      × ((j y : ℕ) → (y ≢ x.id) ⊎ (j ≢ i) → volume_access r.1 j y ≡ volume_access s j y)
      × ((v : Volume)
          → first_where (is_id i) s.volumes ≡ some v
          → str_eq v.pvc_name "" ≡ false
          → is_value x.id v.owner_user_id ≡ false
          → volume_access r.1 i x.id
            ≡ grant v (
                some (
                  if rw_by_group s.wallets.memberships i x.id s.shares || str_eq written_perm "rw"
                  then "rw"
                  else "ro")))

  -- Where no statement fails, sharing a volume that has a claim with a user that exists is
  -- reported as done and keeps one target to a share; no other user's access and no access to
  -- another volume has changed; and the user named, where not the owner, has the access that the
  -- request says or the stronger one that a group has, whatever was shared with the user before.
  pub share-Regranted : Regranted (share i request s)
  share-Regranted =
      subst Regranted (sym share-after)
        (refl, regranted-Single i x.id written_perm s.shares single, access-elsewhere, access-given)

-- Whoever asks: a request to share a volume that has a claim with a user that does not own it,
-- for reading and writing, gives that user the access to it, where no statement fails; Share
-- does not look at the owner.
pub share-opens :
    (s : Store) (i : ℕ) (name : String) (x : User) (v : Volume)
    → s.wallets.faults ≡ []
    → first_where (λ (y : User). str_eq y.username name) s.users ≡ some x
    → (x.id == 0) ≡ false
    → All Single s.shares
    → first_where (is_id i) s.volumes ≡ some v
    → str_eq v.pvc_name "" ≡ false
    → is_value x.id v.owner_user_id ≡ false
    → volume_access (share i (record { target = user; value = name; permission = "rw" }) s).1 i x.id
      ≡ grant v (some "rw")
share-opens s i name x v clear known real single found claimed foreign =
    (share-Regranted s i name "rw" x clear known real single).3 v found claimed foreign
    ∙ ap (λ b. grant v (some (if b then "rw" else "ro")))
        (by_rw (rw_by_group s.wallets.memberships i x.id s.shares))
  where
    by_rw : (b : Bool) → (b || true) ≡ true
    by_rw b = ground arith
