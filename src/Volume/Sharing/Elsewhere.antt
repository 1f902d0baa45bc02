-- ===== src/Volume/Sharing/Elsewhere.antt =====
-- Sharing leaves the table of volumes alone.
use giosk.Prelude.{
  ℕ, Bool, true, false, Option, none, some, List, [], ◌∷◌, ◌++◌, not, ℤ, String, str_eq, ◌==◌,
  if◌then◌else◌, first_where, select_where,
}
use giosk.Prelude.Text.{codes, parse_int}
use giosk.Volume.Store.{
  Volume, User, Store, Result, Action, ◌>>=◌, pure, raise, not_found, statement,
}
use giosk.Volume.Store.Statements.{statement_elim, then_elim}
use giosk.Volume.Sharing.{
  Target, user, group, ShareReq, same_target, add_share, resolve_user_id, found_id, share,
  share_group,
}

module _ (P : List Volume → ℕ → Type 0) where
  abbrev Kept : {A : Type 0} → Result A × Store → Type 0
  Kept r = P r.1.volumes r.1.next_id

  add_share-keeps :
      (i : ℕ) (u : Option ℕ) (g : Option ℤ) (perm : String) (s : Store)
      → P s.volumes s.next_id
      → Kept (add_share i u g perm s)
  unfolding add_share
  add_share-keeps i u g perm s inv =
      then_elim Kept Kept
        (statement
          (λ s. (tt, record s { shares = select_where (λ x. not (same_target i u g x)) s.shares })))
        (λ _. statement (λ s. (
          tt,
          record s {
            shares =
                s.shares
                ++ record {
                  volume_id = i;
                  shared_with_user_id = u;
                  shared_with_group_id = g;
                  permission = perm;
                }
                  ∷ [];
          },
        )))
        s
        (statement_elim Kept
          (λ s. (tt, record s { shares = select_where (λ x. not (same_target i u g x)) s.shares }))
          s (λ fs. inv) (λ fs. inv))
        (λ a t q.
          statement_elim Kept
            (λ s. (
              tt,
              record s {
                shares =
                    s.shares
                    ++ record {
                      volume_id = i;
                      shared_with_user_id = u;
                      shared_with_group_id = g;
                      permission = perm;
                    }
                      ∷ [];
              },
            ))
            t (λ fs. q) (λ fs. q))
        (λ x t q. q)

  resolve_user_id-keeps :
      (name : String) (s : Store) → P s.volumes s.next_id → Kept (resolve_user_id name s)
  unfolding resolve_user_id
  resolve_user_id-keeps name s inv =
      then_elim Kept Kept
        (statement (λ s. (first_where (λ (x : User). str_eq x.username name) s.users, s))) found_id
        s
        (statement_elim Kept (λ s. (first_where (λ (x : User). str_eq x.username name) s.users, s))
          s (λ fs. inv) (λ fs. inv))
        found (λ x t q. q)
    where
      by_id :
          (b : Bool) (n : ℕ) (t : Store)
          → P t.volumes t.next_id
          → Kept ((if b then raise not_found else pure n) t)
      by_id true n t q = q
      by_id false n t q = q

      found : (o : Option User) (t : Store) → P t.volumes t.next_id → Kept (found_id o t)
      found none t q = q
      found (some x) t q = by_id (x.id == 0) x.id t q

  pub share-keeps :
      (i : ℕ) (req : ShareReq) (s : Store) → P s.volumes s.next_id → Kept (share i req s)
  unfolding share
  share-keeps i req s inv = by_target req.target
    where
      perm : String
      perm = if str_eq req.permission "" then "ro" else req.permission

      by_group : (o : Option ℤ) → Kept (share_group i o perm s)
      by_group none = inv
      by_group (some g) = add_share-keeps i none (some g) perm s inv

      by_target :
          (t : Target)
          → Kept (
              (elim t as (λ _. Action (Unit {0})) [
                | group ↦ share_group i (parse_int (codes req.value)) perm
                | user ↦ resolve_user_id req.value >>= (λ u. add_share i (some u) none perm)
              ])
                s)
      by_target group = by_group (parse_int (codes req.value))
      by_target user =
          then_elim Kept Kept (resolve_user_id req.value) (λ u. add_share i (some u) none perm) s
            (resolve_user_id-keeps req.value s inv)
            (λ u t q. add_share-keeps i (some u) none perm t q) (λ x t q. q)
