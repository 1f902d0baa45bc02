-- ===== src/Volume/Quota.antt =====
-- backend/internal/volume/service.go: what is allocated, its limit, and the operations that allocate
-- or give back. What the cluster answers is a parameter; the homes of sessions are a function, as the
-- source injects them.
pub mod Sums
pub mod Tables
pub mod Within
pub mod Moves
pub mod Reach
pub mod Shown
use Prim.Native.String.{◌++◌ as append}
use giosk.Prelude.{
  ℕ, Bool, true, false, ◌&&◌, ◌||◌, not, Option, none, some, List, [], ◌∷◌, String, str_eq, ℤ, pos,
  pos_part, neg_part, sub_ℕ, ◌+ℤ◌, ◌*◌, ◌+◌, ltb_ℤ, leb_ℤ, ◌==◌, ltb, if◌then◌else◌, is_some,
}
use giosk.Prelude.Text.{decimal}
use giosk.Policy.Resolver.{Resolver, resolve, resolve_group_by_id}
use giosk.Session.Billing.{quotient}
use giosk.Wallet.Db.{Db}
use giosk.Wallet.Service.{Service as Charger, balance}
use giosk.Volume.Store.{
  Status, pending, bound, failed, Kind, personal, group, Volume, Store, Error, db_error, not_found,
  quota_exceeded, insufficient_credit, owner_required, Result, ok, err, Action, ◌>>=◌, ◌>>◌, pure,
  raise, or_zero, allocated_gib, allocated_gib_in_team, insert, set_bound, set_group, get, remove,
  is_value,
}

pub record SessionHome : Type 0 where
  pub instance_id : String
  pub size_gib : ℤ

pub record CreateReq : Type 0 where
  pub name : String
  pub size_gib : ℤ

-- What the service was given; `price` is the price of a GiB and month at the time of the call.
pub record Service : Type 0 where
  pub ns_prefix : String
  pub total_gib : ℤ
  pub limits : Option Resolver
  pub charger : Option Charger
  pub price : ℤ
  pub homes_fn : Option (ℕ → List SessionHome)

-- Whether the cluster makes a claim of that namespace, name and size, and one for an NFS path.
pub record Provisioner : Type 0 where
  pub create_pvc : String → String → ℤ → Bool
  pub ensure_shared_nfs_pvc : String → String → String → String → ℤ → Bool

-- monthlyCost
abbrev pub monthly_cost : Service → ℤ → ℤ
monthly_cost svc size =
    sub_ℕ (pos_part size * pos_part svc.price + neg_part size * neg_part svc.price)
      (pos_part size * neg_part svc.price + neg_part size * pos_part svc.price)

abbrev pub sum_homes : List SessionHome → ℤ
sum_homes [] = pos 0
sum_homes (h ∷ hs) = h.size_gib +ℤ sum_homes hs

-- homeUsedGiB
abbrev pub home_used_gib : Service → ℕ → ℤ
home_used_gib svc u = elim svc.homes_fn [ none ↦ pos 0 | some f ↦ sum_homes (f u) ]

abbrev pub positive_or : ℤ → ℤ → ℤ
positive_or default g = if ltb_ℤ (pos 0) g then g else default

unfoldable pub quota_for : Service → ℕ → ℤ
quota_for svc u = elim svc.limits [
  | none ↦ svc.total_gib
  | some r ↦ positive_or svc.total_gib (resolve r u).max_volume_gib
]

pub quota_for_team : Service → ℕ → ℕ → ℤ
unfolding quota_for
quota_for_team svc u g = if g == 0 then quota_for svc u else elim svc.limits [
  | none ↦ quota_for svc u
  | some r ↦ positive_or (quota_for svc u) (resolve_group_by_id r g).max_volume_gib
]

-- The numbers on the page of volumes (List).
pub record Quota : Type 0 where
  pub allocated_gb : ℤ
  pub home_gb : ℤ
  pub total_gb : ℤ

pub list_quota : Service → ℕ → Action Quota
unfolding quota_for
list_quota svc u = do
  alloc ← or_zero (allocated_gib u)
  pure (record {
    allocated_gb = alloc +ℤ home_used_gib svc u;
    home_gb = home_used_gib svc u;
    total_gb = quota_for svc u;
  })

-- What is counted against the limit of a new volume.
pub counted : Service → ℕ → ℕ → Action ℤ
counted svc u g =
    if g == 0
    then or_zero (allocated_gib u) >>= (λ alloc. pure (alloc +ℤ home_used_gib svc u))
    else or_zero (allocated_gib_in_team u g)

-- An operation of the wallet.
abbrev pub with_wallets : {A : Type 0} → (Db → A × Db) → Action A
with_wallets f s = let (a, d) = f s.wallets in (ok a, record s { wallets = d })

-- The credit check of Create: about a day's cost.
pub check_credit : Service → ℕ → ℕ → ℤ → Action (Unit {0})
check_credit svc u g size = elim svc.charger [
  | none ↦ pure tt
  | some w ↦
      if ltb_ℤ (pos 0) svc.price
      then with_wallets (balance w u g) >>= (λ b.
        if ltb_ℤ b (quotient (monthly_cost svc size) 30)
        then raise insufficient_credit
        else pure tt)
      else pure tt
]

abbrev user_ns : Service → ℕ → String
user_ns svc u = append (append svc.ns_prefix "user-") (decimal u)

-- The claim of a volume, and its row with what became of it.
abbrev pub pvc_of : Volume → String
pvc_of v = append "vol-" (decimal v.id)

abbrev pub bind_claim : Bool → String → Volume → Action Volume
bind_claim made ns v =
    let status = if made then bound else failed in
    set_bound v.id (pvc_of v) ns status
    >> pure (record v { pvc_name = pvc_of v; pvc_namespace = ns; status = status })

pub provision : Service → Provisioner → ℕ → Volume → Action Volume
provision svc prov owner v =
    bind_claim (prov.create_pvc (user_ns svc owner) (pvc_of v) v.size_gib) (user_ns svc owner) v

abbrev pub new_volume : ℕ → ℕ → ℕ → CreateReq → Volume
new_volume now u g req = record {
  id = 0;
  name = req.name;
  kind = personal;
  owner_user_id = some u;
  group_id = if g == 0 then none else some g;
  size_gib = req.size_gib;
  pvc_name = "";
  pvc_namespace = "";
  nfs_server = "";
  nfs_path = "";
  status = pending;
  billed_credits = pos 0;
  created_at = now;
}

pub create : Service → Provisioner → ℕ → ℕ → ℕ → CreateReq → Action Volume
unfolding quota_for_team counted check_credit provision
create svc prov now u g req = counted svc u g >>= (λ alloc.
    if ltb_ℤ (quota_for_team svc u g) (alloc +ℤ req.size_gib)
    then raise quota_exceeded
    else check_credit svc u g req.size_gib
      >> insert (new_volume now u g req)
      >>= provision svc prov u)

pub record ImportReq : Type 0 where
  pub name : String
  pub owner_user_id : Option ℕ
  pub group_id : Option ℕ
  pub nfs_server : String
  pub nfs_path : String
  pub size_gib : ℤ

abbrev import_ns : Service → Option ℕ → String
import_ns svc none = append svc.ns_prefix "system"
import_ns svc (some u) = user_ns svc u

abbrev imported : ℕ → ImportReq → Volume
imported now req = record {
  id = 0;
  name = req.name;
  kind = if is_some req.group_id then group else personal;
  owner_user_id = req.owner_user_id;
  group_id = req.group_id;
  size_gib = if ltb_ℤ req.size_gib (pos 1) then pos 1 else req.size_gib;
  pvc_name = "";
  pvc_namespace = "";
  nfs_server = req.nfs_server;
  nfs_path = req.nfs_path;
  status = pending;
  billed_credits = pos 0;
  created_at = now;
}

pub admin_import : Service → Provisioner → ℕ → ImportReq → Action Volume
admin_import svc prov now req =
    let ns = import_ns svc req.owner_user_id in
    if not (is_some req.owner_user_id) && not (is_some req.group_id)
    then raise owner_required
    else insert (imported now req) >>= (λ v.
      bind_claim (prov.ensure_shared_nfs_pvc ns (pvc_of v) v.nfs_server v.nfs_path v.size_gib) ns v)

-- The check of the team that a volume moves to.
abbrev pub check_team : Service → ℕ → ℕ → Volume → Action (Unit {0})
check_team svc u g v =
    if g == 0
    then pure tt
    else or_zero (allocated_gib_in_team u g) >>= (λ alloc.
      if ltb_ℤ (quota_for_team svc u g) (alloc +ℤ v.size_gib)
      then raise quota_exceeded
      else pure tt)

pub set_volume_team : Service → ℕ → ℕ → ℕ → Action (Unit {0})
unfolding quota_for_team
set_volume_team svc u i g = get i >>= (λ v.
    if is_value u v.owner_user_id then check_team svc u g v >> set_group i g else raise not_found)

-- Delete; the answer of the cluster is dropped.
pub delete : ℕ → ℕ → Action (Unit {0})
delete i u = get i >>= (λ v. if is_value u v.owner_user_id then remove i else raise not_found)
