-- ===== src/Volume/Store.antt =====
-- backend/internal/volume/repo.go and model.go: the tables of volumes and shares, their queries and
-- updates, and what a failing statement does. Columns that no operation reads are left out.
pub mod Statements
use Prim.Native.String.{◌++◌ as append}
use giosk.Prelude.{
  ℕ, ◌+◌, ◌-◌, ◌/◌, ◌%◌, zero, suc, ◌≡◌, refl, Bool, true, false, ◌&&◌, not, Option, none, some,
  List, [], ◌∷◌, ◌++◌, String, str_eq, ℤ, pos, ◌+ℤ◌, ◌==◌, ltb, if◌then◌else◌, first_where,
  select_where, update_where,
}
use giosk.Wallet.Db.{Db, attempt}
use giosk.Wallet.Db

pub data Status : Type 0 where
  pending bound failed : Status

pub data Kind : Type 0 where
  personal group : Kind

pub record Volume : Type 0 where
  pub id : ℕ
  pub name : String
  pub kind : Kind
  pub owner_user_id : Option ℕ
  pub group_id : Option ℕ
  pub size_gib : ℤ
  pub pvc_name : String
  pub pvc_namespace : String
  pub nfs_server : String
  pub nfs_path : String
  pub status : Status
  pub billed_credits : ℤ
  pub created_at : ℕ

pub record Share : Type 0 where
  pub volume_id : ℕ
  pub shared_with_user_id : Option ℕ
  pub shared_with_group_id : Option ℤ
  pub permission : String

-- A row of users.
pub record User : Type 0 where
  pub id : ℕ
  pub username : String

-- `wallets` has the wallets, the memberships and the schedule of failing statements.
pub record Store : Type 0 where
  pub volumes : List Volume
  pub shares : List Share
  pub users : List User
  pub next_id : ℕ
  pub wallets : Db

pub data Error : Type 0 where
  db_error not_found quota_exceeded insufficient_credit invalid_group_id owner_required : Error

pub data Result (A : Type 0) : Type 0 where
  ok : A → Result A
  err : Error → Result A

abbrev pub Action : Type 0 → Type 0
Action A = Store → Result A × Store

infixl 5 ◌>>=◌ ◌>>◌
abbrev pub ◌>>=◌ : {A B : Type 0} → Action A → (A → Action B) → Action B
◌>>=◌ m f s = let (r, s') = m s in elim r [ ok a ↦ f a s' | err e ↦ (err e, s') ]

abbrev pub ◌>>◌ : {A B : Type 0} → Action A → Action B → Action B
m >> k = m >>= λ _. k

abbrev pub pure : {A : Type 0} → A → Action A
pure a s = (ok a, s)

abbrev pub raise : {A : Type 0} → Error → Action A
raise e s = (err e, s)

-- A statement: it fails and changes nothing, or has its effect.
unfoldable pub statement : {A : Type 0} → (Store → A × Store) → Action A
statement f s =
    let (r, d) = attempt (λ z. (tt, z)) s.wallets in
    elim r [
      | Db.ok _ ↦ let (a, s') = f (record s { wallets = d }) in (ok a, s')
      | Db.err _ ↦ (err db_error, record s { wallets = d })
    ]

-- `n, _ := f()` of a sum: 0 where the query fails.
abbrev pub or_zero : Action ℤ → Action ℤ
or_zero m s = let (r, s') = m s in (ok (elim r [ ok n ↦ n | err _ ↦ pos 0 ]), s')

abbrev pub is_id : ℕ → Volume → Bool
is_id i v = v.id == i

-- `column = n`, which NULL does not satisfy.
abbrev pub is_value : ℕ → Option ℕ → Bool
is_value n none = false
is_value n (some m) = m == n

abbrev pub of_owner : ℕ → Volume → Bool
of_owner u v = is_value u v.owner_user_id

abbrev pub of_team : ℕ → ℕ → Volume → Bool
of_team u g v = is_value u v.owner_user_id && is_value g v.group_id

-- SUM(size_gib)
abbrev pub sum_gib : (Volume → Bool) → List Volume → ℤ
sum_gib p [] = pos 0
sum_gib p (v ∷ vs) = (if p v then v.size_gib else pos 0) +ℤ sum_gib p vs

abbrev pub allocated_gib : ℕ → Action ℤ
allocated_gib u = statement (λ s. (sum_gib (of_owner u) s.volumes, s))

abbrev pub allocated_gib_in_team : ℕ → ℕ → Action ℤ
allocated_gib_in_team u g = statement (λ s. (sum_gib (of_team u g) s.volumes, s))

-- INSERT, which gives the row its id.
abbrev pub insert : Volume → Action Volume
insert v = statement (λ s.
    let row = record v { id = s.next_id } in
    (row, record s { volumes = s.volumes ++ row ∷ []; next_id = suc s.next_id }))

abbrev pub update : ℕ → (Volume → Volume) → Action (Unit {0})
update i f = statement (λ s. (tt, record s { volumes = update_where (is_id i) f s.volumes }))

abbrev pub set_bound : ℕ → String → String → Status → Action (Unit {0})
set_bound i name ns status =
    update i (λ v. record v { pvc_name = name; pvc_namespace = ns; status = status })

-- SetGroup; 0 writes NULL.
abbrev pub set_group : ℕ → ℕ → Action (Unit {0})
set_group i g = update i (λ v. record v { group_id = if g == 0 then none else some g })

abbrev pub set_billed : ℕ → ℤ → Action (Unit {0})
set_billed i credits = update i (λ v. record v { billed_credits = credits })

abbrev pub find : Option Volume → Action Volume
find none = raise not_found
find (some v) = pure v

-- Get
abbrev pub get : ℕ → Action Volume
get i = statement (λ s. (first_where (is_id i) s.volumes, s)) >>= find

-- Delete
abbrev pub remove : ℕ → Action (Unit {0})
remove i =
    statement (λ s. (tt, record s { volumes = select_where (λ v. not (is_id i v)) s.volumes }))
