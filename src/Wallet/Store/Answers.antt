-- ===== src/Wallet/Store/Answers.antt =====
-- Where no statement fails, an operation answers.
use giosk.Prelude.{ℕ, ◌≡◌, refl, sym, subst, Option, [], ℤ, String}
use giosk.Wallet.Db.{Db, Result, ok, err, attempt, TxType}
use giosk.Wallet.Db.Faults.{at, attempt-clear, bind_elim}
use giosk.Wallet.Store.{
  user_wallet, insert_user_row, find_user_row, add_member_consumed, apply_user_tx,
}
use giosk.Wallet.Store.Effects.{apply_user_tx-clear}

-- The outcome is an answer, and still no statement is to fail.
abbrev pub Answered : {A : Type 0} → Result A × Db → Type 0
Answered (ok a, e) = e.faults ≡ []
Answered (err x, e) = ⊥

attempt-Answered :
    {A : Type 0} (f : Db → A × Db) (d : Db)
    → ((e : Db) → (f e).1.faults ≡ e.faults)
    → d.faults ≡ []
    → Answered (attempt f d)
attempt-Answered f d keeps clear = subst Answered (sym (attempt-clear f d clear)) (keeps (at d []))

pub apply_user_tx-Answered :
    (u g : ℕ) (kind : TxType) (a : ℤ) (desc ref : String) (actor : Option ℕ) (d : Db)
    → d.faults ≡ []
    → Answered (apply_user_tx u g kind a desc ref actor d)
apply_user_tx-Answered u g kind a desc ref actor d clear =
    let (b, e, runs, after, _, _, _, _) = apply_user_tx-clear u g kind a desc ref actor d clear in
    subst Answered (sym runs) after

pub user_wallet-Answered : (u g : ℕ) (d : Db) → d.faults ≡ [] → Answered (user_wallet u g d)
unfolding user_wallet insert_user_row find_user_row
user_wallet-Answered u g d clear =
    bind_elim Answered Answered (attempt (insert_user_row u g)) (λ _. attempt (find_user_row u g)) d
      (attempt-Answered (insert_user_row u g) d (λ e. refl) clear)
      (λ _ e q. attempt-Answered (find_user_row u g) e (λ z. refl) q) (λ x e q. q)

pub add_member_consumed-Answered :
    (u g : ℕ) (c : ℤ) (d : Db) → d.faults ≡ [] → Answered (add_member_consumed u g c d)
unfolding add_member_consumed
add_member_consumed-Answered u g c d clear = attempt-Answered _ d (λ e. refl) clear
