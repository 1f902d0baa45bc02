-- ===== src/Wallet/Service/Answers.antt =====
-- Where no statement fails, a consumption answers.
use giosk.Prelude.{ℕ, ◌≡◌, inl, inr, true, [], ℤ, pos, leb_ℤ, ltb_ℤ, String, Bool-cases, ◌-ℤ◌, none}
use giosk.Wallet.Db.{Db, Result, ok, err, ignore, UserWallet, TxType, ◌>>◌, pure}
use giosk.Wallet.Db.Faults.{bind_elim}
use giosk.Wallet.Store.{user_wallet, add_member_consumed, apply_user_tx}
use giosk.Wallet.Store.Answers.{
  Answered, apply_user_tx-Answered, user_wallet-Answered, add_member_consumed-Answered,
}
use giosk.Wallet.Service.{Service, consume, consume_from, pay, resolve_group, label}

module _ (u g : ℕ) (c : ℤ) (ref : String) where
  pay-Answered : (d : Db) → d.faults ≡ [] → Answered (pay u g c ref d)
  unfolding pay
  pay-Answered d clear =
      bind_elim Answered Answered
        (apply_user_tx u g TxType.consume (pos 0 -ℤ c) (label ref) ref none)
        (λ _. ignore (add_member_consumed u g c) >> pure true) d
        (apply_user_tx-Answered u g TxType.consume (pos 0 -ℤ c) (label ref) ref none d clear)
        (λ b e q. counted (add_member_consumed u g c e) (add_member_consumed-Answered u g c e q))
        (λ x e q. q)
    where
      counted : (r : Result (Unit {0}) × Db) → Answered r → r.1.faults ≡ []
      counted (ok _, e) q = q
      counted (err x, e) q = elim q [ ]

  consume_from-Answered :
      (w : UserWallet) (d : Db) → d.faults ≡ [] → Answered (consume_from u g c ref w d)
  unfolding consume_from
  consume_from-Answered w d clear = elim (Bool-cases (ltb_ℤ w.balance c)) [
    | inl short ↦ rw short clear
    | inr covered ↦ rw covered (pay-Answered d clear)
  ]

pub consume-Answered :
    (s : Service) (u g : ℕ) (c : ℤ) (ref : String) (d : Db)
    → d.faults ≡ []
    → Answered (consume s u g c ref d)
unfolding consume
consume-Answered s u g c ref d clear = elim (Bool-cases (leb_ℤ c (pos 0))) [
  | inl nothing ↦ rw nothing clear
  | inr something ↦ rw something (
      bind_elim Answered Answered (user_wallet u (resolve_group s d u g))
        (consume_from u (resolve_group s d u g) c ref) d
        (user_wallet-Answered u (resolve_group s d u g) d clear)
        (λ w e q. consume_from-Answered u (resolve_group s d u g) c ref w e q) (λ x e q. q))
]
