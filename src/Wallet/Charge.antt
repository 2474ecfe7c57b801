-- ===== src/Wallet/Charge.antt =====
-- The payment from the wallet that src/services/eventService.js and src/services/mealService.js make
-- within their own transaction, and the books after it.
use obs_system_backend_berka.Base.{
  ℕ, ◌≡◌, subst, inl, inr, not, Result, ok, err, ok_inj, ◌>>◌, throw_if, Bool-cases,
}
use obs_system_backend_berka.Base.Int.{ℤ, ◌-ℤ◌, ltb_ℤ, int_laws}
use obs_system_backend_berka.Wallet.{
  debit, RefType, Wallet, Bank, get_wallet_by_user_id, create_transaction, set_balance,
}
use obs_system_backend_berka.Wallet.Invariant.{
  IsConsistent, IsOnBooks, get_wallet_by_user_id-IsConsistent, post-IsConsistent,
}

-- The balance is deducted, and a debit is written for what it pays; the two errors are the callers'.
unfoldable pub charge : {E : Type 0} → E → E → ℕ → ℤ → RefType → ℕ → Bank → Result E Bank
unfolding get_wallet_by_user_id create_transaction set_balance
charge inactive insufficient user price ref ref_id b =
    let (wallet, b') = get_wallet_by_user_id user b in
    do
      throw_if (not wallet.is_active) inactive
      throw_if (ltb_ℤ wallet.balance price) insufficient
      let new_balance = wallet.balance -ℤ price
      ok (
          create_transaction wallet.id debit price new_balance ref ref_id
            (set_balance wallet.id new_balance b'))

debited-IsConsistent :
    (w : Wallet) (price : ℤ) (ref : RefType) (ref_id : ℕ) (b : Bank)
    → IsConsistent b
    → IsOnBooks w b
    → IsConsistent (
        create_transaction w.id debit price
          (w.balance -ℤ price)
          ref
          ref_id
          (set_balance w.id (w.balance -ℤ price) b))
unfolding set_balance create_transaction
debited-IsConsistent w price ref ref_id b c o =
    post-IsConsistent w debit price (w.balance -ℤ price) (w.balance -ℤ price) ref ref_id b c o
      (omega int_laws)

thrown : {E : Type 0} {x : E} {t : Bank} → ◌≡◌ {A = Result E Bank} (err x) (ok t) → ⊥
thrown h = cc

-- A charge keeps the books balanced.
pub charge-IsConsistent :
    {E : Type 0} (e f : E) (user : ℕ) (price : ℤ) (ref : RefType) (ref_id : ℕ) (b : Bank) {t : Bank}
    → IsConsistent b
    → charge e f user price ref ref_id b ≡ ok t
    → IsConsistent t
unfolding charge
charge-IsConsistent e f user price ref ref_id b {t} c h =
    let (w, b') = get_wallet_by_user_id user b in
    let (c', o) = get_wallet_by_user_id-IsConsistent user b c in
    let d = debited-IsConsistent w price ref ref_id b' c' o in charged w b' d h
  where
    charged :
        (w : Wallet) (b' : Bank)
        → IsConsistent (
            create_transaction w.id debit price
              (w.balance -ℤ price)
              ref
              ref_id
              (set_balance w.id (w.balance -ℤ price) b'))
        → (throw_if (not w.is_active) e
            >> (throw_if (ltb_ℤ w.balance price) f
                >> ok (
                    create_transaction w.id debit price
                      (w.balance -ℤ price)
                      ref
                      ref_id
                      (set_balance w.id (w.balance -ℤ price) b'))))
          ≡ ok t
        → IsConsistent t
    charged w b' d g = elim (Bool-cases w.is_active) [
      | inl a ↦ elim (Bool-cases (ltb_ℤ w.balance price)) [
        | inl l ↦ absurd (thrown (rw (a, l) at g))
        | inr l ↦ subst IsConsistent (ok_inj _ _ (rw (a, l) at g)) d
      ]
      | inr a ↦ absurd (thrown (rw a at g))
    ]
