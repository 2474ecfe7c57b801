-- ===== src/Wallet/Operations.antt =====
-- The books after each operation of src/services/walletService.js and src/services/paymentService.js.
use obs_system_backend_berka.Base.{
  ℕ, ◌≡◌, refl, sym, ap, inl, inr, some, List, [], ◌∷◌, arith, ◌==◌, ==_iff, Option-cases, find,
  find_holds, committed,
}
use obs_system_backend_berka.Base.Int.{ℤ, ◌+ℤ◌, ◌-ℤ◌}
use obs_system_backend_berka.Wallet.{
  credit, pending_debit, RefType, payment, Wallet, Transaction, Bank, get_wallet_by_user_id,
  create_transaction, set_balance, is_pending, create_topup_session, process_payment_webhook,
  create_pending_transaction, complete_pending_transaction, refund_transaction,
}
use obs_system_backend_berka.Wallet.Invariant.{
  IsConsistent, IsOnBooks, found-IsOnBooks, get_wallet_by_user_id-IsConsistent, post-IsConsistent,
  pending-IsConsistent, settle-IsConsistent,
}

post_as-IsConsistent :
    (w : Wallet) (k : ℕ) (amount : ℤ) (payment_id : ℕ) (b : Bank)
    → IsConsistent b
    → IsOnBooks w b
    → k ≡ w.id
    → IsConsistent (
        set_balance w.id
          (w.balance +ℤ amount)
          (create_transaction k credit amount (w.balance +ℤ amount) payment payment_id b))
post_as-IsConsistent w k amount payment_id b c o e = rw e (
    post-IsConsistent w credit amount (w.balance +ℤ amount) (w.balance +ℤ amount) payment payment_id
      b c o refl)

pending_as-IsConsistent :
    (w : Wallet) (k : ℕ) (amount : ℤ) (ref : RefType) (ref_id : ℕ) (b : Bank)
    → IsConsistent b
    → IsOnBooks w b
    → k ≡ w.id
    → IsConsistent (create_transaction k pending_debit amount w.balance ref ref_id b)
pending_as-IsConsistent w k amount ref ref_id b c o e =
    rw e (pending-IsConsistent w amount w.balance ref ref_id b c o)

create_topup_session-IsConsistent :
    (user : ℕ) (amount : ℤ) (payment_id : ℕ) (b : Bank)
    → IsConsistent b
    → IsConsistent (committed b (create_topup_session user amount payment_id b))
unfolding create_topup_session
create_topup_session-IsConsistent user amount payment_id b c =
    let (w, b') = get_wallet_by_user_id user b in
    let (c', o) = get_wallet_by_user_id-IsConsistent user b c in
    ground (
      arith,
      post-IsConsistent w credit amount (w.balance +ℤ amount) (w.balance +ℤ amount) payment
          payment_id b' c' o refl,
    )

process_payment_webhook-IsConsistent :
    (wallet_id : ℕ) (amount : ℤ) (payment_id : ℕ) (b : Bank)
    → IsConsistent b
    → IsConsistent (committed b (process_payment_webhook wallet_id amount payment_id b))
unfolding process_payment_webhook
process_payment_webhook-IsConsistent wallet_id amount payment_id b c =
    elim (Option-cases (find (λ (w : Wallet). w.id == wallet_id) b.wallets)) [
      | inl e ↦ rw (e, process_payment_webhook) c
      | inr (w, e) ↦
          let own : wallet_id ≡ w.id = sym ((==_iff w.id wallet_id).0 (find_holds _ b.wallets e)) in
          let posted =
            post_as-IsConsistent w wallet_id amount payment_id b c (found-IsOnBooks _ b c e) own in
          rw (e, process_payment_webhook) (ground (arith, posted))
    ]

create_pending_transaction-IsConsistent :
    (wallet_id : ℕ) (amount : ℤ) (ref : RefType) (ref_id : ℕ) (b : Bank)
    → IsConsistent b
    → IsConsistent (committed b (create_pending_transaction wallet_id amount ref ref_id b))
unfolding create_pending_transaction
create_pending_transaction-IsConsistent wallet_id amount ref ref_id b c =
    elim (Option-cases (find (λ (w : Wallet). w.id == wallet_id) b.wallets)) [
      | inl e ↦ rw (e, create_pending_transaction) c
      | inr (w, e) ↦
          let own : wallet_id ≡ w.id = sym ((==_iff w.id wallet_id).0 (find_holds _ b.wallets e)) in
          let filed =
            pending_as-IsConsistent w wallet_id amount ref ref_id b c (found-IsOnBooks _ b c e)
              own in
          rw (e, create_pending_transaction) (ground (arith, filed))
    ]

refund_transaction-IsConsistent :
    (user : ℕ) (amount : ℤ) (ref : RefType) (ref_id : ℕ) (b : Bank)
    → IsConsistent b
    → IsConsistent (committed b (refund_transaction user amount ref ref_id b))
unfolding refund_transaction
refund_transaction-IsConsistent user amount ref ref_id b c =
    let (w, b') = get_wallet_by_user_id user b in
    let (c', o) = get_wallet_by_user_id-IsConsistent user b c in
    post-IsConsistent w credit amount (w.balance +ℤ amount) (w.balance +ℤ amount) ref ref_id b' c' o
      refl

-- Completing a pending debit keeps the books balanced when it is called with the amount on file.
pub complete_pending_transaction-IsConsistent :
    (user : ℕ) (amount : ℤ) (ref : RefType) (ref_id : ℕ) (b : Bank)
    → IsConsistent b
    → ((t : Transaction)
        → let (w, b') = get_wallet_by_user_id user b in
          find (is_pending w.id ref ref_id) b'.transactions ≡ some t → t.amount ≡ amount)
    → IsConsistent (committed b (complete_pending_transaction user amount ref ref_id b))
unfolding complete_pending_transaction
complete_pending_transaction-IsConsistent user amount ref ref_id b c agree =
    let (w, b') = get_wallet_by_user_id user b in
    let (c', o) = get_wallet_by_user_id-IsConsistent user b c in
    elim (Option-cases (find (is_pending w.id ref ref_id) b'.transactions)) [
      | inl e ↦ rw (e, complete_pending_transaction) c
      | inr (t, e) ↦
          let settled =
            settle-IsConsistent w ref ref_id (w.balance -ℤ amount) b' c' o e
              (ap (λ z. w.balance -ℤ z) (sym (agree t e))) in
          rw (e, complete_pending_transaction) (ground (arith, settled))
    ]

-- A call of the two services.
pub data Call : Type 0 where
  top_up : ℕ → ℤ → ℕ → Call
  webhook : ℕ → ℤ → ℕ → Call
  reserve : ℕ → ℤ → RefType → ℕ → Call
  refund : ℕ → ℤ → RefType → ℕ → Call

unfoldable pub step : Call → Bank → Bank
step (top_up user amount id) b = committed b (create_topup_session user amount id b)
step (webhook wallet amount id) b = committed b (process_payment_webhook wallet amount id b)
step (reserve wallet amount ref id) b =
    committed b (create_pending_transaction wallet amount ref id b)
step (refund user amount ref id) b = committed b (refund_transaction user amount ref id b)

unfoldable pub run : List Call → Bank → Bank
run [] b = b
run (c ∷ cs) b = run cs (step c b)

step-IsConsistent : (c : Call) (b : Bank) → IsConsistent b → IsConsistent (step c b)
unfolding step
step-IsConsistent (top_up user amount id) b v = create_topup_session-IsConsistent user amount id b v
step-IsConsistent (webhook wallet amount id) b v =
    process_payment_webhook-IsConsistent wallet amount id b v
step-IsConsistent (reserve wallet amount ref id) b v =
    create_pending_transaction-IsConsistent wallet amount ref id b v
step-IsConsistent (refund user amount ref id) b v =
    refund_transaction-IsConsistent user amount ref id b v

-- After any sequence of top-ups, webhook calls, pending debits and refunds, failed ones included, each
-- wallet's balance is the sum of its booked transactions, if it was before.
pub run-IsConsistent : (cs : List Call) (b : Bank) → IsConsistent b → IsConsistent (run cs b)
unfolding run
run-IsConsistent [] b v = v
run-IsConsistent (c ∷ cs) b v = run-IsConsistent cs (step c b) (step-IsConsistent c b v)
