-- ===== src/Wallet/Payments.antt =====
-- What a payment does to the wallets: booked once, by its amount, to one wallet.
use obs_system_backend_berka.Base.{
  ℕ, suc, ◌≡◌, refl, inl, inr, ◌≢◌, none, some, List, [], ◌∷◌, arith, ◌==◌, if◌then◌else◌,
  Bool-cases, Option-cases, any, true, false, find, All, All-update_where, All-find, find_holds,
  update_where, ok, committed,
}
use obs_system_backend_berka.Base.Int.{ℤ, pos, ◌+ℤ◌, ◌-ℤ◌, ◌≤ℤ◌, ◌<ℤ◌, ltb_ℤ, int_laws}
use obs_system_backend_berka.Wallet.{
  RefType, Wallet, Bank, get_wallet_by_user_id, set_balance, settle, WebhookResult, known, booked,
  create_topup_session, process_payment_webhook, complete_pending_transaction, is_pending,
  is_payment, create_transaction, credit, payment,
}

find-update_balance :
    (k j : ℕ) (x : ℤ) (ws : List Wallet)
    → find
        (λ (w : Wallet). w.id == j)
        (update_where (λ (w : Wallet). w.id == k) (λ w. record w { balance = x }) ws)
      ≡ (elim (find (λ (w : Wallet). w.id == j) ws) [
        | none ↦ none
        | some w ↦ some (if j == k then record w { balance = x } else w)
      ])
find-update_balance k j x [] = refl
find-update_balance k j x (w ∷ ws) = ground (arith, find-update_balance k j x ws)

-- A webhook that books a payment answers the old balance plus the amount, writes it to its wallet
-- and leaves every other wallet alone.
pub process_payment_webhook-booked :
    (wallet_id : ℕ) (amount : ℤ) (payment_id j : ℕ) (b b' : Bank) (x : ℤ) (w : Wallet)
    → process_payment_webhook wallet_id amount payment_id b ≡ ok (booked x, b')
    → find (λ (v : Wallet). v.id == wallet_id) b.wallets ≡ some w
    → j ≢ wallet_id
    → (x ≡ w.balance +ℤ amount)
      × (find (λ (v : Wallet). v.id == wallet_id) b'.wallets ≡ some (record w { balance = x }))
      × (find (λ (v : Wallet). v.id == j) b'.wallets ≡ find (λ (v : Wallet). v.id == j) b.wallets)
unfolding process_payment_webhook
process_payment_webhook-booked wallet_id amount payment_id j b b' x w run e other = ground (
  arith,
  find_holds (λ (v : Wallet). v.id == wallet_id) b.wallets e,
  find-update_balance w.id wallet_id x b.wallets,
  find-update_balance w.id j x b.wallets,
)

-- A second delivery of a webhook answers that the payment is known and changes nothing.
pub process_payment_webhook_twice :
    (wallet_id : ℕ) (amount : ℤ) (payment_id : ℕ) (b b' : Bank) (r : WebhookResult)
    → process_payment_webhook wallet_id amount payment_id b ≡ ok (r, b')
    → process_payment_webhook wallet_id amount payment_id b' ≡ ok (known, b')
unfolding process_payment_webhook
process_payment_webhook_twice wallet_id amount payment_id b b' r run =
    elim (Option-cases (find (λ (v : Wallet). v.id == wallet_id) b.wallets)) [
      | inl e ↦ ground arith
      | inr (w, e) ↦ ground (
        arith,
        find_holds (λ (v : Wallet). v.id == wallet_id) b.wallets e,
        find-update_balance w.id wallet_id (w.balance +ℤ amount) b.wallets,
      )
    ]

-- No wallet is overdrawn.
abbrev pub IsSolvent : Bank → Type 0
IsSolvent b = All (λ (w : Wallet). pos 0 ≤ℤ w.balance) b.wallets

set_balance-IsSolvent :
    (k : ℕ) (x : ℤ) (b : Bank) → pos 0 ≤ℤ x → IsSolvent b → IsSolvent (set_balance k x b)
unfolding set_balance
set_balance-IsSolvent k x b h s =
    All-update_where (λ (w : Wallet). pos 0 ≤ℤ w.balance) (λ w. pos 0 ≤ℤ w.balance) (λ w. w.id == k)
      (λ w. record w { balance = x }) b.wallets (λ w _ _. h) (λ w g _. g) s

settle-IsSolvent : (t : ℕ) (x : ℤ) (b : Bank) → IsSolvent b → IsSolvent (settle t x b)
unfolding settle
settle-IsSolvent t x b s = s

-- The user's wallet is not overdrawn, in a bank that stays solvent: a new wallet starts at zero.
pub get_wallet_by_user_id-IsSolvent :
    (user : ℕ) (b : Bank)
    → IsSolvent b
    → let (w, b') = get_wallet_by_user_id user b in IsSolvent b' × (pos 0 ≤ℤ w.balance)
unfolding get_wallet_by_user_id
get_wallet_by_user_id-IsSolvent user b s =
    elim (Option-cases (find (λ (w : Wallet). w.user_id == user) b.wallets)) [
      | inl e ↦ rw (e, get_wallet_by_user_id) ((omega arith, s), omega arith)
      | inr (w, e) ↦
          rw (e, get_wallet_by_user_id)
            (s, All-find (λ (w : Wallet). pos 0 ≤ℤ w.balance) _ b.wallets s e)
    ]

-- A top-up of a positive amount, which the controller demands, overdraws nobody.
pub create_topup_session-IsSolvent :
    (user : ℕ) (amount : ℤ) (payment_id : ℕ) (b : Bank)
    → pos 0 <ℤ amount
    → IsSolvent b
    → IsSolvent (committed b (create_topup_session user amount payment_id b))
unfolding create_topup_session
create_topup_session-IsSolvent user amount payment_id b pays s =
    let (w, b') = get_wallet_by_user_id user b in
    let (s', own) = get_wallet_by_user_id-IsSolvent user b s in
    let enough : pos 0 ≤ℤ w.balance +ℤ amount = omega int_laws in
    ground (arith, set_balance-IsSolvent w.id (w.balance +ℤ amount) b' enough s')

-- Completing a pending debit overdraws nobody, whatever the amount.
pub complete_pending_transaction-IsSolvent :
    (user : ℕ) (amount : ℤ) (ref : RefType) (ref_id : ℕ) (b : Bank)
    → IsSolvent b
    → IsSolvent (committed b (complete_pending_transaction user amount ref ref_id b))
unfolding complete_pending_transaction
complete_pending_transaction-IsSolvent user amount ref ref_id b s =
    let (w, b') = get_wallet_by_user_id user b in
    let (s', own) = get_wallet_by_user_id-IsSolvent user b s in
    elim (Option-cases (find (is_pending w.id ref ref_id) b'.transactions)) [
      | inl e ↦ rw (e, complete_pending_transaction) s
      | inr (t, e) ↦
          let new : ℤ = w.balance -ℤ amount in
          rw (e, complete_pending_transaction)
            (elim (Bool-cases (ltb_ℤ new (pos 0))) [
              | inl short ↦ rw short s
              | inr enough ↦ rw enough (
                  set_balance-IsSolvent w.id new (settle t.id new b') (ground arith)
                    (settle-IsSolvent t.id new b' s'))
            ])
    ]

-- A webhook is not checked for a positive amount: where the wallet is there and active and the payment
-- is not known, one that takes more than the wallet holds is booked all the same, and leaves the wallet
-- with the negative balance.
pub process_payment_webhook_overdraws :
    (wallet_id : ℕ) (amount : ℤ) (payment_id : ℕ) (b : Bank) (w : Wallet)
    → find (λ (v : Wallet). v.id == wallet_id) b.wallets ≡ some w
    → w.is_active ≡ true
    → any (is_payment payment_id) b.transactions ≡ false
    → w.balance +ℤ amount <ℤ pos 0
    → (b' : Bank) × (process_payment_webhook wallet_id amount payment_id b
        ≡ ok (booked (w.balance +ℤ amount), b'))
      × (v : Wallet) × (find (λ (v : Wallet). v.id == wallet_id) b'.wallets ≡ some v)
      × (v.balance <ℤ pos 0)
unfolding process_payment_webhook
process_payment_webhook_overdraws wallet_id amount payment_id b w e active fresh less =
    let x : ℤ = w.balance +ℤ amount in
    let b' =
      set_balance w.id x (create_transaction wallet_id credit amount x payment payment_id b) in
    let run : process_payment_webhook wallet_id amount payment_id b ≡ ok (booked x, b') =
      rw (e, process_payment_webhook, active, fresh) refl in
    let moved =
      process_payment_webhook-booked wallet_id amount payment_id (suc wallet_id) b b' x w run e
        (omega arith) in
    (b', run, record w { balance = x }, moved.1, less)
