-- ===== src/Wallet.antt =====
-- src/services/walletService.js and src/services/paymentService.js over the tables of
-- src/models/Wallet.js and src/models/Transaction.js. Ids are numbers, taken from a counter that
-- stands for UUIDV4; amounts are kuruş; a row is created at the front of its table.
pub mod Balance
pub mod Invariant
pub mod Operations
pub mod Payments
pub mod Charge
mod Tests
use obs_system_backend_berka.Base.{
  ℕ, ◌+◌, ◌-◌, ◌*◌, ◌/◌, Bool, not, ◌&&◌, Option, none, some, List, ◌∷◌, ltb, ◌==◌, if◌then◌else◌,
  Result, ok, err, ◌>>=◌, ◌>>◌, throw_if, or_throw, length, find, filter, any, update_where, take,
  drop,
}
use obs_system_backend_berka.Base.Int.{ℤ, pos, ◌+ℤ◌, ◌-ℤ◌, ltb_ℤ}

pub data TxType : Type 0 where
  credit debit pending_debit : TxType

pub data RefType : Type 0 where
  payment meal_reservation event_registration other_reference : RefType

pub record Wallet : Type 0 where
  pub id : ℕ
  pub user_id : ℕ
  pub balance : ℤ
  pub is_active : Bool

pub record Transaction : Type 0 where
  pub id : ℕ
  pub wallet_id : ℕ
  pub type : TxType
  pub amount : ℤ
  pub balance_after : ℤ
  pub reference_type : RefType
  pub reference_id : ℕ

-- The two tables, newest row first, and the next fresh id.
pub record Bank : Type 0 where
  pub wallets : List Wallet
  pub transactions : List Transaction
  pub next_id : ℕ

pub data Error : Type 0 where
  wallet_not_found wallet_inactive already_processed insufficient no_pending type_error : Error

abbrev pub same_type : TxType → TxType → Bool
same_type credit credit = Bool.true
same_type debit debit = Bool.true
same_type pending_debit pending_debit = Bool.true
same_type _ _ = Bool.false

abbrev pub same_ref : RefType → RefType → Bool
same_ref payment payment = Bool.true
same_ref meal_reservation meal_reservation = Bool.true
same_ref event_registration event_registration = Bool.true
same_ref other_reference other_reference = Bool.true
same_ref _ _ = Bool.false

-- `Wallet.create` with the values of `getWalletByUserId`
abbrev pub new_wallet : ℕ → ℕ → Wallet
new_wallet id user = record { id = id; user_id = user; balance = pos 0; is_active = Bool.true }

-- `getWalletByUserId`: the user's wallet, created when there is none.
unfoldable pub get_wallet_by_user_id : ℕ → Bank → Wallet × Bank
get_wallet_by_user_id user b = elim (find (λ (w : Wallet). w.user_id == user) b.wallets) [
  | some w ↦ (w, b)
  | none ↦ (
    new_wallet b.next_id user,
    record b { wallets = new_wallet b.next_id user ∷ b.wallets; next_id = b.next_id + 1 },
  )
]

-- `Transaction.create`
unfoldable pub create_transaction : ℕ → TxType → ℤ → ℤ → RefType → ℕ → Bank → Bank
create_transaction wallet type amount after ref ref_id b =
    let row : Transaction = record {
      id = b.next_id;
      wallet_id = wallet;
      type = type;
      amount = amount;
      balance_after = after;
      reference_type = ref;
      reference_id = ref_id;
    } in
    record b { transactions = row ∷ b.transactions; next_id = b.next_id + 1 }

-- `wallet.update({ balance })`
unfoldable pub set_balance : ℕ → ℤ → Bank → Bank
set_balance wallet balance b = record b {
  wallets =
      update_where (λ (w : Wallet). w.id == wallet) (λ w. record w { balance = balance }) b.wallets;
}

abbrev pub is_payment : ℕ → Transaction → Bool
is_payment payment_id t = same_ref t.reference_type payment && (t.reference_id == payment_id)

-- `createTopupSession`: in test mode the payment is booked at once, and the new balance returned.
-- (When the payment is known the code rolls back twice; both throws are `already_processed`.)
pub create_topup_session : ℕ → ℤ → ℕ → Bank → Result Error (ℤ × Bank)
unfolding get_wallet_by_user_id create_transaction set_balance
create_topup_session user amount payment_id b =
    let (wallet, b') = get_wallet_by_user_id user b in
    do
      throw_if (not wallet.is_active) wallet_inactive
      throw_if (any (is_payment payment_id) b'.transactions) already_processed
      let new_balance = wallet.balance +ℤ amount
      ok (
        new_balance,
        set_balance wallet.id new_balance
            (create_transaction wallet.id credit amount new_balance payment payment_id b'),
      )

-- What the webhook answers: the payment was known, or it is booked and this is the new balance.
pub data WebhookResult : Type 0 where
  known : WebhookResult
  booked : ℤ → WebhookResult

-- `processPaymentWebhook`
pub process_payment_webhook : ℕ → ℤ → ℕ → Bank → Result Error (WebhookResult × Bank)
unfolding create_transaction set_balance
process_payment_webhook wallet_id amount payment_id b = do
  wallet ← or_throw (find (λ (w : Wallet). w.id == wallet_id) b.wallets) wallet_not_found
  throw_if (not wallet.is_active) wallet_inactive
  let new_balance = wallet.balance +ℤ amount
  (if any (is_payment payment_id) b.transactions
      then ok (known, b)
      else ok (
        booked new_balance,
        set_balance wallet.id new_balance
            (create_transaction wallet_id credit amount new_balance payment payment_id b),
      ))

-- `createPendingTransaction`; a missing wallet is a TypeError on `wallet.balance`.
pub create_pending_transaction : ℕ → ℤ → RefType → ℕ → Bank → Result Error (Unit {0} × Bank)
unfolding create_transaction
create_pending_transaction wallet_id amount ref ref_id b = do
  wallet ← or_throw (find (λ (w : Wallet). w.id == wallet_id) b.wallets) type_error
  throw_if (ltb_ℤ wallet.balance amount) insufficient
  ok (tt, create_transaction wallet_id pending_debit amount wallet.balance ref ref_id b)

abbrev pub is_pending : ℕ → RefType → ℕ → Transaction → Bool
is_pending wallet ref ref_id t =
    (t.wallet_id == wallet)
    && (same_type t.type pending_debit
        && (same_ref t.reference_type ref && (t.reference_id == ref_id)))

-- `pendingTransaction.update({ type: 'debit', balance_after })`
unfoldable pub settle : ℕ → ℤ → Bank → Bank
settle tx after b = record b {
  transactions =
      update_where (λ (t : Transaction). t.id == tx)
        (λ t. record t { type = debit; balance_after = after }) b.transactions;
}

-- `completePendingTransaction`
pub complete_pending_transaction : ℕ → ℤ → RefType → ℕ → Bank → Result Error (Unit {0} × Bank)
unfolding get_wallet_by_user_id set_balance settle
complete_pending_transaction user amount ref ref_id b =
    let (wallet, b') = get_wallet_by_user_id user b in
    do
      pending ← or_throw (find (is_pending wallet.id ref ref_id) b'.transactions) no_pending
      let new_balance = wallet.balance -ℤ amount
      throw_if (ltb_ℤ new_balance (pos 0)) insufficient
      ok (tt, set_balance wallet.id new_balance (settle pending.id new_balance b'))

-- `refundTransaction`
pub refund_transaction : ℕ → ℤ → RefType → ℕ → Bank → Result Error (Unit {0} × Bank)
unfolding get_wallet_by_user_id create_transaction set_balance
refund_transaction user amount ref ref_id b =
    let (wallet, b') = get_wallet_by_user_id user b in
    let new_balance = wallet.balance +ℤ amount in
    ok (
      tt,
      set_balance wallet.id new_balance
          (create_transaction wallet.id credit amount new_balance ref ref_id b'),
    )

pub record Page : Type 0 where
  pub rows : List Transaction
  pub total : ℕ
  pub pages : ℕ

-- `Math.ceil(n / d)` of natural numbers with d > 0
abbrev pub ceil_div : ℕ → ℕ → ℕ
ceil_div n d = (n + (d - 1)) / d

-- `getTransactionHistory`: page `page` (from 1) of the wallet's transactions, newest first, of one
-- type if a type is asked for. (`options.page || 1` makes a page 0 the first page.)
pub get_transaction_history : ℕ → ℕ → ℕ → Option TxType → Bank → Page × Bank
unfolding get_wallet_by_user_id
get_transaction_history user page limit type b =
    let (wallet, b') = get_wallet_by_user_id user b in
    let p : ℕ = if page == 0 then 1 else page in
    let l : ℕ = if limit == 0 then 20 else limit in
    let wanted = λ (t : Transaction).
      (t.wallet_id == wallet.id)
      && (elim type [ none ↦ Bool.true | some k ↦ same_type t.type k ]) in
    let matching = filter wanted b'.transactions in
    (
      record {
        rows = take l (drop ((p - 1) * l) matching);
        total = length matching;
        pages = ceil_div (length matching) l;
      },
      b',
    )
