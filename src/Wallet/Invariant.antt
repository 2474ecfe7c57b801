-- ===== src/Wallet/Invariant.antt =====
-- The books balance when each wallet's balance is the sum of its booked transactions; the writes that
-- src/services/walletService.js and src/services/paymentService.js are made of keep this.
use obs_system_backend_berka.Base.{
  ℕ, ◌+◌, ◌<◌, ◌≡◌, refl, sym, ap, ◌∙◌, inl, inr, Bool, true, false, some, ◌∷◌, arith, ◌==◌,
  if◌then◌else◌, ==_iff, Option-cases, find, All, All-update_where, All-find, All-mono, find_holds,
}
use obs_system_backend_berka.Base.Keys.{Falls-mono}
use obs_system_backend_berka.Base.Int.{ℤ, pos, ◌+ℤ◌, ◌-ℤ◌, int_laws}
use obs_system_backend_berka.Wallet.{
  TxType, debit, pending_debit, RefType, Wallet, Transaction, Bank, new_wallet,
  get_wallet_by_user_id, create_transaction, set_balance, settle, is_pending,
}
use obs_system_backend_berka.Wallet.Balance.{
  effect, net, net-unknown, Below, net-settled, settled-Below,
}

pub record IsConsistent (b : Bank) : Type 0 where
  pub balanced : All (λ (w : Wallet). w.balance ≡ net w.id b.transactions) b.wallets
  pub wallets_old : All (λ (w : Wallet). w.id < b.next_id) b.wallets
  pub owners_old : All (λ (t : Transaction). t.wallet_id < b.next_id) b.transactions
  pub ids_fall : Below b.next_id b.transactions

-- A wallet as it stands in the books.
pub record IsOnBooks (w : Wallet) (b : Bank) : Type 0 where
  pub balance_is : w.balance ≡ net w.id b.transactions
  pub old : w.id < b.next_id

pub found-IsOnBooks :
    (p : Wallet → Bool) (b : Bank) {w : Wallet}
    → IsConsistent b
    → find p b.wallets ≡ some w
    → IsOnBooks w b
found-IsOnBooks p b {w} c e = record {
  balance_is =
      All-find (λ (w : Wallet). w.balance ≡ net w.id b.transactions) p b.wallets c.balanced e;
  old = All-find (λ (w : Wallet). w.id < b.next_id) p b.wallets c.wallets_old e;
}

new_wallet-IsConsistent :
    (user : ℕ) (b : Bank)
    → IsConsistent b
    → IsConsistent
        (record b { wallets = new_wallet b.next_id user ∷ b.wallets; next_id = b.next_id + 1 })
new_wallet-IsConsistent user b c = record {
  balanced =
      (sym (net-unknown b.next_id b.next_id b.transactions c.owners_old (omega arith)), c.balanced);
  wallets_old = (
    omega arith,
    All-mono (λ (w : Wallet). w.id < b.next_id) (λ w. w.id < b.next_id + 1) b.wallets
        (λ w h. omega arith) c.wallets_old,
  );
  owners_old =
      All-mono (λ (t : Transaction). t.wallet_id < b.next_id) (λ t. t.wallet_id < b.next_id + 1)
        b.transactions (λ t h. omega arith) c.owners_old;
  ids_fall =
      Falls-mono (λ (t : Transaction). t.id) b.next_id (b.next_id + 1) b.transactions (omega arith)
        c.ids_fall;
}

new_wallet-IsOnBooks :
    (user : ℕ) (b : Bank)
    → IsConsistent b
    → IsOnBooks
        (new_wallet b.next_id user)
        (record b { wallets = new_wallet b.next_id user ∷ b.wallets; next_id = b.next_id + 1 })
new_wallet-IsOnBooks user b c = record {
  balance_is = sym (net-unknown b.next_id b.next_id b.transactions c.owners_old (omega arith));
  old = omega arith;
}

-- The wallet that `getWalletByUserId` returns stands in the books that it leaves.
pub get_wallet_by_user_id-IsConsistent :
    (user : ℕ) (b : Bank)
    → IsConsistent b
    → let (w, b') = get_wallet_by_user_id user b in IsConsistent b' × IsOnBooks w b'
unfolding get_wallet_by_user_id
get_wallet_by_user_id-IsConsistent user b c =
    elim (Option-cases (find (λ (w : Wallet). w.user_id == user) b.wallets)) [
      | inl e ↦
          rw (e, get_wallet_by_user_id)
            (new_wallet-IsConsistent user b c, new_wallet-IsOnBooks user b c)
      | inr (w, e) ↦ rw (e, get_wallet_by_user_id) (c, found-IsOnBooks _ b c e)
    ]

share_own : (w x : ℕ) (e n : ℤ) → (x == w) ≡ true → (if w == x then e else pos 0) +ℤ n ≡ n +ℤ e
share_own w x e n h =
    let same : x ≡ w = (==_iff x w).0 h in rw (same, (==_iff w w).1 refl) (omega int_laws)

share_other : (w x : ℕ) (e n : ℤ) → (x == w) ≡ false → (if w == x then e else pos 0) +ℤ n ≡ n
share_other w x e n h = let ne : (w == x) ≡ false = ground arith in rw ne (omega int_laws)

share_none : (t : Bool) (n : ℤ) → (if t then pos 0 else pos 0) +ℤ n ≡ n
share_none true n = omega int_laws
share_none false n = omega int_laws

-- Booking: one transaction of type `type`, and the balance moved by its effect.
pub post-IsConsistent :
    (w : Wallet) (type : TxType) (amount after new : ℤ) (ref : RefType) (ref_id : ℕ) (b : Bank)
    → IsConsistent b
    → IsOnBooks w b
    → new ≡ w.balance +ℤ effect type amount
    → IsConsistent (set_balance w.id new (create_transaction w.id type amount after ref ref_id b))
unfolding set_balance create_transaction
post-IsConsistent w type amount after new ref ref_id b c o e = record {
  balanced =
      All-update_where (λ (x : Wallet). x.balance ≡ net x.id b.transactions) _ _ _ b.wallets
        (λ x h same.
          let id_is : x.id ≡ w.id = (==_iff x.id w.id).0 same in
          e
          ∙ ap (λ z. z +ℤ effect type amount)
              (o.balance_is ∙ ap (λ k. net k b.transactions) (sym id_is))
          ∙ sym (share_own w.id x.id (effect type amount) (net x.id b.transactions) same))
        (λ x h other.
          h ∙ sym (share_other w.id x.id (effect type amount) (net x.id b.transactions) other))
        c.balanced;
  wallets_old =
      All-update_where (λ (x : Wallet). x.id < b.next_id) (λ x. x.id < b.next_id + 1)
        (λ x. x.id == w.id) (λ x. record x { balance = new }) b.wallets (λ x h _. omega arith)
        (λ x h _. omega arith) c.wallets_old;
  owners_old = (
    omega (arith, o.old),
    All-mono (λ (t : Transaction). t.wallet_id < b.next_id) (λ t. t.wallet_id < b.next_id + 1)
        b.transactions (λ t h. omega arith) c.owners_old,
  );
  ids_fall = (omega arith, c.ids_fall);
}

-- A pending debit is on file and moves nothing.
pub pending-IsConsistent :
    (w : Wallet) (amount after : ℤ) (ref : RefType) (ref_id : ℕ) (b : Bank)
    → IsConsistent b
    → IsOnBooks w b
    → IsConsistent (create_transaction w.id pending_debit amount after ref ref_id b)
unfolding create_transaction
pending-IsConsistent w amount after ref ref_id b c o = record {
  balanced =
      All-mono (λ (x : Wallet). x.balance ≡ net x.id b.transactions) _ b.wallets
        (λ x h. h ∙ sym (share_none (w.id == x.id) (net x.id b.transactions))) c.balanced;
  wallets_old =
      All-mono (λ (x : Wallet). x.id < b.next_id) (λ x. x.id < b.next_id + 1) b.wallets
        (λ x h. omega arith) c.wallets_old;
  owners_old = (
    omega (arith, o.old),
    All-mono (λ (t : Transaction). t.wallet_id < b.next_id) (λ t. t.wallet_id < b.next_id + 1)
        b.transactions (λ t h. omega arith) c.owners_old,
  );
  ids_fall = (omega arith, c.ids_fall);
}

is_pending_type :
    (w : ℕ) (ref : RefType) (ref_id : ℕ) (t : Transaction)
    → is_pending w ref ref_id t ≡ true
    → (t.type ≡ pending_debit) × (t.wallet_id ≡ w)
is_pending_type w ref ref_id t h = ground arith

settle_own :
    (w x k : ℕ) (e n : ℤ)
    → k ≡ w
    → (x == w) ≡ true
    → n +ℤ (if k == x then pos 0 -ℤ e else pos 0) ≡ n -ℤ e
settle_own w x k e n same h = let own : (k == x) ≡ true = ground arith in rw own (omega int_laws)

settle_other :
    (w x k : ℕ) (e n : ℤ)
    → k ≡ w
    → (x == w) ≡ false
    → n +ℤ (if k == x then pos 0 -ℤ e else pos 0) ≡ n
settle_other w x k e n same h =
    let other : (k == x) ≡ false = ground arith in rw other (omega int_laws)

-- Settling a pending debit of the amount that is taken from the balance.
pub settle-IsConsistent :
    (w : Wallet) (ref : RefType) (ref_id : ℕ) (new : ℤ) (b : Bank) {t : Transaction}
    → IsConsistent b
    → IsOnBooks w b
    → find (is_pending w.id ref ref_id) b.transactions ≡ some t
    → new ≡ w.balance -ℤ t.amount
    → IsConsistent (set_balance w.id new (settle t.id new b))
unfolding set_balance settle
settle-IsConsistent w ref ref_id new b {t} c o e n =
    let (pd, owner) =
      is_pending_type w.id ref ref_id t
        (find_holds (is_pending w.id ref ref_id) b.transactions e) in
    let after = λ (x : ℕ).
      net-settled (is_pending w.id ref ref_id) x b.next_id new b.transactions c.ids_fall e pd in
    record {
      balanced =
          All-update_where (λ (x : Wallet). x.balance ≡ net x.id b.transactions) _ _ _ b.wallets
            (λ x h same.
              let id_is : x.id ≡ w.id = (==_iff x.id w.id).0 same in
              n
              ∙ ap (λ z. z -ℤ t.amount) (o.balance_is ∙ ap (λ k. net k b.transactions) (sym id_is))
              ∙ sym (settle_own w.id x.id t.wallet_id t.amount (net x.id b.transactions) owner same)
              ∙ sym (after x.id))
            (λ x h other.
              h
              ∙ sym (
                  settle_other w.id x.id t.wallet_id t.amount (net x.id b.transactions) owner other)
              ∙ sym (after x.id))
            c.balanced;
      wallets_old =
          All-update_where (λ (x : Wallet). x.id < b.next_id) (λ x. x.id < b.next_id)
            (λ x. x.id == w.id) (λ x. record x { balance = new }) b.wallets (λ x h _. h)
            (λ x h _. h) c.wallets_old;
      owners_old =
          All-update_where (λ (t : Transaction). t.wallet_id < b.next_id)
            (λ t. t.wallet_id < b.next_id) (λ x. x.id == t.id)
            (λ x. record x { type = debit; balance_after = new }) b.transactions (λ x h _. h)
            (λ x h _. h) c.owners_old;
      ids_fall = settled-Below t.id b.next_id new b.transactions c.ids_fall;
    }
