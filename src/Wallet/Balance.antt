-- ===== src/Wallet/Balance.antt =====
-- The sum of a wallet's booked transactions, under each update of the transactions table.
use obs_system_backend_berka.Base.{
  ℕ, ◌≤◌, ◌<◌, ◌≡◌, refl, ap, ◌∙◌, Bool, inl, inr, Bool-cases, some, List, [], ◌∷◌, arith, ◌==◌,
  if◌then◌else◌, find, All, update_where,
}
use obs_system_backend_berka.Base.Keys.{Falls, find-In, In-Falls, saved-Falls}
use obs_system_backend_berka.Base.Int.{ℤ, pos, ◌+ℤ◌, ◌-ℤ◌, int_laws}
use obs_system_backend_berka.Wallet.{TxType, credit, debit, pending_debit, Transaction}

-- What a transaction of a type and an amount adds to the balance: a pending debit adds nothing.
abbrev pub effect : TxType → ℤ → ℤ
effect credit x = x
effect debit x = pos 0 -ℤ x
effect pending_debit x = pos 0

-- The sum of what the transactions of one wallet add to its balance.
abbrev pub net : ℕ → List Transaction → ℤ
net w [] = pos 0
net w (t ∷ ts) = (if t.wallet_id == w then effect t.type t.amount else pos 0) +ℤ net w ts

pub net-unknown :
    (w n : ℕ) (ts : List Transaction) → All (λ t. t.wallet_id < n) ts → n ≤ w → net w ts ≡ pos 0
net-unknown w n [] h le = refl
net-unknown w n (t ∷ ts) h le = grind (int_laws, net-unknown w n ts h.1 le)

-- Ids fall along the table and stay below `n`.
abbrev pub Below : ℕ → List Transaction → Type 0
Below = Falls (λ (t : Transaction). t.id)

abbrev settled : ℕ → ℤ → List Transaction → List Transaction
settled k after =
    update_where (λ (t : Transaction). t.id == k)
      (λ t. record t { type = debit; balance_after = after })

settled_above :
    (k n : ℕ) (after : ℤ) (ts : List Transaction) → Below n ts → n ≤ k → settled k after ts ≡ ts
settled_above k n after [] b le = refl
settled_above k n after (t ∷ ts) b le = ground (arith, settled_above k t.id after ts b.1)

pub find-Below :
    (p : Transaction → Bool) (n : ℕ) (ts : List Transaction) {t : Transaction}
    → Below n ts
    → find p ts ≡ some t
    → t.id < n
find-Below p n ts {t} b e = In-Falls (λ (x : Transaction). x.id) n ts t b (find-In p ts e)

some_inj : (s t : Transaction) → some s ≡ some t → s ≡ t
some_inj s t e = cc

settled_head :
    (k n : ℕ) (after : ℤ) (s : Transaction) (ts : List Transaction)
    → Below n (s ∷ ts)
    → s.id ≡ k
    → settled k after (s ∷ ts) ≡ record s { type = debit; balance_after = after } ∷ ts
settled_head k n after s ts b e = ground (arith, settled_above k s.id after ts b.1)

net-settled_head :
    (w n : ℕ) (after : ℤ) (s : Transaction) (ts : List Transaction) {t : Transaction}
    → Below n (s ∷ ts)
    → s ≡ t
    → t.type ≡ pending_debit
    → net w (settled t.id after (s ∷ ts))
      ≡ net w (s ∷ ts) +ℤ (if t.wallet_id == w then pos 0 -ℤ t.amount else pos 0)
net-settled_head w n after s ts {t} b same pd =
    let pd' : s.type ≡ pending_debit = ap (λ (x : Transaction). x.type) same ∙ pd in
    let same_id : s.id ≡ t.id = ap (λ (x : Transaction). x.id) same in
    let same_wallet : s.wallet_id ≡ t.wallet_id = ap (λ (x : Transaction). x.wallet_id) same in
    let same_amount : s.amount ≡ t.amount = ap (λ (x : Transaction). x.amount) same in
    ap (net w) (settled_head t.id n after s ts b same_id)
    ∙ rw (pd', same_wallet, same_amount)
        (elim (Bool-cases (t.wallet_id == w)) [
          | inl own ↦ rw own (omega int_laws)
          | inr other ↦ rw other (omega int_laws)
        ])

pub net-settled :
    (p : Transaction → Bool) (w n : ℕ) (after : ℤ) (ts : List Transaction) {t : Transaction}
    → Below n ts
    → find p ts ≡ some t
    → t.type ≡ pending_debit
    → net w (settled t.id after ts)
      ≡ net w ts +ℤ (if t.wallet_id == w then pos 0 -ℤ t.amount else pos 0)
net-settled p w n after [] b e pd = cc
net-settled p w n after (s ∷ ts) {t} b e pd = elim (Bool-cases (p s)) [
  | inl hit ↦ net-settled_head w n after s ts b (some_inj s t (rw hit at e)) pd
  | inr miss ↦
      grind (int_laws, net-settled p w s.id after ts {t = t} b.1, find-Below p s.id ts {t = t} b.1)
]

pub settled-Below :
    (k n : ℕ) (after : ℤ) (ts : List Transaction) → Below n ts → Below n (settled k after ts)
settled-Below k n after =
    saved-Falls (λ (t : Transaction). t.id) (λ t. record t { type = debit; balance_after = after })
      (λ t. refl) k n
