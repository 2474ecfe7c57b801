-- ===== src/Wallet/Tests.antt =====
-- A bank with two wallets and three transactions, and the properties of the wallets at it.
use obs_system_backend_berka.Base.{
  find, ◌==◌, ◌≡◌, refl, true, none, some, List, [], ◌∷◌, arith, ok, committed,
}
use obs_system_backend_berka.Base.Int.{pos, negsuc, ◌+ℤ◌, ◌-ℤ◌, ◌<ℤ◌, int_laws}
use obs_system_backend_berka.Wallet.{
  credit, debit, pending_debit, payment, meal_reservation, Wallet, Transaction, Bank, booked, known,
  process_payment_webhook, complete_pending_transaction, get_transaction_history,
  get_wallet_by_user_id,
}
use obs_system_backend_berka.Wallet.Invariant.{IsConsistent}
use obs_system_backend_berka.Wallet.Operations.{
  Call, top_up, webhook, reserve, refund, run, run-IsConsistent,
  complete_pending_transaction-IsConsistent,
}
use obs_system_backend_berka.Wallet.Payments.{
  process_payment_webhook_twice, IsSolvent, process_payment_webhook_overdraws,
}

abbrev first_wallet : Wallet
first_wallet = record { id = 1; user_id = 7; balance = pos 300; is_active = true }

abbrev second_wallet : Wallet
second_wallet = record { id = 2; user_id = 8; balance = pos 0; is_active = true }

abbrev bank : Bank
bank = record {
  wallets = second_wallet ∷ first_wallet ∷ [];
  transactions =
      record {
        id = 5;
        wallet_id = 1;
        type = pending_debit;
        amount = pos 50;
        balance_after = pos 300;
        reference_type = meal_reservation;
        reference_id = 61;
      }
      ∷ record {
        id = 4;
        wallet_id = 1;
        type = debit;
        amount = pos 200;
        balance_after = pos 300;
        reference_type = meal_reservation;
        reference_id = 60;
      }
      ∷ record {
        id = 3;
        wallet_id = 1;
        type = credit;
        amount = pos 500;
        balance_after = pos 500;
        reference_type = payment;
        reference_id = 90;
      }
      ∷ [];
  next_id = 6;
}

bank-IsConsistent : IsConsistent bank
unfolding ◌+ℤ◌ ◌-ℤ◌
bank-IsConsistent = record {
  balanced = (refl, (refl, tt));
  wallets_old = omega arith;
  owners_old = omega arith;
  ids_fall = omega arith;
}

bank-IsSolvent : IsSolvent bank
bank-IsSolvent = omega arith

after_webhook : Bank
unfolding process_payment_webhook ◌+ℤ◌
after_webhook = committed bank (process_payment_webhook 1 (pos 100) 91 bank)

webhook_runs : process_payment_webhook 1 (pos 100) 91 bank ≡ ok (booked (pos 400), after_webhook)
unfolding after_webhook
webhook_runs = refl

history_runs : (get_transaction_history 7 2 2 none bank).0.pages ≡ 2
unfolding get_transaction_history
history_runs = refl

abbrev calls : List Call
calls =
    top_up 9 (pos 100) 92
    ∷ webhook 1 (pos 100) 91
    ∷ reserve 1 (pos 100) meal_reservation 62
    ∷ refund 7 (pos 200) meal_reservation 60
    ∷ []

run-IsConsistent_example : IsConsistent (run calls bank)
run-IsConsistent_example = run-IsConsistent calls bank bank-IsConsistent

pending_amount :
    (t : Transaction)
    → some (record {
      id = 5;
      wallet_id = 1;
      type = pending_debit;
      amount = pos 50;
      balance_after = pos 300;
      reference_type = meal_reservation;
      reference_id = 61;
    })
      ≡ some t
    → t.amount ≡ pos 50
pending_amount t e = ground arith

complete_pending_transaction-IsConsistent_example :
    IsConsistent (committed bank (complete_pending_transaction 7 (pos 50) meal_reservation 61 bank))
unfolding get_wallet_by_user_id
complete_pending_transaction-IsConsistent_example =
    complete_pending_transaction-IsConsistent 7 (pos 50) meal_reservation 61 bank bank-IsConsistent
      pending_amount

process_payment_webhook_twice_example :
    process_payment_webhook 1 (pos 100) 91 after_webhook ≡ ok (known, after_webhook)
process_payment_webhook_twice_example =
    process_payment_webhook_twice 1 (pos 100) 91 bank after_webhook (booked (pos 400)) webhook_runs

process_payment_webhook_overdraws_example :
    (b' : Bank) × (process_payment_webhook 2 (negsuc 9) 93 bank
      ≡ ok (booked (second_wallet.balance +ℤ negsuc 9), b'))
    × (v : Wallet) × (find (λ (v : Wallet). v.id == 2) b'.wallets ≡ some v)
    × (v.balance <ℤ pos 0)
process_payment_webhook_overdraws_example =
    process_payment_webhook_overdraws 2 (negsuc 9) 93 bank second_wallet refl refl refl
      (omega int_laws)
