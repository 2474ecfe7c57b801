-- ===== src/Meals/Tests.antt =====
-- A lunch for two users, and the properties of the meal service at it.
use obs_system_backend_berka.Base.{
  ◌≡◌, refl, true, false, none, some, List, [], ◌∷◌, arith, ok, find, any, ◌==◌, committed,
}
use obs_system_backend_berka.Base.Int.{pos, ◌+ℤ◌, ◌-ℤ◌}
use obs_system_backend_berka.Wallet.{
  credit, debit, meal_reservation, other_reference, Bank, get_wallet_by_user_id, create_transaction,
  set_balance,
}
use obs_system_backend_berka.Wallet.Charge.{charge}
use obs_system_backend_berka.Meals.{
  lunch, Menu, Reservation, Kitchen, new_reservation, pay, create_reservation, save_row,
  cancel_reservation, use_reservation, transfer_reservation, accept_transfer, is_offered,
  accepted_row, offered_row, cancelled_row, used_row,
}
use obs_system_backend_berka.Meals.Kept.{IsServed}
use obs_system_backend_berka.Meals.Final.{
  Call, create, cancel, use_up, transfer, accept, step, run, run-final,
}
use obs_system_backend_berka.Meals.Transfer.{is_second, accept_transfer_owner}
use obs_system_backend_berka.Meals.Fees.{with_row, cancel_reservation-create_reservation}

abbrev bank : Bank
bank = record {
  wallets = record { id = 3; user_id = 9; balance = pos 800; is_active = true } ∷ [];
  transactions =
      record {
        id = 4;
        wallet_id = 3;
        type = credit;
        amount = pos 800;
        balance_after = pos 800;
        reference_type = other_reference;
        reference_id = 0;
      }
      ∷ [];
  next_id = 5;
}

abbrev debited : Bank
debited = record {
  wallets = record { id = 3; user_id = 9; balance = pos 300; is_active = true } ∷ [];
  transactions =
      record {
        id = 5;
        wallet_id = 3;
        type = debit;
        amount = pos 500;
        balance_after = pos 300;
        reference_type = meal_reservation;
        reference_id = 1;
      }
      ∷ bank.transactions;
  next_id = 6;
}

abbrev menu : Menu
menu = record { id = 1; price = pos 500; meal_time = none; is_published = true }

abbrev row : Reservation
row = new_reservation 10 8 1 2 lunch 100 (pos 500) 77

abbrev kitchen : Reservation → Kitchen
kitchen r = record {
  menus = menu ∷ [];
  users = 8 ∷ 9 ∷ [];
  students = record { user_id = 9; student_number = 900 } ∷ [];
  reservations = r ∷ [];
  next_id = 11;
  bank = bank;
}

kitchen-IsServed : IsServed (kitchen row)
unfolding ◌+ℤ◌
kitchen-IsServed = record {
  ids_fall = (omega arith, tt);
  books = record {
    balanced = (refl, tt);
    wallets_old = (omega arith, tt);
    owners_old = (omega arith, tt);
    ids_fall = (omega arith, tt);
  };
}

used-IsServed : IsServed (kitchen (used_row 5 row))
used-IsServed = record { ids_fall = (omega arith, tt); books = kitchen-IsServed.books }

offered-IsServed : IsServed (kitchen (offered_row 5 9 8 row))
offered-IsServed = record { ids_fall = (omega arith, tt); books = kitchen-IsServed.books }

abbrev calls : List Call
calls =
    transfer 5 100 10 8 900
    ∷ accept 100 10 9
    ∷ use_up 6 100 10 77
    ∷ cancel 7 10 9
    ∷ create 9 1 2 lunch 101 78
    ∷ []

run-calls :
    find (λ (q : Reservation). q.id == 10) (run calls (kitchen row)).reservations
    ≡ some (used_row 6 (accepted_row 9 (offered_row 5 9 8 row)))
unfolding run step create_reservation cancel_reservation use_reservation transfer_reservation
    accept_transfer save_row pay charge get_wallet_by_user_id create_transaction set_balance ◌-ℤ◌
run-calls = refl

run-final_example :
    (find (λ (q : Reservation). q.id == 10) (run calls (kitchen (used_row 5 row))).reservations
      ≡ some (used_row 5 row))
    × IsServed (run calls (kitchen (used_row 5 row)))
run-final_example = run-final calls 10 (kitchen (used_row 5 row)) used-IsServed refl refl

accept_runs :
    accept_transfer 100 10 9 (kitchen (offered_row 5 9 8 row))
    ≡ ok (tt, kitchen (accepted_row 9 (offered_row 5 9 8 row)))
unfolding accept_transfer save_row
accept_runs = refl

accept_transfer_owner_example :
    (r : Reservation) × (find (is_offered 10 9) (kitchen (offered_row 5 9 8 row)).reservations
      ≡ some r)
    × (find
          (λ (q : Reservation). q.id == 10)
          (kitchen (accepted_row 9 (offered_row 5 9 8 row))).reservations
        ≡ some (accepted_row 9 r))
    × (any (is_second 9 10 r) (kitchen (accepted_row 9 (offered_row 5 9 8 row))).reservations
        ≡ false)
accept_transfer_owner_example =
    accept_transfer_owner 100 10 9 (kitchen (offered_row 5 9 8 row)) offered-IsServed accept_runs

pay_runs : pay menu 9 bank ≡ ok debited
unfolding pay charge get_wallet_by_user_id create_transaction set_balance ◌-ℤ◌
pay_runs = refl

cancel_reservation-create_reservation_example :
    cancel_reservation 5 11 9
      (committed (kitchen row) (create_reservation 9 1 2 lunch 101 78 (kitchen row)))
    ≡ ok (
      tt,
      with_row
          (cancelled_row (new_reservation 11 9 1 2 lunch 101 (pos 500) 78))
          debited
          (kitchen row),
    )
cancel_reservation-create_reservation_example =
    cancel_reservation-create_reservation 9 1 2 lunch 101 78 5 (kitchen row) (omega arith, tt) refl
      refl refl pay_runs (omega arith)
