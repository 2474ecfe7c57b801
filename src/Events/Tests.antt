-- ===== src/Events/Tests.antt =====
-- An event with one place and a fee, and the properties of the event service at it.
use obs_system_backend_berka.Base.{
  ◌≡◌, ◌⊎◌, inl, inr, refl, Bool, true, false, some, List, [], ◌∷◌, arith, All, ok, committed,
}
use obs_system_backend_berka.Base.Int.{pos, ◌+ℤ◌, ◌-ℤ◌}
use obs_system_backend_berka.Wallet.{
  debit, event_registration, Bank, get_wallet_by_user_id, create_transaction, set_balance, credit,
  other_reference,
}
use obs_system_backend_berka.Wallet.Charge.{charge}
use obs_system_backend_berka.Events.{
  published, registered, waitlisted, Event, Registration, Calendar, is_waiting, change_registered,
  pay, new_registration, register_for_event, first_waiting, promote_next_waitlist,
  cancel_registration, check_in,
}
use obs_system_backend_berka.Events.Waitlist.{IsNext}
use obs_system_backend_berka.Events.Invariant.{IsRunning}
use obs_system_backend_berka.Events.Calls.{Call, register, cancel, enter, step, run, run-IsRunning}
use obs_system_backend_berka.Events.Fees.{
  promoted, promote_next_waitlist_first, cancel_registration-register_for_event,
}

abbrev concert : Event
concert = record {
  id = 1;
  date = 100;
  capacity = some 1;
  registered_count = 1;
  registration_deadline = some 50;
  is_paid = true;
  price = pos 500;
  status = published;
}

abbrev bank : Bank
bank = record {
  wallets = record { id = 3; user_id = 9; balance = pos 800; is_active = true } ∷ [];
  transactions =
      record {
        id = 4;
        wallet_id = 3;
        type = credit;
        amount = pos 800;
        balance_after = pos 800;
        reference_type = other_reference;
        reference_id = 0;
      }
      ∷ [];
  next_id = 5;
}

abbrev debited : Bank
debited = record {
  wallets = record { id = 3; user_id = 9; balance = pos 300; is_active = true } ∷ [];
  transactions =
      record {
        id = 5;
        wallet_id = 3;
        type = debit;
        amount = pos 500;
        balance_after = pos 300;
        reference_type = event_registration;
        reference_id = 1;
      }
      ∷ bank.transactions;
  next_id = 6;
}

abbrev calendar : Calendar
calendar = record {
  events = concert ∷ [];
  registrations = new_registration 10 1 8 20 77 registered ∷ [];
  next_id = 11;
  bank = bank;
}

-- Before a promotion: the place is free and user 9 waits.
abbrev freed : Calendar
freed = record calendar {
  events = record concert { registered_count = 0 } ∷ [];
  registrations = new_registration 10 1 9 20 77 waitlisted ∷ [];
}

calendar-IsRunning : IsRunning calendar
unfolding ◌+ℤ◌
calendar-IsRunning = record {
  steady = record {
    counted = (refl, tt);
    bounded = (inr (omega arith), tt);
    busy = (inl refl, tt);
    distinct = (tt, tt);
  };
  ids_fall = (omega arith, tt);
  books = record {
    balanced = (refl, tt);
    wallets_old = (omega arith, tt);
    owners_old = (omega arith, tt);
    ids_fall = (omega arith, tt);
  };
}

abbrev calls : List Call
calls = register 30 78 1 9 ∷ cancel 1 10 8 ∷ enter 40 100 1 11 78 ∷ cancel 1 11 9 ∷ []

run-calls : (run calls calendar).bank ≡ debited
unfolding run step register_for_event cancel_registration check_in pay charge get_wallet_by_user_id
    create_transaction set_balance change_registered promote_next_waitlist first_waiting ◌-ℤ◌
run-calls = refl

run-IsRunning_example : IsRunning (run calls calendar)
run-IsRunning_example = run-IsRunning calls calendar calendar-IsRunning

promote_next_waitlist_first_example :
    (All (λ (q : Registration). is_waiting 1 q ≡ false) freed.registrations
      × (promote_next_waitlist 1 freed ≡ freed))
    ⊎ ((r : Registration) × IsNext 1 freed.registrations r
        × (promote_next_waitlist 1 freed ≡ promoted 1 r freed))
promote_next_waitlist_first_example = promote_next_waitlist_first 1 freed refl refl (omega arith)

charge_runs : charge {E = Bool} true false 9 (pos 500) event_registration 1 bank ≡ ok debited
unfolding charge get_wallet_by_user_id create_transaction set_balance ◌-ℤ◌
charge_runs = refl

cancel_registration-register_for_event_example :
    cancel_registration 1 11 9 (committed calendar (register_for_event 30 78 1 9 calendar))
    ≡ ok (tt, record calendar { next_id = 12; bank = debited })
unfolding charge get_wallet_by_user_id create_transaction set_balance ◌-ℤ◌
cancel_registration-register_for_event_example =
    cancel_registration-register_for_event 30 78 1 9 calendar (omega arith, tt) refl refl refl refl
      refl refl refl

abbrev entered : Calendar
entered = record calendar {
  registrations =
      record (new_registration 10 1 8 20 77 registered) {
        checked_in = true;
        checked_in_at = some 60;
      }
      ∷ [];
}

check_in_runs : check_in 60 100 1 10 77 calendar ≡ ok (tt, entered)
unfolding check_in
check_in_runs = refl
