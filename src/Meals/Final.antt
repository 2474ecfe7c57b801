-- ===== src/Meals/Final.antt =====
-- Sequences of the calls of src/services/mealService.js.
use obs_system_backend_berka.Base.{ℕ, ◌≡◌, false, some, List, [], ◌∷◌, ◌==◌, find, committed}
use obs_system_backend_berka.Meals.{
  MealType, Reservation, Kitchen, is_reserved, create_reservation, cancel_reservation,
  use_reservation, transfer_reservation, accept_transfer,
}
use obs_system_backend_berka.Meals.Kept.{
  IsServed, IsKept, create_reservation-IsKept, cancel_reservation-IsKept, use_reservation-IsKept,
  transfer_reservation-IsKept, accept_transfer-IsKept,
}

-- A call, with the time, the date and the generated code that it uses.
pub data Call : Type 0 where
  create : ℕ → ℕ → ℕ → MealType → ℕ → ℕ → Call
  cancel : ℕ → ℕ → ℕ → Call
  use_up : ℕ → ℕ → ℕ → ℕ → Call
  transfer : ℕ → ℕ → ℕ → ℕ → ℕ → Call
  accept : ℕ → ℕ → ℕ → Call

unfoldable pub step : Call → Kitchen → Kitchen
step (create user menu cafeteria meal date qr) s =
    committed s (create_reservation user menu cafeteria meal date qr s)
step (cancel now id user) s = committed s (cancel_reservation now id user s)
step (use_up now today id qr) s = committed s (use_reservation now today id qr s)
step (transfer now today id from number) s =
    committed s (transfer_reservation now today id from number s)
step (accept today id to) s = committed s (accept_transfer today id to s)

unfoldable pub run : List Call → Kitchen → Kitchen
run [] s = s
run (c ∷ cs) s = run cs (step c s)

module _ (i : ℕ) (r : Reservation) (done : is_reserved r.status ≡ false) where
  step-IsKept : (c : Call) (s : Kitchen) → IsKept i r s → IsKept i r (step c s)
  unfolding step
  step-IsKept (create user menu cafeteria meal date qr) s k =
      create_reservation-IsKept i r done s k user menu cafeteria meal date qr
  step-IsKept (cancel now id user) s k = cancel_reservation-IsKept i r done s k now id user
  step-IsKept (use_up now today id qr) s k = use_reservation-IsKept i r done s k now today id qr
  step-IsKept (transfer now today id from number) s k =
      transfer_reservation-IsKept i r done s k now today id from number
  step-IsKept (accept today id to) s k = accept_transfer-IsKept i r done s k today id to

  run-IsKept : (cs : List Call) (s : Kitchen) → IsKept i r s → IsKept i r (run cs s)
  unfolding run
  run-IsKept [] s k = k
  run-IsKept (c ∷ cs) s k = run-IsKept cs (step c s) (step-IsKept c s k)

-- A reservation that was used or cancelled stays exactly as it is, whatever calls are made: it is never
-- used again, cancelled, or handed to another user; and the wallets' books stay balanced.
pub run-final :
    (cs : List Call) (id : ℕ) (s : Kitchen) {r : Reservation}
    → IsServed s
    → find (λ (q : Reservation). q.id == id) s.reservations ≡ some r
    → is_reserved r.status ≡ false
    → (find (λ (q : Reservation). q.id == id) (run cs s).reservations ≡ some r)
      × IsServed (run cs s)
run-final cs id s {r} v h done =
    let k = run-IsKept id r done cs s (record { served = v; stays = h }) in (k.stays, k.served)
