-- ===== src/Meals/Fees.antt =====
-- What a reservation that is cancelled costs, in src/services/mealService.js.
use obs_system_backend_berka.Base.{
  ℕ, ◌+◌, ◌≤◌, ◌≡◌, refl, ap, true, false, some, List, ◌∷◌, arith, ◌==◌, ltb, find, any,
  update_where, ok, committed,
}
use obs_system_backend_berka.Base.Keys.{Falls, saved_above}
use obs_system_backend_berka.Wallet.{Bank}
use obs_system_backend_berka.Meals.{
  MealType, Menu, Reservation, Kitchen, new_reservation, pay, create_reservation, save_row, is_own,
  meal_instant, min_cancel_ms, cancelled_row, cancel_reservation,
}
use obs_system_backend_berka.Meals.Kept.{id_of}

-- The tables with a new reservation.
abbrev pub with_row : Reservation → Bank → Kitchen → Kitchen
with_row r bank s = record s {
  reservations = r ∷ s.reservations;
  next_id = s.next_id + 1;
  bank = bank;
}

-- A reservation that is made and cancelled in time is paid for and not refunded: after both calls the
-- wallets and their transactions are as the payment left them, and of the other tables only the
-- cancelled row is new.
pub cancel_reservation-create_reservation :
    (user menu cafeteria : ℕ) (meal : MealType) (date qr now : ℕ) (s : Kitchen) {m : Menu}
    {bank : Bank}
    → Falls id_of s.next_id s.reservations
    → find (λ (x : Menu). x.id == menu) s.menus ≡ some m
    → m.is_published ≡ true
    → any (λ u. u == user) s.users ≡ true
    → pay m user s.bank ≡ ok bank
    → now + min_cancel_ms
      ≤ meal_instant s (new_reservation s.next_id user menu cafeteria meal date m.price qr)
    → cancel_reservation now s.next_id user
        (committed s (create_reservation user menu cafeteria meal date qr s))
      ≡ ok (
        tt,
        with_row
            (cancelled_row (new_reservation s.next_id user menu cafeteria meal date m.price qr))
            bank
            s,
      )
unfolding create_reservation cancel_reservation save_row
cancel_reservation-create_reservation user menu cafeteria meal date qr now s {m} {bank} b f listed
      known paid early =
    let r : Reservation = new_reservation s.next_id user menu cafeteria meal date m.price qr in
    let made : create_reservation user menu cafeteria meal date qr s ≡ ok (r, with_row r bank s) =
      rw (f, create_reservation) (rw (listed, known) (rw paid refl)) in
    let own : is_own s.next_id user r ≡ true = ground arith in
    let in_time : ltb (meal_instant s r) (now + min_cancel_ms) ≡ false = ground (arith, early) in
    let saved : update_where (λ (q : Reservation). q.id == s.next_id) cancelled_row
          (r ∷ s.reservations)
        ≡ cancelled_row r ∷ s.reservations =
      ground
        (arith, saved_above id_of cancelled_row (λ q. refl) s.next_id s.next_id s.reservations b) in
    rw made (
      rw own (
        rw in_time (
          ap
            (λ (qs : List Reservation).
              ok (tt, record s { reservations = qs; next_id = s.next_id + 1; bank = bank }))
            saved)))
