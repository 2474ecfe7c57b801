-- ===== src/Meals.antt =====
-- src/services/mealService.js: reservations of meals, over the tables of src/models/MealMenu.js and
-- src/models/MealReservation.js and the wallets. Dates are day numbers, instants are milliseconds of the
-- server's clock from day 0; a price that is missing is 0.
pub mod Kept
pub mod Final
pub mod Transfer
pub mod Fees
mod Tests
use obs_system_backend_berka.Base.{
  ℕ, ◌+◌, ◌*◌, Bool, true, false, not, ◌&&◌, ◌||◌, Option, none, some, List, [], ◌∷◌, ltb, ◌==◌,
  if◌then◌else◌, Result, ok, err, ◌>>=◌, ◌>>◌, throw_if, or_throw, find, any, update_where,
}
use obs_system_backend_berka.Base.Int.{ℤ, pos, ltb_ℤ}
use obs_system_backend_berka.Wallet.{Bank, meal_reservation}
use obs_system_backend_berka.Wallet.Charge.{charge}

pub data MealType : Type 0 where
  breakfast lunch dinner : MealType

pub data Status : Type 0 where
  reserved cancelled used : Status

pub data TransferStatus : Type 0 where
  no_transfer pending accepted : TransferStatus

pub record Menu : Type 0 where
  pub id : ℕ
  pub price : ℤ
  pub meal_time : Option ℕ
  pub is_published : Bool

pub record Student : Type 0 where
  pub user_id : ℕ
  pub student_number : ℕ

pub record Reservation : Type 0 where
  pub id : ℕ
  pub user_id : ℕ
  pub menu_id : ℕ
  pub cafeteria_id : ℕ
  pub meal_type : MealType
  pub date : ℕ
  pub amount : ℤ
  pub qr_code : ℕ
  pub status : Status
  pub used_at : Option ℕ
  pub transferred_to_user_id : Option ℕ
  pub transferred_from_user_id : Option ℕ
  pub transfer_status : TransferStatus
  pub transferred_at : Option ℕ

pub record Kitchen : Type 0 where
  pub menus : List Menu
  pub users : List ℕ
  pub students : List Student
  pub reservations : List Reservation
  pub next_id : ℕ
  pub bank : Bank

pub data Error : Type 0 where
  menu_not_found user_not_found wallet_inactive insufficient reservation_not_found too_late : Error
  not_today already_used in_the_past student_not_found same_user already_reserved : Error

abbrev pub same_meal : MealType → MealType → Bool
same_meal breakfast breakfast = true
same_meal lunch lunch = true
same_meal dinner dinner = true
same_meal _ _ = false

abbrev pub is_reserved : Status → Bool
is_reserved reserved = true
is_reserved _ = false

-- `status: { [Op.in]: ['reserved', 'used'] }`
abbrev pub is_active : Status → Bool
is_active reserved = true
is_active used = true
is_active cancelled = false

abbrev pub is_pending : TransferStatus → Bool
is_pending pending = true
is_pending _ = false

abbrev pub is_id : Option ℕ → ℕ → Bool
is_id none n = false
is_id (some m) n = m == n

abbrev pub new_reservation : ℕ → ℕ → ℕ → ℕ → MealType → ℕ → ℤ → ℕ → Reservation
new_reservation id user menu cafeteria meal date amount qr = record {
  id = id;
  user_id = user;
  menu_id = menu;
  cafeteria_id = cafeteria;
  meal_type = meal;
  date = date;
  amount = amount;
  qr_code = qr;
  status = reserved;
  used_at = none;
  transferred_to_user_id = none;
  transferred_from_user_id = none;
  transfer_status = no_transfer;
  transferred_at = none;
}

-- `if (mealPrice > 0)` with the payment.
unfoldable pub pay : Menu → ℕ → Bank → Result Error Bank
unfolding charge
pay m user b =
    if ltb_ℤ (pos 0) m.price
    then charge wallet_inactive insufficient user m.price meal_reservation m.id b
    else ok b

-- `createReservation`; `qr` is the generated code.
pub create_reservation :
    ℕ → ℕ → ℕ → MealType → ℕ → ℕ → Kitchen → Result Error (Reservation × Kitchen)
unfolding pay
create_reservation user menu_id cafeteria meal date qr s = do
  m ← or_throw (find (λ (m : Menu). m.id == menu_id) s.menus) menu_not_found
  throw_if (not m.is_published) menu_not_found
  throw_if (not (any (λ u. u == user) s.users)) user_not_found
  bank ← pay m user s.bank
  let row : Reservation = new_reservation s.next_id user menu_id cafeteria meal date m.price qr
  ok (row, record s { reservations = row ∷ s.reservations; next_id = s.next_id + 1; bank = bank })

-- `reservation.update`
unfoldable pub save_row : ℕ → (Reservation → Reservation) → Kitchen → Kitchen
save_row id f s = record s {
  reservations = update_where (λ (r : Reservation). r.id == id) f s.reservations;
}

-- The query of `cancelReservation` and `transferReservation`.
abbrev pub is_own : ℕ → ℕ → Reservation → Bool
is_own id user r = (r.id == id) && ((r.user_id == user) && is_reserved r.status)

abbrev pub time_of : Option ℕ → ℕ
time_of none = 43200000
time_of (some t) = t

-- `reservation.menu?.meal_time || '12:00'`, in milliseconds of the day
abbrev pub meal_time_of : Option Menu → ℕ
meal_time_of none = 43200000
meal_time_of (some m) = time_of m.meal_time

-- `mealDateTime`
abbrev pub meal_instant : Kitchen → Reservation → ℕ
meal_instant s r = r.date * 86400000 + meal_time_of (find (λ (m : Menu). m.id == r.menu_id) s.menus)

abbrev pub min_cancel_ms : ℕ
min_cancel_ms = 7200000

abbrev pub cancelled_row : Reservation → Reservation
cancelled_row r = record r { status = cancelled }

-- `cancelReservation`
pub cancel_reservation : ℕ → ℕ → ℕ → Kitchen → Result Error (Unit {0} × Kitchen)
unfolding save_row
cancel_reservation now id user s = do
  r ← or_throw (find (is_own id user) s.reservations) reservation_not_found
  throw_if (ltb (meal_instant s r) (now + min_cancel_ms)) too_late
  ok (tt, save_row r.id cancelled_row s)

abbrev pub has_code : ℕ → ℕ → Reservation → Bool
has_code id qr r = (r.id == id) && ((r.qr_code == qr) && is_reserved r.status)

abbrev pub is_set : Option ℕ → Bool
is_set none = false
is_set (some n) = true

abbrev pub used_row : ℕ → Reservation → Reservation
used_row now r = record r { status = used; used_at = some now }

-- `useReservation`
pub use_reservation : ℕ → ℕ → ℕ → ℕ → Kitchen → Result Error (Unit {0} × Kitchen)
unfolding save_row
use_reservation now today id qr s = do
  r ← or_throw (find (has_code id qr) s.reservations) reservation_not_found
  throw_if (not (r.date == today)) not_today
  throw_if (is_set r.used_at) already_used
  ok (tt, save_row r.id (used_row now) s)

-- The query for a reservation of the user for the same meal.
abbrev pub is_same_meal : ℕ → Reservation → Reservation → Bool
is_same_meal user r q =
    (q.user_id == user)
    && ((q.date == r.date) && (same_meal q.meal_type r.meal_type && is_active q.status))

abbrev pub offered_row : ℕ → ℕ → ℕ → Reservation → Reservation
offered_row now to from r = record r {
  transferred_to_user_id = some to;
  transferred_from_user_id = some from;
  transfer_status = pending;
  transferred_at = some now;
}

-- `transferReservation`
pub transfer_reservation : ℕ → ℕ → ℕ → ℕ → ℕ → Kitchen → Result Error (Unit {0} × Kitchen)
unfolding save_row
transfer_reservation now today id from number s = do
  r ← or_throw (find (is_own id from) s.reservations) reservation_not_found
  throw_if (ltb r.date today) in_the_past
  target ←
      or_throw (find (λ (t : Student). t.student_number == number) s.students) student_not_found
  throw_if (target.user_id == from) same_user
  throw_if (any (is_same_meal target.user_id r) s.reservations) already_reserved
  ok (tt, save_row r.id (offered_row now target.user_id from) s)

-- The query of `acceptTransfer`.
abbrev pub is_offered : ℕ → ℕ → Reservation → Bool
is_offered id to r =
    (r.id == id)
    && (is_id r.transferred_to_user_id to && (is_pending r.transfer_status && is_reserved r.status))

abbrev pub accepted_row : ℕ → Reservation → Reservation
accepted_row to r = record r { user_id = to; transfer_status = accepted; amount = pos 0 }

-- `acceptTransfer`
pub accept_transfer : ℕ → ℕ → ℕ → Kitchen → Result Error (Unit {0} × Kitchen)
unfolding save_row
accept_transfer today id to s = do
  r ← or_throw (find (is_offered id to) s.reservations) reservation_not_found
  throw_if (ltb r.date today) in_the_past
  throw_if (any (λ q. is_same_meal to r q && not (q.id == id)) s.reservations) already_reserved
  ok (tt, save_row r.id (accepted_row to) s)
