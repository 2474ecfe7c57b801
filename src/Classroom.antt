-- ===== src/Classroom.antt =====
-- src/services/reservationService.js over the table of src/models/Reservation.js: classrooms are
-- reserved for a span of a day. Dates are day numbers and times are minutes of the day.
pub mod Overlap
pub mod Booking
pub mod Decision
mod Tests
use obs_system_backend_berka.Base.{
  ℕ, ◌+◌, Bool, true, false, not, ◌&&◌, ◌||◌, Option, none, some, List, [], ◌∷◌, leb, ◌==◌,
  if◌then◌else◌, Result, ok, err, ◌>>=◌, ◌>>◌, throw_if, or_throw, committed, find, filter, any,
  update_where,
}

pub data Status : Type 0 where
  pending approved rejected cancelled : Status

pub data Role : Type 0 where
  student faculty admin : Role

pub record User : Type 0 where
  pub id : ℕ
  pub role : Role

pub record Reservation : Type 0 where
  pub id : ℕ
  pub classroom_id : ℕ
  pub user_id : ℕ
  pub date : ℕ
  pub start_time : ℕ
  pub end_time : ℕ
  pub status : Status
  pub approved_by : Option ℕ

-- The two tables that the service reads and writes, and the next fresh id.
pub record Rooms : Type 0 where
  pub users : List User
  pub reservations : List Reservation
  pub next_id : ℕ

pub data Error : Type 0 where
  room_busy type_error not_found not_pending : Error

-- `status: { [Op.in]: ['pending', 'approved'] }`
abbrev pub is_active : Status → Bool
is_active pending = true
is_active approved = true
is_active rejected = false
is_active cancelled = false

-- `[Op.between]: [lo, hi]`, both ends included.
abbrev pub between : ℕ → ℕ → ℕ → Bool
between x lo hi = leb lo x && leb x hi

-- The `[Op.or]` of the availability query.
unfoldable pub overlaps : Reservation → ℕ → ℕ → Bool
overlaps r start end =
    between r.start_time start end
    || (between r.end_time start end || (leb r.start_time start && leb end r.end_time))

-- The rows that the availability query finds.
unfoldable pub is_conflict : ℕ → ℕ → ℕ → ℕ → Reservation → Bool
unfolding overlaps
is_conflict classroom date start end r =
    (r.classroom_id == classroom)
    && ((r.date == date) && (is_active r.status && overlaps r start end))

abbrev pub needs_approval : Role → Bool
needs_approval admin = false
needs_approval faculty = false
needs_approval student = true

-- The row that `Reservation.create` writes: students need an approval.
abbrev pub new_row : ℕ → User → ℕ → ℕ → ℕ → ℕ → Reservation
new_row id user classroom date start end = record {
  id = id;
  classroom_id = classroom;
  user_id = user.id;
  date = date;
  start_time = start;
  end_time = end;
  status = if needs_approval user.role then pending else approved;
  approved_by = if needs_approval user.role then none else some user.id;
}

-- `createReservation`
pub create_reservation : ℕ → ℕ → ℕ → ℕ → ℕ → Rooms → Result Error (Reservation × Rooms)
create_reservation user_id classroom date start end s = do
  throw_if (any (is_conflict classroom date start end) s.reservations) room_busy
  user ← or_throw (find (λ (u : User). u.id == user_id) s.users) type_error
  let row : Reservation = new_row s.next_id user classroom date start end
  ok (row, record s { reservations = row ∷ s.reservations; next_id = s.next_id + 1 })

abbrev pub is_pending : Status → Bool
is_pending pending = true
is_pending _ = false

-- `reservation.update({ status, approved_by })`
unfoldable pub decide_row : ℕ → Status → ℕ → List Reservation → List Reservation
decide_row id status by =
    update_where (λ (r : Reservation). r.id == id)
      (λ r. record r { status = status; approved_by = some by })

-- `approveReservation`
pub approve_reservation : ℕ → ℕ → Rooms → Result Error (Unit {0} × Rooms)
unfolding decide_row
approve_reservation id admin_id s = do
  r ← or_throw (find (λ (r : Reservation). r.id == id) s.reservations) not_found
  throw_if (not (is_pending r.status)) not_pending
  ok (tt, record s { reservations = decide_row id approved admin_id s.reservations })

-- `rejectReservation`
pub reject_reservation : ℕ → ℕ → Rooms → Result Error (Unit {0} × Rooms)
unfolding decide_row
reject_reservation id admin_id s = do
  r ← or_throw (find (λ (r : Reservation). r.id == id) s.reservations) not_found
  throw_if (not (is_pending r.status)) not_pending
  ok (tt, record s { reservations = decide_row id rejected admin_id s.reservations })

-- `getReservations`: the rows that meet each filter that is given.
abbrev matches : Option ℕ → ℕ → Bool
matches none x = true
matches (some y) x = x == y

pub get_reservations : Option ℕ → Option ℕ → Option ℕ → Rooms → List Reservation
get_reservations date classroom user s =
    filter
      (λ (r : Reservation).
        matches date r.date && (matches classroom r.classroom_id && matches user r.user_id))
      s.reservations

-- A call of the service, and what the tables hold after it.
pub data Call : Type 0 where
  create : ℕ → ℕ → ℕ → ℕ → ℕ → Call
  approve reject : ℕ → ℕ → Call

unfoldable pub step : Call → Rooms → Rooms
step (create user classroom date start end) s =
    committed s (create_reservation user classroom date start end s)
step (approve id admin_id) s = committed s (approve_reservation id admin_id s)
step (reject id admin_id) s = committed s (reject_reservation id admin_id s)

unfoldable pub run : List Call → Rooms → Rooms
run [] s = s
run (c ∷ cs) s = run cs (step c s)
