-- ===== src/Attendance/Sessions.antt =====
-- The calls of src/controllers/attendanceController.js that write: a session is opened, closed, given a
-- new QR code, and a student checks in. Times of day are kept to the minute; the date and the time of
-- day of a session's start are one time, as in one time zone. The text of a new QR code is an argument.
use obs_system_backend_berka.Base.{
  ℕ, suc, ◌+◌, ◌-◌, ◌*◌, ◌%◌, Bool, false, not, ◌&&◌, Option, none, some, List, [], ◌∷◌, find, any,
  Result, ok, err, ◌>>=◌, ◌>>◌, throw_if, or_throw, ◌==◌, if◌then◌else◌, Text, same_text,
}
use obs_system_backend_berka.School.{Section}
use obs_system_backend_berka.Attendance.{
  Point, Location, Place, Measures, AttendanceSession, active, closed, Method, gps, qr_code,
  AttendanceRecord, Attendance, CheckInError, student_not_found, invalid_qr_code, qr_code_expired,
  is_active, is_expired, process_check_in,
}
use obs_system_backend_berka.Attendance.Excuses.{update_first, is_instructor}

pub data SessionError : Type 0 where
  no_faculty section_not_found not_teacher already_open no_session not_owner not_open : SessionError

abbrev pub to_minute : ℕ → ℕ
to_minute t = t - t % 60000

-- Five minutes.
abbrev pub qr_lifetime : ℕ
qr_lifetime = 300000

-- The coordinates of the section's classroom, when it has one.
abbrev pub place_of : Option ℕ → List Place → Option Point
place_of none places = none
place_of (some id) places = elim (find (λ (p : Place). p.id == id) places) [
  | none ↦ none
  | some p ↦ p.point
]

abbrev pub new_session : ℕ → ℕ → ℕ → Option Point → ℕ → ℕ → Text → ℕ → AttendanceSession
new_session id section faculty place duration radius code now = record {
  id = id;
  section_id = section;
  instructor_id = faculty;
  starts_at = to_minute now;
  end_time = to_minute (now + duration * 60000);
  place = place;
  geofence_radius = radius;
  qr_code = some code;
  status = active;
  expires_at = some (now + duration * 60000);
  qr_expires_at = some (now + qr_lifetime);
}

abbrev pub with_sessions : List AttendanceSession → ℕ → Attendance → Attendance
with_sessions sessions next s = record {
  sections = s.sections;
  classrooms = s.classrooms;
  sessions = sessions;
  records = s.records;
  enrollments = s.enrollments;
  excuses = s.excuses;
  next_id = next;
}

-- An active session of the section.
abbrev pub is_open : ℕ → AttendanceSession → Bool
is_open section x = (x.section_id == section) && is_active x.status

-- `createSession`
unfoldable pub create_session :
    Option ℕ
    → Bool
    → ℕ
    → ℕ
    → ℕ
    → Text
    → ℕ
    → Attendance
    → Result SessionError (AttendanceSession × Attendance)
create_session faculty is_admin section duration radius code now s = do
  me ← or_throw faculty no_faculty
  c ← or_throw (find (λ (c : Section). c.id == section) s.sections) section_not_found
  throw_if (not (is_instructor me c) && not is_admin) not_teacher
  throw_if (any (is_open section) s.sessions) already_open
  let place = place_of c.classroom_id s.classrooms
  let x = new_session s.next_id section me place duration radius code now
  ok (x, with_sessions (x ∷ s.sessions) (suc s.next_id) s)

abbrev pub is_other : Option ℕ → AttendanceSession → Bool
is_other none x = false
is_other (some faculty) x = not (x.instructor_id == faculty)

-- The checks that `closeSession` and `regenerateQRCode` share.
unfoldable pub own_session :
    Option ℕ → Bool → ℕ → Attendance → Result SessionError AttendanceSession
own_session faculty is_admin id s = do
  x ← or_throw (find (λ (x : AttendanceSession). x.id == id) s.sessions) no_session
  throw_if (is_other faculty x && not is_admin) not_owner
  throw_if (not (is_active x.status)) not_open
  ok x

abbrev pub close : ℕ → AttendanceSession → AttendanceSession
close now x = record {
  id = x.id;
  section_id = x.section_id;
  instructor_id = x.instructor_id;
  starts_at = x.starts_at;
  end_time = to_minute now;
  place = x.place;
  geofence_radius = x.geofence_radius;
  qr_code = x.qr_code;
  status = closed;
  expires_at = x.expires_at;
  qr_expires_at = x.qr_expires_at;
}

abbrev pub set_qr_code : Text → ℕ → AttendanceSession → AttendanceSession
set_qr_code code now x = record {
  id = x.id;
  section_id = x.section_id;
  instructor_id = x.instructor_id;
  starts_at = x.starts_at;
  end_time = x.end_time;
  place = x.place;
  geofence_radius = x.geofence_radius;
  qr_code = some code;
  status = x.status;
  expires_at = x.expires_at;
  qr_expires_at = some (now + qr_lifetime);
}

abbrev pub change_session : (AttendanceSession → AttendanceSession) → ℕ → Attendance → Attendance
change_session f id s =
    with_sessions (update_first (λ (x : AttendanceSession). x.id == id) f s.sessions) s.next_id s

-- `closeSession`
unfoldable pub close_session :
    Option ℕ → Bool → ℕ → ℕ → Attendance → Result SessionError (Unit {0} × Attendance)
unfolding own_session
close_session faculty is_admin now id s = do
  x ← own_session faculty is_admin id s
  ok (tt, change_session (close now) id s)

-- `regenerateQRCode`
unfoldable pub regenerate_qr_code :
    Option ℕ → Bool → Text → ℕ → ℕ → Attendance → Result SessionError (Unit {0} × Attendance)
unfolding own_session
regenerate_qr_code faculty is_admin code now id s = do
  x ← own_session faculty is_admin id s
  ok (tt, change_session (set_qr_code code now) id s)

abbrev pub has_qr_code : Text → AttendanceSession → Bool
has_qr_code code x = elim x.qr_code [ none ↦ false | some c ↦ same_text c code ]

-- The code that a request brings, against the session.
abbrev pub qr_method : Text → ℕ → Option AttendanceSession → Result CheckInError Method
qr_method code now none = err invalid_qr_code
qr_method code now (some x) =
    if has_qr_code code x
    then (if is_expired now x.qr_expires_at then err qr_code_expired else ok qr_code)
    else err invalid_qr_code

-- `if (qr_code)`: an empty text is as none.
abbrev pub method_of : ℕ → Option Text → ℕ → Attendance → Result CheckInError Method
method_of session none now s = ok gps
method_of session (some []) now s = ok gps
method_of session (some (c ∷ cs)) now s =
    qr_method (c ∷ cs) now (find (λ (x : AttendanceSession). x.id == session) s.sessions)

-- `checkIn` of a request with coordinates; one without has no distance, so GPS refuses it.
unfoldable pub check_in :
    Measures
    → ℕ
    → Option ℕ
    → Option Text
    → Location
    → ℕ
    → Attendance
    → Result CheckInError (AttendanceRecord × Attendance)
unfolding process_check_in
check_in m session student code location now s = do
  me ← or_throw student student_not_found
  method ← method_of session code now s
  process_check_in m session me (some location) method now s
