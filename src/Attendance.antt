-- ===== src/Attendance.antt =====
-- src/services/attendanceService.js: the check-in to a session; `Report` has the statistics
-- and `Excuses` the excuse requests of src/controllers/excuseController.js;
-- `Sessions` opens and closes sessions as src/controllers/attendanceController.js does.
-- Coordinates are in units of 10^-8 degrees, distances and accuracies in millimetres and times in
-- milliseconds. The floating-point computations, the great-circle distance and the analysis of the
-- device sensors, are arguments (`Measures`).
pub mod CheckIns
pub mod Percentage
pub mod Report
pub mod Excuses
pub mod Sessions
pub mod Settled
pub mod Writes
pub mod Openings
pub mod Settles
pub mod Calls
mod Tests
use obs_system_backend_berka.Base.{
  ℕ, suc, ◌+◌, ◌-◌, ◌*◌, ◌/◌, Bool, true, false, not, ◌&&◌, ◌||◌, Option, none, some, List, [], ◌∷◌,
  ◌++◌, ltb, leb, ◌==◌, if◌then◌else◌, length, find, any, filter, count, map, Result, err, ok,
  ◌>>=◌, ◌>>◌, throw_if, or_throw,
}
use obs_system_backend_berka.Base.{Text}
use obs_system_backend_berka.Base.Int.{ℤ, pos, sub_ℕ, ◌-ℤ◌, pos_part, neg_part}
use obs_system_backend_berka.Grade.{Status, enrolled, completed}
use obs_system_backend_berka.School.{Section, Enrollment}
use obs_system_backend_berka.Conflict.{takes_seat}

pub record Point : Type 0 where
  pub latitude : ℤ
  pub longitude : ℤ

-- What the client sends of its place. A coordinate of exactly 0, stored as null, and
-- a negative accuracy, which would narrow the geofence, are left aside.
pub record Location : Type 0 where
  pub point : Point
  pub accuracy : Option ℕ

pub data SessionStatus : Type 0 where
  active closed cancelled : SessionStatus

-- A row of `attendance_sessions`, its date and start time as one time.
pub record AttendanceSession : Type 0 where
  pub id : ℕ
  pub section_id : ℕ
  pub instructor_id : ℕ
  pub starts_at : ℕ
  pub end_time : ℕ
  pub place : Option Point
  pub geofence_radius : ℕ
  pub qr_code : Option Text
  pub status : SessionStatus
  pub expires_at : Option ℕ
  pub qr_expires_at : Option ℕ

pub data Method : Type 0 where
  gps qr_code manual : Method

pub data Presence : Type 0 where
  present late excused absent : Presence

pub data Reason : Type 0 where
  high_accuracy poor_accuracy impossible_travel exact_match : Reason
  sensor_reason : ℕ → Reason

pub record AttendanceRecord : Type 0 where
  pub id : ℕ
  pub session_id : ℕ
  pub student_id : ℕ
  pub check_in_time : ℕ
  pub location : Option Location
  pub distance_from_center : Option ℕ
  pub check_in_method : Method
  pub flag_reasons : List Reason
  pub status : Presence

pub data ExcuseStatus : Type 0 where
  pending approved rejected : ExcuseStatus

pub data ExcuseType : Type 0 where
  medical family_emergency official other_reason : ExcuseType

pub record ExcuseRequest : Type 0 where
  pub id : ℕ
  pub session_id : ℕ
  pub student_id : ℕ
  pub reason : Text
  pub excuse_type : ExcuseType
  pub document_url : Option Text
  pub status : ExcuseStatus
  pub reviewed_by : Option ℕ
  pub reviewed_at : Option ℕ
  pub notes : Option Text

-- The coordinates of a classroom.
pub record Place : Type 0 where
  pub id : ℕ
  pub point : Option Point

pub record Attendance : Type 0 where
  pub sections : List Section
  pub classrooms : List Place
  pub sessions : List AttendanceSession
  pub records : List AttendanceRecord
  pub enrollments : List Enrollment
  pub excuses : List ExcuseRequest
  pub next_id : ℕ

-- `calculateDistance`, and `analyzeDeviceSensors` of the readings that a request brings.
pub record Measures : Type 0 where
  pub distance : Point → Point → ℕ
  pub sensor_reasons : List Reason

pub data CheckInError : Type 0 where
  session_not_found session_not_active session_expired not_enrolled already_checked_in :
      CheckInError
  student_not_found invalid_qr_code qr_code_expired : CheckInError
  too_far : ℕ → CheckInError

abbrev pub or_zero : Option ℕ → ℕ
or_zero none = 0
or_zero (some n) = n

-- `geofence_radius + Math.min(accuracy || 0, 20) + 5`, in millimetres.
abbrev pub allowed_distance : ℕ → Option ℕ → ℕ
allowed_distance radius accuracy =
    radius * 1000 + (if ltb (or_zero accuracy) 20000 then or_zero accuracy else 20000) + 5000

-- `checkGeofence`
abbrev pub is_within : Measures → Point → ℕ → Location → Bool
is_within m place radius l = leb (m.distance place l.point) (allowed_distance radius l.accuracy)

abbrev pub reason_if : Bool → Reason → List Reason
reason_if b r = if b then r ∷ [] else []

-- `accuracy && accuracy < 3` and `accuracy && accuracy > 100`
abbrev pub accuracy_reasons : Option ℕ → List Reason
accuracy_reasons accuracy =
    let a : ℕ = or_zero accuracy in
    reason_if (ltb 0 a && ltb a 3000) high_accuracy ++ reason_if (ltb 100000 a) poor_accuracy

-- The student's latest record of the last 30 minutes.
unfoldable pub latest_record : ℕ → ℕ → List AttendanceRecord → Option AttendanceRecord
latest_record student now [] = none
latest_record student now (r ∷ rs) =
    let rest = latest_record student now rs in
    if (r.student_id == student) && leb now (r.check_in_time + 1800000)
    then (elim rest [
      | none ↦ some r
      | some q ↦ if ltb r.check_in_time q.check_in_time then some q else some r
    ])
    else rest

-- More than 33.3 metres a second, and more than 100 metres.
abbrev pub travel_reasons : Measures → Location → ℕ → Option AttendanceRecord → List Reason
travel_reasons m l now none = []
travel_reasons m l now (some r) = elim r.location [
  | none ↦ []
  | some before ↦
      let d : ℕ = m.distance before.point l.point in
      reason_if (ltb (333 * (now - r.check_in_time)) (10 * d) && ltb 100000 d) impossible_travel
]

abbrev pub is_near : ℤ → ℤ → Bool
is_near a b = ltb (pos_part (a -ℤ b) + neg_part (a -ℤ b)) 100

-- `detectSpoofing`
unfoldable pub detect_spoofing :
    Measures → Location → Point → ℕ → ℕ → List AttendanceRecord → List Reason
unfolding latest_record ◌-ℤ◌
detect_spoofing m l place student now records =
    accuracy_reasons l.accuracy
    ++ travel_reasons m l now (latest_record student now records)
    ++ reason_if
        (is_near l.point.latitude place.latitude && is_near l.point.longitude place.longitude)
        exact_match
    ++ m.sensor_reasons

abbrev pub is_active : SessionStatus → Bool
is_active active = true
is_active _ = false

abbrev pub is_expired : ℕ → Option ℕ → Bool
is_expired now none = false
is_expired now (some until) = ltb until now

-- `enrollment`: enrolled in the section, or completed.
abbrev pub is_enrolled : ℕ → ℕ → Enrollment → Bool
is_enrolled student section e =
    (e.student_id == student) && ((e.section_id == section) && takes_seat e.status)

abbrev pub is_record_of : ℕ → ℕ → AttendanceRecord → Bool
is_record_of session student r = (r.session_id == session) && (r.student_id == student)

-- The place of a GPS check-in to a session with coordinates: what is compared with what.
abbrev pub gps_place : Method → Option Location → Option Point → Option (Location × Point)
gps_place gps (some l) (some p) = some (l, p)
gps_place _ _ _ = none

-- Late by more than 15 minutes.
abbrev pub presence_at : ℕ → ℕ → Presence
presence_at starts_at now = if ltb (starts_at + 900000) now then late else present

abbrev pub new_record :
    AttendanceSession
    → ℕ
    → Option Location
    → Method
    → ℕ
    → Option ℕ
    → List Reason
    → ℕ
    → AttendanceRecord
new_record x student location method now distance reasons id = record {
  id = id;
  session_id = x.id;
  student_id = student;
  check_in_time = now;
  location = location;
  distance_from_center = distance;
  check_in_method = method;
  flag_reasons = reasons;
  status = presence_at x.starts_at now;
}

abbrev pub add_record : AttendanceRecord → Attendance → Attendance
add_record r s = record {
  sections = s.sections;
  classrooms = s.classrooms;
  sessions = s.sessions;
  records = r ∷ s.records;
  enrollments = s.enrollments;
  excuses = s.excuses;
  next_id = suc s.next_id;
}

-- `Math.round` of a distance, in metres.
abbrev pub in_metres : ℕ → ℕ
in_metres d = (d + 500) / 1000

-- `distance || null`
abbrev pub unless_zero : ℕ → Option ℕ
unless_zero n = if 0 == n then none else some n

-- The geofence and the spoofing check, where the check-in has a place to compare.
abbrev pub check_place :
    Measures
    → AttendanceSession
    → ℕ
    → ℕ
    → List AttendanceRecord
    → Option (Location × Point)
    → Result CheckInError (Option ℕ × List Reason)
check_place m x student now records none = ok (none, [])
check_place m x student now records (some (l, p)) =
    if is_within m p x.geofence_radius l
    then ok
        (unless_zero (in_metres (m.distance p l.point)), detect_spoofing m l p student now records)
    else err (too_far (in_metres (m.distance p l.point)))

-- `processCheckIn`
unfoldable pub process_check_in :
    Measures
    → ℕ
    → ℕ
    → Option Location
    → Method
    → ℕ
    → Attendance
    → Result CheckInError (AttendanceRecord × Attendance)
unfolding detect_spoofing
process_check_in m session student location method now s = do
  x ← or_throw (find (λ (x : AttendanceSession). x.id == session) s.sessions) session_not_found
  throw_if (not (is_active x.status)) session_not_active
  throw_if (is_expired now x.expires_at) session_expired
  throw_if (not (any (is_enrolled student x.section_id) s.enrollments)) not_enrolled
  throw_if (any (is_record_of session student) s.records) already_checked_in
  (distance, reasons) ← check_place m x student now s.records (gps_place method location x.place)
  let r = new_record x student location method now distance reasons s.next_id
  ok (r, add_record r s)
