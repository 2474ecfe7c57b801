-- ===== src/Attendance/Tests.antt =====
-- Two sessions of one section, and the properties of check-ins, excuses and attendance at them.
use obs_system_backend_berka.Base.{
  ℕ, ◌+◌, ◌≤◌, ◌≡◌, ◌↔◌, refl, inl, inr, Bool-cases, none, some, true, false, List, [], ◌∷◌, arith,
  ◌==◌, find, length, ok,
}
use obs_system_backend_berka.Base.Int.{pos}
use obs_system_backend_berka.Grade.{enrolled}
use obs_system_backend_berka.School.{Enrollment}
use obs_system_backend_berka.Attendance.{
  Point, Location, SessionStatus, active, closed, AttendanceSession, gps, AttendanceRecord, medical,
  Attendance, Measures, process_check_in, detect_spoofing, latest_record,
}
use obs_system_backend_berka.Attendance.Report.{get_student_attendance_stats}
use obs_system_backend_berka.Attendance.Excuses.{
  create_excuse_request, approve_excuse_request, reviewable,
}
use obs_system_backend_berka.Attendance.Sessions.{check_in, close_session, own_session}
use obs_system_backend_berka.Attendance.CheckIns.{IsAllowed, process_check_in_iff}
use obs_system_backend_berka.Attendance.Calls.{
  Call, attend, finish, request, approve, step, run, run-AreSettled,
}
use obs_system_backend_berka.Attendance.Settles.{AreSettled}
use obs_system_backend_berka.Attendance.Percentage.{get_student_attendance_stats-run}

abbrev campus : Point
campus = record { latitude = pos 4100000000; longitude = pos 2900000000 }

abbrev session : ℕ → SessionStatus → AttendanceSession
session id status = record {
  id = id;
  section_id = 7;
  instructor_id = 4;
  starts_at = 1000000;
  end_time = 5000000;
  place = some campus;
  geofence_radius = 15;
  qr_code = some (65 ∷ []);
  status = status;
  expires_at = some 5000000;
  qr_expires_at = some 1300000;
}

-- Twelve metres from everywhere.
abbrev measures : Measures
measures = record { distance = λ p q. 12000; sensor_reasons = [] }

abbrev here : Location
here = record { point = campus; accuracy = some 5000 }

abbrev enrollment : Enrollment
enrollment = record {
  id = 3;
  student_id = 9;
  section_id = 7;
  status = enrolled;
  enrollment_date = 0;
  approval_date = none;
  approved_by = none;
  drop_date = none;
  letter_grade = none;
  is_repeat = false;
}

abbrev attendance : Attendance
attendance = record {
  sections = [];
  classrooms = [];
  sessions = session 1 active ∷ session 2 closed ∷ [];
  records = [];
  enrollments = enrollment ∷ [];
  excuses = [];
  next_id = 50;
}

process_check_in_iff_example :
    ((q : AttendanceRecord × Attendance) × (process_check_in measures 1 9
          (some here)
          gps
          1200000
          attendance
        ≡ ok q))
    ↔ ((x : AttendanceSession) × (find (λ (x : AttendanceSession). x.id == 1) attendance.sessions
          ≡ some x)
        × IsAllowed measures 1 9 (some here) gps 1200000 attendance x)
process_check_in_iff_example = process_check_in_iff measures 1 9 (some here) gps 1200000 attendance

-- A check-in with the QR code, another one, a request for the second session by the student, and its
-- approval by an admin, and the first session is closed.
abbrev calls : List Call
calls =
    attend measures 1 (some 9) (some (65 ∷ [])) here 1200000
    ∷ attend measures 1 (some 9) none here 1300000
    ∷ request (some 9) 2 [] medical none
    ∷ approve none true 1400000 none 51
    ∷ finish (some 4) false 1500000 1
    ∷ []

nothing_yet : AreSettled attendance
nothing_yet = (
  (λ session student. (omega arith, omega arith, omega arith, omega arith)),
  (λ section. elim (Bool-cases (7 == section)) [
    | inl e ↦ rw e (omega arith)
    | inr e ↦ rw e (omega arith)
  ]),
)

run-AreSettled_example : AreSettled (run calls attendance)
run-AreSettled_example = run-AreSettled calls attendance nothing_yet

get_student_attendance_stats-run_example :
    ((get_student_attendance_stats 9 7 (run calls attendance)).present
        + (get_student_attendance_stats 9 7 (run calls attendance)).late
        + (get_student_attendance_stats 9 7 (run calls attendance)).excused
      ≤ (get_student_attendance_stats 9 7 (run calls attendance)).total_sessions)
    × ((get_student_attendance_stats 9 7 (run calls attendance)).attendance_percentage ≤ 100)
get_student_attendance_stats-run_example =
    get_student_attendance_stats-run calls attendance 9 7 nothing_yet

-- The second check-in is refused, and the approved request makes a record.
two_records : length (run calls attendance).records ≡ 2
unfolding run step check_in close_session own_session process_check_in detect_spoofing latest_record
    create_excuse_request approve_excuse_request reviewable
two_records = refl

all_present : (get_student_attendance_stats 9 7 (run calls attendance)).attendance_percentage ≡ 100
unfolding get_student_attendance_stats run step check_in close_session own_session process_check_in
    detect_spoofing latest_record create_excuse_request approve_excuse_request reviewable
all_present = refl

-- An approval after the student attended turns the record into an excused one.
excused_after :
    (get_student_attendance_stats 9 7 (
      run
        (attend measures 1 (some 9) none here 1200000
          ∷ request (some 9) 1 [] medical none
          ∷ approve none true 1400000 none 51
          ∷ [])
        attendance)).present
    ≡ 0
unfolding get_student_attendance_stats run step check_in close_session own_session process_check_in
    detect_spoofing latest_record create_excuse_request approve_excuse_request reviewable
excused_after = refl
