-- ===== src/Attendance/Excuses.antt =====
-- src/controllers/excuseController.js: a student asks to be excused from a session, and the
-- instructor or an admin decides. The rows that the queries for the caller find, of Student and
-- Faculty, are arguments: their ids, or `none`.
use obs_system_backend_berka.Base.{
  ℕ, suc, Bool, true, false, not, ◌&&◌, Option, none, some, List, [], ◌∷◌, find, any, Result, ok,
  ◌>>=◌, ◌>>◌, throw_if, or_throw, ◌==◌, if◌then◌else◌,
}
use obs_system_backend_berka.Base.{Text}
use obs_system_backend_berka.School.{Section}
use obs_system_backend_berka.Attendance.{
  AttendanceSession, AttendanceRecord, excused, manual, ExcuseRequest, ExcuseType, ExcuseStatus,
  pending, approved, rejected, Attendance, is_enrolled, is_record_of,
}

pub data ExcuseError : Type 0 where
  no_student no_session not_in_course already_requested unauthorized no_request : ExcuseError
  not_instructor already_reviewed : ExcuseError

-- `save` of the row that a query found: ids are primary keys, so this row alone changes.
abbrev pub update_first : {A : Type 0} → (A → Bool) → (A → A) → List A → List A
update_first p f [] = []
update_first p f (x ∷ xs) = let rest = update_first p f xs in if p x then f x ∷ xs else x ∷ rest

abbrev pub is_excuse_of : ℕ → ℕ → ExcuseRequest → Bool
is_excuse_of session student e = (e.session_id == session) && (e.student_id == student)

abbrev pub new_excuse : ℕ → ℕ → ℕ → Text → ExcuseType → Option Text → ExcuseRequest
new_excuse id session student reason kind document = record {
  id = id;
  session_id = session;
  student_id = student;
  reason = reason;
  excuse_type = kind;
  document_url = document;
  status = pending;
  reviewed_by = none;
  reviewed_at = none;
  notes = none;
}

abbrev pub with_excuses : List ExcuseRequest → List AttendanceRecord → ℕ → Attendance → Attendance
with_excuses excuses records next s = record {
  sections = s.sections;
  classrooms = s.classrooms;
  sessions = s.sessions;
  records = records;
  enrollments = s.enrollments;
  excuses = excuses;
  next_id = next;
}

-- `createExcuseRequest`
unfoldable pub create_excuse_request :
    Option ℕ
    → ℕ
    → Text
    → ExcuseType
    → Option Text
    → Attendance
    → Result ExcuseError (ExcuseRequest × Attendance)
create_excuse_request student session reason kind document s = do
  me ← or_throw student no_student
  x ← or_throw (find (λ (x : AttendanceSession). x.id == session) s.sessions) no_session
  throw_if (not (any (is_enrolled me x.section_id) s.enrollments)) not_in_course
  throw_if (any (is_excuse_of session me) s.excuses) already_requested
  let e = new_excuse s.next_id session me reason kind document
  ok (e, with_excuses (e ∷ s.excuses) s.records (suc s.next_id) s)

abbrev pub is_pending : ExcuseStatus → Bool
is_pending pending = true
is_pending _ = false

abbrev pub is_some : {A : Type 0} → Option A → Bool
is_some none = false
is_some (some a) = true

abbrev pub is_instructor : ℕ → Section → Bool
is_instructor faculty section = elim section.instructor_id [ none ↦ false | some i ↦ i == faculty ]

-- `excuseRequest.session.section.instructor_id === faculty.id`
abbrev pub teaches : ℕ → ExcuseRequest → Attendance → Bool
teaches faculty e s =
    any
      (λ (x : AttendanceSession).
        (x.id == e.session_id)
        && any (λ (c : Section). (c.id == x.section_id) && is_instructor faculty c) s.sections)
      s.sessions

abbrev pub is_foreign : Option ℕ → ExcuseRequest → Attendance → Bool
is_foreign none e s = false
is_foreign (some faculty) e s = not (teaches faculty e s)

-- The checks of a decision: the request, when this caller may decide it now.
unfoldable pub reviewable : Option ℕ → Bool → ℕ → Attendance → Result ExcuseError ExcuseRequest
reviewable faculty is_admin id s = do
  throw_if (not (is_some faculty) && not is_admin) unauthorized
  e ← or_throw (find (λ (e : ExcuseRequest). e.id == id) s.excuses) no_request
  throw_if (is_foreign faculty e s && not is_admin) not_instructor
  throw_if (not (is_pending e.status)) already_reviewed
  ok e

abbrev pub review : ExcuseStatus → Option ℕ → ℕ → Option Text → ExcuseRequest → ExcuseRequest
review status faculty now notes e = record {
  id = e.id;
  session_id = e.session_id;
  student_id = e.student_id;
  reason = e.reason;
  excuse_type = e.excuse_type;
  document_url = e.document_url;
  status = status;
  reviewed_by = faculty;
  reviewed_at = some now;
  notes = notes;
}

abbrev pub reviewed :
    ExcuseStatus → Option ℕ → ℕ → Option Text → ℕ → List ExcuseRequest → List ExcuseRequest
reviewed status faculty now notes id =
    update_first (λ (e : ExcuseRequest). e.id == id) (review status faculty now notes)

abbrev pub excused_row : AttendanceRecord → AttendanceRecord
excused_row r = record {
  id = r.id;
  session_id = r.session_id;
  student_id = r.student_id;
  check_in_time = r.check_in_time;
  location = r.location;
  distance_from_center = r.distance_from_center;
  check_in_method = r.check_in_method;
  flag_reasons = r.flag_reasons;
  status = excused;
}

abbrev pub excused_record : ℕ → ℕ → ExcuseRequest → AttendanceRecord
excused_record id now e = record {
  id = id;
  session_id = e.session_id;
  student_id = e.student_id;
  check_in_time = now;
  location = none;
  distance_from_center = none;
  check_in_method = manual;
  flag_reasons = [];
  status = excused;
}

-- The student's record of the session becomes excused, or an excused one is made.
abbrev pub excuse_records : ℕ → ℕ → ExcuseRequest → List AttendanceRecord → List AttendanceRecord
excuse_records id now e rs =
    let changed = update_first (is_record_of e.session_id e.student_id) excused_row rs in
    if any (is_record_of e.session_id e.student_id) rs
    then changed
    else excused_record id now e ∷ rs

-- `approveExcuseRequest`
unfoldable pub approve_excuse_request :
    Option ℕ → Bool → ℕ → Option Text → ℕ → Attendance → Result ExcuseError (Unit {0} × Attendance)
unfolding reviewable
approve_excuse_request faculty is_admin now notes id s = do
  e ← reviewable faculty is_admin id s
  let excuses = reviewed approved faculty now notes id s.excuses
  let records = excuse_records s.next_id now e s.records
  ok (tt, with_excuses excuses records (suc s.next_id) s)

-- `rejectExcuseRequest`
unfoldable pub reject_excuse_request :
    Option ℕ → Bool → ℕ → Option Text → ℕ → Attendance → Result ExcuseError (Unit {0} × Attendance)
unfolding reviewable
reject_excuse_request faculty is_admin now notes id s = do
  e ← reviewable faculty is_admin id s
  ok (tt, with_excuses (reviewed rejected faculty now notes id s.excuses) s.records s.next_id s)
