-- ===== src/Attendance/Report.antt =====
-- `getStudentAttendanceStats` of src/services/attendanceService.js.
use obs_system_backend_berka.Base.{
  ℕ, ◌+◌, ◌*◌, ◌/◌, Bool, true, false, ◌&&◌, List, [], ◌∷◌, ltb, ◌==◌, if◌then◌else◌, length, any,
  filter, count,
}
use obs_system_backend_berka.Base.Int.{ℤ, pos, sub_ℕ}
use obs_system_backend_berka.Attendance.{
  SessionStatus, active, closed, cancelled, AttendanceSession, Presence, present, late,
  AttendanceRecord, ExcuseStatus, approved, ExcuseRequest, Attendance,
}

abbrev pub is_counted : SessionStatus → Bool
is_counted active = true
is_counted closed = true
is_counted cancelled = false

abbrev pub is_present : Presence → Bool
is_present present = true
is_present _ = false

abbrev pub is_late : Presence → Bool
is_late late = true
is_late _ = false

abbrev pub is_approved : ExcuseStatus → Bool
is_approved approved = true
is_approved _ = false

-- `session_id: { [Op.in]: sessionIds }`
abbrev pub is_session_of : List AttendanceSession → ℕ → Bool
is_session_of sessions id = any (λ (x : AttendanceSession). x.id == id) sessions

-- `sessions`: those of the section that were not cancelled.
abbrev pub section_sessions : ℕ → List AttendanceSession → List AttendanceSession
section_sessions section sessions =
    filter (λ (x : AttendanceSession). (x.section_id == section) && is_counted x.status) sessions

abbrev pub is_record_in : List AttendanceSession → ℕ → AttendanceRecord → Bool
is_record_in sessions student r = (r.student_id == student) && is_session_of sessions r.session_id

abbrev pub is_excuse_in : List AttendanceSession → ℕ → ExcuseRequest → Bool
is_excuse_in sessions student e =
    (e.student_id == student) && (is_session_of sessions e.session_id && is_approved e.status)

pub data Level : Type 0 where
  ok_level warning critical : Level

pub record Stats : Type 0 where
  pub total_sessions : ℕ
  pub present : ℕ
  pub late : ℕ
  pub excused : ℕ
  pub absent : ℤ
  pub attendance_percentage : ℕ
  pub level : Level

-- `Math.round((n / total) * 100)`
abbrev pub percentage : ℕ → ℕ → ℕ
percentage n total = (200 * n + total) / (2 * total)

abbrev pub level_of : ℕ → Level
level_of p = if ltb p 70 then critical else if ltb p 80 then warning else ok_level

abbrev pub stats_of : ℕ → ℕ → ℕ → ℕ → Stats
stats_of total p l e = record {
  total_sessions = total;
  present = p;
  late = l;
  excused = e;
  absent = sub_ℕ total (p + l + e);
  attendance_percentage = percentage (p + l + e) total;
  level = level_of (percentage (p + l + e) total);
}

abbrev pub no_stats : Stats
no_stats = record {
  total_sessions = 0;
  present = 0;
  late = 0;
  excused = 0;
  absent = pos 0;
  attendance_percentage = 100;
  level = ok_level;
}

-- The statistics over the sessions that count.
abbrev pub stats_over : List AttendanceSession → ℕ → Attendance → Stats
stats_over [] student s = no_stats
stats_over (x ∷ xs) student s =
    let records : List AttendanceRecord = filter (is_record_in (x ∷ xs) student) s.records in
    stats_of (length (x ∷ xs)) (count (λ (r : AttendanceRecord). is_present r.status) records)
      (count (λ (r : AttendanceRecord). is_late r.status) records)
      (count (is_excuse_in (x ∷ xs) student) s.excuses)

-- `getStudentAttendanceStats`
unfoldable pub get_student_attendance_stats : ℕ → ℕ → Attendance → Stats
get_student_attendance_stats student section s =
    stats_over (section_sessions section s.sessions) student s
