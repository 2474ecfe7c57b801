-- ===== src/Attendance/Calls.antt =====
-- Sequences of the calls of src/controllers/attendanceController.js and
-- src/controllers/excuseController.js that write sessions, records and requests.
use obs_system_backend_berka.Base.{
  ℕ, ◌≡◌, Bool, Option, some, List, [], ◌∷◌, Text, find, committed, ◌==◌, Ensures-bind,
}
use obs_system_backend_berka.Attendance.{
  Location, AttendanceSession, ExcuseType, Attendance, Measures,
}
use obs_system_backend_berka.Attendance.Excuses.{
  create_excuse_request, reviewable, approve_excuse_request, reject_excuse_request,
}
use obs_system_backend_berka.Attendance.Sessions.{
  create_session, close_session, regenerate_qr_code, check_in, own_session, close, set_qr_code,
}
use obs_system_backend_berka.Attendance.Openings.{change_session-IsOpenOnce}
use obs_system_backend_berka.Attendance.Writes.{
  reviewed_rejected-IsSettled, reviewed_approved-IsSettled,
}
use obs_system_backend_berka.Attendance.Settles.{
  AreSettled, Settles, committed-Settles, create_excuse_request-Settles, Waits, reviewable-Waits,
  check_in-Settles, create_session-Settles, own_session-Ensures, false_open,
}

pub data Call : Type 0 where
  start : Option ℕ → Bool → ℕ → ℕ → ℕ → Text → ℕ → Call
  finish : Option ℕ → Bool → ℕ → ℕ → Call
  renew_code : Option ℕ → Bool → Text → ℕ → ℕ → Call
  attend : Measures → ℕ → Option ℕ → Option Text → Location → ℕ → Call
  request : Option ℕ → ℕ → Text → ExcuseType → Option Text → Call
  approve : Option ℕ → Bool → ℕ → Option Text → ℕ → Call
  reject : Option ℕ → Bool → ℕ → Option Text → ℕ → Call

unfoldable pub step : Call → Attendance → Attendance
unfolding create_session close_session regenerate_qr_code check_in create_excuse_request
    approve_excuse_request reject_excuse_request
step (start faculty is_admin section duration radius code now) s =
    committed s (create_session faculty is_admin section duration radius code now s)
step (finish faculty is_admin now id) s = committed s (close_session faculty is_admin now id s)
step (renew_code faculty is_admin code now id) s =
    committed s (regenerate_qr_code faculty is_admin code now id s)
step (attend m session student code location now) s =
    committed s (check_in m session student code location now s)
step (request student session reason kind document) s =
    committed s (create_excuse_request student session reason kind document s)
step (approve faculty is_admin now notes id) s =
    committed s (approve_excuse_request faculty is_admin now notes id s)
step (reject faculty is_admin now notes id) s =
    committed s (reject_excuse_request faculty is_admin now notes id s)

unfoldable pub run : List Call → Attendance → Attendance
unfolding step
run [] s = s
run (c ∷ cs) s = run cs (step c s)

step-AreSettled : (c : Call) (s : Attendance) → AreSettled s → AreSettled (step c s)
unfolding step
step-AreSettled (start faculty is_admin section duration radius code now) s settled =
    committed-Settles s (create_session faculty is_admin section duration radius code now s) settled
      (create_session-Settles faculty is_admin section duration radius code now s settled)
step-AreSettled (finish faculty is_admin now id) s settled =
    committed-Settles s (close_session faculty is_admin now id s) settled (
      Ensures-bind (λ x. find (λ (q : AttendanceSession). q.id == id) s.sessions ≡ some x) Settles
        (own_session faculty is_admin id s) _ (own_session-Ensures faculty is_admin id s)
        (λ x found. (
          settled.0,
          change_session-IsOpenOnce (λ (q : AttendanceSession). q.id == id) (close now) s.sessions x
              found (λ n h. elim (false_open (x.section_id == n) h) [ ]) settled.1,
        )))
step-AreSettled (renew_code faculty is_admin code now id) s settled =
    committed-Settles s (regenerate_qr_code faculty is_admin code now id s) settled (
      Ensures-bind (λ x. find (λ (q : AttendanceSession). q.id == id) s.sessions ≡ some x) Settles
        (own_session faculty is_admin id s) _ (own_session-Ensures faculty is_admin id s)
        (λ x found. (
          settled.0,
          change_session-IsOpenOnce (λ (q : AttendanceSession). q.id == id) (set_qr_code code now)
              s.sessions x found (λ n h. h) settled.1,
        )))
step-AreSettled (attend m session student code location now) s settled =
    committed-Settles s (check_in m session student code location now s) settled
      (check_in-Settles m session student code location now s settled)
step-AreSettled (request student session reason kind document) s settled =
    committed-Settles s (create_excuse_request student session reason kind document s) settled
      (create_excuse_request-Settles student session reason kind document s settled)
step-AreSettled (approve faculty is_admin now notes id) s settled =
    committed-Settles s (approve_excuse_request faculty is_admin now notes id s) settled (
      Ensures-bind (Waits id s) Settles (reviewable faculty is_admin id s) _
        (reviewable-Waits faculty is_admin id s)
        (λ e h. (
          reviewed_approved-IsSettled faculty now s.next_id notes id e s.records s.excuses h.0 h.1
              settled.0,
          settled.1,
        )))
step-AreSettled (reject faculty is_admin now notes id) s settled =
    committed-Settles s (reject_excuse_request faculty is_admin now notes id s) settled (
      Ensures-bind (Waits id s) Settles (reviewable faculty is_admin id s) _
        (reviewable-Waits faculty is_admin id s)
        (λ e h. (
          reviewed_rejected-IsSettled faculty now notes id e s.records s.excuses h.0 h.1 settled.0,
          settled.1,
        )))

-- Whatever sessions are opened, closed and given new codes, whatever check-ins, requests to be excused,
-- approvals and rejections follow one another: a section has at most one active session, a student has
-- at most one record of a session and at most one request for it, and where a request was approved
-- there is a record, which counts neither as present nor as late; this when it was so before.
pub run-AreSettled : (cs : List Call) (s : Attendance) → AreSettled s → AreSettled (run cs s)
unfolding run
run-AreSettled [] s settled = settled
run-AreSettled (c ∷ cs) s settled = run-AreSettled cs (step c s) (step-AreSettled c s settled)
