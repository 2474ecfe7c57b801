-- ===== src/Attendance/Settles.antt =====
-- What a single call of src/controllers/attendanceController.js or src/controllers/excuseController.js
-- keeps of sessions, records and requests.
use obs_system_backend_berka.Base.{
  Empty, ℕ, suc, ◌≡◌, refl, sym, Bool, true, false, not, ◌&&◌, Option, some, ◌∷◌, Text, find,
  find_holds, any, Result, err, ok, ◌>>=◌, ◌>>◌, committed, throw_if, or_throw, ◌==◌, ==_iff, subst,
  Ensures, Ensures-bind, Ensures-or_throw, Ensures-throw_if, Ensures-any,
}
use obs_system_backend_berka.Attendance.{
  Location, Method, AttendanceSession, ExcuseType, ExcuseRequest, ExcuseStatus, pending, approved,
  rejected, Attendance, Measures, CheckInError, session_not_found, session_not_active,
  session_expired, not_enrolled, already_checked_in, student_not_found, is_active, is_expired,
  is_enrolled, is_record_of, gps_place, new_record, add_record, check_place, process_check_in,
}
use obs_system_backend_berka.Attendance.Report.{is_approved}
use obs_system_backend_berka.Attendance.Excuses.{
  ExcuseError, no_student, no_session, not_in_course, already_requested, unauthorized, no_request,
  not_instructor, already_reviewed, create_excuse_request, reviewable, is_excuse_of, is_pending,
  is_some, is_foreign, is_instructor, new_excuse, with_excuses,
}
use obs_system_backend_berka.School.{Section}
use obs_system_backend_berka.Attendance.Sessions.{
  SessionError, no_faculty, section_not_found, not_teacher, already_open, no_session, not_owner,
  not_open, create_session, check_in, own_session, new_session, with_sessions, place_of, is_open,
  is_other, method_of,
}
use obs_system_backend_berka.Attendance.Openings.{IsOpenOnce, new_session-IsOpenOnce}
use obs_system_backend_berka.Attendance.Settled.{IsSettled}
use obs_system_backend_berka.Attendance.Writes.{new_record-IsSettled, new_excuse-IsSettled}

abbrev pub AreSettled : Attendance → Type 0
AreSettled s = IsSettled s.records s.excuses × IsOpenOnce s.sessions

abbrev pub Settles : {A : Type 0} → A × Attendance → Type 0
Settles (answer, s) = AreSettled s

pub committed-Settles :
    {E A : Type 0} (s : Attendance) (r : Result E (A × Attendance))
    → AreSettled s
    → Ensures Settles r
    → AreSettled (committed s r)
committed-Settles s (err e) before after = before
committed-Settles s (ok (answer, t)) before after = after

process_check_in-Settles :
    (m : Measures) (session student : ℕ) (location : Option Location) (method : Method) (now : ℕ)
    (s : Attendance)
    → AreSettled s
    → Ensures Settles (process_check_in m session student location method now s)
unfolding process_check_in
process_check_in-Settles m session student location method now s settled =
    let lookup = λ (x : AttendanceSession). x.id == session in
    let records = λ (x : AttendanceSession).
      check_place m x student now s.records (gps_place method location x.place) >>= λ p.
      let r = new_record x student location method now p.0 p.1 s.next_id in
      ok (r, add_record r s) in
    let known = any (is_record_of session student) s.records in
    Ensures-bind (λ (x : AttendanceSession). x.id ≡ session) Settles
      (or_throw (find lookup s.sessions) session_not_found) _
      (Ensures-or_throw {E = CheckInError} (λ (x : AttendanceSession). x.id ≡ session)
        (find lookup s.sessions) session_not_found
        (λ x e. (==_iff x.id session).0 (find_holds lookup s.sessions e)))
      (λ x same.
        Ensures-throw_if Settles (not (is_active x.status)) session_not_active
          (throw_if (is_expired now x.expires_at) session_expired
            >> (throw_if (not (any (is_enrolled student x.section_id) s.enrollments)) not_enrolled
                >> (throw_if known already_checked_in >> records x)))
          (λ a.
            Ensures-throw_if Settles (is_expired now x.expires_at) session_expired
              (throw_if (not (any (is_enrolled student x.section_id) s.enrollments)) not_enrolled
                >> (throw_if known already_checked_in >> records x))
              (λ b.
                Ensures-throw_if Settles
                  (not (any (is_enrolled student x.section_id) s.enrollments)) not_enrolled
                  (throw_if known already_checked_in >> records x)
                  (λ c. Ensures-throw_if Settles known already_checked_in (records x) (λ fresh.
                    Ensures-bind {E = CheckInError} (λ _. Unit {0}) Settles
                      (check_place m x student now s.records (gps_place method location x.place)) _
                      (Ensures-any _)
                      (λ p h. (
                        new_record-IsSettled
                            (new_record x student location method now p.0 p.1 s.next_id) s.records
                            s.excuses
                            (subst (λ n. any (is_record_of n student) s.records ≡ false) (sym same)
                              fresh)
                            settled.0,
                        settled.1,
                      )))))))

pub create_excuse_request-Settles :
    (student : Option ℕ) (session : ℕ) (reason : Text) (kind : ExcuseType) (document : Option Text)
    (s : Attendance)
    → AreSettled s
    → Ensures Settles (create_excuse_request student session reason kind document s)
unfolding create_excuse_request
create_excuse_request-Settles student session reason kind document s settled =
    let made = λ (me : ℕ). new_excuse s.next_id session me reason kind document in
    let last : ℕ → Result ExcuseError (ExcuseRequest × Attendance) =
      λ me. ok (made me, with_excuses (made me ∷ s.excuses) s.records (suc s.next_id) s) in
    let known = λ (me : ℕ). any (is_excuse_of session me) s.excuses in
    Ensures-bind (λ _. Unit {0}) Settles (or_throw student no_student) _ (Ensures-any _)
      (λ me _.
        Ensures-bind (λ _. Unit {0}) Settles
          (or_throw (find (λ (x : AttendanceSession). x.id == session) s.sessions) no_session) _
          (Ensures-any _)
          (λ x _.
            Ensures-throw_if Settles (not (any (is_enrolled me x.section_id) s.enrollments))
              not_in_course (throw_if (known me) already_requested >> last me)
              (λ _. Ensures-throw_if Settles (known me) already_requested (last me) (λ fresh. (
                new_excuse-IsSettled (made me) s.records s.excuses fresh refl settled.0,
                settled.1,
              )))))

-- A request that may be decided is the one asked for, and waits.
abbrev pub Waits : ℕ → Attendance → ExcuseRequest → Type 0
Waits id s e =
    (find (λ (q : ExcuseRequest). q.id == id) s.excuses ≡ some e) × (is_approved e.status ≡ false)

waits : (status : ExcuseStatus) → not (is_pending status) ≡ false → is_approved status ≡ false
waits pending h = refl
waits approved h = cc
waits rejected h = refl

pub reviewable-Waits :
    (faculty : Option ℕ) (is_admin : Bool) (id : ℕ) (s : Attendance)
    → Ensures (Waits id s) (reviewable faculty is_admin id s)
unfolding reviewable
reviewable-Waits faculty is_admin id s =
    let lookup = find (λ (q : ExcuseRequest). q.id == id) s.excuses in
    let rest =
      λ (e : ExcuseRequest). throw_if (not (is_pending e.status)) already_reviewed >> ok e in
    Ensures-throw_if (Waits id s) (not (is_some faculty) && not is_admin) unauthorized
      (or_throw lookup no_request >>= λ e.
        throw_if (is_foreign faculty e s && not is_admin) not_instructor >> rest e)
      (λ _.
        Ensures-bind (λ e. lookup ≡ some e) (Waits id s) (or_throw lookup no_request) _
          (Ensures-or_throw {E = ExcuseError} (λ e. lookup ≡ some e) lookup no_request (λ e h. h))
          (λ e found.
            Ensures-throw_if (Waits id s) (is_foreign faculty e s && not is_admin) not_instructor
              (rest e)
              (λ _.
                Ensures-throw_if (Waits id s) (not (is_pending e.status)) already_reviewed (ok e)
                  (λ h. (found, waits e.status h)))))

pub check_in-Settles :
    (m : Measures) (session : ℕ) (student : Option ℕ) (code : Option Text) (location : Location)
    (now : ℕ) (s : Attendance)
    → AreSettled s
    → Ensures Settles (check_in m session student code location now s)
unfolding check_in
check_in-Settles m session student code location now s settled =
    Ensures-bind (λ _. Unit {0}) Settles (or_throw student student_not_found) _ (Ensures-any _)
      (λ me _.
        Ensures-bind (λ _. Unit {0}) Settles (method_of session code now s) _ (Ensures-any _)
          (λ method _. process_check_in-Settles m session me (some location) method now s settled))

pub create_session-Settles :
    (faculty : Option ℕ) (is_admin : Bool) (section duration radius : ℕ) (code : Text) (now : ℕ)
    (s : Attendance)
    → AreSettled s
    → Ensures Settles (create_session faculty is_admin section duration radius code now s)
unfolding create_session
create_session-Settles faculty is_admin section duration radius code now s settled =
    let made = λ (me : ℕ) (c : Section).
      new_session s.next_id section me (place_of c.classroom_id s.classrooms) duration radius code
        now in
    let last : ℕ → Section → Result SessionError (AttendanceSession × Attendance) =
      λ me c. ok (made me c, with_sessions (made me c ∷ s.sessions) (suc s.next_id) s) in
    let known = any (is_open section) s.sessions in
    Ensures-bind (λ _. Unit {0}) Settles (or_throw faculty no_faculty) _ (Ensures-any _)
      (λ me _.
        Ensures-bind (λ _. Unit {0}) Settles
          (or_throw (find (λ (c : Section). c.id == section) s.sections) section_not_found) _
          (Ensures-any _)
          (λ c _.
            Ensures-throw_if Settles (not (is_instructor me c) && not is_admin) not_teacher
              (throw_if known already_open >> last me c)
              (λ _. Ensures-throw_if Settles known already_open (last me c) (λ fresh.
                (settled.0, new_session-IsOpenOnce (made me c) s.sessions fresh settled.1)))))

pub own_session-Ensures :
    (faculty : Option ℕ) (is_admin : Bool) (id : ℕ) (s : Attendance)
    → Ensures
        (λ x. find (λ (q : AttendanceSession). q.id == id) s.sessions ≡ some x)
        (own_session faculty is_admin id s)
unfolding own_session
own_session-Ensures faculty is_admin id s =
    let lookup = find (λ (q : AttendanceSession). q.id == id) s.sessions in
    let P = λ (x : AttendanceSession). lookup ≡ some x in
    let rest = λ (x : AttendanceSession). throw_if (not (is_active x.status)) not_open >> ok x in
    Ensures-bind P P (or_throw lookup no_session) _
      (Ensures-or_throw {E = SessionError} P lookup no_session (λ x h. h))
      (λ x found.
        Ensures-throw_if P (is_other faculty x && not is_admin) not_owner (rest x)
          (λ _. Ensures-throw_if P (not (is_active x.status)) not_open (ok x) (λ _. found)))

pub false_open : (b : Bool) → (b && false) ≡ true → Empty {0}
false_open true h = cc
false_open false h = cc
