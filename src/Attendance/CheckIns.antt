-- ===== src/Attendance/CheckIns.antt =====
-- When `processCheckIn` of src/services/attendanceService.js records a student, and what any
-- sequence of check-ins keeps.
use obs_system_backend_berka.Base.{
  ℕ, ◌≤◌, ◌≡◌, ◌↔◌, refl, inl, inr, Bool, true, false, not, Option, none, some, List, [], arith,
  leb, leb→le, Bool-cases, Option-cases, find, any, Result, err, ok, ◌>>=◌, ◌>>◌, throw_if, ◌==◌,
  Empty, subst,
}
use obs_system_backend_berka.Attendance.{
  Location, Point, Method, AttendanceSession, AttendanceRecord, Attendance, Measures, CheckInError,
  session_not_active, session_expired, not_enrolled, already_checked_in, allowed_distance,
  is_within, is_active, is_expired, is_enrolled, is_record_of, gps_place, new_record, add_record,
  check_place, process_check_in, Reason,
}

-- A check-in with a place to compare is within the geofence: the radius, the accuracy up to 20
-- metres, and 5 metres.
abbrev pub IsInFence : Measures → AttendanceSession → Option (Location × Point) → Type 0
IsInFence m x none = Unit
IsInFence m x (some (l, p)) = m.distance p l.point ≤ allowed_distance x.geofence_radius l.accuracy

-- The conditions of a check-in to a session.
abbrev pub IsAllowed :
    Measures → ℕ → ℕ → Option Location → Method → ℕ → Attendance → AttendanceSession → Type 0
IsAllowed m session student location method now s x =
    (is_active x.status ≡ true)
    × (is_expired now x.expires_at ≡ false)
    × (any (is_enrolled student x.section_id) s.enrollments ≡ true)
    × (any (is_record_of session student) s.records ≡ false)
    × IsInFence m x (gps_place method location x.place)

outside : (a b : ℕ) → a ≤ b → leb a b ≡ false → Empty {0}
outside a b h e = let inside : leb a b ≡ true = ground arith in cc

check_place_iff :
    (m : Measures) (x : AttendanceSession) (student now : ℕ) (records : List AttendanceRecord)
    (place : Option (Location × Point))
    → ((r : Option ℕ × List Reason) × (check_place m x student now records place ≡ ok r))
      ↔ IsInFence m x place
check_place_iff m x student now records none = ((λ h. tt), (λ h. ((none, []), refl)))
check_place_iff m x student now records (some (l, p)) =
    elim (Bool-cases (is_within m p x.geofence_radius l)) [
      | inl e ↦ rw e ((λ h. leb→le _ _ e), (λ h. (_, refl)))
      | inr e ↦ rw e ((λ (r, h). cc), (λ h. elim (outside _ _ h e) [ ]))
    ]

-- Four checks in a row, and a last step.
checks_iff :
    {P Q : Type 0} (a b c d : Bool) (last : Result CheckInError P) (k : P → Q)
    → ((q : Q) × ((throw_if (not a) session_not_active
            >> (throw_if b session_expired
                >> (throw_if (not c) not_enrolled
                    >> (throw_if d already_checked_in >> (last >>= λ p. ok (k p))))))
          ≡ ok q))
      ↔ ((a ≡ true) × (b ≡ false) × (c ≡ true) × (d ≡ false) × ((p : P) × (last ≡ ok p)))
checks_iff false b c d last k = ((λ (q, h). cc), (λ h. let e = h.0 in cc))
checks_iff true true c d last k = ((λ (q, h). cc), (λ h. let e = h.1 in cc))
checks_iff true false false d last k = ((λ (q, h). cc), (λ h. let e = h.2 in cc))
checks_iff true false true true last k = ((λ (q, h). cc), (λ h. let e = h.3 in cc))
checks_iff true false true false (err e) k = ((λ (q, h). cc), (λ (a, b, c, d, (p, h)). cc))
checks_iff true false true false (ok p) k =
    ((λ h. (refl, refl, refl, refl, (p, refl))), (λ h. (k p, refl)))

same_session :
    (x y : AttendanceSession) → ◌≡◌ {A = Option AttendanceSession} (some x) (some y) → y ≡ x
same_session x y h = cc

-- A student is recorded exactly when the session exists, is active and has not expired, the student is
-- enrolled in its section or has completed it and has no record of the session yet, and a GPS
-- check-in with a location, to a session with coordinates, is within the geofence.
pub process_check_in_iff :
    (m : Measures) (session student : ℕ) (location : Option Location) (method : Method) (now : ℕ)
    (s : Attendance)
    → ((q : AttendanceRecord × Attendance) × (process_check_in m session student location method now
            s
          ≡ ok q))
      ↔ ((x : AttendanceSession) × (find (λ (x : AttendanceSession). x.id == session) s.sessions
            ≡ some x)
          × IsAllowed m session student location method now s x)
unfolding process_check_in
process_check_in_iff m session student location method now s =
    elim (Option-cases (find (λ (x : AttendanceSession). x.id == session) s.sessions)) [
      | inl e ↦ rw e ((λ (q, h). cc), (λ (x, h, more). cc))
      | inr (x, e) ↦
          let place = gps_place method location x.place in
          let fence = check_place_iff m x student now s.records place in
          let checks =
            checks_iff (is_active x.status) (is_expired now x.expires_at)
              (any (is_enrolled student x.section_id) s.enrollments)
              (any (is_record_of session student) s.records)
              (check_place m x student now s.records place)
              (λ p.
                let r = new_record x student location method now p.0 p.1 s.next_id in
                (r, add_record r s)) in
          rw e (
            (λ h. let (a, b, c, d, last) = checks.0 h in (x, refl, (a, b, c, d, fence.0 last))),
            (λ (y, same, allowed).
                let it : y ≡ x = same_session x y same in
                let (a, b, c, d, f) =
                  subst (IsAllowed m session student location method now s) it allowed in
                checks.1 (a, b, c, d, fence.1 f)),
          )
    ]
