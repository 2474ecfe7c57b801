-- ===== src/Attendance/Openings.antt =====
-- The active sessions of a section, under the writes of src/controllers/attendanceController.js.
use obs_system_backend_berka.Base.{
  ℕ, ◌≤◌, ◌≡◌, ap, inl, inr, Bool, true, false, some, List, ◌∷◌, arith, ◌==◌, ==_iff, Bool-cases,
  find, any, count, subst,
}
use obs_system_backend_berka.Attendance.{AttendanceSession}
use obs_system_backend_berka.Attendance.Excuses.{update_first}
use obs_system_backend_berka.Attendance.Sessions.{is_open}
use obs_system_backend_berka.Attendance.Settled.{one_if, count_cons, count_none, count-update_first}
use obs_system_backend_berka.Attendance.Writes.{one_if_bound}

-- No section has two active sessions.
abbrev pub IsOpenOnce : List AttendanceSession → Type 0
IsOpenOnce xs = (section : ℕ) → count (is_open section) xs ≤ 1

pub new_session-IsOpenOnce :
    (x : AttendanceSession) (xs : List AttendanceSession)
    → any (is_open x.section_id) xs ≡ false
    → IsOpenOnce xs
    → IsOpenOnce (x ∷ xs)
new_session-IsOpenOnce x xs fresh once section =
    let more = count_cons (is_open section) x xs in
    let few = once section in
    let bound = one_if_bound (is_open section x) in
    elim (Bool-cases (x.section_id == section)) [
      | inl e ↦
          let none_yet =
            count_none (is_open section) xs
              (subst (λ n. any (is_open n) xs ≡ false) ((==_iff x.section_id section).0 e) fresh) in
          omega (arith, more, none_yet, bound)
      | inr e ↦ rw e few
    ]

-- A change that keeps the section of a session and opens none.
pub change_session-IsOpenOnce :
    (p : AttendanceSession → Bool) (f : AttendanceSession → AttendanceSession)
    (xs : List AttendanceSession) (x : AttendanceSession)
    → find p xs ≡ some x
    → ((section : ℕ) → is_open section (f x) ≡ true → is_open section x ≡ true)
    → IsOpenOnce xs
    → IsOpenOnce (update_first p f xs)
change_session-IsOpenOnce p f xs x found kept once section =
    let change = count-update_first p (is_open section) f xs x found in
    let few = once section in
    elim (Bool-cases (is_open section (f x))) [
      | inl e ↦
          let now : one_if (is_open section (f x)) ≡ 1 = ap one_if e in
          let before : one_if (is_open section x) ≡ 1 = ap one_if (kept section e) in
          omega (arith, change, few, now, before)
      | inr e ↦
          let now : one_if (is_open section (f x)) ≡ 0 = ap one_if e in
          omega (arith, change, few, now)
    ]
