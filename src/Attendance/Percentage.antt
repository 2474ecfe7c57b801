-- ===== src/Attendance/Percentage.antt =====
-- The attendance percentage of src/services/attendanceService.js.
use native.Mathlib.Nat.{div-lt_iff_lt-mul}
use obs_system_backend_berka.Base.{
  ℕ, suc, ◌+◌, ◌*◌, ◌≤◌, ◌<◌, ◌≡◌, refl, ap, ◌∙◌, ◌⊎◌, inl, inr, Bool, true, ◌&&◌, List, [], ◌∷◌,
  arith, ◌==◌, ==_iff, if◌then◌else◌, Bool-cases, length, filter, count, Empty, and_true,
}
use obs_system_backend_berka.Attendance.{
  AttendanceSession, AttendanceRecord, ExcuseRequest, Attendance, Presence, present, late, excused,
  absent,
}
use obs_system_backend_berka.Attendance.Report.{
  is_present, is_late, is_approved, is_session_of, is_record_in, is_excuse_in, section_sessions,
  percentage, stats_over, get_student_attendance_stats, Stats,
}
use obs_system_backend_berka.Attendance.Settled.{is_attended, attended_of, approved_of}
use obs_system_backend_berka.Attendance.Calls.{Call, run, run-AreSettled}
use obs_system_backend_berka.Attendance.Settles.{AreSettled}

-- A number for each session, added up.
abbrev sum_over : (ℕ → ℕ) → List AttendanceSession → ℕ
sum_over f [] = 0
sum_over f (x ∷ xs) = f x.id + sum_over f xs

sum_over-le_length :
    (f g : ℕ → ℕ) (xs : List AttendanceSession)
    → ((id : ℕ) → f id + g id ≤ 1)
    → sum_over f xs + sum_over g xs ≤ length xs
sum_over-le_length f g [] h = omega arith
sum_over-le_length f g (x ∷ xs) h = omega (arith, h x.id, sum_over-le_length f g xs h)

-- Rows that belong to sessions by `of`, the wanted ones to one of those listed.
module _ {A : Type 0} (of : ℕ → A → Bool) (wanted : A → Bool) where
  abbrev Belongs : A → List AttendanceSession → Type 0
  Belongs a [] = Empty
  Belongs a (x ∷ xs) = (of x.id a ≡ true) ⊎ Belongs a xs

  sum_over-more :
      (a : A) (rows : List A) (xs : List AttendanceSession)
      → sum_over (λ id. count (of id) rows) xs ≤ sum_over (λ id. count (of id) (a ∷ rows)) xs
  sum_over-more a rows [] = omega arith
  sum_over-more a rows (x ∷ xs) =
      let rest = sum_over-more a rows xs in
      elim (Bool-cases (of x.id a)) [
        | inl e ↦ rw e (omega (arith, rest))
        | inr e ↦ rw e (omega (arith, rest))
      ]

  sum_over-one_more :
      (a : A) (rows : List A) (xs : List AttendanceSession)
      → Belongs a xs
      → suc (sum_over (λ id. count (of id) rows) xs) ≤ sum_over (λ id. count (of id) (a ∷ rows)) xs
  sum_over-one_more a rows [] h = elim h [ ]
  sum_over-one_more a rows (x ∷ xs) (inl e) = rw e (omega (arith, sum_over-more a rows xs))
  sum_over-one_more a rows (x ∷ xs) (inr h) =
      let rest = sum_over-one_more a rows xs h in
      elim (Bool-cases (of x.id a)) [
        | inl e ↦ rw e (omega (arith, rest))
        | inr e ↦ rw e (omega (arith, rest))
      ]

  -- The wanted rows are at most the rows of the sessions together.
  count-le_sum :
      (xs : List AttendanceSession) (rows : List A)
      → ((a : A) → wanted a ≡ true → Belongs a xs)
      → count wanted rows ≤ sum_over (λ id. count (of id) rows) xs
  count-le_sum xs [] h = omega arith
  count-le_sum xs (a ∷ rows) h =
      let rest = count-le_sum xs rows h in
      elim (Bool-cases (wanted a)) [
        | inl e ↦ rw e (omega (arith, rest, sum_over-one_more a rows xs (h a e)))
        | inr e ↦ rw e (omega (arith, rest, sum_over-more a rows xs))
      ]

-- A record that is present or late counts as attended.
count-present_late :
    (q : AttendanceRecord → Bool) (rows : List AttendanceRecord)
    → count (λ (r : AttendanceRecord). is_present r.status) (filter q rows)
        + count (λ (r : AttendanceRecord). is_late r.status) (filter q rows)
      ≤ count (λ (r : AttendanceRecord). q r && is_attended r.status) rows
count-present_late q [] = omega arith
count-present_late q (r ∷ rs) = elim (Bool-cases (q r)) [
  | inl e ↦ rw e (one r.status _ _ _ (count-present_late q rs))
  | inr e ↦ rw e (count-present_late q rs)
]
  where
    one :
        (p : Presence) (m n k : ℕ)
        → m + n ≤ k
        → (if is_present p then suc m else m) + (if is_late p then suc n else n)
          ≤ (if is_attended p then suc k else k)
    one present m n k h = omega arith
    one late m n k h = omega arith
    one excused m n k h = omega arith
    one absent m n k h = omega arith

module _ {A : Type 0} (of : ℕ → A → Bool) (wanted : A → Bool) where
  Belongs-is_session_of :
      (a : A) (id : ℕ) (xs : List AttendanceSession)
      → of id a ≡ true
      → is_session_of xs id ≡ true
      → Belongs of wanted a xs
  Belongs-is_session_of a id [] h e = cc
  Belongs-is_session_of a id (x ∷ xs) h e = elim (Bool-cases (x.id == id)) [
    | inl f ↦ inl (ap (λ n. of n a) ((==_iff x.id id).0 f) ∙ h)
    | inr f ↦ inr (Belongs-is_session_of a id xs h (rw f at e))
  ]

itself : (n : ℕ) → (n == n) ≡ true
itself n = (==_iff n n).1 refl

abbrev counted_in : List AttendanceSession → ℕ → AttendanceRecord → Bool
counted_in xs student r = is_record_in xs student r && is_attended r.status

record-Belongs :
    (student : ℕ) (xs : List AttendanceSession) (r : AttendanceRecord)
    → counted_in xs student r ≡ true
    → Belongs (λ id. attended_of id student) (counted_in xs student) r xs
record-Belongs student xs r h =
    let counts = and_true (is_record_in xs student r) (is_attended r.status) h in
    let both = and_true (r.student_id == student) (is_session_of xs r.session_id) counts.0 in
    Belongs-is_session_of (λ id. attended_of id student) (counted_in xs student) r r.session_id xs
      (rw (itself r.session_id, both.0) counts.1) both.1

excuse-Belongs :
    (student : ℕ) (xs : List AttendanceSession) (e : ExcuseRequest)
    → is_excuse_in xs student e ≡ true
    → Belongs (λ id. approved_of id student) (is_excuse_in xs student) e xs
excuse-Belongs student xs e h =
    let both = and_true (e.student_id == student) _ h in
    let more = and_true (is_session_of xs e.session_id) (is_approved e.status) both.1 in
    Belongs-is_session_of (λ id. approved_of id student) (is_excuse_in xs student) e e.session_id xs
      (rw (itself e.session_id, both.0) more.1) more.0

percentage-le_hundred : (n total : ℕ) → 1 ≤ total → n ≤ total → percentage n total ≤ 100
percentage-le_hundred n total some_sessions few =
    let positive : 0 < 2 * total = omega arith in
    let small : 200 * n + total < 101 * (2 * total) = omega arith in
    let below = (div-lt_iff_lt-mul positive).1 small in omega (arith, below)

abbrev IsSensible : Stats → Type 0
IsSensible t = (t.present + t.late + t.excused ≤ t.total_sessions) × (t.attendance_percentage ≤ 100)

stats_over-IsSensible :
    (xs : List AttendanceSession) (student : ℕ) (s : Attendance)
    → AreSettled s
    → IsSensible (stats_over xs student s)
stats_over-IsSensible [] student s settled = (omega arith, omega arith)
stats_over-IsSensible (x ∷ xs) student s settled =
    let ys = x ∷ xs in
    let records =
      count-le_sum (λ id. attended_of id student) (counted_in ys student) ys s.records
        (record-Belongs student ys) in
    let excuses =
      count-le_sum (λ id. approved_of id student) (is_excuse_in ys student) ys s.excuses
        (excuse-Belongs student ys) in
    let slots =
      sum_over-le_length (λ id. count (attended_of id student) s.records)
        (λ id. count (approved_of id student) s.excuses) ys
        (λ id. let (one, single, apart, marked) = settled.0 id student in apart) in
    let seen = count-present_late (is_record_in ys student) s.records in
    let few : count (λ (r : AttendanceRecord). is_present r.status)
            (filter (is_record_in ys student) s.records)
          + count (λ (r : AttendanceRecord). is_late r.status)
              (filter (is_record_in ys student) s.records)
          + count (is_excuse_in ys student) s.excuses
        ≤ length ys =
      omega (arith, records, excuses, slots, seen) in
    (few, percentage-le_hundred _ (length ys) (omega arith) few)

-- After any sequence of calls that open and close sessions, check in, ask to be excused and decide, from
-- tables where a section has at most one active session, each student
-- has at most one record of a session and one request for it, and an approved request only with a
-- record that does not count as attended: the sessions attended in time, late and excused are together
-- at most the sessions that count, so no absence is negative, and the percentage is at most 100.
pub get_student_attendance_stats-run :
    (cs : List Call) (s : Attendance) (student section : ℕ)
    → AreSettled s
    → let t : Stats = get_student_attendance_stats student section (run cs s) in
      (t.present + t.late + t.excused ≤ t.total_sessions) × (t.attendance_percentage ≤ 100)
unfolding get_student_attendance_stats
get_student_attendance_stats-run cs s student section settled =
    let t = run cs s in
    stats_over-IsSensible (section_sessions section t.sessions) student t
      (run-AreSettled cs s settled)
