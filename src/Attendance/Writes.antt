-- ===== src/Attendance/Writes.antt =====
-- Each write of src/services/attendanceService.js and src/controllers/excuseController.js to the
-- records and the requests, and what it keeps.
use obs_system_backend_berka.Base.{
  ℕ, ◌≤◌, ◌≡◌, refl, ap, ◌∙◌, inl, inr, Bool, true, false, ◌&&◌, Option, some, List, [], ◌∷◌, arith,
  ◌==◌, ==_iff, Bool-cases, find, any, count, find_holds, and_true, subst, Text,
}
use obs_system_backend_berka.Attendance.{
  AttendanceRecord, ExcuseRequest, approved, rejected, is_record_of,
}
use obs_system_backend_berka.Attendance.Report.{is_approved}
use obs_system_backend_berka.Attendance.Excuses.{
  update_first, is_excuse_of, review, reviewed, excused_row, excused_record, excuse_records,
}
use obs_system_backend_berka.Attendance.Settled.{
  IsSettled, is_attended, attended_of, approved_of, one_if, count_cons, count_none, count_mono,
  count-update_first, count-update_first-lt,
}

pub one_if_bound : (b : Bool) → one_if b ≤ 1
one_if_bound true = omega arith
one_if_bound false = omega arith

both_false : (b : Bool) → (b && false) ≡ false
both_false true = refl
both_false false = refl

attended-le :
    (a b : ℕ) (rs : List AttendanceRecord)
    → count (attended_of a b) rs ≤ count (is_record_of a b) rs
attended-le a b rs =
    count_mono (attended_of a b) (is_record_of a b) rs
      (λ r h. (and_true (is_record_of a b r) (is_attended r.status) h).0)

approved-le :
    (a b : ℕ) (es : List ExcuseRequest) → count (approved_of a b) es ≤ count (is_excuse_of a b) es
approved-le a b es =
    count_mono (approved_of a b) (is_excuse_of a b) es
      (λ e h. (and_true (is_excuse_of a b e) (is_approved e.status) h).0)

-- A test of the two keys, at keys that pass another.
at_keys : (P : ℕ → ℕ → Type 0) (x y a b : ℕ) → ((x == a) && (y == b)) ≡ true → P x y → P a b
at_keys P x y a b h p =
    let both = and_true (x == a) (y == b) h in
    subst (λ n. P a n) ((==_iff y b).0 both.1) (subst (λ n. P n y) ((==_iff x a).0 both.0) p)

any_row :
    {A : Type 0} (p : A → Bool) (xs : List A) → any p xs ≡ true → (x : A) × (find p xs ≡ some x)
any_row p [] h = cc
any_row p (x ∷ xs) h = elim (Bool-cases (p x)) [
  | inl e ↦ rw e (x, refl)
  | inr e ↦ rw e (any_row p xs (rw e at h))
]

pub new_record-IsSettled :
    (r : AttendanceRecord) (rs : List AttendanceRecord) (es : List ExcuseRequest)
    → any (is_record_of r.session_id r.student_id) rs ≡ false
    → IsSettled rs es
    → IsSettled (r ∷ rs) es
new_record-IsSettled r rs es fresh settled a b =
    let (one, single, apart, marked) = settled a b in
    elim (Bool-cases (is_record_of a b r)) [
      | inl e ↦
          let none_yet = count_none (is_record_of a b) rs (
            at_keys (λ x y. any (is_record_of x y) rs ≡ false) r.session_id r.student_id a b e
              fresh) in
          let records = count_cons (is_record_of a b) r rs in
          let attended = count_cons (attended_of a b) r rs in
          let bound = one_if_bound (is_record_of a b r) in
          let bound2 = one_if_bound (attended_of a b r) in
          let few = attended-le a b rs in
          (
            omega (arith, none_yet, records, bound),
            single,
            omega (arith, none_yet, attended, bound2, few, marked),
            omega (arith, none_yet, marked),
          )
      | inr e ↦ rw e (one, single, apart, marked)
    ]

pub new_excuse-IsSettled :
    (e : ExcuseRequest) (rs : List AttendanceRecord) (es : List ExcuseRequest)
    → any (is_excuse_of e.session_id e.student_id) es ≡ false
    → is_approved e.status ≡ false
    → IsSettled rs es
    → IsSettled rs (e ∷ es)
new_excuse-IsSettled e rs es fresh waits settled a b =
    let (one, single, apart, marked) = settled a b in
    elim (Bool-cases (is_excuse_of a b e)) [
      | inl h ↦
          let none_yet = count_none (is_excuse_of a b) es (
            at_keys (λ x y. any (is_excuse_of x y) es ≡ false) e.session_id e.student_id a b h
              fresh) in
          rw (h, waits) (one, omega (arith, none_yet), apart, marked)
      | inr h ↦ rw h (one, single, apart, marked)
    ]

pub reviewed_rejected-IsSettled :
    (faculty : Option ℕ) (now : ℕ) (notes : Option Text) (id : ℕ) (e : ExcuseRequest)
    (rs : List AttendanceRecord) (es : List ExcuseRequest)
    → find (λ (q : ExcuseRequest). q.id == id) es ≡ some e
    → is_approved e.status ≡ false
    → IsSettled rs es
    → IsSettled rs (reviewed rejected faculty now notes id es)
reviewed_rejected-IsSettled faculty now notes id e rs es found waits settled a b =
    let (one, single, apart, marked) = settled a b in
    let kept =
      count-update_first (λ (q : ExcuseRequest). q.id == id) (is_excuse_of a b)
        (review rejected faculty now notes) es e found in
    let same =
      count-update_first (λ (q : ExcuseRequest). q.id == id) (approved_of a b)
        (review rejected faculty now notes) es e found in
    let still = (rw (waits, both_false (is_excuse_of a b e)) at same) in
    (one, omega (arith, single, kept), omega (arith, apart, still), omega (arith, marked, still))

-- What approving a request leaves of the records of two keys: those of the request have one record, not
-- attended, and the others are as before.
abbrev Excused : ℕ → ℕ → List AttendanceRecord → List AttendanceRecord → Bool → Type 0
Excused a b rs after true =
    count (is_record_of a b) rs ≤ 1
    → (count (is_record_of a b) after ≡ 1) × (count (attended_of a b) after ≡ 0)
Excused a b rs after false =
    (count (is_record_of a b) after ≡ count (is_record_of a b) rs)
    × (count (attended_of a b) after ≡ count (attended_of a b) rs)

excused_record-Excused :
    (a b id now : ℕ) (e : ExcuseRequest) (rs : List AttendanceRecord)
    → any (is_record_of e.session_id e.student_id) rs ≡ false
    → Excused a b rs (excused_record id now e ∷ rs) (is_excuse_of a b e)
excused_record-Excused a b id now e rs fresh =
    let row = excused_record id now e in
    let records = count_cons (is_record_of a b) row rs in
    let attended = count_cons (attended_of a b) row rs in
    let miss : one_if (attended_of a b row) ≡ 0 = ap one_if (both_false (is_excuse_of a b e)) in
    elim (Bool-cases (is_excuse_of a b e)) [
      | inl h ↦
          let none_yet = count_none (is_record_of a b) rs (
            at_keys (λ x y. any (is_record_of x y) rs ≡ false) e.session_id e.student_id a b h
              fresh) in
          let few = attended-le a b rs in
          let hit : one_if (is_record_of a b row) ≡ 1 = ap one_if h in
          rw h (λ one.
            (omega (arith, none_yet, records, hit), omega (arith, none_yet, few, attended, miss)))
      | inr h ↦
          let other : one_if (is_record_of a b row) ≡ 0 = ap one_if h in
          rw h (omega (arith, records, other), omega (arith, attended, miss))
    ]

excused_row-Excused :
    (a b : ℕ) (e : ExcuseRequest) (rs : List AttendanceRecord) (r : AttendanceRecord)
    → find (is_record_of e.session_id e.student_id) rs ≡ some r
    → Excused a b rs
        (update_first (is_record_of e.session_id e.student_id) excused_row rs)
        (is_excuse_of a b e)
excused_row-Excused a b e rs r found =
    let p = is_record_of e.session_id e.student_id in
    let keys = find_holds p rs found in
    let same =
      at_keys (λ x y. is_record_of a b r ≡ ((x == a) && (y == b))) r.session_id r.student_id
        e.session_id e.student_id keys refl in
    let records = count-update_first p (is_record_of a b) excused_row rs r found in
    let attended = count-update_first p (attended_of a b) excused_row rs r found in
    let wider = λ (q : AttendanceRecord) (h : attended_of a b q ≡ true).
      (and_true (is_record_of a b q) (is_attended q.status) h).0 in
    elim (Bool-cases (is_excuse_of a b e)) [
      | inl h ↦
          let hit = same ∙ h in
          let fewer =
            count-update_first-lt p (attended_of a b) (is_record_of a b) excused_row rs r found hit
              (both_false (is_record_of a b r)) wider in
          rw h (λ one. (omega (arith, one, records, fewer), omega (arith, one, records, fewer)))
      | inr h ↦
          let miss = same ∙ h in
          let still = (rw miss at attended) in rw h (omega (arith, records), omega (arith, still))
    ]

excuse_records-Excused :
    (a b id now : ℕ) (e : ExcuseRequest) (rs : List AttendanceRecord)
    → Excused a b rs (excuse_records id now e rs) (is_excuse_of a b e)
excuse_records-Excused a b id now e rs =
    elim (Bool-cases (any (is_record_of e.session_id e.student_id) rs)) [
      | inl h ↦
          let (r, found) = any_row (is_record_of e.session_id e.student_id) rs h in
          rw h (excused_row-Excused a b e rs r found)
      | inr h ↦ rw h (excused_record-Excused a b id now e rs h)
    ]

pub reviewed_approved-IsSettled :
    (faculty : Option ℕ) (now next : ℕ) (notes : Option Text) (id : ℕ) (e : ExcuseRequest)
    (rs : List AttendanceRecord) (es : List ExcuseRequest)
    → find (λ (q : ExcuseRequest). q.id == id) es ≡ some e
    → is_approved e.status ≡ false
    → IsSettled rs es
    → IsSettled (excuse_records next now e rs) (reviewed approved faculty now notes id es)
reviewed_approved-IsSettled faculty now next notes id e rs es found waits settled a b =
    let (one, single, apart, marked) = settled a b in
    let after = reviewed approved faculty now notes id es in
    let kept =
      count-update_first (λ (q : ExcuseRequest). q.id == id) (is_excuse_of a b)
        (review approved faculty now notes) es e found in
    let more =
      count-update_first (λ (q : ExcuseRequest). q.id == id) (approved_of a b)
        (review approved faculty now notes) es e found in
    let few = approved-le a b after in
    let records = excuse_records-Excused a b next now e rs in
    elim (Bool-cases (is_excuse_of a b e)) [
      | inl h ↦
          let (there, apart_now) = (rw h at records) one in
          (
            omega (arith, there),
            omega (arith, single, kept),
            omega (arith, few, kept, single, apart_now),
            omega (arith, there, few, kept, single),
          )
      | inr h ↦
          let (there, attended) = (rw h at records) in
          let still = (rw h at more) in
          (
            omega (arith, there, one),
            omega (arith, single, kept),
            omega (arith, attended, still, apart),
            omega (arith, there, still, marked),
          )
    ]
