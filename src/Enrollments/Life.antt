-- ===== src/Enrollments/Life.antt =====
-- The life of an enrollment under the calls of src/services/enrollmentService.js.
use obs_system_backend_berka.Base.{
  ℕ, ◌+◌, ◌<◌, refl, inl, inr, Bool, List, [], ◌∷◌, arith, Option-cases, find, committed,
}
use obs_system_backend_berka.Grade.{pending}
use obs_system_backend_berka.School.{Enrollment, School}
use obs_system_backend_berka.Conflict.{section_by_id}
use obs_system_backend_berka.Enrollments.{
  is_repeat, get_previous_course_enrollment, new_enrollment, enroll_student,
  create_schedule_from_section, save_row, change_count, is_waiting, approved_row,
  approve_enrollment, rejected_row, reject_enrollment, is_droppable, dropped_row, drop_course,
}
use obs_system_backend_berka.Base.Keys.{Falls-mono, saved-Falls}
use obs_system_backend_berka.Enrollments.Seats.{Below, id_of}
use obs_system_backend_berka.Enrollments.Capacity.{create_schedule_from_section_keeps}
use obs_system_backend_berka.Enrollments.Calls.{
  Call, enroll, approve, reject, drop_section, plan, step, run,
}
use obs_system_backend_berka.Enrollments.Moves.{
  stay, History, filed, History-refl, History-trans, History-found, approved-IsLater,
  rejected-IsLater, dropped-IsLater,
}

-- What a call does to the enrollments.
abbrev Keeps : School → School → Type 0
Keeps s t = History s.enrollments t.enrollments

enroll_student-Keeps :
    (allow : Bool) (now student id : ℕ) (s : School)
    → Keeps s (committed s (enroll_student allow now student id s))
unfolding enroll_student
enroll_student-Keeps allow now student id s = elim (Option-cases (section_by_id s id)) [
  | inl e ↦ rw (e, enroll_student) (History-refl s.enrollments)
  | inr (x, e) ↦
      let repeat : Bool = is_repeat (get_previous_course_enrollment s student x.course_id) in
      let row : Enrollment = new_enrollment s.next_id student id now repeat in
      rw (e, enroll_student)
        (ground (
          arith,
          History-refl s.enrollments,
          filed row (stay pending) (History-refl s.enrollments),
        ))
]

approve_enrollment-Keeps :
    (now id faculty : ℕ) (s : School)
    → Below s.next_id s.enrollments
    → Keeps s (committed s (approve_enrollment now id faculty s))
unfolding approve_enrollment change_count
approve_enrollment-Keeps now id faculty s b =
    elim (Option-cases (find (is_waiting id) s.enrollments)) [
      | inl e ↦ rw (e, approve_enrollment) (History-refl s.enrollments)
      | inr (row, e) ↦
          let h =
            History-found (is_waiting id) (approved_row now faculty)
              (approved-IsLater now faculty id) s b e in
          let counted =
            change_count row.section_id (λ n. n + 1)
              (save_row row.id (approved_row now faculty) s) in
          let (_, same_rows, _) = create_schedule_from_section_keeps row.section_id counted in
          let done : Keeps s (create_schedule_from_section row.section_id counted) =
            rw same_rows h in
          rw (e, approve_enrollment) (ground (arith, done, History-refl s.enrollments))
    ]

reject_enrollment-Keeps :
    (id faculty : ℕ) (s : School)
    → Below s.next_id s.enrollments
    → Keeps s (committed s (reject_enrollment id faculty s))
unfolding reject_enrollment
reject_enrollment-Keeps id faculty s b = elim (Option-cases (find (is_waiting id) s.enrollments)) [
  | inl e ↦ rw (e, reject_enrollment) (History-refl s.enrollments)
  | inr (row, e) ↦
      let h =
        History-found (is_waiting id) (rejected_row faculty) (rejected-IsLater faculty id) s b e in
      rw (e, reject_enrollment) (ground (arith, h, History-refl s.enrollments))
]

drop_course-Keeps :
    (now id student : ℕ) (s : School)
    → Below s.next_id s.enrollments
    → Keeps s (committed s (drop_course now id student s))
unfolding drop_course change_count
drop_course-Keeps now id student s b =
    elim (Option-cases (find (is_droppable id student) s.enrollments)) [
      | inl e ↦ rw (e, drop_course) (History-refl s.enrollments)
      | inr (row, e) ↦
          let h =
            History-found (is_droppable id student) (dropped_row now)
              (dropped-IsLater now id student) s b e in
          rw (e, drop_course) (ground (arith, h, History-refl s.enrollments))
    ]

-- Ids keep falling along the table, below the counter.
abbrev FallsTo : School → Type 0
FallsTo s = Below s.next_id s.enrollments

enroll_student-FallsTo :
    (allow : Bool) (now student id : ℕ) (s : School)
    → FallsTo s
    → FallsTo (committed s (enroll_student allow now student id s))
unfolding enroll_student
enroll_student-FallsTo allow now student id s b = elim (Option-cases (section_by_id s id)) [
  | inl e ↦ rw (e, enroll_student) b
  | inr (x, e) ↦
      let more : s.next_id < s.next_id + 1 = omega arith in
      rw (e, enroll_student) (ground (arith, b, more))
]

approve_enrollment-FallsTo :
    (now id faculty : ℕ) (s : School)
    → FallsTo s
    → FallsTo (committed s (approve_enrollment now id faculty s))
unfolding approve_enrollment change_count save_row
approve_enrollment-FallsTo now id faculty s b =
    elim (Option-cases (find (is_waiting id) s.enrollments)) [
      | inl e ↦ rw (e, approve_enrollment) b
      | inr (row, e) ↦
          let f = approved_row now faculty in
          let saved = saved-Falls id_of f (λ z. refl) row.id s.next_id s.enrollments b in
          let counted = change_count row.section_id (λ n. n + 1) (save_row row.id f s) in
          let (_, same_rows, later) = create_schedule_from_section_keeps row.section_id counted in
          let done : FallsTo (create_schedule_from_section row.section_id counted) =
            rw same_rows (Falls-mono id_of s.next_id _ _ later saved) in
          rw (e, approve_enrollment) (ground (arith, done, b))
    ]

reject_enrollment-FallsTo :
    (id faculty : ℕ) (s : School)
    → FallsTo s
    → FallsTo (committed s (reject_enrollment id faculty s))
unfolding reject_enrollment save_row
reject_enrollment-FallsTo id faculty s b =
    elim (Option-cases (find (is_waiting id) s.enrollments)) [
      | inl e ↦ rw (e, reject_enrollment) b
      | inr (row, e) ↦
          let saved =
            saved-Falls id_of (rejected_row faculty) (λ z. refl) row.id s.next_id s.enrollments b in
          rw (e, reject_enrollment) (ground (arith, saved, b))
    ]

drop_course-FallsTo :
    (now id student : ℕ) (s : School)
    → FallsTo s
    → FallsTo (committed s (drop_course now id student s))
unfolding drop_course change_count save_row
drop_course-FallsTo now id student s b =
    elim (Option-cases (find (is_droppable id student) s.enrollments)) [
      | inl e ↦ rw (e, drop_course) b
      | inr (row, e) ↦
          let saved =
            saved-Falls id_of (dropped_row now) (λ z. refl) row.id s.next_id s.enrollments b in
          rw (e, drop_course) (ground (arith, saved, b))
    ]

step-FallsTo : (c : Call) (s : School) → FallsTo s → FallsTo (step c s)
unfolding step
step-FallsTo (enroll allow now student section) s b =
    enroll_student-FallsTo allow now student section s b
step-FallsTo (approve now id faculty) s b = approve_enrollment-FallsTo now id faculty s b
step-FallsTo (reject id faculty) s b = reject_enrollment-FallsTo id faculty s b
step-FallsTo (drop_section now id student) s b = drop_course-FallsTo now id student s b
step-FallsTo (plan id) s b =
    let (_, same_rows, later) = create_schedule_from_section_keeps id s in
    rw same_rows (Falls-mono id_of s.next_id _ s.enrollments later b)

step-Keeps : (c : Call) (s : School) → FallsTo s → Keeps s (step c s)
unfolding step
step-Keeps (enroll allow now student section) s b = enroll_student-Keeps allow now student section s
step-Keeps (approve now id faculty) s b = approve_enrollment-Keeps now id faculty s b
step-Keeps (reject id faculty) s b = reject_enrollment-Keeps id faculty s b
step-Keeps (drop_section now id student) s b = drop_course-Keeps now id student s b
step-Keeps (plan id) s b =
    let (_, same_rows, _) = create_schedule_from_section_keeps id s in
    rw same_rows (History-refl s.enrollments)

-- Where the ids of the enrollments are distinct (they fall along the table, below the next id): whatever
-- sequence of the enrollment service's five writing calls is made, no enrollment is deleted, none
-- changes its id, student, section or date, new ones start as pending, and a status only moves from
-- pending to enrolled or rejected and from enrolled to dropped.
pub run-History :
    (cs : List Call) (s : School)
    → Below s.next_id s.enrollments
    → History s.enrollments (run cs s).enrollments
unfolding run
run-History [] s b = History-refl s.enrollments
run-History (c ∷ cs) s b =
    History-trans (step-Keeps c s b) (run-History cs (step c s) (step-FallsTo c s b))
