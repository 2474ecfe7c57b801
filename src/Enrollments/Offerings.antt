-- ===== src/Enrollments/Offerings.antt =====
-- At most one open enrollment in a course and term, after any sequence of the calls of
-- src/services/enrollmentService.js.
use obs_system_backend_berka.Base.{
  ℕ, ◌+◌, ◌-◌, ◌≡◌, refl, inl, inr, Bool, true, some, List, [], ◌∷◌, arith, Bool-cases,
  Option-cases, find, find_holds, any, committed,
}
use obs_system_backend_berka.School.{Enrollment, School}
use obs_system_backend_berka.Conflict.{section_by_id}
use obs_system_backend_berka.Enrollments.{
  is_open, is_repeat, get_previous_course_enrollment, is_existing, in_other_section, enroll_student,
  create_schedule_from_section, save_row, change_count, is_waiting, approved_row,
  approve_enrollment, rejected_row, reject_enrollment, is_droppable, dropped_row, drop_course,
}
use obs_system_backend_berka.Enrollments.Seats.{Below}
use obs_system_backend_berka.Enrollments.Capacity.{IsSeated, create_schedule_from_section_keeps}
use obs_system_backend_berka.Enrollments.Single.{
  IsSingle, IsSingle-recount, IsSingle-saved, closed-IsLower, found-IsLower, requested-IsSingle,
}
use obs_system_backend_berka.Enrollments.Calls.{
  Call, enroll, approve, reject, drop_section, plan, step, run, step-IsSeated,
}

-- No student holds two open enrollments in one course and term.
abbrev pub IsExclusive : School → Type 0
IsExclusive s = IsSingle s.sections s.enrollments

create_schedule_from_section-IsExclusive :
    (id : ℕ) (s : School) → IsExclusive s → IsExclusive (create_schedule_from_section id s)
create_schedule_from_section-IsExclusive id s h =
    let (same_sections, same_rows, later) = create_schedule_from_section_keeps id s in
    rw (same_sections, same_rows) h

approved-IsExclusive :
    (now faculty id : ℕ) (s : School) {e : Enrollment}
    → Below s.next_id s.enrollments
    → find (is_waiting id) s.enrollments ≡ some e
    → IsExclusive s
    → IsExclusive
        (change_count e.section_id (λ n. n + 1) (save_row e.id (approved_row now faculty) s))
unfolding change_count save_row
approved-IsExclusive now faculty id s {e} b row h =
    IsSingle-recount e.section_id (λ n. n + 1) s.sections _
      (IsSingle-saved e.id (approved_row now faculty) s.sections s.enrollments
        (found-IsLower (is_waiting id) (approved_row now faculty) s.next_id s.enrollments b row
          (record { same_student = refl; same_section = refl; open_before = λ _. waits }))
        h)
  where
    waits : is_open e.status ≡ true
    waits = let w = find_holds (is_waiting id) s.enrollments row in ground (arith, w)

rejected-IsExclusive :
    (faculty id : ℕ) (s : School)
    → IsExclusive s
    → IsExclusive (save_row id (rejected_row faculty) s)
unfolding save_row
rejected-IsExclusive faculty id s h =
    IsSingle-saved id (rejected_row faculty) s.sections s.enrollments
      (closed-IsLower id (rejected_row faculty) s.enrollments
        (λ e. record { same_student = refl; same_section = refl; open_before = λ c. cc }))
      h

dropped-IsExclusive :
    (now id section : ℕ) (s : School)
    → IsExclusive s
    → IsExclusive (change_count section (λ n. n - 1) (save_row id (dropped_row now) s))
unfolding change_count save_row
dropped-IsExclusive now id section s h =
    IsSingle-recount section (λ n. n - 1) s.sections _
      (IsSingle-saved id (dropped_row now) s.sections s.enrollments
        (closed-IsLower id (dropped_row now) s.enrollments
          (λ e. record { same_student = refl; same_section = refl; open_before = λ c. cc }))
        h)

enroll_student-IsExclusive :
    (allow : Bool) (now student id : ℕ) (s : School)
    → IsExclusive s
    → IsExclusive (committed s (enroll_student allow now student id s))
unfolding enroll_student
enroll_student-IsExclusive allow now student id s v = elim (Option-cases (section_by_id s id)) [
  | inl e ↦ rw (e, enroll_student) v
  | inr (x, e) ↦
      let repeat : Bool = is_repeat (get_previous_course_enrollment s student x.course_id) in
      elim (Bool-cases (any (is_existing student id) s.enrollments)) [
        | inl a ↦ rw (e, enroll_student) (rw a (ground arith))
        | inr a ↦ elim (Bool-cases (any (in_other_section s student x) s.enrollments)) [
          | inl b ↦ rw (e, enroll_student) (rw (a, b) (ground arith))
          | inr b ↦
              rw (e, enroll_student)
                (rw (a, b) (ground (arith, requested-IsSingle s student id now repeat x e a b v)))
        ]
      ]
]

approve_enrollment-IsExclusive :
    (now id faculty : ℕ) (s : School)
    → Below s.next_id s.enrollments
    → IsExclusive s
    → IsExclusive (committed s (approve_enrollment now id faculty s))
unfolding approve_enrollment
approve_enrollment-IsExclusive now id faculty s b v =
    elim (Option-cases (find (is_waiting id) s.enrollments)) [
      | inl e ↦ rw (e, approve_enrollment) v
      | inr (row, e) ↦
          rw (e, approve_enrollment)
            (ground (
              arith,
              create_schedule_from_section-IsExclusive row.section_id
                  (change_count row.section_id (λ n. n + 1)
                    (save_row row.id (approved_row now faculty) s))
                  (approved-IsExclusive now faculty id s b e v),
            ))
    ]

reject_enrollment-IsExclusive :
    (id faculty : ℕ) (s : School)
    → IsExclusive s
    → IsExclusive (committed s (reject_enrollment id faculty s))
unfolding reject_enrollment
reject_enrollment-IsExclusive id faculty s v =
    elim (Option-cases (find (is_waiting id) s.enrollments)) [
      | inl e ↦ rw (e, reject_enrollment) v
      | inr (row, e) ↦
          rw (e, reject_enrollment) (ground (arith, rejected-IsExclusive faculty row.id s v))
    ]

drop_course-IsExclusive :
    (now id student : ℕ) (s : School)
    → IsExclusive s
    → IsExclusive (committed s (drop_course now id student s))
unfolding drop_course
drop_course-IsExclusive now id student s v =
    elim (Option-cases (find (is_droppable id student) s.enrollments)) [
      | inl e ↦ rw (e, drop_course) v
      | inr (row, e) ↦
          rw (e, drop_course) (ground (arith, dropped-IsExclusive now row.id row.section_id s v))
    ]

step-IsExclusive : (c : Call) (s : School) → IsSeated s → IsExclusive s → IsExclusive (step c s)
unfolding step
step-IsExclusive (enroll allow now student section) s v h =
    enroll_student-IsExclusive allow now student section s h
step-IsExclusive (approve now id faculty) s v h =
    approve_enrollment-IsExclusive now id faculty s v.ids_fall h
step-IsExclusive (reject id faculty) s v h = reject_enrollment-IsExclusive id faculty s h
step-IsExclusive (drop_section now id student) s v h = drop_course-IsExclusive now id student s h
step-IsExclusive (plan id) s v h = create_schedule_from_section-IsExclusive id s h

-- After any sequence of calls, no student has two pending or enrolled enrollments in sections of one
-- course in one term, nor in one section, if none had and the seats were counted before.
pub run-IsExclusive :
    (cs : List Call) (s : School) → IsSeated s → IsExclusive s → IsExclusive (run cs s)
unfolding run
run-IsExclusive [] s v h = h
run-IsExclusive (c ∷ cs) s v h =
    run-IsExclusive cs (step c s) (step-IsSeated c s v) (step-IsExclusive c s v h)
