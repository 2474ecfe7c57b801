-- ===== src/Enrollments/Calls.antt =====
-- Sequences of the calls of src/services/enrollmentService.js, each in one transaction.
use obs_system_backend_berka.Base.{
  ℕ, ◌+◌, ◌≡◌, inl, inr, Bool, List, [], ◌∷◌, arith, Option-cases, find, All-mono, committed,
}
use obs_system_backend_berka.School.{Section, School}
use obs_system_backend_berka.Conflict.{section_by_id}
use obs_system_backend_berka.Enrollments.{
  is_repeat, get_previous_course_enrollment, new_enrollment, enroll_student,
  create_schedule_from_section, save_row, change_count, is_waiting, approved_row,
  approve_enrollment, reject_enrollment, is_droppable, drop_course,
}
use obs_system_backend_berka.Enrollments.Seats.{seats}
use obs_system_backend_berka.Enrollments.Capacity.{
  IsSeated, create_schedule_from_section-IsSeated, approved-IsSeated, rejected-IsSeated,
  dropped-IsSeated,
}

-- A call, with the setting or the time that it reads.
pub data Call : Type 0 where
  enroll : Bool → ℕ → ℕ → ℕ → Call
  approve : ℕ → ℕ → ℕ → Call
  reject : ℕ → ℕ → Call
  drop_section : ℕ → ℕ → ℕ → Call
  plan : ℕ → Call

-- What the database holds after a call.
unfoldable pub step : Call → School → School
step (enroll allow now student section) s = committed s (enroll_student allow now student section s)
step (approve now id faculty) s = committed s (approve_enrollment now id faculty s)
step (reject id faculty) s = committed s (reject_enrollment id faculty s)
step (drop_section now id student) s = committed s (drop_course now id student s)
step (plan id) s = create_schedule_from_section id s

unfoldable pub run : List Call → School → School
run [] s = s
run (c ∷ cs) s = run cs (step c s)

-- A new request waits, so it takes no seat.
requested-IsSeated :
    (student section now : ℕ) (repeat : Bool) (s : School)
    → IsSeated s
    → IsSeated (record s {
      enrollments = new_enrollment s.next_id student section now repeat ∷ s.enrollments;
      next_id = s.next_id + 1;
    })
requested-IsSeated student section now repeat s v = record {
  counted =
      All-mono (λ (x : Section). x.enrolled_count ≡ seats x.id s.enrollments)
        (λ x.
          x.enrolled_count
          ≡ seats x.id (new_enrollment s.next_id student section now repeat ∷ s.enrollments))
        s.sections (λ x h. ground arith) v.counted;
  bounded = v.bounded;
  distinct = v.distinct;
  ids_fall = (omega arith, v.ids_fall);
}

enroll_student-IsSeated :
    (allow : Bool) (now student id : ℕ) (s : School)
    → IsSeated s
    → IsSeated (committed s (enroll_student allow now student id s))
unfolding enroll_student
enroll_student-IsSeated allow now student id s v = elim (Option-cases (section_by_id s id)) [
  | inl e ↦ rw (e, enroll_student) v
  | inr (x, e) ↦
      rw (e, enroll_student)
        (ground (
          arith,
          requested-IsSeated student id now
              (is_repeat (get_previous_course_enrollment s student x.course_id)) s v,
        ))
]

approve_enrollment-IsSeated :
    (now id faculty : ℕ) (s : School)
    → IsSeated s
    → IsSeated (committed s (approve_enrollment now id faculty s))
unfolding approve_enrollment
approve_enrollment-IsSeated now id faculty s v =
    elim (Option-cases (find (is_waiting id) s.enrollments)) [
      | inl e ↦ rw (e, approve_enrollment) v
      | inr (row, e) ↦ elim (Option-cases (section_by_id s row.section_id)) [
        | inl f ↦ rw (e, approve_enrollment) (rw f (ground arith))
        | inr (x, f) ↦
            rw (e, approve_enrollment)
              (rw f (
                ground (
                  arith,
                  approved-IsSeated now faculty id s v e f,
                  create_schedule_from_section-IsSeated row.section_id (
                      change_count row.section_id (λ n. n + 1)
                        (save_row row.id (approved_row now faculty) s)),
                )))
      ]
    ]

reject_enrollment-IsSeated :
    (id faculty : ℕ) (s : School)
    → IsSeated s
    → IsSeated (committed s (reject_enrollment id faculty s))
unfolding reject_enrollment
reject_enrollment-IsSeated id faculty s v =
    elim (Option-cases (find (is_waiting id) s.enrollments)) [
      | inl e ↦ rw (e, reject_enrollment) v
      | inr (row, e) ↦
          rw (e, reject_enrollment) (ground (arith, rejected-IsSeated faculty id s v e))
    ]

drop_course-IsSeated :
    (now id student : ℕ) (s : School)
    → IsSeated s
    → IsSeated (committed s (drop_course now id student s))
unfolding drop_course
drop_course-IsSeated now id student s v =
    elim (Option-cases (find (is_droppable id student) s.enrollments)) [
      | inl e ↦ rw (e, drop_course) v
      | inr (row, e) ↦ rw (e, drop_course) (ground (arith, dropped-IsSeated now id student s v e))
    ]

pub step-IsSeated : (c : Call) (s : School) → IsSeated s → IsSeated (step c s)
unfolding step
step-IsSeated (enroll allow now student section) s v =
    enroll_student-IsSeated allow now student section s v
step-IsSeated (approve now id faculty) s v = approve_enrollment-IsSeated now id faculty s v
step-IsSeated (reject id faculty) s v = reject_enrollment-IsSeated id faculty s v
step-IsSeated (drop_section now id student) s v = drop_course-IsSeated now id student s v
step-IsSeated (plan id) s v = create_schedule_from_section-IsSeated id s v

-- After any sequence of calls, each section's `enrolled_count` is the number of its enrolled students
-- and at most its capacity, if this held before.
pub run-IsSeated : (cs : List Call) (s : School) → IsSeated s → IsSeated (run cs s)
unfolding run
run-IsSeated [] s v = v
run-IsSeated (c ∷ cs) s v = run-IsSeated cs (step c s) (step-IsSeated c s v)
