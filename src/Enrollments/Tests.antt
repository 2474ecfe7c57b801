-- ===== src/Enrollments/Tests.antt =====
-- A section with one seat and two students, and the properties of the enrollment service at it.
use obs_system_backend_berka.Base.{
  ℕ, ◌≡◌, ◌↔◌, refl, true, false, some, List, [], ◌∷◌, arith, ok, err,
}
use obs_system_backend_berka.Grade.{fall}
use obs_system_backend_berka.School.{null_json, Section, Enrollment, School}
use obs_system_backend_berka.Prerequisite.{check_prerequisites, get_all_prerequisites}
use obs_system_backend_berka.Conflict.{check_schedule_conflict}
use obs_system_backend_berka.Enrollments.{
  other_section, new_enrollment, get_previous_course_enrollment, enroll_student, approve_enrollment,
  reject_enrollment, drop_course, create_schedule_from_section, save_row, change_count,
}
use obs_system_backend_berka.Enrollments.Eligibility.{
  eligibility_issues, check_enrollment_eligibility,
}
use obs_system_backend_berka.Enrollments.Capacity.{IsSeated}
use obs_system_backend_berka.Enrollments.Calls.{
  Call, enroll, approve, reject, drop_section, plan, step, run, run-IsSeated,
}
use obs_system_backend_berka.Enrollments.Offerings.{IsExclusive, run-IsExclusive}
use obs_system_backend_berka.Enrollments.Moves.{History}
use obs_system_backend_berka.Enrollments.Life.{run-History}
use obs_system_backend_berka.Enrollments.Admission.{IsAdmissible}
use obs_system_backend_berka.Enrollments.Request.{enroll_student_iff, enroll_student-eligible}

abbrev section : ℕ → Section
section id = record {
  id = id;
  course_id = 1;
  semester = fall;
  year = 2024;
  instructor_id = some 70;
  classroom_id = some 40;
  capacity = 1;
  enrolled_count = 0;
  schedule_json = null_json;
  is_active = true;
}

abbrev school : School
school = record {
  sections = section 11 ∷ section 12 ∷ [];
  enrollments = new_enrollment 20 8 12 0 false ∷ [];
  prerequisites = [];
  schedules = [];
  faculty = 70 ∷ [];
  classrooms = [];
  next_id = 30;
}

abbrev calls : List Call
calls =
    enroll false 5 9 11
    ∷ approve 6 30 70
    ∷ reject 20 70
    ∷ drop_section 7 30 9
    ∷ enroll false 8 9 11
    ∷ plan 11
    ∷ []

school-IsSeated : IsSeated school
school-IsSeated = record {
  counted = (refl, (refl, tt));
  bounded = (omega arith, (omega arith, tt));
  distinct = ((refl, tt), (tt, tt));
  ids_fall = (omega arith, tt);
}

run-calls : (run calls school).next_id ≡ 31
unfolding run step check_prerequisites get_all_prerequisites check_schedule_conflict enroll_student
    approve_enrollment reject_enrollment drop_course create_schedule_from_section save_row
    change_count get_previous_course_enrollment
run-calls = refl

run-IsSeated_example : IsSeated (run calls school)
run-IsSeated_example = run-IsSeated calls school school-IsSeated

run-IsExclusive_example : IsExclusive (run calls school)
run-IsExclusive_example = run-IsExclusive calls school school-IsSeated (tt, tt)

run-History_example : History school.enrollments (run calls school).enrollments
run-History_example = run-History calls school (omega arith, tt)

enroll_student_iff_example :
    ((row : Enrollment) × (t : School) × (enroll_student false 5 9 11 school ≡ ok (row, t)))
    ↔ ((x : Section) × IsAdmissible false school 9 11 x)
enroll_student_iff_example = enroll_student_iff false 5 9 11 school

-- Student 8 waits for section 12, which the eligibility check for section 11 does not see.
eligible_8 : check_enrollment_eligibility false 8 11 school ≡ ok []
unfolding check_prerequisites get_all_prerequisites check_schedule_conflict
    check_enrollment_eligibility eligibility_issues
eligible_8 = refl

enroll_student-eligible_example : enroll_student false 5 8 11 school ≡ err other_section
enroll_student-eligible_example =
    enroll_student-eligible false 5 8 11 school (section 11) refl eligible_8
