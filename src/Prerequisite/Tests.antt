-- ===== src/Prerequisite/Tests.antt =====
-- Runs of the prerequisite check on a small catalogue with a cycle, and the properties at them.
use obs_system_backend_berka.Base.{
  ℕ, ◌≤◌, ◌≡◌, ◌↔◌, refl, true, false, none, some, List, [], ◌∷◌, In,
}
use obs_system_backend_berka.Grade.{Letter, cb, dc, grade_points, completed, fall}
use obs_system_backend_berka.School.{graded, null_json, Section, Enrollment, Prerequisite, School}
use obs_system_backend_berka.Prerequisite.{
  get_all_prerequisites, enough_fuel, completed_enrollment, has_completed_course, required_mark,
  check_prerequisites, each_prerequisite,
}
use obs_system_backend_berka.Prerequisite.Search.{Reach}
use obs_system_backend_berka.Prerequisite.Closure.{
  get_all_prerequisites_exact, check_prerequisites_exact,
}
use obs_system_backend_berka.Prerequisite.Grades.{has_completed_course_first}

abbrev needs : ℕ → ℕ → Prerequisite
needs c p = record { course_id = c; prerequisite_course_id = p; min_grade = none }

abbrev catalogue : List Prerequisite
catalogue = needs 3 2 ∷ needs 2 1 ∷ needs 1 3 ∷ needs 5 4 ∷ []

abbrev section : ℕ → ℕ → Section
section id course = record {
  id = id;
  course_id = course;
  semester = fall;
  year = 2024;
  instructor_id = some 70;
  classroom_id = none;
  capacity = 2;
  enrolled_count = 0;
  schedule_json = null_json;
  is_active = true;
}

abbrev passed : ℕ → ℕ → Letter → Enrollment
passed id section_id l = record {
  id = id;
  student_id = 9;
  section_id = section_id;
  status = completed;
  enrollment_date = 0;
  approval_date = none;
  approved_by = none;
  drop_date = none;
  letter_grade = some (graded l);
  is_repeat = false;
}

abbrev school : School
school = record {
  sections = section 11 1 ∷ section 12 2 ∷ [];
  enrollments = passed 21 11 dc ∷ passed 22 11 cb ∷ [];
  prerequisites = catalogue;
  schedules = [];
  faculty = 70 ∷ [];
  classrooms = [];
  next_id = 30;
}

search_runs :
    get_all_prerequisites catalogue (enough_fuel catalogue) 3 []
    ≡ some (needs 3 2 ∷ needs 2 1 ∷ needs 1 3 ∷ [], 1 ∷ 2 ∷ 3 ∷ [])
unfolding get_all_prerequisites each_prerequisite
search_runs = refl

check_runs : check_prerequisites school 9 2 ≡ some (needs 1 3 ∷ needs 3 2 ∷ [])
unfolding check_prerequisites
check_runs = refl

get_all_prerequisites_exact_example :
    (out : List Prerequisite) × (visited : List ℕ) × (get_all_prerequisites catalogue
        (enough_fuel catalogue)
        3
        []
      ≡ some (out, visited))
    × ((p : Prerequisite) → In p out ↔ (In p catalogue × Reach catalogue 3 p.course_id))
get_all_prerequisites_exact_example = get_all_prerequisites_exact catalogue 3

check_prerequisites_exact_example :
    (missing : List Prerequisite) × (check_prerequisites school 9 2 ≡ some missing)
    × ((p : Prerequisite)
        → In p missing ↔ (
            In p school.prerequisites
            × Reach school.prerequisites 2 p.course_id
            × (has_completed_course school 9 p.prerequisite_course_id (required_mark p.min_grade)
                ≡ false)))
check_prerequisites_exact_example = check_prerequisites_exact school 9 2

has_completed_course_first_example :
    (has_completed_course school 9 1 (graded cb) ≡ true) ↔ (grade_points cb ≤ grade_points dc)
unfolding completed_enrollment
has_completed_course_first_example =
    has_completed_course_first school 9 1 (passed 21 11 dc) dc cb refl refl
