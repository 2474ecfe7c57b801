-- ===== src/Prerequisite.antt =====
-- src/services/prerequisiteService.js: the prerequisites of a course, nested ones included, and
-- whether a student has completed them.
pub mod Search
pub mod Closure
pub mod Grades
mod Tests
use obs_system_backend_berka.Base.{
  ℕ, zero, suc, ◌+◌, Bool, true, false, not, ◌&&◌, ◌||◌, Option, none, some, List, [], ◌∷◌, ◌++◌,
  leb, ◌==◌, if◌then◌else◌, find, filter, any, length,
}
use obs_system_backend_berka.Base.Int.{ℤ, pos, sub_ℕ, ltb_ℤ}
use obs_system_backend_berka.Grade.{Letter, aa, ba, bb, cb, cc_, dc, dd, fd, ff, Status, completed}
use obs_system_backend_berka.School.{
  Mark, graded, unknown_mark, Section, Enrollment, Prerequisite, School,
}

-- `visited.has(courseId)`
abbrev pub has : List ℕ → ℕ → Bool
has visited c = any (λ x. x == c) visited

-- `CoursePrerequisite.findAll({ where: { course_id } })`
abbrev pub direct : List Prerequisite → ℕ → List Prerequisite
direct table c = filter (λ (p : Prerequisite). p.course_id == c) table

-- The loop over the direct prerequisites, `rec` being the nested call.
unfoldable pub each_prerequisite :
    (ℕ → List ℕ → Option (List Prerequisite × List ℕ))
    → List Prerequisite
    → List ℕ
    → Option (List Prerequisite × List ℕ)
each_prerequisite rec [] visited = some ([], visited)
each_prerequisite rec (p ∷ ps) visited = elim (rec p.prerequisite_course_id visited) [
  | none ↦ none
  | some (nested, visited') ↦ elim (each_prerequisite rec ps visited') [
    | none ↦ none
    | some (rest, visited'') ↦ some (p ∷ (nested ++ rest), visited'')
  ]
]

-- `getAllPrerequisites`: the prerequisites found and the visited set after the call. `none` means
-- that the fuel has run out.
unfoldable pub get_all_prerequisites :
    List Prerequisite → ℕ → ℕ → List ℕ → Option (List Prerequisite × List ℕ)
get_all_prerequisites table zero c visited = none
get_all_prerequisites table (suc fuel) c visited =
    let found =
      each_prerequisite (get_all_prerequisites table fuel) (direct table c) (c ∷ visited) in
    if has visited c then some ([], visited) else found

-- Enough fuel for a table: one more than the courses that can be visited.
abbrev pub enough_fuel : List Prerequisite → ℕ
enough_fuel table = suc (suc (length table))

-- `gradeOrder.indexOf(grade)`, where an unknown grade is -1.
abbrev pub grade_index : Letter → ℕ
grade_index ff = 0
grade_index fd = 1
grade_index dd = 2
grade_index dc = 3
grade_index cc_ = 4
grade_index cb = 5
grade_index bb = 6
grade_index ba = 7
grade_index aa = 8

-- `gradeCompare`
unfoldable pub grade_compare : Mark → Mark → ℤ
grade_compare (graded a) (graded b) = sub_ℕ (grade_index a) (grade_index b)
grade_compare (graded a) unknown_mark = pos 0
grade_compare unknown_mark b = pos 0

abbrev pub is_completed : Status → Bool
is_completed completed = true
is_completed _ = false

abbrev pub has_mark : Option Mark → Bool
has_mark none = false
has_mark (some m) = true

-- The query of `hasCompletedCourse`; it has no order, and takes the first row of the table.
unfoldable pub completed_enrollment : School → ℕ → ℕ → Option Enrollment
completed_enrollment s student course =
    let sections = filter (λ (x : Section). x.course_id == course) s.sections in
    find
      (λ (e : Enrollment).
        (e.student_id == student)
        && (any (λ (x : Section). x.id == e.section_id) sections
            && (is_completed e.status && has_mark e.letter_grade)))
      s.enrollments

abbrev pub at_least : Option Mark → Mark → Bool
at_least none least = false
at_least (some m) least = not (ltb_ℤ (grade_compare m least) (pos 0))

-- `hasCompletedCourse`. (A course with no section has no enrollment either.)
pub has_completed_course : School → ℕ → ℕ → Mark → Bool
unfolding completed_enrollment grade_compare
has_completed_course s student course min_grade = elim (completed_enrollment s student course) [
  | none ↦ false
  | some e ↦ at_least e.letter_grade min_grade
]

-- `prereq.min_grade || 'DD'`
abbrev pub required_mark : Option Mark → Mark
required_mark none = graded dd
required_mark (some m) = m

abbrev pub is_missing : School → ℕ → Prerequisite → Bool
is_missing s student p =
    not (has_completed_course s student p.prerequisite_course_id (required_mark p.min_grade))

-- `checkPrerequisites`: the missing prerequisites; the course is open to the student if there are
-- none. `none` means that the fuel has run out.
unfoldable pub check_prerequisites : School → ℕ → ℕ → Option (List Prerequisite)
unfolding get_all_prerequisites each_prerequisite has_completed_course
check_prerequisites s student course =
    elim (get_all_prerequisites s.prerequisites (enough_fuel s.prerequisites) course []) [
      | none ↦ none
      | some (all, visited) ↦ some (filter (is_missing s student) all)
    ]
