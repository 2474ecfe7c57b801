-- ===== src/Prerequisite/Grades.antt =====
-- The comparison of letter grades in src/services/prerequisiteService.js against the grade points of
-- src/services/gradeCalculationService.js.
use obs_system_backend_berka.Base.{ℕ, ◌*◌, ◌≤◌, ◌≡◌, ◌↔◌, refl, true, not, some, arith}
use obs_system_backend_berka.Base.Int.{ℤ, pos, ltb_ℤ, ◌≤ℤ◌}
use obs_system_backend_berka.Grade.{Letter, aa, ba, bb, cb, cc_, dc, dd, fd, ff, grade_points}
use obs_system_backend_berka.School.{graded, Enrollment, School}
use obs_system_backend_berka.Prerequisite.{
  grade_index, grade_compare, completed_enrollment, has_completed_course,
}

points-index : (l : Letter) → grade_points l ≡ 5 * grade_index l
points-index aa = refl
points-index ba = refl
points-index bb = refl
points-index cb = refl
points-index cc_ = refl
points-index dc = refl
points-index dd = refl
points-index fd = refl
points-index ff = refl

index-points : (a b : Letter) → (grade_index b ≤ grade_index a) ↔ (grade_points b ≤ grade_points a)
index-points a b = (
  λ h. omega (arith, points-index a, points-index b),
  λ h. omega (arith, points-index a, points-index b),
)

-- The order of letter grades in the prerequisite check is the order of their grade points.
pub grade_compare-grade_points :
    (a b : Letter)
    → (pos 0 ≤ℤ grade_compare (graded a) (graded b)) ↔ (grade_points b ≤ grade_points a)
unfolding grade_compare
grade_compare-grade_points a b = (
  λ h. (index-points a b).0 (ground arith),
  λ h. let k : grade_index b ≤ grade_index a = (index-points a b).1 h in ground arith,
)

nonneg_iff : (z : ℤ) → (not (ltb_ℤ z (pos 0)) ≡ true) ↔ (pos 0 ≤ℤ z)
nonneg_iff z = ground arith

-- The first completed enrollment of the course alone decides: the course counts as completed exactly
-- when its grade has at least the required grade's points, whatever later enrollments earned.
pub has_completed_course_first :
    (s : School) (student course : ℕ) (e : Enrollment) (a b : Letter)
    → completed_enrollment s student course ≡ some e
    → e.letter_grade ≡ some (graded a)
    → (has_completed_course s student course (graded b) ≡ true) ↔ (grade_points b ≤ grade_points a)
unfolding has_completed_course
has_completed_course_first s student course e a b found mark =
    let order = grade_compare-grade_points a b in
    let test = nonneg_iff (grade_compare (graded a) (graded b)) in
    rw (found, has_completed_course) (rw mark (λ h. order.0 (test.0 h), λ h. test.1 (order.1 h)))
