-- ===== src/Grade/Letters.antt =====
-- Letter grades: the scale of src/services/gradeCalculationService.js.
use obs_system_backend_berka.Base.{◌≤◌, ◌↔◌, some, arith, Double, whole}
use obs_system_backend_berka.Grade.{calculate_letter_grade, get_grade_point}

-- A better average never gives a lower grade point.
pub calculate_letter_grade_mono :
    (a b : Double)
    → a ≤ b
    → get_grade_point (calculate_letter_grade (some a))
      ≤ get_grade_point (calculate_letter_grade (some b))
unfolding calculate_letter_grade get_grade_point
calculate_letter_grade_mono a b h = ground arith

-- A grade point of 1.0, which completes the course, is reached exactly from an average of 60.
pub calculate_letter_grade_pass :
    (a : Double) → (10 ≤ get_grade_point (calculate_letter_grade (some a))) ↔ (whole 60 ≤ a)
unfolding calculate_letter_grade get_grade_point
calculate_letter_grade_pass a = ground arith
