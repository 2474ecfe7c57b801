-- ===== src/Grade/Tests.antt =====
-- Runs of the grade calculation, and its properties at concrete rows.
use obs_system_backend_berka.Base.{
  ◌+◌, ◌≤◌, ◌≡◌, refl, true, false, none, some, List, [], ◌∷◌, arith, ◌==◌, update_where, filter,
  ok, err, of_ratio, times, plus, round_double, to_hundredths,
}
use obs_system_backend_berka.Grade.{
  mark_value, round_gpa, grade_row, validation_error, cb, fd, ff, fall, spring, completed, failed,
  enrolled, Enrollment, Grades, calculate_letter_grade, get_grade_point, calculate_average_grade,
  update_grades, counts_for_cgpa, calculate_cgpa,
}
use obs_system_backend_berka.Grade.Update.{update_grades_graded}
use obs_system_backend_berka.Grade.Points.{calculate_cgpa-le}
use obs_system_backend_berka.Grade.Semesters.{
  all_credits, failed_repeat_credits, listed_credits, calculate_cgpa_credits,
}

abbrev ungraded : Enrollment
ungraded = record {
  id = 1;
  student_id = 9;
  status = enrolled;
  midterm_grade = some 7000;
  final_grade = none;
  homework_grade = none;
  average_grade = none;
  letter_grade = none;
  grade_point = none;
  is_repeat = false;
  semester = fall;
  year = 2024;
  credits = 4;
}

abbrev rows : List Enrollment
rows =
    ungraded
    ∷ record ungraded { id = 2; status = completed; letter_grade = some cb; grade_point = some 25 }
    ∷ record ungraded {
      id = 3;
      status = failed;
      letter_grade = some ff;
      grade_point = some 0;
      is_repeat = true;
      semester = spring;
      credits = 3;
    }
    ∷ []

abbrev final_mark : Grades
final_mark = record { midterm = none; final = some (some 8000); homework = none }

abbrev midterm_mark : Grades
midterm_mark = record { midterm = some (some 5000); final = none; homework = none }

abbrev saved : Enrollment
saved = record ungraded {
  final_grade = some 8000;
  status = completed;
  average_grade = some 7600;
  letter_grade = some cb;
  grade_point = some 25;
}

cgpa_runs : (calculate_cgpa 9 rows).cgpa ≡ 250
unfolding calculate_cgpa round_gpa of_ratio round_double
cgpa_runs = refl

update_grades_graded_example :
    update_grades 1 final_mark rows
    ≡ ok (saved, update_where (λ (r : Enrollment). r.id == 1) (λ _. saved) rows)
unfolding calculate_average_grade calculate_letter_grade get_grade_point mark_value of_ratio times
    plus round_double to_hundredths
update_grades_graded_example =
    update_grades_graded 1 final_mark rows ungraded 7000 8000 refl refl refl

-- 0.4 times 4.5 and 0.6 times 97 are 60, but as doubles they are less: the course is failed, with an
-- average that is saved as 60.00.
abbrev sixty : Grades
sixty = record { midterm = some (some 450); final = some (some 9700); homework = none }

abbrev failed_sixty : Enrollment
failed_sixty = record ungraded {
  midterm_grade = some 450;
  final_grade = some 9700;
  status = failed;
  average_grade = some 6000;
  letter_grade = some fd;
  grade_point = some 5;
}

sixty_fails :
    update_grades 1 sixty rows
    ≡ ok (failed_sixty, update_where (λ (r : Enrollment). r.id == 1) (λ _. failed_sixty) rows)
unfolding update_grades grade_row calculate_average_grade calculate_letter_grade get_grade_point
    mark_value of_ratio times plus round_double to_hundredths
sixty_fails = refl

-- 501 points of 200 credits are 2.505, which toFixed writes as 2.50.
fixed_down : round_gpa 5010 200 ≡ 250
unfolding round_gpa of_ratio round_double
fixed_down = refl

-- 59.995 is saved as 60.00.
half_up : to_hundredths (of_ratio 59995 1000) ≡ 6000
unfolding to_hundredths of_ratio round_double
half_up = refl

-- 0.1 + 0.2 is not 0.3.
not_three_tenths : (plus (of_ratio 1 10) (of_ratio 2 10) == of_ratio 3 10) ≡ false
unfolding plus of_ratio round_double
not_three_tenths = refl

above_hundred :
    update_grades 1 (record final_mark { final = some (some 10001) }) rows ≡ err validation_error
unfolding update_grades grade_row
above_hundred = refl

calculate_cgpa-le_example : (calculate_cgpa 9 rows).cgpa ≤ 400
calculate_cgpa-le_example = calculate_cgpa-le 9 rows (omega arith)

calculate_cgpa_credits_example :
    let wanted : List Enrollment = filter (counts_for_cgpa 9) rows in
    let r = calculate_cgpa 9 rows in
    (listed_credits r.semesters ≡ all_credits wanted)
    × (r.total_credits + failed_repeat_credits wanted ≡ listed_credits r.semesters)
calculate_cgpa_credits_example = calculate_cgpa_credits 9 rows
