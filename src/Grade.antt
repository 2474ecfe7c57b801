-- ===== src/Grade.antt =====
-- src/services/gradeCalculationService.js over the grade columns of src/models/Enrollment.js.
-- Marks are hundredths of a point (DECIMAL(5, 2)), and the weighted average of marks is a double, as in
-- the source. Grade points are tenths and grade point averages are hundredths.
pub mod Letters
pub mod Update
pub mod Points
pub mod Semesters
mod Tests
use obs_system_backend_berka.Base.{
  ℕ, ◌+◌, ◌-◌, ◌*◌, ◌/◌, Bool, true, false, not, ◌&&◌, ◌||◌, Option, none, some, List, [], ◌∷◌, ltb,
  leb, ◌==◌, if◌then◌else◌, Result, ok, err, ◌>>=◌, ◌>>◌, throw_if, or_throw, Double, whole,
  of_ratio, times, plus, to_fixed, to_hundredths, find, filter, update_where,
}

pub data Letter : Type 0 where
  aa ba bb cb cc_ dc dd fd ff : Letter

pub data Status : Type 0 where
  pending enrolled dropped completed failed withdrawn rejected : Status

pub data Semester : Type 0 where
  spring summer fall : Semester

-- `calculateLetterGrade`
unfoldable pub calculate_letter_grade : Option Double → Option Letter
calculate_letter_grade none = none
calculate_letter_grade (some avg) = some (
    if leb (whole 90) avg
    then aa
    else if leb (whole 85) avg
    then ba
    else if leb (whole 80) avg
    then bb
    else if leb (whole 75) avg
    then cb
    else if leb (whole 70) avg
    then cc_
    else if leb (whole 65) avg
    then dc
    else if leb (whole 60) avg
    then dd
    else if leb (whole 50) avg
    then fd
    else ff)

-- `gradePoints`, in tenths. The key 'NA', which no code sets, has the 0 of a grade that is missing.
abbrev pub grade_points : Letter → ℕ
grade_points aa = 40
grade_points ba = 35
grade_points bb = 30
grade_points cb = 25
grade_points cc_ = 20
grade_points dc = 15
grade_points dd = 10
grade_points fd = 5
grade_points ff = 0

-- `getGradePoint`: a grade that is missing counts 0.
unfoldable pub get_grade_point : Option Letter → ℕ
get_grade_point none = 0
get_grade_point (some l) = grade_points l

-- `mark || 0`
abbrev pub or_zero : Option ℕ → ℕ
or_zero none = 0
or_zero (some n) = n

-- The double that a mark is read as.
unfoldable pub mark_value : Option ℕ → Double
mark_value mark = of_ratio (or_zero mark) 100

-- `calculateAverageGrade` with the default weights: 30 % midterm, 50 % final and 20 % homework, or
-- 40 % and 60 % where there is no homework.
unfoldable pub calculate_average_grade : Option ℕ → Option ℕ → Option ℕ → Double
calculate_average_grade midterm final none =
    plus (times (mark_value midterm) (of_ratio 4 10)) (times (mark_value final) (of_ratio 6 10))
calculate_average_grade midterm final (some homework) =
    plus
      (plus (times (mark_value midterm) (of_ratio 3 10)) (times (mark_value final) (of_ratio 5 10)))
      (times (mark_value (some homework)) (of_ratio 2 10))

-- A row of the enrollments table, with the section's term and the course's credits that the queries
-- join to it.
pub record Enrollment : Type 0 where
  pub id : ℕ
  pub student_id : ℕ
  pub status : Status
  pub midterm_grade : Option ℕ
  pub final_grade : Option ℕ
  pub homework_grade : Option ℕ
  pub average_grade : Option ℕ
  pub letter_grade : Option Letter
  pub grade_point : Option ℕ
  pub is_repeat : Bool
  pub semester : Semester
  pub year : ℕ
  pub credits : ℕ

-- The marks of a request: `none` is `undefined`, which leaves the mark, and `some none` is null.
pub record Grades : Type 0 where
  pub midterm : Option (Option ℕ)
  pub final : Option (Option ℕ)
  pub homework : Option (Option ℕ)

abbrev pub if_given : Option (Option ℕ) → Option ℕ → Option ℕ
if_given none old = old
if_given (some new) old = new

abbrev pub set_marks : Grades → Enrollment → Enrollment
set_marks g e = record e {
  midterm_grade = if_given g.midterm e.midterm_grade;
  final_grade = if_given g.final e.final_grade;
  homework_grade = if_given g.homework e.homework_grade;
}

abbrev pub is_some : Option ℕ → Bool
is_some none = false
is_some (some n) = true

-- The average, the letter, the grade point and the status that follow from the marks, as the table
-- keeps them: the letter is of the average before it is rounded to two places.
unfoldable pub grade_row : Enrollment → Enrollment
grade_row e =
    let average : Double = calculate_average_grade e.midterm_grade e.final_grade e.homework_grade in
    let letter : Option Letter = calculate_letter_grade (some average) in
    let point : ℕ = get_grade_point letter in
    if is_some e.midterm_grade && is_some e.final_grade
    then record e {
      status = if leb 10 point then completed else failed;
      average_grade = some (to_hundredths average);
      letter_grade = letter;
      grade_point = some point;
    }
    else e

pub data Error : Type 0 where
  enrollment_not_found validation_error : Error

-- A mark above 100. A negative mark, which `save` refuses in the same way, is left aside.
abbrev pub is_above : Option ℕ → Bool
is_above none = false
is_above (some mark) = ltb 10000 mark

-- `validate: { min: 0, max: 100 }` of the three marks.
abbrev pub is_invalid : Enrollment → Bool
is_invalid e = is_above e.midterm_grade || is_above e.final_grade || is_above e.homework_grade

-- `updateGrades`: the row that `save` writes.
pub update_grades : ℕ → Grades → List Enrollment → Result Error (Enrollment × List Enrollment)
unfolding grade_row
update_grades id grades rows = do
  e ← or_throw (find (λ (r : Enrollment). r.id == id) rows) enrollment_not_found
  let saved : Enrollment = grade_row (set_marks grades e)
  throw_if (is_invalid saved) validation_error
  ok (saved, update_where (λ (r : Enrollment). r.id == id) (λ _. saved) rows)

-- `parseFloat((points / credits).toFixed(2))`, in hundredths: points are tenths times credits. Grade
-- points are halves, so the sums are exact and the quotient is the double nearest to the fraction. No
-- credits give 0.
unfoldable pub round_gpa : ℕ → ℕ → ℕ
round_gpa points credits = if ltb 0 credits then to_fixed (of_ratio points (10 * credits)) else 0

abbrev pub is_graded : Status → Bool
is_graded completed = true
is_graded failed = true
is_graded _ = false

abbrev pub same_semester : Semester → Semester → Bool
same_semester spring spring = true
same_semester summer summer = true
same_semester fall fall = true
same_semester _ _ = false

-- What a loop over enrollments has added up.
pub record Totals : Type 0 where
  pub points : ℕ
  pub credits : ℕ

abbrev pub no_totals : Totals
no_totals = record { points = 0; credits = 0 }

abbrev pub add_course : ℕ → ℕ → Totals → Totals
add_course point credits t = record {
  points = t.points + point * credits;
  credits = t.credits + credits;
}

-- The loop of `calculateSemesterGPA`: rows with no grade point are passed over.
unfoldable pub semester_totals : List Enrollment → Totals → Totals
semester_totals [] t = t
semester_totals (e ∷ es) t =
    semester_totals es (elim e.grade_point [ none ↦ t | some p ↦ add_course p e.credits t ])

-- `calculateSemesterGPA`: the average of one term and its credits.
pub calculate_semester_gpa : ℕ → Semester → ℕ → List Enrollment → ℕ × ℕ
unfolding semester_totals round_gpa
calculate_semester_gpa student semester year rows =
    let wanted : List Enrollment =
      filter
        (λ (e : Enrollment).
          (e.student_id == student)
          && (is_graded e.status && (same_semester e.semester semester && (e.year == year))))
        rows in
    let t : Totals = semester_totals wanted no_totals in (round_gpa t.points t.credits, t.credits)

-- The query of `calculateCGPA`.
abbrev pub counts_for_cgpa : ℕ → Enrollment → Bool
counts_for_cgpa student e =
    (e.student_id == student) && (is_graded e.status && is_some e.grade_point)

-- The loop of `calculateCGPA`: a repeated course counts only with a grade point above 0.
unfoldable pub cgpa_totals : List Enrollment → Totals → Totals
cgpa_totals [] t = t
cgpa_totals (e ∷ es) t = cgpa_totals es (
    if not e.is_repeat || ltb 0 (or_zero e.grade_point)
    then add_course (or_zero e.grade_point) e.credits t
    else t)

-- One entry of `semesterMap`.
pub record SemesterTotals : Type 0 where
  pub semester : Semester
  pub year : ℕ
  pub totals : Totals

abbrev pub same_term : Enrollment → SemesterTotals → Bool
same_term e s = same_semester e.semester s.semester && (e.year == s.year)

-- `semesterMap.get(key)`, with the entry that `set` makes for a new key, at the end.
unfoldable pub add_to_semester : Enrollment → List SemesterTotals → List SemesterTotals
add_to_semester e [] =
    record {
      semester = e.semester;
      year = e.year;
      totals = add_course (or_zero e.grade_point) e.credits no_totals;
    }
    ∷ []
add_to_semester e (s ∷ ss) =
    if same_term e s
    then record s { totals = add_course (or_zero e.grade_point) e.credits s.totals } ∷ ss
    else s ∷ add_to_semester e ss

unfoldable pub semester_map : List Enrollment → List SemesterTotals → List SemesterTotals
semester_map [] m = m
semester_map (e ∷ es) m = semester_map es (add_to_semester e m)

abbrev pub sem_order : Semester → ℕ
sem_order spring = 1
sem_order summer = 2
sem_order fall = 3

-- The comparison of `semesters.sort`: by year, then by term.
abbrev pub not_after : SemesterTotals → SemesterTotals → Bool
not_after a b =
    ltb a.year b.year || ((a.year == b.year) && leb (sem_order a.semester) (sem_order b.semester))

insert_semester : SemesterTotals → List SemesterTotals → List SemesterTotals
insert_semester s [] = s ∷ []
insert_semester s (t ∷ ts) = if not_after s t then s ∷ t ∷ ts else t ∷ insert_semester s ts

-- `semesters.sort`: JavaScript's sort is stable, and so is this one.
sort_semesters : List SemesterTotals → List SemesterTotals
unfolding insert_semester
sort_semesters [] = []
sort_semesters (s ∷ ss) = insert_semester s (sort_semesters ss)

pub record Cgpa : Type 0 where
  pub cgpa : ℕ
  pub total_credits : ℕ
  pub semesters : List SemesterTotals

-- `calculateCGPA`
pub calculate_cgpa : ℕ → List Enrollment → Cgpa
unfolding cgpa_totals semester_map add_to_semester sort_semesters round_gpa
calculate_cgpa student rows =
    let wanted : List Enrollment = filter (counts_for_cgpa student) rows in
    let t : Totals = cgpa_totals wanted no_totals in
    record {
      cgpa = round_gpa t.points t.credits;
      total_credits = t.credits;
      semesters = sort_semesters (semester_map wanted []);
    }
