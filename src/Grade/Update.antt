-- ===== src/Grade/Update.antt =====
-- `updateGrades` of src/services/gradeCalculationService.js, on every branch.
use obs_system_backend_berka.Base.{
  ℕ, ◌≤◌, ◌≡◌, refl, inl, inr, true, false, ◌&&◌, some, List, arith, leb, ◌==◌, if◌then◌else◌,
  Bool-cases, find, update_where, ok, err, Double, whole, to_hundredths, ltb, ◌||◌,
}
use obs_system_backend_berka.Grade.{
  Enrollment, Grades, completed, failed, calculate_average_grade, calculate_letter_grade,
  get_grade_point, grade_row, is_above, is_invalid, validation_error, set_marks, is_some,
  update_grades,
}
use obs_system_backend_berka.Grade.Letters.{calculate_letter_grade_pass}

-- The status that the grade point decides is the one that the average decides.
passes_iff :
    (a : Double) → leb 10 (get_grade_point (calculate_letter_grade (some a))) ≡ leb (whole 60) a
passes_iff a =
    let bridge = calculate_letter_grade_pass a in
    elim (Bool-cases (leb (whole 60) a)) [
      | inl high ↦ rw high (lower (bridge.1 (ground arith)))
      | inr low ↦ rw low (higher (λ h. absurd (below (bridge.0 h) low)))
    ]
  where
    point : ℕ
    point = get_grade_point (calculate_letter_grade (some a))

    lower : 10 ≤ point → leb 10 point ≡ true
    lower h = ground arith

    higher : ¬ (10 ≤ point) → leb 10 point ≡ false
    higher h = ground arith

    below : whole 60 ≤ a → leb (whole 60) a ≡ false → ⊥
    below h e = ground arith

-- Once a midterm and a final mark are there: when a mark is above 100 the save throws and changes no
-- row, and otherwise the saved row carries the weighted average, rounded to two places, and the letter
-- and grade point of the average before it is rounded; it is completed exactly if that average, a
-- double, is 60 or more, and failed otherwise.
pub update_grades_graded :
    (id : ℕ) (g : Grades) (rows : List Enrollment) (e : Enrollment) (m f : ℕ)
    → find (λ (r : Enrollment). r.id == id) rows ≡ some e
    → (set_marks g e).midterm_grade ≡ some m
    → (set_marks g e).final_grade ≡ some f
    → let marked : Enrollment = set_marks g e in
      let average : Double = calculate_average_grade (some m) (some f) marked.homework_grade in
      let saved : Enrollment = record marked {
        status = if leb (whole 60) average then completed else failed;
        average_grade = some (to_hundredths average);
        letter_grade = calculate_letter_grade (some average);
        grade_point = some (get_grade_point (calculate_letter_grade (some average)));
      } in
      update_grades id g rows ≡ (
        if ltb 10000 m || ltb 10000 f || is_above marked.homework_grade
        then err validation_error
        else ok (saved, update_where (λ (r : Enrollment). r.id == id) (λ _. saved) rows))
unfolding update_grades grade_row
update_grades_graded id g rows e m f found mid fin =
    elim (Bool-cases (ltb 10000 m || ltb 10000 f || is_above (set_marks g e).homework_grade)) [
      | inl bad ↦ rw (found, update_grades, mid, fin, passes_iff, bad) refl
      | inr good ↦ rw (found, update_grades, mid, fin, passes_iff, good) refl
    ]

-- While a midterm or a final mark is missing, a mark above 100 makes the save throw, and otherwise the
-- saved row has the new marks and keeps its status, average, letter and grade point.
pub update_grades_partial :
    (id : ℕ) (g : Grades) (rows : List Enrollment) (e : Enrollment)
    → find (λ (r : Enrollment). r.id == id) rows ≡ some e
    → (is_some (set_marks g e).midterm_grade && is_some (set_marks g e).final_grade) ≡ false
    → update_grades id g rows ≡ (
        if is_invalid (set_marks g e)
        then err validation_error
        else ok (
          set_marks g e,
          update_where (λ (r : Enrollment). r.id == id) (λ _. set_marks g e) rows,
        ))
unfolding update_grades grade_row
update_grades_partial id g rows e found missing = elim (Bool-cases (is_invalid (set_marks g e))) [
  | inl bad ↦ rw (found, update_grades, missing, bad) refl
  | inr good ↦ rw (found, update_grades, missing, good) refl
]
