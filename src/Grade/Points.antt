-- ===== src/Grade/Points.antt =====
-- The grade point averages of src/services/gradeCalculationService.js.
use native.Mathlib.Nat.{div-lt_iff_lt-mul}
use obs_system_backend_berka.Base.{
  ℕ, ◌+◌, ◌*◌, ◌≤◌, ◌<◌, inl, inr, Bool, not, ◌||◌, List, [], ◌∷◌, arith, ltb, Bool-cases,
  Option-cases, filter, All, to_fixed, of_ratio, scale,
}
use obs_system_backend_berka.Base.Rounding.{of_ratio-le}
use obs_system_backend_berka.Grade.{
  Enrollment, Semester, Totals, no_totals, add_course, or_zero, round_gpa, semester_totals,
  calculate_semester_gpa, cgpa_totals, calculate_cgpa,
}

-- The grade point of a row is at most 4.0.
abbrev pub IsScaled : Enrollment → Type 0
IsScaled e = or_zero e.grade_point ≤ 40

abbrev IsBounded : Totals → Type 0
IsBounded t = t.points ≤ 40 * t.credits

All-filter :
    (p : Enrollment → Bool) (es : List Enrollment) → All IsScaled es → All IsScaled (filter p es)
All-filter p [] h = tt
All-filter p (e ∷ es) h = ground (arith, All-filter p es h.1)

add_course-IsBounded : (p c : ℕ) (t : Totals) → p ≤ 40 → IsBounded t → IsBounded (add_course p c t)
add_course-IsBounded p c t h b = grind arith

round_gpa-le : (points credits : ℕ) → points ≤ 40 * credits → round_gpa points credits ≤ 400
unfolding round_gpa
round_gpa-le points credits h = elim (Bool-cases (ltb 0 credits)) [
  | inl some_credits ↦
      let positive : 0 < 10 * credits = ground arith in
      let small = of_ratio-le points (10 * credits) positive (omega (arith, h)) in
      let below : to_fixed (of_ratio points (10 * credits)) < 401 =
        (div-lt_iff_lt-mul {k = 2 * scale} {x = 200 * of_ratio points (10 * credits) + scale}
            {y = 401} (omega arith)).1
          (omega (arith, small)) in
      rw some_credits (omega (arith, below))
  | inr none_yet ↦ rw none_yet (omega arith)
]

semester_totals-IsBounded :
    (es : List Enrollment) (t : Totals)
    → All IsScaled es
    → IsBounded t
    → IsBounded (semester_totals es t)
unfolding semester_totals
semester_totals-IsBounded [] t h b = b
semester_totals-IsBounded (e ∷ es) t h b = elim (Option-cases e.grade_point) [
  | inl missing ↦ rw (missing, semester_totals) (semester_totals-IsBounded es t h.1 b)
  | inr (p, is) ↦
      rw (is, semester_totals)
        (semester_totals-IsBounded es (add_course p e.credits t) h.1
          (add_course-IsBounded p e.credits t (ground arith) b))
]

-- Where no row's grade point is above 4.0, a term's average is at most 4.00.
pub calculate_semester_gpa-le :
    (student : ℕ) (semester : Semester) (year : ℕ) (rows : List Enrollment)
    → All IsScaled rows
    → (calculate_semester_gpa student semester year rows).0 ≤ 400
unfolding calculate_semester_gpa
calculate_semester_gpa-le student semester year rows h =
    round_gpa-le _ _ (semester_totals-IsBounded _ no_totals (All-filter _ rows h) (omega arith))

cgpa_totals-IsBounded :
    (es : List Enrollment) (t : Totals)
    → All IsScaled es
    → IsBounded t
    → IsBounded (cgpa_totals es t)
unfolding cgpa_totals
cgpa_totals-IsBounded [] t h b = b
cgpa_totals-IsBounded (e ∷ es) t h b =
    elim (Bool-cases (not e.is_repeat || ltb 0 (or_zero e.grade_point))) [
      | inl counted ↦
          rw (counted, cgpa_totals)
            (cgpa_totals-IsBounded es _ h.1 (add_course-IsBounded _ e.credits t h.0 b))
      | inr passed ↦ rw (passed, cgpa_totals) (cgpa_totals-IsBounded es t h.1 b)
    ]

-- Where no row's grade point is above 4.0, which the table's validation of the column demands, the
-- cumulative average is at most 4.00.
pub calculate_cgpa-le :
    (student : ℕ) (rows : List Enrollment)
    → All IsScaled rows
    → (calculate_cgpa student rows).cgpa ≤ 400
unfolding calculate_cgpa
calculate_cgpa-le student rows h =
    round_gpa-le _ _ (cgpa_totals-IsBounded _ no_totals (All-filter _ rows h) (omega arith))
