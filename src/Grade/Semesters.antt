-- ===== src/Grade/Semesters.antt =====
-- The grouping by semester in `calculateCGPA` of src/services/gradeCalculationService.js.
use obs_system_backend_berka.Base.{
  ℕ, ◌+◌, ◌≡◌, refl, inl, inr, true, false, ◌&&◌, List, [], ◌∷◌, arith, ◌==◌, if◌then◌else◌,
  Bool-cases, filter, All,
}
use obs_system_backend_berka.Grade.{
  Enrollment, Totals, no_totals, add_course, or_zero, cgpa_totals, counts_for_cgpa, SemesterTotals,
  add_to_semester, semester_map, not_after, insert_semester, sort_semesters, calculate_cgpa,
}

-- The credits of the rows, and those of the rows that are repeats with a grade point of 0.
abbrev pub all_credits : List Enrollment → ℕ
all_credits [] = 0
all_credits (e ∷ es) = e.credits + all_credits es

abbrev pub failed_repeat_credits : List Enrollment → ℕ
failed_repeat_credits [] = 0
failed_repeat_credits (e ∷ es) =
    (if e.is_repeat && (or_zero e.grade_point == 0) then e.credits else 0)
    + failed_repeat_credits es

-- The credits of the semesters.
abbrev pub listed_credits : List SemesterTotals → ℕ
listed_credits [] = 0
listed_credits (s ∷ ss) = s.totals.credits + listed_credits ss

listed-add_to_semester :
    (e : Enrollment) (m : List SemesterTotals)
    → listed_credits (add_to_semester e m) ≡ listed_credits m + e.credits
unfolding add_to_semester
listed-add_to_semester e [] = omega arith
listed-add_to_semester e (s ∷ ss) = ground (arith, listed-add_to_semester e ss)

listed-semester_map :
    (es : List Enrollment) (m : List SemesterTotals)
    → listed_credits (semester_map es m) ≡ listed_credits m + all_credits es
unfolding semester_map
listed-semester_map [] m = omega arith
listed-semester_map (e ∷ es) m =
    omega (arith, listed-semester_map es (add_to_semester e m), listed-add_to_semester e m)

listed-insert_semester :
    (s : SemesterTotals) (m : List SemesterTotals)
    → listed_credits (insert_semester s m) ≡ s.totals.credits + listed_credits m
unfolding insert_semester
listed-insert_semester s [] = refl
listed-insert_semester s (t ∷ ts) = ground (arith, listed-insert_semester s ts)

listed-sort_semesters :
    (m : List SemesterTotals) → listed_credits (sort_semesters m) ≡ listed_credits m
unfolding sort_semesters
listed-sort_semesters [] = refl
listed-sort_semesters (s ∷ ss) =
    omega (arith, listed-insert_semester s (sort_semesters ss), listed-sort_semesters ss)

cgpa_totals_credits :
    (es : List Enrollment) (t : Totals)
    → (cgpa_totals es t).credits + failed_repeat_credits es ≡ t.credits + all_credits es
unfolding cgpa_totals
cgpa_totals_credits [] t = omega arith
cgpa_totals_credits (e ∷ es) t = ground (
  arith,
  cgpa_totals_credits es t,
  cgpa_totals_credits es (add_course (or_zero e.grade_point) e.credits t),
)

-- The semesters of a transcript list the credits of every graded row once, and these are the counted
-- credits together with those of the repeats that earned 0.
pub calculate_cgpa_credits :
    (student : ℕ) (rows : List Enrollment)
    → let wanted : List Enrollment = filter (counts_for_cgpa student) rows in
      let r = calculate_cgpa student rows in
      (listed_credits r.semesters ≡ all_credits wanted)
      × (r.total_credits + failed_repeat_credits wanted ≡ listed_credits r.semesters)
unfolding calculate_cgpa
calculate_cgpa_credits student rows =
    let wanted : List Enrollment = filter (counts_for_cgpa student) rows in
    let listed = listed-sort_semesters (semester_map wanted []) in
    let grouped = listed-semester_map wanted [] in
    let counted = cgpa_totals_credits wanted no_totals in
    (omega (arith, listed, grouped), omega (arith, listed, grouped, counted))

-- The semesters are in order of time: none stands before one that precedes it.
abbrev pub IsChronological : List SemesterTotals → Type 0
IsChronological [] = Unit {0}
IsChronological (s ∷ ss) = All (λ t. not_after s t ≡ true) ss × IsChronological ss

not_after_trans :
    (a b c : SemesterTotals) → not_after a b ≡ true → not_after b c ≡ true → not_after a c ≡ true
not_after_trans a b c h k = ground arith

not_after_total : (a b : SemesterTotals) → not_after a b ≡ false → not_after b a ≡ true
not_after_total a b h = ground arith

All-not_after_trans :
    (a b : SemesterTotals) (ss : List SemesterTotals)
    → not_after a b ≡ true
    → All (λ t. not_after b t ≡ true) ss
    → All (λ t. not_after a t ≡ true) ss
All-not_after_trans a b [] h k = tt
All-not_after_trans a b (c ∷ ss) h k =
    (not_after_trans a b c h k.0, All-not_after_trans a b ss h k.1)

All-insert_semester :
    (a s : SemesterTotals) (ss : List SemesterTotals)
    → not_after a s ≡ true
    → All (λ t. not_after a t ≡ true) ss
    → All (λ t. not_after a t ≡ true) (insert_semester s ss)
unfolding insert_semester
All-insert_semester a s [] h k = (h, tt)
All-insert_semester a s (t ∷ ts) h k = elim (Bool-cases (not_after s t)) [
  | inl e ↦ rw e (h, k)
  | inr e ↦ rw e (k.0, All-insert_semester a s ts h k.1)
]

insert_semester-IsChronological :
    (s : SemesterTotals) (ss : List SemesterTotals)
    → IsChronological ss
    → IsChronological (insert_semester s ss)
unfolding insert_semester
insert_semester-IsChronological s [] c = (tt, tt)
insert_semester-IsChronological s (t ∷ ts) c = elim (Bool-cases (not_after s t)) [
  | inl e ↦ rw e ((e, All-not_after_trans s t ts e c.0), c)
  | inr e ↦ rw e (
    All-insert_semester t s ts (not_after_total s t e) c.0,
    insert_semester-IsChronological s ts c.1,
  )
]

sort_semesters-IsChronological : (ss : List SemesterTotals) → IsChronological (sort_semesters ss)
unfolding sort_semesters
sort_semesters-IsChronological [] = tt
sort_semesters-IsChronological (s ∷ ss) =
    insert_semester-IsChronological s (sort_semesters ss) (sort_semesters-IsChronological ss)

-- The semesters of a transcript stand in order of time.
pub calculate_cgpa-IsChronological :
    (student : ℕ) (rows : List Enrollment) → IsChronological (calculate_cgpa student rows).semesters
unfolding calculate_cgpa
calculate_cgpa-IsChronological student rows =
    sort_semesters-IsChronological (semester_map (filter (counts_for_cgpa student) rows) [])
