-- ===== src/Enrollments/Admission.antt =====
-- The guards of `enrollStudent` of src/services/enrollmentService.js, and the conditions that they test.
use obs_system_backend_berka.Base.{
  ℕ, ◌+◌, ◌<◌, ◌≡◌, ◌⊎◌, ◌↔◌, refl, subst, sym, ap, ◌∙◌, inl, inr, Bool, true, false, not, ◌&&◌,
  ◌||◌, none, some, List, [], ◌∷◌, In, arith, ltb, Bool-cases, any, ok,
}
use obs_system_backend_berka.School.{Section, Enrollment, Prerequisite, School}
use obs_system_backend_berka.Prerequisite.{has_completed_course, required_mark, check_prerequisites}
use obs_system_backend_berka.Prerequisite.Search.{Reach}
use obs_system_backend_berka.Prerequisite.Closure.{check_prerequisites_exact}
use obs_system_backend_berka.Conflict.{
  Conflict, section_by_id, has_schedule, parse_schedule, check_schedule_conflict,
}
use obs_system_backend_berka.Conflict.Conflicts.{
  IsConflict, check_schedule_conflict_exact, check_schedule_conflict_unplanned,
}
use obs_system_backend_berka.Enrollments.{
  is_existing, in_other_section, no_rows, enroll_student, get_previous_course_enrollment, is_repeat,
  new_enrollment,
}

-- The student lacks a prerequisite of the course, or a prerequisite of one.
abbrev pub Lacks : School → ℕ → ℕ → Type 0
Lacks s student course =
    (p : Prerequisite) × In p s.prerequisites
    × Reach s.prerequisites course p.course_id
    × (has_completed_course s student p.prerequisite_course_id (required_mark p.min_grade) ≡ false)

-- A slot of the section overlaps a slot of the student's term.
abbrev pub HasConflict : School → ℕ → Section → Type 0
HasConflict s student x = (c : Conflict) × In c.enrollment s.enrollments × IsConflict s student x c

-- The conditions of a request.
pub record IsAdmissible (allow : Bool) (s : School) (student id : ℕ) (x : Section) : Type 0 where
  pub found : section_by_id s id ≡ some x
  pub active : x.is_active ≡ true
  pub room : x.enrolled_count < x.capacity
  pub first_request : any (is_existing student id) s.enrollments ≡ false
  pub only_section : any (in_other_section s student x) s.enrollments ≡ false
  pub prepared : ¬ (Lacks s student x.course_id)
  pub clear : (allow ≡ true) ⊎ ¬ (HasConflict s student x)

-- An empty list has no rows, and another has one.
no_rows-In : {A : Type 0} (xs : List A) → no_rows xs ≡ true → (a : A) → ¬ (In a xs)
no_rows-In [] h a i = elim i [ ]
no_rows-In (x ∷ xs) h a i = cc

no_rows-row : {A : Type 0} (xs : List A) → no_rows xs ≡ false → (a : A) × In a xs
no_rows-row [] h = cc
no_rows-row (x ∷ xs) h = (x, inl refl)

no_rows-check_prerequisites :
    (s : School) (student course : ℕ) (missing : List Prerequisite)
    → check_prerequisites s student course ≡ some missing
    → (no_rows missing ≡ true) ↔ (¬ (Lacks s student course))
no_rows-check_prerequisites s student course missing e =
    let (listed, is, exact) = check_prerequisites_exact s student course in
    let same : listed ≡ missing = some_inj listed missing (sym is ∙ e) in
    (
      λ h k. no_rows-In missing h k.0 (subst (In k.0) same ((exact k.0).1 (k.1, k.2, k.3))),
      λ none_lacks. elim (Bool-cases (no_rows missing)) [
        | inl h ↦ h
        | inr h ↦
            let (p, i) = no_rows-row missing h in
            let w = (exact p).0 (subst (In p) (sym same) i) in
            absurd (none_lacks (p, w.0, w.1, w.2))
      ],
    )
  where
    some_inj : (a b : List Prerequisite) → some a ≡ some b → a ≡ b
    some_inj a b h = cc

null_slots :
    (x : Section) → has_schedule x.schedule_json ≡ false → parse_schedule x.schedule_json ≡ []
unfolding parse_schedule
null_slots x h = ground arith

no_rows-check_schedule_conflict :
    (s : School) (student id : ℕ) (x : Section)
    → section_by_id s id ≡ some x
    → (no_rows (check_schedule_conflict s student id) ≡ true) ↔ (¬ (HasConflict s student x))
no_rows-check_schedule_conflict s student id x e =
    elim (Bool-cases (has_schedule x.schedule_json)) [
      | inl planned ↦
          let exact = λ (c : Conflict). check_schedule_conflict_exact s student id x c e planned in
          (
            λ h k.
                no_rows-In (check_schedule_conflict s student id) h k.0 ((exact k.0).1 (k.1, k.2)),
            λ clear. elim (Bool-cases (no_rows (check_schedule_conflict s student id))) [
              | inl h ↦ h
              | inr h ↦
                  let (c, i) = no_rows-row (check_schedule_conflict s student id) h in
                  let w = (exact c).0 i in absurd (clear (c, w.0, w.1))
            ],
          )
      | inr unplanned ↦ (
        λ h k. elim (subst (In k.0.new_slot) (null_slots x unplanned) k.2.new_row) [ ],
        λ _. ap no_rows (check_schedule_conflict_unplanned s student id x e unplanned),
      )
    ]

pub some_section : (a b : Section) → some a ≡ some b → a ≡ b
some_section a b h = cc

-- The request that `enrollStudent` files, and the tables after it.
abbrev pub filed : ℕ → ℕ → ℕ → School → Section → Enrollment × School
filed now student id s x =
    let row : Enrollment =
      new_enrollment s.next_id student id now
        (is_repeat (get_previous_course_enrollment s student x.course_id)) in
    (row, record s { enrollments = row ∷ s.enrollments; next_id = s.next_id + 1 })

-- The guards of `enrollStudent`, for a section and the prerequisites that are missing.
abbrev pub passes : Bool → School → ℕ → ℕ → Section → List Prerequisite → Bool
passes allow s student id x missing =
    x.is_active
    && (ltb x.enrolled_count x.capacity
        && (not (any (is_existing student id) s.enrollments)
            && (not (any (in_other_section s student x) s.enrollments)
                && (no_rows missing && (allow || no_rows (check_schedule_conflict s student id))))))

pub enroll_student-passes :
    (allow : Bool) (now student id : ℕ) (s : School) (x : Section) (missing : List Prerequisite)
    → section_by_id s id ≡ some x
    → check_prerequisites s student x.course_id ≡ some missing
    → passes allow s student id x missing ≡ true
    → enroll_student allow now student id s ≡ ok (filed now student id s x)
unfolding enroll_student
enroll_student-passes allow now student id s x missing e f h =
    rw (e, enroll_student) (rw f (ground arith))

pub enroll_student-fails :
    (allow : Bool) (now student id : ℕ) (s : School) (x : Section) (missing : List Prerequisite)
    → section_by_id s id ≡ some x
    → check_prerequisites s student x.course_id ≡ some missing
    → passes allow s student id x missing ≡ false
    → (row : Enrollment) (t : School) → ¬ (enroll_student allow now student id s ≡ ok (row, t))
unfolding enroll_student
enroll_student-fails allow now student id s x missing e f h row t =
    rw (e, enroll_student) (rw f (ground arith))

pub enroll_student-unknown :
    (allow : Bool) (now student id : ℕ) (s : School)
    → section_by_id s id ≡ none
    → (row : Enrollment) (t : School) → ¬ (enroll_student allow now student id s ≡ ok (row, t))
unfolding enroll_student
enroll_student-unknown allow now student id s e row t = rw (e, enroll_student) (ground arith)

pub passes-IsAdmissible :
    (allow : Bool) (student id : ℕ) (s : School) (x : Section) (missing : List Prerequisite)
    → section_by_id s id ≡ some x
    → check_prerequisites s student x.course_id ≡ some missing
    → (passes allow s student id x missing ≡ true) ↔ IsAdmissible allow s student id x
passes-IsAdmissible allow student id s x missing e f =
    let lacks = no_rows-check_prerequisites s student x.course_id missing f in
    let free = no_rows-check_schedule_conflict s student id x e in
    (
      λ h.
          let no_lack : no_rows missing ≡ true = ground arith in
          let either : (allow || no_rows (check_schedule_conflict s student id)) ≡ true =
            ground arith in
          record {
            found = e;
            active = ground arith;
            room = ground arith;
            first_request = ground arith;
            only_section = ground arith;
            prepared = lacks.0 no_lack;
            clear = elim (Bool-cases allow) [
              | inl a ↦ inl a
              | inr a ↦ inr (free.0 (rw a at either))
            ];
          },
      λ k.
          let no_lack = lacks.1 k.prepared in
          let either : (allow || no_rows (check_schedule_conflict s student id)) ≡ true =
            elim k.clear [
              | inl a ↦ rw a refl
              | inr c ↦ let no_conflict = free.1 c in ground arith
            ] in
          ground (arith, k.active, k.room, k.first_request, k.only_section),
    )
