-- ===== src/Enrollments/Request.antt =====
-- When src/services/enrollmentService.js takes a request, and what its eligibility check says before.
use obs_system_backend_berka.Base.{
  ℕ, ◌≡◌, ◌↔◌, subst, sym, ◌∙◌, inl, inr, Bool, none, some, [], arith, if◌then◌else◌, Bool-cases,
  Option-cases, any, ok, err, ok_inj,
}
use obs_system_backend_berka.School.{Section, Enrollment, School}
use obs_system_backend_berka.Prerequisite.Closure.{check_prerequisites_exact}
use obs_system_backend_berka.Conflict.{section_by_id}
use obs_system_backend_berka.Enrollments.{other_section, in_other_section, enroll_student}
use obs_system_backend_berka.Enrollments.Eligibility.{
  eligibility_issues, check_enrollment_eligibility,
}
use obs_system_backend_berka.Enrollments.Admission.{
  IsAdmissible, some_section, filed, passes, enroll_student-passes, enroll_student-fails,
  enroll_student-unknown, passes-IsAdmissible,
}

-- A request is filed exactly when the section exists and is active with a free seat, the student has
-- no enrollment in it (of any status) and no open one in another section of the course and term, has
-- completed every prerequisite, nested ones included, with the required grade, and, unless conflicts
-- are allowed, no slot overlaps the student's term.
pub enroll_student_iff :
    (allow : Bool) (now student id : ℕ) (s : School)
    → ((row : Enrollment) × (t : School) × (enroll_student allow now student id s ≡ ok (row, t)))
      ↔ ((x : Section) × IsAdmissible allow s student id x)
enroll_student_iff allow now student id s = elim (Option-cases (section_by_id s id)) [
  | inl e ↦ (
    λ h. absurd (enroll_student-unknown allow now student id s e h.0 h.1 h.2),
    λ k. absurd (clash (sym e ∙ k.1.found)),
  )
  | inr (x, e) ↦
      let (missing, f, exact) = check_prerequisites_exact s student x.course_id in
      let admits = passes-IsAdmissible allow student id s x missing e f in
      (
        λ h. elim (Bool-cases (passes allow s student id x missing)) [
          | inl p ↦ (x, admits.0 p)
          | inr p ↦ absurd (enroll_student-fails allow now student id s x missing e f p h.0 h.1 h.2)
        ],
        λ k.
            let same : k.0 ≡ x = some_section k.0 x (sym k.1.found ∙ e) in
            let k' : IsAdmissible allow s student id x =
              subst (IsAdmissible allow s student id) same k.1 in
            let (row, t) = filed now student id s x in
            (row, t, enroll_student-passes allow now student id s x missing e f (admits.1 k')),
      )
]
  where
    clash : {x : Section} → none ≡ some x → ⊥
    clash h = cc

-- A request of a student whom the eligibility check finds nothing against is filed, as a pending
-- enrollment that waits for approval, unless an open enrollment in another section of the course and
-- term, which the check does not look for, stops the request.
pub enroll_student-eligible :
    (allow : Bool) (now student id : ℕ) (s : School) (x : Section)
    → section_by_id s id ≡ some x
    → check_enrollment_eligibility allow student id s ≡ ok []
    → enroll_student allow now student id s ≡ (
        if any (in_other_section s student x) s.enrollments
        then err other_section
        else ok (filed now student id s x))
unfolding enroll_student check_enrollment_eligibility eligibility_issues
enroll_student-eligible allow now student id s x e h =
    let (missing, f, exact) = check_prerequisites_exact s student x.course_id in
    let clean : eligibility_issues allow student id s x missing ≡ [] =
      ok_inj _ _ (rw f at (rw (e, check_enrollment_eligibility) at h)) in
    rw (e, enroll_student) (rw f (ground (arith, clean)))
