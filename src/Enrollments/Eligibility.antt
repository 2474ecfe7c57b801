-- ===== src/Enrollments/Eligibility.antt =====
-- The check of src/services/enrollmentService.js that a page makes before a request.
use obs_system_backend_berka.Base.{
  ℕ, Bool, true, false, not, ◌&&◌, none, some, List, [], ◌∷◌, ◌++◌, ltb, Result, ok, ◌>>=◌,
  or_throw, any,
}
use obs_system_backend_berka.School.{Section, Prerequisite, School}
use obs_system_backend_berka.Prerequisite.{check_prerequisites}
use obs_system_backend_berka.Conflict.{section_by_id, check_schedule_conflict}
use obs_system_backend_berka.Enrollments.{Error, search_ended, is_existing, no_rows}

-- What `checkEnrollmentEligibility` finds wrong.
pub data Issue : Type 0 where
  no_section inactive full existing prerequisites conflict : Issue

abbrev pub issue_if : Bool → Issue → List Issue
issue_if true i = i ∷ []
issue_if false i = []

-- The checks on a section that exists, in the order of the messages.
unfoldable pub eligibility_issues : Bool → ℕ → ℕ → School → Section → List Prerequisite → List Issue
eligibility_issues allow student section_id s x missing =
    issue_if (not x.is_active) inactive
    ++ (issue_if (not (ltb x.enrolled_count x.capacity)) full
        ++ (issue_if (any (is_existing student section_id) s.enrollments) existing
            ++ (issue_if (not (no_rows missing)) prerequisites
                ++ issue_if
                    (not (no_rows (check_schedule_conflict s student section_id)) && not allow)
                    conflict)))

-- `checkEnrollmentEligibility`: the issues; the student is eligible if there are none.
unfoldable pub check_enrollment_eligibility : Bool → ℕ → ℕ → School → Result Error (List Issue)
unfolding eligibility_issues
check_enrollment_eligibility allow student section_id s = elim (section_by_id s section_id) [
  | none ↦ ok (no_section ∷ [])
  | some x ↦ do
    missing ← or_throw (check_prerequisites s student x.course_id) search_ended
    ok (eligibility_issues allow student section_id s x missing)
]
