-- ===== src/Enrollments.antt =====
-- src/services/enrollmentService.js: requests, approvals, rejections and drops of enrollments, on the
-- tables of `School`. Instants are milliseconds.
pub mod Seats
pub mod Capacity
pub mod Single
pub mod Calls
pub mod Offerings
pub mod Admission
pub mod Eligibility
pub mod Request
pub mod Moves
pub mod Life
mod Tests
use obs_system_backend_berka.Base.{
  ℕ, suc, ◌+◌, ◌-◌, ◌*◌, ◌/◌, Bool, true, false, not, ◌&&◌, ◌||◌, Option, none, some, List, [], ◌∷◌,
  ◌++◌, ltb, leb, ◌==◌, if◌then◌else◌, Result, ok, err, ◌>>=◌, ◌>>◌, throw_if, or_throw, committed,
  find, filter, any, count, update_where,
}
use obs_system_backend_berka.Grade.{
  Status, pending, enrolled, dropped, completed, failed, withdrawn, rejected, same_semester,
}
use obs_system_backend_berka.School.{
  Day, Time, Slot, Section, Enrollment, Prerequisite, Schedule, School,
}
use obs_system_backend_berka.Prerequisite.{check_prerequisites}
use obs_system_backend_berka.Conflict.{
  Conflict, parse_schedule, has_schedule, section_by_id, check_schedule_conflict, takes_seat,
}

pub data Error : Type 0 where
  section_not_found section_inactive section_full already_enrolled other_section : Error
  search_ended prerequisites_missing schedule_conflict : Error
  no_pending no_faculty not_instructor not_enrolled drop_period_over type_error : Error

abbrev pub is_status_pending : Status → Bool
is_status_pending pending = true
is_status_pending _ = false

abbrev pub is_status_enrolled : Status → Bool
is_status_enrolled enrolled = true
is_status_enrolled _ = false

-- `status: { [Op.in]: ['enrolled', 'pending'] }`
abbrev pub is_open : Status → Bool
is_open enrolled = true
is_open pending = true
is_open _ = false

-- `status: { [Op.in]: ['completed', 'failed'] }`
abbrev pub is_finished : Status → Bool
is_finished completed = true
is_finished failed = true
is_finished _ = false

-- The query for an enrollment of the student in the section, of any status.
abbrev pub is_existing : ℕ → ℕ → Enrollment → Bool
is_existing student section e = (e.student_id == student) && (e.section_id == section)

-- The query for an open enrollment in another section of the same course and term.
abbrev pub in_other_section : School → ℕ → Section → Enrollment → Bool
in_other_section s student x e =
    (e.student_id == student)
    && (is_open e.status && (elim (section_by_id s e.section_id) [
      | none ↦ false
      | some y ↦
          (y.course_id == x.course_id)
          && (same_semester y.semester x.semester && ((y.year == x.year) && not (y.id == x.id)))
    ]))

-- `getPreviousCourseEnrollment`: the newest finished enrollment in the course.
unfoldable pub get_previous_course_enrollment : School → ℕ → ℕ → Option Enrollment
get_previous_course_enrollment s student course =
    find
      (λ (e : Enrollment).
        (e.student_id == student)
        && (is_finished e.status && (elim (section_by_id s e.section_id) [
          | none ↦ false
          | some y ↦ y.course_id == course
        ])))
      s.enrollments

abbrev is_completed : Status → Bool
is_completed completed = true
is_completed _ = false

-- `previousEnrollment !== null && previousEnrollment.status !== 'completed'`
abbrev pub is_repeat : Option Enrollment → Bool
is_repeat none = false
is_repeat (some e) = not (is_completed e.status)

abbrev pub no_rows {ℓ} : {A : Type ℓ} → List A → Bool
no_rows [] = true
no_rows (x ∷ xs) = false

-- `Enrollment.create` with the status that waits for the faculty
abbrev pub new_enrollment : ℕ → ℕ → ℕ → ℕ → Bool → Enrollment
new_enrollment id student section now repeat = record {
  id = id;
  student_id = student;
  section_id = section;
  status = pending;
  enrollment_date = now;
  approval_date = none;
  approved_by = none;
  drop_date = none;
  letter_grade = none;
  is_repeat = repeat;
}

-- `enrollStudent`; `allow` is the setting ALLOW_SCHEDULE_CONFLICTS.
pub enroll_student : Bool → ℕ → ℕ → ℕ → School → Result Error (Enrollment × School)
unfolding get_previous_course_enrollment
enroll_student allow now student section_id s = do
  x ← or_throw (section_by_id s section_id) section_not_found
  throw_if (not x.is_active) section_inactive
  throw_if (leb x.capacity x.enrolled_count) section_full
  throw_if (any (is_existing student section_id) s.enrollments) already_enrolled
  throw_if (any (in_other_section s student x) s.enrollments) other_section
  missing ← or_throw (check_prerequisites s student x.course_id) search_ended
  throw_if (not (no_rows missing)) prerequisites_missing
  throw_if (not (no_rows (check_schedule_conflict s student section_id)) && not allow)
      schedule_conflict
  let row : Enrollment =
      new_enrollment s.next_id student section_id now
        (is_repeat (get_previous_course_enrollment s student x.course_id))
  ok (row, record s { enrollments = row ∷ s.enrollments; next_id = s.next_id + 1 })

-- The entries that `createScheduleFromSection` writes for the slots of a section.
unfoldable pub schedule_entries : ℕ → ℕ → ℕ → List Slot → List Schedule
schedule_entries section classroom id [] = []
schedule_entries section classroom id (x ∷ xs) =
    record {
      id = id;
      section_id = section;
      day_of_week = x.day;
      start_time = x.start_time;
      end_time = x.end_time;
      classroom_id = classroom;
    }
    ∷ schedule_entries section classroom (id + 1) xs

abbrev pub first_of_list : List ℕ → Option ℕ
first_of_list [] = none
first_of_list (c ∷ cs) = some c

-- The section's classroom, or the oldest active one.
abbrev pub room_for : Option ℕ → List ℕ → Option ℕ
room_for none rooms = first_of_list rooms
room_for (some c) rooms = some c

abbrev slot_count : List Slot → ℕ
slot_count [] = 0
slot_count (x ∷ xs) = suc (slot_count xs)

-- `createScheduleFromSection`: once for a section, if it has slots and there is a classroom.
unfoldable pub create_schedule_from_section : ℕ → School → School
unfolding schedule_entries parse_schedule
create_schedule_from_section id s = elim (section_by_id s id) [
  | none ↦ s
  | some x ↦ elim (room_for x.classroom_id s.classrooms) [
    | none ↦ s
    | some room ↦
        let slots : List Slot = parse_schedule x.schedule_json in
        let planned : School = record s {
          schedules = schedule_entries id room s.next_id slots ++ s.schedules;
          next_id = s.next_id + slot_count slots;
        } in
        if any (λ (e : Schedule). e.section_id == id) s.schedules
        then s
        else if has_schedule x.schedule_json && not (no_rows slots)
        then planned
        else s
  ]
]

-- `enrollment.save()` of the row with an id
unfoldable pub save_row : ℕ → (Enrollment → Enrollment) → School → School
save_row id f s = record s {
  enrollments = update_where (λ (e : Enrollment). e.id == id) f s.enrollments;
}

-- `CourseSection.update({ enrolled_count })` of the section with an id
unfoldable pub change_count : ℕ → (ℕ → ℕ) → School → School
change_count id f s = record s {
  sections =
      update_where (λ (x : Section). x.id == id)
        (λ x. record x { enrolled_count = f x.enrolled_count }) s.sections;
}

abbrev pub is_instructor : Option ℕ → ℕ → Bool
is_instructor none f = false
is_instructor (some i) f = i == f

-- The query of `approveEnrollment` and `rejectEnrollment`.
abbrev pub is_waiting : ℕ → Enrollment → Bool
is_waiting id e = (e.id == id) && is_status_pending e.status

abbrev pub approved_row : ℕ → ℕ → Enrollment → Enrollment
approved_row now faculty e = record e {
  status = enrolled;
  approval_date = some now;
  approved_by = some faculty;
}

-- `approveEnrollment`. (An enrollment with no section is a TypeError.)
pub approve_enrollment : ℕ → ℕ → ℕ → School → Result Error (Unit {0} × School)
unfolding save_row change_count create_schedule_from_section
approve_enrollment now id faculty s = do
  e ← or_throw (find (is_waiting id) s.enrollments) no_pending
  throw_if (not (any (λ f. f == faculty) s.faculty)) no_faculty
  x ← or_throw (section_by_id s e.section_id) type_error
  throw_if (not (is_instructor x.instructor_id faculty)) not_instructor
  throw_if (leb x.capacity x.enrolled_count) section_full
  ok (
    tt,
    create_schedule_from_section e.section_id
        (change_count e.section_id (λ n. n + 1) (save_row e.id (approved_row now faculty) s)),
  )

abbrev pub rejected_row : ℕ → Enrollment → Enrollment
rejected_row faculty e = record e { status = rejected; approved_by = some faculty }

-- `rejectEnrollment`
pub reject_enrollment : ℕ → ℕ → School → Result Error (Unit {0} × School)
unfolding save_row
reject_enrollment id faculty s = do
  e ← or_throw (find (is_waiting id) s.enrollments) no_pending
  throw_if (not (any (λ f. f == faculty) s.faculty)) no_faculty
  x ← or_throw (section_by_id s e.section_id) type_error
  throw_if (not (is_instructor x.instructor_id faculty)) not_instructor
  ok (tt, save_row e.id (rejected_row faculty) s)

abbrev pub drop_period_days : ℕ
drop_period_days = 28

abbrev pub ms_per_day : ℕ
ms_per_day = 86400000

abbrev pub dropped_row : ℕ → Enrollment → Enrollment
dropped_row now e = record e { status = dropped; drop_date = some now }

-- The query of `dropCourse`.
abbrev pub is_droppable : ℕ → ℕ → Enrollment → Bool
is_droppable id student e =
    (e.id == id) && ((e.student_id == student) && is_status_enrolled e.status)

-- `dropCourse`. The decrement stops at 0 here; a count that is right is above 0 when a student leaves.
pub drop_course : ℕ → ℕ → ℕ → School → Result Error (Unit {0} × School)
unfolding save_row change_count
drop_course now id student s = do
  e ← or_throw (find (is_droppable id student) s.enrollments) not_enrolled
  throw_if (ltb drop_period_days ((now - e.enrollment_date) / ms_per_day)) drop_period_over
  ok (tt, change_count e.section_id (λ n. n - 1) (save_row e.id (dropped_row now) s))
