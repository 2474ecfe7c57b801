-- ===== src/Scheduling/Generate.antt =====
-- `generateSchedule` of src/services/schedulingService.js: the two solvers on the tables, and the
-- rows that it creates.
pub mod Outcome
use obs_system_backend_berka.Base.{
  ℕ, suc, ◌+◌, Bool, true, false, ◌&&◌, Option, none, some, List, [], ◌∷◌, ◌++◌, ltb, ◌==◌,
  if◌then◌else◌, length, filter, any, Result, err, ok, ◌>>=◌,
}
use obs_system_backend_berka.Enrollments.{is_status_enrolled}
use obs_system_backend_berka.School.{Enrollment, Schedule}
use obs_system_backend_berka.Scheduling.{
  TimeSlot, Classroom, SectionData, StudentEnrollments, Assignment, Owner, Stats,
  student_enrollments, solve_csp,
}
use obs_system_backend_berka.Scheduling.Genetic.{
  SchedulingError, type_error, no_timetable, solve_with_genetic_algorithm,
}

-- The tables that the scheduler reads and writes.
pub record Tables : Type 0 where
  pub sections : List SectionData
  pub classrooms : List Classroom
  pub enrollments : List Enrollment
  pub schedules : List Schedule
  pub next_id : ℕ

-- The request: the ids of the sections and classrooms, the time slots and the instructors'
-- preferred times.
pub record Constraints : Type 0 where
  pub sections : List ℕ
  pub classrooms : List ℕ
  pub time_slots : List TimeSlot
  pub prefers : Owner → TimeSlot → Bool

abbrev pub is_one_of : List ℕ → ℕ → Bool
is_one_of ids id = any (λ x. x == id) ids

-- `sectionData`
abbrev pub section_data : Constraints → Tables → List SectionData
section_data r s = filter (λ (x : SectionData). is_one_of r.sections x.row.id) s.sections

-- `classroomData`
abbrev pub classroom_data : Constraints → Tables → List Classroom
classroom_data r s =
    filter (λ (c : Classroom). is_one_of r.classrooms c.id && c.is_active) s.classrooms

-- `studentEnrollments` of the enrolled students of the sections.
unfoldable pub groups_of : Constraints → Tables → List StudentEnrollments
unfolding student_enrollments
groups_of r s =
    student_enrollments
      (filter (λ (e : Enrollment). is_one_of r.sections e.section_id && is_status_enrolled e.status)
        s.enrollments)
      []

-- `Schedule.create`
abbrev pub schedule_row : Assignment → ℕ → Schedule
schedule_row a id = record {
  id = id;
  section_id = a.section_id;
  day_of_week = a.slot.day_of_week;
  start_time = some a.slot.start_time;
  end_time = some a.slot.end_time;
  classroom_id = a.classroom_id;
}

-- The rows of the assignments, in their order.
abbrev pub schedule_rows : List Assignment → ℕ → List Schedule
schedule_rows [] id = []
schedule_rows (a ∷ rest) id = schedule_row a id ∷ schedule_rows rest (suc id)

abbrev pub with_schedules : List Assignment → Tables → Tables
with_schedules found s = record {
  sections = s.sections;
  classrooms = s.classrooms;
  enrollments = s.enrollments;
  schedules = s.schedules ++ schedule_rows found s.next_id;
  next_id = s.next_id + length found;
}

-- `saved`: the rows that the call returns, with the tables after it.
abbrev pub save : Tables → List Assignment → Result SchedulingError (List Schedule × Tables)
save s found = ok (schedule_rows found s.next_id, with_schedules found s)

abbrev pub or_no_timetable :
    Option (List Assignment × Stats) → Result SchedulingError (List Assignment)
or_no_timetable none = err no_timetable
or_no_timetable (some answer) = ok answer.0

-- The backtracking solver, when the genetic algorithm found nothing or was not asked.
abbrev pub csp_fallback :
    Constraints → Tables → Option (List Assignment) → Result SchedulingError (List Assignment)
csp_fallback r s (some found) = ok found
csp_fallback r s none =
    or_no_timetable (solve_csp (section_data r s) (classroom_data r s) r.time_slots (groups_of r s))

abbrev pub genetic_first :
    (ℕ → ℕ) → Constraints → Tables → Result SchedulingError (Option (List Assignment))
genetic_first random r s =
    if ltb 10 (length r.sections)
    then solve_with_genetic_algorithm random (section_data r s) (classroom_data r s) r.time_slots
        r.prefers
    else ok none

-- `generateSchedule`
unfoldable pub generate_schedule :
    (ℕ → ℕ) → Constraints → Tables → Result SchedulingError (List Schedule × Tables)
unfolding solve_csp solve_with_genetic_algorithm groups_of
generate_schedule random r s = do
  genetic ← genetic_first random r s
  found ← csp_fallback r s genetic
  save s found
