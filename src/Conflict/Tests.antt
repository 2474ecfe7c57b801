-- ===== src/Conflict/Tests.antt =====
-- Two sections that meet on Monday morning, and the properties of the conflict check at them.
use obs_system_backend_berka.Base.{
  ℕ, ◌≤◌, ◌<◌, ◌≡◌, ◌↔◌, refl, true, false, none, some, [], ◌∷◌, arith, In,
}
use obs_system_backend_berka.Grade.{Status, enrolled, pending, fall}
use obs_system_backend_berka.School.{monday, Slot, array, Section, Enrollment, School}
use obs_system_backend_berka.Conflict.{
  Conflict, day_index, time_slots_overlap, check_schedule_conflict, against_enrollments,
  against_enrollment, against_section, against_slot, parse_schedule,
}
use obs_system_backend_berka.Conflict.Slots.{time_slots_overlap_iff}
use obs_system_backend_berka.Conflict.Conflicts.{IsConflict, check_schedule_conflict_exact}

abbrev monday_slot : ℕ → ℕ → Slot
monday_slot from until = record {
  day = monday;
  start_time = some (record { hours = from; minutes = 0 });
  end_time = some (record { hours = until; minutes = 30 });
}

abbrev section : ℕ → ℕ → Slot → Section
section id course slot = record {
  id = id;
  course_id = course;
  semester = fall;
  year = 2024;
  instructor_id = some 70;
  classroom_id = some 40;
  capacity = 1;
  enrolled_count = 1;
  schedule_json = array (slot ∷ []);
  is_active = true;
}

abbrev row : ℕ → ℕ → Status → Enrollment
row id section_id status = record {
  id = id;
  student_id = 9;
  section_id = section_id;
  status = status;
  enrollment_date = 0;
  approval_date = none;
  approved_by = none;
  drop_date = none;
  letter_grade = none;
  is_repeat = false;
}

abbrev monday_school : Status → School
monday_school status = record {
  sections =
      section 11 1 (monday_slot 9 10)
      ∷ section 12 2 (monday_slot 10 11)
      ∷ section 13 3 (monday_slot 11 12)
      ∷ [];
  enrollments = row 21 11 status ∷ [];
  prerequisites = [];
  schedules = [];
  faculty = 70 ∷ [];
  classrooms = [];
  next_id = 30;
}

abbrev clash : Conflict
clash = record {
  enrollment = row 21 11 enrolled;
  section = section 11 1 (monday_slot 9 10);
  new_slot = monday_slot 10 11;
  existing_slot = monday_slot 9 10;
}

enrolled_conflicts : check_schedule_conflict (monday_school enrolled) 9 12 ≡ clash ∷ []
unfolding check_schedule_conflict against_enrollments against_enrollment against_section
    against_slot parse_schedule time_slots_overlap
enrolled_conflicts = refl

pending_conflicts_not : check_schedule_conflict (monday_school pending) 9 12 ≡ []
unfolding check_schedule_conflict against_enrollments against_enrollment against_section
    against_slot parse_schedule time_slots_overlap
pending_conflicts_not = refl

time_slots_overlap_iff_example :
    (time_slots_overlap (monday_slot 9 10) (monday_slot 10 11) ≡ true) ↔ (
      (day_index monday ≡ day_index monday)
      × ((t : ℕ) × (540 ≤ t) × (t < 630) × (600 ≤ t) × (t < 690)))
time_slots_overlap_iff_example =
    time_slots_overlap_iff (monday_slot 9 10) (monday_slot 10 11) (omega arith) (omega arith)

check_schedule_conflict_exact_example :
    In clash (check_schedule_conflict (monday_school enrolled) 9 12) ↔ (
      In (row 21 11 enrolled) (monday_school enrolled).enrollments
      × IsConflict (monday_school enrolled) 9 (section 12 2 (monday_slot 10 11)) clash)
check_schedule_conflict_exact_example =
    check_schedule_conflict_exact (monday_school enrolled) 9 12 (section 12 2 (monday_slot 10 11))
      clash refl refl
