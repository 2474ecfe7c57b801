-- ===== src/Conflict.antt =====
-- src/services/scheduleConflictService.js: the overlap of time slots and the conflicts of a section
-- with a student's term.
pub mod Slots
pub mod Conflicts
mod Tests
use obs_system_backend_berka.Base.{
  ℕ, ◌+◌, ◌*◌, Bool, true, false, not, ◌&&◌, Option, none, some, List, [], ◌∷◌, ◌++◌, ltb, ◌==◌,
  if◌then◌else◌, find, map,
}
use obs_system_backend_berka.Grade.{Status, enrolled, completed, same_semester}
use obs_system_backend_berka.School.{
  Day, monday, tuesday, wednesday, thursday, friday, saturday, sunday, Time, Slot, ScheduleJson,
  null_json, array, text, other_json, Section, Enrollment, School,
}

-- `timeToMinutes`: a missing time is midnight.
abbrev pub time_to_minutes : Option Time → ℕ
time_to_minutes none = 0
time_to_minutes (some t) = t.hours * 60 + t.minutes

-- The place of a day in the week, by which lower-cased day names are told apart.
abbrev pub day_index : Day → ℕ
day_index monday = 0
day_index tuesday = 1
day_index wednesday = 2
day_index thursday = 3
day_index friday = 4
day_index saturday = 5
day_index sunday = 6

-- `timeSlotsOverlap`
unfoldable pub time_slots_overlap : Slot → Slot → Bool
time_slots_overlap a b =
    if day_index a.day == day_index b.day
    then ltb (time_to_minutes a.start_time) (time_to_minutes b.end_time)
      && ltb (time_to_minutes b.start_time) (time_to_minutes a.end_time)
    else false

-- `parseSchedule`
unfoldable pub parse_schedule : ScheduleJson → List Slot
parse_schedule null_json = []
parse_schedule (array slots) = slots
parse_schedule (text none) = []
parse_schedule (text (some slots)) = slots
parse_schedule other_json = []

pub record Conflict : Type 0 where
  pub enrollment : Enrollment
  pub section : Section
  pub new_slot : Slot
  pub existing_slot : Slot

-- The inner loop: the slots of one existing section against one new slot.
unfoldable pub against_slot : Enrollment → Section → Slot → List Slot → List Conflict
against_slot e x n [] = []
against_slot e x n (o ∷ os) =
    let hit : Conflict = record { enrollment = e; section = x; new_slot = n; existing_slot = o } in
    let rest = against_slot e x n os in if time_slots_overlap n o then hit ∷ rest else rest

-- The loop over the new slots.
unfoldable pub against_section : Enrollment → Section → List Slot → List Slot → List Conflict
against_section e x [] os = []
against_section e x (n ∷ ns) os = against_slot e x n os ++ against_section e x ns os

abbrev pub takes_seat : Status → Bool
takes_seat enrolled = true
takes_seat completed = true
takes_seat _ = false

abbrev pub section_by_id : School → ℕ → Option Section
section_by_id s id = find (λ (x : Section). x.id == id) s.sections

-- The rows of the query: the student's enrolled and completed enrollments in other sections.
abbrev pub is_current : ℕ → ℕ → Enrollment → Bool
is_current student new_section e =
    (e.student_id == student) && (takes_seat e.status && not (e.section_id == new_section))

abbrev pub same_term : Section → Section → Bool
same_term a b = same_semester a.semester b.semester && (a.year == b.year)

-- The conflicts with one enrollment; the query joins its section, of the new section's term.
unfoldable pub against_enrollment : School → ℕ → Section → Enrollment → List Conflict
against_enrollment s student new e = elim (section_by_id s e.section_id) [
  | none ↦ []
  | some x ↦
      let found : List Conflict =
        against_section e x (parse_schedule new.schedule_json) (parse_schedule x.schedule_json) in
      if is_current student new.id e && same_term x new then found else []
]

unfoldable pub against_enrollments : School → ℕ → Section → List Enrollment → List Conflict
against_enrollments s student new [] = []
against_enrollments s student new (e ∷ es) =
    against_enrollment s student new e ++ against_enrollments s student new es

abbrev pub has_schedule : ScheduleJson → Bool
has_schedule null_json = false
has_schedule _ = true

-- `checkScheduleConflict`: the conflicts; `hasConflict` says that there are any.
unfoldable pub check_schedule_conflict : School → ℕ → ℕ → List Conflict
check_schedule_conflict s student id = elim (section_by_id s id) [
  | none ↦ []
  | some new ↦
      let found : List Conflict = against_enrollments s student new s.enrollments in
      if has_schedule new.schedule_json then found else []
]
