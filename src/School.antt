-- ===== src/School.antt =====
-- The tables that enrollment works on: src/models/CourseSection.js, src/models/Enrollment.js,
-- src/models/CoursePrerequisite.js and src/models/Schedule.js. Days are day numbers and times are
-- minutes of the day where the source keeps "HH:MM" texts of that form.
use obs_system_backend_berka.Base.{ℕ, Bool, Option, List}
use obs_system_backend_berka.Grade.{Letter, Status, Semester}

-- A letter grade column: one of the scale, or another text.
pub data Mark : Type 0 where
  graded : Letter → Mark
  unknown_mark : Mark

pub data Day : Type 0 where
  monday tuesday wednesday thursday friday saturday sunday : Day

pub record Time : Type 0 where
  pub hours : ℕ
  pub minutes : ℕ

-- An entry of `schedule_json`; its day is read without regard to case.
pub record Slot : Type 0 where
  pub day : Day
  pub start_time : Option Time
  pub end_time : Option Time

-- The `schedule_json` column: null, an array, a text with what `JSON.parse` makes of it (`none`
-- when it throws), or another value.
pub data ScheduleJson : Type 0 where
  null_json : ScheduleJson
  array : List Slot → ScheduleJson
  text : Option (List Slot) → ScheduleJson
  other_json : ScheduleJson

pub record Section : Type 0 where
  pub id : ℕ
  pub course_id : ℕ
  pub semester : Semester
  pub year : ℕ
  pub instructor_id : Option ℕ
  pub classroom_id : Option ℕ
  pub capacity : ℕ
  pub enrolled_count : ℕ
  pub schedule_json : ScheduleJson
  pub is_active : Bool

pub record Enrollment : Type 0 where
  pub id : ℕ
  pub student_id : ℕ
  pub section_id : ℕ
  pub status : Status
  pub enrollment_date : ℕ
  pub approval_date : Option ℕ
  pub approved_by : Option ℕ
  pub drop_date : Option ℕ
  pub letter_grade : Option Mark
  pub is_repeat : Bool

pub record Prerequisite : Type 0 where
  pub course_id : ℕ
  pub prerequisite_course_id : ℕ
  pub min_grade : Option Mark

pub record Schedule : Type 0 where
  pub id : ℕ
  pub section_id : ℕ
  pub day_of_week : Day
  pub start_time : Option Time
  pub end_time : Option Time
  pub classroom_id : ℕ

pub record School : Type 0 where
  pub sections : List Section
  pub enrollments : List Enrollment
  pub prerequisites : List Prerequisite
  pub schedules : List Schedule
  pub faculty : List ℕ
  pub classrooms : List ℕ
  pub next_id : ℕ
