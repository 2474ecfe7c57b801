-- ===== src/Scheduling.antt =====
-- src/services/schedulingService.js: the timetable of a set of sections, by backtracking.
pub mod Marks
pub mod Timetable
pub mod Backtrack
pub mod Solution
pub mod Genetic
pub mod Generate
mod Tests
use obs_system_backend_berka.Base.{
  ℕ, ◌+◌, ◌-◌, Bool, true, false, not, ◌&&◌, Option, none, some, List, [], ◌∷◌, ◌++◌, map, ltb, leb,
  ◌==◌, if◌then◌else◌, length, filter, any, count, delete_where,
}
use obs_system_backend_berka.Base.Sort.{sort_by}
use obs_system_backend_berka.School.{Day, Time, Section, Enrollment}
use obs_system_backend_berka.Grade.{Status, enrolled}
use obs_system_backend_berka.Conflict.{day_index}

-- An entry of `timeSlots`.
pub record TimeSlot : Type 0 where
  pub day_of_week : Day
  pub start_time : Time
  pub end_time : Time

-- A row of `classrooms`.
pub record Classroom : Type 0 where
  pub id : ℕ
  pub capacity : ℕ
  pub is_active : Bool

-- A row of `sectionData`: the section with `course?.is_required || false`.
pub record SectionData : Type 0 where
  pub row : Section
  pub is_required : Bool

-- An entry of `studentEnrollments`.
pub record StudentEnrollments : Type 0 where
  pub student_id : ℕ
  pub section_ids : List ℕ

pub record Assignment : Type 0 where
  pub section_id : ℕ
  pub classroom_id : ℕ
  pub slot : TimeSlot

-- A key of `usedSlots`: the id of an instructor, a classroom or a student. A section with no
-- instructor uses the key "null", here `none`.
abbrev pub Owner : Type 0
Owner = Option ℕ

-- A member of one of the sets in `usedSlots`.
pub record Use : Type 0 where
  pub owner : Owner
  pub slot : TimeSlot

-- What the search changes.
pub record SolverState : Type 0 where
  pub assignments : List Assignment
  pub used_slots : List Use

abbrev pub same_time : Time → Time → Bool
same_time a b = (a.hours == b.hours) && (a.minutes == b.minutes)

-- Equal `slotKey` texts.
abbrev pub same_key : TimeSlot → TimeSlot → Bool
same_key a b =
    (day_index a.day_of_week == day_index b.day_of_week)
    && (same_time a.start_time b.start_time && same_time a.end_time b.end_time)

abbrev pub same_owner : Owner → Owner → Bool
same_owner none none = true
same_owner (some a) (some b) = a == b
same_owner _ _ = false

abbrev pub is_use : Owner → TimeSlot → Use → Bool
is_use o k u = same_owner u.owner o && same_key u.slot k

-- `usedSlots[o]?.has(slotKey)`
abbrev pub is_used : Owner → TimeSlot → List Use → Bool
is_used o k used = any (is_use o k) used

-- `usedSlots[o].add(slotKey)`
abbrev pub add : Owner → TimeSlot → List Use → List Use
add o k used = if is_used o k used then used else record { owner = o; slot = k } ∷ used

-- `usedSlots[o].delete(slotKey)`
abbrev pub delete : Owner → TimeSlot → List Use → List Use
delete o k used = delete_where (is_use o k) used

-- `usedSlots[o]?.size || 0`
abbrev pub size : Owner → List Use → ℕ
size o used = count (λ (u : Use). same_owner u.owner o) used

abbrev pub add_all : List Owner → TimeSlot → List Use → List Use
add_all [] k used = used
add_all (o ∷ os) k used = add_all os k (add o k used)

abbrev pub delete_all : List Owner → TimeSlot → List Use → List Use
delete_all [] k used = used
delete_all (o ∷ os) k used = delete_all os k (delete o k used)

-- `section.capacity || section.enrolled_count || 30`
abbrev pub section_capacity : SectionData → ℕ
section_capacity s =
    if s.row.capacity == 0
    then (if s.row.enrolled_count == 0 then 30 else s.row.enrolled_count)
    else s.row.capacity

-- The grouping of the enrollments by student in `generateSchedule`.
unfoldable pub add_enrollment : Enrollment → List StudentEnrollments → List StudentEnrollments
add_enrollment e [] = record { student_id = e.student_id; section_ids = e.section_id ∷ [] } ∷ []
add_enrollment e (g ∷ gs) =
    let rest = add_enrollment e gs in
    if g.student_id == e.student_id
    then record { student_id = g.student_id; section_ids = g.section_ids ++ (e.section_id ∷ []) }
      ∷ gs
    else g ∷ rest

unfoldable pub student_enrollments :
    List Enrollment → List StudentEnrollments → List StudentEnrollments
student_enrollments [] groups = groups
student_enrollments (e ∷ es) groups = student_enrollments es (add_enrollment e groups)

-- `sectionStudents`: the keys of the students who are enrolled in the section.
abbrev pub section_students : List StudentEnrollments → ℕ → List Owner
section_students groups id =
    map (λ (g : StudentEnrollments). some g.student_id)
      (filter (λ (g : StudentEnrollments). any (λ x. x == id) g.section_ids) groups)

-- `checkHardConstraints`
unfoldable pub check_hard_constraints :
    SectionData → Classroom → TimeSlot → Owner → List Use → List StudentEnrollments → Bool
check_hard_constraints section classroom slot instructor used groups =
    if is_used instructor slot used
    then false
    else if is_used (some classroom.id) slot used
    then false
    else if any (λ o. is_used o slot used) (section_students groups section.row.id)
    then false
    else if ltb classroom.capacity (section_capacity section)
    then false
    else true

-- `validClassrooms`, the less used first, then the larger.
abbrev pub valid_order : List Use → Classroom → Classroom → Bool
valid_order used a b =
    if size (some a.id) used == size (some b.id) used
    then leb b.capacity a.capacity
    else ltb (size (some a.id) used) (size (some b.id) used)

unfoldable pub valid_classrooms : List Use → SectionData → List Classroom → List Classroom
valid_classrooms used section classrooms =
    sort_by (valid_order used)
      (filter (λ (c : Classroom). not (ltb c.capacity (section_capacity section))) classrooms)

-- `sortedSections`: required courses first, then the larger sections.
abbrev pub section_order : SectionData → SectionData → Bool
section_order a b =
    if a.is_required
    then (if b.is_required then leb b.row.capacity a.row.capacity else true)
    else (if b.is_required then false else leb b.row.capacity a.row.capacity)

unfoldable pub sorted_sections : List SectionData → List SectionData
sorted_sections sections = sort_by section_order sections

-- `assignments.pop()`
abbrev pub pop : List Assignment → List Assignment
pop [] = []
pop (a ∷ []) = []
pop (a ∷ b ∷ rest) = a ∷ pop (b ∷ rest)

-- The keys that an assignment of the section to the classroom takes.
abbrev pub owners : List StudentEnrollments → SectionData → Classroom → List Owner
owners groups section classroom =
    section.row.instructor_id ∷ some classroom.id ∷ section_students groups section.row.id

abbrev pub assignment : SectionData → Classroom → TimeSlot → Assignment
assignment section classroom slot = record {
  section_id = section.row.id;
  classroom_id = classroom.id;
  slot = slot;
}

-- The assignment and the marks that come with it.
abbrev pub assign :
    List StudentEnrollments → SectionData → Classroom → TimeSlot → SolverState → SolverState
assign groups section classroom slot s = record {
  assignments = s.assignments ++ (assignment section classroom slot ∷ []);
  used_slots = add_all (owners groups section classroom) slot s.used_slots;
}

-- "Backtrack: remove assignment"
abbrev pub unassign :
    List StudentEnrollments → SectionData → Classroom → TimeSlot → SolverState → SolverState
unassign groups section classroom slot s = record {
  assignments = pop s.assignments;
  used_slots = delete_all (owners groups section classroom) slot s.used_slots;
}

-- A body that returns true ends its loop; otherwise the loop goes on in the state that it left.
abbrev pub or_else : {S : Type 0} → Bool × S → (S → Bool × S) → Bool × S
or_else (true, s) next = (true, s)
or_else (false, s) next = next s

-- `if (!check) continue`
abbrev pub unless_skipped : {S : Type 0} → Bool → S → (S → Bool × S) → Bool × S
unless_skipped false s body = (false, s)
unless_skipped true s body = body s

-- `for (const x of xs) { ... return true ... } return false`
abbrev pub first_of : {A S : Type 0} → (A → S → Bool × S) → List A → S → Bool × S
first_of body [] s = (false, s)
first_of body (x ∷ xs) s = or_else (body x s) (λ t. first_of body xs t)

-- The body of the loop over the time slots, `next` being the recursive call.
unfoldable pub try_slot :
    List StudentEnrollments
    → (SolverState → Bool × SolverState)
    → SectionData
    → Classroom
    → TimeSlot
    → SolverState
    → Bool × SolverState
try_slot groups next section classroom slot s =
    unless_skipped
      (check_hard_constraints section classroom slot section.row.instructor_id s.used_slots groups)
      s
      (λ u.
        or_else (next (assign groups section classroom slot u))
          (λ t. (false, unassign groups section classroom slot t)))

-- `backtrack`
unfoldable pub backtrack :
    List StudentEnrollments
    → List Classroom
    → List TimeSlot
    → List SectionData
    → SolverState
    → Bool × SolverState
backtrack groups classrooms slots [] s = (true, s)
backtrack groups classrooms slots (section ∷ rest) s =
    first_of
      (λ classroom.
        first_of (try_slot groups (backtrack groups classrooms slots rest) section classroom) slots)
      (valid_classrooms s.used_slots section classrooms) s

-- `stats`; the average is kept as a sum over a number of classrooms.
pub record Stats : Type 0 where
  pub total_sections : ℕ
  pub assigned_sections : ℕ
  pub unassigned_sections : ℕ
  pub total_usage : ℕ

-- `calculateAverageUsage`, before its division by the number of classrooms.
abbrev pub total_usage : List Use → List Classroom → ℕ
total_usage used [] = 0
total_usage used (c ∷ cs) = size (some c.id) used + total_usage used cs

abbrev pub stats_of : List SectionData → List Classroom → SolverState → Stats
stats_of sections classrooms s = record {
  total_sections = length sections;
  assigned_sections = length s.assignments;
  unassigned_sections = length sections - length s.assignments;
  total_usage = total_usage s.used_slots classrooms;
}

-- The end of `solveCSP`: the assignments with their statistics, or null.
abbrev pub answer :
    List SectionData → List Classroom → Bool × SolverState → Option (List Assignment × Stats)
answer sections classrooms (true, s) = some (s.assignments, stats_of sections classrooms s)
answer sections classrooms (false, s) = none

abbrev pub no_assignments : SolverState
no_assignments = record { assignments = []; used_slots = [] }

-- `solveCSP`
unfoldable pub solve_csp :
    List SectionData
    → List Classroom
    → List TimeSlot
    → List StudentEnrollments
    → Option (List Assignment × Stats)
unfolding backtrack sorted_sections
solve_csp sections classrooms slots groups =
    answer sections classrooms
      (backtrack groups classrooms slots (sorted_sections sections) no_assignments)
