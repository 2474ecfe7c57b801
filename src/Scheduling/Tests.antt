-- ===== src/Scheduling/Tests.antt =====
-- Sections of one classroom and ten Monday hours, and the properties of the solvers at them.
use obs_system_backend_berka.Base.{
  ℕ, Bool, ◌+◌, ◌*◌, ◌/◌, ◌%◌, ◌≤◌, ◌≡◌, ◌⊎◌, refl, true, false, none, some, List, [], ◌∷◌, map,
  length, In, Empty, arith, ok,
}
use obs_system_backend_berka.Grade.{fall, enrolled}
use obs_system_backend_berka.School.{monday, null_json, Enrollment}
use obs_system_backend_berka.Scheduling.{
  TimeSlot, Classroom, SectionData, StudentEnrollments, Assignment, Owner, Stats, solve_csp,
  sorted_sections, backtrack, try_slot, valid_classrooms, check_hard_constraints,
}
use obs_system_backend_berka.Scheduling.Timetable.{Placement, NoClash, IsTimetable}
use obs_system_backend_berka.Scheduling.Solution.{assigned, solve_csp_exact}
use obs_system_backend_berka.Scheduling.Genetic.{
  resolution, calculate_fitness, score, random_individual, initialize_population, generations,
  next_generation, solve_with_genetic_algorithm,
}
use obs_system_backend_berka.Scheduling.Genetic.Fitness.{
  IsSeated, solve_with_genetic_algorithm_bounds, solve_with_genetic_algorithm-IsSeated,
}
use obs_system_backend_berka.Scheduling.Generate.{Tables, Constraints}
use obs_system_backend_berka.Scheduling.Generate.Outcome.{
  IsPlanned, IsRefused, IsBred, IsThrown, generate_schedule_outcome,
}

abbrev hour : ℕ → TimeSlot
hour n = record {
  day_of_week = monday;
  start_time = record { hours = n; minutes = 0 };
  end_time = record { hours = n + 1; minutes = 0 };
}

abbrev section : ℕ → ℕ → SectionData
section id instructor = record {
  row = record {
    id = id;
    course_id = id;
    semester = fall;
    year = 2024;
    instructor_id = some instructor;
    classroom_id = none;
    capacity = 30;
    enrolled_count = 1;
    schedule_json = null_json;
    is_active = true;
  };
  is_required = false;
}

abbrev room : Classroom
room = record { id = 40; capacity = 35; is_active = true }

abbrev two_sections : List SectionData
two_sections = section 1 70 ∷ section 2 70 ∷ []

abbrev one_student : List StudentEnrollments
one_student = record { student_id = 9; section_ids = 1 ∷ 2 ∷ [] } ∷ []

abbrev two_hours : List TimeSlot
two_hours = hour 9 ∷ hour 10 ∷ []

abbrev at_hour : ℕ → ℕ → Assignment
at_hour id n = record { section_id = id; classroom_id = 40; slot = hour n }

two_sections_placed :
    solve_csp two_sections (room ∷ []) two_hours one_student
    ≡ some (
      at_hour 1 9 ∷ at_hour 2 10 ∷ [],
      record {
        total_sections = 2;
        assigned_sections = 2;
        unassigned_sections = 0;
        total_usage = 2;
      },
    )
unfolding solve_csp sorted_sections backtrack try_slot valid_classrooms check_hard_constraints
two_sections_placed = refl

one_hour_short : solve_csp two_sections (room ∷ []) (hour 9 ∷ []) one_student ≡ none
unfolding solve_csp sorted_sections backtrack try_slot valid_classrooms check_hard_constraints
one_hour_short = refl

solve_csp_exact_example :
    ((ps : List Placement) × (stats : Stats) × IsTimetable one_student
        (room ∷ [])
        two_hours
        (sorted_sections two_sections)
        ps
      × (solve_csp two_sections (room ∷ []) two_hours one_student ≡ some (map assigned ps, stats)))
    ⊎ ((solve_csp two_sections (room ∷ []) two_hours one_student ≡ none)
        × ((ps : List Placement)
            → IsTimetable one_student (room ∷ []) two_hours two_sections ps
            → Empty {0}))
solve_csp_exact_example = solve_csp_exact two_sections (room ∷ []) two_hours one_student

-- Ten sections and ten hours; the random numbers place the j-th section at the j-th hour.
abbrev ten_sections : List SectionData
ten_sections =
    section 1 70
    ∷ section 2 70
    ∷ section 3 70
    ∷ section 4 70
    ∷ section 5 70
    ∷ section 6 70
    ∷ section 7 70
    ∷ section 8 70
    ∷ section 9 70
    ∷ section 10 70
    ∷ []

abbrev ten_hours : List TimeSlot
ten_hours =
    hour 8
    ∷ hour 9
    ∷ hour 10
    ∷ hour 11
    ∷ hour 12
    ∷ hour 13
    ∷ hour 14
    ∷ hour 15
    ∷ hour 16
    ∷ hour 17
    ∷ []

abbrev in_turn : ℕ → ℕ
in_turn i = ((i / 2) % 10) * (resolution / 10) + 100

abbrev no_preference : Owner → TimeSlot → Bool
no_preference instructor k = false

abbrev ten_placed : List Assignment
ten_placed =
    at_hour 1 8
    ∷ at_hour 2 9
    ∷ at_hour 3 10
    ∷ at_hour 4 11
    ∷ at_hour 5 12
    ∷ at_hour 6 13
    ∷ at_hour 7 14
    ∷ at_hour 8 15
    ∷ at_hour 9 16
    ∷ at_hour 10 17
    ∷ []

ten_sections_placed :
    solve_with_genetic_algorithm in_turn ten_sections (room ∷ []) ten_hours no_preference
    ≡ ok (some ten_placed)
unfolding solve_with_genetic_algorithm initialize_population random_individual generations
    next_generation calculate_fitness score
ten_sections_placed = refl

solve_with_genetic_algorithm_bounds_example :
    (length ten_placed ≤ length ten_sections)
    × (1000 + 50 * length ten_sections ≤ 180 * length ten_placed)
solve_with_genetic_algorithm_bounds_example =
    solve_with_genetic_algorithm_bounds in_turn ten_sections (room ∷ []) ten_hours no_preference
      ten_placed ten_sections_placed

solve_with_genetic_algorithm-IsSeated_example :
    (ps : List Placement) × (map assigned ps ≡ ten_placed)
    × ((p : Placement)
        → In p ps
        → IsSeated in_turn ten_sections (room ∷ []) ten_hours no_preference p)
    × NoClash [] (room ∷ []) ten_hours ps
solve_with_genetic_algorithm-IsSeated_example =
    solve_with_genetic_algorithm-IsSeated in_turn ten_sections (room ∷ []) ten_hours no_preference
      ten_placed (omega arith) ten_sections_placed

abbrev request : Constraints
request = record {
  sections = 1 ∷ 2 ∷ [];
  classrooms = 40 ∷ [];
  time_slots = two_hours;
  prefers = no_preference;
}

abbrev enrollment : ℕ → ℕ → Enrollment
enrollment id section_id = record {
  id = id;
  student_id = 9;
  section_id = section_id;
  status = enrolled;
  enrollment_date = 0;
  approval_date = none;
  approved_by = none;
  drop_date = none;
  letter_grade = none;
  is_repeat = false;
}

abbrev tables : Tables
tables = record {
  sections = ten_sections;
  classrooms = room ∷ [];
  enrollments = enrollment 5 1 ∷ enrollment 6 2 ∷ [];
  schedules = [];
  next_id = 100;
}

generate_schedule_outcome_example :
    IsPlanned in_turn request tables
    ⊎ IsRefused in_turn request tables
    ⊎ IsBred in_turn request tables
    ⊎ IsThrown in_turn request tables
generate_schedule_outcome_example = generate_schedule_outcome in_turn request tables (omega arith)
