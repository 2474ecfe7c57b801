-- ===== src/Scheduling/Generate/Outcome.antt =====
-- What `generateSchedule` of src/services/schedulingService.js saves, and when it gives up.
use obs_system_backend_berka.Base.{
  ℕ, ◌+◌, ◌*◌, true, false, Option, Result, ◌≤◌, ◌<◌, ◌≡◌, refl, ap, ◌∙◌, ◌⊎◌, inl, inr, none, some,
  List, [], arith, ltb, ltb→lt, Bool-cases, length, map, In, Empty, err, ok, Result-cases,
  Option-cases,
}
use obs_system_backend_berka.Scheduling.{SectionData, Assignment, sorted_sections}
use obs_system_backend_berka.Scheduling.Timetable.{Placement, NoClash, IsTimetable}
use obs_system_backend_berka.Scheduling.Solution.{assigned, solve_csp_exact}
use obs_system_backend_berka.Scheduling.Genetic.{
  SchedulingError, no_timetable, wanted_seats, solve_with_genetic_algorithm,
}
use obs_system_backend_berka.Scheduling.Genetic.Fitness.{
  solve_with_genetic_algorithm-IsSeated, solve_with_genetic_algorithm_bounds,
}
use obs_system_backend_berka.Scheduling.Generate.{
  Tables, Constraints, section_data, classroom_data, groups_of, schedule_rows, with_schedules,
  genetic_first, generate_schedule,
}

wanted_le : (s : SectionData) (n : ℕ) → wanted_seats s ≤ n → s.row.capacity ≤ n
wanted_le s n h = ground arith

not_above : (n : ℕ) → ltb 10 n ≡ false → n ≤ 10
not_above n h = ground arith

-- The assignments of sections of the request in its classrooms and at its time slots, with a seat
-- for everyone, no instructor and no classroom busy twice at one time slot.
abbrev pub IsBooked : Constraints → Tables → List Assignment → Type 0
IsBooked r s found =
    (ps : List Placement) × (map assigned ps ≡ found)
    × ((p : Placement)
        → In p ps
        → In p.section (section_data r s)
          × In p.classroom (classroom_data r s)
          × In p.slot r.time_slots
          × (p.section.row.capacity ≤ p.classroom.capacity))
    × NoClash [] (classroom_data r s) r.time_slots ps

-- No timetable exists: no placement of all sections, seats for everyone, without an instructor,
-- classroom or student busy twice at one time slot.
abbrev pub IsHopeless : Constraints → Tables → Type 0
IsHopeless r s =
    (ps : List Placement)
    → IsTimetable (groups_of r s) (classroom_data r s) r.time_slots (section_data r s) ps
    → Empty {0}

-- The backtracking solver has its turn: the genetic algorithm was not asked, or found nothing.
abbrev pub IsLeft : (ℕ → ℕ) → Constraints → Tables → Type 0
IsLeft random r s =
    (length r.sections ≤ 10)
    ⊎ (solve_with_genetic_algorithm random (section_data r s) (classroom_data r s) r.time_slots
          r.prefers
        ≡ ok none)

-- What the genetic algorithm, which only more than ten sections reach, answers.
abbrev pub Answers :
    (ℕ → ℕ) → Constraints → Tables → Result SchedulingError (Option (List Assignment)) → Type 0
Answers random r s answer =
    (10 < length r.sections)
    × (solve_with_genetic_algorithm random (section_data r s) (classroom_data r s) r.time_slots
          r.prefers
        ≡ answer)

-- The rows of a timetable of all the sections are saved, students included.
abbrev pub IsPlanned : (ℕ → ℕ) → Constraints → Tables → Type 0
IsPlanned random r s =
    IsLeft random r s
    × (ps : List Placement) × IsTimetable (groups_of r s) (classroom_data r s) r.time_slots
        (sorted_sections (section_data r s)) ps
    × (generate_schedule random r s
        ≡ ok (schedule_rows (map assigned ps) s.next_id, with_schedules (map assigned ps) s))

-- There is no timetable, and the call says so.
abbrev pub IsRefused : (ℕ → ℕ) → Constraints → Tables → Type 0
IsRefused random r s =
    IsLeft random r s × (generate_schedule random r s ≡ err no_timetable) × IsHopeless r s

-- The assignments of the genetic algorithm are saved, and enough sections have one.
abbrev pub IsBred : (ℕ → ℕ) → Constraints → Tables → Type 0
IsBred random r s =
    (found : List Assignment) × Answers random r s (ok (some found))
    × (generate_schedule random r s ≡ ok (schedule_rows found s.next_id, with_schedules found s))
    × (1000 + 50 * length (section_data r s) ≤ 180 * length found)
    × IsBooked r s found

-- The genetic algorithm throws, and the call with it.
abbrev pub IsThrown : (ℕ → ℕ) → Constraints → Tables → Type 0
IsThrown random r s =
    (e : SchedulingError) × Answers random r s (err e) × (generate_schedule random r s ≡ err e)

-- The backtracking solver's turn.
fallback_outcome :
    (random : ℕ → ℕ) (r : Constraints) (s : Tables)
    → genetic_first random r s ≡ ok none
    → IsLeft random r s
    → IsPlanned random r s ⊎ IsRefused random r s
unfolding generate_schedule
fallback_outcome random r s e left =
    elim (solve_csp_exact (section_data r s) (classroom_data r s) r.time_slots (groups_of r s)) [
      | inl (ps, stats, timetable, f) ↦ inl (left, ps, timetable, rw (e, f) refl)
      | inr (f, hopeless) ↦ inr (left, rw (e, f) refl, hopeless)
    ]

-- The genetic algorithm's turn.
genetic_outcome :
    (random : ℕ → ℕ) (r : Constraints) (s : Tables)
    → length (section_data r s) ≤ 15
    → ltb 10 (length r.sections) ≡ true
    → IsPlanned random r s ⊎ IsRefused random r s ⊎ IsBred random r s ⊎ IsThrown random r s
unfolding generate_schedule
genetic_outcome random r s few many =
    let rooms = classroom_data r s in
    let sections = section_data r s in
    let beyond = ltb→lt 10 (length r.sections) many in
    elim (Result-cases
      (solve_with_genetic_algorithm random sections rooms r.time_slots r.prefers)) [
        | inl (x, f) ↦ inr (inr (inr (x, (beyond, f), rw (many, f) refl)))
        | inr (o, f) ↦ elim (Option-cases o) [
          | inl g ↦
              let nothing = f ∙ ap ok g in
              elim (fallback_outcome random r s (rw (many, nothing) refl) (inr nothing)) [
                | inl planned ↦ inl planned
                | inr refused ↦ inr (inl refused)
              ]
          | inr (found, g) ↦
              let something = f ∙ ap ok g in
              let (fewer, enough) =
                solve_with_genetic_algorithm_bounds random sections rooms r.time_slots r.prefers
                  found something in
              let (ps, same, seated, apart) =
                solve_with_genetic_algorithm-IsSeated random sections rooms r.time_slots r.prefers
                  found few something in
              inr (
                inr (
                  inl (
                    found,
                    (beyond, something),
                    rw (many, something) refl,
                    enough,
                    (
                      ps,
                      same,
                      (λ p i.
                          let place = seated p i in
                          (
                            place.0,
                            place.1,
                            place.2,
                            wanted_le p.section p.classroom.capacity place.3,
                          )),
                      apart,
                    ),
                  )))
        ]
      ]

-- For at most 15 sections `generateSchedule` ends in one of four ways. When at most ten sections are
-- asked for, or the genetic algorithm finds nothing: it saves a timetable of all the sections, everyone
-- with a seat, no instructor, classroom or student busy twice at one time slot; or there is no such
-- timetable, and it gives up. When more than ten are asked for: it saves what the genetic algorithm
-- finds, a number a of assignments for the n sections with 1000 + 50 n ≤ 180 a, in active classrooms
-- of the request and at its time slots, with the seats of their capacity, no instructor and no
-- classroom twice at one time slot; or it throws what the genetic algorithm throws.
pub generate_schedule_outcome :
    (random : ℕ → ℕ) (r : Constraints) (s : Tables)
    → length (section_data r s) ≤ 15
    → IsPlanned random r s ⊎ IsRefused random r s ⊎ IsBred random r s ⊎ IsThrown random r s
generate_schedule_outcome random r s few = elim (Bool-cases (ltb 10 (length r.sections))) [
  | inl many ↦ genetic_outcome random r s few many
  | inr e ↦
      let small : length r.sections ≤ 10 = not_above (length r.sections) e in
      elim (fallback_outcome random r s (rw e refl) (inl small)) [
        | inl planned ↦ inl planned
        | inr refused ↦ inr (inl refused)
      ]
]
