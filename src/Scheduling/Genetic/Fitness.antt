-- ===== src/Scheduling/Genetic/Fitness.antt =====
-- What a fitness of 1000 says of an individual in src/services/schedulingService.js.
use obs_system_backend_berka.Base.{
  ℕ, suc, ◌+◌, ◌*◌, ◌≤◌, ◌≡◌, refl, sym, ap, ◌∙◌, ◌⊎◌, inl, inr, Bool, true, false, not, Option,
  none, some, List, [], ◌∷◌, arith, ltb, ◌==◌, ==_iff, if◌then◌else◌, length, find, find_holds, map,
  In, subst, ok, Ensures, Ensures-bind,
}
use obs_system_backend_berka.Base.Int.{pos, sub_ℕ, ltb_ℤ}
use obs_system_backend_berka.Base.Keys.{find-In}
use obs_system_backend_berka.Scheduling.{
  TimeSlot, Classroom, SectionData, Assignment, Owner, Use, same_key, is_used,
}
use obs_system_backend_berka.Scheduling.Marks.{same_key_eq}
use obs_system_backend_berka.Scheduling.Timetable.{Placement, NoClash, IsFree, mark, IsFree-unmark}
use obs_system_backend_berka.Scheduling.Solution.{assigned}
use obs_system_backend_berka.Scheduling.Genetic.{
  SchedulingError, Place, Individual, Score, Scored, wanted_seats, good_utilization, penalty_if,
  count_found, section_of, classroom_of, count_gene, score, no_score, calculate_fitness,
  with_assignment, assignments_of, solution_of, initialize_population, generations,
  solve_with_genetic_algorithm,
}
use obs_system_backend_berka.Scheduling.Genetic.Sections.{
  section_ids, IsAnswer, initialize_population-AllAligned, generations-IsAnswer,
}

bonus_le : (b : Bool) (n : ℕ) → (if b then n else 0) ≤ n
bonus_le b n = ground arith

too_many : (v : ℕ) → ¬ (v + 10 ≡ v)
too_many v h = omega arith

-- No penalty was added.
no_penalty :
    (v : ℕ) (a b c : Bool)
    → v + penalty_if a + penalty_if b + penalty_if c ≡ v
    → (a ≡ false) × (b ≡ false) × (c ≡ false)
no_penalty v a b c h = ground arith

reaches : (p q : ℕ) → not (ltb_ℤ (sub_ℕ p q) (pos 1000)) ≡ true → q + 1000 ≤ p
reaches p q h = ground arith

-- With at most 15 genes a single violation keeps the fitness below 1000.
no_violation :
    (r v a n : ℕ)
    → r ≤ 130 * a
    → a ≤ n
    → n ≤ 15
    → (v ≡ 0) ⊎ (10 ≤ v)
    → (50 * n + 100 * v) + 1000 ≤ r + 50 * a
    → v ≡ 0
no_violation r v a n hr ha hn (inl e) h = e
no_violation r v a n hr ha hn (inr e) h = omega arith

-- Penalties come in tens.
tens :
    (v : ℕ) (a b c : Bool)
    → let t : ℕ = v + penalty_if a + penalty_if b + penalty_if c in (t ≡ v) ⊎ (v + 10 ≤ t)
tens v a b c = ground arith

length-section_ids : (gs : Individual) → length (section_ids gs) ≡ length gs
length-section_ids [] = refl
length-section_ids (g ∷ gs) = ap suc (length-section_ids gs)

length-ids : (xs : List SectionData) → length (map (λ (x : SectionData). x.row.id) xs) ≡ length xs
length-ids [] = refl
length-ids (x ∷ xs) = ap suc (length-ids xs)

module _ (random : ℕ → ℕ) (sections : List SectionData) (classrooms : List Classroom)
    (slots : List TimeSlot) (prefers : Owner → TimeSlot → Bool) where
  -- A gene earns at most 130, counts as one assignment at most, and never takes a violation back.
  abbrev IsStep : Score → Score → Type 0
  IsStep s t =
      (t.rewards + 130 * s.assigned_count ≤ s.rewards + 130 * t.assigned_count)
      × (t.assigned_count ≤ suc s.assigned_count)
      × ((t.violations ≡ s.violations) ⊎ (s.violations + 10 ≤ t.violations))

  count_found-IsStep :
      (x : Option SectionData) (c : Option Classroom) (k : Option TimeSlot) (s : Score)
      → IsStep s (count_found random sections classrooms slots prefers x c k s)
  count_found-IsStep (some x) (some c) (some k) s =
      let preferred = bonus_le (prefers x.row.instructor_id k) 20 in
      let utilized = bonus_le (good_utilization x c) 10 in
      (omega arith, omega arith, tens s.violations _ _ _)
  count_found-IsStep (some x) (some c) none s = (omega arith, omega arith, inr (omega arith))
  count_found-IsStep (some x) none k s = (omega arith, omega arith, inr (omega arith))
  count_found-IsStep none c k s = (omega arith, omega arith, inr (omega arith))

  count_gene-IsStep :
      (id : ℕ) (p : Option Place) (s : Score)
      → IsStep s (count_gene random sections classrooms slots prefers id p s)
  count_gene-IsStep id none s = (omega arith, omega arith, inl refl)
  count_gene-IsStep id (some p) s = count_found-IsStep _ _ _ s

  score_bounds :
      (gs : Individual) (s : Score)
      → let t : Score = score random sections classrooms slots prefers gs s in
        (t.rewards + 130 * s.assigned_count ≤ s.rewards + 130 * t.assigned_count)
        × (t.assigned_count ≤ s.assigned_count + length gs)
        × ((t.violations ≡ s.violations) ⊎ (s.violations + 10 ≤ t.violations))
  unfolding score
  score_bounds [] s = (omega arith, omega arith, inl refl)
  score_bounds (g ∷ gs) s =
      let u : Score = count_gene random sections classrooms slots prefers g.section_id g.place s in
      let (a, b, c) = count_gene-IsStep g.section_id g.place s in
      let (d, e, f) = score_bounds gs u in (omega arith, omega arith, either c f)
    where
      either :
          {x y z : ℕ} → (y ≡ x) ⊎ (x + 10 ≤ y) → (z ≡ y) ⊎ (y + 10 ≤ z) → (z ≡ x) ⊎ (x + 10 ≤ z)
      either h k = ground arith

  -- A section of the request in a classroom and at a time slot of the request, with enough seats.
  abbrev pub IsSeated : Placement → Type 0
  IsSeated p =
      In p.section sections
      × In p.classroom classrooms
      × In p.slot slots
      × (wanted_seats p.section ≤ p.classroom.capacity)

  -- A gene that costs no violation stands for a placement that fits.
  count_found-IsSeated :
      (id room : ℕ) (wanted : TimeSlot) (s : Score) (x : Option SectionData) (c : Option Classroom)
      (k : Option TimeSlot)
      → section_of random sections classrooms slots prefers id ≡ x
      → classroom_of random sections classrooms slots prefers room ≡ c
      → find (λ k. same_key k wanted) slots ≡ k
      → (count_found random sections classrooms slots prefers x c k s).violations ≡ s.violations
      → (p : Placement) × (assigned p
          ≡ record { section_id = id; classroom_id = room; slot = wanted })
        × IsSeated p
        × IsFree [] classrooms slots s.used_slots p
        × ((count_found random sections classrooms slots prefers x c k s).used_slots
            ≡ mark [] classrooms slots p s.used_slots)
  count_found-IsSeated id room wanted s (some x) (some c) (some k) ex ec ek h =
      let clean =
        no_penalty s.violations (is_used x.row.instructor_id k s.used_slots)
          (is_used (some c.id) k s.used_slots) (ltb c.capacity (wanted_seats x)) h in
      let same_id =
        (==_iff x.row.id id).0 (find_holds (λ (x : SectionData). x.row.id == id) sections ex) in
      let same_room =
        (==_iff c.id room).0 (find_holds (λ (c : Classroom). c.id == room) classrooms ec) in
      let same_slot = same_key_eq k wanted (find_holds (λ k. same_key k wanted) slots ek) in
      (
        record { section = x; classroom = c; slot = k },
        rw (same_id, same_room, same_slot) refl,
        (
          find-In (λ (x : SectionData). x.row.id == id) sections ex,
          find-In (λ (c : Classroom). c.id == room) classrooms ec,
          find-In (λ k. same_key k wanted) slots ek,
          enough c.capacity (wanted_seats x) clean.2,
        ),
        (λ o i. elim i [
          | inl e ↦ rw e clean.0
          | inr j ↦ elim j [ inl e ↦ rw e clean.1 | inr l ↦ elim l [ ] ]
        ]),
        refl,
      )
    where
      enough : (a b : ℕ) → ltb a b ≡ false → b ≤ a
      enough a b e = ground arith
  count_found-IsSeated id room wanted s (some x) (some c) none ex ec ek h =
      elim (too_many s.violations h) [ ]
  count_found-IsSeated id room wanted s (some x) none k ex ec ek h =
      elim (too_many s.violations h) [ ]
  count_found-IsSeated id room wanted s none c k ex ec ek h = elim (too_many s.violations h) [ ]

  -- Assignments that stand for placements which do not clash, with each other or with the marks.
  abbrev Placed : List Assignment → List Use → Type 0
  Placed found used =
      (ps : List Placement) × (map assigned ps ≡ found)
      × ((p : Placement) → In p ps → IsSeated p × IsFree [] classrooms slots used p)
      × NoClash [] classrooms slots ps

  Placed-with_assignment :
      (id : ℕ) (place : Option Place) (found : List Assignment) (s : Score)
      → let t : Score = count_gene random sections classrooms slots prefers id place s in
        t.violations ≡ s.violations
        → Placed found t.used_slots
        → Placed
            (with_assignment random sections classrooms slots prefers id place found)
            s.used_slots
  Placed-with_assignment id none found s h placed = placed
  Placed-with_assignment id (some place) found s h (ps, same, fits, apart) =
      let (p, stands, seated, free, marks) =
        count_found-IsSeated id place.classroom_id place.slot s _ _ _ refl refl refl h in
      let unmarked = λ (q : Placement) (i : In q ps).
        IsFree-unmark [] classrooms slots p q s.used_slots
          (subst (λ used. IsFree [] classrooms slots used q) marks ((fits q i).1)) in
      (
        p ∷ ps,
        rw (stands, same) refl,
        (λ q i. elim i [ inl e ↦ rw e (seated, free) | inr j ↦ ((fits q j).0, (unmarked q j).0) ]),
        ((λ q i. (unmarked q i).1), apart),
      )

  -- An individual that costs no violation stands for placements that do not clash.
  score-Placed :
      (gs : Individual) (s : Score)
      → (score random sections classrooms slots prefers gs s).violations ≡ s.violations
      → Placed (assignments_of random sections classrooms slots prefers gs) s.used_slots
  unfolding score
  score-Placed [] s h = ([], refl, (λ p i. elim i [ ]), tt)
  score-Placed (g ∷ gs) s h =
      let t : Score = count_gene random sections classrooms slots prefers g.section_id g.place s in
      let (a, b, first) = count_gene-IsStep g.section_id g.place s in
      let (c, d, later) = score_bounds gs t in
      let rest : (score random sections classrooms slots prefers gs t).violations ≡ t.violations =
        omega arith in
      let this : t.violations ≡ s.violations = omega arith in
      Placed-with_assignment g.section_id g.place _ s this (score-Placed gs t rest)

  assigned_count-count_found :
      (x : Option SectionData) (c : Option Classroom) (k : Option TimeSlot) (s : Score)
      → (count_found random sections classrooms slots prefers x c k s).assigned_count
        ≡ suc s.assigned_count
  assigned_count-count_found (some x) (some c) (some k) s = refl
  assigned_count-count_found (some x) (some c) none s = refl
  assigned_count-count_found (some x) none k s = refl
  assigned_count-count_found none c k s = refl

  assigned_count-count_gene :
      (id : ℕ) (place : Option Place) (found : List Assignment) (s : Score)
      → (count_gene random sections classrooms slots prefers id place s).assigned_count
          + length found
        ≡ s.assigned_count
          + length (with_assignment random sections classrooms slots prefers id place found)
  assigned_count-count_gene id none found s = refl
  assigned_count-count_gene id (some p) found s =
      let counted =
        assigned_count-count_found (section_of random sections classrooms slots prefers id)
          (classroom_of random sections classrooms slots prefers p.classroom_id)
          (find (λ k. same_key k p.slot) slots) s in
      omega (arith, counted)

  length-assignments_of :
      (gs : Individual) (s : Score)
      → (score random sections classrooms slots prefers gs s).assigned_count
        ≡ s.assigned_count + length (assignments_of random sections classrooms slots prefers gs)
  unfolding score
  length-assignments_of [] s = omega arith
  length-assignments_of (g ∷ gs) s =
      let found = assignments_of random sections classrooms slots prefers gs in
      let t : Score = count_gene random sections classrooms slots prefers g.section_id g.place s in
      let first = assigned_count-count_gene g.section_id g.place found s in
      let later = length-assignments_of gs t in omega (arith, first, later)

  -- The timetable that an individual stands for, when its fitness reaches 1000.
  abbrev IsFit : Option (List Assignment) → Type 0
  IsFit none = Unit
  IsFit (some found) =
      (length found ≤ length sections)
      × (1000 + 50 * length sections ≤ 180 * length found)
      × (length sections ≤ 15
          → (ps : List Placement) × (map assigned ps ≡ found)
            × ((p : Placement) → In p ps → IsSeated p)
            × NoClash [] classrooms slots ps)

  solution_of-IsFit :
      (best : Option Scored)
      → IsAnswer random sections classrooms slots prefers best
      → IsFit (solution_of random sections classrooms slots prefers best)
  unfolding calculate_fitness
  solution_of-IsFit none h = tt
  solution_of-IsFit (some x) ((aligned, scored), solved) =
      let gs = x.individual in
      let t : Score = score random sections classrooms slots prefers gs no_score in
      let n : length gs ≡ length sections =
        sym (length-section_ids gs) ∙ ap length aligned ∙ length-ids sections in
      let (rewards, counted, violated) = score_bounds gs no_score in
      let listed = length-assignments_of gs no_score in
      let reached =
        reaches (t.rewards + 50 * t.assigned_count) (50 * length sections + 100 * t.violations)
          (subst (λ f. not (ltb_ℤ f (pos 1000)) ≡ true) scored solved) in
      (
        omega (arith, n, listed, counted),
        omega (arith, n, listed, counted, reached, rewards),
        (λ few.
            let clean =
              no_violation t.rewards t.violations t.assigned_count (length sections)
                (omega (arith, rewards)) (omega (arith, n, counted)) few violated reached in
            let (ps, same, fits, apart) = score-Placed gs no_score clean in
            (ps, same, (λ p i. (fits p i).0), apart)),
      )

  solve_with_genetic_algorithm-IsFit :
      Ensures IsFit (solve_with_genetic_algorithm random sections classrooms slots prefers)
  unfolding solve_with_genetic_algorithm
  solve_with_genetic_algorithm-IsFit =
      let first = initialize_population random sections classrooms slots prefers 50 0 in
      Ensures-bind {E = SchedulingError} (IsAnswer random sections classrooms slots prefers) IsFit
        (generations random sections classrooms slots prefers 100 first.0 none first.1)
        (λ best. ok (solution_of random sections classrooms slots prefers best))
        (generations-IsAnswer random sections classrooms slots prefers 100 first.0 none first.1
          (initialize_population-AllAligned random sections classrooms slots prefers 50 0) tt)
        (λ best h. solution_of-IsFit best h)

  IsFit-found :
      (found : List Assignment)
      → solve_with_genetic_algorithm random sections classrooms slots prefers ≡ ok (some found)
      → IsFit (some found)
  IsFit-found found e = subst (Ensures IsFit) e solve_with_genetic_algorithm-IsFit

  -- Whatever the random numbers, a timetable of the genetic algorithm holds no more assignments than
  -- there are sections, and a number a of them with 1000 + 50 n ≤ 180 a for n sections: it may leave
  -- sections out.
  pub solve_with_genetic_algorithm_bounds :
      (found : List Assignment)
      → solve_with_genetic_algorithm random sections classrooms slots prefers ≡ ok (some found)
      → (length found ≤ length sections) × (1000 + 50 * length sections ≤ 180 * length found)
  solve_with_genetic_algorithm_bounds found e = let (a, b, c) = IsFit-found found e in (a, b)

  -- With at most 15 sections, whatever the random numbers, a timetable of the genetic algorithm
  -- places sections of the request in classrooms and at time slots of the request, with the seats
  -- that their capacity asks for, and books no instructor and no classroom twice at one time slot.
  pub solve_with_genetic_algorithm-IsSeated :
      (found : List Assignment)
      → length sections ≤ 15
      → solve_with_genetic_algorithm random sections classrooms slots prefers ≡ ok (some found)
      → (ps : List Placement) × (map assigned ps ≡ found)
        × ((p : Placement) → In p ps → IsSeated p)
        × NoClash [] classrooms slots ps
  solve_with_genetic_algorithm-IsSeated found few e = let (a, b, c) = IsFit-found found e in c few
