-- ===== src/Scheduling/Genetic.antt =====
-- The genetic algorithm of src/services/schedulingService.js.
pub mod Sections
pub mod Fitness
use obs_system_backend_berka.Base.{
  ℕ, zero, suc, ◌+◌, ◌-◌, ◌*◌, ◌/◌, Bool, true, false, not, ◌&&◌, ◌||◌, Option, none, some, List,
  [], ◌∷◌, ◌++◌, ltb, leb, ◌==◌, if◌then◌else◌, length, find, filter, take, drop, map, Result, err,
  ok, ◌>>=◌, or_throw,
}
use obs_system_backend_berka.Base.Int.{ℤ, pos, sub_ℕ, ltb_ℤ}
use obs_system_backend_berka.Base.Sort.{sort_by}
use obs_system_backend_berka.Scheduling.{
  TimeSlot, Classroom, SectionData, Assignment, Owner, Use, same_key, is_used, add,
}

-- A `TypeError` (a field of `undefined` is read), or the error of `generateSchedule`.
pub data SchedulingError : Type 0 where
  type_error : SchedulingError
  no_timetable : SchedulingError

-- The classroom and time of a gene.
pub record Place : Type 0 where
  pub classroom_id : ℕ
  pub slot : TimeSlot

-- An entry of an individual; no place is the entry of nulls.
pub record Gene : Type 0 where
  pub section_id : ℕ
  pub place : Option Place

abbrev pub Individual : Type 0
Individual = List Gene

abbrev pub unassigned_gene : ℕ → Gene
unassigned_gene id = record { section_id = id; place = none }

abbrev pub assigned_gene : ℕ → ℕ → TimeSlot → Gene
assigned_gene id classroom_id slot = record {
  section_id = id;
  place = some (record { classroom_id = classroom_id; slot = slot });
}

-- `section.capacity || 30`
abbrev pub wanted_seats : SectionData → ℕ
wanted_seats s = if s.row.capacity == 0 then 30 else s.row.capacity

abbrev pub seating : SectionData → List Classroom → List Classroom
seating section classrooms =
    filter (λ (c : Classroom). leb (wanted_seats section) c.capacity) classrooms

-- `xs[i]`
abbrev pub element {ℓ} : {A : Type ℓ} → List A → ℕ → Option A
element [] i = none
element (x ∷ xs) zero = some x
element (x ∷ xs) (suc i) = element xs i

abbrev pub replace {ℓ} : {A : Type ℓ} → ℕ → A → List A → List A
replace i y [] = []
replace zero y (x ∷ xs) = y ∷ xs
replace (suc i) y (x ∷ xs) = x ∷ replace i y xs

-- `Math.random()` is a multiple of this fraction.
abbrev pub resolution : ℕ
resolution = 9007199254740992

-- `Math.floor(Math.random() * n)`
abbrev pub index_below : ℕ → ℕ → ℕ
index_below r n = (r * n) / resolution

-- The sums of `calculateFitness`.
pub record Score : Type 0 where
  pub rewards : ℕ
  pub violations : ℕ
  pub assigned_count : ℕ
  pub used_slots : List Use

pub record Scored : Type 0 where
  pub individual : Individual
  pub fitness : ℤ

abbrev pub penalty_if : Bool → ℕ
penalty_if b = if b then 10 else 0

abbrev pub good_utilization : SectionData → Classroom → Bool
good_utilization s c =
    ltb (7 * c.capacity) (10 * wanted_seats s) && ltb (100 * wanted_seats s) (95 * c.capacity)

abbrev pub best_of : List Scored → Result SchedulingError Individual
best_of [] = err type_error
best_of (x ∷ xs) = ok x.individual

abbrev pub no_score : Score
no_score = record { rewards = 0; violations = 0; assigned_count = 0; used_slots = [] }

-- `random i` is the i-th number of `Math.random()`, in units of the resolution.
module _ (random : ℕ → ℕ) (sections : List SectionData) (classrooms : List Classroom)
    (slots : List TimeSlot) (prefers : Owner → TimeSlot → Bool) where
  -- The gene of a section for a classroom and a time slot, `none` where the list is empty.
  abbrev pub random_gene :
      SectionData → Option Classroom → Option TimeSlot → List Use → ℕ → Gene × List Use × ℕ
  random_gene section (some c) (some k) used i =
      if not (is_used section.row.instructor_id k used) && not (is_used (some c.id) k used)
      then (
        assigned_gene section.row.id c.id k,
        add (some c.id) k (add section.row.instructor_id k used),
        i + 2,
      )
      else (unassigned_gene section.row.id, used, i + 2)
  random_gene section _ _ used i = (unassigned_gene section.row.id, used, i)

  -- The random choice for a section.
  abbrev pub choose_gene : SectionData → List Use → ℕ → Gene × List Use × ℕ
  choose_gene section used i =
      let rooms : List Classroom = seating section classrooms in
      random_gene section (element rooms (index_below (random i) (length rooms)))
        (element slots (index_below (random (i + 1)) (length slots))) used i

  -- An individual of `initializePopulation`, and the count of random numbers after it.
  unfoldable pub random_individual : List SectionData → List Use → ℕ → Individual × ℕ
  random_individual [] used i = ([], i)
  random_individual (x ∷ xs) used i =
      let (gene, used', i') = choose_gene x used i in
      let (genes, i'') = random_individual xs used' i' in (gene ∷ genes, i'')

  -- `initializePopulation`
  unfoldable pub initialize_population : ℕ → ℕ → List Individual × ℕ
  unfolding random_individual
  initialize_population zero i = ([], i)
  initialize_population (suc size) i =
      let (individual, i') = random_individual sections [] i in
      let (rest, i'') = initialize_population size i' in (individual ∷ rest, i'')

  -- The sums after an assignment whose section, classroom and slot are found.
  abbrev pub count_assignment : SectionData → Classroom → TimeSlot → Score → Score
  count_assignment x c k s =
      let instructor : Owner = x.row.instructor_id in
      record {
        rewards =
            s.rewards
            + 100
            + (if prefers instructor k then 20 else 0)
            + (if good_utilization x c then 10 else 0);
        violations =
            s.violations
            + penalty_if (is_used instructor k s.used_slots)
            + penalty_if (is_used (some c.id) k s.used_slots)
            + penalty_if (ltb c.capacity (wanted_seats x));
        assigned_count = suc s.assigned_count;
        used_slots = add (some c.id) k (add instructor k s.used_slots);
      }

  abbrev pub count_missing : Score → Score
  count_missing s = record {
    rewards = s.rewards;
    violations = s.violations + 10;
    assigned_count = suc s.assigned_count;
    used_slots = s.used_slots;
  }

  abbrev pub count_found : Option SectionData → Option Classroom → Option TimeSlot → Score → Score
  count_found (some x) (some c) (some k) s = count_assignment x c k s
  count_found _ _ _ s = count_missing s

  abbrev pub section_of : ℕ → Option SectionData
  section_of id = find (λ (x : SectionData). x.row.id == id) sections

  abbrev pub classroom_of : ℕ → Option Classroom
  classroom_of id = find (λ (c : Classroom). c.id == id) classrooms

  -- The body of the loop of `calculateFitness`.
  abbrev pub count_gene : ℕ → Option Place → Score → Score
  count_gene id none s = s
  count_gene id (some p) s =
      count_found (section_of id) (classroom_of p.classroom_id)
        (find (λ k. same_key k p.slot) slots) s

  unfoldable pub score : Individual → Score → Score
  score [] s = s
  score (g ∷ gs) s = score gs (count_gene g.section_id g.place s)

  -- `calculateFitness`: the rewards, less 50 for each section that is not assigned and 100 for each
  -- point of the violations.
  unfoldable pub calculate_fitness : Individual → ℤ
  unfolding score
  calculate_fitness individual =
      let s : Score = score individual no_score in
      sub_ℕ (s.rewards + 50 * s.assigned_count) (50 * length sections + 100 * s.violations)

  abbrev pub fitter : Scored → Scored → Bool
  fitter a b = not (ltb_ℤ a.fitness b.fitness)

  abbrev pub evaluate : Individual → Scored
  evaluate individual = record { individual = individual; fitness = calculate_fitness individual }

  -- `fitnessScores`, sorted.
  abbrev pub ranked : List Individual → List Scored
  ranked population = sort_by fitter (map evaluate population)

  -- `tournamentSelection` of three.
  unfoldable pub tournament_selection : List Scored → ℕ → Result SchedulingError Individual
  tournament_selection scores i = do
    a ← or_throw (element scores (index_below (random i) (length scores))) type_error
    b ← or_throw (element scores (index_below (random (i + 1)) (length scores))) type_error
    c ← or_throw (element scores (index_below (random (i + 2)) (length scores))) type_error
    best_of (sort_by fitter (a ∷ b ∷ c ∷ []))

  -- `crossover`
  unfoldable pub crossover : Individual → Individual → ℕ → Individual × Individual
  crossover parent1 parent2 i =
      let point : ℕ = index_below (random i) (length sections) in
      (take point parent1 ++ drop point parent2, take point parent2 ++ drop point parent1)

  -- The new gene, where a classroom seats the section.
  abbrev pub set_place :
      ℕ
      → Gene
      → Option Classroom
      → Option TimeSlot
      → Individual
      → ℕ
      → Result SchedulingError (Individual × ℕ)
  set_place index gene none k individual i = ok (individual, i)
  set_place index gene (some c) none individual i = err type_error
  set_place index gene (some c) (some k) individual i =
      ok (replace index (assigned_gene gene.section_id c.id k) individual, i + 2)

  -- A random classroom that seats the gene's section, and a random time slot.
  abbrev pub mutate_gene :
      ℕ → Gene → Option SectionData → Individual → ℕ → Result SchedulingError (Individual × ℕ)
  mutate_gene index gene none individual i = ok (individual, i)
  mutate_gene index gene (some x) individual i =
      let rooms : List Classroom = seating x classrooms in
      set_place index gene (element rooms (index_below (random i) (length rooms)))
        (element slots (index_below (random (i + 1)) (length slots))) individual i

  abbrev pub mutate_at : ℕ → Option Gene → Individual → ℕ → Result SchedulingError (Individual × ℕ)
  mutate_at index none individual i = ok (individual, i)
  mutate_at index (some gene) individual i =
      mutate_gene index gene (section_of gene.section_id) individual i

  -- `mutate`
  unfoldable pub mutate : Individual → ℕ → Result SchedulingError (Individual × ℕ)
  mutate individual i =
      let index : ℕ = index_below (random i) (length individual) in
      mutate_at index (element individual index) individual (i + 1)

  -- `Math.random() < tenths / 10`
  abbrev pub chance : ℕ → ℕ → Bool
  chance tenths r = ltb (10 * r) (tenths * resolution)

  -- The two children before mutation.
  abbrev pub offspring_of : Individual → Individual → ℕ → (Individual × Individual) × ℕ
  offspring_of parent1 parent2 i =
      if chance 7 (random i)
      then (crossover parent1 parent2 (i + 1), i + 2)
      else ((parent1, parent2), i + 1)

  abbrev pub maybe_mutate : Individual → ℕ → Result SchedulingError (Individual × ℕ)
  maybe_mutate individual i =
      if chance 1 (random i) then mutate individual (i + 1) else ok (individual, i + 1)

  -- One pass of the loop that generates offspring.
  unfoldable pub breed : List Scored → ℕ → Result SchedulingError ((Individual × Individual) × ℕ)
  unfolding tournament_selection crossover mutate
  breed scores i = do
    parent1 ← tournament_selection scores i
    parent2 ← tournament_selection scores (i + 3)
    let (pair, i') = offspring_of parent1 parent2 (i + 6)
    let (child1, child2) = pair
    (mutant1, i1) ← maybe_mutate child1 i'
    (mutant2, i2) ← maybe_mutate child2 i1
    ok ((mutant1, mutant2), i2)

  -- The offspring that fill the population up.
  unfoldable pub generate_offspring :
      List Scored → ℕ → ℕ → Result SchedulingError (List Individual × ℕ)
  unfolding breed
  generate_offspring scores zero i = ok ([], i)
  generate_offspring scores (suc zero) i = do
    (pair, i') ← breed scores i
    let (child1, child2) = pair
    ok (child1 ∷ [], i')
  generate_offspring scores (suc (suc missing)) i = do
    (pair, i') ← breed scores i
    let (child1, child2) = pair
    (rest, i'') ← generate_offspring scores missing i'
    ok (child1 ∷ child2 ∷ rest, i'')

  -- The elite of five, and their offspring.
  unfoldable pub new_population : List Scored → ℕ → Result SchedulingError (List Individual × ℕ)
  unfolding generate_offspring
  new_population scores i =
      let elite : List Individual = map (λ (x : Scored). x.individual) (take 5 scores) in
      generate_offspring scores (50 - length elite) i >>= λ r. ok (elite ++ r.0, r.1)

  -- `bestFitness` and `bestIndividual`; none is the fitness -Infinity.
  abbrev pub better : Option Scored → Scored → Scored
  better none x = x
  better (some best) x = if ltb_ℤ best.fitness x.fitness then x else best

  abbrev pub is_solution : Scored → Bool
  is_solution x = not (ltb_ℤ x.fitness (pos 1000))

  -- The body of the loop over the generations, `next` being its later passes.
  unfoldable pub next_generation :
      (List Individual → Option Scored → ℕ → Result SchedulingError (Option Scored))
      → List Scored
      → Option Scored
      → ℕ
      → Result SchedulingError (Option Scored)
  unfolding new_population
  next_generation next [] best i = err type_error
  next_generation next (first ∷ others) best i =
      let best' : Scored = better best first in
      if is_solution best'
      then ok (some best')
      else new_population (first ∷ others) i >>= λ r. next r.0 (some best') r.1

  -- The loop over the generations that are left: an individual whose fitness reaches 1000.
  unfoldable pub generations :
      ℕ → List Individual → Option Scored → ℕ → Result SchedulingError (Option Scored)
  unfolding next_generation calculate_fitness
  generations zero population best i = ok none
  generations (suc left) population best i =
      next_generation (generations left) (ranked population) best i

  abbrev pub with_assignment : ℕ → Option Place → List Assignment → List Assignment
  with_assignment id none rest = rest
  with_assignment id (some p) rest =
      record { section_id = id; classroom_id = p.classroom_id; slot = p.slot } ∷ rest

  -- The assignments of the genes that have a place.
  abbrev pub assignments_of : Individual → List Assignment
  assignments_of [] = []
  assignments_of (g ∷ gs) = with_assignment g.section_id g.place (assignments_of gs)

  abbrev pub solution_of : Option Scored → Option (List Assignment)
  solution_of none = none
  solution_of (some x) = some (assignments_of x.individual)

  -- `solveWithGeneticAlgorithm`, without its statistics.
  unfoldable pub solve_with_genetic_algorithm : Result SchedulingError (Option (List Assignment))
  unfolding initialize_population generations
  solve_with_genetic_algorithm =
      let (population, i) = initialize_population 50 0 in
      generations 100 population none i >>= λ best. ok (solution_of best)
