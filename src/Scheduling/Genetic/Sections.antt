-- ===== src/Scheduling/Genetic/Sections.antt =====
-- The individuals of the genetic algorithm of src/services/schedulingService.js keep one gene for
-- each section.
use obs_system_backend_berka.Base.{
  ℕ, zero, suc, ◌+◌, ◌≡◌, refl, sym, ap, ◌∙◌, inl, inr, Bool, true, not, ◌&&◌, Option, none, some,
  List, [], ◌∷◌, ◌++◌, length, Bool-cases, take, drop, map, In, Result, ok, or_throw, Ensures,
  Ensures-bind, Ensures-or_throw, ◌-◌,
}
use obs_system_backend_berka.Base.Int.{ltb_ℤ}
use obs_system_backend_berka.Base.Sort.{sort_by, In-sort_by_inv}
use obs_system_backend_berka.Scheduling.{TimeSlot, Classroom, SectionData, Owner, Use, is_used}
use obs_system_backend_berka.Scheduling.Genetic.{
  SchedulingError, type_error, Gene, Individual, Scored, element, replace, index_below,
  assigned_gene, random_gene, choose_gene, random_individual, initialize_population, fitter,
  evaluate, ranked, calculate_fitness, best_of, tournament_selection, crossover, set_place,
  mutate_gene, mutate_at, mutate, offspring_of, maybe_mutate, chance, breed, generate_offspring,
  new_population, better, is_solution, next_generation, generations,
}

-- The sections of an individual's genes.
abbrev pub section_ids : Individual → List ℕ
section_ids individual = map (λ (g : Gene). g.section_id) individual

element-In : {A : Type 0} (xs : List A) (i : ℕ) (x : A) → element xs i ≡ some x → In x xs
element-In [] i x h = cc
element-In (y ∷ ys) zero x h = inl (some_inj x y (sym h))
  where
    some_inj : {A : Type 0} (x y : A) → ◌≡◌ {A = Option A} (some x) (some y) → x ≡ y
    some_inj x y e = cc
element-In (y ∷ ys) (suc i) x h = inr (element-In ys i x h)

-- Replacing a gene by one of the same section.
section_ids-replace :
    (individual : Individual) (i : ℕ) (old new : Gene)
    → element individual i ≡ some old
    → new.section_id ≡ old.section_id
    → section_ids (replace i new individual) ≡ section_ids individual
section_ids-replace [] i old new h e = refl
section_ids-replace (g ∷ gs) zero old new h e =
    ap (λ (t : ℕ). t ∷ section_ids gs) (e ∙ sym (some_gene g old h))
  where
    some_gene : (x y : Gene) → ◌≡◌ {A = Option Gene} (some x) (some y) → x.section_id ≡ y.section_id
    some_gene x y e = let same : x ≡ y = cc in ap (λ (g : Gene). g.section_id) same
section_ids-replace (g ∷ gs) (suc i) old new h e =
    ap (λ t. g.section_id ∷ t) (section_ids-replace gs i old new h e)

-- The head of one individual with the tail of another.
section_ids-splice :
    (n : ℕ) (xs ys : Individual)
    → section_ids xs ≡ section_ids ys
    → section_ids (take n xs ++ drop n ys) ≡ section_ids ys
section_ids-splice zero xs ys h = refl
section_ids-splice (suc n) [] [] h = refl
section_ids-splice (suc n) [] (y ∷ ys) h = cc
section_ids-splice (suc n) (x ∷ xs) [] h = cc
section_ids-splice (suc n) (x ∷ xs) (y ∷ ys) h =
    let same : x.section_id ≡ y.section_id = cc in
    let rest = section_ids-splice n xs ys tails in rw (same, rest) refl
  where
    tails : section_ids xs ≡ section_ids ys
    tails = cc

module _ (random : ℕ → ℕ) (sections : List SectionData) (classrooms : List Classroom)
    (slots : List TimeSlot) (prefers : Owner → TimeSlot → Bool) where
  -- One gene for each section, in the order of the sections.
  abbrev pub IsAligned : Individual → Type 0
  IsAligned individual = section_ids individual ≡ map (λ (x : SectionData). x.row.id) sections

  abbrev pub AllAligned : List Individual → Type 0
  AllAligned population = (x : Individual) → In x population → IsAligned x

  -- An aligned individual with its fitness.
  abbrev pub IsScored : Scored → Type 0
  IsScored x =
      IsAligned x.individual
      × (x.fitness ≡ calculate_fitness random sections classrooms slots prefers x.individual)

  random_gene-section_id :
      (x : SectionData) (c : Option Classroom) (k : Option TimeSlot) (used : List Use) (i : ℕ)
      → (random_gene random sections classrooms slots prefers x c k used i).0.section_id ≡ x.row.id
  random_gene-section_id x none k used i = refl
  random_gene-section_id x (some c) none used i = refl
  random_gene-section_id x (some c) (some k) used i =
      elim (Bool-cases
        (not (is_used x.row.instructor_id k used) && not (is_used (some c.id) k used))) [
          | inl e ↦ rw e refl
          | inr e ↦ rw e refl
        ]

  random_individual-section_ids :
      (xs : List SectionData) (used : List Use) (i : ℕ)
      → section_ids (random_individual random sections classrooms slots prefers xs used i).0
        ≡ map (λ (x : SectionData). x.row.id) xs
  unfolding random_individual
  random_individual-section_ids [] used i = refl
  random_individual-section_ids (x ∷ xs) used i =
      let chosen = choose_gene random sections classrooms slots prefers x used i in
      rw (random_gene-section_id x _ _ used i, random_individual-section_ids xs chosen.1 chosen.2)
        refl

  pub initialize_population-AllAligned :
      (size i : ℕ)
      → AllAligned (initialize_population random sections classrooms slots prefers size i).0
  unfolding initialize_population
  initialize_population-AllAligned zero i x h = elim h [ ]
  initialize_population-AllAligned (suc size) i x (inl e) =
      rw e (random_individual-section_ids sections [] i)
  initialize_population-AllAligned (suc size) i x (inr h) =
      initialize_population-AllAligned size _ x h

  map-evaluate-IsScored :
      (population : List Individual) (x : Scored)
      → AllAligned population
      → In x (map (evaluate random sections classrooms slots prefers) population)
      → IsScored x
  map-evaluate-IsScored [] x h i = elim i [ ]
  map-evaluate-IsScored (p ∷ ps) x h (inl e) = rw e (h p (inl refl), refl)
  map-evaluate-IsScored (p ∷ ps) x h (inr i) = map-evaluate-IsScored ps x (λ y j. h y (inr j)) i

  ranked-IsScored :
      (population : List Individual) (x : Scored)
      → AllAligned population
      → In x (ranked random sections classrooms slots prefers population)
      → IsScored x
  ranked-IsScored population x h i =
      map-evaluate-IsScored population x h
        (In-sort_by_inv (fitter random sections classrooms slots prefers) x _ i)

  abbrev AllScored : List Scored → Type 0
  AllScored scores = (x : Scored) → In x scores → IsScored x

  best_of-IsAligned : (scores : List Scored) → AllScored scores → Ensures IsAligned (best_of scores)
  best_of-IsAligned [] h = tt
  best_of-IsAligned (x ∷ xs) h = (h x (inl refl)).0

  tournament_selection-IsAligned :
      (scores : List Scored) (i : ℕ)
      → AllScored scores
      → Ensures IsAligned (tournament_selection random sections classrooms slots prefers scores i)
  unfolding tournament_selection
  tournament_selection-IsAligned scores i h =
      let drawn = λ (n : ℕ).
        Ensures-or_throw {E = SchedulingError} IsScored (element scores n) type_error
          (λ a e. h a (element-In scores n a e)) in
      let at = λ (n : ℕ). index_below (random n) (length scores) in
      let sorted = fitter random sections classrooms slots prefers in
      Ensures-bind IsScored IsAligned (or_throw (element scores (at i)) type_error) _ (drawn (at i))
        (λ a ha.
          Ensures-bind IsScored IsAligned (or_throw (element scores (at (i + 1))) type_error) _
            (drawn (at (i + 1)))
            (λ b hb.
              Ensures-bind IsScored IsAligned (or_throw (element scores (at (i + 2))) type_error) _
                (drawn (at (i + 2)))
                (λ c hc. best_of-IsAligned (sort_by sorted (a ∷ b ∷ c ∷ [])) (λ x j.
                  elim (In-sort_by_inv sorted x (a ∷ b ∷ c ∷ []) j) [
                    | inl e ↦ rw e ha
                    | inr k ↦ elim k [
                      | inl e ↦ rw e hb
                      | inr l ↦ elim l [ inl e ↦ rw e hc | inr m ↦ elim m [ ] ]
                    ]
                  ]))))

  abbrev ArePair : Individual × Individual → Type 0
  ArePair pair = IsAligned pair.0 × IsAligned pair.1

  offspring_of-ArePair :
      (x y : Individual) (i : ℕ)
      → IsAligned x
      → IsAligned y
      → ArePair (offspring_of random sections classrooms slots prefers x y i).0
  unfolding crossover
  offspring_of-ArePair x y i hx hy =
      let point = index_below (random (i + 1)) (length sections) in
      elim (Bool-cases (chance random sections classrooms slots prefers 7 (random i))) [
        | inl e ↦ rw e (
          section_ids-splice point x y (hx ∙ sym hy) ∙ hy,
          section_ids-splice point y x (hy ∙ sym hx) ∙ hx,
        )
        | inr e ↦ rw e (hx, hy)
      ]

  abbrev FirstAligned : Individual × ℕ → Type 0
  FirstAligned r = IsAligned r.0

  set_place-IsAligned :
      (index : ℕ) (gene : Gene) (c : Option Classroom) (k : Option TimeSlot)
      (individual : Individual) (i : ℕ)
      → element individual index ≡ some gene
      → IsAligned individual
      → Ensures FirstAligned
          (set_place random sections classrooms slots prefers index gene c k individual i)
  set_place-IsAligned index gene none k individual i at h = h
  set_place-IsAligned index gene (some c) none individual i at h = tt
  set_place-IsAligned index gene (some c) (some k) individual i at h =
      section_ids-replace individual index gene (assigned_gene gene.section_id c.id k) at refl ∙ h

  mutate_gene-IsAligned :
      (index : ℕ) (gene : Gene) (x : Option SectionData) (individual : Individual) (i : ℕ)
      → element individual index ≡ some gene
      → IsAligned individual
      → Ensures FirstAligned
          (mutate_gene random sections classrooms slots prefers index gene x individual i)
  mutate_gene-IsAligned index gene none individual i at h = h
  mutate_gene-IsAligned index gene (some x) individual i at h =
      set_place-IsAligned index gene _ _ individual i at h

  mutate_at-IsAligned :
      (index : ℕ) (gene : Option Gene) (individual : Individual) (i : ℕ)
      → element individual index ≡ gene
      → IsAligned individual
      → Ensures FirstAligned
          (mutate_at random sections classrooms slots prefers index gene individual i)
  mutate_at-IsAligned index none individual i at h = h
  mutate_at-IsAligned index (some gene) individual i at h =
      mutate_gene-IsAligned index gene _ individual i at h

  mutate-IsAligned :
      (individual : Individual) (i : ℕ)
      → IsAligned individual
      → Ensures FirstAligned (mutate random sections classrooms slots prefers individual i)
  unfolding mutate
  mutate-IsAligned individual i h = mutate_at-IsAligned _ _ individual (i + 1) refl h

  maybe_mutate-IsAligned :
      (individual : Individual) (i : ℕ)
      → IsAligned individual
      → Ensures FirstAligned (maybe_mutate random sections classrooms slots prefers individual i)
  maybe_mutate-IsAligned individual i h =
      elim (Bool-cases (chance random sections classrooms slots prefers 1 (random i))) [
        | inl e ↦ rw e (mutate-IsAligned individual (i + 1) h)
        | inr e ↦ rw e h
      ]

  abbrev PairAligned : (Individual × Individual) × ℕ → Type 0
  PairAligned r = ArePair r.0

  breed-PairAligned :
      (scores : List Scored) (i : ℕ)
      → AllScored scores
      → Ensures PairAligned (breed random sections classrooms slots prefers scores i)
  unfolding breed
  breed-PairAligned scores i h =
      let parent = λ (n : ℕ). tournament_selection-IsAligned scores n h in
      Ensures-bind IsAligned PairAligned _ _ (parent i) (λ x hx.
        Ensures-bind IsAligned PairAligned _ _ (parent (i + 3)) (λ y hy.
          let children = offspring_of-ArePair x y (i + 6) hx hy in
          Ensures-bind FirstAligned PairAligned _ _ (maybe_mutate-IsAligned _ _ children.0) (λ r hr.
            Ensures-bind FirstAligned PairAligned _ _ (maybe_mutate-IsAligned _ r.1 children.1)
              (λ t ht. (hr, ht)))))

  abbrev FirstAllAligned : List Individual × ℕ → Type 0
  FirstAllAligned r = AllAligned r.0

  AllAligned-cons :
      (x : Individual) (xs : List Individual) → IsAligned x → AllAligned xs → AllAligned (x ∷ xs)
  AllAligned-cons x xs h hs y (inl e) = rw e h
  AllAligned-cons x xs h hs y (inr i) = hs y i

  generate_offspring-AllAligned :
      (scores : List Scored) (missing i : ℕ)
      → AllScored scores
      → Ensures FirstAllAligned
          (generate_offspring random sections classrooms slots prefers scores missing i)
  unfolding generate_offspring
  generate_offspring-AllAligned scores zero i h = λ x j. elim j [ ]
  generate_offspring-AllAligned scores (suc zero) i h =
      Ensures-bind PairAligned FirstAllAligned _ _ (breed-PairAligned scores i h)
        (λ r hr. AllAligned-cons r.0.0 [] hr.0 (λ x j. elim j [ ]))
  generate_offspring-AllAligned scores (suc (suc missing)) i h =
      Ensures-bind PairAligned FirstAllAligned _ _ (breed-PairAligned scores i h) (λ r hr.
        Ensures-bind FirstAllAligned FirstAllAligned _ _
          (generate_offspring-AllAligned scores missing r.1 h)
          (λ t ht. AllAligned-cons r.0.0 (r.0.1 ∷ t.0) hr.0 (AllAligned-cons r.0.1 t.0 hr.1 ht)))

  AllAligned-append :
      (xs ys : List Individual) → AllAligned xs → AllAligned ys → AllAligned (xs ++ ys)
  AllAligned-append [] ys h k = k
  AllAligned-append (x ∷ xs) ys h k =
      AllAligned-cons x (xs ++ ys) (h x (inl refl)) (AllAligned-append xs ys (λ y i. h y (inr i)) k)

  AllAligned-elite :
      (n : ℕ) (scores : List Scored)
      → AllScored scores
      → AllAligned (map (λ (x : Scored). x.individual) (take n scores))
  AllAligned-elite zero scores h = λ x i. elim i [ ]
  AllAligned-elite (suc n) [] h = λ x i. elim i [ ]
  AllAligned-elite (suc n) (x ∷ xs) h =
      AllAligned-cons x.individual _ ((h x (inl refl)).0)
        (AllAligned-elite n xs (λ y i. h y (inr i)))

  new_population-AllAligned :
      (scores : List Scored) (i : ℕ)
      → AllScored scores
      → Ensures FirstAllAligned (new_population random sections classrooms slots prefers scores i)
  unfolding new_population
  new_population-AllAligned scores i h =
      let elite = map (λ (x : Scored). x.individual) (take 5 scores) in
      let missing = 50 - length elite in
      Ensures-bind {E = SchedulingError} FirstAllAligned FirstAllAligned
        (generate_offspring random sections classrooms slots prefers scores missing i)
        (λ r. ok (elite ++ r.0, r.1)) (generate_offspring-AllAligned scores missing i h)
        (λ r hr. AllAligned-append elite r.0 (AllAligned-elite 5 scores h) hr)

  abbrev IsBest : Option Scored → Type 0
  IsBest none = Unit
  IsBest (some x) = IsScored x

  -- What the loop returns: an aligned individual whose fitness reaches 1000, or nothing.
  abbrev pub IsAnswer : Option Scored → Type 0
  IsAnswer none = Unit
  IsAnswer (some x) = IsScored x × (is_solution random sections classrooms slots prefers x ≡ true)

  better-IsScored :
      (best : Option Scored) (x : Scored)
      → IsBest best
      → IsScored x
      → IsScored (better random sections classrooms slots prefers best x)
  better-IsScored none x h k = k
  better-IsScored (some b) x h k = elim (Bool-cases (ltb_ℤ b.fitness x.fitness)) [
    | inl e ↦ rw e k
    | inr e ↦ rw e h
  ]

  next_generation-IsAnswer :
      (next : List Individual → Option Scored → ℕ → Result SchedulingError (Option Scored))
      (scores : List Scored) (best : Option Scored) (i : ℕ)
      → ((population : List Individual) (b : Option Scored) (n : ℕ)
          → AllAligned population
          → IsBest b
          → Ensures IsAnswer (next population b n))
      → AllScored scores
      → IsBest best
      → Ensures IsAnswer
          (next_generation random sections classrooms slots prefers next scores best i)
  unfolding next_generation
  next_generation-IsAnswer next [] best i later h hb = tt
  next_generation-IsAnswer next (first ∷ others) best i later h hb =
      let b = better random sections classrooms slots prefers best first in
      let scored : IsScored b = better-IsScored best first hb (h first (inl refl)) in
      elim (Bool-cases (is_solution random sections classrooms slots prefers b)) [
        | inl e ↦ rw (Ensures, e) (scored, e)
        | inr e ↦
            rw (Ensures, e)
              (Ensures-bind {E = SchedulingError} FirstAllAligned IsAnswer
                (new_population random sections classrooms slots prefers (first ∷ others) i)
                (λ r. next r.0 (some b) r.1) (new_population-AllAligned (first ∷ others) i h)
                (λ r hr. later r.0 (some b) r.1 hr scored))
      ]

  pub generations-IsAnswer :
      (left : ℕ) (population : List Individual) (best : Option Scored) (i : ℕ)
      → AllAligned population
      → IsBest best
      → Ensures IsAnswer
          (generations random sections classrooms slots prefers left population best i)
  unfolding generations
  generations-IsAnswer zero population best i h hb = tt
  generations-IsAnswer (suc left) population best i h hb =
      next_generation-IsAnswer (generations random sections classrooms slots prefers left)
        (ranked random sections classrooms slots prefers population) best i
        (generations-IsAnswer left) (λ x j. ranked-IsScored population x h j) hb
