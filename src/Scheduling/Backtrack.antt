-- ===== src/Scheduling/Backtrack.antt =====
-- The backtracking search `solveCSP` of src/services/schedulingService.js against the timetables
-- that it looks for.
use obs_system_backend_berka.Base.{
  ℕ, ◌≤◌, ◌≡◌, refl, sym, ap, ◌⊎◌, inl, inr, Bool, true, false, not, List, [], ◌∷◌, ◌++◌, arith,
  ltb, Bool-cases, filter, In, Empty, subst, In-filter, In-filter_inv,
}
use obs_system_backend_berka.Base.Sort.{In-sort_by, In-sort_by_inv}
use obs_system_backend_berka.Scheduling.{
  TimeSlot, Classroom, SectionData, StudentEnrollments, Assignment, Use, SolverState,
  section_capacity, check_hard_constraints, valid_classrooms, valid_order, pop, owners, assignment,
  assign, unassign, first_of, try_slot, backtrack,
}
use obs_system_backend_berka.Scheduling.Marks.{delete_all-add_all}
use obs_system_backend_berka.Scheduling.Timetable.{
  Placement, IsPlace, IsTimetable, IsFree, IsFree-mark, IsFree-unmark,
  check_hard_constraints-IsFree, IsFree-check_hard_constraints, not_ltb, not_both,
}

seats_le : (a b : ℕ) → not (ltb a b) ≡ true → b ≤ a
seats_le a b h = ground arith

-- A loop body either reports success in a state that has P, or fails, leaving the state and
-- knowing N.
abbrev pub Outcome : {S : Type 0} → Bool × S → S → (S → Type 0) → Type 0 → Type 0
Outcome {S} r s P N = ((t : S) × (r ≡ (true, t)) × P t) ⊎ ((r ≡ (false, s)) × N)

first_of-Outcome :
    {A S : Type 0} (body : A → S → Bool × S) (P : S → Type 0) (N : A → Type 0) (s : S) (xs : List A)
    → ((x : A) → In x xs → Outcome (body x s) s P (N x))
    → Outcome (first_of body xs s) s P ((x : A) → In x xs → N x)
first_of-Outcome body P N s [] each = inr (refl, λ x h. elim h [ ])
first_of-Outcome body P N s (x ∷ xs) each = elim (each x (inl refl)) [
  | inl (t, e, p) ↦ inl (t, rw e refl, p)
  | inr (e, n) ↦ elim (first_of-Outcome body P N s xs (λ y h. each y (inr h))) [
    | inl (t, f, p) ↦ inl (t, rw e f, p)
    | inr (f, ns) ↦ inr (rw e f, λ y h. elim h [ inl same ↦ rw same n | inr h' ↦ ns y h' ])
  ]
]

module _ (groups : List StudentEnrollments) (classrooms : List Classroom)
    (slots : List TimeSlot) where
  -- The state after the placements, in their order.
  abbrev pub place_all : List Placement → SolverState → SolverState
  place_all [] s = s
  place_all (p ∷ ps) s = place_all ps (assign groups p.section p.classroom p.slot s)

  -- A timetable that the marks leave room for.
  abbrev pub IsOpen : List SectionData → SolverState → List Placement → Type 0
  IsOpen sections s ps =
      IsTimetable groups classrooms slots sections ps
      × ((p : Placement) → In p ps → IsFree groups classrooms slots s.used_slots p)

  abbrev pub Solved : List SectionData → SolverState → SolverState → Type 0
  Solved sections s t = (ps : List Placement) × IsOpen sections s ps × (t ≡ place_all ps s)

  abbrev pub Unsolvable : List SectionData → SolverState → Type 0
  Unsolvable sections s = (ps : List Placement) → IsOpen sections s ps → Empty {0}

  abbrev placement : SectionData → Classroom → TimeSlot → Placement
  placement section classroom slot = record {
    section = section;
    classroom = classroom;
    slot = slot;
  }

  pop-append : (a : Assignment) (xs : List Assignment) → pop (xs ++ (a ∷ [])) ≡ xs
  pop-append a [] = refl
  pop-append a (x ∷ []) = refl
  pop-append a (x ∷ y ∷ ys) = ap (λ t. x ∷ t) (pop-append a (y ∷ ys))

  -- What an assignment changes, its removal restores.
  unassign-assign :
      (p : Placement) (s : SolverState)
      → IsFree groups classrooms slots s.used_slots p
      → unassign groups p.section p.classroom p.slot (assign groups p.section p.classroom p.slot s)
        ≡ s
  unassign-assign p s free =
      rw
        (
          pop-append (assignment p.section p.classroom p.slot) s.assignments,
          delete_all-add_all (owners groups p.section p.classroom) p.slot s.used_slots free,
        )
        refl

  -- Placing a section first.
  IsOpen-cons :
      (p : Placement) (rest : List SectionData) (s : SolverState) (ps : List Placement)
      → IsPlace groups classrooms slots p
      → IsFree groups classrooms slots s.used_slots p
      → IsOpen rest (assign groups p.section p.classroom p.slot s) ps
      → IsOpen (p.section ∷ rest) s (p ∷ ps)
  IsOpen-cons p rest s ps place free ((same, places, apart), frees) =
      let unmarked = λ (q : Placement) (i : In q ps).
        IsFree-unmark groups classrooms slots p q s.used_slots (frees q i) in
      (
        (ap (λ t. p.section ∷ t) same, both place places, (λ q i. (unmarked q i).1, apart)),
        both free (λ q i. (unmarked q i).0),
      )
    where
      both :
          {Q : Placement → Type 0}
          → Q p
          → ((q : Placement) → In q ps → Q q)
          → (q : Placement) → In q (p ∷ ps)
          → Q q
      both {Q} h hs q (inl e) = subst Q (sym e) h
      both {Q} h hs q (inr i) = hs q i

  IsOpen-tail :
      (p : Placement) (section : SectionData) (rest : List SectionData) (s : SolverState)
      (ps : List Placement)
      → IsOpen (section ∷ rest) s (p ∷ ps)
      → IsOpen rest (assign groups p.section p.classroom p.slot s) ps
  IsOpen-tail p section rest s ps ((same, places, (apart, aparts)), frees) = (
    (tail same, λ q i. places q (inr i), aparts),
    λ q i. IsFree-mark groups classrooms slots p q s.used_slots (frees q (inr i)) (apart q i),
  )
    where
      tail : {A : Type 0} {x y : A} {xs ys : List A} → (x ∷ xs) ≡ (y ∷ ys) → xs ≡ ys
      tail e = cc

  -- One pass of the loop over the time slots.
  try_slot-Outcome :
      (next : SolverState → Bool × SolverState) (p : Placement) (rest : List SectionData)
      (s : SolverState)
      → ((t : SolverState) → Outcome (next t) t (Solved rest t) (Unsolvable rest t))
      → IsPlace groups classrooms slots p
      → Outcome
          (try_slot groups next p.section p.classroom p.slot s)
          s
          (Solved (p.section ∷ rest) s)
          ((ps : List Placement) → IsOpen (p.section ∷ rest) s (p ∷ ps) → Empty {0})
  unfolding try_slot
  try_slot-Outcome next p rest s ih place =
      let check =
        check_hard_constraints p.section p.classroom p.slot p.section.row.instructor_id s.used_slots
          groups in
      let after : SolverState = assign groups p.section p.classroom p.slot s in
      elim (Bool-cases check) [
        | inr e ↦ inr (
          rw e refl,
          λ ps (tt, frees).
              not_both check
                (IsFree-check_hard_constraints groups classrooms slots p s.used_slots
                  (frees p (inl refl)) place.2)
                e,
        )
        | inl e ↦
            let free = check_hard_constraints-IsFree groups classrooms slots p s.used_slots e in
            elim (ih after) [
              | inl (t, f, (ps, opened, same)) ↦
                  inl (t, rw (e, f) refl, (p ∷ ps, IsOpen-cons p rest s ps place free opened, same))
              | inr (f, stuck) ↦ inr (
                rw (e, f, unassign-assign p s free) refl,
                λ ps opened. stuck ps (IsOpen-tail p p.section rest s ps opened),
              )
            ]
      ]

  -- The classrooms that the search tries are those with enough seats.
  In-valid_classrooms :
      (used : List Use) (section : SectionData) (c : Classroom)
      → In c (valid_classrooms used section classrooms)
      → In c classrooms × (section_capacity section ≤ c.capacity)
  unfolding valid_classrooms
  In-valid_classrooms used section c h =
      let seats = λ (c : Classroom). not (ltb c.capacity (section_capacity section)) in
      let kept =
        In-filter_inv seats c classrooms
          (In-sort_by_inv (valid_order used) c (filter seats classrooms) h) in
      (kept.0, seats_le c.capacity (section_capacity section) kept.1)

  valid_classrooms-In :
      (used : List Use) (section : SectionData) (c : Classroom)
      → In c classrooms
      → section_capacity section ≤ c.capacity
      → In c (valid_classrooms used section classrooms)
  unfolding valid_classrooms
  valid_classrooms-In used section c h le =
      let seats = λ (c : Classroom). not (ltb c.capacity (section_capacity section)) in
      In-sort_by (valid_order used) c (filter seats classrooms) (
        In-filter seats c classrooms h (rw (not_ltb c.capacity (section_capacity section) le) refl))

  abbrev Stuck : SectionData → List SectionData → SolverState → Classroom → TimeSlot → Type 0
  Stuck section rest s c k =
      (ps : List Placement) → IsOpen (section ∷ rest) s (placement section c k ∷ ps) → Empty {0}

  -- A section that fits nowhere has no timetable.
  Stuck-Unsolvable :
      (section : SectionData) (rest : List SectionData) (s : SolverState)
      → ((c : Classroom)
          → In c (valid_classrooms s.used_slots section classrooms)
          → (k : TimeSlot) → In k slots
          → Stuck section rest s c k)
      → Unsolvable (section ∷ rest) s
  Stuck-Unsolvable section rest s stuck [] ((same, places, apart), frees) = no_sections same
    where
      no_sections : [] ≡ (section ∷ rest) → Empty {0}
      no_sections e = cc
  Stuck-Unsolvable section rest s stuck (p ∷ ps) (timetable, frees) =
      let same : p.section ≡ section = head timetable.0 in
      let place = timetable.1 p (inl refl) in
      let moved : p ≡ placement section p.classroom p.slot =
        ap (λ (x : SectionData). placement x p.classroom p.slot) same in
      stuck p.classroom
        (valid_classrooms-In s.used_slots section p.classroom place.0
          (subst (λ (x : SectionData). section_capacity x ≤ p.classroom.capacity) same place.2))
        p.slot place.1 ps (subst (λ x. IsOpen (section ∷ rest) s (x ∷ ps)) moved (timetable, frees))
    where
      head : {A : Type 0} {x y : A} {xs ys : List A} → (x ∷ xs) ≡ (y ∷ ys) → x ≡ y
      head e = cc

  -- The state that the search leaves when it succeeds, and that there is nothing to find otherwise.
  pub backtrack-Outcome :
      (sections : List SectionData) (s : SolverState)
      → Outcome
          (backtrack groups classrooms slots sections s)
          s
          (Solved sections s)
          (Unsolvable sections s)
  unfolding backtrack
  backtrack-Outcome [] s =
      inl (s, refl, ([], ((refl, (λ p i. elim i [ ]), tt), λ p i. elim i [ ]), refl))
  backtrack-Outcome (section ∷ rest) s =
      let next = backtrack groups classrooms slots rest in
      let ih = backtrack-Outcome rest in
      let in_slots =
        λ (c : Classroom) (valid : In c (valid_classrooms s.used_slots section classrooms)).
          let kept = In-valid_classrooms s.used_slots section c valid in
          first_of-Outcome (try_slot groups next section c) (Solved (section ∷ rest) s)
            (Stuck section rest s c) s slots
            (λ k i. try_slot-Outcome next (placement section c k) rest s ih (kept.0, i, kept.1)) in
      elim (first_of-Outcome (λ c. first_of (try_slot groups next section c) slots)
        (Solved (section ∷ rest) s) (λ c. (k : TimeSlot) → In k slots → Stuck section rest s c k) s
        (valid_classrooms s.used_slots section classrooms) in_slots) [
          | inl found ↦ inl found
          | inr (e, stuck) ↦ inr (e, Stuck-Unsolvable section rest s stuck)
        ]
