-- ===== src/Scheduling/Solution.antt =====
-- What `solveCSP` of src/services/schedulingService.js returns.
use obs_system_backend_berka.Base.{
  ◌≡◌, refl, sym, ap, ◌∙◌, ◌⊎◌, inl, inr, Bool, none, some, List, [], ◌∷◌, ◌++◌, map, Bool-cases,
  In, Empty, subst,
}
use obs_system_backend_berka.Base.Sort.{insert_by, sort_by, In-insert_by_inv, In-sort_by_inv}
use obs_system_backend_berka.Scheduling.{
  TimeSlot, Classroom, SectionData, StudentEnrollments, Assignment, Stats, SolverState, assignment,
  assign, stats_of, no_assignments, section_order, sorted_sections, solve_csp,
}
use obs_system_backend_berka.Scheduling.Timetable.{Placement, IsClash, NoClash, IsTimetable}
use obs_system_backend_berka.Scheduling.Backtrack.{place_all, backtrack-Outcome}

-- The assignment that a placement stands for.
abbrev pub assigned : Placement → Assignment
assigned p = assignment p.section p.classroom p.slot

append_nil : {A : Type 0} (xs : List A) → (xs ++ []) ≡ xs
append_nil [] = refl
append_nil (x ∷ xs) = ap (λ t. x ∷ t) (append_nil xs)

append_assoc : {A : Type 0} (xs ys zs : List A) → ((xs ++ ys) ++ zs) ≡ (xs ++ (ys ++ zs))
append_assoc [] ys zs = refl
append_assoc (x ∷ xs) ys zs = ap (λ t. x ∷ t) (append_assoc xs ys zs)

-- Whether one placement stays before another, by their sections.
abbrev by_section : Placement → Placement → Bool
by_section p q = section_order p.section q.section

map-insert_by :
    (p : Placement) (ps : List Placement)
    → map (λ (q : Placement). q.section) (insert_by by_section p ps)
      ≡ insert_by section_order p.section (map (λ (q : Placement). q.section) ps)
map-insert_by p [] = refl
map-insert_by p (q ∷ qs) = elim (Bool-cases (by_section p q)) [
  | inl e ↦ rw e refl
  | inr e ↦ rw e (ap (λ t. q.section ∷ t) (map-insert_by p qs))
]

map-sort_by :
    (ps : List Placement)
    → map (λ (q : Placement). q.section) (sort_by by_section ps)
      ≡ sort_by section_order (map (λ (q : Placement). q.section) ps)
map-sort_by [] = refl
map-sort_by (p ∷ ps) =
    map-insert_by p (sort_by by_section ps)
    ∙ ap (insert_by section_order p.section) (map-sort_by ps)

module _ (groups : List StudentEnrollments) (classrooms : List Classroom)
    (slots : List TimeSlot) where
  assignments-place_all :
      (ps : List Placement) (s : SolverState)
      → (place_all groups classrooms slots ps s).assignments ≡ s.assignments ++ map assigned ps
  assignments-place_all [] s = sym (append_nil s.assignments)
  assignments-place_all (p ∷ ps) s =
      assignments-place_all ps (assign groups p.section p.classroom p.slot s)
      ∙ append_assoc s.assignments (assigned p ∷ []) (map assigned ps)

  IsClash-swap :
      (p q : Placement) → IsClash groups classrooms slots p q → IsClash groups classrooms slots q p
  IsClash-swap p q (same, (o, by_p, by_q)) = (sym same, (o, by_q, by_p))

  NoClash-insert_by :
      (p : Placement) (ps : List Placement)
      → ((q : Placement) → In q ps → IsClash groups classrooms slots p q → Empty {0})
      → NoClash groups classrooms slots ps
      → NoClash groups classrooms slots (insert_by by_section p ps)
  NoClash-insert_by p [] apart h = ((λ q i. elim i [ ]), tt)
  NoClash-insert_by p (q ∷ qs) apart h = elim (Bool-cases (by_section p q)) [
    | inl e ↦ rw e (apart, h)
    | inr e ↦ rw e (
      (λ x i clash. elim (In-insert_by_inv by_section x p qs i) [
        | inl same ↦
            apart q (inl refl)
              (IsClash-swap q p (subst (IsClash groups classrooms slots q) same clash))
        | inr j ↦ h.0 x j clash
      ]),
      NoClash-insert_by p qs (λ x i. apart x (inr i)) h.1,
    )
  ]

  NoClash-sort_by :
      (ps : List Placement)
      → NoClash groups classrooms slots ps
      → NoClash groups classrooms slots (sort_by by_section ps)
  NoClash-sort_by [] h = tt
  NoClash-sort_by (p ∷ ps) h =
      NoClash-insert_by p (sort_by by_section ps) (λ q i. h.0 q (In-sort_by_inv by_section q ps i))
        (NoClash-sort_by ps h.1)

  -- The order of the sections does not matter to a timetable.
  IsTimetable-sorted_sections :
      (sections : List SectionData) (ps : List Placement)
      → IsTimetable groups classrooms slots sections ps
      → IsTimetable groups classrooms slots (sorted_sections sections) (sort_by by_section ps)
  unfolding sorted_sections
  IsTimetable-sorted_sections sections ps (same, places, apart) = (
    map-sort_by ps ∙ ap (sort_by section_order) same,
    (λ p i. places p (In-sort_by_inv by_section p ps i)),
    NoClash-sort_by ps apart,
  )

-- The solver decides whether the sections have a timetable: a place for every section in one of the
-- classrooms, with a seat for everyone, at one of the time slots, and at no slot an instructor, a
-- classroom or a student busy twice. It returns the assignments of such a timetable, the sections in
-- the order of their priority, or null when there is none.
pub solve_csp_exact :
    (sections : List SectionData) (classrooms : List Classroom) (slots : List TimeSlot)
    (groups : List StudentEnrollments)
    → ((ps : List Placement) × (stats : Stats) × IsTimetable groups classrooms slots
          (sorted_sections sections)
          ps
        × (solve_csp sections classrooms slots groups ≡ some (map assigned ps, stats)))
      ⊎ ((solve_csp sections classrooms slots groups ≡ none)
          × ((ps : List Placement) → IsTimetable groups classrooms slots sections ps → Empty {0}))
unfolding solve_csp
solve_csp_exact sections classrooms slots groups =
    let sorted = sorted_sections sections in
    elim (backtrack-Outcome groups classrooms slots sorted no_assignments) [
      | inl (t, e, (ps, (timetable, free), same)) ↦
          let found : t.assignments ≡ map assigned ps =
            ap (λ (u : SolverState). u.assignments) same
            ∙ assignments-place_all groups classrooms slots ps no_assignments in
          inl (
            ps,
            stats_of sections classrooms t,
            timetable,
            rw e (ap (λ found. some (found, stats_of sections classrooms t)) found),
          )
      | inr (e, stuck) ↦ inr (
        rw e refl,
        λ ps timetable. stuck (sort_by by_section ps) (
          IsTimetable-sorted_sections groups classrooms slots sections ps timetable,
          λ p i o j. refl,
        ),
      )
    ]
