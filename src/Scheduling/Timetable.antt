-- ===== src/Scheduling/Timetable.antt =====
-- The timetables that src/services/schedulingService.js looks for, and what the marks of the search
-- say of them.
use obs_system_backend_berka.Base.{
  ℕ, ◌≤◌, ◌≡◌, refl, sym, ◌∙◌, inl, inr, Bool, true, false, ◌&&◌, ◌||◌, some, List, [], ◌∷◌, map,
  arith, ltb, if◌then◌else◌, Bool-cases, any, In, Empty,
}
use obs_system_backend_berka.Scheduling.{
  TimeSlot, Classroom, SectionData, StudentEnrollments, Owner, Use, same_key, is_used, add_all,
  section_capacity, section_students, check_hard_constraints, owners,
}
use obs_system_backend_berka.Scheduling.Marks.{
  same_key_eq, same_key_refl, is_among, In-is_among, is_among-In, is_used-add_all,
}

or_false : (x y : Bool) → (x || y) ≡ false → (x ≡ false) × (y ≡ false)
or_false true y h = cc
or_false false y h = (refl, h)

pub not_both : (b : Bool) → b ≡ true → b ≡ false → Empty {0}
not_both b h k = cc

pub not_ltb : (a b : ℕ) → b ≤ a → ltb a b ≡ false
not_ltb a b h = ground arith

four_guards :
    (a b c d : Bool)
    → (if a then false else if b then false else if c then false else if d then false else true)
      ≡ true
    → (a ≡ false) × (b ≡ false) × (c ≡ false)
four_guards a b c d h = ground arith

any_none :
    {A : Type 0} (p : A → Bool) (xs : List A) → any p xs ≡ false → (x : A) → In x xs → p x ≡ false
any_none p [] h x i = elim i [ ]
any_none p (y ∷ ys) h x (inl e) = rw e ((or_false (p y) (any p ys) h).0)
any_none p (y ∷ ys) h x (inr i) = any_none p ys ((or_false (p y) (any p ys) h).1) x i

none_any :
    {A : Type 0} (p : A → Bool) (xs : List A) → ((x : A) → In x xs → p x ≡ false) → any p xs ≡ false
none_any p [] h = refl
none_any p (y ∷ ys) h = rw (h y (inl refl)) (none_any p ys (λ x i. h x (inr i)))

-- A section with its place in the timetable.
pub record Placement : Type 0 where
  pub section : SectionData
  pub classroom : Classroom
  pub slot : TimeSlot

module _ (groups : List StudentEnrollments) (classrooms : List Classroom)
    (slots : List TimeSlot) where
  -- Whom a placement keeps busy: its instructor, its classroom and its students.
  abbrev pub busy : Placement → List Owner
  busy p = owners groups p.section p.classroom

  -- Two placements that keep someone busy twice at one time.
  abbrev pub IsClash : Placement → Placement → Type 0
  IsClash p q = (p.slot ≡ q.slot) × ((o : Owner) × In o (busy p) × In o (busy q))

  -- A classroom and a time slot of the request, with a seat for everyone.
  abbrev pub IsPlace : Placement → Type 0
  IsPlace p =
      In p.classroom classrooms
      × In p.slot slots
      × (section_capacity p.section ≤ p.classroom.capacity)

  abbrev pub NoClash : List Placement → Type 0
  NoClash [] = Unit
  NoClash (p ∷ ps) = ((q : Placement) → In q ps → IsClash p q → Empty {0}) × NoClash ps

  -- A timetable of the sections: every section placed, nobody busy twice at one time.
  abbrev pub IsTimetable : List SectionData → List Placement → Type 0
  IsTimetable sections ps =
      (map (λ (p : Placement). p.section) ps ≡ sections)
      × ((p : Placement) → In p ps → IsPlace p)
      × NoClash ps

  -- The marks leave room for a placement.
  abbrev pub IsFree : List Use → Placement → Type 0
  IsFree used p = (o : Owner) → In o (busy p) → is_used o p.slot used ≡ false

  abbrev pub mark : Placement → List Use → List Use
  mark p used = add_all (busy p) p.slot used

  -- The marks of a placement forbid those that clash with it.
  pub IsFree-mark :
      (p q : Placement) (used : List Use)
      → IsFree used q
      → (IsClash p q → Empty {0})
      → IsFree (mark p used) q
  IsFree-mark p q used free apart o h =
      rw (is_used-add_all o q.slot (busy p) p.slot used) (elim (Bool-cases (is_among o (busy p))) [
        | inl e ↦ elim (Bool-cases (same_key p.slot q.slot)) [
          | inl f ↦ elim (apart (same_key_eq p.slot q.slot f, (o, is_among-In o (busy p) e, h))) [ ]
          | inr f ↦ rw (e, f) (free o h)
        ]
        | inr e ↦ rw e (free o h)
      ])

  pub IsFree-unmark :
      (p q : Placement) (used : List Use)
      → IsFree (mark p used) q
      → IsFree used q × (IsClash p q → Empty {0})
  IsFree-unmark p q used free = (
    λ o h. (apart o h).1,
    λ c.
        let (same, meeting) = c in
        let (o, by_p, by_q) = meeting in
        let key : same_key p.slot q.slot ≡ true = rw same (same_key_refl q.slot) in
        let among = In-is_among o (busy p) by_p in
        let both = (apart o by_q).0 in
        not_both (is_among o (busy p) && same_key p.slot q.slot) (rw (among, key) refl) both,
  )
    where
      apart :
          (o : Owner)
          → In o (busy q)
          → ((is_among o (busy p) && same_key p.slot q.slot) ≡ false)
            × (is_used o q.slot used ≡ false)
      apart o h = or_false _ _ (sym (is_used-add_all o q.slot (busy p) p.slot used) ∙ free o h)

  -- `checkHardConstraints` is the freedom of a placement with enough seats.
  pub check_hard_constraints-IsFree :
      (p : Placement) (used : List Use)
      → check_hard_constraints p.section p.classroom p.slot p.section.row.instructor_id used groups
        ≡ true
      → IsFree used p
  unfolding check_hard_constraints
  check_hard_constraints-IsFree p used h =
      let students = section_students groups p.section.row.id in
      let ok =
        four_guards (is_used p.section.row.instructor_id p.slot used)
          (is_used (some p.classroom.id) p.slot used) (any (λ o. is_used o p.slot used) students)
          (ltb p.classroom.capacity (section_capacity p.section)) h in
      λ o i. elim i [
        | inl e ↦ rw e ok.0
        | inr j ↦ elim j [
          | inl e ↦ rw e ok.1
          | inr l ↦ any_none (λ o. is_used o p.slot used) students ok.2 o l
        ]
      ]

  pub IsFree-check_hard_constraints :
      (p : Placement) (used : List Use)
      → IsFree used p
      → section_capacity p.section ≤ p.classroom.capacity
      → check_hard_constraints p.section p.classroom p.slot p.section.row.instructor_id used groups
        ≡ true
  unfolding check_hard_constraints
  IsFree-check_hard_constraints p used free seats =
      let students = section_students groups p.section.row.id in
      let a = free p.section.row.instructor_id (inl refl) in
      let b = free (some p.classroom.id) (inr (inl refl)) in
      let c = none_any (λ o. is_used o p.slot used) students (λ o i. free o (inr (inr i))) in
      rw (a, b, c, not_ltb p.classroom.capacity (section_capacity p.section) seats) refl
