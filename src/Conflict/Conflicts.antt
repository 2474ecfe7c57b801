-- ===== src/Conflict/Conflicts.antt =====
-- What `checkScheduleConflict` of src/services/scheduleConflictService.js reports.
use obs_system_backend_berka.Base.{
  ℕ, ◌≡◌, ◌↔◌, refl, sym, ap, ◌∙◌, subst, inl, inr, Bool, true, false, ◌&&◌, some, List, [], ◌∷◌,
  arith, Bool-cases, Option-cases, In, In-append_left, In-append_right, In-append_cases,
}
use obs_system_backend_berka.School.{Slot, Section, Enrollment, School}
use obs_system_backend_berka.Conflict.{
  Conflict, time_slots_overlap, parse_schedule, against_slot, against_section, section_by_id,
  is_current, same_term, against_enrollment, against_enrollments, has_schedule,
  check_schedule_conflict,
}

abbrev conflict : Enrollment → Section → Slot → Slot → Conflict
conflict e x n o = record { enrollment = e; section = x; new_slot = n; existing_slot = o }

against_slot_sound :
    (e : Enrollment) (x : Section) (n : Slot) (os : List Slot) (c : Conflict)
    → In c (against_slot e x n os)
    → (c ≡ conflict e x n c.existing_slot)
      × In c.existing_slot os
      × (time_slots_overlap n c.existing_slot ≡ true)
unfolding against_slot
against_slot_sound e x n [] c h = elim h [ ]
against_slot_sound e x n (o ∷ os) c h = elim (Bool-cases (time_slots_overlap n o)) [
  | inl hit ↦ elim (rw hit at h) [
    | inl same ↦
        let slot : c.existing_slot ≡ o = ap (λ (k : Conflict). k.existing_slot) same in
        (same ∙ ap (conflict e x n) (sym slot), inl slot, ap (time_slots_overlap n) slot ∙ hit)
    | inr more ↦ let r = against_slot_sound e x n os c more in (r.0, inr r.1, r.2)
  ]
  | inr miss ↦ let r = against_slot_sound e x n os c (rw miss at h) in (r.0, inr r.1, r.2)
]

against_slot_complete :
    (e : Enrollment) (x : Section) (n o : Slot) (os : List Slot)
    → In o os
    → time_slots_overlap n o ≡ true
    → In (conflict e x n o) (against_slot e x n os)
unfolding against_slot
against_slot_complete e x n o [] h hit = elim h [ ]
against_slot_complete e x n o (y ∷ os) (inl same) hit =
    let hit' : time_slots_overlap n y ≡ true = ap (time_slots_overlap n) (sym same) ∙ hit in
    rw hit' (inl (ap (conflict e x n) same))
against_slot_complete e x n o (y ∷ os) (inr h) hit = elim (Bool-cases (time_slots_overlap n y)) [
  | inl e1 ↦ rw e1 (inr (against_slot_complete e x n o os h hit))
  | inr e1 ↦ rw e1 (against_slot_complete e x n o os h hit)
]

against_section_sound :
    (e : Enrollment) (x : Section) (ns os : List Slot) (c : Conflict)
    → In c (against_section e x ns os)
    → (c ≡ conflict e x c.new_slot c.existing_slot)
      × In c.new_slot ns
      × In c.existing_slot os
      × (time_slots_overlap c.new_slot c.existing_slot ≡ true)
unfolding against_section
against_section_sound e x [] os c h = elim h [ ]
against_section_sound e x (n ∷ ns) os c h =
    elim (In-append_cases c (against_slot e x n os) (against_section e x ns os) h) [
      | inl l ↦
          let r = against_slot_sound e x n os c l in
          let slot : c.new_slot ≡ n = ap (λ (k : Conflict). k.new_slot) r.0 in
          (
            r.0 ∙ ap (λ (m : Slot). conflict e x m c.existing_slot) (sym slot),
            inl slot,
            r.1,
            ap (λ (m : Slot). time_slots_overlap m c.existing_slot) slot ∙ r.2,
          )
      | inr m ↦ let r = against_section_sound e x ns os c m in (r.0, inr r.1, r.2, r.3)
    ]

against_section_complete :
    (e : Enrollment) (x : Section) (n o : Slot) (ns os : List Slot)
    → In n ns
    → In o os
    → time_slots_overlap n o ≡ true
    → In (conflict e x n o) (against_section e x ns os)
unfolding against_section
against_section_complete e x n o [] os h k hit = elim h [ ]
against_section_complete e x n o (m ∷ ns) os (inl same) k hit =
    let own : In (conflict e x n o) (against_slot e x m os) =
      rw (← same) (against_slot_complete e x n o os k hit) in
    In-append_left (conflict e x n o) (against_slot e x m os) (against_section e x ns os) own
against_section_complete e x n o (m ∷ ns) os (inr h) k hit =
    In-append_right (conflict e x n o) (against_slot e x m os) (against_section e x ns os)
      (against_section_complete e x n o ns os h k hit)

-- A conflict as it must be reported: one of the student's current enrollments in the term of the new
-- section, with a slot of its section that overlaps a slot of the new section.
pub record IsConflict (s : School) (student : ℕ) (new : Section) (c : Conflict) : Type 0 where
  pub joined : section_by_id s c.enrollment.section_id ≡ some c.section
  pub current : is_current student new.id c.enrollment ≡ true
  pub term : same_term c.section new ≡ true
  pub new_row : In c.new_slot (parse_schedule new.schedule_json)
  pub existing_row : In c.existing_slot (parse_schedule c.section.schedule_json)
  pub overlap : time_slots_overlap c.new_slot c.existing_slot ≡ true

and_left : (a b : Bool) → (a && b) ≡ true → a ≡ true
and_left true b h = refl
and_left false b h = cc

and_right : (a b : Bool) → (a && b) ≡ true → b ≡ true
and_right true b h = h
and_right false b h = cc

module _ (s : School) (student : ℕ) (new : Section) where
  against_enrollment_sound :
      (e : Enrollment) (c : Conflict)
      → In c (against_enrollment s student new e)
      → (c.enrollment ≡ e) × IsConflict s student new c
  unfolding against_enrollment
  against_enrollment_sound e c h = elim (Option-cases (section_by_id s e.section_id)) [
    | inl missing ↦ elim (rw (missing, against_enrollment) at h) [ ]
    | inr (x, is) ↦ elim (Bool-cases (is_current student new.id e && same_term x new)) [
      | inl wanted ↦
          let r =
            against_section_sound e x (parse_schedule new.schedule_json)
              (parse_schedule x.schedule_json) c
              (rw wanted at (rw (is, against_enrollment) at h)) in
          let whole : IsConflict s student new (conflict e x c.new_slot c.existing_slot) = record {
            joined = is;
            current = and_left _ _ wanted;
            term = and_right _ _ wanted;
            new_row = r.1;
            existing_row = r.2;
            overlap = r.3;
          } in
          (
            ap (λ (k : Conflict). k.enrollment) r.0,
            subst (IsConflict s student new) (sym r.0) whole,
          )
      | inr skipped ↦ elim (rw skipped at (rw (is, against_enrollment) at h)) [ ]
    ]
  ]

  against_enrollment_complete :
      (c : Conflict)
      → IsConflict s student new c
      → In c (against_enrollment s student new c.enrollment)
  unfolding against_enrollment
  against_enrollment_complete c k =
      let wanted : (is_current student new.id c.enrollment && same_term c.section new) ≡ true =
        ground (arith, k.current, k.term) in
      rw (k.joined, against_enrollment)
        (rw wanted (
          against_section_complete c.enrollment c.section c.new_slot c.existing_slot
            (parse_schedule new.schedule_json) (parse_schedule c.section.schedule_json) k.new_row
            k.existing_row k.overlap))

  against_enrollments_sound :
      (es : List Enrollment) (c : Conflict)
      → In c (against_enrollments s student new es)
      → In c.enrollment es × IsConflict s student new c
  unfolding against_enrollments
  against_enrollments_sound [] c h = elim h [ ]
  against_enrollments_sound (e ∷ es) c h =
      elim (In-append_cases c (against_enrollment s student new e)
        (against_enrollments s student new es) h) [
          | inl l ↦ let r = against_enrollment_sound e c l in (inl r.0, r.1)
          | inr m ↦ let r = against_enrollments_sound es c m in (inr r.0, r.1)
        ]

  against_enrollments_complete :
      (es : List Enrollment) (c : Conflict)
      → In c.enrollment es
      → IsConflict s student new c
      → In c (against_enrollments s student new es)
  unfolding against_enrollments
  against_enrollments_complete [] c h k = elim h [ ]
  against_enrollments_complete (e ∷ es) c (inl same) k =
      let own : In c (against_enrollment s student new e) =
        rw (← same) (against_enrollment_complete c k) in
      In-append_left c (against_enrollment s student new e) (against_enrollments s student new es)
        own
  against_enrollments_complete (e ∷ es) c (inr h) k =
      In-append_right c (against_enrollment s student new e) (against_enrollments s student new es)
        (against_enrollments_complete es c h k)

-- For a section with a schedule, the check reports exactly the pairs of an overlapping slot of the
-- section and a slot of another section of the same term in which the student is enrolled or which
-- the student has completed; an enrollment that waits for approval is not looked at.
pub check_schedule_conflict_exact :
    (s : School) (student id : ℕ) (new : Section) (c : Conflict)
    → section_by_id s id ≡ some new
    → has_schedule new.schedule_json ≡ true
    → In c (check_schedule_conflict s student id)
      ↔ (In c.enrollment s.enrollments × IsConflict s student new c)
unfolding check_schedule_conflict
check_schedule_conflict_exact s student id new c found planned =
    rw (found, check_schedule_conflict)
      (rw planned (
        against_enrollments_sound s student new s.enrollments c,
        λ h. against_enrollments_complete s student new s.enrollments c h.0 h.1,
      ))

-- A section without a schedule conflicts with nothing.
pub check_schedule_conflict_unplanned :
    (s : School) (student id : ℕ) (x : Section)
    → section_by_id s id ≡ some x
    → has_schedule x.schedule_json ≡ false
    → check_schedule_conflict s student id ≡ []
unfolding check_schedule_conflict
check_schedule_conflict_unplanned s student id x e h = rw (e, check_schedule_conflict) (rw h refl)
