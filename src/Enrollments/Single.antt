-- ===== src/Enrollments/Single.antt =====
-- A student never holds two open enrollments in one course and term, whatever calls
-- src/services/enrollmentService.js answers.
use obs_system_backend_berka.Base.{
  ℕ, ◌≡◌, ◌⊎◌, refl, ◌∙◌, inl, inr, Bool, true, false, ◌&&◌, ◌||◌, Option, none, some, List, [],
  ◌∷◌, arith, ◌==◌, Bool-cases, Option-cases, find, find_holds, any, All, All-mono, update_where,
}
use obs_system_backend_berka.Grade.{same_semester}
use obs_system_backend_berka.School.{Section, Enrollment, School}
use obs_system_backend_berka.Conflict.{section_by_id}
use obs_system_backend_berka.Enrollments.Seats.{Below, changed, found-changed}
use obs_system_backend_berka.Enrollments.{is_open, is_existing, in_other_section, new_enrollment}

abbrev pub section_in : List Section → ℕ → Option Section
section_in xs id = find (λ (x : Section). x.id == id) xs

-- Sections of one course in one term.
abbrev pub same_offering : Section → Section → Bool
same_offering y x =
    (y.course_id == x.course_id) && (same_semester y.semester x.semester && (y.year == x.year))

abbrev same_course : Option Section → Option Section → Bool
same_course none y = false
same_course (some x) none = false
same_course (some x) (some y) = same_offering y x

-- Two open enrollments of one student in a course and term.
unfoldable pub clash : List Section → Enrollment → Enrollment → Bool
clash xs e f =
    (e.student_id == f.student_id)
    && ((is_open e.status && is_open f.status)
        && ((e.section_id == f.section_id)
            || same_course (section_in xs e.section_id) (section_in xs f.section_id)))

abbrev pub IsSingle : List Section → List Enrollment → Type 0
IsSingle xs [] = Unit {0}
IsSingle xs (e ∷ es) = All (λ f. clash xs e f ≡ false) es × IsSingle xs es

-- A recount changes no course and no term.
section_in-recount :
    (k i : ℕ) (g : ℕ → ℕ) (xs : List Section) (o : Option Section)
    → let ys =
        update_where
          (λ (x : Section). x.id == k)
          (λ x. record x { enrolled_count = g x.enrolled_count })
          xs in
      same_course o (section_in ys i) ≡ same_course o (section_in xs i)
section_in-recount k i g [] o = refl
section_in-recount k i g (x ∷ xs) o = ground (arith, section_in-recount k i g xs o)

section_in-recount_left :
    (k i : ℕ) (g : ℕ → ℕ) (xs : List Section) (o : Option Section)
    → let ys =
        update_where
          (λ (x : Section). x.id == k)
          (λ x. record x { enrolled_count = g x.enrolled_count })
          xs in
      same_course (section_in ys i) o ≡ same_course (section_in xs i) o
section_in-recount_left k i g [] o = refl
section_in-recount_left k i g (x ∷ xs) o = ground (arith, section_in-recount_left k i g xs o)

clash-recount :
    (k : ℕ) (g : ℕ → ℕ) (xs : List Section) (e f : Enrollment)
    → clash
        (update_where
          (λ (x : Section). x.id == k)
          (λ x. record x { enrolled_count = g x.enrolled_count })
          xs)
        e
        f
      ≡ clash xs e f
unfolding clash
clash-recount k g xs e f =
    let ys =
      update_where (λ (x : Section). x.id == k)
        (λ x. record x { enrolled_count = g x.enrolled_count }) xs in
    let a = section_in-recount k f.section_id g xs (section_in ys e.section_id) in
    let b = section_in-recount_left k e.section_id g xs (section_in xs f.section_id) in rw (a, b)

pub IsSingle-recount :
    (k : ℕ) (g : ℕ → ℕ) (xs : List Section) (es : List Enrollment)
    → IsSingle xs es
    → IsSingle
        (update_where
          (λ (x : Section). x.id == k)
          (λ x. record x { enrolled_count = g x.enrolled_count })
          xs)
        es
IsSingle-recount k g xs [] h = tt
IsSingle-recount k g xs (e ∷ es) h = (
  All-mono (λ f. clash xs e f ≡ false) _ es (λ f n. clash-recount k g xs e f ∙ n) h.0,
  IsSingle-recount k g xs es h.1,
)

-- A change of a row that opens no enrollment.
pub record IsLower (e d : Enrollment) : Type 0 where
  pub same_student : d.student_id ≡ e.student_id
  pub same_section : d.section_id ≡ e.section_id
  pub open_before : is_open d.status ≡ true → is_open e.status ≡ true

clash-lower :
    (xs : List Section) (e f d h : Enrollment)
    → IsLower e d
    → IsLower f h
    → clash xs e f ≡ false
    → clash xs d h ≡ false
unfolding clash
clash-lower xs e f d h l m n =
    rw (l.same_student, l.same_section, m.same_student, m.same_section)
      (ground (arith, l.open_before, m.open_before))

module _ (k : ℕ) (g : Enrollment → Enrollment) where
  clashes-changed :
      (xs : List Section) (e : Enrollment) (es : List Enrollment)
      → All (λ d. IsLower d (changed k g d)) (e ∷ es)
      → All (λ f. clash xs e f ≡ false) es
      → All
          (λ f. clash xs (changed k g e) f ≡ false)
          (update_where (λ (d : Enrollment). d.id == k) g es)
  clashes-changed xs e [] l h = tt
  clashes-changed xs e (f ∷ es) l h = (
    clash-lower xs e f (changed k g e) (changed k g f) l.0 l.1.0 h.0,
    clashes-changed xs e es (l.0, l.1.1) h.1,
  )

  pub IsSingle-saved :
      (xs : List Section) (es : List Enrollment)
      → All (λ d. IsLower d (changed k g d)) es
      → IsSingle xs es
      → IsSingle xs (update_where (λ (d : Enrollment). d.id == k) g es)
  IsSingle-saved xs [] l h = tt
  IsSingle-saved xs (e ∷ es) l h = (clashes-changed xs e es l h.0, IsSingle-saved xs es l.1 h.1)

-- A change that closes the enrollment.
pub closed-IsLower :
    (k : ℕ) (g : Enrollment → Enrollment) (es : List Enrollment)
    → ((e : Enrollment) → IsLower e (g e))
    → All (λ d. IsLower d (changed k g d)) es
closed-IsLower k g [] h = tt
closed-IsLower k g (e ∷ es) h = (own (Bool-cases (e.id == k)), closed-IsLower k g es h)
  where
    own : (e.id == k) ≡ true ⊎ (e.id == k) ≡ false → IsLower e (changed k g e)
    own (inl same) = rw same (h e)
    own (inr other) =
        rw other (record { same_student = refl; same_section = refl; open_before = λ o. o })

pub found-IsLower :
    (p : Enrollment → Bool) (g : Enrollment → Enrollment) (n : ℕ) (es : List Enrollment)
    {e : Enrollment}
    → Below n es
    → find p es ≡ some e
    → IsLower e (g e)
    → All (λ d. IsLower d (changed e.id g d)) es
found-IsLower =
    found-changed IsLower
      (λ d. record { same_student = refl; same_section = refl; open_before = λ o. o })

-- A request that passed both queries opens nothing a second time.
requested_clash :
    (s : School) (student id now : ℕ) (repeat : Bool) (x : Section) (f : Enrollment)
    → section_by_id s id ≡ some x
    → is_existing student id f ≡ false
    → in_other_section s student x f ≡ false
    → clash s.sections (new_enrollment s.next_id student id now repeat) f ≡ false
unfolding clash
requested_clash s student id now repeat x f e a b =
    let own : (x.id == id) ≡ true = find_holds (λ (z : Section). z.id == id) s.sections e in
    elim (Option-cases (section_by_id s f.section_id)) [
      | inl gone ↦ rw (e, gone) (ground arith)
      | inr (y, g) ↦
          let other : (y.id == f.section_id) ≡ true =
            find_holds (λ (z : Section). z.id == f.section_id) s.sections g in
          rw (e, g) (ground (arith, rw g at b))
    ]

any_none : {A : Type 0} (p : A → Bool) (xs : List A) → any p xs ≡ false → All (λ x. p x ≡ false) xs
any_none p [] h = tt
any_none p (x ∷ xs) h = ground (arith, any_none p xs)

requested_clashes :
    (s : School) (student id now : ℕ) (repeat : Bool) (x : Section) (es : List Enrollment)
    → section_by_id s id ≡ some x
    → All (λ f. is_existing student id f ≡ false) es
    → All (λ f. in_other_section s student x f ≡ false) es
    → All (λ f. clash s.sections (new_enrollment s.next_id student id now repeat) f ≡ false) es
requested_clashes s student id now repeat x [] e a b = tt
requested_clashes s student id now repeat x (f ∷ es) e a b = (
  requested_clash s student id now repeat x f e a.0 b.0,
  requested_clashes s student id now repeat x es e a.1 b.1,
)

pub requested-IsSingle :
    (s : School) (student id now : ℕ) (repeat : Bool) (x : Section)
    → section_by_id s id ≡ some x
    → any (is_existing student id) s.enrollments ≡ false
    → any (in_other_section s student x) s.enrollments ≡ false
    → IsSingle s.sections s.enrollments
    → IsSingle s.sections (new_enrollment s.next_id student id now repeat ∷ s.enrollments)
requested-IsSingle s student id now repeat x e a b h = (
  requested_clashes s student id now repeat x s.enrollments e (any_none _ s.enrollments a)
      (any_none _ s.enrollments b),
  h,
)
