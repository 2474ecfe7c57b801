-- ===== src/Enrollments/Moves.antt =====
-- The moves of an enrollment's status in src/models/Enrollment.js, and the history of the table.
use obs_system_backend_berka.Base.{
  ℕ, ◌≡◌, refl, subst, sym, ◌∙◌, Bool, true, some, List, [], ◌∷◌, arith, ◌==◌, find, find_holds,
  All, update_where,
}
use obs_system_backend_berka.Grade.{Status, pending, enrolled, dropped, rejected}
use obs_system_backend_berka.School.{Enrollment, School}
use obs_system_backend_berka.Enrollments.{
  save_row, is_waiting, approved_row, rejected_row, is_droppable, dropped_row,
}
use obs_system_backend_berka.Enrollments.Seats.{Below, changed, found-changed}

-- The moves of a status.
pub data Leads : Status → Status → Type 0 where
  stay : (a : Status) → Leads a a
  approval : Leads pending enrolled
  rejection : Leads pending rejected
  dropping : Leads enrolled dropped
  approved_and_dropped : Leads pending dropped

Leads-trans : {a b c : Status} → Leads a b → Leads b c → Leads a c
Leads-trans (stay a) m = m
Leads-trans approval (stay b) = approval
Leads-trans approval dropping = approved_and_dropped
Leads-trans rejection (stay b) = rejection
Leads-trans dropping (stay b) = dropping
Leads-trans approved_and_dropped (stay b) = approved_and_dropped

-- One row before and after.
pub record IsLater (e f : Enrollment) : Type 0 where
  pub same_id : f.id ≡ e.id
  pub same_student : f.student_id ≡ e.student_id
  pub same_section : f.section_id ≡ e.section_id
  pub same_date : f.enrollment_date ≡ e.enrollment_date
  pub leads : Leads e.status f.status

IsLater-refl : (e : Enrollment) → IsLater e e
IsLater-refl e = record {
  same_id = refl;
  same_student = refl;
  same_section = refl;
  same_date = refl;
  leads = stay e.status;
}

IsLater-trans : (e f g : Enrollment) → IsLater e f → IsLater f g → IsLater e g
IsLater-trans e f g a b = record {
  same_id = b.same_id ∙ a.same_id;
  same_student = b.same_student ∙ a.same_student;
  same_section = b.same_section ∙ a.same_section;
  same_date = b.same_date ∙ a.same_date;
  leads = Leads-trans a.leads b.leads;
}

-- The table before and after: rows that were filed meanwhile, and the old rows in their order.
pub data History : List Enrollment → List Enrollment → Type 0 where
  start : History [] []
  filed :
      {es fs : List Enrollment}
      → (f : Enrollment) → Leads pending f.status
      → History es fs
      → History es (f ∷ fs)
  kept :
      {es fs : List Enrollment}
      → (e f : Enrollment) → IsLater e f
      → History es fs
      → History (e ∷ es) (f ∷ fs)

pub History-refl : (es : List Enrollment) → History es es
History-refl [] = start
History-refl (e ∷ es) = kept e e (IsLater-refl e) (History-refl es)

pub History-trans : {es fs gs : List Enrollment} → History es fs → History fs gs → History es gs
History-trans h (filed g l k) = filed g l (History-trans h k)
History-trans (filed f l h) (kept f0 g m k) = filed g (Leads-trans l m.leads) (History-trans h k)
History-trans (kept e f l h) (kept f0 g m k) =
    kept e g (IsLater-trans e f g l m) (History-trans h k)
History-trans start start = start

pub History-saved :
    (k : ℕ) (g : Enrollment → Enrollment) (es : List Enrollment)
    → All (λ d. IsLater d (changed k g d)) es
    → History es (update_where (λ (d : Enrollment). d.id == k) g es)
History-saved k g [] l = start
History-saved k g (e ∷ es) l = kept e (changed k g e) l.0 (History-saved k g es l.1)

pub approved-IsLater :
    (now faculty id : ℕ) (e : Enrollment)
    → is_waiting id e ≡ true
    → IsLater e (approved_row now faculty e)
approved-IsLater now faculty id e w = record {
  same_id = refl;
  same_student = refl;
  same_section = refl;
  same_date = refl;
  leads =
      let is : e.status ≡ pending = ground (arith, w) in
      subst (λ (a : Status). Leads a enrolled) (sym is) approval;
}

pub rejected-IsLater :
    (faculty id : ℕ) (e : Enrollment) → is_waiting id e ≡ true → IsLater e (rejected_row faculty e)
rejected-IsLater faculty id e w = record {
  same_id = refl;
  same_student = refl;
  same_section = refl;
  same_date = refl;
  leads =
      let is : e.status ≡ pending = ground (arith, w) in
      subst (λ (a : Status). Leads a rejected) (sym is) rejection;
}

pub dropped-IsLater :
    (now id student : ℕ) (e : Enrollment)
    → is_droppable id student e ≡ true
    → IsLater e (dropped_row now e)
dropped-IsLater now id student e w = record {
  same_id = refl;
  same_student = refl;
  same_section = refl;
  same_date = refl;
  leads =
      let is : e.status ≡ enrolled = ground (arith, w) in
      subst (λ (a : Status). Leads a dropped) (sym is) dropping;
}

-- The saving of the row that a query found.
module _ (p : Enrollment → Bool) (g : Enrollment → Enrollment)
    (later : (e : Enrollment) → p e ≡ true → IsLater e (g e)) (s : School) where
  pub History-found :
      {e : Enrollment}
      → Below s.next_id s.enrollments
      → find p s.enrollments ≡ some e
      → History s.enrollments (save_row e.id g s).enrollments
  unfolding save_row
  History-found {e} b h = History-saved e.id g s.enrollments (
      found-changed IsLater IsLater-refl p g s.next_id s.enrollments b h
        (later e (find_holds p s.enrollments h)))
