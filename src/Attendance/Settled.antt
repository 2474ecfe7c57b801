-- ===== src/Attendance/Settled.antt =====
-- The records and the excuse requests of a student for a session, and what each call of
-- src/services/attendanceService.js and src/controllers/excuseController.js does to them.
use obs_system_backend_berka.Base.{
  ℕ, suc, ◌+◌, ◌≤◌, ◌≡◌, refl, sym, inl, inr, Bool, true, false, ◌&&◌, ◌||◌, Option, some, List, [],
  ◌∷◌, arith, if◌then◌else◌, Bool-cases, find, any, count, subst,
}
use obs_system_backend_berka.Attendance.{AttendanceRecord, Presence, ExcuseRequest, is_record_of}
use obs_system_backend_berka.Attendance.Report.{is_present, is_late, is_approved}
use obs_system_backend_berka.Attendance.Excuses.{update_first, is_excuse_of}

abbrev pub is_attended : Presence → Bool
is_attended p = is_present p || is_late p

abbrev pub attended_of : ℕ → ℕ → AttendanceRecord → Bool
attended_of session student r = is_record_of session student r && is_attended r.status

abbrev pub approved_of : ℕ → ℕ → ExcuseRequest → Bool
approved_of session student e = is_excuse_of session student e && is_approved e.status

-- A student's record of a session and request for it: one of each at most, and an approved request goes
-- with a record that does not count as attended.
abbrev pub IsSettled : List AttendanceRecord → List ExcuseRequest → Type 0
IsSettled records excuses =
    (session student : ℕ)
    → (count (is_record_of session student) records ≤ 1)
      × (count (is_excuse_of session student) excuses ≤ 1)
      × (count (attended_of session student) records + count (approved_of session student) excuses
          ≤ 1)
      × (count (approved_of session student) excuses ≤ count (is_record_of session student) records)

abbrev pub one_if : Bool → ℕ
one_if b = if b then 1 else 0

module _ {A : Type 0} where
  pub count_cons :
      (p : A → Bool) (x : A) (xs : List A) → count p (x ∷ xs) ≡ one_if (p x) + count p xs
  count_cons p x xs = elim (Bool-cases (p x)) [
    | inl e ↦ rw e (omega arith)
    | inr e ↦ rw e (omega arith)
  ]

  pub count_none : (p : A → Bool) (xs : List A) → any p xs ≡ false → count p xs ≡ 0
  count_none p [] h = refl
  count_none p (x ∷ xs) h = elim (Bool-cases (p x)) [
    | inl e ↦ (let g = (rw e at h) in cc)
    | inr e ↦ rw e (count_none p xs (rw e at h))
  ]

  pub count_mono :
      (p q : A → Bool) (xs : List A) → ((x : A) → p x ≡ true → q x ≡ true) → count p xs ≤ count q xs
  count_mono p q [] h = omega arith
  count_mono p q (x ∷ xs) h =
      let rest = count_mono p q xs h in
      elim (Bool-cases (p x)) [
        | inl e ↦ rw (e, h x e) (omega (arith, rest))
        | inr e ↦ elim (Bool-cases (q x)) [
          | inl f ↦ rw (e, f) (omega (arith, rest))
          | inr f ↦ rw (e, f) (omega (arith, rest))
        ]
      ]

  found_head : (x y : A) → ◌≡◌ {A = Option A} (some y) (some x) → y ≡ x
  found_head x y h = cc

  -- Saving the row that a query finds changes a count by that row.
  pub count-update_first :
      (p q : A → Bool) (f : A → A) (xs : List A) (x : A)
      → find p xs ≡ some x
      → count q (update_first p f xs) + one_if (q x) ≡ count q xs + one_if (q (f x))
  count-update_first p q f [] x h = cc
  count-update_first p q f (y ∷ ys) x h = elim (Bool-cases (p y)) [
    | inl e ↦
        let same = found_head x y (rw e at h) in
        rw e (
          subst (λ z. count q (f z ∷ ys) + one_if (q x) ≡ count q (z ∷ ys) + one_if (q (f x)))
            (sym same) (omega (arith, count_cons q (f x) ys, count_cons q x ys)))
    | inr e ↦
        let rest = count-update_first p q f ys x (rw e at h) in
        rw e (omega (arith, rest, count_cons q y (update_first p f ys), count_cons q y ys))
  ]

  -- The saved row counts for the wider test only.
  pub count-update_first-lt :
      (p w q : A → Bool) (f : A → A) (xs : List A) (x : A)
      → find p xs ≡ some x
      → q (f x) ≡ true
      → w (f x) ≡ false
      → ((y : A) → w y ≡ true → q y ≡ true)
      → suc (count w (update_first p f xs)) ≤ count q (update_first p f xs)
  count-update_first-lt p w q f [] x h a b wider = cc
  count-update_first-lt p w q f (y ∷ ys) x h a b wider = elim (Bool-cases (p y)) [
    | inl e ↦
        let same = found_head x y (rw e at h) in
        rw e (
          subst (λ z. suc (count w (f z ∷ ys)) ≤ count q (f z ∷ ys)) (sym same)
            (rw (a, b) (omega (arith, count_mono w q ys wider))))
    | inr e ↦
        let rest = count-update_first-lt p w q f ys x (rw e at h) a b wider in
        let more = count_mono w q (y ∷ []) wider in
        rw e (
          omega (
            arith,
            rest,
            more,
            count_cons w y (update_first p f ys),
            count_cons q y (update_first p f ys),
            count_cons w y [],
            count_cons q y [],
          ))
  ]
