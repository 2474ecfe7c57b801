-- ===== src/Enrollments/Seats.antt =====
-- The seats that the enrolled students of a section take, under an update of one enrollment.
use obs_system_backend_berka.Base.{
  ℕ, ◌+◌, ◌≤◌, ◌<◌, ◌≡◌, inl, inr, Bool, true, false, ◌&&◌, some, List, [], ◌∷◌, arith, ◌==◌,
  ==_iff, if◌then◌else◌, Bool-cases, find, update_where, All, ap, sym, subst,
}
use obs_system_backend_berka.Base.Keys.{Falls, total, total-saved, find-In, In-Falls}
use obs_system_backend_berka.School.{Enrollment}
use obs_system_backend_berka.Enrollments.{is_status_enrolled}

abbrev pub seat : ℕ → Enrollment → ℕ
seat x e = if (e.section_id == x) && is_status_enrolled e.status then 1 else 0

abbrev pub id_of : Enrollment → ℕ
id_of e = e.id

-- The number of enrollments in section `x` with the status enrolled.
abbrev pub seats : ℕ → List Enrollment → ℕ
seats x = total id_of (seat x)

-- Ids fall along the table and stay below `n`.
abbrev pub Below : ℕ → List Enrollment → Type 0
Below = Falls id_of

find-Below :
    (p : Enrollment → Bool) (n : ℕ) (es : List Enrollment) {e : Enrollment}
    → Below n es
    → find p es ≡ some e
    → e.id < n
find-Below p n es {e} b h = In-Falls id_of n es e b (find-In p es h)

-- Seats move by the difference that a change of the found row makes.
pub seats-saved :
    (f : Enrollment → Enrollment) (same_id : (e : Enrollment) → (f e).id ≡ e.id)
    (p : Enrollment → Bool) (x n : ℕ) (es : List Enrollment) {e : Enrollment}
    → Below n es
    → find p es ≡ some e
    → seats x (update_where (λ (d : Enrollment). d.id == e.id) f es) + seat x e
      ≡ seats x es + seat x (f e)
seats-saved f same_id p x n es {e} b h =
    total-saved id_of f same_id (seat x) n es e b (find-In p es h)

abbrev pub changed : ℕ → (Enrollment → Enrollment) → Enrollment → Enrollment
changed k g e = if e.id == k then g e else e

some_inj : (a b : Enrollment) → some a ≡ some b → a ≡ b
some_inj a b h = cc

-- A relation that holds between the found row and its change holds along the whole update.
module _ (R : Enrollment → Enrollment → Type 0) (R-refl : (d : Enrollment) → R d d) where
  changed_above :
      (k n : ℕ) (g : Enrollment → Enrollment) (es : List Enrollment)
      → Below n es
      → n ≤ k
      → All (λ d. R d (changed k g d)) es
  changed_above k n g [] b le = tt
  changed_above k n g (e ∷ es) b le = (
    (let other : (e.id == k) ≡ false = ground arith in rw other (R-refl e)),
    changed_above k e.id g es b.1 (omega arith),
  )

  pub found-changed :
      (p : Enrollment → Bool) (g : Enrollment → Enrollment) (n : ℕ) (es : List Enrollment)
      {e : Enrollment}
      → Below n es
      → find p es ≡ some e
      → R e (g e)
      → All (λ d. R d (changed e.id g d)) es
  found-changed p g n [] b h l = tt
  found-changed p g n (y ∷ es) {e} b h l = elim (Bool-cases (p y)) [
    | inl hit ↦
        let same : y ≡ e = some_inj y e (rw hit at h) in
        let id_is : (y.id == e.id) ≡ true =
          (==_iff y.id e.id).1 (ap (λ (z : Enrollment). z.id) same) in
        (
          rw id_is (subst (λ (z : Enrollment). R z (g z)) (sym same) l),
          changed_above e.id y.id g es b.1 (omega (arith, ap (λ (z : Enrollment). z.id) same)),
        )
    | inr miss ↦
        let h' : find p es ≡ some e = rw miss at h in
        let other : (y.id == e.id) ≡ false = ground (arith, find-Below p y.id es {e = e} b.1 h') in
        (rw other (R-refl y), found-changed p g y.id es b.1 h' l)
  ]
