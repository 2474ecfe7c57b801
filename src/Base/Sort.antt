-- ===== src/Base/Sort.antt =====
-- Stable sorting by a comparison, as `Array.prototype.sort` does it, and the members of the result.
use mathlib.Core.Path.{refl}
use mathlib.Core.Logic.{inl, inr}
use mathlib.Core.Bool.{Bool}
use mathlib.Core.List.{List, [], ◌∷◌}
use obs_system_backend_berka.Base.Tests.{if◌then◌else◌, Bool-cases}
use obs_system_backend_berka.Base.Tables.{In}

module _ {ℓ} {A : Type ℓ} (stays : A → A → Bool) where
  -- `stays x y` says that the comparison of x with y is not positive.
  abbrev pub insert_by : A → List A → List A
  insert_by x [] = x ∷ []
  insert_by x (y ∷ ys) = let rest = insert_by x ys in if stays x y then x ∷ y ∷ ys else y ∷ rest

  abbrev pub sort_by : List A → List A
  sort_by [] = []
  sort_by (x ∷ xs) = insert_by x (sort_by xs)

  In-insert_here : (x : A) (ys : List A) → In x (insert_by x ys)
  In-insert_here x [] = inl refl
  In-insert_here x (y ∷ ys) = elim (Bool-cases (stays x y)) [
    | inl e ↦ rw e (inl refl)
    | inr e ↦ rw e (inr (In-insert_here x ys))
  ]

  In-insert_by : (a x : A) (ys : List A) → In a ys → In a (insert_by x ys)
  In-insert_by a x [] h = elim h [ ]
  In-insert_by a x (y ∷ ys) h = elim (Bool-cases (stays x y)) [
    | inl e ↦ rw e (inr h)
    | inr e ↦ elim h [ inl same ↦ rw e (inl same) | inr t ↦ rw e (inr (In-insert_by a x ys t)) ]
  ]

  pub In-insert_by_inv : (a x : A) (ys : List A) → In a (insert_by x ys) → In a (x ∷ ys)
  In-insert_by_inv a x [] h = h
  In-insert_by_inv a x (y ∷ ys) h = elim (Bool-cases (stays x y)) [
    | inl e ↦ rw e at h
    | inr e ↦ elim (rw e at h) [
      | inl same ↦ inr (inl same)
      | inr t ↦ elim (In-insert_by_inv a x ys t) [ inl same ↦ inl same | inr u ↦ inr (inr u) ]
    ]
  ]

  -- Sorting neither loses nor invents a member.
  pub In-sort_by : (a : A) (xs : List A) → In a xs → In a (sort_by xs)
  In-sort_by a [] h = h
  In-sort_by a (x ∷ xs) (inl same) = rw same (In-insert_here x (sort_by xs))
  In-sort_by a (x ∷ xs) (inr h) = In-insert_by a x (sort_by xs) (In-sort_by a xs h)

  pub In-sort_by_inv : (a : A) (xs : List A) → In a (sort_by xs) → In a xs
  In-sort_by_inv a [] h = h
  In-sort_by_inv a (x ∷ xs) h = elim (In-insert_by_inv a x (sort_by xs) h) [
    | inl same ↦ inl same
    | inr t ↦ inr (In-sort_by_inv a xs t)
  ]
