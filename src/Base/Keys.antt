-- ===== src/Base/Keys.antt =====
-- Tables whose rows have a numeric key that falls along the table, and sums over their rows.
use mathlib.Core.Path.{◌≡◌, refl, sym, ap, ◌∙◌, subst}
use mathlib.Core.Logic.{inl, inr}
use mathlib.Core.Bool.{Bool, true, false}
use mathlib.Core.Option.{some}
use mathlib.Core.List.{List, [], ◌∷◌}
use Prim.Native.Nat.{ℕ, ◌+◌, ◌≤◌, ◌<◌}
use native.Mathlib.Omega.{arith}
use obs_system_backend_berka.Base.Tests.{◌==◌, ==_iff, Bool-cases}
use obs_system_backend_berka.Base.Tables.{find, update_where, delete_where, All, In}

some_inj : {A : Type 0} (a b : A) → some a ≡ some b → a ≡ b
some_inj a b h = cc

pub find-In : {A : Type 0} (p : A → Bool) (xs : List A) {x : A} → find p xs ≡ some x → In x xs
find-In p [] h = cc
find-In p (y ∷ ys) {x} h = elim (Bool-cases (p y)) [
  | inl hit ↦ inl (some_inj x y (sym (rw hit at h)))
  | inr miss ↦ inr (find-In p ys (rw miss at h))
]

module _ {A : Type 0} (key : A → ℕ) where
  -- Keys fall along the table and stay below `n`.
  abbrev pub Falls : ℕ → List A → Type 0
  Falls n [] = Unit {0}
  Falls n (x ∷ xs) = (key x < n) × Falls (key x) xs

  pub Falls-mono : (m n : ℕ) (xs : List A) → m ≤ n → Falls m xs → Falls n xs
  Falls-mono m n [] h b = tt
  Falls-mono m n (x ∷ xs) h b = (omega arith, b.1)

  pub In-Falls : (n : ℕ) (xs : List A) (x : A) → Falls n xs → In x xs → key x < n
  In-Falls n [] x b i = elim i [ ]
  In-Falls n (y ∷ ys) x b (inl same) = omega (arith, ap key same, b.0)
  In-Falls n (y ∷ ys) x b (inr i) = omega (arith, In-Falls (key y) ys x b.1 i, b.0)

  -- No two rows have one key.
  abbrev pub IsDistinct : List A → Type 0
  IsDistinct [] = Unit {0}
  IsDistinct (x ∷ xs) = All (λ (y : A). (key y == key x) ≡ false) xs × IsDistinct xs

  -- The row that was found is the only one with its key.
  abbrev pub IsOnly : ℕ → A → A → Type 0
  IsOnly k x y = (key y == k) ≡ true → y ≡ x

  none-IsOnly :
      (k z : ℕ) (x : A) (xs : List A)
      → (z == k) ≡ true
      → All (λ (y : A). (key y == z) ≡ false) xs
      → All (IsOnly k x) xs
  none-IsOnly k z x [] e h = tt
  none-IsOnly k z x (y ∷ xs) e h = (λ same. absurd (clash same), none-IsOnly k z x xs e h.1)
    where
      clash : (key y == k) ≡ true → ⊥
      clash same = ground arith

  pub found-IsOnly :
      (k : ℕ) (xs : List A) {x : A}
      → IsDistinct xs
      → find (λ (y : A). key y == k) xs ≡ some x
      → All (IsOnly k x) xs
  found-IsOnly k [] d h = tt
  found-IsOnly k (y ∷ xs) {x} d h = elim (Bool-cases (key y == k)) [
    | inl hit ↦ (λ _. some_inj y x (rw hit at h), none-IsOnly k (key y) x xs hit d.0)
    | inr miss ↦ (λ hit. absurd (clash hit miss), found-IsOnly k xs d.1 (rw miss at h))
  ]
    where
      clash : {b : Bool} → b ≡ true → b ≡ false → ⊥
      clash e f = cc

  -- The sum of what the rows weigh.
  abbrev pub total : (A → ℕ) → List A → ℕ
  total w [] = 0
  total w (x ∷ xs) = w x + total w xs

  module _ (f : A → A) (same_key : (x : A) → key (f x) ≡ key x) where
    abbrev pub saved : ℕ → List A → List A
    saved k = update_where (λ (x : A). key x == k) f

    pub saved-Falls : (k n : ℕ) (xs : List A) → Falls n xs → Falls n (saved k xs)
    saved-Falls k n [] b = tt
    saved-Falls k n (x ∷ xs) b = ground (arith, same_key x, saved-Falls k (key x) xs b.1)

    pub saved_above : (k n : ℕ) (xs : List A) → Falls n xs → n ≤ k → saved k xs ≡ xs
    saved_above k n [] b le = refl
    saved_above k n (x ∷ xs) b le = ground (arith, saved_above k (key x) xs b.1)

    pub total-saved :
        (w : A → ℕ) (n : ℕ) (xs : List A) (x : A)
        → Falls n xs
        → In x xs
        → total w (saved (key x) xs) + w x ≡ total w xs + w (f x)
    total-saved w n [] x b i = elim i [ ]
    total-saved w n (y ∷ ys) x b (inl same) =
        let head : saved (key y) (y ∷ ys) ≡ f y ∷ ys =
          ground (arith, saved_above (key y) (key y) ys b.1) in
        subst (λ (z : A). total w (saved (key z) (y ∷ ys)) + w z ≡ total w (y ∷ ys) + w (f z))
          (sym same) (omega (arith, ap (total w) head))
    total-saved w n (y ∷ ys) x b (inr i) =
        let tail : saved (key x) (y ∷ ys) ≡ y ∷ saved (key x) ys =
          ground (arith, In-Falls (key y) ys x b.1 i) in
        omega (arith, ap (total w) tail, total-saved w (key y) ys x b.1 i)

  abbrev pub removed : ℕ → List A → List A
  removed k = delete_where (λ (x : A). key x == k)

  pub removed_above : (k n : ℕ) (xs : List A) → Falls n xs → n ≤ k → removed k xs ≡ xs
  removed_above k n [] b le = refl
  removed_above k n (x ∷ xs) b le = ground (arith, removed_above k (key x) xs b.1)

  pub removed-Falls : (k n : ℕ) (xs : List A) → Falls n xs → Falls n (removed k xs)
  removed-Falls k n [] b = tt
  removed-Falls k n (x ∷ xs) b = elim (Bool-cases (key x == k)) [
    | inl hit ↦ rw hit (Falls-mono (key x) n _ (omega arith) (removed-Falls k (key x) xs b.1))
    | inr miss ↦ rw miss (b.0, removed-Falls k (key x) xs b.1)
  ]

  pub total-removed :
      (w : A → ℕ) (n : ℕ) (xs : List A) (x : A)
      → Falls n xs
      → In x xs
      → total w (removed (key x) xs) + w x ≡ total w xs
  total-removed w n [] x b i = elim i [ ]
  total-removed w n (y ∷ ys) x b (inl same) =
      let head : removed (key y) (y ∷ ys) ≡ ys =
        ground (arith, removed_above (key y) (key y) ys b.1) in
      subst (λ (z : A). total w (removed (key z) (y ∷ ys)) + w z ≡ total w (y ∷ ys)) (sym same)
        (omega (arith, ap (total w) head))
  total-removed w n (y ∷ ys) x b (inr i) =
      let tail : removed (key x) (y ∷ ys) ≡ y ∷ removed (key x) ys =
        ground (arith, In-Falls (key y) ys x b.1 i) in
      omega (arith, ap (total w) tail, total-removed w (key y) ys x b.1 i)

  -- A query finds the saved row where it found the row, if the change does not matter to it.
  pub find-saved :
      (p : A → Bool) (f : A → A) (xs : List A) {x : A}
      → ((y : A) → p (f y) ≡ p y)
      → find p xs ≡ some x
      → find p (update_where (λ (y : A). key y == key x) f xs) ≡ some (f x)
  find-saved p f [] same h = cc
  find-saved p f (y ∷ ys) {x} same h = elim (Bool-cases (p y)) [
    | inl hit ↦
        let own : y ≡ x = some_inj y x (rw hit at h) in
        let id_is : (key y == key x) ≡ true = (==_iff (key y) (key x)).1 (ap key own) in
        let still : p (f y) ≡ true = same y ∙ hit in rw id_is (rw still (ap (λ z. some (f z)) own))
    | inr miss ↦
        let later = find-saved p f ys same (rw miss at h) in
        let gone : p (f y) ≡ false = same y ∙ miss in
        elim (Bool-cases (key y == key x)) [
          | inl e ↦ rw e (rw gone later)
          | inr e ↦ rw e (rw miss later)
        ]
  ]

  -- Rows with one key are one row.
  pub In-unique :
      (n : ℕ) (xs : List A) (x y : A) → Falls n xs → In x xs → In y xs → key x ≡ key y → x ≡ y
  In-unique n [] x y b i j e = elim i [ ]
  In-unique n (z ∷ zs) x y b (inl p) (inl q) e = p ∙ sym q
  In-unique n (z ∷ zs) x y b (inl p) (inr j) e =
      absurd (omega (arith, ap key p, In-Falls (key z) zs y b.1 j))
  In-unique n (z ∷ zs) x y b (inr i) (inl q) e =
      absurd (omega (arith, ap key q, In-Falls (key z) zs x b.1 i))
  In-unique n (z ∷ zs) x y b (inr i) (inr j) e = In-unique (key z) zs x y b.1 i j e

  -- The save of one row leaves the others.
  pub find-saved_other :
      (f : A → A) (same_key : (x : A) → key (f x) ≡ key x) (k i : ℕ) (xs : List A)
      → (i == k) ≡ false
      → find (λ (x : A). key x == i) (update_where (λ (x : A). key x == k) f xs)
        ≡ find (λ (x : A). key x == i) xs
  find-saved_other f same_key k i [] diff = refl
  find-saved_other f same_key k i (x ∷ xs) diff =
      let rest = find-saved_other f same_key k i xs diff in
      elim (Bool-cases (key x == k)) [
        | inl hit ↦
            let off : (key x == i) ≡ false = ground arith in
            let off_f : (key (f x) == i) ≡ false = ground (arith, same_key x) in
            rw hit (rw (off, off_f) rest)
        | inr miss ↦
            rw miss
              (elim (Bool-cases (key x == i)) [ inl at_i ↦ rw at_i refl | inr off ↦ rw off rest ])
      ]

  -- The row with a key is the one that a query by the key finds.
  pub find-key :
      (n : ℕ) (xs : List A) (x : A)
      → Falls n xs
      → In x xs
      → find (λ (y : A). key y == key x) xs ≡ some x
  find-key n [] x b i = elim i [ ]
  find-key n (y ∷ ys) x b (inl same) =
      let hit : (key y == key x) ≡ true = (==_iff (key y) (key x)).1 (ap key (sym same)) in
      rw hit (ap some (sym same))
  find-key n (y ∷ ys) x b (inr i) =
      let below : key x < key y = In-Falls (key y) ys x b.1 i in
      let miss : (key y == key x) ≡ false = ground arith in rw miss (find-key (key y) ys x b.1 i)
