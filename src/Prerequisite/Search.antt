-- ===== src/Prerequisite/Search.antt =====
-- The depth-first search of `getAllPrerequisites` (src/services/prerequisiteService.js): it ends, and
-- what one call adds to the visited set and to the result.
use obs_system_backend_berka.Base.{
  ℕ, ◌≤◌, ◌<◌, ◌≡◌, sym, ap, ◌∙◌, inl, inr, Bool, true, false, not, List, [], ◌∷◌, ◌++◌, arith,
  Bool-cases, count, In, In-append_left, In-append_right, In-append_cases,
}
use obs_system_backend_berka.School.{Prerequisite}
use obs_system_backend_berka.Prerequisite.{has}

-- `x` is reached from the course `c` by going from courses to their prerequisites.
pub data Reach (table : List Prerequisite) : ℕ → ℕ → Type 0 where
  here : {c : ℕ} → Reach table c c
  link :
      {c x : ℕ} (p : Prerequisite)
      → In p table
      → p.course_id ≡ c
      → Reach table p.prerequisite_course_id x
      → Reach table c x

abbrev pub Sub : List ℕ → List ℕ → Type 0
Sub v w = (x : ℕ) → has v x ≡ true → has w x ≡ true

-- The rows whose prerequisite is not visited yet: what bounds the depth of the search.
abbrev pub free : List Prerequisite → List ℕ → ℕ
free table v = count (λ (p : Prerequisite). not (has v p.prerequisite_course_id)) table

pub free_anti : (t : List Prerequisite) (v w : List ℕ) → Sub v w → free t w ≤ free t v
free_anti [] v w s = omega arith
free_anti (p ∷ t) v w s = ground (arith, s p.prerequisite_course_id, free_anti t v w s)

pub has_more : (c : ℕ) (v : List ℕ) → Sub v (c ∷ v)
has_more c v x h = ground arith

pub has_self : (c : ℕ) (v : List ℕ) → has (c ∷ v) c ≡ true
has_self c v = ground arith

-- `c` is the prerequisite of some row.
abbrev pub IsTarget : List Prerequisite → ℕ → Type 0
IsTarget t c = (p : Prerequisite) × In p t × (p.prerequisite_course_id ≡ c)

pub free_less :
    (t : List Prerequisite) (c : ℕ) (v : List ℕ) (p : Prerequisite)
    → In p t
    → p.prerequisite_course_id ≡ c
    → has v c ≡ false
    → free t (c ∷ v) < free t v
free_less [] c v p h e new = elim h [ ]
free_less (q ∷ t) c v p (inl same) e new =
    let q_is : q.prerequisite_course_id ≡ c =
      ap (λ (x : Prerequisite). x.prerequisite_course_id) (sym same) ∙ e in
    ground (arith, free_anti t v (c ∷ v) (has_more c v))
free_less (q ∷ t) c v p (inr h) e new = ground (arith, free_less t c v p h e new)

-- What a call on `c` that ends at `v'` with the result `out` has done: what is new in the visited set
-- has its rows in the result and its prerequisites in the set, and is reached from `c`.
pub record Visit (t : List Prerequisite) (c : ℕ) (v : List ℕ) (out : List Prerequisite)
    (v' : List ℕ) : Type 0 where
  pub grows : Sub v v'
  pub entered : has v' c ≡ true
  pub closed :
      (x : ℕ)
      → has v x ≡ false
      → has v' x ≡ true
      → (p : Prerequisite) → In p t
      → p.course_id ≡ x
      → In p out × (has v' p.prerequisite_course_id ≡ true)
  pub sound : (p : Prerequisite) → In p out → In p t × Reach t c p.course_id

-- The same of the loop over the rows `ps` of `c`.
pub record Loop (t : List Prerequisite) (c : ℕ) (ps : List Prerequisite) (v : List ℕ)
    (out : List Prerequisite) (v' : List ℕ) : Type 0 where
  pub grows : Sub v v'
  pub each : (p : Prerequisite) → In p ps → In p out × (has v' p.prerequisite_course_id ≡ true)
  pub closed :
      (x : ℕ)
      → has v x ≡ false
      → has v' x ≡ true
      → (p : Prerequisite) → In p t
      → p.course_id ≡ x
      → In p out × (has v' p.prerequisite_course_id ≡ true)
  pub sound : (p : Prerequisite) → In p out → In p t × Reach t c p.course_id

true≢false : {b : Bool} → b ≡ true → b ≡ false → ⊥
true≢false h e = cc

pub Loop-nil : (t : List Prerequisite) (c : ℕ) (v : List ℕ) → Loop t c [] v [] v
Loop-nil t c v = record {
  grows = λ x h. h;
  each = λ p h. elim h [ ];
  closed = λ x new old p i e. absurd (true≢false old new);
  sound = λ p h. elim h [ ];
}

module _ (t : List Prerequisite) (c : ℕ) (p : Prerequisite) (ps : List Prerequisite)
    (v v1 v2 : List ℕ) (nested rest : List Prerequisite) (row : In p t) (own : p.course_id ≡ c)
    (first : Visit t p.prerequisite_course_id v nested v1) (more : Loop t c ps v1 rest v2) where
  out : List Prerequisite
  out = p ∷ (nested ++ rest)

  In-nested : (q : Prerequisite) → In q nested → In q out
  unfolding out
  In-nested q h = inr (In-append_left q nested rest h)

  In-rest : (q : Prerequisite) → In q rest → In q out
  unfolding out
  In-rest q h = inr (In-append_right q nested rest h)

  loop_each :
      (q : Prerequisite) → In q (p ∷ ps) → In q out × (has v2 q.prerequisite_course_id ≡ true)
  unfolding out
  loop_each q (inl e) = (
    inl e,
    ap (λ (x : Prerequisite). has v2 x.prerequisite_course_id) e
        ∙ more.grows p.prerequisite_course_id first.entered,
  )
  loop_each q (inr h) = let r = more.each q h in (In-rest q r.0, r.1)

  loop_closed :
      (x : ℕ)
      → has v x ≡ false
      → has v2 x ≡ true
      → (q : Prerequisite) → In q t
      → q.course_id ≡ x
      → In q out × (has v2 q.prerequisite_course_id ≡ true)
  loop_closed x new old q i e = elim (Bool-cases (has v1 x)) [
    | inl early ↦
        let r = first.closed x new early q i e in
        (In-nested q r.0, more.grows q.prerequisite_course_id r.1)
    | inr late ↦ let r = more.closed x late old q i e in (In-rest q r.0, r.1)
  ]

  loop_sound : (q : Prerequisite) → In q out → In q t × Reach t c q.course_id
  unfolding out
  loop_sound q (inl e) = (rw e row, rw (e, own) here)
  loop_sound q (inr h) = elim (In-append_cases q nested rest h) [
    | inl l ↦ let r = first.sound q l in (r.0, link p row own r.1)
    | inr l ↦ more.sound q l
  ]

  pub Loop-cons : Loop t c (p ∷ ps) v (p ∷ (nested ++ rest)) v2
  unfolding out
  Loop-cons = record {
    grows = λ x h. more.grows x (first.grows x h);
    each = loop_each;
    closed = loop_closed;
    sound = loop_sound;
  }
