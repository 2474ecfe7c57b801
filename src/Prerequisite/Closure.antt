-- ===== src/Prerequisite/Closure.antt =====
-- What `getAllPrerequisites` and `checkPrerequisites` of src/services/prerequisiteService.js compute:
-- the rows that are reached from the course, and those of them that the student lacks.
use obs_system_backend_berka.Base.{
  ℕ, zero, suc, ◌≤◌, ◌<◌, ◌≡◌, ◌↔◌, refl, ap, inl, inr, Bool, true, false, not, Option, some, List,
  [], ◌∷◌, ◌++◌, arith, ◌==◌, ==_iff, Bool-cases, filter, length, In, In-filter, In-filter_inv,
}
use obs_system_backend_berka.School.{Prerequisite, School}
use obs_system_backend_berka.Prerequisite.{
  has, direct, each_prerequisite, get_all_prerequisites, enough_fuel, has_completed_course,
  required_mark, is_missing, check_prerequisites,
}
use obs_system_backend_berka.Prerequisite.Search.{
  Reach, here, link, free, free_anti, free_less, has_more, has_self, IsTarget, Visit, Loop,
  Loop-nil, Loop-cons,
}

abbrev Visits : List Prerequisite → ℕ → List ℕ → Option (List Prerequisite × List ℕ) → Type 0
Visits t c v r =
    (out : List Prerequisite) × (v' : List ℕ) × (r ≡ some (out, v')) × Visit t c v out v'

abbrev Loops :
    List Prerequisite
    → ℕ
    → List Prerequisite
    → List ℕ
    → Option (List Prerequisite × List ℕ)
    → Type 0
Loops t c ps v r =
    (out : List Prerequisite) × (v' : List ℕ) × (r ≡ some (out, v')) × Loop t c ps v out v'

-- The loop, given that the nested calls succeed with the fuel `f`.
each_prerequisite-Loops :
    (t : List Prerequisite) (f c : ℕ) (ps : List Prerequisite) (v : List ℕ)
    → ((d : ℕ) (w : List ℕ)
        → IsTarget t d
        → free t w < f
        → Visits t d w (get_all_prerequisites t f d w))
    → ((p : Prerequisite) → In p ps → In p t × (p.course_id ≡ c))
    → free t v < f
    → Loops t c ps v (each_prerequisite (get_all_prerequisites t f) ps v)
unfolding each_prerequisite
each_prerequisite-Loops t f c [] v rec rows less = ([], v, refl, Loop-nil t c v)
each_prerequisite-Loops t f c (p ∷ ps) v rec rows less =
    let (row, own) = rows p (inl refl) in
    let (nested, v1, e1, first) = rec p.prerequisite_course_id v (p, row, refl) less in
    let less1 : free t v1 < f = omega (arith, free_anti t v v1 first.grows) in
    let (rest, v2, e2, more) =
      each_prerequisite-Loops t f c ps v1 rec (λ q h. rows q (inr h)) less1 in
    (
      p ∷ (nested ++ rest),
      v2,
      rw (e1, each_prerequisite) (rw (e2, each_prerequisite) refl),
      Loop-cons t c p ps v v1 v2 nested rest row own first more,
    )

direct_rows :
    (t : List Prerequisite) (c : ℕ) (p : Prerequisite)
    → In p (direct t c)
    → In p t × (p.course_id ≡ c)
direct_rows t c p h =
    let r = In-filter_inv (λ (q : Prerequisite). q.course_id == c) p t h in
    (r.0, (==_iff p.course_id c).0 r.1)

-- A call on a course that is new is its loop, started with the course in the visited set.
Visit-new :
    (t : List Prerequisite) (c : ℕ) (v : List ℕ) (out : List Prerequisite) (v' : List ℕ)
    → has v c ≡ false
    → Loop t c (direct t c) (c ∷ v) out v'
    → Visit t c v out v'
Visit-new t c v out v' new l = record {
  grows = λ x h. l.grows x (has_more c v x h);
  entered = l.grows c (has_self c v);
  closed = closed;
  sound = l.sound;
}
  where
    closed :
        (x : ℕ)
        → has v x ≡ false
        → has v' x ≡ true
        → (p : Prerequisite) → In p t
        → p.course_id ≡ x
        → In p out × (has v' p.prerequisite_course_id ≡ true)
    closed x fresh old p i e = elim (Bool-cases (has (c ∷ v) x)) [
      | inl self ↦
          let is_c : (p.course_id == c) ≡ true = ground arith in
          l.each p (In-filter (λ (q : Prerequisite). q.course_id == c) p t i is_c)
      | inr other ↦ l.closed x other old p i e
    ]

Visit-again : (t : List Prerequisite) (c : ℕ) (v : List ℕ) → has v c ≡ true → Visit t c v [] v
Visit-again t c v old = record {
  grows = λ x h. h;
  entered = old;
  closed = λ x new seen p i e. absurd (clear new seen);
  sound = λ p h. elim h [ ];
}
  where
    clear : {b : Bool} → b ≡ false → b ≡ true → ⊥
    clear h e = cc

get_all_prerequisites-Visits :
    (t : List Prerequisite) (fuel c : ℕ) (v : List ℕ)
    → IsTarget t c
    → free t v < fuel
    → Visits t c v (get_all_prerequisites t fuel c v)
unfolding get_all_prerequisites
get_all_prerequisites-Visits t zero c v target less = elim less [ ]
get_all_prerequisites-Visits t (suc f) c v (p, row, is) less = elim (Bool-cases (has v c)) [
  | inl old ↦ ([], v, rw old refl, Visit-again t c v old)
  | inr new ↦
      let less' : free t (c ∷ v) < f = omega (arith, free_less t c v p row is new) in
      let (out, v', e, l) =
        each_prerequisite-Loops t f c (direct t c) (c ∷ v)
          (λ d w. get_all_prerequisites-Visits t f d w) (direct_rows t c) less' in
      (out, v', rw (new, e) refl, Visit-new t c v out v' new l)
]

free-le-length : (t : List Prerequisite) (v : List ℕ) → free t v ≤ length t
free-le-length [] v = omega arith
free-le-length (p ∷ t) v = ground (arith, free-le-length t v)

-- The whole search, from any course and an empty visited set.
pub search-Visits :
    (t : List Prerequisite) (c : ℕ) → Visits t c [] (get_all_prerequisites t (enough_fuel t) c [])
unfolding get_all_prerequisites
search-Visits t c =
    let less : free t (c ∷ []) < suc (length t) = omega (arith, free-le-length t (c ∷ [])) in
    let (out, v', e, l) =
      each_prerequisite-Loops t (suc (length t)) c (direct t c) (c ∷ [])
        (λ d w. get_all_prerequisites-Visits t (suc (length t)) d w) (direct_rows t c) less in
    (out, v', e, Visit-new t c [] out v' refl l)

-- A visited set that grew from nothing holds all that is reached.
Reach-visited :
    (t : List Prerequisite) (c : ℕ) (out : List Prerequisite) (v' : List ℕ) {d x : ℕ}
    → Visit t c [] out v'
    → Reach t d x
    → has v' d ≡ true
    → has v' x ≡ true
Reach-visited t c out v' w here h = h
Reach-visited t c out v' {d} w (link p row own r) h =
    Reach-visited t c out v' w r (w.closed d refl h p row own).1

-- From any course the search ends within the fuel, also round cycles of prerequisites, and its result
-- is exactly the table's rows whose course is reached from the start: on a cycle through the start,
-- the row that leads back to it is among them.
pub get_all_prerequisites_exact :
    (table : List Prerequisite) (course : ℕ)
    → (out : List Prerequisite) × (visited : List ℕ) × (get_all_prerequisites table
          (enough_fuel table)
          course
          []
        ≡ some (out, visited))
      × ((p : Prerequisite) → In p out ↔ (In p table × Reach table course p.course_id))
get_all_prerequisites_exact table course =
    let (out, visited, e, w) = search-Visits table course in
    (
      out,
      visited,
      e,
      λ p. (
        w.sound p,
        λ h.
            (w.closed p.course_id refl (Reach-visited table course out visited w h.1 w.entered) p
              h.0 refl).0,
      ),
    )

not-true_inv : (b : Bool) → not b ≡ true → b ≡ false
not-true_inv true h = cc
not-true_inv false h = refl

-- `checkPrerequisites` always answers, and lists exactly the prerequisites, nested ones included,
-- that the student has not completed with the required grade.
pub check_prerequisites_exact :
    (s : School) (student course : ℕ)
    → (missing : List Prerequisite) × (check_prerequisites s student course ≡ some missing)
      × ((p : Prerequisite)
          → In p missing ↔ (
              In p s.prerequisites
              × Reach s.prerequisites course p.course_id
              × (has_completed_course s student p.prerequisite_course_id (required_mark p.min_grade)
                  ≡ false)))
unfolding check_prerequisites
check_prerequisites_exact s student course =
    let (out, visited, e, exact) = get_all_prerequisites_exact s.prerequisites course in
    (
      filter (is_missing s student) out,
      rw (e, check_prerequisites) refl,
      λ p. (
        λ h.
            let r = In-filter_inv (is_missing s student) p out h in
            let q = (exact p).0 r.0 in (q.0, q.1, not-true_inv _ r.1),
        λ h. In-filter (is_missing s student) p out ((exact p).1 (h.0, h.1)) (ap not h.2),
      ),
    )
