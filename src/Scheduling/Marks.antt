-- ===== src/Scheduling/Marks.antt =====
-- The sets `usedSlots` of src/services/schedulingService.js: what marking and unmarking do to them.
use obs_system_backend_berka.Base.{
  and_true, ℕ, ◌≡◌, refl, sym, ap, ◌∙◌, inl, inr, Bool, true, false, ◌&&◌, ◌||◌, none, some, List,
  [], ◌∷◌, arith, ◌==◌, ==_iff, if◌then◌else◌, Bool-cases, any, delete_where, In,
}
use obs_system_backend_berka.School.{
  Day, Time, monday, tuesday, wednesday, thursday, friday, saturday, sunday,
}
use obs_system_backend_berka.Conflict.{day_index}
use obs_system_backend_berka.Scheduling.{
  TimeSlot, Owner, Use, same_time, same_key, same_owner, is_use, is_used, add, delete, add_all,
  delete_all,
}

-- The day with an index.
day_at : ℕ → Day
day_at n =
    if n == 0
    then monday
    else if n == 1
    then tuesday
    else if n == 2
    then wednesday
    else if n == 3
    then thursday
    else if n == 4
    then friday
    else if n == 5
    then saturday
    else sunday

day_at-day_index : (a : Day) → day_at (day_index a) ≡ a
unfolding day_at
day_at-day_index monday = refl
day_at-day_index tuesday = refl
day_at-day_index wednesday = refl
day_at-day_index thursday = refl
day_at-day_index friday = refl
day_at-day_index saturday = refl
day_at-day_index sunday = refl

slot_of : Day → Time → Time → TimeSlot
slot_of d s e = record { day_of_week = d; start_time = s; end_time = e }

slot_of_fields : (a : TimeSlot) → slot_of a.day_of_week a.start_time a.end_time ≡ a
unfolding slot_of
slot_of_fields a = refl

time_of : ℕ → ℕ → Time
time_of h m = record { hours = h; minutes = m }

time_of_fields : (t : Time) → time_of t.hours t.minutes ≡ t
unfolding time_of
time_of_fields t = refl

same_time_eq : (a b : Time) → same_time a b ≡ true → a ≡ b
same_time_eq a b h =
    let both = and_true (a.hours == b.hours) _ h in
    let hours = (==_iff a.hours b.hours).0 both.0 in
    let minutes = (==_iff a.minutes b.minutes).0 both.1 in
    let eta_a = time_of_fields a in let eta_b = time_of_fields b in cc

-- Equal keys belong to equal slots.
pub same_key_eq : (a b : TimeSlot) → same_key a b ≡ true → a ≡ b
same_key_eq a b h =
    let h1 = and_true (day_index a.day_of_week == day_index b.day_of_week) _ h in
    let h2 = and_true (same_time a.start_time b.start_time) _ h1.1 in
    let day = (==_iff (day_index a.day_of_week) (day_index b.day_of_week)).0 h1.0 in
    let start = same_time_eq a.start_time b.start_time h2.0 in
    let end = same_time_eq a.end_time b.end_time h2.1 in
    let at_a = day_at-day_index a.day_of_week in
    let at_b = day_at-day_index b.day_of_week in
    let eta_a = slot_of_fields a in let eta_b = slot_of_fields b in cc

pub same_key_refl : (a : TimeSlot) → same_key a a ≡ true
same_key_refl a = ground arith

pub same_owner_eq : (a b : Owner) → same_owner a b ≡ true → a ≡ b
same_owner_eq none none h = refl
same_owner_eq none (some b) h = cc
same_owner_eq (some a) none h = cc
same_owner_eq (some a) (some b) h = ap some ((==_iff a b).0 h)

pub same_owner_refl : (a : Owner) → same_owner a a ≡ true
same_owner_refl none = refl
same_owner_refl (some a) = (==_iff a a).1 refl

pub and_intro : (x y : Bool) → x ≡ true → y ≡ true → (x && y) ≡ true
and_intro x y e f = rw (e, f) refl

-- Whether an owner is among others.
abbrev pub is_among : Owner → List Owner → Bool
is_among o os = any (λ x. same_owner x o) os

or_true : (b : Bool) → (b || true) ≡ true
or_true true = refl
or_true false = refl

pub In-is_among : (o : Owner) (os : List Owner) → In o os → is_among o os ≡ true
In-is_among o [] h = elim h [ ]
In-is_among o (x ∷ xs) (inl e) = rw (sym e, same_owner_refl o) refl
In-is_among o (x ∷ xs) (inr h) = rw (In-is_among o xs h) (or_true (same_owner x o))

pub is_among-In : (o : Owner) (os : List Owner) → is_among o os ≡ true → In o os
is_among-In o [] h = cc
is_among-In o (x ∷ xs) h = elim (Bool-cases (same_owner x o)) [
  | inl e ↦ inl (sym (same_owner_eq x o e))
  | inr e ↦ inr (is_among-In o xs (rw e at h))
]

-- A mark at equal keys is the same mark.
is_used_same :
    (o p : Owner) (k l : TimeSlot) (used : List Use)
    → (same_owner p o && same_key l k) ≡ true
    → is_used p l used ≡ is_used o k used
is_used_same o p k l used h =
    let both = and_true (same_owner p o) (same_key l k) h in
    rw (same_owner_eq p o both.0, same_key_eq l k both.1) refl

is_used-add :
    (o p : Owner) (k l : TimeSlot) (used : List Use)
    → is_used o k (add p l used) ≡ ((same_owner p o && same_key l k) || is_used o k used)
is_used-add o p k l used = elim (Bool-cases (is_used p l used)) [
  | inl e ↦ elim (Bool-cases (same_owner p o && same_key l k)) [
    | inl hit ↦ rw (e, hit) (sym (is_used_same o p k l used hit) ∙ e)
    | inr miss ↦ rw (e, miss) refl
  ]
  | inr e ↦ rw e refl
]

regroup : (a b c d : Bool) → ((b && c) || ((a && c) || d)) ≡ (((a || b) && c) || d)
regroup a b c d = elim (Bool-cases a) [
  | inl e ↦ elim (Bool-cases b) [
    | inl f ↦ elim (Bool-cases c) [ inl g ↦ rw (e, f, g) refl | inr g ↦ rw (e, f, g) refl ]
    | inr f ↦ rw (e, f) refl
  ]
  | inr e ↦ rw e refl
]

-- After the marks of an assignment a key is used when it was, or when it is one of them.
pub is_used-add_all :
    (o : Owner) (k : TimeSlot) (os : List Owner) (l : TimeSlot) (used : List Use)
    → is_used o k (add_all os l used) ≡ ((is_among o os && same_key l k) || is_used o k used)
is_used-add_all o k [] l used = refl
is_used-add_all o k (p ∷ ps) l used =
    is_used-add_all o k ps l (add p l used)
    ∙ ap (λ b. (is_among o ps && same_key l k) || b) (is_used-add o p k l used)
    ∙ regroup (same_owner p o) (is_among o ps) (same_key l k) (is_used o k used)

-- The marks of an assignment, whatever they were made on.
abbrev is_mark : List Owner → TimeSlot → Use → Bool
is_mark os k u = is_among u.owner os && same_key u.slot k

same_owner_comm : (a b : Owner) → same_owner a b ≡ same_owner b a
same_owner_comm none none = refl
same_owner_comm none (some b) = refl
same_owner_comm (some a) none = refl
same_owner_comm (some a) (some b) = ground arith

delete_twice :
    (o : Owner) (os : List Owner) (k : TimeSlot) (used : List Use)
    → delete_where (is_mark os k) (delete o k used) ≡ delete_where (is_mark (o ∷ os) k) used
delete_twice o os k [] = refl
delete_twice o os k (u ∷ us) =
    rw (same_owner_comm u.owner o) (elim (Bool-cases (same_owner o u.owner)) [
      | inl e ↦ elim (Bool-cases (same_key u.slot k)) [
        | inl f ↦ rw (e, f) (delete_twice o os k us)
        | inr f ↦ elim (Bool-cases (is_among u.owner os)) [
          | inl g ↦ rw (e, f, g, f) (ap (λ t. u ∷ t) (delete_twice o os k us))
          | inr g ↦ rw (e, f, g) (ap (λ t. u ∷ t) (delete_twice o os k us))
        ]
      ]
      | inr e ↦ elim (Bool-cases (is_mark os k u)) [
        | inl f ↦ rw (e, f) (delete_twice o os k us)
        | inr f ↦ rw (e, f) (ap (λ t. u ∷ t) (delete_twice o os k us))
      ]
    ])

delete_no_marks : (k : TimeSlot) (used : List Use) → delete_where (is_mark [] k) used ≡ used
delete_no_marks k [] = refl
delete_no_marks k (u ∷ us) = ap (λ t. u ∷ t) (delete_no_marks k us)

delete_all_where :
    (os : List Owner) (k : TimeSlot) (used : List Use)
    → delete_all os k used ≡ delete_where (is_mark os k) used
delete_all_where [] k used = sym (delete_no_marks k used)
delete_all_where (o ∷ os) k used =
    delete_all_where os k (delete o k used) ∙ delete_twice o os k used

delete_where-add :
    (os : List Owner) (k : TimeSlot) (o : Owner) (used : List Use)
    → is_among o os ≡ true
    → delete_where (is_mark os k) (add o k used) ≡ delete_where (is_mark os k) used
delete_where-add os k o used h = elim (Bool-cases (is_used o k used)) [
  | inl e ↦ rw e refl
  | inr e ↦ rw (e, h, same_key_refl k) refl
]

delete_where-add_all :
    (os : List Owner) (k : TimeSlot) (ps : List Owner) (used : List Use)
    → ((o : Owner) → In o ps → In o os)
    → delete_where (is_mark os k) (add_all ps k used) ≡ delete_where (is_mark os k) used
delete_where-add_all os k [] used h = refl
delete_where-add_all os k (p ∷ ps) used h =
    delete_where-add_all os k ps (add p k used) (λ o i. h o (inr i))
    ∙ delete_where-add os k p used (In-is_among p os (h p (inl refl)))

delete_where_none :
    (p : Use → Bool) (used : List Use) → any p used ≡ false → delete_where p used ≡ used
delete_where_none p [] h = refl
delete_where_none p (u ∷ us) h = elim (Bool-cases (p u)) [
  | inl e ↦ cc
  | inr e ↦ rw e (ap (λ t. u ∷ t) (delete_where_none p us (rw e at h)))
]

delete_all_none :
    (os : List Owner) (k : TimeSlot) (used : List Use)
    → ((o : Owner) → In o os → is_used o k used ≡ false)
    → delete_all os k used ≡ used
delete_all_none [] k used h = refl
delete_all_none (o ∷ os) k used h =
    ap (delete_all os k) (delete_where_none (is_use o k) used (h o (inl refl)))
    ∙ delete_all_none os k used (λ p i. h p (inr i))

-- Marks that were made where none was are taken back without a trace.
pub delete_all-add_all :
    (os : List Owner) (k : TimeSlot) (used : List Use)
    → ((o : Owner) → In o os → is_used o k used ≡ false)
    → delete_all os k (add_all os k used) ≡ used
delete_all-add_all os k used h =
    delete_all_where os k (add_all os k used)
    ∙ delete_where-add_all os k os used (λ o i. i)
    ∙ sym (delete_all_where os k used)
    ∙ delete_all_none os k used h
