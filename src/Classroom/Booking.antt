-- ===== src/Classroom/Booking.antt =====
-- No classroom is booked twice at one moment, after any sequence of calls of
-- src/services/reservationService.js.
use obs_system_backend_berka.Base.{
  ℕ, ◌≤◌, ◌≡◌, refl, inl, inr, Bool, true, false, ◌&&◌, map, if◌then◌else◌, some, List, [], ◌∷◌,
  arith, leb, ◌==◌, Bool-cases, Option-cases, find, any, All, committed,
}
use obs_system_backend_berka.Base.Keys.{Falls}
use obs_system_backend_berka.Classroom.{
  Status, approved, rejected, User, Reservation, Rooms, Call, create, approve, reject, new_row,
  is_active, is_pending, step, run, is_conflict, create_reservation, decide_row,
  approve_reservation, reject_reservation,
}

-- Two rows hold one classroom at one moment of one day.
abbrev pub clash : Reservation → Reservation → Bool
clash r s =
    is_active r.status
    && (is_active s.status
        && ((r.classroom_id == s.classroom_id)
            && ((r.date == s.date)
                && (leb r.start_time s.end_time && leb s.start_time r.end_time))))

-- No row clashes with a row behind it, and no row ends before it starts.
abbrev pub IsFree : List Reservation → Type 0
IsFree [] = Unit {0}
IsFree (r ∷ rs) = (r.start_time ≤ r.end_time) × All (λ s. clash r s ≡ false) rs × IsFree rs

-- A request that the availability query lets through clashes with no row.
request-free :
    (q : Reservation) (rs : List Reservation)
    → q.start_time ≤ q.end_time
    → IsFree rs
    → any (is_conflict q.classroom_id q.date q.start_time q.end_time) rs ≡ false
    → All (λ s. clash q s ≡ false) rs
unfolding is_conflict
request-free q [] span free none_found = tt
request-free q (r ∷ rs) span free none_found =
    (ground arith, request-free q rs span free.2 (ground arith))

-- Ids fall along the table and stay below `n`.
abbrev pub Below : ℕ → List Reservation → Type 0
Below = Falls (λ (r : Reservation). r.id)

create_reservation-Below :
    (user classroom date start end : ℕ) (s : Rooms)
    → Below s.next_id s.reservations
    → let s' = committed s (create_reservation user classroom date start end s) in
      Below s'.next_id s'.reservations
unfolding create_reservation
create_reservation-Below user classroom date start end s b =
    elim (Bool-cases (any (is_conflict classroom date start end) s.reservations)) [
      | inl busy ↦ rw (busy, create_reservation) b
      | inr idle ↦
          rw (idle, create_reservation)
            (elim (Option-cases (find (λ (u : User). u.id == user) s.users)) [
              | inl e ↦ rw e b
              | inr (u, e) ↦ rw e (omega arith, b)
            ])
    ]

pub create_reservation-IsFree :
    (user classroom date start end : ℕ) (s : Rooms)
    → start ≤ end
    → IsFree s.reservations
    → IsFree (committed s (create_reservation user classroom date start end s)).reservations
unfolding create_reservation
create_reservation-IsFree user classroom date start end s span free =
    elim (Bool-cases (any (is_conflict classroom date start end) s.reservations)) [
      | inl busy ↦ rw (busy, create_reservation) free
      | inr idle ↦
          rw (idle, create_reservation)
            (elim (Option-cases (find (λ (u : User). u.id == user) s.users)) [
              | inl e ↦ rw e free
              | inr (u, e) ↦ rw e (
                span,
                request-free (new_row s.next_id u classroom date start end) s.reservations span free
                    idle,
                free,
              )
            ])
    ]

-- The row that `findByPk` found is the only one with its id.
abbrev pub ActiveAt : ℕ → Reservation → Type 0
ActiveAt id r = (r.id == id) ≡ true → is_active r.status ≡ true

above-ActiveAt : (id n : ℕ) (rs : List Reservation) → Below n rs → n ≤ id → All (ActiveAt id) rs
above-ActiveAt id n [] b le = tt
above-ActiveAt id n (r ∷ rs) b le = (λ h. ground arith, above-ActiveAt id r.id rs b.1 (omega arith))

pub found-ActiveAt :
    (id n : ℕ) (rs : List Reservation) {r : Reservation}
    → Below n rs
    → find (λ (q : Reservation). q.id == id) rs ≡ some r
    → is_active r.status ≡ true
    → All (ActiveAt id) rs
found-ActiveAt id n [] b e a = tt
found-ActiveAt id n (q ∷ rs) {r} b e a = elim (Bool-cases (q.id == id)) [
  | inl hit ↦ (λ h. ground arith, above-ActiveAt id q.id rs b.1 (ground arith))
  | inr miss ↦ (λ h. ground arith, found-ActiveAt id q.id rs {r = r} b.1 (rw miss at e) a)
]

module _ (id : ℕ) (status : Status) (by : ℕ) where
  decided : Reservation → Reservation
  decided r = if r.id == id then record r { status = status; approved_by = some by } else r

  -- A decision keeps the span, the room and the day of a row, and activates no row.
  clash-decided :
      (r s : Reservation)
      → ActiveAt id r
      → ActiveAt id s
      → clash r s ≡ false
      → clash (decided r) (decided s) ≡ false
  unfolding decided
  clash-decided r s ar as_ h = ground arith

  clashes-decided :
      (r : Reservation) (rs : List Reservation)
      → ActiveAt id r
      → All (ActiveAt id) rs
      → All (λ s. clash r s ≡ false) rs
      → All (λ s. clash (decided r) s ≡ false) (map decided rs)
  clashes-decided r [] a as_ h = tt
  clashes-decided r (s ∷ rs) a as_ h =
      (clash-decided r s a as_.0 h.0, clashes-decided r rs a as_.1 h.1)

  map-decided-IsFree :
      (rs : List Reservation) → All (ActiveAt id) rs → IsFree rs → IsFree (map decided rs)
  unfolding decided
  map-decided-IsFree [] a f = tt
  map-decided-IsFree (r ∷ rs) a f =
      (ground arith, clashes-decided r rs a.0 a.1 f.1, map-decided-IsFree rs a.1 f.2)

  decide_row-map : (rs : List Reservation) → decide_row id status by rs ≡ map decided rs
  unfolding decide_row decided
  decide_row-map [] = refl
  decide_row-map (r ∷ rs) = rw (decide_row-map rs)

-- The invariant of the table: nothing is booked twice, and ids are fresh.
pub record IsSound (s : Rooms) : Type 0 where
  pub free : IsFree s.reservations
  pub ids_fall : Below s.next_id s.reservations

decide_row-Below :
    (id n : ℕ) (status : Status) (by : ℕ) (rs : List Reservation)
    → Below n rs
    → Below n (decide_row id status by rs)
unfolding decide_row
decide_row-Below id n status by [] b = tt
decide_row-Below id n status by (r ∷ rs) b =
    ground (arith, decide_row-Below id r.id status by rs b.1)

decide_row-IsSound :
    (id : ℕ) (status : Status) (by : ℕ) (s : Rooms) {r : Reservation}
    → IsSound s
    → find (λ (q : Reservation). q.id == id) s.reservations ≡ some r
    → is_pending r.status ≡ true
    → IsSound (record s { reservations = decide_row id status by s.reservations })
decide_row-IsSound id status by s {r} v e p =
    let active : is_active r.status ≡ true = ground arith in
    record {
      free = rw (decide_row-map id status by s.reservations) (
          map-decided-IsFree id status by s.reservations
            (found-ActiveAt id s.next_id s.reservations v.ids_fall e active) v.free);
      ids_fall = decide_row-Below id s.next_id status by s.reservations v.ids_fall;
    }

create_reservation-IsSound :
    (user classroom date start end : ℕ) (s : Rooms)
    → start ≤ end
    → IsSound s
    → IsSound (committed s (create_reservation user classroom date start end s))
create_reservation-IsSound user classroom date start end s span v = record {
  free = create_reservation-IsFree user classroom date start end s span v.free;
  ids_fall = create_reservation-Below user classroom date start end s v.ids_fall;
}

approve_reservation-IsSound :
    (id by : ℕ) (s : Rooms) → IsSound s → IsSound (committed s (approve_reservation id by s))
unfolding approve_reservation
approve_reservation-IsSound id by s v =
    elim (Option-cases (find (λ (r : Reservation). r.id == id) s.reservations)) [
      | inl e ↦ rw (e, approve_reservation) v
      | inr (r, e) ↦
          rw (e, approve_reservation) (ground (arith, decide_row-IsSound id approved by s v e))
    ]

reject_reservation-IsSound :
    (id by : ℕ) (s : Rooms) → IsSound s → IsSound (committed s (reject_reservation id by s))
unfolding reject_reservation
reject_reservation-IsSound id by s v =
    elim (Option-cases (find (λ (r : Reservation). r.id == id) s.reservations)) [
      | inl e ↦ rw (e, reject_reservation) v
      | inr (r, e) ↦
          rw (e, reject_reservation) (ground (arith, decide_row-IsSound id rejected by s v e))
    ]

-- The requests among the calls do not end before they start.
abbrev pub IsTimely : Call → Type 0
IsTimely (create user classroom date start end) = start ≤ end
IsTimely (approve id by) = Unit {0}
IsTimely (reject id by) = Unit {0}

step-IsSound : (c : Call) (s : Rooms) → IsTimely c → IsSound s → IsSound (step c s)
unfolding step
step-IsSound (create user classroom date start end) s t v =
    create_reservation-IsSound user classroom date start end s t v
step-IsSound (approve id by) s t v = approve_reservation-IsSound id by s v
step-IsSound (reject id by) s t v = reject_reservation-IsSound id by s v

-- After any sequence of calls whose requests do not end before they start, no two pending or
-- approved reservations of one classroom and day have a moment in common.
pub run-IsSound : (cs : List Call) (s : Rooms) → All IsTimely cs → IsSound s → IsSound (run cs s)
unfolding run
run-IsSound [] s t v = v
run-IsSound (c ∷ cs) s t v = run-IsSound cs (step c s) t.1 (step-IsSound c s t.0 v)
