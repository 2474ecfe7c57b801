-- ===== src/Classroom/Decision.antt =====
-- The life of a reservation request in src/services/reservationService.js: decided once.
use obs_system_backend_berka.Base.{
  ℕ, ◌≤◌, ◌≡◌, some, List, [], ◌∷◌, arith, ◌==◌, find, any, true, Bool, ok, err,
}
use obs_system_backend_berka.Classroom.{
  Status, approved, rejected, Reservation, Rooms, not_pending, room_busy, is_active, is_conflict,
  decide_row, create_reservation, approve_reservation, reject_reservation,
}

find-decide_row :
    (id : ℕ) (status : Status) (by : ℕ) (rs : List Reservation) {r : Reservation}
    → find (λ (q : Reservation). q.id == id) rs ≡ some r
    → find (λ (q : Reservation). q.id == id) (decide_row id status by rs)
      ≡ some (record r { status = status; approved_by = some by })
unfolding decide_row
find-decide_row id status by [] e = cc
find-decide_row id status by (q ∷ rs) {r} e =
    ground (arith, find-decide_row id status by rs {r = r})

-- A reservation that was approved is on file as approved by that admin, and every later decision on
-- it is refused.
pub approve_reservation_final :
    (id by later : ℕ) (s s' : Rooms) (r : Reservation)
    → find (λ (q : Reservation). q.id == id) s.reservations ≡ some r
    → approve_reservation id by s ≡ ok (tt, s')
    → (find (λ (q : Reservation). q.id == id) s'.reservations
        ≡ some (record r { status = approved; approved_by = some by }))
      × (approve_reservation id later s' ≡ err not_pending)
      × (reject_reservation id later s' ≡ err not_pending)
unfolding approve_reservation reject_reservation
approve_reservation_final id by later s s' r e run =
    let found = find-decide_row id approved by s.reservations e in ground arith

-- A reservation that was rejected is on file as rejected by that admin, and every later decision on
-- it is refused.
pub reject_reservation_final :
    (id by later : ℕ) (s s' : Rooms) (r : Reservation)
    → find (λ (q : Reservation). q.id == id) s.reservations ≡ some r
    → reject_reservation id by s ≡ ok (tt, s')
    → (find (λ (q : Reservation). q.id == id) s'.reservations
        ≡ some (record r { status = rejected; approved_by = some by }))
      × (approve_reservation id later s' ≡ err not_pending)
      × (reject_reservation id later s' ≡ err not_pending)
unfolding approve_reservation reject_reservation
reject_reservation_final id by later s s' r e run =
    let found = find-decide_row id rejected by s.reservations e in ground arith

any-find :
    (p q : Reservation → Bool) (rs : List Reservation) {r : Reservation}
    → find q rs ≡ some r
    → p r ≡ true
    → any p rs ≡ true
any-find p q [] e h = cc
any-find p q (x ∷ rs) {r} e h = ground (arith, any-find p q rs {r = r})

-- A request that begins at the moment at which an active reservation of the room ends is refused.
pub create_reservation_adjacent :
    (user classroom date start end : ℕ) (s : Rooms) (q : Reservation → Bool) (r : Reservation)
    → find q s.reservations ≡ some r
    → r.classroom_id ≡ classroom
    → r.date ≡ date
    → is_active r.status ≡ true
    → r.end_time ≡ start
    → start ≤ end
    → create_reservation user classroom date start end s ≡ err room_busy
unfolding create_reservation is_conflict
create_reservation_adjacent user classroom date start end s q r e room day active meets span =
    let hit : is_conflict classroom date start end r ≡ true = ground arith in
    ground (arith, any-find (is_conflict classroom date start end) q s.reservations e hit)
