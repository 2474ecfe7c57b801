-- ===== src/Classroom/Tests.antt =====
-- A day with two reservations, and the properties of the classroom reservations at it.
use obs_system_backend_berka.Base.{◌≡◌, refl, none, some, List, [], ◌∷◌, arith, ◌==◌, err}
use obs_system_backend_berka.Classroom.{
  student, faculty, pending, approved, rejected, Reservation, Rooms, Call, create, approve, reject,
  room_busy, is_conflict, create_reservation, approve_reservation, reject_reservation, run, step,
}
use obs_system_backend_berka.Classroom.Booking.{IsSound, run-IsSound}
use obs_system_backend_berka.Classroom.Decision.{create_reservation_adjacent}

abbrev morning : Reservation
morning = record {
  id = 1;
  classroom_id = 40;
  user_id = 7;
  date = 100;
  start_time = 540;
  end_time = 600;
  status = pending;
  approved_by = none;
}

abbrev rooms : Rooms
rooms = record {
  users = record { id = 7; role = student } ∷ record { id = 8; role = faculty } ∷ [];
  reservations = morning ∷ [];
  next_id = 2;
}

abbrev approved_rooms : Rooms
approved_rooms = record rooms {
  reservations = record morning { status = approved; approved_by = some 9 } ∷ [];
}

abbrev rejected_rooms : Rooms
rejected_rooms = record rooms {
  reservations = record morning { status = rejected; approved_by = some 9 } ∷ [];
}

abbrev calls : List Call
calls = create 8 40 100 610 660 ∷ approve 1 9 ∷ reject 2 9 ∷ create 7 40 100 600 605 ∷ []

rooms-IsSound : IsSound rooms
rooms-IsSound = record { free = (omega arith, tt, tt); ids_fall = omega arith }

run-calls : (run calls rooms).next_id ≡ 3
unfolding run step create_reservation is_conflict approve_reservation reject_reservation
run-calls = refl

run-IsSound_example : IsSound (run calls rooms)
run-IsSound_example = run-IsSound calls rooms (omega arith) rooms-IsSound

create_reservation_adjacent_example : create_reservation 8 40 100 600 660 rooms ≡ err room_busy
create_reservation_adjacent_example =
    create_reservation_adjacent 8 40 100 600 660 rooms (λ r. r.id == 1) morning refl refl refl refl
      refl (omega arith)
