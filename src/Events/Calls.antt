-- ===== src/Events/Calls.antt =====
-- Sequences of the calls of src/services/eventService.js.
use obs_system_backend_berka.Base.{
  ℕ, ◌-◌, ◌≤◌, ◌≡◌, refl, inl, inr, true, false, some, List, [], ◌∷◌, ◌==◌, Bool-cases,
  Option-cases, find, find_holds, In, All-mono, arith, subst, update_where, committed,
}
use obs_system_backend_berka.Base.Keys.{
  total-saved, total-removed, saved-Falls, removed-Falls, find-In,
}
use obs_system_backend_berka.Events.{
  Event, Registration, Calendar, is_registered, change_registered, promote_next_waitlist, is_own,
  destroyed, cancel_registration, has_code, check_in,
}
use obs_system_backend_berka.Events.Places.{
  place, wait, waits, HasRoom, IsBusy, freed-IsSteady, waiting-IsSteady,
}
use obs_system_backend_berka.Events.Invariant.{
  id_of, IsRunning, IsSteady-moved, register_for_event-IsRunning,
}
use obs_system_backend_berka.Events.{register_for_event}
use obs_system_backend_berka.Events.Cancel.{promote_next_waitlist-IsRunning}

fewer-IsBusy :
    (rs ts : List Registration) (y : Event)
    → waits y.id ts ≤ waits y.id rs
    → IsBusy 0 rs y
    → IsBusy 0 ts y
fewer-IsBusy rs ts y le (inl z) = inl (omega arith)
fewer-IsBusy rs ts y le (inr full) = inr full

-- A row that holds no place leaves its event's waitlist.
waiting_left-IsRunning :
    (r : Registration) (s : Calendar)
    → In r s.registrations
    → is_registered r.status ≡ false
    → IsRunning s
    → IsRunning (destroyed r.id s)
waiting_left-IsRunning r s i idle v =
    let of_place =
      λ (x : ℕ). total-removed id_of (place x) s.next_id s.registrations r v.ids_fall i in
    let of_wait =
      λ (x : ℕ). total-removed id_of (wait x) s.next_id s.registrations r v.ids_fall i in
    record {
      steady = IsSteady-moved r.event_id 0 0 _ _ (
          waiting-IsSteady r.event_id s.events s.registrations _ (λ x. ground (arith, of_place x))
            (λ x other. ground (arith, of_wait x))
            (All-mono HasRoom _ s.events
              (λ y _ h same. fewer-IsBusy s.registrations _ y (omega (arith, of_wait y.id)) h)
              v.steady.bounded)
            (IsSteady-moved 0 r.event_id 0 s.events s.registrations v.steady));
      ids_fall = removed-Falls id_of r.id s.next_id s.registrations v.ids_fall;
      books = v.books;
    }

-- A row that leaves its place, which is offered to the waitlist.
place_left-IsRunning :
    (r : Registration) (s : Calendar)
    → In r s.registrations
    → is_registered r.status ≡ true
    → IsRunning s
    → IsRunning (
        promote_next_waitlist r.event_id (record (destroyed r.id s) {
          events = change_registered r.event_id (λ n. n - 1) s.events;
        }))
place_left-IsRunning r s i held v =
    let of_place =
      λ (x : ℕ). total-removed id_of (place x) s.next_id s.registrations r v.ids_fall i in
    let of_wait =
      λ (x : ℕ). total-removed id_of (wait x) s.next_id s.registrations r v.ids_fall i in
    promote_next_waitlist-IsRunning r.event_id
      (record (destroyed r.id s) { events = change_registered r.event_id (λ n. n - 1) s.events })
      (freed-IsSteady r.event_id s.events s.registrations _
        (λ x other. (ground (arith, of_place x), ground (arith, of_wait x)))
        (ground (arith, of_place r.event_id)) (ground (arith, of_wait r.event_id))
        (IsSteady-moved 0 r.event_id 0 s.events s.registrations v.steady))
      (removed-Falls id_of r.id s.next_id s.registrations v.ids_fall) v.books

cancel_registration-IsRunning :
    (event id user : ℕ) (s : Calendar)
    → IsRunning s
    → IsRunning (committed s (cancel_registration event id user s))
unfolding cancel_registration
cancel_registration-IsRunning event id user s v =
    elim (Option-cases (find (is_own event id user) s.registrations)) [
      | inl f ↦ rw (f, cancel_registration) v
      | inr (r, f) ↦
          let i = find-In (is_own event id user) s.registrations f in
          let own : is_own event id user r ≡ true =
            find_holds (is_own event id user) s.registrations f in
          let here : r.event_id ≡ event = ground (arith, own) in
          elim (Bool-cases (is_registered r.status)) [
            | inl held ↦
                let done =
                  subst
                    (λ (k : ℕ). IsRunning (
                      promote_next_waitlist k (record (destroyed r.id s) {
                        events = change_registered k (λ n. n - 1) s.events;
                      })))
                    here (place_left-IsRunning r s i held v) in
                rw (f, cancel_registration) (rw held (ground (arith, done)))
            | inr idle ↦
                rw (f, cancel_registration)
                  (rw idle (ground (arith, waiting_left-IsRunning r s i idle v)))
          ]
    ]

checked_in-IsRunning :
    (now : ℕ) (r : Registration) (s : Calendar)
    → In r s.registrations
    → IsRunning s
    → IsRunning (record s {
      registrations =
          update_where
            (λ (q : Registration). q.id == r.id)
            (λ q. record q { checked_in = true; checked_in_at = some now })
            s.registrations;
    })
checked_in-IsRunning now r s i v =
    let g = λ (q : Registration). record q { checked_in = true; checked_in_at = some now } in
    let kept = λ (q : Registration). refl in
    let of_place =
      λ (x : ℕ). total-saved id_of g kept (place x) s.next_id s.registrations r v.ids_fall i in
    let of_wait =
      λ (x : ℕ). total-saved id_of g kept (wait x) s.next_id s.registrations r v.ids_fall i in
    record {
      steady =
          waiting-IsSteady 0 s.events s.registrations _ (λ x. omega (arith, of_place x))
            (λ x other. omega (arith, of_wait x))
            (All-mono HasRoom _ s.events
              (λ y _ h same. fewer-IsBusy s.registrations _ y (omega (arith, of_wait y.id)) h)
              v.steady.bounded)
            v.steady;
      ids_fall = saved-Falls id_of g kept r.id s.next_id s.registrations v.ids_fall;
      books = v.books;
    }

check_in-IsRunning :
    (now today event id qr : ℕ) (s : Calendar)
    → IsRunning s
    → IsRunning (committed s (check_in now today event id qr s))
unfolding check_in
check_in-IsRunning now today event id qr s v =
    elim (Option-cases (find (has_code event id qr) s.registrations)) [
      | inl f ↦ rw (f, check_in) v
      | inr (r, f) ↦
          let i = find-In (has_code event id qr) s.registrations f in
          rw (f, check_in) (ground (arith, checked_in-IsRunning now r s i v))
    ]

-- A call, with the time and the generated code that it uses.
pub data Call : Type 0 where
  register : ℕ → ℕ → ℕ → ℕ → Call
  cancel : ℕ → ℕ → ℕ → Call
  enter : ℕ → ℕ → ℕ → ℕ → ℕ → Call

unfoldable pub step : Call → Calendar → Calendar
step (register now qr event user) s = committed s (register_for_event now qr event user s)
step (cancel event id user) s = committed s (cancel_registration event id user s)
step (enter now today event id qr) s = committed s (check_in now today event id qr s)

unfoldable pub run : List Call → Calendar → Calendar
run [] s = s
run (c ∷ cs) s = run cs (step c s)

step-IsRunning : (c : Call) (s : Calendar) → IsRunning s → IsRunning (step c s)
unfolding step
step-IsRunning (register now qr event user) s v = register_for_event-IsRunning now qr event user s v
step-IsRunning (cancel event id user) s v = cancel_registration-IsRunning event id user s v
step-IsRunning (enter now today event id qr) s v = check_in-IsRunning now today event id qr s v

-- After any sequence of registrations, cancellations and check-ins, each event's `registered_count` is
-- the number of its registrations that hold a place, no limited event has more than its capacity,
-- nobody waits for an event with a free place, and each wallet's balance is the sum of its
-- booked transactions, if this held before.
pub run-IsRunning : (cs : List Call) (s : Calendar) → IsRunning s → IsRunning (run cs s)
unfolding run
run-IsRunning [] s v = v
run-IsRunning (c ∷ cs) s v = run-IsRunning cs (step c s) (step-IsRunning c s v)
