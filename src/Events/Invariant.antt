-- ===== src/Events/Invariant.antt =====
-- Each operation of src/services/eventService.js keeps the counts, the places and the books right.
use obs_system_backend_berka.Base.{
  ℕ, ◌+◌, ◌≤◌, ◌≡◌, refl, inl, inr, true, false, some, List, [], ◌∷◌, ◌==◌, if◌then◌else◌,
  Bool-cases, Option-cases, find, All, All-mono, All-zip, arith, subst, update_where, ok, committed,
  Result-cases, ok_inj,
}
use obs_system_backend_berka.Base.Keys.{Falls, IsOnly, found-IsOnly, total-saved, saved-Falls}
use obs_system_backend_berka.Wallet.{Bank}
use obs_system_backend_berka.Wallet.Invariant.{IsConsistent}
use obs_system_backend_berka.Wallet.Charge.{charge-IsConsistent}
use obs_system_backend_berka.Events.{
  Event, Registration, Calendar, registered, waitlisted, is_limited, limit, is_full, is_waiting,
  change_registered, is_charged, pay, new_registration, waiting_on, placed_on, register_for_event,
}
use obs_system_backend_berka.Events.Waitlist.{IsNext}
use obs_system_backend_berka.Events.Places.{
  place, wait, waits, IsBusy, IsSteady, placed-IsSteady, waiting-IsSteady,
}

abbrev pub id_of : Registration → ℕ
id_of r = r.id

pub record IsRunning (s : Calendar) : Type 0 where
  pub steady : IsSteady 0 0 s.events s.registrations
  pub ids_fall : Falls id_of s.next_id s.registrations
  pub books : IsConsistent s.bank

-- With no slack it does not matter at which event.
pub IsSteady-moved :
    (j k d : ℕ) (es : List Event) (rs : List Registration) → IsSteady j 0 es rs → IsSteady k d es rs
IsSteady-moved j k d es rs v = record {
  counted = v.counted;
  bounded = v.bounded;
  busy =
      All-mono (λ (y : Event). IsBusy (if y.id == j then 0 else 0) rs y)
        (λ y. IsBusy (if y.id == k then d else 0) rs y) es
        (λ y h. elim h [ inl z ↦ inl z | inr (l, le) ↦ inr (l, ground arith) ]) v.busy;
  distinct = v.distinct;
}

pay-IsConsistent :
    (e : Event) (user : ℕ) (b : Bank) {t : Bank}
    → IsConsistent b
    → pay e user b ≡ ok t
    → IsConsistent t
unfolding pay
pay-IsConsistent e user b {t} c h = elim (Bool-cases (is_charged e)) [
  | inl paid ↦ charge-IsConsistent _ _ user e.price _ e.id b c (rw paid at h)
  | inr free ↦ subst IsConsistent (ok_inj b t (rw free at h)) c
]

placed_on-IsRunning :
    (event user now qr : ℕ) (bank : Bank) (s : Calendar) {e : Event}
    → IsRunning s
    → IsConsistent bank
    → find (λ (y : Event). y.id == event) s.events ≡ some e
    → is_full e ≡ false
    → IsRunning (placed_on (new_registration s.next_id event user now qr registered) bank s)
placed_on-IsRunning event user now qr bank s {e} v c f room =
    let r : Registration = new_registration s.next_id event user now qr registered in
    record {
      steady = IsSteady-moved event 0 0 _ _ (
          placed-IsSteady event s.events s.registrations (r ∷ s.registrations) 0
            (λ x other. (ground arith, ground arith)) (ground arith) (λ z. ground (arith, z)) f room
            (IsSteady-moved 0 event 1 s.events s.registrations v.steady));
      ids_fall = (omega arith, v.ids_fall);
      books = c;
    }

waiting_on-IsRunning :
    (event user now qr : ℕ) (bank : Bank) (s : Calendar) {e : Event}
    → IsRunning s
    → IsConsistent bank
    → find (λ (y : Event). y.id == event) s.events ≡ some e
    → is_full e ≡ true
    → IsRunning (waiting_on (new_registration s.next_id event user now qr waitlisted) bank s)
waiting_on-IsRunning event user now qr bank s {e} v c f full =
    let r : Registration = new_registration s.next_id event user now qr waitlisted in
    record {
      steady = IsSteady-moved event 0 0 _ _ (
          waiting-IsSteady event s.events s.registrations (r ∷ s.registrations) (λ x. ground arith)
            (λ x other. ground arith)
            (All-mono (IsOnly (λ (y : Event). y.id) event e) _ s.events
              (λ y only _ same. inr (busy y (only same)))
              (found-IsOnly (λ (y : Event). y.id) event s.events v.steady.distinct f))
            (IsSteady-moved 0 event 0 s.events s.registrations v.steady));
      ids_fall = (omega arith, v.ids_fall);
      books = c;
    }
  where
    busy :
        (y : Event)
        → y ≡ e
        → (is_limited y.capacity ≡ true) × limit y.capacity ≤ y.registered_count + 0
    busy y own = rw own (ground (arith, full))

pub register_for_event-IsRunning :
    (now qr event user : ℕ) (s : Calendar)
    → IsRunning s
    → IsRunning (committed s (register_for_event now qr event user s))
unfolding register_for_event
register_for_event-IsRunning now qr event user s v =
    elim (Option-cases (find (λ (y : Event). y.id == event) s.events)) [
      | inl f ↦ rw (f, register_for_event) v
      | inr (e, f) ↦ elim (Result-cases (pay e user s.bank)) [
        | inl (x, p) ↦ rw (f, register_for_event) (rw p (ground arith))
        | inr (t, p) ↦ elim (Bool-cases (is_full e)) [
          | inl full ↦
              rw (f, register_for_event)
                (rw p (
                  ground (
                    arith,
                    full,
                    waiting_on-IsRunning event user now qr t s v
                        (pay-IsConsistent e user s.bank v.books p) f full,
                  )))
          | inr room ↦
              rw (f, register_for_event)
                (rw p (
                  ground (
                    arith,
                    room,
                    placed_on-IsRunning event user now qr t s v
                        (pay-IsConsistent e user s.bank v.books p) f room,
                  )))
        ]
      ]
    ]

-- A promotion: the row that waited takes a place.
pub promoted-IsRunning :
    (event : ℕ) (s : Calendar) {e : Event} {r : Registration}
    → IsSteady event 1 s.events s.registrations
    → Falls id_of s.next_id s.registrations
    → IsConsistent s.bank
    → find (λ (y : Event). y.id == event) s.events ≡ some e
    → is_full e ≡ false
    → IsNext event s.registrations r
    → IsRunning (record s {
      events = change_registered event (λ n. n + 1) s.events;
      registrations =
          update_where
            (λ (q : Registration). q.id == r.id)
            (λ q. record q { status = registered })
            s.registrations;
    })
promoted-IsRunning event s {e} {r} v b c f room next =
    let g = λ (q : Registration). record q { status = registered } in
    let kept = λ (q : Registration). refl in
    let of_place =
      λ (x : ℕ). total-saved id_of g kept (place x) s.next_id s.registrations r b next.stands in
    let of_wait =
      λ (x : ℕ). total-saved id_of g kept (wait x) s.next_id s.registrations r b next.stands in
    record {
      steady = IsSteady-moved event 0 0 _ _ (
          placed-IsSteady event s.events s.registrations _ 0
            (λ x other.
              (ground (arith, of_place x, next.waits), ground (arith, of_wait x, next.waits)))
            (ground (arith, of_place event, next.waits))
            (λ z. ground (arith, of_wait event, next.waits)) f room v);
      ids_fall = saved-Falls id_of g kept r.id s.next_id s.registrations b;
      books = c;
    }

pub none_waiting :
    (event : ℕ) (rs : List Registration)
    → All (λ (q : Registration). is_waiting event q ≡ false) rs
    → waits event rs ≡ 0
none_waiting event [] h = refl
none_waiting event (q ∷ rs) h = ground (arith, h.0, none_waiting event rs h.1)

-- Nobody to promote, or no place: the event is as busy as it must be.
pub settled-IsSteady :
    (k : ℕ) (es : List Event) (rs : List Registration)
    → IsSteady k 1 es rs
    → All (λ (y : Event). (y.id == k) ≡ true → IsBusy 0 rs y) es
    → IsSteady 0 0 es rs
settled-IsSteady k es rs v own = record {
  counted = v.counted;
  bounded = v.bounded;
  busy =
      All-mono
        (λ (y : Event).
          IsBusy (if y.id == k then 1 else 0) rs y × ((y.id == k) ≡ true → IsBusy 0 rs y))
        (λ y. IsBusy (if y.id == 0 then 0 else 0) rs y) es
        (λ y h. elim (Bool-cases (y.id == k)) [
          | inl same ↦ zero_slack y (h.1 same)
          | inr diff ↦ zero_slack y (rw diff at h.0)
        ])
        (All-zip _ _ es v.busy own);
  distinct = v.distinct;
}
  where
    zero_slack : (y : Event) → IsBusy 0 rs y → IsBusy (if y.id == 0 then 0 else 0) rs y
    zero_slack y h = elim h [ inl z ↦ inl z | inr (l, le) ↦ inr (l, ground arith) ]
