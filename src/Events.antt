-- ===== src/Events.antt =====
-- src/services/eventService.js: registrations, the waitlist and check-in, over the tables of
-- src/models/Event.js and src/models/EventRegistration.js and the wallets. Instants are milliseconds
-- and dates are day numbers; a price that is missing is 0.
pub mod Waitlist
pub mod Places
pub mod Invariant
pub mod Cancel
pub mod Calls
pub mod Fees
mod Tests
use obs_system_backend_berka.Base.{
  ℕ, zero, suc, ◌+◌, ◌-◌, Bool, true, false, not, ◌&&◌, ◌||◌, Option, none, some, List, [], ◌∷◌,
  ltb, leb, ◌==◌, if◌then◌else◌, Result, ok, err, ◌>>=◌, ◌>>◌, throw_if, or_throw, find, any,
  update_where, delete_where,
}
use obs_system_backend_berka.Base.Int.{ℤ, pos, ltb_ℤ}
use obs_system_backend_berka.Wallet.{Bank, event_registration}
use obs_system_backend_berka.Wallet.Charge.{charge}

pub data EventStatus : Type 0 where
  draft published cancelled : EventStatus

pub data Status : Type 0 where
  registered waitlisted registration_cancelled : Status

pub record Event : Type 0 where
  pub id : ℕ
  pub date : ℕ
  pub capacity : Option ℕ
  pub registered_count : ℕ
  pub registration_deadline : Option ℕ
  pub is_paid : Bool
  pub price : ℤ
  pub status : EventStatus

pub record Registration : Type 0 where
  pub id : ℕ
  pub event_id : ℕ
  pub user_id : ℕ
  pub registration_date : ℕ
  pub qr_code : ℕ
  pub checked_in : Bool
  pub checked_in_at : Option ℕ
  pub status : Status

pub record Calendar : Type 0 where
  pub events : List Event
  pub registrations : List Registration
  pub next_id : ℕ
  pub bank : Bank

pub data Error : Type 0 where
  event_not_found not_published deadline_over already_registered wallet_inactive insufficient :
      Error
  registration_not_found already_checked_in not_today type_error : Error

abbrev pub is_published : EventStatus → Bool
is_published published = true
is_published _ = false

abbrev pub is_registered : Status → Bool
is_registered registered = true
is_registered _ = false

abbrev pub is_waitlisted : Status → Bool
is_waitlisted waitlisted = true
is_waitlisted _ = false

-- `event.registration_deadline && new Date(event.registration_deadline) < new Date()`
abbrev pub is_over : Option ℕ → ℕ → Bool
is_over none now = false
is_over (some deadline) now = ltb deadline now

-- A capacity of null or 0 sets no limit.
abbrev pub is_limited : Option ℕ → Bool
is_limited none = false
is_limited (some zero) = false
is_limited (some (suc n)) = true

abbrev pub limit : Option ℕ → ℕ
limit none = 0
limit (some n) = n

-- `event.capacity && event.registered_count >= event.capacity`
abbrev pub is_full : Event → Bool
is_full e = is_limited e.capacity && leb (limit e.capacity) e.registered_count

-- The query for an open registration of the user.
abbrev pub is_open : ℕ → ℕ → Registration → Bool
is_open event user r =
    (r.event_id == event)
    && ((r.user_id == user) && (is_registered r.status || is_waitlisted r.status))

-- `EventRegistration.create`
abbrev pub new_registration : ℕ → ℕ → ℕ → ℕ → ℕ → Status → Registration
new_registration id event user now qr status = record {
  id = id;
  event_id = event;
  user_id = user;
  registration_date = now;
  qr_code = qr;
  checked_in = false;
  checked_in_at = none;
  status = status;
}

-- `Event.update({ registered_count })` of the event with an id
unfoldable pub change_registered : ℕ → (ℕ → ℕ) → List Event → List Event
change_registered id f =
    update_where (λ (e : Event). e.id == id)
      (λ e. record e { registered_count = f e.registered_count })

abbrev pub is_charged : Event → Bool
is_charged e = e.is_paid && ltb_ℤ (pos 0) e.price

-- The payment of a paid event.
unfoldable pub pay : Event → ℕ → Bank → Result Error Bank
unfolding charge
pay e user b =
    if is_charged e
    then charge wallet_inactive insufficient user e.price event_registration e.id b
    else ok b

-- The tables with a registration on the waitlist, or with one that takes a place.
abbrev pub waiting_on : Registration → Bank → Calendar → Calendar
waiting_on r bank s = record s {
  registrations = r ∷ s.registrations;
  next_id = s.next_id + 1;
  bank = bank;
}

abbrev pub placed_on : Registration → Bank → Calendar → Calendar
placed_on r bank s = record s {
  events = change_registered r.event_id (λ n. n + 1) s.events;
  registrations = r ∷ s.registrations;
  next_id = s.next_id + 1;
  bank = bank;
}

-- `registerForEvent`; `qr` is the generated code.
pub register_for_event : ℕ → ℕ → ℕ → ℕ → Calendar → Result Error (Registration × Calendar)
unfolding pay change_registered
register_for_event now qr event user s = do
  e ← or_throw (find (λ (e : Event). e.id == event) s.events) event_not_found
  throw_if (not (is_published e.status)) not_published
  throw_if (is_over e.registration_deadline now) deadline_over
  throw_if (any (is_open event user) s.registrations) already_registered
  bank ← pay e user s.bank
  let waiting : Registration = new_registration s.next_id event user now qr waitlisted
  let placed : Registration = new_registration s.next_id event user now qr registered
  ok (if is_full e then (waiting, waiting_on waiting bank s) else (placed, placed_on placed bank s))

abbrev pub is_waiting : ℕ → Registration → Bool
is_waiting event r = (r.event_id == event) && is_waitlisted r.status

abbrev pub earlier : Registration → Option Registration → Registration
earlier r none = r
earlier r (some q) = if ltb r.registration_date q.registration_date then r else q

-- `findOne` in the order of the registration dates; of equal dates the older row.
unfoldable pub first_waiting : ℕ → List Registration → Option Registration
first_waiting event [] = none
first_waiting event (r ∷ rs) =
    let rest = first_waiting event rs in if is_waiting event r then some (earlier r rest) else rest

-- `promoteNextWaitlist`
unfoldable pub promote_next_waitlist : ℕ → Calendar → Calendar
unfolding first_waiting change_registered
promote_next_waitlist event s = elim (find (λ (e : Event). e.id == event) s.events) [
  | none ↦ s
  | some e ↦ elim (first_waiting event s.registrations) [
    | none ↦ s
    | some r ↦
        let promoted : Calendar = record s {
          events = change_registered event (λ n. n + 1) s.events;
          registrations =
              update_where (λ (q : Registration). q.id == r.id)
                (λ q. record q { status = registered }) s.registrations;
        } in
        if not (is_limited e.capacity) || leb (limit e.capacity) e.registered_count
        then s
        else promoted
  ]
]

-- The query of `cancelRegistration`.
abbrev pub is_own : ℕ → ℕ → ℕ → Registration → Bool
is_own event id user r = (r.id == id) && ((r.event_id == event) && (r.user_id == user))

-- `registration.destroy()`
abbrev pub destroyed : ℕ → Calendar → Calendar
destroyed id s = record s {
  registrations = delete_where (λ (r : Registration). r.id == id) s.registrations;
}

-- `cancelRegistration`; the promotion is a transaction of its own, and does not throw.
pub cancel_registration : ℕ → ℕ → ℕ → Calendar → Result Error (Unit {0} × Calendar)
unfolding promote_next_waitlist change_registered
cancel_registration event id user s = do
  r ← or_throw (find (is_own event id user) s.registrations) registration_not_found
  throw_if r.checked_in already_checked_in
  let freed : Calendar = record (destroyed r.id s) {
    events = change_registered event (λ n. n - 1) s.events;
  }
  ok (tt, if is_registered r.status then promote_next_waitlist event freed else destroyed r.id s)

-- The query of `checkIn`.
abbrev pub has_code : ℕ → ℕ → ℕ → Registration → Bool
has_code event id qr r = (r.id == id) && ((r.event_id == event) && (r.qr_code == qr))

-- `checkIn`; a missing event is a TypeError.
pub check_in : ℕ → ℕ → ℕ → ℕ → ℕ → Calendar → Result Error (Unit {0} × Calendar)
check_in now today event id qr s = do
  r ← or_throw (find (has_code event id qr) s.registrations) registration_not_found
  throw_if r.checked_in already_checked_in
  e ← or_throw (find (λ (e : Event). e.id == event) s.events) type_error
  throw_if (not (e.date == today)) not_today
  ok (
    tt,
    record s {
      registrations =
          update_where (λ (q : Registration). q.id == r.id)
            (λ q. record q { checked_in = true; checked_in_at = some now }) s.registrations;
    },
  )
