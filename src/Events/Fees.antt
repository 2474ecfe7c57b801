-- ===== src/Events/Fees.antt =====
-- Who is promoted, and what a place on the waitlist costs, in src/services/eventService.js.
use obs_system_backend_berka.Base.{
  ℕ, ◌+◌, ◌<◌, ◌≡◌, ◌⊎◌, refl, ap, inl, inr, true, false, not, ◌||◌, some, List, ◌∷◌, leb, ◌==◌,
  Bool-cases, Option-cases, find, any, All, arith, subst, update_where, delete_where, Result, ok,
  err, ok_inj, committed,
}
use obs_system_backend_berka.Base.Keys.{Falls, removed_above, find-saved}
use obs_system_backend_berka.Wallet.{Bank, event_registration}
use obs_system_backend_berka.Wallet.Charge.{charge}
use obs_system_backend_berka.Events.{
  Error, already_checked_in, wallet_inactive, insufficient, Event, Registration, Calendar,
  registered, waitlisted, is_published, is_over, is_open, is_limited, limit, is_full, is_waiting,
  change_registered, is_charged, pay, new_registration, waiting_on, register_for_event,
  first_waiting, promote_next_waitlist, is_own, cancel_registration, has_code, check_in,
}
use obs_system_backend_berka.Events.Waitlist.{IsNext, first_waiting-IsNext, first_waiting-none}
use obs_system_backend_berka.Events.Invariant.{id_of}

-- The tables after the promotion of a registration.
abbrev pub promoted : ℕ → Registration → Calendar → Calendar
promoted event r s = record s {
  events = change_registered event (λ n. n + 1) s.events;
  registrations =
      update_where (λ (q : Registration). q.id == r.id) (λ q. record q { status = registered })
        s.registrations;
}

-- If a limited event has a free place, the promotion registers somebody who waits for it and than
-- whom nobody has waited longer, or nobody waits and nothing changes.
pub promote_next_waitlist_first :
    (event : ℕ) (s : Calendar) {e : Event}
    → find (λ (y : Event). y.id == event) s.events ≡ some e
    → is_limited e.capacity ≡ true
    → e.registered_count < limit e.capacity
    → (All (λ (q : Registration). is_waiting event q ≡ false) s.registrations
        × (promote_next_waitlist event s ≡ s))
      ⊎ ((r : Registration) × IsNext event s.registrations r
          × (promote_next_waitlist event s ≡ promoted event r s))
unfolding promote_next_waitlist
promote_next_waitlist_first event s {e} f limited room =
    let free : (not (is_limited e.capacity) || leb (limit e.capacity) e.registered_count) ≡ false =
      ground arith in
    elim (Option-cases (first_waiting event s.registrations)) [
      | inl w ↦
          inl
            (first_waiting-none event s.registrations w, rw (f, promote_next_waitlist) (rw w refl))
      | inr (r, w) ↦ inr (
        r,
        first_waiting-IsNext event s.registrations w,
        rw (f, promote_next_waitlist) (rw w (rw free refl)),
      )
    ]

-- A user who registers for a full event with a fee pays the fee for the waitlist, and a
-- cancellation gives nothing back: after both calls the wallets and their transactions are as the
-- charge left them, and the events and registrations as before.
pub cancel_registration-register_for_event :
    (now qr event user : ℕ) (s : Calendar) {e : Event} {bank : Bank}
    → Falls id_of s.next_id s.registrations
    → find (λ (y : Event). y.id == event) s.events ≡ some e
    → is_published e.status ≡ true
    → is_over e.registration_deadline now ≡ false
    → any (is_open event user) s.registrations ≡ false
    → is_charged e ≡ true
    → is_full e ≡ true
    → charge wallet_inactive insufficient user e.price event_registration e.id s.bank ≡ ok bank
    → cancel_registration event s.next_id user
        (committed s (register_for_event now qr event user s))
      ≡ ok (tt, record s { next_id = s.next_id + 1; bank = bank })
unfolding register_for_event cancel_registration pay
cancel_registration-register_for_event now qr event user s {e} {bank} b f listed in_time new paid
      full charged =
    let r : Registration = new_registration s.next_id event user now qr waitlisted in
    let filed : register_for_event now qr event user s ≡ ok (r, waiting_on r bank s) =
      rw (f, register_for_event) (rw (listed, in_time, new, full) (rw paid (rw charged refl))) in
    let own : is_own event s.next_id user r ≡ true = ground arith in
    let left : delete_where (λ (q : Registration). q.id == s.next_id) (r ∷ s.registrations)
        ≡ s.registrations =
      ground (arith, removed_above id_of s.next_id s.next_id s.registrations b) in
    rw filed (
      rw own (
        ap
          (λ (rs : List Registration).
            ok (tt, record s { registrations = rs; next_id = s.next_id + 1; bank = bank }))
          left))

-- The tables after a check-in.
abbrev entered : ℕ → Registration → Calendar → Calendar
entered now r s = record s {
  registrations =
      update_where (λ (q : Registration). q.id == r.id)
        (λ q. record q { checked_in = true; checked_in_at = some now }) s.registrations;
}

-- A registration that was checked in is not checked in again, and not cancelled.
pub check_in_once :
    (now today event id qr later day : ℕ) (s : Calendar) {t : Calendar}
    → check_in now today event id qr s ≡ ok (tt, t)
    → check_in later day event id qr t ≡ err already_checked_in
unfolding check_in
check_in_once now today event id qr later day s {t} h =
    elim (Option-cases (find (has_code event id qr) s.registrations)) [
      | inl f ↦ absurd (clash (rw (f, check_in) at h))
      | inr (r, f) ↦ elim (Bool-cases r.checked_in) [
        | inl c ↦ absurd (clash (rw c at (rw (f, check_in) at h)))
        | inr c ↦ elim (Option-cases (find (λ (e : Event). e.id == event) s.events)) [
          | inl g ↦ absurd (clash (rw (c, g) at (rw (f, check_in) at h)))
          | inr (e, g) ↦ elim (Bool-cases (e.date == today)) [
            | inl d ↦
                let is =
                  ok_inj (tt, entered now r s) (tt, t)
                    (rw d at (rw g at (rw c at (rw (f, check_in) at h)))) in
                let found =
                  find-saved id_of (has_code event id qr)
                    (λ (q : Registration). record q { checked_in = true; checked_in_at = some now })
                    s.registrations (λ q. refl) f in
                subst (λ (z : Calendar). check_in later day event id qr z ≡ err already_checked_in)
                  (ap (λ (z : Unit {0} × Calendar). z.1) is) (rw (found, check_in) refl)
            | inr d ↦ absurd (clash (rw d at (rw g at (rw c at (rw (f, check_in) at h)))))
          ]
        ]
      ]
    ]
  where
    clash : {x : Error} → ◌≡◌ {A = Result Error (Unit {0} × Calendar)} (err x) (ok (tt, t)) → ⊥
    clash g = cc
