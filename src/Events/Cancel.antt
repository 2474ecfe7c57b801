-- ===== src/Events/Cancel.antt =====
-- Promotion, cancellation and check-in of src/services/eventService.js keep the counts, the places and
-- the books right.
use obs_system_backend_berka.Base.{
  ℕ, ◌≡◌, sym, ap, ◌∙◌, inl, inr, Bool, true, false, not, ◌||◌, none, some, List, [], ◌∷◌, leb,
  ◌==◌, ==_iff, if◌then◌else◌, Bool-cases, Option-cases, find, All, All-mono, All-zip, arith, subst,
}
use obs_system_backend_berka.Base.Keys.{Falls, IsOnly, found-IsOnly}
use obs_system_backend_berka.Wallet.Invariant.{IsConsistent}
use obs_system_backend_berka.Events.{
  Event, Calendar, is_limited, limit, first_waiting, promote_next_waitlist,
}
use obs_system_backend_berka.Events.Waitlist.{first_waiting-IsNext, first_waiting-none}
use obs_system_backend_berka.Events.Places.{waits, HasRoom, IsBusy, IsSteady}
use obs_system_backend_berka.Events.Invariant.{
  id_of, IsRunning, promoted-IsRunning, none_waiting, settled-IsSteady,
}

find-none :
    (k : ℕ) (es : List Event)
    → find (λ (y : Event). y.id == k) es ≡ none
    → All (λ (y : Event). (y.id == k) ≡ false) es
find-none k [] h = tt
find-none k (e ∷ es) h = elim (Bool-cases (e.id == k)) [
  | inl hit ↦ absurd (clash (rw hit at h))
  | inr miss ↦ (miss, find-none k es (rw miss at h))
]
  where
    clash : {x : Event} → some x ≡ none → ⊥
    clash g = cc

no_event : {A : Type 0} {b : Bool} → b ≡ false → b ≡ true → A
no_event f t = cc

-- The promotion that ends a cancellation.
pub promote_next_waitlist-IsRunning :
    (event : ℕ) (s : Calendar)
    → IsSteady event 1 s.events s.registrations
    → Falls id_of s.next_id s.registrations
    → IsConsistent s.bank
    → IsRunning (promote_next_waitlist event s)
unfolding promote_next_waitlist
promote_next_waitlist-IsRunning event s v b c =
    elim (Option-cases (find (λ (y : Event). y.id == event) s.events)) [
      | inl f ↦
          rw (f, promote_next_waitlist)
            (unchanged (
              All-mono (λ (y : Event). (y.id == event) ≡ false) _ s.events
                (λ y miss hit. no_event miss hit) (find-none event s.events f)))
      | inr (e, f) ↦ elim (Option-cases (first_waiting event s.registrations)) [
        | inl w ↦
            let z =
              none_waiting event s.registrations (first_waiting-none event s.registrations w) in
            rw (f, promote_next_waitlist)
              (rw w (
                unchanged (
                  All-mono (λ (y : Event). HasRoom y) _ s.events
                    (λ y _ same.
                      inl (ap (λ x. waits x s.registrations) ((==_iff y.id event).0 same) ∙ z))
                    v.bounded)))
        | inr (r, w) ↦
            elim (Bool-cases
              (not (is_limited e.capacity) || leb (limit e.capacity) e.registered_count)) [
                | inl full ↦
                    rw (f, promote_next_waitlist)
                      (rw w (
                        rw full (
                          unchanged (
                            All-mono
                              (λ (y : Event).
                                IsBusy (if y.id == event then 1 else 0) s.registrations y
                                × IsOnly (λ (z : Event). z.id) event e y)
                              _ s.events (λ y h same. stays y full (h.1 same) (rw same at h.0))
                              (All-zip _ _ s.events v.busy (
                                found-IsOnly (λ (z : Event). z.id) event s.events v.distinct f))))))
                | inr room ↦
                    rw (f, promote_next_waitlist)
                      (rw w (
                        rw room (
                          promoted-IsRunning event s v b c f (ground (arith, room))
                            (first_waiting-IsNext event s.registrations w))))
              ]
      ]
    ]
  where
    unchanged :
        All (λ (y : Event). (y.id == event) ≡ true → IsBusy 0 s.registrations y) s.events
        → IsRunning s
    unchanged own = record {
      steady = settled-IsSteady event s.events s.registrations v own;
      ids_fall = b;
      books = c;
    }

    stays :
        {e : Event} (y : Event)
        → (not (is_limited e.capacity) || leb (limit e.capacity) e.registered_count) ≡ true
        → y ≡ e
        → IsBusy 1 s.registrations y
        → IsBusy 0 s.registrations y
    stays y full own (inl z) = inl z
    stays y full own (inr (l, le)) = inr (
      l,
      let fits =
            subst
              (λ (z : Event).
                (not (is_limited z.capacity) || leb (limit z.capacity) z.registered_count) ≡ true)
              (sym own) full in
          ground arith,
    )
