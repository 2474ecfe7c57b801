-- ===== src/Events/Waitlist.antt =====
-- The order of the waitlist of src/services/eventService.js.
use obs_system_backend_berka.Base.{
  ℕ, ◌≤◌, ◌≡◌, refl, ◌⊎◌, inl, inr, true, false, none, some, List, [], ◌∷◌, ltb, Bool-cases,
  Option-cases, In, All, arith, subst,
}
use obs_system_backend_berka.Events.{Registration, is_waiting, earlier, first_waiting}

some_inj : (a b : Registration) → some a ≡ some b → a ≡ b
some_inj a b h = cc

-- The next person: one of those who wait, and nobody has waited longer.
pub record IsNext (event : ℕ) (rs : List Registration) (r : Registration) : Type 0 where
  pub stands : In r rs
  pub waits : is_waiting event r ≡ true
  pub first :
      All
        (λ (q : Registration).
          is_waiting event q ≡ false ⊎ r.registration_date ≤ q.registration_date)
        rs

pub first_waiting-none :
    (event : ℕ) (rs : List Registration)
    → first_waiting event rs ≡ none
    → All (λ (q : Registration). is_waiting event q ≡ false) rs
unfolding first_waiting
first_waiting-none event [] h = tt
first_waiting-none event (r ∷ rs) h = elim (Bool-cases (is_waiting event r)) [
  | inl w ↦ absurd (clash (rw w at h))
  | inr w ↦ (w, first_waiting-none event rs (rw w at h))
]
  where
    clash : {x : Registration} → some x ≡ none → ⊥
    clash e = cc

weaker :
    (event : ℕ) (r s : Registration) (rs : List Registration)
    → r.registration_date ≤ s.registration_date
    → All
        (λ (q : Registration).
          is_waiting event q ≡ false ⊎ s.registration_date ≤ q.registration_date)
        rs
    → All
        (λ (q : Registration).
          is_waiting event q ≡ false ⊎ r.registration_date ≤ q.registration_date)
        rs
weaker event r s [] le h = tt
weaker event r s (q ∷ rs) le h = (ground (arith, h.0), weaker event r s rs le h.1)

nobody :
    (event : ℕ) (r : Registration) (rs : List Registration)
    → All (λ (q : Registration). is_waiting event q ≡ false) rs
    → All
        (λ (q : Registration).
          is_waiting event q ≡ false ⊎ r.registration_date ≤ q.registration_date)
        rs
nobody event r [] h = tt
nobody event r (q ∷ rs) h = (inl h.0, nobody event r rs h.1)

pub first_waiting-IsNext :
    (event : ℕ) (rs : List Registration) {r : Registration}
    → first_waiting event rs ≡ some r
    → IsNext event rs r
unfolding first_waiting
first_waiting-IsNext event [] h = cc
first_waiting-IsNext event (q ∷ rs) {r} h = elim (Bool-cases (is_waiting event q)) [
  | inr w ↦
      let n = first_waiting-IsNext event rs (rw w at h) in
      record { stands = inr n.stands; waits = n.waits; first = (inl w, n.first) }
  | inl w ↦
      let is : earlier q (first_waiting event rs) ≡ r = some_inj _ r (rw w at h) in
      elim (Option-cases (first_waiting event rs)) [
        | inl e ↦
            let own : q ≡ r = rw e at is in
            subst (IsNext event (q ∷ rs)) own (record {
              stands = inl refl;
              waits = w;
              first = (inr (omega arith), nobody event q rs (first_waiting-none event rs e));
            })
        | inr (s, e) ↦
            let n = first_waiting-IsNext event rs e in
            elim (Bool-cases (ltb q.registration_date s.registration_date)) [
              | inl l ↦
                  let own : q ≡ r = rw (e, l) at is in
                  subst (IsNext event (q ∷ rs)) own (record {
                    stands = inl refl;
                    waits = w;
                    first = (inr (omega arith), weaker event q s rs (ground arith) n.first);
                  })
              | inr l ↦
                  let own : s ≡ r = rw (e, l) at is in
                  subst (IsNext event (q ∷ rs)) own (record {
                    stands = inr n.stands;
                    waits = n.waits;
                    first = (inr (ground arith), n.first);
                  })
            ]
      ]
]
