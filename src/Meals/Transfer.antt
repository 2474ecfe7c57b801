-- ===== src/Meals/Transfer.antt =====
-- The transfer of a reservation in src/services/mealService.js.
use obs_system_backend_berka.Base.{
  ℕ, ◌≡◌, refl, ap, ◌∙◌, subst, inl, inr, Bool, true, false, not, ◌&&◌, some, List, [], ◌∷◌, arith,
  ◌==◌, Bool-cases, Option-cases, find, find_holds, any, update_where, Result, ok, err, ok_inj, ltb,
}
use obs_system_backend_berka.Base.Keys.{find-In, find-key, find-saved}
use obs_system_backend_berka.Meals.{
  Reservation, Kitchen, Error, is_same_meal, is_offered, accepted_row, save_row, accept_transfer,
}
use obs_system_backend_berka.Meals.Kept.{id_of, IsServed}

-- Another active reservation of the user for the meal.
abbrev pub is_second : ℕ → ℕ → Reservation → Reservation → Bool
is_second to id r q = is_same_meal to r q && not (q.id == id)

any-saved :
    (to id : ℕ) (r : Reservation) (qs : List Reservation)
    → any (is_second to id r) (update_where (λ (q : Reservation). q.id == id) (accepted_row to) qs)
      ≡ any (is_second to id r) qs
any-saved to id r [] = refl
any-saved to id r (q ∷ qs) = ground (arith, any-saved to id r qs)

-- When a transfer is accepted, the offered reservation belongs to the user who accepts, who has no
-- other active reservation for that meal.
pub accept_transfer_owner :
    (today id to : ℕ) (s : Kitchen) {t : Kitchen}
    → IsServed s
    → accept_transfer today id to s ≡ ok (tt, t)
    → (r : Reservation) × (find (is_offered id to) s.reservations ≡ some r)
      × (find (λ (q : Reservation). q.id == id) t.reservations ≡ some (accepted_row to r))
      × (any (is_second to id r) t.reservations ≡ false)
unfolding accept_transfer save_row
accept_transfer_owner today id to s {t} v h =
    elim (Option-cases (find (is_offered id to) s.reservations)) [
      | inl f ↦ absurd (clash (rw (f, accept_transfer) at h))
      | inr (r, f) ↦ elim (Bool-cases (ltb r.date today)) [
        | inl p ↦ absurd (clash (rw p at (rw (f, accept_transfer) at h)))
        | inr p ↦ elim (Bool-cases (any (is_second to id r) s.reservations)) [
          | inl a ↦ absurd (clash (rw a at (rw p at (rw (f, accept_transfer) at h))))
          | inr a ↦
              let is =
                ok_inj (tt, save_row r.id (accepted_row to) s) (tt, t)
                  (rw a at (rw p at (rw (f, accept_transfer) at h))) in
              let id_is : r.id ≡ id =
                offered_id r (find_holds (is_offered id to) s.reservations f) in
              let rows =
                subst (λ (k : ℕ). (save_row k (accepted_row to) s).reservations ≡ t.reservations)
                  id_is (ap (λ (z : Unit {0} × Kitchen). z.1.reservations) is) in
              let owned =
                find-saved id_of (λ (q : Reservation). q.id == r.id) (accepted_row to)
                  s.reservations (λ q. refl)
                  (find-key id_of s.next_id s.reservations r v.ids_fall
                    (find-In (is_offered id to) s.reservations f)) in
              (
                r,
                f,
                subst
                    (λ (qs : List Reservation).
                      find (λ (q : Reservation). q.id == id) qs ≡ some (accepted_row to r))
                    rows
                    (subst
                      (λ (k : ℕ).
                        find (λ (q : Reservation). q.id == k)
                          (update_where (λ (q : Reservation). q.id == k) (accepted_row to)
                            s.reservations)
                        ≡ some (accepted_row to r))
                      id_is owned),
                subst (λ (qs : List Reservation). any (is_second to id r) qs ≡ false) rows
                    (any-saved to id r s.reservations ∙ a),
              )
        ]
      ]
    ]
  where
    clash : {x : Error} → ◌≡◌ {A = Result Error (Unit {0} × Kitchen)} (err x) (ok (tt, t)) → ⊥
    clash g = cc

    offered_id : (r : Reservation) → is_offered id to r ≡ true → r.id ≡ id
    offered_id r g = ground arith
