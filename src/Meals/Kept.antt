-- ===== src/Meals/Kept.antt =====
-- Each operation of src/services/mealService.js keeps the books balanced, and keeps a reservation that
-- was used or cancelled.
use obs_system_backend_berka.Base.{
  ℕ, ◌+◌, ◌<◌, ◌≡◌, refl, sym, ap, ◌∙◌, subst, inl, inr, Bool, true, false, some, ◌∷◌, arith, ◌==◌,
  Bool-cases, Option-cases, Result-cases, find, find_holds, ok, ok_inj, committed,
}
use obs_system_backend_berka.Base.Int.{ltb_ℤ, pos}
use obs_system_backend_berka.Base.Keys.{
  Falls, saved-Falls, find-In, In-Falls, In-unique, find-saved_other,
}
use obs_system_backend_berka.Wallet.{Bank}
use obs_system_backend_berka.Wallet.Invariant.{IsConsistent}
use obs_system_backend_berka.Wallet.Charge.{charge-IsConsistent}
use obs_system_backend_berka.Meals.{
  MealType, Menu, Student, Reservation, Kitchen, is_reserved, pay, new_reservation,
  create_reservation, save_row, is_own, cancelled_row, cancel_reservation, has_code, used_row,
  use_reservation, offered_row, transfer_reservation, is_offered, accepted_row, accept_transfer,
}

abbrev pub id_of : Reservation → ℕ
id_of r = r.id

-- Ids are fresh and the books balance.
pub record IsServed (s : Kitchen) : Type 0 where
  pub ids_fall : Falls id_of s.next_id s.reservations
  pub books : IsConsistent s.bank

-- The state after a call is as good as before, and keeps the reservation `r` with the id `i`.
pub record IsKept (i : ℕ) (r : Reservation) (t : Kitchen) : Type 0 where
  pub served : IsServed t
  pub stays : find (λ (q : Reservation). q.id == i) t.reservations ≡ some r

pay-IsConsistent :
    (m : Menu) (user : ℕ) (b : Bank) {t : Bank}
    → IsConsistent b
    → pay m user b ≡ ok t
    → IsConsistent t
unfolding pay
pay-IsConsistent m user b {t} c h = elim (Bool-cases (ltb_ℤ (pos 0) m.price)) [
  | inl paid ↦ charge-IsConsistent _ _ user m.price _ m.id b c (rw paid at h)
  | inr free ↦ subst IsConsistent (ok_inj b t (rw free at h)) c
]

-- A reserved row is saved, so it is not `r`.
saved-IsKept :
    (p : Reservation → Bool) (f : Reservation → Reservation)
    (same_id : (q : Reservation) → (f q).id ≡ q.id) (i : ℕ) (r : Reservation) (s : Kitchen)
    {q : Reservation}
    → find p s.reservations ≡ some q
    → is_reserved q.status ≡ true
    → is_reserved r.status ≡ false
    → IsKept i r s
    → IsKept i r (save_row q.id f s)
unfolding save_row
saved-IsKept p f same_id i r s {q} found live done k = record {
  served = record {
    ids_fall = saved-Falls id_of f same_id q.id s.next_id s.reservations k.served.ids_fall;
    books = k.served.books;
  };
  stays = elim (Bool-cases (i == q.id)) [
    | inl same ↦
        let id_is : (r.id == i) ≡ true =
          find_holds (λ (x : Reservation). x.id == i) s.reservations k.stays in
        let one : r ≡ q =
          In-unique id_of s.next_id s.reservations r q k.served.ids_fall
            (find-In (λ (x : Reservation). x.id == i) s.reservations k.stays)
            (find-In p s.reservations found) (ground arith) in
        absurd (clash (sym done ∙ ap (λ (x : Reservation). is_reserved x.status) one ∙ live))
    | inr other ↦ find-saved_other id_of f same_id q.id i s.reservations other ∙ k.stays
  ];
}
  where
    clash : false ≡ true → ⊥
    clash h = cc

module _ (i : ℕ) (r : Reservation) (done : is_reserved r.status ≡ false) (s : Kitchen)
    (k : IsKept i r s) where
  filed-IsKept :
      (user menu cafeteria : ℕ) (meal : MealType) (date qr : ℕ) (m : Menu) (bank : Bank)
      → IsConsistent bank
      → IsKept i r (record s {
        reservations =
            new_reservation s.next_id user menu cafeteria meal date m.price qr ∷ s.reservations;
        next_id = s.next_id + 1;
        bank = bank;
      })
  filed-IsKept user menu cafeteria meal date qr m bank c = record {
    served = record { ids_fall = (omega arith, k.served.ids_fall); books = c };
    stays =
        let id_is : (r.id == i) ≡ true =
          find_holds (λ (x : Reservation). x.id == i) s.reservations k.stays in
        let old : r.id < s.next_id =
          In-Falls id_of s.next_id s.reservations r k.served.ids_fall
            (find-In (λ (x : Reservation). x.id == i) s.reservations k.stays) in
        let fresh : (s.next_id == i) ≡ false = ground arith in rw fresh k.stays;
  }

  pub create_reservation-IsKept :
      (user menu cafeteria : ℕ) (meal : MealType) (date qr : ℕ)
      → IsKept i r (committed s (create_reservation user menu cafeteria meal date qr s))
  unfolding create_reservation
  create_reservation-IsKept user menu cafeteria meal date qr =
      elim (Option-cases (find (λ (m : Menu). m.id == menu) s.menus)) [
        | inl f ↦ rw (f, create_reservation) k
        | inr (m, f) ↦ elim (Result-cases (pay m user s.bank)) [
          | inl (x, p) ↦ rw (f, create_reservation) (rw p (ground arith))
          | inr (t, p) ↦
              rw (f, create_reservation)
                (rw p (
                  ground (
                    arith,
                    filed-IsKept user menu cafeteria meal date qr m t
                        (pay-IsConsistent m user s.bank k.served.books p),
                  )))
        ]
      ]

  pub cancel_reservation-IsKept :
      (now id user : ℕ) → IsKept i r (committed s (cancel_reservation now id user s))
  unfolding cancel_reservation
  cancel_reservation-IsKept now id user =
      elim (Option-cases (find (is_own id user) s.reservations)) [
        | inl f ↦ rw (f, cancel_reservation) k
        | inr (q, f) ↦
            let own = find_holds (is_own id user) s.reservations f in
            rw (f, cancel_reservation)
              (ground (
                arith,
                saved-IsKept (is_own id user) cancelled_row (λ x. refl) i r s f
                    (ground (arith, own)) done k,
              ))
      ]

  pub use_reservation-IsKept :
      (now today id qr : ℕ) → IsKept i r (committed s (use_reservation now today id qr s))
  unfolding use_reservation
  use_reservation-IsKept now today id qr =
      elim (Option-cases (find (has_code id qr) s.reservations)) [
        | inl f ↦ rw (f, use_reservation) k
        | inr (q, f) ↦
            let own = find_holds (has_code id qr) s.reservations f in
            rw (f, use_reservation)
              (ground (
                arith,
                saved-IsKept (has_code id qr) (used_row now) (λ x. refl) i r s f
                    (ground (arith, own)) done k,
              ))
      ]

  pub transfer_reservation-IsKept :
      (now today id from number : ℕ)
      → IsKept i r (committed s (transfer_reservation now today id from number s))
  unfolding transfer_reservation
  transfer_reservation-IsKept now today id from number =
      elim (Option-cases (find (is_own id from) s.reservations)) [
        | inl f ↦ rw (f, transfer_reservation) k
        | inr (q, f) ↦
            let own = find_holds (is_own id from) s.reservations f in
            elim (Option-cases (find (λ (t : Student). t.student_number == number) s.students)) [
              | inl g ↦ rw (f, transfer_reservation) (rw g (ground arith))
              | inr (t, g) ↦
                  rw (f, transfer_reservation)
                    (rw g (
                      ground (
                        arith,
                        saved-IsKept (is_own id from) (offered_row now t.user_id from) (λ x. refl) i
                            r s f (ground (arith, own)) done k,
                      )))
            ]
      ]

  pub accept_transfer-IsKept :
      (today id to : ℕ) → IsKept i r (committed s (accept_transfer today id to s))
  unfolding accept_transfer
  accept_transfer-IsKept today id to =
      elim (Option-cases (find (is_offered id to) s.reservations)) [
        | inl f ↦ rw (f, accept_transfer) k
        | inr (q, f) ↦
            let own = find_holds (is_offered id to) s.reservations f in
            rw (f, accept_transfer)
              (ground (
                arith,
                saved-IsKept (is_offered id to) (accepted_row to) (λ x. refl) i r s f
                    (ground (arith, own)) done k,
              ))
      ]
