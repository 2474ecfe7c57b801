-- ===== src/Events/Places.antt =====
-- The places of an event of src/services/eventService.js and its waitlist, under each change of the
-- registrations.
use obs_system_backend_berka.Base.{
  ℕ, ◌+◌, ◌-◌, ◌≤◌, ◌≡◌, ◌⊎◌, sym, ap, ◌∙◌, inl, inr, true, false, ◌&&◌, some, List, [], ◌∷◌, ◌==◌,
  ==_iff, if◌then◌else◌, Bool-cases, find, All, All-mono, All-zip, All-update_where, arith, subst,
}
use obs_system_backend_berka.Base.Keys.{IsDistinct, IsOnly, found-IsOnly, total}
use obs_system_backend_berka.Events.{
  Event, Registration, is_registered, is_limited, limit, is_full, is_waiting, change_registered,
}

-- What a registration takes of an event's places, and whether it waits for one.
abbrev pub place : ℕ → Registration → ℕ
place event r = if (r.event_id == event) && is_registered r.status then 1 else 0

abbrev pub wait : ℕ → Registration → ℕ
wait event r = if is_waiting event r then 1 else 0

abbrev pub places : ℕ → List Registration → ℕ
places event = total (λ (r : Registration). r.id) (place event)

abbrev pub waits : ℕ → List Registration → ℕ
waits event = total (λ (r : Registration). r.id) (wait event)

abbrev pub HasRoom : Event → Type 0
HasRoom e = (is_limited e.capacity ≡ false) ⊎ e.registered_count ≤ limit e.capacity

-- Nobody waits, or all places but `d` are taken.
abbrev pub IsBusy : ℕ → List Registration → Event → Type 0
IsBusy d rs e =
    (waits e.id rs ≡ 0)
    ⊎ ((is_limited e.capacity ≡ true) × limit e.capacity ≤ e.registered_count + d)

-- The invariant of two tables: counts are places, no event is overbooked, and nobody waits for a free
-- place, up to `d` places of the event `k`.
pub record IsSteady (k d : ℕ) (es : List Event) (rs : List Registration) : Type 0 where
  pub counted : All (λ (e : Event). e.registered_count ≡ places e.id rs) es
  pub bounded : All HasRoom es
  pub busy : All (λ (e : Event). IsBusy (if e.id == k then d else 0) rs e) es
  pub distinct : IsDistinct (λ (e : Event). e.id) es

-- A change of one event's count.
abbrev recounted : (ℕ → ℕ) → Event → Event
recounted f e = record e { registered_count = f e.registered_count }

IsDistinct-recounted :
    (k : ℕ) (f : ℕ → ℕ) (es : List Event)
    → IsDistinct (λ (e : Event). e.id) es
    → IsDistinct (λ (e : Event). e.id) (change_registered k f es)
unfolding change_registered
IsDistinct-recounted k f [] d = tt
IsDistinct-recounted k f (e ∷ es) d = (
  (let same : (if e.id == k then recounted f e else e).id ≡ e.id = ground arith in
      rw same (
        All-update_where (λ (y : Event). (y.id == e.id) ≡ false) (λ y. (y.id == e.id) ≡ false)
          (λ y. y.id == k) (recounted f) es (λ y h _. h) (λ y h _. h) d.0)),
  IsDistinct-recounted k f es d.1,
)

-- The three changes of the tables: a row waits, a row takes a place, a row leaves or is promoted.
module _ (k : ℕ) (es : List Event) (rs ts : List Registration) where
  -- A row that takes a place.
  pub placed-IsSteady :
      {e : Event} (d : ℕ)
      → ((x : ℕ) → (x == k) ≡ false → (places x ts ≡ places x rs) × (waits x ts ≡ waits x rs))
      → places k ts ≡ places k rs + 1
      → (waits k rs ≡ 0 → waits k ts ≡ 0)
      → find (λ (y : Event). y.id == k) es ≡ some e
      → is_full e ≡ false
      → IsSteady k (d + 1) es rs
      → IsSteady k d (change_registered k (λ n. n + 1) es) ts
  unfolding change_registered
  placed-IsSteady {e} d other more idle f room v = record {
    counted =
        All-update_where (λ (y : Event). y.registered_count ≡ places y.id rs)
          (λ y. y.registered_count ≡ places y.id ts) (λ y. y.id == k) (recounted (λ n. n + 1)) es
          (λ y h same.
            let is : y.id ≡ k = (==_iff y.id k).0 same in
            omega (arith, h, more, ap (λ x. places x rs) is, ap (λ x. places x ts) is))
          (λ y h diff. h ∙ sym (other y.id diff).0) v.counted;
    bounded =
        All-update_where (λ (y : Event). HasRoom y × IsOnly (λ (z : Event). z.id) k e y) HasRoom
          (λ y. y.id == k) (recounted (λ n. n + 1)) es
          (λ y h same.
            let own : y ≡ e = h.1 same in
            subst (λ (z : Event). HasRoom (recounted (λ n. n + 1) z)) (sym own)
              (ground (arith, room)))
          (λ y h _. h.0)
          (All-zip _ _ es v.bounded (found-IsOnly (λ (z : Event). z.id) k es v.distinct f));
    busy =
        All-update_where (λ (y : Event). IsBusy (if y.id == k then d + 1 else 0) rs y)
          (λ y. IsBusy (if y.id == k then d else 0) ts y) (λ y. y.id == k) (recounted (λ n. n + 1))
          es
          (λ y h same.
            let is : y.id ≡ k = (==_iff y.id k).0 same in
            rw same (elim (rw same at h) [
              | inl z ↦ inl (ap (λ x. waits x ts) is ∙ idle (sym (ap (λ x. waits x rs) is) ∙ z))
              | inr (l, le) ↦ inr (l, omega arith)
            ]))
          (λ y h diff.
            rw diff (elim (rw diff at h) [ inl z ↦ inl ((other y.id diff).1 ∙ z) | inr w ↦ inr w ]))
          v.busy;
    distinct = IsDistinct-recounted k (λ n. n + 1) es v.distinct;
  }

  -- A row that leaves its place, for which somebody may wait.
  pub freed-IsSteady :
      ((x : ℕ) → (x == k) ≡ false → (places x ts ≡ places x rs) × (waits x ts ≡ waits x rs))
      → places k ts + 1 ≡ places k rs
      → waits k ts ≡ waits k rs
      → IsSteady k 0 es rs
      → IsSteady k 1 (change_registered k (λ n. n - 1) es) ts
  unfolding change_registered
  freed-IsSteady other less same_waits v = record {
    counted =
        All-update_where (λ (y : Event). y.registered_count ≡ places y.id rs)
          (λ y. y.registered_count ≡ places y.id ts) (λ y. y.id == k) (recounted (λ n. n - 1)) es
          (λ y h same.
            let is : y.id ≡ k = (==_iff y.id k).0 same in
            omega (arith, h, less, ap (λ x. places x rs) is, ap (λ x. places x ts) is))
          (λ y h diff. h ∙ sym (other y.id diff).0) v.counted;
    bounded =
        All-update_where HasRoom HasRoom (λ (y : Event). y.id == k) (recounted (λ n. n - 1)) es
          (λ y h _. elim h [ inl free ↦ inl free | inr le ↦ inr (omega arith) ]) (λ y h _. h)
          v.bounded;
    busy =
        All-update_where (λ (y : Event). IsBusy (if y.id == k then 0 else 0) rs y)
          (λ y. IsBusy (if y.id == k then 1 else 0) ts y) (λ y. y.id == k) (recounted (λ n. n - 1))
          es
          (λ y h same.
            let is : y.id ≡ k = (==_iff y.id k).0 same in
            rw same (elim (rw same at h) [
              | inl z ↦
                  inl (ap (λ x. waits x ts) is ∙ same_waits ∙ sym (ap (λ x. waits x rs) is) ∙ z)
              | inr (l, le) ↦ inr (l, omega arith)
            ]))
          (λ y h diff.
            rw diff (elim (rw diff at h) [ inl z ↦ inl ((other y.id diff).1 ∙ z) | inr w ↦ inr w ]))
          v.busy;
    distinct = IsDistinct-recounted k (λ n. n - 1) es v.distinct;
  }

  -- A change of the waitlist of an event.
  pub waiting-IsSteady :
      ((x : ℕ) → places x ts ≡ places x rs)
      → ((x : ℕ) → (x == k) ≡ false → waits x ts ≡ waits x rs)
      → All (λ (y : Event). IsBusy 0 rs y → (y.id == k) ≡ true → IsBusy 0 ts y) es
      → IsSteady k 0 es rs
      → IsSteady k 0 es ts
  waiting-IsSteady same_places other own v = record {
    counted =
        All-mono (λ (y : Event). y.registered_count ≡ places y.id rs)
          (λ y. y.registered_count ≡ places y.id ts) es (λ y h. h ∙ sym (same_places y.id))
          v.counted;
    bounded = v.bounded;
    busy =
        All-mono
          (λ (y : Event).
            IsBusy (if y.id == k then 0 else 0) rs y
            × (IsBusy 0 rs y → (y.id == k) ≡ true → IsBusy 0 ts y))
          (λ y. IsBusy (if y.id == k then 0 else 0) ts y) es
          (λ y h. elim (Bool-cases (y.id == k)) [
            | inl same ↦ rw same (h.1 (rw same at h.0) same)
            | inr diff ↦
                rw diff
                  (elim (rw diff at h.0) [ inl z ↦ inl (other y.id diff ∙ z) | inr w ↦ inr w ])
          ])
          (All-zip _ _ es v.busy own);
    distinct = v.distinct;
  }
