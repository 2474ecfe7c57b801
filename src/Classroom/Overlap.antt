-- ===== src/Classroom/Overlap.antt =====
-- The availability query of src/services/reservationService.js against the plain reading of it:
-- two closed spans of time have a moment in common.
use obs_system_backend_berka.Base.{◌≤◌, ◌≡◌, ◌↔◌, ◌⊎◌, inl, inr, ℕ, true, arith}
use obs_system_backend_berka.Classroom.{Reservation, overlaps}

leb_cases : (a b : ℕ) → (a ≤ b) ⊎ (b ≤ a)
leb_cases a b = grind arith

-- Between spans that do not end before they start, the three cases of the query together say that
-- the row's span and the wanted span have a moment in common, their ends included.
pub overlaps_iff :
    (r : Reservation) (start end : ℕ)
    → r.start_time ≤ r.end_time
    → start ≤ end
    → (overlaps r start end ≡ true)
      ↔ ((t : ℕ) × (r.start_time ≤ t) × (t ≤ r.end_time) × (start ≤ t) × (t ≤ end))
unfolding overlaps
overlaps_iff r start end row span = (common, λ m. ground arith)
  where
    common :
        overlaps r start end ≡ true
        → (t : ℕ) × (r.start_time ≤ t) × (t ≤ r.end_time) × (start ≤ t) × (t ≤ end)
    common h = elim (leb_cases r.start_time start) [
      | inl a ↦ (start, a, ground arith, ground arith, span)
      | inr b ↦ (r.start_time, ground arith, row, ground arith, ground arith)
    ]
