-- ===== src/Conflict/Slots.antt =====
-- The overlap test of src/services/scheduleConflictService.js against its plain reading.
use obs_system_backend_berka.Base.{ℕ, ◌≤◌, ◌<◌, ◌≡◌, ◌↔◌, ◌⊎◌, inl, inr, true, arith}
use obs_system_backend_berka.School.{Slot}
use obs_system_backend_berka.Conflict.{time_to_minutes, day_index, time_slots_overlap}

le_cases : (a b : ℕ) → (a ≤ b) ⊎ (b ≤ a)
le_cases a b = grind arith

-- Two slots that end after they start overlap exactly when they are on one day and some minute lies
-- in both; slots that only touch do not.
pub time_slots_overlap_iff :
    (a b : Slot)
    → time_to_minutes a.start_time < time_to_minutes a.end_time
    → time_to_minutes b.start_time < time_to_minutes b.end_time
    → (time_slots_overlap a b ≡ true) ↔ (
        (day_index a.day ≡ day_index b.day)
        × ((t : ℕ) × (time_to_minutes a.start_time ≤ t)
            × (t < time_to_minutes a.end_time)
            × (time_to_minutes b.start_time ≤ t)
            × (t < time_to_minutes b.end_time)))
unfolding time_slots_overlap
time_slots_overlap_iff a b ha hb = (
  λ h. (
    ground arith,
    elim (le_cases (time_to_minutes a.start_time) (time_to_minutes b.start_time)) [
      | inl p ↦ (time_to_minutes b.start_time, p, ground arith, omega arith, hb)
      | inr p ↦ (time_to_minutes a.start_time, omega arith, ha, p, ground arith)
    ],
  ),
  λ m. ground arith,
)

-- The order of the two slots does not matter.
pub time_slots_overlap_comm : (a b : Slot) → time_slots_overlap a b ≡ time_slots_overlap b a
unfolding time_slots_overlap
time_slots_overlap_comm a b = ground arith
