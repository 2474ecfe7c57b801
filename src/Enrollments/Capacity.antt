-- ===== src/Enrollments/Capacity.antt =====
-- No section of src/services/enrollmentService.js is overbooked, and its `enrolled_count` is the number
-- of its enrolled students, after any sequence of calls.
use obs_system_backend_berka.Base.{
  ℕ, ◌+◌, ◌-◌, ◌≤◌, ◌<◌, ◌≡◌, refl, true, false, some, List, [], ◌∷◌, arith, ◌==◌, if◌then◌else◌,
  find, find_holds, All, All-update_where, All-mono, All-zip, update_where,
}
use obs_system_backend_berka.School.{Section, Enrollment, School}
use obs_system_backend_berka.Conflict.{section_by_id}
use obs_system_backend_berka.Enrollments.{
  is_status_enrolled, create_schedule_from_section, save_row, change_count, is_waiting,
  approved_row, rejected_row, dropped_row, is_droppable,
}
use obs_system_backend_berka.Base.Keys.{Falls-mono, saved-Falls, IsDistinct, IsOnly, found-IsOnly}
use obs_system_backend_berka.Enrollments.Seats.{seats, id_of, Below, seats-saved}

abbrev section_id_of : Section → ℕ
section_id_of x = x.id

pub record IsSeated (s : School) : Type 0 where
  pub counted : All (λ (x : Section). x.enrolled_count ≡ seats x.id s.enrollments) s.sections
  pub bounded : All (λ (x : Section). x.enrolled_count ≤ x.capacity) s.sections
  pub distinct : IsDistinct section_id_of s.sections
  pub ids_fall : Below s.next_id s.enrollments

abbrev recount : ℕ → (ℕ → ℕ) → List Section → List Section
recount k g =
    update_where (λ (x : Section). x.id == k)
      (λ x. record x { enrolled_count = g x.enrolled_count })

recount_id :
    (k : ℕ) (g : ℕ → ℕ) (x : Section)
    → (if x.id == k then record x { enrolled_count = g x.enrolled_count } else x).id ≡ x.id
recount_id k g x = ground arith

IsDistinct-recount :
    (k : ℕ) (g : ℕ → ℕ) (xs : List Section)
    → IsDistinct section_id_of xs
    → IsDistinct section_id_of (recount k g xs)
IsDistinct-recount k g [] d = tt
IsDistinct-recount k g (x ∷ xs) d = (
  rw (recount_id k g x) (
      All-update_where (λ (y : Section). (y.id == x.id) ≡ false) (λ y. (y.id == x.id) ≡ false)
        (λ y. y.id == k) (λ y. record y { enrolled_count = g y.enrolled_count }) xs (λ y h _. h)
        (λ y h _. h) d.0),
  IsDistinct-recount k g xs d.1,
)

-- The invariant reads the sections, the enrollments and the counter alone.
IsSeated-carried :
    (s t : School)
    → t.sections ≡ s.sections
    → t.enrollments ≡ s.enrollments
    → s.next_id ≤ t.next_id
    → IsSeated s
    → IsSeated t
IsSeated-carried s t same_sections same_rows later v = record {
  counted = rw (same_sections, same_rows) v.counted;
  bounded = rw same_sections v.bounded;
  distinct = rw same_sections v.distinct;
  ids_fall = rw same_rows (Falls-mono id_of s.next_id t.next_id s.enrollments later v.ids_fall);
}

pub create_schedule_from_section_keeps :
    (id : ℕ) (s : School)
    → let t = create_schedule_from_section id s in
      (t.sections ≡ s.sections) × (t.enrollments ≡ s.enrollments) × (s.next_id ≤ t.next_id)
unfolding create_schedule_from_section
create_schedule_from_section_keeps id s = ground arith

pub create_schedule_from_section-IsSeated :
    (id : ℕ) (s : School) → IsSeated s → IsSeated (create_schedule_from_section id s)
create_schedule_from_section-IsSeated id s v =
    let (same_sections, same_rows, later) = create_schedule_from_section_keeps id s in
    IsSeated-carried s (create_schedule_from_section id s) same_sections same_rows later v

waiting_status :
    (id : ℕ) (e : Enrollment) → is_waiting id e ≡ true → is_status_enrolled e.status ≡ false
waiting_status id e h = ground arith

-- An approval: the row becomes enrolled and the count goes up by one.
pub approved-IsSeated :
    (now faculty id : ℕ) (s : School) {e : Enrollment} {x : Section}
    → IsSeated s
    → find (is_waiting id) s.enrollments ≡ some e
    → section_by_id s e.section_id ≡ some x
    → x.enrolled_count < x.capacity
    → IsSeated (change_count e.section_id (λ n. n + 1) (save_row e.id (approved_row now faculty) s))
unfolding change_count save_row
approved-IsSeated now faculty id s {e} {x} v row sec room =
    let f = approved_row now faculty in
    let moved = λ (k : ℕ).
      seats-saved f (λ z. refl) (is_waiting id) k s.next_id s.enrollments v.ids_fall row in
    let idle : is_status_enrolled e.status ≡ false =
      waiting_status id e (find_holds (is_waiting id) s.enrollments row) in
    record {
      counted =
          All-update_where (λ (y : Section). y.enrolled_count ≡ seats y.id s.enrollments)
            (λ y.
              y.enrolled_count
              ≡ seats y.id (update_where (λ (z : Enrollment). z.id == e.id) f s.enrollments))
            (λ y. y.id == e.section_id) (λ y. record y { enrolled_count = y.enrolled_count + 1 })
            s.sections (λ y h same. ground (arith, moved y.id))
            (λ y h other. ground (arith, moved y.id)) v.counted;
      bounded =
          All-update_where
            (λ (y : Section).
              (y.enrolled_count ≤ y.capacity) × IsOnly section_id_of e.section_id x y)
            (λ y. y.enrolled_count ≤ y.capacity) (λ y. y.id == e.section_id)
            (λ y. record y { enrolled_count = y.enrolled_count + 1 }) s.sections
            (λ y h same. below y (h.1 same)) (λ y h _. h.0)
            (All-zip _ _ s.sections v.bounded
              (found-IsOnly section_id_of e.section_id s.sections v.distinct sec));
      distinct = IsDistinct-recount e.section_id (λ n. n + 1) s.sections v.distinct;
      ids_fall = saved-Falls id_of f (λ z. refl) e.id s.next_id s.enrollments v.ids_fall;
    }
  where
    below : (y : Section) → y ≡ x → y.enrolled_count + 1 ≤ y.capacity
    below y same = rw same (omega arith)

-- A rejection: a waiting row takes no seat before or after.
pub rejected-IsSeated :
    (faculty id : ℕ) (s : School) {e : Enrollment}
    → IsSeated s
    → find (is_waiting id) s.enrollments ≡ some e
    → IsSeated (save_row e.id (rejected_row faculty) s)
unfolding save_row
rejected-IsSeated faculty id s {e} v row =
    let f = rejected_row faculty in
    let moved = λ (k : ℕ).
      seats-saved f (λ z. refl) (is_waiting id) k s.next_id s.enrollments v.ids_fall row in
    let idle : is_status_enrolled e.status ≡ false =
      waiting_status id e (find_holds (is_waiting id) s.enrollments row) in
    record {
      counted =
          All-mono (λ (y : Section). y.enrolled_count ≡ seats y.id s.enrollments)
            (λ y.
              y.enrolled_count
              ≡ seats y.id (update_where (λ (z : Enrollment). z.id == e.id) f s.enrollments))
            s.sections (λ y h. ground (arith, moved y.id)) v.counted;
      bounded = v.bounded;
      distinct = v.distinct;
      ids_fall = saved-Falls id_of f (λ z. refl) e.id s.next_id s.enrollments v.ids_fall;
    }

droppable_status :
    (id student : ℕ) (e : Enrollment)
    → is_droppable id student e ≡ true
    → is_status_enrolled e.status ≡ true
droppable_status id student e h = ground arith

-- A drop: the row leaves its seat, and the count goes down by one.
pub dropped-IsSeated :
    (now id student : ℕ) (s : School) {e : Enrollment}
    → IsSeated s
    → find (is_droppable id student) s.enrollments ≡ some e
    → IsSeated (change_count e.section_id (λ n. n - 1) (save_row e.id (dropped_row now) s))
unfolding change_count save_row
dropped-IsSeated now id student s {e} v row =
    let f = dropped_row now in
    let moved = λ (k : ℕ).
      seats-saved f (λ z. refl) (is_droppable id student) k s.next_id s.enrollments v.ids_fall
        row in
    let taken : is_status_enrolled e.status ≡ true =
      droppable_status id student e (find_holds (is_droppable id student) s.enrollments row) in
    record {
      counted =
          All-update_where (λ (y : Section). y.enrolled_count ≡ seats y.id s.enrollments)
            (λ y.
              y.enrolled_count
              ≡ seats y.id (update_where (λ (z : Enrollment). z.id == e.id) f s.enrollments))
            (λ y. y.id == e.section_id) (λ y. record y { enrolled_count = y.enrolled_count - 1 })
            s.sections (λ y h same. ground (arith, moved y.id))
            (λ y h other. ground (arith, moved y.id)) v.counted;
      bounded =
          All-update_where (λ (y : Section). y.enrolled_count ≤ y.capacity)
            (λ y. y.enrolled_count ≤ y.capacity) (λ y. y.id == e.section_id)
            (λ y. record y { enrolled_count = y.enrolled_count - 1 }) s.sections
            (λ y h _. omega arith) (λ y h _. h) v.bounded;
      distinct = IsDistinct-recount e.section_id (λ n. n - 1) s.sections v.distinct;
      ids_fall = saved-Falls id_of f (λ z. refl) e.id s.next_id s.enrollments v.ids_fall;
    }
