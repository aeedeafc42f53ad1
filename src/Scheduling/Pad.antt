-- ===== src/Scheduling/Pad.antt =====
-- The conflict engine against its description: two active appointments of one shop clash when they
-- share the technician and lie within the larger of their buffers, or share the bay and overlap.
use optimus_os.Base.{
  ℕ, ◌+◌, ◌≡◌, refl, Bool, true, false, List, Option, ◌&&◌, ◌==◌, leb, ltb, max, All, filter, arith,
  ◌∙◌,
}
use optimus_os.Db.Calendar.{Appointment, is_active}
use optimus_os.Scheduling.{Slot, minutes}
use optimus_os.Scheduling.Conflicts.{
  technician_conflicts, technician_query, technician_overlaps, overlaps, is_other,
  conflict_query_pad,
}
use optimus_os.Scheduling.Apart.{filter-filter, filter-congr, All-impl}

abbrev pub IsShort : Appointment → Type 0
IsShort a = leb a.travel_buffer_minutes 480 ≡ true

-- An active appointment of the technician within reach of the slot.
abbrev pub is_booked : ℕ → Slot → Option ℕ → Appointment → Bool
is_booked shop_id s exclude a =
    a.shop_id == shop_id
    && (a.technician_id == s.technician_id
        && (is_active a.status && (technician_overlaps s a && is_other exclude a)))

-- What lies within a buffer of at most eight hours is not cut off by the pad of the query.
pad_is_enough :
    (buffer start_time end_time other_start other_end : ℕ)
    → leb buffer 480 ≡ true
    → overlaps (minutes buffer) start_time end_time other_start other_end ≡ true
    → (ltb other_start (end_time + conflict_query_pad) ≡ true)
      × (ltb start_time (other_end + conflict_query_pad) ≡ true)
pad_is_enough buffer start_time end_time other_start other_end h k = ground (arith, h, k)

max_short : (a b : ℕ) → leb a 480 ≡ true → leb b 480 ≡ true → leb (max a b) 480 ≡ true
max_short a b h k = ground (arith, h, k)

-- Conditions that a later one implies may be dropped.
drop_implied :
    (a b c d e f g : Bool)
    → (g ≡ true → (d ≡ true) × (e ≡ true))
    → (a && (b && (c && (d && (e && f)))) && g) ≡ (a && (b && (c && (g && f))))
drop_implied false b c d e f g h = refl
drop_implied true false c d e f g h = refl
drop_implied true true false d e f g h = refl
drop_implied true true true d e f false h = ground arith
drop_implied true true true d e f true h = ground (arith, (h refl).0, (h refl).1)

query_is_exact :
    (shop_id : ℕ) (s : Slot) (exclude : Option ℕ) (a : Appointment)
    → leb s.travel_buffer_minutes 480 ≡ true
    → IsShort a
    → (technician_query shop_id s exclude a && technician_overlaps s a)
      ≡ is_booked shop_id s exclude a
query_is_exact shop_id s exclude a h k =
    let buffer : ℕ = max s.travel_buffer_minutes a.travel_buffer_minutes in
    drop_implied (a.shop_id == shop_id) (a.technician_id == s.technician_id) (is_active a.status)
      (ltb a.start_time (s.end_time + conflict_query_pad))
      (ltb s.start_time (a.end_time + conflict_query_pad)) (is_other exclude a)
      (technician_overlaps s a)
      (λ near.
        pad_is_enough buffer s.start_time s.end_time a.start_time a.end_time
          (max_short s.travel_buffer_minutes a.travel_buffer_minutes h k) near)

-- With buffers of at most eight hours, as the schemas allow, the query with its pad and the test on
-- its rows find exactly the other active appointments of the technician in the shop that lie
-- within the larger of the two buffers of the slot, in the order of the table.
pub technician_conflicts_lem :
    (shop_id : ℕ) (s : Slot) (exclude : Option ℕ) (rows : List Appointment)
    → leb s.travel_buffer_minutes 480 ≡ true
    → All IsShort rows
    → technician_conflicts shop_id s exclude rows ≡ filter (is_booked shop_id s exclude) rows
unfolding technician_conflicts
technician_conflicts_lem shop_id s exclude rows h short =
    filter-filter (technician_query shop_id s exclude) (technician_overlaps s) rows
    ∙ filter-congr _ (is_booked shop_id s exclude) rows
        (All-impl IsShort _ rows (λ a k. query_is_exact shop_id s exclude a h k) short)
