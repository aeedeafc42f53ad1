-- ===== src/Scheduling/Booking.antt =====
-- No technician and no bay is booked twice: what the operations on appointments keep.
use optimus_os.Base.{
  ℕ, ◌≡◌, refl, Bool, true, false, List, [], ◌∷◌, Option, none, some, ◌&&◌, ◌||◌, ◌==◌, ltb, max,
  All, arith, ◌∙◌, if◌then◌else◌, sym, map,
}
use optimus_os.Base.Table.{Unique}
use optimus_os.Base.Result.{ok, ok_unique, guard, guard-eq-ok, >>=-eq-ok}
use optimus_os.Errors.{end_not_later, Conflict, past_time, technician_overlap, bay_overlap}
use optimus_os.Db.{Db}
use optimus_os.Db.Calendar.{Appointment, is_active, appointment_id}
use optimus_os.Auth.{AuthContext, effective_shop_id}
use optimus_os.Scheduling.{LocalTime, Slot, minutes}
use optimus_os.Scheduling.Conflicts.{
  technician_conflicts, bay_conflicts, bay_query, conflicts_of, no_conflicts, validate_slot,
  overlaps, is_other, same_bay, working_hours_conflict, technician_overlaps,
  schedule_block_conflicts,
}
use optimus_os.Scheduling.Appointments.{slot_of}
use optimus_os.Scheduling.Apart.{
  All-intro, Apart, All-impl, All-and, filter-none, append_nil, map_nil,
}
use optimus_os.Scheduling.Pad.{IsShort, is_booked, technician_conflicts_lem}

-- The technician of both is one and their times are within the larger buffer, or the bay is one and
-- their times overlap.
abbrev pub collide : Slot → Slot → Bool
collide s t =
    (s.technician_id == t.technician_id
      && overlaps (minutes (max s.travel_buffer_minutes t.travel_buffer_minutes)) s.start_time
          s.end_time t.start_time t.end_time)
    || (same_bay s.bay_id t.bay_id && (ltb t.start_time s.end_time && ltb s.start_time t.end_time))

-- Two active appointments of one shop that collide.
abbrev pub clash : Appointment → Appointment → Bool
clash a b =
    is_active a.status
    && (is_active b.status && (a.shop_id == b.shop_id && collide (slot_of a) (slot_of b)))

pub record IsSound (rows : List Appointment) : Type 0 where
  pub keys : Unique rows
  pub short : All IsShort rows
  pub apart : Apart clash rows

same_bay_sym : (a b : Option ℕ) → same_bay a b ≡ same_bay b a
same_bay_sym none none = refl
same_bay_sym none (some b) = refl
same_bay_sym (some a) none = refl
same_bay_sym (some a) (some b) = ground arith

overlaps_sym :
    (a b s e s' e' : ℕ)
    → overlaps (minutes (max a b)) s e s' e' ≡ overlaps (minutes (max b a)) s' e' s e
overlaps_sym a b s e s' e' = ground arith

swap_parts :
    (a a' b b' c c' d e : Bool)
    → a ≡ a'
    → b ≡ b'
    → c ≡ c'
    → (a && b || c && (d && e)) ≡ (a' && b' || c' && (e && d))
swap_parts a a' b b' c c' false false h k l = rw (h, k, l) refl
swap_parts a a' b b' c c' false true h k l = rw (h, k, l) refl
swap_parts a a' b b' c c' true false h k l = rw (h, k, l) refl
swap_parts a a' b b' c c' true true h k l = rw (h, k, l) refl

pub ==_sym : (a b : ℕ) → (a == b) ≡ (b == a)
==_sym a b = ground arith

pub collide_sym : (s t : Slot) → collide s t ≡ collide t s
collide_sym s t =
    swap_parts (s.technician_id == t.technician_id) (t.technician_id == s.technician_id)
      (overlaps (minutes (max s.travel_buffer_minutes t.travel_buffer_minutes)) s.start_time
        s.end_time t.start_time t.end_time)
      (overlaps (minutes (max t.travel_buffer_minutes s.travel_buffer_minutes)) t.start_time
        t.end_time s.start_time s.end_time)
      (same_bay s.bay_id t.bay_id) (same_bay t.bay_id s.bay_id) (ltb t.start_time s.end_time)
      (ltb s.start_time t.end_time) (==_sym s.technician_id t.technician_id)
      (overlaps_sym s.travel_buffer_minutes t.travel_buffer_minutes s.start_time s.end_time
        t.start_time t.end_time)
      (same_bay_sym s.bay_id t.bay_id)

swap_tests :
    (a b c c' d d' : Bool) → c ≡ c' → d ≡ d' → (a && (b && (c && d))) ≡ (b && (a && (c' && d')))
swap_tests false false c c' d d' h k = refl
swap_tests false true c c' d d' h k = refl
swap_tests true false c c' d d' h k = refl
swap_tests true true c c' d d' h k = rw (h, k) refl

pub clash_sym : (a b : Appointment) → clash a b ≡ clash b a
clash_sym a b =
    swap_tests (is_active a.status) (is_active b.status) (a.shop_id == b.shop_id)
      (b.shop_id == a.shop_id) (collide (slot_of a) (slot_of b)) (collide (slot_of b) (slot_of a))
      (==_sym a.shop_id b.shop_id) (collide_sym (slot_of a) (slot_of b))

no_conflicts-none : (cs : List Conflict) → no_conflicts cs ≡ ok tt → cs ≡ []
no_conflicts-none [] h = refl
no_conflicts-none (c ∷ cs) h = cc

pub record Accepted (auth : AuthContext) (s : Slot) (exclude : Option ℕ) (db : Db) : Type 0 where
  pub shop_id : ℕ
  pub shop : effective_shop_id db auth ≡ ok shop_id
  pub ordered : ltb s.start_time s.end_time ≡ true
  pub technician_free : technician_conflicts shop_id s exclude db.appointments ≡ []
  pub bay_free : bay_conflicts shop_id s.bay_id s exclude db.appointments ≡ []
  pub unblocked : schedule_block_conflicts shop_id s db.schedule_blocks ≡ []

conflicts_of-none :
    (local : ℕ → LocalTime) (now shop_id : ℕ) (s : Slot) (exclude : Option ℕ) (db : Db)
    → conflicts_of local now shop_id s exclude db ≡ []
    → (technician_conflicts shop_id s exclude db.appointments ≡ [])
      × (bay_conflicts shop_id s.bay_id s exclude db.appointments ≡ [])
      × (schedule_block_conflicts shop_id s db.schedule_blocks ≡ [])
unfolding conflicts_of
conflicts_of-none local now shop_id s exclude db h =
    let (e₁, h₁) = append_nil (if ltb s.start_time now then past_time ∷ [] else []) _ h in
    let (e₂, h₂) = append_nil (working_hours_conflict local shop_id s db.working_hours) _ h₁ in
    let (e₃, h₃) =
      append_nil
        (map (λ a. technician_overlap a.id)
          (technician_conflicts shop_id s exclude db.appointments))
        _ h₂ in
    let (e₄, h₄) =
      append_nil
        (map (λ a. bay_overlap a.id) (bay_conflicts shop_id s.bay_id s exclude db.appointments)) _
        h₃ in
    (map_nil _ _ e₃, map_nil _ _ e₄, map_nil _ _ h₄)

-- A slot that is accepted has no conflict.
pub validate_slot-Accepted :
    (local : ℕ → LocalTime) (now : ℕ) (auth : AuthContext) (s : Slot) (exclude : Option ℕ) (db : Db)
    → validate_slot local now auth s exclude db ≡ ok tt
    → Accepted auth s exclude db
unfolding validate_slot
validate_slot-Accepted local now auth s exclude db h =
    let (u, ordered, h₁) = >>=-eq-ok (guard (ltb s.start_time s.end_time) end_not_later) _ _ h in
    let (shop_id, shop, h₂) = >>=-eq-ok (effective_shop_id db auth) _ _ h₁ in
    let (technician_free, bay_free, unblocked) =
      conflicts_of-none local now shop_id s exclude db (no_conflicts-none _ h₂) in
    record {
      shop_id = shop_id;
      shop = shop;
      ordered = guard-eq-ok _ end_not_later ordered;
      technician_free = technician_free;
      bay_free = bay_free;
      unblocked = unblocked;
    }

and_false : (b : Bool) → (b && false) ≡ false
and_false true = refl
and_false false = refl

-- What the bay query leaves out does not overlap in the bay.
bay_conflicts-none :
    (shop_id : ℕ) (bay : Option ℕ) (s : Slot) (exclude : Option ℕ) (rows : List Appointment)
    → bay_conflicts shop_id bay s exclude rows ≡ []
    → All
        (λ a.
          (a.shop_id == shop_id
            && (same_bay bay a.bay_id
                && (is_active a.status
                    && (ltb a.start_time s.end_time
                        && (ltb s.start_time a.end_time && is_other exclude a)))))
          ≡ false)
        rows
unfolding bay_conflicts
bay_conflicts-none shop_id none s exclude rows h =
    All-intro _ rows (λ a. and_false (a.shop_id == shop_id))
bay_conflicts-none shop_id (some bay) s exclude rows h =
    filter-none (bay_query shop_id bay s exclude) rows h

clash_bits :
    (act act' sh t ov b d e o : Bool)
    → (sh && (t && (act && (ov && o)))) ≡ false
    → (sh && (b && (act && (d && (e && o))))) ≡ false
    → o ≡ true
    → (act && (act' && (sh && (t && ov || b && (d && e))))) ≡ false
clash_bits act act' sh t ov b d e o h k l = ground (arith, h, k, l)

-- One row that is neither a technician's nor a bay's conflict of a slot does not clash with a row
-- that takes the slot.
free_of_clash :
    (exclude : Option ℕ) (a r : Appointment)
    → is_booked r.shop_id (slot_of r) exclude a ≡ false
    → (a.shop_id == r.shop_id
        && (same_bay r.bay_id a.bay_id
            && (is_active a.status
                && (ltb a.start_time r.end_time
                    && (ltb r.start_time a.end_time && is_other exclude a)))))
      ≡ false
    → is_other exclude a ≡ true
    → clash a r ≡ false
free_of_clash exclude a r h k o = rw (collide_sym (slot_of a) (slot_of r)) (
    clash_bits (is_active a.status) (is_active r.status) (a.shop_id == r.shop_id)
      (r.technician_id == a.technician_id) (technician_overlaps (slot_of r) a)
      (same_bay r.bay_id a.bay_id) (ltb a.start_time r.end_time) (ltb r.start_time a.end_time)
      (is_other exclude a) (rw (==_sym r.technician_id a.technician_id) h) k o)

-- A row whose slot is accepted clashes with no other row of its shop.
pub accepted_apart :
    (auth : AuthContext) (exclude : Option ℕ) (db : Db) (r : Appointment)
    → IsShort r
    → All IsShort db.appointments
    → effective_shop_id db auth ≡ ok r.shop_id
    → Accepted auth (slot_of r) exclude db
    → All (λ a. is_other exclude a ≡ true → clash a r ≡ false) db.appointments
accepted_apart auth exclude db r short_r short in_shop s =
    let same : s.shop_id ≡ r.shop_id = ok_unique s.shop in_shop in
    let unbooked : All (λ a. is_booked s.shop_id (slot_of r) exclude a ≡ false) db.appointments =
      filter-none _ db.appointments (
        sym (technician_conflicts_lem s.shop_id (slot_of r) exclude db.appointments short_r short)
        ∙ s.technician_free) in
    let bay_open =
      bay_conflicts-none s.shop_id r.bay_id (slot_of r) exclude db.appointments s.bay_free in
    All-impl _ _ db.appointments
      (λ a h. free_of_clash exclude a r (rw (← same) h.0) (rw (← same) h.1))
      (All-and _ _ db.appointments unbooked bay_open)
