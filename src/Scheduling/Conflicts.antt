-- ===== src/Scheduling/Conflicts.antt =====
-- The conflict engine of app/scheduling_store.py, up to `_validate_slot`.
use optimus_os.Base.{
  ℕ, ◌+◌, Bool, true, false, List, [], ◌∷◌, ◌++◌, Option, none, some, any, filter, map, max, not,
  ◌&&◌, ◌||◌, ◌==◌, ltb, leb, is_none, is_some_eq, if◌then◌else◌,
}
use optimus_os.Base.Result.{ok, err, ◌>>=◌, ◌>>◌, guard}
use optimus_os.Errors.{
  Outcome, end_not_later, slot_unavailable, Conflict, past_time, another_day, outside_working_hours,
  technician_overlap, bay_overlap, schedule_block,
}
use optimus_os.Db.{Db}
use optimus_os.Db.Calendar.{Appointment, ScheduleBlock, WorkingHours, is_active}
use optimus_os.Auth.{AuthContext, effective_shop_id}
use optimus_os.Scheduling.{LocalTime, Slot, minutes}

-- `_CONFLICT_QUERY_PAD`
abbrev pub conflict_query_pad : ℕ
conflict_query_pad = minutes 480

-- `Appointment.id != exclude_appointment_id`, where one is given.
abbrev pub is_other : Option ℕ → Appointment → Bool
is_other none a = true
is_other (some key) a = not (a.id == key)

-- Two times within one another's reach, `not (b <= a' or b' <= a)`.
abbrev pub overlaps : ℕ → ℕ → ℕ → ℕ → ℕ → Bool
overlaps buffer start_time end_time other_start other_end =
    not (leb (other_end + buffer) start_time || leb (end_time + buffer) other_start)

-- The query of `_technician_conflicts`. A time less the pad is read by adding the pad to the other.
abbrev pub technician_query : ℕ → Slot → Option ℕ → Appointment → Bool
technician_query shop_id s exclude a =
    a.shop_id == shop_id
    && (a.technician_id == s.technician_id
        && (is_active a.status
            && (ltb a.start_time (s.end_time + conflict_query_pad)
                && (ltb s.start_time (a.end_time + conflict_query_pad) && is_other exclude a))))

abbrev pub technician_overlaps : Slot → Appointment → Bool
technician_overlaps s a =
    overlaps (minutes (max s.travel_buffer_minutes a.travel_buffer_minutes)) s.start_time s.end_time
      a.start_time a.end_time

unfoldable pub technician_conflicts : ℕ → Slot → Option ℕ → List Appointment → List Appointment
technician_conflicts shop_id s exclude rows =
    filter (technician_overlaps s) (filter (technician_query shop_id s exclude) rows)

abbrev pub bay_query : ℕ → ℕ → Slot → Option ℕ → Appointment → Bool
bay_query shop_id bay s exclude a =
    a.shop_id == shop_id
    && (is_some_eq a.bay_id bay
        && (is_active a.status
            && (ltb a.start_time s.end_time
                && (ltb s.start_time a.end_time && is_other exclude a))))

-- `_bay_conflicts`, of the bay that is asked for.
unfoldable pub bay_conflicts : ℕ → Option ℕ → Slot → Option ℕ → List Appointment → List Appointment
bay_conflicts shop_id none s exclude rows = []
bay_conflicts shop_id (some bay) s exclude rows = filter (bay_query shop_id bay s exclude) rows

-- Both `None`, or both the same bay.
abbrev pub same_bay : Option ℕ → Option ℕ → Bool
same_bay none b = false
same_bay (some n) b = is_some_eq b n

unfoldable pub schedule_block_applies : Slot → ScheduleBlock → Bool
schedule_block_applies s b =
    if is_some_eq b.technician_id s.technician_id
    then true
    else if same_bay b.bay_id s.bay_id
    then true
    else is_none b.technician_id && is_none b.bay_id

unfoldable pub schedule_block_conflicts : ℕ → Slot → List ScheduleBlock → List ScheduleBlock
schedule_block_conflicts shop_id s blocks = filter (schedule_block_applies s) (
    filter
      (λ b. b.shop_id == shop_id && (ltb b.start_time s.end_time && ltb s.start_time b.end_time))
      blocks)

-- `_working_hours_conflict`: no conflict for a technician without working hours.
abbrev pub is_window : LocalTime → LocalTime → WorkingHours → Bool
is_window from until h =
    h.day_of_week == from.weekday
    && (leb h.start_minute from.minute && leb until.minute h.end_minute)

unfoldable pub working_hours_conflict :
    (ℕ → LocalTime) → ℕ → Slot → List WorkingHours → List Conflict
working_hours_conflict local shop_id s hours =
    let own : List WorkingHours =
      filter (λ h. h.shop_id == shop_id && h.technician_id == s.technician_id) hours in
    if not (any (λ h. true) own)
    then []
    else if not ((local s.start_time).date == (local s.end_time).date)
    then another_day ∷ []
    else if any (is_window (local s.start_time) (local s.end_time)) own
    then []
    else outside_working_hours ∷ []

-- All conflicts of a slot, in the order of the response. `now` is the clock.
unfoldable pub conflicts_of : (ℕ → LocalTime) → ℕ → ℕ → Slot → Option ℕ → Db → List Conflict
conflicts_of local now shop_id s exclude db =
    (if ltb s.start_time now then past_time ∷ [] else [])
    ++ (working_hours_conflict local shop_id s db.working_hours
        ++ (map (λ a. technician_overlap a.id)
              (technician_conflicts shop_id s exclude db.appointments)
            ++ (map (λ a. bay_overlap a.id)
                  (bay_conflicts shop_id s.bay_id s exclude db.appointments)
                ++ map (λ b. schedule_block b.id b.reason)
                    (schedule_block_conflicts shop_id s db.schedule_blocks))))

abbrev pub no_conflicts : List Conflict → Outcome (Unit {0})
no_conflicts [] = ok tt
no_conflicts (c ∷ cs) = err (slot_unavailable (c ∷ cs))

unfoldable pub validate_slot :
    (ℕ → LocalTime) → ℕ → AuthContext → Slot → Option ℕ → Db → Outcome (Unit {0})
validate_slot local now auth s exclude db = do
  guard (ltb s.start_time s.end_time) end_not_later
  shop_id ← effective_shop_id db auth
  no_conflicts (conflicts_of local now shop_id s exclude db)
