-- ===== src/Tests/Scheduling.antt =====
-- The theorems on the calendar of one shop: an hour that is booked, and one that is free.
use optimus_os.Base.{
  ℕ, ◌+◌, ◌*◌, ◌≡◌, refl, true, false, List, [], ◌∷◌, none, some, filter, All, ◌++◌,
}
use optimus_os.Base.Result.{Result, ok, err}
use optimus_os.Errors.{Error}
use optimus_os.Db.{Db}
use optimus_os.Db.Calendar.{
  Appointment, AppointmentStatus, ScheduleBlock, confirmed, completed, shop,
}
use optimus_os.Auth.{effective_shop_id, effective_shop_owner_id, resolve_shop_id}
use optimus_os.Scheduling.{
  LocalTime, Slot, minutes, validate_customer, validate_vehicle, validate_technician, validate_bay,
  validate_work_order,
}
use optimus_os.Scheduling.Conflicts.{
  technician_conflicts, conflicts_of, validate_slot, bay_conflicts, working_hours_conflict,
  schedule_block_conflicts, schedule_block_applies,
}
use optimus_os.Scheduling.Appointments.{
  AppointmentCreate, AppointmentMoveRequest, get_appointment, create_work, create_appointment,
  cancel_work, cancel_appointment, move_appointment, update_work, new_confirmed, new_appointment,
}
use optimus_os.Scheduling.Blocks.{ScheduleBlockCreate, create_block_work, validate_target}
use optimus_os.Scheduling.Free.{Possible, create_work-free}
use optimus_os.Scheduling.Closed.{create_work-closed}
use optimus_os.Scheduling.Release.{cancel_work-conflicts_of}
use optimus_os.Scheduling.Apart.{Apart}
use optimus_os.Scheduling.Pad.{technician_conflicts_lem, is_booked}
use optimus_os.Scheduling.Booking.{IsSound, clash}
use optimus_os.Scheduling.History.{History-IsSound, begin, ◌then◌, created, moved_to, called_off}
use optimus_os.Scheduling.Reactivation.{update_work-double_books, confirm_only}
use optimus_os.Tests.{as_owner, as_manager, allocation, shop_with, value_or}

abbrev clock : ℕ → LocalTime
clock t = record { date = 0; minute = 0; weekday = 0 }

abbrev hour : ℕ → Slot
hour n = record {
  technician_id = 4;
  bay_id = some 1;
  start_time = minutes (n * 60);
  end_time = minutes (n * 60 + 60);
  travel_buffer_minutes = 15;
}

abbrev booked : ℕ → ℕ → AppointmentStatus → Appointment
booked key n status = record {
  id = key;
  owner_user_id = 1;
  shop_id = 1;
  customer_id = 1;
  vehicle_id = 1;
  work_order_id = none;
  technician_id = 4;
  bay_id = some 1;
  service_type = "Brakes";
  service_location = shop;
  start_time = minutes (n * 60);
  end_time = minutes (n * 60 + 60);
  travel_buffer_minutes = 15;
  status = status;
  customer_notes = none;
  internal_notes = none;
  canceled_at = none;
  cancellation_reason = none;
}

abbrev with_rows : List Appointment → Db
with_rows rows = record (shop_with (allocation 0 0 0)) {
  customers = record { id = 1; shop_id = 1 } ∷ [];
  vehicles = record { id = 1; shop_id = 1; customer_id = 1 } ∷ [];
  bays = record { id = 1; shop_id = 1; name = "A"; notes = none; is_archived = false } ∷ [];
  appointments = rows;
}

-- One appointment at the second hour.
abbrev day : Db
day = with_rows (booked 1 2 confirmed ∷ [])

day-IsSound : IsSound day.appointments
day-IsSound = record { keys = (refl, tt); short = (refl, tt); apart = (tt, tt) }

abbrev asking : ℕ → AppointmentCreate
asking n = record {
  customer_id = 1;
  vehicle_id = 1;
  work_order_id = none;
  service_type = "Oil";
  service_location = shop;
  slot = hour n;
  status = new_confirmed;
  customer_notes = none;
  internal_notes = none;
}

abbrev creating : ℕ → Result Error (Appointment × Db)
unfolding create_work
creating n = create_work clock 0 as_owner 2 (asking n) day

-- The fourth hour is free, the third is not, by the buffer.
creating-fourth : value_or (booked 9 9 completed, day) (creating 4) ≡ (
  record (booked 2 4 confirmed) { service_type = "Oil" },
  with_rows (booked 1 2 confirmed ∷ record (booked 2 4 confirmed) { service_type = "Oil" } ∷ []),
)
unfolding creating create_work validate_customer validate_vehicle validate_technician validate_bay
    validate_work_order validate_slot conflicts_of technician_conflicts bay_conflicts
    working_hours_conflict schedule_block_conflicts effective_shop_id effective_shop_owner_id
    resolve_shop_id new_appointment
creating-fourth = refl

creating-third : value_or (booked 9 9 completed, day) (creating 3) ≡ (booked 9 9 completed, day)
unfolding creating create_work validate_customer validate_vehicle validate_technician validate_bay
    validate_work_order validate_slot conflicts_of technician_conflicts bay_conflicts
    working_hours_conflict schedule_block_conflicts effective_shop_id effective_shop_owner_id
    resolve_shop_id new_appointment
creating-third = refl

abbrev move : AppointmentMoveRequest
move = record {
  start_time = minutes 600;
  end_time = minutes 660;
  technician_id = none;
  bay_id = none;
  travel_buffer_minutes = some 30;
}

abbrev after_all : Db
unfolding create_appointment move_appointment cancel_appointment
after_all =
    (cancel_appointment as_owner 1 "No" 5
      (move_appointment clock 2 as_manager 2 move
        (create_appointment clock 1 as_owner 2 (asking 4) day).1).1).1

History-IsSound_example : IsSound after_all.appointments
unfolding after_all
History-IsSound_example =
    History-IsSound clock day after_all
      (begin
        then created 1 as_owner 2 (asking 4) refl refl
        then moved_to 2 as_manager 2 move refl
        then called_off 5 as_owner 1 "No")
      day-IsSound

technician_conflicts_lem_example :
    technician_conflicts 1 (hour 3) none day.appointments
    ≡ filter (is_booked 1 (hour 3) none) day.appointments
technician_conflicts_lem_example =
    technician_conflicts_lem 1 (hour 3) none day.appointments refl (refl, tt)

abbrev canceling : Appointment × Db
unfolding cancel_work get_appointment effective_shop_id
canceling = value_or (booked 9 9 completed, day) (cancel_work as_owner 1 "No" 5 day)

canceling-eq-ok : cancel_work as_owner 1 "No" 5 day ≡ ok canceling
unfolding canceling cancel_work get_appointment effective_shop_id
canceling-eq-ok = refl

cancel_work-conflicts_of_example :
    conflicts_of clock 7 1 (hour 2) none canceling.1 ≡ conflicts_of clock 7 1 (hour 2) (some 1) day
cancel_work-conflicts_of_example =
    cancel_work-conflicts_of clock as_owner 1 "No" 5 7 1 (hour 2) day canceling.0 canceling.1
      (refl, tt) canceling-eq-ok

-- The bay is closed from the fourth hour to the sixth.
abbrev closing : ScheduleBlockCreate
closing = record {
  technician_id = none;
  bay_id = some 1;
  start_time = minutes 240;
  end_time = minutes 360;
  reason = "Floor";
  notes = none;
}

abbrev no_block : ScheduleBlock
no_block = record {
  id = 0;
  shop_id = 0;
  technician_id = none;
  bay_id = none;
  start_time = 0;
  end_time = 0;
  reason = "";
  notes = none;
}

abbrev closed : ScheduleBlock × Db
unfolding create_block_work validate_target validate_bay effective_shop_id effective_shop_owner_id
    resolve_shop_id
closed = value_or (no_block, day) (create_block_work as_owner 6 closing day)

closed-eq-ok : create_block_work as_owner 6 closing day ≡ ok closed
unfolding closed create_block_work validate_target validate_bay effective_shop_id
    effective_shop_owner_id resolve_shop_id
closed-eq-ok = refl

manager_of_closed : effective_shop_id closed.1 as_manager ≡ ok closed.0.shop_id
unfolding closed create_block_work validate_target validate_bay effective_shop_id
    effective_shop_owner_id resolve_shop_id
manager_of_closed = refl

closing_applies : schedule_block_applies (hour 5) closed.0 ≡ true
unfolding closed create_block_work validate_target validate_bay effective_shop_id
    effective_shop_owner_id resolve_shop_id schedule_block_applies
closing_applies = refl

create_work-closed_example :
    (e : Error) × (create_work clock 8 as_manager 3 (asking 5) closed.1 ≡ err e)
create_work-closed_example =
    create_work-closed clock 8 as_owner as_manager 6 3 closing (asking 5) day closed.0 closed.1
      closed-eq-ok manager_of_closed refl closing_applies

-- The appointment with key 3 is completed, and its hour was given to the one with key 4.
abbrev given_away : Db
given_away = with_rows (booked 3 2 completed ∷ booked 4 2 confirmed ∷ [])

completed_found : get_appointment given_away as_owner 3 ≡ ok (booked 3 2 completed)
unfolding get_appointment effective_shop_id
completed_found = refl

update_work-double_books_example :
    (a' : Appointment) × (db' : Db) × (update_work clock 9 as_owner 3 confirm_only given_away
      ≡ ok (a', db'))
    × (Apart clash db'.appointments → ⊥)
update_work-double_books_example =
    update_work-double_books clock 9 as_owner 3 given_away (booked 3 2 completed)
      (booked 4 2 confirmed) (refl, (refl, tt)) completed_found refl refl refl refl refl refl

owner_of_day : effective_shop_owner_id day as_owner ≡ ok 1
unfolding effective_shop_owner_id effective_shop_id
owner_of_day = refl

shop_of_day : effective_shop_id day as_owner ≡ ok 1
unfolding effective_shop_id
shop_of_day = refl

fourth-Possible : Possible clock 0 as_owner (asking 4) day 1
unfolding validate_customer validate_vehicle validate_technician validate_bay validate_work_order
    effective_shop_id working_hours_conflict schedule_block_conflicts
fourth-Possible = record {
  customer = refl;
  vehicle = refl;
  technician = refl;
  bay = refl;
  work_order = refl;
  ordered = refl;
  later = refl;
  hours = refl;
  unblocked = refl;
}

fourth_free : All (λ a. clash a (new_appointment 2 1 1 (asking 4)) ≡ false) day.appointments
unfolding new_appointment
fourth_free = (refl, tt)

create_work-free_example :
    create_work clock 0 as_owner 2 (asking 4) day
    ≡ ok (
      new_appointment 2 1 1 (asking 4),
      record day { appointments = day.appointments ++ new_appointment 2 1 1 (asking 4) ∷ [] },
    )
create_work-free_example =
    create_work-free clock 0 as_owner 2 1 1 (asking 4) day owner_of_day shop_of_day fourth-Possible
      refl (refl, tt) fourth_free
