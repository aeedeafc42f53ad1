-- ===== src/Scheduling/Appointments.antt =====
-- The operations on appointments of app/scheduling_store.py. `local` stands for the conversion to
-- the shop's clock, `now` is the clock in UTC. Of an update, a field is `none` when the request
-- does not send it, or sends null where the code treats null in the same way.
use optimus_os.Base.{
  ℕ, String, Bool, true, false, [], ◌∷◌, ◌++◌, Option, none, some, ◌==◌, ◌&&◌, not, or_else,
}
use optimus_os.Base.Table.{scalar, save}
use optimus_os.Base.Result.{ok, ◌>>=◌, ◌>>◌, guard, require, transaction, unless}
use optimus_os.Errors.{
  Outcome, appointment_not_found, canceled_not_editable, canceled_not_movable, already_canceled,
  completed_not_cancelable,
}
use optimus_os.Db.{Db}
use optimus_os.Db.Calendar.{
  Appointment, AppointmentStatus, ServiceLocation, tentative, confirmed, in_progress, completed,
  canceled, no_show, appointment_id,
}
use optimus_os.Auth.{AuthContext, effective_shop_id, effective_shop_owner_id, resolve_shop_id}
use optimus_os.Scheduling.{
  LocalTime, Slot, validate_customer, validate_vehicle, validate_technician, validate_bay,
  validate_work_order,
}
use optimus_os.Scheduling.Conflicts.{validate_slot}

-- The statuses an appointment may be created with, and those an update may set.
pub data NewStatus : Type 0 where
  new_tentative new_confirmed : NewStatus

pub data SetStatus : Type 0 where
  set_tentative set_confirmed set_in_progress set_completed set_no_show : SetStatus

abbrev pub new_value : NewStatus → AppointmentStatus
new_value new_tentative = tentative
new_value new_confirmed = confirmed

abbrev pub set_value : SetStatus → AppointmentStatus
set_value set_tentative = tentative
set_value set_confirmed = confirmed
set_value set_in_progress = in_progress
set_value set_completed = completed
set_value set_no_show = no_show

pub record AppointmentCreate : Type 0 where
  pub customer_id : ℕ
  pub vehicle_id : ℕ
  pub work_order_id : Option ℕ
  pub service_type : String
  pub service_location : ServiceLocation
  pub slot : Slot
  pub status : NewStatus
  pub customer_notes : Option String
  pub internal_notes : Option String

pub record AppointmentUpdate : Type 0 where
  pub customer_id : Option ℕ
  pub vehicle_id : Option ℕ
  pub work_order_id : Option (Option ℕ)
  pub technician_id : Option ℕ
  pub bay_id : Option (Option ℕ)
  pub service_type : Option String
  pub service_location : Option ServiceLocation
  pub start_time : Option ℕ
  pub end_time : Option ℕ
  pub travel_buffer_minutes : Option ℕ
  pub status : Option SetStatus
  pub customer_notes : Option (Option String)
  pub internal_notes : Option (Option String)

pub record AppointmentMoveRequest : Type 0 where
  pub start_time : ℕ
  pub end_time : ℕ
  pub technician_id : Option ℕ
  pub bay_id : Option ℕ
  pub travel_buffer_minutes : Option ℕ

pub record AppointmentRead : Type 0 where
  pub appointment : Appointment
  pub bay_name : Option String

abbrev pub is_canceled : AppointmentStatus → Bool
is_canceled canceled = true
is_canceled _ = false

abbrev pub is_completed : AppointmentStatus → Bool
is_completed completed = true
is_completed _ = false

abbrev pub equal_option : Option ℕ → Option ℕ → Bool
equal_option none none = true
equal_option (some a) (some b) = a == b
equal_option _ _ = false

abbrev pub slot_of : Appointment → Slot
slot_of a = record {
  technician_id = a.technician_id;
  bay_id = a.bay_id;
  start_time = a.start_time;
  end_time = a.end_time;
  travel_buffer_minutes = a.travel_buffer_minutes;
}

abbrev pub same_slot : Slot → Slot → Bool
same_slot s t =
    s.technician_id == t.technician_id
    && (equal_option s.bay_id t.bay_id
        && (s.start_time == t.start_time
            && (s.end_time == t.end_time && s.travel_buffer_minutes == t.travel_buffer_minutes)))

unfoldable pub get_appointment : Db → AuthContext → ℕ → Outcome Appointment
get_appointment db auth key = do
  shop_id ← effective_shop_id db auth
  require (scalar (λ a. a.shop_id == shop_id && a.id == key) db.appointments) appointment_not_found

abbrev name_of_bay : Db → Appointment → Option ℕ → Option String
name_of_bay db a none = none
name_of_bay db a (some key) = elim (scalar (λ b. b.id == key && b.shop_id == a.shop_id) db.bays) [
  | none ↦ none
  | some b ↦ some b.name
]

unfoldable pub to_read : Appointment → Db → Outcome AppointmentRead
to_read a db = ok (record { appointment = a; bay_name = name_of_bay db a a.bay_id })

-- The row that is added.
unfoldable pub new_appointment : ℕ → ℕ → ℕ → AppointmentCreate → Appointment
new_appointment new_id owner_user_id shop_id payload = record {
  id = new_id;
  owner_user_id = owner_user_id;
  shop_id = shop_id;
  customer_id = payload.customer_id;
  vehicle_id = payload.vehicle_id;
  work_order_id = payload.work_order_id;
  technician_id = payload.slot.technician_id;
  bay_id = payload.slot.bay_id;
  service_type = payload.service_type;
  service_location = payload.service_location;
  start_time = payload.slot.start_time;
  end_time = payload.slot.end_time;
  travel_buffer_minutes = payload.slot.travel_buffer_minutes;
  status = new_value payload.status;
  customer_notes = payload.customer_notes;
  internal_notes = payload.internal_notes;
  canceled_at = none;
  cancellation_reason = none;
}

unfoldable pub create_work :
    (ℕ → LocalTime) → ℕ → AuthContext → ℕ → AppointmentCreate → Db → Outcome (Appointment × Db)
create_work local now auth new_id payload db = do
  validate_customer db auth payload.customer_id
  validate_vehicle db auth payload.vehicle_id payload.customer_id
  validate_technician db auth payload.slot.technician_id
  validate_bay db auth payload.slot.bay_id
  validate_work_order db auth payload.work_order_id
  validate_slot local now auth payload.slot none db
  owner_user_id ← effective_shop_owner_id db auth
  shop_id ← resolve_shop_id db auth
  let a : Appointment = new_appointment new_id owner_user_id shop_id payload
  ok (a, record db { appointments = db.appointments ++ a ∷ [] })

unfoldable pub create_appointment :
    (ℕ → LocalTime) → ℕ → AuthContext → ℕ → AppointmentCreate → Db → Outcome AppointmentRead × Db
create_appointment local now auth new_id payload =
    transaction (create_work local now auth new_id payload) to_read

-- The row after an update.
unfoldable pub edited : AppointmentUpdate → Appointment → Appointment
edited payload a = record a {
  customer_id = or_else payload.customer_id a.customer_id;
  vehicle_id = or_else payload.vehicle_id a.vehicle_id;
  technician_id = or_else payload.technician_id a.technician_id;
  bay_id = or_else payload.bay_id a.bay_id;
  start_time = or_else payload.start_time a.start_time;
  end_time = or_else payload.end_time a.end_time;
  travel_buffer_minutes = or_else payload.travel_buffer_minutes a.travel_buffer_minutes;
  work_order_id = or_else payload.work_order_id a.work_order_id;
  service_type = or_else payload.service_type a.service_type;
  service_location = or_else payload.service_location a.service_location;
  status = elim payload.status [ none ↦ a.status | some s ↦ set_value s ];
  customer_notes = or_else payload.customer_notes a.customer_notes;
  internal_notes = or_else payload.internal_notes a.internal_notes;
}

-- The checks on what an update changes, but for the slot.
unfoldable pub validate_links :
    Db → AuthContext → Option (Option ℕ) → Appointment → Appointment → Outcome (Unit {0})
validate_links db auth sent a a' = do
  unless (a'.customer_id == a.customer_id) (validate_customer db auth a'.customer_id)
  unless (a'.vehicle_id == a.vehicle_id && a'.customer_id == a.customer_id)
      (validate_vehicle db auth a'.vehicle_id a'.customer_id)
  unless (a'.technician_id == a.technician_id) (validate_technician db auth a'.technician_id)
  unless (equal_option a'.bay_id a.bay_id) (validate_bay db auth a'.bay_id)
  elim sent [ none ↦ ok tt | some key ↦ validate_work_order db auth key ]

unfoldable pub update_work :
    (ℕ → LocalTime) → ℕ → AuthContext → ℕ → AppointmentUpdate → Db → Outcome (Appointment × Db)
update_work local now auth key payload db = do
  a ← get_appointment db auth key
  guard (not (is_canceled a.status)) canceled_not_editable
  let a' : Appointment = edited payload a
  validate_links db auth payload.work_order_id a a'
  unless (same_slot (slot_of a') (slot_of a))
      (validate_slot local now auth (slot_of a') (some a.id) db)
  ok (a', record db { appointments = save a' db.appointments })

unfoldable pub update_appointment :
    (ℕ → LocalTime) → ℕ → AuthContext → ℕ → AppointmentUpdate → Db → Outcome AppointmentRead × Db
update_appointment local now auth key payload =
    transaction (update_work local now auth key payload) to_read

-- The bay that is asked for, or the old one: a move cannot take the bay away.
abbrev pub moved_bay : Option ℕ → Option ℕ → Option ℕ
moved_bay none old = old
moved_bay (some key) old = some key

unfoldable pub moved : AppointmentMoveRequest → Appointment → Appointment
moved payload a = record a {
  technician_id = or_else payload.technician_id a.technician_id;
  bay_id = moved_bay payload.bay_id a.bay_id;
  start_time = payload.start_time;
  end_time = payload.end_time;
  travel_buffer_minutes = or_else payload.travel_buffer_minutes a.travel_buffer_minutes;
}

unfoldable pub move_work :
    (ℕ → LocalTime) → ℕ → AuthContext → ℕ → AppointmentMoveRequest → Db → Outcome (Appointment × Db)
move_work local now auth key payload db = do
  a ← get_appointment db auth key
  guard (not (is_canceled a.status)) canceled_not_movable
  let a' : Appointment = moved payload a
  unless (a'.technician_id == a.technician_id) (validate_technician db auth a'.technician_id)
  unless (equal_option a'.bay_id a.bay_id) (validate_bay db auth a'.bay_id)
  validate_slot local now auth (slot_of a') (some a.id) db
  ok (a', record db { appointments = save a' db.appointments })

unfoldable pub move_appointment :
    (ℕ → LocalTime)
    → ℕ
    → AuthContext
    → ℕ
    → AppointmentMoveRequest
    → Db
    → Outcome AppointmentRead × Db
move_appointment local now auth key payload =
    transaction (move_work local now auth key payload) to_read

unfoldable pub cancel_work : AuthContext → ℕ → String → ℕ → Db → Outcome (Appointment × Db)
cancel_work auth key reason now db = do
  a ← get_appointment db auth key
  guard (not (is_canceled a.status)) already_canceled
  guard (not (is_completed a.status)) completed_not_cancelable
  let a' : Appointment = record a {
    status = canceled;
    canceled_at = some now;
    cancellation_reason = some reason;
  }
  ok (a', record db { appointments = save a' db.appointments })

unfoldable pub cancel_appointment : AuthContext → ℕ → String → ℕ → Db → Outcome AppointmentRead × Db
cancel_appointment auth key reason now = transaction (cancel_work auth key reason now) to_read
