-- ===== src/Db/Calendar.antt =====
-- The tables of app/db_models.py about scheduling: customers, vehicles, bays, working_hours,
-- schedule_blocks, appointments. An instant is a number of microseconds in UTC.
use optimus_os.Base.{ℕ, String, Bool, Option, true, false}
use optimus_os.Base.Table.{HasId}

pub record Customer : Type 0 where
  pub id : ℕ
  pub shop_id : ℕ

pub record Vehicle : Type 0 where
  pub id : ℕ
  pub shop_id : ℕ
  pub customer_id : ℕ

pub record Bay : Type 0 where
  pub id : ℕ
  pub shop_id : ℕ
  pub name : String
  pub notes : Option String
  pub is_archived : Bool

pub record WorkingHours : Type 0 where
  pub id : ℕ
  pub shop_id : ℕ
  pub technician_id : ℕ
  pub day_of_week : ℕ
  pub start_minute : ℕ
  pub end_minute : ℕ

pub record ScheduleBlock : Type 0 where
  pub id : ℕ
  pub shop_id : ℕ
  pub technician_id : Option ℕ
  pub bay_id : Option ℕ
  pub start_time : ℕ
  pub end_time : ℕ
  pub reason : String
  pub notes : Option String

pub data AppointmentStatus : Type 0 where
  tentative confirmed in_progress completed canceled no_show : AppointmentStatus

-- `_ACTIVE_STATUSES`
abbrev pub is_active : AppointmentStatus → Bool
is_active tentative = true
is_active confirmed = true
is_active in_progress = true
is_active _ = false

pub data ServiceLocation : Type 0 where
  shop mobile : ServiceLocation

pub record Appointment : Type 0 where
  pub id : ℕ
  pub owner_user_id : ℕ
  pub shop_id : ℕ
  pub customer_id : ℕ
  pub vehicle_id : ℕ
  pub work_order_id : Option ℕ
  pub technician_id : ℕ
  pub bay_id : Option ℕ
  pub service_type : String
  pub service_location : ServiceLocation
  pub start_time : ℕ
  pub end_time : ℕ
  pub travel_buffer_minutes : ℕ
  pub status : AppointmentStatus
  pub customer_notes : Option String
  pub internal_notes : Option String
  pub canceled_at : Option ℕ
  pub cancellation_reason : Option String

instance abbrev pub customer_id : HasId Customer
customer_id = record { id = λ r. r.id }

instance abbrev pub vehicle_id : HasId Vehicle
vehicle_id = record { id = λ r. r.id }

instance abbrev pub bay_id : HasId Bay
bay_id = record { id = λ r. r.id }

instance abbrev pub hours_id : HasId WorkingHours
hours_id = record { id = λ r. r.id }

instance abbrev pub block_id : HasId ScheduleBlock
block_id = record { id = λ r. r.id }

instance abbrev pub appointment_id : HasId Appointment
appointment_id = record { id = λ r. r.id }
