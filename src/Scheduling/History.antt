-- ===== src/Scheduling/History.antt =====
-- Every history of requests on appointments, in any order and by any users, keeps the calendar free
-- of double bookings.
use optimus_os.Base.{ℕ, String, ◌≡◌, none, true, false, leb}
use optimus_os.Base.Table.{get}
use optimus_os.Base.Result.{ok, transaction_keeps}
use optimus_os.Db.{Db}
use optimus_os.Db.Calendar.{Appointment, appointment_id}
use optimus_os.Auth.{AuthContext}
use optimus_os.Scheduling.{LocalTime}
use optimus_os.Scheduling.Appointments.{
  AppointmentCreate, AppointmentUpdate, AppointmentMoveRequest, get_appointment, create_work,
  create_appointment, update_work, update_appointment, move_work, move_appointment, cancel_work,
  cancel_appointment, to_read,
}
use optimus_os.Scheduling.Booking.{IsSound}
use optimus_os.Scheduling.Keeps.{
  is_short, reactivates, create_work-IsSound, update_work-IsSound, move_work-IsSound,
  cancel_work-IsSound,
}

-- One request at one time, with buffers that the schemas let through. A new row gets a new key.
pub data Step (local : ℕ → LocalTime) : Db → Db → Type 0 where
  created :
      (now : ℕ) (auth : AuthContext) (new_id : ℕ) (payload : AppointmentCreate) {db : Db}
      → leb payload.slot.travel_buffer_minutes 480 ≡ true
      → get new_id db.appointments ≡ none
      → Step local db (create_appointment local now auth new_id payload db).1
  updated :
      (now : ℕ) (auth : AuthContext) (key : ℕ) (payload : AppointmentUpdate) {db : Db}
      → is_short payload.travel_buffer_minutes ≡ true
      → ((a : Appointment) → get_appointment db auth key ≡ ok a → reactivates payload a ≡ false)
      → Step local db (update_appointment local now auth key payload db).1
  moved_to :
      (now : ℕ) (auth : AuthContext) (key : ℕ) (payload : AppointmentMoveRequest) {db : Db}
      → is_short payload.travel_buffer_minutes ≡ true
      → Step local db (move_appointment local now auth key payload db).1
  called_off :
      (now : ℕ) (auth : AuthContext) (key : ℕ) (reason : String) {db : Db}
      → Step local db (cancel_appointment auth key reason now db).1

infixl 5 ◌then◌
pub data History (local : ℕ → LocalTime) (start : Db) : Db → Type 0 where
  begin : History local start start
  ◌then◌ : {db db' : Db} → History local start db → Step local db db' → History local start db'

Step-IsSound :
    (local : ℕ → LocalTime) (db db' : Db)
    → Step local db db'
    → IsSound db.appointments
    → IsSound db'.appointments
unfolding create_appointment update_appointment move_appointment cancel_appointment
Step-IsSound local db _ (created now auth new_id payload short fresh) sound =
    transaction_keeps (λ d. IsSound d.appointments) (create_work local now auth new_id payload)
      to_read db sound
      (λ a d. create_work-IsSound local now auth new_id payload db a d short fresh sound)
Step-IsSound local db _ (updated now auth key payload short stays) sound =
    transaction_keeps (λ d. IsSound d.appointments) (update_work local now auth key payload) to_read
      db sound (λ a d. update_work-IsSound local now auth key payload db a d short stays sound)
Step-IsSound local db _ (moved_to now auth key payload short) sound =
    transaction_keeps (λ d. IsSound d.appointments) (move_work local now auth key payload) to_read
      db sound (λ a d. move_work-IsSound local now auth key payload db a d short sound)
Step-IsSound local db _ (called_off now auth key reason) sound =
    transaction_keeps (λ d. IsSound d.appointments) (cancel_work auth key reason now) to_read db
      sound (λ a d. cancel_work-IsSound auth key reason now db a d sound)

-- From a table without double bookings, every history of creations, updates, moves and
-- cancellations, refused ones included, ends in one: keys are unique, buffers at most eight hours,
-- and no two active appointments of a shop share a technician within the larger of their buffers,
-- or share a bay at the same time. Buffers are asked to be at most eight hours, new keys to be
-- new, and an update not to make an inactive appointment active with its slot as it was.
pub History-IsSound :
    (local : ℕ → LocalTime) (start db : Db)
    → History local start db
    → IsSound start.appointments
    → IsSound db.appointments
History-IsSound local start _ begin sound = sound
History-IsSound local start _ (h then s) sound =
    Step-IsSound local _ _ s (History-IsSound local start _ h sound)
