-- ===== src/Scheduling/Reactivation.antt =====
-- `update_appointment` checks a slot only when it changes: an appointment that was completed or
-- missed becomes active again on a slot that was given away meanwhile.
use optimus_os.Base.{
  ℕ, ◌≡◌, refl, true, false, none, some, arith, ◌∙◌, ◌==◌, ◌&&◌, ==_refl, ==_ne, List, Bool, Option,
}
use optimus_os.Base.Table.{get, save, Unique, get-save_self, get-save_ne, All-scalar}
use optimus_os.Base.Result.{ok}
use optimus_os.Db.{Db}
use optimus_os.Db.Calendar.{Appointment, appointment_id, is_active, confirmed}
use optimus_os.Auth.{AuthContext}
use optimus_os.Scheduling.{LocalTime}
use optimus_os.Scheduling.Appointments.{
  AppointmentUpdate, get_appointment, edited, update_work, validate_links, is_canceled, slot_of,
  same_slot, set_confirmed, equal_option,
}
use optimus_os.Scheduling.Apart.{Apart, Apart-get}
use optimus_os.Scheduling.Booking.{clash, clash_sym, collide}
use optimus_os.Scheduling.Steps.{Found, get_appointment-Found}

-- A request that sends nothing but the status.
abbrev pub confirm_only : AppointmentUpdate
confirm_only = record {
  customer_id = none;
  vehicle_id = none;
  work_order_id = none;
  technician_id = none;
  bay_id = none;
  service_type = none;
  service_location = none;
  start_time = none;
  end_time = none;
  travel_buffer_minutes = none;
  status = some set_confirmed;
  customer_notes = none;
  internal_notes = none;
}

equal_option_refl : (o : Option ℕ) → equal_option o o ≡ true
equal_option_refl none = refl
equal_option_refl (some n) = ==_refl n

same_slot_refl : (a : Appointment) → same_slot (slot_of a) (slot_of a) ≡ true
same_slot_refl a = ground (arith, equal_option_refl a.bay_id)

abbrev pub reopened : Appointment → Appointment
reopened a = record a { status = confirmed }

update_work-confirm_only :
    (local : ℕ → LocalTime) (now : ℕ) (auth : AuthContext) (key : ℕ) (db : Db) (a : Appointment)
    → get_appointment db auth key ≡ ok a
    → is_canceled a.status ≡ false
    → update_work local now auth key confirm_only db
      ≡ ok (reopened a, record db { appointments = save (reopened a) db.appointments })
unfolding update_work edited validate_links
update_work-confirm_only local now auth key db a h kept =
    rw
      (
        h,
        kept,
        ==_refl a.customer_id,
        ==_refl a.vehicle_id,
        ==_refl a.technician_id,
        equal_option_refl a.bay_id,
        ==_refl a.start_time,
        ==_refl a.end_time,
        ==_refl a.travel_buffer_minutes,
      )
      refl

hits : (x y z : Bool) → x ≡ true → y ≡ true → z ≡ true → (x && (true && (y && z))) ≡ false → ⊥
hits x y z h k l m = ground (arith, h, k, l, m)

-- An appointment that is not canceled, and an active one of the same shop with another key whose
-- slot collides with its slot: a request that sets the first to confirmed and sends nothing else
-- succeeds, and two active appointments of the table clash, whatever the status of the first was.
-- Keys are asked to be unique.
pub update_work-double_books :
    (local : ℕ → LocalTime) (now : ℕ) (auth : AuthContext) (key : ℕ) (db : Db) (a b : Appointment)
    → Unique db.appointments
    → get_appointment db auth key ≡ ok a
    → is_canceled a.status ≡ false
    → get b.id db.appointments ≡ some b
    → (b.id == a.id) ≡ false
    → is_active b.status ≡ true
    → (b.shop_id == a.shop_id) ≡ true
    → collide (slot_of b) (slot_of a) ≡ true
    → (a' : Appointment) × (db' : Db) × (update_work local now auth key confirm_only db
        ≡ ok (a', db'))
      × (Apart clash db'.appointments → ⊥)
update_work-double_books local now auth key db a b u asked kept row differ active shop hit =
    let f : Found auth key db a = get_appointment-Found auth key db a asked in
    let after : List Appointment = save (reopened a) db.appointments in
    (
      reopened a,
      record db { appointments = after },
      update_work-confirm_only local now auth key db a asked kept,
      λ apart.
          let self : get a.id after ≡ some (reopened a) =
            get-save_self (reopened a) a db.appointments (f.row u) in
          let other : get b.id after ≡ some b =
            get-save_ne b.id (reopened a) db.appointments (==_ne b.id a.id differ) ∙ row in
          let free : clash b (reopened a) ≡ false =
            All-scalar _ _ after b (Apart-get clash a.id (reopened a) after clash_sym apart self)
              other differ in
          absurd (hits (is_active b.status) (b.shop_id == a.shop_id) _ active shop hit free),
    )
