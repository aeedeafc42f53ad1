-- ===== src/Scheduling/Free.antt =====
-- A slot that nothing stands against can be booked.
use optimus_os.Base.{
  ℕ, ◌≡◌, refl, ◌∙◌, Bool, true, false, List, [], ◌∷◌, ◌++◌, none, ◌&&◌, ◌||◌, ◌==◌, leb, ltb, All,
  filter, arith, inl, inr, Option-cases,
}
use mathlib.Core.Path.{subst}
use optimus_os.Base.Result.{ok}
use optimus_os.Db.{Db}
use optimus_os.Db.Calendar.{Appointment, is_active}
use optimus_os.Auth.{AuthContext, effective_shop_id, effective_shop_owner_id, resolve_shop_id}
use optimus_os.Scheduling.{
  LocalTime, validate_customer, validate_vehicle, validate_technician, validate_bay,
  validate_work_order,
}
use optimus_os.Scheduling.Conflicts.{
  technician_conflicts, technician_overlaps, bay_conflicts, bay_query, conflicts_of, validate_slot,
  working_hours_conflict, schedule_block_conflicts, same_bay,
}
use optimus_os.Scheduling.Appointments.{
  AppointmentCreate, create_work, new_appointment, new_value, NewStatus, new_tentative,
  new_confirmed, slot_of,
}
use optimus_os.Scheduling.Apart.{All-impl}
use optimus_os.Scheduling.Pad.{IsShort, is_booked, technician_conflicts_lem}
use optimus_os.Scheduling.Booking.{clash, collide_sym, ==_sym}

filter_is_empty :
    (p : Appointment → Bool) (rows : List Appointment)
    → All (λ a. p a ≡ false) rows
    → filter p rows ≡ []
filter_is_empty p [] h = refl
filter_is_empty p (a ∷ rows) h = ground (arith, h.0, filter_is_empty p rows h.1)

new_is_active : (s : NewStatus) → is_active (new_value s) ≡ true
new_is_active new_tentative = refl
new_is_active new_confirmed = refl

parts_are_false :
    (act act' sh t t' ov b d e : Bool)
    → act' ≡ true
    → t' ≡ t
    → (act && (act' && (sh && (t && ov || b && (d && e))))) ≡ false
    → ((sh && (t' && (act && (ov && true)))) ≡ false)
      × ((sh && (b && (act && (d && (e && true))))) ≡ false)
parts_are_false act act' sh t t' ov b d e h k l = ground (arith, h, k, l)

-- What does not clash with a new row is neither a technician's conflict of its slot nor a bay's.
clash_free :
    (a r : Appointment)
    → is_active r.status ≡ true
    → clash a r ≡ false
    → (is_booked r.shop_id (slot_of r) none a ≡ false)
      × ((a.shop_id == r.shop_id
            && (same_bay r.bay_id a.bay_id
                && (is_active a.status
                    && (ltb a.start_time r.end_time && (ltb r.start_time a.end_time && true)))))
          ≡ false)
clash_free a r active h =
    parts_are_false (is_active a.status) (is_active r.status) (a.shop_id == r.shop_id)
      (r.technician_id == a.technician_id) (a.technician_id == r.technician_id)
      (technician_overlaps (slot_of r) a) (same_bay r.bay_id a.bay_id) (ltb a.start_time r.end_time)
      (ltb r.start_time a.end_time) active (==_sym a.technician_id r.technician_id)
      (subst
        (λ c. (is_active a.status && (is_active r.status && (a.shop_id == r.shop_id && c))) ≡ false)
        (collide_sym (slot_of a) (slot_of r)) h)

bay_conflicts-free :
    (r : Appointment) (rows : List Appointment)
    → is_active r.status ≡ true
    → All (λ a. clash a r ≡ false) rows
    → bay_conflicts r.shop_id r.bay_id (slot_of r) none rows ≡ []
unfolding bay_conflicts
bay_conflicts-free r rows active free = elim (Option-cases r.bay_id) [
  | inl e ↦ rw e refl
  | inr (bay, e) ↦ rw e (
      filter_is_empty (bay_query r.shop_id bay (slot_of r) none) rows (
        All-impl _ _ rows
          (λ a h.
            subst
              (λ b.
                (a.shop_id == r.shop_id
                  && (same_bay b a.bay_id
                      && (is_active a.status
                          && (ltb a.start_time r.end_time
                              && (ltb r.start_time a.end_time && true)))))
                ≡ false)
              e (clash_free a r active h).1)
          free))
]

technician_conflicts-free :
    (r : Appointment) (rows : List Appointment)
    → is_active r.status ≡ true
    → IsShort r
    → All IsShort rows
    → All (λ a. clash a r ≡ false) rows
    → technician_conflicts r.shop_id (slot_of r) none rows ≡ []
technician_conflicts-free r rows active short_r short free =
    technician_conflicts_lem r.shop_id (slot_of r) none rows short_r short
    ∙ filter_is_empty (is_booked r.shop_id (slot_of r) none) rows
        (All-impl _ _ rows (λ a h. (clash_free a r active h).0) free)

-- What is asked of the rest: the people and things that the request names are the shop's, the slot
-- is not of the past, is within the working hours, and no block closes it.
pub record Possible (local : ℕ → LocalTime) (now : ℕ) (auth : AuthContext)
    (payload : AppointmentCreate) (db : Db) (shop_id : ℕ) : Type 0 where
  pub customer : validate_customer db auth payload.customer_id ≡ ok tt
  pub vehicle : validate_vehicle db auth payload.vehicle_id payload.customer_id ≡ ok tt
  pub technician : validate_technician db auth payload.slot.technician_id ≡ ok tt
  pub bay : validate_bay db auth payload.slot.bay_id ≡ ok tt
  pub work_order : validate_work_order db auth payload.work_order_id ≡ ok tt
  pub ordered : ltb payload.slot.start_time payload.slot.end_time ≡ true
  pub later : ltb payload.slot.start_time now ≡ false
  pub hours : working_hours_conflict local shop_id payload.slot db.working_hours ≡ []
  pub unblocked : schedule_block_conflicts shop_id payload.slot db.schedule_blocks ≡ []

-- A request to create an appointment succeeds, and adds exactly its row, if its buffer and those of
-- the table are at most eight hours, the request is possible, and no active appointment of the
-- table clashes with the row: nothing is refused without a reason.
pub create_work-free :
    (local : ℕ → LocalTime) (now : ℕ) (auth : AuthContext) (new_id owner shop_id : ℕ)
    (payload : AppointmentCreate) (db : Db)
    → effective_shop_owner_id db auth ≡ ok owner
    → effective_shop_id db auth ≡ ok shop_id
    → Possible local now auth payload db shop_id
    → leb payload.slot.travel_buffer_minutes 480 ≡ true
    → All IsShort db.appointments
    → All (λ a. clash a (new_appointment new_id owner shop_id payload) ≡ false) db.appointments
    → create_work local now auth new_id payload db
      ≡ ok (
        new_appointment new_id owner shop_id payload,
        record db {
          appointments = db.appointments ++ new_appointment new_id owner shop_id payload ∷ [];
        },
      )
unfolding create_work validate_slot conflicts_of new_appointment resolve_shop_id
create_work-free local now auth new_id owner shop_id payload db owned own p short_r short free =
    let r : Appointment = new_appointment new_id owner shop_id payload in
    let active : is_active r.status ≡ true = new_is_active payload.status in
    rw
      (
        p.customer,
        p.vehicle,
        p.technician,
        p.bay,
        p.work_order,
        p.ordered,
        own,
        p.later,
        p.hours,
        technician_conflicts-free r db.appointments active short_r short free,
        bay_conflicts-free r db.appointments active free,
        p.unblocked,
        owned,
      )
      refl
