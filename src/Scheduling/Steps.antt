-- ===== src/Scheduling/Steps.antt =====
-- What each operation on appointments does to the table when it succeeds.
use optimus_os.Base.{
  ℕ, String, ◌≡◌, refl, Bool, true, false, [], ◌∷◌, ◌++◌, none, some, ◌&&◌, ◌==◌, not, arith, sym,
  ◌⊎◌, inl, inr, ◌∙◌, ap,
}
use mathlib.Core.Path.{subst}
use optimus_os.Base.Table.{get, save, scalar, scalar_sound, Unique, get-scalar}
use optimus_os.Base.Result.{
  Result, ok, guard, guard-eq-ok, require-eq-ok, >>=-eq-ok, ok_pair_inj, unless,
}
use optimus_os.Errors.{
  Error, appointment_not_found, canceled_not_editable, canceled_not_movable, already_canceled,
  completed_not_cancelable,
}
use optimus_os.Db.{Db}
use optimus_os.Db.Calendar.{Appointment, appointment_id, canceled}
use optimus_os.Auth.{AuthContext, effective_shop_id, effective_shop_owner_id, resolve_shop_id}
use optimus_os.Scheduling.{
  LocalTime, validate_customer, validate_vehicle, validate_technician, validate_bay,
  validate_work_order,
}
use optimus_os.Scheduling.Conflicts.{validate_slot}
use optimus_os.Scheduling.Appointments.{
  AppointmentCreate, AppointmentUpdate, AppointmentMoveRequest, slot_of, same_slot, get_appointment,
  new_appointment, create_work, edited, validate_links, update_work, moved, move_work, cancel_work,
  is_canceled, is_completed, equal_option,
}

pub unless-eq-ok :
    (b : Bool) (m : Result Error (Unit {0})) → unless b m ≡ ok tt → (b ≡ true) ⊎ (m ≡ ok tt)
unless-eq-ok true m h = inl refl
unless-eq-ok false m h = inr h

-- The appointment is in the table and in the caller's shop.
pub record Found (auth : AuthContext) (key : ℕ) (db : Db) (a : Appointment) : Type 0 where
  pub asked : get_appointment db auth key ≡ ok a
  pub in_shop : effective_shop_id db auth ≡ ok a.shop_id
  pub key_of : a.id ≡ key
  pub row : Unique db.appointments → get a.id db.appointments ≡ some a

pub get_appointment-Found :
    (auth : AuthContext) (key : ℕ) (db : Db) (a : Appointment)
    → get_appointment db auth key ≡ ok a
    → Found auth key db a
unfolding get_appointment
get_appointment-Found auth key db a h =
    let (shop_id, e, h₁) = >>=-eq-ok (effective_shop_id db auth) _ _ h in
    let found : scalar (λ a. a.shop_id == shop_id && a.id == key) db.appointments ≡ some a =
      require-eq-ok _ appointment_not_found a h₁ in
    let sound : (a.shop_id == shop_id && a.id == key) ≡ true =
      scalar_sound (λ a. a.shop_id == shop_id && a.id == key) db.appointments a found in
    let same : (a.shop_id ≡ shop_id) × (a.id ≡ key) = ground (arith, sound) in
    record {
      asked = h;
      in_shop = e ∙ ap ok (sym same.0);
      key_of = same.1;
      row = λ u. get-scalar _ db.appointments a u found;
    }

pub record CreateStep (local : ℕ → LocalTime) (now : ℕ) (auth : AuthContext) (new_id : ℕ)
    (payload : AppointmentCreate) (db : Db) (a : Appointment) (db' : Db) : Type 0 where
  pub in_shop : effective_shop_id db auth ≡ ok a.shop_id
  pub key_of : a.id ≡ new_id
  pub slot : slot_of a ≡ payload.slot
  pub accepted : validate_slot local now auth payload.slot none db ≡ ok tt
  pub added : db'.appointments ≡ db.appointments ++ a ∷ []

pub create_work-CreateStep :
    (local : ℕ → LocalTime) (now : ℕ) (auth : AuthContext) (new_id : ℕ)
    (payload : AppointmentCreate) (db : Db) (a : Appointment) (db' : Db)
    → create_work local now auth new_id payload db ≡ ok (a, db')
    → CreateStep local now auth new_id payload db a db'
unfolding create_work new_appointment resolve_shop_id
create_work-CreateStep local now auth new_id payload db a db' h =
    let (u₁, e₁, h₁) = >>=-eq-ok (validate_customer db auth payload.customer_id) _ _ h in
    let (u₂, e₂, h₂) =
      >>=-eq-ok (validate_vehicle db auth payload.vehicle_id payload.customer_id) _ _ h₁ in
    let (u₃, e₃, h₃) = >>=-eq-ok (validate_technician db auth payload.slot.technician_id) _ _ h₂ in
    let (u₄, e₄, h₄) = >>=-eq-ok (validate_bay db auth payload.slot.bay_id) _ _ h₃ in
    let (u₅, e₅, h₅) = >>=-eq-ok (validate_work_order db auth payload.work_order_id) _ _ h₄ in
    let (u₆, e₆, h₆) = >>=-eq-ok (validate_slot local now auth payload.slot none db) _ _ h₅ in
    let (owner, e₇, h₇) = >>=-eq-ok (effective_shop_owner_id db auth) _ _ h₆ in
    let (shop_id, e₈, h₈) = >>=-eq-ok (effective_shop_id db auth) _ _ h₇ in
    let (row, state) =
      ok_pair_inj _ (new_appointment new_id owner shop_id payload) a _ db' refl h₈ in
    record {
      in_shop = e₈ ∙ ap (λ r. ok r.shop_id) row;
      key_of = sym (ap (λ r. r.id) row);
      slot = sym (ap slot_of row);
      accepted = e₆;
      added = sym (ap (λ d. d.appointments) state) ∙ ap (λ r. db.appointments ++ r ∷ []) row;
    }

-- The slot is the old one, or it was checked.
abbrev pub SlotKept : (ℕ → LocalTime) → ℕ → AuthContext → Db → Appointment → Appointment → Type 0
SlotKept local now auth db a a' =
    (same_slot (slot_of a') (slot_of a) ≡ true)
    ⊎ (validate_slot local now auth (slot_of a') (some a.id) db ≡ ok tt)

pub record UpdateStep (local : ℕ → LocalTime) (now : ℕ) (auth : AuthContext) (key : ℕ)
    (payload : AppointmentUpdate) (db : Db) (a' : Appointment) (db' : Db) : Type 0 where
  pub a : Appointment
  pub found : Found auth key db a
  pub kept : is_canceled a.status ≡ false
  pub row : a' ≡ edited payload a
  pub slot : SlotKept local now auth db a a'
  pub saved : db'.appointments ≡ save a' db.appointments

pub update_work-UpdateStep :
    (local : ℕ → LocalTime) (now : ℕ) (auth : AuthContext) (key : ℕ) (payload : AppointmentUpdate)
    (db : Db) (a' : Appointment) (db' : Db)
    → update_work local now auth key payload db ≡ ok (a', db')
    → UpdateStep local now auth key payload db a' db'
unfolding update_work
update_work-UpdateStep local now auth key payload db a' db' h =
    let (a, found, h₁) = >>=-eq-ok (get_appointment db auth key) _ _ h in
    let (u₂, e₂, h₂) =
      >>=-eq-ok (guard (not (is_canceled a.status)) canceled_not_editable) _ _ h₁ in
    let (u₃, e₃, h₃) =
      >>=-eq-ok (validate_links db auth payload.work_order_id a (edited payload a)) _ _ h₂ in
    let (u₄, e₄, h₄) =
      >>=-eq-ok
        (unless (same_slot (slot_of (edited payload a)) (slot_of a))
          (validate_slot local now auth (slot_of (edited payload a)) (some a.id) db))
        _ _ h₃ in
    let (row, state) = ok_pair_inj _ (edited payload a) a' _ db' refl h₄ in
    let open_status : not (is_canceled a.status) ≡ true = guard-eq-ok _ canceled_not_editable e₂ in
    record {
      a = a;
      found = get_appointment-Found auth key db a found;
      kept = ground (arith, open_status);
      row = sym row;
      slot = subst (λ r. SlotKept local now auth db a r) row (unless-eq-ok _ _ e₄);
      saved = sym (ap (λ d. d.appointments) state) ∙ ap (λ r. save r db.appointments) row;
    }

pub record MoveStep (local : ℕ → LocalTime) (now : ℕ) (auth : AuthContext) (key : ℕ)
    (payload : AppointmentMoveRequest) (db : Db) (a' : Appointment) (db' : Db) : Type 0 where
  pub a : Appointment
  pub found : Found auth key db a
  pub kept : is_canceled a.status ≡ false
  pub row : a' ≡ moved payload a
  pub accepted : validate_slot local now auth (slot_of a') (some a.id) db ≡ ok tt
  pub saved : db'.appointments ≡ save a' db.appointments

pub move_work-MoveStep :
    (local : ℕ → LocalTime) (now : ℕ) (auth : AuthContext) (key : ℕ)
    (payload : AppointmentMoveRequest) (db : Db) (a' : Appointment) (db' : Db)
    → move_work local now auth key payload db ≡ ok (a', db')
    → MoveStep local now auth key payload db a' db'
unfolding move_work
move_work-MoveStep local now auth key payload db a' db' h =
    let (a, found, h₁) = >>=-eq-ok (get_appointment db auth key) _ _ h in
    let (u₂, e₂, h₂) = >>=-eq-ok (guard (not (is_canceled a.status)) canceled_not_movable) _ _ h₁ in
    let m : Appointment = moved payload a in
    let (u₃, e₃, h₃) =
      >>=-eq-ok
        (unless (m.technician_id == a.technician_id) (validate_technician db auth m.technician_id))
        _ _ h₂ in
    let (u₄, e₄, h₄) =
      >>=-eq-ok (unless (equal_option m.bay_id a.bay_id) (validate_bay db auth m.bay_id)) _ _ h₃ in
    let (u₅, e₅, h₅) = >>=-eq-ok (validate_slot local now auth (slot_of m) (some a.id) db) _ _ h₄ in
    let (row, state) = ok_pair_inj _ m a' _ db' refl h₅ in
    let open_status : not (is_canceled a.status) ≡ true = guard-eq-ok _ canceled_not_movable e₂ in
    record {
      a = a;
      found = get_appointment-Found auth key db a found;
      kept = ground (arith, open_status);
      row = sym row;
      accepted =
          subst (λ r. validate_slot local now auth (slot_of r) (some a.id) db ≡ ok tt) row e₅;
      saved = sym (ap (λ d. d.appointments) state) ∙ ap (λ r. save r db.appointments) row;
    }

pub record CancelStep (auth : AuthContext) (key : ℕ) (reason : String) (now : ℕ) (db : Db)
    (a' : Appointment) (db' : Db) : Type 0 where
  pub a : Appointment
  pub found : Found auth key db a
  pub kept : is_canceled a.status ≡ false
  pub row :
      a' ≡ record a { status = canceled; canceled_at = some now; cancellation_reason = some reason }
  pub saved : db'.appointments ≡ save a' db.appointments
  pub hours : db'.working_hours ≡ db.working_hours
  pub blocks : db'.schedule_blocks ≡ db.schedule_blocks

pub cancel_work-CancelStep :
    (auth : AuthContext) (key : ℕ) (reason : String) (now : ℕ) (db : Db) (a' : Appointment)
    (db' : Db)
    → cancel_work auth key reason now db ≡ ok (a', db')
    → CancelStep auth key reason now db a' db'
unfolding cancel_work
cancel_work-CancelStep auth key reason now db a' db' h =
    let (a, found, h₁) = >>=-eq-ok (get_appointment db auth key) _ _ h in
    let (u₂, e₂, h₂) = >>=-eq-ok (guard (not (is_canceled a.status)) already_canceled) _ _ h₁ in
    let (u₃, e₃, h₃) =
      >>=-eq-ok (guard (not (is_completed a.status)) completed_not_cancelable) _ _ h₂ in
    let c : Appointment = record a {
      status = canceled;
      canceled_at = some now;
      cancellation_reason = some reason;
    } in
    let (row, state) = ok_pair_inj _ c a' _ db' refl h₃ in
    let open_status : not (is_canceled a.status) ≡ true = guard-eq-ok _ already_canceled e₂ in
    record {
      a = a;
      found = get_appointment-Found auth key db a found;
      kept = ground (arith, open_status);
      row = sym row;
      saved = sym (ap (λ d. d.appointments) state) ∙ ap (λ r. save r db.appointments) row;
      hours = sym (ap (λ d. d.working_hours) state);
      blocks = sym (ap (λ d. d.schedule_blocks) state);
    }
