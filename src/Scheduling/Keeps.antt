-- ===== src/Scheduling/Keeps.antt =====
-- Each operation on appointments keeps the calendar free of double bookings.
use optimus_os.Base.{
  ℕ, String, ◌≡◌, refl, Bool, true, false, List, [], ◌∷◌, ◌++◌, Option, none, some, ◌&&◌, ◌==◌, leb,
  not, arith, sym, inl, inr, Bool-cases, ◌∙◌, ==_eq, ap, All, All-append, or_else,
}
use mathlib.Core.Path.{subst}
use optimus_os.Base.Table.{get, save, save-Unique, All-save, All-scalar}
use optimus_os.Base.Result.{ok}
use optimus_os.Db.{Db}
use optimus_os.Db.Calendar.{Appointment, appointment_id, is_active}
use optimus_os.Auth.{AuthContext}
use optimus_os.Scheduling.{LocalTime, Slot}
use optimus_os.Scheduling.Conflicts.{is_other}
use optimus_os.Scheduling.Appointments.{
  AppointmentCreate, AppointmentUpdate, AppointmentMoveRequest, slot_of, same_slot, get_appointment,
  create_work, edited, update_work, moved, move_work, cancel_work, equal_option,
}
use optimus_os.Scheduling.Apart.{
  All-intro, Apart-append, Apart-save, Apart-get, Unique-append, All-impl,
}
use optimus_os.Scheduling.Pad.{IsShort}
use optimus_os.Scheduling.Booking.{
  clash, clash_sym, collide, IsSound, validate_slot-Accepted, accepted_apart,
}
use optimus_os.Scheduling.Steps.{
  create_work-CreateStep, update_work-UpdateStep, move_work-MoveStep, cancel_work-CancelStep,
}

abbrev pub is_short : Option ℕ → Bool
is_short none = true
is_short (some buffer) = leb buffer 480

or_else_short :
    (sent : Option ℕ) (old : ℕ)
    → is_short sent ≡ true
    → leb old 480 ≡ true
    → leb (or_else sent old) 480 ≡ true
or_else_short none old h k = k
or_else_short (some n) old h k = h

add-IsSound :
    (rows : List Appointment) (r : Appointment)
    → IsSound rows
    → get r.id rows ≡ none
    → IsShort r
    → All (λ a. clash a r ≡ false) rows
    → IsSound (rows ++ r ∷ [])
add-IsSound rows r s fresh short free = record {
  keys = Unique-append r rows s.keys fresh;
  short = All-append IsShort rows (r ∷ []) s.short (short, tt);
  apart = Apart-append clash r rows s.apart free;
}

save-IsSound :
    (rows : List Appointment) (r : Appointment)
    → IsSound rows
    → IsShort r
    → All (λ a. (a.id == r.id) ≡ false → clash a r ≡ false) rows
    → IsSound (save r rows)
save-IsSound rows r s short free = record {
  keys = save-Unique r rows s.keys;
  short = All-save IsShort r rows s.short short;
  apart = Apart-save clash r rows clash_sym s.keys s.apart free;
}

-- A row that is not active clashes with nothing.
inactive_free : (a r : Appointment) → is_active r.status ≡ false → clash a r ≡ false
inactive_free a r h = ground (arith, h)

pub create_work-IsSound :
    (local : ℕ → LocalTime) (now : ℕ) (auth : AuthContext) (new_id : ℕ)
    (payload : AppointmentCreate) (db : Db) (a : Appointment) (db' : Db)
    → leb payload.slot.travel_buffer_minutes 480 ≡ true
    → get new_id db.appointments ≡ none
    → IsSound db.appointments
    → create_work local now auth new_id payload db ≡ ok (a, db')
    → IsSound db'.appointments
create_work-IsSound local now auth new_id payload db a db' short fresh sound h =
    let s = create_work-CreateStep local now auth new_id payload db a db' h in
    let short_row : IsShort a =
      subst (λ t. leb t.travel_buffer_minutes 480 ≡ true) (sym s.slot) short in
    let free =
      accepted_apart auth none db a short_row sound.short s.in_shop
        (validate_slot-Accepted local now auth (slot_of a) none db (rw s.slot s.accepted)) in
    rw s.added (
      add-IsSound db.appointments a sound (rw s.key_of fresh) short_row
        (All-impl _ _ db.appointments (λ b c. c refl) free))

other_row : (k : ℕ) (a : Appointment) → (a.id == k) ≡ false → is_other (some k) a ≡ true
other_row k a h = ground (arith, h)

pub move_work-IsSound :
    (local : ℕ → LocalTime) (now : ℕ) (auth : AuthContext) (key : ℕ)
    (payload : AppointmentMoveRequest) (db : Db) (a' : Appointment) (db' : Db)
    → is_short payload.travel_buffer_minutes ≡ true
    → IsSound db.appointments
    → move_work local now auth key payload db ≡ ok (a', db')
    → IsSound db'.appointments
unfolding moved
move_work-IsSound local now auth key payload db a' db' short sound h =
    let s = move_work-MoveStep local now auth key payload db a' db' h in
    let same_id : a'.id ≡ s.a.id = ap (λ r. r.id) s.row in
    let same_shop : a'.shop_id ≡ s.a.shop_id = ap (λ r. r.shop_id) s.row in
    let short_old : IsShort s.a =
      All-scalar IsShort _ db.appointments s.a sound.short (s.found.row sound.keys) in
    let short_row : IsShort a' =
      subst IsShort (sym s.row) (or_else_short payload.travel_buffer_minutes _ short short_old) in
    let free =
      accepted_apart auth (some s.a.id) db a' short_row sound.short (rw same_shop s.found.in_shop)
        (validate_slot-Accepted local now auth (slot_of a') (some s.a.id) db s.accepted) in
    rw s.saved (
      save-IsSound db.appointments a' sound short_row
        (All-impl _ _ db.appointments (λ b c ne. c (other_row s.a.id b (rw (← same_id) ne))) free))

pub cancel_work-IsSound :
    (auth : AuthContext) (key : ℕ) (reason : String) (now : ℕ) (db : Db) (a' : Appointment)
    (db' : Db)
    → IsSound db.appointments
    → cancel_work auth key reason now db ≡ ok (a', db')
    → IsSound db'.appointments
cancel_work-IsSound auth key reason now db a' db' sound h =
    let s = cancel_work-CancelStep auth key reason now db a' db' h in
    let short_row : IsShort a' =
      subst IsShort (sym s.row)
        (All-scalar IsShort _ db.appointments s.a sound.short (s.found.row sound.keys)) in
    let inactive : is_active a'.status ≡ false = ap (λ r. is_active r.status) s.row in
    rw s.saved (
      save-IsSound db.appointments a' sound short_row
        (All-intro _ db.appointments (λ b ne. inactive_free b a' inactive)))

-- An update that makes an inactive appointment active and leaves its slot as it is.
abbrev pub reactivates : AppointmentUpdate → Appointment → Bool
reactivates payload a =
    not (is_active a.status)
    && (is_active (edited payload a).status && same_slot (slot_of (edited payload a)) (slot_of a))

equal_option-eq : (a b : Option ℕ) → equal_option a b ≡ true → a ≡ b
equal_option-eq none none h = refl
equal_option-eq none (some b) h = cc
equal_option-eq (some a) none h = cc
equal_option-eq (some a) (some b) h = ap some (==_eq a b h)

slot_ext :
    (s t : Slot)
    → s.technician_id ≡ t.technician_id
    → s.bay_id ≡ t.bay_id
    → s.start_time ≡ t.start_time
    → s.end_time ≡ t.end_time
    → s.travel_buffer_minutes ≡ t.travel_buffer_minutes
    → s ≡ t
slot_ext s t h₁ h₂ h₃ h₄ h₅ = cc

same_slot-eq : (s t : Slot) → same_slot s t ≡ true → s ≡ t
same_slot-eq s t h =
    let parts : (s.technician_id ≡ t.technician_id)
        × (equal_option s.bay_id t.bay_id ≡ true)
        × (s.start_time ≡ t.start_time)
        × (s.end_time ≡ t.end_time)
        × (s.travel_buffer_minutes ≡ t.travel_buffer_minutes) =
      ground (arith, h) in
    let bays : s.bay_id ≡ t.bay_id = equal_option-eq s.bay_id t.bay_id parts.1 in
    slot_ext s t parts.0 bays parts.2 parts.3 parts.4

stays_active : (x y z : Bool) → (not x && (y && z)) ≡ false → z ≡ true → y ≡ true → x ≡ true
stays_active x y z h k l = ground (arith, h, k, l)

-- With its slot kept, and active only if it was, a row clashes with no more than it did.
kept_free :
    (a a' b : Appointment)
    → slot_of a' ≡ slot_of a
    → a'.shop_id ≡ a.shop_id
    → (is_active a'.status ≡ true → is_active a.status ≡ true)
    → clash b a ≡ false
    → clash b a' ≡ false
kept_free a a' b slots shops active h = elim (Bool-cases (is_active a'.status)) [
  | inl e ↦
      let was : is_active a.status ≡ true = active e in
      subst
        (λ t.
          (is_active b.status
            && (is_active a'.status && (b.shop_id == a'.shop_id && collide (slot_of b) t)))
          ≡ false)
        (sym slots) (rw (e, shops) (rw was at h))
  | inr e ↦ inactive_free b a' e
]

pub update_work-IsSound :
    (local : ℕ → LocalTime) (now : ℕ) (auth : AuthContext) (key : ℕ) (payload : AppointmentUpdate)
    (db : Db) (a' : Appointment) (db' : Db)
    → is_short payload.travel_buffer_minutes ≡ true
    → ((a : Appointment) → get_appointment db auth key ≡ ok a → reactivates payload a ≡ false)
    → IsSound db.appointments
    → update_work local now auth key payload db ≡ ok (a', db')
    → IsSound db'.appointments
unfolding edited
update_work-IsSound local now auth key payload db a' db' short stays sound h =
    let s = update_work-UpdateStep local now auth key payload db a' db' h in
    let same_id : a'.id ≡ s.a.id = ap (λ r. r.id) s.row in
    let same_shop : a'.shop_id ≡ s.a.shop_id = ap (λ r. r.shop_id) s.row in
    let old : get s.a.id db.appointments ≡ some s.a = s.found.row sound.keys in
    let short_old : IsShort s.a = All-scalar IsShort _ db.appointments s.a sound.short old in
    let short_row : IsShort a' =
      subst IsShort (sym s.row) (or_else_short payload.travel_buffer_minutes _ short short_old) in
    let free : All (λ b. (b.id == s.a.id) ≡ false → clash b a' ≡ false) db.appointments =
      elim s.slot [
        | inl same ↦
            let stayed : reactivates payload s.a ≡ false = stays s.a s.found.asked in
            let same_row : same_slot (slot_of (edited payload s.a)) (slot_of s.a) ≡ true =
              subst (λ r. same_slot (slot_of r) (slot_of s.a) ≡ true) s.row same in
            let active : is_active a'.status ≡ true → is_active s.a.status ≡ true = λ y.
              stays_active _ _ _ stayed same_row (subst (λ r. is_active r.status ≡ true) s.row y) in
            let slots : slot_of (edited payload s.a) ≡ slot_of s.a = same_slot-eq _ _ same_row in
            All-impl _ _ db.appointments
              (λ b c ne. kept_free s.a a' b (ap slot_of s.row ∙ slots) same_shop active (c ne))
              (Apart-get clash s.a.id s.a db.appointments clash_sym sound.apart old)
        | inr accepted ↦
            All-impl _ _ db.appointments (λ b c ne. c (other_row s.a.id b ne))
              (accepted_apart auth (some s.a.id) db a' short_row sound.short
                (rw same_shop s.found.in_shop)
                (validate_slot-Accepted local now auth (slot_of a') (some s.a.id) db accepted))
      ] in
    rw s.saved (
      save-IsSound db.appointments a' sound short_row
        (All-impl _ _ db.appointments (λ b c ne. c (rw (← same_id) ne)) free))
