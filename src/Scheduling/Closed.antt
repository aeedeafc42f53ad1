-- ===== src/Scheduling/Closed.antt =====
-- What a schedule block closes: no appointment is booked or moved into it.
use optimus_os.Base.{
  ℕ, ◌≡◌, refl, ◌∙◌, Bool, true, false, List, [], ◌∷◌, ◌++◌, Option, none, some, ◌&&◌, ◌==◌, ltb,
  ap, sym, arith, ==_refl,
}
use optimus_os.Base.Result.{ok, err, >>=-eq-ok, guard, ok_unique, ok_pair_inj, err_of_not_ok}
use optimus_os.Errors.{Error, integrity_error}
use optimus_os.Db.{Db}
use optimus_os.Db.Calendar.{ScheduleBlock, block_id, Appointment}
use optimus_os.Auth.{AuthContext, effective_shop_id, effective_shop_owner_id, resolve_shop_id}
use optimus_os.Scheduling.{LocalTime, Slot, validate_bay}
use optimus_os.Scheduling.Conflicts.{
  schedule_block_applies, schedule_block_conflicts, validate_slot,
}
use optimus_os.Scheduling.Blocks.{ScheduleBlockCreate, create_block_work, validate_target}
use optimus_os.Scheduling.Appointments.{
  AppointmentCreate, AppointmentMoveRequest, create_work, move_work, moved, slot_of,
  get_appointment,
}
use optimus_os.Scheduling.Steps.{create_work-CreateStep, move_work-MoveStep}
use optimus_os.Scheduling.Apart.{All-last, filter-none, filter-filter}
use optimus_os.Scheduling.Booking.{validate_slot-Accepted, Accepted}

-- The block that is made stands at the end of the table.
record Closing (auth : AuthContext) (payload : ScheduleBlockCreate) (db : Db) (b : ScheduleBlock)
    (db' : Db) : Type 0 where
  shop : effective_shop_id db auth ≡ ok b.shop_id
  technician_of : b.technician_id ≡ payload.technician_id
  bay_of : b.bay_id ≡ payload.bay_id
  start_of : b.start_time ≡ payload.start_time
  end_of : b.end_time ≡ payload.end_time
  added : db'.schedule_blocks ≡ db.schedule_blocks ++ b ∷ []

create_block_work-Closing :
    (auth : AuthContext) (new_id : ℕ) (payload : ScheduleBlockCreate) (db : Db) (b : ScheduleBlock)
    (db' : Db)
    → create_block_work auth new_id payload db ≡ ok (b, db')
    → Closing auth payload db b db'
unfolding create_block_work resolve_shop_id
create_block_work-Closing auth new_id payload db b db' h =
    let (u₁, e₁, h₁) = >>=-eq-ok (validate_target db auth payload.technician_id) _ _ h in
    let (u₂, e₂, h₂) = >>=-eq-ok (validate_bay db auth payload.bay_id) _ _ h₁ in
    let (owner, e₃, h₃) = >>=-eq-ok (effective_shop_owner_id db auth) _ _ h₂ in
    let (shop_id, e₄, h₄) = >>=-eq-ok (effective_shop_id db auth) _ _ h₃ in
    let (u₅, e₅, h₅) =
      >>=-eq-ok (guard (ltb payload.start_time payload.end_time) integrity_error) _ _ h₄ in
    let (row, state) = ok_pair_inj _ _ b _ db' refl h₅ in
    record {
      shop = e₄ ∙ ap (λ r. ok r.shop_id) row;
      technician_of = sym (ap (λ r. r.technician_id) row);
      bay_of = sym (ap (λ r. r.bay_id) row);
      start_of = sym (ap (λ r. r.start_time) row);
      end_of = sym (ap (λ r. r.end_time) row);
      added = sym (ap (λ d. d.schedule_blocks) state) ∙ ap (λ r. db.schedule_blocks ++ r ∷ []) row;
    }

blocked_last :
    (shop_id : ℕ) (s : Slot) (blocks : List ScheduleBlock) (b : ScheduleBlock)
    → schedule_block_conflicts shop_id s (blocks ++ b ∷ []) ≡ []
    → (b.shop_id == shop_id
        && (ltb b.start_time s.end_time && ltb s.start_time b.end_time)
        && schedule_block_applies s b)
      ≡ false
unfolding schedule_block_conflicts
blocked_last shop_id s blocks b h =
    let in_time : ScheduleBlock → Bool =
      λ x. x.shop_id == shop_id && (ltb x.start_time s.end_time && ltb s.start_time x.end_time) in
    let rows : List ScheduleBlock = blocks ++ b ∷ [] in
    All-last (λ x. (in_time x && schedule_block_applies s x) ≡ false) blocks b
      (filter-none (λ x. in_time x && schedule_block_applies s x) rows
        (sym (filter-filter in_time (schedule_block_applies s) rows) ∙ h))

test_fails : (x y z : Bool) → x ≡ true → y ≡ true → z ≡ true → (x && y && z) ≡ false → ⊥
test_fails x y z h k l m = ground (arith, h, k, l, m)

closed_slot :
    (local : ℕ → LocalTime) (now : ℕ) (auth auth₂ : AuthContext) (payload : ScheduleBlockCreate)
    (exclude : Option ℕ) (s : Slot) (db : Db) (b : ScheduleBlock) (db' : Db)
    → Closing auth payload db b db'
    → effective_shop_id db' auth₂ ≡ ok b.shop_id
    → (ltb payload.start_time s.end_time && ltb s.start_time payload.end_time) ≡ true
    → schedule_block_applies s b ≡ true
    → validate_slot local now auth₂ s exclude db' ≡ ok tt
    → ⊥
closed_slot local now auth auth₂ payload exclude s db b db' c shop meets applies h =
    let a : Accepted auth₂ s exclude db' = validate_slot-Accepted local now auth₂ s exclude db' h in
    let same : b.shop_id ≡ a.shop_id = ok_unique shop a.shop in
    test_fails (b.shop_id == a.shop_id) (ltb b.start_time s.end_time && ltb s.start_time b.end_time)
      (schedule_block_applies s b) (rw (← same) (==_refl b.shop_id))
      (rw (c.start_of, c.end_of) meets) applies
      (blocked_last a.shop_id s db.schedule_blocks b (rw (← c.added) a.unblocked))

-- Once a block is made, an appointment of its shop that would meet its time and that it applies
-- to, by its technician, its bay or as a closure of the shop, cannot be created, whoever asks and
-- whenever.
pub create_work-closed :
    (local : ℕ → LocalTime) (now : ℕ) (auth auth₂ : AuthContext) (new_id new_id₂ : ℕ)
    (payload : ScheduleBlockCreate) (asked : AppointmentCreate) (db : Db) (b : ScheduleBlock)
    (db' : Db)
    → create_block_work auth new_id payload db ≡ ok (b, db')
    → effective_shop_id db' auth₂ ≡ ok b.shop_id
    → (ltb payload.start_time asked.slot.end_time && ltb asked.slot.start_time payload.end_time)
      ≡ true
    → schedule_block_applies asked.slot b ≡ true
    → (e : Error) × (create_work local now auth₂ new_id₂ asked db' ≡ err e)
create_work-closed local now auth auth₂ new_id new_id₂ payload asked db b db' h shop meets applies =
    let c = create_block_work-Closing auth new_id payload db b db' h in
    err_of_not_ok (create_work local now auth₂ new_id₂ asked db') (λ r done.
      let s = create_work-CreateStep local now auth₂ new_id₂ asked db' r.0 r.1 done in
      closed_slot local now auth auth₂ payload none asked.slot db b db' c shop meets applies
        s.accepted)

-- Nor can one be moved there.
pub move_work-closed :
    (local : ℕ → LocalTime) (now : ℕ) (auth auth₂ : AuthContext) (new_id key : ℕ)
    (payload : ScheduleBlockCreate) (move : AppointmentMoveRequest) (db : Db) (b : ScheduleBlock)
    (db' : Db)
    → create_block_work auth new_id payload db ≡ ok (b, db')
    → effective_shop_id db' auth₂ ≡ ok b.shop_id
    → (ltb payload.start_time move.end_time && ltb move.start_time payload.end_time) ≡ true
    → ((a : Appointment)
        → get_appointment db' auth₂ key ≡ ok a
        → schedule_block_applies (slot_of (moved move a)) b ≡ true)
    → (e : Error) × (move_work local now auth₂ key move db' ≡ err e)
unfolding moved
move_work-closed local now auth auth₂ new_id key payload move db b db' h shop meets applies =
    let c = create_block_work-Closing auth new_id payload db b db' h in
    err_of_not_ok (move_work local now auth₂ key move db') (λ r done.
      let s = move_work-MoveStep local now auth₂ key move db' r.0 r.1 done in
      closed_slot local now auth auth₂ payload (some s.a.id) (slot_of (moved move s.a)) db b db' c
        shop meets (applies s.a s.found.asked) (rw s.row at s.accepted))
