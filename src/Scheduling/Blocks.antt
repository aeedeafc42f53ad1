-- ===== src/Scheduling/Blocks.antt =====
-- The operations on schedule blocks of app/scheduling_store.py. Of an update, a field is `none` when
-- the request does not send it, or sends null where the code treats null in the same way.
use optimus_os.Base.{
  ℕ, String, [], ◌∷◌, ◌++◌, Option, none, some, ◌==◌, ◌&&◌, not, or_else, ltb, is_some,
}
use optimus_os.Base.Table.{scalar, save, remove}
use optimus_os.Base.Result.{ok, ◌>>=◌, ◌>>◌, guard, require, transaction}
use optimus_os.Errors.{
  Outcome, integrity_error, block_not_found, block_has_two_targets, end_not_later,
}
use optimus_os.Db.{Db}
use optimus_os.Db.Calendar.{ScheduleBlock, bay_id, hours_id, block_id}
use optimus_os.Auth.{AuthContext, effective_shop_id, effective_shop_owner_id, resolve_shop_id}
use optimus_os.Scheduling.{validate_technician, validate_bay}
use optimus_os.Scheduling.Calendar.{the_row}

pub record ScheduleBlockCreate : Type 0 where
  pub technician_id : Option ℕ
  pub bay_id : Option ℕ
  pub start_time : ℕ
  pub end_time : ℕ
  pub reason : String
  pub notes : Option String

pub record ScheduleBlockUpdate : Type 0 where
  pub technician_id : Option (Option ℕ)
  pub bay_id : Option (Option ℕ)
  pub start_time : Option ℕ
  pub end_time : Option ℕ
  pub reason : Option String
  pub notes : Option (Option String)

-- A technician, where one is named.
unfoldable pub validate_target : Db → AuthContext → Option ℕ → Outcome (Unit {0})
validate_target db auth none = ok tt
validate_target db auth (some key) = validate_technician db auth key

unfoldable pub get_schedule_block : Db → AuthContext → ℕ → Outcome ScheduleBlock
get_schedule_block db auth key = do
  shop_id ← effective_shop_id db auth
  require (scalar (λ b. b.id == key && b.shop_id == shop_id) db.schedule_blocks) block_not_found

unfoldable pub create_block_work :
    AuthContext → ℕ → ScheduleBlockCreate → Db → Outcome (ScheduleBlock × Db)
create_block_work auth new_id payload db = do
  validate_target db auth payload.technician_id
  validate_bay db auth payload.bay_id
  owner_user_id ← effective_shop_owner_id db auth
  shop_id ← resolve_shop_id db auth
  guard (ltb payload.start_time payload.end_time) integrity_error
  let b : ScheduleBlock = record {
    id = new_id;
    shop_id = shop_id;
    technician_id = payload.technician_id;
    bay_id = payload.bay_id;
    start_time = payload.start_time;
    end_time = payload.end_time;
    reason = payload.reason;
    notes = payload.notes;
  }
  ok (b, record db { schedule_blocks = db.schedule_blocks ++ b ∷ [] })

unfoldable pub create_schedule_block :
    AuthContext → ℕ → ScheduleBlockCreate → Db → Outcome ScheduleBlock × Db
create_schedule_block auth new_id payload =
    transaction (create_block_work auth new_id payload) the_row

unfoldable pub edited_block : ScheduleBlockUpdate → ScheduleBlock → ScheduleBlock
edited_block payload b = record b {
  technician_id = or_else payload.technician_id b.technician_id;
  bay_id = or_else payload.bay_id b.bay_id;
  start_time = or_else payload.start_time b.start_time;
  end_time = or_else payload.end_time b.end_time;
  reason = or_else payload.reason b.reason;
  notes = or_else payload.notes b.notes;
}

unfoldable pub update_block_work :
    AuthContext → ℕ → ScheduleBlockUpdate → Db → Outcome (ScheduleBlock × Db)
update_block_work auth key payload db = do
  b ← get_schedule_block db auth key
  validate_target db auth (or_else payload.technician_id none)
  validate_bay db auth (or_else payload.bay_id none)
  let b' : ScheduleBlock = edited_block payload b
  guard (not (is_some b'.technician_id && is_some b'.bay_id)) block_has_two_targets
  guard (ltb b'.start_time b'.end_time) end_not_later
  ok (b', record db { schedule_blocks = save b' db.schedule_blocks })

unfoldable pub update_schedule_block :
    AuthContext → ℕ → ScheduleBlockUpdate → Db → Outcome ScheduleBlock × Db
update_schedule_block auth key payload = transaction (update_block_work auth key payload) the_row

unfoldable pub delete_block_work : AuthContext → ℕ → Db → Outcome (Unit {0} × Db)
delete_block_work auth key db = do
  b ← get_schedule_block db auth key
  ok (tt, record db { schedule_blocks = remove b.id db.schedule_blocks })

unfoldable pub delete_schedule_block : AuthContext → ℕ → Db → Outcome (Unit {0}) × Db
delete_schedule_block auth key = transaction (delete_block_work auth key) the_row
