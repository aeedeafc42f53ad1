-- ===== src/Scheduling/Calendar.antt =====
-- The operations on bays and working hours of app/scheduling_store.py. Of an
-- update, a field is `none` when the request does not send it, or sends null where the code treats
-- null in the same way.
use optimus_os.Base.{
  ℕ, String, Bool, true, false, [], ◌∷◌, ◌++◌, Option, ◌==◌, ◌&&◌, or_else, ltb, leb,
}
use optimus_os.Base.Table.{scalar, save, remove}
use optimus_os.Base.Result.{ok, ◌>>=◌, ◌>>◌, guard, require, transaction}
use optimus_os.Errors.{
  Outcome, integrity_error, bay_not_found, working_hours_not_found, end_not_later,
}
use optimus_os.Db.{Db}
use optimus_os.Db.Calendar.{Bay, WorkingHours, bay_id, hours_id, block_id}
use optimus_os.Auth.{AuthContext, effective_shop_id, effective_shop_owner_id, resolve_shop_id}
use optimus_os.Scheduling.{validate_technician}

pub record BayCreate : Type 0 where
  pub name : String
  pub notes : Option String

pub record BayUpdate : Type 0 where
  pub name : Option String
  pub notes : Option (Option String)

unfoldable pub get_bay : Db → AuthContext → ℕ → Outcome Bay
get_bay db auth key = do
  shop_id ← effective_shop_id db auth
  require (scalar (λ b. b.shop_id == shop_id && b.id == key) db.bays) bay_not_found

-- The response is the row.
abbrev pub the_row : {A : Type 0} → A → Db → Outcome A
the_row r db = ok r

unfoldable pub create_bay_work : AuthContext → ℕ → BayCreate → Db → Outcome (Bay × Db)
create_bay_work auth new_id payload db = do
  owner_user_id ← effective_shop_owner_id db auth
  shop_id ← resolve_shop_id db auth
  let b : Bay = record {
    id = new_id;
    shop_id = shop_id;
    name = payload.name;
    notes = payload.notes;
    is_archived = false;
  }
  ok (b, record db { bays = db.bays ++ b ∷ [] })

unfoldable pub create_bay : AuthContext → ℕ → BayCreate → Db → Outcome Bay × Db
create_bay auth new_id payload = transaction (create_bay_work auth new_id payload) the_row

unfoldable pub update_bay_work : AuthContext → ℕ → BayUpdate → Db → Outcome (Bay × Db)
update_bay_work auth key payload db = do
  b ← get_bay db auth key
  let b' : Bay = record b {
    name = or_else payload.name b.name;
    notes = or_else payload.notes b.notes;
  }
  ok (b', record db { bays = save b' db.bays })

unfoldable pub update_bay : AuthContext → ℕ → BayUpdate → Db → Outcome Bay × Db
update_bay auth key payload = transaction (update_bay_work auth key payload) the_row

unfoldable pub archive_bay_work : AuthContext → ℕ → Db → Outcome (Bay × Db)
archive_bay_work auth key db = do
  b ← get_bay db auth key
  let b' : Bay = record b { is_archived = true }
  ok (b', record db { bays = save b' db.bays })

unfoldable pub archive_bay : AuthContext → ℕ → Db → Outcome Bay × Db
archive_bay auth key = transaction (archive_bay_work auth key) the_row

pub record WorkingHoursCreate : Type 0 where
  pub technician_id : ℕ
  pub day_of_week : ℕ
  pub start_minute : ℕ
  pub end_minute : ℕ

pub record WorkingHoursUpdate : Type 0 where
  pub day_of_week : Option ℕ
  pub start_minute : Option ℕ
  pub end_minute : Option ℕ

-- The constraints of the table.
abbrev pub hours_checks : WorkingHours → Bool
hours_checks h =
    leb h.day_of_week 6
    && (ltb h.start_minute 1440
        && (ltb 0 h.end_minute && (leb h.end_minute 1440 && ltb h.start_minute h.end_minute)))

unfoldable pub get_working_hours : Db → AuthContext → ℕ → Outcome WorkingHours
get_working_hours db auth key = do
  shop_id ← effective_shop_id db auth
  require (scalar (λ h. h.id == key && h.shop_id == shop_id) db.working_hours)
      working_hours_not_found

unfoldable pub create_hours_work :
    AuthContext → ℕ → WorkingHoursCreate → Db → Outcome (WorkingHours × Db)
create_hours_work auth new_id payload db = do
  validate_technician db auth payload.technician_id
  owner_user_id ← effective_shop_owner_id db auth
  shop_id ← resolve_shop_id db auth
  let h : WorkingHours = record {
    id = new_id;
    shop_id = shop_id;
    technician_id = payload.technician_id;
    day_of_week = payload.day_of_week;
    start_minute = payload.start_minute;
    end_minute = payload.end_minute;
  }
  guard (hours_checks h) integrity_error
  ok (h, record db { working_hours = db.working_hours ++ h ∷ [] })

unfoldable pub create_working_hours :
    AuthContext → ℕ → WorkingHoursCreate → Db → Outcome WorkingHours × Db
create_working_hours auth new_id payload =
    transaction (create_hours_work auth new_id payload) the_row

unfoldable pub update_hours_work :
    AuthContext → ℕ → WorkingHoursUpdate → Db → Outcome (WorkingHours × Db)
update_hours_work auth key payload db = do
  h ← get_working_hours db auth key
  let start_minute : ℕ = or_else payload.start_minute h.start_minute
  let end_minute : ℕ = or_else payload.end_minute h.end_minute
  guard (ltb start_minute end_minute) end_not_later
  let h' : WorkingHours = record h {
    day_of_week = or_else payload.day_of_week h.day_of_week;
    start_minute = start_minute;
    end_minute = end_minute;
  }
  guard (hours_checks h') integrity_error
  ok (h', record db { working_hours = save h' db.working_hours })

unfoldable pub update_working_hours :
    AuthContext → ℕ → WorkingHoursUpdate → Db → Outcome WorkingHours × Db
update_working_hours auth key payload = transaction (update_hours_work auth key payload) the_row

unfoldable pub delete_hours_work : AuthContext → ℕ → Db → Outcome (Unit {0} × Db)
delete_hours_work auth key db = do
  h ← get_working_hours db auth key
  ok (tt, record db { working_hours = remove h.id db.working_hours })

unfoldable pub delete_working_hours : AuthContext → ℕ → Db → Outcome (Unit {0}) × Db
delete_working_hours auth key = transaction (delete_hours_work auth key) the_row
