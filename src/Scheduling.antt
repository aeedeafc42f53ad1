-- ===== src/Scheduling.antt =====
-- app/scheduling_store.py: bays, working hours, schedule blocks and appointments. An instant is a
-- number of microseconds in UTC; `local` stands for `astimezone(SHOP_TIMEZONE)`.
pub mod Conflicts
pub mod Appointments
pub mod Calendar
pub mod Blocks
pub mod Closed
pub mod Release
pub mod Apart
pub mod Pad
pub mod Booking
pub mod Steps
pub mod Keeps
pub mod History
pub mod Reactivation
pub mod Free
use optimus_os.Base.{ℕ, ◌*◌, Bool, true, Option, none, some, ◌&&◌, ◌==◌}
use optimus_os.Base.Table.{scalar}
use optimus_os.Base.Result.{ok, ◌>>=◌, ◌>>◌, require, guard}
use optimus_os.Errors.{
  Outcome, customer_not_found, vehicle_not_found, vehicle_of_another_customer,
  selected_technician_not_found, selected_bay_not_found, selected_work_order_not_found,
}
use optimus_os.Db.{Db}
use optimus_os.Auth.{AuthContext, effective_shop_id}

-- `timedelta(minutes=n)`
abbrev pub minutes : ℕ → ℕ
minutes n = n * 60000000

-- Day, minute of the day and weekday of an instant on the shop's clock.
pub record LocalTime : Type 0 where
  pub date : ℕ
  pub minute : ℕ
  pub weekday : ℕ

-- What the conflict engine is asked about.
pub record Slot : Type 0 where
  pub technician_id : ℕ
  pub bay_id : Option ℕ
  pub start_time : ℕ
  pub end_time : ℕ
  pub travel_buffer_minutes : ℕ

unfoldable pub validate_customer : Db → AuthContext → ℕ → Outcome (Unit {0})
validate_customer db auth key = do
  shop_id ← effective_shop_id db auth
  c ← require (scalar (λ c. c.id == key && c.shop_id == shop_id) db.customers) customer_not_found
  ok tt

unfoldable pub validate_vehicle : Db → AuthContext → ℕ → ℕ → Outcome (Unit {0})
validate_vehicle db auth key customer = do
  shop_id ← effective_shop_id db auth
  v ← require (scalar (λ v. v.id == key && v.shop_id == shop_id) db.vehicles) vehicle_not_found
  guard (v.customer_id == customer) vehicle_of_another_customer

unfoldable pub validate_technician : Db → AuthContext → ℕ → Outcome (Unit {0})
validate_technician db auth key = do
  shop_id ← effective_shop_id db auth
  t ←
      require (scalar (λ t. t.id == key && t.shop_id == shop_id) db.technicians)
        selected_technician_not_found
  ok tt

unfoldable pub validate_bay : Db → AuthContext → Option ℕ → Outcome (Unit {0})
validate_bay db auth none = ok tt
validate_bay db auth (some key) = do
  shop_id ← effective_shop_id db auth
  b ← require (scalar (λ b. b.id == key && b.shop_id == shop_id) db.bays) selected_bay_not_found
  ok tt

unfoldable pub validate_work_order : Db → AuthContext → Option ℕ → Outcome (Unit {0})
validate_work_order db auth none = ok tt
validate_work_order db auth (some key) = do
  shop_id ← effective_shop_id db auth
  w ←
      require (scalar (λ w. w.id == key && w.shop_id == shop_id) db.work_orders)
        selected_work_order_not_found
  ok tt
