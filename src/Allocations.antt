-- ===== src/Allocations.antt =====
-- app/part_allocation_store.py: parts set aside for work orders. Each operation is a function of
-- the database; a row lock holds to the end of the request, so one request is one step.
pub mod Quantities
pub mod Steps
pub mod Conservation
pub mod Limits
use optimus_os.Base.{
  ℕ, ◌+◌, ◌-◌, String, Bool, true, false, List, [], ◌∷◌, ◌++◌, Option, none, some, any, ◌&&◌, ◌==◌,
  if◌then◌else◌, is_some_eq, ltb,
}
use optimus_os.Base.Table.{scalar, get, save}
use optimus_os.Base.Result.{Result, ok, err, ◌>>=◌, ◌>>◌, require, guard, transaction}
use optimus_os.Errors.{
  Error, Outcome, allocation_not_found, selected_work_order_not_found, work_order_not_assigned,
  selected_part_not_found, part_archived, cross_shop_part_link, override_reason_required,
  cannot_allocate, cannot_use, cannot_return, assertion_failed, integrity_error,
}
use optimus_os.Db.{Db}
use optimus_os.Db.Accounts.{Technician, is_technician, technician_id}
use optimus_os.Db.Stock.{
  Part, PartAllocation, AllocationEventType, allocated, used, returned, allocation_checks,
  actor_checks, part_id, allocation_id,
}
use optimus_os.Db.Work.{WorkOrder}
use optimus_os.Auth.{
  AuthContext, effective_shop_id, effective_shop_owner_id, resolve_shop_id, get_technician_for_user,
}

-- The request bodies. Pydantic has checked 0 < quantity ≤ 100000 and stripped the reason.
pub record AllocateRequest : Type 0 where
  pub quantity : ℕ
  pub override : Bool
  pub override_reason : Option String

pub record CreateRequest : Type 0 where
  pub part : ℕ
  pub quantity_required : ℕ

-- The technician's view of `_to_read` has no cost; the other one has.
pub data AllocationRead : Type 0 where
  technician_view : PartAllocation → (part_number description : String) → AllocationRead
  full_view : PartAllocation → (part_number description : String) → Option ℕ → AllocationRead

-- The work orders of `assigned_work_order_ids`.
abbrev pub is_assigned : Db → Technician → ℕ → Bool
is_assigned db t work_order =
    any
      (λ w.
        w.id == work_order && (is_some_eq w.assigned_technician_id t.id && w.shop_id == t.shop_id))
      db.work_orders

-- The rows that a caller of a shop may see, `none` for a technician without a profile.
abbrev pub sees : Db → ℕ → Option Technician → PartAllocation → Bool
sees db shop_id none a = false
sees db shop_id (some t) a = a.shop_id == shop_id && is_assigned db t a.work_order_id

unfoldable pub owner_query : Db → AuthContext → Outcome (PartAllocation → Bool)
owner_query db auth = do
  shop_id ← effective_shop_id db auth
  if is_technician auth.user.role
      then (do technician ← get_technician_for_user db auth; ok (sees db shop_id technician))
      else ok (λ a. a.shop_id == shop_id)

unfoldable pub get_allocation : Db → AuthContext → ℕ → Outcome PartAllocation
unfolding owner_query
get_allocation db auth key = do
  visible ← owner_query db auth
  require (scalar (λ a. visible a && a.id == key) db.part_allocations) allocation_not_found

-- The technician half of `_validate_work_order_access`.
abbrev assigned_to : WorkOrder → Option Technician → Outcome WorkOrder
assigned_to w none = err work_order_not_assigned
assigned_to w (some t) =
    if is_some_eq w.assigned_technician_id t.id then ok w else err work_order_not_assigned

unfoldable pub validate_work_order_access : Db → AuthContext → ℕ → Outcome WorkOrder
validate_work_order_access db auth key = do
  shop_id ← effective_shop_id db auth
  work_order ←
      require (scalar (λ w. w.id == key && w.shop_id == shop_id) db.work_orders)
        selected_work_order_not_found
  if is_technician auth.user.role
      then (do technician ← get_technician_for_user db auth; assigned_to work_order technician)
      else ok work_order

unfoldable pub require_part : Db → AuthContext → ℕ → Outcome Part
require_part db auth key = do
  shop_id ← effective_shop_id db auth
  require (scalar (λ p. p.id == key && p.shop_id == shop_id) db.parts) selected_part_not_found

unfoldable pub to_read : AuthContext → PartAllocation → Db → Outcome AllocationRead
to_read auth a db = do
  part ← require (get a.part_id db.parts) assertion_failed
  guard (part.shop_id == a.shop_id) cross_shop_part_link
  ok (
      if is_technician auth.user.role
      then technician_view a part.part_number part.description
      else full_view a part.part_number part.description a.unit_cost_snapshot)

-- `_record_event`, with the check that the database makes of the actor.
unfoldable pub record_event :
    PartAllocation → AuthContext → AllocationEventType → ℕ → Bool → Option String → Db → Outcome Db
record_event a auth event_type delta override reason db = do
  guard (actor_checks auth.user.role) integrity_error
  ok (record db {
    part_allocation_events =
        db.part_allocation_events
        ++ record {
          allocation_id = a.id;
          owner_user_id = a.owner_user_id;
          shop_id = a.shop_id;
          event_type = event_type;
          quantity_delta = delta;
          actor_type = auth.user.role;
          actor_user_id = auth.user.id;
          actor_name = auth.user.display_name;
          inventory_override = override;
          override_reason = if override then reason else none;
        }
          ∷ [];
  })

-- Write an allocation back; the database checks the row.
unfoldable pub save_allocation : PartAllocation → Db → Outcome Db
save_allocation a db = do
  guard (allocation_checks a) integrity_error
  ok (record db { part_allocations = save a db.part_allocations })

abbrev pub save_part : Part → Db → Db
save_part p db = record db { parts = save p db.parts }

-- `new_id` is the key that the database gives to the new row.
create_work : AuthContext → ℕ → ℕ → CreateRequest → Db → Outcome (PartAllocation × Db)
create_work auth new_id work_order_id payload db = do
  validate_work_order_access db auth work_order_id
  part ← require_part db auth payload.part
  guard (if part.is_archived then false else true) part_archived
  owner_user_id ← effective_shop_owner_id db auth
  shop_id ← resolve_shop_id db auth
  let a : PartAllocation = record {
    id = new_id;
    owner_user_id = owner_user_id;
    shop_id = shop_id;
    work_order_id = work_order_id;
    part_id = payload.part;
    quantity_required = payload.quantity_required;
    quantity_allocated = 0;
    quantity_used = 0;
    quantity_returned = 0;
    unit_cost_snapshot = part.unit_cost;
    created_by_user_id = auth.user.id;
  }
  guard (allocation_checks a) integrity_error
  ok (a, record db { part_allocations = db.part_allocations ++ a ∷ [] })

unfoldable pub create_part_allocation :
    AuthContext → ℕ → ℕ → CreateRequest → Db → Outcome AllocationRead × Db
unfolding create_work
create_part_allocation auth new_id work_order_id payload =
    transaction (create_work auth new_id work_order_id payload) (to_read auth)
