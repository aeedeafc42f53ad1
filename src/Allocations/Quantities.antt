-- ===== src/Allocations/Quantities.antt =====
-- The three operations of app/part_allocation_store.py that move quantities.
use optimus_os.Base.{ℕ, ◌+◌, ◌-◌, Bool, true, false, none, some, ◌&&◌, ◌==◌, if◌then◌else◌, ltb}
use optimus_os.Base.Int.{ℤ, pos, sub_ℕ, ltb_ℤ}
use optimus_os.Base.Table.{scalar}
use optimus_os.Base.Result.{ok, err, ◌>>=◌, ◌>>◌, require, guard, transaction}
use optimus_os.Errors.{
  Outcome, override_reason_required, cannot_allocate, cannot_use, cannot_return, assertion_failed,
}
use optimus_os.Db.{Db}
use optimus_os.Db.Stock.{Part, PartAllocation, allocated, used, returned}
use optimus_os.Auth.{AuthContext, effective_shop_id}
use optimus_os.Allocations.{
  AllocateRequest, AllocationRead, get_allocation, record_event, save_allocation, save_part,
  to_read,
}

-- The allocation is found as the caller sees it, and read again under its lock.
unfoldable pub locked_allocation : Db → AuthContext → ℕ → Outcome PartAllocation
locked_allocation db auth key = do
  seen ← get_allocation db auth key
  shop_id ← effective_shop_id db auth
  require (scalar (λ a. a.id == seen.id && a.shop_id == shop_id) db.part_allocations)
      assertion_failed

unfoldable pub locked_part : Db → PartAllocation → Outcome Part
locked_part db a =
    require (scalar (λ p. p.id == a.part_id && p.shop_id == a.shop_id) db.parts) assertion_failed

-- What is left on hand, and whether the inventory was overridden.
unfoldable pub take_stock : ℕ → AllocateRequest → Outcome (ℕ × Bool)
take_stock available payload =
    if ltb available payload.quantity
    then if payload.override
      then (elim payload.override_reason [
        | none ↦ err override_reason_required
        | some reason ↦ ok (0, true)
      ])
      else err (cannot_allocate payload.quantity available)
    else ok (available - payload.quantity, false)

unfoldable pub allocate_work :
    AuthContext → ℕ → AllocateRequest → Db → Outcome (PartAllocation × Db)
allocate_work auth key payload db = do
  a ← locked_allocation db auth key
  part ← locked_part db a
  (left, override) ← take_stock part.quantity_on_hand payload
  let a' : PartAllocation = record a {
    quantity_allocated = a.quantity_allocated + payload.quantity;
  }
  db' ← save_allocation a' (save_part (record part { quantity_on_hand = left }) db)
  db'' ← record_event a' auth allocated payload.quantity override payload.override_reason db'
  ok (a', db'')

unfoldable pub allocate_part : AuthContext → ℕ → AllocateRequest → Db → Outcome AllocationRead × Db
allocate_part auth key payload = transaction (allocate_work auth key payload) (to_read auth)

unfoldable pub use_work : AuthContext → ℕ → ℕ → Db → Outcome (PartAllocation × Db)
use_work auth key quantity db = do
  a ← locked_allocation db auth key
  guard (if ltb (a.quantity_allocated - a.quantity_used) quantity then false else true)
      (cannot_use quantity (a.quantity_allocated - a.quantity_used))
  let a' : PartAllocation = record a { quantity_used = a.quantity_used + quantity }
  db' ← save_allocation a' db
  db'' ← record_event a' auth used quantity false none db'
  ok (a', db'')

unfoldable pub use_part_allocation : AuthContext → ℕ → ℕ → Db → Outcome AllocationRead × Db
use_part_allocation auth key quantity = transaction (use_work auth key quantity) (to_read auth)

-- Below zero when more was used and returned than was allocated.
abbrev pub returnable : PartAllocation → ℤ
returnable a = sub_ℕ a.quantity_allocated (a.quantity_used + a.quantity_returned)

unfoldable pub return_work : AuthContext → ℕ → ℕ → Db → Outcome (PartAllocation × Db)
return_work auth key quantity db = do
  a ← locked_allocation db auth key
  part ← locked_part db a
  guard (if ltb_ℤ (returnable a) (pos quantity) then false else true)
      (cannot_return quantity (returnable a))
  let a' : PartAllocation = record a { quantity_returned = a.quantity_returned + quantity }
  db' ←
      save_allocation a'
        (save_part (record part { quantity_on_hand = part.quantity_on_hand + quantity }) db)
  db'' ← record_event a' auth returned quantity false none db'
  ok (a', db'')

unfoldable pub return_part_allocation : AuthContext → ℕ → ℕ → Db → Outcome AllocationRead × Db
return_part_allocation auth key quantity =
    transaction (return_work auth key quantity) (to_read auth)
