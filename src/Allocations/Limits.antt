-- ===== src/Allocations/Limits.antt =====
-- What bounds the quantities of an allocation, and requests that never succeed.
use optimus_os.Base.{ℕ, ◌+◌, ◌-◌, ◌≤◌, ◌<◌, ◌≡◌, arith}
use optimus_os.Base.Result.{ok, err, transaction_fails}
use optimus_os.Errors.{Error, integrity_error}
use optimus_os.Db.{Db}
use optimus_os.Db.Accounts.{manager}
use optimus_os.Db.Stock.{Part, PartAllocation, allocation_id}
use optimus_os.Auth.{AuthContext}
use optimus_os.Allocations.{AllocateRequest, record_event, save_allocation, to_read}
use optimus_os.Allocations.Quantities.{
  locked_allocation, locked_part, allocate_work, use_work, return_work, allocate_part,
  use_part_allocation, return_part_allocation,
}

-- A return that would make the returned units more than the used ones is refused by the
-- database, whatever the code's own bound admits: the request fails and changes nothing.
pub return_part_allocation-integrity_error :
    (auth : AuthContext) (key quantity : ℕ) (db : Db) (a : PartAllocation) (part : Part)
    → locked_allocation db auth key ≡ ok a
    → locked_part db a ≡ ok part
    → a.quantity_used + a.quantity_returned + quantity ≤ a.quantity_allocated
    → a.quantity_used < a.quantity_returned + quantity
    → return_part_allocation auth key quantity db ≡ (err integrity_error, db)
unfolding return_part_allocation return_work save_allocation
return_part_allocation-integrity_error auth key quantity db a part found stocked within beyond =
    ground arith

-- Using all that `use` offers after a return accounts for more units than were allocated.
pub use_work_overcommits :
    (auth : AuthContext) (key : ℕ) (db : Db) (a a' : PartAllocation) (db' : Db)
    → locked_allocation db auth key ≡ ok a
    → 0 < a.quantity_returned
    → use_work auth key (a.quantity_allocated - a.quantity_used) db ≡ ok (a', db')
    → a'.quantity_allocated < a'.quantity_used + a'.quantity_returned
unfolding use_work save_allocation record_event
use_work_overcommits auth key db a a' db' found back h = ground arith

module _ (auth : AuthContext) (key : ℕ) (db : Db) (m : auth.user.role ≡ manager) where
  allocate_work-manager :
      (payload : AllocateRequest) (a' : PartAllocation) (db' : Db)
      → allocate_work auth key payload db ≡ ok (a', db')
      → ⊥
  unfolding allocate_work record_event
  allocate_work-manager payload a' db' h = ground arith

  use_work-manager :
      (quantity : ℕ) (a' : PartAllocation) (db' : Db)
      → use_work auth key quantity db ≡ ok (a', db')
      → ⊥
  unfolding use_work record_event
  use_work-manager quantity a' db' h = ground arith

  return_work-manager :
      (quantity : ℕ) (a' : PartAllocation) (db' : Db)
      → return_work auth key quantity db ≡ ok (a', db')
      → ⊥
  unfolding return_work record_event
  return_work-manager quantity a' db' h = ground arith

-- `allocate`, `use` and `return` fail for every manager and change nothing.
pub manager_moves_nothing :
    (auth : AuthContext) (key : ℕ) (payload : AllocateRequest) (quantity : ℕ) (db : Db)
    → auth.user.role ≡ manager
    → ((e : Error) × (allocate_part auth key payload db ≡ (err e, db)))
      × ((e : Error) × (use_part_allocation auth key quantity db ≡ (err e, db)))
      × ((e : Error) × (return_part_allocation auth key quantity db ≡ (err e, db)))
unfolding allocate_part use_part_allocation return_part_allocation
manager_moves_nothing auth key payload quantity db m = (
  transaction_fails (allocate_work auth key payload) (to_read auth) db
      (allocate_work-manager auth key db m payload),
  transaction_fails (use_work auth key quantity) (to_read auth) db
      (use_work-manager auth key db m quantity),
  transaction_fails (return_work auth key quantity) (to_read auth) db
      (return_work-manager auth key db m quantity),
)
