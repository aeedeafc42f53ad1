-- ===== src/Tests/Allocations.antt =====
-- The theorems on allocations at one shop.
use optimus_os.Base.{◌-◌, ◌≡◌, refl, true, some, arith, ◌==◌, if◌then◌else◌}
use optimus_os.Base.Result.{ok, err}
use optimus_os.Errors.{Error, integrity_error}
use optimus_os.Db.{Db}
use optimus_os.Db.Stock.{PartAllocation}
use optimus_os.Auth.{effective_shop_id}
use optimus_os.Allocations.{
  AllocateRequest, owner_query, get_allocation, save_allocation, record_event,
}
use optimus_os.Allocations.Quantities.{
  locked_allocation, locked_part, take_stock, allocate_work, use_work, return_work, allocate_part,
  use_part_allocation, return_part_allocation,
}
use optimus_os.Allocations.Conservation.{allocate_work-Moves}
use optimus_os.Allocations.Limits.{return_part_allocation-integrity_error, manager_moves_nothing}
use optimus_os.Inventory.{on_hand, Moves, HasKeys}
use optimus_os.Tests.{as_owner, as_manager, allocation, shop_with, brake_pads, value_or}

-- Six are asked for and four are there.
abbrev six : AllocateRequest
six = record { quantity = 6; override = true; override_reason = some "counted again" }

abbrev allocating : PartAllocation × Db
unfolding allocate_work locked_allocation locked_part get_allocation owner_query effective_shop_id
    take_stock save_allocation record_event
allocating =
    value_or (allocation 0 0 0, shop_with (allocation 0 0 0))
      (allocate_work as_owner 7 six (shop_with (allocation 0 0 0)))

abbrev using_two : PartAllocation × Db
unfolding use_work locked_allocation get_allocation owner_query effective_shop_id save_allocation
    record_event
using_two =
    value_or (allocation 6 2 1, shop_with (allocation 6 2 1))
      (use_work as_owner 7 4 (shop_with (allocation 6 2 1)))

abbrev returning : PartAllocation × Db
unfolding return_work locked_allocation locked_part get_allocation owner_query effective_shop_id
    save_allocation record_event
returning =
    value_or (allocation 6 3 0, shop_with (allocation 6 3 0))
      (return_work as_owner 7 2 (shop_with (allocation 6 3 0)))

shop_keys : (a : PartAllocation) → HasKeys (shop_with a)
shop_keys a = record { parts = (refl, tt); allocations = (refl, tt); lines = (refl, tt) }

allocating-eq-ok : allocate_work as_owner 7 six (shop_with (allocation 0 0 0)) ≡ ok allocating
unfolding allocating allocate_work locked_allocation locked_part get_allocation owner_query
    effective_shop_id take_stock save_allocation record_event
allocating-eq-ok = refl

using_two-eq-ok : use_work as_owner 7 4 (shop_with (allocation 6 2 1)) ≡ ok using_two
unfolding using_two use_work locked_allocation get_allocation owner_query effective_shop_id
    save_allocation record_event
using_two-eq-ok = refl

returning-eq-ok : return_work as_owner 7 2 (shop_with (allocation 6 3 0)) ≡ ok returning
unfolding returning return_work locked_allocation locked_part get_allocation owner_query
    effective_shop_id save_allocation record_event
returning-eq-ok = refl

allocate_work-Moves_example :
    Moves 5
      (if allocating.0.part_id == 5 then 6 - on_hand 5 (shop_with (allocation 0 0 0)) else 0)
      (shop_with (allocation 0 0 0))
      allocating.1
allocate_work-Moves_example =
    allocate_work-Moves as_owner 7 six (shop_with (allocation 0 0 0)) allocating.0 allocating.1 5
      (shop_keys (allocation 0 0 0)) allocating-eq-ok

found_unused : locked_allocation (shop_with (allocation 6 0 0)) as_owner 7 ≡ ok (allocation 6 0 0)
unfolding locked_allocation get_allocation owner_query effective_shop_id
found_unused = refl

found_part : locked_part (shop_with (allocation 6 0 0)) (allocation 6 0 0) ≡ ok brake_pads
unfolding locked_part
found_part = refl

found_returned : locked_allocation (shop_with (allocation 6 2 1)) as_owner 7 ≡ ok (allocation 6 2 1)
unfolding locked_allocation get_allocation owner_query effective_shop_id
found_returned = refl

-- Six were given, none is used, and one cannot be given back.
return_part_allocation-integrity_error_example :
    return_part_allocation as_owner 7 1 (shop_with (allocation 6 0 0))
    ≡ (err integrity_error, shop_with (allocation 6 0 0))
return_part_allocation-integrity_error_example =
    return_part_allocation-integrity_error as_owner 7 1 (shop_with (allocation 6 0 0))
      (allocation 6 0 0) brake_pads found_unused found_part (omega arith) (omega arith)

manager_moves_nothing_example :
    ((e : Error) × (allocate_part as_manager 7 six (shop_with (allocation 6 2 0))
        ≡ (err e, shop_with (allocation 6 2 0))))
    × ((e : Error) × (use_part_allocation as_manager 7 1 (shop_with (allocation 6 2 0))
          ≡ (err e, shop_with (allocation 6 2 0))))
    × ((e : Error) × (return_part_allocation as_manager 7 1 (shop_with (allocation 6 2 0))
          ≡ (err e, shop_with (allocation 6 2 0))))
manager_moves_nothing_example =
    manager_moves_nothing as_manager 7 six 1 (shop_with (allocation 6 2 0)) refl
