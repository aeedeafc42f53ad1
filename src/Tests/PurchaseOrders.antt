-- ===== src/Tests/PurchaseOrders.antt =====
-- The theorems on purchase orders at one shop.
use optimus_os.Base.{
  ◌≤◌, ◌≡◌, refl, false, List, [], ◌∷◌, ◌++◌, none, arith, inl, inr, ◌==◌, sum_of, length,
  Bool-cases, ==_eq,
}
use optimus_os.Base.Int.{pos}
use mathlib.Core.Path.{subst}
use optimus_os.Base.Money.{number, round_div}
use optimus_os.Base.Result.{ok, err}
use optimus_os.Errors.{Error}
use optimus_os.Db.{Db}
use optimus_os.Db.Stock.{PurchaseOrder, PurchaseOrderLineItem, draft, received, cancelled}
use optimus_os.Auth.{effective_shop_id, effective_shop_owner_id, resolve_shop_id}
use optimus_os.Allocations.{require_part}
use optimus_os.PurchaseOrders.{get_purchase_order, move_work, transition, validate_vendor, money}
use optimus_os.PurchaseOrders.Create.{
  CreateRequest, Attempt, create_purchase_order, validate_item, validate_items, attempt_create,
  new_order, next_po_number, is_taken, numeric_column_max,
}
use optimus_os.PurchaseOrders.Receive.{
  ReceiveRequest, receive_work, locked_line, line_part, settle, all_received,
}
use optimus_os.PurchaseOrders.Steps.{receive_work-Moves}
use optimus_os.PurchaseOrders.Lifecycle.{
  receive_work-IsSettled, move_work-IsSettled, closed_order_stays, IsSettled, Matches,
}
use optimus_os.PurchaseOrders.Totals.{create_purchase_order-total, line_cost}
use optimus_os.Inventory.{Moves, HasKeys}
use optimus_os.Tests.{as_owner, allocation, shop_with, order, value_or}

abbrev shop : Db
shop = shop_with (allocation 0 0 0)

-- All ten are delivered.
abbrev ten : ReceiveRequest
ten = record { line_item = 8; quantity = 10; note = none }

abbrev receiving : PurchaseOrder × Db
unfolding receive_work get_purchase_order locked_line line_part settle transition effective_shop_id
receiving = value_or (order, shop) (receive_work as_owner 3 ten 20 shop)

receiving-eq-ok : receive_work as_owner 3 ten 20 shop ≡ ok receiving
unfolding receiving receive_work get_purchase_order locked_line line_part settle transition
    effective_shop_id
receiving-eq-ok = refl

shop_keys : HasKeys shop
shop_keys = record { parts = (refl, tt); allocations = (refl, tt); lines = (refl, tt) }

shop-IsSettled : IsSettled shop
shop-IsSettled k o h = elim (Bool-cases (3 == k)) [
  | inl e ↦
      let is_order : order ≡ o = ground (arith, e, h) in
      subst (λ b. Matches b.status (all_received k shop.purchase_order_line_items)) is_order
        (subst (λ i. all_received i shop.purchase_order_line_items ≡ false) (==_eq 3 k e) refl)
  | inr e ↦ absurd (ground (arith, e, h))
]

receive_work-Moves_example : Moves 5 0 shop receiving.1
receive_work-Moves_example =
    receive_work-Moves as_owner 3 ten 20 shop receiving.0 receiving.1 5 shop_keys receiving-eq-ok

receive_work-IsSettled_example : IsSettled receiving.1
receive_work-IsSettled_example =
    receive_work-IsSettled as_owner 3 ten 20 shop receiving.0 receiving.1 (refl, tt) (refl, tt)
      shop-IsSettled receiving-eq-ok

abbrev cancelling : PurchaseOrder × Db
unfolding move_work get_purchase_order transition effective_shop_id
cancelling = value_or (order, shop) (move_work as_owner 3 cancelled 20 shop)

cancelling-eq-ok : move_work as_owner 3 cancelled 20 shop ≡ ok cancelling
unfolding cancelling move_work get_purchase_order transition effective_shop_id
cancelling-eq-ok = refl

move_work-IsSettled_example : IsSettled cancelling.1
move_work-IsSettled_example =
    move_work-IsSettled as_owner 3 cancelled 20 shop cancelling.0 cancelling.1 (inr refl) (refl, tt)
      shop-IsSettled cancelling-eq-ok

found_received : get_purchase_order receiving.1 as_owner 3 ≡ ok receiving.0
unfolding receiving receive_work get_purchase_order locked_line line_part settle transition
    effective_shop_id
found_received = refl

is_received : receiving.0.status ≡ received
unfolding receiving receive_work get_purchase_order locked_line line_part settle transition
    effective_shop_id
is_received = refl

closed_order_stays_example :
    ((e : Error) × (move_work as_owner 3 cancelled 30 receiving.1 ≡ err e))
    × ((e : Error) × (receive_work as_owner 3 ten 30 receiving.1 ≡ err e))
closed_order_stays_example =
    closed_order_stays as_owner 3 receiving.1 receiving.0 found_received (inl is_received) ten
      cancelled 30

-- Two brake pads at 25.00.
abbrev two_pads : CreateRequest
two_pads = record {
  vendor_id = 2;
  notes = none;
  line_items = record { part = 5; quantity_ordered = 2; unit_cost = number (pos 25) 0 } ∷ [];
}

abbrev try : Attempt
try = record { reads = shop; commits_to = shop; new_id = 4; first_line_id = 9 }

abbrev creating : PurchaseOrder × Db
unfolding create_purchase_order validate_vendor validate_items validate_item require_part money
    round_div attempt_create new_order next_po_number effective_shop_id effective_shop_owner_id
    resolve_shop_id
creating = value_or (order, shop) (create_purchase_order as_owner two_pads shop try try try)

creating-eq-ok : create_purchase_order as_owner two_pads shop try try try ≡ ok creating
unfolding creating create_purchase_order validate_vendor validate_items validate_item require_part
    money round_div attempt_create new_order next_po_number effective_shop_id
    effective_shop_owner_id resolve_shop_id
creating-eq-ok = refl

create_purchase_order-total_example :
    (before : Db) × (rows : List PurchaseOrderLineItem) × (is_taken creating.0.po_number
        before.purchase_orders
      ≡ false)
    × (creating.0.status ≡ draft)
    × (creating.1.purchase_orders ≡ before.purchase_orders ++ creating.0 ∷ [])
    × (creating.1.purchase_order_line_items ≡ before.purchase_order_line_items ++ rows)
    × (creating.0.total ≡ sum_of line_cost rows)
    × (length rows ≡ length two_pads.line_items)
    × (creating.0.total ≤ numeric_column_max)
create_purchase_order-total_example =
    create_purchase_order-total as_owner two_pads shop try try try creating.0 creating.1
      creating-eq-ok
