-- ===== src/PurchaseOrders.antt =====
-- app/purchase_order_store.py: orders to vendors, from draft to received. `now` is the clock.
pub mod Create
pub mod Receive
pub mod Steps
pub mod Lifecycle
pub mod Totals
use optimus_os.Base.{
  ℕ, ◌*◌, ◌/◌, ◌^◌, Bool, true, false, List, [], ◌∷◌, Option, some, any, ◌&&◌, ◌==◌, ltb,
  if◌then◌else◌,
}
use optimus_os.Base.Int.{pos, negsuc}
use optimus_os.Base.Money.{Decimal, number, not_finite, round_div}
use optimus_os.Base.Table.{scalar, get, save}
use optimus_os.Base.Result.{ok, err, ◌>>=◌, ◌>>◌, require, guard, transaction}
use optimus_os.Errors.{
  Outcome, purchase_order_not_found, vendor_not_found, negative_amount, invalid_operation,
  cannot_move_order,
}
use optimus_os.Db.{Db}
use optimus_os.Db.Stock.{
  PurchaseOrder, PurchaseOrderStatus, draft, submitted, partially_received, received, cancelled,
  same_order_status, purchase_order_id, Vendor,
}
use optimus_os.Auth.{AuthContext, effective_shop_id}

-- A `Decimal` has 28 digits: `quantize` raises when its result has more.
abbrev pub fits : ℕ → Outcome ℕ
fits cents = if ltb cents (10 ^ 28) then ok cents else err invalid_operation

-- `_money`, in cents. The text of a float is always a decimal.
unfoldable pub money : Decimal → Outcome ℕ
unfolding round_div
money not_finite = err negative_amount
money (number (negsuc n) scale) = err negative_amount
money (number (pos n) scale) = fits (round_div (n * 100) (10 ^ scale))

-- The table `TRANSITIONS`.
abbrev pub transitions : PurchaseOrderStatus → List PurchaseOrderStatus
transitions draft = submitted ∷ cancelled ∷ []
transitions submitted = partially_received ∷ received ∷ cancelled ∷ []
transitions partially_received = received ∷ cancelled ∷ []
transitions received = []
transitions cancelled = []

abbrev pub may_move : PurchaseOrderStatus → PurchaseOrderStatus → Bool
may_move current target = any (same_order_status target) (transitions current)

unfoldable pub get_purchase_order : Db → AuthContext → ℕ → Outcome PurchaseOrder
get_purchase_order db auth key = do
  shop_id ← effective_shop_id db auth
  require (scalar (λ o. o.shop_id == shop_id && o.id == key) db.purchase_orders)
      purchase_order_not_found

unfoldable pub validate_vendor : Db → AuthContext → ℕ → Outcome Vendor
validate_vendor db auth key = do
  shop_id ← effective_shop_id db auth
  require (scalar (λ v. v.id == key && v.shop_id == shop_id) db.vendors) vendor_not_found

-- The time stamp of the status that the order moves to.
abbrev pub stamp : PurchaseOrderStatus → ℕ → PurchaseOrder → PurchaseOrder
stamp submitted now o = record o { status = submitted; submitted_at = some now }
stamp received now o = record o { status = received; received_at = some now }
stamp cancelled now o = record o { status = cancelled; cancelled_at = some now }
stamp target now o = record o { status = target }

-- `_transition`, on the order's row.
unfoldable pub transition : PurchaseOrder → PurchaseOrderStatus → ℕ → Outcome PurchaseOrder
transition o target now = do
  guard (may_move o.status target) (cannot_move_order o.status target)
  ok (stamp target now o)

abbrev pub save_order : PurchaseOrder → Db → Db
save_order o db = record db { purchase_orders = save o db.purchase_orders }

unfoldable pub move_work :
    AuthContext → ℕ → PurchaseOrderStatus → ℕ → Db → Outcome (PurchaseOrder × Db)
move_work auth key target now db = do
  o ← get_purchase_order db auth key
  o' ← transition o target now
  ok (o', save_order o' db)

-- The response is the row; `_to_read` raises nothing.
abbrev pub respond : PurchaseOrder → Db → Outcome PurchaseOrder
respond o db = ok o

unfoldable pub submit_purchase_order : AuthContext → ℕ → ℕ → Db → Outcome PurchaseOrder × Db
submit_purchase_order auth key now = transaction (move_work auth key submitted now) respond

unfoldable pub cancel_purchase_order : AuthContext → ℕ → ℕ → Db → Outcome PurchaseOrder × Db
cancel_purchase_order auth key now = transaction (move_work auth key cancelled now) respond
