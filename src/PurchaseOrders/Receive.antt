-- ===== src/PurchaseOrders/Receive.antt =====
-- `receive_purchase_order_line_item` of app/purchase_order_store.py.
use optimus_os.Base.{
  ℕ, ◌+◌, ◌-◌, String, Bool, true, false, List, [], ◌∷◌, ◌++◌, Option, ◌&&◌, ◌==◌, ltb, leb, all,
  filter, not, if◌then◌else◌,
}
use optimus_os.Base.Table.{scalar, get, save}
use optimus_os.Base.Result.{ok, ◌>>=◌, ◌>>◌, require, guard, transaction}
use optimus_os.Errors.{
  Outcome, line_item_not_found, assertion_failed, integrity_error, cannot_receive_now,
  cannot_receive,
}
use optimus_os.Db.{Db}
use optimus_os.Db.Stock.{
  Part, PurchaseOrder, PurchaseOrderLineItem, PurchaseOrderStatus, submitted, partially_received,
  received, line_checks, same_order_status, part_id, line_item_id, purchase_order_id,
}
use optimus_os.Auth.{AuthContext}
use optimus_os.PurchaseOrders.{get_purchase_order, transition, save_order, respond}

pub record ReceiveRequest : Type 0 where
  pub line_item : ℕ
  pub quantity : ℕ
  pub note : Option String

abbrev pub may_receive : PurchaseOrderStatus → Bool
may_receive submitted = true
may_receive partially_received = true
may_receive _ = false

abbrev pub remaining : PurchaseOrderLineItem → ℕ
remaining l = l.quantity_ordered - l.quantity_received

-- The lines of an order, and whether each of them is there in full.
abbrev pub lines_of : ℕ → List PurchaseOrderLineItem → List PurchaseOrderLineItem
lines_of order lines = filter (λ l. l.purchase_order_id == order) lines

abbrev pub is_full : PurchaseOrderLineItem → Bool
is_full l = leb l.quantity_ordered l.quantity_received

abbrev pub all_received : ℕ → List PurchaseOrderLineItem → Bool
all_received order lines = all is_full (lines_of order lines)

-- The line as it is read under the lock.
unfoldable pub locked_line : PurchaseOrder → ℕ → Db → Outcome PurchaseOrderLineItem
locked_line o key db = do
  require (scalar (λ l. l.id == key && l.purchase_order_id == o.id) db.purchase_order_line_items)
      line_item_not_found
  require (get key db.purchase_order_line_items) assertion_failed

-- The part of a line, in the order's shop.
unfoldable pub line_part : PurchaseOrder → PurchaseOrderLineItem → Db → Outcome Part
line_part o l db =
    require (scalar (λ p. p.id == l.part_id && p.shop_id == o.shop_id) db.parts) assertion_failed

-- The status of the order after the receipt.
unfoldable pub settle : PurchaseOrder → Bool → ℕ → Outcome PurchaseOrder
settle o true now = if same_order_status o.status received then ok o else transition o received now
settle o false now =
    if same_order_status o.status submitted then transition o partially_received now else ok o

-- Line, part and receipt, as they are flushed before the order's status is settled.
abbrev pub deliver :
    AuthContext → PurchaseOrder → PurchaseOrderLineItem → Part → ReceiveRequest → Db → Db
deliver auth o l part payload db = record db {
  purchase_order_line_items = save l db.purchase_order_line_items;
  parts =
      save (record part { quantity_on_hand = part.quantity_on_hand + payload.quantity }) db.parts;
  purchase_order_receipts =
      db.purchase_order_receipts
      ++ record {
        purchase_order_id = o.id;
        line_item_id = l.id;
        owner_user_id = o.owner_user_id;
        shop_id = o.shop_id;
        quantity_received = payload.quantity;
        received_by_user_id = auth.user.id;
        received_by_name = auth.user.display_name;
        note = payload.note;
      }
        ∷ [];
}

unfoldable pub receive_work :
    AuthContext → ℕ → ReceiveRequest → ℕ → Db → Outcome (PurchaseOrder × Db)
receive_work auth key payload now db = do
  o ← get_purchase_order db auth key
  l ← locked_line o payload.line_item db
  guard (may_receive o.status) cannot_receive_now
  guard (not (ltb (remaining l) payload.quantity)) (cannot_receive payload.quantity (remaining l))
  let l' : PurchaseOrderLineItem = record l {
    quantity_received = l.quantity_received + payload.quantity;
  }
  part ← line_part o l db
  guard (line_checks l') integrity_error
  let db' : Db = deliver auth o l' part payload db
  o' ← settle o (all_received o.id db'.purchase_order_line_items) now
  ok (o', save_order o' db')

unfoldable pub receive_purchase_order_line_item :
    AuthContext → ℕ → ReceiveRequest → ℕ → Db → Outcome PurchaseOrder × Db
receive_purchase_order_line_item auth key payload now =
    transaction (receive_work auth key payload now) respond
