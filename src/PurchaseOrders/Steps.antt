-- ===== src/PurchaseOrders/Steps.antt =====
-- What a successful receipt has read and written, and that it moves no stock but what arrives.
use optimus_os.Base.{ℕ, ◌+◌, ◌≡◌, Bool, true, some, arith, ap, sym, not, ltb, ◌∙◌}
use mathlib.Core.Path.{subst}
use optimus_os.Base.Table.{get, save, scalar, scalar_sound, get-scalar, get-id, sum_of-save, Unique}
use optimus_os.Base.Result.{ok, >>=-eq-ok, require-eq-ok, guard, guard-eq-ok}
use optimus_os.Errors.{assertion_failed, cannot_receive_now, cannot_receive, integrity_error}
use optimus_os.Db.{Db}
use optimus_os.Db.Stock.{
  Part, PurchaseOrder, PurchaseOrderLineItem, line_checks, part_id, line_item_id, purchase_order_id,
}
use optimus_os.Auth.{AuthContext}
use optimus_os.PurchaseOrders.{get_purchase_order, save_order}
use optimus_os.PurchaseOrders.Receive.{
  ReceiveRequest, locked_line, line_part, settle, deliver, receive_work, may_receive, all_received,
  remaining,
}
use optimus_os.Inventory.{delivered_by, Moves, HasKeys, stock_of-save}

-- The line with the delivery added.
abbrev pub with_delivery : PurchaseOrderLineItem → ℕ → PurchaseOrderLineItem
with_delivery l quantity = record l { quantity_received = l.quantity_received + quantity }

pub record ReceiveStep (auth : AuthContext) (key : ℕ) (payload : ReceiveRequest) (now : ℕ) (db : Db)
    (o' : PurchaseOrder) (db' : Db) : Type 0 where
  pub o : PurchaseOrder
  pub l : PurchaseOrderLineItem
  pub part : Part
  pub found : get_purchase_order db auth key ≡ ok o
  pub line : locked_line o payload.line_item db ≡ ok l
  pub stocked : line_part o l db ≡ ok part
  pub open_status : may_receive o.status ≡ true
  pub checked : line_checks (with_delivery l payload.quantity) ≡ true
  pub settled :
      settle o
        (all_received o.id (save (with_delivery l payload.quantity) db.purchase_order_line_items))
        now
      ≡ ok o'
  pub result :
      db' ≡ save_order o' (deliver auth o (with_delivery l payload.quantity) part payload db)

pub receive_work-ReceiveStep :
    (auth : AuthContext) (key : ℕ) (payload : ReceiveRequest) (now : ℕ) (db : Db)
    (o' : PurchaseOrder) (db' : Db)
    → receive_work auth key payload now db ≡ ok (o', db')
    → ReceiveStep auth key payload now db o' db'
unfolding receive_work
receive_work-ReceiveStep auth key payload now db o' db' h =
    let (o, found, h₁) = >>=-eq-ok (get_purchase_order db auth key) _ _ h in
    let (l, line, h₂) = >>=-eq-ok (locked_line o payload.line_item db) _ _ h₁ in
    let (u₁, opened, h₃) = >>=-eq-ok (guard (may_receive o.status) cannot_receive_now) _ _ h₂ in
    let room : Bool = not (ltb (remaining l) payload.quantity) in
    let (u₂, small, h₄) =
      >>=-eq-ok (guard room (cannot_receive payload.quantity (remaining l))) _ _ h₃ in
    let (part, stocked, h₅) = >>=-eq-ok (line_part o l db) _ _ h₄ in
    let (u₃, kept, h₆) =
      >>=-eq-ok (guard (line_checks (with_delivery l payload.quantity)) integrity_error) _ _ h₅ in
    let (o'', settled, h₇) = >>=-eq-ok (settle o _ now) _ _ h₆ in
    record {
      o = o;
      l = l;
      part = part;
      found = found;
      line = line;
      stocked = stocked;
      open_status = guard-eq-ok _ cannot_receive_now opened;
      checked = guard-eq-ok _ integrity_error kept;
      settled = settled ∙ ap (λ t. ok t) (ground (arith, h₇));
      result = ground (arith, h₇);
    }

-- The locked line is the row under its key, and its part the row of the part.
pub get-locked_line :
    (o : PurchaseOrder) (key : ℕ) (db : Db) (l : PurchaseOrderLineItem)
    → locked_line o key db ≡ ok l
    → get l.id db.purchase_order_line_items ≡ some l
unfolding locked_line
get-locked_line o key db l h =
    let row : get key db.purchase_order_line_items ≡ some l = ground arith in
    let same : l.id ≡ key = get-id key db.purchase_order_line_items l row in
    subst (λ k. get k db.purchase_order_line_items ≡ some l) (sym same) row

pub get-line_part :
    (o : PurchaseOrder) (l : PurchaseOrderLineItem) (db : Db) (part : Part)
    → Unique db.parts
    → line_part o l db ≡ ok part
    → (get part.id db.parts ≡ some part) × (part.id ≡ l.part_id)
unfolding line_part
get-line_part o l db part u h =
    let found : scalar _ db.parts ≡ some part = require-eq-ok _ assertion_failed part h in
    (get-scalar _ db.parts part u found, ground (arith, scalar_sound _ db.parts part found))

-- With unique primary keys, a successful receipt adds to the stock of every part exactly what it
-- adds to the delivered quantity of that part's order lines.
pub receive_work-Moves :
    (auth : AuthContext) (key : ℕ) (payload : ReceiveRequest) (now : ℕ) (db : Db)
    (o' : PurchaseOrder) (db' : Db) (p : ℕ)
    → HasKeys db
    → receive_work auth key payload now db ≡ ok (o', db')
    → Moves p 0 db db'
receive_work-Moves auth key payload now db o' db' p keys h =
    let s : ReceiveStep auth key payload now db o' db' =
      receive_work-ReceiveStep auth key payload now db o' db' h in
    let row = get-locked_line s.o payload.line_item db s.l s.line in
    let (stock, same) = get-line_part s.o s.l db s.part keys.parts s.stocked in
    let more : Part = record s.part {
      quantity_on_hand = s.part.quantity_on_hand + payload.quantity;
    } in
    rw s.result (
      ground (
        arith,
        row,
        stock,
        same,
        stock_of-save p more s.part db.parts stock,
        sum_of-save (delivered_by p) (with_delivery s.l payload.quantity) s.l
            db.purchase_order_line_items,
      ))
