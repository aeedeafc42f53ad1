-- ===== src/PurchaseOrders/Create.antt =====
-- `create_purchase_order` of app/purchase_order_store.py.
use optimus_os.Base.{
  ℕ, suc, ◌+◌, ◌*◌, String, Bool, List, [], ◌∷◌, ◌++◌, Option, none, any, ◌&&◌, ◌==◌, leb, not,
  filter, length, if◌then◌else◌,
}
use optimus_os.Base.Money.{Decimal}
use optimus_os.Base.Result.{ok, err, ◌>>=◌, ◌>>◌, guard}
use optimus_os.Errors.{
  Outcome, part_archived, line_total_too_large, total_too_large, po_number_taken,
}
use optimus_os.Db.{Db}
use optimus_os.Db.Stock.{PurchaseOrder, PurchaseOrderLineItem, draft}
use optimus_os.Auth.{AuthContext, effective_shop_id, effective_shop_owner_id, resolve_shop_id}
use optimus_os.Allocations.{require_part}
use optimus_os.PurchaseOrders.{money, fits, validate_vendor}

pub record LineRequest : Type 0 where
  pub part : ℕ
  pub quantity_ordered : ℕ
  pub unit_cost : Decimal

pub record CreateRequest : Type 0 where
  pub vendor_id : ℕ
  pub notes : Option String
  pub line_items : List LineRequest

-- `validated_items`: part, cost in cents, quantity.
pub record ValidatedItem : Type 0 where
  pub part : ℕ
  pub unit_cost : ℕ
  pub quantity : ℕ

-- 99999999.99, the largest amount of a Numeric(10, 2) column.
abbrev pub numeric_column_max : ℕ
numeric_column_max = 9999999999

unfoldable pub validate_item : Db → AuthContext → LineRequest → Outcome (ValidatedItem × ℕ)
validate_item db auth entry = do
  part ← require_part db auth entry.part
  guard (not part.is_archived) part_archived
  unit_cost ← money entry.unit_cost
  line_total ← fits (unit_cost * entry.quantity_ordered)
  guard (leb line_total numeric_column_max) line_total_too_large
  ok (
    record { part = entry.part; unit_cost = unit_cost; quantity = entry.quantity_ordered },
    line_total,
  )

-- The loop over the lines, from the subtotal so far.
unfoldable pub validate_items :
    Db → AuthContext → List LineRequest → ℕ → Outcome (ℕ × List ValidatedItem)
validate_items db auth [] subtotal = ok (subtotal, [])
validate_items db auth (entry ∷ entries) subtotal = do
  (item, line_total) ← validate_item db auth entry
  guard (leb (subtotal + line_total) numeric_column_max) total_too_large
  (total, items) ← validate_items db auth entries (subtotal + line_total)
  ok (total, item ∷ items)

-- `_next_po_number`: the owner and the number that "PO-{owner:03d}-{count:05d}" shows.
unfoldable pub next_po_number : Db → AuthContext → Outcome (ℕ × ℕ)
next_po_number db auth = do
  shop_id ← effective_shop_id db auth
  owner ← effective_shop_owner_id db auth
  ok (owner, length (filter (λ o. o.shop_id == shop_id) db.purchase_orders) + 1)

-- The unique constraint on `po_number`.
abbrev pub is_taken : ℕ × ℕ → List PurchaseOrder → Bool
is_taken (owner, n) orders = any (λ o. o.po_number.0 == owner && o.po_number.1 == n) orders

-- The rows of the lines; the database numbers them from `first`.
abbrev pub line_rows : ℕ → ℕ → List ValidatedItem → List PurchaseOrderLineItem
line_rows order first [] = []
line_rows order first (i ∷ items) =
    record {
      id = first;
      purchase_order_id = order;
      part_id = i.part;
      quantity_ordered = i.quantity;
      quantity_received = 0;
      unit_cost = i.unit_cost;
    }
    ∷ line_rows order (suc first) items

-- The new order as an attempt builds it from the state that it reads.
unfoldable pub new_order : AuthContext → ℕ → CreateRequest → ℕ → Db → Outcome PurchaseOrder
new_order auth new_id payload subtotal db = do
  owner_user_id ← effective_shop_owner_id db auth
  shop_id ← resolve_shop_id db auth
  number ← next_po_number db auth
  ok (record {
    id = new_id;
    owner_user_id = owner_user_id;
    shop_id = shop_id;
    vendor_id = payload.vendor_id;
    po_number = number;
    status = draft;
    notes = payload.notes;
    subtotal = subtotal;
    total = subtotal;
    created_by_user_id = auth.user.id;
    submitted_at = none;
    received_at = none;
    cancelled_at = none;
  })

-- An attempt counts the orders of one state and commits to a later one, which another request may
-- have changed in between.
pub record Attempt : Type 0 where
  pub reads : Db
  pub commits_to : Db
  pub new_id : ℕ
  pub first_line_id : ℕ

abbrev pub commit_order : PurchaseOrder → ℕ → List ValidatedItem → Db → Db
commit_order o first items db = record db {
  purchase_orders = db.purchase_orders ++ o ∷ [];
  purchase_order_line_items = db.purchase_order_line_items ++ line_rows o.id first items;
}

-- The retry loop: each attempt that the unique constraint refuses is rolled back.
unfoldable pub attempt_create :
    AuthContext
    → CreateRequest
    → ℕ
    → List ValidatedItem
    → List Attempt
    → Outcome (PurchaseOrder × Db)
attempt_create auth payload subtotal items [] = err po_number_taken
attempt_create auth payload subtotal items (a ∷ later) = do
  o ← new_order auth a.new_id payload subtotal a.reads
  let rest : Outcome (PurchaseOrder × Db) = attempt_create auth payload subtotal items later
  if is_taken o.po_number a.commits_to.purchase_orders
      then rest
      else ok (o, commit_order o a.first_line_id items a.commits_to)

-- The whole operation, with its three tries.
unfoldable pub create_purchase_order :
    AuthContext → CreateRequest → Db → Attempt → Attempt → Attempt → Outcome (PurchaseOrder × Db)
create_purchase_order auth payload db first second third = do
  validate_vendor db auth payload.vendor_id
  (subtotal, items) ← validate_items db auth payload.line_items 0
  attempt_create auth payload subtotal items (first ∷ second ∷ third ∷ [])
