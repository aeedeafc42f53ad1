-- ===== src/Db/Stock.antt =====
-- The tables of app/db_models.py about parts: parts, vendors, part_allocations,
-- part_allocation_events, purchase_orders, purchase_order_line_items, purchase_order_receipts,
-- and the row checks that the database makes when a row is written. Costs are whole cents.
use optimus_os.Base.{ℕ, String, Bool, Option, ltb, leb, ◌==◌, ◌&&◌, true, false}
use optimus_os.Base.Table.{HasId}
use optimus_os.Db.Accounts.{Role, owner, technician}

pub record Vendor : Type 0 where
  pub id : ℕ
  pub shop_id : ℕ
  pub name : String

pub record Part : Type 0 where
  pub id : ℕ
  pub shop_id : ℕ
  pub part_number : String
  pub description : String
  pub quantity_on_hand : ℕ
  pub unit_cost : Option ℕ
  pub is_archived : Bool

pub record PartAllocation : Type 0 where
  pub id : ℕ
  pub owner_user_id : ℕ
  pub shop_id : ℕ
  pub work_order_id : ℕ
  pub part_id : ℕ
  pub quantity_required : ℕ
  pub quantity_allocated : ℕ
  pub quantity_used : ℕ
  pub quantity_returned : ℕ
  pub unit_cost_snapshot : Option ℕ
  pub created_by_user_id : ℕ

-- The check constraints of part_allocations.
abbrev pub allocation_checks : PartAllocation → Bool
allocation_checks a =
    ltb 0 a.quantity_required
    && (leb a.quantity_used a.quantity_allocated && leb a.quantity_returned a.quantity_used)

pub data AllocationEventType : Type 0 where
  allocated used returned : AllocationEventType

pub record PartAllocationEvent : Type 0 where
  pub allocation_id : ℕ
  pub owner_user_id : ℕ
  pub shop_id : ℕ
  pub event_type : AllocationEventType
  pub quantity_delta : ℕ
  pub actor_type : Role
  pub actor_user_id : ℕ
  pub actor_name : String
  pub inventory_override : Bool
  pub override_reason : Option String

-- The check constraint on `actor_type` admits an owner and a technician.
abbrev pub actor_checks : Role → Bool
actor_checks owner = true
actor_checks technician = true
actor_checks _ = false

pub data PurchaseOrderStatus : Type 0 where
  draft submitted partially_received received cancelled : PurchaseOrderStatus

abbrev pub order_status_code : PurchaseOrderStatus → ℕ
order_status_code draft = 0
order_status_code submitted = 1
order_status_code partially_received = 2
order_status_code received = 3
order_status_code cancelled = 4

abbrev pub same_order_status : PurchaseOrderStatus → PurchaseOrderStatus → Bool
same_order_status a b = order_status_code a == order_status_code b

pub record PurchaseOrderLineItem : Type 0 where
  pub id : ℕ
  pub purchase_order_id : ℕ
  pub part_id : ℕ
  pub quantity_ordered : ℕ
  pub quantity_received : ℕ
  pub unit_cost : ℕ

-- The check constraints of purchase_order_line_items.
abbrev pub line_checks : PurchaseOrderLineItem → Bool
line_checks l = ltb 0 l.quantity_ordered && leb l.quantity_received l.quantity_ordered

pub record PurchaseOrder : Type 0 where
  pub id : ℕ
  pub owner_user_id : ℕ
  pub shop_id : ℕ
  pub vendor_id : ℕ
  pub po_number : ℕ × ℕ
  pub status : PurchaseOrderStatus
  pub notes : Option String
  pub subtotal : ℕ
  pub total : ℕ
  pub created_by_user_id : ℕ
  pub submitted_at : Option ℕ
  pub received_at : Option ℕ
  pub cancelled_at : Option ℕ

pub record PurchaseOrderReceipt : Type 0 where
  pub purchase_order_id : ℕ
  pub line_item_id : ℕ
  pub owner_user_id : ℕ
  pub shop_id : ℕ
  pub quantity_received : ℕ
  pub received_by_user_id : ℕ
  pub received_by_name : String
  pub note : Option String

instance abbrev pub vendor_id : HasId Vendor
vendor_id = record { id = λ r. r.id }

instance abbrev pub part_id : HasId Part
part_id = record { id = λ r. r.id }

instance abbrev pub allocation_id : HasId PartAllocation
allocation_id = record { id = λ r. r.id }

instance abbrev pub line_item_id : HasId PurchaseOrderLineItem
line_item_id = record { id = λ r. r.id }

instance abbrev pub purchase_order_id : HasId PurchaseOrder
purchase_order_id = record { id = λ r. r.id }
