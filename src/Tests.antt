-- ===== src/Tests.antt =====
-- A small shop on which the theorems are applied: two users, a part, an allocation, an order.
mod Allocations
mod PurchaseOrders
mod Billing
mod WorkOrders
mod Scheduling
mod Limits
mod Modes
mod Subscriptions
mod Estimates
use optimus_os.Base.{ℕ, Bool, true, false, List, [], ◌∷◌, none, some}
use optimus_os.Base.Int.{pos}
use optimus_os.Base.Money.{number}
use optimus_os.Base.Result.{Result, ok, err}
use optimus_os.Db.{Db}
use optimus_os.Db.Accounts.{
  Role, owner, manager, technician, UserAccount, ShopMembership, Technician,
}
use optimus_os.Db.Stock.{
  Part, PartAllocation, PurchaseOrder, PurchaseOrderLineItem, Vendor, submitted,
}
use optimus_os.Db.Shops
use optimus_os.Db.Shops.{Shop, ShopSubscription, shop_tier, in_good_standing}
use optimus_os.Auth.{AuthContext}

-- The value of a run that is expected to succeed.
abbrev pub value_or {ℓ κ} : {E : Type ℓ} {A : Type κ} → A → Result E A → A
value_or d (ok a) = a
value_or d (err e) = d

abbrev pub user : ℕ → Role → UserAccount
user n role = record { id = n; username = "u"; display_name = "U"; role = role; is_active = true }

abbrev pub membership : ℕ → Role → ShopMembership
membership n role = record {
  id = n;
  shop_id = 1;
  user_account_id = n;
  role = role;
  is_active = true;
}

abbrev pub as_owner : AuthContext
as_owner = record { user = user 1 owner }

abbrev pub as_manager : AuthContext
as_manager = record { user = user 2 manager }

abbrev pub as_technician : AuthContext
as_technician = record { user = user 3 technician }

abbrev pub brake_pads : Part
brake_pads = record {
  id = 5;
  shop_id = 1;
  part_number = "BP-1";
  description = "Brake pads";
  quantity_on_hand = 4;
  unit_cost = some 2500;
  is_archived = false;
}

abbrev pub allocation : ℕ → ℕ → ℕ → PartAllocation
allocation given used back = record {
  id = 7;
  owner_user_id = 1;
  shop_id = 1;
  work_order_id = 9;
  part_id = 5;
  quantity_required = 6;
  quantity_allocated = given;
  quantity_used = used;
  quantity_returned = back;
  unit_cost_snapshot = some 2500;
  created_by_user_id = 1;
}

abbrev pub order : PurchaseOrder
order = record {
  id = 3;
  owner_user_id = 1;
  shop_id = 1;
  vendor_id = 2;
  po_number = (1, 1);
  status = submitted;
  notes = none;
  subtotal = 25000;
  total = 25000;
  created_by_user_id = 1;
  submitted_at = some 10;
  received_at = none;
  cancelled_at = none;
}

abbrev pub order_line : PurchaseOrderLineItem
order_line = record {
  id = 8;
  purchase_order_id = 3;
  part_id = 5;
  quantity_ordered = 10;
  quantity_received = 0;
  unit_cost = 2500;
}

abbrev pub landon : Shop
landon = record {
  id = 1;
  display_name = "Landon Motor Works";
  status = Shops.pilot;
  operating_mode = Shops.shop;
  operating_mode_confirmed_at = none;
  updated_at = 0;
}

abbrev pub plan : ShopSubscription
plan = record {
  id = 1;
  shop_id = 1;
  tier = shop_tier;
  billing_status = in_good_standing;
  seat_limit = none;
  trial_ends_at = none;
  current_period_start = none;
  current_period_end = none;
  grace_period_ends_at = none;
  canceled_at = none;
  square_customer_id = none;
  square_card_id = none;
  square_subscription_id = none;
}

abbrev pub shop_with : PartAllocation → Db
shop_with a = record {
  user_accounts = user 1 owner ∷ user 2 manager ∷ user 3 technician ∷ [];
  shop_memberships = membership 1 owner ∷ membership 2 manager ∷ membership 3 technician ∷ [];
  technicians = record { id = 4; shop_id = 1; user_account_id = some 3; is_archived = false } ∷ [];
  vendors = record { id = 2; shop_id = 1; name = "Parts" } ∷ [];
  parts = brake_pads ∷ [];
  part_allocations = a ∷ [];
  part_allocation_events = [];
  purchase_orders = order ∷ [];
  purchase_order_line_items = order_line ∷ [];
  purchase_order_receipts = [];
  estimates = [];
  estimate_revisions = [];
  estimate_approval_requests = [];
  estimate_approval_events = [];
  work_orders = [];
  work_order_status_events = [];
  work_order_notes = [];
  invoices = [];
  invoice_line_items = [];
  invoice_payments = [];
  payment_schedules = [];
  notifications = [];
  customers = [];
  vehicles = [];
  bays = [];
  working_hours = [];
  schedule_blocks = [];
  appointments = [];
  shops = landon ∷ [];
  shop_subscriptions = plan ∷ [];
  shop_events = [];
}
