-- ===== src/Db.antt =====
-- The database: the tables that the modelled operations read and write (app/db_models.py), one
-- list of rows to a table, in insertion order.
pub mod Accounts
pub mod Stock
pub mod Work
pub mod Approvals
pub mod Billing
pub mod Calendar
pub mod Shops
use optimus_os.Base.{List}
use Accounts.{UserAccount, ShopMembership, Technician}
use Stock.{
  Vendor, Part, PartAllocation, PartAllocationEvent, PurchaseOrder, PurchaseOrderLineItem,
  PurchaseOrderReceipt,
}
use Work.{Estimate, EstimateRevision, WorkOrder, WorkOrderStatusEvent, WorkOrderNote}
use Approvals.{EstimateApprovalRequest, EstimateApprovalEvent}
use Billing.{Invoice, InvoiceLineItem, InvoicePayment, PaymentSchedule, Notification}
use Calendar.{Customer, Vehicle, Bay, WorkingHours, ScheduleBlock, Appointment}
use Shops.{Shop, ShopSubscription, ShopEvent}

pub record Db : Type 0 where
  pub user_accounts : List UserAccount
  pub shop_memberships : List ShopMembership
  pub technicians : List Technician
  pub vendors : List Vendor
  pub parts : List Part
  pub part_allocations : List PartAllocation
  pub part_allocation_events : List PartAllocationEvent
  pub purchase_orders : List PurchaseOrder
  pub purchase_order_line_items : List PurchaseOrderLineItem
  pub purchase_order_receipts : List PurchaseOrderReceipt
  pub estimates : List Estimate
  pub estimate_revisions : List EstimateRevision
  pub estimate_approval_requests : List EstimateApprovalRequest
  pub estimate_approval_events : List EstimateApprovalEvent
  pub work_orders : List WorkOrder
  pub work_order_status_events : List WorkOrderStatusEvent
  pub work_order_notes : List WorkOrderNote
  pub invoices : List Invoice
  pub invoice_line_items : List InvoiceLineItem
  pub invoice_payments : List InvoicePayment
  pub payment_schedules : List PaymentSchedule
  pub notifications : List Notification
  pub customers : List Customer
  pub vehicles : List Vehicle
  pub bays : List Bay
  pub working_hours : List WorkingHours
  pub schedule_blocks : List ScheduleBlock
  pub appointments : List Appointment
  pub shops : List Shop
  pub shop_subscriptions : List ShopSubscription
  pub shop_events : List ShopEvent
