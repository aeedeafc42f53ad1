-- ===== src/Db/Work.antt =====
-- The tables of app/db_models.py about work: estimates and their revisions, work orders with their
-- status events and notes. An estimate number is the pair of the owner and the count that
-- `EST-{:03d}-{:05d}` prints.
use optimus_os.Base.{ℕ, String, Bool, Option, List, ◌==◌}
use optimus_os.Base.Money.{Decimal}
use optimus_os.Base.Table.{HasId}
use optimus_os.Db.Calendar.{Vehicle}

pub data EstimateStatus : Type 0 where
  draft ready awaiting_approval approved declined expired superseded archived : EstimateStatus

-- `EstimatePaymentOptionCode`
pub data PaymentOption : Type 0 where
  pay_in_full split_payment two_month_plan : PaymentOption

pub record LaborItem : Type 0 where
  pub description : String
  pub labor_hours : Decimal
  pub labor_rate : Decimal
  pub labor_total : Decimal

pub record SelectedPart : Type 0 where
  pub part_name : String
  pub quantity : ℕ
  pub unit_price : Decimal
  pub extended_price : Decimal

pub record FeeItem : Type 0 where
  pub code : String
  pub label : String
  pub amount : Decimal

pub record Totals : Type 0 where
  pub labor_hours : Decimal
  pub labor_total : Decimal
  pub parts_subtotal : Decimal
  pub shop_supplies : Decimal
  pub mobile_service_fee : Decimal
  pub parts_tax : Decimal
  pub estimated_total : Decimal

-- `PartRequirement`, of the research that a response carries.
pub record PartRequirement : Type 0 where
  pub part_name : String
  pub required : Bool

-- `EstimateResponse`, as far as it is read.
pub record EstimateResponse : Type 0 where
  pub job : String
  pub requirements : List PartRequirement
  pub labor_items : List LaborItem
  pub selected_parts : List SelectedPart
  pub fee_items : List FeeItem
  pub totals : Totals

-- `EstimateRequest`, with the vehicle by its row. A released job names no vehicle and no place.
pub record EstimateRequest : Type 0 where
  pub vehicle : Option Vehicle
  pub job : String
  pub location : Option String
  pub labor_rate : Option Decimal
  pub mobile_service_fee : Option Decimal
  pub shop_supplies_percent : Option Decimal
  pub parts_tax_rate : Option Decimal

pub record EstimatePaymentOption : Type 0 where
  pub code : PaymentOption
  pub label : String
  pub requires_payment_plan_acknowledgement : Bool

pub record EstimateRevision : Type 0 where
  pub id : ℕ
  pub estimate_id : ℕ
  pub owner_user_id : ℕ
  pub shop_id : ℕ
  pub revision_number : ℕ
  pub status : EstimateStatus
  pub customer_snapshot : String
  pub vehicle_snapshot : String
  pub estimate_request_payload : EstimateRequest
  pub estimate_response_payload : EstimateResponse
  pub terms_text : String
  pub payment_options_payload : List EstimatePaymentOption
  pub approval_due_at : Option ℕ
  pub content_hash : ℕ

pub record Estimate : Type 0 where
  pub id : ℕ
  pub owner_user_id : ℕ
  pub shop_id : ℕ
  pub customer_id : ℕ
  pub vehicle_id : ℕ
  pub estimate_number : ℕ × ℕ
  pub status : EstimateStatus
  pub current_revision_number : ℕ
  pub approved_revision_number : Option ℕ
  pub estimate_total : Option Decimal
  pub payment_option_selected : Option PaymentOption
  pub expires_at : Option ℕ
  pub is_archived : Bool

pub data WorkOrderStatus : Type 0 where
  pending_requirements ready_to_schedule scheduled in_progress : WorkOrderStatus
  waiting_for_parts waiting_for_approval completed cancelled : WorkOrderStatus

abbrev pub status_code : WorkOrderStatus → ℕ
status_code pending_requirements = 0
status_code ready_to_schedule = 1
status_code scheduled = 2
status_code in_progress = 3
status_code waiting_for_parts = 4
status_code waiting_for_approval = 5
status_code completed = 6
status_code cancelled = 7

abbrev pub same_status : WorkOrderStatus → WorkOrderStatus → Bool
same_status a b = status_code a == status_code b

pub record WorkOrder : Type 0 where
  pub id : ℕ
  pub owner_user_id : ℕ
  pub shop_id : ℕ
  pub estimate_id : ℕ
  pub estimate_revision_id : ℕ
  pub customer_id : ℕ
  pub vehicle_id : ℕ
  pub estimate_number : ℕ × ℕ
  pub title : String
  pub complaint : String
  pub diagnosis : Option String
  pub status : WorkOrderStatus
  pub estimate_total : Option Decimal
  pub labor_hours_estimate : Option Decimal
  pub payment_option_selected : Option PaymentOption
  pub deposit_received : Bool
  pub authorization_confirmed : Bool
  pub scheduled_for : Option ℕ
  pub assigned_technician_id : Option ℕ
  pub is_comeback : Bool
  pub updated_at : ℕ

pub record WorkOrderStatusEvent : Type 0 where
  pub work_order_id : ℕ
  pub owner_user_id : ℕ
  pub shop_id : ℕ
  pub from_status : Option WorkOrderStatus
  pub to_status : WorkOrderStatus
  pub reason : Option String
  pub created_by_user_id : ℕ

pub data NoteVisibility : Type 0 where
  internal customer : NoteVisibility

pub record WorkOrderNote : Type 0 where
  pub work_order_id : ℕ
  pub owner_user_id : ℕ
  pub shop_id : ℕ
  pub visibility : NoteVisibility
  pub note : String
  pub created_by_user_id : ℕ

instance abbrev pub estimate_id : HasId Estimate
estimate_id = record { id = λ r. r.id }

instance abbrev pub revision_id : HasId EstimateRevision
revision_id = record { id = λ r. r.id }

instance abbrev pub work_order_id : HasId WorkOrder
work_order_id = record { id = λ r. r.id }
