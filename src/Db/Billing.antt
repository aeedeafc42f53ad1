-- ===== src/Db/Billing.antt =====
-- The tables of app/db_models.py about billing: invoices, invoice_line_items, invoice_payments,
-- payment_schedules, notifications. Payment amounts and schedule amounts are whole cents; the
-- float columns of an invoice keep the number that `str` shows.
use optimus_os.Base.{ℕ, ◌+◌, ◌^◌, String, Bool, Option, true, false, ltb}
use optimus_os.Base.Int.{ℤ, pos_part, neg_part}
use optimus_os.Base.Money.{Decimal}
use optimus_os.Base.Table.{HasId}
use optimus_os.Db.Work.{PaymentOption, WorkOrderStatus}

pub data InvoiceStatus : Type 0 where
  draft issued partially_paid paid overdue void : InvoiceStatus

pub data PaymentAppliesTo : Type 0 where
  deposit installment balance full other : PaymentAppliesTo

abbrev pub is_deposit : PaymentAppliesTo → Bool
is_deposit deposit = true
is_deposit _ = false

pub data LineItemKind : Type 0 where
  labor part fee : LineItemKind

pub record InvoiceLineItem : Type 0 where
  pub invoice_id : ℕ
  pub sort_order : ℕ
  pub kind : LineItemKind
  pub description : String
  pub quantity : Decimal
  pub unit_amount : Decimal
  pub line_total : Decimal

pub record Invoice : Type 0 where
  pub id : ℕ
  pub owner_user_id : ℕ
  pub shop_id : ℕ
  pub work_order_id : ℕ
  pub estimate_id : ℕ
  pub estimate_revision_id : ℕ
  pub customer_id : ℕ
  pub vehicle_id : ℕ
  pub invoice_number : ℕ
  pub status : InvoiceStatus
  pub title : String
  pub complaint : String
  pub payment_option_selected : Option PaymentOption
  pub customer_snapshot : String
  pub vehicle_snapshot : String
  pub labor_total : Decimal
  pub parts_total : Decimal
  pub fees_total : Decimal
  pub invoice_total : Decimal
  pub issued_at : Option ℕ
  pub due_at : Option ℕ

pub record InvoicePayment : Type 0 where
  pub id : ℕ
  pub owner_user_id : ℕ
  pub shop_id : ℕ
  pub invoice_id : ℕ
  pub amount : ℤ
  pub applies_to : PaymentAppliesTo
  pub method_label : String
  pub note : Option String
  pub recorded_at : ℕ
  pub reversal_of_payment_id : Option ℕ
  pub created_by_user_id : ℕ

-- The labels of a payment schedule.
pub data ScheduleLabel : Type 0 where
  deposit_row balance_row installment_1 installment_2 full_payment : ScheduleLabel

-- What fits a column `Numeric(10, 2)`, in cents.
abbrev pub fits_column : ℤ → Bool
fits_column cents = ltb (pos_part cents + neg_part cents) (10 ^ 10)

pub record PaymentSchedule : Type 0 where
  pub owner_user_id : ℕ
  pub shop_id : ℕ
  pub invoice_id : ℕ
  pub sort_order : ℕ
  pub label : ScheduleLabel
  pub due_at : ℕ
  pub amount : ℤ

-- What a notification's title and body are formatted from.
pub data NotificationText : Type 0 where
  status_changed :
      (estimate_number : ℕ × ℕ)
      → WorkOrderStatus
      → WorkOrderStatus
      → Option String
      → NotificationText
  estimate_sent : (estimate_number : ℕ × ℕ) → (revision_number : ℕ) → NotificationText
  estimate_approved :
      (estimate_number : ℕ × ℕ) → (approving_name : String) → PaymentOption → NotificationText
  estimate_declined :
      (estimate_number : ℕ × ℕ)
      → (declining_name : String) → (reason : Option String) → NotificationText
  invoice_issued : (invoice_number : ℕ) → (due_at : ℕ) → NotificationText
  payment_recorded : (invoice_number : ℕ) → ℤ → InvoiceStatus → Bool → NotificationText
  payment_voided : (invoice_number : ℕ) → ℤ → InvoiceStatus → NotificationText

-- `entity_type` and `event` are told by the constructor of the text.
pub record Notification : Type 0 where
  pub owner_user_id : ℕ
  pub shop_id : ℕ
  pub entity_id : ℕ
  pub text : NotificationText

instance abbrev pub invoice_id : HasId Invoice
invoice_id = record { id = λ r. r.id }

instance abbrev pub payment_id : HasId InvoicePayment
payment_id = record { id = λ r. r.id }
