-- ===== src/Invoices.antt =====
-- app/invoice_store.py: invoices, what is paid on them, their status and their payment schedule.
-- An instant is a number of microseconds; `now` is the clock. The Square columns are left out.
pub mod Schedule
pub mod Issue
pub mod Status
use optimus_os.Base.{
  ℕ, ◌*◌, ◌+◌, ◌^◌, Bool, true, false, List, Option, none, some, ◌&&◌, ◌||◌, ◌==◌, ltb, not, filter,
  if◌then◌else◌,
}
use optimus_os.Base.Int.{ℤ, pos, negsuc, pos_part, neg_part, ◌-ℤ◌, leb_ℤ, ltb_ℤ, sum_ℤ}
use optimus_os.Base.Money.{Decimal, number, not_finite, quantize}
use optimus_os.Base.Table.{scalar, get, save}
use optimus_os.Base.Result.{ok, err, ◌>>=◌, require, guard}
use optimus_os.Errors.{Outcome, invoice_not_found, invalid_amount, invalid_operation}
use optimus_os.Db.{Db}
use optimus_os.Db.Billing.{
  Invoice, InvoicePayment, InvoiceLineItem, PaymentSchedule, InvoiceStatus, draft, issued,
  partially_paid, paid, overdue, void, invoice_id,
}
use optimus_os.Auth.{AuthContext, effective_shop_id}

-- `quantize` raises for an amount of more than 28 digits.
abbrev pub fits_cents : ℤ → Outcome ℤ
fits_cents cents =
    if ltb (pos_part cents + neg_part cents) (10 ^ 28) then ok cents else err invalid_operation

-- `_money`, in cents. The text of a float is always a decimal. For an amount that is read from a
-- `Numeric(10, 2)` column it is the identity.
unfoldable pub money : Decimal → Outcome ℤ
money not_finite = err invalid_amount
money (number coeff scale) = fits_cents (quantize coeff scale)

abbrev pub is_untouched : InvoiceStatus → Bool
is_untouched draft = true
is_untouched void = true
is_untouched _ = false

-- `base` of `derive_invoice_status`.
abbrev pub base_status : ℤ → ℤ → InvoiceStatus
base_status invoice_total total_paid =
    if leb_ℤ total_paid (pos 0)
    then issued
    else if leb_ℤ invoice_total total_paid
    then paid
    else partially_paid

abbrev pub may_be_overdue : InvoiceStatus → Bool
may_be_overdue issued = true
may_be_overdue partially_paid = true
may_be_overdue _ = false

abbrev pub is_past : Option ℕ → ℕ → Bool
is_past none now = false
is_past (some due_at) now = ltb due_at now

unfoldable pub derive_invoice_status : ℤ → ℤ → Option ℕ → InvoiceStatus → ℕ → InvoiceStatus
derive_invoice_status invoice_total total_paid due_at current now =
    if is_untouched current
    then current
    else if may_be_overdue (base_status invoice_total total_paid) && is_past due_at now
    then overdue
    else base_status invoice_total total_paid

-- The relationship `invoice.payments`; its order is of no account to a sum.
abbrev pub payments_of : ℕ → List InvoicePayment → List InvoicePayment
payments_of invoice payments = filter (λ p. p.invoice_id == invoice) payments

unfoldable pub total_paid : ℕ → List InvoicePayment → ℤ
total_paid invoice payments = sum_ℤ (λ p. p.amount) (payments_of invoice payments)

-- `_payment_summary`, without the flag that its last component repeats.
unfoldable pub payment_summary : Invoice → ℕ → Db → Outcome (ℤ × InvoiceStatus)
payment_summary i now db = do
  invoice_total ← money i.invoice_total
  let sum : ℤ = total_paid i.id db.invoice_payments
  ok (sum, derive_invoice_status invoice_total sum i.due_at i.status now)

-- `_require_invoice`
unfoldable pub require_invoice : Db → AuthContext → ℕ → Outcome Invoice
require_invoice db auth key = do
  shop_id ← effective_shop_id db auth
  require (scalar (λ i. i.shop_id == shop_id && i.id == key) db.invoices) invoice_not_found

-- The response: the row, with what is derived from the payments.
pub record InvoiceRead : Type 0 where
  pub invoice : Invoice
  pub status : InvoiceStatus
  pub total_paid : ℤ
  pub balance_due : ℤ
  pub line_items : List InvoiceLineItem
  pub payments : List InvoicePayment
  pub schedule : List PaymentSchedule

abbrev pub schedule_of : ℕ → List PaymentSchedule → List PaymentSchedule
schedule_of invoice rows = filter (λ r. r.invoice_id == invoice) rows

-- `max(a, Decimal("0.00"))`
abbrev pub at_least_zero : ℤ → ℤ
at_least_zero (pos n) = pos n
at_least_zero (negsuc n) = pos 0

unfoldable pub to_read : ℕ → Invoice → Db → Outcome InvoiceRead
to_read now i db = do
  (sum, status) ← payment_summary i now db
  invoice_total ← money i.invoice_total
  ok (record {
    invoice = i;
    status = status;
    total_paid = sum;
    balance_due = at_least_zero (invoice_total -ℤ sum);
    line_items = filter (λ r. r.invoice_id == i.id) db.invoice_line_items;
    payments = payments_of i.id db.invoice_payments;
    schedule = schedule_of i.id db.payment_schedules;
  })

abbrev pub save_invoice : Invoice → Db → Db
save_invoice i db = record db { invoices = save i db.invoices }
