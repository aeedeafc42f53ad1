-- ===== src/Payments.antt =====
-- app/payment_store.py: payments on invoices. Rows are only added: a void is a row of the opposite
-- amount. The row of the invoice is locked to the end of the request, so one request is one step.
pub mod Post
pub mod Record
pub mod Void
use optimus_os.Base.{
  ℕ, String, Bool, true, false, List, [], ◌∷◌, ◌++◌, Option, none, some, any, ◌&&◌, ◌==◌, not,
  is_some_eq, is_some, or_else, if◌then◌else◌,
}
use optimus_os.Base.Int.{ℤ, pos, ◌+ℤ◌, neg_ℤ, ltb_ℤ, leb_ℤ}
use optimus_os.Base.Money.{Decimal}
use optimus_os.Base.Table.{scalar, get, save}
use optimus_os.Base.Result.{ok, err, ◌>>=◌, ◌>>◌, require, guard, transaction}
use optimus_os.Errors.{
  Outcome, not_an_issued_invoice, amount_not_positive, exceeds_balance, payment_not_found,
  cannot_void_reversal, already_voided, integrity_error, numeric_overflow, assertion_failed,
}
use optimus_os.Db.{Db}
use optimus_os.Db.Work.{
  WorkOrder, PaymentOption, pay_in_full, split_payment, two_month_plan, work_order_id,
}
use optimus_os.Db.Billing.{
  Invoice, InvoicePayment, InvoiceStatus, PaymentAppliesTo, is_deposit, payment_recorded,
  payment_voided, fits_column, NotificationText,
}
use optimus_os.Auth.{AuthContext, effective_shop_id, effective_shop_owner_id, resolve_shop_id}
use optimus_os.Invoices.{
  InvoiceRead, money, require_invoice, save_invoice, to_read, is_untouched, total_paid,
  payment_summary, derive_invoice_status,
}
use optimus_os.Invoices.Issue.{record_notification}

-- `InvoicePaymentCreate` after its validation.
pub record PaymentRequest : Type 0 where
  pub amount : Decimal
  pub method_label : String
  pub applies_to : PaymentAppliesTo
  pub note : Option String
  pub recorded_at : Option ℕ

-- `PAYMENT_PLAN_OPTIONS` of app/work_order_store.py.
abbrev pub is_payment_plan : Option PaymentOption → Bool
is_payment_plan none = false
is_payment_plan (some pay_in_full) = false
is_payment_plan (some split_payment) = true
is_payment_plan (some two_month_plan) = true

-- The check constraint on the sign of an amount, and the unique constraint on reversals.
abbrev pub sign_check : InvoicePayment → Bool
sign_check p =
    if is_some p.reversal_of_payment_id then ltb_ℤ p.amount (pos 0) else ltb_ℤ (pos 0) p.amount

abbrev pub reverses : ℕ → InvoicePayment → Bool
reverses key p = is_some_eq p.reversal_of_payment_id key

abbrev pub unique_check : Option ℕ → List InvoicePayment → Bool
unique_check none payments = true
unique_check (some key) payments = not (any (reverses key) payments)

-- The row is added when its columns hold it and the constraints admit it.
unfoldable pub add_payment : InvoicePayment → Db → Outcome Db
add_payment p db = do
  guard (fits_column p.amount) numeric_overflow
  guard (sign_check p && unique_check p.reversal_of_payment_id db.invoice_payments) integrity_error
  ok (record db { invoice_payments = db.invoice_payments ++ p ∷ [] })

-- A deposit on a payment plan marks the work order's deposit as received, which `onupdate` dates.
abbrev pub mark_deposit : ℕ → WorkOrder → Db → Db
mark_deposit now w db =
    if is_payment_plan w.payment_option_selected && not w.deposit_received
    then record db {
      work_orders = save (record w { deposit_received = true; updated_at = now }) db.work_orders;
    }
    else db

unfoldable pub apply_deposit : PaymentAppliesTo → ℕ → Invoice → Db → Outcome Db
apply_deposit applies_to now i db =
    if is_deposit applies_to
    then (do
      w ← require (get i.work_order_id db.work_orders) assertion_failed
      ok (mark_deposit now w db))
    else ok db

-- A row to be added to an invoice.
pub record Posting : Type 0 where
  pub invoice : Invoice
  pub amount : ℤ
  pub applies_to : PaymentAppliesTo
  pub method_label : String
  pub note : Option String
  pub recorded_at : ℕ
  pub reversal_of : Option ℕ
  pub text : InvoiceStatus → NotificationText

abbrev pub new_row : ℕ → ℕ → ℕ → ℕ → Posting → InvoicePayment
new_row new_id owner_user_id shop_id created_by x = record {
  id = new_id;
  owner_user_id = owner_user_id;
  shop_id = shop_id;
  invoice_id = x.invoice.id;
  amount = x.amount;
  applies_to = x.applies_to;
  method_label = x.method_label;
  note = x.note;
  recorded_at = x.recorded_at;
  reversal_of_payment_id = x.reversal_of;
  created_by_user_id = created_by;
}

-- What both operations end with: the row, the invoice's new status from the sum with it, and the
-- notification. `mark` is what else is written in between.
unfoldable pub post :
    AuthContext → ℕ → Posting → ℕ → (Db → Outcome Db) → Db → Outcome (Invoice × Db)
post auth new_id x now mark db = do
  owner_user_id ← effective_shop_owner_id db auth
  shop_id ← resolve_shop_id db auth
  marked ← mark db
  invoice_total ← money x.invoice.invoice_total
  let sum : ℤ = total_paid x.invoice.id db.invoice_payments +ℤ x.amount
  let i' : Invoice = record x.invoice {
    status = derive_invoice_status invoice_total sum x.invoice.due_at x.invoice.status now;
  }
  db' ← add_payment (new_row new_id owner_user_id shop_id auth.user.id x) (save_invoice i' marked)
  ok (i', record_notification i'.owner_user_id i'.shop_id i'.id (x.text i'.status) db')

-- The checks of `record_payment`: the invoice and the amount in cents.
unfoldable pub validate_payment : AuthContext → ℕ → PaymentRequest → Db → Outcome (Invoice × ℤ)
validate_payment auth key payload db = do
  i ← require_invoice db auth key
  guard (not (is_untouched i.status)) not_an_issued_invoice
  amount ← money payload.amount
  guard (ltb_ℤ (pos 0) amount) amount_not_positive
  invoice_total ← money i.invoice_total
  guard (leb_ℤ (total_paid i.id db.invoice_payments +ℤ amount) invoice_total) exceeds_balance
  ok (i, amount)

abbrev pub recording : PaymentRequest → ℕ → Invoice → ℤ → Posting
recording payload now i amount = record {
  invoice = i;
  amount = amount;
  applies_to = payload.applies_to;
  method_label = payload.method_label;
  note = payload.note;
  recorded_at = or_else payload.recorded_at now;
  reversal_of = none;
  text = λ status. payment_recorded i.invoice_number amount status (is_deposit payload.applies_to);
}

unfoldable pub record_work : AuthContext → ℕ → ℕ → PaymentRequest → ℕ → Db → Outcome (Invoice × Db)
record_work auth new_id key payload now db = do
  (i, amount) ← validate_payment auth key payload db
  post auth new_id (recording payload now i amount) now (apply_deposit payload.applies_to now i) db

unfoldable pub record_payment :
    AuthContext → ℕ → ℕ → PaymentRequest → ℕ → ℕ → Db → Outcome InvoiceRead × Db
record_payment auth new_id key payload now read_at =
    transaction (record_work auth new_id key payload now) (to_read read_at)

-- The checks of `void_payment`: the invoice and the payment to cancel.
unfoldable pub validate_void : AuthContext → ℕ → ℕ → Db → Outcome (Invoice × InvoicePayment)
validate_void auth key payment_key db = do
  i ← require_invoice db auth key
  shop ← effective_shop_id db auth
  p ←
      require
        (scalar (λ q. q.shop_id == shop && (q.invoice_id == i.id && q.id == payment_key))
          db.invoice_payments)
        payment_not_found
  guard (not (is_some p.reversal_of_payment_id)) cannot_void_reversal
  guard
      (not (
        any (λ q. q.shop_id == shop && (q.invoice_id == i.id && reverses p.id q))
          db.invoice_payments))
      already_voided
  ok (i, p)

abbrev pub reversing : Option String → ℕ → Invoice → InvoicePayment → Posting
reversing reason now i p = record {
  invoice = i;
  amount = neg_ℤ p.amount;
  applies_to = p.applies_to;
  method_label = p.method_label;
  note = reason;
  recorded_at = now;
  reversal_of = some p.id;
  text = λ status. payment_voided i.invoice_number p.amount status;
}

unfoldable pub void_work : AuthContext → ℕ → ℕ → ℕ → Option String → ℕ → Db → Outcome (Invoice × Db)
void_work auth new_id key payment_key reason now db = do
  (i, p) ← validate_void auth key payment_key db
  post auth new_id (reversing reason now i p) now (λ d. ok d) db

unfoldable pub void_payment :
    AuthContext → ℕ → ℕ → ℕ → Option String → ℕ → ℕ → Db → Outcome InvoiceRead × Db
void_payment auth new_id key payment_key reason now read_at =
    transaction (void_work auth new_id key payment_key reason now) (to_read read_at)
