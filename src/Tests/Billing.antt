-- ===== src/Tests/Billing.antt =====
-- The theorems on invoices and payments at one shop.
use optimus_os.Base.{ℕ, ◌≡◌, refl, true, [], ◌∷◌, none, some, arith, ◌==◌, ◌↔◌, if◌then◌else◌}
use optimus_os.Base.Int.{ℤ, pos, ◌+ℤ◌, ◌-ℤ◌, ◌≤ℤ◌, ltb_ℤ, sum_ℤ}
use optimus_os.Base.Money.{number, round_div, quantize}
use optimus_os.Base.Table.{get}
use optimus_os.Base.Result.{ok, err}
use optimus_os.Errors.{Error, Outcome}
use optimus_os.Db.{Db}
use optimus_os.Db.Work.{split_payment}
use optimus_os.Db.Billing.{Invoice, InvoiceStatus, draft, issued, paid, full, invoice_id}
use optimus_os.Auth.{effective_shop_id, effective_shop_owner_id, resolve_shop_id}
use optimus_os.Invoices.{
  money, require_invoice, total_paid, payment_summary, derive_invoice_status, schedule_of,
  InvoiceRead, to_read,
}
use optimus_os.Invoices.Schedule.{generate_schedule_rows, schedule_rows, schedule_amounts, share}
use optimus_os.Invoices.Issue.{issue_invoice, issue_work, schedule_for, issued_as}
use optimus_os.Invoices.Status.{issue_invoice-schedule}
use optimus_os.Payments.{
  PaymentRequest, validate_payment, validate_void, post, add_payment, apply_deposit, record_work,
  void_work,
}
use optimus_os.Payments.Record.{record_work-total, record_work-paid}
use optimus_os.Payments.Void.{void_work-once, void_work-record_work}
use optimus_os.Tests.{as_owner, allocation, shop_with, value_or}

-- 100.01 in two parts.
abbrev invoice : InvoiceStatus → Invoice
invoice status = record {
  id = 6;
  owner_user_id = 1;
  shop_id = 1;
  work_order_id = 9;
  estimate_id = 1;
  estimate_revision_id = 1;
  customer_id = 1;
  vehicle_id = 1;
  invoice_number = 6;
  status = status;
  title = "Brakes";
  complaint = "Noise";
  payment_option_selected = some split_payment;
  customer_snapshot = "C";
  vehicle_snapshot = "V";
  labor_total = number (pos 5001) 2;
  parts_total = number (pos 5000) 2;
  fees_total = number (pos 0) 0;
  invoice_total = number (pos 10001) 2;
  issued_at = none;
  due_at = none;
}

abbrev shop : InvoiceStatus → Db
shop status = record (shop_with (allocation 0 0 0)) { invoices = invoice status ∷ [] }

abbrev all_of_it : PaymentRequest
all_of_it = record {
  amount = number (pos 10001) 2;
  method_label = "card";
  applies_to = full;
  note = none;
  recorded_at = none;
}

abbrev paying : Invoice × Db
unfolding record_work validate_payment require_invoice money quantize round_div total_paid sum_ℤ
    ◌+ℤ◌ post apply_deposit add_payment derive_invoice_status effective_shop_id
    effective_shop_owner_id resolve_shop_id
paying =
    value_or (invoice issued, shop issued) (record_work as_owner 31 6 all_of_it 50 (shop issued))

paying-eq-ok : record_work as_owner 31 6 all_of_it 50 (shop issued) ≡ ok paying
unfolding paying record_work validate_payment require_invoice money quantize round_div total_paid
    sum_ℤ ◌+ℤ◌ post apply_deposit add_payment derive_invoice_status effective_shop_id
    effective_shop_owner_id resolve_shop_id
paying-eq-ok = refl

abbrev voiding : Invoice × Db
unfolding paying record_work validate_payment require_invoice money quantize round_div total_paid
    sum_ℤ ◌+ℤ◌ post apply_deposit add_payment derive_invoice_status effective_shop_id
    effective_shop_owner_id resolve_shop_id void_work validate_void
voiding = value_or paying (void_work as_owner 32 6 31 none 60 paying.1)

voiding-eq-ok : void_work as_owner 32 6 31 none 60 paying.1 ≡ ok voiding
unfolding voiding paying record_work validate_payment require_invoice money quantize round_div
    total_paid sum_ℤ ◌+ℤ◌ post apply_deposit add_payment derive_invoice_status effective_shop_id
    effective_shop_owner_id resolve_shop_id void_work validate_void
voiding-eq-ok = refl

record_work-total_example :
    (amount : ℤ) × (total : ℤ) × (money all_of_it.amount ≡ ok amount)
    × (money paying.0.invoice_total ≡ ok total)
    × (ltb_ℤ (pos 0) amount ≡ true)
    × ((k : ℕ)
        → total_paid k paying.1.invoice_payments
          ≡ total_paid k (shop issued).invoice_payments
            +ℤ (if paying.0.id == k then amount else pos 0))
    × (total_paid paying.0.id paying.1.invoice_payments ≤ℤ total)
record_work-total_example =
    record_work-total as_owner 31 6 all_of_it 50 (shop issued) paying.0 paying.1 paying-eq-ok

nothing_paid : pos 0 ≤ℤ total_paid paying.0.id (shop issued).invoice_payments
unfolding total_paid sum_ℤ
nothing_paid = omega arith

charged : (status : InvoiceStatus) → money (invoice status).invoice_total ≡ ok (pos 10001)
unfolding money quantize round_div
charged status = refl

charged_paying : money paying.0.invoice_total ≡ ok (pos 10001)
unfolding paying record_work validate_payment require_invoice money quantize round_div total_paid
    sum_ℤ ◌+ℤ◌ post apply_deposit add_payment derive_invoice_status effective_shop_id
    effective_shop_owner_id resolve_shop_id
charged_paying = refl

record_work-paid_example :
    (paying.0.status ≡ paid) ↔ (total_paid paying.0.id paying.1.invoice_payments ≡ pos 10001)
record_work-paid_example =
    record_work-paid as_owner 31 6 all_of_it 50 (shop issued) paying.0 paying.1 (pos 10001)
      paying-eq-ok nothing_paid charged_paying

void_work-once_example : (e : Error) × (void_work as_owner 33 6 31 none 70 voiding.1 ≡ err e)
void_work-once_example =
    void_work-once as_owner as_owner 32 33 6 6 31 none none 60 70 paying.1 voiding.0 voiding.1
      voiding-eq-ok

void_work-record_work_example :
    total_paid 6 voiding.1.invoice_payments ≡ total_paid 6 (shop issued).invoice_payments
void_work-record_work_example =
    void_work-record_work as_owner as_owner 31 32 6 6 all_of_it none 50 60 (shop issued) paying.0
      voiding.0 paying.1 voiding.1 refl paying-eq-ok voiding-eq-ok 6

found_draft : require_invoice (shop draft) as_owner 6 ≡ ok (invoice draft)
unfolding require_invoice effective_shop_id
found_draft = refl

issue_invoice-schedule_example :
    (r : InvoiceRead) × (db' : Db) × (issue_invoice as_owner 6 30 50 51 (shop draft) ≡ (ok r, db'))
    × (get 6 db'.invoices ≡ some (issued_as (invoice draft) 50 30))
    × (sum_ℤ (λ s. s.amount) (schedule_of 6 db'.payment_schedules) ≡ pos 10001)
issue_invoice-schedule_example =
    issue_invoice-schedule as_owner 6 30 50 51 (shop draft) (invoice draft) (pos 10001) (refl, tt)
      found_draft refl refl (charged draft) (omega arith)

abbrev first_issue : Outcome InvoiceRead × Db
unfolding issue_invoice issue_work schedule_for require_invoice effective_shop_id money quantize
    round_div generate_schedule_rows schedule_rows schedule_amounts share to_read payment_summary
    total_paid sum_ℤ ◌-ℤ◌ derive_invoice_status
first_issue = issue_invoice as_owner 6 30 50 51 (shop draft)

abbrev blank : InvoiceRead
blank = record {
  invoice = invoice draft;
  status = draft;
  total_paid = pos 0;
  balance_due = pos 0;
  line_items = [];
  payments = [];
  schedule = [];
}

abbrev answer : InvoiceRead
unfolding first_issue issue_invoice issue_work schedule_for require_invoice effective_shop_id money
    quantize round_div generate_schedule_rows schedule_rows schedule_amounts share to_read
    payment_summary total_paid sum_ℤ ◌-ℤ◌ derive_invoice_status
answer = value_or blank first_issue.0

first_issue-eq : issue_invoice as_owner 6 30 50 51 (shop draft) ≡ (ok answer, first_issue.1)
unfolding answer first_issue issue_invoice issue_work schedule_for require_invoice effective_shop_id
    money quantize round_div generate_schedule_rows schedule_rows schedule_amounts share to_read
    payment_summary total_paid sum_ℤ ◌-ℤ◌ derive_invoice_status
first_issue-eq = refl
