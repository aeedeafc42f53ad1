-- ===== src/Invoices/Issue.antt =====
-- `issue_invoice` of app/invoice_store.py.
use optimus_os.Base.{ℕ, ◌+◌, Bool, true, false, List, [], ◌∷◌, ◌++◌, some, all, if◌then◌else◌}
use optimus_os.Base.Result.{ok, err, ◌>>=◌, ◌>>◌, guard}
use optimus_os.Errors.{Outcome, not_a_draft_invoice, numeric_overflow}
use optimus_os.Db.{Db}
use optimus_os.Db.Billing.{
  Invoice, InvoiceStatus, draft, issued, PaymentSchedule, fits_column, NotificationText,
  invoice_issued,
}
use optimus_os.Auth.{AuthContext}
use optimus_os.Invoices.{InvoiceRead, money, require_invoice, save_invoice, schedule_of, to_read}
use optimus_os.Invoices.Schedule.{days, generate_schedule_rows}

abbrev pub is_issued : InvoiceStatus → Bool
is_issued issued = true
is_issued _ = false

abbrev pub is_draft : InvoiceStatus → Bool
is_draft draft = true
is_draft _ = false

-- `record_notification` of app/notification_store.py.
abbrev pub record_notification : ℕ → ℕ → ℕ → NotificationText → Db → Db
record_notification owner_user_id shop_id entity_id text db = record db {
  notifications =
      db.notifications
      ++ record {
        owner_user_id = owner_user_id;
        shop_id = shop_id;
        entity_id = entity_id;
        text = text;
      }
        ∷ [];
}

-- The invoice as issued, and the state with it, the schedule and the notification.
abbrev pub issued_as : Invoice → ℕ → ℕ → Invoice
issued_as i now due_in_days = record i {
  status = issued;
  issued_at = some now;
  due_at = some (now + days due_in_days);
}

abbrev pub issued_state : Invoice → ℕ → List PaymentSchedule → Db → Db
issued_state i' due_at rows db =
    record_notification i'.owner_user_id i'.shop_id i'.id (invoice_issued i'.invoice_number due_at)
      (save_invoice i' (record db { payment_schedules = rows }))

-- The schedule is generated if the invoice has none; `_money` is read only then. The database refuses
-- the rows when an amount does not fit its column, which nothing catches.
unfoldable pub schedule_for :
    Invoice → ℕ → ℕ → List PaymentSchedule → List PaymentSchedule → Outcome (List PaymentSchedule)
schedule_for i' now due_at [] rows = do
  total ← money i'.invoice_total
  let added : List PaymentSchedule = generate_schedule_rows i' total now due_at
  guard (all (λ r. fits_column r.amount) added) numeric_overflow
  ok (rows ++ added)
schedule_for i' now due_at (r ∷ existing) rows = ok rows

unfoldable pub issue_work : ℕ → ℕ → Invoice → Db → Outcome (Invoice × Db)
issue_work now due_in_days i db = do
  let i' : Invoice = issued_as i now due_in_days
  let due_at : ℕ = now + days due_in_days
  rows ← schedule_for i' now due_at (schedule_of i.id db.payment_schedules) db.payment_schedules
  ok (i', issued_state i' due_at rows db)

-- An issued invoice is answered as it is; any other but a draft is refused.
unfoldable pub issue_invoice : AuthContext → ℕ → ℕ → ℕ → ℕ → Db → Outcome InvoiceRead × Db
issue_invoice auth key due_in_days now read_at db = elim (require_invoice db auth key) [
  | err e ↦ (err e, db)
  | ok i ↦
      if is_issued i.status
      then (to_read read_at i db, db)
      else if is_draft i.status
      then (elim (issue_work now due_in_days i db) [
        | ok (i', db') ↦ (to_read read_at i' db', db')
        | err e ↦ (err e, db)
      ])
      else (err not_a_draft_invoice, db)
]
