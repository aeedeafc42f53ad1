-- ===== src/Invoices/Status.antt =====
-- What issuing an invoice leaves: the schedule, the status, and that it is done once.
use optimus_os.Base.{
  ℕ, ◌≡◌, refl, Bool, List, [], ◌∷◌, ◌++◌, some, arith, ◌==◌, ◌&&◌, sym, ap, ◌∙◌, ==_refl, suc, ◌+◌,
  ◌<◌, ◌^◌, inl, inr,
}
use optimus_os.Base.Int.{ℤ, pos_part, neg_part, sum_ℤ}
use mathlib.Core.Path.{subst}
use optimus_os.Base.Table.{
  Unique, scalar, get, save, scalar_sound, scalar-save, get-scalar, get-save_self,
}
use optimus_os.Base.Result.{ok, err, >>=-eq-ok, require-eq-ok, Result-cases, ok_pair_inj}
use optimus_os.Errors.{Error, invoice_not_found}
use optimus_os.Db.{Db}
use optimus_os.Db.Billing.{Invoice, draft, issued, PaymentSchedule, ScheduleLabel, invoice_id}
use optimus_os.Auth.{AuthContext, effective_shop_id}
use optimus_os.Invoices.{money, require_invoice, schedule_of, InvoiceRead, payment_summary, to_read}
use optimus_os.Invoices.Schedule.{
  schedule_rows, schedule_amounts, generate_schedule_rows, generate_schedule_rows-sum,
  generate_schedule_rows-fit, days,
}
use optimus_os.Invoices.Issue.{issued_as, issued_state, schedule_for, issue_work, issue_invoice}

-- The generated rows are all rows of their invoice, and those of an invoice without rows.
schedule_of-rows :
    (i : Invoice) (n : ℕ) (rows : List (ScheduleLabel × ℕ × ℤ))
    → schedule_of i.id (schedule_rows i n rows) ≡ schedule_rows i n rows
unfolding schedule_rows
schedule_of-rows i n [] = refl
schedule_of-rows i n (r ∷ rows) = ground (arith, schedule_of-rows i (suc n) rows, ==_refl i.id)

schedule_of-append :
    (k : ℕ) (xs ys : List PaymentSchedule)
    → schedule_of k xs ≡ []
    → schedule_of k (xs ++ ys) ≡ schedule_of k ys
schedule_of-append k [] ys h = refl
schedule_of-append k (x ∷ xs) ys h = ground (arith, schedule_of-append k xs ys)

-- A response is built for any invoice whose total is an amount.
to_read-ok :
    (now : ℕ) (i : Invoice) (db : Db) (total : ℤ)
    → money i.invoice_total ≡ ok total
    → (r : InvoiceRead) × (to_read now i db ≡ ok r)
unfolding to_read payment_summary
to_read-ok now i db total charged = elim (Result-cases (to_read now i db)) [
  | inl ran ↦ ran
  | inr (e, failed) ↦ absurd (ground (arith, charged, failed))
]

issue_work-draft :
    (now due_in_days : ℕ) (i : Invoice) (db : Db) (total : ℤ)
    → schedule_of i.id db.payment_schedules ≡ []
    → money i.invoice_total ≡ ok total
    → pos_part total + neg_part total < 10 ^ 10
    → issue_work now due_in_days i db
      ≡ ok (
        issued_as i now due_in_days,
        issued_state
            (issued_as i now due_in_days)
            (now + days due_in_days)
            (db.payment_schedules
              ++ generate_schedule_rows
                  (issued_as i now due_in_days)
                  total
                  now
                  (now + days due_in_days))
            db,
      )
unfolding issue_work schedule_for
issue_work-draft now due_in_days i db total empty charged bounded =
    let fit =
      generate_schedule_rows-fit (issued_as i now due_in_days) total now (now + days due_in_days)
        bounded in
    rw (empty, charged, fit) refl

issue_invoice-draft :
    (auth : AuthContext) (key due_in_days now read_at : ℕ) (db db' : Db) (i i' : Invoice)
    → require_invoice db auth key ≡ ok i
    → i.status ≡ draft
    → issue_work now due_in_days i db ≡ ok (i', db')
    → issue_invoice auth key due_in_days now read_at db ≡ (to_read read_at i' db', db')
unfolding issue_invoice
issue_invoice-draft auth key due_in_days now read_at db db' i i' found at_draft done =
    rw (issue_invoice, found, done, at_draft) refl

issue_invoice-failed :
    (auth : AuthContext) (key due_in_days now read_at : ℕ) (db : Db) (i : Invoice) (e : Error)
    → require_invoice db auth key ≡ ok i
    → i.status ≡ draft
    → issue_work now due_in_days i db ≡ err e
    → issue_invoice auth key due_in_days now read_at db ≡ (err e, db)
unfolding issue_invoice
issue_invoice-failed auth key due_in_days now read_at db i e found at_draft failed =
    rw (issue_invoice, found, failed, at_draft) refl

ok_not_err : {r : InvoiceRead} {e : Error} → ok r ≡ err e → ⊥
ok_not_err h = cc

get-require_invoice :
    (db : Db) (auth : AuthContext) (key : ℕ) (i : Invoice)
    → Unique db.invoices
    → require_invoice db auth key ≡ ok i
    → get i.id db.invoices ≡ some i
unfolding require_invoice
get-require_invoice db auth key i u h =
    let (shop, e, h₁) = >>=-eq-ok (effective_shop_id db auth) _ _ h in
    get-scalar _ db.invoices i u (require-eq-ok _ invoice_not_found i h₁)

-- The first issue of a draft without a schedule, whose total is an amount below 100,000,000.00 in
-- size, answers without an error, stores the invoice as issued at `now` and due after the days asked
-- for, and its schedule sums to its total, when no two invoices have the same key.
pub issue_invoice-schedule :
    (auth : AuthContext) (key due_in_days now read_at : ℕ) (db : Db) (i : Invoice) (total : ℤ)
    → Unique db.invoices
    → require_invoice db auth key ≡ ok i
    → i.status ≡ draft
    → schedule_of i.id db.payment_schedules ≡ []
    → money i.invoice_total ≡ ok total
    → pos_part total + neg_part total < 10 ^ 10
    → (r : InvoiceRead) × (db' : Db) × (issue_invoice auth key due_in_days now read_at db
        ≡ (ok r, db'))
      × (get i.id db'.invoices ≡ some (issued_as i now due_in_days))
      × (sum_ℤ (λ s. s.amount) (schedule_of i.id db'.payment_schedules) ≡ total)
unfolding generate_schedule_rows
issue_invoice-schedule auth key due_in_days now read_at db i total u found at_draft empty charged
      bounded =
    let i' : Invoice = issued_as i now due_in_days in
    let due_at : ℕ = now + days due_in_days in
    let rows : List PaymentSchedule = generate_schedule_rows i' total now due_at in
    let db' : Db = issued_state i' due_at (db.payment_schedules ++ rows) db in
    let (r, answered) = to_read-ok read_at i' db' total charged in
    let ran =
      issue_invoice-draft auth key due_in_days now read_at db db' i i' found at_draft
        (issue_work-draft now due_in_days i db total empty charged bounded) in
    (
      r,
      db',
      ran ∙ ap (λ a. (a, db')) answered,
      get-save_self i' i db.invoices (get-require_invoice db auth key i u found),
      ap (sum_ℤ (λ s. s.amount)) (
            schedule_of-append i.id db.payment_schedules rows empty
            ∙ schedule_of-rows i' 1 (schedule_amounts i'.payment_option_selected total now due_at))
          ∙ generate_schedule_rows-sum i' total now due_at,
    )

-- The issued invoice is found where the draft was.
require_invoice-issued :
    (auth : AuthContext) (key now due_in_days due_at : ℕ) (db : Db) (i : Invoice)
    (rows : List PaymentSchedule)
    → Unique db.invoices
    → require_invoice db auth key ≡ ok i
    → require_invoice (issued_state (issued_as i now due_in_days) due_at rows db) auth key
      ≡ ok (issued_as i now due_in_days)
unfolding require_invoice effective_shop_id
require_invoice-issued auth key now due_in_days due_at db i rows u found =
    let (shop, e, h₁) = >>=-eq-ok (effective_shop_id db auth) _ _ found in
    let its : Invoice → Bool = λ j. j.shop_id == shop && j.id == key in
    let row : scalar its db.invoices ≡ some i = require-eq-ok _ invoice_not_found i h₁ in
    let again : scalar its (save (issued_as i now due_in_days) db.invoices)
        ≡ some (issued_as i now due_in_days) =
      scalar-save its db.invoices i (issued_as i now due_in_days) u row refl
        (scalar_sound its db.invoices i row) in
    rw (e, again) refl

issue_work-state :
    (now due_in_days : ℕ) (i i' : Invoice) (db db' : Db)
    → issue_work now due_in_days i db ≡ ok (i', db')
    → (rows : List PaymentSchedule) × (db'
        ≡ issued_state (issued_as i now due_in_days) (now + days due_in_days) rows db)
unfolding issue_work
issue_work-state now due_in_days i i' db db' h =
    let (rows, e, h₁) =
      >>=-eq-ok
        (schedule_for (issued_as i now due_in_days) now (now + days due_in_days)
          (schedule_of i.id db.payment_schedules) db.payment_schedules)
        _ _ h in
    let (same, state) = ok_pair_inj _ _ i' _ db' refl h₁ in (rows, sym state)

issue_invoice-issued :
    (auth : AuthContext) (key due_in_days now read_at : ℕ) (db : Db) (i : Invoice)
    → require_invoice db auth key ≡ ok i
    → i.status ≡ issued
    → (issue_invoice auth key due_in_days now read_at db).1 ≡ db
unfolding issue_invoice
issue_invoice-issued auth key due_in_days now read_at db i found is =
    rw (issue_invoice, found, is) refl

-- Issuing a draft a second time changes nothing, whatever the second request asks for.
pub issue_invoice-twice :
    (auth : AuthContext) (key due_in_days now read_at due₂ now₂ read_at₂ : ℕ) (db db' : Db)
    (i : Invoice) (r : InvoiceRead)
    → Unique db.invoices
    → require_invoice db auth key ≡ ok i
    → i.status ≡ draft
    → issue_invoice auth key due_in_days now read_at db ≡ (ok r, db')
    → (issue_invoice auth key due₂ now₂ read_at₂ db').1 ≡ db'
unfolding issue_invoice
issue_invoice-twice auth key due_in_days now read_at due₂ now₂ read_at₂ db db' i r u found at_draft
      h =
    elim (Result-cases (issue_work now due_in_days i db)) [
      | inl (t, done) ↦
          let ran =
            issue_invoice-draft auth key due_in_days now read_at db t.1 i t.0 found at_draft done in
          let (rows, state) = issue_work-state now due_in_days i t.0 db t.1 done in
          let stored : db'
              ≡ issued_state (issued_as i now due_in_days) (now + days due_in_days) rows db =
            ap (λ a. a.1) (sym h ∙ ran) ∙ state in
          subst (λ d. (issue_invoice auth key due₂ now₂ read_at₂ d).1 ≡ d) (sym stored)
            (issue_invoice-issued auth key due₂ now₂ read_at₂ _ (issued_as i now due_in_days)
              (require_invoice-issued auth key now due_in_days (now + days due_in_days) db i rows u
                found)
              refl)
      | inr (e, failed) ↦ absurd (
          ok_not_err (
            ap (λ a. a.0)
              (sym h
                ∙ issue_invoice-failed auth key due_in_days now read_at db i e found at_draft
                    failed)))
    ]
