-- ===== src/Payments/Record.antt =====
-- What `record_payment` of app/payment_store.py changes: the paid amount, the status, and never
-- beyond the invoice's total.
use optimus_os.Base.{
  ℕ, ◌≡◌, refl, true, false, Option, arith, ◌↔◌, ◌==◌, if◌then◌else◌, not, sym, ap, ◌∙◌, ==_refl,
}
use optimus_os.Base.Int.{
  ℤ, pos, ◌+ℤ◌, ◌≤ℤ◌, ltb_ℤ, leb_ℤ, leb_ℤ-≤ℤ, +ℤ_positive, ≤ℤ_antisym, ≤ℤ_of_eq,
}
use mathlib.Core.Path.{subst}
use optimus_os.Base.Result.{ok, >>=-eq-ok, ok_pair_inj, ok_unique, guard, guard-eq-ok}
use optimus_os.Errors.{not_an_issued_invoice, amount_not_positive, exceeds_balance}
use optimus_os.Db.{Db}
use optimus_os.Db.Billing.{Invoice, InvoiceStatus, PaymentAppliesTo, paid}
use optimus_os.Auth.{AuthContext}
use optimus_os.Invoices.{money, require_invoice, is_untouched, total_paid, derive_invoice_status}
use optimus_os.Payments.{PaymentRequest, validate_payment, recording, record_work, apply_deposit}
use optimus_os.Payments.Post.{KeepsBilling, PostStep, post-PostStep, post-total}

pub record Accepted (auth : AuthContext) (key : ℕ) (payload : PaymentRequest) (db : Db)
    (i : Invoice) (amount : ℤ) : Type 0 where
  pub invoice_total : ℤ
  pub found : require_invoice db auth key ≡ ok i
  pub live : is_untouched i.status ≡ false
  pub asked : money payload.amount ≡ ok amount
  pub positive : ltb_ℤ (pos 0) amount ≡ true
  pub charged : money i.invoice_total ≡ ok invoice_total
  pub within : leb_ℤ (total_paid i.id db.invoice_payments +ℤ amount) invoice_total ≡ true

validate_payment-Accepted :
    (auth : AuthContext) (key : ℕ) (payload : PaymentRequest) (db : Db) (i : Invoice) (amount : ℤ)
    → validate_payment auth key payload db ≡ ok (i, amount)
    → Accepted auth key payload db i amount
unfolding validate_payment
validate_payment-Accepted auth key payload db i amount h =
    let (j, found, h₁) = >>=-eq-ok (require_invoice db auth key) _ _ h in
    let (u₁, live, h₂) =
      >>=-eq-ok (guard (not (is_untouched j.status)) not_an_issued_invoice) _ _ h₁ in
    let (a, asked, h₃) = >>=-eq-ok (money payload.amount) _ _ h₂ in
    let (u₂, positive, h₄) = >>=-eq-ok (guard (ltb_ℤ (pos 0) a) amount_not_positive) _ _ h₃ in
    let (invoice_total, charged, h₅) = >>=-eq-ok (money j.invoice_total) _ _ h₄ in
    let (u₃, within, h₆) =
      >>=-eq-ok
        (guard (leb_ℤ (total_paid j.id db.invoice_payments +ℤ a) invoice_total) exceeds_balance) _ _
        h₅ in
    let (same, same_amount) = ok_pair_inj _ j i a amount refl h₆ in
    let is_live : not (is_untouched j.status) ≡ true = guard-eq-ok _ not_an_issued_invoice live in
    let made : Accepted auth key payload db j a = record {
      invoice_total = invoice_total;
      found = found;
      live = ground (arith, is_live);
      asked = asked;
      positive = guard-eq-ok _ amount_not_positive positive;
      charged = charged;
      within = guard-eq-ok _ exceeds_balance within;
    } in
    subst (λ x. Accepted auth key payload db x amount) same
      (subst (λ y. Accepted auth key payload db j y) same_amount made)

apply_deposit-KeepsBilling :
    (applies_to : PaymentAppliesTo) (now : ℕ) (i : Invoice) (db : Db)
    → KeepsBilling (apply_deposit applies_to now i) db
unfolding apply_deposit
apply_deposit-KeepsBilling applies_to now i db d h = ground arith

-- A recorded payment, as it was accepted and as it was written.
pub record RecordStep (auth : AuthContext) (new_id key : ℕ) (payload : PaymentRequest) (now : ℕ)
    (db : Db) (i' : Invoice) (db' : Db) : Type 0 where
  pub i : Invoice
  pub amount : ℤ
  pub accepted : Accepted auth key payload db i amount
  pub posted : PostStep new_id (recording payload now i amount) now db i' db'

pub record_work-RecordStep :
    (auth : AuthContext) (new_id key : ℕ) (payload : PaymentRequest) (now : ℕ) (db : Db)
    (i' : Invoice) (db' : Db)
    → record_work auth new_id key payload now db ≡ ok (i', db')
    → RecordStep auth new_id key payload now db i' db'
unfolding record_work
record_work-RecordStep auth new_id key payload now db i' db' h =
    let (t, checked, h₁) = >>=-eq-ok (validate_payment auth key payload db) _ _ h in
    record {
      i = t.0;
      amount = t.1;
      accepted = validate_payment-Accepted auth key payload db t.0 t.1 checked;
      posted =
          post-PostStep auth new_id (recording payload now t.0 t.1) now
            (apply_deposit payload.applies_to now t.0) db i' db'
            (apply_deposit-KeepsBilling payload.applies_to now t.0 db) h₁;
    }

-- The status of an invoice that is not a draft or void is `paid` when what is paid is positive and
-- reaches the total, and only then.
derive_invoice_status-paid :
    (total sum : ℤ) (due_at : Option ℕ) (current : InvoiceStatus) (now : ℕ)
    → is_untouched current ≡ false
    → (derive_invoice_status total sum due_at current now ≡ paid)
      ↔ ((ltb_ℤ (pos 0) sum ≡ true) × (total ≤ℤ sum))
unfolding derive_invoice_status
derive_invoice_status-paid total sum due_at current now live = (ground arith, ground arith)

-- A recorded payment of a positive amount adds exactly that amount to what is paid on its invoice
-- and nothing to any other, and never goes beyond the invoice's total.
pub record_work-total :
    (auth : AuthContext) (new_id key : ℕ) (payload : PaymentRequest) (now : ℕ) (db : Db)
    (i' : Invoice) (db' : Db)
    → record_work auth new_id key payload now db ≡ ok (i', db')
    → (amount : ℤ) × (total : ℤ) × (money payload.amount ≡ ok amount)
      × (money i'.invoice_total ≡ ok total)
      × (ltb_ℤ (pos 0) amount ≡ true)
      × ((k : ℕ)
          → total_paid k db'.invoice_payments
            ≡ total_paid k db.invoice_payments +ℤ (if i'.id == k then amount else pos 0))
      × (total_paid i'.id db'.invoice_payments ≤ℤ total)
record_work-total auth new_id key payload now db i' db' h =
    let s : RecordStep auth new_id key payload now db i' db' =
      record_work-RecordStep auth new_id key payload now db i' db' h in
    let same : i'.id ≡ s.i.id = ap (λ j. j.id) s.posted.written in
    let charge : i'.invoice_total ≡ s.i.invoice_total =
      ap (λ j. j.invoice_total) s.posted.written in
    let moves : (k : ℕ)
        → total_paid k db'.invoice_payments
          ≡ total_paid k db.invoice_payments +ℤ (if i'.id == k then s.amount else pos 0) =
      λ k.
        rw same (post-total new_id (recording payload now s.i s.amount) now db i' db' k s.posted) in
    let own : total_paid i'.id db'.invoice_payments
        ≡ total_paid i'.id db.invoice_payments +ℤ s.amount =
      moves i'.id
      ∙ ap (λ b. total_paid i'.id db.invoice_payments +ℤ (if b then s.amount else pos 0))
          (==_refl i'.id) in
    let from_step : total_paid i'.id db'.invoice_payments
        ≡ total_paid s.i.id db.invoice_payments +ℤ s.amount =
      own ∙ ap (λ n. total_paid n db.invoice_payments +ℤ s.amount) same in
    (
      s.amount,
      s.accepted.invoice_total,
      s.accepted.asked,
      ap money charge ∙ s.accepted.charged,
      s.accepted.positive,
      moves,
      subst (λ t. t ≤ℤ s.accepted.invoice_total) (sym from_step)
          (leb_ℤ-≤ℤ _ s.accepted.invoice_total s.accepted.within),
    )

-- After a recorded payment on an invoice on which no negative sum was paid, the invoice is `paid`
-- just when what is paid equals its total.
pub record_work-paid :
    (auth : AuthContext) (new_id key : ℕ) (payload : PaymentRequest) (now : ℕ) (db : Db)
    (i' : Invoice) (db' : Db) (total : ℤ)
    → record_work auth new_id key payload now db ≡ ok (i', db')
    → pos 0 ≤ℤ total_paid i'.id db.invoice_payments
    → money i'.invoice_total ≡ ok total
    → (i'.status ≡ paid) ↔ (total_paid i'.id db'.invoice_payments ≡ total)
record_work-paid auth new_id key payload now db i' db' total h before charged =
    let s : RecordStep auth new_id key payload now db i' db' =
      record_work-RecordStep auth new_id key payload now db i' db' h in
    let same : i'.id ≡ s.i.id = ap (λ j. j.id) s.posted.written in
    let charge : i'.invoice_total ≡ s.i.invoice_total =
      ap (λ j. j.invoice_total) s.posted.written in
    let due : total ≡ s.posted.invoice_total =
      ok_unique charged (ap money charge ∙ s.posted.charged) in
    let limit : s.accepted.invoice_total ≡ s.posted.invoice_total =
      ok_unique s.accepted.charged s.posted.charged in
    let sum : ℤ = total_paid s.i.id db.invoice_payments +ℤ s.amount in
    let moved : total_paid i'.id db'.invoice_payments ≡ sum =
      post-total new_id (recording payload now s.i s.amount) now db i' db' i'.id s.posted
      ∙ ap (λ n. total_paid n db.invoice_payments +ℤ (if s.i.id == n then s.amount else pos 0)) same
      ∙ ap (λ b. total_paid s.i.id db.invoice_payments +ℤ (if b then s.amount else pos 0))
          (==_refl s.i.id) in
    let within : sum ≤ℤ s.posted.invoice_total =
      subst (λ t. sum ≤ℤ t) limit (leb_ℤ-≤ℤ sum s.accepted.invoice_total s.accepted.within) in
    let some_paid : ltb_ℤ (pos 0) sum ≡ true =
      +ℤ_positive _ s.amount (subst (λ n. pos 0 ≤ℤ total_paid n db.invoice_payments) same before)
        s.accepted.positive in
    let (to, from) =
      derive_invoice_status-paid s.posted.invoice_total sum s.i.due_at s.i.status now
        s.accepted.live in
    let status : i'.status
        ≡ derive_invoice_status s.posted.invoice_total sum s.i.due_at s.i.status now =
      ap (λ j. j.status) s.posted.written in
    (
      λ is_paid.
          moved
          ∙ ≤ℤ_antisym sum s.posted.invoice_total within (to (sym status ∙ is_paid)).1
          ∙ sym due,
      λ equal.
          status ∙ from (some_paid, ≤ℤ_of_eq sum s.posted.invoice_total (sym moved ∙ equal ∙ due)),
    )
