-- ===== src/Payments/Post.antt =====
-- What a posted row changes: the list of payments, the paid amount and the invoice's status.
use optimus_os.Base.{
  ℕ, ◌≡◌, refl, true, List, [], ◌∷◌, ◌++◌, arith, ◌==◌, if◌then◌else◌, sym, ap, ◌∙◌, Bool-cases,
  inl, inr,
}
use optimus_os.Base.Int.{ℤ, pos, ◌+ℤ◌, sum_ℤ, int_laws}
use optimus_os.Base.Table.{save}
use optimus_os.Base.Result.{ok, >>=-eq-ok, ok_pair_inj}
use optimus_os.Errors.{Outcome}
use optimus_os.Db.{Db}
use optimus_os.Db.Billing.{Invoice, InvoicePayment, invoice_id}
use optimus_os.Auth.{AuthContext, effective_shop_owner_id, resolve_shop_id}
use optimus_os.Invoices.{money, total_paid, derive_invoice_status}
use optimus_os.Payments.{Posting, new_row, post, add_payment, sign_check, unique_check}

-- What `mark` may change: neither payments nor invoices.
abbrev pub KeepsBilling : (Db → Outcome Db) → Db → Type 0
KeepsBilling mark db =
    (d : Db)
    → mark db ≡ ok d
    → (d.invoice_payments ≡ db.invoice_payments) × (d.invoices ≡ db.invoices)

pub record PostStep (new_id : ℕ) (x : Posting) (now : ℕ) (db : Db) (i' : Invoice) (db' : Db)
    : Type 0 where
  pub invoice_total : ℤ
  pub p : InvoicePayment
  pub charged : money x.invoice.invoice_total ≡ ok invoice_total
  pub key_of : p.id ≡ new_id
  pub invoice_of : p.invoice_id ≡ x.invoice.id
  pub amount_of : p.amount ≡ x.amount
  pub reversal_of : p.reversal_of_payment_id ≡ x.reversal_of
  pub signed : sign_check p ≡ true
  pub unique : unique_check x.reversal_of db.invoice_payments ≡ true
  pub added : db'.invoice_payments ≡ db.invoice_payments ++ p ∷ []
  pub saved : db'.invoices ≡ save i' db.invoices
  pub written : i' ≡ record x.invoice {
    status =
        derive_invoice_status invoice_total
          (total_paid x.invoice.id db.invoice_payments +ℤ x.amount)
          x.invoice.due_at
          x.invoice.status
          now;
  }

add_payment-eq-ok :
    (p : InvoicePayment) (db db' : Db)
    → add_payment p db ≡ ok db'
    → (sign_check p ≡ true)
      × (unique_check p.reversal_of_payment_id db.invoice_payments ≡ true)
      × (db'.invoice_payments ≡ db.invoice_payments ++ p ∷ [])
      × (db'.invoices ≡ db.invoices)
unfolding add_payment
add_payment-eq-ok p db db' h = ground arith

pub post-PostStep :
    (auth : AuthContext) (new_id : ℕ) (x : Posting) (now : ℕ) (mark : Db → Outcome Db) (db : Db)
    (i' : Invoice) (db' : Db)
    → KeepsBilling mark db
    → post auth new_id x now mark db ≡ ok (i', db')
    → PostStep new_id x now db i' db'
unfolding post
post-PostStep auth new_id x now mark db i' db' keeps h =
    let (owner, e₁, h₁) = >>=-eq-ok (effective_shop_owner_id db auth) _ _ h in
    let (shop, e₂, h₂) = >>=-eq-ok (resolve_shop_id db auth) _ _ h₁ in
    let (marked, e₃, h₃) = >>=-eq-ok (mark db) _ _ h₂ in
    let (invoice_total, charged, h₄) = >>=-eq-ok (money x.invoice.invoice_total) _ _ h₃ in
    let p : InvoicePayment = new_row new_id owner shop auth.user.id x in
    let (db₁, e₄, h₅) = >>=-eq-ok (add_payment p _) _ _ h₄ in
    let sum : ℤ = total_paid x.invoice.id db.invoice_payments +ℤ x.amount in
    let w : Invoice = record x.invoice {
      status = derive_invoice_status invoice_total sum x.invoice.due_at x.invoice.status now;
    } in
    let (payments, invoices) = keeps marked e₃ in
    let (signed, unique, added, saved) = add_payment-eq-ok p _ db₁ e₄ in
    let (row_is, db_is) = ok_pair_inj _ _ i' _ db' refl h₅ in
    record {
      invoice_total = invoice_total;
      p = p;
      charged = charged;
      key_of = refl;
      invoice_of = refl;
      amount_of = refl;
      reversal_of = refl;
      signed = signed;
      unique = rw (← payments) unique;
      added = sym (ap (λ d. d.invoice_payments) db_is) ∙ added ∙ ap (λ ps. ps ++ p ∷ []) payments;
      saved =
          sym (ap (λ d. d.invoices) db_is)
          ∙ saved
          ∙ ap (λ t. save w t) invoices
          ∙ ap (λ r. save r db.invoices) row_is;
      written = sym row_is;
    }

-- One more row adds its amount to its own invoice.
pub total_paid-append :
    (k : ℕ) (p : InvoicePayment) (payments : List InvoicePayment)
    → total_paid k (payments ++ p ∷ [])
      ≡ total_paid k payments +ℤ (if p.invoice_id == k then p.amount else pos 0)
unfolding total_paid sum_ℤ
total_paid-append k p [] = elim (Bool-cases (p.invoice_id == k)) [
  | inl e ↦ rw e (omega int_laws)
  | inr e ↦ rw e (omega int_laws)
]
total_paid-append k p (q ∷ payments) =
    let rest = total_paid-append k p payments in
    elim (Bool-cases (q.invoice_id == k)) [
      | inl e ↦ rw (e, rest) (omega int_laws)
      | inr e ↦ rw e rest
    ]

pub post-total :
    (new_id : ℕ) (x : Posting) (now : ℕ) (db : Db) (i' : Invoice) (db' : Db) (k : ℕ)
    → PostStep new_id x now db i' db'
    → total_paid k db'.invoice_payments
      ≡ total_paid k db.invoice_payments +ℤ (if x.invoice.id == k then x.amount else pos 0)
post-total new_id x now db i' db' k s =
    rw (s.added, total_paid-append k s.p db.invoice_payments, s.invoice_of, s.amount_of) refl
