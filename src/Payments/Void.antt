-- ===== src/Payments/Void.antt =====
-- What `void_payment` of app/payment_store.py changes: it takes back one payment, once.
use optimus_os.Base.{
  ℕ, ◌≡◌, refl, Bool, true, false, List, [], ◌∷◌, ◌++◌, Option, none, some, arith, String, ◌==◌,
  ◌&&◌, any, if◌then◌else◌, not, is_some, sym, ap, ◌∙◌, ==_refl, Bool-cases, inl, inr,
}
use optimus_os.Base.Int.{ℤ, pos, ◌+ℤ◌, neg_ℤ, neg_ℤ_parts, int_laws}
use mathlib.Core.Path.{subst}
use optimus_os.Base.Table.{scalar, scalar_sound}
use optimus_os.Base.Result.{
  ok, err, >>=-eq-ok, ok_pair_inj, guard, guard-eq-ok, require, require-eq-ok, err_of_not_ok,
}
use optimus_os.Errors.{Error, payment_not_found, cannot_void_reversal, already_voided}
use optimus_os.Db.{Db}
use optimus_os.Db.Billing.{Invoice, InvoicePayment}
use optimus_os.Auth.{AuthContext, effective_shop_id}
use optimus_os.Invoices.{require_invoice, total_paid}
use optimus_os.Payments.{
  PaymentRequest, validate_void, reversing, recording, record_work, void_work, reverses,
}
use optimus_os.Payments.Post.{PostStep, post-PostStep, post-total}
use optimus_os.Payments.Record.{record_work-RecordStep}

-- The test of the query that selects the payment.
abbrev selects : ℕ → Invoice → ℕ → InvoicePayment → Bool
selects shop i payment_key q = q.shop_id == shop && (q.invoice_id == i.id && q.id == payment_key)

abbrev is_unvoided : ℕ → Invoice → InvoicePayment → List InvoicePayment → Bool
is_unvoided shop i p payments =
    not (any (λ q. q.shop_id == shop && (q.invoice_id == i.id && reverses p.id q)) payments)

pub record Voidable (auth : AuthContext) (key payment_key : ℕ) (db : Db) (i : Invoice)
    (p : InvoicePayment) : Type 0 where
  pub shop : ℕ
  pub found : require_invoice db auth key ≡ ok i
  pub selected : scalar (selects shop i payment_key) db.invoice_payments ≡ some p
  pub original : is_some p.reversal_of_payment_id ≡ false

validate_void-Voidable :
    (auth : AuthContext) (key payment_key : ℕ) (db : Db) (i : Invoice) (p : InvoicePayment)
    → validate_void auth key payment_key db ≡ ok (i, p)
    → Voidable auth key payment_key db i p
unfolding validate_void
validate_void-Voidable auth key payment_key db i p h =
    let (j, found, h₁) = >>=-eq-ok (require_invoice db auth key) _ _ h in
    let (shop, e₂, h₂) = >>=-eq-ok (effective_shop_id db auth) _ _ h₁ in
    let (q, chosen, h₃) =
      >>=-eq-ok
        (require (scalar (selects shop j payment_key) db.invoice_payments) payment_not_found) _ _
        h₂ in
    let (u₁, original, h₄) =
      >>=-eq-ok (guard (not (is_some q.reversal_of_payment_id)) cannot_void_reversal) _ _ h₃ in
    let (u₂, e₅, h₅) =
      >>=-eq-ok (guard (is_unvoided shop j q db.invoice_payments) already_voided) _ _ h₄ in
    let (same, same_payment) = ok_pair_inj _ j i q p refl h₅ in
    let is_original : not (is_some q.reversal_of_payment_id) ≡ true =
      guard-eq-ok _ cannot_void_reversal original in
    let made : Voidable auth key payment_key db j q = record {
      shop = shop;
      found = found;
      selected = require-eq-ok _ payment_not_found q chosen;
      original = ground (arith, is_original);
    } in
    subst (λ x. Voidable auth key payment_key db x p) same
      (subst (λ y. Voidable auth key payment_key db j y) same_payment made)

pub record VoidStep (auth : AuthContext) (new_id key payment_key : ℕ) (reason : Option String)
    (now : ℕ) (db : Db) (i' : Invoice) (db' : Db) : Type 0 where
  pub i : Invoice
  pub p : InvoicePayment
  pub accepted : Voidable auth key payment_key db i p
  pub posted : PostStep new_id (reversing reason now i p) now db i' db'

pub void_work-VoidStep :
    (auth : AuthContext) (new_id key payment_key : ℕ) (reason : Option String) (now : ℕ) (db : Db)
    (i' : Invoice) (db' : Db)
    → void_work auth new_id key payment_key reason now db ≡ ok (i', db')
    → VoidStep auth new_id key payment_key reason now db i' db'
unfolding void_work
void_work-VoidStep auth new_id key payment_key reason now db i' db' h =
    let (t, checked, h₁) = >>=-eq-ok (validate_void auth key payment_key db) _ _ h in
    record {
      i = t.0;
      p = t.1;
      accepted = validate_void-Voidable auth key payment_key db t.0 t.1 checked;
      posted =
          post-PostStep auth new_id (reversing reason now t.0 t.1) now (λ d. ok d) db i' db'
            (λ d e. (cc, cc)) h₁;
    }

-- The payment that is voided has the key that was asked for, and is on the invoice.
selected_facts :
    (shop payment_key : ℕ) (i : Invoice) (p : InvoicePayment) (payments : List InvoicePayment)
    → scalar (selects shop i payment_key) payments ≡ some p
    → (p.id ≡ payment_key) × (p.invoice_id ≡ i.id)
selected_facts shop payment_key i p payments h =
    let sound : selects shop i payment_key p ≡ true =
      scalar_sound (selects shop i payment_key) payments p h in
    ground (arith, sound)

add_neg : (a b : ℤ) → a +ℤ neg_ℤ b +ℤ b ≡ a
add_neg a b = omega (int_laws, neg_ℤ_parts b)

cancels :
    (invoice k : ℕ) (amount sum : ℤ)
    → sum
        +ℤ (if invoice == k then neg_ℤ amount else pos 0)
        +ℤ (if invoice == k then amount else pos 0)
      ≡ sum
cancels invoice k amount sum = elim (Bool-cases (invoice == k)) [
  | inl e ↦ rw e (add_neg sum amount)
  | inr e ↦ rw e (omega int_laws)
]

cancels_after :
    (invoice k : ℕ) (amount sum : ℤ)
    → sum
        +ℤ (if invoice == k then amount else pos 0)
        +ℤ (if invoice == k then neg_ℤ amount else pos 0)
      ≡ sum
cancels_after invoice k amount sum = elim (Bool-cases (invoice == k)) [
  | inl e ↦ rw e (omega (int_laws, neg_ℤ_parts amount))
  | inr e ↦ rw e (omega int_laws)
]

-- A void takes exactly the amount of the payment back from what is paid on its invoice, and
-- nothing from any other; no row is changed or removed.
pub void_work-total :
    (auth : AuthContext) (new_id key payment_key : ℕ) (reason : Option String) (now : ℕ) (db : Db)
    (i' : Invoice) (db' : Db)
    → void_work auth new_id key payment_key reason now db ≡ ok (i', db')
    → (p q : InvoicePayment) × (p.id ≡ payment_key)
      × (p.invoice_id ≡ i'.id)
      × (db'.invoice_payments ≡ db.invoice_payments ++ q ∷ [])
      × (q.reversal_of_payment_id ≡ some p.id)
      × ((k : ℕ)
          → total_paid k db'.invoice_payments +ℤ (if p.invoice_id == k then p.amount else pos 0)
            ≡ total_paid k db.invoice_payments)
void_work-total auth new_id key payment_key reason now db i' db' h =
    let s : VoidStep auth new_id key payment_key reason now db i' db' =
      void_work-VoidStep auth new_id key payment_key reason now db i' db' h in
    let (key_of, invoice_of) =
      selected_facts s.accepted.shop payment_key s.i s.p db.invoice_payments s.accepted.selected in
    let same : i'.id ≡ s.i.id = ap (λ j. j.id) s.posted.written in
    (
      s.p,
      s.posted.p,
      key_of,
      invoice_of ∙ sym same,
      s.posted.added,
      s.posted.reversal_of,
      λ k.
          rw (post-total new_id (reversing reason now s.i s.p) now db i' db' k s.posted, invoice_of)
            (cancels s.i.id k s.p.amount (total_paid k db.invoice_payments)),
    )

any-append :
    (f : InvoicePayment → Bool) (payments : List InvoicePayment) (p : InvoicePayment)
    → f p ≡ true
    → any f (payments ++ p ∷ []) ≡ true
any-append f [] p h = ground (arith, h)
any-append f (q ∷ payments) p h = ground (arith, any-append f payments p h)

reverses_self :
    (k : ℕ) (q : InvoicePayment) → q.reversal_of_payment_id ≡ some k → reverses k q ≡ true
reverses_self k q e = rw e (==_refl k)

-- A payment that was voided cannot be voided again, by anyone of any shop.
pub void_work-once :
    (auth auth₂ : AuthContext) (new_id new_id₂ key key₂ payment_key : ℕ)
    (reason reason₂ : Option String) (now now₂ : ℕ) (db : Db) (i' : Invoice) (db' : Db)
    → void_work auth new_id key payment_key reason now db ≡ ok (i', db')
    → (e : Error) × (void_work auth₂ new_id₂ key₂ payment_key reason₂ now₂ db' ≡ err e)
void_work-once auth auth₂ new_id new_id₂ key key₂ payment_key reason reason₂ now now₂ db i' db' h =
    err_of_not_ok (void_work auth₂ new_id₂ key₂ payment_key reason₂ now₂ db') (λ r again.
      let s = void_work-VoidStep auth new_id key payment_key reason now db i' db' h in
      let t = void_work-VoidStep auth₂ new_id₂ key₂ payment_key reason₂ now₂ db' r.0 r.1 again in
      let (key_of, on_first) =
        selected_facts s.accepted.shop payment_key s.i s.p db.invoice_payments
          s.accepted.selected in
      let (key_of₂, on_second) =
        selected_facts t.accepted.shop payment_key t.i t.p db'.invoice_payments
          t.accepted.selected in
      let there : any (reverses s.p.id) db'.invoice_payments ≡ true = rw s.posted.added (
        any-append (reverses s.p.id) db.invoice_payments s.posted.p
          (reverses_self s.p.id s.posted.p s.posted.reversal_of)) in
      let reversed : any (reverses t.p.id) db'.invoice_payments ≡ true =
        subst (λ k. any (reverses k) db'.invoice_payments ≡ true) (key_of ∙ sym key_of₂) there in
      let unique = t.posted.unique in ground (arith, reversed, unique))

scalar-append :
    (f : InvoicePayment → Bool) (payments : List InvoicePayment) (p q : InvoicePayment)
    → scalar (λ r. r.id == p.id) payments ≡ none
    → q.id ≡ p.id
    → scalar f (payments ++ p ∷ []) ≡ some q
    → q ≡ p
scalar-append f [] p q fresh same h = ground (arith, h)
scalar-append f (r ∷ payments) p q fresh same h = ground (arith, scalar-append f payments p q)

-- A payment with a new key that is recorded and then voided leaves what is paid on every invoice
-- as it was.
pub void_work-record_work :
    (auth auth₂ : AuthContext) (new_id new_id₂ key key₂ : ℕ) (payload : PaymentRequest)
    (reason : Option String) (now now₂ : ℕ) (db : Db) (i i₂ : Invoice) (db' db'' : Db)
    → scalar (λ r. r.id == new_id) db.invoice_payments ≡ none
    → record_work auth new_id key payload now db ≡ ok (i, db')
    → void_work auth₂ new_id₂ key₂ new_id reason now₂ db' ≡ ok (i₂, db'')
    → (k : ℕ) → total_paid k db''.invoice_payments ≡ total_paid k db.invoice_payments
void_work-record_work auth auth₂ new_id new_id₂ key key₂ payload reason now now₂ db i i₂ db' db''
      fresh h v k =
    let s = record_work-RecordStep auth new_id key payload now db i db' h in
    let t = void_work-VoidStep auth₂ new_id₂ key₂ new_id reason now₂ db' i₂ db'' v in
    let (key_of, invoice_of) =
      selected_facts t.accepted.shop new_id t.i t.p db'.invoice_payments t.accepted.selected in
    let chosen : scalar (selects t.accepted.shop t.i new_id)
          (db.invoice_payments ++ s.posted.p ∷ [])
        ≡ some t.p =
      rw (← s.posted.added) t.accepted.selected in
    let is_row : t.p ≡ s.posted.p =
      scalar-append (selects t.accepted.shop t.i new_id) db.invoice_payments s.posted.p t.p
        (rw s.posted.key_of fresh) (key_of ∙ sym s.posted.key_of) chosen in
    let invoices : s.i.id ≡ t.i.id =
      sym s.posted.invoice_of ∙ ap (λ r. r.invoice_id) (sym is_row) ∙ invoice_of in
    let amounts : s.amount ≡ t.p.amount =
      sym s.posted.amount_of ∙ ap (λ r. r.amount) (sym is_row) in
    rw
      (
        post-total new_id₂ (reversing reason now₂ t.i t.p) now₂ db' i₂ db'' k t.posted,
        post-total new_id (recording payload now s.i s.amount) now db i db' k s.posted,
        invoices,
        amounts,
      )
      (cancels_after t.i.id k t.p.amount (total_paid k db.invoice_payments))
