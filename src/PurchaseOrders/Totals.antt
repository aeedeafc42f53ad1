-- ===== src/PurchaseOrders/Totals.antt =====
-- The total and the number of a new purchase order (app/purchase_order_store.py).
use optimus_os.Base.{
  ℕ, suc, ◌+◌, ◌*◌, ◌≤◌, ◌≡◌, refl, Bool, true, false, List, [], ◌∷◌, ◌++◌, arith, inl, inr, sum_of,
  leb, ap, ◌∙◌, Bool-cases, not, length,
}
use optimus_os.Base.Result.{ok, >>=-eq-ok, guard, guard-eq-ok}
use optimus_os.Errors.{total_too_large, part_archived}
use optimus_os.Db.{Db}
use optimus_os.Db.Stock.{PurchaseOrder, PurchaseOrderLineItem, draft}
use optimus_os.Auth.{AuthContext}
use optimus_os.Allocations.{require_part}
use optimus_os.PurchaseOrders.{money, fits, validate_vendor}
use optimus_os.PurchaseOrders.Create.{
  LineRequest, CreateRequest, ValidatedItem, validate_item, validate_items, is_taken, line_rows,
  new_order, Attempt, commit_order, attempt_create, create_purchase_order, numeric_column_max,
}

abbrev pub item_cost : ValidatedItem → ℕ
item_cost i = i.unit_cost * i.quantity

abbrev pub line_cost : PurchaseOrderLineItem → ℕ
line_cost l = l.unit_cost * l.quantity_ordered

-- The line total of a validated line is its cost times its quantity.
validate_item-cost :
    (db : Db) (auth : AuthContext) (entry : LineRequest) (item : ValidatedItem) (line_total : ℕ)
    → validate_item db auth entry ≡ ok (item, line_total)
    → line_total ≡ item_cost item
unfolding validate_item
validate_item-cost db auth entry item line_total h =
    let (part, e₁, h₁) = >>=-eq-ok (require_part db auth entry.part) _ _ h in
    let (u, e₂, h₂) = >>=-eq-ok (guard (not part.is_archived) part_archived) _ _ h₁ in
    let (cost, e₃, h₃) = >>=-eq-ok (money entry.unit_cost) _ _ h₂ in
    let (whole, e₄, h₄) = >>=-eq-ok (fits (cost * entry.quantity_ordered)) _ _ h₃ in
    let whole_is : whole ≡ cost * entry.quantity_ordered = ground arith in ground arith

-- The total of the validated lines is the subtotal so far and the sum of their costs, there is
-- one validated line for each that was asked for, and the total fits its column.
pub validate_items-total :
    (db : Db) (auth : AuthContext) (entries : List LineRequest) (subtotal total : ℕ)
    (items : List ValidatedItem)
    → subtotal ≤ numeric_column_max
    → validate_items db auth entries subtotal ≡ ok (total, items)
    → (total ≡ subtotal + sum_of item_cost items)
      × (total ≤ numeric_column_max)
      × (length items ≡ length entries)
unfolding validate_items
validate_items-total db auth [] subtotal total items small h = ground arith
validate_items-total db auth (entry ∷ entries) subtotal total items small h =
    let (t, e₁, h₁) = >>=-eq-ok (validate_item db auth entry) _ _ h in
    let fits_column : Bool = leb (subtotal + t.1) numeric_column_max in
    let (u, e₂, h₂) = >>=-eq-ok (guard fits_column total_too_large) _ _ h₁ in
    let (r, e₃, h₃) = >>=-eq-ok (validate_items db auth entries (subtotal + t.1)) _ _ h₂ in
    let cost = validate_item-cost db auth entry t.0 t.1 e₁ in
    let checked : fits_column ≡ true = guard-eq-ok fits_column total_too_large e₂ in
    let bound : subtotal + t.1 ≤ numeric_column_max = ground arith in
    let (sums, upper, counts) =
      validate_items-total db auth entries (subtotal + t.1) r.0 r.1 bound e₃ in
    let total_is : total ≡ r.0 = ground arith in
    let items_are : items ≡ t.0 ∷ r.1 = ground arith in
    rw (items_are, total_is) (omega (arith, sums, cost), upper, omega (arith, counts))

-- The rows that are written cost together what was validated.
sum_of-line_rows :
    (order first : ℕ) (items : List ValidatedItem)
    → sum_of line_cost (line_rows order first items) ≡ sum_of item_cost items
sum_of-line_rows order first [] = refl
sum_of-line_rows order first (i ∷ items) = omega (arith, sum_of-line_rows order (suc first) items)

length-line_rows :
    (order first : ℕ) (items : List ValidatedItem)
    → length (line_rows order first items) ≡ length items
length-line_rows order first [] = refl
length-line_rows order first (i ∷ items) =
    ap (λ n. suc n) (length-line_rows order (suc first) items)

-- What a committed order has written into the state it was committed to.
pub record Committed (subtotal : ℕ) (items : List ValidatedItem) (o : PurchaseOrder) (db' : Db)
    : Type 0 where
  pub before : Db
  pub first_line : ℕ
  pub is_new : is_taken o.po_number before.purchase_orders ≡ false
  pub result : db' ≡ commit_order o first_line items before
  pub amount : o.total ≡ subtotal
  pub at_start : o.status ≡ draft

new_order-amount :
    (auth : AuthContext) (new_id : ℕ) (payload : CreateRequest) (subtotal : ℕ) (db : Db)
    (o : PurchaseOrder)
    → new_order auth new_id payload subtotal db ≡ ok o
    → (o.total ≡ subtotal) × (o.status ≡ draft)
unfolding new_order
new_order-amount auth new_id payload subtotal db o h = ground arith

attempt_create-Committed :
    (auth : AuthContext) (payload : CreateRequest) (subtotal : ℕ) (items : List ValidatedItem)
    (attempts : List Attempt) (o : PurchaseOrder) (db' : Db)
    → attempt_create auth payload subtotal items attempts ≡ ok (o, db')
    → Committed subtotal items o db'
unfolding attempt_create
attempt_create-Committed auth payload subtotal items [] o db' h = cc
attempt_create-Committed auth payload subtotal items (a ∷ later) o db' h =
    let (q, e, h₁) = >>=-eq-ok (new_order auth a.new_id payload subtotal a.reads) _ _ h in
    let (amount, at_start) = new_order-amount auth a.new_id payload subtotal a.reads q e in
    elim (Bool-cases (is_taken q.po_number a.commits_to.purchase_orders)) [
      | inl t ↦ attempt_create-Committed auth payload subtotal items later o db' (rw t at h₁)
      | inr f ↦
          let order : q ≡ o = ground (arith, f, h₁) in
          let state : db' ≡ commit_order q a.first_line_id items a.commits_to =
            ground (arith, f, h₁) in
          record {
            before = a.commits_to;
            first_line = a.first_line_id;
            is_new = rw (← order) f;
            result = rw (← order) state;
            amount = rw (← order) amount;
            at_start = rw (← order) at_start;
          }
    ]

-- A created order has a number that no order of the state it is added to has, is a draft, its
-- total is the sum of cost times quantity over the lines added with it, and it fits its column.
pub create_purchase_order-total :
    (auth : AuthContext) (payload : CreateRequest) (db : Db) (first second third : Attempt)
    (o : PurchaseOrder) (db' : Db)
    → create_purchase_order auth payload db first second third ≡ ok (o, db')
    → (before : Db) × (rows : List PurchaseOrderLineItem) × (is_taken o.po_number
          before.purchase_orders
        ≡ false)
      × (o.status ≡ draft)
      × (db'.purchase_orders ≡ before.purchase_orders ++ o ∷ [])
      × (db'.purchase_order_line_items ≡ before.purchase_order_line_items ++ rows)
      × (o.total ≡ sum_of line_cost rows)
      × (length rows ≡ length payload.line_items)
      × (o.total ≤ numeric_column_max)
unfolding create_purchase_order
create_purchase_order-total auth payload db first second third o db' h =
    let (v, e₁, h₁) = >>=-eq-ok (validate_vendor db auth payload.vendor_id) _ _ h in
    let (t, e₂, h₂) = >>=-eq-ok (validate_items db auth payload.line_items 0) _ _ h₁ in
    let c : Committed t.0 t.1 o db' =
      attempt_create-Committed auth payload t.0 t.1 (first ∷ second ∷ third ∷ []) o db' h₂ in
    let (sums, upper, counts) =
      validate_items-total db auth payload.line_items 0 t.0 t.1 (omega arith) e₂ in
    let rows : List PurchaseOrderLineItem = line_rows o.id c.first_line t.1 in
    (
      c.before,
      rows,
      c.is_new,
      c.at_start,
      ap (λ d. d.purchase_orders) c.result,
      ap (λ d. d.purchase_order_line_items) c.result,
      omega (arith, c.amount, sums, sum_of-line_rows o.id c.first_line t.1),
      length-line_rows o.id c.first_line t.1 ∙ counts,
      rw c.amount upper,
    )
