-- ===== src/WorkOrders/Draft.antt =====
-- `ensure_draft_invoice_for_work_order` of app/invoice_store.py, for a work order without an
-- invoice. `float_sum` is the sum of floats.
use optimus_os.Base.{ℕ, suc, List, [], ◌∷◌, ◌++◌, none, length, map, ◌+◌}
use optimus_os.Base.Int.{pos}
use optimus_os.Base.Money.{Decimal, number}
use optimus_os.Base.Table.{get}
use optimus_os.Base.Result.{ok, ◌>>=◌, ◌>>◌, require, guard}
use optimus_os.Errors.{Outcome, assertion_failed, work_order_not_completed}
use optimus_os.Db.{Db}
use optimus_os.Db.Work.{
  WorkOrder, EstimateRevision, LaborItem, SelectedPart, FeeItem, completed, same_status,
  revision_id,
}
use optimus_os.Db.Billing.{Invoice, InvoiceLineItem, labor, part, fee, draft}
use optimus_os.Auth.{AuthContext, effective_shop_owner_id, resolve_shop_id}

abbrev pub labor_rows : ℕ → ℕ → List LaborItem → List InvoiceLineItem
labor_rows invoice order [] = []
labor_rows invoice order (x ∷ xs) =
    record {
      invoice_id = invoice;
      sort_order = order;
      kind = labor;
      description = x.description;
      quantity = x.labor_hours;
      unit_amount = x.labor_rate;
      line_total = x.labor_total;
    }
    ∷ labor_rows invoice (suc order) xs

abbrev pub part_rows : ℕ → ℕ → List SelectedPart → List InvoiceLineItem
part_rows invoice order [] = []
part_rows invoice order (x ∷ xs) =
    record {
      invoice_id = invoice;
      sort_order = order;
      kind = part;
      description = x.part_name;
      quantity = number (pos x.quantity) 0;
      unit_amount = x.unit_price;
      line_total = x.extended_price;
    }
    ∷ part_rows invoice (suc order) xs

abbrev pub fee_rows : ℕ → ℕ → List FeeItem → List InvoiceLineItem
fee_rows invoice order [] = []
fee_rows invoice order (x ∷ xs) =
    record {
      invoice_id = invoice;
      sort_order = order;
      kind = fee;
      description = x.label;
      quantity = number (pos 1) 0;
      unit_amount = x.amount;
      line_total = x.amount;
    }
    ∷ fee_rows invoice (suc order) xs

-- The lines of the invoice: labor, parts, fees, numbered from 1.
unfoldable pub invoice_line_payloads : ℕ → EstimateRevision → List InvoiceLineItem
invoice_line_payloads invoice r =
    labor_rows invoice 1 r.estimate_response_payload.labor_items
    ++ part_rows invoice (1 + length r.estimate_response_payload.labor_items)
        r.estimate_response_payload.selected_parts
    ++ fee_rows invoice
        (1
          + length r.estimate_response_payload.labor_items
          + length r.estimate_response_payload.selected_parts)
        r.estimate_response_payload.fee_items

abbrev pub with_invoice : Invoice → EstimateRevision → Db → Db
with_invoice i r db = record db {
  invoices = db.invoices ++ i ∷ [];
  invoice_line_items = db.invoice_line_items ++ invoice_line_payloads i.id r;
}

module _ (float_sum : List Decimal → Decimal) where
  abbrev pub draft_invoice : ℕ → ℕ → ℕ → WorkOrder → EstimateRevision → Invoice
  draft_invoice owner_user_id shop_id new_id w r = record {
    id = new_id;
    owner_user_id = owner_user_id;
    shop_id = shop_id;
    work_order_id = w.id;
    estimate_id = w.estimate_id;
    estimate_revision_id = w.estimate_revision_id;
    customer_id = w.customer_id;
    vehicle_id = w.vehicle_id;
    invoice_number = new_id;
    status = draft;
    title = w.title;
    complaint = w.complaint;
    payment_option_selected = w.payment_option_selected;
    customer_snapshot = r.customer_snapshot;
    vehicle_snapshot = r.vehicle_snapshot;
    labor_total = r.estimate_response_payload.totals.labor_total;
    parts_total = r.estimate_response_payload.totals.parts_subtotal;
    fees_total = float_sum (map (λ f. f.amount) r.estimate_response_payload.fee_items);
    invoice_total = r.estimate_response_payload.totals.estimated_total;
    issued_at = none;
    due_at = none;
  }

  unfoldable pub ensure_draft : AuthContext → ℕ → WorkOrder → Db → Outcome (Invoice × Db)
  ensure_draft auth new_id w db = do
    guard (same_status w.status completed) work_order_not_completed
    r ← require (get w.estimate_revision_id db.estimate_revisions) assertion_failed
    owner_user_id ← effective_shop_owner_id db auth
    shop_id ← resolve_shop_id db auth
    let i : Invoice = draft_invoice owner_user_id shop_id new_id w r
    ok (i, with_invoice i r db)
