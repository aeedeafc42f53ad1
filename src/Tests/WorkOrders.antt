-- ===== src/Tests/WorkOrders.antt =====
-- The theorems on work orders at one shop.
use optimus_os.Base.{◌≡◌, refl, true, false, List, [], ◌∷◌, ◌++◌, none, some, any, inl, inr}
use optimus_os.Base.Int.{pos}
use optimus_os.Base.Money.{Decimal, number}
use optimus_os.Base.Table.{get}
use optimus_os.Base.Result.{ok, err}
use optimus_os.Errors.{Error}
use optimus_os.Db.{Db}
use optimus_os.Db.Work.{
  WorkOrder, WorkOrderStatus, pending_requirements, ready_to_schedule, in_progress, completed,
  cancelled, split_payment, EstimateRevision, work_order_id, same_status,
}
use optimus_os.Db.Billing.{Invoice, draft}
use optimus_os.Auth.{effective_shop_id, effective_shop_owner_id}
use optimus_os.WorkOrders.{
  require_work_order, work_order_query, allowed_next_statuses, ready_requirements_met,
}
use optimus_os.WorkOrders.Draft.{invoice_line_payloads}
use optimus_os.WorkOrders.Status.{transition_work_order_status}
use optimus_os.WorkOrders.Transitions.{
  transition-refused, transition-closed, transition-offered, transition-completed,
}
use optimus_os.Auth.{resolve_shop_id}
use optimus_os.Db.Work.{Estimate, approved, EstimateResponse}
use optimus_os.WorkOrders.{save_work_order}
use optimus_os.WorkOrders.Create.{
  create_work, require_approved_estimate, approved_revision, find_or_add,
}
use optimus_os.WorkOrders.Edit.{UpdateRequest, updated, touched, update_work}
use optimus_os.WorkOrders.Once.{create_work-again}
use optimus_os.WorkOrders.Ready.{update_work-ready}
use optimus_os.Tests.{value_or, as_owner, allocation, shop_with}

-- A payment plan whose deposit is missing.
abbrev brakes : WorkOrderStatus → WorkOrder
brakes status = record {
  id = 9;
  owner_user_id = 1;
  shop_id = 1;
  estimate_id = 1;
  estimate_revision_id = 1;
  customer_id = 1;
  vehicle_id = 1;
  estimate_number = (1, 1);
  title = "Brakes";
  complaint = "Noise";
  diagnosis = none;
  status = status;
  estimate_total = some (number (pos 10001) 2);
  labor_hours_estimate = none;
  payment_option_selected = some split_payment;
  deposit_received = false;
  authorization_confirmed = true;
  scheduled_for = none;
  assigned_technician_id = none;
  is_comeback = false;
  updated_at = 0;
}

abbrev response : EstimateResponse
response = record {
  job = "Brakes";
  requirements = [];
  labor_items = [];
  selected_parts = [];
  fee_items = record { code = "flat"; label = "Fee"; amount = number (pos 10001) 2 } ∷ [];
  totals = record {
    labor_hours = number (pos 0) 0;
    labor_total = number (pos 0) 0;
    parts_subtotal = number (pos 0) 0;
    shop_supplies = number (pos 0) 0;
    mobile_service_fee = number (pos 0) 0;
    parts_tax = number (pos 0) 0;
    estimated_total = number (pos 10001) 2;
  };
}

abbrev revision : EstimateRevision
revision = record {
  id = 1;
  estimate_id = 1;
  owner_user_id = 1;
  shop_id = 1;
  revision_number = 1;
  status = approved;
  customer_snapshot = "C";
  vehicle_snapshot = "V";
  estimate_request_payload = record {
    vehicle = none;
    job = "Brakes";
    location = none;
    labor_rate = none;
    mobile_service_fee = none;
    shop_supplies_percent = none;
    parts_tax_rate = none;
  };
  estimate_response_payload = response;
  terms_text = "Terms";
  payment_options_payload = [];
  approval_due_at = none;
  content_hash = 0;
}

-- The sum of floats, of a list of one at most.
abbrev first_of : List Decimal → Decimal
first_of [] = number (pos 0) 0
first_of (x ∷ xs) = x

abbrev shop : WorkOrderStatus → Db
shop status = record (shop_with (allocation 0 0 0)) {
  work_orders = brakes status ∷ [];
  estimate_revisions = revision ∷ [];
}

found :
    (status : WorkOrderStatus) → require_work_order (shop status) as_owner 9 ≡ ok (brakes status)
unfolding require_work_order work_order_query effective_shop_id
found status = refl

owned : (status : WorkOrderStatus) → effective_shop_owner_id (shop status) as_owner ≡ ok 1
unfolding effective_shop_owner_id effective_shop_id
owned status = refl

not_offered :
    any (same_status ready_to_schedule) (allowed_next_statuses (brakes pending_requirements))
    ≡ false
unfolding allowed_next_statuses ready_requirements_met
not_offered = refl

offers_cancel :
    any (same_status cancelled) (allowed_next_statuses (brakes pending_requirements)) ≡ true
unfolding allowed_next_statuses ready_requirements_met
offers_cancel = refl

offers_completion : any (same_status completed) (allowed_next_statuses (brakes in_progress)) ≡ true
unfolding allowed_next_statuses ready_requirements_met
offers_completion = refl

transition-refused_example :
    (e : Error) × (transition_work_order_status first_of as_owner 40 9 ready_to_schedule none 5 6
        (shop pending_requirements)
      ≡ (err e, shop pending_requirements))
transition-refused_example =
    transition-refused first_of as_owner 40 9 none 5 6 (shop pending_requirements)
      (brakes pending_requirements) (found pending_requirements) ready_to_schedule not_offered refl

transition-closed_example :
    (transition_work_order_status first_of as_owner 40 9 in_progress none 5 6 (shop cancelled)).1
    ≡ shop cancelled
transition-closed_example =
    transition-closed first_of as_owner 40 9 none 5 6 (shop cancelled) (brakes cancelled)
      (found cancelled) in_progress (inr (inl refl))

transition-offered_example :
    get 9
      (transition_work_order_status first_of as_owner 40 9 cancelled none 5 6
        (shop pending_requirements)).1.work_orders
    ≡ some (record (brakes cancelled) { updated_at = 5 })
transition-offered_example =
    transition-offered first_of as_owner 40 9 none 5 6 (shop pending_requirements)
      (brakes pending_requirements) (found pending_requirements) 1 (refl, tt)
      (owned pending_requirements) cancelled offers_cancel refl

abbrev completing : Db
completing =
    (transition_work_order_status first_of as_owner 40 9 completed none 5 6 (shop in_progress)).1

transition-completed_example :
    (i : Invoice) × (get 9 completing.work_orders
      ≡ some (record (brakes completed) { updated_at = 5 }))
    × (completing.invoices ≡ [] ++ i ∷ [])
    × (completing.invoice_line_items ≡ [] ++ invoice_line_payloads i.id revision)
    × (i.work_order_id ≡ 9)
    × (i.status ≡ draft)
    × (i.invoice_total ≡ number (pos 10001) 2)
transition-completed_example =
    transition-completed first_of as_owner 40 9 none 5 6 (shop in_progress) (brakes in_progress)
      (found in_progress) 1 (refl, tt) (owned in_progress) revision offers_completion refl refl

-- The approved estimate of which the work order is made.
abbrev estimate : Estimate
estimate = record {
  id = 1;
  owner_user_id = 1;
  shop_id = 1;
  customer_id = 1;
  vehicle_id = 1;
  estimate_number = (1, 1);
  status = approved;
  current_revision_number = 1;
  approved_revision_number = some 1;
  estimate_total = some (number (pos 10001) 2);
  payment_option_selected = some split_payment;
  expires_at = none;
  is_archived = false;
}

abbrev estimated : Db
estimated = record (shop_with (allocation 0 0 0)) {
  estimates = estimate ∷ [];
  estimate_revisions = record revision { revision_number = 1 } ∷ [];
}

abbrev creating : WorkOrder × Db
unfolding create_work require_approved_estimate approved_revision work_order_query find_or_add
    effective_shop_id effective_shop_owner_id resolve_shop_id
creating = value_or (brakes cancelled, estimated) (create_work as_owner 9 1 3 estimated)

creating-eq-ok : create_work as_owner 9 1 3 estimated ≡ ok creating
unfolding creating create_work require_approved_estimate approved_revision work_order_query
    find_or_add effective_shop_id effective_shop_owner_id resolve_shop_id
creating-eq-ok = refl

create_work-again_example : create_work as_owner 10 1 4 creating.1 ≡ ok creating
create_work-again_example =
    create_work-again as_owner 9 1 3 10 4 estimated creating.0 creating.1 refl creating-eq-ok

abbrev both : UpdateRequest
both = record {
  diagnosis = none;
  scheduled_for = none;
  deposit_received = some (some true);
  authorization_confirmed = some (some true);
  is_comeback = none;
}

abbrev confirmed : WorkOrder
confirmed = touched 6 (brakes pending_requirements) (updated both (brakes pending_requirements))

updating-eq-ok :
    update_work as_owner 9 both 6 (shop pending_requirements)
    ≡ ok (confirmed, save_work_order confirmed (shop pending_requirements))
unfolding update_work require_work_order work_order_query effective_shop_id
updating-eq-ok = refl

update_work-ready_example :
    (confirmed.status ≡ pending_requirements)
    × (get 9 (save_work_order confirmed (shop pending_requirements)).work_orders ≡ some confirmed)
    × (any (same_status ready_to_schedule) (allowed_next_statuses confirmed) ≡ true)
    × (get 9
          (transition_work_order_status first_of as_owner 40 9 ready_to_schedule none 7 8
            (save_work_order confirmed (shop pending_requirements))).1.work_orders
        ≡ some (record confirmed { status = ready_to_schedule; updated_at = 7 }))
update_work-ready_example =
    update_work-ready first_of as_owner as_owner 9 40 both none 6 7 8 1 (shop pending_requirements)
      (save_work_order confirmed (shop pending_requirements)) (brakes pending_requirements)
      confirmed (refl, tt) (found pending_requirements) (found pending_requirements)
      (owned pending_requirements) refl refl refl updating-eq-ok
