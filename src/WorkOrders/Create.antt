-- ===== src/WorkOrders/Create.antt =====
-- `create_work_order_from_estimate` of app/work_order_store.py.
use optimus_os.Base.{
  ℕ, Bool, true, false, [], ◌∷◌, ◌++◌, none, some, any, filter, ◌&&◌, ◌==◌, not, if◌then◌else◌,
}
use optimus_os.Base.Table.{scalar}
use optimus_os.Base.Result.{ok, ◌>>=◌, ◌>>◌, require, guard, transaction}
use optimus_os.Errors.{
  Outcome, estimate_not_found, estimate_not_approved, revision_unavailable, integrity_error,
}
use optimus_os.Db.{Db}
use optimus_os.Db.Work.{
  Estimate, EstimateStatus, approved, EstimateRevision, WorkOrder, WorkOrderStatus,
  pending_requirements, ready_to_schedule,
}
use optimus_os.Auth.{AuthContext, effective_shop_id, effective_shop_owner_id, resolve_shop_id}
use optimus_os.Payments.{is_payment_plan}
use optimus_os.WorkOrders.{WorkOrderRead, work_order_query, to_read}

abbrev pub is_approved : EstimateStatus → Bool
is_approved approved = true
is_approved _ = false

unfoldable pub require_approved_estimate : Db → AuthContext → ℕ → Outcome (Estimate × ℕ)
require_approved_estimate db auth key = do
  shop_id ← effective_shop_id db auth
  e ← require (scalar (λ e. e.shop_id == shop_id && e.id == key) db.estimates) estimate_not_found
  guard (is_approved e.status) estimate_not_approved
  number ← require e.approved_revision_number estimate_not_approved
  ok (e, number)

unfoldable pub approved_revision : Estimate → ℕ → Db → Outcome EstimateRevision
approved_revision e number db =
    require
      (scalar (λ r. r.revision_number == number)
        (filter (λ r. r.estimate_id == e.id) db.estimate_revisions))
      revision_unavailable

abbrev pub is_from : Estimate → EstimateRevision → WorkOrder → Bool
is_from e r w = w.estimate_id == e.id && w.estimate_revision_id == r.id

abbrev pub initial_status : Estimate → WorkOrderStatus
initial_status e =
    if is_payment_plan e.payment_option_selected then pending_requirements else ready_to_schedule

abbrev pub new_work_order : ℕ → ℕ → ℕ → ℕ → Estimate → EstimateRevision → WorkOrder
new_work_order new_id owner_user_id shop_id now e r = record {
  id = new_id;
  owner_user_id = owner_user_id;
  shop_id = shop_id;
  estimate_id = e.id;
  estimate_revision_id = r.id;
  customer_id = e.customer_id;
  vehicle_id = e.vehicle_id;
  estimate_number = e.estimate_number;
  title = r.estimate_request_payload.job;
  complaint = r.estimate_request_payload.job;
  diagnosis = none;
  status = initial_status e;
  estimate_total = e.estimate_total;
  labor_hours_estimate = some r.estimate_response_payload.totals.labor_hours;
  payment_option_selected = e.payment_option_selected;
  deposit_received = false;
  authorization_confirmed = false;
  scheduled_for = none;
  assigned_technician_id = none;
  is_comeback = false;
  updated_at = now;
}

abbrev pub add_work_order : AuthContext → WorkOrder → Db → Db
add_work_order auth w db = record db {
  work_orders = db.work_orders ++ w ∷ [];
  work_order_status_events =
      db.work_order_status_events
      ++ record {
        work_order_id = w.id;
        owner_user_id = w.owner_user_id;
        shop_id = w.shop_id;
        from_status = none;
        to_status = w.status;
        reason = some "Created from approved estimate revision.";
        created_by_user_id = auth.user.id;
      }
        ∷ [];
}

-- The work order that is already there, or the new one with its first event. The unique constraint
-- refuses a row of an estimate revision that has one which the caller does not see.
unfoldable pub find_or_add :
    AuthContext
    → ℕ
    → ℕ
    → Estimate
    → EstimateRevision
    → (WorkOrder → Bool)
    → Db
    → Outcome (WorkOrder × Db)
find_or_add auth new_id now e r visible db =
    elim (scalar (λ w. visible w && is_from e r w) db.work_orders) [
      | some existing ↦ ok (existing, db)
      | none ↦ (do
        owner_user_id ← effective_shop_owner_id db auth
        shop_id ← resolve_shop_id db auth
        guard (not (any (is_from e r) db.work_orders)) integrity_error
        let w : WorkOrder = new_work_order new_id owner_user_id shop_id now e r
        ok (w, add_work_order auth w db))
    ]

unfoldable pub create_work : AuthContext → ℕ → ℕ → ℕ → Db → Outcome (WorkOrder × Db)
create_work auth new_id key now db = do
  (e, number) ← require_approved_estimate db auth key
  r ← approved_revision e number db
  visible ← work_order_query db auth
  find_or_add auth new_id now e r visible db

unfoldable pub create_work_order_from_estimate :
    AuthContext → ℕ → ℕ → ℕ → Db → Outcome WorkOrderRead × Db
create_work_order_from_estimate auth new_id key now =
    transaction (create_work auth new_id key now) to_read
