-- ===== src/WorkOrders.antt =====
-- app/work_order_store.py: the status of a work order, from its requirements to its completion,
-- which drafts its invoice.
pub mod Draft
pub mod Status
pub mod Transitions
pub mod Create
pub mod Edit
pub mod Once
pub mod Ready
use optimus_os.Base.{
  ℕ, Bool, true, false, List, [], ◌∷◌, Option, none, some, all, any, filter, ◌&&◌, ◌||◌, ◌==◌, not,
  is_some_eq, if◌then◌else◌,
}
use optimus_os.Base.Table.{scalar, get, save}
use optimus_os.Base.Result.{ok, err, ◌>>=◌, ◌>>◌, require, guard}
use optimus_os.Errors.{Outcome, work_order_not_found, cross_shop_relationship, assertion_failed}
use optimus_os.Db.{Db}
use optimus_os.Db.Accounts.{Technician, is_technician, technician_id}
use optimus_os.Db.Work.{
  WorkOrder, WorkOrderStatus, pending_requirements, ready_to_schedule, scheduled, in_progress,
  waiting_for_parts, waiting_for_approval, completed, cancelled, same_status, WorkOrderStatusEvent,
  WorkOrderNote, EstimateRevision, revision_id, work_order_id,
}
use optimus_os.Db.Billing.{Invoice}
use optimus_os.Db.Calendar.{customer_id, vehicle_id}
use optimus_os.Auth.{AuthContext, effective_shop_id, get_technician_for_user}
use optimus_os.Payments.{is_payment_plan}

-- The table `TRANSITIONS`.
abbrev pub status_transitions : WorkOrderStatus → List WorkOrderStatus
status_transitions pending_requirements = ready_to_schedule ∷ cancelled ∷ []
status_transitions ready_to_schedule = scheduled ∷ cancelled ∷ []
status_transitions scheduled = in_progress ∷ cancelled ∷ []
status_transitions in_progress = waiting_for_parts ∷ completed ∷ cancelled ∷ []
status_transitions waiting_for_parts = in_progress ∷ cancelled ∷ []
status_transitions waiting_for_approval = []
status_transitions completed = []
status_transitions cancelled = []

-- The work orders that a caller of a shop may see: a technician only the assigned ones.
abbrev pub visible_to : ℕ → Option Technician → WorkOrder → Bool
visible_to shop_id none w = false
visible_to shop_id (some t) w = w.shop_id == shop_id && is_some_eq w.assigned_technician_id t.id

unfoldable pub work_order_query : Db → AuthContext → Outcome (WorkOrder → Bool)
work_order_query db auth = do
  shop_id ← effective_shop_id db auth
  if is_technician auth.user.role
      then (do technician ← get_technician_for_user db auth; ok (visible_to shop_id technician))
      else ok (λ w. w.shop_id == shop_id)

unfoldable pub require_work_order : Db → AuthContext → ℕ → Outcome WorkOrder
require_work_order db auth key = do
  visible ← work_order_query db auth
  require (scalar (λ w. visible w && w.id == key) db.work_orders) work_order_not_found

unfoldable pub ready_requirements_met : WorkOrder → Bool
ready_requirements_met w =
    not (is_payment_plan w.payment_option_selected)
    || (w.deposit_received && w.authorization_confirmed)

-- A payment plan holds a pending work order back until its requirements are met.
abbrev pub is_held_back : WorkOrder → Bool
is_held_back w = same_status w.status pending_requirements && not (ready_requirements_met w)

unfoldable pub allowed_next_statuses : WorkOrder → List WorkOrderStatus
allowed_next_statuses w =
    if is_held_back w
    then filter (λ s. not (same_status s ready_to_schedule)) (status_transitions w.status)
    else status_transitions w.status

-- `_blocked_transitions` has one entry, or none.
abbrev pub blocked_transitions : WorkOrder → List WorkOrderStatus
blocked_transitions w = if is_held_back w then ready_to_schedule ∷ [] else []

-- The response, as far as it is not read from other tables for display.
pub record WorkOrderRead : Type 0 where
  pub work_order : WorkOrder
  pub invoice : Option Invoice
  pub allowed_next_statuses : List WorkOrderStatus
  pub blocked_transitions : List WorkOrderStatus
  pub status_history : List WorkOrderStatusEvent
  pub notes : List WorkOrderNote

-- The relationship `work_order.invoice`.
abbrev pub invoice_of : WorkOrder → Db → Option Invoice
invoice_of w db = scalar (λ i. i.work_order_id == w.id) db.invoices

abbrev pub has_shop : ℕ → Option ℕ → Bool
has_shop shop_id none = true
has_shop shop_id (some s) = s == shop_id

abbrev pub invoice_shop : Option Invoice → Option ℕ
invoice_shop none = none
invoice_shop (some i) = some i.shop_id

abbrev pub technician_shop : Option ℕ → Db → Option ℕ
technician_shop none db = none
technician_shop (some k) db = elim (get k db.technicians) [ none ↦ none | some t ↦ some t.shop_id ]

abbrev pub events_of : WorkOrder → Db → List WorkOrderStatusEvent
events_of w db = filter (λ e. e.work_order_id == w.id) db.work_order_status_events

abbrev pub notes_of : WorkOrder → Db → List WorkOrderNote
notes_of w db = filter (λ n. n.work_order_id == w.id) db.work_order_notes

-- Foreign keys give a work order its customer, vehicle and revision.
unfoldable pub to_read : WorkOrder → Db → Outcome WorkOrderRead
to_read w db = do
  customer ← require (get w.customer_id db.customers) assertion_failed
  vehicle ← require (get w.vehicle_id db.vehicles) assertion_failed
  revision ← require (get w.estimate_revision_id db.estimate_revisions) assertion_failed
  guard
      (customer.shop_id == w.shop_id
        && (vehicle.shop_id == w.shop_id && revision.shop_id == w.shop_id))
      cross_shop_relationship
  guard
      (has_shop w.shop_id (invoice_shop (invoice_of w db))
        && has_shop w.shop_id (technician_shop w.assigned_technician_id db))
      cross_shop_relationship
  guard (all (λ e. e.shop_id == w.shop_id) (events_of w db)) cross_shop_relationship
  guard (all (λ n. n.shop_id == w.shop_id) (notes_of w db)) cross_shop_relationship
  ok (record {
    work_order = w;
    invoice = invoice_of w db;
    allowed_next_statuses = allowed_next_statuses w;
    blocked_transitions = blocked_transitions w;
    status_history = events_of w db;
    notes = notes_of w db;
  })

abbrev pub save_work_order : WorkOrder → Db → Db
save_work_order w db = record db { work_orders = save w db.work_orders }
