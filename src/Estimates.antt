-- ===== src/Estimates.antt =====
-- app/estimate_store.py: estimates, their numbered revisions, and the links by which a customer
-- approves or declines one. This module has the queries and the rows that all operations share.
pub mod Resolve
pub mod Approve
pub mod Validate
pub mod Send
pub mod Content
pub mod Revise
pub mod Revised
pub mod Decide
pub mod Sent
pub mod Once
pub mod Links
pub mod Closed
pub mod Marked
pub mod Sealed
pub mod History
pub mod Approved
pub mod Ordered
pub mod Stale
pub mod Replaced
pub mod Fees
pub mod Reconciled
use optimus_os.Base.{
  ℕ, String, Bool, true, false, List, [], ◌∷◌, ◌++◌, Option, none, some, ltb, leb, ◌==◌, ◌&&◌,
  filter, if◌then◌else◌,
}
use optimus_os.Base.Table.{scalar, get, save}
use optimus_os.Base.Result.{ok, ◌>>=◌, require}
use optimus_os.Errors.{Outcome, estimate_not_found, missing_row}
use optimus_os.Db.{Db}
use optimus_os.Db.Work.{
  Estimate, EstimateStatus, EstimateRevision, PaymentOption, awaiting_approval, approved,
  pay_in_full, split_payment, two_month_plan, estimate_id, revision_id,
}
use optimus_os.Db.Approvals.{
  EstimateApprovalRequest, EstimateApprovalEvent, RequestStatus, active, EventType, ActorType,
  request_id,
}
use optimus_os.Auth.{AuthContext, effective_shop_id}

abbrev pub is_active : RequestStatus → Bool
is_active active = true
is_active _ = false

abbrev pub is_awaiting : EstimateStatus → Bool
is_awaiting awaiting_approval = true
is_awaiting _ = false

abbrev pub is_approved : EstimateStatus → Bool
is_approved approved = true
is_approved _ = false

abbrev pub option_code : PaymentOption → ℕ
option_code pay_in_full = 0
option_code split_payment = 1
option_code two_month_plan = 2

-- `due_at and ensure_utc(due_at) <= datetime.now(UTC)`
abbrev pub is_due : Option ℕ → ℕ → Bool
is_due none now = false
is_due (some due_at) now = leb due_at now

unfoldable pub require_estimate : Db → AuthContext → ℕ → Outcome Estimate
require_estimate db auth key = do
  shop_id ← effective_shop_id db auth
  require (scalar (λ e. e.shop_id == shop_id && e.id == key) db.estimates) estimate_not_found

-- `max(..., key=lambda item: item.revision_number)`, which keeps the first of the largest.
abbrev pub latest_of : EstimateRevision → List EstimateRevision → EstimateRevision
latest_of r [] = r
latest_of r (x ∷ xs) = latest_of (if ltb r.revision_number x.revision_number then x else r) xs

abbrev pub latest : List EstimateRevision → Option EstimateRevision
latest [] = none
latest (r ∷ rs) = some (latest_of r rs)

-- `estimate.revisions`
abbrev pub revisions_of : ℕ → List EstimateRevision → List EstimateRevision
revisions_of key rows = filter (λ r. r.estimate_id == key) rows

unfoldable pub latest_revision : Estimate → Db → Outcome EstimateRevision
latest_revision e db = require (latest (revisions_of e.id db.estimate_revisions)) missing_row

-- `approval_request.estimate` and `approval_request.revision`
unfoldable pub related : EstimateApprovalRequest → Db → Outcome (Estimate × EstimateRevision)
related q db = do
  e ← require (get q.estimate_id db.estimates) missing_row
  r ← require (get q.estimate_revision_id db.estimate_revisions) missing_row
  ok (e, r)

abbrev pub save_estimate : Estimate → Db → Db
save_estimate e db = record db { estimates = save e db.estimates }

abbrev pub save_revision : EstimateRevision → Db → Db
save_revision r db = record db { estimate_revisions = save r db.estimate_revisions }

abbrev pub save_request : EstimateApprovalRequest → Db → Db
save_request q db = record db { estimate_approval_requests = save q db.estimate_approval_requests }

abbrev pub append_event : EstimateApprovalEvent → Db → Db
append_event v db = record db { estimate_approval_events = db.estimate_approval_events ++ v ∷ [] }

-- An event of an estimate and its revision, by the customer unless more is said.
abbrev pub event_of :
    Estimate → EstimateRevision → Option ℕ → EventType → ActorType → String → EstimateApprovalEvent
event_of e r request type actor name = record {
  estimate_id = e.id;
  estimate_revision_id = r.id;
  owner_user_id = e.owner_user_id;
  shop_id = e.shop_id;
  approval_request_id = request;
  event_type = type;
  actor_type = actor;
  actor_user_id = none;
  actor_name = name;
  approval_method = none;
  approval_evidence = none;
  accepted_terms = none;
  payment_option = none;
  payment_plan_acknowledged = none;
  decline_reason = none;
  content_hash = r.content_hash;
  ip_address = none;
  user_agent = none;
}

-- `EstimateRead`: the row and its current revision.
pub record EstimateRead : Type 0 where
  pub estimate : Estimate
  pub current_revision : EstimateRevision

-- `_estimate_to_read`
unfoldable pub to_read : Estimate → Db → Outcome EstimateRead
to_read e db = do r ← latest_revision e db; ok record { estimate = e; current_revision = r }

unfoldable pub get_estimate : AuthContext → ℕ → Db → Outcome EstimateRead
get_estimate auth key db = do e ← require_estimate db auth key; to_read e db
