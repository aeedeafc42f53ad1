-- ===== src/Estimates/Approve.antt =====
-- `approve_estimate` and `decline_estimate` of app/estimate_store.py: the customer's decision on
-- the revision that a link was sent for. The clock is read for the link, for the due date, and for
-- the time of the decision.
use optimus_os.Base.{ℕ, String, Bool, false, Option, some, ◌==◌, ◌&&◌, not, if◌then◌else◌}
use optimus_os.Base.Table.{scalar}
use optimus_os.Base.Result.{ok, err, ◌>>=◌, ◌>>◌, guard, require}
use optimus_os.Errors.{
  Outcome, revision_mismatch, estimate_expired, terms_not_accepted, option_unavailable,
  acknowledgement_required,
}
use optimus_os.Db.{Db}
use optimus_os.Db.Work.{
  Estimate, EstimateStatus, EstimateRevision, EstimatePaymentOption, PaymentOption, approved,
  declined,
}
use optimus_os.Db.Work
use optimus_os.Db.Billing.{estimate_approved, estimate_declined}
use optimus_os.Db.Approvals
use optimus_os.Db.Approvals.{
  EstimateApprovalRequest, EstimateApprovalEvent, used, customer, typed_signature, link,
}
use optimus_os.Invoices.Issue.{record_notification}
use optimus_os.Estimates.{
  option_code, is_due, related, save_estimate, save_revision, save_request, append_event, event_of,
}
use optimus_os.Estimates.Resolve.{resolve_active_approval_request, with_request, with_related}

-- `EstimateApprovalActionRequest`
pub record ApprovalActionRequest : Type 0 where
  pub token : String
  pub revision_number : ℕ
  pub approving_name : String
  pub accepted_terms : Bool
  pub payment_option : PaymentOption
  pub payment_plan_acknowledged : Bool
  pub typed_authorization : Option String

-- `EstimateDeclineActionRequest`
pub record DeclineActionRequest : Type 0 where
  pub token : String
  pub revision_number : ℕ
  pub declining_name : String
  pub reason : Option String

-- Where a customer's request comes from, and the readings of the clock.
pub record Visit : Type 0 where
  pub ip_address : Option String
  pub user_agent : Option String
  pub now : ℕ
  pub checked_at : ℕ
  pub decided_at : ℕ

-- `EstimateApprovalActionResponse`
pub record ActionResponse : Type 0 where
  pub estimate_id : ℕ
  pub estimate_number : ℕ × ℕ
  pub status : EstimateStatus
  pub revision_number : ℕ
  pub decided_at : ℕ

-- The three rows of a decision, written together.
abbrev pub save_decision : Estimate → EstimateRevision → EstimateApprovalRequest → Db → Db
save_decision e r q db = save_request q (save_revision r (save_estimate e db))

abbrev pub used_request : EstimateApprovalRequest → ℕ → EstimateApprovalRequest
used_request q decided_at = record q { status = used; used_at = some decided_at }

-- The due date of the revision is over: all three rows are marked, and that is committed.
abbrev pub expire_all : Estimate → EstimateRevision → EstimateApprovalRequest → Db → Db
expire_all e r q =
    save_decision (record e { status = Work.expired }) (record r { status = Work.expired })
      (record q { status = Approvals.expired })

abbrev pub approved_estimate : ApprovalActionRequest → Estimate → EstimateRevision → Estimate
approved_estimate payload e r = record e {
  status = approved;
  approved_revision_number = some r.revision_number;
  payment_option_selected = some payload.payment_option;
}

abbrev pub approval_event :
    ApprovalActionRequest
    → Visit
    → EstimateApprovalRequest
    → Estimate
    → EstimateRevision
    → EstimateApprovalEvent
approval_event payload visit q e r =
    record (event_of e r (some q.id) Approvals.approved customer payload.approving_name) {
      approval_method = some typed_signature;
      approval_evidence = payload.typed_authorization;
      accepted_terms = some payload.accepted_terms;
      payment_option = some payload.payment_option;
      payment_plan_acknowledged = some payload.payment_plan_acknowledged;
      ip_address = visit.ip_address;
      user_agent = visit.user_agent;
    }

-- The option of the revision with the code that was chosen.
abbrev pub selected_option : ApprovalActionRequest → EstimateRevision → Option EstimatePaymentOption
selected_option payload r =
    scalar (λ o. option_code o.code == option_code payload.payment_option) r.payment_options_payload

unfoldable pub check_acceptance : ApprovalActionRequest → EstimateRevision → Outcome (Unit {0})
check_acceptance payload r = do
  guard payload.accepted_terms terms_not_accepted
  o ← require (selected_option payload r) option_unavailable
  guard (not (o.requires_payment_plan_acknowledgement && not payload.payment_plan_acknowledged))
      acknowledgement_required

abbrev pub approved_state :
    ApprovalActionRequest → Visit → EstimateApprovalRequest → Estimate → EstimateRevision → Db → Db
approved_state payload visit q e r db =
    let e' : Estimate = approved_estimate payload e r in
    record_notification e.owner_user_id e.shop_id e.id
      (estimate_approved e.estimate_number payload.approving_name payload.payment_option)
      (append_event (approval_event payload visit q e r)
        (save_decision e' (record r { status = approved }) (used_request q visit.decided_at) db))

abbrev pub decision : Estimate → EstimateStatus → EstimateRevision → ℕ → ActionResponse
decision e status r decided_at = record {
  estimate_id = e.id;
  estimate_number = e.estimate_number;
  status = status;
  revision_number = r.revision_number;
  decided_at = decided_at;
}

abbrev pub accept :
    Outcome (Unit {0})
    → ApprovalActionRequest
    → Visit
    → EstimateApprovalRequest
    → Estimate
    → EstimateRevision
    → Db
    → Outcome ActionResponse × Db
accept (err er) payload visit q e r db = (err er, db)
accept (ok u) payload visit q e r db =
    (ok (decision e approved r visit.decided_at), approved_state payload visit q e r db)

unfoldable pub approve_revision :
    ApprovalActionRequest
    → Visit
    → EstimateApprovalRequest
    → Estimate
    → EstimateRevision
    → Db
    → Outcome ActionResponse × Db
approve_revision payload visit q e r db =
    if r.revision_number == payload.revision_number
    then (if is_due r.approval_due_at visit.checked_at
        then (err estimate_expired, expire_all e r q db)
        else accept (check_acceptance payload r) payload visit q e r db)
    else (err revision_mismatch, db)

unfoldable pub approve_estimate :
    (String → ℕ) → ApprovalActionRequest → Visit → Db → Outcome ActionResponse × Db
approve_estimate hash_token payload visit db =
    with_request (λ q d. with_related (approve_revision payload visit q) (related q d) d)
      (resolve_active_approval_request hash_token payload.token visit.now db)

abbrev pub decline_event :
    DeclineActionRequest
    → Visit
    → EstimateApprovalRequest
    → Estimate
    → EstimateRevision
    → EstimateApprovalEvent
decline_event payload visit q e r =
    record (event_of e r (some q.id) Approvals.declined customer payload.declining_name) {
      approval_method = some link;
      accepted_terms = some false;
      decline_reason = payload.reason;
      ip_address = visit.ip_address;
      user_agent = visit.user_agent;
    }

abbrev pub declined_state :
    DeclineActionRequest → Visit → EstimateApprovalRequest → Estimate → EstimateRevision → Db → Db
declined_state payload visit q e r db =
    record_notification e.owner_user_id e.shop_id e.id
      (estimate_declined e.estimate_number payload.declining_name payload.reason)
      (append_event (decline_event payload visit q e r) (
        save_decision (record e { status = declined }) (record r { status = declined })
          (used_request q visit.decided_at) db))

unfoldable pub decline_revision :
    DeclineActionRequest
    → Visit
    → EstimateApprovalRequest
    → Estimate
    → EstimateRevision
    → Db
    → Outcome ActionResponse × Db
decline_revision payload visit q e r db =
    if r.revision_number == payload.revision_number
    then (ok (decision e declined r visit.decided_at), declined_state payload visit q e r db)
    else (err revision_mismatch, db)

unfoldable pub decline_estimate :
    (String → ℕ) → DeclineActionRequest → Visit → Db → Outcome ActionResponse × Db
decline_estimate hash_token payload visit db =
    with_request (λ q d. with_related (decline_revision payload visit q) (related q d) d)
      (resolve_active_approval_request hash_token payload.token visit.now db)
