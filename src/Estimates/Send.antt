-- ===== src/Estimates/Send.antt =====
-- `send_estimate_for_approval`, `revoke_estimate_approval_request` and `approval_history` of
-- app/estimate_store.py. `secrets.token_urlsafe` gives the token, the database the key.
use optimus_os.Base.{
  ℕ, ◌+◌, ◌*◌, String, List, [], ◌∷◌, ◌++◌, Option, none, some, any, ◌==◌, ◌&&◌, filter, not,
  if◌then◌else◌,
}
use optimus_os.Base.Table.{scalar}
use optimus_os.Base.Result.{ok, ◌>>=◌, ◌>>◌, guard, require, transaction}
use optimus_os.Errors.{Outcome, estimate_expired, integrity_error, request_not_found, not_active}
use optimus_os.Db.{Db}
use optimus_os.Db.Work.{Estimate, EstimateStatus, EstimateRevision, awaiting_approval, ready}
use optimus_os.Db.Billing.{estimate_sent}
use optimus_os.Db.Approvals
use optimus_os.Db.Approvals.{
  EstimateApprovalRequest, EstimateApprovalEvent, EstimateApprovalMethod, active, sent, internal,
}
use optimus_os.Auth.{AuthContext, effective_shop_owner_id}
use optimus_os.Invoices.Issue.{record_notification}
use optimus_os.Estimates.{
  EstimateRead, to_read, is_active, is_awaiting, is_due, require_estimate, latest_revision, related,
  save_estimate, save_revision, save_request, append_event, event_of,
}
use optimus_os.Estimates.Validate.{validate_estimate_ready_for_approval}

-- `timedelta(hours=n)`
abbrev pub hours : ℕ → ℕ
hours n = n * 3600000000

-- `EstimateSendForApprovalRequest`, of which the recipient's name is never read.
pub record SendRequest : Type 0 where
  pub approval_method : EstimateApprovalMethod
  pub expires_in_hours : ℕ

-- What is new with a link: its key, its token, and the readings of the clock.
pub record Link : Type 0 where
  pub new_id : ℕ
  pub token : String
  pub checked_at : ℕ
  pub sent_at : ℕ

-- `EstimateApprovalSendResponse`, with the token of the link.
pub record SendResponse : Type 0 where
  pub estimate_id : ℕ
  pub revision_number : ℕ
  pub status : EstimateStatus
  pub expires_at : ℕ
  pub token : String

abbrev pub new_request :
    (String → ℕ)
    → AuthContext
    → ℕ
    → SendRequest
    → Link
    → Estimate
    → EstimateRevision
    → EstimateApprovalRequest
new_request hash_token auth owner payload fresh e r = record {
  id = fresh.new_id;
  estimate_id = e.id;
  estimate_revision_id = r.id;
  owner_user_id = owner;
  shop_id = e.shop_id;
  token_hash = hash_token fresh.token;
  status = active;
  expires_at = fresh.sent_at + hours payload.expires_in_hours;
  used_at = none;
  revoked_at = none;
  revoked_by_user_id = none;
  created_by_user_id = auth.user.id;
}

abbrev pub add_request : EstimateApprovalRequest → Db → Db
add_request q db = record db {
  estimate_approval_requests = db.estimate_approval_requests ++ q ∷ [];
}

abbrev pub sent_event :
    AuthContext
    → EstimateApprovalMethod
    → EstimateApprovalRequest
    → Estimate
    → EstimateRevision
    → EstimateApprovalEvent
sent_event auth method q e r =
    record (event_of e r (some q.id) sent Approvals.internal auth.user.display_name) {
      actor_user_id = some auth.user.id;
      approval_method = some method;
    }

abbrev pub sent_state :
    AuthContext → SendRequest → EstimateApprovalRequest → Estimate → EstimateRevision → Db → Db
sent_state auth payload q e r db =
    let e' : Estimate = record e { status = awaiting_approval; expires_at = some q.expires_at } in
    let r' : EstimateRevision = record r { status = awaiting_approval } in
    record_notification e.owner_user_id e.shop_id e.id
      (estimate_sent e.estimate_number r.revision_number)
      (append_event (sent_event auth payload.approval_method q e r)
        (add_request q (save_revision r' (save_estimate e' db))))

abbrev pub sent_response :
    EstimateApprovalRequest → Link → Estimate → EstimateRevision → SendResponse
sent_response q fresh e r = record {
  estimate_id = e.id;
  revision_number = r.revision_number;
  status = awaiting_approval;
  expires_at = q.expires_at;
  token = fresh.token;
}

-- The digest of a token is unique.
unfoldable pub send_work :
    (String → ℕ) → AuthContext → ℕ → SendRequest → Link → Db → Outcome (SendResponse × Db)
send_work hash_token auth key payload fresh db = do
  e ← require_estimate db auth key
  r ← latest_revision e db
  validate_estimate_ready_for_approval e r
  guard (not (is_due r.approval_due_at fresh.checked_at)) estimate_expired
  owner ← effective_shop_owner_id db auth
  guard (not (any (λ q. q.token_hash == hash_token fresh.token) db.estimate_approval_requests))
      integrity_error
  let q : EstimateApprovalRequest = new_request hash_token auth owner payload fresh e r
  ok (sent_response q fresh e r, sent_state auth payload q e r db)

unfoldable pub send_estimate_for_approval :
    (String → ℕ) → AuthContext → ℕ → SendRequest → Link → Db → Outcome SendResponse × Db
send_estimate_for_approval hash_token auth key payload fresh =
    transaction (send_work hash_token auth key payload fresh) (λ response db. ok response)

abbrev pub revoked_request : AuthContext → ℕ → EstimateApprovalRequest → EstimateApprovalRequest
revoked_request auth now q = record q {
  status = Approvals.RequestStatus.revoked;
  revoked_at = some now;
  revoked_by_user_id = some auth.user.id;
}

-- Estimate and revision may be sent again, if the estimate waits for a customer.
abbrev pub freed : Estimate → Estimate
freed e = if is_awaiting e.status then record e { status = ready } else e

abbrev pub free_up : Estimate → EstimateRevision → Db → Db
free_up e r db =
    if is_awaiting e.status
    then save_revision (record r { status = ready }) (save_estimate (freed e) db)
    else db

abbrev pub revoked_event :
    AuthContext
    → Option String
    → EstimateApprovalRequest
    → Estimate
    → EstimateRevision
    → EstimateApprovalEvent
revoked_event auth reason q e r =
    record (event_of e r (some q.id) Approvals.EventType.revoked Approvals.internal
      auth.user.display_name) { actor_user_id = some auth.user.id; decline_reason = reason }

unfoldable pub revoke_work : AuthContext → ℕ → ℕ → Option String → ℕ → Db → Outcome (Estimate × Db)
revoke_work auth key request_key reason now db = do
  e ← require_estimate db auth key
  q ←
      require
        (scalar (λ q. q.id == request_key && q.estimate_id == e.id) db.estimate_approval_requests)
        request_not_found
  guard (is_active q.status) (not_active q.status)
  (owned, r) ← related q db
  let q' : EstimateApprovalRequest = revoked_request auth now q
  ok (freed e, append_event (revoked_event auth reason q e r) (free_up e r (save_request q' db)))

unfoldable pub revoke_estimate_approval_request :
    AuthContext → ℕ → ℕ → Option String → ℕ → Db → Outcome EstimateRead × Db
revoke_estimate_approval_request auth key request_key reason now =
    transaction (revoke_work auth key request_key reason now) to_read

-- `EstimateApprovalAuditResponse`, with the events as rows.
pub record AuditResponse : Type 0 where
  pub estimate_id : ℕ
  pub estimate_number : ℕ × ℕ
  pub status : EstimateStatus
  pub active_approval_request_id : Option ℕ
  pub events : List EstimateApprovalEvent

abbrev pub key_of : Option EstimateApprovalRequest → Option ℕ
key_of none = none
key_of (some q) = some q.id

-- Events are in the order of their keys, which is the order of the table.
unfoldable pub approval_history : AuthContext → ℕ → Db → Outcome AuditResponse
approval_history auth key db = do
  e ← require_estimate db auth key
  ok record {
    estimate_id = e.id;
    estimate_number = e.estimate_number;
    status = e.status;
    active_approval_request_id =
        key_of
          (scalar (λ q. q.estimate_id == e.id && is_active q.status) db.estimate_approval_requests);
    events =
        filter (λ v. v.estimate_id == e.id && v.shop_id == e.shop_id) db.estimate_approval_events;
  }
