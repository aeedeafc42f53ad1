-- ===== src/Estimates/Resolve.antt =====
-- `_resolve_active_approval_request` and `get_approval_view` of app/estimate_store.py.
use optimus_os.Base.{ℕ, String, Option, none, some, ◌==◌, leb, if◌then◌else◌}
use optimus_os.Base.Table.{scalar}
use optimus_os.Base.Result.{ok, err}
use optimus_os.Errors.{Outcome, token_unavailable}
use optimus_os.Db.{Db}
use optimus_os.Db.Work.{Estimate, EstimateStatus, EstimateRevision}
use optimus_os.Db.Approvals.{EstimateApprovalRequest, RequestStatus, expired}
use optimus_os.Estimates.{is_active, related, save_request}

-- `_approval_request_query`
abbrev pub request_of : (String → ℕ) → String → Db → Option EstimateApprovalRequest
request_of hash_token token db =
    scalar (λ q. q.token_hash == hash_token token) db.estimate_approval_requests

-- A link whose time is over is marked, and that is committed before the request is refused.
abbrev pub admit : Option EstimateApprovalRequest → ℕ → Db → Outcome EstimateApprovalRequest × Db
admit none now db = (err token_unavailable, db)
admit (some q) now db =
    if leb q.expires_at now
    then (err token_unavailable, save_request (record q { status = expired }) db)
    else if is_active q.status
    then (ok q, db)
    else (err token_unavailable, db)

unfoldable pub resolve_active_approval_request :
    (String → ℕ) → String → ℕ → Db → Outcome EstimateApprovalRequest × Db
resolve_active_approval_request hash_token token now db =
    admit (request_of hash_token token db) now db

-- What an operation does with the link that its token names.
abbrev pub with_request :
    {A : Type 0}
    → (EstimateApprovalRequest → Db → Outcome A × Db)
    → Outcome EstimateApprovalRequest × Db
    → Outcome A × Db
with_request act (err e, db) = (err e, db)
with_request act (ok q, db) = act q db

-- What an operation of a link does with its estimate and revision.
abbrev pub with_related :
    {A : Type 0}
    → (Estimate → EstimateRevision → Db → Outcome A × Db)
    → Outcome (Estimate × EstimateRevision)
    → Db
    → Outcome A × Db
with_related act (err e) db = (err e, db)
with_related act (ok (e, r)) db = act e r db

-- `EstimateApprovalPublicView`, with the revision for its projection.
pub record ApprovalView : Type 0 where
  pub estimate_id : ℕ
  pub estimate_number : ℕ × ℕ
  pub status : EstimateStatus
  pub revision : EstimateRevision
  pub token_expires_at : ℕ
  pub token_status : RequestStatus

abbrev pub view_of : EstimateApprovalRequest → Estimate → EstimateRevision → ApprovalView
view_of q e r = record {
  estimate_id = e.id;
  estimate_number = e.estimate_number;
  status = e.status;
  revision = r;
  token_expires_at = q.expires_at;
  token_status = q.status;
}

-- Only the current revision is shown.
abbrev pub view_current :
    EstimateApprovalRequest → Estimate → EstimateRevision → Db → Outcome ApprovalView × Db
view_current q e r db =
    if r.revision_number == e.current_revision_number
    then (ok (view_of q e r), db)
    else (err token_unavailable, db)

unfoldable pub get_approval_view : (String → ℕ) → String → ℕ → Db → Outcome ApprovalView × Db
get_approval_view hash_token token now db =
    with_request (λ q d. with_related (view_current q) (related q d) d)
      (resolve_active_approval_request hash_token token now db)
