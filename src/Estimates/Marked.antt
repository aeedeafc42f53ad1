-- ===== src/Estimates/Marked.antt =====
-- The digest of a revision and its content, under the operations of app/estimate_store.py that
-- only mark a revision with a status.
use optimus_os.Base.{ℕ, ◌≡◌, Option, some, String, ◌==◌, All, sym, Bool-cases, inl, inr}
use mathlib.Core.Path.{subst}
use optimus_os.Base.Table.{All-save, All-scalar, get}
use optimus_os.Base.Result.{ok, err, require-eq-ok, transaction_keeps}
use optimus_os.Errors.{Outcome, missing_row}
use optimus_os.Db.{Db}
use optimus_os.Db.Work.{
  Estimate, EstimateStatus, EstimateRevision, awaiting_approval, approved, declined, expired, ready,
  revision_id,
}
use optimus_os.Db.Approvals.{EstimateApprovalRequest}
use optimus_os.Auth.{AuthContext}
use optimus_os.Estimates.{
  is_due, is_awaiting, latest_revision, revisions_of, save_revision, to_read,
}
use optimus_os.Estimates.Resolve.{get_approval_view, view_current}
use optimus_os.Estimates.Approve.{
  ApprovalActionRequest, DeclineActionRequest, Visit, approve_estimate, approve_revision,
  decline_estimate, decline_revision, check_acceptance, accept,
}
use optimus_os.Estimates.Send.{
  SendRequest, Link, send_estimate_for_approval, send_work, revoke_work,
  revoke_estimate_approval_request, free_up,
}
use optimus_os.Estimates.Content.{Services}
use optimus_os.Estimates.Revise.{snapshot_of}
use optimus_os.Estimates.Sent.{send_work-SendStep, All-latest, All-filter}
use optimus_os.Estimates.Links.{link_keeps, revoke_work-RevokeStep}

abbrev pub IsSealed : Services → EstimateRevision → Type 0
IsSealed services r = r.content_hash ≡ services.canonical_hash (snapshot_of r)

abbrev pub Sealed : Services → Db → Type 0
Sealed services db = All (IsSealed services) db.estimate_revisions

module _ (services : Services) (db : Db) (a : Sealed services db) where
  -- A revision whose status is written anew keeps its digest and its content.
  pub marked :
      (status : EstimateStatus) (r : EstimateRevision)
      → IsSealed services r
      → All (IsSealed services) (save_revision (record r { status = status }) db).estimate_revisions
  marked status r h =
      All-save (IsSealed services) (record r { status = status }) db.estimate_revisions a h

  pub IsSealed-get :
      (k : ℕ) (r : EstimateRevision) → get k db.estimate_revisions ≡ some r → IsSealed services r
  IsSealed-get k r there = All-scalar (IsSealed services) _ db.estimate_revisions r a there

  pub IsSealed-latest :
      (e : Estimate) (r : EstimateRevision) → latest_revision e db ≡ ok r → IsSealed services r
  unfolding latest_revision
  IsSealed-latest e r h =
      All-latest (IsSealed services) (revisions_of e.id db.estimate_revisions) r
        (All-filter (IsSealed services) (λ x. x.estimate_id == e.id) db.estimate_revisions a)
        (require-eq-ok _ missing_row r h)

  accept_keeps :
      (c : Outcome (Unit {0})) (payload : ApprovalActionRequest) (visit : Visit)
      (q : EstimateApprovalRequest) (e : Estimate) (r : EstimateRevision)
      → IsSealed services r
      → Sealed services (accept c payload visit q e r db).1
  accept_keeps (err er) payload visit q e r h = a
  accept_keeps (ok tt) payload visit q e r h = marked approved r h

  pub approve_keeps :
      (hash_token : String → ℕ) (payload : ApprovalActionRequest) (visit : Visit)
      → Sealed services (approve_estimate hash_token payload visit db).1
  unfolding approve_estimate approve_revision
  approve_keeps hash_token payload visit =
      link_keeps (Sealed services) hash_token payload.token visit.now db
        (approve_revision payload visit) a (λ q found. a)
        (λ q e r found there.
          let h = IsSealed-get q.estimate_revision_id r there in
          elim (Bool-cases (r.revision_number == payload.revision_number)) [
            | inr other ↦ rw (approve_revision, other) a
            | inl asked ↦ elim (Bool-cases (is_due r.approval_due_at visit.checked_at)) [
              | inl due ↦ rw (approve_revision, asked, due) (marked expired r h)
              | inr in_time ↦
                  rw (approve_revision, asked, in_time)
                    (accept_keeps (check_acceptance payload r) payload visit q e r h)
            ]
          ])

  pub decline_keeps :
      (hash_token : String → ℕ) (payload : DeclineActionRequest) (visit : Visit)
      → Sealed services (decline_estimate hash_token payload visit db).1
  unfolding decline_estimate decline_revision
  decline_keeps hash_token payload visit =
      link_keeps (Sealed services) hash_token payload.token visit.now db
        (decline_revision payload visit) a (λ q found. a)
        (λ q e r found there. elim (Bool-cases (r.revision_number == payload.revision_number)) [
          | inr other ↦ rw (decline_revision, other) a
          | inl asked ↦
              rw (decline_revision, asked)
                (marked declined r (IsSealed-get q.estimate_revision_id r there))
        ])

  pub view_keeps :
      (hash_token : String → ℕ) (token : String) (now : ℕ)
      → Sealed services (get_approval_view hash_token token now db).1
  unfolding get_approval_view
  view_keeps hash_token token now =
      link_keeps (Sealed services) hash_token token now db view_current a (λ q found. a)
        (λ q e r found there. elim (Bool-cases (r.revision_number == e.current_revision_number)) [
          | inl shown ↦ rw shown a
          | inr old ↦ rw old a
        ])

  pub send_keeps :
      (hash_token : String → ℕ) (auth : AuthContext) (key : ℕ) (payload : SendRequest)
      (fresh : Link)
      → Sealed services (send_estimate_for_approval hash_token auth key payload fresh db).1
  unfolding send_estimate_for_approval
  send_keeps hash_token auth key payload fresh =
      transaction_keeps (Sealed services) (send_work hash_token auth key payload fresh) _ db a
        (λ x d h.
          let s = send_work-SendStep hash_token auth key payload fresh db x d h in
          subst (Sealed services) s.written
            (marked awaiting_approval s.r (IsSealed-latest s.e s.r s.current)))

  free_up_keeps :
      (e : Estimate) (r : EstimateRevision) → IsSealed services r → Sealed services (free_up e r db)
  free_up_keeps e r h = elim (Bool-cases (is_awaiting e.status)) [
    | inl waits ↦ rw waits (marked ready r h)
    | inr other ↦ rw other a
  ]

  pub revoke_keeps :
      (auth : AuthContext) (key request_key : ℕ) (reason : Option String) (now : ℕ)
      → Sealed services (revoke_estimate_approval_request auth key request_key reason now db).1
  unfolding revoke_estimate_approval_request
  revoke_keeps auth key request_key reason now =
      transaction_keeps (Sealed services) (revoke_work auth key request_key reason now) to_read db a
        (λ x d h.
          let s = revoke_work-RevokeStep auth key request_key reason now db x d h in
          subst (All (IsSealed services)) (sym s.revisions)
            (free_up_keeps s.e s.r (IsSealed-get s.q.estimate_revision_id s.r s.its_revision)))
