-- ===== src/Estimates/Approved.antt =====
-- What an approval writes, and the work order that is made of it.
use optimus_os.Base.{
  ℕ, ◌≡◌, ◌<◌, refl, String, true, false, [], ◌∷◌, ◌++◌, some, ◌&&◌, not, ap, sym, ◌∙◌, leb, arith,
}
use optimus_os.Base.Table.{get, get-save_found}
use optimus_os.Base.Result.{ok, >>=-eq-ok, guard, guard-eq-ok, require, require-eq-ok}
use optimus_os.Errors.{terms_not_accepted, option_unavailable, acknowledgement_required}
use optimus_os.Db.{Db}
use optimus_os.Db.Work.{
  Estimate, EstimateRevision, EstimatePaymentOption, approved, estimate_id, revision_id,
}
use optimus_os.Db.Approvals.{
  EstimateApprovalRequest, RequestStatus, active, used, expired, revoked, request_id,
}
use optimus_os.Estimates.{is_active, is_due}
use optimus_os.Estimates.Resolve.{request_of}
use optimus_os.Estimates.Approve.{
  ApprovalActionRequest, Visit, ActionResponse, approve_estimate, approved_estimate, approval_event,
  selected_option, check_acceptance,
}
use optimus_os.Estimates.Decide.{approve_estimate-Approval}

-- An acceptance that is let through.
check_acceptance-ok :
    (payload : ApprovalActionRequest) (r : EstimateRevision)
    → check_acceptance payload r ≡ ok tt
    → (payload.accepted_terms ≡ true)
      × (o : EstimatePaymentOption) × (selected_option payload r ≡ some o)
      × (not (o.requires_payment_plan_acknowledgement && not payload.payment_plan_acknowledged)
          ≡ true)
unfolding check_acceptance
check_acceptance-ok payload r h =
    let (u, e₁, h₁) = >>=-eq-ok (guard payload.accepted_terms terms_not_accepted) _ _ h in
    let (o, e₂, h₂) = >>=-eq-ok (require (selected_option payload r) option_unavailable) _ _ h₁ in
    (
      guard-eq-ok _ terms_not_accepted e₁,
      o,
      require-eq-ok _ option_unavailable o e₂,
      guard-eq-ok _ acknowledgement_required h₂,
    )

is_active-eq : (status : RequestStatus) → is_active status ≡ true → status ≡ active
is_active-eq active h = refl
is_active-eq used h = cc
is_active-eq expired h = cc
is_active-eq revoked h = cc

after_now : (expires_at now : ℕ) → leb expires_at now ≡ false → now < expires_at
after_now expires_at now h = ground arith

-- An approval that succeeds was made by a link that was active and had not expired, for the revision
-- of the link, which is the one that the customer named and whose approval was not due, with the
-- terms accepted and an option which that revision offers, acknowledged if the option asks for it.
-- It marks the estimate and the revision as approved, records number and option on the
-- estimate, and logs one event, with the digest of the revision and the choice.
pub approve_estimate-records :
    (hash_token : String → ℕ) (payload : ApprovalActionRequest) (visit : Visit) (db : Db)
    (response : ActionResponse) (db' : Db)
    → approve_estimate hash_token payload visit db ≡ (ok response, db')
    → (q : EstimateApprovalRequest) × (e : Estimate) × (r : EstimateRevision)
      × (o : EstimatePaymentOption) × (request_of hash_token payload.token db ≡ some q)
      × (q.status ≡ active)
      × (visit.now < q.expires_at)
      × (get q.estimate_id db.estimates ≡ some e)
      × (get q.estimate_revision_id db.estimate_revisions ≡ some r)
      × (is_due r.approval_due_at visit.checked_at ≡ false)
      × (r.revision_number ≡ payload.revision_number)
      × (payload.accepted_terms ≡ true)
      × (selected_option payload r ≡ some o)
      × (not (o.requires_payment_plan_acknowledgement && not payload.payment_plan_acknowledged)
          ≡ true)
      × (get q.estimate_id db'.estimates ≡ some (approved_estimate payload e r))
      × (get q.estimate_revision_id db'.estimate_revisions ≡ some (record r { status = approved }))
      × (db'.estimate_approval_events
          ≡ db.estimate_approval_events ++ approval_event payload visit q e r ∷ [])
approve_estimate-records hash_token payload visit db response db' h =
    let a = approve_estimate-Approval hash_token payload visit db response db' h in
    let (terms, o, offered, acknowledged) = check_acceptance-ok payload a.r a.accepted in
    (
      a.q,
      a.e,
      a.r,
      o,
      a.subject.live.named,
      is_active-eq a.q.status a.subject.live.is_open,
      after_now a.q.expires_at visit.now a.subject.live.in_time,
      a.subject.its_estimate,
      a.subject.its_revision,
      a.in_time,
      a.asked,
      terms,
      offered,
      acknowledged,
      ap (λ d. get a.q.estimate_id d.estimates) (sym a.written)
          ∙ get-save_found a.q.estimate_id (approved_estimate payload a.e a.r) a.e db.estimates
              a.subject.its_estimate refl,
      ap (λ d. get a.q.estimate_revision_id d.estimate_revisions) (sym a.written)
          ∙ get-save_found a.q.estimate_revision_id (record a.r { status = approved }) a.r
              db.estimate_revisions a.subject.its_revision refl,
      ap (λ d. d.estimate_approval_events) (sym a.written),
    )
