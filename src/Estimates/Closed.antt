-- ===== src/Estimates/Closed.antt =====
-- What the operations of app/estimate_store.py do to a closed link, one lemma to an operation.
use optimus_os.Base.{
  ℕ, ◌≡◌, refl, String, List, Option, none, some, ◌==◌, ◌||◌, not, Bool-cases, inl, inr, sym, ◌∙◌,
}
use mathlib.Core.Path.{subst}
use optimus_os.Base.Table.{get}
use optimus_os.Base.Result.{ok, err, transaction_keeps, >>=-eq-ok, guard}
use optimus_os.Errors.{Outcome}
use optimus_os.Db.{Db}
use optimus_os.Db.Work.{Estimate, EstimateRevision}
use optimus_os.Db.Approvals.{EstimateApprovalRequest, expired, request_id}
use optimus_os.Auth.{AuthContext}
use optimus_os.Estimates.{is_due, save_request, to_read}
use optimus_os.Estimates.Resolve.{request_of, get_approval_view, view_current}
use optimus_os.Estimates.Approve.{
  ApprovalActionRequest, DeclineActionRequest, Visit, approve_estimate, approve_revision,
  decline_estimate, decline_revision, check_acceptance, accept, used_request,
}
use optimus_os.Estimates.Send.{
  SendRequest, Link, send_estimate_for_approval, send_work, revoke_work,
  revoke_estimate_approval_request,
}
use optimus_os.Estimates.Content.{Services, EstimateCreate}
use optimus_os.Estimates.Revise.{
  EstimateUpdate, create_work, create_estimate, update_work, update_estimate, revise_work,
  create_estimate_revision,
}
use optimus_os.Estimates.Sent.{send_work-SendStep}
use optimus_os.Estimates.Links.{link_keeps, revoke_work-RevokeStep}
use optimus_os.Estimates.Once.{Burnt, save-Burnt, append-Burnt}
use optimus_os.Estimates.{require_estimate, latest_revision, is_awaiting, is_approved}
use optimus_os.Estimates.Content.{build_content, customer_and_vehicle}
use optimus_os.Estimates.Validate.{validate_generated_estimate}
use optimus_os.Estimates.Revise.{create_estimate_from_payload}
use optimus_os.Db.Work.{EstimateRequest, EstimateResponse, EstimatePaymentOption}
use optimus_os.Estimates.Revise.{supersede}
use optimus_os.Estimates.Revised.{
  add_revision-requests, add_estimate-requests, revise_work-ReviseStep,
}
use optimus_os.Estimates.{save_revision, save_estimate}
use optimus_os.Estimates.Revise.{edited_estimate, edited_revision, with_digest}
use optimus_os.Estimates.Send.{new_request, revoked_request}
use optimus_os.Errors.{revision_locked}
use optimus_os.Base.Result.{ok_pair_inj}

abbrev pub Shut : ℕ → Db → Type 0
Shut digest db = Burnt digest db.estimate_approval_requests

module _ (hash_token : String → ℕ) (digest : ℕ) (db : Db) (b : Shut digest db) where
  expired_keeps :
      (token : String) (q : EstimateApprovalRequest)
      → request_of hash_token token db ≡ some q
      → Shut digest (save_request (record q { status = expired }) db)
  expired_keeps token q found =
      save-Burnt digest _ q (record q { status = expired }) db.estimate_approval_requests b found
        refl refl refl

  accept_keeps :
      (c : Outcome (Unit {0})) (payload : ApprovalActionRequest) (visit : Visit)
      (q : EstimateApprovalRequest) (e : Estimate) (r : EstimateRevision)
      → request_of hash_token payload.token db ≡ some q
      → Shut digest (accept c payload visit q e r db).1
  accept_keeps (err er) payload visit q e r found = b
  accept_keeps (ok tt) payload visit q e r found =
      save-Burnt digest _ q (used_request q visit.decided_at) db.estimate_approval_requests b found
        refl refl refl

  pub approve_keeps :
      (payload : ApprovalActionRequest) (visit : Visit)
      → Shut digest (approve_estimate hash_token payload visit db).1
  unfolding approve_estimate approve_revision
  approve_keeps payload visit =
      link_keeps (Shut digest) hash_token payload.token visit.now db
        (approve_revision payload visit) b (expired_keeps payload.token)
        (λ q e r found there. elim (Bool-cases (r.revision_number == payload.revision_number)) [
          | inr other ↦ rw (approve_revision, other) b
          | inl asked ↦ elim (Bool-cases (is_due r.approval_due_at visit.checked_at)) [
            | inl due ↦ rw (approve_revision, asked, due) (expired_keeps payload.token q found)
            | inr in_time ↦
                rw (approve_revision, asked, in_time)
                  (accept_keeps (check_acceptance payload r) payload visit q e r found)
          ]
        ])

  pub decline_keeps :
      (payload : DeclineActionRequest) (visit : Visit)
      → Shut digest (decline_estimate hash_token payload visit db).1
  unfolding decline_estimate decline_revision
  decline_keeps payload visit =
      link_keeps (Shut digest) hash_token payload.token visit.now db
        (decline_revision payload visit) b (expired_keeps payload.token)
        (λ q e r found there. elim (Bool-cases (r.revision_number == payload.revision_number)) [
          | inr other ↦ rw (decline_revision, other) b
          | inl asked ↦
              rw (decline_revision, asked)
                (save-Burnt digest _ q (used_request q visit.decided_at)
                  db.estimate_approval_requests b found refl refl refl)
        ])

  pub view_keeps :
      (token : String) (now : ℕ) → Shut digest (get_approval_view hash_token token now db).1
  unfolding get_approval_view
  view_keeps token now =
      link_keeps (Shut digest) hash_token token now db view_current b (expired_keeps token)
        (λ q e r found there. elim (Bool-cases (r.revision_number == e.current_revision_number)) [
          | inl shown ↦ rw shown b
          | inr old ↦ rw old b
        ])

  pub send_keeps :
      (auth : AuthContext) (key : ℕ) (payload : SendRequest) (fresh : Link)
      → get fresh.new_id db.estimate_approval_requests ≡ none
      → Shut digest (send_estimate_for_approval hash_token auth key payload fresh db).1
  unfolding send_estimate_for_approval send_work
  send_keeps auth key payload fresh new =
      transaction_keeps (Shut digest) (send_work hash_token auth key payload fresh) _ db b (λ a d h.
        let s = send_work-SendStep hash_token auth key payload fresh db a d h in
        subst (Shut digest) s.written (
          append-Burnt digest (new_request hash_token auth s.owner payload fresh s.e s.r)
            db.estimate_approval_requests b new))

  pub revoke_keeps :
      (auth : AuthContext) (key request_key : ℕ) (reason : Option String) (now : ℕ)
      → Shut digest (revoke_estimate_approval_request auth key request_key reason now db).1
  unfolding revoke_estimate_approval_request revoke_work
  revoke_keeps auth key request_key reason now =
      transaction_keeps (Shut digest) (revoke_work auth key request_key reason now) to_read db b
        (λ a d h.
          let s = revoke_work-RevokeStep auth key request_key reason now db a d h in
          subst (Burnt digest) (sym s.requests) (
            save-Burnt digest _ s.q (revoked_request auth now s.q) db.estimate_approval_requests b
              s.found refl refl refl))

  pub update_keeps :
      (services : Services) (auth : AuthContext) (key : ℕ) (payload : EstimateUpdate) (now : ℕ)
      → Shut digest (update_estimate services auth key payload now db).1
  unfolding update_estimate update_work
  update_keeps services auth key payload now =
      transaction_keeps (Shut digest) (update_work services auth key payload now) to_read db b
        (λ a d h.
          let (e, e₁, h₁) = >>=-eq-ok (require_estimate db auth key) _ _ h in
          let (u, e₂, h₂) =
            >>=-eq-ok (guard (not (is_approved e.status || is_awaiting e.status)) revision_locked) _
              _ h₁ in
          let (r, e₃, h₃) = >>=-eq-ok (latest_revision e db) _ _ h₂ in
          let (same, state) =
            ok_pair_inj _ (edited_estimate payload now e) a
              (save_revision (with_digest services (edited_revision payload now r))
                (save_estimate (edited_estimate payload now e) db))
              d refl h₃ in
          subst (Shut digest) state b)

  pub create_keeps :
      (services : Services) (auth : AuthContext) (new_id revision_key : ℕ)
      (payload : EstimateCreate) (now : ℕ)
      → Shut digest (create_estimate services auth new_id revision_key payload now db).1
  unfolding create_estimate create_work
  create_keeps services auth new_id revision_key payload now =
      transaction_keeps (Shut digest) (create_work services auth new_id revision_key payload now)
        to_read db b
        (λ a d h.
          let (content, e₁, h₁) = >>=-eq-ok (build_content services auth payload now db) _ _ h in
          subst (Burnt digest)
            (sym (add_estimate-requests services auth new_id revision_key content db a d h₁)) b)

  supersede_requests :
      (auth : AuthContext) (reason : Option String) (e : Estimate) (r : EstimateRevision)
      → (supersede auth reason e r db).estimate_approval_requests ≡ db.estimate_approval_requests
  supersede_requests auth reason e r = elim (Bool-cases (is_approved e.status)) [
    | inl decided ↦ rw decided refl
    | inr other ↦ rw other refl
  ]

  pub revise_keeps :
      (services : Services) (auth : AuthContext) (new_id key : ℕ) (payload : EstimateCreate)
      (now : ℕ)
      → Shut digest (create_estimate_revision services auth new_id key payload now db).1
  unfolding create_estimate_revision revise_work
  revise_keeps services auth new_id key payload now =
      transaction_keeps (Shut digest) (revise_work services auth new_id key payload now) to_read db
        b
        (λ a d h.
          let s = revise_work-ReviseStep services auth new_id key payload now db a d h in
          subst (Burnt digest)
            (sym (
              add_revision-requests _ _ d s.added
              ∙ supersede_requests auth payload.reason s.e s.prior))
            b)

  pub release_keeps :
      (services : Services) (auth : AuthContext) (new_id revision_key customer vehicle : ℕ)
      (request : EstimateRequest) (response : EstimateResponse) (terms : String)
      (options : List EstimatePaymentOption) (expires_in_days now : ℕ) (e : Estimate) (d : Db)
      → create_estimate_from_payload services auth new_id revision_key customer vehicle request
          response terms options expires_in_days now db
        ≡ ok (e, d)
      → Shut digest d
  unfolding create_estimate_from_payload
  release_keeps services auth new_id revision_key customer vehicle request response terms options
        expires_in_days now e d h =
      let (t, e₁, h₁) = >>=-eq-ok (customer_and_vehicle db auth customer vehicle) _ _ h in
      let (u, e₂, h₂) = >>=-eq-ok (validate_generated_estimate response) _ _ h₁ in
      subst (Burnt digest)
        (sym (add_estimate-requests services auth new_id revision_key _ db e d h₂)) b
