-- ===== src/Estimates/Stale.antt =====
-- Links of app/estimate_store.py whose revision was replaced, and estimates that wait for a
-- customer without an open link.
use optimus_os.Base.{
  ℕ, ◌≡◌, refl, String, Bool, true, false, Option, ◌==◌, ◌&&◌, ◌||◌, not, arith, ap, sym, ◌∙◌, ◌≢◌,
  ==_refl, All,
}
use optimus_os.Base.Table.{scalar, scalar_sound, All-scalar}
use optimus_os.Base.Result.{
  ok, err, >>=-eq-ok, guard, guard-eq-ok, require, require-eq-ok, ok_unique, transaction_fails,
}
use optimus_os.Errors.{
  Error, token_unavailable, revision_locked, not_sendable, request_not_found, not_active,
}
use optimus_os.Db.{Db}
use optimus_os.Db.Work.{
  Estimate, EstimateStatus, draft, ready, awaiting_approval, declined, expired, superseded,
  archived, EstimateRevision, approved,
}
use optimus_os.Db.Approvals.{EstimateApprovalRequest}
use optimus_os.Auth.{AuthContext}
use optimus_os.Estimates.{
  is_active, is_due, is_awaiting, is_approved, require_estimate, latest_revision, to_read,
}
use optimus_os.Estimates.Resolve.{get_approval_view}
use optimus_os.Estimates.Approve.{
  ApprovalActionRequest, Visit, approve_estimate, approve_revision, check_acceptance,
  approved_state, decision,
}
use optimus_os.Estimates.Validate.{validate_estimate_ready_for_approval, is_sendable}
use optimus_os.Estimates.Send.{
  SendRequest, SendResponse, Link, send_work, send_estimate_for_approval, revoke_work,
  revoke_estimate_approval_request,
}
use optimus_os.Estimates.Content.{Services}
use optimus_os.Estimates.Revise.{EstimateUpdate, update_work, update_estimate}
use optimus_os.Estimates.Decide.{Subject, resolve-Live, related-Subject}

is_number : (m n : ℕ) → m ≢ n → (m == n) ≡ false
is_number m n h = ground (arith, h)

-- An open link for a revision that is no longer the current one shows nothing, and yet it approves:
-- if the customer names that revision, in time and with an acceptance that passes its checks, the
-- estimate is approved with the old number.
pub approve_estimate-stale :
    (hash_token : String → ℕ) (payload : ApprovalActionRequest) (visit : Visit) (db : Db)
    (q : EstimateApprovalRequest) (e : Estimate) (r : EstimateRevision)
    → Subject hash_token payload.token visit.now db q e r
    → r.revision_number ≢ e.current_revision_number
    → r.revision_number ≡ payload.revision_number
    → is_due r.approval_due_at visit.checked_at ≡ false
    → check_acceptance payload r ≡ ok tt
    → (get_approval_view hash_token payload.token visit.now db ≡ (err token_unavailable, db))
      × (approve_estimate hash_token payload visit db
          ≡ (ok (decision e approved r visit.decided_at), approved_state payload visit q e r db))
unfolding get_approval_view approve_estimate approve_revision
approve_estimate-stale hash_token payload visit db q e r s old asked in_time accepted =
    let run = resolve-Live hash_token payload.token visit.now db q s.live in
    let rows = related-Subject hash_token payload.token visit.now db q e r s in
    let named : (r.revision_number == payload.revision_number) ≡ true =
      ap (λ n. r.revision_number == n) (sym asked) ∙ ==_refl r.revision_number in
    (
      rw (run, rows, is_number r.revision_number e.current_revision_number old) refl,
      rw (run, rows, named, in_time, accepted) refl,
    )

not_both : (s : EstimateStatus) → is_awaiting s ≡ true → is_sendable s ≡ true → ⊥
not_both draft h k = cc
not_both ready h k = cc
not_both awaiting_approval h k = cc
not_both approved h k = cc
not_both declined h k = cc
not_both expired h k = cc
not_both superseded h k = cc
not_both archived h k = cc

module _ (auth : AuthContext) (key : ℕ) (db : Db) (e : Estimate)
    (found : require_estimate db auth key ≡ ok e) (waits : is_awaiting e.status ≡ true) where
  never_updated :
      (services : Services) (payload : EstimateUpdate) (now : ℕ) (a : Estimate) (db' : Db)
      → update_work services auth key payload now db ≡ ok (a, db')
      → ⊥
  unfolding update_work
  never_updated services payload now a db' h =
      let (x, e₁, h₁) = >>=-eq-ok (require_estimate db auth key) _ _ h in
      let (u, e₂, h₂) =
        >>=-eq-ok (guard (not (is_approved x.status || is_awaiting x.status)) revision_locked) _ _
          h₁ in
      let same : x ≡ e = ok_unique e₁ found in
      let let_through : not (is_approved e.status || is_awaiting e.status) ≡ true =
        rw same at (guard-eq-ok _ revision_locked e₂) in
      ground (arith, let_through, waits)

  never_sent :
      (hash_token : String → ℕ) (payload : SendRequest) (fresh : Link) (a : SendResponse) (db' : Db)
      → send_work hash_token auth key payload fresh db ≡ ok (a, db')
      → ⊥
  unfolding send_work validate_estimate_ready_for_approval
  never_sent hash_token payload fresh a db' h =
      let (x, e₁, h₁) = >>=-eq-ok (require_estimate db auth key) _ _ h in
      let (r, e₂, h₂) = >>=-eq-ok (latest_revision x db) _ _ h₁ in
      let (u, e₃, h₃) = >>=-eq-ok (validate_estimate_ready_for_approval x r) _ _ h₂ in
      let (v, e₄, h₄) = >>=-eq-ok (guard (is_sendable x.status) not_sendable) _ _ e₃ in
      let same : x ≡ e = ok_unique e₁ found in
      not_both e.status waits (rw same at (guard-eq-ok _ not_sendable e₄))

  never_revoked :
      (request_key : ℕ) (reason : Option String) (now : ℕ) (a : Estimate) (db' : Db)
      → All
          (λ q. (q.estimate_id == e.id && is_active q.status) ≡ false)
          db.estimate_approval_requests
      → revoke_work auth key request_key reason now db ≡ ok (a, db')
      → ⊥
  unfolding revoke_work
  never_revoked request_key reason now a db' closed h =
      let (x, e₁, h₁) = >>=-eq-ok (require_estimate db auth key) _ _ h in
      let same : x ≡ e = ok_unique e₁ found in
      let its : EstimateApprovalRequest → Bool =
        λ y. y.id == request_key && y.estimate_id == x.id in
      let (q, e₂, h₂) =
        >>=-eq-ok (require (scalar its db.estimate_approval_requests) request_not_found) _ _ h₁ in
      let (u, e₃, h₃) = >>=-eq-ok (guard (is_active q.status) (not_active q.status)) _ _ h₂ in
      let chosen = require-eq-ok _ request_not_found q e₂ in
      let shut : (q.estimate_id == e.id && is_active q.status) ≡ false =
        All-scalar _ its db.estimate_approval_requests q closed chosen in
      let same_id : x.id ≡ e.id = ap (λ y. y.id) same in
      let sel : (q.id == request_key && q.estimate_id == x.id) ≡ true =
        scalar_sound its db.estimate_approval_requests q chosen in
      let is_open : is_active q.status ≡ true = guard-eq-ok _ (not_active q.status) e₃ in
      ground (arith, shut, sel, is_open, same_id)

  -- An estimate that waits for a customer and has no open link left, since the link ran out, can
  -- neither be edited nor sent again, and there is no link to revoke: each of the three requests
  -- is refused and changes nothing, whatever it asks.
  pub awaiting_is_stuck :
      (hash_token : String → ℕ) (services : Services) (edit : EstimateUpdate)
      (payload : SendRequest) (fresh : Link) (request_key : ℕ) (reason : Option String) (now : ℕ)
      → All
          (λ q. (q.estimate_id == e.id && is_active q.status) ≡ false)
          db.estimate_approval_requests
      → ((er : Error) × (update_estimate services auth key edit now db ≡ (err er, db)))
        × ((er : Error) × (send_estimate_for_approval hash_token auth key payload fresh db
              ≡ (err er, db)))
        × ((er : Error) × (revoke_estimate_approval_request auth key request_key reason now db
              ≡ (err er, db)))
  unfolding update_estimate send_estimate_for_approval revoke_estimate_approval_request
  awaiting_is_stuck hash_token services edit payload fresh request_key reason now closed = (
    transaction_fails (update_work services auth key edit now) to_read db
        (never_updated services edit now),
    transaction_fails (send_work hash_token auth key payload fresh) _ db
        (never_sent hash_token payload fresh),
    transaction_fails (revoke_work auth key request_key reason now) to_read db
        (λ a d. never_revoked request_key reason now a d closed),
  )
