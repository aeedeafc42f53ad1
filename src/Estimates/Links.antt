-- ===== src/Estimates/Links.antt =====
-- What the operations of a link in app/estimate_store.py keep, and what a revocation has found and
-- written when it succeeds.
use optimus_os.Base.{
  ℕ, ◌≡◌, refl, String, Option, some, leb, ◌==◌, ◌&&◌, ap, Bool-cases, Option-cases, inl, inr, sym,
  ◌∙◌,
}
use optimus_os.Base.Table.{save, get, scalar}
use optimus_os.Base.Result.{ok, err, >>=-eq-ok, guard, require}
use optimus_os.Errors.{Outcome}
use optimus_os.Db.{Db}
use optimus_os.Db.Work.{Estimate, EstimateRevision}
use optimus_os.Db.Work.{revision_id}
use optimus_os.Db.Approvals.{EstimateApprovalRequest, expired, request_id}
use optimus_os.Auth.{AuthContext}
use optimus_os.Estimates.{is_active, related, save_request}
use optimus_os.Estimates.Resolve.{
  request_of, resolve_active_approval_request, with_request, with_related,
}
use optimus_os.Estimates.Send.{revoke_work}
use optimus_os.Estimates.Decide.{related-ok}
use optimus_os.Estimates.{require_estimate, is_awaiting}
use optimus_os.Estimates.{append_event}
use optimus_os.Estimates.Send.{freed, revoked_event, free_up, revoked_request}
use optimus_os.Errors.{request_not_found, not_active}
use optimus_os.Base.Result.{ok_pair_inj, require-eq-ok}

with_related_keeps :
    {A : Type 0} (P : Db → Type 0) (act : Estimate → EstimateRevision → Db → Outcome A × Db)
    (t : Outcome (Estimate × EstimateRevision)) (db : Db)
    → P db
    → ((e : Estimate) (r : EstimateRevision) → t ≡ ok (e, r) → P (act e r db).1)
    → P (with_related act t db).1
with_related_keeps P act (err er) db before step = before
with_related_keeps P act (ok (e, r)) db before step = step e r refl

-- What the state keeps when a link is marked as expired, and in what is done with its rows, an
-- operation of a link keeps.
pub link_keeps :
    {A : Type 0} (P : Db → Type 0) (hash_token : String → ℕ) (token : String) (now : ℕ) (db : Db)
    (act : EstimateApprovalRequest → Estimate → EstimateRevision → Db → Outcome A × Db)
    → P db
    → ((q : EstimateApprovalRequest)
        → request_of hash_token token db ≡ some q
        → P (save_request (record q { status = expired }) db))
    → ((q : EstimateApprovalRequest) (e : Estimate) (r : EstimateRevision)
        → request_of hash_token token db ≡ some q
        → get q.estimate_revision_id db.estimate_revisions ≡ some r
        → P (act q e r db).1)
    → P
        (with_request
          (λ q d. with_related (act q) (related q d) d)
          (resolve_active_approval_request hash_token token now db)).1
unfolding resolve_active_approval_request
link_keeps P hash_token token now db act before over step =
    elim (Option-cases (request_of hash_token token db)) [
      | inl e ↦ rw e before
      | inr (q, e) ↦ elim (Bool-cases (leb q.expires_at now)) [
        | inl late ↦ rw (e, late) (over q e)
        | inr in_time ↦ elim (Bool-cases (is_active q.status)) [
          | inr closed ↦ rw (e, in_time, closed) before
          | inl is_open ↦
              rw (e, in_time, is_open)
                (with_related_keeps P (act q) (related q db) db before
                  (λ f r there. step q f r e (related-ok q db (f, r) there).1))
        ]
      ]
    ]

-- A revocation that succeeded: the link that it found, and what it wrote.
pub record RevokeStep (auth : AuthContext) (key request_key now : ℕ) (db db' : Db) : Type 0 where
  pub e : Estimate
  pub q : EstimateApprovalRequest
  pub found :
      scalar (λ x. x.id == request_key && x.estimate_id == e.id) db.estimate_approval_requests
      ≡ some q
  pub r : EstimateRevision
  pub its_revision : get q.estimate_revision_id db.estimate_revisions ≡ some r
  pub revisions : db'.estimate_revisions ≡ (free_up e r db).estimate_revisions
  pub requests :
      db'.estimate_approval_requests
      ≡ save (revoked_request auth now q) db.estimate_approval_requests

free_up_requests :
    (e : Estimate) (r : EstimateRevision) (d : Db)
    → (free_up e r d).estimate_approval_requests ≡ d.estimate_approval_requests
free_up_requests e r d = elim (Bool-cases (is_awaiting e.status)) [
  | inl waits ↦ rw waits refl
  | inr other ↦ rw other refl
]

free_up_revisions :
    (e : Estimate) (r : EstimateRevision) (q : EstimateApprovalRequest) (d : Db)
    → (free_up e r (save_request q d)).estimate_revisions ≡ (free_up e r d).estimate_revisions
free_up_revisions e r q d = elim (Bool-cases (is_awaiting e.status)) [
  | inl waits ↦ rw waits refl
  | inr other ↦ rw other refl
]

pub revoke_work-RevokeStep :
    (auth : AuthContext) (key request_key : ℕ) (reason : Option String) (now : ℕ) (db : Db)
    (a : Estimate) (db' : Db)
    → revoke_work auth key request_key reason now db ≡ ok (a, db')
    → RevokeStep auth key request_key now db db'
unfolding revoke_work
revoke_work-RevokeStep auth key request_key reason now db a db' h =
    let (e, e₁, h₁) = >>=-eq-ok (require_estimate db auth key) _ _ h in
    let (q, e₂, h₂) =
      >>=-eq-ok
        (require
          (scalar (λ x. x.id == request_key && x.estimate_id == e.id) db.estimate_approval_requests)
          request_not_found)
        _ _ h₁ in
    let (u, e₃, h₃) = >>=-eq-ok (guard (is_active q.status) (not_active q.status)) _ _ h₂ in
    let (t, e₄, h₄) = >>=-eq-ok (related q db) _ _ h₃ in
    let (same, state) =
      ok_pair_inj _ (freed e) a
        (append_event (revoked_event auth reason q e t.1)
          (free_up e t.1 (save_request (revoked_request auth now q) db)))
        db' refl h₄ in
    record {
      e = e;
      q = q;
      found = require-eq-ok _ request_not_found q e₂;
      r = t.1;
      its_revision = (related-ok q db t e₄).1;
      revisions =
          ap (λ d. d.estimate_revisions) (sym state)
          ∙ free_up_revisions e t.1 (revoked_request auth now q) db;
      requests =
          ap (λ d. d.estimate_approval_requests) (sym state)
          ∙ free_up_requests e t.1 (save_request (revoked_request auth now q) db);
    }
