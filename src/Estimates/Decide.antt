-- ===== src/Estimates/Decide.antt =====
-- What has happened when a link was accepted, and when a decision was made by it.
use optimus_os.Base.{
  ℕ, ◌≡◌, refl, String, true, false, some, leb, ◌==◌, ap, Bool-cases, Option-cases, inl, inr, ==_eq,
  ◌∙◌,
}
use mathlib.Core.Path.{subst}
use optimus_os.Base.Table.{get}
use optimus_os.Base.Result.{ok, err, ok_unique, >>=-eq-ok, require, require-eq-ok, Result-cases}
use optimus_os.Errors.{Error, Outcome, missing_row}
use optimus_os.Db.{Db}
use optimus_os.Db.Work.{approved, declined, Estimate, EstimateRevision, estimate_id, revision_id}
use optimus_os.Db.Approvals.{EstimateApprovalRequest}
use optimus_os.Estimates.{is_active, is_due, related}
use optimus_os.Estimates.Resolve.{
  request_of, resolve_active_approval_request, with_request, with_related,
}
use optimus_os.Estimates.Approve.{
  ApprovalActionRequest, DeclineActionRequest, Visit, ActionResponse, approve_estimate,
  approve_revision, decline_estimate, decline_revision, check_acceptance, approved_state,
  declined_state, accept, decision,
}

err_not_ok {ℓ} : {A : Type ℓ} {E : Type 0} {e : E} {a : A} → err e ≡ ok a → ⊥
err_not_ok h = cc

-- The link that a token names, with time left, in a state.
pub record Live (hash_token : String → ℕ) (token : String) (now : ℕ) (db : Db)
    (q : EstimateApprovalRequest) : Type 0 where
  pub named : request_of hash_token token db ≡ some q
  pub in_time : leb q.expires_at now ≡ false
  pub is_open : is_active q.status ≡ true

pub admit-Live :
    (hash_token : String → ℕ) (token : String) (now : ℕ) (db : Db) (q : EstimateApprovalRequest)
    → (resolve_active_approval_request hash_token token now db).0 ≡ ok q
    → Live hash_token token now db q
      × (resolve_active_approval_request hash_token token now db ≡ (ok q, db))
unfolding resolve_active_approval_request
admit-Live hash_token token now db q h = elim (Option-cases (request_of hash_token token db)) [
  | inl e ↦ absurd (err_not_ok (rw e at h))
  | inr (x, e) ↦ elim (Bool-cases (leb x.expires_at now)) [
    | inl over ↦ absurd (err_not_ok (rw (e, over) at h))
    | inr before ↦ elim (Bool-cases (is_active x.status)) [
      | inr closed ↦ absurd (err_not_ok (rw (e, before, closed) at h))
      | inl is_open ↦
          let same : x ≡ q = ok_unique {r = ok x} refl (rw (e, before, is_open) at h) in
          (
            subst (Live hash_token token now db) same
                (record { named = e; in_time = before; is_open = is_open }),
            rw (e, before, is_open) (ap (λ y. (ok y, db)) same),
          )
    ]
  ]
]

-- The rows that an operation of a link works on.
pub record Subject (hash_token : String → ℕ) (token : String) (now : ℕ) (db : Db)
    (q : EstimateApprovalRequest) (e : Estimate) (r : EstimateRevision) : Type 0 where
  pub live : Live hash_token token now db q
  pub its_estimate : get q.estimate_id db.estimates ≡ some e
  pub its_revision : get q.estimate_revision_id db.estimate_revisions ≡ some r

pub related-ok :
    (q : EstimateApprovalRequest) (db : Db) (t : Estimate × EstimateRevision)
    → related q db ≡ ok t
    → (get q.estimate_id db.estimates ≡ some t.0)
      × (get q.estimate_revision_id db.estimate_revisions ≡ some t.1)
unfolding related
related-ok q db t h =
    let (e, e₁, h₁) = >>=-eq-ok (require (get q.estimate_id db.estimates) missing_row) _ _ h in
    let (r, e₂, h₂) =
      >>=-eq-ok (require (get q.estimate_revision_id db.estimate_revisions) missing_row) _ _ h₁ in
    let same : (e, r) ≡ t = ok_unique {r = ok (e, r)} refl h₂ in
    (
      require-eq-ok _ missing_row e e₁ ∙ ap (λ p. some p.0) same,
      require-eq-ok _ missing_row r e₂ ∙ ap (λ p. some p.1) same,
    )

pub resolve-Live :
    (hash_token : String → ℕ) (token : String) (now : ℕ) (db : Db) (q : EstimateApprovalRequest)
    → Live hash_token token now db q
    → resolve_active_approval_request hash_token token now db ≡ (ok q, db)
unfolding resolve_active_approval_request
resolve-Live hash_token token now db q l = rw (l.named, l.in_time, l.is_open) refl

pub related-Subject :
    (hash_token : String → ℕ) (token : String) (now : ℕ) (db : Db) (q : EstimateApprovalRequest)
    (e : Estimate) (r : EstimateRevision)
    → Subject hash_token token now db q e r
    → related q db ≡ ok (e, r)
unfolding related
related-Subject hash_token token now db q e r s = rw (related, s.its_estimate, s.its_revision) refl

with_request_refused :
    {A : Type 0} (act : EstimateApprovalRequest → Db → Outcome A × Db)
    (t : Outcome EstimateApprovalRequest × Db) (er : Error) (a : A)
    → t.0 ≡ err er
    → (with_request act t).0 ≡ ok a
    → ⊥
with_request_refused act (err e, d) er a found h = err_not_ok h
with_request_refused act (ok q, d) er a found h = cc

-- Through the link to its rows: an operation that succeeds found all three.
pub through_link :
    {A : Type 0} (hash_token : String → ℕ) (token : String) (now : ℕ) (db : Db)
    (act : EstimateApprovalRequest → Estimate → EstimateRevision → Db → Outcome A × Db) (a : A)
    (db' : Db)
    → with_request
        (λ q d. with_related (act q) (related q d) d)
        (resolve_active_approval_request hash_token token now db)
      ≡ (ok a, db')
    → (q : EstimateApprovalRequest) × (e : Estimate) × (r : EstimateRevision) × Subject hash_token
        token now db q e r
      × (act q e r db ≡ (ok a, db'))
through_link hash_token token now db act a db' h =
    elim (Result-cases (resolve_active_approval_request hash_token token now db).0) [
      | inr (er, found) ↦ absurd (with_request_refused _ _ er a found (ap (λ p. p.0) h))
      | inl (q, found) ↦
          let (live, run) = admit-Live hash_token token now db q found in
          let h₁ = rw run at h in
          elim (Result-cases (related q db)) [
            | inr (er, miss) ↦ absurd (err_not_ok (ap (λ p. p.0) (rw miss at h₁)))
            | inl (t, there) ↦
                let (its_estimate, its_revision) = related-ok q db t there in
                (
                  q,
                  t.0,
                  t.1,
                  record { live = live; its_estimate = its_estimate; its_revision = its_revision },
                  rw there at h₁,
                )
          ]
    ]

-- A decision that was made: the link, its rows, the checks that held, and what was written.
pub record Approval (hash_token : String → ℕ) (payload : ApprovalActionRequest) (visit : Visit)
    (db : Db) (response : ActionResponse) (db' : Db) : Type 0 where
  pub q : EstimateApprovalRequest
  pub e : Estimate
  pub r : EstimateRevision
  pub subject : Subject hash_token payload.token visit.now db q e r
  pub asked : r.revision_number ≡ payload.revision_number
  pub in_time : is_due r.approval_due_at visit.checked_at ≡ false
  pub accepted : check_acceptance payload r ≡ ok tt
  pub answered : decision e approved r visit.decided_at ≡ response
  pub written : approved_state payload visit q e r db ≡ db'

accept-ok :
    (c : Outcome (Unit {0})) (payload : ApprovalActionRequest) (visit : Visit)
    (q : EstimateApprovalRequest) (e : Estimate) (r : EstimateRevision) (db : Db)
    (response : ActionResponse) (db' : Db)
    → accept c payload visit q e r db ≡ (ok response, db')
    → (c ≡ ok tt)
      × (decision e approved r visit.decided_at ≡ response)
      × (approved_state payload visit q e r db ≡ db')
accept-ok (err er) payload visit q e r db response db' h = absurd (err_not_ok (ap (λ p. p.0) h))
accept-ok (ok tt) payload visit q e r db response db' h = (
  refl,
  ok_unique {r = ok (decision e approved r visit.decided_at)} refl (ap (λ p. p.0) h),
  ap (λ p. p.1) h,
)

pub approve_estimate-Approval :
    (hash_token : String → ℕ) (payload : ApprovalActionRequest) (visit : Visit) (db : Db)
    (response : ActionResponse) (db' : Db)
    → approve_estimate hash_token payload visit db ≡ (ok response, db')
    → Approval hash_token payload visit db response db'
unfolding approve_estimate approve_revision
approve_estimate-Approval hash_token payload visit db response db' h =
    let (q, e, r, subject, run) =
      through_link hash_token payload.token visit.now db (approve_revision payload visit) response
        db' h in
    elim (Bool-cases (r.revision_number == payload.revision_number)) [
      | inr other ↦ absurd (err_not_ok (ap (λ p. p.0) (rw (approve_revision, other) at run)))
      | inl asked ↦ elim (Bool-cases (is_due r.approval_due_at visit.checked_at)) [
        | inl due ↦ absurd (err_not_ok (ap (λ p. p.0) (rw (approve_revision, asked, due) at run)))
        | inr in_time ↦
            let (accepted, answered, written) =
              accept-ok (check_acceptance payload r) payload visit q e r db response db'
                (rw (approve_revision, asked, in_time) at run) in
            record {
              q = q;
              e = e;
              r = r;
              subject = subject;
              asked = ==_eq _ _ asked;
              in_time = in_time;
              accepted = accepted;
              answered = answered;
              written = written;
            }
      ]
    ]

pub record Refusal (hash_token : String → ℕ) (payload : DeclineActionRequest) (visit : Visit)
    (db : Db) (response : ActionResponse) (db' : Db) : Type 0 where
  pub q : EstimateApprovalRequest
  pub e : Estimate
  pub r : EstimateRevision
  pub subject : Subject hash_token payload.token visit.now db q e r
  pub asked : r.revision_number ≡ payload.revision_number
  pub answered : decision e declined r visit.decided_at ≡ response
  pub written : declined_state payload visit q e r db ≡ db'

pub decline_estimate-Refusal :
    (hash_token : String → ℕ) (payload : DeclineActionRequest) (visit : Visit) (db : Db)
    (response : ActionResponse) (db' : Db)
    → decline_estimate hash_token payload visit db ≡ (ok response, db')
    → Refusal hash_token payload visit db response db'
unfolding decline_estimate decline_revision
decline_estimate-Refusal hash_token payload visit db response db' h =
    let (q, e, r, subject, run) =
      through_link hash_token payload.token visit.now db (decline_revision payload visit) response
        db' h in
    elim (Bool-cases (r.revision_number == payload.revision_number)) [
      | inr other ↦ absurd (err_not_ok (ap (λ p. p.0) (rw (decline_revision, other) at run)))
      | inl asked ↦
          let done = rw (decline_revision, asked) at run in
          record {
            q = q;
            e = e;
            r = r;
            subject = subject;
            asked = ==_eq _ _ asked;
            answered =
                ok_unique {r = ok (decision e declined r visit.decided_at)} refl
                  (ap (λ p. p.0) done);
            written = ap (λ p. p.1) done;
          }
    ]
