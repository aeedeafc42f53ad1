-- ===== src/Estimates/Replaced.antt =====
-- The link of a revision of app/estimate_store.py after create_estimate_revision replaced it.
use optimus_os.Base.{ℕ, suc, ◌≡◌, refl, String, false, arith, ap, sym, ◌∙◌, ◌≢◌, ◌==◌}
use mathlib.Core.Path.{subst}
use optimus_os.Base.Table.{get-save_found}
use optimus_os.Base.Result.{ok, err, ok_unique}
use optimus_os.Errors.{token_unavailable}
use optimus_os.Db.{Db}
use optimus_os.Db.Work.{Estimate, EstimateRevision, approved, ready, estimate_id}
use optimus_os.Db.Approvals.{EstimateApprovalRequest}
use optimus_os.Auth.{AuthContext}
use optimus_os.Estimates.{is_due, is_approved, require_estimate, save_estimate}
use optimus_os.Estimates.Resolve.{get_approval_view}
use optimus_os.Estimates.Approve.{
  ApprovalActionRequest, Visit, approve_estimate, check_acceptance, approved_state, decision,
}
use optimus_os.Estimates.Content.{Services, EstimateCreate, new_revision}
use optimus_os.Estimates.Revise.{revise_work, revised_estimate, supersede}
use optimus_os.Estimates.Revised.{with_revision, add_revision-added, revise_work-ReviseStep}
use optimus_os.Estimates.Decide.{Subject}
use optimus_os.Estimates.Once.{scalar-append_some}
use optimus_os.Estimates.Stale.{approve_estimate-stale}

-- The link and its revision are where they were, and the estimate has the next number.
still-Subject :
    (hash_token : String → ℕ) (token : String) (now : ℕ) (db : Db) (q : EstimateApprovalRequest)
    (e e' : Estimate) (r x : EstimateRevision)
    → e'.id ≡ e.id
    → Subject hash_token token now db q e r
    → Subject hash_token token now (with_revision x (save_estimate e' db)) q e' r
still-Subject hash_token token now db q e e' r x same s = record {
  live = record { named = s.live.named; in_time = s.live.in_time; is_open = s.live.is_open };
  its_estimate = get-save_found q.estimate_id e' e db.estimates s.its_estimate same;
  its_revision =
      scalar-append_some (λ y. y.id == q.estimate_revision_id) db.estimate_revisions r x
        s.its_revision;
}

not_next : (n m : ℕ) → n ≡ m → n ≢ suc m
not_next n m h k = omega (arith, h, k)

not_superseded :
    (auth : AuthContext) (payload : EstimateCreate) (e : Estimate) (prior : EstimateRevision)
    (db : Db)
    → is_approved e.status ≡ false
    → supersede auth payload.reason e prior db ≡ db
not_superseded auth payload e prior db h = rw h refl

-- A new revision does not close the link of the one it replaces: an open link for the current
-- revision of an estimate that is not approved shows nothing after create_estimate_revision, but it
-- still approves, in time and with an acceptance that passes its checks. The estimate is then
-- approved with the number of the replaced revision.
pub revise_work-stale :
    (services : Services) (auth : AuthContext) (new_id key : ℕ) (payload : EstimateCreate) (now : ℕ)
    (db : Db) (e' : Estimate) (db' : Db) (hash_token : String → ℕ)
    (acceptance : ApprovalActionRequest) (visit : Visit) (q : EstimateApprovalRequest)
    (e : Estimate) (r : EstimateRevision)
    → revise_work services auth new_id key payload now db ≡ ok (e', db')
    → require_estimate db auth key ≡ ok e
    → is_approved e.status ≡ false
    → Subject hash_token acceptance.token visit.now db q e r
    → r.revision_number ≡ e.current_revision_number
    → r.revision_number ≡ acceptance.revision_number
    → is_due r.approval_due_at visit.checked_at ≡ false
    → check_acceptance acceptance r ≡ ok tt
    → (e'.current_revision_number ≡ suc r.revision_number)
      × (get_approval_view hash_token acceptance.token visit.now db' ≡ (err token_unavailable, db'))
      × (approve_estimate hash_token acceptance visit db' ≡ (
        ok (decision e' approved r visit.decided_at),
        approved_state acceptance visit q e' r db',
      ))
revise_work-stale services auth new_id key payload now db e' db' hash_token acceptance visit q e r h
      found pending s current asked in_time accepted =
    let t = revise_work-ReviseStep services auth new_id key payload now db e' db' h in
    let is_e : t.e ≡ e = ok_unique t.found found in
    let number : e'.current_revision_number ≡ suc e.current_revision_number =
      ap (λ x. x.current_revision_number) (sym t.revised)
      ∙ ap (λ x. suc x.current_revision_number) is_e in
    let key_of : e'.id ≡ e.id = ap (λ x. x.id) (sym t.revised) ∙ ap (λ x. x.id) is_e in
    let x : EstimateRevision =
      new_revision services new_id t.owner t.content ready (suc t.e.current_revision_number) t.e in
    let base : supersede auth payload.reason t.e t.prior db ≡ db =
      not_superseded auth payload t.e t.prior db (ap (λ y. is_approved y.status) is_e ∙ pending) in
    let kept : Db = supersede auth payload.reason t.e t.prior db in
    let state : with_revision x (save_estimate e' db) ≡ db' =
      ap (λ d. with_revision x (save_estimate e' d)) (sym base)
      ∙ ap (λ y. with_revision x (save_estimate y kept)) (sym t.revised)
      ∙ (add_revision-added x (save_estimate (revised_estimate payload t.content t.e) kept) db'
          t.added).0 in
    let there : Subject hash_token acceptance.token visit.now db' q e' r =
      subst (λ d. Subject hash_token acceptance.token visit.now d q e' r) state
        (still-Subject hash_token acceptance.token visit.now db q e e' r x key_of s) in
    let old : r.revision_number ≢ e'.current_revision_number =
      subst (λ n. r.revision_number ≢ n) (sym number) (not_next _ _ current) in
    let (shown, decided) =
      approve_estimate-stale hash_token acceptance visit db' q e' r there old asked in_time
        accepted in
    (number ∙ ap suc (sym current), shown, decided)
