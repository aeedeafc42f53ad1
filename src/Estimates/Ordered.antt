-- ===== src/Estimates/Ordered.antt =====
-- The work order that is made of an estimate which a customer approved: app/estimate_store.py and
-- app/work_order_store.py together.
use optimus_os.Base.{
  ℕ, ◌≡◌, refl, String, Bool, true, false, List, [], ◌∷◌, none, some, ◌==◌, ◌&&◌, filter, any, not,
  arith, ap, sym, ◌∙◌, some_inj, Bool-cases, inl, inr, ==_refl,
}
use mathlib.Core.Path.{subst}
use optimus_os.Base.Table.{
  get, get-id, get-save_found, get-scalar, save, save-Unique, scalar, scalar_sound, Unique,
}
use optimus_os.Base.Result.{ok, >>=-eq-ok, guard, require, require-eq-ok, ok_pair_inj, ok_unique}
use optimus_os.Errors.{
  estimate_not_found, estimate_not_approved, revision_unavailable, integrity_error,
}
use optimus_os.Db.{Db}
use optimus_os.Db.Work.{Estimate, EstimateRevision, WorkOrder, approved, estimate_id, revision_id}
use optimus_os.Db.Approvals.{EstimateApprovalRequest, request_id}
use optimus_os.Auth.{AuthContext, effective_shop_id, effective_shop_owner_id, resolve_shop_id}
use optimus_os.Estimates.{revisions_of}
use optimus_os.Estimates.Resolve.{request_of}
use optimus_os.Estimates.Approve.{
  ApprovalActionRequest, Visit, ActionResponse, approve_estimate, approved_estimate, approved_state,
}
use optimus_os.Estimates.Decide.{approve_estimate-Approval}
use optimus_os.WorkOrders.{work_order_query}
use optimus_os.WorkOrders.Create.{
  require_approved_estimate, approved_revision, is_from, new_work_order, find_or_add, create_work,
  is_approved,
}

-- A work order that is made of an approved estimate found its rows.
record Made (auth : AuthContext) (new_id key now : ℕ) (db : Db) (w : WorkOrder) : Type 0 where
  e : Estimate
  number : ℕ
  r : EstimateRevision
  found : get key db.estimates ≡ some e
  decided : e.approved_revision_number ≡ some number
  its : scalar (λ x. x.revision_number == number) (revisions_of e.id db.estimate_revisions) ≡ some r
  made :
      any (is_from e r) db.work_orders ≡ false
      → (owner shop : ℕ) × (w ≡ new_work_order new_id owner shop now e r)

none_visible :
    (f p : WorkOrder → Bool) (rows : List WorkOrder)
    → any p rows ≡ false
    → scalar (λ x. f x && p x) rows ≡ none
none_visible f p [] h = refl
none_visible f p (x ∷ rows) h = ground (arith, h, none_visible f p rows)

find_or_add-new :
    (auth : AuthContext) (new_id now : ℕ) (e : Estimate) (r : EstimateRevision)
    (visible : WorkOrder → Bool) (db : Db) (w : WorkOrder) (db' : Db)
    → any (is_from e r) db.work_orders ≡ false
    → find_or_add auth new_id now e r visible db ≡ ok (w, db')
    → (owner shop : ℕ) × (w ≡ new_work_order new_id owner shop now e r)
unfolding find_or_add
find_or_add-new auth new_id now e r visible db w db' fresh h =
    let h₀ = rw (none_visible visible (is_from e r) db.work_orders fresh, find_or_add) at h in
    let (owner, e₁, h₁) = >>=-eq-ok (effective_shop_owner_id db auth) _ _ h₀ in
    let (shop, e₂, h₂) = >>=-eq-ok (resolve_shop_id db auth) _ _ h₁ in
    let (u, e₃, h₃) =
      >>=-eq-ok (guard (not (any (is_from e r) db.work_orders)) integrity_error) _ _ h₂ in
    let (same, state) = ok_pair_inj _ (new_work_order new_id owner shop now e r) w _ db' refl h₃ in
    (owner, shop, sym same)

create_work-Made :
    (auth : AuthContext) (new_id key now : ℕ) (db : Db) (w : WorkOrder) (db' : Db)
    → Unique db.estimates
    → create_work auth new_id key now db ≡ ok (w, db')
    → Made auth new_id key now db w
unfolding create_work require_approved_estimate approved_revision
create_work-Made auth new_id key now db w db' u h =
    let (t, e₁, h₁) = >>=-eq-ok (require_approved_estimate db auth key) _ _ h in
    let (r, e₂, h₂) = >>=-eq-ok (approved_revision t.0 t.1 db) _ _ h₁ in
    let (visible, e₃, h₃) = >>=-eq-ok (work_order_query db auth) _ _ h₂ in
    let (shop, f₁, k₁) = >>=-eq-ok (effective_shop_id db auth) _ _ e₁ in
    let (e, f₂, k₂) =
      >>=-eq-ok
        (require (scalar (λ e. e.shop_id == shop && e.id == key) db.estimates) estimate_not_found) _
        _ k₁ in
    let (u₁, f₃, k₃) = >>=-eq-ok (guard (is_approved e.status) estimate_not_approved) _ _ k₂ in
    let (number, f₄, k₄) =
      >>=-eq-ok (require e.approved_revision_number estimate_not_approved) _ _ k₃ in
    let same : (e, number) ≡ t = ok_unique {r = ok (e, number)} refl k₄ in
    let chosen = require-eq-ok _ estimate_not_found e f₂ in
    let sel : (e.shop_id == shop && e.id == key) ≡ true = scalar_sound _ db.estimates e chosen in
    let key_of : e.id ≡ key = ground (arith, sel) in
    subst (λ x. Made auth new_id key now db w) same
      (record {
        e = e;
        number = number;
        r = r;
        found = ap (λ k. get k db.estimates) (sym key_of) ∙ get-scalar _ db.estimates e u chosen;
        decided = require-eq-ok _ estimate_not_approved number f₄;
        its =
            subst
              (λ x.
                scalar (λ y. y.revision_number == x.1) (revisions_of x.0.id db.estimate_revisions)
                ≡ some r)
              (sym same) (require-eq-ok _ revision_unavailable r e₂);
        made = λ fresh.
            find_or_add-new auth new_id now e r visible db w db' fresh (
              subst (λ x. find_or_add auth new_id now x.0 r visible db ≡ ok (w, db')) (sym same)
                h₃);
      })

written_first :
    (p f : EstimateRevision → Bool) (r r' : EstimateRevision) (rows : List EstimateRevision)
    → get r'.id rows ≡ some r
    → scalar p (filter f rows) ≡ some r
    → r'.id ≡ r.id
    → f r' ≡ true
    → p r' ≡ true
    → scalar p (filter f (save r' rows)) ≡ some r'
written_first p f r r' [] row h key in_list sel = cc
written_first p f r r' (x ∷ rows) row h key in_list sel = elim (Bool-cases (x.id == r'.id)) [
  | inl e ↦ rw (e, in_list, sel) refl
  | inr e ↦ elim (Bool-cases (f x)) [
    | inr out ↦
        rw (e, out) (written_first p f r r' rows (rw e at row) (rw out at h) key in_list sel)
    | inl listed ↦ elim (Bool-cases (p x)) [
      | inl first ↦
          let same : x ≡ r = some_inj (rw (listed, first) at h) in
          let apart : (x.id == r'.id) ≡ true = rw (same, key) (==_refl r.id) in
          absurd (ground (arith, apart, e))
      | inr later ↦
          rw (e, listed, later)
            (written_first p f r r' rows (rw e at row) (rw (listed, later) at h) key in_list sel)
    ]
  ]
]

-- In the state after an approval, the work order is made of the revision that was approved.
ordered :
    (payload : ApprovalActionRequest) (visit : Visit) (q : EstimateApprovalRequest) (e : Estimate)
    (r : EstimateRevision) (db : Db) (auth : AuthContext) (new_id now : ℕ) (w : WorkOrder)
    (db'' : Db)
    → Unique db.estimates
    → get e.id db.estimates ≡ some e
    → get r.id db.estimate_revisions ≡ some r
    → r.estimate_id ≡ e.id
    → scalar (λ x. x.revision_number == r.revision_number) (revisions_of e.id db.estimate_revisions)
      ≡ some r
    → any (is_from e r) db.work_orders ≡ false
    → create_work auth new_id e.id now (approved_state payload visit q e r db) ≡ ok (w, db'')
    → (w.estimate_id ≡ e.id)
      × (w.estimate_revision_id ≡ r.id)
      × (w.payment_option_selected ≡ some payload.payment_option)
ordered payload visit q e r db auth new_id now w db'' u there row belongs only fresh h =
    let e' : Estimate = approved_estimate payload e r in
    let r' : EstimateRevision = record r { status = approved } in
    let s =
      create_work-Made auth new_id e.id now (approved_state payload visit q e r db) w db''
        (save-Unique e' db.estimates u) h in
    let is_e : s.e ≡ e' =
      some_inj (sym s.found ∙ get-save_found e.id e' e db.estimates there refl) in
    let number : s.number ≡ r.revision_number =
      some_inj (sym s.decided ∙ ap (λ x. x.approved_revision_number) is_e) in
    let its : scalar (λ x. x.revision_number == r.revision_number)
          (revisions_of e.id (save r' db.estimate_revisions))
        ≡ some s.r =
      rw (is_e, number) at s.its in
    let is_r : s.r ≡ r' = some_inj (
      sym its
      ∙ written_first (λ x. x.revision_number == r.revision_number) (λ x. x.estimate_id == e.id) r
          r' db.estimate_revisions row only refl (ground (arith, belongs, ==_refl e.id))
          (==_refl r.revision_number)) in
    let (owner, shop, made) = s.made (rw (is_e, is_r) fresh) in
    (
      ap (λ x. x.estimate_id) made ∙ ap (λ x. x.id) is_e,
      ap (λ x. x.estimate_revision_id) made ∙ ap (λ x. x.id) is_r,
      ap (λ x. x.payment_option_selected) made ∙ ap (λ x. x.payment_option_selected) is_e,
    )

-- The work order that is made of an estimate after a customer approved it by a link is for the
-- revision of the link and has the option that the customer chose. The estimates have unique keys,
-- the revision is of the estimate and the only one of its number there, and has no work order yet.
pub approve_estimate-create_work :
    (hash_token : String → ℕ) (payload : ApprovalActionRequest) (visit : Visit)
    (q : EstimateApprovalRequest) (e : Estimate) (r : EstimateRevision) (db : Db)
    (response : ActionResponse) (db' : Db) (auth : AuthContext) (new_id now : ℕ) (w : WorkOrder)
    (db'' : Db)
    → Unique db.estimates
    → request_of hash_token payload.token db ≡ some q
    → get q.estimate_id db.estimates ≡ some e
    → get q.estimate_revision_id db.estimate_revisions ≡ some r
    → r.estimate_id ≡ e.id
    → scalar (λ x. x.revision_number == r.revision_number) (revisions_of e.id db.estimate_revisions)
      ≡ some r
    → any (is_from e r) db.work_orders ≡ false
    → approve_estimate hash_token payload visit db ≡ (ok response, db')
    → create_work auth new_id e.id now db' ≡ ok (w, db'')
    → (w.estimate_id ≡ e.id)
      × (w.estimate_revision_id ≡ r.id)
      × (w.payment_option_selected ≡ some payload.payment_option)
approve_estimate-create_work hash_token payload visit q e r db response db' auth new_id now w db'' u
      named there row belongs only fresh approve create =
    let a = approve_estimate-Approval hash_token payload visit db response db' approve in
    let is_q : a.q ≡ q = some_inj (sym a.subject.live.named ∙ named) in
    let is_e : a.e ≡ e =
      some_inj
        (sym a.subject.its_estimate ∙ ap (λ x. get x.estimate_id db.estimates) is_q ∙ there) in
    let is_r : a.r ≡ r = some_inj (
      sym a.subject.its_revision
      ∙ ap (λ x. get x.estimate_revision_id db.estimate_revisions) is_q
      ∙ row) in
    let state : db' ≡ approved_state payload visit q e r db =
      sym a.written ∙ rw (is_q, is_e, is_r) refl in
    ordered payload visit q e r db auth new_id now w db'' u
      (ap (λ k. get k db.estimates) (get-id q.estimate_id db.estimates e there) ∙ there)
      (ap (λ k. get k db.estimate_revisions)
          (get-id q.estimate_revision_id db.estimate_revisions r row)
        ∙ row)
      belongs only fresh
      (subst (λ d. create_work auth new_id e.id now d ≡ ok (w, db'')) state create)
