-- ===== src/Estimates/History.antt =====
-- Requests to app/estimate_store.py as steps, and histories of them after a link was closed.
use optimus_os.Base.{
  ℕ, ◌≡◌, Bool, true, refl, String, List, ◌==◌, ◌&&◌, Option, none, some, ap, sym, ◌∙◌, arith,
  some_inj,
}
use mathlib.Core.Path.{subst}
use optimus_os.Base.Table.{get, get-scalar, scalar_sound, Unique}
use optimus_os.Base.Result.{ok, err, transaction-eq-ok}
use optimus_os.Errors.{Error, Outcome}
use optimus_os.Db.{Db}
use optimus_os.Db.Work.{Estimate, EstimateRequest, EstimateResponse, EstimatePaymentOption}
use optimus_os.Db.Approvals.{EstimateApprovalRequest, request_id}
use optimus_os.Auth.{AuthContext}
use optimus_os.Estimates.{EstimateRead, to_read}
use optimus_os.Estimates.Resolve.{
  request_of, resolve_active_approval_request, with_request, get_approval_view,
}
use optimus_os.Estimates.Approve.{
  ApprovalActionRequest, DeclineActionRequest, Visit, ActionResponse, approve_estimate,
  decline_estimate, used_request,
}
use optimus_os.Estimates.Send.{
  SendRequest, Link, send_estimate_for_approval, revoke_estimate_approval_request, revoke_work,
  revoked_request,
}
use optimus_os.Estimates.Content.{Services, EstimateCreate}
use optimus_os.Estimates.Revise.{
  EstimateUpdate, create_estimate, create_estimate_from_payload, update_estimate,
  create_estimate_revision,
}
use optimus_os.Estimates.Decide.{approve_estimate-Approval, decline_estimate-Refusal}
use optimus_os.Estimates.Once.{Burnt, shut-Burnt, resolve-Burnt}
use optimus_os.Estimates.Closed.{
  Shut, approve_keeps, decline_keeps, view_keeps, send_keeps, revoke_keeps, update_keeps,
  create_keeps, revise_keeps, release_keeps,
}
use optimus_os.Estimates.Links.{revoke_work-RevokeStep}

module _ (hash_token : String → ℕ) (services : Services) where
  -- One request, refused or not. The key of a new link is new.
  pub data Step : Db → Db → Type 0 where
    approving :
        (payload : ApprovalActionRequest) (visit : Visit) (db : Db)
        → Step db (approve_estimate hash_token payload visit db).1
    declining :
        (payload : DeclineActionRequest) (visit : Visit) (db : Db)
        → Step db (decline_estimate hash_token payload visit db).1
    viewing :
        (token : String) (now : ℕ) (db : Db) → Step db (get_approval_view hash_token token now db).1
    sending :
        (auth : AuthContext) (key : ℕ) (payload : SendRequest) (fresh : Link) (db : Db)
        → get fresh.new_id db.estimate_approval_requests ≡ none
        → Step db (send_estimate_for_approval hash_token auth key payload fresh db).1
    revoking :
        (auth : AuthContext) (key request_key : ℕ) (reason : Option String) (now : ℕ) (db : Db)
        → Step db (revoke_estimate_approval_request auth key request_key reason now db).1
    editing :
        (auth : AuthContext) (key : ℕ) (payload : EstimateUpdate) (now : ℕ) (db : Db)
        → Step db (update_estimate services auth key payload now db).1
    creating :
        (auth : AuthContext) (new_id revision_key : ℕ) (payload : EstimateCreate) (now : ℕ)
        (db : Db)
        → Step db (create_estimate services auth new_id revision_key payload now db).1
    revising :
        (auth : AuthContext) (new_id key : ℕ) (payload : EstimateCreate) (now : ℕ) (db : Db)
        → Step db (create_estimate_revision services auth new_id key payload now db).1
    releasing :
        (auth : AuthContext) (new_id revision_key customer vehicle : ℕ) (request : EstimateRequest)
        (response : EstimateResponse) (terms : String) (options : List EstimatePaymentOption)
        (expires_in_days now : ℕ) (e : Estimate) (db db' : Db)
        → create_estimate_from_payload services auth new_id revision_key customer vehicle request
            response terms options expires_in_days now db
          ≡ ok (e, db')
        → Step db db'

  infixl 5 ◌then◌
  pub data History (start : Db) : Db → Type 0 where
    begin : History start start
    ◌then◌ : {db db' : Db} → History start db → Step db db' → History start db'

  Step-Shut : (digest : ℕ) (db db' : Db) → Step db db' → Shut digest db → Shut digest db'
  Step-Shut digest db _ (approving payload visit _) b =
      approve_keeps hash_token digest db b payload visit
  Step-Shut digest db _ (declining payload visit _) b =
      decline_keeps hash_token digest db b payload visit
  Step-Shut digest db _ (viewing token now _) b = view_keeps hash_token digest db b token now
  Step-Shut digest db _ (sending auth key payload fresh _ new) b =
      send_keeps hash_token digest db b auth key payload fresh new
  Step-Shut digest db _ (revoking auth key request_key reason now _) b =
      revoke_keeps hash_token digest db b auth key request_key reason now
  Step-Shut digest db _ (editing auth key payload now _) b =
      update_keeps hash_token digest db b services auth key payload now
  Step-Shut digest db _ (creating auth new_id revision_key payload now _) b =
      create_keeps hash_token digest db b services auth new_id revision_key payload now
  Step-Shut digest db _ (revising auth new_id key payload now _) b =
      revise_keeps hash_token digest db b services auth new_id key payload now
  Step-Shut digest db _
        (releasing auth new_id revision_key customer vehicle request response terms options days now
          e _ _ h)
        b =
      release_keeps hash_token digest db b services auth new_id revision_key customer vehicle
        request response terms options days now e _ h

  History-Shut :
      (digest : ℕ) (start db : Db) → History start db → Shut digest start → Shut digest db
  History-Shut digest start _ begin b = b
  History-Shut digest start _ (h then s) b =
      Step-Shut digest _ _ s (History-Shut digest start _ h b)

-- A decision that was made by the token, or the revocation of its link.
pub data Closing (hash_token : String → ℕ) (token : String) (db : Db) : Db → Type 0 where
  approved_by :
      (payload : ApprovalActionRequest) (visit : Visit) (response : ActionResponse) (db' : Db)
      → payload.token ≡ token
      → approve_estimate hash_token payload visit db ≡ (ok response, db')
      → Closing hash_token token db db'
  declined_by :
      (payload : DeclineActionRequest) (visit : Visit) (response : ActionResponse) (db' : Db)
      → payload.token ≡ token
      → decline_estimate hash_token payload visit db ≡ (ok response, db')
      → Closing hash_token token db db'
  revoked_by :
      (auth : AuthContext) (key : ℕ) (q : EstimateApprovalRequest) (reason : Option String)
      (now : ℕ) (read : EstimateRead) (db' : Db)
      → request_of hash_token token db ≡ some q
      → revoke_estimate_approval_request auth key q.id reason now db ≡ (ok read, db')
      → Closing hash_token token db db'

-- The link that was revoked is the one that the token names.
revoked-Shut :
    (hash_token : String → ℕ) (token : String) (auth : AuthContext) (key : ℕ)
    (q : EstimateApprovalRequest) (reason : Option String) (now : ℕ) (db : Db) (read : EstimateRead)
    (db' : Db)
    → Unique db.estimate_approval_requests
    → request_of hash_token token db ≡ some q
    → revoke_estimate_approval_request auth key q.id reason now db ≡ (ok read, db')
    → Shut (hash_token token) db'
unfolding revoke_estimate_approval_request
revoked-Shut hash_token token auth key q reason now db read db' u named h =
    let (a, done, answered) =
      transaction-eq-ok (revoke_work auth key q.id reason now) to_read db db' read h in
    let s = revoke_work-RevokeStep auth key q.id reason now db a db' done in
    let p : EstimateApprovalRequest → Bool = λ x. x.id == q.id && x.estimate_id == s.e.id in
    let chosen : p s.q ≡ true = scalar_sound p db.estimate_approval_requests s.q s.found in
    let key_of : s.q.id ≡ q.id = ground (arith, chosen) in
    let same : s.q ≡ q = some_inj (
      sym (get-scalar p db.estimate_approval_requests s.q u s.found)
      ∙ ap (λ k. get k db.estimate_approval_requests) key_of
      ∙ get-scalar _ db.estimate_approval_requests q u named) in
    subst (Burnt (hash_token token)) (sym s.requests) (
      shut-Burnt (hash_token token) s.q (revoked_request auth now s.q) db.estimate_approval_requests
        u (named ∙ ap (λ x. some x) (sym same)) refl refl refl)

Closing-Shut :
    (hash_token : String → ℕ) (token : String) (db db' : Db)
    → Unique db.estimate_approval_requests
    → Closing hash_token token db db'
    → Shut (hash_token token) db'
Closing-Shut hash_token token db _ u (approved_by payload visit response db' named h) =
    let a = approve_estimate-Approval hash_token payload visit db response db' h in
    subst (λ t. Shut (hash_token t) db') named
      (subst (Shut (hash_token payload.token)) a.written (
        shut-Burnt (hash_token payload.token) a.q (used_request a.q visit.decided_at)
          db.estimate_approval_requests u a.subject.live.named refl refl refl))
Closing-Shut hash_token token db _ u (declined_by payload visit response db' named h) =
    let a = decline_estimate-Refusal hash_token payload visit db response db' h in
    subst (λ t. Shut (hash_token t) db') named
      (subst (Shut (hash_token payload.token)) a.written (
        shut-Burnt (hash_token payload.token) a.q (used_request a.q visit.decided_at)
          db.estimate_approval_requests u a.subject.live.named refl refl refl))
Closing-Shut hash_token token db _ u (revoked_by auth key q reason now read db' named h) =
    revoked-Shut hash_token token auth key q reason now db read db' u named h

with_request_never :
    {A : Type 0} (act : EstimateApprovalRequest → Db → Outcome A × Db)
    (t : Outcome EstimateApprovalRequest × Db)
    → ((q : EstimateApprovalRequest) → t.0 ≡ ok q → ⊥)
    → (e : Error) × ((with_request act t).0 ≡ err e)
with_request_never act (err e, db) never = (e, refl)
with_request_never act (ok q, db) never = absurd (never q refl)

-- A link decides at most once: after a customer approved or declined by a token, or the link of
-- the token was revoked, no history of requests makes the token approve, decline or show anything
-- again. The keys of links are asked to be unique, and the key of a new link to be new.
pub closed_link :
    (hash_token : String → ℕ) (services : Services) (token : String) (start db db' : Db)
    (payload : ApprovalActionRequest) (visit : Visit) (refusal : DeclineActionRequest)
    (visit₂ : Visit) (now : ℕ)
    → Unique start.estimate_approval_requests
    → Closing hash_token token start db
    → History hash_token services db db'
    → payload.token ≡ token
    → refusal.token ≡ token
    → ((e : Error) × ((approve_estimate hash_token payload visit db').0 ≡ err e))
      × ((e : Error) × ((decline_estimate hash_token refusal visit₂ db').0 ≡ err e))
      × ((e : Error) × ((get_approval_view hash_token token now db').0 ≡ err e))
unfolding approve_estimate decline_estimate get_approval_view
closed_link hash_token services token start db db' payload visit refusal visit₂ now u c h named
      named₂ =
    let b : Shut (hash_token token) db' =
      History-Shut hash_token services (hash_token token) db db' h
        (Closing-Shut hash_token token start db u c) in
    let never : (t : String)
        → t ≡ token
        → (at : ℕ) (q : EstimateApprovalRequest)
        → (resolve_active_approval_request hash_token t at db').0 ≡ ok q
        → ⊥ =
      λ t same at q.
        resolve-Burnt hash_token t at db' q (subst (λ x. Shut (hash_token x) db') (sym same) b) in
    (
      with_request_never _ _ (never payload.token named visit.now),
      with_request_never _ _ (never refusal.token named₂ visit₂.now),
      with_request_never _ _ (never token refl now),
    )
