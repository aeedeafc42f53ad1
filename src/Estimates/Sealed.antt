-- ===== src/Estimates/Sealed.antt =====
-- The digest of a revision and its content, under the operations of app/estimate_store.py that
-- write content.
use optimus_os.Base.{
  ℕ, suc, ◌≡◌, refl, Option, String, List, [], ◌∷◌, ◌++◌, ◌||◌, not, All-append, Bool-cases, inl,
  inr,
}
use mathlib.Core.Path.{subst}
use optimus_os.Base.Table.{All-save}
use optimus_os.Base.Result.{ok, >>=-eq-ok, guard, ok_pair_inj, transaction_keeps}
use optimus_os.Errors.{revision_locked}
use optimus_os.Db.{Db}
use optimus_os.Db.Work.{
  Estimate, EstimateStatus, EstimateRevision, EstimateRequest, EstimateResponse,
  EstimatePaymentOption, draft, superseded, ready, revision_id,
}
use optimus_os.Auth.{AuthContext}
use optimus_os.Estimates.{
  is_awaiting, is_approved, require_estimate, latest_revision, save_revision, save_estimate,
  to_read,
}
use optimus_os.Estimates.Content.{
  Services, EstimateCreate, Content, build_content, customer_and_vehicle, new_revision,
}
use optimus_os.Estimates.Validate.{validate_generated_estimate}
use optimus_os.Estimates.Revise.{
  EstimateUpdate, create_work, create_estimate, create_estimate_from_payload, add_estimate,
  update_work, update_estimate, edited_estimate, edited_revision, with_digest, revise_work,
  create_estimate_revision, supersede, add_revision, revised_estimate,
}
use optimus_os.Estimates.Revised.{add_revision-added, add_estimate-AddStep, revise_work-ReviseStep}
use optimus_os.Estimates.History.{
  Step, History, begin, ◌then◌, approving, declining, viewing, sending, revoking, editing, creating,
  revising, releasing,
}
use optimus_os.Estimates.Marked.{
  IsSealed, Sealed, marked, IsSealed-latest, approve_keeps, decline_keeps, view_keeps, send_keeps,
  revoke_keeps,
}

module _ (services : Services) (db : Db) (a : Sealed services db) where
  update_keeps :
      (auth : AuthContext) (key : ℕ) (payload : EstimateUpdate) (now : ℕ)
      → Sealed services (update_estimate services auth key payload now db).1
  unfolding update_estimate update_work
  update_keeps auth key payload now =
      transaction_keeps (Sealed services) (update_work services auth key payload now) to_read db a
        (λ x d h.
          let (e, e₁, h₁) = >>=-eq-ok (require_estimate db auth key) _ _ h in
          let (u, e₂, h₂) =
            >>=-eq-ok (guard (not (is_approved e.status || is_awaiting e.status)) revision_locked) _
              _ h₁ in
          let (r, e₃, h₃) = >>=-eq-ok (latest_revision e db) _ _ h₂ in
          let e' : Estimate = edited_estimate payload now e in
          let r' : EstimateRevision = with_digest services (edited_revision payload now r) in
          let (same, state) =
            ok_pair_inj _ e' x (save_revision r' (save_estimate e' db)) d refl h₃ in
          subst (Sealed services) state
            (All-save (IsSealed services) r' db.estimate_revisions a refl))

  -- A revision that is added carries the digest of its content.
  added_keeps :
      (new_id owner : ℕ) (content : Content) (status : EstimateStatus) (number : ℕ) (e : Estimate)
      (base db' : Db)
      → Sealed services base
      → add_revision (new_revision services new_id owner content status number e) base ≡ ok db'
      → Sealed services db'
  added_keeps new_id owner content status number e base db' before h =
      let r : EstimateRevision = new_revision services new_id owner content status number e in
      let (state, free) = add_revision-added r base db' h in
      subst (Sealed services) state
        (All-append (IsSealed services) base.estimate_revisions (r ∷ []) before (refl, tt))

  estimate_keeps :
      (auth : AuthContext) (new_id revision_key : ℕ) (content : Content) (e : Estimate) (db' : Db)
      → add_estimate services auth new_id revision_key content db ≡ ok (e, db')
      → Sealed services db'
  estimate_keeps auth new_id revision_key content e db' h =
      let s = add_estimate-AddStep services auth new_id revision_key content db e db' h in
      added_keeps revision_key s.owner content draft 1 s.made
        (record db { estimates = db.estimates ++ s.made ∷ [] }) db' a s.added

  create_keeps :
      (auth : AuthContext) (new_id revision_key : ℕ) (payload : EstimateCreate) (now : ℕ)
      → Sealed services (create_estimate services auth new_id revision_key payload now db).1
  unfolding create_estimate create_work
  create_keeps auth new_id revision_key payload now =
      transaction_keeps (Sealed services)
        (create_work services auth new_id revision_key payload now) to_read db a
        (λ x d h.
          let (content, e₁, h₁) = >>=-eq-ok (build_content services auth payload now db) _ _ h in
          estimate_keeps auth new_id revision_key content x d h₁)

  release_keeps :
      (auth : AuthContext) (new_id revision_key customer vehicle : ℕ) (request : EstimateRequest)
      (response : EstimateResponse) (terms : String) (options : List EstimatePaymentOption)
      (expires_in_days now : ℕ) (e : Estimate) (d : Db)
      → create_estimate_from_payload services auth new_id revision_key customer vehicle request
          response terms options expires_in_days now db
        ≡ ok (e, d)
      → Sealed services d
  unfolding create_estimate_from_payload
  release_keeps auth new_id revision_key customer vehicle request response terms options
        expires_in_days now e d h =
      let (t, e₁, h₁) = >>=-eq-ok (customer_and_vehicle db auth customer vehicle) _ _ h in
      let (u, e₂, h₂) = >>=-eq-ok (validate_generated_estimate response) _ _ h₁ in
      estimate_keeps auth new_id revision_key _ e d h₂

  supersede_keeps :
      (auth : AuthContext) (reason : Option String) (e : Estimate) (prior : EstimateRevision)
      → IsSealed services prior
      → Sealed services (supersede auth reason e prior db)
  supersede_keeps auth reason e prior h = elim (Bool-cases (is_approved e.status)) [
    | inl decided ↦ rw decided (marked services db a superseded prior h)
    | inr other ↦ rw other a
  ]

  revise_keeps :
      (auth : AuthContext) (new_id key : ℕ) (payload : EstimateCreate) (now : ℕ)
      → Sealed services (create_estimate_revision services auth new_id key payload now db).1
  unfolding create_estimate_revision
  revise_keeps auth new_id key payload now =
      transaction_keeps (Sealed services) (revise_work services auth new_id key payload now) to_read
        db a
        (λ x d h.
          let s = revise_work-ReviseStep services auth new_id key payload now db x d h in
          added_keeps new_id s.owner s.content ready (suc s.e.current_revision_number) s.e
            (save_estimate (revised_estimate payload s.content s.e)
              (supersede auth payload.reason s.e s.prior db))
            d
            (supersede_keeps auth payload.reason s.e s.prior
              (IsSealed-latest services db a s.e s.prior s.before))
            s.added)

Step-Sealed :
    (hash_token : String → ℕ) (services : Services) (db db' : Db)
    → Step hash_token services db db'
    → Sealed services db
    → Sealed services db'
Step-Sealed hash_token services db _ (approving payload visit _) a =
    approve_keeps services db a hash_token payload visit
Step-Sealed hash_token services db _ (declining payload visit _) a =
    decline_keeps services db a hash_token payload visit
Step-Sealed hash_token services db _ (viewing token now _) a =
    view_keeps services db a hash_token token now
Step-Sealed hash_token services db _ (sending auth key payload fresh _ new) a =
    send_keeps services db a hash_token auth key payload fresh
Step-Sealed hash_token services db _ (revoking auth key request_key reason now _) a =
    revoke_keeps services db a auth key request_key reason now
Step-Sealed hash_token services db _ (editing auth key payload now _) a =
    update_keeps services db a auth key payload now
Step-Sealed hash_token services db _ (creating auth new_id revision_key payload now _) a =
    create_keeps services db a auth new_id revision_key payload now
Step-Sealed hash_token services db _ (revising auth new_id key payload now _) a =
    revise_keeps services db a auth new_id key payload now
Step-Sealed hash_token services db _
      (releasing auth new_id revision_key customer vehicle request response terms options days now e
        _ _ h)
      a =
    release_keeps services db a auth new_id revision_key customer vehicle request response terms
      options days now e _ h

-- If every revision carries the digest of its content, it does after every history of requests,
-- refused ones included: an edit writes the digest anew, and what only marks a revision leaves its
-- content as it was.
pub History-Sealed :
    (hash_token : String → ℕ) (services : Services) (start db : Db)
    → History hash_token services start db
    → Sealed services start
    → Sealed services db
History-Sealed hash_token services start _ begin a = a
History-Sealed hash_token services start _ (h then s) a =
    Step-Sealed hash_token services _ _ s (History-Sealed hash_token services start _ h a)
