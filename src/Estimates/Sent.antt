-- ===== src/Estimates/Sent.antt =====
-- What sending an estimate for approval has found and written when it succeeds, and the link that
-- was sent.
use optimus_os.Base.{
  ℕ, ◌+◌, ◌≡◌, refl, String, Bool, true, false, List, [], ◌∷◌, none, some, any, leb, ltb, ◌==◌, not,
  filter, All, arith, ap, sym, ◌∙◌, Bool-cases, inl, inr, some_inj, ==_refl, ==_eq,
}
use mathlib.Core.Path.{subst}
use optimus_os.Base.Table.{get, get-save_found, get-scalar, scalar, scalar-append_none, Unique}
use optimus_os.Base.Result.{
  ok, >>=-eq-ok, guard, guard-eq-ok, require-eq-ok, ok_pair_inj, ok_unique,
}
use optimus_os.Scheduling.Apart.{All-impl}
use optimus_os.Errors.{estimate_expired, integrity_error, estimate_not_found, missing_row}
use optimus_os.Db.{Db}
use optimus_os.Db.Work.{Estimate, EstimateRevision, awaiting_approval, estimate_id, revision_id}
use optimus_os.Db.Approvals.{EstimateApprovalRequest, request_id}
use optimus_os.Auth.{AuthContext, effective_shop_id, effective_shop_owner_id}
use optimus_os.Estimates.{
  is_due, require_estimate, latest_revision, latest, latest_of, revisions_of,
}
use optimus_os.Estimates.Resolve.{ApprovalView, get_approval_view, view_of}
use optimus_os.Estimates.Decide.{Subject, resolve-Live, related-Subject}
use optimus_os.Estimates.Validate.{validate_estimate_ready_for_approval}
use optimus_os.Estimates.Send.{
  hours, SendRequest, Link, SendResponse, new_request, sent_response, sent_state, send_work,
}

abbrev pub is_unused : (String → ℕ) → String → List EstimateApprovalRequest → Bool
is_unused hash_token token rows = not (any (λ q. q.token_hash == hash_token token) rows)

pub record SendStep (hash_token : String → ℕ) (auth : AuthContext) (key : ℕ) (payload : SendRequest)
    (fresh : Link) (db : Db) (response : SendResponse) (db' : Db) : Type 0 where
  pub e : Estimate
  pub r : EstimateRevision
  pub owner : ℕ
  pub found : require_estimate db auth key ≡ ok e
  pub current : latest_revision e db ≡ ok r
  pub unused : is_unused hash_token fresh.token db.estimate_approval_requests ≡ true
  pub answered :
      sent_response (new_request hash_token auth owner payload fresh e r) fresh e r ≡ response
  pub written :
      sent_state auth payload (new_request hash_token auth owner payload fresh e r) e r db ≡ db'

pub send_work-SendStep :
    (hash_token : String → ℕ) (auth : AuthContext) (key : ℕ) (payload : SendRequest) (fresh : Link)
    (db : Db) (response : SendResponse) (db' : Db)
    → send_work hash_token auth key payload fresh db ≡ ok (response, db')
    → SendStep hash_token auth key payload fresh db response db'
unfolding send_work
send_work-SendStep hash_token auth key payload fresh db response db' h =
    let (e, e₁, h₁) = >>=-eq-ok (require_estimate db auth key) _ _ h in
    let (r, e₂, h₂) = >>=-eq-ok (latest_revision e db) _ _ h₁ in
    let (u₁, e₃, h₃) = >>=-eq-ok (validate_estimate_ready_for_approval e r) _ _ h₂ in
    let (u₂, e₄, h₄) =
      >>=-eq-ok (guard (not (is_due r.approval_due_at fresh.checked_at)) estimate_expired) _ _ h₃ in
    let (owner, e₅, h₅) = >>=-eq-ok (effective_shop_owner_id db auth) _ _ h₄ in
    let (u₃, e₆, h₆) =
      >>=-eq-ok
        (guard (is_unused hash_token fresh.token db.estimate_approval_requests) integrity_error) _ _
        h₅ in
    let q : EstimateApprovalRequest = new_request hash_token auth owner payload fresh e r in
    let (answered, written) =
      ok_pair_inj _ (sent_response q fresh e r) response (sent_state auth payload q e r db) db' refl
        h₆ in
    record {
      e = e;
      r = r;
      owner = owner;
      found = e₁;
      current = e₂;
      unused = guard-eq-ok _ integrity_error e₆;
      answered = answered;
      written = written;
    }

-- The latest of some revisions is one of them.
All-latest_of :
    (P : EstimateRevision → Type 0) (r : EstimateRevision) (rows : List EstimateRevision)
    → P r
    → All P rows
    → P (latest_of r rows)
All-latest_of P r [] h a = h
All-latest_of P r (x ∷ rows) h a = elim (Bool-cases (ltb r.revision_number x.revision_number)) [
  | inl later ↦ rw later (All-latest_of P x rows a.0 a.1)
  | inr other ↦ rw other (All-latest_of P r rows h a.1)
]

pub All-latest :
    (P : EstimateRevision → Type 0) (rows : List EstimateRevision) (r : EstimateRevision)
    → All P rows
    → latest rows ≡ some r
    → P r
All-latest P [] r a h = cc
All-latest P (x ∷ rows) r a h = subst P (some_inj h) (All-latest_of P x rows a.0 a.1)

pub All-filter :
    (P : EstimateRevision → Type 0) (f : EstimateRevision → Bool) (rows : List EstimateRevision)
    → All P rows
    → All P (filter f rows)
All-filter P f [] a = tt
All-filter P f (x ∷ rows) a = elim (Bool-cases (f x)) [
  | inl e ↦ rw e (a.0, All-filter P f rows a.1)
  | inr e ↦ rw e (All-filter P f rows a.1)
]

get_later :
    (x y : EstimateRevision) (rows : List EstimateRevision)
    → get x.id rows ≡ none
    → get y.id rows ≡ some y
    → get y.id (x ∷ rows) ≡ some y
get_later x y rows fresh there = elim (Bool-cases (x.id == y.id)) [
  | inr e ↦ rw e there
  | inl e ↦
      let gone : get y.id rows ≡ none = subst (λ k. get k rows ≡ none) (==_eq _ _ e) fresh in cc
]

-- With unique keys, every row is the one under its key.
All-found : (rows : List EstimateRevision) → Unique rows → All (λ x. get x.id rows ≡ some x) rows
All-found [] u = tt
All-found (x ∷ rows) u = (
  rw (==_refl x.id) refl,
  All-impl (λ y. get y.id rows ≡ some y) (λ y. get y.id (x ∷ rows) ≡ some y) rows
      (λ y there. get_later x y rows u.0 there) (All-found rows u.1),
)

-- The latest revision is the row under its key.
latest_revision-get :
    (e : Estimate) (db : Db) (r : EstimateRevision)
    → Unique db.estimate_revisions
    → latest_revision e db ≡ ok r
    → get r.id db.estimate_revisions ≡ some r
unfolding latest_revision
latest_revision-get e db r u h =
    All-latest (λ x. get x.id db.estimate_revisions ≡ some x)
      (revisions_of e.id db.estimate_revisions) r
      (All-filter _ (λ x. x.estimate_id == e.id) db.estimate_revisions
        (All-found db.estimate_revisions u))
      (require-eq-ok _ missing_row r h)

require_estimate-get :
    (db : Db) (auth : AuthContext) (key : ℕ) (e : Estimate)
    → Unique db.estimates
    → require_estimate db auth key ≡ ok e
    → get e.id db.estimates ≡ some e
unfolding require_estimate
require_estimate-get db auth key e u h =
    let (shop, e₁, h₁) = >>=-eq-ok (effective_shop_id db auth) _ _ h in
    get-scalar _ db.estimates e u (require-eq-ok _ estimate_not_found e h₁)

unused-none :
    (p : EstimateApprovalRequest → Bool) (rows : List EstimateApprovalRequest)
    → not (any p rows) ≡ true
    → scalar p rows ≡ none
unused-none p [] h = refl
unused-none p (x ∷ rows) h = ground (arith, h, unused-none p rows)

opens :
    (hash_token : String → ℕ) (auth : AuthContext) (payload : SendRequest) (fresh : Link)
    (now owner : ℕ) (e : Estimate) (r : EstimateRevision) (db : Db)
    → get e.id db.estimates ≡ some e
    → get r.id db.estimate_revisions ≡ some r
    → r.revision_number ≡ e.current_revision_number
    → is_unused hash_token fresh.token db.estimate_approval_requests ≡ true
    → leb (fresh.sent_at + hours payload.expires_in_hours) now ≡ false
    → (v : ApprovalView) × (get_approval_view hash_token fresh.token now
          (sent_state auth payload (new_request hash_token auth owner payload fresh e r) e r db)
        ≡ (
          ok v,
          sent_state auth payload (new_request hash_token auth owner payload fresh e r) e r db,
        ))
      × (v.revision ≡ record r { status = awaiting_approval })
      × (v.estimate_id ≡ e.id)
unfolding get_approval_view
opens hash_token auth payload fresh now owner e r db there row current unused in_time =
    let q : EstimateApprovalRequest = new_request hash_token auth owner payload fresh e r in
    let st : Db = sent_state auth payload q e r db in
    let e' : Estimate = record e { status = awaiting_approval; expires_at = some q.expires_at } in
    let r' : EstimateRevision = record r { status = awaiting_approval } in
    let s : Subject hash_token fresh.token now st q e' r' = record {
      live = record {
        named =
            scalar-append_none (λ x. x.token_hash == hash_token fresh.token)
              db.estimate_approval_requests q (unused-none _ db.estimate_approval_requests unused)
              (==_refl (hash_token fresh.token));
        in_time = in_time;
        is_open = refl;
      };
      its_estimate = get-save_found e.id e' e db.estimates there refl;
      its_revision = get-save_found r.id r' r db.estimate_revisions row refl;
    } in
    let run = resolve-Live hash_token fresh.token now st q s.live in
    let rows = related-Subject hash_token fresh.token now st q e' r' s in
    let shown : (r.revision_number == e.current_revision_number) ≡ true =
      ap (λ n. r.revision_number == n) (sym current) ∙ ==_refl r.revision_number in
    (view_of q e' r', rw (run, rows, shown) refl, refl, refl)

-- A link that was sent opens: until it runs out, it shows the revision that was sent, if that is
-- the current one. The estimates and the revisions have unique keys.
pub send_work-opens :
    (hash_token : String → ℕ) (auth : AuthContext) (key : ℕ) (payload : SendRequest) (fresh : Link)
    (now : ℕ) (db : Db) (e : Estimate) (r : EstimateRevision) (response : SendResponse) (db' : Db)
    → Unique db.estimates
    → Unique db.estimate_revisions
    → require_estimate db auth key ≡ ok e
    → latest_revision e db ≡ ok r
    → r.revision_number ≡ e.current_revision_number
    → send_work hash_token auth key payload fresh db ≡ ok (response, db')
    → leb response.expires_at now ≡ false
    → (v : ApprovalView) × (get_approval_view hash_token response.token now db' ≡ (ok v, db'))
      × (v.revision ≡ record r { status = awaiting_approval })
      × (v.estimate_id ≡ e.id)
send_work-opens hash_token auth key payload fresh now db e r response db' u u₂ found latest_is
      current h in_time =
    let s = send_work-SendStep hash_token auth key payload fresh db response db' h in
    let is_e : s.e ≡ e = ok_unique s.found found in
    let is_r : s.r ≡ r = ok_unique s.current (ap (λ x. latest_revision x db) is_e ∙ latest_is) in
    let q : EstimateApprovalRequest = new_request hash_token auth s.owner payload fresh e r in
    let written : sent_state auth payload q e r db ≡ db' = rw (is_e, is_r) at s.written in
    let token : fresh.token ≡ response.token = ap (λ x. x.token) s.answered in
    let deadline : response.expires_at ≡ fresh.sent_at + hours payload.expires_in_hours =
      ap (λ x. x.expires_at) (sym s.answered) in
    subst
      (λ t.
        (v : ApprovalView) × (get_approval_view hash_token t now db' ≡ (ok v, db'))
        × (v.revision ≡ record r { status = awaiting_approval })
        × (v.estimate_id ≡ e.id))
      token
      (subst
        (λ d.
          (v : ApprovalView) × (get_approval_view hash_token fresh.token now d ≡ (ok v, d))
          × (v.revision ≡ record r { status = awaiting_approval })
          × (v.estimate_id ≡ e.id))
        written
        (opens hash_token auth payload fresh now s.owner e r db
          (require_estimate-get db auth key e u found) (latest_revision-get e db r u₂ latest_is)
          current s.unused (rw deadline at in_time)))
