-- ===== src/Estimates/Revise.antt =====
-- `create_estimate`, `create_estimate_from_payload`, `update_estimate` and
-- `create_estimate_revision` of app/estimate_store.py: the content of an estimate, in numbered
-- revisions whose digest the approval records.
use optimus_os.Base.{
  ℕ, suc, ◌+◌, String, Bool, false, List, [], ◌∷◌, ◌++◌, Option, none, some, any, ◌==◌, ◌&&◌, ◌||◌,
  filter, length, not, or_else, if◌then◌else◌,
}
use optimus_os.Base.Result.{ok, ◌>>=◌, ◌>>◌, guard, transaction}
use optimus_os.Errors.{Outcome, integrity_error, revision_locked}
use optimus_os.Db.{Db}
use optimus_os.Db.Work.{
  Estimate, EstimateStatus, EstimateRevision, EstimatePaymentOption, EstimateRequest,
  EstimateResponse, draft, ready, superseded,
}
use optimus_os.Db.Approvals
use optimus_os.Db.Approvals.{EstimateApprovalEvent, internal}
use optimus_os.Auth.{AuthContext, effective_shop_id, effective_shop_owner_id, resolve_shop_id}
use optimus_os.Invoices.Schedule.{days}
use optimus_os.Estimates.{
  EstimateRead, to_read, is_approved, is_awaiting, require_estimate, latest_revision, save_estimate,
  save_revision, append_event, event_of,
}
use optimus_os.Estimates.Validate.{validate_generated_estimate}
use optimus_os.Estimates.Content.{
  Snapshot, Services, EstimateCreate, Content, resolve_payment_options, terms_or_default,
  customer_and_vehicle, build_content, new_revision,
}

-- The unique constraint on the estimate and the number.
abbrev pub is_taken : EstimateRevision → List EstimateRevision → Bool
is_taken r = any (λ x. x.estimate_id == r.estimate_id && x.revision_number == r.revision_number)

unfoldable pub add_revision : EstimateRevision → Db → Outcome Db
add_revision r db = do
  guard (not (is_taken r db.estimate_revisions)) integrity_error
  ok record db { estimate_revisions = db.estimate_revisions ++ r ∷ [] }

-- `_next_estimate_number`
unfoldable pub next_estimate_number : Db → AuthContext → Outcome (ℕ × ℕ)
next_estimate_number db auth = do
  shop_id ← effective_shop_id db auth
  owner ← effective_shop_owner_id db auth
  ok (owner, length (filter (λ e. e.shop_id == shop_id) db.estimates) + 1)

-- `uq_estimates_estimate_number`
abbrev pub same_number : ℕ × ℕ → ℕ × ℕ → Bool
same_number a b = a.0 == b.0 && a.1 == b.1

abbrev pub new_estimate : ℕ → ℕ → ℕ → ℕ × ℕ → Content → Estimate
new_estimate new_id owner shop_id number content = record {
  id = new_id;
  owner_user_id = owner;
  shop_id = shop_id;
  customer_id = content.customer.id;
  vehicle_id = content.vehicle.id;
  estimate_number = number;
  status = draft;
  current_revision_number = 1;
  approved_revision_number = none;
  estimate_total = some content.response.totals.estimated_total;
  payment_option_selected = none;
  expires_at = some content.approval_due_at;
  is_archived = false;
}

-- The new estimate and its first revision, as `create_estimate` and
-- `create_estimate_from_payload` both write them.
unfoldable pub add_estimate :
    Services → AuthContext → ℕ → ℕ → Content → Db → Outcome (Estimate × Db)
add_estimate services auth new_id revision_key content db = do
  owner ← effective_shop_owner_id db auth
  shop_id ← resolve_shop_id db auth
  number ← next_estimate_number db auth
  guard (not (any (λ e. same_number e.estimate_number number) db.estimates)) integrity_error
  let e : Estimate = new_estimate new_id owner shop_id number content
  db' ←
      add_revision (new_revision services revision_key owner content draft 1 e)
        (record db { estimates = db.estimates ++ e ∷ [] })
  ok (e, db')

unfoldable pub create_work :
    Services → AuthContext → ℕ → ℕ → EstimateCreate → ℕ → Db → Outcome (Estimate × Db)
create_work services auth new_id revision_key payload now db = do
  content ← build_content services auth payload now db
  add_estimate services auth new_id revision_key content db

unfoldable pub create_estimate :
    Services → AuthContext → ℕ → ℕ → EstimateCreate → ℕ → Db → Outcome EstimateRead × Db
create_estimate services auth new_id revision_key payload now =
    transaction (create_work services auth new_id revision_key payload now) to_read

-- A release brings request and response along; its caller commits.
unfoldable pub create_estimate_from_payload :
    Services
    → AuthContext
    → ℕ
    → ℕ
    → ℕ
    → ℕ
    → EstimateRequest
    → EstimateResponse
    → String
    → List EstimatePaymentOption
    → ℕ
    → ℕ
    → Db
    → Outcome (Estimate × Db)
create_estimate_from_payload services auth new_id revision_key customer_id vehicle_id request
      response terms options expires_in_days now db =
    do
      (c, v) ← customer_and_vehicle db auth customer_id vehicle_id
      validate_generated_estimate response
      add_estimate services auth new_id revision_key
          (record {
            customer = c;
            vehicle = v;
            request = request;
            response = response;
            terms_text = terms_or_default terms;
            payment_options = resolve_payment_options options;
            approval_due_at = now + days expires_in_days;
          })
          db

pub record EstimateUpdate : Type 0 where
  pub terms_text : Option String
  pub payment_options : Option (List EstimatePaymentOption)
  pub expires_in_days : Option ℕ
  pub status : Option EstimateStatus

abbrev pub due_after : Option ℕ → ℕ → Option ℕ → Option ℕ
due_after none now due_at = due_at
due_after (some n) now due_at = some (now + days n)

abbrev pub options_after :
    Option (List EstimatePaymentOption) → List EstimatePaymentOption → List EstimatePaymentOption
options_after none options = options
options_after (some sent) options = resolve_payment_options sent

abbrev pub edited_revision : EstimateUpdate → ℕ → EstimateRevision → EstimateRevision
edited_revision payload now r = record r {
  terms_text = or_else payload.terms_text r.terms_text;
  payment_options_payload = options_after payload.payment_options r.payment_options_payload;
  approval_due_at = due_after payload.expires_in_days now r.approval_due_at;
  status = or_else payload.status r.status;
}

abbrev pub snapshot_of : EstimateRevision → Snapshot
snapshot_of r = record {
  customer = r.customer_snapshot;
  vehicle = r.vehicle_snapshot;
  request = r.estimate_request_payload;
  estimate = r.estimate_response_payload;
  terms_text = r.terms_text;
  payment_options = r.payment_options_payload;
  approval_due_at = r.approval_due_at;
}

abbrev pub with_digest : Services → EstimateRevision → EstimateRevision
with_digest services r = record r { content_hash = services.canonical_hash (snapshot_of r) }

abbrev pub edited_estimate : EstimateUpdate → ℕ → Estimate → Estimate
edited_estimate payload now e = record e {
  expires_at = due_after payload.expires_in_days now e.expires_at;
  status = or_else payload.status e.status;
}

unfoldable pub update_work :
    Services → AuthContext → ℕ → EstimateUpdate → ℕ → Db → Outcome (Estimate × Db)
update_work services auth key payload now db = do
  e ← require_estimate db auth key
  guard (not (is_approved e.status || is_awaiting e.status)) revision_locked
  r ← latest_revision e db
  let e' : Estimate = edited_estimate payload now e
  let r' : EstimateRevision = with_digest services (edited_revision payload now r)
  ok (e', save_revision r' (save_estimate e' db))

unfoldable pub update_estimate :
    Services → AuthContext → ℕ → EstimateUpdate → ℕ → Db → Outcome EstimateRead × Db
update_estimate services auth key payload now =
    transaction (update_work services auth key payload now) to_read

abbrev pub superseded_event :
    AuthContext → Option String → Estimate → EstimateRevision → EstimateApprovalEvent
superseded_event auth reason e r =
    record (event_of e r none Approvals.superseded Approvals.internal auth.user.display_name) {
      approval_method = some internal;
      decline_reason = reason;
      actor_user_id = some auth.user.id;
    }

-- An approved estimate is superseded by its next revision.
abbrev pub supersede : AuthContext → Option String → Estimate → EstimateRevision → Db → Db
supersede auth reason e prior db =
    if is_approved e.status
    then append_event (superseded_event auth reason e prior)
        (save_revision (record prior { status = superseded }) db)
    else db

abbrev pub revised_estimate : EstimateCreate → Content → Estimate → Estimate
revised_estimate payload content e = record e {
  customer_id = payload.customer_id;
  vehicle_id = payload.vehicle_id;
  current_revision_number = suc e.current_revision_number;
  status = ready;
  estimate_total = some content.response.totals.estimated_total;
  expires_at = some content.approval_due_at;
}

unfoldable pub revise_work :
    Services → AuthContext → ℕ → ℕ → EstimateCreate → ℕ → Db → Outcome (Estimate × Db)
revise_work services auth new_id key payload now db = do
  e ← require_estimate db auth key
  prior ← latest_revision e db
  content ← build_content services auth payload now db
  owner ← effective_shop_owner_id db auth
  let e' : Estimate = revised_estimate payload content e
  db' ←
      add_revision
        (new_revision services new_id owner content ready (suc e.current_revision_number) e)
        (save_estimate e' (supersede auth payload.reason e prior db))
  ok (e', db')

unfoldable pub create_estimate_revision :
    Services → AuthContext → ℕ → ℕ → EstimateCreate → ℕ → Db → Outcome EstimateRead × Db
create_estimate_revision services auth new_id key payload now =
    transaction (revise_work services auth new_id key payload now) to_read
