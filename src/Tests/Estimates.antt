-- ===== src/Tests/Estimates.antt =====
-- The theorems on estimates at one shop: a digest is the length of the token.
use optimus_os.Base.{
  ℕ, ◌≡◌, ◌+◌, ◌<◌, refl, String, true, false, not, List, [], ◌∷◌, ◌++◌, none, some, sum_of, leb,
  ◌&&◌,
}
use optimus_os.Base.Int.{pos}
use optimus_os.Base.Money.{number, round_div}
use optimus_os.Base.Table.{get}
use optimus_os.Base.Result.{ok, err}
use optimus_os.Errors.{Error, token_unavailable, research_failed}
use optimus_os.Db.{Db}
use optimus_os.Db.Work
use optimus_os.Db.Work.{
  Estimate, EstimateStatus, draft, awaiting_approval, approved, EstimateRevision, EstimateResponse,
  EstimatePaymentOption, two_month_plan, WorkOrder, estimate_id, revision_id,
}
use optimus_os.Db.Approvals
use optimus_os.Db.Approvals.{EstimateApprovalRequest, active, link}
use optimus_os.Auth.{effective_shop_id, effective_shop_owner_id, resolve_shop_id}
use optimus_os.WorkOrders.{work_order_query}
use optimus_os.WorkOrders.Create.{
  create_work, require_approved_estimate, approved_revision, find_or_add,
}
use optimus_os.Estimates.{is_due, related, require_estimate, latest_revision}
use optimus_os.Estimates.Resolve.{
  ApprovalView, request_of, resolve_active_approval_request, get_approval_view,
}
use optimus_os.Estimates.Approve.{
  ApprovalActionRequest, DeclineActionRequest, Visit, ActionResponse, approve_estimate,
  approve_revision, decline_estimate, check_acceptance, decision, approved_state, approved_estimate,
  approval_event, selected_option,
}
use optimus_os.Estimates.Validate.{
  money, fee_map, hours_of, labor_line, labor_lines, part_line, part_lines, check_totals,
  validate_generated_estimate, validate_estimate_ready_for_approval,
}
use optimus_os.Base.Text.{is_blank}
use optimus_os.Estimates.Send.{
  SendRequest, Link, SendResponse, sent_response, new_request, send_work,
  send_estimate_for_approval, revoke_estimate_approval_request,
}
use optimus_os.Estimates.Content.{Services, EstimateCreate, build_content, customer_and_vehicle}
use optimus_os.Estimates.Revise.{EstimateUpdate, update_estimate, revise_work, add_revision}
use optimus_os.Estimates.History.{begin, ◌then◌, approving, editing, approved_by, closed_link}
use optimus_os.Estimates.Marked.{Sealed}
use optimus_os.Estimates.Sealed.{History-Sealed}
use optimus_os.Estimates.Approved.{approve_estimate-records}
use optimus_os.Estimates.Ordered.{approve_estimate-create_work}
use optimus_os.Estimates.Stale.{awaiting_is_stuck}
use optimus_os.Estimates.Replaced.{revise_work-stale}
use optimus_os.Estimates.Reconciled.{Billed, Priced, validate_generated_estimate-total}
use optimus_os.Estimates.Sent.{send_work-opens}
use optimus_os.Tests.{value_or, as_owner, allocation, shop_with}
use Prim.Native.String.{count}

-- Two hours at 100.00, a part of 25.50 twice, and a fee of 10.00.
abbrev response : EstimateResponse
response = record {
  job = "Brakes";
  requirements = record { part_name = "Pads"; required = true } ∷ [];
  labor_items =
      record {
        description = "Replace";
        labor_hours = number (pos 20) 1;
        labor_rate = number (pos 100) 0;
        labor_total = number (pos 200) 0;
      }
      ∷ [];
  selected_parts =
      record {
        part_name = "Pads";
        quantity = 2;
        unit_price = number (pos 255) 1;
        extended_price = number (pos 51) 0;
      }
      ∷ [];
  fee_items =
      record { code = "shop_supplies"; label = "Supplies"; amount = number (pos 10) 0 } ∷ [];
  totals = record {
    labor_hours = number (pos 2) 0;
    labor_total = number (pos 200) 0;
    parts_subtotal = number (pos 51) 0;
    shop_supplies = number (pos 10) 0;
    mobile_service_fee = number (pos 0) 0;
    parts_tax = number (pos 0) 0;
    estimated_total = number (pos 261) 0;
  };
}

validated : validate_generated_estimate response ≡ ok tt
unfolding validate_generated_estimate fee_map money round_div labor_lines labor_line hours_of
    part_lines part_line check_totals
validated = refl

validate_generated_estimate-total_example :
    (labor parts total : ℕ) × (fees : List (String × ℕ)) × Billed response.labor_items labor
    × Priced response.selected_parts parts
    × (fee_map [] response.fee_items ≡ ok fees)
    × (money response.totals.labor_total ≡ ok labor)
    × (money response.totals.parts_subtotal ≡ ok parts)
    × (money response.totals.estimated_total ≡ ok total)
    × (total ≡ labor + parts + sum_of (λ f. f.1) fees)
    × (0 < total)
validate_generated_estimate-total_example = validate_generated_estimate-total response validated

abbrev two_months : EstimatePaymentOption
two_months = record {
  code = two_month_plan;
  label = "Two-month plan";
  requires_payment_plan_acknowledgement = true;
}

abbrev revision : EstimateStatus → EstimateRevision
revision status = record {
  id = 11;
  estimate_id = 1;
  owner_user_id = 1;
  shop_id = 1;
  revision_number = 1;
  status = status;
  customer_snapshot = "C";
  vehicle_snapshot = "V";
  estimate_request_payload = record {
    vehicle = none;
    job = "Brakes";
    location = none;
    labor_rate = none;
    mobile_service_fee = none;
    shop_supplies_percent = none;
    parts_tax_rate = none;
  };
  estimate_response_payload = response;
  terms_text = "Terms";
  payment_options_payload = two_months ∷ [];
  approval_due_at = some 900;
  content_hash = 77;
}

abbrev estimate : EstimateStatus → ℕ → Estimate
estimate status current = record {
  id = 1;
  owner_user_id = 1;
  shop_id = 1;
  customer_id = 1;
  vehicle_id = 1;
  estimate_number = (1, 1);
  status = status;
  current_revision_number = current;
  approved_revision_number = none;
  estimate_total = some (number (pos 261) 0);
  payment_option_selected = none;
  expires_at = some 500;
  is_archived = false;
}

abbrev request : EstimateApprovalRequest
request = record {
  id = 21;
  estimate_id = 1;
  estimate_revision_id = 11;
  owner_user_id = 1;
  shop_id = 1;
  token_hash = 5;
  status = active;
  expires_at = 500;
  used_at = none;
  revoked_at = none;
  revoked_by_user_id = none;
  created_by_user_id = 1;
}

abbrev shop : EstimateStatus → ℕ → List EstimateApprovalRequest → Db
shop status current links = record (shop_with (allocation 0 0 0)) {
  estimates = estimate status current ∷ [];
  estimate_revisions = revision status ∷ [];
  estimate_approval_requests = links;
}

abbrev waiting : Db
waiting = shop awaiting_approval 1 (request ∷ [])

abbrev acceptance : ApprovalActionRequest
acceptance = record {
  token = "token";
  revision_number = 1;
  approving_name = "Ann";
  accepted_terms = true;
  payment_option = two_month_plan;
  payment_plan_acknowledged = true;
  typed_authorization = none;
}

abbrev visit : Visit
visit = record {
  ip_address = none;
  user_agent = none;
  now = 100;
  checked_at = 101;
  decided_at = 102;
}

abbrev refusal : DeclineActionRequest
refusal = record { token = "token"; revision_number = 1; declining_name = "Ann"; reason = none }

abbrev accepted_db : Db
accepted_db =
    approved_state acceptance visit request (estimate awaiting_approval 1)
      (revision awaiting_approval) waiting

abbrev answer : ActionResponse
answer = decision (estimate awaiting_approval 1) approved (revision awaiting_approval) 102

accepted : approve_estimate count acceptance visit waiting ≡ (ok answer, accepted_db)
unfolding approve_estimate approve_revision resolve_active_approval_request related check_acceptance
accepted = refl

-- A digest of five letters of terms is that of the revision; no research is asked for.
abbrev services : Services
services = record {
  canonical_hash = λ s. count s.terms_text + 72;
  customer_summary = λ c. "C";
  vehicle_summary = λ v. "V";
  estimate_job = λ r. err research_failed;
}

abbrev again_db : Db
again_db = (approve_estimate count acceptance visit accepted_db).1

closed_link_example :
    ((e : Error) × ((approve_estimate count acceptance visit again_db).0 ≡ err e))
    × ((e : Error) × ((decline_estimate count refusal visit again_db).0 ≡ err e))
    × ((e : Error) × ((get_approval_view count "token" 100 again_db).0 ≡ err e))
closed_link_example =
    closed_link count services "token" waiting accepted_db again_db acceptance visit refusal visit
      100 (refl, tt) (approved_by acceptance visit answer accepted_db refl accepted)
      (begin then approving acceptance visit accepted_db) refl refl

approve_estimate-records_example :
    (q : EstimateApprovalRequest) × (e : Estimate) × (r : EstimateRevision)
    × (o : EstimatePaymentOption) × (request_of count "token" waiting ≡ some q)
    × (q.status ≡ active)
    × (visit.now < q.expires_at)
    × (get q.estimate_id waiting.estimates ≡ some e)
    × (get q.estimate_revision_id waiting.estimate_revisions ≡ some r)
    × (is_due r.approval_due_at visit.checked_at ≡ false)
    × (r.revision_number ≡ 1)
    × (true ≡ true)
    × (selected_option acceptance r ≡ some o)
    × (not (o.requires_payment_plan_acknowledgement && not true) ≡ true)
    × (get q.estimate_id accepted_db.estimates ≡ some (approved_estimate acceptance e r))
    × (get q.estimate_revision_id accepted_db.estimate_revisions
        ≡ some (record r { status = approved }))
    × (accepted_db.estimate_approval_events ≡ [] ++ approval_event acceptance visit q e r ∷ [])
approve_estimate-records_example =
    approve_estimate-records count acceptance visit waiting answer accepted_db accepted

abbrev no_order : WorkOrder × Db
no_order = (
  record {
    id = 0;
    owner_user_id = 0;
    shop_id = 0;
    estimate_id = 0;
    estimate_revision_id = 0;
    customer_id = 0;
    vehicle_id = 0;
    estimate_number = (0, 0);
    title = "";
    complaint = "";
    diagnosis = none;
    status = Work.cancelled;
    estimate_total = none;
    labor_hours_estimate = none;
    payment_option_selected = none;
    deposit_received = false;
    authorization_confirmed = false;
    scheduled_for = none;
    assigned_technician_id = none;
    is_comeback = false;
    updated_at = 0;
  },
  waiting,
)

abbrev ordered : WorkOrder × Db
unfolding create_work require_approved_estimate approved_revision work_order_query find_or_add
    effective_shop_id effective_shop_owner_id resolve_shop_id
ordered = value_or no_order (create_work as_owner 9 1 200 accepted_db)

ordered-eq-ok : create_work as_owner 9 1 200 accepted_db ≡ ok ordered
unfolding ordered create_work require_approved_estimate approved_revision work_order_query
    find_or_add effective_shop_id effective_shop_owner_id resolve_shop_id
ordered-eq-ok = refl

approve_estimate-create_work_example :
    (ordered.0.estimate_id ≡ 1)
    × (ordered.0.estimate_revision_id ≡ 11)
    × (ordered.0.payment_option_selected ≡ some two_month_plan)
approve_estimate-create_work_example =
    approve_estimate-create_work count acceptance visit request (estimate awaiting_approval 1)
      (revision awaiting_approval) waiting answer accepted_db as_owner 9 200 ordered.0 ordered.1
      (refl, tt) refl refl refl refl refl refl accepted ordered-eq-ok

-- The research gives the response, and the customer has the vehicle.
abbrev researched : Services
researched = record services { estimate_job = λ r. ok response }

abbrev customers_db : Db
customers_db = record waiting {
  customers = record { id = 1; shop_id = 1 } ∷ [];
  vehicles = record { id = 1; shop_id = 1; customer_id = 1 } ∷ [];
}

abbrev anew : EstimateCreate
anew = record {
  customer_id = 1;
  vehicle_id = 1;
  job = "Brakes";
  location = "Here";
  labor_rate = none;
  mobile_service_fee = none;
  shop_supplies_percent = none;
  parts_tax_rate = none;
  terms_text = "";
  payment_options = [];
  expires_in_days = 7;
  reason = none;
}

accepts : check_acceptance acceptance (revision awaiting_approval) ≡ ok tt
unfolding check_acceptance
accepts = refl

abbrev revising : Estimate × Db
unfolding revise_work require_estimate latest_revision build_content customer_and_vehicle
    validate_generated_estimate fee_map money round_div labor_lines labor_line hours_of part_lines
    part_line check_totals add_revision effective_shop_id effective_shop_owner_id
revising =
    value_or (estimate draft 0, customers_db)
      (revise_work researched as_owner 12 1 anew 90 customers_db)

revising-eq-ok : revise_work researched as_owner 12 1 anew 90 customers_db ≡ ok revising
unfolding revising revise_work require_estimate latest_revision build_content customer_and_vehicle
    validate_generated_estimate fee_map money round_div labor_lines labor_line hours_of part_lines
    part_line check_totals add_revision effective_shop_id effective_shop_owner_id
revising-eq-ok = refl

waiting_there : require_estimate customers_db as_owner 1 ≡ ok (estimate awaiting_approval 1)
unfolding require_estimate effective_shop_id
waiting_there = refl

revise_work-stale_example :
    (revising.0.current_revision_number ≡ 2)
    × (get_approval_view count "token" 100 revising.1 ≡ (err token_unavailable, revising.1))
    × (approve_estimate count acceptance visit revising.1 ≡ (
      ok (decision revising.0 approved (revision awaiting_approval) 102),
      approved_state acceptance visit request revising.0 (revision awaiting_approval) revising.1,
    ))
revise_work-stale_example =
    revise_work-stale researched as_owner 12 1 anew 90 customers_db revising.0 revising.1 count
      acceptance visit request (estimate awaiting_approval 1) (revision awaiting_approval)
      revising-eq-ok waiting_there refl
      (record {
        live = record { named = refl; in_time = refl; is_open = refl };
        its_estimate = refl;
        its_revision = refl;
      })
      refl refl refl accepts

abbrev ran_out : Db
ran_out = shop awaiting_approval 1 (record request { status = Approvals.expired } ∷ [])

found : require_estimate ran_out as_owner 1 ≡ ok (estimate awaiting_approval 1)
unfolding require_estimate effective_shop_id
found = refl

abbrev edit : EstimateUpdate
edit = record {
  terms_text = none;
  payment_options = none;
  expires_in_days = some 30;
  status = none;
}

abbrev by_link : SendRequest
by_link = record { approval_method = link; expires_in_hours = 72 }

abbrev fresh : Link
fresh = record { new_id = 22; token = "token"; checked_at = 100; sent_at = 101 }

awaiting_is_stuck_example :
    ((er : Error) × (update_estimate services as_owner 1 edit 5 ran_out ≡ (err er, ran_out)))
    × ((er : Error) × (send_estimate_for_approval count as_owner 1 by_link fresh ran_out
          ≡ (err er, ran_out)))
    × ((er : Error) × (revoke_estimate_approval_request as_owner 1 21 none 5 ran_out
          ≡ (err er, ran_out)))
awaiting_is_stuck_example =
    awaiting_is_stuck as_owner 1 ran_out (estimate awaiting_approval 1) found refl count services
      edit by_link fresh 21 none 5 (refl, tt)

abbrev unsent : Db
unsent = shop draft 1 []

abbrev sending : SendResponse × Db
unfolding send_work require_estimate latest_revision validate_estimate_ready_for_approval is_blank
    validate_generated_estimate fee_map money round_div labor_lines labor_line hours_of part_lines
    part_line check_totals effective_shop_id effective_shop_owner_id
sending =
    value_or
      (
        sent_response
            (new_request count as_owner 1 by_link fresh (estimate draft 1) (revision draft)) fresh
            (estimate draft 1) (revision draft),
        unsent,
      )
      (send_work count as_owner 1 by_link fresh unsent)

sending-eq-ok : send_work count as_owner 1 by_link fresh unsent ≡ ok sending
unfolding sending send_work require_estimate latest_revision validate_estimate_ready_for_approval
    is_blank validate_generated_estimate fee_map money round_div labor_lines labor_line hours_of
    part_lines part_line check_totals effective_shop_id effective_shop_owner_id
sending-eq-ok = refl

its_estimate : require_estimate unsent as_owner 1 ≡ ok (estimate draft 1)
unfolding require_estimate effective_shop_id
its_estimate = refl

its_revision : latest_revision (estimate draft 1) unsent ≡ ok (revision draft)
unfolding latest_revision
its_revision = refl

before_end : leb sending.0.expires_at 200 ≡ false
unfolding sending send_work require_estimate latest_revision validate_estimate_ready_for_approval
    is_blank validate_generated_estimate fee_map money round_div labor_lines labor_line hours_of
    part_lines part_line check_totals effective_shop_id effective_shop_owner_id
before_end = refl

send_work-opens_example :
    (v : ApprovalView) × (get_approval_view count sending.0.token 200 sending.1 ≡ (ok v, sending.1))
    × (v.revision ≡ record (revision draft) { status = awaiting_approval })
    × (v.estimate_id ≡ 1)
send_work-opens_example =
    send_work-opens count as_owner 1 by_link fresh 200 unsent (estimate draft 1) (revision draft)
      sending.0 sending.1 (refl, tt) (refl, tt) its_estimate its_revision refl sending-eq-ok
      before_end

abbrev new_terms : EstimateUpdate
new_terms = record edit { terms_text = some "New terms" }

abbrev edited_db : Db
edited_db = (update_estimate services as_owner 1 new_terms 5 unsent).1

History-Sealed_example : Sealed services edited_db
History-Sealed_example =
    History-Sealed count services unsent edited_db
      (begin then editing as_owner 1 new_terms 5 unsent) (refl, tt)
