-- ===== src/Estimates/Content.antt =====
-- What a revision of an estimate is made of, and the digest of it (app/estimate_store.py).
use optimus_os.Base.{
  ℕ, ◌+◌, String, true, false, List, [], ◌∷◌, Option, some, ◌==◌, ◌&&◌, if◌then◌else◌,
}
use optimus_os.Base.Text.{same_text}
use optimus_os.Base.Table.{scalar}
use optimus_os.Base.Result.{ok, ◌>>=◌, ◌>>◌, guard, require}
use optimus_os.Errors.{Outcome, customer_not_found, vehicle_not_found, vehicle_of_other_customer}
use optimus_os.Db.{Db}
use optimus_os.Db.Work.{
  Estimate, EstimateStatus, EstimateRevision, EstimatePaymentOption, EstimateRequest,
  EstimateResponse, pay_in_full, split_payment, two_month_plan,
}
use optimus_os.Db.Calendar.{Customer, Vehicle}
use optimus_os.Base.Money.{Decimal}
use optimus_os.Auth.{AuthContext, effective_shop_id}
use optimus_os.Invoices.Schedule.{days}
use optimus_os.Estimates.Validate.{validate_generated_estimate}

-- `_estimate_snapshot_payload`, what the digest of a revision covers.
pub record Snapshot : Type 0 where
  pub customer : String
  pub vehicle : String
  pub request : EstimateRequest
  pub estimate : EstimateResponse
  pub terms_text : String
  pub payment_options : List EstimatePaymentOption
  pub approval_due_at : Option ℕ

-- What the store calls: the digest, the text of the two summaries, the research.
pub record Services : Type 0 where
  pub canonical_hash : Snapshot → ℕ
  pub customer_summary : Customer → String
  pub vehicle_summary : Vehicle → String
  pub estimate_job : EstimateRequest → Outcome EstimateResponse

-- `EstimateRecordBase`, and the reason of `EstimateRevisionCreate`.
pub record EstimateCreate : Type 0 where
  pub customer_id : ℕ
  pub vehicle_id : ℕ
  pub job : String
  pub location : String
  pub labor_rate : Option Decimal
  pub mobile_service_fee : Option Decimal
  pub shop_supplies_percent : Option Decimal
  pub parts_tax_rate : Option Decimal
  pub terms_text : String
  pub payment_options : List EstimatePaymentOption
  pub expires_in_days : ℕ
  pub reason : Option String

abbrev pub default_payment_options : List EstimatePaymentOption
default_payment_options =
    record {
      code = pay_in_full;
      label = "Pay in full";
      requires_payment_plan_acknowledgement = false;
    }
    ∷ record {
      code = split_payment;
      label = "Split payment";
      requires_payment_plan_acknowledgement = false;
    }
    ∷ record {
      code = two_month_plan;
      label = "Two-month plan";
      requires_payment_plan_acknowledgement = true;
    }
    ∷ []

-- `_resolve_payment_options`
abbrev pub resolve_payment_options : List EstimatePaymentOption → List EstimatePaymentOption
resolve_payment_options [] = default_payment_options
resolve_payment_options (o ∷ options) = o ∷ options

-- `DEFAULT_ESTIMATE_TERMS`
abbrev pub default_terms : String
default_terms =
    "Approval authorizes the quoted work only. Additional material changes require a new revision. Parts-price deposits are due before parts are ordered."

-- `terms_text or DEFAULT_ESTIMATE_TERMS`
abbrev pub terms_or_default : String → String
terms_or_default terms = if same_text terms "" then default_terms else terms

-- `_request_for_vehicle`
abbrev pub request_for_vehicle : EstimateCreate → Vehicle → EstimateRequest
request_for_vehicle payload v = record {
  vehicle = some v;
  job = payload.job;
  location = some payload.location;
  labor_rate = payload.labor_rate;
  mobile_service_fee = payload.mobile_service_fee;
  shop_supplies_percent = payload.shop_supplies_percent;
  parts_tax_rate = payload.parts_tax_rate;
}

-- The customer and one of the customer's vehicles, both of the caller's shop.
unfoldable pub customer_and_vehicle : Db → AuthContext → ℕ → ℕ → Outcome (Customer × Vehicle)
customer_and_vehicle db auth customer_id vehicle_id = do
  shop_id ← effective_shop_id db auth
  c ←
      require (scalar (λ c. c.shop_id == shop_id && c.id == customer_id) db.customers)
        customer_not_found
  v ←
      require (scalar (λ v. v.shop_id == shop_id && v.id == vehicle_id) db.vehicles)
        vehicle_not_found
  guard (v.customer_id == c.id) vehicle_of_other_customer
  ok (c, v)

-- What a revision is made of.
pub record Content : Type 0 where
  pub customer : Customer
  pub vehicle : Vehicle
  pub request : EstimateRequest
  pub response : EstimateResponse
  pub terms_text : String
  pub payment_options : List EstimatePaymentOption
  pub approval_due_at : ℕ

-- `_build_estimate_payload`, the reconciliation of what it gives, and the defaults.
unfoldable pub build_content : Services → AuthContext → EstimateCreate → ℕ → Db → Outcome Content
build_content services auth payload now db = do
  (c, v) ← customer_and_vehicle db auth payload.customer_id payload.vehicle_id
  let request : EstimateRequest = request_for_vehicle payload v
  response ← services.estimate_job request
  validate_generated_estimate response
  ok record {
    customer = c;
    vehicle = v;
    request = request;
    response = response;
    terms_text = terms_or_default payload.terms_text;
    payment_options = resolve_payment_options payload.payment_options;
    approval_due_at = now + days payload.expires_in_days;
  }

abbrev pub new_revision :
    Services → ℕ → ℕ → Content → EstimateStatus → ℕ → Estimate → EstimateRevision
new_revision services new_id owner content status number e = record {
  id = new_id;
  estimate_id = e.id;
  owner_user_id = owner;
  shop_id = e.shop_id;
  revision_number = number;
  status = status;
  customer_snapshot = services.customer_summary content.customer;
  vehicle_snapshot = services.vehicle_summary content.vehicle;
  estimate_request_payload = content.request;
  estimate_response_payload = content.response;
  terms_text = content.terms_text;
  payment_options_payload = content.payment_options;
  approval_due_at = some content.approval_due_at;
  content_hash = services.canonical_hash (record {
    customer = services.customer_summary content.customer;
    vehicle = services.vehicle_summary content.vehicle;
    request = content.request;
    estimate = content.response;
    terms_text = content.terms_text;
    payment_options = content.payment_options;
    approval_due_at = some content.approval_due_at;
  });
}
