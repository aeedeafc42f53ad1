-- ===== src/Db/Approvals.antt =====
-- The tables of app/db_models.py about the approval of an estimate: the links sent to customers
-- and the log of what happened. A digest is a number.
use optimus_os.Base.{ℕ, String, Bool, Option}
use optimus_os.Base.Table.{HasId}
use optimus_os.Db.Work.{PaymentOption}

pub data RequestStatus : Type 0 where
  active used expired revoked : RequestStatus

pub record EstimateApprovalRequest : Type 0 where
  pub id : ℕ
  pub estimate_id : ℕ
  pub estimate_revision_id : ℕ
  pub owner_user_id : ℕ
  pub shop_id : ℕ
  pub token_hash : ℕ
  pub status : RequestStatus
  pub expires_at : ℕ
  pub used_at : Option ℕ
  pub revoked_at : Option ℕ
  pub revoked_by_user_id : Option ℕ
  pub created_by_user_id : ℕ

pub data EventType : Type 0 where
  sent approved declined superseded revoked : EventType

pub data ActorType : Type 0 where
  internal customer : ActorType

pub data EstimateApprovalMethod : Type 0 where
  link internal typed_signature : EstimateApprovalMethod

pub record EstimateApprovalEvent : Type 0 where
  pub estimate_id : ℕ
  pub estimate_revision_id : ℕ
  pub owner_user_id : ℕ
  pub shop_id : ℕ
  pub approval_request_id : Option ℕ
  pub event_type : EventType
  pub actor_type : ActorType
  pub actor_user_id : Option ℕ
  pub actor_name : String
  pub approval_method : Option EstimateApprovalMethod
  pub approval_evidence : Option String
  pub accepted_terms : Option Bool
  pub payment_option : Option PaymentOption
  pub payment_plan_acknowledged : Option Bool
  pub decline_reason : Option String
  pub content_hash : ℕ
  pub ip_address : Option String
  pub user_agent : Option String

instance abbrev pub request_id : HasId EstimateApprovalRequest
request_id = record { id = λ r. r.id }
