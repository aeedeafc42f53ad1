-- ===== src/Db/Shops.antt =====
-- The tables of app/db_models.py about the shop itself: shops, shop_subscriptions, shop_events.
use optimus_os.Base.{ℕ, String, Bool, Option, ◌==◌}
use optimus_os.Base.Table.{HasId}

pub data OperatingMode : Type 0 where
  solo mobile_field shop : OperatingMode

abbrev pub mode_code : OperatingMode → ℕ
mode_code solo = 0
mode_code mobile_field = 1
mode_code shop = 2

abbrev pub same_mode : OperatingMode → OperatingMode → Bool
same_mode a b = mode_code a == mode_code b

pub data ShopStatus : Type 0 where
  pilot active suspended cancelled : ShopStatus

abbrev pub status_code : ShopStatus → ℕ
status_code pilot = 0
status_code active = 1
status_code suspended = 2
status_code cancelled = 3

abbrev pub same_status : ShopStatus → ShopStatus → Bool
same_status a b = status_code a == status_code b

pub record Shop : Type 0 where
  pub id : ℕ
  pub display_name : String
  pub status : ShopStatus
  pub operating_mode : OperatingMode
  pub operating_mode_confirmed_at : Option ℕ
  pub updated_at : ℕ

pub data SubscriptionTier : Type 0 where
  solo_tier team_tier shop_tier : SubscriptionTier

pub data BillingStatus : Type 0 where
  trialing in_good_standing past_due canceled : BillingStatus

pub record ShopSubscription : Type 0 where
  pub id : ℕ
  pub shop_id : ℕ
  pub tier : SubscriptionTier
  pub billing_status : BillingStatus
  pub seat_limit : Option ℕ
  pub trial_ends_at : Option ℕ
  pub current_period_start : Option ℕ
  pub current_period_end : Option ℕ
  pub grace_period_ends_at : Option ℕ
  pub canceled_at : Option ℕ
  pub square_customer_id : Option String
  pub square_card_id : Option String
  pub square_subscription_id : Option String

-- What `get_subscription` of Square says of its own state, after `upper`.
pub data SquareStatus : Type 0 where
  square_active square_pending square_deactivated square_canceled : SquareStatus
  square_other : String → SquareStatus

-- The kinds of event that are modelled, each with its metadata.
pub data ShopEventKind : Type 0 where
  operating_mode_changed : (from_mode to_mode : OperatingMode) → ShopEventKind
  operating_mode_onboarding_completed :
      (from_mode to_mode : OperatingMode) (changed : Bool) (confirmed_at : ℕ) → ShopEventKind
  trial_started : (ends_at : ℕ) → ShopEventKind
  subscription_grandfathered subscription_canceled : ShopEventKind
  subscription_started : (tier : SubscriptionTier) → ShopEventKind
  tier_changed : (from_tier to_tier : SubscriptionTier) → ShopEventKind
  subscription_refreshed : (square_status : SquareStatus) → ShopEventKind
  shop_suspended shop_reactivated :
      (from_status to_status : ShopStatus) (billing_status : BillingStatus) → ShopEventKind

pub record ShopEvent : Type 0 where
  pub shop_id : ℕ
  pub event_type : ShopEventKind
  pub actor_user_account_id : Option ℕ
  pub actor_name : Option String

instance abbrev pub shop_id : HasId Shop
shop_id = record { id = λ r. r.id }

instance abbrev pub subscription_id : HasId ShopSubscription
subscription_id = record { id = λ r. r.id }
