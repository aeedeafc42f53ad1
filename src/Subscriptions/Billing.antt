-- ===== src/Subscriptions/Billing.antt =====
-- The operations of app/subscription_store.py on the subscription of a shop.
use optimus_os.Base.{
  ℕ, ◌+◌, String, Bool, true, false, [], ◌∷◌, ◌++◌, Option, none, some, ◌&&◌, leb, is_some, is_none,
  or_else, if◌then◌else◌,
}
use optimus_os.Base.Table.{get, save}
use optimus_os.Base.Result.{ok, ◌>>=◌, ◌>>◌, require, guard}
use optimus_os.Errors.{
  Outcome, no_subscription_record, payment_method_missing, already_subscribed, nothing_to_refresh,
  tier_not_billable, too_many_seats,
}
use optimus_os.Db.{Db}
use optimus_os.Db.Shops.{
  Shop, ShopSubscription, SubscriptionTier, solo_tier, shop_tier, BillingStatus, in_good_standing,
  trialing, past_due, canceled, ShopEvent, trial_started, subscription_grandfathered,
  subscription_canceled, subscription_started, tier_changed, subscription_refreshed, SquareStatus,
  square_active, square_pending, square_deactivated, square_canceled, square_other, shop_id,
  subscription_id,
}
use optimus_os.Auth.{AuthContext, effective_shop_id}
use optimus_os.Capabilities.{count_active_technician_seats}
use optimus_os.Subscriptions.{tier_seat_limit, span_of_days, subscription_of, event}

-- The two idempotency keys, `shop-{id}:subscribe:{tier}` and `shop-{id}:resubscribe:{tier}`.
pub data IdempotencyKey : Type 0 where
  subscribe_key resubscribe_key : (shop : ℕ) → (tier : SubscriptionTier) → IdempotencyKey

pub record Created : Type 0 where
  pub id : String
  pub charged_through : Option ℕ

pub record Reported : Type 0 where
  pub status : SquareStatus
  pub charged_through : Option ℕ

-- `SquareSubscriptionClient`: customer, card and plan are what it is given.
pub record SquareClient : Type 0 where
  pub create_subscription :
      IdempotencyKey → Option String → Option String → String → Outcome Created
  pub cancel_subscription : String → Outcome (Unit {0})
  pub get_subscription : String → Outcome Reported

-- `_require_subscription`
unfoldable pub require_subscription : Db → AuthContext → Outcome (Shop × ShopSubscription)
require_subscription db auth = do
  key ← effective_shop_id db auth
  s ← require (get key db.shops) no_subscription_record
  p ← require (subscription_of db s.id) no_subscription_record
  ok (s, p)

abbrev pub new_subscription : ℕ → ℕ → SubscriptionTier → BillingStatus → Option ℕ → ShopSubscription
new_subscription new_id key tier status trial_ends_at = record {
  id = new_id;
  shop_id = key;
  tier = tier;
  billing_status = status;
  seat_limit = tier_seat_limit tier;
  trial_ends_at = trial_ends_at;
  current_period_start = none;
  current_period_end = none;
  grace_period_ends_at = none;
  canceled_at = none;
  square_customer_id = none;
  square_card_id = none;
  square_subscription_id = none;
}

abbrev pub add_subscription : ShopSubscription → ShopEvent → Db → Db
add_subscription p e db = record db {
  shop_subscriptions = db.shop_subscriptions ++ p ∷ [];
  shop_events = db.shop_events ++ e ∷ [];
}

unfoldable pub start_trial : ℕ → ℕ → ℕ → Db → ShopSubscription × Db
start_trial new_id key now db =
    let ends_at : ℕ = now + span_of_days 14 in
    let p : ShopSubscription = new_subscription new_id key solo_tier trialing (some ends_at) in
    (p, add_subscription p (event key none (trial_started ends_at)) db)

unfoldable pub grandfather_subscription : ℕ → ℕ → String → Db → ShopSubscription × Db
grandfather_subscription new_id key actor db =
    let p : ShopSubscription = new_subscription new_id key shop_tier in_good_standing none in
    (p, add_subscription p (event key (some actor) subscription_grandfathered) db)

-- The seats that are in use fit the tier.
abbrev pub fits_tier : ℕ → SubscriptionTier → Bool
fits_tier seats tier = elim (tier_seat_limit tier) [ none ↦ true | some limit ↦ leb seats limit ]

abbrev pub save_subscription : ShopSubscription → ShopEvent → Db → Db
save_subscription p e db = record db {
  shop_subscriptions = save p db.shop_subscriptions;
  shop_events = db.shop_events ++ e ∷ [];
}

-- The new subscription at Square in place of the old one, where there is one.
unfoldable pub repoint_from :
    (SubscriptionTier → Option String)
    → SquareClient
    → SubscriptionTier
    → ℕ
    → ShopSubscription
    → Option String
    → Outcome ShopSubscription
repoint_from plans client tier now p none = ok p
repoint_from plans client tier now p (some square_id) = do
  plan ← require (plans tier) (tier_not_billable tier)
  client.cancel_subscription square_id
  created ←
      client.create_subscription (resubscribe_key p.shop_id tier) p.square_customer_id
        p.square_card_id plan
  ok (record p {
    square_subscription_id = some created.id;
    current_period_start = some now;
    current_period_end = created.charged_through;
  })

unfoldable pub repoint :
    (SubscriptionTier → Option String)
    → Option SquareClient
    → SubscriptionTier
    → ℕ
    → ShopSubscription
    → Outcome ShopSubscription
repoint plans none tier now p = ok p
repoint plans (some client) tier now p =
    repoint_from plans client tier now p p.square_subscription_id

unfoldable pub change_tier_work :
    (SubscriptionTier → Option String)
    → Option SquareClient
    → AuthContext
    → SubscriptionTier
    → ℕ
    → Db
    → Outcome (ShopSubscription × Db)
change_tier_work plans client auth tier now db = do
  (s, p) ← require_subscription db auth
  let seats : ℕ = count_active_technician_seats db s.id
  guard (fits_tier seats tier) (too_many_seats seats tier)
  q ← repoint plans client tier now p
  let p' : ShopSubscription = record q { tier = tier; seat_limit = tier_seat_limit tier }
  ok (p', save_subscription p' (event s.id (some auth.user.username) (tier_changed p.tier tier)) db)

unfoldable pub subscribe_work :
    (SubscriptionTier → Option String)
    → SquareClient
    → AuthContext
    → SubscriptionTier
    → ℕ
    → Db
    → Outcome (ShopSubscription × Db)
subscribe_work plans client auth tier now db = do
  (s, p) ← require_subscription db auth
  guard (is_some p.square_customer_id && is_some p.square_card_id) payment_method_missing
  guard (is_none p.square_subscription_id) already_subscribed
  plan ← require (plans tier) (tier_not_billable tier)
  let seats : ℕ = count_active_technician_seats db s.id
  guard (fits_tier seats tier) (too_many_seats seats tier)
  created ←
      client.create_subscription (subscribe_key s.id tier) p.square_customer_id p.square_card_id
        plan
  let p' : ShopSubscription = record p {
    tier = tier;
    seat_limit = tier_seat_limit tier;
    billing_status = in_good_standing;
    square_subscription_id = some created.id;
    trial_ends_at = none;
    grace_period_ends_at = none;
    current_period_start = some now;
    current_period_end = created.charged_through;
  }
  ok (
    p',
    save_subscription p' (event s.id (some auth.user.username) (subscription_started tier)) db,
  )

-- The call of Square at a cancellation, where there is something to cancel.
abbrev pub cancel_at_square : Option SquareClient → Option String → Outcome (Unit {0})
cancel_at_square (some client) (some square_id) = client.cancel_subscription square_id
cancel_at_square _ _ = ok tt

unfoldable pub cancel_subscription_work :
    Option SquareClient → AuthContext → ℕ → Db → Outcome (ShopSubscription × Db)
cancel_subscription_work client auth now db = do
  (s, p) ← require_subscription db auth
  cancel_at_square client p.square_subscription_id
  let p' : ShopSubscription = record p {
    billing_status = canceled;
    canceled_at = some now;
    current_period_end = some (or_else p.current_period_end now);
  }
  ok (p', save_subscription p' (event s.id (some auth.user.username) subscription_canceled) db)

abbrev pub is_past_due : BillingStatus → Bool
is_past_due past_due = true
is_past_due _ = false

-- A payment that is late starts the grace period once.
abbrev pub late : ℕ → ShopSubscription → ShopSubscription
late now p =
    if is_past_due p.billing_status
    then p
    else record p { billing_status = past_due; grace_period_ends_at = some (now + span_of_days 7) }

unfoldable pub with_square_status : SquareStatus → ℕ → ShopSubscription → ShopSubscription
with_square_status square_active now p = record p {
  billing_status = in_good_standing;
  grace_period_ends_at = none;
}
with_square_status square_pending now p = late now p
with_square_status square_deactivated now p = late now p
with_square_status square_canceled now p = record p { billing_status = canceled }
with_square_status (square_other text) now p = p

abbrev pub period_end : Option ℕ → Option ℕ → Option ℕ
period_end none old = old
period_end (some t) old = some t

unfoldable pub refreshed : Reported → ℕ → ShopSubscription → ShopSubscription
refreshed report now p =
    with_square_status report.status now
      (record p { current_period_end = period_end report.charged_through p.current_period_end })

unfoldable pub refresh_work : SquareClient → AuthContext → ℕ → Db → Outcome (ShopSubscription × Db)
refresh_work client auth now db = do
  (s, p) ← require_subscription db auth
  square_id ← require p.square_subscription_id nothing_to_refresh
  report ← client.get_subscription square_id
  let p' : ShopSubscription = refreshed report now p
  ok (
    p',
    save_subscription p'
        (event s.id (some auth.user.username) (subscription_refreshed report.status)) db,
  )
