-- ===== src/Subscriptions.antt =====
-- app/subscription_store.py, with the access status of app/auth.py and the seat limit of
-- app/technician_store.py. Square is a parameter: a client answers or raises, and the date in its
-- answer is taken as parsed. An id that is set is not the empty string.
pub mod Billing
pub mod Seats
pub mod Staffing
pub mod Access
use optimus_os.Base.{
  ℕ, ◌+◌, ◌*◌, String, Bool, true, false, [], ◌∷◌, ◌++◌, Option, none, some, ◌&&◌, ◌==◌, ltb, leb,
  not, if◌then◌else◌,
}
use optimus_os.Base.Table.{scalar, get, save}
use optimus_os.Base.Result.{ok, err, ◌>>=◌, ◌>>◌, guard}
use optimus_os.Errors.{Outcome, seat_limit_reached, access_suspended}
use optimus_os.Db.{Db}
use optimus_os.Db.Accounts.{Technician}
use optimus_os.Db.Shops.{
  Shop, ShopStatus, active, suspended, cancelled, same_status, ShopSubscription, SubscriptionTier,
  solo_tier, team_tier, shop_tier, BillingStatus, in_good_standing, trialing, past_due, canceled,
  ShopEvent, ShopEventKind, shop_suspended, shop_reactivated, shop_id,
}
use optimus_os.Auth.{AuthContext, effective_shop_id, effective_shop_owner_id, resolve_shop_id}
use optimus_os.Capabilities.{count_active_technician_seats}

-- `SUBSCRIPTION_TIERS`, its seats.
abbrev pub tier_seat_limit : SubscriptionTier → Option ℕ
tier_seat_limit solo_tier = some 1
tier_seat_limit team_tier = some 5
tier_seat_limit shop_tier = none

-- `timedelta(span_of_days=n)`
abbrev pub span_of_days : ℕ → ℕ
span_of_days n = n * 86400000000

abbrev pub subscription_of : Db → ℕ → Option ShopSubscription
subscription_of db key = scalar (λ p. p.shop_id == key) db.shop_subscriptions

-- An expiry that is missing is past.
abbrev pub is_over : ℕ → Option ℕ → Bool
is_over now none = true
is_over now (some t) = ltb t now

abbrev pub access_suspended_by : BillingStatus → ShopSubscription → ℕ → Bool
access_suspended_by in_good_standing p now = false
access_suspended_by trialing p now = is_over now p.trial_ends_at
access_suspended_by past_due p now = is_over now p.grace_period_ends_at
access_suspended_by canceled p now = is_over now p.current_period_end

unfoldable pub is_subscription_access_suspended : ShopSubscription → ℕ → Bool
is_subscription_access_suspended p now = access_suspended_by p.billing_status p now

abbrev pub is_canceled : BillingStatus → Bool
is_canceled canceled = true
is_canceled _ = false

-- The status that a shop should have.
unfoldable pub derived_status : ShopSubscription → ℕ → ShopStatus
derived_status p now =
    if is_subscription_access_suspended p now
    then (if is_canceled p.billing_status then cancelled else suspended)
    else active

abbrev pub event : ℕ → Option String → ShopEventKind → ShopEvent
event key actor kind = record {
  shop_id = key;
  event_type = kind;
  actor_user_account_id = none;
  actor_name = actor;
}

unfoldable pub with_status : Shop → ShopSubscription → ℕ → Db → Db
with_status s p now db =
    let next : ShopStatus = derived_status p now in
    if same_status s.status next then db else record db {
      shops = save (record s { status = next; updated_at = now }) db.shops;
      shop_events =
          db.shop_events
          ++ event s.id none (
              (if is_subscription_access_suspended p now then shop_suspended else shop_reactivated)
                s.status next p.billing_status)
            ∷ [];
    }

-- Whether access is suspended, and the state after the cached status was corrected.
unfoldable pub sync_shop_access_status : Shop → ℕ → Db → Bool × Db
sync_shop_access_status s now db = elim (subscription_of db s.id) [
  | none ↦ (true, db)
  | some p ↦ (is_subscription_access_suspended p now, with_status s p now db)
]

-- The gate of every business route. What it corrects stays also when it refuses.
unfoldable pub admit : Option Shop → ℕ → Db → Outcome (Unit {0}) × Db
admit none now db = (err access_suspended, db)
admit (some s) now db =
    let synced : Bool × Db = sync_shop_access_status s now db in
    (guard (not synced.0) access_suspended, synced.1)

unfoldable pub require_shop_access_active : AuthContext → ℕ → Db → Outcome (Unit {0}) × Db
require_shop_access_active auth now db = elim (effective_shop_id db auth) [
  | ok key ↦ admit (get key db.shops) now db
  | err e ↦ (err e, db)
]

abbrev pub has_room : ℕ → Option ℕ → Outcome (Unit {0})
has_room seats none = ok tt
has_room seats (some limit) = guard (ltb seats limit) (seat_limit_reached limit)

unfoldable pub enforce_technician_seat_limit : Db → ℕ → Outcome (Unit {0})
enforce_technician_seat_limit db key = elim (subscription_of db key) [
  | none ↦ ok tt
  | some p ↦ has_room (count_active_technician_seats db key) p.seat_limit
]

-- `create_technician`, the columns that other stores read. What `normalize_technician_fields`
-- raises of the texts of the request is an argument.
unfoldable pub create_technician_work :
    AuthContext → ℕ → Outcome (Unit {0}) → Db → Outcome (Technician × Db)
create_technician_work auth new_id normalized db = do
  key ← resolve_shop_id db auth
  enforce_technician_seat_limit db key
  normalized
  owner_user_id ← effective_shop_owner_id db auth
  let t : Technician = record {
    id = new_id;
    shop_id = key;
    user_account_id = none;
    is_archived = false;
  }
  ok (t, record db { technicians = db.technicians ++ t ∷ [] })
