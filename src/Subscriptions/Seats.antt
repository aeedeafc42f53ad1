-- ===== src/Subscriptions/Seats.antt =====
-- No shop holds more technicians than the seats of its subscription.
use optimus_os.Base.{
  ℕ, ◌≡◌, refl, ◌∙◌, sym, ap, String, Bool, true, Option, some, none, some_inj, Bool-cases, inl,
  inr, ◌==◌, ==_eq, leb, is_some, is_none, ◌&&◌,
}
use mathlib.Core.Path.{subst}
use optimus_os.Base.Table.{
  scalar, scalar_sound, get, save, Unique, get-scalar, save-Unique, scalar-save, scalar-save_miss,
}
use optimus_os.Base.Result.{
  ok, >>=-eq-ok, guard, guard-eq-ok, require, require-eq-ok, ok_pair_inj, ok_unique,
}
use optimus_os.Errors.{
  no_subscription_record, payment_method_missing, already_subscribed, nothing_to_refresh,
  tier_not_billable, too_many_seats,
}
use optimus_os.Db.{Db}
use optimus_os.Db.Shops.{
  Shop, ShopSubscription, ShopEvent, SquareStatus, square_active, square_pending,
  square_deactivated, square_canceled, square_other, SubscriptionTier, solo_tier, team_tier,
  shop_tier, shop_id, subscription_id,
}
use optimus_os.Auth.{AuthContext, effective_shop_id}
use optimus_os.Capabilities.{count_active_technician_seats}
use optimus_os.Subscriptions.{subscription_of, tier_seat_limit}
use optimus_os.Subscriptions.Billing.{
  require_subscription, fits_tier, change_tier_work, subscribe_work, cancel_subscription_work,
  refresh_work, refreshed, late, is_past_due, with_square_status, period_end, repoint, repoint_from,
  save_subscription, SquareClient, Reported, resubscribe_key, subscribe_key, cancel_at_square,
}

-- The seats in use are within a limit, where there is one.
abbrev pub within_seats : ℕ → Option ℕ → Bool
within_seats seats none = true
within_seats seats (some limit) = leb seats limit

pub record SeatsFit (db : Db) : Type 0 where
  pub keys : Unique db.shop_subscriptions
  pub within :
      (key : ℕ) (p : ShopSubscription)
      → subscription_of db key ≡ some p
      → within_seats (count_active_technician_seats db key) p.seat_limit ≡ true

-- A subscription that is written back keeps the seats within the limits if its own limit does.
save_subscription-SeatsFit :
    (key : ℕ) (p p' : ShopSubscription) (e : ShopEvent) (db : Db)
    → SeatsFit db
    → subscription_of db key ≡ some p
    → p'.id ≡ p.id
    → p'.shop_id ≡ p.shop_id
    → within_seats (count_active_technician_seats db key) p'.seat_limit ≡ true
    → SeatsFit (save_subscription p' e db)
unfolding count_active_technician_seats
save_subscription-SeatsFit key p p' e db sound found same same_shop fit = record {
  keys = save-Unique p' db.shop_subscriptions sound.keys;
  within = λ k q h.
      let here : (p.shop_id == key) ≡ true = scalar_sound (λ r. r.shop_id == key) _ p found in
      let row : get p'.id db.shop_subscriptions ≡ some p =
        subst (λ n. get n db.shop_subscriptions ≡ some p) (sym same)
          (get-scalar (λ r. r.shop_id == key) _ p sound.keys found) in
      elim (Bool-cases (p.shop_id == k)) [
        | inl on ↦
            let keys_same : key ≡ k = sym (==_eq _ _ here) ∙ ==_eq _ _ on in
            let stored : scalar (λ r. r.shop_id == k) (save p' db.shop_subscriptions) ≡ some p' =
              scalar-save (λ r. r.shop_id == k) db.shop_subscriptions p p' sound.keys
                (subst (λ n. subscription_of db n ≡ some p) keys_same found) same
                (rw same_shop on) in
            let is_row : p' ≡ q = some_inj (sym stored ∙ h) in
            subst (λ r. within_seats (count_active_technician_seats db k) r.seat_limit ≡ true)
              is_row
              (subst (λ n. within_seats (count_active_technician_seats db n) p'.seat_limit ≡ true)
                keys_same fit)
        | inr off ↦ sound.within k q (
            sym (
              scalar-save_miss (λ r. r.shop_id == k) p' p db.shop_subscriptions row off
                (rw same_shop off))
            ∙ h)
      ];
}

fits_tier-within_seats :
    (seats : ℕ) (tier : SubscriptionTier)
    → fits_tier seats tier ≡ true
    → within_seats seats (tier_seat_limit tier) ≡ true
fits_tier-within_seats seats solo_tier h = h
fits_tier-within_seats seats team_tier h = h
fits_tier-within_seats seats shop_tier h = h

require_subscription-found :
    (db : Db) (auth : AuthContext) (s : Shop) (p : ShopSubscription)
    → require_subscription db auth ≡ ok (s, p)
    → subscription_of db s.id ≡ some p
unfolding require_subscription
require_subscription-found db auth s p h =
    let (key, own, h₁) = >>=-eq-ok (effective_shop_id db auth) _ _ h in
    let (t, row, h₂) = >>=-eq-ok (require (get key db.shops) no_subscription_record) _ _ h₁ in
    let (q, found, h₃) =
      >>=-eq-ok (require (subscription_of db t.id) no_subscription_record) _ _ h₂ in
    let (same, same_sub) = ok_pair_inj _ t s q p refl h₃ in
    subst (λ x. subscription_of db x.id ≡ some p) same
      (require-eq-ok _ no_subscription_record q found ∙ ap some same_sub)

-- Square may change what it is paid by, not whose subscription it is.
repoint_from_keeps :
    (plans : SubscriptionTier → Option String) (client : SquareClient) (tier : SubscriptionTier)
    (now : ℕ) (p q : ShopSubscription) (at : Option String)
    → repoint_from plans client tier now p at ≡ ok q
    → (q.id ≡ p.id) × (q.shop_id ≡ p.shop_id)
unfolding repoint_from
repoint_from_keeps plans client tier now p q none h =
    let same : p ≡ q = ok_unique refl h in
    (ap (λ r. r.id) (sym same), ap (λ r. r.shop_id) (sym same))
repoint_from_keeps plans client tier now p q (some square_id) h =
    let (plan, e₁, h₁) = >>=-eq-ok (require (plans tier) (tier_not_billable tier)) _ _ h in
    let (u, e₂, h₂) = >>=-eq-ok (client.cancel_subscription square_id) _ _ h₁ in
    let (created, e₃, h₃) =
      >>=-eq-ok
        (client.create_subscription (resubscribe_key p.shop_id tier) p.square_customer_id
          p.square_card_id plan)
        _ _ h₂ in
    let same = ok_unique refl h₃ in (ap (λ r. r.id) (sym same), ap (λ r. r.shop_id) (sym same))

repoint_keeps :
    (plans : SubscriptionTier → Option String) (client : Option SquareClient)
    (tier : SubscriptionTier) (now : ℕ) (p q : ShopSubscription)
    → repoint plans client tier now p ≡ ok q
    → (q.id ≡ p.id) × (q.shop_id ≡ p.shop_id)
unfolding repoint
repoint_keeps plans none tier now p q h =
    let same : p ≡ q = ok_unique refl h in
    (ap (λ r. r.id) (sym same), ap (λ r. r.shop_id) (sym same))
repoint_keeps plans (some client) tier now p q h =
    repoint_from_keeps plans client tier now p q p.square_subscription_id h

pub change_tier_work-SeatsFit :
    (plans : SubscriptionTier → Option String) (client : Option SquareClient) (auth : AuthContext)
    (tier : SubscriptionTier) (now : ℕ) (db : Db) (p' : ShopSubscription) (db' : Db)
    → change_tier_work plans client auth tier now db ≡ ok (p', db')
    → SeatsFit db
    → SeatsFit db'
unfolding change_tier_work
change_tier_work-SeatsFit plans client auth tier now db p' db' h sound =
    let (t, found, h₁) = >>=-eq-ok (require_subscription db auth) _ _ h in
    let seats : ℕ = count_active_technician_seats db t.0.id in
    let (u, room, h₂) =
      >>=-eq-ok (guard (fits_tier seats tier) (too_many_seats seats tier)) _ _ h₁ in
    let (q, pointed, h₃) = >>=-eq-ok (repoint plans client tier now t.1) _ _ h₂ in
    let (same_id, same_shop) = repoint_keeps plans client tier now t.1 q pointed in
    let r : ShopSubscription = record q { tier = tier; seat_limit = tier_seat_limit tier } in
    let (row, state) = ok_pair_inj _ r p' _ db' refl h₃ in
    subst SeatsFit state (
      save_subscription-SeatsFit t.0.id t.1 r _ db sound
        (require_subscription-found db auth t.0 t.1 found) same_id same_shop
        (fits_tier-within_seats seats tier (guard-eq-ok _ _ room)))

pub subscribe_work-SeatsFit :
    (plans : SubscriptionTier → Option String) (client : SquareClient) (auth : AuthContext)
    (tier : SubscriptionTier) (now : ℕ) (db : Db) (p' : ShopSubscription) (db' : Db)
    → subscribe_work plans client auth tier now db ≡ ok (p', db')
    → SeatsFit db
    → SeatsFit db'
unfolding subscribe_work
subscribe_work-SeatsFit plans client auth tier now db p' db' h sound =
    let (t, found, h₁) = >>=-eq-ok (require_subscription db auth) _ _ h in
    let p : ShopSubscription = t.1 in
    let seats : ℕ = count_active_technician_seats db t.0.id in
    let (u₂, e₂, h₂) =
      >>=-eq-ok
        (guard (is_some p.square_customer_id && is_some p.square_card_id) payment_method_missing) _
        _ h₁ in
    let (u₃, e₃, h₃) =
      >>=-eq-ok (guard (is_none p.square_subscription_id) already_subscribed) _ _ h₂ in
    let (plan, e₄, h₄) = >>=-eq-ok (require (plans tier) (tier_not_billable tier)) _ _ h₃ in
    let (u₅, room, h₅) =
      >>=-eq-ok (guard (fits_tier seats tier) (too_many_seats seats tier)) _ _ h₄ in
    let (created, e₆, h₆) =
      >>=-eq-ok
        (client.create_subscription (subscribe_key t.0.id tier) p.square_customer_id
          p.square_card_id plan)
        _ _ h₅ in
    let (row, state) = ok_pair_inj _ _ p' _ db' refl h₆ in
    subst SeatsFit state (
      save_subscription-SeatsFit t.0.id p _ _ db sound
        (require_subscription-found db auth t.0 p found) refl refl
        (fits_tier-within_seats seats tier (guard-eq-ok _ _ room)))

pub cancel_subscription_work-SeatsFit :
    (client : Option SquareClient) (auth : AuthContext) (now : ℕ) (db : Db) (p' : ShopSubscription)
    (db' : Db)
    → cancel_subscription_work client auth now db ≡ ok (p', db')
    → SeatsFit db
    → SeatsFit db'
unfolding cancel_subscription_work
cancel_subscription_work-SeatsFit client auth now db p' db' h sound =
    let (t, found, h₁) = >>=-eq-ok (require_subscription db auth) _ _ h in
    let (u₂, e₂, h₂) = >>=-eq-ok (cancel_at_square client (t.1).square_subscription_id) _ _ h₁ in
    let (row, state) = ok_pair_inj _ _ p' _ db' refl h₂ in
    let here = require_subscription-found db auth t.0 t.1 found in
    subst SeatsFit state (
      save_subscription-SeatsFit t.0.id t.1 _ _ db sound here refl refl
        (sound.within t.0.id t.1 here))

abbrev Same : ShopSubscription → ShopSubscription → Type 0
Same q p = (q.id ≡ p.id) × (q.shop_id ≡ p.shop_id) × (q.seat_limit ≡ p.seat_limit)

late_keeps : (now : ℕ) (p : ShopSubscription) → Same (late now p) p
late_keeps now p = elim (Bool-cases (is_past_due p.billing_status)) [
  | inl e ↦ rw e (refl, refl, refl)
  | inr e ↦ rw e (refl, refl, refl)
]

with_square_status_keeps :
    (status : SquareStatus) (now : ℕ) (p : ShopSubscription)
    → Same (with_square_status status now p) p
unfolding with_square_status
with_square_status_keeps square_active now p = (refl, refl, refl)
with_square_status_keeps square_pending now p = late_keeps now p
with_square_status_keeps square_deactivated now p = late_keeps now p
with_square_status_keeps square_canceled now p = (refl, refl, refl)
with_square_status_keeps (square_other text) now p = (refl, refl, refl)

refreshed_keeps :
    (report : Reported) (now : ℕ) (p : ShopSubscription) → Same (refreshed report now p) p
unfolding refreshed
refreshed_keeps report now p =
    with_square_status_keeps report.status now
      (record p { current_period_end = period_end report.charged_through p.current_period_end })

pub refresh_work-SeatsFit :
    (client : SquareClient) (auth : AuthContext) (now : ℕ) (db : Db) (p' : ShopSubscription)
    (db' : Db)
    → refresh_work client auth now db ≡ ok (p', db')
    → SeatsFit db
    → SeatsFit db'
unfolding refresh_work
refresh_work-SeatsFit client auth now db p' db' h sound =
    let (t, found, h₁) = >>=-eq-ok (require_subscription db auth) _ _ h in
    let p : ShopSubscription = t.1 in
    let (square_id, e₂, h₂) =
      >>=-eq-ok (require p.square_subscription_id nothing_to_refresh) _ _ h₁ in
    let (report, e₃, h₃) = >>=-eq-ok (client.get_subscription square_id) _ _ h₂ in
    let (row, state) = ok_pair_inj _ _ p' _ db' refl h₃ in
    let here = require_subscription-found db auth t.0 p found in
    let (same_id, same_shop, same_limit) = refreshed_keeps report now p in
    subst SeatsFit state (
      save_subscription-SeatsFit t.0.id p (refreshed report now p) _ db sound here same_id same_shop
        (rw same_limit (sound.within t.0.id p here)))
