-- ===== src/Tests/Subscriptions.antt =====
-- The theorems on subscriptions: one technician on a plan of one seat.
use optimus_os.Base.{
  ◌≡◌, refl, String, true, [], ◌∷◌, Option, none, some, some_inj, Bool-cases, inl, inr, ◌==◌, ==_eq,
}
use mathlib.Core.Path.{subst}
use optimus_os.Base.Result.{ok, err}
use optimus_os.Errors.{access_suspended}
use optimus_os.Db.{Db}
use optimus_os.Db.Accounts.{Technician}
use optimus_os.Db.Shops.{ShopSubscription, SubscriptionTier, solo_tier, team_tier, trialing}
use optimus_os.Auth.{effective_shop_id, effective_shop_owner_id, resolve_shop_id}
use optimus_os.Capabilities.{count_active_technician_seats}
use optimus_os.Subscriptions.{
  require_shop_access_active, sync_shop_access_status, admit, is_subscription_access_suspended,
  enforce_technician_seat_limit, create_technician_work,
}
use optimus_os.Subscriptions.Billing.{require_subscription, change_tier_work, repoint}
use optimus_os.Subscriptions.Access.{require_shop_access_active-again}
use optimus_os.Subscriptions.Seats.{within_seats, SeatsFit}
use optimus_os.Subscriptions.Staffing.{SeatHistory-SeatsFit, begin, ◌after◌, hired, tier_changed}
use optimus_os.Tests.{as_owner, allocation, shop_with, plan, value_or}

abbrev solo_plan : ShopSubscription
solo_plan = record plan {
  tier = solo_tier;
  billing_status = trialing;
  seat_limit = some 1;
  trial_ends_at = some 3;
}

abbrev full : Db
full = record (shop_with (allocation 0 0 0)) { shop_subscriptions = solo_plan ∷ [] }

-- The trial is over: the shop is refused, and is suspended from then on.
after_trial : (require_shop_access_active as_owner 5 full).0 ≡ err access_suspended
unfolding require_shop_access_active effective_shop_id admit sync_shop_access_status
    is_subscription_access_suspended
after_trial = refl

require_shop_access_active-again_example :
    require_shop_access_active as_owner 5 (require_shop_access_active as_owner 5 full).1
    ≡ require_shop_access_active as_owner 5 full
require_shop_access_active-again_example = require_shop_access_active-again as_owner 5 full

abbrev no_plans : SubscriptionTier → Option String
no_plans tier = none

abbrev nobody : Technician
nobody = record { id = 0; shop_id = 0; user_account_id = none; is_archived = true }

-- On one seat no one can be hired.
hiring_full :
    value_or (nobody, full) (create_technician_work as_owner 12 (ok tt) full) ≡ (nobody, full)
unfolding create_technician_work resolve_shop_id effective_shop_id enforce_technician_seat_limit
    count_active_technician_seats
hiring_full = refl

abbrev on_team : ShopSubscription × Db
unfolding change_tier_work require_subscription effective_shop_id count_active_technician_seats
    repoint
on_team = value_or (plan, full) (change_tier_work no_plans none as_owner team_tier 6 full)

on_team-eq-ok : change_tier_work no_plans none as_owner team_tier 6 full ≡ ok on_team
unfolding on_team change_tier_work require_subscription effective_shop_id
    count_active_technician_seats repoint
on_team-eq-ok = refl

abbrev two : Technician × Db
unfolding create_technician_work resolve_shop_id effective_shop_id effective_shop_owner_id
    enforce_technician_seat_limit count_active_technician_seats
two = value_or (nobody, full) (create_technician_work as_owner 12 (ok tt) on_team.1)

two-eq-ok : create_technician_work as_owner 12 (ok tt) on_team.1 ≡ ok two
unfolding two on_team change_tier_work require_subscription repoint create_technician_work
    resolve_shop_id effective_shop_id effective_shop_owner_id enforce_technician_seat_limit
    count_active_technician_seats
two-eq-ok = refl

none_not_some : {p : ShopSubscription} → none ≡ some p → ⊥
none_not_some h = cc

full-SeatsFit : SeatsFit full
unfolding count_active_technician_seats
full-SeatsFit = record {
  keys = (refl, tt);
  within = λ key p h. elim (Bool-cases (1 == key)) [
    | inl e ↦
        let is_plan : solo_plan ≡ p = some_inj (rw e at h) in
        subst (λ q. within_seats (count_active_technician_seats full key) q.seat_limit ≡ true)
          is_plan
          (subst (λ k. within_seats (count_active_technician_seats full k) (some 1) ≡ true)
            (==_eq 1 key e) refl)
    | inr e ↦ absurd (none_not_some (rw e at h))
  ];
}

SeatHistory-SeatsFit_example : SeatsFit two.1
SeatHistory-SeatsFit_example =
    SeatHistory-SeatsFit full two.1
      (begin
        after tier_changed no_plans none as_owner team_tier 6 on_team.0 on_team-eq-ok
        after hired as_owner 12 (ok tt) two.0 two-eq-ok)
      full-SeatsFit
