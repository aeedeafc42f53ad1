-- ===== src/Tests/Modes.antt =====
-- The theorems on the operating mode of one shop.
use optimus_os.Base.{ℕ, ◌≡◌, refl, false, List, [], ◌++◌, not, none}
use optimus_os.Base.Table.{save}
use optimus_os.Base.Result.{ok, err}
use optimus_os.Errors.{mode_conflict}
use optimus_os.Db.{Db}
use optimus_os.Db.Shops
use optimus_os.Db.Shops.{OperatingMode, Shop, ShopEvent, solo, shop_id}
use optimus_os.Auth.{effective_shop_id}
use optimus_os.Capabilities.{
  resolve_capabilities, capability_levels_for, count_active_technician_seats,
}
use optimus_os.Modes.{
  apply_work, apply_mode_transition, lock_shop_and_require_mode, with_mode, transition_result,
  preview_mode_transition, ModeTransitionPreview, ModeTransitionResult, count_existing_data,
  Category, capability_changes, would_be_hidden, warnings,
}
use optimus_os.Modes.Apply.{apply_mode_transition-stale, apply_work-apply_work}
use optimus_os.Modes.Preview.{apply_mode_transition-preview}
use optimus_os.Tests.{as_owner, as_manager, allocation, shop_with, landon, value_or}

abbrev db : Db
db = shop_with (allocation 0 0 0)

abbrev to_solo : Shop × Db
unfolding apply_work lock_shop_and_require_mode with_mode effective_shop_id
to_solo = value_or (landon, db) (apply_work as_owner Shops.shop solo 5 db)

to_solo-eq-ok : apply_work as_owner Shops.shop solo 5 db ≡ ok to_solo
unfolding to_solo apply_work lock_shop_and_require_mode with_mode effective_shop_id
to_solo-eq-ok = refl

abbrev and_back : Shop × Db
unfolding apply_work lock_shop_and_require_mode with_mode effective_shop_id
and_back = value_or (landon, db) (apply_work as_manager solo Shops.shop 6 to_solo.1)

and_back-eq-ok : apply_work as_manager solo Shops.shop 6 to_solo.1 ≡ ok and_back
unfolding to_solo and_back apply_work lock_shop_and_require_mode with_mode effective_shop_id
and_back-eq-ok = refl

manager_of_shop : effective_shop_id db as_manager ≡ ok to_solo.0.id
unfolding to_solo apply_work lock_shop_and_require_mode with_mode effective_shop_id
manager_of_shop = refl

apply_mode_transition-stale_example :
    apply_mode_transition as_manager Shops.shop Shops.mobile_field 6 to_solo.1
    ≡ (err (mode_conflict solo Shops.shop), to_solo.1)
apply_mode_transition-stale_example =
    apply_mode_transition-stale as_owner as_manager Shops.shop solo Shops.mobile_field 5 6 db
      to_solo.0 to_solo.1 to_solo-eq-ok manager_of_shop refl

apply_work-apply_work_example :
    (es : List ShopEvent) × (and_back.1 ≡ record db {
      shops = save (record to_solo.0 { updated_at = 6 }) db.shops;
      shop_events = db.shop_events ++ es;
    })
apply_work-apply_work_example =
    apply_work-apply_work as_owner as_manager Shops.shop solo 5 6 db to_solo.0 and_back.0 to_solo.1
      and_back.1 to_solo-eq-ok manager_of_shop and_back-eq-ok

abbrev no_preview : ModeTransitionPreview
no_preview = record {
  current_mode = solo;
  proposed_mode = solo;
  is_noop = false;
  capability_changes = [];
  would_be_hidden = [];
  retained_data_categories = [];
  warnings = [];
}

abbrev previewed : ModeTransitionPreview
unfolding preview_mode_transition effective_shop_id capability_levels_for count_existing_data
    capability_changes would_be_hidden warnings
previewed = value_or no_preview (preview_mode_transition db as_owner solo)

previewed-eq-ok : preview_mode_transition db as_owner solo ≡ ok previewed
unfolding previewed preview_mode_transition effective_shop_id capability_levels_for
    count_existing_data capability_changes would_be_hidden warnings
previewed-eq-ok = refl

abbrev no_result : ModeTransitionResult
no_result = record {
  previous_mode = solo;
  new_mode = solo;
  changed = false;
  capability_changes = [];
  capabilities = record {
    operating_mode = solo;
    tier = Shops.solo_tier;
    role = as_owner.user.role;
    seat_limit = none;
    seats_used = 0;
    capabilities = [];
  };
}

abbrev answered : ModeTransitionResult
unfolding apply_mode_transition apply_work lock_shop_and_require_mode with_mode transition_result
    effective_shop_id resolve_capabilities capability_levels_for count_active_technician_seats
    capability_changes
answered = value_or no_result (apply_mode_transition as_owner Shops.shop solo 5 db).0

answered-eq-ok :
    apply_mode_transition as_owner previewed.current_mode solo 5 db ≡ (ok answered, to_solo.1)
unfolding answered previewed to_solo preview_mode_transition apply_mode_transition apply_work
    lock_shop_and_require_mode with_mode transition_result effective_shop_id resolve_capabilities
    capability_levels_for count_active_technician_seats capability_changes
answered-eq-ok = refl

apply_mode_transition-preview_example :
    (answered.capability_changes ≡ previewed.capability_changes)
    × (answered.changed ≡ not previewed.is_noop)
    × (answered.capabilities.operating_mode ≡ solo)
    × ((key : ℕ) (k : Category)
        → count_existing_data to_solo.1 key k ≡ count_existing_data db key k)
apply_mode_transition-preview_example =
    apply_mode_transition-preview as_owner solo db previewed answered 5 to_solo.1 previewed-eq-ok
      answered-eq-ok
