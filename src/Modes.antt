-- ===== src/Modes.antt =====
-- app/mode_transition_store.py: the preview of a change of the operating mode, the change, and the
-- first choice of a mode after signup.
pub mod Apply
pub mod Preview
use optimus_os.Base.{
  ℕ, ◌≡◌, String, Bool, true, false, List, [], ◌∷◌, ◌++◌, Option, none, some, map, ◌&&◌, ◌||◌, ◌==◌,
  ltb, leb, not, filter, length, if◌then◌else◌, is_none,
}
use optimus_os.Base.Table.{get, save}
use optimus_os.Base.Result.{ok, ◌>>=◌, ◌>>◌, require, guard, transaction}
use optimus_os.Errors.{Outcome, shop_not_found, mode_conflict}
use optimus_os.Db.{Db}
use optimus_os.Db.Shops.{
  OperatingMode, same_mode, Shop, ShopEvent, ShopEventKind, operating_mode_changed,
  operating_mode_onboarding_completed, shop_id,
}
use optimus_os.Auth.{AuthContext, effective_shop_id}
use optimus_os.Capabilities.{
  CapabilityId, CapabilityLevel, full, limited, hidden, not_applicable, Levels, capability_ids,
  capability_levels_for, CapabilitiesRead, resolve_capabilities, bays, technicians, scheduling,
}

-- `_RANK`
abbrev pub rank : CapabilityLevel → ℕ
rank full = 3
rank limited = 2
rank hidden = 1
rank not_applicable = 0

-- `_UNAVAILABLE`
abbrev pub is_unavailable : CapabilityLevel → Bool
is_unavailable hidden = true
is_unavailable not_applicable = true
is_unavailable _ = false

pub data Category : Type 0 where
  bay_rows technician_rows appointment_rows working_hours_rows schedule_block_rows : Category

abbrev pub categories : List Category
categories =
    bay_rows ∷ technician_rows ∷ appointment_rows ∷ working_hours_rows ∷ schedule_block_rows ∷ []

-- `_CATEGORY_CAPABILITY`
abbrev pub category_capability : Category → CapabilityId
category_capability bay_rows = bays
category_capability technician_rows = technicians
category_capability appointment_rows = scheduling
category_capability working_hours_rows = scheduling
category_capability schedule_block_rows = scheduling

unfoldable pub count_existing_data : Db → ℕ → Category → ℕ
count_existing_data db key bay_rows =
    length (filter (λ b. b.shop_id == key && not b.is_archived) db.bays)
count_existing_data db key technician_rows =
    length (filter (λ t. t.shop_id == key && not t.is_archived) db.technicians)
count_existing_data db key appointment_rows =
    length (filter (λ a. a.shop_id == key) db.appointments)
count_existing_data db key working_hours_rows =
    length (filter (λ h. h.shop_id == key) db.working_hours)
count_existing_data db key schedule_block_rows =
    length (filter (λ b. b.shop_id == key) db.schedule_blocks)

pub record CapabilityChange : Type 0 where
  pub id : CapabilityId
  pub from_level : CapabilityLevel
  pub to_level : CapabilityLevel

unfoldable pub capability_changes : Levels → Levels → List CapabilityChange
capability_changes current proposed =
    map (λ c. record { id = c; from_level = current c; to_level = proposed c })
      (filter (λ c. not (rank (current c) == rank (proposed c))) capability_ids)

unfoldable pub would_be_hidden : Levels → Levels → List CapabilityId
would_be_hidden current proposed =
    filter (λ c. is_unavailable (proposed c) && not (is_unavailable (current c))) capability_ids

-- A warning but for its text, which follows from the rest.
pub record Warning : Type 0 where
  pub category : Category
  pub count : ℕ
  pub from_level : CapabilityLevel
  pub to_level : CapabilityLevel

unfoldable pub warnings : Levels → Levels → (Category → ℕ) → List Warning
warnings current proposed counts =
    map
      (λ k. record {
        category = k;
        count = counts k;
        from_level = current (category_capability k);
        to_level = proposed (category_capability k);
      })
      (filter
        (λ k. not (
          leb (counts k) 0
          || leb (rank (current (category_capability k)))
              (rank (proposed (category_capability k)))))
        categories)

pub record ModeTransitionPreview : Type 0 where
  pub current_mode : OperatingMode
  pub proposed_mode : OperatingMode
  pub is_noop : Bool
  pub capability_changes : List CapabilityChange
  pub would_be_hidden : List CapabilityId
  pub retained_data_categories : List Category
  pub warnings : List Warning

unfoldable pub preview_mode_transition :
    Db → AuthContext → OperatingMode → Outcome ModeTransitionPreview
preview_mode_transition db auth proposed = do
  key ← effective_shop_id db auth
  s ← require (get key db.shops) shop_not_found
  let current : Levels = capability_levels_for s.operating_mode auth.user.role
  let next : Levels = capability_levels_for proposed auth.user.role
  let counts : Category → ℕ = count_existing_data db key
  ok (record {
    current_mode = s.operating_mode;
    proposed_mode = proposed;
    is_noop = same_mode s.operating_mode proposed;
    capability_changes = capability_changes current next;
    would_be_hidden = would_be_hidden current next;
    retained_data_categories = filter (λ k. ltb 0 (counts k)) categories;
    warnings = warnings current next counts;
  })

unfoldable pub lock_shop_and_require_mode : Db → AuthContext → OperatingMode → Outcome Shop
lock_shop_and_require_mode db auth expected = do
  key ← effective_shop_id db auth
  s ← require (get key db.shops) shop_not_found
  guard (same_mode s.operating_mode expected) (mode_conflict s.operating_mode expected)
  ok s

abbrev pub event_of : AuthContext → Shop → ShopEventKind → ShopEvent
event_of auth s kind = record {
  shop_id = s.id;
  event_type = kind;
  actor_user_account_id = some auth.user.id;
  actor_name = some auth.user.username;
}

-- The state after a change of the mode, with its event. `onupdate` dates the row with the time `now`
-- of the transaction.
unfoldable pub with_mode : AuthContext → Shop → OperatingMode → ℕ → Db → Db
with_mode auth s proposed now db = if same_mode proposed s.operating_mode then db else record db {
  shops = save (record s { operating_mode = proposed; updated_at = now }) db.shops;
  shop_events =
      db.shop_events ++ event_of auth s (operating_mode_changed s.operating_mode proposed) ∷ [];
}

-- The shop as it was is kept for the response.
unfoldable pub apply_work :
    AuthContext → OperatingMode → OperatingMode → ℕ → Db → Outcome (Shop × Db)
apply_work auth expected proposed now db = do
  s ← lock_shop_and_require_mode db auth expected
  ok (s, with_mode auth s proposed now db)

pub record ModeTransitionResult : Type 0 where
  pub previous_mode : OperatingMode
  pub new_mode : OperatingMode
  pub changed : Bool
  pub capability_changes : List CapabilityChange
  pub capabilities : CapabilitiesRead

unfoldable pub transition_result :
    AuthContext → OperatingMode → Shop → Db → Outcome ModeTransitionResult
transition_result auth proposed s db = do
  capabilities ← resolve_capabilities db auth
  ok (record {
    previous_mode = s.operating_mode;
    new_mode = proposed;
    changed = not (same_mode proposed s.operating_mode);
    capability_changes =
        capability_changes (capability_levels_for s.operating_mode auth.user.role)
          (capability_levels_for proposed auth.user.role);
    capabilities = capabilities;
  })

unfoldable pub apply_mode_transition :
    AuthContext → OperatingMode → OperatingMode → ℕ → Db → Outcome ModeTransitionResult × Db
apply_mode_transition auth expected proposed now =
    transaction (apply_work auth expected proposed now) (transition_result auth proposed)

pub record ModeOnboardingStatus : Type 0 where
  pub needs_onboarding : Bool
  pub operating_mode : OperatingMode
  pub confirmed_at : Option ℕ

unfoldable pub get_mode_onboarding_status : Db → AuthContext → Outcome ModeOnboardingStatus
get_mode_onboarding_status db auth = do
  key ← effective_shop_id db auth
  s ← require (get key db.shops) shop_not_found
  ok (record {
    needs_onboarding = is_none s.operating_mode_confirmed_at;
    operating_mode = s.operating_mode;
    confirmed_at = s.operating_mode_confirmed_at;
  })

unfoldable pub complete_work :
    AuthContext → OperatingMode → OperatingMode → ℕ → Db → Outcome (Shop × Db)
complete_work auth expected proposed now db = do
  s ← lock_shop_and_require_mode db auth expected
  let changed : Bool = not (same_mode proposed s.operating_mode)
  let s' : Shop = record s {
    operating_mode = if changed then proposed else s.operating_mode;
    operating_mode_confirmed_at = some now;
    updated_at = now;
  }
  let e : ShopEventKind = operating_mode_onboarding_completed s.operating_mode proposed changed now
  ok (
    s,
    record db { shops = save s' db.shops; shop_events = db.shop_events ++ event_of auth s e ∷ [] },
  )

pub record ModeOnboardingResult : Type 0 where
  pub transition : ModeTransitionResult
  pub confirmed_at : ℕ

unfoldable pub onboarding_result :
    AuthContext → OperatingMode → ℕ → Shop → Db → Outcome ModeOnboardingResult
onboarding_result auth proposed now s db = do
  r ← transition_result auth proposed s db
  ok (record { transition = r; confirmed_at = now })

unfoldable pub complete_mode_onboarding :
    AuthContext → OperatingMode → OperatingMode → ℕ → Db → Outcome ModeOnboardingResult × Db
complete_mode_onboarding auth expected proposed now =
    transaction (complete_work auth expected proposed now) (onboarding_result auth proposed now)
