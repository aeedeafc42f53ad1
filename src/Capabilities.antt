-- ===== src/Capabilities.antt =====
-- app/capability_store.py: what a shop's operating mode and the caller's role make available.
use optimus_os.Base.{ℕ, List, [], ◌∷◌, Option, map, ◌&&◌, ◌==◌, not, filter, length}
use optimus_os.Base.Table.{get, scalar}
use optimus_os.Base.Result.{ok, ◌>>=◌, require}
use optimus_os.Errors.{Outcome, no_subscription}
use optimus_os.Db.{Db}
use optimus_os.Db.Accounts.{Role, owner, manager, technician, support}
use optimus_os.Db.Shops.{OperatingMode, solo, mobile_field, shop, SubscriptionTier, shop_id}
use optimus_os.Auth.{AuthContext, effective_shop_id}

pub data CapabilityId : Type 0 where
  customers vehicles estimates diagnostics work_orders invoices scheduling bays : CapabilityId
  technicians parts reports field_functions optimus_actions : CapabilityId

-- The members of the enumeration, in order.
abbrev pub capability_ids : List CapabilityId
capability_ids =
    customers ∷ vehicles ∷ estimates ∷ diagnostics ∷ work_orders ∷ invoices ∷ scheduling ∷ bays
    ∷ technicians ∷ parts ∷ reports ∷ field_functions ∷ optimus_actions ∷ []

pub data CapabilityLevel : Type 0 where
  full limited hidden not_applicable : CapabilityLevel

-- A function on the capabilities for a dictionary with all of them as its keys.
abbrev pub Levels : Type 0
Levels = CapabilityId → CapabilityLevel

-- `_MODE_LEVELS`
abbrev pub mode_levels : OperatingMode → Levels
mode_levels solo customers = full
mode_levels solo vehicles = full
mode_levels solo estimates = full
mode_levels solo diagnostics = full
mode_levels solo work_orders = full
mode_levels solo invoices = full
mode_levels solo scheduling = limited
mode_levels solo bays = hidden
mode_levels solo technicians = hidden
mode_levels solo parts = full
mode_levels solo reports = limited
mode_levels solo field_functions = not_applicable
mode_levels solo optimus_actions = full
mode_levels mobile_field customers = full
mode_levels mobile_field vehicles = full
mode_levels mobile_field estimates = full
mode_levels mobile_field diagnostics = full
mode_levels mobile_field work_orders = full
mode_levels mobile_field invoices = full
mode_levels mobile_field scheduling = full
mode_levels mobile_field bays = hidden
mode_levels mobile_field technicians = limited
mode_levels mobile_field parts = limited
mode_levels mobile_field reports = limited
mode_levels mobile_field field_functions = full
mode_levels mobile_field optimus_actions = full
mode_levels shop customers = full
mode_levels shop vehicles = full
mode_levels shop estimates = full
mode_levels shop diagnostics = full
mode_levels shop work_orders = full
mode_levels shop invoices = full
mode_levels shop scheduling = full
mode_levels shop bays = full
mode_levels shop technicians = full
mode_levels shop parts = full
mode_levels shop reports = full
mode_levels shop field_functions = limited
mode_levels shop optimus_actions = full

-- `_TECHNICIAN_LEVELS`
abbrev pub technician_levels : Levels
technician_levels customers = full
technician_levels vehicles = full
technician_levels estimates = hidden
technician_levels diagnostics = full
technician_levels work_orders = full
technician_levels invoices = hidden
technician_levels scheduling = hidden
technician_levels bays = not_applicable
technician_levels technicians = limited
technician_levels parts = limited
technician_levels reports = hidden
technician_levels field_functions = hidden
technician_levels optimus_actions = limited

unfoldable pub capability_levels_for : OperatingMode → Role → Levels
capability_levels_for mode technician = technician_levels
capability_levels_for mode owner = mode_levels mode
capability_levels_for mode manager = mode_levels mode
capability_levels_for mode support = mode_levels mode

pub record CapabilityEntry : Type 0 where
  pub id : CapabilityId
  pub level : CapabilityLevel

pub record CapabilitiesRead : Type 0 where
  pub operating_mode : OperatingMode
  pub tier : SubscriptionTier
  pub role : Role
  pub seat_limit : Option ℕ
  pub seats_used : ℕ
  pub capabilities : List CapabilityEntry

-- app/subscription_store.py
unfoldable pub count_active_technician_seats : Db → ℕ → ℕ
count_active_technician_seats db key =
    length (filter (λ t. t.shop_id == key && not t.is_archived) db.technicians)

unfoldable pub resolve_capabilities : Db → AuthContext → Outcome CapabilitiesRead
resolve_capabilities db auth = do
  key ← effective_shop_id db auth
  s ← require (get key db.shops) no_subscription
  plan ← require (scalar (λ p. p.shop_id == s.id) db.shop_subscriptions) no_subscription
  ok (record {
    operating_mode = s.operating_mode;
    tier = plan.tier;
    role = auth.user.role;
    seat_limit = plan.seat_limit;
    seats_used = count_active_technician_seats db s.id;
    capabilities =
        map
          (λ c. record { id = c; level = capability_levels_for s.operating_mode auth.user.role c })
          capability_ids;
  })
