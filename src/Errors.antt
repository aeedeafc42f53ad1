-- ===== src/Errors.antt =====
-- The exceptions that the modelled code raises, one constructor to a message. Those with numbers
-- carry what the message shows. `integrity_error` is the database's refusal of a row,
-- `numeric_overflow` that of an amount that is too large for its column.
use optimus_os.Base.{ℕ, String, List}
use optimus_os.Base.Int.{ℤ}
use optimus_os.Base.Result.{Result}
use optimus_os.Db.Stock.{PurchaseOrderStatus}
use optimus_os.Db.Work.{WorkOrderStatus}
use optimus_os.Db.Approvals.{RequestStatus}
use optimus_os.Db.Shops.{OperatingMode, SubscriptionTier}

-- `AppointmentConflictDetail`, by its code.
pub data Conflict : Type 0 where
  past_time another_day outside_working_hours : Conflict
  technician_overlap bay_overlap : (appointment : ℕ) → Conflict
  schedule_block : (block : ℕ) → (reason : String) → Conflict

pub data Error : Type 0 where
  -- app/auth.py, HTTP 403
  no_valid_membership no_active_owner : Error
  -- sqlalchemy
  integrity_error numeric_overflow assertion_failed : Error
  -- decimal.InvalidOperation, which nothing catches
  invalid_operation : Error
  -- app/part_allocation_store.py
  allocation_not_found selected_work_order_not_found work_order_not_assigned : Error
  selected_part_not_found part_archived cross_shop_part_link override_reason_required : Error
  cannot_allocate cannot_use : ℕ → ℕ → Error
  cannot_return : ℕ → ℤ → Error
  -- app/purchase_order_store.py
  purchase_order_not_found vendor_not_found line_item_not_found amount_invalid : Error
  negative_amount line_total_too_large total_too_large po_number_taken cannot_receive_now : Error
  cannot_receive : ℕ → ℕ → Error
  cannot_move_order : PurchaseOrderStatus → PurchaseOrderStatus → Error
  -- app/invoice_store.py, app/payment_store.py
  invoice_not_found invalid_amount not_an_issued_invoice amount_not_positive : Error
  exceeds_balance payment_not_found cannot_void_reversal already_voided : Error
  not_a_draft_invoice work_order_not_completed : Error
  -- app/work_order_store.py
  work_order_not_found estimate_not_found estimate_not_approved revision_unavailable : Error
  cross_shop_relationship approval_routing_missing requirements_not_met : Error
  technician_not_found : Error
  cannot_transition : WorkOrderStatus → WorkOrderStatus → Error
  -- app/estimate_store.py: `missing_row` is a related row that foreign keys guarantee.
  token_unavailable missing_row revision_mismatch estimate_expired terms_not_accepted : Error
  option_unavailable acknowledgement_required not_sendable terms_missing zero_value : Error
  revision_locked request_not_found generation_failed data_required labor_mismatch : Error
  part_mismatch part_pricing_missing labor_subtotal_mismatch parts_subtotal_mismatch : Error
  fee_mismatch tax_mismatch hours_mismatch total_mismatch total_not_positive : Error
  vehicle_of_other_customer : Error
  not_active : RequestStatus → Error
  -- app/orchestrator.py, whatever it raises
  research_failed : Error
  -- app/scheduling_store.py
  customer_not_found vehicle_not_found vehicle_of_another_customer bay_not_found : Error
  selected_technician_not_found selected_bay_not_found end_not_later : Error
  appointment_not_found canceled_not_editable canceled_not_movable already_canceled : Error
  completed_not_cancelable working_hours_not_found block_not_found block_has_two_targets : Error
  slot_unavailable : List Conflict → Error
  -- app/capability_store.py, app/mode_transition_store.py
  no_subscription shop_not_found : Error
  mode_conflict : (current expected : OperatingMode) → Error
  -- app/subscription_store.py, app/technician_store.py, app/auth.py
  no_subscription_record payment_method_missing already_subscribed nothing_to_refresh : Error
  tier_not_billable : SubscriptionTier → Error
  too_many_seats : ℕ → SubscriptionTier → Error
  seat_limit_reached : ℕ → Error
  access_suspended : Error
  -- app/services/square.py, whatever it raises
  square_error : Error
  -- app/rate_limit.py
  rate_limit_exceeded : Error

abbrev pub Outcome : Type 0 → Type 0
Outcome = Result Error
