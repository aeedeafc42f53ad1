-- ===== src/WorkOrders/Status.antt =====
-- `transition_work_order_status` of app/work_order_store.py.
use optimus_os.Base.{
  ℕ, String, List, [], ◌∷◌, ◌++◌, Option, none, some, any, ◌&&◌, not, if◌then◌else◌,
}
use optimus_os.Base.Money.{Decimal}
use optimus_os.Base.Result.{ok, err, ◌>>=◌, ◌>>◌, guard}
use optimus_os.Errors.{Outcome, approval_routing_missing, requirements_not_met, cannot_transition}
use optimus_os.Db.{Db}
use optimus_os.Db.Work.{
  WorkOrder, WorkOrderStatus, waiting_for_approval, ready_to_schedule, completed, same_status,
}
use optimus_os.Db.Billing.{status_changed}
use optimus_os.Auth.{AuthContext, effective_shop_owner_id}
use optimus_os.Invoices.Issue.{record_notification}
use optimus_os.WorkOrders.{
  WorkOrderRead, status_transitions, require_work_order, is_held_back, invoice_of, to_read,
  save_work_order,
}
use optimus_os.WorkOrders.Draft.{ensure_draft}
use optimus_os.Invoices

-- The tests of a status that is not the current one.
unfoldable pub check_transition : WorkOrder → WorkOrderStatus → Outcome (Unit {0})
check_transition w target = do
  guard (any (same_status target) (status_transitions w.status)) (cannot_transition w.status target)
  guard (not (is_held_back w && same_status target ready_to_schedule)) requirements_not_met

abbrev pub with_event :
    AuthContext → ℕ → WorkOrder → WorkOrderStatus → WorkOrderStatus → Option String → Db → Db
with_event auth owner_user_id w from_status to_status reason db = record db {
  work_order_status_events =
      db.work_order_status_events
      ++ record {
        work_order_id = w.id;
        owner_user_id = owner_user_id;
        shop_id = w.shop_id;
        from_status = some from_status;
        to_status = to_status;
        reason = reason;
        created_by_user_id = auth.user.id;
      }
        ∷ [];
}

-- `_append_status_event`
unfoldable pub append_status_event :
    AuthContext → WorkOrder → WorkOrderStatus → WorkOrderStatus → Option String → Db → Outcome Db
append_status_event auth w from_status to_status reason db = do
  owner_user_id ← effective_shop_owner_id db auth
  ok (with_event auth owner_user_id w from_status to_status reason db)

abbrev pub notify : WorkOrder → WorkOrderStatus → Option String → Db → Db
notify w target reason db =
    record_notification w.owner_user_id w.shop_id w.id
      (status_changed w.estimate_number w.status target reason) db

-- The change as it is staged: the row, whose `updated_at` the update sets to the time `now` of the
-- transaction, the event and the notification.
unfoldable pub move_status :
    AuthContext → WorkOrder → WorkOrderStatus → Option String → ℕ → Db → Outcome (WorkOrder × Db)
move_status auth w target reason now db = do
  check_transition w target
  let w' : WorkOrder = record w { status = target; updated_at = now }
  db' ← append_status_event auth w w.status target reason (save_work_order w' db)
  ok (w', notify w target reason db')

module _ (float_sum : List Decimal → Decimal) where
  -- A completed work order is committed with its new invoice. An invoice that is already there is
  -- answered without a commit: what was staged is discarded by the refresh and the rollback.
  unfoldable pub complete :
      AuthContext → ℕ → ℕ → WorkOrder → WorkOrder → Db → Db → Outcome WorkOrderRead × Db
  complete auth new_id read_at w w' db staged = elim (invoice_of w db) [
    | some i ↦ (Invoices.to_read read_at i db >> to_read w db, db)
    | none ↦ elim (ensure_draft float_sum auth new_id w' staged) [
      | err e ↦ (err e, db)
      | ok (i, db') ↦ (Invoices.to_read read_at i db' >> to_read w' db', db')
    ]
  ]

  unfoldable pub transition_work_order_status :
      AuthContext
      → ℕ
      → ℕ
      → WorkOrderStatus
      → Option String
      → ℕ
      → ℕ
      → Db
      → Outcome WorkOrderRead × Db
  transition_work_order_status auth new_id key target reason now read_at db =
      elim (require_work_order db auth key) [
        | err e ↦ (err e, db)
        | ok w ↦
            if same_status target waiting_for_approval
            then (err approval_routing_missing, db)
            else if same_status target w.status
            then (to_read w db, db)
            else (elim (move_status auth w target reason now db) [
              | err e ↦ (err e, db)
              | ok (w', staged) ↦
                  if same_status target completed
                  then complete auth new_id read_at w w' db staged
                  else (to_read w' staged, staged)
            ])
      ]
