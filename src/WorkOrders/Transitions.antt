-- ===== src/WorkOrders/Transitions.antt =====
-- Which status changes of a work order succeed, and what completing one leaves.
use optimus_os.Base.{
  ℕ, ◌≡◌, refl, String, true, false, List, [], ◌∷◌, ◌++◌, Option, none, some, any, arith, inl, inr,
  ap, ◌∙◌, ◌⊎◌, Bool-cases,
}
use optimus_os.Base.Money.{Decimal}
use optimus_os.Base.Table.{Unique, get, get-save_self, get-scalar}
use optimus_os.Base.Result.{ok, err, >>=-eq-ok, require-eq-ok, err_of_not_ok}
use optimus_os.Errors.{Error, Outcome, work_order_not_found, approval_routing_missing}
use optimus_os.Db.{Db}
use optimus_os.Db.Work.{
  WorkOrder, WorkOrderStatus, EstimateRevision, revision_id, waiting_for_approval, completed,
  cancelled, same_status, work_order_id,
}
use optimus_os.Auth.{AuthContext, resolve_shop_id, effective_shop_id, effective_shop_owner_id}
use optimus_os.WorkOrders.{
  WorkOrderRead, status_transitions, allowed_next_statuses, work_order_query, require_work_order,
  save_work_order, invoice_of,
}
use optimus_os.WorkOrders.Draft.{ensure_draft, invoice_line_payloads, draft_invoice, with_invoice}
use optimus_os.Db.Billing.{Invoice, draft}
use optimus_os.WorkOrders.Status.{
  check_transition, append_status_event, with_event, notify, move_status,
  transition_work_order_status, complete,
}

-- The tests admit exactly the statuses that the response offers.
check_transition-allowed :
    (w : WorkOrder) (target : WorkOrderStatus)
    → any (same_status target) (allowed_next_statuses w) ≡ true
    → check_transition w target ≡ ok tt
unfolding check_transition allowed_next_statuses
check_transition-allowed w target h = ground arith

check_transition-refused :
    (w : WorkOrder) (target : WorkOrderStatus)
    → any (same_status target) (allowed_next_statuses w) ≡ false
    → (e : Error) × (check_transition w target ≡ err e)
unfolding check_transition allowed_next_statuses
check_transition-refused w target h =
    err_of_not_ok (check_transition w target) (λ u q. ground arith)

-- No status is offered that is under approval routing, which is not implemented, or the current one.
offered_is_new :
    (w : WorkOrder) (target : WorkOrderStatus)
    → any (same_status target) (allowed_next_statuses w) ≡ true
    → (same_status target waiting_for_approval ≡ false) × (same_status target w.status ≡ false)
unfolding allowed_next_statuses
offered_is_new w target h = (ground arith, ground arith)

-- The owner is read from tables that the change does not write.
pub owner-save_work_order :
    (auth : AuthContext) (w : WorkOrder) (db : Db)
    → effective_shop_owner_id (save_work_order w db) auth ≡ effective_shop_owner_id db auth
unfolding effective_shop_owner_id effective_shop_id
owner-save_work_order auth w db = refl

-- The row with the new status, and the state with it, its event and its notification.
abbrev at_target : WorkOrder → WorkOrderStatus → ℕ → WorkOrder
at_target w target now = record w { status = target; updated_at = now }

abbrev staged : AuthContext → ℕ → WorkOrder → WorkOrderStatus → Option String → ℕ → Db → Db
staged auth owner w target reason now db =
    notify w target reason
      (with_event auth owner w w.status target reason (save_work_order (at_target w target now) db))

move_status-ok :
    (auth : AuthContext) (w : WorkOrder) (target : WorkOrderStatus) (reason : Option String)
    (now : ℕ) (db : Db) (owner : ℕ)
    → effective_shop_owner_id db auth ≡ ok owner
    → check_transition w target ≡ ok tt
    → move_status auth w target reason now db
      ≡ ok (at_target w target now, staged auth owner w target reason now db)
unfolding move_status append_status_event
move_status-ok auth w target reason now db owner e checked =
    rw (move_status, checked, owner-save_work_order auth (at_target w target now) db, e) refl

move_status-err :
    (auth : AuthContext) (w : WorkOrder) (target : WorkOrderStatus) (reason : Option String)
    (now : ℕ) (db : Db)
    → ((e : Error) × (check_transition w target ≡ err e))
    → (e : Error) × (move_status auth w target reason now db ≡ err e)
unfolding move_status
move_status-err auth w target reason now db (e, refused) = (e, rw (move_status, refused) refl)

owner-staged :
    (auth : AuthContext) (w : WorkOrder) (owner : ℕ) (reason : Option String) (now : ℕ) (db : Db)
    → effective_shop_owner_id (staged auth owner w completed reason now db) auth
      ≡ effective_shop_owner_id db auth
unfolding effective_shop_owner_id effective_shop_id
owner-staged auth w owner reason now db = refl

shop-staged :
    (auth : AuthContext) (w : WorkOrder) (owner : ℕ) (reason : Option String) (now : ℕ) (db : Db)
    → effective_shop_id (staged auth owner w completed reason now db) auth
      ≡ effective_shop_id db auth
unfolding effective_shop_id
shop-staged auth w owner reason now db = refl

ensure_draft-ok :
    (float_sum : List Decimal → Decimal) (auth : AuthContext) (new_id owner shop : ℕ)
    (w : WorkOrder) (r : EstimateRevision) (db : Db)
    → same_status w.status completed ≡ true
    → get w.estimate_revision_id db.estimate_revisions ≡ some r
    → effective_shop_owner_id db auth ≡ ok owner
    → effective_shop_id db auth ≡ ok shop
    → ensure_draft float_sum auth new_id w db
      ≡ ok (
        draft_invoice float_sum owner shop new_id w r,
        with_invoice (draft_invoice float_sum owner shop new_id w r) r db,
      )
unfolding ensure_draft resolve_shop_id
ensure_draft-ok float_sum auth new_id owner shop w r db done revised owned in_shop =
    rw (ensure_draft, done, revised, owned, resolve_shop_id, in_shop) refl

none_follow :
    (status : WorkOrderStatus)
    → ((status ≡ completed) ⊎ (status ≡ cancelled) ⊎ (status ≡ waiting_for_approval))
    → status_transitions status ≡ []
none_follow status (inl is) = rw is refl
none_follow status (inr (inl is)) = rw is refl
none_follow status (inr (inr is)) = rw is refl

none_offered :
    (w : WorkOrder) (target : WorkOrderStatus)
    → status_transitions w.status ≡ []
    → any (same_status target) (allowed_next_statuses w) ≡ false
unfolding allowed_next_statuses
none_offered w target empty = ground arith

pub get-require_work_order :
    (db : Db) (auth : AuthContext) (key : ℕ) (w : WorkOrder)
    → Unique db.work_orders
    → require_work_order db auth key ≡ ok w
    → get w.id db.work_orders ≡ some w
unfolding require_work_order
get-require_work_order db auth key w u h =
    let (visible, e, h₁) = >>=-eq-ok (work_order_query db auth) _ _ h in
    get-scalar _ db.work_orders w u (require-eq-ok _ work_order_not_found w h₁)

module _ (float_sum : List Decimal → Decimal) (auth : AuthContext) (new_id key : ℕ)
    (reason : Option String) (now read_at : ℕ) (db : Db) (w : WorkOrder)
    (found : require_work_order db auth key ≡ ok w) where
  abbrev run : WorkOrderStatus → Outcome WorkOrderRead × Db
  run target = transition_work_order_status float_sum auth new_id key target reason now read_at db

  -- A status that the response does not offer, and that is not the current one, is refused and
  -- nothing is written.
  pub transition-refused :
      (target : WorkOrderStatus)
      → any (same_status target) (allowed_next_statuses w) ≡ false
      → same_status target w.status ≡ false
      → (e : Error) × (run target ≡ (err e, db))
  unfolding transition_work_order_status
  transition-refused target not_offered differs =
      let (e, refused) =
        move_status-err auth w target reason now db
          (check_transition-refused w target not_offered) in
      elim (Bool-cases (same_status target waiting_for_approval)) [
        | inl routed ↦
            (approval_routing_missing, rw (transition_work_order_status, found, routed) refl)
        | inr routed ↦ (e, rw (transition_work_order_status, found, refused, routed, differs) refl)
      ]

  -- Whatever status is asked for, a request on a work order that is completed, cancelled or waiting
  -- for approval writes nothing.
  pub transition-closed :
      (target : WorkOrderStatus)
      → ((w.status ≡ completed) ⊎ (w.status ≡ cancelled) ⊎ (w.status ≡ waiting_for_approval))
      → (run target).1 ≡ db
  unfolding transition_work_order_status allowed_next_statuses
  transition-closed target closed = elim (Bool-cases (same_status target w.status)) [
    | inl same ↦ elim (Bool-cases (same_status target waiting_for_approval)) [
      | inl routed ↦ rw (transition_work_order_status, found, routed) refl
      | inr routed ↦ rw (transition_work_order_status, found, routed, same) refl
    ]
    | inr differs ↦
        ap (λ a. a.1)
          (transition-refused target (none_offered w target (none_follow w.status closed))
            differs).1
  ]

  module _ (owner : ℕ) (u : Unique db.work_orders)
      (owned : effective_shop_owner_id db auth ≡ ok owner) where
    -- A status other than `completed` that the response offers is written to the work order, with
    -- the time of the transaction as its `updated_at`, and its other columns stay: when the shop has
    -- an active owner and no two work orders have the same key.
    pub transition-offered :
        (target : WorkOrderStatus)
        → any (same_status target) (allowed_next_statuses w) ≡ true
        → same_status target completed ≡ false
        → get w.id (run target).1.work_orders
          ≡ some (record w { status = target; updated_at = now })
    unfolding transition_work_order_status
    transition-offered target offered unfinished =
        let w' : WorkOrder = at_target w target now in
        let moved =
          move_status-ok auth w target reason now db owner owned
            (check_transition-allowed w target offered) in
        let (routed, differs) = offered_is_new w target offered in
        let ran : (run target).1 ≡ staged auth owner w target reason now db =
          rw (transition_work_order_status, found, moved, routed, differs, unfinished) refl in
        ap (λ d. get w.id d.work_orders) ran
        ∙ get-save_self w' w db.work_orders (get-require_work_order db auth key w u found)

    -- Completing a work order, when the response offers that, the work order has no invoice and its
    -- revision exists, the shop has an active owner and no two work orders have the same key: it is
    -- stored as completed, with the time of the transaction as its `updated_at` and its other columns
    -- as they were, and one invoice is added: a draft for it, of the total of the approved revision,
    -- with the revision's lines.
    pub transition-completed :
        (r : EstimateRevision)
        → any (same_status completed) (allowed_next_statuses w) ≡ true
        → invoice_of w db ≡ none
        → get w.estimate_revision_id db.estimate_revisions ≡ some r
        → (i : Invoice) × (get w.id (run completed).1.work_orders
            ≡ some (record w { status = completed; updated_at = now }))
          × ((run completed).1.invoices ≡ db.invoices ++ i ∷ [])
          × ((run completed).1.invoice_line_items
              ≡ db.invoice_line_items ++ invoice_line_payloads i.id r)
          × (i.work_order_id ≡ w.id)
          × (i.status ≡ draft)
          × (i.invoice_total ≡ r.estimate_response_payload.totals.estimated_total)
    unfolding transition_work_order_status complete effective_shop_owner_id
    transition-completed r offered no_invoice revised =
        let w' : WorkOrder = at_target w completed now in
        let after : Db = staged auth owner w completed reason now db in
        let (shop, in_shop, rest) = >>=-eq-ok (effective_shop_id db auth) _ _ owned in
        let i : Invoice = draft_invoice float_sum owner shop new_id w' r in
        let moved =
          move_status-ok auth w completed reason now db owner owned
            (check_transition-allowed w completed offered) in
        let (routed, differs) = offered_is_new w completed offered in
        let drafted : ensure_draft float_sum auth new_id w' after ≡ ok (i, with_invoice i r after) =
          ensure_draft-ok float_sum auth new_id owner shop w' r after refl revised
            (owner-staged auth w owner reason now db ∙ owned)
            (shop-staged auth w owner reason now db ∙ in_shop) in
        let ran : (run completed).1 ≡ with_invoice i r after =
          rw (transition_work_order_status, found, moved, differs, complete, no_invoice, drafted)
            refl in
        (
          i,
          ap (λ d. get w.id d.work_orders) ran
              ∙ get-save_self w' w db.work_orders (get-require_work_order db auth key w u found),
          ap (λ d. d.invoices) ran,
          ap (λ d. d.invoice_line_items) ran,
          refl,
          refl,
          refl,
        )
