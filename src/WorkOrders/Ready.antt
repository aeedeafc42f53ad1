-- ===== src/WorkOrders/Ready.antt =====
-- How the requirements of a payment plan are met by `update_work_order`, so that the work order can
-- be scheduled.
use optimus_os.Base.{
  ℕ, ◌≡◌, refl, ◌∙◌, sym, ap, String, Bool, true, List, any, arith, Option, none, some, ◌&&◌, ◌==◌,
  Bool-cases, inl, inr,
}
use mathlib.Core.Path.{subst}
use optimus_os.Base.Money.{Decimal}
use optimus_os.Base.Table.{
  Unique, get, scalar, scalar_sound, scalar-save, get-save_found, save-Unique,
}
use optimus_os.Base.Result.{ok, >>=-eq-ok, require-eq-ok, ok_pair_inj, ok_unique}
use optimus_os.Errors.{work_order_not_found}
use optimus_os.Db.{Db}
use optimus_os.Db.Accounts.{Technician, is_technician}
use optimus_os.Db.Work.{
  WorkOrder, pending_requirements, ready_to_schedule, same_status, work_order_id,
}
use optimus_os.Auth.{
  AuthContext, effective_shop_id, effective_shop_owner_id, get_technician_for_user,
}
use optimus_os.WorkOrders.{
  visible_to, work_order_query, require_work_order, save_work_order, allowed_next_statuses,
  ready_requirements_met,
}
use optimus_os.WorkOrders.Edit.{
  UpdateRequest, sent_flag, updated, same_columns, touched, update_work,
}
use optimus_os.WorkOrders.Status.{transition_work_order_status}
use optimus_os.WorkOrders.Transitions.{
  transition-offered, get-require_work_order, owner-save_work_order,
}

visible_to-blind :
    (shop_id : ℕ) (technician : Option Technician) (w w' : WorkOrder)
    → w'.shop_id ≡ w.shop_id
    → w'.assigned_technician_id ≡ w.assigned_technician_id
    → visible_to shop_id technician w' ≡ visible_to shop_id technician w
visible_to-blind shop_id none w w' in_shop assigned = refl
visible_to-blind shop_id (some t) w w' in_shop assigned = rw (in_shop, assigned) refl

-- What a caller sees is told by the shop and the technician of the work order.
query-blind :
    (db : Db) (auth : AuthContext) (visible : WorkOrder → Bool) (w w' : WorkOrder)
    → work_order_query db auth ≡ ok visible
    → w'.shop_id ≡ w.shop_id
    → w'.assigned_technician_id ≡ w.assigned_technician_id
    → visible w' ≡ visible w
unfolding work_order_query
query-blind db auth visible w w' h in_shop assigned =
    let (shop_id, e, h₁) = >>=-eq-ok (effective_shop_id db auth) _ _ h in
    elim (Bool-cases (is_technician auth.user.role)) [
      | inl technical ↦
          let (technician, e₂, h₂) =
            >>=-eq-ok (get_technician_for_user db auth) _ _ (rw technical at h₁) in
          subst (λ v. v w' ≡ v w) (ok_unique refl h₂)
            (visible_to-blind shop_id technician w w' in_shop assigned)
      | inr staff ↦ subst (λ v. v w' ≡ v w) (ok_unique refl (rw staff at h₁)) (rw in_shop refl)
    ]

-- A work order that is written back with its shop and its technician is found where it was.
require_work_order-save :
    (db : Db) (auth : AuthContext) (key : ℕ) (w w' : WorkOrder)
    → Unique db.work_orders
    → require_work_order db auth key ≡ ok w
    → w'.id ≡ w.id
    → w'.shop_id ≡ w.shop_id
    → w'.assigned_technician_id ≡ w.assigned_technician_id
    → require_work_order (save_work_order w' db) auth key ≡ ok w'
unfolding require_work_order work_order_query effective_shop_id get_technician_for_user
require_work_order-save db auth key w w' u found same_id in_shop assigned =
    let (visible, e, h) = >>=-eq-ok (work_order_query db auth) _ _ found in
    let its : WorkOrder → Bool = λ x. visible x && x.id == key in
    let row : scalar its db.work_orders ≡ some w = require-eq-ok _ work_order_not_found w h in
    let sees : its w' ≡ its w =
      rw (query-blind db auth visible w w' e in_shop assigned, same_id) refl in
    let query : work_order_query (save_work_order w' db) auth ≡ ok visible = e in
    let again : scalar its (save_work_order w' db).work_orders ≡ some w' =
      scalar-save its db.work_orders w w' u row same_id
        (sees ∙ scalar_sound its db.work_orders w row) in
    rw (query, again) refl

-- What an update leaves alone, also when it sets the time of the row.
record Edited (payload : UpdateRequest) (w w' : WorkOrder) : Type 0 where
  its_id : w'.id ≡ w.id
  its_shop : w'.shop_id ≡ w.shop_id
  its_technician : w'.assigned_technician_id ≡ w.assigned_technician_id
  its_status : w'.status ≡ w.status
  its_deposit : w'.deposit_received ≡ (updated payload w).deposit_received
  its_authorization : w'.authorization_confirmed ≡ (updated payload w).authorization_confirmed

touched-Edited :
    (payload : UpdateRequest) (now : ℕ) (w : WorkOrder)
    → Edited payload w (touched now w (updated payload w))
touched-Edited payload now w = elim (Bool-cases (same_columns w (updated payload w))) [
  | inl same ↦ rw same (record {
    its_id = refl;
    its_shop = refl;
    its_technician = refl;
    its_status = refl;
    its_deposit = refl;
    its_authorization = refl;
  })
  | inr differs ↦ rw differs (record {
    its_id = refl;
    its_shop = refl;
    its_technician = refl;
    its_status = refl;
    its_deposit = refl;
    its_authorization = refl;
  })
]

offers_scheduling :
    (w : WorkOrder)
    → w.status ≡ pending_requirements
    → w.deposit_received ≡ true
    → w.authorization_confirmed ≡ true
    → any (same_status ready_to_schedule) (allowed_next_statuses w) ≡ true
unfolding allowed_next_statuses ready_requirements_met
offers_scheduling w pending deposit authorization = ground arith

-- An update of a pending work order that confirms its deposit and its authorization stores the row
-- that it answers, with the status as it was; that row is offered scheduling; and a request of a
-- caller who sees the work order, for that status, then stores it as ready to schedule, when the
-- shop has an active owner and no two work orders have the same key.
pub update_work-ready :
    (float_sum : List Decimal → Decimal) (auth auth₂ : AuthContext) (key new_id : ℕ)
    (payload : UpdateRequest) (reason : Option String) (now now₂ read_at owner : ℕ) (db db' : Db)
    (w w' : WorkOrder)
    → Unique db.work_orders
    → require_work_order db auth key ≡ ok w
    → require_work_order db auth₂ key ≡ ok w
    → effective_shop_owner_id db auth₂ ≡ ok owner
    → w.status ≡ pending_requirements
    → payload.deposit_received ≡ some (some true)
    → payload.authorization_confirmed ≡ some (some true)
    → update_work auth key payload now db ≡ ok (w', db')
    → (w'.status ≡ pending_requirements)
      × (get w.id db'.work_orders ≡ some w')
      × (any (same_status ready_to_schedule) (allowed_next_statuses w') ≡ true)
      × (get w.id
            (transition_work_order_status float_sum auth₂ new_id key ready_to_schedule reason now₂
              read_at db').1.work_orders
          ≡ some (record w' { status = ready_to_schedule; updated_at = now₂ }))
unfolding update_work
update_work-ready float_sum auth auth₂ key new_id payload reason now now₂ read_at owner db db' w w'
      u found found₂ owned pending deposit authorization done =
    let (t, e, h) = >>=-eq-ok (require_work_order db auth key) _ _ done in
    let same : t ≡ w = ok_unique e found in
    let (row, state) = ok_pair_inj _ _ w' _ db' refl h in
    let is_row : touched now w (updated payload w) ≡ w' =
      ap (λ x. touched now x (updated payload x)) (sym same) ∙ row in
    let stored : db' ≡ save_work_order w' db = sym state ∙ ap (λ x. save_work_order x db) row in
    let edit : Edited payload w w' =
      subst (Edited payload w) is_row (touched-Edited payload now w) in
    let there : get w.id db'.work_orders ≡ some w' = rw stored (
      get-save_found w.id w' w db.work_orders (get-require_work_order db auth key w u found)
        edit.its_id) in
    let seen : require_work_order db' auth₂ key ≡ ok w' = rw stored (
      require_work_order-save db auth₂ key w w' u found₂ edit.its_id edit.its_shop
        edit.its_technician) in
    let offered : any (same_status ready_to_schedule) (allowed_next_statuses w') ≡ true =
      offers_scheduling w' (edit.its_status ∙ pending)
        (edit.its_deposit ∙ ap (λ f. sent_flag f w.deposit_received) deposit)
        (edit.its_authorization ∙ ap (λ f. sent_flag f w.authorization_confirmed) authorization) in
    let owned' : effective_shop_owner_id db' auth₂ ≡ ok owner =
      rw stored (owner-save_work_order auth₂ w' db ∙ owned) in
    let moved =
      transition-offered float_sum auth₂ new_id key reason now₂ read_at db' w' seen owner
        (rw stored (save-Unique w' db.work_orders u)) owned' ready_to_schedule offered refl in
    (
      edit.its_status ∙ pending,
      there,
      offered,
      ap
            (λ k.
              get k
                (transition_work_order_status float_sum auth₂ new_id key ready_to_schedule reason
                  now₂ read_at db').1.work_orders)
            (sym edit.its_id)
          ∙ moved,
    )
