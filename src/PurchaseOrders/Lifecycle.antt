-- ===== src/PurchaseOrders/Lifecycle.antt =====
-- The status of a purchase order: what a receipt leaves, which orders are closed, and that the
-- status always agrees with what the lines have received.
use optimus_os.Base.{
  ℕ, ◌≡◌, ◌≢◌, refl, sym, Bool, true, false, List, [], ◌∷◌, some, arith, ◌⊎◌, ◌==◌, ◌&&◌, ==_eq,
  ==_ne, Bool-cases, inl, inr, if◌then◌else◌, ap, Option-cases, ◌∙◌,
}
use mathlib.Core.Path.{subst}
use optimus_os.Base.Table.{
  get, save, scalar, scalar_sound, get-scalar, Unique, get-save_self, get-save_ne,
}
use optimus_os.Base.Result.{ok, err, >>=-eq-ok, require, require-eq-ok, err_of_not_ok}
use optimus_os.Errors.{Error, purchase_order_not_found}
use optimus_os.Db.{Db}
use optimus_os.Db.Stock.{
  PurchaseOrder, PurchaseOrderStatus, draft, submitted, partially_received, received, cancelled,
  PurchaseOrderLineItem, part_id, line_item_id, purchase_order_id,
}
use optimus_os.Auth.{AuthContext, effective_shop_id}
use optimus_os.PurchaseOrders.{get_purchase_order, transition, move_work}
use optimus_os.PurchaseOrders.Receive.{
  ReceiveRequest, locked_line, settle, receive_work, may_receive, all_received,
}
use optimus_os.PurchaseOrders.Steps.{
  with_delivery, ReceiveStep, receive_work-ReceiveStep, get-locked_line,
}

-- A settled order keeps its key and is received exactly when all its lines are.
settle-status :
    (o : PurchaseOrder) (full : Bool) (now : ℕ) (o' : PurchaseOrder)
    → may_receive o.status ≡ true
    → settle o full now ≡ ok o'
    → (o'.id ≡ o.id) × (o'.status ≡ (if full then received else partially_received))
unfolding settle transition
settle-status o full now o' r h = ground arith

-- After a successful receipt the order is received if every line of it in the new state is there
-- in full, and partially received otherwise.
pub receive_work-status :
    (auth : AuthContext) (key : ℕ) (payload : ReceiveRequest) (now : ℕ) (db : Db)
    (o' : PurchaseOrder) (db' : Db)
    → receive_work auth key payload now db ≡ ok (o', db')
    → o'.status
      ≡ (if all_received o'.id db'.purchase_order_line_items then received else partially_received)
receive_work-status auth key payload now db o' db' h =
    let s : ReceiveStep auth key payload now db o' db' =
      receive_work-ReceiveStep auth key payload now db o' db' h in
    let (same, status) = settle-status s.o _ now o' s.open_status s.settled in
    rw (s.result, same) status

module _ (auth : AuthContext) (key : ℕ) (db : Db) (o : PurchaseOrder)
    (found : get_purchase_order db auth key ≡ ok o)
    (closed : (o.status ≡ received) ⊎ (o.status ≡ cancelled)) where
  closed-move_work :
      (target : PurchaseOrderStatus) (now : ℕ) (r : PurchaseOrder × Db)
      → move_work auth key target now db ≡ ok r
      → ⊥
  unfolding move_work transition
  closed-move_work target now r h = ground arith

  closed-receive_work :
      (payload : ReceiveRequest) (now : ℕ) (r : PurchaseOrder × Db)
      → receive_work auth key payload now db ≡ ok r
      → ⊥
  unfolding receive_work
  closed-receive_work payload now r h = ground arith

  -- An order that the caller finds received or cancelled can be neither submitted, cancelled nor
  -- received: each such request raises.
  pub closed_order_stays :
      (payload : ReceiveRequest) (target : PurchaseOrderStatus) (now : ℕ)
      → ((e : Error) × (move_work auth key target now db ≡ err e))
        × ((e : Error) × (receive_work auth key payload now db ≡ err e))
  closed_order_stays payload target now = (
    err_of_not_ok (move_work auth key target now db) (closed-move_work target now),
    err_of_not_ok (receive_work auth key payload now db) (closed-receive_work payload now),
  )

-- What the received quantities must be at each status.
abbrev pub Matches : PurchaseOrderStatus → Bool → Type 0
Matches received full = full ≡ true
Matches cancelled full = Unit
Matches _ full = full ≡ false

-- Every order's status agrees with its lines.
abbrev pub IsSettled : Db → Type 0
IsSettled db =
    (k : ℕ) (o : PurchaseOrder)
    → get k db.purchase_orders ≡ some o
    → Matches o.status (all_received k db.purchase_order_line_items)

-- A delivery to one order's line leaves the others' lines as they were.
all_received-save :
    (k : ℕ) (l' l : PurchaseOrderLineItem) (lines : List PurchaseOrderLineItem)
    → get l'.id lines ≡ some l
    → l'.purchase_order_id ≡ l.purchase_order_id
    → l.purchase_order_id ≢ k
    → all_received k (save l' lines) ≡ all_received k lines
all_received-save k l' l [] h same ne = refl
all_received-save k l' l (x ∷ lines) h same ne = ground (arith, all_received-save k l' l lines)

-- The order found is the row under its key.
get-get_purchase_order :
    (db : Db) (auth : AuthContext) (key : ℕ) (o : PurchaseOrder)
    → Unique db.purchase_orders
    → get_purchase_order db auth key ≡ ok o
    → get o.id db.purchase_orders ≡ some o
unfolding get_purchase_order
get-get_purchase_order db auth key o u h =
    let (shop, e, h₁) = >>=-eq-ok (effective_shop_id db auth) _ _ h in
    get-scalar _ db.purchase_orders o u (require-eq-ok _ purchase_order_not_found o h₁)

-- The line that is locked belongs to the order.
locked_line-order :
    (o : PurchaseOrder) (key : ℕ) (db : Db) (l : PurchaseOrderLineItem)
    → Unique db.purchase_order_line_items
    → locked_line o key db ≡ ok l
    → l.purchase_order_id ≡ o.id
unfolding locked_line
locked_line-order o key db l u h =
    let rows : List PurchaseOrderLineItem = db.purchase_order_line_items in
    let its : PurchaseOrderLineItem → Bool = λ r. r.id == key && r.purchase_order_id == o.id in
    elim (Option-cases (scalar its rows)) [
      | inl e ↦ absurd (cc (rw (e, require) at h))
      | inr (m, e) ↦ ground (arith, e, get-scalar its rows m u e, scalar_sound its rows m e)
    ]

Matches-settled :
    (s : PurchaseOrderStatus) (full : Bool)
    → s ≡ (if full then received else partially_received)
    → Matches s full
Matches-settled s true e = subst (λ t. Matches t true) (sym e) refl
Matches-settled s false e = subst (λ t. Matches t false) (sym e) refl

-- With unique primary keys, a successful receipt keeps this agreement for every order, its own and
-- the others: a received order has all its lines in full, and a draft, submitted or partially
-- received one has not.
pub receive_work-IsSettled :
    (auth : AuthContext) (key : ℕ) (payload : ReceiveRequest) (now : ℕ) (db : Db)
    (o' : PurchaseOrder) (db' : Db)
    → Unique db.purchase_orders
    → Unique db.purchase_order_line_items
    → IsSettled db
    → receive_work auth key payload now db ≡ ok (o', db')
    → IsSettled db'
receive_work-IsSettled auth key payload now db o' db' orders lines before h k b row =
    let s : ReceiveStep auth key payload now db o' db' =
      receive_work-ReceiveStep auth key payload now db o' db' h in
    let (same, status) = settle-status s.o _ now o' s.open_status s.settled in
    let l' : PurchaseOrderLineItem = with_delivery s.l payload.quantity in
    let rows : db'.purchase_order_line_items ≡ save l' db.purchase_order_line_items =
      ap (λ d. d.purchase_order_line_items) s.result in
    let saved : db'.purchase_orders ≡ save o' db.purchase_orders =
      ap (λ d. d.purchase_orders) s.result in
    let found : get s.o.id db.purchase_orders ≡ some s.o =
      get-get_purchase_order db auth key s.o orders s.found in
    let line_of : s.l.purchase_order_id ≡ s.o.id =
      locked_line-order s.o payload.line_item db s.l lines s.line in
    let line_row = get-locked_line s.o payload.line_item db s.l s.line in
    elim (Bool-cases (o'.id == k)) [
      | inl e ↦
          let is_own : b ≡ o' = ground (
            arith,
            row,
            saved,
            found,
            same,
            ==_eq o'.id k e,
            get-save_self o' s.o db.purchase_orders,
          ) in
          let full = all_received k db'.purchase_order_line_items in
          let reads : o'.status ≡ (if full then received else partially_received) =
            rw (rows, ← ==_eq o'.id k e, same) status in
          subst (λ t. Matches t.status full) (sym is_own) (Matches-settled o'.status full reads)
      | inr e ↦
          let other : get k db.purchase_orders ≡ some b =
            sym (get-save_ne k o' db.purchase_orders (λ q. ==_ne o'.id k e (sym q)))
            ∙ ap (get k) (sym saved)
            ∙ row in
          let kept : all_received k (save l' db.purchase_order_line_items)
              ≡ all_received k db.purchase_order_line_items =
            all_received-save k l' s.l db.purchase_order_line_items line_row refl
              (λ q. ==_ne o'.id k e (same ∙ sym line_of ∙ q)) in
          rw (rows, kept) (before k b other)
    ]

-- A move to submitted starts at a draft.
move_work-from :
    (o : PurchaseOrder) (target : PurchaseOrderStatus) (now : ℕ) (o' : PurchaseOrder)
    → (target ≡ submitted) ⊎ (target ≡ cancelled)
    → transition o target now ≡ ok o'
    → ((o.status ≡ draft) × (o'.status ≡ submitted)) ⊎ (o'.status ≡ cancelled)
unfolding transition
move_work-from o target now o' goal h = ground arith

-- With unique order keys, a successful submission or cancellation keeps the agreement between the
-- status of every order and the quantities that its lines have received.
pub move_work-IsSettled :
    (auth : AuthContext) (key : ℕ) (target : PurchaseOrderStatus) (now : ℕ) (db : Db)
    (o' : PurchaseOrder) (db' : Db)
    → (target ≡ submitted) ⊎ (target ≡ cancelled)
    → Unique db.purchase_orders
    → IsSettled db
    → move_work auth key target now db ≡ ok (o', db')
    → IsSettled db'
unfolding move_work transition
move_work-IsSettled auth key target now db o' db' goal orders before h k b row =
    let (o, found, h₁) = >>=-eq-ok (get_purchase_order db auth key) _ _ h in
    let old : get o.id db.purchase_orders ≡ some o =
      get-get_purchase_order db auth key o orders found in
    let (moved_order, moved, h₂) = >>=-eq-ok (transition o target now) _ _ h₁ in
    let same : o'.id ≡ o.id = ground arith in
    let lines : db'.purchase_order_line_items ≡ db.purchase_order_line_items = ground arith in
    let saved : db'.purchase_orders ≡ save o' db.purchase_orders = ground arith in
    let is_result : moved_order ≡ o' = ground arith in
    let from : ((o.status ≡ draft) × (o'.status ≡ submitted)) ⊎ (o'.status ≡ cancelled) =
      move_work-from o target now o' goal (moved ∙ ap (λ t. ok t) is_result) in
    elim (Bool-cases (o'.id == k)) [
      | inl e ↦
          let is_own : b ≡ o' = ground (
            arith,
            row,
            saved,
            old,
            same,
            ==_eq o'.id k e,
            get-save_self o' o db.purchase_orders,
          ) in
          let full = all_received k db'.purchase_order_line_items in
          let earlier : Matches o.status full = rw lines (
            before k o
              (subst (λ i. get i db.purchase_orders ≡ some o) (sym same ∙ ==_eq o'.id k e) old)) in
          subst (λ t. Matches t.status full) (sym is_own)
            (elim from [
              | inl (was, is) ↦
                  subst (λ t. Matches t full) (sym is) (subst (λ t. Matches t full) was earlier)
              | inr is ↦ subst (λ t. Matches t full) (sym is) tt
            ])
      | inr e ↦
          let other : get k db.purchase_orders ≡ some b =
            sym (get-save_ne k o' db.purchase_orders (λ q. ==_ne o'.id k e (sym q)))
            ∙ ap (get k) (sym saved)
            ∙ row in
          rw lines (before k b other)
    ]
