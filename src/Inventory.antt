-- ===== src/Inventory.antt =====
-- The stock of a part as its tables show it together: what is on hand (parts), what was issued to
-- and given back by work orders (part_allocations), what was delivered (purchase order lines).
use optimus_os.Base.{
  ℕ, ◌+◌, ◌≡◌, List, none, some, sum_of, ◌==◌, ==_eq, ==_ne, if◌then◌else◌, arith, Bool-cases, inl,
  inr,
}
use optimus_os.Base.Table.{get, save, Unique, get-save_self, get-save_ne}
use optimus_os.Db.{Db}
use optimus_os.Db.Stock.{
  Part, PartAllocation, PurchaseOrderLineItem, part_id, allocation_id, line_item_id,
}

abbrev pub stock_of : ℕ → List Part → ℕ
stock_of p parts = elim (get p parts) [ none ↦ 0 | some r ↦ r.quantity_on_hand ]

abbrev pub on_hand : ℕ → Db → ℕ
on_hand p db = stock_of p db.parts

abbrev pub issued_by : ℕ → PartAllocation → ℕ
issued_by p a = if a.part_id == p then a.quantity_allocated else 0

abbrev pub returned_by : ℕ → PartAllocation → ℕ
returned_by p a = if a.part_id == p then a.quantity_returned else 0

abbrev pub delivered_by : ℕ → PurchaseOrderLineItem → ℕ
delivered_by p l = if l.part_id == p then l.quantity_received else 0

abbrev pub issued : ℕ → Db → ℕ
issued p db = sum_of (issued_by p) db.part_allocations

abbrev pub returns : ℕ → Db → ℕ
returns p db = sum_of (returned_by p) db.part_allocations

abbrev pub delivered : ℕ → Db → ℕ
delivered p db = sum_of (delivered_by p) db.purchase_order_line_items

-- From `db` to `db'` the part `p` gained `extra` units that no table accounts for.
abbrev pub Moves : ℕ → ℕ → Db → Db → Type 0
Moves p extra db db' =
    on_hand p db' + issued p db' + (returns p db + delivered p db)
    ≡ on_hand p db + issued p db + (returns p db' + delivered p db') + extra

-- Primary keys are unique in the tables of the inventory.
pub record HasKeys (db : Db) : Type 0 where
  pub parts : Unique db.parts
  pub allocations : Unique db.part_allocations
  pub lines : Unique db.purchase_order_line_items

-- Writing a part back changes the stock of that part alone.
pub stock_of-save :
    (p : ℕ) (r old : Part) (parts : List Part)
    → get r.id parts ≡ some old
    → stock_of p (save r parts) ≡ (if r.id == p then r.quantity_on_hand else stock_of p parts)
stock_of-save p r old parts h = elim (Bool-cases (r.id == p)) [
  | inl e ↦ ground (arith, get-save_self r old parts h, ==_eq r.id p e)
  | inr e ↦ ground (arith, get-save_ne p r parts, ==_ne r.id p e)
]
