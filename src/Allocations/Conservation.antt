-- ===== src/Allocations/Conservation.antt =====
-- No operation on an allocation loses or makes up parts, but for an override, which makes up
-- exactly what the inventory was short of.
use optimus_os.Base.{ℕ, ◌+◌, ◌-◌, ◌<◌, ◌≡◌, some, arith, ap, Bool, ◌==◌, if◌then◌else◌, sum_of}
use optimus_os.Base.Table.{get, Unique, get-scalar, sum_of-save, scalar, scalar_sound}
use optimus_os.Base.Result.{ok, require-eq-ok, >>=-eq-ok}
use optimus_os.Errors.{assertion_failed}
use optimus_os.Db.{Db}
use optimus_os.Db.Stock.{Part, PartAllocation, part_id, allocation_id}
use optimus_os.Auth.{AuthContext, effective_shop_id}
use optimus_os.Allocations.{AllocateRequest, get_allocation}
use optimus_os.Allocations.Quantities.{
  locked_allocation, locked_part, take_stock, allocate_work, use_work, return_work,
}
use optimus_os.Allocations.Steps.{
  AllocateStep, allocate_work-AllocateStep, UseStep, use_work-UseStep, ReturnStep,
  return_work-ReturnStep,
}
use optimus_os.Inventory.{
  stock_of, delivered_by, on_hand, issued_by, returned_by, Moves, HasKeys, stock_of-save,
}

-- The locked row is the row under its key.
pub get-locked_allocation :
    (db : Db) (auth : AuthContext) (key : ℕ) (a : PartAllocation)
    → Unique db.part_allocations
    → locked_allocation db auth key ≡ ok a
    → get a.id db.part_allocations ≡ some a
unfolding locked_allocation
get-locked_allocation db auth key a u h =
    let (seen, e₁, h₁) = >>=-eq-ok (get_allocation db auth key) _ _ h in
    let (shop, e₂, h₂) = >>=-eq-ok (effective_shop_id db auth) _ _ h₁ in
    get-scalar _ db.part_allocations a u (require-eq-ok _ assertion_failed a h₂)

pub get-locked_part :
    (db : Db) (a : PartAllocation) (part : Part)
    → Unique db.parts
    → locked_part db a ≡ ok part
    → (get part.id db.parts ≡ some part) × (part.id ≡ a.part_id)
unfolding locked_part
get-locked_part db a part u h =
    let found : scalar _ db.parts ≡ some part = require-eq-ok _ assertion_failed part h in
    (get-scalar _ db.parts part u found, ground (arith, scalar_sound _ db.parts part found))

-- Both branches that succeed leave what truncated subtraction leaves.
pub take_stock-left :
    (available : ℕ) (payload : AllocateRequest) (left : ℕ) (override : Bool)
    → take_stock available payload ≡ ok (left, override)
    → left ≡ available - payload.quantity
unfolding take_stock
take_stock-left available payload left override h = ground arith

-- With unique primary keys, a successful allocation keeps what is on hand and issued, less what was
-- returned and delivered, the same for every part, but for what the stock lacked of the quantity
-- asked for, which an override lets through and which comes from nowhere.
pub allocate_work-Moves :
    (auth : AuthContext) (key : ℕ) (payload : AllocateRequest) (db : Db) (a' : PartAllocation)
    (db' : Db) (p : ℕ)
    → HasKeys db
    → allocate_work auth key payload db ≡ ok (a', db')
    → Moves p (if a'.part_id == p then payload.quantity - on_hand p db else 0) db db'
allocate_work-Moves auth key payload db a' db' p keys h =
    let s : AllocateStep auth key payload db a' db' =
      allocate_work-AllocateStep auth key payload db a' db' h in
    let row : get s.a.id db.part_allocations ≡ some s.a =
      get-locked_allocation db auth key s.a keys.allocations s.found in
    let (stock, same) = get-locked_part db s.a s.part keys.parts s.stocked in
    let written = s.written in
    ground (
      arith,
      stock,
      same,
      row,
      written,
      take_stock-left s.part.quantity_on_hand payload s.left s.override s.taken,
      ap (stock_of p) s.parts,
      ap (sum_of (issued_by p)) s.rows,
      ap (sum_of (returned_by p)) s.rows,
      ap (sum_of (delivered_by p)) s.lines,
      stock_of-save p (record s.part { quantity_on_hand = s.left }) s.part db.parts stock,
      sum_of-save (issued_by p) a' s.a db.part_allocations,
      sum_of-save (returned_by p) a' s.a db.part_allocations,
    )

-- With unique primary keys, marking parts used keeps what is on hand and issued, less what was
-- returned and delivered, the same for every part.
pub use_work-Moves :
    (auth : AuthContext) (key quantity : ℕ) (db : Db) (a' : PartAllocation) (db' : Db) (p : ℕ)
    → HasKeys db
    → use_work auth key quantity db ≡ ok (a', db')
    → Moves p 0 db db'
use_work-Moves auth key quantity db a' db' p keys h =
    let s : UseStep auth key quantity db a' db' = use_work-UseStep auth key quantity db a' db' h in
    let row : get s.a.id db.part_allocations ≡ some s.a =
      get-locked_allocation db auth key s.a keys.allocations s.found in
    let written = s.written in
    ground (
      arith,
      row,
      written,
      ap (stock_of p) s.parts,
      ap (sum_of (issued_by p)) s.rows,
      ap (sum_of (returned_by p)) s.rows,
      ap (sum_of (delivered_by p)) s.lines,
      sum_of-save (issued_by p) a' s.a db.part_allocations,
      sum_of-save (returned_by p) a' s.a db.part_allocations,
    )

-- With unique primary keys, a successful return of a positive quantity keeps what is on hand and
-- issued, less what was returned and delivered, the same for every part.
pub return_work-Moves :
    (auth : AuthContext) (key quantity : ℕ) (db : Db) (a' : PartAllocation) (db' : Db) (p : ℕ)
    → HasKeys db
    → 0 < quantity
    → return_work auth key quantity db ≡ ok (a', db')
    → Moves p 0 db db'
return_work-Moves auth key quantity db a' db' p keys positive h =
    let s : ReturnStep auth key quantity db a' db' =
      return_work-ReturnStep auth key quantity db a' db' positive h in
    let row : get s.a.id db.part_allocations ≡ some s.a =
      get-locked_allocation db auth key s.a keys.allocations s.found in
    let (stock, same) = get-locked_part db s.a s.part keys.parts s.stocked in
    let written = s.written in
    let more : Part = record s.part { quantity_on_hand = s.part.quantity_on_hand + quantity } in
    ground (
      arith,
      stock,
      same,
      row,
      written,
      ap (stock_of p) s.parts,
      ap (sum_of (issued_by p)) s.rows,
      ap (sum_of (returned_by p)) s.rows,
      ap (sum_of (delivered_by p)) s.lines,
      stock_of-save p more s.part db.parts stock,
      sum_of-save (issued_by p) a' s.a db.part_allocations,
      sum_of-save (returned_by p) a' s.a db.part_allocations,
    )
