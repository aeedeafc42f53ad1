-- ===== src/Allocations/Steps.antt =====
-- What a successful allocation, use or return has read and written.
use optimus_os.Base.{ℕ, ◌+◌, ◌-◌, ◌≤◌, ◌<◌, ◌≡◌, Bool, true, arith}
use optimus_os.Base.Table.{save}
use optimus_os.Base.Result.{ok, >>=-eq-ok}
use optimus_os.Db.{Db}
use optimus_os.Db.Stock.{Part, PartAllocation, allocation_checks, part_id, allocation_id}
use optimus_os.Auth.{AuthContext}
use optimus_os.Allocations.{AllocateRequest, record_event, save_allocation}
use optimus_os.Allocations.Quantities.{
  locked_allocation, locked_part, take_stock, allocate_work, use_work, return_work,
}

pub record AllocateStep (auth : AuthContext) (key : ℕ) (payload : AllocateRequest) (db : Db)
    (a' : PartAllocation) (db' : Db) : Type 0 where
  pub a : PartAllocation
  pub part : Part
  pub left : ℕ
  pub override : Bool
  pub found : locked_allocation db auth key ≡ ok a
  pub stocked : locked_part db a ≡ ok part
  pub taken : take_stock part.quantity_on_hand payload ≡ ok (left, override)
  pub written : a' ≡ record a { quantity_allocated = a.quantity_allocated + payload.quantity }
  pub checked : allocation_checks a' ≡ true
  pub rows : db'.part_allocations ≡ save a' db.part_allocations
  pub parts : db'.parts ≡ save (record part { quantity_on_hand = left }) db.parts
  pub lines : db'.purchase_order_line_items ≡ db.purchase_order_line_items

pub allocate_work-AllocateStep :
    (auth : AuthContext) (key : ℕ) (payload : AllocateRequest) (db : Db) (a' : PartAllocation)
    (db' : Db)
    → allocate_work auth key payload db ≡ ok (a', db')
    → AllocateStep auth key payload db a' db'
unfolding allocate_work save_allocation record_event
allocate_work-AllocateStep auth key payload db a' db' h =
    let (a, found, h₁) = >>=-eq-ok (locked_allocation db auth key) _ _ h in
    let (part, stocked, h₂) = >>=-eq-ok (locked_part db a) _ _ h₁ in
    let (t, taken, h₃) = >>=-eq-ok (take_stock part.quantity_on_hand payload) _ _ h₂ in
    record {
      a = a;
      part = part;
      left = t.0;
      override = t.1;
      found = found;
      stocked = stocked;
      taken = taken;
      written = ground arith;
      checked = ground arith;
      rows = ground arith;
      parts = ground arith;
      lines = ground arith;
    }

pub record UseStep (auth : AuthContext) (key quantity : ℕ) (db : Db) (a' : PartAllocation)
    (db' : Db) : Type 0 where
  pub a : PartAllocation
  pub found : locked_allocation db auth key ≡ ok a
  pub within : quantity ≤ a.quantity_allocated - a.quantity_used
  pub written : a' ≡ record a { quantity_used = a.quantity_used + quantity }
  pub checked : allocation_checks a' ≡ true
  pub rows : db'.part_allocations ≡ save a' db.part_allocations
  pub parts : db'.parts ≡ db.parts
  pub lines : db'.purchase_order_line_items ≡ db.purchase_order_line_items

pub use_work-UseStep :
    (auth : AuthContext) (key quantity : ℕ) (db : Db) (a' : PartAllocation) (db' : Db)
    → use_work auth key quantity db ≡ ok (a', db')
    → UseStep auth key quantity db a' db'
unfolding use_work save_allocation record_event
use_work-UseStep auth key quantity db a' db' h =
    let (a, found, h₁) = >>=-eq-ok (locked_allocation db auth key) _ _ h in
    record {
      a = a;
      found = found;
      within = ground arith;
      written = ground arith;
      checked = ground arith;
      rows = ground arith;
      parts = ground arith;
      lines = ground arith;
    }

pub record ReturnStep (auth : AuthContext) (key quantity : ℕ) (db : Db) (a' : PartAllocation)
    (db' : Db) : Type 0 where
  pub a : PartAllocation
  pub part : Part
  pub found : locked_allocation db auth key ≡ ok a
  pub stocked : locked_part db a ≡ ok part
  pub within : a.quantity_used + a.quantity_returned + quantity ≤ a.quantity_allocated
  pub written : a' ≡ record a { quantity_returned = a.quantity_returned + quantity }
  pub checked : allocation_checks a' ≡ true
  pub rows : db'.part_allocations ≡ save a' db.part_allocations
  pub parts :
      db'.parts
      ≡ save (record part { quantity_on_hand = part.quantity_on_hand + quantity }) db.parts
  pub lines : db'.purchase_order_line_items ≡ db.purchase_order_line_items

pub return_work-ReturnStep :
    (auth : AuthContext) (key quantity : ℕ) (db : Db) (a' : PartAllocation) (db' : Db)
    → 0 < quantity
    → return_work auth key quantity db ≡ ok (a', db')
    → ReturnStep auth key quantity db a' db'
unfolding return_work save_allocation record_event
return_work-ReturnStep auth key quantity db a' db' positive h =
    let (a, found, h₁) = >>=-eq-ok (locked_allocation db auth key) _ _ h in
    let (part, stocked, h₂) = >>=-eq-ok (locked_part db a) _ _ h₁ in
    record {
      a = a;
      part = part;
      found = found;
      stocked = stocked;
      within = ground arith;
      written = ground arith;
      checked = ground arith;
      rows = ground arith;
      parts = ground arith;
      lines = ground arith;
    }
