-- ===== src/Db/Accounts.antt =====
-- The tables of app/db_models.py about accounts and tenants: user_accounts, shops,
-- shop_memberships, technicians. Columns that no modelled operation reads or writes are left out.
use optimus_os.Base.{ℕ, String, Bool, Option, true, false, ◌==◌}
use optimus_os.Base.Table.{HasId}

pub data Role : Type 0 where
  owner manager technician support : Role

abbrev pub role_code : Role → ℕ
role_code owner = 0
role_code manager = 1
role_code technician = 2
role_code support = 3

abbrev pub same_role : Role → Role → Bool
same_role a b = role_code a == role_code b

abbrev pub is_technician : Role → Bool
is_technician technician = true
is_technician _ = false

abbrev pub is_owner : Role → Bool
is_owner owner = true
is_owner _ = false

pub record UserAccount : Type 0 where
  pub id : ℕ
  pub username : String
  pub display_name : String
  pub role : Role
  pub is_active : Bool

pub record ShopMembership : Type 0 where
  pub id : ℕ
  pub shop_id : ℕ
  pub user_account_id : ℕ
  pub role : Role
  pub is_active : Bool

pub record Technician : Type 0 where
  pub id : ℕ
  pub shop_id : ℕ
  pub user_account_id : Option ℕ
  pub is_archived : Bool

instance abbrev pub user_account_id : HasId UserAccount
user_account_id = record { id = λ r. r.id }

instance abbrev pub technician_id : HasId Technician
technician_id = record { id = λ r. r.id }
