-- ===== src/Auth.antt =====
-- app/auth.py: who is asking, and the tenant boundary that every store computes its queries with.
use optimus_os.Base.{
  ℕ, List, [], ◌∷◌, Option, ◌&&◌, ◌==◌, Bool, any, filter, if◌then◌else◌, is_some_eq, not,
}
use optimus_os.Base.Table.{scalar}
use optimus_os.Base.Result.{ok, err, ◌>>=◌, require}
use optimus_os.Errors.{Outcome, no_valid_membership, no_active_owner}
use optimus_os.Db.{Db}
use optimus_os.Db.Accounts.{UserAccount, ShopMembership, Technician, same_role, is_owner}

-- `AuthContext`; the session half is never read by the stores.
pub record AuthContext : Type 0 where
  pub user : UserAccount

-- The rows that the query of `effective_shop_id` selects, in the order of their ids.
abbrev pub active_memberships : Db → AuthContext → List ShopMembership
active_memberships db auth =
    filter (λ m. m.user_account_id == auth.user.id && m.is_active) db.shop_memberships

-- Exactly one active membership, with the account's own role.
abbrev pub only_membership : AuthContext → List ShopMembership → Outcome ℕ
only_membership auth (m ∷ []) =
    if same_role m.role auth.user.role then ok m.shop_id else err no_valid_membership
only_membership auth _ = err no_valid_membership

unfoldable pub effective_shop_id : Db → AuthContext → Outcome ℕ
effective_shop_id db auth = only_membership auth (active_memberships db auth)

-- The join condition of `effective_shop_owner_id`: the member's account is an active owner.
abbrev pub is_active_owner : Db → ℕ → Bool
is_active_owner db account_id =
    any (λ u. u.id == account_id && (is_owner u.role && u.is_active)) db.user_accounts

unfoldable pub effective_shop_owner_id : Db → AuthContext → Outcome ℕ
effective_shop_owner_id db auth = do
  shop_id ← effective_shop_id db auth
  owner ←
      require
        (scalar
          (λ m.
            m.shop_id == shop_id
            && (is_owner m.role && (m.is_active && is_active_owner db m.user_account_id)))
          db.shop_memberships)
        no_active_owner
  ok owner.user_account_id

-- app/shop_store.py
unfoldable pub resolve_shop_id : Db → AuthContext → Outcome ℕ
resolve_shop_id = effective_shop_id

-- app/technician_store.py
unfoldable pub get_technician_for_user : Db → AuthContext → Outcome (Option Technician)
get_technician_for_user db auth = do
  shop_id ← effective_shop_id db auth
  ok (
      scalar
        (λ t.
          is_some_eq t.user_account_id auth.user.id && (t.shop_id == shop_id && not t.is_archived))
        db.technicians)
