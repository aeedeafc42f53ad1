-- ===== src/Subscriptions/Access.antt =====
-- The access gate settles the status of a shop: asked again at the same time, it says the same and
-- writes nothing.
use optimus_os.Base.{
  ℕ, ◌≡◌, refl, ◌∙◌, sym, ap, true, some, none, Bool-cases, Option-cases, inl, inr, arith, not,
}
use mathlib.Core.Path.{subst}
use optimus_os.Base.Table.{get, get-id, get-save_self}
use optimus_os.Base.Result.{ok, err, guard, Result-cases}
use optimus_os.Errors.{Outcome, Error, access_suspended}
use optimus_os.Db.{Db}
use optimus_os.Db.Shops.{Shop, ShopStatus, same_status, ShopSubscription, shop_id}
use optimus_os.Auth.{AuthContext, effective_shop_id}
use optimus_os.Subscriptions.{
  subscription_of, derived_status, with_status, sync_shop_access_status, admit,
  require_shop_access_active, is_subscription_access_suspended,
}

same_status_refl : (a : ShopStatus) → same_status a a ≡ true
same_status_refl a = ground arith

abbrev settled : Shop → ShopSubscription → ℕ → Shop
settled s p now = record s { status = derived_status p now; updated_at = now }

-- Only shops and events are written.
subscription_of-with_status :
    (s : Shop) (p : ShopSubscription) (now : ℕ) (db : Db) (key : ℕ)
    → subscription_of (with_status s p now db) key ≡ subscription_of db key
unfolding with_status
subscription_of-with_status s p now db key =
    elim (Bool-cases (same_status s.status (derived_status p now))) [
      | inl e ↦ rw e refl
      | inr e ↦ rw e refl
    ]

effective_shop_id-with_status :
    (s : Shop) (p : ShopSubscription) (now : ℕ) (db : Db) (auth : AuthContext)
    → effective_shop_id (with_status s p now db) auth ≡ effective_shop_id db auth
unfolding with_status effective_shop_id
effective_shop_id-with_status s p now db auth =
    elim (Bool-cases (same_status s.status (derived_status p now))) [
      | inl e ↦ rw e refl
      | inr e ↦ rw e refl
    ]

-- After the correction the shop has the derived status, and is corrected no more.
with_status-again :
    (s : Shop) (p : ShopSubscription) (now : ℕ) (db : Db)
    → get s.id db.shops ≡ some s
    → (t : Shop) × (get s.id (with_status s p now db).shops ≡ some t)
      × (t.id ≡ s.id)
      × (with_status t p now (with_status s p now db) ≡ with_status s p now db)
unfolding with_status
with_status-again s p now db row = elim (Bool-cases (same_status s.status (derived_status p now))) [
  | inl e ↦ rw e (s, row, refl, rw e refl)
  | inr e ↦ rw e (
    settled s p now,
    get-save_self (settled s p now) s db.shops row,
    refl,
    rw (same_status_refl (derived_status p now)) refl,
  )
]

admit-some :
    (s : Shop) (p : ShopSubscription) (now : ℕ) (db : Db)
    → subscription_of db s.id ≡ some p
    → admit (some s) now db ≡ (
      guard (not (is_subscription_access_suspended p now)) access_suspended,
      with_status s p now db,
    )
unfolding admit sync_shop_access_status
admit-some s p now db e = rw (admit, sync_shop_access_status, e) refl

admit-none :
    (s : Shop) (now : ℕ) (db : Db)
    → subscription_of db s.id ≡ none
    → admit (some s) now db ≡ (err access_suspended, db)
unfolding admit sync_shop_access_status
admit-none s now db e = rw (admit, sync_shop_access_status, e) refl

-- Asked about the row that it left, the gate says the same and writes nothing.
abbrev Settles : ℕ → ℕ → Outcome (Unit {0}) × Db → Type 0
Settles key now r = admit (get key r.1.shops) now r.1 ≡ r

admit-Settles :
    (s : Shop) (now : ℕ) (db : Db)
    → get s.id db.shops ≡ some s
    → Settles s.id now (admit (some s) now db)
admit-Settles s now db row = elim (Option-cases (subscription_of db s.id)) [
  | inl e ↦
      subst (Settles s.id now) (sym (admit-none s now db e))
        (ap (λ o. admit o now db) row ∙ admit-none s now db e)
  | inr (p, e) ↦
      let (t, found, same_id, still) = with_status-again s p now db row in
      let after : Db = with_status s p now db in
      let sub : subscription_of after t.id ≡ some p =
        subscription_of-with_status s p now db t.id ∙ ap (subscription_of db) same_id ∙ e in
      let answer : Outcome (Unit {0}) =
        guard (not (is_subscription_access_suspended p now)) access_suspended in
      subst (Settles s.id now) (sym (admit-some s p now db e)) (
        ap (λ o. admit o now after) found
        ∙ admit-some t p now after sub
        ∙ ap (λ d. (answer, d)) still)
]

effective_shop_id-admit :
    (auth : AuthContext) (s : Shop) (now : ℕ) (db : Db)
    → effective_shop_id (admit (some s) now db).1 auth ≡ effective_shop_id db auth
effective_shop_id-admit auth s now db = elim (Option-cases (subscription_of db s.id)) [
  | inl e ↦ ap (λ r. effective_shop_id r.1 auth) (admit-none s now db e)
  | inr (p, e) ↦
      ap (λ r. effective_shop_id r.1 auth) (admit-some s p now db e)
      ∙ effective_shop_id-with_status s p now db auth
]

gate_ok :
    (auth : AuthContext) (now key : ℕ) (db : Db)
    → effective_shop_id db auth ≡ ok key
    → require_shop_access_active auth now db ≡ admit (get key db.shops) now db
unfolding require_shop_access_active
gate_ok auth now key db h = rw (require_shop_access_active, h) refl

gate_err :
    (auth : AuthContext) (now : ℕ) (e : Error) (db : Db)
    → effective_shop_id db auth ≡ err e
    → require_shop_access_active auth now db ≡ (err e, db)
unfolding require_shop_access_active
gate_err auth now e db h = rw (require_shop_access_active, h) refl

-- After the access gate of a business route, at the same time and for the same caller, the gate
-- gives the same answer again and leaves the database as it is: the cached status of the shop is
-- corrected, and the event of the correction is written, at most once.
pub require_shop_access_active-again :
    (auth : AuthContext) (now : ℕ) (db : Db)
    → require_shop_access_active auth now (require_shop_access_active auth now db).1
      ≡ require_shop_access_active auth now db
unfolding admit
require_shop_access_active-again auth now db = elim (Result-cases (effective_shop_id db auth)) [
  | inl (key, e) ↦
      let first = gate_ok auth now key db e in
      subst (λ r. require_shop_access_active auth now r.1 ≡ r) (sym first)
        (elim (Option-cases (get key db.shops)) [
          | inl none_there ↦
              subst (λ o. require_shop_access_active auth now (admit o now db).1 ≡ admit o now db)
                (sym none_there) (gate_ok auth now key db e ∙ ap (λ o. admit o now db) none_there)
          | inr (s, row) ↦
              let same : s.id ≡ key = get-id key db.shops s row in
              subst (λ o. require_shop_access_active auth now (admit o now db).1 ≡ admit o now db)
                (sym row)
                (gate_ok auth now key (admit (some s) now db).1
                    (effective_shop_id-admit auth s now db ∙ e)
                  ∙ subst (λ k. Settles k now (admit (some s) now db)) same
                      (admit-Settles s now db
                        (subst (λ k. get k db.shops ≡ some s) (sym same) row)))
        ])
  | inr (er, e) ↦
      let first = gate_err auth now er db e in
      subst (λ r. require_shop_access_active auth now r.1 ≡ r) (sym first) first
]
