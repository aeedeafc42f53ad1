-- ===== src/WorkOrders/Once.antt =====
-- An approved revision becomes a work order once.
use optimus_os.Base.{
  ℕ, ◌≡◌, refl, Bool, true, false, [], ◌∷◌, ◌++◌, some, arith, ◌&&◌, ◌==◌, ==_refl, Option-cases,
  inl, inr, ◌⊎◌, sym, ap, ◌∙◌, any, not,
}
use mathlib.Core.Path.{subst}
use optimus_os.Base.Table.{scalar, scalar-append_none}
use optimus_os.Base.Result.{ok, >>=-eq-ok, ok_pair_inj, ok_unique, guard}
use optimus_os.Errors.{integrity_error}
use optimus_os.Db.{Db}
use optimus_os.Db.Accounts.{is_technician}
use optimus_os.Db.Work.{Estimate, EstimateRevision, WorkOrder}
use optimus_os.Auth.{AuthContext, effective_shop_id, effective_shop_owner_id, resolve_shop_id}
use optimus_os.WorkOrders.{work_order_query}
use optimus_os.WorkOrders.Create.{
  require_approved_estimate, approved_revision, is_from, new_work_order, add_work_order,
  find_or_add, create_work,
}

-- Once estimate, revision and query are known, what is left is to find the order or add it.
create_work-found :
    (auth : AuthContext) (new_id key now : ℕ) (db : Db) (e : Estimate) (n : ℕ)
    (r : EstimateRevision) (visible : WorkOrder → Bool)
    → require_approved_estimate db auth key ≡ ok (e, n)
    → approved_revision e n db ≡ ok r
    → work_order_query db auth ≡ ok visible
    → create_work auth new_id key now db ≡ find_or_add auth new_id now e r visible db
unfolding create_work
create_work-found auth new_id key now db e n r visible approved revised seen =
    rw (create_work, approved, revised, seen) refl

find_or_add-existing :
    (auth : AuthContext) (new_id now : ℕ) (db : Db) (e : Estimate) (r : EstimateRevision)
    (visible : WorkOrder → Bool) (w : WorkOrder)
    → scalar (λ x. visible x && is_from e r x) db.work_orders ≡ some w
    → find_or_add auth new_id now e r visible db ≡ ok (w, db)
unfolding find_or_add
find_or_add-existing auth new_id now db e r visible w there = rw (find_or_add, there) refl

module _ (auth : AuthContext) (w : WorkOrder) (db : Db) where
  same_estimate :
      (key : ℕ)
      → require_approved_estimate (add_work_order auth w db) auth key
        ≡ require_approved_estimate db auth key
  unfolding require_approved_estimate effective_shop_id
  same_estimate key = refl

  same_revision :
      (e : Estimate) (n : ℕ)
      → approved_revision e n (add_work_order auth w db) ≡ approved_revision e n db
  unfolding approved_revision
  same_revision e n = refl

  same_query :
      is_technician auth.user.role ≡ false
      → work_order_query (add_work_order auth w db) auth ≡ work_order_query db auth
  unfolding work_order_query effective_shop_id
  same_query staff = rw staff refl

-- Staff see every order of their own shop, also one that they have just created.
query-new :
    (auth : AuthContext) (db : Db) (visible : WorkOrder → Bool) (new_id owner shop now : ℕ)
    (e : Estimate) (r : EstimateRevision)
    → is_technician auth.user.role ≡ false
    → work_order_query db auth ≡ ok visible
    → resolve_shop_id db auth ≡ ok shop
    → visible (new_work_order new_id owner shop now e r) ≡ true
unfolding work_order_query resolve_shop_id
query-new auth db visible new_id owner shop now e r staff seen in_shop =
    let (own, e₁, h₁) = >>=-eq-ok (effective_shop_id db auth) _ _ seen in
    let picks : (WorkOrder → Bool) = λ x. x.shop_id == own in
    let same : picks ≡ visible = ok_unique {r = ok picks} refl (rw staff at h₁) in
    let here : own ≡ shop = ok_unique e₁ in_shop in
    subst (λ v. v (new_work_order new_id owner shop now e r) ≡ true) same
      (subst (λ n. (n == own) ≡ true) here (==_refl own))

new-is_from :
    (new_id owner shop now : ℕ) (e : Estimate) (r : EstimateRevision)
    → is_from e r (new_work_order new_id owner shop now e r) ≡ true
new-is_from new_id owner shop now e r = ground (arith, ==_refl e.id, ==_refl r.id)

selected : (a b : Bool) → a ≡ true → b ≡ true → (a && b) ≡ true
selected a b h k = ground (arith, h, k)

-- A new order, and the state with it, is what the next creation finds.
find_or_add-again :
    (auth : AuthContext) (new_id now new_id₂ now₂ : ℕ) (db db' : Db) (e : Estimate)
    (r : EstimateRevision) (visible : WorkOrder → Bool) (w : WorkOrder)
    → is_technician auth.user.role ≡ false
    → work_order_query db auth ≡ ok visible
    → find_or_add auth new_id now e r visible db ≡ ok (w, db')
    → (find_or_add auth new_id₂ now₂ e r visible db' ≡ ok (w, db'))
      × ((db' ≡ db) ⊎ (db' ≡ add_work_order auth w db))
unfolding find_or_add
find_or_add-again auth new_id now new_id₂ now₂ db db' e r visible w staff seen h =
    let its : WorkOrder → Bool = λ x. visible x && is_from e r x in
    elim (Option-cases (scalar its db.work_orders)) [
      | inr (x, there) ↦
          let (same, state) =
            ok_pair_inj _ x w db db' (find_or_add-existing auth new_id now db e r visible x there)
              h in
          (
            subst (λ d. find_or_add auth new_id₂ now₂ e r visible d ≡ ok (w, d)) state
                (subst (λ y. find_or_add auth new_id₂ now₂ e r visible db ≡ ok (y, db)) same
                  (find_or_add-existing auth new_id₂ now₂ db e r visible x there)),
            inl (sym state),
          )
      | inl fresh ↦
          let h₀ = rw (fresh, find_or_add) at h in
          let (owner, owned, h₁) = >>=-eq-ok (effective_shop_owner_id db auth) _ _ h₀ in
          let (shop, in_shop, h₂) = >>=-eq-ok (resolve_shop_id db auth) _ _ h₁ in
          let (u, e₃, h₃) =
            >>=-eq-ok (guard (not (any (is_from e r) db.work_orders)) integrity_error) _ _ h₂ in
          let x : WorkOrder = new_work_order new_id owner shop now e r in
          let (same, state) = ok_pair_inj _ x w (add_work_order auth x db) db' refl h₃ in
          let picked : its x ≡ true =
            selected (visible x) (is_from e r x)
              (query-new auth db visible new_id owner shop now e r staff seen in_shop)
              (new-is_from new_id owner shop now e r) in
          let there : scalar its (db.work_orders ++ x ∷ []) ≡ some x =
            scalar-append_none its db.work_orders x fresh picked in
          let again : find_or_add auth new_id₂ now₂ e r visible (add_work_order auth x db)
              ≡ ok (x, add_work_order auth x db) =
            find_or_add-existing auth new_id₂ now₂ (add_work_order auth x db) e r visible x there in
          (
            subst (λ d. find_or_add auth new_id₂ now₂ e r visible d ≡ ok (w, d)) state
                (subst
                  (λ y.
                    find_or_add auth new_id₂ now₂ e r visible (add_work_order auth x db)
                    ≡ ok (y, add_work_order auth x db))
                  same again),
            inr (sym state ∙ ap (λ y. add_work_order auth y db) same),
          )
    ]

-- An owner or a manager who creates a work order from an estimate again gets the one that is there
-- and changes nothing, whatever happened first: it was found, or it was made.
pub create_work-again :
    (auth : AuthContext) (new_id key now new_id₂ now₂ : ℕ) (db : Db) (w : WorkOrder) (db' : Db)
    → is_technician auth.user.role ≡ false
    → create_work auth new_id key now db ≡ ok (w, db')
    → create_work auth new_id₂ key now₂ db' ≡ ok (w, db')
unfolding create_work
create_work-again auth new_id key now new_id₂ now₂ db w db' staff h =
    let (t, approved, h₁) = >>=-eq-ok (require_approved_estimate db auth key) _ _ h in
    let (r, revised, h₂) = >>=-eq-ok (approved_revision t.0 t.1 db) _ _ h₁ in
    let (visible, seen, h₃) = >>=-eq-ok (work_order_query db auth) _ _ h₂ in
    let (again, state) =
      find_or_add-again auth new_id now new_id₂ now₂ db db' t.0 r visible w staff seen h₃ in
    elim state [
      | inl same ↦
          create_work-found auth new_id₂ key now₂ db' t.0 t.1 r visible
            (subst (λ d. require_approved_estimate d auth key ≡ ok t) (sym same) approved)
            (subst (λ d. approved_revision t.0 t.1 d ≡ ok r) (sym same) revised)
            (subst (λ d. work_order_query d auth ≡ ok visible) (sym same) seen)
          ∙ again
      | inr added ↦
          create_work-found auth new_id₂ key now₂ db' t.0 t.1 r visible
            (subst (λ d. require_approved_estimate d auth key ≡ ok t) (sym added)
              (same_estimate auth w db key ∙ approved))
            (subst (λ d. approved_revision t.0 t.1 d ≡ ok r) (sym added)
              (same_revision auth w db t.0 t.1 ∙ revised))
            (subst (λ d. work_order_query d auth ≡ ok visible) (sym added)
              (same_query auth w db staff ∙ seen))
          ∙ again
    ]
