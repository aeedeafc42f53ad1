-- ===== src/Modes/Preview.antt =====
-- What a preview of a change of mode promises of the change itself.
use optimus_os.Base.{ℕ, ◌≡◌, ◌==◌, refl, ◌∙◌, sym, ap, some_inj, some, not, Bool-cases, inl, inr}
use mathlib.Core.Path.{subst}
use optimus_os.Base.Table.{get, scalar}
use optimus_os.Base.Result.{ok, >>=-eq-ok, require, require-eq-ok, ok_unique, transaction-eq-ok}
use optimus_os.Errors.{shop_not_found, no_subscription}
use optimus_os.Db.{Db}
use optimus_os.Db.Shops.{OperatingMode, same_mode, Shop, shop_id}
use optimus_os.Auth.{AuthContext, effective_shop_id}
use optimus_os.Capabilities.{CapabilitiesRead, capability_levels_for, resolve_capabilities}
use optimus_os.Modes.{
  with_mode, apply_work, apply_mode_transition, transition_result, preview_mode_transition,
  count_existing_data, ModeTransitionPreview, ModeTransitionResult, Category, bay_rows,
  technician_rows, appointment_rows, working_hours_rows, schedule_block_rows, capability_changes,
}
use optimus_os.Modes.Apply.{
  moded, apply_work-ApplyStep, effective_shop_id-with_mode, get-with_mode, same_mode_sym,
}

record Previewed (auth : AuthContext) (proposed : OperatingMode) (db : Db)
    (p : ModeTransitionPreview) : Type 0 where
  key : ℕ
  s : Shop
  own : effective_shop_id db auth ≡ ok key
  row : get key db.shops ≡ some s
  changes :
      p.capability_changes
      ≡ capability_changes
          (capability_levels_for s.operating_mode auth.user.role)
          (capability_levels_for proposed auth.user.role)
  noop : p.is_noop ≡ same_mode s.operating_mode proposed

preview_mode_transition-Previewed :
    (auth : AuthContext) (proposed : OperatingMode) (db : Db) (p : ModeTransitionPreview)
    → preview_mode_transition db auth proposed ≡ ok p
    → Previewed auth proposed db p
unfolding preview_mode_transition
preview_mode_transition-Previewed auth proposed db p h =
    let (key, own, h₁) = >>=-eq-ok (effective_shop_id db auth) _ _ h in
    let (s, row, h₂) = >>=-eq-ok (require (get key db.shops) shop_not_found) _ _ h₁ in
    let same = ok_unique refl h₂ in
    record {
      key = key;
      s = s;
      own = own;
      row = require-eq-ok _ shop_not_found s row;
      changes = sym (ap (λ q. q.capability_changes) same);
      noop = sym (ap (λ q. q.is_noop) same);
    }

resolve_capabilities-mode :
    (auth : AuthContext) (db : Db) (key : ℕ) (s : Shop) (c : CapabilitiesRead)
    → effective_shop_id db auth ≡ ok key
    → get key db.shops ≡ some s
    → resolve_capabilities db auth ≡ ok c
    → c.operating_mode ≡ s.operating_mode
unfolding resolve_capabilities
resolve_capabilities-mode auth db key s c own row h =
    let (key₂, own₂, h₁) = >>=-eq-ok (effective_shop_id db auth) _ _ h in
    let (t, row₂, h₂) = >>=-eq-ok (require (get key₂ db.shops) no_subscription) _ _ h₁ in
    let (plan, e₃, h₃) =
      >>=-eq-ok (require (scalar (λ p. p.shop_id == t.id) db.shop_subscriptions) no_subscription) _
        _ h₂ in
    let keys : key₂ ≡ key = ok_unique own₂ own in
    let stored : get key db.shops ≡ some t =
      subst (λ k. get k db.shops ≡ some t) keys (require-eq-ok _ no_subscription t row₂) in
    let same : t ≡ s = some_inj (sym stored ∙ row) in
    sym (ap (λ q. q.operating_mode) (ok_unique refl h₃)) ∙ ap (λ r. r.operating_mode) same

count-with_mode :
    (auth : AuthContext) (s : Shop) (proposed : OperatingMode) (now : ℕ) (db : Db) (key : ℕ)
    (k : Category)
    → count_existing_data (with_mode auth s proposed now db) key k ≡ count_existing_data db key k
unfolding with_mode count_existing_data
count-with_mode auth s proposed now db key k =
    elim (Bool-cases (same_mode proposed s.operating_mode)) [
      | inl e ↦ rw e refl
      | inr e ↦ rw e (elim k [
        | bay_rows ↦ refl
        | technician_rows ↦ refl
        | appointment_rows ↦ refl
        | working_hours_rows ↦ refl
        | schedule_block_rows ↦ refl
      ])
    ]

-- When the change that a preview announces succeeds at once after it, the response names the same
-- changed capabilities as the preview, says that the mode changed exactly if the preview does not
-- call it a no-op, and shows the shop in the proposed mode; and of no category of data, of any shop,
-- a row is gone.
pub apply_mode_transition-preview :
    (auth : AuthContext) (proposed : OperatingMode) (db : Db) (p : ModeTransitionPreview)
    (r : ModeTransitionResult) (now : ℕ) (db' : Db)
    → preview_mode_transition db auth proposed ≡ ok p
    → apply_mode_transition auth p.current_mode proposed now db ≡ (ok r, db')
    → (r.capability_changes ≡ p.capability_changes)
      × (r.changed ≡ not p.is_noop)
      × (r.capabilities.operating_mode ≡ proposed)
      × ((key : ℕ) (k : Category) → count_existing_data db' key k ≡ count_existing_data db key k)
unfolding apply_mode_transition transition_result
apply_mode_transition-preview auth proposed db p r now db' h done =
    let q = preview_mode_transition-Previewed auth proposed db p h in
    let (s, worked, viewed) =
      transaction-eq-ok (apply_work auth p.current_mode proposed now)
        (transition_result auth proposed) db db' r done in
    let a = apply_work-ApplyStep auth p.current_mode proposed now db s db' worked in
    let (c, resolved, h₁) = >>=-eq-ok (resolve_capabilities db' auth) _ _ viewed in
    let same_key : s.id ≡ q.key = ok_unique a.locked.own q.own in
    let is_row : s ≡ q.s =
      some_inj (sym (subst (λ k. get k db.shops ≡ some s) same_key a.locked.row) ∙ q.row) in
    let made = ok_unique refl h₁ in
    let own : effective_shop_id db' auth ≡ ok s.id =
      ap (λ d. effective_shop_id d auth) a.after
      ∙ effective_shop_id-with_mode auth auth s proposed now db
      ∙ a.locked.own in
    let row : get s.id db'.shops ≡ some (moded s proposed now) =
      rw a.after (get-with_mode auth s proposed now db a.locked.row) in
    (
      sym (ap (λ x. x.capability_changes) made)
          ∙ ap
              (λ x.
                capability_changes (capability_levels_for x.operating_mode auth.user.role)
                  (capability_levels_for proposed auth.user.role))
              is_row
          ∙ sym q.changes,
      sym (ap (λ x. x.changed) made)
          ∙ ap (λ x. not (same_mode proposed x.operating_mode)) is_row
          ∙ ap not (same_mode_sym proposed q.s.operating_mode ∙ sym q.noop),
      sym (ap (λ x. x.capabilities.operating_mode) made)
          ∙ resolve_capabilities-mode auth db' s.id (moded s proposed now) c own row resolved,
      λ key k.
          ap (λ d. count_existing_data d key k) a.after
          ∙ count-with_mode auth s proposed now db key k,
    )
