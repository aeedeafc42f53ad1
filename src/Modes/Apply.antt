-- ===== src/Modes/Apply.antt =====
-- What `apply_mode_transition` changes, what it leaves, and what a stale request gets.
use optimus_os.Base.{
  ℕ, ◌≡◌, refl, ◌∙◌, sym, ap, some_inj, true, false, List, [], ◌∷◌, ◌++◌, some, arith, Bool-cases,
  if◌then◌else◌, inl, inr,
}
use mathlib.Core.Path.{subst}
use mathlib.Core.List.{append-nil, append_assoc}
use optimus_os.Base.Table.{get, save, get-id, get-save_self, save_same, save-save}
use optimus_os.Base.Result.{
  ok, err, >>=-eq-ok, guard, guard-eq-ok, require, require-eq-ok, ok_pair_inj, ok_unique,
  transaction,
}
use optimus_os.Errors.{shop_not_found, mode_conflict}
use optimus_os.Db.{Db}
use optimus_os.Db.Shops.{
  OperatingMode, solo, mobile_field, shop, same_mode, Shop, ShopEvent, shop_id,
  operating_mode_changed,
}
use optimus_os.Auth.{AuthContext, effective_shop_id}
use optimus_os.Modes.{
  lock_shop_and_require_mode, with_mode, apply_work, apply_mode_transition, event_of,
}

pub same_mode-eq : (a b : OperatingMode) → same_mode a b ≡ true → a ≡ b
same_mode-eq solo solo h = refl
same_mode-eq mobile_field mobile_field h = refl
same_mode-eq shop shop h = refl
same_mode-eq solo mobile_field h = cc
same_mode-eq solo shop h = cc
same_mode-eq mobile_field solo h = cc
same_mode-eq mobile_field shop h = cc
same_mode-eq shop solo h = cc
same_mode-eq shop mobile_field h = cc

pub same_mode_sym : (a b : OperatingMode) → same_mode a b ≡ same_mode b a
same_mode_sym a b = ground arith

same_mode_refl : (a : OperatingMode) → same_mode a a ≡ true
same_mode_refl solo = refl
same_mode_refl mobile_field = refl
same_mode_refl shop = refl

-- The caller's shop, in the mode that was expected.
pub record Locked (auth : AuthContext) (expected : OperatingMode) (db : Db) (s : Shop)
    : Type 0 where
  pub own : effective_shop_id db auth ≡ ok s.id
  pub row : get s.id db.shops ≡ some s
  pub mode : s.operating_mode ≡ expected

pub lock-Locked :
    (auth : AuthContext) (expected : OperatingMode) (db : Db) (s : Shop)
    → lock_shop_and_require_mode db auth expected ≡ ok s
    → Locked auth expected db s
unfolding lock_shop_and_require_mode
lock-Locked auth expected db s h =
    let (key, own, h₁) = >>=-eq-ok (effective_shop_id db auth) _ _ h in
    let (found, row, h₂) = >>=-eq-ok (require (get key db.shops) shop_not_found) _ _ h₁ in
    let (u, same, h₃) =
      >>=-eq-ok
        (guard (same_mode found.operating_mode expected)
          (mode_conflict found.operating_mode expected))
        _ _ h₂ in
    let is_row : found ≡ s = ok_unique refl h₃ in
    let stored : get key db.shops ≡ some found = require-eq-ok _ shop_not_found found row in
    let key_of : found.id ≡ key = get-id key db.shops found stored in
    subst (Locked auth expected db) is_row (record {
      own = own ∙ ap ok (sym key_of);
      row = rw key_of stored;
      mode = same_mode-eq _ expected (guard-eq-ok _ _ same);
    })

pub record ApplyStep (auth : AuthContext) (expected proposed : OperatingMode) (now : ℕ) (db : Db)
    (s : Shop) (db' : Db) : Type 0 where
  pub locked : Locked auth expected db s
  pub after : db' ≡ with_mode auth s proposed now db

pub apply_work-ApplyStep :
    (auth : AuthContext) (expected proposed : OperatingMode) (now : ℕ) (db : Db) (s : Shop)
    (db' : Db)
    → apply_work auth expected proposed now db ≡ ok (s, db')
    → ApplyStep auth expected proposed now db s db'
unfolding apply_work
apply_work-ApplyStep auth expected proposed now db s db' h =
    let (t, found, h₁) = >>=-eq-ok (lock_shop_and_require_mode db auth expected) _ _ h in
    let (row, state) = ok_pair_inj _ t s (with_mode auth t proposed now db) db' refl h₁ in
    record {
      locked = subst (Locked auth expected db) row (lock-Locked auth expected db t found);
      after = sym state ∙ ap (λ r. with_mode auth r proposed now db) row;
    }

-- The row as it is after a change of the mode to `mode`, which may be its own.
abbrev pub dated : Shop → OperatingMode → ℕ → ℕ
dated s mode now = if same_mode mode s.operating_mode then s.updated_at else now

abbrev pub moded : Shop → OperatingMode → ℕ → Shop
moded s mode now = record s { operating_mode = mode; updated_at = dated s mode now }

-- A change of the mode changes no one's shop.
pub effective_shop_id-with_mode :
    (auth auth₂ : AuthContext) (s : Shop) (proposed : OperatingMode) (now : ℕ) (db : Db)
    → effective_shop_id (with_mode auth s proposed now db) auth₂ ≡ effective_shop_id db auth₂
unfolding with_mode effective_shop_id
effective_shop_id-with_mode auth auth₂ s proposed now db =
    elim (Bool-cases (same_mode proposed s.operating_mode)) [
      | inl e ↦ rw e refl
      | inr e ↦ rw e refl
    ]

pub get-with_mode :
    (auth : AuthContext) (s : Shop) (proposed : OperatingMode) (now : ℕ) (db : Db)
    → get s.id db.shops ≡ some s
    → get s.id (with_mode auth s proposed now db).shops ≡ some (moded s proposed now)
unfolding with_mode
get-with_mode auth s proposed now db h = elim (Bool-cases (same_mode proposed s.operating_mode)) [
  | inl e ↦
      rw e (h ∙ ap (λ m. some (record s { operating_mode = m })) (sym (same_mode-eq proposed _ e)))
  | inr e ↦
      rw e (get-save_self (record s { operating_mode = proposed; updated_at = now }) s db.shops h)
]

lock-conflict :
    (auth : AuthContext) (expected : OperatingMode) (key : ℕ) (db : Db) (s : Shop)
    → effective_shop_id db auth ≡ ok key
    → get key db.shops ≡ some s
    → same_mode s.operating_mode expected ≡ false
    → lock_shop_and_require_mode db auth expected ≡ err (mode_conflict s.operating_mode expected)
unfolding lock_shop_and_require_mode
lock-conflict auth expected key db s own row differs =
    rw (lock_shop_and_require_mode, own, row, differs) refl

-- Of two requests of one shop that expect the same mode, of whom the first changes it, the second
-- is refused with the mode the first set, and changes nothing, whatever it proposes.
pub apply_mode_transition-stale :
    (auth auth₂ : AuthContext) (expected proposed proposed₂ : OperatingMode) (now now₂ : ℕ)
    (db : Db) (s : Shop) (db' : Db)
    → apply_work auth expected proposed now db ≡ ok (s, db')
    → effective_shop_id db auth₂ ≡ ok s.id
    → same_mode proposed expected ≡ false
    → apply_mode_transition auth₂ expected proposed₂ now₂ db'
      ≡ (err (mode_conflict proposed expected), db')
unfolding apply_mode_transition apply_work
apply_mode_transition-stale auth auth₂ expected proposed proposed₂ now now₂ db s db' h own changes =
    let a = apply_work-ApplyStep auth expected proposed now db s db' h in
    let own' : effective_shop_id db' auth₂ ≡ ok s.id =
      ap (λ d. effective_shop_id d auth₂) a.after
      ∙ effective_shop_id-with_mode auth auth₂ s proposed now db
      ∙ own in
    let row : get s.id db'.shops ≡ some (moded s proposed now) =
      rw a.after (get-with_mode auth s proposed now db a.locked.row) in
    let refused = lock-conflict auth₂ expected s.id db' (moded s proposed now) own' row changes in
    rw (apply_mode_transition, transaction, apply_work, refused) refl

with_mode_same :
    (auth : AuthContext) (s : Shop) (proposed : OperatingMode) (now : ℕ) (db : Db)
    → same_mode proposed s.operating_mode ≡ true
    → with_mode auth s proposed now db ≡ db
unfolding with_mode
with_mode_same auth s proposed now db h = rw h refl

abbrev changing : AuthContext → Shop → OperatingMode → ShopEvent
changing auth s proposed = event_of auth s (operating_mode_changed s.operating_mode proposed)

with_mode_other :
    (auth : AuthContext) (s : Shop) (proposed : OperatingMode) (now : ℕ) (db : Db)
    → same_mode proposed s.operating_mode ≡ false
    → with_mode auth s proposed now db ≡ record db {
      shops = save (record s { operating_mode = proposed; updated_at = now }) db.shops;
      shop_events = db.shop_events ++ changing auth s proposed ∷ [];
    }
unfolding with_mode
with_mode_other auth s proposed now db h = rw h refl

-- The second row is written over the first, and is the first one of all, but for its time.
both_written :
    (auth auth₂ : AuthContext) (expected proposed : OperatingMode) (now now₂ : ℕ) (db : Db)
    (s s₂ : Shop) (db' : Db)
    → db' ≡ record db {
      shops = save (record s { operating_mode = proposed; updated_at = now }) db.shops;
      shop_events = db.shop_events ++ changing auth s proposed ∷ [];
    }
    → s₂ ≡ moded s proposed now
    → s.operating_mode ≡ expected
    → record db' {
      shops = save (record s₂ { operating_mode = expected; updated_at = now₂ }) db'.shops;
      shop_events = db'.shop_events ++ changing auth₂ s₂ expected ∷ [];
    }
      ≡ record db {
        shops = save (record s { updated_at = now₂ }) db.shops;
        shop_events = db.shop_events ++ changing auth s proposed ∷ changing auth₂ s₂ expected ∷ [];
      }
both_written auth auth₂ expected proposed now now₂ db s s₂ db' first is_row mode =
    let w : Shop = record s { operating_mode = proposed; updated_at = now } in
    let e₁ : ShopEvent = changing auth s proposed in
    let e₂ : ShopEvent = changing auth₂ s₂ expected in
    let restored : record s₂ { operating_mode = expected; updated_at = now₂ }
        ≡ record s { updated_at = now₂ } =
      ap {A = Shop} (λ r. record r { operating_mode = expected; updated_at = now₂ }) is_row
      ∙ ap (λ m. record s { operating_mode = m; updated_at = now₂ }) (sym mode) in
    rw (restored, first)
      (ap (λ rows. record db { shops = rows; shop_events = (db.shop_events ++ e₁ ∷ []) ++ e₂ ∷ [] })
          (save-save (record s { updated_at = now₂ }) w db.shops refl)
        ∙ ap
            (λ es. record db {
              shops = save (record s { updated_at = now₂ }) db.shops;
              shop_events = es;
            })
            (append_assoc db.shop_events (e₁ ∷ []) (e₂ ∷ [])))

-- A change of the mode and a change back, by whoever of the shop, leave every row of every table
-- as it was, but for events that are added and for `updated_at` of the shop, which is the time of
-- the second change if the modes differ.
pub apply_work-apply_work :
    (auth auth₂ : AuthContext) (expected proposed : OperatingMode) (now now₂ : ℕ) (db : Db)
    (s s₂ : Shop) (db' db'' : Db)
    → apply_work auth expected proposed now db ≡ ok (s, db')
    → effective_shop_id db auth₂ ≡ ok s.id
    → apply_work auth₂ proposed expected now₂ db' ≡ ok (s₂, db'')
    → (es : List ShopEvent) × (db'' ≡ record db {
      shops =
          save
            (record s { updated_at = if same_mode proposed expected then s.updated_at else now₂ })
            db.shops;
      shop_events = db.shop_events ++ es;
    })
apply_work-apply_work auth auth₂ expected proposed now now₂ db s s₂ db' db'' h own back =
    let a = apply_work-ApplyStep auth expected proposed now db s db' h in
    let b = apply_work-ApplyStep auth₂ proposed expected now₂ db' s₂ db'' back in
    let own' : effective_shop_id db' auth₂ ≡ ok s.id =
      ap (λ d. effective_shop_id d auth₂) a.after
      ∙ effective_shop_id-with_mode auth auth₂ s proposed now db
      ∙ own in
    let same_id : s₂.id ≡ s.id = ok_unique b.locked.own own' in
    let row : get s.id db'.shops ≡ some (moded s proposed now) =
      rw a.after (get-with_mode auth s proposed now db a.locked.row) in
    let is_row : s₂ ≡ moded s proposed now =
      some_inj (sym (subst (λ k. get k db'.shops ≡ some s₂) same_id b.locked.row) ∙ row) in
    let mode₂ : s₂.operating_mode ≡ proposed = ap (λ r. r.operating_mode) is_row in
    elim (Bool-cases (same_mode proposed expected)) [
      | inl e ↦
          let kept : same_mode proposed s.operating_mode ≡ true = rw a.locked.mode e in
          let again : same_mode expected s₂.operating_mode ≡ true =
            rw mode₂ (same_mode_sym expected proposed ∙ e) in
          rw e (
            [],
            b.after
                ∙ with_mode_same auth₂ s₂ expected now₂ db' again
                ∙ a.after
                ∙ with_mode_same auth s proposed now db kept
                ∙ ap (λ rows. record db { shops = rows }) (sym (save_same s db.shops a.locked.row))
                ∙ ap (λ es. record db { shops = save s db.shops; shop_events = es })
                    (sym (append-nil db.shop_events)),
          )
      | inr e ↦
          let first = a.after ∙ with_mode_other auth s proposed now db (rw a.locked.mode e) in
          let again : same_mode expected s₂.operating_mode ≡ false =
            rw mode₂ (same_mode_sym expected proposed ∙ e) in
          rw e (
            changing auth s proposed ∷ changing auth₂ s₂ expected ∷ [],
            b.after
                ∙ with_mode_other auth₂ s₂ expected now₂ db' again
                ∙ both_written auth auth₂ expected proposed now now₂ db s s₂ db' first is_row
                    a.locked.mode,
          )
    ]
