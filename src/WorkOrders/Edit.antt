-- ===== src/WorkOrders/Edit.antt =====
-- `update_work_order`, `assign_technician` and `add_work_order_note` of app/work_order_store.py. A
-- field of an update is `none` when the request does not send it.
use optimus_os.Base.{
  ℕ, String, Bool, true, false, not, [], ◌∷◌, ◌++◌, Option, none, some, ◌&&◌, ◌==◌, or_else,
  if◌then◌else◌,
}
use optimus_os.Base.Text.{same_text}
use optimus_os.Base.Table.{scalar}
use optimus_os.Base.Result.{ok, ◌>>=◌, require, transaction}
use optimus_os.Errors.{Outcome, technician_not_found}
use optimus_os.Db.{Db}
use optimus_os.Db.Work.{WorkOrder, NoteVisibility}
use optimus_os.Auth.{AuthContext, effective_shop_id, effective_shop_owner_id}
use optimus_os.WorkOrders.{WorkOrderRead, require_work_order, to_read, save_work_order}

pub record UpdateRequest : Type 0 where
  pub diagnosis : Option (Option String)
  pub scheduled_for : Option (Option ℕ)
  pub deposit_received : Option (Option Bool)
  pub authorization_confirmed : Option (Option Bool)
  pub is_comeback : Option (Option Bool)

-- `bool(value)` of a field that was sent, or the old value.
abbrev pub sent_flag : Option (Option Bool) → Bool → Bool
sent_flag none old = old
sent_flag (some value) old = or_else value false

abbrev pub updated : UpdateRequest → WorkOrder → WorkOrder
updated payload w = record w {
  diagnosis = or_else payload.diagnosis w.diagnosis;
  scheduled_for = or_else payload.scheduled_for w.scheduled_for;
  deposit_received = sent_flag payload.deposit_received w.deposit_received;
  authorization_confirmed = sent_flag payload.authorization_confirmed w.authorization_confirmed;
  is_comeback = sent_flag payload.is_comeback w.is_comeback;
}

abbrev pub same_option {ℓ} : {A : Type ℓ} → (A → A → Bool) → Option A → Option A → Bool
same_option same none none = true
same_option same (some a) (some b) = same a b
same_option same _ _ = false

abbrev pub same_flag : Bool → Bool → Bool
same_flag true b = b
same_flag false b = not b

-- The columns that the requests of this module write, `updated_at` apart.
abbrev pub same_columns : WorkOrder → WorkOrder → Bool
same_columns v w =
    same_option same_text v.diagnosis w.diagnosis
    && (same_option (λ a b. a == b) v.scheduled_for w.scheduled_for
        && (same_flag v.deposit_received w.deposit_received
            && (same_flag v.authorization_confirmed w.authorization_confirmed
                && (same_flag v.is_comeback w.is_comeback
                    && same_option (λ a b. a == b) v.assigned_technician_id
                        w.assigned_technician_id))))

-- The row as it is written in place of `old`: `onupdate` sets `updated_at` to the time of the
-- transaction when a column has changed, and else there is no UPDATE.
abbrev pub touched : ℕ → WorkOrder → WorkOrder → WorkOrder
touched now old w = if same_columns old w then w else record w { updated_at = now }

unfoldable pub update_work : AuthContext → ℕ → UpdateRequest → ℕ → Db → Outcome (WorkOrder × Db)
update_work auth key payload now db = do
  w ← require_work_order db auth key
  let w' : WorkOrder = touched now w (updated payload w)
  ok (w', save_work_order w' db)

unfoldable pub update_work_order :
    AuthContext → ℕ → UpdateRequest → ℕ → Db → Outcome WorkOrderRead × Db
update_work_order auth key payload now = transaction (update_work auth key payload now) to_read

-- The technician that is asked for, in the caller's shop.
unfoldable pub find_technician : Db → AuthContext → Option ℕ → Outcome (Option ℕ)
find_technician db auth none = ok none
find_technician db auth (some k) = do
  shop_id ← effective_shop_id db auth
  t ← require (scalar (λ t. t.id == k && t.shop_id == shop_id) db.technicians) technician_not_found
  ok (some t.id)

unfoldable pub assign_work : AuthContext → ℕ → Option ℕ → ℕ → Db → Outcome (WorkOrder × Db)
assign_work auth key technician now db = do
  w ← require_work_order db auth key
  assigned ← find_technician db auth technician
  let w' : WorkOrder = touched now w (record w { assigned_technician_id = assigned })
  ok (w', save_work_order w' db)

unfoldable pub assign_technician : AuthContext → ℕ → Option ℕ → ℕ → Db → Outcome WorkOrderRead × Db
assign_technician auth key technician now =
    transaction (assign_work auth key technician now) to_read

unfoldable pub note_work :
    AuthContext → ℕ → NoteVisibility → String → ℕ → Db → Outcome (WorkOrder × Db)
note_work auth key visibility note now db = do
  w ← require_work_order db auth key
  owner_user_id ← effective_shop_owner_id db auth
  let w' : WorkOrder = record w { updated_at = now }
  let noted : Db = record db {
    work_order_notes =
        db.work_order_notes
        ++ record {
          work_order_id = w.id;
          owner_user_id = owner_user_id;
          shop_id = w.shop_id;
          visibility = visibility;
          note = note;
          created_by_user_id = auth.user.id;
        }
          ∷ [];
  }
  ok (w', save_work_order w' noted)

unfoldable pub add_work_order_note :
    AuthContext → ℕ → NoteVisibility → String → ℕ → Db → Outcome WorkOrderRead × Db
add_work_order_note auth key visibility note now =
    transaction (note_work auth key visibility note now) to_read
