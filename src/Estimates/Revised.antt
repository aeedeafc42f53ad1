-- ===== src/Estimates/Revised.antt =====
-- What a new revision of app/estimate_store.py has found and written when it succeeds.
use optimus_os.Base.{ℕ, suc, ◌≡◌, refl, [], ◌∷◌, ◌++◌, any, not, true, ap, sym, ◌∙◌}
use optimus_os.Base.Result.{ok, >>=-eq-ok, guard, guard-eq-ok, ok_pair_inj, ok_unique}
use optimus_os.Errors.{integrity_error}
use optimus_os.Db.{Db}
use optimus_os.Db.Work.{Estimate, EstimateRevision, draft, ready}
use optimus_os.Auth.{AuthContext, effective_shop_owner_id, resolve_shop_id}
use optimus_os.Estimates.{require_estimate, latest_revision, save_estimate}
use optimus_os.Estimates.Content.{Services, EstimateCreate, Content, build_content, new_revision}
use optimus_os.Estimates.Revise.{
  add_estimate, add_revision, next_estimate_number, is_taken, same_number, supersede,
  revised_estimate, revise_work, new_estimate,
}

abbrev pub with_revision : EstimateRevision → Db → Db
with_revision r db = record db { estimate_revisions = db.estimate_revisions ++ r ∷ [] }

pub add_revision-added :
    (r : EstimateRevision) (db db' : Db)
    → add_revision r db ≡ ok db'
    → (with_revision r db ≡ db') × (not (is_taken r db.estimate_revisions) ≡ true)
unfolding add_revision
add_revision-added r db db' h =
    let (u, e, h₁) =
      >>=-eq-ok (guard (not (is_taken r db.estimate_revisions)) integrity_error) _ _ h in
    (ok_unique {r = ok (with_revision r db)} refl h₁, guard-eq-ok _ integrity_error e)

pub add_revision-requests :
    (r : EstimateRevision) (db db' : Db)
    → add_revision r db ≡ ok db'
    → db'.estimate_approval_requests ≡ db.estimate_approval_requests
add_revision-requests r db db' h =
    ap (λ d. d.estimate_approval_requests) (sym (add_revision-added r db db' h).0)

pub record AddStep (services : Services) (revision_key : ℕ) (content : Content) (db db' : Db)
    : Type 0 where
  pub made : Estimate
  pub owner : ℕ
  pub added :
      add_revision
        (new_revision services revision_key owner content draft 1 made)
        (record db { estimates = db.estimates ++ made ∷ [] })
      ≡ ok db'

pub add_estimate-AddStep :
    (services : Services) (auth : AuthContext) (new_id revision_key : ℕ) (content : Content)
    (db : Db) (e : Estimate) (db' : Db)
    → add_estimate services auth new_id revision_key content db ≡ ok (e, db')
    → AddStep services revision_key content db db'
unfolding add_estimate
add_estimate-AddStep services auth new_id revision_key content db e db' h =
    let (owner, e₁, h₁) = >>=-eq-ok (effective_shop_owner_id db auth) _ _ h in
    let (shop, e₂, h₂) = >>=-eq-ok (resolve_shop_id db auth) _ _ h₁ in
    let (number, e₃, h₃) = >>=-eq-ok (next_estimate_number db auth) _ _ h₂ in
    let (u, e₄, h₄) =
      >>=-eq-ok
        (guard (not (any (λ e. same_number e.estimate_number number) db.estimates)) integrity_error)
        _ _ h₃ in
    let made : Estimate = new_estimate new_id owner shop number content in
    let r : EstimateRevision = new_revision services revision_key owner content draft 1 made in
    let with_row : Db = record db { estimates = db.estimates ++ made ∷ [] } in
    let (d, e₅, h₅) = >>=-eq-ok (add_revision r with_row) _ _ h₄ in
    let (same, state) = ok_pair_inj _ made e d db' refl h₅ in
    record { made = made; owner = owner; added = e₅ ∙ ap (λ x. ok x) state }

pub add_estimate-requests :
    (services : Services) (auth : AuthContext) (new_id revision_key : ℕ) (content : Content)
    (db : Db) (e : Estimate) (db' : Db)
    → add_estimate services auth new_id revision_key content db ≡ ok (e, db')
    → db'.estimate_approval_requests ≡ db.estimate_approval_requests
add_estimate-requests services auth new_id revision_key content db e db' h =
    let s = add_estimate-AddStep services auth new_id revision_key content db e db' h in
    add_revision-requests _ _ db' s.added

pub record ReviseStep (services : Services) (auth : AuthContext) (new_id key : ℕ)
    (payload : EstimateCreate) (now : ℕ) (db : Db) (e' : Estimate) (db' : Db) : Type 0 where
  pub e : Estimate
  pub prior : EstimateRevision
  pub content : Content
  pub owner : ℕ
  pub found : require_estimate db auth key ≡ ok e
  pub before : latest_revision e db ≡ ok prior
  pub built : build_content services auth payload now db ≡ ok content
  pub revised : revised_estimate payload content e ≡ e'
  pub added :
      add_revision
        (new_revision services new_id owner content ready (suc e.current_revision_number) e)
        (save_estimate
          (revised_estimate payload content e)
          (supersede auth payload.reason e prior db))
      ≡ ok db'

pub revise_work-ReviseStep :
    (services : Services) (auth : AuthContext) (new_id key : ℕ) (payload : EstimateCreate) (now : ℕ)
    (db : Db) (e' : Estimate) (db' : Db)
    → revise_work services auth new_id key payload now db ≡ ok (e', db')
    → ReviseStep services auth new_id key payload now db e' db'
unfolding revise_work
revise_work-ReviseStep services auth new_id key payload now db e' db' h =
    let (e, e₁, h₁) = >>=-eq-ok (require_estimate db auth key) _ _ h in
    let (prior, e₂, h₂) = >>=-eq-ok (latest_revision e db) _ _ h₁ in
    let (content, e₃, h₃) = >>=-eq-ok (build_content services auth payload now db) _ _ h₂ in
    let (owner, e₄, h₄) = >>=-eq-ok (effective_shop_owner_id db auth) _ _ h₃ in
    let (d, e₅, h₅) =
      >>=-eq-ok
        (add_revision
          (new_revision services new_id owner content ready (suc e.current_revision_number) e)
          (save_estimate (revised_estimate payload content e)
            (supersede auth payload.reason e prior db)))
        _ _ h₄ in
    let (same, state) = ok_pair_inj _ (revised_estimate payload content e) e' d db' refl h₅ in
    record {
      e = e;
      prior = prior;
      content = content;
      owner = owner;
      found = e₁;
      before = e₂;
      built = e₃;
      revised = same;
      added = e₅ ∙ ap (λ x. ok x) state;
    }
