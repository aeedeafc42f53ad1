-- ===== src/Estimates/Once.antt =====
-- The links of app/estimate_store.py that are used or revoked: a closed link in the table.
use optimus_os.Base.{
  ℕ, ◌≡◌, refl, String, Bool, true, false, List, [], ◌∷◌, ◌++◌, none, some, ◌==◌, ◌⊎◌, arith, ap,
  Bool-cases, inl, inr, sym, ◌∙◌, some_inj,
}
use mathlib.Core.Path.{subst}
use optimus_os.Base.Table.{
  scalar-save, get, scalar, save, Unique, scalar_sound, get-scalar, save-Unique,
}
use optimus_os.Base.Result.{ok}
use optimus_os.Db.{Db}
use optimus_os.Db.Approvals.{EstimateApprovalRequest, request_id}
use optimus_os.Scheduling.Apart.{Unique-append}
use optimus_os.Estimates.{is_active}
use optimus_os.Estimates.Resolve.{resolve_active_approval_request}
use optimus_os.Estimates.Decide.{admit-Live}

-- The link with the digest is there and is not active.
pub record Burnt (digest : ℕ) (rows : List EstimateApprovalRequest) : Type 0 where
  pub keys : Unique rows
  pub q : EstimateApprovalRequest
  pub named : scalar (λ x. x.token_hash == digest) rows ≡ some q
  pub shut : is_active q.status ≡ false

-- After a row was written that a query selects if it selected the old one, the query finds that
-- row or what it found before.
scalar-save_either :
    (p : EstimateApprovalRequest → Bool) (r old : EstimateApprovalRequest)
    (rows : List EstimateApprovalRequest)
    → get r.id rows ≡ some old
    → p r ≡ p old
    → (scalar p (save r rows) ≡ scalar p rows) ⊎ (scalar p (save r rows) ≡ some r)
scalar-save_either p r old [] h same = inl refl
scalar-save_either p r old (x ∷ rows) h same = elim (Bool-cases (x.id == r.id)) [
  | inl e ↦
      let is_old : x ≡ old = some_inj (rw e at h) in
      elim (Bool-cases (p r)) [
        | inl sel ↦ inr (rw (e, sel) refl)
        | inr other ↦
            let missed : p x ≡ false = rw is_old (sym same ∙ other) in
            inl (rw (e, other, missed) refl)
      ]
  | inr e ↦ elim (Bool-cases (p x)) [
    | inl sel ↦ inl (rw (e, sel) refl)
    | inr other ↦ rw (e, other) (scalar-save_either p r old rows (rw e at h) same)
  ]
]

pub scalar-append_some {ℓ} :
    {A : Type ℓ} (p : A → Bool) (rows : List A) (q r : A)
    → scalar p rows ≡ some q
    → scalar p (rows ++ r ∷ []) ≡ some q
scalar-append_some p [] q r h = cc
scalar-append_some p (x ∷ rows) q r h = ground (arith, h, scalar-append_some p rows q r)

-- A link that is written back closed leaves closed what was closed.
pub save-Burnt :
    (digest : ℕ) (p : EstimateApprovalRequest → Bool) (q r : EstimateApprovalRequest)
    (rows : List EstimateApprovalRequest)
    → Burnt digest rows
    → scalar p rows ≡ some q
    → r.id ≡ q.id
    → r.token_hash ≡ q.token_hash
    → is_active r.status ≡ false
    → Burnt digest (save r rows)
save-Burnt digest p q r rows b found key hash closed =
    let row : get r.id rows ≡ some q = rw key (get-scalar p rows q b.keys found) in
    elim (scalar-save_either (λ x. x.token_hash == digest) r q rows row
      (ap (λ h. h == digest) hash)) [
        | inl same ↦ record {
          keys = save-Unique r rows b.keys;
          q = b.q;
          named = same ∙ b.named;
          shut = b.shut;
        }
        | inr new ↦ record { keys = save-Unique r rows b.keys; q = r; named = new; shut = closed }
      ]

pub append-Burnt :
    (digest : ℕ) (r : EstimateApprovalRequest) (rows : List EstimateApprovalRequest)
    → Burnt digest rows
    → get r.id rows ≡ none
    → Burnt digest (rows ++ r ∷ [])
append-Burnt digest r rows b fresh = record {
  keys = Unique-append r rows b.keys fresh;
  q = b.q;
  named = scalar-append_some (λ x. x.token_hash == digest) rows b.q r b.named;
  shut = b.shut;
}

-- A link that is written back closed is closed from then on.
pub shut-Burnt :
    (digest : ℕ) (q r : EstimateApprovalRequest) (rows : List EstimateApprovalRequest)
    → Unique rows
    → scalar (λ x. x.token_hash == digest) rows ≡ some q
    → r.id ≡ q.id
    → r.token_hash ≡ q.token_hash
    → is_active r.status ≡ false
    → Burnt digest (save r rows)
shut-Burnt digest q r rows u named key hash closed = record {
  keys = save-Unique r rows u;
  q = r;
  named =
      scalar-save (λ x. x.token_hash == digest) rows q r u named key
        (ap (λ h. h == digest) hash ∙ scalar_sound (λ x. x.token_hash == digest) rows q named);
  shut = closed;
}

-- With a closed link nothing is decided and nothing is shown.
pub resolve-Burnt :
    (hash_token : String → ℕ) (token : String) (now : ℕ) (db : Db) (q : EstimateApprovalRequest)
    → Burnt (hash_token token) db.estimate_approval_requests
    → (resolve_active_approval_request hash_token token now db).0 ≡ ok q
    → ⊥
resolve-Burnt hash_token token now db q b h =
    let (live, run) = admit-Live hash_token token now db q h in
    let same : q ≡ b.q = some_inj (sym live.named ∙ b.named) in
    let open_still : is_active b.q.status ≡ true =
      subst (λ x. is_active x.status ≡ true) same live.is_open in
    ground (arith, open_still, b.shut)
