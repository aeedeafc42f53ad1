-- ===== src/Base/Table.antt =====
-- Tables of rows. A table is the list of its rows in insertion order. `scalar` is the first row
-- that a query selects, `save` writes a row back under its primary key.
use Prim.Native.Nat.{ℕ, ◌+◌}
use mathlib.Core.Path.{◌≡◌, refl, sym, ◌∙◌}
use mathlib.Core.Logic.{◌≢◌, inl, inr}
use mathlib.Core.Bool.{Bool, true, false, not}
use mathlib.Core.Path.{subst}
use mathlib.Core.Option.{Option, none, some}
use mathlib.Core.List.{List, [], ◌∷◌, ◌++◌}
use native.Mathlib.Omega.{arith}
use optimus_os.Base.Tests.{◌==◌, if◌then◌else◌, Bool-cases, ==_eq, ==_ne, some_inj}
use optimus_os.Base.Lists.{All, sum_of, length, filter}

-- A row type with its primary key.
pub record HasId {ℓ} (A : Type ℓ) : Type ℓ where
  pub id : A → ℕ

module _ {ℓ} {A : Type ℓ} where
  -- `db.scalar(select(...).where(p))`
  abbrev pub scalar : (A → Bool) → List A → Option A
  scalar p [] = none
  scalar p (x ∷ xs) = if p x then some x else scalar p xs

  pub scalar_sound : (p : A → Bool) (xs : List A) (r : A) → scalar p xs ≡ some r → p r ≡ true
  scalar_sound p [] r h = cc
  scalar_sound p (x ∷ xs) r h = elim (Bool-cases (p x)) [
    | inl e ↦ ground (arith, e)
    | inr e ↦ scalar_sound p xs r (rw e at h)
  ]

  pub All-scalar {κ} :
      (P : A → Type κ) (p : A → Bool) (xs : List A) (r : A) → All P xs → scalar p xs ≡ some r → P r
  All-scalar P p [] r a h = cc
  All-scalar P p (x ∷ xs) r a h = elim (Bool-cases (p x)) [
    | inl e ↦ subst P (some_inj (rw e at h)) a.0
    | inr e ↦ All-scalar P p xs r a.1 (rw e at h)
  ]

module _ {ℓ} {A : Type ℓ} ⦃t : HasId A⦄ where
  -- The row with a primary key, `db.get(Model, k)`.
  abbrev pub get : ℕ → List A → Option A
  get k xs = scalar (λ x. t.id x == k) xs

  -- Write a row back in the place of the one with its key; a row with no place is not written.
  abbrev pub save : A → List A → List A
  save r [] = []
  save r (x ∷ xs) = if t.id x == t.id r then r ∷ xs else x ∷ save r xs

  -- `db.delete(row)`, of the row with a primary key.
  abbrev pub remove : ℕ → List A → List A
  remove k xs = filter (λ x. not (t.id x == k)) xs

  -- Primary keys are unique.
  abbrev pub Unique : List A → Type ℓ
  Unique [] = Unit
  Unique (x ∷ xs) = (get (t.id x) xs ≡ none) × Unique xs

  pub All-save {κ} : (P : A → Type κ) (r : A) (xs : List A) → All P xs → P r → All P (save r xs)
  All-save P r [] a h = tt
  All-save P r (x ∷ xs) a h = elim (Bool-cases (t.id x == t.id r)) [
    | inl e ↦ rw e (h, a.1)
    | inr e ↦ rw e (a.0, All-save P r xs a.1 h)
  ]

  -- A row that a query on its key selects is the row with that key.
  pub get-id : (k : ℕ) (xs : List A) (r : A) → get k xs ≡ some r → t.id r ≡ k
  get-id k xs r h = ==_eq (t.id r) k (scalar_sound (λ x. t.id x == k) xs r h)

  pub get-save_self :
      (r old : A) (xs : List A) → get (t.id r) xs ≡ some old → get (t.id r) (save r xs) ≡ some r
  get-save_self r old [] h = cc
  get-save_self r old (x ∷ xs) h = ground (arith, get-save_self r old xs)

  -- The row that was found under a key is replaced by the one that is written back.
  pub get-save_found :
      (k : ℕ) (r old : A) (xs : List A)
      → get k xs ≡ some old
      → t.id r ≡ t.id old
      → get k (save r xs) ≡ some r
  get-save_found k r old xs h same =
      let key : t.id r ≡ k = same ∙ get-id k xs old h in
      subst (λ n. get n (save r xs) ≡ some r) key
        (get-save_self r old xs (subst (λ n. get n xs ≡ some old) (sym key) h))

  pub get-save_ne : (k : ℕ) (r : A) (xs : List A) → k ≢ t.id r → get k (save r xs) ≡ get k xs
  get-save_ne k r [] h = refl
  get-save_ne k r (x ∷ xs) h = ground (arith, get-save_ne k r xs h)

  pub get-append_ne : (k : ℕ) (r : A) (xs : List A) → k ≢ t.id r → get k (xs ++ r ∷ []) ≡ get k xs
  get-append_ne k r [] h = ground arith
  get-append_ne k r (x ∷ xs) h = ground (arith, get-append_ne k r xs h)

  pub save-Unique : (r : A) (xs : List A) → Unique xs → Unique (save r xs)
  save-Unique r [] u = tt
  save-Unique r (x ∷ xs) u = elim (Bool-cases (t.id x == t.id r)) [
    | inl e ↦
        let same : get (t.id r) xs ≡ none = subst (λ k. get k xs ≡ none) (==_eq _ _ e) u.0 in
        rw e (same, u.1)
    | inr e ↦
        let differ : t.id x ≢ t.id r = ==_ne _ _ e in
        rw e (get-save_ne (t.id x) r xs differ ∙ u.0, save-Unique r xs u.1)
  ]

  -- A sum over a table moves by what the saved row moves.
  pub sum_of-save :
      (f : A → ℕ) (r old : A) (xs : List A)
      → get (t.id r) xs ≡ some old
      → sum_of f (save r xs) + f old ≡ sum_of f xs + f r
  sum_of-save f r old [] h = cc
  sum_of-save f r old (x ∷ xs) h = ground (arith, sum_of-save f r old xs)

  pub length-save : (r : A) (xs : List A) → length (save r xs) ≡ length xs
  length-save r [] = refl
  length-save r (x ∷ xs) = ground (arith, length-save r xs)

  -- Writing a row back as it is changes nothing, and the last of two writes counts.
  pub save_same : (r : A) (xs : List A) → get (t.id r) xs ≡ some r → save r xs ≡ xs
  save_same r [] h = refl
  save_same r (x ∷ xs) h = ground (arith, save_same r xs)

  pub save-save : (r q : A) (xs : List A) → t.id q ≡ t.id r → save r (save q xs) ≡ save r xs
  save-save r q [] h = refl
  save-save r q (x ∷ xs) h = ground (arith, save-save r q xs h, h)

  -- With unique keys, a row found by any query is the row under its key.
  pub get-scalar :
      (p : A → Bool) (xs : List A) (r : A)
      → Unique xs
      → scalar p xs ≡ some r
      → get (t.id r) xs ≡ some r
  get-scalar p [] r u h = cc
  get-scalar p (x ∷ xs) r u h = elim (Bool-cases (p x)) [
    | inl e ↦ ground (arith, e)
    | inr e ↦
        let later : get (t.id r) xs ≡ some r = get-scalar p xs r u.1 (rw e at h) in
        ground (arith, u.0, later)
  ]

  -- A query that selects neither the old row nor the new one does not see the write.
  pub scalar-save_miss :
      (p : A → Bool) (r old : A) (xs : List A)
      → get (t.id r) xs ≡ some old
      → p old ≡ false
      → p r ≡ false
      → scalar p (save r xs) ≡ scalar p xs
  scalar-save_miss p r old [] h before after = refl
  scalar-save_miss p r old (x ∷ xs) h before after =
      ground (arith, h, before, after, scalar-save_miss p r old xs)

  -- The row that a query finds is found again after it was written back, if the query still
  -- selects it.
  pub scalar-save :
      (p : A → Bool) (xs : List A) (old r : A)
      → Unique xs
      → scalar p xs ≡ some old
      → t.id r ≡ t.id old
      → p r ≡ true
      → scalar p (save r xs) ≡ some r
  scalar-save p [] old r u h same sel = cc
  scalar-save p (x ∷ xs) old r u h same sel = elim (Bool-cases (p x)) [
    | inl e ↦ ground (arith, e, h, same, sel)
    | inr e ↦
        let later : scalar p xs ≡ some old = rw e at h in
        let row : get (t.id old) xs ≡ some old = get-scalar p xs old u.1 later in
        let rest : scalar p (save r xs) ≡ some r = scalar-save p xs old r u.1 later same sel in
        ground (arith, e, row, rest, u.0, same)
  ]

-- A row that is added is found by a query that found none before and selects it.
pub scalar-append_none {ℓ} :
    {A : Type ℓ} (p : A → Bool) (xs : List A) (r : A)
    → scalar p xs ≡ none
    → p r ≡ true
    → scalar p (xs ++ r ∷ []) ≡ some r
scalar-append_none p [] r h sel = rw sel refl
scalar-append_none p (x ∷ xs) r h sel = ground (arith, scalar-append_none p xs r)
