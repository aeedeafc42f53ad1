-- ===== src/Scheduling/Apart.antt =====
-- Tables whose rows are pairwise apart, for a symmetric test of two rows that clash.
use optimus_os.Base.{
  ℕ, ◌≡◌, refl, ◌∙◌, Bool, false, List, [], ◌∷◌, ◌++◌, none, inl, inr, ◌==◌, Bool-cases, arith,
  ==_ne, filter, some, some_inj, All, All-append, ◌&&◌, map,
}
use mathlib.Core.Path.{subst}
use optimus_os.Base.Table.{HasId, get, save, Unique, All-save, get-append_ne, All-scalar}

module _ {ℓ} {A : Type ℓ} where
  -- No two rows clash.
  abbrev pub Apart : (A → A → Bool) → List A → Type 0
  Apart clash [] = Unit
  Apart clash (x ∷ xs) = All (λ y. clash x y ≡ false) xs × Apart clash xs

  pub All-intro {κ} : (P : A → Type κ) (xs : List A) → ((x : A) → P x) → All P xs
  All-intro P [] f = tt
  All-intro P (x ∷ xs) f = (f x, All-intro P xs f)

  pub All-impl {κ μ} :
      (P : A → Type κ) (Q : A → Type μ) (xs : List A) → ((x : A) → P x → Q x) → All P xs → All Q xs
  All-impl P Q [] f h = tt
  All-impl P Q (x ∷ xs) f h = (f x h.0, All-impl P Q xs f h.1)

  pub All-last {κ} : (P : A → Type κ) (xs : List A) (r : A) → All P (xs ++ r ∷ []) → P r
  All-last P [] r h = h.0
  All-last P (x ∷ xs) r h = All-last P xs r h.1

  pub All-and {κ μ} :
      (P : A → Type κ) (Q : A → Type μ) (xs : List A)
      → All P xs
      → All Q xs
      → All (λ x. P x × Q x) xs
  All-and P Q [] h k = tt
  All-and P Q (x ∷ xs) h k = ((h.0, k.0), All-and P Q xs h.1 k.1)

  pub filter-none : (p : A → Bool) (xs : List A) → filter p xs ≡ [] → All (λ x. p x ≡ false) xs
  filter-none p [] h = tt
  filter-none p (x ∷ xs) h = elim (Bool-cases (p x)) [
    | inl e ↦ absurd (ground (arith, h, e))
    | inr e ↦ (e, filter-none p xs (rw e at h))
  ]

  pub filter-filter :
      (p q : A → Bool) (xs : List A) → filter q (filter p xs) ≡ filter (λ x. p x && q x) xs
  filter-filter p q [] = refl
  filter-filter p q (x ∷ xs) = ground (arith, filter-filter p q xs)

  pub filter-congr :
      (p q : A → Bool) (xs : List A) → All (λ x. p x ≡ q x) xs → filter p xs ≡ filter q xs
  filter-congr p q [] h = refl
  filter-congr p q (x ∷ xs) h = ground (arith, filter-congr p q xs h.1, h.0)

  pub append_nil : (xs ys : List A) → xs ++ ys ≡ [] → (xs ≡ []) × (ys ≡ [])
  append_nil [] ys h = (refl, h)
  append_nil (x ∷ xs) ys h = cc

  pub map_nil {κ} : {B : Type κ} (f : A → B) (xs : List A) → map f xs ≡ [] → xs ≡ []
  map_nil f [] h = refl
  map_nil f (x ∷ xs) h = cc

  pub Apart-append :
      (clash : A → A → Bool) (r : A) (xs : List A)
      → Apart clash xs
      → All (λ y. clash y r ≡ false) xs
      → Apart clash (xs ++ r ∷ [])
  Apart-append clash r [] apart new = (tt, tt)
  Apart-append clash r (x ∷ xs) apart new = (
    All-append (λ y. clash x y ≡ false) xs (r ∷ []) apart.0 (new.0, tt),
    Apart-append clash r xs apart.1 new.1,
  )

module _ {ℓ} {A : Type ℓ} ⦃t : HasId A⦄ where
  pub get-none : (k : ℕ) (xs : List A) → get k xs ≡ none → All (λ y. (t.id y == k) ≡ false) xs
  get-none k [] h = tt
  get-none k (x ∷ xs) h = elim (Bool-cases (t.id x == k)) [
    | inl e ↦ absurd (ground (arith, h, e))
    | inr e ↦ (e, get-none k xs (rw e at h))
  ]

  pub Unique-append :
      (r : A) (xs : List A) → Unique xs → get (t.id r) xs ≡ none → Unique (xs ++ r ∷ [])
  Unique-append r [] u fresh = (refl, tt)
  Unique-append r (x ∷ xs) u fresh = elim (Bool-cases (t.id x == t.id r)) [
    | inl e ↦ absurd (ground (arith, fresh, e))
    | inr e ↦
        let later : get (t.id r) xs ≡ none = rw e at fresh in
        (get-append_ne (t.id x) r xs (==_ne _ _ e) ∙ u.0, Unique-append r xs u.1 later)
  ]

  -- A row may be written back if it clashes with no row of another key.
  pub Apart-save :
      (clash : A → A → Bool) (r : A) (xs : List A)
      → ((x y : A) → clash x y ≡ clash y x)
      → Unique xs
      → Apart clash xs
      → All (λ y. (t.id y == t.id r) ≡ false → clash y r ≡ false) xs
      → Apart clash (save r xs)
  Apart-save clash r [] symmetric u apart new = tt
  Apart-save clash r (x ∷ xs) symmetric u apart new = elim (Bool-cases (t.id x == t.id r)) [
    | inl e ↦
        let others : All (λ y. (t.id y == t.id r) ≡ false) xs =
          get-none (t.id r) xs (ground (arith, u.0, e)) in
        rw e (
          All-impl _ (λ y. clash r y ≡ false) xs (λ y h. symmetric r y ∙ h.1 h.0)
              (All-and _ _ xs others new.1),
          apart.1,
        )
    | inr e ↦ rw e (
      All-save (λ y. clash x y ≡ false) r xs apart.0 (new.0 e),
      Apart-save clash r xs symmetric u.1 apart.1 new.1,
    )
  ]

  -- A row of the table clashes with no row of another key.
  pub Apart-get :
      (clash : A → A → Bool) (k : ℕ) (r : A) (xs : List A)
      → ((x y : A) → clash x y ≡ clash y x)
      → Apart clash xs
      → get k xs ≡ some r
      → All (λ y. (t.id y == k) ≡ false → clash y r ≡ false) xs
  Apart-get clash k r [] symmetric apart h = tt
  Apart-get clash k r (x ∷ xs) symmetric apart h = elim (Bool-cases (t.id x == k)) [
    | inl e ↦
        let is_row : x ≡ r = some_inj (rw e at h) in
        (
          λ ne. absurd (ground (arith, e, ne)),
          All-impl _ _ xs (λ y c ne. symmetric y r ∙ subst (λ z. clash z y ≡ false) is_row c)
              apart.0,
        )
    | inr e ↦
        let later : get k xs ≡ some r = rw e at h in
        (
          λ ne. All-scalar (λ y. clash x y ≡ false) _ xs r apart.0 later,
          Apart-get clash k r xs symmetric apart.1 later,
        )
  ]
