-- ===== src/Base/Result.antt =====
-- Errors as values. An `Action` is the part of a request that runs inside one database
-- transaction: it reads and writes the state, or raises, and then nothing it wrote remains.
use mathlib.Core.Path.{◌≡◌, refl, ◌∙◌, ap, subst}
use mathlib.Core.Logic.{◌⊎◌, inl, inr}
use mathlib.Core.Bool.{Bool, true, false}
use mathlib.Core.Option.{Option, none, some}

pub data Result {ℓ κ} (E : Type ℓ) (A : Type κ) : Type (ℓ ⊔ κ) where
  ok : A → Result E A
  err : E → Result E A

infixl 5 ◌>>=◌ ◌>>◌
abbrev pub ◌>>=◌ {ℓ κ μ} :
    {E : Type ℓ} {A : Type κ} {B : Type μ} → Result E A → (A → Result E B) → Result E B
ok a >>= f = f a
err e >>= f = err e

abbrev pub ◌>>◌ {ℓ κ μ} :
    {E : Type ℓ} {A : Type κ} {B : Type μ} → Result E A → Result E B → Result E B
m >> k = m >>= λ _. k

-- `if not test: raise e`
abbrev pub guard {ℓ} : {E : Type ℓ} → Bool → E → Result E (Unit {0})
guard true e = ok tt
guard false e = err e

-- `if not test: check`
abbrev pub unless {ℓ} : {E : Type ℓ} → Bool → Result E (Unit {0}) → Result E (Unit {0})
unless true check = ok tt
unless false check = check

-- `if row is None: raise e`
abbrev pub require {ℓ κ} : {E : Type ℓ} {A : Type κ} → Option A → E → Result E A
require none e = err e
require (some a) e = ok a

-- A successful chain has a successful first step.
pub >>=-eq-ok {ℓ κ μ} :
    {E : Type ℓ} {A : Type κ} {B : Type μ} (m : Result E A) (f : A → Result E B) (b : B)
    → (m >>= f) ≡ ok b
    → (a : A) × (m ≡ ok a) × (f a ≡ ok b)
>>=-eq-ok (ok a) f b h = (a, refl, h)
>>=-eq-ok (err e) f b h = cc

pub guard-eq-ok {ℓ} : {E : Type ℓ} (b : Bool) (e : E) → guard b e ≡ ok tt → b ≡ true
guard-eq-ok true e h = refl
guard-eq-ok false e h = cc

pub require-eq-ok {ℓ κ} :
    {E : Type ℓ} {A : Type κ} (o : Option A) (e : E) (a : A) → require o e ≡ ok a → o ≡ some a
require-eq-ok none e a h = cc
require-eq-ok (some b) e a h = cc

-- A request: `work` runs in a transaction and is rolled back if it raises; after the commit
-- `view` builds the response, and what it raises undoes nothing.
abbrev pub transaction {ℓ κ μ ν} :
    {E : Type ℓ} {S : Type κ} {A : Type μ} {B : Type ν}
    → (S → Result E (A × S))
    → (A → S → Result E B)
    → S
    → Result E B × S
transaction work view s = elim (work s) [ ok (a, s') ↦ (view a s', s') | err e ↦ (err e, s) ]

pub Result-cases {ℓ κ} :
    {E : Type ℓ} {A : Type κ} (r : Result E A) → ((a : A) × (r ≡ ok a)) ⊎ ((e : E) × (r ≡ err e))
Result-cases (ok a) = inl (a, refl)
Result-cases (err e) = inr (e, refl)

pub err_of_not_ok {ℓ κ} :
    {E : Type ℓ} {A : Type κ} (r : Result E A) → ((a : A) → r ≡ ok a → ⊥) → (e : E) × (r ≡ err e)
err_of_not_ok (ok a) never = absurd (never a refl)
err_of_not_ok (err e) never = (e, refl)

-- A request whose work cannot succeed raises, and leaves the state as it was.
pub transaction_fails {ℓ κ μ ν} :
    {E : Type ℓ} {S : Type κ} {A : Type μ} {B : Type ν} (work : S → Result E (A × S))
    (view : A → S → Result E B) (s : S)
    → ((a : A) (s' : S) → work s ≡ ok (a, s') → ⊥)
    → (e : E) × (transaction work view s ≡ (err e, s))
transaction_fails work view s never = elim (Result-cases (work s)) [
  | inl (t, q) ↦ absurd (never t.0 t.1 q)
  | inr (e, q) ↦ (e, rw (q, transaction))
]

-- What the work keeps when it succeeds, the request keeps.
pub transaction_keeps {ℓ κ μ ν ξ} :
    {E : Type ℓ} {S : Type κ} {A : Type μ} {B : Type ν} (P : S → Type ξ)
    (work : S → Result E (A × S)) (view : A → S → Result E B) (s : S)
    → P s
    → ((a : A) (s' : S) → work s ≡ ok (a, s') → P s')
    → P (transaction work view s).1
transaction_keeps P work view s before step = elim (Result-cases (work s)) [
  | inl (t, q) ↦ rw (q, transaction) (step t.0 t.1 q)
  | inr (e, q) ↦ rw (q, transaction) before
]

-- Equal results are equal in both components.
pub ok_pair_inj {ℓ κ μ} :
    {E : Type ℓ} {A : Type κ} {B : Type μ} (r : Result E (A × B)) (a c : A) (b d : B)
    → r ≡ ok (a, b)
    → r ≡ ok (c, d)
    → (a ≡ c) × (b ≡ d)
ok_pair_inj r a c b d h k = (cc, cc)

pub ok_unique {ℓ κ} :
    {E : Type ℓ} {A : Type κ} {r : Result E A} {a b : A} → r ≡ ok a → r ≡ ok b → a ≡ b
ok_unique h k = cc

err_not_ok {ℓ κ} : {E : Type ℓ} {A : Type κ} {e : E} {a : A} → err e ≡ ok a → ⊥
err_not_ok h = cc

-- A request that succeeds: its work did, and then its response.
pub transaction-eq-ok {ℓ κ μ ν} :
    {E : Type ℓ} {S : Type κ} {A : Type μ} {B : Type ν} (work : S → Result E (A × S))
    (view : A → S → Result E B) (s s' : S) (b : B)
    → transaction work view s ≡ (ok b, s')
    → (a : A) × (work s ≡ ok (a, s')) × (view a s' ≡ ok b)
transaction-eq-ok work view s s' b h = elim (Result-cases (work s)) [
  | inl (t, q) ↦
      let done : (view t.0 t.1, t.1) ≡ (ok b, s') = rw (transaction, q) at h in
      let same : t.1 ≡ s' = ap (λ p. p.1) done in
      (
        t.0,
        q ∙ ap (λ d. ok (t.0, d)) same,
        subst (λ d. view t.0 d ≡ ok b) same (ap (λ p. p.0) done),
      )
  | inr (e, q) ↦ absurd (err_not_ok (ap (λ p. p.0) (rw (transaction, q) at h)))
]
