-- ===== src/Estimates/Fees.antt =====
-- The map of fees that app/estimate_store.py builds of the fee lines, and its sums.
use optimus_os.Base.{
  ℕ, ◌≡◌, refl, ◌+◌, String, true, false, List, [], ◌∷◌, sum_of, arith, ap, sym, ◌∙◌, Bool-cases,
  inl, inr, All,
}
use mathlib.Core.Path.{subst}
use text.Mathlib.TextEquality.{path_by_compare}
use text.Mathlib.TextPositions.{compare_refl}
use Prim.Native.Nat.{Ordering}
use Prim.Native.String.{compare}
use optimus_os.Base.Text.{same_text, is_equal}
use optimus_os.Base.Result.{ok, ok_unique, >>=-eq-ok}
use optimus_os.Db.Work.{FeeItem}
use optimus_os.Estimates.Validate.{money, put_fee, fee_map, fee_of, additional_fees}

is_equal_eq : (o : Ordering) → is_equal o ≡ true → o ≡ Ordering.eq
is_equal_eq Ordering.lt h = cc
is_equal_eq Ordering.eq h = refl
is_equal_eq Ordering.gt h = cc

same_text_eq : (s t : String) → same_text s t ≡ true → s ≡ t
same_text_eq s t h = path_by_compare s t (is_equal_eq (compare s t) h)

same_text_refl : (s : String) → same_text s s ≡ true
same_text_refl s = rw (compare_refl s) refl

-- A code is not in a map, and every code of a map is there once.
abbrev Lacks : String → List (String × ℕ) → Type 0
Lacks code fees = All (λ f. same_text f.0 code ≡ false) fees

abbrev pub Distinct : List (String × ℕ) → Type 0
Distinct [] = Unit
Distinct (f ∷ fees) = Lacks f.0 fees × Distinct fees

same_text_sym : (s t : String) → same_text s t ≡ false → same_text t s ≡ false
same_text_sym s t h = elim (Bool-cases (same_text t s)) [
  | inr differ ↦ differ
  | inl e ↦
      let same : same_text s t ≡ true =
        subst (λ x. same_text s x ≡ true) (sym (same_text_eq t s e)) (same_text_refl s) in
      absurd (ground (arith, same, h))
]

put_fee-Lacks :
    (c code : String) (amount : ℕ) (fees : List (String × ℕ))
    → same_text code c ≡ false
    → Lacks c fees
    → Lacks c (put_fee code amount fees)
put_fee-Lacks c code amount [] differ l = (differ, tt)
put_fee-Lacks c code amount (f ∷ fees) differ l = elim (Bool-cases (same_text f.0 code)) [
  | inl e ↦ rw e (differ, l.1)
  | inr e ↦ rw e (l.0, put_fee-Lacks c code amount fees differ l.1)
]

put_fee-Distinct :
    (code : String) (amount : ℕ) (fees : List (String × ℕ))
    → Distinct fees
    → Distinct (put_fee code amount fees)
put_fee-Distinct code amount [] d = (tt, tt)
put_fee-Distinct code amount (f ∷ fees) d = elim (Bool-cases (same_text f.0 code)) [
  | inl e ↦ rw e (subst (λ c. Lacks c fees) (same_text_eq f.0 code e) d.0, d.1)
  | inr e ↦ rw e (
    put_fee-Lacks f.0 code amount fees (same_text_sym f.0 code e) d.0,
    put_fee-Distinct code amount fees d.1,
  )
]

pub fee_map-Distinct :
    (fees : List (String × ℕ)) (items : List FeeItem) (out : List (String × ℕ))
    → Distinct fees
    → fee_map fees items ≡ ok out
    → Distinct out
unfolding fee_map
fee_map-Distinct fees [] out d h = subst Distinct (ok_unique {r = ok fees} refl h) d
fee_map-Distinct fees (item ∷ items) out d h =
    let (amount, e, h₁) = >>=-eq-ok (money item.amount) _ _ h in
    fee_map-Distinct (put_fee item.code amount fees) items out
      (put_fee-Distinct item.code amount fees d) h₁

fee_of-Lacks : (c : String) (fees : List (String × ℕ)) → Lacks c fees → fee_of c fees ≡ 0
fee_of-Lacks c [] l = refl
fee_of-Lacks c (f ∷ fees) l = rw (l.0) (fee_of-Lacks c fees l.1)

abbrev pub all_fees : List (String × ℕ) → ℕ
all_fees fees =
    fee_of "shop_supplies" fees
    + fee_of "mobile_service_fee" fees
    + fee_of "parts_tax" fees
    + additional_fees fees

differs :
    (code a b : String) → same_text code a ≡ true → same_text a b ≡ false → same_text code b ≡ false
differs code a b same h = subst (λ x. same_text x b ≡ false) (sym (same_text_eq code a same)) h

missing :
    (code a : String) (fees : List (String × ℕ))
    → same_text code a ≡ true
    → Lacks code fees
    → fee_of a fees ≡ 0
missing code a fees same l =
    fee_of-Lacks a fees (subst (λ c. Lacks c fees) (same_text_eq code a same) l)

-- The first fee counts once, under whichever name.
all_fees-cons :
    (f : String × ℕ) (fees : List (String × ℕ))
    → Lacks f.0 fees
    → all_fees (f ∷ fees) ≡ f.1 + all_fees fees
all_fees-cons f fees l = elim (Bool-cases (same_text f.0 "shop_supplies")) [
  | inl e₁ ↦
      rw
        (
          e₁,
          differs f.0 "shop_supplies" "mobile_service_fee" e₁ refl,
          differs f.0 "shop_supplies" "parts_tax" e₁ refl,
          missing f.0 "shop_supplies" fees e₁ l,
        )
        (omega arith)
  | inr e₁ ↦ elim (Bool-cases (same_text f.0 "mobile_service_fee")) [
    | inl e₂ ↦
        rw
          (
            e₁,
            e₂,
            differs f.0 "mobile_service_fee" "parts_tax" e₂ refl,
            missing f.0 "mobile_service_fee" fees e₂ l,
          )
          (omega arith)
    | inr e₂ ↦ elim (Bool-cases (same_text f.0 "parts_tax")) [
      | inl e₃ ↦ rw (e₁, e₂, e₃, missing f.0 "parts_tax" fees e₃ l) (omega arith)
      | inr e₃ ↦ rw (e₁, e₂, e₃) (omega arith)
    ]
  ]
]

-- The named fees and the additional ones of a map are all of its fees.
pub all_fees-sum_of :
    (fees : List (String × ℕ)) → Distinct fees → all_fees fees ≡ sum_of (λ f. f.1) fees
all_fees-sum_of [] d = refl
all_fees-sum_of (f ∷ fees) d =
    all_fees-cons f fees d.0 ∙ ap (λ n. f.1 + n) (all_fees-sum_of fees d.1)
