-- ===== src/Base/Money.antt =====
-- Money. A float or `Decimal` that the program reads by `Decimal(str(value))` is a number
-- coefficient / 10 ^ scale, or none (NaN, an infinity). An amount after `quantize` is a whole
-- number of cents.
use Prim.Native.Nat.{ℕ, suc, ◌+◌, ◌*◌, ◌/◌, ◌^◌, ◌≤◌, ◌<◌}
use native.Mathlib.Omega.{arith}
use native.Mathlib.Nat.{div-add-mod, mod-lt}
use optimus_os.Base.Int.{ℤ, pos, negsuc, sub_ℕ}

pub data Decimal : Type 0 where
  number : ℤ → ℕ → Decimal
  not_finite : Decimal

-- `round_div n d` is n / d to the nearest whole number, a half upwards.
unfoldable pub round_div : ℕ → ℕ → ℕ
round_div n d = (2 * n + d) / (2 * d)

-- `quantize(Decimal("0.01"), rounding=ROUND_HALF_UP)`, in cents: a half is rounded away from
-- zero.
unfoldable pub quantize : ℤ → ℕ → ℤ
unfolding round_div
quantize (pos n) scale = pos (round_div (n * 100) (10 ^ scale))
quantize (negsuc n) scale = sub_ℕ 0 (round_div (suc n * 100) (10 ^ scale))

-- The rounded value is within half a unit of the exact quotient.
pub round_div-near :
    (n d : ℕ)
    → 0 < d
    → (2 * (round_div n d * d) ≤ 2 * n + d) × (2 * n < 2 * (round_div n d * d) + d)
unfolding round_div
round_div-near n d h =
    let pos_d : 0 < 2 * d = omega arith in
    omega (arith, div-add-mod (2 * n + d) (2 * d), mod-lt (2 * n + d) pos_d)
