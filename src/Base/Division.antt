-- ===== src/Base/Division.antt =====
-- Division with rounding: the bounds from which the fixed-point laws follow.
use native.Mathlib.Nat.{
  div-mul-le_self, lt-div-mul-add, le-div_iff_mul-le, div-lt_iff_lt-mul, le_trans,
}
use stablecoin_sdk.Base.{ℕ, ◌+◌, ◌-◌, ◌*◌, ◌/◌, ◌≤◌, ◌<◌, ◌≡◌, ◌↔◌, arith}

pub div_mono : (a b c : ℕ) → 0 < c → a ≤ b → a / c ≤ b / c
div_mono a b c p h = (le-div_iff_mul-le p).1 (omega (arith, div-mul-le_self a c))

-- The quotient rounded up, as the code computes it.
abbrev pub ceil_div : ℕ → ℕ → ℕ
ceil_div a b = (a + (b - 1)) / b

-- It is the least number whose product with the divisor reaches the dividend.
pub ceil_div-mul_ge : (a b : ℕ) → 0 < b → a ≤ ceil_div a b * b
ceil_div-mul_ge a b p = omega (arith, lt-div-mul-add {a = a + (b - 1)} p)

pub ceil_div-mul_lt : (a b : ℕ) → 0 < b → ceil_div a b * b < a + b
ceil_div-mul_lt a b p = omega (arith, div-mul-le_self (a + (b - 1)) b)

-- The rounded-up quotient is the left adjoint of multiplication by the divisor.
pub ceil_div-le_iff : (a b y : ℕ) → 0 < b → (ceil_div a b ≤ y) ↔ (a ≤ y * b)
ceil_div-le_iff a b y p = (
  λ h. le_trans (ceil_div-mul_ge a b p) (mul_le_right b h),
  λ h.
      let below : ceil_div a b < y + 1 =
        (div-lt_iff_lt-mul p).1
          (let e : (y + 1) * b ≡ y * b + b = omega arith in rw e (omega arith)) in
      omega arith,
)
  where
    mul_le_right : {x z : ℕ} (c : ℕ) → x ≤ z → x * c ≤ z * c
    mul_le_right c h = grind arith
