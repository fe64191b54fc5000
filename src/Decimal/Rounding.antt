-- ===== src/Decimal/Rounding.antt =====
-- How the fixed-point operations of `Decimal` round.
use native.Mathlib.Nat.{div-mul-le_self, lt-div-mul-add, le-div_iff_mul-le}
use stablecoin_sdk.Base.{◌+◌, ◌-◌, ◌*◌, ◌/◌, ◌≤◌, ◌<◌, ◌≡◌, ◌≢◌, ◌↔◌, arith}
use stablecoin_sdk.Base.Division.{ceil_div, ceil_div-le_iff, ceil_div-mul_lt, div_mono}
use stablecoin_sdk.Base.Result.{ok, err, negative_decimal}
use stablecoin_sdk.BigNumber.{BigNumber}
use stablecoin_sdk.Decimal.{Decimal, decimal, one, add, sub, mul, div, div_ceil}
use stablecoin_sdk.Decimal.Values.{unit, ext, add-eq, sub-eq, mul-eq, div-eq, div_ceil-eq}

module _ ⦃bn : BigNumber⦄ where
  -- A product is the exact one rounded down to a unit: it is at most the exact product, and one unit
  -- more would exceed it.
  pub mul_rounds_down :
      (d e : Decimal)
      → ((mul d e).big_number * unit ≤ d.big_number * e.big_number)
        × (d.big_number * e.big_number < ((mul d e).big_number + 1) * unit)
  mul_rounds_down d e = rw mul-eq (omega arith)

  pub mul_mono :
      (d e m : Decimal) → d.big_number ≤ e.big_number → (mul d m).big_number ≤ (mul e m).big_number
  mul_mono d e m h = rw (mul-eq, mul-eq) (div_mono _ _ unit (omega arith) (grind arith))

  pub mul-one : (d : Decimal) → mul d one ≡ d
  mul-one d = rw mul-eq (ext _ _ (omega arith))

  pub one-mul : (d : Decimal) → mul one d ≡ d
  one-mul d = rw mul-eq (ext _ _ (omega arith))

  pub div_ceil-le_iff :
      (d e y : Decimal) {q : Decimal}
      → e.big_number ≢ 0
      → div_ceil d e ≡ ok q
      → (q.big_number ≤ y.big_number) ↔ (d.big_number ≤ (mul y e).big_number)
  div_ceil-le_iff d e y {q} ne h =
      let found : q.big_number ≡ ceil_div (d.big_number * unit) e.big_number =
        ground (arith, div_ceil-eq d e) in
      let (to, from) =
        ceil_div-le_iff (d.big_number * unit) e.big_number y.big_number (omega arith) in
      rw (found, mul-eq)
        (
          λ le. (le-div_iff_mul-le (omega arith)).1 (to le),
          λ le. from ((le-div_iff_mul-le (omega arith)).0 le),
        )

  pub div_ceil_total :
      (d e : Decimal)
      → e.big_number ≢ 0
      → div_ceil d e ≡ ok (decimal (ceil_div (d.big_number * unit) e.big_number))
  div_ceil_total d e ne = ground (arith, div_ceil-eq d e)

  -- By a divider that is not zero, `_divCeil` returns, and its result is at most `y` exactly when the
  -- product of `y` and the divider, rounded down, reaches the dividend: it is the least such value.
  pub div_ceil_least :
      (d e y : Decimal)
      → e.big_number ≢ 0
      → (q : Decimal) × (div_ceil d e ≡ ok q)
        × ((q.big_number ≤ y.big_number) ↔ (d.big_number ≤ (mul y e).big_number))
  div_ceil_least d e y ne =
      let found = div_ceil_total d e ne in (_, found, div_ceil-le_iff d e y ne found)

  -- Dividing by a factor and multiplying by it again, with the quotient rounded up and the product
  -- down, gives the value or less than that much more.
  pub mul-div_ceil_bounds :
      (d e : Decimal) {q : Decimal}
      → e.big_number ≢ 0
      → div_ceil d e ≡ ok q
      → (d.big_number ≤ (mul q e).big_number)
        × ((mul q e).big_number * unit < d.big_number * unit + e.big_number)
  mul-div_ceil_bounds d e {q} ne h =
      let found : q.big_number ≡ ceil_div (d.big_number * unit) e.big_number =
        ground (arith, div_ceil-eq d e) in
      let above = ceil_div-mul_lt (d.big_number * unit) e.big_number (omega arith) in
      (
        (div_ceil-le_iff d e q ne h).0 (omega arith),
        let exact = (mul_rounds_down q e).0 in
            let bound : q.big_number * e.big_number < d.big_number * unit + e.big_number =
              rw found above in
            omega arith,
      )

  -- What is added can be taken off again, and `sub` throws exactly when more is taken off than is there.
  pub sub-add : (d e : Decimal) → sub (add d e) e ≡ ok d
  sub-add d e = ground (arith, sub-eq (add d e) e, add-eq d e)

  pub sub_of_le :
      (d e : Decimal)
      → e.big_number ≤ d.big_number
      → sub d e ≡ ok (decimal (d.big_number - e.big_number))
  sub_of_le d e h = ground (arith, sub-eq d e)

  pub sub_throws_iff :
      (d e : Decimal) → (sub d e ≡ err negative_decimal) ↔ (d.big_number < e.big_number)
  sub_throws_iff d e = (λ h. ground (arith, sub-eq d e), λ h. ground (arith, sub-eq d e))

  -- A quotient is the exact one rounded down.
  pub div_rounds_down :
      (d e : Decimal)
      → e.big_number ≢ 0
      → ((div d e).big_number * e.big_number ≤ d.big_number * unit)
        × (d.big_number * unit < (div d e).big_number * e.big_number + e.big_number)
  div_rounds_down d e ne =
      let found : (div d e).big_number ≡ d.big_number * unit / e.big_number =
        ground (arith, div-eq d e) in
      rw found (div-mul-le_self _ _, lt-div-mul-add (omega arith))
