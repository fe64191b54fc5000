-- ===== src/Trove/Change/Fee.antt =====
-- The borrowing fee: taking it off an amount and adding it back.
use stablecoin_sdk.Base.{◌+◌, ◌*◌, ◌≤◌, ◌≡◌, ◌≢◌, ◌↔◌, refl, ap, arith}
use stablecoin_sdk.Base.Division.{ceil_div}
use stablecoin_sdk.Base.Result.{ok}
use stablecoin_sdk.BigNumber.{BigNumber}
use stablecoin_sdk.Decimal.{Decimal, decimal, one, add}
use stablecoin_sdk.Decimal.Values.{unit, add-eq}
use stablecoin_sdk.Decimal.Rounding.{
  mul_rounds_down, div_ceil_total, mul_mono, div_ceil-le_iff, mul-div_ceil_bounds,
}
use stablecoin_sdk.Trove.Change.{apply_fee, unapply_fee}

module _ ⦃bn : BigNumber⦄ where
  factor : Decimal → Decimal
  factor rate = add one rate

  factor_value : (rate : Decimal) → (add one rate).big_number ≡ unit + rate.big_number
  factor_value rate = rw (add-eq one rate) refl

  pub unapply_fee_total : (rate x : Decimal) → (b : Decimal) × (unapply_fee rate x ≡ ok b)
  unfolding unapply_fee
  unapply_fee_total rate x = (
    decimal (ceil_div (x.big_number * unit) (add one rate).big_number),
    div_ceil_total x (add one rate) (omega (arith, factor_value rate)),
  )

  unapply_fee-le_iff :
      (rate x a : Decimal) {b : Decimal}
      → unapply_fee rate x ≡ ok b
      → (b.big_number ≤ a.big_number) ↔ (x.big_number ≤ (apply_fee rate a).big_number)
  unfolding unapply_fee apply_fee
  unapply_fee-le_iff rate x a {b} found =
      let nonzero : (add one rate).big_number ≢ 0 = omega (arith, factor_value rate) in
      div_ceil-le_iff x (add one rate) a nonzero found

  apply_fee_mono :
      (rate a b : Decimal)
      → a.big_number ≤ b.big_number
      → (apply_fee rate a).big_number ≤ (apply_fee rate b).big_number
  unfolding apply_fee
  apply_fee_mono rate a b h = mul_mono a b (add one rate) h

  -- Taking the fee off an amount `a` to which it was added returns, at any rate. It gives the least of the
  -- amounts that cost as much as `a` with the fee: it is not above `a`, adding the fee to it gives exactly
  -- the same result, and an amount `c` costs as much as `a` or more exactly if it is no smaller.
  pub unapply-apply_fee :
      (rate a c : Decimal)
      → (b : Decimal) × (unapply_fee rate (apply_fee rate a) ≡ ok b)
        × (b.big_number ≤ a.big_number)
        × (apply_fee rate b ≡ apply_fee rate a)
        × ((b.big_number ≤ c.big_number)
            ↔ ((apply_fee rate a).big_number ≤ (apply_fee rate c).big_number))
  unapply-apply_fee rate a c =
      let (b, found) = unapply_fee_total rate (apply_fee rate a) in
      let below = (unapply_fee-le_iff rate (apply_fee rate a) a found).1 (omega arith) in
      let reached = (unapply_fee-le_iff rate (apply_fee rate a) b found).0 (omega arith) in
      (
        b,
        found,
        below,
        ap decimal (omega (arith, apply_fee_mono rate b a below)),
        unapply_fee-le_iff rate (apply_fee rate a) c found,
      )

  pub fee_bounds :
      (rate x : Decimal) {b : Decimal}
      → rate.big_number ≤ one.big_number
      → unapply_fee rate x ≡ ok b
      → (x.big_number ≤ (apply_fee rate b).big_number)
        × ((apply_fee rate b).big_number ≤ x.big_number + 1)
  unfolding unapply_fee apply_fee
  fee_bounds rate x {b} small found =
      let nonzero : (add one rate).big_number ≢ 0 = omega (arith, factor_value rate) in
      omega (arith, mul-div_ceil_bounds x (add one rate) nonzero found, factor_value rate)

  -- No debt takes no borrowing, and no fee.
  pub fee_zero :
      (rate x : Decimal) {b : Decimal}
      → unapply_fee rate x ≡ ok b
      → x.big_number ≡ 0
      → (apply_fee rate b).big_number ≡ 0
  unfolding unapply_fee apply_fee
  fee_zero rate x {b} found none_left =
      let nonzero : (add one rate).big_number ≢ 0 = omega (arith, factor_value rate) in
      let least : b.big_number ≤ 0 =
        (div_ceil-le_iff x (add one rate) (decimal 0) nonzero found).1 (omega arith) in
      let exact = (mul_rounds_down b (add one rate)).0 in
      let nothing : b.big_number * (add one rate).big_number ≡ 0 = grind arith in omega arith
