-- ===== src/Trove/Arithmetic.antt =====
-- What the operations on troves compute, on the native numbers.
use stablecoin_sdk.Base.{◌+◌, ◌-◌, ◌*◌, ◌/◌, ◌≡◌, ◌↔◌, refl, true, leb, arith, if◌then◌else◌}
use stablecoin_sdk.Base.Result.{ok, err, net_debt_below_reserve}
use stablecoin_sdk.BigNumber.{BigNumber}
use stablecoin_sdk.Constants.{Environment}
use stablecoin_sdk.Decimal.{Decimal, decimal}
use stablecoin_sdk.Decimal.Values.{unit, eq-eq, lt-eq, gt-eq, add-eq, sub-eq, mul-eq, is_zero-eq}
use stablecoin_sdk.Trove.{
  Trove, trove, empty_trove, is_empty, equals_trove, add_trove, sub_or_zero, subtract,
  subtract_collateral, subtract_debt, multiply, net_debt,
}

module _ ⦃bn : BigNumber⦄ where
  pub sub_or_zero-eq :
      (a b : Decimal) → sub_or_zero a b ≡ ok (decimal (a.big_number - b.big_number))
  sub_or_zero-eq a b = ground (arith, gt-eq a b, sub-eq a b)

  pub is_empty_iff : (t : Trove) → (is_empty t ≡ true) ↔ (t ≡ empty_trove)
  unfolding is_empty
  is_empty_iff t = (
    λ h. ground (arith, is_zero-eq t.collateral, is_zero-eq t.debt),
    λ h. ground (arith, is_zero-eq t.collateral, is_zero-eq t.debt),
  )

  -- `equals` holds exactly of troves with the same collateral and the same debt.
  pub equals_trove_iff : (t that : Trove) → (equals_trove t that ≡ true) ↔ (t ≡ that)
  unfolding equals_trove
  equals_trove_iff t that = (
    λ h. ground (arith, eq-eq t.collateral that.collateral, eq-eq t.debt that.debt),
    λ h. ground (arith, eq-eq t.collateral that.collateral, eq-eq t.debt that.debt),
  )

  pub add_trove-eq :
      (t u : Trove)
      → add_trove t u
        ≡ trove
            (decimal (t.collateral.big_number + u.collateral.big_number))
            (decimal (t.debt.big_number + u.debt.big_number))
  unfolding add_trove
  add_trove-eq t u = rw (add-eq t.collateral u.collateral, add-eq t.debt u.debt) refl

  pub subtract-eq :
      (t u : Trove)
      → subtract t u
        ≡ ok (
            trove
              (decimal (t.collateral.big_number - u.collateral.big_number))
              (decimal (t.debt.big_number - u.debt.big_number)))
  unfolding subtract
  subtract-eq t u =
      ground (arith, sub_or_zero-eq t.collateral u.collateral, sub_or_zero-eq t.debt u.debt)

  pub subtract_collateral-eq :
      (t : Trove) (c : Decimal)
      → subtract_collateral t c
        ≡ ok (trove (decimal (t.collateral.big_number - c.big_number)) t.debt)
  unfolding subtract_collateral
  subtract_collateral-eq t c = ground (arith, sub_or_zero-eq t.collateral c)

  pub subtract_debt-eq :
      (t : Trove) (d : Decimal)
      → subtract_debt t d ≡ ok (trove t.collateral (decimal (t.debt.big_number - d.big_number)))
  unfolding subtract_debt
  subtract_debt-eq t d = ground (arith, sub_or_zero-eq t.debt d)

  -- Subtracting a trove that was added gives the first one back; subtracting a larger one from it never
  -- throws, and leaves nothing.
  pub subtract-add_trove :
      (t u : Trove)
      → (subtract (add_trove t u) u ≡ ok t) × (subtract t (add_trove t u) ≡ ok empty_trove)
  subtract-add_trove t u =
      ground (arith, add_trove-eq t u, subtract-eq (add_trove t u) u, subtract-eq t (add_trove t u))

  pub multiply-eq :
      (t : Trove) (m : Decimal)
      → multiply t m
        ≡ trove
            (decimal (t.collateral.big_number * m.big_number / unit))
            (decimal (t.debt.big_number * m.big_number / unit))
  unfolding multiply
  multiply-eq t m = rw (mul-eq t.collateral m, mul-eq t.debt m) refl

module _ ⦃bn : BigNumber⦄ ⦃env : Environment⦄ where
  pub net_debt-eq :
      (t : Trove)
      → net_debt t ≡ (
          if leb env.liquidation_reserve.big_number t.debt.big_number
          then ok (decimal (t.debt.big_number - env.liquidation_reserve.big_number))
          else err net_debt_below_reserve)
  unfolding net_debt
  net_debt-eq t =
      ground (arith, lt-eq t.debt env.liquidation_reserve, sub-eq t.debt env.liquidation_reserve)
