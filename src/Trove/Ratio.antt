-- ===== src/Trove/Ratio.antt =====
-- The collateral ratio of a trove and the tests on it.
use native.Mathlib.Nat.{div-lt_iff_lt-mul}
use stablecoin_sdk.Base.{◌*◌, ◌/◌, ◌<◌, ◌≡◌, ◌≢◌, ◌↔◌, ◌⊎◌, true, false, not, ltb→lt, lt→ltb, arith}
use stablecoin_sdk.BigNumber.{BigNumber}
use stablecoin_sdk.Constants.{critical_collateral_ratio, minimum_collateral_ratio}
use stablecoin_sdk.Decimal.{Decimal, decimal, infinity, lt}
use stablecoin_sdk.Decimal.Values.{lt-eq, gte-eq, mul_div-eq}
use stablecoin_sdk.Trove.{
  Trove, collateral_ratio, collateral_ratio_is_below_minimum, collateral_ratio_is_below_critical,
  is_openable_in_recovery_mode,
}

module _ ⦃bn : BigNumber⦄ where
  ratio_value :
      (t : Trove) (price : Decimal)
      → t.debt.big_number ≢ 0
      → collateral_ratio t price
        ≡ decimal (t.collateral.big_number * price.big_number / t.debt.big_number)
  unfolding collateral_ratio
  ratio_value t price ne = ground (arith, mul_div-eq t.collateral price t.debt)

  ratio-lt_iff :
      (t : Trove) (price m : Decimal)
      → t.debt.big_number ≢ 0
      → (lt (collateral_ratio t price) m ≡ true)
        ↔ (t.collateral.big_number * price.big_number < m.big_number * t.debt.big_number)
  ratio-lt_iff t price m ne =
      let (to, from) =
        div-lt_iff_lt-mul {k = t.debt.big_number} {x = t.collateral.big_number * price.big_number}
          {y = m.big_number} (omega arith) in
      rw (lt-eq, ratio_value t price ne) (λ h. to (ltb→lt _ _ h), λ h. lt→ltb _ _ (from h))

  -- For a trove with debt, the rounding of the ratio does not matter to either test: each holds exactly
  -- when the value of the collateral is below that multiple of the debt.
  pub below_ratio_iff :
      (t : Trove) (price : Decimal)
      → t.debt.big_number ≢ 0
      → ((collateral_ratio_is_below_minimum t price ≡ true) ↔ (
          t.collateral.big_number * price.big_number
          < minimum_collateral_ratio.big_number * t.debt.big_number))
        × ((collateral_ratio_is_below_critical t price ≡ true) ↔ (
            t.collateral.big_number * price.big_number
            < critical_collateral_ratio.big_number * t.debt.big_number))
  unfolding collateral_ratio_is_below_minimum collateral_ratio_is_below_critical
  below_ratio_iff t price ne = (
    ratio-lt_iff t price minimum_collateral_ratio ne,
    ratio-lt_iff t price critical_collateral_ratio ne,
  )

  -- A trove can be opened in recovery mode exactly if it is not below the critical ratio, and it is not
  -- below the minimum or it is below the critical ratio too.
  pub ratio_tests_agree :
      (t : Trove) (price : Decimal)
      → (is_openable_in_recovery_mode t price ≡ not (collateral_ratio_is_below_critical t price))
        × ((collateral_ratio_is_below_minimum t price ≡ false)
            ⊎ (collateral_ratio_is_below_critical t price ≡ true))
  unfolding collateral_ratio_is_below_minimum collateral_ratio_is_below_critical
      is_openable_in_recovery_mode
  ratio_tests_agree t price = ground (
    arith,
    lt-eq (collateral_ratio t price) critical_collateral_ratio,
    lt-eq (collateral_ratio t price) minimum_collateral_ratio,
    gte-eq (collateral_ratio t price) critical_collateral_ratio,
  )

  -- A trove with no debt is below neither ratio, whatever its collateral and the price.
  pub no_debt_not_below :
      (t : Trove) (price : Decimal)
      → t.debt.big_number ≡ 0
      → (collateral_ratio_is_below_minimum t price ≡ false)
        × (collateral_ratio_is_below_critical t price ≡ false)
  unfolding collateral_ratio_is_below_minimum collateral_ratio_is_below_critical
  no_debt_not_below t price z = ground (
    arith,
    mul_div-eq t.collateral price t.debt,
    lt-eq infinity minimum_collateral_ratio,
    lt-eq infinity critical_collateral_ratio,
  )
