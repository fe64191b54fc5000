-- ===== src/Trove.antt =====
-- The class `Trove` of packages/lib-base/src/Trove.ts: an amount of collateral and an amount of debt.
pub mod Arithmetic
pub mod Ratio
pub mod Change
pub mod Params
pub mod Redistribution
use stablecoin_sdk.Base.{Bool, ◌&&◌, if◌then◌else◌}
use stablecoin_sdk.Base.Result.{Result, ok, err, net_debt_below_reserve, ◌>>=◌}
use stablecoin_sdk.BigNumber.{BigNumber}
use stablecoin_sdk.Constants.{Environment, critical_collateral_ratio, minimum_collateral_ratio}
use stablecoin_sdk.Decimal.{
  Decimal, decimal, zero_decimal, is_zero, eq, lt, gt, gte, add, sub, mul, mul_div,
}

pub record Trove : Type 0 where
  pub collateral : Decimal
  pub debt : Decimal

abbrev pub trove : Decimal → Decimal → Trove
trove c d = record { collateral = c; debt = d }

-- `_emptyTrove`.
abbrev pub empty_trove : Trove
empty_trove = trove zero_decimal zero_decimal

-- `Decimal.from(100)`.
abbrev pub nominal_collateral_ratio_precision : Decimal
nominal_collateral_ratio_precision = decimal 100_000_000_000_000_000_000

module _ ⦃bn : BigNumber⦄ where
  unfoldable pub is_empty : Trove → Bool
  is_empty t = is_zero t.collateral && is_zero t.debt

  -- `_nominalCollateralRatio`.
  unfoldable pub nominal_collateral_ratio : Trove → Decimal
  nominal_collateral_ratio t = mul_div t.collateral nominal_collateral_ratio_precision t.debt

  unfoldable pub collateral_ratio : Trove → Decimal → Decimal
  collateral_ratio t price = mul_div t.collateral price t.debt

  unfoldable pub collateral_ratio_is_below_minimum : Trove → Decimal → Bool
  unfolding collateral_ratio
  collateral_ratio_is_below_minimum t price = lt (collateral_ratio t price) minimum_collateral_ratio

  unfoldable pub collateral_ratio_is_below_critical : Trove → Decimal → Bool
  unfolding collateral_ratio
  collateral_ratio_is_below_critical t price =
      lt (collateral_ratio t price) critical_collateral_ratio

  unfoldable pub is_openable_in_recovery_mode : Trove → Decimal → Bool
  unfolding collateral_ratio
  is_openable_in_recovery_mode t price = gte (collateral_ratio t price) critical_collateral_ratio

  unfoldable pub equals_trove : Trove → Trove → Bool
  equals_trove t that = eq t.collateral that.collateral && eq t.debt that.debt

  -- `Trove.add`.
  unfoldable pub add_trove : Trove → Trove → Trove
  add_trove t that = trove (add t.collateral that.collateral) (add t.debt that.debt)

  unfoldable pub add_collateral : Trove → Decimal → Trove
  add_collateral t collateral = trove (add t.collateral collateral) t.debt

  unfoldable pub add_debt : Trove → Decimal → Trove
  add_debt t debt = trove t.collateral (add t.debt debt)

  -- `a.gt(b) ? a.sub(b) : Decimal.ZERO`.
  abbrev pub sub_or_zero : Decimal → Decimal → Result Decimal
  sub_or_zero a b = if gt a b then sub a b else ok zero_decimal

  unfoldable pub subtract : Trove → Trove → Result Trove
  subtract t that = do
    c ← sub_or_zero t.collateral that.collateral
    d ← sub_or_zero t.debt that.debt
    ok (trove c d)

  unfoldable pub subtract_collateral : Trove → Decimal → Result Trove
  subtract_collateral t collateral = do c ← sub_or_zero t.collateral collateral; ok (trove c t.debt)

  unfoldable pub subtract_debt : Trove → Decimal → Result Trove
  subtract_debt t debt = do d ← sub_or_zero t.debt debt; ok (trove t.collateral d)

  unfoldable pub multiply : Trove → Decimal → Trove
  multiply t multiplier = trove (mul t.collateral multiplier) (mul t.debt multiplier)

unfoldable pub set_collateral : Trove → Decimal → Trove
set_collateral t collateral = trove collateral t.debt

unfoldable pub set_debt : Trove → Decimal → Trove
set_debt t debt = trove t.collateral debt

module _ ⦃bn : BigNumber⦄ ⦃env : Environment⦄ where
  unfoldable pub net_debt : Trove → Result Decimal
  net_debt t =
      if lt t.debt env.liquidation_reserve
      then err net_debt_below_reserve
      else sub t.debt env.liquidation_reserve
