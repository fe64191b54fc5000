-- ===== src/Trove/Change.antt =====
-- The changes of a trove: `whatChanged` and `apply` of the class `Trove`, with the types of the changes.
pub mod Fee
pub mod Shape
pub mod Lands
pub mod RoundTrip
use stablecoin_sdk.Base.{Bool, true, false, ◌&&◌, Option, none, some, if◌then◌else◌}
use stablecoin_sdk.Base.Result.{
  Result, ok, err, trove_exists, trove_empty, assertion_failed, require, ◌>>=◌, ◌>>◌,
}
use stablecoin_sdk.BigNumber.{BigNumber}
use stablecoin_sdk.Constants.{Environment}
use stablecoin_sdk.Decimal.{
  Decimal, zero_decimal, one, is_zero, non_zero, zero_of, eq, lt, gt, add, sub, mul, div_ceil,
}
use stablecoin_sdk.Fees.{minimum_borrowing_rate}
use stablecoin_sdk.Trove.{
  Trove, trove, empty_trove, is_empty, net_debt, add_trove, add_collateral, add_debt, subtract,
  subtract_collateral, subtract_debt, set_collateral, set_debt,
}

-- `_CollateralChange` and `_DebtChange`.
pub data CollateralChange : Type 0 where
  deposit_collateral withdraw_collateral : Decimal → CollateralChange

pub data DebtChange : Type 0 where
  borrow_debt_token repay_debt_token : Decimal → DebtChange

pub record TroveCreationParams : Type 0 where
  pub deposited : Decimal
  pub borrowed : Decimal

pub record TroveClosureParams : Type 0 where
  pub withdrawn : Decimal
  pub repaid : Option Decimal

-- The union of a change of collateral, a change of debt and a change of both.
pub data TroveAdjustmentParams : Type 0 where
  collateral_only : CollateralChange → TroveAdjustmentParams
  debt_only : DebtChange → TroveAdjustmentParams
  both : CollateralChange → DebtChange → TroveAdjustmentParams

pub data Zeroed : Type 0 where
  zero_collateral zero_debt : Zeroed

-- `TroveCreationError`.
pub data TroveCreationError : Type 0 where
  missing_liquidation_reserve : TroveCreationError

pub data TroveChange : Type 0 where
  invalid_creation : Trove → TroveCreationError → TroveChange
  creation : TroveCreationParams → TroveChange
  closure : TroveClosureParams → TroveChange
  adjustment : TroveAdjustmentParams → Option Zeroed → TroveChange

-- The parameters by name, as `apply` takes them out of an adjustment: `undefined` where absent.
abbrev pub collateral_part : TroveAdjustmentParams → Option CollateralChange
collateral_part (collateral_only c) = some c
collateral_part (debt_only d) = none
collateral_part (both c d) = some c

abbrev pub debt_part : TroveAdjustmentParams → Option DebtChange
debt_part (collateral_only c) = none
debt_part (debt_only d) = some d
debt_part (both c d) = some d

abbrev pub deposit_of : Option CollateralChange → Option Decimal
deposit_of (some (deposit_collateral d)) = some d
deposit_of _ = none

abbrev pub withdrawal_of : Option CollateralChange → Option Decimal
withdrawal_of (some (withdraw_collateral d)) = some d
withdrawal_of _ = none

abbrev pub borrowing_of : Option DebtChange → Option Decimal
borrowing_of (some (borrow_debt_token d)) = some d
borrowing_of _ = none

abbrev pub repayment_of : Option DebtChange → Option Decimal
repayment_of (some (repay_debt_token d)) = some d
repayment_of _ = none

-- `value ?? Decimal.ZERO`.
abbrev pub or_zero : Option Decimal → Decimal
or_zero none = zero_decimal
or_zero (some d) = d

-- `value.zero && key`, and `a ?? b`.
abbrev pub zeroed_if : Option Decimal → Zeroed → Option Zeroed
zeroed_if none key = none
zeroed_if (some _) key = some key

abbrev pub or_else : Option Zeroed → Option Zeroed → Option Zeroed
or_else none b = b
or_else (some a) b = some a

-- The default of the parameter `borrowingRate`.
abbrev pub rate_or_default : Option Decimal → Decimal
rate_or_default none = minimum_borrowing_rate
rate_or_default (some rate) = rate

module _ ⦃bn : BigNumber⦄ where
  unfoldable pub apply_fee : Decimal → Decimal → Decimal
  apply_fee borrowing_rate debt_increase = mul debt_increase (add one borrowing_rate)

  unfoldable pub unapply_fee : Decimal → Decimal → Result Decimal
  unapply_fee borrowing_rate debt_increase = div_ceil debt_increase (add one borrowing_rate)

  -- `_debtChange`.
  unfoldable pub debt_change : Trove → Trove → Decimal → Result DebtChange
  debt_change t that borrowing_rate =
      if gt that.debt t.debt
      then (do
        increase ← sub that.debt t.debt
        borrowed ← unapply_fee borrowing_rate increase
        ok (borrow_debt_token borrowed))
      else (do decrease ← sub t.debt that.debt; ok (repay_debt_token decrease))

  -- `_collateralChange`.
  unfoldable pub collateral_change : Trove → Trove → Result CollateralChange
  collateral_change t that =
      if gt that.collateral t.collateral
      then (do increase ← sub that.collateral t.collateral; ok (deposit_collateral increase))
      else (do decrease ← sub t.collateral that.collateral; ok (withdraw_collateral decrease))

  -- The last return statement of `whatChanged`.
  unfoldable pub what_adjusted : Trove → Trove → Decimal → Result TroveChange
  what_adjusted t that borrowing_rate =
      if eq t.collateral that.collateral
      then (do
        d ← debt_change t that borrowing_rate
        ok (adjustment (debt_only d) (zeroed_if (zero_of that.debt) zero_debt)))
      else (if eq t.debt that.debt
          then (do
            c ← collateral_change t that
            ok (
                adjustment (collateral_only c)
                  (zeroed_if (zero_of that.collateral) zero_collateral)))
          else (do
            d ← debt_change t that borrowing_rate
            c ← collateral_change t that
            ok (
                adjustment (both c d) (
                  or_else (zeroed_if (zero_of that.debt) zero_debt)
                    (zeroed_if (zero_of that.collateral) zero_collateral)))))

  -- `borrowDebtToken ? applyFee(borrowingRate, borrowDebtToken) : Decimal.ZERO`.
  abbrev pub fee_of : Decimal → Option Decimal → Decimal
  fee_of rate none = zero_decimal
  fee_of rate (some borrowed) = apply_fee rate borrowed

  -- The case "adjustment" of `apply`.
  unfoldable pub apply_adjustment :
      Trove → TroveAdjustmentParams → Option Zeroed → Decimal → Result Trove
  unfolding set_collateral set_debt
  apply_adjustment t params set_to_zero borrowing_rate =
      let collateral_decrease = or_zero (withdrawal_of (collateral_part params)) in
      let collateral_increase = or_zero (deposit_of (collateral_part params)) in
      let debt_decrease = or_zero (repayment_of (debt_part params)) in
      let debt_increase = fee_of borrowing_rate (borrowing_of (debt_part params)) in
      elim set_to_zero [
        | none ↦
            subtract (add_trove t (trove collateral_increase debt_increase))
              (trove collateral_decrease debt_decrease)
        | some zero_collateral ↦
            subtract_debt (add_debt (set_collateral t zero_decimal) debt_increase) debt_decrease
        | some zero_debt ↦
            subtract_collateral (add_collateral (set_debt t zero_decimal) collateral_increase)
              collateral_decrease
      ]

module _ ⦃bn : BigNumber⦄ ⦃env : Environment⦄ where
  -- The branch of `whatChanged` for an empty trove.
  unfoldable pub what_created : Trove → Decimal → Result TroveChange
  what_created that borrowing_rate =
      if lt that.debt env.liquidation_reserve
      then ok (invalid_creation that missing_liquidation_reserve)
      else (do
        net ← net_debt that
        b ← unapply_fee borrowing_rate net
        ok (creation (record { deposited = that.collateral; borrowed = b })))

  -- The branch of `whatChanged` for an empty target.
  unfoldable pub what_closed : Trove → Result TroveChange
  what_closed t = do
    net ← net_debt t
    ok (closure (record { withdrawn = t.collateral; repaid = non_zero net }))

  -- `Trove.whatChanged`.
  unfoldable pub what_changed : Trove → Trove → Option Decimal → Result (Option TroveChange)
  what_changed t that borrowing_rate =
      if eq t.collateral that.collateral && eq t.debt that.debt then ok none else (do
        change ←
            (if is_empty t
              then what_created that (rate_or_default borrowing_rate)
              else (if is_empty that
                  then what_closed t
                  else what_adjusted t that (rate_or_default borrowing_rate)))
        ok (some change))

  -- `Trove.apply`.
  unfoldable pub apply : Trove → Option TroveChange → Option Decimal → Result Trove
  apply t none borrowing_rate = ok t
  apply t (some (invalid_creation invalid e)) borrowing_rate =
      if is_empty t then ok invalid else err trove_exists
  apply t (some (creation params)) borrowing_rate =
      if is_empty t
      then ok (
          trove params.deposited (
            add env.liquidation_reserve
              (apply_fee (rate_or_default borrowing_rate) params.borrowed)))
      else err trove_exists
  apply t (some (closure params)) borrowing_rate =
      if is_empty t then err trove_empty else ok empty_trove
  apply t (some (adjustment params set_to_zero)) borrowing_rate =
      apply_adjustment t params set_to_zero (rate_or_default borrowing_rate)
