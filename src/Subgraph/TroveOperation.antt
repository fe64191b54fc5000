-- ===== src/Subgraph/TroveOperation.antt =====
-- packages/subgraph/src/types/TroveOperation.ts and packages/subgraph/src/utils/collateralRatio.ts.
use stablecoin_sdk.Base.{zero, suc, ℕ, Bool, true, false, Option, none, some, if◌then◌else◌, ◌||◌}
use stablecoin_sdk.Subgraph.Numbers.{GraphNumbers, decimal_precision, decimal_zero}
use stablecoin_sdk.Subgraph.Entities.{
  TroveOperation, open_trove, close_trove, adjust_trove, accrue_rewards, liquidate_in_normal_mode,
  liquidate_in_recovery_mode, redeem_collateral, unreached,
}

-- The operation of an event is a number.
abbrev pub get_trove_operation_from_borrower_operation : ℕ → TroveOperation
get_trove_operation_from_borrower_operation zero = open_trove
get_trove_operation_from_borrower_operation (suc zero) = close_trove
get_trove_operation_from_borrower_operation (suc (suc zero)) = adjust_trove
get_trove_operation_from_borrower_operation (suc (suc (suc _))) = unreached

abbrev pub get_trove_operation_from_trove_manager_operation : ℕ → TroveOperation
get_trove_operation_from_trove_manager_operation zero = accrue_rewards
get_trove_operation_from_trove_manager_operation (suc zero) = liquidate_in_normal_mode
get_trove_operation_from_trove_manager_operation (suc (suc zero)) = liquidate_in_recovery_mode
get_trove_operation_from_trove_manager_operation (suc (suc (suc zero))) = redeem_collateral
get_trove_operation_from_trove_manager_operation (suc (suc (suc (suc _)))) = unreached

abbrev pub is_borrower_operation : TroveOperation → Bool
is_borrower_operation open_trove = true
is_borrower_operation close_trove = true
is_borrower_operation adjust_trove = true
is_borrower_operation accrue_rewards = false
is_borrower_operation liquidate_in_normal_mode = false
is_borrower_operation liquidate_in_recovery_mode = false
is_borrower_operation redeem_collateral = false
is_borrower_operation unreached = false

abbrev pub is_recovery_mode_liquidation : TroveOperation → Bool
is_recovery_mode_liquidation open_trove = false
is_recovery_mode_liquidation close_trove = false
is_recovery_mode_liquidation adjust_trove = false
is_recovery_mode_liquidation accrue_rewards = false
is_recovery_mode_liquidation liquidate_in_normal_mode = false
is_recovery_mode_liquidation liquidate_in_recovery_mode = true
is_recovery_mode_liquidation redeem_collateral = false
is_recovery_mode_liquidation unreached = false

abbrev is_normal_mode_liquidation : TroveOperation → Bool
is_normal_mode_liquidation open_trove = false
is_normal_mode_liquidation close_trove = false
is_normal_mode_liquidation adjust_trove = false
is_normal_mode_liquidation accrue_rewards = false
is_normal_mode_liquidation liquidate_in_normal_mode = true
is_normal_mode_liquidation liquidate_in_recovery_mode = false
is_normal_mode_liquidation redeem_collateral = false
is_normal_mode_liquidation unreached = false

abbrev pub is_liquidation : TroveOperation → Bool
is_liquidation operation =
    is_normal_mode_liquidation operation || is_recovery_mode_liquidation operation

abbrev pub is_redemption : TroveOperation → Bool
is_redemption open_trove = false
is_redemption close_trove = false
is_redemption adjust_trove = false
is_redemption accrue_rewards = false
is_redemption liquidate_in_normal_mode = false
is_redemption liquidate_in_recovery_mode = false
is_redemption redeem_collateral = true
is_redemption unreached = false

module _ ⦃num : GraphNumbers⦄ where
  unfoldable pub calculate_collateral_ratio :
      num.BigDecimal → num.BigDecimal → num.BigDecimal → Option num.BigDecimal
  calculate_collateral_ratio collateral debt price =
      if num.decimal_eq debt decimal_zero
      then none
      else some (
          num.truncate (num.decimal_div (num.decimal_times collateral price) debt)
            decimal_precision)
