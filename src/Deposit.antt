-- ===== src/Deposit.antt =====
-- The class `StabilityDeposit` of packages/lib-base/src/StabilityDeposit.ts.
pub mod Laws
use Prim.Native.String.{String}
use text.Mathlib.Text.{◌==◌}
use stablecoin_sdk.Base.{Bool, true, false, ◌&&◌, ◌||◌, Option, none, some, if◌then◌else◌}
use stablecoin_sdk.Base.Result.{Result, ok, err, current_above_initial, ◌>>=◌}
use stablecoin_sdk.BigNumber.{BigNumber}
use stablecoin_sdk.Decimal.{Decimal, zero_decimal, is_zero, eq, lt, gt, lte, add, sub}

-- `depositDebtToken`, or `withdrawDebtToken` with `withdrawAllDebtToken`.
pub data StabilityDepositChange : Type 0 where
  deposit_debt_token : Decimal → StabilityDepositChange
  withdraw_debt_token : Decimal → Bool → StabilityDepositChange

pub record StabilityDeposit : Type 0 where
  pub initial_debt_token : Decimal
  pub current_debt_token : Decimal
  pub collateral_gain : Decimal
  pub protocol_token_reward : Decimal
  pub frontend_tag : String

module _ ⦃bn : BigNumber⦄ where
  -- The constructor.
  unfoldable pub create_deposit :
      Decimal → Decimal → Decimal → Decimal → String → Result StabilityDeposit
  create_deposit initial current gain reward tag =
      if gt current initial
      then err current_above_initial
      else ok (record {
        initial_debt_token = initial;
        current_debt_token = current;
        collateral_gain = gain;
        protocol_token_reward = reward;
        frontend_tag = tag;
      })

  unfoldable pub is_empty_deposit : StabilityDeposit → Bool
  is_empty_deposit s =
      is_zero s.initial_debt_token
      && (is_zero s.current_debt_token
          && (is_zero s.collateral_gain && is_zero s.protocol_token_reward))

  unfoldable pub equals_deposit : StabilityDeposit → StabilityDeposit → Bool
  equals_deposit s that =
      eq s.initial_debt_token that.initial_debt_token
      && (eq s.current_debt_token that.current_debt_token
          && (eq s.collateral_gain that.collateral_gain
              && (eq s.protocol_token_reward that.protocol_token_reward
                  && s.frontend_tag == that.frontend_tag)))

  -- `StabilityDeposit.whatChanged`.
  unfoldable pub what_changed_deposit :
      StabilityDeposit → Decimal → Result (Option StabilityDepositChange)
  what_changed_deposit s that =
      if lt that s.current_debt_token
      then (do
        withdrawn ← sub s.current_debt_token that
        ok (some (withdraw_debt_token withdrawn (is_zero that))))
      else (if gt that s.current_debt_token
          then (do
            deposited ← sub that s.current_debt_token
            ok (some (deposit_debt_token deposited)))
          else ok none)

  -- `StabilityDeposit.apply`.
  unfoldable pub apply_deposit : StabilityDeposit → Option StabilityDepositChange → Result Decimal
  apply_deposit s none = ok s.current_debt_token
  apply_deposit s (some (withdraw_debt_token amount all)) =
      if all || lte s.current_debt_token amount
      then ok zero_decimal
      else sub s.current_debt_token amount
  apply_deposit s (some (deposit_debt_token amount)) = ok (add s.current_debt_token amount)
