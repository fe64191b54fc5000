-- ===== src/Stake.antt =====
-- The class `ProtocolTokenStake` of packages/lib-base/src/ProtocolTokenStake.ts.
pub mod Laws
use stablecoin_sdk.Base.{Bool, true, false, ◌&&◌, ◌||◌, Option, none, some, if◌then◌else◌}
use stablecoin_sdk.Base.Result.{Result, ok, err, ◌>>=◌}
use stablecoin_sdk.BigNumber.{BigNumber}
use stablecoin_sdk.Decimal.{Decimal, zero_decimal, is_zero, eq, lt, gt, lte, add, sub}

-- `stakeProtocolToken`, or `unstakeProtocolToken` with `unstakeAllProtocolToken`.
pub data ProtocolTokenStakeChange : Type 0 where
  stake_protocol_token : Decimal → ProtocolTokenStakeChange
  unstake_protocol_token : Decimal → Bool → ProtocolTokenStakeChange

pub record ProtocolTokenStake : Type 0 where
  pub staked_protocol_token : Decimal
  pub collateral_gain : Decimal
  pub debt_token_gain : Decimal

module _ ⦃bn : BigNumber⦄ where
  unfoldable pub is_empty_stake : ProtocolTokenStake → Bool
  is_empty_stake s =
      is_zero s.staked_protocol_token && (is_zero s.collateral_gain && is_zero s.debt_token_gain)

  unfoldable pub equals_stake : ProtocolTokenStake → ProtocolTokenStake → Bool
  equals_stake s that =
      eq s.staked_protocol_token that.staked_protocol_token
      && (eq s.collateral_gain that.collateral_gain && eq s.debt_token_gain that.debt_token_gain)

  -- `ProtocolTokenStake.whatChanged`.
  unfoldable pub what_changed_stake :
      ProtocolTokenStake → Decimal → Result (Option ProtocolTokenStakeChange)
  what_changed_stake s that =
      if lt that s.staked_protocol_token
      then (do
        unstaked ← sub s.staked_protocol_token that
        ok (some (unstake_protocol_token unstaked (is_zero that))))
      else (if gt that s.staked_protocol_token
          then (do
            staked ← sub that s.staked_protocol_token
            ok (some (stake_protocol_token staked)))
          else ok none)

  -- `ProtocolTokenStake.apply`.
  unfoldable pub apply_stake : ProtocolTokenStake → Option ProtocolTokenStakeChange → Result Decimal
  apply_stake s none = ok s.staked_protocol_token
  apply_stake s (some (unstake_protocol_token amount all)) =
      if all || lte s.staked_protocol_token amount
      then ok zero_decimal
      else sub s.staked_protocol_token amount
  apply_stake s (some (stake_protocol_token amount)) = ok (add s.staked_protocol_token amount)
