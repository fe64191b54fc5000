-- ===== src/Stake/Laws.antt =====
-- A stake of protocol tokens and its changes.
use stablecoin_sdk.Base.{◌-◌, ◌≡◌, ◌↔◌, ◌+◌, ◌==◌, ◌&&◌, Bool, true, some, arith, if◌then◌else◌}
use stablecoin_sdk.Base.Result.{ok, ◌>>=◌}
use stablecoin_sdk.BigNumber.{BigNumber}
use stablecoin_sdk.Decimal.{Decimal, decimal}
use stablecoin_sdk.Decimal.Values.{eq-eq, gt-eq, lt-eq, lte-eq, sub-eq, add-eq, is_zero-eq}
use stablecoin_sdk.Stake.{
  ProtocolTokenStake, stake_protocol_token, unstake_protocol_token, equals_stake,
  what_changed_stake, apply_stake,
}

module _ ⦃bn : BigNumber⦄ where
  -- What `apply` returns for every change.
  pub apply_stake-eq :
      (s : ProtocolTokenStake) (amount : Decimal) (all : Bool)
      → (apply_stake s (some (stake_protocol_token amount))
          ≡ ok (decimal (s.staked_protocol_token.big_number + amount.big_number)))
        × (apply_stake s (some (unstake_protocol_token amount all))
            ≡ ok (
                decimal
                  (if all then 0 else s.staked_protocol_token.big_number - amount.big_number)))
  unfolding apply_stake
  apply_stake-eq s amount all = ground (
    arith,
    add-eq s.staked_protocol_token amount,
    lte-eq s.staked_protocol_token amount,
    sub-eq s.staked_protocol_token amount,
  )

  -- Applying what changed between a stake and a target amount gives exactly the target; neither step
  -- throws.
  pub apply-what_changed_stake :
      (s : ProtocolTokenStake) (that : Decimal)
      → (do change ← what_changed_stake s that; apply_stake s change) ≡ ok that
  unfolding what_changed_stake apply_stake
  apply-what_changed_stake s that = ground (
    arith,
    lt-eq that s.staked_protocol_token,
    gt-eq that s.staked_protocol_token,
    sub-eq s.staked_protocol_token that,
    sub-eq that s.staked_protocol_token,
    is_zero-eq that,
    lte-eq s.staked_protocol_token (decimal (s.staked_protocol_token.big_number - that.big_number)),
    sub-eq s.staked_protocol_token (decimal (s.staked_protocol_token.big_number - that.big_number)),
    add-eq s.staked_protocol_token (decimal (that.big_number - s.staked_protocol_token.big_number)),
  )

  equals_stake-fields :
      (s that : ProtocolTokenStake)
      → equals_stake s that ≡ (
          (s.staked_protocol_token.big_number == that.staked_protocol_token.big_number)
          && ((s.collateral_gain.big_number == that.collateral_gain.big_number)
              && (s.debt_token_gain.big_number == that.debt_token_gain.big_number)))
  unfolding equals_stake
  equals_stake-fields s that = simp eq-eq

  -- `equals` holds exactly of stakes that agree in every field.
  pub equals_stake_iff : (s that : ProtocolTokenStake) → (equals_stake s that ≡ true) ↔ (s ≡ that)
  equals_stake_iff s that = (
    λ h. ground (arith, equals_stake-fields s that),
    λ h. ground (arith, equals_stake-fields s that),
  )
