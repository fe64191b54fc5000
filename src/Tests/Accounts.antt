-- ===== src/Tests/Accounts.antt =====
-- Runs of `StabilityDeposit` and `ProtocolTokenStake`.
use stablecoin_sdk.Base.{◌≡◌}
use stablecoin_sdk.Base.Result.{ok, ◌>>=◌}
use stablecoin_sdk.Tests.{numbers}
use stablecoin_sdk.Decimal.{decimal, half, one, zero_decimal}
use stablecoin_sdk.Deposit.{StabilityDeposit, what_changed_deposit, apply_deposit}
use stablecoin_sdk.Deposit.Laws.{apply-what_changed_deposit}
use stablecoin_sdk.Stake.{ProtocolTokenStake, what_changed_stake, apply_stake}
use stablecoin_sdk.Stake.Laws.{apply-what_changed_stake}

abbrev pub some_deposit : StabilityDeposit
some_deposit = record {
  initial_debt_token = one;
  current_debt_token = half;
  collateral_gain = decimal 7;
  protocol_token_reward = zero_decimal;
  frontend_tag = "0x01";
}

abbrev pub some_stake : ProtocolTokenStake
some_stake = record {
  staked_protocol_token = one;
  collateral_gain = decimal 3;
  debt_token_gain = zero_decimal;
}

apply-what_changed_deposit_example :
    (do change ← what_changed_deposit some_deposit one; apply_deposit some_deposit change) ≡ ok one
apply-what_changed_deposit_example = apply-what_changed_deposit some_deposit one

apply-what_changed_stake_example :
    (do change ← what_changed_stake some_stake half; apply_stake some_stake change) ≡ ok half
apply-what_changed_stake_example = apply-what_changed_stake some_stake half
