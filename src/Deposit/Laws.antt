-- ===== src/Deposit/Laws.antt =====
-- A stability deposit and its changes.
use text.Mathlib.TextEquality.{eq_iff}
use Prim.Native.String.{String}
use stablecoin_sdk.Base.{◌-◌, ◌≤◌, ◌≡◌, ◌↔◌, Bool, true, none, some, arith, if◌then◌else◌}
use stablecoin_sdk.Base.Result.{ok, ◌>>=◌}
use stablecoin_sdk.BigNumber.{BigNumber}
use stablecoin_sdk.Decimal.{Decimal, decimal}
use stablecoin_sdk.Decimal.Values.{eq-eq, gt-eq, lt-eq, lte-eq, sub-eq, add-eq, is_zero-eq}
use stablecoin_sdk.Deposit.{
  StabilityDeposit, withdraw_debt_token, create_deposit, equals_deposit, what_changed_deposit,
  apply_deposit,
}

module _ ⦃bn : BigNumber⦄ where
  -- Applying what changed between a deposit and a target amount gives exactly the target: neither step
  -- throws, whatever the two amounts are.
  pub apply-what_changed_deposit :
      (s : StabilityDeposit) (that : Decimal)
      → (do change ← what_changed_deposit s that; apply_deposit s change) ≡ ok that
  unfolding what_changed_deposit apply_deposit
  apply-what_changed_deposit s that = ground (
    arith,
    lt-eq that s.current_debt_token,
    gt-eq that s.current_debt_token,
    sub-eq s.current_debt_token that,
    sub-eq that s.current_debt_token,
    is_zero-eq that,
    lte-eq s.current_debt_token (decimal (s.current_debt_token.big_number - that.big_number)),
    sub-eq s.current_debt_token (decimal (s.current_debt_token.big_number - that.big_number)),
    add-eq s.current_debt_token (decimal (that.big_number - s.current_debt_token.big_number)),
  )

  -- No change is reported exactly when the target is the current amount.
  pub what_changed_deposit-none_iff :
      (s : StabilityDeposit) (that : Decimal)
      → (what_changed_deposit s that ≡ ok none) ↔ (that ≡ s.current_debt_token)
  unfolding what_changed_deposit
  what_changed_deposit-none_iff s that = (
    λ h. ground (
      arith,
      lt-eq that s.current_debt_token,
      gt-eq that s.current_debt_token,
      sub-eq s.current_debt_token that,
      sub-eq that s.current_debt_token,
    ),
    λ h. ground (arith, lt-eq that s.current_debt_token, gt-eq that s.current_debt_token),
  )

  -- A withdrawal never throws: what is left is zero if all is withdrawn, and else the current amount
  -- less the withdrawn one, but not below zero.
  pub withdraw_saturates :
      (s : StabilityDeposit) (amount : Decimal) (all : Bool)
      → apply_deposit s (some (withdraw_debt_token amount all))
        ≡ ok (decimal (if all then 0 else s.current_debt_token.big_number - amount.big_number))
  unfolding apply_deposit
  withdraw_saturates s amount all =
      ground (arith, lte-eq s.current_debt_token amount, sub-eq s.current_debt_token amount)

  -- The constructor refuses exactly a current amount above the initial one.
  pub create_deposit_iff :
      (initial current gain reward : Decimal) (tag : String)
      → ((s : StabilityDeposit) × (create_deposit initial current gain reward tag ≡ ok s))
        ↔ (current.big_number ≤ initial.big_number)
  unfolding create_deposit
  create_deposit_iff initial current gain reward tag = (
    λ (s, e). ground (arith, gt-eq current initial),
    λ h. (
      record {
        initial_debt_token = initial;
        current_debt_token = current;
        collateral_gain = gain;
        protocol_token_reward = reward;
        frontend_tag = tag;
      },
      ground (arith, gt-eq current initial),
    ),
  )

  -- `equals` holds exactly of deposits that agree in every field.
  pub equals_deposit_iff : (s that : StabilityDeposit) → (equals_deposit s that ≡ true) ↔ (s ≡ that)
  unfolding equals_deposit
  equals_deposit_iff s that = (
    λ h. ground (
      arith,
      eq-eq s.initial_debt_token that.initial_debt_token,
      eq-eq s.current_debt_token that.current_debt_token,
      eq-eq s.collateral_gain that.collateral_gain,
      eq-eq s.protocol_token_reward that.protocol_token_reward,
      eq_iff s.frontend_tag that.frontend_tag,
    ),
    λ h. ground (
      arith,
      eq-eq s.initial_debt_token that.initial_debt_token,
      eq-eq s.current_debt_token that.current_debt_token,
      eq-eq s.collateral_gain that.collateral_gain,
      eq-eq s.protocol_token_reward that.protocol_token_reward,
      eq_iff s.frontend_tag that.frontend_tag,
    ),
  )
