-- ===== src/Subgraph/SystemState.antt =====
-- packages/subgraph/src/entities/SystemState.ts, less `updatePrice`: the sequence of the states of the
-- system. The id of a state is its sequence number.
use stablecoin_sdk.Base.{ℕ, Bool, true, false, Option, none, some, if◌then◌else◌, ◌||◌}
use stablecoin_sdk.Subgraph.Numbers.{
  GraphNumbers, decimal_zero, decimal_one, decimal_precision, gas_compensation_divisor,
}
use stablecoin_sdk.Subgraph.Dict.{Dict, load, save, number_key}
use stablecoin_sdk.Subgraph.Entities.{
  SystemState, TroveOperation, TroveChangeEntity, DepositChangeEntity, CollSurplusChange,
  StakeChangeEntity, DepositOperation, deposit_tokens, withdraw_tokens, withdraw_collateral_gain,
}
use stablecoin_sdk.Subgraph.Handler.{Handler, pure, ◌>>=◌, ◌>>◌, reads, saves, value_or_fail}
use stablecoin_sdk.Subgraph.Global.{get_global, change_global, get_system_state_sequence_number}
use stablecoin_sdk.Subgraph.TroveOperation.{
  is_borrower_operation, is_liquidation, is_recovery_mode_liquidation, is_redemption,
  calculate_collateral_ratio,
}

-- Loading with no id finds nothing.
unfoldable pub load_current : {V : Type 0} → Dict ℕ V → Option ℕ → Option V
load_current d none = none
load_current d (some id) = load d id

module _ ⦃num : GraphNumbers⦄ where
  unfoldable pub save_system_state : SystemState → Handler (Unit {0})
  save_system_state state =
      saves λ s. record s { system_states = save s.system_states state.sequence_number state }

  abbrev pub set_current_system_state : SystemState → Handler (Unit {0})
  set_current_system_state state =
      change_global λ g. record g { current_system_state = some state.sequence_number }

  abbrev pub new_system_state : ℕ → SystemState
  new_system_state sequence_number = record {
    sequence_number = sequence_number;
    price = none;
    total_collateral = decimal_zero;
    total_debt = decimal_zero;
    total_collateral_ratio = none;
    tokens_in_stability_pool = decimal_zero;
    coll_surplus_pool_balance = decimal_zero;
    total_protocol_tokens_staked = decimal_zero;
  }

  unfoldable pub create_system_state : Handler SystemState
  create_system_state = do
    sequence_number ← get_system_state_sequence_number
    save_system_state (new_system_state sequence_number)
    set_current_system_state (new_system_state sequence_number)
    pure (new_system_state sequence_number)

  abbrev pub or_create : {V : Type 0} → Handler V → Option V → Handler V
  or_create create none = create
  or_create create (some v) = pure v

  unfoldable pub get_current_system_state : Handler SystemState
  get_current_system_state = do
    global ← get_global
    state ← reads λ s. load_current s.system_states global.current_system_state
    or_create create_system_state state

  unfoldable pub bump_system_state : SystemState → Handler (Unit {0})
  bump_system_state state = do
    sequence_number ← get_system_state_sequence_number
    save_system_state (record state { sequence_number = sequence_number })
    set_current_system_state (record state { sequence_number = sequence_number })

  unfoldable pub get_current_price : Handler num.BigDecimal
  get_current_price = do state ← get_current_system_state; value_or_fail state.price

  unfoldable pub try_to_offset_with_tokens_from_stability_pool :
      SystemState → num.BigDecimal → num.BigDecimal → SystemState
  try_to_offset_with_tokens_from_stability_pool state collateral_to_liquidate debt_to_liquidate =
      if num.decimal_le debt_to_liquidate state.tokens_in_stability_pool
      then record state {
        total_collateral = num.decimal_minus state.total_collateral collateral_to_liquidate;
        total_debt = num.decimal_minus state.total_debt debt_to_liquidate;
        tokens_in_stability_pool =
            num.decimal_minus state.tokens_in_stability_pool debt_to_liquidate;
      }
      else if num.decimal_lt decimal_zero state.tokens_in_stability_pool
      then record state {
        total_collateral = num.decimal_minus state.total_collateral (
            num.truncate
              (num.decimal_div
                (num.decimal_times collateral_to_liquidate state.tokens_in_stability_pool)
                debt_to_liquidate)
              decimal_precision);
        total_debt = num.decimal_minus state.total_debt state.tokens_in_stability_pool;
        tokens_in_stability_pool = decimal_zero;
      }
      else state

  -- Whether the stability pool may absorb a liquidation; a missing ratio may trap.
  abbrev pub may_offset : TroveOperation → Option num.BigDecimal → Option Bool
  may_offset operation collateral_ratio =
      if is_recovery_mode_liquidation operation
      then num.nullable_lt decimal_one collateral_ratio
      else some true

  unfoldable pub collateral_gas_compensation : num.BigDecimal → num.BigDecimal
  collateral_gas_compensation collateral =
      num.truncate (num.decimal_div collateral gas_compensation_divisor) decimal_precision

  unfoldable pub apply_liquidation : TroveChangeEntity → SystemState → Bool → SystemState
  apply_liquidation change state offset =
      let compensation = collateral_gas_compensation change.collateral_before in
      let compensated : SystemState = record state {
        total_collateral = num.decimal_minus state.total_collateral compensation;
      } in
      if offset
      then try_to_offset_with_tokens_from_stability_pool compensated
          (num.decimal_minus change.collateral_before compensation) change.debt_before
      else compensated

  unfoldable pub apply_trove_change : TroveChangeEntity → SystemState → Handler SystemState
  apply_trove_change change state =
      if is_borrower_operation change.operation || is_redemption change.operation
      then pure (record state {
        total_collateral = num.decimal_plus state.total_collateral change.collateral_change;
        total_debt = num.decimal_plus state.total_debt change.debt_change;
      })
      else if is_liquidation change.operation
      then (do
        offset ← value_or_fail (may_offset change.operation change.collateral_ratio_before)
        pure (apply_liquidation change state offset))
      else pure state

  unfoldable pub update_system_state_by_trove_change : TroveChangeEntity → Handler (Unit {0})
  update_system_state_by_trove_change change = do
    state ← get_current_system_state
    changed ← apply_trove_change change state
    price ← value_or_fail changed.price
    bump_system_state (record changed {
      total_collateral_ratio =
          calculate_collateral_ratio changed.total_collateral changed.total_debt price;
    })

  abbrev pub is_pool_operation : DepositOperation → Bool
  is_pool_operation deposit_tokens = true
  is_pool_operation withdraw_tokens = true
  is_pool_operation withdraw_collateral_gain = false

  unfoldable pub update_system_state_by_stability_deposit_change :
      DepositChangeEntity → Handler (Unit {0})
  update_system_state_by_stability_deposit_change change = do
    state ← get_current_system_state
    bump_system_state (
        if is_pool_operation change.operation
        then record state {
          tokens_in_stability_pool =
              num.decimal_plus state.tokens_in_stability_pool change.deposited_amount_change;
        }
        else state)

  unfoldable pub update_system_state_by_coll_surplus_change : CollSurplusChange → Handler (Unit {0})
  update_system_state_by_coll_surplus_change change = do
    state ← get_current_system_state
    bump_system_state (record state {
      coll_surplus_pool_balance =
          num.decimal_plus state.coll_surplus_pool_balance change.coll_surplus_change;
    })

  unfoldable pub update_system_state_by_protocol_token_stake_change :
      StakeChangeEntity → Handler (Unit {0})
  update_system_state_by_protocol_token_stake_change change = do
    state ← get_current_system_state
    bump_system_state (record state {
      total_protocol_tokens_staked =
          num.decimal_plus state.total_protocol_tokens_staked change.staked_amount_change;
    })
