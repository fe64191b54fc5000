-- ===== src/Subgraph/Stake.antt =====
-- packages/subgraph/src/entities/ProtocolTokenStake.ts.
use stablecoin_sdk.Base.{ℕ, Bool, true, false, Option, none, some, if◌then◌else◌, ◌&&◌}
use stablecoin_sdk.Subgraph.Numbers.{GraphNumbers, decimalize, decimal_zero, bigint_zero}
use stablecoin_sdk.Subgraph.Dict.{save, number_key}
use stablecoin_sdk.Subgraph.Entities.{
  Change, Event, StakeEntity, StakeChangeEntity, StakeOperation, stake_created, stake_increased,
  stake_decreased, stake_removed, gains_withdrawn,
}
use stablecoin_sdk.Subgraph.Handler.{Handler, pure, ◌>>=◌, ◌>>◌, reads, saves}
use stablecoin_sdk.Subgraph.Global.{
  decrease_number_of_active_protocol_token_stakes, increase_number_of_active_protocol_token_stakes,
  increase_total_number_of_protocol_token_stakes,
}
use stablecoin_sdk.Subgraph.SystemState.{
  or_create, load_current, update_system_state_by_protocol_token_stake_change,
}
use stablecoin_sdk.Subgraph.Change.{create_change, finish_change}
use stablecoin_sdk.Subgraph.User.{get_user, save_user}

module _ ⦃num : GraphNumbers⦄ where
  unfoldable pub finish_protocol_token_stake_change : StakeChangeEntity → Handler (Unit {0})
  finish_protocol_token_stake_change entity = do
    change ← finish_change entity.change
    saves λ s. record s {
      protocol_token_stake_changes =
          save s.protocol_token_stake_changes change.sequence_number
            (record entity { change = change });
    }

  unfoldable pub get_user_stake : ℕ → Handler (Option StakeEntity)
  get_user_stake address = do
    user ← get_user address
    reads λ s. load_current s.protocol_token_stakes user.stake

  -- A new stake is returned and not yet saved; its owner is.
  unfoldable pub create_stake : ℕ → Handler StakeEntity
  create_stake address = do
    user ← get_user address
    save_user address (record user { stake = some address })
    pure (record { owner = address; amount = decimal_zero })

  unfoldable pub get_operation_type : StakeEntity → num.BigDecimal → StakeOperation
  get_operation_type stake next_stake_amount =
      if num.decimal_eq stake.amount decimal_zero && num.decimal_lt decimal_zero next_stake_amount
      then stake_created
      else if num.decimal_lt stake.amount next_stake_amount
      then stake_increased
      else if num.decimal_eq next_stake_amount decimal_zero
      then stake_removed
      else stake_decreased

  -- What an operation does to the counters.
  abbrev pub count_stake : StakeOperation → Bool → Handler (Unit {0})
  count_stake stake_created is_user_first_stake =
      if is_user_first_stake
      then increase_total_number_of_protocol_token_stakes
      else increase_number_of_active_protocol_token_stakes
  count_stake stake_increased is_user_first_stake = pure tt
  count_stake stake_decreased is_user_first_stake = pure tt
  count_stake stake_removed is_user_first_stake = decrease_number_of_active_protocol_token_stakes
  count_stake gains_withdrawn is_user_first_stake = pure tt

  abbrev pub is_null : Option StakeEntity → Bool
  is_null none = true
  is_null (some _) = false

  unfoldable pub save_stake : StakeEntity → Handler (Unit {0})
  save_stake stake =
      saves λ s. record s { protocol_token_stakes = save s.protocol_token_stakes stake.owner stake }

  abbrev pub stake_update_of : Change → StakeEntity → num.BigDecimal → StakeChangeEntity
  stake_update_of change stake next_stake_amount = record {
    change = change;
    stake = stake.owner;
    operation = get_operation_type stake next_stake_amount;
    staked_amount_before = stake.amount;
    staked_amount_change = num.decimal_minus next_stake_amount stake.amount;
    staked_amount_after = next_stake_amount;
    issuance_gain = decimal_zero;
    redemption_gain = decimal_zero;
  }

  unfoldable pub apply_stake_update :
      Event → num.BigDecimal → Option StakeEntity → StakeEntity → Handler (Unit {0})
  apply_stake_update event next_stake_amount stake_or_null stake = do
    change ← create_change event
    let entity = stake_update_of change stake next_stake_amount
    count_stake entity.operation (is_null stake_or_null)
    update_system_state_by_protocol_token_stake_change entity
    finish_protocol_token_stake_change entity
    save_stake (record stake { amount = next_stake_amount })

  unfoldable pub update_stake : Event → ℕ → num.BigInt → Handler (Unit {0})
  update_stake event address new_stake = do
    stake_or_null ← get_user_stake address
    stake ← or_create (create_stake address) stake_or_null
    apply_stake_update event (decimalize new_stake) stake_or_null stake

  abbrev pub gains_change_of :
      Change → StakeEntity → num.BigDecimal → num.BigDecimal → StakeChangeEntity
  gains_change_of change stake issuance_gain redemption_gain = record {
    change = change;
    stake = stake.owner;
    operation = gains_withdrawn;
    staked_amount_before = stake.amount;
    staked_amount_change = decimal_zero;
    staked_amount_after = stake.amount;
    issuance_gain = issuance_gain;
    redemption_gain = redemption_gain;
  }

  unfoldable pub apply_gains :
      Event → num.BigDecimal → num.BigDecimal → StakeEntity → Handler (Unit {0})
  apply_gains event issuance_gain redemption_gain stake = do
    change ← create_change event
    let entity = gains_change_of change stake issuance_gain redemption_gain
    update_system_state_by_protocol_token_stake_change entity
    finish_protocol_token_stake_change entity
    save_stake stake

  unfoldable pub withdraw_stake_gains : Event → ℕ → num.BigInt → num.BigInt → Handler (Unit {0})
  withdraw_stake_gains event address debt_token_gain fil_gain =
      if num.int_eq debt_token_gain bigint_zero && num.int_eq fil_gain bigint_zero
      then pure tt
      else (do
        stake_or_null ← get_user_stake address
        stake ← or_create (create_stake address) stake_or_null
        apply_gains event (decimalize debt_token_gain) (decimalize fil_gain) stake)
