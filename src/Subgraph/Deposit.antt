-- ===== src/Subgraph/Deposit.antt =====
-- packages/subgraph/src/entities/StabilityDeposit.ts.
use stablecoin_sdk.Base.{ℕ, ◌==◌, Bool, true, false, Option, none, some, if◌then◌else◌, ◌&&◌}
use stablecoin_sdk.Subgraph.Numbers.{GraphNumbers, decimalize, decimal_zero, bigint_zero}
use stablecoin_sdk.Subgraph.Dict.{load, save, number_key}
use stablecoin_sdk.Subgraph.Entities.{
  Event, DepositEntity, DepositChangeEntity, DepositOperation, deposit_tokens, withdraw_tokens,
  withdraw_collateral_gain,
}
use stablecoin_sdk.Subgraph.Handler.{Handler, pure, ◌>>=◌, ◌>>◌, reads, saves}
use stablecoin_sdk.Subgraph.SystemState.{or_create, update_system_state_by_stability_deposit_change}
use stablecoin_sdk.Subgraph.Change.{create_change, finish_change}
use stablecoin_sdk.Subgraph.User.{get_user, save_user}

module _ ⦃num : GraphNumbers⦄ where
  abbrev pub new_stability_deposit : ℕ → DepositEntity
  new_stability_deposit owner = record {
    owner = owner;
    deposited_amount = decimal_zero;
    frontend = none;
  }

  -- A new deposit is returned and not yet saved; its owner is.
  unfoldable pub create_stability_deposit : ℕ → Handler DepositEntity
  create_stability_deposit address = do
    owner ← get_user address
    save_user address (record owner { stability_deposit = some address })
    pure (new_stability_deposit address)

  unfoldable pub get_stability_deposit : ℕ → Handler DepositEntity
  get_stability_deposit address = do
    deposit ← reads λ s. load s.stability_deposits address
    or_create (create_stability_deposit address) deposit

  unfoldable pub save_stability_deposit : DepositEntity → Handler (Unit {0})
  save_stability_deposit deposit =
      saves λ s. record s { stability_deposits = save s.stability_deposits deposit.owner deposit }

  unfoldable pub finish_stability_deposit_change : DepositChangeEntity → Handler (Unit {0})
  finish_stability_deposit_change entity = do
    change ← finish_change entity.change
    saves λ s. record s {
      stability_deposit_changes =
          save s.stability_deposit_changes change.sequence_number
            (record entity { change = change });
    }

  -- The deposit with its new amount: the caller's object is changed, and saved by the caller.
  unfoldable pub update_stability_deposit_by_operation :
      Event
      → DepositEntity
      → DepositOperation
      → num.BigDecimal
      → Option num.BigDecimal
      → Handler DepositEntity
  update_stability_deposit_by_operation event deposit operation new_amount collateral_gain = do
    change ← create_change event
    let entity : DepositChangeEntity = record {
      change = change;
      stability_deposit = deposit.owner;
      operation = operation;
      deposited_amount_before = deposit.deposited_amount;
      deposited_amount_change = num.decimal_minus new_amount deposit.deposited_amount;
      deposited_amount_after = new_amount;
      collateral_gain = collateral_gain;
    }
    update_system_state_by_stability_deposit_change entity
    finish_stability_deposit_change entity
    pure (record deposit { deposited_amount = new_amount })

  abbrev same_id : Option ℕ → Option ℕ → Bool
  same_id none none = true
  same_id none (some j) = false
  same_id (some i) none = false
  same_id (some i) (some j) = i == j

  unfoldable pub update_stability_deposit : Event → ℕ → num.BigInt → Handler (Unit {0})
  update_stability_deposit event address amount = do
    deposit ← get_stability_deposit address
    owner ← get_user address
    if num.decimal_eq (decimalize amount) deposit.deposited_amount then pure tt else (do
      let tagged : DepositEntity =
          if same_id owner.frontend deposit.frontend
          then deposit
          else record deposit { frontend = owner.frontend }
      updated ←
          update_stability_deposit_by_operation event tagged
            (if num.decimal_lt deposit.deposited_amount (decimalize amount)
              then deposit_tokens
              else withdraw_tokens)
            (decimalize amount) none
      save_stability_deposit updated)

  unfoldable pub withdraw_collateral_gain_from_stability_deposit :
      Event → ℕ → num.BigInt → num.BigInt → Handler (Unit {0})
  withdraw_collateral_gain_from_stability_deposit event address fil debt_token_loss =
      if num.int_eq fil bigint_zero && num.int_eq debt_token_loss bigint_zero then pure tt else (do
        deposit ← get_stability_deposit address
        updated ←
            update_stability_deposit_by_operation event deposit withdraw_collateral_gain
              (num.decimal_minus deposit.deposited_amount (decimalize debt_token_loss))
              (some (decimalize fil))
        save_stability_deposit updated)
