-- ===== src/Subgraph/Mappings.antt =====
-- packages/subgraph/src/mappings: one handler for each event of the contracts, and the indexing of a
-- sequence of events. A handler that fails stops the indexing.
use stablecoin_sdk.Base.{ℕ, Option, none, some, List, [], ◌∷◌}
use stablecoin_sdk.Subgraph.Numbers.{GraphNumbers, bigint_zero}
use stablecoin_sdk.Subgraph.Entities.{Event}
use stablecoin_sdk.Subgraph.Handler.{Handler, pure, ◌>>=◌, ◌>>◌}
use stablecoin_sdk.Subgraph.Global.{
  get_global, save_global, increase_total_borrowing_fees_paid, update_total_redistributed,
}
use stablecoin_sdk.Subgraph.TroveOperation.{
  get_trove_operation_from_borrower_operation, get_trove_operation_from_trove_manager_operation,
}
use stablecoin_sdk.Subgraph.Change.{update_price}
use stablecoin_sdk.Subgraph.User.{
  update_user_claim_coll, finish_current_liquidation, finish_current_redemption, register_frontend,
  assign_frontend_to_depositor,
}
use stablecoin_sdk.Subgraph.Token.{Erc20, update_balance, update_allowance}
use stablecoin_sdk.Subgraph.Deposit.{
  update_stability_deposit, withdraw_collateral_gain_from_stability_deposit,
}
use stablecoin_sdk.Subgraph.Stake.{update_stake, withdraw_stake_gains}
use stablecoin_sdk.Subgraph.Trove.{
  update_trove, set_borrowing_fee_of_last_trove_change,
  apply_redistribution_to_trove_before_liquidation,
}

module _ ⦃num : GraphNumbers⦄ where
  -- The events, with the parameters that their handlers read.
  pub data ContractEvent : Type 0 where
    trove_updated_by_borrower trove_updated_by_manager :
        (operation borrower : ℕ) (coll debt stake : num.BigInt) → ContractEvent
    debt_token_borrowing_fee_paid : (fee : num.BigInt) → ContractEvent
    coll_balance_updated : (account : ℕ) (new_balance : num.BigInt) → ContractEvent
    last_good_price_updated : (last_good_price : num.BigInt) → ContractEvent
    stake_changed : (staker : ℕ) (new_stake : num.BigInt) → ContractEvent
    staking_gains_withdrawn : (staker : ℕ) (debt_token_gain fil_gain : num.BigInt) → ContractEvent
    user_deposit_changed : (depositor : ℕ) (new_deposit : num.BigInt) → ContractEvent
    fil_gain_withdrawn : (depositor : ℕ) (fil debt_token_loss : num.BigInt) → ContractEvent
    front_end_registered : (front_end : ℕ) (kickback_rate : num.BigInt) → ContractEvent
    front_end_tag_set : (depositor front_end : ℕ) → ContractEvent
    transfer : (sender recipient : ℕ) (value : num.BigInt) → ContractEvent
    approval : (owner spender : ℕ) (value : num.BigInt) → ContractEvent
    trove_liquidated : (borrower : ℕ) → ContractEvent
    liquidation_finished :
        (coll debt coll_compensation debt_compensation : num.BigInt) → ContractEvent
    redemption_finished : (attempted actual fil_sent fil_fee : num.BigInt) → ContractEvent
    l_terms_updated : (l_fil l_debt : num.BigInt) → ContractEvent

  unfoldable pub handle_debt_token_borrowing_fee_paid : num.BigInt → Handler (Unit {0})
  handle_debt_token_borrowing_fee_paid fee = do
    set_borrowing_fee_of_last_trove_change fee
    increase_total_borrowing_fees_paid fee

  abbrev pub swapped : num.BigInt → Option num.BigInt → Option num.BigInt
  swapped value_to_set_if_null none = some value_to_set_if_null
  swapped value_to_set_if_null (some _) = none

  unfoldable pub swap_tmp_deposit_update : num.BigInt → Handler (Option num.BigInt)
  swap_tmp_deposit_update value_to_set_if_null = do
    global ← get_global
    save_global (record global {
      tmp_deposit_update = swapped value_to_set_if_null global.tmp_deposit_update;
    })
    pure global.tmp_deposit_update

  abbrev pub if_not_null : {A : Type 0} → Option A → (A → Handler (Unit {0})) → Handler (Unit {0})
  if_not_null none f = pure tt
  if_not_null (some a) f = f a

  unfoldable pub handle_user_deposit_changed : Event → ℕ → num.BigInt → Handler (Unit {0})
  handle_user_deposit_changed event depositor new_deposit = do
    gain_withdrawn ← swap_tmp_deposit_update new_deposit
    if_not_null gain_withdrawn λ _. update_stability_deposit event depositor new_deposit

  unfoldable pub handle_fil_gain_withdrawn :
      Event → ℕ → num.BigInt → num.BigInt → Handler (Unit {0})
  handle_fil_gain_withdrawn event depositor fil debt_token_loss = do
    deposit_update ← swap_tmp_deposit_update bigint_zero
    withdraw_collateral_gain_from_stability_deposit event depositor fil debt_token_loss
    if_not_null deposit_update (update_stability_deposit event depositor)

  unfoldable pub handle : Erc20 → Event → ContractEvent → Handler (Unit {0})
  handle erc20 event (trove_updated_by_borrower operation borrower coll debt stake) =
      update_trove event (get_trove_operation_from_borrower_operation operation) borrower coll debt
        stake
  handle erc20 event (trove_updated_by_manager operation borrower coll debt stake) =
      update_trove event (get_trove_operation_from_trove_manager_operation operation) borrower coll
        debt stake
  handle erc20 event (debt_token_borrowing_fee_paid fee) = handle_debt_token_borrowing_fee_paid fee
  handle erc20 event (coll_balance_updated account new_balance) =
      update_user_claim_coll event account new_balance
  handle erc20 event (last_good_price_updated last_good_price) = update_price event last_good_price
  handle erc20 event (stake_changed staker new_stake) = update_stake event staker new_stake
  handle erc20 event (staking_gains_withdrawn staker debt_token_gain fil_gain) =
      withdraw_stake_gains event staker debt_token_gain fil_gain
  handle erc20 event (user_deposit_changed depositor new_deposit) =
      handle_user_deposit_changed event depositor new_deposit
  handle erc20 event (fil_gain_withdrawn depositor fil debt_token_loss) =
      handle_fil_gain_withdrawn event depositor fil debt_token_loss
  handle erc20 event (front_end_registered front_end kickback_rate) =
      register_frontend front_end kickback_rate
  handle erc20 event (front_end_tag_set depositor front_end) =
      assign_frontend_to_depositor depositor front_end
  handle erc20 event (transfer sender recipient value) =
      update_balance erc20 event sender recipient value
  handle erc20 event (approval owner spender value) = update_allowance event owner spender value
  handle erc20 event (trove_liquidated borrower) =
      apply_redistribution_to_trove_before_liquidation event borrower
  handle erc20 event (liquidation_finished coll debt coll_compensation debt_compensation) =
      finish_current_liquidation event coll debt coll_compensation debt_compensation
  handle erc20 event (redemption_finished attempted actual fil_sent fil_fee) =
      finish_current_redemption event attempted actual fil_sent fil_fee
  handle erc20 event (l_terms_updated l_fil l_debt) = update_total_redistributed l_fil l_debt

  unfoldable pub index : Erc20 → List (Event × ContractEvent) → Handler (Unit {0})
  index erc20 [] = pure tt
  index erc20 ((event, e) ∷ events) = do handle erc20 event e; index erc20 events
