-- ===== src/Subgraph/WellFormed/Troves.antt =====
-- The troves and the stability deposits, entities/Trove.ts and StabilityDeposit.ts.
use stablecoin_sdk.Subgraph.User.{get_user}
use stablecoin_sdk.Subgraph.WellFormed.{Within}
use stablecoin_sdk.Subgraph.WellFormed.Records.{
  Keeps-get_user, Keeps-get_current_liquidation, AnyUsers, Leads-resave_recalled, Leads-recall_user,
  Keeps-get_current_redemption,
}
use stablecoin_sdk.Subgraph.Numbers.{GraphNumbers, bigint_zero}
use stablecoin_sdk.Subgraph.WellFormed.Changes.{
  Keeps-get_current_price, Keeps-or_create, Keeps-trove_change_state, Keeps-deposit_change_state,
  Keeps-finish_change, Keeps-create_change,
}
use stablecoin_sdk.Subgraph.Trove.{
  apply_trove_update, link_redemption, count_status, save_trove, update_trove, create_trove,
  set_borrowing_fee_of_last_trove_change, link_liquidation, get_trove, finish_trove_change,
  save_trove_change, apply_redistribution_to_trove_before_liquidation, set_trove_status,
}
use stablecoin_sdk.Subgraph.Handler.{
  Keeps-bind, Keeps-if, Keeps-reads, Keeps-value_or_fail, Leads-bind, Keeps-pure, Keeps-saves,
  Keeps,
}
use stablecoin_sdk.Subgraph.Deposit.{
  update_stability_deposit, update_stability_deposit_by_operation, finish_stability_deposit_change,
  create_stability_deposit, get_stability_deposit, save_stability_deposit,
  withdraw_collateral_gain_from_stability_deposit,
}
use stablecoin_sdk.Subgraph.WellFormed.Globals.{
  Keeps-decrease_number_of_redeemed_troves, Keeps-increase_number_of_troves_closed_by_owner,
  Keeps-decrease_number_of_liquidated_troves, Keeps-get_global,
  Keeps-increase_number_of_liquidated_troves, Keeps-increase_number_of_open_troves,
  Keeps-decrease_number_of_troves_closed_by_owner, Keeps-get_last_change,
  Keeps-increase_number_of_redeemed_troves,
}
use stablecoin_sdk.Subgraph.Entities.{
  is_open, closed_by_owner, closed_by_liquidation, closed_by_redemption, accrue_rewards, Global,
  DepositOperation, TroveStatus, TroveChangeEntity, DepositEntity, Event, TroveOperation,
  TroveEntity,
}
use stablecoin_sdk.Base.{ℕ, refl, Option, none, some}

module _ ⦃num : GraphNumbers⦄ {dt : ℕ → num.BigInt} where
  Keeps-create_trove : (address : ℕ) → Keeps (Within AnyUsers dt) (create_trove address)
  unfolding create_trove
  Keeps-create_trove address = Leads-bind (get_user address) _ (Leads-recall_user address) λ owner.
      Leads-bind _ _ Keeps-increase_number_of_open_troves λ _.
        Leads-bind _ _
          (Leads-resave_recalled address owner (record owner { trove = some address }) refl)
          λ _. Keeps-pure _

  Keeps-get_trove : (address : ℕ) → Keeps (Within AnyUsers dt) (get_trove address)
  unfolding get_trove
  Keeps-get_trove address =
      Keeps-bind _ _ (Keeps-reads _) λ o. Keeps-or_create _ o (Keeps-create_trove address)

  Keeps-count_status :
      (status before : TroveStatus) → Keeps (Within AnyUsers dt) (count_status status before)
  Keeps-count_status is_open is_open = Keeps-pure tt
  Keeps-count_status is_open closed_by_owner = Keeps-decrease_number_of_troves_closed_by_owner
  Keeps-count_status is_open closed_by_liquidation = Keeps-decrease_number_of_liquidated_troves
  Keeps-count_status is_open closed_by_redemption = Keeps-decrease_number_of_redeemed_troves
  Keeps-count_status closed_by_owner is_open = Keeps-increase_number_of_troves_closed_by_owner
  Keeps-count_status closed_by_owner closed_by_owner = Keeps-pure tt
  Keeps-count_status closed_by_owner closed_by_liquidation =
      Keeps-increase_number_of_troves_closed_by_owner
  Keeps-count_status closed_by_owner closed_by_redemption =
      Keeps-increase_number_of_troves_closed_by_owner
  Keeps-count_status closed_by_liquidation is_open = Keeps-increase_number_of_liquidated_troves
  Keeps-count_status closed_by_liquidation closed_by_owner =
      Keeps-increase_number_of_liquidated_troves
  Keeps-count_status closed_by_liquidation closed_by_liquidation = Keeps-pure tt
  Keeps-count_status closed_by_liquidation closed_by_redemption =
      Keeps-increase_number_of_liquidated_troves
  Keeps-count_status closed_by_redemption is_open = Keeps-increase_number_of_redeemed_troves
  Keeps-count_status closed_by_redemption closed_by_owner = Keeps-increase_number_of_redeemed_troves
  Keeps-count_status closed_by_redemption closed_by_liquidation =
      Keeps-increase_number_of_redeemed_troves
  Keeps-count_status closed_by_redemption closed_by_redemption = Keeps-pure tt

  Keeps-set_trove_status :
      (trove : TroveEntity) (status : TroveStatus)
      → Keeps (Within AnyUsers dt) (set_trove_status trove status)
  unfolding set_trove_status
  Keeps-set_trove_status trove status =
      Keeps-bind _ _ (Keeps-count_status status trove.status) λ _. Keeps-pure _

  Keeps-save_trove_change :
      (entity : TroveChangeEntity) → Keeps (Within AnyUsers dt) (save_trove_change entity)
  unfolding save_trove_change
  Keeps-save_trove_change entity = Keeps-saves _ λ s h. h

  Keeps-finish_trove_change :
      (entity : TroveChangeEntity) → Keeps (Within AnyUsers dt) (finish_trove_change entity)
  unfolding finish_trove_change
  Keeps-finish_trove_change entity =
      Keeps-bind _ _ (Keeps-finish_change entity.change) λ change. Keeps-save_trove_change _

  Keeps-link_liquidation :
      (event : Event) (entity : TroveChangeEntity)
      → Keeps (Within AnyUsers dt) (link_liquidation event entity)
  unfolding link_liquidation
  Keeps-link_liquidation event entity =
      Keeps-if _ _ _ (Keeps-bind _ _ (Keeps-get_current_liquidation event) λ l. Keeps-pure _)
        (Keeps-pure _)

  Keeps-link_redemption :
      (event : Event) (entity : TroveChangeEntity)
      → Keeps (Within AnyUsers dt) (link_redemption event entity)
  unfolding link_redemption
  Keeps-link_redemption event entity =
      Keeps-if _ _ _ (Keeps-bind _ _ (Keeps-get_current_redemption event) λ r. Keeps-pure _)
        (Keeps-pure _)

  Keeps-save_trove : (trove : TroveEntity) → Keeps (Within AnyUsers dt) (save_trove trove)
  unfolding save_trove
  Keeps-save_trove trove = Keeps-saves _ λ s h. h

  Keeps-apply_trove_update :
      (event : Event) (operation : TroveOperation) (global : Global) (trove : TroveEntity)
      (coll debt stake : num.BigInt)
      → Keeps (Within AnyUsers dt) (apply_trove_update event operation global trove coll debt stake)
  unfolding apply_trove_update
  Keeps-apply_trove_update event operation global trove coll debt stake =
      Keeps-bind _ _ (Keeps-create_change event) λ change.
        Keeps-bind _ _ Keeps-get_current_price λ price.
          Keeps-bind _ _ (Keeps-link_liquidation event _) λ liquidated.
            Keeps-bind _ _ (Keeps-link_redemption event liquidated) λ linked.
              Keeps-bind _ _ (Keeps-trove_change_state linked) λ _.
                Keeps-bind _ _ (Keeps-finish_trove_change linked) λ _.
                  Keeps-bind _ _ (Keeps-set_trove_status _ _) λ updated. Keeps-save_trove updated

  pub Keeps-update_trove :
      (event : Event) (operation : TroveOperation) (borrower : ℕ) (coll debt stake : num.BigInt)
      → Keeps (Within AnyUsers dt) (update_trove event operation borrower coll debt stake)
  unfolding update_trove
  Keeps-update_trove event operation borrower coll debt stake =
      Keeps-bind _ _ Keeps-get_global λ global. Keeps-bind _ _ (Keeps-get_trove borrower) λ trove.
        Keeps-if _ _ _ (Keeps-pure tt)
          (Keeps-apply_trove_update event operation global trove coll debt stake)

  pub Keeps-set_borrowing_fee :
      (fee : num.BigInt) → Keeps (Within AnyUsers dt) (set_borrowing_fee_of_last_trove_change fee)
  unfolding set_borrowing_fee_of_last_trove_change
  Keeps-set_borrowing_fee fee = Keeps-bind _ _ Keeps-get_last_change λ id.
      Keeps-bind _ _ (Keeps-reads _)
        λ loaded. Keeps-bind _ _ (Keeps-value_or_fail loaded) λ change. Keeps-save_trove_change _

  pub Keeps-apply_redistribution :
      (event : Event) (borrower : ℕ)
      → Keeps (Within AnyUsers dt) (apply_redistribution_to_trove_before_liquidation event borrower)
  unfolding apply_redistribution_to_trove_before_liquidation
  Keeps-apply_redistribution event borrower = Keeps-bind _ _ Keeps-get_global λ global.
      Keeps-bind _ _ (Keeps-get_trove borrower) λ trove.
        Keeps-bind _ _ (Keeps-value_or_fail trove.raw)
          λ raw. Keeps-update_trove event accrue_rewards borrower _ _ bigint_zero

  Keeps-create_stability_deposit :
      (address : ℕ) → Keeps (Within AnyUsers dt) (create_stability_deposit address)
  unfolding create_stability_deposit
  Keeps-create_stability_deposit address =
      Leads-bind (get_user address) _ (Leads-recall_user address) λ owner.
        Leads-bind _ _
          (Leads-resave_recalled address owner (record owner { stability_deposit = some address })
            refl)
          λ _. Keeps-pure _

  Keeps-get_stability_deposit :
      (address : ℕ) → Keeps (Within AnyUsers dt) (get_stability_deposit address)
  unfolding get_stability_deposit
  Keeps-get_stability_deposit address =
      Keeps-bind _ _ (Keeps-reads _)
        λ o. Keeps-or_create _ o (Keeps-create_stability_deposit address)

  Keeps-update_deposit_by_operation :
      (event : Event) (deposit : DepositEntity) (operation : DepositOperation)
      (amount : num.BigDecimal) (gain : Option num.BigDecimal)
      → Keeps
          (Within AnyUsers dt)
          (update_stability_deposit_by_operation event deposit operation amount gain)
  unfolding update_stability_deposit_by_operation finish_stability_deposit_change
  Keeps-update_deposit_by_operation event deposit operation amount gain =
      Keeps-bind _ _ (Keeps-create_change event) λ change.
        Keeps-bind _ _ (Keeps-deposit_change_state _) λ _.
          Keeps-bind _ _ (Keeps-bind _ _ (Keeps-finish_change _) λ finished. Keeps-saves _ λ s h. h)
            λ _. Keeps-pure _

  Keeps-save_stability_deposit :
      (deposit : DepositEntity) → Keeps (Within AnyUsers dt) (save_stability_deposit deposit)
  unfolding save_stability_deposit
  Keeps-save_stability_deposit deposit = Keeps-saves _ λ s h. h

  pub Keeps-update_stability_deposit :
      (event : Event) (address : ℕ) (amount : num.BigInt)
      → Keeps (Within AnyUsers dt) (update_stability_deposit event address amount)
  unfolding update_stability_deposit
  Keeps-update_stability_deposit event address amount =
      Keeps-bind _ _ (Keeps-get_stability_deposit address) λ deposit.
        Keeps-bind _ _ (Keeps-get_user address) λ owner. Keeps-if _ _ _ (Keeps-pure tt) (
          Keeps-bind _ _ (Keeps-update_deposit_by_operation event _ _ _ none)
            λ updated. Keeps-save_stability_deposit updated)

  pub Keeps-withdraw_collateral_gain :
      (event : Event) (address : ℕ) (fil loss : num.BigInt)
      → Keeps
          (Within AnyUsers dt)
          (withdraw_collateral_gain_from_stability_deposit event address fil loss)
  unfolding withdraw_collateral_gain_from_stability_deposit
  Keeps-withdraw_collateral_gain event address fil loss = Keeps-if _ _ _ (Keeps-pure tt) (
      Keeps-bind _ _ (Keeps-get_stability_deposit address) λ deposit.
        Keeps-bind _ _ (Keeps-update_deposit_by_operation event deposit _ _ _)
          λ updated. Keeps-save_stability_deposit updated)
