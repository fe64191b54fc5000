-- ===== src/Subgraph/Trove.antt =====
-- packages/subgraph/src/entities/Trove.ts.
use stablecoin_sdk.Base.{ℕ, none, some, if◌then◌else◌, ◌&&◌, not}
use stablecoin_sdk.Subgraph.Numbers.{
  GraphNumbers, decimalize, decimal_zero, bigint_zero, bigint_scaling_factor,
}
use stablecoin_sdk.Subgraph.Dict.{load, save, number_key}
use stablecoin_sdk.Subgraph.Entities.{
  Event, Global, Change, TroveEntity, RawTrove, TroveChangeEntity, TroveOperation, accrue_rewards,
  TroveStatus, is_open, closed_by_owner, closed_by_liquidation, closed_by_redemption,
}
use stablecoin_sdk.Subgraph.Handler.{Handler, pure, ◌>>=◌, ◌>>◌, reads, saves, value_or_fail}
use stablecoin_sdk.Subgraph.Global.{
  get_global, get_last_change_sequence_number, increase_number_of_open_troves,
  increase_number_of_liquidated_troves, decrease_number_of_liquidated_troves,
  increase_number_of_redeemed_troves, decrease_number_of_redeemed_troves,
  increase_number_of_troves_closed_by_owner, decrease_number_of_troves_closed_by_owner,
}
use stablecoin_sdk.Subgraph.TroveOperation.{
  is_liquidation, is_redemption, calculate_collateral_ratio,
}
use stablecoin_sdk.Subgraph.SystemState.{
  or_create, get_current_price, update_system_state_by_trove_change,
}
use stablecoin_sdk.Subgraph.Change.{create_change, finish_change}
use stablecoin_sdk.Subgraph.User.{
  get_user, save_user, get_current_liquidation, get_current_redemption,
}

module _ ⦃num : GraphNumbers⦄ where
  abbrev pub new_trove : ℕ → TroveEntity
  new_trove owner = record {
    owner = owner;
    status = is_open;
    collateral = decimal_zero;
    debt = decimal_zero;
    raw = none;
  }

  -- A new trove is counted and returned, and not yet saved; its owner is saved.
  unfoldable pub create_trove : ℕ → Handler TroveEntity
  create_trove address = do
    owner ← get_user address
    increase_number_of_open_troves
    save_user address (record owner { trove = some address })
    pure (new_trove address)

  unfoldable pub get_trove : ℕ → Handler TroveEntity
  get_trove address = do
    trove ← reads λ s. load s.troves address
    or_create (create_trove address) trove

  -- What a change of the status does to the counters.
  abbrev pub count_status : TroveStatus → TroveStatus → Handler (Unit {0})
  count_status is_open is_open = pure tt
  count_status is_open closed_by_owner = decrease_number_of_troves_closed_by_owner
  count_status is_open closed_by_liquidation = decrease_number_of_liquidated_troves
  count_status is_open closed_by_redemption = decrease_number_of_redeemed_troves
  count_status closed_by_owner is_open = increase_number_of_troves_closed_by_owner
  count_status closed_by_owner closed_by_owner = pure tt
  count_status closed_by_owner closed_by_liquidation = increase_number_of_troves_closed_by_owner
  count_status closed_by_owner closed_by_redemption = increase_number_of_troves_closed_by_owner
  count_status closed_by_liquidation is_open = increase_number_of_liquidated_troves
  count_status closed_by_liquidation closed_by_owner = increase_number_of_liquidated_troves
  count_status closed_by_liquidation closed_by_liquidation = pure tt
  count_status closed_by_liquidation closed_by_redemption = increase_number_of_liquidated_troves
  count_status closed_by_redemption is_open = increase_number_of_redeemed_troves
  count_status closed_by_redemption closed_by_owner = increase_number_of_redeemed_troves
  count_status closed_by_redemption closed_by_liquidation = increase_number_of_redeemed_troves
  count_status closed_by_redemption closed_by_redemption = pure tt

  -- The trove with its new status; the caller saves it.
  unfoldable pub set_trove_status : TroveEntity → TroveStatus → Handler TroveEntity
  set_trove_status trove status = do
    count_status status trove.status
    pure (record trove { status = status })

  unfoldable pub save_trove_change : TroveChangeEntity → Handler (Unit {0})
  save_trove_change entity =
      saves
        λ s. record s { trove_changes = save s.trove_changes entity.change.sequence_number entity }

  unfoldable pub finish_trove_change : TroveChangeEntity → Handler (Unit {0})
  finish_trove_change entity = do
    change ← finish_change entity.change
    save_trove_change (record entity { change = change })

  unfoldable pub trove_change :
      Change
      → TroveOperation
      → TroveEntity
      → num.BigDecimal
      → num.BigDecimal
      → num.BigDecimal
      → TroveChangeEntity
  trove_change change operation trove new_collateral new_debt price = record {
    change = change;
    trove = trove.owner;
    operation = operation;
    collateral_before = trove.collateral;
    collateral_change = num.decimal_minus new_collateral trove.collateral;
    collateral_after = new_collateral;
    debt_before = trove.debt;
    debt_change = num.decimal_minus new_debt trove.debt;
    debt_after = new_debt;
    collateral_ratio_before = calculate_collateral_ratio trove.collateral trove.debt price;
    collateral_ratio_after = calculate_collateral_ratio new_collateral new_debt price;
    borrowing_fee = none;
    liquidation = none;
    redemption = none;
  }

  unfoldable pub link_liquidation : Event → TroveChangeEntity → Handler TroveChangeEntity
  link_liquidation event entity =
      if is_liquidation entity.operation
      then (do
        liquidation ← get_current_liquidation event
        pure (record entity { liquidation = some liquidation.sequence_number }))
      else pure entity

  unfoldable pub link_redemption : Event → TroveChangeEntity → Handler TroveChangeEntity
  link_redemption event entity =
      if is_redemption entity.operation
      then (do
        redemption ← get_current_redemption event
        pure (record entity { redemption = some redemption.sequence_number }))
      else pure entity

  unfoldable pub raw_trove : Global → num.BigInt → num.BigInt → num.BigInt → RawTrove
  raw_trove global coll debt stake =
      if not (num.int_eq stake bigint_zero)
      then record {
        raw_collateral = coll;
        raw_debt = debt;
        raw_stake = stake;
        raw_snapshot_of_total_redistributed_collateral = global.raw_total_redistributed_collateral;
        raw_snapshot_of_total_redistributed_debt = global.raw_total_redistributed_debt;
        collateral_ratio_sort_key = some (
            num.ints.minus (num.int_div (num.int_times debt bigint_scaling_factor) stake)
              global.raw_total_redistributed_debt);
      }
      else record {
        raw_collateral = coll;
        raw_debt = debt;
        raw_stake = stake;
        raw_snapshot_of_total_redistributed_collateral = bigint_zero;
        raw_snapshot_of_total_redistributed_debt = bigint_zero;
        collateral_ratio_sort_key = none;
      }

  unfoldable pub status_after : TroveOperation → num.BigInt → TroveStatus
  status_after operation coll =
      if num.int_eq coll bigint_zero
      then (if is_liquidation operation
          then closed_by_liquidation
          else if is_redemption operation
          then closed_by_redemption
          else closed_by_owner)
      else is_open

  unfoldable pub save_trove : TroveEntity → Handler (Unit {0})
  save_trove trove = saves λ s. record s { troves = save s.troves trove.owner trove }

  unfoldable pub apply_trove_update :
      Event
      → TroveOperation
      → Global
      → TroveEntity
      → num.BigInt
      → num.BigInt
      → num.BigInt
      → Handler (Unit {0})
  apply_trove_update event operation global trove coll debt stake = do
    change ← create_change event
    price ← get_current_price
    let entity = trove_change change operation trove (decimalize coll) (decimalize debt) price
    liquidated ← link_liquidation event entity
    linked ← link_redemption event liquidated
    update_system_state_by_trove_change linked
    finish_trove_change linked
    updated ←
        set_trove_status
          (record trove {
            collateral = decimalize coll;
            debt = decimalize debt;
            raw = some (raw_trove global coll debt stake);
          })
          (status_after operation coll)
    save_trove updated

  unfoldable pub update_trove :
      Event → TroveOperation → ℕ → num.BigInt → num.BigInt → num.BigInt → Handler (Unit {0})
  update_trove event operation borrower coll debt stake = do
    global ← get_global
    trove ← get_trove borrower
    if num.decimal_eq (decimalize coll) trove.collateral
          && num.decimal_eq (decimalize debt) trove.debt
        then pure tt
        else apply_trove_update event operation global trove coll debt stake

  unfoldable pub set_borrowing_fee_of_last_trove_change : num.BigInt → Handler (Unit {0})
  set_borrowing_fee_of_last_trove_change fee = do
    last_change ← get_last_change_sequence_number
    loaded ← reads λ s. load s.trove_changes last_change
    last_trove_change ← value_or_fail loaded
    save_trove_change (record last_trove_change { borrowing_fee = some (decimalize fee) })

  -- What a redistribution has added since the snapshot.
  unfoldable pub redistributed : num.BigInt → num.BigInt → num.BigInt → num.BigInt
  redistributed total snapshot stake =
      num.int_div (num.int_times (num.ints.minus total snapshot) stake) bigint_scaling_factor

  -- A trove that has never been updated has no raw fields, and reading one traps.
  unfoldable pub apply_redistribution_to_trove_before_liquidation : Event → ℕ → Handler (Unit {0})
  apply_redistribution_to_trove_before_liquidation event borrower = do
    global ← get_global
    trove ← get_trove borrower
    raw ← value_or_fail trove.raw
    update_trove event accrue_rewards borrower
        (num.ints.plus raw.raw_collateral (
          redistributed global.raw_total_redistributed_collateral
            raw.raw_snapshot_of_total_redistributed_collateral raw.raw_stake))
        (num.ints.plus raw.raw_debt (
          redistributed global.raw_total_redistributed_debt
            raw.raw_snapshot_of_total_redistributed_debt raw.raw_stake))
        bigint_zero
