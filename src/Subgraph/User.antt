-- ===== src/Subgraph/User.antt =====
-- packages/subgraph/src/entities/User.ts, Liquidation.ts, Redemption.ts and Frontend.ts.
use stablecoin_sdk.Base.{ℕ, false, Option, none, some, if◌then◌else◌}
use stablecoin_sdk.Subgraph.Numbers.{GraphNumbers, decimalize, decimal_zero}
use stablecoin_sdk.Subgraph.Dict.{load, save, number_key}
use stablecoin_sdk.Subgraph.Entities.{
  Change, Event, User, CollSurplusChange, LiquidationEntity, RedemptionEntity, FrontendEntity,
}
use stablecoin_sdk.Subgraph.Handler.{Handler, pure, ◌>>=◌, ◌>>◌, reads, saves}
use stablecoin_sdk.Subgraph.Global.{
  get_global, change_global, get_liquidation_sequence_number, get_redemption_sequence_number,
}
use stablecoin_sdk.Subgraph.SystemState.{
  or_create, load_current, update_system_state_by_coll_surplus_change,
}
use stablecoin_sdk.Subgraph.Change.{create_change, finish_change, get_transaction}

module _ ⦃num : GraphNumbers⦄ where
  unfoldable pub save_user : ℕ → User → Handler (Unit {0})
  save_user id user = saves λ s. record s { users = save s.users id user }

  abbrev pub new_user : User
  new_user = record {
    trove = none;
    stability_deposit = none;
    stake = none;
    frontend = none;
    coll_surplus = decimal_zero;
  }

  unfoldable pub get_user : ℕ → Handler User
  get_user address = do
    user ← reads λ s. load s.users address
    or_create (do save_user address new_user; pure new_user) user

  unfoldable pub finish_coll_surplus_change : CollSurplusChange → Handler (Unit {0})
  finish_coll_surplus_change entity = do
    change ← finish_change entity.change
    saves λ s. record s {
      coll_surplus_changes =
          save s.coll_surplus_changes change.sequence_number (record entity { change = change });
    }

  abbrev pub coll_surplus_change_of : Change → ℕ → User → num.BigDecimal → CollSurplusChange
  coll_surplus_change_of change borrower user new_coll_surplus = record {
    change = change;
    user = borrower;
    coll_surplus_before = user.coll_surplus;
    coll_surplus_change = num.decimal_minus new_coll_surplus user.coll_surplus;
    coll_surplus_after = new_coll_surplus;
  }

  unfoldable pub record_coll_surplus : Event → ℕ → User → num.BigDecimal → Handler (Unit {0})
  record_coll_surplus event borrower user new_coll_surplus = do
    change ← create_change event
    let entity = coll_surplus_change_of change borrower user new_coll_surplus
    update_system_state_by_coll_surplus_change entity
    finish_coll_surplus_change entity
    save_user borrower (record user { coll_surplus = new_coll_surplus })

  unfoldable pub update_user_claim_coll : Event → ℕ → num.BigInt → Handler (Unit {0})
  update_user_claim_coll event borrower coll_surplus = do
    user ← get_user borrower
    if num.decimal_eq (decimalize coll_surplus) user.coll_surplus
        then pure tt
        else record_coll_surplus event borrower user (decimalize coll_surplus)

  unfoldable pub save_liquidation : LiquidationEntity → Handler (Unit {0})
  save_liquidation liquidation =
      saves
        λ s. record s { liquidations = save s.liquidations liquidation.sequence_number liquidation }

  unfoldable pub create_liquidation : Event → Handler LiquidationEntity
  create_liquidation event = do
    sequence_number ← get_liquidation_sequence_number
    get_transaction event
    get_user event.transaction_from
    let liquidation : LiquidationEntity = record {
      sequence_number = sequence_number;
      transaction = event.transaction_hash;
      liquidator = event.transaction_from;
      liquidated_collateral = decimal_zero;
      liquidated_debt = decimal_zero;
      coll_gas_compensation = decimal_zero;
      token_gas_compensation = decimal_zero;
    }
    save_liquidation liquidation
    change_global (λ g. record g { current_liquidation = some sequence_number })
    pure liquidation

  unfoldable pub get_current_liquidation : Event → Handler LiquidationEntity
  get_current_liquidation event = do
    global ← get_global
    liquidation ← reads λ s. load_current s.liquidations global.current_liquidation
    or_create (create_liquidation event) liquidation

  unfoldable pub finish_current_liquidation :
      Event → num.BigInt → num.BigInt → num.BigInt → num.BigInt → Handler (Unit {0})
  finish_current_liquidation event coll debt coll_compensation debt_compensation = do
    liquidation ← get_current_liquidation event
    save_liquidation (record liquidation {
      liquidated_collateral = decimalize coll;
      liquidated_debt = decimalize debt;
      coll_gas_compensation = decimalize coll_compensation;
      token_gas_compensation = decimalize debt_compensation;
    })
    change_global (λ g. record g { current_liquidation = none })

  unfoldable pub save_redemption : RedemptionEntity → Handler (Unit {0})
  save_redemption redemption =
      saves λ s. record s { redemptions = save s.redemptions redemption.sequence_number redemption }

  unfoldable pub create_redemption : Event → Handler RedemptionEntity
  create_redemption event = do
    sequence_number ← get_redemption_sequence_number
    get_transaction event
    get_user event.transaction_from
    let redemption : RedemptionEntity = record {
      sequence_number = sequence_number;
      transaction = event.transaction_hash;
      redeemer = event.transaction_from;
      tokens_attempted_to_redeem = decimal_zero;
      tokens_actually_redeemed = decimal_zero;
      collateral_redeemed = decimal_zero;
      partial_redemption = false;
      fee = decimal_zero;
    }
    save_redemption redemption
    change_global (λ g. record g { current_redemption = some sequence_number })
    pure redemption

  unfoldable pub get_current_redemption : Event → Handler RedemptionEntity
  get_current_redemption event = do
    global ← get_global
    redemption ← reads λ s. load_current s.redemptions global.current_redemption
    or_create (create_redemption event) redemption

  unfoldable pub finish_current_redemption :
      Event → num.BigInt → num.BigInt → num.BigInt → num.BigInt → Handler (Unit {0})
  finish_current_redemption event attempted actual fil_sent fil_fee = do
    redemption ← get_current_redemption event
    save_redemption (record redemption {
      tokens_attempted_to_redeem = decimalize attempted;
      tokens_actually_redeemed = decimalize actual;
      collateral_redeemed = decimalize fil_sent;
      partial_redemption = num.int_lt actual attempted;
      fee = decimalize fil_fee;
    })
    change_global λ g. record g {
      current_redemption = none;
      total_redemption_fees_paid =
          num.decimal_plus g.total_redemption_fees_paid (decimalize fil_fee);
    }

  unfoldable pub register_frontend : ℕ → num.BigInt → Handler (Unit {0})
  register_frontend owner kickback_rate = do
    get_user owner
    saves λ s. record s {
      frontends =
          save s.frontends owner
            (record { owner = owner; kickback_rate = decimalize kickback_rate });
    }

  abbrev pub assign_if_registered : ℕ → ℕ → Option FrontendEntity → Handler (Unit {0})
  assign_if_registered depositor frontend none = pure tt
  assign_if_registered depositor frontend (some _) = do
    user ← get_user depositor
    save_user depositor (record user { frontend = some frontend })

  unfoldable pub assign_frontend_to_depositor : ℕ → ℕ → Handler (Unit {0})
  assign_frontend_to_depositor depositor frontend = do
    registered ← reads λ s. load s.frontends frontend
    assign_if_registered depositor frontend registered
