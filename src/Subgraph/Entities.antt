-- ===== src/Subgraph/Entities.antt =====
-- The entities of packages/subgraph/schema.graphql, the store of them, and the events' common part. An
-- address stands as its number, and so does an id that is the text of an address or of a sequence number;
-- an id that joins two texts is their pair. An `i32` is a number below 2 ^ 32. Lists that are derived
-- from other entities are left out.
use Prim.Native.String.{String}
use stablecoin_sdk.Base.{ℕ, Bool, Option, none, []}
use stablecoin_sdk.Subgraph.Numbers.{GraphNumbers}
use stablecoin_sdk.Subgraph.Dict.{Dict}

-- The texts of `TroveOperation` and of the return statement that is never reached.
pub data TroveOperation : Type 0 where
  open_trove close_trove adjust_trove accrue_rewards : TroveOperation
  liquidate_in_normal_mode liquidate_in_recovery_mode redeem_collateral unreached : TroveOperation

pub data TroveStatus : Type 0 where
  is_open closed_by_owner closed_by_liquidation closed_by_redemption : TroveStatus

pub data DepositOperation : Type 0 where
  deposit_tokens withdraw_tokens withdraw_collateral_gain : DepositOperation

pub data StakeOperation : Type 0 where
  stake_created stake_increased stake_decreased stake_removed gains_withdrawn : StakeOperation

pub record Transaction : Type 0 where
  pub sequence_number : ℕ
  pub block_number : ℕ
  pub timestamp : ℕ

-- The fields of the interface `Change`; the last one has no value before `finishChange`.
pub record Change : Type 0 where
  pub sequence_number : ℕ
  pub transaction : ℕ
  pub system_state_before : ℕ
  pub system_state_after : Option ℕ

module _ ⦃num : GraphNumbers⦄ where
  -- What the handlers use of `ethereum.Event`: `address` is the contract that emitted it.
  pub record Event : Type 0 where
    pub address : ℕ
    pub transaction_hash : ℕ
    pub transaction_from : ℕ
    pub block_number : num.BigInt
    pub block_timestamp : num.BigInt

  pub record Global : Type 0 where
    pub system_state_count : ℕ
    pub transaction_count : ℕ
    pub change_count : ℕ
    pub liquidation_count : ℕ
    pub redemption_count : ℕ
    pub number_of_open_troves : ℕ
    pub number_of_liquidated_troves : ℕ
    pub number_of_redeemed_troves : ℕ
    pub number_of_troves_closed_by_owner : ℕ
    pub total_number_of_troves : ℕ
    pub total_number_of_protocol_token_stakes : ℕ
    pub number_of_active_protocol_token_stakes : ℕ
    pub total_borrowing_fees_paid : num.BigDecimal
    pub total_redemption_fees_paid : num.BigDecimal
    pub raw_total_redistributed_collateral : num.BigInt
    pub raw_total_redistributed_debt : num.BigInt
    pub current_system_state : Option ℕ
    pub current_liquidation : Option ℕ
    pub current_redemption : Option ℕ
    pub tmp_deposit_update : Option num.BigInt

  pub record SystemState : Type 0 where
    pub sequence_number : ℕ
    pub price : Option num.BigDecimal
    pub total_collateral : num.BigDecimal
    pub total_debt : num.BigDecimal
    pub total_collateral_ratio : Option num.BigDecimal
    pub tokens_in_stability_pool : num.BigDecimal
    pub coll_surplus_pool_balance : num.BigDecimal
    pub total_protocol_tokens_staked : num.BigDecimal

  pub record User : Type 0 where
    pub trove : Option ℕ
    pub stability_deposit : Option ℕ
    pub stake : Option ℕ
    pub frontend : Option ℕ
    pub coll_surplus : num.BigDecimal

  -- The fields that a new trove has no value of yet.
  pub record RawTrove : Type 0 where
    pub raw_collateral : num.BigInt
    pub raw_debt : num.BigInt
    pub raw_stake : num.BigInt
    pub raw_snapshot_of_total_redistributed_collateral : num.BigInt
    pub raw_snapshot_of_total_redistributed_debt : num.BigInt
    pub collateral_ratio_sort_key : Option num.BigInt

  pub record TroveEntity : Type 0 where
    pub owner : ℕ
    pub status : TroveStatus
    pub collateral : num.BigDecimal
    pub debt : num.BigDecimal
    pub raw : Option RawTrove

  pub record TroveChangeEntity : Type 0 where
    pub change : Change
    pub trove : ℕ
    pub operation : TroveOperation
    pub collateral_before : num.BigDecimal
    pub collateral_change : num.BigDecimal
    pub collateral_after : num.BigDecimal
    pub debt_before : num.BigDecimal
    pub debt_change : num.BigDecimal
    pub debt_after : num.BigDecimal
    pub collateral_ratio_before : Option num.BigDecimal
    pub collateral_ratio_after : Option num.BigDecimal
    pub borrowing_fee : Option num.BigDecimal
    pub liquidation : Option ℕ
    pub redemption : Option ℕ

  pub record DepositEntity : Type 0 where
    pub owner : ℕ
    pub deposited_amount : num.BigDecimal
    pub frontend : Option ℕ

  pub record DepositChangeEntity : Type 0 where
    pub change : Change
    pub stability_deposit : ℕ
    pub operation : DepositOperation
    pub deposited_amount_before : num.BigDecimal
    pub deposited_amount_change : num.BigDecimal
    pub deposited_amount_after : num.BigDecimal
    pub collateral_gain : Option num.BigDecimal

  pub record PriceChange : Type 0 where
    pub change : Change
    pub price_change : num.BigDecimal

  pub record CollSurplusChange : Type 0 where
    pub change : Change
    pub user : ℕ
    pub coll_surplus_before : num.BigDecimal
    pub coll_surplus_change : num.BigDecimal
    pub coll_surplus_after : num.BigDecimal

  pub record StakeEntity : Type 0 where
    pub owner : ℕ
    pub amount : num.BigDecimal

  pub record StakeChangeEntity : Type 0 where
    pub change : Change
    pub stake : ℕ
    pub operation : StakeOperation
    pub staked_amount_before : num.BigDecimal
    pub staked_amount_change : num.BigDecimal
    pub staked_amount_after : num.BigDecimal
    pub issuance_gain : num.BigDecimal
    pub redemption_gain : num.BigDecimal

  pub record LiquidationEntity : Type 0 where
    pub sequence_number : ℕ
    pub transaction : ℕ
    pub liquidator : ℕ
    pub liquidated_collateral : num.BigDecimal
    pub liquidated_debt : num.BigDecimal
    pub coll_gas_compensation : num.BigDecimal
    pub token_gas_compensation : num.BigDecimal

  pub record RedemptionEntity : Type 0 where
    pub sequence_number : ℕ
    pub transaction : ℕ
    pub redeemer : ℕ
    pub tokens_attempted_to_redeem : num.BigDecimal
    pub tokens_actually_redeemed : num.BigDecimal
    pub collateral_redeemed : num.BigDecimal
    pub partial_redemption : Bool
    pub fee : num.BigDecimal

  pub record TokenEntity : Type 0 where
    pub name : String
    pub symbol : String
    pub total_supply : num.BigInt

  pub record TokenBalance : Type 0 where
    pub token : ℕ
    pub owner : ℕ
    pub balance : num.BigInt

  pub record TokenAllowance : Type 0 where
    pub token : ℕ
    pub owner : ℕ
    pub spender : ℕ
    pub value : num.BigInt

  pub record FrontendEntity : Type 0 where
    pub owner : ℕ
    pub kickback_rate : num.BigDecimal

  -- The changes have their ids in common.
  pub record EntityStore : Type 0 where
    pub global : Option Global
    pub system_states : Dict ℕ SystemState
    pub transactions : Dict ℕ Transaction
    pub users : Dict ℕ User
    pub troves : Dict ℕ TroveEntity
    pub trove_changes : Dict ℕ TroveChangeEntity
    pub stability_deposits : Dict ℕ DepositEntity
    pub stability_deposit_changes : Dict ℕ DepositChangeEntity
    pub price_changes : Dict ℕ PriceChange
    pub coll_surplus_changes : Dict ℕ CollSurplusChange
    pub protocol_token_stakes : Dict ℕ StakeEntity
    pub protocol_token_stake_changes : Dict ℕ StakeChangeEntity
    pub liquidations : Dict ℕ LiquidationEntity
    pub redemptions : Dict ℕ RedemptionEntity
    pub tokens : Dict ℕ TokenEntity
    pub token_balances : Dict (ℕ × ℕ) TokenBalance
    pub token_allowances : Dict (ℕ × ℕ × ℕ) TokenAllowance
    pub frontends : Dict ℕ FrontendEntity

  abbrev pub empty_store : EntityStore
  empty_store = record {
    global = none;
    system_states = [];
    transactions = [];
    users = [];
    troves = [];
    trove_changes = [];
    stability_deposits = [];
    stability_deposit_changes = [];
    price_changes = [];
    coll_surplus_changes = [];
    protocol_token_stakes = [];
    protocol_token_stake_changes = [];
    liquidations = [];
    redemptions = [];
    tokens = [];
    token_balances = [];
    token_allowances = [];
    frontends = [];
  }
