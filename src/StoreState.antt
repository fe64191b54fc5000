-- ===== src/StoreState.antt =====
-- The state of `SfStablecoinStore` of packages/lib-base/src/SfStablecoinStore.ts: the variables read from
-- the blockchain, their updates, and the variables derived from them. Values stand without their
-- identity as objects, and the messages that `_updateIfChanged` logs are left out.
pub mod Reduce
use Prim.Native.String.{String}
use text.Mathlib.Text.{◌==◌ as str_eq}
use stablecoin_sdk.Base.{ℕ, Bool, true, false, ◌&&◌, ◌==◌, Option, none, some, if◌then◌else◌}
use stablecoin_sdk.Base.Result.{Result, ok, err, ◌>>=◌}
use stablecoin_sdk.BigNumber.{BigNumber}
use stablecoin_sdk.Decimal.{Decimal, zero_decimal, eq}
use stablecoin_sdk.Deposit.{StabilityDeposit, equals_deposit}
use stablecoin_sdk.Stake.{ProtocolTokenStake, equals_stake}
use stablecoin_sdk.Fees.{
  Fees, bool_eq, equals_fees, set_recovery_mode, borrowing_rate, redemption_rate,
}
use stablecoin_sdk.Trove.{
  Trove, equals_trove, collateral_ratio_is_below_minimum, collateral_ratio_is_below_critical,
}
use stablecoin_sdk.Trove.Redistribution.{
  UserTrove, TroveWithPendingRedistribution, equals_user_trove, equals_pending,
  apply_redistribution,
}

-- `FrontendStatus` of packages/lib-base/src/ReadableProtocol.ts.
pub data FrontendStatus : Type 0 where
  unregistered : FrontendStatus
  registered : Decimal → FrontendStatus

-- `SfStablecoinStoreBaseState`.
pub record BaseState : Type 0 where
  pub frontend : FrontendStatus
  pub own_frontend : FrontendStatus
  pub number_of_troves : ℕ
  pub account_balance : Decimal
  pub debt_token_balance : Decimal
  pub protocol_token_balance : Decimal
  pub uni_token_balance : Decimal
  pub uni_token_allowance : Decimal
  pub remaining_protocol_mining_protocol_token_reward : Decimal
  pub liquidity_mining_stake : Decimal
  pub total_staked_uni_tokens : Decimal
  pub liquidity_mining_protocol_token_reward : Decimal
  pub collateral_surplus_balance : Decimal
  pub price : Decimal
  pub debt_token_in_stability_pool : Decimal
  pub total : Trove
  pub total_redistributed : Trove
  pub trove_before_redistribution : TroveWithPendingRedistribution
  pub stability_deposit : StabilityDeposit
  pub remaining_stability_pool_protocol_token_reward : Decimal
  pub fees_in_normal_mode : Fees
  pub protocol_token_stake : ProtocolTokenStake
  pub total_staked_protocol_token : Decimal
  pub riskiest_trove_before_redistribution : TroveWithPendingRedistribution
  pub debt_in_front : Decimal × String

-- `Partial<SfStablecoinStoreBaseState>`.
pub record BaseUpdate : Type 0 where
  pub frontend : Option FrontendStatus
  pub own_frontend : Option FrontendStatus
  pub number_of_troves : Option ℕ
  pub account_balance : Option Decimal
  pub debt_token_balance : Option Decimal
  pub protocol_token_balance : Option Decimal
  pub uni_token_balance : Option Decimal
  pub uni_token_allowance : Option Decimal
  pub remaining_protocol_mining_protocol_token_reward : Option Decimal
  pub liquidity_mining_stake : Option Decimal
  pub total_staked_uni_tokens : Option Decimal
  pub liquidity_mining_protocol_token_reward : Option Decimal
  pub collateral_surplus_balance : Option Decimal
  pub price : Option Decimal
  pub debt_token_in_stability_pool : Option Decimal
  pub total : Option Trove
  pub total_redistributed : Option Trove
  pub trove_before_redistribution : Option TroveWithPendingRedistribution
  pub stability_deposit : Option StabilityDeposit
  pub remaining_stability_pool_protocol_token_reward : Option Decimal
  pub fees_in_normal_mode : Option Fees
  pub protocol_token_stake : Option ProtocolTokenStake
  pub total_staked_protocol_token : Option Decimal
  pub riskiest_trove_before_redistribution : Option TroveWithPendingRedistribution
  pub debt_in_front : Option (Decimal × String)

abbrev pub no_update : BaseUpdate
no_update = record {
  frontend = none;
  own_frontend = none;
  number_of_troves = none;
  account_balance = none;
  debt_token_balance = none;
  protocol_token_balance = none;
  uni_token_balance = none;
  uni_token_allowance = none;
  remaining_protocol_mining_protocol_token_reward = none;
  liquidity_mining_stake = none;
  total_staked_uni_tokens = none;
  liquidity_mining_protocol_token_reward = none;
  collateral_surplus_balance = none;
  price = none;
  debt_token_in_stability_pool = none;
  total = none;
  total_redistributed = none;
  trove_before_redistribution = none;
  stability_deposit = none;
  remaining_stability_pool_protocol_token_reward = none;
  fees_in_normal_mode = none;
  protocol_token_stake = none;
  total_staked_protocol_token = none;
  riskiest_trove_before_redistribution = none;
  debt_in_front = none;
}

-- `SfStablecoinStoreDerivedState`.
pub record DerivedState : Type 0 where
  pub user_trove : UserTrove
  pub fees : Fees
  pub current_borrowing_rate : Decimal
  pub current_redemption_rate : Decimal
  pub have_undercollateralized_troves : Bool

-- `_updateIfChanged` and `_silentlyUpdateIfChanged`.
unfoldable pub update_if_changed {ℓ} : {U : Type ℓ} → (U → U → Bool) → U → Option U → U
update_if_changed equals prev none = prev
update_if_changed equals prev (some next) = if equals prev next then prev else next

module _ ⦃bn : BigNumber⦄ where
  unfoldable pub frontend_status_equals : FrontendStatus → FrontendStatus → Bool
  frontend_status_equals unregistered unregistered = true
  frontend_status_equals unregistered (registered b) = false
  frontend_status_equals (registered a) unregistered = false
  frontend_status_equals (registered a) (registered b) = eq a b

  -- The comparison of `debtInFront`.
  unfoldable pub debt_in_front_equals : Decimal × String → Decimal × String → Bool
  debt_in_front_equals (a, next) (b, next') = eq a b && str_eq next next'

  -- `_updateFees`: the comparison has the new fees first.
  unfoldable pub update_fees : Fees → Option Fees → Fees
  update_fees prev none = prev
  update_fees prev (some next) = if equals_fees next prev then prev else next

  -- `_reduce`.
  unfoldable pub reduce : BaseState → BaseUpdate → BaseState
  reduce s u = record {
    frontend = update_if_changed frontend_status_equals s.frontend u.frontend;
    own_frontend = update_if_changed frontend_status_equals s.own_frontend u.own_frontend;
    number_of_troves = update_if_changed ◌==◌ s.number_of_troves u.number_of_troves;
    account_balance = update_if_changed eq s.account_balance u.account_balance;
    debt_token_balance = update_if_changed eq s.debt_token_balance u.debt_token_balance;
    protocol_token_balance = update_if_changed eq s.protocol_token_balance u.protocol_token_balance;
    uni_token_balance = update_if_changed eq s.uni_token_balance u.uni_token_balance;
    uni_token_allowance = update_if_changed eq s.uni_token_allowance u.uni_token_allowance;
    remaining_protocol_mining_protocol_token_reward =
        update_if_changed eq s.remaining_protocol_mining_protocol_token_reward
          u.remaining_protocol_mining_protocol_token_reward;
    liquidity_mining_stake = update_if_changed eq s.liquidity_mining_stake u.liquidity_mining_stake;
    total_staked_uni_tokens =
        update_if_changed eq s.total_staked_uni_tokens u.total_staked_uni_tokens;
    liquidity_mining_protocol_token_reward =
        update_if_changed eq s.liquidity_mining_protocol_token_reward
          u.liquidity_mining_protocol_token_reward;
    collateral_surplus_balance =
        update_if_changed eq s.collateral_surplus_balance u.collateral_surplus_balance;
    price = update_if_changed eq s.price u.price;
    debt_token_in_stability_pool =
        update_if_changed eq s.debt_token_in_stability_pool u.debt_token_in_stability_pool;
    total = update_if_changed equals_trove s.total u.total;
    total_redistributed =
        update_if_changed equals_trove s.total_redistributed u.total_redistributed;
    trove_before_redistribution =
        update_if_changed equals_pending s.trove_before_redistribution
          u.trove_before_redistribution;
    stability_deposit = update_if_changed equals_deposit s.stability_deposit u.stability_deposit;
    remaining_stability_pool_protocol_token_reward =
        update_if_changed eq s.remaining_stability_pool_protocol_token_reward
          u.remaining_stability_pool_protocol_token_reward;
    fees_in_normal_mode = update_if_changed equals_fees s.fees_in_normal_mode u.fees_in_normal_mode;
    protocol_token_stake =
        update_if_changed equals_stake s.protocol_token_stake u.protocol_token_stake;
    total_staked_protocol_token =
        update_if_changed eq s.total_staked_protocol_token u.total_staked_protocol_token;
    riskiest_trove_before_redistribution =
        update_if_changed equals_pending s.riskiest_trove_before_redistribution
          u.riskiest_trove_before_redistribution;
    debt_in_front = update_if_changed debt_in_front_equals s.debt_in_front u.debt_in_front;
  }

  -- `_derive`.
  unfoldable pub derive : BaseState → Result DerivedState
  derive s = do
    fees ←
        set_recovery_mode s.fees_in_normal_mode (collateral_ratio_is_below_critical s.total s.price)
    user_trove ← apply_redistribution s.trove_before_redistribution s.total_redistributed
    borrowing ← borrowing_rate fees none
    redemption ← redemption_rate fees zero_decimal none
    riskiest ← apply_redistribution s.riskiest_trove_before_redistribution s.total_redistributed
    ok (record {
      user_trove = user_trove;
      fees = fees;
      current_borrowing_rate = borrowing;
      current_redemption_rate = redemption;
      have_undercollateralized_troves = collateral_ratio_is_below_minimum riskiest.base s.price;
    })

  -- `_reduceDerived`.
  unfoldable pub reduce_derived : DerivedState → DerivedState → DerivedState
  reduce_derived s u = record {
    user_trove = update_if_changed equals_user_trove s.user_trove (some u.user_trove);
    fees = update_fees s.fees (some u.fees);
    current_borrowing_rate =
        update_if_changed eq s.current_borrowing_rate (some u.current_borrowing_rate);
    current_redemption_rate =
        update_if_changed eq s.current_redemption_rate (some u.current_redemption_rate);
    have_undercollateralized_troves =
        update_if_changed bool_eq s.have_undercollateralized_troves
          (some u.have_undercollateralized_troves);
  }
