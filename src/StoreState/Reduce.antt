-- ===== src/StoreState/Reduce.antt =====
-- `_reduce` and `_reduceDerived` compute what their names say: the new values where there are any.
use Prim.Native.String.{String}
use text.Mathlib.TextEquality.{eq_iff as str_eq_iff}
use stablecoin_sdk.Base.{
  ◌≡◌, ◌↔◌, refl, sym, Bool, true, ◌==◌, ==_iff, Option, none, some, Bool-cases, inl, inr, arith,
}
use stablecoin_sdk.BigNumber.{BigNumber}
use stablecoin_sdk.Decimal.{Decimal, eq}
use stablecoin_sdk.Decimal.Values.{eq-eq}
use stablecoin_sdk.Deposit.{equals_deposit}
use stablecoin_sdk.Deposit.Laws.{equals_deposit_iff}
use stablecoin_sdk.Stake.{equals_stake}
use stablecoin_sdk.Stake.Laws.{equals_stake_iff}
use stablecoin_sdk.Fees.{Fees, bool_eq, equals_fees}
use stablecoin_sdk.Fees.Rates.{equals_fees_iff}
use stablecoin_sdk.Trove.{equals_trove}
use stablecoin_sdk.Trove.Arithmetic.{equals_trove_iff}
use stablecoin_sdk.Trove.Redistribution.{equals_pending, equals_user_trove}
use stablecoin_sdk.Trove.Redistribution.Growth.{equals_pending_iff, equals_user_trove_iff}
use stablecoin_sdk.StoreState.{
  FrontendStatus, unregistered, registered, BaseState, BaseUpdate, DerivedState, update_if_changed,
  frontend_status_equals, debt_in_front_equals, update_fees, reduce, reduce_derived,
}

-- The value of an update, or the present one.
abbrev pub new_or {ℓ} : {U : Type ℓ} → Option U → U → U
new_or none prev = prev
new_or (some next) prev = next

-- The state with every value that an update has, put in without comparing.
abbrev pub overwrite : BaseState → BaseUpdate → BaseState
overwrite s u = record {
  frontend = new_or u.frontend s.frontend;
  own_frontend = new_or u.own_frontend s.own_frontend;
  number_of_troves = new_or u.number_of_troves s.number_of_troves;
  account_balance = new_or u.account_balance s.account_balance;
  debt_token_balance = new_or u.debt_token_balance s.debt_token_balance;
  protocol_token_balance = new_or u.protocol_token_balance s.protocol_token_balance;
  uni_token_balance = new_or u.uni_token_balance s.uni_token_balance;
  uni_token_allowance = new_or u.uni_token_allowance s.uni_token_allowance;
  remaining_protocol_mining_protocol_token_reward =
      new_or u.remaining_protocol_mining_protocol_token_reward
        s.remaining_protocol_mining_protocol_token_reward;
  liquidity_mining_stake = new_or u.liquidity_mining_stake s.liquidity_mining_stake;
  total_staked_uni_tokens = new_or u.total_staked_uni_tokens s.total_staked_uni_tokens;
  liquidity_mining_protocol_token_reward =
      new_or u.liquidity_mining_protocol_token_reward s.liquidity_mining_protocol_token_reward;
  collateral_surplus_balance = new_or u.collateral_surplus_balance s.collateral_surplus_balance;
  price = new_or u.price s.price;
  debt_token_in_stability_pool =
      new_or u.debt_token_in_stability_pool s.debt_token_in_stability_pool;
  total = new_or u.total s.total;
  total_redistributed = new_or u.total_redistributed s.total_redistributed;
  trove_before_redistribution = new_or u.trove_before_redistribution s.trove_before_redistribution;
  stability_deposit = new_or u.stability_deposit s.stability_deposit;
  remaining_stability_pool_protocol_token_reward =
      new_or u.remaining_stability_pool_protocol_token_reward
        s.remaining_stability_pool_protocol_token_reward;
  fees_in_normal_mode = new_or u.fees_in_normal_mode s.fees_in_normal_mode;
  protocol_token_stake = new_or u.protocol_token_stake s.protocol_token_stake;
  total_staked_protocol_token = new_or u.total_staked_protocol_token s.total_staked_protocol_token;
  riskiest_trove_before_redistribution =
      new_or u.riskiest_trove_before_redistribution s.riskiest_trove_before_redistribution;
  debt_in_front = new_or u.debt_in_front s.debt_in_front;
}

-- Where a comparison tests equality, an update that it guards is an assignment.
update_if_changed-new_or {ℓ} :
    {U : Type ℓ} (equals : U → U → Bool)
    → ((a b : U) → (equals a b ≡ true) ↔ (a ≡ b))
    → (prev : U) (next : Option U) → update_if_changed equals prev next ≡ new_or next prev
unfolding update_if_changed
update_if_changed-new_or equals exact prev none = refl
update_if_changed-new_or equals exact prev (some next) = elim (Bool-cases (equals prev next)) [
  | inl same ↦ rw same ((exact prev next).0 same)
  | inr differ ↦ rw differ refl
]

bool_eq_iff : (a b : Bool) → (bool_eq a b ≡ true) ↔ (a ≡ b)
bool_eq_iff a b = ground arith

module _ ⦃bn : BigNumber⦄ where
  eq_iff : (a b : Decimal) → (eq a b ≡ true) ↔ (a ≡ b)
  eq_iff a b = (λ h. ground (arith, eq-eq a b), λ h. ground (arith, eq-eq a b))

  frontend_status_equals_iff :
      (a b : FrontendStatus) → (frontend_status_equals a b ≡ true) ↔ (a ≡ b)
  unfolding frontend_status_equals
  frontend_status_equals_iff unregistered unregistered = (λ _. refl, λ _. refl)
  frontend_status_equals_iff unregistered (registered b) = (λ h. cc, λ h. cc)
  frontend_status_equals_iff (registered a) unregistered = (λ h. cc, λ h. cc)
  frontend_status_equals_iff (registered a) (registered b) =
      (λ h. ground (arith, eq_iff a b), λ h. ground (arith, eq_iff a b))

  debt_in_front_equals_iff : (a b : Decimal × String) → (debt_in_front_equals a b ≡ true) ↔ (a ≡ b)
  unfolding debt_in_front_equals
  debt_in_front_equals_iff (a, next) (b, next') = (
    λ h. ground (arith, eq_iff a b, str_eq_iff next next'),
    λ h. ground (arith, eq_iff a b, str_eq_iff next next'),
  )

  -- `_reduce` gives the state with every value of the update put in: that it compares first, field by
  -- field, changes nothing of the values.
  pub reduce-overwrite : (s : BaseState) (u : BaseUpdate) → reduce s u ≡ overwrite s u
  unfolding reduce
  reduce-overwrite s u i = record {
    frontend =
        update_if_changed-new_or frontend_status_equals frontend_status_equals_iff s.frontend
          u.frontend i;
    own_frontend =
        update_if_changed-new_or frontend_status_equals frontend_status_equals_iff s.own_frontend
          u.own_frontend i;
    number_of_troves = update_if_changed-new_or ◌==◌ ==_iff s.number_of_troves u.number_of_troves i;
    account_balance = update_if_changed-new_or eq eq_iff s.account_balance u.account_balance i;
    debt_token_balance =
        update_if_changed-new_or eq eq_iff s.debt_token_balance u.debt_token_balance i;
    protocol_token_balance =
        update_if_changed-new_or eq eq_iff s.protocol_token_balance u.protocol_token_balance i;
    uni_token_balance =
        update_if_changed-new_or eq eq_iff s.uni_token_balance u.uni_token_balance i;
    uni_token_allowance =
        update_if_changed-new_or eq eq_iff s.uni_token_allowance u.uni_token_allowance i;
    remaining_protocol_mining_protocol_token_reward =
        update_if_changed-new_or eq eq_iff s.remaining_protocol_mining_protocol_token_reward
          u.remaining_protocol_mining_protocol_token_reward i;
    liquidity_mining_stake =
        update_if_changed-new_or eq eq_iff s.liquidity_mining_stake u.liquidity_mining_stake i;
    total_staked_uni_tokens =
        update_if_changed-new_or eq eq_iff s.total_staked_uni_tokens u.total_staked_uni_tokens i;
    liquidity_mining_protocol_token_reward =
        update_if_changed-new_or eq eq_iff s.liquidity_mining_protocol_token_reward
          u.liquidity_mining_protocol_token_reward i;
    collateral_surplus_balance =
        update_if_changed-new_or eq eq_iff s.collateral_surplus_balance u.collateral_surplus_balance
          i;
    price = update_if_changed-new_or eq eq_iff s.price u.price i;
    debt_token_in_stability_pool =
        update_if_changed-new_or eq eq_iff s.debt_token_in_stability_pool
          u.debt_token_in_stability_pool i;
    total = update_if_changed-new_or equals_trove equals_trove_iff s.total u.total i;
    total_redistributed =
        update_if_changed-new_or equals_trove equals_trove_iff s.total_redistributed
          u.total_redistributed i;
    trove_before_redistribution =
        update_if_changed-new_or equals_pending equals_pending_iff s.trove_before_redistribution
          u.trove_before_redistribution i;
    stability_deposit =
        update_if_changed-new_or equals_deposit equals_deposit_iff s.stability_deposit
          u.stability_deposit i;
    remaining_stability_pool_protocol_token_reward =
        update_if_changed-new_or eq eq_iff s.remaining_stability_pool_protocol_token_reward
          u.remaining_stability_pool_protocol_token_reward i;
    fees_in_normal_mode =
        update_if_changed-new_or equals_fees equals_fees_iff s.fees_in_normal_mode
          u.fees_in_normal_mode i;
    protocol_token_stake =
        update_if_changed-new_or equals_stake equals_stake_iff s.protocol_token_stake
          u.protocol_token_stake i;
    total_staked_protocol_token =
        update_if_changed-new_or eq eq_iff s.total_staked_protocol_token
          u.total_staked_protocol_token i;
    riskiest_trove_before_redistribution =
        update_if_changed-new_or equals_pending equals_pending_iff
          s.riskiest_trove_before_redistribution u.riskiest_trove_before_redistribution i;
    debt_in_front =
        update_if_changed-new_or debt_in_front_equals debt_in_front_equals_iff s.debt_in_front
          u.debt_in_front i;
  }

  update_fees-new_or : (prev next : Fees) → update_fees prev (some next) ≡ next
  unfolding update_fees
  update_fees-new_or prev next = elim (Bool-cases (equals_fees next prev)) [
    | inl same ↦ rw same (sym ((equals_fees_iff next prev).0 same))
    | inr differ ↦ rw differ refl
  ]

  -- `_reduceDerived` gives the newly derived state, whatever the old one was.
  pub reduce_derived-new : (s u : DerivedState) → reduce_derived s u ≡ u
  unfolding reduce_derived
  reduce_derived-new s u i = record {
    user_trove =
        update_if_changed-new_or equals_user_trove equals_user_trove_iff s.user_trove
          (some u.user_trove) i;
    fees = update_fees-new_or s.fees u.fees i;
    current_borrowing_rate =
        update_if_changed-new_or eq eq_iff s.current_borrowing_rate (some u.current_borrowing_rate)
          i;
    current_redemption_rate =
        update_if_changed-new_or eq eq_iff s.current_redemption_rate
          (some u.current_redemption_rate) i;
    have_undercollateralized_troves =
        update_if_changed-new_or bool_eq bool_eq_iff s.have_undercollateralized_troves
          (some u.have_undercollateralized_troves) i;
  }
