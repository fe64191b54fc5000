-- ===== src/Tests/Graph.antt =====
-- Runs of the subgraph's handlers, with integers and decimals of 18 digits.
use stablecoin_sdk.Subgraph.Unpriced.{
  HasNoPrice, is_same_trove, trove_or_new, unpriced_update_fails,
}
use stablecoin_sdk.Subgraph.Staked.{stake_changed_sets}
use stablecoin_sdk.Subgraph.Payment.{payment_moves, held_by}
use stablecoin_sdk.Subgraph.Totality.{IsNameless, transfer-none_iff, borrowing_fee-none_iff}
use stablecoin_sdk.Subgraph.WellFormed.{IsWellFormed, sum_of_balances, supply_of, IsCounted}
use stablecoin_sdk.Subgraph.WellFormed.Events.{
  empty_store-IsWellFormed, balances_add_up, handled-IsWellFormed, troves_add_up,
}
use stablecoin_sdk.Subgraph.Token.{
  create_token_of_contract, Erc20, save_token, create_token, get_token, save_token_balance,
  create_token_balance, get_token_balance, increase_supply, decrease_supply, decrease_balance,
  increase_balance, update_balance, save_token_allowance, create_token_allowance,
  get_token_allowance, update_allowance,
}
use stablecoin_sdk.Subgraph.Entities.{open_trove, EntityStore, empty_store, Event}
use stablecoin_sdk.Subgraph.Mappings.{
  coll_balance_updated, user_deposit_changed, fil_gain_withdrawn, staking_gains_withdrawn,
  stake_changed, liquidation_finished, trove_updated_by_manager, trove_liquidated, l_terms_updated,
  debt_token_borrowing_fee_paid, trove_updated_by_borrower, transfer, last_good_price_updated,
  ContractEvent, index, handle, handle_debt_token_borrowing_fee_paid, swap_tmp_deposit_update,
  handle_user_deposit_changed, handle_fil_gain_withdrawn,
}
use text.Mathlib.Text.{◌==◌ as str_eq}
use Prim.Native.String.{String}
use stablecoin_sdk.Base.{
  ◌⊎◌, inl, inr, arith, ◌↔◌, ℕ, zero, suc, ◌+◌, ◌*◌, ◌/◌, ◌≡◌, refl, Bool, true, false, Option,
  none, some, ltb, ◌==◌, if◌then◌else◌, List, [], ◌∷◌, not,
}
use stablecoin_sdk.Base.Int.{ℤ, pos, negsuc}
use stablecoin_sdk.Subgraph.Numbers.{
  decrement, GraphNumbers, decimal_scaling_factor, bigint_scaling_factor, decimal_zero, decimal_one,
  gas_compensation_divisor, bigint_zero, decimalize,
}
use stablecoin_sdk.Tests.Integers.{integers}
use stablecoin_sdk.Subgraph.Dict.{number_key, load, save}
use stablecoin_sdk.Subgraph.Handler.{pure, fail, ◌>>=◌, reads, saves}
use stablecoin_sdk.Subgraph.Global.{
  global_or_new, get_global, save_global, get_system_state_sequence_number,
  get_transaction_sequence_number, get_change_sequence_number, get_last_change_sequence_number,
  get_liquidation_sequence_number, get_redemption_sequence_number, update_total_redistributed,
  increase_number_of_open_troves, increase_number_of_liquidated_troves,
  decrease_number_of_liquidated_troves, increase_number_of_redeemed_troves,
  decrease_number_of_redeemed_troves, increase_number_of_troves_closed_by_owner,
  decrease_number_of_troves_closed_by_owner, increase_total_number_of_protocol_token_stakes,
  increase_number_of_active_protocol_token_stakes, decrease_number_of_active_protocol_token_stakes,
  increase_total_borrowing_fees_paid,
}
use stablecoin_sdk.Subgraph.TroveOperation.{calculate_collateral_ratio}
use stablecoin_sdk.Subgraph.SystemState.{
  load_current, save_system_state, create_system_state, get_current_system_state, bump_system_state,
  get_current_price, try_to_offset_with_tokens_from_stability_pool, collateral_gas_compensation,
  apply_liquidation, apply_trove_change, update_system_state_by_trove_change,
  update_system_state_by_stability_deposit_change, update_system_state_by_coll_surplus_change,
  update_system_state_by_protocol_token_stake_change,
}
use stablecoin_sdk.Subgraph.Change.{
  create_transaction, get_transaction, begin_change, init_change, finish_change, create_change,
  finish_price_change, record_price_change, update_price,
}
use stablecoin_sdk.Subgraph.User.{
  save_user, get_user, finish_coll_surplus_change, record_coll_surplus, update_user_claim_coll,
  save_liquidation, create_liquidation, get_current_liquidation, finish_current_liquidation,
  save_redemption, create_redemption, get_current_redemption, finish_current_redemption,
  register_frontend, assign_frontend_to_depositor,
}
use stablecoin_sdk.Subgraph.Deposit.{
  create_stability_deposit, get_stability_deposit, save_stability_deposit,
  finish_stability_deposit_change, update_stability_deposit_by_operation, update_stability_deposit,
  withdraw_collateral_gain_from_stability_deposit,
}
use stablecoin_sdk.Subgraph.Stake.{
  finish_protocol_token_stake_change, get_user_stake, create_stake, get_operation_type, save_stake,
  apply_stake_update, update_stake, apply_gains, withdraw_stake_gains,
}
use stablecoin_sdk.Subgraph.Trove.{
  create_trove, get_trove, set_trove_status, save_trove_change, finish_trove_change, trove_change,
  link_liquidation, link_redemption, raw_trove, status_after, save_trove, apply_trove_update,
  update_trove, set_borrowing_fee_of_last_trove_change, redistributed,
  apply_redistribution_to_trove_before_liquidation,
}

abbrev signed : (ℕ → ℕ) → ℤ → ℤ
signed f (pos a) = pos (f a)
signed f (negsuc a) = integers.minus (pos 0) (pos (f (a + 1)))

abbrev size : ℤ → ℕ
size (pos a) = a
size (negsuc a) = a + 1

-- The sign of `b` for a number of the size that `f` computes.
abbrev with_sign_of : ℤ → ℤ → ℤ
with_sign_of (pos _) n = n
with_sign_of (negsuc _) n = integers.minus (pos 0) n

abbrev times_over : ℕ → ℤ → ℤ → ℤ
times_over d a b = with_sign_of b (signed (λ n. n * size b / d) a)

abbrev over_times : ℕ → ℤ → ℤ → ℤ
over_times k a b = with_sign_of b (signed (λ n. n * k / size b) a)

abbrev same_ℤ : ℤ → ℤ → Bool
same_ℤ (pos a) (pos b) = a == b
same_ℤ (pos a) (negsuc b) = false
same_ℤ (negsuc a) (pos b) = false
same_ℤ (negsuc a) (negsuc b) = a == b

abbrev less_ℤ : ℤ → ℤ → Bool
less_ℤ (pos a) (pos b) = ltb a b
less_ℤ (pos a) (negsuc b) = false
less_ℤ (negsuc a) (pos b) = true
less_ℤ (negsuc a) (negsuc b) = ltb b a

abbrev power_ℤ : ℤ → ℕ → ℤ
power_ℤ a zero = pos 1
power_ℤ a (suc n) = times_over 1 a (power_ℤ a n)

abbrev i32_of : ℤ → Option ℕ
i32_of (pos n) = if ltb n 2_147_483_648 then some n else none
i32_of (negsuc n) = none

abbrev parsed : String → ℤ
parsed text =
    if str_eq text "0"
    then pos 0
    else if str_eq text "1"
    then pos 1_000_000_000_000_000_000
    else if str_eq text "200"
    then pos 200_000_000_000_000_000_000
    else pos 1_000_000_000_000_000_000_000_000_000_000_000_000

abbrev null_less : ℤ → Option ℤ → Option Bool
null_less a none = none
null_less a (some b) = some (less_ℤ a b)

-- A decimal stands as the number of its 10 ^ -18.
instance abbrev pub graph_numbers : GraphNumbers
graph_numbers = record {
  BigInt = ℤ;
  BigDecimal = ℤ;
  ints = integers;
  decimal_plus = integers.plus;
  decimal_minus = integers.minus;
  int_from_i32 = pos;
  to_i32 = i32_of;
  int_pow = power_ℤ;
  int_times = times_over 1;
  int_div = over_times 1;
  int_eq = same_ℤ;
  int_lt = less_ℤ;
  div_decimal = λ n d. over_times 1_000_000_000_000_000_000_000_000_000_000_000_000 n d;
  decimal_from_string = parsed;
  decimal_times = times_over 1_000_000_000_000_000_000;
  decimal_div = over_times 1_000_000_000_000_000_000;
  truncate = λ a digits. a;
  decimal_eq = same_ℤ;
  decimal_lt = less_ℤ;
  decimal_le = λ a b. not (less_ℤ b a);
  nullable_lt = null_less;
  zero_int_lem = refl;
}

abbrev erc20_texts : Erc20
erc20_texts = record { name = λ _. some "Token"; symbol = λ _. some "TOK" }

abbrev event : Event
event = record {
  address = 7;
  transaction_hash = 99;
  transaction_from = 5;
  block_number = pos 12;
  block_timestamp = pos 1_600_000_000;
}

abbrev coins : ℕ → ℤ
coins n = pos (n * 1_000_000_000_000_000_000)

-- Two users mint and one pays the other, one opens a trove and is liquidated, one stakes and takes back
-- a part of it, and one has a surplus.
abbrev story : List (Event × ContractEvent)
story =
    (event, last_good_price_updated (coins 10))
    ∷ (event, transfer 0 5 (coins 90))
    ∷ (event, transfer 0 6 (coins 20))
    ∷ (event, transfer 5 6 (coins 30))
    ∷ (event, transfer 6 0 (coins 10))
    ∷ (event, trove_updated_by_borrower 0 5 (coins 4) (coins 20) (coins 4))
    ∷ (event, trove_updated_by_borrower 0 6 (coins 9) (coins 30) (coins 9))
    ∷ (event, debt_token_borrowing_fee_paid (coins 1))
    ∷ (event, l_terms_updated (coins 0) (coins 1))
    ∷ (event, trove_liquidated 5)
    ∷ (event, trove_updated_by_manager 1 5 (pos 0) (pos 0) (pos 0))
    ∷ (event, liquidation_finished (coins 4) (coins 20) (coins 0) (coins 2))
    ∷ (event, stake_changed 6 (coins 8))
    ∷ (event, stake_changed 6 (coins 3))
    ∷ (event, staking_gains_withdrawn 5 (coins 1) (coins 0))
    ∷ (event, fil_gain_withdrawn 5 (coins 0) (coins 0))
    ∷ (event, user_deposit_changed 5 (coins 15))
    ∷ (event, coll_balance_updated 6 (coins 2))
    ∷ []

abbrev store_of : Option (Unit {0} × EntityStore) → EntityStore
store_of none = empty_store
store_of (some (_, s)) = s

abbrev has_run : Option (Unit {0} × EntityStore) → Bool
has_run none = false
has_run (some _) = true

ran : (o : Option (Unit {0} × EntityStore)) → has_run o ≡ true → o ≡ some (tt, store_of o)
ran none h = absurd (cc h)
ran (some (_, s)) h = refl

abbrev story_run : Option (Unit {0} × EntityStore)
story_run = index erc20_texts story empty_store

story_runs : has_run story_run ≡ true
unfolding decimal_scaling_factor bigint_scaling_factor decimal_zero decimal_one
    gas_compensation_divisor bigint_zero decimalize load save pure fail ◌>>=◌ reads saves get_global
    save_global get_system_state_sequence_number get_transaction_sequence_number
    get_change_sequence_number get_last_change_sequence_number get_liquidation_sequence_number
    get_redemption_sequence_number update_total_redistributed increase_number_of_open_troves
    increase_number_of_liquidated_troves decrease_number_of_liquidated_troves
    increase_number_of_redeemed_troves decrease_number_of_redeemed_troves
    increase_number_of_troves_closed_by_owner decrease_number_of_troves_closed_by_owner
    increase_total_number_of_protocol_token_stakes increase_number_of_active_protocol_token_stakes
    decrease_number_of_active_protocol_token_stakes increase_total_borrowing_fees_paid
    calculate_collateral_ratio load_current save_system_state create_system_state
    get_current_system_state bump_system_state get_current_price
    try_to_offset_with_tokens_from_stability_pool collateral_gas_compensation apply_liquidation
    apply_trove_change update_system_state_by_trove_change
    update_system_state_by_stability_deposit_change update_system_state_by_coll_surplus_change
    update_system_state_by_protocol_token_stake_change create_transaction get_transaction
    begin_change init_change finish_change create_change finish_price_change record_price_change
    update_price save_user get_user finish_coll_surplus_change record_coll_surplus
    update_user_claim_coll save_liquidation create_liquidation get_current_liquidation
    finish_current_liquidation save_redemption create_redemption get_current_redemption
    finish_current_redemption register_frontend assign_frontend_to_depositor save_token create_token
    create_token_of_contract get_token save_token_balance create_token_balance get_token_balance
    increase_supply decrease_supply decrease_balance increase_balance update_balance
    save_token_allowance create_token_allowance get_token_allowance update_allowance
    create_stability_deposit get_stability_deposit save_stability_deposit
    finish_stability_deposit_change update_stability_deposit_by_operation update_stability_deposit
    withdraw_collateral_gain_from_stability_deposit finish_protocol_token_stake_change
    get_user_stake create_stake get_operation_type save_stake apply_stake_update update_stake
    apply_gains withdraw_stake_gains create_trove get_trove set_trove_status save_trove_change
    finish_trove_change trove_change link_liquidation link_redemption raw_trove status_after
    save_trove apply_trove_update update_trove set_borrowing_fee_of_last_trove_change redistributed
    apply_redistribution_to_trove_before_liquidation handle_debt_token_borrowing_fee_paid
    swap_tmp_deposit_update handle_user_deposit_changed handle_fil_gain_withdrawn handle index
story_runs = refl

abbrev story_store : EntityStore
story_store = store_of story_run

balances_add_up_example :
    sum_of_balances story_store.token_balances 7 ≡ supply_of story_store.tokens 7
balances_add_up_example = balances_add_up erc20_texts story story_store 7 (ran story_run story_runs)

troves_add_up_example : IsCounted (global_or_new story_store.global)
troves_add_up_example = troves_add_up erc20_texts story story_store (ran story_run story_runs)

abbrev staking : ContractEvent
staking = stake_changed 6 (coins 8)

abbrev staking_run : Option (Unit {0} × EntityStore)
staking_run = handle erc20_texts event staking empty_store

staking_runs : has_run staking_run ≡ true
unfolding decimal_scaling_factor bigint_scaling_factor decimal_zero decimal_one
    gas_compensation_divisor bigint_zero decimalize load save pure fail ◌>>=◌ reads saves get_global
    save_global get_system_state_sequence_number get_transaction_sequence_number
    get_change_sequence_number get_last_change_sequence_number get_liquidation_sequence_number
    get_redemption_sequence_number update_total_redistributed increase_number_of_open_troves
    increase_number_of_liquidated_troves decrease_number_of_liquidated_troves
    increase_number_of_redeemed_troves decrease_number_of_redeemed_troves
    increase_number_of_troves_closed_by_owner decrease_number_of_troves_closed_by_owner
    increase_total_number_of_protocol_token_stakes increase_number_of_active_protocol_token_stakes
    decrease_number_of_active_protocol_token_stakes increase_total_borrowing_fees_paid
    calculate_collateral_ratio load_current save_system_state create_system_state
    get_current_system_state bump_system_state get_current_price
    try_to_offset_with_tokens_from_stability_pool collateral_gas_compensation apply_liquidation
    apply_trove_change update_system_state_by_trove_change
    update_system_state_by_stability_deposit_change update_system_state_by_coll_surplus_change
    update_system_state_by_protocol_token_stake_change create_transaction get_transaction
    begin_change init_change finish_change create_change finish_price_change record_price_change
    update_price save_user get_user finish_coll_surplus_change record_coll_surplus
    update_user_claim_coll save_liquidation create_liquidation get_current_liquidation
    finish_current_liquidation save_redemption create_redemption get_current_redemption
    finish_current_redemption register_frontend assign_frontend_to_depositor save_token create_token
    create_token_of_contract get_token save_token_balance create_token_balance get_token_balance
    increase_supply decrease_supply decrease_balance increase_balance update_balance
    save_token_allowance create_token_allowance get_token_allowance update_allowance
    create_stability_deposit get_stability_deposit save_stability_deposit
    finish_stability_deposit_change update_stability_deposit_by_operation update_stability_deposit
    withdraw_collateral_gain_from_stability_deposit finish_protocol_token_stake_change
    get_user_stake create_stake get_operation_type save_stake apply_stake_update update_stake
    apply_gains withdraw_stake_gains create_trove get_trove set_trove_status save_trove_change
    finish_trove_change trove_change link_liquidation link_redemption raw_trove status_after
    save_trove apply_trove_update update_trove set_borrowing_fee_of_last_trove_change redistributed
    apply_redistribution_to_trove_before_liquidation handle_debt_token_borrowing_fee_paid
    swap_tmp_deposit_update handle_user_deposit_changed handle_fil_gain_withdrawn handle index
staking_runs = refl

handled-IsWellFormed_example : IsWellFormed (store_of staking_run)
handled-IsWellFormed_example =
    handled-IsWellFormed erc20_texts event staking empty_store (store_of staking_run)
      empty_store-IsWellFormed (ran staking_run staking_runs)

stake_changed_sets_example :
    (load (store_of staking_run).protocol_token_stakes 6
      ≡ some (record { owner = 6; amount = decimalize (coins 8) }))
    × (load (store_of staking_run).protocol_token_stakes 5
        ≡ load empty_store.protocol_token_stakes 5)
stake_changed_sets_example =
    stake_changed_sets erc20_texts event 6 5 (coins 8) empty_store (store_of staking_run)
      empty_store-IsWellFormed (ground arith) (ran staking_run staking_runs)

transfer-none_iff_example :
    (handle erc20_texts event (transfer 0 5 (coins 3)) empty_store ≡ none) ↔ (
      (load empty_store.tokens 7 ≡ none)
      × ((erc20_texts.name 7 ≡ none) ⊎ (erc20_texts.symbol 7 ≡ none)))
transfer-none_iff_example = transfer-none_iff erc20_texts event 0 5 (coins 3) empty_store

borrowing_fee-none_iff_example :
    (handle_debt_token_borrowing_fee_paid (coins 1) empty_store ≡ none) ↔ (
      load empty_store.trove_changes (decrement (global_or_new empty_store.global).change_count)
      ≡ none)
borrowing_fee-none_iff_example = borrowing_fee-none_iff (coins 1) empty_store

named : ¬ IsNameless erc20_texts 7 story_store
named (_, inl nothing) = cc nothing
named (_, inr nothing) = cc nothing

payment_moves_example :
    (t : EntityStore) × (handle erc20_texts event (transfer 5 6 (coins 3)) story_store
      ≡ some (tt, t))
    × (held_by t 7 5 ≡ integers.minus (held_by story_store 7 5) (coins 3))
    × (held_by t 7 6 ≡ integers.plus (held_by story_store 7 6) (coins 3))
    × (held_by t 7 8 ≡ held_by story_store 7 8)
payment_moves_example =
    payment_moves erc20_texts event 5 6 8 (coins 3) story_store named (ground arith) (ground arith)
      (ground arith) (ground arith) (ground arith)

empty_store-HasNoPrice : HasNoPrice empty_store
unfolding load_current
empty_store-HasNoPrice state found = absurd (cc found)

differs : is_same_trove (trove_or_new empty_store 5) (coins 4) (coins 20) ≡ false
unfolding decimalize decimal_scaling_factor decimal_zero load
differs = refl

unpriced_update_fails_example :
    update_trove event open_trove 5 (coins 4) (coins 20) (coins 4) empty_store ≡ none
unpriced_update_fails_example =
    unpriced_update_fails event open_trove 5 (coins 4) (coins 20) (coins 4) empty_store
      empty_store-HasNoPrice differs
