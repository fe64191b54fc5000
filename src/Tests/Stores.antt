-- ===== src/Tests/Stores.antt =====
-- Runs of `SfStablecoinStore`, with listeners that subscribe and unsubscribe others.
use stablecoin_sdk.Base.{
  ℕ, zero, suc, ◌≡◌, refl, arith, true, false, none, some, List, [], ◌∷◌, ◌++◌, map, inr,
}
use stablecoin_sdk.Base.Result.{ok}
use stablecoin_sdk.Tests.{numbers}
use stablecoin_sdk.Decimal.{one, half, zero_decimal}
use stablecoin_sdk.Tests.Rates.{decaying_fees}
use stablecoin_sdk.Tests.Accounts.{some_deposit, some_stake}
use stablecoin_sdk.Tests.Troves.{large_trove, some_price, pending_trove}
use stablecoin_sdk.StoreState.{
  unregistered, registered, BaseState, BaseUpdate, no_update, DerivedState, reduce, derive,
}
use stablecoin_sdk.StoreState.Reduce.{overwrite, reduce-overwrite}
use stablecoin_sdk.Store.{
  Snapshot, Store, new_store, has, subscribe_new, unsubscribe_id, Command, notified, snapshot,
  schedule_update, cancel_update_if_scheduled, stop, subscribe, unsubscribe, run_commands, log_call,
  notify, load, update, without,
}
use stablecoin_sdk.Store.Timers.{schedule-one_pending}
use stablecoin_sdk.Store.Derived.{IsValidBase, derive_total}
use stablecoin_sdk.Store.Preserve.{IsCurrent, IsGood}
use stablecoin_sdk.Store.Updating.{update-loaded}
use stablecoin_sdk.Store.Reachable.{Reach, here, next, loads, subscribes, Reach-IsGood}
use stablecoin_sdk.Store.Listeners.{IsSubsequence, IsGone, notify_calls, notify_all}

abbrev some_base : BaseState
some_base = record {
  frontend = unregistered;
  own_frontend = registered half;
  number_of_troves = 2;
  account_balance = one;
  debt_token_balance = zero_decimal;
  protocol_token_balance = zero_decimal;
  uni_token_balance = zero_decimal;
  uni_token_allowance = zero_decimal;
  remaining_protocol_mining_protocol_token_reward = zero_decimal;
  liquidity_mining_stake = zero_decimal;
  total_staked_uni_tokens = zero_decimal;
  liquidity_mining_protocol_token_reward = zero_decimal;
  collateral_surplus_balance = zero_decimal;
  price = some_price;
  debt_token_in_stability_pool = half;
  total = large_trove;
  total_redistributed = large_trove;
  trove_before_redistribution = pending_trove;
  stability_deposit = some_deposit;
  remaining_stability_pool_protocol_token_reward = one;
  fees_in_normal_mode = decaying_fees;
  protocol_token_stake = some_stake;
  total_staked_protocol_token = one;
  riskiest_trove_before_redistribution = pending_trove;
  debt_in_front = (one, "0x03");
}

abbrev some_update : BaseUpdate
some_update = record no_update { price = some half; number_of_troves = some 2 }

some_base-IsValidBase : IsValidBase some_base
some_base-IsValidBase = (omega arith, omega arith)

reduce-overwrite_example : reduce some_base some_update ≡ overwrite some_base some_update
reduce-overwrite_example = reduce-overwrite some_base some_update

derive_total_example : (d : DerivedState) × (derive some_base ≡ ok d)
derive_total_example = derive_total some_base some_base-IsValidBase

-- The extra state is a number, and an update of it the next one.
abbrev reduce_number : ℕ → ℕ → ℕ
reduce_number old new = new

-- The listener 0 unsubscribes the listener 1 and subscribes a new one.
abbrev meddle : ℕ → List Command
meddle zero = unsubscribe_id 1 ∷ subscribe_new ∷ []
meddle (suc _) = []

abbrev idle : ℕ → List Command
idle _ = []

-- Three listeners, and the timer 4.
abbrev waiting_store : Store ℕ
waiting_store = record (new_store false) {
  listeners = 0 ∷ 1 ∷ 2 ∷ [];
  next_listener = 3;
  update_timeout_id = some 4;
  pending = 4 ∷ [];
  next_timer = 5;
}

schedule-one_pending_example :
    ((schedule_update waiting_store).pending
      ≡ (cancel_update_if_scheduled waiting_store).next_timer ∷ [])
    × ((schedule_update waiting_store).update_timeout_id
        ≡ some (cancel_update_if_scheduled waiting_store).next_timer)
    × ((stop waiting_store).pending ≡ [])
schedule-one_pending_example = schedule-one_pending waiting_store (inr (4, refl, refl))

abbrev before : Snapshot ℕ
before = record { base = none; derived = none; extra = some 0 }

abbrev after : Snapshot ℕ
after = record { base = none; derived = none; extra = some 1 }

one-IsGone : IsGone 1 (run_commands (meddle 0) (log_call (notified 0 after before) waiting_store))
unfolding run_commands subscribe unsubscribe without has
one-IsGone = (refl, omega arith)

notify_calls_example :
    (called : List ℕ) × ((notify meddle after before waiting_store).calls
      ≡ [] ++ notified 0 after before ∷ map (λ l. notified l after before) called)
    × IsSubsequence called (1 ∷ 2 ∷ [])
    × (has called 1 ≡ false)
notify_calls_example =
    notify_calls meddle after before 0 1 (1 ∷ 2 ∷ []) waiting_store refl one-IsGone

notify_all_example :
    (notify idle after before waiting_store).calls
    ≡ [] ++ map (λ l. notified l after before) (0 ∷ 1 ∷ 2 ∷ [])
notify_all_example = notify_all idle after before waiting_store (λ l. refl)

-- A new store that a listener subscribes to and that is then loaded.
abbrev loaded_run : Store ℕ
loaded_run = (load reduce_number meddle some_base (some 0) (subscribe (new_store true))).1

loaded_run-Reach : Reach reduce_number meddle (new_store true) loaded_run
loaded_run-Reach =
    next (next here (subscribes (new_store true)))
      (loads (subscribe (new_store true)) some_base (some 0) some_base-IsValidBase)

Reach-IsGood_example : IsGood loaded_run
Reach-IsGood_example = Reach-IsGood reduce_number meddle true loaded_run-Reach

abbrev current_store : DerivedState → Store ℕ
current_store d = record waiting_store {
  loaded = true;
  base_state = some some_base;
  derived_state = some d;
  extra_state = some 0;
}

abbrev derived_base : DerivedState
derived_base = (derive_total some_base some_base-IsValidBase).0

current_store-IsCurrent : IsCurrent (current_store derived_base)
current_store-IsCurrent = (
  some_base,
  derived_base,
  refl,
  refl,
  refl,
  some_base-IsValidBase,
  (derive_total some_base some_base-IsValidBase).1,
)

update-loaded_example :
    (b : BaseState) × (d : DerivedState) × (s' : Store ℕ) × (id : ℕ) × (some some_base ≡ some b)
    × (derive (overwrite b some_update) ≡ ok d)
    × (s'.base_state ≡ some (overwrite b some_update))
    × (s'.derived_state ≡ some d)
    × (s'.extra_state ≡ some 0)
    × (s'.listeners ≡ (current_store derived_base).listeners)
    × (s'.next_listener ≡ (current_store derived_base).next_listener)
    × (s'.calls ≡ (current_store derived_base).calls)
    × (s'.loaded ≡ true)
    × (s'.pending ≡ id ∷ [])
    × (s'.update_timeout_id ≡ some id)
    × (update reduce_number meddle (some some_update) none (current_store derived_base)
        ≡ (ok tt, notify meddle (snapshot s') (snapshot (current_store derived_base)) s'))
update-loaded_example =
    update-loaded reduce_number meddle some_update (current_store derived_base) tt
      (inr (4, refl, refl)) current_store-IsCurrent
