-- ===== src/Subgraph/Change.antt =====
-- packages/subgraph/src/entities/Transaction.ts and Change.ts, and `updatePrice` of SystemState.ts: a change
-- points to its transaction and to the states of the system before and after it.
use stablecoin_sdk.Base.{ℕ, Option, none, some, if◌then◌else◌, not}
use stablecoin_sdk.Subgraph.Numbers.{GraphNumbers, decimalize}
use stablecoin_sdk.Subgraph.Dict.{load, save, number_key}
use stablecoin_sdk.Subgraph.Entities.{SystemState, Event, Transaction, Change, PriceChange}
use stablecoin_sdk.Subgraph.Handler.{Handler, pure, ◌>>=◌, ◌>>◌, reads, saves, value_or_fail}
use stablecoin_sdk.Subgraph.Global.{get_transaction_sequence_number, get_change_sequence_number}
use stablecoin_sdk.Subgraph.SystemState.{
  get_current_system_state, bump_system_state, save_system_state, or_create,
}

module _ ⦃num : GraphNumbers⦄ where
  unfoldable pub create_transaction : Event → Handler Transaction
  create_transaction event = do
    sequence_number ← get_transaction_sequence_number
    block_number ← value_or_fail (num.to_i32 event.block_number)
    timestamp ← value_or_fail (num.to_i32 event.block_timestamp)
    let transaction : Transaction = record {
      sequence_number = sequence_number;
      block_number = block_number;
      timestamp = timestamp;
    }
    saves λ s. record s { transactions = save s.transactions event.transaction_hash transaction }
    pure transaction

  unfoldable pub get_transaction : Event → Handler Transaction
  get_transaction event = do
    transaction ← reads λ s. load s.transactions event.transaction_hash
    or_create (create_transaction event) transaction

  unfoldable pub begin_change : Handler ℕ
  begin_change = get_change_sequence_number

  unfoldable pub init_change : Event → ℕ → Handler Change
  init_change event sequence_number = do
    transaction ← get_transaction event
    before ← get_current_system_state
    pure (record {
      sequence_number = sequence_number;
      transaction = event.transaction_hash;
      system_state_before = before.sequence_number;
      system_state_after = none;
    })

  unfoldable pub finish_change : Change → Handler Change
  finish_change change = do
    after ← get_current_system_state
    pure (record change { system_state_after = some after.sequence_number })

  -- `createPriceChange` and its kin.
  unfoldable pub create_change : Event → Handler Change
  create_change event = do sequence_number ← begin_change; init_change event sequence_number

  unfoldable pub finish_price_change : PriceChange → Handler (Unit {0})
  finish_price_change entity = do
    change ← finish_change entity.change
    saves λ s. record s {
      price_changes =
          save s.price_changes change.sequence_number (record entity { change = change });
    }

  unfoldable pub record_price_change :
      Event → SystemState → num.BigDecimal → num.BigDecimal → Handler (Unit {0})
  record_price_change event state old_price new_price = do
    change ← create_change event
    bump_system_state (record state { price = some new_price })
    finish_price_change
        (record { change = change; price_change = num.decimal_minus new_price old_price })

  abbrev pub update_price_of :
      Event → SystemState → num.BigDecimal → Option num.BigDecimal → Handler (Unit {0})
  update_price_of event state new_price none =
      save_system_state (record state { price = some new_price })
  update_price_of event state new_price (some old_price) =
      if not (num.decimal_eq new_price old_price)
      then record_price_change event state old_price new_price
      else pure tt

  unfoldable pub update_price : Event → num.BigInt → Handler (Unit {0})
  update_price event last_good_price = do
    state ← get_current_system_state
    update_price_of event state (decimalize last_good_price) state.price
