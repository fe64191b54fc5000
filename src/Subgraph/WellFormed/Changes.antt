-- ===== src/Subgraph/WellFormed/Changes.antt =====
-- Transactions and changes, and the price: entities/Transaction.ts, Change.ts, SystemState.ts.
use stablecoin_sdk.Subgraph.WellFormed.States.{
  Keeps-save_system_state, Keeps-bump, Keeps-get_current_system_state,
}
use stablecoin_sdk.Subgraph.WellFormed.Globals.{
  Keeps-get_transaction_sequence_number, Keeps-get_change_sequence_number,
}
use stablecoin_sdk.Subgraph.SystemState.{
  apply_trove_change, update_system_state_by_trove_change,
  update_system_state_by_stability_deposit_change, or_create, get_current_price,
}
use stablecoin_sdk.Subgraph.Change.{
  update_price, update_price_of, record_price_change, begin_change, get_transaction, finish_change,
  init_change, finish_price_change, create_change, create_transaction,
}
use stablecoin_sdk.Base.{ℕ, Option, none, some}
use stablecoin_sdk.Subgraph.Numbers.{decimalize, GraphNumbers}
use stablecoin_sdk.Subgraph.Entities.{
  DepositChangeEntity, EntityStore, SystemState, TroveChangeEntity, Event, User, StakeEntity,
  Change, PriceChange,
}
use stablecoin_sdk.Subgraph.Handler.{
  Keeps-if, Handler, Keeps, Keeps-bind, Keeps-pure, Keeps-reads, Keeps-saves, Keeps-value_or_fail,
}
use stablecoin_sdk.Subgraph.WellFormed.{Dict, Within}

module _ ⦃num : GraphNumbers⦄ where
  Keeps-apply_trove_change :
      {P : EntityStore → Type 0} (change : TroveChangeEntity) (state : SystemState)
      → Keeps P (apply_trove_change change state)
  unfolding apply_trove_change
  Keeps-apply_trove_change change state = Keeps-if _ _ _ (Keeps-pure _) (
      Keeps-if _ _ _ (Keeps-bind _ _ (Keeps-value_or_fail _) λ offset. Keeps-pure _) (Keeps-pure _))

module _ ⦃num : GraphNumbers⦄ {E : Dict ℕ User → Dict ℕ StakeEntity → Type 0}
    {dt : ℕ → num.BigInt} where
  pub Keeps-or_create :
      {V : Type 0} (create : Handler V) (o : Option V)
      → Keeps (Within E dt) create
      → Keeps (Within E dt) (or_create create o)
  Keeps-or_create create none keeps = keeps
  Keeps-or_create create (some v) keeps = Keeps-pure v

  Keeps-create_transaction : (event : Event) → Keeps (Within E dt) (create_transaction event)
  unfolding create_transaction
  Keeps-create_transaction event = Keeps-bind _ _ Keeps-get_transaction_sequence_number λ n.
      Keeps-bind _ _ (Keeps-value_or_fail _) λ b.
        Keeps-bind _ _ (Keeps-value_or_fail _)
          λ t. Keeps-bind _ _ (Keeps-saves _ λ s h. h) λ _. Keeps-pure _

  pub Keeps-get_transaction : (event : Event) → Keeps (Within E dt) (get_transaction event)
  unfolding get_transaction
  Keeps-get_transaction event =
      Keeps-bind _ _ (Keeps-reads _) λ o. Keeps-or_create _ o (Keeps-create_transaction event)

  pub Keeps-create_change : (event : Event) → Keeps (Within E dt) (create_change event)
  unfolding create_change begin_change init_change
  Keeps-create_change event = Keeps-bind _ _ Keeps-get_change_sequence_number λ n.
      Keeps-bind _ _ (Keeps-get_transaction event)
        λ t. Keeps-bind _ _ Keeps-get_current_system_state λ before. Keeps-pure _

  pub Keeps-finish_change : (change : Change) → Keeps (Within E dt) (finish_change change)
  unfolding finish_change
  Keeps-finish_change change = Keeps-bind _ _ Keeps-get_current_system_state λ after. Keeps-pure _

  Keeps-finish_price_change :
      (entity : PriceChange) → Keeps (Within E dt) (finish_price_change entity)
  unfolding finish_price_change
  Keeps-finish_price_change entity =
      Keeps-bind _ _ (Keeps-finish_change entity.change) λ change. Keeps-saves _ λ s h. h

  pub Keeps-get_current_price : Keeps (Within E dt) get_current_price
  unfolding get_current_price
  Keeps-get_current_price =
      Keeps-bind _ _ Keeps-get_current_system_state λ state. Keeps-value_or_fail _

  Keeps-record_price_change :
      (event : Event) (state : SystemState) (old_price new_price : num.BigDecimal)
      → Keeps (Within E dt) (record_price_change event state old_price new_price)
  unfolding record_price_change
  Keeps-record_price_change event state old_price new_price =
      Keeps-bind _ _ (Keeps-create_change event)
        λ change. Keeps-bind _ _ (Keeps-bump _) λ _. Keeps-finish_price_change _

  pub Keeps-update_price :
      (event : Event) (price : num.BigInt) → Keeps (Within E dt) (update_price event price)
  unfolding update_price
  Keeps-update_price event price =
      Keeps-bind _ _ Keeps-get_current_system_state λ state. go state state.price
    where
      go :
          (state : SystemState) (old : Option num.BigDecimal)
          → Keeps (Within E dt) (update_price_of event state (decimalize price) old)
      go state none = Keeps-save_system_state _
      go state (some old_price) =
          Keeps-if _ _ _ (Keeps-record_price_change event state old_price (decimalize price))
            (Keeps-pure tt)

  pub Keeps-trove_change_state :
      (change : TroveChangeEntity)
      → Keeps (Within E dt) (update_system_state_by_trove_change change)
  unfolding update_system_state_by_trove_change
  Keeps-trove_change_state change = Keeps-bind _ _ Keeps-get_current_system_state λ state.
      Keeps-bind _ _ (Keeps-apply_trove_change change state)
        λ next. Keeps-bind _ _ (Keeps-value_or_fail next.price) λ price. Keeps-bump _

  pub Keeps-deposit_change_state :
      (change : DepositChangeEntity)
      → Keeps (Within E dt) (update_system_state_by_stability_deposit_change change)
  unfolding update_system_state_by_stability_deposit_change
  Keeps-deposit_change_state change =
      Keeps-bind _ _ Keeps-get_current_system_state λ state. Keeps-bump _
