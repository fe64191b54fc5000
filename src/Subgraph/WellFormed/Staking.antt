-- ===== src/Subgraph/WellFormed/Staking.antt =====
-- The handlers of stakes, `updateStake` and `withdrawStakeGains`.
use stablecoin_sdk.Subgraph.WellFormed.Stakes.{
  Beside, IsStake, AreOwned-save_stake, Leads-get_or_create_stake,
}
use stablecoin_sdk.Subgraph.Change.{create_change}
use stablecoin_sdk.Subgraph.Entities.{
  Event, stake_created, stake_increased, stake_decreased, stake_removed, gains_withdrawn,
  StakeOperation, User, StakeChangeEntity, StakeEntity,
}
use stablecoin_sdk.Subgraph.WellFormed.Changes.{Keeps-create_change, Keeps-finish_change}
use stablecoin_sdk.Subgraph.Numbers.{decimalize, GraphNumbers}
use stablecoin_sdk.Subgraph.WellFormed.Globals.{
  Keeps-increase_total_number_of_protocol_token_stakes,
  Keeps-increase_number_of_active_protocol_token_stakes,
  Keeps-decrease_number_of_active_protocol_token_stakes,
}
use stablecoin_sdk.Subgraph.WellFormed.States.{Keeps-get_current_system_state, Keeps-bump}
use stablecoin_sdk.Subgraph.SystemState.{update_system_state_by_protocol_token_stake_change}
use stablecoin_sdk.Subgraph.Stake.{
  update_stake, gains_change_of, apply_stake_update, stake_update_of, is_null, withdraw_stake_gains,
  apply_gains, count_stake, save_stake, finish_protocol_token_stake_change,
}
use stablecoin_sdk.Subgraph.Dict.{save, number_key, number_key, Dict, AreKeyed-save}
use stablecoin_sdk.Subgraph.Handler.{
  Leads-if, Keeps, Leads-saves, Keeps-saves, Leads-bind, Leads, Keeps-bind, Keeps-pure,
}
use stablecoin_sdk.Subgraph.WellFormed.{Within}
use stablecoin_sdk.Subgraph.WellFormed.Records.{AnyUsers}
use stablecoin_sdk.Base.{◌≡◌, ℕ, refl, Bool, true, false, Option}

module _ ⦃num : GraphNumbers⦄ where
  module _ {E : Dict ℕ User → Dict ℕ StakeEntity → Type 0} {dt : ℕ → num.BigInt} where
    Keeps-finish_stake_change :
        (entity : StakeChangeEntity)
        → Keeps (Within E dt) (finish_protocol_token_stake_change entity)
    unfolding finish_protocol_token_stake_change
    Keeps-finish_stake_change entity =
        Keeps-bind _ _ (Keeps-finish_change entity.change) λ change. Keeps-saves _ λ s h. h

    Keeps-count_stake :
        (operation : StakeOperation) (first : Bool)
        → Keeps (Within E dt) (count_stake operation first)
    Keeps-count_stake stake_created true = Keeps-increase_total_number_of_protocol_token_stakes
    Keeps-count_stake stake_created false = Keeps-increase_number_of_active_protocol_token_stakes
    Keeps-count_stake stake_increased first = Keeps-pure tt
    Keeps-count_stake stake_decreased first = Keeps-pure tt
    Keeps-count_stake stake_removed first = Keeps-decrease_number_of_active_protocol_token_stakes
    Keeps-count_stake gains_withdrawn first = Keeps-pure tt

    Keeps-stake_change_state :
        (change : StakeChangeEntity)
        → Keeps (Within E dt) (update_system_state_by_protocol_token_stake_change change)
    unfolding update_system_state_by_protocol_token_stake_change
    Keeps-stake_change_state change =
        Keeps-bind _ _ Keeps-get_current_system_state λ state. Keeps-bump _

  -- What is known of the stakes before the stake of `id` is saved with an amount, and after.
  abbrev pub Saved :
      (Dict ℕ StakeEntity → Type 0) → (Dict ℕ StakeEntity → Type 0) → ℕ → num.BigDecimal → Type 0
  Saved F F' id amount =
      (next : StakeEntity) (stakes : Dict ℕ StakeEntity)
      → next.owner ≡ id
      → next.amount ≡ amount
      → F stakes
      → F' (save stakes next.owner next)

  module _ {dt : ℕ → num.BigInt} {F F' : Dict ℕ StakeEntity → Type 0} where
    Leads-save_stake :
        (id : ℕ) (stake : StakeEntity) (amount : num.BigDecimal)
        → Saved F F' id amount
        → Leads
            (Within (Beside (IsStake id stake) F) dt)
            (save_stake (record stake { amount = amount }))
            (λ _. Within (λ _. F') dt)
    unfolding save_stake
    Leads-save_stake id stake amount saved = Leads-saves _ λ s h.
        let next : StakeEntity = record stake { amount = amount } in
        let ((own, owner), other) = h.extra in
        record {
          counted = h.counted;
          conserved = h.conserved;
          states_keyed = h.states_keyed;
          stakes_keyed =
              AreKeyed-save (λ x. x.owner) s.protocol_token_stakes stake.owner next h.stakes_keyed
                refl;
          linked = h.linked;
          owned =
              AreOwned-save_stake s.users s.protocol_token_stakes stake.owner next h.owned
                (rw owner own);
          extra = saved next s.protocol_token_stakes owner refl other;
          current = h.current;
        }

  module _ {dt : ℕ → num.BigInt} {F F' : Dict ℕ StakeEntity → Type 0} where
    Leads-apply_stake_update :
        (id : ℕ) (event : Event) (amount : num.BigDecimal) (o : Option StakeEntity)
        (stake : StakeEntity)
        → Saved F F' id amount
        → Leads
            (Within (Beside (IsStake id stake) F) dt)
            (apply_stake_update event amount o stake)
            (λ _. Within (λ _. F') dt)
    unfolding apply_stake_update
    Leads-apply_stake_update id event amount o stake saved =
        Leads-bind (create_change event) _ (Keeps-create_change event) λ change.
          let entity = stake_update_of change stake amount in
          Leads-bind (count_stake entity.operation (is_null o)) _
            (Keeps-count_stake entity.operation (is_null o))
            λ _.
              Leads-bind (update_system_state_by_protocol_token_stake_change entity) _
                (Keeps-stake_change_state entity)
                λ _.
                  Leads-bind (finish_protocol_token_stake_change entity) _
                    (Keeps-finish_stake_change entity) λ _. Leads-save_stake id stake amount saved

    pub Leads-update_stake :
        (event : Event) (address : ℕ) (new_stake : num.BigInt)
        → Saved F F' address (decimalize new_stake)
        → Leads
            (Within (λ _. F) dt)
            (update_stake event address new_stake)
            (λ _. Within (λ _. F') dt)
    unfolding update_stake
    Leads-update_stake event address new_stake saved =
        Leads-get_or_create_stake address (apply_stake_update event (decimalize new_stake))
          λ o stake. Leads-apply_stake_update address event (decimalize new_stake) o stake saved

    Leads-apply_gains :
        (id : ℕ) (event : Event) (issuance_gain redemption_gain : num.BigDecimal)
        (stake : StakeEntity)
        → Saved F F' id stake.amount
        → Leads
            (Within (Beside (IsStake id stake) F) dt)
            (apply_gains event issuance_gain redemption_gain stake)
            (λ _. Within (λ _. F') dt)
    unfolding apply_gains
    Leads-apply_gains id event issuance_gain redemption_gain stake saved =
        Leads-bind (create_change event) _ (Keeps-create_change event) λ change.
          let entity = gains_change_of change stake issuance_gain redemption_gain in
          Leads-bind (update_system_state_by_protocol_token_stake_change entity) _
            (Keeps-stake_change_state entity)
            λ _.
              Leads-bind (finish_protocol_token_stake_change entity) _
                (Keeps-finish_stake_change entity) λ _. Leads-save_stake id stake stake.amount saved

  module _ {dt : ℕ → num.BigInt} where
    pub Keeps-update_stake :
        (event : Event) (address : ℕ) (new_stake : num.BigInt)
        → Keeps (Within AnyUsers dt) (update_stake event address new_stake)
    Keeps-update_stake event address new_stake =
        Leads-update_stake {F = λ _. Unit {0}} {F' = λ _. Unit {0}} event address new_stake
          λ next stakes owner amount known. known

    pub Keeps-withdraw_stake_gains :
        (event : Event) (address : ℕ) (debt_token_gain fil_gain : num.BigInt)
        → Keeps (Within AnyUsers dt) (withdraw_stake_gains event address debt_token_gain fil_gain)
    unfolding withdraw_stake_gains
    Keeps-withdraw_stake_gains event address debt_token_gain fil_gain =
        Leads-if _ _ _ (Keeps-pure tt) (
          Leads-get_or_create_stake {F = λ _. Unit {0}} address
            (λ _. apply_gains event (decimalize debt_token_gain) (decimalize fil_gain))
            λ o stake.
              Leads-apply_gains {F = λ _. Unit {0}} {F' = λ _. Unit {0}} address event
                (decimalize debt_token_gain) (decimalize fil_gain) stake
                λ next stakes owner amount known. known)
