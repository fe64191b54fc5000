-- ===== src/Subgraph/WellFormed/Events.antt =====
-- Every handler keeps the store of entities well-formed: packages/subgraph/src/mappings.
use stablecoin_sdk.Subgraph.Global.{global_or_new}
use stablecoin_sdk.Subgraph.Dict.{number_key, load}
use stablecoin_sdk.Subgraph.Numbers.{GraphNumbers, bigint_zero}
use stablecoin_sdk.Subgraph.Token.{Erc20}
use stablecoin_sdk.Subgraph.WellFormed.Changes.{Keeps-update_price}
use stablecoin_sdk.Subgraph.WellFormed.Records.{
  Keeps-register_frontend, Keeps-assign_frontend, Keeps-update_user_claim_coll,
  Keeps-finish_current_redemption, Keeps-finish_current_liquidation,
}
use stablecoin_sdk.Subgraph.WellFormed.Globals.{
  Keeps-save_global, Keeps-increase_total_borrowing_fees_paid, Keeps-update_total_redistributed,
}
use stablecoin_sdk.Subgraph.Handler.{Handler, Keeps-pure, Keeps-bind, Keeps}
use stablecoin_sdk.Subgraph.Entities.{EntityStore, Event, empty_store}
use stablecoin_sdk.Subgraph.WellFormed.Staking.{Keeps-withdraw_stake_gains, Keeps-update_stake}
use stablecoin_sdk.Subgraph.WellFormed.{IsCounted, supply_of, sum_of_balances, IsWellFormed}
use stablecoin_sdk.Subgraph.SystemState.{load_current}
use stablecoin_sdk.Subgraph.WellFormed.Transfers.{Keeps-update_allowance, Keeps-update_balance}
use stablecoin_sdk.Subgraph.Mappings.{
  trove_updated_by_borrower, trove_updated_by_manager, debt_token_borrowing_fee_paid,
  coll_balance_updated, last_good_price_updated, stake_changed, staking_gains_withdrawn,
  user_deposit_changed, fil_gain_withdrawn, front_end_registered, front_end_tag_set, transfer,
  approval, trove_liquidated, liquidation_finished, redemption_finished, l_terms_updated, index,
  ContractEvent, handle_fil_gain_withdrawn, handle, if_not_null, swapped, swap_tmp_deposit_update,
  handle_user_deposit_changed, handle_debt_token_borrowing_fee_paid,
}
use stablecoin_sdk.Subgraph.WellFormed.Troves.{
  Keeps-update_stability_deposit, Keeps-set_borrowing_fee, Keeps-apply_redistribution,
  Keeps-update_trove, Keeps-withdraw_collateral_gain,
}
use stablecoin_sdk.Base.{inl, ◌∙◌, ℕ, sym, ◌≡◌, refl, Option, none, some, List, [], ◌∷◌}

module _ ⦃num : GraphNumbers⦄ where
  abbrev IsKept : Handler (Unit {0}) → Type 0
  IsKept m = Keeps IsWellFormed m

  Keeps-swap : (value : num.BigInt) → Keeps IsWellFormed (swap_tmp_deposit_update value)
  unfolding swap_tmp_deposit_update
  Keeps-swap value =
      Keeps-save_global (λ g. record g { tmp_deposit_update = swapped value g.tmp_deposit_update })
        (λ g. (refl, λ h. h)) _ λ g. Keeps-pure _

  Keeps-if_not_null :
      {A : Type 0} (o : Option A) (f : A → Handler (Unit {0}))
      → ((a : A) → IsKept (f a))
      → IsKept (if_not_null o f)
  Keeps-if_not_null none f keeps = Keeps-pure tt
  Keeps-if_not_null (some a) f keeps = keeps a

  Keeps-handle : (erc20 : Erc20) (event : Event) (e : ContractEvent) → IsKept (handle erc20 event e)
  unfolding handle handle_debt_token_borrowing_fee_paid handle_user_deposit_changed
      handle_fil_gain_withdrawn
  Keeps-handle erc20 event (trove_updated_by_borrower operation borrower coll debt stake) =
      Keeps-update_trove event _ borrower coll debt stake
  Keeps-handle erc20 event (trove_updated_by_manager operation borrower coll debt stake) =
      Keeps-update_trove event _ borrower coll debt stake
  Keeps-handle erc20 event (debt_token_borrowing_fee_paid fee) =
      Keeps-bind _ _ (Keeps-set_borrowing_fee fee) λ _. Keeps-increase_total_borrowing_fees_paid fee
  Keeps-handle erc20 event (coll_balance_updated account new_balance) =
      Keeps-update_user_claim_coll event account new_balance
  Keeps-handle erc20 event (last_good_price_updated last_good_price) =
      Keeps-update_price event last_good_price
  Keeps-handle erc20 event (stake_changed staker new_stake) =
      Keeps-update_stake event staker new_stake
  Keeps-handle erc20 event (staking_gains_withdrawn staker debt_token_gain fil_gain) =
      Keeps-withdraw_stake_gains event staker debt_token_gain fil_gain
  Keeps-handle erc20 event (user_deposit_changed depositor new_deposit) =
      Keeps-bind _ _ (Keeps-swap new_deposit)
        λ o. Keeps-if_not_null o _ λ _. Keeps-update_stability_deposit event depositor new_deposit
  Keeps-handle erc20 event (fil_gain_withdrawn depositor fil debt_token_loss) =
      Keeps-bind _ _ (Keeps-swap bigint_zero) λ o.
        Keeps-bind _ _ (Keeps-withdraw_collateral_gain event depositor fil debt_token_loss)
          λ _. Keeps-if_not_null o _ λ a. Keeps-update_stability_deposit event depositor a
  Keeps-handle erc20 event (front_end_registered front_end kickback_rate) =
      Keeps-register_frontend front_end kickback_rate
  Keeps-handle erc20 event (front_end_tag_set depositor front_end) =
      Keeps-assign_frontend depositor front_end
  Keeps-handle erc20 event (transfer sender recipient value) =
      Keeps-update_balance erc20 event sender recipient value
  Keeps-handle erc20 event (approval owner spender value) =
      Keeps-update_allowance event owner spender value
  Keeps-handle erc20 event (trove_liquidated borrower) = Keeps-apply_redistribution event borrower
  Keeps-handle erc20 event (liquidation_finished coll debt coll_compensation debt_compensation) =
      Keeps-finish_current_liquidation event coll debt coll_compensation debt_compensation
  Keeps-handle erc20 event (redemption_finished attempted actual fil_sent fil_fee) =
      Keeps-finish_current_redemption event attempted actual fil_sent fil_fee
  Keeps-handle erc20 event (l_terms_updated l_fil l_debt) =
      Keeps-update_total_redistributed l_fil l_debt

  Keeps-index :
      (erc20 : Erc20) (events : List (Event × ContractEvent)) → IsKept (index erc20 events)
  unfolding index
  Keeps-index erc20 [] = Keeps-pure tt
  Keeps-index erc20 ((event, e) ∷ events) =
      Keeps-bind _ _ (Keeps-handle erc20 event e) λ _. Keeps-index erc20 events

  pub empty_store-IsWellFormed : IsWellFormed empty_store
  unfolding load load_current
  empty_store-IsWellFormed = record {
    counted = refl;
    conserved = λ address. sym (num.ints.plus-zero num.ints.zero_of);
    states_keyed = λ id v e. absurd (cc e);
    stakes_keyed = λ id v e. absurd (cc e);
    linked = λ id v e. absurd (cc e);
    owned = λ id v e. absurd (cc e);
    extra = tt;
    current = inl refl;
  }

  -- Whatever the event and the answers of the contract, a handler that does not fail leaves a well-formed
  -- store as it finds one: the balances of each token add up to its supply, the number of all troves is
  -- the sum of those of each status modulo 2 ^ 32, every system state and every stake is under its own
  -- id, the current system state is in the store, a user is linked to no stake or to the one of its own
  -- id, and every stake has a user that is linked to it.
  pub handled-IsWellFormed :
      (erc20 : Erc20) (event : Event) (e : ContractEvent) (s t : EntityStore)
      → IsWellFormed s
      → handle erc20 event e s ≡ some (tt, t)
      → IsWellFormed t
  handled-IsWellFormed erc20 event e s t h done = (Keeps-handle erc20 event e).at s tt t done h

  indexed :
      (erc20 : Erc20) (events : List (Event × ContractEvent)) (s : EntityStore)
      → index erc20 events empty_store ≡ some (tt, s)
      → IsWellFormed s
  indexed erc20 events s done =
      (Keeps-index erc20 events).at empty_store tt s done empty_store-IsWellFormed

  -- After any sequence of events that was indexed from an empty store without a failure, the balances
  -- of each token add up to its total supply.
  pub balances_add_up :
      (erc20 : Erc20) (events : List (Event × ContractEvent)) (s : EntityStore) (token : ℕ)
      → index erc20 events empty_store ≡ some (tt, s)
      → sum_of_balances s.token_balances token ≡ supply_of s.tokens token
  balances_add_up erc20 events s token done =
      (indexed erc20 events s done).conserved token ∙ num.ints.plus-zero (supply_of s.tokens token)

  -- After any sequence of events that was indexed from an empty store without a failure, the number of
  -- all troves is the sum of the numbers of open, liquidated, redeemed and owner-closed troves, modulo
  -- 2 ^ 32.
  pub troves_add_up :
      (erc20 : Erc20) (events : List (Event × ContractEvent)) (s : EntityStore)
      → index erc20 events empty_store ≡ some (tt, s)
      → IsCounted (global_or_new s.global)
  troves_add_up erc20 events s done = (indexed erc20 events s done).counted
