-- ===== src/Subgraph/Global.antt =====
-- packages/subgraph/src/entities/Global.ts: the one entity that counts the others.
use stablecoin_sdk.Base.{ℕ, Option, none, some}
use stablecoin_sdk.Subgraph.Numbers.{
  GraphNumbers, increment, decrement, bigint_zero, decimal_zero, decimalize,
}
use stablecoin_sdk.Subgraph.Entities.{Global}
use stablecoin_sdk.Subgraph.Handler.{Handler, pure, ◌>>=◌, ◌>>◌, reads, saves}

module _ ⦃num : GraphNumbers⦄ where
  abbrev pub new_global : Global
  new_global = record {
    system_state_count = 0;
    transaction_count = 0;
    change_count = 0;
    liquidation_count = 0;
    redemption_count = 0;
    number_of_open_troves = 0;
    number_of_liquidated_troves = 0;
    number_of_redeemed_troves = 0;
    number_of_troves_closed_by_owner = 0;
    total_number_of_troves = 0;
    total_number_of_protocol_token_stakes = 0;
    number_of_active_protocol_token_stakes = 0;
    total_borrowing_fees_paid = decimal_zero;
    total_redemption_fees_paid = decimal_zero;
    raw_total_redistributed_collateral = bigint_zero;
    raw_total_redistributed_debt = bigint_zero;
    current_system_state = none;
    current_liquidation = none;
    current_redemption = none;
    tmp_deposit_update = none;
  }

  abbrev pub global_or_new : Option Global → Global
  global_or_new (some global) = global
  global_or_new none = new_global

  -- A new entity is returned and not yet saved.
  unfoldable pub get_global : Handler Global
  get_global = reads λ s. global_or_new s.global

  unfoldable pub save_global : Global → Handler (Unit {0})
  save_global global = saves λ s. record s { global = some global }

  -- What most functions do: read the entity, change it and save it.
  abbrev pub change_global : (Global → Global) → Handler (Unit {0})
  change_global f = do global ← get_global; save_global (f global)

  -- A key is the way to read a counter and the way to set it.
  abbrev pub increase_counter : (Global → ℕ) → (Global → ℕ → Global) → Handler ℕ
  increase_counter get set = do
    global ← get_global
    save_global (set global (increment (get global)))
    pure (get global)

  unfoldable pub get_system_state_sequence_number : Handler ℕ
  get_system_state_sequence_number =
      increase_counter (λ g. g.system_state_count) λ g n. record g { system_state_count = n }

  unfoldable pub get_transaction_sequence_number : Handler ℕ
  get_transaction_sequence_number =
      increase_counter (λ g. g.transaction_count) λ g n. record g { transaction_count = n }

  unfoldable pub get_change_sequence_number : Handler ℕ
  get_change_sequence_number =
      increase_counter (λ g. g.change_count) λ g n. record g { change_count = n }

  unfoldable pub get_last_change_sequence_number : Handler ℕ
  get_last_change_sequence_number = do global ← get_global; pure (decrement global.change_count)

  unfoldable pub get_liquidation_sequence_number : Handler ℕ
  get_liquidation_sequence_number =
      increase_counter (λ g. g.liquidation_count) λ g n. record g { liquidation_count = n }

  unfoldable pub get_redemption_sequence_number : Handler ℕ
  get_redemption_sequence_number =
      increase_counter (λ g. g.redemption_count) λ g n. record g { redemption_count = n }

  unfoldable pub update_total_redistributed : num.BigInt → num.BigInt → Handler (Unit {0})
  update_total_redistributed l_fil l_debt = change_global λ g. record g {
    raw_total_redistributed_collateral = l_fil;
    raw_total_redistributed_debt = l_debt;
  }

  unfoldable pub increase_number_of_open_troves : Handler (Unit {0})
  increase_number_of_open_troves = change_global λ g. record g {
    number_of_open_troves = increment g.number_of_open_troves;
    total_number_of_troves = increment g.total_number_of_troves;
  }

  unfoldable pub increase_number_of_liquidated_troves : Handler (Unit {0})
  increase_number_of_liquidated_troves = change_global λ g. record g {
    number_of_liquidated_troves = increment g.number_of_liquidated_troves;
    number_of_open_troves = decrement g.number_of_open_troves;
  }

  unfoldable pub decrease_number_of_liquidated_troves : Handler (Unit {0})
  decrease_number_of_liquidated_troves = change_global λ g. record g {
    number_of_liquidated_troves = decrement g.number_of_liquidated_troves;
    number_of_open_troves = increment g.number_of_open_troves;
  }

  unfoldable pub increase_number_of_redeemed_troves : Handler (Unit {0})
  increase_number_of_redeemed_troves = change_global λ g. record g {
    number_of_redeemed_troves = increment g.number_of_redeemed_troves;
    number_of_open_troves = decrement g.number_of_open_troves;
  }

  unfoldable pub decrease_number_of_redeemed_troves : Handler (Unit {0})
  decrease_number_of_redeemed_troves = change_global λ g. record g {
    number_of_redeemed_troves = decrement g.number_of_redeemed_troves;
    number_of_open_troves = increment g.number_of_open_troves;
  }

  unfoldable pub increase_number_of_troves_closed_by_owner : Handler (Unit {0})
  increase_number_of_troves_closed_by_owner = change_global λ g. record g {
    number_of_troves_closed_by_owner = increment g.number_of_troves_closed_by_owner;
    number_of_open_troves = decrement g.number_of_open_troves;
  }

  unfoldable pub decrease_number_of_troves_closed_by_owner : Handler (Unit {0})
  decrease_number_of_troves_closed_by_owner = change_global λ g. record g {
    number_of_troves_closed_by_owner = decrement g.number_of_troves_closed_by_owner;
    number_of_open_troves = increment g.number_of_open_troves;
  }

  unfoldable pub increase_total_number_of_protocol_token_stakes : Handler (Unit {0})
  increase_total_number_of_protocol_token_stakes = change_global λ g. record g {
    total_number_of_protocol_token_stakes = increment g.total_number_of_protocol_token_stakes;
    number_of_active_protocol_token_stakes = increment g.number_of_active_protocol_token_stakes;
  }

  unfoldable pub increase_number_of_active_protocol_token_stakes : Handler (Unit {0})
  increase_number_of_active_protocol_token_stakes = change_global λ g. record g {
    number_of_active_protocol_token_stakes = increment g.number_of_active_protocol_token_stakes;
  }

  unfoldable pub decrease_number_of_active_protocol_token_stakes : Handler (Unit {0})
  decrease_number_of_active_protocol_token_stakes = change_global λ g. record g {
    number_of_active_protocol_token_stakes = decrement g.number_of_active_protocol_token_stakes;
  }

  unfoldable pub increase_total_borrowing_fees_paid : num.BigInt → Handler (Unit {0})
  increase_total_borrowing_fees_paid fee = change_global λ g. record g {
    total_borrowing_fees_paid = num.decimal_plus g.total_borrowing_fees_paid (decimalize fee);
  }
