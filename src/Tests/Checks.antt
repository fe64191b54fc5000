-- ===== src/Tests/Checks.antt =====
-- Runs of the checks of the user interface.
use stablecoin_sdk.Trove.Change.{
  what_changed, TroveChange, adjustment, collateral_only, deposit_collateral,
}
use stablecoin_sdk.Tests.Accounts.{some_deposit}
use stablecoin_sdk.Deposit.{StabilityDepositChange, deposit_debt_token, what_changed_deposit}
use stablecoin_sdk.Validation.Deposits.{
  DepositSelection, DepositChangeAllowed, accepted_deposit_iff, validate_stability_deposit_change,
  stability_action,
}
use stablecoin_sdk.Validation.{
  TroveContext, change_description, trove_context, TroveSelection, TroveVerdict,
  validate_trove_change,
}
use stablecoin_sdk.Validation.Answers.{IsAllowed, accepted_iff, answers_unless-IsBlocked}
use stablecoin_sdk.Base.{Option, ◌↔◌, false, some, none, ◌≡◌, ◌⊎◌, arith}
use stablecoin_sdk.Base.Result.{ok, err, net_debt_below_reserve}
use stablecoin_sdk.Tests.{numbers, environment}
use stablecoin_sdk.Tests.Troves.{small_trove, large_trove}
use stablecoin_sdk.Decimal.{Decimal, decimal}
use stablecoin_sdk.Trove.Change.RoundTrip.{IsBlocked}

abbrev selection : TroveSelection
selection = record {
  price = decimal 1_000_000_000_000_000_000_000;
  total = large_trove;
  account_balance = decimal 9_000_000_000_000_000_000;
  debt_token_balance = decimal 900_000_000_000_000_000_000;
  number_of_troves = 4;
}

abbrev half_percent : Decimal
half_percent = decimal 5_000_000_000_000_000

answers_unless-IsBlocked_example :
    ((validate_trove_change small_trove large_trove half_percent selection
        ≡ err net_debt_below_reserve)
      × (what_changed small_trove large_trove (some half_percent) ≡ err net_debt_below_reserve)
      × IsBlocked small_trove large_trove)
    ⊎ (((v : TroveVerdict) × (validate_trove_change small_trove large_trove half_percent selection
            ≡ ok v))
        × ((o : Option TroveChange) × (what_changed small_trove large_trove (some half_percent)
              ≡ ok o))
        × (¬ IsBlocked small_trove large_trove))
answers_unless-IsBlocked_example =
    answers_unless-IsBlocked small_trove large_trove half_percent selection (omega arith)

abbrev more_collateral : TroveChange
more_collateral =
    adjustment (collateral_only (deposit_collateral (decimal 1_000_000_000_000_000_000))) none

accepted_iff_example :
    (validate_trove_change small_trove large_trove half_percent selection
      ≡ ok (some more_collateral, some (change_description more_collateral)))
    ↔ ((what_changed small_trove large_trove (some half_percent) ≡ ok (some more_collateral))
        × ((c : TroveContext) × (trove_context small_trove more_collateral half_percent selection
              ≡ ok c)
            × IsAllowed more_collateral c))
accepted_iff_example = accepted_iff small_trove large_trove half_percent selection more_collateral

abbrev wallet : DepositSelection
wallet = record {
  debt_token_balance = decimal 900_000_000_000_000_000_000;
  have_own_frontend = false;
  have_undercollateralized_troves = false;
}

abbrev top_up : StabilityDepositChange
top_up = deposit_debt_token (decimal 100_000_000_000_000_000_000)

accepted_deposit_iff_example :
    (validate_stability_deposit_change some_deposit (decimal 200_000_000_000_000_000_000) wallet
      ≡ ok (some top_up, some (stability_action some_deposit top_up)))
    ↔ ((wallet.have_own_frontend ≡ false)
        × (what_changed_deposit some_deposit (decimal 200_000_000_000_000_000_000)
            ≡ ok (some top_up))
        × DepositChangeAllowed top_up wallet)
accepted_deposit_iff_example =
    accepted_deposit_iff some_deposit (decimal 200_000_000_000_000_000_000) wallet top_up
