-- ===== src/Validation.antt =====
-- The checks that the user interface makes before it offers a transaction:
-- packages/dev-frontend/src/components/Trove/validation/validateTroveChange.tsx and
-- packages/dev-frontend/src/components/Stability/validation/validateStabilityDepositChange.tsx. An
-- element to show stands as a value that says which it is, with the amounts in it.
pub mod Limits
pub mod Answers
pub mod Deposits
use stablecoin_sdk.Base.{ℕ, Bool, not, Option, none, some, ◌==◌, if◌then◌else◌}
use stablecoin_sdk.Base.Result.{Result, ok, err, ◌>>=◌}
use stablecoin_sdk.BigNumber.{BigNumber}
use stablecoin_sdk.Constants.{Environment, minimum_debt}
use stablecoin_sdk.Decimal.{Decimal, lt, gt, sub}
use stablecoin_sdk.StoreState.{BaseState}
use stablecoin_sdk.Trove.{
  Trove, collateral_ratio, collateral_ratio_is_below_minimum, collateral_ratio_is_below_critical,
  is_openable_in_recovery_mode, add_trove, subtract,
}
use stablecoin_sdk.Trove.Change.{
  TroveCreationParams, TroveClosureParams, TroveAdjustmentParams, TroveChange, invalid_creation,
  creation, closure, adjustment, collateral_part, debt_part, deposit_of, withdrawal_of,
  borrowing_of, repayment_of, what_changed, apply,
}

-- The elements of class `ErrorDescription`.
pub data TroveError : Type 0 where
  total_debt_too_small borrowed_too_little not_openable_in_recovery_mode : TroveError
  ratio_below_minimum would_trigger_recovery_mode : TroveError
  no_withdrawal_in_recovery_mode ratio_below_critical ratio_decreased : TroveError
  last_trove no_closure_in_recovery_mode : TroveError
  deposit_exceeds_balance_by repayment_exceeds_balance_by missing_to_close : Decimal → TroveError

-- What is shown: an error, or the description of the change.
pub data TroveDescription : Type 0 where
  error_description : TroveError → TroveDescription
  change_description : TroveChange → TroveDescription

-- `TroveChangeValidationSelectedState`.
pub record TroveSelection : Type 0 where
  pub price : Decimal
  pub total : Trove
  pub account_balance : Decimal
  pub debt_token_balance : Decimal
  pub number_of_troves : ℕ

unfoldable pub select_for_trove_change_validation : BaseState → TroveSelection
select_for_trove_change_validation s = record {
  price = s.price;
  total = s.total;
  account_balance = s.account_balance;
  debt_token_balance = s.debt_token_balance;
  number_of_troves = s.number_of_troves;
}

-- `TroveChangeValidationContext`.
pub record TroveContext : Type 0 where
  pub selected : TroveSelection
  pub original_trove : Trove
  pub resulting_trove : Trove
  pub recovery_mode : Bool
  pub would_trigger_recovery : Bool

-- `return error` where the test holds, and what follows otherwise.
abbrev pub refuse_if : Bool → TroveError → Result (Option TroveError) → Result (Option TroveError)
refuse_if test error rest = if test then ok (some error) else rest

module _ ⦃bn : BigNumber⦄ where
  -- An amount that exceeds a balance: `a?.gt(b)`, with the excess `a.sub(b)` in the error.
  abbrev pub refuse_excess :
      Option Decimal
      → Decimal
      → (Decimal → TroveError)
      → Result (Option TroveError)
      → Result (Option TroveError)
  refuse_excess none balance error rest = rest
  refuse_excess (some amount) balance error rest =
      if gt amount balance then (do excess ← sub amount balance; ok (some (error excess))) else rest

module _ ⦃bn : BigNumber⦄ ⦃env : Environment⦄ where
  unfoldable pub validate_trove_creation :
      TroveCreationParams → TroveContext → Result (Option TroveError)
  validate_trove_creation p c = refuse_if (lt p.borrowed env.minimum_net_debt) borrowed_too_little (
      let balance =
        refuse_excess (some p.deposited) c.selected.account_balance deposit_exceeds_balance_by
          (ok none) in
      if c.recovery_mode
      then refuse_if (not (is_openable_in_recovery_mode c.resulting_trove c.selected.price))
          not_openable_in_recovery_mode balance
      else refuse_if (collateral_ratio_is_below_minimum c.resulting_trove c.selected.price)
          ratio_below_minimum
          (refuse_if c.would_trigger_recovery would_trigger_recovery_mode balance))

  -- The checks of an adjustment in recovery mode, before `rest`.
  abbrev pub check_recovery_adjustment :
      Option Decimal
      → Option Decimal
      → TroveContext
      → Result (Option TroveError)
      → Result (Option TroveError)
  check_recovery_adjustment (some w) borrowed c rest = ok (some no_withdrawal_in_recovery_mode)
  check_recovery_adjustment none none c rest = rest
  check_recovery_adjustment none (some b) c rest =
      refuse_if (collateral_ratio_is_below_critical c.resulting_trove c.selected.price)
        ratio_below_critical
        (refuse_if
          (lt (collateral_ratio c.resulting_trove c.selected.price)
            (collateral_ratio c.original_trove c.selected.price))
          ratio_decreased rest)

  abbrev pub check_repayment :
      Option Decimal → TroveContext → Result (Option TroveError) → Result (Option TroveError)
  check_repayment none c rest = rest
  check_repayment (some r) c rest =
      refuse_if (lt c.resulting_trove.debt minimum_debt) total_debt_too_small
        (refuse_excess (some r) c.selected.debt_token_balance repayment_exceeds_balance_by rest)

  unfoldable pub validate_trove_adjustment :
      TroveAdjustmentParams → TroveContext → Result (Option TroveError)
  validate_trove_adjustment p c =
      let rest = check_repayment (repayment_of (debt_part p)) c (
        refuse_excess (deposit_of (collateral_part p)) c.selected.account_balance
          deposit_exceeds_balance_by (ok none)) in
      if c.recovery_mode
      then check_recovery_adjustment (withdrawal_of (collateral_part p))
          (borrowing_of (debt_part p)) c rest
      else refuse_if (collateral_ratio_is_below_minimum c.resulting_trove c.selected.price)
          ratio_below_minimum (refuse_if c.would_trigger_recovery would_trigger_recovery_mode rest)

  unfoldable pub validate_trove_closure :
      TroveClosureParams → TroveContext → Result (Option TroveError)
  validate_trove_closure p c = refuse_if (c.selected.number_of_troves == 1) last_trove (
      refuse_if c.recovery_mode no_closure_in_recovery_mode (
        refuse_excess p.repaid c.selected.debt_token_balance missing_to_close
          (refuse_if c.would_trigger_recovery would_trigger_recovery_mode (ok none))))

  -- The error, if any, of a change.
  unfoldable pub error_of_change : TroveChange → TroveContext → Result (Option TroveError)
  error_of_change (invalid_creation t e) c = ok (some total_debt_too_small)
  error_of_change (creation p) c = validate_trove_creation p c
  error_of_change (closure p) c = validate_trove_closure p c
  error_of_change (adjustment p z) c = validate_trove_adjustment p c

  abbrev pub TroveVerdict : Type 0
  TroveVerdict = Option TroveChange × Option TroveDescription

  abbrev pub verdict_of : TroveChange → Option TroveError → TroveVerdict
  verdict_of change none = (some change, some (change_description change))
  verdict_of change (some e) = (none, some (error_description e))

  unfoldable pub trove_context :
      Trove → TroveChange → Decimal → TroveSelection → Result TroveContext
  trove_context t change rate selected = do
    resulting ← apply t (some change) (some rate)
    others ← subtract selected.total t
    ok (record {
      selected = selected;
      original_trove = t;
      resulting_trove = resulting;
      recovery_mode = collateral_ratio_is_below_critical selected.total selected.price;
      would_trigger_recovery =
          collateral_ratio_is_below_critical (add_trove others resulting) selected.price;
    })

  unfoldable pub validate_change :
      Trove → Decimal → TroveSelection → Option TroveChange → Result TroveVerdict
  validate_change t rate selected none = ok (none, none)
  validate_change t rate selected (some change) = do
    context ← trove_context t change rate selected
    error ← error_of_change change context
    ok (verdict_of change error)

  -- `validateTroveChange`.
  unfoldable pub validate_trove_change :
      Trove → Trove → Decimal → TroveSelection → Result TroveVerdict
  validate_trove_change t that rate selected = do
    change ← what_changed t that (some rate)
    validate_change t rate selected change
