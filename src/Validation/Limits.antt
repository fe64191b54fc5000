-- ===== src/Validation/Limits.antt =====
-- Which changes of a trove the user interface accepts, and that it never fails to answer.
use stablecoin_sdk.Base.{
  ◌≤◌, ◌≡◌, ◌≢◌, ◌↔◌, inl, inr, refl, arith, Bool, true, false, Option, none, some, Bool-cases,
}
use stablecoin_sdk.Base.Result.{Result, ok}
use stablecoin_sdk.BigNumber.{BigNumber}
use stablecoin_sdk.Constants.{
  Environment, minimum_debt, minimum_collateral_ratio, critical_collateral_ratio,
}
use stablecoin_sdk.Decimal.{Decimal}
use stablecoin_sdk.Decimal.Values.{lt-eq, gt-eq, gte-eq, sub-eq}
use stablecoin_sdk.Trove.{
  collateral_ratio, collateral_ratio_is_below_minimum, collateral_ratio_is_below_critical,
  is_openable_in_recovery_mode,
}
use stablecoin_sdk.Trove.Change.{
  TroveCreationParams, TroveClosureParams, TroveAdjustmentParams, collateral_part, debt_part,
  deposit_of, withdrawal_of, borrowing_of, repayment_of,
}
use stablecoin_sdk.Validation.{
  TroveContext, TroveError, validate_trove_creation, validate_trove_adjustment,
  validate_trove_closure, check_repayment, check_recovery_adjustment, refuse_excess, refuse_if,
  missing_to_close, would_trigger_recovery_mode, repayment_exceeds_balance_by,
  deposit_exceeds_balance_by,
}

abbrev pub AtMost : Option Decimal → Decimal → Type 0
AtMost none limit = Unit
AtMost (some a) limit = a.big_number ≤ limit.big_number

module _ ⦃bn : BigNumber⦄ where
  refuse_excess-none_iff :
      (o : Option Decimal) (balance : Decimal) (error : Decimal → TroveError)
      (rest : Result (Option TroveError))
      → (refuse_excess o balance error rest ≡ ok none) ↔ (AtMost o balance × (rest ≡ ok none))
  refuse_excess-none_iff none balance error rest = (λ h. (tt, h), λ (_, h). h)
  refuse_excess-none_iff (some a) balance error rest = (
    λ h. ground (arith, gt-eq a balance, sub-eq a balance),
    λ h. ground (arith, gt-eq a balance, sub-eq a balance),
  )

  -- What each mode demands of a creation.
  abbrev pub CreationMode : Bool → TroveContext → Type 0
  CreationMode true c =
      critical_collateral_ratio.big_number
      ≤ (collateral_ratio c.resulting_trove c.selected.price).big_number
  CreationMode false c =
      (minimum_collateral_ratio.big_number
        ≤ (collateral_ratio c.resulting_trove c.selected.price).big_number)
      × (c.would_trigger_recovery ≡ false)

  abbrev pub RecoveryBorrowing : Option Decimal → TroveContext → Type 0
  RecoveryBorrowing none c = Unit
  RecoveryBorrowing (some b) c =
      (critical_collateral_ratio.big_number
        ≤ (collateral_ratio c.resulting_trove c.selected.price).big_number)
      × ((collateral_ratio c.original_trove c.selected.price).big_number
          ≤ (collateral_ratio c.resulting_trove c.selected.price).big_number)

  -- What each mode demands of an adjustment.
  abbrev pub AdjustmentMode : Bool → TroveAdjustmentParams → TroveContext → Type 0
  AdjustmentMode true p c =
      (withdrawal_of (collateral_part p) ≡ none) × RecoveryBorrowing (borrowing_of (debt_part p)) c
  AdjustmentMode false p c = CreationMode false c

module _ ⦃bn : BigNumber⦄ ⦃env : Environment⦄ where
  abbrev pub RepaymentAllowed : Option Decimal → TroveContext → Type 0
  RepaymentAllowed none c = Unit
  RepaymentAllowed (some r) c =
      (minimum_debt.big_number ≤ c.resulting_trove.debt.big_number)
      × (r.big_number ≤ c.selected.debt_token_balance.big_number)

  abbrev pub CreationAllowed : TroveCreationParams → TroveContext → Type 0
  CreationAllowed p c =
      (env.minimum_net_debt.big_number ≤ p.borrowed.big_number)
      × CreationMode c.recovery_mode c
      × (p.deposited.big_number ≤ c.selected.account_balance.big_number)

  abbrev pub AdjustmentAllowed : TroveAdjustmentParams → TroveContext → Type 0
  AdjustmentAllowed p c =
      AdjustmentMode c.recovery_mode p c
      × RepaymentAllowed (repayment_of (debt_part p)) c
      × AtMost (deposit_of (collateral_part p)) c.selected.account_balance

  abbrev pub ClosureAllowed : TroveClosureParams → TroveContext → Type 0
  ClosureAllowed p c =
      (c.selected.number_of_troves ≢ 1)
      × (c.recovery_mode ≡ false)
      × AtMost p.repaid c.selected.debt_token_balance
      × (c.would_trigger_recovery ≡ false)

  pub creation-none_iff :
      (p : TroveCreationParams) (c : TroveContext)
      → (validate_trove_creation p c ≡ ok none) ↔ CreationAllowed p c
  unfolding validate_trove_creation collateral_ratio_is_below_minimum is_openable_in_recovery_mode
  creation-none_iff p c =
      let ratio = collateral_ratio c.resulting_trove c.selected.price in
      (
        λ h. ground (
          arith,
          lt-eq p.borrowed env.minimum_net_debt,
          gte-eq ratio critical_collateral_ratio,
          lt-eq ratio minimum_collateral_ratio,
          gt-eq p.deposited c.selected.account_balance,
          sub-eq p.deposited c.selected.account_balance,
        ),
        λ h. ground (
          arith,
          lt-eq p.borrowed env.minimum_net_debt,
          gte-eq ratio critical_collateral_ratio,
          lt-eq ratio minimum_collateral_ratio,
          gt-eq p.deposited c.selected.account_balance,
          sub-eq p.deposited c.selected.account_balance,
        ),
      )

  pub closure-none_iff :
      (p : TroveClosureParams) (c : TroveContext)
      → (validate_trove_closure p c ≡ ok none) ↔ ClosureAllowed p c
  unfolding validate_trove_closure
  closure-none_iff p c =
      let balance =
        refuse_excess-none_iff p.repaid c.selected.debt_token_balance missing_to_close
          (refuse_if c.would_trigger_recovery would_trigger_recovery_mode (ok none)) in
      (λ h. ground (arith, balance), λ h. ground (arith, balance))

  check_recovery-none_iff :
      (w b : Option Decimal) (c : TroveContext) (rest : Result (Option TroveError))
      → (check_recovery_adjustment w b c rest ≡ ok none)
        ↔ ((w ≡ none) × RecoveryBorrowing b c × (rest ≡ ok none))
  unfolding collateral_ratio_is_below_critical
  check_recovery-none_iff (some w) b c rest = (λ h. ground arith, λ h. ground arith)
  check_recovery-none_iff none none c rest = (λ h. (refl, tt, h), λ h. h.2)
  check_recovery-none_iff none (some b) c rest =
      let ratio = collateral_ratio c.resulting_trove c.selected.price in
      let ratio' = collateral_ratio c.original_trove c.selected.price in
      (
        λ h. ground (arith, lt-eq ratio critical_collateral_ratio, lt-eq ratio ratio'),
        λ h. ground (arith, lt-eq ratio critical_collateral_ratio, lt-eq ratio ratio'),
      )

  check_repayment-none_iff :
      (r : Option Decimal) (c : TroveContext) (rest : Result (Option TroveError))
      → (check_repayment r c rest ≡ ok none) ↔ (RepaymentAllowed r c × (rest ≡ ok none))
  check_repayment-none_iff none c rest = (λ h. (tt, h), λ h. h.1)
  check_repayment-none_iff (some r) c rest =
      let balance =
        refuse_excess-none_iff (some r) c.selected.debt_token_balance repayment_exceeds_balance_by
          rest in
      (
        λ h. ground (arith, lt-eq c.resulting_trove.debt minimum_debt, balance),
        λ h. ground (arith, lt-eq c.resulting_trove.debt minimum_debt, balance),
      )

  pub adjustment-none_iff :
      (p : TroveAdjustmentParams) (c : TroveContext)
      → (validate_trove_adjustment p c ≡ ok none) ↔ AdjustmentAllowed p c
  unfolding validate_trove_adjustment collateral_ratio_is_below_minimum
  adjustment-none_iff p c =
      let ratio = collateral_ratio c.resulting_trove c.selected.price in
      let last : Result (Option TroveError) =
        refuse_excess (deposit_of (collateral_part p)) c.selected.account_balance
          deposit_exceeds_balance_by (ok none) in
      let balance =
        refuse_excess-none_iff (deposit_of (collateral_part p)) c.selected.account_balance
          deposit_exceeds_balance_by (ok none) in
      let repayment = check_repayment-none_iff (repayment_of (debt_part p)) c last in
      let recovery =
        check_recovery-none_iff (withdrawal_of (collateral_part p)) (borrowing_of (debt_part p)) c
          (check_repayment (repayment_of (debt_part p)) c last) in
      elim (Bool-cases c.recovery_mode) [
        | inl on ↦ (
          λ h. ground (arith, recovery, repayment, balance),
          λ h. ground (arith, recovery, repayment, balance),
        )
        | inr off ↦ (
          λ h. ground (arith, lt-eq ratio minimum_collateral_ratio, repayment, balance),
          λ h. ground (arith, lt-eq ratio minimum_collateral_ratio, repayment, balance),
        )
      ]
