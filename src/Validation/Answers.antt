-- ===== src/Validation/Answers.antt =====
-- The check of a change of a trove as a whole: what it accepts, and that it answers.
use stablecoin_sdk.Base.{
  ◌-◌, ◌≤◌, ◌≡◌, ◌≢◌, ◌↔◌, ◌⊎◌, ◌∙◌, inl, inr, refl, arith, true, false, Option, none, some,
}
use stablecoin_sdk.Base.Result.{
  Result, ok, err, net_debt_below_reserve, Failure, Result-cases, sequence_returns,
}
use stablecoin_sdk.BigNumber.{BigNumber}
use stablecoin_sdk.Constants.{Environment}
use stablecoin_sdk.Decimal.{Decimal, decimal, one}
use stablecoin_sdk.Decimal.Values.{gt-eq, sub-eq}
use stablecoin_sdk.Trove.{Trove, trove, add_trove, collateral_ratio_is_below_critical}
use stablecoin_sdk.Trove.Arithmetic.{subtract-eq}
use stablecoin_sdk.Trove.Change.{
  TroveChange, invalid_creation, creation, closure, adjustment, deposit_of, withdrawal_of,
  borrowing_of, repayment_of, collateral_part, debt_part, what_changed, apply,
}
use stablecoin_sdk.Trove.Change.RoundTrip.{IsBlocked, apply-what_changed}
use stablecoin_sdk.Validation.{
  TroveContext, TroveSelection, TroveError, missing_to_close, would_trigger_recovery_mode,
  deposit_exceeds_balance_by, change_description, validate_trove_creation,
  validate_trove_adjustment, validate_trove_closure, check_repayment, check_recovery_adjustment,
  refuse_excess, refuse_if, TroveVerdict, verdict_of, error_of_change, trove_context,
  validate_change, validate_trove_change,
}
use stablecoin_sdk.Validation.Limits.{
  CreationAllowed, ClosureAllowed, AdjustmentAllowed, creation-none_iff, closure-none_iff,
  adjustment-none_iff,
}

module _ ⦃bn : BigNumber⦄ where
  -- What a check throws, the checks after it have thrown.
  refuse_excess_throws :
      (o : Option Decimal) (balance : Decimal) (error : Decimal → TroveError)
      (rest : Result (Option TroveError)) (e : Failure)
      → refuse_excess o balance error rest ≡ err e
      → rest ≡ err e
  refuse_excess_throws none balance error rest e h = h
  refuse_excess_throws (some a) balance error rest e h =
      ground (arith, gt-eq a balance, sub-eq a balance)

module _ ⦃bn : BigNumber⦄ ⦃env : Environment⦄ where
  recovery_adjustment_throws :
      (w b : Option Decimal) (c : TroveContext) (rest : Result (Option TroveError)) (e : Failure)
      → check_recovery_adjustment w b c rest ≡ err e
      → rest ≡ err e
  recovery_adjustment_throws (some w) b c rest e h = absurd (cc h)
  recovery_adjustment_throws none none c rest e h = h
  recovery_adjustment_throws none (some b) c rest e h = ground arith

  repayment_throws :
      (o : Option Decimal) (c : TroveContext) (rest : Result (Option TroveError)) (e : Failure)
      → check_repayment o c rest ≡ err e
      → rest ≡ err e
  repayment_throws none c rest e h = h
  repayment_throws (some a) c rest e h =
      ground (arith, gt-eq a c.selected.debt_token_balance, sub-eq a c.selected.debt_token_balance)

  never_throws :
      (change : TroveChange) (c : TroveContext) (e : Failure) → error_of_change change c ≢ err e
  unfolding error_of_change validate_trove_creation validate_trove_closure validate_trove_adjustment
  never_throws (invalid_creation t x) c e h = cc h
  never_throws (creation p) c e h = ground (
    arith,
    gt-eq p.deposited c.selected.account_balance,
    sub-eq p.deposited c.selected.account_balance,
  )
  never_throws (closure p) c e h = ground (
    arith,
    refuse_excess_throws p.repaid c.selected.debt_token_balance missing_to_close
        (refuse_if c.would_trigger_recovery would_trigger_recovery_mode (ok none)) e,
  )
  never_throws (adjustment p z) c e h =
      let last : Result (Option TroveError) =
        refuse_excess (deposit_of (collateral_part p)) c.selected.account_balance
          deposit_exceeds_balance_by (ok none) in
      let checks = check_repayment (repayment_of (debt_part p)) c last in
      ground (
        arith,
        refuse_excess_throws (deposit_of (collateral_part p)) c.selected.account_balance
            deposit_exceeds_balance_by (ok none) e,
        repayment_throws (repayment_of (debt_part p)) c last e,
        recovery_adjustment_throws (withdrawal_of (collateral_part p)) (borrowing_of (debt_part p))
            c checks e,
      )

  -- The limits within which a change is allowed, by its type.
  abbrev pub IsAllowed : TroveChange → TroveContext → Type 0
  IsAllowed (invalid_creation t e) c = true ≡ false
  IsAllowed (creation p) c = CreationAllowed p c
  IsAllowed (closure p) c = ClosureAllowed p c
  IsAllowed (adjustment p z) c = AdjustmentAllowed p c

  error-none_iff :
      (change : TroveChange) (c : TroveContext)
      → (error_of_change change c ≡ ok none) ↔ IsAllowed change c
  unfolding error_of_change
  error-none_iff (invalid_creation t e) c = (λ h. cc, λ h. cc)
  error-none_iff (creation p) c = creation-none_iff p c
  error-none_iff (closure p) c = closure-none_iff p c
  error-none_iff (adjustment p z) c = adjustment-none_iff p c

  abbrev Accepted : TroveChange → TroveVerdict
  Accepted change = (some change, some (change_description change))

  -- What an accepted answer comes from.
  accepted_change :
      (t : Trove) (rate : Decimal) (selected : TroveSelection) (o : Option TroveChange)
      (change : TroveChange)
      → validate_change t rate selected o ≡ ok (Accepted change)
      → (o ≡ some change)
        × ((c : TroveContext) × (trove_context t change rate selected ≡ ok c) × IsAllowed change c)
  unfolding validate_change
  accepted_change t rate selected none change h = absurd (cc h)
  accepted_change t rate selected (some found) change h =
      let (c, context, rest) = sequence_returns (trove_context t found rate selected) _ h in
      let (e, checked, last) = sequence_returns (error_of_change found c) _ rest in
      go c e context checked last
    where
      go :
          (c : TroveContext) (e : Option TroveError)
          → trove_context t found rate selected ≡ ok c
          → error_of_change found c ≡ ok e
          → Path (Result TroveVerdict) (ok (verdict_of found e)) (ok (Accepted change))
          → (some found ≡ some change)
            × ((c : TroveContext) × (trove_context t change rate selected ≡ ok c)
                × IsAllowed change c)
      go c (some e) context checked last = absurd (cc last)
      go c none context checked last =
          let same : found ≡ change = cc in
          rw (← same) (refl, (c, context, (error-none_iff found c).0 checked))

  -- A change is accepted exactly if it is the one that `whatChanged` reports, its result can be computed
  -- and it is within the limits for its type and mode. A creation borrows the minimum, an adjustment that
  -- repays leaves the minimum debt, and a closure leaves another trove, is not made in recovery mode and does
  -- not trigger it. In normal mode a creation and an adjustment leave the trove at the minimum ratio and do
  -- not trigger recovery mode; in recovery mode a creation reaches the critical ratio, and an adjustment
  -- withdraws nothing and, if it borrows, reaches the critical ratio and does not lower the ratio. What is
  -- paid in is at most the balance.
  pub accepted_iff :
      (t that : Trove) (rate : Decimal) (selected : TroveSelection) (change : TroveChange)
      → (validate_trove_change t that rate selected
          ≡ ok (some change, some (change_description change)))
        ↔ ((what_changed t that (some rate) ≡ ok (some change))
            × ((c : TroveContext) × (trove_context t change rate selected ≡ ok c)
                × IsAllowed change c))
  unfolding validate_trove_change validate_change
  accepted_iff t that rate selected change = (
    λ h.
        let (o, reported, rest) = sequence_returns (what_changed t that (some rate)) _ h in
        let (same, allowed) = accepted_change t rate selected o change rest in
        (reported ∙ rw same refl, allowed),
    λ (reported, (c, context, allowed)).
        rw (reported, context, (error-none_iff change c).1 allowed) refl,
  )

  context_returns :
      (t : Trove) (change : TroveChange) (rate : Decimal) (selected : TroveSelection) (r : Trove)
      → apply t (some change) (some rate) ≡ ok r
      → (c : TroveContext) × (trove_context t change rate selected ≡ ok c)
  unfolding trove_context
  context_returns t change rate selected r applied =
      let others =
        trove (decimal (selected.total.collateral.big_number - t.collateral.big_number))
          (decimal (selected.total.debt.big_number - t.debt.big_number)) in
      (
        record {
          selected = selected;
          original_trove = t;
          resulting_trove = r;
          recovery_mode = collateral_ratio_is_below_critical selected.total selected.price;
          would_trigger_recovery =
              collateral_ratio_is_below_critical (add_trove others r) selected.price;
        },
        rw (applied, subtract-eq selected.total t) refl,
      )

  change_is_answered :
      (t : Trove) (rate : Decimal) (selected : TroveSelection) (o : Option TroveChange) (r : Trove)
      → apply t o (some rate) ≡ ok r
      → (v : TroveVerdict) × (validate_change t rate selected o ≡ ok v)
  unfolding validate_change
  change_is_answered t rate selected none r applied = ((none, none), refl)
  change_is_answered t rate selected (some change) r applied =
      let (c, context) = context_returns t change rate selected r applied in
      elim (Result-cases (error_of_change change c)) [
        | inl (e, checked) ↦ (verdict_of change e, rw (context, checked) refl)
        | inr (e, thrown) ↦ absurd (never_throws change c e thrown)
      ]

  -- For a borrowing rate of at most one the check throws exactly where `whatChanged` does, where a trove
  -- whose debt is below the liquidation reserve is to be closed. Otherwise it gives an answer: none of its
  -- subtractions goes below zero.
  pub answers_unless-IsBlocked :
      (t that : Trove) (rate : Decimal) (selected : TroveSelection)
      → rate.big_number ≤ one.big_number
      → ((validate_trove_change t that rate selected ≡ err net_debt_below_reserve)
          × (what_changed t that (some rate) ≡ err net_debt_below_reserve)
          × IsBlocked t that)
        ⊎ (((v : TroveVerdict) × (validate_trove_change t that rate selected ≡ ok v))
            × ((o : Option TroveChange) × (what_changed t that (some rate) ≡ ok o))
            × (¬ IsBlocked t that))
  unfolding validate_trove_change
  answers_unless-IsBlocked t that rate selected small =
      elim (apply-what_changed t that (some rate) small) [
        | inl (thrown, blocked) ↦ inl (rw thrown refl, thrown, blocked)
        | inr ((change, result, reported, applied, _, _), free) ↦
            let (v, answered) = change_is_answered t rate selected change result applied in
            inr ((v, rw reported answered), (change, reported), free)
      ]
