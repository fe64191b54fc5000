-- ===== src/Validation/Deposits.antt =====
-- `validateStabilityDepositChange`, and what it accepts.
use stablecoin_sdk.Base.{
  ◌≤◌, ◌≡◌, ◌↔◌, ◌∙◌, inl, inr, refl, arith, Bool, true, false, Option, none, some, Bool-cases,
  if◌then◌else◌,
}
use stablecoin_sdk.Base.Result.{Result, ok, sequence_returns, ◌>>=◌}
use stablecoin_sdk.BigNumber.{BigNumber}
use stablecoin_sdk.Decimal.{Decimal, gt, sub}
use stablecoin_sdk.Decimal.Values.{gt-eq, sub-eq}
use stablecoin_sdk.Deposit.{
  StabilityDeposit, StabilityDepositChange, deposit_debt_token, withdraw_debt_token,
  what_changed_deposit,
}
use stablecoin_sdk.StoreState.{BaseState, DerivedState, FrontendStatus, unregistered, registered}

pub data DepositError : Type 0 where
  registered_as_frontend no_withdrawal_while_undercollateralized : DepositError
  deposited_exceeds_balance_by : Decimal → DepositError

-- `StabilityActionDescription` gets the deposit and the change.
pub data DepositDescription : Type 0 where
  deposit_error : DepositError → DepositDescription
  stability_action : StabilityDeposit → StabilityDepositChange → DepositDescription

-- What is used of `StabilityDepositChangeValidationContext`.
pub record DepositSelection : Type 0 where
  pub debt_token_balance : Decimal
  pub have_own_frontend : Bool
  pub have_undercollateralized_troves : Bool

abbrev is_registered : FrontendStatus → Bool
is_registered unregistered = false
is_registered (registered rate) = true

unfoldable pub select_for_stability_deposit_change_validation :
    BaseState → DerivedState → DepositSelection
select_for_stability_deposit_change_validation s d = record {
  debt_token_balance = s.debt_token_balance;
  have_own_frontend = is_registered s.own_frontend;
  have_undercollateralized_troves = d.have_undercollateralized_troves;
}

abbrev pub DepositVerdict : Type 0
DepositVerdict = Option StabilityDepositChange × Option DepositDescription

module _ ⦃bn : BigNumber⦄ where
  -- The checks of a change that there is.
  unfoldable pub check_deposit_change :
      StabilityDeposit → DepositSelection → StabilityDepositChange → Result DepositVerdict
  check_deposit_change deposit c (deposit_debt_token amount) =
      if gt amount c.debt_token_balance
      then (do
        excess ← sub amount c.debt_token_balance
        ok (none, some (deposit_error (deposited_exceeds_balance_by excess))))
      else ok (
        some (deposit_debt_token amount),
        some (stability_action deposit (deposit_debt_token amount)),
      )
  check_deposit_change deposit c (withdraw_debt_token amount all) =
      if c.have_undercollateralized_troves
      then ok (none, some (deposit_error no_withdrawal_while_undercollateralized))
      else ok (
        some (withdraw_debt_token amount all),
        some (stability_action deposit (withdraw_debt_token amount all)),
      )

  abbrev check_if_changed :
      StabilityDeposit → DepositSelection → Option StabilityDepositChange → Result DepositVerdict
  check_if_changed deposit c none = ok (none, none)
  check_if_changed deposit c (some change) = check_deposit_change deposit c change

  -- `validateStabilityDepositChange`.
  unfoldable pub validate_stability_deposit_change :
      StabilityDeposit → Decimal → DepositSelection → Result DepositVerdict
  validate_stability_deposit_change deposit edited c = do
    change ← what_changed_deposit deposit edited
    if c.have_own_frontend
        then ok (none, some (deposit_error registered_as_frontend))
        else check_if_changed deposit c change

  -- What a change demands.
  abbrev pub DepositChangeAllowed : StabilityDepositChange → DepositSelection → Type 0
  DepositChangeAllowed (deposit_debt_token amount) c =
      amount.big_number ≤ c.debt_token_balance.big_number
  DepositChangeAllowed (withdraw_debt_token amount all) c =
      c.have_undercollateralized_troves ≡ false

  accepted_deposit_change :
      (deposit : StabilityDeposit) (c : DepositSelection) (o : Option StabilityDepositChange)
      (change : StabilityDepositChange)
      → (check_if_changed deposit c o ≡ ok (some change, some (stability_action deposit change)))
        ↔ ((o ≡ some change) × DepositChangeAllowed change c)
  unfolding check_deposit_change
  accepted_deposit_change deposit c none change = (λ h. cc, λ (h, _). cc)
  accepted_deposit_change deposit c (some (deposit_debt_token a)) change = (
    λ h. ground (arith, gt-eq a c.debt_token_balance, sub-eq a c.debt_token_balance),
    λ h. ground (arith, gt-eq a c.debt_token_balance, sub-eq a c.debt_token_balance),
  )
  accepted_deposit_change deposit c (some (withdraw_debt_token a all)) change =
      (λ h. ground arith, λ h. ground arith)

  -- A change of a deposit is accepted exactly if the wallet is not registered as a frontend, the change
  -- is the one that `whatChanged` reports, and it deposits at most the balance or withdraws while no trove is
  -- undercollateralized.
  pub accepted_deposit_iff :
      (deposit : StabilityDeposit) (edited : Decimal) (c : DepositSelection)
      (change : StabilityDepositChange)
      → (validate_stability_deposit_change deposit edited c
          ≡ ok (some change, some (stability_action deposit change)))
        ↔ ((c.have_own_frontend ≡ false)
            × (what_changed_deposit deposit edited ≡ ok (some change))
            × DepositChangeAllowed change c)
  unfolding validate_stability_deposit_change
  accepted_deposit_iff deposit edited c change = (
    λ h.
        let (o, reported, rest) = sequence_returns (what_changed_deposit deposit edited) _ h in
        elim (Bool-cases c.have_own_frontend) [
          | inl own ↦ absurd (ground arith)
          | inr other ↦
              let plain : check_if_changed deposit c o
                  ≡ ok (some change, some (stability_action deposit change)) =
                ground arith in
              let (same, allowed) = (accepted_deposit_change deposit c o change).0 plain in
              (other, reported ∙ rw same refl, allowed)
        ],
    λ (other, reported, allowed).
        let checked = (accepted_deposit_change deposit c (some change) change).1 (refl, allowed) in
        ground arith,
  )
