-- ===== src/Trove/Change/Shape.antt =====
-- The parts of an adjustment: what each reports, and what applying it does.
use stablecoin_sdk.Base.{
  ℕ, ◌+◌, ◌-◌, ◌≤◌, ◌≡◌, Option, none, some, ltb, arith, Bool-cases, ◌⊎◌, ◌<◌, inl, inr,
}
use stablecoin_sdk.Base.Result.{ok}
use stablecoin_sdk.BigNumber.{BigNumber}
use stablecoin_sdk.Decimal.{Decimal, decimal, one, zero_decimal}
use stablecoin_sdk.Decimal.Values.{gt-eq, sub-eq, add-eq}
use stablecoin_sdk.Trove.{Trove, trove, add_collateral, add_debt}
use stablecoin_sdk.Trove.Arithmetic.{
  add_trove-eq, subtract-eq, subtract_collateral-eq, subtract_debt-eq,
}
use stablecoin_sdk.Trove.Change.{
  CollateralChange, deposit_collateral, withdraw_collateral, DebtChange, borrow_debt_token,
  repay_debt_token, TroveAdjustmentParams, Zeroed, zero_collateral, zero_debt, collateral_part,
  debt_part, deposit_of, withdrawal_of, borrowing_of, repayment_of, or_zero, fee_of, debt_change,
  collateral_change, apply_adjustment,
}
use stablecoin_sdk.Trove.Change.Fee.{unapply_fee_total, fee_bounds}

-- The collateral after a change of it, and the debt.
abbrev pub moved_collateral : ℕ → Option CollateralChange → ℕ
moved_collateral n c =
    n + (or_zero (deposit_of c)).big_number - (or_zero (withdrawal_of c)).big_number

-- An amount meets the debt of the target: it is no less and at most one unit of 10 ^ -18 more, and it is
-- that debt where the debt does not grow.
pub record DebtLands (t that : Trove) (n : ℕ) : Type 0 where
  pub reaches : that.debt.big_number ≤ n
  pub exceeds_by_one : n ≤ that.debt.big_number + 1
  pub exact_unless_grown : (n ≡ that.debt.big_number) ⊎ (t.debt.big_number < that.debt.big_number)

module _ ⦃bn : BigNumber⦄ where
  abbrev pub moved_debt : Decimal → ℕ → Option DebtChange → ℕ
  moved_debt rate n d =
      n + (fee_of rate (borrowing_of d)).big_number - (or_zero (repayment_of d)).big_number

  abbrev pub moved : Trove → TroveAdjustmentParams → Option Zeroed → Decimal → Trove
  moved t params none rate =
      trove (decimal (moved_collateral t.collateral.big_number (collateral_part params)))
        (decimal (moved_debt rate t.debt.big_number (debt_part params)))
  moved t params (some zero_collateral) rate =
      trove zero_decimal (decimal (moved_debt rate t.debt.big_number (debt_part params)))
  moved t params (some zero_debt) rate =
      trove (decimal (moved_collateral t.collateral.big_number (collateral_part params)))
        zero_decimal

  -- Applying an adjustment never throws: it adds the increases and takes off the decreases, but not below
  -- zero, and zeroes the part that is to be zero.
  pub apply_adjustment-eq :
      (t : Trove) (params : TroveAdjustmentParams) (z : Option Zeroed) (rate : Decimal)
      → apply_adjustment t params z rate ≡ ok (moved t params z rate)
  unfolding apply_adjustment add_collateral add_debt
  apply_adjustment-eq t params none rate = simp (add_trove-eq, subtract-eq)
  apply_adjustment-eq t params (some zero_collateral) rate = simp (add-eq, subtract_debt-eq)
  apply_adjustment-eq t params (some zero_debt) rate = simp (add-eq, subtract_collateral-eq)

  pub collateral_change-moves :
      (t that : Trove)
      → (c : CollateralChange) × (collateral_change t that ≡ ok c)
        × (moved_collateral t.collateral.big_number (some c) ≡ that.collateral.big_number)
  unfolding collateral_change
  collateral_change-moves t that =
      elim (Bool-cases (ltb t.collateral.big_number that.collateral.big_number)) [
        | inl more ↦ (
          deposit_collateral (decimal (that.collateral.big_number - t.collateral.big_number)),
          ground (arith, gt-eq that.collateral t.collateral, sub-eq that.collateral t.collateral),
          ground arith,
        )
        | inr less ↦ (
          withdraw_collateral (decimal (t.collateral.big_number - that.collateral.big_number)),
          ground (arith, gt-eq that.collateral t.collateral, sub-eq t.collateral that.collateral),
          ground arith,
        )
      ]

  pub debt_change-moves :
      (t that : Trove) (rate : Decimal)
      → rate.big_number ≤ one.big_number
      → (d : DebtChange) × (debt_change t that rate ≡ ok d)
        × DebtLands t that (moved_debt rate t.debt.big_number (some d))
  unfolding debt_change
  debt_change-moves t that rate small =
      elim (Bool-cases (ltb t.debt.big_number that.debt.big_number)) [
        | inl more ↦
            let increase = decimal (that.debt.big_number - t.debt.big_number) in
            let (b, found) = unapply_fee_total rate increase in
            let bounds = fee_bounds rate increase small found in
            (
              borrow_debt_token b,
              ground (arith, gt-eq that.debt t.debt, sub-eq that.debt t.debt),
              record {
                reaches = ground arith;
                exceeds_by_one = ground arith;
                exact_unless_grown = ground arith;
              },
            )
        | inr less ↦ (
          repay_debt_token (decimal (t.debt.big_number - that.debt.big_number)),
          ground (arith, gt-eq that.debt t.debt, sub-eq t.debt that.debt),
          record {
            reaches = ground arith;
            exceeds_by_one = ground arith;
            exact_unless_grown = ground arith;
          },
        )
      ]
