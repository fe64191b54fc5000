-- ===== src/Trove/Params/Adjusted.antt =====
-- `Trove.adjust` with the parameters that `Trove.adjustTo` gives.
use Prim.Native.String.{String}
use stablecoin_sdk.Base.{ℕ, ◌*◌, ◌≤◌, ◌≡◌, ◌≢◌, ◌∙◌, refl, arith, Option, none, some, [], ◌∷◌}
use stablecoin_sdk.Base.Result.{ok}
use stablecoin_sdk.BigNumber.{BigNumber}
use stablecoin_sdk.Constants.{Environment}
use stablecoin_sdk.Decimal.{Decimal, one, add}
use stablecoin_sdk.Decimal.Rounding.{mul_rounds_down}
use stablecoin_sdk.Trove.{Trove, empty_trove}
use stablecoin_sdk.Trove.Change.{
  CollateralChange, deposit_collateral, withdraw_collateral, DebtChange, borrow_debt_token,
  repay_debt_token, TroveAdjustmentParams, collateral_only, debt_only, both, adjustment,
  rate_or_default, apply_fee, apply, what_changed,
}
use stablecoin_sdk.Trove.Change.Shape.{
  moved, moved_collateral, moved_debt, apply_adjustment-eq, DebtLands,
}
use stablecoin_sdk.Trove.Change.Lands.{Lands, Moves, moved-Lands, what_adjusted-Moves}
use stablecoin_sdk.Trove.Change.RoundTrip.{differ-cases, not_empty}
use stablecoin_sdk.Trove.Params.{
  Entries, includes, normalize_trove_adjustment, adjust, adjust_to, allowed_trove_adjustment_keys,
}
use stablecoin_sdk.Trove.Params.Normal.{HasKeysIn, Gives, amount, normalize_trove_adjustment_iff}

abbrev collateral_entry : CollateralChange → String × Option Decimal
collateral_entry (deposit_collateral d) = ("depositCollateral", some d)
collateral_entry (withdraw_collateral d) = ("withdrawCollateral", some d)

abbrev debt_entry : DebtChange → String × Option Decimal
debt_entry (borrow_debt_token d) = ("borrowDebtToken", some d)
debt_entry (repay_debt_token d) = ("repayDebtToken", some d)

-- The parameters of an adjustment as the entries of an object.
abbrev pub adjustment_entries : TroveAdjustmentParams → Entries
adjustment_entries (collateral_only c) = collateral_entry c ∷ []
adjustment_entries (debt_only d) = debt_entry d ∷ []
adjustment_entries (both c d) = debt_entry d ∷ collateral_entry c ∷ []

abbrev CollateralIsNonZero : CollateralChange → Type 0
CollateralIsNonZero (deposit_collateral d) = d.big_number ≢ 0
CollateralIsNonZero (withdraw_collateral d) = d.big_number ≢ 0

abbrev DebtIsNonZero : DebtChange → Type 0
DebtIsNonZero (borrow_debt_token d) = d.big_number ≢ 0
DebtIsNonZero (repay_debt_token d) = d.big_number ≢ 0

abbrev IsNonZero : TroveAdjustmentParams → Type 0
IsNonZero (collateral_only c) = CollateralIsNonZero c
IsNonZero (debt_only d) = DebtIsNonZero d
IsNonZero (both c d) = CollateralIsNonZero c × DebtIsNonZero d

adjustment_keys :
    (p : TroveAdjustmentParams) → HasKeysIn allowed_trove_adjustment_keys (adjustment_entries p)
unfolding includes
adjustment_keys (collateral_only (deposit_collateral x)) = (refl, tt)
adjustment_keys (collateral_only (withdraw_collateral x)) = (refl, tt)
adjustment_keys (debt_only (borrow_debt_token x)) = (refl, tt)
adjustment_keys (debt_only (repay_debt_token x)) = (refl, tt)
adjustment_keys (both (deposit_collateral x) (borrow_debt_token y)) = (refl, (refl, tt))
adjustment_keys (both (deposit_collateral x) (repay_debt_token y)) = (refl, (refl, tt))
adjustment_keys (both (withdraw_collateral x) (borrow_debt_token y)) = (refl, (refl, tt))
adjustment_keys (both (withdraw_collateral x) (repay_debt_token y)) = (refl, (refl, tt))

abbrev GivesItself : TroveAdjustmentParams → Type 0
GivesItself p =
    Gives p (amount "depositCollateral" (adjustment_entries p))
      (amount "withdrawCollateral" (adjustment_entries p))
      (amount "borrowDebtToken" (adjustment_entries p))
      (amount "repayDebtToken" (adjustment_entries p))

adjustment_amounts : (p : TroveAdjustmentParams) → IsNonZero p → GivesItself p
adjustment_amounts (collateral_only (deposit_collateral x)) h = ground arith
adjustment_amounts (collateral_only (withdraw_collateral x)) h = ground arith
adjustment_amounts (debt_only (borrow_debt_token x)) h = ground arith
adjustment_amounts (debt_only (repay_debt_token x)) h = ground arith
adjustment_amounts (both (deposit_collateral x) (borrow_debt_token y)) h = ground arith
adjustment_amounts (both (deposit_collateral x) (repay_debt_token y)) h = ground arith
adjustment_amounts (both (withdraw_collateral x) (borrow_debt_token y)) h = ground arith
adjustment_amounts (both (withdraw_collateral x) (repay_debt_token y)) h = ground arith

collateral_moves_some :
    (n m : ℕ) (c : CollateralChange)
    → moved_collateral n (some c) ≡ m
    → n ≢ m
    → CollateralIsNonZero c
collateral_moves_some n m (deposit_collateral d) moves ne = λ nothing. ne (omega arith)
collateral_moves_some n m (withdraw_collateral d) moves ne = λ nothing. ne (omega arith)

module _ ⦃bn : BigNumber⦄ where
  fee_of_nothing : (rate b : Decimal) → b.big_number ≡ 0 → (apply_fee rate b).big_number ≡ 0
  unfolding apply_fee
  fee_of_nothing rate b z =
      let exact = (mul_rounds_down b (add one rate)).0 in
      let nothing : b.big_number * (add one rate).big_number ≡ 0 = grind arith in omega arith

  debt_moves_some :
      (t that : Trove) (rate : Decimal) (d : DebtChange)
      → DebtLands t that (moved_debt rate t.debt.big_number (some d))
      → t.debt.big_number ≢ that.debt.big_number
      → DebtIsNonZero d
  debt_moves_some t that rate (borrow_debt_token b) lands ne = λ nothing.
      let free = fee_of_nothing rate b nothing in
      let reached : that.debt.big_number ≤ t.debt.big_number =
        let plain = rw free at lands.reaches in omega arith in
      let exact = rw free at lands.exact_unless_grown in ne (ground arith)
  debt_moves_some t that rate (repay_debt_token r) lands ne =
      λ nothing. ne (ground (arith, lands.reaches, lands.exact_unless_grown))

  Moves-IsNonZero :
      (t that : Trove) (rate : Decimal) (p : TroveAdjustmentParams)
      → Moves t that rate p
      → IsNonZero p
  Moves-IsNonZero t that rate (collateral_only c) moves =
      collateral_moves_some _ _ c moves.moves_collateral moves.mentions_changes
  Moves-IsNonZero t that rate (debt_only d) moves =
      debt_moves_some t that rate d moves.moves_debt moves.mentions_changes
  Moves-IsNonZero t that rate (both c d) moves = (
    collateral_moves_some _ _ c moves.moves_collateral moves.mentions_changes.0,
    debt_moves_some t that rate d moves.moves_debt moves.mentions_changes.1,
  )

  normalize_adjustment_entries :
      (p : TroveAdjustmentParams)
      → IsNonZero p
      → normalize_trove_adjustment (adjustment_entries p) ≡ ok p
  normalize_adjustment_entries p nonzero =
      (normalize_trove_adjustment_iff (adjustment_entries p) p).1
        (adjustment_keys p, adjustment_amounts p nonzero)

module _ ⦃bn : BigNumber⦄ ⦃env : Environment⦄ where
  -- For two different troves that are not empty and a borrowing rate of at most one, `adjustTo` returns
  -- parameters with which `adjust` makes a trove that meets the target: with its collateral, and with its debt
  -- or, where the debt grows, at most one unit of 10 ^ -18 more.
  pub adjust-adjust_to :
      (t that : Trove) (rate : Option Decimal)
      → (rate_or_default rate).big_number ≤ one.big_number
      → t ≢ that
      → t ≢ empty_trove
      → that ≢ empty_trove
      → (p : TroveAdjustmentParams) × (result : Trove) × (adjust_to t that rate ≡ ok p)
        × (adjust t (adjustment_entries p) rate ≡ ok result)
        × Lands t that result
  unfolding adjust adjust_to apply
  adjust-adjust_to t that rate small ne full full' =
      let (p, z, reported, moves, fits) =
        what_adjusted-Moves t that (rate_or_default rate) small ne in
      let changed : what_changed t that rate ≡ ok (some (adjustment p z)) =
        differ-cases t that rate ne ∙ rw (not_empty t full, not_empty that full', reported) refl in
      (
        p,
        moved t p none (rate_or_default rate),
        rw changed refl,
        rw (normalize_adjustment_entries p (Moves-IsNonZero t that (rate_or_default rate) p moves))
            (apply_adjustment-eq t p none (rate_or_default rate)),
        moved-Lands t that p none (rate_or_default rate) moves.moves_collateral moves.moves_debt tt,
      )
