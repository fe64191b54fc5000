-- ===== src/Trove/Change/Lands.antt =====
-- How near an adjustment comes to its target.
use stablecoin_sdk.Base.{ℕ, ◌≤◌, ◌≡◌, ◌≢◌, refl, Option, none, some, arith, Bool-cases, inl, inr}
use stablecoin_sdk.Base.Result.{ok}
use stablecoin_sdk.BigNumber.{BigNumber}
use stablecoin_sdk.Decimal.{Decimal, one, eq, zero_of}
use stablecoin_sdk.Decimal.Values.{eq-eq, is_zero-eq}
use stablecoin_sdk.Trove.{Trove}
use stablecoin_sdk.Trove.Change.{
  TroveAdjustmentParams, collateral_only, debt_only, both, Zeroed, zero_collateral, zero_debt,
  adjustment, zeroed_if, or_else, collateral_part, debt_part, what_adjusted,
}
use stablecoin_sdk.Trove.Change.Shape.{
  moved, moved_collateral, moved_debt, collateral_change-moves, DebtLands, debt_change-moves,
}

-- The target is met: the collateral exactly, and the debt as above.
pub record Lands (t that result : Trove) : Type 0 where
  pub same_collateral : result.collateral.big_number ≡ that.collateral.big_number
  pub debt_lands : DebtLands t that result.debt.big_number

-- What is to be zero is zero in the target.
abbrev pub Fits : Option Zeroed → Trove → Type 0
Fits none that = Unit
Fits (some zero_collateral) that = that.collateral.big_number ≡ 0
Fits (some zero_debt) that = that.debt.big_number ≡ 0

-- The parameters mention the collateral only if it differs, and the debt likewise.
abbrev pub MentionsChanges : Trove → Trove → TroveAdjustmentParams → Type 0
MentionsChanges t that (collateral_only c) = t.collateral.big_number ≢ that.collateral.big_number
MentionsChanges t that (debt_only d) = t.debt.big_number ≢ that.debt.big_number
MentionsChanges t that (both c d) =
    (t.collateral.big_number ≢ that.collateral.big_number)
    × (t.debt.big_number ≢ that.debt.big_number)

pub DebtLands-same : (t that : Trove) (n : ℕ) → n ≡ that.debt.big_number → DebtLands t that n
DebtLands-same t that n h = record {
  reaches = omega arith;
  exceeds_by_one = omega arith;
  exact_unless_grown = inl h;
}

module _ ⦃bn : BigNumber⦄ where
  zeroed-Fits_debt : (that : Trove) → Fits (zeroed_if (zero_of that.debt) zero_debt) that
  unfolding zero_of
  zeroed-Fits_debt that = ground (arith, is_zero-eq that.debt)

  zeroed-Fits_collateral :
      (that : Trove) → Fits (zeroed_if (zero_of that.collateral) zero_collateral) that
  unfolding zero_of
  zeroed-Fits_collateral that = ground (arith, is_zero-eq that.collateral)

  zeroed-Fits_either :
      (that : Trove)
      → Fits
          (or_else
            (zeroed_if (zero_of that.debt) zero_debt)
            (zeroed_if (zero_of that.collateral) zero_collateral))
          that
  unfolding zero_of
  zeroed-Fits_either that = ground (arith, is_zero-eq that.debt, is_zero-eq that.collateral)

  -- What the parameters of an adjustment lead to, and that they mention only what changes.
  pub record Moves (t that : Trove) (rate : Decimal) (params : TroveAdjustmentParams) : Type 0 where
    pub moves_collateral :
        moved_collateral t.collateral.big_number (collateral_part params)
        ≡ that.collateral.big_number
    pub moves_debt : DebtLands t that (moved_debt rate t.debt.big_number (debt_part params))
    pub mentions_changes : MentionsChanges t that params

  debts_differ :
      (t that : Trove)
      → t ≢ that
      → t.collateral.big_number ≡ that.collateral.big_number
      → t.debt.big_number ≢ that.debt.big_number
  debts_differ t that ne same same_debt = absurd (ne (ground arith))

  pub moved-Lands :
      (t that : Trove) (params : TroveAdjustmentParams) (z : Option Zeroed) (rate : Decimal)
      → moved_collateral t.collateral.big_number (collateral_part params)
        ≡ that.collateral.big_number
      → DebtLands t that (moved_debt rate t.debt.big_number (debt_part params))
      → Fits z that
      → Lands t that (moved t params z rate)
  moved-Lands t that params none rate hc hd fits = record { same_collateral = hc; debt_lands = hd }
  moved-Lands t that params (some zero_collateral) rate hc hd fits = record {
    same_collateral = omega arith;
    debt_lands = hd;
  }
  moved-Lands t that params (some zero_debt) rate hc hd fits = record {
    same_collateral = hc;
    debt_lands = DebtLands-same t that 0 (omega arith);
  }

  -- The facts about what `whatChanged` reports of two troves that differ and are not empty.
  pub what_adjusted-Moves :
      (t that : Trove) (rate : Decimal)
      → rate.big_number ≤ one.big_number
      → t ≢ that
      → (params : TroveAdjustmentParams) × (z : Option Zeroed) × (what_adjusted t that rate
          ≡ ok (adjustment params z))
        × Moves t that rate params
        × Fits z that
  unfolding what_adjusted
  what_adjusted-Moves t that rate small ne =
      let (d, reported_debt, debt) = debt_change-moves t that rate small in
      let (c, reported_collateral, collateral) = collateral_change-moves t that in
      elim (Bool-cases (eq t.collateral that.collateral)) [
        | inl same ↦
            let same_value : t.collateral.big_number ≡ that.collateral.big_number =
              ground (arith, eq-eq t.collateral that.collateral) in
            (
              debt_only d,
              zeroed_if (zero_of that.debt) zero_debt,
              rw (same, reported_debt) refl,
              record {
                moves_collateral = omega arith;
                moves_debt = debt;
                mentions_changes = debts_differ t that ne same_value;
              },
              zeroed-Fits_debt that,
            )
        | inr differ ↦ elim (Bool-cases (eq t.debt that.debt)) [
          | inl same ↦ (
            collateral_only c,
            zeroed_if (zero_of that.collateral) zero_collateral,
            rw (differ, same, reported_collateral) refl,
            record {
              moves_collateral = collateral;
              moves_debt = DebtLands-same t that _ (ground (arith, eq-eq t.debt that.debt));
              mentions_changes = ground (arith, eq-eq t.collateral that.collateral);
            },
            zeroed-Fits_collateral that,
          )
          | inr neither ↦ (
            both c d,
            or_else (zeroed_if (zero_of that.debt) zero_debt)
                (zeroed_if (zero_of that.collateral) zero_collateral),
            rw (differ, neither, reported_debt, reported_collateral) refl,
            record {
              moves_collateral = collateral;
              moves_debt = debt;
              mentions_changes = (
                ground (arith, eq-eq t.collateral that.collateral),
                ground (arith, eq-eq t.debt that.debt),
              );
            },
            zeroed-Fits_either that,
          )
        ]
      ]

  pub adjusted-Lands :
      (t that : Trove) (rate : Decimal)
      → rate.big_number ≤ one.big_number
      → t ≢ that
      → (params : TroveAdjustmentParams) × (z : Option Zeroed) × (what_adjusted t that rate
          ≡ ok (adjustment params z))
        × Lands t that (moved t params z rate)
  adjusted-Lands t that rate small ne =
      let (params, z, reported, moves, fits) = what_adjusted-Moves t that rate small ne in
      (
        params,
        z,
        reported,
        moved-Lands t that params z rate moves.moves_collateral moves.moves_debt fits,
      )
