-- ===== src/Trove/Change/RoundTrip.antt =====
-- `apply` after `whatChanged`: when they return, and how near the result is to the target.
use stablecoin_sdk.Base.{
  ◌-◌, ◌≤◌, ◌<◌, ◌≡◌, ◌≢◌, ◌↔◌, refl, true, false, Option, none, some, leb, arith, if◌then◌else◌,
  Bool-cases, le→leb, ◌⊎◌, inl, inr, ◌∙◌, ap,
}
use stablecoin_sdk.Base.Result.{Result, ok, err, net_debt_below_reserve, ◌>>=◌}
use stablecoin_sdk.BigNumber.{BigNumber}
use stablecoin_sdk.Constants.{Environment}
use stablecoin_sdk.Decimal.{Decimal, decimal, one, add, lt, non_zero}
use stablecoin_sdk.Decimal.Values.{lt-eq, add-eq}
use stablecoin_sdk.Trove.{Trove, trove, empty_trove, is_empty, equals_trove}
use stablecoin_sdk.Trove.Arithmetic.{is_empty_iff, equals_trove_iff, net_debt-eq}
use stablecoin_sdk.Trove.Change.{
  TroveCreationParams, TroveChange, invalid_creation, creation, closure, adjustment,
  missing_liquidation_reserve, rate_or_default, apply_fee, unapply_fee, what_adjusted, what_created,
  what_closed, what_changed, apply,
}
use stablecoin_sdk.Trove.Change.Fee.{unapply_fee_total, fee_bounds, fee_zero}
use stablecoin_sdk.Trove.Change.Shape.{moved, apply_adjustment-eq, DebtLands}
use stablecoin_sdk.Trove.Change.Lands.{Lands, DebtLands-same, adjusted-Lands}

module _ ⦃bn : BigNumber⦄ ⦃env : Environment⦄ where
  pub empty_is_empty : is_empty empty_trove ≡ true
  empty_is_empty = (is_empty_iff empty_trove).1 refl

  pub not_empty : (t : Trove) → t ≢ empty_trove → is_empty t ≡ false
  not_empty t ne = ground (arith, (is_empty_iff t).0)

  -- The debt of a created trove.
  created_debt :
      (that : Trove) (rate b : Decimal)
      → rate.big_number ≤ one.big_number
      → env.liquidation_reserve.big_number ≤ that.debt.big_number
      → unapply_fee rate (decimal (that.debt.big_number - env.liquidation_reserve.big_number))
        ≡ ok b
      → DebtLands empty_trove that (add env.liquidation_reserve (apply_fee rate b)).big_number
  created_debt that rate b small enough found =
      let bounds = fee_bounds rate _ small found in
      let value = add-eq env.liquidation_reserve (apply_fee rate b) in
      rw value (record {
        reaches = omega arith;
        exceeds_by_one = omega arith;
        exact_unless_grown = ground (arith, fee_zero rate _ found);
      })

  -- What a report and its application lead to.
  abbrev pub Outcome : Trove → Trove → Option Decimal → Result TroveChange → Type 0
  Outcome t that rate reported =
      (change : TroveChange) × (result : Trove) × (reported ≡ ok change)
      × (apply t (some change) rate ≡ ok result)
      × Lands t that result

  -- A target whose debt covers the reserve is reported as a creation.
  pub created_params :
      (that : Trove) (rate : Option Decimal)
      → (rate_or_default rate).big_number ≤ one.big_number
      → env.liquidation_reserve.big_number ≤ that.debt.big_number
      → (p : TroveCreationParams) × (result : Trove) × (what_created that (rate_or_default rate)
          ≡ ok (creation p))
        × (apply empty_trove (some (creation p)) rate ≡ ok result)
        × Lands empty_trove that result
  unfolding what_created apply
  created_params that rate small le =
      let net = decimal (that.debt.big_number - env.liquidation_reserve.big_number) in
      let (b, found) = unapply_fee_total (rate_or_default rate) net in
      let enough : lt that.debt env.liquidation_reserve ≡ false =
        ground (arith, lt-eq that.debt env.liquidation_reserve) in
      (
        record { deposited = that.collateral; borrowed = b },
        trove that.collateral (add env.liquidation_reserve (apply_fee (rate_or_default rate) b)),
        rw (enough, net_debt-eq that, le→leb _ _ le, found) refl,
        rw empty_is_empty refl,
        record {
          same_collateral = refl;
          debt_lands = created_debt that (rate_or_default rate) b small le found;
        },
      )

  created_lands :
      (that : Trove) (rate : Option Decimal)
      → (rate_or_default rate).big_number ≤ one.big_number
      → Outcome empty_trove that rate (what_created that (rate_or_default rate))
  unfolding what_created apply
  created_lands that rate small = elim (Bool-cases (lt that.debt env.liquidation_reserve)) [
    | inl missing ↦ (
      invalid_creation that missing_liquidation_reserve,
      that,
      rw missing refl,
      rw empty_is_empty refl,
      record { same_collateral = refl; debt_lands = DebtLands-same empty_trove that _ refl },
    )
    | inr enough ↦
        let le : env.liquidation_reserve.big_number ≤ that.debt.big_number =
          ground (arith, lt-eq that.debt env.liquidation_reserve) in
        let (p, result, reported, applied, lands) = created_params that rate small le in
        (creation p, result, reported, applied, lands)
  ]

  closed_lands :
      (t : Trove) (rate : Option Decimal)
      → t ≢ empty_trove
      → (env.liquidation_reserve.big_number ≤ t.debt.big_number)
      → Outcome t empty_trove rate (what_closed t)
  unfolding what_closed apply
  closed_lands t rate ne le = (
    closure (record {
      withdrawn = t.collateral;
      repaid = non_zero (decimal (t.debt.big_number - env.liquidation_reserve.big_number));
    }),
    empty_trove,
    rw (net_debt-eq t, le→leb _ _ le) refl,
    rw (not_empty t ne) refl,
    record { same_collateral = refl; debt_lands = DebtLands-same t empty_trove 0 refl },
  )

  adjusted_Outcome :
      (t that : Trove) (rate : Option Decimal)
      → (rate_or_default rate).big_number ≤ one.big_number
      → t ≢ that
      → Outcome t that rate (what_adjusted t that (rate_or_default rate))
  unfolding apply
  adjusted_Outcome t that rate small ne =
      let (params, z, reported, lands) = adjusted-Lands t that (rate_or_default rate) small ne in
      (
        adjustment params z,
        moved t params z (rate_or_default rate),
        reported,
        apply_adjustment-eq t params z (rate_or_default rate),
        lands,
      )

  -- A trove with debt below the reserve is to be closed.
  abbrev pub IsBlocked : Trove → Trove → Type 0
  IsBlocked t that =
      (t ≢ empty_trove)
      × (that ≡ empty_trove)
      × (t.debt.big_number < env.liquidation_reserve.big_number)

  -- Both functions return, and the target is met.
  abbrev pub IsMet : Trove → Trove → Option Decimal → Type 0
  IsMet t that rate =
      (change : Option TroveChange) × (result : Trove) × (what_changed t that rate ≡ ok change)
      × (apply t change rate ≡ ok result)
      × Lands t that result
      × ((change ≡ none) ↔ (t ≡ that))

  same_case :
      (t that : Trove) (rate : Option Decimal) → t ≡ that → what_changed t that rate ≡ ok none
  unfolding what_changed equals_trove
  same_case t that rate e = ground (arith, (equals_trove_iff t that).1)

  unchanged_IsMet : (t that : Trove) (rate : Option Decimal) → t ≡ that → IsMet t that rate
  unfolding apply
  unchanged_IsMet t that rate e = (
    none,
    t,
    same_case t that rate e,
    refl,
    record {
      same_collateral = ap (λ (u : Trove). u.collateral.big_number) e;
      debt_lands = DebtLands-same t that _ (ap (λ (u : Trove). u.debt.big_number) e);
    },
    (λ _. e, λ _. refl),
  )

  Outcome-IsMet :
      (t that : Trove) (rate : Option Decimal) (reported : Result TroveChange)
      → t ≢ that
      → what_changed t that rate ≡ (do change ← reported; ok (some change))
      → Outcome t that rate reported
      → IsMet t that rate
  Outcome-IsMet t that rate reported ne e (change, result, returned, applied, lands) =
      (some change, result, e ∙ rw returned refl, applied, lands, (λ h. cc, λ h. absurd (ne h)))

  -- What `whatChanged` does with two troves that differ.
  pub differ-cases :
      (t that : Trove) (rate : Option Decimal)
      → t ≢ that
      → what_changed t that rate ≡ (do
        change ←
            (if is_empty t
              then what_created that (rate_or_default rate)
              else (if is_empty that
                  then what_closed t
                  else what_adjusted t that (rate_or_default rate)))
        ok (some change))
  unfolding what_changed equals_trove
  differ-cases t that rate ne = ground (arith, (equals_trove_iff t that).0)

  -- Two troves that differ, the first not empty and the second empty.
  closed_IsMet :
      (t that : Trove) (rate : Option Decimal)
      → t ≢ that
      → t ≢ empty_trove
      → that ≡ empty_trove
      → ((what_changed t that rate ≡ err net_debt_below_reserve) × IsBlocked t that)
        ⊎ IsMet t that rate
  unfolding what_closed
  closed_IsMet t that rate ne full empty =
      let cases = differ-cases t that rate ne in
      let closing : what_changed t that rate ≡ (do change ← what_closed t; ok (some change)) =
        cases ∙ rw (not_empty t full, (is_empty_iff that).1 empty) refl in
      elim (Bool-cases (leb env.liquidation_reserve.big_number t.debt.big_number)) [
        | inl enough ↦
            let outcome = closed_lands t rate full (ground arith) in
            inr (Outcome-IsMet t that rate (what_closed t) ne closing (rw empty outcome))
        | inr short ↦ inl (closing ∙ rw (net_debt-eq t, short) refl, (full, empty, ground arith))
      ]

  -- What holds of two troves: they are blocked or the target is met.
  report-cases :
      (t that : Trove) (rate : Option Decimal)
      → (rate_or_default rate).big_number ≤ one.big_number
      → ((what_changed t that rate ≡ err net_debt_below_reserve) × IsBlocked t that)
        ⊎ IsMet t that rate
  report-cases t that rate small = elim (Bool-cases (equals_trove t that)) [
    | inl same ↦ inr (unchanged_IsMet t that rate ((equals_trove_iff t that).0 same))
    | inr differ ↦
        let ne : t ≢ that = λ e. ground (arith, (equals_trove_iff t that).1) in
        let cases = differ-cases t that rate ne in
        elim (Bool-cases (is_empty t)) [
          | inl empty ↦
              let e : t ≡ empty_trove = (is_empty_iff t).0 empty in
              inr (
                Outcome-IsMet t that rate (what_created that (rate_or_default rate)) ne
                  (cases ∙ rw empty refl) (rw e (created_lands that rate small)))
          | inr full ↦ elim (Bool-cases (is_empty that)) [
            | inl empty ↦
                closed_IsMet t that rate ne (λ e. ground (arith, (is_empty_iff t).1))
                  ((is_empty_iff that).0 empty)
            | inr neither ↦ inr (
                Outcome-IsMet t that rate (what_adjusted t that (rate_or_default rate)) ne
                  (cases ∙ rw (full, neither) refl) (adjusted_Outcome t that rate small ne))
          ]
        ]
  ]

  IsBlocked-throws :
      (t that : Trove) (rate : Option Decimal)
      → IsBlocked t that
      → what_changed t that rate ≡ err net_debt_below_reserve
  unfolding what_closed
  IsBlocked-throws t that rate (full, empty, short) =
      let cases = differ-cases t that rate (λ e. full (e ∙ empty)) in
      let below : leb env.liquidation_reserve.big_number t.debt.big_number ≡ false = ground arith in
      cases ∙ rw (not_empty t full, (is_empty_iff that).1 empty, net_debt-eq t, below) refl

  IsMet-not-IsBlocked :
      (t that : Trove) (rate : Option Decimal) → IsMet t that rate → ¬ IsBlocked t that
  IsMet-not-IsBlocked t that rate (change, result, reported, applied, lands, same) blocked =
      let thrown = IsBlocked-throws t that rate blocked in cc

  -- For a borrowing rate of at most one, `whatChanged` throws exactly where a trove whose debt is below
  -- the liquidation reserve is to be closed. Otherwise `whatChanged` and `apply` both return, and the
  -- target is met: with its collateral exactly, and with its debt exactly where the debt does not grow
  -- and at most one unit of 10 ^ -18 above it where it grows. Equal troves report no change.
  pub apply-what_changed :
      (t that : Trove) (rate : Option Decimal)
      → (rate_or_default rate).big_number ≤ one.big_number
      → ((what_changed t that rate ≡ err net_debt_below_reserve) × IsBlocked t that)
        ⊎ (IsMet t that rate × (¬ IsBlocked t that))
  apply-what_changed t that rate small = elim (report-cases t that rate small) [
    | inl blocked ↦ inl blocked
    | inr met ↦ inr (met, IsMet-not-IsBlocked t that rate met)
  ]
