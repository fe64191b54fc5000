-- ===== src/Store/Derived.antt =====
-- The derived state can be computed from every valid base state.
use stablecoin_sdk.Base.{◌+◌, ◌<◌, ◌≤◌, ◌≡◌, refl, Option, none, some, arith, Bool-cases, inl, inr}
use stablecoin_sdk.Base.Result.{ok}
use stablecoin_sdk.BigNumber.{BigNumber}
use stablecoin_sdk.Decimal.{Decimal, zero_decimal, one, min, add}
use stablecoin_sdk.Fees.{
  Fees, with_fraction, minimum_borrowing_rate, maximum_borrowing_rate, minimum_redemption_rate,
  minutes_since, base_rate, borrowing_rate, redemption_rate,
}
use stablecoin_sdk.Fees.Rates.{set_recovery_mode-eq, base_rate_returns_iff}
use stablecoin_sdk.Trove.{
  Trove, collateral_ratio_is_below_critical, collateral_ratio_is_below_minimum,
}
use stablecoin_sdk.Trove.Redistribution.{
  UserTrove, TroveWithPendingRedistribution, apply_redistribution,
}
use stablecoin_sdk.Trove.Redistribution.Growth.{apply_redistribution_grows}
use stablecoin_sdk.StoreState.{BaseState, BaseUpdate, DerivedState, reduce, derive}
use stablecoin_sdk.StoreState.Reduce.{new_or, reduce-overwrite}

-- Fees as their constructor leaves them, whose last operation is at most 2 ^ 32 - 1 minutes before the
-- latest block.
abbrev pub HasUsableFees : Fees → Type 0
HasUsableFees f =
    (f.minute_decay_factor.big_number < one.big_number)
    × (f.time_of_latest_block ≤ f.last_fee_operation + 257_698_037_759_999)

abbrev pub IsValidBase : BaseState → Type 0
IsValidBase s = HasUsableFees s.fees_in_normal_mode

abbrev UsableIfAny : Option Fees → Type 0
UsableIfAny none = Unit
UsableIfAny (some f) = HasUsableFees f

abbrev pub IsValidUpdate : BaseUpdate → Type 0
IsValidUpdate u = UsableIfAny u.fees_in_normal_mode

new_or-usable :
    (o : Option Fees) (f : Fees) → UsableIfAny o → HasUsableFees f → HasUsableFees (new_or o f)
new_or-usable none f fresh valid = valid
new_or-usable (some g) f fresh valid = fresh

module _ ⦃bn : BigNumber⦄ where
  pub reduce-IsValidBase :
      (s : BaseState) (u : BaseUpdate) → IsValidBase s → IsValidUpdate u → IsValidBase (reduce s u)
  reduce-IsValidBase s u valid fresh =
      rw (reduce-overwrite s u)
        (new_or-usable u.fees_in_normal_mode s.fees_in_normal_mode fresh valid)

  usable_base_rate : (f : Fees) → HasUsableFees f → (r : Decimal) × (base_rate f none ≡ ok r)
  unfolding minutes_since
  usable_base_rate f usable = (base_rate_returns_iff f none).1 (ground arith)

  usable_borrowing_rate :
      (f : Fees) → HasUsableFees f → (r : Decimal) × (borrowing_rate f none ≡ ok r)
  unfolding borrowing_rate
  usable_borrowing_rate f usable =
      let (base, found) = usable_base_rate f usable in
      elim (Bool-cases f.recovery_mode) [
        | inl on ↦ (zero_decimal, simp on)
        | inr off ↦
            (min (add minimum_borrowing_rate base) maximum_borrowing_rate, simp (off, found))
      ]

  usable_redemption_rate :
      (f : Fees) (fraction : Decimal)
      → HasUsableFees f
      → (r : Decimal) × (redemption_rate f fraction none ≡ ok r)
  unfolding redemption_rate
  usable_redemption_rate f fraction usable =
      let (base, found) = usable_base_rate f usable in
      (min (add minimum_redemption_rate (with_fraction f fraction base)) one, rw found refl)

  redistribution_total :
      (t : TroveWithPendingRedistribution) (total : Trove)
      → (u : UserTrove) × (apply_redistribution t total ≡ ok u)
  redistribution_total t total =
      let grows = apply_redistribution_grows t total total (omega arith) (omega arith) in
      (grows.0, grows.2)

  -- From a valid base state `_derive` always returns: no assertion fails and no subtraction goes below
  -- zero.
  pub derive_total : (s : BaseState) → IsValidBase s → (d : DerivedState) × (derive s ≡ ok d)
  unfolding derive
  derive_total s valid =
      let critical = collateral_ratio_is_below_critical s.total s.price in
      let (same, still_valid) =
        set_recovery_mode-eq s.fees_in_normal_mode critical (record { decays = valid.0 }) in
      let fees : Fees = record s.fees_in_normal_mode { recovery_mode = critical } in
      let (u, grown) = redistribution_total s.trove_before_redistribution s.total_redistributed in
      let (riskiest, grown') =
        redistribution_total s.riskiest_trove_before_redistribution s.total_redistributed in
      let (borrowing, found) = usable_borrowing_rate fees valid in
      let (redemption, found') = usable_redemption_rate fees zero_decimal valid in
      (
        record {
          user_trove = u;
          fees = fees;
          current_borrowing_rate = borrowing;
          current_redemption_rate = redemption;
          have_undercollateralized_troves = collateral_ratio_is_below_minimum riskiest.base s.price;
        },
        rw (same, grown, found, found', grown') refl,
      )
