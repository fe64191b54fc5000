-- ===== src/Trove/Redistribution/Growth.antt =====
-- What a pending redistribution adds to a trove.
use text.Mathlib.TextEquality.{eq_iff}
use stablecoin_sdk.Base.{ℕ, ◌+◌, ◌-◌, ◌*◌, ◌/◌, ◌≤◌, ◌≡◌, ◌↔◌, refl, true, arith}
use stablecoin_sdk.Base.Division.{div_mono}
use stablecoin_sdk.Base.Result.{ok}
use stablecoin_sdk.BigNumber.{BigNumber}
use stablecoin_sdk.Decimal.{decimal}
use stablecoin_sdk.Decimal.Values.{unit, eq-eq}
use stablecoin_sdk.Trove.{Trove, trove, equals_trove}
use stablecoin_sdk.Trove.Arithmetic.{subtract-eq, add_trove-eq, multiply-eq, equals_trove_iff}
use stablecoin_sdk.Trove.Redistribution.{
  UserTroveStatus, status_eq, UserTrove, TroveWithPendingRedistribution, equals_user_trove,
  equals_pending, apply_redistribution,
}

-- An amount after the redistribution of `total`, per unit of stake, since `snapshot`.
abbrev grown : ℕ → ℕ → ℕ → ℕ → ℕ
grown amount stake snapshot total = amount + (total - snapshot) * stake / unit

grown_mono :
    (amount stake snapshot total total' : ℕ)
    → total ≤ total'
    → grown amount stake snapshot total ≤ grown amount stake snapshot total'
grown_mono amount stake snapshot total total' h =
    let part : (total - snapshot) * stake ≤ (total' - snapshot) * stake = grind arith in
    omega (arith, div_mono ((total - snapshot) * stake) ((total' - snapshot) * stake) unit)

grown_none : (amount stake snapshot : ℕ) → grown amount stake snapshot snapshot ≡ amount
grown_none amount stake snapshot =
    let e : (snapshot - snapshot) * stake ≡ 0 = grind arith in rw e (omega arith)

status_eq_iff : (s t : UserTroveStatus) → (status_eq s t ≡ true) ↔ (s ≡ t)
status_eq_iff s t = ground arith

module _ ⦃bn : BigNumber⦄ where
  apply_redistribution-eq :
      (t : TroveWithPendingRedistribution) (total : Trove)
      → apply_redistribution t total
        ≡ ok (record {
          base =
              trove
                (decimal (
                  grown t.user_trove.base.collateral.big_number t.stake.big_number
                    t.snapshot_of_total_redistributed.collateral.big_number
                    total.collateral.big_number))
                (decimal (
                  grown t.user_trove.base.debt.big_number t.stake.big_number
                    t.snapshot_of_total_redistributed.debt.big_number total.debt.big_number));
          owner_address = t.user_trove.owner_address;
          status = t.user_trove.status;
        })
  unfolding apply_redistribution
  apply_redistribution-eq t total = simp (subtract-eq, multiply-eq, add_trove-eq)

  -- Applying a redistribution never throws. At the total of the snapshot it leaves the trove as it is;
  -- at a larger total neither its collateral nor its debt is smaller. Its owner and status stay.
  pub apply_redistribution_grows :
      (t : TroveWithPendingRedistribution) (total total' : Trove)
      → total.collateral.big_number ≤ total'.collateral.big_number
      → total.debt.big_number ≤ total'.debt.big_number
      → (u : UserTrove) × (u' : UserTrove) × (apply_redistribution t total ≡ ok u)
        × (apply_redistribution t total' ≡ ok u')
        × (u.base.collateral.big_number ≤ u'.base.collateral.big_number)
        × (u.base.debt.big_number ≤ u'.base.debt.big_number)
        × (t.user_trove.base.collateral.big_number ≤ u.base.collateral.big_number)
        × (t.user_trove.base.debt.big_number ≤ u.base.debt.big_number)
        × (u'.owner_address ≡ t.user_trove.owner_address)
        × (u'.status ≡ t.user_trove.status)
        × (apply_redistribution t t.snapshot_of_total_redistributed ≡ ok t.user_trove)
  apply_redistribution_grows t total total' hc hd = (
    _,
    _,
    apply_redistribution-eq t total,
    apply_redistribution-eq t total',
    grown_mono _ _ _ _ _ hc,
    grown_mono _ _ _ _ _ hd,
    omega arith,
    omega arith,
    refl,
    refl,
    rw (apply_redistribution-eq t t.snapshot_of_total_redistributed)
        (rw (grown_none _ _ _) (rw (grown_none _ _ _) refl)),
  )

  pub equals_user_trove_iff : (t that : UserTrove) → (equals_user_trove t that ≡ true) ↔ (t ≡ that)
  unfolding equals_user_trove equals_trove
  equals_user_trove_iff t that = (
    λ h. ground (
      arith,
      eq-eq t.base.collateral that.base.collateral,
      eq-eq t.base.debt that.base.debt,
      eq_iff t.owner_address that.owner_address,
      status_eq_iff t.status that.status,
    ),
    λ h. ground (
      arith,
      eq-eq t.base.collateral that.base.collateral,
      eq-eq t.base.debt that.base.debt,
      eq_iff t.owner_address that.owner_address,
      status_eq_iff t.status that.status,
    ),
  )

  -- `equals` holds exactly of troves with a pending redistribution that agree in every field.
  pub equals_pending_iff :
      (t that : TroveWithPendingRedistribution) → (equals_pending t that ≡ true) ↔ (t ≡ that)
  unfolding equals_pending
  equals_pending_iff t that = (
    λ h. ground (
      arith,
      equals_user_trove_iff t.user_trove that.user_trove,
      eq-eq t.stake that.stake,
      equals_trove_iff t.snapshot_of_total_redistributed that.snapshot_of_total_redistributed,
    ),
    λ h. ground (
      arith,
      equals_user_trove_iff t.user_trove that.user_trove,
      eq-eq t.stake that.stake,
      equals_trove_iff t.snapshot_of_total_redistributed that.snapshot_of_total_redistributed,
    ),
  )
