-- ===== src/Trove/Redistribution.antt =====
-- The classes `UserTrove` and `TroveWithPendingRedistribution` of packages/lib-base/src/Trove.ts.
pub mod Growth
use Prim.Native.String.{String}
use text.Mathlib.Text.{◌==◌}
use stablecoin_sdk.Base.{Bool, true, false, ◌&&◌}
use stablecoin_sdk.Base.Result.{Result, ok, err, ◌>>=◌}
use stablecoin_sdk.BigNumber.{BigNumber}
use stablecoin_sdk.Decimal.{Decimal, eq}
use stablecoin_sdk.Trove.{
  Trove, trove, equals_trove, add_trove, subtract, multiply, collateral_ratio_is_below_minimum,
}

pub data UserTroveStatus : Type 0 where
  non_existent open_trove closed_by_owner closed_by_liquidation closed_by_redemption :
      UserTroveStatus

abbrev pub status_eq : UserTroveStatus → UserTroveStatus → Bool
status_eq non_existent non_existent = true
status_eq open_trove open_trove = true
status_eq closed_by_owner closed_by_owner = true
status_eq closed_by_liquidation closed_by_liquidation = true
status_eq closed_by_redemption closed_by_redemption = true
status_eq _ _ = false

-- `UserTrove extends Trove`.
pub record UserTrove : Type 0 where
  pub base : Trove
  pub owner_address : String
  pub status : UserTroveStatus

-- `TroveWithPendingRedistribution extends UserTrove`.
pub record TroveWithPendingRedistribution : Type 0 where
  pub user_trove : UserTrove
  pub stake : Decimal
  pub snapshot_of_total_redistributed : Trove

module _ ⦃bn : BigNumber⦄ where
  unfoldable pub equals_user_trove : UserTrove → UserTrove → Bool
  equals_user_trove t that =
      equals_trove t.base that.base
      && (t.owner_address == that.owner_address && status_eq t.status that.status)

  unfoldable pub equals_pending :
      TroveWithPendingRedistribution → TroveWithPendingRedistribution → Bool
  equals_pending t that =
      equals_user_trove t.user_trove that.user_trove
      && (eq t.stake that.stake
          && equals_trove t.snapshot_of_total_redistributed that.snapshot_of_total_redistributed)

  unfoldable pub apply_redistribution : TroveWithPendingRedistribution → Trove → Result UserTrove
  apply_redistribution t total_redistributed = do
    since_snapshot ← subtract total_redistributed t.snapshot_of_total_redistributed
    ok (record {
      base = add_trove t.user_trove.base (multiply since_snapshot t.stake);
      owner_address = t.user_trove.owner_address;
      status = t.user_trove.status;
    })
