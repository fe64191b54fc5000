-- ===== src/Trove/Params/Creation.antt =====
-- `Trove.create` from the parameters that `Trove.recreate` gives.
use stablecoin_sdk.Base.{◌≤◌, ◌≡◌, ◌≢◌, ◌∙◌, refl, sym, Option, some, [], ◌∷◌}
use stablecoin_sdk.Base.Result.{ok}
use stablecoin_sdk.BigNumber.{BigNumber}
use stablecoin_sdk.Constants.{Environment}
use stablecoin_sdk.Decimal.{Decimal, one}
use stablecoin_sdk.Trove.{Trove, empty_trove}
use stablecoin_sdk.Trove.Change.{TroveCreationParams, creation, rate_or_default, what_changed}
use stablecoin_sdk.Trove.Change.Lands.{Lands}
use stablecoin_sdk.Trove.Change.RoundTrip.{created_params, differ-cases, empty_is_empty}
use stablecoin_sdk.Trove.Params.{
  Entries, defined_entries, includes, bad_keys, value_of, normalize_trove_creation, create_trove,
  recreate,
}

-- The parameters of a creation as the entries of an object.
abbrev pub creation_entries : TroveCreationParams → Entries
creation_entries p =
    ("depositCollateral", some p.deposited) ∷ ("borrowDebtToken", some p.borrowed) ∷ []

normalize_creation_entries :
    (p : TroveCreationParams) → normalize_trove_creation (creation_entries p) ≡ ok p
unfolding normalize_trove_creation defined_entries bad_keys includes value_of
normalize_creation_entries p = refl

module _ ⦃bn : BigNumber⦄ ⦃env : Environment⦄ where
  -- For a target that is not empty and whose debt covers the liquidation reserve, and a borrowing rate of
  -- at most one, `recreate` returns parameters from which `create` makes a trove that meets the target: with
  -- its collateral, and with its debt or at most one unit of 10 ^ -18 more.
  pub create-recreate :
      (that : Trove) (rate : Option Decimal)
      → (rate_or_default rate).big_number ≤ one.big_number
      → env.liquidation_reserve.big_number ≤ that.debt.big_number
      → that ≢ empty_trove
      → (p : TroveCreationParams) × (result : Trove) × (recreate that rate ≡ ok p)
        × (create_trove (creation_entries p) rate ≡ ok result)
        × Lands empty_trove that result
  unfolding recreate create_trove
  create-recreate that rate small le ne =
      let (p, result, reported, applied, lands) = created_params that rate small le in
      let changed : what_changed empty_trove that rate ≡ ok (some (creation p)) =
        differ-cases empty_trove that rate (λ e. ne (sym e)) ∙ rw (empty_is_empty, reported) refl in
      (p, result, rw changed refl, rw (normalize_creation_entries p) applied, lands)
