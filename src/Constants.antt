-- ===== src/Constants.antt =====
-- The constants of packages/lib-base/src/constants.ts that the class `Trove` uses. Two of them are read
-- from the environment when the package is loaded, so they are parameters.
use stablecoin_sdk.BigNumber.{BigNumber}
use stablecoin_sdk.Decimal.{Decimal, decimal, add}

-- What `Decimal.from` makes of 1.5 and 1.1.
abbrev pub critical_collateral_ratio : Decimal
critical_collateral_ratio = decimal 1_500_000_000_000_000_000

abbrev pub minimum_collateral_ratio : Decimal
minimum_collateral_ratio = decimal 1_100_000_000_000_000_000

-- `LIQUIDATION_RESERVE` and `MINIMUM_NET_DEBT`.
pub record Environment : Type 0 where
  pub liquidation_reserve : Decimal
  pub minimum_net_debt : Decimal

-- Their values where the environment sets none: 20 and 200.
abbrev pub default_environment : Environment
default_environment = record {
  liquidation_reserve = decimal 20_000_000_000_000_000_000;
  minimum_net_debt = decimal 200_000_000_000_000_000_000;
}

module _ ⦃bn : BigNumber⦄ ⦃env : Environment⦄ where
  unfoldable pub minimum_debt : Decimal
  minimum_debt = add env.liquidation_reserve env.minimum_net_debt
