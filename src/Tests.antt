-- ===== src/Tests.antt =====
-- Runs of the models on concrete inputs, with native numbers in the place of the package's.
pub mod Numbers
pub mod Rates
pub mod Accounts
pub mod Troves
pub mod Stores
pub mod Checks
pub mod Integers
pub mod Graph
use stablecoin_sdk.BigNumber.{BigNumber, native_numbers}
use stablecoin_sdk.Constants.{Environment, default_environment}

instance abbrev pub numbers : BigNumber
numbers = native_numbers

instance abbrev pub environment : Environment
environment = default_environment
