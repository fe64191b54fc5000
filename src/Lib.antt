-- ===== src/Lib.antt =====
-- Verification of the SDK's core, the package packages/lib-base: the fixed-point numbers, the troves,
-- deposits and stakes with their changes, the fees, and the store that keeps a client's view of the
-- protocol; of the checks that the user interface makes of a change; and of the subgraph, which indexes
-- the events of the contracts.
--
-- How the parts interact. All amounts are `Decimal`s, natural numbers in units of 10 ^ -18. A `Trove`
-- is an amount of collateral and one of debt; a user interface asks `whatChanged` for the change
-- between the present trove and an edited one, and `apply` shows what a change leads to. Deposits and
-- stakes have the same pair of functions. `Fees` computes the rates from a base rate that decays by the
-- minute. The store holds a base state that a subclass reads from the blockchain, derives from it the
-- fees, the user's trove and the rates, schedules its own refresh by a timer and notifies listeners.
--
-- The user interface offers a change that `whatChanged` reports only after the checks of Validation. The
-- subgraph's handlers are independent of the library: each reads and saves entities of a store, and
-- fails, or returns the store that it leaves.
--
-- Which file models which part. Operations have the names of the source in snake case, and exceptions
-- are the values of the type `Failure` in Base/Result:
--   BigNumber        what packages/lib-base/src/Decimal.ts uses of @ethersproject/bignumber, as an
--                    interface: its operations with their documented behaviour; all theorems hold for
--                    every implementation of it, and native numbers are one
--   Decimal          the class `Decimal` of packages/lib-base/src/Decimal.ts; Decimal/Values relates
--                    each operation to the native numbers, Decimal/Rounding and Decimal/Powers have the
--                    laws
--   Difference       the class `Difference` of packages/lib-base/src/Decimal.ts
--   Constants        packages/lib-base/src/constants.ts; the values that it reads from the environment
--                    are the instance argument `Environment`
--   Fees             packages/lib-base/src/Fees.ts
--   Deposit          packages/lib-base/src/StabilityDeposit.ts
--   Stake            packages/lib-base/src/ProtocolTokenStake.ts
--   Trove            the class `Trove` of packages/lib-base/src/Trove.ts; Trove/Change its `whatChanged`
--                    and `apply`, Trove/Params `create`, `recreate`, `adjust` and `adjustTo`, and
--                    Trove/Redistribution the classes that extend it
--   StoreState       the states of packages/lib-base/src/SfStablecoinStore.ts, `_reduce`, `_derive` and
--                    `_reduceDerived`
--   Store            the object `SfStablecoinStore`: its methods are functions on its fields, the timers
--                    that the runtime holds for it and the calls that it has made, and Store/Reachable
--                    has the steps between such states
--   Validation       packages/dev-frontend/src/components/Trove/validation/validateTroveChange.tsx and, in
--                    Validation/Deposits, Stability/validation/validateStabilityDepositChange.tsx beside it
--   Subgraph         packages/subgraph/src: Subgraph/Entities has the entities of
--                    packages/subgraph/schema.graphql, Subgraph/Handler the effect of a handler, and
--                    Subgraph/Global, SystemState, Change, User, Token, Deposit, Stake and Trove the files
--                    of entities/; User has Liquidation.ts, Redemption.ts and Frontend.ts too, and Change
--                    Transaction.ts. Subgraph/Mappings has mappings/, with one constructor for each
--                    event. Subgraph/WellFormed has what the handlers keep true,
--                    Subgraph/Totality when two of them fail, Subgraph/Payment what a payment moves,
--                    Subgraph/Staked what a changed stake saves, and Subgraph/Unpriced what needs a
--                    price. `BigInt` and `BigDecimal` of @graphprotocol/graph-ts are the interface
--                    `GraphNumbers` of Subgraph/Numbers
--   Base             helpers, and Tests runs of the models with native numbers
--
-- Bounds. An exponent of `pow` is at most 2 ^ 32 - 1, as the code asserts; the loop halves it in each
-- round, so the 32 rounds of fuel are enough, and a theorem below says that `pow` returns. Decimals
-- have no upper bound, as BigNumbers have none; `Decimal.INFINITY` is an ordinary value that `div`,
-- `mulDiv` and `_divCeil` return for a zero divider. A time is a natural number of milliseconds.
--
-- What is not modelled. An argument of type `Decimalish` is a `Decimal`: parsing and printing of
-- decimals is left out, so the constants are given by their values. Nothing is assumed of the sums
-- of a `BigDecimal`, which are rounded to 34 digits, so that the totals of surpluses and stakes
-- have no theorem; those of a `BigInt` are exact. The calls of a token's contract are parameters
-- that may revert. The class `_CachedReadableProtocol` is left out. An id that is a text is the
-- number or the numbers that it is made of. The texts that the checks of the user interface show
-- are left out. Logging and the `toString` methods have no effect on the state. Values have no
-- identity as objects, so the `stateChange` of a notification, which compares identities, is left
-- out. What a listener does is a parameter; it may subscribe and unsubscribe listeners, but not
-- load or update the store. The packages that talk to a chain, the rest of the user interface and
-- the generated code are outside the model.
pub mod Base
pub mod BigNumber
pub mod Decimal
pub mod Difference
pub mod Deposit
pub mod Stake
pub mod Fees
pub mod Constants
pub mod Trove
pub mod StoreState
pub mod Store
pub mod Validation
pub mod Subgraph
pub mod Tests
