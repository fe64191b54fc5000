-- ===== src/Fees.antt =====
-- The class `Fees` of packages/lib-base/src/Fees.ts. A `Date` stands as its `getTime()`, milliseconds.
pub mod Rates
use stablecoin_sdk.Base.{
  ℕ, ◌-◌, ◌/◌, Bool, true, false, ◌&&◌, Option, none, some, leb, ◌==◌, if◌then◌else◌,
}
use stablecoin_sdk.Base.Result.{Result, ok, err, assertion_failed, require, ◌>>=◌, ◌>>◌}
use stablecoin_sdk.BigNumber.{BigNumber}
use stablecoin_sdk.Decimal.{
  Decimal, decimal, zero_decimal, one, eq, lt, add, mul, div, min, pow, non_zero,
}

-- The constants of packages/lib-base/src/constants.ts: what `Decimal.from` makes of 0.005, 0.05 and
-- 0.005.
abbrev pub minimum_borrowing_rate : Decimal
minimum_borrowing_rate = decimal 5_000_000_000_000_000

abbrev pub maximum_borrowing_rate : Decimal
maximum_borrowing_rate = decimal 50_000_000_000_000_000

abbrev pub minimum_redemption_rate : Decimal
minimum_redemption_rate = decimal 5_000_000_000_000_000

pub record Fees : Type 0 where
  pub base_rate_without_decay : Decimal
  pub minute_decay_factor : Decimal
  pub beta : Decimal
  pub last_fee_operation : ℕ
  pub time_of_latest_block : ℕ
  pub recovery_mode : Bool

abbrev pub bool_eq : Bool → Bool → Bool
bool_eq true b = b
bool_eq false true = false
bool_eq false false = true

module _ ⦃bn : BigNumber⦄ where
  -- The constructor, with its assertion.
  unfoldable pub create_fees : Decimal → Decimal → Decimal → ℕ → ℕ → Bool → Result Fees
  create_fees base decay beta last latest recovery = do
    require (lt decay one) assertion_failed
    ok (record {
      base_rate_without_decay = base;
      minute_decay_factor = decay;
      beta = beta;
      last_fee_operation = last;
      time_of_latest_block = latest;
      recovery_mode = recovery;
    })

  unfoldable pub set_recovery_mode : Fees → Bool → Result Fees
  unfolding create_fees
  set_recovery_mode f recovery =
      create_fees f.base_rate_without_decay f.minute_decay_factor f.beta f.last_fee_operation
        f.time_of_latest_block recovery

  unfoldable pub equals_fees : Fees → Fees → Bool
  equals_fees f that =
      eq f.base_rate_without_decay that.base_rate_without_decay
      && (eq f.minute_decay_factor that.minute_decay_factor
          && (eq f.beta that.beta
              && (f.last_fee_operation == that.last_fee_operation
                  && (f.time_of_latest_block == that.time_of_latest_block
                      && bool_eq f.recovery_mode that.recovery_mode))))

  -- An argument `when` that is left out.
  abbrev pub time_or : Fees → Option ℕ → ℕ
  time_or f none = f.time_of_latest_block
  time_or f (some when) = when

  -- The elapsed time is clamped to 0.
  unfoldable pub minutes_since : Fees → ℕ → ℕ
  minutes_since f when =
      (if leb f.last_fee_operation when then when - f.last_fee_operation else 0) / 60000

  unfoldable pub base_rate : Fees → Option ℕ → Result Decimal
  unfolding minutes_since
  base_rate f when = do
    factor ← pow f.minute_decay_factor (minutes_since f (time_or f when))
    ok (mul factor f.base_rate_without_decay)

  unfoldable pub borrowing_rate : Fees → Option ℕ → Result Decimal
  borrowing_rate f when = if f.recovery_mode then ok zero_decimal else (do
    base ← base_rate f when
    ok (min (add minimum_borrowing_rate base) maximum_borrowing_rate))

  abbrev pub with_fraction : Fees → Decimal → Decimal → Decimal
  with_fraction f fraction base = elim (non_zero fraction) [
    | none ↦ base
    | some _ ↦ add (div fraction f.beta) base
  ]

  unfoldable pub redemption_rate : Fees → Decimal → Option ℕ → Result Decimal
  redemption_rate f fraction when = do
    base ← base_rate f when
    ok (min (add minimum_redemption_rate (with_fraction f fraction base)) one)
