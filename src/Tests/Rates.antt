-- ===== src/Tests/Rates.antt =====
-- Runs of `Fees`.
use Prim.Native.Nat.{min as nat_min}
use stablecoin_sdk.Base.{◌<◌, ◌+◌, ◌≤◌, ◌≡◌, ◌⊎◌, ◌↔◌, refl, arith, true, false, none}
use stablecoin_sdk.Base.Result.{ok}
use stablecoin_sdk.Tests.{numbers}
use stablecoin_sdk.Decimal.{
  Decimal, decimal, one, half, zero_decimal, get_digits, digits, is_zero, lt, add, mul, div, min,
  rounded_mul, pow_loop, pow, non_zero,
}
use stablecoin_sdk.Fees.{
  Fees, minimum_borrowing_rate, maximum_borrowing_rate, minimum_redemption_rate, time_or,
  minutes_since, base_rate, borrowing_rate, redemption_rate,
}
use stablecoin_sdk.Fees.Rates.{
  IsValidFees, base_rate_returns_iff, base_rate_decays, borrowing_rate_bounds,
  redemption_rate_bounds,
}

-- A base rate of 1%, half of which decays in a minute, three minutes before the latest block.
abbrev pub decaying_fees : Fees
decaying_fees = record {
  base_rate_without_decay = decimal 10_000_000_000_000_000;
  minute_decay_factor = half;
  beta = decimal 2_000_000_000_000_000_000;
  last_fee_operation = 1_000_000;
  time_of_latest_block = 1_180_000;
  recovery_mode = false;
}

decaying_fees-IsValidFees : IsValidFees decaying_fees
decaying_fees-IsValidFees = record { decays = omega arith }

decayed : base_rate decaying_fees none ≡ ok (decimal 1_250_000_000_000_000)
unfolding base_rate minutes_since pow pow_loop rounded_mul digits get_digits mul
decayed = refl

borrowing : borrowing_rate decaying_fees none ≡ ok (decimal 6_250_000_000_000_000)
unfolding borrowing_rate base_rate minutes_since pow pow_loop rounded_mul digits get_digits mul min
    add lt
borrowing = refl

redemption : redemption_rate decaying_fees zero_decimal none ≡ ok (decimal 6_250_000_000_000_000)
unfolding redemption_rate base_rate minutes_since pow pow_loop rounded_mul digits get_digits mul min
    add lt non_zero is_zero
redemption = refl

redemption_of_half : redemption_rate decaying_fees half none ≡ ok (decimal 256_250_000_000_000_000)
unfolding redemption_rate base_rate minutes_since pow pow_loop rounded_mul digits get_digits mul min
    add lt non_zero is_zero div
redemption_of_half = refl

base_rate_returns_iff_example :
    ((r : Decimal) × (base_rate decaying_fees none ≡ ok r))
    ↔ (time_or decaying_fees none < decaying_fees.last_fee_operation + 257_698_037_760_000)
base_rate_returns_iff_example = base_rate_returns_iff decaying_fees none

base_rate_decays_example : 1_250_000_000_000_000 ≤ 10_000_000_000_000_000
base_rate_decays_example = base_rate_decays decaying_fees none decaying_fees-IsValidFees decayed

borrowing_rate_bounds_example :
    ((false ≡ true) × (decimal 6_250_000_000_000_000 ≡ zero_decimal))
    ⊎ ((false ≡ false)
        × (minimum_borrowing_rate.big_number ≤ 6_250_000_000_000_000)
        × (6_250_000_000_000_000 ≤ maximum_borrowing_rate.big_number)
        × ((base : Decimal) × (base_rate decaying_fees none ≡ ok base)
            × (6_250_000_000_000_000
                ≡ nat_min
                    (minimum_borrowing_rate.big_number + base.big_number)
                    maximum_borrowing_rate.big_number)))
borrowing_rate_bounds_example = borrowing_rate_bounds decaying_fees none borrowing

redemption_rate_bounds_example :
    (minimum_redemption_rate.big_number ≤ 6_250_000_000_000_000)
    × (6_250_000_000_000_000 ≤ 256_250_000_000_000_000)
    × (256_250_000_000_000_000 ≤ one.big_number)
redemption_rate_bounds_example =
    redemption_rate_bounds decaying_fees zero_decimal half none (omega arith) redemption
      redemption_of_half
