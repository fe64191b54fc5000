-- ===== src/Tests/Numbers.antt =====
-- Runs of `Decimal`, `Difference` and `Fees`.
use stablecoin_sdk.Base.{◌*◌, ◌^◌, ◌≤◌, ◌≡◌, ◌≢◌, ◌↔◌, refl, arith, some}
use stablecoin_sdk.Base.Result.{ok, err, negative_decimal, ◌>>=◌}
use stablecoin_sdk.Tests.{numbers}
use stablecoin_sdk.Decimal.{
  Decimal, decimal, one, half, infinity, get_digits, digits, is_zero, create, sub, mul, div_ceil,
  rounded_mul, pow_loop, pow,
}
use stablecoin_sdk.Decimal.Values.{unit}
use stablecoin_sdk.Decimal.Rounding.{div_ceil_least}
use stablecoin_sdk.Decimal.Powers.{pow_whole, pow_returns_iff, pow_mono, pow_le_one}
use stablecoin_sdk.Difference.{between}
use stablecoin_sdk.Difference.Laws.{opposite, between_antisymmetric}

abbrev three : Decimal
three = decimal 3_000_000_000_000_000_000

third_up : div_ceil one three ≡ ok (decimal 333_333_333_333_333_334)
unfolding div_ceil digits get_digits is_zero create
third_up = refl

half_cubed : pow half 3 ≡ ok (decimal 125_000_000_000_000_000)
unfolding pow pow_loop rounded_mul digits get_digits
half_cubed = refl

one_cubed : pow one 3 ≡ ok one
unfolding pow pow_loop rounded_mul digits get_digits
one_cubed = refl

too_much_off : sub half one ≡ err negative_decimal
unfolding sub create
too_much_off = refl

pow_whole_example : pow (decimal (3 * unit)) 5 ≡ ok (decimal (3 ^ 5 * unit))
pow_whole_example = pow_whole 3 5 (omega arith)

pow_returns_iff_example : ((r : Decimal) × (pow half 1440 ≡ ok r)) ↔ (1440 ≤ 0xffffffff)
pow_returns_iff_example = pow_returns_iff half 1440

pow_mono_example : 125_000_000_000_000_000 ≤ one.big_number
pow_mono_example = pow_mono half one 3 (omega arith) half_cubed one_cubed

pow_le_one_example : 125_000_000_000_000_000 ≤ one.big_number
pow_le_one_example = pow_le_one half 3 (omega arith) half_cubed

div_ceil_least_example :
    (q : Decimal) × (div_ceil one three ≡ ok q)
    × ((q.big_number ≤ half.big_number) ↔ (one.big_number ≤ (mul half three).big_number))
div_ceil_least_example = div_ceil_least one three half (omega arith)

finite_lem : (d : Decimal) → d.big_number ≤ three.big_number → d ≢ infinity
finite_lem d h e = ground arith

between_antisymmetric_example :
    between (some three) (some half) ≡ (do d ← between (some half) (some three); ok (opposite d))
between_antisymmetric_example = between_antisymmetric (some half) (some three)
