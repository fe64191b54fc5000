-- ===== src/Decimal.antt =====
-- The class `Decimal` of packages/lib-base/src/Decimal.ts: numbers that are not negative, in units of
-- 10^-18. An argument of type `Decimalish` is a `Decimal` here, which `Decimal.from` returns as it is.
pub mod Values
pub mod Rounding
pub mod Powers
use stablecoin_sdk.Base.{
  ℕ, zero, suc, ◌+◌, ◌-◌, ◌*◌, ◌/◌, ◌%◌, Bool, Option, none, some, ltb, leb, ◌==◌, if◌then◌else◌,
}
use stablecoin_sdk.Base.Int.{ℤ, pos, negsuc}
use stablecoin_sdk.Base.Result.{
  Result, ok, err, negative_decimal, assertion_failed, out_of_fuel, require, ◌>>=◌, ◌>>◌,
}
use stablecoin_sdk.BigNumber.{BigNumber}

pub record Decimal : Type 0 where
  pub big_number : ℕ

abbrev pub decimal : ℕ → Decimal
decimal n = record { big_number = n }

-- The constructor: a negative number is refused.
unfoldable pub create : ℤ → Result Decimal
create (pos n) = ok (decimal n)
create (negsuc n) = err negative_decimal

-- `MAX_UINT_256`.
abbrev pub infinity : Decimal
infinity = decimal 0xffffffffffffffffffffffffffffffffffffffffffffffffffffffffffffffff

-- What `Decimal.from` makes of the literals 0, 0.5 and 1.
abbrev pub zero_decimal : Decimal
zero_decimal = decimal 0

abbrev pub half : Decimal
half = decimal 500_000_000_000_000_000

abbrev pub one : Decimal
one = decimal 1_000_000_000_000_000_000

module _ ⦃bn : BigNumber⦄ where
  unfoldable pub get_digits : ℕ → ℕ
  get_digits num_digits = bn.pow 10 num_digits

  -- `DIGITS`.
  unfoldable pub digits : ℕ
  unfolding get_digits
  digits = get_digits 18

  unfoldable pub rounded_mul : ℕ → ℕ → ℕ
  unfolding digits
  rounded_mul x y = bn.div (bn.add (bn.mul x y) half.big_number) digits

  unfoldable pub is_zero : Decimal → Bool
  is_zero d = bn.is_zero d.big_number

  unfoldable pub zero_of : Decimal → Option Decimal
  unfolding is_zero
  zero_of d = if is_zero d then some d else none

  unfoldable pub non_zero : Decimal → Option Decimal
  unfolding is_zero
  non_zero d = if is_zero d then none else some d

  unfoldable pub lt : Decimal → Decimal → Bool
  lt d that = bn.lt d.big_number that.big_number

  unfoldable pub eq : Decimal → Decimal → Bool
  eq d that = bn.eq d.big_number that.big_number

  unfoldable pub gt : Decimal → Decimal → Bool
  gt d that = bn.gt d.big_number that.big_number

  unfoldable pub gte : Decimal → Decimal → Bool
  gte d that = bn.gte d.big_number that.big_number

  unfoldable pub lte : Decimal → Decimal → Bool
  lte d that = bn.lte d.big_number that.big_number

  unfoldable pub infinite : Decimal → Option Decimal
  unfolding eq
  infinite d = if eq d infinity then some d else none

  unfoldable pub finite : Decimal → Option Decimal
  unfolding eq
  finite d = if eq d infinity then none else some d

  unfoldable pub min : Decimal → Decimal → Decimal
  unfolding lt
  min a b = if lt a b then a else b

  unfoldable pub max : Decimal → Decimal → Decimal
  unfolding gt
  max a b = if gt a b then a else b

  unfoldable pub add : Decimal → Decimal → Decimal
  add d addend = decimal (bn.add d.big_number addend.big_number)

  unfoldable pub sub : Decimal → Decimal → Result Decimal
  unfolding create
  sub d subtrahend = create (bn.sub d.big_number subtrahend.big_number)

  unfoldable pub mul : Decimal → Decimal → Decimal
  unfolding digits
  mul d multiplier = decimal (bn.div (bn.mul d.big_number multiplier.big_number) digits)

  unfoldable pub div : Decimal → Decimal → Decimal
  unfolding digits is_zero
  div d divider =
      if is_zero divider
      then infinity
      else decimal (bn.div (bn.mul d.big_number digits) divider.big_number)

  -- `divider - 1` is computed by `BigNumber.sub`, after the test for zero.
  unfoldable pub div_ceil : Decimal → Decimal → Result Decimal
  unfolding digits is_zero create
  div_ceil d divider = if is_zero divider then ok infinity else do
    less_one ← create (bn.sub divider.big_number 1)
    ok (
        decimal
          (bn.div (bn.add (bn.mul d.big_number digits) less_one.big_number) divider.big_number))

  unfoldable pub mul_div : Decimal → Decimal → Decimal → Decimal
  unfolding is_zero
  mul_div d multiplier divider =
      if is_zero divider
      then infinity
      else decimal (bn.div (bn.mul d.big_number multiplier.big_number) divider.big_number)

  -- The loop of `pow`, on the exponent, `x` and `y`. `none`: the fuel ran out.
  unfoldable pub pow_loop : ℕ → ℕ → ℕ → ℕ → Option (ℕ × ℕ)
  unfolding rounded_mul
  pow_loop zero exponent x y = none
  pow_loop (suc fuel) exponent x y =
      let rest =
        pow_loop fuel (exponent / 2) (rounded_mul x x)
          (if exponent % 2 == 1 then rounded_mul x y else y) in
      if ltb 1 exponent then rest else some (x, y)

  -- Each round halves the exponent, which is below 2 ^ 32.
  unfoldable pub pow : Decimal → ℕ → Result Decimal
  pow d exponent = do
    require (leb exponent 0xffffffff) assertion_failed
    if exponent == 0
        then ok one
        else (if exponent == 1 then ok d else elim (pow_loop 32 exponent d.big_number digits) [
          | none ↦ err out_of_fuel
          | some (x, y) ↦ ok (decimal (rounded_mul x y))
        ])
