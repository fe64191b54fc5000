-- ===== src/Decimal/Values.antt =====
-- What each operation of `Decimal` computes, on the native numbers: with these equations the other
-- modules leave the operations, and the laws of `BigNumber` behind them, shut.
use stablecoin_sdk.Base.{ℕ, ◌+◌, ◌-◌, ◌*◌, ◌/◌, ◌≡◌, refl, ltb, leb, ◌==◌, if◌then◌else◌, arith}
use stablecoin_sdk.Base.Division.{ceil_div}
use stablecoin_sdk.Base.Result.{ok, err, negative_decimal}
use stablecoin_sdk.BigNumber.{BigNumber}
use stablecoin_sdk.Decimal.{
  Decimal, decimal, create, infinity, digits, rounded_mul, is_zero, lt, eq, gt, gte, lte, min, max,
  add, sub, mul, div, div_ceil, mul_div,
}

-- 10 ^ 18, the units in one.
abbrev pub unit : ℕ
unit = 1_000_000_000_000_000_000

pub ext : (d e : Decimal) → d.big_number ≡ e.big_number → d ≡ e
ext d e h = ground arith

module _ ⦃bn : BigNumber⦄ where
  pub digits-eq : digits ≡ unit
  unfolding digits
  digits-eq = bn.pow_lem 10 18

  pub rounded_mul-eq : (x y : ℕ) → rounded_mul x y ≡ (x * y + 500_000_000_000_000_000) / unit
  unfolding rounded_mul
  rounded_mul-eq x y = ground (
    arith,
    digits-eq,
    bn.mul_lem x y,
    bn.add_lem (x * y) 500_000_000_000_000_000,
    bn.div_lem (x * y + 500_000_000_000_000_000) unit,
  )

  pub is_zero-eq : (d : Decimal) → is_zero d ≡ (d.big_number == 0)
  unfolding is_zero
  is_zero-eq d = bn.is_zero_lem d.big_number

  pub lt-eq : (d e : Decimal) → lt d e ≡ ltb d.big_number e.big_number
  unfolding lt
  lt-eq d e = bn.lt_lem _ _

  pub gt-eq : (d e : Decimal) → gt d e ≡ ltb e.big_number d.big_number
  unfolding gt
  gt-eq d e = bn.gt_lem _ _

  pub gte-eq : (d e : Decimal) → gte d e ≡ leb e.big_number d.big_number
  unfolding gte
  gte-eq d e = bn.gte_lem _ _

  pub lte-eq : (d e : Decimal) → lte d e ≡ leb d.big_number e.big_number
  unfolding lte
  lte-eq d e = bn.lte_lem _ _

  pub eq-eq : (d e : Decimal) → eq d e ≡ (d.big_number == e.big_number)
  unfolding eq
  eq-eq d e = bn.eq_lem _ _

  pub add-eq : (d e : Decimal) → add d e ≡ decimal (d.big_number + e.big_number)
  unfolding add
  add-eq d e = rw bn.add_lem refl

  pub sub-eq :
      (d e : Decimal)
      → sub d e ≡ (
          if leb e.big_number d.big_number
          then ok (decimal (d.big_number - e.big_number))
          else err negative_decimal)
  unfolding sub
  sub-eq d e = rw bn.sub_lem (ground arith)

  pub mul-eq : (d e : Decimal) → mul d e ≡ decimal (d.big_number * e.big_number / unit)
  unfolding mul
  mul-eq d e = rw (digits-eq, bn.div_lem _ unit (omega arith), bn.mul_lem) refl

  pub div-eq :
      (d e : Decimal)
      → div d e
        ≡ (if e.big_number == 0 then infinity else decimal (d.big_number * unit / e.big_number))
  unfolding div
  div-eq d e = ground (
    arith,
    is_zero-eq e,
    digits-eq,
    bn.mul_lem d.big_number unit,
    bn.div_lem (d.big_number * unit) e.big_number,
  )

  pub mul_div-eq :
      (d m e : Decimal)
      → mul_div d m e ≡ (
          if e.big_number == 0
          then infinity
          else decimal (d.big_number * m.big_number / e.big_number))
  unfolding mul_div
  mul_div-eq d m e = ground (
    arith,
    is_zero-eq e,
    bn.mul_lem d.big_number m.big_number,
    bn.div_lem (d.big_number * m.big_number) e.big_number,
  )

  pub div_ceil-eq :
      (d e : Decimal)
      → div_ceil d e ≡ (
          if e.big_number == 0
          then ok infinity
          else ok (decimal (ceil_div (d.big_number * unit) e.big_number)))
  unfolding div_ceil create
  div_ceil-eq d e = ground (
    arith,
    is_zero-eq e,
    digits-eq,
    bn.sub_lem e.big_number 1,
    bn.mul_lem d.big_number unit,
    bn.add_lem (d.big_number * unit) (e.big_number - 1),
    bn.div_lem (d.big_number * unit + (e.big_number - 1)) e.big_number,
  )

  pub min-eq : (d e : Decimal) → min d e ≡ (if ltb d.big_number e.big_number then d else e)
  unfolding min
  min-eq d e = rw lt-eq refl

  pub max-eq : (d e : Decimal) → max d e ≡ (if ltb e.big_number d.big_number then d else e)
  unfolding max
  max-eq d e = rw gt-eq refl
