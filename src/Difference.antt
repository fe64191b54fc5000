-- ===== src/Difference.antt =====
-- The class `Difference` of packages/lib-base/src/Decimal.ts: a signed difference of two decimals,
-- which is undefined where an operand is, or where both are infinite.
pub mod Laws
use stablecoin_sdk.Base.{Bool, true, false, Option, none, some, if◌then◌else◌}
use stablecoin_sdk.Base.Result.{Result, ok, err, ◌>>=◌}
use stablecoin_sdk.BigNumber.{BigNumber}
use stablecoin_sdk.Decimal.{Decimal, zero_decimal, infinite, finite, gt, sub, mul, non_zero}

-- The strings "", "+" and "-".
pub data Sign : Type 0 where
  no_sign plus minus : Sign

pub record DifferenceRepresentation : Type 0 where
  pub sign : Sign
  pub absolute_value : Decimal

pub record Difference : Type 0 where
  pub number : Option DifferenceRepresentation

abbrev pub undefined : Difference
undefined = record { number = none }

abbrev pub difference : Sign → Decimal → Difference
difference s d = record { number = some (record { sign = s; absolute_value = d }) }

-- The truth value of an object or `undefined`.
abbrev pub is_some {ℓ} : {A : Type ℓ} → Option A → Bool
is_some none = false
is_some (some a) = true

-- `value?.f && this`.
abbrev and_then {ℓ κ} : {A : Type ℓ} {B : Type κ} → Option A → (A → Option B) → Option B
and_then none f = none
and_then (some a) f = f a

module _ ⦃bn : BigNumber⦄ where
  between_defined : Decimal → Decimal → Result Difference
  unfolding infinite
  between_defined d1 d2 =
      if is_some (infinite d1)
      then (if is_some (infinite d2) then ok undefined else ok (difference plus d1))
      else (if is_some (infinite d2)
          then ok (difference minus d2)
          else (if gt d1 d2
              then (do d ← sub d1 d2; ok (difference plus d))
              else (if gt d2 d1
                  then (do d ← sub d2 d1; ok (difference minus d))
                  else ok (difference no_sign zero_decimal))))

  unfoldable pub between : Option Decimal → Option Decimal → Result Difference
  unfolding between_defined
  between none d2 = ok undefined
  between (some d1) none = ok undefined
  between (some d1) (some d2) = between_defined d1 d2

  -- `Difference.mul`.
  unfoldable pub scale : Difference → Decimal → Difference
  scale d multiplier = elim d.number [
    | none ↦ undefined
    | some n ↦ difference n.sign (mul n.absolute_value multiplier)
  ]

  -- `Difference.nonZero`.
  unfoldable pub non_zero_difference : Difference → Option Difference
  non_zero_difference d =
      and_then d.number (λ n. and_then (non_zero n.absolute_value) (λ _. some d))

  unfoldable pub infinite_difference : Difference → Option Difference
  infinite_difference d =
      and_then d.number (λ n. and_then (infinite n.absolute_value) (λ _. some d))

  unfoldable pub finite_difference : Difference → Option Difference
  finite_difference d = and_then d.number (λ n. and_then (finite n.absolute_value) (λ _. some d))

abbrev sign_is_plus : Sign → Bool
sign_is_plus plus = true
sign_is_plus _ = false

abbrev sign_is_minus : Sign → Bool
sign_is_minus minus = true
sign_is_minus _ = false

unfoldable pub positive : Difference → Option Difference
positive d = and_then d.number (λ n. if sign_is_plus n.sign then some d else none)

unfoldable pub negative : Difference → Option Difference
negative d = and_then d.number (λ n. if sign_is_minus n.sign then some d else none)

unfoldable pub absolute_value_of : Difference → Option Decimal
absolute_value_of d = and_then d.number (λ n. some n.absolute_value)
