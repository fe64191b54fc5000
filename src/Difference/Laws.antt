-- ===== src/Difference/Laws.antt =====
-- What `Difference.between` says of its operands.
use stablecoin_sdk.Base.{
  ℕ, ◌+◌, ◌-◌, ◌<◌, ◌≡◌, ◌≢◌, ◌⊎◌, inl, inr, refl, Option, none, some, ltb, if◌then◌else◌, arith,
}
use stablecoin_sdk.Base.Result.{ok, ◌>>=◌}
use stablecoin_sdk.BigNumber.{BigNumber}
use stablecoin_sdk.Decimal.{Decimal, decimal, infinity, zero_decimal, infinite}
use stablecoin_sdk.Decimal.Values.{eq-eq, gt-eq, sub-eq}
use stablecoin_sdk.Difference.{
  Sign, no_sign, plus, minus, Difference, undefined, difference, between,
}

-- The opposite difference.
abbrev pub opposite_sign : Sign → Sign
opposite_sign no_sign = no_sign
opposite_sign plus = minus
opposite_sign minus = plus

abbrev pub opposite : Difference → Difference
opposite d = elim d.number [
  | none ↦ undefined
  | some n ↦ difference (opposite_sign n.sign) n.absolute_value
]

-- How a sign and a size describe two numbers.
abbrev pub Describes : Sign → ℕ → ℕ → ℕ → Type 0
Describes plus d a b = (b + d ≡ a) × (0 < d)
Describes minus d a b = (a + d ≡ b) × (0 < d)
Describes no_sign d a b = (a ≡ b) × (d ≡ 0)

three_cases : (a b : ℕ) → (b < a) ⊎ ((a < b) ⊎ (a ≡ b))
three_cases a b = grind arith

module _ ⦃bn : BigNumber⦄ where
  between_value :
      (a b : Decimal)
      → a ≢ infinity
      → b ≢ infinity
      → between (some a) (some b) ≡ (
          if ltb b.big_number a.big_number
          then ok (difference plus (decimal (a.big_number - b.big_number)))
          else (if ltb a.big_number b.big_number
              then ok (difference minus (decimal (b.big_number - a.big_number)))
              else ok (difference no_sign zero_decimal)))
  unfolding between infinite
  between_value a b ha hb =
      ground
        (arith, eq-eq a infinity, eq-eq b infinity, gt-eq a b, gt-eq b a, sub-eq a b, sub-eq b a)

  -- Of two finite decimals `between` always returns a difference, and it describes the two: by "+" with
  -- what the first has more, by "-" with what the second has more, by no sign and zero if they are equal.
  pub between_finite :
      (a b : Decimal)
      → a ≢ infinity
      → b ≢ infinity
      → (s : Sign) × (d : Decimal) × (between (some a) (some b) ≡ ok (difference s d))
        × Describes s d.big_number a.big_number b.big_number
  between_finite a b ha hb = elim (three_cases a.big_number b.big_number) [
    | inl more ↦ (
      plus,
      decimal (a.big_number - b.big_number),
      ground (arith, between_value a b ha hb),
      (omega arith, omega arith),
    )
    | inr (inl less) ↦ (
      minus,
      decimal (b.big_number - a.big_number),
      ground (arith, between_value a b ha hb),
      (omega arith, omega arith),
    )
    | inr (inr same) ↦
        (no_sign, zero_decimal, ground (arith, between_value a b ha hb), (same, refl))
  ]

  -- Exchanging the operands gives the opposite difference, in every case.
  pub between_antisymmetric :
      (d1 d2 : Option Decimal) → between d2 d1 ≡ (do d ← between d1 d2; ok (opposite d))
  unfolding between infinite
  between_antisymmetric none none = refl
  between_antisymmetric none (some b) = refl
  between_antisymmetric (some a) none = refl
  between_antisymmetric (some a) (some b) =
      ground
        (arith, eq-eq a infinity, eq-eq b infinity, gt-eq a b, gt-eq b a, sub-eq a b, sub-eq b a)
