-- ===== src/BigNumber.antt =====
-- What lib-base uses of the class `BigNumber` of the package @ethersproject/bignumber: arithmetic on
-- integers of any size. The package is not part of the repository, so its operations are parameters
-- with their documented behaviour as laws. A value that is not negative stands as the number that it
-- denotes; only `sub` can leave that range. `div` throws on a zero divisor: the code tests first, and
-- there is no law for that case.
use stablecoin_sdk.Base.{ℕ, ◌+◌, ◌*◌, ◌/◌, ◌%◌, ◌^◌, ◌<◌, ◌≡◌, refl, Bool, ltb, leb, ◌==◌}
use stablecoin_sdk.Base.Int.{ℤ, sub_ℕ}

pub record BigNumber : Type 0 where
  pub add : ℕ → ℕ → ℕ
  pub sub : ℕ → ℕ → ℤ
  pub mul : ℕ → ℕ → ℕ
  pub div : ℕ → ℕ → ℕ
  pub mod_of : ℕ → ℕ → ℕ
  pub pow : ℕ → ℕ → ℕ
  pub is_zero : ℕ → Bool
  pub eq : ℕ → ℕ → Bool
  pub lt : ℕ → ℕ → Bool
  pub gt : ℕ → ℕ → Bool
  pub lte : ℕ → ℕ → Bool
  pub gte : ℕ → ℕ → Bool
  pub add_lem : (a b : ℕ) → add a b ≡ a + b
  pub sub_lem : (a b : ℕ) → sub a b ≡ sub_ℕ a b
  pub mul_lem : (a b : ℕ) → mul a b ≡ a * b
  pub div_lem : (a b : ℕ) → 0 < b → div a b ≡ a / b
  pub mod_of_lem : (a b : ℕ) → 0 < b → mod_of a b ≡ a % b
  pub pow_lem : (a b : ℕ) → pow a b ≡ a ^ b
  pub is_zero_lem : (a : ℕ) → is_zero a ≡ (a == 0)
  pub eq_lem : (a b : ℕ) → eq a b ≡ (a == b)
  pub lt_lem : (a b : ℕ) → lt a b ≡ ltb a b
  pub gt_lem : (a b : ℕ) → gt a b ≡ ltb b a
  pub lte_lem : (a b : ℕ) → lte a b ≡ leb a b
  pub gte_lem : (a b : ℕ) → gte a b ≡ leb b a

-- The native arithmetic has this behaviour: the laws can be met, and the models run on it in tests.
abbrev pub native_numbers : BigNumber
native_numbers = record {
  add = ◌+◌;
  sub = sub_ℕ;
  mul = ◌*◌;
  div = ◌/◌;
  mod_of = ◌%◌;
  pow = ◌^◌;
  is_zero = λ a. a == 0;
  eq = ◌==◌;
  lt = ltb;
  gt = λ a b. ltb b a;
  lte = leb;
  gte = λ a b. leb b a;
  add_lem = λ a b. refl;
  sub_lem = λ a b. refl;
  mul_lem = λ a b. refl;
  div_lem = λ a b h. refl;
  mod_of_lem = λ a b h. refl;
  pow_lem = λ a b. refl;
  is_zero_lem = λ a. refl;
  eq_lem = λ a b. refl;
  lt_lem = λ a b. refl;
  gt_lem = λ a b. refl;
  lte_lem = λ a b. refl;
  gte_lem = λ a b. refl;
}
