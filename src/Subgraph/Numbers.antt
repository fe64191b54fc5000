-- ===== src/Subgraph/Numbers.antt =====
-- What the subgraph uses of the classes `BigInt` and `BigDecimal` of @graphprotocol/graph-ts, which is
-- not part of the repository: its operations are parameters. Sums and differences of a `BigInt` are exact.
-- Those of a `BigDecimal` are rounded to 34 digits, and nothing is assumed of them.
use Prim.Native.String.{String}
use stablecoin_sdk.Base.{ℕ, ◌+◌, ◌%◌, ◌≡◌, ◌∙◌, sym, ap, Bool, Option}

pub record Additive (A : Type 0) : Type 0 where
  pub zero_of : A
  pub plus : A → A → A
  pub minus : A → A → A
  pub plus_assoc : (a b c : A) → plus (plus a b) c ≡ plus a (plus b c)
  pub plus_comm : (a b : A) → plus a b ≡ plus b a
  pub plus-zero : (a : A) → plus a zero_of ≡ a
  pub minus-plus : (a b : A) → plus (minus a b) b ≡ a
  pub plus-minus : (a b : A) → minus (plus a b) b ≡ a

-- The operators of both classes. `div_decimal` is `BigInt.divDecimal`, and `nullable_lt` compares a
-- number with one that may be null, and has no result where that
-- traps, as `to_i32` has none of a number that is too large.
pub record GraphNumbers : Type 1 where
  pub BigInt : Type 0
  pub BigDecimal : Type 0
  pub ints : Additive BigInt
  pub decimal_plus : BigDecimal → BigDecimal → BigDecimal
  pub decimal_minus : BigDecimal → BigDecimal → BigDecimal
  pub int_from_i32 : ℕ → BigInt
  pub to_i32 : BigInt → Option ℕ
  pub int_pow : BigInt → ℕ → BigInt
  pub int_times : BigInt → BigInt → BigInt
  pub int_div : BigInt → BigInt → BigInt
  pub int_eq : BigInt → BigInt → Bool
  pub int_lt : BigInt → BigInt → Bool
  pub div_decimal : BigInt → BigDecimal → BigDecimal
  pub decimal_from_string : String → BigDecimal
  pub decimal_times : BigDecimal → BigDecimal → BigDecimal
  pub decimal_div : BigDecimal → BigDecimal → BigDecimal
  pub truncate : BigDecimal → ℕ → BigDecimal
  pub decimal_eq : BigDecimal → BigDecimal → Bool
  pub decimal_lt : BigDecimal → BigDecimal → Bool
  pub decimal_le : BigDecimal → BigDecimal → Bool
  pub nullable_lt : BigDecimal → Option BigDecimal → Option Bool
  pub zero_int_lem : int_from_i32 0 ≡ ints.zero_of

-- `x++` and `x--` on an `i32`, whose bits are a number below 2 ^ 32.
abbrev pub increment : ℕ → ℕ
increment n = (n + 1) % 4_294_967_296

abbrev pub decrement : ℕ → ℕ
decrement n = (n + 4_294_967_295) % 4_294_967_296

module _ ⦃num : GraphNumbers⦄ where
  abbrev pub decimal_precision : ℕ
  decimal_precision = 18

  unfoldable pub decimal_scaling_factor : num.BigDecimal
  decimal_scaling_factor = num.decimal_from_string "1000000000000000000"

  unfoldable pub bigint_scaling_factor : num.BigInt
  bigint_scaling_factor = num.int_pow (num.int_from_i32 10) 18

  unfoldable pub decimal_zero : num.BigDecimal
  decimal_zero = num.decimal_from_string "0"

  unfoldable pub decimal_one : num.BigDecimal
  decimal_one = num.decimal_from_string "1"

  unfoldable pub gas_compensation_divisor : num.BigDecimal
  gas_compensation_divisor = num.decimal_from_string "200"

  unfoldable pub bigint_zero : num.BigInt
  bigint_zero = num.int_from_i32 0

  unfoldable pub decimalize : num.BigInt → num.BigDecimal
  decimalize n = num.div_decimal n decimal_scaling_factor

module _ {A : Type 0} (add : Additive A) where
  pub plus-cancel_right : (a b c : A) → add.plus a c ≡ add.plus b c → a ≡ b
  plus-cancel_right a b c h =
      sym (add.plus-minus a c) ∙ ap (λ x. add.minus x c) h ∙ add.plus-minus b c
