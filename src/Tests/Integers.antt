-- ===== src/Tests/Integers.antt =====
-- Integers and decimals of 18 digits in the place of those of @graphprotocol/graph-ts.
use stablecoin_sdk.Base.{zero, suc, ◌+◌, ◌≡◌, arith}
use stablecoin_sdk.Base.Int.{ℤ, pos, negsuc, sub_ℕ}
use stablecoin_sdk.Subgraph.Numbers.{Additive}

abbrev pub plus_ℤ : ℤ → ℤ → ℤ
plus_ℤ (pos a) (pos b) = pos (a + b)
plus_ℤ (pos a) (negsuc b) = sub_ℕ a (b + 1)
plus_ℤ (negsuc a) (pos b) = sub_ℕ b (a + 1)
plus_ℤ (negsuc a) (negsuc b) = negsuc (a + b + 1)

abbrev pub opposite : ℤ → ℤ
opposite (pos zero) = pos 0
opposite (pos (suc n)) = negsuc n
opposite (negsuc n) = pos (n + 1)

pub plus_ℤ_assoc : (a b c : ℤ) → plus_ℤ (plus_ℤ a b) c ≡ plus_ℤ a (plus_ℤ b c)
plus_ℤ_assoc a b c = ground arith

pub plus_ℤ_comm : (a b : ℤ) → plus_ℤ a b ≡ plus_ℤ b a
plus_ℤ_comm a b = ground arith

pub plus_ℤ-zero : (a : ℤ) → plus_ℤ a (pos 0) ≡ a
plus_ℤ-zero a = ground arith

pub opposite-plus : (a b : ℤ) → plus_ℤ (plus_ℤ a (opposite b)) b ≡ a
opposite-plus a b = ground arith

pub plus-opposite : (a b : ℤ) → plus_ℤ (plus_ℤ a b) (opposite b) ≡ a
plus-opposite a b = ground arith

abbrev pub integers : Additive ℤ
integers = record {
  zero_of = pos 0;
  plus = plus_ℤ;
  minus = λ a b. plus_ℤ a (opposite b);
  plus_assoc = plus_ℤ_assoc;
  plus_comm = plus_ℤ_comm;
  plus-zero = plus_ℤ-zero;
  minus-plus = opposite-plus;
  plus-minus = plus-opposite;
}
