-- ===== src/Base/Result.antt =====
-- What a call returns: a value, or the exception that it throws.
use stablecoin_sdk.Base.{◌⊎◌, inl, inr, ◌≡◌, refl, Bool, true, false, List}
use Prim.Native.String.{String}

-- One constructor for each `throw new Error` and for `assert`, and `rejected` for a promise that the
-- protocol behind a read rejects.
pub data Failure : Type 0 where
  negative_decimal assertion_failed out_of_fuel : Failure
  net_debt_below_reserve trove_exists trove_empty : Failure
  not_allowed missing : List String → Failure
  both_collateral_changes both_debt_changes no_change : Failure
  current_above_initial : Failure
  rejected : String → Failure

-- Exceptions first: most proofs treat them first.
pub data Result {ℓ} (R : Type ℓ) : Type ℓ where
  err : Failure → Result R
  ok : R → Result R

-- `assert(test)`, and `if (!test) throw`.
abbrev pub require : Bool → Failure → Result (Unit {0})
require false failure = err failure
require true failure = ok tt

-- Statements in sequence: an exception ends them.
infixl 5 ◌>>=◌
abbrev pub ◌>>=◌ {ℓ ℓ'} : {R : Type ℓ} {S : Type ℓ'} → Result R → (R → Result S) → Result S
err failure >>= rest = err failure
ok value >>= rest = rest value

infixl 5 ◌>>◌
abbrev pub ◌>>◌ {ℓ} : {S : Type ℓ} → Result (Unit {0}) → Result S → Result S
first >> rest = first >>= λ _. rest

-- A sequence that returns has a first part that returns, and its value leads to the result.
pub sequence_returns {ℓ ℓ'} :
    {R : Type ℓ} {S : Type ℓ'} {result : S} (first : Result R) (rest : R → Result S)
    → (first >>= rest) ≡ ok result
    → (value : R) × (first ≡ ok value) × (rest value ≡ ok result)
sequence_returns (err failure) rest returned = cc
sequence_returns (ok value) rest returned = (value, refl, returned)

pub Result-cases {ℓ} :
    {A : Type ℓ} (r : Result A) → ((a : A) × (r ≡ ok a)) ⊎ ((e : Failure) × (r ≡ err e))
Result-cases (ok a) = inl (a, refl)
Result-cases (err e) = inr (e, refl)
