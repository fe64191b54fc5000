-- ===== src/Trove/Params/Normal.antt =====
-- What `_normalizeTroveAdjustment` accepts, and what it makes of it.
use Prim.Native.String.{String}
use text.Mathlib.Text.{◌==◌ as str_eq}
use stablecoin_sdk.Base.{
  ◌≡◌, ◌↔◌, refl, true, Option, none, some, List, [], ◌∷◌, ◌==◌, arith, if◌then◌else◌, Bool-cases,
  ◌⊎◌, inl, inr,
}
use stablecoin_sdk.Base.Result.{Result, ok, err, not_allowed, ◌>>=◌}
use stablecoin_sdk.BigNumber.{BigNumber}
use stablecoin_sdk.Decimal.{Decimal}
use stablecoin_sdk.Decimal.Values.{is_zero-eq}
use stablecoin_sdk.Trove.Change.{
  deposit_collateral, withdraw_collateral, borrow_debt_token, repay_debt_token,
  TroveAdjustmentParams, collateral_only, debt_only, both, collateral_part, debt_part, deposit_of,
  withdrawal_of, borrowing_of, repayment_of,
}
use stablecoin_sdk.Trove.Params.{
  Entries, defined_entries, includes, bad_keys, throw_if_any, value_of,
  allowed_trove_adjustment_keys, collateral_change_from, debt_change_from, combine,
  adjustment_params_from_entries, non_zero_entries, normalize_trove_adjustment,
}

-- The amount that an object gives for a key: the last one that is defined and not zero.
abbrev pub unless_zero : Option Decimal → Option Decimal
unless_zero none = none
unless_zero (some v) = if v.big_number == 0 then none else some v

abbrev pub amount : String → Entries → Option Decimal
amount key [] = none
amount key ((k, o) ∷ entries) = elim (amount key entries) [
  | some w ↦ some w
  | none ↦ if str_eq k key then unless_zero o else none
]

-- Every key with a defined value is allowed.
abbrev pub HasKeysIn : List String → Entries → Type 0
HasKeysIn allowed [] = Unit
HasKeysIn allowed ((k, none) ∷ entries) = HasKeysIn allowed entries
HasKeysIn allowed ((k, some v) ∷ entries) = (includes allowed k ≡ true) × HasKeysIn allowed entries

List-cases {ℓ} : {A : Type ℓ} (l : List A) → (l ≡ []) ⊎ ((a : A) × (r : List A) × (l ≡ a ∷ r))
List-cases [] = inl refl
List-cases (a ∷ r) = inr (a, r, refl)

bad_keys-nil :
    (allowed : List String) (es : Entries)
    → (bad_keys allowed (defined_entries es) ≡ []) ↔ HasKeysIn allowed es
unfolding bad_keys defined_entries
bad_keys-nil allowed [] = (λ _. tt, λ _. refl)
bad_keys-nil allowed ((k, none) ∷ es) = bad_keys-nil allowed es
bad_keys-nil allowed ((k, some v) ∷ es) =
    let (to, from) = bad_keys-nil allowed es in
    elim (Bool-cases (includes allowed k)) [
      | inl good ↦ (λ h. (good, to (rw good at h)), λ (_, h). rw good (from h))
      | inr bad ↦ (λ h. cc (rw bad at h), λ (g, _). cc)
    ]

-- The parameters are those that give the four amounts.
abbrev pub Gives :
    TroveAdjustmentParams
    → Option Decimal
    → Option Decimal
    → Option Decimal
    → Option Decimal
    → Type 0
Gives p deposit withdrawal borrowing repayment =
    (deposit_of (collateral_part p) ≡ deposit)
    × (withdrawal_of (collateral_part p) ≡ withdrawal)
    × (borrowing_of (debt_part p) ≡ borrowing)
    × (repayment_of (debt_part p) ≡ repayment)

abbrev from_amounts :
    Option Decimal → Option Decimal → Option Decimal → Option Decimal → Result TroveAdjustmentParams
from_amounts deposit withdrawal borrowing repayment = do
  c ← collateral_change_from deposit withdrawal
  d ← debt_change_from borrowing repayment
  combine c d

from_amounts-Gives :
    (a b c d : Option Decimal) (p : TroveAdjustmentParams)
    → from_amounts a b c d ≡ ok p
    → Gives p a b c d
from_amounts-Gives a b c d p h = ground arith

Gives-from_amounts :
    (p : TroveAdjustmentParams)
    → from_amounts
        (deposit_of (collateral_part p))
        (withdrawal_of (collateral_part p))
        (borrowing_of (debt_part p))
        (repayment_of (debt_part p))
      ≡ ok p
Gives-from_amounts (collateral_only (deposit_collateral x)) = refl
Gives-from_amounts (collateral_only (withdraw_collateral x)) = refl
Gives-from_amounts (debt_only (borrow_debt_token x)) = refl
Gives-from_amounts (debt_only (repay_debt_token x)) = refl
Gives-from_amounts (both (deposit_collateral x) (borrow_debt_token y)) = refl
Gives-from_amounts (both (deposit_collateral x) (repay_debt_token y)) = refl
Gives-from_amounts (both (withdraw_collateral x) (borrow_debt_token y)) = refl
Gives-from_amounts (both (withdraw_collateral x) (repay_debt_token y)) = refl

module _ ⦃bn : BigNumber⦄ where
  value_of-amount :
      (key : String) (es : Entries)
      → value_of key (non_zero_entries (defined_entries es)) ≡ amount key es
  unfolding value_of non_zero_entries defined_entries
  value_of-amount key [] = refl
  value_of-amount key ((k, none) ∷ es) = ground (arith, value_of-amount key es)
  value_of-amount key ((k, some v) ∷ es) = ground (arith, value_of-amount key es, is_zero-eq v)

  abbrev normal_amounts : Entries → Result TroveAdjustmentParams
  normal_amounts es =
      from_amounts (amount "depositCollateral" es) (amount "withdrawCollateral" es)
        (amount "borrowDebtToken" es) (amount "repayDebtToken" es)

  normalize-eq :
      (es : Entries)
      → normalize_trove_adjustment es
        ≡ throw_if_any
            (bad_keys allowed_trove_adjustment_keys (defined_entries es))
            (λ keys. err (not_allowed keys))
            (normal_amounts es)
  unfolding normalize_trove_adjustment adjustment_params_from_entries
  normalize-eq es = simp value_of-amount

  -- `_normalizeTroveAdjustment` returns `p` exactly if every defined key is one of the four, and `p` gives
  -- for each of the four the last amount that is defined and not zero, and nothing where there is none.
  pub normalize_trove_adjustment_iff :
      (es : Entries) (p : TroveAdjustmentParams)
      → (normalize_trove_adjustment es ≡ ok p) ↔ (
          HasKeysIn allowed_trove_adjustment_keys es
          × Gives p
              (amount "depositCollateral" es)
              (amount "withdrawCollateral" es)
              (amount "borrowDebtToken" es)
              (amount "repayDebtToken" es))
  normalize_trove_adjustment_iff es p = (
    λ h. elim (List-cases (bad_keys allowed_trove_adjustment_keys (defined_entries es))) [
      | inl good ↦ (
        (bad_keys-nil allowed_trove_adjustment_keys es).0 good,
        from_amounts-Gives _ _ _ _ p (rw (normalize-eq es, good) at h),
      )
      | inr (k, keys, bad) ↦ absurd (cc (rw (normalize-eq es, bad) at h))
    ],
    λ (good, gives).
        rw
          (
            normalize-eq es,
            (bad_keys-nil allowed_trove_adjustment_keys es).1 good,
            ← gives.0,
            ← gives.1,
            ← gives.2,
            ← gives.3,
          )
          (Gives-from_amounts p),
  )
