-- ===== src/Trove/Params.antt =====
-- The parameter objects of `Trove.create` and `Trove.adjust`: `_normalizeTroveCreation`,
-- `_normalizeTroveAdjustment` and the functions that use them. An object is the list of its entries, in
-- the order of `Object.entries`.
pub mod Normal
pub mod Creation
pub mod Adjusted
use Prim.Native.String.{String}
use text.Mathlib.Text.{◌==◌}
use stablecoin_sdk.Base.{
  Bool, true, false, not, ◌||◌, Option, none, some, List, [], ◌∷◌, if◌then◌else◌,
}
use stablecoin_sdk.Base.Result.{
  Result, ok, err, assertion_failed, not_allowed, missing, both_collateral_changes,
  both_debt_changes, no_change, ◌>>=◌,
}
use stablecoin_sdk.BigNumber.{BigNumber}
use stablecoin_sdk.Constants.{Environment}
use stablecoin_sdk.Decimal.{Decimal, is_zero}
use stablecoin_sdk.Trove.{Trove, empty_trove}
use stablecoin_sdk.Trove.Change.{
  CollateralChange, deposit_collateral, withdraw_collateral, DebtChange, borrow_debt_token,
  repay_debt_token, TroveCreationParams, TroveAdjustmentParams, collateral_only, debt_only, both,
  TroveChange, invalid_creation, creation, closure, adjustment, what_changed, apply,
}

abbrev pub Entries : Type 0
Entries = List (String × Option Decimal)

-- `Object.entries(params).filter(valueIsDefined)`.
unfoldable pub defined_entries : Entries → List (String × Decimal)
defined_entries [] = []
defined_entries ((k, none) ∷ entries) = defined_entries entries
defined_entries ((k, some v) ∷ entries) = (k, v) ∷ defined_entries entries

-- `array.includes(key)`.
unfoldable pub includes : List String → String → Bool
includes [] key = false
includes (k ∷ keys) key = k == key || includes keys key

unfoldable pub bad_keys : List String → List (String × Decimal) → List String
bad_keys allowed [] = []
bad_keys allowed ((k, v) ∷ entries) =
    if includes allowed k then bad_keys allowed entries else k ∷ bad_keys allowed entries

abbrev throw_if_any {ℓ} :
    {A : Type ℓ} → List String → (List String → Result A) → Result A → Result A
throw_if_any [] throw rest = rest
throw_if_any (k ∷ keys) throw rest = throw (k ∷ keys)

-- `Object.fromEntries(entries)[key]`: the last entry with the key counts.
unfoldable pub value_of : String → List (String × Decimal) → Option Decimal
value_of key [] = none
value_of key ((k, v) ∷ entries) = elim (value_of key entries) [
  | some w ↦ some w
  | none ↦ if k == key then some v else none
]

abbrev pub allowed_trove_creation_keys : List String
allowed_trove_creation_keys = "depositCollateral" ∷ "borrowDebtToken" ∷ []

abbrev pub allowed_trove_adjustment_keys : List String
allowed_trove_adjustment_keys =
    "depositCollateral" ∷ "withdrawCollateral" ∷ "borrowDebtToken" ∷ "repayDebtToken" ∷ []

abbrev creation_params : Option Decimal → Option Decimal → Result TroveCreationParams
creation_params (some d) (some b) = ok (record { deposited = d; borrowed = b })
creation_params (some d) none = err (missing ("borrowDebtToken" ∷ []))
creation_params none (some b) = err (missing ("depositCollateral" ∷ []))
creation_params none none = err (missing ("depositCollateral" ∷ "borrowDebtToken" ∷ []))

-- `_normalizeTroveCreation`.
unfoldable pub normalize_trove_creation : Entries → Result TroveCreationParams
unfolding includes value_of
normalize_trove_creation params =
    let entries = defined_entries params in
    throw_if_any (bad_keys allowed_trove_creation_keys entries) (λ keys. err (not_allowed keys))
      (creation_params (value_of "depositCollateral" entries) (value_of "borrowDebtToken" entries))

-- `collateralChangeFrom` and `debtChangeFrom`.
abbrev pub collateral_change_from :
    Option Decimal → Option Decimal → Result (Option CollateralChange)
collateral_change_from (some d) (some w) = err both_collateral_changes
collateral_change_from (some d) none = ok (some (deposit_collateral d))
collateral_change_from none (some w) = ok (some (withdraw_collateral w))
collateral_change_from none none = ok none

abbrev pub debt_change_from : Option Decimal → Option Decimal → Result (Option DebtChange)
debt_change_from (some b) (some r) = err both_debt_changes
debt_change_from (some b) none = ok (some (borrow_debt_token b))
debt_change_from none (some r) = ok (some (repay_debt_token r))
debt_change_from none none = ok none

abbrev pub combine : Option CollateralChange → Option DebtChange → Result TroveAdjustmentParams
combine (some c) (some d) = ok (both c d)
combine (some c) none = ok (collateral_only c)
combine none (some d) = ok (debt_only d)
combine none none = err no_change

-- `troveAdjustmentParamsFromEntries`.
unfoldable pub adjustment_params_from_entries :
    List (String × Decimal) → Result TroveAdjustmentParams
adjustment_params_from_entries entries = do
  c ←
      collateral_change_from (value_of "depositCollateral" entries)
        (value_of "withdrawCollateral" entries)
  d ← debt_change_from (value_of "borrowDebtToken" entries) (value_of "repayDebtToken" entries)
  combine c d

module _ ⦃bn : BigNumber⦄ where
  -- `.filter(nonZero)`.
  unfoldable pub non_zero_entries : List (String × Decimal) → List (String × Decimal)
  non_zero_entries [] = []
  non_zero_entries ((k, v) ∷ entries) =
      if is_zero v then non_zero_entries entries else (k, v) ∷ non_zero_entries entries

  -- `_normalizeTroveAdjustment`.
  unfoldable pub normalize_trove_adjustment : Entries → Result TroveAdjustmentParams
  normalize_trove_adjustment params =
      let entries = defined_entries params in
      throw_if_any (bad_keys allowed_trove_adjustment_keys entries) (λ keys. err (not_allowed keys))
        (adjustment_params_from_entries (non_zero_entries entries))

module _ ⦃bn : BigNumber⦄ ⦃env : Environment⦄ where
  -- `Trove.create`.
  unfoldable pub create_trove : Entries → Option Decimal → Result Trove
  create_trove params borrowing_rate = do
    p ← normalize_trove_creation params
    apply empty_trove (some (creation p)) borrowing_rate

  -- `assert(change?.type === "creation")`, and the parameters.
  abbrev pub params_of_creation : Option TroveChange → Result TroveCreationParams
  params_of_creation (some (creation p)) = ok p
  params_of_creation _ = err assertion_failed

  -- `Trove.recreate`.
  unfoldable pub recreate : Trove → Option Decimal → Result TroveCreationParams
  recreate that borrowing_rate = do
    change ← what_changed empty_trove that borrowing_rate
    params_of_creation change

  -- `Trove.adjust`.
  unfoldable pub adjust : Trove → Entries → Option Decimal → Result Trove
  adjust t params borrowing_rate = do
    p ← normalize_trove_adjustment params
    apply t (some (adjustment p none)) borrowing_rate

  abbrev pub params_of_adjustment : Option TroveChange → Result TroveAdjustmentParams
  params_of_adjustment (some (adjustment p z)) = ok p
  params_of_adjustment _ = err assertion_failed

  -- `Trove.adjustTo`.
  unfoldable pub adjust_to : Trove → Trove → Option Decimal → Result TroveAdjustmentParams
  adjust_to t that borrowing_rate = do
    change ← what_changed t that borrowing_rate
    params_of_adjustment change
