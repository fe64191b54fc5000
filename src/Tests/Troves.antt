-- ===== src/Tests/Troves.antt =====
-- Runs of `Trove` and of the classes that extend it.
use stablecoin_sdk.Base.{◌*◌, ◌≤◌, ◌<◌, ◌≡◌, ◌≢◌, ◌⊎◌, ◌↔◌, refl, arith, true, none, some, [], ◌∷◌}
use stablecoin_sdk.Base.Result.{ok, err, net_debt_below_reserve}
use stablecoin_sdk.Tests.{numbers, environment}
use stablecoin_sdk.Constants.{critical_collateral_ratio, minimum_collateral_ratio}
use stablecoin_sdk.Decimal.{Decimal, decimal, one, half, zero_decimal}
use stablecoin_sdk.Fees.{minimum_borrowing_rate}
use stablecoin_sdk.Trove.{
  Trove, trove, empty_trove, collateral_ratio_is_below_minimum, collateral_ratio_is_below_critical,
}
use stablecoin_sdk.Trove.Ratio.{below_ratio_iff}
use stablecoin_sdk.Trove.Change.{
  borrow_debt_token, withdraw_collateral, TroveCreationParams, TroveAdjustmentParams, both,
  zero_collateral, apply_fee, unapply_fee, apply_adjustment, what_changed,
}
use stablecoin_sdk.Trove.Change.Fee.{unapply-apply_fee}
use stablecoin_sdk.Trove.Change.Shape.{moved, apply_adjustment-eq}
use stablecoin_sdk.Trove.Change.Lands.{Lands}
use stablecoin_sdk.Trove.Change.RoundTrip.{IsBlocked, IsMet, apply-what_changed}
use stablecoin_sdk.Trove.Params.{
  Entries, allowed_trove_adjustment_keys, includes, normalize_trove_adjustment, recreate, adjust,
  adjust_to, create_trove,
}
use stablecoin_sdk.Trove.Params.Normal.{HasKeysIn, Gives, amount, normalize_trove_adjustment_iff}
use stablecoin_sdk.Trove.Params.Creation.{creation_entries, create-recreate}
use stablecoin_sdk.Trove.Params.Adjusted.{adjustment_entries, adjust-adjust_to}
use stablecoin_sdk.Trove.Redistribution.{
  UserTrove, TroveWithPendingRedistribution, open_trove, apply_redistribution,
}
use stablecoin_sdk.Trove.Redistribution.Growth.{apply_redistribution_grows}

-- 2 of collateral with a debt of 500, and 3 with 700.
abbrev pub small_trove : Trove
small_trove = trove (decimal 2_000_000_000_000_000_000) (decimal 500_000_000_000_000_000_000)

abbrev pub large_trove : Trove
large_trove = trove (decimal 3_000_000_000_000_000_000) (decimal 700_000_000_000_000_000_000)

abbrev pub some_price : Decimal
some_price = decimal 300_000_000_000_000_000_000

abbrev pub pending_trove : TroveWithPendingRedistribution
pending_trove = record {
  user_trove = record { base = small_trove; owner_address = "0x02"; status = open_trove };
  stake = one;
  snapshot_of_total_redistributed = small_trove;
}

abbrev some_entries : Entries
some_entries =
    ("withdrawCollateral", some one)
    ∷ ("repayDebtToken", none)
    ∷ ("borrowDebtToken", some half)
    ∷ ("depositCollateral", some zero_decimal)
    ∷ []

apply-what_changed_example :
    ((what_changed small_trove large_trove none ≡ err net_debt_below_reserve)
      × IsBlocked small_trove large_trove)
    ⊎ (IsMet small_trove large_trove none × (¬ IsBlocked small_trove large_trove))
apply-what_changed_example = apply-what_changed small_trove large_trove none (omega arith)

unapply-apply_fee_example :
    (b : Decimal) × (unapply_fee minimum_borrowing_rate (apply_fee minimum_borrowing_rate half)
      ≡ ok b)
    × (b.big_number ≤ half.big_number)
    × (apply_fee minimum_borrowing_rate b ≡ apply_fee minimum_borrowing_rate half)
    × ((b.big_number ≤ one.big_number) ↔ (
        (apply_fee minimum_borrowing_rate half).big_number
        ≤ (apply_fee minimum_borrowing_rate one).big_number))
unapply-apply_fee_example = unapply-apply_fee minimum_borrowing_rate half one

apply_adjustment-eq_example :
    apply_adjustment small_trove
      (both (withdraw_collateral one) (borrow_debt_token half))
      (some zero_collateral)
      minimum_borrowing_rate
    ≡ ok (
        moved small_trove
          (both (withdraw_collateral one) (borrow_debt_token half))
          (some zero_collateral)
          minimum_borrowing_rate)
apply_adjustment-eq_example =
    apply_adjustment-eq small_trove (both (withdraw_collateral one) (borrow_debt_token half))
      (some zero_collateral) minimum_borrowing_rate

normalize_trove_adjustment_iff_example :
    (normalize_trove_adjustment some_entries
      ≡ ok (both (withdraw_collateral one) (borrow_debt_token half)))
    ↔ (HasKeysIn allowed_trove_adjustment_keys some_entries
        × Gives
            (both (withdraw_collateral one) (borrow_debt_token half))
            (amount "depositCollateral" some_entries)
            (amount "withdrawCollateral" some_entries)
            (amount "borrowDebtToken" some_entries)
            (amount "repayDebtToken" some_entries))
normalize_trove_adjustment_iff_example =
    normalize_trove_adjustment_iff some_entries
      (both (withdraw_collateral one) (borrow_debt_token half))

some_entries_normal :
    normalize_trove_adjustment some_entries
    ≡ ok (both (withdraw_collateral one) (borrow_debt_token half))
unfolding includes
some_entries_normal =
    (normalize_trove_adjustment_iff some_entries
        (both (withdraw_collateral one) (borrow_debt_token half))).1
      ((refl, (refl, (refl, tt))), (refl, refl, refl, refl))

small_is_not_empty : small_trove ≢ empty_trove
small_is_not_empty e = ground arith

create-recreate_example :
    (p : TroveCreationParams) × (result : Trove) × (recreate small_trove none ≡ ok p)
    × (create_trove (creation_entries p) none ≡ ok result)
    × Lands empty_trove small_trove result
create-recreate_example =
    create-recreate small_trove none (omega arith) (omega arith) small_is_not_empty

large_is_not_empty : large_trove ≢ empty_trove
large_is_not_empty e = ground arith

small_is_not_large : small_trove ≢ large_trove
small_is_not_large e = ground arith

adjust-adjust_to_example :
    (p : TroveAdjustmentParams) × (result : Trove) × (adjust_to small_trove large_trove none ≡ ok p)
    × (adjust small_trove (adjustment_entries p) none ≡ ok result)
    × Lands small_trove large_trove result
adjust-adjust_to_example =
    adjust-adjust_to small_trove large_trove none (omega arith) small_is_not_large
      small_is_not_empty large_is_not_empty

apply_redistribution_grows_example :
    (u : UserTrove) × (u' : UserTrove) × (apply_redistribution pending_trove small_trove ≡ ok u)
    × (apply_redistribution pending_trove large_trove ≡ ok u')
    × (u.base.collateral.big_number ≤ u'.base.collateral.big_number)
    × (u.base.debt.big_number ≤ u'.base.debt.big_number)
    × (small_trove.collateral.big_number ≤ u.base.collateral.big_number)
    × (small_trove.debt.big_number ≤ u.base.debt.big_number)
    × (u'.owner_address ≡ "0x02")
    × (u'.status ≡ open_trove)
    × (apply_redistribution pending_trove small_trove ≡ ok pending_trove.user_trove)
apply_redistribution_grows_example =
    apply_redistribution_grows pending_trove small_trove large_trove (omega arith) (omega arith)

below_ratio_iff_example :
    ((collateral_ratio_is_below_minimum small_trove some_price ≡ true) ↔ (
      small_trove.collateral.big_number * some_price.big_number
      < minimum_collateral_ratio.big_number * small_trove.debt.big_number))
    × ((collateral_ratio_is_below_critical small_trove some_price ≡ true) ↔ (
        small_trove.collateral.big_number * some_price.big_number
        < critical_collateral_ratio.big_number * small_trove.debt.big_number))
below_ratio_iff_example = below_ratio_iff small_trove some_price (omega arith)
