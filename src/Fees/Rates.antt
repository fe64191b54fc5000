-- ===== src/Fees/Rates.antt =====
-- The bounds of the base, borrowing and redemption rates.
use Prim.Native.Nat.{min as nat_min}
use stablecoin_sdk.Base.{
  ℕ, ◌+◌, ◌*◌, ◌≤◌, ◌<◌, ◌≡◌, ◌↔◌, ◌⊎◌, inl, inr, refl, Bool, true, false, ◌&&◌, Option, some, ◌==◌,
  arith, if◌then◌else◌, Bool-cases,
}
use stablecoin_sdk.Base.Division.{div_mono}
use stablecoin_sdk.Base.Result.{ok, sequence_returns}
use stablecoin_sdk.BigNumber.{BigNumber}
use stablecoin_sdk.Decimal.{Decimal, decimal, zero_decimal, one, mul, add, min, div, non_zero}
use stablecoin_sdk.Decimal.Values.{unit, eq-eq, lt-eq, add-eq, div-eq, min-eq, is_zero-eq}
use stablecoin_sdk.Decimal.Rounding.{mul_mono, one-mul}
use stablecoin_sdk.Decimal.Powers.{pow_le_one, pow_returns_iff, pow-zero_exponent}
use stablecoin_sdk.Fees.{
  Fees, minimum_borrowing_rate, maximum_borrowing_rate, minimum_redemption_rate, bool_eq,
  create_fees, set_recovery_mode, equals_fees, time_or, minutes_since, base_rate, borrowing_rate,
  redemption_rate, with_fraction,
}

-- What the constructor asserts.
pub record IsValidFees (f : Fees) : Type 0 where
  pub decays : f.minute_decay_factor.big_number < one.big_number

module _ ⦃bn : BigNumber⦄ where
  -- The constructor returns exactly if the decay factor is below one, and what it returns is valid.
  pub create_fees_iff :
      (base decay beta : Decimal) (last latest : ℕ) (recovery : Bool)
      → ((f : Fees) × (create_fees base decay beta last latest recovery ≡ ok f) × IsValidFees f)
        ↔ (decay.big_number < one.big_number)
  unfolding create_fees
  create_fees_iff base decay beta last latest recovery = (
    λ (f, e, v). ground (arith, lt-eq decay one),
    λ h. (
      record {
        base_rate_without_decay = base;
        minute_decay_factor = decay;
        beta = beta;
        last_fee_operation = last;
        time_of_latest_block = latest;
        recovery_mode = recovery;
      },
      ground (arith, lt-eq decay one),
      record { decays = h },
    ),
  )

  -- On valid fees the change of mode never throws, changes the mode alone and keeps them valid.
  pub set_recovery_mode-eq :
      (f : Fees) (recovery : Bool)
      → IsValidFees f
      → (set_recovery_mode f recovery ≡ ok (record f { recovery_mode = recovery }))
        × IsValidFees (record f { recovery_mode = recovery })
  unfolding set_recovery_mode
  set_recovery_mode-eq f recovery v =
      (ground (arith, lt-eq f.minute_decay_factor one), record { decays = v.decays })

  -- `equals` holds exactly of fees that agree in every field.
  pub equals_fees_iff : (f that : Fees) → (equals_fees f that ≡ true) ↔ (f ≡ that)
  equals_fees_iff f that = (
    λ h. ground (arith, equals_fees-fields f that),
    λ h. ground (arith, equals_fees-fields f that),
  )
    where
      equals_fees-fields :
          (f that : Fees)
          → equals_fees f that ≡ (
              (f.base_rate_without_decay.big_number == that.base_rate_without_decay.big_number)
              && ((f.minute_decay_factor.big_number == that.minute_decay_factor.big_number)
                  && ((f.beta.big_number == that.beta.big_number)
                      && (f.last_fee_operation == that.last_fee_operation
                          && (f.time_of_latest_block == that.time_of_latest_block
                              && bool_eq f.recovery_mode that.recovery_mode)))))
      equals_fees-fields f that = unfold equals_fees in simp eq-eq

  minutes_bounded_iff :
      (f : Fees) (when : ℕ)
      → (minutes_since f when ≤ 0xffffffff) ↔ (when < f.last_fee_operation + 257_698_037_760_000)
  unfolding minutes_since
  minutes_bounded_iff f when = (λ h. ground arith, λ h. ground arith)

  -- With the times in milliseconds, the base rate is computed exactly when the time it is asked for is less
  -- than 2 ^ 32 minutes, 257 698 037 760 000 milliseconds, after the last fee operation. Any time before
  -- the operation is.
  pub base_rate_returns_iff :
      (f : Fees) (when : Option ℕ)
      → ((r : Decimal) × (base_rate f when ≡ ok r))
        ↔ (time_or f when < f.last_fee_operation + 257_698_037_760_000)
  unfolding base_rate
  base_rate_returns_iff f when = (
    λ (r, e).
        let (factor, computed, _) = sequence_returns _ _ e in
        (minutes_bounded_iff f (time_or f when)).0
          ((pow_returns_iff f.minute_decay_factor _).0 (factor, computed)),
    λ h.
        let few = (minutes_bounded_iff f (time_or f when)).1 h in
        let (factor, computed) = (pow_returns_iff f.minute_decay_factor _).1 few in
        (mul factor f.base_rate_without_decay, rw computed refl),
  )

  -- Of valid fees the base rate, where it is computed, never exceeds the rate before the decay, at any time.
  pub base_rate_decays :
      (f : Fees) (when : Option ℕ) {r : Decimal}
      → IsValidFees f
      → base_rate f when ≡ ok r
      → r.big_number ≤ f.base_rate_without_decay.big_number
  unfolding base_rate
  base_rate_decays f when {r} v e =
      let (factor, computed, product) = sequence_returns _ _ e in
      let small = pow_le_one f.minute_decay_factor _ (omega arith) computed in
      let at_most = mul_mono factor one f.base_rate_without_decay small in
      ground (arith, one-mul f.base_rate_without_decay)

  -- Within a minute of the last fee operation, and at any time before it, nothing has decayed.
  pub base_rate_undecayed :
      (f : Fees) (when : ℕ)
      → when < f.last_fee_operation + 60000
      → base_rate f (some when) ≡ ok f.base_rate_without_decay
  unfolding base_rate
  base_rate_undecayed f when h =
      let none_passed : minutes_since f when ≡ 0 = ground arith in
      rw (none_passed, pow-zero_exponent f.minute_decay_factor) (rw one-mul refl)

  capped :
      (m x c : Decimal)
      → (min (add m x) c).big_number ≡ nat_min (m.big_number + x.big_number) c.big_number
  capped m x c = ground (arith, add-eq m x, min-eq (decimal (m.big_number + x.big_number)) c)

  -- Where it is computed, the borrowing rate is zero in recovery mode. In normal mode it lies between the minimum and the
  -- maximum, and within these bounds it is the minimum and the base rate.
  pub borrowing_rate_bounds :
      (f : Fees) (when : Option ℕ) {r : Decimal}
      → borrowing_rate f when ≡ ok r
      → ((f.recovery_mode ≡ true) × (r ≡ zero_decimal))
        ⊎ ((f.recovery_mode ≡ false)
            × (minimum_borrowing_rate.big_number ≤ r.big_number)
            × (r.big_number ≤ maximum_borrowing_rate.big_number)
            × ((base : Decimal) × (base_rate f when ≡ ok base)
                × (r.big_number
                    ≡ nat_min
                        (minimum_borrowing_rate.big_number + base.big_number)
                        maximum_borrowing_rate.big_number)))
  unfolding borrowing_rate
  borrowing_rate_bounds f when {r} e = elim (Bool-cases f.recovery_mode) [
    | inl on ↦ inl (on, ground arith)
    | inr off ↦
        let (base, computed, rate) = sequence_returns (base_rate f when) _ (simp off at e) in
        let value : r.big_number
            ≡ nat_min (minimum_borrowing_rate.big_number + base.big_number)
                maximum_borrowing_rate.big_number =
          ground (arith, capped minimum_borrowing_rate base maximum_borrowing_rate) in
        inr (off, omega arith, omega arith, (base, computed, value))
  ]

  fraction_part : Fees → Decimal → ℕ
  fraction_part f fraction =
      if fraction.big_number == 0 then 0 else (div fraction f.beta).big_number

  with_fraction-value :
      (f : Fees) (fraction base : Decimal)
      → (with_fraction f fraction base).big_number ≡ fraction_part f fraction + base.big_number
  unfolding fraction_part non_zero
  with_fraction-value f fraction base =
      ground (arith, is_zero-eq fraction, add-eq (div fraction f.beta) base)

  redemption_value :
      (f : Fees) (fraction : Decimal) (when : Option ℕ) {r : Decimal}
      → redemption_rate f fraction when ≡ ok r
      → (base : Decimal) × (base_rate f when ≡ ok base)
        × (r.big_number
            ≡ nat_min
                (minimum_redemption_rate.big_number + (fraction_part f fraction + base.big_number))
                one.big_number)
  unfolding redemption_rate
  redemption_value f fraction when {r} e =
      let (base, computed, rate) = sequence_returns _ _ e in
      (
        base,
        computed,
        ground (
          arith,
          with_fraction-value f fraction base,
          capped minimum_redemption_rate (with_fraction f fraction base) one,
        ),
      )

  div_mono_dividend :
      (d e m : Decimal) → d.big_number ≤ e.big_number → (div d m).big_number ≤ (div e m).big_number
  div_mono_dividend d e m h = ground (
    arith,
    div-eq d m,
    div-eq e m,
    div_mono (d.big_number * unit) (e.big_number * unit) m.big_number,
  )

  -- The redemption rate, where it returns, lies between its minimum and one, and it is no smaller for a
  -- larger redeemed fraction.
  pub redemption_rate_bounds :
      (f : Fees) (a b : Decimal) (when : Option ℕ) {r s : Decimal}
      → a.big_number ≤ b.big_number
      → redemption_rate f a when ≡ ok r
      → redemption_rate f b when ≡ ok s
      → (minimum_redemption_rate.big_number ≤ r.big_number)
        × (r.big_number ≤ s.big_number)
        × (s.big_number ≤ one.big_number)
  unfolding fraction_part
  redemption_rate_bounds f a b when le hr hs =
      let (base, computed, value) = redemption_value f a when hr in
      let (base', computed', value') = redemption_value f b when hs in
      ground (arith, div_mono_dividend a b f.beta)
