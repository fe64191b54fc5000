-- ===== src/Decimal/Powers.antt =====
-- `Decimal.pow`: it returns for every exponent of 32 bits, computes exact powers of whole numbers,
-- and is monotone in its base.
use native.Mathlib.Nat.{pow-zero, pow-suc, mul_assoc}
use stablecoin_sdk.Base.{
  ℕ, zero, suc, ◌+◌, ◌*◌, ◌/◌, ◌%◌, ◌^◌, ◌≤◌, ◌<◌, ◌≡◌, ◌≢◌, ◌↔◌, ◌⊎◌, refl, ap, ltb, ◌==◌, arith,
  some, Bool-cases, ◌∙◌, inl, inr, if◌then◌else◌,
}
use stablecoin_sdk.Base.Division.{div_mono}
use stablecoin_sdk.Base.Result.{ok}
use stablecoin_sdk.BigNumber.{BigNumber}
use stablecoin_sdk.Decimal.{Decimal, decimal, one, rounded_mul, pow_loop, pow}
use stablecoin_sdk.Decimal.Values.{unit, digits-eq, rounded_mul-eq}

-- One round of repeated squaring, on exact powers.
pow_double : (k a : ℕ) → (k * k) ^ a ≡ k ^ (a + a)
pow_double k zero = simp (pow-zero, pow-zero) refl
pow_double k (suc a) =
    let e : suc a + suc a ≡ suc (suc (a + a)) = omega arith in
    rw (e, pow-suc, pow_double k a) (simp (pow-suc, mul_assoc))

pow_even : (k e : ℕ) → e % 2 ≢ 1 → (k * k) ^ (e / 2) ≡ k ^ e
pow_even k e h = let s : e / 2 + e / 2 ≡ e = omega arith in rw (pow_double k (e / 2), s) refl

pow_odd : (k e : ℕ) → e % 2 ≡ 1 → (k * k) ^ (e / 2) * k ≡ k ^ e
pow_odd k e h =
    let s : suc (e / 2 + e / 2) ≡ e = omega arith in
    rw (pow_double k (e / 2), ← pow-suc k (e / 2 + e / 2), s) refl

pow-one : (k : ℕ) → k ^ 1 ≡ k
pow-one k = rw (pow-suc k 0, pow-zero) (omega arith)

one-pow : (n : ℕ) → 1 ^ n ≡ 1
one-pow zero = pow-zero 1
one-pow (suc n) = rw (pow-suc, one-pow n) refl

rounded : ℕ → ℕ → ℕ
rounded x y = (x * y + 500_000_000_000_000_000) / unit

rounded_multiple : (k y : ℕ) → rounded (k * unit) y ≡ k * y
unfolding rounded
rounded_multiple k y = let e : k * unit * y ≡ k * y * unit = omega arith in rw e (omega arith)

rounded_mono : (a b x y : ℕ) → a ≤ x → b ≤ y → rounded a b ≤ rounded x y
unfolding rounded
rounded_mono a b x y h g =
    div_mono _ _ unit (omega arith) (let m : a * b ≤ x * y = grind arith in omega arith)

module _ ⦃bn : BigNumber⦄ where
  rounded_mul-rounded : (x y : ℕ) → rounded_mul x y ≡ rounded x y
  unfolding rounded
  rounded_mul-rounded x y = rounded_mul-eq x y

  rounded_mul_mono : (a b x y : ℕ) → a ≤ x → b ≤ y → rounded_mul a b ≤ rounded_mul x y
  rounded_mul_mono a b x y h g =
      rw (rounded_mul-rounded a b, rounded_mul-rounded x y) (rounded_mono a b x y h g)

  multiple : (k y : ℕ) → rounded_mul (k * unit) y ≡ k * y
  multiple k y = rounded_mul-rounded (k * unit) y ∙ rounded_multiple k y

  square : (k : ℕ) → rounded_mul (k * unit) (k * unit) ≡ k * k * unit
  square k = multiple k (k * unit) ∙ omega arith

  -- The loop ends: each round halves the exponent.
  pow_loop_total :
      (fuel e x y : ℕ) → 0 < e → e < 2 ^ fuel → (p : ℕ × ℕ) × (pow_loop fuel e x y ≡ some p)
  unfolding pow_loop
  pow_loop_total zero e x y pos h = absurd (omega arith)
  pow_loop_total (suc fuel) e x y pos h = elim (Bool-cases (ltb 1 e)) [
    | inl more ↦
        let small : e < 2 ^ fuel * 2 = rw pow-suc at h in
        rw more (
          pow_loop_total fuel (e / 2) (rounded_mul x x) (if e % 2 == 1 then rounded_mul x y else y)
            (ground arith) (omega arith))
    | inr done ↦ ((x, y), rw done)
  ]

  -- On the multiple `k` of one, the loop and the last product give `k ^ e` times `y`.
  pow_loop_multiple :
      (fuel e k y : ℕ) (p : ℕ × ℕ)
      → 0 < e
      → pow_loop fuel e (k * unit) y ≡ some p
      → rounded p.0 p.1 ≡ k ^ e * y
  unfolding pow_loop
  pow_loop_multiple zero e k y p pos h = cc
  pow_loop_multiple (suc fuel) e k y p pos h = elim (Bool-cases (ltb 1 e)) [
    | inl more ↦
        let next = rw (more, square k) at h in
        elim (Bool-cases (e % 2 == 1)) [
          | inl odd ↦
              let rest = rw (odd, multiple k y) at next in
              rw (pow_loop_multiple fuel (e / 2) (k * k) (k * y) p (ground arith) rest)
                (rw (← pow_odd k e (ground arith)) (omega arith))
          | inr even ↦
              let rest = rw even at next in
              rw (pow_loop_multiple fuel (e / 2) (k * k) y p (ground arith) rest)
                (rw (pow_even k e (ground arith)) refl)
        ]
    | inr done ↦
        let one_left : e ≡ 1 = ground arith in
        let last : (k * unit, y) ≡ p = ground arith in
        rw (← last, one_left) (rounded_multiple k y ∙ rw (pow-one k) refl)
  ]

  -- The results are ordered as the arguments are.
  pow_loop_mono :
      (fuel e x y x' y' : ℕ) (p p' : ℕ × ℕ)
      → x ≤ x'
      → y ≤ y'
      → pow_loop fuel e x y ≡ some p
      → pow_loop fuel e x' y' ≡ some p'
      → (p.0 ≤ p'.0) × (p.1 ≤ p'.1)
  unfolding pow_loop
  pow_loop_mono zero e x y x' y' p p' hx hy h h' = cc
  pow_loop_mono (suc fuel) e x y x' y' p p' hx hy h h' = elim (Bool-cases (ltb 1 e)) [
    | inl more ↦
        pow_loop_mono fuel (e / 2) (rounded_mul x x) (if e % 2 == 1 then rounded_mul x y else y)
          (rounded_mul x' x') (if e % 2 == 1 then rounded_mul x' y' else y') p p'
          (rounded_mul_mono x x x' x' hx hx) (ground (arith, rounded_mul_mono x y x' y' hx hy))
          (rw more at h) (rw more at h')
    | inr done ↦ ground arith
  ]

  -- `pow` where the loop runs.
  pow_many :
      (d : Decimal) (n : ℕ)
      → 1 < n
      → n ≤ 0xffffffff
      → (p : ℕ × ℕ) × (pow_loop 32 n d.big_number unit ≡ some p)
        × (pow d n ≡ ok (decimal (rounded p.0 p.1)))
  unfolding pow
  pow_many d n more h =
      let (p, found) = pow_loop_total 32 n d.big_number unit (omega arith) (omega arith) in
      (p, found, rw digits-eq (ground (arith, rounded_mul-rounded p.0 p.1)))

  pub pow-zero_exponent : (d : Decimal) → pow d 0 ≡ ok one
  unfolding pow
  pow-zero_exponent d = refl

  pow-one_exponent : (d : Decimal) → pow d 1 ≡ ok d
  unfolding pow
  pow-one_exponent d = refl

  exponent_cases : (n : ℕ) → (n ≡ 0) ⊎ ((n ≡ 1) ⊎ (1 < n))
  exponent_cases n = grind arith

  -- `pow` returns exactly for the exponents of 32 bits: for those its loop ends and no assertion
  -- fails, and for any other it throws.
  pub pow_returns_iff :
      (d : Decimal) (n : ℕ) → ((r : Decimal) × (pow d n ≡ ok r)) ↔ (n ≤ 0xffffffff)
  unfolding pow
  pow_returns_iff d n = (
    λ (r, e). ground arith,
    λ h. elim (exponent_cases n) [
      | inl e ↦ (one, rw e refl)
      | inr (inl e) ↦ (d, rw e refl)
      | inr (inr more) ↦
          let (p, _, value) = pow_many d n more h in (decimal (rounded p.0 p.1), value)
    ],
  )

  pow_bound : (d : Decimal) (n : ℕ) {r : Decimal} → pow d n ≡ ok r → n ≤ 0xffffffff
  pow_bound d n {r} e = (pow_returns_iff d n).0 (r, e)

  -- The power of a whole number `k` is the whole number `k ^ n`, with no rounding error, for every
  -- exponent of 32 bits.
  pub pow_whole :
      (k n : ℕ) → n ≤ 0xffffffff → pow (decimal (k * unit)) n ≡ ok (decimal (k ^ n * unit))
  pow_whole k n h = elim (exponent_cases n) [
    | inl e ↦ rw (e, pow-zero) (pow-zero_exponent _)
    | inr (inl e) ↦ rw (e, pow-one) (pow-one_exponent _)
    | inr (inr more) ↦
        let (p, found, value) = pow_many (decimal (k * unit)) n more h in
        value ∙ ap (λ m. ok (decimal m)) (pow_loop_multiple 32 n k unit p (omega arith) found)
  ]

  -- Where `pow` returns for both, a larger base has no smaller power.
  pub pow_mono :
      (d e : Decimal) (n : ℕ) {r s : Decimal}
      → d.big_number ≤ e.big_number
      → pow d n ≡ ok r
      → pow e n ≡ ok s
      → r.big_number ≤ s.big_number
  pow_mono d e n {r} {s} le hr hs = elim (exponent_cases n) [
    | inl z ↦
        let a = rw z at hr in
        let b = rw z at hs in ground (arith, pow-zero_exponent d, pow-zero_exponent e)
    | inr (inl o) ↦
        let a = rw o at hr in
        let b = rw o at hs in ground (arith, pow-one_exponent d, pow-one_exponent e)
    | inr (inr more) ↦
        let (p, fp, vp) = pow_many d n more (pow_bound d n hr) in
        let (q, fq, vq) = pow_many e n more (pow_bound d n hr) in
        let (hx, hy) =
          pow_loop_mono 32 n d.big_number unit e.big_number unit p q le (omega arith) fp fq in
        ground (arith, rounded_mono p.0 p.1 q.0 q.1 hx hy)
  ]

  pow_one_base : (n : ℕ) → n ≤ 0xffffffff → pow one n ≡ ok one
  pow_one_base n h = pow_whole 1 n h ∙ ap (λ m. ok (decimal m)) (rw one-pow (omega arith))

  -- Where `pow` returns, a base of at most one has powers of at most one, in spite of the rounding.
  pub pow_le_one :
      (d : Decimal) (n : ℕ) {r : Decimal}
      → d.big_number ≤ one.big_number
      → pow d n ≡ ok r
      → r.big_number ≤ one.big_number
  pow_le_one d n h e = pow_mono d one n h e (pow_one_base n (pow_bound d n e))
