-- ===== src/RandomX/Reciprocal/Exact.antt =====
-- `randomx_reciprocal` (src/randomx/superscalar.rs) is a quotient rounded down.
use miner_tim.Common.{
  ℕ, zero, suc, ◌+◌, ◌-◌, ◌*◌, ◌/◌, ◌%◌, ◌^◌, ◌≤◌, ◌<◌, bit_and, ◌≡◌, ◌≢◌, refl, sym, ap, ap₂, ◌∙◌,
  arith, true, false, some, u64, ◌==◌,
}
use miner_tim.Common.Bits.{bit_and_low}
use miner_tim.RandomX.Instruction.{is_zero_or_power_of_2}
use miner_tim.RandomX.Reciprocal.{bit_length, randomx_reciprocal}
use native.Mathlib.Nat.{
  pow-suc, mul-le-mul_left, mul-add-div, div-add-mod, mod-lt, one-le-pow, pow-le-pow_right,
  div-lt_iff_lt-mul, mod_self, mod-eq_of_lt, add-mul, mul_assoc,
}

bit_length-zero : (fuel : ℕ) → bit_length fuel 0 ≡ 0
unfolding bit_length
bit_length-zero zero = refl
bit_length-zero (suc fuel) = refl

-- A number below `2 ^ fuel` has as many bits as its length says.
bit_length-bounds :
    (fuel n : ℕ)
    → 0 < n
    → n < 2 ^ fuel
    → (2 ^ bit_length fuel n ≤ 2 * n) × (n < 2 ^ bit_length fuel n)
unfolding bit_length
bit_length-bounds zero n h lt = absurd (omega arith)
bit_length-bounds (suc fuel) zero h lt = absurd (omega arith)
bit_length-bounds (suc fuel) (suc zero) h lt = rw (bit_length-zero fuel) (omega arith, omega arith)
bit_length-bounds (suc fuel) (suc (suc n)) h lt =
    let (low, high) =
      bit_length-bounds fuel (suc (suc n) / 2) (omega arith) (omega (arith, pow-suc 2 fuel, lt)) in
    (
      omega (arith, pow-suc 2 (bit_length fuel (suc (suc n) / 2)), low),
      omega (arith, pow-suc 2 (bit_length fuel (suc (suc n) / 2)), high),
    )

bit_length-le : (fuel k n : ℕ) → n < 2 ^ k → bit_length fuel n ≤ k
unfolding bit_length
bit_length-le zero k n h = omega arith
bit_length-le (suc fuel) k zero h = omega arith
bit_length-le (suc fuel) zero (suc n) h = absurd (omega arith)
bit_length-le (suc fuel) (suc k) (suc n) h =
    omega (arith, bit_length-le fuel k (suc n / 2) (omega (arith, pow-suc 2 k)))

pred-wraps : (x : ℕ) → 0 < x → x < 2 ^ 64 → u64 (x + 2 ^ 64 - 1) ≡ x - 1
pred-wraps x h lt = omega arith

power-passes : (k : ℕ) → 2 ^ k < 2 ^ 64 → is_zero_or_power_of_2 (2 ^ k) ≡ true
power-passes k lt =
    ap (λ (t : ℕ). t == 0)
      (ap (bit_and (2 ^ k)) (pred-wraps (2 ^ k) (omega (arith, one-le-pow k 2)) lt)
        ∙ bit_and_low k (2 ^ k)
        ∙ mod_self (2 ^ k))

module _ (d : ℕ) (other : is_zero_or_power_of_2 d ≡ false) (fits : d < 2 ^ 32) where
  positive : (n : ℕ) → n ≡ d → 0 < n
  positive zero e = absurd (contradiction (ap is_zero_or_power_of_2 e ∙ other))
    where
      contradiction : ¬ (true ≡ false)
      contradiction h = cc
  positive (suc n) e = omega arith

  not_power : (s : ℕ) → 2 ^ s ≢ 2 * d
  not_power zero e = absurd (omega arith)
  not_power (suc k) e =
      let same : 2 ^ k ≡ d = omega (arith, pow-suc 2 k) in
      contradiction
        (sym (power-passes k (omega (arith, same))) ∙ ap is_zero_or_power_of_2 same ∙ other)
    where
      contradiction : ¬ (true ≡ false)
      contradiction h = cc

  -- The power of two above the divisor is less than twice the divisor.
  power-bounds :
      (0 < d)
      × ((2 ^ bit_length 64 d + 1 ≤ 2 * d)
          × ((d < 2 ^ bit_length 64 d) × (2 ^ bit_length 64 d ≤ 2 ^ 32)))
  power-bounds =
      let above = positive d refl in
      let (low, high) = bit_length-bounds 64 d above (omega arith) in
      (
        above,
        (
          omega (arith, low, not_power (bit_length 64 d)),
          (high, pow-le-pow_right (omega arith) (bit_length-le 64 32 d fits)),
        ),
      )

-- The scaled quotient and remainder make up the quotient of the scaled number.
scaled : (n d p : ℕ) → 0 < d → n / d * p + n % d * p / d ≡ n * p / d
scaled n d p h =
    sym (mul-add-div h (n / d * p) (n % d * p))
    ∙ ap (λ t. t / d)
        (omega (
          arith,
          ap (λ (t : ℕ). t * p) (div-add-mod n d),
          add-mul (d * (n / d)) (n % d) p,
          mul_assoc d (n / d) p,
        ))

total-fits : (d p : ℕ) → p + 1 ≤ 2 * d → 0 < d → 2 ^ 63 * p / d < 2 ^ 64
total-fits d p h above = (div-lt_iff_lt-mul above).1 (omega arith)

quotient-fits : (d p : ℕ) → p + 1 ≤ 2 * d → 0 < d → 2 ^ 63 / d * p < 2 ^ 64
quotient-fits d p h above = omega (arith, total-fits d p h above, scaled (2 ^ 63) d p above)

remainder-fits : (n d p : ℕ) → p ≤ 2 ^ 32 → d < 2 ^ 32 → 0 < d → n % d * p < 2 ^ 64
remainder-fits n d p h fits above = omega (arith, mul-le-mul_left (n % d) h, mod-lt n above)

nonzero : (d : ℕ) → 0 < d → (d == 0) ≡ false
nonzero d h = ground arith

-- For a divisor of 32 bits that is neither zero nor a power of two, nothing wraps: the result is
-- `2 ^ (63 + n)` divided by the divisor of `n` bits, rounded down, and it fits 64 bits.
pub randomx_reciprocal-exact :
    (divisor : ℕ)
    → is_zero_or_power_of_2 divisor ≡ false
    → divisor < 2 ^ 32
    → (randomx_reciprocal divisor ≡ some (2 ^ 63 * 2 ^ bit_length 64 divisor / divisor))
      × (2 ^ 63 * 2 ^ bit_length 64 divisor / divisor < 2 ^ 64)
unfolding randomx_reciprocal
randomx_reciprocal-exact divisor other fits =
    let (above, (low, (high, small))) = power-bounds divisor other fits in
    let p = 2 ^ bit_length 64 divisor in
    (
      rw (nonzero divisor above) (
          ap (λ x. some x)
            (ap₂ (λ (x y : ℕ). x + y / divisor) (mod-eq_of_lt (quotient-fits divisor p low above))
                (mod-eq_of_lt (remainder-fits (2 ^ 63) divisor p small fits above))
              ∙ scaled (2 ^ 63) divisor p above)),
      total-fits divisor p low above,
    )
