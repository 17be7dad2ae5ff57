-- ===== src/RandomX/Params/Floats.antt =====
-- The constants of the a-registers (src/randomx/vm.rs) as bits of doubles.
use miner_tim.Common.{
  ℕ, ◌+◌, ◌-◌, ◌*◌, ◌/◌, ◌%◌, ◌^◌, ◌<◌, bit_and, bit_or, u64, ◌≡◌, arith, ap₂, ◌∙◌,
}
use miner_tim.Common.Bits.{bit_and_low, bit_or_disjoint}
use miner_tim.RandomX.Params.{get_small_positive_float_bits}

-- The bits are those of a double whose exponent is `1023 + entropy / 2 ^ 59` and whose mantissa is
-- the low 52 bits of the entropy: at least 1 and less than `2 ^ 32`, never an infinity or a NaN.
pub get_small_positive_float_bits-fields :
    (entropy_word : ℕ)
    → entropy_word < 2 ^ 64
    → (get_small_positive_float_bits entropy_word / 2 ^ 52 ≡ 1023 + entropy_word / 2 ^ 59)
      × ((get_small_positive_float_bits entropy_word % 2 ^ 52 ≡ entropy_word % 2 ^ 52)
          × (get_small_positive_float_bits entropy_word / 2 ^ 52 < 1055))
unfolding get_small_positive_float_bits
get_small_positive_float_bits-fields e h =
    let joined : get_small_positive_float_bits e ≡ (1023 + e / 2 ^ 59) * 2 ^ 52 + e % 2 ^ 52 =
      ap₂ bit_or high (bit_and_low 52 e)
      ∙ bit_or_disjoint 52 (1023 + e / 2 ^ 59) (e % 2 ^ 52) (omega arith) in
    (omega (arith, joined), (omega (arith, joined), omega (arith, joined)))
  where
    high :
        u64 (bit_and (u64 (e / 2 ^ 59 + 1023)) (2 ^ 11 - 1) * 2 ^ 52) ≡ (1023 + e / 2 ^ 59) * 2 ^ 52
    high = omega (arith, bit_and_low 11 (u64 (e / 2 ^ 59 + 1023)))
