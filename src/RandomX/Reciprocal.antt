-- ===== src/RandomX/Reciprocal.antt =====
-- `randomx_reciprocal` (src/randomx/superscalar.rs).
pub mod Exact
use miner_tim.Common.{
  ℕ, zero, suc, ◌+◌, ◌/◌, ◌%◌, ◌^◌, Option, none, some, u64, ◌<<<◌, ◌==◌, if◌then◌else◌,
}

-- `64 - leading_zeros` of a number below `2 ^ fuel`.
unfoldable pub bit_length : ℕ → ℕ → ℕ
bit_length zero n = 0
bit_length (suc fuel) zero = 0
bit_length (suc fuel) (suc n) = suc (bit_length fuel (suc n / 2))

-- A failed `assert!` is none. `<<` drops what leaves the 64 bits.
unfoldable pub randomx_reciprocal : ℕ → Option ℕ
unfolding bit_length
randomx_reciprocal divisor =
    let q = 2 ^ 63 / divisor in
    let r = 2 ^ 63 % divisor in
    let shift = bit_length 64 divisor in
    (if divisor == 0 then none else some (u64 (q <<< shift) + u64 (r <<< shift) / divisor))
