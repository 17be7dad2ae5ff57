-- ===== src/Jit/Chunks.antt =====
-- The four 16-bit chunks of a 64-bit number (src/randomx/jit/aarch64.rs, `mov_imm64`).
use miner_tim.Common.{ℕ, zero, suc, ◌+◌, ◌-◌, ◌*◌, ◌/◌, ◌%◌, ◌^◌, ◌<◌, ◌≡◌, arith, ap, ◌∙◌}
use native.Mathlib.Nat.{div-lt_iff_lt-mul, one-le-pow}
use miner_tim.Common.Bits.{bit_and_low}
use miner_tim.Jit.Moves.{chunk, complement}

pub chunk_value : (x i : ℕ) → chunk x i ≡ x / 2 ^ (16 * i) % 2 ^ 16
unfolding chunk
chunk_value x i = bit_and_low 16 (x / 2 ^ (16 * i))

pub chunk-lt : (x i : ℕ) → chunk x i < 2 ^ 16
chunk-lt x i = omega (arith, chunk_value x i)

-- Lane `i` of `x` replaced by `c`.
abbrev pub set_lane : ℕ → ℕ → ℕ → ℕ
set_lane x i c = x - x / 2 ^ (16 * i) % 2 ^ 16 * 2 ^ (16 * i) + c * 2 ^ (16 * i)

pub kept_lane : (x i c : ℕ) → i < 4 → x / 2 ^ (16 * i) % 2 ^ 16 ≡ c → x ≡ set_lane x i c
kept_lane x zero c li h = omega arith
kept_lane x (suc zero) c li h = omega arith
kept_lane x (suc (suc zero)) c li h = omega arith
kept_lane x (suc (suc (suc zero))) c li h = omega arith
kept_lane x (suc (suc (suc (suc i)))) c li h = absurd (omega arith)

pub chunk-complement : (x i : ℕ) → i < 4 → x < 2 ^ 64 → chunk x i + chunk (complement x) i ≡ 0xFFFF
unfolding complement
chunk-complement x zero li lt = omega (arith, chunk_value x 0, chunk_value (complement x) 0)
chunk-complement x (suc zero) li lt = omega (arith, chunk_value x 1, chunk_value (complement x) 1)
chunk-complement x (suc (suc zero)) li lt =
    omega (arith, chunk_value x 2, chunk_value (complement x) 2)
chunk-complement x (suc (suc (suc zero))) li lt =
    omega (arith, chunk_value x 3, chunk_value (complement x) 3)
chunk-complement x (suc (suc (suc (suc i)))) li lt = absurd (omega arith)

pub chunks_sum :
    (x : ℕ)
    → x < 2 ^ 64
    → chunk x 0 + chunk x 1 * 2 ^ 16 + chunk x 2 * 2 ^ 32 + chunk x 3 * 2 ^ 48 ≡ x
chunks_sum x lt = omega (arith, chunk_value x 0, chunk_value x 1, chunk_value x 2, chunk_value x 3)

pub set_lane_free : (x i c : ℕ) → x < 2 ^ (16 * i) → set_lane x i c ≡ x + c * 2 ^ (16 * i)
set_lane_free x i c lt =
    ap (λ (q : ℕ). x - q % 2 ^ 16 * 2 ^ (16 * i) + c * 2 ^ (16 * i)) none_above ∙ omega arith
  where
    none_above : x / 2 ^ (16 * i) ≡ 0
    none_above =
        let below : x / 2 ^ (16 * i) < 1 =
          (div-lt_iff_lt-mul {k = 2 ^ (16 * i)} {x = x} {y = 1}
              (one-le-pow (16 * i) 2 (omega arith))).1
            (omega arith) in
        omega arith
