-- ===== src/Jit/Immediates.antt =====
-- `mov_imm64` loads the number it is asked for (src/randomx/jit/aarch64.rs).
use miner_tim.Common.{ℕ, ◌^◌, ◌<◌, ◌≡◌, inl, inr, arith, true, ◌==◌, ltb, Bool-cases, subst}
use miner_tim.Jit.Emitter.{Emitter}
use miner_tim.Jit.Loads.{Loads, Loads-movz}
use miner_tim.Jit.Moves.{movz, nz_count, complement, mov_imm64}
use miner_tim.Jit.MovzChain.{movz_chain}
use miner_tim.Jit.MovnChain.{movn_chain}

-- For a register below 32 and any 64-bit number: `mov_imm64` appends wide moves to that register, and running them,
-- whatever the register held before, leaves the number in it.
pub mov_imm64_lem :
    (rd v imm : ℕ) (e : Emitter) → rd < 2 ^ 5 → imm < 2 ^ 64 → Loads rd v e (mov_imm64 rd imm e) imm
unfolding mov_imm64
mov_imm64_lem rd v imm e ld lt = elim (Bool-cases (imm == 0)) [
  | inl z ↦
      rw (z, mov_imm64)
        (subst (λ (y : ℕ). Loads rd v e (movz rd 0 0 e) y) (zero_is z)
          (Loads-movz rd v ld 0 0 e (omega arith) (omega arith)))
  | inr nz ↦ elim (Bool-cases (ltb (nz_count (complement imm)) (nz_count imm))) [
    | inl fewer ↦ rw (nz, fewer, mov_imm64) (movn_chain rd v imm e ld lt)
    | inr others ↦ rw (nz, others, mov_imm64) (movz_chain rd v imm e ld lt)
  ]
]
  where
    zero_is : (imm == 0) ≡ true → 0 ≡ imm
    zero_is h = ground arith
