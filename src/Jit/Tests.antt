-- ===== src/Jit/Tests.antt =====
-- Words of the encoder at fixed operands, and the properties of it at concrete instructions.
use miner_tim.Common.{◌≡◌, refl, arith, [], ◌∷◌, All}
use miner_tim.Jit.Emitter.{new, negsuc, emit}
use miner_tim.Jit.Integer.{add_reg, mul, neg}
use miner_tim.Jit.Moves.{mov_imm64}
use miner_tim.Jit.Memory.{stp_fp_imm, ldp_fp_imm, stp_pre, ldp_post, stp_fp_pre, ldp_fp_post}
use miner_tim.Jit.Fields.{Appends}
use miner_tim.Jit.Offsets.{pair_fields, pair_offset}
use miner_tim.Jit.Loads.{Loads}
use miner_tim.Jit.Immediates.{mov_imm64_lem}

words :
    ((add_reg 8 8 9 new).code ≡ 0x8B090108 ∷ [])
    × ((mul 8 8 9 new).code ≡ 0x9B097D08 ∷ [])
    × ((neg 8 9 new).code ≡ 0xCB0903E8 ∷ [])
    × ((mov_imm64 20 0x1FFFF8 new).code ≡ 0xD29FFF14 ∷ 0xF2A003F4 ∷ [])
unfolding emit add_reg mul neg mov_imm64
words = (refl, refl, refl, refl)

pair_offset_example :
    All
      (λ (f, op). Appends pair_fields (op, 0, 1, 31, negsuc 63) new (f 0 1 31 (negsuc 511) new))
      ((stp_fp_imm, 0x1B4)
        ∷ (ldp_fp_imm, 0x1B5)
        ∷ (stp_pre, 0x2A6)
        ∷ (ldp_post, 0x2A3)
        ∷ (stp_fp_pre, 0x1B6)
        ∷ (ldp_fp_post, 0x1B3)
        ∷ [])
pair_offset_example =
    pair_offset 0 1 31 (negsuc 63) new (omega arith) (omega arith) (omega arith) (omega arith)

mov_imm64_lem_example : Loads 20 7 new (mov_imm64 20 0xFFFFFFFFFFFF1234 new) 0xFFFFFFFFFFFF1234
mov_imm64_lem_example = mov_imm64_lem 20 7 0xFFFFFFFFFFFF1234 new (omega arith) (omega arith)

-- The chunk that MOVN has set already is set once more, unless it is the lowest one.
set_again : (mov_imm64 20 0xFFFFFFFF1234FFFF new).code ≡ 0x92BDB974 ∷ 0xF2A24694 ∷ []
unfolding emit mov_imm64
set_again = refl
