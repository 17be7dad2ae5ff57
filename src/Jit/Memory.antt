-- ===== src/Jit/Memory.antt =====
-- Loads, stores and prefetches (src/randomx/jit/aarch64.rs).
use miner_tim.Common.{ℕ, ◌/◌, bit_and}
use miner_tim.Jit.Emitter.{Emitter, emit, ◌|||◌, shl32, ℤ, as_u32, div_trunc}

unfoldable pub prfm_reg : ℕ → ℕ → Emitter → Emitter
prfm_reg rn rm e = emit (0xF8A06800 ||| shl32 rm 16 ||| shl32 rn 5) e

unfoldable pub prfm_imm : ℕ → ℕ → Emitter → Emitter
prfm_imm rn byte_offset e =
    let scaled = byte_offset / 8 in emit (0xF9800000 ||| shl32 scaled 10 ||| shl32 rn 5) e

unfoldable pub stp_fp_imm : ℕ → ℕ → ℕ → ℤ → Emitter → Emitter
stp_fp_imm dt1 dt2 rn byte_offset e =
    let imm7 = bit_and (as_u32 (div_trunc byte_offset 8)) 0x7F in
    emit (0x6D000000 ||| shl32 imm7 15 ||| shl32 dt2 10 ||| shl32 rn 5 ||| dt1) e

unfoldable pub ldp_fp_imm : ℕ → ℕ → ℕ → ℤ → Emitter → Emitter
ldp_fp_imm dt1 dt2 rn byte_offset e =
    let imm7 = bit_and (as_u32 (div_trunc byte_offset 8)) 0x7F in
    emit (0x6D400000 ||| shl32 imm7 15 ||| shl32 dt2 10 ||| shl32 rn 5 ||| dt1) e

unfoldable pub ldr_reg : ℕ → ℕ → ℕ → Emitter → Emitter
ldr_reg rt rn rm e = emit (0xF8606800 ||| shl32 rm 16 ||| shl32 rn 5 ||| rt) e

unfoldable pub ldr_imm : ℕ → ℕ → ℕ → Emitter → Emitter
ldr_imm rt rn imm_byte_offset e =
    let scaled = imm_byte_offset / 8 in
    emit (0xF9400000 ||| shl32 scaled 10 ||| shl32 rn 5 ||| rt) e

unfoldable pub str_reg : ℕ → ℕ → ℕ → Emitter → Emitter
str_reg rt rn rm e = emit (0xF8206800 ||| shl32 rm 16 ||| shl32 rn 5 ||| rt) e

unfoldable pub str_imm : ℕ → ℕ → ℕ → Emitter → Emitter
str_imm rt rn imm_byte_offset e =
    let scaled = imm_byte_offset / 8 in
    emit (0xF9000000 ||| shl32 scaled 10 ||| shl32 rn 5 ||| rt) e

unfoldable pub ldr_fp_imm : ℕ → ℕ → ℕ → Emitter → Emitter
ldr_fp_imm dt rn imm_byte_offset e =
    let scaled = imm_byte_offset / 8 in
    emit (0xFD400000 ||| shl32 scaled 10 ||| shl32 rn 5 ||| dt) e

unfoldable pub str_fp_imm : ℕ → ℕ → ℕ → Emitter → Emitter
str_fp_imm dt rn imm_byte_offset e =
    let scaled = imm_byte_offset / 8 in
    emit (0xFD000000 ||| shl32 scaled 10 ||| shl32 rn 5 ||| dt) e

unfoldable pub stp_pre : ℕ → ℕ → ℕ → ℤ → Emitter → Emitter
stp_pre rt1 rt2 rn imm_byte_offset e =
    let imm7 = bit_and (as_u32 (div_trunc imm_byte_offset 8)) 0x7F in
    emit (0xA9800000 ||| shl32 imm7 15 ||| shl32 rt2 10 ||| shl32 rn 5 ||| rt1) e

unfoldable pub ldp_post : ℕ → ℕ → ℕ → ℤ → Emitter → Emitter
ldp_post rt1 rt2 rn imm_byte_offset e =
    let imm7 = bit_and (as_u32 (div_trunc imm_byte_offset 8)) 0x7F in
    emit (0xA8C00000 ||| shl32 imm7 15 ||| shl32 rt2 10 ||| shl32 rn 5 ||| rt1) e

unfoldable pub stp_fp_pre : ℕ → ℕ → ℕ → ℤ → Emitter → Emitter
stp_fp_pre dt1 dt2 rn imm_byte_offset e =
    let imm7 = bit_and (as_u32 (div_trunc imm_byte_offset 8)) 0x7F in
    emit (0x6D800000 ||| shl32 imm7 15 ||| shl32 dt2 10 ||| shl32 rn 5 ||| dt1) e

unfoldable pub ldp_fp_post : ℕ → ℕ → ℕ → ℤ → Emitter → Emitter
ldp_fp_post dt1 dt2 rn imm_byte_offset e =
    let imm7 = bit_and (as_u32 (div_trunc imm_byte_offset 8)) 0x7F in
    emit (0x6CC00000 ||| shl32 imm7 15 ||| shl32 dt2 10 ||| shl32 rn 5 ||| dt1) e

unfoldable pub ldr_w_reg : ℕ → ℕ → ℕ → Emitter → Emitter
ldr_w_reg rt rn rm e = emit (0xB8606800 ||| shl32 rm 16 ||| shl32 rn 5 ||| rt) e

unfoldable pub ldrsw_reg : ℕ → ℕ → ℕ → Emitter → Emitter
ldrsw_reg rt rn rm e = emit (0xB8A06800 ||| shl32 rm 16 ||| shl32 rn 5 ||| rt) e
