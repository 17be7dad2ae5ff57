-- ===== src/Jit/Integer.antt =====
-- Integer arithmetic, bitwise operations and shifts (src/randomx/jit/aarch64.rs).
use miner_tim.Common.{ℕ, ◌+◌, ◌-◌, ◌^◌, bit_and, u32}
use miner_tim.Jit.Emitter.{Emitter, emit, ◌|||◌, shl32, xzr}

unfoldable pub add_reg : ℕ → ℕ → ℕ → Emitter → Emitter
add_reg rd rn rm e = emit (0x8B000000 ||| shl32 rm 16 ||| shl32 rn 5 ||| rd) e

unfoldable pub add_reg_shifted : ℕ → ℕ → ℕ → ℕ → Emitter → Emitter
add_reg_shifted rd rn rm shift e =
    emit (0x8B000000 ||| shl32 rm 16 ||| shl32 (bit_and shift 0x3F) 10 ||| shl32 rn 5 ||| rd) e

unfoldable pub add_imm : ℕ → ℕ → ℕ → Emitter → Emitter
add_imm rd rn imm12 e = emit (0x91000000 ||| shl32 (bit_and imm12 0xFFF) 10 ||| shl32 rn 5 ||| rd) e

unfoldable pub sub_reg : ℕ → ℕ → ℕ → Emitter → Emitter
sub_reg rd rn rm e = emit (0xCB000000 ||| shl32 rm 16 ||| shl32 rn 5 ||| rd) e

unfoldable pub sub_imm : ℕ → ℕ → ℕ → Emitter → Emitter
sub_imm rd rn imm12 e = emit (0xD1000000 ||| shl32 (bit_and imm12 0xFFF) 10 ||| shl32 rn 5 ||| rd) e

unfoldable pub subs_imm : ℕ → ℕ → ℕ → Emitter → Emitter
subs_imm rd rn imm12 e =
    emit (0xF1000000 ||| shl32 (bit_and imm12 0xFFF) 10 ||| shl32 rn 5 ||| rd) e

unfoldable pub eor_reg_w : ℕ → ℕ → ℕ → Emitter → Emitter
eor_reg_w rd rn rm e = emit (0x4A000000 ||| shl32 rm 16 ||| shl32 rn 5 ||| rd) e

unfoldable pub mul : ℕ → ℕ → ℕ → Emitter → Emitter
mul rd rn rm e = emit (0x9B007C00 ||| shl32 rm 16 ||| shl32 rn 5 ||| rd) e

unfoldable pub umulh : ℕ → ℕ → ℕ → Emitter → Emitter
umulh rd rn rm e = emit (0x9BC07C00 ||| shl32 rm 16 ||| shl32 rn 5 ||| rd) e

unfoldable pub smulh : ℕ → ℕ → ℕ → Emitter → Emitter
smulh rd rn rm e = emit (0x9B407C00 ||| shl32 rm 16 ||| shl32 rn 5 ||| rd) e

unfoldable pub eor_reg : ℕ → ℕ → ℕ → Emitter → Emitter
eor_reg rd rn rm e = emit (0xCA000000 ||| shl32 rm 16 ||| shl32 rn 5 ||| rd) e

unfoldable pub and_reg : ℕ → ℕ → ℕ → Emitter → Emitter
and_reg rd rn rm e = emit (0x8A000000 ||| shl32 rm 16 ||| shl32 rn 5 ||| rd) e

unfoldable pub and_imm : ℕ → ℕ → ℕ → ℕ → ℕ → Emitter → Emitter
and_imm rd rn n immr imms e =
    emit (0x92000000 ||| shl32 n 22 ||| shl32 immr 16 ||| shl32 imms 10 ||| shl32 rn 5 ||| rd) e

unfoldable pub tst_imm : ℕ → ℕ → ℕ → ℕ → Emitter → Emitter
tst_imm rn n immr imms e =
    emit (0xF2000000 ||| shl32 n 22 ||| shl32 immr 16 ||| shl32 imms 10 ||| shl32 rn 5 ||| xzr) e

unfoldable pub orr_reg : ℕ → ℕ → ℕ → Emitter → Emitter
orr_reg rd rn rm e = emit (0xAA000000 ||| shl32 rm 16 ||| shl32 rn 5 ||| rd) e

unfoldable pub rorv : ℕ → ℕ → ℕ → Emitter → Emitter
rorv rd rn rm e = emit (0x9AC02C00 ||| shl32 rm 16 ||| shl32 rn 5 ||| rd) e

unfoldable pub ror_imm : ℕ → ℕ → ℕ → Emitter → Emitter
ror_imm rd rs imm6 e =
    emit (0x93C00000 ||| shl32 rs 16 ||| shl32 (bit_and imm6 0x3F) 10 ||| shl32 rs 5 ||| rd) e

unfoldable pub lsrv : ℕ → ℕ → ℕ → Emitter → Emitter
lsrv rd rn rm e = emit (0x9AC02400 ||| shl32 rm 16 ||| shl32 rn 5 ||| rd) e

unfoldable pub lsr_imm : ℕ → ℕ → ℕ → Emitter → Emitter
lsr_imm rd rn imm6 e = emit (0xD340FC00 ||| shl32 (bit_and imm6 0x3F) 16 ||| shl32 rn 5 ||| rd) e

unfoldable pub neg : ℕ → ℕ → Emitter → Emitter
unfolding sub_reg
neg rd rn e = sub_reg rd xzr rn e

unfoldable pub lsl_imm : ℕ → ℕ → ℕ → Emitter → Emitter
lsl_imm rd rn imm6 e =
    let immr = bit_and (u32 (64 + 2 ^ 32 - imm6)) 0x3F in
    let imms = bit_and (u32 (63 + 2 ^ 32 - imm6)) 0x3F in
    emit (0xD3400000 ||| shl32 immr 16 ||| shl32 imms 10 ||| shl32 rn 5 ||| rd) e

unfoldable pub mov_reg : ℕ → ℕ → Emitter → Emitter
unfolding orr_reg
mov_reg rd rn e = orr_reg rd xzr rn e
