-- ===== src/Jit/Float.antt =====
-- Floating point, branches and system registers (src/randomx/jit/aarch64.rs).
use miner_tim.Common.{ℕ, bit_and}
use miner_tim.Jit.Emitter.{Emitter, emit, ◌|||◌, shl32, ℤ, as_u32}

unfoldable pub fadd : ℕ → ℕ → ℕ → Emitter → Emitter
fadd rd rn rm e = emit (0x1E602800 ||| shl32 rm 16 ||| shl32 rn 5 ||| rd) e

unfoldable pub fsub : ℕ → ℕ → ℕ → Emitter → Emitter
fsub rd rn rm e = emit (0x1E603800 ||| shl32 rm 16 ||| shl32 rn 5 ||| rd) e

unfoldable pub fmul : ℕ → ℕ → ℕ → Emitter → Emitter
fmul rd rn rm e = emit (0x1E600800 ||| shl32 rm 16 ||| shl32 rn 5 ||| rd) e

unfoldable pub fdiv : ℕ → ℕ → ℕ → Emitter → Emitter
fdiv rd rn rm e = emit (0x1E601800 ||| shl32 rm 16 ||| shl32 rn 5 ||| rd) e

unfoldable pub fsqrt : ℕ → ℕ → Emitter → Emitter
fsqrt rd rn e = emit (0x1E61C000 ||| shl32 rn 5 ||| rd) e

unfoldable pub fmov_dd : ℕ → ℕ → Emitter → Emitter
fmov_dd rd rn e = emit (0x1E604000 ||| shl32 rn 5 ||| rd) e

unfoldable pub fmov_xd : ℕ → ℕ → Emitter → Emitter
fmov_xd rd dn e = emit (0x9E660000 ||| shl32 dn 5 ||| rd) e

unfoldable pub fmov_dx : ℕ → ℕ → Emitter → Emitter
fmov_dx dd rn e = emit (0x9E670000 ||| shl32 rn 5 ||| dd) e

unfoldable pub scvtf_dx : ℕ → ℕ → Emitter → Emitter
scvtf_dx dd xn e = emit (0x9E620000 ||| shl32 xn 5 ||| dd) e

unfoldable pub scvtf_dw : ℕ → ℕ → Emitter → Emitter
scvtf_dw dd wn e = emit (0x1E620000 ||| shl32 wn 5 ||| dd) e

unfoldable pub eor_v8b : ℕ → ℕ → ℕ → Emitter → Emitter
eor_v8b vd vn vm e = emit (0x2E201C00 ||| shl32 vm 16 ||| shl32 vn 5 ||| vd) e

unfoldable pub b_cond : ℕ → ℤ → Emitter → Emitter
b_cond cond offset_words e =
    let imm19 = bit_and (as_u32 offset_words) 0x7FFFF in
    emit (0x54000000 ||| shl32 imm19 5 ||| cond) e

unfoldable pub b : ℤ → Emitter → Emitter
b offset_words e =
    let imm26 = bit_and (as_u32 offset_words) 0x3FFFFFF in emit (0x14000000 ||| imm26) e

unfoldable pub bl : ℤ → Emitter → Emitter
bl offset_words e =
    let imm26 = bit_and (as_u32 offset_words) 0x3FFFFFF in emit (0x94000000 ||| imm26) e

unfoldable pub ret : Emitter → Emitter
ret e = emit (0xD65F03C0) e

unfoldable pub br : ℕ → Emitter → Emitter
br rn e = emit (0xD61F0000 ||| shl32 rn 5) e

unfoldable pub msr_fpcr : ℕ → Emitter → Emitter
msr_fpcr rn e = emit (0xD51B4400 ||| rn) e

unfoldable pub mrs_fpcr : ℕ → Emitter → Emitter
mrs_fpcr rd e = emit (0xD53B4400 ||| rd) e
