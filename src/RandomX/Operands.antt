-- ===== src/RandomX/Operands.antt =====
-- What `compile_program` (src/randomx/vm.rs) writes stays within the machine's bounds.
use miner_tim.Common.{
  ℕ, ◌%◌, ◌<◌, ◌≤◌, Bool, true, false, ltb, ltb→lt, ◌==◌, if◌then◌else◌, arith, inl, inr,
  Bool-cases,
}
use miner_tim.RandomX.Instruction.{
  InstructionType, BytecodeInstruction, RawInstruction, iadd_rs, iadd_m, isub_r, isub_m, imul_r,
  imul_m, imulh_r, imulh_m, ismulh_r, ismulh_m, ineg_r, ixor_r, ixor_m, iror_r, irol_r, iswap_r,
  fswap_r, fadd_r, fadd_m, fsub_r, fsub_m, fscal_r, fmul_r, fdiv_m, fsqrt_r, cbranch, cfround,
  istore, nop, new, get_mod_cond, store_l3_condition, scratchpad_l3_mask,
}
use miner_tim.RandomX.Compile.{
  RegisterUsage, level_mask, memory_operand, register_operand, float_registers, float_memory,
  branch, store, encode,
}
use miner_tim.RandomX.Safety.{Within}

-- An instruction whose operands are within bounds.
unfoldable pub IsSafe : BytecodeInstruction → Type 0
unfolding Within
IsSafe b = Within b.itype b

if-IsSafe :
    (test : Bool) (x y : BytecodeInstruction) → IsSafe x → IsSafe y → IsSafe (if test then x else y)
if-IsSafe true x y hx hy = hx
if-IsSafe false x y hx hy = hy

if-le : (test : Bool) (x y z : ℕ) → x ≤ z → y ≤ z → (if test then x else y) ≤ z
if-le true x y z hx hy = hx
if-le false x y z hx hy = hy

level_mask-le : (instr : RawInstruction) → level_mask instr ≤ scratchpad_l3_mask
level_mask-le instr = ground arith

memory_operand-IsSafe :
    (t : InstructionType) (instr : RawInstruction)
    → ((b : BytecodeInstruction) → b.dst < 8 → b.mem_mask ≤ scratchpad_l3_mask → Within t b)
    → IsSafe (memory_operand t instr)
unfolding IsSafe memory_operand
memory_operand-IsSafe t instr k =
    if-IsSafe (instr.src % 8 == instr.dst % 8) _ _ (k _ (omega arith) (omega arith))
      (k _ (omega arith) (level_mask-le instr))

register_operand-IsSafe :
    (t : InstructionType) (imm : ℕ) (instr : RawInstruction)
    → ((b : BytecodeInstruction) → b.dst < 8 → Within t b)
    → IsSafe (register_operand t imm instr)
unfolding IsSafe register_operand
register_operand-IsSafe t imm instr k =
    if-IsSafe (instr.src % 8 == instr.dst % 8) _ _ (k _ (omega arith)) (k _ (omega arith))

pub encode-IsSafe :
    (t : InstructionType) (instr : RawInstruction) (usage : RegisterUsage)
    → IsSafe (encode t instr usage)
unfolding IsSafe Within encode float_registers float_memory branch store
encode-IsSafe iadd_rs instr usage = (omega arith, omega arith)
encode-IsSafe iadd_m instr usage = memory_operand-IsSafe iadd_m instr (λ b d m. (d, m))
encode-IsSafe isub_r instr usage = register_operand-IsSafe isub_r _ instr (λ b d. d)
encode-IsSafe isub_m instr usage = memory_operand-IsSafe isub_m instr (λ b d m. (d, m))
encode-IsSafe imul_r instr usage = register_operand-IsSafe imul_r _ instr (λ b d. d)
encode-IsSafe imul_m instr usage = memory_operand-IsSafe imul_m instr (λ b d m. (d, m))
encode-IsSafe imulh_r instr usage = (omega arith, omega arith)
encode-IsSafe imulh_m instr usage = memory_operand-IsSafe imulh_m instr (λ b d m. (d, m))
encode-IsSafe ismulh_r instr usage = (omega arith, omega arith)
encode-IsSafe ismulh_m instr usage = memory_operand-IsSafe ismulh_m instr (λ b d m. (d, m))
encode-IsSafe ineg_r instr usage = omega arith
encode-IsSafe ixor_r instr usage = register_operand-IsSafe ixor_r _ instr (λ b d. d)
encode-IsSafe ixor_m instr usage = memory_operand-IsSafe ixor_m instr (λ b d m. (d, m))
encode-IsSafe iror_r instr usage = register_operand-IsSafe iror_r _ instr (λ b d. d)
encode-IsSafe irol_r instr usage = register_operand-IsSafe irol_r _ instr (λ b d. d)
encode-IsSafe iswap_r instr usage =
    if-IsSafe (instr.src % 8 == instr.dst % 8) (new nop)
      (record (new iswap_r) { dst = instr.dst % 8; src = instr.src % 8 }) tt
      (omega arith, omega arith)
encode-IsSafe fswap_r instr usage = elim (Bool-cases (ltb (instr.dst % 8) 4)) [
  | inl e ↦ rw (e) (ltb→lt (instr.dst % 8) 4 e)
  | inr e ↦ rw (e) (omega arith)
]
encode-IsSafe fadd_r instr usage = (omega arith, omega arith)
encode-IsSafe fadd_m instr usage = (omega arith, (omega arith, level_mask-le instr))
encode-IsSafe fsub_r instr usage = (omega arith, omega arith)
encode-IsSafe fsub_m instr usage = (omega arith, (omega arith, level_mask-le instr))
encode-IsSafe fscal_r instr usage = omega arith
encode-IsSafe fmul_r instr usage = (omega arith, omega arith)
encode-IsSafe fdiv_m instr usage = (omega arith, (omega arith, level_mask-le instr))
encode-IsSafe fsqrt_r instr usage = omega arith
encode-IsSafe cbranch instr usage = omega arith
encode-IsSafe cfround instr usage = omega arith
encode-IsSafe istore instr usage = (
  omega arith,
  (
    omega arith,
    if-le (ltb (get_mod_cond instr) store_l3_condition) (level_mask instr) scratchpad_l3_mask
        scratchpad_l3_mask (level_mask-le instr) (omega arith),
  ),
)
encode-IsSafe nop instr usage = tt
