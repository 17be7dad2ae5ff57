-- ===== src/RandomX/Compile.antt =====
-- `compile_program` (src/randomx/vm.rs). A slice or an assertion that fails is none.
use miner_tim.Common.{
  ℕ, zero, suc, ◌+◌, ◌-◌, ◌*◌, ◌%◌, ◌^◌, bit_and, bit_or, Bool, true, false, Option, none, some,
  Bytes, u32, ◌<<<◌, set, get_or, take, drop, length, replicate, leb, ltb, ◌==◌, if◌then◌else◌,
  ◌>>=◌, List, [], ◌∷◌, ◌++◌,
}
use miner_tim.Common.Int.{ℤ, pos, negsuc, as_i16}
use miner_tim.RandomX.Instruction.{
  InstructionType, BytecodeInstruction, RawInstruction, Opcode, plain, imul_rcp, iadd_rs, iadd_m,
  isub_r, isub_m, imul_r, imul_m, imulh_r, imulh_m, ismulh_r, ismulh_m, ineg_r, ixor_r, ixor_m,
  iror_r, irol_r, iswap_r, fswap_r, fadd_r, fadd_m, fsub_r, fsub_m, fscal_r, fmul_r, fdiv_m,
  fsqrt_r, cbranch, cfround, istore, nop, new, from_bytes, decode, get_mod_mem, get_mod_shift,
  get_mod_cond, sign_extend_2s_compl, is_zero_or_power_of_2, scratchpad_l1_mask, scratchpad_l2_mask,
  scratchpad_l3_mask, condition_offset, condition_mask, store_l3_condition, instructions_offset,
}
use miner_tim.RandomX.Reciprocal.{randomx_reciprocal}

-- The instruction that last wrote each register, or -1.
abbrev pub RegisterUsage : Type 0
RegisterUsage = List ℤ

-- What one turn of the loop writes.
abbrev pub Compiled : Type 0
Compiled = BytecodeInstruction × RegisterUsage

abbrev pub level_mask : RawInstruction → ℕ
level_mask instr = if get_mod_mem instr == 0 then scratchpad_l2_mask else scratchpad_l1_mask

-- `src`, `imm` and `mem_mask` of an instruction that reads the scratchpad into a register.
unfoldable pub memory_operand : InstructionType → RawInstruction → BytecodeInstruction
memory_operand t instr =
    if instr.src % 8 == instr.dst % 8
    then record (new t) {
      dst = instr.dst % 8;
      imm = sign_extend_2s_compl instr.imm32;
      src = 8;
      mem_mask = scratchpad_l3_mask;
    }
    else record (new t) {
      dst = instr.dst % 8;
      imm = sign_extend_2s_compl instr.imm32;
      src = instr.src % 8;
      mem_mask = level_mask instr;
    }

-- `src` and `imm` of an instruction on a register or a constant.
unfoldable pub register_operand : InstructionType → ℕ → RawInstruction → BytecodeInstruction
register_operand t imm instr =
    if instr.src % 8 == instr.dst % 8
    then record (new t) { dst = instr.dst % 8; src = 8; imm = imm }
    else record (new t) { dst = instr.dst % 8; src = instr.src % 8 }

-- A floating-point instruction on two registers.
unfoldable pub float_registers : InstructionType → Bool → RawInstruction → BytecodeInstruction
float_registers t is_e instr = record (new t) {
  dst = instr.dst % 4;
  src = instr.src % 4;
  dst_is_e = is_e;
}

-- A floating-point instruction on a register and the scratchpad.
unfoldable pub float_memory : InstructionType → Bool → RawInstruction → BytecodeInstruction
float_memory t is_e instr = record (new t) {
  dst = instr.dst % 4;
  src = instr.src % 8;
  mem_mask = level_mask instr;
  imm = sign_extend_2s_compl instr.imm32;
  dst_is_e = is_e;
}

-- The constant a conditional branch adds: bit `shift` set, and the bit below it clear.
unfoldable pub branch_imm : RawInstruction → ℕ
branch_imm instr =
    let shift = get_mod_cond instr + condition_offset in
    bit_and (bit_or (sign_extend_2s_compl instr.imm32) (1 <<< shift))
      (2 ^ 64 - 1 - (1 <<< (shift - 1)))

unfoldable pub branch : RawInstruction → ℤ → BytecodeInstruction
unfolding branch_imm
branch instr last = record (new cbranch) {
  dst = instr.dst % 8;
  target = as_i16 last;
  imm = branch_imm instr;
  mem_mask = u32 (condition_mask <<< (get_mod_cond instr + condition_offset));
}

unfoldable pub store : RawInstruction → BytecodeInstruction
store instr = record (new istore) {
  dst = instr.dst % 8;
  src = instr.src % 8;
  imm = sign_extend_2s_compl instr.imm32;
  mem_mask =
      if ltb (get_mod_cond instr) store_l3_condition then level_mask instr else scratchpad_l3_mask;
}

-- `ibc` as each arm of the chain writes it; a branch reads the usage of its register.
unfoldable pub encode : InstructionType → RawInstruction → RegisterUsage → BytecodeInstruction
unfolding memory_operand register_operand float_registers float_memory branch store
encode iadd_rs instr usage = record (new iadd_rs) {
  dst = instr.dst % 8;
  src = instr.src % 8;
  shift = get_mod_shift instr;
  imm = if instr.dst % 8 == 5 then sign_extend_2s_compl instr.imm32 else 0;
}
encode iadd_m instr usage = memory_operand iadd_m instr
encode isub_r instr usage = register_operand isub_r (sign_extend_2s_compl instr.imm32) instr
encode isub_m instr usage = memory_operand isub_m instr
encode imul_r instr usage = register_operand imul_r (sign_extend_2s_compl instr.imm32) instr
encode imul_m instr usage = memory_operand imul_m instr
encode imulh_r instr usage = record (new imulh_r) { dst = instr.dst % 8; src = instr.src % 8 }
encode imulh_m instr usage = memory_operand imulh_m instr
encode ismulh_r instr usage = record (new ismulh_r) { dst = instr.dst % 8; src = instr.src % 8 }
encode ismulh_m instr usage = memory_operand ismulh_m instr
encode ineg_r instr usage = record (new ineg_r) { dst = instr.dst % 8 }
encode ixor_r instr usage = register_operand ixor_r (sign_extend_2s_compl instr.imm32) instr
encode ixor_m instr usage = memory_operand ixor_m instr
encode iror_r instr usage = register_operand iror_r instr.imm32 instr
encode irol_r instr usage = register_operand irol_r instr.imm32 instr
encode iswap_r instr usage =
    if instr.src % 8 == instr.dst % 8
    then new nop
    else record (new iswap_r) { dst = instr.dst % 8; src = instr.src % 8 }
encode fswap_r instr usage =
    if ltb (instr.dst % 8) 4
    then record (new fswap_r) { dst = instr.dst % 8; fswap_is_e = false }
    else record (new fswap_r) { dst = instr.dst % 8 - 4; fswap_is_e = true }
encode fadd_r instr usage = float_registers fadd_r false instr
encode fadd_m instr usage = float_memory fadd_m false instr
encode fsub_r instr usage = float_registers fsub_r false instr
encode fsub_m instr usage = float_memory fsub_m false instr
encode fscal_r instr usage = record (new fscal_r) { dst = instr.dst % 4 }
encode fmul_r instr usage = float_registers fmul_r true instr
encode fdiv_m instr usage = float_memory fdiv_m true instr
encode fsqrt_r instr usage = record (new fsqrt_r) { dst = instr.dst % 4; dst_is_e = true }
encode cbranch instr usage = branch instr (get_or usage (instr.dst % 8) (negsuc 0))
encode cfround instr usage = record (new cfround) {
  src = instr.src % 8;
  imm = bit_and instr.imm32 63;
}
encode istore instr usage = store instr
encode nop instr usage = new nop

-- The `register_usage` writes of the arms of instruction `i`.
unfoldable pub mark : InstructionType → RawInstruction → ℕ → RegisterUsage → RegisterUsage
mark iswap_r instr i usage =
    if instr.src % 8 == instr.dst % 8
    then usage
    else set (set usage (instr.dst % 8) (pos i)) (instr.src % 8) (pos i)
mark fswap_r instr i usage = usage
mark fadd_r instr i usage = usage
mark fadd_m instr i usage = usage
mark fsub_r instr i usage = usage
mark fsub_m instr i usage = usage
mark fscal_r instr i usage = usage
mark fmul_r instr i usage = usage
mark fdiv_m instr i usage = usage
mark fsqrt_r instr i usage = usage
mark cbranch instr i usage = replicate 8 (pos i)
mark cfround instr i usage = usage
mark istore instr i usage = usage
mark nop instr i usage = usage
mark t instr i usage = set usage (instr.dst % 8) (pos i)

-- One turn of the loop, after the instruction is read.
unfoldable pub compile_instruction : Opcode → RawInstruction → ℕ → RegisterUsage → Option Compiled
unfolding encode mark randomx_reciprocal
compile_instruction (plain t) instr i usage = some (encode t instr usage, mark t instr i usage)
compile_instruction imul_rcp instr i usage =
    if is_zero_or_power_of_2 instr.imm32
    then some (new nop, usage)
    else randomx_reciprocal instr.imm32 >>= λ r. some (
      record (new imul_r) { dst = instr.dst % 8; src = 8; imm = r },
      set usage (instr.dst % 8) (pos i),
    )

-- `&program_bytes[offset..offset + 8]`.
unfoldable pub read_instruction : Bytes → ℕ → Option RawInstruction
read_instruction program_bytes i =
    let offset = instructions_offset + i * 8 in
    (if leb (offset + 8) (length program_bytes)
      then some (from_bytes (take 8 (drop offset program_bytes)))
      else none)

-- `count` turns from instruction `i` on.
unfoldable pub compile_from :
    Bytes → ℕ → ℕ → RegisterUsage → Option (List BytecodeInstruction × RegisterUsage)
unfolding compile_instruction read_instruction
compile_from program_bytes zero i usage = some ([], usage)
compile_from program_bytes (suc count) i usage = read_instruction program_bytes i >>= λ instr.
    compile_instruction (decode instr.opcode) instr i usage >>= λ first.
    compile_from program_bytes count (suc i) (first.1) >>= λ rest. some (first.0 ∷ rest.0, rest.1)

-- The entries beyond the program's size stay as the buffer had them.
unfoldable pub compile_program :
    Bytes → ℕ → List BytecodeInstruction → Option (List BytecodeInstruction × RegisterUsage)
unfolding compile_from
compile_program program_bytes size bytecode =
    compile_from program_bytes size 0 (replicate 8 (negsuc 0)) >>= λ result.
    some (result.0 ++ drop size bytecode, result.1)
