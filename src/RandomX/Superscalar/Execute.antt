-- ===== src/RandomX/Superscalar/Execute.antt =====
-- `execute_superscalar` of src/randomx/superscalar.rs. An index past the registers, and the failed
-- assertion of `randomx_reciprocal`, are none.
use miner_tim.Common.{
  ℕ, ◌*◌, ◌%◌, ◌^◌, bit_xor, Option, some, ◌>>=◌, u64, ◌>>>◌, List, [], ◌∷◌, get_elem?, ◌==◌, ◌||◌,
  if◌then◌else◌,
}
use miner_tim.RandomX.Instruction.{sign_extend_2s_compl}
use miner_tim.RandomX.Reciprocal.{randomx_reciprocal}
use miner_tim.RandomX.Machine.{
  write, wrapping_add, wrapping_sub, wrapping_mul, mulh, smulh, rotate_right,
}
use miner_tim.RandomX.Superscalar.{SuperscalarInstruction, SuperscalarProgram}

-- An instruction whose value takes the source register.
abbrev pub with_source : List ℕ → SuperscalarInstruction → (ℕ → ℕ → ℕ) → Option (List ℕ)
with_source r inst f =
    get_elem? r inst.dst >>= λ x. get_elem? r inst.src >>= λ y. write r inst.dst (f x y)

-- One whose value takes a constant.
abbrev pub with_constant : List ℕ → SuperscalarInstruction → (ℕ → ℕ) → Option (List ℕ)
with_constant r inst f = get_elem? r inst.dst >>= λ x. write r inst.dst (f x)

unfoldable pub execute_one : SuperscalarInstruction → List ℕ → Option (List ℕ)
execute_one inst r =
    if inst.opcode == 0
    then with_source r inst wrapping_sub
    else if inst.opcode == 1
    then with_source r inst bit_xor
    else if inst.opcode == 2
    then with_source r inst (λ x y. wrapping_add x (u64 (y * 2 ^ ((inst.mod_ >>> 2) % 4))))
    else if inst.opcode == 3
    then with_source r inst wrapping_mul
    else if inst.opcode == 4
    then with_constant r inst (λ x. rotate_right x inst.imm32)
    else if inst.opcode == 5 || inst.opcode == 7 || inst.opcode == 9
    then with_constant r inst (λ x. wrapping_add x (sign_extend_2s_compl inst.imm32))
    else if inst.opcode == 6 || inst.opcode == 8 || inst.opcode == 10
    then with_constant r inst (λ x. bit_xor x (sign_extend_2s_compl inst.imm32))
    else if inst.opcode == 11
    then with_source r inst mulh
    else if inst.opcode == 12
    then with_source r inst smulh
    else if inst.opcode == 13
    then (randomx_reciprocal inst.imm32 >>= λ q. with_constant r inst (λ x. wrapping_mul x q))
    else some r

unfoldable pub execute_all : List SuperscalarInstruction → List ℕ → Option (List ℕ)
execute_all [] r = some r
execute_all (inst ∷ rest) r = execute_one inst r >>= λ next. execute_all rest next

unfoldable pub execute_superscalar : List ℕ → SuperscalarProgram → Option (List ℕ)
execute_superscalar r prog = execute_all prog.instructions r
