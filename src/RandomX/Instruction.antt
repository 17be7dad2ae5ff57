-- ===== src/RandomX/Instruction.antt =====
-- The instruction formats of src/randomx/vm.rs: raw instructions as the program buffer holds them,
-- compiled instructions, and the constants of the scratchpad.
use miner_tim.Common.{
  ℕ, ◌+◌, ◌-◌, ◌*◌, ◌/◌, ◌%◌, ◌^◌, bit_and, Bool, false, Bytes, u64, ◌>>>◌, from_le_bytes, get_or,
  take, drop, ltb, ◌==◌, if◌then◌else◌, List, [], ◌∷◌,
}
use miner_tim.Common.Int.{ℤ, pos}

abbrev pub scratchpad_l3_size : ℕ
scratchpad_l3_size = 2097152

abbrev pub scratchpad_l1_mask : ℕ
scratchpad_l1_mask = (16384 / 8 - 1) * 8

abbrev pub scratchpad_l2_mask : ℕ
scratchpad_l2_mask = (262144 / 8 - 1) * 8

abbrev pub scratchpad_l3_mask : ℕ
scratchpad_l3_mask = (scratchpad_l3_size / 8 - 1) * 8

abbrev pub condition_offset : ℕ
condition_offset = 8

abbrev pub condition_mask : ℕ
condition_mask = 2 ^ 8 - 1

abbrev pub store_l3_condition : ℕ
store_l3_condition = 14

abbrev pub instructions_offset : ℕ
instructions_offset = 16 * 8

pub data RxVersion : Type 0 where
  v1 : RxVersion
  v2 : RxVersion

abbrev pub program_size : RxVersion → ℕ
program_size v1 = 256
program_size v2 = 384

abbrev pub program_bytes_size : RxVersion → ℕ
program_bytes_size version = instructions_offset + program_size version * 8

pub data InstructionType : Type 0 where
  iadd_rs : InstructionType
  iadd_m : InstructionType
  isub_r : InstructionType
  isub_m : InstructionType
  imul_r : InstructionType
  imul_m : InstructionType
  imulh_r : InstructionType
  imulh_m : InstructionType
  ismulh_r : InstructionType
  ismulh_m : InstructionType
  ineg_r : InstructionType
  ixor_r : InstructionType
  ixor_m : InstructionType
  iror_r : InstructionType
  irol_r : InstructionType
  iswap_r : InstructionType
  fswap_r : InstructionType
  fadd_r : InstructionType
  fadd_m : InstructionType
  fsub_r : InstructionType
  fsub_m : InstructionType
  fscal_r : InstructionType
  fmul_r : InstructionType
  fdiv_m : InstructionType
  fsqrt_r : InstructionType
  cbranch : InstructionType
  cfround : InstructionType
  istore : InstructionType
  nop : InstructionType

-- The field `mod_` has the source's name.
pub record RawInstruction : Type 0 where
  pub opcode : ℕ
  pub dst : ℕ
  pub src : ℕ
  pub mod_ : ℕ
  pub imm32 : ℕ

-- Of a slice of eight bytes.
abbrev pub from_bytes : Bytes → RawInstruction
from_bytes data_bytes = record {
  opcode = get_or data_bytes 0 0;
  dst = get_or data_bytes 1 0;
  src = get_or data_bytes 2 0;
  mod_ = get_or data_bytes 3 0;
  imm32 = from_le_bytes (take 4 (drop 4 data_bytes));
}

abbrev pub get_mod_mem : RawInstruction → ℕ
get_mod_mem instr = instr.mod_ % 4

abbrev pub get_mod_shift : RawInstruction → ℕ
get_mod_shift instr = (instr.mod_ >>> 2) % 4

abbrev pub get_mod_cond : RawInstruction → ℕ
get_mod_cond instr = instr.mod_ >>> 4

pub record BytecodeInstruction : Type 0 where
  pub itype : InstructionType
  pub dst : ℕ
  pub src : ℕ
  pub imm : ℕ
  pub mem_mask : ℕ
  pub shift : ℕ
  pub target : ℤ
  pub dst_is_e : Bool
  pub fswap_is_e : Bool

-- `BytecodeInstruction::new()` with the type the compiler writes first.
abbrev pub new : InstructionType → BytecodeInstruction
new t = record {
  itype = t;
  dst = 0;
  src = 0;
  imm = 0;
  mem_mask = 0;
  shift = 0;
  target = pos 0;
  dst_is_e = false;
  fswap_is_e = false;
}

abbrev pub sign_extend_2s_compl : ℕ → ℕ
sign_extend_2s_compl x = if ltb x (2 ^ 31) then x else x + (2 ^ 64 - 2 ^ 32)

abbrev pub is_zero_or_power_of_2 : ℕ → Bool
is_zero_or_power_of_2 x = bit_and x (u64 (x + 2 ^ 64 - 1)) == 0

-- The compiler's `if` chain tells 29 kinds of instruction and the multiplication by a reciprocal.
pub data Opcode : Type 0 where
  plain : InstructionType → Opcode
  imul_rcp : Opcode

-- The `CEIL_` constants, each with the opcodes below it.
abbrev pub ceilings : List (ℕ × Opcode)
ceilings =
    (16, plain iadd_rs)
    ∷ (23, plain iadd_m)
    ∷ (39, plain isub_r)
    ∷ (46, plain isub_m)
    ∷ (62, plain imul_r)
    ∷ (66, plain imul_m)
    ∷ (70, plain imulh_r)
    ∷ (71, plain imulh_m)
    ∷ (75, plain ismulh_r)
    ∷ (76, plain ismulh_m)
    ∷ (84, imul_rcp)
    ∷ (86, plain ineg_r)
    ∷ (101, plain ixor_r)
    ∷ (106, plain ixor_m)
    ∷ (114, plain iror_r)
    ∷ (116, plain irol_r)
    ∷ (120, plain iswap_r)
    ∷ (124, plain fswap_r)
    ∷ (140, plain fadd_r)
    ∷ (145, plain fadd_m)
    ∷ (161, plain fsub_r)
    ∷ (166, plain fsub_m)
    ∷ (172, plain fscal_r)
    ∷ (204, plain fmul_r)
    ∷ (208, plain fdiv_m)
    ∷ (214, plain fsqrt_r)
    ∷ (239, plain cbranch)
    ∷ (240, plain cfround)
    ∷ []

-- The first row whose ceiling is above the opcode; the chain's `else` is ISTORE.
abbrev pub decode_by : List (ℕ × Opcode) → ℕ → Opcode
decode_by [] code = plain istore
decode_by ((ceiling, op) ∷ rows) code = if ltb code ceiling then op else decode_by rows code

abbrev pub decode : ℕ → Opcode
decode code = decode_by ceilings code
