-- ===== src/RandomX/Superscalar.antt =====
-- The instructions and the tables of src/randomx/superscalar.rs. An i32 that may be -1 is its bit
-- pattern, and one that tells of a failure is an option.
pub mod Execute
pub mod Select
pub mod Schedule
pub mod Generate
pub mod Safety
pub mod Operands
pub mod Registers
pub mod Sound
pub mod Formed
pub mod Rounds
use miner_tim.Common.{ℕ, ◌+◌, ◌-◌, ◌*◌, ◌^◌, Bool, true, false, List, [], ◌∷◌, ◌==◌, ◌||◌}

pub record SuperscalarInstruction : Type 0 where
  pub opcode : ℕ
  pub dst : ℕ
  pub src : ℕ
  pub mod_ : ℕ
  pub imm32 : ℕ

pub record SuperscalarProgram : Type 0 where
  pub instructions : List SuperscalarInstruction
  pub address_register : ℕ

-- -1 as an i32.
abbrev pub minus_one : ℕ
minus_one = 2 ^ 32 - 1

abbrev pub randomx_superscalar_latency : ℕ
randomx_superscalar_latency = 170

abbrev pub superscalar_max_size : ℕ
superscalar_max_size = 3 * randomx_superscalar_latency + 2

abbrev pub register_needs_displacement : ℕ
register_needs_displacement = 5

abbrev pub cycle_map_size : ℕ
cycle_map_size = randomx_superscalar_latency + 4

abbrev pub look_forward_cycles : ℕ
look_forward_cycles = 4

abbrev pub max_throwaway_count : ℕ
max_throwaway_count = 256

abbrev pub port_null : ℕ
port_null = 0

abbrev pub port_p0 : ℕ
port_p0 = 1

abbrev pub port_p1 : ℕ
port_p1 = 2

abbrev pub port_p5 : ℕ
port_p5 = 4

abbrev pub port_p01 : ℕ
port_p01 = 3

abbrev pub port_p05 : ℕ
port_p05 = 5

abbrev pub port_p015 : ℕ
port_p015 = 7

pub data SsType : Type 0 where
  isub_r : SsType
  ixor_r : SsType
  iadd_rs : SsType
  imul_r : SsType
  iror_c : SsType
  iadd_c7 : SsType
  ixor_c7 : SsType
  iadd_c8 : SsType
  ixor_c8 : SsType
  iadd_c9 : SsType
  ixor_c9 : SsType
  imulh_r : SsType
  ismulh_r : SsType
  imul_rcp : SsType
  invalid : SsType

-- The number of a type, by which types are compared too.
abbrev pub code_of : SsType → ℕ
code_of isub_r = 0
code_of ixor_r = 1
code_of iadd_rs = 2
code_of imul_r = 3
code_of iror_c = 4
code_of iadd_c7 = 5
code_of ixor_c7 = 6
code_of iadd_c8 = 7
code_of ixor_c8 = 8
code_of iadd_c9 = 9
code_of ixor_c9 = 10
code_of imulh_r = 11
code_of ismulh_r = 12
code_of imul_rcp = 13
code_of invalid = minus_one

abbrev pub is_type : SsType → SsType → Bool
is_type t u = code_of t == code_of u

abbrev pub is_multiplication : SsType → Bool
is_multiplication t =
    is_type t imul_r || is_type t imulh_r || is_type t ismulh_r || is_type t imul_rcp

pub record MacroOp : Type 0 where
  pub size : ℕ
  pub latency : ℕ
  pub uop1 : ℕ
  pub uop2 : ℕ
  pub dependent : Bool

-- `MacroOp::new1`, `new2` and `eliminated`.
abbrev pub new1 : ℕ → ℕ → ℕ → MacroOp
new1 size latency uop = record {
  size = size;
  latency = latency;
  uop1 = uop;
  uop2 = port_null;
  dependent = false;
}

abbrev pub new2 : ℕ → ℕ → ℕ → ℕ → MacroOp
new2 size latency uop1 uop2 = record {
  size = size;
  latency = latency;
  uop1 = uop1;
  uop2 = uop2;
  dependent = false;
}

abbrev pub eliminated : ℕ → MacroOp
eliminated size = record {
  size = size;
  latency = 0;
  uop1 = port_null;
  uop2 = port_null;
  dependent = false;
}

abbrev pub with_dependent : MacroOp → MacroOp
with_dependent op = record op { dependent = true }

abbrev pub is_eliminated : MacroOp → Bool
is_eliminated op = op.uop1 == port_null

abbrev pub is_simple : MacroOp → Bool
is_simple op = op.uop2 == port_null

pub record InstructionInfo : Type 0 where
  pub inst_type : SsType
  pub ops : List MacroOp
  pub latency : ℕ
  pub result_op : ℕ
  pub dst_op : ℕ
  pub src_op : ℕ

-- An instruction of one macro-op, with a source or without.
abbrev pub one_op : SsType → MacroOp → ℕ → ℕ → InstructionInfo
one_op t op latency src_op = record {
  inst_type = t;
  ops = op ∷ [];
  latency = latency;
  result_op = 0;
  dst_op = 0;
  src_op = src_op;
}

-- A widening multiplication: a move, the product, a move.
abbrev pub high_product : SsType → InstructionInfo
high_product t = record {
  inst_type = t;
  ops = eliminated 3 ∷ new2 3 4 port_p1 port_p5 ∷ eliminated 3 ∷ [];
  latency = 4;
  result_op = 1;
  dst_op = 0;
  src_op = 1;
}

-- The `INFO_` constants.
abbrev pub info_of : SsType → InstructionInfo
info_of isub_r = one_op isub_r (new1 3 1 port_p015) 1 0
info_of ixor_r = one_op ixor_r (new1 3 1 port_p015) 1 0
info_of iadd_rs = one_op iadd_rs (new1 4 1 port_p01) 1 0
info_of imul_r = one_op imul_r (new1 4 3 port_p1) 3 0
info_of iror_c = one_op iror_c (new1 4 1 port_p05) 1 minus_one
info_of iadd_c7 = one_op iadd_c7 (new1 7 1 port_p015) 1 minus_one
info_of ixor_c7 = one_op ixor_c7 (new1 7 1 port_p015) 1 minus_one
info_of iadd_c8 = one_op iadd_c8 (new1 7 1 port_p015) 1 minus_one
info_of ixor_c8 = one_op ixor_c8 (new1 7 1 port_p015) 1 minus_one
info_of iadd_c9 = one_op iadd_c9 (new1 7 1 port_p015) 1 minus_one
info_of ixor_c9 = one_op ixor_c9 (new1 7 1 port_p015) 1 minus_one
info_of imulh_r = high_product imulh_r
info_of ismulh_r = high_product ismulh_r
info_of imul_rcp = record {
  inst_type = imul_rcp;
  ops = new1 10 1 port_p015 ∷ with_dependent (new1 4 3 port_p1) ∷ [];
  latency = 4;
  result_op = 1;
  dst_op = 1;
  src_op = minus_one;
}
info_of invalid = record {
  inst_type = invalid;
  ops = [];
  latency = 0;
  result_op = 0;
  dst_op = 0;
  src_op = 0;
}

pub record DecodeBuffer : Type 0 where
  pub slots : List ℕ
  pub index : ℕ

abbrev pub buf_484 : DecodeBuffer
buf_484 = record { slots = 4 ∷ 8 ∷ 4 ∷ []; index = 0 }

abbrev pub buf_7333 : DecodeBuffer
buf_7333 = record { slots = 7 ∷ 3 ∷ 3 ∷ 3 ∷ []; index = 1 }

abbrev pub buf_3733 : DecodeBuffer
buf_3733 = record { slots = 3 ∷ 7 ∷ 3 ∷ 3 ∷ []; index = 2 }

abbrev pub buf_493 : DecodeBuffer
buf_493 = record { slots = 4 ∷ 9 ∷ 3 ∷ []; index = 3 }

abbrev pub buf_4444 : DecodeBuffer
buf_4444 = record { slots = 4 ∷ 4 ∷ 4 ∷ 4 ∷ []; index = 4 }

abbrev pub buf_3310 : DecodeBuffer
buf_3310 = record { slots = 3 ∷ 3 ∷ 10 ∷ []; index = 5 }
