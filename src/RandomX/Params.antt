-- ===== src/RandomX/Params.antt =====
-- What the entropy of a program sets (src/randomx/vm.rs): the constants of the a-registers, the
-- masks of the e-registers, and the addresses of the dataset.
pub mod Floats
use miner_tim.Common.{
  ℕ, zero, suc, ◌+◌, ◌-◌, ◌*◌, ◌/◌, ◌%◌, ◌^◌, bit_and, bit_or, u32, u64, ◌<<<◌, ◌>>>◌, Bytes,
  from_le_bytes, take, drop, List, [], ◌∷◌, Bool, true, false, ◌&&◌,
}
use miner_tim.RandomX.Instruction.{RxVersion, v1, v2}
use miner_tim.RandomX.Machine.{FloatUnit, ProgramConfiguration}

abbrev pub cache_line_align_mask : ℕ
cache_line_align_mask = 0x7FFFFFC0

abbrev pub dataset_extra_items : ℕ
dataset_extra_items = 524287

abbrev pub cache_line_size : ℕ
cache_line_size = 64

-- `DATASET_TOTAL_SIZE / CACHE_LINE_SIZE` of src/randomx/dataset.rs.
abbrev pub dataset_item_count : ℕ
dataset_item_count = 34078720

abbrev pub scratchpad_l3_mask64 : ℕ
scratchpad_l3_mask64 = (2097152 / 64 - 1) * 64

-- The slice is within every program that `compile_program` accepts.
abbrev pub entropy : Bytes → ℕ → ℕ
entropy program_bytes idx = from_le_bytes (take 8 (drop (idx * 8) program_bytes))

unfoldable pub get_small_positive_float_bits : ℕ → ℕ
get_small_positive_float_bits entropy_word =
    let exponent = entropy_word >>> 59 in
    let mantissa = bit_and entropy_word (2 ^ 52 - 1) in
    bit_or (u64 (bit_and (u64 (exponent + 1023)) (2 ^ 11 - 1) <<< 52)) mantissa

unfoldable pub get_static_exponent : ℕ → ℕ
get_static_exponent entropy_word = u64 (bit_or 0x300 ((entropy_word >>> (64 - 4)) <<< 4) <<< 52)

unfoldable pub get_float_mask : ℕ → ℕ
unfolding get_static_exponent
get_float_mask entropy_word =
    bit_or (bit_and entropy_word (2 ^ 22 - 1)) (get_static_exponent entropy_word)

-- `ma`, `mx` and the offset, after the configuration.
pub record ProgramParams : Type 0 where
  pub config : ProgramConfiguration
  pub ma : ℕ
  pub mx : ℕ
  pub dataset_offset : ℕ

unfoldable pub derive_program_params : Bytes → ProgramParams
unfolding get_float_mask
derive_program_params program_bytes =
    let address_registers = entropy program_bytes 12 in
    record {
      config = record {
        e_mask =
            (get_float_mask (entropy program_bytes 14), get_float_mask (entropy program_bytes 15));
        read_reg0 = bit_and address_registers 1;
        read_reg1 = 2 + bit_and (address_registers >>> 1) 1;
        read_reg2 = 4 + bit_and (address_registers >>> 2) 1;
        read_reg3 = 6 + bit_and (address_registers >>> 3) 1;
      };
      ma = bit_and (u32 (entropy program_bytes 8)) cache_line_align_mask;
      mx = u32 (entropy program_bytes 10);
      dataset_offset = entropy program_bytes 13 % (dataset_extra_items + 1) * cache_line_size;
    }

-- The a-registers.
abbrev pub initial_a : (U : FloatUnit) → Bytes → List (U.F64 × U.F64)
initial_a U program_bytes =
    let constant : ℕ → U.F64 =
      λ i. U.from_bits (get_small_positive_float_bits (entropy program_bytes i)) in
    (constant 0, constant 1)
    ∷ (constant 2, constant 3)
    ∷ (constant 4, constant 5)
    ∷ (constant 6, constant 7)
    ∷ []
