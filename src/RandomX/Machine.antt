-- ===== src/RandomX/Machine.antt =====
-- The register file and the scratchpad of src/randomx/vm.rs and the helpers on them. An unchecked
-- access out of bounds is none. The floating-point unit is a parameter: a record of operations
-- that take the rounding mode. `of_i32` takes the 32 bits of the i32 it converts.
use miner_tim.Common.{
  ℕ, zero, suc, ◌+◌, ◌-◌, ◌*◌, ◌/◌, ◌%◌, ◌^◌, bit_and, bit_or, Option, none, some, u64, set, length,
  leb, ltb, if◌then◌else◌, ◌>>=◌, List,
}
use miner_tim.Common.Int.{as_i64, as_u64, times, shift_right}

pub record FloatUnit : Type 1 where
  pub F64 : Type 0
  pub add : ℕ → F64 → F64 → F64
  pub sub : ℕ → F64 → F64 → F64
  pub mul : ℕ → F64 → F64 → F64
  pub div : ℕ → F64 → F64 → F64
  pub sqrt : ℕ → F64 → F64
  pub to_bits : F64 → ℕ
  pub from_bits : ℕ → F64
  pub of_i32 : ℕ → F64

-- `&mut [u8]`: its length, and the byte at each place.
pub record Scratchpad : Type 0 where
  pub size : ℕ
  pub byte : ℕ → ℕ

pub record ProgramConfiguration : Type 0 where
  pub e_mask : ℕ × ℕ
  pub read_reg0 : ℕ
  pub read_reg1 : ℕ
  pub read_reg2 : ℕ
  pub read_reg3 : ℕ

-- `NativeRegisterFile` with the scratchpad and the rounding mode the processor is in.
pub record Machine (F : Type 0) : Type 0 where
  pub r : List ℕ
  pub f : List (F × F)
  pub e : List (F × F)
  pub a : List (F × F)
  pub scratchpad : Scratchpad
  pub mode : ℕ

-- A write through `get_unchecked_mut`.
abbrev pub write {ℓ} : {A : Type ℓ} → List A → ℕ → A → Option (List A)
write xs i v = if ltb i (length xs) then some (set xs i v) else none

-- The little-endian number of `w` bytes at an offset.
abbrev pub read_le : ℕ → (ℕ → ℕ) → ℕ → ℕ
read_le zero byte offset = 0
read_le (suc w) byte offset = byte offset + 256 * read_le w byte (suc offset)

abbrev pub load : ℕ → Scratchpad → ℕ → Option ℕ
load w pad offset = if leb (offset + w) pad.size then some (read_le w pad.byte offset) else none

abbrev pub load64 : Scratchpad → ℕ → Option ℕ
load64 pad offset = load 8 pad offset

abbrev pub store64 : Scratchpad → ℕ → ℕ → Option Scratchpad
store64 pad offset val =
    if leb (offset + 8) pad.size
    then some (record pad {
      byte = λ i.
          if leb offset i
          then if ltb i (offset + 8) then val / 256 ^ (i - offset) % 256 else pad.byte i
          else pad.byte i;
    })
    else none

abbrev pub wrapping_add : ℕ → ℕ → ℕ
wrapping_add x y = u64 (x + y)

abbrev pub wrapping_sub : ℕ → ℕ → ℕ
wrapping_sub x y = u64 (x + 2 ^ 64 - y)

abbrev pub wrapping_mul : ℕ → ℕ → ℕ
wrapping_mul x y = u64 (x * y)

abbrev pub mulh : ℕ → ℕ → ℕ
mulh x y = u64 (x * y / 2 ^ 64)

abbrev pub smulh : ℕ → ℕ → ℕ
smulh x y = as_u64 (shift_right (times (as_i64 x) (as_i64 y)) 64)

-- `rotate_right` and `rotate_left` of a u64.
abbrev pub rotate_right : ℕ → ℕ → ℕ
rotate_right val n = val / 2 ^ (n % 64) + u64 (val * 2 ^ (64 - n % 64))

abbrev pub rotate_left : ℕ → ℕ → ℕ
rotate_left val n = u64 (val * 2 ^ (n % 64)) + val / 2 ^ (64 - n % 64)

abbrev pub rotr64 : ℕ → ℕ → ℕ
rotr64 val count = rotate_right val (bit_and count 63)

abbrev pub rotl64 : ℕ → ℕ → ℕ
rotl64 val count = rotate_left val (bit_and count 63)

abbrev pub swap_f128 : {F : Type 0} → F × F → F × F
swap_f128 x = (x.1, x.0)

-- `1 << (MANTISSA_SIZE + DYNAMIC_EXPONENT_BITS)`, less one.
abbrev pub dynamic_mantissa_mask : ℕ
dynamic_mantissa_mask = 2 ^ (52 + 4) - 1

module _ (U : FloatUnit) where
  abbrev pub cvt_packed_int_vec_f128 : Scratchpad → ℕ → Option (U.F64 × U.F64)
  cvt_packed_int_vec_f128 pad offset =
      load 4 pad offset >>= λ lo. load 4 pad (offset + 4) >>= λ hi. some (U.of_i32 lo, U.of_i32 hi)

  abbrev pub mask_register_exponent_mantissa : ProgramConfiguration → U.F64 × U.F64 → U.F64 × U.F64
  mask_register_exponent_mantissa config x = (
    U.from_bits (bit_or (bit_and (U.to_bits (x.0)) dynamic_mantissa_mask) (config.e_mask.0)),
    U.from_bits (bit_or (bit_and (U.to_bits (x.1)) dynamic_mantissa_mask) (config.e_mask.1)),
  )
