-- ===== src/RandomX/Execute.antt =====
-- `execute_bytecode` (src/randomx/vm.rs): one function for each kind of arm, and the loop on fuel.
use miner_tim.Common.{
  ℕ, zero, suc, ◌-◌, ◌^◌, bit_and, bit_xor, Bool, Option, none, some, u32, u64, ◌<<<◌, get_elem?,
  ltb, ◌==◌, if◌then◌else◌, ◌>>=◌, List,
}
use miner_tim.Common.Int.{ℤ, pos, negsuc, succ}
use miner_tim.RandomX.Instruction.{
  InstructionType, BytecodeInstruction, RxVersion, v1, v2, iadd_rs, iadd_m, isub_r, isub_m, imul_r,
  imul_m, imulh_r, imulh_m, ismulh_r, ismulh_m, ineg_r, ixor_r, ixor_m, iror_r, irol_r, iswap_r,
  fswap_r, fadd_r, fadd_m, fsub_r, fsub_m, fscal_r, fmul_r, fdiv_m, fsqrt_r, cbranch, cfround,
  istore, nop,
}
use miner_tim.RandomX.Machine.{
  FloatUnit, Machine, ProgramConfiguration, write, load64, store64, wrapping_add, wrapping_sub,
  wrapping_mul, mulh, smulh, rotate_right, rotr64, rotl64, swap_f128, cvt_packed_int_vec_f128,
  mask_register_exponent_mantissa,
}

-- `set_rounding_mode` keeps two bits.
abbrev pub set_rounding_mode : {F : Type 0} → ℕ → Machine F → Machine F
set_rounding_mode mode m = record m { mode = bit_and mode 3 }

-- V2 changes the mode only when bits 2 to 5 of the rotated source are clear.
unfoldable pub apply_cfround : {F : Type 0} → RxVersion → ℕ → Machine F → Machine F
apply_cfround v1 rotated m = set_rounding_mode (bit_and rotated 3) m
apply_cfround v2 rotated m =
    if bit_and rotated 60 == 0 then set_rounding_mode (bit_and rotated 3) m else m

-- `(x.wrapping_add(ibc.imm) as u32 & ibc.mem_mask) as usize`
abbrev pub address : BytecodeInstruction → ℕ → ℕ
address b x = bit_and (u32 (wrapping_add x b.imm)) b.mem_mask

module _ {F : Type 0} (b : BytecodeInstruction) where
  -- `if ibc.src < 8 { nreg.r(ibc.src) } else { other }`
  unfoldable pub source_or : ℕ → Machine F → Option ℕ
  source_or other m = if ltb b.src 8 then get_elem? m.r b.src else some other

  -- `*nreg.r_mut(ibc.dst) = op(nreg.r(ibc.dst), x)`
  unfoldable pub update : (ℕ → ℕ → ℕ) → ℕ → Machine F → Option (Machine F)
  update op x m =
      get_elem? m.r b.dst >>= λ d. write m.r b.dst (op d x) >>= λ r. some (record m { r = r })

  unfoldable pub with_register : (ℕ → ℕ → ℕ) → Machine F → Option (Machine F)
  unfolding update
  with_register op m = get_elem? m.r b.src >>= λ x. update op x m

  unfoldable pub with_source : (ℕ → ℕ → ℕ) → Machine F → Option (Machine F)
  unfolding source_or update
  with_source op m = source_or b.imm m >>= λ x. update op x m

  unfoldable pub with_memory : (ℕ → ℕ → ℕ) → Machine F → Option (Machine F)
  unfolding source_or update
  with_memory op m =
      source_or 0 m >>= λ base. load64 m.scratchpad (address b base) >>= λ x. update op x m

  unfoldable pub swap : Machine F → Option (Machine F)
  swap m = get_elem? m.r b.dst >>= λ d. get_elem? m.r b.src >>= λ s.
      write m.r b.dst s >>= λ r. write r b.src d >>= λ r'. some (record m { r = r' })

  -- A register of `f` or `e` becomes `op` of itself.
  unfoldable pub update_f : (F × F → F × F) → Machine F → Option (Machine F)
  update_f op m =
      get_elem? m.f b.dst >>= λ d. write m.f b.dst (op d) >>= λ f. some (record m { f = f })

  unfoldable pub update_e : (F × F → F × F) → Machine F → Option (Machine F)
  update_e op m =
      get_elem? m.e b.dst >>= λ d. write m.e b.dst (op d) >>= λ e. some (record m { e = e })

  unfoldable pub write_memory : Machine F → Option (Machine F)
  write_memory m = get_elem? m.r b.dst >>= λ d. get_elem? m.r b.src >>= λ s.
      store64 m.scratchpad (address b d) s >>= λ pad. some (record m { scratchpad = pad })

  unfoldable pub round : RxVersion → Machine F → Option (Machine F)
  unfolding apply_cfround
  round version m =
      get_elem? m.r b.src >>= λ s. some (apply_cfround version (rotate_right s (u32 b.imm)) m)

-- `op` on both halves of two pairs.
abbrev pub both : {F : Type 0} → (F → F → F) → F × F → F × F → F × F
both op s d = (op (d.0) (s.0), op (d.1) (s.1))

module _ (U : FloatUnit) (config : ProgramConfiguration) (version : RxVersion) where
  abbrev pub scale : U.F64 → U.F64
  scale x = U.from_bits (bit_xor (U.to_bits x) 9290926031265333248)

  -- The pair an instruction reads from the scratchpad.
  unfoldable pub float_source : BytecodeInstruction → Machine (U.F64) → Option (U.F64 × U.F64)
  float_source b m =
      get_elem? m.r b.src >>= λ x. cvt_packed_int_vec_f128 U m.scratchpad (address b x)

  -- The arms of the `match`, the branch's apart.
  unfoldable pub arm :
      InstructionType → BytecodeInstruction → Machine (U.F64) → Option (Machine (U.F64))
  unfolding with_register with_source with_memory update swap update_f update_e write_memory round
      float_source
  arm iadd_rs b m =
      with_register b (λ d s. wrapping_add d (wrapping_add (u64 (s <<< b.shift)) b.imm)) m
  arm iadd_m b m = with_memory b wrapping_add m
  arm isub_r b m = with_source b wrapping_sub m
  arm isub_m b m = with_memory b wrapping_sub m
  arm imul_r b m = with_source b wrapping_mul m
  arm imul_m b m = with_memory b wrapping_mul m
  arm imulh_r b m = with_register b mulh m
  arm imulh_m b m = with_memory b mulh m
  arm ismulh_r b m = with_register b smulh m
  arm ismulh_m b m = with_memory b smulh m
  arm ineg_r b m = update b (λ d x. wrapping_add (2 ^ 64 - 1 - d) 1) 0 m
  arm ixor_r b m = with_source b bit_xor m
  arm ixor_m b m = with_memory b bit_xor m
  arm iror_r b m = with_source b rotr64 m
  arm irol_r b m = with_source b rotl64 m
  arm iswap_r b m = swap b m
  arm fswap_r b m = if b.fswap_is_e then update_e b swap_f128 m else update_f b swap_f128 m
  arm fadd_r b m = get_elem? m.a b.src >>= λ s. update_f b (both (U.add m.mode) s) m
  arm fadd_m b m = float_source b m >>= λ s. update_f b (both (U.add m.mode) s) m
  arm fsub_r b m = get_elem? m.a b.src >>= λ s. update_f b (both (U.sub m.mode) s) m
  arm fsub_m b m = float_source b m >>= λ s. update_f b (both (U.sub m.mode) s) m
  arm fscal_r b m = update_f b (λ d. (scale (d.0), scale (d.1))) m
  arm fmul_r b m = get_elem? m.a b.src >>= λ s. update_e b (both (U.mul m.mode) s) m
  arm fdiv_m b m = float_source b m >>= λ s.
      update_e b (both (U.div m.mode) (mask_register_exponent_mantissa U config s)) m
  arm fsqrt_r b m = update_e b (λ d. (U.sqrt m.mode (d.0), U.sqrt m.mode (d.1))) m
  arm cbranch b m = update b wrapping_add b.imm m
  arm cfround b m = round b version m
  arm istore b m = write_memory b m
  arm nop b m = some m

  -- Whether a branch jumps, in the machine its addition has made.
  unfoldable pub jumps : BytecodeInstruction → Machine (U.F64) → Option Bool
  jumps b m = get_elem? m.r b.dst >>= λ x. some (bit_and x b.mem_mask == 0)

  -- `pc` after the arm: the target of a branch that jumps.
  unfoldable pub next_pc : InstructionType → BytecodeInstruction → ℤ → Machine (U.F64) → Option ℤ
  unfolding jumps
  next_pc cbranch b pc m = jumps b m >>= λ taken. some (if taken then b.target else pc)
  next_pc t b pc m = some pc

  unfoldable pub execute_instruction :
      BytecodeInstruction → ℤ → Machine (U.F64) → Option (Machine (U.F64) × ℤ)
  unfolding arm next_pc
  execute_instruction b pc m =
      arm b.itype b m >>= λ after. next_pc b.itype b pc after >>= λ next. some (after, succ next)

-- How a run of the loop ends: with the machine, in an access out of bounds, or without fuel.
pub data Outcome (F : Type 0) : Type 0 where
  finished : Machine F → Outcome F
  out_of_bounds : Outcome F
  out_of_fuel : Outcome F

module _ (U : FloatUnit) (config : ProgramConfiguration) (version : RxVersion) where
  -- `while pc < len`; a negative `pc` reads out of bounds.
  unfoldable pub execute_loop : List BytecodeInstruction → ℕ → ℤ → Machine (U.F64) → Outcome (U.F64)
  unfolding execute_instruction
  execute_loop code zero pc m = out_of_fuel
  execute_loop code (suc fuel) (negsuc n) m = out_of_bounds
  execute_loop code (suc fuel) (pos n) m = elim (get_elem? code n) [
    | none ↦ finished m
    | some b ↦ elim (execute_instruction U config version b (pos n) m) [
      | none ↦ out_of_bounds
      | some next ↦ execute_loop code fuel (next.1) (next.0)
    ]
  ]

  unfoldable pub execute_bytecode : List BytecodeInstruction → ℕ → Machine (U.F64) → Outcome (U.F64)
  unfolding execute_loop
  execute_bytecode code fuel m = execute_loop code fuel (pos 0) m
