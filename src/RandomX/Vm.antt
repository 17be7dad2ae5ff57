-- ===== src/RandomX/Vm.antt =====
-- `execute_vm_inner` (src/randomx/vm.rs) with the interpreter, in full mode. The words of the
-- dataset and the AES mixing of version 2 are parameters; a read past the dataset is none.
pub mod Loops
pub mod Iterations
use miner_tim.Common.{
  ℕ, zero, suc, ◌+◌, ◌-◌, ◌*◌, ◌/◌, ◌%◌, ◌^◌, bit_and, bit_xor, u32, u64, ◌>>>◌, Bytes, take, List,
  [], ◌∷◌, Option, none, some, ◌>>=◌, Bool, true, false, ltb, if◌then◌else◌, get_elem?, replicate,
}
use miner_tim.RandomX.Instruction.{BytecodeInstruction, RxVersion, v1, v2, program_size}
use miner_tim.RandomX.Compile.{compile_program}
use miner_tim.RandomX.Machine.{
  FloatUnit, Machine, ProgramConfiguration, write, load64, store64, cvt_packed_int_vec_f128,
  mask_register_exponent_mantissa,
}
use miner_tim.RandomX.Execute.{Outcome, finished, out_of_bounds, out_of_fuel, execute_bytecode}
use miner_tim.RandomX.Params.{
  ProgramParams, derive_program_params, initial_a, scratchpad_l3_mask64, cache_line_align_mask,
  cache_line_size, dataset_item_count,
}

pub record LoopState : Type 0 where
  pub ma : ℕ
  pub mx : ℕ
  pub sp_addr0 : ℕ
  pub sp_addr1 : ℕ

-- `for i in first..first + count`.
unfoldable pub for_from : {A : Type 0} → (ℕ → A → Option A) → ℕ → ℕ → A → Option A
for_from body zero first a = some a
for_from body (suc count) first a = body first a >>= λ next. for_from body count (suc first) next

unfoldable pub completed : {F : Type 0} → Outcome F → Option (Machine F)
completed (finished m) = some m
completed out_of_bounds = none
completed out_of_fuel = none

-- Turns of the interpreter's loop that are enough for a program.
abbrev pub turns : ℕ → ℕ
turns n = n * (3 * n + 3) + 1

module _ (U : FloatUnit) (mix : ℕ → List (U.F64 × U.F64) → U.F64 × U.F64 → U.F64 × U.F64)
    (item : ℕ → ℕ → ℕ) where
  unfoldable pub load_r : ℕ → ℕ → Machine (U.F64) → Option (Machine (U.F64))
  load_r addr i m = get_elem? m.r i >>= λ x. load64 m.scratchpad (addr + 8 * i) >>= λ y.
      write m.r i (bit_xor x y) >>= λ r. some (record m { r = r })

  unfoldable pub load_f : ℕ → ℕ → Machine (U.F64) → Option (Machine (U.F64))
  load_f addr i m = cvt_packed_int_vec_f128 U m.scratchpad (addr + 8 * i) >>= λ v.
      write m.f i v >>= λ f. some (record m { f = f })

  unfoldable pub load_e : ProgramConfiguration → ℕ → ℕ → Machine (U.F64) → Option (Machine (U.F64))
  load_e config addr i m = cvt_packed_int_vec_f128 U m.scratchpad (addr + 8 * (4 + i)) >>= λ v.
      write m.e i (mask_register_exponent_mantissa U config v) >>= λ e. some (record m { e = e })

  unfoldable pub xor_item : ℕ → ℕ → Machine (U.F64) → Option (Machine (U.F64))
  xor_item item_number i m = get_elem? m.r i >>= λ x.
      write m.r i (bit_xor x (item item_number i)) >>= λ r. some (record m { r = r })

  unfoldable pub store_r : ℕ → ℕ → Machine (U.F64) → Option (Machine (U.F64))
  store_r addr i m = get_elem? m.r i >>= λ x.
      store64 m.scratchpad (addr + 8 * i) x >>= λ pad. some (record m { scratchpad = pad })

  abbrev pub xor_f128 : U.F64 × U.F64 → U.F64 × U.F64 → U.F64 × U.F64
  xor_f128 x y = (
    U.from_bits (bit_xor (U.to_bits (x.0)) (U.to_bits (y.0))),
    U.from_bits (bit_xor (U.to_bits (x.1)) (U.to_bits (y.1))),
  )

  -- The combination of `f` with `e` of either version.
  unfoldable pub combine : RxVersion → ℕ → Machine (U.F64) → Option (Machine (U.F64))
  combine v1 i m = get_elem? m.f i >>= λ x.
      get_elem? m.e i >>= λ y. write m.f i (xor_f128 x y) >>= λ f. some (record m { f = f })
  combine v2 i m =
      get_elem? m.f i >>= λ x. write m.f i (mix i m.e x) >>= λ f. some (record m { f = f })

  -- `store_f128` of a register.
  unfoldable pub store_f : ℕ → ℕ → Machine (U.F64) → Option (Machine (U.F64))
  store_f addr i m = get_elem? m.f i >>= λ x.
      store64 m.scratchpad (addr + 16 * i) (U.to_bits (x.0)) >>= λ lo.
      store64 lo (addr + 16 * i + 8) (U.to_bits (x.1)) >>= λ pad.
      some (record m { scratchpad = pad })

  -- The registers an iteration begins with.
  unfoldable pub load_all :
      ProgramConfiguration → ℕ → ℕ → Machine (U.F64) → Option (Machine (U.F64))
  unfolding for_from load_r load_f load_e
  load_all config sp_addr0 sp_addr1 m = for_from (load_r sp_addr0) 8 0 m >>= λ loaded.
      for_from (load_f sp_addr1) 4 0 loaded >>= λ converted.
      for_from (load_e config sp_addr1) 4 0 converted

  -- The registers an iteration ends with.
  unfoldable pub store_all : RxVersion → ℕ → ℕ → Machine (U.F64) → Option (Machine (U.F64))
  unfolding for_from store_r combine store_f
  store_all version sp_addr0 sp_addr1 m = for_from (store_r sp_addr1) 8 0 m >>= λ stored.
      for_from (combine version) 4 0 stored >>= λ combined. for_from (store_f sp_addr0) 4 0 combined

  -- `mp` takes the second mix, then the two addresses change places.
  abbrev pub next_addresses : RxVersion → ℕ → LoopState → LoopState
  next_addresses v1 sp_mix2 s = record {
    ma = bit_xor s.mx sp_mix2;
    mx = s.ma;
    sp_addr0 = 0;
    sp_addr1 = 0;
  }
  next_addresses v2 sp_mix2 s = record {
    ma = s.mx;
    mx = bit_xor s.ma sp_mix2;
    sp_addr0 = 0;
    sp_addr1 = 0;
  }

  -- One read of the dataset.
  unfoldable pub read_dataset : ℕ → Machine (U.F64) → Option (Machine (U.F64))
  unfolding for_from xor_item
  read_dataset item_number m =
      if ltb item_number dataset_item_count then for_from (xor_item item_number) 8 0 m else none

  unfoldable pub iteration :
      RxVersion
      → ProgramParams
      → List BytecodeInstruction
      → Machine (U.F64) × LoopState
      → Option (Machine (U.F64) × LoopState)
  unfolding completed execute_bytecode load_all store_all read_dataset
  iteration version params code (m, s) = get_elem? m.r params.config.read_reg0 >>= λ x0.
      get_elem? m.r params.config.read_reg1 >>= λ x1.
      let sp_mix = bit_xor x0 x1 in
      let sp_addr0 = bit_and (bit_xor s.sp_addr0 (u32 sp_mix)) scratchpad_l3_mask64 in
      let sp_addr1 = bit_and (bit_xor s.sp_addr1 (u32 (sp_mix >>> 32))) scratchpad_l3_mask64 in
      load_all params.config sp_addr0 sp_addr1 m >>= λ loaded.
      completed
        (execute_bytecode U params.config version code (turns (program_size version)) loaded)
      >>= λ ran.
          let read_ptr = params.dataset_offset + bit_and s.ma cache_line_align_mask in
          get_elem? ran.r params.config.read_reg2 >>= λ x2.
          get_elem? ran.r params.config.read_reg3 >>= λ x3.
          read_dataset (read_ptr / cache_line_size) ran >>= λ mixed.
          store_all version sp_addr0 sp_addr1 mixed >>= λ stored.
          some (stored, next_addresses version (u32 (bit_xor x2 x3)) s)

  unfoldable pub execute_vm :
      RxVersion
      → Bytes
      → List BytecodeInstruction
      → ℕ
      → Machine (U.F64)
      → Option (Machine (U.F64) × LoopState)
  unfolding derive_program_params compile_program for_from iteration
  execute_vm version program_bytes bytecode_buf iterations m =
      let params = derive_program_params program_bytes in
      let start = record m { r = replicate 8 0; a = initial_a U program_bytes } in
      let s : LoopState = record {
        ma = params.ma;
        mx = params.mx;
        sp_addr0 = params.mx;
        sp_addr1 = params.ma;
      } in
      compile_program program_bytes (program_size version) bytecode_buf >>= λ compiled.
      for_from (λ i. iteration version params (take (program_size version) (compiled.0))) iterations
        0 (start, s)
