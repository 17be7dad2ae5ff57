-- ===== src/RandomX/Hasher.antt =====
-- `RandomXVm` of src/randomx/vm.rs in full mode, with the interpreter: `calculate_hash` and the
-- pipelined hashing. A panic is none. The rounding mode that a hash saves and restores is the
-- caller's, and is left out; the one it runs in is a field of the machine. The buffer for bytecode
-- has no effect on a run, and the JIT, the cache and the light mode are left out.
pub mod Runs
pub mod Through
pub mod Pipelined
pub mod Reference
use miner_tim.Common.{
  ℕ, zero, suc, ◌+◌, ◌*◌, ◌%◌, Option, none, some, ◌>>=◌, Bytes, from_le_bytes, to_le_bytes, List,
  [], ◌∷◌, ◌++◌, map, length, take, drop, get_or, replicate, ◌==◌, if◌then◌else◌,
}
use miner_tim.RandomX.Instruction.{
  BytecodeInstruction, RxVersion, program_bytes_size, scratchpad_l3_size,
}
use miner_tim.RandomX.Machine.{FloatUnit, Machine, Scratchpad}
use miner_tim.RandomX.Execute.{set_rounding_mode}
use miner_tim.RandomX.Vm.{execute_vm}
use miner_tim.RandomX.Blake2b.{blake2b_256, blake2b_512}
use miner_tim.RandomX.Aes.{
  AesRounds, fill_aes_1rx4, fill_aes_4rx4, hash_aes_1rx4, hash_and_fill_aes_1rx4,
}

abbrev pub randomx_program_iterations : ℕ
randomx_program_iterations = 2048

abbrev pub randomx_program_count : ℕ
randomx_program_count = 8

-- A scratchpad between the two ways to see it.
abbrev pub slice_from : (ℕ → ℕ) → ℕ → ℕ → Bytes
slice_from byte zero first = []
slice_from byte (suc count) first = byte first ∷ slice_from byte count (suc first)

unfoldable pub bytes_of : Scratchpad → Bytes
bytes_of pad = slice_from pad.byte pad.size 0

unfoldable pub pad_of : Bytes → Scratchpad
pad_of bytes = record { size = length bytes; byte = λ i. get_or bytes i 0 }

-- `calculate_commitment`
unfoldable pub calculate_commitment : Bytes → Bytes → Bytes
calculate_commitment input hash = blake2b_256 (input ++ hash)

module _ (U : FloatUnit) (aes : AesRounds) where
  abbrev pub f128_to_bytes : U.F64 × U.F64 → Bytes
  f128_to_bytes v = to_le_bytes 8 (U.to_bits (v.0)) ++ to_le_bytes 8 (U.to_bits (v.1))

  abbrev pub bytes_to_f128 : Bytes → U.F64 × U.F64
  bytes_to_f128 b =
      (U.from_bits (from_le_bytes (take 8 b)), U.from_bits (from_le_bytes (take 8 (drop 8 b))))

  -- A lane of `aes_mix_fe`: the even ones are encrypted, the odd ones decrypted.
  unfoldable pub aes_mix_fe : ℕ → List Bytes → Bytes → Bytes
  aes_mix_fe i [] f = f
  aes_mix_fe i (key ∷ e) f = aes_mix_fe i e (if i % 2 == 0 then aes.enc f key else aes.dec f key)

  unfoldable pub aes_mix_f_e : ℕ → List (U.F64 × U.F64) → U.F64 × U.F64 → U.F64 × U.F64
  aes_mix_f_e i e f = bytes_to_f128 (aes_mix_fe i (map f128_to_bytes e) (f128_to_bytes f))

  unfoldable pub new_register_file : Scratchpad → Machine (U.F64)
  new_register_file pad =
      let zeros = replicate 4 (U.from_bits 0, U.from_bits 0) in
      record { r = replicate 8 0; f = zeros; e = zeros; a = zeros; scratchpad = pad; mode = 0 }

  unfoldable pub word_bytes : List ℕ → Bytes
  word_bytes [] = []
  word_bytes (x ∷ r) = to_le_bytes 8 x ++ word_bytes r

  unfoldable pub pair_bytes : List (U.F64 × U.F64) → Bytes
  pair_bytes [] = []
  pair_bytes (x ∷ f) = f128_to_bytes x ++ pair_bytes f

  unfoldable pub serialize_register_file : Machine (U.F64) → Bytes
  serialize_register_file nreg =
      word_bytes nreg.r ++ (pair_bytes nreg.f ++ (pair_bytes nreg.e ++ pair_bytes nreg.a))

  -- The machine holds the register file and the scratchpad.
  pub record RandomXVm : Type 0 where
    pub dataset : ℕ → ℕ → ℕ
    pub program_bytes : Bytes
    pub bytecode : List BytecodeInstruction
    pub version : RxVersion
    pub machine : Machine (U.F64)
    pub pipeline_state : Bytes

  -- `new_full_versioned`. `bytecode` is the fresh buffer.
  unfoldable pub new_full : List BytecodeInstruction → (ℕ → ℕ → ℕ) → RxVersion → RandomXVm
  unfolding new_register_file
  new_full buffer items version = record {
    dataset = items;
    program_bytes = replicate (program_bytes_size version) 0;
    bytecode = buffer;
    version = version;
    machine = new_register_file (record { size = scratchpad_l3_size; byte = λ i. 0 });
    pipeline_state = replicate 64 0;
  }

  -- `reinit` with a dataset keeps the scratchpad and the pipeline's state.
  unfoldable pub reinit : (ℕ → ℕ → ℕ) → RandomXVm → RandomXVm
  reinit items vm = record vm { dataset = items }

  -- The seed of the program after this one, when chains are left.
  unfoldable pub next_temp : ℕ → Bytes → Machine (U.F64) → Bytes
  next_temp zero temp nreg = temp
  next_temp (suc left) temp nreg = blake2b_512 (serialize_register_file nreg)

  -- `for chain in 0..RANDOMX_PROGRAM_COUNT`, with the machine and the program buffer.
  unfoldable pub run_chains :
      (ℕ → ℕ → ℕ)
      → RxVersion
      → List BytecodeInstruction
      → ℕ
      → Bytes
      → Machine (U.F64) × Bytes
      → Option (Machine (U.F64) × Bytes)
  run_chains items version buffer zero temp s = some s
  run_chains items version buffer (suc left) temp (nreg, program_bytes) =
      fill_aes_4rx4 aes temp program_bytes >>= λ program.
      execute_vm U aes_mix_f_e items version program buffer randomx_program_iterations nreg
      >>= λ ran. run_chains items version buffer left (next_temp left temp (ran.0)) (ran.0, program)

  -- The hash of the scratchpad in the a-registers.
  unfoldable pub with_hash : Bytes → Machine (U.F64) → Machine (U.F64)
  with_hash aes_hash nreg = record nreg {
    a =
        bytes_to_f128 aes_hash
        ∷ bytes_to_f128 (drop 16 aes_hash)
        ∷ bytes_to_f128 (drop 32 aes_hash)
        ∷ bytes_to_f128 (drop 48 aes_hash)
        ∷ [];
  }

  abbrev pub result_of : Machine (U.F64) → Bytes
  result_of nreg = blake2b_256 (serialize_register_file nreg)

  -- All chains, on fresh registers and a filled scratchpad.
  unfoldable pub run_programs : RandomXVm → Bytes → Scratchpad → Option (Machine (U.F64) × Bytes)
  unfolding new_register_file
  run_programs vm temp pad =
      run_chains vm.dataset vm.version vm.bytecode randomx_program_count temp
        (set_rounding_mode 0 (new_register_file pad), vm.program_bytes)

  unfoldable pub calculate_hash : Bytes → RandomXVm → Option (Bytes × RandomXVm)
  calculate_hash input vm =
      fill_aes_1rx4 aes (blake2b_512 input) (bytes_of vm.machine.scratchpad) >>= λ filled.
      run_programs vm (filled.0) (pad_of (filled.1)) >>= λ ran.
      hash_aes_1rx4 aes (bytes_of ran.0.scratchpad) >>= λ aes_hash.
      let nreg = with_hash aes_hash (ran.0) in
      some (result_of nreg, record vm { machine = nreg; program_bytes = ran.1 })

  unfoldable pub prepare_scratchpad : Bytes → RandomXVm → Option RandomXVm
  prepare_scratchpad input vm =
      fill_aes_1rx4 aes (blake2b_512 input) (bytes_of vm.machine.scratchpad) >>= λ filled.
      some (record vm {
        machine = record vm.machine { scratchpad = pad_of (filled.1) };
        pipeline_state = filled.0;
      })

  unfoldable pub calculate_hash_pipelined : Bytes → RandomXVm → Option (Bytes × RandomXVm)
  calculate_hash_pipelined next_input vm =
      run_programs vm vm.pipeline_state vm.machine.scratchpad >>= λ ran.
      hash_and_fill_aes_1rx4 aes (bytes_of ran.0.scratchpad) (replicate 64 0)
        (blake2b_512 next_input)
      >>= λ done.
          let nreg = with_hash done.0 (record ran.0 { scratchpad = pad_of done.2 }) in
          some (
            result_of nreg,
            record vm { machine = nreg; program_bytes = ran.1; pipeline_state = done.1 },
          )
