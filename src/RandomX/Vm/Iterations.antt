-- ===== src/RandomX/Vm/Iterations.antt =====
-- `execute_vm_inner` (src/randomx/vm.rs) always completes, and reads and writes within bounds.
use miner_tim.Common.{
  ℕ, ◌+◌, ◌*◌, ◌/◌, ◌≤◌, ◌<◌, bit_and, bit_xor, u32, ◌>>>◌, some, ◌>>=◌, ◌≡◌, refl, arith, List,
  take, All, Bytes, get_elem?, length, lt→ltb, length-replicate,
}
use miner_tim.RandomX.Instruction.{
  BytecodeInstruction, RxVersion, program_size, program_bytes_size, scratchpad_l3_size,
}
use miner_tim.RandomX.Compile.{compile_program}
use miner_tim.RandomX.Machine.{FloatUnit, Machine}
use miner_tim.RandomX.Execute.{Outcome, finished, out_of_bounds, out_of_fuel, execute_bytecode}
use miner_tim.RandomX.Params.{
  ProgramParams, derive_program_params, entropy, scratchpad_l3_mask64, cache_line_align_mask,
  dataset_item_count, cache_line_size,
}
use miner_tim.RandomX.Safety.{Post, IsReady, bind-Post, get-then, bit_and-le_below}
use miner_tim.RandomX.Program.{IsCompiled, IsByte, compile_program-IsCompiled}
use miner_tim.RandomX.Visits.{Ends}
use miner_tim.RandomX.Termination.{compiled-Ends}
use miner_tim.RandomX.Vm.{
  LoopState, completed, turns, xor_item, load_all, store_all, read_dataset, next_addresses,
  iteration, execute_vm,
}
use miner_tim.RandomX.Vm.Loops.{for_from-Post, xor_item-Post, load_all-Post, store_all-Post}

pub bit_and-le : (a b : ℕ) → bit_and a b ≤ b
bit_and-le a b = bit_and-le_below b a b (omega arith)

-- The registers that choose addresses exist, and the dataset offset is of an extra item.
unfoldable pub IsInRange : ProgramParams → Type 0
IsInRange p =
    (p.config.read_reg0 < 8)
    × ((p.config.read_reg1 < 8)
        × ((p.config.read_reg2 < 8)
            × ((p.config.read_reg3 < 8) × (p.dataset_offset ≤ 524287 * 64))))

derive_program_params-IsInRange :
    (program_bytes : Bytes) → IsInRange (derive_program_params program_bytes)
unfolding IsInRange derive_program_params
derive_program_params-IsInRange program_bytes =
    let a = entropy program_bytes 12 in
    (
      omega (arith, bit_and-le a 1),
      (
        omega (arith, bit_and-le (a >>> 1) 1),
        (
          omega (arith, bit_and-le (a >>> 2) 1),
          (omega (arith, bit_and-le (a >>> 3) 1), omega arith),
        ),
      ),
    )

-- An address of the register loops has room for 64 bytes.
line-fits : (x : ℕ) → bit_and x scratchpad_l3_mask64 + 64 ≤ scratchpad_l3_size
line-fits x = omega (arith, bit_and-le x scratchpad_l3_mask64)

-- The worst dataset address is inside the dataset.
item-fits :
    (offset ma : ℕ)
    → offset ≤ 524287 * 64
    → (offset + bit_and ma cache_line_align_mask) / 64 < dataset_item_count
item-fits offset ma h = omega (arith, bit_and-le ma cache_line_align_mask)

completed-Post : {F : Type 0} (o : Outcome F) → Ends o → Post IsReady (completed o)
unfolding Ends completed
completed-Post (finished m) h = h
completed-Post out_of_bounds h = h
completed-Post out_of_fuel h = h

module _ (U : FloatUnit) (mix : ℕ → List (U.F64 × U.F64) → U.F64 × U.F64 → U.F64 × U.F64)
    (item : ℕ → ℕ → ℕ) where
  read_dataset-Post :
      (n : ℕ) (m : Machine (U.F64))
      → n < dataset_item_count
      → IsReady m
      → Post IsReady (read_dataset U mix item n m)
  unfolding read_dataset
  read_dataset-Post n m h ready = rw (lt→ltb n dataset_item_count h) (
      for_from-Post IsReady (xor_item U mix item n) 8 8 0 m (omega arith)
        (xor_item-Post U mix item n) ready)

  iteration-Post :
      (version : RxVersion) (params : ProgramParams) (code : List BytecodeInstruction)
      (m : Machine (U.F64)) (s : LoopState)
      → IsInRange params
      → IsCompiled (program_size version) code
      → IsReady m
      → Post (λ r. IsReady (r.0)) (iteration U mix item version params code (m, s))
  unfolding IsReady IsInRange iteration
  iteration-Post version params code m s (h0, (h1, (h2, (h3, hd)))) compiled ready =
      get-then m.r params.config.read_reg0 _ _ (omega arith) (λ x0.
        get-then m.r params.config.read_reg1 _ _ (omega arith) (λ x1.
          let addr0 = bit_xor s.sp_addr0 (u32 (bit_xor x0 x1)) in
          let addr1 = bit_xor s.sp_addr1 (u32 (bit_xor x0 x1 >>> 32)) in
          bind-Post IsReady _ (load_all U mix item params.config _ _ m) _
            (load_all-Post U mix item params.config _ _ m (line-fits addr0) (line-fits addr1) ready)
            (λ loaded rl.
              bind-Post IsReady _
                (completed (
                  execute_bytecode U params.config version code (turns (program_size version))
                    loaded))
                _
                (completed-Post _ (
                  compiled-Ends U params.config version code loaded (turns (program_size version))
                    compiled rl (omega arith)))
                (λ ran rr. finish addr0 addr1 ran rr))))
    where
      finish :
          (addr0 addr1 : ℕ) (ran : Machine (U.F64))
          → IsReady ran
          → Post
              (λ (r : Machine (U.F64) × LoopState). IsReady (r.0))
              (get_elem? ran.r params.config.read_reg2 >>= λ x2.
                get_elem? ran.r params.config.read_reg3 >>= λ x3.
                read_dataset U mix item
                  ((params.dataset_offset + bit_and s.ma cache_line_align_mask) / cache_line_size)
                  ran
                >>= λ mixed.
                    store_all U mix item version
                      (bit_and addr0 scratchpad_l3_mask64)
                      (bit_and addr1 scratchpad_l3_mask64)
                      mixed
                    >>= λ stored.
                        some (stored, next_addresses U mix item version (u32 (bit_xor x2 x3)) s))
      finish addr0 addr1 ran rr = get-then ran.r params.config.read_reg2 _ _ (omega arith) (λ x2.
          get-then ran.r params.config.read_reg3 _ _ (omega arith) (λ x3.
            bind-Post IsReady _ (read_dataset U mix item _ ran) _
              (read_dataset-Post _ ran (item-fits params.dataset_offset s.ma hd) rr)
              (λ mixed rm.
                bind-Post IsReady _ (store_all U mix item version _ _ mixed) _
                  (store_all-Post U mix item version _ _ mixed (line-fits addr0) (line-fits addr1)
                    rm)
                  (λ stored rs. rs))))

-- For every program of the right length, of either version, and any number of iterations, the
-- virtual machine completes with whole registers and a whole scratchpad: the program compiles and
-- ends in each iteration, and no register, scratchpad or dataset access is out of bounds.
pub execute_vm-completes :
    (U : FloatUnit) (mix : ℕ → List (U.F64 × U.F64) → U.F64 × U.F64 → U.F64 × U.F64)
    (item : ℕ → ℕ → ℕ) (version : RxVersion) (program_bytes : Bytes)
    (buffer : List BytecodeInstruction) (iterations : ℕ) (m : Machine (U.F64))
    → All IsByte program_bytes
    → length program_bytes ≡ program_bytes_size version
    → IsReady m
    → Post (λ r. IsReady (r.0)) (execute_vm U mix item version program_bytes buffer iterations m)
unfolding IsReady execute_vm
execute_vm-completes U mix item version program_bytes buffer iterations m h size ready =
    bind-Post (λ result. IsCompiled (program_size version) (take (program_size version) (result.0)))
      _ (compile_program program_bytes (program_size version) buffer) _
      (compile_program-IsCompiled program_bytes (program_size version) buffer h (omega arith))
      (λ result compiled.
        for_from-Post (λ r. IsReady (r.0)) _ iterations iterations 0 _ (omega arith)
          (λ i (x, s) lt rx.
            iteration-Post U mix item version _ _ x s
              (derive_program_params-IsInRange program_bytes) compiled rx)
          (length-replicate {A = ℕ} 8 0, (ready.1.0, (ready.1.1.0, (refl, ready.1.1.1.1)))))
