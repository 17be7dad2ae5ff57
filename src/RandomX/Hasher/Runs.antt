-- ===== src/RandomX/Hasher/Runs.antt =====
-- The chains of programs of a hash (src/randomx/vm.rs): they complete, and depend neither on the
-- buffers' old contents nor on the registers of the hash before.
use miner_tim.Common.{
  ℕ, zero, suc, ◌%◌, ◌≡◌, refl, sym, ap, ◌∙◌, arith, Option, none, some, ◌>>=◌, Bytes, List, ◌++◌,
  length, take, drop, take-append, All, subst, length-replicate, replicate,
}
use miner_tim.Common.Int.{negsuc}
use miner_tim.RandomX.Instruction.{
  BytecodeInstruction, RxVersion, v1, v2, program_size, program_bytes_size,
}
use miner_tim.RandomX.Compile.{compile_from, compile_program, RegisterUsage}
use miner_tim.RandomX.Program.{IsByte, Completes, compile_from-Completes}
use miner_tim.RandomX.Machine.{FloatUnit, Machine}
use miner_tim.RandomX.Safety.{IsReady, Post, bind-Post}
use miner_tim.RandomX.Params.{derive_program_params, initial_a}
use miner_tim.RandomX.Vm.{execute_vm, iteration, for_from, LoopState}
use miner_tim.RandomX.Vm.Iterations.{execute_vm-completes}
use miner_tim.RandomX.Aes.{AesRounds, fill_aes_4rx4}
use miner_tim.RandomX.Aes.Streams.{
  program_stream, fill_aes_4rx4-stream, length-program_stream, program_stream-IsByte,
}
use miner_tim.RandomX.Hasher.{aes_mix_f_e, next_temp, run_chains, randomx_program_iterations}

-- Equal continuations of a result that has a property.
bind-same :
    {A : Type 0} {B : Type 0} (Q : A → Type 0) (o : Option A) (f g : A → Option B)
    → Post Q o
    → ((a : A) → Q a → f a ≡ g a)
    → (o >>= f) ≡ (o >>= g)
bind-same Q none f g h k = refl
bind-same Q (some a) f g h k = k a h

-- A compiled program with the rest of the buffer behind it.
abbrev before :
    List BytecodeInstruction
    → List BytecodeInstruction × RegisterUsage
    → Option (List BytecodeInstruction × RegisterUsage)
before rest r = some (r.0 ++ rest, r.1)

-- What runs of a compiled program, whatever the buffer held.
taken_same :
    {B : Type 0} (size : ℕ) (xs ys : List BytecodeInstruction)
    (o : Option (List BytecodeInstruction × RegisterUsage))
    (k : List BytecodeInstruction → Option B)
    → Post (λ r. length (r.0) ≡ size) o
    → ((o >>= before (drop size xs)) >>= λ compiled. k (take size (compiled.0)))
      ≡ ((o >>= before (drop size ys)) >>= λ compiled. k (take size (compiled.0)))
taken_same size xs ys none k h = refl
taken_same size xs ys (some r) k h =
    ap k (take-append (r.0) (drop size xs) size h ∙ sym (take-append (r.0) (drop size ys) size h))

pub Post-map :
    {A : Type 0} (P Q : A → Type 0) (o : Option A) → ((a : A) → P a → Q a) → Post P o → Post Q o
Post-map P Q none f h = h
Post-map P Q (some a) f h = f a h

program_rows : (version : RxVersion) → program_bytes_size version % 64 ≡ 0
program_rows v1 = refl
program_rows v2 = refl

module _ (U : FloatUnit) (aes : AesRounds) (items : ℕ → ℕ → ℕ) (version : RxVersion) where
  compiled_size :
      (r : List BytecodeInstruction × RegisterUsage)
      → Completes (program_size version) 0 (replicate 8 (negsuc 0)) r
      → length (r.0) ≡ program_size version
  unfolding Completes
  compiled_size r h = h.0

  execute_vm-buffer :
      (program : Bytes) (xs ys : List BytecodeInstruction) (iterations : ℕ) (m : Machine (U.F64))
      → All IsByte program
      → length program ≡ program_bytes_size version
      → execute_vm U (aes_mix_f_e U aes) items version program xs iterations m
        ≡ execute_vm U (aes_mix_f_e U aes) items version program ys iterations m
  unfolding execute_vm compile_program
  execute_vm-buffer program xs ys iterations m bytes size =
      let params = derive_program_params program in
      let start = record m { r = replicate 8 0; a = initial_a U program } in
      let s : LoopState = record {
        ma = params.ma;
        mx = params.mx;
        sp_addr0 = params.mx;
        sp_addr1 = params.ma;
      } in
      taken_same (program_size version) xs ys
        (compile_from program (program_size version) 0 (replicate 8 (negsuc 0)))
        (λ code.
          for_from (λ i. iteration U (aes_mix_f_e U aes) items version params code) iterations 0
            (start, s))
        (Post-map (Completes (program_size version) 0 (replicate 8 (negsuc 0))) _ _
          (λ r h. compiled_size r h)
          (compile_from-Completes program (program_size version) 0 (replicate 8 (negsuc 0)) bytes
            (omega arith) (length-replicate 8 (negsuc 0))))

  -- The chains, with the generated program written out.
  run_chains-suc :
      (buffer : List BytecodeInstruction) (left : ℕ) (temp : Bytes) (m : Machine (U.F64))
      (old : Bytes)
      → length old ≡ program_bytes_size version
      → run_chains U aes items version buffer (suc left) temp (m, old) ≡ (
          let program = program_stream aes temp (program_bytes_size version) in
          execute_vm U (aes_mix_f_e U aes) items version program buffer randomx_program_iterations m
          >>= λ ran.
              run_chains U aes items version buffer left
                (next_temp U aes left temp (ran.0))
                (ran.0, program))
  unfolding run_chains
  run_chains-suc buffer left temp m old size =
      let filled : fill_aes_4rx4 aes temp old
          ≡ some (program_stream aes temp (program_bytes_size version)) =
        fill_aes_4rx4-stream aes temp old (ap (λ n. n % 64) size ∙ program_rows version)
        ∙ ap (λ n. some (program_stream aes temp n)) size in
      ap
        (λ (o : Option Bytes). o >>= λ program.
          execute_vm U (aes_mix_f_e U aes) items version program buffer randomx_program_iterations m
          >>= λ ran.
              run_chains U aes items version buffer left (next_temp U aes left temp (ran.0))
                (ran.0, program))
        filled

  abbrev Sized : Machine (U.F64) × Bytes → Type 0
  Sized s = IsReady (s.0) × (length (s.1) ≡ program_bytes_size version)

  execute-Post :
      (buffer : List BytecodeInstruction) (temp : Bytes) (m : Machine (U.F64))
      → IsReady m
      → Post
          (λ r. IsReady (r.0))
          (execute_vm U
            (aes_mix_f_e U aes)
            items
            version
            (program_stream aes temp (program_bytes_size version))
            buffer
            randomx_program_iterations
            m)
  execute-Post buffer temp m ready =
      execute_vm-completes U (aes_mix_f_e U aes) items version
        (program_stream aes temp (program_bytes_size version)) buffer randomx_program_iterations m
        (program_stream-IsByte aes temp (program_bytes_size version))
        (length-program_stream aes temp (program_bytes_size version) (program_rows version)) ready

  -- The chains complete, with whole registers, a whole scratchpad and a whole program buffer.
  pub run_chains-Post :
      (buffer : List BytecodeInstruction) (chains : ℕ) (temp : Bytes) (m : Machine (U.F64))
      (old : Bytes)
      → IsReady m
      → length old ≡ program_bytes_size version
      → Post Sized (run_chains U aes items version buffer chains temp (m, old))
  unfolding run_chains
  run_chains-Post buffer zero temp m old ready size = (ready, size)
  run_chains-Post buffer (suc left) temp m old ready size =
      subst (Post Sized) (sym (run_chains-suc buffer left temp m old size)) (
        bind-Post (λ r. IsReady (r.0)) Sized _ _ (execute-Post buffer temp m ready)
          (λ ran r.
            run_chains-Post buffer left (next_temp U aes left temp (ran.0)) (ran.0) _ r
              (length-program_stream aes temp (program_bytes_size version) (program_rows version))))

  chains-step :
      (xs ys : List BytecodeInstruction) (left : ℕ) (temp : Bytes) (m : Machine (U.F64))
      (old_x old_y : Bytes)
      → IsReady m
      → length old_x ≡ program_bytes_size version
      → length old_y ≡ program_bytes_size version
      → ((t : Bytes) (n : Machine (U.F64)) (program : Bytes)
          → IsReady n
          → length program ≡ program_bytes_size version
          → run_chains U aes items version xs left t (n, program)
            ≡ run_chains U aes items version ys left t (n, program))
      → run_chains U aes items version xs (suc left) temp (m, old_x)
        ≡ run_chains U aes items version ys (suc left) temp (m, old_y)
  chains-step xs ys left temp m old_x old_y ready hx hy later =
      let size = program_bytes_size version in
      let program = program_stream aes temp size in
      let whole : length program ≡ size =
        length-program_stream aes temp size (program_rows version) in
      run_chains-suc xs left temp m old_x hx
      ∙ bind-same (λ r. IsReady (r.0)) _ _ _ (execute-Post xs temp m ready)
          (λ ran r. later (next_temp U aes left temp (ran.0)) (ran.0) program r whole)
      ∙ ap
          (λ o. o >>= λ ran.
            run_chains U aes items version ys left (next_temp U aes left temp (ran.0))
              (ran.0, program))
          (execute_vm-buffer program xs ys randomx_program_iterations m
            (program_stream-IsByte aes temp size) whole)
      ∙ sym (run_chains-suc ys left temp m old_y hy)

  -- Neither the buffer for bytecode nor the old program shows in the result of the chains.
  pub run_chains-buffers :
      (xs ys : List BytecodeInstruction) (left : ℕ) (temp : Bytes) (m : Machine (U.F64))
      (old_x old_y : Bytes)
      → IsReady m
      → length old_x ≡ program_bytes_size version
      → length old_y ≡ program_bytes_size version
      → run_chains U aes items version xs (suc left) temp (m, old_x)
        ≡ run_chains U aes items version ys (suc left) temp (m, old_y)
  unfolding run_chains
  run_chains-buffers xs ys zero temp m old_x old_y ready hx hy =
      chains-step xs ys zero temp m old_x old_y ready hx hy (λ t n program r h. refl)
  run_chains-buffers xs ys (suc left) temp m old_x old_y ready hx hy =
      chains-step xs ys (suc left) temp m old_x old_y ready hx hy
        (λ t n program r h. run_chains-buffers xs ys left t n program program r h h)
