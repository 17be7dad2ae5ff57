-- ===== src/RandomX/Tests.antt =====
-- Tests of the compiler and the interpreter of src/randomx/vm.rs.
mod Hashing
mod Programs
use miner_tim.RandomX.Reciprocal.{bit_length, randomx_reciprocal}
use miner_tim.RandomX.Reciprocal.Exact.{randomx_reciprocal-exact}
use miner_tim.RandomX.Params.{get_small_positive_float_bits}
use miner_tim.RandomX.Params.Floats.{get_small_positive_float_bits-fields}
use miner_tim.RandomX.Vm.{execute_vm}
use miner_tim.RandomX.Vm.Iterations.{execute_vm-completes}
use miner_tim.Common.{
  ◌/◌, ◌%◌, ◌^◌, ℕ, zero, suc, ◌+◌, ◌*◌, ◌<◌, ◌≡◌, refl, arith, Option, none, some, List, [], ◌∷◌,
  ◌++◌, replicate, length-replicate, All, Bytes, take, u64, ◌>>=◌,
}
use miner_tim.RandomX.Instruction.{RawInstruction, v1, get_mod_cond}
use miner_tim.RandomX.Compile.{compile_program, branch_imm}
use miner_tim.RandomX.Machine.{FloatUnit, Machine, ProgramConfiguration}
use miner_tim.RandomX.Execute.{execute_bytecode, Outcome, finished, out_of_bounds, out_of_fuel}
use miner_tim.RandomX.Safety.{IsReady, Post}
use miner_tim.RandomX.Program.{IsByte}
use miner_tim.RandomX.Condition.{Jumps, no_third_jump}
use miner_tim.RandomX.Visits.{Ends}
use miner_tim.RandomX.Termination.{execute_bytecode-Ends}

pub All-replicate : (n b : ℕ) → b < 256 → All IsByte (replicate n b)
All-replicate zero b h = tt
All-replicate (suc n) b h = (h, All-replicate n b h)

abbrev pub whole_numbers : FloatUnit
whole_numbers = record {
  F64 = ℕ;
  add = λ mode x y. x + y;
  sub = λ mode x y. x;
  mul = λ mode x y. x * y;
  div = λ mode x y. x;
  sqrt = λ mode x. x;
  to_bits = λ x. x;
  from_bits = λ x. x;
  of_i32 = λ x. x;
}

abbrev no_masks : ProgramConfiguration
no_masks = record { e_mask = (0, 0); read_reg0 = 0; read_reg1 = 2; read_reg2 = 4; read_reg3 = 6 }

abbrev idle_machine : Machine ℕ
idle_machine = record {
  r = replicate 8 100;
  f = replicate 4 (0, 0);
  e = replicate 4 (0, 0);
  a = replicate 4 (0, 0);
  scratchpad = record { size = 2097152; byte = λ i. 0 };
  mode = 0;
}

idle-IsReady : IsReady idle_machine
unfolding IsReady
idle-IsReady = (refl, (refl, (refl, (refl, refl))))

-- A program of conditional branches only.
abbrev branches : Bytes
branches = replicate 2176 220

execute_bytecode-Ends_example :
    Post
      (λ result.
        Ends (execute_bytecode whole_numbers no_masks v1 (take 256 (result.0)) 197377 idle_machine))
      (compile_program branches 256 [])
execute_bytecode-Ends_example =
    execute_bytecode-Ends whole_numbers no_masks v1 branches [] idle_machine 197377
      (All-replicate 2176 220 (omega arith)) (length-replicate {A = ℕ} 2176 220) idle-IsReady
      (omega arith)

-- A branch that jumps twice: it adds -129, and tests bits 8 to 15.
abbrev twice : RawInstruction
twice = record { opcode = 220; dst = 0; src = 0; mod_ = 0; imm32 = 4294967295 }

first_jump : Jumps (get_mod_cond twice) 200
first_jump = refl

second_jump : Jumps (get_mod_cond twice) (u64 (200 + branch_imm twice))
unfolding branch_imm
second_jump = refl

no_third_jump_example :
    ¬ Jumps (get_mod_cond twice) (u64 (u64 (200 + branch_imm twice) + branch_imm twice))
no_third_jump_example = no_third_jump twice 200 (omega arith) first_jump second_jump

-- `r1 += r0`, then a branch on `r1` that jumps to itself once.
abbrev small_program : Bytes
small_program =
    replicate 128 0
    ++ (0 ∷ 1 ∷ 0 ∷ 0 ∷ 5 ∷ 0 ∷ 0 ∷ 0 ∷ [])
    ++ (220 ∷ 1 ∷ 0 ∷ 0 ∷ 255 ∷ 255 ∷ 255 ∷ 255 ∷ [])

abbrev registers : Option (Outcome ℕ) → List ℕ
registers none = []
registers (some (finished m)) = m.r
registers (some out_of_bounds) = []
registers (some out_of_fuel) = []

small_run :
    registers (
      compile_program small_program 2 [] >>= λ result.
      some (execute_bytecode whole_numbers no_masks v1 (take 2 (result.0)) 19 idle_machine))
    ≡ 100 ∷ 18446744073709551558 ∷ replicate 6 100
unfolding compile_program execute_bytecode
small_run = refl

execute_vm-completes_example :
    Post
      (λ r. IsReady (r.0))
      (execute_vm whole_numbers (λ i e x. x) (λ n i. n + i) v1 branches [] 2048 idle_machine)
execute_vm-completes_example =
    execute_vm-completes whole_numbers (λ i e x. x) (λ n i. n + i) v1 branches [] 2048 idle_machine
      (All-replicate 2176 220 (omega arith)) (length-replicate {A = ℕ} 2176 220) idle-IsReady

get_small_positive_float_bits-fields_example :
    (get_small_positive_float_bits 18446744073709551615 / 2 ^ 52
      ≡ 1023 + 18446744073709551615 / 2 ^ 59)
    × ((get_small_positive_float_bits 18446744073709551615 % 2 ^ 52 ≡ 18446744073709551615 % 2 ^ 52)
        × (get_small_positive_float_bits 18446744073709551615 / 2 ^ 52 < 1055))
get_small_positive_float_bits-fields_example =
    get_small_positive_float_bits-fields 18446744073709551615 (omega arith)

randomx_reciprocal-exact_example :
    (randomx_reciprocal 3 ≡ some (2 ^ 63 * 2 ^ bit_length 64 3 / 3))
    × (2 ^ 63 * 2 ^ bit_length 64 3 / 3 < 2 ^ 64)
randomx_reciprocal-exact_example = randomx_reciprocal-exact 3 refl (omega arith)

reciprocal_of_13 : randomx_reciprocal 13 ≡ some 11351842506898185609
unfolding randomx_reciprocal
reciprocal_of_13 = refl
