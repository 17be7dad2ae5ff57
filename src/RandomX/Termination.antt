-- ===== src/RandomX/Termination.antt =====
-- `execute_bytecode` (src/randomx/vm.rs) ends on every program `compile_program` makes.
use miner_tim.Common.{
  ℕ, zero, suc, ◌+◌, ◌*◌, ◌^◌, ◌≤◌, ◌≡◌, sym, ap, ◌∙◌, subst, arith, inl, inr, some, get_elem?,
  length, take, All, Bytes, List,
}
use miner_tim.Common.Int.{pos}
use miner_tim.RandomX.Instruction.{
  BytecodeInstruction, RxVersion, v1, v2, program_size, program_bytes_size,
}
use miner_tim.RandomX.Compile.{compile_program}
use miner_tim.RandomX.Machine.{FloatUnit, Machine, ProgramConfiguration}
use miner_tim.RandomX.Execute.{execute_loop, execute_bytecode}
use miner_tim.RandomX.Safety.{Post, Post-map, IsReady}
use miner_tim.RandomX.Arms.{Keeps}
use miner_tim.RandomX.Operands.{IsSafe}
use miner_tim.RandomX.Targets.{HasTarget}
use miner_tim.RandomX.Program.{IsCompiled, IsByte, compile_program-IsCompiled}
use miner_tim.RandomX.Visits.{Ends, next_pc-cases, plain-Post}
use miner_tim.RandomX.Runs.{get_elem?-found, EndsBy, EndsBy-weaken, EndsBy-past, EndsBy-turn}
use miner_tim.RandomX.Revisits.{branch-EndsBy}

module _ (U : FloatUnit) (config : ProgramConfiguration) (version : RxVersion)
    (code : List BytecodeInstruction) where
  -- From `d` instructions before the end.
  remaining-EndsBy :
      (d i : ℕ) (m : Machine (U.F64))
      → length code ≤ 2 ^ 15
      → ((n : ℕ) (b : BytecodeInstruction)
          → get_elem? code n ≡ some b
          → IsSafe b × HasTarget code n b)
      → i + d ≡ length code
      → IsReady m
      → EndsBy U config version code (d * (3 * length code + 3) + 1) (pos i) m
  unfolding HasTarget Keeps
  remaining-EndsBy zero i m small good e ready =
      EndsBy-weaken U config version code 1 (0 * (3 * length code + 3) + 1) (pos i) m
        (EndsBy-past U config version code i m (omega arith) ready) (omega arith)
  remaining-EndsBy (suc d) i m small good e ready =
      let W = 3 * length code + 3 in
      let (b, found) = get_elem?-found code i (omega arith) in
      let (safe, target) = good i b found in
      let next : (m' : Machine (U.F64))
          → IsReady m'
          → EndsBy U config version code (d * W + 1) (pos (suc i)) m' =
        λ m' ready'. remaining-EndsBy d (suc i) m' small good (omega arith) ready' in
      EndsBy-weaken U config version code (W + (d * W + 1)) (suc d * W + 1) (pos i) m
        (elim (next_pc-cases U config version b.itype) [
          | inl t ↦
              let (instr, (last, (cond, (same, hw)))) = target t in
              branch-EndsBy U config version code i (d * W + 1) instr last cond
                (found ∙ ap (λ x. some x) same) hw (omega arith) small (λ n x h. (good n x h).0)
                next m ready
          | inr passes ↦
              EndsBy-weaken U config version code (suc (d * W + 1)) (W + (d * W + 1)) (pos i) m
                (EndsBy-turn U config version code (d * W + 1) i b m _ found
                  (plain-Post U config version b i m ready safe (passes b))
                  (λ r hr.
                    subst (λ pc. EndsBy U config version code (d * W + 1) pc (r.0)) (sym (hr.1))
                      (next (r.0) (hr.0.0))))
                (omega arith)
        ])
        (omega (arith, one_more d W))
    where
      one_more : (n w : ℕ) → suc n * w ≡ w + n * w
      one_more n w = omega arith

program_size-small : (version : RxVersion) → program_size version ≤ 2 ^ 15
program_size-small v1 = omega arith
program_size-small v2 = omega arith

-- What the compiler writes runs to its end.
pub compiled-Ends :
    (U : FloatUnit) (config : ProgramConfiguration) (version : RxVersion)
    (code : List BytecodeInstruction) (m : Machine (U.F64)) (fuel : ℕ)
    → IsCompiled (program_size version) code
    → IsReady m
    → program_size version * (3 * program_size version + 3) + 1 ≤ fuel
    → Ends (execute_bytecode U config version code fuel m)
unfolding IsCompiled execute_bytecode EndsBy
compiled-Ends U config version code m fuel (len, good) ready enough =
    subst
      (λ l.
        (f : ℕ) → l * (3 * l + 3) + 1 ≤ f → Ends (execute_loop U config version code f (pos 0) m))
      len
      (remaining-EndsBy U config version code (length code) 0 m
        (omega (arith, program_size-small version)) good (omega arith) ready)
      fuel enough

-- For every program of the right length, of either version, the compiler succeeds, and running
-- what it wrote on any machine with whole registers and a whole scratchpad finishes with such a
-- machine: no access leaves the registers or the scratchpad, and `n * (3 * n + 3) + 1` turns are
-- enough for `n` instructions, whatever the registers and the floating-point unit hold.
pub execute_bytecode-Ends :
    (U : FloatUnit) (config : ProgramConfiguration) (version : RxVersion) (program_bytes : Bytes)
    (buffer : List BytecodeInstruction) (m : Machine (U.F64)) (fuel : ℕ)
    → All IsByte program_bytes
    → length program_bytes ≡ program_bytes_size version
    → IsReady m
    → program_size version * (3 * program_size version + 3) + 1 ≤ fuel
    → Post
        (λ result.
          Ends (execute_bytecode U config version (take (program_size version) (result.0)) fuel m))
        (compile_program program_bytes (program_size version) buffer)
execute_bytecode-Ends U config version program_bytes buffer m fuel h size ready enough =
    let n = program_size version in
    Post-map _ _ (compile_program program_bytes n buffer)
      (compile_program-IsCompiled program_bytes n buffer h (omega arith))
      (λ result compiled.
        compiled-Ends U config version (take n (result.0)) m fuel compiled ready enough)
