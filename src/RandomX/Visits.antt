-- ===== src/RandomX/Visits.antt =====
-- One turn of the loop of `execute_bytecode` (src/randomx/vm.rs) on a safe instruction.
use miner_tim.Common.{
  ℕ, zero, suc, ◌+◌, ◌%◌, ◌<◌, bit_and, Bool, true, false, lt→ltb, ◌==◌, if◌then◌else◌, ◌≡◌, refl,
  ◌∙◌, arith, inl, inr, ◌⊎◌, some, get_or, get_elem?, set, length, length-set, get_or-set_self,
  List, [], ◌∷◌, u64,
}
use miner_tim.Common.Int.{ℤ, pos, succ, as_i16}
use miner_tim.RandomX.Instruction.{
  InstructionType, BytecodeInstruction, RawInstruction, RxVersion, cbranch, get_mod_cond,
}
use miner_tim.RandomX.Compile.{branch, branch_imm}
use miner_tim.RandomX.Condition.{Jumps}
use miner_tim.RandomX.Machine.{FloatUnit, Machine, ProgramConfiguration, wrapping_add}
use miner_tim.RandomX.Execute.{
  Outcome, finished, out_of_bounds, out_of_fuel, update, arm, jumps, next_pc, execute_instruction,
}
use miner_tim.RandomX.Safety.{Post, IsReady, bind-Post}
use miner_tim.RandomX.Arms.{Keeps}
use miner_tim.RandomX.Steps.{arm-Post}
use miner_tim.RandomX.Operands.{IsSafe}

-- A loop that finished, with a machine that is ready.
unfoldable pub Ends : {F : Type 0} → Outcome F → Type 0
unfolding IsReady
Ends (finished m) = IsReady m
Ends out_of_bounds = ⊥
Ends out_of_fuel = ⊥

get_elem?-get_or :
    {A : Type 0} (xs : List A) (i : ℕ) (d : A)
    → i < length xs
    → get_elem? xs i ≡ some (get_or xs i d)
get_elem?-get_or [] i d h = absurd (omega arith)
get_elem?-get_or (x ∷ xs) zero d h = refl
get_elem?-get_or (x ∷ xs) (suc i) d h = get_elem?-get_or xs i d (omega arith)

module _ (U : FloatUnit) (config : ProgramConfiguration) (version : RxVersion) where
  -- Only a branch changes `pc`.
  pub next_pc-cases :
      (t : InstructionType)
      → (t ≡ cbranch)
        ⊎ ((b : BytecodeInstruction) (pc : ℤ) (m : Machine (U.F64))
            → next_pc U config version t b pc m ≡ some pc)
  unfolding next_pc
  next_pc-cases cbranch = inl refl
  next_pc-cases t = inr (λ b pc m. refl)

  pub plain-Post :
      (b : BytecodeInstruction) (n : ℕ) (m : Machine (U.F64))
      → IsReady m
      → IsSafe b
      → ((pc : ℤ) (after : Machine (U.F64)) → next_pc U config version b.itype b pc after ≡ some pc)
      → Post
          (λ r. Keeps b b.itype m (r.0) × (r.1 ≡ pos (suc n)))
          (execute_instruction U config version b (pos n) m)
  unfolding execute_instruction IsSafe
  plain-Post b n m ready safe passes =
      bind-Post (Keeps b b.itype m) _ (arm U config version b.itype b m) _
        (arm-Post U config version b.itype b m ready safe)
        (λ after hk. rw (passes (pos n) after) (hk, refl))

  update-value :
      (b : BytecodeInstruction) (op : ℕ → ℕ → ℕ) (x : ℕ) (m : Machine (U.F64))
      → IsReady m
      → b.dst < 8
      → update b op x m ≡ some (record m { r = set m.r b.dst (op (get_or m.r b.dst 0) x) })
  unfolding update IsReady
  update-value b op x m ready hd =
      rw (get_elem?-get_or m.r b.dst 0 (omega arith))
        (rw (lt→ltb b.dst (length m.r) (omega arith)) refl)

  -- A visit of a branch: its constant is added, and it goes on or jumps.
  unfoldable pub Visited : RawInstruction → ℤ → ℕ → Machine (U.F64) → Machine (U.F64) × ℤ → Type 0
  unfolding IsReady
  Visited instr last n m r =
      IsReady (r.0)
      × ((get_or ((r.0).r) (instr.dst % 8) 0
            ≡ u64 (get_or m.r (instr.dst % 8) 0 + branch_imm instr))
          × ((r.1 ≡ pos (suc n))
              ⊎ (Jumps (get_mod_cond instr) (get_or ((r.0).r) (instr.dst % 8) 0)
                  × (r.1 ≡ succ (as_i16 last)))))

  jumps-value :
      (b : BytecodeInstruction) (m : Machine (U.F64))
      → b.dst < length m.r
      → jumps U config version b m ≡ some (bit_and (get_or m.r b.dst 0) b.mem_mask == 0)
  unfolding jumps
  jumps-value b m h = rw (get_elem?-get_or m.r b.dst 0 h) refl

  branch-next :
      (instr : RawInstruction) (last : ℤ) (n : ℕ) (m after : Machine (U.F64)) (taken : Bool)
      → IsReady after
      → get_or after.r (instr.dst % 8) 0 ≡ u64 (get_or m.r (instr.dst % 8) 0 + branch_imm instr)
      → (bit_and (get_or after.r (instr.dst % 8) 0) ((branch instr last).mem_mask) == 0) ≡ taken
      → Visited instr last n m (after, succ (if taken then (branch instr last).target else pos n))
  unfolding Visited branch
  branch-next instr last n m after false ready value test = (ready, (value, inl refl))
  branch-next instr last n m after true ready value test =
      (ready, (value, inr (ground arith, refl)))

  pub branch-Post :
      (instr : RawInstruction) (last : ℤ) (n : ℕ) (m : Machine (U.F64))
      → IsReady m
      → Post
          (Visited instr last n m)
          (execute_instruction U config version (branch instr last) (pos n) m)
  unfolding execute_instruction arm next_pc jumps branch Visited IsReady
  branch-Post instr last n m ready =
      rw (update-value (branch instr last) wrapping_add (branch_imm instr) m ready (omega arith)) (
        rw (jumps-value (branch instr last) (record m { r = written }) (omega (arith, len))) (
          branch-next instr last n m (record m { r = written }) _ (len ∙ ready.0, ready.1)
            (get_or-set_self m.r (instr.dst % 8) _ 0 (omega arith)) refl))
    where
      written : List ℕ
      written =
          set m.r (instr.dst % 8) (wrapping_add (get_or m.r (instr.dst % 8) 0) (branch_imm instr))

      len : length written ≡ length m.r
      len = length-set m.r (instr.dst % 8) _
