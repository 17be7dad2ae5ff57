-- ===== src/RandomX/Linked.antt =====
-- The programs that `compile_program` (src/randomx/vm.rs) writes, by the fields of their
-- instructions alone.
use miner_tim.Common.{ℕ, ◌≡◌, some, get_elem?, length, List}
use miner_tim.RandomX.Instruction.{BytecodeInstruction, cbranch}
use miner_tim.RandomX.Operands.{IsSafe}
use miner_tim.RandomX.Targets.{IsLastWrite}

-- Every instruction is within bounds. The target of a branch is the last instruction before it that
-- writes its register, or -1, and a branch counts as writing them all.
unfoldable pub IsLinked : ℕ → List BytecodeInstruction → Type 0
unfolding IsSafe IsLastWrite
IsLinked size code =
    (length code ≡ size)
    × ((i : ℕ) (b : BytecodeInstruction)
        → get_elem? code i ≡ some b
        → IsSafe b × (b.itype ≡ cbranch → IsLastWrite code i b.dst b.target))
