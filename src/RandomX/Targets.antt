-- ===== src/RandomX/Targets.antt =====
-- The register usage and the targets of branches in `compile_program` (src/randomx/vm.rs).
use miner_tim.Common.{
  ℕ, suc, ◌<◌, ◌≤◌, ◌%◌, true, false, ◌==◌, Bool-cases, subst, ◌≡◌, refl, sym, ap, ◌∙◌, arith, inl,
  inr, some, get_or, get_elem?, length, List,
}
use miner_tim.Common.Int.{ℤ, pos, negsuc, succ}
use miner_tim.RandomX.Instruction.{BytecodeInstruction, RawInstruction, cbranch, get_mod_cond}
use miner_tim.RandomX.Compile.{RegisterUsage, Compiled, branch}
use miner_tim.RandomX.Safety.{writes}
use miner_tim.RandomX.LastWrite.{Tracks}
use miner_tim.RandomX.Turns.{IsBranchOf, Turned}

-- The place after an entry of the usage.
abbrev pub after : ℤ → ℕ
after (pos n) = suc n
after (negsuc n) = 0

pub some-injective : {x y : BytecodeInstruction} → some x ≡ some y → x ≡ y
some-injective e = cc

==→eq : (a b : ℕ) → (a == b) ≡ true → a ≡ b
==→eq a b h = ground arith

module _ (code : List BytecodeInstruction) where
  -- `last` is before `i`, and nothing between the two writes register `c`.
  unfoldable pub IsLastWrite : ℕ → ℕ → ℤ → Type 0
  unfolding writes
  IsLastWrite i c last =
      (succ last ≡ pos (after last))
      × ((after last ≤ i)
          × ((j : ℕ) (b : BytecodeInstruction)
              → after last ≤ j
              → j < i
              → get_elem? code j ≡ some b
              → writes b.itype b c ≡ false))

  -- A branch at `i` was written with the usage of its register before `i`.
  unfoldable pub HasTarget : ℕ → BytecodeInstruction → Type 0
  unfolding IsLastWrite
  HasTarget i b =
      b.itype ≡ cbranch
      → (instr : RawInstruction) × ((last : ℤ) × ((get_mod_cond instr < 16)
            × ((b ≡ branch instr last) × IsLastWrite i (instr.dst % 8) last)))

  -- The usage before instruction `i`.
  unfoldable pub IsUsage : ℕ → RegisterUsage → Type 0
  unfolding IsLastWrite
  IsUsage i usage =
      (length usage ≡ 8) × ((c : ℕ) → c < 8 → IsLastWrite i c (get_or usage c (negsuc 0)))

  marked-IsLastWrite : (i c : ℕ) → IsLastWrite (suc i) c (pos i)
  unfolding IsLastWrite
  marked-IsLastWrite i c = (refl, (omega arith, λ j b h l e. absurd (omega arith)))

  idle-IsLastWrite :
      (i c : ℕ) (last : ℤ) (b : BytecodeInstruction)
      → get_elem? code i ≡ some b
      → IsLastWrite i c last
      → writes b.itype b c ≡ false
      → IsLastWrite (suc i) c last
  unfolding IsLastWrite
  idle-IsLastWrite i c last b e (hs, (ha, hw)) idle = (
    hs,
    (
      omega arith,
      λ j x h l ex. elim (Bool-cases (j == i)) [
        | inl same ↦ by_last j x ex (==→eq j i same)
        | inr other ↦ hw j x h (ground arith) ex
      ],
    ),
  )
    where
      by_last :
          (j : ℕ) (x : BytecodeInstruction)
          → get_elem? code j ≡ some x
          → j ≡ i
          → writes x.itype x c ≡ false
      by_last j x ex same =
          let found : some b ≡ some x = sym e ∙ ap (get_elem? code) (sym same) ∙ ex in
          subst (λ y. writes y.itype y c ≡ false) (some-injective found) idle

  pub next-IsUsage :
      (i : ℕ) (usage : RegisterUsage) (made : Compiled)
      → get_elem? code i ≡ some (made.0)
      → IsUsage i usage
      → Turned i usage made
      → IsUsage (suc i) (made.1)
  unfolding IsUsage Turned Tracks
  next-IsUsage i usage made e (hl, hu) (safe, (hm, (target, tracks))) = (
    hm,
    λ c hc. elim (tracks c hc) [
      | inl marked ↦ subst (IsLastWrite (suc i) c) (sym marked) (marked-IsLastWrite i c)
      | inr (same, idle) ↦
          subst (IsLastWrite (suc i) c) (sym same)
            (idle-IsLastWrite i c (get_or usage c (negsuc 0)) (made.0) e (hu c hc) idle)
    ],
  )

  pub usage-HasTarget :
      (i : ℕ) (usage : RegisterUsage) (b : BytecodeInstruction)
      → IsUsage i usage
      → IsBranchOf usage b
      → HasTarget i b
  unfolding IsUsage HasTarget IsBranchOf
  usage-HasTarget i usage b (hl, hu) hb e =
      let (instr, (small, same)) = hb e in
      (
        instr,
        (
          get_or usage (instr.dst % 8) (negsuc 0),
          (small, (same, hu (instr.dst % 8) (omega arith))),
        ),
      )
