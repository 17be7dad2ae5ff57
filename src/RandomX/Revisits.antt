-- ===== src/RandomX/Revisits.antt =====
-- A branch of `execute_bytecode` (src/randomx/vm.rs) is visited three times at most in a row.
use miner_tim.Common.{
  ℕ, zero, suc, ◌+◌, ◌-◌, ◌*◌, ◌^◌, ◌%◌, ◌<◌, ◌≤◌, true, false, ◌≡◌, refl, sym, ap, ◌∙◌, subst,
  arith, inl, inr, some, get_or, get_elem?, length, List, u64,
}
use miner_tim.Common.Int.{ℤ, pos, succ, as_i16}
use miner_tim.RandomX.Instruction.{BytecodeInstruction, RawInstruction, RxVersion, get_mod_cond}
use miner_tim.RandomX.Compile.{branch, branch_imm}
use miner_tim.RandomX.Condition.{Jumps, no_third_jump}
use miner_tim.RandomX.Machine.{FloatUnit, Machine, ProgramConfiguration}
use miner_tim.RandomX.Safety.{IsReady, writes}
use miner_tim.RandomX.Arms.{Keeps}
use miner_tim.RandomX.Operands.{IsSafe}
use miner_tim.RandomX.Targets.{after, IsLastWrite}
use miner_tim.RandomX.Visits.{Visited, next_pc-cases, plain-Post, branch-Post}
use miner_tim.RandomX.Runs.{get_elem?-found, as_i16-small, EndsBy, EndsBy-weaken, EndsBy-turn}

module _ (U : FloatUnit) (config : ProgramConfiguration) (version : RxVersion)
    (code : List BytecodeInstruction) where
  -- An instruction that does not write `c` goes to the next one and leaves `c`.
  idle-EndsBy :
      (k n c : ℕ) (b : BytecodeInstruction) (m : Machine (U.F64))
      → get_elem? code n ≡ some b
      → IsSafe b
      → IsReady m
      → writes b.itype b c ≡ false
      → ((after : Machine (U.F64))
          → IsReady after
          → get_or after.r c 0 ≡ get_or m.r c 0
          → EndsBy U config version code k (pos (suc n)) after)
      → EndsBy U config version code (suc k) (pos n) m
  unfolding Keeps writes
  idle-EndsBy k n c b m found safe ready idle go = elim (next_pc-cases U config version b.itype) [
    | inl e ↦ absurd (contradiction (sym (ap (λ t. writes t b c) e) ∙ idle))
    | inr passes ↦
        EndsBy-turn U config version code k n b m _ found
          (plain-Post U config version b n m ready safe (passes b))
          (λ r hr.
            subst (λ pc. EndsBy U config version code k pc (r.0)) (sym (hr.1))
              (go (r.0) (hr.0.0) (hr.0.1 c idle)))
  ]
    where
      contradiction : ¬ (true ≡ false)
      contradiction e = cc

  module _ (i c : ℕ)
      (safe : (n : ℕ) (b : BytecodeInstruction) → get_elem? code n ≡ some b → IsSafe b) where
    -- From a place after which nothing up to `i` writes `c`, the loop comes to `i` with `c` as it
    -- was.
    straight :
        (k d q : ℕ) (last : ℤ) (m : Machine (U.F64))
        → IsLastWrite code i c last
        → i < length code
        → q + d ≡ i
        → after last ≤ q
        → IsReady m
        → ((m' : Machine (U.F64))
            → IsReady m'
            → get_or m'.r c 0 ≡ get_or m.r c 0
            → EndsBy U config version code k (pos i) m')
        → EndsBy U config version code (d + k) (pos q) m
    unfolding IsLastWrite
    straight k zero q last m hw hi e hq ready go =
        subst (λ n. EndsBy U config version code (0 + k) (pos n) m) (sym (q_is e))
          (EndsBy-weaken U config version code k (0 + k) (pos i) m (go m ready refl) (omega arith))
      where
        q_is : q + 0 ≡ i → q ≡ i
        q_is h = omega arith
    straight k (suc d) q last m hw hi e hq ready go =
        let (b, found) = get_elem?-found code q (omega arith) in
        EndsBy-weaken U config version code (suc (d + k)) (suc d + k) (pos q) m
          (idle-EndsBy (d + k) q c b m found (safe q b found) ready
            (hw.1.1 q b hq (omega arith) found)
            (λ m' r' same.
              straight k d (suc q) last m' hw hi (omega arith) (omega arith) r'
                (λ m'' r'' same'. go m'' r'' (same' ∙ same))))
          (omega arith)

  module _ (i K : ℕ) (instr : RawInstruction) (last : ℤ) (cond : get_mod_cond instr < 16)
      (found : get_elem? code i ≡ some (branch instr last))
      (hw : IsLastWrite code i (instr.dst % 8) last) (hi : i < length code)
      (small : length code ≤ 2 ^ 15)
      (safe : (n : ℕ) (b : BytecodeInstruction) → get_elem? code n ≡ some b → IsSafe b)
      (next : (m : Machine (U.F64))
        → IsReady m
        → EndsBy U config version code K (pos (suc i)) m) where
    -- The loop comes back from the target with the branch's register as it was.
    back :
        (k : ℕ) (m : Machine (U.F64))
        → IsReady m
        → ((m' : Machine (U.F64))
            → IsReady m'
            → get_or m'.r (instr.dst % 8) 0 ≡ get_or m.r (instr.dst % 8) 0
            → EndsBy U config version code k (pos i) m')
        → EndsBy U config version code (length code + k) (succ (as_i16 last)) m
    unfolding IsLastWrite
    back k m ready again =
        let target : succ (as_i16 last) ≡ pos (after last) =
          ap succ (as_i16-small last (hw.0) (omega (arith, hw.1.0))) ∙ hw.0 in
        subst (λ pc. EndsBy U config version code (length code + k) pc m) (sym target)
          (EndsBy-weaken U config version code (i - after last + k) (length code + k)
            (pos (after last)) m
            (straight i (instr.dst % 8) safe k (i - after last) (after last) last m hw hi
              (omega (arith, hw.1.0)) (omega arith) ready again)
            (omega arith))

    -- A visit that goes on ends, and one that jumps ends if the next visit does.
    visit :
        (k x : ℕ) (m : Machine (U.F64))
        → IsReady m
        → K ≤ length code + k
        → get_or m.r (instr.dst % 8) 0 ≡ x
        → ((m' : Machine (U.F64))
            → IsReady m'
            → get_or m'.r (instr.dst % 8) 0 ≡ u64 (x + branch_imm instr)
            → Jumps (get_mod_cond instr) (u64 (x + branch_imm instr))
            → EndsBy U config version code k (pos i) m')
        → EndsBy U config version code (suc (length code + k)) (pos i) m
    unfolding Visited
    visit k x m ready enough here again =
        EndsBy-turn U config version code (length code + k) i (branch instr last) m _ found
          (branch-Post U config version instr last i m ready)
          (λ r (ready', (value, out)).
            let value' = value ∙ ap (λ y. u64 (y + branch_imm instr)) here in
            elim out [
              | inl e ↦
                  subst (λ pc. EndsBy U config version code (length code + k) pc (r.0)) (sym e)
                    (EndsBy-weaken U config version code K (length code + k) (pos (suc i)) (r.0)
                      (next (r.0) ready') enough)
              | inr (jumped, e) ↦
                  subst (λ pc. EndsBy U config version code (length code + k) pc (r.0)) (sym e)
                    (back k (r.0) ready' (λ m' r'' same.
                      again m' r'' (same ∙ value')
                        (subst (Jumps (get_mod_cond instr)) value' jumped)))
            ])

    -- A branch is left after three visits.
    pub branch-EndsBy :
        (m : Machine (U.F64))
        → IsReady m
        → EndsBy U config version code (3 * length code + 3 + K) (pos i) m
    branch-EndsBy m ready =
        let start = get_or m.r (instr.dst % 8) 0 in
        let L = length code in
        EndsBy-weaken U config version code (suc (L + suc (L + suc (L + K)))) (3 * L + 3 + K)
          (pos i) m
          (visit (suc (L + suc (L + K))) start m ready (omega arith) refl (λ m' ready' here' first.
            visit (suc (L + K)) (u64 (start + branch_imm instr)) m' ready' (omega arith) here'
              (λ m'' ready'' here'' second.
                visit K (u64 (u64 (start + branch_imm instr) + branch_imm instr)) m'' ready''
                  (omega arith) here''
                  (λ m''' r''' h''' third. absurd (
                    no_third_jump instr (u64 (start + branch_imm instr)) cond first second
                      third)))))
          (omega arith)
