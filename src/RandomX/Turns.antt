-- ===== src/RandomX/Turns.antt =====
-- One turn of the loop of `compile_program` (src/randomx/vm.rs).
use miner_tim.Common.{
  ℕ, zero, suc, ◌%◌, ◌<◌, Bool, true, false, ltb, ◌==◌, if◌then◌else◌, ◌≡◌, refl, sym, ap, ◌∙◌,
  arith, inl, inr, ◌⊎◌, Bool-cases, get_or, set, length, length-set, length-replicate,
}
use miner_tim.Common.Int.{pos, negsuc}
use miner_tim.RandomX.Instruction.{
  InstructionType, BytecodeInstruction, RawInstruction, Opcode, plain, imul_rcp, imul_r, iswap_r,
  fswap_r, fadd_r, fadd_m, fsub_r, fsub_m, fscal_r, fmul_r, fdiv_m, fsqrt_r, cbranch, cfround,
  istore, nop, new, get_mod_cond, is_zero_or_power_of_2,
}
use miner_tim.RandomX.Reciprocal.{randomx_reciprocal}
use miner_tim.RandomX.Compile.{
  RegisterUsage, Compiled, memory_operand, register_operand, float_registers, float_memory, store,
  branch, encode, mark, compile_instruction,
}
use miner_tim.RandomX.Safety.{Post, writes, Within, bind-Post}
use miner_tim.RandomX.Operands.{IsSafe, encode-IsSafe}
use miner_tim.RandomX.LastWrite.{Tracks, mark-Tracks, set-Tracks}

if-itype :
    (t : InstructionType) (test : Bool) (x y : BytecodeInstruction)
    → (x.itype ≡ t) ⊎ (x.itype ≡ nop)
    → (y.itype ≡ t) ⊎ (y.itype ≡ nop)
    → ((if test then x else y).itype ≡ t) ⊎ ((if test then x else y).itype ≡ nop)
if-itype t true x y hx hy = hx
if-itype t false x y hx hy = hy

-- An instruction has the type its opcode names, or does nothing.
encode-itype :
    (t : InstructionType) (instr : RawInstruction) (usage : RegisterUsage)
    → ((encode t instr usage).itype ≡ t) ⊎ ((encode t instr usage).itype ≡ nop)
unfolding encode memory_operand register_operand float_registers float_memory store branch
encode-itype iswap_r instr usage =
    if-itype iswap_r (instr.src % 8 == instr.dst % 8) _ _ (inr refl) (inl refl)
encode-itype fswap_r instr usage =
    if-itype fswap_r (ltb (instr.dst % 8) 4) _ _ (inl refl) (inl refl)
encode-itype t instr usage = ground arith

if-length :
    (test : Bool) (x y : RegisterUsage)
    → length x ≡ 8
    → length y ≡ 8
    → length (if test then x else y) ≡ 8
if-length true x y hx hy = hx
if-length false x y hx hy = hy

length-mark :
    (t : InstructionType) (instr : RawInstruction) (i : ℕ) (usage : RegisterUsage)
    → length usage ≡ 8
    → length (mark t instr i usage) ≡ 8
unfolding mark
length-mark iswap_r instr i usage h =
    if-length (instr.src % 8 == instr.dst % 8) usage
      (set (set usage (instr.dst % 8) (pos i)) (instr.src % 8) (pos i)) h
      (length-set (set usage (instr.dst % 8) (pos i)) (instr.src % 8) (pos i)
        ∙ length-set usage (instr.dst % 8) (pos i)
        ∙ h)
length-mark fswap_r instr i usage h = h
length-mark fadd_r instr i usage h = h
length-mark fadd_m instr i usage h = h
length-mark fsub_r instr i usage h = h
length-mark fsub_m instr i usage h = h
length-mark fscal_r instr i usage h = h
length-mark fmul_r instr i usage h = h
length-mark fdiv_m instr i usage h = h
length-mark fsqrt_r instr i usage h = h
length-mark cbranch instr i usage h = length-replicate 8 (pos i)
length-mark cfround instr i usage h = h
length-mark istore instr i usage h = h
length-mark nop instr i usage h = h
length-mark t instr i usage h = length-set usage (instr.dst % 8) (pos i) ∙ h

-- A branch is written by the branch's arm, with the usage it found.
unfoldable pub IsBranchOf : RegisterUsage → BytecodeInstruction → Type 0
IsBranchOf usage b =
    b.itype ≡ cbranch
    → (instr : RawInstruction) × ((get_mod_cond instr < 16)
        × (b ≡ branch instr (get_or usage (instr.dst % 8) (negsuc 0))))

nop-apart : ¬ (nop ≡ cbranch)
nop-apart e = cc

imul-apart : ¬ (imul_r ≡ cbranch)
imul-apart e = cc

encode-IsBranchOf :
    (t : InstructionType) (instr : RawInstruction) (usage : RegisterUsage)
    → get_mod_cond instr < 16
    → IsBranchOf usage (encode t instr usage)
unfolding IsBranchOf encode
encode-IsBranchOf t instr usage h e = (
  instr,
  (
    h,
    elim (encode-itype t instr usage) [
      | inl same ↦ ap (λ x. encode x instr usage) (sym same ∙ e)
      | inr idle ↦ absurd (nop-apart (sym idle ∙ e))
    ],
  ),
)

suc-nonzero : (n : ℕ) → (suc n == 0) ≡ false
suc-nonzero n = ground arith

-- A divisor that is neither zero nor a power of two has a reciprocal.
reciprocal-Post :
    (n : ℕ) → is_zero_or_power_of_2 n ≡ false → Post (λ r. Unit {0}) (randomx_reciprocal n)
unfolding randomx_reciprocal
reciprocal-Post zero h = absurd (ground arith)
reciprocal-Post (suc n) h = rw (suc-nonzero n) tt

-- What a turn leaves: a safe instruction, and the usage that goes with it.
unfoldable pub Turned : ℕ → RegisterUsage → Compiled → Type 0
unfolding IsSafe Tracks IsBranchOf
Turned i usage made =
    IsSafe (made.0)
    × ((length (made.1) ≡ 8)
        × (IsBranchOf usage (made.0) × ((c : ℕ) → c < 8 → Tracks i usage c (made.0) (made.1))))

pub compile_instruction-Turned :
    (op : Opcode) (instr : RawInstruction) (i : ℕ) (usage : RegisterUsage)
    → length usage ≡ 8
    → get_mod_cond instr < 16
    → Post (Turned i usage) (compile_instruction op instr i usage)
unfolding compile_instruction Turned IsSafe Within IsBranchOf Tracks writes
compile_instruction-Turned (plain t) instr i usage hl hc = (
  encode-IsSafe t instr usage,
  (
    length-mark t instr i usage hl,
    (encode-IsBranchOf t instr usage hc, λ c h. mark-Tracks t instr i usage c hl h),
  ),
)
compile_instruction-Turned imul_rcp instr i usage hl hc =
    elim (Bool-cases (is_zero_or_power_of_2 instr.imm32)) [
      | inl e ↦ rw (e) (tt, (hl, ((λ b. absurd (nop-apart b)), λ c h. inr (refl, refl))))
      | inr e ↦ rw (e) (
          bind-Post (λ r. Unit {0}) _ (randomx_reciprocal instr.imm32) _
            (reciprocal-Post instr.imm32 e)
            (λ r u. (
              omega arith,
              (
                length-set usage (instr.dst % 8) (pos i) ∙ hl,
                (
                  (λ b. absurd (imul-apart b)),
                  λ c h.
                      set-Tracks i usage c (instr.dst % 8)
                        (record (new imul_r) { dst = instr.dst % 8; src = 8; imm = r }) hl
                        (omega arith) refl,
                ),
              ),
            )))
    ]
