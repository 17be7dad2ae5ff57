-- ===== src/RandomX/LastWrite.antt =====
-- `register_usage` of `compile_program` (src/randomx/vm.rs) holds the last writer of each register.
use miner_tim.Common.{
  ℕ, zero, suc, ◌%◌, ◌<◌, Bool, true, false, ltb, ◌==◌, ◌||◌, if◌then◌else◌, ◌≡◌, refl, ap, ◌∙◌,
  arith, inl, inr, ◌⊎◌, Bool-cases, get_or, set, length, length-set, replicate, get_or-set_self,
  get_or-set_ne,
}
use miner_tim.Common.Int.{ℤ, pos, negsuc}
use miner_tim.RandomX.Instruction.{
  InstructionType, BytecodeInstruction, RawInstruction, iadd_rs, iadd_m, isub_r, isub_m, imul_r,
  imul_m, imulh_r, imulh_m, ismulh_r, ismulh_m, ineg_r, ixor_r, ixor_m, iror_r, irol_r, iswap_r,
  fswap_r, fadd_r, fadd_m, fsub_r, fsub_m, fscal_r, fmul_r, fdiv_m, fsqrt_r, cbranch, cfround,
  istore, nop, new,
}
use miner_tim.RandomX.Compile.{
  RegisterUsage, memory_operand, register_operand, float_registers, float_memory, store, encode,
  mark,
}
use miner_tim.RandomX.Safety.{writes}

-- Register `c` is marked, or it is neither marked nor written.
unfoldable pub Tracks : ℕ → RegisterUsage → ℕ → BytecodeInstruction → RegisterUsage → Type 0
unfolding writes
Tracks i usage c b marked =
    (get_or marked c (negsuc 0) ≡ pos i)
    ⊎ ((get_or marked c (negsuc 0) ≡ get_or usage c (negsuc 0)) × (writes b.itype b c ≡ false))

-- An instruction that writes its `dst` at most, which is marked.
pub set-Tracks :
    (i : ℕ) (usage : RegisterUsage) (c d : ℕ) (b : BytecodeInstruction)
    → length usage ≡ 8
    → d < 8
    → writes b.itype b c ≡ (c == d)
    → Tracks i usage c b (set usage d (pos i))
unfolding Tracks
set-Tracks i usage c d b hl hd k = elim (Bool-cases (c == d)) [
  | inl e ↦
      let same : c ≡ d = ground arith in
      inl (
        ap (λ x. get_or (set usage d (pos i)) x (negsuc 0)) same
        ∙ get_or-set_self usage d (pos i) (negsuc 0) (omega arith))
  | inr e ↦ inr (get_or-set_ne usage d c (pos i) (negsuc 0) (λ eq. ground arith), k ∙ e)
]

-- Whether an instruction writes register `c` is `v`.
Touches : ℕ → Bool → BytecodeInstruction → Type 0
unfolding writes
Touches c v b = writes b.itype b c ≡ v

if-Touches :
    (c : ℕ) (v : Bool) (test : Bool) (x y : BytecodeInstruction)
    → Touches c v x
    → Touches c v y
    → Touches c v (if test then x else y)
if-Touches c v true x y hx hy = hx
if-Touches c v false x y hx hy = hy

module _ (t : InstructionType) (instr : RawInstruction) (c : ℕ)
    (k : (b : BytecodeInstruction) → writes t b c ≡ (c == b.dst)) where
  memory_operand-writes : Touches c (c == instr.dst % 8) (memory_operand t instr)
  unfolding Touches memory_operand
  memory_operand-writes =
      if-Touches c (c == instr.dst % 8) (instr.src % 8 == instr.dst % 8) _ _ (k _) (k _)

  register_operand-writes :
      (imm : ℕ) → Touches c (c == instr.dst % 8) (register_operand t imm instr)
  unfolding Touches register_operand
  register_operand-writes imm =
      if-Touches c (c == instr.dst % 8) (instr.src % 8 == instr.dst % 8) _ _ (k _) (k _)

pub get_or-replicate : (n c : ℕ) (x d : ℤ) → c < n → get_or (replicate n x) c d ≡ x
get_or-replicate zero c x d h = absurd (omega arith)
get_or-replicate (suc n) zero x d h = refl
get_or-replicate (suc n) (suc c) x d h = get_or-replicate n c x d (omega arith)

ineg-writes :
    (c : ℕ) (b : BytecodeInstruction) → writes ineg_r (record b { itype = ineg_r }) c ≡ (c == b.dst)
unfolding writes
ineg-writes c b = refl

neither : (x y : Bool) → x ≡ false → y ≡ false → (x || y) ≡ false
neither x y hx hy = ground arith

-- Marking two registers.
two-Tracks :
    (i : ℕ) (usage : RegisterUsage) (c : ℕ) (b : BytecodeInstruction)
    → length usage ≡ 8
    → b.dst < 8
    → b.src < 8
    → writes b.itype b c ≡ (c == b.dst || c == b.src)
    → Tracks i usage c b (set (set usage b.dst (pos i)) b.src (pos i))
unfolding Tracks writes
two-Tracks i usage c b hl hd hs k = elim (Bool-cases (c == b.src)) [
  | inl e ↦
      let same : c ≡ b.src = ground arith in
      inl (
        ap (λ x. get_or (set (set usage b.dst (pos i)) b.src (pos i)) x (negsuc 0)) same
        ∙ get_or-set_self (set usage b.dst (pos i)) b.src (pos i) (negsuc 0)
            (omega (arith, length-set usage b.dst (pos i))))
  | inr e ↦
      let other =
        get_or-set_ne (set usage b.dst (pos i)) b.src c (pos i) (negsuc 0) (λ eq. ground arith) in
      elim (set-Tracks i usage c b.dst (record b { itype = ineg_r }) hl hd (ineg-writes c b)) [
        | inl marked ↦ inl (other ∙ marked)
        | inr (same, idle) ↦ inr (other ∙ same, k ∙ neither (c == b.dst) (c == b.src) idle e)
      ]
]

if-Tracks :
    (i : ℕ) (usage : RegisterUsage) (c : ℕ) (test : Bool) (x y : BytecodeInstruction)
    (mx my : RegisterUsage)
    → Tracks i usage c x mx
    → Tracks i usage c y my
    → Tracks i usage c (if test then x else y) (if test then mx else my)
if-Tracks i usage c true x y mx my hx hy = hx
if-Tracks i usage c false x y mx my hx hy = hy

swap-Tracks :
    (instr : RawInstruction) (i : ℕ) (usage : RegisterUsage) (c : ℕ)
    → length usage ≡ 8
    → c < 8
    → Tracks i usage c (encode iswap_r instr usage) (mark iswap_r instr i usage)
unfolding Tracks writes encode mark
swap-Tracks instr i usage c hl hc =
    let swapping = record (new iswap_r) { dst = instr.dst % 8; src = instr.src % 8 } in
    if-Tracks i usage c (instr.src % 8 == instr.dst % 8) (new nop) swapping usage
      (set (set usage (instr.dst % 8) (pos i)) (instr.src % 8) (pos i)) (inr (refl, refl))
      (two-Tracks i usage c swapping hl (omega arith) (omega arith) refl)

-- One turn of the loop marks what the instruction it writes will write.
pub mark-Tracks :
    (t : InstructionType) (instr : RawInstruction) (i : ℕ) (usage : RegisterUsage) (c : ℕ)
    → length usage ≡ 8
    → c < 8
    → Tracks i usage c (encode t instr usage) (mark t instr i usage)
unfolding Tracks writes Touches encode mark float_registers float_memory store
mark-Tracks iadd_rs instr i usage c hl hc =
    set-Tracks i usage c (instr.dst % 8) (encode iadd_rs instr usage) hl (omega arith) refl
mark-Tracks iadd_m instr i usage c hl hc =
    set-Tracks i usage c (instr.dst % 8) (encode iadd_m instr usage) hl (omega arith)
      (memory_operand-writes iadd_m instr c (λ b. refl))
mark-Tracks isub_r instr i usage c hl hc =
    set-Tracks i usage c (instr.dst % 8) (encode isub_r instr usage) hl (omega arith)
      (register_operand-writes isub_r instr c (λ b. refl) _)
mark-Tracks isub_m instr i usage c hl hc =
    set-Tracks i usage c (instr.dst % 8) (encode isub_m instr usage) hl (omega arith)
      (memory_operand-writes isub_m instr c (λ b. refl))
mark-Tracks imul_r instr i usage c hl hc =
    set-Tracks i usage c (instr.dst % 8) (encode imul_r instr usage) hl (omega arith)
      (register_operand-writes imul_r instr c (λ b. refl) _)
mark-Tracks imul_m instr i usage c hl hc =
    set-Tracks i usage c (instr.dst % 8) (encode imul_m instr usage) hl (omega arith)
      (memory_operand-writes imul_m instr c (λ b. refl))
mark-Tracks imulh_r instr i usage c hl hc =
    set-Tracks i usage c (instr.dst % 8) (encode imulh_r instr usage) hl (omega arith) refl
mark-Tracks imulh_m instr i usage c hl hc =
    set-Tracks i usage c (instr.dst % 8) (encode imulh_m instr usage) hl (omega arith)
      (memory_operand-writes imulh_m instr c (λ b. refl))
mark-Tracks ismulh_r instr i usage c hl hc =
    set-Tracks i usage c (instr.dst % 8) (encode ismulh_r instr usage) hl (omega arith) refl
mark-Tracks ismulh_m instr i usage c hl hc =
    set-Tracks i usage c (instr.dst % 8) (encode ismulh_m instr usage) hl (omega arith)
      (memory_operand-writes ismulh_m instr c (λ b. refl))
mark-Tracks ineg_r instr i usage c hl hc =
    set-Tracks i usage c (instr.dst % 8) (encode ineg_r instr usage) hl (omega arith) refl
mark-Tracks ixor_r instr i usage c hl hc =
    set-Tracks i usage c (instr.dst % 8) (encode ixor_r instr usage) hl (omega arith)
      (register_operand-writes ixor_r instr c (λ b. refl) _)
mark-Tracks ixor_m instr i usage c hl hc =
    set-Tracks i usage c (instr.dst % 8) (encode ixor_m instr usage) hl (omega arith)
      (memory_operand-writes ixor_m instr c (λ b. refl))
mark-Tracks iror_r instr i usage c hl hc =
    set-Tracks i usage c (instr.dst % 8) (encode iror_r instr usage) hl (omega arith)
      (register_operand-writes iror_r instr c (λ b. refl) _)
mark-Tracks irol_r instr i usage c hl hc =
    set-Tracks i usage c (instr.dst % 8) (encode irol_r instr usage) hl (omega arith)
      (register_operand-writes irol_r instr c (λ b. refl) _)
mark-Tracks iswap_r instr i usage c hl hc = swap-Tracks instr i usage c hl hc
mark-Tracks fswap_r instr i usage c hl hc =
    inr (refl, if-Touches c false (ltb (instr.dst % 8) 4) _ _ refl refl)
mark-Tracks fadd_r instr i usage c hl hc = inr (refl, refl)
mark-Tracks fadd_m instr i usage c hl hc = inr (refl, refl)
mark-Tracks fsub_r instr i usage c hl hc = inr (refl, refl)
mark-Tracks fsub_m instr i usage c hl hc = inr (refl, refl)
mark-Tracks fscal_r instr i usage c hl hc = inr (refl, refl)
mark-Tracks fmul_r instr i usage c hl hc = inr (refl, refl)
mark-Tracks fdiv_m instr i usage c hl hc = inr (refl, refl)
mark-Tracks fsqrt_r instr i usage c hl hc = inr (refl, refl)
mark-Tracks cbranch instr i usage c hl hc = inl (get_or-replicate 8 c (pos i) (negsuc 0) hc)
mark-Tracks cfround instr i usage c hl hc = inr (refl, refl)
mark-Tracks istore instr i usage c hl hc = inr (refl, refl)
mark-Tracks nop instr i usage c hl hc = inr (refl, refl)
