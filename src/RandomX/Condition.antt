-- ===== src/RandomX/Condition.antt =====
-- The condition of a branch (src/randomx/vm.rs): what its constant does to the tested bits.
use miner_tim.Common.{
  ℕ, zero, suc, ◌+◌, ◌-◌, ◌*◌, ◌/◌, ◌%◌, ◌^◌, ◌≤◌, ◌<◌, bit_and, bit_or, ◌≡◌, refl, sym, ap, arith,
  u64,
}
use miner_tim.Common.Bits.{bit_and_digit, bit_or_digit, bit_or_high, bit_and_low}
use miner_tim.Common.{Bool, true, ◌&&◌, ◌==◌, u32, ◌<<<◌, every_below, every_below→at}
use miner_tim.RandomX.Instruction.{
  RawInstruction, condition_offset, condition_mask, get_mod_cond, sign_extend_2s_compl,
}
use miner_tim.RandomX.Compile.{branch_imm}
use native.Mathlib.Nat.{mod-lt, div-add-mod', add-mul, pow-suc, one-le-pow, mul-le-mul_right}
use miner_tim.Common.Masks.{double-pow, bit_and_ones, bit_and_zeros}
use miner_tim.RandomX.Quotients.{Parts, drops}

-- The position of the highest bit below those a branch tests.
abbrev low : ℕ → ℕ
low cond = cond + 7

abbrev small_masks : ℕ → Bool
small_masks cond =
    u32 (condition_mask <<< (cond + condition_offset)) == condition_mask * 2 ^ suc (low cond)
    && 2 ^ 64 == 4 * 2 ^ (55 - cond) * 2 ^ low cond
    && (1 <<< (cond + condition_offset)) == 2 * 2 ^ low cond
    && (1 <<< (cond + condition_offset - 1)) == 2 ^ low cond

mask_facts : (cond : ℕ) → cond < 16 → small_masks cond ≡ true
unfolding every_below
mask_facts cond h = every_below→at 16 small_masks cond refl h

-- The tested bits of `x` are clear.
abbrev pub Jumps : ℕ → ℕ → Type 0
Jumps cond x = bit_and x (u32 (condition_mask <<< (cond + condition_offset))) ≡ 0

pow_pos : (k : ℕ) → 0 < 2 ^ k
pow_pos k = omega (arith, one-le-pow k 2)

mask-shifted :
    (cond : ℕ)
    → cond < 16
    → u32 (condition_mask <<< (cond + condition_offset)) ≡ condition_mask * 2 ^ suc (low cond)
mask-shifted cond h = ground (arith, mask_facts cond h)

word-split : (cond : ℕ) → cond < 16 → 2 ^ 64 ≡ 4 * 2 ^ (55 - cond) * 2 ^ low cond
word-split cond h = ground (arith, mask_facts cond h)

bit-set : (cond : ℕ) → cond < 16 → (1 <<< (cond + condition_offset)) ≡ 2 * 2 ^ low cond
bit-set cond h = ground (arith, mask_facts cond h)

bit-clear : (cond : ℕ) → cond < 16 → (1 <<< (cond + condition_offset - 1)) ≡ 2 ^ low cond
bit-clear cond h = ground (arith, mask_facts cond h)

factor-zero : (t n : ℕ) → 0 < n → t * n ≡ 0 → t ≡ 0
factor-zero zero n h e = refl
factor-zero (suc t) n h e = absurd (omega (arith, mul-le-mul_right n (below_suc t), add-mul 1 t n))
  where
    below_suc : (k : ℕ) → 1 ≤ suc k
    below_suc k = omega arith

-- A number whose 8 bits from `k` on are clear.
clear_bits :
    (k x : ℕ)
    → bit_and x (condition_mask * 2 ^ k) ≡ 0
    → (x / 2 ^ k % 256 ≡ 0) × (x ≡ x / 2 ^ k * 2 ^ k + x % 2 ^ k) × (x % 2 ^ k < 2 ^ k)
clear_bits k x e = (
  factor-zero (x / 2 ^ k % 256) (2 ^ k) (pow_pos k) (
      cc (
        bit_and_zeros k (x / 2 ^ k) condition_mask (x % 2 ^ k) (mod-lt x (pow_pos k)),
        bit_and_low 8 (x / 2 ^ k),
        ap (λ (t : ℕ). bit_and t (condition_mask * 2 ^ k)) (div-add-mod' x (2 ^ k)),
        e,
      )),
  sym (div-add-mod' x (2 ^ k)),
  mod-lt x (pow_pos k),
)

Jumps→parts :
    (cond x : ℕ)
    → cond < 16
    → Jumps cond x
    → (r : ℕ) × (Parts (2 ^ low cond) 0 x r × (r < 2 * 2 ^ low cond))
Jumps→parts cond x h jumps =
    let (clear, split, small) = clear_bits (suc (low cond)) x (cc (jumps, mask-shifted cond h)) in
    (
      x % 2 ^ suc (low cond),
      (
        (
          2 * (x / 2 ^ suc (low cond)),
          (omega arith, omega (arith, double-pow (x / 2 ^ suc (low cond)) (low cond))),
        ),
        omega (arith, pow-suc 2 (low cond)),
      ),
    )

low_two : (a c : ℕ) → bit_and (bit_or a 2) (4 * c + 2) % 4 ≡ 2
low_two a c = omega (
  arith,
  bit_or_digit a 2,
  bit_or_digit (a / 2) 1,
  bit_and_digit (bit_or a 2) (4 * c + 2),
  bit_and_digit (bit_or a 2 / 2) ((4 * c + 2) / 2),
)

branch_mask :
    (cond c : ℕ)
    → cond < 16
    → 2 ^ (55 - cond) ≡ suc c
    → 2 ^ 64 - 1 - 2 ^ low cond ≡ (4 * c + 2) * 2 ^ low cond + (2 ^ low cond - 1)
branch_mask cond c h e = omega (
  arith,
  word-split cond h,
  pow_pos (low cond),
  ap (λ (t : ℕ). 4 * t * 2 ^ low cond) e,
  add-mul (4 * c) 2 (2 ^ low cond),
  add-mul (4 * c) 4 (2 ^ low cond),
  ap (λ (t : ℕ). t * 2 ^ low cond) (four_more c),
)
  where
    four_more : (n : ℕ) → 4 * suc n ≡ 4 * n + 4
    four_more n = omega arith

-- Setting the bit above `k` and clearing bit `k` keeps what is below.
masked :
    (k x c : ℕ)
    → bit_and (bit_or x (2 * 2 ^ k)) ((4 * c + 2) * 2 ^ k + (2 ^ k - 1))
      ≡ bit_and (bit_or (x / 2 ^ k) 2) (4 * c + 2) * 2 ^ k + x % 2 ^ k
masked k x c = cc (
  bit_or_high k (x / 2 ^ k) 2 (x % 2 ^ k) (mod-lt x (pow_pos k)),
  div-add-mod' x (2 ^ k),
  bit_and_ones k (bit_or (x / 2 ^ k) 2) (4 * c + 2) (x % 2 ^ k) (mod-lt x (pow_pos k)),
)

predecessor : (n : ℕ) → 0 < n → (c : ℕ) × (n ≡ suc c)
predecessor zero h = absurd (omega arith)
predecessor (suc c) h = (c, refl)

-- The constant of a branch is 2 modulo 4 from the bit below the tested ones on.
branch_imm-parts :
    (instr : RawInstruction)
    → get_mod_cond instr < 16
    → (r : ℕ) × (Parts (2 ^ low (get_mod_cond instr)) 2 (branch_imm instr) r
        × (r < 2 ^ low (get_mod_cond instr)))
unfolding branch_imm
branch_imm-parts instr h = parts (predecessor (2 ^ (55 - cond)) (pow_pos (55 - cond)))
  where
    cond : ℕ
    cond = get_mod_cond instr

    x : ℕ
    x = sign_extend_2s_compl instr.imm32

    parts :
        (c : ℕ) × (2 ^ (55 - cond) ≡ suc c)
        → (r : ℕ) × (Parts (2 ^ low cond) 2 (branch_imm instr) r × (r < 2 ^ low cond))
    parts (c, e) = (
      x % 2 ^ low cond,
      (
        (
          bit_and (bit_or (x / 2 ^ low cond) 2) (4 * c + 2),
          (
            low_two (x / 2 ^ low cond) c,
            cc (masked (low cond) x c, branch_mask cond c h e, bit-set cond h, bit-clear cond h),
          ),
        ),
        mod-lt x (pow_pos (low cond)),
      ),
    )

wraps_of : (cond x : ℕ) → cond < 16 → x ≡ u64 x + x / 2 ^ 64 * (4 * 2 ^ (55 - cond) * 2 ^ low cond)
wraps_of cond x h = omega (arith, ap (λ (t : ℕ). x / 2 ^ 64 * t) (word-split cond h))

-- One jump after another: the remainder drops.
jump-drops :
    (instr : RawInstruction) (x ir : ℕ) (h : get_mod_cond instr < 16)
    → Parts (2 ^ low (get_mod_cond instr)) 2 (branch_imm instr) ir
    → ir < 2 ^ low (get_mod_cond instr)
    → (first : Jumps (get_mod_cond instr) x)
    → (second : Jumps (get_mod_cond instr) (u64 (x + branch_imm instr)))
    → (Jumps→parts (get_mod_cond instr) (u64 (x + branch_imm instr)) h second).0
        + 2 * 2 ^ low (get_mod_cond instr)
      ≡ (Jumps→parts (get_mod_cond instr) x h first).0 + ir
jump-drops instr x ir h pi li first second =
    let cond = get_mod_cond instr in
    let before = Jumps→parts cond x h first in
    let after = Jumps→parts cond (u64 (x + branch_imm instr)) h second in
    drops (2 ^ low cond) x (u64 (x + branch_imm instr)) (branch_imm instr) (2 ^ (55 - cond))
      ((x + branch_imm instr) / 2 ^ 64) (before.0) (after.0) ir (before.1.0) (after.1.0) pi
      (before.1.1) (after.1.1) li (wraps_of cond (x + branch_imm instr) h)

-- A branch that jumps twice in a row, with nothing else written to its register, does not jump a
-- third time.
pub no_third_jump :
    (instr : RawInstruction) (x : ℕ)
    → get_mod_cond instr < 16
    → Jumps (get_mod_cond instr) x
    → Jumps (get_mod_cond instr) (u64 (x + branch_imm instr))
    → ¬ Jumps (get_mod_cond instr) (u64 (u64 (x + branch_imm instr) + branch_imm instr))
no_third_jump instr x h first second third =
    let cond = get_mod_cond instr in
    let y = u64 (x + branch_imm instr) in
    let constant = branch_imm-parts instr h in
    absurd (
      omega (
        arith,
        jump-drops instr x (constant.0) h (constant.1.0) (constant.1.1) first second,
        jump-drops instr y (constant.0) h (constant.1.0) (constant.1.1) second third,
        (Jumps→parts cond x h first).1.1,
        constant.1.1,
      ))
