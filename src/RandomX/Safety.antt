-- ===== src/RandomX/Safety.antt =====
-- When an instruction of src/randomx/vm.rs stays within the register file and the scratchpad, and
-- which registers it writes.
use miner_tim.Common.{
  ℕ, zero, suc, ◌+◌, ◌/◌, ◌≤◌, ◌<◌, bit_and, Bool, true, false, ◌||◌, Option, none, some, ◌≡◌, refl,
  arith, u32, get_elem?, set, length, leb, ltb, lt→ltb, ◌==◌, if◌then◌else◌, ◌>>=◌, List, [], ◌∷◌,
}
use miner_tim.Common.Bits.{bit_and_digit, bit_and-zero_below}
use miner_tim.RandomX.Instruction.{
  InstructionType, BytecodeInstruction, iadd_rs, isub_r, imul_r, imulh_r, ismulh_r, ineg_r, ixor_r,
  iror_r, irol_r, iswap_r, fswap_r, fadd_r, fadd_m, fsub_r, fsub_m, fscal_r, fmul_r, fdiv_m,
  fsqrt_r, cbranch, cfround, istore, nop, scratchpad_l3_size, scratchpad_l3_mask,
}
use miner_tim.RandomX.Machine.{Machine, Scratchpad, wrapping_add, write, load, store64, read_le}
use miner_tim.RandomX.Execute.{address}

-- Whether an instruction writes an integer register. A branch counts as writing them all.
unfoldable pub writes : InstructionType → BytecodeInstruction → ℕ → Bool
writes iswap_r b c = c == b.dst || c == b.src
writes fswap_r b c = false
writes fadd_r b c = false
writes fadd_m b c = false
writes fsub_r b c = false
writes fsub_m b c = false
writes fscal_r b c = false
writes fmul_r b c = false
writes fdiv_m b c = false
writes fsqrt_r b c = false
writes cbranch b c = true
writes cfround b c = false
writes istore b c = false
writes nop b c = false
writes t b c = c == b.dst

-- The operands of each kind of instruction are within bounds.
unfoldable pub Within : InstructionType → BytecodeInstruction → Type 0
Within iadd_rs b = (b.dst < 8) × (b.src < 8)
Within isub_r b = b.dst < 8
Within imul_r b = b.dst < 8
Within imulh_r b = (b.dst < 8) × (b.src < 8)
Within ismulh_r b = (b.dst < 8) × (b.src < 8)
Within ineg_r b = b.dst < 8
Within ixor_r b = b.dst < 8
Within iror_r b = b.dst < 8
Within irol_r b = b.dst < 8
Within iswap_r b = (b.dst < 8) × (b.src < 8)
Within fswap_r b = b.dst < 4
Within fadd_r b = (b.dst < 4) × (b.src < 4)
Within fadd_m b = (b.dst < 4) × ((b.src < 8) × (b.mem_mask ≤ scratchpad_l3_mask))
Within fsub_r b = (b.dst < 4) × (b.src < 4)
Within fsub_m b = (b.dst < 4) × ((b.src < 8) × (b.mem_mask ≤ scratchpad_l3_mask))
Within fscal_r b = b.dst < 4
Within fmul_r b = (b.dst < 4) × (b.src < 4)
Within fdiv_m b = (b.dst < 4) × ((b.src < 8) × (b.mem_mask ≤ scratchpad_l3_mask))
Within fsqrt_r b = b.dst < 4
Within cbranch b = b.dst < 8
Within cfround b = b.src < 8
Within istore b = (b.dst < 8) × ((b.src < 8) × (b.mem_mask ≤ scratchpad_l3_mask))
Within nop b = Unit
Within t b = (b.dst < 8) × (b.mem_mask ≤ scratchpad_l3_mask)

-- The register file and the scratchpad have their sizes.
unfoldable pub IsReady : {F : Type 0} → Machine F → Type 0
IsReady m =
    (length m.r ≡ 8)
    × ((length m.f ≡ 4)
        × ((length m.e ≡ 4) × ((length m.a ≡ 4) × (m.scratchpad.size ≡ scratchpad_l3_size))))

-- A result exists and has a property.
abbrev pub Post {ℓ} : {A : Type ℓ} → (A → Type 0) → Option A → Type 0
Post P none = ⊥
Post P (some a) = P a

pub bind-Post :
    {A : Type 0} {B : Type 0} (Q : A → Type 0) (P : B → Type 0) (o : Option A) (f : A → Option B)
    → Post Q o
    → ((a : A) → Q a → Post P (f a))
    → Post P (o >>= f)
bind-Post Q P none f h k = elim h [ ]
bind-Post Q P (some a) f h k = k a h

pub Post-map :
    {A : Type 0} (P : A → Type 0) (Q : A → Type 0) (o : Option A)
    → Post P o
    → ((a : A) → P a → Q a)
    → Post Q o
Post-map P Q none h k = h
Post-map P Q (some a) h k = k a h

-- Accesses within bounds.
pub get-Post :
    {A : Type 0} (xs : List A) (i : ℕ) → i < length xs → Post (λ x. Unit {0}) (get_elem? xs i)
get-Post [] i h = absurd (omega arith)
get-Post (x ∷ xs) zero h = tt
get-Post (x ∷ xs) (suc i) h = get-Post xs i (omega arith)

-- An access within bounds, and what is done with its value.
pub get-then :
    {A : Type 0} {B : Type 0} (xs : List A) (i : ℕ) (P : B → Type 0) (f : A → Option B)
    → i < length xs
    → ((a : A) → Post P (f a))
    → Post P (get_elem? xs i >>= f)
get-then xs i P f h k =
    bind-Post (λ x. Unit {0}) P (get_elem? xs i) f (get-Post xs i h) (λ a u. k a)

if-Post :
    {A : Type 0} (P : A → Type 0) (test : Bool) (a : A)
    → test ≡ true
    → P a
    → Post P (if test then some a else none)
if-Post P test a e p = rw (e) p

pub le→leb : (x y : ℕ) → x ≤ y → leb x y ≡ true
le→leb x y h = ground arith

pub write-Post :
    {A : Type 0} (xs : List A) (i : ℕ) (v : A)
    → i < length xs
    → Post (λ ys. ys ≡ set xs i v) (write xs i v)
write-Post xs i v h =
    if-Post (λ ys. ys ≡ set xs i v) (ltb i (length xs)) (set xs i v) (lt→ltb i (length xs) h) refl

pub load-Post :
    (w : ℕ) (pad : Scratchpad) (offset : ℕ)
    → offset + w ≤ pad.size
    → Post (λ x. Unit {0}) (load w pad offset)
load-Post w pad offset h =
    if-Post (λ x. Unit {0}) (leb (offset + w) pad.size) (read_le w pad.byte offset)
      (le→leb (offset + w) pad.size h) tt

pub store-Post :
    (pad : Scratchpad) (offset v : ℕ)
    → offset + 8 ≤ pad.size
    → Post (λ after. after.size ≡ pad.size) (store64 pad offset v)
store-Post pad offset v h = rw (le→leb (offset + 8) pad.size h) refl

pub bit_and-le_below : (n a b : ℕ) → b ≤ n → bit_and a b ≤ b
bit_and-le_below n a zero h = omega (arith, bit_and-zero_below a a (omega arith))
bit_and-le_below zero a (suc b) h = absurd (omega arith)
bit_and-le_below (suc n) a (suc b) h =
    omega (arith, bit_and_digit a (suc b), bit_and-le_below n (a / 2) (suc b / 2) (omega arith))

-- A masked address has room for eight bytes.
pub address-fits :
    (b : BytecodeInstruction) (x : ℕ)
    → b.mem_mask ≤ scratchpad_l3_mask
    → address b x + 8 ≤ scratchpad_l3_size
address-fits b x h =
    omega
      (arith, h, bit_and-le_below b.mem_mask (u32 (wrapping_add x b.imm)) b.mem_mask (omega arith))
