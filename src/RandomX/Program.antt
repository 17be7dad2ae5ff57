-- ===== src/RandomX/Program.antt =====
-- The whole of `compile_program` (src/randomx/vm.rs): it always succeeds on a program of the
-- right length, and each branch is written with the usage of its register.
use miner_tim.Common.{
  ℕ, zero, suc, ◌+◌, ◌*◌, ◌<◌, ◌≤◌, subst, ◌≡◌, refl, sym, ap, ◌∙◌, arith, some, get_or, get_elem?,
  length, length-replicate, List, [], ◌∷◌, ◌++◌, All, take, drop, Bytes, replicate,
}
use miner_tim.Common.Int.{negsuc}
use miner_tim.RandomX.Instruction.{BytecodeInstruction, get_mod_cond, instructions_offset, decode}
use miner_tim.RandomX.Compile.{
  RegisterUsage, Compiled, compile_instruction, compile_from, compile_program, read_instruction,
}
use miner_tim.RandomX.Safety.{Post, bind-Post, le→leb}
use miner_tim.RandomX.Operands.{IsSafe}
use miner_tim.RandomX.LastWrite.{get_or-replicate}
use miner_tim.RandomX.Turns.{Turned, compile_instruction-Turned}
use miner_tim.RandomX.Targets.{
  IsLastWrite, HasTarget, IsUsage, next-IsUsage, usage-HasTarget, some-injective,
}

pub All-drop : (P : ℕ → Type 0) (n : ℕ) (xs : Bytes) → All P xs → All P (drop n xs)
All-drop P zero xs h = h
All-drop P (suc n) [] h = tt
All-drop P (suc n) (x ∷ xs) (p, h) = All-drop P n xs h

pub All-take : (P : ℕ → Type 0) (n : ℕ) (xs : Bytes) → All P xs → All P (take n xs)
All-take P zero xs h = tt
All-take P (suc n) [] h = tt
All-take P (suc n) (x ∷ xs) (p, h) = (p, All-take P n xs h)

get_or-All : (P : ℕ → Type 0) (xs : Bytes) (i d : ℕ) → All P xs → P d → P (get_or xs i d)
get_or-All P [] i d h hd = hd
get_or-All P (x ∷ xs) zero d (p, h) hd = p
get_or-All P (x ∷ xs) (suc i) d (p, h) hd = get_or-All P xs i d h hd

abbrev pub IsByte : ℕ → Type 0
IsByte n = n < 256

read_instruction-Post :
    (program_bytes : Bytes) (i : ℕ)
    → All IsByte program_bytes
    → instructions_offset + i * 8 + 8 ≤ length program_bytes
    → Post (λ instr. get_mod_cond instr < 16) (read_instruction program_bytes i)
unfolding read_instruction
read_instruction-Post program_bytes i h fits =
    let offset = instructions_offset + i * 8 in
    let slice = take 8 (drop offset program_bytes) in
    let bytes =
      All-take IsByte 8 (drop offset program_bytes) (All-drop IsByte offset program_bytes h) in
    let small : get_or slice 3 0 < 256 = get_or-All IsByte slice 3 0 bytes (omega arith) in
    rw (le→leb (instructions_offset + i * 8 + 8) (length program_bytes) fits) (omega (arith, small))

-- What the turns from `i` on leave: as many instructions as turns, all safe, and the branches among
-- them with their targets in any program they are the end of.
unfoldable pub Completes : ℕ → ℕ → RegisterUsage → List BytecodeInstruction × RegisterUsage → Type 0
unfolding HasTarget IsUsage IsSafe
Completes count i usage result =
    (length (result.0) ≡ count)
    × ((code : List BytecodeInstruction)
        → ((k : ℕ) → get_elem? (result.0) k ≡ get_elem? code (i + k))
        → IsUsage code i usage
        → (k : ℕ) (b : BytecodeInstruction) → get_elem? (result.0) k ≡ some b
        → IsSafe b × HasTarget code (i + k) b)

add-zero_right : (i : ℕ) → i + 0 ≡ i
add-zero_right i = omega arith

add-suc_right : (i k : ℕ) → i + suc k ≡ suc i + k
add-suc_right i k = omega arith

cons-Completes :
    (count i : ℕ) (usage : RegisterUsage) (made : Compiled)
    (rest : List BytecodeInstruction × RegisterUsage)
    → Turned i usage made
    → Completes count (suc i) (made.1) rest
    → Completes (suc count) i usage (made.0 ∷ rest.0, rest.1)
unfolding Completes Turned
cons-Completes count i usage made rest turned (hl, hk) =
    (omega (arith, hl), λ code suffix hu k b e. by_place code suffix hu k b e)
  where
    by_place :
        (code : List BytecodeInstruction)
        → ((k : ℕ) → get_elem? (made.0 ∷ rest.0) k ≡ get_elem? code (i + k))
        → IsUsage code i usage
        → (k : ℕ) (b : BytecodeInstruction) → get_elem? (made.0 ∷ rest.0) k ≡ some b
        → IsSafe b × HasTarget code (i + k) b
    by_place code suffix hu zero b e =
        subst (λ x. IsSafe x × HasTarget code (i + 0) x) (some-injective e)
          (
            turned.0,
            subst (λ n. HasTarget code n (made.0)) (sym (add-zero_right i))
                (usage-HasTarget code i usage (made.0) hu (turned.1.1.0)),
          )
    by_place code suffix hu (suc k) b e =
        let found : get_elem? code i ≡ some (made.0) =
          ap (get_elem? code) (sym (add-zero_right i)) ∙ sym (suffix 0) in
        let (safe, target) =
          hk code (λ n. suffix (suc n) ∙ ap (get_elem? code) (add-suc_right i n))
            (next-IsUsage code i usage made found hu turned) k b e in
        (safe, subst (λ n. HasTarget code n b) (sym (add-suc_right i k)) target)

pub compile_from-Completes :
    (program_bytes : Bytes) (count i : ℕ) (usage : RegisterUsage)
    → All IsByte program_bytes
    → instructions_offset + (i + count) * 8 ≤ length program_bytes
    → length usage ≡ 8
    → Post (Completes count i usage) (compile_from program_bytes count i usage)
unfolding compile_from Completes Turned
compile_from-Completes program_bytes zero i usage h fits hl =
    (refl, λ code suffix hu k b e. absurd (cc))
compile_from-Completes program_bytes (suc count) i usage h fits hl =
    bind-Post _ _ (read_instruction program_bytes i) _
      (read_instruction-Post program_bytes i h (omega arith))
      (λ instr small.
        bind-Post (Turned i usage) _ (compile_instruction (decode instr.opcode) instr i usage) _
          (compile_instruction-Turned (decode instr.opcode) instr i usage hl small)
          (λ made turned.
            bind-Post (Completes count (suc i) (made.1)) _
              (compile_from program_bytes count (suc i) (made.1)) _
              (compile_from-Completes program_bytes count (suc i) (made.1) h (omega arith)
                (turned.1.0))
              (λ rest hr. cons-Completes count i usage made rest turned hr)))

-- The usage the loop starts from.
unwritten : (code : List BytecodeInstruction) → IsUsage code 0 (replicate 8 (negsuc 0))
unfolding IsUsage IsLastWrite
unwritten code = (
  length-replicate 8 (negsuc 0),
  λ c hc.
      subst (IsLastWrite code 0 c) (sym (get_or-replicate 8 c (negsuc 0) (negsuc 0) hc))
        (refl, (omega arith, λ j b h l e. absurd (omega arith))),
)

-- Every instruction is safe, and every branch has its target.
unfoldable pub IsCompiled : ℕ → List BytecodeInstruction → Type 0
unfolding IsSafe HasTarget
IsCompiled size code =
    (length code ≡ size)
    × ((i : ℕ) (b : BytecodeInstruction)
        → get_elem? code i ≡ some b
        → IsSafe b × HasTarget code i b)

take-append : (xs ys : List BytecodeInstruction) (n : ℕ) → length xs ≡ n → take n (xs ++ ys) ≡ xs
take-append [] ys zero h = refl
take-append [] ys (suc n) h = absurd (omega arith)
take-append (x ∷ xs) ys zero h = absurd (omega arith)
take-append (x ∷ xs) ys (suc n) h = ap (λ zs. x ∷ zs) (take-append xs ys n (omega arith))

zero-add_left : (k : ℕ) → 0 + k ≡ k
zero-add_left k = omega arith

pub compile_program-IsCompiled :
    (program_bytes : Bytes) (size : ℕ) (buffer : List BytecodeInstruction)
    → All IsByte program_bytes
    → instructions_offset + size * 8 ≤ length program_bytes
    → Post
        (λ result. IsCompiled size (take size (result.0)))
        (compile_program program_bytes size buffer)
unfolding compile_program Completes IsCompiled IsUsage
compile_program-IsCompiled program_bytes size buffer h fits =
    bind-Post (Completes size 0 (replicate 8 (negsuc 0))) _
      (compile_from program_bytes size 0 (replicate 8 (negsuc 0))) _
      (compile_from-Completes program_bytes size 0 (replicate 8 (negsuc 0)) h (omega (arith, fits))
        (length-replicate 8 (negsuc 0)))
      (λ result hr.
        subst (IsCompiled size) (sym (take-append (result.0) (drop size buffer) size (hr.0))) (
          hr.0,
          λ k b e.
              let (safe, target) =
                hr.1 (result.0) (λ j. ap (get_elem? (result.0)) (sym (zero-add_left j)))
                  (unwritten (result.0)) k b e in
              (safe, subst (λ n. HasTarget (result.0) n b) (zero-add_left k) target),
        ))
