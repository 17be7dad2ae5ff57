-- ===== src/RandomX/Superscalar/Safety.antt =====
-- `execute_superscalar` of src/randomx/superscalar.rs completes a program that is well formed.
use miner_tim.Common.{
  ℕ, ◌^◌, ◌≤◌, ◌<◌, ◌≡◌, ◌≢◌, ap, ◌∙◌, subst, arith, Bool, true, false, ◌||◌, inl, inr, Bool-cases,
  Option, none, some, List, [], ◌∷◌, length, set, length-set, All, ==_iff, ◌==◌, if◌then◌else◌,
}
use miner_tim.RandomX.Machine.{write}
use miner_tim.RandomX.Safety.{Post, bind-Post, get-then, write-Post, Post-map}
use miner_tim.RandomX.Reciprocal.{randomx_reciprocal}
use miner_tim.RandomX.Superscalar.{SuperscalarInstruction}
use miner_tim.RandomX.Superscalar.Select.{is_zero_or_power_of_2}
use miner_tim.RandomX.Superscalar.Execute.{with_source, with_constant, execute_one, execute_all}

-- The registers exist, and a constant suits the instruction.
pub record IsGenerated (inst : SuperscalarInstruction) : Type 0 where
  pub kind : inst.opcode ≤ 13
  pub dst_in : inst.dst < 8
  pub src_in : inst.src < 8
  pub constant : inst.imm32 < 2 ^ 32
  pub rotation : inst.opcode ≡ 4 → (0 < inst.imm32) × (inst.imm32 < 64)
  pub divisor : inst.opcode ≡ 13 → is_zero_or_power_of_2 inst.imm32 ≡ false

pub if-either :
    {A : Type 0} (P : A → Type 0) (test : Bool) (a b : A)
    → (test ≡ true → P a)
    → (test ≡ false → P b)
    → P (if test then a else b)
if-either P test a b h k = elim (Bool-cases test) [ inl e ↦ rw (e) (h e) | inr e ↦ rw (e) (k e) ]

pub option-either :
    {A B : Type 0} (P : B → Type 0) (o : Option A) (b : B) (f : A → B)
    → P b
    → ((a : A) → P (f a))
    → P (elim o [ none ↦ b | some a ↦ f a ])
option-either P none b f h k = h
option-either P (some a) b f h k = k a

pub set-Post :
    (r : List ℕ) (i v : ℕ) → length r ≡ 8 → i < 8 → Post (λ after. length after ≡ 8) (write r i v)
set-Post r i v e h =
    Post-map (λ after. after ≡ set r i v) (λ after. length after ≡ 8) (write r i v)
      (write-Post r i v (omega arith)) (λ after w. ap length w ∙ length-set r i v ∙ e)

with_constant-Post :
    (r : List ℕ) (inst : SuperscalarInstruction) (f : ℕ → ℕ)
    → length r ≡ 8
    → inst.dst < 8
    → Post (λ after. length after ≡ 8) (with_constant r inst f)
with_constant-Post r inst f e h =
    get-then r inst.dst _ _ (omega arith) (λ x. set-Post r inst.dst (f x) e h)

with_source-Post :
    (r : List ℕ) (inst : SuperscalarInstruction) (f : ℕ → ℕ → ℕ)
    → length r ≡ 8
    → inst.dst < 8
    → inst.src < 8
    → Post (λ after. length after ≡ 8) (with_source r inst f)
with_source-Post r inst f e h k =
    get-then r inst.dst _ _ (omega arith)
      (λ x. get-then r inst.src _ _ (omega arith) (λ y. set-Post r inst.dst (f x y) e h))

randomx_reciprocal-Post : (d : ℕ) → d ≢ 0 → Post (λ q. Unit {0}) (randomx_reciprocal d)
unfolding randomx_reciprocal
randomx_reciprocal-Post d h = elim (Bool-cases (d == 0)) [
  | inl e ↦ absurd (h ((==_iff d 0).0 e))
  | inr e ↦ rw (e) tt
]

divisor-nonzero :
    (inst : SuperscalarInstruction) → IsGenerated inst → inst.opcode ≡ 13 → inst.imm32 ≢ 0
divisor-nonzero inst h e z =
    absurd (ground (arith, subst (λ x. is_zero_or_power_of_2 x ≡ false) z (h.divisor e)))

execute_one-Post :
    (inst : SuperscalarInstruction) (r : List ℕ)
    → IsGenerated inst
    → length r ≡ 8
    → Post (λ after. length after ≡ 8) (execute_one inst r)
unfolding execute_one
execute_one-Post inst r h e =
    let P : Option (List ℕ) → Type 0 = Post (λ after. length after ≡ 8) in
    let by_source = λ (f : ℕ → ℕ → ℕ). with_source-Post r inst f e h.dst_in h.src_in in
    let by_constant = λ (f : ℕ → ℕ). with_constant-Post r inst f e h.dst_in in
    if-either P (inst.opcode == 0) _ _ (λ t. by_source _)
      (λ f0.
        if-either P (inst.opcode == 1) _ _ (λ t. by_source _)
          (λ f1.
            if-either P (inst.opcode == 2) _ _ (λ t. by_source _)
              (λ f2.
                if-either P (inst.opcode == 3) _ _ (λ t. by_source _)
                  (λ f3.
                    if-either P (inst.opcode == 4) _ _ (λ t. by_constant _)
                      (λ f4.
                        if-either P (inst.opcode == 5 || inst.opcode == 7 || inst.opcode == 9) _ _
                          (λ t. by_constant _)
                          (λ f5.
                            if-either P (inst.opcode == 6 || inst.opcode == 8 || inst.opcode == 10)
                              _ _ (λ t. by_constant _)
                              (λ f6.
                                if-either P (inst.opcode == 11) _ _ (λ t. by_source _)
                                  (λ f7.
                                    if-either P (inst.opcode == 12) _ _ (λ t. by_source _)
                                      (λ f8.
                                        if-either P (inst.opcode == 13) _ _
                                          (λ t.
                                            bind-Post (λ q. Unit {0}) _
                                              (randomx_reciprocal inst.imm32) _
                                              (randomx_reciprocal-Post inst.imm32 (
                                                divisor-nonzero inst h
                                                  ((==_iff inst.opcode 13).0 t)))
                                              (λ q u. by_constant _))
                                          (λ f9. e))))))))))

pub execute_all-Post :
    (insts : List SuperscalarInstruction) (r : List ℕ)
    → All IsGenerated insts
    → length r ≡ 8
    → Post (λ after. length after ≡ 8) (execute_all insts r)
unfolding execute_all
execute_all-Post [] r h e = e
execute_all-Post (inst ∷ rest) r h e =
    bind-Post (λ after. length after ≡ 8) _ (execute_one inst r) _ (execute_one-Post inst r h.0 e)
      (λ after k. execute_all-Post rest after h.1 k)
