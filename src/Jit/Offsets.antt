-- ===== src/Jit/Offsets.antt =====
-- Signed offsets of pair loads, pair stores and branches: the field of the word, read as a signed
-- number, is the offset that was asked for.
use miner_tim.Common.{
  ℕ, suc, ◌+◌, ◌-◌, ◌*◌, ◌/◌, ◌%◌, ◌^◌, ◌≤◌, ◌<◌, ◌≡◌, arith, [], ◌∷◌, ◌++◌, All, bit_or, bit_and,
  ap, ap₂, ◌∙◌, ltb, if◌then◌else◌, Bool-cases, ltb→lt, inl, inr,
}
use miner_tim.Common.Bits.{bit_or_disjoint, bit_and_low}
use miner_tim.Jit.Emitter.{Emitter, emit, ◌|||◌, shl32, ℤ, pos, negsuc, as_u32, div_trunc, negate}
use miner_tim.Jit.Fields.{Appends}
use miner_tim.Jit.Memory.{stp_fp_imm, ldp_fp_imm, stp_pre, ldp_post, stp_fp_pre, ldp_fp_post}
use miner_tim.Jit.Float.{b_cond, b, bl}

-- A number of `w` bits, read as a signed one.
abbrev pub signed : ℕ → ℕ → ℤ
signed w n = if ltb n (2 ^ (w - 1)) then pos n else negate (2 ^ w - n)

-- From `-2 ^ k` to `2 ^ k - 1`.
abbrev pub InRange : ℕ → ℤ → Type 0
InRange k (pos n) = n < 2 ^ k
InRange k (negsuc n) = n < 2 ^ k

abbrev pub eight_times : ℤ → ℤ
eight_times (pos n) = pos (8 * n)
eight_times (negsuc n) = negsuc (8 * n + 7)

-- The opcode, then the two registers that are loaded or stored, the base and the scaled offset.
abbrev pub pair_fields : ℕ → ℕ × ℕ × ℕ × ℕ × ℤ
pair_fields w =
    (w / 2 ^ 22, w % 2 ^ 5, w / 2 ^ 10 % 2 ^ 5, w / 2 ^ 5 % 2 ^ 5, signed 7 (w / 2 ^ 15 % 2 ^ 7))

-- The opcode, the condition and the offset of a conditional branch.
abbrev pub cond_fields : ℕ → ℕ × ℕ × ℤ
cond_fields w = (w / 2 ^ 24, w % 2 ^ 5, signed 19 (w / 2 ^ 5 % 2 ^ 19))

abbrev pub branch_fields : ℕ → ℕ × ℤ
branch_fields w = (w / 2 ^ 26, signed 26 (w % 2 ^ 26))

-- The top half of the numbers stands for the negative ones.
signed_top : (w n x : ℕ) → x + n + 1 ≡ 2 ^ w → 2 ^ (w - 1) ≤ x → signed w x ≡ negsuc n
signed_top w n x e le = elim (Bool-cases (ltb x (2 ^ (w - 1)))) [
  | inl low ↦ absurd (omega (arith, ltb→lt x (2 ^ (w - 1)) low))
  | inr high ↦ rw high (ap negate top)
]
  where
    top : 2 ^ w - x ≡ suc n
    top = omega arith

signed_low7 : (z : ℤ) → InRange 6 z → signed 7 (as_u32 z % 2 ^ 7) ≡ z
signed_low7 (pos n) h = ground arith
signed_low7 (negsuc n) h = signed_top 7 n (as_u32 (negsuc n) % 2 ^ 7) (omega arith) (omega arith)

signed_low19 : (z : ℤ) → InRange 18 z → signed 19 (as_u32 z % 2 ^ 19) ≡ z
signed_low19 (pos n) h = ground arith
signed_low19 (negsuc n) h = signed_top 19 n (as_u32 (negsuc n) % 2 ^ 19) (omega arith) (omega arith)

signed_low26 : (z : ℤ) → InRange 25 z → signed 26 (as_u32 z % 2 ^ 26) ≡ z
signed_low26 (pos n) h = ground arith
signed_low26 (negsuc n) h = signed_top 26 n (as_u32 (negsuc n) % 2 ^ 26) (omega arith) (omega arith)

div_eight_times : (z : ℤ) → div_trunc (eight_times z) 8 ≡ z
div_eight_times (pos n) = ap pos (omega arith)
div_eight_times (negsuc n) = ap negate quotient
  where
    quotient : suc (8 * n + 7) / 8 ≡ suc n
    quotient = omega arith

pair_word :
    (op t1 t2 rn k : ℕ)
    → t1 < 2 ^ 5
    → t2 < 2 ^ 5
    → rn < 2 ^ 5
    → k < 2 ^ 7
    → (op * 2 ^ 22 ||| shl32 k 15 ||| shl32 t2 10 ||| shl32 rn 5 ||| t1)
      ≡ op * 2 ^ 22 + k * 2 ^ 15 + t2 * 2 ^ 10 + rn * 2 ^ 5 + t1
pair_word op t1 t2 rn k l1 l2 ln lk =
    ap (λ (x : ℕ). bit_or (bit_or (bit_or x (shl32 t2 10)) (shl32 rn 5)) t1)
      (ap (bit_or (op * 2 ^ 22)) (omega arith) ∙ bit_or_disjoint 22 op (k * 2 ^ 15) (omega arith))
    ∙ ap (λ (x : ℕ). bit_or (bit_or x (shl32 rn 5)) t1)
        (ap₂ bit_or (omega arith) (omega arith)
          ∙ bit_or_disjoint 15 (op * 2 ^ 7 + k) (t2 * 2 ^ 10) (omega arith))
    ∙ ap (λ (x : ℕ). bit_or x t1)
        (ap₂ bit_or (omega arith) (omega arith)
          ∙ bit_or_disjoint 10 ((op * 2 ^ 7 + k) * 2 ^ 5 + t2) (rn * 2 ^ 5) (omega arith))
    ∙ ap (λ (x : ℕ). bit_or x t1) (omega arith)
    ∙ bit_or_disjoint 5 (((op * 2 ^ 7 + k) * 2 ^ 5 + t2) * 2 ^ 5 + rn) t1 l1
    ∙ omega arith

Appends-pair :
    (op t1 t2 rn : ℕ) (z : ℤ) (e : Emitter)
    → t1 < 2 ^ 5
    → t2 < 2 ^ 5
    → rn < 2 ^ 5
    → InRange 6 z
    → Appends pair_fields
        (op, t1, t2, rn, z)
        e
        (emit
          (op * 2 ^ 22
            ||| shl32 (bit_and (as_u32 (div_trunc (eight_times z) 8)) 0x7F) 15
            ||| shl32 t2 10
            ||| shl32 rn 5
            ||| t1)
          e)
unfolding emit
Appends-pair op t1 t2 rn z e l1 l2 ln h =
    let k = as_u32 z % 2 ^ 7 in
    let sum = pair_word op t1 t2 rn k l1 l2 ln (omega arith) in
    (
      op * 2 ^ 22 + k * 2 ^ 15 + t2 * 2 ^ 10 + rn * 2 ^ 5 + t1,
      ap
            (λ (x : ℕ).
              e.code ++ (op * 2 ^ 22 ||| shl32 x 15 ||| shl32 t2 10 ||| shl32 rn 5 ||| t1) ∷ [])
            (bit_and_low 7 _ ∙ ap (λ y. as_u32 y % 2 ^ 7) (div_eight_times z))
          ∙ ap (λ (x : ℕ). e.code ++ x ∷ []) sum,
      fields k (omega arith) (signed_low7 z h),
    )
  where
    fields :
        (k : ℕ)
        → k < 2 ^ 7
        → signed 7 k ≡ z
        → pair_fields (op * 2 ^ 22 + k * 2 ^ 15 + t2 * 2 ^ 10 + rn * 2 ^ 5 + t1)
          ≡ (op, t1, t2, rn, z)
    fields k lk same =
        let w : ℕ = op * 2 ^ 22 + k * 2 ^ 15 + t2 * 2 ^ 10 + rn * 2 ^ 5 + t1 in
        let field : w / 2 ^ 15 % 2 ^ 7 ≡ k = omega arith in
        let offset : signed 7 (w / 2 ^ 15 % 2 ^ 7) ≡ z = ap (signed 7) field ∙ same in
        let a : w / 2 ^ 22 ≡ op = omega arith in
        let b : w % 2 ^ 5 ≡ t1 = omega arith in
        let c : w / 2 ^ 10 % 2 ^ 5 ≡ t2 = omega arith in
        let d : w / 2 ^ 5 % 2 ^ 5 ≡ rn = omega arith in cc

-- For registers below 32 and an offset that is a multiple of 8 from -512 to 504: each of the six loads and stores of
-- a pair appends one word, from which the opcode, the registers and the offset read back, its sign included.
pub pair_offset :
    (t1 t2 rn : ℕ) (z : ℤ) (e : Emitter)
    → t1 < 2 ^ 5
    → t2 < 2 ^ 5
    → rn < 2 ^ 5
    → InRange 6 z
    → All
        (λ (f, op). Appends pair_fields (op, t1, t2, rn, z) e (f t1 t2 rn (eight_times z) e))
        ((stp_fp_imm, 0x1B4)
          ∷ (ldp_fp_imm, 0x1B5)
          ∷ (stp_pre, 0x2A6)
          ∷ (ldp_post, 0x2A3)
          ∷ (stp_fp_pre, 0x1B6)
          ∷ (ldp_fp_post, 0x1B3)
          ∷ [])
unfolding stp_fp_imm ldp_fp_imm stp_pre ldp_post stp_fp_pre ldp_fp_post
pair_offset t1 t2 rn z e l1 l2 ln h =
    (at 0x1B4, (at 0x1B5, (at 0x2A6, (at 0x2A3, (at 0x1B6, (at 0x1B3, tt))))))
  where
    at :
        (op : ℕ)
        → Appends pair_fields
            (op, t1, t2, rn, z)
            e
            (emit
              (op * 2 ^ 22
                ||| shl32 (bit_and (as_u32 (div_trunc (eight_times z) 8)) 0x7F) 15
                ||| shl32 t2 10
                ||| shl32 rn 5
                ||| t1)
              e)
    at op = Appends-pair op t1 t2 rn z e l1 l2 ln h

-- A branch whose offset fits its field appends one word, from which the offset reads back, its sign included: 19 bits
-- in a conditional branch, and 26 bits in a branch and in a branch with link.
pub branch_offset :
    (cond : ℕ) (near far : ℤ) (e : Emitter)
    → cond < 2 ^ 4
    → InRange 18 near
    → InRange 25 far
    → Appends cond_fields (0x54, cond, near) e (b_cond cond near e)
      × Appends branch_fields (0x05, far) e (b far e)
      × Appends branch_fields (0x25, far) e (bl far e)
unfolding emit b_cond b bl
branch_offset cond near far e lc hn hf = (
  cond_word (as_u32 near % 2 ^ 19) (omega arith) (bit_and_low 19 (as_u32 near))
      (signed_low19 near hn),
  far_word 0x05 (as_u32 far % 2 ^ 26) (omega arith) (bit_and_low 26 (as_u32 far))
      (signed_low26 far hf),
  far_word 0x25 (as_u32 far % 2 ^ 26) (omega arith) (bit_and_low 26 (as_u32 far))
      (signed_low26 far hf),
)
  where
    cond_word :
        (k : ℕ)
        → k < 2 ^ 19
        → bit_and (as_u32 near) 0x7FFFF ≡ k
        → signed 19 k ≡ near
        → Appends cond_fields
            (0x54, cond, near)
            e
            (emit (0x54000000 ||| shl32 (bit_and (as_u32 near) 0x7FFFF) 5 ||| cond) e)
    cond_word k lk low same =
        let w : ℕ = 0x54 * 2 ^ 24 + k * 2 ^ 5 + cond in
        let field : w / 2 ^ 5 % 2 ^ 19 ≡ k = omega arith in
        let offset : signed 19 (w / 2 ^ 5 % 2 ^ 19) ≡ near = ap (signed 19) field ∙ same in
        let a : w / 2 ^ 24 ≡ 0x54 = omega arith in
        let b : w % 2 ^ 5 ≡ cond = omega arith in
        (
          w,
          ap (λ (x : ℕ). e.code ++ (0x54000000 ||| shl32 x 5 ||| cond) ∷ []) low
              ∙ ap (λ (x : ℕ). e.code ++ x ∷ [])
                  (ap (λ (x : ℕ). bit_or x cond)
                      (ap (bit_or 0x54000000) (omega arith)
                        ∙ bit_or_disjoint 24 0x54 (k * 2 ^ 5) (omega arith)
                        ∙ omega arith)
                    ∙ bit_or_disjoint 5 (0x54 * 2 ^ 19 + k) cond (omega arith)
                    ∙ omega arith),
          cc,
        )

    far_word :
        (op k : ℕ)
        → k < 2 ^ 26
        → bit_and (as_u32 far) 0x3FFFFFF ≡ k
        → signed 26 k ≡ far
        → Appends branch_fields
            (op, far)
            e
            (emit (op * 2 ^ 26 ||| bit_and (as_u32 far) 0x3FFFFFF) e)
    far_word op k lk low same =
        let w : ℕ = op * 2 ^ 26 + k in
        let field : w % 2 ^ 26 ≡ k = omega arith in
        let offset : signed 26 (w % 2 ^ 26) ≡ far = ap (signed 26) field ∙ same in
        let a : w / 2 ^ 26 ≡ op = omega arith in
        (
          w,
          ap (λ (x : ℕ). e.code ++ (op * 2 ^ 26 ||| x) ∷ []) low
              ∙ ap (λ (x : ℕ). e.code ++ x ∷ []) (bit_or_disjoint 26 op k lk),
          cc,
        )
