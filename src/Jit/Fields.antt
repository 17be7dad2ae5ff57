-- ===== src/Jit/Fields.antt =====
-- The register fields of an instruction word: none overlaps another one or the opcode.
use miner_tim.Common.{
  ℕ, ◌+◌, ◌*◌, ◌/◌, ◌%◌, ◌^◌, ◌<◌, ◌≡◌, refl, arith, List, [], ◌∷◌, ◌++◌, All, bit_or, ap, ap₂, ◌∙◌,
  ltb, ltb→lt, true,
}
use miner_tim.Common.Bits.{bit_or_disjoint, bit_or_high}
use miner_tim.Jit.Emitter.{Emitter, emit, ◌|||◌, shl32}
use miner_tim.Jit.Integer.{
  add_reg, sub_reg, eor_reg_w, mul, umulh, smulh, eor_reg, and_reg, orr_reg, rorv, lsrv,
}
use miner_tim.Jit.Memory.{ldr_reg, str_reg, ldr_w_reg, ldrsw_reg}
use miner_tim.Jit.Float.{fadd, fsub, fmul, fdiv, eor_v8b}

-- The instructions on three registers, each with the architecture's opcode: the bits from 31 down to
-- 21, and behind them those from 15 down to 10.
abbrev pub three_register : List ((ℕ → ℕ → ℕ → Emitter → Emitter) × ℕ × ℕ)
three_register =
    (add_reg, 0x458, 0)
    ∷ (sub_reg, 0x658, 0)
    ∷ (eor_reg_w, 0x250, 0)
    ∷ (mul, 0x4D8, 31)
    ∷ (umulh, 0x4DE, 31)
    ∷ (smulh, 0x4DA, 31)
    ∷ (eor_reg, 0x650, 0)
    ∷ (and_reg, 0x450, 0)
    ∷ (orr_reg, 0x550, 0)
    ∷ (rorv, 0x4D6, 11)
    ∷ (lsrv, 0x4D6, 9)
    ∷ (ldr_reg, 0x7C3, 26)
    ∷ (str_reg, 0x7C1, 26)
    ∷ (ldr_w_reg, 0x5C3, 26)
    ∷ (ldrsw_reg, 0x5C5, 26)
    ∷ (fadd, 0xF3, 10)
    ∷ (fsub, 0xF3, 14)
    ∷ (fmul, 0xF3, 2)
    ∷ (fdiv, 0xF3, 6)
    ∷ (eor_v8b, 0x171, 7)
    ∷ []

-- The fields of a word: the two parts of the opcode, then rd, rn and rm.
abbrev pub register_fields : ℕ → (ℕ × ℕ) × ℕ × ℕ × ℕ
register_fields w =
    ((w / 2 ^ 21, w / 2 ^ 10 % 2 ^ 6), w % 2 ^ 5, w / 2 ^ 5 % 2 ^ 5, w / 2 ^ 16 % 2 ^ 5)

-- One word is appended that has these fields.
abbrev pub Appends : {A : Type 0} → (ℕ → A) → A → Emitter → Emitter → Type 0
Appends read fields e e' = (w : ℕ) × (e'.code ≡ e.code ++ w ∷ []) × (read w ≡ fields)

pub word_sum :
    (q s rd rn rm : ℕ)
    → s < 2 ^ 6
    → rd < 2 ^ 5
    → rn < 2 ^ 5
    → rm < 2 ^ 5
    → (q * 2 ^ 21 + s * 2 ^ 10 ||| shl32 rm 16 ||| shl32 rn 5 ||| rd)
      ≡ q * 2 ^ 21 + rm * 2 ^ 16 + s * 2 ^ 10 + rn * 2 ^ 5 + rd
word_sum q s rd rn rm ls ld ln lm =
    ap (λ (x : ℕ). bit_or (bit_or x (shl32 rn 5)) rd) rm_field
    ∙ ap (λ (x : ℕ). bit_or x rd) rn_field
    ∙ last
  where
    rm_field : (q * 2 ^ 21 + s * 2 ^ 10 ||| shl32 rm 16) ≡ (q * 2 ^ 5 + rm) * 2 ^ 16 + s * 2 ^ 10
    rm_field =
        ap₂ bit_or (omega arith) (omega arith)
        ∙ bit_or_high 16 (q * 2 ^ 5) rm (s * 2 ^ 10) (omega arith)
        ∙ ap (λ (x : ℕ). x * 2 ^ 16 + s * 2 ^ 10) (bit_or_disjoint 5 q rm lm)

    rn_field :
        ((q * 2 ^ 5 + rm) * 2 ^ 16 + s * 2 ^ 10 ||| shl32 rn 5)
        ≡ (q * 2 ^ 11 + rm * 2 ^ 6 + s) * 2 ^ 10 + rn * 2 ^ 5
    rn_field =
        ap₂ bit_or (omega arith) (omega arith)
        ∙ bit_or_disjoint 10 (q * 2 ^ 11 + rm * 2 ^ 6 + s) (rn * 2 ^ 5) (omega arith)

    last :
        ((q * 2 ^ 11 + rm * 2 ^ 6 + s) * 2 ^ 10 + rn * 2 ^ 5 ||| rd)
        ≡ q * 2 ^ 21 + rm * 2 ^ 16 + s * 2 ^ 10 + rn * 2 ^ 5 + rd
    last =
        ap (λ (x : ℕ). bit_or x rd) (omega arith)
        ∙ bit_or_disjoint 5 ((q * 2 ^ 11 + rm * 2 ^ 6 + s) * 2 ^ 5 + rn) rd ld
        ∙ omega arith

Appends-fields :
    (q s rd rn rm : ℕ) (e : Emitter)
    → s < 2 ^ 6
    → rd < 2 ^ 5
    → rn < 2 ^ 5
    → rm < 2 ^ 5
    → Appends register_fields
        ((q, s), rd, rn, rm)
        e
        (emit (q * 2 ^ 21 + s * 2 ^ 10 ||| shl32 rm 16 ||| shl32 rn 5 ||| rd) e)
unfolding emit
Appends-fields q s rd rn rm e ls ld ln lm =
    let sum = word_sum q s rd rn rm ls ld ln lm in (_, refl, rw sum (grind arith))

-- For registers below 32: each of the twenty instructions appends one word, from which its opcode and its three
-- registers read back.
pub three_register_fields :
    (rd rn rm : ℕ) (e : Emitter)
    → rd < 2 ^ 5
    → rn < 2 ^ 5
    → rm < 2 ^ 5
    → All
        (λ (f, high, low). Appends register_fields ((high, low), rd, rn, rm) e (f rd rn rm e))
        three_register
unfolding emit add_reg sub_reg eor_reg_w mul umulh smulh eor_reg and_reg orr_reg rorv lsrv ldr_reg
    str_reg ldr_w_reg ldrsw_reg fadd fsub fmul fdiv eor_v8b
three_register_fields rd rn rm e ld ln lm = (
  at 0x458 0 refl,
  (
    at 0x658 0 refl,
    (
      at 0x250 0 refl,
      (
        at 0x4D8 31 refl,
        (
          at 0x4DE 31 refl,
          (
            at 0x4DA 31 refl,
            (
              at 0x650 0 refl,
              (
                at 0x450 0 refl,
                (
                  at 0x550 0 refl,
                  (
                    at 0x4D6 11 refl,
                    (
                      at 0x4D6 9 refl,
                      (
                        at 0x7C3 26 refl,
                        (
                          at 0x7C1 26 refl,
                          (
                            at 0x5C3 26 refl,
                            (
                              at 0x5C5 26 refl,
                              (
                                at 0xF3 10 refl,
                                (
                                  at 0xF3 14 refl,
                                  (at 0xF3 2 refl, (at 0xF3 6 refl, (at 0x171 7 refl, (tt)))),
                                ),
                              ),
                            ),
                          ),
                        ),
                      ),
                    ),
                  ),
                ),
              ),
            ),
          ),
        ),
      ),
    ),
  ),
)
  where
    at :
        (q s : ℕ)
        → ltb s 64 ≡ true
        → Appends register_fields
            ((q, s), rd, rn, rm)
            e
            (emit (q * 2 ^ 21 + s * 2 ^ 10 ||| shl32 rm 16 ||| shl32 rn 5 ||| rd) e)
    at q s h = Appends-fields q s rd rn rm e (ltb→lt s 64 h) ld ln lm
