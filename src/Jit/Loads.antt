-- ===== src/Jit/Loads.antt =====
-- What wide moves leave in their register.
use miner_tim.Common.{
  ℕ, ◌+◌, ◌-◌, ◌*◌, ◌/◌, ◌%◌, ◌^◌, ◌<◌, ◌≡◌, inl, inr, refl, sym, arith, List, [], ◌∷◌, ◌++◌,
  Option, none, some, true, bit_or, bit_and, ap, ap₂, ◌∙◌, ◌==◌, if◌then◌else◌, Option-cases, ◌>>=◌,
}
use mathlib.Core.List.{append_assoc}
use miner_tim.Common.Bits.{bit_or_disjoint, bit_and_low}
use miner_tim.Jit.Emitter.{Emitter, emit, ◌|||◌, shl32}
use miner_tim.Jit.Moves.{movz, movk, movn}

-- What a wide move with this opcode, position and 16 bits makes of the value of its register, as
-- the architecture has it: MOVZ, MOVN and MOVK.
abbrev pub effect : ℕ → ℕ → ℕ → ℕ → Option ℕ
effect op hw imm16 v =
    let p : ℕ = 2 ^ (16 * hw) in
    if op == 0x1A5
    then some (imm16 * p)
    else if op == 0x125
    then some (2 ^ 64 - 1 - imm16 * p)
    else if op == 0x1E5
    then some (v - v / p % 2 ^ 16 * p + imm16 * p)
    else none

-- One word, as far as it is a wide move to `rd`.
abbrev pub step : ℕ → ℕ → ℕ → Option ℕ
step rd w v =
    if w % 2 ^ 5 == rd then effect (w / 2 ^ 23) (w / 2 ^ 21 % 4) (w / 2 ^ 5 % 2 ^ 16) v else none

abbrev pub run : ℕ → List ℕ → ℕ → Option ℕ
run rd [] v = some v
run rd (w ∷ ws) v = step rd w v >>= run rd ws

-- The words that were appended take the value of `rd` from `v` to `x`.
abbrev pub Loads : ℕ → ℕ → Emitter → Emitter → ℕ → Type 0
Loads rd v e e' x = (ws : List ℕ) × (e'.code ≡ e.code ++ ws) × (run rd ws v ≡ some x)

move_word :
    (op hw c rd : ℕ)
    → hw < 4
    → c < 2 ^ 16
    → rd < 2 ^ 5
    → (op * 2 ^ 23 ||| shl32 hw 21 ||| shl32 (bit_and c 0xFFFF) 5 ||| rd)
      ≡ op * 2 ^ 23 + hw * 2 ^ 21 + c * 2 ^ 5 + rd
move_word op hw c rd lh lc ld =
    ap (λ (x : ℕ). bit_or (bit_or x (shl32 (bit_and c 0xFFFF) 5)) rd)
      (ap (bit_or (op * 2 ^ 23)) (omega arith) ∙ bit_or_disjoint 23 op (hw * 2 ^ 21) (omega arith))
    ∙ ap (λ (x : ℕ). bit_or x rd)
        (ap₂ bit_or (omega arith) (omega (arith, bit_and_low 16 c))
          ∙ bit_or_disjoint 21 (op * 4 + hw) (c * 2 ^ 5) (omega arith))
    ∙ ap (λ (x : ℕ). bit_or x rd) (omega arith)
    ∙ bit_or_disjoint 5 ((op * 4 + hw) * 2 ^ 16 + c) rd ld
    ∙ omega arith

run_append :
    (rd v x y w : ℕ) (ws : List ℕ)
    → run rd ws v ≡ some x
    → step rd w x ≡ some y
    → run rd (ws ++ w ∷ []) v ≡ some y
run_append rd v x y w [] h s = ground (arith, s)
run_append rd v x y w (u ∷ ws) h s = elim (Option-cases (step rd u v)) [
  | inl e ↦ absurd (nothing_some (ap (λ o. o >>= run rd ws) (sym e) ∙ h))
  | inr (z, e) ↦
      ap (λ o. o >>= run rd (ws ++ w ∷ [])) e
      ∙ run_append rd z x y w ws (ap (λ o. o >>= run rd ws) (sym e) ∙ h) s
]
  where
    nothing_some : none ≡ some x → ⊥
    nothing_some h = cc

step_word :
    (op hw c rd v : ℕ)
    → hw < 4
    → c < 2 ^ 16
    → rd < 2 ^ 5
    → step rd (op * 2 ^ 23 ||| shl32 (hw * 16 / 16) 21 ||| shl32 (bit_and c 0xFFFF) 5 ||| rd) v
      ≡ effect op hw c v
step_word op hw c rd v lh lc ld =
    ap (λ (x : ℕ). step rd (op * 2 ^ 23 ||| shl32 x 21 ||| shl32 (bit_and c 0xFFFF) 5 ||| rd) v)
      (omega arith)
    ∙ ap (λ (x : ℕ). step rd x v) (move_word op hw c rd lh lc ld)
    ∙ read
  where
    read : step rd (op * 2 ^ 23 + hw * 2 ^ 21 + c * 2 ^ 5 + rd) v ≡ effect op hw c v
    read =
        let w : ℕ = op * 2 ^ 23 + hw * 2 ^ 21 + c * 2 ^ 5 + rd in
        let mine : (w % 2 ^ 5 == rd) ≡ true = ground arith in
        let op_field : w / 2 ^ 23 ≡ op = omega arith in
        let hw_field : w / 2 ^ 21 % 4 ≡ hw = omega arith in
        let imm_field : w / 2 ^ 5 % 2 ^ 16 ≡ c = omega arith in
        ap (λ b. if b then effect (w / 2 ^ 23) (w / 2 ^ 21 % 4) (w / 2 ^ 5 % 2 ^ 16) v else none)
          mine
        ∙ ap (λ (x : ℕ). effect x (w / 2 ^ 21 % 4) (w / 2 ^ 5 % 2 ^ 16) v) op_field
        ∙ ap (λ (x : ℕ). effect op x (w / 2 ^ 5 % 2 ^ 16) v) hw_field
        ∙ ap (λ (x : ℕ). effect op hw x v) imm_field

module _ (rd v : ℕ) (ld : rd < 2 ^ 5) where
  pub Loads-movz :
      (hw c : ℕ) (e : Emitter)
      → hw < 4
      → c < 2 ^ 16
      → Loads rd v e (movz rd c (hw * 16) e) (c * 2 ^ (16 * hw))
  unfolding movz emit
  Loads-movz hw c e lh lc =
      (_, refl, ap (λ o. o >>= run rd []) (step_word 0x1A5 hw c rd v lh lc ld))

  pub Loads-movn :
      (hw c : ℕ) (e : Emitter)
      → hw < 4
      → c < 2 ^ 16
      → Loads rd v e (movn rd c (hw * 16) e) (2 ^ 64 - 1 - c * 2 ^ (16 * hw))
  unfolding movn emit
  Loads-movn hw c e lh lc =
      (_, refl, ap (λ o. o >>= run rd []) (step_word 0x125 hw c rd v lh lc ld))

  pub Loads-movk :
      (hw c x : ℕ) (e e' : Emitter)
      → hw < 4
      → c < 2 ^ 16
      → Loads rd v e e' x
      → Loads rd v e
          (movk rd c (hw * 16) e')
          (x - x / 2 ^ (16 * hw) % 2 ^ 16 * 2 ^ (16 * hw) + c * 2 ^ (16 * hw))
  unfolding movk emit
  Loads-movk hw c x e e' lh lc (ws, code, value) = (
    _,
    ap
          (λ (l : List ℕ).
            l
            ++ (0x1E5 * 2 ^ 23 ||| shl32 (hw * 16 / 16) 21 ||| shl32 (bit_and c 0xFFFF) 5 ||| rd)
              ∷ [])
          code
        ∙ append_assoc e.code ws _,
    run_append rd v x _ _ ws value (step_word 0x1E5 hw c rd x lh lc ld),
  )
