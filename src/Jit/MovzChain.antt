-- ===== src/Jit/MovzChain.antt =====
-- The loop over MOVZ and MOVK in `mov_imm64` (src/randomx/jit/aarch64.rs).
use miner_tim.Common.{
  ℕ, ◌+◌, ◌*◌, ◌^◌, ◌<◌, ◌≡◌, inl, inr, refl, sym, arith, Bool, true, false, ap, ◌∙◌, ◌==◌,
  Bool-cases, subst,
}
use miner_tim.Jit.Emitter.{Emitter}
use miner_tim.Jit.Loads.{Loads, Loads-movz, Loads-movk}
use miner_tim.Jit.Moves.{movz, movk, chunk, movz_round}
use miner_tim.Jit.Chunks.{chunk-lt, chunks_sum, set_lane_free}

module _ (rd v imm : ℕ) (e : Emitter) (ld : rd < 2 ^ 5) where
  -- Up to the first move, nothing is emitted and the number so far is zero.
  abbrev Started : Bool → Emitter → ℕ → Type 0
  Started true e' x = (e' ≡ e) × (x ≡ 0)
  Started false e' x = Loads rd v e e' x

  zero_product : (i x : ℕ) → (chunk imm i == 0) ≡ true → x ≡ x + chunk imm i * 2 ^ (16 * i)
  zero_product i x h = let z : chunk imm i ≡ 0 = ground arith in rw z (omega arith)

  movz_round-Started :
      (i x : ℕ) (first : Bool) (e' : Emitter)
      → i < 4
      → x < 2 ^ (16 * i)
      → Started first e' x
      → Started
          (movz_round rd imm i (first, e')).0
          (movz_round rd imm i (first, e')).1
          (x + chunk imm i * 2 ^ (16 * i))
  unfolding movz_round
  movz_round-Started i x true e' li lt (same, zero_yet) = elim (Bool-cases (chunk imm i == 0)) [
    | inr used ↦ rw (used, movz_round) moved
    | inl unused ↦ elim (Bool-cases (i == 3)) [
      | inl last ↦ rw (unused, last, movz_round) moved
      | inr other ↦
          rw (unused, other, movz_round)
            (
              same,
              sym (
                  zero_product i 0 unused
                  ∙ ap (λ (y : ℕ). y + chunk imm i * 2 ^ (16 * i)) (sym zero_yet)),
            )
    ]
  ]
    where
      moved : Loads rd v e (movz rd (chunk imm i) (i * 16) e') (x + chunk imm i * 2 ^ (16 * i))
      moved =
          subst
            (λ e''.
              Loads rd v e (movz rd (chunk imm i) (i * 16) e'') (x + chunk imm i * 2 ^ (16 * i)))
            (sym same)
            (subst
              (λ (y : ℕ).
                Loads rd v e (movz rd (chunk imm i) (i * 16) e) (y + chunk imm i * 2 ^ (16 * i)))
              (sym zero_yet)
              (subst (λ (y : ℕ). Loads rd v e (movz rd (chunk imm i) (i * 16) e) y) (omega arith)
                (Loads-movz rd v ld i (chunk imm i) e li (chunk-lt imm i))))
  movz_round-Started i x false e' li lt h = elim (Bool-cases (chunk imm i == 0)) [
    | inr used ↦
        rw (used, movz_round)
          (subst (λ (y : ℕ). Loads rd v e (movk rd (chunk imm i) (i * 16) e') y)
            (set_lane_free x i (chunk imm i) lt)
            (Loads-movk rd v ld i (chunk imm i) x e e' li (chunk-lt imm i) h))
    | inl unused ↦
        rw (unused, movz_round) (subst (λ (y : ℕ). Loads rd v e e' y) (zero_product i x unused) h)
  ]

  -- The chain of MOVZ and MOVK.
  pub movz_chain :
      imm < 2 ^ 64
      → Loads rd v e
          (movz_round rd imm 3
            (movz_round rd imm 2 (movz_round rd imm 1 (movz_round rd imm 0 (true, e))))).1
          imm
  movz_chain lt =
      let s0 = movz_round rd imm 0 (true, e) in
      let s1 = movz_round rd imm 1 s0 in
      let s2 = movz_round rd imm 2 s1 in
      let h0 = movz_round-Started 0 0 true e (omega arith) (omega arith) (refl, refl) in
      let h1 = movz_round-Started 1 _ s0.0 s0.1 (omega arith) (omega (arith, chunk-lt imm 0)) h0 in
      let h2 =
        movz_round-Started 2 _ s1.0 s1.1 (omega arith)
          (omega (arith, chunk-lt imm 0, chunk-lt imm 1)) h1 in
      let h3 =
        movz_round-Started 3 _ s2.0 s2.1 (omega arith)
          (omega (arith, chunk-lt imm 0, chunk-lt imm 1, chunk-lt imm 2)) h2 in
      begun (movz_round rd imm 3 s2) (last_round s2) _ h3 (omega (arith, chunks_sum imm lt))
    where
      last_round : (s : Bool × Emitter) → (movz_round rd imm 3 s).0 ≡ false
      last_round (true, e') = unfold movz_round in ground arith
      last_round (false, e') = unfold movz_round in ground arith

      begun :
          (s : Bool × Emitter)
          → s.0 ≡ false
          → (x : ℕ) → Started s.0 s.1 x
          → x ≡ imm
          → Loads rd v e s.1 imm
      begun (true, e') f x h same = cc
      begun (false, e') f x h same = subst (λ (y : ℕ). Loads rd v e e' y) same h
