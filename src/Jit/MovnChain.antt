-- ===== src/Jit/MovnChain.antt =====
-- The loop over MOVN and MOVK in `mov_imm64` (src/randomx/jit/aarch64.rs).
use miner_tim.Common.{
  ℕ, ◌-◌, ◌*◌, ◌/◌, ◌%◌, ◌^◌, ◌<◌, ◌≡◌, ◌⊎◌, inl, inr, refl, sym, arith, Bool, true, false, not,
  ◌||◌, ◌∙◌, ◌==◌, ltb, Bool-cases, subst,
}
use miner_tim.Jit.Emitter.{Emitter}
use miner_tim.Jit.Loads.{Loads, Loads-movn, Loads-movk}
use miner_tim.Jit.Moves.{movn, chunk, complement, first_chunk, keep_chunk, movn_round}
use miner_tim.Jit.Chunks.{chunk-lt, set_lane, kept_lane, chunk-complement, chunks_sum}

module _ (rd v imm : ℕ) (e : Emitter) (ld : rd < 2 ^ 5) where
  movn_round_later :
      (i x : ℕ) (e' : Emitter)
      → i < 4
      → imm < 2 ^ 64
      → (x / 2 ^ (16 * i) % 2 ^ 16 ≡ 0xFFFF) ⊎ (x / 2 ^ (16 * i) % 2 ^ 16 ≡ chunk imm i)
      → Loads rd v e e' x
      → ((movn_round rd imm i (false, e')).0 ≡ false)
        × Loads rd v e (movn_round rd imm i (false, e')).1 (set_lane x i (chunk imm i))
  unfolding movn_round keep_chunk
  movn_round_later i x e' li lt lane h = elim (Bool-cases (chunk (complement imm) i == 0)) [
    | inl unused ↦
        rw (unused, movn_round)
          (
            refl,
            subst (λ (y : ℕ). Loads rd v e e' y)
                (kept_lane x i (chunk imm i) li
                  (in_place (omega (arith, chunk-complement imm i li lt, empty unused))))
                h,
          )
    | inr used ↦ elim (Bool-cases (chunk imm i == 0xFFFF)) [
      | inl full ↦
          rw (used, full, movn_round, keep_chunk)
            (
              refl,
              subst (λ (y : ℕ). Loads rd v e e' y)
                  (kept_lane x i (chunk imm i) li (in_place (full_lane full))) h,
            )
      | inr other ↦
          rw (used, other, movn_round, keep_chunk)
            (refl, Loads-movk rd v ld i (chunk imm i) x e e' li (chunk-lt imm i) h)
    ]
  ]
    where
      empty : (chunk (complement imm) i == 0) ≡ true → chunk (complement imm) i ≡ 0
      empty h = ground arith

      full_lane : (chunk imm i == 0xFFFF) ≡ true → chunk imm i ≡ 0xFFFF
      full_lane h = ground arith

      in_place : chunk imm i ≡ 0xFFFF → x / 2 ^ (16 * i) % 2 ^ 16 ≡ chunk imm i
      in_place full = elim lane [ inl l ↦ l ∙ sym full | inr l ↦ l ]

  -- Lane `i` is all ones or already that of the number.
  abbrev Lane : ℕ → ℕ → Type 0
  Lane i x = (x / 2 ^ (16 * i) % 2 ^ 16 ≡ 0xFFFF) ⊎ (x / 2 ^ (16 * i) % 2 ^ 16 ≡ chunk imm i)

  -- After the first round, lane 0 is in place.
  abbrev FirstMove : Bool × Emitter → Type 0
  FirstMove s =
      (x : ℕ) × (s.0 ≡ false)
      × Loads rd v e s.1 x
      × (x < 2 ^ 64)
      × (x % 2 ^ 16 ≡ chunk imm 0)
      × Lane 1 x
      × Lane 2 x
      × Lane 3 x

  first_round_eq : movn_round rd imm 0 (true, e) ≡ (
    false,
    movn rd
        (chunk (complement imm) (first_chunk (complement imm)))
        (first_chunk (complement imm) * 16)
        e,
  )
  unfolding movn_round
  first_round_eq =
      rw
        (or_true (not (chunk (complement imm) 0 == 0)), before_or_at (first_chunk (complement imm)))
        refl
    where
      or_true : (b : Bool) → (b || true) ≡ true
      or_true true = refl
      or_true false = refl

      before_or_at : (k : ℕ) → (ltb 0 k || 0 == k) ≡ true
      before_or_at k = ground arith

  first_chunk_cases :
      (y : ℕ)
      → (first_chunk y ≡ 0)
        ⊎ (first_chunk y ≡ 1) × (chunk y 0 ≡ 0)
        ⊎ (first_chunk y ≡ 2) × (chunk y 0 ≡ 0)
        ⊎ (first_chunk y ≡ 3) × (chunk y 0 ≡ 0)
  unfolding first_chunk
  first_chunk_cases y = ground arith

  first_move : imm < 2 ^ 64 → FirstMove (movn_round rd imm 0 (true, e))
  first_move lt = rw first_round_eq (elim (first_chunk_cases (complement imm)) [
    | inl e0 ↦ rw e0 (
      2 ^ 64 - 1 - chunk (complement imm) 0 * 2 ^ (16 * 0),
      refl,
      Loads-movn rd v ld 0 (chunk (complement imm) 0) e (omega arith) (chunk-lt (complement imm) 0),
      omega arith,
      omega (
        arith,
        chunk-complement imm 0 (omega arith) lt,
        chunk-complement imm 0 (omega arith) lt,
        chunk-lt (complement imm) 0,
      ),
      inl (
          omega (
            arith,
            chunk-complement imm 0 (omega arith) lt,
            chunk-complement imm 0 (omega arith) lt,
            chunk-lt (complement imm) 0,
          )),
      inl (
          omega (
            arith,
            chunk-complement imm 0 (omega arith) lt,
            chunk-complement imm 0 (omega arith) lt,
            chunk-lt (complement imm) 0,
          )),
      inl (
          omega (
            arith,
            chunk-complement imm 0 (omega arith) lt,
            chunk-complement imm 0 (omega arith) lt,
            chunk-lt (complement imm) 0,
          )),
    )
    | inr (inl (e1, z)) ↦ rw e1 (
      2 ^ 64 - 1 - chunk (complement imm) 1 * 2 ^ (16 * 1),
      refl,
      Loads-movn rd v ld 1 (chunk (complement imm) 1) e (omega arith) (chunk-lt (complement imm) 1),
      omega arith,
      omega (
        arith,
        chunk-complement imm 0 (omega arith) lt,
        chunk-complement imm 1 (omega arith) lt,
        chunk-lt (complement imm) 1,
      ),
      inr (
          omega (
            arith,
            chunk-complement imm 0 (omega arith) lt,
            chunk-complement imm 1 (omega arith) lt,
            chunk-lt (complement imm) 1,
          )),
      inl (
          omega (
            arith,
            chunk-complement imm 0 (omega arith) lt,
            chunk-complement imm 1 (omega arith) lt,
            chunk-lt (complement imm) 1,
          )),
      inl (
          omega (
            arith,
            chunk-complement imm 0 (omega arith) lt,
            chunk-complement imm 1 (omega arith) lt,
            chunk-lt (complement imm) 1,
          )),
    )
    | inr (inr (inl (e2, z))) ↦ rw e2 (
      2 ^ 64 - 1 - chunk (complement imm) 2 * 2 ^ (16 * 2),
      refl,
      Loads-movn rd v ld 2 (chunk (complement imm) 2) e (omega arith) (chunk-lt (complement imm) 2),
      omega arith,
      omega (
        arith,
        chunk-complement imm 0 (omega arith) lt,
        chunk-complement imm 2 (omega arith) lt,
        chunk-lt (complement imm) 2,
      ),
      inl (
          omega (
            arith,
            chunk-complement imm 0 (omega arith) lt,
            chunk-complement imm 2 (omega arith) lt,
            chunk-lt (complement imm) 2,
          )),
      inr (
          omega (
            arith,
            chunk-complement imm 0 (omega arith) lt,
            chunk-complement imm 2 (omega arith) lt,
            chunk-lt (complement imm) 2,
          )),
      inl (
          omega (
            arith,
            chunk-complement imm 0 (omega arith) lt,
            chunk-complement imm 2 (omega arith) lt,
            chunk-lt (complement imm) 2,
          )),
    )
    | inr (inr (inr (e3, z))) ↦ rw e3 (
      2 ^ 64 - 1 - chunk (complement imm) 3 * 2 ^ (16 * 3),
      refl,
      Loads-movn rd v ld 3 (chunk (complement imm) 3) e (omega arith) (chunk-lt (complement imm) 3),
      omega arith,
      omega (
        arith,
        chunk-complement imm 0 (omega arith) lt,
        chunk-complement imm 3 (omega arith) lt,
        chunk-lt (complement imm) 3,
      ),
      inl (
          omega (
            arith,
            chunk-complement imm 0 (omega arith) lt,
            chunk-complement imm 3 (omega arith) lt,
            chunk-lt (complement imm) 3,
          )),
      inl (
          omega (
            arith,
            chunk-complement imm 0 (omega arith) lt,
            chunk-complement imm 3 (omega arith) lt,
            chunk-lt (complement imm) 3,
          )),
      inr (
          omega (
            arith,
            chunk-complement imm 0 (omega arith) lt,
            chunk-complement imm 3 (omega arith) lt,
            chunk-lt (complement imm) 3,
          )),
    )
  ])

  pub movn_chain :
      imm < 2 ^ 64
      → Loads rd v e
          (movn_round rd imm 3
            (movn_round rd imm 2 (movn_round rd imm 1 (movn_round rd imm 0 (true, e))))).1
          imm
  movn_chain lt =
      let (x, f0, h0, small, l0, l1, l2, l3) = first_move lt in
      let s0 = movn_round rd imm 0 (true, e) in
      let (f1, h1) = later 1 s0 x f0 (omega arith) lt l1 h0 in
      let x1 : ℕ = set_lane x 1 (chunk imm 1) in
      let s1 = movn_round rd imm 1 s0 in
      let (f2, h2) =
        later 2 s1 x1 f1 (omega arith) lt (same_lane 2 x x1 (omega (arith, chunk-lt imm 1)) l2)
          h1 in
      let x2 : ℕ = set_lane x1 2 (chunk imm 2) in
      let s2 = movn_round rd imm 2 s1 in
      let (f3, h3) =
        later 3 s2 x2 f2 (omega arith) lt
          (same_lane 3 x x2 (omega (arith, chunk-lt imm 1, chunk-lt imm 2)) l3) h2 in
      subst (λ (y : ℕ). Loads rd v e (movn_round rd imm 3 s2).1 y) (last_value x small l0) h3
    where
      later :
          (i : ℕ) (s : Bool × Emitter) (x : ℕ)
          → s.0 ≡ false
          → i < 4
          → imm < 2 ^ 64
          → Lane i x
          → Loads rd v e s.1 x
          → ((movn_round rd imm i s).0 ≡ false)
            × Loads rd v e (movn_round rd imm i s).1 (set_lane x i (chunk imm i))
      later i (true, e') x f li lt l h = cc
      later i (false, e') x f li lt l h = movn_round_later i x e' li lt l h

      same_lane :
          (i x y : ℕ) → y / 2 ^ (16 * i) % 2 ^ 16 ≡ x / 2 ^ (16 * i) % 2 ^ 16 → Lane i x → Lane i y
      same_lane i x y same (inl l) = inl (same ∙ l)
      same_lane i x y same (inr l) = inr (same ∙ l)

      last_value :
          (x : ℕ)
          → x < 2 ^ 64
          → x % 2 ^ 16 ≡ chunk imm 0
          → set_lane (set_lane (set_lane x 1 (chunk imm 1)) 2 (chunk imm 2)) 3 (chunk imm 3) ≡ imm
      last_value x small l0 =
          omega (arith, chunks_sum imm lt, chunk-lt imm 1, chunk-lt imm 2, chunk-lt imm 3)
