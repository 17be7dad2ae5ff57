-- ===== src/RandomX/Quotients.antt =====
-- Numbers by quotient and remainder: what adding the constant of a branch does to the remainder.
use miner_tim.Common.{ℕ, ◌+◌, ◌*◌, ◌%◌, ◌≤◌, ◌<◌, ◌≡◌, ap, arith}
use miner_tim.Common.{◌⊎◌, inl, inr}
use native.Mathlib.Nat.{add-mul, mul_assoc, mul_left_comm, mul-le-mul_right}

le-or-lt : (a b : ℕ) → (a ≤ b) ⊎ (b < a)
le-or-lt a b = ground arith

module _ (M : ℕ) where
  -- A number whose quotient by `M` is `m` modulo 4, with the given remainder, which may be larger
  -- than `M`.
  abbrev pub Parts : ℕ → ℕ → ℕ → Type 0
  Parts m x r = (q : ℕ) × ((q % 4 ≡ m) × (x ≡ q * M + r))

  below : (p q a b : ℕ) → a < 3 * M → p * M + a ≡ q * M + b → q < p + 3
  below p q a b ha e = elim (le-or-lt (p + 3) q) [
    | inl h ↦ absurd (omega (arith, mul-le-mul_right M h, add-mul p 3 M))
    | inr h ↦ h
  ]

  above : (p q a b : ℕ) → b < 2 * M → p * M + a ≡ q * M + b → p < q + 2
  above p q a b hb e = elim (le-or-lt (q + 2) p) [
    | inl h ↦ absurd (omega (arith, mul-le-mul_right M h, add-mul q 2 M))
    | inr h ↦ h
  ]

  -- Two ways to write one number: the remainders differ by as much as the quotients do.
  quotients :
      (p q a b : ℕ)
      → p % 4 ≡ 2
      → q % 4 ≡ 0
      → a < 3 * M
      → b < 2 * M
      → p * M + a ≡ q * M + b
      → b + 2 * M ≡ a
  quotients p q a b hp hq ha hb e =
      let two_apart : q ≡ p + 2 = omega (arith, below p q a b ha e, above p q a b hb e) in
      omega (arith, ap (λ (t : ℕ). t * M) two_apart, add-mul p 2 M)

  -- The remainder drops by `2 * M`, less what the constant has below `M`, at each jump.
  pub drops :
      (x y imm c wraps xr yr ir : ℕ)
      → Parts 0 x xr
      → Parts 0 y yr
      → Parts 2 imm ir
      → xr < 2 * M
      → yr < 2 * M
      → ir < M
      → x + imm ≡ y + wraps * (4 * c * M)
      → yr + 2 * M ≡ xr + ir
  drops x y imm c wraps xr yr ir (qx, (hx, ex)) (qy, (hy, ey)) (qi, (hi, ei)) lx ly li e =
      quotients (qx + qi) (qy + 4 * (wraps * c)) (xr + ir) yr (omega arith) (omega arith)
        (omega arith) ly
        (omega (
          arith,
          add-mul qx qi M,
          add-mul qy (4 * (wraps * c)) M,
          mul_assoc wraps (4 * c) M,
          ap (λ (t : ℕ). t * M) (mul_left_comm 4 wraps c),
        ))
