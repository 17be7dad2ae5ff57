-- ===== src/RandomX/Aes/Streams.antt =====
-- What the generators of src/randomx/aes_hash.rs write: it depends only on the state and the length.
use miner_tim.Common.{
  ℕ, zero, suc, ◌+◌, ◌*◌, ◌/◌, ◌%◌, ◌≡◌, refl, sym, ap, ◌∙◌, arith, none, some, ==_iff, ◌==◌, Bytes,
  [], ◌∷◌, ◌++◌, length, length-append, take, All, All-append, if◌then◌else◌,
}
use mathlib.Core.List.{append_assoc, append-nil}
use miner_tim.RandomX.Program.{IsByte}
use miner_tim.RandomX.Safety.{Post}
use miner_tim.RandomX.Aes.{
  AesRounds, Lanes, load_lanes, store_lanes, round_1r, round_4r, fill_from, fill_aes_1rx4,
  fill_aes_4rx4,
}
use miner_tim.RandomX.Aes.Slices.{AreBlocks, row, length-store_lanes, take-store_lanes}
use miner_tim.RandomX.Aes.Fused.{round_1r-AreBlocks, round_4r-AreBlocks}

module _ (aes : AesRounds) where
  module _ (round : Lanes → Lanes) (blocks : (s : Lanes) → AreBlocks (round s)) where
    -- The rows that a generator makes.
    unfoldable pub stream : ℕ → Lanes → Bytes
    stream zero s = []
    stream (suc rounds) s = row (round s) ++ stream rounds (round s)

    take-all : (n : ℕ) (xs : Bytes) → length xs ≡ n → take n xs ≡ xs
    take-all n [] e = rw (sym e) refl
    take-all zero (x ∷ xs) e = absurd (omega arith)
    take-all (suc n) (x ∷ xs) e = ap (λ ys. x ∷ ys) (take-all n xs (omega arith))

    fill_from-stream :
        (rounds offset : ℕ) (s : Lanes) (target : Bytes)
        → length target ≡ offset + 64 * rounds
        → (fill_from aes round rounds offset s target).1 ≡ take offset target ++ stream rounds s
    unfolding fill_from stream
    fill_from-stream zero offset s target e =
        sym (take-all offset target (omega arith)) ∙ sym (append-nil (take offset target))
    fill_from-stream (suc rounds) offset s target e =
        let after = store_lanes target offset (round s) in
        fill_from-stream rounds (offset + 64) (round s) after
          (length-store_lanes target offset (round s) (blocks s) (omega arith) ∙ omega arith)
        ∙ ap (λ x. x ++ stream rounds (round s))
            (take-store_lanes target offset (round s) (blocks s) (omega arith))
        ∙ append_assoc (take offset target) (row (round s)) (stream rounds (round s))

    -- The state a fill ends in does not depend on what it overwrites.
    fill_from-state :
        (rounds offset : ℕ) (s : Lanes) (xs ys : Bytes)
        → (fill_from aes round rounds offset s xs).0 ≡ (fill_from aes round rounds offset s ys).0
    unfolding fill_from
    fill_from-state zero offset s xs ys = refl
    fill_from-state (suc rounds) offset s xs ys = fill_from-state rounds (offset + 64) (round s) _ _

    length-stream : (rounds : ℕ) (s : Lanes) → length (stream rounds s) ≡ 64 * rounds
    unfolding stream
    length-stream zero s = omega arith
    length-stream (suc rounds) s =
        let t = round s in
        omega (
          arith,
          blocks s,
          length-append (row t) (stream rounds t),
          length-append t.s0 (t.s1 ++ (t.s2 ++ t.s3)),
          length-append t.s1 (t.s2 ++ t.s3),
          length-append t.s2 t.s3,
          length-stream rounds t,
        )

    stream-IsByte :
        ((s : Lanes) → All IsByte (row (round s)))
        → (rounds : ℕ) (s : Lanes) → All IsByte (stream rounds s)
    unfolding stream
    stream-IsByte bytes zero s = tt
    stream-IsByte bytes (suc rounds) s =
        All-append IsByte (row (round s)) (stream rounds (round s)) (bytes s)
          (stream-IsByte bytes rounds (round s))

    -- A fill of a whole slice.
    fill-stream :
        (s : Lanes) (target : Bytes)
        → length target % 64 ≡ 0
        → (fill_from aes round (length target / 64) 0 s target).1 ≡ stream (length target / 64) s
    fill-stream s target e = fill_from-stream (length target / 64) 0 s target (omega arith)

  row_4r-IsByte : (s : Lanes) → All IsByte (row (round_4r aes s))
  unfolding round_4r
  row_4r-IsByte s = All-append IsByte _ _ (aes.dec-IsByte _ _) (
      All-append IsByte _ _ (aes.enc-IsByte _ _)
        (All-append IsByte _ _ (aes.dec-IsByte _ _) (aes.enc-IsByte _ _)))

  -- The same state fills two slices of one length with the same bytes, and ends in the same state.
  pub fill_aes_1rx4-length :
      (state xs ys : Bytes)
      → length xs ≡ length ys
      → length xs % 64 ≡ 0
      → fill_aes_1rx4 aes state xs ≡ fill_aes_1rx4 aes state ys
  unfolding fill_aes_1rx4
  fill_aes_1rx4-length state xs ys e whole =
      let s = load_lanes state 0 in
      let n = length xs / 64 in
      let fill : ℕ → Bytes → Lanes × Bytes = λ k zs. fill_from aes (round_1r aes) k 0 s zs in
      let filled : (fill n xs).1 ≡ (fill (length ys / 64) ys).1 =
        fill-stream (round_1r aes) (round_1r-AreBlocks aes) s xs whole
        ∙ ap (λ k. stream (round_1r aes) (round_1r-AreBlocks aes) (k / 64) s) e
        ∙ sym (fill-stream (round_1r aes) (round_1r-AreBlocks aes) s ys (omega arith)) in
      let ended : (fill n xs).0 ≡ (fill (length ys / 64) ys).0 =
        fill_from-state (round_1r aes) (round_1r-AreBlocks aes) n 0 s xs ys
        ∙ ap (λ k. (fill (k / 64) ys).0) e in
      λ i. if e i % 64 == 0 then some (store_lanes state 0 (ended i), filled i) else none

  -- The generator of programs completes on whole rows, with bytes that are the same for every slice
  -- of the length.
  abbrev pub program_stream : Bytes → ℕ → Bytes
  program_stream state n =
      stream (round_4r aes) (round_4r-AreBlocks aes) (n / 64) (load_lanes state 0)

  pub fill_aes_4rx4-stream :
      (state target : Bytes)
      → length target % 64 ≡ 0
      → fill_aes_4rx4 aes state target ≡ some (program_stream state (length target))
  unfolding fill_aes_4rx4
  fill_aes_4rx4-stream state target whole = rw ((==_iff (length target % 64) 0).1 whole) (
      ap some
        (fill-stream (round_4r aes) (round_4r-AreBlocks aes) (load_lanes state 0) target whole))

  pub length-program_stream :
      (state : Bytes) (n : ℕ) → n % 64 ≡ 0 → length (program_stream state n) ≡ n
  length-program_stream state n e =
      length-stream (round_4r aes) (round_4r-AreBlocks aes) (n / 64) (load_lanes state 0)
      ∙ omega arith

  pub program_stream-IsByte : (state : Bytes) (n : ℕ) → All IsByte (program_stream state n)
  program_stream-IsByte state n =
      stream-IsByte (round_4r aes) (round_4r-AreBlocks aes) row_4r-IsByte (n / 64)
        (load_lanes state 0)

  pub fill_aes_1rx4-length-Post :
      (state target : Bytes)
      → length target % 64 ≡ 0
      → Post (λ (r : Bytes × Bytes). length (r.1) ≡ length target) (fill_aes_1rx4 aes state target)
  unfolding fill_aes_1rx4
  fill_aes_1rx4-length-Post state target whole = rw ((==_iff (length target % 64) 0).1 whole) (
      ap length
        (fill-stream (round_1r aes) (round_1r-AreBlocks aes) (load_lanes state 0) target whole)
      ∙ length-stream (round_1r aes) (round_1r-AreBlocks aes) (length target / 64)
          (load_lanes state 0)
      ∙ omega arith)
