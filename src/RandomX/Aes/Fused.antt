-- ===== src/RandomX/Aes/Fused.antt =====
-- `hash_and_fill_aes_1rx4` against `hash_aes_1rx4` and `fill_aes_1rx4`, and what the fills depend on
-- (src/randomx/aes_hash.rs).
use miner_tim.Common.{
  ℕ, zero, suc, ◌+◌, ◌/◌, ◌%◌, ◌≡◌, refl, ap, ◌∙◌, some, inl, inr, Bool-cases, ◌==◌, Bytes, length,
  drop, ◌>>=◌, replicate,
}
use miner_tim.RandomX.Aes.{
  AesRounds, Lanes, hash_1r_state, load_lanes, store_lanes, round_1r, round_4r, hash_round,
  hash_end, fill_from, hash_from, hash_and_fill_from, fill_aes_1rx4, hash_aes_1rx4,
  hash_and_fill_aes_1rx4,
}
use miner_tim.RandomX.Aes.Slices.{AreBlocks, drop-store_lanes, load_lanes-drop, drop-more}

module _ (aes : AesRounds) where
  pub round_1r-AreBlocks : (s : Lanes) → AreBlocks (round_1r aes s)
  unfolding round_1r
  round_1r-AreBlocks s =
      (aes.length-dec _ _, aes.length-enc _ _, aes.length-dec _ _, aes.length-enc _ _)

  pub round_4r-AreBlocks : (s : Lanes) → AreBlocks (round_4r aes s)
  unfolding round_4r
  round_4r-AreBlocks s =
      (aes.length-dec _ _, aes.length-enc _ _, aes.length-dec _ _, aes.length-enc _ _)

  -- The hash reads only what is left of its input.
  hash_from-drop :
      (rounds offset : ℕ) (s : Lanes) (xs ys : Bytes)
      → drop offset xs ≡ drop offset ys
      → hash_from aes rounds offset s xs ≡ hash_from aes rounds offset s ys
  unfolding hash_from
  hash_from-drop zero offset s xs ys e = refl
  hash_from-drop (suc rounds) offset s xs ys e =
      ap (λ r. hash_from aes rounds (offset + 64) (hash_round aes s r) xs)
        (load_lanes-drop xs ys offset e)
      ∙ hash_from-drop rounds (offset + 64) _ xs ys (drop-more xs ys offset 64 e)

  hash_and_fill_from-split :
      (rounds offset : ℕ) (hs fs : Lanes) (scratchpad : Bytes)
      → hash_and_fill_from aes rounds offset hs fs scratchpad ≡ (
        hash_from aes rounds offset hs scratchpad,
        (fill_from aes (round_1r aes) rounds offset fs scratchpad).0,
        (fill_from aes (round_1r aes) rounds offset fs scratchpad).1,
      )
  unfolding hash_and_fill_from hash_from fill_from
  hash_and_fill_from-split zero offset hs fs scratchpad = refl
  hash_and_fill_from-split (suc rounds) offset hs fs scratchpad =
      let hs' = hash_round aes hs (load_lanes scratchpad offset) in
      let fs' = round_1r aes fs in
      let after = store_lanes scratchpad offset fs' in
      let filled = fill_from aes (round_1r aes) rounds (offset + 64) fs' after in
      hash_and_fill_from-split rounds (offset + 64) hs' fs' after
      ∙ ap (λ (h : Lanes). (h, filled.0, filled.1))
          (hash_from-drop rounds (offset + 64) hs' after scratchpad
            (drop-store_lanes scratchpad offset fs' (round_1r-AreBlocks fs)))

  -- The one pass over the scratchpad gives the hash of what was there and the fill that two passes
  -- give: on every scratchpad, also one of no whole rows, `hash_and_fill_aes_1rx4` is
  -- `hash_aes_1rx4` and then `fill_aes_1rx4`.
  pub hash_and_fill-hash-fill :
      (scratchpad fill_state : Bytes)
      → hash_and_fill_aes_1rx4 aes scratchpad (replicate 64 0) fill_state ≡ (
          hash_aes_1rx4 aes scratchpad >>= λ hash.
          fill_aes_1rx4 aes fill_state scratchpad >>= λ filled. some (hash, filled.0, filled.1))
  unfolding hash_and_fill_aes_1rx4 hash_aes_1rx4 fill_aes_1rx4
  hash_and_fill-hash-fill scratchpad fill_state = elim (Bool-cases (length scratchpad % 64 == 0)) [
    | inl e ↦ rw (e) (
        ap
          (λ (r : Lanes × Lanes × Bytes).
            some (
              store_lanes (replicate 64 0) 0 (hash_end aes r.0),
              store_lanes fill_state 0 r.1,
              r.2,
            ))
          (hash_and_fill_from-split (length scratchpad / 64) 0 hash_1r_state
            (load_lanes fill_state 0) scratchpad))
    | inr e ↦ rw (e) refl
  ]
