-- ===== src/RandomX/Blake2b/Blocks.antt =====
-- The byte-wise loop of `blake2b_full` (src/randomx/blake2b.rs) against the blocks of RFC 7693.
use miner_tim.Common.{
  ℕ, zero, suc, ◌+◌, ◌-◌, ◌/◌, ◌≤◌, ◌≡◌, ◌≢◌, refl, sym, ap, ap₂, ◌∙◌, arith, true, false, inl, inr,
  Bool-cases, Bytes, List, [], ◌∷◌, ◌++◌, length, length-append, take, drop, replicate, set,
  take-append, drop-append, set-append, ◌==◌, ==_iff,
}
use mathlib.Core.List.{append-nil, append_assoc}
use miner_tim.RandomX.Blake2b.{compress, Absorbing, flush, absorb, absorb_all, finish}

-- The data of a block, filled up with zeros.
abbrev pub pad : Bytes → Bytes
pad b = b ++ replicate (128 - length b) 0

-- `n` whole blocks, each with the count of the bytes so far, then the last block.
unfoldable pub chain : ℕ → List ℕ → ℕ → Bytes → List ℕ
chain zero h t d = compress h (pad d) (t + length d) true
chain (suc n) h t d = chain n (compress h (take 128 d) (t + 128) false) (t + 128) (drop 128 d)

-- The blocks before the last one, which is not empty unless all the data is.
abbrev pub blocks_before : Bytes → ℕ
blocks_before d = (length d - 1) / 128

-- The key is a block of its own, before the input.
abbrev pub key_block : Bytes → Bytes
key_block [] = []
key_block (b ∷ key) = pad (b ∷ key)

abbrev pub holding : List ℕ → ℕ → Bytes → Absorbing
holding h t b = record { h = h; t = t; buf = pad b; buf_len = length b }

replicate-split : (n : ℕ) → n ≢ 0 → replicate {A = ℕ} n 0 ≡ 0 ∷ replicate (n - 1) 0
replicate-split zero h = absurd (h refl)
replicate-split (suc n) h = ap (λ k. 0 ∷ replicate k 0) (omega arith)

-- A byte written after the data of a block.
set-pad :
    (b : Bytes) (byte : ℕ) → length b + 1 ≤ 128 → set (pad b) (length b) byte ≡ pad (b ++ byte ∷ [])
set-pad b byte h =
    rw
      (
        replicate-split (128 - length b) (λ e. absurd (omega arith)),
        set-append b (replicate (128 - length b - 1) 0) 0 byte (length b) refl,
        append_assoc b (byte ∷ []) (replicate (128 - length (b ++ byte ∷ [])) 0),
        length-append b (byte ∷ []),
      )
      (ap (λ k. b ++ byte ∷ replicate k 0) (omega arith))

pub pad_full : (b : Bytes) → length b ≡ 128 → pad b ≡ b
pad_full b h = rw h (append-nil b)

finish-holding :
    (h : List ℕ) (t : ℕ) (b : Bytes)
    → length b ≤ 128
    → finish (holding h t b) ≡ chain (blocks_before b) h t b
unfolding finish chain
finish-holding h t b small =
    let none_before : blocks_before b ≡ 0 = omega arith in
    ap (λ x. compress h (x ++ replicate (128 - length b) 0) (t + length b) true)
      (take-append b (replicate (128 - length b) 0) (length b) refl)
    ∙ ap (λ n. chain n h t b) (sym none_before)

absorb-full :
    (h : List ℕ) (t : ℕ) (b : Bytes) (byte : ℕ)
    → length b ≡ 128
    → absorb byte (holding h t b) ≡ holding (compress h b (t + 128) false) (t + 128) (byte ∷ [])
unfolding absorb flush
absorb-full h t b byte e =
    rw (e) (ap (λ x. holding (compress h x (t + 128) false) (t + 128) (byte ∷ [])) (append-nil b))

absorb-room :
    (h : List ℕ) (t : ℕ) (b : Bytes) (byte : ℕ)
    → length b + 1 ≤ 128
    → absorb byte (holding h t b) ≡ holding h t (b ++ byte ∷ [])
unfolding absorb flush
absorb-room h t b byte room = elim (Bool-cases (length b == 128)) [
  | inl e ↦ absurd (omega (arith, (==_iff (length b) 128).0 e))
  | inr e ↦ rw (e) (
      ap₂ (λ buf n. record { h = h; t = t; buf = buf; buf_len = n }) (set-pad b byte room)
        (sym (length-append b (byte ∷ []))))
]

chain-suc :
    (n : ℕ) (h : List ℕ) (t : ℕ) (b rest : Bytes)
    → length b ≡ 128
    → chain (suc n) h t (b ++ rest) ≡ chain n (compress h b (t + 128) false) (t + 128) rest
unfolding chain
chain-suc n h t b rest e =
    ap₂ (λ x y. chain n (compress h x (t + 128) false) (t + 128) y) (take-append b rest 128 e)
      (drop-append b rest 128 e)

-- A whole block in the buffer and at least a byte after it.
chain-full :
    (h : List ℕ) (t : ℕ) (b : Bytes) (byte : ℕ) (input : Bytes)
    → length b ≡ 128
    → chain (blocks_before (b ++ byte ∷ input)) h t (b ++ byte ∷ input)
      ≡ chain (blocks_before (byte ∷ input)) (compress h b (t + 128) false) (t + 128) (byte ∷ input)
chain-full h t b byte input e =
    let more : blocks_before (b ++ byte ∷ input) ≡ suc (blocks_before (byte ∷ input)) =
      omega (arith, length-append b (byte ∷ input)) in
    ap (λ n. chain n h t (b ++ byte ∷ input)) more
    ∙ chain-suc (blocks_before (byte ∷ input)) h t b (byte ∷ input) e

pub absorb_all-chain :
    (input : Bytes) (h : List ℕ) (t : ℕ) (b : Bytes)
    → length b ≤ 128
    → finish (absorb_all input (holding h t b))
      ≡ chain (blocks_before (b ++ input)) h t (b ++ input)
unfolding absorb_all
absorb_all-chain [] h t b small =
    finish-holding h t b small ∙ ap (λ d. chain (blocks_before d) h t d) (sym (append-nil b))
absorb_all-chain (byte ∷ input) h t b small = elim (Bool-cases (length b == 128)) [
  | inl e ↦
      let full : length b ≡ 128 = (==_iff (length b) 128).0 e in
      ap (λ s. finish (absorb_all input s)) (absorb-full h t b byte full)
      ∙ absorb_all-chain input (compress h b (t + 128) false) (t + 128) (byte ∷ []) (omega arith)
      ∙ sym (chain-full h t b byte input full)
  | inr e ↦
      let room : length b + 1 ≤ 128 = ground arith in
      ap (λ s. finish (absorb_all input s)) (absorb-room h t b byte room)
      ∙ absorb_all-chain input h t (b ++ byte ∷ []) (omega (arith, length-append b (byte ∷ [])))
      ∙ ap (λ d. chain (blocks_before d) h t d) (append_assoc b (byte ∷ []) input)
]
