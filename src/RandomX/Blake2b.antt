-- ===== src/RandomX/Blake2b.antt =====
-- src/randomx/blake2b.rs. An assertion that fails is none. A byte count stays far below 2 ^ 128, so
-- the sums of `t` are written without their wrap-around.
pub mod Blocks
pub mod Digest
use miner_tim.Common.{
  ℕ, zero, suc, ◌+◌, ◌-◌, ◌*◌, ◌/◌, ◌%◌, ◌^◌, bit_xor, Bool, true, false, ◌&&◌, Option, none, some,
  Bytes, u64, ◌>>>◌, ◌<<<◌, from_le_bytes, to_le_bytes, List, [], ◌∷◌, ◌++◌, length, get_or, set,
  take, drop, replicate, leb, ltb, ◌==◌, if◌then◌else◌,
}
use miner_tim.RandomX.Machine.{wrapping_add, rotate_right}

abbrev pub iv : List ℕ
iv =
    0x6a09e667f3bcc908 ∷ 0xbb67ae8584caa73b ∷ 0x3c6ef372fe94f82b ∷ 0xa54ff53a5f1d36f1
    ∷ 0x510e527fade682d1 ∷ 0x9b05688c2b3e6c1f ∷ 0x1f83d9abfb41bd6b ∷ 0x5be0cd19137e2179 ∷ []

abbrev row : ℕ → ℕ → ℕ → ℕ → ℕ → ℕ → ℕ → ℕ → ℕ → ℕ → ℕ → ℕ → ℕ → ℕ → ℕ → ℕ → List ℕ
row a b c d e f g h i j k l m n o p =
    a ∷ b ∷ c ∷ d ∷ e ∷ f ∷ g ∷ h ∷ i ∷ j ∷ k ∷ l ∷ m ∷ n ∷ o ∷ p ∷ []

abbrev sigma : List (List ℕ)
sigma =
    row 0 1 2 3 4 5 6 7 8 9 10 11 12 13 14 15
    ∷ row 14 10 4 8 9 15 13 6 1 12 0 2 11 7 5 3
    ∷ row 11 8 12 0 5 2 15 13 10 14 3 6 7 1 9 4
    ∷ row 7 9 3 1 13 12 11 14 2 6 5 10 4 0 15 8
    ∷ row 9 0 5 7 2 4 10 15 14 1 11 12 6 8 3 13
    ∷ row 2 12 6 10 0 11 8 3 4 13 7 5 15 14 1 9
    ∷ row 12 5 1 15 14 13 4 10 0 7 6 3 9 2 8 11
    ∷ row 13 11 7 14 12 1 3 9 5 0 15 4 8 6 2 10
    ∷ row 6 15 14 9 11 3 0 8 12 2 13 7 1 4 10 5
    ∷ row 10 2 8 4 7 6 1 5 15 11 9 14 3 12 13 0
    ∷ row 0 1 2 3 4 5 6 7 8 9 10 11 12 13 14 15
    ∷ row 14 10 4 8 9 15 13 6 1 12 0 2 11 7 5 3
    ∷ []

-- `v[i]`
abbrev at : List ℕ → ℕ → ℕ
at v i = get_or v i 0

-- `v[i] = v[i].wrapping_add(v[j]).wrapping_add(x)`, and `v[i] = (v[i] ^ v[j]).rotate_right(k)`.
add_to : ℕ → ℕ → ℕ → List ℕ → List ℕ
add_to i j x v = set v i (wrapping_add (wrapping_add (at v i) (at v j)) x)

mix_into : ℕ → ℕ → ℕ → List ℕ → List ℕ
mix_into i j k v = set v i (rotate_right (bit_xor (at v i) (at v j)) k)

unfoldable pub g : ℕ → ℕ → ℕ → ℕ → ℕ → ℕ → List ℕ → List ℕ
unfolding add_to mix_into
g a b c d x y v =
    let v1 = mix_into d a 32 (add_to a b x v) in
    let v2 = mix_into b c 24 (add_to c d 0 v1) in
    let v3 = mix_into d a 16 (add_to a b y v2) in mix_into b c 63 (add_to c d 0 v3)

-- A round of mixing, by a row of `sigma`.
unfoldable pub mix_round : List ℕ → List ℕ → List ℕ → List ℕ
unfolding g
mix_round m s v =
    let word : ℕ → ℕ = λ i. at m (at s i) in
    let v1 = g 0 4 8 12 (word 0) (word 1) v in
    let v2 = g 1 5 9 13 (word 2) (word 3) v1 in
    let v3 = g 2 6 10 14 (word 4) (word 5) v2 in
    let v4 = g 3 7 11 15 (word 6) (word 7) v3 in
    let v5 = g 0 5 10 15 (word 8) (word 9) v4 in
    let v6 = g 1 6 11 12 (word 10) (word 11) v5 in
    let v7 = g 2 7 8 13 (word 12) (word 13) v6 in g 3 4 9 14 (word 14) (word 15) v7

unfoldable pub mix_rounds : List ℕ → List (List ℕ) → List ℕ → List ℕ
unfolding mix_round
mix_rounds m [] v = v
mix_rounds m (s ∷ rows) v = mix_rounds m rows (mix_round m s v)

-- The words of a block, lowest byte first.
unfoldable pub words : ℕ → Bytes → List ℕ
words zero block = []
words (suc n) block = from_le_bytes (take 8 block) ∷ words n (drop 8 block)

-- `h[i] ^= v[i] ^ v[i + 8]`
unfoldable pub fold_in : ℕ → List ℕ → List ℕ → List ℕ
fold_in i v [] = []
fold_in i v (x ∷ h) = bit_xor x (bit_xor (at v i) (at v (i + 8))) ∷ fold_in (suc i) v h

unfoldable pub compress : List ℕ → Bytes → ℕ → Bool → List ℕ
unfolding mix_rounds words fold_in
compress h block t last =
    let v = h ++ iv in
    let counted =
      set (set v 12 (bit_xor (at v 12) (u64 t))) 13 (bit_xor (at v 13) (u64 (t >>> 64))) in
    let flagged = if last then set counted 14 (2 ^ 64 - 1 - at counted 14) else counted in
    fold_in 0 (mix_rounds (words 16 block) sigma flagged) h

-- The variables of the loop over the input.
pub record Absorbing : Type 0 where
  pub h : List ℕ
  pub t : ℕ
  pub buf : Bytes
  pub buf_len : ℕ

-- A full buffer is compressed when the next byte comes.
unfoldable pub flush : Absorbing → Absorbing
flush s =
    if s.buf_len == 128
    then record {
      h = compress s.h s.buf (s.t + 128) false;
      t = s.t + 128;
      buf = replicate 128 0;
      buf_len = 0;
    }
    else s

unfoldable pub absorb : ℕ → Absorbing → Absorbing
unfolding flush
absorb byte s =
    let s' = flush s in record s' { buf = set s'.buf s'.buf_len byte; buf_len = s'.buf_len + 1 }

unfoldable pub absorb_all : Bytes → Absorbing → Absorbing
unfolding absorb
absorb_all [] s = s
absorb_all (byte ∷ input) s = absorb_all input (absorb byte s)

-- `for i in buf_len..128 { buf[i] = 0; }`
abbrev pub clear_rest : ℕ → Bytes → Bytes
clear_rest buf_len buf = take buf_len buf ++ replicate (128 - buf_len) 0

unfoldable pub finish : Absorbing → List ℕ
finish s = compress s.h (clear_rest s.buf_len s.buf) (s.t + s.buf_len) true

-- `for i in 0..out_len`, the output from byte `i` on.
unfoldable pub output : ℕ → ℕ → List ℕ → Bytes
output zero i h = []
output (suc n) i h = at h (i / 8) >>> (8 * (i % 8)) % 256 ∷ output n (suc i) h

-- The state the loop starts in: the parameter block in the chain, and the key in the buffer.
unfoldable pub initial : ℕ → Bytes → Absorbing
initial out_len key = record {
  h = set iv 0 (bit_xor (at iv 0) (bit_xor (bit_xor 0x01010000 (length key <<< 8)) out_len));
  t = 0;
  buf = key ++ replicate (128 - length key) 0;
  buf_len = if ltb 0 (length key) then 128 else 0;
}

unfoldable pub blake2b_full : ℕ → Bytes → Bytes → Option Bytes
blake2b_full out_len key input =
    if leb 1 out_len && leb out_len 64 && leb (length key) 64
    then some (output out_len 0 (finish (absorb_all input (initial out_len key))))
    else none

unfoldable pub blake2b : ℕ → Bytes → Option Bytes
blake2b out_len input = blake2b_full out_len [] input

-- `try_into().unwrap()`: a panic, which no input reaches, is the empty list.
abbrev pub unwrap : Option Bytes → Bytes
unwrap none = []
unwrap (some v) = v

unfoldable pub blake2b_256 : Bytes → Bytes
blake2b_256 input = unwrap (blake2b 32 input)

unfoldable pub blake2b_512 : Bytes → Bytes
blake2b_512 input = unwrap (blake2b 64 input)
