-- ===== src/RandomX/Blake2b/Digest.antt =====
-- The digest of `blake2b_full` (src/randomx/blake2b.rs): its bytes, its length and the whole function.
use miner_tim.Common.{
  ℕ, zero, suc, ◌+◌, ◌-◌, ◌*◌, ◌/◌, ◌%◌, ◌≤◌, ◌<◌, ◌≡◌, refl, sym, ap, ap₂, ◌∙◌, arith, Bool, some,
  bit_xor, Bytes, List, [], ◌∷◌, ◌++◌, length, length-append, length-set, take, drop, replicate,
  get_or, set, to_le_bytes, ◌>>>◌, ◌<<<◌, lt→ltb, ltb, le→leb, true, if◌then◌else◌, All,
  length-replicate,
}
use miner_tim.RandomX.Program.{IsByte}
use miner_tim.RandomX.Blake2b.{
  iv, at, compress, fold_in, finish, absorb_all, output, initial, blake2b_full, blake2b,
  blake2b_512, blake2b_256,
}
use miner_tim.RandomX.Blake2b.Blocks.{
  chain, pad, pad_full, blocks_before, key_block, holding, absorb_all-chain,
}

-- The bytes of the words, lowest first.
unfoldable pub little_endian : List ℕ → Bytes
little_endian [] = []
little_endian (x ∷ h) = to_le_bytes 8 x ++ little_endian h

byte_at :
    (h : List ℕ) (i : ℕ)
    → i < 8 * length h
    → get_or (little_endian h) i 0 ≡ at h (i / 8) >>> (8 * (i % 8)) % 256
unfolding little_endian
byte_at [] i lt = absurd (omega arith)
byte_at (x ∷ h) zero lt = omega arith
byte_at (x ∷ h) (suc zero) lt = omega arith
byte_at (x ∷ h) (suc (suc zero)) lt = omega arith
byte_at (x ∷ h) (suc (suc (suc zero))) lt = omega arith
byte_at (x ∷ h) (suc (suc (suc (suc zero)))) lt = omega arith
byte_at (x ∷ h) (suc (suc (suc (suc (suc zero))))) lt = omega arith
byte_at (x ∷ h) (suc (suc (suc (suc (suc (suc zero)))))) lt = omega arith
byte_at (x ∷ h) (suc (suc (suc (suc (suc (suc (suc zero))))))) lt = omega arith
byte_at (x ∷ h) (suc (suc (suc (suc (suc (suc (suc (suc i)))))))) lt =
    let j : ℕ = suc (suc (suc (suc (suc (suc (suc (suc i))))))) in
    let word : j / 8 ≡ suc (i / 8) = omega arith in
    let place : j % 8 ≡ i % 8 = omega arith in
    byte_at h i (omega arith) ∙ sym (ap₂ (λ q r. at (x ∷ h) q >>> (8 * r) % 256) word place)

length-little_endian : (h : List ℕ) → length (little_endian h) ≡ 8 * length h
unfolding little_endian
length-little_endian [] = refl
length-little_endian (x ∷ h) =
    omega (arith, length-append (to_le_bytes 8 x) (little_endian h), length-little_endian h)

drop-split : (bs : Bytes) (i : ℕ) → i < length bs → drop i bs ≡ get_or bs i 0 ∷ drop (suc i) bs
drop-split [] i lt = absurd (omega arith)
drop-split (b ∷ bs) zero lt = refl
drop-split (b ∷ bs) (suc i) lt = drop-split bs i (omega arith)

output-eq-take :
    (n i : ℕ) (h : List ℕ) → i + n ≤ 8 * length h → output n i h ≡ take n (drop i (little_endian h))
unfolding output
output-eq-take zero i h le = refl
output-eq-take (suc n) i h le =
    ap₂ (λ b bs. b ∷ bs) (sym (byte_at h i (omega arith)))
      (output-eq-take n (suc i) h (omega arith))
    ∙ sym
        (ap (take (suc n)) (drop-split (little_endian h) i (omega (arith, length-little_endian h))))

length-fold_in : (i : ℕ) (v h : List ℕ) → length (fold_in i v h) ≡ length h
unfolding fold_in
length-fold_in i v [] = refl
length-fold_in i v (x ∷ h) = ap suc (length-fold_in (suc i) v h)

length-compress :
    (h : List ℕ) (block : Bytes) (t : ℕ) (last : Bool) → length (compress h block t last) ≡ length h
unfolding compress
length-compress h block t last = length-fold_in 0 _ h

length-chain : (n : ℕ) (h : List ℕ) (t : ℕ) (d : Bytes) → length (chain n h t d) ≡ length h
unfolding chain
length-chain zero h t d = length-compress h _ _ _
length-chain (suc n) h t d = length-chain n _ _ _ ∙ length-compress h _ _ _

-- The chain that the parameter block starts.
abbrev pub parameters : ℕ → ℕ → List ℕ
parameters out_len key_len =
    set iv 0 (bit_xor (at iv 0) (bit_xor (bit_xor 0x01010000 (key_len <<< 8)) out_len))

-- The digest of RFC 7693: the key block and the input, cut into blocks.
abbrev pub reference : ℕ → Bytes → Bytes → Bytes
reference out_len key input =
    let d = key_block key ++ input in
    take out_len (little_endian (chain (blocks_before d) (parameters out_len (length key)) 0 d))

length-parameters : (out_len key_len : ℕ) → length (parameters out_len key_len) ≡ 8
length-parameters out_len key_len =
    length-set iv 0 (bit_xor (at iv 0) (bit_xor (bit_xor 0x01010000 (key_len <<< 8)) out_len))

length-pad : (b : Bytes) → length b ≤ 128 → length (pad b) ≡ 128
length-pad b h = omega (
  arith,
  length-append b (replicate (128 - length b) 0),
  length-replicate {A = ℕ} (128 - length b) 0,
)

-- The state that the loop starts in holds the key block.
initial-holding :
    (out_len : ℕ) (key : Bytes)
    → length key ≤ 128
    → initial out_len key ≡ holding (parameters out_len (length key)) 0 (key_block key)
unfolding initial
initial-holding out_len [] h = refl
initial-holding out_len (b ∷ key) h =
    let whole : length (pad (b ∷ key)) ≡ 128 = length-pad (b ∷ key) h in
    let keyed : ltb 0 (length (b ∷ key)) ≡ true = lt→ltb 0 (length (b ∷ key)) (omega arith) in
    ap₂
      (λ (n : ℕ) (buf : Bytes). record {
        h = parameters out_len (length (b ∷ key));
        t = 0;
        buf = buf;
        buf_len = n;
      })
      (ap (λ (t : Bool). if t then 128 else 0) keyed ∙ sym whole)
      (sym (pad_full (pad (b ∷ key)) whole))

length-key_block : (key : Bytes) → length key ≤ 128 → length (key_block key) ≤ 128
length-key_block [] h = omega arith
length-key_block (b ∷ key) h = omega (arith, length-pad (b ∷ key) h)

-- For an output of 1 to 64 bytes and a key of at most 64, the byte-wise loop gives the digest of
-- RFC 7693: the key's block and the input are cut into blocks of 128 bytes, each is compressed with
-- the count of the bytes so far, the last one filled up with zeros and marked, and the output is the
-- first bytes of the chain's words.
pub blake2b_full-reference :
    (out_len : ℕ) (key input : Bytes)
    → 1 ≤ out_len
    → out_len ≤ 64
    → length key ≤ 64
    → blake2b_full out_len key input ≡ some (reference out_len key input)
unfolding blake2b_full
blake2b_full-reference out_len key input lo hi small =
    let d = key_block key ++ input in
    let start = parameters out_len (length key) in
    let absorbed : finish (absorb_all input (initial out_len key))
        ≡ chain (blocks_before d) start 0 d =
      ap (λ s. finish (absorb_all input s)) (initial-holding out_len key (omega arith))
      ∙ absorb_all-chain input start 0 (key_block key) (length-key_block key (omega arith)) in
    let whole : length (chain (blocks_before d) start 0 d) ≡ 8 =
      length-chain (blocks_before d) start 0 d ∙ length-parameters out_len (length key) in
    rw (le→leb 1 out_len lo, le→leb out_len 64 hi, le→leb (length key) 64 small)
      (ap some (
        ap (output out_len 0) absorbed
        ∙ output-eq-take out_len 0 (chain (blocks_before d) start 0 d) (omega arith)))

length-output : (n i : ℕ) (h : List ℕ) → length (output n i h) ≡ n
unfolding output
length-output zero i h = refl
length-output (suc n) i h = ap suc (length-output n (suc i) h)

output-IsByte : (n i : ℕ) (h : List ℕ) → All IsByte (output n i h)
unfolding output
output-IsByte zero i h = tt
output-IsByte (suc n) i h = (omega arith, output-IsByte n (suc i) h)

pub length-blake2b_512 : (input : Bytes) → length (blake2b_512 input) ≡ 64
unfolding blake2b_512 blake2b blake2b_full
length-blake2b_512 input = length-output 64 0 (finish (absorb_all input (initial 64 [])))

pub blake2b_512-IsByte : (input : Bytes) → All IsByte (blake2b_512 input)
unfolding blake2b_512 blake2b blake2b_full
blake2b_512-IsByte input = output-IsByte 64 0 (finish (absorb_all input (initial 64 [])))

pub length-blake2b_256 : (input : Bytes) → length (blake2b_256 input) ≡ 32
unfolding blake2b_256 blake2b blake2b_full
length-blake2b_256 input = length-output 32 0 (finish (absorb_all input (initial 32 [])))
