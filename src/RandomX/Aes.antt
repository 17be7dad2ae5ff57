-- ===== src/RandomX/Aes.antt =====
-- The generators and the hash of src/randomx/aes_hash.rs, with slices as lists. The software paths are modelled;
-- the others, which the processor's features choose, compute the same. The two AES rounds are
-- parameters. A loop takes the rounds that its slice has left.
pub mod Keys
pub mod Slices
pub mod Fused
pub mod Streams
use miner_tim.Common.{
  ℕ, zero, suc, ◌+◌, ◌/◌, ◌%◌, ◌≡◌, Option, none, some, Bytes, to_le_bytes, [], ◌∷◌, ◌++◌, length,
  take, drop, replicate, All, ◌==◌, if◌then◌else◌,
}
use miner_tim.RandomX.Program.{IsByte}
use miner_tim.RandomX.Aes.Keys.{
  key_from_u32s, hash_1r_xkey0, hash_1r_xkey1, gen_1r_key0, gen_1r_key1, gen_1r_key2, gen_1r_key3,
  gen_4r_key0, gen_4r_key1, gen_4r_key2, gen_4r_key3, gen_4r_key4, gen_4r_key5, gen_4r_key6,
  gen_4r_key7,
}

-- `soft_aesenc` and `soft_aesdec` on a state and a key of 16 bytes.
pub record AesRounds : Type 0 where
  pub enc : Bytes → Bytes → Bytes
  pub dec : Bytes → Bytes → Bytes
  pub length-enc : (s k : Bytes) → length (enc s k) ≡ 16
  pub length-dec : (s k : Bytes) → length (dec s k) ≡ 16
  pub enc-IsByte : (s k : Bytes) → All IsByte (enc s k)
  pub dec-IsByte : (s k : Bytes) → All IsByte (dec s k)

-- The four states of a loop.
pub record Lanes : Type 0 where
  pub s0 : Bytes
  pub s1 : Bytes
  pub s2 : Bytes
  pub s3 : Bytes

abbrev pub hash_1r_state : Lanes
hash_1r_state = record {
  s0 = key_from_u32s 0xd7983aad 0xcc82db47 0x9fa856de 0x92b52c0d;
  s1 = key_from_u32s 0xace78057 0xf59e125a 0x15c7b798 0x338d996e;
  s2 = key_from_u32s 0xe8a07ce4 0x5079506b 0xae62c7d0 0x6a770017;
  s3 = key_from_u32s 0x7e994948 0x79a10005 0x07ad828d 0x630a240c;
}

unfoldable pub load_block : Bytes → ℕ → Bytes
load_block source offset = take 16 (drop offset source)

-- `data[offset..offset + 16].copy_from_slice(block)`
unfoldable pub store_block : Bytes → ℕ → Bytes → Bytes
store_block target zero block = block ++ drop 16 target
store_block [] (suc offset) block = []
store_block (b ∷ target) (suc offset) block = b ∷ store_block target offset block

unfoldable pub load_lanes : Bytes → ℕ → Lanes
load_lanes source offset = record {
  s0 = load_block source offset;
  s1 = load_block source (offset + 16);
  s2 = load_block source (offset + 32);
  s3 = load_block source (offset + 48);
}

unfoldable pub store_lanes : Bytes → ℕ → Lanes → Bytes
store_lanes target offset s =
    let a = store_block target offset s.s0 in
    let b = store_block a (offset + 16) s.s1 in
    let c = store_block b (offset + 32) s.s2 in store_block c (offset + 48) s.s3

-- `assert!(output.len().is_multiple_of(64))`
abbrev pub whole_rows : {A : Type 0} → Bytes → A → Option A
whole_rows slice a = if length slice % 64 == 0 then some a else none

module _ (aes : AesRounds) where
  abbrev pub dec_enc : Bytes → Bytes → Bytes → Bytes → Lanes → Lanes
  dec_enc k0 k1 k2 k3 s = record {
    s0 = aes.dec s.s0 k0;
    s1 = aes.enc s.s1 k1;
    s2 = aes.dec s.s2 k2;
    s3 = aes.enc s.s3 k3;
  }

  unfoldable pub round_1r : Lanes → Lanes
  round_1r s = dec_enc gen_1r_key0 gen_1r_key1 gen_1r_key2 gen_1r_key3 s

  unfoldable pub round_4r : Lanes → Lanes
  round_4r s =
      let a = dec_enc gen_4r_key0 gen_4r_key0 gen_4r_key4 gen_4r_key4 s in
      let b = dec_enc gen_4r_key1 gen_4r_key1 gen_4r_key5 gen_4r_key5 a in
      let c = dec_enc gen_4r_key2 gen_4r_key2 gen_4r_key6 gen_4r_key6 b in
      dec_enc gen_4r_key3 gen_4r_key3 gen_4r_key7 gen_4r_key7 c

  -- The hash takes its input as the keys.
  unfoldable pub hash_round : Lanes → Lanes → Lanes
  hash_round s input = record {
    s0 = aes.enc s.s0 input.s0;
    s1 = aes.dec s.s1 input.s1;
    s2 = aes.enc s.s2 input.s2;
    s3 = aes.dec s.s3 input.s3;
  }

  -- The two rounds that end the hash.
  unfoldable pub hash_end : Lanes → Lanes
  unfolding hash_round
  hash_end s =
      let k0 = hash_1r_xkey0 in
      let k1 = hash_1r_xkey1 in
      let a = hash_round s (record { s0 = k0; s1 = k0; s2 = k0; s3 = k0 }) in
      hash_round a (record { s0 = k1; s1 = k1; s2 = k1; s3 = k1 })

  unfoldable pub fill_from : (Lanes → Lanes) → ℕ → ℕ → Lanes → Bytes → Lanes × Bytes
  fill_from round zero offset s target = (s, target)
  fill_from round (suc rounds) offset s target =
      let s' = round s in fill_from round rounds (offset + 64) s' (store_lanes target offset s')

  unfoldable pub hash_from : ℕ → ℕ → Lanes → Bytes → Lanes
  hash_from zero offset s input = s
  hash_from (suc rounds) offset s input =
      hash_from rounds (offset + 64) (hash_round s (load_lanes input offset)) input

  -- Each row is hashed before it is overwritten.
  unfoldable pub hash_and_fill_from : ℕ → ℕ → Lanes → Lanes → Bytes → Lanes × Lanes × Bytes
  hash_and_fill_from zero offset hs fs scratchpad = (hs, fs, scratchpad)
  hash_and_fill_from (suc rounds) offset hs fs scratchpad =
      let hs' = hash_round hs (load_lanes scratchpad offset) in
      let fs' = round_1r fs in
      hash_and_fill_from rounds (offset + 64) hs' fs' (store_lanes scratchpad offset fs')

  -- The state after the call, and the output.
  unfoldable pub fill_aes_1rx4 : Bytes → Bytes → Option (Bytes × Bytes)
  fill_aes_1rx4 state target =
      let r = fill_from round_1r (length target / 64) 0 (load_lanes state 0) target in
      whole_rows target (store_lanes state 0 r.0, r.1)

  unfoldable pub fill_aes_4rx4 : Bytes → Bytes → Option Bytes
  fill_aes_4rx4 state target =
      whole_rows target (fill_from round_4r (length target / 64) 0 (load_lanes state 0) target).1

  unfoldable pub hash_aes_1rx4 : Bytes → Option Bytes
  hash_aes_1rx4 input = whole_rows input (
      store_lanes (replicate 64 0) 0
        (hash_end (hash_from (length input / 64) 0 hash_1r_state input)))

  -- The hash, the fill state after the call, and the scratchpad.
  unfoldable pub hash_and_fill_aes_1rx4 : Bytes → Bytes → Bytes → Option (Bytes × Bytes × Bytes)
  hash_and_fill_aes_1rx4 scratchpad hash_out fill_state =
      let r =
        hash_and_fill_from (length scratchpad / 64) 0 hash_1r_state (load_lanes fill_state 0)
          scratchpad in
      whole_rows scratchpad
        (store_lanes hash_out 0 (hash_end r.0), store_lanes fill_state 0 r.1, r.2)
