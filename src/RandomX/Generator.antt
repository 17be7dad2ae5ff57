-- ===== src/RandomX/Generator.antt =====
-- `Blake2Generator` of src/randomx/blake2gen.rs. What it uses of `blake2b_512` is a parameter, which
-- the model of src/randomx/blake2b.rs fills. A read is within the 64 bytes (`check_data-IsValid`).
use miner_tim.Common.{
  ℕ, ◌+◌, ◌-◌, ◌/◌, ◌^◌, ◌≤◌, ◌<◌, ◌≡◌, arith, inl, inr, Bool-cases, Bytes, from_le_bytes,
  to_le_bytes, [], ◌∷◌, ◌++◌, length, get_or, take, drop, replicate, All, ltb, length-append,
  length-replicate, length-take, All-append, if◌then◌else◌, zero, suc,
}
use miner_tim.RandomX.Program.{IsByte, All-drop, All-take}
use miner_tim.RandomX.Blake2b.{blake2b_512}
use miner_tim.RandomX.Blake2b.Digest.{length-blake2b_512, blake2b_512-IsByte}

pub record Digest : Type 0 where
  pub hash : Bytes → Bytes
  pub length-hash : (input : Bytes) → length (hash input) ≡ 64
  pub hash-IsByte : (input : Bytes) → All IsByte (hash input)

-- The digest the program uses.
abbrev pub blake2b_digest : Digest
blake2b_digest = record {
  hash = blake2b_512;
  length-hash = length-blake2b_512;
  hash-IsByte = blake2b_512-IsByte;
}

pub record Blake2Generator : Type 0 where
  pub bytes : Bytes
  pub data_index : ℕ

-- The seed is cut at 60 bytes. The first read hashes.
unfoldable pub new : Bytes → ℕ → Blake2Generator
new seed nonce =
    let copied : Bytes = take 60 seed in
    record {
      bytes = copied ++ (replicate (60 - length copied) 0 ++ to_le_bytes 4 nonce);
      data_index = 64;
    }

from_le_bytes-lt : (xs : Bytes) → All IsByte xs → from_le_bytes (take 4 xs) < 2 ^ 32
from_le_bytes-lt [] h = omega arith
from_le_bytes-lt (a ∷ []) h = omega arith
from_le_bytes-lt (a ∷ b ∷ []) h = omega arith
from_le_bytes-lt (a ∷ b ∷ c ∷ []) h = omega arith
from_le_bytes-lt (a ∷ b ∷ c ∷ d ∷ xs) h = omega arith

module _ (D : Digest) where
  unfoldable pub check_data : ℕ → Blake2Generator → Blake2Generator
  check_data bytes_needed g =
      if ltb 64 (g.data_index + bytes_needed)
      then record { bytes = D.hash g.bytes; data_index = 0 }
      else g

  unfoldable pub get_byte : Blake2Generator → ℕ × Blake2Generator
  get_byte g =
      let g' = check_data 1 g in
      (get_or g'.bytes g'.data_index 0, record g' { data_index = g'.data_index + 1 })

  unfoldable pub get_u32 : Blake2Generator → ℕ × Blake2Generator
  get_u32 g =
      let g' = check_data 4 g in
      (
        from_le_bytes (take 4 (drop g'.data_index g'.bytes)),
        record g' { data_index = g'.data_index + 4 },
      )

  pub record IsValid (g : Blake2Generator) : Type 0 where
    pub size : length g.bytes ≡ 64
    pub bytes_are : All IsByte g.bytes
    pub position : g.data_index ≤ 64

  to_le_bytes-IsByte : (w n : ℕ) → All IsByte (to_le_bytes w n)
  to_le_bytes-IsByte zero n = tt
  to_le_bytes-IsByte (suc w) n = (omega arith, to_le_bytes-IsByte w (n / 256))

  zeros-IsByte : (n : ℕ) → All IsByte (replicate n 0)
  zeros-IsByte zero = tt
  zeros-IsByte (suc n) = (omega arith, zeros-IsByte n)

  pub new-IsValid : (seed : Bytes) (nonce : ℕ) → All IsByte seed → IsValid (new seed nonce)
  unfolding new
  new-IsValid seed nonce h =
      let copied : Bytes = take 60 seed in
      let padding : Bytes = replicate (60 - length copied) 0 in
      record {
        size = omega (
          arith,
          length-append copied (padding ++ to_le_bytes 4 nonce),
          length-append padding (to_le_bytes 4 nonce),
          length-replicate {A = ℕ} (60 - length copied) 0,
          length-take 60 seed,
        );
        bytes_are =
            All-append IsByte copied (padding ++ to_le_bytes 4 nonce) (All-take IsByte 60 seed h) (
              All-append IsByte padding (to_le_bytes 4 nonce) (zeros-IsByte (60 - length copied))
                (to_le_bytes-IsByte 4 nonce));
        position = omega arith;
      }

  get_or-IsByte : (xs : Bytes) (i : ℕ) → All IsByte xs → get_or xs i 0 < 256
  get_or-IsByte [] i h = omega arith
  get_or-IsByte (x ∷ xs) zero h = h.0
  get_or-IsByte (x ∷ xs) (suc i) h = get_or-IsByte xs i h.1

  -- After a check, the bytes that are needed lie ahead.
  pub check_data-IsValid :
      (n : ℕ) (g : Blake2Generator)
      → n ≤ 64
      → IsValid g
      → IsValid (check_data n g) × ((check_data n g).data_index + n ≤ 64)
  unfolding check_data
  check_data-IsValid n g le v = elim (Bool-cases (ltb 64 (g.data_index + n))) [
    | inl e ↦ rw (e) (
      record {
        size = D.length-hash g.bytes;
        bytes_are = D.hash-IsByte g.bytes;
        position = omega arith;
      },
      omega arith,
    )
    | inr e ↦ rw (e) (v, ground arith)
  ]

  pub get_byte-IsValid :
      (g : Blake2Generator) → IsValid g → IsValid (get_byte g).1 × ((get_byte g).0 < 256)
  unfolding get_byte
  get_byte-IsValid g v =
      let (w, le) = check_data-IsValid 1 g (omega arith) v in
      (
        record { size = w.size; bytes_are = w.bytes_are; position = le },
        get_or-IsByte (check_data 1 g).bytes (check_data 1 g).data_index w.bytes_are,
      )

  pub get_u32-IsValid :
      (g : Blake2Generator) → IsValid g → IsValid (get_u32 g).1 × ((get_u32 g).0 < 2 ^ 32)
  unfolding get_u32
  get_u32-IsValid g v =
      let (w, le) = check_data-IsValid 4 g (omega arith) v in
      (
        record { size = w.size; bytes_are = w.bytes_are; position = le },
        from_le_bytes-lt (drop (check_data 4 g).data_index (check_data 4 g).bytes)
            (All-drop IsByte (check_data 4 g).data_index (check_data 4 g).bytes w.bytes_are),
      )
