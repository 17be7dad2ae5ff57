-- ===== src/Hex.antt =====
-- src/hex.rs: hexadecimal text of bytes and back.
pub mod RoundTrip
mod Tests
use miner_tim.Common.{
  ℕ, ◌+◌, ◌-◌, ◌%◌, List, [], ◌∷◌, ◌++◌, Option, none, some, ◌&&◌, Bytes, codes, bit_and, bit_or,
  u8, ◌<<<◌, ◌>>>◌, leb, ◌==◌, if◌then◌else◌, get_or, length, ◌>>=◌,
}

-- The table `HEX`.
abbrev pub hex_table : Bytes
hex_table = codes "0123456789abcdef"

abbrev pub hex_char : ℕ → ℕ
hex_char n = get_or hex_table n 0

unfoldable pub hex_encode : Bytes → Bytes
hex_encode [] = []
hex_encode (b ∷ bs) = hex_char (b >>> 4) ∷ hex_char (bit_and b 0xf) ∷ hex_encode bs

-- `c - b'a' + 10` stays within `u8` on each of its ranges.
unfoldable pub nibble : ℕ → Option ℕ
nibble c =
    if leb b'0' c && leb c b'9'
    then some (c - b'0')
    else if leb b'a' c && leb c b'f'
    then some (c - b'a' + 10)
    else if leb b'A' c && leb c b'F'
    then some (c - b'A' + 10)
    else none

-- The loop over `chunks_exact(2)`.
unfoldable pub decode_pairs : Bytes → Option Bytes
unfolding nibble
decode_pairs [] = some []
decode_pairs (a ∷ []) = some []
decode_pairs (a ∷ b ∷ rest) = do
  hi ← nibble a
  lo ← nibble b
  bytes ← decode_pairs rest
  some (bit_or (u8 (hi <<< 4)) lo ∷ bytes)

unfoldable pub hex_decode : Bytes → Option Bytes
unfolding decode_pairs
hex_decode hex = if length hex % 2 == 0 then decode_pairs hex else none
