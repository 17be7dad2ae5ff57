-- ===== src/Hex/Tests.antt =====
-- Runs of the two functions, and the properties of them at concrete texts.
use miner_tim.Common.{
  ◌%◌, ◌≡◌, ◌↔◌, refl, none, some, [], ◌∷◌, codes, is_some, true, length, All, map, arith,
}
use miner_tim.Hex.{hex_encode, hex_decode}
use miner_tim.Hex.RoundTrip.{
  hex_decode-hex_encode, hex_encode-hex_decode, hex_decode_iff, IsHexDigit, to_lower,
}

runs :
    (hex_encode (0x00 ∷ 0x0f ∷ 0xff ∷ []) ≡ codes "000fff")
    × (hex_decode (codes "DEad") ≡ some (0xde ∷ 0xad ∷ []))
    × (hex_decode (codes "+1") ≡ none)
    × (hex_decode (codes "abc") ≡ none)
unfolding hex_encode hex_decode
runs = (refl, refl, refl, refl)

hex_decode-hex_encode_example : hex_decode (hex_encode (0xb8 ∷ 0x06 ∷ [])) ≡ some (0xb8 ∷ 0x06 ∷ [])
hex_decode-hex_encode_example =
    hex_decode-hex_encode (0xb8 ∷ 0x06 ∷ []) (omega arith, (omega arith, tt))

hex_encode-hex_decode_example : hex_encode (0xde ∷ []) ≡ map to_lower (codes "De")
hex_encode-hex_decode_example =
    hex_encode-hex_decode (codes "De") (0xde ∷ []) (omega arith, (omega arith, tt))
      (unfold hex_decode in refl)

hex_decode_iff_example :
    (is_some (hex_decode (codes "7f")) ≡ true)
    ↔ (length (codes "7f") % 2 ≡ 0) × All IsHexDigit (codes "7f")
hex_decode_iff_example = hex_decode_iff (codes "7f")
