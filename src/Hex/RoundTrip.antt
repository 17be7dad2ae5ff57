-- ===== src/Hex/RoundTrip.antt =====
-- Decoding undoes encoding, encoding undoes decoding up to the case of letters, and exactly the
-- texts of even length over hexadecimal digits are decoded.
use miner_tim.Common.{
  ℕ, ◌+◌, ◌*◌, ◌/◌, ◌%◌, ◌<◌, ◌≤◌, ◌≡◌, ◌↔◌, ◌⊎◌, refl, sym, ap, ◌∙◌, inl, inr, arith, [], ◌∷◌,
  none, some, ◌&&◌, true, Bytes, bit_or, u8, leb, ◌==◌, if◌then◌else◌, length, All, every_below,
  every_below→at, holds, holds→eq, ==_iff, ◌^◌, map, Option-cases, Bool-cases, is_some,
}
use miner_tim.Common.Bits.{bit_or_disjoint, bit_and_low}
use miner_tim.Hex.{hex_char, hex_encode, nibble, decode_pairs, hex_decode}

abbrev pub IsByte : ℕ → Type 0
IsByte b = b < 256

-- `u8::to_ascii_lowercase`.
abbrev pub to_lower : ℕ → ℕ
to_lower c = if leb b'A' c && leb c b'Z' then c + 32 else c

-- `0` to `9`, `a` to `f` or `A` to `F`.
abbrev pub IsHexDigit : ℕ → Type 0
IsHexDigit c = ((b'0' ≤ c) × (c ≤ b'9')) ⊎ (((b'a' ≤ c) × (c ≤ b'f')) ⊎ ((b'A' ≤ c) × (c ≤ b'F')))

abbrev IsNibble : ℕ → Type 0
IsNibble c = is_some (nibble c) ≡ true

IsNibble-IsHexDigit : (c : ℕ) → IsNibble c → IsHexDigit c
unfolding nibble
IsNibble-IsHexDigit c h = ground arith

IsHexDigit-IsNibble : (c : ℕ) → IsHexDigit c → IsNibble c
unfolding nibble
IsHexDigit-IsNibble c h = ground arith

All-map : (P Q : ℕ → Type 0) (s : Bytes) → ((c : ℕ) → P c → Q c) → All P s → All Q s
All-map P Q [] f h = tt
All-map P Q (c ∷ s) f (p, h) = (f c p, All-map P Q s f h)

hex_char_table : every_below 16 (λ n. holds (nibble (hex_char n)) n) ≡ true
unfolding every_below nibble
hex_char_table = refl

nibble-hex_char : (n : ℕ) → n < 16 → nibble (hex_char n) ≡ some n
nibble-hex_char n h = holds→eq (nibble (hex_char n)) n (every_below→at 16 _ n hex_char_table h)

nibble-lt : (c : ℕ) {n : ℕ} → nibble c ≡ some n → n < 16
unfolding nibble
nibble-lt c h = ground arith

lower_table :
    every_below 256 (λ c. elim (nibble c) [ none ↦ true | some n ↦ hex_char n == to_lower c ])
    ≡ true
unfolding every_below nibble
lower_table = refl

hex_char-nibble : (c : ℕ) {n : ℕ} → c < 256 → nibble c ≡ some n → hex_char n ≡ to_lower c
hex_char-nibble c {n} lt h =
    (==_iff (hex_char n) (to_lower c)).0 (rw h at (every_below→at 256 _ c lower_table lt))

byte_of_nibbles : (hi lo : ℕ) → hi < 16 → lo < 16 → bit_or (u8 (hi * 2 ^ 4)) lo ≡ hi * 16 + lo
byte_of_nibbles hi lo h l =
    ground (arith, bit_or_disjoint 4 hi lo l, ap (λ (t : ℕ). bit_or t lo) small)
  where
    small : hi * 2 ^ 4 % 2 ^ 8 ≡ hi * 2 ^ 4
    small = omega arith

decode_pairs-hex_encode : (bs : Bytes) → All IsByte bs → decode_pairs (hex_encode bs) ≡ some bs
unfolding decode_pairs hex_encode
decode_pairs-hex_encode [] h = refl
decode_pairs-hex_encode (b ∷ bs) (hb, h) = ground (
  arith,
  bit_and_low 4 b,
  nibble-hex_char (b / 16) (omega arith),
  nibble-hex_char (b % 16) (omega arith),
  byte_of_nibbles (b / 16) (b % 16) (omega arith) (omega arith),
  decode_pairs-hex_encode bs h,
)

length-hex_encode : (bs : Bytes) → length (hex_encode bs) ≡ 2 * length bs
unfolding hex_encode
length-hex_encode [] = omega arith
length-hex_encode (b ∷ bs) = omega (arith, length-hex_encode bs)

-- Every byte string is read back from its hexadecimal text.
pub hex_decode-hex_encode : (bs : Bytes) → All IsByte bs → hex_decode (hex_encode bs) ≡ some bs
unfolding hex_decode
hex_decode-hex_encode bs h = ground (arith, length-hex_encode bs, decode_pairs-hex_encode bs h)

-- Encoding the byte of two nibbles gives their digits.
hex_encode_byte :
    (hi lo : ℕ) (rest : Bytes)
    → hi < 16
    → lo < 16
    → hex_encode (bit_or (u8 (hi * 2 ^ 4)) lo ∷ rest) ≡ hex_char hi ∷ hex_char lo ∷ hex_encode rest
unfolding hex_encode
hex_encode_byte hi lo rest h l = ground (
  arith,
  byte_of_nibbles hi lo h l,
  bit_and_low 4 (hi * 16 + lo),
  ap hex_char quotient,
  ap hex_char remainder,
)
  where
    quotient : (hi * 16 + lo) / 2 ^ 4 ≡ hi
    quotient = omega arith

    remainder : (hi * 16 + lo) % 2 ^ 4 ≡ lo
    remainder = omega arith

hex_encode-nil : hex_encode [] ≡ []
unfolding hex_encode
hex_encode-nil = refl

hex_encode-decode_pairs :
    (s bs : Bytes)
    → All IsByte s
    → length s % 2 ≡ 0
    → decode_pairs s ≡ some bs
    → hex_encode bs ≡ map to_lower s
unfolding decode_pairs
hex_encode-decode_pairs [] bs h even e = ground (arith, hex_encode-nil)
hex_encode-decode_pairs (a ∷ []) bs h even e = absurd (omega arith)
hex_encode-decode_pairs (a ∷ b ∷ s) bs h even e =
    pairs (Option-cases (nibble a)) (Option-cases (nibble b)) (Option-cases (decode_pairs s))
      (λ rest. hex_encode-decode_pairs s rest h.1.1 (omega arith))
  where
    pairs :
        (nibble a ≡ none) ⊎ ((hi : ℕ) × (nibble a ≡ some hi))
        → (nibble b ≡ none) ⊎ ((lo : ℕ) × (nibble b ≡ some lo))
        → (decode_pairs s ≡ none) ⊎ ((rest : Bytes) × (decode_pairs s ≡ some rest))
        → ((rest : Bytes) → decode_pairs s ≡ some rest → hex_encode rest ≡ map to_lower s)
        → hex_encode bs ≡ map to_lower (a ∷ b ∷ s)
    pairs (inl p) q r ih = ground arith
    pairs (inr (hi, p)) (inl q) r ih = ground arith
    pairs (inr (hi, p)) (inr (lo, q)) (inl r) ih = ground arith
    pairs (inr (hi, p)) (inr (lo, q)) (inr (rest, r)) ih = ground (
      arith,
      hex_encode_byte hi lo rest (nibble-lt a p) (nibble-lt b q),
      hex_char-nibble a h.0 p,
      hex_char-nibble b h.1.0 q,
      ih rest r,
    )

hex_decode_cases :
    (s : Bytes) → ((length s % 2 ≡ 0) × (hex_decode s ≡ decode_pairs s)) ⊎ (hex_decode s ≡ none)
unfolding hex_decode
hex_decode_cases s = elim (Bool-cases (length s % 2 == 0)) [
  | inl even ↦ inl ((==_iff (length s % 2) 0).0 even, rw even)
  | inr odd ↦ inr (rw odd)
]

-- Where a text is decoded, encoding the result gives the text back with its letters in lower case.
pub hex_encode-hex_decode :
    (s bs : Bytes) → All IsByte s → hex_decode s ≡ some bs → hex_encode bs ≡ map to_lower s
hex_encode-hex_decode s bs h e = elim (hex_decode_cases s) [
  | inl (even, same) ↦ hex_encode-decode_pairs s bs h even (sym same ∙ e)
  | inr fails ↦ cc
]

decode_pairs_iff :
    (s : Bytes)
    → length s % 2 ≡ 0
    → (is_some (decode_pairs s) ≡ true → All IsNibble s)
      × (All IsNibble s → is_some (decode_pairs s) ≡ true)
unfolding decode_pairs
decode_pairs_iff [] even = (λ e. tt, λ e. refl)
decode_pairs_iff (a ∷ []) even = absurd (omega arith)
decode_pairs_iff (a ∷ b ∷ s) even =
    let ih = decode_pairs_iff s (omega arith) in (λ e. ground (arith, ih), λ e. ground (arith, ih))

-- A text is decoded exactly when its length is even and each of its characters is one of `0` to `9`,
-- `a` to `f` and `A` to `F`.
pub hex_decode_iff :
    (s : Bytes) → (is_some (hex_decode s) ≡ true) ↔ (length s % 2 ≡ 0) × All IsHexDigit s
hex_decode_iff s = (
  λ e. elim (hex_decode_cases s) [
    | inl (even, same) ↦ (
      even,
      All-map IsNibble IsHexDigit s IsNibble-IsHexDigit
          ((decode_pairs_iff s even).0 (ap is_some (sym same) ∙ e)),
    )
    | inr fails ↦ absurd (fails_not_some fails e)
  ],
  λ h.
      rw (even_decode h.0)
        ((decode_pairs_iff s h.0).1 (All-map IsHexDigit IsNibble s IsHexDigit-IsNibble h.1)),
)
  where
    fails_not_some : hex_decode s ≡ none → is_some (hex_decode s) ≡ true → ⊥
    fails_not_some fails e =
        let clash : is_some {A = Bytes} none ≡ true = ap is_some (sym fails) ∙ e in cc

    even_decode : length s % 2 ≡ 0 → hex_decode s ≡ decode_pairs s
    even_decode even = unfold hex_decode in rw even
