-- ===== src/Pool/Framing/Limit.antt =====
-- The limit of `read_line`.
use miner_tim.Common.{
  ℕ, ◌+◌, ◌≡◌, ◌≢◌, arith, List, [], ◌∷◌, ◌++◌, Bool, Bytes, length, length-append, map,
}
use miner_tim.Pool.State.{max_line_bytes, err, line_too_long}
use miner_tim.Pool.Framing.{newline, ReadByte, byte, read_loop, read_line}
use miner_tim.Pool.Framing.Lines.{IsPartial}

module _ (is_utf8 : Bytes → Bool) where
  read_loop_over :
      (line l : Bytes) (b : ℕ) (rest : List ReadByte)
      → IsPartial l
      → b ≢ newline
      → length line + length l ≡ max_line_bytes
      → read_loop is_utf8 line (map byte l ++ byte b ∷ rest) ≡ (err line_too_long, rest)
  unfolding read_loop
  read_loop_over line [] b rest h ne e = ground (arith, length-append line (b ∷ []))
  read_loop_over line (x ∷ l) b rest h ne e = ground (
    arith,
    length-append line (x ∷ []),
    read_loop_over (line ++ x ∷ []) l b rest h.1 ne (omega (arith, length-append line (x ∷ []))),
  )

  -- With 2 ^ 20 bytes and no newline read, one more byte that is no newline is refused, and nothing behind it is read.
  pub read_line_over :
      (l : Bytes) (b : ℕ) (rest : List ReadByte)
      → IsPartial l
      → b ≢ newline
      → length l ≡ max_line_bytes
      → read_line is_utf8 (map byte l ++ byte b ∷ rest) ≡ (err line_too_long, rest)
  unfolding read_line
  read_line_over l b rest h ne e = read_loop_over [] l b rest h ne (omega arith)
