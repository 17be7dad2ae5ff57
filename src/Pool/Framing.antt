-- ===== src/Pool/Framing.antt =====
-- How bytes become lines (src/pool_connection.rs, `read_line` and `take_complete_lines`).
-- What the standard library does with the bytes of a line is a parameter: `clean` is
-- `String::from_utf8_lossy(..).trim()`, and `is_utf8` tells whether `String::from_utf8` succeeds.
pub mod Lines
pub mod Limit
use miner_tim.Common.{
  ℕ, zero, suc, ◌+◌, List, [], ◌∷◌, ◌++◌, Option, none, some, Bool, Bytes, ltb, ◌==◌, if◌then◌else◌,
  length, is_empty,
}
use miner_tim.Pool.State.{max_line_bytes, Result, ok, err, line_too_long, read_failed, invalid_utf8}

abbrev pub newline : ℕ
newline = 10

-- What one read of one byte returns: a byte, `Ok(0)`, or an error.
pub data ReadByte : Type 0 where
  byte : ℕ → ReadByte
  closed failed : ReadByte

-- The outcome of a read, and the reads that are still to come.
abbrev pub Reading : Type 0
Reading = Result Bytes × List ReadByte

unfoldable pub finish : (Bytes → Bool) → Bytes → Result Bytes
finish is_utf8 line = if is_utf8 line then ok line else err invalid_utf8

-- The loop of `read_line`; reads past the end of the list find the connection closed.
unfoldable pub read_loop : (Bytes → Bool) → Bytes → List ReadByte → Reading
unfolding finish
read_loop is_utf8 line [] = (finish is_utf8 line, [])
read_loop is_utf8 line (closed ∷ rest) = (finish is_utf8 line, rest)
read_loop is_utf8 line (failed ∷ rest) = (err read_failed, rest)
read_loop is_utf8 line (byte b ∷ rest) =
    let more = read_loop is_utf8 (line ++ b ∷ []) rest in
    if b == newline
    then (finish is_utf8 line, rest)
    else if ltb max_line_bytes (length (line ++ b ∷ []))
    then (err line_too_long, rest)
    else more

unfoldable pub read_line : (Bytes → Bool) → List ReadByte → Reading
unfolding read_loop
read_line is_utf8 reads = read_loop is_utf8 [] reads

-- `position` of the first newline and `drain(..=pos)`: the bytes up to and with it, and the others.
unfoldable pub split_line : Bytes → Option (Bytes × Bytes)
split_line [] = none
split_line (b ∷ bs) =
    if b == newline
    then some (b ∷ [], bs)
    else elim (split_line bs) [ none ↦ none | some (raw, rest) ↦ some (b ∷ raw, rest) ]

-- An empty line is dropped.
unfoldable pub push_line : Bytes → List Bytes → List Bytes
push_line line lines = if is_empty line then lines else line ∷ lines

-- The loop of `take_complete_lines`: the lines, and the partial one that stays. Each round takes a
-- byte at least, so that the length of the buffer is fuel enough.
unfoldable pub drain_lines : (Bytes → Bytes) → ℕ → Bytes → List Bytes × Bytes
unfolding split_line push_line
drain_lines clean zero pending = ([], pending)
drain_lines clean (suc fuel) pending = elim (split_line pending) [
  | none ↦ ([], pending)
  | some (raw, rest) ↦
      let (lines, left) = drain_lines clean fuel rest in (push_line (clean raw) lines, left)
]

pub data Taken : Type 0 where
  lines : List Bytes → Taken
  overflow : ℕ → Taken

-- The outcome and the buffer that is left.
unfoldable pub take_complete_lines : (Bytes → Bytes) → Bytes → Taken × Bytes
unfolding drain_lines
take_complete_lines clean pending =
    let (found, left) = drain_lines clean (length pending) pending in
    if ltb max_line_bytes (length left) then (overflow (length left), left) else (lines found, left)
