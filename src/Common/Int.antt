-- ===== src/Common/Int.antt =====
-- Signed integers, and what a cast of an i32 to u32 makes of them.
use Prim.Native.Nat.{ℕ, zero, suc, ◌-◌, ◌*◌, ◌/◌, ◌^◌, ◌%◌, compare, Ordering}
use miner_tim.Common.Words.{u32, u64}

pub data ℤ : Type 0 where
  pos : ℕ → ℤ
  negsuc : ℕ → ℤ

-- `as u32` of an i32.
abbrev pub as_u32 : ℤ → ℕ
as_u32 (pos n) = u32 n
as_u32 (negsuc n) = u32 (2 ^ 32 - 1 - n)

abbrev pub negate : ℕ → ℤ
negate zero = pos 0
negate (suc n) = negsuc n

-- `/` of an i32 by a positive constant, which truncates.
abbrev pub div_trunc : ℤ → ℕ → ℤ
div_trunc (pos n) d = pos (n / d)
div_trunc (negsuc n) d = negate (suc n / d)

abbrev pub times : ℤ → ℤ → ℤ
times (pos a) (pos b) = pos (a * b)
times (pos a) (negsuc b) = negate (a * suc b)
times (negsuc a) (pos b) = negate (suc a * b)
times (negsuc a) (negsuc b) = pos (suc a * suc b)

-- `>> k` of a signed number, which rounds down.
abbrev pub shift_right : ℤ → ℕ → ℤ
shift_right (pos n) k = pos (n / 2 ^ k)
shift_right (negsuc n) k = negsuc (n / 2 ^ k)

-- `as u64` of a wider signed number.
abbrev pub as_u64 : ℤ → ℕ
as_u64 (pos n) = u64 n
as_u64 (negsuc n) = 2 ^ 64 - 1 - u64 n

-- `as i64` of a u64, and `as i16` of an i32.
abbrev pub as_i64 : ℕ → ℤ
as_i64 x = elim (compare x (2 ^ 63)) [ Ordering.lt ↦ pos x | _ ↦ negsuc (2 ^ 64 - 1 - x) ]

abbrev pub as_i16 : ℤ → ℤ
as_i16 x = elim (compare (as_u32 x % 2 ^ 16) (2 ^ 15)) [
  | Ordering.lt ↦ pos (as_u32 x % 2 ^ 16)
  | _ ↦ negsuc (2 ^ 16 - 1 - as_u32 x % 2 ^ 16)
]

-- One more.
abbrev pub succ : ℤ → ℤ
succ (pos n) = pos (suc n)
succ (negsuc zero) = pos 0
succ (negsuc (suc n)) = negsuc n
