-- ===== src/Jit/Emitter.antt =====
-- The code buffer, and the machine arithmetic of the encoder.
use miner_tim.Common.{
  ℕ, ◌*◌, ◌^◌, bit_or, List, [], ◌∷◌, ◌++◌, u32, length, Bool, is_empty as no_words,
}
pub use miner_tim.Common.Int.{ℤ, pos, negsuc, as_u32, div_trunc, negate}

pub record Emitter : Type 0 where
  pub code : List ℕ

abbrev pub new : Emitter
new = record { code = [] }

unfoldable pub len : Emitter → ℕ
len e = length e.code

unfoldable pub clear : Emitter → Emitter
clear e = record e { code = [] }

unfoldable pub is_empty : Emitter → Bool
is_empty e = no_words e.code

unfoldable pub emit : ℕ → Emitter → Emitter
emit inst e = record e { code = e.code ++ inst ∷ [] }

abbrev pub xzr : ℕ
xzr = 31

infixl 55 ◌|||◌
abbrev pub ◌|||◌ : ℕ → ℕ → ℕ
a ||| b = bit_or a b

-- `<<` on u32.
abbrev pub shl32 : ℕ → ℕ → ℕ
shl32 x k = u32 (x * 2 ^ k)
