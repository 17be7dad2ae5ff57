-- ===== src/Common/Masks.antt =====
-- `&` with masks that end in ones or in zeros.
use miner_tim.Common.{ℕ, zero, suc, ◌+◌, ◌-◌, ◌*◌, ◌/◌, ◌^◌, ◌<◌, bit_and, ◌≡◌, ap, ap₂, arith}
use miner_tim.Common.Bits.{bit_and_digit}
use native.Mathlib.Nat.{pow-suc, one-le-pow}

pub double-pow : (q k : ℕ) → q * 2 ^ suc k ≡ 2 * (q * 2 ^ k)
double-pow q k = omega (arith, ap (λ (t : ℕ). q * t) (pow-suc 2 k))

-- A mask with ones below a bit keeps what is there.
pub bit_and_ones :
    (k a b r : ℕ)
    → r < 2 ^ k
    → bit_and (a * 2 ^ k + r) (b * 2 ^ k + (2 ^ k - 1)) ≡ bit_and a b * 2 ^ k + r
bit_and_ones zero a b r h = ground arith
bit_and_ones (suc k) a b r h = omega (
  arith,
  bit_and_digit (a * 2 ^ suc k + r) (b * 2 ^ suc k + (2 ^ suc k - 1)),
  double-pow (bit_and a b) k,
  double-pow a k,
  double-pow b k,
  pow-suc 2 k,
  one-le-pow k 2,
  halves,
  bit_and_ones k a b (r / 2) (omega (arith, pow-suc 2 k)),
)
  where
    halves :
        bit_and ((a * 2 ^ suc k + r) / 2) ((b * 2 ^ suc k + (2 ^ suc k - 1)) / 2)
        ≡ bit_and (a * 2 ^ k + r / 2) (b * 2 ^ k + (2 ^ k - 1))
    halves =
        ap₂ bit_and (omega (arith, double-pow a k))
          (omega (arith, double-pow b k, pow-suc 2 k, one-le-pow k 2))

-- A mask with zeros below a bit drops what is there.
pub bit_and_zeros :
    (k a b r : ℕ) → r < 2 ^ k → bit_and (a * 2 ^ k + r) (b * 2 ^ k) ≡ bit_and a b * 2 ^ k
bit_and_zeros zero a b r h = ground arith
bit_and_zeros (suc k) a b r h = omega (
  arith,
  bit_and_digit (a * 2 ^ suc k + r) (b * 2 ^ suc k),
  double-pow (bit_and a b) k,
  double-pow a k,
  double-pow b k,
  halves,
  bit_and_zeros k a b (r / 2) (omega (arith, pow-suc 2 k)),
)
  where
    halves :
        bit_and ((a * 2 ^ suc k + r) / 2) (b * 2 ^ suc k / 2)
        ≡ bit_and (a * 2 ^ k + r / 2) (b * 2 ^ k)
    halves = ap₂ bit_and (omega (arith, double-pow a k)) (omega (arith, double-pow b k))
