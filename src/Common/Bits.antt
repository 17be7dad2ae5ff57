-- ===== src/Common/Bits.antt =====
-- Laws of the bit operations at variables: `|` of disjoint fields is a sum, `&` with a mask of low
-- ones is a remainder, and `^` with the same word twice cancels.
use Prim.Native.Nat.{
  ℕ, zero, suc, ◌+◌, ◌-◌, ◌*◌, ◌/◌, ◌%◌, ◌^◌, ◌≤◌, ◌<◌, min, max, bit_and, bit_or, bit_xor, digits,
  differ, bit_and-bitwise, bit_or-bitwise, bit_xor-bitwise,
}
use mathlib.Core.Path.{◌≡◌, refl, ap, ap₂}
use native.Mathlib.Nat.{pow-suc, one-le-pow}
use native.Mathlib.Omega.{arith}

module _ (tail : ℕ → ℕ) (digit : ℕ → ℕ → ℕ) where
  -- More fuel than digits changes nothing.
  enough_fuel : (a b m n : ℕ) → a ≤ m → a ≤ n → digits tail digit m a b ≡ digits tail digit n a b
  enough_fuel zero b zero zero hm hn = refl
  enough_fuel zero b zero (suc n) hm hn = refl
  enough_fuel zero b (suc m) zero hm hn = refl
  enough_fuel zero b (suc m) (suc n) hm hn = refl
  enough_fuel (suc a) b zero n hm hn = absurd (omega arith)
  enough_fuel (suc a) b (suc m) zero hm hn = absurd (omega arith)
  enough_fuel (suc a) b (suc m) (suc n) hm hn =
      let fewer = enough_fuel (suc a / 2) (b / 2) m n (omega arith) (omega arith) in
      omega (arith, fewer)

-- One equation for the lowest digit of each operation.
pub bit_or_digit : (a b : ℕ) → bit_or a b ≡ bit_or (a / 2) (b / 2) * 2 + max (a % 2) (b % 2)
bit_or_digit zero b = omega (arith, bit_or-bitwise 0 b, bit_or-bitwise 0 (b / 2))
bit_or_digit (suc a) b = omega (
  arith,
  enough_fuel (λ y. y) max (suc a / 2) (b / 2) a (suc a / 2) (omega arith) (omega arith),
  bit_or-bitwise (suc a / 2) (b / 2),
  bit_or-bitwise (suc a) b,
)

pub bit_and_digit : (a b : ℕ) → bit_and a b ≡ bit_and (a / 2) (b / 2) * 2 + min (a % 2) (b % 2)
bit_and_digit zero b = omega (arith, bit_and-bitwise 0 b, bit_and-bitwise 0 (b / 2))
bit_and_digit (suc a) b = omega (
  arith,
  enough_fuel (λ y. 0) min (suc a / 2) (b / 2) a (suc a / 2) (omega arith) (omega arith),
  bit_and-bitwise (suc a / 2) (b / 2),
  bit_and-bitwise (suc a) b,
)

pub bit_xor_digit : (a b : ℕ) → bit_xor a b ≡ bit_xor (a / 2) (b / 2) * 2 + differ (a % 2) (b % 2)
bit_xor_digit zero b = ground (arith, bit_xor-bitwise 0 b, bit_xor-bitwise 0 (b / 2))
bit_xor_digit (suc a) b = ground (
  arith,
  enough_fuel (λ y. y) differ (suc a / 2) (b / 2) a (suc a / 2) (omega arith) (omega arith),
  bit_xor-bitwise (suc a / 2) (b / 2),
  bit_xor-bitwise (suc a) b,
)

bit_or-zero_below : (n a : ℕ) → a ≤ n → bit_or a 0 ≡ a
bit_or-zero_below n zero h = refl
bit_or-zero_below zero (suc a) h = absurd (omega arith)
bit_or-zero_below (suc n) (suc a) h =
    omega (arith, bit_or_digit (suc a) 0, bit_or-zero_below n (suc a / 2) (omega arith))

pub bit_or-zero : (a : ℕ) → bit_or a 0 ≡ a
bit_or-zero a = bit_or-zero_below a a (omega arith)

pub bit_and-zero_below : (n a : ℕ) → a ≤ n → bit_and a 0 ≡ 0
bit_and-zero_below n zero h = refl
bit_and-zero_below zero (suc a) h = absurd (omega arith)
bit_and-zero_below (suc n) (suc a) h =
    omega (arith, bit_and_digit (suc a) 0, bit_and-zero_below n (suc a / 2) (omega arith))

double-pow : (q k : ℕ) → q * 2 ^ suc k ≡ 2 * (q * 2 ^ k)
double-pow q k = omega (arith, ap (λ (t : ℕ). q * t) (pow-suc 2 k))

-- A field that fits below the bit where the other begins is added by `|`.
pub bit_or_disjoint : (k q r : ℕ) → r < 2 ^ k → bit_or (q * 2 ^ k) r ≡ q * 2 ^ k + r
bit_or_disjoint zero q r h = ground (arith, bit_or-zero q)
bit_or_disjoint (suc k) q r h = ground (
  arith,
  bit_or_digit (q * 2 ^ suc k) r,
  double-pow q k,
  pow-suc 2 k,
  bit_or_disjoint k q (r / 2) (omega (arith, pow-suc 2 k)),
)

bit_and_split : (k q r : ℕ) → r < 2 ^ k → bit_and (q * 2 ^ k + r) (2 ^ k - 1) ≡ r
bit_and_split zero q r h = ground (arith, bit_and-zero_below (q + r) (q + r) (omega arith))
bit_and_split (suc k) q r h = ground (
  arith,
  bit_and_digit (q * 2 ^ suc k + r) (2 ^ suc k - 1),
  double-pow q k,
  pow-suc 2 k,
  one-le-pow k 2,
  bit_and_split k q (r / 2) (omega (arith, pow-suc 2 k)),
)

-- `&` with `k` low ones is the remainder by `2 ^ k`.
pub bit_and_low : (k a : ℕ) → bit_and a (2 ^ k - 1) ≡ a % 2 ^ k
bit_and_low k a = ground (arith, one-le-pow k 2, bit_and_split k (a / 2 ^ k) (a % 2 ^ k))

differ_twice : (x y : ℕ) → x < 2 → y < 2 → (differ x y < 2) × (differ (differ x y) y ≡ x)
differ_twice zero zero p q = (omega arith, refl)
differ_twice zero (suc zero) p q = (omega arith, refl)
differ_twice (suc zero) zero p q = (omega arith, refl)
differ_twice (suc zero) (suc zero) p q = (omega arith, refl)
differ_twice (suc (suc x)) y p q = absurd (omega arith)
differ_twice zero (suc (suc y)) p q = absurd (omega arith)
differ_twice (suc zero) (suc (suc y)) p q = absurd (omega arith)

-- The two digits of an exclusive or.
pub bit_xor_parts :
    (a b : ℕ)
    → (bit_xor a b / 2 ≡ bit_xor (a / 2) (b / 2)) × (bit_xor a b % 2 ≡ differ (a % 2) (b % 2))
bit_xor_parts a b = (
  omega (arith, bit_xor_digit a b, differ_twice (a % 2) (b % 2) (omega arith) (omega arith)),
  omega (arith, bit_xor_digit a b, differ_twice (a % 2) (b % 2) (omega arith) (omega arith)),
)

xor_cancel_below : (n a b : ℕ) → a ≤ n → b ≤ n → bit_xor (bit_xor a b) b ≡ a
xor_cancel_below zero zero zero p q = refl
xor_cancel_below zero (suc a) b p q = absurd (omega arith)
xor_cancel_below zero zero (suc b) p q = absurd (omega arith)
xor_cancel_below (suc n) a b p q = ground (
  arith,
  bit_xor_parts a b,
  bit_xor_digit (bit_xor a b) b,
  differ_twice (a % 2) (b % 2) (omega arith) (omega arith),
  xor_cancel_below n (a / 2) (b / 2) (omega arith) (omega arith),
)

-- `^` with the same word twice gives the first back.
pub bit_xor_cancel : (a b : ℕ) → bit_xor (bit_xor a b) b ≡ a
bit_xor_cancel a b = xor_cancel_below (a + b) a b (omega arith) (omega arith)

-- A result of `^` is no wider than its operands.
pub bit_xor-lt : (k a b : ℕ) → a < 2 ^ k → b < 2 ^ k → bit_xor a b < 2 ^ k
bit_xor-lt zero zero zero p q = omega arith
bit_xor-lt zero (suc a) b p q = absurd (omega arith)
bit_xor-lt zero zero (suc b) p q = absurd (omega arith)
bit_xor-lt (suc k) a b p q = ground (
  arith,
  bit_xor_digit a b,
  differ_twice (a % 2) (b % 2) (omega arith) (omega arith),
  pow-suc 2 k,
  bit_xor-lt k (a / 2) (b / 2) (omega (arith, pow-suc 2 k)) (omega (arith, pow-suc 2 k)),
)

pub bit_or-lt : (k a b : ℕ) → a < 2 ^ k → b < 2 ^ k → bit_or a b < 2 ^ k
bit_or-lt zero zero zero p q = omega arith
bit_or-lt zero (suc a) b p q = absurd (omega arith)
bit_or-lt zero zero (suc b) p q = absurd (omega arith)
bit_or-lt (suc k) a b p q = omega (
  arith,
  bit_or_digit a b,
  pow-suc 2 k,
  bit_or-lt k (a / 2) (b / 2) (omega (arith, pow-suc 2 k)) (omega (arith, pow-suc 2 k)),
)

-- Low bits that only one operand has stay as they are.
pub bit_or_high :
    (k a b r : ℕ) → r < 2 ^ k → bit_or (a * 2 ^ k + r) (b * 2 ^ k) ≡ bit_or a b * 2 ^ k + r
bit_or_high zero a b r h = ground arith
bit_or_high (suc k) a b r h = omega (
  arith,
  bit_or_digit (a * 2 ^ suc k + r) (b * 2 ^ suc k),
  double-pow (bit_or a b) k,
  double-pow a k,
  double-pow b k,
  halves,
  bit_or_high k a b (r / 2) (omega (arith, pow-suc 2 k)),
)
  where
    halves :
        bit_or ((a * 2 ^ suc k + r) / 2) (b * 2 ^ suc k / 2)
        ≡ bit_or (a * 2 ^ k + r / 2) (b * 2 ^ k)
    halves = ap₂ bit_or (omega (arith, double-pow a k)) (omega (arith, double-pow b k))
