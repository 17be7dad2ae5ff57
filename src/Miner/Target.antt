-- ===== src/Miner/Target.antt =====
-- The two widths of a target, and writing a nonce over another one (src/miner.rs).
use miner_tim.Common.{
  ℕ, zero, suc, ◌+◌, ◌*◌, ◌^◌, ◌<◌, ◌≡◌, ◌≢◌, ◌↔◌, refl, ap, ◌∙◌, sym, arith, [], ◌∷◌, Option, none,
  some, Bool, true, false, Bytes, from_le_bytes, length, take, drop, set, All, length-set, eq_bytes,
  eq_bytes→eq, eq_bytes_refl, Bool-cases, inl, inr,
}
use miner_tim.Hex.RoundTrip.{IsByte}
use miner_tim.Miner.Shares.{meets_target, write_nonce_le, should_submit, classify_share}

drop-drop : (i j k : ℕ) (xs : Bytes) → k ≡ j + i → drop i (drop j xs) ≡ drop k xs
drop-drop i zero k xs e = ap (λ (n : ℕ). drop n xs) (same e)
  where
    same : k ≡ 0 + i → i ≡ k
    same h = omega arith
drop-drop i (suc j) zero xs e = absurd (omega arith)
drop-drop zero (suc j) (suc k) [] e = refl
drop-drop (suc i) (suc j) (suc k) [] e = refl
drop-drop i (suc j) (suc k) (x ∷ xs) e = drop-drop i j k xs (omega arith)

halves :
    (xs : Bytes)
    → from_le_bytes (take 8 xs)
      ≡ from_le_bytes (take 4 xs) + 2 ^ 32 * from_le_bytes (take 4 (drop 4 xs))
halves [] = refl
halves (a ∷ []) = omega arith
halves (a ∷ b ∷ []) = omega arith
halves (a ∷ b ∷ c ∷ []) = omega arith
halves (a ∷ b ∷ c ∷ d ∷ xs) = omega arith

four_bytes-lt : (xs : Bytes) → All IsByte xs → from_le_bytes (take 4 xs) < 2 ^ 32
four_bytes-lt [] h = omega arith
four_bytes-lt (a ∷ []) (p, h) = omega arith
four_bytes-lt (a ∷ b ∷ []) (p, (q, h)) = omega arith
four_bytes-lt (a ∷ b ∷ c ∷ []) (p, (q, (r, h))) = omega arith
four_bytes-lt (a ∷ b ∷ c ∷ d ∷ xs) (p, (q, (r, (s, h)))) = omega arith

drop-All : (k : ℕ) (xs : Bytes) → All IsByte xs → All IsByte (drop k xs)
drop-All zero xs h = h
drop-All (suc k) [] h = tt
drop-All (suc k) (x ∷ xs) (p, h) = drop-All k xs h

-- A compact target that is not zero accepts the same hashes as the full target whose high half it is and whose low half
-- is all ones.
pub compact_target :
    (hash : Bytes) (t0 t1 t2 t3 : ℕ)
    → All IsByte hash
    → from_le_bytes (t0 ∷ t1 ∷ t2 ∷ t3 ∷ []) ≢ 0
    → meets_target hash (t0 ∷ t1 ∷ t2 ∷ t3 ∷ [])
      ≡ meets_target hash (255 ∷ 255 ∷ 255 ∷ 255 ∷ t0 ∷ t1 ∷ t2 ∷ t3 ∷ [])
unfolding meets_target
compact_target hash t0 t1 t2 t3 h nz = ground (
  arith,
  halves (drop 24 hash),
  four_bytes-lt (drop 24 hash) (drop-All 24 hash h),
  ap (λ (xs : Bytes). from_le_bytes (take 4 xs)) (drop-drop 4 24 28 hash refl),
)

-- Overwriting four bytes of a list.
abbrev patch : ℕ → Bytes → ℕ → ℕ → ℕ → ℕ → Bytes
patch i xs a b c d = set (set (set (set xs i a) (suc i) b) (suc (suc i)) c) (suc (suc (suc i))) d

patch_twice :
    (i : ℕ) (xs : Bytes) (a b c d a' b' c' d' : ℕ)
    → patch i (patch i xs a b c d) a' b' c' d' ≡ patch i xs a' b' c' d'
patch_twice i [] a b c d a' b' c' d' = refl
patch_twice zero (x ∷ []) a b c d a' b' c' d' = refl
patch_twice zero (x ∷ y ∷ []) a b c d a' b' c' d' = refl
patch_twice zero (x ∷ y ∷ z ∷ []) a b c d a' b' c' d' = refl
patch_twice zero (x ∷ y ∷ z ∷ w ∷ xs) a b c d a' b' c' d' = refl
patch_twice (suc i) (x ∷ xs) a b c d a' b' c' d' =
    ap (λ (ys : Bytes). x ∷ ys) (patch_twice i xs a b c d a' b' c' d')

-- A nonce written over another one leaves no trace of it.
pub write_nonce_le_twice :
    (blob : Bytes) (n k : ℕ) → write_nonce_le (write_nonce_le blob n) k ≡ write_nonce_le blob k
unfolding write_nonce_le
write_nonce_le_twice blob n k = patch_twice 39 blob _ _ _ _ _ _ _ _

pub length-write_nonce_le : (blob : Bytes) (n : ℕ) → length (write_nonce_le blob n) ≡ length blob
unfolding write_nonce_le
length-write_nonce_le blob n =
    length-set _ 42 _ ∙ length-set _ 41 _ ∙ length-set _ 40 _ ∙ length-set blob 39 _

-- A share is held back exactly if verification applies and the reference hash is there and is another one.
pub withheld_iff :
    (applies : Bool) (mined : Bytes) (reference : Option Bytes)
    → (should_submit (classify_share applies mined reference) ≡ false)
      ↔ (applies ≡ true) × ((r : Bytes) × (reference ≡ some r) × (r ≢ mined))
unfolding should_submit classify_share
withheld_iff false mined reference = (λ h. cc, λ (a, h). cc)
withheld_iff true mined none = (λ h. cc, λ (a, (r, e, ne)). cc)
withheld_iff true mined (some r) = elim (Bool-cases (eq_bytes r mined)) [
  | inl same ↦
      rw (same, should_submit, classify_share)
        (λ h. cc, λ (a, (s, e, ne)). absurd (ne (sym (some_inj r s e) ∙ eq_bytes→eq r mined same)))
  | inr other ↦
      rw (other, should_submit, classify_share)
        (λ h. (refl, (r, refl, λ e. distinct e other)), λ h. refl)
]
  where
    some_inj : (x y : Bytes) → some x ≡ some y → x ≡ y
    some_inj x y e = ap (λ o. elim o as (λ z. Bytes) [ none ↦ x | some z ↦ z ]) e

    distinct : r ≡ mined → eq_bytes r mined ≡ false → ⊥
    distinct e h =
        let b : eq_bytes r mined ≡ true =
          ap (λ (x : Bytes). eq_bytes r x) (sym e) ∙ eq_bytes_refl r in
        cc
