-- ===== src/RandomX/Aes/Slices.antt =====
-- Blocks read from slices and written to them (src/randomx/aes_hash.rs).
use miner_tim.Common.{
  ℕ, zero, suc, ◌+◌, ◌-◌, ◌≤◌, ◌≡◌, refl, sym, ap, ◌∙◌, arith, Bytes, [], ◌∷◌, ◌++◌, length,
  length-append, take, drop, take-append, drop-append,
}
use miner_tim.RandomX.Aes.{Lanes, load_block, store_block, load_lanes, store_lanes}
use mathlib.Core.List.{append_assoc}

drop-nil : (n : ℕ) → drop {A = ℕ} n [] ≡ []
drop-nil zero = refl
drop-nil (suc n) = refl

drop-add : (a b n : ℕ) (xs : Bytes) → a + b ≡ n → drop n xs ≡ drop b (drop a xs)
drop-add zero b n xs e = ap (λ k. drop k xs) (omega arith)
drop-add (suc a) b zero xs e = absurd (omega arith)
drop-add (suc a) b (suc n) [] e = sym (drop-nil b)
drop-add (suc a) b (suc n) (x ∷ xs) e = drop-add a b n xs (omega arith)

length-drop : (n : ℕ) (xs : Bytes) → length (drop n xs) ≡ length xs - n
length-drop zero xs = omega arith
length-drop (suc n) [] = omega arith
length-drop (suc n) (x ∷ xs) = omega (arith, length-drop n xs)

length-store_block :
    (target : Bytes) (offset : ℕ) (block : Bytes)
    → length block ≡ 16
    → offset + 16 ≤ length target
    → length (store_block target offset block) ≡ length target
unfolding store_block
length-store_block target zero block e le =
    omega (arith, length-append block (drop 16 target), length-drop 16 target)
length-store_block [] (suc offset) block e le = absurd (omega arith)
length-store_block (b ∷ target) (suc offset) block e le =
    ap suc (length-store_block target offset block e (omega arith))

-- A write before a place leaves what begins there.
drop-store_block :
    (target : Bytes) (offset place : ℕ) (block : Bytes)
    → length block ≡ 16
    → offset + 16 ≤ place
    → drop place (store_block target offset block) ≡ drop place target
unfolding store_block
drop-store_block target zero place block e le =
    drop-add 16 (place - 16) place (block ++ drop 16 target) (omega arith)
    ∙ ap (drop (place - 16)) (drop-append block (drop 16 target) 16 e)
    ∙ sym (drop-add 16 (place - 16) place target (omega arith))
drop-store_block target (suc offset) zero block e le = absurd (omega arith)
drop-store_block [] (suc offset) (suc place) block e le = refl
drop-store_block (b ∷ target) (suc offset) (suc place) block e le =
    drop-store_block target offset place block e (omega arith)

-- What ends with a written block.
take-store_block :
    (target : Bytes) (offset n : ℕ) (block : Bytes)
    → length block ≡ 16
    → offset + 16 ≤ length target
    → offset + 16 ≡ n
    → take n (store_block target offset block) ≡ take offset target ++ block
unfolding store_block
take-store_block target zero n block e le at = take-append block (drop 16 target) n (omega arith)
take-store_block [] (suc offset) n block e le at = absurd (omega arith)
take-store_block (b ∷ target) (suc offset) zero block e le at = absurd (omega arith)
take-store_block (b ∷ target) (suc offset) (suc n) block e le at =
    ap (λ bs. b ∷ bs) (take-store_block target offset n block e (omega arith) (omega arith))

-- The four states are blocks.
abbrev pub AreBlocks : Lanes → Type 0
AreBlocks s = (length s.s0 ≡ 16) × (length s.s1 ≡ 16) × (length s.s2 ≡ 16) × (length s.s3 ≡ 16)

-- The row that the four states make.
abbrev pub row : Lanes → Bytes
row s = s.s0 ++ (s.s1 ++ (s.s2 ++ s.s3))

pub length-store_lanes :
    (target : Bytes) (offset : ℕ) (s : Lanes)
    → AreBlocks s
    → offset + 64 ≤ length target
    → length (store_lanes target offset s) ≡ length target
unfolding store_lanes
length-store_lanes target offset s h le =
    let a = store_block target offset s.s0 in
    let b = store_block a (offset + 16) s.s1 in
    let c = store_block b (offset + 32) s.s2 in
    let la : length a ≡ length target = length-store_block target offset s.s0 (h.0) (omega arith) in
    let lb : length b ≡ length a = length-store_block a (offset + 16) s.s1 (h.1) (omega arith) in
    let lc : length c ≡ length b = length-store_block b (offset + 32) s.s2 (h.2) (omega arith) in
    length-store_block c (offset + 48) s.s3 (h.3) (omega arith) ∙ lc ∙ lb ∙ la

pub drop-store_lanes :
    (target : Bytes) (offset : ℕ) (s : Lanes)
    → AreBlocks s
    → drop (offset + 64) (store_lanes target offset s) ≡ drop (offset + 64) target
unfolding store_lanes
drop-store_lanes target offset s h =
    let a = store_block target offset s.s0 in
    let b = store_block a (offset + 16) s.s1 in
    let c = store_block b (offset + 32) s.s2 in
    drop-store_block c (offset + 48) (offset + 64) s.s3 (h.3) (omega arith)
    ∙ drop-store_block b (offset + 32) (offset + 64) s.s2 (h.2) (omega arith)
    ∙ drop-store_block a (offset + 16) (offset + 64) s.s1 (h.1) (omega arith)
    ∙ drop-store_block target offset (offset + 64) s.s0 (h.0) (omega arith)

pub take-store_lanes :
    (target : Bytes) (offset : ℕ) (s : Lanes)
    → AreBlocks s
    → offset + 64 ≤ length target
    → take (offset + 64) (store_lanes target offset s) ≡ take offset target ++ row s
unfolding store_lanes
take-store_lanes target offset s h le =
    let a = store_block target offset s.s0 in
    let b = store_block a (offset + 16) s.s1 in
    let c = store_block b (offset + 32) s.s2 in
    let la : length a ≡ length target = length-store_block target offset s.s0 (h.0) (omega arith) in
    let lb : length b ≡ length a = length-store_block a (offset + 16) s.s1 (h.1) (omega arith) in
    let lc : length c ≡ length b = length-store_block b (offset + 32) s.s2 (h.2) (omega arith) in
    take-store_block c (offset + 48) (offset + 64) s.s3 (h.3) (omega arith) (omega arith)
    ∙ ap (λ x. x ++ s.s3)
        (take-store_block b (offset + 32) (offset + 48) s.s2 (h.2) (omega arith) (omega arith))
    ∙ ap (λ x. (x ++ s.s2) ++ s.s3)
        (take-store_block a (offset + 16) (offset + 32) s.s1 (h.1) (omega arith) (omega arith))
    ∙ ap (λ x. ((x ++ s.s1) ++ s.s2) ++ s.s3)
        (take-store_block target offset (offset + 16) s.s0 (h.0) (omega arith) refl)
    ∙ simp append_assoc

-- Reading a row sees only what begins at its place.
pub load_lanes-drop :
    (xs ys : Bytes) (offset : ℕ)
    → drop offset xs ≡ drop offset ys
    → load_lanes xs offset ≡ load_lanes ys offset
unfolding load_lanes load_block
load_lanes-drop xs ys offset e =
    let same : (k : ℕ) → take 16 (drop (offset + k) xs) ≡ take 16 (drop (offset + k) ys) = λ k.
      ap (take 16) (
        drop-add offset k (offset + k) xs refl
        ∙ ap (drop k) e
        ∙ sym (drop-add offset k (offset + k) ys refl)) in
    λ i. record { s0 = take 16 (e i); s1 = same 16 i; s2 = same 32 i; s3 = same 48 i }

pub drop-more :
    (xs ys : Bytes) (offset k : ℕ)
    → drop offset xs ≡ drop offset ys
    → drop (offset + k) xs ≡ drop (offset + k) ys
drop-more xs ys offset k e =
    drop-add offset k (offset + k) xs refl
    ∙ ap (drop k) e
    ∙ sym (drop-add offset k (offset + k) ys refl)
