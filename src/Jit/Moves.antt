-- ===== src/Jit/Moves.antt =====
-- Wide moves and the 64-bit immediates made of them (src/randomx/jit/aarch64.rs).
use miner_tim.Common.{
  ℕ, ◌+◌, ◌-◌, ◌*◌, ◌/◌, ◌^◌, bit_and, Bool, true, false, not, ◌&&◌, ◌||◌, ◌==◌, ltb, if◌then◌else◌,
}
use miner_tim.Jit.Emitter.{Emitter, emit, ◌|||◌, shl32}

unfoldable pub movz : ℕ → ℕ → ℕ → Emitter → Emitter
movz rd imm16 shift e =
    let hw = shift / 16 in
    emit (0xD2800000 ||| shl32 hw 21 ||| shl32 (bit_and imm16 0xFFFF) 5 ||| rd) e

unfoldable pub movk : ℕ → ℕ → ℕ → Emitter → Emitter
movk rd imm16 shift e =
    let hw = shift / 16 in
    emit (0xF2800000 ||| shl32 hw 21 ||| shl32 (bit_and imm16 0xFFFF) 5 ||| rd) e

unfoldable pub movn : ℕ → ℕ → ℕ → Emitter → Emitter
movn rd imm16 shift e =
    let hw = shift / 16 in
    emit (0x92800000 ||| shl32 hw 21 ||| shl32 (bit_and imm16 0xFFFF) 5 ||| rd) e

-- Entry `i` of the four 16-bit chunks of a number.
unfoldable pub chunk : ℕ → ℕ → ℕ
chunk x i = bit_and (x / 2 ^ (16 * i)) 0xFFFF

abbrev pub one_if : Bool → ℕ
one_if true = 1
one_if false = 0

unfoldable pub nz_count : ℕ → ℕ
unfolding chunk
nz_count x =
    one_if (not (chunk x 0 == 0))
    + one_if (not (chunk x 1 == 0))
    + one_if (not (chunk x 2 == 0))
    + one_if (not (chunk x 3 == 0))

-- `!imm`.
unfoldable pub complement : ℕ → ℕ
complement imm = 2 ^ 64 - 1 - imm

-- The first chunk that is not zero, or 0.
unfoldable pub first_chunk : ℕ → ℕ
unfolding chunk
first_chunk x =
    if not (chunk x 0 == 0)
    then 0
    else if not (chunk x 1 == 0)
    then 1
    else if not (chunk x 2 == 0)
    then 2
    else if not (chunk x 3 == 0)
    then 3
    else 0

unfoldable pub keep_chunk : ℕ → ℕ → ℕ → Emitter → Emitter
unfolding chunk movk
keep_chunk rd imm i e = if chunk imm i == 0xFFFF then e else movk rd (chunk imm i) (i * 16) e

-- One round of the loop over MOVN and MOVK, with the flag `first`.
unfoldable pub movn_round : ℕ → ℕ → ℕ → Bool × Emitter → Bool × Emitter
unfolding chunk complement first_chunk movn keep_chunk
movn_round rd imm i (first, e) =
    let inv = complement imm in
    if not (chunk inv i == 0) || first
    then (if first
        then (let idx = first_chunk inv in
            let e' = movn rd (chunk inv idx) (idx * 16) e in
            if ltb i idx || i == idx then (false, e') else (false, keep_chunk rd imm i e'))
        else (first, keep_chunk rd imm i e))
    else (first, e)

-- One round of the loop over MOVZ and MOVK.
unfoldable pub movz_round : ℕ → ℕ → ℕ → Bool × Emitter → Bool × Emitter
unfolding chunk movz movk
movz_round rd imm i (first, e) =
    if not (chunk imm i == 0) || first && i == 3
    then (if first
        then (false, movz rd (chunk imm i) (i * 16) e)
        else (first, movk rd (chunk imm i) (i * 16) e))
    else (first, e)

unfoldable pub mov_imm64 : ℕ → ℕ → Emitter → Emitter
unfolding movz nz_count complement movn_round movz_round
mov_imm64 rd imm e =
    if imm == 0
    then movz rd 0 0 e
    else if ltb (nz_count (complement imm)) (nz_count imm)
    then (movn_round rd imm 3
        (movn_round rd imm 2 (movn_round rd imm 1 (movn_round rd imm 0 (true, e))))).1
    else (movz_round rd imm 3
        (movz_round rd imm 2 (movz_round rd imm 1 (movz_round rd imm 0 (true, e))))).1
