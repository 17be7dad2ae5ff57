-- ===== src/RandomX/Runs.antt =====
-- Runs of the loop of `execute_bytecode` (src/randomx/vm.rs) that end.
use miner_tim.Common.{
  ℕ, zero, suc, ◌^◌, ◌%◌, ◌<◌, ◌≤◌, ◌≡◌, refl, arith, Option, none, some, get_elem?, length, List,
  [], ◌∷◌,
}
use miner_tim.Common.Int.{ℤ, pos, negsuc, succ, as_u32, as_i16}
use miner_tim.RandomX.Instruction.{BytecodeInstruction, RxVersion}
use miner_tim.RandomX.Machine.{FloatUnit, Machine, ProgramConfiguration}
use miner_tim.RandomX.Execute.{out_of_bounds, execute_instruction, execute_loop}
use miner_tim.RandomX.Safety.{Post, IsReady}
use miner_tim.RandomX.Targets.{after}
use miner_tim.RandomX.Visits.{Ends}

pub get_elem?-found :
    (xs : List BytecodeInstruction) (i : ℕ)
    → i < length xs
    → (x : BytecodeInstruction) × (get_elem? xs i ≡ some x)
get_elem?-found [] i h = absurd (omega arith)
get_elem?-found (x ∷ xs) zero h = (x, refl)
get_elem?-found (x ∷ xs) (suc i) h = get_elem?-found xs i (omega arith)

get_elem?-past : (xs : List BytecodeInstruction) (i : ℕ) → length xs ≤ i → get_elem? xs i ≡ none
get_elem?-past [] i h = refl
get_elem?-past (x ∷ xs) zero h = absurd (omega arith)
get_elem?-past (x ∷ xs) (suc i) h = get_elem?-past xs i (omega arith)

-- A target in a short program fits 16 bits.
pub as_i16-small :
    (last : ℤ) → succ last ≡ pos (after last) → after last ≤ 2 ^ 15 → as_i16 last ≡ last
as_i16-small (pos n) h small =
    let low : as_u32 (pos n) % 2 ^ 16 ≡ n = omega arith in ground (arith, low)
as_i16-small (negsuc zero) h small = refl
as_i16-small (negsuc (suc n)) h small = absurd (cc)

module _ (U : FloatUnit) (config : ProgramConfiguration) (version : RxVersion)
    (code : List BytecodeInstruction) where
  -- With `k` turns or more the loop finishes.
  unfoldable pub EndsBy : ℕ → ℤ → Machine (U.F64) → Type 0
  unfolding Ends
  EndsBy k pc m = (fuel : ℕ) → k ≤ fuel → Ends (execute_loop U config version code fuel pc m)

  pub EndsBy-weaken :
      (k n : ℕ) (pc : ℤ) (m : Machine (U.F64)) → EndsBy k pc m → k ≤ n → EndsBy n pc m
  unfolding EndsBy
  EndsBy-weaken k n pc m h le fuel hf = h fuel (omega arith)

  pub EndsBy-past : (n : ℕ) (m : Machine (U.F64)) → length code ≤ n → IsReady m → EndsBy 1 (pos n) m
  unfolding EndsBy Ends execute_loop
  EndsBy-past n m h ready zero hf = absurd (omega arith)
  EndsBy-past n m h ready (suc fuel) hf = rw (get_elem?-past code n h, Ends, execute_loop) ready

  goes_on :
      (fuel : ℕ) (o : Option (Machine (U.F64) × ℤ)) (P : Machine (U.F64) × ℤ → Type 0)
      → Post P o
      → ((r : Machine (U.F64) × ℤ)
          → P r
          → Ends (execute_loop U config version code fuel (r.1) (r.0)))
      → Ends (elim o [
        | none ↦ out_of_bounds
        | some next ↦ execute_loop U config version code fuel (next.1) (next.0)
      ])
  goes_on fuel none P hp go = elim hp [ ]
  goes_on fuel (some r) P hp go = go r hp

  -- One turn, and what follows it.
  pub EndsBy-turn :
      (k n : ℕ) (b : BytecodeInstruction) (m : Machine (U.F64)) (P : Machine (U.F64) × ℤ → Type 0)
      → get_elem? code n ≡ some b
      → Post P (execute_instruction U config version b (pos n) m)
      → ((r : Machine (U.F64) × ℤ) → P r → EndsBy k (r.1) (r.0))
      → EndsBy (suc k) (pos n) m
  unfolding EndsBy Ends execute_loop
  EndsBy-turn k n b m P found hp go zero hf = absurd (omega arith)
  EndsBy-turn k n b m P found hp go (suc fuel) hf =
      rw (found, Ends, execute_loop)
        (goes_on fuel (execute_instruction U config version b (pos n) m) P hp
          (λ r hr. go r hr fuel (omega arith)))
