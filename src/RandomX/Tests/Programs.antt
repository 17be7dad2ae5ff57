-- ===== src/RandomX/Tests/Programs.antt =====
-- Programs of src/randomx/superscalar.rs and a dataset of src/randomx/dataset.rs: the first program of the repository's test, and those by a digest
-- that is constant.
use miner_tim.Common.{
  All, ℕ, zero, suc, ◌+◌, ◌-◌, ◌%◌, ◌<◌, ◌≡◌, refl, arith, inl, inr, Bool-cases, codes, to_le_bytes,
  ◌++◌, take, drop, from_le_bytes, Option, none, some, Bytes, List, [], ◌∷◌, length, get_or,
  replicate, length-replicate, ltb, ◌==◌,
}
use miner_tim.RandomX.Safety.{Post}
use miner_tim.RandomX.Machine.{Scratchpad}
use miner_tim.RandomX.Dataset.{cache_size, init_dataset_item, fill_chunk, generate, ss_programs}
use miner_tim.RandomX.Dataset.Items.{ss_programs-generate}
use miner_tim.RandomX.Generator.{
  blake2b_digest, Digest, Blake2Generator, new, get_byte, get_u32, check_data, IsValid, new-IsValid,
}
use miner_tim.Hex.{hex_encode}
use miner_tim.RandomX.Blake2b.{
  blake2b_256, blake2b_512, blake2b, blake2b_full, output, finish, compress, absorb_all, initial,
}
use miner_tim.RandomX.Superscalar.{SuperscalarInstruction, SuperscalarProgram}
use miner_tim.RandomX.Superscalar.Execute.{execute_superscalar}
use miner_tim.RandomX.Superscalar.Generate.{generate_superscalar, look_forward}
use miner_tim.RandomX.Superscalar.Operands.{IsEnough}
use miner_tim.RandomX.Superscalar.Rounds.{IsProgram, generate_superscalar-execute_superscalar}
use miner_tim.RandomX.Superscalar.Select.{
  draw_rotation, draw_divisor, is_zero_or_power_of_2, fetch_next, select_for_slot, create,
  select_source, select_destination,
}
use miner_tim.RandomX.Superscalar.Schedule.{schedule_mop}
use miner_tim.RandomX.Superscalar.Safety.{if-either}
use miner_tim.RandomX.Tests.{All-replicate}

abbrev threes : Bytes
threes = replicate 64 3

abbrev constant_digest : Digest
constant_digest = record {
  hash = λ input. threes;
  length-hash = λ input. length-replicate {A = ℕ} 64 3;
  hash-IsByte = λ input. All-replicate 64 3 (omega arith);
}

-- A number is met once the bytes at hand are used up.
draw_rotation-ends :
    (draws : ℕ) (g : Blake2Generator)
    → 64 - g.data_index < draws
    → Post (λ r. Unit {0}) (draw_rotation constant_digest draws g)
unfolding draw_rotation get_byte check_data
draw_rotation-ends zero g lt = absurd (omega arith)
draw_rotation-ends (suc draws) g lt = elim (Bool-cases (ltb 64 (g.data_index + 1))) [
  | inl e ↦ rw (e) tt
  | inr e ↦
      let rest =
        draw_rotation-ends draws (record g { data_index = g.data_index + 1 }) (ground arith) in
      rw (e) (
        if-either (Post (λ r. Unit {0})) (get_or g.bytes g.data_index 0 % 64 == 0) _ _ (λ k. rest)
          (λ k. tt))
]

draw_divisor-ends :
    (draws : ℕ) (g : Blake2Generator)
    → 64 - g.data_index < draws
    → Post (λ r. Unit {0}) (draw_divisor constant_digest draws g)
unfolding draw_divisor get_u32 check_data
draw_divisor-ends zero g lt = absurd (omega arith)
draw_divisor-ends (suc draws) g lt = elim (Bool-cases (ltb 64 (g.data_index + 4))) [
  | inl e ↦ rw (e) tt
  | inr e ↦
      let rest =
        draw_divisor-ends draws (record g { data_index = g.data_index + 4 }) (ground arith) in
      rw (e) (
        if-either (Post (λ r. Unit {0}))
          (is_zero_or_power_of_2 (from_le_bytes (take 4 (drop g.data_index g.bytes)))) _ _
          (λ k. rest) (λ k. tt))
]

constant-IsEnough : IsEnough constant_digest 65
constant-IsEnough = record {
  for_rotation = λ g v. draw_rotation-ends 65 g (omega arith);
  for_divisor = λ g v. draw_divisor-ends 65 g (omega arith);
}

abbrev seeded : Blake2Generator
seeded = new (codes "test key 000") 0

seeded-IsValid : IsValid constant_digest seeded
seeded-IsValid = new-IsValid constant_digest (codes "test key 000") 0 (omega arith)

generate_superscalar-execute_superscalar_example :
    Post
      (λ r.
        IsProgram constant_digest r
        × Post (λ after. length after ≡ 8) (execute_superscalar (replicate 8 1) (r.0)))
      (generate_superscalar constant_digest 65 seeded)
generate_superscalar-execute_superscalar_example =
    generate_superscalar-execute_superscalar constant_digest 65 seeded (replicate 8 1)
      constant-IsEnough seeded-IsValid refl

abbrev zero_cache : Scratchpad
zero_cache = record { byte = λ i. 0; size = cache_size }

ss_programs-generate_example :
    Post
      (λ programs.
        (generate 5 zero_cache programs 2 ≡ fill_chunk (init_dataset_item zero_cache programs) 5 0)
        × Post
            (λ items. (length items ≡ 5) × All (λ (line : List ℕ). length line ≡ 8) items)
            (generate 5 zero_cache programs 2))
      (ss_programs constant_digest 65 (codes "test key 000"))
ss_programs-generate_example =
    ss_programs-generate constant_digest 65 (codes "test key 000") zero_cache 5 2 constant-IsEnough
      (omega arith) refl (omega arith)

abbrev program_bytes : List SuperscalarInstruction → Bytes
program_bytes [] = []
program_bytes (i ∷ rest) =
    i.opcode ∷ i.dst ∷ i.src ∷ i.mod_ ∷ (to_le_bytes 4 i.imm32 ++ program_bytes rest)

abbrev program_hash : Option (SuperscalarProgram × Blake2Generator) → Bytes
program_hash none = []
program_hash (some r) = hex_encode (blake2b_256 (program_bytes r.0.instructions))

-- The first hash of the repository's `test_superscalar_program_generation`.
program_of_test_key :
    take 8 (program_hash (generate_superscalar blake2b_digest 65 seeded)) ≡ codes "d3a4a662"
unfolding draw_rotation draw_divisor generate_superscalar new blake2b_256 hex_encode fetch_next
    select_for_slot create schedule_mop look_forward select_source get_u32 check_data blake2b_512
    blake2b blake2b_full output finish compress absorb_all initial select_destination get_byte
program_of_test_key = refl
