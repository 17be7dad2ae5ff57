-- ===== src/RandomX/Tests/Hashing.antt =====
-- Hashing of src/randomx with rounds that are easy to follow: they repeat a byte of state and key.
use miner_tim.Common.{
  ℕ, ◌+◌, ◌%◌, ◌≡◌, refl, sym, arith, some, ◌>>=◌, Bytes, [], ◌∷◌, replicate, get_or, take,
  length-replicate,
}
use miner_tim.RandomX.Instruction.{v1}
use miner_tim.RandomX.Safety.{Post}
use miner_tim.RandomX.Blake2b.{
  blake2b_full, blake2b, blake2b_512, initial, absorb_all, finish, compress, output,
}
use miner_tim.RandomX.Blake2b.Digest.{reference, blake2b_full-reference}
use miner_tim.RandomX.Aes.{AesRounds, fill_aes_1rx4, hash_aes_1rx4, hash_and_fill_aes_1rx4}
use miner_tim.RandomX.Aes.Fused.{hash_and_fill-hash-fill}
use miner_tim.RandomX.Hasher.{
  RandomXVm, new_full, calculate_hash, prepare_scratchpad, calculate_hash_pipelined,
}
use miner_tim.RandomX.Hasher.Through.{IsValid, Prepared, Post-some, hash_result}
use miner_tim.RandomX.Hasher.Pipelined.{
  prepare_scratchpad-Prepared, pipelined-calculate_hash, new_full-IsValid,
}
use miner_tim.RandomX.Tests.{All-replicate, whole_numbers}

-- The first bytes of the digest of "abc" (RFC 7693, appendix A).
digest_of_abc : take 4 (blake2b_512 (97 ∷ 98 ∷ 99 ∷ [])) ≡ 0xba ∷ 0x80 ∷ 0xa5 ∷ 0x3f ∷ []
unfolding blake2b_512 blake2b blake2b_full initial absorb_all finish compress output
digest_of_abc = refl

blake2b_full-reference_example :
    blake2b_full 32 (1 ∷ []) (97 ∷ 98 ∷ 99 ∷ []) ≡ some (reference 32 (1 ∷ []) (97 ∷ 98 ∷ 99 ∷ []))
blake2b_full-reference_example =
    blake2b_full-reference 32 (1 ∷ []) (97 ∷ 98 ∷ 99 ∷ []) (omega arith) (omega arith) (omega arith)

abbrev repeat_sum : Bytes → Bytes → Bytes
repeat_sum s k = replicate 16 ((get_or s 0 0 + get_or k 0 0) % 256)

abbrev sums : AesRounds
sums = record {
  enc = repeat_sum;
  dec = repeat_sum;
  length-enc = λ s k. length-replicate 16 ((get_or s 0 0 + get_or k 0 0) % 256);
  length-dec = λ s k. length-replicate 16 ((get_or s 0 0 + get_or k 0 0) % 256);
  enc-IsByte = λ s k. All-replicate 16 ((get_or s 0 0 + get_or k 0 0) % 256) (omega arith);
  dec-IsByte = λ s k. All-replicate 16 ((get_or s 0 0 + get_or k 0 0) % 256) (omega arith);
}

hash_and_fill-hash-fill_example :
    hash_and_fill_aes_1rx4 sums (replicate 128 7) (replicate 64 0) (replicate 64 1) ≡ (
      hash_aes_1rx4 sums (replicate 128 7) >>= λ hash.
      fill_aes_1rx4 sums (replicate 64 1) (replicate 128 7) >>= λ filled.
      some (hash, filled.0, filled.1))
hash_and_fill-hash-fill_example = hash_and_fill-hash-fill sums (replicate 128 7) (replicate 64 1)

abbrev two_numbers : ℕ → ℕ → ℕ
two_numbers n i = n + i

started : RandomXVm whole_numbers sums
started = new_full whole_numbers sums [] two_numbers v1

started-IsValid : IsValid whole_numbers sums started
unfolding started
started-IsValid = new_full-IsValid whole_numbers sums two_numbers v1

-- The machine prepared for the input 5.
first_fill :
    (vm : RandomXVm whole_numbers sums) × (prepare_scratchpad whole_numbers sums (5 ∷ []) started
      ≡ some vm)
    × (Prepared whole_numbers sums (5 ∷ []) vm
        × ((vm.dataset ≡ started.dataset) × (vm.version ≡ started.version)))
first_fill =
    Post-some _ (prepare_scratchpad whole_numbers sums (5 ∷ []) started)
      (prepare_scratchpad-Prepared whole_numbers sums (5 ∷ []) started started-IsValid)

pipelined-calculate_hash_example :
    Post
      (λ (r : Bytes × RandomXVm whole_numbers sums).
        (hash_result whole_numbers sums (calculate_hash whole_numbers sums (5 ∷ []) started)
          ≡ some (r.0))
        × (Prepared whole_numbers sums (6 ∷ []) (r.1)
            × ((r.1.dataset ≡ first_fill.0.dataset) × (r.1.version ≡ first_fill.0.version))))
      (calculate_hash_pipelined whole_numbers sums (6 ∷ []) first_fill.0)
pipelined-calculate_hash_example =
    pipelined-calculate_hash whole_numbers sums (5 ∷ []) (6 ∷ []) first_fill.0 started
      (first_fill.2.0) started-IsValid (sym (first_fill.2.1.0)) (sym (first_fill.2.1.1))
