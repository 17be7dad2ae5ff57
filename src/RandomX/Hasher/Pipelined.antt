-- ===== src/RandomX/Hasher/Pipelined.antt =====
-- Pipelined hashing against `calculate_hash` (`RandomXVm` of src/randomx/vm.rs).
use miner_tim.Common.{
  Option, none, ℕ, ◌≡◌, refl, sym, ap, ◌∙◌, some, Bytes, [], length, length-replicate, subst,
}
use miner_tim.RandomX.Instruction.{RxVersion, program_bytes_size, scratchpad_l3_size}
use miner_tim.RandomX.Machine.{FloatUnit}
use miner_tim.RandomX.Safety.{Post}
use miner_tim.RandomX.Blake2b.{blake2b_512}
use miner_tim.RandomX.Aes.{AesRounds, fill_aes_1rx4}
use miner_tim.RandomX.Aes.Streams.{fill_aes_1rx4-length, fill_aes_1rx4-length-Post}
use miner_tim.RandomX.Hasher.{
  bytes_of, pad_of, new_register_file, RandomXVm, new_full, run_programs, calculate_hash,
  prepare_scratchpad, calculate_hash_pipelined,
}
use miner_tim.RandomX.Hasher.Through.{
  length-bytes_of, Post-some, IsValid, Prepared, hash_result, run_programs-same, result-scratchpad,
  calculate_hash-result, rows, size-pad_of, filled_next-Prepared, IsValid-Passage,
  pipelined-outcome,
}

Post-both :
    {A : Type 0} (P Q : A → Type 0) (o : Option A) → Post P o → Post Q o → Post (λ a. P a × Q a) o
Post-both P Q none h k = h
Post-both P Q (some a) h k = (h, k)

module _ (U : FloatUnit) (aes : AesRounds) where
  -- A valid machine: `prepare_scratchpad` completes and leaves it prepared for the input, with its
  -- dataset and its version.
  pub prepare_scratchpad-Prepared :
      (input : Bytes) (vm : RandomXVm U aes)
      → IsValid U aes vm
      → Post
          (λ (r : RandomXVm U aes).
            Prepared U aes input r × ((r.dataset ≡ vm.dataset) × (r.version ≡ vm.version)))
          (prepare_scratchpad U aes input vm)
  unfolding prepare_scratchpad
  prepare_scratchpad-Prepared input vm valid =
      let slice = bytes_of vm.machine.scratchpad in
      let (filled, e_filled, e_size) =
        Post-some (λ (r : Bytes × Bytes). length (r.1) ≡ length slice)
          (fill_aes_1rx4 aes (blake2b_512 input) slice)
          (fill_aes_1rx4-length-Post aes (blake2b_512 input) slice
            (rows U aes vm.machine.scratchpad valid.pad_size)) in
      let size : length slice ≡ scratchpad_l3_size =
        length-bytes_of vm.machine.scratchpad ∙ valid.pad_size in
      rw (e_filled) (
        record {
          valid = record {
            pad_size = size-pad_of U aes (filled.1) ∙ e_size ∙ size;
            program_length = valid.program_length;
          };
          old = slice;
          content = filled.1;
          old_size = size;
          filled = e_filled;
          holds_it = refl;
        },
        (refl, refl),
      )

  -- A valid machine, prepared or not: the pipelined call completes and leaves the machine prepared
  -- for the next input.
  pub pipelined-Prepared :
      (next_input : Bytes) (vm : RandomXVm U aes)
      → IsValid U aes vm
      → Post
          (λ (r : Bytes × RandomXVm U aes).
            Prepared U aes next_input (r.1)
            × ((r.1.dataset ≡ vm.dataset) × (r.1.version ≡ vm.version)))
          (calculate_hash_pipelined U aes next_input vm)
  pipelined-Prepared next_input vm valid =
      let t = IsValid-Passage U aes next_input vm valid in
      subst (Post _) (sym (pipelined-outcome U aes next_input vm t)) (
        filled_next-Prepared U aes next_input vm t.ran t.hash t.filled (bytes_of t.ran.0.scratchpad)
            (length-bytes_of t.ran.0.scratchpad ∙ t.pad_size) t.program_length t.fills
            t.fill_length,
        (refl, refl),
      )

  -- The hash that the call on a prepared machine returns.
  pub pipelined-hash :
      (input next_input : Bytes) (vm other : RandomXVm U aes)
      → Prepared U aes input vm
      → IsValid U aes other
      → other.dataset ≡ vm.dataset
      → other.version ≡ vm.version
      → Post
          (λ (r : Bytes × RandomXVm U aes).
            hash_result U aes (calculate_hash U aes input other) ≡ some (r.0))
          (calculate_hash_pipelined U aes next_input vm)
  pipelined-hash input next_input vm other ready valid items version =
      let t = IsValid-Passage U aes next_input vm ready.valid in
      let slice = bytes_of other.machine.scratchpad in
      let from_input : fill_aes_1rx4 aes (blake2b_512 input) slice
          ≡ some (vm.pipeline_state, ready.content) =
        fill_aes_1rx4-length aes (blake2b_512 input) slice ready.old
          (length-bytes_of other.machine.scratchpad ∙ valid.pad_size ∙ sym ready.old_size)
          (rows U aes other.machine.scratchpad valid.pad_size)
        ∙ ready.filled in
      let other_ran : run_programs U aes other vm.pipeline_state (pad_of ready.content)
          ≡ some t.ran =
        ap (run_programs U aes other vm.pipeline_state) (sym ready.holds_it)
        ∙ run_programs-same U aes other vm vm.pipeline_state vm.machine.scratchpad valid ready.valid
            items version ready.valid.pad_size
        ∙ t.runs in
      subst (Post _) (sym (pipelined-outcome U aes next_input vm t)) (
        calculate_hash-result U aes input other (vm.pipeline_state, ready.content) t.ran t.hash
          from_input other_ran t.hashes
        ∙ ap some (sym (result-scratchpad U aes t.hash (t.ran.0) (pad_of (t.filled.1)))))

  -- A virtual machine that is prepared for an input: the pipelined call completes with the hash that
  -- `calculate_hash` gives for that input on any valid machine with the same dataset and version,
  -- whatever that one hashed before, and it leaves the machine prepared for the next input, with its
  -- dataset and its version.
  pub pipelined-calculate_hash :
      (input next_input : Bytes) (vm other : RandomXVm U aes)
      → Prepared U aes input vm
      → IsValid U aes other
      → other.dataset ≡ vm.dataset
      → other.version ≡ vm.version
      → Post
          (λ (r : Bytes × RandomXVm U aes).
            (hash_result U aes (calculate_hash U aes input other) ≡ some (r.0))
            × (Prepared U aes next_input (r.1)
                × ((r.1.dataset ≡ vm.dataset) × (r.1.version ≡ vm.version))))
          (calculate_hash_pipelined U aes next_input vm)
  pipelined-calculate_hash input next_input vm other ready valid items version =
      Post-both _ _ (calculate_hash_pipelined U aes next_input vm)
        (pipelined-hash input next_input vm other ready valid items version)
        (pipelined-Prepared next_input vm ready.valid)

  pub new_full-IsValid :
      (items : ℕ → ℕ → ℕ) (version : RxVersion) → IsValid U aes (new_full U aes [] items version)
  unfolding new_full new_register_file
  new_full-IsValid items version = record {
    pad_size = refl;
    program_length = length-replicate (program_bytes_size version) 0;
  }
