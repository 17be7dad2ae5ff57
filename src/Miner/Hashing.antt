-- ===== src/Miner/Hashing.antt =====
-- The virtual machine of src/randomx/vm.rs as the one that a worker of src/miner.rs mines with.
use miner_tim.Common.{◌≡◌, refl, sym, ap, ◌∙◌, subst, ℕ, some, Bytes, []}
use miner_tim.RandomX.Instruction.{RxVersion}
use miner_tim.RandomX.Machine.{FloatUnit}
use miner_tim.RandomX.Blake2b.{unwrap}
use miner_tim.RandomX.Aes.{AesRounds}
use miner_tim.RandomX.Safety.{Post}
use miner_tim.RandomX.Hasher.{
  RandomXVm, new_full, reinit, calculate_hash, prepare_scratchpad, calculate_hash_pipelined,
}
use miner_tim.RandomX.Hasher.Through.{IsValid, Post-some}
use miner_tim.RandomX.Hasher.Through as Through
use miner_tim.RandomX.Hasher.Pipelined.{
  prepare_scratchpad-Prepared, pipelined-Prepared, pipelined-hash, new_full-IsValid,
}
use miner_tim.Miner.Worker.{Machine}

-- `dataset_for` is what `get_or_generate_dataset` returns for a key.
module _ (U : FloatUnit) (aes : AesRounds) (dataset_for : Bytes → ℕ → ℕ → ℕ)
    (version : RxVersion) where
  -- A virtual machine in use, with the key it was made for.
  pub record Mining : Type 0 where
    pub key : Bytes
    pub vm : RandomXVm U aes
    pub valid : IsValid U aes vm
    pub dataset_is : vm.dataset ≡ dataset_for key
    pub version_is : vm.version ≡ version

  unfoldable pub hash_with : Bytes → Bytes → Bytes
  hash_with key input = unwrap (
      Through.hash_result U aes
        (calculate_hash U aes input (new_full U aes [] (dataset_for key) version)))

  unfoldable pub fresh : Bytes → Mining
  unfolding new_full
  fresh key = record {
    key = key;
    vm = new_full U aes [] (dataset_for key) version;
    valid = new_full-IsValid U aes (dataset_for key) version;
    dataset_is = refl;
    version_is = refl;
  }

  pub reinit-IsValid :
      (key : Bytes) (vm : RandomXVm U aes)
      → IsValid U aes vm
      → IsValid U aes (reinit U aes (dataset_for key) vm)
  unfolding reinit
  reinit-IsValid key vm h = record { pad_size = h.pad_size; program_length = h.program_length }

  unfoldable pub rekeyed : Bytes → Mining → Mining
  unfolding reinit
  rekeyed key s = record {
    key = key;
    vm = reinit U aes (dataset_for key) s.vm;
    valid = reinit-IsValid key s.vm s.valid;
    dataset_is = refl;
    version_is = s.version_is;
  }

  -- The state after a call, from what the call returns.
  used :
      (s : Mining) (vm : RandomXVm U aes)
      → IsValid U aes vm
      → vm.dataset ≡ s.vm.dataset
      → vm.version ≡ s.vm.version
      → Mining
  used s vm valid items version_kept = record {
    key = s.key;
    vm = vm;
    valid = valid;
    dataset_is = items ∙ s.dataset_is;
    version_is = version_kept ∙ s.version_is;
  }

  -- What is known of a machine after a call.
  abbrev After : Bytes → Mining → RandomXVm U aes → Type 0
  After input s vm =
      Through.Prepared U aes input vm × ((vm.dataset ≡ s.vm.dataset) × (vm.version ≡ s.vm.version))

  abbrev prepares :
      (input : Bytes) (s : Mining)
      → (vm : RandomXVm U aes) × (prepare_scratchpad U aes input s.vm ≡ some vm) × After input s vm
  prepares input s =
      Post-some (After input s) (prepare_scratchpad U aes input s.vm)
        (prepare_scratchpad-Prepared U aes input s.vm s.valid)

  abbrev completes :
      (next_input : Bytes) (s : Mining)
      → (r : Bytes × RandomXVm U aes) × (calculate_hash_pipelined U aes next_input s.vm ≡ some r)
        × After next_input s (r.1)
  completes next_input s =
      Post-some (λ r. After next_input s (r.1)) (calculate_hash_pipelined U aes next_input s.vm)
        (pipelined-Prepared U aes next_input s.vm s.valid)

  filled : Bytes → Mining → Mining
  unfolding used
  filled input s = let (vm, e, h) = prepares input s in used s vm h.0.valid (h.1.0) (h.1.1)

  hashed : Bytes → Mining → Bytes × Mining
  unfolding used
  hashed next_input s =
      let (r, e, h) = completes next_input s in (r.0, used s (r.1) h.0.valid (h.1.0) (h.1.1))

  filled-Prepared : (input : Bytes) (s : Mining) → Through.Prepared U aes input (filled input s).vm
  unfolding filled
  filled-Prepared input s = (prepares input s).2.0

  hashed-Prepared :
      (next_input : Bytes) (s : Mining)
      → Through.Prepared U aes next_input (hashed next_input s).1.vm
  unfolding hashed
  hashed-Prepared next_input s = (completes next_input s).2.0

  -- The hash a call returns is the one of the input before, with the key's dataset.
  hashed-hash_with :
      (next_input before : Bytes) (s : Mining)
      → Through.Prepared U aes before s.vm
      → (hashed next_input s).0 ≡ hash_with s.key before
  unfolding hashed hash_with new_full
  hashed-hash_with next_input before s ready =
      let (r, e, h) = completes next_input s in
      let other = new_full U aes [] (dataset_for s.key) version in
      let right =
        subst
          (Post (λ (r' : Bytes × RandomXVm U aes).
            Through.hash_result U aes (calculate_hash U aes before other) ≡ some (r'.0)))
          e
          (pipelined-hash U aes before next_input s.vm other ready
            (new_full-IsValid U aes (dataset_for s.key) version) (sym s.dataset_is)
            (sym s.version_is)) in
      sym (ap unwrap right)

  -- The machine of the worker: it mines with `RandomXVm`.
  pub randomx_machine : Machine
  unfolding fresh rekeyed filled hashed
  randomx_machine = record {
    Vm = Mining;
    hash = hash_with;
    new_full = fresh;
    reinit = rekeyed;
    prepare_scratchpad = filled;
    calculate_hash_pipelined = hashed;
    key_of = λ s. s.key;
    Prepared = λ s input. Through.Prepared U aes input s.vm;
    new_full-key = λ k. refl;
    reinit-key = λ k s. refl;
    prepare-key = λ input s. refl;
    pipelined-key = λ input s. refl;
    prepare-Prepared = filled-Prepared;
    pipelined-Prepared = hashed-Prepared;
    pipelined-hash = hashed-hash_with;
  }
