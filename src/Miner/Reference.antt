-- ===== src/Miner/Reference.antt =====
-- The virtual machine of src/randomx/vm.rs as the one that the share verifier of src/miner.rs asks.
use miner_tim.Common.{ℕ, ◌≡◌, refl, sym, ap, ◌∙◌, Bool, true, Bytes, [], some, if◌then◌else◌}
use miner_tim.RandomX.Instruction.{v1}
use miner_tim.RandomX.Machine.{FloatUnit}
use miner_tim.RandomX.Blake2b.{unwrap}
use miner_tim.RandomX.Aes.{AesRounds}
use miner_tim.RandomX.Hasher.{RandomXVm, new_full, calculate_hash}
use miner_tim.RandomX.Hasher.Through.{IsValid, Post-some}
use miner_tim.RandomX.Hasher.Through as Through
use miner_tim.RandomX.Hasher.Pipelined.{new_full-IsValid}
use miner_tim.RandomX.Hasher.Reference.{calculate_hash-IsValid, calculate_hash-same}
use miner_tim.Miner.Verifier.{FullVm}

module _ (U : FloatUnit) (aes : AesRounds) where
  -- A virtual machine of version 1 in use, and whether it may run the native loop.
  pub record FullMode : Type 0 where
    pub vm : RandomXVm U aes
    pub valid : IsValid U aes vm
    pub version_is : vm.version ≡ v1
    pub use_native_loop : Bool

  unfoldable pub fresh : (ℕ → ℕ → ℕ) → FullMode
  unfolding new_full
  fresh items = record {
    vm = new_full U aes [] items v1;
    valid = new_full-IsValid U aes items v1;
    version_is = refl;
    use_native_loop = true;
  }

  unfoldable pub switch : Bool → FullMode → FullMode
  switch on s = record s { use_native_loop = on }

  unfoldable pub reference_hash : (ℕ → ℕ → ℕ) → Bytes → Bytes
  reference_hash items blob =
      unwrap (Through.hash_result U aes (calculate_hash U aes blob (new_full U aes [] items v1)))

  abbrev After : FullMode → Bytes × RandomXVm U aes → Type 0
  After s r = IsValid U aes (r.1) × ((r.1.dataset ≡ s.vm.dataset) × (r.1.version ≡ s.vm.version))

  abbrev completes :
      (blob : Bytes) (s : FullMode)
      → (r : Bytes × RandomXVm U aes) × (calculate_hash U aes blob s.vm ≡ some r) × After s r
  completes blob s =
      Post-some (After s) (calculate_hash U aes blob s.vm)
        (calculate_hash-IsValid U aes blob s.vm s.valid)

  -- The interpreter.
  unfoldable pub interpreted : Bytes → FullMode → Bytes × FullMode
  interpreted blob s =
      let (r, e, h) = completes blob s in
      (
        r.0,
        record {
          vm = r.1;
          valid = h.0;
          version_is = h.1.1 ∙ s.version_is;
          use_native_loop = s.use_native_loop;
        },
      )

  interpreted-reference_hash :
      (blob : Bytes) (s : FullMode) → (interpreted blob s).0 ≡ reference_hash s.vm.dataset blob
  unfolding interpreted reference_hash new_full
  interpreted-reference_hash blob s =
      let (r, e, h) = completes blob s in
      ap unwrap (
        sym (ap (Through.hash_result U aes) e)
        ∙ calculate_hash-same U aes blob s.vm (new_full U aes [] s.vm.dataset v1) s.valid
            (new_full-IsValid U aes s.vm.dataset v1) refl (sym s.version_is))

  -- `native` is what the native loop does, of which nothing is known.
  module _ (native : Bytes → FullMode → Bytes × FullMode) where
    unfoldable pub hash_by : Bytes → FullMode → Bytes × FullMode
    unfolding interpreted
    hash_by blob s = if s.use_native_loop then native blob s else interpreted blob s

    -- The machine of the verifier: it asks `RandomXVm`.
    pub randomx_full : FullVm
    unfolding fresh switch hash_by interpreted new_full
    randomx_full = record {
      Vm = FullMode;
      Dataset = ℕ → ℕ → ℕ;
      hash = reference_hash;
      new_full = λ key items. fresh items;
      set_native_loop = switch;
      calculate_hash = hash_by;
      dataset_of = λ s. s.vm.dataset;
      uses_native_loop = λ s. s.use_native_loop;
      new_full-dataset = λ key items. refl;
      set-dataset = λ on s. refl;
      set-off = λ s. refl;
      calculate-dataset = λ blob s off. rw (off) ((completes blob s).2.1.0);
      calculate-hash = λ blob s off. rw (off) (interpreted-reference_hash blob s);
      calculate-native = λ blob s off. rw (off) refl;
    }
