-- ===== src/RandomX/Hasher/Reference.antt =====
-- `calculate_hash` of `RandomXVm` (src/randomx/vm.rs) on a machine in use: what the machine is after
-- it, and that the hash is a fresh machine's.
use miner_tim.Common.{◌≡◌, refl, sym, ◌∙◌, subst, some, Bytes, length}
use miner_tim.RandomX.Instruction.{program_bytes_size, scratchpad_l3_size}
use miner_tim.RandomX.Machine.{FloatUnit, Machine}
use miner_tim.RandomX.Safety.{Post}
use miner_tim.RandomX.Blake2b.{blake2b_512}
use miner_tim.RandomX.Aes.{AesRounds}
use miner_tim.RandomX.Aes.Streams.{fill_aes_1rx4-length-Post}
use miner_tim.RandomX.Hasher.{bytes_of, pad_of, with_hash, RandomXVm, calculate_hash}
use miner_tim.RandomX.Hasher.Through.{
  Post-some, IsValid, Prepared, hash_result, run_programs-Post, hash_aes-Post, rows, size-pad_of,
  length-bytes_of,
}
use miner_tim.RandomX.Hasher.Pipelined.{
  prepare_scratchpad-Prepared, pipelined-Prepared, pipelined-hash,
}

module _ (U : FloatUnit) (aes : AesRounds) where
  pub calculate_hash-IsValid :
      (input : Bytes) (vm : RandomXVm U aes)
      → IsValid U aes vm
      → Post
          (λ (r : Bytes × RandomXVm U aes).
            IsValid U aes (r.1) × ((r.1.dataset ≡ vm.dataset) × (r.1.version ≡ vm.version)))
          (calculate_hash U aes input vm)
  unfolding calculate_hash with_hash
  calculate_hash-IsValid input vm valid =
      let slice = bytes_of vm.machine.scratchpad in
      let (filled, e_filled, e_size) =
        Post-some (λ (x : Bytes × Bytes). length (x.1) ≡ length slice) _
          (fill_aes_1rx4-length-Post aes (blake2b_512 input) slice
            (rows U aes vm.machine.scratchpad valid.pad_size)) in
      let size : (pad_of (filled.1)).size ≡ scratchpad_l3_size =
        size-pad_of U aes (filled.1)
        ∙ e_size
        ∙ length-bytes_of vm.machine.scratchpad
        ∙ valid.pad_size in
      let (ran, e_ran, sized) =
        Post-some
          (λ (x : Machine (U.F64) × Bytes).
            (x.0.scratchpad.size ≡ scratchpad_l3_size)
            × (length (x.1) ≡ program_bytes_size vm.version))
          _ (run_programs-Post U aes vm (filled.0) (pad_of (filled.1)) valid size) in
      let (hash, e_hash, u) =
        Post-some (λ (x : Bytes). Unit {0}) _
          (hash_aes-Post U aes (bytes_of ran.0.scratchpad)
            (rows U aes ran.0.scratchpad (sized.0))) in
      rw (e_filled) (
        rw (e_ran)
          (rw (e_hash) (record { pad_size = sized.0; program_length = sized.1 }, (refl, refl))))

  -- A machine in use and another with its dataset and version hash alike.
  pub calculate_hash-same :
      (input : Bytes) (vm other : RandomXVm U aes)
      → IsValid U aes vm
      → IsValid U aes other
      → other.dataset ≡ vm.dataset
      → other.version ≡ vm.version
      → hash_result U aes (calculate_hash U aes input vm)
        ≡ hash_result U aes (calculate_hash U aes input other)
  calculate_hash-same input vm other valid other_valid items version =
      let (ready, e_ready, (prepared, kept)) =
        Post-some
          (λ (x : RandomXVm U aes).
            Prepared U aes input x × ((x.dataset ≡ vm.dataset) × (x.version ≡ vm.version)))
          _ (prepare_scratchpad-Prepared U aes input vm valid) in
      let (r, e, h) =
        Post-some
          (λ (x : Bytes × RandomXVm U aes).
            Prepared U aes input (x.1)
            × ((x.1.dataset ≡ ready.dataset) × (x.1.version ≡ ready.version)))
          _ (pipelined-Prepared U aes input ready prepared.valid) in
      let P : (v : RandomXVm U aes) → (Bytes × RandomXVm U aes) → Type 0 =
        λ v r'. hash_result U aes (calculate_hash U aes input v) ≡ some (r'.0) in
      let first : P vm r =
        subst (Post (P vm)) e
          (pipelined-hash U aes input input ready vm prepared valid (sym kept.0) (sym kept.1)) in
      let second : P other r = subst (Post (P other)) e (
        pipelined-hash U aes input input ready other prepared other_valid (items ∙ sym kept.0)
          (version ∙ sym kept.1)) in
      first ∙ sym second
