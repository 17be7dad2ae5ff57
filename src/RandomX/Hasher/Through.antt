-- ===== src/RandomX/Hasher/Through.antt =====
-- The calls that a hash goes through (`RandomXVm` of src/randomx/vm.rs): they succeed on a valid
-- machine, and what it then holds.
use miner_tim.Common.{
  ℕ, zero, suc, ◌%◌, ◌≡◌, refl, sym, ap, ◌∙◌, arith, Option, none, some, ◌>>=◌, Bytes, length,
  length-replicate, replicate, ==_iff,
}
use miner_tim.RandomX.Instruction.{program_bytes_size, scratchpad_l3_size}
use miner_tim.RandomX.Machine.{FloatUnit, Machine, Scratchpad}
use miner_tim.RandomX.Execute.{set_rounding_mode}
use miner_tim.RandomX.Safety.{IsReady, Post}
use miner_tim.RandomX.Blake2b.{blake2b_512}
use miner_tim.RandomX.Aes.{AesRounds, fill_aes_1rx4, hash_aes_1rx4, hash_and_fill_aes_1rx4}
use miner_tim.RandomX.Aes.Fused.{hash_and_fill-hash-fill}
use miner_tim.RandomX.Aes.Streams.{fill_aes_1rx4-length-Post}
use miner_tim.RandomX.Hasher.{
  bytes_of, pad_of, slice_from, new_register_file, serialize_register_file, RandomXVm, run_chains,
  run_programs, with_hash, result_of, calculate_hash, calculate_hash_pipelined,
}
use miner_tim.RandomX.Hasher.Runs.{Post-map, run_chains-Post, run_chains-buffers}

length-slice_from : (byte : ℕ → ℕ) (count first : ℕ) → length (slice_from byte count first) ≡ count
length-slice_from byte zero first = refl
length-slice_from byte (suc count) first = ap suc (length-slice_from byte count (suc first))

pub length-bytes_of : (pad : Scratchpad) → length (bytes_of pad) ≡ pad.size
unfolding bytes_of
length-bytes_of pad = length-slice_from pad.byte pad.size 0

pub Post-some :
    {A : Type 0} (Q : A → Type 0) (o : Option A) → Post Q o → (a : A) × (o ≡ some a) × Q a
Post-some Q none h = elim h [ ]
Post-some Q (some a) h = (a, refl, h)

module _ (U : FloatUnit) (aes : AesRounds) where
  -- The scratchpad and the buffer for programs have their sizes.
  pub record IsValid (vm : RandomXVm U aes) : Type 0 where
    pub pad_size : vm.machine.scratchpad.size ≡ scratchpad_l3_size
    pub program_length : length vm.program_bytes ≡ program_bytes_size vm.version

  -- The scratchpad is the one that `input` fills, and the pipeline has the state of its fill.
  pub record Prepared (input : Bytes) (vm : RandomXVm U aes) : Type 0 where
    pub valid : IsValid vm
    pub old : Bytes
    pub content : Bytes
    pub old_size : length old ≡ scratchpad_l3_size
    pub filled : fill_aes_1rx4 aes (blake2b_512 input) old ≡ some (vm.pipeline_state, content)
    pub holds_it : vm.machine.scratchpad ≡ pad_of content

  abbrev pub hash_result : Option (Bytes × RandomXVm U aes) → Option Bytes
  hash_result o = o >>= λ r. some (r.0)

  start-IsReady :
      (pad : Scratchpad)
      → pad.size ≡ scratchpad_l3_size
      → IsReady (set_rounding_mode 0 (new_register_file U aes pad))
  unfolding new_register_file IsReady
  start-IsReady pad e =
      let zeros : U.F64 × U.F64 = (U.from_bits 0, U.from_bits 0) in
      (
        length-replicate {A = ℕ} 8 0,
        (length-replicate 4 zeros, (length-replicate 4 zeros, (length-replicate 4 zeros, e))),
      )

  pub run_programs-Post :
      (vm : RandomXVm U aes) (temp : Bytes) (pad : Scratchpad)
      → IsValid vm
      → pad.size ≡ scratchpad_l3_size
      → Post
          (λ r.
            (r.0.scratchpad.size ≡ scratchpad_l3_size)
            × (length (r.1) ≡ program_bytes_size vm.version))
          (run_programs U aes vm temp pad)
  unfolding run_programs IsReady
  run_programs-Post vm temp pad valid e =
      Post-map
        (λ (r : Machine (U.F64) × Bytes).
          IsReady (r.0) × (length (r.1) ≡ program_bytes_size vm.version))
        (λ (r : Machine (U.F64) × Bytes).
          (r.0.scratchpad.size ≡ scratchpad_l3_size)
          × (length (r.1) ≡ program_bytes_size vm.version))
        (run_programs U aes vm temp pad) (λ r h. (h.0.1.1.1.1, h.1))
        (run_chains-Post U aes vm.dataset vm.version vm.bytecode 8 temp
          (set_rounding_mode 0 (new_register_file U aes pad)) vm.program_bytes (start-IsReady pad e)
          valid.program_length)

  pub run_programs-same :
      (v w : RandomXVm U aes) (temp : Bytes) (pad : Scratchpad)
      → IsValid v
      → IsValid w
      → v.dataset ≡ w.dataset
      → v.version ≡ w.version
      → pad.size ≡ scratchpad_l3_size
      → run_programs U aes v temp pad ≡ run_programs U aes w temp pad
  unfolding run_programs
  run_programs-same v w temp pad hv hw items version e =
      let start = set_rounding_mode 0 (new_register_file U aes pad) in
      run_chains-buffers U aes v.dataset v.version v.bytecode w.bytecode 7 temp start
        v.program_bytes w.program_bytes (start-IsReady pad e) hv.program_length
        (hw.program_length ∙ ap program_bytes_size (sym version))
      ∙ λ i. run_chains U aes (items i) (version i) w.bytecode 8 temp (start, w.program_bytes)

  -- The result of a hash reads no scratchpad.
  pub result-scratchpad :
      (hash : Bytes) (m : Machine (U.F64)) (pad : Scratchpad)
      → result_of U aes (with_hash U aes hash (record m { scratchpad = pad }))
        ≡ result_of U aes (with_hash U aes hash m)
  unfolding serialize_register_file with_hash
  result-scratchpad hash m pad = refl

  pub hash_aes-Post :
      (input : Bytes) → length input % 64 ≡ 0 → Post (λ h. Unit {0}) (hash_aes_1rx4 aes input)
  unfolding hash_aes_1rx4
  hash_aes-Post input whole = rw ((==_iff (length input % 64) 0).1 whole) tt

  -- What a hash goes through, given the results of its calls.
  pub calculate_hash-result :
      (input : Bytes) (vm : RandomXVm U aes) (filled : Bytes × Bytes)
      (ran : Machine (U.F64) × Bytes) (hash : Bytes)
      → fill_aes_1rx4 aes (blake2b_512 input) (bytes_of vm.machine.scratchpad) ≡ some filled
      → run_programs U aes vm (filled.0) (pad_of (filled.1)) ≡ some ran
      → hash_aes_1rx4 aes (bytes_of ran.0.scratchpad) ≡ some hash
      → hash_result (calculate_hash U aes input vm)
        ≡ some (result_of U aes (with_hash U aes hash (ran.0)))
  unfolding calculate_hash
  calculate_hash-result input vm filled ran hash e1 e2 e3 = rw (e1) (rw (e2) (rw (e3) refl))

  pipelined-result :
      (next_input : Bytes) (vm : RandomXVm U aes) (ran : Machine (U.F64) × Bytes) (hash : Bytes)
      (filled : Bytes × Bytes)
      → run_programs U aes vm vm.pipeline_state vm.machine.scratchpad ≡ some ran
      → hash_and_fill_aes_1rx4 aes
          (bytes_of ran.0.scratchpad)
          (replicate 64 0)
          (blake2b_512 next_input)
        ≡ some (hash, filled.0, filled.1)
      → calculate_hash_pipelined U aes next_input vm
        ≡ some (
          result_of U aes (with_hash U aes hash (record ran.0 { scratchpad = pad_of (filled.1) })),
          record vm {
            machine = with_hash U aes hash (record ran.0 { scratchpad = pad_of (filled.1) });
            program_bytes = ran.1;
            pipeline_state = filled.0;
          },
        )
  unfolding calculate_hash_pipelined
  pipelined-result next_input vm ran hash filled e1 e2 = rw (e1) (rw (e2) refl)

  pub rows : (pad : Scratchpad) → pad.size ≡ scratchpad_l3_size → length (bytes_of pad) % 64 ≡ 0
  rows pad e = omega (arith, length-bytes_of pad)

  -- The one pass that ends a pipelined hash, given the results of the two.
  fused :
      (scratchpad state : Bytes) (hash : Bytes) (filled : Bytes × Bytes)
      → hash_aes_1rx4 aes scratchpad ≡ some hash
      → fill_aes_1rx4 aes state scratchpad ≡ some filled
      → hash_and_fill_aes_1rx4 aes scratchpad (replicate 64 0) state
        ≡ some (hash, filled.0, filled.1)
  fused scratchpad state hash filled e1 e2 =
      hash_and_fill-hash-fill aes scratchpad state ∙ rw (e1) (rw (e2) refl)

  pub size-pad_of : (content : Bytes) → (pad_of content).size ≡ length content
  unfolding pad_of
  size-pad_of content = refl

  -- The machine after a hash, once the next input has filled its scratchpad.
  pub filled_next-Prepared :
      (next_input : Bytes) (vm : RandomXVm U aes) (ran : Machine (U.F64) × Bytes) (hash : Bytes)
      (filled : Bytes × Bytes) (slice : Bytes)
      → length slice ≡ scratchpad_l3_size
      → length (ran.1) ≡ program_bytes_size vm.version
      → fill_aes_1rx4 aes (blake2b_512 next_input) slice ≡ some filled
      → length (filled.1) ≡ length slice
      → Prepared next_input (record vm {
        machine = with_hash U aes hash (record ran.0 { scratchpad = pad_of (filled.1) });
        program_bytes = ran.1;
        pipeline_state = filled.0;
      })
  unfolding with_hash
  filled_next-Prepared next_input vm ran hash filled slice size program e_filled e_size = record {
    valid = record { pad_size = size-pad_of (filled.1) ∙ e_size ∙ size; program_length = program };
    old = slice;
    content = filled.1;
    old_size = size;
    filled = e_filled;
    holds_it = refl;
  }

  -- What a pipelined hash goes through: the machine after the programs, the hash of its scratchpad,
  -- and the fill for the next input.
  pub record Passage (next_input : Bytes) (vm : RandomXVm U aes) : Type 0 where
    pub ran : Machine (U.F64) × Bytes
    pub hash : Bytes
    pub filled : Bytes × Bytes
    pub runs : run_programs U aes vm vm.pipeline_state vm.machine.scratchpad ≡ some ran
    pub hashes : hash_aes_1rx4 aes (bytes_of ran.0.scratchpad) ≡ some hash
    pub fills : fill_aes_1rx4 aes (blake2b_512 next_input) (bytes_of ran.0.scratchpad) ≡ some filled
    pub pad_size : ran.0.scratchpad.size ≡ scratchpad_l3_size
    pub program_length : length (ran.1) ≡ program_bytes_size vm.version
    pub fill_length : length (filled.1) ≡ length (bytes_of ran.0.scratchpad)

  pub IsValid-Passage :
      (next_input : Bytes) (vm : RandomXVm U aes) → IsValid vm → Passage next_input vm
  IsValid-Passage next_input vm valid =
      let pad = vm.machine.scratchpad in
      let (ran, e_ran, sized) =
        Post-some _ _ (run_programs-Post vm vm.pipeline_state pad valid valid.pad_size) in
      let whole = rows ran.0.scratchpad (sized.0) in
      let (hash, e_hash, u) = Post-some _ _ (hash_aes-Post (bytes_of ran.0.scratchpad) whole) in
      let (filled, e_filled, e_size) = Post-some _ _ (
        fill_aes_1rx4-length-Post aes (blake2b_512 next_input) (bytes_of ran.0.scratchpad) whole) in
      record {
        ran = ran;
        hash = hash;
        filled = filled;
        runs = e_ran;
        hashes = e_hash;
        fills = e_filled;
        pad_size = sized.0;
        program_length = sized.1;
        fill_length = e_size;
      }

  -- What the pipelined call returns.
  abbrev pub outcome :
      (next_input : Bytes) (vm : RandomXVm U aes) → Passage next_input vm → Bytes × RandomXVm U aes
  outcome next_input vm t =
      let done = with_hash U aes t.hash (record t.ran.0 { scratchpad = pad_of (t.filled.1) }) in
      (
        result_of U aes done,
        record vm { machine = done; program_bytes = t.ran.1; pipeline_state = t.filled.0 },
      )

  pub pipelined-outcome :
      (next_input : Bytes) (vm : RandomXVm U aes) (t : Passage next_input vm)
      → calculate_hash_pipelined U aes next_input vm ≡ some (outcome next_input vm t)
  pipelined-outcome next_input vm t = pipelined-result next_input vm t.ran t.hash t.filled t.runs (
      fused (bytes_of t.ran.0.scratchpad) (blake2b_512 next_input) t.hash t.filled t.hashes t.fills)
