-- ===== src/Miner/Worker.antt =====
-- The rounds of `worker_loop` (src/miner.rs), up to the share that a round submits. An `Arc<Job>` is
-- a number, and what it points to never changes. The dataset goes with its seed. The statistics, the
-- pauses and the logging are left out.
use miner_tim.Common.{
  ℕ, ◌+◌, ◌≡◌, [], Option, none, some, Bool, true, false, not, ◌&&◌, ◌||◌, Bytes, ltb, ◌==◌,
  if◌then◌else◌, length, take, drop, eq_bytes, u32, u64,
}
use miner_tim.Hex.{hex_encode}
use miner_tim.Pool.State.{Job}
use miner_tim.Pool.Submit.{Share}
use miner_tim.Miner.Shares.{meets_target, write_nonce_le, classify_share, should_submit}

-- What a worker uses of `RandomXVm` (src/randomx/vm.rs): a hash for each key and input, and the
-- pipeline, in which a call returns the hash of the input prepared by the call before it.
pub record Machine : Type 1 where
  pub Vm : Type 0
  pub hash : Bytes → Bytes → Bytes
  pub new_full : Bytes → Vm
  pub reinit : Bytes → Vm → Vm
  pub prepare_scratchpad : Bytes → Vm → Vm
  pub calculate_hash_pipelined : Bytes → Vm → Bytes × Vm
  pub key_of : Vm → Bytes
  pub Prepared : Vm → Bytes → Type 0
  pub new_full-key : (k : Bytes) → key_of (new_full k) ≡ k
  pub reinit-key : (k : Bytes) (vm : Vm) → key_of (reinit k vm) ≡ k
  pub prepare-key : (input : Bytes) (vm : Vm) → key_of (prepare_scratchpad input vm) ≡ key_of vm
  pub pipelined-key :
      (input : Bytes) (vm : Vm) → key_of (calculate_hash_pipelined input vm).1 ≡ key_of vm
  pub prepare-Prepared : (input : Bytes) (vm : Vm) → Prepared (prepare_scratchpad input vm) input
  pub pipelined-Prepared :
      (input : Bytes) (vm : Vm) → Prepared (calculate_hash_pipelined input vm).1 input
  pub pipelined-hash :
      (input before : Bytes) (vm : Vm)
      → Prepared vm before
      → (calculate_hash_pipelined input vm).0 ≡ hash (key_of vm) before

-- What the verifier answers for a blob, and whether it is switched on.
pub record Verifier : Type 0 where
  pub enabled : Bool
  pub reference : Bytes → Option Bytes

module _ (m : Machine) where
  pub record Worker : Type 0 where
    pub vm : Option m.Vm
    pub current_key : Bytes
    pub current_job : Option ℕ
    pub job_blob_current : Bytes
    pub job_blob_next : Bytes
    pub nonce : ℕ
    pub pipeline_ready : Bool

  unfoldable pub worker_start : ℕ → Worker
  worker_start thread_id = record {
    vm = none;
    current_key = [];
    current_job = none;
    job_blob_current = [];
    job_blob_next = [];
    nonce = thread_id;
    pipeline_ready = false;
  }

  -- `!cached.is_some_and(|c| Arc::ptr_eq(c, fetched))`.
  unfoldable pub is_new_job : Option ℕ → ℕ → Bool
  is_new_job none fetched = true
  is_new_job (some cached) fetched = not (cached == fetched)

  unfoldable pub take_job : ℕ → Job → Worker → Worker
  unfolding is_new_job
  take_job id job w =
      if is_new_job w.current_job id
      then record w {
        current_job = some id;
        pipeline_ready = false;
        job_blob_current = job.blob;
        job_blob_next = job.blob;
      }
      else w

  -- A virtual machine for the seed: the cached one, one set up anew, or a first one.
  unfoldable pub rekey : Job → Worker → m.Vm × Worker
  rekey job w = elim w.vm [
    | none ↦ (
      m.new_full job.seed_hash,
      record w {
        vm = some (m.new_full job.seed_hash);
        current_key = job.seed_hash;
        pipeline_ready = false;
      },
    )
    | some vm ↦ if eq_bytes job.seed_hash w.current_key then (vm, w) else (
      m.reinit job.seed_hash vm,
      record w {
        vm = some (m.reinit job.seed_hash vm);
        current_key = job.seed_hash;
        pipeline_ready = false;
      },
    )
  ]

  -- The share a hash makes, unless it misses the target or is withheld.
  unfoldable pub found_share : Verifier → Job → Bytes → Bytes → Option Share
  found_share verifier job blob hash =
      if meets_target hash job.target
        && should_submit (classify_share verifier.enabled hash (verifier.reference blob))
      then some (record {
        job_id = job.job_id;
        nonce = hex_encode (take 4 (drop 39 blob));
        result = hex_encode hash;
        job_generation = job.generation;
      })
      else none

  -- The hash of the current blob, while the next one is prepared.
  unfoldable pub hash_current : Bool → Bytes → Bytes → m.Vm → Bytes × m.Vm
  hash_current ready current next vm =
      if ready
      then m.calculate_hash_pipelined next vm
      else m.calculate_hash_pipelined next (m.prepare_scratchpad current vm)

  unfoldable pub mine : ℕ → Verifier → Job → m.Vm → Worker → Option Share × Worker
  unfolding found_share hash_current
  mine thread_count verifier job vm w =
      let next_nonce = u64 (w.nonce + thread_count) in
      let current = write_nonce_le w.job_blob_current (u32 w.nonce) in
      let next = write_nonce_le w.job_blob_next (u32 next_nonce) in
      let (hash, vm') = hash_current w.pipeline_ready current next vm in
      (
        found_share verifier job current hash,
        record w {
          vm = some vm';
          job_blob_current = current;
          job_blob_next = next;
          nonce = next_nonce;
          pipeline_ready = true;
        },
      )

  -- One round with the job that `get_work` returned; a blob too short for a nonce is skipped.
  unfoldable pub worker_round : ℕ → Verifier → ℕ → Job → Worker → Option Share × Worker
  unfolding take_job rekey mine
  worker_round thread_count verifier id job w =
      let (vm, w') = rekey job (take_job id job w) in
      if ltb (length w'.job_blob_current) 43 || ltb (length w'.job_blob_next) 43
      then (none, w')
      else mine thread_count verifier job vm w'
