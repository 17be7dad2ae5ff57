-- ===== src/Miner/Pipeline.antt =====
-- The share that a worker submits is for the nonce it names, although the hash comes out of a pipeline
-- that is one blob ahead.
use miner_tim.Common.{
  ℕ, ◌+◌, ◌≡◌, inl, inr, refl, sym, ap, ◌∙◌, subst, arith, [], Option, none, some, Bool, true,
  false, ◌||◌, Bytes, ltb, length, take, drop, eq_bytes, u32, u64, Bool-cases, eq_bytes→eq, ==_iff,
}
use miner_tim.Hex.{hex_encode}
use miner_tim.Pool.State.{Job}
use miner_tim.Pool.Submit.{Share}
use miner_tim.Miner.Shares.{meets_target, write_nonce_le}
use miner_tim.Miner.Target.{write_nonce_le_twice}
use miner_tim.Miner.Worker.{
  Machine, Verifier, Worker, worker_start, is_new_job, take_job, rekey, found_share, hash_current,
  mine, worker_round,
}

module _ (m : Machine) (jobs : ℕ → Job) where
  -- The rounds so far, each with the job that it fetched and the verifier it used; a job is a number,
  -- and `jobs` is what it points to.
  pub data Rounds (thread_id thread_count : ℕ) : Worker m → Type 0 where
    start : Rounds thread_id thread_count (worker_start m thread_id)
    round :
        {w : Worker m}
        → Rounds thread_id thread_count w
        → (verifier : Verifier) (id : ℕ)
        → Rounds thread_id thread_count (worker_round m thread_count verifier id (jobs id) w).1

  -- A blob is that of the job, but for the nonce.
  abbrev Blob : ℕ → Bytes → Type 0
  Blob id blob = (n : ℕ) → write_nonce_le blob n ≡ write_nonce_le (jobs id).blob n

  abbrev Ready : Worker m → ℕ → m.Vm → Type 0
  Ready w id vm = m.Prepared vm (write_nonce_le (jobs id).blob (u32 w.nonce))

  abbrev Keyed : Worker m → Type 0
  Keyed w = (vm : m.Vm) → w.vm ≡ some vm → m.key_of vm ≡ w.current_key

  -- The worker is at this job: both blobs are that of the job, and if the pipeline is ready, the
  -- current nonce has been prepared.
  record IsAt (id : ℕ) (w : Worker m) : Type 0 where
    job : w.current_job ≡ some id
    keyed : Keyed w
    current : Blob id w.job_blob_current
    next : Blob id w.job_blob_next
    ready : (vm : m.Vm) → w.pipeline_ready ≡ true → w.vm ≡ some vm → Ready w id vm

  abbrev IsSound : Worker m → Type 0
  IsSound w = Keyed w × ((id : ℕ) → w.current_job ≡ some id → IsAt id w)

  start-IsSound : (thread_id : ℕ) → IsSound (worker_start m thread_id)
  unfolding worker_start
  start-IsSound thread_id = (λ vm e. cc, λ id e. absurd (no_job id e))
    where
      no_job : (id : ℕ) → none ≡ some id → ⊥
      no_job id e = cc

  same_job : (job : Option ℕ) (id : ℕ) → is_new_job m job id ≡ false → job ≡ some id
  unfolding is_new_job
  same_job none id h = cc
  same_job (some k) id h = ground (arith, ==_iff k id)

  -- After `take_job` the job is the fetched one.
  take_job-IsAt : (id : ℕ) (w : Worker m) → IsSound w → IsAt id (take_job m id (jobs id) w)
  unfolding take_job
  take_job-IsAt id w (keys, at) = elim (Bool-cases (is_new_job m w.current_job id)) [
    | inl fresh ↦
        rw (fresh, take_job)
          (record {
            job = refl;
            keyed = keys;
            current = λ n. refl;
            next = λ n. refl;
            ready = λ vm r e. absurd (not_ready r);
          })
    | inr old ↦ rw (old, take_job) (at id (same_job w.current_job id old))
  ]
    where
      not_ready : false ≡ true → ⊥
      not_ready r = cc

  -- What the pipeline needs to hash: a machine for the seed of the job.
  abbrev IsKeyed : ℕ → m.Vm × Worker m → Type 0
  IsKeyed id (vm, w) = IsAt id w × (m.key_of vm ≡ (jobs id).seed_hash) × (w.vm ≡ some vm)

  rekey-IsKeyed : (id : ℕ) (w : Worker m) → IsAt id w → IsKeyed id (rekey m (jobs id) w)
  unfolding rekey
  rekey-IsKeyed id w at = go w.vm refl
    where
      not_ready : false ≡ true → ⊥
      not_ready r = cc

      anew :
          (vm : m.Vm)
          → m.key_of vm ≡ (jobs id).seed_hash
          → IsKeyed id (
            vm,
            record w { vm = some vm; current_key = (jobs id).seed_hash; pipeline_ready = false },
          )
      anew vm key = (
        record {
          job = at.job;
          keyed = λ other e.
              ap (λ o. elim o as (λ x. Bytes) [ none ↦ [] | some x ↦ m.key_of x ]) (sym e) ∙ key;
          current = at.current;
          next = at.next;
          ready = λ vm r e. absurd (not_ready r);
        },
        key,
        refl,
      )

      go : (o : Option m.Vm) → w.vm ≡ o → IsKeyed id (rekey m (jobs id) w)
      go none e =
          rw (e, rekey) (anew (m.new_full (jobs id).seed_hash) (m.new_full-key (jobs id).seed_hash))
      go (some vm) e = elim (Bool-cases (eq_bytes (jobs id).seed_hash w.current_key)) [
        | inl same ↦
            rw (e, same, rekey)
              (at, at.keyed vm e ∙ sym (eq_bytes→eq (jobs id).seed_hash w.current_key same), e)
        | inr other ↦
            rw (e, other, rekey)
              (anew (m.reinit (jobs id).seed_hash vm) (m.reinit-key (jobs id).seed_hash vm))
      ]

  -- What a share says of its job, its blob and its hash.
  abbrev pub Names : Job → Bytes → Bytes → Share → Type 0
  Names job blob hash share =
      (meets_target hash job.target ≡ true)
      × (share.job_id ≡ job.job_id)
      × (share.job_generation ≡ job.generation)
      × (share.nonce ≡ hex_encode (take 4 (drop 39 blob)))
      × (share.result ≡ hex_encode hash)

  found_share-Names :
      (verifier : Verifier) (job : Job) (blob hash : Bytes) (share : Share)
      → found_share m verifier job blob hash ≡ some share
      → Names job blob hash share
  unfolding found_share
  found_share-Names verifier job blob hash share h = ground arith

  hash_current_lem :
      (ready : Bool) (current next key : Bytes) (vm : m.Vm)
      → m.key_of vm ≡ key
      → (ready ≡ true → m.Prepared vm current)
      → ((hash_current m ready current next vm).0 ≡ m.hash key current)
        × (m.key_of (hash_current m ready current next vm).1 ≡ key)
        × m.Prepared (hash_current m ready current next vm).1 next
  unfolding hash_current
  hash_current_lem true current next key vm k p = (
    m.pipelined-hash next current vm (p refl) ∙ ap (λ (x : Bytes). m.hash x current) k,
    m.pipelined-key next vm ∙ k,
    m.pipelined-Prepared next vm,
  )
  hash_current_lem false current next key vm k p =
      let prepared = m.prepare_scratchpad current vm in
      let same = m.prepare-key current vm ∙ k in
      (
        m.pipelined-hash next current prepared (m.prepare-Prepared current vm)
            ∙ ap (λ (x : Bytes). m.hash x current) same,
        m.pipelined-key next prepared ∙ same,
        m.pipelined-Prepared next prepared,
      )

  -- The blob of the job with the worker's nonce, and its hash.
  abbrev pub nonce_blob : ℕ → Worker m → Bytes
  nonce_blob id w = write_nonce_le (jobs id).blob (u32 w.nonce)

  abbrev pub nonce_hash : ℕ → Worker m → Bytes
  nonce_hash id w = m.hash (jobs id).seed_hash (nonce_blob id w)

  mine-IsAt :
      (thread_count : ℕ) (verifier : Verifier) (id : ℕ) (vm : m.Vm) (w : Worker m)
      → IsKeyed id (vm, w)
      → IsAt id (mine m thread_count verifier (jobs id) vm w).1
        × ((share : Share)
            → (mine m thread_count verifier (jobs id) vm w).0 ≡ some share
            → Names (jobs id) (nonce_blob id w) (nonce_hash id w) share)
  unfolding mine
  mine-IsAt thread_count verifier id vm w (at, key, here) =
      let current = write_nonce_le w.job_blob_current (u32 w.nonce) in
      let next = write_nonce_le w.job_blob_next (u32 (u64 (w.nonce + thread_count))) in
      let (hashed, keyed, prepared) =
        hash_current_lem w.pipeline_ready current next (jobs id).seed_hash vm key (λ r.
          subst (λ (b : Bytes). m.Prepared vm b) (sym (at.current (u32 w.nonce)))
            (at.ready vm r here)) in
      (
        record {
          job = at.job;
          keyed = λ other e.
              ap (λ o. elim o as (λ x. Bytes) [ none ↦ [] | some x ↦ m.key_of x ]) (sym e)
              ∙ keyed
              ∙ sym key
              ∙ at.keyed vm here;
          current = λ n. write_nonce_le_twice w.job_blob_current (u32 w.nonce) n ∙ at.current n;
          next = λ n.
              write_nonce_le_twice w.job_blob_next (u32 (u64 (w.nonce + thread_count))) n
              ∙ at.next n;
          ready = λ other r e.
              subst
                (λ (o : m.Vm).
                  m.Prepared o (write_nonce_le (jobs id).blob (u32 (u64 (w.nonce + thread_count)))))
                (ap (λ o. elim o as (λ x. m.Vm) [ none ↦ vm | some x ↦ x ]) e)
                (subst
                  (λ (b : Bytes). m.Prepared (hash_current m w.pipeline_ready current next vm).1 b)
                  (at.next (u32 (u64 (w.nonce + thread_count)))) prepared);
        },
        λ share found.
            let says = found_share-Names verifier (jobs id) current _ share found in
            subst (λ (b : Bytes). Names (jobs id) b (nonce_hash id w) share)
              (at.current (u32 w.nonce))
              (subst (λ (h : Bytes). Names (jobs id) current h share)
                (hashed
                  ∙ ap (λ (b : Bytes). m.hash (jobs id).seed_hash b) (at.current (u32 w.nonce)))
                says),
      )

  -- Neither taking a job nor a new key moves the nonce.
  same_nonce :
      (id : ℕ) (w : Worker m) → (rekey m (jobs id) (take_job m id (jobs id) w)).1.nonce ≡ w.nonce
  unfolding rekey take_job
  same_nonce id w = rekeyed (take_job m id (jobs id) w) ∙ taken
    where
      rekeyed : (v : Worker m) → (rekey m (jobs id) v).1.nonce ≡ v.nonce
      rekeyed v = ground arith

      taken : (take_job m id (jobs id) w).nonce ≡ w.nonce
      taken = ground arith

  worker_round-IsAt :
      (thread_count : ℕ) (verifier : Verifier) (id : ℕ) (w : Worker m)
      → IsSound w
      → IsAt id (worker_round m thread_count verifier id (jobs id) w).1
        × ((share : Share)
            → (worker_round m thread_count verifier id (jobs id) w).0 ≡ some share
            → Names (jobs id) (nonce_blob id w) (nonce_hash id w) share)
  unfolding worker_round
  worker_round-IsAt thread_count verifier id w sound =
      let keyed = rekey-IsKeyed id (take_job m id (jobs id) w) (take_job-IsAt id w sound) in
      let (vm, w') = rekey m (jobs id) (take_job m id (jobs id) w) in
      elim (Bool-cases (ltb (length w'.job_blob_current) 43 || ltb (length w'.job_blob_next) 43)) [
        | inl short ↦ rw (short, worker_round) (keyed.0, λ share e. absurd (nothing share e))
        | inr long ↦
            rw (long, worker_round)
              (
                (mine-IsAt thread_count verifier id vm w' keyed).0,
                λ share e.
                    subst
                      (λ (n : ℕ).
                        Names (jobs id) (write_nonce_le (jobs id).blob (u32 n))
                          (m.hash (jobs id).seed_hash (write_nonce_le (jobs id).blob (u32 n)))
                          share)
                      (same_nonce id w)
                      ((mine-IsAt thread_count verifier id vm w' keyed).1 share e),
              )
      ]
    where
      nothing : (share : Share) → none ≡ some share → ⊥
      nothing share e = cc

  IsAt-IsSound : (id : ℕ) (w : Worker m) → IsAt id w → IsSound w
  IsAt-IsSound id w at = (
    at.keyed,
    λ other e.
        subst (λ (k : ℕ). IsAt k w)
          (ap (λ o. elim o as (λ x. ℕ) [ none ↦ 0 | some x ↦ x ]) (sym at.job ∙ e)) at,
  )

  Rounds-IsSound :
      {thread_id thread_count : ℕ} {w : Worker m} → Rounds thread_id thread_count w → IsSound w
  Rounds-IsSound {thread_id} start = start-IsSound thread_id
  Rounds-IsSound {thread_count = thread_count} (round {w} before verifier id) =
      IsAt-IsSound id _ (worker_round-IsAt thread_count verifier id w (Rounds-IsSound before)).0

  -- After any rounds, whatever jobs they fetched, a round submits a share only for the job it fetched, with its id and its
  -- generation; the share's nonce is in the blob, its result is the hash of the job's blob with just this nonce under
  -- the job's seed, and that hash meets the job's target.
  pub submitted_share :
      (thread_id thread_count : ℕ) (w : Worker m) (verifier : Verifier) (id : ℕ) (share : Share)
      → Rounds thread_id thread_count w
      → (worker_round m thread_count verifier id (jobs id) w).0 ≡ some share
      → Names (jobs id) (nonce_blob id w) (nonce_hash id w) share
  submitted_share thread_id thread_count w verifier id share before found =
      (worker_round-IsAt thread_count verifier id w (Rounds-IsSound before)).1 share found
