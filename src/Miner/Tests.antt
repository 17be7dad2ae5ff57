-- ===== src/Miner/Tests.antt =====
-- The properties of the worker at concrete hashes and jobs.
mod Verifying
use miner_tim.Common.{
  ℕ, zero, suc, ◌≡◌, ◌≢◌, ◌↔◌, refl, ap, arith, [], ◌∷◌, none, some, true, false, Bytes, codes,
  replicate, get_or, All,
}
use miner_tim.Hex.{hex_encode}
use miner_tim.Hex.RoundTrip.{IsByte}
use miner_tim.Pool.State.{Job}
use miner_tim.Pool.Submit.{Share}
use miner_tim.Miner.Shares.{meets_target, write_nonce_le, classify_share, should_submit}
use miner_tim.Miner.Target.{compact_target, withheld_iff}
use miner_tim.Miner.Worker.{Machine, Verifier, Worker, worker_start, worker_round}
use miner_tim.Miner.Pipeline.{start, round, Names, nonce_blob, nonce_hash, submitted_share}

bytes : (n k : ℕ) → k ≡ 3 → All IsByte (replicate n k)
bytes zero k h = tt
bytes (suc n) k h = (omega arith, bytes n k h)

-- A hash of 32 times the low byte of the nonce.
abbrev pub toy_hash : Bytes → Bytes → Bytes
toy_hash key input = replicate 32 (get_or input 39 0)

-- The key and the prepared input.
abbrev toy : Machine
toy = record {
  Vm = Bytes × Bytes;
  hash = toy_hash;
  new_full = λ k. (k, []);
  reinit = λ k vm. (k, vm.1);
  prepare_scratchpad = λ input vm. (vm.0, input);
  calculate_hash_pipelined = λ input vm. (toy_hash vm.0 vm.1, (vm.0, input));
  key_of = λ vm. vm.0;
  Prepared = λ vm input. vm.1 ≡ input;
  new_full-key = λ k. refl;
  reinit-key = λ k vm. refl;
  prepare-key = λ input vm. refl;
  pipelined-key = λ input vm. refl;
  prepare-Prepared = λ input vm. refl;
  pipelined-Prepared = λ input vm. refl;
  pipelined-hash = λ input before vm p. ap (λ (b : Bytes). toy_hash vm.0 b) p;
}

abbrev easy_job : ℕ → Job
easy_job id = record {
  blob = replicate 43 0;
  target = replicate 8 255;
  job_id = codes "7";
  seed_hash = 1 ∷ [];
  generation = 4;
}

abbrev off : Verifier
off = record { enabled = false; reference = λ blob. none }

-- Thread 1 of 2, behind its first round.
abbrev second : Worker toy
second = (worker_round toy 2 off 5 (easy_job 5) (worker_start toy 1)).1

abbrev second_share : Share
second_share = record {
  job_id = codes "7";
  nonce = codes "03000000";
  result = hex_encode (replicate 32 3);
  job_generation = 4;
}

submitted_share_example :
    Names toy easy_job
      (easy_job 5)
      (nonce_blob toy easy_job 5 second)
      (nonce_hash toy easy_job 5 second)
      second_share
submitted_share_example =
    submitted_share toy easy_job 1 2 second off 5 second_share (round start off 5) (
      unfold worker_round worker_start write_nonce_le meets_target classify_share should_submit
        hex_encode in
      refl)

withheld_iff_example :
    (should_submit (classify_share true (3 ∷ []) (some (4 ∷ []))) ≡ false)
    ↔ (true ≡ true) × ((r : Bytes) × (some (4 ∷ []) ≡ some r) × (r ≢ 3 ∷ []))
withheld_iff_example = withheld_iff true (3 ∷ []) (some (4 ∷ []))
