-- ===== src/Pool/Ledger/Effects.antt =====
-- What the receiver's steps and a write do to the counts.
use miner_tim.Common.{
  ℕ, ◌+◌, ◌≤◌, ◌≡◌, inl, inr, refl, ◌∙◌, arith, Option, none, some, Bytes, u32, ◌==◌, if◌then◌else◌,
  Option-cases,
}
use miner_tim.Pool.State.{
  Job, PoolStream, PoolConnection, PendingShare, Result, lookup, remove, drain_pending_shares,
}
use miner_tim.Pool.Json.{Json}
use miner_tim.Pool.Messages.{
  handle_pool_message, install_job, count_response, answer, count_answer, response_id,
}
use miner_tim.Pool.Session.{clear_stream, install_stream}
use miner_tim.Pool.Submit.{Share, write_and_register}
use miner_tim.Pool.System.{returned, System}
use miner_tim.Pool.Ledger.Counts.{
  key_count, open_share, remove_absent, length-remove_found, key_count-remove_le, count_lost-length,
  accounted, IsFresh, IsBalanced,
}

-- What the receiver's steps leave as it is.
pub record Keeps (c c' : PoolConnection) : Type 0 where
  pub same_id : c'.request_id ≡ c.request_id
  pub same_flight : c'.submits_in_flight ≡ c.submits_in_flight
  pub same_account : u32 (accounted c') ≡ u32 (accounted c)
  pub fewer_keys : (k : ℕ) → key_count k c'.pending_shares ≤ key_count k c.pending_shares

pub count_answer_account :
    (json : Json) (msg : json.Value) (c : PoolConnection)
    → ((count_answer json msg c).request_id ≡ c.request_id)
      × ((count_answer json msg c).submits_in_flight ≡ c.submits_in_flight)
      × ((count_answer json msg c).pending_shares ≡ c.pending_shares)
      × (u32 (accounted (count_answer json msg c)) ≡ u32 (accounted c + 1))
unfolding count_answer
count_answer_account json msg c = (ground arith, ground arith, ground arith, ground arith)

pub answer-Keeps :
    (json : Json) (msg : json.Value) (rpc_id : ℕ) (c : PoolConnection)
    → Keeps c (answer json msg rpc_id c)
unfolding answer
answer-Keeps json msg rpc_id c = elim (Option-cases (lookup rpc_id c.pending_shares)) [
  | inl e ↦
      rw (e, answer)
        (record {
          same_id = refl;
          same_flight = refl;
          same_account = refl;
          fewer_keys = λ k. omega arith;
        })
  | inr (v, e) ↦ rw (e, answer) (found v e)
]
  where
    removed : PoolConnection
    removed = record c { pending_shares = remove rpc_id c.pending_shares }

    found :
        (v : PendingShare)
        → lookup rpc_id c.pending_shares ≡ some v
        → Keeps c (count_answer json msg removed)
    found v e =
        let (id, flight, pending, account) = count_answer_account json msg removed in
        record {
          same_id = id;
          same_flight = flight;
          same_account = omega (arith, length-remove_found rpc_id c.pending_shares e, account);
          fewer_keys = λ k. rw pending (key_count-remove_le k rpc_id c.pending_shares);
        }

pub Keeps-refl : (c : PoolConnection) → Keeps c c
Keeps-refl c = record {
  same_id = refl;
  same_flight = refl;
  same_account = refl;
  fewer_keys = λ k. omega arith;
}

pub Keeps-trans : {a b c : PoolConnection} → Keeps a b → Keeps b c → Keeps a c
Keeps-trans p q = record {
  same_id = q.same_id ∙ p.same_id;
  same_flight = q.same_flight ∙ p.same_flight;
  same_account = q.same_account ∙ p.same_account;
  fewer_keys = λ k. omega (arith, p.fewer_keys k, q.fewer_keys k);
}

pub set_job-Keeps :
    (c : PoolConnection) (o : Option Job)
    → Keeps c (elim o [ none ↦ c | some job ↦ record c { current_job = some job } ])
set_job-Keeps c none = Keeps-refl c
set_job-Keeps c (some job) = record {
  same_id = refl;
  same_flight = refl;
  same_account = refl;
  fewer_keys = λ k. omega arith;
}

pub install_job-Keeps :
    (json : Json) (msg : json.Value) (c : PoolConnection) → Keeps c (install_job json msg c)
unfolding install_job
install_job-Keeps json msg c = set_job-Keeps c _

pub count_response-Keeps :
    (json : Json) (msg : json.Value) (c : PoolConnection) → Keeps c (count_response json msg c)
unfolding count_response
count_response-Keeps json msg c = elim (Option-cases (response_id json msg)) [
  | inl e ↦ rw (e, count_response) (Keeps-refl c)
  | inr (id, e) ↦ rw (e, count_response) (answer-Keeps json msg id c)
]

pub handle-Keeps :
    (json : Json) (line : Bytes) (c : PoolConnection) → Keeps c (handle_pool_message json line c)
unfolding handle_pool_message
handle-Keeps json line c = elim (Option-cases (json.from_str line)) [
  | inl e ↦ rw (e, handle_pool_message) (Keeps-refl c)
  | inr (msg, e) ↦
      rw (e, handle_pool_message)
        (Keeps-trans (install_job-Keeps json msg c)
          (count_response-Keeps json msg (install_job json msg c)))
]

pub drain-Keeps : (c : PoolConnection) → Keeps c (drain_pending_shares c)
unfolding drain_pending_shares
drain-Keeps c = record {
  same_id = refl;
  same_flight = refl;
  same_account = omega (arith, count_lost-length c.lost_shares c.pending_shares);
  fewer_keys = λ k. omega arith;
}

pub clear-Keeps : (c : PoolConnection) → Keeps c (clear_stream c)
unfolding clear_stream
clear-Keeps c = record {
  same_id = refl;
  same_flight = refl;
  same_account = refl;
  fewer_keys = λ k. omega arith;
}

pub install-Keeps : (c : PoolConnection) (stream : PoolStream) → Keeps c (install_stream stream c)
unfolding install_stream
install-Keeps c stream = record {
  same_id = refl;
  same_flight = refl;
  same_account = refl;
  fewer_keys = λ k. omega arith;
}

module _ (s : System) (c' : PoolConnection) (k : Keeps s.conn c') where
  pub Keeps-IsBalanced : IsBalanced s → IsBalanced (record s { conn = c' })
  Keeps-IsBalanced b = record {
    in_flight = k.same_flight ∙ b.in_flight;
    ledger = omega (arith, b.ledger, k.same_account);
  }

  pub Keeps-IsFresh : IsFresh s → IsFresh (record s { conn = c' })
  Keeps-IsFresh f = record {
    counter = k.same_id ∙ f.counter;
    once = λ j. omega (arith, f.once j, k.fewer_keys j);
    issued_only = λ j lt. omega (arith, f.issued_only j lt, k.fewer_keys j);
  }

-- The result of a write: an entry under a new key, or nothing changed.
pub write-cases :
    (rpc_id now : ℕ) (share : Share) (written : Result (Unit {0})) (c : PoolConnection)
    → ((write_and_register rpc_id share now written c).1.request_id ≡ c.request_id)
      × ((write_and_register rpc_id share now written c).1.submits_in_flight ≡ c.submits_in_flight)
unfolding write_and_register
write-cases rpc_id now share written c = (ground arith, ground arith)

pub write-account :
    (rpc_id now : ℕ) (share : Share) (written : Result (Unit {0})) (c : PoolConnection)
    → key_count rpc_id c.pending_shares ≡ 0
    → accounted (write_and_register rpc_id share now written c).1
        + open_share (returned (write_and_register rpc_id share now written c).0)
      ≡ accounted c + 1
unfolding write_and_register
write-account rpc_id now share written c h = ground (arith, remove_absent rpc_id c.pending_shares h)

pub write-keys :
    (rpc_id now k : ℕ) (share : Share) (written : Result (Unit {0})) (c : PoolConnection)
    → key_count k (write_and_register rpc_id share now written c).1.pending_shares
      ≤ key_count k c.pending_shares + (if rpc_id == k then 1 else 0)
unfolding write_and_register
write-keys rpc_id now k share written c =
    ground (arith, key_count-remove_le k rpc_id c.pending_shares)
