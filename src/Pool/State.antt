-- ===== src/Pool/State.antt =====
-- The struct `PoolConnection` and the types around it (src/pool_connection.rs). A mutex-guarded or
-- atomic field is a plain field; no thread panics while it holds a lock, so that a lock is never
-- poisoned. Durations and instants are milliseconds. Of a socket only what the code sets is kept.
use miner_tim.Common.{
  ℕ, ◌+◌, ◌*◌, ◌^◌, List, [], ◌∷◌, Option, none, some, Bool, false, Bytes, u32, u64, length, ◌==◌,
  if◌then◌else◌,
}
use miner_tim.Donate.{Beneficiary, DonationSchedule}
use miner_tim.Donate

abbrev pub recv_poll_interval : ℕ
recv_poll_interval = 50

abbrev pub keepalive_interval : ℕ
keepalive_interval = 60 * 1000

abbrev pub pool_silence_timeout : ℕ
pool_silence_timeout = 3 * keepalive_interval

abbrev pub rotation_settle_limit : ℕ
rotation_settle_limit = 5 * 1000

abbrev pub max_line_bytes : ℕ
max_line_bytes = 2 ^ 20

pub record Job : Type 0 where
  pub blob : Bytes
  pub target : Bytes
  pub job_id : Bytes
  pub seed_hash : Bytes
  pub generation : ℕ

pub record PendingShare : Type 0 where
  pub job_id : Bytes
  pub nonce : Bytes
  pub sent_at : ℕ

-- The number is the socket's read timeout.
pub data PoolStream : Type 0 where
  plain : ℕ → PoolStream
  tls : ℕ → PoolStream

-- The parameters of a `login` request.
pub record LoginParams : Type 0 where
  pub login : Bytes
  pub pass : Bytes
  pub agent : Bytes
  pub algo : Bytes

-- `sent` is what the socket of `stream` has been given: the ids and the parameters of the login
-- requests written to it, the last one first. All else is a field of the source.
pub record PoolConnection : Type 0 where
  pub stream : Option PoolStream
  pub sent : List (ℕ × LoginParams)
  pub current_job : Option Job
  pub connected : Bool
  pub request_id : ℕ
  pub generation : ℕ
  pub address : Bytes
  pub wallet : Bytes
  pub user_wallet : Bytes
  pub donation : DonationSchedule
  pub pinned_fingerprint : Option Bytes
  pub session_id : Bytes
  pub accepted_shares : ℕ
  pub rejected_shares : ℕ
  pub pending_shares : List (ℕ × PendingShare)
  pub lost_shares : ℕ
  pub unsent_shares : ℕ
  pub submits_in_flight : ℕ
  pub silence_timeout_ms : ℕ
  pub rotation_settle_ms : ℕ
  pub rotation_wait_since : Option (Beneficiary × ℕ)

-- What a `Result<_, String>` of this file fails with.
pub data Error : Type 0 where
  pinned_plaintext tcp_failed timeout_failed nodelay_failed server_name_failed : Error
  tls_failed not_connected stale_job write_failed flush_failed line_too_long : Error
  read_failed invalid_utf8 parse_failed login_error no_session_id : Error
  unexpected_response no_address : Error

pub data Result {ℓ} (A : Type ℓ) : Type ℓ where
  ok : A → Result A
  err : Error → Result A

unfoldable pub with_tls_fingerprint : ℕ → Option Bytes → PoolConnection
with_tls_fingerprint donate_level fingerprint = record {
  stream = none;
  sent = [];
  current_job = none;
  connected = false;
  request_id = 1;
  generation = 0;
  address = [];
  wallet = [];
  user_wallet = [];
  donation = Donate.new donate_level;
  pinned_fingerprint = fingerprint;
  session_id = [];
  accepted_shares = 0;
  rejected_shares = 0;
  pending_shares = [];
  lost_shares = 0;
  unsent_shares = 0;
  submits_in_flight = 0;
  silence_timeout_ms = pool_silence_timeout;
  rotation_settle_ms = rotation_settle_limit;
  rotation_wait_since = none;
}

-- The hash map of outstanding submissions, as an association list without double keys.
abbrev pub remove : ℕ → List (ℕ × PendingShare) → List (ℕ × PendingShare)
remove k [] = []
remove k ((j, v) ∷ m) = if j == k then m else (j, v) ∷ remove k m

abbrev pub insert : ℕ → PendingShare → List (ℕ × PendingShare) → List (ℕ × PendingShare)
insert k v m = (k, v) ∷ remove k m

abbrev pub lookup : ℕ → List (ℕ × PendingShare) → Option PendingShare
lookup k [] = none
lookup k ((j, v) ∷ m) = if j == k then some v else lookup k m

unfoldable pub next_request_id : PoolConnection → ℕ × PoolConnection
next_request_id c = (c.request_id, record c { request_id = u64 (c.request_id + 1) })

unfoldable pub get_pending_shares : PoolConnection → ℕ
get_pending_shares c = length c.pending_shares

-- Every outstanding submission is counted as lost.
abbrev pub count_lost : ℕ → List (ℕ × PendingShare) → ℕ
count_lost lost [] = lost
count_lost lost (entry ∷ rest) = count_lost (u32 (lost + 1)) rest

unfoldable pub drain_pending_shares : PoolConnection → PoolConnection
drain_pending_shares c = record c {
  pending_shares = [];
  lost_shares = count_lost c.lost_shares c.pending_shares;
}

unfoldable pub reset_share_counters : PoolConnection → PoolConnection
reset_share_counters c = record c {
  accepted_shares = 0;
  rejected_shares = 0;
  lost_shares = 0;
  unsent_shares = 0;
}
