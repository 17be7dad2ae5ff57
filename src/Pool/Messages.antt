-- ===== src/Pool/Messages.antt =====
-- `handle_pool_message` (src/pool_connection.rs): job notifications, and responses to submissions.
-- It runs on the receiver thread alone; an answered entry belongs to no other thread once it is
-- removed, so that the removal and the count are one step. Logging is left out.
pub mod Members
pub mod Laws
use miner_tim.Common.{
  ℕ, ◌+◌, ◌^◌, ◌%◌, Option, none, some, Bool, true, false, not, ◌&&◌, Bytes, codes, u32,
  if◌then◌else◌, eq_bytes, ◌>>=◌, is_none,
}
use miner_tim.Pool.State.{PoolConnection, PendingShare, lookup, remove}
use miner_tim.Pool.Json.{Json}
use miner_tim.Pool.Jobs.{parse_job}

abbrev pub is_text : Option Bytes → Bytes → Bool
is_text none t = false
is_text (some s) t = eq_bytes s t

unfoldable pub accept : PoolConnection → PoolConnection
accept c = record c { accepted_shares = u32 (c.accepted_shares + 1) }

unfoldable pub reject : PoolConnection → PoolConnection
reject c = record c { rejected_shares = u32 (c.rejected_shares + 1) }

module _ (json : Json) where
  open json use {Value, from_str, get, as_str, as_u64, is_null}

  unfoldable pub job_params : Value → Option Value
  job_params msg =
      if is_text (get msg (codes "method") >>= as_str) (codes "job")
      then get msg (codes "params")
      else (get msg (codes "result") >>= λ r. get r (codes "job"))

  -- A job that does not parse leaves the one before it in force.
  unfoldable pub install_job : Value → PoolConnection → PoolConnection
  unfolding job_params
  install_job msg c = elim (job_params msg >>= λ d. parse_job json d c.generation) [
    | none ↦ c
    | some job ↦ record c { current_job = some job }
  ]

  unfoldable pub has_error : Value → Bool
  has_error msg = elim (get msg (codes "error")) [ none ↦ false | some error ↦ not (is_null error) ]

  unfoldable pub status_ok : Value → Bool
  status_ok msg =
      is_text (get msg (codes "result") >>= λ r. get r (codes "status") >>= as_str) (codes "OK")

  -- The count for an answer whose entry was found and removed.
  unfoldable pub count_answer : Value → PoolConnection → PoolConnection
  unfolding accept reject
  count_answer msg c =
      if has_error msg then reject c else if status_ok msg then accept c else reject c

  unfoldable pub answer : Value → ℕ → PoolConnection → PoolConnection
  answer msg rpc_id c = elim (lookup rpc_id c.pending_shares) [
    | none ↦ c
    | some entry ↦ count_answer msg (record c { pending_shares = remove rpc_id c.pending_shares })
  ]

  -- A numeric id and no method.
  unfoldable pub response_id : Value → Option ℕ
  response_id msg =
      if is_none (get msg (codes "method")) then (get msg (codes "id") >>= as_u64) else none

  unfoldable pub count_response : Value → PoolConnection → PoolConnection
  unfolding response_id answer
  count_response msg c = elim (response_id msg) [ none ↦ c | some rpc_id ↦ answer msg rpc_id c ]

  unfoldable pub handle_pool_message : Bytes → PoolConnection → PoolConnection
  unfolding count_response install_job
  handle_pool_message line c = elim (from_str line) [
    | none ↦ c
    | some msg ↦ count_response msg (install_job msg c)
  ]
