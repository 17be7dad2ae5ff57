-- ===== src/Pool/Submit.antt =====
-- `submit_share` and `write_and_register` (src/pool_connection.rs), in the atomic steps between
-- which other threads can run. Logging and timing are left out.
use miner_tim.Common.{ℕ, ◌+◌, ◌-◌, ◌^◌, none, some, Bytes, u32, ◌==◌, if◌then◌else◌}
use miner_tim.Pool.State.{
  PoolConnection, Result, ok, err, not_connected, stale_job, insert, next_request_id,
}

-- The arguments of `submit_share`.
pub record Share : Type 0 where
  pub job_id : Bytes
  pub nonce : Bytes
  pub result : Bytes
  pub job_generation : ℕ

-- `submits_in_flight.fetch_add(1)`.
unfoldable pub enter : PoolConnection → PoolConnection
enter c = record c { submits_in_flight = u32 (c.submits_in_flight + 1) }

-- `InFlight::drop`: `fetch_sub(1)`, which wraps.
unfoldable pub leave : PoolConnection → PoolConnection
leave c = record c { submits_in_flight = u32 (c.submits_in_flight + 2 ^ 32 - 1) }

-- Under the stream lock, as one step. `written` is what `write_request` returns on the stream.
unfoldable pub write_and_register :
    ℕ → Share → ℕ → Result (Unit {0}) → PoolConnection → Result (Unit {0}) × PoolConnection
write_and_register rpc_id share now written c = elim c.stream [
  | none ↦ (err not_connected, c)
  | some stream ↦
      if share.job_generation == c.generation
      then elim written [
        | err e ↦ (err e, c)
        | ok _ ↦ (
          ok tt,
          record c {
            pending_shares =
                insert rpc_id (record { job_id = share.job_id; nonce = share.nonce; sent_at = now })
                  c.pending_shares;
          },
        )
      ]
      else (err stale_job, c)
]

-- The error path counts the share as unsent.
unfoldable pub settle : Result (Unit {0}) → PoolConnection → PoolConnection
settle (ok _) c = c
settle (err e) c = record c { unsent_shares = u32 (c.unsent_shares + 1) }

-- The whole of `submit_share`, with nothing in between.
unfoldable pub submit_share :
    Share → ℕ → Result (Unit {0}) → PoolConnection → Result (Unit {0}) × PoolConnection
unfolding enter next_request_id write_and_register settle leave
submit_share share now written c =
    let (rpc_id, numbered) = next_request_id (enter c) in
    let (result, after) = write_and_register rpc_id share now written numbered in
    (result, leave (settle result after))
