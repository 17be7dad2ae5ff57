-- ===== src/Pool/System.antt =====
-- The threads around one connection (src/pool_connection.rs): any number of calls of `submit_share`,
-- each somewhere between its atomic steps, and the receiver thread, which handles messages, tears
-- the connection down, drains the outstanding submissions, installs a new stream and draws request
-- ids for its own messages. Its steps may come in any order here, which is more than the code does.
use miner_tim.Common.{ℕ, ◌+◌, ◌≡◌, List, [], ◌∷◌, ◌++◌, Option, Bytes}
use miner_tim.Donate.{Beneficiary}
use miner_tim.Pool.State.{
  PoolConnection, PoolStream, Result, next_request_id, drain_pending_shares, with_tls_fingerprint,
}
use miner_tim.Pool.Json.{Json}
use miner_tim.Pool.Session.{clear_stream, install_stream}
use miner_tim.Pool.Messages.{handle_pool_message}
use miner_tim.Pool.Submit.{Share, enter, leave, write_and_register, settle}

-- Where a call of `submit_share` stands: in flight, in flight with its request id, or back from
-- `write_and_register` with its result.
pub data Submitter : Type 0 where
  entered : Share → Submitter
  numbered : Share → ℕ → Submitter
  returned : Result (Unit {0}) → Submitter

-- `calls` and `issued` count the calls of `submit_share` and the request ids so far.
pub record System : Type 0 where
  pub conn : PoolConnection
  pub submitters : List Submitter
  pub calls : ℕ
  pub issued : ℕ

unfoldable pub start : ℕ → Option Bytes → System
unfolding with_tls_fingerprint
start donate_level fingerprint = record {
  conn = with_tls_fingerprint donate_level fingerprint;
  submitters = [];
  calls = 0;
  issued = 0;
}

module _ (json : Json) where
  pub data Step : System → System → Type 0 where
    call :
        (s : System) (share : Share)
        → Step s (record s {
          conn = enter s.conn;
          submitters = entered share ∷ s.submitters;
          calls = s.calls + 1;
        })
    draw_id :
        (s : System) (before after : List Submitter) (share : Share)
        → s.submitters ≡ before ++ entered share ∷ after
        → Step s (record s {
          conn = (next_request_id s.conn).1;
          submitters = before ++ numbered share (next_request_id s.conn).0 ∷ after;
          issued = s.issued + 1;
        })
    write :
        (s : System) (before after : List Submitter) (share : Share) (rpc_id now : ℕ)
        (written : Result (Unit {0}))
        → s.submitters ≡ before ++ numbered share rpc_id ∷ after
        → Step s (record s {
          conn = (write_and_register rpc_id share now written s.conn).1;
          submitters =
              before ++ returned (write_and_register rpc_id share now written s.conn).0 ∷ after;
        })
    exit :
        (s : System) (before after : List Submitter) (result : Result (Unit {0}))
        → s.submitters ≡ before ++ returned result ∷ after
        → Step s (record s { conn = leave (settle result s.conn); submitters = before ++ after })
    receive :
        (s : System) (line : Bytes)
        → Step s (record s { conn = handle_pool_message json line s.conn })
    clear : (s : System) → Step s (record s { conn = clear_stream s.conn })
    drain : (s : System) → Step s (record s { conn = drain_pending_shares s.conn })
    install :
        (s : System) (stream : PoolStream)
        → Step s (record s { conn = install_stream stream s.conn })
    send_own :
        (s : System)
        → Step s (record s { conn = (next_request_id s.conn).1; issued = s.issued + 1 })
    defer_rotation :
        (s : System) (wait : Option (Beneficiary × ℕ))
        → Step s (record s { conn = record (s.conn) { rotation_wait_since = wait } })

  pub data Reach (s : System) : System → Type 0 where
    here : Reach s s
    next : {t u : System} → Reach s t → Step t u → Reach s u
