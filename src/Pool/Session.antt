-- ===== src/Pool/Session.antt =====
-- Connecting, logging in, logging in again and reconnecting (src/pool_connection.rs). What the
-- operating system, the TLS library and the pool answer is an `Attempt`.
pub mod Frames
pub mod Laws
use miner_tim.Common.{
  ℕ, ◌+◌, ◌*◌, List, [], ◌∷◌, Option, none, some, Bool, true, false, not, ◌&&◌, ◌||◌, Bytes, codes,
  u64, if◌then◌else◌, ◌>>=◌ as and_then, is_some, is_empty,
}
use miner_tim.Donate.{Beneficiary, user, author, xmrig}
use miner_tim.Pool.State.{
  LoginParams, PoolConnection, PoolStream, plain, tls, Result, ok, err, Error, pinned_plaintext,
  tcp_failed, timeout_failed, nodelay_failed, server_name_failed, tls_failed, not_connected,
  parse_failed, login_error, no_session_id, unexpected_response, no_address, recv_poll_interval,
  next_request_id, drain_pending_shares,
}
use miner_tim.Pool.Framing.{ReadByte, read_line}
use miner_tim.Pool.Json.{Json}
use miner_tim.Pool.Jobs.{parse_job, is_tls_port}

pub record Attempt : Type 0 where
  pub tcp_connects : Bool
  pub read_timeout_set : Bool
  pub write_timeout_set : Bool
  pub nodelay_set : Bool
  pub server_name_valid : Bool
  pub tls_set_up : Bool
  pub request_written : Result (Unit {0})
  pub login_timeout_set : Bool
  pub reply : List ReadByte
  pub poll_timeout_set : Bool

-- What a failed test returns.
abbrev pub ensure : Bool → Error → Result (Unit {0})
ensure passed e = if passed then ok tt else err e

-- `?` on a result.
infixl 5 ◌>>=◌ ◌>>◌
abbrev pub ◌>>=◌ {ℓ κ} : {A : Type ℓ} {B : Type κ} → Result A → (A → Result B) → Result B
m >>= k = elim m [ err e ↦ err e | ok a ↦ k a ]

abbrev pub ◌>>◌ {ℓ} : {B : Type ℓ} → Result (Unit {0}) → Result B → Result B
m >> second = elim m [ err e ↦ err e | ok _ ↦ second ]

-- A TLS stream or a plain one, by the port.
unfoldable pub secure : Attempt → Bool → Result PoolStream
secure a false = ok (plain (30 * 1000))
secure a true = do
  ensure a.server_name_valid server_name_failed
  ensure a.tls_set_up tls_failed
  ok (tls (30 * 1000))

-- The socket, up to where it is installed; its read timeout is 30 seconds at first.
unfoldable pub open_stream : Attempt → Bool → Bytes → Result PoolStream
unfolding secure
open_stream a pinned address = do
  ensure (not (pinned && not (is_tls_port address))) pinned_plaintext
  ensure a.tcp_connects tcp_failed
  ensure a.read_timeout_set timeout_failed
  ensure a.write_timeout_set timeout_failed
  ensure a.nodelay_set nodelay_failed
  secure a (is_tls_port address)

-- `reconnect` and `relogin_as` clear the job and the stream before they drain.
unfoldable pub clear_stream : PoolConnection → PoolConnection
clear_stream c = record c {
  connected = false;
  current_job = none;
  stream = none;
  rotation_wait_since = none;
}

-- The critical section at the end of `connect`.
unfoldable pub install_stream : PoolStream → PoolConnection → PoolConnection
install_stream stream c = record c {
  stream = some stream;
  sent = [];
  generation = u64 (c.generation + 1);
  connected = true;
}

unfoldable pub connect : Attempt → Bytes → PoolConnection → Result (Unit {0}) × PoolConnection
unfolding open_stream install_stream
connect a address c = elim (open_stream a (is_some c.pinned_fingerprint) address) [
  | err e ↦ (err e, c)
  | ok stream ↦ (ok tt, install_stream stream (record c { address = address }))
]

abbrev pub with_timeout : ℕ → PoolStream → PoolStream
with_timeout ms (plain old) = plain ms
with_timeout ms (tls old) = tls ms

-- A timeout that cannot be set is only logged.
unfoldable pub set_read_timeout : Bool → ℕ → PoolConnection → PoolConnection
set_read_timeout works ms c = elim c.stream [
  | none ↦ c
  | some stream ↦ record c { stream = some (if works then with_timeout ms stream else stream) }
]

unfoldable pub remember_wallet : Bytes → PoolConnection → PoolConnection
remember_wallet wallet c = record c {
  wallet = wallet;
  user_wallet = if is_empty c.user_wallet then wallet else c.user_wallet;
}

-- The address for a beneficiary; the two donation addresses are the constants of src/donate.rs.
unfoldable pub beneficiary_address : Bytes → Bytes → Beneficiary → PoolConnection → Bytes
beneficiary_address author_address xmrig_address user c = c.user_wallet
beneficiary_address author_address xmrig_address author c = author_address
beneficiary_address author_address xmrig_address xmrig c = xmrig_address

-- The parameters that `login` sends; the agent has the version of the package.
unfoldable pub login_params : Bytes → LoginParams
login_params wallet = record {
  login = wallet;
  pass = codes "x";
  agent = codes "MinerTim/0.1.3";
  algo = codes "rx/0";
}

module _ (json : Json) (is_utf8 : Bytes → Bool) where
  open json use {Value, from_str, get, as_str, is_null}

  -- A member that is there and not null.
  unfoldable pub present : Value → Bytes → Option Value
  present v key = and_then (get v key) (λ m. if is_null m then none else some m)

  -- `send_request`, which only `login` calls: write the request with these parameters, then read one
  -- line and parse it.
  unfoldable pub send_request :
      Attempt → LoginParams → PoolConnection → Result Value × PoolConnection
  unfolding next_request_id set_read_timeout
  send_request a params c = elim c.stream [
    | none ↦ (err not_connected, c)
    | some stream ↦
        let numbered = (next_request_id c).1 in
        elim a.request_written [
          | err e ↦ (err e, numbered)
          | ok _ ↦ (
            (read_line is_utf8 a.reply).0 >>= λ line. elim (from_str line) [
              | none ↦ err parse_failed
              | some v ↦ ok v
            ],
            set_read_timeout a.login_timeout_set (30 * 1000)
                (record numbered { sent = (c.request_id, params) ∷ numbered.sent }),
          )
        ]
  ]

  unfoldable pub start_session : Value → Bytes → PoolConnection → PoolConnection
  start_session result id c =
      elim (and_then (get result (codes "job")) (λ d. parse_job json d c.generation)) [
        | none ↦ record c { session_id = id }
        | some job ↦ record c { session_id = id; current_job = some job }
      ]

  -- What `login` makes of the pool's answer.
  unfoldable pub read_login : Value → PoolConnection → Result (Unit {0}) × PoolConnection
  unfolding present start_session
  read_login response c = elim (present response (codes "error")) [
    | some error ↦ (err login_error, c)
    | none ↦ elim (present response (codes "result")) [
      | none ↦ (err unexpected_response, c)
      | some result ↦ elim (and_then (get result (codes "id")) as_str) [
        | none ↦ (err no_session_id, c)
        | some id ↦ (ok tt, start_session result id c)
      ]
    ]
  ]

  unfoldable pub after_request : Result Value × PoolConnection → Result (Unit {0}) × PoolConnection
  unfolding read_login
  after_request (err e, c) = (err e, c)
  after_request (ok response, c) = read_login response c

  unfoldable pub login : Attempt → Bytes → PoolConnection → Result (Unit {0}) × PoolConnection
  unfolding remember_wallet login_params send_request after_request
  login a wallet c = after_request (send_request a (login_params wallet) (remember_wallet wallet c))

  -- What follows a login: its failure clears the stream.
  unfoldable pub after_login :
      Bool → Result (Unit {0}) × PoolConnection → Result (Unit {0}) × PoolConnection
  unfolding set_read_timeout
  after_login works (err e, c) = (err e, record c { stream = none })
  after_login works (ok u, c) = (ok tt, set_read_timeout works recv_poll_interval c)

  -- What follows a connect: its failure clears the stream too.
  unfoldable pub after_connect :
      Attempt → Bytes → Result (Unit {0}) × PoolConnection → Result (Unit {0}) × PoolConnection
  unfolding login after_login
  after_connect a wallet (err e, c) = (err e, record c { stream = none })
  after_connect a wallet (ok u, c) = after_login a.poll_timeout_set (login a wallet c)

  -- `connect(..).and_then(|_| login(..))`.
  unfoldable pub connect_and_login :
      Attempt → Bytes → Bytes → PoolConnection → Result (Unit {0}) × PoolConnection
  unfolding connect after_connect
  connect_and_login a address wallet c = after_connect a wallet (connect a address c)

  -- One attempt; the job and the stream are gone and the outstanding shares counted as lost first.
  unfoldable pub relogin_as : Attempt → Bytes → PoolConnection → Result (Unit {0}) × PoolConnection
  unfolding connect_and_login drain_pending_shares
  relogin_as a wallet c =
      if is_empty c.address
      then (err no_address, c)
      else connect_and_login a c.address wallet
          (drain_pending_shares (record c { current_job = none; stream = none }))

  -- The retry loop, over the attempts to come; `none` while it still runs.
  unfoldable pub retry :
      List Attempt → Bytes → Bytes → PoolConnection → Option Bool × PoolConnection
  unfolding connect_and_login
  retry [] address wallet c = (none, c)
  retry (a ∷ later) address wallet c =
      let (result, c') = connect_and_login a address wallet c in
      elim result [ ok u ↦ (some true, c') | err e ↦ retry later address wallet c' ]

  unfoldable pub reconnect : List Attempt → PoolConnection → Option Bool × PoolConnection
  unfolding retry clear_stream drain_pending_shares
  reconnect attempts c =
      let down = drain_pending_shares (clear_stream c) in
      if is_empty c.address || is_empty c.wallet
      then (some false, down)
      else retry attempts c.address c.wallet down
