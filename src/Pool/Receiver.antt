-- ===== src/Pool/Receiver.antt =====
-- `receiver_loop` (src/pool_connection.rs): one iteration, on what the clock, the socket and the pool
-- give it. Logging, the thread's priority and the delay between attempts are left out.
pub mod Silence
pub mod Wallets
pub mod Beneficiaries
use miner_tim.Common.{
  ℕ, ◌+◌, ◌-◌, ◌/◌, List, [], ◌∷◌, ◌++◌, Option, none, some, Bool, true, false, not, ◌&&◌, Bytes,
  leb, if◌then◌else◌,
}
use miner_tim.Donate.{Beneficiary, user, beneficiary_at}
use miner_tim.Donate.Schedule.{same}
use miner_tim.Pool.State.{
  PoolConnection, Result, ok, err, not_connected, keepalive_interval, recv_poll_interval,
  next_request_id,
}
use miner_tim.Pool.Json.{Json}
use miner_tim.Pool.Framing.{Taken, lines, overflow, take_complete_lines}
use miner_tim.Pool.Messages.{handle_pool_message}
use miner_tim.Pool.Rotation.{note_donation_target, rotation_settled}
use miner_tim.Pool.Session.{Attempt, set_read_timeout, beneficiary_address, relogin_as, reconnect}

-- The loop's local variables.
pub record Receiver : Type 0 where
  pub pending : Bytes
  pub last_keepalive : ℕ
  pub last_recv : ℕ
  pub donation_start : ℕ
  pub active : Beneficiary
  pub last_want : Beneficiary

-- `read` of the shared stream: a timeout, an error, or bytes; no bytes are the end of the stream.
pub data ReadResult : Type 0 where
  would_block : ReadResult
  read_error : ReadResult
  received : Bytes → ReadResult

-- The attempts of a `reconnect`, and the time when it has returned.
pub record Reconnecting : Type 0 where
  pub attempts : List Attempt
  pub back_at : ℕ

-- What one iteration meets: a time for each reading of the clock, in their order.
pub record Poll : Type 0 where
  pub began_at : ℕ
  pub relogin : Attempt
  pub relogin_at : ℕ
  pub read : ReadResult
  pub read_at : ℕ
  pub after_read : Reconnecting
  pub keepalive_at : ℕ
  pub keepalive_written : Result (Unit {0})
  pub after_keepalive : Reconnecting
  pub checked_at : ℕ
  pub after_silence : Reconnecting

-- Where an iteration stands: going on, at its end by `continue`, returned, or in a `reconnect` whose
-- attempts have all failed so far.
pub data Flow : Type 0 where
  on : Receiver → PoolConnection → Flow
  continued : Receiver → PoolConnection → Flow
  stopped : PoolConnection → Flow
  waiting : PoolConnection → Flow

infixl 5 ◌>>=◌
abbrev pub ◌>>=◌ : Flow → (Receiver → PoolConnection → Flow) → Flow
on r c >>= k = k r c
continued r c >>= k = continued r c
stopped c >>= k = stopped c
waiting c >>= k = waiting c

-- The state before the first iteration.
unfoldable pub start_receiver : ℕ → Bool → PoolConnection → Option (Receiver × PoolConnection)
unfolding set_read_timeout
start_receiver now timeout_set c =
    if c.connected
    then some (
      record {
        pending = [];
        last_keepalive = now;
        last_recv = now;
        donation_start = now;
        active = user;
        last_want = user;
      },
      set_read_timeout timeout_set recv_poll_interval c,
    )
    else none

module _ (json : Json) (is_utf8 : Bytes → Bool) (clean : Bytes → Bytes)
    (author_address xmrig_address : Bytes) where
  -- What follows a `reconnect`: the silence clock and the buffer begin anew, or the loop returns.
  unfoldable pub after_reconnect : ℕ → Receiver → Option Bool × PoolConnection → Flow
  after_reconnect back_at r (none, c) = waiting c
  after_reconnect back_at r (some true, c) = on (record r { last_recv = back_at; pending = [] }) c
  after_reconnect back_at r (some false, c) = stopped c

  unfoldable pub come_back : Reconnecting → Receiver → PoolConnection → Flow
  unfolding reconnect after_reconnect
  come_back back r c = after_reconnect back.back_at r (reconnect json is_utf8 back.attempts c)

  unfoldable pub after_relogin : ℕ → Receiver → Result (Unit {0}) × PoolConnection → Flow
  after_relogin relogin_at r (ok _, c) =
      continued (record r { last_recv = relogin_at; pending = [] }) c
  after_relogin relogin_at r (err e, c) = on r c

  -- A rotation that goes ahead: the new wallet, and one login.
  unfoldable pub switch_to : Beneficiary → Poll → Receiver → PoolConnection → Flow
  unfolding relogin_as beneficiary_address after_relogin
  switch_to want p r c =
      let address = beneficiary_address author_address xmrig_address want c in
      after_relogin p.relogin_at (record r { active = want })
        (relogin_as json is_utf8 p.relogin address (record c { wallet = address }))

  -- Whether the gate lets the rotation through.
  unfoldable pub after_gate : Beneficiary → Poll → Receiver → Bool × PoolConnection → Flow
  unfolding switch_to
  after_gate want p r (true, c) = switch_to want p r c
  after_gate want p r (false, c) = on r c

  -- The gate is asked only for another beneficiary than the one being mined for.
  unfoldable pub follow : Beneficiary → Poll → Receiver → PoolConnection → Flow
  unfolding rotation_settled after_gate
  follow want p r c =
      if same want r.active
      then on r c
      else after_gate want p r (rotation_settled want p.began_at c)

  unfoldable pub rotate : Poll → Receiver → PoolConnection → Flow
  unfolding note_donation_target follow
  rotate p r c =
      let want = beneficiary_at c.donation ((p.began_at - r.donation_start) / 1000) in
      let (noted, last_want) = note_donation_target want r.last_want c in
      follow want p (record r { last_want = last_want }) noted

  abbrev pub handle_lines : List Bytes → PoolConnection → PoolConnection
  handle_lines [] c = c
  handle_lines (line ∷ later) c = handle_lines later (handle_pool_message json line c)

  -- Bytes of the pool: whole lines are handled, and a line without an end drops the connection.
  unfoldable pub receive : Bytes → Poll → Receiver → PoolConnection → Flow
  unfolding take_complete_lines handle_pool_message come_back
  receive chunk p r c =
      let (taken, left) = take_complete_lines clean (r.pending ++ chunk) in
      let heard = record r { last_recv = p.read_at; pending = left } in
      elim taken [
        | lines found ↦ on heard (handle_lines found c)
        | overflow n ↦ come_back p.after_read (record heard { pending = [] }) c
      ]

  -- Without a stream the read fails.
  unfoldable pub read_stream : Poll → Receiver → PoolConnection → Flow
  unfolding receive come_back
  read_stream p r c = elim c.stream [
    | none ↦ come_back p.after_read r c
    | some stream ↦ elim p.read [
      | would_block ↦ on r c
      | read_error ↦ come_back p.after_read r c
      | received [] ↦ come_back p.after_read r c
      | received (b ∷ bytes) ↦ receive (b ∷ bytes) p r c
    ]
  ]

  -- `send_message`: the outcome of the write, if there is a stream.
  unfoldable pub send_message :
      Result (Unit {0}) → PoolConnection → Result (Unit {0}) × PoolConnection
  unfolding next_request_id
  send_message written c = elim c.stream [
    | none ↦ (err not_connected, c)
    | some stream ↦ (written, (next_request_id c).1)
  ]

  abbrev pub finish_iteration : Flow → Flow
  finish_iteration (on r c) = continued r c
  finish_iteration (continued r c) = continued r c
  finish_iteration (stopped c) = stopped c
  finish_iteration (waiting c) = waiting c

  -- A keepalive that cannot be written is a connection that is lost.
  unfoldable pub keep_or_reconnect : Poll → Receiver → Result (Unit {0}) × PoolConnection → Flow
  unfolding come_back
  keep_or_reconnect p r (ok _, c) = on r c
  keep_or_reconnect p r (err e, c) = finish_iteration (come_back p.after_keepalive r c)

  unfoldable pub keep_alive : Poll → Receiver → PoolConnection → Flow
  unfolding send_message keep_or_reconnect
  keep_alive p r c =
      if leb keepalive_interval (p.keepalive_at - r.last_keepalive)
      then keep_or_reconnect p (record r { last_keepalive = p.keepalive_at })
          (send_message p.keepalive_written c)
      else on r c

  -- The pool has said nothing for too long.
  unfoldable pub check_silence : Poll → Receiver → PoolConnection → Flow
  unfolding come_back
  check_silence p r c =
      if leb c.silence_timeout_ms (p.checked_at - r.last_recv)
      then come_back p.after_silence r c
      else on r c

  unfoldable pub iteration : Poll → Receiver → PoolConnection → Flow
  unfolding rotate read_stream keep_alive check_silence
  iteration p r c = rotate p r c >>= read_stream p >>= keep_alive p >>= check_silence p
