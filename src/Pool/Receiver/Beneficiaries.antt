-- ===== src/Pool/Receiver/Beneficiaries.antt =====
-- The wallet that is logged in is the one of the beneficiary being mined for.
use miner_tim.Common.{
  ℕ, ◌-◌, ◌/◌, ◌≡◌, refl, subst, List, [], ◌∷◌, ◌++◌, Option, none, some, Bool, true, false, Bytes,
  inl, inr, Bool-cases, Option-cases, leb, arith,
}
use miner_tim.Donate.{Beneficiary, user, author, xmrig, beneficiary_at}
use miner_tim.Donate.Schedule.{same}
use miner_tim.Pool.State.{PoolConnection, Result, ok, err, next_request_id, keepalive_interval}
use miner_tim.Pool.Json.{Json}
use miner_tim.Pool.Framing.{Taken, lines, overflow, take_complete_lines}
use miner_tim.Pool.Rotation.{note_donation_target, rotation_settled}
use miner_tim.Pool.Session.{beneficiary_address, relogin_as, reconnect}
use miner_tim.Pool.Receiver.{
  Receiver, Poll, Reconnecting, ReadResult, would_block, read_error, received, Flow, on, continued,
  stopped, waiting, after_reconnect, come_back, after_relogin, switch_to, after_gate, follow,
  rotate, handle_lines, receive, read_stream, send_message, keep_or_reconnect, keep_alive,
  check_silence, iteration, finish_iteration,
}
use miner_tim.Pool.Receiver.Silence.{Ahead, bind-Ahead}
use miner_tim.Pool.Receiver.Wallets.{
  SameLogin, Logs, Logs-same, note-SameLogin, rotation_settled-SameLogin, relogin_as-Logs,
  reconnect-Logs, handle_pool_message-SameLogin,
}

-- The address of a beneficiary, by the user's own wallet.
abbrev pub address_of : Bytes → Bytes → Bytes → Beneficiary → Bytes
address_of author_address xmrig_address u user = u
address_of author_address xmrig_address u author = author_address
address_of author_address xmrig_address u xmrig = xmrig_address

module _ (json : Json) (is_utf8 : Bytes → Bool) (clean : Bytes → Bytes)
    (author_address xmrig_address u : Bytes) where
  -- The wallet is that of the beneficiary that the loop takes for active, the user's own is `u`, and
  -- where there is a stream, the last login request written to it is for that wallet.
  unfoldable pub MinesFor : Receiver → PoolConnection → Type 0
  MinesFor r c = Logs (address_of author_address xmrig_address u r.active) u c

  after_reconnect-MinesFor :
      (at : ℕ) (r : Receiver) (m : Option Bool × PoolConnection)
      → MinesFor r (m.1)
      → Ahead MinesFor MinesFor
          (after_reconnect json is_utf8 clean author_address xmrig_address at r m)
  unfolding MinesFor after_reconnect
  after_reconnect-MinesFor at r (none, c) h = tt
  after_reconnect-MinesFor at r (some true, c) h = h
  after_reconnect-MinesFor at r (some false, c) h = tt

  come_back-MinesFor :
      (back : Reconnecting) (r : Receiver) (c : PoolConnection)
      → MinesFor r c
      → Ahead MinesFor MinesFor (come_back json is_utf8 clean author_address xmrig_address back r c)
  unfolding MinesFor come_back
  come_back-MinesFor back r c h =
      after_reconnect-MinesFor back.back_at r (reconnect json is_utf8 back.attempts c)
        (reconnect-Logs json is_utf8 back.attempts _ u c h.owns)

  after_relogin-MinesFor :
      (at : ℕ) (r : Receiver) (m : Result (Unit {0}) × PoolConnection)
      → MinesFor r (m.1)
      → Ahead MinesFor MinesFor
          (after_relogin json is_utf8 clean author_address xmrig_address at r m)
  unfolding MinesFor after_relogin
  after_relogin-MinesFor at r (ok v, c) h = h
  after_relogin-MinesFor at r (err e, c) h = h

  beneficiary_address-is :
      (want : Beneficiary) (c : PoolConnection)
      → c.user_wallet ≡ u
      → beneficiary_address author_address xmrig_address want c
        ≡ address_of author_address xmrig_address u want
  unfolding beneficiary_address
  beneficiary_address-is user c h = h
  beneficiary_address-is author c h = refl
  beneficiary_address-is xmrig c h = refl

  switch_to-MinesFor :
      (want : Beneficiary) (p : Poll) (r : Receiver) (c : PoolConnection)
      → MinesFor r c
      → Ahead MinesFor MinesFor
          (switch_to json is_utf8 clean author_address xmrig_address want p r c)
  unfolding MinesFor switch_to
  switch_to-MinesFor want p r c h =
      let address = beneficiary_address author_address xmrig_address want c in
      let is : address ≡ address_of author_address xmrig_address u want =
        beneficiary_address-is want c h.owns.user_is in
      let relogged =
        relogin_as-Logs json is_utf8 p.relogin address u (record c { wallet = address })
          (record {
            wallet_is = refl;
            user_is = h.owns.user_is;
            known = h.owns.known;
            addressed = h.owns.addressed;
          }) in
      after_relogin-MinesFor p.relogin_at (record r { active = want }) _
        (subst
          (λ w.
            Logs w u (relogin_as json is_utf8 p.relogin address (record c { wallet = address })).1)
          is relogged)

  after_gate-MinesFor :
      (want : Beneficiary) (p : Poll) (r : Receiver) (m : Bool × PoolConnection)
      → MinesFor r (m.1)
      → Ahead MinesFor MinesFor
          (after_gate json is_utf8 clean author_address xmrig_address want p r m)
  unfolding after_gate
  after_gate-MinesFor want p r (true, c) h = switch_to-MinesFor want p r c h
  after_gate-MinesFor want p r (false, c) h = h

  rotate-MinesFor :
      (p : Poll) (r : Receiver) (c : PoolConnection)
      → MinesFor r c
      → Ahead MinesFor MinesFor (rotate json is_utf8 clean author_address xmrig_address p r c)
  unfolding MinesFor rotate follow
  rotate-MinesFor p r c h =
      let want = beneficiary_at c.donation ((p.began_at - r.donation_start) / 1000) in
      let noted = note_donation_target want r.last_want c in
      let gated = rotation_settled want p.began_at (noted.0) in
      let logs = Logs-same (note-SameLogin want r.last_want c) h in
      elim (Bool-cases (same want r.active)) [
        | inl e ↦ rw (e) logs
        | inr e ↦ rw (e) (
            after_gate-MinesFor want p (record r { last_want = noted.1 }) gated
              (Logs-same (rotation_settled-SameLogin want p.began_at (noted.0)) logs))
      ]

  handle_lines-Logs :
      (w : Bytes) (found : List Bytes) (c : PoolConnection)
      → Logs w u c
      → Logs w u (handle_lines json is_utf8 clean author_address xmrig_address found c)
  handle_lines-Logs w [] c h = h
  handle_lines-Logs w (line ∷ later) c h =
      handle_lines-Logs w later _ (Logs-same (handle_pool_message-SameLogin json is_utf8 line c) h)

  receive-MinesFor :
      (chunk : Bytes) (p : Poll) (r : Receiver) (c : PoolConnection)
      → MinesFor r c
      → Ahead MinesFor MinesFor
          (receive json is_utf8 clean author_address xmrig_address chunk p r c)
  unfolding MinesFor receive
  receive-MinesFor chunk p r c h = by_taken (take_complete_lines clean (r.pending ++ chunk))
    where
      by_taken :
          (m : Taken × Bytes)
          → Ahead MinesFor MinesFor (elim m.0 as (λ t. Flow) [
            | lines found ↦
                on
                  (record r { last_recv = p.read_at; pending = m.1 })
                  (handle_lines json is_utf8 clean author_address xmrig_address found c)
            | overflow n ↦
                come_back json is_utf8 clean author_address xmrig_address p.after_read
                  (record r { last_recv = p.read_at; pending = [] })
                  c
          ])
      by_taken (lines found, left) =
          handle_lines-Logs (address_of author_address xmrig_address u r.active) found c h
      by_taken (overflow n, left) =
          come_back-MinesFor p.after_read (record r { last_recv = p.read_at; pending = [] }) c h

  read_stream-MinesFor :
      (p : Poll) (r : Receiver) (c : PoolConnection)
      → MinesFor r c
      → Ahead MinesFor MinesFor (read_stream json is_utf8 clean author_address xmrig_address p r c)
  unfolding read_stream
  read_stream-MinesFor p r c h = elim (Option-cases c.stream) [
    | inl e ↦ rw (e, read_stream) (come_back-MinesFor p.after_read r c h)
    | inr (stream, e) ↦ rw (e, read_stream) (by_read p.read)
  ]
    where
      by_read :
          (read : ReadResult)
          → Ahead MinesFor MinesFor (elim read as (λ x. Flow) [
            | would_block ↦ on r c
            | read_error ↦
                come_back json is_utf8 clean author_address xmrig_address p.after_read r c
            | received [] ↦
                come_back json is_utf8 clean author_address xmrig_address p.after_read r c
            | received (b ∷ bytes) ↦
                receive json is_utf8 clean author_address xmrig_address (b ∷ bytes) p r c
          ])
      by_read would_block = h
      by_read read_error = come_back-MinesFor p.after_read r c h
      by_read (received []) = come_back-MinesFor p.after_read r c h
      by_read (received (b ∷ bytes)) = receive-MinesFor (b ∷ bytes) p r c h

  finish_iteration-MinesFor :
      (m : Flow)
      → Ahead MinesFor MinesFor m
      → Ahead MinesFor MinesFor (finish_iteration json is_utf8 clean author_address xmrig_address m)
  finish_iteration-MinesFor (on r c) h = h
  finish_iteration-MinesFor (continued r c) h = h
  finish_iteration-MinesFor (stopped c) h = h
  finish_iteration-MinesFor (waiting c) h = h

  keep_or_reconnect-MinesFor :
      (p : Poll) (r : Receiver) (m : Result (Unit {0}) × PoolConnection)
      → MinesFor r (m.1)
      → Ahead MinesFor MinesFor
          (keep_or_reconnect json is_utf8 clean author_address xmrig_address p r m)
  unfolding keep_or_reconnect
  keep_or_reconnect-MinesFor p r (ok v, c) h = h
  keep_or_reconnect-MinesFor p r (err e, c) h =
      finish_iteration-MinesFor _ (come_back-MinesFor p.after_keepalive r c h)

  send_message-SameLogin :
      (written : Result (Unit {0})) (c : PoolConnection)
      → SameLogin c (send_message json is_utf8 clean author_address xmrig_address written c).1
  unfolding send_message next_request_id
  send_message-SameLogin written c = ground arith

  keep_alive-MinesFor :
      (p : Poll) (r : Receiver) (c : PoolConnection)
      → MinesFor r c
      → Ahead MinesFor MinesFor (keep_alive json is_utf8 clean author_address xmrig_address p r c)
  unfolding MinesFor keep_alive
  keep_alive-MinesFor p r c h =
      elim (Bool-cases (leb keepalive_interval (p.keepalive_at - r.last_keepalive))) [
        | inl e ↦ rw (e) (
            keep_or_reconnect-MinesFor p (record r { last_keepalive = p.keepalive_at })
              (send_message json is_utf8 clean author_address xmrig_address p.keepalive_written c)
              (Logs-same (send_message-SameLogin p.keepalive_written c) h))
        | inr e ↦ rw (e) h
      ]

  check_silence-MinesFor :
      (p : Poll) (r : Receiver) (c : PoolConnection)
      → MinesFor r c
      → Ahead MinesFor MinesFor
          (check_silence json is_utf8 clean author_address xmrig_address p r c)
  unfolding check_silence
  check_silence-MinesFor p r c h =
      elim (Bool-cases (leb c.silence_timeout_ms (p.checked_at - r.last_recv))) [
        | inl e ↦ rw (e) (come_back-MinesFor p.after_silence r c h)
        | inr e ↦ rw (e) h
      ]

  -- Let the connection have an address and the user's own wallet, and let the wallet be that of the
  -- beneficiary which the loop takes for active, with a login request for it the last one written to
  -- the stream, if there is a stream. Whatever the clock, the socket and the pool do in an iteration,
  -- a loop that goes on has all of this again, for the beneficiary it then takes for active, and the
  -- same wallet of the user.
  pub iteration-MinesFor :
      (p : Poll) (r : Receiver) (c : PoolConnection)
      → MinesFor r c
      → Ahead MinesFor MinesFor (iteration json is_utf8 clean author_address xmrig_address p r c)
  unfolding iteration
  iteration-MinesFor p r c h =
      bind-Ahead MinesFor MinesFor MinesFor _ _
        (bind-Ahead MinesFor MinesFor MinesFor _ _
          (bind-Ahead MinesFor MinesFor MinesFor _ _ (rotate-MinesFor p r c h)
            (read_stream-MinesFor p))
          (keep_alive-MinesFor p))
        (check_silence-MinesFor p)
