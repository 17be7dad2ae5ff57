-- ===== src/Pool/Receiver/Wallets.antt =====
-- What the operations on a connection (src/pool_connection.rs) do to the wallet that logs in and to
-- the user's own.
use miner_tim.Common.{
  ℕ, ◌≡◌, refl, sym, ap, is_some, subst, ◌∙◌, List, [], ◌∷◌, Option, none, some, Bool, true, false,
  Bytes, is_empty, arith, ◌||◌, inl, inr, Bool-cases, Option-cases,
}
use miner_tim.Donate.{Beneficiary}
use miner_tim.Pool.State.{
  LoginParams, PoolConnection, Result, ok, err, drain_pending_shares, next_request_id,
}
use miner_tim.Pool.Json.{Json}
use miner_tim.Pool.Messages.{
  handle_pool_message, install_job, response_id, count_response, count_answer, answer, accept,
  reject,
}
use miner_tim.Pool.Rotation.{note_donation_target, rotation_settled}
use miner_tim.Pool.Session.{
  Attempt, connect, set_read_timeout, remember_wallet, login_params, send_request, read_login,
  after_request, start_session, login, after_login, after_connect, connect_and_login, relogin_as,
  reconnect, retry, clear_stream, install_stream,
}

-- What decides under which wallet the connection is logged in stays as it is.
pub record SameLogin (c c' : PoolConnection) : Type 0 where
  pub same_wallet : c'.wallet ≡ c.wallet
  pub same_user : c'.user_wallet ≡ c.user_wallet
  pub same_address : c'.address ≡ c.address
  pub same_stream : is_some c'.stream ≡ is_some c.stream
  pub same_sent : c'.sent ≡ c.sent

pub SameLogin-refl : (c : PoolConnection) → SameLogin c c
SameLogin-refl c = record {
  same_wallet = refl;
  same_user = refl;
  same_address = refl;
  same_stream = refl;
  same_sent = refl;
}

pub SameLogin-trans : {a b c : PoolConnection} → SameLogin a b → SameLogin b c → SameLogin a c
SameLogin-trans p q = record {
  same_wallet = q.same_wallet ∙ p.same_wallet;
  same_user = q.same_user ∙ p.same_user;
  same_address = q.same_address ∙ p.same_address;
  same_stream = q.same_stream ∙ p.same_stream;
  same_sent = q.same_sent ∙ p.same_sent;
}

-- The login request written last is one for the wallet `w`.
abbrev pub LoggedIn : Bytes → List (ℕ × LoginParams) → Type 0
LoggedIn w [] = ⊥
LoggedIn w ((id, params) ∷ earlier) = params.login ≡ w

-- The wallet is `w`, the user's own is `u`, which is known, and so is the address.
pub record Owns (w u : Bytes) (c : PoolConnection) : Type 0 where
  pub wallet_is : c.wallet ≡ w
  pub user_is : c.user_wallet ≡ u
  pub known : is_empty u ≡ false
  pub addressed : is_empty c.address ≡ false

-- A stream that is there has been sent the login for that wallet, and none after it.
pub record Logs (w u : Bytes) (c : PoolConnection) : Type 0 where
  pub owns : Owns w u c
  pub logged_in : is_some c.stream ≡ true → LoggedIn w c.sent

Owns-same : {w u : Bytes} {c c' : PoolConnection} → SameLogin c c' → Owns w u c → Owns w u c'
Owns-same s l = record {
  wallet_is = s.same_wallet ∙ l.wallet_is;
  user_is = s.same_user ∙ l.user_is;
  known = l.known;
  addressed = ap is_empty s.same_address ∙ l.addressed;
}

pub Logs-same : {w u : Bytes} {c c' : PoolConnection} → SameLogin c c' → Logs w u c → Logs w u c'
Logs-same {w} s l = record {
  owns = Owns-same s l.owns;
  logged_in = λ up. subst (LoggedIn w) (sym s.same_sent) (l.logged_in (sym s.same_stream ∙ up));
}

without_stream :
    {w u : Bytes} {c : PoolConnection} → Owns w u c → Owns w u (record c { stream = none })
without_stream l = record {
  wallet_is = l.wallet_is;
  user_is = l.user_is;
  known = l.known;
  addressed = l.addressed;
}

-- Without a stream there is nothing to be logged in to.
Logs-none : {w u : Bytes} {c : PoolConnection} → Owns w u c → c.stream ≡ none → Logs w u c
Logs-none l gone = record { owns = l; logged_in = λ up. absurd (ground (arith, ap is_some gone)) }

pub note-SameLogin :
    (want last : Beneficiary) (c : PoolConnection)
    → SameLogin c (note_donation_target want last c).0
unfolding note_donation_target
note-SameLogin want last c = ground arith

pub rotation_settled-SameLogin :
    (want : Beneficiary) (now : ℕ) (c : PoolConnection)
    → SameLogin c (rotation_settled want now c).1
unfolding rotation_settled
rotation_settled-SameLogin want now c = ground arith

set_read_timeout-SameLogin :
    (works : Bool) (ms : ℕ) (c : PoolConnection) → SameLogin c (set_read_timeout works ms c)
unfolding set_read_timeout
set_read_timeout-SameLogin works ms c = ground arith

connect-Owns :
    (a : Attempt) (address w u : Bytes) (c : PoolConnection)
    → is_empty address ≡ false
    → Owns w u c
    → Owns w u (connect a address c).1
unfolding connect install_stream
connect-Owns a address w u c given l = record {
  wallet_is = ground (arith, l.wallet_is);
  user_is = ground (arith, l.user_is);
  known = l.known;
  addressed = ground (arith, l.addressed);
}

module _ (json : Json) (is_utf8 : Bytes → Bool) where
  -- What a step returns: where it succeeds, the login for `w` has been written last.
  abbrev IsSent : {A : Type 0} → Bytes → Result A × PoolConnection → Type 0
  IsSent w (err e, c) = Unit
  IsSent w (ok v, c) = LoggedIn w c.sent

  set_read_timeout-sent :
      (works : Bool) (ms : ℕ) (c : PoolConnection) → (set_read_timeout works ms c).sent ≡ c.sent
  unfolding set_read_timeout
  set_read_timeout-sent works ms c = ground arith

  send_request-IsSent :
      (a : Attempt) (params : LoginParams) (c : PoolConnection)
      → IsSent params.login (send_request json is_utf8 a params c)
  unfolding send_request next_request_id set_read_timeout
  send_request-IsSent a params c = ground arith

  send_request-Owns :
      (a : Attempt) (params : LoginParams) (w u : Bytes) (c : PoolConnection)
      → Owns w u c
      → Owns w u (send_request json is_utf8 a params c).1
  unfolding send_request next_request_id set_read_timeout
  send_request-Owns a params w u c l = record {
    wallet_is = ground (arith, l.wallet_is);
    user_is = ground (arith, l.user_is);
    known = l.known;
    addressed = ground (arith, l.addressed);
  }

  read_login-SameLogin :
      (v : json.Value) (c : PoolConnection) → SameLogin c (read_login json is_utf8 v c).1
  unfolding read_login start_session
  read_login-SameLogin v c = ground arith

  -- A login uses the wallet it is given, and a login that succeeds has sent it.
  after_request-Logs :
      (m : Result (json.Value) × PoolConnection) (w u : Bytes)
      → IsSent w m
      → Owns w u (m.1)
      → IsSent w (after_request json is_utf8 m) × Owns w u (after_request json is_utf8 m).1
  unfolding after_request
  after_request-Logs (err e, c) w u sent l = (tt, l)
  after_request-Logs (ok v, c) w u sent l =
      let same = read_login-SameLogin v c in
      (
        still_sent w (read_login json is_utf8 v c) (subst (LoggedIn w) (sym same.same_sent) sent),
        Owns-same same l,
      )
    where
      still_sent :
          (w : Bytes) (r : Result (Unit {0}) × PoolConnection) → LoggedIn w r.1.sent → IsSent w r
      still_sent w (err e, c) h = tt
      still_sent w (ok v, c) h = h

  login-Logs :
      (a : Attempt) (w u : Bytes) (c : PoolConnection)
      → Owns w u c
      → IsSent w (login json is_utf8 a w c) × Owns w u (login json is_utf8 a w c).1
  unfolding login remember_wallet login_params
  login-Logs a w u c l =
      after_request-Logs _ w u (send_request-IsSent a (login_params w) (remember_wallet w c))
        (send_request-Owns a (login_params w) w u (remember_wallet w c) remembered)
    where
      remembered : Owns w u (remember_wallet w c)
      remembered = record {
        wallet_is = refl;
        user_is = ground (arith, l.user_is, l.known);
        known = l.known;
        addressed = l.addressed;
      }

  after_login-Logs :
      (works : Bool) (m : Result (Unit {0}) × PoolConnection) (w u : Bytes)
      → IsSent w m × Owns w u (m.1)
      → Logs w u (after_login json is_utf8 works m).1
  unfolding after_login
  after_login-Logs works (err e, c) w u (sent, l) = Logs-none (without_stream l) refl
  after_login-Logs works (ok v, c) w u (sent, l) =
      Logs-same (set_read_timeout-SameLogin works _ c) (record { owns = l; logged_in = λ up. sent })

  after_connect-Logs :
      (a : Attempt) (m : Result (Unit {0}) × PoolConnection) (w u : Bytes)
      → Owns w u (m.1)
      → Logs w u (after_connect json is_utf8 a w m).1
  unfolding after_connect
  after_connect-Logs a (err e, c) w u l = Logs-none (without_stream l) refl
  after_connect-Logs a (ok v, c) w u l =
      after_login-Logs a.poll_timeout_set (login json is_utf8 a w c) w u (login-Logs a w u c l)

  connect_and_login-Logs :
      (a : Attempt) (address w u : Bytes) (c : PoolConnection)
      → is_empty address ≡ false
      → Owns w u c
      → Logs w u (connect_and_login json is_utf8 a address w c).1
  unfolding connect_and_login
  connect_and_login-Logs a address w u c given l =
      after_connect-Logs a (connect a address c) w u (connect-Owns a address w u c given l)

  pub relogin_as-Logs :
      (a : Attempt) (w u : Bytes) (c : PoolConnection)
      → Owns w u c
      → Logs w u (relogin_as json is_utf8 a w c).1
  unfolding relogin_as drain_pending_shares
  relogin_as-Logs a w u c l = rw (l.addressed) (
      connect_and_login-Logs a c.address w u
        (drain_pending_shares (record c { current_job = none; stream = none })) l.addressed
        (record {
          wallet_is = l.wallet_is;
          user_is = l.user_is;
          known = l.known;
          addressed = l.addressed;
        }))

  retry-Logs :
      (attempts : List Attempt) (address w u : Bytes) (c : PoolConnection)
      → is_empty address ≡ false
      → Logs w u c
      → Logs w u (retry json is_utf8 attempts address w c).1
  unfolding retry
  retry-Logs [] address w u c given l = l
  retry-Logs (a ∷ later) address w u c given l =
      by_result (connect_and_login json is_utf8 a address w c)
        (connect_and_login-Logs a address w u c given l.owns)
        (λ c' l'. retry-Logs later address w u c' given l')
    where
      by_result :
          (m : Result (Unit {0}) × PoolConnection)
          → Logs w u (m.1)
          → ((c' : PoolConnection)
              → Logs w u c'
              → Logs w u (retry json is_utf8 later address w c').1)
          → Logs w u
              (elim m.0 as (λ x. Option Bool × PoolConnection) [
                | ok v ↦ (some true, m.1)
                | err e ↦ retry json is_utf8 later address w (m.1)
              ]).1
      by_result (ok v, c') l' go = l'
      by_result (err e, c') l' go = go c' l'

  pub reconnect-Logs :
      (attempts : List Attempt) (w u : Bytes) (c : PoolConnection)
      → Owns w u c
      → Logs w u (reconnect json is_utf8 attempts c).1
  unfolding reconnect clear_stream drain_pending_shares
  reconnect-Logs attempts w u c l =
      let down = drain_pending_shares (clear_stream c) in
      let torn : Logs w u down =
        Logs-none
          (record {
            wallet_is = l.wallet_is;
            user_is = l.user_is;
            known = l.known;
            addressed = l.addressed;
          })
          refl in
      elim (Bool-cases (is_empty c.address || is_empty c.wallet)) [
        | inl e ↦ rw (e) torn
        | inr e ↦ rw (e) (
            subst (λ v. Logs w u (retry json is_utf8 attempts c.address v down).1) (sym l.wallet_is)
              (retry-Logs attempts c.address w u down l.addressed torn))
      ]

  install_job-SameLogin :
      (msg : json.Value) (c : PoolConnection) → SameLogin c (install_job json msg c)
  unfolding install_job
  install_job-SameLogin msg c = ground arith

  answer-SameLogin :
      (msg : json.Value) (rpc_id : ℕ) (c : PoolConnection) → SameLogin c (answer json msg rpc_id c)
  unfolding answer count_answer accept reject
  answer-SameLogin msg rpc_id c = ground arith

  count_response-SameLogin :
      (msg : json.Value) (c : PoolConnection) → SameLogin c (count_response json msg c)
  unfolding count_response
  count_response-SameLogin msg c = elim (Option-cases (response_id json msg)) [
    | inl e ↦ rw (e, count_response) (SameLogin-refl c)
    | inr (rpc_id, e) ↦ rw (e, count_response) (answer-SameLogin msg rpc_id c)
  ]

  pub handle_pool_message-SameLogin :
      (line : Bytes) (c : PoolConnection) → SameLogin c (handle_pool_message json line c)
  unfolding handle_pool_message
  handle_pool_message-SameLogin line c = elim (Option-cases (json.from_str line)) [
    | inl e ↦ rw (e, handle_pool_message) (SameLogin-refl c)
    | inr (msg, e) ↦
        rw (e, handle_pool_message)
          (SameLogin-trans (install_job-SameLogin msg c)
            (count_response-SameLogin msg (install_job json msg c)))
  ]
