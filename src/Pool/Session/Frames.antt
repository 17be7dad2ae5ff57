-- ===== src/Pool/Session/Frames.antt =====
-- What connecting and logging in leave alone, and what they set up.
use miner_tim.Common.{
  ℕ, ◌+◌, ◌≡◌, refl, ◌∙◌, ap, arith, Option, none, some, Bool, true, false, Bytes, u64, is_some,
  is_empty,
}
use miner_tim.Pool.State.{
  LoginParams, PoolConnection, PoolStream, plain, tls, Result, ok, err, recv_poll_interval,
}
use miner_tim.Pool.Json.{Json}
use miner_tim.Pool.Session.{
  Attempt, install_stream, connect, set_read_timeout, remember_wallet, login_params, send_request,
  read_login, after_request, login, after_login, after_connect, connect_and_login,
}

-- The read timeout of a stream.
abbrev pub timeout_of : PoolStream → ℕ
timeout_of (plain ms) = ms
timeout_of (tls ms) = ms

-- A stream with that read timeout is installed.
abbrev pub HasTimeout : ℕ → Option PoolStream → Type 0
HasTimeout ms none = ⊥
HasTimeout ms (some stream) = timeout_of stream ≡ ms

abbrev pub is_tls : PoolStream → Bool
is_tls (plain ms) = false
is_tls (tls ms) = true

-- What logging in leaves alone.
pub record Frame (c c' : PoolConnection) : Type 0 where
  pub same_pending : c'.pending_shares ≡ c.pending_shares
  pub same_lost : c'.lost_shares ≡ c.lost_shares
  pub same_generation : c'.generation ≡ c.generation
  pub same_user : c'.user_wallet ≡ c.user_wallet
  pub same_stream : is_some c'.stream ≡ is_some c.stream

send_request-Frame :
    (json : Json) (is_utf8 : Bytes → Bool) (a : Attempt) (params : LoginParams) (c : PoolConnection)
    → Frame c (send_request json is_utf8 a params c).1
unfolding send_request
send_request-Frame json is_utf8 a params c = ground arith

read_login-Frame :
    (json : Json) (is_utf8 : Bytes → Bool) (v : json.Value) (c : PoolConnection)
    → Frame c (read_login json is_utf8 v c).1
unfolding read_login
read_login-Frame json is_utf8 v c = ground arith

Frame-trans : {a b c : PoolConnection} → Frame a b → Frame b c → Frame a c
Frame-trans p q = record {
  same_pending = q.same_pending ∙ p.same_pending;
  same_lost = q.same_lost ∙ p.same_lost;
  same_generation = q.same_generation ∙ p.same_generation;
  same_user = q.same_user ∙ p.same_user;
  same_stream = q.same_stream ∙ p.same_stream;
}

set_read_timeout-Frame :
    (works : Bool) (ms : ℕ) (c : PoolConnection) → Frame c (set_read_timeout works ms c)
unfolding set_read_timeout
set_read_timeout-Frame works ms c = ground arith

Frame-refl : (c : PoolConnection) → Frame c c
Frame-refl c = record {
  same_pending = refl;
  same_lost = refl;
  same_generation = refl;
  same_user = refl;
  same_stream = refl;
}

remember_wallet-Frame :
    (wallet : Bytes) (c : PoolConnection)
    → is_empty c.user_wallet ≡ false
    → Frame c (remember_wallet wallet c)
unfolding remember_wallet
remember_wallet-Frame wallet c known = ground arith

-- The timeout that is set is the stream's, if it could be set.
set_read_timeout-timeout :
    (ms : ℕ) (c : PoolConnection)
    → is_some c.stream ≡ true
    → HasTimeout ms (set_read_timeout true ms c).stream
unfolding set_read_timeout
set_read_timeout-timeout ms c h = case c.stream h
  where
    case :
        (o : Option PoolStream)
        → is_some o ≡ true
        → HasTimeout ms (set_read_timeout true ms (record c { stream = o })).stream
    case none e = cc
    case (some (plain old)) e = unfold set_read_timeout in refl
    case (some (tls old)) e = unfold set_read_timeout in refl

after_request-Frame :
    (json : Json) (is_utf8 : Bytes → Bool) (r : Result json.Value × PoolConnection)
    → Frame r.1 (after_request json is_utf8 r).1
after_request-Frame json is_utf8 r = case r.0 r.1
  where
    case :
        (m : Result json.Value) (c : PoolConnection) → Frame c (after_request json is_utf8 (m, c)).1
    case (err e) c = unfold after_request in Frame-refl c
    case (ok v) c = unfold after_request in read_login-Frame json is_utf8 v c

-- With the user's wallet known, a login changes nothing of the frame.
login-Frame :
    (json : Json) (is_utf8 : Bytes → Bool) (a : Attempt) (wallet : Bytes) (c : PoolConnection)
    → is_empty c.user_wallet ≡ false
    → Frame c (login json is_utf8 a wallet c).1
unfolding login
login-Frame json is_utf8 a wallet c known = Frame-trans (remember_wallet-Frame wallet c known) (
    Frame-trans (send_request-Frame json is_utf8 a (login_params wallet) (remember_wallet wallet c))
      (after_request-Frame json is_utf8
        (send_request json is_utf8 a (login_params wallet) (remember_wallet wallet c))))

-- After a relogin: an error leaves no stream; otherwise one is installed that is polled every 50 milliseconds, and the
-- generation has gone up by one.
abbrev pub IsReady : ℕ → Result (Unit {0}) × PoolConnection → Type 0
IsReady generation (err e, c) = c.stream ≡ none
IsReady generation (ok u, c) =
    HasTimeout recv_poll_interval c.stream × (c.generation ≡ u64 (generation + 1))

after_connect-IsReady :
    (json : Json) (is_utf8 : Bytes → Bool) (a : Attempt) (wallet : Bytes) (generation : ℕ)
    (r : Result (Unit {0})) (c : PoolConnection)
    → a.poll_timeout_set ≡ true
    → (r ≡ ok tt → (is_some c.stream ≡ true) × (c.generation ≡ u64 (generation + 1)))
    → is_empty c.user_wallet ≡ false
    → IsReady generation (after_connect json is_utf8 a wallet (r, c))
unfolding after_connect
after_connect-IsReady json is_utf8 a wallet generation (err e) c works up known = refl
after_connect-IsReady json is_utf8 a wallet generation (ok u) c works up known =
    case (login json is_utf8 a wallet c).0 (login json is_utf8 a wallet c).1
      (login-Frame json is_utf8 a wallet c known)
  where
    case :
        (m : Result (Unit {0})) (c' : PoolConnection)
        → Frame c c'
        → IsReady generation (after_login json is_utf8 a.poll_timeout_set (m, c'))
    case (err e) c' f = unfold after_login in refl
    case (ok u) c' f =
        unfold after_login in
        (
          rw works (set_read_timeout-timeout recv_poll_interval c' (f.same_stream ∙ (up refl).0)),
          (set_read_timeout-Frame a.poll_timeout_set recv_poll_interval c').same_generation
              ∙ f.same_generation
              ∙ (up refl).1,
        )

connect-effect :
    (a : Attempt) (address : Bytes) (c : PoolConnection)
    → ((connect a address c).0 ≡ ok tt
        → (is_some (connect a address c).1.stream ≡ true)
          × ((connect a address c).1.generation ≡ u64 (c.generation + 1)))
      × ((connect a address c).1.user_wallet ≡ c.user_wallet)
      × ((connect a address c).1.pending_shares ≡ c.pending_shares)
      × ((connect a address c).1.lost_shares ≡ c.lost_shares)
unfolding connect install_stream
connect-effect a address c = (λ h. ground arith, ground arith, ground arith, ground arith)

pub connect_and_login-IsReady :
    (json : Json) (is_utf8 : Bytes → Bool) (a : Attempt) (address wallet : Bytes)
    (c : PoolConnection)
    → a.poll_timeout_set ≡ true
    → is_empty c.user_wallet ≡ false
    → IsReady c.generation (connect_and_login json is_utf8 a address wallet c)
unfolding connect_and_login
connect_and_login-IsReady json is_utf8 a address wallet c works known =
    let effect = connect-effect a address c in
    after_connect-IsReady json is_utf8 a wallet c.generation (connect a address c).0
      (connect a address c).1 works effect.0 (ap is_empty effect.1 ∙ known)

-- The three fields that neither a connect nor a login touches once the user's wallet is known.
pub record Settled (c c' : PoolConnection) : Type 0 where
  pub kept_pending : c'.pending_shares ≡ c.pending_shares
  pub kept_lost : c'.lost_shares ≡ c.lost_shares
  pub kept_user : c'.user_wallet ≡ c.user_wallet

after_connect-Settled :
    (json : Json) (is_utf8 : Bytes → Bool) (a : Attempt) (wallet : Bytes) (r : Result (Unit {0}))
    (c : PoolConnection)
    → is_empty c.user_wallet ≡ false
    → Settled c (after_connect json is_utf8 a wallet (r, c)).1
unfolding after_connect
after_connect-Settled json is_utf8 a wallet (err e) c known = record {
  kept_pending = refl;
  kept_lost = refl;
  kept_user = refl;
}
after_connect-Settled json is_utf8 a wallet (ok u) c known =
    case (login json is_utf8 a wallet c).0 (login json is_utf8 a wallet c).1
      (login-Frame json is_utf8 a wallet c known)
  where
    case :
        (m : Result (Unit {0})) (c' : PoolConnection)
        → Frame c c'
        → Settled c (after_login json is_utf8 a.poll_timeout_set (m, c')).1
    case (err e) c' f =
        unfold after_login in
        record { kept_pending = f.same_pending; kept_lost = f.same_lost; kept_user = f.same_user }
    case (ok u) c' f =
        let g = Frame-trans f (set_read_timeout-Frame a.poll_timeout_set recv_poll_interval c') in
        unfold after_login in
        record { kept_pending = g.same_pending; kept_lost = g.same_lost; kept_user = g.same_user }

pub connect_and_login-Settled :
    (json : Json) (is_utf8 : Bytes → Bool) (a : Attempt) (address wallet : Bytes)
    (c : PoolConnection)
    → is_empty c.user_wallet ≡ false
    → Settled c (connect_and_login json is_utf8 a address wallet c).1
unfolding connect_and_login
connect_and_login-Settled json is_utf8 a address wallet c known =
    let (up, same_user, same_pending, same_lost) = connect-effect a address c in
    let s =
      after_connect-Settled json is_utf8 a wallet (connect a address c).0 (connect a address c).1
        (ap is_empty same_user ∙ known) in
    record {
      kept_pending = s.kept_pending ∙ same_pending;
      kept_lost = s.kept_lost ∙ same_lost;
      kept_user = s.kept_user ∙ same_user;
    }
