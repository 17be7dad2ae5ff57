-- ===== src/Pool/Session/Laws.antt =====
-- What a connection is after logging in again or reconnecting.
use miner_tim.Common.{
  ℕ, ◌+◌, ◌*◌, ◌^◌, ◌<◌, ◌≤◌, ◌≡◌, ◌≢◌, refl, sym, subst, ◌∙◌, ◌||◌, Option, inl, inr, arith, u32,
  length, List, [], ◌∷◌, none, some, Bool, true, false, Bytes, is_some, is_empty, Bool-cases,
}
use miner_tim.Pool.State.{
  PoolConnection, PendingShare, PoolStream, tls, Result, ok, err, count_lost, drain_pending_shares,
  pinned_plaintext,
}
use miner_tim.Pool.Json.{Json}
use miner_tim.Pool.Jobs.{is_tls_port}
use miner_tim.Pool.Submit.{Share, write_and_register}
use miner_tim.Pool.Session.{
  Attempt, open_stream, connect, connect_and_login, after_connect, relogin_as, retry, reconnect,
  clear_stream,
}
use miner_tim.Pool.Session.Frames.{
  IsReady, Settled, connect_and_login-IsReady, connect_and_login-Settled,
}

abbrev pub is_ok {ℓ} : {A : Type ℓ} → Result A → Bool
is_ok (ok a) = true
is_ok (err e) = false

open_stream_pinned :
    (a : Attempt) (address : Bytes) {stream : PoolStream}
    → open_stream a true address ≡ ok stream
    → (is_tls_port address ≡ true) × (stream ≡ tls (30 * 1000))
unfolding open_stream
open_stream_pinned a address {stream} h = elim (Bool-cases (is_tls_port address)) [
  | inl e ↦ (e, ground arith)
  | inr e ↦ ground arith
]

-- With a certificate pinned, a connect succeeds only to a port that is treated as TLS, and installs a TLS stream.
pub connect_pinned :
    (a : Attempt) (address : Bytes) (c : PoolConnection)
    → is_some c.pinned_fingerprint ≡ true
    → (connect a address c).0 ≡ ok tt
    → (is_tls_port address ≡ true) × ((connect a address c).1.stream ≡ some (tls (30 * 1000)))
unfolding connect
connect_pinned a address c pin h = ground (arith, open_stream_pinned a address)

connect_refused :
    (a : Attempt) (address : Bytes) (c : PoolConnection)
    → is_some c.pinned_fingerprint ≡ true
    → is_tls_port address ≡ false
    → connect a address c ≡ (err pinned_plaintext, c)
unfolding connect open_stream
connect_refused a address c pin port = ground arith

refused_attempt :
    (json : Json) (is_utf8 : Bytes → Bool) (a : Attempt) (address wallet : Bytes)
    (c : PoolConnection)
    → is_some c.pinned_fingerprint ≡ true
    → is_tls_port address ≡ false
    → connect_and_login json is_utf8 a address wallet c
      ≡ (err pinned_plaintext, record c { stream = none })
unfolding connect_and_login after_connect
refused_attempt json is_utf8 a address wallet c pin port =
    rw (connect_refused a address c pin port) refl

-- No connection: not come back, no stream and no job, and the generation is `generation`.
abbrev pub IsDown : ℕ → Option Bool × PoolConnection → Type 0
IsDown generation (returned, c) =
    (returned ≢ some true)
    × (c.stream ≡ none)
    × (c.current_job ≡ none)
    × (c.generation ≡ generation)

retry-IsDown :
    (json : Json) (is_utf8 : Bytes → Bool) (attempts : List Attempt) (address wallet : Bytes)
    (c : PoolConnection)
    → is_some c.pinned_fingerprint ≡ true
    → is_tls_port address ≡ false
    → c.stream ≡ none
    → c.current_job ≡ none
    → IsDown c.generation (retry json is_utf8 attempts address wallet c)
unfolding retry
retry-IsDown json is_utf8 [] address wallet c pin port gone idle = (λ e. cc, gone, idle, refl)
retry-IsDown json is_utf8 (a ∷ later) address wallet c pin port gone idle =
    subst
      (λ (m : Result (Unit {0}) × PoolConnection).
        IsDown c.generation (elim m.0 as (λ x. Option Bool × PoolConnection) [
          | ok v ↦ (some true, m.1)
          | err e ↦ retry json is_utf8 later address wallet (m.1)
        ]))
      (sym (refused_attempt json is_utf8 a address wallet c pin port))
      (retry-IsDown json is_utf8 later address wallet (record c { stream = none }) pin port refl
        idle)

-- With a certificate pinned and the recorded port not treated as TLS, a reconnect never comes back,
-- however many attempts it makes and whatever the network and the pool answer: it has no stream and
-- no job, and the generation does not move.
pub reconnect_refused :
    (json : Json) (is_utf8 : Bytes → Bool) (attempts : List Attempt) (c : PoolConnection)
    → is_some c.pinned_fingerprint ≡ true
    → is_tls_port c.address ≡ false
    → IsDown c.generation (reconnect json is_utf8 attempts c)
unfolding reconnect clear_stream drain_pending_shares
reconnect_refused json is_utf8 attempts c pin port =
    elim (Bool-cases (is_empty c.address || is_empty c.wallet)) [
      | inl e ↦ rw (e) (λ k. cc, refl, refl, refl)
      | inr e ↦ rw (e) (
          retry-IsDown json is_utf8 attempts c.address c.wallet
            (drain_pending_shares (clear_stream c)) pin port refl refl)
    ]

-- The outstanding submissions are counted one by one, by a counter of 32 bits.
count_lost-length :
    (lost : ℕ) (entries : List (ℕ × PendingShare))
    → lost < 2 ^ 32
    → count_lost lost entries ≡ u32 (lost + length entries)
count_lost-length lost [] h = omega arith
count_lost-length lost (entry ∷ rest) h =
    omega (arith, count_lost-length (u32 (lost + 1)) rest (omega arith))

relogged_in :
    (json : Json) (is_utf8 : Bytes → Bool) (a : Attempt) (wallet : Bytes) (c : PoolConnection)
    → is_empty c.address ≡ false
    → is_empty c.user_wallet ≡ false
    → a.poll_timeout_set ≡ true
    → IsReady c.generation (relogin_as json is_utf8 a wallet c)
unfolding relogin_as drain_pending_shares
relogged_in json is_utf8 a wallet c recorded known works =
    rw (recorded, relogin_as)
      (connect_and_login-IsReady json is_utf8 a c.address wallet
        (drain_pending_shares (record c { current_job = none; stream = none })) works known)

-- With an address recorded, the user's wallet known, the poll timeout set and a 32-bit count of lost
-- shares, whatever else the network answers:
-- after a relogin that fails there is no stream; after one that succeeds there is a stream that is polled every 50
-- milliseconds and the generation has gone up by one; and in both cases no submission is outstanding, each one
-- that was is added to the count of lost shares, which wraps at 32 bits, and the user's own wallet is what it was.
pub relogin_as-IsReady :
    (json : Json) (is_utf8 : Bytes → Bool) (a : Attempt) (wallet : Bytes) (c : PoolConnection)
    → is_empty c.address ≡ false
    → is_empty c.user_wallet ≡ false
    → a.poll_timeout_set ≡ true
    → c.lost_shares < 2 ^ 32
    → IsReady c.generation (relogin_as json is_utf8 a wallet c)
      × ((relogin_as json is_utf8 a wallet c).1.pending_shares ≡ [])
      × ((relogin_as json is_utf8 a wallet c).1.lost_shares
          ≡ u32 (c.lost_shares + length c.pending_shares))
      × ((relogin_as json is_utf8 a wallet c).1.user_wallet ≡ c.user_wallet)
unfolding relogin_as drain_pending_shares
relogin_as-IsReady json is_utf8 a wallet c recorded known works within =
    rw (recorded, relogin_as)
      (
        connect_and_login-IsReady json is_utf8 a c.address wallet cleared works known,
        settled.kept_pending,
        settled.kept_lost ∙ count_lost-length c.lost_shares c.pending_shares within,
        settled.kept_user,
      )
  where
    cleared : PoolConnection
    cleared = drain_pending_shares (record c { current_job = none; stream = none })

    settled : Settled cleared (connect_and_login json is_utf8 a c.address wallet cleared).1
    settled = connect_and_login-Settled json is_utf8 a c.address wallet cleared known

-- With an address recorded, the user's wallet known and the poll timeout set, a share of the
-- generation before a relogin, or of any earlier one, is not written after it, and registers nothing:
-- it is refused, whether the relogin succeeds or fails and whatever the write would have returned, as
-- long as the generation does not wrap.
pub relogin_as-refuses_old :
    (json : Json) (is_utf8 : Bytes → Bool) (a : Attempt) (wallet : Bytes) (c : PoolConnection)
    (rpc_id now : ℕ) (share : Share) (written : Result (Unit {0}))
    → is_empty c.address ≡ false
    → is_empty c.user_wallet ≡ false
    → a.poll_timeout_set ≡ true
    → share.job_generation ≤ c.generation
    → c.generation + 1 < 2 ^ 64
    → let c' = (relogin_as json is_utf8 a wallet c).1 in
      (is_ok (write_and_register rpc_id share now written c').0 ≡ false)
      × ((write_and_register rpc_id share now written c').1 ≡ c')
relogin_as-refuses_old json is_utf8 a wallet c rpc_id now share written recorded known works old
      lt =
    refused (relogin_as json is_utf8 a wallet c).0 (relogin_as json is_utf8 a wallet c).1
      (relogged_in json is_utf8 a wallet c recorded known works)
  where
    refused :
        (r : Result (Unit {0})) (c' : PoolConnection)
        → IsReady c.generation (r, c')
        → (is_ok (write_and_register rpc_id share now written c').0 ≡ false)
          × ((write_and_register rpc_id share now written c').1 ≡ c')
    refused (err e) c' gone = unfold write_and_register in (ground arith, ground arith)
    refused (ok u) c' (timeout, generation) =
        unfold write_and_register in (ground arith, ground arith)
