-- ===== src/Pool/Receiver/Silence.antt =====
-- A pool that says nothing is left.
use miner_tim.Common.{ℕ, ◌-◌, ◌<◌, ◌≡◌, ◌⊎◌, Bytes, [], ◌∷◌}
use miner_tim.Pool.State.{PoolConnection}
use miner_tim.Pool.Json.{Json}
use miner_tim.Pool.Receiver.{Receiver, Poll, Flow, on, continued, stopped, waiting, ◌>>=◌, received}

-- What holds of an iteration that goes on, and of one that has ended by `continue`.
abbrev pub Ahead :
    (Receiver → PoolConnection → Type 0) → (Receiver → PoolConnection → Type 0) → Flow → Type 0
Ahead P Q (on r c) = P r c
Ahead P Q (continued r c) = Q r c
Ahead P Q (stopped c) = Unit
Ahead P Q (waiting c) = Unit

pub bind-Ahead :
    (P P' Q : Receiver → PoolConnection → Type 0) (m : Flow) (k : Receiver → PoolConnection → Flow)
    → Ahead P Q m
    → ((r : Receiver) (c : PoolConnection) → P r c → Ahead P' Q (k r c))
    → Ahead P' Q (m >>= k)
bind-Ahead P P' Q (on r c) k h go = go r c h
bind-Ahead P P' Q (continued r c) k h go = h
bind-Ahead P P' Q (stopped c) k h go = tt
bind-Ahead P P' Q (waiting c) k h go = tt

-- The silence clock stands where bytes of the pool arrived: before the iteration, or in it.
unfoldable pub WasHeard : Poll → Receiver → Receiver → Type 0
WasHeard p before r =
    (r.last_recv ≡ before.last_recv)
    ⊎ ((b : ℕ) × (bytes : Bytes) × (p.read ≡ received (b ∷ bytes)) × (r.last_recv ≡ p.read_at))

-- The clock and the buffer have begun anew with a connection, at that time.
unfoldable pub IsNew : ℕ → Receiver → Type 0
IsNew at r = (r.last_recv ≡ at) × (r.pending ≡ [])

-- The pool was heard of, or a lost connection came back, within the limit when it was checked; or the
-- connection came back later in the iteration or was logged in again at its start.
unfoldable pub IsFresh : Poll → Receiver → Receiver → PoolConnection → Type 0
unfolding WasHeard IsNew
IsFresh p before r c =
    ((p.checked_at - r.last_recv < c.silence_timeout_ms)
      × (WasHeard p before r ⊎ IsNew p.after_read.back_at r))
    ⊎ (IsNew p.after_silence.back_at r ⊎ (IsNew p.after_keepalive.back_at r ⊎ IsNew p.relogin_at r))

-- What holds before the check.
abbrev Unchecked : Poll → Receiver → Receiver → PoolConnection → Type 0
Unchecked p before r c = WasHeard p before r ⊎ IsNew p.after_read.back_at r

abbrev SameClock : Receiver → Receiver → PoolConnection → Type 0
SameClock before r c = r.last_recv ≡ before.last_recv
