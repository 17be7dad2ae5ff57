-- ===== src/Pool/Rotation.antt =====
-- The donation gate (src/pool_connection.rs): `note_donation_target`, `rotation_settled` and
-- `rotation_may_proceed`. The two reads of `rotation_settled` are taken at one moment here.
pub mod Laws
use miner_tim.Common.{
  ℕ, ◌-◌, Option, none, some, Bool, true, false, not, ◌&&◌, ◌||◌, ◌==◌, leb, if◌then◌else◌,
}
use miner_tim.Donate.{Beneficiary}
use miner_tim.Donate.Schedule.{same}
use miner_tim.Pool.State.{PoolConnection, get_pending_shares}

unfoldable pub rotation_may_proceed : ℕ → ℕ → ℕ → ℕ → Bool
rotation_may_proceed in_flight pending waited limit =
    in_flight == 0 && pending == 0 || leb limit waited

-- The new connection and the new value of the caller's `last_want`.
unfoldable pub note_donation_target :
    Beneficiary → Beneficiary → PoolConnection → PoolConnection × Beneficiary
note_donation_target want last_want c =
    if same want last_want then (c, last_want) else (record c { rotation_wait_since = none }, want)

-- A deferral for another beneficiary is discarded.
unfoldable pub wait_for : Beneficiary → Option (Beneficiary × ℕ) → Option (Beneficiary × ℕ)
wait_for want none = none
wait_for want (some (b, since)) = if same b want then some (b, since) else none

-- `Instant::elapsed` is zero where the clock stands before the instant.
unfoldable pub waited_since : ℕ → Option (Beneficiary × ℕ) → ℕ
waited_since now none = 0
waited_since now (some (b, since)) = now - since

unfoldable pub begin_wait : Beneficiary → ℕ → Option (Beneficiary × ℕ) → Option (Beneficiary × ℕ)
begin_wait want now none = some (want, now)
begin_wait want now (some w) = some w

unfoldable pub rotation_settled : Beneficiary → ℕ → PoolConnection → Bool × PoolConnection
unfolding rotation_may_proceed wait_for waited_since begin_wait get_pending_shares
rotation_settled want now c =
    let wait = wait_for want c.rotation_wait_since in
    if rotation_may_proceed c.submits_in_flight (get_pending_shares c) (waited_since now wait)
      c.rotation_settle_ms
    then (true, record c { rotation_wait_since = none })
    else (false, record c { rotation_wait_since = begin_wait want now wait })
