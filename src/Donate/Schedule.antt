-- ===== src/Donate/Schedule.antt =====
-- How much of each cycle a beneficiary gets, and that the schedule repeats.
use miner_tim.Common.{
  ℕ, zero, suc, ◌+◌, ◌-◌, ◌*◌, ◌/◌, ◌≤◌, ◌<◌, min, max, ◌≡◌, arith, Bool, true, false, ltb,
  if◌then◌else◌,
}
use miner_tim.Donate.{
  Beneficiary, user, author, xmrig, DonationSchedule, new, beneficiary_at, cycle_secs,
  min_donate_level, max_donate_level,
}

-- The test `beneficiary_at(t) == who`.
abbrev pub same : Beneficiary → Beneficiary → Bool
same user user = true
same author author = true
same xmrig xmrig = true
same _ _ = false

-- Seconds among the first `n` after `start` that are mined for `who`.
pub seconds_for : DonationSchedule → Beneficiary → ℕ → ℕ → ℕ
seconds_for s who start zero = 0
seconds_for s who start (suc n) =
    let rest = seconds_for s who start n in
    if same (beneficiary_at s (start + n)) who then rest + 1 else rest

-- The level of a new schedule is the requested one, moved into the range from 1 to 100.
pub new-level : (level : ℕ) → (new level).level ≡ max min_donate_level (min level max_donate_level)
unfolding new
new-level level = ground arith

-- Within one cycle the counts are intervals of the thresholds.
abbrev clip : ℕ → ℕ → ℕ → ℕ
clip lo hi n = if ltb n lo then 0 else if ltb n hi then n - lo else hi - lo

abbrev user_end : ℕ → ℕ
user_end level = cycle_secs - cycle_secs * level / 100

abbrev author_end : ℕ → ℕ
author_end level = user_end level + cycle_secs * level / 100 / 2

seconds_author :
    (s : DonationSchedule) (n : ℕ)
    → s.level ≤ 100
    → n ≤ cycle_secs
    → seconds_for s author 0 n ≡ clip (user_end s.level) (author_end s.level) n
unfolding seconds_for beneficiary_at
seconds_author s zero h le = ground arith
seconds_author s (suc n) h le = ground (arith, seconds_author s n h (omega arith))

seconds_xmrig :
    (s : DonationSchedule) (n : ℕ)
    → s.level ≤ 100
    → n ≤ cycle_secs
    → seconds_for s xmrig 0 n ≡ clip (author_end s.level) cycle_secs n
unfolding seconds_for beneficiary_at
seconds_xmrig s zero h le = ground arith
seconds_xmrig s (suc n) h le = ground (arith, seconds_xmrig s n h (omega arith))

seconds_user :
    (s : DonationSchedule) (n : ℕ)
    → s.level ≤ 100
    → n ≤ cycle_secs
    → seconds_for s user 0 n ≡ clip 0 (user_end s.level) n
unfolding seconds_for beneficiary_at
seconds_user s zero h le = ground arith
seconds_user s (suc n) h le = ground (arith, seconds_user s n h (omega arith))

-- For every level of at most 100 percent, one cycle of 6000 seconds is split exactly: the two donation shares
-- are equal, each 30 seconds for each percent, and the user gets all the rest.
pub cycle_shares :
    (s : DonationSchedule)
    → s.level ≤ 100
    → (seconds_for s author 0 cycle_secs ≡ 30 * s.level)
      × (seconds_for s xmrig 0 cycle_secs ≡ 30 * s.level)
      × (seconds_for s user 0 cycle_secs ≡ cycle_secs - 60 * s.level)
cycle_shares s h = (
  ground (arith, seconds_author s cycle_secs h (omega arith)),
  ground (arith, seconds_xmrig s cycle_secs h (omega arith)),
  ground (arith, seconds_user s cycle_secs h (omega arith)),
)

-- The order of the beneficiaries in a cycle.
abbrev pub rank : Beneficiary → ℕ
rank user = 0
rank author = 1
rank xmrig = 2

-- The schedule repeats every cycle, and within a cycle the beneficiary only moves on: user, then author, then
-- XMRig.
pub beneficiary_at_cycle :
    (s : DonationSchedule) (t u : ℕ)
    → t ≤ u
    → u < cycle_secs
    → (beneficiary_at s (t + cycle_secs) ≡ beneficiary_at s t)
      × (rank (beneficiary_at s t) ≤ rank (beneficiary_at s u))
unfolding beneficiary_at
beneficiary_at_cycle s t u h lt = (ground arith, ground arith)
