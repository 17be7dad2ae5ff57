-- ===== src/Donate.antt =====
-- src/donate.rs: the donation level and the time-based schedule of beneficiaries.
pub mod Schedule
mod Tests
use miner_tim.Common.{ℕ, ◌+◌, ◌-◌, ◌*◌, ◌/◌, ◌%◌, ltb, if◌then◌else◌}

abbrev pub default_donate_level : ℕ
default_donate_level = 5

abbrev pub min_donate_level : ℕ
min_donate_level = 1

abbrev pub max_donate_level : ℕ
max_donate_level = 100

abbrev pub cycle_secs : ℕ
cycle_secs = 100 * 60

-- `u8::clamp(MIN, MAX)`.
unfoldable pub clamp_level : ℕ → ℕ
clamp_level level =
    if ltb level min_donate_level
    then min_donate_level
    else if ltb max_donate_level level
    then max_donate_level
    else level

pub data Beneficiary : Type 0 where
  user author xmrig : Beneficiary

pub record DonationSchedule : Type 0 where
  pub level : ℕ

unfoldable pub new : ℕ → DonationSchedule
unfolding clamp_level
new level = record { level = clamp_level level }

-- The products stay far below 2 ^ 64, and a level is at most 100, so that nothing wraps.
unfoldable pub beneficiary_at : DonationSchedule → ℕ → Beneficiary
beneficiary_at s elapsed_secs =
    let t = elapsed_secs % cycle_secs in
    let donate = cycle_secs * s.level / 100 in
    let author_secs = donate / 2 in
    let user_secs = cycle_secs - donate in
    if ltb t user_secs then user else if ltb t (user_secs + author_secs) then author else xmrig
