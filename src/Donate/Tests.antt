-- ===== src/Donate/Tests.antt =====
-- Runs of the schedule, and the properties of it at the default level.
use miner_tim.Common.{◌+◌, ◌≤◌, ◌≡◌, refl, arith}
use miner_tim.Donate.{new, user, author, xmrig, beneficiary_at, cycle_secs, DonationSchedule}
use miner_tim.Donate.Schedule.{seconds_for, cycle_shares, beneficiary_at_cycle, rank}

phases :
    (beneficiary_at (new 5) 5699 ≡ user)
    × (beneficiary_at (new 5) 5700 ≡ author)
    × (beneficiary_at (new 5) 5850 ≡ xmrig)
    × (beneficiary_at (new 5) 6000 ≡ user)
unfolding beneficiary_at new
phases = (refl, refl, refl, refl)

abbrev five : DonationSchedule
five = record { level = 5 }

cycle_shares_example :
    (seconds_for five author 0 cycle_secs ≡ 150)
    × (seconds_for five xmrig 0 cycle_secs ≡ 150)
    × (seconds_for five user 0 cycle_secs ≡ 5700)
cycle_shares_example = cycle_shares five (omega arith)

beneficiary_at_cycle_example :
    (beneficiary_at five (5000 + cycle_secs) ≡ beneficiary_at five 5000)
    × (rank (beneficiary_at five 5000) ≤ rank (beneficiary_at five 5900))
beneficiary_at_cycle_example = beneficiary_at_cycle five 5000 5900 (omega arith) (omega arith)
