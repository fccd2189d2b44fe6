-- ===== src/Tests/ScheduleTests.antt =====
-- Three beacons in a long-running process.
use if_sos_beacon.Base.{
  codes, ℕ, ◌+◌, ◌*◌, ◌/◌, ◌≤◌, ◌<◌, ◌≡◌, refl, true, ◌&&◌, [], ◌∷◌, arith, if◌then◌else◌,
}
use if_sos_beacon.Base.Int.{pos, pos_part, ◌-ℤ◌, ◌+ℤ◌, ltb_ℤ}
use if_sos_beacon.Base.Go.{trim_space}
use if_sos_beacon.Core.{Time, Duration}
use if_sos_beacon.Config.{BeaconConfig}
use if_sos_beacon.Health.{Monitor, beat, healthz, unix_epoch}
use if_sos_beacon.Health.Laws.{healthz-beat}
use if_sos_beacon.Schedule.{resolve_interval, max_poll_interval, stale_after, stagger_offset}
use if_sos_beacon.Schedule.Laws.{healthz_between_polls}
use if_sos_beacon.Schedule.Stagger.{stagger_offset_apart}
use if_sos_beacon.Tests.Fixtures.{ascii, beacon}

abbrev minutes : ℕ → Duration
minutes n = pos (60000000000 * n)

abbrev start : Time
start = unix_epoch

-- A beacon that polls every twelve hours, beside one that polls as the process does.
abbrev slow : BeaconConfig
slow = record beacon { poll_interval = codes "12h" }

abbrev monitor : Monitor
monitor = record {
  is_ready = true;
  last_beat = pos 0;
  stale_after = stale_after ascii (beacon ∷ slow ∷ []) (minutes 30);
}

abbrev later : Time
later = pos (62135596800000000000 + 60000000000 * 1000)

healthz-beat_example :
    (healthz later (beat start monitor)).0
    ≡ (if monitor.is_ready && ltb_ℤ (later -ℤ start) monitor.stale_after then 200 else 503)
unfolding ◌-ℤ◌
healthz-beat_example =
    healthz-beat monitor start later (omega arith, omega arith) (omega arith, omega arith)

healthz_between_polls_example : (healthz later (beat start monitor)).0 ≡ 200
unfolding resolve_interval max_poll_interval ◌-ℤ◌ ◌+ℤ◌ trim_space
healthz_between_polls_example =
    healthz_between_polls ascii (minutes 30) slow (minutes 720) (beacon ∷ []) [] monitor start later
      refl (omega arith) refl refl (omega arith, omega arith) (omega arith, omega arith) refl

stagger_offset_apart_example :
    (pos_part (stagger_offset 1 3 (minutes 30)) + 1800000000000 / 3
      ≤ pos_part (stagger_offset 2 3 (minutes 30)))
    × (pos_part (stagger_offset 2 3 (minutes 30)) < 1800000000000)
stagger_offset_apart_example =
    stagger_offset_apart 1 2 3 1800000000000 (omega arith) (omega arith) (omega arith) (omega arith)
      (omega arith)
