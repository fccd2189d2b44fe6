-- ===== src/Health.antt =====
-- internal/health/health.go: readiness and the heartbeat. The atomics are single loads and stores, so
-- a handler is one step on the values that it loads. Times are nanoseconds since Go's zero time.
pub mod Laws
use if_sos_beacon.Base.{Text, codes, ℕ, Bool, true, false, ◌&&◌, if◌then◌else◌}
use if_sos_beacon.Base.Int.{ℤ, pos, ◌+ℤ◌, ◌-ℤ◌, ltb_ℤ, wrap64}
use if_sos_beacon.Base.Go.{time_sub}
use if_sos_beacon.Core.{Time, Duration}

-- 1970-01-01, from year 1.
abbrev pub unix_epoch : Time
unix_epoch = pos 62135596800000000000

-- t.UnixNano(), an int64, and time.Unix(0, n)
unfoldable pub unix_nano : Time → ℤ
unix_nano t = wrap64 (t -ℤ unix_epoch)

unfoldable pub of_unix_nano : ℤ → Time
of_unix_nano n = n +ℤ unix_epoch

pub record Monitor : Type 0 where
  pub is_ready : Bool
  pub last_beat : ℤ
  pub stale_after : Duration

-- New, Ready and Beat; `now` is the clock's answer.
unfoldable pub new_monitor : Duration → Time → Monitor
unfolding unix_nano
new_monitor stale_after now = record {
  is_ready = false;
  last_beat = unix_nano now;
  stale_after = stale_after;
}

unfoldable pub ready : Monitor → Monitor
ready m = record m { is_ready = true }

unfoldable pub beat : Time → Monitor → Monitor
unfolding unix_nano
beat now m = record m { last_beat = unix_nano now }

-- The status and the body that a handler writes.
unfoldable pub readyz : Monitor → ℕ × Text
readyz m = if m.is_ready then (200, codes "ready\n") else (503, codes "starting\n")

unfoldable pub healthz : Time → Monitor → ℕ × Text
unfolding time_sub of_unix_nano
healthz now m =
    let age = time_sub now (of_unix_nano m.last_beat) in
    if m.is_ready && ltb_ℤ age m.stale_after then (200, codes "ok\n") else (503, codes "stale\n")
