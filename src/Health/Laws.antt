-- ===== src/Health/Laws.antt =====
-- What the probes report.
use if_sos_beacon.Base.{◌≡◌, ◌&&◌, arith, if◌then◌else◌}
use if_sos_beacon.Base.Int.{ltb_ℤ, ◌-ℤ◌, InInt64, wrap64_fits, int_laws}
use if_sos_beacon.Base.Go.{time_sub}
use if_sos_beacon.Core.{Time}
use if_sos_beacon.Health.{Monitor, beat, healthz, unix_nano, of_unix_nano, unix_epoch}

of_unix_nano-unix_nano : (t : Time) → InInt64 (t -ℤ unix_epoch) → of_unix_nano (unix_nano t) ≡ t
unfolding of_unix_nano unix_nano
of_unix_nano-unix_nano t h = rw (wrap64_fits (t -ℤ unix_epoch) h) (omega int_laws)

-- time.Sub of instants that lie less than 2 ^ 63 nanoseconds apart is their difference.
time_sub_fits : (t u : Time) → InInt64 (t -ℤ u) → time_sub t u ≡ t -ℤ u
unfolding time_sub
time_sub_fits t u h = ground arith

-- A ready process that beat at `t` answers 200 while less than stale_after has passed since, and 503
-- from then on; one that is not ready answers 503. The instants are taken to lie in the range of
-- UnixNano, and within 2 ^ 63 nanoseconds of one another.
pub healthz-beat :
    (m : Monitor) (t now : Time)
    → InInt64 (t -ℤ unix_epoch)
    → InInt64 (now -ℤ t)
    → (healthz now (beat t m)).0
      ≡ (if m.is_ready && ltb_ℤ (now -ℤ t) m.stale_after then 200 else 503)
unfolding healthz beat
healthz-beat m t now h k = ground (arith, of_unix_nano-unix_nano t h, time_sub_fits now t k)
