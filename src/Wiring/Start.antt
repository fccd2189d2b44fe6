-- ===== src/Wiring/Start.antt =====
-- cmd/sos-beacon/main.go, run: from the configuration to the loop mode or to one run of each beacon. The
-- banner, the tracing and the log lines are left out.
use if_sos_beacon.Base.{Text, codes, Bool, Option, List, if◌then◌else◌}
use if_sos_beacon.Base.Errors.{Error, Result, ok, err}
use if_sos_beacon.Base.Go.{Platform}
use if_sos_beacon.Core.{Time, Duration}
use if_sos_beacon.Config.{Config, BeaconConfig}
use if_sos_beacon.Schedule.{loop_mode, stale_after}
use if_sos_beacon.Health.{Monitor, new_monitor}
use if_sos_beacon.Loop.{System, run_loop}
use if_sos_beacon.Ai.{OpenAiCompat}
use if_sos_beacon.Ai.Registry.{build_classifier}
use if_sos_beacon.Store.Disk.{Disk}
use if_sos_beacon.Store.File.{Codec}
use if_sos_beacon.Store.AzureSql.{Database, close}
use if_sos_beacon.Store.Registry.{Opened, file, azure_sql, build_store}

-- The loop mode with its monitor, or the beacons to run once each.
pub data Plan : Type 0 where
  looping : Monitor → System → Plan
  once : List BeaconConfig → Plan

pub record Started : Type 0 where
  pub store : Opened
  pub classifier : OpenAiCompat
  pub plan : Plan

-- The deferred st.Close.
release : Opened → Database → Database
unfolding close
release (file f) d = d
release azure_sql d = (close d).1

-- `canceled` is whether the signal came before runLoop began.
plan_of : Platform → Config → Duration → Time → Bool → Plan
unfolding run_loop stale_after new_monitor loop_mode
plan_of p cfg global now canceled =
    if loop_mode cfg.beacons global
    then looping (new_monitor (stale_after p cfg.beacons global) now)
        (run_loop p global cfg.beacons canceled)
    else once cfg.beacons

module _ (p : Platform) (getenv quote : Text → Text) (c : Codec) (read_error : Option Error)
    (global : Duration) (now : Time) (canceled : Bool) where
  with_store : Config → Result Opened → Database → Result Started × Database
  unfolding release plan_of build_classifier
  with_store cfg (err e) d = (err e, d)
  with_store cfg (ok st) d = elim (build_classifier getenv quote cfg.ai) [
    | err e ↦ (err e, release st d)
    | ok classifier ↦ (
      ok (record { store = st; classifier = classifier; plan = plan_of p cfg global now canceled }),
      d,
    )
  ]

  -- `loaded` is what config.Load gives.
  unfoldable pub run : Result Config → Disk → Database → Result Started × Database
  unfolding with_store build_store
  run (err e) disk d = (err e, d)
  run (ok cfg) disk d =
      let (st, d') =
        build_store quote c read_error (getenv (codes "SOS_STORE_DSN")) cfg.store disk d in
      with_store cfg st d'
