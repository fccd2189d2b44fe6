-- ===== src/Engine/Run/Keeps.antt =====
-- What every call of the ports keeps, a run of RunBeacon keeps.
use if_sos_beacon.Base.{Bool, true, false, List, [], ◌∷◌, Bool-cases, inl, inr, All}
use if_sos_beacon.Base.Int.{pos, ltb_ℤ}
use if_sos_beacon.Base.Go.{Platform}
use if_sos_beacon.Core.{Duration, Fetcher, Classifier, Sink, Deduper, Recorder}
use if_sos_beacon.Config.{BeaconConfig}
use if_sos_beacon.Engine.Pipeline.Keeps.{PortsKeep, process_all-keeps}
use if_sos_beacon.Engine.Run.{
  Clock, Fetching, fetch_result, fetch_one, pause, fetch_rest, fetch_all, env_at, after_fetch,
  run_pipeline,
}

module _ {W : Type 0} (I : W → Type 0) where
  abbrev pub FetcherKeeps : Fetcher W → Type 0
  FetcherKeeps f = (w : W) → I w → I (f.fetch w).1

  pub record ClockKeeps (k : Clock W) : Type 0 where
    pub on_now : (w : W) → I w → I (k.now w).1
    pub on_wait : (d : Duration) (w : W) → I w → I (k.wait d w).1

  fetch_one-keeps :
      (f : Fetcher W) → FetcherKeeps f → (l : Fetching W) → I l.world → I (fetch_one f l).world
  unfolding fetch_one fetch_result
  fetch_one-keeps f hf l h = hf l.world h

  module _ (k : Clock W) (hk : ClockKeeps k) (spacing : Duration) where
    pause-keeps : (l : Fetching W) → I l.world → I (pause k spacing l).1.world
    unfolding pause
    pause-keeps l h = elim (Bool-cases (ltb_ℤ (pos 0) spacing)) [
      | inl e ↦ rw e (hk.on_wait spacing l.world h)
      | inr e ↦ rw e h
    ]

    fetch_rest-keeps :
        (fs : List (Fetcher W)) (l : Fetching W)
        → All FetcherKeeps fs
        → I l.world
        → I (fetch_rest k spacing fs l).1.world
    unfolding fetch_rest
    fetch_rest-keeps [] l hf h = h
    fetch_rest-keeps (f ∷ fs) l (hf, hfs) h = elim (Bool-cases (pause k spacing l).0) [
      | inl e ↦ rw e (pause-keeps l h)
      | inr e ↦ rw e (
          fetch_rest-keeps fs (fetch_one f (pause k spacing l).1) hfs
            (fetch_one-keeps f hf (pause k spacing l).1 (pause-keeps l h)))
    ]

    fetch_all-keeps :
        (fs : List (Fetcher W)) (l : Fetching W)
        → All FetcherKeeps fs
        → I l.world
        → I (fetch_all k spacing fs l).1.world
    unfolding fetch_all
    fetch_all-keeps [] l hf h = h
    fetch_all-keeps (f ∷ fs) l (hf, hfs) h = fetch_rest-keeps fs _ hfs (fetch_one-keeps f hf l h)

  -- The ports that are wired.
  module _ (p : Platform) (k : Clock W) (hk : ClockKeeps k) (cfg : BeaconConfig)
      (fs : List (Fetcher W)) (hfs : All FetcherKeeps fs) (spacing : Duration) (cl : Classifier W)
      (sk : Sink W) (dd : Deduper W) (rc : Recorder W) (ports : PortsKeep I cl sk dd rc) where
    after_fetch-keeps :
        (max_age : Duration) (r : Bool × Fetching W)
        → I r.1.world
        → I (after_fetch p k cfg fs spacing cl sk dd rc max_age r).1
    unfolding after_fetch env_at
    after_fetch-keeps a (true, l) h = h
    after_fetch-keeps a (false, l) h =
        process_all-keeps I (env_at p k cfg fs spacing cl sk dd rc a (k.now l.world).0) ports
          l.signals _ (hk.on_now l.world h)

    pub run_pipeline-keeps :
        (max_age : Duration) (w : W)
        → I w
        → I (run_pipeline p k cfg fs spacing cl sk dd rc max_age w).1
    unfolding run_pipeline
    run_pipeline-keeps a w h = after_fetch-keeps a _ (fetch_all-keeps k hk spacing fs _ hfs h)
