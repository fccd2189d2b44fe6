-- ===== src/Engine/Run.antt =====
-- RunBeacon from its checks to its result. The clock and the wait between two fetches are the
-- environment's: a wait answers whether the context was canceled first.
pub mod Funnel
pub mod Keeps
use if_sos_beacon.Base.{
  Text, codes, Bool, true, false, ◌&&◌, Option, none, some, List, [], ◌∷◌, ◌++◌, length,
  if◌then◌else◌,
}
use if_sos_beacon.Base.Int.{pos, ltb_ℤ}
use if_sos_beacon.Base.Maps.{Map, insert}
use if_sos_beacon.Base.Errors.{Error, message, Result, ok, err}
use if_sos_beacon.Base.Go.{Platform}
use if_sos_beacon.Core.{
  Time, Duration, Signal, BeaconContext, Fetcher, Classifier, Sink, Deduper, Recorder,
}
use if_sos_beacon.Config.{BeaconConfig}
use if_sos_beacon.Engine.Tally.{Tally, Counter, Stats, no_run, bump, rollup}
use if_sos_beacon.Engine.Pipeline.{Env, Loop, process_all}

-- A nil interface is `none`.
pub record Deps (W : Type 0) : Type 0 where
  pub fetchers : List (Fetcher W)
  pub classifier : Option (Classifier W)
  pub sink : Option (Sink W)
  pub deduper : Option (Deduper W)
  pub recorder : Option (Recorder W)
  pub source_spacing : Duration

pub record Clock (W : Type 0) : Type 0 where
  pub now : W → Time × W
  pub wait : Duration → W → Bool × W

-- The fetch loop's variables.
pub record Fetching (W : Type 0) : Type 0 where
  pub tally : Tally
  pub signals : List Signal
  pub world : W

abbrev canceled : Error
canceled = message (codes "context canceled")

count_failure : Option Error → Text → Tally → Tally
count_failure none name t = t
count_failure (some x) name t = bump Counter.errors 1 name t

unfoldable pub context_of : BeaconConfig → BeaconContext
context_of cfg = record { beacon = cfg.name; context = cfg.context; buckets = cfg.buckets }

-- An empty max_age is no gate.
unfoldable pub parse_max_age : Platform → Text → Result Duration
parse_max_age p [] = ok (pos 0)
parse_max_age p (c ∷ s) = p.parse_duration (c ∷ s)

module _ {W : Type 0} where
  fetch_result : Fetcher W → (List Signal × Option Error) × W → Fetching W → Fetching W
  unfolding count_failure
  fetch_result f ((got, x), w) l = record {
    tally = bump Counter.fetched (length got) f.name (count_failure x f.name l.tally);
    signals = l.signals ++ got;
    world = w;
  }

  -- One fetcher. What a failed fetch still returned is kept.
  unfoldable pub fetch_one : Fetcher W → Fetching W → Fetching W
  unfolding fetch_result
  fetch_one f l = fetch_result f (f.fetch l.world) l

  -- The pause in front of every fetcher but the first, if a spacing is set.
  pause : Clock W → Duration → Fetching W → Bool × Fetching W
  pause k spacing l =
      if ltb_ℤ (pos 0) spacing
      then (let (b, w) = k.wait spacing l.world in (b, record l { world = w }))
      else (false, l)

  -- The fetchers behind the first. The first component is the cancellation.
  fetch_rest : Clock W → Duration → List (Fetcher W) → Fetching W → Bool × Fetching W
  unfolding pause fetch_one
  fetch_rest k spacing [] l = (false, l)
  fetch_rest k spacing (f ∷ fs) l =
      let go = fetch_rest k spacing fs (fetch_one f (pause k spacing l).1) in
      if (pause k spacing l).0 then (true, (pause k spacing l).1) else go

  unfoldable pub fetch_all : Clock W → Duration → List (Fetcher W) → Fetching W → Bool × Fetching W
  unfolding fetch_rest fetch_one
  fetch_all k spacing [] l = (false, l)
  fetch_all k spacing (f ∷ fs) l = fetch_rest k spacing fs (fetch_one f l)

  -- The sources that narrow by keyword themselves.
  unfoldable pub prefiltered_sources : Map Bool → List (Fetcher W) → Map Bool
  prefiltered_sources m [] = m
  prefiltered_sources m (f ∷ fs) =
      prefiltered_sources
        (elim f.prefilters_by_keyword [ none ↦ m | some b ↦ if b then insert f.name true m else m ])
        fs

  -- RunBeacon behind its checks.
  module _ (p : Platform) (k : Clock W) (cfg : BeaconConfig) (fetchers : List (Fetcher W))
      (spacing : Duration) (cl : Classifier W) (sink : Sink W) (dd : Deduper W) (rc : Recorder W)
      (max_age : Duration) where
    unfoldable pub env_at : Time → Env W
    unfolding prefiltered_sources context_of
    env_at now = record {
      platform = p;
      cfg = cfg;
      context = context_of cfg;
      classifier = cl;
      sink = sink;
      deduper = dd;
      recorder = rc;
      max_age = max_age;
      now = now;
      prefiltered = prefiltered_sources [] fetchers;
    }

    after_fetch : Bool × Fetching W → (Stats × Option Error) × W
    unfolding env_at
    after_fetch (true, l) = ((rollup l.tally, some canceled), l.world)
    after_fetch (false, l) =
        let (now, w) = k.now l.world in
        let done = process_all (env_at now) l.signals (record { tally = l.tally; world = w }) in
        ((rollup done.tally, none), done.world)

    unfoldable pub run_pipeline : W → (Stats × Option Error) × W
    unfolding after_fetch fetch_all
    run_pipeline w =
        after_fetch (fetch_all k spacing fetchers (record { tally = []; signals = []; world = w }))

  failed : Error → W → (Stats × Option Error) × W
  failed x w = ((no_run, some x), w)

  -- RunBeacon from the parsed max_age on.
  run_checked :
      Platform
      → Clock W
      → BeaconConfig
      → List (Fetcher W)
      → Duration
      → Classifier W
      → Sink W
      → Deduper W
      → Recorder W
      → W
      → Result Duration
      → (Stats × Option Error) × W
  unfolding failed
  run_checked p k cfg fs spacing cl sk dd rc w (err x) = failed x w
  run_checked p k cfg fs spacing cl sk dd rc w (ok max_age) =
      run_pipeline p k cfg fs spacing cl sk dd rc max_age w

  unfoldable pub run_beacon :
      Platform → Clock W → BeaconConfig → Deps W → W → (Stats × Option Error) × W
  unfolding failed parse_max_age run_checked
  run_beacon p k cfg d w = elim d.deduper [
    | none ↦ failed (message (codes "engine: nil deduper")) w
    | some dd ↦ elim d.recorder [
      | none ↦ failed (message (codes "engine: nil recorder")) w
      | some rc ↦ elim d.classifier [
        | none ↦ failed (message (codes "engine: nil classifier")) w
        | some cl ↦ elim d.sink [
          | none ↦ failed (message (codes "engine: nil sink")) w
          | some sk ↦
              run_checked p k cfg d.fetchers d.source_spacing cl sk dd rc w
                (parse_max_age p cfg.max_age)
        ]
      ]
    ]
  ]
