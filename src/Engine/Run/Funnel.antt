-- ===== src/Engine/Run/Funnel.antt =====
-- The funnel of a whole run of RunBeacon.
use if_sos_beacon.Base.{
  ℕ, suc, ◌+◌, ◌≡◌, Bool, true, false, Option, none, some, List, [], ◌∷◌, arith, length,
  length-append, Bool-cases, inl, inr,
}
use if_sos_beacon.Base.Int.{pos, ltb_ℤ}
use if_sos_beacon.Base.Errors.{Error, Result, ok, err}
use if_sos_beacon.Base.Go.{Platform}
use if_sos_beacon.Core.{Duration, Signal, Fetcher, Classifier, Sink, Deduper, Recorder}
use if_sos_beacon.Config.{BeaconConfig}
use if_sos_beacon.Engine.Tally.{Counter, add_to, rollup, column_sums}
use if_sos_beacon.Engine.Tally.Totals.{total, total-bump}
use if_sos_beacon.Engine.Pipeline.Balance.{Funnel, process_all-Funnel}
use if_sos_beacon.Engine.Run.{
  Deps, Clock, Fetching, count_failure, fetch_result, fetch_one, pause, fetch_rest, fetch_all,
  env_at, after_fetch, run_pipeline, run_checked, run_beacon, parse_max_age,
}

module _ {W : Type 0} where
  -- What the fetch loop has gathered is what it has counted as fetched.
  abbrev Gathered : ℕ → Fetching W → Type 0
  Gathered n l = Funnel n (length l.signals) 0 0 (total l.tally)

  Gathered-more : (n m : ℕ) (l : Fetching W) → Gathered n l → Gathered (n + m) l
  Gathered-more n m l h = ground arith

  fetch_result-Gathered :
      (f : Fetcher W) (r : (List Signal × Option Error) × W) (n : ℕ) (l : Fetching W)
      → Gathered n l
      → Gathered (suc n) (fetch_result f r l)
  unfolding fetch_result add_to
  fetch_result-Gathered f ((got, none), w) n l h = ground (
    arith,
    total-bump Counter.fetched (length got) f.name l.tally,
    length-append {0} l.signals got,
  )
  fetch_result-Gathered f ((got, some x), w) n l h = ground (
    arith,
    total-bump Counter.fetched (length got) f.name (count_failure (some x) f.name l.tally),
    total-bump Counter.errors 1 f.name l.tally,
    length-append {0} l.signals got,
  )

  fetch_one-Gathered :
      (f : Fetcher W) (n : ℕ) (l : Fetching W) → Gathered n l → Gathered (suc n) (fetch_one f l)
  unfolding fetch_one
  fetch_one-Gathered f n l h = fetch_result-Gathered f (f.fetch l.world) n l h

  pause-Gathered :
      (k : Clock W) (spacing : Duration) (n : ℕ) (l : Fetching W)
      → Gathered n l
      → Gathered n (pause k spacing l).1
  unfolding pause
  pause-Gathered k spacing n l h = elim (Bool-cases (ltb_ℤ (pos 0) spacing)) [
    | inl e ↦ rw e h
    | inr e ↦ rw e h
  ]

  fetch_rest-Gathered :
      (k : Clock W) (spacing : Duration) (fs : List (Fetcher W)) (n : ℕ) (l : Fetching W)
      → Gathered n l
      → Gathered (n + length fs) (fetch_rest k spacing fs l).1
  unfolding fetch_rest
  fetch_rest-Gathered k spacing [] n l h = Gathered-more n 0 l h
  fetch_rest-Gathered k spacing (f ∷ fs) n l h = elim (Bool-cases (pause k spacing l).0) [
    | inl e ↦
        rw e
          (Gathered-more n (length (f ∷ fs)) (pause k spacing l).1 (pause-Gathered k spacing n l h))
    | inr e ↦
        let l1 = (pause k spacing l).1 in
        let now = fetch_one-Gathered f n l1 (pause-Gathered k spacing n l h) in
        let rest = fetch_rest-Gathered k spacing fs (suc n) (fetch_one f l1) now in
        rw e (ground (arith, rest))
  ]

  fetch_all-Gathered :
      (k : Clock W) (spacing : Duration) (fs : List (Fetcher W)) (l : Fetching W)
      → Gathered 0 l
      → Gathered (length fs) (fetch_all k spacing fs l).1
  unfolding fetch_all
  fetch_all-Gathered k spacing [] l h = h
  fetch_all-Gathered k spacing (f ∷ fs) l h =
      let rest = fetch_rest-Gathered k spacing fs 1 (fetch_one f l) (fetch_one-Gathered f 0 l h) in
      ground (arith, rest)

module _ {W : Type 0} (p : Platform) (k : Clock W) (cfg : BeaconConfig) (fs : List (Fetcher W))
    (spacing : Duration) (cl : Classifier W) (sk : Sink W) (dd : Deduper W) (rc : Recorder W)
    (max_age : Duration) where
  after_fetch-Funnel :
      (n : ℕ) (r : Bool × Fetching W)
      → Gathered n r.1
      → (after_fetch p k cfg fs spacing cl sk dd rc max_age r).0.1 ≡ none
      → Funnel n 0 0 0 (after_fetch p k cfg fs spacing cl sk dd rc max_age r).0.0.total
  unfolding after_fetch rollup
  after_fetch-Funnel n (true, l) g h = absurd (ground arith)
  after_fetch-Funnel n (false, l) g h =
      let (now, w) = k.now l.world in
      process_all-Funnel (env_at p k cfg fs spacing cl sk dd rc max_age now) n l.signals
        (record { tally = l.tally; world = w }) g

  run_pipeline-Funnel :
      (w : W)
      → (run_pipeline p k cfg fs spacing cl sk dd rc max_age w).0.1 ≡ none
      → Funnel (length fs) 0 0 0 (run_pipeline p k cfg fs spacing cl sk dd rc max_age w).0.0.total
  unfolding run_pipeline
  run_pipeline-Funnel w h =
      after_fetch-Funnel (length fs)
        (fetch_all k spacing fs (record { tally = []; signals = []; world = w }))
        (fetch_all-Gathered k spacing fs (record { tally = []; signals = []; world = w })
          (unfold column_sums in omega arith))
        h

checked-Funnel :
    {W : Type 0} (p : Platform) (k : Clock W) (cfg : BeaconConfig) (fs : List (Fetcher W))
    (spacing : Duration) (cl : Classifier W) (sk : Sink W) (dd : Deduper W) (rc : Recorder W)
    (w : W) (r : Result Duration)
    → (run_checked p k cfg fs spacing cl sk dd rc w r).0.1 ≡ none
    → Funnel (length fs) 0 0 0 (run_checked p k cfg fs spacing cl sk dd rc w r).0.0.total
unfolding run_checked
checked-Funnel p k cfg fs spacing cl sk dd rc w (err x) h = cc
checked-Funnel p k cfg fs spacing cl sk dd rc w (ok a) h =
    run_pipeline-Funnel p k cfg fs spacing cl sk dd rc a w h

module _ {W : Type 0} (p : Platform) (k : Clock W) (cfg : BeaconConfig) (fs : List (Fetcher W))
    (spacing : Duration) (w : W) where
  -- Split on which ports are wired: without one of them the run ends in an error.
  wired-Funnel :
      (dd : Option (Deduper W)) (rc : Option (Recorder W)) (cl : Option (Classifier W))
      (sk : Option (Sink W))
      → (run_beacon p k cfg
          (record {
            fetchers = fs;
            classifier = cl;
            sink = sk;
            deduper = dd;
            recorder = rc;
            source_spacing = spacing;
          })
          w).0.1
        ≡ none
      → Funnel
          (length fs)
          0
          0
          0
          (run_beacon p k cfg
            (record {
              fetchers = fs;
              classifier = cl;
              sink = sk;
              deduper = dd;
              recorder = rc;
              source_spacing = spacing;
            })
            w).0.0.total
  unfolding run_beacon
  wired-Funnel none rc cl sk h = cc
  wired-Funnel (some dd) none cl sk h = cc
  wired-Funnel (some dd) (some rc) none sk h = cc
  wired-Funnel (some dd) (some rc) (some cl) none h = cc
  wired-Funnel (some dd) (some rc) (some cl) (some sk) h =
      checked-Funnel p k cfg fs spacing cl sk dd rc w (parse_max_age p cfg.max_age) h

-- In a run that ends without an error the funnel adds up. Each fetched signal is counted as stale,
-- seen, filtered or classified, or it met an error, and no more are so counted than were fetched; each
-- classified one as delivered, digest or dropped, or it met an error, and no more are so counted than
-- were classified. The errors are no more than the fetches and the fetched signals that are not counted
-- as stale, seen, filtered or dropped.
pub run_beacon-Funnel :
    {W : Type 0} (p : Platform) (k : Clock W) (cfg : BeaconConfig) (d : Deps W) (w : W)
    → (run_beacon p k cfg d w).0.1 ≡ none
    → Funnel (length d.fetchers) 0 0 0 (run_beacon p k cfg d w).0.0.total
run_beacon-Funnel p k cfg d w h =
    wired-Funnel p k cfg d.fetchers d.source_spacing w d.deduper d.recorder d.classifier d.sink h
