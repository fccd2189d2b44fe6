-- ===== src/Wiring/Once.antt =====
-- The file store under the pipeline.
use if_sos_beacon.Base.{Text, ◌≤◌, ◌≡◌, Bool, true, some, List, [], ◌∷◌, arith, All, map}
use if_sos_beacon.Base.Maps.{Map, lookup, lookup-insert, lookup-insert_self}
use if_sos_beacon.Base.Go.{Platform}
use if_sos_beacon.Core.{Time, Duration, Signal, BeaconContext, Classifier, Sink}
use if_sos_beacon.Config.{BeaconConfig}
use if_sos_beacon.Engine.Pipeline.{Env}
use if_sos_beacon.Engine.Pipeline.Dedupe.{DedupeLaws, posts}
use if_sos_beacon.Engine.Pipeline.Once.{loops, posts_at_most_once}
use if_sos_beacon.Store.Key.{key}
use if_sos_beacon.Store.File.{
  Codec, World, file_store, seen, mark_seen, record_finding, save_locked,
}
use if_sos_beacon.Wiring.{wired}

-- The row's key reads true in memory.
abbrev pub InMemory : {X : Type 0} → Text → Text → Text → World × X → Type 0
InMemory b s i wx = lookup (key b s i) wx.0.file.state.seen ≡ some true

pub file_store-DedupeLaws :
    {X : Type 0} (c : Codec) (p : Platform) (cfg : BeaconConfig) (bc : BeaconContext)
    (cl : Classifier X) (k : Sink X) (max_age : Duration) (now : Time) (pre : Map Bool)
    → DedupeLaws InMemory (wired p cfg bc (file_store c) cl k max_age now pre)
unfolding file_store seen mark_seen record_finding save_locked
file_store-DedupeLaws c p cfg bc cl k max_age now pre = record {
  answers = λ b s i w m. ground arith;
  seen_keeps = λ b s i b' s' i' w m. ground arith;
  mark_keeps = λ b s i b' s' i' w m.
      ground (arith, lookup-insert (key b' s' i') (key b s i) true w.0.file.state.seen);
  classify_keeps = λ b s i sig w m. m;
  deliver_keeps = λ b s i f w m. m;
  record_keeps = λ b s i f w m. ground (
    arith,
    lookup-insert (key f.beacon f.signal.source f.signal.id) (key b s i) true w.0.file.state.seen,
  );
  record_marks =
      λ f w. lookup-insert_self (key f.beacon f.signal.source f.signal.id) true w.0.file.state.seen;
}

-- One run of a beacon: its configuration, the ports beside the store, the clock, and what was fetched.
pub record BeaconRun (X : Type 0) : Type 0 where
  pub cfg : BeaconConfig
  pub context : BeaconContext
  pub classifier : Classifier X
  pub sink : Sink X
  pub max_age : Duration
  pub now : Time
  pub prefiltered : Map Bool
  pub signals : List Signal

module _ {X : Type 0} (c : Codec) (p : Platform) where
  abbrev pub run_env : BeaconRun X → Env (World × X) × List Signal
  run_env r = (
    wired p r.cfg r.context (file_store c) r.classifier r.sink r.max_age r.now r.prefiltered,
    r.signals,
  )

  runs-DedupeLaws : (rs : List (BeaconRun X)) → All (λ r. DedupeLaws InMemory r.0) (map run_env rs)
  runs-DedupeLaws [] = tt
  runs-DedupeLaws (r ∷ rs) = (
    file_store-DedupeLaws c p r.cfg r.context r.classifier r.sink r.max_age r.now r.prefiltered,
    runs-DedupeLaws rs,
  )

-- Over any sequence of runs of any beacons in one process, whatever they fetched (repeated signals
-- too), whatever the classifier answers and whichever saves of the file store fail, the sink accepts
-- at most one post for each beacon, source and id.
pub file_posts_at_most_once :
    {X : Type 0} (c : Codec) (p : Platform) (rs : List (BeaconRun X)) (w : World × X)
    (b src i : Text)
    → posts b src i (loops (map (run_env c p) rs) (w, [])).1 ≤ 1
file_posts_at_most_once c p rs w b src i =
    posts_at_most_once InMemory b src i (map (run_env c p) rs) w (runs-DedupeLaws c p rs)
