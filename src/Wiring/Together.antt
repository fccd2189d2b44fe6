-- ===== src/Wiring/Together.antt =====
-- The goroutines of runLoop (cmd/sos-beacon/main.go) over one file store.
use if_sos_beacon.Base.{Text, ◌≤◌, ◌≡◌, ◌≢◌, refl, List, [], ◌∷◌, ◌++◌, All, All-append, map}
use if_sos_beacon.Base.Go.{Platform}
use if_sos_beacon.Core.{Signal}
use if_sos_beacon.Config.{BeaconConfig}
use if_sos_beacon.Engine.Pipeline.{Env}
use if_sos_beacon.Engine.Pipeline.Dedupe.{DedupeLaws, posts}
use if_sos_beacon.Engine.Pipeline.Script.{finished}
use if_sos_beacon.Engine.Interleave.{Worker, Pool, Reach}
use if_sos_beacon.Engine.Interleave.Once.{Apart, IsReady, interleaved_posts}
use if_sos_beacon.Store.File.{Codec, World}
use if_sos_beacon.Wiring.Once.{BeaconRun, InMemory, run_env, file_store-DedupeLaws}

-- The goroutine of one beacon: its configuration, its first poll, and the polls after it. Each poll is
-- of that configuration, with the ports, the time and the signals of its own.
pub record Goroutine (X : Type 0) : Type 0 where
  pub cfg : BeaconConfig
  pub first : BeaconRun X
  pub later : List (BeaconRun X)

module _ {X : Type 0} (c : Codec) (p : Platform) where
  abbrev poll_env : BeaconConfig → BeaconRun X → Env (World × X)
  poll_env cfg r = (run_env c p (record r { cfg = cfg })).0

  -- The signals of the polls, in their order.
  unfoldable pub jobs : BeaconConfig → List (BeaconRun X) → List (Env (World × X) × Signal)
  jobs cfg [] = []
  jobs cfg (r ∷ rs) = map (λ s. (poll_env cfg r, s)) r.signals ++ jobs cfg rs

  unfoldable pub worker_of : Goroutine X → Worker (World × X)
  unfolding jobs
  worker_of g = record {
    name = g.cfg.name;
    env = poll_env g.cfg g.first;
    script = finished;
    coming = jobs g.cfg (g.first ∷ g.later);
  }

  -- No two beacons have the same name.
  abbrev pub NamesApart : List (Goroutine X) → Type 0
  NamesApart [] = Unit {0}
  NamesApart (g ∷ gs) = All (λ h. h.cfg.name ≢ g.cfg.name) gs × NamesApart gs

  poll-laws : (cfg : BeaconConfig) (r : BeaconRun X) → DedupeLaws InMemory (poll_env cfg r)
  poll-laws cfg r =
      file_store-DedupeLaws c p cfg r.context r.classifier r.sink r.max_age r.now r.prefiltered

  abbrev IsOwn : BeaconConfig → Env (World × X) × Signal → Type 0
  IsOwn cfg j = (j.0.cfg.name ≡ cfg.name) × DedupeLaws InMemory j.0

  signals-IsOwn :
      (cfg : BeaconConfig) (r : BeaconRun X) (ss : List Signal)
      → All (IsOwn cfg) (map (λ s. (poll_env cfg r, s)) ss)
  signals-IsOwn cfg r [] = tt
  signals-IsOwn cfg r (s ∷ ss) = ((refl, poll-laws cfg r), signals-IsOwn cfg r ss)

  jobs-IsOwn : (cfg : BeaconConfig) (rs : List (BeaconRun X)) → All (IsOwn cfg) (jobs cfg rs)
  unfolding jobs
  jobs-IsOwn cfg [] = tt
  jobs-IsOwn cfg (r ∷ rs) =
      All-append (IsOwn cfg) _ _ (signals-IsOwn cfg r r.signals) (jobs-IsOwn cfg rs)

  workers-IsReady : (gs : List (Goroutine X)) → All (IsReady InMemory) (map worker_of gs)
  unfolding worker_of
  workers-IsReady [] = tt
  workers-IsReady (g ∷ gs) =
      ((refl, (poll-laws g.cfg g.first, jobs-IsOwn g.cfg (g.first ∷ g.later))), workers-IsReady gs)

  names_apart :
      (name : Text) (gs : List (Goroutine X))
      → All (λ h. h.cfg.name ≢ name) gs
      → All (λ t. t.name ≢ name) (map worker_of gs)
  unfolding worker_of
  names_apart name [] h = tt
  names_apart name (g ∷ gs) (h, hs) = (h, names_apart name gs hs)

  workers-Apart : (gs : List (Goroutine X)) → NamesApart gs → Apart (map worker_of gs)
  unfolding worker_of
  workers-Apart [] h = tt
  workers-Apart (g ∷ gs) (h, hs) = (names_apart g.cfg.name gs h, workers-Apart gs hs)

  -- However the goroutines of the beacons interleave at the calls of their ports, whatever they fetch,
  -- whatever the classifier answers and whichever saves of the file store fail, the sink accepts at most
  -- one post for each beacon, source and id. No two beacons are taken to have the same name.
  pub file_interleaved_posts :
      (gs : List (Goroutine X)) (w : World × X) (q : Pool (World × X)) (b src i : Text)
      → NamesApart gs
      → Reach (record { workers = map worker_of gs; world = (w, []) }) q
      → posts b src i q.world.1 ≤ 1
  file_interleaved_posts gs w q b src i apart path =
      interleaved_posts InMemory b src i (map worker_of gs) w q (workers-Apart gs apart)
        (workers-IsReady gs) path
