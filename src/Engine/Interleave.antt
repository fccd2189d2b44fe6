-- ===== src/Engine/Interleave.antt =====
-- The goroutines of several beacons over one store (cmd/sos-beacon/main.go, runLoop, with
-- internal/engine/engine.go, RunBeacon): each works off the signals that its polls fetch, and between any
-- two calls of the ports another may take its turn. One call is one step: the store's methods hold its
-- lock.
pub mod Scripts
pub mod Roles
pub mod Once
pub mod Schedule
use if_sos_beacon.Base.{Text, ◌≡◌, List, [], ◌∷◌, ◌++◌}
use if_sos_beacon.Core.{Signal}
use if_sos_beacon.Engine.Pipeline.{Env}
use if_sos_beacon.Engine.Pipeline.Trace.{Log}
use if_sos_beacon.Engine.Pipeline.Script.{Script, finished, script_of, perform}

-- A goroutine: its beacon, the environment and the rest of the script of the signal at hand, and the signals that
-- are to come, those of later polls too, each with the environment of its poll.
pub record Worker (W : Type 0) : Type 0 where
  pub name : Text
  pub env : Env W
  pub script : Script
  pub coming : List (Env W × Signal)

pub record Pool (W : Type 0) : Type 0 where
  pub workers : List (Worker W)
  pub world : W × Log

-- One turn of a goroutine: it takes up the next signal, or makes the next call.
pub data Turn {W : Type 0} (t : Worker W) (wl : W × Log) (u : Worker W) (wl' : W × Log)
    : Type 0 where
  take_up :
      (e : Env W) (s : Signal) (rest : List (Env W × Signal))
      → t.script ≡ finished
      → t.coming ≡ (e, s) ∷ rest
      → u ≡ record t { env = e; script = script_of e s; coming = rest }
      → wl' ≡ wl
      → Turn t wl u wl'
  call :
      u ≡ record t { script = (perform t.env t.script wl).0 }
      → wl' ≡ (perform t.env t.script wl).1
      → Turn t wl u wl'

pub data Step {W : Type 0} (p q : Pool W) : Type 0 where
  turn :
      (xs ys : List (Worker W)) (t u : Worker W)
      → p.workers ≡ xs ++ t ∷ ys
      → Turn t p.world u q.world
      → q.workers ≡ xs ++ u ∷ ys
      → Step p q

pub data Reach {W : Type 0} (p : Pool W) : Pool W → Type 0 where
  here : Reach p p
  next : {q r : Pool W} → Reach p q → Step q r → Reach p r
