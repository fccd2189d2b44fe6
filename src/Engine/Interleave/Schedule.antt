-- ===== src/Engine/Interleave/Schedule.antt =====
-- A schedule that is run: whose turn it is, one after the other.
use if_sos_beacon.Base.{append_assoc, ℕ, zero, suc, ◌≡◌, refl, List, [], ◌∷◌, ◌++◌}
use if_sos_beacon.Core.{Signal}
use if_sos_beacon.Engine.Pipeline.{Env}
use if_sos_beacon.Engine.Pipeline.Trace.{Log}
use if_sos_beacon.Engine.Pipeline.Script.{
  Script, finished, ask, mark, judge, keep_finding, script_of, perform,
}
use if_sos_beacon.Engine.Interleave.{Worker, Pool, Turn, take_up, call, turn, Reach, next}

module _ {W : Type 0} where
  -- A goroutine at the end of its script takes up the next signal, if there is one.
  idle_turn : Worker W → W × Log → List (Env W × Signal) → Worker W × (W × Log)
  idle_turn t wl [] = (t, wl)
  idle_turn t wl ((e, s) ∷ rest) = (record t { env = e; script = script_of e s; coming = rest }, wl)

  turn_by : Worker W → W × Log → Script → Worker W × (W × Log)
  unfolding idle_turn perform
  turn_by t wl finished = idle_turn t wl t.coming
  turn_by t wl (ask b s i k) =
      let (sc, wl') = perform t.env (ask b s i k) wl in (record t { script = sc }, wl')
  turn_by t wl (mark b s i k) =
      let (sc, wl') = perform t.env (mark b s i k) wl in (record t { script = sc }, wl')
  turn_by t wl (judge s k) =
      let (sc, wl') = perform t.env (judge s k) wl in (record t { script = sc }, wl')
  turn_by t wl (Script.post f k) =
      let (sc, wl') = perform t.env (Script.post f k) wl in (record t { script = sc }, wl')
  turn_by t wl (keep_finding f k) =
      let (sc, wl') = perform t.env (keep_finding f k) wl in (record t { script = sc }, wl')

  -- The turn of the goroutine at a place; there may be none.
  turn_at : ℕ → List (Worker W) → W × Log → List (Worker W) × (W × Log)
  unfolding turn_by
  turn_at i [] wl = ([], wl)
  turn_at zero (t ∷ ts) wl = let (u, wl') = turn_by t wl t.script in (u ∷ ts, wl')
  turn_at (suc i) (t ∷ ts) wl = let (us, wl') = turn_at i ts wl in (t ∷ us, wl')

  unfoldable pub schedule : List ℕ → Pool W → Pool W
  unfolding turn_at
  schedule [] p = p
  schedule (i ∷ is) p =
      let (ts, wl) = turn_at i p.workers p.world in
      schedule is (record { workers = ts; world = wl })

  idle_turn-Turn :
      (t : Worker W) (wl : W × Log) (js : List (Env W × Signal))
      → t.script ≡ finished
      → t.coming ≡ js
      → Turn t wl (idle_turn t wl js).0 (idle_turn t wl js).1
  unfolding idle_turn perform
  idle_turn-Turn t wl [] e c = call (rw e refl) (rw e refl)
  idle_turn-Turn t wl ((env, s) ∷ rest) e c = take_up env s rest e c refl refl

  turn_by-Turn :
      (t : Worker W) (wl : W × Log) (sc : Script)
      → t.script ≡ sc
      → Turn t wl (turn_by t wl sc).0 (turn_by t wl sc).1
  unfolding turn_by
  turn_by-Turn t wl finished e = idle_turn-Turn t wl t.coming e refl
  turn_by-Turn t wl (ask b s i k) e = call (rw e refl) (rw e refl)
  turn_by-Turn t wl (mark b s i k) e = call (rw e refl) (rw e refl)
  turn_by-Turn t wl (judge s k) e = call (rw e refl) (rw e refl)
  turn_by-Turn t wl (Script.post f k) e = call (rw e refl) (rw e refl)
  turn_by-Turn t wl (keep_finding f k) e = call (rw e refl) (rw e refl)

  turn_at-Reach :
      {p : Pool W} (pre : List (Worker W)) (i : ℕ) (ts : List (Worker W)) (wl : W × Log)
      → Reach p (record { workers = pre ++ ts; world = wl })
      → Reach p (record { workers = pre ++ (turn_at i ts wl).0; world = (turn_at i ts wl).1 })
  unfolding turn_at
  turn_at-Reach pre i [] wl path = path
  turn_at-Reach pre zero (t ∷ ts) wl path =
      next path
        (turn pre ts t (turn_by t wl t.script).0 refl (turn_by-Turn t wl t.script refl) refl)
  turn_at-Reach {p = p} pre (suc i) (t ∷ ts) wl path =
      rw (append_assoc pre (t ∷ []) (turn_at i ts wl).0) at
        (turn_at-Reach {p = p} (pre ++ t ∷ []) i ts wl (rw (append_assoc pre (t ∷ []) ts) path))

  -- What a schedule comes to can be reached.
  pub schedule-Reach : {p : Pool W} (is : List ℕ) (q : Pool W) → Reach p q → Reach p (schedule is q)
  unfolding schedule
  schedule-Reach [] q path = path
  schedule-Reach {p = p} (i ∷ is) q path =
      schedule-Reach {p = p} is _ (turn_at-Reach {p = p} [] i q.workers q.world path)
