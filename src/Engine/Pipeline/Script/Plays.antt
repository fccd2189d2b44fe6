-- ===== src/Engine/Pipeline/Script/Plays.antt =====
-- A script that is played without interruption is the body of the loop.
use if_sos_beacon.Base.{◌≡◌, refl, sym, Bool, true, false, Option, none, some, Bool-cases, inl, inr}
use if_sos_beacon.Base.Floats.{fge}
use if_sos_beacon.Base.Errors.{Error, Result, ok, err}
use if_sos_beacon.Core.{Signal, Verdict, Finding}
use if_sos_beacon.Engine.Tally.{Counter}
use if_sos_beacon.Engine.Pipeline.{
  Env, Loop, is_stale, is_filtered, is_dropped, finding_of, process, count, mark, record_stage,
  deliver_result, deliver_stage, classify_result, classify_stage, seen_result,
}
use if_sos_beacon.Engine.Pipeline.Trace.{Log, traced}
use if_sos_beacon.Engine.Pipeline.Protocol.{world-record_result}
use if_sos_beacon.Engine.Pipeline.Script.{
  record_script, posted_next, deliver_script, judged_next, asked_next, script_of, play,
}

module _ {W : Type 0} (e : Env W) (s : Signal) where
  play-record_stage :
      (f : Finding) (l : Loop (W × Log))
      → play e (record_script e s f) l.world ≡ (record_stage (traced e) s f l).world
  unfolding play record_stage
  play-record_stage f l =
      sym (world-record_result e s ((traced e).recorder.record_finding f l.world) l)

  play-deliver_result :
      (f : Finding) (r : Option Error × (W × Log)) (l : Loop (W × Log))
      → play e (posted_next e s f r.0) r.1 ≡ (deliver_result (traced e) s f r l).world
  unfolding deliver_result posted_next count play
  play-deliver_result f (some x, w) l = refl
  play-deliver_result f (none, w) l =
      play-record_stage f (count (traced e) s Counter.delivered (record l { world = w }))

  play-deliver_stage :
      (v : Verdict) (l : Loop (W × Log))
      → play e (deliver_script e s v) l.world ≡ (deliver_stage (traced e) s v l).world
  unfolding deliver_stage deliver_script play count
  play-deliver_stage v l =
      let f = finding_of e.cfg s v in
      elim (Bool-cases (fge v.fit e.cfg.thresholds.realtime)) [
        | inl now ↦ rw now (play-deliver_result f ((traced e).sink.deliver f l.world) l)
        | inr later ↦ rw later (play-record_stage f (count (traced e) s Counter.digest l))
      ]

  play-classify_result :
      (r : Result Verdict × (W × Log)) (l : Loop (W × Log))
      → play e (judged_next e s r.0) r.1 ≡ (classify_result (traced e) s r l).world
  unfolding classify_result judged_next count mark play
  play-classify_result (err x, w) l = refl
  play-classify_result (ok v, w) l = elim (Bool-cases (is_dropped e.cfg v)) [
    | inl noise ↦ rw noise refl
    | inr wanted ↦ rw wanted (play-deliver_stage v (record l { world = w }))
  ]

  play-seen_result :
      (r : Result Bool × (W × Log)) (l : Loop (W × Log))
      → play e (asked_next e s r.0) r.1 ≡ (seen_result (traced e) s r l).world
  unfolding seen_result asked_next count mark play classify_stage is_filtered
  play-seen_result (err x, w) l = refl
  play-seen_result (ok true, w) l = refl
  play-seen_result (ok false, w) l = elim (Bool-cases (is_filtered e s)) [
    | inl off ↦ rw off refl
    | inr passes ↦ rw passes (
        play-classify_result ((traced e).classifier.classify s e.context w)
          (count (traced e) s Counter.classified (record l { world = w })))
  ]

  -- Playing the script of a signal has the effects of the loop's body on the world, and makes the same
  -- calls with the same answers.
  pub play-script_of :
      (l : Loop (W × Log)) → play e (script_of e s) l.world ≡ (process (traced e) s l).world
  unfolding process script_of count play
  play-script_of l = elim (Bool-cases (is_stale e.max_age e.now s)) [
    | inl old ↦ rw old refl
    | inr fresh ↦
        rw fresh (play-seen_result ((traced e).deduper.seen e.cfg.name s.source s.id l.world) l)
  ]
