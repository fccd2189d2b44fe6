-- ===== src/Engine/Pipeline/Script.antt =====
-- The body of the loop over the signals (internal/engine/engine.go, RunBeacon) as a script: the calls of
-- the ports for one signal, each with what follows on its answer. Goroutines interleave at these calls.
pub mod Plays
use if_sos_beacon.Base.{Text, Bool, true, false, Option, none, some, if◌then◌else◌}
use if_sos_beacon.Base.Floats.{fge}
use if_sos_beacon.Base.Errors.{Error, Result, ok, err}
use if_sos_beacon.Core.{Signal, Verdict, Finding}
use if_sos_beacon.Engine.Pipeline.{Env, is_stale, is_filtered, is_dropped, finding_of}
use if_sos_beacon.Engine.Pipeline.Trace.{Log, traced}

pub data Script : Type 0 where
  finished : Script
  ask : Text → Text → Text → (Result Bool → Script) → Script
  mark : Text → Text → Text → (Option Error → Script) → Script
  judge : Signal → (Result Verdict → Script) → Script
  post : Finding → (Option Error → Script) → Script
  keep_finding : Finding → (Option Error → Script) → Script

module _ {W : Type 0} (e : Env W) (s : Signal) where
  abbrev pub record_script : Finding → Script
  record_script f = keep_finding f (λ x. finished)

  unfoldable pub posted_next : Finding → Option Error → Script
  posted_next f (some x) = finished
  posted_next f none = record_script f

  unfoldable pub deliver_script : Verdict → Script
  unfolding posted_next
  deliver_script v =
      let f = finding_of e.cfg s v in
      if fge v.fit e.cfg.thresholds.realtime then post f (posted_next f) else record_script f

  abbrev pub mark_script : Script
  mark_script = mark e.cfg.name s.source s.id (λ x. finished)

  unfoldable pub judged_next : Result Verdict → Script
  unfolding deliver_script
  judged_next (err x) = finished
  judged_next (ok v) = if is_dropped e.cfg v then mark_script else deliver_script v

  unfoldable pub asked_next : Result Bool → Script
  unfolding judged_next
  asked_next (err x) = finished
  asked_next (ok true) = finished
  asked_next (ok false) = if is_filtered e s then mark_script else judge s judged_next

  unfoldable pub script_of : Script
  unfolding asked_next
  script_of =
      if is_stale e.max_age e.now s then finished else ask e.cfg.name s.source s.id asked_next

-- The call in front, and what is left of the script.
module _ {W : Type 0} (e : Env W) where
  unfoldable pub perform : Script → W × Log → Script × (W × Log)
  perform finished wl = (finished, wl)
  perform (ask b s i k) wl = let (x, wl') = (traced e).deduper.seen b s i wl in (k x, wl')
  perform (mark b s i k) wl = let (x, wl') = (traced e).deduper.mark_seen b s i wl in (k x, wl')
  perform (judge s k) wl =
      let (x, wl') = (traced e).classifier.classify s e.context wl in (k x, wl')
  perform (post f k) wl = let (x, wl') = (traced e).sink.deliver f wl in (k x, wl')
  perform (keep_finding f k) wl =
      let (x, wl') = (traced e).recorder.record_finding f wl in (k x, wl')

  -- All its calls, with no other between them.
  unfoldable pub play : Script → W × Log → W × Log
  play finished wl = wl
  play (ask b s i k) wl = let (x, wl') = (traced e).deduper.seen b s i wl in play (k x) wl'
  play (mark b s i k) wl = let (x, wl') = (traced e).deduper.mark_seen b s i wl in play (k x) wl'
  play (judge s k) wl =
      let (x, wl') = (traced e).classifier.classify s e.context wl in play (k x) wl'
  play (post f k) wl = let (x, wl') = (traced e).sink.deliver f wl in play (k x) wl'
  play (keep_finding f k) wl =
      let (x, wl') = (traced e).recorder.record_finding f wl in play (k x) wl'
