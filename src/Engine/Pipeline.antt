-- ===== src/Engine/Pipeline.antt =====
-- The body of the loop over the signals in RunBeacon. Log lines have no effect on the run and are left
-- out; Engine/Spans has the spans. The state of the loop is the tally and the outside world.
pub mod Balance
pub mod Logged
pub mod Counts
pub mod Trace
pub mod Protocol
pub mod Dedupe
pub mod Once
pub mod Script
pub mod Keeps
pub mod Beside
use if_sos_beacon.Base.{
  Text, codes, ◌=ᵗ◌, Bool, true, false, not, ◌&&◌, ◌||◌, Option, none, some, List, [], ◌∷◌, ◌==◌,
  leb, if◌then◌else◌,
}
use if_sos_beacon.Base.Int.{ℤ, pos, negsuc, ◌-ℤ◌, ltb_ℤ}
use if_sos_beacon.Base.Floats.{flt, fge}
use if_sos_beacon.Base.Maps.{Map, lookup}
use if_sos_beacon.Base.Errors.{Error, Result, ok, err}
use if_sos_beacon.Base.Go.{Platform, time_sub}
use if_sos_beacon.Core.{
  Time, Duration, Signal, Verdict, Finding, BeaconContext, Classifier, Sink, Deduper, Recorder,
}
use if_sos_beacon.Config.{BeaconConfig}
use if_sos_beacon.Filter.{matches}
use if_sos_beacon.Engine.Tally
use if_sos_beacon.Engine.Tally.{Tally, Counter, bump}

-- t.IsZero()
abbrev pub is_zero_time : Time → Bool
is_zero_time (pos n) = n == 0
is_zero_time (negsuc n) = false

-- maxAge > 0 && !s.CreatedAt.IsZero() && now.Sub(s.CreatedAt) > maxAge
unfoldable pub is_stale : Duration → Time → Signal → Bool
unfolding time_sub
is_stale max_age now s =
    ltb_ℤ (pos 0) max_age
    && not (is_zero_time s.created_at)
    && ltb_ℤ max_age (time_sub now s.created_at)

-- A missing key of the map reads false.
unfoldable pub flag : Map Bool → Text → Bool
flag m k = elim (lookup k m) [ none ↦ false | some b ↦ b ]

pub record Loop (W : Type 0) : Type 0 where
  pub tally : Tally
  pub world : W

-- What is fixed while the loop runs.
pub record Env (W : Type 0) : Type 0 where
  pub platform : Platform
  pub cfg : BeaconConfig
  pub context : BeaconContext
  pub classifier : Classifier W
  pub sink : Sink W
  pub deduper : Deduper W
  pub recorder : Recorder W
  pub max_age : Duration
  pub now : Time
  pub prefiltered : Map Bool

-- The verdict is noise, or its fit is below the digest threshold.
unfoldable pub is_dropped : BeaconConfig → Verdict → Bool
is_dropped cfg v = v.bucket =ᵗ codes "noise" || flt v.fit cfg.thresholds.digest

-- The signal is to be matched against the keywords, and does not match.
unfoldable pub is_filtered : {W : Type 0} → Env W → Signal → Bool
unfolding flag
is_filtered e s =
    not (flag e.prefiltered s.source)
    && not s.prenarrowed
    && not (matches e.platform s e.cfg.keywords e.cfg.filter)

abbrev pub finding_of : BeaconConfig → Signal → Verdict → Finding
finding_of cfg s v = record { beacon = cfg.name; signal = s; verdict = v }

module _ {W : Type 0} (e : Env W) (s : Signal) where
  -- src.Counter++
  count : Counter → Loop W → Loop W
  count c l = record l { tally = bump c 1 s.source l.tally }

  -- MarkSeen; its error is only logged.
  mark : Loop W → Loop W
  mark l = record l { world = (e.deduper.mark_seen e.cfg.name s.source s.id l.world).1 }

  pub record_result : Option Error × W → Loop W → Loop W
  unfolding count
  record_result (none, w) l = record l { world = w }
  record_result (some x, w) l = count Counter.errors (record l { world = w })

  record_stage : Finding → Loop W → Loop W
  unfolding record_result
  record_stage f l = record_result (e.recorder.record_finding f l.world) l

  deliver_result : Finding → Option Error × W → Loop W → Loop W
  unfolding count record_stage
  deliver_result f (some x, w) l = count Counter.errors (record l { world = w })
  deliver_result f (none, w) l = record_stage f (count Counter.delivered (record l { world = w }))

  deliver_stage : Verdict → Loop W → Loop W
  unfolding deliver_result record_stage count
  deliver_stage v l =
      let f = finding_of e.cfg s v in
      if fge v.fit e.cfg.thresholds.realtime
      then deliver_result f (e.sink.deliver f l.world) l
      else record_stage f (count Counter.digest l)

  classify_result : Result Verdict × W → Loop W → Loop W
  unfolding count mark deliver_stage
  classify_result (err x, w) l = count Counter.errors (record l { world = w })
  classify_result (ok v, w) l =
      let l' = record l { world = w } in
      if is_dropped e.cfg v then mark (count Counter.dropped l') else deliver_stage v l'

  classify_stage : Loop W → Loop W
  unfolding classify_result count
  classify_stage l =
      classify_result (e.classifier.classify s e.context l.world) (count Counter.classified l)

  seen_result : Result Bool × W → Loop W → Loop W
  unfolding count mark classify_stage
  seen_result (err x, w) l = count Counter.errors (record l { world = w })
  seen_result (ok true, w) l = count Counter.seen (record l { world = w })
  seen_result (ok false, w) l =
      let l' = record l { world = w } in
      if is_filtered e s then mark (count Counter.filtered l') else classify_stage l'

  unfoldable pub process : Loop W → Loop W
  unfolding seen_result count
  process l =
      if is_stale e.max_age e.now s
      then count Counter.stale l
      else seen_result (e.deduper.seen e.cfg.name s.source s.id l.world) l

unfoldable pub process_all : {W : Type 0} → Env W → List Signal → Loop W → Loop W
unfolding process
process_all e [] l = l
process_all e (s ∷ ss) l = process_all e ss (process e s l)
