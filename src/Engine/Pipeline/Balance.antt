-- ===== src/Engine/Pipeline/Balance.antt =====
-- The funnel adds up: every signal that the loop handles ends in exactly one place, counted.
use if_sos_beacon.Base.{
  ℕ, suc, ◌+◌, ◌≤◌, Bool, true, false, Option, none, some, List, [], ◌∷◌, arith, length, Bool-cases,
  inl, inr,
}
use if_sos_beacon.Base.Floats.{fge}
use if_sos_beacon.Base.Errors.{Error, Result, ok, err}
use if_sos_beacon.Core.{Signal, Verdict, Finding}
use if_sos_beacon.Engine.Tally.{SourceStats, Counter, add_to}
use if_sos_beacon.Engine.Tally.Totals.{total, total-bump}
use if_sos_beacon.Engine.Pipeline.{
  Env, Loop, is_stale, is_filtered, is_dropped, finding_of, count, mark, record_result,
  record_stage, deliver_result, deliver_stage, classify_result, classify_stage, seen_result,
  process, process_all,
}

-- After `fetches` calls of a source: `waiting` signals are fetched and not yet handled, `open_verdicts`
-- verdicts are not yet acted on, and the signal at hand can meet `room` errors.
pub record Funnel (fetches waiting open_verdicts room : ℕ) (t : SourceStats) : Type 0 where
  pub passed : t.stale + t.seen + t.filtered + t.classified + waiting ≤ t.fetched
  pub settled :
      t.fetched + t.classified
      ≤ t.stale
        + t.seen
        + t.filtered
        + t.classified
        + (t.delivered + t.digest + t.dropped)
        + t.errors
        + waiting
        + open_verdicts
  pub verdicts : t.delivered + t.digest + t.dropped + open_verdicts ≤ t.classified
  pub noted :
      t.errors + t.stale + t.seen + t.filtered + t.dropped + waiting + room ≤ t.fetched + fetches

module _ {W : Type 0} (e : Env W) (s : Signal) (n : ℕ) where
  record_result-Funnel :
      (k : ℕ) (r : Option Error × W) (l : Loop W)
      → Funnel n k 0 1 (total l.tally)
      → Funnel n k 0 0 (total (record_result e s r l).tally)
  unfolding record_result count add_to
  record_result-Funnel k (none, w) l h = ground arith
  record_result-Funnel k (some x, w) l h =
      ground (arith, total-bump Counter.errors 1 s.source l.tally)

  record_stage-Funnel :
      (k : ℕ) (f : Finding) (l : Loop W)
      → Funnel n k 0 1 (total l.tally)
      → Funnel n k 0 0 (total (record_stage e s f l).tally)
  unfolding record_stage
  record_stage-Funnel k f l h = record_result-Funnel k (e.recorder.record_finding f l.world) l h

  deliver_result-Funnel :
      (k : ℕ) (f : Finding) (r : Option Error × W) (l : Loop W)
      → Funnel n k 1 1 (total l.tally)
      → Funnel n k 0 0 (total (deliver_result e s f r l).tally)
  unfolding deliver_result count add_to
  deliver_result-Funnel k f (some x, w) l h =
      ground (arith, total-bump Counter.errors 1 s.source l.tally)
  deliver_result-Funnel k f (none, w) l h =
      record_stage-Funnel k f (count e s Counter.delivered (record l { world = w }))
        (ground (arith, total-bump Counter.delivered 1 s.source l.tally))

  deliver_stage-Funnel :
      (k : ℕ) (v : Verdict) (l : Loop W)
      → Funnel n k 1 1 (total l.tally)
      → Funnel n k 0 0 (total (deliver_stage e s v l).tally)
  unfolding deliver_stage count add_to
  deliver_stage-Funnel k v l h =
      let f = finding_of e.cfg s v in
      elim (Bool-cases (fge v.fit e.cfg.thresholds.realtime)) [
        | inl now ↦ rw now (deliver_result-Funnel k f (e.sink.deliver f l.world) l h)
        | inr later ↦ rw later (
            record_stage-Funnel k f (count e s Counter.digest l)
              (ground (arith, total-bump Counter.digest 1 s.source l.tally)))
      ]

  classify_result-Funnel :
      (k : ℕ) (r : Result Verdict × W) (l : Loop W)
      → Funnel n k 1 1 (total l.tally)
      → Funnel n k 0 0 (total (classify_result e s r l).tally)
  unfolding classify_result count mark add_to
  classify_result-Funnel k (err x, w) l h =
      ground (arith, total-bump Counter.errors 1 s.source l.tally)
  classify_result-Funnel k (ok v, w) l h = elim (Bool-cases (is_dropped e.cfg v)) [
    | inl d ↦ rw d (ground (arith, total-bump Counter.dropped 1 s.source l.tally))
    | inr d ↦ rw d (deliver_stage-Funnel k v (record l { world = w }) h)
  ]

  classify_stage-Funnel :
      (k : ℕ) (l : Loop W)
      → Funnel n (suc k) 0 0 (total l.tally)
      → Funnel n k 0 0 (total (classify_stage e s l).tally)
  unfolding classify_stage count add_to
  classify_stage-Funnel k l h =
      classify_result-Funnel k (e.classifier.classify s e.context l.world)
        (count e s Counter.classified l)
        (ground (arith, total-bump Counter.classified 1 s.source l.tally))

  seen_result-Funnel :
      (k : ℕ) (r : Result Bool × W) (l : Loop W)
      → Funnel n (suc k) 0 0 (total l.tally)
      → Funnel n k 0 0 (total (seen_result e s r l).tally)
  unfolding seen_result count mark add_to
  seen_result-Funnel k (err x, w) l h = ground (arith, total-bump Counter.errors 1 s.source l.tally)
  seen_result-Funnel k (ok true, w) l h = ground (arith, total-bump Counter.seen 1 s.source l.tally)
  seen_result-Funnel k (ok false, w) l h = elim (Bool-cases (is_filtered e s)) [
    | inl f ↦ rw f (ground (arith, total-bump Counter.filtered 1 s.source l.tally))
    | inr f ↦ rw f (classify_stage-Funnel k (record l { world = w }) h)
  ]

  process-Funnel :
      (k : ℕ) (l : Loop W)
      → Funnel n (suc k) 0 0 (total l.tally)
      → Funnel n k 0 0 (total (process e s l).tally)
  unfolding process count add_to
  process-Funnel k l h = elim (Bool-cases (is_stale e.max_age e.now s)) [
    | inl f ↦ rw f (ground (arith, total-bump Counter.stale 1 s.source l.tally))
    | inr f ↦ rw f (seen_result-Funnel k (e.deduper.seen e.cfg.name s.source s.id l.world) l h)
  ]

-- The loop settles every signal that it is given.
pub process_all-Funnel :
    {W : Type 0} (e : Env W) (n : ℕ) (ss : List Signal) (l : Loop W)
    → Funnel n (length ss) 0 0 (total l.tally)
    → Funnel n 0 0 0 (total (process_all e ss l).tally)
unfolding process_all
process_all-Funnel e n [] l h = h
process_all-Funnel e n (s ∷ ss) l h =
    process_all-Funnel e n ss (process e s l) (process-Funnel e s n (length ss) l h)
