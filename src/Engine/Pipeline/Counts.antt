-- ===== src/Engine/Pipeline/Counts.antt =====
-- The counters of the loop against the calls that it makes, as the trace has them.
use if_sos_beacon.Base.{
  ℕ, suc, ◌+◌, Bool, true, false, Option, none, some, List, [], ◌∷◌, ◌++◌, arith, length, keep,
  Bool-cases, inl, inr,
}
use if_sos_beacon.Base.Floats.{fge}
use if_sos_beacon.Base.Errors.{Error, Result, ok, err}
use if_sos_beacon.Core.{Signal, Verdict, Finding}
use if_sos_beacon.Engine.Tally.{Counter, bump, add_to, column_sums}
use if_sos_beacon.Engine.Tally.Totals.{total, total-bump}
use if_sos_beacon.Engine.Pipeline.Trace.{asked, marked, judged, posted, recorded, Log, traced}
use if_sos_beacon.Engine.Pipeline.Logged.{Logged, snoc}
use if_sos_beacon.Engine.Pipeline.{
  Env, Loop, is_stale, is_filtered, is_dropped, finding_of, count, mark, record_result,
  record_stage, deliver_result, deliver_stage, classify_result, classify_stage, seen_result,
  process, process_all,
}

module _ {W : Type 0} (e : Env W) (s : Signal) (n : ℕ) where
  abbrev Fits : ℕ → ℕ → Loop (W × Log) → Type 0
  Fits a b l = Logged n a b l.world.1 (total l.tally)

  mark-Fits : (l : Loop (W × Log)) → Fits 0 1 l → Fits 0 0 (mark (traced e) s l)
  unfolding mark
  mark-Fits l h =
      let x = (e.deduper.mark_seen e.cfg.name s.source s.id l.world.0).0 in
      let more = snoc l.world.1 (marked e.cfg.name s.source s.id x) in ground (arith, more)

  record_result-Fits :
      (f : Finding) (x : Option Error) (w : W) (l : Loop (W × Log))
      → Fits 1 0 l
      → Fits 0 0 (record_result (traced e) s (x, (w, l.world.1 ++ recorded f x ∷ [])) l)
  unfolding record_result count add_to
  record_result-Fits f none w l h =
      let more = snoc l.world.1 (recorded f none) in ground (arith, more)
  record_result-Fits f (some x) w l h =
      let more = snoc l.world.1 (recorded f (some x)) in
      ground (arith, more, total-bump Counter.errors 1 s.source l.tally)

  record_stage-Fits :
      (f : Finding) (l : Loop (W × Log)) → Fits 1 0 l → Fits 0 0 (record_stage (traced e) s f l)
  unfolding record_stage
  record_stage-Fits f l h =
      let (x, w) = e.recorder.record_finding f l.world.0 in record_result-Fits f x w l h

  deliver_result-Fits :
      (f : Finding) (x : Option Error) (w : W) (l : Loop (W × Log))
      → Fits 0 0 l
      → Fits 0 0 (deliver_result (traced e) s f (x, (w, l.world.1 ++ posted f x ∷ [])) l)
  unfolding deliver_result count add_to
  deliver_result-Fits f (some x) w l h =
      let more = snoc l.world.1 (posted f (some x)) in
      ground (arith, more, total-bump Counter.errors 1 s.source l.tally)
  deliver_result-Fits f none w l h =
      let more = snoc l.world.1 (posted f none) in
      record_stage-Fits f
        (count (traced e) s Counter.delivered
          (record l { world = (w, l.world.1 ++ posted f none ∷ []) }))
        (ground (arith, more, total-bump Counter.delivered 1 s.source l.tally))

  deliver_stage-Fits :
      (v : Verdict) (l : Loop (W × Log)) → Fits 0 0 l → Fits 0 0 (deliver_stage (traced e) s v l)
  unfolding deliver_stage count add_to
  deliver_stage-Fits v l h =
      let f = finding_of e.cfg s v in
      elim (Bool-cases (fge v.fit e.cfg.thresholds.realtime)) [
        | inl now ↦
            let (x, w) = e.sink.deliver f l.world.0 in rw now (deliver_result-Fits f x w l h)
        | inr later ↦ rw later (
            record_stage-Fits f (count (traced e) s Counter.digest l)
              (ground (arith, total-bump Counter.digest 1 s.source l.tally)))
      ]

  -- The verdict is in the log and counted at once.
  classify_result-Fits :
      (r : Result Verdict) (w : W) (l : Loop (W × Log))
      → Fits 0 0 l
      → Fits 0 0 (
          classify_result
            (traced e)
            s
            (r, (w, l.world.1 ++ judged s r ∷ []))
            (count (traced e) s Counter.classified l))
  unfolding classify_result count add_to
  classify_result-Fits (err x) w l h =
      let more = snoc l.world.1 (judged s (err x)) in
      ground (
        arith,
        more,
        total-bump Counter.errors 1 s.source (bump Counter.classified 1 s.source l.tally),
        total-bump Counter.classified 1 s.source l.tally,
      )
  classify_result-Fits (ok v) w l h =
      let more = snoc l.world.1 (judged s (ok v)) in
      let l' : Loop (W × Log) = record {
        tally = bump Counter.classified 1 s.source l.tally;
        world = (w, l.world.1 ++ judged s (ok v) ∷ []);
      } in
      let h' : Fits 0 0 l' =
        ground (arith, more, total-bump Counter.classified 1 s.source l.tally) in
      elim (Bool-cases (is_dropped e.cfg v)) [
        | inl d ↦ rw d (
            mark-Fits (count (traced e) s Counter.dropped l')
              (ground (arith, h', total-bump Counter.dropped 1 s.source l'.tally)))
        | inr d ↦ rw d (deliver_stage-Fits v l' h')
      ]

  classify_stage-Fits : (l : Loop (W × Log)) → Fits 0 0 l → Fits 0 0 (classify_stage (traced e) s l)
  unfolding classify_stage count
  classify_stage-Fits l h =
      let (r, w) = e.classifier.classify s e.context l.world.0 in classify_result-Fits r w l h

module _ {W : Type 0} (e : Env W) (s : Signal) (n : ℕ) where
  seen_result-Logged :
      (r : Result Bool) (w : W) (l : Loop (W × Log))
      → Logged n 0 0 l.world.1 (total l.tally)
      → let l' =
          seen_result (traced e) s (r, (w, l.world.1 ++ asked e.cfg.name s.source s.id r ∷ [])) l in
        Logged (suc n) 0 0 l'.world.1 (total l'.tally)
  unfolding seen_result count add_to
  seen_result-Logged (err x) w l h =
      let more = snoc l.world.1 (asked e.cfg.name s.source s.id (err x)) in
      ground (arith, more, total-bump Counter.errors 1 s.source l.tally)
  seen_result-Logged (ok true) w l h =
      let more = snoc l.world.1 (asked e.cfg.name s.source s.id (ok true)) in
      ground (arith, more, total-bump Counter.seen 1 s.source l.tally)
  seen_result-Logged (ok false) w l h =
      let more = snoc l.world.1 (asked e.cfg.name s.source s.id (ok false)) in
      let l' : Loop (W × Log) = record {
        tally = l.tally;
        world = (w, l.world.1 ++ asked e.cfg.name s.source s.id (ok false) ∷ []);
      } in
      let h' : Logged (suc n) 0 0 l'.world.1 (total l'.tally) = ground (arith, more) in
      elim (Bool-cases (is_filtered (traced e) s)) [
        | inl f ↦ rw f (
            mark-Fits e s (suc n) (count (traced e) s Counter.filtered l')
              (ground (arith, h', total-bump Counter.filtered 1 s.source l'.tally)))
        | inr f ↦ rw f (classify_stage-Fits e s (suc n) l' h')
      ]

  process-Logged :
      (l : Loop (W × Log))
      → Logged n 0 0 l.world.1 (total l.tally)
      → Logged (suc n) 0 0 (process (traced e) s l).world.1 (total (process (traced e) s l).tally)
  unfolding process count add_to
  process-Logged l h = elim (Bool-cases (is_stale e.max_age e.now s)) [
    | inl old ↦ rw old (ground (arith, total-bump Counter.stale 1 s.source l.tally))
    | inr new ↦
        let (r, w) = e.deduper.seen e.cfg.name s.source s.id l.world.0 in
        rw new (seen_result-Logged r w l h)
  ]

process_all-Logged :
    {W : Type 0} (e : Env W) (ss : List Signal) (n : ℕ) (l : Loop (W × Log))
    → Logged n 0 0 l.world.1 (total l.tally)
    → Logged
        (n + length ss)
        0
        0
        (process_all (traced e) ss l).world.1
        (total (process_all (traced e) ss l).tally)
unfolding process_all
process_all-Logged e [] n l h = ground (arith, h)
process_all-Logged e (s ∷ ss) n l h =
    let rest =
      process_all-Logged e ss (suc n) (process (traced e) s l) (process-Logged e s n l h) in
    ground (arith, rest)

-- The counters tell what the loop did. For signals handled with no counts before, and by the trace of
-- the calls: each signal is stale or is asked for once; `seen` counts the rows that the store has,
-- `classified` the calls of the classifier, `delivered` the posts that the sink accepted, `delivered`
-- and `digest` together the calls of Record, `filtered` and `dropped` together those of MarkSeen, and
-- `errors` the calls of Seen, the classifier, the sink and Record that answered an error.
pub process_all_counts :
    {W : Type 0} (e : Env W) (ss : List Signal) (w : W)
    → let l = process_all (traced e) ss (record { tally = []; world = (w, []) }) in
      Logged (length ss) 0 0 l.world.1 (total l.tally)
process_all_counts {W = W} e ss w =
    let start : Loop (W × Log) = record { tally = []; world = (w, []) } in
    let begun : Logged 0 0 0 [] (total []) = unfold keep column_sums in ground arith in
    let all = process_all-Logged e ss 0 start begun in ground (arith, all)
