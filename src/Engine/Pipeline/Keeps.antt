-- ===== src/Engine/Pipeline/Keeps.antt =====
-- What every call of the ports keeps, the loop over the signals keeps.
use if_sos_beacon.Base.{
  Text, Bool, Bool-cases, true, false, Option, none, some, List, [], ◌∷◌, inl, inr,
}
use if_sos_beacon.Base.Floats.{fge}
use if_sos_beacon.Base.Errors.{Error, Result, ok, err}
use if_sos_beacon.Core.{
  Signal, Verdict, Finding, BeaconContext, Classifier, Sink, Deduper, Recorder,
}
use if_sos_beacon.Engine.Tally.{Counter}
use if_sos_beacon.Engine.Pipeline.{
  Env, Loop, is_stale, is_filtered, is_dropped, finding_of, count, mark, record_result,
  record_stage, deliver_result, deliver_stage, classify_result, classify_stage, seen_result,
  process, process_all,
}

module _ {W : Type 0} (I : W → Type 0) where
  -- The calls of the ports of a run keep the predicate.
  pub record PortsKeep (cl : Classifier W) (sk : Sink W) (dd : Deduper W) (rc : Recorder W)
      : Type 0 where
    pub on_classify : (s : Signal) (bc : BeaconContext) (w : W) → I w → I (cl.classify s bc w).1
    pub on_deliver : (f : Finding) (w : W) → I w → I (sk.deliver f w).1
    pub on_seen : (b src i : Text) (w : W) → I w → I (dd.seen b src i w).1
    pub on_mark : (b src i : Text) (w : W) → I w → I (dd.mark_seen b src i w).1
    pub on_record : (f : Finding) (w : W) → I w → I (rc.record_finding f w).1

  abbrev pub EnvKeeps : Env W → Type 0
  EnvKeeps e = PortsKeep e.classifier e.sink e.deduper e.recorder

  module _ (e : Env W) (k : EnvKeeps e) (s : Signal) where
    mark-keeps : (l : Loop W) → I l.world → I (mark e s l).world
    unfolding mark
    mark-keeps l h = k.on_mark e.cfg.name s.source s.id l.world h

    record_result-keeps :
        (r : Option Error × W) (l : Loop W) → I r.1 → I (record_result e s r l).world
    unfolding record_result count
    record_result-keeps (none, w) l h = h
    record_result-keeps (some x, w) l h = h

    record_stage-keeps : (f : Finding) (l : Loop W) → I l.world → I (record_stage e s f l).world
    unfolding record_stage
    record_stage-keeps f l h = record_result-keeps _ l (k.on_record f l.world h)

    deliver_result-keeps :
        (f : Finding) (r : Option Error × W) (l : Loop W)
        → I r.1
        → I (deliver_result e s f r l).world
    unfolding deliver_result count
    deliver_result-keeps f (some x, w) l h = h
    deliver_result-keeps f (none, w) l h = record_stage-keeps f _ h

    deliver_stage-keeps : (v : Verdict) (l : Loop W) → I l.world → I (deliver_stage e s v l).world
    unfolding deliver_stage count
    deliver_stage-keeps v l h = elim (Bool-cases (fge v.fit e.cfg.thresholds.realtime)) [
      | inl now ↦ rw now (
          deliver_result-keeps (finding_of e.cfg s v) _ l
            (k.on_deliver (finding_of e.cfg s v) l.world h))
      | inr later ↦ rw later (record_stage-keeps (finding_of e.cfg s v) _ h)
    ]

    classify_result-keeps :
        (r : Result Verdict × W) (l : Loop W) → I r.1 → I (classify_result e s r l).world
    unfolding classify_result count
    classify_result-keeps (err x, w) l h = h
    classify_result-keeps (ok v, w) l h = elim (Bool-cases (is_dropped e.cfg v)) [
      | inl out ↦ rw out (mark-keeps (count e s Counter.dropped (record l { world = w })) h)
      | inr fit ↦ rw fit (deliver_stage-keeps v (record l { world = w }) h)
    ]

    seen_result-keeps : (r : Result Bool × W) (l : Loop W) → I r.1 → I (seen_result e s r l).world
    unfolding seen_result classify_stage count
    seen_result-keeps (err x, w) l h = h
    seen_result-keeps (ok true, w) l h = h
    seen_result-keeps (ok false, w) l h = elim (Bool-cases (is_filtered e s)) [
      | inl out ↦ rw out (mark-keeps (count e s Counter.filtered (record l { world = w })) h)
      | inr fit ↦ rw fit (
          classify_result-keeps _ (count e s Counter.classified (record l { world = w }))
            (k.on_classify s e.context w h))
    ]

    process-keeps : (l : Loop W) → I l.world → I (process e s l).world
    unfolding process count
    process-keeps l h = elim (Bool-cases (is_stale e.max_age e.now s)) [
      | inl old ↦ rw old h
      | inr fresh ↦ rw fresh (seen_result-keeps _ l (k.on_seen e.cfg.name s.source s.id l.world h))
    ]

  pub process_all-keeps :
      (e : Env W)
      → EnvKeeps e
      → (ss : List Signal) (l : Loop W) → I l.world
      → I (process_all e ss l).world
  unfolding process_all
  process_all-keeps e k [] l h = h
  process_all-keeps e k (s ∷ ss) l h = process_all-keeps e k ss _ (process-keeps e k s l h)
