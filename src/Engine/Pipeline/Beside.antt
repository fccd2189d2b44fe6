-- ===== src/Engine/Pipeline/Beside.antt =====
-- The loop over the signals, where the ports keep something beside the world and answer as they do
-- without it: its counters and its world are the same.
use if_sos_beacon.Base.{
  Text, ◌≡◌, refl, ap, ◌∙◌, Bool, true, false, Bool-cases, Option, none, some, List, [], ◌∷◌, inl,
  inr,
}
use if_sos_beacon.Base.Floats.{fge}
use if_sos_beacon.Base.Errors.{Error, Result, ok, err}
use if_sos_beacon.Core.{
  Signal, Verdict, Finding, BeaconContext, Classifier, Sink, Deduper, Recorder,
}
use if_sos_beacon.Engine.Tally.{Counter}
use if_sos_beacon.Engine.Pipeline.Trace.{Log, traced}
use if_sos_beacon.Engine.Pipeline.{
  Env, Loop, is_stale, is_filtered, is_dropped, finding_of, count, mark, record_result,
  record_stage, deliver_result, deliver_stage, classify_result, classify_stage, seen_result,
  process, process_all,
}

module _ {W X : Type 0} where
  abbrev pub forget {ℓ} : {A : Type ℓ} → A × (W × X) → A × W
  forget (a, (w, x)) = (a, w)

  abbrev pub plain_loop : Loop (W × X) → Loop W
  plain_loop l = record { tally = l.tally; world = l.world.0 }

  -- The environment with other ports.
  abbrev pub over :
      Env W → Classifier (W × X) → Sink (W × X) → Deduper (W × X) → Recorder (W × X) → Env (W × X)
  over e cl sk dd rc = record {
    platform = e.platform;
    cfg = e.cfg;
    context = e.context;
    classifier = cl;
    sink = sk;
    deduper = dd;
    recorder = rc;
    max_age = e.max_age;
    now = e.now;
    prefiltered = e.prefiltered;
  }

  -- These ports answer as those of the environment.
  pub record Answers (e : Env W) (cl : Classifier (W × X)) (sk : Sink (W × X))
      (dd : Deduper (W × X)) (rc : Recorder (W × X)) : Type 0 where
    pub on_classify :
        (s : Signal) (bc : BeaconContext) (o : W × X)
        → forget (cl.classify s bc o) ≡ e.classifier.classify s bc o.0
    pub on_deliver : (f : Finding) (o : W × X) → forget (sk.deliver f o) ≡ e.sink.deliver f o.0
    pub on_seen :
        (b src i : Text) (o : W × X) → forget (dd.seen b src i o) ≡ e.deduper.seen b src i o.0
    pub on_mark :
        (b src i : Text) (o : W × X)
        → forget (dd.mark_seen b src i o) ≡ e.deduper.mark_seen b src i o.0
    pub on_record :
        (f : Finding) (o : W × X) → forget (rc.record_finding f o) ≡ e.recorder.record_finding f o.0

  module _ (e : Env W) (cl : Classifier (W × X)) (sk : Sink (W × X)) (dd : Deduper (W × X))
      (rc : Recorder (W × X)) (a : Answers e cl sk dd rc) where
    abbrev e' : Env (W × X)
    e' = over e cl sk dd rc

    module _ (s : Signal) where
      mark-over : (l : Loop (W × X)) → plain_loop (mark e' s l) ≡ mark e s (plain_loop l)
      unfolding mark
      mark-over l =
          ap (λ r. record { tally = l.tally; world = r.1 })
            (a.on_mark e.cfg.name s.source s.id l.world)

      record_result-over :
          (r : Option Error × (W × X)) (l : Loop (W × X))
          → plain_loop (record_result e' s r l) ≡ record_result e s (forget r) (plain_loop l)
      unfolding record_result count
      record_result-over (none, o) l = refl
      record_result-over (some x, o) l = refl

      record_stage-over :
          (f : Finding) (l : Loop (W × X))
          → plain_loop (record_stage e' s f l) ≡ record_stage e s f (plain_loop l)
      unfolding record_stage
      record_stage-over f l =
          record_result-over (rc.record_finding f l.world) l
          ∙ ap (λ r. record_result e s r (plain_loop l)) (a.on_record f l.world)

      deliver_result-over :
          (f : Finding) (r : Option Error × (W × X)) (l : Loop (W × X))
          → plain_loop (deliver_result e' s f r l) ≡ deliver_result e s f (forget r) (plain_loop l)
      unfolding deliver_result count
      deliver_result-over f (some x, o) l = refl
      deliver_result-over f (none, o) l =
          record_stage-over f (count e' s Counter.delivered (record l { world = o }))

      deliver_stage-over :
          (v : Verdict) (l : Loop (W × X))
          → plain_loop (deliver_stage e' s v l) ≡ deliver_stage e s v (plain_loop l)
      unfolding deliver_stage count
      deliver_stage-over v l = elim (Bool-cases (fge v.fit e.cfg.thresholds.realtime)) [
        | inl now ↦
            let f = finding_of e.cfg s v in
            rw now (
              deliver_result-over f (sk.deliver f l.world) l
              ∙ ap (λ r. deliver_result e s f r (plain_loop l)) (a.on_deliver f l.world))
        | inr later ↦
            rw later (record_stage-over (finding_of e.cfg s v) (count e' s Counter.digest l))
      ]

      classify_result-over :
          (r : Result Verdict × (W × X)) (l : Loop (W × X))
          → plain_loop (classify_result e' s r l) ≡ classify_result e s (forget r) (plain_loop l)
      unfolding classify_result count
      classify_result-over (err x, o) l = refl
      classify_result-over (ok v, o) l = elim (Bool-cases (is_dropped e.cfg v)) [
        | inl out ↦ rw out (mark-over (count e' s Counter.dropped (record l { world = o })))
        | inr fit ↦ rw fit (deliver_stage-over v (record l { world = o }))
      ]

      classify_stage-over :
          (l : Loop (W × X))
          → plain_loop (classify_stage e' s l) ≡ classify_stage e s (plain_loop l)
      unfolding classify_stage count
      classify_stage-over l =
          let l' = count e' s Counter.classified l in
          classify_result-over (cl.classify s e.context l.world) l'
          ∙ ap (λ r. classify_result e s r (plain_loop l')) (a.on_classify s e.context l.world)

      seen_result-over :
          (r : Result Bool × (W × X)) (l : Loop (W × X))
          → plain_loop (seen_result e' s r l) ≡ seen_result e s (forget r) (plain_loop l)
      unfolding seen_result count is_filtered
      seen_result-over (err x, o) l = refl
      seen_result-over (ok true, o) l = refl
      seen_result-over (ok false, o) l = elim (Bool-cases (is_filtered e s)) [
        | inl out ↦ rw out (mark-over (count e' s Counter.filtered (record l { world = o })))
        | inr fit ↦ rw fit (classify_stage-over (record l { world = o }))
      ]

      process-over : (l : Loop (W × X)) → plain_loop (process e' s l) ≡ process e s (plain_loop l)
      unfolding process count
      process-over l = elim (Bool-cases (is_stale e.max_age e.now s)) [
        | inl old ↦ rw old refl
        | inr fresh ↦ rw fresh (
            seen_result-over (dd.seen e.cfg.name s.source s.id l.world) l
            ∙ ap (λ r. seen_result e s r (plain_loop l))
                (a.on_seen e.cfg.name s.source s.id l.world))
      ]

    pub process_all-over :
        (ss : List Signal) (l : Loop (W × X))
        → plain_loop (process_all e' ss l) ≡ process_all e ss (plain_loop l)
    unfolding process_all
    process_all-over [] l = refl
    process_all-over (s ∷ ss) l =
        process_all-over ss (process e' s l) ∙ ap (process_all e ss) (process-over s l)

-- The log of a traced loop leaves its counters and its world as they are.
pub process_all-traced :
    {W : Type 0} (e : Env W) (ss : List Signal) (l : Loop (W × Log))
    → plain_loop (process_all (traced e) ss l) ≡ process_all e ss (plain_loop l)
process_all-traced e ss l =
    process_all-over e (traced e).classifier (traced e).sink (traced e).deduper (traced e).recorder
      (record {
        on_classify = λ s bc o. refl;
        on_deliver = λ f o. refl;
        on_seen = λ b src i o. refl;
        on_mark = λ b src i o. refl;
        on_record = λ f o. refl;
      })
      ss l
