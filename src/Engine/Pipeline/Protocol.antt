-- ===== src/Engine/Pipeline/Protocol.antt =====
-- The order in which the loop calls its ports for one signal, and what the answers decide.
use if_sos_beacon.Base.{
  ◌≡◌, refl, Bool, true, false, Option, none, some, [], ◌∷◌, ◌++◌, ap, ◌∙◌, sym, append_assoc,
  append-nil, Bool-cases, inl, inr,
}
use if_sos_beacon.Base.Floats.{fge}
use if_sos_beacon.Base.Errors.{Error, Result, ok, err}
use if_sos_beacon.Core.{Signal, Verdict, Finding}
use if_sos_beacon.Engine.Tally.{Counter}
use if_sos_beacon.Engine.Pipeline.{
  Env, Loop, is_stale, is_filtered, is_dropped, finding_of, count, mark, record_result,
  record_stage, deliver_result, deliver_stage, classify_result, classify_stage, seen_result,
  process,
}
use if_sos_beacon.Engine.Pipeline.Trace.{Call, Log, asked, marked, judged, posted, recorded, traced}

module _ {W : Type 0} (e : Env W) (s : Signal) where
  -- Where the loop turns once a verdict is there.
  pub data Acts (v : Verdict) : Log → Type 0 where
    dropped :
        (x : Option Error)
        → is_dropped e.cfg v ≡ true
        → Acts v (marked e.cfg.name s.source s.id x ∷ [])
    refused :
        (x : Error)
        → is_dropped e.cfg v ≡ false
        → fge v.fit e.cfg.thresholds.realtime ≡ true
        → Acts v (posted (finding_of e.cfg s v) (some x) ∷ [])
    delivered :
        (x : Option Error)
        → is_dropped e.cfg v ≡ false
        → fge v.fit e.cfg.thresholds.realtime ≡ true
        → Acts v (posted (finding_of e.cfg s v) none ∷ recorded (finding_of e.cfg s v) x ∷ [])
    batched :
        (x : Option Error)
        → is_dropped e.cfg v ≡ false
        → fge v.fit e.cfg.thresholds.realtime ≡ false
        → Acts v (recorded (finding_of e.cfg s v) x ∷ [])

  -- What follows the dedupe check of a signal that is new to the beacon.
  pub data Judges : Log → Type 0 where
    filtered :
        (x : Option Error)
        → is_filtered e s ≡ true
        → Judges (marked e.cfg.name s.source s.id x ∷ [])
    unjudged : (x : Error) → is_filtered e s ≡ false → Judges (judged s (err x) ∷ [])
    acts :
        (v : Verdict) {cs : Log}
        → is_filtered e s ≡ false
        → Acts v cs
        → Judges (judged s (ok v) ∷ cs)

  -- All the calls for one signal.
  pub data Handles : Log → Type 0 where
    stale : is_stale e.max_age e.now s ≡ true → Handles []
    unsure :
        (x : Error)
        → is_stale e.max_age e.now s ≡ false
        → Handles (asked e.cfg.name s.source s.id (err x) ∷ [])
    known :
        is_stale e.max_age e.now s ≡ false → Handles (asked e.cfg.name s.source s.id (ok true) ∷ [])
    new :
        {cs : Log}
        → is_stale e.max_age e.now s ≡ false
        → Judges cs
        → Handles (asked e.cfg.name s.source s.id (ok false) ∷ cs)

-- The log grew by calls of the kind `P`.
abbrev pub Grows : {W : Type 0} → (Log → Type 0) → Log → Loop (W × Log) → Type 0
Grows P log l = (cs : Log) × (l.world.1 ≡ log ++ cs) × P cs

regroup :
    (log a b : Log) (c : Call) (cs : Log) → a ≡ b ++ cs → b ≡ log ++ c ∷ [] → a ≡ log ++ (c ∷ cs)
regroup log a b c cs p q = p ∙ ap (λ x. x ++ cs) q ∙ append_assoc log (c ∷ []) cs

module _ {W : Type 0} (e : Env W) (s : Signal) where
  -- The tally does not touch the world, so the log after `record_stage` ends in its call.
  pub world-record_result :
      (r : Option Error × (W × Log)) (l : Loop (W × Log))
      → (record_result (traced e) s r l).world ≡ r.1
  unfolding record_result count
  world-record_result (none, w) l = refl
  world-record_result (some x, w) l = refl

  log-record_stage :
      (f : Finding) (l : Loop (W × Log))
      → (x : Option Error) × ((record_stage (traced e) s f l).world.1
          ≡ l.world.1 ++ recorded f x ∷ [])
  unfolding record_stage
  log-record_stage f l = (
    (e.recorder.record_finding f l.world.0).0,
    ap (λ w. w.1) (world-record_result ((traced e).recorder.record_finding f l.world) l),
  )

  module _ (v : Verdict) (wanted : is_dropped e.cfg v ≡ false)
      (now : fge v.fit e.cfg.thresholds.realtime ≡ true) where
    deliver_result-Acts :
        (log : Log) (r : Option Error × (W × Log)) (l : Loop (W × Log))
        → r.1.1 ≡ log ++ posted (finding_of e.cfg s v) r.0 ∷ []
        → Grows (Acts e s v) log (deliver_result (traced e) s (finding_of e.cfg s v) r l)
    unfolding deliver_result count
    deliver_result-Acts log (some x, w) l h =
        (posted (finding_of e.cfg s v) (some x) ∷ [], h, refused x wanted now)
    deliver_result-Acts log (none, w) l h =
        let f = finding_of e.cfg s v in
        let (x, g) =
          log-record_stage f (count (traced e) s Counter.delivered (record l { world = w })) in
        (
          posted f none ∷ recorded f x ∷ [],
          regroup log _ _ (posted f none) _ g h,
          delivered x wanted now,
        )

  deliver_stage-Acts :
      (v : Verdict) (l : Loop (W × Log))
      → is_dropped e.cfg v ≡ false
      → Grows (Acts e s v) l.world.1 (deliver_stage (traced e) s v l)
  unfolding deliver_stage count
  deliver_stage-Acts v l wanted =
      let f = finding_of e.cfg s v in
      elim (Bool-cases (fge v.fit e.cfg.thresholds.realtime)) [
        | inl now ↦
            rw now (
              deliver_result-Acts v wanted now l.world.1 ((traced e).sink.deliver f l.world) l refl)
        | inr later ↦
            let (x, g) = log-record_stage f (count (traced e) s Counter.digest l) in
            rw later (recorded f x ∷ [], g, batched x wanted later)
      ]

  classify_result-Judges :
      (log : Log) (r : Result Verdict × (W × Log)) (l : Loop (W × Log))
      → is_filtered e s ≡ false
      → r.1.1 ≡ log ++ judged s r.0 ∷ []
      → Grows (Judges e s) log (classify_result (traced e) s r l)
  unfolding classify_result count mark
  classify_result-Judges log (err x, w) l passes h = (judged s (err x) ∷ [], h, unjudged x passes)
  classify_result-Judges log (ok v, w) l passes h = elim (Bool-cases (is_dropped e.cfg v)) [
    | inl noise ↦
        let x = (e.deduper.mark_seen e.cfg.name s.source s.id w.0).0 in
        let c = marked e.cfg.name s.source s.id x in
        rw noise (
          judged s (ok v) ∷ c ∷ [],
          regroup log _ _ (judged s (ok v)) (c ∷ []) refl h,
          acts v passes (dropped x noise),
        )
    | inr wanted ↦
        let (cs, g, a) = deliver_stage-Acts v (record l { world = w }) wanted in
        rw wanted (judged s (ok v) ∷ cs, regroup log _ _ (judged s (ok v)) cs g h, acts v passes a)
  ]

  seen_result-Handles :
      (log : Log) (r : Result Bool × (W × Log)) (l : Loop (W × Log))
      → is_stale e.max_age e.now s ≡ false
      → r.1.1 ≡ log ++ asked e.cfg.name s.source s.id r.0 ∷ []
      → Grows (Handles e s) log (seen_result (traced e) s r l)
  unfolding seen_result count mark classify_stage is_filtered
  seen_result-Handles log (err x, w) l fresh h =
      (asked e.cfg.name s.source s.id (err x) ∷ [], h, unsure x fresh)
  seen_result-Handles log (ok true, w) l fresh h =
      (asked e.cfg.name s.source s.id (ok true) ∷ [], h, known fresh)
  seen_result-Handles log (ok false, w) l fresh h =
      let q = asked e.cfg.name s.source s.id (ok false) in
      elim (Bool-cases (is_filtered e s)) [
        | inl off ↦
            let x = (e.deduper.mark_seen e.cfg.name s.source s.id w.0).0 in
            let c = marked e.cfg.name s.source s.id x in
            rw off (q ∷ c ∷ [], regroup log _ _ q (c ∷ []) refl h, new fresh (filtered x off))
        | inr passes ↦
            let (cs, g, j) =
              classify_result-Judges w.1 ((traced e).classifier.classify s e.context w)
                (count (traced e) s Counter.classified (record l { world = w })) passes refl in
            rw passes (q ∷ cs, regroup log _ _ q cs g h, new fresh j)
      ]

  -- For one signal the loop makes one of the call sequences of `Handles`, with the conditions that
  -- stand there: the dedupe check first; the classifier only for a signal that is new and passes the
  -- keyword gate; the sink only for a verdict that is not dropped and reaches the realtime threshold;
  -- Record only after a delivery that succeeded or for a digest; MarkSeen only for what is filtered
  -- out or dropped. So after a failed check, classification or delivery nothing is marked.
  pub process-Handles :
      (l : Loop (W × Log)) → Grows (Handles e s) l.world.1 (process (traced e) s l)
  unfolding process count
  process-Handles l = elim (Bool-cases (is_stale e.max_age e.now s)) [
    | inl old ↦ rw old ([], sym (append-nil l.world.1), stale old)
    | inr fresh ↦ rw fresh (
        seen_result-Handles l.world.1 ((traced e).deduper.seen e.cfg.name s.source s.id l.world) l
          fresh refl)
  ]
