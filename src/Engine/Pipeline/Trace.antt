-- ===== src/Engine/Pipeline/Trace.antt =====
-- The loop of RunBeacon observed at its ports: each call is written to a log with its answer. The
-- ports answer as they do without the log.
use if_sos_beacon.Base.{Text, Bool, Option, List, [], ◌∷◌, ◌++◌}
use if_sos_beacon.Base.Errors.{Error, Result}
use if_sos_beacon.Core.{Signal, Verdict, Finding, Classifier, Sink, Deduper, Recorder}
use if_sos_beacon.Engine.Pipeline.{Env}

pub data Call : Type 0 where
  asked : Text → Text → Text → Result Bool → Call
  marked : Text → Text → Text → Option Error → Call
  judged : Signal → Result Verdict → Call
  posted : Finding → Option Error → Call
  recorded : Finding → Option Error → Call

abbrev pub Log : Type 0
Log = List Call

-- A port's answer, with the call that it belongs to written to the log.
abbrev pub note {ℓ} : {W : Type 0} {A : Type ℓ} → (A → Call) → Log → A × W → A × (W × Log)
note call log (a, w) = (a, (w, log ++ call a ∷ []))

module _ {W : Type 0} where
  abbrev traced_deduper : Deduper W → Deduper (W × Log)
  traced_deduper d = record {
    seen = λ b s i wl. note (asked b s i) wl.1 (d.seen b s i wl.0);
    mark_seen = λ b s i wl. note (marked b s i) wl.1 (d.mark_seen b s i wl.0);
  }

  abbrev traced_recorder : Recorder W → Recorder (W × Log)
  traced_recorder r = record {
    record_finding = λ f wl. note (recorded f) wl.1 (r.record_finding f wl.0);
  }

  abbrev traced_sink : Sink W → Sink (W × Log)
  traced_sink k = record { deliver = λ f wl. note (posted f) wl.1 (k.deliver f wl.0) }

  abbrev traced_classifier : Classifier W → Classifier (W × Log)
  traced_classifier c = record { classify = λ s bc wl. note (judged s) wl.1 (c.classify s bc wl.0) }

  abbrev pub traced : Env W → Env (W × Log)
  traced e = record {
    platform = e.platform;
    cfg = e.cfg;
    context = e.context;
    classifier = traced_classifier e.classifier;
    sink = traced_sink e.sink;
    deduper = traced_deduper e.deduper;
    recorder = traced_recorder e.recorder;
    max_age = e.max_age;
    now = e.now;
    prefiltered = e.prefiltered;
  }
