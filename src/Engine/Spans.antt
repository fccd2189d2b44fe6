-- ===== src/Engine/Spans.antt =====
-- The spans of internal/engine/engine.go, RunBeacon: one for each fetch, classification and delivery, in
-- the order in which they end, and the one of the whole poll behind them. What a span holds besides
-- its attributes is its name and the error that is recorded on it, with the status's description. The
-- adapter of the classifier may rename its span and add attributes; what it does to it is a parameter.
pub mod Allowed
use if_sos_beacon.Base.{Text, codes, ℕ, Bool, Option, none, some, List, [], ◌∷◌, ◌++◌, length, map}
use if_sos_beacon.Base.Maps.{Map}
use if_sos_beacon.Base.Floats.{Float64}
use if_sos_beacon.Base.Errors.{Error, Result, ok, err}
use if_sos_beacon.Base.Go.{Platform}
use if_sos_beacon.Core.{
  Time, Duration, Signal, Verdict, Finding, BeaconContext, Fetcher, Classifier, Sink, Deduper,
  Recorder,
}
use if_sos_beacon.Config.{BeaconConfig}
use if_sos_beacon.Engine.Tally.{SourceStats, Stats}
use if_sos_beacon.Engine.Run.{Clock, run_pipeline}
use if_sos_beacon.Telemetry.{
  Span, source_attr, beacon_attr, mode_attr, source_name_attr, post_id_attr, bucket_attr, fit_attr,
  reasoning_summary_attr, fetched_attr, delivered_attr,
}

pub data AttributeValue : Type 0 where
  string : Text → AttributeValue
  int : ℕ → AttributeValue
  float : Float64 → AttributeValue

abbrev pub Attributes : Type 0
Attributes = List (Text × AttributeValue)

pub record SpanRest : Type 0 where
  pub name : Text
  pub failure : Option (Error × Text)

abbrev pub EngineSpan : Type 0
EngineSpan = Span AttributeValue SpanRest

-- What the adapter of the classifier does to the span of its call.
pub record Enrichment : Type 0 where
  pub renamed : Option Text
  pub attributes : Attributes

-- RecordError and SetStatus, where there is an error.
unfoldable pub failure_of : Text → Option Error → Option (Error × Text)
failure_of status none = none
failure_of status (some x) = some (x, status)

unfoldable pub fetch_span : Text → List Signal × Option Error → EngineSpan
unfolding failure_of
fetch_span name (got, x) = record {
  attributes = (source_name_attr, string name) ∷ (fetched_attr, int (length got)) ∷ [];
  rest = record { name = codes "source.fetch"; failure = failure_of (codes "fetch failed") x };
}

abbrev pointer_attributes : Signal → Attributes
pointer_attributes s = (source_name_attr, string s.source) ∷ (post_id_attr, string s.id) ∷ []

unfoldable pub verdict_attributes : Result Verdict → Attributes
verdict_attributes (err x) = []
verdict_attributes (ok v) =
    (bucket_attr, string v.bucket)
    ∷ (fit_attr, float v.fit)
    ∷ (reasoning_summary_attr, string v.reasoning)
    ∷ []

abbrev error_of : Result Verdict → Option Error
error_of (err x) = some x
error_of (ok v) = none

unfoldable pub classify_span : Enrichment → Signal → Result Verdict → EngineSpan
unfolding failure_of verdict_attributes
classify_span m s r = record {
  attributes = pointer_attributes s ++ m.attributes ++ verdict_attributes r;
  rest = record {
    name = elim m.renamed [ none ↦ codes "signal.classify" | some n ↦ n ];
    failure = failure_of (codes "classify failed") (error_of r);
  };
}

unfoldable pub deliver_span : Finding → Option Error → EngineSpan
unfolding failure_of
deliver_span f x = record {
  attributes =
      pointer_attributes f.signal
      ++ (bucket_attr, string f.verdict.bucket) ∷ (fit_attr, float f.verdict.fit) ∷ [];
  rest = record { name = codes "finding.deliver"; failure = failure_of (codes "deliver failed") x };
}

-- The funnel of each source.
unfoldable pub funnel_attributes : Map SourceStats → Attributes
unfolding source_attr
funnel_attributes [] = []
funnel_attributes ((name, s) ∷ m) =
    (source_attr name (codes "fetched"), int s.fetched)
    ∷ (source_attr name (codes "filtered"), int s.filtered)
    ∷ (source_attr name (codes "classified"), int s.classified)
    ∷ (source_attr name (codes "delivered"), int s.delivered)
    ∷ funnel_attributes m

unfoldable pub poll_span : BeaconConfig → Stats → EngineSpan
unfolding funnel_attributes
poll_span cfg st = record {
  attributes =
      (beacon_attr, string cfg.name)
      ∷ (mode_attr, string cfg.mode)
      ∷ (fetched_attr, int st.total.fetched)
      ∷ (delivered_attr, int st.total.delivered)
      ∷ funnel_attributes st.by_source;
  rest = record { name = codes "beacon.poll"; failure = none };
}

-- The world, and the spans that ended.
abbrev pub Observed : Type 0 → Type 0
Observed W = W × List EngineSpan

-- The ports over that world.
module _ {W : Type 0} where
  abbrev pub spanned_fetcher : Fetcher W → Fetcher (Observed W)
  spanned_fetcher f = record {
    name = f.name;
    fetch = λ o. let (r, w) = f.fetch o.0 in (r, (w, o.1 ++ fetch_span f.name r ∷ []));
    prefilters_by_keyword = f.prefilters_by_keyword;
  }

  abbrev pub spanned_classifier :
      (Signal → BeaconContext → W → Enrichment) → Classifier W → Classifier (Observed W)
  spanned_classifier enrich c = record {
    classify = λ s bc o.
        let (r, w) = c.classify s bc o.0 in
        (r, (w, o.1 ++ classify_span (enrich s bc o.0) s r ∷ []));
  }

  abbrev pub spanned_sink : Sink W → Sink (Observed W)
  spanned_sink k = record {
    deliver = λ f o. let (x, w) = k.deliver f o.0 in (x, (w, o.1 ++ deliver_span f x ∷ []));
  }

  -- These have no span.
  abbrev pub plain_deduper : Deduper W → Deduper (Observed W)
  plain_deduper d = record {
    seen = λ b src i o. let (x, w) = d.seen b src i o.0 in (x, (w, o.1));
    mark_seen = λ b src i o. let (x, w) = d.mark_seen b src i o.0 in (x, (w, o.1));
  }

  abbrev pub plain_recorder : Recorder W → Recorder (Observed W)
  plain_recorder r = record {
    record_finding = λ f o. let (x, w) = r.record_finding f o.0 in (x, (w, o.1));
  }

  abbrev pub plain_clock : Clock W → Clock (Observed W)
  plain_clock k = record {
    now = λ o. let (t, w) = k.now o.0 in (t, (w, o.1));
    wait = λ d o. let (b, w) = k.wait d o.0 in (b, (w, o.1));
  }

  -- A run behind its checks, with the spans that it ended.
  unfoldable pub observed_run :
      (Signal → BeaconContext → W → Enrichment)
      → Platform
      → Clock W
      → BeaconConfig
      → List (Fetcher W)
      → Duration
      → Classifier W
      → Sink W
      → Deduper W
      → Recorder W
      → Duration
      → W
      → (Stats × Option Error) × Observed W
  unfolding poll_span
  observed_run enrich p k cfg fs spacing cl sk dd rc max_age w =
      let (r, (w', spans)) =
        run_pipeline p (plain_clock k) cfg (map spanned_fetcher fs) spacing
          (spanned_classifier enrich cl) (spanned_sink sk) (plain_deduper dd) (plain_recorder rc)
          max_age (w, []) in
      (r, (w', spans ++ poll_span cfg r.0 ∷ []))
