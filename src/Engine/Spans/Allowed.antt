-- ===== src/Engine/Spans/Allowed.antt =====
-- Every attribute that RunBeacon puts on a span passes the exporter's allowlist.
use if_sos_beacon.Base.{
  Text, ◌≡◌, refl, ap, true, Option, List, [], ◌∷◌, ◌++◌, map, All, All-append, has_prefix,
}
use if_sos_beacon.Base.Maps.{Map}
use if_sos_beacon.Base.Errors.{Error, Result, ok, err}
use if_sos_beacon.Base.Go.{Platform}
use if_sos_beacon.Core.{
  Duration, Signal, Verdict, Finding, BeaconContext, Fetcher, Classifier, Sink, Deduper, Recorder,
}
use if_sos_beacon.Config.{BeaconConfig}
use if_sos_beacon.Engine.Tally.{SourceStats, Stats}
use if_sos_beacon.Engine.Pipeline.Keeps.{PortsKeep}
use if_sos_beacon.Engine.Run.{Clock, run_pipeline}
use if_sos_beacon.Engine.Run.Keeps.{FetcherKeeps, run_pipeline-keeps}
use if_sos_beacon.Telemetry.{allowed, filter_attrs, filtered_span, export_spans}
use if_sos_beacon.Telemetry.Allowlist.{allowed-source_attr}
use if_sos_beacon.Engine.Spans.{
  Attributes, EngineSpan, Enrichment, Observed, fetch_span, verdict_attributes, classify_span,
  deliver_span, funnel_attributes, poll_span, spanned_fetcher, spanned_classifier, spanned_sink,
  plain_deduper, plain_recorder, plain_clock, observed_run,
}

abbrev pub AllAllowed : Attributes → Type 0
AllAllowed = All (λ kv. allowed kv.0 ≡ true)

abbrev pub SpansAllowed : List EngineSpan → Type 0
SpansAllowed = All (λ s. AllAllowed s.attributes)

filter_attrs-AllAllowed : (kvs : Attributes) → AllAllowed kvs → filter_attrs kvs ≡ kvs
unfolding filter_attrs
filter_attrs-AllAllowed [] h = refl
filter_attrs-AllAllowed (kv ∷ kvs) (h, hs) =
    rw h (ap (λ r. kv ∷ r) (filter_attrs-AllAllowed kvs hs))

filtered_spans-SpansAllowed :
    (spans : List EngineSpan) → SpansAllowed spans → map filtered_span spans ≡ spans
unfolding filtered_span
filtered_spans-SpansAllowed [] h = refl
filtered_spans-SpansAllowed (s ∷ spans) (h, hs) =
    rw (filter_attrs-AllAllowed s.attributes h, filtered_spans-SpansAllowed spans hs) refl

fetch_span-AllAllowed :
    (name : Text) (r : List Signal × Option Error) → AllAllowed (fetch_span name r).attributes
unfolding fetch_span allowed has_prefix
fetch_span-AllAllowed name (got, x) = (refl, (refl, tt))

verdict_attributes-AllAllowed : (r : Result Verdict) → AllAllowed (verdict_attributes r)
unfolding verdict_attributes allowed has_prefix
verdict_attributes-AllAllowed (err x) = tt
verdict_attributes-AllAllowed (ok v) = (refl, (refl, (refl, tt)))

classify_span-AllAllowed :
    (m : Enrichment) (s : Signal) (r : Result Verdict)
    → AllAllowed m.attributes
    → AllAllowed (classify_span m s r).attributes
unfolding classify_span allowed has_prefix
classify_span-AllAllowed m s r h = (
  refl,
  (
    refl,
    All-append (λ kv. allowed kv.0 ≡ true) m.attributes (verdict_attributes r) h
        (verdict_attributes-AllAllowed r),
  ),
)

deliver_span-AllAllowed :
    (f : Finding) (x : Option Error) → AllAllowed (deliver_span f x).attributes
unfolding deliver_span allowed has_prefix
deliver_span-AllAllowed f x = (refl, (refl, (refl, (refl, tt))))

funnel_attributes-AllAllowed : (m : Map SourceStats) → AllAllowed (funnel_attributes m)
unfolding funnel_attributes
funnel_attributes-AllAllowed [] = tt
funnel_attributes-AllAllowed ((name, s) ∷ m) = (
  allowed-source_attr name _,
  (
    allowed-source_attr name _,
    (allowed-source_attr name _, (allowed-source_attr name _, funnel_attributes-AllAllowed m)),
  ),
)

poll_span-AllAllowed : (cfg : BeaconConfig) (st : Stats) → AllAllowed (poll_span cfg st).attributes
unfolding poll_span allowed has_prefix
poll_span-AllAllowed cfg st =
    (refl, (refl, (refl, (refl, funnel_attributes-AllAllowed st.by_source))))

module _ {W : Type 0} (enrich : Signal → BeaconContext → W → Enrichment)
    (enrich-allowed : (s : Signal) (bc : BeaconContext) (w : W)
      → AllAllowed (enrich s bc w).attributes) where
  abbrev Clean : Observed W → Type 0
  Clean o = SpansAllowed o.1

  one_more :
      (spans : List EngineSpan) (s : EngineSpan)
      → SpansAllowed spans
      → AllAllowed s.attributes
      → SpansAllowed (spans ++ s ∷ [])
  one_more spans s h hs = All-append (λ t. AllAllowed t.attributes) spans (s ∷ []) h (hs, tt)

  fetchers-Clean : (fs : List (Fetcher W)) → All (FetcherKeeps Clean) (map spanned_fetcher fs)
  fetchers-Clean [] = tt
  fetchers-Clean (f ∷ fs) = (
    λ o h.
        one_more o.1 (fetch_span f.name (f.fetch o.0).0) h
          (fetch_span-AllAllowed f.name (f.fetch o.0).0),
    fetchers-Clean fs,
  )

  ports-Clean :
      (cl : Classifier W) (sk : Sink W) (dd : Deduper W) (rc : Recorder W)
      → PortsKeep Clean
          (spanned_classifier enrich cl)
          (spanned_sink sk)
          (plain_deduper dd)
          (plain_recorder rc)
  ports-Clean cl sk dd rc = record {
    on_classify = λ s bc o h.
        one_more o.1 (classify_span (enrich s bc o.0) s (cl.classify s bc o.0).0) h (
          classify_span-AllAllowed (enrich s bc o.0) s (cl.classify s bc o.0).0
            (enrich-allowed s bc o.0));
    on_deliver = λ f o h.
        one_more o.1 (deliver_span f (sk.deliver f o.0).0) h
          (deliver_span-AllAllowed f (sk.deliver f o.0).0);
    on_seen = λ b src i o h. h;
    on_mark = λ b src i o h. h;
    on_record = λ f o h. h;
  }

  -- The exporter hands on every span of a run as it is: each attribute that the engine puts on a span
  -- passes the allowlist, the funnel of every source included. The attributes that the classifier's adapter
  -- adds are taken to pass it too.
  pub observed_run-exported :
      {V : Type 0}
      → (next : List EngineSpan → V → Option Error × V) (p : Platform) (k : Clock W)
      → (cfg : BeaconConfig) (fs : List (Fetcher W)) (spacing : Duration) (cl : Classifier W)
      → (sk : Sink W) (dd : Deduper W) (rc : Recorder W) (max_age : Duration) (w : W) (v : V)
      → (let spans = (observed_run enrich p k cfg fs spacing cl sk dd rc max_age w).1.1 in
          export_spans next spans v ≡ next spans v)
  unfolding observed_run export_spans
  observed_run-exported next p k cfg fs spacing cl sk dd rc max_age w v =
      let run =
        run_pipeline p (plain_clock k) cfg (map spanned_fetcher fs) spacing
          (spanned_classifier enrich cl) (spanned_sink sk) (plain_deduper dd) (plain_recorder rc)
          max_age (w, []) in
      let clean =
        run_pipeline-keeps Clean p (plain_clock k)
          (record { on_now = λ o h. h; on_wait = λ d o h. h }) cfg (map spanned_fetcher fs)
          (fetchers-Clean fs) spacing (spanned_classifier enrich cl) (spanned_sink sk)
          (plain_deduper dd) (plain_recorder rc) (ports-Clean cl sk dd rc) max_age (w, []) tt in
      ap (λ t. next t v)
        (filtered_spans-SpansAllowed _
          (one_more run.1.1 (poll_span cfg run.0.0) clean (poll_span-AllAllowed cfg run.0.0)))
