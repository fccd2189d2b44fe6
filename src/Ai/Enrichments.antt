-- ===== src/Ai/Enrichments.antt =====
-- What internal/ai/openaicompat.go does to the span of a classification, under the engine that opened it.
use if_sos_beacon.Base.{Text, codes, ◌≡◌, true, Option, none, some, List, [], ◌∷◌, ◌++◌, map, All}
use if_sos_beacon.Base.Int.{ℤ}
use if_sos_beacon.Base.Errors.{Error}
use if_sos_beacon.Base.Go.{Platform}
use if_sos_beacon.Core.{
  Duration, Signal, BeaconContext, Fetcher, Classifier, Sink, Deduper, Recorder,
}
use if_sos_beacon.Config.{BeaconConfig}
use if_sos_beacon.Telemetry.{allowed, export_spans}
use if_sos_beacon.Engine.Run.{Clock}
use if_sos_beacon.Engine.Spans.{string, Attributes, Enrichment, EngineSpan, observed_run}
use if_sos_beacon.Engine.Spans.Allowed.{AllAllowed, observed_run-exported}
use if_sos_beacon.Ai.{OpenAiCompat, ChatResponse, gen_ai_attributes}
use if_sos_beacon.Ai.Classified.{gen_ai_attributes-allowed}

-- Each value stands as its text.
abbrev as_strings : List (Text × Text) → Attributes
as_strings = map (λ kv. (kv.0, string kv.1))

-- recordGenAI, where the classification came to it.
unfoldable pub enrichment_of : (ℤ → Text) → OpenAiCompat → Option ChatResponse → Enrichment
enrichment_of number c none = record { renamed = none; attributes = [] }
enrichment_of number c (some cr) = record {
  renamed = some (codes "chat " ++ c.model);
  attributes = as_strings (gen_ai_attributes number c cr);
}

-- Each classification comes to the response that `answer` says, if to any.
abbrev pub enriching :
    {W : Type 0}
    → (ℤ → Text)
    → OpenAiCompat
    → (Signal → BeaconContext → W → Option ChatResponse)
    → Signal
    → BeaconContext
    → W
    → Enrichment
enriching number c answer s bc w = enrichment_of number c (answer s bc w)

as_strings-AllAllowed :
    (kvs : List (Text × Text)) → All (λ kv. allowed kv.0 ≡ true) kvs → AllAllowed (as_strings kvs)
as_strings-AllAllowed [] h = tt
as_strings-AllAllowed (kv ∷ kvs) (h, hs) = (h, as_strings-AllAllowed kvs hs)

enrichment_of-AllAllowed :
    (number : ℤ → Text) (c : OpenAiCompat) (cr : Option ChatResponse)
    → AllAllowed (enrichment_of number c cr).attributes
unfolding enrichment_of
enrichment_of-AllAllowed number c none = tt
enrichment_of-AllAllowed number c (some cr) =
    as_strings-AllAllowed (gen_ai_attributes number c cr) (gen_ai_attributes-allowed number c cr)

-- The exporter hands on every span of a run as it is: each attribute that the engine puts on a span,
-- the funnel of every source included, and each that the classifier's adapter adds passes the
-- allowlist, whatever the sources fetched and whichever response `answer` says that each classification
-- came to.
pub enriched_run_exported :
    {W V : Type 0} (number : ℤ → Text) (c : OpenAiCompat)
    (answer : Signal → BeaconContext → W → Option ChatResponse)
    (next : List EngineSpan → V → Option Error × V) (p : Platform) (k : Clock W)
    (cfg : BeaconConfig) (fs : List (Fetcher W)) (spacing : Duration) (cl : Classifier W)
    (sk : Sink W) (dd : Deduper W) (rc : Recorder W) (max_age : Duration) (w : W) (v : V)
    → export_spans next
        (observed_run (enriching number c answer) p k cfg fs spacing cl sk dd rc max_age w).1.1
        v
      ≡ next
          (observed_run (enriching number c answer) p k cfg fs spacing cl sk dd rc max_age w).1.1
          v
enriched_run_exported number c answer =
    observed_run-exported (enriching number c answer)
      (λ s bc w'. enrichment_of-AllAllowed number c (answer s bc w'))
